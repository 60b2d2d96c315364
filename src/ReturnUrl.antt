-- ===== src/ReturnUrl.antt =====
-- The addresses that a browser may be sent back to:
-- libs/payment-core-webservice/src/util/payment-return-url.util.ts. `new URL` is the argument
-- `parse`: the parsed address, or nothing where the constructor throws.
mod Again
mod Entered
mod Tests
use postral_core.Prelude.{
  ℕ, String, Bool, true, false, not, ◌&&◌, ◌||◌, Option, none, some, List, [], ◌∷◌, ◌++◌, Result,
  ok, err, ◌>>=◌, ◌>>◌, throw_if, or_throw, if◌then◌else◌, ltb, ◌==◌, length, str_eq, includes,
  trim, utf16_length,
}

-- What the source reads of a `URL`.
pub record Url : Type 0 where
  protocol : String
  username : String
  password : String
  pathname : String
  search : String
  hash : String
  origin : String
  href : String

-- An `unknown` value: a string, or another value.
pub data Value : Type 0 where
  text : String → Value
  other : Value

-- The `input: unknown` of `normalizeReturnOrigins`.
pub data Input : Type 0 where
  missing : Input
  scalar : Input
  array : List Value → Input

pub data UrlFailure : Type 0 where
  not_a_list : UrlFailure
  invalid_origin : UrlFailure
  invalid_redirect : UrlFailure
  not_absolute : UrlFailure
  no_origins : UrlFailure
  origin_not_allowed : UrlFailure

abbrev pub max_return_url_length : ℕ
max_return_url_length = 2048

abbrev pub max_return_origins : ℕ
max_return_origins = 50

-- `['http:', 'https:'].includes(url.protocol)`
unfoldable pub is_http : Url → Bool
is_http u = includes ("http:" ∷ "https:" ∷ []) u.protocol

unfoldable pub has_credentials : Url → Bool
has_credentials u = not (str_eq u.username "") || not (str_eq u.password "")

-- Nothing for an address that is not HTTP or carries credentials.
unfoldable pub http_only : Option Url → Option Url
http_only none = none
http_only (some u) = if not (is_http u) || has_credentials u then none else some u

-- `url.pathname !== '/' || url.search || url.hash`
unfoldable pub is_more : Url → Bool
is_more u = not (str_eq u.pathname "/") || not (str_eq u.search "") || not (str_eq u.hash "")

-- `origins.add(origin)`
unfoldable pub add_origin : List String → String → List String
add_origin origins o = if includes origins o then origins else origins ++ (o ∷ [])

module _ (parse : String → Option Url) where
  unfoldable pub parse_http_url : String → Option Url
  parse_http_url s = http_only (parse s)

  unfoldable pub parse_value : Value → Option Url
  parse_value (text s) = parse_http_url (trim s)
  parse_value other = none

  -- One turn of the loop, up to the origin that it adds.
  unfoldable pub origin_of : Value → Result UrlFailure String
  origin_of v = do
    u ← or_throw (parse_value v) invalid_origin
    throw_if (is_more u) invalid_origin
    ok u.origin

  unfoldable pub collect_origins : List String → List Value → Result UrlFailure (List String)
  collect_origins origins [] = ok origins
  collect_origins origins (v ∷ vs) = do o ← origin_of v; collect_origins (add_origin origins o) vs

  unfoldable pub normalize_return_origins : Input → Result UrlFailure (List String)
  normalize_return_origins missing = ok []
  normalize_return_origins scalar = err not_a_list
  normalize_return_origins (array vs) =
      throw_if (ltb max_return_origins (length vs)) not_a_list >> collect_origins [] vs

  -- The check of the allowed origins, in production.
  unfoldable pub check_origin : Option (List String) → Url → Result UrlFailure (Unit {0})
  check_origin none u = err no_origins
  check_origin (some origins) u = do
    throw_if (length origins == 0) no_origins
    throw_if (not (includes origins u.origin)) origin_not_allowed

  unfoldable pub validate_return_url :
      Value → Option (List String) → Bool → Result UrlFailure String
  validate_return_url other allowed production = err invalid_redirect
  validate_return_url (text s) allowed production = do
    throw_if (str_eq s "" || ltb max_return_url_length (utf16_length s)) invalid_redirect
    u ← or_throw (parse_http_url s) not_absolute
    if production then check_origin allowed u else ok tt
    ok u.href
