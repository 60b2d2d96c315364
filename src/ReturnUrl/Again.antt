-- ===== src/ReturnUrl/Again.antt =====
-- The normal form of a list of origins, normalized once more.
use postral_core.Prelude.{
  ◌≡◌, refl, sym, ap, ◌∙◌, ℕ, suc, ◌+◌, ◌≤◌, arith, String, true, false, not, ◌||◌, Option, none,
  some, List, [], ◌∷◌, ◌++◌, map, inl, inr, ok, ◌>>=◌, >>=-returned, >>=-ok, throw_if, throw_if-ok,
  or_throw, or_throw-ok, ok-injective, ltb, length, length-append, includes, trim, Bool-cases,
}
use mathlib.Core.Path.{subst}
use mathlib.Core.List.{map-append}
use mathlib.Core.Option.{some-injective}
use postral_core.ReturnUrl.{
  Url, Value, text, other, Input, missing, scalar, array, invalid_origin, not_a_list,
  max_return_origins, is_http, has_credentials, is_more, add_origin, http_only, parse_http_url,
  parse_value, origin_of, collect_origins, normalize_return_origins,
}

-- The address that consists of an origin, as `new URL` reads it.
abbrev pub bare : Url → String → Url
bare u href = record {
  protocol = u.protocol;
  username = "";
  password = "";
  pathname = "/";
  search = "";
  hash = "";
  origin = u.origin;
  href = href;
}

-- What the origin of an HTTP address is: a text without white space around it, which reads as
-- the address without credentials, path, search and fragment.
unfoldable pub IsSerialized : (String → Option Url) → Type 0
IsSerialized parse =
    (s : String) (u : Url)
    → parse s ≡ some u
    → is_http u ≡ true
    → (trim u.origin ≡ u.origin) × ((href : String) × (parse u.origin ≡ some (bare u href)))

http_only-returned :
    (o : Option Url) {u : Url}
    → http_only o ≡ some u
    → (o ≡ some u) × (is_http u ≡ true) × (has_credentials u ≡ false)
unfolding http_only
http_only-returned none h = cc
http_only-returned (some u) h = elim (Bool-cases (not (is_http u) || has_credentials u)) [
  | inl refused ↦ cc (rw refused at h)
  | inr fine ↦
      let same = some-injective _ _ (rw fine at h) in
      subst (λ w. (some u ≡ some w) × (is_http w ≡ true) × (has_credentials w ≡ false)) same
        (refl, ground arith, ground arith)
]

http_only-bare :
    (u : Url) (href : String)
    → is_http u ≡ true
    → http_only (some (bare u href)) ≡ some (bare u href)
unfolding http_only has_credentials is_http
http_only-bare u href http = rw http refl

is_more-bare :
    (u : Url) (href : String)
    → (throw_if (is_more (bare u href)) invalid_origin >>= λ _. ok u.origin) ≡ ok u.origin
unfolding is_more
is_more-bare u href = refl

length-map : {A B : Type 0} (f : A → B) (xs : List A) → length (map f xs) ≡ length xs
length-map f [] = refl
length-map f (x ∷ xs) = ap suc (length-map f xs)

add_origin-length :
    (origins : List String) (o : String) → length (add_origin origins o) ≤ suc (length origins)
unfolding add_origin
add_origin-length origins o = elim (Bool-cases (includes origins o)) [
  | inl there ↦ rw there (omega arith)
  | inr absent ↦ rw absent (let same = length-append origins (o ∷ []) in omega arith)
]

few_origins :
    (m n : ℕ) → m ≤ n → ltb max_return_origins n ≡ false → ltb max_return_origins m ≡ false
few_origins m n le h = ground arith

module _ (parse : String → Option Url) where
  -- An address that is read is an HTTP address.
  pub parse_http_url-returned :
      (s : String) {u : Url}
      → parse_http_url parse s ≡ some u
      → (parse s ≡ some u) × (is_http u ≡ true) × (has_credentials u ≡ false)
  unfolding parse_http_url
  parse_http_url-returned s h = http_only-returned (parse s) h

  module _ (serialized : IsSerialized parse) where
    origin_of-bare :
        (s : String) (u : Url)
        → parse s ≡ some u
        → is_http u ≡ true
        → origin_of parse (text u.origin) ≡ ok u.origin
    unfolding IsSerialized origin_of parse_value parse_http_url
    origin_of-bare s u found http =
        let (trimmed, (href, reads)) = serialized s u found http in
        >>=-ok _ _
          (ap (λ o. or_throw o invalid_origin)
            (ap (λ t. http_only (parse t)) trimmed
              ∙ ap http_only reads
              ∙ http_only-bare u href http))
          (is_more-bare u href)

    origin_of_origin :
        (v : Value) {o : String} → origin_of parse v ≡ ok o → origin_of parse (text o) ≡ ok o
    unfolding origin_of parse_value
    origin_of_origin other h = cc
    origin_of_origin (text s) {o} h =
        let (u, call, rest) = >>=-returned _ _ h in
        let (_, _, done) = >>=-returned (throw_if (is_more u) invalid_origin) _ rest in
        let (found, http, _) = parse_http_url-returned (trim s) (or_throw-ok _ _ call) in
        subst (λ p. origin_of parse (text p) ≡ ok p) (ok-injective done)
          (origin_of-bare (trim s) u found http)

  collect-append :
      (origins : List String) (vs ws : List Value) {out : List String}
      → collect_origins parse origins vs ≡ ok out
      → collect_origins parse origins (vs ++ ws) ≡ collect_origins parse out ws
  unfolding collect_origins
  collect-append origins [] ws h = ap (λ o. collect_origins parse o ws) (ok-injective h)
  collect-append origins (v ∷ vs) ws h =
      let (o, call, rest) = >>=-returned (origin_of parse v) _ h in
      >>=-ok (origin_of parse v) _ call (collect-append (add_origin origins o) vs ws rest)

  IsStable : List String → Type 0
  IsStable origins = collect_origins parse [] (map text origins) ≡ ok origins

  add_origin-IsStable :
      (origins : List String) (o : String)
      → origin_of parse (text o) ≡ ok o
      → IsStable origins
      → IsStable (add_origin origins o)
  unfolding add_origin collect_origins IsStable
  add_origin-IsStable origins o is_origin stable = elim (Bool-cases (includes origins o)) [
    | inl there ↦ rw there stable
    | inr absent ↦ rw absent (
        ap (collect_origins parse []) (map-append text origins (o ∷ []))
        ∙ collect-append [] (map text origins) (text o ∷ []) stable
        ∙ >>=-ok (origin_of parse (text o)) _ is_origin (rw absent refl))
  ]

  collect-IsStable :
      IsSerialized parse
      → (origins : List String) (vs : List Value) {out : List String} → IsStable origins
      → collect_origins parse origins vs ≡ ok out
      → IsStable out
  unfolding collect_origins IsStable
  collect-IsStable serialized origins [] stable h = subst IsStable (ok-injective h) stable
  collect-IsStable serialized origins (v ∷ vs) stable h =
      let (o, call, rest) = >>=-returned (origin_of parse v) _ h in
      collect-IsStable serialized (add_origin origins o) vs
        (add_origin-IsStable origins o (origin_of_origin serialized v call) stable) rest

  collect-length :
      (origins : List String) (vs : List Value) {out : List String}
      → collect_origins parse origins vs ≡ ok out
      → length out ≤ length origins + length vs
  unfolding collect_origins
  collect-length origins [] h = rw (sym (ap length (ok-injective h))) (omega arith)
  collect-length origins (v ∷ vs) h =
      let (o, call, rest) = >>=-returned (origin_of parse v) _ h in
      let le = collect-length (add_origin origins o) vs rest in
      let one = add_origin-length origins o in omega arith

  -- Origins that were normalized are their own normal form: entered again, in the order of the
  -- result, they are accepted and none is lost, added or moved. That holds when the origin of an
  -- HTTP address reads as an address with nothing but that origin.
  pub normalize_return_origins-again :
      IsSerialized parse
      → (input : Input) {origins : List String} → normalize_return_origins parse input ≡ ok origins
      → normalize_return_origins parse (array (map text origins)) ≡ ok origins
  unfolding normalize_return_origins collect_origins IsStable
  normalize_return_origins-again serialized missing h =
      subst (λ o. normalize_return_origins parse (array (map text o)) ≡ ok o) (ok-injective h) refl
  normalize_return_origins-again serialized scalar h = cc
  normalize_return_origins-again serialized (array vs) {origins} h =
      let (_, small, rest) = >>=-returned (throw_if (ltb max_return_origins (length vs)) _) _ h in
      let le = collect-length [] vs rest in
      let fits = throw_if-ok (ltb max_return_origins (length vs)) not_a_list small in
      let same = length-map text origins in
      let few = few_origins (length (map text origins)) (length vs) (omega arith) fits in
      >>=-ok _ _ (ap (λ b. throw_if b not_a_list) few) (collect-IsStable serialized [] vs refl rest)
