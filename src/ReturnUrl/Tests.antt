-- ===== src/ReturnUrl/Tests.antt =====
-- Two origins, one of them entered twice, and a redirect to a page under the other.
use postral_core.Prelude.{
  ◌≡◌, refl, String, Option, none, some, List, [], ◌∷◌, map, ok, if◌then◌else◌, str_eq, ◌≤◌, inl,
  inr, trim, is_blank, utf16_length, Bool-cases, true, false,
}
use mathlib.Core.Path.{subst}
use mathlib.Core.Option.{some-injective}
use postral_core.ReturnUrl.{
  Url, Input, text, array, is_http, has_credentials, is_more, http_only, parse_http_url,
  parse_value, add_origin, origin_of, collect_origins, normalize_return_origins, check_origin,
  validate_return_url,
}
use postral_core.ReturnUrl.Again.{bare, IsSerialized, normalize_return_origins-again}
use postral_core.ReturnUrl.Entered.{is_entered, validate_return_url-entered}

abbrev page : String → String → String → Url
page origin pathname href = record {
  protocol = "https:";
  username = "";
  password = "";
  pathname = pathname;
  search = "";
  hash = "";
  origin = origin;
  href = href;
}

-- `new URL` on the three addresses of the example
abbrev read_url : String → Option Url
read_url s =
    if str_eq s "https://a.example"
    then some (page "https://a.example" "/" "https://a.example/")
    else if str_eq s "https://b.example"
    then some (page "https://b.example" "/" "https://b.example/")
    else if str_eq s "https://b.example/done"
    then some (page "https://b.example" "/done" "https://b.example/done")
    else none

-- What the origins of the three addresses read as.
IsBare : Url → Type 0
IsBare u = (trim u.origin ≡ u.origin) × ((href : String) × (read_url u.origin ≡ some (bare u href)))

a-IsBare : IsBare (page "https://a.example" "/" "https://a.example/")
unfolding IsBare trim is_blank
a-IsBare = (refl, ("https://a.example/", refl))

b-IsBare : (pathname href : String) → IsBare (page "https://b.example" pathname href)
unfolding IsBare trim is_blank
b-IsBare pathname href = (refl, ("https://b.example/", refl))

read_url-IsSerialized : IsSerialized read_url
unfolding IsSerialized IsBare
read_url-IsSerialized s u found http = elim (Bool-cases (str_eq s "https://a.example")) [
  | inl yes_a ↦ subst IsBare (some-injective _ _ (rw yes_a at found)) a-IsBare
  | inr not_a ↦ elim (Bool-cases (str_eq s "https://b.example")) [
    | inl yes_b ↦
        subst IsBare (some-injective _ _ (rw yes_b at (rw not_a at found)))
          (b-IsBare "/" "https://b.example/")
    | inr not_b ↦ elim (Bool-cases (str_eq s "https://b.example/done")) [
      | inl yes_done ↦
          subst IsBare (some-injective _ _ (rw yes_done at (rw not_b at (rw not_a at found))))
            (b-IsBare "/done" "https://b.example/done")
      | inr not_done ↦ cc (rw not_done at (rw not_b at (rw not_a at found)))
    ]
  ]
]

abbrev entered : Input
entered =
    array (text " https://b.example" ∷ text "https://a.example" ∷ text "https://b.example" ∷ [])

abbrev normal_form : List String
normal_form = "https://b.example" ∷ "https://a.example" ∷ []

entered-normal : normalize_return_origins read_url entered ≡ ok normal_form
unfolding normalize_return_origins collect_origins add_origin origin_of parse_value parse_http_url
    http_only is_http has_credentials is_more trim is_blank
entered-normal = refl

normalize_return_origins-again_example :
    normalize_return_origins read_url (array (map text normal_form)) ≡ ok normal_form
normalize_return_origins-again_example =
    normalize_return_origins-again read_url read_url-IsSerialized entered entered-normal

redirect_accepted :
    validate_return_url read_url (text "https://b.example/done") (some normal_form) true
    ≡ ok "https://b.example/done"
unfolding validate_return_url check_origin parse_http_url http_only is_http has_credentials
    utf16_length
redirect_accepted = refl

validate_return_url-entered_example :
    (utf16_length "https://b.example/done" ≤ 2048)
    × ((u : Url) × (read_url "https://b.example/done" ≡ some u)
        × (is_http u ≡ true)
        × (has_credentials u ≡ false)
        × (is_entered read_url entered u.origin ≡ true)
        × ("https://b.example/done" ≡ u.href))
validate_return_url-entered_example =
    validate_return_url-entered read_url entered "https://b.example/done" entered-normal
      redirect_accepted
