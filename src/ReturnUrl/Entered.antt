-- ===== src/ReturnUrl/Entered.antt =====
-- The origins of addresses that are accepted.
use postral_core.Prelude.{
  ◌≡◌, refl, sym, ap, ◌∙◌, ◌≤◌, arith, String, Bool, true, false, not, ◌||◌, Option, some, List, [],
  ◌∷◌, ◌++◌, inl, inr, Result, ok, err, >>=-returned, throw_if, throw_if-ok, or_throw, or_throw-ok,
  ok-injective, ltb, ◌==◌, length, any, str_eq, includes, utf16_length, Bool-cases,
}
use postral_core.ReturnUrl.{
  Url, Value, text, Input, missing, scalar, array, UrlFailure, no_origins, origin_not_allowed,
  invalid_redirect, not_absolute, max_return_origins, max_return_url_length, is_http,
  has_credentials, add_origin, parse_http_url, origin_of, collect_origins, normalize_return_origins,
  check_origin, validate_return_url,
}
use postral_core.ReturnUrl.Again.{parse_http_url-returned}

-- Whether a value reads as the origin.
abbrev pub is_origin : Result UrlFailure String → String → Bool
is_origin (ok p) o = str_eq p o
is_origin (err e) o = false

includes-append :
    (xs : List String) (p o : String) → includes (xs ++ (p ∷ [])) o ≡ (includes xs o || str_eq p o)
includes-append [] p o = ground arith
includes-append (x ∷ xs) p o = let rest = includes-append xs p o in ground arith

add_origin-includes :
    (origins : List String) (p o : String)
    → includes (add_origin origins p) o ≡ true
    → (includes origins o || str_eq p o) ≡ true
unfolding add_origin
add_origin-includes origins p o h = elim (Bool-cases (includes origins p)) [
  | inl there ↦ rw (rw there at h) refl
  | inr absent ↦ sym (includes-append origins p o) ∙ (rw absent at h)
]

module _ (parse : String → Option Url) where
  -- Whether one of the values that were entered reads as the origin.
  unfoldable pub is_entered : Input → String → Bool
  is_entered missing o = false
  is_entered scalar o = false
  is_entered (array vs) o = any (λ v. is_origin (origin_of parse v) o) vs

  collect-entered :
      (origins : List String) (vs : List Value) (o : String) {out : List String}
      → collect_origins parse origins vs ≡ ok out
      → includes out o ≡ true
      → (includes origins o || any (λ v. is_origin (origin_of parse v) o) vs) ≡ true
  unfolding collect_origins
  collect-entered origins [] o h there =
      let before = ap (λ os. includes os o) (ok-injective h) ∙ there in ground arith
  collect-entered origins (v ∷ vs) o h there =
      let (p, call, rest) = >>=-returned (origin_of parse v) _ h in
      let later = collect-entered (add_origin origins p) vs o rest there in
      let added = add_origin-includes origins p o in
      let here = ap (λ r. is_origin r o) call in ground arith

  normalize-entered :
      (input : Input) (o : String) {origins : List String}
      → normalize_return_origins parse input ≡ ok origins
      → includes origins o ≡ true
      → is_entered input o ≡ true
  unfolding normalize_return_origins is_entered
  normalize-entered missing o h there = ap (λ os. includes os o) (ok-injective h) ∙ there
  normalize-entered scalar o h there = cc
  normalize-entered (array vs) o h there =
      let (_, _, rest) = >>=-returned (throw_if (ltb max_return_origins (length vs)) _) _ h in
      collect-entered [] vs o rest there

  check_origin-ok :
      (origins : List String) (u : Url) {done : Unit {0}}
      → check_origin parse (some origins) u ≡ ok done
      → includes origins u.origin ≡ true
  unfolding check_origin
  check_origin-ok origins u h =
      let (_, _, rest) = >>=-returned (throw_if (length origins == 0) no_origins) _ h in
      let allowed = throw_if-ok (not (includes origins u.origin)) origin_not_allowed rest in
      ground arith

  -- In production, with the origins that an administrator's list was normalized to, a redirect
  -- that is accepted is a text of at most 2048 code units; it reads as an HTTP address without
  -- credentials whose origin one of the listed values reads as, and the answer is that address.
  pub validate_return_url-entered :
      (input : Input) (s : String) {origins : List String} {out : String}
      → normalize_return_origins parse input ≡ ok origins
      → validate_return_url parse (text s) (some origins) true ≡ ok out
      → (utf16_length s ≤ 2048)
        × ((u : Url) × (parse s ≡ some u)
            × (is_http u ≡ true)
            × (has_credentials u ≡ false)
            × (is_entered input u.origin ≡ true)
            × (out ≡ u.href))
  unfolding validate_return_url
  validate_return_url-entered input s normal h =
      let long = str_eq s "" || ltb max_return_url_length (utf16_length s) in
      let (_, short, rest) = >>=-returned (throw_if long invalid_redirect) _ h in
      let (u, read, checked) =
        >>=-returned (or_throw (parse_http_url parse s) not_absolute) _ rest in
      let (_, allowed, done) = >>=-returned (check_origin parse (some _) u) _ checked in
      let fits = throw_if-ok long invalid_redirect short in
      let (found, http, plain) = parse_http_url-returned parse s (or_throw-ok _ _ read) in
      (
        ground arith,
        (
          u,
          found,
          http,
          plain,
          normalize-entered input u.origin normal (check_origin-ok _ u allowed),
          sym (ok-injective done),
        ),
      )
