-- ===== src/Prelude/Lists.antt =====
-- Lists measured and searched with Boolean tests, as the array methods of the source.
use Prim.Native.Nat.{ℕ, suc, ◌+◌}
use mathlib.Core.Path.{◌≡◌, refl, ap₂, ◌∙◌}
use mathlib.Core.Logic.{inl, inr}
use mathlib.Core.Bool.{Bool, true, false, not, ◌&&◌, ◌||◌}
use mathlib.Core.List.{List, [], ◌∷◌, ◌++◌, map}
use mathlib.Core.Option.{Option, none, some}
use native.Mathlib.Omega.{arith}
use postral_core.Prelude.Tests.{if◌then◌else◌, ||-eq-false, ||-assoc, ||-true, Bool-cases}

module _ {ℓ} {A : Type ℓ} where
  abbrev pub length : List A → ℕ
  length [] = 0
  length (_ ∷ xs) = suc (length xs)

  -- `Array.find`
  abbrev pub find : (A → Bool) → List A → Option A
  find p [] = none
  find p (x ∷ xs) = if p x then some x else find p xs

  -- `Array.filter`
  abbrev pub filter : (A → Bool) → List A → List A
  filter p [] = []
  filter p (x ∷ xs) = let rest = filter p xs in if p x then x ∷ rest else rest

  -- `Array.some`
  abbrev pub any : (A → Bool) → List A → Bool
  any p [] = false
  any p (x ∷ xs) = p x || any p xs

  -- `Array.every`
  abbrev pub all : (A → Bool) → List A → Bool
  all p [] = true
  all p (x ∷ xs) = p x && all p xs

  -- `Array.flatMap`
  abbrev pub flat_map {κ} : {B : Type κ} → (A → List B) → List A → List B
  flat_map f [] = []
  flat_map f (x ∷ xs) = f x ++ flat_map f xs

  -- Replaces every element that passes the test, as an UPDATE with a WHERE does.
  abbrev pub update_where : (A → Bool) → (A → A) → List A → List A
  update_where p f [] = []
  update_where p f (x ∷ xs) = (if p x then f x else x) ∷ update_where p f xs

  abbrev pub All {κ} : (A → Type κ) → List A → Type κ
  All P [] = Unit
  All P (x ∷ xs) = P x × All P xs

  pub length-append : (xs ys : List A) → length (xs ++ ys) ≡ length xs + length ys
  length-append [] ys = omega arith
  length-append (x ∷ xs) ys = omega (arith, length-append xs ys)

  pub All-update_where {κ} :
      (P : A → Type κ) (test : A → Bool) (f : A → A)
      → ((x : A) → P x → P (f x))
      → (xs : List A) → All P xs
      → All P (update_where test f xs)
  All-update_where P test f keeps [] h = tt
  All-update_where P test f keeps (x ∷ xs) (h, hs) =
      (one (test x), All-update_where P test f keeps xs hs)
    where
      one : (t : Bool) → P (if t then f x else x)
      one true = keeps x h
      one false = h

  pub All-append {κ} : (P : A → Type κ) (xs ys : List A) → All P xs → All P ys → All P (xs ++ ys)
  All-append P [] ys h k = k
  All-append P (x ∷ xs) ys (h, hs) k = (h, All-append P xs ys hs k)

  pub update_where-none :
      (test : A → Bool) (f : A → A) (xs : List A)
      → any test xs ≡ false
      → update_where test f xs ≡ xs
  update_where-none test f [] h = refl
  update_where-none test f (x ∷ xs) h =
      let (first, rest) = ||-eq-false (test x) (any test xs) h in
      rw (first, update_where-none test f xs rest)

  pub any-append :
      (test : A → Bool) (xs ys : List A) → any test (xs ++ ys) ≡ (any test xs || any test ys)
  any-append test [] ys = refl
  any-append test (x ∷ xs) ys = rw (any-append test xs ys) (||-assoc (test x) _ _)

  pub filter-append :
      (test : A → Bool) (xs ys : List A) → filter test (xs ++ ys) ≡ filter test xs ++ filter test ys
  filter-append test [] ys = refl
  filter-append test (x ∷ xs) ys = kept (test x) (filter-append test xs ys)
    where
      kept :
          (t : Bool)
          → filter test (xs ++ ys) ≡ filter test xs ++ filter test ys
          → (if t then x ∷ filter test (xs ++ ys) else filter test (xs ++ ys))
            ≡ (if t then x ∷ filter test xs else filter test xs) ++ filter test ys
      kept true h = rw h
      kept false h = h

  pub filter-filter :
      (test : A → Bool) (xs : List A) → filter test (filter test xs) ≡ filter test xs
  filter-filter test [] = refl
  filter-filter test (x ∷ xs) = kept (test x) refl (filter-filter test xs)
    where
      kept :
          (t : Bool)
          → test x ≡ t
          → filter test (filter test xs) ≡ filter test xs
          → filter test (if t then x ∷ filter test xs else filter test xs)
            ≡ (if t then x ∷ filter test xs else filter test xs)
      kept true h k = rw (h, k)
      kept false h k = k

  pub filter-none :
      (test : A → Bool) (xs : List A) → All (λ x. test x ≡ false) xs → filter test xs ≡ []
  filter-none test [] h = refl
  filter-none test (x ∷ xs) (h, hs) = rw (h, filter-none test xs hs)

  pub any-update_where :
      (look test : A → Bool) (f : A → A)
      → ((x : A) → look (f x) ≡ look x)
      → (xs : List A) → any look (update_where test f xs) ≡ any look xs
  any-update_where look test f keeps [] = refl
  any-update_where look test f keeps (x ∷ xs) =
      ap₂ ◌||◌ (one (test x)) (any-update_where look test f keeps xs)
    where
      one : (t : Bool) → look (if t then f x else x) ≡ look x
      one true = keeps x
      one false = refl

  pub map-update_where {κ} :
      {B : Type κ} (g : A → B) (test : A → Bool) (f : A → A)
      → ((x : A) → g (f x) ≡ g x)
      → (xs : List A) → map g (update_where test f xs) ≡ map g xs
  map-update_where g test f keeps [] = refl
  map-update_where g test f keeps (x ∷ xs) =
      ap₂ ◌∷◌ (one (test x)) (map-update_where g test f keeps xs)
    where
      one : (t : Bool) → g (if t then f x else x) ≡ g x
      one true = keeps x
      one false = refl

  pub any→find :
      (test : A → Bool) (xs : List A) → any test xs ≡ true → (x : A) × (find test xs ≡ some x)
  any→find test [] h = cc
  any→find test (x ∷ xs) h = elim (Bool-cases (test x)) [
    | inl yes_test ↦ (x, rw yes_test)
    | inr no_test ↦ rw no_test (any→find test xs (rw no_test at h))
  ]

  pub find→any :
      (test : A → Bool) (xs : List A) {x : A} → find test xs ≡ some x → any test xs ≡ true
  find→any test [] h = cc
  find→any test (x ∷ xs) h = elim (Bool-cases (test x)) [
    | inl yes_test ↦ rw yes_test
    | inr no_test ↦ rw no_test (find→any test xs (rw no_test at h))
  ]

  pub update_where-twice :
      (test : A → Bool) (f : A → A)
      → ((x : A) → test (f x) ≡ test x)
      → ((x : A) → f (f x) ≡ f x)
      → (xs : List A) → update_where test f (update_where test f xs) ≡ update_where test f xs
  update_where-twice test f keeps twice [] = refl
  update_where-twice test f keeps twice (x ∷ xs) =
      ap₂ ◌∷◌ (one (test x) refl) (update_where-twice test f keeps twice xs)
    where
      one :
          (t : Bool)
          → test x ≡ t
          → (if test (if t then f x else x)
              then f (if t then f x else x)
              else (if t then f x else x))
            ≡ (if t then f x else x)
      one true h = rw (keeps x, h) (twice x)
      one false h = rw h

  pub All-filter {κ μ} :
      (P : A → Type κ) (Q : A → Type μ) (test : A → Bool)
      → ((x : A) → P x → test x ≡ true → Q x)
      → (xs : List A) → All P xs
      → All Q (filter test xs)
  All-filter P Q test keeps [] h = tt
  All-filter P Q test keeps (x ∷ xs) (h, hs) = elim (Bool-cases (test x)) [
    | inl yes_test ↦ rw yes_test (keeps x h yes_test, All-filter P Q test keeps xs hs)
    | inr no_test ↦ rw no_test (All-filter P Q test keeps xs hs)
  ]

  pub All-and {κ μ} :
      (P : A → Type κ) (Q : A → Type μ) (xs : List A)
      → All P xs
      → All Q xs
      → All (λ x. P x × Q x) xs
  All-and P Q [] h k = tt
  All-and P Q (x ∷ xs) (h, hs) (k, ks) = ((h, k), All-and P Q xs hs ks)

  pub All-map {κ μ} :
      (P : A → Type κ) (Q : A → Type μ)
      → ((x : A) → P x → Q x)
      → (xs : List A) → All P xs
      → All Q xs
  All-map P Q f [] h = tt
  All-map P Q f (x ∷ xs) (h, hs) = (f x h, All-map P Q f xs hs)

  -- An element that is looked for and passes the filter is still there.
  pub any-filter :
      (look test : A → Bool)
      → ((x : A) → look x ≡ true → test x ≡ true)
      → (xs : List A) → any look xs ≡ true
      → any look (filter test xs) ≡ true
  any-filter look test passes [] h = h
  any-filter look test passes (x ∷ xs) h = elim (Bool-cases (look x)) [
    | inl hit ↦ rw (passes x hit, hit)
    | inr miss ↦ later (test x) (any-filter look test passes xs (rw miss at h))
  ]
    where
      later :
          (t : Bool)
          → any look (filter test xs) ≡ true
          → any look (if t then x ∷ filter test xs else filter test xs) ≡ true
      later true k = ap₂ ◌||◌ refl k ∙ ||-true (look x)
      later false k = k

  pub length-filter :
      (test : A → Bool) (xs : List A)
      → length xs ≡ length (filter (λ x. not (test x)) xs) + length (filter test xs)
  length-filter test [] = refl
  length-filter test (x ∷ xs) = elim (Bool-cases (test x)) [
    | inl yes_test ↦ rw yes_test (omega (arith, length-filter test xs))
    | inr no_test ↦ rw no_test (omega (arith, length-filter test xs))
  ]
