-- ===== src/Prelude/Lookup.antt =====
-- A search by key after an update of the rows that pass a test.
use mathlib.Core.Path.{◌≡◌, ◌∙◌, ap, sym}
use mathlib.Core.Bool.{Bool}
use mathlib.Core.Option.{some, some-injective}
use mathlib.Core.List.{List, [], ◌∷◌}
use mathlib.Core.Logic.{inl, inr}
use Prim.Native.String.{String}
use native.Mathlib.Omega.{arith}
use text.Mathlib.TextEquality.{eq_iff}
use postral_core.Prelude.Tests.{if◌then◌else◌, Bool-cases}
use postral_core.Prelude.Lists.{find, update_where}
use postral_core.Prelude.Text.{str_eq, str_eq→eq}

pub str_eq_comm : (s t : String) → str_eq s t ≡ str_eq t s
str_eq_comm s t = ground (arith, eq_iff s t, eq_iff t s)

module _ {A : Type 0} (key : A → String) where
  -- The row that a search finds has the key.
  pub find_key :
      (k : String) (xs : List A) {x : A} → find (λ x. str_eq (key x) k) xs ≡ some x → key x ≡ k
  find_key k [] h = cc
  find_key k (y ∷ ys) {x} h = elim (Bool-cases (str_eq (key y) k)) [
    | inl same ↦ ap key (sym (some-injective _ _ (rw same at h))) ∙ str_eq→eq (key y) k same
    | inr other ↦ find_key k ys (rw other at h)
  ]

  module _ (test : A → Bool) (f : A → A) (keeps : (x : A) → key (f x) ≡ key x) where
    key_updated : (x : A) → key (if test x then f x else x) ≡ key x
    key_updated x = elim (Bool-cases (test x)) [
      | inl yes_test ↦ rw yes_test (keeps x)
      | inr no_test ↦ rw no_test
    ]

    -- A row that is found after the update is the update of the row that was found before it.
    pub find-update_where :
        (k : String) (xs : List A) {y : A}
        → find (λ x. str_eq (key x) k) (update_where test f xs) ≡ some y
        → (x : A) × (find (λ x. str_eq (key x) k) xs ≡ some x) × (y ≡ (if test x then f x else x))
    find-update_where k [] h = cc
    find-update_where k (x ∷ xs) {y} h = elim (Bool-cases (str_eq (key x) k)) [
      | inl same ↦
          let same' = key_updated x in
          let hit = ap (λ j. str_eq j k) same' ∙ same in
          (x, rw same, sym (some-injective _ _ (rw hit at h)))
      | inr other ↦
          let miss = ap (λ j. str_eq j k) (key_updated x) ∙ other in
          rw other (find-update_where k xs (rw miss at h))
    ]

    -- A row that is found before the update is found, updated, after it.
    pub find_updated :
        (k : String) (xs : List A) {x : A}
        → find (λ x. str_eq (key x) k) xs ≡ some x
        → find (λ x. str_eq (key x) k) (update_where test f xs) ≡ some (if test x then f x else x)
    find_updated k [] h = cc
    find_updated k (x ∷ xs) h = elim (Bool-cases (str_eq (key x) k)) [
      | inl same ↦
          let hit = ap (λ j. str_eq j k) (key_updated x) ∙ same in
          rw hit (ap (λ z. some (if test z then f z else z)) (some-injective _ _ (rw same at h)))
      | inr other ↦
          let miss = ap (λ j. str_eq j k) (key_updated x) ∙ other in
          rw miss (find_updated k xs (rw other at h))
    ]
