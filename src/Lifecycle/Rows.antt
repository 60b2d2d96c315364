-- ===== src/Lifecycle/Rows.antt =====
-- The row of a payment, found by its ID, before and after a payment is saved.
use mathlib.Core.Option.{some-injective}
use postral_core.Prelude.{
  ◌≡◌, sym, ap, ◌∙◌, String, false, Bool-cases, inl, inr, some, List, [], ◌∷◌, find, ok,
  or_throw-ok, update_where, str_eq, str_eq_refl, str_eq→eq, find_key,
}
use postral_core.Entity.Payment.{Payment}
use postral_core.Lifecycle.{Books, is_payment, find_payment, PaymentFailure}

pub find_payment-own :
    (id : String) (s : Books) {p : Payment}
    → find_payment id s ≡ ok p
    → find (is_payment p.id) s.payments ≡ some p
find_payment-own id s {p} h =
    let read = or_throw-ok (find (is_payment id) s.payments) PaymentFailure.payment_not_found h in
    ap (λ k. find (is_payment k) s.payments) (find_key (λ (p : Payment). p.id) id s.payments read)
    ∙ read

pub find-saved_own :
    (new : Payment) (ps : List Payment) {p : Payment}
    → find (is_payment new.id) ps ≡ some p
    → find (is_payment new.id) (update_where (is_payment new.id) (λ _. new) ps) ≡ some new
find-saved_own new [] h = cc
find-saved_own new (x ∷ ps) h = elim (Bool-cases (str_eq x.id new.id)) [
  | inl hit ↦ rw (hit, str_eq_refl new.id)
  | inr miss ↦ rw (miss, miss) (find-saved_own new ps (rw miss at h))
]

pub find-saved :
    (new : Payment) (k : String) (ps : List Payment) {p : Payment}
    → find (is_payment k) ps ≡ some p
    → str_eq p.id new.id ≡ false
    → find (is_payment k) (update_where (is_payment new.id) (λ _. new) ps) ≡ some p
find-saved new k [] h other = cc
find-saved new k (x ∷ ps) {p} h other = elim (Bool-cases (str_eq x.id k)) [
  | inl hit ↦
      let same : x ≡ p = some-injective _ _ (rw hit at h) in
      let apart : str_eq x.id new.id ≡ false =
        ap (λ (x : Payment). str_eq x.id new.id) same ∙ other in
      rw (apart, hit) (ap some same)
  | inr miss ↦ elim (Bool-cases (str_eq x.id new.id)) [
    | inl own ↦
        let away : str_eq new.id k ≡ false =
          ap (λ j. str_eq j k) (sym (str_eq→eq x.id new.id own)) ∙ miss in
        rw (own, away) (find-saved new k ps (rw miss at h) other)
    | inr apart ↦ rw (apart, miss) (find-saved new k ps (rw miss at h) other)
  ]
]
