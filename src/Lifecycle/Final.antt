-- ===== src/Lifecycle/Final.antt =====
-- A payment that is completed or failed stays as it is, however the calls for other payments, and the
-- calls for it that begin later, overlap.
use postral_core.Prelude.{
  ◌≡◌, refl, ap, ◌∙◌, ℕ, String, Bool, true, false, Bool-cases, inl, inr, Option, some, List, [],
  ◌∷◌, find, any, Result, ok, err, str_eq, str_eq_comm, find_key, arith, if◌then◌else◌,
}
use postral_core.Amount.{Amount, BigJs}
use postral_core.Entity.Status.{PaymentStatus}
use postral_core.Entity.Payment.{Payment}
use postral_core.Entity.Operation.{PaymentChannelOperation}
use postral_core.Channel.Operations.{Answer, OperationFailure, has_failed_payment_operations}
use postral_core.Lifecycle.{Books, is_payment, save, is_expired, after_failure}
use postral_core.Lifecycle.Rows.{find-saved}
use postral_core.Lifecycle.Moves.{Moves, holds, is_held, to_list}
use postral_core.Lifecycle.Calls.{
  Call, cancelling, starting, updating, completing, firing, judging, confirming, posting, saving,
  after_posting, judge, after_firing, resume, Service,
}

-- What a call does keeps the rows of a payment that the call is not for, and the call goes on to be
-- for another payment.
unfoldable pub Keeps : String → Books → Books × Option Call → Type 0
Keeps id s r =
    (any (holds id) (to_list r.1) ≡ false)
    × ((p : Payment)
        → find (is_payment id) s.payments ≡ some p
        → find (is_payment id) r.0.payments ≡ some p)

save-other :
    (p : Payment) (id : String) (s : Books)
    → str_eq p.id id ≡ false
    → (q : Payment) → find (is_payment id) s.payments ≡ some q
    → find (is_payment id) (save p s).payments ≡ some q
save-other p id s other q h = find-saved p id s.payments h (
    ap (λ k. str_eq k p.id) (find_key (λ (p : Payment). p.id) id s.payments h)
    ∙ str_eq_comm id p.id
    ∙ other)

module _ (b : BigJs Amount) (seller_pays : Bool) (fire : Answer) (expire_ms now : ℕ)
    (id : String) where
  after_firing-Keeps :
      (p : Payment) (s : Books)
      (fired : List PaymentChannelOperation × Result OperationFailure (Unit {0}))
      → str_eq p.id id ≡ false
      → Keeps id s (after_firing p s fired)
  unfolding Keeps after_firing
  after_firing-Keeps p s (operations, err e) other = (refl, λ q h. h)
  after_firing-Keeps p s (operations, ok _) other = (rw other refl, λ q h. h)

  after_failure-id : (p : Payment) (s : Books) → (after_failure p s).id ≡ p.id
  unfolding after_failure
  after_failure-id p s = ground arith

  judge-Keeps :
      (p : Payment) (s : Books) → str_eq p.id id ≡ false → Keeps id s (judge expire_ms now p s)
  unfolding Keeps judge
  judge-Keeps p s other = elim (Bool-cases (has_failed_payment_operations p.id s.operations)) [
    | inl failed ↦ rw failed (rw (after_failure-id p s, other) refl, λ q h. h)
    | inr fine ↦ elim (Bool-cases (is_expired expire_ms now p)) [
      | inl expired ↦ rw (fine, expired) (rw other refl, λ q h. h)
      | inr early ↦ rw (fine, early) (rw other refl, λ q h. h)
    ]
  ]

  after_posting-other :
      (closes : Bool) (p : Payment)
      → str_eq p.id id ≡ false
      → any (holds id) (to_list (after_posting closes p)) ≡ false
  after_posting-other true p other = rw other refl
  after_posting-other false p other = refl

  updating-other :
      (paid : Bool) (p : Payment)
      → str_eq p.id id ≡ false
      → any (holds id) (
          (if paid
            then completing (record p { payment_status = PaymentStatus.completed })
            else judging p)
          ∷ [])
        ≡ false
  updating-other true p other = rw other refl
  updating-other false p other = rw other refl

  pub resume-Keeps :
      (c : Call) (s : Books)
      → holds id c ≡ false
      → Keeps id s (resume b seller_pays fire expire_ms now c s)
  unfolding Keeps resume
  resume-Keeps (cancelling p) s other = (rw other refl, λ q h. h)
  resume-Keeps (starting p) s other = (rw other refl, λ q h. h)
  resume-Keeps (updating p) s other = (updating-other _ p other, λ q h. h)
  resume-Keeps (completing p) s other = (rw other refl, save-other p id s other)
  resume-Keeps (firing p) s other = after_firing-Keeps p s _ other
  resume-Keeps (judging p) s other = judge-Keeps p s other
  resume-Keeps (confirming p) s other =
      (rw other refl, save-other (record p { payment_status = PaymentStatus.completed }) id s other)
  resume-Keeps (posting closes p) s other = (after_posting-other closes p other, λ q h. h)
  resume-Keeps (saving p) s other = (refl, save-other p id s other)

-- The row is there, and no call is under way for it.
Settled : String → Payment → Service → Type 0
Settled id p v = (find (is_payment id) v.books.payments ≡ some p) × (is_held id v ≡ false)
