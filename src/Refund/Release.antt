-- ===== src/Refund/Release.antt =====
-- The `finally` of `approveRequest` in `RefundService`.
use mathlib.Core.Path.{subst}
use postral_core.Prelude.{
  ℕ, String, ◌≡◌, refl, sym, ap, ◌∙◌, true, false, ◌&&◌, Option, none, some, find, ok, err,
  >>=-returned, str_eq, str_eq_refl, opt_eq, find_key, find-update_where, Bool-cases, inl, inr,
  arith, if◌then◌else◌, ◌≢◌,
}
use postral_core.Amount.{Amount, BigJs}
use postral_core.Entity.Payment.{Payment}
use postral_core.Entity.Refund.{RefundRequest}
use postral_core.Refund.Checks.{validate_note}
use postral_core.Refund.Failure.{Attempt}
use postral_core.Refund.Store.{Store, has_payment_id, with_payment_lock-ok, find_request}
use postral_core.Refund.Lease.{claim_request-lease}
use postral_core.Refund.Approval.{
  drop_lease, release_lease, RefundPayment, claim_request, claim_approval, finish_with,
  approve_paid, approve_claimed, approve_noted, approve_request,
}

-- The payment `id` does not carry the token.
abbrev pub IsReleased : String → String → Store → Type 0
IsReleased token id s =
    (q : Payment)
    → find (has_payment_id id) s.payments ≡ some q
    → opt_eq q.refund_approval_token (some token) ≡ false

dropped_row :
    (token id : String) (x q : Payment)
    → str_eq x.id id ≡ true
    → q
      ≡ (if str_eq x.id id && opt_eq x.refund_approval_token (some token) then drop_lease x else x)
    → opt_eq q.refund_approval_token (some token) ≡ false
dropped_row token id x q key e = elim (Bool-cases (opt_eq x.refund_approval_token (some token))) [
  | inl ours ↦
      ap (λ (q : Payment). opt_eq q.refund_approval_token (some token)) (rw (key, ours) at e)
  | inr theirs ↦
      ap (λ (q : Payment). opt_eq q.refund_approval_token (some token)) (rw (key, theirs) at e)
      ∙ theirs
]

release_lease_lem : (token id : String) (s : Store) → IsReleased token id (release_lease token id s)
unfolding release_lease
release_lease_lem token id s q hq =
    let (x, hx, e) =
      find-update_where (λ (p : Payment). p.id)
        (λ (p : Payment). str_eq p.id id && opt_eq p.refund_approval_token (some token)) drop_lease
        (λ _. refl) id s.payments hq in
    let key = find_key (λ (p : Payment). p.id) id s.payments hx in
    dropped_row token id x q (ap (λ k. str_eq k id) key ∙ str_eq_refl id) e

module _ (b : BigJs Amount) where
  claim_request-none :
      (now : ℕ) (token : String) (s : Store) (p : Payment) (r : RefundRequest) {s' : Store}
      {q : RefundRequest} {t : Option String}
      → claim_request b now token s p r ≡ ok (s', (q, t))
      → t ≢ some token
      → (s' ≡ s) × (t ≡ none)
  unfolding claim_request
  claim_request-none now token s p r h other = (ground arith, ground arith)

  claim_approval-none :
      (now : ℕ) (token : String) (initial : RefundRequest) (s : Store) {s' : Store}
      {q : RefundRequest} {t : Option String}
      → claim_approval b now token initial s ≡ ok (s', (q, t))
      → t ≢ some token
      → (s' ≡ s) × (t ≡ none)
  unfolding claim_approval
  claim_approval-none now token initial s h other =
      let (p, hp, action) = with_payment_lock-ok initial.payment_id _ s h in
      let (r, hr, claimed) = >>=-returned (find_request initial.id s) _ action in
      claim_request-none now token s p r claimed other

  finish_with-IsReleased :
      (token id : String) (s : Store) (done : Attempt (Store × RefundRequest))
      → IsReleased token id ((finish_with b token id s done).0)
  unfolding finish_with
  finish_with-IsReleased token id s (ok (s', r)) = release_lease_lem token id s'
  finish_with-IsReleased token id s (err e) = release_lease_lem token id s

  approve_paid-IsReleased :
      (token actor : String) (text : Option String) (initial : RefundRequest)
      (paid : Store × Attempt (Unit {0}))
      → IsReleased token initial.payment_id ((approve_paid b token actor text initial paid).0)
  unfolding approve_paid
  approve_paid-IsReleased token actor text initial (s, err e) =
      release_lease_lem token initial.payment_id s
  approve_paid-IsReleased token actor text initial (s, ok _) =
      finish_with-IsReleased token initial.payment_id s _

  claim_approval-token :
      (now : ℕ) (token : String) (initial : RefundRequest) (s : Store) {s' : Store}
      {q : RefundRequest} {t : String}
      → claim_approval b now token initial s ≡ ok (s', (q, some t))
      → t ≡ token
  unfolding claim_approval
  claim_approval-token now token initial s h =
      let (p, hp, action) = with_payment_lock-ok initial.payment_id _ s h in
      let (r, hr, claimed) = >>=-returned (find_request initial.id s) _ action in
      (claim_request-lease b now token s p r claimed).0

  approve_claimed-IsReleased :
      (pay : RefundPayment) (now : ℕ) (token actor : String) (text : Option String)
      (initial : RefundRequest) (s : Store)
      (claim : Attempt (Store × (RefundRequest × Option String)))
      → IsReleased token initial.payment_id s
      → claim_approval b now token initial s ≡ claim
      → IsReleased token initial.payment_id ((approve_claimed b pay actor text initial s claim).0)
  unfolding approve_claimed
  approve_claimed-IsReleased pay now token actor text initial s (err e) fresh h = fresh
  approve_claimed-IsReleased pay now token actor text initial s (ok (s', (r, none))) fresh h =
      subst (IsReleased token initial.payment_id)
        (sym ((claim_approval-none now token initial s h (λ e. cc)).0)) fresh
  approve_claimed-IsReleased pay now token actor text initial s (ok (s', (r, some t))) fresh h =
      subst
        (λ t.
          IsReleased token initial.payment_id ((approve_paid b t actor text initial (pay r s')).0))
        (sym (claim_approval-token now token initial s h))
        (approve_paid-IsReleased token actor text initial (pay r s'))

  -- Whatever becomes of an approval (a refused claim, a refund payment that throws, a second
  -- transaction that throws, or success), the payment of the request does not carry its token
  -- afterwards, if it did not carry it before.
  pub approve_request-IsReleased :
      (pay : RefundPayment) (now : ℕ) (token : String) (initial : RefundRequest) (actor : String)
      (text : Option String) (s : Store)
      → IsReleased token initial.payment_id s
      → IsReleased token initial.payment_id
          ((approve_request b pay now token initial actor text s).0)
  unfolding approve_request approve_noted
  approve_request-IsReleased pay now token initial actor text s fresh = noted (validate_note text)
    where
      noted :
          (n : Attempt (Unit {0}))
          → IsReleased token initial.payment_id
              ((approve_noted b pay now token initial actor text s n).0)
      noted (err e) = fresh
      noted (ok _) =
          approve_claimed-IsReleased pay now token actor text initial s
            (claim_approval b now token initial s) fresh refl
