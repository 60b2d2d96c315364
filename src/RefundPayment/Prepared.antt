-- ===== src/RefundPayment/Prepared.antt =====
-- What is prepared for a refund request, and what its transaction reads.
use postral_core.Prelude.{
  ◌≡◌, refl, sym, ap, ◌∙◌, ◌⊎◌, inl, inr, String, Bool, true, false, not, ◌||◌, Option, none, some,
  List, [], ◌∷◌, ◌++◌, Result, ok, err, >>=-returned, ok-injective, throw_if, throw_if-ok, or_throw,
  or_throw-ok, find, any, str_eq, is_empty, includes, Bool-cases,
}
use mathlib.Core.Path.{subst}
use postral_core.Amount.{Amount, BigJs}
use postral_core.Entity.Status.{is_purchase, is_completed, is_failed, is_pending, is_approved}
use postral_core.Entity.Payment.{Payment}
use postral_core.Entity.Refund.{RefundRequest}
use postral_core.RefundPayment.{
  RefundPaymentFailure, already_approved, original_not_found, external_platform,
  not_completed_purchase, customer_not_found, not_pending, refund_failed, RefundTables, Fresh,
  of_request, refund_items, refund_payment, build_refund_payment, unless_paid, prepare_refund,
  Posting, or_undone, as_posted, save_refund, reuse_or_save, commit_refund,
}

-- What is prepared is a payment of the request that has not failed.
abbrev pub IsOf : String → Option Payment → Type 0
IsOf id none = Unit
IsOf id (some p) = (p.refund_request_id ≡ some id) × (is_failed p.payment_status ≡ false)

module _ (b : BigJs Amount) where
  build_refund_payment-IsOf :
      (fresh : Fresh) (s : RefundTables) (request : RefundRequest) (original : Payment)
      {p : Payment}
      → build_refund_payment b fresh s request original ≡ ok p
      → IsOf request.id (some p)
  unfolding build_refund_payment refund_payment
  build_refund_payment-IsOf fresh s request original h =
      let (items, _, h0) = >>=-returned (refund_items fresh.item_id 0 original request.items) _ h in
      let (customer, _, h1) =
        >>=-returned (or_throw original.customer_account_id customer_not_found) _ h0 in
      let (_, _, h2) =
        >>=-returned (throw_if (not (includes s.accounts customer)) customer_not_found) _ h1 in
      subst (λ p. IsOf request.id (some p)) (ok-injective h2) (refl, refl)

  unless_paid-IsOf :
      (id : String) (paid : Bool) (call : Result RefundPaymentFailure Payment)
      {prepared : Option Payment}
      → ((p : Payment) → call ≡ ok p → IsOf id (some p))
      → unless_paid b paid call ≡ ok prepared
      → IsOf id prepared
  unfolding unless_paid
  unless_paid-IsOf id true call built h = subst (IsOf id) (ok-injective h) tt
  unless_paid-IsOf id false (err e) built h = cc
  unless_paid-IsOf id false (ok p) built h = subst (IsOf id) (ok-injective h) (built p refl)

  pub prepare_refund-IsOf :
      (fresh : Fresh) (request : RefundRequest) (s : RefundTables) {prepared : Option Payment}
      → prepare_refund b fresh request s ≡ ok prepared
      → IsOf request.id prepared
  unfolding prepare_refund
  prepare_refund-IsOf fresh request s h =
      let (_, _, h0) = >>=-returned (throw_if (is_approved request.status) already_approved) _ h in
      let (original, _, h1) =
        >>=-returned
          (or_throw (find (λ (p : Payment). str_eq p.id request.payment_id) s.payments)
            original_not_found)
          _ h0 in
      let (_, _, h2) =
        >>=-returned (throw_if (not (is_empty original.external_platform_id)) external_platform) _
          h1 in
      let (_, _, h3) =
        >>=-returned
          (throw_if (not (is_purchase original.type) || not (is_completed original.payment_status))
            not_completed_purchase)
          _ h2 in
      unless_paid-IsOf request.id (any (of_request request.id) s.payments)
        (build_refund_payment b fresh s request original)
        (λ p built. build_refund_payment-IsOf fresh s request original built) h3

-- A transaction found the payment of the request, or it saved what was prepared.
pub reuse_or_save-ok :
    (post : Posting) (prepared : Option Payment) (s : RefundTables) (read : Option Payment)
    {s' : RefundTables} {p : Payment}
    → reuse_or_save post prepared s read ≡ ok (s', p)
    → ((s' ≡ s) × (read ≡ some p) × (is_failed p.payment_status ≡ false))
      ⊎ ((read ≡ none)
          × (prepared ≡ some p)
          × (s'.payments ≡ s.payments ++ (p ∷ []))
          × (s'.requests ≡ s.requests))
unfolding reuse_or_save save_refund
reuse_or_save-ok post prepared s (some existing) h =
    let (_, alive, h0) =
      >>=-returned (throw_if (is_failed existing.payment_status) refund_failed) _ h in
    let same = ok-injective h0 in
    inl (
      sym (ap (λ x. x.0) same),
      ap (λ x. some x.1) same,
      ap (λ x. is_failed (x.1).payment_status) (sym same) ∙ throw_if-ok _ refund_failed alive,
    )
reuse_or_save-ok post none s none h = cc
reuse_or_save-ok post (some q) s none h =
    let (orders, _, h0) = >>=-returned (or_undone (post.make_orders q s.orders)) _ h in
    let (transactions, _, h1) =
      >>=-returned (as_posted (post.make_transactions q s.transactions)) _ h0 in
    let same = ok-injective h1 in
    inr (
      refl,
      ap (λ x. some x.1) same,
      sym (ap (λ x. (x.0).payments) same) ∙ ap (λ x. s.payments ++ (x.1 ∷ [])) same,
      sym (ap (λ x. (x.0).requests) same),
    )

-- What a transaction that committed has read.
pub commit_refund-ok :
    (post : Posting) (prepared : Option Payment) (id : String) (s : RefundTables)
    {x : RefundTables × Payment}
    → commit_refund post prepared id s ≡ ok x
    → (request : RefundRequest) × (find (λ (r : RefundRequest). str_eq r.id id) s.requests
        ≡ some request)
      × (not (is_pending request.status) ≡ false)
      × (reuse_or_save post prepared s (find (of_request id) s.payments) ≡ ok x)
unfolding commit_refund
commit_refund-ok post prepared id s h =
    let (request, read, h0) =
      >>=-returned (or_throw (find (λ (r : RefundRequest). str_eq r.id id) s.requests) not_pending)
        _ h in
    let (_, waits, h1) =
      >>=-returned (throw_if (not (is_pending request.status)) not_pending) _ h0 in
    (request, or_throw-ok _ not_pending read, throw_if-ok _ not_pending waits, h1)

pub find-appended :
    (test : Payment → Bool) (ps : List Payment) (p : Payment)
    → find test ps ≡ none
    → test p ≡ true
    → find test (ps ++ (p ∷ [])) ≡ some p
find-appended test [] p h k = rw k
find-appended test (q ∷ ps) p h k = elim (Bool-cases (test q)) [
  | inl yes_test ↦ cc (rw yes_test at h)
  | inr no_test ↦ rw no_test (find-appended test ps p (rw no_test at h) k)
]
