-- ===== src/Refund/Reservation/Resume.antt =====
-- A refund that another application asks for again, and what it does to the tables.
use mathlib.Core.Path.{subst}
use postral_core.Prelude.{
  String, ◌≡◌, sym, true, ◌||◌, arith, Option, none, some, List, find, ok, >>=-returned, throw_if,
  or_throw, opt_eq, is_blank, utf16_length, ltb,
}
use postral_core.Amount.{Amount, BigJs, IsExact}
use postral_core.Entity.Payment.{Payment}
use postral_core.Entity.Refund.{RefundRequest}
use postral_core.Refund.Failure.{bad_idempotency_key}
use postral_core.Refund.Checks.{
  RequestedItem, CreateRefundRequest, validate_item_input, validate_note, validate_refund_reasons,
  assert_payment_is_refundable, assert_pending_refund_request,
}
use postral_core.Refund.Store.{Store, has_payment_id, with_payment_lock-ok}
use postral_core.Refund.System.{matches_request, resume_request, start_or_resume, start_refund}
use postral_core.Refund.Reservation.Counts.{IsFresh}
use postral_core.Refund.Reservation.Invariant.{IsReserved}
use postral_core.Refund.Reservation.Create.{
  insert_new_request-IsReserved, insert_new_request-IsReserved,
}

pub resume_request-effect :
    (dto : CreateRefundRequest) (items : List RequestedItem) (s : Store) (q : RefundRequest)
    {s' : Store} {r : RefundRequest}
    → resume_request dto items s q ≡ ok (s', r)
    → (s' ≡ s) × (r ≡ q) × (matches_request dto items q ≡ true)
unfolding resume_request assert_pending_refund_request
resume_request-effect dto items s q h = (ground arith, ground arith, ground arith)

module _ {b : BigJs Amount} (exact : IsExact b) where
  start_or_resume-IsReserved :
      (id key : String) (dto : CreateRefundRequest) (items : List RequestedItem) (s : Store)
      (p : Payment) (known : Option RefundRequest) {s' : Store} {r : RefundRequest}
      → IsReserved s
      → IsFresh id s.requests
      → find (has_payment_id dto.payment_id) s.payments ≡ some p
      → start_or_resume b id key dto items s p known ≡ ok (s', r)
      → IsReserved s'
  unfolding start_or_resume
  start_or_resume-IsReserved id key dto items s p (some q) inv fresh hp h =
      subst IsReserved (sym ((resume_request-effect dto items s q h).0)) inv
  start_or_resume-IsReserved id key dto items s p none inv fresh hp h =
      insert_new_request-IsReserved exact id (some key) "system" dto s p inv fresh hp h

  -- A refund that another application starts, new or again, keeps the invariant.
  pub start_refund-IsReserved :
      (id : String) (sent : Option String) (dto : CreateRefundRequest) (s : Store) {s' : Store}
      {r : RefundRequest}
      → IsReserved s
      → IsFresh id s.requests
      → start_refund b id sent dto s ≡ ok (s', r)
      → IsReserved s'
  unfolding start_refund
  start_refund-IsReserved id sent dto s inv fresh h =
      let (key, _, h1) = >>=-returned (or_throw sent bad_idempotency_key) _ h in
      let (_, _, h2) =
        >>=-returned (throw_if (is_blank key || ltb 200 (utf16_length key)) bad_idempotency_key) _
          h1 in
      let (_, _, h3) = >>=-returned (validate_refund_reasons dto.reason_keys) _ h2 in
      let (_, _, h4) = >>=-returned (validate_note dto.request_note) _ h3 in
      let (items, _, h5) = >>=-returned (validate_item_input dto.items) _ h4 in
      let (p, hp, h6) = with_payment_lock-ok dto.payment_id _ s h5 in
      let (_, _, h7) = >>=-returned (assert_payment_is_refundable p) _ h6 in
      start_or_resume-IsReserved id key dto items s p
        (find (λ (r : RefundRequest). opt_eq r.idempotency_key (some key)) s.requests) inv fresh hp
        h7
