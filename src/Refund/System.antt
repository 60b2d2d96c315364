-- ===== src/Refund/System.antt =====
-- `RefundService.startRefundMicroservice`: a refund that another application asks for, once for each
-- idempotency key.
use postral_core.Prelude.{
  ℕ, String, Bool, not, ◌&&◌, ◌||◌, Option, none, some, List, ok, err, ◌>>=◌, ◌>>◌, throw_if,
  or_throw, find, any, all, length, ltb, ◌==◌, eqb_ℤ, str_eq, opt_eq, is_blank, utf16_length,
  if◌then◌else◌,
}
use postral_core.Amount.{Amount, BigJs}
use postral_core.Entity.Status.{is_approved}
use postral_core.Entity.Payment.{Payment}
use postral_core.Entity.Refund.{RefundRequest, RefundRequestItem}
use postral_core.Refund.Failure.{Attempt, bad_idempotency_key, idempotency_key_reused}
use postral_core.Refund.Checks.{
  RequestedItem, CreateRefundRequest, validate_item_input, validate_note, validate_refund_reasons,
  assert_payment_is_refundable, assert_pending_refund_request,
}
use postral_core.Refund.Store.{Store, with_payment_lock}
use postral_core.Refund.Service.{insert_new_request}
use postral_core.Refund.Approval.{RefundPayment, approve_request}

abbrev max_key_length : ℕ
max_key_length = 200

abbrev pub same_item : RefundRequestItem → RequestedItem → Bool
same_item c input =
    str_eq input.payment_item_id c.payment_item_id && eqb_ℤ input.refund_count c.refund_count

-- The stored request is for the payment and the quantities of this one.
unfoldable pub matches_request : CreateRefundRequest → List RequestedItem → RefundRequest → Bool
matches_request dto items r =
    str_eq r.payment_id dto.payment_id
    && length r.items == length items
    && all (λ c. any (same_item c) items) r.items

-- A request with the key is there already.
unfoldable pub resume_request :
    CreateRefundRequest
    → List RequestedItem
    → Store
    → RefundRequest
    → Attempt (Store × RefundRequest)
resume_request dto items s r = do
  throw_if (not (matches_request dto items r)) idempotency_key_reused
  if is_approved r.status then ok (s, r) else (do assert_pending_refund_request r; ok (s, r))

module _ (b : BigJs Amount) where
  unfoldable pub start_or_resume :
      String
      → String
      → CreateRefundRequest
      → List RequestedItem
      → Store
      → Payment
      → Option RefundRequest
      → Attempt (Store × RefundRequest)
  start_or_resume id key dto items s p (some r) = resume_request dto items s r
  start_or_resume id key dto items s p none = insert_new_request b id (some key) "system" dto s p

  -- The transaction of `startRefundMicroservice`; a key of none is one that is no string.
  unfoldable pub start_refund :
      String → Option String → CreateRefundRequest → Store → Attempt (Store × RefundRequest)
  unfolding start_or_resume
  start_refund id sent dto s = do
    key ← or_throw sent bad_idempotency_key
    throw_if (is_blank key || ltb max_key_length (utf16_length key)) bad_idempotency_key
    validate_refund_reasons dto.reason_keys
    validate_note dto.request_note
    items ← validate_item_input dto.items
    with_payment_lock dto.payment_id
        (λ p. do
          assert_payment_is_refundable p
          start_or_resume id key dto items s p
              (find (λ (r : RefundRequest). opt_eq r.idempotency_key (some key)) s.requests))
        s

  unfoldable pub start_refund_microservice :
      RefundPayment
      → ℕ
      → String
      → String
      → Option String
      → CreateRefundRequest
      → Store
      → Store × Attempt RefundRequest
  start_refund_microservice pay now token id sent dto s = elim (start_refund id sent dto s) [
    | err e ↦ (s, err e)
    | ok (s', r) ↦
        if is_approved r.status
        then (s', ok r)
        else approve_request b pay now token r "system"
            (some "Automatically approved by the requesting application") s'
  ]
