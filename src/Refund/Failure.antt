-- ===== src/Refund/Failure.antt =====
-- What `RefundService` throws, one constructor for each message.
use postral_core.Prelude.{String, Result}

pub data RefundFailure : Type 0 where
  bad_idempotency_key idempotency_key_reused : RefundFailure
  payment_id_required payment_not_found request_not_found : RefundFailure
  external_platform not_purchase not_completed not_pending : RefundFailure
  no_items invalid_items several_sellers no_reason long_note : RefundFailure
  item_not_found : String → RefundFailure
  too_many : String → RefundFailure
  already_reserved : String → RefundFailure
  division_by_zero : RefundFailure
  system_request no_target_account not_authorized : RefundFailure
  approval_in_progress lease_changed already_initiated : RefundFailure
  refund_payment_failed : RefundFailure

-- A call of the service that returns an `A` or throws.
abbrev pub Attempt : Type 0 → Type 0
Attempt A = Result RefundFailure A
