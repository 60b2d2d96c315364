-- ===== src/Refund/Service.antt =====
-- The operations of `RefundService`. Each transaction is a function on the tables; the time, the
-- new IDs, the accounts that the user owns and the creation of the refund's own payment are
-- arguments.
use postral_core.Prelude.{
  ℕ, String, not, ◌||◌, Option, none, some, List, ok, err, ◌>>=◌, ◌>>◌, throw_if, any, includes,
  opt_eq, is_empty, is_falsy, Field, value,
}
use postral_core.Amount.{Amount, BigJs}
use postral_core.Entity.Status.{RefundRequestStatus}
use postral_core.Entity.Payment.{Payment}
use postral_core.Entity.Refund.{RefundRequest}
use postral_core.Refund.Failure.{Attempt, no_target_account, not_authorized, already_initiated}
use postral_core.Refund.Checks.{
  CreateRefundRequest, validate_note, validate_new_refund_request, assert_pending_refund_request,
  assert_no_approval_in_progress,
}
use postral_core.Refund.Build.{build_refund_request_entity}
use postral_core.Refund.Store.{
  Store, update_request, insert_request, find_request, with_payment_lock,
}

-- The target account is among those that the user may act for; `none` is no answer.
unfoldable pub authorize_refund_action : Option (List String) → Field → Attempt (Unit {0})
authorize_refund_action (some owned) (value account) =
    throw_if (not (includes owned account)) not_authorized
authorize_refund_action _ _ = err not_authorized

-- `resolveRefundRequest`
unfoldable pub resolve_refund_request :
    RefundRequest
    → String
    → RefundRequestStatus
    → Option String
    → Store
    → Attempt (Store × RefundRequest)
resolve_refund_request r actor status text s = do
  validate_note text
  let resolve = λ (r : RefundRequest). record r {
    status = status;
    resolved_by_account_id = some actor;
    resolution_note = text;
  }
  ok (update_request r.id resolve s, resolve r)

-- What `rejectRefundRequest` does under the lock.
unfoldable pub reject_request :
    ℕ → String → String → Option String → Store → Payment → Attempt (Store × RefundRequest)
reject_request now user request_id text s p = do
  assert_no_approval_in_progress now p
  r ← find_request request_id s
  assert_pending_refund_request r
  throw_if
      (not (is_empty r.idempotency_key)
        || any (λ (q : Payment). opt_eq q.refund_request_id (some r.id)) s.payments)
      already_initiated
  throw_if (is_falsy r.requested_to_payment_account_id) no_target_account
  resolve_refund_request r user RefundRequestStatus.rejected text s

unfoldable pub reject_refund_request :
    ℕ
    → Option (List String)
    → String
    → String
    → Option String
    → Store
    → Attempt (Store × RefundRequest)
reject_refund_request now owned user request_id text s = do
  validate_note text
  initial ← find_request request_id s
  throw_if (is_falsy initial.requested_to_payment_account_id) no_target_account
  authorize_refund_action owned initial.requested_to_payment_account_id
  with_payment_lock initial.payment_id (reject_request now user request_id text s) s

module _ (b : BigJs Amount) where
  -- What `createRefundRequest` and a new system refund do under the lock.
  unfoldable pub insert_new_request :
      String
      → Option String
      → String
      → CreateRefundRequest
      → Store
      → Payment
      → Attempt (Store × RefundRequest)
  insert_new_request id key actor dto s p = do
    (items, reservations) ← validate_new_refund_request b s.requests p dto
    r ← build_refund_request_entity b id key actor dto items p reservations
    ok (insert_request r s, r)

  unfoldable pub create_refund_request :
      String → String → CreateRefundRequest → Store → Attempt (Store × RefundRequest)
  create_refund_request id user dto s =
      with_payment_lock dto.payment_id (insert_new_request id none user dto s) s
