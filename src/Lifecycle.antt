-- ===== src/Lifecycle.antt =====
-- The life of a payment, in libs/payment-core-webservice/src/service/payment.service.ts: it is
-- cancelled, started at a channel, brought up to date with its operations, or confirmed.
pub mod Rows
pub mod Calls
pub mod Moves
pub mod Runs
pub mod Final
pub mod Overlap
pub mod Stages
pub mod Alone
pub mod Once
pub mod Lost
mod Tests
use postral_core.Prelude.{
  ℕ, ◌+◌, String, Bool, false, not, ◌&&◌, ◌||◌, Option, none, some, List, [], ◌∷◌, find, any,
  Result, ok, err, ◌>>=◌, ◌>>◌, throw_if, or_throw, update_where, opt_eq, field_eq, value, ltb,
  leb_ℤ, if◌then◌else◌, str_eq,
}
use postral_core.Amount.{Amount, BigJs}
use postral_core.Entity.Status.{
  PaymentStatus, PaymentErrorStatus, is_purchase, is_waiting, is_initiated, is_completed, is_failed,
}
use postral_core.Entity.Payment.{Payment, PaymentItem}
use postral_core.Entity.Operation.{PaymentChannelOperation}
use postral_core.Channel.Operations.{
  Answer, OperationFailure, has_ongoing_payment_operations, has_failed_payment_operations,
  cancel_payment_operations, total_paid_or_authorized_of, fire_payment_operations,
}

pub data PaymentFailure : Type 0 where
  payment_not_found already_resolved not_open not_waiting not_authorized : PaymentFailure
  operation_failed : OperationFailure → PaymentFailure

-- The tables, and the payments whose orders and transactions were made, the last one first
-- (`postPaymentOperation`).
pub record Books : Type 0 where
  pub payments : List Payment
  pub operations : List PaymentChannelOperation
  pub posted : List String

abbrev pub is_payment : String → Payment → Bool
is_payment id p = str_eq p.id id

abbrev pub find_payment : String → Books → Result PaymentFailure Payment
find_payment id s = or_throw (find (is_payment id) s.payments) payment_not_found

-- `paymentrepo.save`
abbrev pub save : Payment → Books → Books
save p s = record s { payments = update_where (is_payment p.id) (λ _. p) s.payments }

abbrev pub is_resolved : PaymentStatus → Bool
is_resolved status = is_completed status || is_failed status

-- A payment waits for at most `expire_ms`, unless it is open or a refund.
unfoldable pub is_expired : ℕ → ℕ → Payment → Bool
is_expired expire_ms now p =
    (is_waiting p.payment_status || is_initiated p.payment_status)
    && not p.open_payment
    && is_purchase p.type
    && ltb (p.created_at + expire_ms) now

-- The payment after the check of failed operations.
unfoldable pub after_failure : Payment → Books → Payment
after_failure p s =
    if p.fail_on_payment_channel_failure
    then record p { payment_status = PaymentStatus.failed }
    else if has_ongoing_payment_operations p.id s.operations
    then p
    else record p { payment_status = PaymentStatus.initiated }

-- The branch of `updatePaymentByOperationStatuses` for a payment that is not paid.
unfoldable pub update_unpaid : ℕ → ℕ → Payment → Books → Books
update_unpaid expire_ms now p s =
    if has_failed_payment_operations p.id s.operations
    then save (after_failure p s) s
    else if is_expired expire_ms now p
    then save
        (record p {
          payment_status = PaymentStatus.failed;
          error_status = PaymentErrorStatus.expired;
        })
        (record s { operations = cancel_payment_operations p.id s.operations })
    else save p s

module _ (b : BigJs Amount) (seller_pays : Bool) (fire : Answer) where
  -- What follows the firing of the operations of a payment that is saved as completed.
  unfoldable pub post_fired :
      String
      → Books
      → List PaymentChannelOperation × Result OperationFailure (Unit {0})
      → Books × Result PaymentFailure (Unit {0})
  post_fired id s (operations, err e) =
      (record s { operations = operations }, err (operation_failed e))
  post_fired id s (operations, ok _) =
      (record s { operations = operations; posted = id ∷ s.posted }, ok tt)

  -- The branch for a payment that is paid: it is saved before its operations are fired.
  unfoldable pub update_paid : Payment → Books → Books × Result PaymentFailure (Unit {0})
  unfolding post_fired
  update_paid p s =
      post_fired p.id (save (record p { payment_status = PaymentStatus.completed }) s)
        (fire_payment_operations seller_pays fire p.id s.operations)

  unfoldable pub is_paid : Payment → Books → Bool
  is_paid p s =
      not p.open_payment && leb_ℤ p.total_amount (total_paid_or_authorized_of b p.id s.operations)

  unfoldable pub update_found : ℕ → ℕ → Payment → Books → Books × Result PaymentFailure (Unit {0})
  update_found expire_ms now p s =
      if is_resolved p.payment_status
      then (s, ok tt)
      else if is_paid p s
      then update_paid p s
      else (update_unpaid expire_ms now p s, ok tt)

  unfoldable pub update_read :
      ℕ → ℕ → Books → Result PaymentFailure Payment → Books × Result PaymentFailure (Unit {0})
  unfolding update_found
  update_read expire_ms now s (err e) = (s, err e)
  update_read expire_ms now s (ok p) = update_found expire_ms now p s

  -- `updatePaymentByOperationStatuses` that no other call interrupts, with operations that are up
  -- to date. Calls that overlap are in Lifecycle/Calls.
  unfoldable pub update_payment_by_operation_statuses :
      ℕ → ℕ → String → Books → Books × Result PaymentFailure (Unit {0})
  unfolding update_read
  update_payment_by_operation_statuses expire_ms now id s =
      update_read expire_ms now s (find_payment id s)

-- The account is the customer of the payment, or the seller of one of its items.
abbrev pub may_confirm : String → Payment → Bool
may_confirm seller p =
    opt_eq p.customer_account_id (some seller)
    || any (λ (i : PaymentItem). field_eq i.seller_account_id (value seller)) p.items
