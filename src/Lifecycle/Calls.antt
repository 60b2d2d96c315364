-- ===== src/Lifecycle/Calls.antt =====
-- The calls of libs/payment-core-webservice/src/service/payment.service.ts that change a payment, as
-- they run between two `await`s: none of them holds a lock, so each keeps the payment that it read
-- while others read and save. A save writes the payment that the call holds over the row.
use postral_core.Prelude.{
  ℕ, String, Bool, true, false, not, Option, none, some, List, ◌∷◌, Result, ok, err, ◌>>=◌, ◌>>◌,
  throw_if, if◌then◌else◌,
}
use postral_core.Amount.{Amount, BigJs}
use postral_core.Entity.Status.{PaymentStatus, PaymentErrorStatus, is_waiting}
use postral_core.Entity.Payment.{Payment}
use postral_core.Entity.Operation.{PaymentChannelOperation}
use postral_core.Channel.Operations.{
  Answer, OperationFailure, has_failed_payment_operations, cancel_payment_operations,
  fire_payment_operations,
}
use postral_core.Lifecycle.{
  PaymentFailure, already_resolved, not_open, not_waiting, not_authorized, Books, find_payment,
  save, is_resolved, is_expired, after_failure, is_paid, may_confirm,
}

-- A call with what it holds, named for what it does next.
pub data Call : Type 0 where
  -- cancel the operations
  cancelling : Payment → Call
  -- ask the channel
  starting : Payment → Call
  -- add up the operations
  updating : Payment → Call
  -- save the payment as completed, to fire its operations
  completing : Payment → Call
  -- fire the operations
  firing : Payment → Call
  -- look for failed operations
  judging : Payment → Call
  -- save the payment as completed, by a confirmation
  confirming : Payment → Call
  -- make the orders and transactions, and close the payment after that if the test says so
  posting : Bool → Payment → Call
  -- save the payment, and return
  saving : Payment → Call

abbrev pub held : Call → Payment
held (cancelling p) = p
held (starting p) = p
held (updating p) = p
held (completing p) = p
held (firing p) = p
held (judging p) = p
held (confirming p) = p
held (posting closes p) = p
held (saving p) = p

-- The read, and `assertPaymentIsNotResolved`.
abbrev pub read_unresolved : String → Books → Result PaymentFailure Payment
read_unresolved id s = do
  p ← find_payment id s
  throw_if (is_resolved p.payment_status) already_resolved
  ok p

unfoldable pub begin_cancel : String → Books → Result PaymentFailure Call
begin_cancel id s = do p ← read_unresolved id s; ok (cancelling p)

unfoldable pub begin_start : String → Books → Result PaymentFailure Call
begin_start id s = do p ← read_unresolved id s; ok (starting p)

-- A payment that is resolved is answered at once.
unfoldable pub begin_update : String → Books → Result PaymentFailure (Option Call)
begin_update id s = do
  p ← find_payment id s
  ok (if is_resolved p.payment_status then none else some (updating p))

unfoldable pub begin_confirm : String → String → Books → Result PaymentFailure Call
begin_confirm id seller s = do
  p ← find_payment id s
  throw_if (not p.open_payment) not_open
  throw_if (not (is_waiting p.payment_status)) not_waiting
  throw_if (not (may_confirm seller p)) not_authorized
  ok (confirming p)

abbrev pub after_cancelling : Payment → Books → Books × Option Call
after_cancelling p s = (
  record s { operations = cancel_payment_operations p.id s.operations },
  some (
      saving (record p {
        payment_status = PaymentStatus.failed;
        error_status = PaymentErrorStatus.cancelled;
      })),
)

abbrev pub after_starting : Payment → Call
after_starting p = saving (record p { payment_status = PaymentStatus.waiting })

abbrev pub after_confirming : Payment → Books → Books × Option Call
after_confirming p s =
    let completed = record p { payment_status = PaymentStatus.completed } in
    (save completed s, some (posting true completed))

-- A call that confirms saves once more after the posting.
abbrev pub after_posting : Bool → Payment → Option Call
after_posting true p = some (saving (record p { open_payment = false }))
after_posting false p = none

-- A payment that is not paid.
unfoldable pub judge : ℕ → ℕ → Payment → Books → Books × Option Call
judge expire_ms now p s =
    if has_failed_payment_operations p.id s.operations
    then (s, some (saving (after_failure p s)))
    else if is_expired expire_ms now p
    then (
      record s { operations = cancel_payment_operations p.id s.operations },
      some (
          saving (record p {
            payment_status = PaymentStatus.failed;
            error_status = PaymentErrorStatus.expired;
          })),
    )
    else (s, some (saving p))

-- An operation that cannot be fired makes the call throw.
unfoldable pub after_firing :
    Payment
    → Books
    → List PaymentChannelOperation × Result OperationFailure (Unit {0})
    → Books × Option Call
after_firing p s (operations, err e) = (record s { operations = operations }, none)
after_firing p s (operations, ok _) = (record s { operations = operations }, some (posting false p))

module _ (b : BigJs Amount) (seller_pays : Bool) (fire : Answer) (expire_ms now : ℕ) where
  -- What a call does next, and the call after that, unless it returns or throws.
  unfoldable pub resume : Call → Books → Books × Option Call
  resume (cancelling p) s = after_cancelling p s
  resume (starting p) s = (s, some (after_starting p))
  resume (updating p) s = (
    s,
    some (
        if is_paid b seller_pays fire p s
        then completing (record p { payment_status = PaymentStatus.completed })
        else judging p),
  )
  resume (completing p) s = (save p s, some (firing p))
  resume (firing p) s =
      after_firing p s (fire_payment_operations seller_pays fire p.id s.operations)
  resume (judging p) s = judge expire_ms now p s
  resume (confirming p) s = after_confirming p s
  resume (posting closes p) s = (record s { posted = p.id ∷ s.posted }, after_posting closes p)
  resume (saving p) s = (save p s, none)

-- The calls that are under way.
pub record Service : Type 0 where
  pub books : Books
  pub calls : List Call
