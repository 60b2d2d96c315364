-- ===== src/Lifecycle/Lost.antt =====
-- A payment whose channel refuses to fire: `updatePaymentByOperationStatuses` has saved it as
-- completed before.
use postral_core.Prelude.{
  ℕ, String, ◌≡◌, refl, sym, ap, ◌∙◌, Bool, true, false, List, find, Result, ok, err, or_throw,
  or_throw-ok, find_key,
}
use postral_core.Amount.{Amount, BigJs}
use postral_core.Entity.Status.{PaymentStatus}
use postral_core.Entity.Payment.{Payment}
use postral_core.Entity.Operation.{PaymentChannelOperation}
use postral_core.Channel.Operations.{Answer, OperationFailure, fire_payment_operations}
use postral_core.Lifecycle.Rows.{find-saved_own}
use postral_core.Lifecycle.{
  Books, is_payment, find_payment, save, is_resolved, update_paid, update_found, update_read,
  post_fired, update_payment_by_operation_statuses, is_paid, PaymentFailure, operation_failed,
}

module _ (b : BigJs Amount) (seller_pays : Bool) (fire : Answer) (expire_ms now : ℕ)
    (id : String) where
  update-read :
      (s : Books) (p : Payment)
      → find_payment id s ≡ ok p
      → update_payment_by_operation_statuses b seller_pays fire expire_ms now id s
        ≡ update_found b seller_pays fire expire_ms now p s
  unfolding update_payment_by_operation_statuses update_read
  update-read s p h = ap (update_read b seller_pays fire expire_ms now s) h

  update-resolved :
      (s : Books) (p : Payment)
      → find_payment id s ≡ ok p
      → is_resolved p.payment_status ≡ true
      → update_payment_by_operation_statuses b seller_pays fire expire_ms now id s ≡ (s, ok tt)
  unfolding update_found
  update-resolved s p h done = update-read s p h ∙ rw done

  update-refused :
      (s : Books) (p : Payment) (operations : List PaymentChannelOperation) (e : OperationFailure)
      → find_payment id s ≡ ok p
      → is_resolved p.payment_status ≡ false
      → is_paid b seller_pays fire p s ≡ true
      → fire_payment_operations seller_pays fire p.id s.operations ≡ (operations, err e)
      → update_payment_by_operation_statuses b seller_pays fire expire_ms now id s ≡ (
        record (save (record p { payment_status = PaymentStatus.completed }) s) {
          operations = operations;
        },
        err (operation_failed e),
      )
  unfolding update_found update_paid post_fired
  update-refused s p operations e h unresolved paid refused =
      update-read s p h ∙ rw (unresolved, paid, refused)

-- If a payment is not resolved, is paid, and firing its operations fails, then the update fails
-- and makes no orders and transactions, but leaves the payment completed, and an update at any
-- later time, whatever the channels answer then, returns and changes nothing.
pub update-lost :
    (b : BigJs Amount) (seller_pays : Bool) (fire fire' : Answer) (expire_ms now later : ℕ)
    (id : String) (s : Books) (p : Payment) (operations : List PaymentChannelOperation)
    (e : OperationFailure)
    → find_payment id s ≡ ok p
    → is_resolved p.payment_status ≡ false
    → is_paid b seller_pays fire p s ≡ true
    → fire_payment_operations seller_pays fire p.id s.operations ≡ (operations, err e)
    → let (s', result) =
        update_payment_by_operation_statuses b seller_pays fire expire_ms now id s in
      (result ≡ err (operation_failed e))
      × (s'.posted ≡ s.posted)
      × (find_payment id s' ≡ ok (record p { payment_status = PaymentStatus.completed }))
      × (update_payment_by_operation_statuses b seller_pays fire' expire_ms later id s'
          ≡ (s', ok tt))
update-lost b seller_pays fire fire' expire_ms now later id s p operations e h unresolved paid
      refused =
    let new = record p { payment_status = PaymentStatus.completed } in
    let after =
      update-refused b seller_pays fire expire_ms now id s p operations e h unresolved paid
        refused in
    let read = or_throw-ok (find (is_payment id) s.payments) PaymentFailure.payment_not_found h in
    let key : p.id ≡ id = find_key (λ (p : Payment). p.id) id s.payments read in
    let own = find-saved_own new s.payments (ap (λ k. find (is_payment k) s.payments) key ∙ read) in
    let found =
      ap (λ (r : Books × Result PaymentFailure (Unit {0})). find_payment id r.0) after
      ∙ ap
          (λ k.
            or_throw (find (is_payment k) (save new s).payments) PaymentFailure.payment_not_found)
          (sym key)
      ∙ ap (λ o. or_throw o PaymentFailure.payment_not_found) own in
    (
      ap (λ (r : Books × Result PaymentFailure (Unit {0})). r.1) after,
      ap (λ (r : Books × Result PaymentFailure (Unit {0})). r.0.posted) after,
      found,
      update-resolved b seller_pays fire' expire_ms later id _ new found refl,
    )
