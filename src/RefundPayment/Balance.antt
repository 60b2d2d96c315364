-- ===== src/RefundPayment/Balance.antt =====
-- The account transactions of a refund.
use postral_core.Prelude.{
  ◌≡◌, ap, String, Bool, true, false, not, ◌||◌, some, map, Result, ok, err, >>=-returned,
  ok-injective, throw_if, or_throw, any, find, includes, is_empty, str_eq,
}
use mathlib.Core.Path.{subst}
use mathlib.Core.Option.{some-injective}
use postral_core.Amount.{Amount, BigJs, IsExact}
use postral_core.Amount.Exact.{add_number_values-sum}
use postral_core.Entity.Status.{is_purchase, is_completed, is_approved}
use postral_core.Entity.Payment.{Payment, PaymentItem}
use postral_core.Entity.Refund.{RefundRequest}
use postral_core.Ledger.{TransactionType, transactions_of}
use postral_core.Ledger.Balance.{posted, transactions_of-balanced}
use postral_core.RefundPayment.{
  RefundPaymentFailure, already_approved, original_not_found, external_platform,
  not_completed_purchase, customer_not_found, RefundTables, Fresh, of_request, refund_items,
  refund_payment, build_refund_payment, unless_paid, prepare_refund,
}

module _ {b : BigJs Amount} (exact : IsExact b) (correlation : String) where
  -- The payment is worth what its transactions move.
  IsBalanced : Payment → Type 0
  IsBalanced p =
      (posted TransactionType.credit (λ d. d.amount) (transactions_of b correlation p)
        ≡ posted TransactionType.debit (λ d. d.amount) (transactions_of b correlation p))
      × (posted TransactionType.credit (λ d. d.tax_amount) (transactions_of b correlation p)
          ≡ posted TransactionType.debit (λ d. d.tax_amount) (transactions_of b correlation p))

  build_refund_payment-IsBalanced :
      (fresh : Fresh) (s : RefundTables) (request : RefundRequest) (original : Payment)
      {p : Payment}
      → build_refund_payment b fresh s request original ≡ ok p
      → IsBalanced p
  unfolding build_refund_payment refund_payment IsBalanced
  build_refund_payment-IsBalanced fresh s request original h =
      let (items, _, h0) = >>=-returned (refund_items fresh.item_id 0 original request.items) _ h in
      let (customer, _, h1) =
        >>=-returned (or_throw original.customer_account_id customer_not_found) _ h0 in
      let (_, _, h2) =
        >>=-returned (throw_if (not (includes s.accounts customer)) customer_not_found) _ h1 in
      subst IsBalanced (ok-injective h2) (
        transactions_of-balanced exact correlation
          (refund_payment b fresh original request.id items)
          (add_number_values-sum exact (map (λ (i : PaymentItem). i.total_amount) items))
          (add_number_values-sum exact (map (λ (i : PaymentItem). i.tax_amount) items)))

  unless_paid-some :
      (paid : Bool) (call : Result RefundPaymentFailure Payment) {p : Payment}
      → unless_paid b paid call ≡ ok (some p)
      → call ≡ ok p
  unfolding unless_paid
  unless_paid-some true call h = cc
  unless_paid-some false (err e) h = cc
  unless_paid-some false (ok q) h = ap ok (some-injective _ _ (ok-injective h))

  -- If the arithmetic is exact and the payment of a refund was prepared, its transactions credit as
  -- much as they debit, in amounts and in taxes.
  pub prepare_refund-balanced :
      (fresh : Fresh) (request : RefundRequest) (s : RefundTables) {p : Payment}
      → prepare_refund b fresh request s ≡ ok (some p)
      → (posted TransactionType.credit (λ d. d.amount) (transactions_of b correlation p)
          ≡ posted TransactionType.debit (λ d. d.amount) (transactions_of b correlation p))
        × (posted TransactionType.credit (λ d. d.tax_amount) (transactions_of b correlation p)
            ≡ posted TransactionType.debit (λ d. d.tax_amount) (transactions_of b correlation p))
  unfolding prepare_refund IsBalanced
  prepare_refund-balanced fresh request s h =
      let (_, _, h0) = >>=-returned (throw_if (is_approved request.status) already_approved) _ h in
      let (original, _, h1) =
        >>=-returned
          (or_throw (find (λ (p : Payment). str_eq p.id request.payment_id) s.payments)
            original_not_found)
          _ h0 in
      let (_, _, h2) =
        >>=-returned (throw_if (not (is_empty original.external_platform_id)) external_platform) _
          h1 in
      let (_, _, h3) =
        >>=-returned
          (throw_if (not (is_purchase original.type) || not (is_completed original.payment_status))
            not_completed_purchase)
          _ h2 in
      build_refund_payment-IsBalanced fresh s request original
        (unless_paid-some (any (of_request request.id) s.payments) _ h3)
