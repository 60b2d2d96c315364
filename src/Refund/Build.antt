-- ===== src/Refund/Build.antt =====
-- `buildRefundRequestEntity` and `buildRefundRequestItems`: the amounts of a refund request.
pub mod Final
pub mod Share
use postral_core.Prelude.{
  String, Bool, Option, none, List, [], ◌∷◌, map, ok, err, ◌>>=◌, or_throw, map_result, pos, eqb_ℤ,
  ltb_ℤ, if◌then◌else◌,
}
use postral_core.Amount.{Amount, BigJs, half_up, proportion, add_number_values, minus_number_values}
use postral_core.Entity.Status.{RefundRequestStatus}
use postral_core.Entity.Payment.{Payment, PaymentItem}
use postral_core.Entity.Refund.{RefundRequest, RefundRequestItem, Quotient, over}
use postral_core.Refund.Failure.{Attempt, division_by_zero, no_items}
use postral_core.Refund.Checks.{CreateRefundRequest, RequestedItem, get_payment_item, items_of}

-- The unit price before tax, or 0 for no quantity.
abbrev unit_without_tax : PaymentItem → Quotient
unit_without_tax i =
    if ltb_ℤ (pos 0) i.quantity then over i.un_tax_amount i.quantity else over (pos 0) (pos 10_000)

module _ (b : BigJs Amount) where
  -- `isFinalQuantity`: with this request the reserved quantities reach the purchased one.
  unfoldable pub is_final_quantity : PaymentItem → List RefundRequestItem → Amount → Bool
  is_final_quantity i reserved count =
      let reserved_count =
        add_number_values b (map (λ (c : RefundRequestItem). c.refund_count) reserved) in
      eqb_ℤ (add_number_values b (reserved_count ∷ count ∷ [])) i.quantity

  -- `allocateAmount`: the remainder for the final quantity, or else a rounded share.
  unfoldable pub allocate_amount :
      Bool → PaymentItem → Amount → Amount → List Amount → Attempt Amount
  allocate_amount final i count total reserved =
      if final
      then ok (minus_number_values b total reserved)
      else or_throw (proportion b half_up total count i.quantity) division_by_zero

  -- One item of the request, given the reserved items of the same payment item.
  unfoldable pub build_item :
      PaymentItem → List RefundRequestItem → RequestedItem → Attempt RefundRequestItem
  build_item i reserved requested = do
    let final = is_final_quantity i reserved requested.refund_count
    let allocate = allocate_amount final i requested.refund_count
    comission ←
        allocate i.app_comission_amount
          (map (λ (c : RefundRequestItem). c.app_comission_amount) reserved)
    amount ← allocate i.total_amount (map (λ (c : RefundRequestItem). c.refund_amount) reserved)
    without_tax ←
        allocate i.un_tax_amount
          (map (λ (c : RefundRequestItem). c.refund_amount_without_tax) reserved)
    ok (record {
      payment_item_id = requested.payment_item_id;
      real_item_id = i.item_id;
      variation = i.variation;
      refund_count = requested.refund_count;
      item_name = i.name;
      unit_amount = i.unit_amount;
      unit_amount_without_tax = unit_without_tax i;
      refund_amount = amount;
      refund_amount_without_tax = without_tax;
      refund_tax_amount = minus_number_values b amount (without_tax ∷ []);
      item_class = i.item_class;
      app_comission_amount = comission;
      app_comission_percent = i.app_comission_percent;
    })

  unfoldable pub build_requested_item :
      Payment → List RefundRequest → RequestedItem → Attempt RefundRequestItem
  build_requested_item p reservations requested = do
    i ← get_payment_item p requested.payment_item_id
    build_item i (items_of i.id reservations) requested

  unfoldable pub build_refund_request_items :
      Payment → List RequestedItem → List RefundRequest → Attempt (List RefundRequestItem)
  build_refund_request_items p requested reservations =
      map_result (build_requested_item p reservations) requested

  -- `id` is the one that the database gives when the request is saved, and `key` is the
  -- idempotency key of a system request.
  unfoldable pub build_refund_request_entity :
      String
      → Option String
      → String
      → CreateRefundRequest
      → List RequestedItem
      → Payment
      → List RefundRequest
      → Attempt RefundRequest
  build_refund_request_entity id key actor dto [] p reservations = err no_items
  build_refund_request_entity id key actor dto (first ∷ rest) p reservations = do
    first_item ← get_payment_item p first.payment_item_id
    items ← build_refund_request_items p (first ∷ rest) reservations
    ok (record {
      id = id;
      idempotency_key = key;
      payment_id = dto.payment_id;
      status = RefundRequestStatus.pending;
      items = items;
      requested_by_account_id = actor;
      requested_by_payment_account_id = p.customer_account_id;
      requested_to_payment_account_id = first_item.seller_account_id;
      currency = p.currency;
      reason_keys = dto.reason_keys;
      request_note = dto.request_note;
      resolution_note = none;
      resolved_by_account_id = none;
    })
