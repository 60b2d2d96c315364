-- ===== src/Orders.antt =====
-- libs/payment-core-webservice/src/service/seller-payment-order.service.ts: the orders of the
-- sellers of a payment, made from its items by `generateSellerPaymentOrders` of payment.service.ts.
-- Times and joined accounts are left out.
pub mod Save
pub mod Again
pub mod Open
mod Tests
use postral_core.Prelude.{
  ℕ, String, Bool, true, false, ◌&&◌, Option, none, some, List, [], ◌∷◌, ◌++◌, map, Result, ok, err,
  ◌>>=◌, ◌>>◌, throw_if, any, find, update_where, str_eq, join, text_of, where_text, field_of,
  Field, undefined, null, value, if◌then◌else◌,
}
use postral_core.Amount.{Amount, BigJs}
use postral_core.Entity.Status.{PaymentStatus, PaymentErrorStatus, is_purchase}
use postral_core.Entity.Payment.{Payment, PaymentItem}

-- libs/payment-common/src/type/transaction-type.ts
pub data SellerPaymentOrderType : Type 0 where
  credit_to_seller debit_from_seller : SellerPaymentOrderType

abbrev pub same_order_type : SellerPaymentOrderType → SellerPaymentOrderType → Bool
same_order_type SellerPaymentOrderType.credit_to_seller SellerPaymentOrderType.credit_to_seller =
    true
same_order_type SellerPaymentOrderType.debit_from_seller SellerPaymentOrderType.debit_from_seller =
    true
same_order_type _ _ = false

-- The copies of the accounts and of their addresses at the time of the sale.
pub record Snapshots : Type 0 where
  pub seller_account : Option String
  pub seller_address : Option String
  pub customer_account : Option String
  pub customer_address : Option String

-- libs/payment-common/src/dto/seller-payment-order.dto.ts
pub record SellerPaymentOrderDto : Type 0 where
  pub amount : Amount
  pub tax_amount : Amount
  pub currency : String
  pub payment_id : String
  pub source_account_id : Field
  pub target_account_id : Field
  pub billing_address_id : Option String
  pub payment_status : PaymentStatus
  pub error_status : Option PaymentErrorStatus
  pub transaction_type : SellerPaymentOrderType
  pub operation_note : Option String
  pub open_payment : Option Bool
  pub snapshots : Snapshots

-- libs/postral-entities/src/entity/seller-payment-order.entity.ts
pub record SellerPaymentOrder : Type 0 where
  pub id : String
  pub amount : Amount
  pub tax_amount : Amount
  pub untaxed_amount : Amount
  pub currency : String
  pub payment_id : String
  pub target_account_id : String
  pub source_account_id : String
  pub billing_address_id : Option String
  pub payment_status : PaymentStatus
  pub error_status : Option PaymentErrorStatus
  pub invoice_count : ℕ
  pub has_finalized_invoice : Bool
  pub open_payment : Bool
  pub seller_order_type : SellerPaymentOrderType
  pub operation_note : Option String
  pub snapshots : Snapshots

-- A column that takes no null, and the unique pair of a payment and its seller.
pub data OrderFailure : Type 0 where
  account_missing duplicate_order : OrderFailure

-- `TransactionMapper.fromPaymentItem`; the address and the snapshots of the payment and of the item
-- are arguments.
unfoldable pub from_payment_item :
    Option String → (PaymentItem → Snapshots) → Payment → PaymentItem → SellerPaymentOrderDto
from_payment_item billing snapshots p i = record {
  amount = i.total_amount;
  tax_amount = i.tax_amount;
  currency = p.currency;
  payment_id = p.id;
  source_account_id = field_of p.customer_account_id;
  target_account_id = i.seller_account_id;
  billing_address_id = billing;
  payment_status = p.payment_status;
  error_status = none;
  transaction_type =
      if is_purchase p.type
      then SellerPaymentOrderType.credit_to_seller
      else SellerPaymentOrderType.debit_from_seller;
  operation_note = none;
  open_payment = some p.open_payment;
  snapshots = snapshots i;
}

abbrev order_type_text : SellerPaymentOrderType → String
order_type_text SellerPaymentOrderType.credit_to_seller = "CREDIT_TO_SELLER"
order_type_text SellerPaymentOrderType.debit_from_seller = "DEBIT_FROM_SELLER"

abbrev status_text : PaymentStatus → String
status_text PaymentStatus.initiated = "INITIATED"
status_text PaymentStatus.waiting = "WAITING"
status_text PaymentStatus.completed = "COMPLETED"
status_text PaymentStatus.failed = "FAILED"

-- The text that the orders are grouped by.
unfoldable pub group_key : SellerPaymentOrderDto → String
group_key d = join "|" (
    text_of d.source_account_id
    ∷ text_of d.target_account_id
    ∷ order_type_text d.transaction_type
    ∷ d.payment_id
    ∷ d.currency
    ∷ status_text d.payment_status
    ∷ [])

-- The object that a group starts with: the fields that the source copies, and no amounts.
unfoldable pub new_group : Amount → SellerPaymentOrderDto → SellerPaymentOrderDto
new_group zero d = record d { amount = zero; tax_amount = zero; open_payment = none }

abbrev pub has_key : String → String × SellerPaymentOrderDto → Bool
has_key key group = str_eq group.0 key

-- `plus` is the `+` of JavaScript numbers.
module _ (zero : Amount) (plus : Amount → Amount → Amount) where
  unfoldable pub add_to_group :
      SellerPaymentOrderDto → String × SellerPaymentOrderDto → String × SellerPaymentOrderDto
  add_to_group d (key, group) = (
    key,
    record group {
      amount = plus group.amount d.amount;
      tax_amount = plus group.tax_amount d.tax_amount;
    },
  )

  unfoldable pub group_order :
      List (String × SellerPaymentOrderDto)
      → SellerPaymentOrderDto
      → List (String × SellerPaymentOrderDto)
  group_order groups d =
      if any (has_key (group_key d)) groups
      then update_where (has_key (group_key d)) (add_to_group d) groups
      else groups ++ (add_to_group d (group_key d, new_group zero d) ∷ [])

  -- The values of the object that the orders are grouped in, which keeps the order of its keys.
  unfoldable pub group_orders :
      List (String × SellerPaymentOrderDto)
      → List SellerPaymentOrderDto
      → List SellerPaymentOrderDto
  group_orders groups [] = map (λ g. g.1) groups
  group_orders groups (d ∷ ds) = group_orders (group_order groups d) ds
