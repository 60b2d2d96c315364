-- ===== src/Orders/Save.antt =====
-- Saving the orders of sellers: `addTransaction`, `addSellerPaymentOrders` and
-- `generateSellerPaymentOrders`.
use postral_core.Prelude.{
  ℕ, suc, String, Bool, false, ◌&&◌, Option, none, some, List, [], ◌∷◌, ◌++◌, map, Result, ok, err,
  ◌>>=◌, ◌>>◌, throw_if, any, find, update_where, str_eq, where_text, Field, value,
}
use postral_core.Amount.{Amount, BigJs}
use postral_core.Entity.Payment.{Payment, PaymentItem}
use postral_core.Tax.{calculate_untaxed_price}
use postral_core.Orders.{
  same_order_type, Snapshots, SellerPaymentOrderDto, SellerPaymentOrder, OrderFailure,
  account_missing, duplicate_order, from_payment_item, group_orders,
}

-- The rows after a call that may throw: those before it if it does.
abbrev pub saved_or_kept :
    List SellerPaymentOrder
    → Result OrderFailure (List SellerPaymentOrder)
    → (List SellerPaymentOrder → List SellerPaymentOrder × Result OrderFailure (Unit {0}))
    → List SellerPaymentOrder × Result OrderFailure (Unit {0})
saved_or_kept rows (err e) next = (rows, err e)
saved_or_kept rows (ok rows') next = next rows'

abbrev pub open_or_false : Option Bool → Bool
open_or_false none = false
open_or_false (some open_payment) = open_payment

-- The search of `addTransaction`.
abbrev pub is_order_of : SellerPaymentOrderDto → SellerPaymentOrder → Bool
is_order_of d r =
    where_text d.source_account_id r.source_account_id
    && where_text d.target_account_id r.target_account_id
    && same_order_type r.seller_order_type d.transaction_type
    && str_eq r.payment_id d.payment_id
    && str_eq r.currency d.currency

abbrev pub same_seller : SellerPaymentOrder → SellerPaymentOrder → Bool
same_seller r s = str_eq s.payment_id r.payment_id && str_eq s.target_account_id r.target_account_id

-- A column is left as it is where the value is `undefined`.
abbrev or_left : {A : Type 0} → Option A → Option A → Option A
or_left none old = old
or_left (some new) old = some new

-- The columns of an order that is there which change: the amounts do not. A snapshot that is missing
-- in the rows that a group is made of is `null`, which is written.
unfoldable pub update_order : SellerPaymentOrderDto → SellerPaymentOrder → SellerPaymentOrder
update_order d r = record r {
  payment_status = d.payment_status;
  error_status = or_left d.error_status r.error_status;
  operation_note = or_left d.operation_note r.operation_note;
  snapshots = d.snapshots;
}

abbrev pub has_order_id : String → SellerPaymentOrder → Bool
has_order_id id r = str_eq r.id id

module _ (b : BigJs Amount) where
  -- `fromDto`, and the row that the database makes of it.
  unfoldable pub from_dto :
      String → Field → Field → SellerPaymentOrderDto → Result OrderFailure SellerPaymentOrder
  from_dto id (value source) (value target) d = ok (record {
    id = id;
    amount = d.amount;
    tax_amount = d.tax_amount;
    untaxed_amount = calculate_untaxed_price b d.amount d.tax_amount;
    currency = d.currency;
    payment_id = d.payment_id;
    target_account_id = target;
    source_account_id = source;
    billing_address_id = d.billing_address_id;
    payment_status = d.payment_status;
    error_status = d.error_status;
    invoice_count = 0;
    has_finalized_invoice = false;
    open_payment = open_or_false d.open_payment;
    seller_order_type = d.transaction_type;
    operation_note = d.operation_note;
    snapshots = d.snapshots;
  })
  from_dto id _ _ d = err account_missing

  unfoldable pub insert_order :
      String
      → SellerPaymentOrderDto
      → List SellerPaymentOrder
      → Result OrderFailure (List SellerPaymentOrder)
  insert_order id d rows = do
    r ← from_dto id d.source_account_id d.target_account_id d
    throw_if (any (same_seller r) rows) duplicate_order
    ok (rows ++ (r ∷ []))

  unfoldable pub save_order :
      String
      → SellerPaymentOrderDto
      → List SellerPaymentOrder
      → Option SellerPaymentOrder
      → Result OrderFailure (List SellerPaymentOrder)
  save_order id d rows (some existing) =
      ok (update_where (has_order_id existing.id) (update_order d) rows)
  save_order id d rows none = insert_order id d rows

  unfoldable pub add_transaction :
      String
      → SellerPaymentOrderDto
      → List SellerPaymentOrder
      → Result OrderFailure (List SellerPaymentOrder)
  add_transaction id d rows = save_order id d rows (find (is_order_of d) rows)

  -- The orders of the groups one after the other; `uuid n` is the n-th new ID.
  unfoldable pub add_transactions :
      (ℕ → String)
      → ℕ
      → List SellerPaymentOrderDto
      → List SellerPaymentOrder
      → List SellerPaymentOrder × Result OrderFailure (Unit {0})
  add_transactions uuid n [] rows = (rows, ok tt)
  add_transactions uuid n (d ∷ ds) rows =
      saved_or_kept rows (add_transaction (uuid n) d rows) (add_transactions uuid (suc n) ds)

  unfoldable pub add_seller_payment_orders :
      Amount
      → (Amount → Amount → Amount)
      → (ℕ → String)
      → ℕ
      → List SellerPaymentOrderDto
      → List SellerPaymentOrder
      → List SellerPaymentOrder × Result OrderFailure (Unit {0})
  add_seller_payment_orders zero plus uuid n ds =
      add_transactions uuid n (group_orders zero plus [] ds)

  unfoldable pub generate_seller_payment_orders :
      Amount
      → (Amount → Amount → Amount)
      → (ℕ → String)
      → ℕ
      → Option String
      → (PaymentItem → Snapshots)
      → Payment
      → List SellerPaymentOrder
      → List SellerPaymentOrder × Result OrderFailure (Unit {0})
  generate_seller_payment_orders zero plus uuid n billing snapshots p =
      add_seller_payment_orders zero plus uuid n
        (map (from_payment_item billing snapshots p) p.items)

unfoldable pub update_invoice_status :
    String → ℕ → Bool → List SellerPaymentOrder → List SellerPaymentOrder
update_invoice_status id count finalized =
    update_where (has_order_id id)
      (λ r. record r { invoice_count = count; has_finalized_invoice = finalized })

unfoldable pub close_open_payment_orders :
    String → List SellerPaymentOrder → List SellerPaymentOrder
close_open_payment_orders payment =
    update_where (λ r. str_eq r.payment_id payment) (λ r. record r { open_payment = false })
