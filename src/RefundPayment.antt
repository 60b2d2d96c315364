-- ===== src/RefundPayment.antt =====
-- `PaymentService.createRefundPayment` of
-- libs/payment-core-webservice/src/service/payment.service.ts: the payment of a refund is prepared,
-- and then saved in a transaction with its orders and account transactions. The refund plan of the
-- channels is left out, and so is the start of their operations, which follows.
pub mod Prepared
pub mod Once
pub mod Balance
mod Tests
use postral_core.Prelude.{
  ℕ, suc, String, Bool, true, false, not, ◌&&◌, ◌||◌, Option, none, some, List, [], ◌∷◌, ◌++◌, map,
  Result, ok, err, ◌>>=◌, ◌>>◌, throw_if, or_throw, find, any, includes, is_empty, opt_eq, str_eq,
  pos, if◌then◌else◌,
}
use postral_core.Amount.{Amount, BigJs, add_number_values}
use postral_core.Entity.Status.{
  PaymentType, PaymentStatus, PaymentErrorStatus, is_purchase, is_completed, is_failed, is_pending,
  is_approved,
}
use postral_core.Entity.Payment.{Payment, PaymentItem}
use postral_core.Entity.Refund.{RefundRequest, RefundRequestItem}
use postral_core.Ledger.{AccountPaymentTransaction, LedgerFailure, from_payment_within}
use postral_core.Orders.{Snapshots, SellerPaymentOrder, OrderFailure}
use postral_core.Orders.Save.{generate_seller_payment_orders}

pub data RefundPaymentFailure : Type 0 where
  already_approved original_not_found external_platform not_completed_purchase :
      RefundPaymentFailure
  original_item_not_found customer_not_found not_pending refund_failed : RefundPaymentFailure
  changed_during_preparation : RefundPaymentFailure
  not_ordered : OrderFailure → RefundPaymentFailure
  not_posted : LedgerFailure → RefundPaymentFailure

pub record RefundTables : Type 0 where
  pub payments : List Payment
  pub requests : List RefundRequest
  pub orders : List SellerPaymentOrder
  pub transactions : List AccountPaymentTransaction
  pub accounts : List String

-- What is new in a payment: its ID, those of its items, and the time.
pub record Fresh : Type 0 where
  pub payment_id : String
  pub item_id : ℕ → String
  pub now : ℕ

abbrev pub of_request : String → Payment → Bool
of_request id p = opt_eq p.refund_request_id (some id)

-- The item of a refund: the original one, with the amounts of the refund.
unfoldable pub refund_item : String → PaymentItem → RefundRequestItem → PaymentItem
refund_item id original c = record original {
  id = id;
  quantity = c.refund_count;
  total_amount = c.refund_amount;
  tax_amount = c.refund_tax_amount;
  un_tax_amount = c.refund_amount_without_tax;
  app_comission_amount = c.app_comission_amount;
  refunded = false;
  refund_count = pos 0;
}

unfoldable pub refund_items :
    (ℕ → String)
    → ℕ
    → Payment
    → List RefundRequestItem
    → Result RefundPaymentFailure (List PaymentItem)
refund_items new_id n original [] = ok []
refund_items new_id n original (c ∷ cs) = do
  i ←
      or_throw (find (λ (i : PaymentItem). str_eq i.id c.payment_item_id) original.items)
        original_item_not_found
  rest ← refund_items new_id (suc n) original cs
  ok (refund_item (new_id n) i c ∷ rest)

module _ (b : BigJs Amount) where
  -- `generateEntityFromInitDto` with the items of the refund; the payment waits at once.
  unfoldable pub refund_payment : Fresh → Payment → String → List PaymentItem → Payment
  refund_payment fresh original request_id items = record {
    id = fresh.payment_id;
    type = PaymentType.refund;
    total_amount = add_number_values b (map (λ (i : PaymentItem). i.total_amount) items);
    tax_amount = add_number_values b (map (λ (i : PaymentItem). i.tax_amount) items);
    currency = original.currency;
    items = items;
    customer_account_id = original.customer_account_id;
    payment_status = PaymentStatus.waiting;
    error_status = PaymentErrorStatus.none;
    created_at = fresh.now;
    refund_request_id = some request_id;
    refund_approval_token = none;
    refund_approval_expires_at = none;
    include_in_report_digestion = true;
    open_payment = false;
    external_platform_id = none;
    fail_on_payment_channel_failure = false;
  }

  unfoldable pub build_refund_payment :
      Fresh → RefundTables → RefundRequest → Payment → Result RefundPaymentFailure Payment
  build_refund_payment fresh s request original = do
    items ← refund_items fresh.item_id 0 original request.items
    customer ← or_throw original.customer_account_id customer_not_found
    throw_if (not (includes s.accounts customer)) customer_not_found
    ok (refund_payment fresh original request.id items)

  -- A payment that the request has already is not prepared again.
  unfoldable pub unless_paid :
      Bool → Result RefundPaymentFailure Payment → Result RefundPaymentFailure (Option Payment)
  unless_paid true prepared = ok none
  unless_paid false prepared = do p ← prepared; ok (some p)

  -- The part before the transaction.
  unfoldable pub prepare_refund :
      Fresh → RefundRequest → RefundTables → Result RefundPaymentFailure (Option Payment)
  prepare_refund fresh request s = do
    throw_if (is_approved request.status) already_approved
    original ←
        or_throw (find (λ (p : Payment). str_eq p.id request.payment_id) s.payments)
          original_not_found
    throw_if (not (is_empty original.external_platform_id)) external_platform
    throw_if (not (is_purchase original.type) || not (is_completed original.payment_status))
        not_completed_purchase
    unless_paid (any (of_request request.id) s.payments)
        (build_refund_payment fresh s request original)

-- How the orders and the transactions of a payment are made: see Orders and Ledger.
pub record Posting : Type 0 where
  pub make_orders :
      Payment → List SellerPaymentOrder → List SellerPaymentOrder × Result OrderFailure (Unit {0})
  pub make_transactions :
      Payment
      → List AccountPaymentTransaction
      → Result LedgerFailure (List AccountPaymentTransaction)

-- Within a transaction a throw undoes the rows that were written.
abbrev pub or_undone :
    List SellerPaymentOrder × Result OrderFailure (Unit {0})
    → Result RefundPaymentFailure (List SellerPaymentOrder)
or_undone (rows, ok _) = ok rows
or_undone (rows, err e) = err (not_ordered e)

abbrev pub as_posted : {A : Type 0} → Result LedgerFailure A → Result RefundPaymentFailure A
as_posted (ok a) = ok a
as_posted (err e) = err (not_posted e)

-- The orders and transactions as `fromPayment` and `generateSellerPaymentOrders` make them.
unfoldable pub posting :
    BigJs Amount
    → Amount
    → (Amount → Amount → Amount)
    → (ℕ → String)
    → ℕ
    → String
    → Option String
    → (PaymentItem → Snapshots)
    → Posting
posting b zero plus uuid n correlation billing snapshots = record {
  make_orders = generate_seller_payment_orders b zero plus uuid n billing snapshots;
  make_transactions = from_payment_within b uuid n correlation;
}

unfoldable pub save_refund :
    Posting → Payment → RefundTables → Result RefundPaymentFailure (RefundTables × Payment)
save_refund post p s = do
  orders ← or_undone (post.make_orders p s.orders)
  transactions ← as_posted (post.make_transactions p s.transactions)
  ok (
    record s { payments = s.payments ++ (p ∷ []); orders = orders; transactions = transactions },
    p,
  )

unfoldable pub reuse_or_save :
    Posting
    → Option Payment
    → RefundTables
    → Option Payment
    → Result RefundPaymentFailure (RefundTables × Payment)
reuse_or_save post prepared s (some existing) = do
  throw_if (is_failed existing.payment_status) refund_failed
  ok (s, existing)
reuse_or_save post none s none = err changed_during_preparation
reuse_or_save post (some p) s none = save_refund post p s

-- The transaction, which locks the row of the request.
unfoldable pub commit_refund :
    Posting
    → Option Payment
    → String
    → RefundTables
    → Result RefundPaymentFailure (RefundTables × Payment)
commit_refund post prepared request_id s = do
  request ← or_throw (find (λ (r : RefundRequest). str_eq r.id request_id) s.requests) not_pending
  throw_if (not (is_pending request.status)) not_pending
  reuse_or_save post prepared s (find (of_request request_id) s.payments)
