-- ===== src/RefundPayment/Tests.antt =====
-- A refund of one of three pieces, created twice.
use postral_core.Prelude.{
  ◌≡◌, refl, ◌≤◌, arith, String, true, false, none, some, [], ◌∷◌, filter, length, ok, pos, ◌+ℤ◌,
  ◌-ℤ◌, ◌*ℤ◌, value, join,
}
use postral_core.Amount.{add_number_values, plus_values, minus_number_values, minus_values}
use postral_core.Amount.Fractions.{fractions, fractions-IsExact}
use postral_core.Entity.Status.{PaymentType, PaymentStatus, PaymentErrorStatus, RefundRequestStatus}
use postral_core.Entity.Payment.{Payment, PaymentItem}
use postral_core.Entity.Refund.{RefundRequest, RefundRequestItem, over}
use postral_core.Tax.{calculate_untaxed_price}
use postral_core.Ledger.{
  TransactionType, AccountPaymentTransaction, add_item, post_item, post_items, first_transaction,
  customer_transaction, transactions_of, seller_rotation, customer_rotation, entity_with,
  to_entities, from_payment_within,
}
use postral_core.Ledger.Balance.{posted}
use postral_core.Orders.{
  SellerPaymentOrderType, Snapshots, SellerPaymentOrder, from_payment_item, group_key, new_group,
  add_to_group, group_order, group_orders,
}
use postral_core.Orders.Save.{
  from_dto, insert_order, save_order, add_transaction, add_transactions, add_seller_payment_orders,
  generate_seller_payment_orders,
}
use postral_core.RefundPayment.{
  RefundTables, Fresh, of_request, refund_item, refund_items, refund_payment, build_refund_payment,
  unless_paid, prepare_refund, Posting, posting, save_refund, reuse_or_save, commit_refund,
}
use postral_core.RefundPayment.Once.{begin, committed, Steps-once, commit_refund-again}
use postral_core.RefundPayment.Balance.{prepare_refund-balanced}

abbrev chairs : PaymentItem
chairs = record {
  id = "line";
  item_id = "chair";
  variation = "red";
  name = "Chair";
  quantity = pos 30_000;
  total_amount = pos 360_000;
  original_unit_amount = pos 120_000;
  unit_amount = pos 120_000;
  tax_percent = pos 200_000;
  tax_amount = pos 60_000;
  un_tax_amount = pos 300_000;
  seller_account_id = value "seller";
  refunded = false;
  refund_count = pos 0;
  item_class = "furniture";
  app_comission_amount = pos 36_000;
  app_comission_percent = pos 100_000;
}

abbrev purchase : Payment
purchase = record {
  id = "payment";
  type = PaymentType.purchase;
  total_amount = pos 360_000;
  tax_amount = pos 60_000;
  currency = "TRY";
  items = chairs ∷ [];
  customer_account_id = some "customer";
  payment_status = PaymentStatus.completed;
  error_status = PaymentErrorStatus.none;
  created_at = 0;
  refund_request_id = none;
  refund_approval_token = none;
  refund_approval_expires_at = none;
  include_in_report_digestion = true;
  open_payment = false;
  external_platform_id = none;
  fail_on_payment_channel_failure = false;
}

abbrev one_chair : RefundRequestItem
one_chair = record {
  payment_item_id = "line";
  real_item_id = "chair";
  variation = "red";
  refund_count = pos 10_000;
  item_name = "Chair";
  unit_amount = pos 120_000;
  unit_amount_without_tax = over (pos 300_000) (pos 30_000);
  refund_amount = pos 120_000;
  refund_amount_without_tax = pos 100_000;
  refund_tax_amount = pos 20_000;
  item_class = "furniture";
  app_comission_amount = pos 12_000;
  app_comission_percent = pos 100_000;
}

abbrev request : RefundRequest
request = record {
  id = "request";
  idempotency_key = none;
  payment_id = "payment";
  status = RefundRequestStatus.pending;
  items = one_chair ∷ [];
  requested_by_account_id = "user";
  requested_by_payment_account_id = some "customer";
  requested_to_payment_account_id = value "seller";
  currency = "TRY";
  reason_keys = "DEFECTIVE" ∷ [];
  request_note = none;
  resolution_note = none;
  resolved_by_account_id = none;
}

abbrev before : RefundTables
before = record {
  payments = purchase ∷ [];
  requests = request ∷ [];
  orders = [];
  transactions = [];
  accounts = "customer" ∷ "seller" ∷ [];
}

abbrev fresh : Fresh
fresh = record { payment_id = "refund"; item_id = λ _. "refunded"; now = 5 }

abbrev refund : Payment
refund = record purchase {
  id = "refund";
  type = PaymentType.refund;
  total_amount = pos 120_000;
  tax_amount = pos 20_000;
  items =
      record chairs {
        id = "refunded";
        quantity = pos 10_000;
        total_amount = pos 120_000;
        tax_amount = pos 20_000;
        un_tax_amount = pos 100_000;
        app_comission_amount = pos 12_000;
      }
      ∷ [];
  payment_status = PaymentStatus.waiting;
  created_at = 5;
  refund_request_id = some "request";
}

prepared_lem : prepare_refund fractions fresh request before ≡ ok (some refund)
unfolding prepare_refund unless_paid build_refund_payment refund_payment refund_items refund_item
    add_number_values plus_values ◌+ℤ◌ ◌-ℤ◌ ◌*ℤ◌
prepared_lem = refl

prepare_refund-balanced_example :
    (posted TransactionType.credit (λ d. d.amount) (transactions_of fractions "c" refund)
      ≡ posted TransactionType.debit (λ d. d.amount) (transactions_of fractions "c" refund))
    × (posted TransactionType.credit (λ d. d.tax_amount) (transactions_of fractions "c" refund)
        ≡ posted TransactionType.debit (λ d. d.tax_amount) (transactions_of fractions "c" refund))
prepare_refund-balanced_example =
    prepare_refund-balanced fractions-IsExact "c" fresh request before prepared_lem

abbrev no_snapshots : Snapshots
no_snapshots = record {
  seller_account = none;
  seller_address = none;
  customer_account = none;
  customer_address = none;
}

abbrev post : Posting
post = posting fractions (pos 0) ◌+ℤ◌ (λ _. "new") 0 "c" none (λ _. no_snapshots)

abbrev order : SellerPaymentOrder
order = record {
  id = "new";
  amount = pos 120_000;
  tax_amount = pos 20_000;
  untaxed_amount = pos 100_000;
  currency = "TRY";
  payment_id = "refund";
  target_account_id = "seller";
  source_account_id = "customer";
  billing_address_id = none;
  payment_status = PaymentStatus.waiting;
  error_status = none;
  invoice_count = 0;
  has_finalized_invoice = false;
  open_payment = false;
  seller_order_type = SellerPaymentOrderType.debit_from_seller;
  operation_note = none;
  snapshots = no_snapshots;
}

abbrev entry : String → TransactionType → AccountPaymentTransaction
entry account type = record {
  id = "new";
  corelation_id = "c";
  account_id = account;
  payment_id = "refund";
  payment_seller_order_id = none;
  rounding_operation_id = none;
  type = type;
  status = PaymentStatus.waiting;
  amount = pos 120_000;
  tax_amount = pos 20_000;
}

abbrev after : RefundTables
after = record before {
  payments = purchase ∷ refund ∷ [];
  orders = order ∷ [];
  transactions =
      entry "seller" TransactionType.debit ∷ entry "customer" TransactionType.credit ∷ [];
}

committed_lem : commit_refund post (some refund) "request" before ≡ ok (after, refund)
unfolding commit_refund reuse_or_save save_refund posting generate_seller_payment_orders
    add_seller_payment_orders add_transactions add_transaction save_order insert_order from_dto
    from_payment_item group_orders group_order group_key new_group add_to_group join
    calculate_untaxed_price from_payment_within to_entities entity_with transactions_of post_items
    post_item add_item first_transaction customer_transaction seller_rotation customer_rotation
    add_number_values plus_values minus_number_values minus_values ◌+ℤ◌ ◌-ℤ◌ ◌*ℤ◌
committed_lem = refl

commit_refund-again_example : commit_refund post none "request" after ≡ ok (after, refund)
commit_refund-again_example =
    commit_refund-again fractions post fresh request before before none prepared_lem committed_lem

Steps-once_example : length (filter (of_request "request") after.payments) ≤ 1
Steps-once_example =
    Steps-once fractions post before after "request" (λ j. omega arith)
      (committed before fresh request before refund begin prepared_lem committed_lem)
