-- ===== src/Refund/Tests/Data.antt =====
-- A completed purchase, and requests for parts of it.
use postral_core.Prelude.{false, none, some, [], ◌∷◌, ℤ, pos, value}
use postral_core.Entity.Status.{PaymentType, PaymentStatus, PaymentErrorStatus}
use postral_core.Entity.Payment.{Payment, PaymentItem}
use postral_core.Refund.Checks.{CreateRefundRequest, RequestedItem, four}
use postral_core.Refund.Store.{Store}

-- Three pieces for 10.00, with 20 percent tax and a commission of 1.00.
abbrev pub chairs : PaymentItem
chairs = record {
  id = "line";
  item_id = "chair";
  variation = "red";
  name = "Chair";
  quantity = pos 30_000;
  total_amount = pos 100_000;
  original_unit_amount = pos 33_333;
  unit_amount = pos 33_333;
  tax_percent = pos 200_000;
  tax_amount = pos 16_667;
  un_tax_amount = pos 83_333;
  seller_account_id = value "seller";
  refunded = false;
  refund_count = pos 0;
  item_class = "furniture";
  app_comission_amount = pos 10_000;
  app_comission_percent = pos 100_000;
}

abbrev pub purchase : Payment
purchase = record {
  id = "payment";
  type = PaymentType.purchase;
  total_amount = pos 100_000;
  tax_amount = pos 16_667;
  currency = "TRY";
  items = chairs ∷ [];
  customer_account_id = some "customer";
  payment_status = PaymentStatus.completed;
  error_status = PaymentErrorStatus.none;
  created_at = 0;
  refund_request_id = none;
  refund_approval_token = none;
  refund_approval_expires_at = none;
  include_in_report_digestion = false;
  open_payment = false;
  external_platform_id = none;
  fail_on_payment_channel_failure = false;
}

abbrev pub tables : Store
tables = record { payments = purchase ∷ []; requests = [] }

abbrev pub pieces : ℤ → RequestedItem
pieces n = record { payment_item_id = "line"; refund_count = n }

abbrev pub one_piece : CreateRefundRequest
one_piece = record {
  payment_id = "payment";
  items = record { payment_item_id = some "line"; refund_count = four (pos 10_000) } ∷ [];
  reason_keys = "DEFECTIVE" ∷ [];
  request_note = none;
}
