-- ===== src/Settlement/Tests.antt =====
-- A refund of 10.00 that the channel pays with 10.01, reported and reported again.
use postral_core.Prelude.{
  ◌≡◌, refl, String, true, false, none, some, [], ◌∷◌, find, str_eq, ok, pos, ◌+ℤ◌, ◌-ℤ◌, ◌*ℤ◌,
  if◌then◌else◌,
}
use postral_core.Amount.{Amount, add_number_values, plus_values, minus_number_values, minus_values}
use postral_core.Amount.Fractions.{fractions}
use postral_core.Entity.Status.{
  PaymentType, PaymentStatus, PaymentErrorStatus, PaymentOperationStatus,
}
use postral_core.Entity.Payment.{Payment}
use postral_core.Entity.Operation.{RefundChannelPlan, PaymentChannelOperation, FeePayer}
use postral_core.Ledger.{TransactionType, AccountPaymentTransaction}
use postral_core.Settlement.{
  RefundAnswer, Settlements, NewIds, has_operation_id, plan_total, is_invalid, rounding_entry,
  rounding_entries, round_line, settle_line,
}
use postral_core.Settlement.Record.{
  settle_operation, settle_lines, settle_found, save_refund_settlement_record,
}
use postral_core.Settlement.Balance.{balance, save_refund_settlement_record-balance}
use postral_core.Settlement.Grow.{none_yet, saved_next, Follows, Steps-Follows}
use postral_core.Settlement.Again.{save_refund_settlement_record-again}

abbrev amount_of : String → Amount
amount_of s = if str_eq s "10.00" then pos 100_000 else pos 100_100

abbrev new_ids : NewIds
new_ids item = ("correlation", "first", "second")

abbrev refund_plan : RefundChannelPlan
refund_plan = record {
  original_operation_id = "capture";
  original_channel_operation_id = "bank-1";
  rounding_account_id = some "platform";
  lines =
      record {
        original_payment_item_id = "line";
        nominal_amount = "10.00";
        provider_amount = "10.01";
      }
      ∷ [];
}

abbrev started : PaymentChannelOperation
started = record {
  id = "operation";
  payment_channel_id = "bank";
  operation_id = none;
  redirect_url = "";
  amount = pos 100_000;
  operation_type = PaymentType.refund;
  currency = "TRY";
  status = PaymentOperationStatus.waiting;
  payment_id = "refund";
  original_operation_id = some "capture";
  refund_plan = some refund_plan;
  settled_refund_item_ids = none;
  provider_fee = pos 0;
  provider_fee_debit_from = FeePayer.platform;
  fee_cut_instantly = false;
}

abbrev refund_payment : Payment
refund_payment = record {
  id = "refund";
  type = PaymentType.refund;
  total_amount = pos 100_000;
  tax_amount = pos 0;
  currency = "TRY";
  items = [];
  customer_account_id = some "customer";
  payment_status = PaymentStatus.waiting;
  error_status = PaymentErrorStatus.none;
  created_at = 0;
  refund_request_id = some "request";
  refund_approval_token = none;
  refund_approval_expires_at = none;
  include_in_report_digestion = true;
  open_payment = false;
  external_platform_id = none;
  fail_on_payment_channel_failure = false;
}

abbrev answer : RefundAnswer
answer = record {
  payment_channel_id = "bank";
  payment_channel_operation_id = some "bank-2";
  payment_status = some PaymentOperationStatus.completed;
  refund_settlements =
      some (some (record { original_payment_item_id = "line"; provider_amount = "10.01" }) ∷ []);
  provider_fee = none;
  fee_cut_instantly = none;
}

abbrev before : Settlements
before = record {
  operations = started ∷ [];
  transactions = [];
  payments = refund_payment ∷ [];
  accounts = "customer" ∷ "platform" ∷ [];
}

abbrev completed : PaymentChannelOperation
completed = record started {
  operation_id = some "bank-2";
  status = PaymentOperationStatus.completed;
  settled_refund_item_ids = some ("line" ∷ []);
}

abbrev entry : String → String → TransactionType → AccountPaymentTransaction
entry id account type = record {
  id = id;
  corelation_id = "correlation";
  account_id = account;
  payment_id = "refund";
  payment_seller_order_id = none;
  rounding_operation_id = some "operation";
  type = type;
  status = PaymentStatus.completed;
  amount = pos 100;
  tax_amount = pos 0;
}

abbrev after : Settlements
after = record before {
  operations = completed ∷ [];
  transactions =
      entry "first" "customer" TransactionType.credit
      ∷ entry "second" "platform" TransactionType.debit
      ∷ [];
}

saved_lem :
    save_refund_settlement_record fractions amount_of new_ids false answer "refund" "operation"
      before
    ≡ ok after
unfolding save_refund_settlement_record settle_found settle_lines settle_line round_line
    rounding_entries rounding_entry settle_operation is_invalid plan_total add_number_values
    plus_values minus_number_values minus_values ◌+ℤ◌ ◌-ℤ◌ ◌*ℤ◌
saved_lem = refl

save_refund_settlement_record-balance_example :
    balance after.transactions ≡ balance before.transactions
save_refund_settlement_record-balance_example =
    save_refund_settlement_record-balance fractions amount_of new_ids false answer "refund"
      "operation" before saved_lem

save_refund_settlement_record-again_example :
    save_refund_settlement_record fractions amount_of new_ids false answer "refund" "operation"
      after
    ≡ ok after
save_refund_settlement_record-again_example =
    save_refund_settlement_record-again fractions amount_of new_ids false answer "refund"
      "operation" before saved_lem

Steps-Follows_example :
    (o' : PaymentChannelOperation) × (find (has_operation_id "operation") after.operations
      ≡ some o')
    × Follows started o'
Steps-Follows_example =
    Steps-Follows fractions amount_of new_ids before after "operation"
      (saved_next false answer "refund" "operation" none_yet saved_lem) refl
