-- ===== src/Channel/Tests.antt =====
-- A refund over two captures, of which one has an earlier refund.
use postral_core.Prelude.{
  String, ◌≡◌, refl, false, none, some, List, [], ◌∷◌, All, sum, ok, pos, ◌+ℤ◌, ◌-ℤ◌, ◌*ℤ◌, ◌≤ℤ◌,
  arith,
}
use postral_core.Amount.{
  Amount, proportion, add_number_values, plus_values, minus_number_values, minus_values,
}
use postral_core.Amount.Fractions.{fractions, fractions-IsExact}
use postral_core.Entity.Status.{PaymentType, PaymentOperationStatus}
use postral_core.Entity.Operation.{PaymentChannelOperation, FeePayer}
use postral_core.Channel.Allocation.{
  Share, add_refunded, available_of, portion, allocate, refund_capture_allocations,
}
use postral_core.Channel.Allocation.Total.{amounts}
use postral_core.Channel.Allocation.Capture.{refund_capture_allocations_lem}

abbrev capture : String → Amount → PaymentChannelOperation
capture id amount = record {
  id = id;
  payment_channel_id = "bank";
  operation_id = some id;
  redirect_url = "";
  amount = amount;
  operation_type = PaymentType.purchase;
  currency = "TRY";
  status = PaymentOperationStatus.completed;
  payment_id = "payment";
  original_operation_id = none;
  refund_plan = none;
  settled_refund_item_ids = none;
  provider_fee = pos 0;
  provider_fee_debit_from = FeePayer.platform;
  fee_cut_instantly = false;
}

abbrev captures : List PaymentChannelOperation
captures = capture "card" (pos 600_000) ∷ capture "transfer" (pos 400_000) ∷ []

abbrev earlier : List PaymentChannelOperation
earlier =
    record (capture "back" (pos 100_000)) {
      operation_type = PaymentType.refund;
      original_operation_id = some "card";
    }
    ∷ []

abbrev shares : List Share
shares =
    record { operation = capture "card" (pos 600_000); amount = pos 250_000 }
    ∷ record { operation = capture "transfer" (pos 400_000); amount = pos 200_000 }
    ∷ []

shares_lem : refund_capture_allocations fractions captures earlier (pos 450_000) ≡ ok shares
unfolding refund_capture_allocations available_of add_refunded allocate portion proportion
    add_number_values plus_values minus_number_values minus_values ◌+ℤ◌ ◌-ℤ◌ ◌*ℤ◌
shares_lem = refl

refund_capture_allocations_lem_example :
    (out : List Share) × (refund_capture_allocations fractions captures earlier (pos 450_000)
      ≡ ok out)
    × (sum (amounts out) ≡ pos 450_000)
    × All
        (λ (s : Share).
          (pos 1 ≤ℤ s.amount) × (s.amount ≤ℤ (available_of fractions earlier s.operation).amount))
        out
unfolding available_of add_refunded add_number_values plus_values minus_number_values minus_values
    ◌+ℤ◌ ◌-ℤ◌ ◌*ℤ◌
refund_capture_allocations_lem_example =
    refund_capture_allocations_lem fractions-IsExact captures earlier (pos 450_000)
      (omega arith, (omega arith, tt)) (omega arith) (omega arith) (omega arith)
