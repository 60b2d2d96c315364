-- ===== src/Channel/Allocation.antt =====
-- `refundCaptureAllocations` of `PaymentOperationManagementService`: the share of a refund that each
-- captured operation carries.
pub mod Bounds
pub mod Total
pub mod Capture
use postral_core.Prelude.{
  String, Bool, not, ◌&&◌, ◌||◌, Option, none, some, List, [], ◌∷◌, map, filter, any, ok, err,
  ◌>>=◌, ◌>>◌, Result, throw_if, or_throw, ltb_ℤ, eqb_ℤ, pos, opt_eq, if◌then◌else◌,
}
use postral_core.Amount.{Amount, BigJs, down, proportion, add_number_values, minus_number_values}
use postral_core.Entity.Operation.{PaymentChannelOperation}

pub data ChannelFailure : Type 0 where
  exceeds_capture division_by_zero : ChannelFailure

-- An operation and a number that belongs to it.
pub record Share : Type 0 where
  pub operation : PaymentChannelOperation
  pub amount : Amount

abbrev is_refund_of : PaymentChannelOperation → PaymentChannelOperation → Bool
is_refund_of operation refund = opt_eq refund.original_operation_id (some operation.id)

module _ (b : BigJs Amount) where
  -- the `reduce` over earlier refunds, from the sum so far
  unfoldable pub add_refunded : Amount → List PaymentChannelOperation → Amount
  add_refunded total [] = total
  add_refunded total (refund ∷ refunds) =
      add_refunded (add_number_values b (total ∷ refund.amount ∷ [])) refunds

  -- What is left of an operation after its earlier refunds.
  unfoldable pub available_of : List PaymentChannelOperation → PaymentChannelOperation → Share
  available_of previous operation = record {
    operation = operation;
    amount =
        minus_number_values b operation.amount
          (add_refunded (pos 0) (filter (is_refund_of operation) previous) ∷ []);
  }

  -- The amount of one operation, given what is left to refund and what is left of all captures.
  unfoldable pub portion : Amount → Amount → Amount → Result ChannelFailure Amount
  portion remaining left available =
      if eqb_ℤ left (pos 0)
      then ok (pos 0)
      else if eqb_ℤ left available
      then ok remaining
      else or_throw (proportion b down remaining available left) division_by_zero

  -- the `map` that lowers both totals as it goes
  unfoldable pub allocate : Amount → Amount → List Share → Result ChannelFailure (List Share)
  allocate remaining left [] = ok []
  allocate remaining left (share ∷ shares) = do
    amount ← portion remaining left share.amount
    allocated ←
        allocate (minus_number_values b remaining (amount ∷ []))
          (minus_number_values b left (share.amount ∷ [])) shares
    ok (record { operation = share.operation; amount = amount } ∷ allocated)

  unfoldable pub refund_capture_allocations :
      List PaymentChannelOperation
      → List PaymentChannelOperation
      → Amount
      → Result ChannelFailure (List Share)
  refund_capture_allocations operations previous total = do
    let available = map (available_of previous) operations
    let remaining_available = add_number_values b (map (λ (s : Share). s.amount) available)
    throw_if
        (any (λ (s : Share). ltb_ℤ s.amount (pos 0)) available || ltb_ℤ remaining_available total)
        exceeds_capture
    allocated ← allocate total remaining_available available
    ok (filter (λ (s : Share). ltb_ℤ (pos 0) s.amount) allocated)
