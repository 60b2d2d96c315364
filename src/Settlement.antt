-- ===== src/Settlement.antt =====
-- `saveRefundSettlementRecord` of
-- libs/payment-core-webservice/src/service/payment-operation-management.service.ts: what a channel
-- reports of a refund that carries a plan. Names and descriptions of accounts are left out.
pub mod Record
pub mod Inversion
pub mod Balance
pub mod Grow
pub mod Reported
pub mod Again
mod Tests
use postral_core.Prelude.{
  ℕ, String, Bool, true, false, not, ◌&&◌, ◌||◌, Option, none, some, List, [], ◌∷◌, ◌++◌, map,
  Result, ok, err, ◌>>=◌, ◌>>◌, throw_if, or_throw, find, any, all, length, update_where, includes,
  str_eq, opt_eq, is_empty, if◌then◌else◌, ◌==◌, pos, eqb_ℤ, ltb_ℤ, abs_ℤ,
}
use postral_core.Amount.{Amount, BigJs, add_number_values, minus_number_values}
use postral_core.Entity.Status.{
  PaymentStatus, PaymentOperationStatus, is_purchase, operation_is_completed, operation_is_failed,
}
use postral_core.Entity.Payment.{Payment}
use postral_core.Entity.Operation.{
  RefundChannelLine, RefundChannelPlan, PaymentChannelOperation, FeePayer,
}
use postral_core.Ledger.{TransactionType, AccountPaymentTransaction}

-- `RefundSettlement`
pub record RefundSettlement : Type 0 where
  pub original_payment_item_id : String
  pub provider_amount : String

-- What a channel answers. `none` stands for an answer that is missing or malformed: a list or a line
-- of settlements of another type, or a status of none of the four names.
pub record RefundAnswer : Type 0 where
  pub payment_channel_id : String
  pub payment_channel_operation_id : Option String
  pub payment_status : Option PaymentOperationStatus
  pub refund_settlements : Option (List (Option RefundSettlement))
  pub provider_fee : Option Amount
  pub fee_cut_instantly : Option Bool

pub data SettlementFailure : Type 0 where
  operation_not_found invalid_settlement cannot_regress cannot_lose_lines : SettlementFailure
  line_mismatch rounding_account_missing payment_not_found invalid_counterparties :
      SettlementFailure
  rounding_account_not_found : SettlementFailure

-- The tables that the transaction reads and writes.
pub record Settlements : Type 0 where
  pub operations : List PaymentChannelOperation
  pub transactions : List AccountPaymentTransaction
  pub payments : List Payment
  pub accounts : List String

abbrev pub has_operation_id : String → PaymentChannelOperation → Bool
has_operation_id id o = str_eq o.id id

-- A set of the IDs is smaller than their list.
abbrev pub has_repeats : List String → Bool
has_repeats [] = false
has_repeats (id ∷ ids) = includes ids id || has_repeats ids

abbrev all_lines : List (Option RefundSettlement) → Option (List RefundSettlement)
all_lines [] = some []
all_lines (none ∷ lines) = none
all_lines (some line ∷ lines) = with_rest line (all_lines lines)
  where
    with_rest : RefundSettlement → Option (List RefundSettlement) → Option (List RefundSettlement)
    with_rest line none = none
    with_rest line (some lines) = some (line ∷ lines)

abbrev pub read_settlements :
    Option (List (Option RefundSettlement)) → Option (List RefundSettlement)
read_settlements none = none
read_settlements (some lines) = all_lines lines

abbrev pub settlement_ids : List RefundSettlement → List String
settlement_ids = map (λ (l : RefundSettlement). l.original_payment_item_id)

abbrev pub settled_of : PaymentChannelOperation → List String
settled_of o = ids_of o.settled_refund_item_ids
  where
    ids_of : Option (List String) → List String
    ids_of none = []
    ids_of (some ids) = ids

abbrev pub or_keep : {A : Type 0} → Option A → A → A
or_keep none x = x
or_keep (some y) x = y

-- The IDs that one line takes when it is rounded: the correlation and the two rows.
abbrev pub NewIds : Type 0
NewIds = String → String × String × String

unfoldable pub rounding_entry :
    String
    → String
    → String
    → String
    → TransactionType
    → Amount
    → String
    → AccountPaymentTransaction
rounding_entry id correlation payment_id account type amount operation_id = record {
  id = id;
  corelation_id = correlation;
  account_id = account;
  payment_id = payment_id;
  payment_seller_order_id = none;
  rounding_operation_id = some operation_id;
  type = type;
  status = PaymentStatus.completed;
  amount = amount;
  tax_amount = pos 0;
}

-- The two entries of a difference: the customer's, then the platform's.
unfoldable pub rounding_entries :
    NewIds → String → String → String → String → String → Amount → List AccountPaymentTransaction
rounding_entries new_ids item payment_id operation_id customer platform difference =
    let (correlation, first, second) = new_ids item in
    let gain = ltb_ℤ (pos 0) difference in
    rounding_entry first correlation payment_id customer
      (if gain then TransactionType.credit else TransactionType.debit) (abs_ℤ difference)
      operation_id
    ∷ rounding_entry second correlation payment_id platform
        (if gain then TransactionType.debit else TransactionType.credit) (abs_ℤ difference)
        operation_id
    ∷ []

-- `amount_of` is the number that big.js reads in a decimal text.
module _ (b : BigJs Amount) (amount_of : String → Amount) (new_ids : NewIds) where
  unfoldable pub plan_total : RefundChannelPlan → Amount
  plan_total plan =
      add_number_values b (map (λ (l : RefundChannelLine). amount_of l.nominal_amount) plan.lines)

  -- the first check, on everything the channel answers
  unfoldable pub is_invalid :
      PaymentChannelOperation
      → RefundAnswer
      → String
      → RefundChannelPlan
      → List RefundSettlement
      → PaymentOperationStatus
      → Bool
  is_invalid o answer payment_id plan settlements status =
      is_purchase o.operation_type
      || not (str_eq answer.payment_channel_id o.payment_channel_id)
      || is_empty answer.payment_channel_operation_id
      || (not (is_empty o.operation_id)
          && not (opt_eq answer.payment_channel_operation_id o.operation_id))
      || not (str_eq o.payment_id payment_id)
      || has_repeats (settlement_ids settlements)
      || not (eqb_ℤ (plan_total plan) o.amount)
      || (operation_is_completed status && not (length settlements == length plan.lines))
      || (operation_is_failed status && not (length settlements == 0))

  abbrev pub difference_of : RefundChannelLine → Amount
  difference_of line =
      minus_number_values b (amount_of line.provider_amount) (amount_of line.nominal_amount ∷ [])

  unfoldable pub round_line :
      Settlements
      → String
      → PaymentChannelOperation
      → RefundChannelPlan
      → RefundChannelLine
      → List AccountPaymentTransaction
      → Result SettlementFailure (List AccountPaymentTransaction)
  round_line s payment_id o plan line rows =
      if eqb_ℤ (difference_of line) (pos 0) then ok rows else (do
        throw_if (is_empty plan.rounding_account_id) rounding_account_missing
        platform ← or_throw plan.rounding_account_id rounding_account_missing
        p ← or_throw (find (λ (p : Payment). str_eq p.id payment_id) s.payments) payment_not_found
        throw_if (is_empty p.customer_account_id || opt_eq p.customer_account_id (some platform))
            invalid_counterparties
        customer ← or_throw p.customer_account_id invalid_counterparties
        throw_if (not (includes s.accounts customer)) rounding_account_not_found
        throw_if (not (includes s.accounts platform)) rounding_account_not_found
        ok (
            rows
            ++ rounding_entries new_ids line.original_payment_item_id payment_id o.id customer
                platform (difference_of line)))

  -- One step of the loop, from the rows and the settled lines so far.
  unfoldable pub settle_line :
      Settlements
      → String
      → PaymentChannelOperation
      → RefundChannelPlan
      → List AccountPaymentTransaction × List String
      → RefundSettlement
      → Result SettlementFailure (List AccountPaymentTransaction × List String)
  settle_line s payment_id o plan (rows, settled) settlement = do
    line ←
        or_throw
          (find
            (λ (l : RefundChannelLine).
              str_eq l.original_payment_item_id settlement.original_payment_item_id)
            plan.lines)
          line_mismatch
    throw_if (not (str_eq settlement.provider_amount line.provider_amount)) line_mismatch
    if includes settled line.original_payment_item_id then ok (rows, settled) else (do
      rows' ← round_line s payment_id o plan line rows
      ok (rows', settled ++ (line.original_payment_item_id ∷ [])))
