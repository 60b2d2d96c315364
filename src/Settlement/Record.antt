-- ===== src/Settlement/Record.antt =====
-- The transaction of `saveRefundSettlementRecord`: it locks the row of the operation, and one that
-- throws leaves the tables as they were.
use postral_core.Prelude.{
  String, Bool, not, ◌&&◌, some, List, [], ◌∷◌, Result, ok, ◌>>=◌, ◌>>◌, throw_if, or_throw, find,
  any, update_where, includes, if◌then◌else◌,
}
use postral_core.Amount.{Amount, BigJs}
use postral_core.Entity.Status.{PaymentOperationStatus, operation_is_completed}
use postral_core.Entity.Operation.{RefundChannelPlan, PaymentChannelOperation, FeePayer}
use postral_core.Ledger.{AccountPaymentTransaction}
use postral_core.Settlement.{
  RefundSettlement, RefundAnswer, SettlementFailure, operation_not_found, invalid_settlement,
  cannot_regress, cannot_lose_lines, Settlements, has_operation_id, read_settlements,
  settlement_ids, settled_of, or_keep, NewIds, is_invalid, settle_line,
}

-- The columns that are set from the answer; `seller_pays` is the setting
-- `sellerPaysPaymentServiceFee`.
unfoldable pub settle_operation :
    Bool
    → RefundAnswer
    → PaymentOperationStatus
    → List String
    → PaymentChannelOperation
    → PaymentChannelOperation
settle_operation seller_pays answer status settled o = record o {
  operation_id = answer.payment_channel_operation_id;
  status = status;
  provider_fee = or_keep answer.provider_fee o.provider_fee;
  fee_cut_instantly = or_keep answer.fee_cut_instantly o.fee_cut_instantly;
  provider_fee_debit_from = if seller_pays then FeePayer.seller else FeePayer.platform;
  settled_refund_item_ids = some settled;
}

-- Some line that was settled is not reported again.
abbrev pub loses_lines : List RefundSettlement → List String → Bool
loses_lines settlements = any (λ id. not (includes (settlement_ids settlements) id))

module _ (b : BigJs Amount) (amount_of : String → Amount) (new_ids : NewIds) where
  unfoldable pub settle_lines :
      Settlements
      → String
      → PaymentChannelOperation
      → RefundChannelPlan
      → List AccountPaymentTransaction × List String
      → List RefundSettlement
      → Result SettlementFailure (List AccountPaymentTransaction × List String)
  settle_lines s payment_id o plan so_far [] = ok so_far
  settle_lines s payment_id o plan so_far (l ∷ ls) = do
    next ← settle_line b amount_of new_ids s payment_id o plan so_far l
    settle_lines s payment_id o plan next ls

  -- What the transaction does with the row that it has locked.
  unfoldable pub settle_found :
      Bool
      → RefundAnswer
      → String
      → Settlements
      → PaymentChannelOperation
      → Result SettlementFailure Settlements
  settle_found seller_pays answer payment_id s o = do
    plan ← or_throw o.refund_plan invalid_settlement
    settlements ← or_throw (read_settlements answer.refund_settlements) invalid_settlement
    status ← or_throw answer.payment_status invalid_settlement
    throw_if (is_invalid b amount_of new_ids o answer payment_id plan settlements status)
        invalid_settlement
    throw_if (operation_is_completed o.status && not (operation_is_completed status)) cannot_regress
    throw_if (loses_lines settlements (settled_of o)) cannot_lose_lines
    (rows, settled) ← settle_lines s payment_id o plan (s.transactions, settled_of o) settlements
    ok (record s {
      operations =
          update_where (has_operation_id o.id) (settle_operation seller_pays answer status settled)
            s.operations;
      transactions = rows;
    })

  unfoldable pub save_refund_settlement_record :
      Bool → RefundAnswer → String → String → Settlements → Result SettlementFailure Settlements
  save_refund_settlement_record seller_pays answer payment_id id s = do
    o ← or_throw (find (has_operation_id id) s.operations) operation_not_found
    settle_found seller_pays answer payment_id s o
