-- ===== src/Settlement/Balance.antt =====
-- The rounding of a refund credits as much as it debits.
use postral_core.Prelude.{
  ◌≡◌, sym, ap, ◌∙◌, inl, inr, String, Bool, List, [], ◌∷◌, ◌++◌, map, ok, >>=-returned,
  ok-injective, pos, ◌+ℤ◌, ◌-ℤ◌, int_laws, sum, ltb_ℤ, Bool-cases, if◌then◌else◌,
}
use postral_core.Amount.{Amount, BigJs}
use postral_core.Entity.Operation.{RefundChannelPlan, PaymentChannelOperation}
use postral_core.Ledger.{TransactionType, same_type, AccountPaymentTransaction}
use postral_core.Settlement.{
  RefundSettlement, RefundAnswer, Settlements, NewIds, rounding_entry, rounding_entries,
  settle_line,
}
use postral_core.Settlement.Record.{settle_lines, save_refund_settlement_record}
use postral_core.Settlement.Inversion.{
  save_refund_settlement_record-Saved, round_line-ok, settle_line-ok,
}

-- The amounts of the rows of one type.
abbrev posted : TransactionType → List AccountPaymentTransaction → Amount
posted type rows = sum (
    map (λ (r : AccountPaymentTransaction). if same_type r.type type then r.amount else pos 0) rows)

-- What the rows credit, less what they debit.
abbrev pub balance : List AccountPaymentTransaction → Amount
balance rows = posted TransactionType.credit rows -ℤ posted TransactionType.debit rows

posted-append :
    (type : TransactionType) (rows new : List AccountPaymentTransaction)
    → posted type (rows ++ new) ≡ posted type rows +ℤ posted type new
posted-append type [] new = omega int_laws
posted-append type (r ∷ rows) new = rw (posted-append type rows new) (omega int_laws)

rounding_entries-posted :
    (new_ids : NewIds) (item payment_id operation_id customer platform : String) (n : Amount)
    → posted TransactionType.credit
        (rounding_entries new_ids item payment_id operation_id customer platform n)
      ≡ posted TransactionType.debit
          (rounding_entries new_ids item payment_id operation_id customer platform n)
unfolding rounding_entries rounding_entry
rounding_entries-posted new_ids item payment_id operation_id customer platform n =
    elim (Bool-cases (ltb_ℤ (pos 0) n)) [
      | inl gain ↦ rw gain (omega int_laws)
      | inr loss ↦ rw loss (omega int_laws)
    ]

balance-rounded :
    (rows new : List AccountPaymentTransaction)
    → posted TransactionType.credit new ≡ posted TransactionType.debit new
    → balance (rows ++ new) ≡ balance rows
balance-rounded rows new h =
    rw
      (
        posted-append TransactionType.credit rows new,
        posted-append TransactionType.debit rows new,
        h,
      )
      (omega int_laws)

module _ (b : BigJs Amount) (amount_of : String → Amount) (new_ids : NewIds) where
  settle_line-balance :
      (s : Settlements) (payment_id : String) (o : PaymentChannelOperation)
      (plan : RefundChannelPlan) (rows : List AccountPaymentTransaction) (settled : List String)
      (l : RefundSettlement) {rows' : List AccountPaymentTransaction} {settled' : List String}
      → settle_line b amount_of new_ids s payment_id o plan (rows, settled) l ≡ ok (rows', settled')
      → balance rows' ≡ balance rows
  settle_line-balance s payment_id o plan rows settled l h =
      elim (settle_line-ok b amount_of new_ids s payment_id o plan rows settled l h) [
        | inl (same, _, _) ↦ ap balance same
        | inr (line, rounded, _, _) ↦
            elim (round_line-ok b amount_of new_ids s payment_id o plan line rows rounded) [
              | inl same ↦ ap balance same
              | inr (customer, platform, new) ↦
                  ap balance new
                  ∙ balance-rounded rows _ (
                      rounding_entries-posted new_ids line.original_payment_item_id payment_id o.id
                        customer platform _)
            ]
      ]

  settle_lines-balance :
      (s : Settlements) (payment_id : String) (o : PaymentChannelOperation)
      (plan : RefundChannelPlan) (rows : List AccountPaymentTransaction) (settled : List String)
      (ls : List RefundSettlement) {rows' : List AccountPaymentTransaction} {settled' : List String}
      → settle_lines b amount_of new_ids s payment_id o plan (rows, settled) ls
        ≡ ok (rows', settled')
      → balance rows' ≡ balance rows
  unfolding settle_lines
  settle_lines-balance s payment_id o plan rows settled [] h =
      sym (ap (λ x. balance x.0) (ok-injective h))
  settle_lines-balance s payment_id o plan rows settled (l ∷ ls) h =
      let ((rows1, settled1), first, rest) =
        >>=-returned (settle_line b amount_of new_ids s payment_id o plan (rows, settled) l) _ h in
      settle_lines-balance s payment_id o plan rows1 settled1 ls rest
      ∙ settle_line-balance s payment_id o plan rows settled l first

  -- A settlement that is saved leaves the difference of all credits and all debits as it was.
  pub save_refund_settlement_record-balance :
      (seller_pays : Bool) (answer : RefundAnswer) (payment_id id : String) (s : Settlements)
      {s' : Settlements}
      → save_refund_settlement_record b amount_of new_ids seller_pays answer payment_id id s ≡ ok s'
      → balance s'.transactions ≡ balance s.transactions
  save_refund_settlement_record-balance seller_pays answer payment_id id s h =
      let saved =
        save_refund_settlement_record-Saved b amount_of new_ids seller_pays answer payment_id id s
          h in
      ap (λ (t : Settlements). balance t.transactions) saved.result
      ∙ settle_lines-balance s payment_id saved.row saved.plan s.transactions _ saved.settlements
          saved.looped
