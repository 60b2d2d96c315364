-- ===== src/Settlement/Inversion.antt =====
-- What a settlement that was saved has read and computed, and what its loop over the lines does.
use postral_core.Prelude.{
  ◌≡◌, sym, ap, ◌∙◌, ◌⊎◌, inl, inr, String, Bool, true, false, not, ◌&&◌, ◌||◌, some, List, [], ◌∷◌,
  ◌++◌, ok, >>=-returned, throw_if, throw_if-ok, or_throw, or_throw-ok, find, includes,
  update_where, str_eq, is_empty, opt_eq, Bool-cases, ok-injective, eqb_ℤ, pos, find_key,
}
use postral_core.Amount.{Amount, BigJs}
use postral_core.Entity.Status.{PaymentOperationStatus, operation_is_completed}
use postral_core.Entity.Payment.{Payment}
use postral_core.Entity.Operation.{RefundChannelLine, RefundChannelPlan, PaymentChannelOperation}
use postral_core.Ledger.{AccountPaymentTransaction}
use postral_core.Settlement.{
  RefundSettlement, RefundAnswer, operation_not_found, invalid_settlement, cannot_regress,
  cannot_lose_lines, line_mismatch, rounding_account_missing, payment_not_found,
  invalid_counterparties, rounding_account_not_found, Settlements, has_operation_id,
  read_settlements, settled_of, NewIds, is_invalid, difference_of, rounding_entries, round_line,
  settle_line,
}
use postral_core.Settlement.Record.{
  settle_operation, loses_lines, settle_lines, settle_found, save_refund_settlement_record,
}

module _ (b : BigJs Amount) (amount_of : String → Amount) (new_ids : NewIds) where
  -- What a transaction that committed has read and computed.
  pub record Saved (seller_pays : Bool) (answer : RefundAnswer) (payment_id id : String)
      (s s' : Settlements) : Type 0 where
    pub row : PaymentChannelOperation
    pub found : find (has_operation_id id) s.operations ≡ some row
    pub plan : RefundChannelPlan
    pub planned : row.refund_plan ≡ some plan
    pub settlements : List RefundSettlement
    pub reported : read_settlements answer.refund_settlements ≡ some settlements
    pub status : PaymentOperationStatus
    pub known : answer.payment_status ≡ some status
    pub valid : is_invalid b amount_of new_ids row answer payment_id plan settlements status ≡ false
    pub advances :
        (operation_is_completed row.status && not (operation_is_completed status)) ≡ false
    pub keeps : loses_lines settlements (settled_of row) ≡ false
    pub rows : List AccountPaymentTransaction
    pub settled : List String
    pub looped :
        settle_lines b amount_of new_ids s payment_id row plan
          (s.transactions, settled_of row)
          settlements
        ≡ ok (rows, settled)
    pub result : s' ≡ record s {
      operations =
          update_where
            (has_operation_id row.id)
            (settle_operation seller_pays answer status settled)
            s.operations;
      transactions = rows;
    }

  pub save_refund_settlement_record-Saved :
      (seller_pays : Bool) (answer : RefundAnswer) (payment_id id : String) (s : Settlements)
      {s' : Settlements}
      → save_refund_settlement_record b amount_of new_ids seller_pays answer payment_id id s ≡ ok s'
      → Saved seller_pays answer payment_id id s s'
  unfolding save_refund_settlement_record settle_found
  save_refund_settlement_record-Saved seller_pays answer payment_id id s {s'} h =
      let (o, found, h0) =
        >>=-returned (or_throw (find (has_operation_id id) s.operations) operation_not_found) _ h in
      let (plan, planned, h1) = >>=-returned (or_throw o.refund_plan invalid_settlement) _ h0 in
      let (settlements, reported, h2) =
        >>=-returned (or_throw (read_settlements answer.refund_settlements) invalid_settlement) _
          h1 in
      let (status, known, h3) =
        >>=-returned (or_throw answer.payment_status invalid_settlement) _ h2 in
      let (_, valid, h4) =
        >>=-returned
          (throw_if (is_invalid b amount_of new_ids o answer payment_id plan settlements status)
            invalid_settlement)
          _ h3 in
      let (_, advances, h5) =
        >>=-returned
          (throw_if (operation_is_completed o.status && not (operation_is_completed status))
            cannot_regress)
          _ h4 in
      let (_, keeps, h6) =
        >>=-returned (throw_if (loses_lines settlements (settled_of o)) cannot_lose_lines) _ h5 in
      let ((rows, settled), looped, h7) =
        >>=-returned
          (settle_lines b amount_of new_ids s payment_id o plan (s.transactions, settled_of o)
            settlements)
          _ h6 in
      record {
        row = o;
        found = or_throw-ok _ operation_not_found found;
        plan = plan;
        planned = or_throw-ok _ invalid_settlement planned;
        settlements = settlements;
        reported = or_throw-ok _ invalid_settlement reported;
        status = status;
        known = or_throw-ok _ invalid_settlement known;
        valid = throw_if-ok _ invalid_settlement valid;
        advances = throw_if-ok _ cannot_regress advances;
        keeps = throw_if-ok _ cannot_lose_lines keeps;
        rows = rows;
        settled = settled;
        looped = looped;
        result = sym (ok-injective h7);
      }

  -- What one line that is settled adds: nothing, or the two entries of its difference.
  pub round_line-ok :
      (s : Settlements) (payment_id : String) (o : PaymentChannelOperation)
      (plan : RefundChannelPlan) (line : RefundChannelLine) (rows : List AccountPaymentTransaction)
      {rows' : List AccountPaymentTransaction}
      → round_line b amount_of new_ids s payment_id o plan line rows ≡ ok rows'
      → (rows' ≡ rows)
        ⊎ ((customer : String) × (platform : String) × (rows'
              ≡ rows
                ++ rounding_entries new_ids line.original_payment_item_id payment_id o.id customer
                    platform
                    (difference_of b amount_of new_ids line)))
  unfolding round_line
  round_line-ok s payment_id o plan line rows h =
      elim (Bool-cases (eqb_ℤ (difference_of b amount_of new_ids line) (pos 0))) [
        | inl same ↦ inl (sym (ok-injective (rw same at h)))
        | inr other ↦
            let (_, _, h0) =
              >>=-returned (throw_if (is_empty plan.rounding_account_id) rounding_account_missing) _
                (rw other at h) in
            let (platform, _, h1) =
              >>=-returned (or_throw plan.rounding_account_id rounding_account_missing) _ h0 in
            let (p, _, h2) =
              >>=-returned
                (or_throw (find (λ (p : Payment). str_eq p.id payment_id) s.payments)
                  payment_not_found)
                _ h1 in
            let (_, _, h3) =
              >>=-returned
                (throw_if
                  (is_empty p.customer_account_id || opt_eq p.customer_account_id (some platform))
                  invalid_counterparties)
                _ h2 in
            let (customer, _, h4) =
              >>=-returned (or_throw p.customer_account_id invalid_counterparties) _ h3 in
            let (_, _, h5) =
              >>=-returned
                (throw_if (not (includes s.accounts customer)) rounding_account_not_found) _ h4 in
            let (_, _, h6) =
              >>=-returned
                (throw_if (not (includes s.accounts platform)) rounding_account_not_found) _ h5 in
            inr (customer, platform, sym (ok-injective h6))
      ]

  -- A line that is settled already changes nothing; another one is rounded and then settled.
  pub settle_line-ok :
      (s : Settlements) (payment_id : String) (o : PaymentChannelOperation)
      (plan : RefundChannelPlan) (rows : List AccountPaymentTransaction) (settled : List String)
      (l : RefundSettlement) {rows' : List AccountPaymentTransaction} {settled' : List String}
      → settle_line b amount_of new_ids s payment_id o plan (rows, settled) l ≡ ok (rows', settled')
      → ((rows' ≡ rows)
          × (settled' ≡ settled)
          × (includes settled l.original_payment_item_id ≡ true))
        ⊎ ((line : RefundChannelLine) × (round_line b amount_of new_ids s payment_id o plan line
                rows
              ≡ ok rows')
            × (settled' ≡ settled ++ (l.original_payment_item_id ∷ []))
            × (includes settled l.original_payment_item_id ≡ false))
  unfolding settle_line
  settle_line-ok s payment_id o plan rows settled l h =
      let (line, looked, h0) =
        >>=-returned
          (or_throw
            (find
              (λ (k : RefundChannelLine).
                str_eq k.original_payment_item_id l.original_payment_item_id)
              plan.lines)
            line_mismatch)
          _ h in
      let (_, _, h1) =
        >>=-returned (throw_if (not (str_eq l.provider_amount line.provider_amount)) line_mismatch)
          _ h0 in
      let key : line.original_payment_item_id ≡ l.original_payment_item_id =
        find_key (λ (k : RefundChannelLine). k.original_payment_item_id) l.original_payment_item_id
          plan.lines (or_throw-ok _ line_mismatch looked) in
      elim (Bool-cases (includes settled line.original_payment_item_id)) [
        | inl done ↦
            let same = ok-injective (rw done at h1) in
            inl (
              sym (ap (λ x. x.0) same),
              sym (ap (λ x. x.1) same),
              ap (includes settled) (sym key) ∙ done,
            )
        | inr new ↦
            let (rows', rounded, h2) =
              >>=-returned (round_line b amount_of new_ids s payment_id o plan line rows) _
                (rw new at h1) in
            let same = ok-injective h2 in
            inr (
              line,
              rounded ∙ ap (λ x. ok (x.0)) same,
              sym (ap (λ x. x.1) same) ∙ ap (λ k. settled ++ (k ∷ [])) key,
              ap (includes settled) (sym key) ∙ new,
            )
      ]
