-- ===== src/Settlement/Again.antt =====
-- A settlement that is reported a second time changes nothing.
use postral_core.Prelude.{
  ◌≡◌, refl, sym, ap, ◌∙◌, String, Bool, false, not, >>=-ok, ◌&&◌, ◌||◌, some, List, ok, throw_if,
  or_throw, includes, str_eq_refl, find, find_updated, update_where, update_where-twice, ||-true,
  if◌then◌else◌,
}
use mathlib.Core.Path.{subst}
use postral_core.Amount.{Amount, BigJs}
use postral_core.Entity.Status.{PaymentOperationStatus, operation_is_completed}
use postral_core.Entity.Operation.{RefundChannelPlan, PaymentChannelOperation}
use postral_core.Ledger.{AccountPaymentTransaction}
use postral_core.Settlement.{
  RefundSettlement, RefundAnswer, operation_not_found, invalid_settlement, cannot_regress,
  cannot_lose_lines, read_settlements, is_invalid, Settlements, has_operation_id, settled_of,
  NewIds,
}
use postral_core.Settlement.Record.{
  settle_operation, loses_lines, settle_lines, settle_found, save_refund_settlement_record,
}
use postral_core.Settlement.Inversion.{Saved, save_refund_settlement_record-Saved}
use postral_core.Settlement.Grow.{settle_lines-includes}
use postral_core.Settlement.Reported.{
  settle_operation-twice, excludes_itself, is_invalid-settled, settle_lines-reported,
  settle_lines-again,
}

module _ (b : BigJs Amount) (amount_of : String → Amount) (new_ids : NewIds) where
  -- The transaction returns when its reads and checks pass.
  settle_found-ok :
      (seller_pays : Bool) (answer : RefundAnswer) (payment_id : String) (s : Settlements)
      (o : PaymentChannelOperation) {plan : RefundChannelPlan} {settlements : List RefundSettlement}
      {status : PaymentOperationStatus} {rows : List AccountPaymentTransaction}
      {settled : List String}
      → o.refund_plan ≡ some plan
      → read_settlements answer.refund_settlements ≡ some settlements
      → answer.payment_status ≡ some status
      → is_invalid b amount_of new_ids o answer payment_id plan settlements status ≡ false
      → (operation_is_completed o.status && not (operation_is_completed status)) ≡ false
      → loses_lines settlements (settled_of o) ≡ false
      → settle_lines b amount_of new_ids s payment_id o plan
          (s.transactions, settled_of o)
          settlements
        ≡ ok (rows, settled)
      → settle_found b amount_of new_ids seller_pays answer payment_id s o
        ≡ ok (record s {
          operations =
              update_where
                (has_operation_id o.id)
                (settle_operation seller_pays answer status settled)
                s.operations;
          transactions = rows;
        })
  unfolding settle_found
  settle_found-ok seller_pays answer payment_id s o h0 h1 h2 h3 h4 h5 h6 =
      >>=-ok _ _ (ap (λ x. or_throw x invalid_settlement) h0) (
        >>=-ok _ _ (ap (λ x. or_throw x invalid_settlement) h1) (
          >>=-ok _ _ (ap (λ x. or_throw x invalid_settlement) h2) (
            >>=-ok _ _ (ap (λ x. throw_if x invalid_settlement) h3) (
              >>=-ok _ _ (ap (λ x. throw_if x cannot_regress) h4)
                (>>=-ok _ _ (ap (λ x. throw_if x cannot_lose_lines) h5) (>>=-ok _ _ h6 refl))))))

  settle_found-again :
      (seller_pays : Bool) (answer : RefundAnswer) (payment_id id : String) (s s' : Settlements)
      (saved : Saved b amount_of new_ids seller_pays answer payment_id id s s') (s1 : Settlements)
      → s1.transactions ≡ saved.rows
      → settle_found b amount_of new_ids seller_pays answer payment_id s1
          (settle_operation seller_pays answer saved.status saved.settled saved.row)
        ≡ ok (record s1 {
          operations =
              update_where
                (has_operation_id saved.row.id)
                (settle_operation seller_pays answer saved.status saved.settled)
                s1.operations;
          transactions = saved.rows;
        })
  unfolding settle_operation
  settle_found-again seller_pays answer payment_id id s s' saved s1 same =
      let o = settle_operation seller_pays answer saved.status saved.settled saved.row in
      let keeps =
        settle_lines-reported b amount_of new_ids s payment_id saved.row saved.plan s.transactions
          (settled_of saved.row) saved.settlements saved.settlements saved.looped (λ id k. k)
          saved.keeps in
      settle_found-ok seller_pays answer payment_id s1 o saved.planned saved.reported saved.known
        (is_invalid-settled b amount_of new_ids seller_pays answer payment_id saved.plan
          saved.settlements saved.status saved.settled saved.row saved.valid)
        (excludes_itself (operation_is_completed saved.status)) keeps
        (ap
            (λ rows.
              settle_lines b amount_of new_ids s1 payment_id o saved.plan (rows, saved.settled)
                saved.settlements)
            same
          ∙ settle_lines-again b amount_of new_ids s s1 payment_id saved.row o saved.plan
              s.transactions (settled_of saved.row) saved.rows saved.settled saved.settlements
              saved.looped
              (λ item k.
                settle_lines-includes b amount_of new_ids s payment_id saved.row saved.plan
                  s.transactions (settled_of saved.row) saved.settlements item saved.looped
                ∙ ap (λ t. includes (settled_of saved.row) item || t) k
                ∙ ||-true _))

  -- If a settlement was saved, then saving the same answer again succeeds and leaves all tables as
  -- they are: no line is rounded twice.
  pub save_refund_settlement_record-again :
      (seller_pays : Bool) (answer : RefundAnswer) (payment_id id : String) (s : Settlements)
      {s' : Settlements}
      → save_refund_settlement_record b amount_of new_ids seller_pays answer payment_id id s ≡ ok s'
      → save_refund_settlement_record b amount_of new_ids seller_pays answer payment_id id s'
        ≡ ok s'
  unfolding save_refund_settlement_record settle_operation
  save_refund_settlement_record-again seller_pays answer payment_id id s {s'} h =
      let saved =
        save_refund_settlement_record-Saved b amount_of new_ids seller_pays answer payment_id id s
          h in
      let f = settle_operation seller_pays answer saved.status saved.settled in
      let operations = update_where (has_operation_id saved.row.id) f s.operations in
      let read : find (has_operation_id id) operations ≡ some (f saved.row) =
        find_updated (λ (o : PaymentChannelOperation). o.id) (has_operation_id saved.row.id) f
          (λ o. refl) id s.operations saved.found
        ∙ ap (λ t. some (if t then f saved.row else saved.row)) (str_eq_refl saved.row.id) in
      let s1 : Settlements = record s { operations = operations; transactions = saved.rows } in
      let again : save_refund_settlement_record b amount_of new_ids seller_pays answer payment_id id
            s1
          ≡ ok s1 =
        >>=-ok _ _ (ap (λ o. or_throw o operation_not_found) read) (
          settle_found-again seller_pays answer payment_id id s s' saved s1 refl
          ∙ ap (λ ops. ok (record s1 { operations = ops }))
              (update_where-twice (has_operation_id saved.row.id) f (λ o. refl)
                (settle_operation-twice seller_pays answer saved.status saved.settled)
                s.operations)) in
      subst
        (λ t.
          save_refund_settlement_record b amount_of new_ids seller_pays answer payment_id id t
          ≡ ok t)
        (sym saved.result) again
