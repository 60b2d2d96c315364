-- ===== src/Settlement/Grow.antt =====
-- The settled lines of an operation only grow, and a completed operation stays completed.
use postral_core.Prelude.{
  ◌≡◌, refl, sym, ap, ◌∙◌, inl, inr, String, Bool, true, false, not, ◌&&◌, ◌||◌, some, List, [],
  ◌∷◌, ◌++◌, ok, >>=-returned, ok-injective, includes, str_eq, find, ||-assoc, ||-true, ||-false,
  str_eq→eq, find_updated, find_key, Bool-cases,
}
use mathlib.Core.Option.{some-injective}
use postral_core.Amount.{Amount, BigJs}
use postral_core.Entity.Status.{operation_is_completed}
use postral_core.Entity.Operation.{RefundChannelPlan, PaymentChannelOperation}
use postral_core.Ledger.{AccountPaymentTransaction}
use postral_core.Settlement.{
  RefundSettlement, RefundAnswer, Settlements, NewIds, settle_line, settlement_ids, settled_of,
  has_operation_id,
}
use postral_core.Settlement.Record.{settle_operation, settle_lines, save_refund_settlement_record}
use postral_core.Settlement.Inversion.{save_refund_settlement_record-Saved, settle_line-ok}

includes-append :
    (xs ys : List String) (k : String) → includes (xs ++ ys) k ≡ (includes xs k || includes ys k)
includes-append [] ys k = refl
includes-append (x ∷ xs) ys k = rw (includes-append xs ys k) (||-assoc (str_eq x k) _ _)

includes-again :
    (ids : List String) (id k : String)
    → includes ids id ≡ true
    → (includes ids k || str_eq id k) ≡ includes ids k
includes-again ids id k h = elim (Bool-cases (str_eq id k)) [
  | inl same ↦
      rw same (||-true (includes ids k) ∙ sym (ap (includes ids) (sym (str_eq→eq id k same)) ∙ h))
  | inr other ↦ rw other (||-false (includes ids k))
]

module _ (b : BigJs Amount) (amount_of : String → Amount) (new_ids : NewIds) where
  settle_line-includes :
      (s : Settlements) (payment_id : String) (o : PaymentChannelOperation)
      (plan : RefundChannelPlan) (rows : List AccountPaymentTransaction) (settled : List String)
      (l : RefundSettlement) {rows' : List AccountPaymentTransaction} {settled' : List String}
      (k : String)
      → settle_line b amount_of new_ids s payment_id o plan (rows, settled) l ≡ ok (rows', settled')
      → includes settled' k ≡ (includes settled k || str_eq l.original_payment_item_id k)
  settle_line-includes s payment_id o plan rows settled l k h =
      elim (settle_line-ok b amount_of new_ids s payment_id o plan rows settled l h) [
        | inl (_, same, done) ↦
            ap (λ ids. includes ids k) same
            ∙ sym (includes-again settled l.original_payment_item_id k done)
        | inr (line, _, same, _) ↦
            ap (λ ids. includes ids k) same
            ∙ includes-append settled (l.original_payment_item_id ∷ []) k
            ∙ ap (λ t. includes settled k || t) (||-false (str_eq l.original_payment_item_id k))
      ]

  -- The lines that are settled after the loop: those before it, and those that were reported.
  pub settle_lines-includes :
      (s : Settlements) (payment_id : String) (o : PaymentChannelOperation)
      (plan : RefundChannelPlan) (rows : List AccountPaymentTransaction) (settled : List String)
      (ls : List RefundSettlement) {rows' : List AccountPaymentTransaction} {settled' : List String}
      (k : String)
      → settle_lines b amount_of new_ids s payment_id o plan (rows, settled) ls
        ≡ ok (rows', settled')
      → includes settled' k ≡ (includes settled k || includes (settlement_ids ls) k)
  unfolding settle_lines
  settle_lines-includes s payment_id o plan rows settled [] k h =
      sym (ap (λ x. includes x.1 k) (ok-injective h)) ∙ sym (||-false (includes settled k))
  settle_lines-includes s payment_id o plan rows settled (l ∷ ls) k h =
      let ((rows1, settled1), first, rest) =
        >>=-returned (settle_line b amount_of new_ids s payment_id o plan (rows, settled) l) _ h in
      settle_lines-includes s payment_id o plan rows1 settled1 ls k rest
      ∙ ap (λ t. t || includes (settlement_ids ls) k)
          (settle_line-includes s payment_id o plan rows settled l k first)
      ∙ sym (||-assoc (includes settled k) (str_eq l.original_payment_item_id k) _)

-- The later row of an operation has settled what the earlier one has, and is completed if that is.
abbrev pub Follows : PaymentChannelOperation → PaymentChannelOperation → Type 0
Follows o o' =
    (operation_is_completed o.status ≡ true → operation_is_completed o'.status ≡ true)
    × ((item : String) → includes (settled_of o) item ≡ true → includes (settled_of o') item ≡ true)

||-left : (s t : Bool) → s ≡ true → (s || t) ≡ true
||-left s t h = rw h

advanced : (s t : Bool) → (s && not t) ≡ false → s ≡ true → t ≡ true
advanced true true h k = refl
advanced true false h k = sym h
advanced false t h k = cc

module _ (b : BigJs Amount) (amount_of : String → Amount) (new_ids : NewIds) where
  save_refund_settlement_record-Follows :
      (seller_pays : Bool) (answer : RefundAnswer) (payment_id id : String) (s : Settlements)
      {s' : Settlements} (k : String) {o : PaymentChannelOperation}
      → save_refund_settlement_record b amount_of new_ids seller_pays answer payment_id id s ≡ ok s'
      → find (has_operation_id k) s.operations ≡ some o
      → (o' : PaymentChannelOperation) × (find (has_operation_id k) s'.operations ≡ some o')
        × Follows o o'
  unfolding settle_operation
  save_refund_settlement_record-Follows seller_pays answer payment_id id s k {o} h found =
      let saved =
        save_refund_settlement_record-Saved b amount_of new_ids seller_pays answer payment_id id s
          h in
      let f = settle_operation seller_pays answer saved.status saved.settled in
      let after =
        ap (λ (t : Settlements). find (has_operation_id k) t.operations) saved.result
        ∙ find_updated (λ (o : PaymentChannelOperation). o.id) (has_operation_id saved.row.id) f
            (λ o. refl) k s.operations found in
      elim (Bool-cases (has_operation_id saved.row.id o)) [
        | inl same ↦
            let id_of_row =
              find_key (λ (o : PaymentChannelOperation). o.id) id s.operations saved.found in
            let id_of_o = find_key (λ (o : PaymentChannelOperation). o.id) k s.operations found in
            let k_lem = sym id_of_o ∙ str_eq→eq o.id saved.row.id same ∙ id_of_row in
            let row_lem : o ≡ saved.row =
              some-injective _ _ (
                sym found ∙ ap (λ j. find (has_operation_id j) s.operations) k_lem ∙ saved.found) in
            (
              f o,
              rw same at after,
              (
                λ c.
                    advanced (operation_is_completed saved.row.status)
                      (operation_is_completed saved.status) saved.advances
                      (ap (λ (r : PaymentChannelOperation). operation_is_completed r.status)
                          (sym row_lem)
                        ∙ c),
                λ item c.
                    settle_lines-includes b amount_of new_ids s payment_id saved.row saved.plan
                      s.transactions (settled_of saved.row) saved.settlements item saved.looped
                    ∙ ||-left (includes (settled_of saved.row) item) _
                        (ap (λ r. includes (settled_of r) item) (sym row_lem) ∙ c),
              ),
            )
        | inr other ↦ (o, rw other at after, (λ c. c, λ item c. c))
      ]

  -- Settlements that are saved one after the other, of any operations and with any answers.
  pub data Steps (s : Settlements) : Settlements → Type 0 where
    none_yet : Steps s s
    saved_next :
        {s' s'' : Settlements} (seller_pays : Bool) (answer : RefundAnswer) (payment_id id : String)
        → Steps s s'
        → save_refund_settlement_record b amount_of new_ids seller_pays answer payment_id id s'
          ≡ ok s''
        → Steps s s''

  -- After any settlements, the row of each operation is still there; if it was completed, it is; and
  -- what it had settled, it has.
  pub Steps-Follows :
      (s s' : Settlements) (k : String) {o : PaymentChannelOperation}
      → Steps s s'
      → find (has_operation_id k) s.operations ≡ some o
      → (o' : PaymentChannelOperation) × (find (has_operation_id k) s'.operations ≡ some o')
        × Follows o o'
  Steps-Follows s s' k {o} none_yet found = (o, found, (λ c. c, λ item c. c))
  Steps-Follows s s' k {o} (saved_next seller_pays answer payment_id id before h) found =
      let (o1, found1, (completed1, settled1)) = Steps-Follows s _ k before found in
      let (o2, found2, (completed2, settled2)) =
        save_refund_settlement_record-Follows seller_pays answer payment_id id _ k h found1 in
      (o2, found2, (λ c. completed2 (completed1 c), λ item c. settled2 item (settled1 item c)))
