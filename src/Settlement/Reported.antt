-- ===== src/Settlement/Reported.antt =====
-- Lines that are reported again: they pass the checks, and the loop passes over them.
use postral_core.Prelude.{
  length, ◌==◌, eqb_ℤ, ◌≡◌, refl, sym, ap, ap₂, ◌∙◌, inl, inr, String, Bool, true, false, not, ◌&&◌,
  ◌||◌, Option, none, some, List, [], ◌∷◌, ok, >>=-returned, ok-injective, throw_if, or_throw,
  or_throw-ok, any-append, includes, str_eq, str_eq_refl, opt_eq, is_empty, find, find_key, ||-true,
  if◌then◌else◌,
}
use postral_core.Amount.{Amount, BigJs}
use postral_core.Entity.Status.{
  is_purchase, operation_is_failed, PaymentOperationStatus, operation_is_completed,
}
use postral_core.Entity.Operation.{
  RefundChannelLine, RefundChannelPlan, PaymentChannelOperation, FeePayer,
}
use postral_core.Ledger.{AccountPaymentTransaction}
use postral_core.Settlement.{
  RefundSettlement, RefundAnswer, line_mismatch, Settlements, settlement_ids, or_keep, NewIds,
  is_invalid, has_repeats, plan_total, settle_line,
}
use postral_core.Settlement.Record.{settle_operation, loses_lines, settle_lines}
use postral_core.Settlement.Inversion.{settle_line-ok}

or_keep-twice : {A : Type 0} (o : Option A) (x : A) → or_keep o (or_keep o x) ≡ or_keep o x
or_keep-twice none x = refl
or_keep-twice (some y) x = refl

pub settle_operation-twice :
    (seller_pays : Bool) (answer : RefundAnswer) (status : PaymentOperationStatus)
    (settled : List String) (o : PaymentChannelOperation)
    → settle_operation seller_pays answer status settled
        (settle_operation seller_pays answer status settled o)
      ≡ settle_operation seller_pays answer status settled o
unfolding settle_operation
settle_operation-twice seller_pays answer status settled o =
    ap₂
      (λ (fee : Amount) (cut : Bool). record o {
        operation_id = answer.payment_channel_operation_id;
        status = status;
        provider_fee = fee;
        fee_cut_instantly = cut;
        provider_fee_debit_from = if seller_pays then FeePayer.seller else FeePayer.platform;
        settled_refund_item_ids = some settled;
      })
      (or_keep-twice answer.provider_fee o.provider_fee)
      (or_keep-twice answer.fee_cut_instantly o.fee_cut_instantly)

opt_eq_refl : (o : Option String) → opt_eq o o ≡ true
opt_eq_refl none = refl
opt_eq_refl (some s) = str_eq_refl s

-- One of the tests is another one.
other_test :
    (a b c d d' e f g m n : Bool)
    → (a || b || c || d || e || f || g || m || n) ≡ false
    → d' ≡ false
    → (a || b || c || d' || e || f || g || m || n) ≡ false
other_test true b c d d' e f g m n h k = h
other_test false true c d d' e f g m n h k = h
other_test false false true d d' e f g m n h k = h
other_test false false false true d' e f g m n h k = cc
other_test false false false false d' e f g m n h k = rw k h

pub excludes_itself : (t : Bool) → (t && not t) ≡ false
excludes_itself true = refl
excludes_itself false = refl

falls : (s t : Bool) → t ≡ true → (s && not t) ≡ false
falls true t h = rw h
falls false t h = refl

module _ (b : BigJs Amount) (amount_of : String → Amount) (new_ids : NewIds) where
  -- The checks on the channel pass again: only the channel's own ID has changed.
  pub is_invalid-settled :
      (seller_pays : Bool) (answer : RefundAnswer) (payment_id : String) (plan : RefundChannelPlan)
      (settlements : List RefundSettlement) (status : PaymentOperationStatus)
      (settled : List String) (o : PaymentChannelOperation)
      → is_invalid b amount_of new_ids o answer payment_id plan settlements status ≡ false
      → is_invalid b amount_of new_ids
          (settle_operation seller_pays answer status settled o)
          answer
          payment_id
          plan
          settlements
          status
        ≡ false
  unfolding is_invalid settle_operation
  is_invalid-settled seller_pays answer payment_id plan settlements status settled o h =
      other_test (is_purchase o.operation_type)
        (not (str_eq answer.payment_channel_id o.payment_channel_id))
        (is_empty answer.payment_channel_operation_id)
        (not (is_empty o.operation_id)
          && not (opt_eq answer.payment_channel_operation_id o.operation_id))
        (not (is_empty answer.payment_channel_operation_id)
          && not (opt_eq answer.payment_channel_operation_id answer.payment_channel_operation_id))
        (not (str_eq o.payment_id payment_id)) (has_repeats (settlement_ids settlements))
        (not (eqb_ℤ (plan_total b amount_of new_ids plan) o.amount))
        (operation_is_completed status && not (length settlements == length plan.lines))
        (operation_is_failed status && not (length settlements == 0)) h
        (falls (not (is_empty answer.payment_channel_operation_id)) _
          (opt_eq_refl answer.payment_channel_operation_id))

  -- What is settled was reported.
  settle_line-reported :
      (s : Settlements) (payment_id : String) (o : PaymentChannelOperation)
      (plan : RefundChannelPlan) (rows : List AccountPaymentTransaction) (settled : List String)
      (l : RefundSettlement) (settlements : List RefundSettlement)
      {rows' : List AccountPaymentTransaction} {settled' : List String}
      → settle_line b amount_of new_ids s payment_id o plan (rows, settled) l ≡ ok (rows', settled')
      → includes (settlement_ids settlements) l.original_payment_item_id ≡ true
      → loses_lines settlements settled ≡ false
      → loses_lines settlements settled' ≡ false
  settle_line-reported s payment_id o plan rows settled l settlements h reported keeps =
      elim (settle_line-ok b amount_of new_ids s payment_id o plan rows settled l h) [
        | inl (_, same, _) ↦ ap (loses_lines settlements) same ∙ keeps
        | inr (line, _, same, _) ↦
            ap (loses_lines settlements) same
            ∙ any-append (λ id. not (includes (settlement_ids settlements) id)) settled
                (l.original_payment_item_id ∷ [])
            ∙ rw (keeps, reported)
      ]

  pub settle_lines-reported :
      (s : Settlements) (payment_id : String) (o : PaymentChannelOperation)
      (plan : RefundChannelPlan) (rows : List AccountPaymentTransaction) (settled : List String)
      (ls : List RefundSettlement) (settlements : List RefundSettlement)
      {rows' : List AccountPaymentTransaction} {settled' : List String}
      → settle_lines b amount_of new_ids s payment_id o plan (rows, settled) ls
        ≡ ok (rows', settled')
      → ((id : String)
          → includes (settlement_ids ls) id ≡ true
          → includes (settlement_ids settlements) id ≡ true)
      → loses_lines settlements settled ≡ false
      → loses_lines settlements settled' ≡ false
  unfolding settle_lines
  settle_lines-reported s payment_id o plan rows settled [] settlements h sub keeps =
      sym (ap (λ x. loses_lines settlements x.1) (ok-injective h)) ∙ keeps
  settle_lines-reported s payment_id o plan rows settled (l ∷ ls) settlements h sub keeps =
      let ((rows1, settled1), first, rest) =
        >>=-returned (settle_line b amount_of new_ids s payment_id o plan (rows, settled) l) _ h in
      settle_lines-reported s payment_id o plan rows1 settled1 ls settlements rest
        (λ id k. sub id (ap (λ t. str_eq l.original_payment_item_id id || t) k ∙ ||-true _))
        (settle_line-reported s payment_id o plan rows settled l settlements first
          (sub l.original_payment_item_id (
            ap (λ t. t || includes (settlement_ids ls) l.original_payment_item_id)
              (str_eq_refl l.original_payment_item_id)))
          keeps)

  -- A line that was settled is passed over.
  settle_line-again :
      (s s' : Settlements) (payment_id : String) (o o' : PaymentChannelOperation)
      (plan : RefundChannelPlan) (rows : List AccountPaymentTransaction) (settled : List String)
      (rows' : List AccountPaymentTransaction) (settled' : List String) (l : RefundSettlement)
      {after : List AccountPaymentTransaction × List String}
      → settle_line b amount_of new_ids s payment_id o plan (rows, settled) l ≡ ok after
      → includes settled' l.original_payment_item_id ≡ true
      → settle_line b amount_of new_ids s' payment_id o' plan (rows', settled') l
        ≡ ok (rows', settled')
  unfolding settle_line
  settle_line-again s s' payment_id o o' plan rows settled rows' settled' l h done =
      let (line, looked, h0) =
        >>=-returned
          (or_throw
            (find
              (λ (k : RefundChannelLine).
                str_eq k.original_payment_item_id l.original_payment_item_id)
              plan.lines)
            line_mismatch)
          _ h in
      let (_, same, h1) =
        >>=-returned (throw_if (not (str_eq l.provider_amount line.provider_amount)) line_mismatch)
          _ h0 in
      let key : line.original_payment_item_id ≡ l.original_payment_item_id =
        find_key (λ (k : RefundChannelLine). k.original_payment_item_id) l.original_payment_item_id
          plan.lines (or_throw-ok _ line_mismatch looked) in
      rw (looked, same, ap (includes settled') key ∙ done)

  pub settle_lines-again :
      (s s' : Settlements) (payment_id : String) (o o' : PaymentChannelOperation)
      (plan : RefundChannelPlan) (rows : List AccountPaymentTransaction) (settled : List String)
      (rows' : List AccountPaymentTransaction) (settled' : List String) (ls : List RefundSettlement)
      {after : List AccountPaymentTransaction × List String}
      → settle_lines b amount_of new_ids s payment_id o plan (rows, settled) ls ≡ ok after
      → ((id : String) → includes (settlement_ids ls) id ≡ true → includes settled' id ≡ true)
      → settle_lines b amount_of new_ids s' payment_id o' plan (rows', settled') ls
        ≡ ok (rows', settled')
  unfolding settle_lines
  settle_lines-again s s' payment_id o o' plan rows settled rows' settled' [] h done = refl
  settle_lines-again s s' payment_id o o' plan rows settled rows' settled' (l ∷ ls) h done =
      let ((rows1, settled1), first, rest) =
        >>=-returned (settle_line b amount_of new_ids s payment_id o plan (rows, settled) l) _ h in
      let head = done l.original_payment_item_id (
        ap (λ t. t || includes (settlement_ids ls) l.original_payment_item_id)
          (str_eq_refl l.original_payment_item_id)) in
      rw (settle_line-again s s' payment_id o o' plan rows settled rows' settled' l first head) (
        settle_lines-again s s' payment_id o o' plan rows1 settled1 rows' settled' ls rest
          (λ id k. done id (ap (λ t. str_eq l.original_payment_item_id id || t) k ∙ ||-true _)))
