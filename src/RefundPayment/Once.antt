-- ===== src/RefundPayment/Once.antt =====
-- A refund request is paid once, however often its payment is created.
use postral_core.Prelude.{
  ℕ, ◌≤◌, arith, ◌≡◌, refl, sym, ap, ◌∙◌, inl, inr, String, Bool, true, false, not, Option, none,
  some, List, [], ◌∷◌, ◌++◌, ok, >>=-ok, throw_if, or_throw, find, filter, length, length-append,
  filter-append, update_where, opt_eq, str_eq, str_eq_refl, str_eq→eq, Bool-cases, if◌then◌else◌,
}
use mathlib.Core.Path.{subst}
use postral_core.Amount.{Amount, BigJs}
use postral_core.Entity.Status.{is_failed, is_pending}
use postral_core.Entity.Payment.{Payment}
use postral_core.Entity.Refund.{RefundRequest}
use postral_core.RefundPayment.{
  not_pending, refund_failed, RefundTables, Fresh, of_request, prepare_refund, Posting,
  reuse_or_save, commit_refund,
}
use postral_core.RefundPayment.Prepared.{
  IsOf, prepare_refund-IsOf, reuse_or_save-ok, commit_refund-ok, find-appended,
}

find-filter :
    (test : Payment → Bool) (ps : List Payment) → find test ps ≡ none → filter test ps ≡ []
find-filter test [] h = refl
find-filter test (p ∷ ps) h = elim (Bool-cases (test p)) [
  | inl yes_test ↦ cc (rw yes_test at h)
  | inr no_test ↦ rw no_test (find-filter test ps (rw no_test at h))
]

-- The payments of a request.
abbrev paid_by : String → RefundTables → ℕ
paid_by id s = length (filter (of_request id) s.payments)

paid_by-saved :
    (id k : String) (ps : List Payment) (p : Payment)
    → p.refund_request_id ≡ some id
    → find (of_request id) ps ≡ none
    → length (filter (of_request k) ps) ≤ 1
    → length (filter (of_request k) (ps ++ (p ∷ []))) ≤ 1
paid_by-saved id k ps p of absent few =
    subst (λ n. n ≤ 1) (sym (ap length (filter-append (of_request k) ps (p ∷ []))))
      (elim (Bool-cases (str_eq id k)) [
        | inl same ↦
            let none_yet =
              ap (λ j. filter (of_request j) ps) (sym (str_eq→eq id k same))
              ∙ find-filter (of_request id) ps absent in
            rw (none_yet, of, same) (omega arith)
        | inr other ↦
            rw (of, other)
              (subst (λ n. n ≤ 1) (sym (length-append (filter (of_request k) ps) []))
                (omega (arith, few)))
      ])

reused :
    (post : Posting) (prepared : Option Payment) (s : RefundTables) (p : Payment)
    → is_failed p.payment_status ≡ false
    → reuse_or_save post prepared s (some p) ≡ ok (s, p)
unfolding reuse_or_save
reused post prepared s p alive = >>=-ok _ _ (ap (λ t. throw_if t refund_failed) alive) refl

module _ (b : BigJs Amount) (post : Posting) where
  -- Transactions of any requests, each prepared in any earlier or later tables; and in between the
  -- requests may be decided, and payments may change but for their request.
  pub data Steps (s : RefundTables) : RefundTables → Type 0 where
    begin : Steps s s
    committed :
        {s'' : RefundTables} {prepared : Option Payment} (s' : RefundTables) (fresh : Fresh)
        (request : RefundRequest) (before : RefundTables) (p : Payment)
        → Steps s s'
        → prepare_refund b fresh request before ≡ ok prepared
        → commit_refund post prepared request.id s' ≡ ok (s'', p)
        → Steps s s''
    decided :
        {s' : RefundTables} (requests : List RefundRequest)
        → Steps s s'
        → Steps s (record s' { requests = requests })
    changed :
        {s' : RefundTables} (test : Payment → Bool) (f : Payment → Payment)
        → ((p : Payment) → (f p).refund_request_id ≡ p.refund_request_id)
        → Steps s s'
        → Steps s (record s' { payments = update_where test f s'.payments })

  paid_by-changed :
      (k : String) (test : Payment → Bool) (f : Payment → Payment)
      → ((p : Payment) → (f p).refund_request_id ≡ p.refund_request_id)
      → (ps : List Payment)
      → length (filter (of_request k) (update_where test f ps)) ≡ length (filter (of_request k) ps)
  paid_by-changed k test f keeps [] = refl
  paid_by-changed k test f keeps (p ∷ ps) =
      let one = of_request-changed (test p) in
      elim (Bool-cases (of_request k p)) [
        | inl hit ↦ rw (one ∙ hit, hit) (omega (arith, paid_by-changed k test f keeps ps))
        | inr miss ↦ rw (one ∙ miss, miss) (paid_by-changed k test f keeps ps)
      ]
    where
      of_request-changed : (t : Bool) → of_request k (if t then f p else p) ≡ of_request k p
      of_request-changed true = ap (λ o. opt_eq o (some k)) (keeps p)
      of_request-changed false = refl

  -- If each request has at most one payment, then after any transactions that create the payments
  -- of refunds, whatever they were prepared on, each request has at most one payment.
  pub Steps-once :
      (s s' : RefundTables) (k : String)
      → ((j : String) → paid_by j s ≤ 1)
      → Steps s s'
      → paid_by k s' ≤ 1
  Steps-once s s' k few begin = few k
  Steps-once s s' k few (committed mid fresh request before p steps prepared done) =
      let (_, _, _, saved) = commit_refund-ok post _ request.id mid done in
      elim (reuse_or_save-ok post _ mid _ saved) [
        | inl (same, _, _) ↦
            subst (λ (t : RefundTables). paid_by k t ≤ 1) (sym same) (Steps-once s mid k few steps)
        | inr (absent, ready, payments, _) ↦
            let (of, _) =
              subst (IsOf request.id) ready (prepare_refund-IsOf b fresh request before prepared) in
            subst (λ ps. length (filter (of_request k) ps) ≤ 1) (sym payments)
              (paid_by-saved request.id k mid.payments p of absent (Steps-once s mid k few steps))
      ]
  Steps-once s s' k few (decided requests steps) = Steps-once s _ k few steps
  Steps-once s s' k few (changed test f keeps steps) =
      subst (λ n. n ≤ 1) (sym (paid_by-changed k test f keeps _)) (Steps-once s _ k few steps)

  -- If the payment of a refund request was created, then its transaction run again, whatever was
  -- prepared for it, returns the same payment and changes nothing.
  pub commit_refund-again :
      (fresh : Fresh) (request : RefundRequest) (before s : RefundTables) {s' : RefundTables}
      {p : Payment} {prepared : Option Payment} (prepared' : Option Payment)
      → prepare_refund b fresh request before ≡ ok prepared
      → commit_refund post prepared request.id s ≡ ok (s', p)
      → commit_refund post prepared' request.id s' ≡ ok (s', p)
  unfolding commit_refund
  commit_refund-again fresh request before s {s'} {p} {prepared} prepared' h done =
      let (row, read, waits, saved) = commit_refund-ok post prepared request.id s done in
      elim (reuse_or_save-ok post prepared s (find (of_request request.id) s.payments) saved) [
        | inl (same, found, alive) ↦
            again row
              (ap
                  (λ (t : RefundTables).
                    find (λ (r : RefundRequest). str_eq r.id request.id) t.requests)
                  same
                ∙ read)
              waits
              (ap (λ (t : RefundTables). find (of_request request.id) t.payments) same ∙ found)
              alive
        | inr (absent, ready, payments, requests) ↦
            let (of, alive) =
              subst (IsOf request.id) ready (prepare_refund-IsOf b fresh request before h) in
            again row (ap (find (λ (r : RefundRequest). str_eq r.id request.id)) requests ∙ read)
              waits
              (ap (find (of_request request.id)) payments
                ∙ find-appended (of_request request.id) s.payments p absent
                    (ap (λ o. opt_eq o (some request.id)) of ∙ str_eq_refl request.id))
              alive
      ]
    where
      again :
          (row : RefundRequest)
          → find (λ (r : RefundRequest). str_eq r.id request.id) s'.requests ≡ some row
          → not (is_pending row.status) ≡ false
          → find (of_request request.id) s'.payments ≡ some p
          → is_failed p.payment_status ≡ false
          → commit_refund post prepared' request.id s' ≡ ok (s', p)
      again row read waits found alive = >>=-ok _ _ (ap (λ o. or_throw o not_pending) read) (
          >>=-ok _ _ (ap (λ t. throw_if t not_pending) waits)
            (ap (reuse_or_save post prepared' s') found ∙ reused post prepared' s' p alive))
