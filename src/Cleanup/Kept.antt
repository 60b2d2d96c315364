-- ===== src/Cleanup/Kept.antt =====
-- Rows that are searched for after a cleanup.
use postral_core.Prelude.{
  ◌≡◌, sym, ap, ◌∙◌, inl, inr, String, Bool, true, false, not, ◌||◌, List, [], ◌∷◌, map, filter,
  any, All, includes, str_eq, str_eq_refl, str_eq→eq, Bool-cases, ||-true, ||-eq-false,
}
use postral_core.Cleanup.{
  Row, ReportPaymentRelation, in_ids, distinct, find_refund_request_ids, find_affected_report_ids,
}

-- A row that is looked for is in one of the two parts of its table.
any-part :
    (test : Row → Bool) (k : String) (rows : List Row)
    → any (λ (r : Row). str_eq r.id k) rows ≡ true
    → includes (map (λ (r : Row). r.id) (filter test rows)) k ≡ false
    → any (λ (r : Row). str_eq r.id k) (filter (λ r. not (test r)) rows) ≡ true
any-part test k [] h out = h
any-part test k (r ∷ rows) h out = elim (Bool-cases (test r)) [
  | inl picked ↦
      let (differs, rest) = ||-eq-false (str_eq r.id k) _ (rw picked at out) in
      rw picked (any-part test k rows (rw differs at h) rest)
  | inr kept ↦ elim (Bool-cases (str_eq r.id k)) [
    | inl hit ↦ rw (kept, hit)
    | inr miss ↦ rw (kept, miss) (any-part test k rows (rw miss at h) (rw kept at out))
  ]
]

-- A request whose items are not deleted is not deleted.
pub any-request :
    (id : String) (ids : List String) (k : String) (requests : List Row)
    → any (λ (r : Row). str_eq r.id k) requests ≡ true
    → includes (find_refund_request_ids (id ∷ ids) requests) k ≡ false
    → any (λ (r : Row). str_eq r.id k) (filter (λ r. not (in_ids (id ∷ ids) r)) requests) ≡ true
unfolding find_refund_request_ids
any-request id ids k requests = any-part (in_ids (id ∷ ids)) k requests

includes-distinct :
    (ids : List String) (k : String) → includes ids k ≡ true → includes (distinct ids) k ≡ true
includes-distinct [] k h = h
includes-distinct (id ∷ ids) k h = elim (Bool-cases (includes ids id)) [
  | inl again ↦ rw again (
      includes-distinct ids k (elim (Bool-cases (str_eq id k)) [
        | inl same ↦ ap (includes ids) (sym (str_eq→eq id k same)) ∙ again
        | inr other ↦ rw other at h
      ]))
  | inr new ↦ rw new (elim (Bool-cases (str_eq id k)) [
    | inl same ↦ rw same
    | inr other ↦ rw other (includes-distinct ids k (rw other at h))
  ])
]

report_ids : List ReportPaymentRelation → List String
report_ids = map (λ (r : ReportPaymentRelation). r.report_id)

includes-more :
    (test : ReportPaymentRelation → Bool) (r : ReportPaymentRelation)
    (rows : List ReportPaymentRelation) (k : String)
    → includes (report_ids (filter test rows)) k ≡ true
    → includes (report_ids (filter test (r ∷ rows))) k ≡ true
unfolding report_ids
includes-more test r rows k h = elim (Bool-cases (test r)) [
  | inl picked ↦ rw picked (ap (λ t. str_eq r.report_id k || t) h ∙ ||-true (str_eq r.report_id k))
  | inr kept ↦ rw kept h
]

includes-picked :
    (test : ReportPaymentRelation → Bool) (ids : List String) (rows : List ReportPaymentRelation)
    → ((k : String) → includes (report_ids (filter test rows)) k ≡ true → includes ids k ≡ true)
    → All (λ (r : ReportPaymentRelation). test r ≡ true → includes ids r.report_id ≡ true) rows
unfolding report_ids
includes-picked test ids [] sub = tt
includes-picked test ids (r ∷ rows) sub = (
  λ picked. sub r.report_id (
      rw picked (
        ap (λ t. t || includes (report_ids (filter test rows)) r.report_id)
          (str_eq_refl r.report_id))),
  includes-picked test ids rows (λ k h. sub k (includes-more test r rows k h)),
)

-- The report of a relation of a deleted payment is affected.
pub find_affected_report_ids-All :
    (ids : List String) (rows : List ReportPaymentRelation)
    → All
        (λ (r : ReportPaymentRelation).
          includes ids r.payment_id ≡ true
          → includes (find_affected_report_ids ids rows) r.report_id ≡ true)
        rows
unfolding find_affected_report_ids report_ids
find_affected_report_ids-All [] [] = tt
find_affected_report_ids-All [] (r ∷ rows) = (λ h. cc, find_affected_report_ids-All [] rows)
find_affected_report_ids-All (id ∷ ids) rows =
    includes-picked (λ (r : ReportPaymentRelation). includes (id ∷ ids) r.payment_id)
      (find_affected_report_ids (id ∷ ids) rows) rows (includes-distinct _)
