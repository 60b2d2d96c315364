-- ===== src/Cleanup/References.antt =====
-- Rows whose owners are there, and what is left of them when reports are deleted.
use postral_core.Prelude.{
  ◌≡◌, refl, sym, ap, ◌∙◌, String, Bool, true, false, not, Option, none, some, List, [], ◌∷◌, any,
  any-filter, All, All-filter, All-map, includes, str_eq, str_eq→eq,
}
use postral_core.Cleanup.{Row, PaymentRow, EventRow, ReportPaymentRelation, Tables, owned, in_ids}
use postral_core.Cleanup.Delete.{delete_in, delete_reports}

abbrev pub HasPayment : Tables → String → Type 0
HasPayment t k = any (λ (p : PaymentRow). str_eq p.id k) t.payments ≡ true

abbrev pub HasRequest : Tables → String → Type 0
HasRequest t k = any (λ (r : Row). str_eq r.id k) t.refund_requests ≡ true

abbrev pub HasReport : Tables → String → Type 0
HasReport t k = any (λ r. str_eq r k) t.reports ≡ true

-- The column is null, or refers to a row that is there.
abbrev pub Refers : (String → Type 0) → Option String → Type 0
Refers Has none = Unit
Refers Has (some k) = Has k

pub record HasOwners (t : Tables) : Type 0 where
  pub items_refer : All (λ (r : Row). Refers (HasPayment t) r.owner) t.items
  pub taxes_refer : All (λ (r : Row). Refers (HasPayment t) r.owner) t.taxes
  pub orders_refer : All (λ (r : Row). Refers (HasPayment t) r.owner) t.orders
  pub invoices_refer : All (λ (r : Row). Refers (HasPayment t) r.owner) t.invoices
  pub requests_refer : All (λ (r : Row). Refers (HasPayment t) r.owner) t.refund_requests
  pub refund_items_refer : All (λ (r : Row). Refers (HasRequest t) r.owner) t.refund_items
  pub transactions_refer : All (λ (r : Row). Refers (HasPayment t) r.owner) t.transactions
  pub operations_refer : All (λ (r : Row). Refers (HasPayment t) r.owner) t.operations
  pub events_refer : All (λ (e : EventRow). HasPayment t e.aggregate_id) t.events
  pub relations_refer :
      All
        (λ (r : ReportPaymentRelation). HasPayment t r.payment_id × HasReport t r.report_id)
        t.relations
  pub tax_groups_refer : All (λ (r : Row). Refers (HasReport t) r.owner) t.tax_groups
  pub expenses_refer : All (λ (r : Row). Refers (HasReport t) r.owner) t.expenses

pub not-false : (b : Bool) → not b ≡ true → b ≡ false
not-false true h = sym h
not-false false h = refl

-- Rows that are kept refer to what is kept.
pub delete_in-Refers :
    (Has Has' : String → Type 0) (ids : List String)
    → ((k : String) → Has k → includes ids k ≡ false → Has' k)
    → (rows : List Row) → All (λ (r : Row). Refers Has r.owner) rows
    → All (λ (r : Row). Refers Has' r.owner) (delete_in ids rows)
delete_in-Refers Has Has' ids keeps rows =
    All-filter (λ (r : Row). Refers Has r.owner) (λ (r : Row). Refers Has' r.owner)
      (λ r. not (in_ids ids r)) (λ r h k. one r.owner h k) rows
  where
    one : (o : Option String) → Refers Has o → not (owned ids o) ≡ true → Refers Has' o
    one none h k = tt
    one (some id) h k = keeps id h (not-false (includes ids id) k)

pub differs :
    (ids : List String) (j k : String)
    → includes ids k ≡ false
    → str_eq j k ≡ true
    → not (includes ids j) ≡ true
differs ids j k out same = rw (str_eq→eq j k same, out)

pub delete_reports-HasOwners :
    (ids : List String) (t : Tables) → HasOwners t → HasOwners (delete_reports ids t)
unfolding delete_reports
delete_reports-HasOwners [] t h = h
delete_reports-HasOwners (id ∷ ids) t h =
    let keeps : (k : String)
        → HasReport t k
        → includes (id ∷ ids) k ≡ false
        → HasReport (delete_reports (id ∷ ids) t) k =
      λ k there out.
        any-filter (λ r. str_eq r k) (λ r. not (includes (id ∷ ids) r))
          (λ r same. differs (id ∷ ids) r k out same) t.reports there in
    record {
      items_refer = h.items_refer;
      taxes_refer = h.taxes_refer;
      orders_refer = h.orders_refer;
      invoices_refer = h.invoices_refer;
      requests_refer = h.requests_refer;
      refund_items_refer = h.refund_items_refer;
      transactions_refer = h.transactions_refer;
      operations_refer = h.operations_refer;
      events_refer = h.events_refer;
      relations_refer =
          All-filter _ _ (λ (r : ReportPaymentRelation). not (includes (id ∷ ids) r.report_id))
            (λ r both out. (both.0, keeps r.report_id both.1 (not-false _ out))) t.relations
            h.relations_refer;
      tax_groups_refer = delete_in-Refers _ _ (id ∷ ids) keeps t.tax_groups h.tax_groups_refer;
      expenses_refer = delete_in-Refers _ _ (id ∷ ids) keeps t.expenses h.expenses_refer;
    }

-- The relations that are left are of payments that stay.
pub delete_reports-relations :
    (ids reports : List String) (t : Tables)
    → All
        (λ (r : ReportPaymentRelation).
          includes ids r.payment_id ≡ true → includes reports r.report_id ≡ true)
        t.relations
    → All
        (λ (r : ReportPaymentRelation). includes ids r.payment_id ≡ false)
        (delete_reports reports t).relations
unfolding delete_reports
delete_reports-relations ids [] t h =
    All-map _ _ (λ r k. refuted (includes ids r.payment_id) k) t.relations h
  where
    refuted : (b : Bool) → (b ≡ true → false ≡ true) → b ≡ false
    refuted true h = sym (h refl)
    refuted false h = refl
delete_reports-relations ids (id ∷ reports) t h =
    All-filter _ _ (λ (r : ReportPaymentRelation). not (includes (id ∷ reports) r.report_id))
      (λ r k out. refuted (includes ids r.payment_id) _ k out) t.relations h
  where
    refuted : (b c : Bool) → (b ≡ true → c ≡ true) → not c ≡ true → b ≡ false
    refuted true c h out = sym (ap not (sym (h refl)) ∙ out)
    refuted false c h out = refl
