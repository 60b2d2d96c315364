-- ===== src/Cleanup.antt =====
-- libs/payment-core-webservice/src/service/payment-cleanup.service.ts: old payments and all that
-- belongs to them are deleted after they were archived. The dump itself and the list of archives are
-- left out.
pub mod Delete
pub mod Kept
pub mod References
pub mod Integrity
pub mod Removed
pub mod Dangling
mod Tests
use postral_core.Prelude.{
  ℕ, String, Bool, true, false, not, ◌&&◌, ◌||◌, Option, none, some, List, [], ◌∷◌, map, Result, ok,
  err, ◌>>=◌, ◌>>◌, throw_if, or_throw, filter, length, includes, str_eq, is_empty, ltb, ◌==◌,
  is_archive_id, if◌then◌else◌,
}

-- A row with the column that it is selected by, which may be null: the payment of an item, a tax, an
-- order, an invoice, a refund request, a transaction or an operation, the request of a refund item,
-- the report of a tax group or an expense. The other IDs that it holds are nothing to the cleanup:
-- `originalPaymentItemId` and `refundPaymentId` of an item, `originalOperationId` of an operation,
-- `paymentSellerOrderId` and `roundingOperationId` of a transaction, `sellerPaymentOrderId` of an
-- invoice, `paymentItemId` and `realItemId` of a refund item, and accounts and addresses.
pub record Row : Type 0 where
  pub id : String
  pub owner : Option String
  pub others : List String

-- Times are in milliseconds.
pub record PaymentRow : Type 0 where
  pub id : String
  pub created_at : ℕ
  -- the request that a refund's payment was made for
  pub refund_request_id : Option String

pub record EventRow : Type 0 where
  pub aggregate_id : String
  pub occurred_at : ℕ

pub record ReportPaymentRelation : Type 0 where
  pub report_id : String
  pub payment_id : String

pub record Tables : Type 0 where
  pub payments : List PaymentRow
  pub items : List Row
  pub taxes : List Row
  pub orders : List Row
  pub invoices : List Row
  pub refund_requests : List Row
  pub refund_items : List Row
  pub transactions : List Row
  pub operations : List Row
  pub events : List EventRow
  pub reports : List String
  pub relations : List ReportPaymentRelation
  pub tax_groups : List Row
  pub expenses : List Row
  pub report_queries : ℕ

pub data CleanupFailure : Type 0 where
  disabled invalid_date not_confirmed invalid_archive_id manifest_not_found : CleanupFailure
  dump_missing checksum_differs scope_differs : CleanupFailure

pub record Counts : Type 0 where
  pub payment : ℕ
  pub item : ℕ
  pub tax : ℕ
  pub order : ℕ
  pub invoice : ℕ
  pub refund_request : ℕ
  pub refund_item : ℕ
  pub transaction : ℕ
  pub operation : ℕ
  pub event : ℕ
  pub relation : ℕ
  pub report : ℕ
  pub tax_group : ℕ
  pub expense : ℕ

pub record PaymentCleanupPreview : Type 0 where
  pub payment_ids : List String
  pub affected_report_ids : List String
  pub preserved_report_query_count : ℕ
  pub counts : Counts

pub record PaymentArchiveManifest : Type 0 where
  pub dump_path : String
  pub checksum : String
  pub before : Option String
  pub payment_count : ℕ

pub record PaymentCleanupRequest : Type 0 where
  pub before : Option String
  pub archive_id : String
  pub confirmation : String

-- `IN (…)` on a column that may be null
abbrev pub owned : List String → Option String → Bool
owned ids none = false
owned ids (some id) = includes ids id

abbrev pub in_ids : List String → Row → Bool
in_ids ids r = owned ids r.owner

unfoldable pub count_by : List String → List Row → ℕ
count_by [] rows = 0
count_by (id ∷ ids) rows = length (filter (in_ids (id ∷ ids)) rows)

unfoldable pub find_refund_request_ids : List String → List Row → List String
find_refund_request_ids [] requests = []
find_refund_request_ids (id ∷ ids) requests =
    map (λ (r : Row). r.id) (filter (in_ids (id ∷ ids)) requests)

-- `countRefundItems`: of the requests of the payments
unfoldable pub count_refund_items : List String → List Row → List Row → ℕ
count_refund_items ids requests items = count_by (find_refund_request_ids ids requests) items

-- `DISTINCT`
abbrev pub distinct : List String → List String
distinct [] = []
distinct (id ∷ ids) = let rest = distinct ids in if includes ids id then rest else id ∷ rest

unfoldable pub find_affected_report_ids : List String → List ReportPaymentRelation → List String
find_affected_report_ids [] relations = []
find_affected_report_ids (id ∷ ids) relations = distinct (
    map (λ (r : ReportPaymentRelation). r.report_id)
      (filter (λ (r : ReportPaymentRelation). includes (id ∷ ids) r.payment_id) relations))

-- `parse_date` gives the milliseconds of `new Date(text)`, if it is valid.
module _ (parse_date : String → Option ℕ) where
  unfoldable pub find_payment_ids :
      Option String → List PaymentRow → Result CleanupFailure (List String)
  find_payment_ids before payments =
      if is_empty before then ok (map (λ (p : PaymentRow). p.id) payments) else (do
        text ← or_throw before invalid_date
        date ← or_throw (parse_date text) invalid_date
        ok (
            map (λ (p : PaymentRow). p.id)
              (filter (λ (p : PaymentRow). ltb p.created_at date) payments)))

  unfoldable pub count_payment_events :
      List String → Option String → List EventRow → Result CleanupFailure ℕ
  count_payment_events [] before events = ok 0
  count_payment_events (id ∷ ids) before events =
      let of_payments = filter (λ (e : EventRow). includes (id ∷ ids) e.aggregate_id) events in
      if is_empty before then ok (length of_payments) else (do
        text ← or_throw before invalid_date
        date ← or_throw (parse_date text) invalid_date
        ok (length (filter (λ (e : EventRow). ltb e.occurred_at date) of_payments)))

  unfoldable pub preview :
      Bool → Option String → Tables → Result CleanupFailure PaymentCleanupPreview
  preview enabled before t = do
    throw_if (not enabled) disabled
    ids ← find_payment_ids before t.payments
    events ← count_payment_events ids before t.events
    let reports = find_affected_report_ids ids t.relations
    ok (record {
      payment_ids = ids;
      affected_report_ids = reports;
      preserved_report_query_count = t.report_queries;
      counts = record {
        payment = length ids;
        item = count_by ids t.items;
        tax = count_by ids t.taxes;
        order = count_by ids t.orders;
        invoice = count_by ids t.invoices;
        refund_request = count_by ids t.refund_requests;
        refund_item = count_refund_items ids t.refund_requests t.refund_items;
        transaction = count_by ids t.transactions;
        operation = count_by ids t.operations;
        event = events;
        relation =
            length (filter (λ (r : ReportPaymentRelation). includes ids r.payment_id) t.relations);
        report = length reports;
        tax_group = count_by reports t.tax_groups;
        expense = count_by reports t.expenses;
      };
    })
