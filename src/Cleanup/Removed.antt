-- ===== src/Cleanup/Removed.antt =====
-- How many rows a cleanup deletes.
use postral_core.Prelude.{
  ◌≡◌, refl, sym, ap, ◌∙◌, ℕ, ◌+◌, String, Bool, not, Option, none, some, List, [], ◌∷◌, ok,
  >>=-returned, ok-injective, throw_if, length, length-filter, arith, if◌then◌else◌,
}
use mathlib.Core.Path.{subst}
use postral_core.Cleanup.{
  Row, Tables, disabled, PaymentCleanupPreview, PaymentArchiveManifest, PaymentCleanupRequest,
  owned, in_ids, count_by, find_refund_request_ids, count_refund_items, find_affected_report_ids,
  find_payment_ids, count_payment_events, preview,
}
use postral_core.Cleanup.Delete.{
  delete_in, delete_reports, delete_payments, delete_all, check_cleanup, cleanup,
}
use postral_core.Cleanup.Integrity.{check_cleanup-preview}

-- The rows of a table before are those after and as many as were counted.
abbrev Lost : List Row → List Row → ℕ → Type 0
Lost before after count = length before ≡ length after + count

delete_in-nil : (rows : List Row) → length rows ≡ length (delete_in [] rows)
delete_in-nil [] = refl
delete_in-nil (r ∷ rows) = one r.owner (delete_in-nil rows)
  where
    one :
        (o : Option String)
        → length rows ≡ length (delete_in [] rows)
        → length (r ∷ rows)
          ≡ length (if not (owned [] o) then r ∷ delete_in [] rows else delete_in [] rows)
    one none h = omega (arith, h)
    one (some id) h = omega (arith, h)

delete_in-Lost :
    (ids : List String) (rows : List Row) → Lost rows (delete_in ids rows) (count_by ids rows)
unfolding count_by
delete_in-Lost [] rows = omega (arith, delete_in-nil rows)
delete_in-Lost (id ∷ ids) rows = length-filter (in_ids (id ∷ ids)) rows

-- What a cleanup leaves of the tables that it deletes from by a column.
pub record IsCounted (t t' : Tables) (found : PaymentCleanupPreview) : Type 0 where
  pub items_lost : Lost t.items t'.items found.counts.item
  pub taxes_lost : Lost t.taxes t'.taxes found.counts.tax
  pub orders_lost : Lost t.orders t'.orders found.counts.order
  pub invoices_lost : Lost t.invoices t'.invoices found.counts.invoice
  pub requests_lost : Lost t.refund_requests t'.refund_requests found.counts.refund_request
  pub refund_items_lost : Lost t.refund_items t'.refund_items found.counts.refund_item
  pub transactions_lost : Lost t.transactions t'.transactions found.counts.transaction
  pub operations_lost : Lost t.operations t'.operations found.counts.operation
  pub tax_groups_lost : Lost t.tax_groups t'.tax_groups found.counts.tax_group
  pub expenses_lost : Lost t.expenses t'.expenses found.counts.expense

reports-Lost :
    (ids : List String) (t : Tables)
    → Lost t.tax_groups (delete_reports ids t).tax_groups (count_by ids t.tax_groups)
      × Lost t.expenses (delete_reports ids t).expenses (count_by ids t.expenses)
unfolding delete_reports count_by
reports-Lost [] t = (omega arith, omega arith)
reports-Lost (id ∷ ids) t =
    (delete_in-Lost (id ∷ ids) t.tax_groups, delete_in-Lost (id ∷ ids) t.expenses)

-- Deleting reports touches none of the tables of the payments, and the other way around.
delete_payments-reports :
    (ids : List String) (t : Tables)
    → ((delete_payments ids t).tax_groups ≡ t.tax_groups)
      × ((delete_payments ids t).expenses ≡ t.expenses)
unfolding delete_payments
delete_payments-reports [] t = (refl, refl)
delete_payments-reports (id ∷ ids) t = (refl, refl)

abbrev PaymentsLost : List String → Tables → Tables → Type 0
PaymentsLost ids t t' =
    Lost t.items t'.items (count_by ids t.items)
    × Lost t.taxes t'.taxes (count_by ids t.taxes)
    × Lost t.orders t'.orders (count_by ids t.orders)
    × Lost t.invoices t'.invoices (count_by ids t.invoices)
    × Lost t.refund_requests t'.refund_requests (count_by ids t.refund_requests)
    × Lost t.refund_items t'.refund_items (count_refund_items ids t.refund_requests t.refund_items)
    × Lost t.transactions t'.transactions (count_by ids t.transactions)
    × Lost t.operations t'.operations (count_by ids t.operations)

delete_payments-Lost : (ids : List String) (t : Tables) → PaymentsLost ids t (delete_payments ids t)
unfolding delete_payments count_by count_refund_items find_refund_request_ids
delete_payments-Lost [] t = (
  omega arith,
  omega arith,
  omega arith,
  omega arith,
  omega arith,
  omega arith,
  omega arith,
  omega arith,
)
delete_payments-Lost (id ∷ ids) t = (
  delete_in-Lost (id ∷ ids) t.items,
  delete_in-Lost (id ∷ ids) t.taxes,
  delete_in-Lost (id ∷ ids) t.orders,
  delete_in-Lost (id ∷ ids) t.invoices,
  delete_in-Lost (id ∷ ids) t.refund_requests,
  delete_in-Lost (find_refund_request_ids (id ∷ ids) t.refund_requests) t.refund_items,
  delete_in-Lost (id ∷ ids) t.transactions,
  delete_in-Lost (id ∷ ids) t.operations,
)

both-Lost :
    (ids reports : List String) (t : Tables)
    → PaymentsLost ids t (delete_payments ids (delete_reports reports t))
unfolding delete_reports
both-Lost ids [] t = delete_payments-Lost ids t
both-Lost ids (id ∷ reports) t = delete_payments-Lost ids (delete_reports (id ∷ reports) t)

preview-IsCounted :
    (parse_date : String → Option ℕ) (enabled : Bool) (before : Option String) (t : Tables)
    {found : PaymentCleanupPreview}
    → preview parse_date enabled before t ≡ ok found
    → IsCounted t (delete_all found t) found
unfolding preview delete_all
preview-IsCounted parse_date enabled before t h =
    let (_, _, h0) = >>=-returned (throw_if (not enabled) disabled) _ h in
    let (ids, _, h1) = >>=-returned (find_payment_ids parse_date before t.payments) _ h0 in
    let (events, _, h2) = >>=-returned (count_payment_events parse_date ids before t.events) _ h1 in
    let reports = find_affected_report_ids ids t.relations in
    let (items, taxes, orders, invoices, requests, refund_items, transactions, operations) =
      both-Lost ids reports t in
    let (tax_groups, expenses) = reports-Lost reports t in
    let (same_groups, same_expenses) = delete_payments-reports ids (delete_reports reports t) in
    subst (λ found. IsCounted t (delete_all found t) found) (ok-injective h2)
      (record {
        items_lost = items;
        taxes_lost = taxes;
        orders_lost = orders;
        invoices_lost = invoices;
        requests_lost = requests;
        refund_items_lost = refund_items;
        transactions_lost = transactions;
        operations_lost = operations;
        tax_groups_lost =
            tax_groups ∙ ap (λ rows. length rows + count_by reports t.tax_groups) (sym same_groups);
        expenses_lost =
            expenses ∙ ap (λ rows. length rows + count_by reports t.expenses) (sym same_expenses);
      })

module _ (parse_date : String → Option ℕ) (read_manifest : String → Option PaymentArchiveManifest)
    (checksum_of : String → Option String) where
  -- A cleanup that succeeds deletes as many items, taxes, orders, invoices, refund requests and their
  -- items, transactions, operations, tax groups and expenses as the preview that it returns counts.
  pub cleanup-IsCounted :
      (enabled : Bool) (request : PaymentCleanupRequest) (t : Tables) {t' : Tables}
      {found : PaymentCleanupPreview}
      → cleanup parse_date read_manifest checksum_of enabled request t ≡ ok (t', found)
      → IsCounted t t' found
  unfolding cleanup
  cleanup-IsCounted enabled request t done =
      let (found, checked, last) =
        >>=-returned (check_cleanup parse_date read_manifest checksum_of enabled request t) _
          done in
      let (before, shown) =
        check_cleanup-preview parse_date read_manifest checksum_of enabled request t checked in
      subst (λ (x : Tables × PaymentCleanupPreview). IsCounted t x.0 x.1) (ok-injective last)
        (preview-IsCounted parse_date enabled before t shown)
