-- ===== src/Cleanup/Delete.antt =====
-- `cleanup`: the checks of a request, and one transaction that deletes. If the database refuses, the
-- transaction is rolled back, so a call that throws leaves the tables as they were.
use postral_core.Prelude.{
  ℕ, String, Bool, not, Option, List, [], ◌∷◌, Result, ok, ◌>>=◌, ◌>>◌, throw_if, or_throw, filter,
  length, includes, str_eq, ◌==◌, is_archive_id,
}
use postral_core.Cleanup.{
  Row, PaymentRow, EventRow, ReportPaymentRelation, Tables, CleanupFailure, disabled, not_confirmed,
  invalid_archive_id, manifest_not_found, dump_missing, checksum_differs, scope_differs,
  PaymentCleanupPreview, PaymentArchiveManifest, PaymentCleanupRequest, in_ids,
  find_refund_request_ids, preview,
}

abbrev pub delete_in : List String → List Row → List Row
delete_in ids = filter (λ r. not (in_ids ids r))

unfoldable pub delete_reports : List String → Tables → Tables
delete_reports [] t = t
delete_reports (id ∷ ids) t = record t {
  tax_groups = delete_in (id ∷ ids) t.tax_groups;
  expenses = delete_in (id ∷ ids) t.expenses;
  relations =
      filter (λ (r : ReportPaymentRelation). not (includes (id ∷ ids) r.report_id)) t.relations;
  reports = filter (λ r. not (includes (id ∷ ids) r)) t.reports;
}

unfoldable pub delete_payments : List String → Tables → Tables
delete_payments [] t = t
delete_payments (id ∷ ids) t = record t {
  refund_items = delete_in (find_refund_request_ids (id ∷ ids) t.refund_requests) t.refund_items;
  refund_requests = delete_in (id ∷ ids) t.refund_requests;
  transactions = delete_in (id ∷ ids) t.transactions;
  operations = delete_in (id ∷ ids) t.operations;
  events = filter (λ (e : EventRow). not (includes (id ∷ ids) e.aggregate_id)) t.events;
  invoices = delete_in (id ∷ ids) t.invoices;
  orders = delete_in (id ∷ ids) t.orders;
  items = delete_in (id ∷ ids) t.items;
  taxes = delete_in (id ∷ ids) t.taxes;
  payments = filter (λ (p : PaymentRow). not (includes (id ∷ ids) p.id)) t.payments;
}

-- What the transaction deletes.
unfoldable pub delete_all : PaymentCleanupPreview → Tables → Tables
delete_all found t = delete_payments found.payment_ids (delete_reports found.affected_report_ids t)

-- `before` of the request, or else of the manifest (`??`)
abbrev pub or_else : Option String → Option String → Option String
or_else Option.none other = other
or_else (Option.some before) _ = Option.some before

-- `read_manifest` gives the manifest that is stored under an ID, and `checksum_of` the checksum of a
-- file that exists.
module _ (parse_date : String → Option ℕ) (read_manifest : String → Option PaymentArchiveManifest)
    (checksum_of : String → Option String) where
  unfoldable pub assert_archive_intact : PaymentArchiveManifest → Result CleanupFailure (Unit {0})
  assert_archive_intact manifest = do
    checksum ← or_throw (checksum_of manifest.dump_path) dump_missing
    throw_if (not (str_eq checksum manifest.checksum)) checksum_differs

  -- The checks of `cleanup`, and the preview that it deletes by.
  unfoldable pub check_cleanup :
      Bool → PaymentCleanupRequest → Tables → Result CleanupFailure PaymentCleanupPreview
  check_cleanup enabled request t = do
    throw_if (not enabled) disabled
    throw_if (not (str_eq request.confirmation "DELETE_PAYMENT_DATA")) not_confirmed
    throw_if (not (is_archive_id request.archive_id)) invalid_archive_id
    manifest ← or_throw (read_manifest request.archive_id) manifest_not_found
    assert_archive_intact manifest
    found ← preview parse_date enabled (or_else request.before manifest.before) t
    throw_if (not (length found.payment_ids == manifest.payment_count)) scope_differs
    ok found

  unfoldable pub cleanup :
      Bool → PaymentCleanupRequest → Tables → Result CleanupFailure (Tables × PaymentCleanupPreview)
  cleanup enabled request t = do
    found ← check_cleanup enabled request t
    ok (delete_all found t, found)
