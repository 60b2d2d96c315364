-- ===== src/Cleanup/Tests.antt =====
-- An old payment and a new one that share a report.
use postral_core.Prelude.{
  ◌≡◌, refl, ℕ, String, true, Option, none, some, [], ◌∷◌, ok, utf16_length, is_archive_id, str_eq,
}
use postral_core.Cleanup.{
  Row, PaymentRow, Tables, owned, PaymentCleanupPreview, PaymentArchiveManifest,
  PaymentCleanupRequest, count_by, find_refund_request_ids, count_refund_items,
  find_affected_report_ids, find_payment_ids, count_payment_events, preview,
}
use postral_core.Cleanup.Delete.{
  delete_reports, delete_payments, delete_all, assert_archive_intact, check_cleanup, cleanup,
}
use postral_core.Cleanup.References.{HasRequest, Refers, HasOwners}
use postral_core.Cleanup.Integrity.{cleanup-HasOwners}
use postral_core.Cleanup.Dangling.{find_row, cleanup-dangling}
use postral_core.Cleanup.Removed.{IsCounted, cleanup-IsCounted}

abbrev row : String → String → Row
row id owner = record { id = id; owner = some owner; others = [] }

abbrev no_invoice_payment : Row
no_invoice_payment = record { id = "invoice-3"; owner = none; others = [] }

-- The payment of the refund of the old payment
abbrev refund_row : PaymentRow
refund_row = record { id = "new"; created_at = 90; refund_request_id = some "request-1" }

abbrev tables : Tables
tables = record {
  payments = record { id = "old"; created_at = 10; refund_request_id = none } ∷ refund_row ∷ [];
  items = row "item-1" "old" ∷ row "item-2" "new" ∷ [];
  taxes = row "tax-1" "old" ∷ [];
  orders = row "order-1" "old" ∷ row "order-2" "new" ∷ [];
  invoices = row "invoice-1" "old" ∷ no_invoice_payment ∷ [];
  refund_requests = row "request-1" "old" ∷ row "request-2" "new" ∷ [];
  refund_items = row "refund-1" "request-1" ∷ row "refund-2" "request-2" ∷ [];
  transactions = row "transaction-1" "old" ∷ [];
  operations = row "operation-1" "old" ∷ [];
  events =
      record { aggregate_id = "old"; occurred_at = 11 }
      ∷ record { aggregate_id = "old"; occurred_at = 80 }
      ∷ [];
  reports = "report" ∷ "other" ∷ [];
  relations =
      record { report_id = "report"; payment_id = "old" }
      ∷ record { report_id = "report"; payment_id = "new" }
      ∷ record { report_id = "other"; payment_id = "new" }
      ∷ [];
  tax_groups = row "group-1" "report" ∷ row "group-2" "other" ∷ [];
  expenses = row "expense-1" "report" ∷ [];
  report_queries = 1;
}

abbrev cleaned : Tables
cleaned = record {
  payments = refund_row ∷ [];
  items = row "item-2" "new" ∷ [];
  taxes = [];
  orders = row "order-2" "new" ∷ [];
  invoices = no_invoice_payment ∷ [];
  refund_requests = row "request-2" "new" ∷ [];
  refund_items = row "refund-2" "request-2" ∷ [];
  transactions = [];
  operations = [];
  events = [];
  reports = "other" ∷ [];
  relations = record { report_id = "other"; payment_id = "new" } ∷ [];
  tax_groups = row "group-2" "other" ∷ [];
  expenses = [];
  report_queries = 1;
}

abbrev shown : PaymentCleanupPreview
shown = record {
  payment_ids = "old" ∷ [];
  affected_report_ids = "report" ∷ [];
  preserved_report_query_count = 1;
  counts = record {
    payment = 1;
    item = 1;
    tax = 1;
    order = 1;
    invoice = 1;
    refund_request = 1;
    refund_item = 1;
    transaction = 1;
    operation = 1;
    event = 1;
    relation = 1;
    report = 1;
    tax_group = 1;
    expense = 1;
  };
}

abbrev archive : String
archive = "0123456789ab-cdef-0123-4567-89ABCDEF"

abbrev request : PaymentCleanupRequest
request = record { before = none; archive_id = archive; confirmation = "DELETE_PAYMENT_DATA" }

abbrev parse_date : String → Option ℕ
parse_date text = some 50

abbrev read_manifest : String → Option PaymentArchiveManifest
read_manifest id = some (record {
  dump_path = "/archives/dump.sql";
  checksum = "abc";
  before = some "1970-01-01T00:00:00.050Z";
  payment_count = 1;
})

abbrev checksum_of : String → Option String
checksum_of path = some "abc"

-- Two events and two relations are deleted, one of each is counted.
cleaned_lem : cleanup parse_date read_manifest checksum_of true request tables ≡ ok (cleaned, shown)
unfolding cleanup check_cleanup assert_archive_intact preview find_payment_ids count_payment_events
    find_affected_report_ids count_by count_refund_items find_refund_request_ids delete_all
    delete_payments delete_reports is_archive_id utf16_length
cleaned_lem = refl

refers_lem : HasOwners tables
refers_lem = record {
  items_refer = (refl, (refl, tt));
  taxes_refer = (refl, tt);
  orders_refer = (refl, (refl, tt));
  invoices_refer = (refl, (tt, tt));
  requests_refer = (refl, (refl, tt));
  refund_items_refer = (refl, (refl, tt));
  transactions_refer = (refl, tt);
  operations_refer = (refl, tt);
  events_refer = (refl, (refl, tt));
  relations_refer = ((refl, refl), ((refl, refl), ((refl, refl), tt)));
  tax_groups_refer = (refl, (refl, tt));
  expenses_refer = (refl, tt);
}

cleanup-HasOwners_example : HasOwners cleaned
cleanup-HasOwners_example =
    cleanup-HasOwners parse_date read_manifest checksum_of true request tables refers_lem
      cleaned_lem

cleanup-IsCounted_example : IsCounted tables cleaned shown
cleanup-IsCounted_example =
    cleanup-IsCounted parse_date read_manifest checksum_of true request tables cleaned_lem

cleanup-dangling_example :
    (find_row "new" cleaned.payments ≡ some refund_row)
    × ¬ (Refers (HasRequest cleaned) refund_row.refund_request_id)
cleanup-dangling_example =
    cleanup-dangling parse_date read_manifest checksum_of true request tables "new" "request-1"
      refund_row cleaned_lem refl refl refl (own_lem, (other_lem, tt))
  where
    own_lem : str_eq "request-1" "request-1" ≡ true → owned ("old" ∷ []) (some "old") ≡ true
    own_lem h = refl

    other_lem : str_eq "request-2" "request-1" ≡ true → owned ("old" ∷ []) (some "new") ≡ true
    other_lem h = h
