-- ===== src/Cleanup/Integrity.antt =====
-- After a cleanup every row still refers to rows that are there.
use postral_core.Prelude.{
  ◌≡◌, sym, ap, ◌∙◌, ℕ, String, Bool, true, false, not, Option, List, [], ◌∷◌, ok, >>=-returned,
  ok-injective, throw_if, or_throw, any-filter, All, All-filter, All-and, All-map, includes, str_eq,
  length, ◌==◌, is_archive_id,
}
use mathlib.Core.Path.{subst}
use postral_core.Cleanup.{
  PaymentRow, EventRow, ReportPaymentRelation, Tables, disabled, not_confirmed, invalid_archive_id,
  manifest_not_found, scope_differs, PaymentCleanupPreview, PaymentArchiveManifest,
  PaymentCleanupRequest, find_refund_request_ids, find_affected_report_ids, find_payment_ids,
  count_payment_events, preview,
}
use postral_core.Cleanup.Delete.{
  delete_reports, delete_payments, delete_all, assert_archive_intact, or_else, check_cleanup,
  cleanup,
}
use postral_core.Cleanup.Kept.{any-request, find_affected_report_ids-All}
use postral_core.Cleanup.References.{
  HasPayment, HasRequest, HasOwners, delete_in-Refers, differs, delete_reports-HasOwners,
  delete_reports-relations, not-false,
}

delete_payments-HasOwners :
    (ids : List String) (t : Tables)
    → HasOwners t
    → All (λ (r : ReportPaymentRelation). includes ids r.payment_id ≡ false) t.relations
    → HasOwners (delete_payments ids t)
unfolding delete_payments
delete_payments-HasOwners [] t h out = h
delete_payments-HasOwners (id ∷ ids) t h out =
    let keeps : (k : String)
        → HasPayment t k
        → includes (id ∷ ids) k ≡ false
        → HasPayment (delete_payments (id ∷ ids) t) k =
      λ k there out.
        any-filter (λ (p : PaymentRow). str_eq p.id k)
          (λ (p : PaymentRow). not (includes (id ∷ ids) p.id))
          (λ (p : PaymentRow) same. differs (id ∷ ids) p.id k out same) t.payments there in
    let keeps_request : (k : String)
        → HasRequest t k
        → includes (find_refund_request_ids (id ∷ ids) t.refund_requests) k ≡ false
        → HasRequest (delete_payments (id ∷ ids) t) k =
      λ k. any-request id ids k t.refund_requests in
    record {
      items_refer = delete_in-Refers _ _ (id ∷ ids) keeps t.items h.items_refer;
      taxes_refer = delete_in-Refers _ _ (id ∷ ids) keeps t.taxes h.taxes_refer;
      orders_refer = delete_in-Refers _ _ (id ∷ ids) keeps t.orders h.orders_refer;
      invoices_refer = delete_in-Refers _ _ (id ∷ ids) keeps t.invoices h.invoices_refer;
      requests_refer = delete_in-Refers _ _ (id ∷ ids) keeps t.refund_requests h.requests_refer;
      refund_items_refer =
          delete_in-Refers _ _ (find_refund_request_ids (id ∷ ids) t.refund_requests) keeps_request
            t.refund_items h.refund_items_refer;
      transactions_refer =
          delete_in-Refers _ _ (id ∷ ids) keeps t.transactions h.transactions_refer;
      operations_refer = delete_in-Refers _ _ (id ∷ ids) keeps t.operations h.operations_refer;
      events_refer =
          All-filter _ _ (λ (e : EventRow). not (includes (id ∷ ids) e.aggregate_id))
            (λ (e : EventRow) there out. keeps e.aggregate_id there (not-false _ out)) t.events
            h.events_refer;
      relations_refer =
          All-map _ _
            (λ (r : ReportPaymentRelation) both. (keeps r.payment_id both.0.0 both.1, both.0.1))
            t.relations (All-and _ _ t.relations h.relations_refer out);
      tax_groups_refer = h.tax_groups_refer;
      expenses_refer = h.expenses_refer;
    }

preview-reports :
    (parse_date : String → Option ℕ) (enabled : Bool) (before : Option String) (t : Tables)
    {found : PaymentCleanupPreview}
    → preview parse_date enabled before t ≡ ok found
    → found.affected_report_ids ≡ find_affected_report_ids found.payment_ids t.relations
unfolding preview
preview-reports parse_date enabled before t h =
    let (_, _, h0) = >>=-returned (throw_if (not enabled) disabled) _ h in
    let (ids, _, h1) = >>=-returned (find_payment_ids parse_date before t.payments) _ h0 in
    let (events, _, h2) = >>=-returned (count_payment_events parse_date ids before t.events) _ h1 in
    let same = ok-injective h2 in
    sym (ap (λ (p : PaymentCleanupPreview). p.affected_report_ids) same)
    ∙ ap (λ (p : PaymentCleanupPreview). find_affected_report_ids p.payment_ids t.relations) same

module _ (parse_date : String → Option ℕ) (read_manifest : String → Option PaymentArchiveManifest)
    (checksum_of : String → Option String) where
  -- A cleanup deletes by a preview of the tables that it finds.
  pub check_cleanup-preview :
      (enabled : Bool) (request : PaymentCleanupRequest) (t : Tables)
      {found : PaymentCleanupPreview}
      → check_cleanup parse_date read_manifest checksum_of enabled request t ≡ ok found
      → (before : Option String) × (preview parse_date enabled before t ≡ ok found)
  unfolding check_cleanup
  check_cleanup-preview enabled request t h =
      let (_, _, h0) = >>=-returned (throw_if (not enabled) disabled) _ h in
      let (_, _, h1) =
        >>=-returned
          (throw_if (not (str_eq request.confirmation "DELETE_PAYMENT_DATA")) not_confirmed) _ h0 in
      let (_, _, h2) =
        >>=-returned (throw_if (not (is_archive_id request.archive_id)) invalid_archive_id) _ h1 in
      let (manifest, _, h3) =
        >>=-returned (or_throw (read_manifest request.archive_id) manifest_not_found) _ h2 in
      let (_, _, h4) =
        >>=-returned (assert_archive_intact parse_date read_manifest checksum_of manifest) _ h3 in
      let (found, shown, h5) =
        >>=-returned (preview parse_date enabled (or_else request.before manifest.before) t) _ h4 in
      let (_, _, h6) =
        >>=-returned
          (throw_if (not (length found.payment_ids == manifest.payment_count)) scope_differs) _
          h5 in
      (or_else request.before manifest.before, shown ∙ h6)

  -- If every row that has an owner (the payment, refund request or report that the cleanup selects
  -- the row by) has one that is there, then after a cleanup that succeeds every row that is left
  -- still has. This is not so of the other IDs that rows hold.
  pub cleanup-HasOwners :
      (enabled : Bool) (request : PaymentCleanupRequest) (t : Tables) {t' : Tables}
      {found : PaymentCleanupPreview}
      → HasOwners t
      → cleanup parse_date read_manifest checksum_of enabled request t ≡ ok (t', found)
      → HasOwners t'
  unfolding cleanup delete_all
  cleanup-HasOwners enabled request t h done =
      let (found, checked, last) =
        >>=-returned (check_cleanup parse_date read_manifest checksum_of enabled request t) _
          done in
      let (before, shown) = check_cleanup-preview enabled request t checked in
      let reports = preview-reports parse_date enabled before t shown in
      subst HasOwners (ap (λ x. x.0) (ok-injective last)) (
        delete_payments-HasOwners found.payment_ids (delete_reports found.affected_report_ids t)
          (delete_reports-HasOwners found.affected_report_ids t h)
          (delete_reports-relations found.payment_ids found.affected_report_ids t (
            subst
              (λ reports.
                All
                  (λ (r : ReportPaymentRelation).
                    includes found.payment_ids r.payment_id ≡ true
                    → includes reports r.report_id ≡ true)
                  t.relations)
              (sym reports) (find_affected_report_ids-All found.payment_ids t.relations))))
