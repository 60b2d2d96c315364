-- ===== src/Cleanup/Dangling.antt =====
-- A payment that was made for a refund request of an older payment.
use postral_core.Prelude.{
  ◌≡◌, refl, sym, ap, ◌∙◌, ℕ, String, Bool, true, false, not, Option, none, some, List, [], ◌∷◌,
  find, filter, any, All, includes, str_eq, ok, >>=-returned, ok-injective, Bool-cases, inl, inr,
}
use mathlib.Core.Path.{subst}
use postral_core.Cleanup.{
  Row, PaymentRow, Tables, PaymentCleanupPreview, PaymentArchiveManifest, PaymentCleanupRequest,
  owned, in_ids,
}
use postral_core.Cleanup.Delete.{
  delete_in, delete_reports, delete_payments, delete_all, check_cleanup, cleanup,
}
use postral_core.Cleanup.References.{HasRequest, Refers, differs}

abbrev pub find_row : String → List PaymentRow → Option PaymentRow
find_row id = find (λ (p : PaymentRow). str_eq p.id id)

-- A payment that is not deleted is found still.
find_row-kept :
    (ids : List String) (id : String) (rows : List PaymentRow) {p : PaymentRow}
    → includes ids id ≡ false
    → find_row id rows ≡ some p
    → find_row id (filter (λ (p : PaymentRow). not (includes ids p.id)) rows) ≡ some p
find_row-kept ids id [] out h = cc
find_row-kept ids id (x ∷ rows) out h = elim (Bool-cases (str_eq x.id id)) [
  | inl own ↦ rw (differs ids x.id id out own, own) (rw own at h)
  | inr other ↦
      let rest = find_row-kept ids id rows out (rw other at h) in
      elim (Bool-cases (not (includes ids x.id))) [
        | inl kept ↦ rw (kept, other) rest
        | inr gone ↦ rw gone rest
      ]
]

-- The rows with an ID belong to payments that are listed.
abbrev pub AllOwned : List String → String → List Row → Type 0
AllOwned ids k = All (λ (r : Row). str_eq r.id k ≡ true → owned ids r.owner ≡ true)

unless_owned : (same own : Bool) → (same ≡ true → own ≡ true) → own ≡ false → same ≡ false
unless_owned true own h apart = sym (h refl) ∙ apart
unless_owned false own h apart = refl

delete_in-gone :
    (ids : List String) (k : String) (rows : List Row)
    → AllOwned ids k rows
    → any (λ (r : Row). str_eq r.id k) (delete_in ids rows) ≡ false
delete_in-gone ids k [] h = refl
delete_in-gone ids k (r ∷ rows) (h, hs) =
    let rest = delete_in-gone ids k rows hs in
    elim (Bool-cases (in_ids ids r)) [
      | inl gone ↦ rw gone rest
      | inr kept ↦ rw (kept, unless_owned (str_eq r.id k) (owned ids r.owner) h kept) rest
    ]

nobody-owned : (o : Option String) → owned [] o ≡ false
nobody-owned none = refl
nobody-owned (some id) = refl

none_listed :
    (k : String) (rows : List Row)
    → AllOwned [] k rows
    → any (λ (r : Row). str_eq r.id k) rows ≡ false
none_listed k [] h = refl
none_listed k (r ∷ rows) (h, hs) =
    rw (unless_owned (str_eq r.id k) (owned [] r.owner) h (nobody-owned r.owner))
      (none_listed k rows hs)

delete_payments-dangling :
    (ids : List String) (t : Tables) (q k : String) {p : PaymentRow}
    → includes ids q ≡ false
    → find_row q t.payments ≡ some p
    → AllOwned ids k t.refund_requests
    → (find_row q (delete_payments ids t).payments ≡ some p)
      × (any (λ (r : Row). str_eq r.id k) (delete_payments ids t).refund_requests ≡ false)
unfolding delete_payments
delete_payments-dangling [] t q k out found all = (found, none_listed k t.refund_requests all)
delete_payments-dangling (id ∷ ids) t q k out found all = (
  find_row-kept (id ∷ ids) q t.payments out found,
  delete_in-gone (id ∷ ids) k t.refund_requests all,
)

delete_reports-payments :
    (ids : List String) (t : Tables)
    → ((delete_reports ids t).payments ≡ t.payments)
      × ((delete_reports ids t).refund_requests ≡ t.refund_requests)
unfolding delete_reports
delete_reports-payments [] t = (refl, refl)
delete_reports-payments (id ∷ ids) t = (refl, refl)

module _ (parse_date : String → Option ℕ) (read_manifest : String → Option PaymentArchiveManifest)
    (checksum_of : String → Option String) where
  -- If a payment that was made for a refund request is outside the scope of a cleanup that succeeds,
  -- and the request belongs to a payment in its scope, then the payment stays as it was, but the
  -- request that it names is not there.
  pub cleanup-dangling :
      (enabled : Bool) (request : PaymentCleanupRequest) (t : Tables) {t' : Tables}
      {found : PaymentCleanupPreview} (q k : String) (p : PaymentRow)
      → cleanup parse_date read_manifest checksum_of enabled request t ≡ ok (t', found)
      → find_row q t.payments ≡ some p
      → p.refund_request_id ≡ some k
      → includes found.payment_ids q ≡ false
      → AllOwned found.payment_ids k t.refund_requests
      → (find_row q t'.payments ≡ some p) × ¬ (Refers (HasRequest t') p.refund_request_id)
  unfolding cleanup delete_all
  cleanup-dangling enabled request t {t'} {found} q k p done there names out all =
      let (f, _, last) =
        >>=-returned (check_cleanup parse_date read_manifest checksum_of enabled request t) _
          done in
      let same = ok-injective last in
      let shown : f ≡ found = ap (λ x. x.1) same in
      let (payments, requests) = delete_reports-payments f.affected_report_ids t in
      let (kept, gone) =
        delete_payments-dangling f.payment_ids (delete_reports f.affected_report_ids t) q k
          (ap (λ (f : PaymentCleanupPreview). includes f.payment_ids q) shown ∙ out)
          (ap (find_row q) payments ∙ there)
          (subst
            (λ (g : PaymentCleanupPreview).
              AllOwned g.payment_ids k (delete_reports f.affected_report_ids t).refund_requests)
            (sym shown) (subst (AllOwned found.payment_ids k) (sym requests) all)) in
      (
        sym (ap (λ x. find_row q x.0.payments) same) ∙ kept,
        (λ refers.
            let there : HasRequest t' k = subst (Refers (HasRequest t')) names refers in
            let absent =
              sym (ap (λ x. any (λ (r : Row). str_eq r.id k) x.0.refund_requests) same) ∙ gone in
            cc),
      )
