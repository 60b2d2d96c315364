-- ===== src/Ledger/Again.antt =====
-- The transactions of a payment that are made a second time replace those made first.
use postral_core.Prelude.{
  ◌≡◌, refl, sym, ap, ap₂, ◌∙◌, ℕ, String, not, List, ◌++◌, map, any, Bool, filter-append,
  filter-filter, filter-none, map_ok, map_ok-ok, Result, ok, err,
}
use mathlib.Core.List.{map-append, append-nil}
use postral_core.Amount.{Amount, BigJs}
use postral_core.Entity.Payment.{Payment}
use postral_core.Ledger.{
  AccountPaymentTransactionDto, AccountPaymentTransaction, transactions_of, LedgerFailure, replaces,
  delete_old_transactions, to_entities, save_rows, create_new, from_payment,
}
use postral_core.Ledger.Content.{
  uncorrelated, content, transactions_of-uncorrelated, delete-uncorrelated, to_entities-replaced,
  to_entities-content,
}

-- The rows that were kept stay, and the rows that were saved go.
delete-saved :
    (uuid : ℕ → String) (n : ℕ) (ds : List AccountPaymentTransactionDto)
    (rows new : List AccountPaymentTransaction)
    → to_entities uuid n ds ≡ ok new
    → delete_old_transactions ds (delete_old_transactions ds rows ++ new)
      ≡ delete_old_transactions ds rows
unfolding delete_old_transactions
delete-saved uuid n ds rows new h =
    let test : AccountPaymentTransaction → Bool = λ r. not (any (λ d. replaces d r) ds) in
    filter-append test (delete_old_transactions ds rows) new
    ∙ ap₂ ◌++◌ (filter-filter test rows) (filter-none test new (to_entities-replaced uuid n ds h))
    ∙ append-nil (delete_old_transactions ds rows)

save_rows-answer :
    (rows : List AccountPaymentTransaction)
    (call : Result LedgerFailure (List AccountPaymentTransaction))
    {new : List AccountPaymentTransaction}
    → (save_rows rows call).1 ≡ ok new
    → call ≡ ok new
unfolding save_rows
save_rows-answer rows (err e) h = cc
save_rows-answer rows (ok new) h = h

create_new-again :
    (uuid uuid' : ℕ → String) (n n' : ℕ) (ds es : List AccountPaymentTransactionDto)
    (rows : List AccountPaymentTransaction) {new : List AccountPaymentTransaction}
    → map uncorrelated ds ≡ map uncorrelated es
    → to_entities uuid n ds ≡ ok new
    → (new' : List AccountPaymentTransaction) × (create_new uuid' n' es
          (delete_old_transactions ds rows ++ new)
        ≡ (delete_old_transactions ds rows ++ new', ok new'))
      × (map content new' ≡ map content new)
unfolding create_new save_rows
create_new-again uuid uuid' n n' ds es rows {new} alike h =
    let kept =
      sym (delete-uncorrelated es (delete_old_transactions ds rows ++ new))
      ∙ ap (λ ds'. delete_old_transactions ds' (delete_old_transactions ds rows ++ new)) (sym alike)
      ∙ delete-uncorrelated ds (delete_old_transactions ds rows ++ new)
      ∙ delete-saved uuid n ds rows new h in
    let again : map_ok (map content) (to_entities uuid' n' es) ≡ ok (map content new) =
      to_entities-content uuid' n' 0 es
      ∙ ap (to_entities (λ _. "") 0) (sym alike)
      ∙ sym (to_entities-content uuid n 0 ds)
      ∙ ap (map_ok (map content)) h in
    let (new', saved, same) = map_ok-ok (map content) (to_entities uuid' n' es) again in
    (new', ap₂ save_rows kept saved, same)

-- If the transactions of a payment were made, then making them again, with any new IDs, succeeds
-- and leaves the same rows but for the IDs and correlation IDs.
pub from_payment-again :
    (b : BigJs Amount) (uuid uuid' : ℕ → String) (n n' : ℕ) (correlation correlation' : String)
    (p : Payment) (rows : List AccountPaymentTransaction) {new : List AccountPaymentTransaction}
    → (from_payment b uuid n correlation p rows).1 ≡ ok new
    → (new' : List AccountPaymentTransaction) × ((from_payment b uuid' n' correlation' p
          (from_payment b uuid n correlation p rows).0).1
        ≡ ok new')
      × (map content
            (from_payment b uuid' n' correlation' p (from_payment b uuid n correlation p rows).0).0
          ≡ map content (from_payment b uuid n correlation p rows).0)
unfolding from_payment create_new save_rows
from_payment-again b uuid uuid' n n' correlation correlation' p rows {new} h =
    let ds = transactions_of b correlation p in
    let es = transactions_of b correlation' p in
    let saved = save_rows-answer (delete_old_transactions ds rows) (to_entities uuid n ds) h in
    let alike =
      transactions_of-uncorrelated b correlation p
      ∙ sym (transactions_of-uncorrelated b correlation' p) in
    let (new', again, same) = create_new-again uuid uuid' n n' ds es rows alike saved in
    let first : create_new uuid n ds rows ≡ (delete_old_transactions ds rows ++ new, ok new) =
      ap (save_rows (delete_old_transactions ds rows)) saved in
    rw (first, again)
      (
        new',
        refl,
        map-append content (delete_old_transactions ds rows) new'
            ∙ ap (λ rs. map content (delete_old_transactions ds rows) ++ rs) same
            ∙ sym (map-append content (delete_old_transactions ds rows) new),
      )
