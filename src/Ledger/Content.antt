-- ===== src/Ledger/Content.antt =====
-- What transactions and rows hold besides the IDs that are new each time.
use postral_core.Prelude.{
  ◌≡◌, refl, sym, ap, ap₂, ◌∙◌, inl, inr, ℕ, suc, String, Bool, true, false, not, ◌&&◌, ◌||◌, List,
  [], ◌∷◌, ◌++◌, map, any, update_where, All, map_ok, ok-injective, ◌>>=◌, Bool-cases,
  if◌then◌else◌, Result, ok, err, >>=-returned, str_eq, str_eq_refl, Field, value, where_text,
  undefined, null,
}
use mathlib.Core.Path.{subst}
use postral_core.Amount.{Amount, BigJs}
use postral_core.Entity.Payment.{Payment, PaymentItem}
use postral_core.Ledger.{
  TransactionType, same_type, AccountPaymentTransactionDto, AccountPaymentTransaction, has_account,
  first_transaction, add_item, post_item, post_items, transactions_of, customer_transaction,
  LedgerFailure, replaces, delete_old_transactions, entity_with, is_null, to_entities,
}

-- A transaction without its correlation ID, and a row without the IDs that are new each time.
abbrev pub uncorrelated : AccountPaymentTransactionDto → AccountPaymentTransactionDto
uncorrelated d = record d { corelation_id = "" }

abbrev pub content : AccountPaymentTransaction → AccountPaymentTransaction
content r = record r { id = ""; corelation_id = "" }

module _ (b : BigJs Amount) (correlation : String) (p : Payment) where
  any-uncorrelated :
      (k : Field) (ds : List AccountPaymentTransactionDto)
      → any (has_account k) (map uncorrelated ds) ≡ any (has_account k) ds
  any-uncorrelated k [] = refl
  any-uncorrelated k (d ∷ ds) = rw (any-uncorrelated k ds)

  add_item-uncorrelated :
      (k : Field) (i : PaymentItem) (ds : List AccountPaymentTransactionDto)
      → map uncorrelated (update_where (has_account k) (add_item b i) ds)
        ≡ update_where (has_account k) (add_item b i) (map uncorrelated ds)
  unfolding add_item
  add_item-uncorrelated k i [] = refl
  add_item-uncorrelated k i (d ∷ ds) =
      ap₂ (λ x xs. x ∷ xs) (one (has_account k d)) (add_item-uncorrelated k i ds)
    where
      one :
          (t : Bool)
          → uncorrelated (if t then add_item b i d else d)
            ≡ (if t then add_item b i (uncorrelated d) else uncorrelated d)
      one true = refl
      one false = refl

  append-uncorrelated :
      (ds : List AccountPaymentTransactionDto) (d : AccountPaymentTransactionDto)
      → map uncorrelated (ds ++ (d ∷ [])) ≡ map uncorrelated ds ++ (uncorrelated d ∷ [])
  append-uncorrelated [] d = refl
  append-uncorrelated (e ∷ ds) d = rw (append-uncorrelated ds d)

  post_item-uncorrelated :
      (ds : List AccountPaymentTransactionDto) (i : PaymentItem)
      → map uncorrelated (post_item b correlation p ds i) ≡ post_item b "" p (map uncorrelated ds) i
  unfolding post_item first_transaction
  post_item-uncorrelated ds i = elim (Bool-cases (any (has_account i.seller_account_id) ds)) [
    | inl known ↦
        rw (any-uncorrelated i.seller_account_id ds, known)
          (add_item-uncorrelated i.seller_account_id i ds)
    | inr new ↦
        rw (any-uncorrelated i.seller_account_id ds, new)
          (append-uncorrelated ds (first_transaction correlation p i))
  ]

  post_items-uncorrelated :
      (ds : List AccountPaymentTransactionDto) (is : List PaymentItem)
      → map uncorrelated (post_items b correlation p ds is)
        ≡ post_items b "" p (map uncorrelated ds) is
  unfolding post_items
  post_items-uncorrelated ds [] = refl
  post_items-uncorrelated ds (i ∷ is) =
      post_items-uncorrelated (post_item b correlation p ds i) is
      ∙ ap (λ ds. post_items b "" p ds is) (post_item-uncorrelated ds i)

  pub transactions_of-uncorrelated :
      map uncorrelated (transactions_of b correlation p) ≡ transactions_of b "" p
  unfolding transactions_of customer_transaction
  transactions_of-uncorrelated =
      append-uncorrelated (post_items b correlation p [] p.items)
        (customer_transaction correlation p)
      ∙ ap (λ ds. ds ++ (customer_transaction "" p ∷ [])) (post_items-uncorrelated [] p.items)

-- The search for old rows does not read the correlation.
any-replaces :
    (r : AccountPaymentTransaction) (ds : List AccountPaymentTransactionDto)
    → any (λ d. replaces d r) (map uncorrelated ds) ≡ any (λ d. replaces d r) ds
any-replaces r [] = refl
any-replaces r (d ∷ ds) = rw (any-replaces r ds)

pub delete-uncorrelated :
    (ds : List AccountPaymentTransactionDto) (rows : List AccountPaymentTransaction)
    → delete_old_transactions (map uncorrelated ds) rows ≡ delete_old_transactions ds rows
unfolding delete_old_transactions
delete-uncorrelated ds [] = refl
delete-uncorrelated ds (r ∷ rows) = rw (any-replaces r ds, delete-uncorrelated ds rows)

same_type_refl : (t : TransactionType) → same_type t t ≡ true
same_type_refl TransactionType.debit = refl
same_type_refl TransactionType.credit = refl

-- A row that was saved replaces its own transaction.
replaces-entity_with :
    (id : String) (k : Field) (d : AccountPaymentTransactionDto) {r : AccountPaymentTransaction}
    → entity_with id k d ≡ ok r
    → (where_text k r.account_id
        && str_eq r.payment_id d.payment_id
        && same_type r.type d.type
        && is_null r.rounding_operation_id)
      ≡ true
unfolding entity_with
replaces-entity_with id undefined d h = cc
replaces-entity_with id null d h = cc
replaces-entity_with id (value s) d h =
    subst
      (λ (r : AccountPaymentTransaction).
        (str_eq r.account_id s
          && str_eq r.payment_id d.payment_id
          && same_type r.type d.type
          && is_null r.rounding_operation_id)
        ≡ true)
      (ok-injective h) (rw (str_eq_refl s, str_eq_refl d.payment_id, same_type_refl d.type))

kept-replaced :
    (d : AccountPaymentTransactionDto) (ds : List AccountPaymentTransactionDto)
    (rows : List AccountPaymentTransaction)
    → All (λ r. not (any (λ d. replaces d r) ds) ≡ false) rows
    → All (λ r. not (any (λ d. replaces d r) (d ∷ ds)) ≡ false) rows
kept-replaced d ds [] h = tt
kept-replaced d ds (r ∷ rows) (h, hs) = (either (replaces d r) _ h, kept-replaced d ds rows hs)
  where
    either : (s t : Bool) → not t ≡ false → not (s || t) ≡ false
    either true t h = refl
    either false t h = h

pub to_entities-replaced :
    (uuid : ℕ → String) (n : ℕ) (ds : List AccountPaymentTransactionDto)
    {rows : List AccountPaymentTransaction}
    → to_entities uuid n ds ≡ ok rows
    → All (λ r. not (any (λ d. replaces d r) ds) ≡ false) rows
unfolding to_entities
to_entities-replaced uuid n [] {rows} h = subst (All (λ r. not false ≡ false)) (ok-injective h) tt
to_entities-replaced uuid n (d ∷ ds) {rows} h =
    let (r, first, h') = >>=-returned (entity_with (uuid n) d.account_id d) _ h in
    let (rs, rest, done) = >>=-returned (to_entities uuid (suc n) ds) _ h' in
    subst (All (λ r. not (any (λ d. replaces d r) (d ∷ ds)) ≡ false)) (ok-injective done) (
      ap (λ t. not (t || any (λ d. replaces d r) ds))
          (replaces-entity_with (uuid n) d.account_id d first),
      kept-replaced d ds rs (to_entities-replaced uuid (suc n) ds rest),
    )

-- What is saved of a transaction does not depend on the IDs.
pub to_entities-content :
    (uuid : ℕ → String) (n m : ℕ) (ds : List AccountPaymentTransactionDto)
    → map_ok (map content) (to_entities uuid n ds) ≡ to_entities (λ _. "") m (map uncorrelated ds)
unfolding to_entities entity_with
to_entities-content uuid n m [] = refl
to_entities-content uuid n m (d ∷ ds) =
    rw (sym (to_entities-content uuid (suc n) (suc m) ds))
      (one (uuid n) d.account_id d (to_entities uuid (suc n) ds))
  where
    one :
        (id : String) (k : Field) (d : AccountPaymentTransactionDto)
        (call : Result LedgerFailure (List AccountPaymentTransaction))
        → map_ok (map content) (entity_with id k d >>= λ r. call >>= λ rs. ok (r ∷ rs)) ≡ (
            entity_with "" k (uncorrelated d) >>= λ r.
            map_ok (map content) call >>= λ rs. ok (r ∷ rs))
    one id undefined d call = refl
    one id null d call = refl
    one id (value s) d (err e) = refl
    one id (value s) d (ok rs) = refl
