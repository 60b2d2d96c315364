-- ===== src/Ledger/Sellers.antt =====
-- The transactions of the sellers: one for each of them, with the sums of its items.
use postral_core.Prelude.{
  ◌≡◌, refl, ◌∙◌, inl, inr, String, Bool, true, false, List, [], ◌∷◌, ◌++◌, any, update_where,
  any-append, Field, field_eq, field_eq_comm, Bool-cases, if◌then◌else◌, ||-eq-false,
}
use postral_core.Amount.{Amount, BigJs}
use postral_core.Entity.Payment.{Payment, PaymentItem}
use postral_core.Ledger.{
  AccountPaymentTransactionDto, has_account, first_transaction, add_item, post_item, post_items,
}

-- No two of the transactions are of one account.
abbrev pub IsPerAccount : List AccountPaymentTransactionDto → Type 0
IsPerAccount [] = Unit
IsPerAccount (d ∷ ds) = (any (has_account d.account_id) ds ≡ false) × IsPerAccount ds

module _ (b : BigJs Amount) (correlation : String) (p : Payment) where
  -- Adding to a transaction changes no account.
  any-added :
      (k : Field) (test : AccountPaymentTransactionDto → Bool) (i : PaymentItem)
      (ds : List AccountPaymentTransactionDto)
      → any (has_account k) (update_where test (add_item b i) ds) ≡ any (has_account k) ds
  unfolding add_item
  any-added k test i [] = refl
  any-added k test i (d ∷ ds) = rw (one (test d), any-added k test i ds)
    where
      one : (t : Bool) → has_account k (if t then add_item b i d else d) ≡ has_account k d
      one true = refl
      one false = refl

  added-IsPerAccount :
      (test : AccountPaymentTransactionDto → Bool) (i : PaymentItem)
      (ds : List AccountPaymentTransactionDto)
      → IsPerAccount ds
      → IsPerAccount (update_where test (add_item b i) ds)
  unfolding add_item
  added-IsPerAccount test i [] h = tt
  added-IsPerAccount test i (d ∷ ds) (h, hs) = (one (test d), added-IsPerAccount test i ds hs)
    where
      one :
          (t : Bool)
          → any
              (has_account (if t then add_item b i d else d).account_id)
              (update_where test (add_item b i) ds)
            ≡ false
      one true = any-added d.account_id test i ds ∙ h
      one false = any-added d.account_id test i ds ∙ h

  new-IsPerAccount :
      (d : AccountPaymentTransactionDto) (ds : List AccountPaymentTransactionDto)
      → any (has_account d.account_id) ds ≡ false
      → IsPerAccount ds
      → IsPerAccount (ds ++ (d ∷ []))
  new-IsPerAccount d [] h k = (refl, tt)
  new-IsPerAccount d (e ∷ ds) h (k, ks) =
      let (other, rest) = ||-eq-false (field_eq e.account_id d.account_id) _ h in
      (
        any-append (has_account e.account_id) ds (d ∷ [])
            ∙ rw (k, field_eq_comm d.account_id e.account_id, other),
        new-IsPerAccount d ds rest ks,
      )

  pub post_item-IsPerAccount :
      (ds : List AccountPaymentTransactionDto) (i : PaymentItem)
      → IsPerAccount ds
      → IsPerAccount (post_item b correlation p ds i)
  unfolding post_item first_transaction
  post_item-IsPerAccount ds i h = elim (Bool-cases (any (has_account i.seller_account_id) ds)) [
    | inl known ↦ rw known (added-IsPerAccount (has_account i.seller_account_id) i ds h)
    | inr new ↦ rw new (new-IsPerAccount (first_transaction correlation p i) ds new h)
  ]

  pub post_items-IsPerAccount :
      (ds : List AccountPaymentTransactionDto) (is : List PaymentItem)
      → IsPerAccount ds
      → IsPerAccount (post_items b correlation p ds is)
  unfolding post_items
  post_items-IsPerAccount ds [] h = h
  post_items-IsPerAccount ds (i ∷ is) h =
      post_items-IsPerAccount (post_item b correlation p ds i) is (post_item-IsPerAccount ds i h)
