-- ===== src/Ledger/Sums.antt =====
-- The sums of the sellers' transactions are those of the items.
use postral_core.Prelude.{
  ◌≡◌, refl, sym, ap, ◌∙◌, inl, inr, String, Bool, true, false, List, [], ◌∷◌, ◌++◌, map, pos, ◌+ℤ◌,
  int_laws, sum, any, update_where, update_where-none, Field, field_eq, field_eq→eq, Bool-cases,
  if◌then◌else◌,
}
use postral_core.Amount.{Amount, BigJs, IsExact}
use postral_core.Amount.Exact.{add_number_values-sum}
use postral_core.Entity.Payment.{Payment, PaymentItem}
use postral_core.Ledger.{
  AccountPaymentTransactionDto, has_account, first_transaction, add_item, post_item, post_items,
}
use postral_core.Ledger.Sellers.{IsPerAccount, post_item-IsPerAccount, post_items-IsPerAccount}

-- What the items of the accounts that pass a test sum up to, in the items and in the transactions.
abbrev pub in_items : (Field → Bool) → (PaymentItem → Amount) → List PaymentItem → Amount
in_items test g is = sum (map (λ i. if test i.seller_account_id then g i else pos 0) is)

abbrev pub in_transactions :
    (Field → Bool)
    → (AccountPaymentTransactionDto → Amount)
    → List AccountPaymentTransactionDto
    → Amount
in_transactions test f ds = sum (map (λ d. if test d.account_id then f d else pos 0) ds)

if-add :
    (t : Bool) (m n : Amount)
    → (if t then m +ℤ n else pos 0) ≡ (if t then m else pos 0) +ℤ (if t then n else pos 0)
if-add true m n = refl
if-add false m n = omega int_laws

module _ (b : BigJs Amount) (correlation : String) (p : Payment) (test : Field → Bool)
    (f : AccountPaymentTransactionDto → Amount) (g : PaymentItem → Amount)
    (f-add : (i : PaymentItem) (d : AccountPaymentTransactionDto) → f (add_item b i d) ≡ f d +ℤ g i)
    (f-first : (i : PaymentItem) → f (first_transaction correlation p i) ≡ g i) where
  added-sum :
      (i : PaymentItem) (ds : List AccountPaymentTransactionDto)
      → IsPerAccount ds
      → any (has_account i.seller_account_id) ds ≡ true
      → in_transactions test f (update_where (has_account i.seller_account_id) (add_item b i) ds)
        ≡ in_transactions test f ds +ℤ (if test i.seller_account_id then g i else pos 0)
  unfolding add_item
  added-sum i [] h k = cc
  added-sum i (d ∷ ds) (h, hs) k = elim (Bool-cases (field_eq d.account_id i.seller_account_id)) [
    | inl same ↦
        let account = field_eq→eq d.account_id i.seller_account_id same in
        let others = ap (λ a. any (has_account a) ds) (sym account) ∙ h in
        rw (same, update_where-none (has_account i.seller_account_id) (add_item b i) ds others)
          (ap (λ n. (if test d.account_id then n else pos 0) +ℤ in_transactions test f ds)
              (f-add i d)
            ∙ ap (λ n. n +ℤ in_transactions test f ds) (if-add (test d.account_id) (f d) (g i))
            ∙ ap
                (λ a.
                  ((if test d.account_id then f d else pos 0) +ℤ (if test a then g i else pos 0))
                  +ℤ in_transactions test f ds)
                account
            ∙ omega int_laws)
    | inr other ↦ rw (other, added-sum i ds hs (rw other at k)) (omega int_laws)
  ]

  post_item-sum :
      (ds : List AccountPaymentTransactionDto) (i : PaymentItem)
      → IsPerAccount ds
      → in_transactions test f (post_item b correlation p ds i)
        ≡ in_transactions test f ds +ℤ (if test i.seller_account_id then g i else pos 0)
  unfolding post_item first_transaction
  post_item-sum ds i h = elim (Bool-cases (any (has_account i.seller_account_id) ds)) [
    | inl known ↦ rw known (added-sum i ds h known)
    | inr new ↦ rw new (appended-sum i ds)
  ]
    where
      appended-sum :
          (i : PaymentItem) (ds : List AccountPaymentTransactionDto)
          → in_transactions test f (ds ++ (first_transaction correlation p i ∷ []))
            ≡ in_transactions test f ds +ℤ (if test i.seller_account_id then g i else pos 0)
      appended-sum i [] =
          ap (λ n. (if test i.seller_account_id then n else pos 0) +ℤ pos 0) (f-first i)
          ∙ omega int_laws
      appended-sum i (d ∷ ds) = rw (appended-sum i ds) (omega int_laws)

  pub post_items-sum :
      (ds : List AccountPaymentTransactionDto) (is : List PaymentItem)
      → IsPerAccount ds
      → in_transactions test f (post_items b correlation p ds is)
        ≡ in_transactions test f ds +ℤ in_items test g is
  unfolding post_items
  post_items-sum ds [] h = omega int_laws
  post_items-sum ds (i ∷ is) h =
      post_items-sum (post_item b correlation p ds i) is
        (post_item-IsPerAccount b correlation p ds i h)
      ∙ ap (λ n. n +ℤ in_items test g is) (post_item-sum ds i h)
      ∙ omega int_laws

module _ {b : BigJs Amount} (exact : IsExact b) (correlation : String) (p : Payment) where
  pub post_items-amounts :
      (test : Field → Bool) (is : List PaymentItem)
      → in_transactions test (λ d. d.amount) (post_items b correlation p [] is)
        ≡ in_items test (λ i. i.total_amount) is
  unfolding add_item first_transaction
  post_items-amounts test is =
      post_items-sum b correlation p test (λ d. d.amount) (λ i. i.total_amount)
        (λ i d. add_number_values-sum exact (d.amount ∷ i.total_amount ∷ []) ∙ omega int_laws)
        (λ i. refl) [] is tt
      ∙ omega int_laws

  pub post_items-taxes :
      (test : Field → Bool) (is : List PaymentItem)
      → in_transactions test (λ d. d.tax_amount) (post_items b correlation p [] is)
        ≡ in_items test (λ i. i.tax_amount) is
  unfolding add_item first_transaction
  post_items-taxes test is =
      post_items-sum b correlation p test (λ d. d.tax_amount) (λ i. i.tax_amount)
        (λ i d. add_number_values-sum exact (d.tax_amount ∷ i.tax_amount ∷ []) ∙ omega int_laws)
        (λ i. refl) [] is tt
      ∙ omega int_laws

  -- If the arithmetic is exact, the loop over the items leaves no two transactions of one seller,
  -- and for each account the amounts and the taxes of its transactions sum up to those of its items.
  pub post_items-per_seller :
      (is : List PaymentItem)
      → IsPerAccount (post_items b correlation p [] is)
        × ((account : Field)
            → (in_transactions (field_eq account) (λ d. d.amount) (post_items b correlation p [] is)
                ≡ in_items (field_eq account) (λ i. i.total_amount) is)
              × (in_transactions
                    (field_eq account)
                    (λ d. d.tax_amount)
                    (post_items b correlation p [] is)
                  ≡ in_items (field_eq account) (λ i. i.tax_amount) is))
  post_items-per_seller is = (
    post_items-IsPerAccount b correlation p [] is tt,
    λ account. (post_items-amounts (field_eq account) is, post_items-taxes (field_eq account) is),
  )
