-- ===== src/Ledger/Balance.antt =====
-- What a payment debits is what it credits.
use postral_core.Prelude.{
  ◌≡◌, refl, sym, ap, ◌∙◌, inl, inr, String, true, false, List, [], ◌∷◌, ◌++◌, map, pos, ◌+ℤ◌,
  int_laws, sum, any, All, All-append, All-update_where, Bool-cases, if◌then◌else◌,
}
use postral_core.Amount.{Amount, BigJs, IsExact}
use postral_core.Entity.Status.{is_purchase}
use postral_core.Entity.Payment.{Payment, PaymentItem}
use postral_core.Ledger.{
  TransactionType, same_type, AccountPaymentTransactionDto, has_account, first_transaction,
  add_item, post_item, post_items, transactions_of, seller_rotation, customer_rotation,
  customer_transaction,
}
use postral_core.Ledger.Sums.{in_transactions, post_items-amounts, post_items-taxes}

-- The sum of the transactions of one type.
abbrev pub posted :
    TransactionType
    → (AccountPaymentTransactionDto → Amount)
    → List AccountPaymentTransactionDto
    → Amount
posted type f ds = sum (map (λ d. if same_type d.type type then f d else pos 0) ds)

HasType : TransactionType → AccountPaymentTransactionDto → Type 0
HasType type d = d.type ≡ type

module _ (b : BigJs Amount) (correlation : String) (p : Payment) where
  post_item-HasType :
      (ds : List AccountPaymentTransactionDto) (i : PaymentItem)
      → All (HasType (seller_rotation p)) ds
      → All (HasType (seller_rotation p)) (post_item b correlation p ds i)
  unfolding post_item first_transaction add_item HasType
  post_item-HasType ds i h = elim (Bool-cases (any (has_account i.seller_account_id) ds)) [
    | inl known ↦ rw known (
        All-update_where (HasType (seller_rotation p)) (has_account i.seller_account_id)
          (add_item b i) (λ d k. k) ds h)
    | inr new ↦ rw new (
        All-append (HasType (seller_rotation p)) ds (first_transaction correlation p i ∷ []) h
          (refl, tt))
  ]

  post_items-HasType :
      (ds : List AccountPaymentTransactionDto) (is : List PaymentItem)
      → All (HasType (seller_rotation p)) ds
      → All (HasType (seller_rotation p)) (post_items b correlation p ds is)
  unfolding post_items
  post_items-HasType ds [] h = h
  post_items-HasType ds (i ∷ is) h =
      post_items-HasType (post_item b correlation p ds i) is (post_item-HasType ds i h)

module _ (f : AccountPaymentTransactionDto → Amount) where
  posted-append :
      (type : TransactionType) (ds : List AccountPaymentTransactionDto)
      (d : AccountPaymentTransactionDto)
      → posted type f (ds ++ (d ∷ []))
        ≡ posted type f ds +ℤ (if same_type d.type type then f d else pos 0)
  posted-append type [] d = omega int_laws
  posted-append type (e ∷ ds) d = rw (posted-append type ds d) (omega int_laws)

  posted-same :
      (type : TransactionType) (ds : List AccountPaymentTransactionDto)
      → same_type type type ≡ true
      → All (HasType type) ds
      → posted type f ds ≡ in_transactions (λ k. true) f ds
  unfolding HasType
  posted-same type [] same h = refl
  posted-same type (d ∷ ds) same (h, hs) = rw (h, same, posted-same type ds same hs)

  posted-other :
      (type other : TransactionType) (ds : List AccountPaymentTransactionDto)
      → same_type type other ≡ false
      → All (HasType type) ds
      → posted other f ds ≡ pos 0
  unfolding HasType
  posted-other type other [] differs h = refl
  posted-other type other (d ∷ ds) differs (h, hs) =
      rw (h, differs, posted-other type other ds differs hs) (omega int_laws)

  -- All of one type, and one of the other with their sum.
  balanced :
      (type other : TransactionType) (ds : List AccountPaymentTransactionDto)
      (d : AccountPaymentTransactionDto)
      → same_type type type ≡ true
      → same_type other other ≡ true
      → same_type type other ≡ false
      → same_type other type ≡ false
      → All (HasType type) ds
      → d.type ≡ other
      → f d ≡ in_transactions (λ k. true) f ds
      → posted type f (ds ++ (d ∷ [])) ≡ posted other f (ds ++ (d ∷ []))
  balanced type other ds d t o to ot h k total =
      let left : posted type f (ds ++ (d ∷ [])) ≡ in_transactions (λ k. true) f ds +ℤ pos 0 =
        posted-append type ds d ∙ rw (k, ot, posted-same type ds t h) in
      let right : posted other f (ds ++ (d ∷ [])) ≡ pos 0 +ℤ f d =
        posted-append other ds d ∙ rw (k, o, posted-other type other ds to h) in
      left ∙ omega int_laws ∙ ap (λ n. pos 0 +ℤ n) (sym total) ∙ sym right

  balanced-rotations :
      (p : Payment) (ds : List AccountPaymentTransactionDto) (d : AccountPaymentTransactionDto)
      → All (HasType (seller_rotation p)) ds
      → d.type ≡ customer_rotation p
      → f d ≡ in_transactions (λ k. true) f ds
      → posted TransactionType.credit f (ds ++ (d ∷ []))
        ≡ posted TransactionType.debit f (ds ++ (d ∷ []))
  unfolding seller_rotation customer_rotation
  balanced-rotations p ds d h k total = elim (Bool-cases (is_purchase p.type)) [
    | inl purchase ↦
        balanced TransactionType.credit TransactionType.debit ds d refl refl refl refl
          (rw purchase at h) (rw purchase at k) total
    | inr refund ↦ sym (
        balanced TransactionType.debit TransactionType.credit ds d refl refl refl refl
          (rw refund at h) (rw refund at k) total)
  ]

module _ {b : BigJs Amount} (exact : IsExact b) where
  -- If the arithmetic is exact, and a payment's amount and tax are the sums of those of its items,
  -- then its transactions credit as much as they debit, in amounts and in taxes.
  pub transactions_of-balanced :
      (correlation : String) (p : Payment)
      → p.total_amount ≡ sum (map (λ (i : PaymentItem). i.total_amount) p.items)
      → p.tax_amount ≡ sum (map (λ (i : PaymentItem). i.tax_amount) p.items)
      → (posted TransactionType.credit (λ d. d.amount) (transactions_of b correlation p)
          ≡ posted TransactionType.debit (λ d. d.amount) (transactions_of b correlation p))
        × (posted TransactionType.credit (λ d. d.tax_amount) (transactions_of b correlation p)
            ≡ posted TransactionType.debit (λ d. d.tax_amount) (transactions_of b correlation p))
  unfolding transactions_of customer_transaction
  transactions_of-balanced correlation p total tax =
      let types = post_items-HasType b correlation p [] p.items tt in
      let ds = post_items b correlation p [] p.items in
      let d = customer_transaction correlation p in
      (
        balanced-rotations (λ d. d.amount) p ds d types refl
            (total ∙ sym (post_items-amounts exact correlation p (λ k. true) p.items)),
        balanced-rotations (λ d. d.tax_amount) p ds d types refl
            (tax ∙ sym (post_items-taxes exact correlation p (λ k. true) p.items)),
      )
