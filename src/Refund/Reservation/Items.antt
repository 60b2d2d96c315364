-- ===== src/Refund/Reservation/Items.antt =====
-- The counters of a payment's items after the refunds of a request.
use postral_core.Prelude.{
  String, ◌≡◌, refl, ap, ◌∙◌, Bool, some, List, [], ◌∷◌, find, update_where, str_eq, str_eq_comm,
  find_key, find-update_where, ◌+ℤ◌, int_laws, Bool-cases, inl, inr, if◌then◌else◌,
}
use postral_core.Amount.{Amount, BigJs, IsExact}
use postral_core.Amount.Exact.{add_number_values-sum}
use postral_core.Entity.Payment.{PaymentItem}
use postral_core.Entity.Refund.{RefundRequestItem}
use postral_core.Refund.Store.{has_item_id, add_refund, add_refunds}
use postral_core.Refund.Reservation.Counts.{count_in}

module _ {b : BigJs Amount} (exact : IsExact b) where
  add_refund-count :
      (n : Amount) (i : PaymentItem)
      → ((add_refund b n i).refund_count ≡ i.refund_count +ℤ n)
        × ((add_refund b n i).quantity ≡ i.quantity)
        × ((add_refund b n i).id ≡ i.id)
  unfolding add_refund
  add_refund-count n i =
      (add_number_values-sum exact (i.refund_count ∷ n ∷ []) ∙ omega int_laws, refl, refl)

  one_refund :
      (n k : Amount) {j l : Bool} (i m y : PaymentItem)
      → j ≡ l
      → m ≡ (if j then add_refund b n i else i)
      → y.refund_count ≡ m.refund_count +ℤ k
      → y.quantity ≡ m.quantity
      → (y.refund_count ≡ i.refund_count +ℤ (if l then n +ℤ k else k)) × (y.quantity ≡ i.quantity)
  one_refund n k {j} {l} i m y same updated counted kept = elim (Bool-cases l) [
    | inl hit ↦
        let (one, quantity, _) = add_refund-count n i in
        let m-eq : m ≡ add_refund b n i = rw (same ∙ hit) at updated in
        rw hit (
          counted
              ∙ ap (λ (m : PaymentItem). m.refund_count +ℤ k) m-eq
              ∙ ap (λ r. r +ℤ k) one
              ∙ omega int_laws,
          kept ∙ ap (λ (m : PaymentItem). m.quantity) m-eq ∙ quantity,
        )
    | inr miss ↦
        let m-eq : m ≡ i = rw (same ∙ miss) at updated in
        rw miss (
          counted ∙ ap (λ (m : PaymentItem). m.refund_count +ℤ k) m-eq,
          kept ∙ ap (λ (m : PaymentItem). m.quantity) m-eq,
        )
  ]

  -- The counter of an item grows by what the request holds of it.
  pub add_refunds-count :
      (id : String) (cs : List RefundRequestItem) (items : List PaymentItem) {y : PaymentItem}
      → find (has_item_id id) (add_refunds b cs items) ≡ some y
      → (i : PaymentItem) × (find (has_item_id id) items ≡ some i)
        × (y.refund_count ≡ i.refund_count +ℤ count_in id cs)
        × (y.quantity ≡ i.quantity)
  unfolding add_refunds
  add_refunds-count id [] items {y} h = (y, h, omega int_laws, refl)
  add_refunds-count id (c ∷ cs) items {y} h =
      let (m, found, counted, kept) =
        add_refunds-count id cs
          (update_where (has_item_id c.payment_item_id) (add_refund b c.refund_count) items) h in
      let (i, before, updated) =
        find-update_where (λ (i : PaymentItem). i.id) (has_item_id c.payment_item_id)
          (add_refund b c.refund_count) (λ x. (add_refund-count c.refund_count x).2) id items
          found in
      let key = find_key (λ (i : PaymentItem). i.id) id items before in
      let test : str_eq i.id c.payment_item_id ≡ str_eq c.payment_item_id id =
        ap (λ k. str_eq k c.payment_item_id) key ∙ str_eq_comm id c.payment_item_id in
      let (total, whole) =
        one_refund c.refund_count (count_in id cs) i m y test updated counted kept in
      (i, before, total, whole)
