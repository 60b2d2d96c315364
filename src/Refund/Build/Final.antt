-- ===== src/Refund/Build/Final.antt =====
-- The refund that takes the last of an item's quantity takes the rest of its amounts.
use postral_core.Prelude.{
  ◌≡◌, ap, ◌∙◌, true, List, [], ◌∷◌, map, ok, pos, ◌+ℤ◌, ◌-ℤ◌, sum, eqb_ℤ, arith, int_laws,
}
use postral_core.Amount.{Amount, BigJs, IsExact, minus_number_values, add_number_values}
use postral_core.Amount.Exact.{add_number_values-sum, minus_number_values-sum}
use postral_core.Entity.Payment.{PaymentItem}
use postral_core.Entity.Refund.{RefundRequestItem}
use postral_core.Refund.Checks.{RequestedItem}
use postral_core.Refund.Build.{is_final_quantity, allocate_amount, build_item}

-- What the reserved items add up to.
abbrev pub total_count : List RefundRequestItem → Amount
total_count cs = sum (map (λ (c : RefundRequestItem). c.refund_count) cs)

abbrev pub total_amount : List RefundRequestItem → Amount
total_amount cs = sum (map (λ (c : RefundRequestItem). c.refund_amount) cs)

abbrev pub total_without_tax : List RefundRequestItem → Amount
total_without_tax cs = sum (map (λ (c : RefundRequestItem). c.refund_amount_without_tax) cs)

abbrev pub total_tax : List RefundRequestItem → Amount
total_tax cs = sum (map (λ (c : RefundRequestItem). c.refund_tax_amount) cs)

abbrev pub total_comission : List RefundRequestItem → Amount
total_comission cs = sum (map (λ (c : RefundRequestItem). c.app_comission_amount) cs)

module _ {b : BigJs Amount} (exact : IsExact b) where
  -- The flag of `buildRefundRequestItems` compares integers.
  pub is_final_quantity_lem :
      (i : PaymentItem) (reserved : List RefundRequestItem) (count : Amount)
      → is_final_quantity b i reserved count ≡ eqb_ℤ (total_count reserved +ℤ count) i.quantity
  unfolding is_final_quantity
  is_final_quantity_lem i reserved count =
      let cs = map (λ (c : RefundRequestItem). c.refund_count) reserved in
      let whole : sum (add_number_values b cs ∷ count ∷ []) ≡ sum cs +ℤ count =
        ap (λ n. n +ℤ (count +ℤ pos 0)) (add_number_values-sum exact cs) ∙ omega int_laws in
      ap (λ n. eqb_ℤ n i.quantity)
        (add_number_values-sum exact (add_number_values b cs ∷ count ∷ []) ∙ whole)

  cancel : (a n : Amount) → n +ℤ (a -ℤ (n +ℤ pos 0)) ≡ a
  cancel a n = omega int_laws

  rest : (total : Amount) (ns : List Amount) → sum ns +ℤ minus_number_values b total ns ≡ total
  rest total ns = ap (λ n. sum ns +ℤ n) (minus_number_values-sum exact total ns) ∙ omega int_laws

  eqb_ℤ_same : (m n : Amount) → m ≡ n → eqb_ℤ m n ≡ true
  eqb_ℤ_same m n h = rw h (ground arith)

  -- If the arithmetic is exact and a request completes the quantity of a payment item (the
  -- quantities reserved before and the requested one add up to the purchased quantity), then the
  -- refund amounts, the net amounts and the commissions of all its refund items, the new one
  -- included, add up to what the payment item has.
  pub build_item_final :
      (i : PaymentItem) (reserved : List RefundRequestItem) (r : RequestedItem)
      {c : RefundRequestItem}
      → total_count reserved +ℤ r.refund_count ≡ i.quantity
      → build_item b i reserved r ≡ ok c
      → (total_amount reserved +ℤ c.refund_amount ≡ i.total_amount)
        × (total_without_tax reserved +ℤ c.refund_amount_without_tax ≡ i.un_tax_amount)
        × (total_comission reserved +ℤ c.app_comission_amount ≡ i.app_comission_amount)
  unfolding build_item allocate_amount
  build_item_final i reserved r {c} full h =
      let final : is_final_quantity b i reserved r.refund_count ≡ true =
        is_final_quantity_lem i reserved r.refund_count ∙ eqb_ℤ_same _ _ full in
      ground (
        arith,
        final,
        rest i.total_amount (map (λ (c : RefundRequestItem). c.refund_amount) reserved),
        rest i.un_tax_amount
            (map (λ (c : RefundRequestItem). c.refund_amount_without_tax) reserved),
        rest i.app_comission_amount
            (map (λ (c : RefundRequestItem). c.app_comission_amount) reserved),
      )
