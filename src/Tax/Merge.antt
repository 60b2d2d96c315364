-- ===== src/Tax/Merge.antt =====
-- The total of taxes.
use postral_core.Prelude.{
  ◌≡◌, sym, ap, ap₂, ◌∙◌, none, some, List, [], ◌∷◌, map, sum, ok, >>=-returned, pos, ◌+ℤ◌, ◌-ℤ◌,
  int_laws,
}
use postral_core.Amount.{Amount, BigJs, IsExact, add_number_values}
use postral_core.Amount.Exact.{add_number_values-sum, minus_number_values-sum}
use postral_core.Tax.{
  TaxDto, calculate_untaxed_price, calculate_percent, generate_tax_dto, add_taxes, merge_taxes,
}

module _ {b : BigJs Amount} (exact : IsExact b) where
  add_taxes-sum :
      (full tax : Amount) (taxes : List (TaxDto Amount))
      → ((add_taxes b full tax taxes).0
          ≡ full +ℤ sum (map (λ (t : TaxDto Amount). t.full_amount) taxes))
        × ((add_taxes b full tax taxes).1
            ≡ tax +ℤ sum (map (λ (t : TaxDto Amount). t.tax_amount) taxes))
  unfolding add_taxes
  add_taxes-sum full tax [] = (omega int_laws, omega int_laws)
  add_taxes-sum full tax (t ∷ taxes) =
      let fulls = add_number_values-sum exact (full ∷ t.full_amount ∷ []) in
      let all = add_number_values-sum exact (tax ∷ t.tax_amount ∷ []) in
      let (left, right) =
        add_taxes-sum (add_number_values b (full ∷ t.full_amount ∷ []))
          (add_number_values b (tax ∷ t.tax_amount ∷ [])) taxes in
      (
        left
            ∙ ap (λ n. n +ℤ sum (map (λ (t : TaxDto Amount). t.full_amount) taxes)) fulls
            ∙ omega int_laws,
        right
            ∙ ap (λ n. n +ℤ sum (map (λ (t : TaxDto Amount). t.tax_amount) taxes)) all
            ∙ omega int_laws,
      )

  generate-parts :
      (full tax : Amount) {t : TaxDto Amount}
      → generate_tax_dto b "Total" full none (some tax) ≡ ok t
      → (t.full_amount ≡ full) × (t.tax_amount ≡ tax) × (t.untax_amount ≡ full -ℤ (tax +ℤ pos 0))
  unfolding generate_tax_dto calculate_untaxed_price
  generate-parts full tax h =
      let (percent, _, done) = >>=-returned (calculate_percent b full tax) _ h in
      (cc, cc, cc (minus_number_values-sum exact full (tax ∷ [])))

  -- If the arithmetic is exact and a merge of taxes succeeds, its full amount and its tax are the
  -- sums of those of the taxes, and its amount before tax and its tax add up to its full amount.
  pub merge_taxes-sum :
      (taxes : List (TaxDto Amount)) {t : TaxDto Amount}
      → merge_taxes b taxes ≡ ok t
      → (t.full_amount ≡ sum (map (λ (t : TaxDto Amount). t.full_amount) taxes))
        × (t.tax_amount ≡ sum (map (λ (t : TaxDto Amount). t.tax_amount) taxes))
        × (t.untax_amount +ℤ t.tax_amount ≡ t.full_amount)
  unfolding merge_taxes
  merge_taxes-sum taxes {t} h =
      let zero_lem = exact.literal_lem 0 in
      let (fulls, all) = add_taxes-sum (b.literal 0) (b.literal 0) taxes in
      let (full, tax, untaxed) = generate-parts _ _ h in
      (
        full
            ∙ fulls
            ∙ ap (λ n. n +ℤ sum (map (λ (t : TaxDto Amount). t.full_amount) taxes)) zero_lem
            ∙ omega int_laws,
        tax
            ∙ all
            ∙ ap (λ n. n +ℤ sum (map (λ (t : TaxDto Amount). t.tax_amount) taxes)) zero_lem
            ∙ omega int_laws,
        ap₂ ◌+ℤ◌ untaxed tax ∙ omega int_laws ∙ sym full,
      )
