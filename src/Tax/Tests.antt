-- ===== src/Tax/Tests.antt =====
-- Two taxes of 20 percent.
use postral_core.Prelude.{◌≡◌, refl, List, [], ◌∷◌, ok, pos, ◌+ℤ◌, ◌-ℤ◌, ◌*ℤ◌}
use postral_core.Amount.{
  Amount, add_number_values, plus_values, minus_number_values, minus_values, multiply_number_values,
  times_values, divide_number_values,
}
use postral_core.Amount.Fractions.{fractions, fractions-IsExact}
use postral_core.Tax.{
  TaxDto, calculate_untaxed_price, calculate_percent, generate_tax_dto, add_taxes, merge_taxes,
}
use postral_core.Tax.Merge.{merge_taxes-sum}

abbrev tax_of : Amount → Amount → Amount → TaxDto Amount
tax_of full tax untaxed = record {
  tax_name = "Total";
  full_amount = full;
  percent = pos 200_000;
  tax_amount = tax;
  untax_amount = untaxed;
}

abbrev two_taxes : List (TaxDto Amount)
two_taxes =
    tax_of (pos 120_000) (pos 20_000) (pos 100_000)
    ∷ tax_of (pos 240_000) (pos 40_000) (pos 200_000)
    ∷ []

merged_lem : merge_taxes fractions two_taxes ≡ ok (tax_of (pos 360_000) (pos 60_000) (pos 300_000))
unfolding merge_taxes add_taxes generate_tax_dto calculate_percent calculate_untaxed_price
    add_number_values plus_values minus_number_values minus_values multiply_number_values
    times_values divide_number_values ◌+ℤ◌ ◌-ℤ◌ ◌*ℤ◌
merged_lem = refl

merge_taxes-sum_example :
    (pos 360_000 ≡ pos 120_000 +ℤ (pos 240_000 +ℤ pos 0))
    × (pos 60_000 ≡ pos 20_000 +ℤ (pos 40_000 +ℤ pos 0))
    × (pos 300_000 +ℤ pos 60_000 ≡ pos 360_000)
merge_taxes-sum_example = merge_taxes-sum fractions-IsExact two_taxes merged_lem
