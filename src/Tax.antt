-- ===== src/Tax.antt =====
-- libs/common-utils/src/tax-calculations.ts: the tax in a price, over finite numbers. The grouping by
-- percentage goes by the text of a number and is left out.
pub mod Merge
mod Tests
use postral_core.Prelude.{
  String, Option, none, some, List, [], ◌∷◌, Result, ok, err, ◌>>=◌, or_throw,
}
use postral_core.Amount.{
  BigJs, add_number_values, minus_number_values, multiply_number_values, divide_number_values,
}

pub data TaxFailure : Type 0 where
  not_enough_information division_by_zero : TaxFailure

-- libs/payment-common/src/dto/tax.dto.ts
pub record TaxDto (N : Type 0) : Type 0 where
  pub tax_name : String
  pub full_amount : N
  pub percent : N
  pub tax_amount : N
  pub untax_amount : N

module _ {N : Type 0} (b : BigJs N) where
  open b use {literal}

  unfoldable pub calculate_untaxed_price : N → N → N
  calculate_untaxed_price full tax = minus_number_values b full (tax ∷ [])

  unfoldable pub calculate_percent : N → N → Result TaxFailure N
  calculate_percent full tax = do
    let untaxed = calculate_untaxed_price full tax
    quotient ← or_throw (divide_number_values b tax (untaxed ∷ [])) division_by_zero
    ok (multiply_number_values b (quotient ∷ literal 100 ∷ []))

  unfoldable pub calculate_tax_amount : N → N → Result TaxFailure N
  calculate_tax_amount full percent =
      or_throw
        (divide_number_values b (multiply_number_values b (percent ∷ full ∷ []))
          (add_number_values b (percent ∷ literal 100 ∷ []) ∷ []))
        division_by_zero

  unfoldable pub generate_tax_dto : String → N → Option N → Option N → Result TaxFailure (TaxDto N)
  generate_tax_dto name full (some percent) _ = do
    tax ← calculate_tax_amount full percent
    ok (record {
      tax_name = name;
      full_amount = full;
      percent = percent;
      tax_amount = tax;
      untax_amount = calculate_untaxed_price full tax;
    })
  generate_tax_dto name full none (some tax) = do
    percent ← calculate_percent full tax
    ok (record {
      tax_name = name;
      full_amount = full;
      percent = percent;
      tax_amount = tax;
      untax_amount = calculate_untaxed_price full tax;
    })
  generate_tax_dto name full none none = err not_enough_information

  -- the loop of `mergeTaxes`, from the totals so far
  unfoldable pub add_taxes : N → N → List (TaxDto N) → N × N
  add_taxes full tax [] = (full, tax)
  add_taxes full tax (t ∷ taxes) =
      add_taxes (add_number_values b (full ∷ t.full_amount ∷ []))
        (add_number_values b (tax ∷ t.tax_amount ∷ [])) taxes

  unfoldable pub merge_taxes : List (TaxDto N) → Result TaxFailure (TaxDto N)
  merge_taxes taxes =
      let (full, tax) = add_taxes (literal 0) (literal 0) taxes in
      generate_tax_dto "Total" full none (some tax)
