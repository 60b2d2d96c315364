-- ===== src/Amount.antt =====
-- libs/common-utils/src/amount-calculations.ts, over the package big.js.
mod Decimal
pub mod Exact
pub mod Fractions
unfoldable pub use Decimal.*
use postral_core.Prelude.{ℕ, Option, some, none, List, [], ◌∷◌, if◌then◌else◌}

module _ {N : Type 0} (b : BigJs N) where
  open b use {Big, of_number, to_number, literal, same, plus, minus, times, div}

  -- the loop of `addNumberValues`, from the total so far
  unfoldable pub plus_values : Big → List N → Big
  plus_values total [] = total
  plus_values total (value ∷ values) = plus_values (plus total (of_number value)) values

  unfoldable pub add_number_values : List N → N
  add_number_values values = to_number (plus_values (of_number (literal 0)) values)

  -- the loop of `minusNumberValues`
  unfoldable pub minus_values : Big → List N → Big
  minus_values val [] = val
  minus_values val (value ∷ values) = minus_values (minus val (of_number value)) values

  unfoldable pub minus_number_values : N → List N → N
  minus_number_values initial values = to_number (minus_values (of_number initial) values)

  -- the loop of `multiplyNumberValues`
  unfoldable pub times_values : Big → List N → Big
  times_values val [] = val
  times_values val (value ∷ values) = times_values (times val (of_number value)) values

  unfoldable pub multiply_number_values : List N → N
  multiply_number_values values = to_number (times_values (of_number (literal 1)) values)

  abbrev to_optional_number : Option Big → Option N
  to_optional_number none = none
  to_optional_number (some q) = some (to_number q)

  -- `none` is the error 'Division by zero is not allowed'.
  unfoldable pub divide_number_values : N → List N → Option N
  divide_number_values initial values =
      let divisor = multiply_number_values values in
      if same initial (literal 0)
      then some (literal 0)
      else if same divisor (literal 0)
      then none
      else to_optional_number (div (of_number initial) (of_number divisor))

  -- An amount and a percentage of it.
  unfoldable pub calculate_comission_amount_by_percent : N → N → Option N
  calculate_comission_amount_by_percent amount percent =
      divide_number_values (multiply_number_values (amount ∷ percent ∷ [])) (literal 100 ∷ [])
