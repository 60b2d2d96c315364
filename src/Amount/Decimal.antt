-- ===== src/Amount/Decimal.antt =====
-- What the source uses of big.js, and of the conversions between it and JavaScript numbers.
use postral_core.Prelude.{
  ℕ, ◌+◌, ◌*◌, ◌/◌, ◌^◌, ◌<◌, ◌≡◌, Bool, Option, none, some, ℤ, pos, ◌+ℤ◌, ◌-ℤ◌,
}

-- `round(dp)` rounds half up, `round(dp, 0)` truncates.
pub data RoundingMode : Type 0 where
  half_up down : RoundingMode

pub record BigJs (N : Type 0) : Type 1 where
  pub Big : Type 0
  -- `new Big(n)`
  pub of_number : N → Big
  -- `Number(b)`
  pub to_number : Big → N
  -- a whole number that the source writes
  pub literal : ℕ → N
  -- `===` on numbers
  pub same : N → N → Bool
  pub plus : Big → Big → Big
  pub minus : Big → Big → Big
  pub times : Big → Big → Big
  -- `none` is the error that a division by zero throws.
  pub div : Big → Big → Option Big
  pub round : ℕ → RoundingMode → Big → Big

-- A number of at most four decimals is the count of its ten-thousandths.
abbrev pub Amount : Type 0
Amount = ℤ

module _ (b : BigJs Amount) where
  open b use {Big, of_number, to_number, times, div, round}

  abbrev pub rounded : RoundingMode → Option Big → Option Amount
  rounded mode none = none
  rounded mode (some q) = some (to_number (round 4 mode q))

  -- `Number(new Big(total).times(count).div(quantity).round(4, mode))`
  unfoldable pub proportion : RoundingMode → Amount → Amount → Amount → Option Amount
  proportion mode total count quantity =
      rounded mode (div (times (of_number total) (of_number count)) (of_number quantity))

-- The documented behaviour on numbers of four decimals: a sum and a difference are exact, a product
-- is exact, a quotient is right to twenty decimals, and rounding to four decimals is to the nearest
-- (a tie goes up) or towards zero. A divisor below 10^16 ten-thousandths leaves the twentieth
-- decimal too fine to move either rounding.
pub record IsExact (b : BigJs Amount) : Type 0 where
  pub literal_lem : (n : ℕ) → b.literal n ≡ pos (n * 10_000)
  pub number-big : (n : Amount) → b.to_number (b.of_number n) ≡ n
  pub plus-big : (m n : Amount) → b.plus (b.of_number m) (b.of_number n) ≡ b.of_number (m +ℤ n)
  pub minus-big : (m n : Amount) → b.minus (b.of_number m) (b.of_number n) ≡ b.of_number (m -ℤ n)
  pub proportion_nearest :
      (t c q : ℕ)
      → 0 < q
      → q < 10 ^ 16
      → proportion b half_up (pos t) (pos c) (pos q) ≡ some (pos ((2 * (t * c) + q) / (2 * q)))
  pub proportion_down :
      (t c q : ℕ)
      → 0 < q
      → q < 10 ^ 16
      → proportion b down (pos t) (pos c) (pos q) ≡ some (pos ((t * c) / q))
