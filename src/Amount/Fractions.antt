-- ===== src/Amount/Fractions.antt =====
-- Exact fractions meet the laws that the development asks of big.js.
use native.Mathlib.Nat.{mul-div-mul_left}
use postral_core.Prelude.{
  ℕ, zero, suc, ◌+◌, ◌-◌, ◌*◌, ◌/◌, ◌<◌, ◌≡◌, refl, ap, ◌∙◌, Option, none, some, ℤ, pos, negsuc,
  ◌+ℤ◌, ◌-ℤ◌, ◌*ℤ◌, eqb_ℤ, arith, ◌==◌, if◌then◌else◌,
}
use postral_core.Amount.Decimal.{
  BigJs, IsExact, Amount, RoundingMode, half_up, down, rounded, proportion,
}

-- A number of ten-thousandths, as a numerator and a denominator.
abbrev Fraction : Type 0
Fraction = ℤ × ℕ

abbrev plus_fraction : Fraction → Fraction → Fraction
plus_fraction (m, d) (n, e) = (m *ℤ pos e +ℤ n *ℤ pos d, d * e)

abbrev minus_fraction : Fraction → Fraction → Fraction
minus_fraction (m, d) (n, e) = (m *ℤ pos e -ℤ n *ℤ pos d, d * e)

abbrev times_fraction : Fraction → Fraction → Fraction
times_fraction (m, d) (n, e) = (m *ℤ n, 10_000 * (d * e))

abbrev div_fraction : Fraction → Fraction → Option Fraction
div_fraction (m, d) (pos n, e) = if n == 0 then none else some (m *ℤ pos (10_000 * e), d * n)
div_fraction (m, d) (negsuc n, e) = some (m *ℤ negsuc (10_000 * e - 1), d * suc n)

abbrev magnitude_round : RoundingMode → ℕ → ℕ → ℕ
magnitude_round half_up n d = (2 * n + d) / (2 * d)
magnitude_round down n d = n / d

abbrev round_fraction : RoundingMode → Fraction → ℤ
round_fraction mode (pos n, d) = pos (magnitude_round mode n d)
round_fraction mode (negsuc n, d) = pos 0 -ℤ pos (magnitude_round mode (suc n) d)

-- The nearest number of four decimals; a whole numerator is itself.
abbrev nearest : Fraction → ℤ
nearest (n, d) = if d == 1 then n else round_fraction half_up (n, d)

abbrev pub fractions : BigJs Amount
fractions = record {
  Big = Fraction;
  of_number = λ n. (n, 1);
  to_number = nearest;
  literal = λ n. pos (n * 10_000);
  same = eqb_ℤ;
  plus = plus_fraction;
  minus = minus_fraction;
  times = times_fraction;
  div = div_fraction;
  round = λ _ mode q. (round_fraction mode q, 1);
}

*ℤ-one : (n : ℤ) → n *ℤ pos 1 ≡ n
unfolding ◌*ℤ◌
*ℤ-one n = ground arith

*ℤ-pos : (m n : ℕ) → pos m *ℤ pos n ≡ pos (m * n)
unfolding ◌*ℤ◌
*ℤ-pos m n = ground arith

div_fraction-pos :
    (t c q : ℕ)
    → 0 < q
    → div_fraction (times_fraction (pos t, 1) (pos c, 1)) (pos q, 1)
      ≡ some (pos (10_000 * (t * c)), 10_000 * q)
div_fraction-pos t c zero h = elim h [ ]
div_fraction-pos t c (suc q) h = rw (*ℤ-pos t c, *ℤ-pos (t * c) 10_000) (ground arith)

nearest_cancel :
    (n q : ℕ) → (2 * (10_000 * n) + 10_000 * q) / (2 * (10_000 * q)) ≡ (2 * n + q) / (2 * q)
nearest_cancel n q =
    let whole : 2 * (10_000 * n) + 10_000 * q ≡ 10_000 * (2 * n + q) = omega arith in
    let part : 2 * (10_000 * q) ≡ 10_000 * (2 * q) = omega arith in
    rw (whole, part) (mul-div-mul_left (2 * n + q) (2 * q) (omega arith))

proportion_nearest_fractions :
    (t c q : ℕ)
    → 0 < q
    → proportion fractions half_up (pos t) (pos c) (pos q)
      ≡ some (pos ((2 * (t * c) + q) / (2 * q)))
unfolding proportion
proportion_nearest_fractions t c q h =
    ap (rounded fractions half_up) (div_fraction-pos t c q h)
    ∙ ap (λ n. some (pos n)) (nearest_cancel (t * c) q)

proportion_down_fractions :
    (t c q : ℕ)
    → 0 < q
    → proportion fractions down (pos t) (pos c) (pos q) ≡ some (pos ((t * c) / q))
unfolding proportion
proportion_down_fractions t c q h =
    ap (rounded fractions down) (div_fraction-pos t c q h)
    ∙ ap (λ n. some (pos n)) (mul-div-mul_left (t * c) q (omega arith))

pub fractions-IsExact : IsExact fractions
fractions-IsExact = record {
  literal_lem = λ n. refl;
  number-big = λ n. refl;
  plus-big = λ m n. rw (*ℤ-one m, *ℤ-one n) refl;
  minus-big = λ m n. rw (*ℤ-one m, *ℤ-one n) refl;
  proportion_nearest = λ t c q h _. proportion_nearest_fractions t c q h;
  proportion_down = λ t c q h _. proportion_down_fractions t c q h;
}
