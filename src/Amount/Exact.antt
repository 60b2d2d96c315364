-- ===== src/Amount/Exact.antt =====
-- With exact sums the helpers of `AmountCalculationUtil` are the sums of integers.
use postral_core.Prelude.{◌≡◌, ap, ◌∙◌, List, [], ◌∷◌, pos, ◌+ℤ◌, ◌-ℤ◌, sum, int_laws}
use postral_core.Amount.Decimal.{BigJs, IsExact, Amount}
use postral_core.Amount.{add_number_values, minus_number_values, plus_values, minus_values}

module _ {b : BigJs Amount} (exact : IsExact b) where
  open exact use {literal_lem, number-big, plus-big, minus-big}

  plus_values-sum :
      (m : Amount) (ns : List Amount) → plus_values b (b.of_number m) ns ≡ b.of_number (m +ℤ sum ns)
  unfolding plus_values
  plus_values-sum m [] = ap b.of_number (omega int_laws)
  plus_values-sum m (n ∷ ns) =
      rw (plus-big m n) (plus_values-sum (m +ℤ n) ns ∙ ap b.of_number (omega int_laws))

  pub add_number_values-sum : (ns : List Amount) → add_number_values b ns ≡ sum ns
  unfolding add_number_values
  add_number_values-sum ns =
      ap (λ n. b.to_number (plus_values b (b.of_number n) ns)) (literal_lem 0)
      ∙ ap b.to_number (plus_values-sum (pos 0) ns)
      ∙ number-big (pos 0 +ℤ sum ns)
      ∙ omega int_laws

  minus_values-sum :
      (m : Amount) (ns : List Amount)
      → minus_values b (b.of_number m) ns ≡ b.of_number (m -ℤ sum ns)
  unfolding minus_values
  minus_values-sum m [] = ap b.of_number (omega int_laws)
  minus_values-sum m (n ∷ ns) =
      rw (minus-big m n) (minus_values-sum (m -ℤ n) ns ∙ ap b.of_number (omega int_laws))

  pub minus_number_values-sum :
      (m : Amount) (ns : List Amount) → minus_number_values b m ns ≡ m -ℤ sum ns
  unfolding minus_number_values
  minus_number_values-sum m ns = ap b.to_number (minus_values-sum m ns) ∙ number-big (m -ℤ sum ns)
