-- ===== src/Refund/Tests/Items.antt =====
-- Refunds of one piece, and of the two that are left.
use postral_core.Prelude.{
  ℕ, ◌*◌, ◌+◌, ◌<◌, ◌≤◌, ◌≡◌, refl, ap, [], ◌∷◌, ok, pos, pos_part, ◌-ℤ◌, ◌*ℤ◌, ◌+ℤ◌, ◌≤ℤ◌, arith,
}
use postral_core.Amount.{
  proportion, add_number_values, plus_values, minus_number_values, minus_values,
}
use postral_core.Amount.Fractions.{fractions, fractions-IsExact}
use postral_core.Entity.Refund.{RefundRequestItem, over}
use postral_core.Refund.Build.{build_item, allocate_amount, is_final_quantity}
use postral_core.Refund.Build.Final.{build_item_final}
use postral_core.Refund.Build.Share.{IsNear, build_item_share, build_item_drift}
use postral_core.Refund.Tests.Data.{chairs, pieces}

-- One of three pieces.
abbrev pub first_piece : RefundRequestItem
first_piece = record {
  payment_item_id = "line";
  real_item_id = "chair";
  variation = "red";
  refund_count = pos 10_000;
  item_name = "Chair";
  unit_amount = pos 33_333;
  unit_amount_without_tax = over (pos 83_333) (pos 30_000);
  refund_amount = pos 33_333;
  refund_amount_without_tax = pos 27_778;
  refund_tax_amount = pos 5_555;
  item_class = "furniture";
  app_comission_amount = pos 3_333;
  app_comission_percent = pos 100_000;
}

abbrev last_pieces : RefundRequestItem
last_pieces = record first_piece {
  refund_count = pos 20_000;
  refund_amount = pos 66_667;
  refund_amount_without_tax = pos 55_555;
  refund_tax_amount = pos 11_112;
  app_comission_amount = pos 6_667;
}

first_piece_lem : build_item fractions chairs [] (pieces (pos 10_000)) ≡ ok first_piece
unfolding build_item allocate_amount is_final_quantity add_number_values plus_values
    minus_number_values minus_values proportion ◌+ℤ◌ ◌-ℤ◌ ◌*ℤ◌
first_piece_lem = refl

last_pieces_lem :
    build_item fractions chairs (first_piece ∷ []) (pieces (pos 20_000)) ≡ ok last_pieces
unfolding build_item allocate_amount is_final_quantity add_number_values plus_values
    minus_number_values minus_values proportion ◌+ℤ◌ ◌-ℤ◌ ◌*ℤ◌
last_pieces_lem = refl

build_item_final_example :
    (pos 33_333 +ℤ pos 0 +ℤ pos 66_667 ≡ pos 100_000)
    × (pos 27_778 +ℤ pos 0 +ℤ pos 55_555 ≡ pos 83_333)
    × (pos 3_333 +ℤ pos 0 +ℤ pos 6_667 ≡ pos 10_000)
unfolding ◌+ℤ◌
build_item_final_example =
    build_item_final fractions-IsExact chairs (first_piece ∷ []) (pieces (pos 20_000)) refl
      last_pieces_lem

build_item_share_example :
    (a : ℕ) × (first_piece.refund_amount ≡ pos a) × IsNear 100_000 30_000 10_000 a × (a ≤ 100_000)
unfolding ◌+ℤ◌
build_item_share_example =
    build_item_share fractions-IsExact chairs [] (pieces (pos 10_000)) 100_000 30_000 10_000 refl
      refl refl (omega arith) (omega arith) (omega arith) (λ e. omega (arith, ap pos_part e))
      first_piece_lem

build_item_drift_example :
    (2 * (66_667 * 30_000) ≤ 2 * (100_000 * 20_000) + 1 * 30_000 + 2 * (0 * 30_000))
    × (2 * (100_000 * 20_000) + 2 * (0 * 30_000) ≤ 2 * (66_667 * 30_000) + 1 * 30_000)
    × (1 * 30_000 < 2 * (100_000 * 20_000) → pos 1 ≤ℤ pos 66_667)
unfolding ◌+ℤ◌
build_item_drift_example =
    build_item_drift fractions-IsExact chairs (first_piece ∷ []) (pieces (pos 20_000)) 100_000
      30_000 20_000 refl refl refl ((10_000, 33_333, refl, refl, (omega arith, omega arith)), tt)
      refl last_pieces_lem
