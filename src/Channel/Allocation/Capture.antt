-- ===== src/Channel/Allocation/Capture.antt =====
-- `refundCaptureAllocations`: what a refund takes from each capture.
use postral_core.Prelude.{
  ◌<◌, ◌^◌, ◌≡◌, refl, ap, ◌∙◌, Bool, true, false, ◌||◌, Bool-cases, inl, inr, arith, List, [], ◌∷◌,
  map, filter, any, All, sum, ok, ℤ, pos, pos_part, ◌+ℤ◌, ◌≤ℤ◌, ◌<ℤ◌, ltb_ℤ, int_laws, eq_of_parts,
  ltb_ℤ→le,
}
use postral_core.Amount.{Amount, BigJs, IsExact, add_number_values}
use postral_core.Amount.Exact.{add_number_values-sum}
use postral_core.Entity.Operation.{PaymentChannelOperation}
use postral_core.Channel.Allocation.{Share, allocate, available_of, refund_capture_allocations}
use postral_core.Channel.Allocation.Total.{amounts, IsWithin, IsLeft, allocate_lem}

ltb_ℤ→lt : (a b : ℤ) → ltb_ℤ a b ≡ true → a <ℤ b
ltb_ℤ→lt a b h = ground arith

le→ltb_ℤ : (a b : ℤ) → b ≤ℤ a → ltb_ℤ a b ≡ false
le→ltb_ℤ a b h = ground arith

or_false : (p q : Bool) → p ≡ false → q ≡ false → (p || q) ≡ false
or_false p q hp hq = rw (hp, hq)

or_false_left : (p q : Bool) → (p || q) ≡ false → p ≡ false
or_false_left p q h = ground arith

or_false_right : (p q : Bool) → (p || q) ≡ false → q ≡ false
or_false_right p q h = ground arith

IsLeft-available :
    (b : BigJs Amount) (previous operations : List PaymentChannelOperation)
    → All (λ o. pos 0 ≤ℤ (available_of b previous o).amount) operations
    → All
        (IsLeft (λ o. (available_of b previous o).amount))
        (map (available_of b previous) operations)
unfolding available_of
IsLeft-available b previous [] h = tt
IsLeft-available b previous (o ∷ operations) (h, hs) =
    ((h, refl), IsLeft-available b previous operations hs)

sum-positive :
    (left_of : PaymentChannelOperation → Amount) (shares : List Share)
    → All (IsWithin left_of) shares
    → (sum (amounts (filter (λ (s : Share). ltb_ℤ (pos 0) s.amount) shares)) ≡ sum (amounts shares))
      × All
          (λ (s : Share). (pos 1 ≤ℤ s.amount) × (s.amount ≤ℤ left_of s.operation))
          (filter (λ (s : Share). ltb_ℤ (pos 0) s.amount) shares)
sum-positive left_of [] h = (refl, tt)
sum-positive left_of (s ∷ shares) (h, hs) =
    let (total, all) = sum-positive left_of shares hs in
    elim (Bool-cases (ltb_ℤ (pos 0) s.amount)) [
      | inl more ↦ rw more (
        ap (λ n. s.amount +ℤ n) total,
        ((omega (arith, ltb_ℤ→lt (pos 0) s.amount more), h.1), all),
      )
      | inr nothing ↦ rw nothing (
        total ∙ (eq_of_parts _ _ (omega (int_laws, h.0, ltb_ℤ→le (pos 0) s.amount nothing))),
        all,
      )
    ]

any_negative :
    (b : BigJs Amount) (previous operations : List PaymentChannelOperation)
    → any (λ (s : Share). ltb_ℤ s.amount (pos 0)) (map (available_of b previous) operations) ≡ false
    → All (λ o. pos 0 ≤ℤ (available_of b previous o).amount) operations
any_negative b previous [] h = tt
any_negative b previous (o ∷ operations) h =
    let first = ltb_ℤ (available_of b previous o).amount (pos 0) in
    let others =
      any (λ (s : Share). ltb_ℤ s.amount (pos 0)) (map (available_of b previous) operations) in
    (
      ltb_ℤ→le (available_of b previous o).amount (pos 0) (or_false_left first others h),
      any_negative b previous operations (or_false_right first others h),
    )

no_negative :
    (b : BigJs Amount) (previous operations : List PaymentChannelOperation)
    → All (λ o. pos 0 ≤ℤ (available_of b previous o).amount) operations
    → any (λ (s : Share). ltb_ℤ s.amount (pos 0)) (map (available_of b previous) operations) ≡ false
no_negative b previous [] h = refl
no_negative b previous (o ∷ operations) (h, hs) =
    or_false _ _ (le→ltb_ℤ (available_of b previous o).amount (pos 0) h)
      (no_negative b previous operations hs)

module _ {b : BigJs Amount} (exact : IsExact b) where
  handed_out :
      (operations previous : List PaymentChannelOperation) (total : Amount)
      → let available = map (available_of b previous) operations in
        let left = add_number_values b (amounts available) in
        All (λ o. pos 0 ≤ℤ (available_of b previous o).amount) operations
        → pos 0 ≤ℤ total
        → total ≤ℤ left
        → pos_part left < 10 ^ 16
        → (out : List Share) × (allocate b total left available ≡ ok out)
          × (sum (amounts out) ≡ total)
          × All (IsWithin (λ o. (available_of b previous o).amount)) out
  handed_out operations previous total all nonneg fits small =
      allocate_lem exact (λ o. (available_of b previous o).amount) total _ _
        (IsLeft-available b previous operations all)
        (add_number_values-sum exact (amounts (map (available_of b previous) operations))) nonneg
        fits small

  -- If the arithmetic is exact, nothing that is left of a capture is negative, what is left of
  -- all of them is below 10 ^ 12 (10 ^ 16 ten-thousandths), and the total is not negative and at
  -- most what is left of all, then the allocation succeeds, its amounts add up to the total, and
  -- each is positive and at most what is left of its capture.
  pub refund_capture_allocations_lem :
      (operations previous : List PaymentChannelOperation) (total : Amount)
      → let left = add_number_values b (amounts (map (available_of b previous) operations)) in
        All (λ o. pos 0 ≤ℤ (available_of b previous o).amount) operations
        → pos 0 ≤ℤ total
        → total ≤ℤ left
        → pos_part left < 10 ^ 16
        → (shares : List Share) × (refund_capture_allocations b operations previous total
            ≡ ok shares)
          × (sum (amounts shares) ≡ total)
          × All
              (λ (s : Share).
                (pos 1 ≤ℤ s.amount) × (s.amount ≤ℤ (available_of b previous s.operation).amount))
              shares
  unfolding refund_capture_allocations
  refund_capture_allocations_lem operations previous total all nonneg fits small =
      let (out, allocated, whole, within) =
        handed_out operations previous total all nonneg fits small in
      let (kept, bounds) = sum-positive (λ o. (available_of b previous o).amount) out within in
      let guard = or_false _ _ (no_negative b previous operations all) (
        le→ltb_ℤ (add_number_values b (amounts (map (available_of b previous) operations))) total
          fits) in
      (
        filter (λ (s : Share). ltb_ℤ (pos 0) s.amount) out,
        rw (guard, allocated),
        kept ∙ whole,
        bounds,
      )
