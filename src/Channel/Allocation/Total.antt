-- ===== src/Channel/Allocation/Total.antt =====
-- The allocations of a refund.
use postral_core.Prelude.{
  ℕ, ◌*◌, ◌/◌, ◌<◌, ◌≤◌, ◌^◌, ◌≡◌, refl, ap, ap₂, ◌∙◌, Bool-cases, inl, inr, arith, List, [], ◌∷◌,
  map, All, sum, ok, pos, pos_part, ◌+ℤ◌, ◌-ℤ◌, ◌≤ℤ◌, eqb_ℤ, int_laws, parts_eq, eq_of_parts,
}
use postral_core.Amount.{Amount, BigJs, IsExact, minus_number_values}
use postral_core.Amount.Exact.{minus_number_values-sum}
use postral_core.Entity.Operation.{PaymentChannelOperation}
use postral_core.Channel.Allocation.{Share, portion, allocate}
use postral_core.Channel.Allocation.Bounds.{eqb_pos, eqb_pos_ne, pos_of, share_bounds}

-- What a step may hand out: at most the share and at most the refund, and the rest of the refund
-- fits into the rest of the captures.
abbrev pub IsPortion : Amount → Amount → Amount → Amount → Type 0
IsPortion remaining left available amount =
    (pos 0 ≤ℤ amount)
    × (amount ≤ℤ available)
    × (amount ≤ℤ remaining)
    × (remaining +ℤ available ≤ℤ left +ℤ amount)

module _ {b : BigJs Amount} (exact : IsExact b) where
  portion_lem :
      (t a l : ℕ)
      → t ≤ l
      → a ≤ l
      → l < 10 ^ 16
      → (amount : Amount) × (portion b (pos t) (pos l) (pos a) ≡ ok amount)
        × IsPortion (pos t) (pos l) (pos a) amount
  unfolding portion
  portion_lem t a l ht ha small = elim (Bool-cases (eqb_ℤ (pos l) (pos 0))) [
    | inl none_left ↦
        let none = eqb_pos l 0 none_left in
        (pos 0, rw none_left, (omega arith, omega arith, omega arith, omega int_laws))
    | inr some_left ↦ elim (Bool-cases (eqb_ℤ (pos l) (pos a))) [
      | inl last ↦
          let same = eqb_pos l a last in
          (pos t, rw (some_left, last), (omega arith, omega arith, omega arith, omega int_laws))
      | inr more ↦
          let positive : 0 < l = omega (arith, eqb_pos_ne l 0 some_left) in
          let (below, within, rest) = share_bounds t a l ht ha positive in
          (
            pos ((t * a) / l),
            rw (some_left, more, exact.proportion_down t a l positive small),
            (omega arith, omega (arith, below), omega (arith, within), omega (int_laws, rest)),
          )
    ]
  ]

  portion-IsPortion :
      (t l a : Amount)
      → pos 0 ≤ℤ t
      → pos 0 ≤ℤ a
      → t ≤ℤ l
      → a ≤ℤ l
      → pos_part l < 10 ^ 16
      → (amount : Amount) × (portion b t l a ≡ ok amount) × IsPortion t l a amount
  portion-IsPortion t l a ht ha tl al small =
      let et = pos_of t ht in
      let ea = pos_of a ha in
      let el = pos_of l (omega (arith, ht, tl)) in
      let (amount, found, bounds) =
        portion_lem (pos_part t) (pos_part a) (pos_part l)
          (omega (arith, parts_eq et, parts_eq el, tl))
          (omega (arith, parts_eq ea, parts_eq el, al)) small in
      (
        amount,
        ap₂ (λ x y. portion b x y a) et el
            ∙ ap (portion b (pos (pos_part t)) (pos (pos_part l))) ea
            ∙ found,
        (
          bounds.0,
          omega (int_laws, parts_eq ea, bounds.1),
          omega (int_laws, parts_eq et, bounds.2),
          omega (int_laws, parts_eq et, parts_eq ea, parts_eq el, bounds.3),
        ),
      )

  minus_one : (m n : Amount) → minus_number_values b m (n ∷ []) ≡ m -ℤ n
  minus_one m n = minus_number_values-sum exact m (n ∷ []) ∙ omega int_laws

-- The amounts of shares.
abbrev pub amounts : List Share → List Amount
amounts shares = map (λ (s : Share). s.amount) shares

-- A share within what an operation has left.
abbrev pub IsWithin : (PaymentChannelOperation → Amount) → Share → Type 0
IsWithin left_of s = (pos 0 ≤ℤ s.amount) × (s.amount ≤ℤ left_of s.operation)

-- What is left of an operation, which is not negative.
abbrev pub IsLeft : (PaymentChannelOperation → Amount) → Share → Type 0
IsLeft left_of s = (pos 0 ≤ℤ s.amount) × (s.amount ≡ left_of s.operation)

sum_nonneg :
    (left_of : PaymentChannelOperation → Amount) (shares : List Share)
    → All (IsLeft left_of) shares
    → pos 0 ≤ℤ sum (amounts shares)
sum_nonneg left_of [] h = omega arith
sum_nonneg left_of (s ∷ shares) (h, hs) = omega (int_laws, h.0, sum_nonneg left_of shares hs)

module _ {b : BigJs Amount} (exact : IsExact b) (left_of : PaymentChannelOperation → Amount) where
  -- The loop hands out the whole refund.
  pub allocate_lem :
      (t l : Amount) (shares : List Share)
      → All (IsLeft left_of) shares
      → l ≡ sum (amounts shares)
      → pos 0 ≤ℤ t
      → t ≤ℤ l
      → pos_part l < 10 ^ 16
      → (out : List Share) × (allocate b t l shares ≡ ok out)
        × (sum (amounts out) ≡ t)
        × All (IsWithin left_of) out
  unfolding allocate
  allocate_lem t l [] hs sums ht tl small =
      ([], refl, eq_of_parts _ _ (omega (arith, parts_eq sums, ht, tl)), tt)
  allocate_lem t l (s ∷ shares) ((h, own), hs) sums ht tl small =
      let rest = sum_nonneg left_of shares hs in
      let (amount, found, (nonneg, below, within, fits)) =
        portion-IsPortion exact t l s.amount ht h tl (omega (int_laws, parts_eq sums, rest))
          small in
      let lower = minus_one exact t amount in
      let fewer = minus_one exact l s.amount in
      let t' = minus_number_values b t (amount ∷ []) in
      let l' = minus_number_values b l (s.amount ∷ []) in
      let sums' : l' ≡ sum (amounts shares) =
        eq_of_parts _ _ (omega (int_laws, parts_eq fewer, parts_eq sums)) in
      let here = pos_of l (omega (arith, ht, tl)) in
      let whole = pos_of l' (omega (int_laws, parts_eq sums', rest)) in
      let (out, allocated, total, all) =
        allocate_lem t' l' shares hs sums' (omega (int_laws, parts_eq lower, within))
          (omega (int_laws, parts_eq lower, parts_eq fewer, fits))
          (omega (int_laws, parts_eq whole, parts_eq fewer, h, small, parts_eq here)) in
      (
        record { operation = s.operation; amount = amount } ∷ out,
        rw (found, allocated),
        eq_of_parts (amount +ℤ sum (amounts out)) t
            (omega (int_laws, parts_eq total, parts_eq lower)),
        ((nonneg, omega (int_laws, parts_eq own, below)), all),
      )
