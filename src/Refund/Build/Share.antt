-- ===== src/Refund/Build/Share.antt =====
-- The refund of a part of an item's quantity takes a rounded share of its amounts.
use native.Mathlib.Decide.{dec_lt}
use native.Mathlib.Nat.{div-mul-le_self, lt-div-mul-add, div-lt_iff_lt-mul, mul-le-mul, le_refl}
use postral_core.Prelude.{
  ℕ, suc, ◌+◌, ◌*◌, ◌/◌, ◌^◌, ◌≤◌, ◌<◌, ◌≡◌, ◌≢◌, refl, sym, ap, ap₂, ◌∙◌, false, List, [], ◌∷◌, ok,
  some, pos, ◌+ℤ◌, ◌≤ℤ◌, pos_part, neg_part, eqb_ℤ, length, All, arith, int_laws, eq_of_parts,
}
use postral_core.Amount.{Amount, BigJs, IsExact, half_up, proportion}
use postral_core.Entity.Payment.{PaymentItem}
use postral_core.Entity.Refund.{RefundRequestItem}
use postral_core.Refund.Checks.{RequestedItem}
use postral_core.Refund.Build.{is_final_quantity, allocate_amount, build_item}
use postral_core.Refund.Build.Final.{
  total_count, total_amount, is_final_quantity_lem, build_item_final,
}

-- An amount of `a` for `n` out of `q` pieces that cost `t` is within half a unit of its share.
abbrev pub IsNear : (t q n a : ℕ) → Type 0
IsNear t q n a = (2 * (a * q) ≤ 2 * (t * n) + q) × (2 * (t * n) ≤ 2 * (a * q) + q)

nearest-IsNear : (t q n : ℕ) → 0 < q → IsNear t q n ((2 * (t * n) + q) / (2 * q))
nearest-IsNear t q n h =
    let whole = 2 * (t * n) + q in
    let below = div-mul-le_self whole (2 * q) in
    let above = lt-div-mul-add {a = whole} {b = 2 * q} (omega arith) in
    (grind (arith, below), grind (arith, above))

nearest-le : (t q n : ℕ) → 0 < q → n ≤ q → (2 * (t * n) + q) / (2 * q) ≤ t
nearest-le t q n h le =
    let most = mul-le-mul (le_refl t) le in
    omega (
      arith,
      (div-lt_iff_lt-mul {k = 2 * q} {x = 2 * (t * n) + q} {y = t + 1} (omega arith)).1
          (omega (arith, most)),
    )

lt_of_mul : (g f q : ℕ) → g * q < f * q → suc g ≤ f
lt_of_mul g f q h = elim (dec_lt g f) [
  | yes lt ↦ lt
  | no not_lt ↦ absurd (omega (arith, mul-le-mul {n₁ = f} {n₂ = g} (omega arith) (le_refl q)))
]

drift_parts :
    (t q n m s f g drift : ℕ)
    → m + n ≡ q
    → s + f ≡ t + g
    → 2 * (s * q) ≤ 2 * (t * m) + drift
    → 2 * (t * m) ≤ 2 * (s * q) + drift
    → (2 * (f * q) ≤ 2 * (t * n) + drift + 2 * (g * q))
      × (2 * (t * n) + 2 * (g * q) ≤ 2 * (f * q) + drift)
      × (drift < 2 * (t * n) → 1 + g ≤ f + 0)
drift_parts t q n m s f g drift pieces money low high =
    let price = ap (λ (x : ℕ). t * x) pieces in
    let paid = ap (λ (x : ℕ). x * q) money in
    let above : 2 * (t * n) + 2 * (g * q) ≤ 2 * (f * q) + drift = omega (arith, price, paid) in
    (omega (arith, price, paid), above, λ more. omega (arith, lt_of_mul g f q (omega arith)))

eqb_ℤ_ne : (m n : Amount) → m ≢ n → eqb_ℤ m n ≡ false
eqb_ℤ_ne m n h = ground (arith, eq_of_parts m n)

-- The shares that a purchase of `q` pieces for `t` gave to earlier requests.
abbrev pub IsShare : (t q : ℕ) → RefundRequestItem → Type 0
IsShare t q c =
    (n : ℕ) × (a : ℕ) × (c.refund_count ≡ pos n) × (c.refund_amount ≡ pos a) × IsNear t q n a

-- What a list of shares adds up to.
total-IsShare :
    (t q : ℕ) (cs : List RefundRequestItem)
    → All (IsShare t q) cs
    → (n : ℕ) × (a : ℕ) × (total_count cs ≡ pos n)
      × (total_amount cs ≡ pos a)
      × (2 * (a * q) ≤ 2 * (t * n) + length cs * q)
      × (2 * (t * n) ≤ 2 * (a * q) + length cs * q)
total-IsShare t q [] h = (0, 0, refl, refl, omega arith, omega arith)
total-IsShare t q (c ∷ cs) ((n, a, en, ea, near), hs) =
    let (m, s, em, es, low, high) = total-IsShare t q cs hs in
    (
      n + m,
      a + s,
      ap₂ ◌+ℤ◌ en em ∙ omega int_laws,
      ap₂ ◌+ℤ◌ ea es ∙ omega int_laws,
      grind (arith, low, near.0),
      grind (arith, high, near.1),
    )

module _ {b : BigJs Amount} (exact : IsExact b) where
  -- If the arithmetic is exact, a request for `n` of `q` pieces of an item that cost `t`, where
  -- `n` is at most `q`, `q` is positive and below 10 ^ 16, and the request does not complete the
  -- quantity, refunds an amount that is not negative, is at most `t`, and is within half a unit
  -- of `t * n / q`.
  pub build_item_share :
      (i : PaymentItem) (reserved : List RefundRequestItem) (r : RequestedItem)
      {c : RefundRequestItem} (t q n : ℕ)
      → i.total_amount ≡ pos t
      → i.quantity ≡ pos q
      → r.refund_count ≡ pos n
      → 0 < q
      → q < 10 ^ 16
      → n ≤ q
      → total_count reserved +ℤ r.refund_count ≢ i.quantity
      → build_item b i reserved r ≡ ok c
      → (a : ℕ) × (c.refund_amount ≡ pos a) × IsNear t q n a × (a ≤ t)
  unfolding build_item allocate_amount
  build_item_share i reserved r {c} t q n et eq en q_pos small le part h =
      let partial : is_final_quantity b i reserved r.refund_count ≡ false =
        is_final_quantity_lem exact i reserved r.refund_count ∙ eqb_ℤ_ne _ _ part in
      let share : proportion b half_up i.total_amount r.refund_count i.quantity
          ≡ some (pos ((2 * (t * n) + q) / (2 * q))) =
        cc (exact.proportion_nearest t n q q_pos small) in
      (
        (2 * (t * n) + q) / (2 * q),
        ground (arith, partial, share),
        nearest-IsNear t q n q_pos,
        nearest-le t q n q_pos le,
      )

  -- If the arithmetic is exact, the refund that completes the quantity of an item (`n` of `q`
  -- pieces that cost `t`), after `k` refunds that were each within half a unit of their share, is
  -- within `k` halves of a unit of `t * n / q`; it is positive if `k * q < 2 * t * n`.
  pub build_item_drift :
      (i : PaymentItem) (reserved : List RefundRequestItem) (r : RequestedItem)
      {c : RefundRequestItem} (t q n : ℕ)
      → i.total_amount ≡ pos t
      → i.quantity ≡ pos q
      → r.refund_count ≡ pos n
      → All (IsShare t q) reserved
      → total_count reserved +ℤ r.refund_count ≡ i.quantity
      → build_item b i reserved r ≡ ok c
      → let drift = length reserved * q in
        (2 * (pos_part c.refund_amount * q)
          ≤ 2 * (t * n) + drift + 2 * (neg_part c.refund_amount * q))
        × (2 * (t * n) + 2 * (neg_part c.refund_amount * q)
            ≤ 2 * (pos_part c.refund_amount * q) + drift)
        × (drift < 2 * (t * n) → pos 1 ≤ℤ c.refund_amount)
  build_item_drift i reserved r {c} t q n et eq en shares full h =
      let (m, s, em, es, low, high) = total-IsShare t q reserved shares in
      let (whole, _, _) = build_item_final exact i reserved r full h in
      let pieces : m + n ≡ q =
        let all = ap₂ ◌+ℤ◌ (sym em) (sym en) ∙ full ∙ eq in
        omega (int_laws, ap pos_part all, ap neg_part all) in
      let money : s + pos_part c.refund_amount ≡ t + neg_part c.refund_amount =
        let left = ap (λ x. x +ℤ c.refund_amount) (sym es) ∙ whole ∙ et in
        omega (int_laws, ap pos_part left, ap neg_part left) in
      drift_parts t q n m s (pos_part c.refund_amount) (neg_part c.refund_amount)
        (length reserved * q) pieces money low high
