-- ===== src/Channel/Allocation/Bounds.antt =====
-- The arithmetic of one step: a share that is rounded down leaves the rest of the refund within the
-- rest of the captures.
use native.Mathlib.Nat.{
  div-mul-le_self, lt-div-mul-add, le_of_mul-le-mul_right, lt_of_mul-lt-mul_right, mul-le-mul,
  le_refl, le_dest,
}
use postral_core.Prelude.{
  ℕ, ◌+◌, ◌*◌, ◌/◌, ◌<◌, ◌≤◌, ◌≡◌, ap, sym, ◌∙◌, ◌≢◌, true, false, eqb_ℤ, arith, ℤ, pos, pos_part,
  ◌≤ℤ◌,
}

pub pos_of : (n : ℤ) → pos 0 ≤ℤ n → n ≡ pos (pos_part n)
pos_of n h = ground arith

-- Of a square, the two bands that a corner leaves.
bands-le : (t u l a : ℕ) → t + u ≡ l → a ≤ l → t * l + a * l ≤ l * l + t * a
bands-le t u l a h ha =
    let split : (t + u) * l ≡ t * l + u * l = grind arith in
    let square = ap (λ (k : ℕ). k * l) (sym h) ∙ split in
    let split' : a * (t + u) ≡ t * a + a * u = grind arith in
    let band = ap (λ (k : ℕ). a * k) (sym h) ∙ split' in
    let fits : a * u ≤ l * u = mul-le-mul ha (le_refl u) in
    let turned : l * u ≡ u * l = grind arith in omega (arith, square, band, fits, turned)

pub share_bounds :
    (t a l : ℕ) → t ≤ l → a ≤ l → 0 < l → let q = (t * a) / l in (q ≤ a) × (q ≤ t) × (t + a ≤ l + q)
share_bounds t a l ht ha hl =
    let q = (t * a) / l in
    let low : q * l ≤ t * a = div-mul-le_self (t * a) l in
    let high : t * a < q * l + l = lt-div-mul-add {a = t * a} {b = l} hl in
    let (u, hu) = le_dest ht in
    let wide : t * a ≤ l * a = mul-le-mul ht (le_refl a) in
    let tall : t * a ≤ t * l = mul-le-mul (le_refl t) ha in
    let turned : l * a ≡ a * l = grind arith in
    let bands = bands-le t u l a hu ha in
    let sums : (t + a) * l ≡ t * l + a * l = grind arith in
    let all : (l + q + 1) * l ≡ l * l + q * l + l = grind arith in
    let above : t + a < l + q + 1 =
      lt_of_mul-lt-mul_right l (omega (arith, bands, sums, all, high)) in
    (
      le_of_mul-le-mul_right (omega (arith, low, wide, turned)) hl,
      le_of_mul-le-mul_right (omega (arith, low, tall)) hl,
      omega (arith, above),
    )

pub eqb_pos : (m n : ℕ) → eqb_ℤ (pos m) (pos n) ≡ true → m ≡ n
eqb_pos m n h = ground arith

pub eqb_pos_ne : (m n : ℕ) → eqb_ℤ (pos m) (pos n) ≡ false → m ≢ n
eqb_pos_ne m n h = ground arith
