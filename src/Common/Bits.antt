-- ===== src/Common/Bits.antt =====
-- `|` of fields that do not overlap, and `&` with a run of ones, as arithmetic on native numbers.
use Prim.Native.Nat.{
  ℕ, zero, suc, ◌+◌, ◌-◌, ◌*◌, ◌/◌, ◌%◌, ◌^◌, ◌≤◌, ◌<◌, min, max, bit_and, bit_or, digits, bitwise,
}
use Prim.Native.Nat.{bit_and-bitwise, bit_or-bitwise}
use mathlib.Core.Path.{◌≡◌, refl, ap, sym, ◌∙◌}
use native.Mathlib.Nat.{
  le_refl, pow-suc, one-le-pow, pow-zero, div-one, mul-one, div-add-mod', mul-div-mul_left,
  div-div-eq-div-mul,
}
use native.Mathlib.Omega.{arith}
use mathlib.Core.Logic.{inl, inr}
use eqp.Common.Tests.{leb, Bool-cases}

-- A number has fewer digits than its size: what fuel is beyond the number makes no difference.
module _ (ends : ℕ → ℕ) (join : ℕ → ℕ → ℕ) where
  one_more : (fuel x y : ℕ) → x ≤ fuel → digits ends join (suc fuel) x y ≡ digits ends join fuel x y
  one_more zero zero y h = refl
  one_more zero (suc x) y h = absurd (omega arith)
  one_more (suc fuel) zero y h = refl
  one_more (suc fuel) (suc x) y h =
      let halves = one_more fuel (suc x / 2) (y / 2) (omega arith) in rw halves

  enough : (fuel x y : ℕ) → x ≤ fuel → digits ends join fuel x y ≡ bitwise ends join x y
  enough zero zero y h = refl
  enough zero (suc x) y h = absurd (omega arith)
  enough (suc fuel) x y h = elim (Bool-cases (leb x fuel)) [
    | inl below ↦ one_more fuel x y (ground arith) ∙ enough fuel x y (ground arith)
    | inr exact ↦ let top : suc fuel ≡ x = ground arith in ap (λ n. digits ends join n x y) top
  ]

-- One digit at a time, from the lowest.
pub bit_or_step : (x y : ℕ) → bit_or x y ≡ bit_or (x / 2) (y / 2) * 2 + max (x % 2) (y % 2)
bit_or_step zero y = simp bit_or-bitwise (omega arith)
bit_or_step (suc x) y =
    let halves = enough (λ b. b) max x (suc x / 2) (y / 2) (omega arith) in
    simp bit_or-bitwise (omega (arith, halves))

pub bit_and_step : (x y : ℕ) → bit_and x y ≡ bit_and (x / 2) (y / 2) * 2 + min (x % 2) (y % 2)
bit_and_step zero y = simp bit_and-bitwise (omega arith)
bit_and_step (suc x) y =
    let halves = enough (λ _. 0) min x (suc x / 2) (y / 2) (omega arith) in
    simp bit_and-bitwise (omega (arith, halves))

zero-bit_or : (b : ℕ) → bit_or 0 b ≡ b
zero-bit_or b = bit_or-bitwise 0 b

bit_or_zero : (n b : ℕ) → b ≤ n → bit_or b 0 ≡ b
bit_or_zero zero zero h = refl
bit_or_zero zero (suc b) h = absurd (omega arith)
bit_or_zero (suc n) zero h = refl
bit_or_zero (suc n) (suc b) h =
    omega (arith, bit_or_step (suc b) 0, bit_or_zero n (suc b / 2) (omega arith))

two-pow : (q k : ℕ) → q * 2 ^ suc k ≡ 2 * (q * 2 ^ k)
two-pow q k = omega (arith, ap (λ (t : ℕ). q * t) (pow-suc 2 k))

-- `lo | (hi << k)` is a sum when `lo` fits `k` bits.
pub bit_or_fields : (k lo hi : ℕ) → lo < 2 ^ k → bit_or lo (hi * 2 ^ k) ≡ lo + hi * 2 ^ k
bit_or_fields zero lo hi h = ground (arith, zero-bit_or hi)
bit_or_fields (suc k) lo hi h =
    ground (
      arith,
      bit_or_step lo (hi * 2 ^ suc k),
      two-pow hi k,
      pow-suc 2 k,
      bit_or_fields k (lo / 2) hi,
    )

-- The same with the high part first.
pub bit_or_high : (k lo hi : ℕ) → lo < 2 ^ k → bit_or (hi * 2 ^ k) lo ≡ lo + hi * 2 ^ k
bit_or_high zero lo hi h = ground (arith, bit_or_zero _ (hi * 1) (le_refl _))
bit_or_high (suc k) lo hi h =
    ground
      (arith, bit_or_step (hi * 2 ^ suc k) lo, two-pow hi k, pow-suc 2 k, bit_or_high k (lo / 2) hi)

zero-bit_and : (b : ℕ) → bit_and 0 b ≡ 0
zero-bit_and b = bit_and-bitwise 0 b

bit_and_zero : (n b : ℕ) → b ≤ n → bit_and b 0 ≡ 0
bit_and_zero zero zero h = refl
bit_and_zero zero (suc b) h = absurd (omega arith)
bit_and_zero (suc n) zero h = refl
bit_and_zero (suc n) (suc b) h =
    omega (arith, bit_and_step (suc b) 0, bit_and_zero n (suc b / 2) (omega arith))

bit_and_low_of : (k q r : ℕ) → r < 2 ^ k → bit_and (q * 2 ^ k + r) (2 ^ k - 1) ≡ r
bit_and_low_of zero q r h = omega (arith, bit_and_zero _ (q * 1 + r) (le_refl _))
bit_and_low_of (suc k) q r h = ground (
  arith,
  bit_and_step (q * 2 ^ suc k + r) (2 ^ suc k - 1),
  two-pow q k,
  pow-suc 2 k,
  one-le-pow k 2,
  bit_and_low_of k q (r / 2),
)

-- `a & (2^k - 1)` is the remainder.
pub bit_and_low : (k a : ℕ) → bit_and a (2 ^ k - 1) ≡ a % 2 ^ k
bit_and_low k a = ground (arith, one-le-pow k 2, bit_and_low_of k (a / 2 ^ k) (a % 2 ^ k))

-- `(a & (m << k)) >> k` is the bits of `m` above the lowest `k` of `a`.
pub bit_and_field : (k a m : ℕ) → bit_and a (m * 2 ^ k) / 2 ^ k ≡ bit_and (a / 2 ^ k) m
bit_and_field zero a m = simp (pow-zero, div-one, mul-one)
bit_and_field (suc k) a m =
    ap (λ t. t / 2 ^ suc k) halved
    ∙ ap (λ t. 2 * bit_and (a / 2) (m * 2 ^ k) / t) (omega (arith, pow-suc 2 k))
    ∙ mul-div-mul_left (bit_and (a / 2) (m * 2 ^ k)) (2 ^ k) (omega arith)
    ∙ bit_and_field k (a / 2) m
    ∙ ap (λ t. bit_and t m)
        (div-div-eq-div-mul a 2 (2 ^ k) ∙ ap (λ t. a / t) (omega (arith, pow-suc 2 k)))
  where
    halved : bit_and a (m * 2 ^ suc k) ≡ 2 * bit_and (a / 2) (m * 2 ^ k)
    halved = ground (arith, bit_and_step a (m * 2 ^ suc k), two-pow m k)

-- The byte of `a` above its lowest `k` bits.
pub bit_and_byte : (k a : ℕ) → bit_and a (255 * 2 ^ k) / 2 ^ k % 256 ≡ a / 2 ^ k % 256
bit_and_byte k a = rw (bit_and_field k a 255) (omega (arith, bit_and_low 8 (a / 2 ^ k)))

-- `a & (m << k)`
pub bit_and_high : (k a m : ℕ) → bit_and a (m * 2 ^ k) ≡ bit_and (a / 2 ^ k) m * 2 ^ k
bit_and_high zero a m = simp (pow-zero, div-one, mul-one)
bit_and_high (suc k) a m =
    let deeper : bit_and (a / 2 / 2 ^ k) m ≡ bit_and (a / 2 ^ suc k) m =
      ap (λ t. bit_and t m)
        (div-div-eq-div-mul a 2 (2 ^ k) ∙ ap (λ t. a / t) (omega (arith, pow-suc 2 k))) in
    let next = bit_and_high k (a / 2) m in
    let half : m * 2 ^ suc k / 2 ≡ m * 2 ^ k = omega (arith, two-pow m k) in
    let step = bit_and_step a (m * 2 ^ suc k) in
    omega (
      arith,
      step,
      ap (λ t. bit_and (a / 2) t) half,
      next,
      two-pow m k,
      two-pow (bit_and (a / 2 ^ suc k) m) k,
      ap (λ t. t * 2 ^ k) deeper,
    )

bit_and_mask_of :
    (k q m r : ℕ)
    → r < 2 ^ k
    → bit_and (q * 2 ^ k + r) (m * 2 ^ k + (2 ^ k - 1)) ≡ bit_and q m * 2 ^ k + r
bit_and_mask_of zero q m r h =
    let e : q * 1 + r ≡ q = omega arith in
    let f : m * 1 + 0 ≡ m = omega arith in rw (e, f) (omega arith)
bit_and_mask_of (suc k) q m r h =
    let one = two-pow q k in
    let two = two-pow m k in
    let size = pow-suc 2 k in
    let some_ = one-le-pow k 2 (omega arith) in
    let low : (q * 2 ^ suc k + r) / 2 ≡ q * 2 ^ k + r / 2 = omega arith in
    let high : (m * 2 ^ suc k + (2 ^ suc k - 1)) / 2 ≡ m * 2 ^ k + (2 ^ k - 1) = omega arith in
    let odd : (m * 2 ^ suc k + (2 ^ suc k - 1)) % 2 ≡ 1 = omega arith in
    let even : (q * 2 ^ suc k + r) % 2 ≡ r % 2 = omega arith in
    let next = bit_and_mask_of k q m (r / 2) (omega arith) in
    omega (
      arith,
      bit_and_step (q * 2 ^ suc k + r) (m * 2 ^ suc k + (2 ^ suc k - 1)),
      ap (λ t. bit_and t ((m * 2 ^ suc k + (2 ^ suc k - 1)) / 2)) low,
      ap (bit_and (q * 2 ^ k + r / 2)) high,
      two-pow (bit_and q m) k,
    )

-- `a & ((m << k) | ones)`: what `m` leaves of the high part, and the low part.
pub bit_and_mask :
    (k a m : ℕ) → bit_and a (m * 2 ^ k + (2 ^ k - 1)) ≡ bit_and (a / 2 ^ k) m * 2 ^ k + a % 2 ^ k
bit_and_mask k a m =
    let whole : a / 2 ^ k * 2 ^ k + a % 2 ^ k ≡ a = div-add-mod' a (2 ^ k) in
    ap (λ t. bit_and t (m * 2 ^ k + (2 ^ k - 1))) (sym whole)
    ∙ bit_and_mask_of k (a / 2 ^ k) m (a % 2 ^ k) (ground (arith, one-le-pow k 2))
