-- ===== src/Align/Rounding.antt =====
-- density_common.h: the mask arithmetic of the alignment functions is division and remainder.
use native.Mathlib.Nat.{one-le-pow, pow-le-pow_right, pow-suc, le_refl, mul-mod_left, mod_self}
use mathlib.Core.Path.{ap₂}
use density.Base.{
  ℕ, zero, suc, ◌+◌, ◌-◌, ◌*◌, ◌/◌, ◌%◌, ◌^◌, ◌≤◌, ◌<◌, bit_and, bit_xor, ◌≡◌, sym, ap, ◌∙◌, ◌↔◌,
  subst, true, ==_iff, arith, dec_lt,
}
use density.Align.{
  word_mod, add_word, sub_word, bit_not, is_power_of_2, uint_is_aligned, uint_lower_align,
  uint_upper_align, same_page,
}
use density.Align.Bits.{
  bit_and-low_mask, bit_and-high_mask, bit_and-digit, bit_xor_self, eq_of_bit_xor, bit_xor-div,
}

-- A power of two that a size_t holds.
pub record IsAlignment (a : ℕ) : Type 0 where
  pub exponent : ℕ
  pub fits : exponent < 64
  pub power : a ≡ 2 ^ exponent

two_pow-add : (j k : ℕ) → 2 ^ (j + k) ≡ 2 ^ j * 2 ^ k
two_pow-add zero k = let e : 0 + k ≡ k = omega arith in rw e (omega arith)
two_pow-add (suc j) k =
    let e : suc j + k ≡ suc (j + k) = omega arith in
    rw e
      (omega (arith, pow-suc 2 (j + k), two_pow-add j k, ap (λ (t : ℕ). t * 2 ^ k) (pow-suc 2 j)))

-- Two powers that multiply to the modulus.
co_power : (k : ℕ) → k < 64 → 2 ^ (64 - k) * 2 ^ k ≡ word_mod
co_power k h =
    let e : 64 - k + k ≡ 64 = omega arith in sym (two_pow-add (64 - k) k) ∙ ap (λ (t : ℕ). 2 ^ t) e

two_pow-lt : (k : ℕ) → k < 64 → 2 ^ k < word_mod
two_pow-lt k h =
    omega (arith, pow-le-pow_right {n = 2} (omega arith) {i = k} {j = 63} (omega arith))

pub IsAlignment-bounds : {a : ℕ} → IsAlignment a → (0 < a) × (a < word_mod)
IsAlignment-bounds v =
    omega (arith, v.power, one-le-pow v.exponent 2 (omega arith), two_pow-lt v.exponent v.fits)

pred-mul : (n a : ℕ) → 0 < n → (n - 1) * a + a ≡ n * a
pred-mul zero a h = absurd (omega arith)
pred-mul (suc n) a h = let e : suc n - 1 ≡ n = omega arith in rw e (omega arith)

bit_xor-lt : (x y : ℕ) → x < word_mod → y < word_mod → bit_xor x y < word_mod
bit_xor-lt x y hx hy =
    let e : x / 2 ^ 64 ≡ 0 = omega arith in
    let f : y / 2 ^ 64 ≡ 0 = omega arith in
    omega (arith, bit_xor-div 64 x y ∙ ap₂ bit_xor e f ∙ bit_xor_self 0)

module _ {a : ℕ} (v : IsAlignment a) where
  mask-eq : sub_word a 1 ≡ a - 1
  mask-eq = omega (arith, IsAlignment-bounds v)

  upper_bits : ℕ
  upper_bits = 2 ^ (64 - v.exponent)

  upper_bits_lem : upper_bits * a ≡ word_mod
  unfolding upper_bits
  upper_bits_lem = ap (λ (t : ℕ). upper_bits * t) v.power ∙ co_power v.exponent v.fits

  not_mask-eq : bit_not (sub_word a 1) ≡ (upper_bits - 1) * a
  unfolding upper_bits
  not_mask-eq = omega (
    arith,
    mask-eq,
    upper_bits_lem,
    IsAlignment-bounds v,
    pred-mul upper_bits a (one-le-pow (64 - v.exponent) 2 (omega arith)),
  )

  quotient-lt : (x : ℕ) → x < word_mod → x / a < upper_bits
  quotient-lt x h = grind (arith, upper_bits_lem, IsAlignment-bounds v)

  pub high_mask-eq : (x : ℕ) → x < word_mod → bit_and x (bit_not (sub_word a 1)) ≡ x / a * a
  unfolding upper_bits
  high_mask-eq x h =
      ap (bit_and x) (not_mask-eq ∙ ap (λ (t : ℕ). (upper_bits - 1) * t) v.power)
      ∙ bit_and-high_mask v.exponent (64 - v.exponent) x
          (subst (λ t. x / t < upper_bits) v.power (quotient-lt x h))
      ∙ ap (λ (t : ℕ). x / t * t) (sym v.power)

  pub low_mask-eq : (x : ℕ) → bit_and x (sub_word a 1) ≡ x % a
  low_mask-eq x =
      ap (bit_and x) (mask-eq ∙ ap (λ (t : ℕ). t - 1) v.power)
      ∙ bit_and-low_mask v.exponent x
      ∙ ap (λ (t : ℕ). x % t) (sym v.power)

  pub lower_align-eq : (x : ℕ) → x < word_mod → uint_lower_align x a ≡ x / a * a
  unfolding uint_lower_align
  lower_align-eq x h = high_mask-eq x h

  pub upper_align-eq :
      (x : ℕ) → x + (a - 1) < word_mod → uint_upper_align x a ≡ (x + (a - 1)) / a * a
  unfolding uint_upper_align
  upper_align-eq x h =
      let e : add_word x (sub_word a 1) ≡ x + (a - 1) = omega (arith, mask-eq) in
      rw e (high_mask-eq (x + (a - 1)) h)

  -- `uint_is_aligned` says of a number whether it is a multiple of an alignment, a power of two that
  -- a size_t holds.
  pub is_aligned_iff : (x : ℕ) → (uint_is_aligned x a ≡ true) ↔ (x % a ≡ 0)
  unfolding uint_is_aligned
  is_aligned_iff x = rw (low_mask-eq x) (==_iff (x % a) 0)

  -- `same_page` says of two addresses below 2 ^ 64 whether they have the same quotient by the page
  -- alignment, a power of two that a size_t holds.
  pub same_page_iff :
      (x y : ℕ) → x < word_mod → y < word_mod → (same_page a x y ≡ true) ↔ (x / a ≡ y / a)
  unfolding same_page
  same_page_iff x y hx hy =
      rw (high_mask-eq (bit_xor x y) (bit_xor-lt x y hx hy), xor_quotient)
        (
          (λ e.
              eq_of_bit_xor (x / a) (y / a)
                (grind (arith, (==_iff _ 0).0 e, IsAlignment-bounds v))),
          (λ e.
              (==_iff (bit_xor (x / a) (y / a) * a) 0).1
                (rw (e, bit_xor_self (y / a)) (omega arith))),
        )
    where
      xor_quotient : bit_xor x y / a ≡ bit_xor (x / a) (y / a)
      xor_quotient =
          ap (λ (t : ℕ). bit_xor x y / t) v.power
          ∙ bit_xor-div v.exponent x y
          ∙ ap (λ (t : ℕ). bit_xor (x / t) (y / t)) (sym v.power)

-- `uint_lower_align` gives the greatest multiple of the alignment, a power of two that a size_t holds,
-- that is not above its argument, a number below 2 ^ 64.
pub lower_align_bounds :
    (x a : ℕ)
    → IsAlignment a
    → x < word_mod
    → (uint_lower_align x a % a ≡ 0) × (uint_lower_align x a ≤ x) × (x < uint_lower_align x a + a)
lower_align_bounds x a v h =
    rw (lower_align-eq v x h) (grind (arith, IsAlignment-bounds v, mul-mod_left))

-- `uint_upper_align` gives the least multiple of the alignment, a power of two that a size_t holds,
-- that is not below its argument, when the sum that it forms does not wrap.
pub upper_align_bounds :
    (x a : ℕ)
    → IsAlignment a
    → x + (a - 1) < word_mod
    → (uint_upper_align x a % a ≡ 0) × (x ≤ uint_upper_align x a) × (uint_upper_align x a < x + a)
upper_align_bounds x a v h =
    rw (upper_align-eq v x h) (grind (arith, IsAlignment-bounds v, mul-mod_left))

bit_and_self : (n i : ℕ) → i ≤ n → bit_and i i ≡ i
bit_and_self zero i h = let e : i ≡ 0 = omega arith in rw e (bit_and-low_mask 0 0)
bit_and_self (suc n) i h = omega (arith, bit_and-digit i i, bit_and_self n (i / 2) (omega arith))

-- The test of `is_power_of_2`, by induction on the binary digits.
power_of_test : (n i : ℕ) → i ≤ n → 0 < i → bit_and i (i - 1) ≡ 0 → (k : ℕ) × (i ≡ 2 ^ k)
power_of_test zero i h p e = absurd (omega arith)
power_of_test (suc n) i h p e = elim (dec_lt 0 (i % 2)) [
  | yes odd ↦ (
    0,
    omega (
      arith,
      bit_and-digit i (i - 1),
      same_half odd,
      bit_and_self (i / 2) (i / 2) (le_refl (i / 2)),
    ),
  )
  | no even ↦
      let half_test : bit_and (i / 2) (i / 2 - 1) ≡ 0 =
        omega (arith, bit_and-digit i (i - 1), pred_half even) in
      let (k, ih) = power_of_test n (i / 2) (omega arith) (omega arith) half_test in
      (suc k, omega (arith, pow-suc 2 k))
]
  where
    same_half : 0 < i % 2 → bit_and (i / 2) ((i - 1) / 2) ≡ bit_and (i / 2) (i / 2)
    same_half odd = ap (bit_and (i / 2)) (omega arith)

    pred_half : ¬ (0 < i % 2) → bit_and (i / 2) ((i - 1) / 2) ≡ bit_and (i / 2) (i / 2 - 1)
    pred_half even = ap (bit_and (i / 2)) (omega arith)

test_of_power : (k : ℕ) → bit_and (2 ^ k) (2 ^ k - 1) ≡ 0
test_of_power k = bit_and-low_mask k (2 ^ k) ∙ mod_self (2 ^ k)

-- `is_power_of_2` says of a positive number below 2 ^ 64 whether it is a power of two.
pub is_power_of_2_iff :
    (i : ℕ) → 0 < i → i < word_mod → (is_power_of_2 i ≡ true) ↔ ((k : ℕ) × (i ≡ 2 ^ k))
unfolding is_power_of_2
is_power_of_2_iff i p h = (
  (λ e.
      power_of_test i i (le_refl i) p
        (ap (bit_and i) (sym e1) ∙ (==_iff (bit_and i (sub_word i 1)) 0).0 e)),
  (λ (k, e).
      (==_iff (bit_and i (sub_word i 1)) 0).1
        (ap (bit_and i) e1 ∙ ap (λ (t : ℕ). bit_and t (t - 1)) e ∙ test_of_power k)),
)
  where
    e1 : sub_word i 1 ≡ i - 1
    e1 = omega arith

-- Of two powers of two the smaller divides the larger.
pub IsAlignment-divides : {a b : ℕ} → IsAlignment a → IsAlignment b → a ≤ b → b % a ≡ 0
IsAlignment-divides {a} {b} v w h = elim (dec_lt w.exponent v.exponent) [
  | yes lt ↦ absurd (
      omega (
        arith,
        v.power,
        w.power,
        pow-suc 2 w.exponent,
        one-le-pow w.exponent 2 (omega arith),
        pow-le-pow_right {n = 2} (omega arith) {i = suc w.exponent} {j = v.exponent} lt,
      ))
  | no ge ↦
      let split : w.exponent - v.exponent + v.exponent ≡ w.exponent = omega arith in
      let product : b ≡ 2 ^ (w.exponent - v.exponent) * a =
        w.power
        ∙ ap (λ (t : ℕ). 2 ^ t) (sym split)
        ∙ two_pow-add (w.exponent - v.exponent) v.exponent
        ∙ ap (λ (t : ℕ). 2 ^ (w.exponent - v.exponent) * t) (sym v.power) in
      rw product (mul-mod_left (2 ^ (w.exponent - v.exponent)) a)
]
