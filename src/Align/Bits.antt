-- ===== src/Align/Bits.antt =====
-- The bit operations of density_common.h at variables, as arithmetic: `x & (2 ^ k - 1)`,
-- `x & ~(2 ^ k - 1)` and `(x ^ y) & ~(2 ^ k - 1)`, for every width.
use Prim.Native.Nat.{digits, bitwise, differ, bit_and-bitwise, bit_xor-bitwise, bit_or-bitwise}
use native.Mathlib.Nat.{pow-suc, one-le-pow, le_refl, mod-eq_of_lt}
use mathlib.Core.Path.{ap₂}
use density.Base.{
  ℕ, zero, suc, ◌+◌, ◌-◌, ◌*◌, ◌/◌, ◌%◌, ◌^◌, ◌≤◌, ◌<◌, min, max, bit_and, bit_xor, bit_or, ◌≡◌,
  refl, sym, ap, ◌∙◌, arith,
}

module _ (z : ℕ → ℕ) (op : ℕ → ℕ → ℕ) where
  -- Fuel above the first operand makes no difference.
  digits_irrelevant : (m n a b : ℕ) → a ≤ m → a ≤ n → digits z op m a b ≡ digits z op n a b
  digits_irrelevant zero zero a b hm hn = refl
  digits_irrelevant zero (suc n) zero b hm hn = refl
  digits_irrelevant zero (suc n) (suc a) b hm hn = absurd (omega arith)
  digits_irrelevant (suc m) zero zero b hm hn = refl
  digits_irrelevant (suc m) zero (suc a) b hm hn = absurd (omega arith)
  digits_irrelevant (suc m) (suc n) zero b hm hn = refl
  digits_irrelevant (suc m) (suc n) (suc a) b hm hn =
      let ih = digits_irrelevant m n (suc a / 2) (b / 2) (omega arith) (omega arith) in
      ap (λ t. t * 2 + op (suc a % 2) (b % 2)) ih

  lowest_digit :
      (a b : ℕ)
      → bitwise z op (suc a) b ≡ bitwise z op (suc a / 2) (b / 2) * 2 + op (suc a % 2) (b % 2)
  lowest_digit a b =
      let e = digits_irrelevant a (suc a / 2) (suc a / 2) (b / 2) (omega arith) (le_refl _) in
      ap (λ t. t * 2 + op (suc a % 2) (b % 2)) e

pub bit_and-digit : (a b : ℕ) → bit_and a b ≡ bit_and (a / 2) (b / 2) * 2 + min (a % 2) (b % 2)
bit_and-digit zero b = simp bit_and-bitwise (omega arith)
bit_and-digit (suc a) b = simp bit_and-bitwise (lowest_digit (λ y. 0) min a b)

pub bit_or-digit : (a b : ℕ) → bit_or a b ≡ bit_or (a / 2) (b / 2) * 2 + max (a % 2) (b % 2)
bit_or-digit zero b = simp bit_or-bitwise (omega arith)
bit_or-digit (suc a) b = simp bit_or-bitwise (lowest_digit (λ y. y) max a b)

differ-digit : (a b : ℕ) → a < 2 → b < 2 → differ a b ≡ (a + b) % 2
differ-digit zero zero h k = refl
differ-digit zero (suc zero) h k = refl
differ-digit (suc zero) zero h k = refl
differ-digit (suc zero) (suc zero) h k = refl
differ-digit zero (suc (suc b)) h k = absurd (omega arith)
differ-digit (suc zero) (suc (suc b)) h k = absurd (omega arith)
differ-digit (suc (suc a)) b h k = absurd (omega arith)

zero-bit_xor : (b : ℕ) → bit_xor 0 b ≡ b
zero-bit_xor b = bit_xor-bitwise 0 b

pub bit_xor-digit : (a b : ℕ) → bit_xor a b ≡ bit_xor (a / 2) (b / 2) * 2 + (a % 2 + b % 2) % 2
bit_xor-digit zero b = omega (arith, zero-bit_xor b, zero-bit_xor (b / 2))
bit_xor-digit (suc a) b = simp bit_xor-bitwise (
    lowest_digit (λ y. y) differ a b
    ∙ ap (λ t. bitwise (λ y. y) differ (suc a / 2) (b / 2) * 2 + t)
        (differ-digit (suc a % 2) (b % 2) (omega arith) (omega arith)))

two_pow-suc : (k : ℕ) → 2 ^ suc k ≡ 2 * 2 ^ k
two_pow-suc k = omega (arith, pow-suc 2 k)

two_pow-pos : (k : ℕ) → 1 ≤ 2 ^ k
two_pow-pos k = one-le-pow k 2 (omega arith)

bit_and-zero_fuel : (n a : ℕ) → a ≤ n → bit_and a 0 ≡ 0
bit_and-zero_fuel n zero h = simp bit_and-bitwise refl
bit_and-zero_fuel zero (suc a) h = absurd (omega arith)
bit_and-zero_fuel (suc n) (suc a) h =
    omega (arith, bit_and-digit (suc a) 0, bit_and-zero_fuel n (suc a / 2) (omega arith))

mul-two_pow-suc : (q k : ℕ) → q * 2 ^ suc k ≡ 2 * (q * 2 ^ k)
mul-two_pow-suc q k = omega (arith, ap (λ (t : ℕ). q * t) (pow-suc 2 k))

low_fields : (k q r : ℕ) → r < 2 ^ k → bit_and (q * 2 ^ k + r) (2 ^ k - 1) ≡ r
low_fields zero q r h =
    omega (arith, bit_and-zero_fuel (q * 1 + r) (q * 1 + r) (le_refl (q * 1 + r)))
low_fields (suc k) q r h = ground (
  arith,
  bit_and-digit (q * 2 ^ suc k + r) (2 ^ suc k - 1),
  mul-two_pow-suc q k,
  two_pow-suc k,
  two_pow-pos k,
  low_fields k q (r / 2) (omega (arith, two_pow-suc k)),
)

bit_or-zero_fuel : (n a : ℕ) → a ≤ n → bit_or a 0 ≡ a
bit_or-zero_fuel n zero h = simp bit_or-bitwise refl
bit_or-zero_fuel zero (suc a) h = absurd (omega arith)
bit_or-zero_fuel (suc n) (suc a) h =
    omega (arith, bit_or-digit (suc a) 0, bit_or-zero_fuel n (suc a / 2) (omega arith))

pub bit_or-zero : (a : ℕ) → bit_or a 0 ≡ a
bit_or-zero a = bit_or-zero_fuel a a (le_refl a)

-- `x & (2 ^ k - 1)` is the remainder.
pub bit_and-low_mask : (k x : ℕ) → bit_and x (2 ^ k - 1) ≡ x % 2 ^ k
bit_and-low_mask k x = ground (arith, two_pow-pos k, low_fields k (x / 2 ^ k) (x % 2 ^ k))

high_fields : (k q r m : ℕ) → r < 2 ^ k → bit_and (q * 2 ^ k + r) (m * 2 ^ k) ≡ bit_and q m * 2 ^ k
high_fields zero q r m h =
    let e : q * 2 ^ 0 + r ≡ q = omega arith in
    let f : m * 2 ^ 0 ≡ m = omega arith in rw (e, f) (omega arith)
high_fields (suc k) q r m h = ground (
  arith,
  bit_and-digit (q * 2 ^ suc k + r) (m * 2 ^ suc k),
  mul-two_pow-suc q k,
  mul-two_pow-suc m k,
  mul-two_pow-suc (bit_and q m) k,
  two_pow-suc k,
  high_fields k q (r / 2) m (omega (arith, two_pow-suc k)),
)

div_mod : (k x : ℕ) → x / 2 ^ k * 2 ^ k + x % 2 ^ k ≡ x
div_mod k x = let pos = two_pow-pos k in grind arith

-- `x & ~(2 ^ k - 1)`, where `x` has `j` bits above the lowest `k`.
pub bit_and-high_mask :
    (k j x : ℕ) → x / 2 ^ k < 2 ^ j → bit_and x ((2 ^ j - 1) * 2 ^ k) ≡ x / 2 ^ k * 2 ^ k
bit_and-high_mask k j x h =
    ap (λ (t : ℕ). bit_and t ((2 ^ j - 1) * 2 ^ k)) (sym (div_mod k x))
    ∙ high_fields k (x / 2 ^ k) (x % 2 ^ k) (2 ^ j - 1) (omega (arith, two_pow-pos k))
    ∙ ap (λ (t : ℕ). t * 2 ^ k) (bit_and-low_mask j (x / 2 ^ k) ∙ mod-eq_of_lt h)

xor_fields :
    (k q p r s : ℕ)
    → r < 2 ^ k
    → s < 2 ^ k
    → (t : ℕ) × (t < 2 ^ k) × (bit_xor (q * 2 ^ k + r) (p * 2 ^ k + s) ≡ bit_xor q p * 2 ^ k + t)
xor_fields zero q p r s h g =
    let e : q * 2 ^ 0 + r ≡ q = omega arith in
    let f : p * 2 ^ 0 + s ≡ p = omega arith in (0, omega arith, rw (e, f) (omega arith))
xor_fields (suc k) q p r s h g =
    let (t, small, e) =
      xor_fields k q p (r / 2) (s / 2) (omega (arith, two_pow-suc k))
        (omega (arith, two_pow-suc k)) in
    (
      2 * t + (r % 2 + s % 2) % 2,
      omega (arith, two_pow-suc k),
      ground (
        arith,
        e,
        bit_xor-digit (q * 2 ^ suc k + r) (p * 2 ^ suc k + s),
        mul-two_pow-suc q k,
        mul-two_pow-suc p k,
        mul-two_pow-suc (bit_xor q p) k,
      ),
    )

xor_zero_fuel : (n a b : ℕ) → a ≤ n → b ≤ n → bit_xor a b ≡ 0 → a ≡ b
xor_zero_fuel zero a b h g e = omega arith
xor_zero_fuel (suc n) a b h g e = ground (
  arith,
  bit_xor-digit a b,
  xor_zero_fuel n (a / 2) (b / 2) (omega arith) (omega arith) (omega (arith, bit_xor-digit a b)),
)

xor_self_fuel : (n a : ℕ) → a ≤ n → bit_xor a a ≡ 0
xor_self_fuel zero a h = let e : a ≡ 0 = omega arith in rw e (zero-bit_xor 0)
xor_self_fuel (suc n) a h = omega (arith, bit_xor-digit a a, xor_self_fuel n (a / 2) (omega arith))

pub bit_xor_self : (a : ℕ) → bit_xor a a ≡ 0
bit_xor_self a = xor_self_fuel a a (le_refl a)

pub eq_of_bit_xor : (a b : ℕ) → bit_xor a b ≡ 0 → a ≡ b
eq_of_bit_xor a b e = xor_zero_fuel (a + b) a b (omega arith) (omega arith) e

-- The upper bits of `a ^ b` are those of `a` and `b`, combined.
pub bit_xor-div : (k a b : ℕ) → bit_xor a b / 2 ^ k ≡ bit_xor (a / 2 ^ k) (b / 2 ^ k)
bit_xor-div k a b =
    let pos = two_pow-pos k in
    let (t, small, e) =
      xor_fields k (a / 2 ^ k) (b / 2 ^ k) (a % 2 ^ k) (b % 2 ^ k) (omega (arith, pos))
        (omega (arith, pos)) in
    let e' = ap₂ bit_xor (sym (div_mod k a)) (sym (div_mod k b)) ∙ e in
    omega (
      arith,
      quotient (2 ^ k) (bit_xor (a / 2 ^ k) (b / 2 ^ k)) t small,
      ap (λ (x : ℕ). x / 2 ^ k) e',
    )
  where
    quotient : (m q r : ℕ) → r < m → (q * m + r) / m ≡ q
    quotient m q r lt = grind arith
