-- ===== src/Align/Multiples.antt =====
-- Multiples of an alignment.
use native.Mathlib.Nat.{div-add-mod'}
use density.Base.{dec_lt, ℕ, ◌+◌, ◌*◌, ◌/◌, ◌%◌, ◌<◌, ◌≤◌, ◌≡◌, sym, ap, ◌∙◌, arith}
use native.Mathlib.Nat.{zero-mod, add-mod, mod-mod_of_dvd, dvd_of_mod-eq-zero}

-- A sum of multiples is a multiple.
pub add_multiple : (m a b : ℕ) → a % m ≡ 0 → b % m ≡ 0 → (a + b) % m ≡ 0
add_multiple m a b h k = add-mod a b m ∙ zero_zero
  where
    zero_zero : (a % m + b % m) % m ≡ 0
    zero_zero = rw (h, k) (zero-mod m)

-- A multiple of a multiple.
pub multiple_trans : (m a x : ℕ) → a % m ≡ 0 → x % a ≡ 0 → x % m ≡ 0
multiple_trans m a x h k =
    sym (mod-mod_of_dvd m x (dvd_of_mod-eq-zero m h)) ∙ ap (λ (t : ℕ). t % m) k ∙ zero-mod m

-- Rounding a multiple of `m` up to a multiple of `a` adds at most `a - m`.
pub round_near :
    (m a x y : ℕ) → 0 < m → a % m ≡ 0 → x % m ≡ 0 → y % a ≡ 0 → y < x + a → y + m ≤ x + a
round_near m a x y pos h k e lt =
    let g = add_multiple m x a k h in
    let f = multiple_trans m a y h e in
    ordered ((x + a) / m) (y / m) (omega (arith, div-add-mod' (x + a) m))
      (omega (arith, div-add-mod' y m))
  where
    ordered : (q r : ℕ) → x + a ≡ q * m → y ≡ r * m → y + m ≤ x + a
    ordered q r eq er = elim (dec_lt r q) [
      | yes less ↦ grind arith
      | no more ↦ absurd (grind arith)
    ]
