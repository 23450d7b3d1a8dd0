-- ===== src/Blocks/Headers.antt =====
-- density_common.h: where the header of a block is, and the two ways to fail.
use density.Base.{
  ltb, ℕ, ◌+◌, ◌-◌, ◌≤◌, ◌<◌, ◌≡◌, ◌%◌, ◌*◌, ◌/◌, ◌^◌, ◌↔◌, refl, ap, ◌∙◌, Option, none, some, true,
  false, Bool-cases, inl, inr, arith,
}
use density.Align.{add_word, word_mod, uint_lower_align}
use native.Mathlib.Nat.{add-mod, mod-mod, add-mod_right, mod-eq_of_lt, div-add-mod', mod-lt}
use density.Align.Rounding.{IsAlignment, lower_align-eq}
use density.Effects.{Result, ok, throw, out_of_fuel}
use density.HeterQueue.Layout.{size_max}
use density.Blocks.Operations.{
  NewDelete, Memory, header_of, extra_size, is_plain, user_block, aligned_allocate,
  try_aligned_allocate,
}
use density.Blocks.Laws.{user_block-bounds}

extra_size-large : (a : ℕ) → 8 ≤ a → extra_size a ≡ a
unfolding extra_size size_max
extra_size-large a large = ground (arith, large)

-- In a larger block that is aligned itself, at `p`, the block is `a - off % a` bytes behind its start, for
-- the alignment `a` of at least 8 and the offset `off`. So the header in front of the block is inside the larger block if
-- and only if `off % a + 8 ≤ a`. The offset is at most the size, which is below 2 ^ 62, and memory lies in the
-- lower half of the address space.
pub header_of-place :
    (p a off size : ℕ)
    → IsAlignment a
    → 8 ≤ a
    → a < 2 ^ 61
    → p % a ≡ 0
    → 0 < p
    → off ≤ size
    → size < 2 ^ 62
    → p + (size + a) ≤ 2 ^ 63
    → (user_block p a off + off % a ≡ p + a)
      × ((p ≤ header_of (user_block p a off)) ↔ (off % a + 8 ≤ a))
header_of-place p a off size v large small p_aligned pos within small' fits =
    let x = p + a + off in
    let extra = extra_size-large a large in
    let (multiple, behind, inside, place) =
      user_block-bounds p a off size v within pos small' small (omega (arith, extra, fits)) in
    let start : (p + a) % a ≡ 0 = add-mod_right p a ∙ p_aligned in
    let left : x % a ≡ off % a =
      add-mod (p + a) off a
      ∙ ap (λ t. (t + off % a) % a) start
      ∙ ap (λ t. t % a) (zero_sum (off % a))
      ∙ mod-mod off a in
    let at : user_block p a off + off ≡ x / a * a =
      place
      ∙ ap (λ e. uint_lower_align (p + e + off) a) extra
      ∙ lower_align-eq v x (omega (arith, fits, within, small')) in
    let whole = div-add-mod' x a in
    let user = user_block p a off in
    let sum : user + off % a ≡ p + a = omega (arith, at, whole, left) in
    let least : off % a < a = mod-lt off (omega (arith, large)) in
    let first : a ≤ p = at_least p a pos p_aligned in
    let header : header_of user ≡ user - 8 =
      header_back user (omega (arith, behind, large, first)) (omega (arith, inside, extra, fits)) in
    (
      sum,
      (
        (λ le. omega (arith, le, header, sum, behind, large, first)),
        (λ le. omega (arith, le, header, sum, behind, large, first)),
      ),
    )
  where
    zero_sum : (n : ℕ) → 0 + n ≡ n
    zero_sum n = omega arith

    at_least : (p a : ℕ) → 0 < p → p % a ≡ 0 → a ≤ p
    at_least p a lt e = elim (Bool-cases (ltb p a)) [
      | inl less ↦ absurd (omega (arith, e, mod-eq_of_lt {n = p} {m = a} (ground arith), lt))
      | inr more ↦ ground arith
    ]

    header_back : (u : ℕ) → 8 ≤ u → u < word_mod → header_of u ≡ u - 8
    header_back u le lt =
        let e : u + word_mod - 8 ≡ u - 8 + word_mod = omega arith in
        rw e (add-mod_right (u - 8) word_mod ∙ mod-eq_of_lt (omega arith))

-- A null pointer in place of an exception.
abbrev pub or_null : {A : Type 0} → Result (Memory A) ℕ → Result (Memory A) ℕ
or_null (ok b s) = ok b s
or_null (throw s) = ok 0 s
or_null out_of_fuel = out_of_fuel

-- `try_aligned_allocate` does what `aligned_allocate` does, and returns null where that one throws.
pub try_aligned_allocate-eq :
    {A : Type 0} ⦃nd : NewDelete A⦄ (size a off : ℕ) (s : Memory A)
    → try_aligned_allocate size a off s ≡ or_null (aligned_allocate size a off s)
unfolding try_aligned_allocate aligned_allocate
try_aligned_allocate-eq {A} ⦃nd⦄ size a off s =
    elim (Bool-cases (is_plain nd.max_alignment a off)) [
      | inl plain ↦ plain_case (nd.operator_new size s.system) refl plain
      | inr headed ↦
          headed_case (nd.operator_new (add_word size (extra_size a)) s.system) refl headed
    ]
  where
    plain_case :
        (o : Option (ℕ × A))
        → nd.operator_new size s.system ≡ o
        → is_plain nd.max_alignment a off ≡ true
        → try_aligned_allocate size a off s ≡ or_null (aligned_allocate size a off s)
    plain_case none e plain = rw (plain, e)
    plain_case (some (p, b)) e plain = rw (plain, e)

    headed_case :
        (o : Option (ℕ × A))
        → nd.operator_new (add_word size (extra_size a)) s.system ≡ o
        → is_plain nd.max_alignment a off ≡ false
        → try_aligned_allocate size a off s ≡ or_null (aligned_allocate size a off s)
    headed_case none e headed = rw (headed, e)
    headed_case (some (p, b)) e headed = rw (headed, e)
