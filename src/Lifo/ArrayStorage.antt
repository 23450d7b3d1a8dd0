-- ===== src/Lifo/ArrayStorage.antt =====
-- lifo.h: the block of a lifo_array holds its elements, aligned as their type asks.
use density.Lifo.Allocation.{Refused}
use native.Mathlib.Nat.{add-mod_right}
use density.Lifo.Last.{last_bound}
use native.Mathlib.Nat.{zero-mod}
use density.Base.{
  ℕ, zero, suc, ◌+◌, ◌-◌, ◌*◌, ◌%◌, ◌^◌, ◌≤◌, ◌<◌, ◌≡◌, refl, sym, ap, ◌∙◌, Bool-cases, inl, inr,
  ◌==◌, arith, List, ◌∷◌,
}
use density.Align.{word_mod, add_word, uint_upper_align}
use density.Align.Rounding.{
  IsAlignment, IsAlignment-bounds, IsAlignment-divides, upper_align_bounds,
}
use density.Align.Multiples.{add_multiple, multiple_trans, round_near}
use density.Allocator.{Allocator, IsAllocator, IsApart}
use density.Effects.{Result, ok, throw, bind-ok, bind-throw}
use density.Lifo.Layout.{LifoLayout, IsLifoLayout}
use density.Lifo.Operations.{Lifo, allocate}
use density.Lifo.Stack.{Block, IsStack}
use density.Lifo.Allocation.{given, refused, allocate-Allocated}
use density.Lifo.Separate.{living-AreSeparate}
use density.Lifo.Buffer.{rounded}
use density.Lifo.Array.{
  ElementType, LifoArray, compute_mem_size, compute_mem_size_over_aligned, impl_new,
  impl_new_over_aligned,
}

-- A whole number of multiples.
mul_multiple : (a c s : ℕ) → s % a ≡ 0 → (c * s) % a ≡ 0
mul_multiple a zero s h = let e : 0 * s ≡ 0 = omega arith in rw e (zero-mod a)
mul_multiple a (suc c) s h =
    let e : suc c * s ≡ c * s + s = omega arith in
    rw e (add_multiple a (c * s) s (mul_multiple a c s h) h)

-- A multiple less one `a`.
less_multiple : (a b : ℕ) → b % a ≡ 0 → a ≤ b → (b - a) % a ≡ 0
less_multiple a b h le =
    let split : (b - a) + a ≡ b = omega arith in
    sym (add-mod_right (b - a) a) ∙ ap (λ x. x % a) split ∙ h

module _ ⦃l : LifoLayout⦄ (lay : IsLifoLayout l) (e : ElementType) where
  pub mem_size_bounds :
      (n : ℕ)
      → n * e.size ≤ 2 ^ 61
      → (compute_mem_size e n % l.alignment ≡ 0)
        × (n * e.size ≤ compute_mem_size e n)
        × (compute_mem_size e n ≤ 2 ^ 62)
  unfolding compute_mem_size
  mem_size_bounds n small =
      let exact : (n * e.size) % word_mod ≡ n * e.size = omega arith in
      rw exact (elim (Bool-cases (e.size % l.alignment == 0)) [
        | inl whole ↦
            rw whole (mul_multiple l.alignment n e.size (ground arith), omega arith, omega arith)
        | inr other ↦ rw other (rounded lay (n * e.size) small)
      ])

  -- The size of a type is a multiple of its alignment.
  pub record IsOverAligned : Type 0 where
    pub alignment : IsAlignment e.alignment
    pub over : l.alignment < e.alignment
    pub bound : e.alignment ≤ 2 ^ 32
    pub multiple : e.size % e.alignment ≡ 0

  pub over_aligned_bounds :
      (n : ℕ)
      → IsOverAligned
      → n * e.size ≤ 2 ^ 60
      → (compute_mem_size_over_aligned e n % l.alignment ≡ 0)
        × (n * e.size + (e.alignment - l.alignment) ≤ compute_mem_size_over_aligned e n)
        × (compute_mem_size_over_aligned e n ≤ 2 ^ 62)
  unfolding compute_mem_size_over_aligned
  over_aligned_bounds n o small =
      let exact : (n * e.size) % word_mod ≡ n * e.size = omega arith in
      let divides = IsAlignment-divides lay.block o.alignment (omega (arith, o.over)) in
      let pos = IsAlignment-bounds lay.block in
      let total = n * e.size + (e.alignment - l.alignment) in
      let sum : add_word (n * e.size) (e.alignment - l.alignment) ≡ total =
        omega (arith, o.bound) in
      let bound : total ≤ 2 ^ 61 = omega (arith, o.bound) in
      rw (exact, sum)
        (elim (Bool-cases (e.size % l.alignment == 0)) [
          | inl whole ↦ rw whole (
            add_multiple l.alignment (n * e.size) (e.alignment - l.alignment)
                (mul_multiple l.alignment n e.size (ground arith))
                (less_multiple l.alignment e.alignment divides (omega (arith, o.over))),
            omega arith,
            omega arith,
          )
          | inr other ↦ rw other (rounded lay total bound)
        ])

module _ {A V : Type 0} ⦃l : LifoLayout⦄ ⦃al : Allocator A⦄ (laws : IsAllocator al l.page_alignment)
    (apart : IsApart laws) (lay : IsLifoLayout l) (e : ElementType) where
  -- An array of `n` elements whose block of `mem_size` bytes, at `block_of`, is the last living one: the elements lie
  -- in the block and are aligned. Or the allocator below refuses the memory, and there is no change.
  pub data Stored (block_of : LifoArray → ℕ) (s : Lifo A V) (blocks : List Block) (mem_size n : ℕ)
      (r : Result (Lifo A V) LifoArray) : Type 0 where
    stored :
        (a : LifoArray) (t : Lifo A V)
        → r ≡ ok a t
        → IsStack laws t ((block_of a, mem_size) ∷ blocks)
        → a.m_size ≡ n
        → block_of a ≤ a.m_elements
        → a.m_elements + n * e.size ≤ block_of a + mem_size
        → ((i : ℕ) → i < n → (a.m_elements + i * e.size) % e.alignment ≡ 0)
        → Stored block_of s blocks mem_size n r
    not_stored :
        Refused laws apart lay s s.m_top mem_size
        → r ≡ throw s
        → Stored block_of s blocks mem_size n r

  -- The base class constructor for types that are not aligned more strictly than the blocks.
  pub impl_new-Stored :
      (n : ℕ) (s : Lifo A V) (blocks : List Block)
      → IsStack laws s blocks
      → IsAlignment e.alignment
      → e.alignment ≤ l.alignment
      → e.size % e.alignment ≡ 0
      → n * e.size ≤ 2 ^ 61
      → Stored (λ a. a.m_elements) s blocks (compute_mem_size e n) n (impl_new e n s)
  unfolding impl_new
  impl_new-Stored n s blocks i al_ok le unit small =
      let (mult, ge, bound) = mem_size_bounds lay e n small in
      elim (allocate-Allocated laws apart lay s (compute_mem_size e n) i mult bound) [
        | given b t r j bytes ↦
            let whole =
              multiple_trans e.alignment l.alignment b (IsAlignment-divides al_ok lay.block le)
                (living-AreSeparate laws lay t _ j).0 in
            stored (record { m_block = b; m_elements = b; m_size = n }) t
              (bind-ok (allocate (compute_mem_size e n)) _ s t b r) j refl (omega arith)
              (omega arith)
              (λ k lt.
                add_multiple e.alignment b (k * e.size) whole
                  (mul_multiple e.alignment k e.size unit))
        | refused why r ↦ not_stored why (bind-throw (allocate (compute_mem_size e n)) _ s s r)
      ]

  -- The base class of a lifo_array of elements that are aligned more strictly than the blocks, at most
  -- 2 ^ 60 bytes of them: it leaves a block on top of the living ones in which the elements fit, each
  -- aligned as their type asks; or there is an exception, nothing has changed, and the allocator below has
  -- no page or no block for a block of this size, which does not fit in the page of the top.
  pub impl_new_over_aligned-Stored :
      (n : ℕ) (s : Lifo A V) (blocks : List Block)
      → IsStack laws s blocks
      → IsOverAligned lay e
      → n * e.size ≤ 2 ^ 60
      → Stored
          (λ a. a.m_block)
          s
          blocks
          (compute_mem_size_over_aligned e n)
          n
          (impl_new_over_aligned e n s)
  unfolding impl_new_over_aligned
  impl_new_over_aligned-Stored n s blocks i o small =
      let (mult, ge, bound) = over_aligned_bounds lay e n o small in
      elim (allocate-Allocated laws apart lay s (compute_mem_size_over_aligned e n) i mult bound) [
        | given b t r j bytes ↦
            let aligned = (living-AreSeparate laws lay t _ j).0 in
            let low = last_bound lay j.stack in
            let (up, above, near) =
              upper_align_bounds b e.alignment o.alignment (omega (arith, o.bound)) in
            let close =
              round_near l.alignment e.alignment b (uint_upper_align b e.alignment)
                (IsAlignment-bounds lay.block).0
                (IsAlignment-divides lay.block o.alignment (omega (arith, o.over))) aligned up
                near in
            stored (record { m_block = b; m_elements = uint_upper_align b e.alignment; m_size = n })
              t (bind-ok (allocate (compute_mem_size_over_aligned e n)) _ s t b r) j refl above
              (omega (arith, o.over))
              (λ k lt.
                add_multiple e.alignment (uint_upper_align b e.alignment) (k * e.size) up
                  (mul_multiple e.alignment k e.size o.multiple))
        | refused why r ↦
            not_stored why (bind-throw (allocate (compute_mem_size_over_aligned e n)) _ s s r)
      ]
