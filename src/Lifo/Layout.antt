-- ===== src/Lifo/Layout.antt =====
-- lifo.h: the constants of a lifo_allocator.
use native.Mathlib.Nat.{mod_self}
use density.Base.{ℕ, ◌+◌, ◌-◌, ◌/◌, ◌%◌, ◌^◌, ◌≤◌, ◌<◌, ◌≡◌, refl, arith, ltb, if◌then◌else◌}
use density.Align.{uint_lower_align}
use density.Align.Rounding.{
  IsAlignment, IsAlignment-bounds, IsAlignment-divides, lower_align_bounds,
}

-- The page constants of UNDERLYING_ALLOCATOR, and ALIGNMENT.
pub record LifoLayout : Type 0 where
  pub page_alignment : ℕ
  pub page_size : ℕ
  pub alignment : ℕ

module _ ⦃l : LifoLayout⦄ where
  -- `sizeof(PageHeader)`: a pointer, aligned to ALIGNMENT also.
  unfoldable pub header_size : ℕ
  header_size = if ltb 8 l.alignment then l.alignment else 8

  unfoldable pub s_virgin_top : ℕ
  s_virgin_top = uint_lower_align (l.page_alignment - 1) l.alignment

-- The static assertions of the class, and that a page is not larger than its alignment.
pub record IsLifoLayout (l : LifoLayout) : Type 0 where
  pub page : IsAlignment l.page_alignment
  pub page_half : l.page_alignment ≤ 2 ^ 32
  pub block : IsAlignment l.alignment
  pub block_le : l.alignment ≤ l.page_alignment
  pub page_size_le : l.page_size ≤ l.page_alignment
  pub room : header_size ⦃l = l⦄ < l.page_size / 2

module _ ⦃l : LifoLayout⦄ (lay : IsLifoLayout l) where
  pub header_size_bounds : (8 ≤ header_size) × (l.alignment ≤ header_size)
  unfolding header_size
  header_size_bounds = ground arith

  eight : IsAlignment 8
  eight = record { exponent = 3; fits = omega arith; power = refl }

  pub header_size_aligned : header_size % l.alignment ≡ 0
  unfolding header_size
  header_size_aligned =
      ground (
        arith,
        mod_self l.alignment,
        λ (h : l.alignment ≤ 8). IsAlignment-divides lay.block eight h,
      )

  -- The virgin top lies in the first page of the address space, behind where a header would end.
  pub virgin_top_bounds :
      (s_virgin_top < l.page_alignment)
      × (header_size < s_virgin_top)
      × (s_virgin_top % l.alignment ≡ 0)
      × (l.page_alignment ≤ s_virgin_top + l.alignment)
  unfolding s_virgin_top
  virgin_top_bounds =
      let (m, le, lt) =
        lower_align_bounds (l.page_alignment - 1) l.alignment lay.block
          (omega (arith, lay.page_half)) in
      let (pos, small) = IsAlignment-bounds lay.page in
      let (h8, ha) = header_size_bounds in
      (omega arith, omega (arith, lay.room, lay.page_size_le), m, omega arith)
