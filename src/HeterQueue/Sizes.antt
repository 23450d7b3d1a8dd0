-- ===== src/HeterQueue/Sizes.antt =====
-- heter_queue.h: the constants of a layout as numbers, and where a request ends up in a page.
use native.Mathlib.Nat.{div-add-mod'}
use density.HeterQueue.Layout.{
  pointer_size, Layout, IsLayout, min_alignment, control_size, type_size, s_max_size_inpage,
  get_end_of_page, size_max,
}
use density.Base.{◌⊎◌, inr, inl, ℕ, ◌+◌, ◌%◌, ◌^◌, ◌≤◌, ◌<◌, ◌≡◌, arith}
use density.Align.Rounding.{
  IsAlignment, IsAlignment-bounds, IsAlignment-divides, lower_align-eq, upper_align_bounds,
}
use density.Align.Pages.{page_of}
use density.HeterQueue.Words.{eight-IsAlignment}

page_of-le : (pa a : ℕ) → page_of pa a ≤ a
page_of-le pa a = omega (arith, div-add-mod' a pa)

module _ ⦃l : Layout⦄ (lay : IsLayout l) where
  min_alignment-cases : (min_alignment ≡ 8) ⊎ (min_alignment ≡ l.alignof_runtime_type)
  unfolding min_alignment size_max
  min_alignment-cases = ground arith

  pub min_alignment-IsAlignment : IsAlignment min_alignment
  min_alignment-IsAlignment = elim min_alignment-cases [
    | inl e ↦ rw e eight-IsAlignment
    | inr e ↦ rw e lay.runtime
  ]

  pub min_alignment-ge : 8 ≤ min_alignment
  unfolding min_alignment size_max
  min_alignment-ge = ground arith

  pub min_alignment-eight : min_alignment % 8 ≡ 0
  min_alignment-eight =
      IsAlignment-divides eight-IsAlignment min_alignment-IsAlignment min_alignment-ge

  pub min_alignment-le : min_alignment ≤ 2 ^ 32
  min_alignment-le = omega (arith, lay.room, lay.page_size_le, lay.page_half)

  pub control_size-eq : (control_size % min_alignment ≡ 0) × (8 ≤ control_size)
  unfolding control_size
  control_size-eq =
      let (mult, ge, lt) =
        upper_align_bounds pointer_size min_alignment min_alignment-IsAlignment
          (omega (arith, min_alignment-le)) in
      (mult, ge)

  pub type_size-eq : type_size % min_alignment ≡ 0
  unfolding type_size
  type_size-eq =
      (upper_align_bounds l.sizeof_runtime_type min_alignment min_alignment-IsAlignment
        (omega (arith, min_alignment-le, lay.runtime_size))).0

  pub max_size-eq : s_max_size_inpage + control_size + type_size + control_size ≡ l.page_size
  unfolding s_max_size_inpage
  max_size-eq = omega (arith, lay.room, lay.page_size_le, lay.page_half)

  pub page_size-pos : 0 < l.page_alignment
  page_size-pos = (IsAlignment-bounds lay.page).0

  pub end_of_page-eq :
      (a : ℕ)
      → a < 2 ^ 63
      → get_end_of_page a + control_size ≡ page_of l.page_alignment a + l.page_size
  unfolding get_end_of_page
  end_of_page-eq a h =
      rw (lower_align-eq lay.page a (omega arith))
        (omega (arith, lay.room, lay.page_size_le, lay.page_half, page_of-le l.page_alignment a))
