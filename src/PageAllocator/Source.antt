-- ===== src/PageAllocator/Source.antt =====
-- detail/page_allocator.h: what is asked of the system page manager, and where footers are.
use native.Mathlib.Nat.{div-add-mod', mod-eq_of_lt}
use density.Base.{ℕ, ◌+◌, ◌-◌, ◌≤◌, ◌<◌, ◌≡◌, ◌%◌, ap, ◌∙◌, arith}
use density.Align.{word_mod, add_word, uint_lower_align}
use density.Align.Rounding.{IsAlignment, lower_align-eq}
use density.Align.Pages.{page_of, page_of-between}
use density.PageStack.WaitFree.{lock_marker}
use density.PageAllocator.Operations.{ProgressGuarantee, PageManager}
use density.PageAllocator.Pages.{page_size, get_footer}

-- Where a footer of a page, not of the null one, can be.
abbrev pub IsFooter : (page_alignment a : ℕ) → Type 0
IsFooter page_alignment a =
    (lock_marker < a)
    × (get_footer page_alignment (uint_lower_align a page_alignment) ≡ a)
    × (0 < uint_lower_align a page_alignment)

-- A page manager gives aligned pages, within the address space, and none twice: `IsGiven` says which
-- footers it has given room for.
pub record IsSource {A : Type 0} (pm : PageManager A) (IsGiven : A → ℕ → Type 0) : Type 0 where
  pub alignment : IsAlignment pm.page_alignment_and_size
  pub room : 16 < pm.page_alignment_and_size
  pub aligned :
      (g : ProgressGuarantee) (a : A)
      → 0 < (pm.try_allocate_page g a).0
      → ((pm.try_allocate_page g a).0 % pm.page_alignment_and_size ≡ 0)
        × ((pm.try_allocate_page g a).0 + pm.page_alignment_and_size ≤ word_mod)
  pub new :
      (g : ProgressGuarantee) (a : A)
      → 0 < (pm.try_allocate_page g a).0
      → ¬ IsGiven a (get_footer pm.page_alignment_and_size (pm.try_allocate_page g a).0)
  pub given :
      (g : ProgressGuarantee) (a : A)
      → 0 < (pm.try_allocate_page g a).0
      → IsGiven
          (pm.try_allocate_page g a).1
          (get_footer pm.page_alignment_and_size (pm.try_allocate_page g a).0)
  pub kept :
      (g : ProgressGuarantee) (a : A) (x : ℕ) → IsGiven a x → IsGiven (pm.try_allocate_page g a).1 x

-- The footer of an aligned page, and the page of that footer.
pub get_footer-page :
    (a page : ℕ)
    → IsAlignment a
    → 16 < a
    → 0 < page
    → page % a ≡ 0
    → page + a ≤ word_mod
    → (get_footer a page ≡ page + page_size a)
      × (uint_lower_align (get_footer a page) a ≡ page)
      × IsFooter a (get_footer a page)
unfolding get_footer page_size
get_footer-page a page v room pos multiple fits =
    let whole : page_of a page ≡ page = omega (arith, div-add-mod' page a, multiple) in
    let low : uint_lower_align page a ≡ page =
      lower_align-eq v page (omega (arith, room, fits)) ∙ whole in
    let at : add_word (uint_lower_align page a) (a - 16) ≡ page + (a - 16) =
      rw low (mod-eq_of_lt (omega (arith, room, fits))) in
    let back : uint_lower_align (page + (a - 16)) a ≡ page =
      lower_align-eq v (page + (a - 16)) (omega (arith, room, fits))
      ∙ page_of-between a page (page + (a - 16)) (omega (arith, whole)) (omega (arith, whole, room))
      ∙ whole in
    let back' : uint_lower_align (add_word (uint_lower_align page a) (a - 16)) a ≡ page =
      ap (λ x. uint_lower_align x a) at ∙ back in
    (at, back', (omega (arith, at, pos, room), ap (get_footer a) back', omega (arith, back', pos)))
