-- ===== src/PageAllocator/Default.antt =====
-- default_allocator.h: the page functions of basic_default_allocator, and what they do with null.
use density.Align.Rounding.{lower_align_bounds}
use density.Base.{
  ◌<◌, ℕ, ◌+◌, ◌≤◌, ◌≡◌, ◌≢◌, refl, ◌∙◌, Bool, false, List, [], ◌∷◌, count, length, arith, leb,
  ◌==◌, if◌then◌else◌,
}
use density.Align.{uint_lower_align}
use density.Effects.{M, Result, ok, throw, bind-ok, ◌>>=◌}
use density.PageAllocator.Operations.{
  PageAllocationType, ProgressGuarantee, progress_blocking, PageManager, Pool,
}
use density.PageAllocator.Pages.{try_allocate_page, try_reserve_lockfree_memory}
use density.PageAllocator.Source.{IsSource}
use density.PageAllocator.Invariant.{IsPool}
use density.PageAllocator.Finding.{Known, reused, fresh, no_page}
use density.PageAllocator.Taking.{try_allocate_page-Allocated}

module _ {A : Type 0} ⦃pm : PageManager A⦄ where
  -- `allocate_page` and `allocate_page_zeroed`, by the kind of page.
  unfoldable pub allocate_page : PageAllocationType → (fuel : ℕ) → M (Pool A) ℕ
  unfolding try_allocate_page
  allocate_page kind fuel = try_allocate_page kind fuel progress_blocking >>= λ new_page.
      if new_page == 0 then throw else ok new_page

  -- Whether the size is reserved, and the reserved size.
  unfoldable pub try_reserve_lockfree_page_memory :
      (fuel : ℕ) → ProgressGuarantee → (i_size : ℕ) → M (Pool A) (Bool × ℕ)
  unfolding try_reserve_lockfree_memory
  try_reserve_lockfree_page_memory fuel guarantee i_size =
      try_reserve_lockfree_memory fuel guarantee i_size >>= λ reserved_size.
      ok (leb i_size reserved_size, reserved_size)

  unfoldable pub reserve_lockfree_page_memory : (fuel i_size : ℕ) → M (Pool A) ℕ
  unfolding try_reserve_lockfree_page_memory
  reserve_lockfree_page_memory fuel i_size =
      try_reserve_lockfree_page_memory fuel progress_blocking i_size >>= λ r.
      if r.0 then ok r.1 else throw

-- A page, whose footer is now in hand, or an exception.
pub data PageOrThrow {A : Type 0} (pm : PageManager A) (IsGiven : A → ℕ → Type 0) (world : List ℕ)
    (rest : ℕ → ℕ) (r : Result (Pool A) ℕ) : Type 0 where
  gives :
      (page x : ℕ) (world' left : List ℕ) (t : Pool A)
      → r ≡ ok page t
      → page ≢ 0
      → uint_lower_align x pm.page_alignment_and_size ≡ page
      → ((a : ℕ) → count a world ≤ count a world')
      → t.footers.m_pin_count x ≡ 0
      → IsPool pm.page_alignment_and_size world' left (λ a. count a (x ∷ []) + rest a) t
      → Known IsGiven world' left t
      → PageOrThrow pm IsGiven world rest r
  throws :
      (left : List ℕ) (t : Pool A)
      → r ≡ throw t
      → IsPool pm.page_alignment_and_size world left rest t
      → Known IsGiven world left t
      → PageOrThrow pm IsGiven world rest r

-- `allocate_page` and `allocate_page_zeroed` of a thread that knows the pages `world`, with fuel of at least
-- the number of these and the pending pages, end: the result is the address of a page that is not pinned
-- and is in hand besides the pages of before, and never null, or std::bad_alloc is thrown and no page has
-- changed hands. In both cases each page is in one stack or in a hand, and no known page is forgotten.
pub allocate_page-PageOrThrow :
    {A : Type 0} ⦃pm : PageManager A⦄ {IsGiven : A → ℕ → Type 0} (src : IsSource pm IsGiven)
    (k : PageAllocationType) (world pending : List ℕ) (rest : ℕ → ℕ) (fuel : ℕ) (s : Pool A)
    → IsPool pm.page_alignment_and_size world pending rest s
    → Known IsGiven world pending s
    → length world + length pending ≤ fuel
    → PageOrThrow pm IsGiven world rest (allocate_page k fuel s)
unfolding allocate_page
allocate_page-PageOrThrow {A} ⦃pm⦄ src k world pending rest fuel s p known enough =
    let o =
      try_allocate_page-Allocated src k world pending rest fuel progress_blocking s p known
        enough in
    let call : M (Pool A) ℕ = try_allocate_page k fuel progress_blocking in
    let next : ℕ → M (Pool A) ℕ = λ page. if page == 0 then throw else ok page in
    elim o.found [
      | reused x t run used free q known' ↦
          let page = uint_lower_align x pm.page_alignment_and_size in
          let pos : 0 < page = (q.are_footers x used).2 in
          let some_page = not_zero page pos in
          gives page x world o.left t (bind-ok call next s t page run ∙ rw some_page)
            (above_zero page pos) refl (λ a. omega arith) free q known'
      | fresh page x t run at low new free zeros q known' ↦
          let pos : 0 < uint_lower_align x pm.page_alignment_and_size =
            (q.are_footers x (here x world)).2 in
          let some_page = not_zero (uint_lower_align x pm.page_alignment_and_size) pos in
          gives (uint_lower_align x pm.page_alignment_and_size) x (x ∷ world) o.left t
            (bind-ok call next s t (uint_lower_align x pm.page_alignment_and_size) run
              ∙ rw some_page)
            (above_zero (uint_lower_align x pm.page_alignment_and_size) pos) refl
            (λ a. more a x world) free q known'
      | no_page t run q known' ↦
          let null : uint_lower_align 0 pm.page_alignment_and_size ≡ 0 =
            omega (
              arith,
              lower_align_bounds 0 pm.page_alignment_and_size src.alignment (omega arith),
            ) in
          throws o.left t
            (bind-ok call next s t (uint_lower_align 0 pm.page_alignment_and_size) run ∙ rw null) q
            known'
    ]
  where
    not_zero : (n : ℕ) → 0 < n → (n == 0) ≡ false
    not_zero n pos = ground arith

    above_zero : (n : ℕ) → 0 < n → n ≢ 0
    above_zero n pos e = absurd (omega arith)

    here : (x : ℕ) (xs : List ℕ) → 0 < count x (x ∷ xs)
    here x xs = ground arith

    more : (a x : ℕ) (xs : List ℕ) → count a xs ≤ count a (x ∷ xs)
    more a x xs = ground arith
