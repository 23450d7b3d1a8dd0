-- ===== src/PageAllocator/Examples.antt =====
-- Runs of a PageAllocator with pages of 64 bytes.
use density.PageAllocator.Default.{allocate_page-PageOrThrow, PageOrThrow, allocate_page}
use density.PageAllocator.Source.{IsFooter, IsSource, get_footer-page}
use density.PageAllocator.Operations.{
  get_private_stack, shared_of, progress_wait_free, PageAllocationType, uninitialized, zeroed,
  progress_blocking, progress_lock_free, PageManager, Pool, slot_count, process_pending_unpins,
}
use density.Effects.{ok}
use density.PageAllocator.Pages.{
  unpin_page_with, page_size, get_footer, new_slots, construct_allocator, pin_page, unpin_page,
  try_allocate_page, deallocate_page,
}
use density.PageStack.Sequential.{IsPages}
use density.Base.{
  ◌==◌, sym, subst, suc, ◌%◌, ℕ, ◌+◌, ◌*◌, ◌<◌, ◌≡◌, refl, List, [], ◌∷◌, count, true, false, ltb,
  Bool-cases, inl, inr, if◌then◌else◌, arith,
}
use density.PageAllocator.Sums.{sum}
use density.PageAllocator.Tops.{both}
use density.Align.Rounding.{IsAlignment}
use density.PageStack.Operations.{stack_of}
use density.PageAllocator.CallSteps.{IsOpen}
use density.PageAllocator.Invariant.{IsPool}
use density.PageAllocator.Growth.{grow-IsPool}
use density.PageAllocator.Start.{Started, construct_allocator-IsPool}
use density.PageAllocator.Giving.{Deallocated, deallocate_page-Deallocated}
use density.PageAllocator.Taking.{Allocated, try_allocate_page-Allocated}
use density.PageAllocator.Unpinning.{Processed, process-Processed, unpin_all}
use density.PageAllocator.Pins.{pin_page-unpin_page, unpin_page_with-cut}

-- Four pages, one behind the other; `a` of them have been given.
abbrev four_pages : PageManager ℕ
four_pages = record {
  page_alignment_and_size = 64;
  pages_are_zeroed = false;
  try_allocate_page = λ g a. if ltb a 4 then (a * 64 + 64, suc a) else (0, a);
  try_reserve_region_memory = λ g i_size a. (0, a);
}

abbrev FourGiven : ℕ → ℕ → Type 0
FourGiven a x = x < a * 64 + 64

alignment_64 : IsAlignment 64
alignment_64 = record { exponent = 6; fits = omega arith; power = refl }

multiple_64 : (a : ℕ) → (a * 64 + 64) % 64 ≡ 0
multiple_64 a = omega arith

footer_at : (a : ℕ) → ltb a 4 ≡ true → get_footer 64 (a * 64 + 64) ≡ a * 64 + 112
unfolding page_size
footer_at a e = omega (
  arith,
  (get_footer-page 64 (a * 64 + 64) alignment_64 (omega arith) (omega arith) (multiple_64 a)
      (ground (arith, e))).0,
)

four_pages-IsSource : IsSource four_pages FourGiven
four_pages-IsSource = record {
  alignment = alignment_64;
  room = omega arith;
  aligned = λ g a pos. elim (Bool-cases (ltb a 4)) [
    | inl e ↦ rw e (multiple_64 a, ground (arith, e))
    | inr e ↦ absurd (ground (arith, e, pos))
  ];
  new = λ g a pos given. elim (Bool-cases (ltb a 4)) [
    | inl e ↦ let g' = rw e at given in absurd (omega (arith, g', footer_at a e))
    | inr e ↦ absurd (ground (arith, e, pos))
  ];
  given = λ g a pos. elim (Bool-cases (ltb a 4)) [
    | inl e ↦ rw e (omega (arith, footer_at a e))
    | inr e ↦ absurd (ground (arith, e, pos))
  ];
  kept = λ g a x given. elim (Bool-cases (ltb a 4)) [
    | inl e ↦ rw e (omega (arith, given))
    | inr e ↦ rw e given
  ];
}

-- No page, and no thread that comes in between.
abbrev memory : Pool ℕ
memory = record {
  slots = new_slots;
  m_current_slot = 0;
  m_victim_slot = 0;
  m_private_page_stack = stack_of 0;
  m_private_zeroed_page_stack = stack_of 0;
  m_pages_to_unpin = stack_of 0;
  footers = record { m_next_page = λ a. 0; m_pin_count = λ a. 0 };
  bytes = λ a. 7;
  system = 0;
  contention = λ call. false;
  calls = 0;
}

abbrev no_pages : PageAllocationType → ℕ → List ℕ
no_pages k i = []

nothing-IsOpen :
    (k : PageAllocationType) (i : ℕ) → i < slot_count → IsOpen (shared_of k i memory) (no_pages k i)
nothing-IsOpen uninitialized i lt = record { linked = refl; unmarked = omega arith }
nothing-IsOpen zeroed i lt = record { linked = refl; unmarked = omega arith }

nothing_counts : (a : ℕ) → both (λ k. sum slot_count (λ i. count a (no_pages k i))) ≡ count a []
nothing_counts a = refl

construct_example : Started 64 [] no_pages 7 (construct_allocator 7 memory)
construct_example =
    construct_allocator-IsPool 64 7 [] no_pages memory (omega arith) nothing-IsOpen nothing_counts
      (λ a. omega arith) (λ a used. absurd (omega arith))

-- The slow path takes the page at 64 from the page manager.
page_allocate_example :
    Allocated four_pages FourGiven zeroed progress_blocking [] []
      (λ a. 0)
      (try_allocate_page ⦃pm = four_pages⦄ zeroed 3 progress_blocking
        (construct_allocator 7 memory))
page_allocate_example =
    try_allocate_page-Allocated ⦃pm = four_pages⦄ four_pages-IsSource zeroed [] [] (λ a. 0) 3
      progress_blocking (construct_allocator 7 memory) construct_example.pool
      (λ a used. absurd (omega arith)) (omega arith)

-- The page at 64, in the hand of the thread.
abbrev memory_with_page : Pool ℕ
memory_with_page = record (construct_allocator 7 memory) {
  footers = record { m_next_page = λ a. 0; m_pin_count = λ a. 0 };
  bytes = λ a. 7;
  system = 1;
}

footer_112 : get_footer 64 64 ≡ 112
footer_112 = footer_at 0 refl

page_of_112 : IsFooter 64 112
page_of_112 =
    let facts = get_footer-page 64 64 alignment_64 (omega arith) (omega arith) refl (omega arith) in
    subst (IsFooter 64) footer_112 facts.2

with_page-IsPool : IsPool 64 (112 ∷ []) [] (λ a. count a (112 ∷ []) + 0) memory_with_page
unfolding construct_allocator
with_page-IsPool =
    grow-IsPool construct_example.pool 112 memory_with_page.footers (λ a. 7) 1 refl page_of_112
      (λ a ne. refl)

page_deallocate_example :
    Deallocated 64
      (112 ∷ [])
      []
      (λ a. 0)
      memory_with_page
      (deallocate_page ⦃pm = four_pages⦄ uninitialized 3 64 memory_with_page)
page_deallocate_example =
    deallocate_page-Deallocated ⦃pm = four_pages⦄ uninitialized 3 64 (112 ∷ []) [] (λ a. 0)
      memory_with_page
      (subst (λ x. IsPool 64 (112 ∷ []) [] (λ a. count a (x ∷ []) + 0) memory_with_page)
        (sym footer_112) with_page-IsPool)

-- The page is pinned once, and waits to be unpinned.
abbrev memory_with_pending : Pool ℕ
memory_with_pending = record memory {
  m_pages_to_unpin = stack_of 112;
  footers = record { m_next_page = λ a. 0; m_pin_count = λ a. if a == 112 then 1 else 0 };
}

one_page-IsPages : IsPages memory_with_pending.footers (stack_of 112) (112 ∷ [])
one_page-IsPages = record {
  linked = (refl, omega arith, refl);
  once = λ a. ground arith;
  cached = inl refl;
}

with_pending-IsPool : IsPool 64 [] (112 ∷ []) (λ a. 0) memory_with_pending
with_pending-IsPool = record {
  pages = no_pages;
  privates = λ k. [];
  opened = open_pending;
  private = private_pending;
  to_unpin = one_page-IsPages;
  all = λ a. refl;
  apart = λ a. ground arith;
  are_footers = λ a used. absurd (omega arith);
  current = omega arith;
  victim = omega arith;
}
  where
    open_pending :
        (k : PageAllocationType) (i : ℕ)
        → i < slot_count
        → IsOpen (shared_of k i memory_with_pending) []
    open_pending uninitialized i lt = record { linked = refl; unmarked = omega arith }
    open_pending zeroed i lt = record { linked = refl; unmarked = omega arith }

    private_pending :
        (k : PageAllocationType)
        → IsPages memory_with_pending.footers (get_private_stack k memory_with_pending) []
    private_pending uninitialized = record {
      linked = refl;
      once = λ a. omega arith;
      cached = inl refl;
    }
    private_pending zeroed = record { linked = refl; once = λ a. omega arith; cached = inl refl }

process_example :
    Processed 64 []
      (112 ∷ [])
      (λ a. 0)
      progress_lock_free
      memory_with_pending
      (process_pending_unpins 1 progress_lock_free memory_with_pending)
process_example =
    process-Processed (112 ∷ []) progress_lock_free 1 memory_with_pending with_pending-IsPool
      (λ e. omega arith)

pin_example :
    (t u : Pool ℕ) × (pin_page ⦃pm = four_pages⦄ 1 64 memory_with_pending ≡ ok tt t)
    × (t.footers.m_pin_count 112 ≡ 1)
    × (unpin_page ⦃pm = four_pages⦄ 1 64 t ≡ ok tt u)
    × ((a : ℕ)
        → u.footers.m_pin_count a ≡ unpin_all (112 ∷ []) memory_with_pending.footers.m_pin_count a)
    × IsPool 64 [] [] (λ a. 0) u
pin_example =
    pin_page-unpin_page ⦃pm = four_pages⦄ [] (112 ∷ []) (λ a. 0) memory_with_pending 1 64 112
      with_pending-IsPool (omega arith) footer_112 (omega arith)

-- Two pages in the first slot; the pin counts are changed by other threads at each call.
abbrev memory_with_two : Pool ℕ
memory_with_two = record memory {
  slots = λ slot. record { m_page_stack = if slot == 0 then 112 else 0; m_zeroed_page_stack = 0 };
  footers = record { m_next_page = λ a. if a == 112 then 176 else 0; m_pin_count = λ a. 1 };
  contention = λ call. true;
}

cut_example :
    (t : Pool ℕ) × (unpin_page_with ⦃pm = four_pages⦄ 0 progress_wait_free 64 memory_with_two
      ≡ ok tt t)
    × IsOpen (shared_of uninitialized 0 t) (112 ∷ [])
    × (t.m_pages_to_unpin.m_first ≡ 112)
cut_example =
    unpin_page_with-cut ⦃pm = four_pages⦄ uninitialized 0 0 64 112 [] (176 ∷ []) memory_with_two
      footer_112 refl refl
      (record { linked = (refl, omega arith, (refl, omega arith, refl)); unmarked = omega arith })
      (λ a. ground arith)

allocate_page_example :
    PageOrThrow four_pages FourGiven []
      (λ a. 0)
      (allocate_page ⦃pm = four_pages⦄ zeroed 3 (construct_allocator 7 memory))
allocate_page_example =
    allocate_page-PageOrThrow ⦃pm = four_pages⦄ four_pages-IsSource zeroed [] [] (λ a. 0) 3
      (construct_allocator 7 memory) construct_example.pool (λ a used. absurd (omega arith))
      (omega arith)
