-- ===== src/PageStack/Restoring.antt =====
-- detail/wf_page_stack.h: what the search of `try_pop_unpinned` leaves of a stack that it has locked.
use density.PageStack.Conservation.{Holds}
use density.Base.{
  ℕ, ◌≤◌, ◌<◌, ◌≡◌, ◌≢◌, refl, ap, ◌∙◌, inl, List, [], ◌∷◌, ◌++◌, length, count, count-append,
  arith, ◌==◌, false, ◌+◌,
}
use density.Effects.{Result, ok}
use density.PageStack.Operations.{stack_of}
use density.PageStack.Segment.{Segment, IsOnce}
use density.PageStack.Sequential.{IsPages, ArePinned}
use density.PageStack.Popping.{popped, all_pinned, pop_unpinned-Popped}
use density.PageStack.WaitFree.{
  Shared, Local, idle, holding, popping, pop_store, lock_marker, footers,
}
use density.PageStack.Conservation.{focus, locked}
use density.PageStack.Conserved.{unmarked}
use density.PageStack.Population.{IsPopulation, IsConserved}

-- The stack is open again, with the pages `own` of the thread but for the first that is not pinned.
pub data Restored (seen : ℕ → ℕ) (s : Shared) (own : List ℕ) (r : Result Shared Local)
    : Type 0 where
  taken :
      (x : ℕ) (xs ys : List ℕ) (t : Shared)
      → own ≡ xs ++ x ∷ ys
      → ArePinned (footers s.m_next_page seen) xs
      → seen x ≡ 0
      → r ≡ ok (holding x) t
      → t.m_first ≢ lock_marker
      → Segment t.m_next_page t.m_first (xs ++ ys) 0
      → Restored seen s own r
  none_taken :
      (t : Shared)
      → ArePinned (footers s.m_next_page seen) own
      → r ≡ ok idle t
      → t.m_first ≢ lock_marker
      → Segment t.m_next_page t.m_first own 0
      → Restored seen s own r

search-Restored :
    (s : Shared) (first : ℕ) (own : List ℕ) (fuel : ℕ) (seen : ℕ → ℕ)
    → IsOnce own
    → ((a : ℕ) → 0 < count a own → lock_marker < a)
    → Segment s.m_next_page first own 0
    → length own ≤ fuel
    → Restored seen s own (pop_store fuel seen first s)
unfolding pop_store
search-Restored s first own fuel seen once big l enough =
    let start : IsPages (footers s.m_next_page seen) (stack_of first) own = record {
      linked = l;
      once = once;
      cached = inl refl;
    } in
    elim (pop_unpinned-Popped (footers s.m_next_page seen) (stack_of first) own fuel start enough) [
      | popped x xs ys t m' split pinned unpinned pos run i loc ↦
          let some_page : (x == 0) ≡ false = ground arith in
          let counts : (a : ℕ) → count a own ≡ count a (xs ++ ys) + count a (x ∷ []) = λ a.
            ap (count a) split ∙ ground (arith, count-append a xs (x ∷ ys), count-append a xs ys) in
          taken x xs ys _ split pinned unpinned (rw (pop_store, run) (rw some_page refl))
            (unmarked m'.m_next_page t.m_first (xs ++ ys) i.linked
              (λ a lt. big a (omega (arith, lt, counts a))))
            i.linked
      | all_pinned t pinned run i ↦
          none_taken _ pinned (rw (pop_store, run) refl)
            (unmarked s.m_next_page t.m_first own i.linked big) i.linked
    ]

-- A thread that has locked the stack has the pages of the stack, whatever the other threads have done
-- before. Whatever pin counts it sees, its search of `try_pop_unpinned` ends, if the fuel is at least the
-- number of these pages, and stores the top again, so that the stack is not locked any more: the thread
-- holds the first page that it sees unpinned and the others are in the stack in their order, or it sees
-- that all are pinned and all are in the stack.
pub pop_store-Restored :
    (total : ℕ → ℕ) (s : Shared) (before after : List Local) (first : ℕ)
    → IsPopulation total
    → IsConserved total (record { shared = s; threads = before ++ popping first ∷ after })
    → (own : List ℕ) × Segment s.m_next_page first own 0
      × ((fuel : ℕ) (seen : ℕ → ℕ)
          → length own ≤ fuel
          → Restored seen s own (pop_store fuel seen first s))
pop_store-Restored total s before after first pop i =
    let f = focus s.m_next_page before (popping first) after i.threads in
    own_pages f.own f.holds (λ a. omega (arith, i.all a, f.split a, (pop a).0))
      (λ a lt. (pop a).1 (omega (arith, lt, i.all a, f.split a)))
  where
    own_pages :
        (own : List ℕ)
        → Holds s.m_next_page (popping first) own
        → IsOnce own
        → ((a : ℕ) → 0 < count a own → lock_marker < a)
        → (own : List ℕ) × Segment s.m_next_page first own 0
          × ((fuel : ℕ) (seen : ℕ → ℕ)
              → length own ≤ fuel
              → Restored seen s own (pop_store fuel seen first s))
    own_pages own (locked l) once big =
        (own, l, (λ fuel seen enough. search-Restored s first own fuel seen once big l enough))
