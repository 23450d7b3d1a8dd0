-- ===== src/PageAllocator/Start.antt =====
-- detail/page_allocator.h: the allocator of a new thread.
use density.PageAllocator.Operations.{m_next_slot}
use density.Base.{◌≢◌}
use density.PageAllocator.Source.{IsFooter}
use density.Base.{ℕ, ◌≤◌, ◌<◌, ◌≡◌, refl, inl, List, [], count, arith}
use density.PageAllocator.CallSteps.{IsOpen}
use density.PageAllocator.Operations.{
  PageAllocationType, uninitialized, zeroed, Pool, slot_count, shared_of, get_private_stack,
}
use density.PageStack.Operations.{stack_of, Footers}
use density.PageStack.Sequential.{IsPages}
use density.PageAllocator.Pages.{assign_slot, construct_allocator}
use density.PageAllocator.Sums.{sum}
use density.PageAllocator.Tops.{both}
use density.PageAllocator.Invariant.{IsPool}
use density.PageAllocator.Rounds.{next_slot-bound}

empty-IsPages : (m : Footers) → IsPages m (stack_of 0) []
empty-IsPages m = record { linked = refl; once = λ a. omega arith; cached = inl refl }

next_slot-other : (m : ℕ) → m_next_slot m ≢ m
next_slot-other m = λ e. ground (arith, e)

-- A pool of the pages `world` that all lie in the slots, of a thread that starts at the slot `slot` and
-- steals from the next one, where the next thread starts.
pub record Started {A : Type 0} (page_alignment : ℕ) (world : List ℕ)
    (pages : PageAllocationType → ℕ → List ℕ) (slot : ℕ) (s : Pool A) : Type 0 where
  pub pool : IsPool page_alignment world [] (λ a. 0) s
  pub in_slots : (k : PageAllocationType) (i : ℕ) → pool.pages k i ≡ pages k i
  pub no_private : (k : PageAllocationType) → pool.privates k ≡ []
  pub current : s.m_current_slot ≡ slot
  pub victim : s.m_victim_slot ≡ (assign_slot slot).1
  pub other : (assign_slot slot).1 ≢ slot
  pub next : (assign_slot slot).1 < slot_count

-- If the slots hold the pages `world`, each once and each a footer of its page, then the allocator that is
-- constructed for a new thread, at a slot of the ring, knows these pages, all in the slots as they were:
-- it holds none, has none pending to be unpinned, and its private stacks are empty. It starts at the slot
-- and steals first from the slot for the next thread, which is another one of the ring.
pub construct_allocator-IsPool :
    {A : Type 0} (page_alignment m_last_assigned : ℕ) (world : List ℕ)
    (pages : PageAllocationType → ℕ → List ℕ) (s : Pool A)
    → m_last_assigned < slot_count
    → ((k : PageAllocationType) (i : ℕ) → i < slot_count → IsOpen (shared_of k i s) (pages k i))
    → ((a : ℕ) → both (λ k. sum slot_count (λ i. count a (pages k i))) ≡ count a world)
    → ((a : ℕ) → count a world ≤ 1)
    → ((a : ℕ) → 0 < count a world → IsFooter page_alignment a)
    → Started page_alignment world pages m_last_assigned (construct_allocator m_last_assigned s)
unfolding construct_allocator assign_slot
construct_allocator-IsPool page_alignment m_last_assigned world pages s lt opened all once footers =
    record {
      pool = record {
        pages = pages;
        privates = λ k. [];
        opened = opened;
        private = empty_private;
        to_unpin = empty-IsPages s.footers;
        all = λ a. omega (arith, all a);
        apart = λ a. omega (arith, once a);
        are_footers = footers;
        current = lt;
        victim = next_slot-bound m_last_assigned lt;
      };
      in_slots = λ k i. refl;
      no_private = λ k. refl;
      current = refl;
      victim = refl;
      other = next_slot-other m_last_assigned;
      next = next_slot-bound m_last_assigned lt;
    }
  where
    empty_private :
        (k : PageAllocationType)
        → IsPages s.footers (get_private_stack k (construct_allocator m_last_assigned s)) []
    empty_private uninitialized = empty-IsPages s.footers
    empty_private zeroed = empty-IsPages s.footers
