-- ===== src/PageAllocator/SlotChanges.antt =====
-- detail/page_allocator.h: a change of one stack of a slot.
use density.PageAllocator.Operations.{
  PageAllocationType, uninitialized, zeroed, Pool, slot_count, get_stack, get_private_stack,
  shared_of, put_shared,
}
use density.Base.{
  ℕ, ◌+◌, ◌<◌, ◌≡◌, ◌≢◌, sym, ◌∙◌, subst, true, Bool-cases, inl, inr, List, count, arith, ◌==◌,
}
use density.PageStack.Sequential.{IsPages}
use density.PageStack.WaitFree.{Shared}
use density.PageStack.Conservation.{Segment-agree}
use density.PageAllocator.CallSteps.{IsOpen}
use density.PageAllocator.Tops.{same_kind, first_put, put_pages, put_pages-count, IsPages-agree}
use density.PageAllocator.Invariant.{IsPool, slot_apart, private_apart, pending_apart}

-- The same stack and pages, otherwise written.
IsOpen-at :
    (next : ℕ → ℕ) (first first' : ℕ) (pages pages' : List ℕ)
    → first' ≡ first
    → pages' ≡ pages
    → IsOpen (record { m_first = first; m_next_page = next }) pages
    → IsOpen (record { m_first = first'; m_next_page = next }) pages'
IsOpen-at next first first' pages pages' e f o =
    subst (λ x. IsOpen (record { m_first = x; m_next_page = next }) pages') (sym e)
      (subst (λ x. IsOpen (record { m_first = first; m_next_page = next }) x) (sym f) o)

module _ {A : Type 0} {page_alignment : ℕ} {world pending : List ℕ} {held : ℕ → ℕ} {s : Pool A}
    (p : IsPool page_alignment world pending held s) where
  kept-IsOpen :
      (k k' : PageAllocationType) (i j : ℕ) (t : Shared) (new : List ℕ)
      → i < slot_count
      → j < slot_count
      → (same_kind k k' ≡ true → j ≢ i)
      → ((a : ℕ) → count a (p.pages k i) + held a ≡ 0 → t.m_next_page a ≡ s.footers.m_next_page a)
      → IsOpen (record t { m_first = get_stack k' (s.slots j) }) (p.pages k' j)
  kept-IsOpen k k' i j t new lt lt' ne frame =
      let o = p.opened k' j lt' in
      record {
        linked =
            Segment-agree s.footers.m_next_page t.m_next_page (get_stack k' (s.slots j)) 0
              (p.pages k' j) (λ a pos. frame a (slot_apart p k k' i j a lt lt' ne pos)) o.linked;
        unmarked = o.unmarked;
      }

  -- A call of a slot that moves pages between its stack and the hand of the thread.
  pub put-IsPool :
      (k : PageAllocationType) (i : ℕ) (t : Shared) (new : List ℕ) (held' : ℕ → ℕ)
      → i < slot_count
      → IsOpen t new
      → ((a : ℕ) → count a new + held' a ≡ count a (p.pages k i) + held a)
      → ((a : ℕ) → count a (p.pages k i) + held a ≡ 0 → t.m_next_page a ≡ s.footers.m_next_page a)
      → IsPool page_alignment world pending held' (put_shared k i t s)
  put-IsPool k i t new held' lt o moved frame = record {
    pages = put_pages k i new p.pages;
    privates = p.privates;
    opened = opened';
    private = private';
    to_unpin =
        IsPages-agree s.footers (put_shared k i t s).footers s.m_pages_to_unpin pending
          (λ a pos. frame a (pending_apart p k i a lt pos)) p.to_unpin;
    all = λ a. omega (
      arith,
      p.all a,
      moved a,
      put_pages-count k i a new p.pages (λ x. count a (p.privates x)) lt,
    );
    apart = p.apart;
    are_footers = p.are_footers;
    current = p.current;
    victim = p.victim;
  }
    where
      opened' :
          (k' : PageAllocationType) (j : ℕ)
          → j < slot_count
          → IsOpen (shared_of k' j (put_shared k i t s)) (put_pages k i new p.pages k' j)
      opened' k' j lt' =
          let top = first_put k k' i j t s in
          let f = get_stack k' ((put_shared k i t s).slots j) in
          elim (Bool-cases (same_kind k k')) [
            | inr e ↦
                IsOpen-at t.m_next_page (get_stack k' (s.slots j)) f (p.pages k' j)
                  (put_pages k i new p.pages k' j) (top ∙ rw e) (rw e)
                  (kept-IsOpen k k' i j t new lt lt' (λ h. cc) frame)
            | inl e ↦ elim (Bool-cases (j == i)) [
              | inl here ↦
                  IsOpen-at t.m_next_page t.m_first f new (put_pages k i new p.pages k' j)
                    (top ∙ rw (e, here)) (rw (e, here)) o
              | inr there ↦
                  IsOpen-at t.m_next_page (get_stack k' (s.slots j)) f (p.pages k' j)
                    (put_pages k i new p.pages k' j) (top ∙ rw (e, there)) (rw (e, there))
                    (kept-IsOpen k k' i j t new lt lt' (λ h. ground arith) frame)
            ]
          ]

      private' :
          (k' : PageAllocationType)
          → IsPages
              (put_shared k i t s).footers
              (get_private_stack k' (put_shared k i t s))
              (p.privates k')
      private' uninitialized =
          IsPages-agree s.footers (put_shared k i t s).footers s.m_private_page_stack
            (p.privates uninitialized)
            (λ a pos. frame a (private_apart p k uninitialized i a lt pos))
            (p.private uninitialized)
      private' zeroed =
          IsPages-agree s.footers (put_shared k i t s).footers s.m_private_zeroed_page_stack
            (p.privates zeroed) (λ a pos. frame a (private_apart p k zeroed i a lt pos))
            (p.private zeroed)
