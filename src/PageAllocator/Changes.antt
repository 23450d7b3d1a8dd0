-- ===== src/PageAllocator/Changes.antt =====
-- detail/page_allocator.h: changes of the stacks of a thread.
use density.PageAllocator.Operations.{
  set_private_stack, PageAllocationType, uninitialized, zeroed, Pool, slot_count, get_stack,
  get_private_stack,
}
use density.Base.{ℕ, ◌+◌, ◌≤◌, ◌<◌, ◌≡◌, refl, List, count, arith}
use density.PageStack.Operations.{Footers, PageStack}
use density.PageStack.Sequential.{IsPages}
use density.PageStack.Conservation.{Segment-agree}
use density.PageAllocator.CallSteps.{IsOpen}
use density.PageAllocator.Tops.{by_kind, IsPages-agree}
use density.PageAllocator.Invariant.{
  IsPool, slot_private_apart, two_private_apart, private_hand_apart, private_pending_apart,
}

module _ {A : Type 0} {page_alignment : ℕ} {world pending : List ℕ} {held : ℕ → ℕ} {s : Pool A}
    (p : IsPool page_alignment world pending held s) where
  pub after-IsOpen :
      (m : Footers)
      → ((a : ℕ) (k' : PageAllocationType) (j : ℕ)
          → j < slot_count
          → 0 < count a (p.pages k' j)
          → m.m_next_page a ≡ s.footers.m_next_page a)
      → (k' : PageAllocationType) (j : ℕ) → j < slot_count
      → IsOpen
          (record { m_first = get_stack k' (s.slots j); m_next_page = m.m_next_page })
          (p.pages k' j)
  after-IsOpen m frame k' j lt =
      let o = p.opened k' j lt in
      record {
        linked =
            Segment-agree s.footers.m_next_page m.m_next_page (get_stack k' (s.slots j)) 0
              (p.pages k' j) (λ a pos. frame a k' j lt pos) o.linked;
        unmarked = o.unmarked;
      }

  -- A change of a private stack and of the footers of its pages and of pages in hand.
  pub private-IsPool :
      (k : PageAllocationType) (st : PageStack) (m : Footers) (new : List ℕ) (held' : ℕ → ℕ)
      → IsPages m st new
      → ((a : ℕ) → count a new + held' a ≡ count a (p.privates k) + held a)
      → ((a : ℕ) → count a (p.privates k) + held a ≡ 0 → m.m_next_page a ≡ s.footers.m_next_page a)
      → IsPool page_alignment world pending held'
          (set_private_stack k st (record s { footers = m }))
  private-IsPool uninitialized st m new held' i moved frame = record {
    pages = p.pages;
    privates = by_kind (λ _. List ℕ) new (p.privates zeroed);
    opened =
        after-IsOpen m
          (λ a k' j lt pos. frame a (slot_private_apart p uninitialized k' j a lt pos));
    private =
        by_kind
          (λ k'.
            IsPages m (get_private_stack k' (record s { m_private_page_stack = st; footers = m }))
              (by_kind (λ _. List ℕ) new (p.privates zeroed) k'))
          (i)
          (IsPages-agree s.footers m s.m_private_zeroed_page_stack (p.privates zeroed)
            (λ a pos. frame a (two_private_apart p uninitialized zeroed a refl pos))
            (p.private zeroed));
    to_unpin =
        IsPages-agree s.footers m s.m_pages_to_unpin pending
          (λ a pos. frame a (private_pending_apart p uninitialized a pos)) p.to_unpin;
    all = λ a. omega (arith, p.all a, moved a);
    apart = p.apart;
    are_footers = p.are_footers;
    current = p.current;
    victim = p.victim;
  }
  private-IsPool zeroed st m new held' i moved frame = record {
    pages = p.pages;
    privates = by_kind (λ _. List ℕ) (p.privates uninitialized) new;
    opened = after-IsOpen m (λ a k' j lt pos. frame a (slot_private_apart p zeroed k' j a lt pos));
    private =
        by_kind
          (λ k'.
            IsPages m
              (get_private_stack k' (record s { m_private_zeroed_page_stack = st; footers = m }))
              (by_kind (λ _. List ℕ) (p.privates uninitialized) new k'))
          (IsPages-agree s.footers m s.m_private_page_stack (p.privates uninitialized)
            (λ a pos. frame a (two_private_apart p zeroed uninitialized a refl pos))
            (p.private uninitialized))
          (i);
    to_unpin =
        IsPages-agree s.footers m s.m_pages_to_unpin pending
          (λ a pos. frame a (private_pending_apart p zeroed a pos)) p.to_unpin;
    all = λ a. omega (arith, p.all a, moved a);
    apart = p.apart;
    are_footers = p.are_footers;
    current = p.current;
    victim = p.victim;
  }

  -- A change of the links of pages in hand.
  pub hand-IsPool :
      (m : Footers)
      → ((a : ℕ) → held a ≡ 0 → m.m_next_page a ≡ s.footers.m_next_page a)
      → IsPool page_alignment world pending held (record s { footers = m })
  hand-IsPool m frame = record {
    pages = p.pages;
    privates = p.privates;
    opened = after-IsOpen m (λ a k' j lt pos.
        frame a (omega (arith, slot_private_apart p uninitialized k' j a lt pos)));
    private =
        by_kind (λ k'. IsPages m (get_private_stack k' (record s { footers = m })) (p.privates k'))
          (IsPages-agree s.footers m s.m_private_page_stack (p.privates uninitialized)
            (λ a pos. frame a (private_hand_apart p uninitialized a pos)) (p.private uninitialized))
          (IsPages-agree s.footers m s.m_private_zeroed_page_stack (p.privates zeroed)
            (λ a pos. frame a (private_hand_apart p zeroed a pos)) (p.private zeroed));
    to_unpin =
        IsPages-agree s.footers m s.m_pages_to_unpin pending
          (λ a pos. frame a (omega (arith, private_pending_apart p uninitialized a pos)))
          p.to_unpin;
    all = p.all;
    apart = p.apart;
    are_footers = p.are_footers;
    current = p.current;
    victim = p.victim;
  }

  pub held-IsPool :
      (held' : ℕ → ℕ) → ((a : ℕ) → held' a ≡ held a) → IsPool page_alignment world pending held' s
  held-IsPool held' same = record {
    pages = p.pages;
    privates = p.privates;
    opened = p.opened;
    private = p.private;
    to_unpin = p.to_unpin;
    all = λ a. omega (arith, p.all a, same a);
    apart = p.apart;
    are_footers = p.are_footers;
    current = p.current;
    victim = p.victim;
  }

  -- Fewer pages are still to be unpinned.
  pub pending-IsPool :
      (st : PageStack) (pending' : List ℕ)
      → IsPages s.footers st pending'
      → ((a : ℕ) → count a pending' ≤ count a pending)
      → IsPool page_alignment world pending' held (record s { m_pages_to_unpin = st })
  pending-IsPool st pending' i less = record {
    pages = p.pages;
    privates = p.privates;
    opened = p.opened;
    private =
        by_kind
          (λ k'.
            IsPages s.footers (get_private_stack k' (record s { m_pages_to_unpin = st }))
              (p.privates k'))
          (p.private uninitialized) (p.private zeroed);
    to_unpin = i;
    all = p.all;
    apart = λ a. omega (arith, p.apart a, less a);
    are_footers = p.are_footers;
    current = p.current;
    victim = p.victim;
  }

  -- What the pages do not depend on.
  pub rest-IsPool :
      (current victim calls : ℕ) (pins bytes : ℕ → ℕ) (system : A)
      → current < slot_count
      → victim < slot_count
      → IsPool page_alignment world pending held (record s {
        m_current_slot = current;
        m_victim_slot = victim;
        calls = calls;
        footers = record s.footers { m_pin_count = pins };
        bytes = bytes;
        system = system;
      })
  rest-IsPool current victim calls pins bytes system lt lt' = record {
    pages = p.pages;
    privates = p.privates;
    opened = p.opened;
    private =
        by_kind
          (λ k'.
            IsPages (record s.footers { m_pin_count = pins })
              (get_private_stack k' (record s {
                m_current_slot = current;
                m_victim_slot = victim;
                calls = calls;
                footers = record s.footers { m_pin_count = pins };
                bytes = bytes;
                system = system;
              }))
              (p.privates k'))
          (IsPages-agree s.footers (record s.footers { m_pin_count = pins }) s.m_private_page_stack
            (p.privates uninitialized) (λ a pos. refl) (p.private uninitialized))
          (IsPages-agree s.footers (record s.footers { m_pin_count = pins })
            s.m_private_zeroed_page_stack (p.privates zeroed) (λ a pos. refl) (p.private zeroed));
    to_unpin =
        IsPages-agree s.footers (record s.footers { m_pin_count = pins }) s.m_pages_to_unpin pending
          (λ a pos. refl) p.to_unpin;
    all = p.all;
    apart = p.apart;
    are_footers = p.are_footers;
    current = lt;
    victim = lt';
  }
