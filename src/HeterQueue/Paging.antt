-- ===== src/HeterQueue/Paging.antt =====
-- heter_queue.h: `allocate_new_page` gives a well formed queue a tail at the start of a new page.
use density.Base.{ap}
use mathlib.Core.Path.{fun_ext}
use density.Effects.{update, ok}
use mathlib.Core.List.{append-nil}
use native.Mathlib.Nat.{div-add-mod', div-eq_of_lt}
use density.Base.{
  ◌-◌, ℕ, ◌+◌, ◌/◌, ◌%◌, ◌≡◌, refl, ◌∙◌, true, false, List, [], ◌∷◌, ◌++◌, arith, ◌==◌, Bool-cases,
  inl, inr, some,
}
use density.Align.{add_word}
use density.Allocator.{Allocator, IsAllocator}
use density.Align.Pages.{page_of}
use density.HeterQueue.Layout.{Layout, IsLayout, min_alignment, queue_dead, s_invalid_control_block}
use density.HeterQueue.State.{Queue}
use density.Effects.{ok}
use density.HeterQueue.Put.{allocate_new_page}
use density.HeterQueue.Chain.{live, nil}
use density.HeterQueue.Invariant.{IsOpenWith, IsVirginWith, IsValidWith, virgin, opened}
use density.HeterQueue.Extend.{live-snoc}
use density.HeterQueue.Grow.{grown, IsStep, grow_new_page, tail-absent}
use density.Align.Multiples.{multiple_trans}
use density.HeterQueue.Sizes.{control_size-eq, min_alignment-eight}

-- The second of two writes at an address is seen.
update_twice : (f : ℕ → ℕ) (p v w : ℕ) → update (update f p v) p w ≡ update f p w
update_twice f p v w = fun_ext (λ q. elim (Bool-cases (q == p)) [ inl e ↦ rw e | inr e ↦ rw e ])

module _ {A : Type 0} ⦃l : Layout⦄ ⦃al : Allocator A⦄ (laws : IsAllocator al l.page_alignment)
    (lay : IsLayout l) where
  -- A new page is a place for a block, and a dead word can lead to it.
  page-IsStep :
      (s t : A) (p : ℕ)
      → al.allocate_page s ≡ some (p, t)
      → IsStep (p + queue_dead) p × (page_of l.page_alignment p ≡ p)
  page-IsStep s t p e =
      let (start, pos, bound) = laws.page_bounds s t p e in
      let at_start : page_of l.page_alignment p ≡ p =
        omega (arith, div-add-mod' p l.page_alignment) in
      let mult = multiple_trans min_alignment l.page_alignment p lay.page_multiple start in
      let eight = multiple_trans 8 min_alignment p (min_alignment-eight lay) mult in
      (
        record {
          small = omega arith;
          leads = omega arith;
          inside = omega arith;
          aligned = mult;
          bound = omega arith;
          room = omega (arith, lay.room);
        },
        at_start,
      )

module _ {A T V : Type 0} ⦃l : Layout⦄ ⦃al : Allocator A⦄ (laws : IsAllocator al l.page_alignment)
    (lay : IsLayout l) where
  pub record IsPaged (lent : List ℕ) (s : Queue A T V) (xs : List ℕ) (t : Queue A T V) (ys : List ℕ)
      : Type 0 where
    pub opens : IsOpenWith laws lent t ys
    pub start : t.m_tail % l.page_alignment ≡ 0
    pub others : live t.m_next ys ≡ live s.m_next xs
    pub same_types : t.types ≡ s.types
    pub same_elements : t.elements ≡ s.elements
    pub same_events : t.events ≡ s.events

  -- A tail in a page is told from the invalid one.
  pub tail-valid :
      {lent : List ℕ} (s : Queue A T V) {xs : List ℕ}
      → IsOpenWith laws lent s xs
      → (s.m_tail == s_invalid_control_block) ≡ false
  unfolding s_invalid_control_block
  tail-valid s o = elim (Bool-cases (s.m_tail == l.page_size - 1)) [
    | inl e ↦
        let eq : s.m_tail ≡ l.page_size - 1 = ground arith in
        let first : s.m_tail / l.page_alignment ≡ 0 =
          div-eq_of_lt (omega (arith, lay.room, lay.page_size_le)) in
        absurd (grind (arith, o.tail_room, control_size-eq lay, lay.room))
    | inr e ↦ e
  ]

  new_page_virgin :
      {lent : List ℕ} (s : Queue A T V) (p : ℕ) (a : A)
      → IsVirginWith laws lent s
      → al.allocate_page s.allocator ≡ some (p, a)
      → IsOpenWith laws lent (record s { m_tail = p; m_head = p; allocator = a }) []
  new_page_virgin {lent} s p a v e =
      let (step, at_start) = page-IsStep laws lay s.allocator a p e in
      record {
        chain = nil refl;
        owned = record {
          pages = λ b. ground (arith, at_start, laws.page_owned s.allocator a p b e, v.no_pages b);
          pages_distinct = (refl, tt);
          blocks =
              rw (append-nil lent) (λ b. laws.page_blocks s.allocator a p b e ∙ v.lent_blocks b);
          blocks_distinct = rw (append-nil lent) v.lent_distinct;
        };
        bounds = λ b i. absurd (ground (arith, i));
        below = λ b i. absurd (ground (arith, i));
        tail_bound = step.bound;
        tail_aligned = step.aligned;
        tail_room = step.room;
      }

  pub new_page-IsPaged :
      {lent : List ℕ} (s : Queue A T V) {xs : List ℕ} (p : ℕ) (a : A)
      → IsValidWith laws lent s xs
      → al.allocate_page s.allocator ≡ some (p, a)
      → (t : Queue A T V) × (ys : List ℕ) × (allocate_new_page s ≡ ok tt t) × IsPaged lent s xs t ys
  unfolding allocate_new_page
  new_page-IsPaged s p a (virgin v) e =
      let invalid : (s.m_tail == s_invalid_control_block) ≡ true = ground (arith, v.tail_invalid) in
      (
        record s { m_tail = p; m_head = p; allocator = a },
        [],
        rw (allocate_new_page, e, invalid),
        record {
          opens = new_page_virgin s p a v e;
          start = (laws.page_bounds s.allocator a p e).0;
          others = refl;
          same_types = refl;
          same_elements = refl;
          same_events = refl;
        },
      )
  new_page-IsPaged s p a (opened {xs} o) e =
      let (step, at_start) = page-IsStep laws lay s.allocator a p e in
      let (start, pos, bound) = laws.page_bounds s.allocator a p e in
      let word : add_word p queue_dead ≡ p + queue_dead = omega arith in
      let dead : ((p + queue_dead) % 4 == 0) ≡ false = ground (arith, step.leads) in
      (
        grown s (p + queue_dead) p a,
        xs ++ s.m_tail ∷ [],
        rw (allocate_new_page, e, tail-valid s o, word)
            (ap (λ next. ok tt (record (grown s (p + queue_dead) p a) { m_next = next }))
              (update_twice s.m_next s.m_tail 0 (p + queue_dead))),
        record {
          opens = grow_new_page laws lay (p + queue_dead) p a o step e;
          start = start;
          others =
              live-snoc s.m_next s.m_tail (p + queue_dead) xs (tail-absent laws lay o)
              ∙ rw dead (append-nil (live s.m_next xs));
          same_types = refl;
          same_elements = refl;
          same_events = refl;
        },
      )
