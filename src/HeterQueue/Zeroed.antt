-- ===== src/HeterQueue/Zeroed.antt =====
-- heter_queue.h: what `allocate_new_page` leaves if there is no page.
use density.Base.{ℕ, ◌≡◌, refl, true, false, List, arith, none, ◌==◌, Bool-cases, inl, inr}
use density.Allocator.{Allocator, IsAllocator}
use density.Effects.{update, throw}
use density.HeterQueue.Layout.{Layout, IsLayout, s_invalid_control_block}
use density.HeterQueue.State.{Queue}
use density.HeterQueue.Put.{set_next, zero_tail, allocate_new_page}
use density.HeterQueue.Chain.{live, Chain-frame, Chain-small}
use density.HeterQueue.Live.{live-absent}
use density.HeterQueue.Extend.{external_blocks-absent}
use density.HeterQueue.Invariant.{IsOpenWith, IsValidWith, virgin, opened}
use density.HeterQueue.Grow.{tail-absent}
use density.HeterQueue.Paging.{tail-valid}

module _ {A T V : Type 0} ⦃l : Layout⦄ ⦃al : Allocator A⦄ (laws : IsAllocator al l.page_alignment)
    (lay : IsLayout l) where
  -- A state that differs in the allocator and in the word behind the tail, which is not in the chain.
  pub record IsKept (lent : List ℕ) (s : Queue A T V) (xs : List ℕ) (t : Queue A T V) : Type 0 where
    pub valid : IsValidWith laws lent t xs
    pub same : t ≡ record s { m_next = t.m_next; allocator = t.allocator }
    pub words : (q : ℕ) → (q == s.m_tail) ≡ false → t.m_next q ≡ s.m_next q
    pub others : live t.m_next xs ≡ live s.m_next xs

  pub allocator-IsKept :
      {lent : List ℕ} (s : Queue A T V) (a : A) {xs : List ℕ}
      → IsValidWith laws lent (record s { allocator = a }) xs
      → IsKept lent s xs (record s { allocator = a })
  allocator-IsKept s a v = record { valid = v; same = refl; words = λ q h. refl; others = refl }

  set_tail-IsOpenWith :
      {lent : List ℕ} (s : Queue A T V) {xs : List ℕ}
      → IsOpenWith laws lent s xs
      → IsOpenWith laws lent (set_next s.m_tail 0 s) xs
  set_tail-IsOpenWith s {xs} o =
      let out = tail-absent laws lay o in
      let blocks = external_blocks-absent s.m_next s.externals s.m_tail 0 xs out in
      record {
        chain = Chain-frame (update s.m_next s.m_tail 0) o.chain (λ a i.
            elim (Bool-cases (a == s.m_tail)) [
              | inl here ↦ absurd (ground (arith, i, out, here))
              | inr there ↦ rw there (Chain-small a o.chain i, refl)
            ]);
        owned = record {
          pages = o.owned.pages;
          pages_distinct = o.owned.pages_distinct;
          blocks = rw blocks o.owned.blocks;
          blocks_distinct = rw blocks o.owned.blocks_distinct;
        };
        bounds = o.bounds;
        below = o.below;
        tail_bound = o.tail_bound;
        tail_aligned = o.tail_aligned;
        tail_room = o.tail_room;
      }

  pub zero_tail-IsKept :
      {lent : List ℕ} (s : Queue A T V) {xs : List ℕ}
      → IsValidWith laws lent s xs
      → IsKept lent s xs (zero_tail s)
  zero_tail-IsKept s (virgin v) =
      let invalid : (s.m_tail == s_invalid_control_block) ≡ true = ground (arith, v.tail_invalid) in
      rw invalid (allocator-IsKept s s.allocator (virgin v))
  zero_tail-IsKept s (opened {xs} o) = rw (tail-valid laws lay s o) (record {
    valid = opened (set_tail-IsOpenWith s o);
    same = refl;
    words = λ q h. rw h;
    others = live-absent s.m_next s.m_tail 0 xs (tail-absent laws lay o);
  })

module _ {A T V : Type 0} ⦃l : Layout⦄ ⦃al : Allocator A⦄ where
  pub new_page-none :
      (s : Queue A T V)
      → al.allocate_page s.allocator ≡ none
      → allocate_new_page s ≡ throw (zero_tail s)
  unfolding allocate_new_page
  new_page-none s e = rw (allocate_new_page, e)
