-- ===== src/HeterQueue/Cleaning.antt =====
-- heter_queue.h: what `clean_dead_elements` does to a well formed queue.
use density.HeterQueue.Live.{live-drop_dead, mem-drop_dead}
use density.HeterQueue.Consumer.{valid-Chain}
use density.Base.{subst, ℕ, ◌<◌, ◌≡◌, refl, ap, ◌∙◌, List, [], ◌∷◌, arith, length, map}
use density.HeterQueue.Layout.{next_block, Layout, IsLayout}
use density.HeterQueue.Consume.{release_block, clean_dead_elements}
use density.Allocator.{Allocator, IsAllocator}
use density.HeterQueue.State.{Queue}
use density.Effects.{ok}
use density.HeterQueue.Chain.{dead_prefix, drop_dead, first_of, Chain-drop_dead}
use density.HeterQueue.Walk.{clean_loop-dead, released, with_head}
use density.HeterQueue.Invariant.{contents, Owned, IsOpen, IsValid, virgin, opened}
use density.HeterQueue.Release.{released-Owned}

module _ {A T V : Type 0} ⦃l : Layout⦄ ⦃al : Allocator A⦄ (laws : IsAllocator al l.page_alignment)
    (lay : IsLayout l) where
  -- Cleaning changes the head and the allocator only.
  released-fields :
      (ps : List ℕ) (s : Queue A T V)
      → released ps s ≡ record s { allocator = (released ps s).allocator }
  unfolding released
  released-fields [] s = refl
  released-fields (p ∷ ps) s = released-fields ps (release_block p (next_block (s.m_next p)) s)

  -- The state after cleaning.
  abbrev cleaned : Queue A T V → List ℕ → Queue A T V
  cleaned s xs = record s {
    m_head = first_of s.m_tail (drop_dead s.m_next xs);
    allocator = (released (dead_prefix s.m_next xs) s).allocator;
  }

  cleaned-IsOpen :
      (s : Queue A T V) (xs : List ℕ)
      → IsOpen laws s xs
      → IsOpen laws (cleaned s xs) (drop_dead s.m_next xs)
  cleaned-IsOpen s xs o = record {
    chain = Chain-drop_dead o.chain;
    owned = record {
      pages = own.pages;
      pages_distinct = own.pages_distinct;
      blocks = own.blocks;
      blocks_distinct = own.blocks_distinct;
    };
    bounds = λ a i. o.bounds a (mem-drop_dead s.m_next a xs i);
    below = λ a i. o.below a (mem-drop_dead s.m_next a xs i);
    tail_bound = o.tail_bound;
    tail_aligned = o.tail_aligned;
    tail_room = o.tail_room;
  }
    where
      dead : List ℕ
      dead = dead_prefix s.m_next xs

      own :
          Owned laws (record s { allocator = (released dead s).allocator }) (drop_dead s.m_next xs)
      own =
          subst (λ t. Owned laws t (drop_dead s.m_next xs)) (released-fields dead s)
            (released-Owned laws lay s xs o.chain (λ a i. omega (arith, o.bounds a i))
              (omega (arith, o.tail_bound)) o.owned)

  -- `clean_dead_elements` on a well formed queue, with more fuel than there are control blocks, ends
  -- with a well formed queue: its chain is the one before without the dead blocks in front, what the
  -- allocator has given out is what this chain stands in and points to, the contents are those before
  -- and nothing is destroyed.
  pub clean-IsValid :
      (fuel : ℕ) (s : Queue A T V) (xs : List ℕ)
      → IsValid laws s xs
      → length xs < fuel
      → (t : Queue A T V) × (clean_dead_elements fuel s ≡ ok tt t)
        × IsValid laws t (drop_dead s.m_next xs)
        × (contents t (drop_dead s.m_next xs) ≡ contents s xs)
        × (t.events ≡ s.events)
        × (t.m_next ≡ s.m_next)
  unfolding clean_dead_elements released
  clean-IsValid fuel s xs v h = (
    cleaned s xs,
    clean_loop-dead fuel s (valid-Chain laws lay v) h
        ∙ ap (λ u. ok tt (with_head (first_of s.m_tail (drop_dead s.m_next xs)) u))
            (released-fields (dead_prefix s.m_next xs) s),
    valid v,
    ap (map (λ q. (s.types q, s.elements q))) (live-drop_dead s.m_next xs),
    refl,
    refl,
  )
    where
      valid :
          {ys : List ℕ} → IsValid laws s ys → IsValid laws (cleaned s ys) (drop_dead s.m_next ys)
      valid (opened o) = opened (cleaned-IsOpen s _ o)
      valid (virgin w) = virgin (record {
        head_invalid = w.tail_invalid;
        tail_invalid = w.tail_invalid;
        no_pages = w.no_pages;
        lent_blocks = w.lent_blocks;
        lent_distinct = tt;
      })
