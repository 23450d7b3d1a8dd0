-- ===== src/HeterQueue/Consumer.antt =====
-- heter_queue.h: consume operations keep a queue well formed and take elements in order.
use density.HeterQueue.Live.{external_blocks-update, live-mark}
use density.HeterQueue.State.{Event, Queue}
use density.Base.{
  ℕ, ◌/◌, ◌%◌, ◌<◌, ◌≡◌, refl, sym, ap, ◌∙◌, List, [], ◌∷◌, ◌∈◌, arith, length, map, Option, none,
  some,
}
use density.Align.{word_mod, add_word}
use density.Allocator.{Allocator, IsAllocator}
use density.HeterQueue.Layout.{Layout, IsLayout, queue_busy}
use density.Effects.{update, Result, ok}
use density.HeterQueue.Consume.{start_consume_impl}
use density.HeterQueue.Chain.{Chain, nil, live, Chain-update}
use density.HeterQueue.Walk.{consume_loop-live, mark_first, first_block}
use density.HeterQueue.Invariant.{external_blocks, contents, IsValid, virgin, opened}

module _ {A T V : Type 0} ⦃l : Layout⦄ ⦃al : Allocator A⦄ (laws : IsAllocator al l.page_alignment)
    (lay : IsLayout l) where
  pub valid-Chain :
      {s : Queue A T V} {xs : List ℕ} → IsValid laws s xs → Chain s.m_next s.m_tail s.m_head xs
  valid-Chain (virgin v) = nil (v.head_invalid ∙ sym v.tail_invalid)
  valid-Chain (opened o) = o.chain

  -- A change of the state bits of one block, of objects and of the trace of destructors.
  abbrev pub rewritten :
      Queue A T V → (p w : ℕ) → (ℕ → T) → (ℕ → V) → List (Event T V) → Queue A T V
  rewritten s p w types elements events = record s {
    m_next = update s.m_next p w;
    types = types;
    elements = elements;
    events = events;
  }

  -- It keeps the queue well formed.
  pub rewritten-IsValid :
      {s : Queue A T V} {xs : List ℕ} (p w : ℕ) (types : ℕ → T) (elements : ℕ → V)
      (events : List (Event T V))
      → IsValid laws s xs
      → w < word_mod
      → w / 4 ≡ s.m_next p / 4
      → IsValid laws (rewritten s p w types elements events) xs
  rewritten-IsValid p w types elements events (virgin v) small e = virgin (record {
    head_invalid = v.head_invalid;
    tail_invalid = v.tail_invalid;
    no_pages = v.no_pages;
    lent_blocks = v.lent_blocks;
    lent_distinct = tt;
  })
  rewritten-IsValid {s} {xs} p w types elements events (opened o) small e = opened (record {
    chain = Chain-update p w o.chain small (omega arith);
    owned = record {
      pages = o.owned.pages;
      pages_distinct = o.owned.pages_distinct;
      blocks = rw same_blocks o.owned.blocks;
      blocks_distinct = rw same_blocks o.owned.blocks_distinct;
    };
    bounds = o.bounds;
    below = o.below;
    tail_bound = o.tail_bound;
    tail_aligned = o.tail_aligned;
    tail_room = o.tail_room;
  })
    where
      same_blocks :
          external_blocks (update s.m_next p w) s.externals xs
          ≡ external_blocks s.m_next s.externals xs
      same_blocks = external_blocks-update s.m_next s.externals p w xs (ground arith)

  -- What `start_consume_impl` does to a queue with the contents `c`.
  abbrev pub Taken : Queue A T V → List ℕ → List (T × V) → Result (Queue A T V) (Option ℕ) → Type 0
  Taken s xs [] r = r ≡ ok none s
  Taken s xs (e ∷ es) r =
      (p : ℕ) × (t : Queue A T V) × (r ≡ ok (some p) t)
      × ((t.types p, t.elements p) ≡ e)
      × (contents t xs ≡ es)
      × (p ∈ xs)
      × (t.m_next p % 4 ≡ 1)
      × (t.events ≡ s.events)
      × IsValid laws t xs

  -- `start_consume_impl` on a well formed queue, with more fuel than there are control blocks, returns
  -- no block and changes nothing if the contents are empty. Otherwise it returns the block of the first
  -- pair of the contents, which is busy then and no longer shown, destroys nothing, and the queue is
  -- well formed.
  pub start_consume-Taken :
      (fuel : ℕ) (s : Queue A T V) (xs : List ℕ)
      → IsValid laws s xs
      → length xs < fuel
      → Taken s xs (contents s xs) (start_consume_impl fuel s)
  unfolding start_consume_impl
  start_consume-Taken fuel s xs v h =
      rw (consume_loop-live fuel s (valid-Chain v) h) (take (live s.m_next xs) refl)
    where
      take :
          (ps : List ℕ)
          → live s.m_next xs ≡ ps
          → Taken s xs
              (map (λ p. (s.types p, s.elements p)) ps)
              (ok (first_block ps) (mark_first ps s))
      take [] e = refl
      take (p ∷ ps) e =
          let (rest, i, ready, small) = live-mark p ps (valid-Chain v) e in
          (
            p,
            _,
            refl,
            refl,
            ap (map (λ q. (s.types q, s.elements q))) rest,
            i,
            ground arith,
            refl,
            rewritten-IsValid p (add_word (s.m_next p) queue_busy) s.types s.elements s.events v
                (omega arith) (omega arith),
          )
