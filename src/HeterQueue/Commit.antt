-- ===== src/HeterQueue/Commit.antt =====
-- heter_queue.h: the end of a consume operation, by `commit` or by `cancel`.
use density.Base.{sym}
use density.Base.{true}
use density.Base.{false}
use density.Base.{◌==◌}
use mathlib.Core.List.{map-append}
use density.HeterQueue.Live.{length-drop_dead, live-same, live-unmark}
use density.Base.{◌≤◌, ◌++◌, ◌-◌, ℕ, ◌%◌, ◌<◌, ◌≡◌, ap, ◌∙◌, List, ◌∷◌, ◌∈◌, arith, length, map}
use density.HeterQueue.Consumer.{rewritten, rewritten-IsValid, valid-Chain}
use density.HeterQueue.Cleaning.{clean-IsValid}
use density.HeterQueue.State.{Event, Queue}
use density.Align.{word_mod, add_word, sub_word}
use density.Allocator.{Allocator, IsAllocator}
use density.HeterQueue.Layout.{Layout, IsLayout, queue_busy, queue_dead}
use density.Effects.{update, ok}
use density.HeterQueue.Consume.{cancel_consume_impl, commit}
use density.HeterQueue.Chain.{live, drop_dead, Chain-small}
use density.HeterQueue.Invariant.{contents, IsValid}

module _ {A T V : Type 0} ⦃l : Layout⦄ ⦃al : Allocator A⦄ (laws : IsAllocator al l.page_alignment)
    (lay : IsLayout l) where
  -- A block that an operation holds: in the chain, busy and not dead.
  pub record IsHeld (s : Queue A T V) (xs : List ℕ) (p : ℕ) : Type 0 where
    pub inside : p ∈ xs
    pub busy : s.m_next p % 4 ≡ 1

  held-small :
      {s : Queue A T V} {xs : List ℕ} (p : ℕ)
      → IsValid laws s xs
      → IsHeld s xs p
      → s.m_next p < word_mod
  held-small p v k = Chain-small p (valid-Chain laws lay v) k.inside

  -- `commit` of a consume operation that holds a block of a well formed queue, with more fuel than
  -- there are control blocks: it ends, the block is marked dead and no longer busy and the words of the
  -- other blocks are kept, the dead blocks in front are dropped and only these, the element and then its
  -- type are destroyed, the contents are those before, and the queue is well formed.
  pub commit-IsValid :
      (fuel : ℕ) (s : Queue A T V) (xs : List ℕ) (p : ℕ)
      → IsValid laws s xs
      → IsHeld s xs p
      → length xs < fuel
      → (t : Queue A T V) × (ys : List ℕ) × (commit fuel p s ≡ ok tt t)
        × IsValid laws t ys
        × (contents t ys ≡ contents s xs)
        × (ys ≡ drop_dead t.m_next xs)
        × (t.m_next p % 4 ≡ queue_dead)
        × ((q : ℕ) → (q == p) ≡ false → t.m_next q ≡ s.m_next q)
        × (length ys ≤ length xs)
        × (t.events
            ≡ Event.type_destroyed (s.types p) ∷ Event.element_destroyed (s.elements p) ∷ s.events)
  unfolding commit
  commit-IsValid fuel s xs p v k h =
      let small = held-small p v k in
      let w = add_word (s.m_next p) (queue_dead - queue_busy) in
      let here : (p == p) ≡ true = ground arith in
      let events =
        Event.type_destroyed (s.types p) ∷ Event.element_destroyed (s.elements p) ∷ s.events in
      let marked =
        rewritten-IsValid laws lay p w s.types s.elements events v (omega arith)
          (omega (arith, k.busy)) in
      let (t, e, valid, same, ev, words) =
        clean-IsValid laws lay fuel (rewritten laws lay s p w s.types s.elements events) xs marked
          h in
      (
        t,
        drop_dead (update s.m_next p w) xs,
        e,
        valid,
        same
            ∙ ap (map (λ q. (s.types q, s.elements q)))
                (live-same s.m_next p w xs (ground (arith, k.busy))),
        ap (λ f. drop_dead f xs) (sym words),
        ap (λ f. f p % 4) words ∙ rw here (omega (arith, k.busy)),
        (λ q other. ap (λ f. f q) words ∙ rw other),
        length-drop_dead (update s.m_next p w) xs,
        ev,
      )

  -- `cancel` of a consume operation that holds a block of a well formed queue: the element is part of
  -- the contents again, in its place between those in front of it and those behind it, and the queue
  -- is well formed.
  pub cancel_consume-IsValid :
      (s : Queue A T V) (xs : List ℕ) (p : ℕ)
      → IsValid laws s xs
      → IsHeld s xs p
      → (ys zs : List ℕ) × (xs ≡ ys ++ p ∷ zs)
        × (contents s xs ≡ contents s ys ++ contents s zs)
        × (contents (cancel_consume_impl p s) xs
            ≡ contents s ys ++ (s.types p, s.elements p) ∷ contents s zs)
        × IsValid laws (cancel_consume_impl p s) xs
  unfolding cancel_consume_impl
  cancel_consume-IsValid s xs p v k =
      let small = held-small p v k in
      let w = sub_word (s.m_next p) queue_busy in
      let (ys, zs, e, before, after) =
        live-unmark p w (valid-Chain laws lay v) k.inside k.busy (ground (arith, k.busy)) in
      (
        ys,
        zs,
        e,
        ap objects before ∙ map-append _ (live s.m_next ys) (live s.m_next zs),
        ap objects after ∙ map-append _ (live s.m_next ys) (p ∷ live s.m_next zs),
        rewritten-IsValid laws lay p w s.types s.elements s.events v (omega arith)
            (omega (arith, k.busy)),
      )
    where
      objects : List ℕ → List (T × V)
      objects = map (λ q. (s.types q, s.elements q))
