-- ===== src/HeterQueue/Contents.antt =====
-- heter_queue.h: `empty`, `try_pop` and the commit of reentrant puts, in terms of the contents.
use density.Base.{
  arith, ◌%◌, ℕ, ◌<◌, ◌≡◌, refl, ap, ◌∙◌, Bool, true, false, none, some, List, [], ◌∷◌, ◌++◌, map,
  length, ◌-◌,
}
use density.Allocator.{Allocator, IsAllocator}
use density.HeterQueue.Layout.{Layout, IsLayout, queue_dead, queue_busy}
use density.HeterQueue.State.{Queue, Event}
use density.Effects.{Result, ok, bind-ok}
use density.HeterQueue.Put.{commit_reentrant_put_impl, cancel_reentrant_put_impl}
use density.HeterQueue.Consume.{
  first_valid, empty, start_consume_impl, commit, try_pop, cancel_consume_impl,
}
use density.Align.{add_word}
use density.HeterQueue.Live.{live-same}
use density.HeterQueue.Consumer.{rewritten-IsValid, valid-Chain, Taken, start_consume-Taken}
use density.HeterQueue.Chain.{Chain-small, live}
use density.HeterQueue.Walk.{first_valid-live, first_block}
use density.HeterQueue.Invariant.{IsValid, contents}
use density.HeterQueue.Commit.{IsHeld, commit-IsValid, cancel_consume-IsValid}

abbrev pub is_nil {ℓ} : {B : Type ℓ} → List B → Bool
is_nil [] = true
is_nil (b ∷ bs) = false

module _ {A T V : Type 0} ⦃l : Layout⦄ ⦃al : Allocator A⦄ (laws : IsAllocator al l.page_alignment)
    (lay : IsLayout l) where
  -- `empty` on a well formed queue, with more fuel than there are control blocks, says whether the
  -- contents are empty, and changes nothing.
  pub empty-contents :
      (fuel : ℕ) (s : Queue A T V) (xs : List ℕ)
      → IsValid laws s xs
      → length xs < fuel
      → empty fuel s ≡ ok (is_nil (contents s xs)) s
  unfolding empty
  empty-contents fuel s xs v h =
      bind-ok (first_valid fuel s.m_head) _ s s (first_block (live s.m_next xs))
        (first_valid-live fuel s (valid-Chain laws lay v) h)
      ∙ shown (live s.m_next xs)
    where
      shown :
          (ps : List ℕ)
          → ◌≡◌ {A = Result (Queue A T V) Bool}
              (ok (elim (first_block ps) [ none ↦ true | some p ↦ false ]) s)
              (ok (is_nil {B = T × V} (map (λ p. (s.types p, s.elements p)) ps)) s)
      shown [] = refl
      shown (p ∷ ps) = refl

  -- What `try_pop` does to a queue with the contents `c`.
  abbrev pub Popped : Queue A T V → List (T × V) → Result (Queue A T V) Bool → Type 0
  Popped s [] r = r ≡ ok false s
  Popped s (e ∷ es) r =
      (t : Queue A T V) × (ys : List ℕ) × (r ≡ ok true t)
      × IsValid laws t ys
      × (contents t ys ≡ es)
      × (t.events ≡ Event.type_destroyed e.0 ∷ Event.element_destroyed e.1 ∷ s.events)

  -- `try_pop` on a well formed queue, with more fuel than there are control blocks, returns false and changes nothing if the contents are empty.
  -- Otherwise it returns true, the first pair is gone from the contents, its element and then its type
  -- have been destroyed, and the queue is well formed.
  pub try_pop-Popped :
      (fuel : ℕ) (s : Queue A T V) (xs : List ℕ)
      → IsValid laws s xs
      → length xs < fuel
      → Popped s (contents s xs) (try_pop fuel s)
  unfolding try_pop
  try_pop-Popped fuel s xs v h = pop (contents s xs) (start_consume-Taken laws lay fuel s xs v h)
    where
      pop :
          (c : List (T × V))
          → Taken laws lay s xs c (start_consume_impl fuel s)
          → Popped s c (try_pop fuel s)
      pop [] e = bind-ok (start_consume_impl fuel) _ s s none e
      pop (x ∷ c) (p, t, e, found, rest, i, busy, ev, w) =
          let (u, ys, ran, valid, same, dropped, dead, kept, shorter, ev') =
            commit-IsValid laws lay fuel t xs p w (record { inside = i; busy = busy }) h in
          (
            u,
            ys,
            bind-ok (start_consume_impl fuel) _ s t (some p) e
                ∙ bind-ok (commit fuel p) _ t u tt ran,
            valid,
            same ∙ rest,
            ev'
                ∙ ap
                    (λ (q : T × V).
                      Event.type_destroyed q.0 ∷ Event.element_destroyed q.1 ∷ t.events)
                    found
                ∙ ap (λ z. Event.type_destroyed x.0 ∷ Event.element_destroyed x.1 ∷ z) ev,
          )

  -- The commit of a reentrant put that holds a block of a well formed queue makes its element part of
  -- the contents, in the place of its block: between what was put before it and what was put after it.
  -- The queue is well formed.
  pub commit_reentrant_put-contents :
      (s : Queue A T V) (xs : List ℕ) (p : ℕ)
      → IsValid laws s xs
      → IsHeld laws lay s xs p
      → (ys zs : List ℕ) × (xs ≡ ys ++ p ∷ zs)
        × (contents s xs ≡ contents s ys ++ contents s zs)
        × (contents (commit_reentrant_put_impl p s) xs
            ≡ contents s ys ++ (s.types p, s.elements p) ∷ contents s zs)
        × IsValid laws (commit_reentrant_put_impl p s) xs
  unfolding commit_reentrant_put_impl cancel_consume_impl
  commit_reentrant_put-contents s xs p v k = cancel_consume-IsValid laws lay s xs p v k

  -- The cancel of a reentrant put that holds a block of a well formed queue: the element and then its
  -- type are destroyed, the contents are those before, the block is dead and the queue is well formed.
  pub cancel_reentrant_put-contents :
      (s : Queue A T V) (xs : List ℕ) (p : ℕ)
      → IsValid laws s xs
      → IsHeld laws lay s xs p
      → IsValid laws (cancel_reentrant_put_impl p s) xs
        × (contents (cancel_reentrant_put_impl p s) xs ≡ contents s xs)
        × ((cancel_reentrant_put_impl p s).m_next p % 4 ≡ 2)
        × ((cancel_reentrant_put_impl p s).events
            ≡ Event.type_destroyed (s.types p) ∷ Event.element_destroyed (s.elements p) ∷ s.events)
  unfolding cancel_reentrant_put_impl
  cancel_reentrant_put-contents s xs p v k =
      let small = Chain-small p (valid-Chain laws lay v) k.inside in
      let w = add_word (s.m_next p) (queue_dead - queue_busy) in
      (
        rewritten-IsValid laws lay p w s.types s.elements
            (Event.type_destroyed (s.types p) ∷ Event.element_destroyed (s.elements p) ∷ s.events) v
            (omega arith) (omega (arith, k.busy)),
        ap (map (λ q. (s.types q, s.elements q)))
            (live-same s.m_next p w xs (ground (arith, k.busy))),
        ground (arith, k.busy),
        refl,
      )
