-- ===== src/HeterQueue/Clear.antt =====
-- heter_queue.h: `clear` empties a queue and destroys each element once, oldest first.
use density.Base.{
  subst, ℕ, zero, suc, ◌<◌, ◌≤◌, ◌≡◌, refl, ap, ◌∙◌, none, some, List, [], ◌∷◌, map, length, arith,
}
use density.Allocator.{Allocator, IsAllocator}
use density.HeterQueue.Layout.{Layout, IsLayout}
use density.HeterQueue.State.{Queue, Event}
use density.Effects.{ok, bind-ok}
use density.HeterQueue.Consume.{start_consume_impl, commit, clear_loop, clear}
use density.HeterQueue.Chain.{live, drop_dead}
use density.HeterQueue.Invariant.{IsValid, contents}
use density.HeterQueue.Live.{length-live}
use density.HeterQueue.Consumer.{Taken, start_consume-Taken}
use density.HeterQueue.Cleaning.{clean-IsValid}
use density.HeterQueue.Commit.{commit-IsValid}

module _ {T V : Type 0} where
  -- The trace of destructors after the pairs of a list were destroyed in order, each element before
  -- its type.
  abbrev pub destroyed : List (T × V) → List (Event T V) → List (Event T V)
  destroyed [] events = events
  destroyed (e ∷ es) events =
      destroyed es (Event.type_destroyed e.0 ∷ Event.element_destroyed e.1 ∷ events)

length-map {ℓ} : {B C : Type ℓ} (f : B → C) (xs : List B) → length (map f xs) ≡ length xs
length-map f [] = refl
length-map f (x ∷ xs) = omega (arith, length-map f xs)

module _ {A T V : Type 0} ⦃l : Layout⦄ ⦃al : Allocator A⦄ (laws : IsAllocator al l.page_alignment)
    (lay : IsLayout l) where
  clear_loop-destroyed :
      (rounds fuel : ℕ) (s : Queue A T V) (xs : List ℕ) (c : List (T × V))
      → IsValid laws s xs
      → length xs < fuel
      → contents s xs ≡ c
      → length c < rounds
      → (t : Queue A T V) × (ys : List ℕ) × (clear_loop rounds fuel s ≡ ok tt t)
        × IsValid laws t ys
        × (contents t ys ≡ [])
        × (length ys ≤ length xs)
        × (t.events ≡ destroyed c s.events)
  unfolding clear_loop
  clear_loop-destroyed zero fuel s xs c v h e r = absurd (omega arith)
  clear_loop-destroyed (suc rounds) fuel s xs [] v h e r =
      let empty : Taken laws lay s xs [] (start_consume_impl fuel s) =
        subst (λ z. Taken laws lay s xs z (start_consume_impl fuel s)) e
          (start_consume-Taken laws lay fuel s xs v h) in
      (s, xs, bind-ok (start_consume_impl fuel) _ s s none empty, v, e, omega arith, refl)
  clear_loop-destroyed (suc rounds) fuel s xs (x ∷ c) v h e r =
      let taken : Taken laws lay s xs (x ∷ c) (start_consume_impl fuel s) =
        subst (λ z. Taken laws lay s xs z (start_consume_impl fuel s)) e
          (start_consume-Taken laws lay fuel s xs v h) in
      let (p, t, ran, found, rest, i, busy, ev, w) = taken in
      let (u, ys, ran', valid, same, dropped, dead, kept, shorter, ev') =
        commit-IsValid laws lay fuel t xs p w (record { inside = i; busy = busy }) h in
      let (z, zs, ran'', valid', none_left, shorter', ev'') =
        clear_loop-destroyed rounds fuel u ys c valid (omega arith) (same ∙ rest) (omega arith) in
      (
        z,
        zs,
        bind-ok (start_consume_impl fuel) _ s t (some p) ran
            ∙ bind-ok (commit fuel p) _ t u tt ran'
            ∙ ran'',
        valid',
        none_left,
        omega arith,
        ev''
            ∙ ap (destroyed c) (
                ev'
                ∙ ap
                    (λ (q : T × V).
                      Event.type_destroyed q.0 ∷ Event.element_destroyed q.1 ∷ t.events)
                    found
                ∙ ap (λ y. Event.type_destroyed x.0 ∷ Event.element_destroyed x.1 ∷ y) ev),
      )

  -- `clear` on a well formed queue, with more fuel than there are control blocks, ends with a well
  -- formed queue whose contents are empty. It destroys the pairs of the contents in their order, each
  -- element before its type, and nothing else.
  pub clear-destroyed :
      (fuel : ℕ) (s : Queue A T V) (xs : List ℕ)
      → IsValid laws s xs
      → length xs < fuel
      → (t : Queue A T V) × (ys : List ℕ) × (clear fuel s ≡ ok tt t)
        × IsValid laws t ys
        × (contents t ys ≡ [])
        × (t.events ≡ destroyed (contents s xs) s.events)
  unfolding clear
  clear-destroyed fuel s xs v h =
      let few : length (contents s xs) < fuel = omega (
        arith,
        length-map {C = T × V} (λ p. (s.types p, s.elements p)) (live s.m_next xs),
        length-live s.m_next xs,
      ) in
      let (t, ys, ran, valid, nothing, shorter, ev) =
        clear_loop-destroyed fuel fuel s xs (contents s xs) v h refl few in
      let (u, ran', valid', same, ev', words) =
        clean-IsValid laws lay fuel t ys valid (omega arith) in
      (
        u,
        drop_dead t.m_next ys,
        bind-ok (clear_loop fuel fuel) _ s t tt ran ∙ ran',
        valid',
        same ∙ nothing,
        ev' ∙ ev,
      )
