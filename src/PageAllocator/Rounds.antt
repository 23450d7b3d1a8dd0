-- ===== src/PageAllocator/Rounds.antt =====
-- detail/page_allocator.h: the loops over the slots, and the pages of a victim.
use density.PageAllocator.Calls.{call_push, call_push_range}
use density.Base.{
  true, false, ◌≤◌, if◌then◌else◌, length, Bool, [], arith, ◌+◌, ◌∙◌, ◌∷◌, ◌≡◌, List, ◌<◌, ℕ, refl,
  zero, suc, inl, inr, count, Bool-cases,
}
use density.PageAllocator.Operations.{
  on_slot, m_next_slot, PageAllocationType, PageManager, Pool, slot_count, discard_loop,
}
use density.PageStack.Sequential.{IsPages}
use density.PageStack.Operations.{PageStack}
use density.Effects.{ok, bind-ok}
use density.PageAllocator.Steps.{After, push_slot, PutStack, put_all, put_none, push_slot_range}
use density.PageAllocator.Pages.{push_loop}
use density.PageAllocator.Invariant.{IsPool}
use density.PageAllocator.Changes.{rest-IsPool, held-IsPool}

pub next_slot-bound : (i : ℕ) → i < slot_count → m_next_slot i < slot_count
next_slot-bound i lt = ground (arith, lt)

module _ {A : Type 0} {page_alignment : ℕ} {world pending : List ℕ} where
  next-After :
      (held : ℕ → ℕ) (s t : Pool A)
      → After page_alignment world pending held s t
      → After page_alignment world pending held s
          (record t { m_current_slot = m_next_slot t.m_current_slot })
  next-After held s t a =
      let p = a.pool in
      record {
        pool =
            rest-IsPool p (m_next_slot t.m_current_slot) t.m_victim_slot t.calls
              t.footers.m_pin_count t.bytes t.system (next_slot-bound t.m_current_slot p.current)
              p.victim;
        pins = a.pins;
        system = a.system;
      }

  pub victim-After :
      (held : ℕ → ℕ) (s t : Pool A)
      → After page_alignment world pending held s t
      → After page_alignment world pending held s
          (record t { m_victim_slot = m_next_slot t.m_victim_slot })
  victim-After held s t a =
      let p = a.pool in
      record {
        pool =
            rest-IsPool p t.m_current_slot (m_next_slot t.m_victim_slot) t.calls
              t.footers.m_pin_count t.bytes t.system p.current
              (next_slot-bound t.m_victim_slot p.victim);
        pins = a.pins;
        system = a.system;
      }

  pub trans-After :
      (held held' : ℕ → ℕ) (s u t : Pool A)
      → After page_alignment world pending held s u
      → After page_alignment world pending held' u t
      → After page_alignment world pending held' s t
  trans-After held held' s u t a b = record {
    pool = b.pool;
    pins = b.pins ∙ a.pins;
    system = b.system ∙ a.system;
  }

  pub held-After :
      (held held' : ℕ → ℕ) (s t : Pool A)
      → ((a : ℕ) → held' a ≡ held a)
      → After page_alignment world pending held s t
      → After page_alignment world pending held' s t
  held-After held held' s t same a = record {
    pool = held-IsPool a.pool held' same;
    pins = a.pins;
    system = a.system;
  }

  pub push_loop-After :
      ⦃pm : PageManager A⦄ (k : PageAllocationType) (rounds page : ℕ) (rest : ℕ → ℕ) (s : Pool A)
      → IsPool page_alignment world pending (λ a. count a (page ∷ []) + rest a) s
      → (b : Bool) × (t : Pool A) × (push_loop k rounds page s ≡ ok b t)
        × After page_alignment world pending
            (λ a. count a (if b then [] else page ∷ []) + rest a)
            s
            t
  unfolding push_loop
  push_loop-After k zero page rest s p =
      (false, s, refl, record { pool = p; pins = refl; system = refl })
  push_loop-After k (suc rounds) page rest s p =
      let next = λ (b : Bool). if b then ok true else λ (t : Pool A).
      push_loop k rounds page (record t { m_current_slot = m_next_slot t.m_current_slot }) in
      let (b, u, run, a) = push_slot k s.m_current_slot page rest p p.current in
      let start = bind-ok (on_slot k s.m_current_slot (λ c. call_push c page)) next s u b run in
      elim (Bool-cases b) [
        | inl e ↦ (true, u, start ∙ rw e, rw e at a)
        | inr e ↦
            let u' = record u { m_current_slot = m_next_slot u.m_current_slot } in
            let held = λ (x : ℕ). count x (page ∷ []) + rest x in
            let moved = next-After held s u (rw e at a) in
            let (b', t, run', a') = push_loop-After k rounds page rest u' moved.pool in
            (
              b',
              t,
              start ∙ (rw e run'),
              trans-After held (λ x. count x (if b' then [] else page ∷ []) + rest x) s u' t moved
                  a',
            )
      ]

  pub discard_loop-PutStack :
      (k : PageAllocationType) (rounds fuel : ℕ) (st : PageStack) (x : ℕ) (xs : List ℕ)
      (rest : ℕ → ℕ) (s : Pool A)
      → IsPool page_alignment world pending (λ a. count a (x ∷ xs) + rest a) s
      → IsPages s.footers st (x ∷ xs)
      → length world ≤ fuel
      → PutStack page_alignment world pending (x ∷ xs) rest s (discard_loop k rounds fuel st s)
  unfolding discard_loop
  discard_loop-PutStack k zero fuel st x xs rest s p own enough =
      put_none st s refl own (record { pool = p; pins = refl; system = refl })
  discard_loop-PutStack k (suc rounds) fuel st x xs rest s p own enough =
      let next = λ (r : Bool × PageStack). if r.0 then ok r else λ (t : Pool A).
      discard_loop k rounds fuel r.1 (record t { m_current_slot = m_next_slot t.m_current_slot }) in
      let call = on_slot k s.m_current_slot (λ c. call_push_range c fuel st) in
      let held = λ (a : ℕ). count a (x ∷ xs) + rest a in
      elim (push_slot_range k s.m_current_slot fuel st x xs rest p own p.current enough) [
        | put_all left t run a ↦ put_all left t (bind-ok call next s t (true, left) run) a
        | put_none left u run own' a ↦
            let u' = record u { m_current_slot = m_next_slot u.m_current_slot } in
            let moved = next-After held s u a in
            let start = bind-ok call next s u (false, left) run in
            elim (discard_loop-PutStack k rounds fuel left x xs rest u' moved.pool own' enough) [
              | put_all left' t run' b ↦
                  put_all left' t (start ∙ run') (trans-After held rest s u' t moved b)
              | put_none left' t run' own'' b ↦
                  put_none left' t (start ∙ run') own'' (trans-After held held s u' t moved b)
            ]
      ]
