-- ===== src/PageAllocator/Stealing.antt =====
-- detail/page_allocator.h: `discard_page_stack`, `try_steal_and_allocate` and the search for a victim.
use density.Effects.{M, ok, bind-ok, ◌>>=◌}
use density.PageStack.Operations.{Footers, push_stack, pop_unpinned, PageStack}
use density.Base.{
  Bool, ◌∙◌, if◌then◌else◌, ◌<◌, ◌≡◌, ◌≤◌, length, ◌+◌, List, ℕ, refl, zero, suc, sym, ap, count,
  count-append, arith, ◌==◌, true, false, [], ◌∷◌, ◌++◌,
}
use density.PageAllocator.Operations.{
  m_next_slot, Pool, PageAllocationType, PageManager, slot_count, discard_loop, discard_page_stack,
  put_back, try_steal_and_allocate, get_private_stack, set_private_stack, on_slot, on_footers,
}
use density.PageAllocator.Calls.{call_remove, call_push_range}
use density.PageStack.Popping.{popped, all_pinned, pop_unpinned-Popped}
use density.PageStack.Sequential.{IsPages, push_stack-IsPages}
use density.PageAllocator.Steps.{
  After, put_all, put_none, push_slot_range, remove_slot, hand_enough, hand_large, on_footers-ok,
  private_le_world,
}
use density.PageAllocator.Pops.{
  PoppedPool, took, took_none, set_private-pins, set_private-system, pop_counts,
}
use density.PageAllocator.Pages.{steal_loop}
use density.PageAllocator.Rounds.{trans-After, victim-After, discard_loop-PutStack}
use density.PageAllocator.Invariant.{IsPool}
use density.PageAllocator.Changes.{private-IsPool, hand-IsPool, held-IsPool}

module _ {A : Type 0} {page_alignment : ℕ} {world pending : List ℕ} where
  pub discard-After :
      (k : PageAllocationType) (fuel : ℕ) (st : PageStack) (x : ℕ) (xs : List ℕ) (rest : ℕ → ℕ)
      (s : Pool A)
      → IsPool page_alignment world pending (λ a. count a (x ∷ xs) + rest a) s
      → IsPages s.footers st (x ∷ xs)
      → length world ≤ fuel
      → (t : Pool A) × (discard_page_stack k fuel st s ≡ ok tt t)
        × After page_alignment world pending rest s t
  unfolding discard_page_stack
  discard-After k fuel st x xs rest s p own enough =
      let next = λ (r : Bool × PageStack). if r.0 then ok tt else λ (u : Pool A).
      (on_footers (push_stack fuel r.1 (get_private_stack k u)) >>= λ q t.
      ok tt (set_private_stack k q.1 t))
        u in
      elim (discard_loop-PutStack k slot_count fuel st x xs rest s p own enough) [
        | put_all left t run a ↦
            (t, bind-ok (discard_loop k slot_count fuel st) next s t (true, left) run, a)
        | put_none left u run own' a ↦
            let q = a.pool in
            let pages = q.privates k in
            let target = get_private_stack k u in
            let (l, v, m', run', i, loc) =
              push_stack-IsPages u.footers left target x xs pages fuel own' (q.private k)
                (λ b.
                  omega (arith, private_le_world q k b, q.apart b, count-append b (x ∷ xs) pages))
                (omega (arith, hand_enough q (x ∷ xs) fuel (λ b. omega arith) enough)) in
            let w = record u { footers = m' } in
            (
              set_private_stack k v w,
              bind-ok (discard_loop k slot_count fuel st) next s u (false, left) run
                  ∙ bind-ok (on_footers (push_stack fuel left target))
                      (λ q' t. ok tt (set_private_stack k q'.1 t)) u w (l, v)
                      (on_footers-ok (push_stack fuel left target) u (l, v) m' run'),
              trans-After (λ b. count b (x ∷ xs) + rest b) rest s u (set_private_stack k v w) a
                  (record {
                    pool =
                        private-IsPool q k v m' (x ∷ xs ++ pages) rest i
                          (λ b. omega (arith, count-append b (x ∷ xs) pages))
                          (λ b h. loc.links b (omega (arith, h)));
                    pins = ap (λ (f : Footers). f.m_pin_count) (set_private-pins k v w) ∙ loc.pins;
                    system = set_private-system k v w;
                  }),
            )
      ]

  pub put_back-After :
      (k : PageAllocationType) (fuel page : ℕ) (st : PageStack) (own : List ℕ) (rest : ℕ → ℕ)
      (s : Pool A)
      → IsPool page_alignment world pending (λ a. count a own + rest a) s
      → IsPages s.footers st own
      → length world ≤ fuel
      → (t : Pool A) × (put_back k fuel (page, st) s ≡ ok page t)
        × After page_alignment world pending rest s t
  unfolding put_back
  put_back-After k fuel page st [] rest s p own enough =
      let empty : (st.m_first == 0) ≡ true = ground (arith, own.linked) in
      (
        s,
        rw empty,
        record { pool = held-IsPool p rest (λ a. omega arith); pins = refl; system = refl },
      )
  put_back-After k fuel page st (x ∷ xs) rest s p own enough =
      let (e, pos, l) = own.linked in
      let some_page : (st.m_first == 0) ≡ false = ground (arith, e, pos) in
      let next = λ (r : Bool × PageStack).
        if r.0 then ok page else discard_page_stack k fuel r.1 >>= λ _. ok page in
      let call = on_slot k s.m_current_slot (λ c. call_push_range c fuel st) in
      elim (push_slot_range k s.m_current_slot fuel st x xs rest p own p.current enough) [
        | put_all left t run a ↦ (t, (rw some_page (bind-ok call next s t (true, left) run)), a)
        | put_none left u run own' a ↦
            let (t, run', b) = discard-After k fuel left x xs rest u a.pool own' enough in
            (
              t,
              (rw some_page (
                  bind-ok call next s u (false, left) run
                  ∙ bind-ok (discard_page_stack k fuel left) (λ _. ok page) u t tt run')),
              trans-After (λ b. count b (x ∷ xs) + rest b) rest s u t a b,
            )
      ]

  pub try_steal-PoppedPool :
      (k : PageAllocationType) (fuel : ℕ) (rest : ℕ → ℕ) (s : Pool A)
      → IsPool page_alignment world pending rest s
      → length world ≤ fuel
      → PoppedPool page_alignment world pending rest s (try_steal_and_allocate k fuel s)
  unfolding try_steal_and_allocate
  try_steal-PoppedPool k fuel rest s p enough =
      let (st, u, own, run, i, a) = remove_slot k s.m_victim_slot rest p p.victim in
      let q = a.pool in
      let held = λ (b : ℕ). count b own + rest b in
      let next = λ (stolen : PageStack).
        on_footers (pop_unpinned fuel stolen) >>= λ popped. put_back k fuel popped in
      let start = bind-ok (on_slot k s.m_victim_slot call_remove) next s u st run in
      elim (pop_unpinned-Popped u.footers st own fuel i
        (hand_enough q own fuel (λ b. omega arith) enough)) [
          | popped x xs ys v m' split pinned free pos run' j loc ↦
              let self : 0 < count x (x ∷ []) = ground arith in
              let counts = λ (b : ℕ). pop_counts b x own xs ys split in
              let w = record u { footers = m' } in
              let with_page = λ (b : ℕ). count b (x ∷ []) + rest b in
              let others = λ (b : ℕ). count b (xs ++ ys) + with_page b in
              let r =
                held-IsPool (hand-IsPool q m' (λ b h. loc.links b (omega (arith, h)))) others
                  (λ b. omega (arith, counts b)) in
              let (t, run'', b) = put_back-After k fuel x v (xs ++ ys) with_page w r j enough in
              took x t
                (start
                  ∙ bind-ok (on_footers (pop_unpinned fuel st)) (λ z. put_back k fuel z) u w (x, v)
                      (on_footers-ok (pop_unpinned fuel st) u (x, v) m' run')
                  ∙ run'')
                (hand_large q x (omega (arith, counts x, self)))
                (sym (ap (λ (f : ℕ → ℕ). f x) a.pins) ∙ free)
                (trans-After held with_page s u t a (
                  trans-After others with_page u w t
                    (record { pool = r; pins = loc.pins; system = refl }) b))
          | all_pinned v pinned run' j ↦
              let (t, run'', b) = put_back-After k fuel 0 v own rest u q j enough in
              took_none t
                (start
                  ∙ bind-ok (on_footers (pop_unpinned fuel st)) (λ z. put_back k fuel z) u u (0, v)
                      (on_footers-ok (pop_unpinned fuel st) u (0, v) u.footers run')
                  ∙ run'')
                (trans-After held rest s u t a b)
        ]

  pub steal_loop-PoppedPool :
      ⦃pm : PageManager A⦄ (k : PageAllocationType) (rounds fuel : ℕ) (rest : ℕ → ℕ) (s : Pool A)
      → IsPool page_alignment world pending rest s
      → length world ≤ fuel
      → PoppedPool page_alignment world pending rest s (steal_loop k rounds fuel s)
  unfolding steal_loop
  steal_loop-PoppedPool k zero fuel rest s p enough =
      took_none s refl (record { pool = p; pins = refl; system = refl })
  steal_loop-PoppedPool k (suc rounds) fuel rest s p enough =
      let next = λ (page : ℕ).
        if page == 0
        then (λ (t : Pool A).
            steal_loop k rounds fuel (record t { m_victim_slot = m_next_slot t.m_victim_slot }))
        else ok page in
      let call : M (Pool A) ℕ = try_steal_and_allocate k fuel in
      elim (try_steal-PoppedPool k fuel rest s p enough) [
        | took x t run large free a ↦
            let some_page : (x == 0) ≡ false = ground (arith, large) in
            took x t (bind-ok call next s t x run ∙ rw some_page) large free a
        | took_none u run a ↦
            let u' = record u { m_victim_slot = m_next_slot u.m_victim_slot } in
            let moved = victim-After rest s u a in
            let start = bind-ok call next s u 0 run in
            elim (steal_loop-PoppedPool k rounds fuel rest u' moved.pool enough) [
              | took x t run' large free b ↦
                  took x t (start ∙ run') large (sym (ap (λ (f : ℕ → ℕ). f x) a.pins) ∙ free)
                    (trans-After rest (λ c. count c (x ∷ []) + rest c) s u' t moved b)
              | took_none t run' b ↦
                  took_none t (start ∙ run') (trans-After rest rest s u' t moved b)
            ]
      ]
