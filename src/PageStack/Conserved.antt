-- ===== src/PageStack/Conserved.antt =====
-- detail/wf_page_stack.h: one step of a thread, on the pages of the stack and those of the thread.
use density.PageStack.Segment.{
  Segment-empty, Segment-append, Segment-relink, Segment, IsOnce, Segment-frame,
}
use density.PageStack.WaitFree.{
  removed, drops, pushed_range, pushes_range, pushed, write_next, Shared, lock_marker, Local, idle,
  holding, pushing, owning, pushing_range, removing, popping, footers, exchanges, push_load,
  push_exchange, range_load, range_exchange, pop_exchange, pop_store, remove_load, remove_exchange,
  Runs, pushes, pops, popped, removes, Covers,
}
use density.Base.{
  ℕ, ◌+◌, ◌≤◌, ◌<◌, ◌≡◌, ◌≢◌, refl, sym, ap, ◌∙◌, subst, List, [], ◌∷◌, ◌++◌, length, count,
  count-append, arith, true, false, ◌==◌, Bool, Bool-cases, inl, inr, if◌then◌else◌,
}
use density.Effects.{Result, ok, throw, out_of_fuel}
use density.PageStack.Operations.{PageStack, stack_of}
use density.PageStack.Sequential.{IsPages, find_last-IsLast}
use density.PageStack.Popping.{popped, all_pinned, pop_unpinned-Popped}
use density.PageStack.Conservation.{
  Holds, no_page, loaded, one, linked_one, range, linked_range, locked,
}

-- Whether the stack is locked, and whether a thread has locked it.
abbrev pub lock_count : Shared → ℕ
lock_count s = if s.m_first == lock_marker then 1 else 0

abbrev pub is_popping : Local → ℕ
is_popping idle = 0
is_popping (holding page) = 0
is_popping (pushing page first) = 0
is_popping (owning s) = 0
is_popping (pushing_range s last first) = 0
is_popping (removing first) = 0
is_popping (popping first) = 1

-- The pages in the stack. While it is locked, they belong to the thread that has locked it.
pub data SharedPages (s : Shared) : List ℕ → Type 0 where
  closed : s.m_first ≡ lock_marker → SharedPages s []
  opened :
      {pages : List ℕ}
      → s.m_first ≢ lock_marker
      → Segment s.m_next_page s.m_first pages 0
      → SharedPages s pages

-- The pages of the stack and of the thread after a step: the same ones, and no other page is written.
pub record After (s : Shared) (l : Local) (stack own : List ℕ) (l' : Local) (s' : Shared)
    : Type 0 where
  pub stack' : List ℕ
  pub own' : List ℕ
  pub shared : SharedPages s' stack'
  pub holds : Holds s'.m_next_page l' own'
  pub same : (a : ℕ) → count a stack' + count a own' ≡ count a stack + count a own
  pub frame : (a : ℕ) → count a stack + count a own ≡ 0 → s'.m_next_page a ≡ s.m_next_page a
  pub lock : is_popping l' + lock_count s ≡ is_popping l + lock_count s'

-- A step that ends.
abbrev pub AfterRun : Shared → Local → (stack own : List ℕ) → Result Shared Local → Type 0
AfterRun s l stack own (ok l' s') = After s l stack own l' s'
AfterRun s l stack own (throw s') = ⊥
AfterRun s l stack own out_of_fuel = ⊥

Segment-unique :
    (next : ℕ → ℕ) (a : ℕ) (xs ys : List ℕ) → Segment next a xs 0 → Segment next a ys 0 → xs ≡ ys
Segment-unique next a [] [] s t = refl
Segment-unique next a [] (y ∷ ys) s (e, pos, t) = absurd (omega arith)
Segment-unique next a (x ∷ xs) [] (e, pos, s) t = absurd (omega arith)
Segment-unique next a (x ∷ xs) (y ∷ ys) (e, pos, s) (e', pos', t) =
    let same : y ≡ x = omega arith in
    ap (λ r. x ∷ r)
      (Segment-unique next (next x) xs ys s (subst (λ z. Segment next (next z) ys 0) same t))
    ∙ ap (λ z. z ∷ ys) (sym same)

-- A thread that changes nothing.
idle_step :
    (s : Shared) (l l' : Local) (stack own : List ℕ)
    → SharedPages s stack
    → Holds s.m_next_page l' own
    → is_popping l' ≡ is_popping l
    → After s l stack own l' s
idle_step s l l' stack own sh h e = record {
  stack' = stack;
  own' = own;
  shared = sh;
  holds = h;
  same = λ a. refl;
  frame = λ a out. refl;
  lock = omega arith;
}

-- A list of pages does not start at the marker.
pub unmarked :
    (next : ℕ → ℕ) (a : ℕ) (pages : List ℕ)
    → Segment next a pages 0
    → ((p : ℕ) → 0 < count p pages → lock_marker < p)
    → a ≢ lock_marker
unmarked next a [] e large same = absurd (omega arith)
unmarked next a (p ∷ pages) (e, pos, l) large same = absurd (omega (arith, large p (ground arith)))

-- The pages of a stack that is not locked.
open_at :
    {s : Shared} {stack : List ℕ}
    → SharedPages s stack
    → s.m_first ≢ lock_marker
    → Segment s.m_next_page s.m_first stack 0
open_at (closed e) free = absurd (free e)
open_at (opened ne l) free = l

-- The pages of a stack that is locked.
shut_at : {s : Shared} {stack : List ℕ} → SharedPages s stack → s.m_first ≡ lock_marker → stack ≡ []
shut_at (closed e) shut = refl
shut_at (opened ne l) shut = absurd (ne shut)

-- A page of a thread is written.
reframe :
    (s : Shared) (stack : List ℕ)
    → SharedPages s stack
    → (page v : ℕ) → count page stack ≡ 0
    → SharedPages (write_next page v s) stack
reframe s stack (closed e) page v out = closed e
reframe s stack (opened ne l) page v out =
    opened ne (Segment-frame s.m_next_page page v s.m_first 0 stack out l)

module _ (s : Shared) (stack : List ℕ) (sh : SharedPages s stack) where
  -- The pages of the stack and of the thread are different ones, and no null pointers or markers.
  abbrev pub Ample : List ℕ → Type 0
  Ample own =
      ((a : ℕ) → count a stack + count a own ≤ 1)
      × ((a : ℕ) → 0 < count a stack + count a own → lock_marker < a)

  push_load-After : (p : ℕ) → Ample (p ∷ []) → AfterRun s (holding p) stack (p ∷ []) (push_load p s)
  unfolding push_load
  push_load-After p (once, large) = elim (Bool-cases (s.m_first == lock_marker)) [
    | inl shut ↦ rw shut (idle_step s (holding p) (holding p) stack (p ∷ []) sh one refl)
    | inr free ↦
        let same : (p == p) ≡ true = ground arith in
        let ne : s.m_first ≢ lock_marker = ground arith in
        rw free (record {
          stack' = stack;
          own' = p ∷ [];
          shared = opened ne (
              Segment-frame s.m_next_page p s.m_first s.m_first 0 stack (ground (arith, once p))
                (open_at sh ne));
          holds = linked_one (rw same) ne;
          same = λ a. refl;
          frame = λ a out. ground (arith, out);
          lock = refl;
        })
  ]

  push_exchange-After :
      (spurious : Bool) (p first : ℕ)
      → Ample (p ∷ [])
      → s.m_next_page p ≡ first
      → first ≢ lock_marker
      → AfterRun s (pushing p first) stack (p ∷ []) (push_exchange spurious p first s)
  unfolding push_exchange
  push_exchange-After spurious p first (once, large) e free =
      elim (Bool-cases (exchanges spurious first s)) [
        | inr lost ↦ rw lost (idle_step s (pushing p first) (holding p) stack (p ∷ []) sh one refl)
        | inl won ↦
            let at : s.m_first ≡ first = ground arith in
            let ne : s.m_first ≢ lock_marker = λ m. free (sym at ∙ m) in
            let big : lock_marker < p = large p (ground arith) in
            rw won (record {
              stack' = p ∷ stack;
              own' = [];
              shared = opened (ground arith) (
                refl,
                omega arith,
                subst (λ x. Segment s.m_next_page x stack 0) (at ∙ sym e) (open_at sh ne),
              );
              holds = no_page;
              same = λ a. ground arith;
              frame = λ a out. refl;
              lock = ground arith;
            })
      ]

  range_load-After :
      (st : PageStack) (own : List ℕ) (fuel : ℕ)
      → Ample own
      → IsPages (footers s.m_next_page (λ a. 0)) st own
      → 0 < st.m_first
      → Covers fuel s.m_next_page st.m_first
      → AfterRun s (owning st) stack own (range_load fuel st s)
  unfolding range_load
  range_load-After st [] fuel (once, large) i pos cover = absurd (omega (arith, i.linked))
  range_load-After st (p ∷ ps) fuel (once, large) i pos (pages, l, enough) =
      let covered : length (p ∷ ps) ≤ fuel =
        subst (λ r. length r ≤ fuel)
          (Segment-unique s.m_next_page st.m_first pages (p ∷ ps) l i.linked) enough in
      let (x, (xs, split), run) =
        find_last-IsLast (footers s.m_next_page (λ a. 0)) st p ps fuel i (omega arith) in
      let counts : (a : ℕ) → count a (p ∷ ps) ≡ count a xs + count a (x ∷ []) =
        λ a. ap (count a) split ∙ count-append a xs (x ∷ []) in
      rw (AfterRun, run)
        (elim (Bool-cases (s.m_first == lock_marker)) [
          | inl shut ↦ rw shut (
              idle_step s (owning st) (owning (record st { m_cached_last = x })) stack (p ∷ ps) sh
                (range (record { linked = i.linked; once = i.once; cached = inr (xs, split) }))
                refl)
          | inr free ↦
              let ne : s.m_first ≢ lock_marker = ground arith in
              let new : count x xs ≡ 0 = ground (arith, once x, counts x) in
              let out : count x stack ≡ 0 = ground (arith, once x, counts x) in
              let linked = subst (λ r. Segment s.m_next_page st.m_first r 0) split i.linked in
              rw free (record {
                stack' = stack;
                own' = xs ++ x ∷ [];
                shared =
                    opened ne (
                      Segment-frame s.m_next_page x s.m_first s.m_first 0 stack out
                        (open_at sh ne));
                holds =
                    linked_range xs
                      (Segment-relink s.m_next_page st.m_first 0 s.m_first x xs linked new) refl ne;
                same = λ a. omega (arith, counts a, count-append a xs (x ∷ []));
                frame = λ a h. ground (arith, h, counts a);
                lock = refl;
              })
        ])

  range_exchange-After :
      (spurious : Bool) (st : PageStack) (xs : List ℕ) (last first : ℕ)
      → Ample (xs ++ last ∷ [])
      → Segment s.m_next_page st.m_first (xs ++ last ∷ []) first
      → st.m_cached_last ≡ last
      → first ≢ lock_marker
      → AfterRun s
          (pushing_range st last first)
          stack
          (xs ++ last ∷ [])
          (range_exchange spurious st last first s)
  unfolding range_exchange
  range_exchange-After spurious st xs last first (once, large) l cached free =
      let counts : (a : ℕ) → count a (xs ++ last ∷ []) ≡ count a xs + count a (last ∷ []) =
        λ a. count-append a xs (last ∷ []) in
      elim (Bool-cases (exchanges spurious first s)) [
        | inr lost ↦
            let new : count last xs ≡ 0 = ground (arith, once last, counts last) in
            let out : count last stack ≡ 0 = ground (arith, once last, counts last) in
            rw lost (record {
              stack' = stack;
              own' = xs ++ last ∷ [];
              shared = reframe s stack sh last 0 out;
              holds = range (record {
                linked = Segment-relink s.m_next_page st.m_first first 0 last xs l new;
                once = λ a. omega (arith, once a);
                cached = inr (xs, ap (λ z. xs ++ z ∷ []) (sym cached));
              });
              same = λ a. refl;
              frame = λ a h. ground (arith, h, counts a);
              lock = refl;
            })
        | inl won ↦
            let at : s.m_first ≡ first = ground arith in
            let ne : s.m_first ≢ lock_marker = λ m. free (sym at ∙ m) in
            let all =
              Segment-append s.m_next_page st.m_first first 0 (xs ++ last ∷ []) stack l
                (subst (λ x. Segment s.m_next_page x stack 0) at (open_at sh ne)) in
            let total : (a : ℕ)
                → count a ((xs ++ last ∷ []) ++ stack) ≡ count a (xs ++ last ∷ []) + count a stack =
              λ a. count-append a (xs ++ last ∷ []) stack in
            let far =
              unmarked s.m_next_page st.m_first ((xs ++ last ∷ []) ++ stack) all
                (λ a lt. large a (omega (arith, lt, total a))) in
            rw won (record {
              stack' = (xs ++ last ∷ []) ++ stack;
              own' = [];
              shared = opened far all;
              holds = no_page;
              same = λ a. omega (arith, total a);
              frame = λ a out. refl;
              lock = ground arith;
            })
      ]

  pop_exchange-After : Ample [] → AfterRun s idle stack [] (pop_exchange s)
  unfolding pop_exchange
  pop_exchange-After (once, large) = elim (Bool-cases (s.m_first == lock_marker)) [
    | inl shut ↦ rw shut (record {
      stack' = stack;
      own' = [];
      shared =
          subst (SharedPages (record s { m_first = lock_marker })) (sym (shut_at sh (ground arith)))
            (closed refl);
      holds = no_page;
      same = λ a. refl;
      frame = λ a out. refl;
      lock = ground arith;
    })
    | inr free ↦
        let ne : s.m_first ≢ lock_marker = ground arith in
        rw free (record {
          stack' = [];
          own' = stack;
          shared = closed refl;
          holds = locked (open_at sh ne);
          same = λ a. omega arith;
          frame = λ a out. refl;
          lock = ground arith;
        })
  ]

  pop_store-After :
      (first : ℕ) (own : List ℕ) (fuel : ℕ) (seen : ℕ → ℕ)
      → Ample own
      → Segment s.m_next_page first own 0
      → s.m_first ≡ lock_marker
      → Covers fuel s.m_next_page first
      → AfterRun s (popping first) stack own (pop_store fuel seen first s)
  unfolding pop_store
  pop_store-After first own fuel seen (once, large) l shut (pages, l', enough) =
      let nothing : stack ≡ [] = shut_at sh shut in
      let none : (a : ℕ) → count a stack ≡ 0 = λ a. ap (count a) nothing in
      let covered : length own ≤ fuel =
        subst (λ r. length r ≤ fuel) (Segment-unique s.m_next_page first pages own l' l) enough in
      let big : (a : ℕ) → 0 < count a own → lock_marker < a = λ a lt. large a (omega (arith, lt)) in
      let alone : IsOnce own = λ a. omega (arith, once a) in
      let start : IsPages (footers s.m_next_page seen) (stack_of first) own = record {
        linked = l;
        once = alone;
        cached = inl refl;
      } in
      elim (pop_unpinned-Popped (footers s.m_next_page seen) (stack_of first) own fuel start
        covered) [
          | popped x xs ys t m' split pinned unpinned pos run i loc ↦
              let some_page : (x == 0) ≡ false = ground arith in
              let counts : (a : ℕ) → count a own ≡ count a (xs ++ ys) + count a (x ∷ []) = λ a.
                ap (count a) split
                ∙ ground (arith, count-append a xs (x ∷ ys), count-append a xs ys) in
              let far =
                unmarked m'.m_next_page t.m_first (xs ++ ys) i.linked
                  (λ a lt. big a (omega (arith, lt, counts a))) in
              rw (AfterRun, run)
                (rw some_page (record {
                  stack' = xs ++ ys;
                  own' = x ∷ [];
                  shared = opened far i.linked;
                  holds = one;
                  same = λ a. omega (arith, counts a, none a);
                  frame = λ a out. loc.links a (omega (arith, out));
                  lock = ground arith;
                }))
          | all_pinned t pinned run i ↦
              rw (AfterRun, run)
                (record {
                  stack' = own;
                  own' = [];
                  shared = opened (unmarked s.m_next_page t.m_first own i.linked big) i.linked;
                  holds = no_page;
                  same = λ a. omega (arith, none a);
                  frame = λ a out. refl;
                  lock = ground (arith, unmarked s.m_next_page t.m_first own i.linked big);
                })
        ]

  remove_load-After : AfterRun s idle stack [] (remove_load s)
  unfolding remove_load
  remove_load-After = elim (Bool-cases (s.m_first == lock_marker)) [
    | inl shut ↦ rw shut (idle_step s idle idle stack [] sh no_page refl)
    | inr free ↦
        rw free (idle_step s idle (removing s.m_first) stack [] sh (loaded (ground arith)) refl)
  ]

  remove_exchange-After :
      (spurious : Bool) (first : ℕ)
      → Ample []
      → first ≢ lock_marker
      → AfterRun s (removing first) stack [] (remove_exchange spurious first s)
  unfolding remove_exchange
  remove_exchange-After spurious first (once, large) free =
      elim (Bool-cases (exchanges spurious first s)) [
        | inr lost ↦ rw lost (idle_step s (removing first) idle stack [] sh no_page refl)
        | inl won ↦
            let at : s.m_first ≡ first = ground arith in
            let ne : s.m_first ≢ lock_marker = λ m. free (sym at ∙ m) in
            rw won (record {
              stack' = [];
              own' = stack;
              shared = opened (omega arith) refl;
              holds = range (record {
                linked = subst (λ x. Segment s.m_next_page x stack 0) at (open_at sh ne);
                once = λ a. omega (arith, once a);
                cached = inl refl;
              });
              same = λ a. omega arith;
              frame = λ a out. refl;
              lock = ground arith;
            })
      ]

-- An empty stack is forgotten.
drop_step :
    (s : Shared) (stack own : List ℕ) (st : PageStack)
    → SharedPages s stack
    → IsPages (footers s.m_next_page (λ a. 0)) st own
    → st.m_first ≡ 0
    → After s (owning st) stack own idle s
drop_step s stack own st sh i e =
    let nothing =
      Segment-empty s.m_next_page own (subst (λ x. Segment s.m_next_page x own 0) e i.linked) in
    idle_step s (owning st) idle stack own sh
      (subst (Holds s.m_next_page idle) (sym nothing) no_page) refl

-- Every step of a thread ends, and leaves the pages of the stack and of the thread as they were, in
-- the one or in the other.
pub run-After :
    (s : Shared) (stack : List ℕ) (sh : SharedPages s stack) {l : Local} {own : List ℕ}
    {r : Result Shared Local}
    → Ample s stack sh own
    → Holds s.m_next_page l own
    → is_popping l ≤ lock_count s
    → Runs s l r
    → AfterRun s l stack own r
run-After s stack sh ample (one {p}) lock pushes = push_load-After s stack sh p ample
run-After s stack sh ample (linked_one {p} {first} e free) lock (pushed spurious) =
    push_exchange-After s stack sh spurious p first ample e free
run-After s stack sh ample (range {s = st} {pages = own} i) lock (pushes_range fuel pos cover) =
    range_load-After s stack sh st own fuel ample i pos cover
run-After s stack sh ample (linked_range {s = st} {last = last} {first = first} xs l e free) lock
      (pushed_range spurious) =
    range_exchange-After s stack sh spurious st xs last first ample l e free
run-After s stack sh ample (range {s = st} {pages = own} i) lock (drops e) =
    drop_step s stack own st sh i e
run-After s stack sh ample no_page lock pops = pop_exchange-After s stack sh ample
run-After s stack sh ample (locked {first = first} {pages = own} l) lock (popped fuel seen cover) =
    pop_store-After s stack sh first own fuel seen ample l (ground arith) cover
run-After s stack sh ample no_page lock removes = remove_load-After s stack sh
run-After s stack sh ample (loaded {first} free) lock (removed spurious) =
    remove_exchange-After s stack sh spurious first ample free
