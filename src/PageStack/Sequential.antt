-- ===== src/PageStack/Sequential.antt =====
-- detail/page_stack.h: what a PageStack stands for, and what its operations do to it.
use mathlib.Core.List.{append_assoc}
use density.Base.{
  ℕ, zero, suc, ◌<◌, ◌≡◌, refl, sym, ap, ◌∙◌, subst, ◌⊎◌, inl, inr, List, [], ◌∷◌, ◌++◌, length,
  count, count-append, arith, true, false, ◌==◌, Bool-cases,
}
use density.Effects.{update, ok, bind-ok}
use density.PageStack.Operations.{
  Footers, PageStack, set_next, push, last_loop, find_last, push_stack,
}
use density.PageStack.Segment.{Segment, IsOnce, Segment-frame, Segment-append, Segment-relink}

abbrev pub IsLast : ℕ → List ℕ → Type 0
IsLast last pages = (xs : List ℕ) × (pages ≡ xs ++ last ∷ [])

-- The stack holds `pages`, the top one first, and the last one is cached where it is known.
pub record IsPages (m : Footers) (s : PageStack) (pages : List ℕ) : Type 0 where
  pub linked : Segment m.m_next_page s.m_first pages 0
  pub once : IsOnce pages
  pub cached : (s.m_cached_last ≡ 0) ⊎ IsLast s.m_cached_last pages

-- Every page is pinned.
abbrev pub ArePinned : Footers → List ℕ → Type 0
ArePinned m pages = (a : ℕ) → 0 < count a pages → 0 < m.m_pin_count a

-- The pin counts, and the links of pages that are not of `pages`, are those of before.
pub record IsLocal (m m' : Footers) (pages : List ℕ) : Type 0 where
  pub pins : m'.m_pin_count ≡ m.m_pin_count
  pub links : (a : ℕ) → count a pages ≡ 0 → m'.m_next_page a ≡ m.m_next_page a

positive : (next : ℕ → ℕ) (a x b : ℕ) (xs : List ℕ) → Segment next a (xs ++ x ∷ []) b → 0 < x
positive next a x b [] (e, pos, s) = pos
positive next a x b (y ∷ xs) (e, pos, s) = positive next (next y) x b xs s

last_loop-IsLast :
    (m : Footers) (fuel p : ℕ) (ps : List ℕ)
    → Segment m.m_next_page (m.m_next_page p) ps 0
    → length ps < fuel
    → (x : ℕ) × (xs : List ℕ) × (p ∷ ps ≡ xs ++ x ∷ []) × (last_loop fuel p m ≡ ok x m)
unfolding last_loop
last_loop-IsLast m zero p ps s enough = absurd (omega arith)
last_loop-IsLast m (suc fuel) p [] e enough =
    let test : (m.m_next_page p == 0) ≡ true = ground arith in (p, [], refl, rw test)
last_loop-IsLast m (suc fuel) p (q ∷ ps) (e, pos, s) enough =
    let test : (m.m_next_page p == 0) ≡ false = ground arith in
    let (x, xs, split, run) = last_loop-IsLast m fuel q ps s (omega arith) in
    (x, p ∷ xs, ap (λ r. p ∷ r) split, rw (test, e) run)

-- `find_last` ends with the page at the bottom, from then on the cached one, and changes nothing else;
-- the fuel is at least the number of pages.
pub find_last-IsLast :
    (m : Footers) (s : PageStack) (p : ℕ) (ps : List ℕ) (fuel : ℕ)
    → IsPages m s (p ∷ ps)
    → length ps < fuel
    → (x : ℕ) × IsLast x (p ∷ ps) × (find_last fuel s m ≡ ok (x, record s { m_cached_last = x }) m)
unfolding find_last
find_last-IsLast m s p ps fuel i enough = elim (Bool-cases (s.m_cached_last == 0)) [
  | inl unknown ↦
      let (e, pos, l) = i.linked in
      let (x, xs, split, run) = last_loop-IsLast m fuel p ps l enough in
      (x, (xs, split), rw unknown (bind-ok (last_loop fuel s.m_first) _ m m x (rw e run)))
  | inr known ↦ elim i.cached [
    | inl null ↦ absurd (ground arith)
    | inr last ↦ (s.m_cached_last, last, rw known)
  ]
]

-- `push` of a page that is not in the stack puts it on top, and writes nothing but its link.
pub push-IsPages :
    (m : Footers) (s : PageStack) (pages : List ℕ) (p : ℕ)
    → IsPages m s pages
    → 0 < p
    → count p pages ≡ 0
    → (t : PageStack) × (m' : Footers) × (push p s m ≡ ok t m')
      × IsPages m' t (p ∷ pages)
      × IsLocal m m' (p ∷ [])
unfolding push
push-IsPages m s pages p i pos out =
    let same : (p == p) ≡ true = ground arith in
    (
      record s { m_first = p },
      set_next p s.m_first m,
      refl,
      record {
        linked = (
          refl,
          pos,
          rw same (Segment-frame m.m_next_page p s.m_first s.m_first 0 pages out i.linked),
        );
        once = λ a. ground (arith, i.once a, out);
        cached = elim i.cached [ inl e ↦ inl e | inr (xs, e) ↦ inr (p ∷ xs, ap (λ r. p ∷ r) e) ];
      },
      record { pins = refl; links = λ a h. ground (arith, h) },
    )

-- `push` of a stack that is not empty, and shares no page with this one, puts its pages on top; it ends,
-- with fuel of at least the number of those pages.
pub push_stack-IsPages :
    (m : Footers) (i_stack s : PageStack) (p : ℕ) (ps pages : List ℕ) (fuel : ℕ)
    → IsPages m i_stack (p ∷ ps)
    → IsPages m s pages
    → IsOnce (p ∷ ps ++ pages)
    → length ps < fuel
    → (u t : PageStack) × (m' : Footers) × (push_stack fuel i_stack s m ≡ ok (u, t) m')
      × IsPages m' t (p ∷ ps ++ pages)
      × IsLocal m m' (p ∷ ps)
unfolding push_stack
push_stack-IsPages m i_stack s p ps pages fuel j i once enough =
    let (x, (xs, split), run) = find_last-IsLast m i_stack p ps fuel j enough in
    let all : IsOnce ((xs ++ x ∷ []) ++ pages) = subst (λ r. IsOnce (r ++ pages)) split once in
    let linked = subst (λ r. Segment m.m_next_page i_stack.m_first r 0) split j.linked in
    let new : count x xs ≡ 0 =
      ground (arith, all x, count-append x (xs ++ x ∷ []) pages, count-append x xs (x ∷ [])) in
    let out : count x pages ≡ 0 =
      ground (arith, all x, count-append x (xs ++ x ∷ []) pages, count-append x xs (x ∷ [])) in
    let chain =
      Segment-append (update m.m_next_page x s.m_first) i_stack.m_first s.m_first 0 (xs ++ x ∷ [])
        pages (Segment-relink m.m_next_page i_stack.m_first 0 s.m_first x xs linked new)
        (Segment-frame m.m_next_page x s.m_first s.m_first 0 pages out i.linked) in
    (
      record i_stack { m_cached_last = x },
      record s { m_first = i_stack.m_first },
      set_next x s.m_first m,
      bind-ok (find_last fuel i_stack) _ m m (x, record i_stack { m_cached_last = x }) run,
      record {
        linked =
            subst (λ r. Segment (update m.m_next_page x s.m_first) i_stack.m_first (r ++ pages) 0)
              (sym split) chain;
        once = once;
        cached = elim i.cached [
          | inl e ↦ inl e
          | inr (ys, e) ↦ inr (
            p ∷ ps ++ ys,
            ap (λ r. p ∷ ps ++ r) e ∙ sym (append_assoc (p ∷ ps) ys (s.m_cached_last ∷ [])),
          )
        ];
      },
      record {
        pins = refl;
        links = λ a h.
            let apart : count a (xs ++ x ∷ []) ≡ 0 = subst (λ r. count a r ≡ 0) split h in
            ground (arith, apart, count-append a xs (x ∷ []));
      },
    )
