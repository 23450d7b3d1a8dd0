-- ===== src/PageStack/Popping.antt =====
-- detail/page_stack.h: `pop_unpinned` takes the first page that is not pinned.
use mathlib.Core.List.{append_assoc}
use density.Base.{
  ℕ, zero, suc, ◌+◌, ◌≤◌, ◌<◌, ◌≡◌, refl, sym, subst, inl, inr, List, [], ◌∷◌, ◌++◌, length, count,
  count-append, arith, true, false, ◌==◌, Bool-cases,
}
use density.Effects.{update, Result, ok}
use density.PageStack.Operations.{Footers, PageStack, set_next, pop_loop, pop_unpinned}
use density.PageStack.Segment.{Segment, IsOnce, Segment-frame, Segment-append, Segment-relink}
use density.PageStack.Sequential.{IsPages, ArePinned, IsLocal}

-- The first page that is not pinned is taken out, or all are pinned and nothing but the cache changes.
pub data Popped (m : Footers) (s : PageStack) (pages : List ℕ) (r : Result Footers (ℕ × PageStack))
    : Type 0 where
  popped :
      (x : ℕ) (xs ys : List ℕ) (t : PageStack) (m' : Footers)
      → pages ≡ xs ++ x ∷ ys
      → ArePinned m xs
      → m.m_pin_count x ≡ 0
      → 0 < x
      → r ≡ ok (x, t) m'
      → IsPages m' t (xs ++ ys)
      → IsLocal m m' pages
      → Popped m s pages r
  all_pinned :
      (t : PageStack) → ArePinned m pages → r ≡ ok (0, t) m → IsPages m t pages → Popped m s pages r

-- How the loop got to a page `p` behind the pages `xs`.
data Reached (m : Footers) (s : PageStack) (p : ℕ) : ℕ → List ℕ → Type 0 where
  at_first : s.m_first ≡ p → Reached m s p 0 []
  behind :
      (prev : ℕ) (ws : List ℕ)
      → 0 < prev
      → Segment m.m_next_page s.m_first (ws ++ prev ∷ []) p
      → Reached m s p prev (ws ++ prev ∷ [])

-- A page in the middle is unlinked.
unlink :
    (m : Footers) (s : PageStack) (p prev : ℕ) (xs ys : List ℕ) (fuel : ℕ)
    → Reached m s p prev xs
    → 0 < p
    → Segment m.m_next_page (m.m_next_page p) ys 0
    → IsOnce (xs ++ p ∷ ys)
    → ArePinned m xs
    → s.m_cached_last ≡ 0
    → m.m_pin_count p ≡ 0
    → Popped m s (xs ++ p ∷ ys) (pop_loop (suc fuel) prev p s m)
unfolding pop_loop
unlink m s p prev xs ys fuel (at_first e) pos l once pinned fresh free =
    let test : (m.m_pin_count p == 0) ≡ true = ground arith in
    rw test (
      popped p [] ys (record s { m_first = m.m_next_page p }) m refl pinned free pos refl
        (record { linked = l; once = λ a. ground (arith, once a); cached = inl fresh })
        (record { pins = refl; links = λ a h. refl }))
unlink m s p prev xs ys fuel (behind _ ws pos' l') pos l once pinned fresh free =
    let test : (m.m_pin_count p == 0) ≡ true = ground arith in
    let there : (prev == 0) ≡ false = ground arith in
    let parts : (a : ℕ)
        → count a ((ws ++ prev ∷ []) ++ p ∷ ys)
          ≡ count a ws + count a (prev ∷ []) + count a (p ∷ ys) =
      λ a.
        omega (arith, count-append a (ws ++ prev ∷ []) (p ∷ ys), count-append a ws (prev ∷ [])) in
    let new : count prev ws ≡ 0 = ground (arith, once prev, parts prev) in
    let out : count prev ys ≡ 0 = ground (arith, once prev, parts prev) in
    rw (test, there)
      (popped p (ws ++ prev ∷ []) ys s (set_next prev (m.m_next_page p) m) refl pinned free pos refl
        (record {
          linked =
              Segment-append (update m.m_next_page prev (m.m_next_page p)) s.m_first
                (m.m_next_page p) 0 (ws ++ prev ∷ []) ys
                (Segment-relink m.m_next_page s.m_first p (m.m_next_page p) prev ws l' new)
                (Segment-frame m.m_next_page prev (m.m_next_page p) (m.m_next_page p) 0 ys out l);
          once = λ a. ground (
            arith,
            once a,
            count-append a (ws ++ prev ∷ []) ys,
            count-append a (ws ++ prev ∷ []) (p ∷ ys),
          );
          cached = inl fresh;
        })
        (record { pins = refl; links = λ a h. ground (arith, h, parts a) }))

-- The next page is behind this one.
advance :
    (m : Footers) (s : PageStack) (p prev q : ℕ) (xs : List ℕ)
    → Reached m s p prev xs
    → 0 < p
    → m.m_next_page p ≡ q
    → Reached m s q p (xs ++ p ∷ [])
advance m s p prev q xs (at_first e) pos next = behind p [] pos (e, pos, next)
advance m s p prev q xs (behind _ ws pos' l) pos next =
    behind p (ws ++ prev ∷ []) pos
      (Segment-append m.m_next_page s.m_first p q (ws ++ prev ∷ []) (p ∷ []) l (refl, pos, next))

Reached-Segment :
    (m : Footers) (s : PageStack) (p prev : ℕ) (xs : List ℕ)
    → Reached m s p prev xs
    → Segment m.m_next_page s.m_first xs p
Reached-Segment m s p prev xs (at_first e) = e
Reached-Segment m s p prev xs (behind _ ws pos l) = l

pin_more :
    (m : Footers) (xs : List ℕ) (p : ℕ)
    → ArePinned m xs
    → 0 < m.m_pin_count p
    → ArePinned m (xs ++ p ∷ [])
pin_more m xs p pinned held a i = elim (Bool-cases (a == p)) [
  | inl same ↦ let e : a ≡ p = ground arith in rw e held
  | inr other ↦ pinned a (ground (arith, i, count-append a xs (p ∷ [])))
]

pop_loop-Popped :
    (m : Footers) (s : PageStack) (fuel p prev : ℕ) (xs ys : List ℕ)
    → Reached m s p prev xs
    → 0 < p
    → Segment m.m_next_page (m.m_next_page p) ys 0
    → IsOnce (xs ++ p ∷ ys)
    → ArePinned m xs
    → s.m_cached_last ≡ 0
    → length ys < fuel
    → Popped m s (xs ++ p ∷ ys) (pop_loop fuel prev p s m)
unfolding pop_loop
pop_loop-Popped m s zero p prev xs ys at pos l once pinned fresh enough = absurd (omega arith)
pop_loop-Popped m s (suc fuel) p prev xs [] at pos e once pinned fresh enough =
    elim (Bool-cases (m.m_pin_count p == 0)) [
      | inl free ↦ unlink m s p prev xs [] fuel at pos e once pinned fresh (ground arith)
      | inr held ↦
          let test : (m.m_next_page p == 0) ≡ true = ground arith in
          all_pinned (record s { m_cached_last = p }) (pin_more m xs p pinned (ground arith))
            (rw (held, test))
            (record {
              linked =
                  Segment-append m.m_next_page s.m_first p 0 xs (p ∷ [])
                    (Reached-Segment m s p prev xs at) (refl, pos, e);
              once = once;
              cached = inr (xs, refl);
            })
    ]
pop_loop-Popped m s (suc fuel) p prev xs (q ∷ ys) at pos (e, pos', l) once pinned fresh enough =
    elim (Bool-cases (m.m_pin_count p == 0)) [
      | inl free ↦
          unlink m s p prev xs (q ∷ ys) fuel at pos (e, pos', l) once pinned fresh (ground arith)
      | inr held ↦
          let test : (m.m_next_page p == 0) ≡ false = ground arith in
          let assoc = append_assoc xs (p ∷ []) (q ∷ ys) in
          let rest =
            pop_loop-Popped m s fuel q p (xs ++ p ∷ []) ys (advance m s p prev q xs at pos e) pos' l
              (subst IsOnce (sym assoc) once) (pin_more m xs p pinned (ground arith)) fresh
              (omega arith) in
          rw (held, test, e) (subst (λ r. Popped m s r (pop_loop fuel p q s m)) assoc rest)
    ]

fresh-Popped :
    (m : Footers) (s t : PageStack) (pages : List ℕ) (r : Result Footers (ℕ × PageStack))
    → Popped m s pages r
    → Popped m t pages r
fresh-Popped m s t pages r (popped x xs ys u m' e pinned free pos run i loc) =
    popped x xs ys u m' e pinned free pos run i loc
fresh-Popped m s t pages r (all_pinned u pinned run i) = all_pinned u pinned run i

-- `pop_unpinned` ends, with fuel of at least the number of pages: it takes out the first page that is
-- not pinned, the other pages stay in their order, and only links of the stack are written; or all pages
-- are pinned, the result is the null pointer and the stack holds the same pages.
pub pop_unpinned-Popped :
    (m : Footers) (s : PageStack) (pages : List ℕ) (fuel : ℕ)
    → IsPages m s pages
    → length pages ≤ fuel
    → Popped m s pages (pop_unpinned fuel s m)
unfolding pop_unpinned
pop_unpinned-Popped m s [] fuel i enough =
    let test : (s.m_first == 0) ≡ true = ground (arith, i.linked) in
    rw test (all_pinned s (λ a lt. absurd (omega arith)) refl i)
pop_unpinned-Popped m s (p ∷ ps) fuel i enough =
    let (e, pos, l) = i.linked in
    let test : (s.m_first == 0) ≡ false = ground (arith, e, pos) in
    let t = record s { m_cached_last = 0 } in
    rw test (
      subst (λ q. Popped m s (p ∷ ps) (pop_loop fuel 0 q t m)) (sym e)
        (fresh-Popped m t s (p ∷ ps) (pop_loop fuel 0 p t m) (
          pop_loop-Popped m t fuel p 0 [] ps (at_first e) pos l i.once
            (λ a lt. absurd (omega arith)) refl (omega arith))))
