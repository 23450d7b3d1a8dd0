-- ===== src/PageAllocator/CallLaws.antt =====
-- detail/wf_page_stack.h: what whole calls that push do to the pages of a WF_PageStack.
use density.PageStack.Operations.{find_last, PageStack}
use density.PageAllocator.Calls.{call_push, call_push_range}
use density.PageStack.WaitFree.{write_next, Shared, lock_marker, footers}
use density.Base.{
  ℕ, ◌+◌, ◌≤◌, ◌<◌, ◌≡◌, ◌≢◌, refl, sym, ap, ◌∙◌, subst, Bool, true, false, inr, List, [], ◌∷◌,
  ◌++◌, length, count, count-append, arith, ◌==◌, if◌then◌else◌,
}
use density.Effects.{update, Result, ok}
use density.PageStack.Segment.{Segment, Segment-frame, Segment-append, Segment-relink}
use density.PageStack.Sequential.{IsPages, find_last-IsLast}
use density.PageAllocator.CallSteps.{
  IsOpen, ArePages, first-unmarked, call_push-eq, call_push_range-eq,
}

-- A call puts the page on top, or it fails and only the link of the page is another one.
pub call_push-IsOpen :
    (contention : Bool) (p : ℕ) (s : Shared) (pages : List ℕ)
    → IsOpen s pages
    → lock_marker < p
    → count p pages ≡ 0
    → (b : Bool) × (t : Shared) × (call_push contention p s ≡ ok b t)
      × IsOpen t (if b then p ∷ pages else pages)
      × ((a : ℕ) → a ≢ p → t.m_next_page a ≡ s.m_next_page a)
call_push-IsOpen true p s pages i large out = (
  false,
  write_next p s.m_first s,
  call_push-eq true p s i.unmarked,
  record {
    linked = Segment-frame s.m_next_page p s.m_first s.m_first 0 pages out i.linked;
    unmarked = i.unmarked;
  },
  λ a ne. ground (arith, ne),
)
call_push-IsOpen false p s pages i large out =
    let same : (p == p) ≡ true = ground arith in
    (
      true,
      record (write_next p s.m_first s) { m_first = p },
      call_push-eq false p s i.unmarked,
      record {
        linked = (
          refl,
          omega arith,
          rw same (Segment-frame s.m_next_page p s.m_first s.m_first 0 pages out i.linked),
        );
        unmarked = ground arith;
      },
      λ a ne. ground (arith, ne),
    )

-- What is left of a stack, and the pages on top of the open one.
pub record PushedRange (s : Shared) (st : PageStack) (pages own : List ℕ)
    (r : Result Shared (Bool × PageStack)) : Type 0 where
  pub done : Bool
  pub left : PageStack
  pub t : Shared
  pub run : r ≡ ok (done, left) t
  pub pages' : List ℕ
  pub own' : List ℕ
  pub opened : IsOpen t pages'
  pub kept : done ≡ false → IsPages (footers t.m_next_page (λ a. 0)) left own'
  pub same : (a : ℕ) → count a pages' + count a own' ≡ count a pages + count a own
  pub all_or_none : if done then own' ≡ [] else own' ≡ own
  pub frame : (a : ℕ) → count a pages + count a own ≡ 0 → t.m_next_page a ≡ s.m_next_page a

-- The last page of a stack, as a call finds it.
record Ending (s : Shared) (st : PageStack) (pages own : List ℕ) (fuel : ℕ) : Type 0 where
  last : ℕ
  xs : List ℕ
  split : own ≡ xs ++ last ∷ []
  run :
      find_last fuel st (footers s.m_next_page (λ a. 0))
      ≡ ok (last, record st { m_cached_last = last }) (footers s.m_next_page (λ a. 0))
  linked : Segment s.m_next_page st.m_first (xs ++ last ∷ []) 0
  counts : (a : ℕ) → count a own ≡ count a xs + count a (last ∷ [])
  new : count last xs ≡ 0
  out : count last pages ≡ 0

ending :
    (fuel : ℕ) (s : Shared) (st : PageStack) (pages own : List ℕ)
    → IsPages (footers s.m_next_page (λ a. 0)) st own
    → 0 < st.m_first
    → length own ≤ fuel
    → ((a : ℕ) → count a pages + count a own ≤ 1)
    → Ending s st pages own fuel
ending fuel s st pages [] k pos enough once = absurd (omega (arith, k.linked))
ending fuel s st pages (p ∷ ps) k pos enough once =
    let (x, (xs, split), run) =
      find_last-IsLast (footers s.m_next_page (λ a. 0)) st p ps fuel k (omega arith) in
    let counts : (a : ℕ) → count a (p ∷ ps) ≡ count a xs + count a (x ∷ []) =
      λ a. ap (count a) split ∙ count-append a xs (x ∷ []) in
    record {
      last = x;
      xs = xs;
      split = split;
      run = run;
      linked = subst (λ r. Segment s.m_next_page st.m_first r 0) split k.linked;
      counts = counts;
      new = ground (arith, once x, counts x);
      out = ground (arith, once x, counts x);
    }

-- A call puts the pages on top of the others, or it fails and they stay in their stack.
pub call_push_range-PushedRange :
    (contention : Bool) (fuel : ℕ) (s : Shared) (st : PageStack) (pages own : List ℕ)
    → IsOpen s pages
    → IsPages (footers s.m_next_page (λ a. 0)) st own
    → 0 < st.m_first
    → length own ≤ fuel
    → ((a : ℕ) → count a pages + count a own ≤ 1)
    → ArePages own
    → PushedRange s st pages own (call_push_range contention fuel st s)
call_push_range-PushedRange true fuel s st pages own i k pos enough once large =
    let e = ending fuel s st pages own k pos enough once in
    let x = e.last in
    let found = record st { m_cached_last = x } in
    let next = update s.m_next_page x s.m_first in
    let mid = Segment-relink s.m_next_page st.m_first 0 s.m_first x e.xs e.linked e.new in
    let back = Segment-relink next st.m_first s.m_first 0 x e.xs mid e.new in
    record {
      done = false;
      left = found;
      t = write_next x 0 (write_next x s.m_first s);
      run = call_push_range-eq true fuel st found x s i.unmarked e.run;
      pages' = pages;
      own' = own;
      opened = record {
        linked =
            Segment-frame next x 0 s.m_first 0 pages e.out
              (Segment-frame s.m_next_page x s.m_first s.m_first 0 pages e.out i.linked);
        unmarked = i.unmarked;
      };
      kept = λ h. record {
        linked = subst (λ r. Segment (update next x 0) st.m_first r 0) (sym e.split) back;
        once = k.once;
        cached = inr (e.xs, e.split);
      };
      same = λ a. refl;
      all_or_none = refl;
      frame = λ a h. ground (arith, h, e.counts a);
    }
call_push_range-PushedRange false fuel s st pages own i k pos enough once large =
    let e = ending fuel s st pages own k pos enough once in
    let x = e.last in
    let found = record st { m_cached_last = x } in
    let next = update s.m_next_page x s.m_first in
    let all =
      Segment-append next st.m_first s.m_first 0 (e.xs ++ x ∷ []) pages
        (Segment-relink s.m_next_page st.m_first 0 s.m_first x e.xs e.linked e.new)
        (Segment-frame s.m_next_page x s.m_first s.m_first 0 pages e.out i.linked) in
    record {
      done = true;
      left = record st { m_cached_last = x };
      t = record (write_next x s.m_first s) { m_first = st.m_first };
      run = call_push_range-eq false fuel st found x s i.unmarked e.run;
      pages' = (e.xs ++ x ∷ []) ++ pages;
      own' = [];
      opened = record {
        linked = all;
        unmarked = first-unmarked s.m_next_page st.m_first own k.linked large;
      };
      kept = λ h. cc;
      same = λ a.
          omega (
            arith,
            e.counts a,
            count-append a (e.xs ++ x ∷ []) pages,
            count-append a e.xs (x ∷ []),
          );
      all_or_none = refl;
      frame = λ a h. ground (arith, h, e.counts a);
    }
