-- ===== src/PageAllocator/CallPops.antt =====
-- detail/wf_page_stack.h: what whole calls that take pages do to a WF_PageStack.
use density.PageStack.Operations.{PageStack, stack_of}
use density.PageAllocator.Calls.{page_held, stack_taken, call_pop, call_remove}
use density.PageStack.WaitFree.{
  holding, idle, owning, removing, Shared, lock_marker, footers, popping, pop_exchange, pop_store,
  remove_load, remove_exchange,
}
use density.Base.{
  ℕ, ◌+◌, ◌≤◌, ◌≡◌, refl, ap, ◌∙◌, Bool, true, false, inl, List, [], ◌∷◌, ◌++◌, length, count,
  count-append, arith,
}
use density.Effects.{Result, ok, bind-ok}
use density.PageStack.Segment.{IsOnce}
use density.PageStack.Sequential.{IsPages}
use density.PageStack.Popping.{popped, all_pinned, pop_unpinned-Popped}
use density.PageAllocator.CallSteps.{
  IsOpen, ArePages, first-unmarked, pop_exchange-open, remove_load-open, remove_exchange-eq,
  pop_store-popped, pop_store-none,
}

-- A call takes an unpinned page, or none.
pub data PoppedCall (s : Shared) (pages : List ℕ) (seen : ℕ → ℕ) (r : Result Shared ℕ)
    : Type 0 where
  got :
      (x : ℕ) (t : Shared) (pages' : List ℕ)
      → r ≡ ok x t
      → IsOpen t pages'
      → seen x ≡ 0
      → ((a : ℕ) → count a pages ≡ count a pages' + count a (x ∷ []))
      → ((a : ℕ) → count a pages ≡ 0 → t.m_next_page a ≡ s.m_next_page a)
      → PoppedCall s pages seen r
  got_none :
      (t : Shared)
      → r ≡ ok 0 t
      → IsOpen t pages
      → t.m_next_page ≡ s.m_next_page
      → PoppedCall s pages seen r

pub call_pop-PoppedCall :
    (contention : Bool) (fuel : ℕ) (seen : ℕ → ℕ) (s : Shared) (pages : List ℕ)
    → IsOpen s pages
    → IsOnce pages
    → ArePages pages
    → length pages ≤ fuel
    → PoppedCall s pages seen (call_pop contention fuel seen s)
unfolding call_pop
call_pop-PoppedCall true fuel seen s pages i once large enough = got_none s refl i refl
call_pop-PoppedCall false fuel seen s pages i once large enough =
    let u = record s { m_first = lock_marker } in
    let start : IsPages (footers s.m_next_page seen) (stack_of s.m_first) pages = record {
      linked = i.linked;
      once = once;
      cached = inl refl;
    } in
    elim (pop_unpinned-Popped (footers s.m_next_page seen) (stack_of s.m_first) pages fuel start
      enough) [
        | popped x xs ys t m' split pinned free pos run j loc ↦
            let counts : (a : ℕ) → count a pages ≡ count a (xs ++ ys) + count a (x ∷ []) = λ a.
              ap (count a) split
              ∙ ground (arith, count-append a xs (x ∷ ys), count-append a xs ys) in
            let far =
              first-unmarked m'.m_next_page t.m_first (xs ++ ys) j.linked
                (λ a lt. large a (omega (arith, lt, counts a))) in
            got x (record { m_first = t.m_first; m_next_page = m'.m_next_page }) (xs ++ ys)
              (bind-ok pop_exchange _ s u (popping s.m_first) (pop_exchange-open s i.unmarked)
                ∙ bind-ok (pop_store fuel seen s.m_first) (λ l. ok (page_held l)) u _ (holding x)
                    (pop_store-popped fuel seen s.m_first u x t m' run pos))
              (record { linked = j.linked; unmarked = far }) free counts loc.links
        | all_pinned t pinned run j ↦
            got_none (record { m_first = t.m_first; m_next_page = s.m_next_page })
              (bind-ok pop_exchange _ s u (popping s.m_first) (pop_exchange-open s i.unmarked)
                ∙ bind-ok (pop_store fuel seen s.m_first) (λ l. ok (page_held l)) u _ idle
                    (pop_store-none fuel seen s.m_first u t (footers s.m_next_page seen) run))
              (record {
                linked = j.linked;
                unmarked = first-unmarked s.m_next_page t.m_first pages j.linked large;
              })
              refl
      ]

-- A call takes all pages, or it fails and gives an empty stack.
pub record RemovedCall (s : Shared) (pages : List ℕ) (r : Result Shared PageStack) : Type 0 where
  pub st : PageStack
  pub t : Shared
  pub run : r ≡ ok st t
  pub pages' : List ℕ
  pub own' : List ℕ
  pub opened : IsOpen t pages'
  pub kept : IsPages (footers t.m_next_page (λ a. 0)) st own'
  pub same : (a : ℕ) → count a pages' + count a own' ≡ count a pages
  pub links : t.m_next_page ≡ s.m_next_page

pub call_remove-RemovedCall :
    (contention : Bool) (s : Shared) (pages : List ℕ)
    → IsOpen s pages
    → IsOnce pages
    → RemovedCall s pages (call_remove contention s)
unfolding call_remove
call_remove-RemovedCall true s pages i once = record {
  st = stack_of 0;
  t = s;
  run =
      bind-ok remove_load _ s s (removing s.m_first) (remove_load-open s i.unmarked)
      ∙ bind-ok (remove_exchange true s.m_first) (λ l. ok (stack_taken l)) s s idle
          (remove_exchange-eq true s);
  pages' = pages;
  own' = [];
  opened = i;
  kept = record { linked = refl; once = λ a. omega arith; cached = inl refl };
  same = λ a. omega arith;
  links = refl;
}
call_remove-RemovedCall false s pages i once = record {
  st = stack_of s.m_first;
  t = record s { m_first = 0 };
  run =
      bind-ok remove_load _ s s (removing s.m_first) (remove_load-open s i.unmarked)
      ∙ bind-ok (remove_exchange false s.m_first) (λ l. ok (stack_taken l)) s
          (record s { m_first = 0 }) (owning (stack_of s.m_first)) (remove_exchange-eq false s);
  pages' = [];
  own' = pages;
  opened = record { linked = refl; unmarked = omega arith };
  kept = record { linked = i.linked; once = once; cached = inl refl };
  same = λ a. omega arith;
  links = refl;
}
