-- ===== src/PageAllocator/CallSteps.antt =====
-- detail/wf_page_stack.h: the steps of a call on a stack that is not locked.
use density.PageStack.Operations.{pop_unpinned, Footers, find_last, PageStack, stack_of}
use density.PageAllocator.Calls.{pushed, call_push, call_push_range}
use density.PageStack.WaitFree.{
  pushing_range, holding, idle, owning, pushing, removing, write_next, Shared, lock_marker, footers,
  popping, push_load, push_exchange, range_load, range_exchange, pop_exchange, pop_store,
  remove_load, remove_exchange,
}
use density.Base.{
  ℕ, ◌<◌, ◌≡◌, ◌≢◌, ◌∙◌, Bool, true, false, List, [], ◌∷◌, count, arith, ◌==◌, if◌then◌else◌,
}
use density.Effects.{ok, bind-ok}
use density.PageStack.Segment.{Segment}

-- The stack is not locked and holds `pages`.
pub record IsOpen (s : Shared) (pages : List ℕ) : Type 0 where
  pub linked : Segment s.m_next_page s.m_first pages 0
  pub unmarked : s.m_first ≢ lock_marker

-- Pages are never at the null pointer or at the marker.
abbrev pub ArePages : List ℕ → Type 0
ArePages pages = (a : ℕ) → 0 < count a pages → lock_marker < a

pub first-unmarked :
    (next : ℕ → ℕ) (a : ℕ) (pages : List ℕ)
    → Segment next a pages 0
    → ArePages pages
    → a ≢ lock_marker
first-unmarked next a [] e large same = absurd (omega arith)
first-unmarked next a (p ∷ pages) (e, pos, l) large same =
    absurd (omega (arith, large p (ground arith)))

-- The steps on a stack that is not locked, and without or with contention.
push_load-open :
    (p : ℕ) (s : Shared)
    → s.m_first ≢ lock_marker
    → push_load p s ≡ ok (pushing p s.m_first) (write_next p s.m_first s)
unfolding push_load
push_load-open p s ne =
    let free : (s.m_first == lock_marker) ≡ false = ground (arith, ne) in rw free

push_exchange-eq :
    (contention : Bool) (p : ℕ) (s : Shared)
    → push_exchange contention p s.m_first s
      ≡ (if contention then ok (holding p) s else ok idle (record s { m_first = p }))
unfolding push_exchange
push_exchange-eq true p s = let self : (s.m_first == s.m_first) ≡ true = ground arith in rw self
push_exchange-eq false p s = let self : (s.m_first == s.m_first) ≡ true = ground arith in rw self

range_load-open :
    (fuel : ℕ) (st found : PageStack) (last : ℕ) (s : Shared)
    → s.m_first ≢ lock_marker
    → find_last fuel st (footers s.m_next_page (λ a. 0))
      ≡ ok (last, found) (footers s.m_next_page (λ a. 0))
    → range_load fuel st s ≡ ok (pushing_range found last s.m_first) (write_next last s.m_first s)
unfolding range_load
range_load-open fuel st found last s ne run =
    let free : (s.m_first == lock_marker) ≡ false = ground (arith, ne) in
    rw (range_load, run) (rw free)

range_exchange-eq :
    (contention : Bool) (st : PageStack) (last : ℕ) (s : Shared)
    → range_exchange contention st last s.m_first s ≡ (
        if contention
        then ok (owning st) (write_next last 0 s)
        else ok idle (record s { m_first = st.m_first }))
unfolding range_exchange
range_exchange-eq true st last s =
    let self : (s.m_first == s.m_first) ≡ true = ground arith in rw self
range_exchange-eq false st last s =
    let self : (s.m_first == s.m_first) ≡ true = ground arith in rw self

pub pop_exchange-open :
    (s : Shared)
    → s.m_first ≢ lock_marker
    → pop_exchange s ≡ ok (popping s.m_first) (record s { m_first = lock_marker })
unfolding pop_exchange
pop_exchange-open s ne =
    let free : (s.m_first == lock_marker) ≡ false = ground (arith, ne) in rw free

pub remove_load-open :
    (s : Shared) → s.m_first ≢ lock_marker → remove_load s ≡ ok (removing s.m_first) s
unfolding remove_load
remove_load-open s ne =
    let free : (s.m_first == lock_marker) ≡ false = ground (arith, ne) in rw free

pub remove_exchange-eq :
    (contention : Bool) (s : Shared)
    → remove_exchange contention s.m_first s ≡ (
        if contention
        then ok idle s
        else ok (owning (stack_of s.m_first)) (record s { m_first = 0 }))
unfolding remove_exchange
remove_exchange-eq true s = let self : (s.m_first == s.m_first) ≡ true = ground arith in rw self
remove_exchange-eq false s = let self : (s.m_first == s.m_first) ≡ true = ground arith in rw self

-- `try_push` of a page on an open stack.
pub call_push-eq :
    (contention : Bool) (p : ℕ) (s : Shared)
    → s.m_first ≢ lock_marker
    → call_push contention p s ≡ (
        if contention
        then ok false (write_next p s.m_first s)
        else ok true (record (write_next p s.m_first s) { m_first = p }))
unfolding call_push
call_push-eq true p s ne =
    let t = write_next p s.m_first s in
    bind-ok (push_load p) _ s t (pushing p s.m_first) (push_load-open p s ne)
    ∙ bind-ok (push_exchange true p s.m_first) (λ l. ok (pushed l)) t t (holding p)
        (push_exchange-eq true p t)
call_push-eq false p s ne =
    let t = write_next p s.m_first s in
    bind-ok (push_load p) _ s t (pushing p s.m_first) (push_load-open p s ne)
    ∙ bind-ok (push_exchange false p s.m_first) (λ l. ok (pushed l)) t (record t { m_first = p })
        idle (push_exchange-eq false p t)

pub call_push_range-eq :
    (contention : Bool) (fuel : ℕ) (st found : PageStack) (last : ℕ) (s : Shared)
    → s.m_first ≢ lock_marker
    → find_last fuel st (footers s.m_next_page (λ a. 0))
      ≡ ok (last, found) (footers s.m_next_page (λ a. 0))
    → call_push_range contention fuel st s ≡ (
        if contention
        then ok (false, found) (write_next last 0 (write_next last s.m_first s))
        else ok (true, found) (record (write_next last s.m_first s) { m_first = found.m_first }))
unfolding call_push_range
call_push_range-eq true fuel st found last s ne run =
    let t = write_next last s.m_first s in
    bind-ok (range_load fuel st) _ s t (pushing_range found last s.m_first)
      (range_load-open fuel st found last s ne run)
    ∙ bind-ok (range_exchange true found last s.m_first) (λ l. ok (pushed l, found)) t
        (write_next last 0 t) (owning found) (range_exchange-eq true found last t)
call_push_range-eq false fuel st found last s ne run =
    let t = write_next last s.m_first s in
    bind-ok (range_load fuel st) _ s t (pushing_range found last s.m_first)
      (range_load-open fuel st found last s ne run)
    ∙ bind-ok (range_exchange false found last s.m_first) (λ l. ok (pushed l, found)) t
        (record t { m_first = found.m_first }) idle (range_exchange-eq false found last t)

pub pop_store-popped :
    (fuel : ℕ) (seen : ℕ → ℕ) (first : ℕ) (u : Shared) (x : ℕ) (t : PageStack) (m' : Footers)
    → pop_unpinned fuel (stack_of first) (footers u.m_next_page seen) ≡ ok (x, t) m'
    → 0 < x
    → pop_store fuel seen first u
      ≡ ok (holding x) (record { m_first = t.m_first; m_next_page = m'.m_next_page })
unfolding pop_store
pop_store-popped fuel seen first u x t m' run pos =
    let some_page : (x == 0) ≡ false = ground arith in rw (pop_store, run) (rw some_page)

pub pop_store-none :
    (fuel : ℕ) (seen : ℕ → ℕ) (first : ℕ) (u : Shared) (t : PageStack) (m' : Footers)
    → pop_unpinned fuel (stack_of first) (footers u.m_next_page seen) ≡ ok (0, t) m'
    → pop_store fuel seen first u
      ≡ ok idle (record { m_first = t.m_first; m_next_page = m'.m_next_page })
unfolding pop_store
pop_store-none fuel seen first u t m' run = rw (pop_store, run)
