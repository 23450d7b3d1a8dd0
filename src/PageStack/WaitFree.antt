-- ===== src/PageStack/WaitFree.antt =====
-- detail/wf_page_stack.h: WF_PageStack as steps of threads on the top of the stack and the links of
-- pages. A step is what a function does from one access of `m_first` to the next; in between only pages
-- of the thread are written. The accesses are taken in one order, that of `m_first`.
use density.Base.{ℕ, List, ◌∷◌, ◌++◌, ◌≡◌, ◌<◌, ◌≤◌, length, Bool, not, ◌&&◌, ◌==◌, if◌then◌else◌}
use density.Effects.{update, M, Result, ok, throw, out_of_fuel}
use density.PageStack.Segment.{Segment}
use density.PageStack.Operations.{Footers, PageStack, stack_of, find_last, pop_unpinned}

-- What the threads share: the top of the stack, and `m_next_page` of every page.
pub record Shared : Type 0 where
  pub m_first : ℕ
  pub m_next_page : ℕ → ℕ

abbrev pub lock_marker : ℕ
lock_marker = 1

-- What a thread is about to do: nothing; it has a page; it has loaded the top to push its page; it has
-- a stack of pages; it has loaded the top to push its stack behind the last page; it has loaded the top
-- to remove all pages; it has locked the stack and got the top.
pub data Local : Type 0 where
  idle : Local
  holding : (page : ℕ) → Local
  pushing : (page first : ℕ) → Local
  owning : PageStack → Local
  pushing_range : PageStack → (range_last first : ℕ) → Local
  removing popping : (first : ℕ) → Local

-- The pin counts that a thread sees on its way.
abbrev pub footers : (m_next_page seen : ℕ → ℕ) → Footers
footers m_next_page seen = record { m_next_page = m_next_page; m_pin_count = seen }

abbrev pub write_next : (page first : ℕ) → Shared → Shared
write_next page first s = record s { m_next_page = update s.m_next_page page first }

-- The weak compare-exchange succeeds unless the value is another one, or `spurious` says so.
abbrev pub exchanges : (spurious : Bool) (expected : ℕ) → Shared → Bool
exchanges spurious expected s = (s.m_first == expected) && not spurious

-- `try_push` of a page: up to the compare-exchange, and that.
unfoldable pub push_load : (i_page : ℕ) → M Shared Local
push_load i_page s =
    if s.m_first == lock_marker
    then ok (holding i_page) s
    else ok (pushing i_page s.m_first) (write_next i_page s.m_first s)

unfoldable pub push_exchange : (spurious : Bool) (i_page first : ℕ) → M Shared Local
push_exchange spurious i_page first s =
    if exchanges spurious first s
    then ok idle (record s { m_first = i_page })
    else ok (holding i_page) s

-- `try_push` of a stack.
unfoldable pub range_load : (fuel : ℕ) → PageStack → M Shared Local
unfolding find_last
range_load fuel i_stack s = elim (find_last fuel i_stack (footers s.m_next_page (λ a. 0))) [
  | ok (range_last, found) m ↦
      if s.m_first == lock_marker
      then ok (owning found) s
      else ok (pushing_range found range_last s.m_first) (write_next range_last s.m_first s)
  | throw m ↦ throw s
  | out_of_fuel ↦ out_of_fuel
]

unfoldable pub range_exchange :
    (spurious : Bool) → PageStack → (range_last first : ℕ) → M Shared Local
range_exchange spurious i_stack range_last first s =
    if exchanges spurious first s
    then ok idle (record s { m_first = i_stack.m_first })
    else ok (owning i_stack) (write_next range_last 0 s)

-- `try_pop_unpinned`: the exchange, and the search with the store.
unfoldable pub pop_exchange : M Shared Local
pop_exchange s =
    if not (s.m_first == lock_marker)
    then ok (popping s.m_first) (record s { m_first = lock_marker })
    else ok idle (record s { m_first = lock_marker })

unfoldable pub pop_store : (fuel : ℕ) (seen : ℕ → ℕ) (first : ℕ) → M Shared Local
unfolding pop_unpinned
pop_store fuel seen first s =
    elim (pop_unpinned fuel (stack_of first) (footers s.m_next_page seen)) [
      | ok (page, range) m ↦
          ok (if page == 0 then idle else holding page)
            (record { m_first = range.m_first; m_next_page = m.m_next_page })
      | throw m ↦ throw s
      | out_of_fuel ↦ out_of_fuel
    ]

-- `try_remove_all`.
unfoldable pub remove_load : M Shared Local
remove_load s = if not (s.m_first == lock_marker) then ok (removing s.m_first) s else ok idle s

unfoldable pub remove_exchange : (spurious : Bool) (first : ℕ) → M Shared Local
remove_exchange spurious first s =
    if exchanges spurious first s
    then ok (owning (stack_of first)) (record s { m_first = 0 })
    else ok idle s

-- The fuel reaches the end of the list.
abbrev pub Covers : (fuel : ℕ) → (next : ℕ → ℕ) → (first : ℕ) → Type 0
Covers fuel next first = (pages : List ℕ) × Segment next first pages 0 × (length pages ≤ fuel)

-- The steps of one thread. A stack that is pushed is not empty; an empty one is forgotten.
pub data Runs (s : Shared) : Local → Result Shared Local → Type 0 where
  pushes : {page : ℕ} → Runs s (holding page) (push_load page s)
  pushed :
      {page first : ℕ} (spurious : Bool)
      → Runs s (pushing page first) (push_exchange spurious page first s)
  pushes_range :
      {i_stack : PageStack} (fuel : ℕ)
      → 0 < i_stack.m_first
      → Covers fuel s.m_next_page i_stack.m_first
      → Runs s (owning i_stack) (range_load fuel i_stack s)
  drops : {i_stack : PageStack} → i_stack.m_first ≡ 0 → Runs s (owning i_stack) (ok idle s)
  pushed_range :
      {i_stack : PageStack} {range_last first : ℕ} (spurious : Bool)
      → Runs s
          (pushing_range i_stack range_last first)
          (range_exchange spurious i_stack range_last first s)
  pops : Runs s idle (pop_exchange s)
  popped :
      {first : ℕ} (fuel : ℕ) (seen : ℕ → ℕ)
      → Covers fuel s.m_next_page first
      → Runs s (popping first) (pop_store fuel seen first s)
  removes : Runs s idle (remove_load s)
  removed :
      {first : ℕ} (spurious : Bool) → Runs s (removing first) (remove_exchange spurious first s)

pub record System : Type 0 where
  pub shared : Shared
  pub threads : List Local

-- One of the threads makes a step.
pub data Step : System → System → Type 0 where
  step :
      (before after : List Local) {l l' : Local} {s s' : Shared} {r : Result Shared Local}
      → Runs s l r
      → r ≡ ok l' s'
      → Step
          (record { shared = s; threads = before ++ l ∷ after })
          (record { shared = s'; threads = before ++ l' ∷ after })

pub data Steps : System → System → Type 0 where
  done : {w : System} → Steps w w
  more : {w v u : System} → Step w v → Steps v u → Steps w u
