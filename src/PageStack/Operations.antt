-- ===== src/PageStack/Operations.antt =====
-- detail/page_stack.h: the operations of a PageStack on the footers of pages. A page is the address of
-- its footer, and zero is a null pointer.
use density.Base.{ℕ, zero, suc, not, ◌==◌, if◌then◌else◌}
use density.Effects.{update, M, ok, out_of_fuel, ◌>>=◌}

-- The members `m_next_page` and `m_pin_count` of the footers.
pub record Footers : Type 0 where
  pub m_next_page : ℕ → ℕ
  pub m_pin_count : ℕ → ℕ

pub record PageStack : Type 0 where
  pub m_first : ℕ
  pub m_cached_last : ℕ

-- A stack from a linked list of pages.
abbrev pub stack_of : (i_first : ℕ) → PageStack
stack_of i_first = record { m_first = i_first; m_cached_last = 0 }

abbrev pub set_next : (page next : ℕ) → Footers → Footers
set_next page next m = record m { m_next_page = update m.m_next_page page next }

unfoldable pub push : (i_page : ℕ) → PageStack → M Footers PageStack
push i_page s m = ok (record s { m_first = i_page }) (set_next i_page s.m_first m)

-- The scan of `find_last`, one unit of fuel for each page.
unfoldable pub last_loop : (fuel cached_last : ℕ) → M Footers ℕ
last_loop zero cached_last m = out_of_fuel
last_loop (suc fuel) cached_last m =
    let rest = last_loop fuel (m.m_next_page cached_last) m in
    if m.m_next_page cached_last == 0 then ok cached_last m else rest

unfoldable pub find_last : (fuel : ℕ) → PageStack → M Footers (ℕ × PageStack)
unfolding last_loop
find_last fuel s =
    if s.m_cached_last == 0
    then (last_loop fuel s.m_first >>= λ last. ok (last, record s { m_cached_last = last }))
    else ok (s.m_cached_last, s)

-- `push` of another stack, and what is left in that one.
unfoldable pub push_stack :
    (fuel : ℕ) (i_stack : PageStack) → PageStack → M Footers (PageStack × PageStack)
unfolding find_last
push_stack fuel i_stack s = find_last fuel i_stack >>= λ found m.
    ok (found.1, record s { m_first = found.1.m_first }) (set_next found.0 s.m_first m)

-- The loop of `pop_unpinned`, at a page `curr` behind `prev`, or at the first one where that is null.
unfoldable pub pop_loop : (fuel prev curr : ℕ) → PageStack → M Footers (ℕ × PageStack)
pop_loop zero prev curr s m = out_of_fuel
pop_loop (suc fuel) prev curr s m =
    let rest = pop_loop fuel curr (m.m_next_page curr) s m in
    if m.m_pin_count curr == 0
    then if not (prev == 0)
      then ok (curr, s) (set_next prev (m.m_next_page curr) m)
      else ok (curr, record s { m_first = m.m_next_page curr }) m
    else if not (m.m_next_page curr == 0)
    then rest
    else ok (0, record s { m_cached_last = curr }) m

unfoldable pub pop_unpinned : (fuel : ℕ) → PageStack → M Footers (ℕ × PageStack)
unfolding pop_loop
pop_unpinned fuel s =
    if not (s.m_first == 0)
    then pop_loop fuel 0 s.m_first (record s { m_cached_last = 0 })
    else ok (0, s)

unfoldable pub truncate_to : (i_new_first : ℕ) → PageStack → PageStack
truncate_to i_new_first s = record s { m_first = i_new_first; m_cached_last = 0 }

unfoldable pub clear : PageStack → PageStack
clear s = record s { m_first = 0; m_cached_last = 0 }

-- The move constructor: the new stack, and what is left of the source.
unfoldable pub move : (i_source : PageStack) → PageStack × PageStack
move i_source = (i_source, record i_source { m_first = 0; m_cached_last = 0 })

-- The move assignment swaps the two stacks.
unfoldable pub move_assign : (i_source target : PageStack) → PageStack × PageStack
move_assign i_source target = (i_source, target)
