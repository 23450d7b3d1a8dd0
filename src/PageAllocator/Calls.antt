-- ===== src/PageAllocator/Calls.antt =====
-- detail/wf_page_stack.h: whole calls of a WF_PageStack by one thread. `contention` says that another
-- thread comes in between or has locked the stack, so that the call fails.
use density.Base.{ℕ, Bool, true, false, if◌then◌else◌}
use density.Effects.{M, ok, ◌>>=◌}
use density.PageStack.Operations.{PageStack, stack_of}
use density.PageStack.WaitFree.{
  Shared, Local, idle, holding, pushing, owning, pushing_range, removing, popping, push_load,
  push_exchange, range_load, range_exchange, pop_exchange, pop_store, remove_load, remove_exchange,
}

-- The value that a call returns in its last step.
abbrev pub pushed : Local → Bool
pushed idle = true
pushed (holding page) = false
pushed (pushing page first) = false
pushed (owning s) = false
pushed (pushing_range s last first) = false
pushed (removing first) = false
pushed (popping first) = false

abbrev pub page_held : Local → ℕ
page_held idle = 0
page_held (holding page) = page
page_held (pushing page first) = page
page_held (owning s) = 0
page_held (pushing_range s last first) = 0
page_held (removing first) = 0
page_held (popping first) = 0

unfoldable pub call_push : (contention : Bool) (i_page : ℕ) → M Shared Bool
unfolding push_load push_exchange
call_push contention i_page = push_load i_page >>= λ l. elim l [
  | pushing page first ↦ push_exchange contention page first >>= λ l'. ok (pushed l')
  | other ↦ ok false
]

-- Whether the pages have been pushed, and the stack of the caller: it is not emptied.
unfoldable pub call_push_range :
    (contention : Bool) (fuel : ℕ) → PageStack → M Shared (Bool × PageStack)
unfolding range_load range_exchange
call_push_range contention fuel i_stack = range_load fuel i_stack >>= λ l. elim l [
  | pushing_range found last first ↦
      range_exchange contention found last first >>= λ l'. ok (pushed l', found)
  | owning found ↦ ok (false, found)
  | other ↦ ok (false, i_stack)
]

-- `seen` are the pin counts that the call reads.
unfoldable pub call_pop : (contention : Bool) (fuel : ℕ) (seen : ℕ → ℕ) → M Shared ℕ
unfolding pop_exchange pop_store
call_pop contention fuel seen s =
    if contention
    then ok 0 s
    else (pop_exchange >>= λ l. elim l [
      | popping first ↦ pop_store fuel seen first >>= λ l'. ok (page_held l')
      | other ↦ ok 0
    ])
        s

-- The stack of pages that a `try_remove_all` returns.
abbrev pub stack_taken : Local → PageStack
stack_taken idle = stack_of 0
stack_taken (holding page) = stack_of 0
stack_taken (pushing page first) = stack_of 0
stack_taken (owning s) = s
stack_taken (pushing_range s last first) = stack_of 0
stack_taken (removing first) = stack_of 0
stack_taken (popping first) = stack_of 0

unfoldable pub call_remove : (contention : Bool) → M Shared PageStack
unfolding remove_load remove_exchange
call_remove contention = remove_load >>= λ l. elim l [
  | removing first ↦ remove_exchange contention first >>= λ l'. ok (stack_taken l')
  | other ↦ ok (stack_of 0)
]
