-- ===== src/PageAllocator/Operations.antt =====
-- detail/page_allocator.h: PageAllocator, the operations of one thread on the slots that all threads
-- share. The system page manager is a parameter. The calls of a slot can fail, because other threads come
-- in between; the number of a call says whether it does. A page is named by its address.
use density.Base.{ℕ, zero, suc, Bool, true, false, ◌==◌, if◌then◌else◌}
use density.Align.{sub_word}
use density.Effects.{update, M, ok, throw, out_of_fuel, ◌>>=◌}
use density.PageStack.Operations.{Footers, PageStack, push_stack, pop_unpinned, clear, truncate_to}
use density.PageStack.WaitFree.{Shared}
use density.PageAllocator.Calls.{call_push_range, call_remove}

pub data ProgressGuarantee : Type 0 where
  progress_blocking progress_obstruction_free progress_lock_free progress_wait_free :
      ProgressGuarantee

-- `i_progress_guarantee <= progress_lock_free`
abbrev pub at_most_lock_free : ProgressGuarantee → Bool
at_most_lock_free progress_blocking = true
at_most_lock_free progress_obstruction_free = true
at_most_lock_free progress_lock_free = true
at_most_lock_free progress_wait_free = false

abbrev pub is_blocking : ProgressGuarantee → Bool
is_blocking progress_blocking = true
is_blocking progress_obstruction_free = false
is_blocking progress_lock_free = false
is_blocking progress_wait_free = false

pub data PageAllocationType : Type 0 where
  uninitialized zeroed : PageAllocationType

-- SYSTYEM_PAGE_MANAGER, on a state `A`; the address of a page, or zero.
pub record PageManager (A : Type 0) : Type 0 where
  pub page_alignment_and_size : ℕ
  pub pages_are_zeroed : Bool
  pub try_allocate_page : ProgressGuarantee → A → ℕ × A
  pub try_reserve_region_memory : ProgressGuarantee → (i_size : ℕ) → A → ℕ × A

-- The members `m_first` of the two stacks of a slot.
pub record PageAllocatorSlot : Type 0 where
  pub m_page_stack : ℕ
  pub m_zeroed_page_stack : ℕ

abbrev pub get_stack : PageAllocationType → PageAllocatorSlot → ℕ
get_stack uninitialized slot = slot.m_page_stack
get_stack zeroed slot = slot.m_zeroed_page_stack

abbrev pub set_stack : PageAllocationType → ℕ → PageAllocatorSlot → PageAllocatorSlot
set_stack uninitialized first slot = record slot { m_page_stack = first }
set_stack zeroed first slot = record slot { m_zeroed_page_stack = first }

-- The members of a PageAllocator, the eight slots of the global state, and the memory: footers and bytes.
-- `contention` says for each call of a slot whether it fails; `calls` is the number of the next one.
pub record Pool (A : Type 0) : Type 0 where
  pub slots : ℕ → PageAllocatorSlot
  pub m_current_slot : ℕ
  pub m_victim_slot : ℕ
  pub m_private_page_stack : PageStack
  pub m_private_zeroed_page_stack : PageStack
  pub m_pages_to_unpin : PageStack
  pub footers : Footers
  pub bytes : ℕ → ℕ
  pub system : A
  pub contention : ℕ → Bool
  pub calls : ℕ

-- The slots are linked in a ring.
abbrev pub slot_count : ℕ
slot_count = 8

abbrev pub m_next_slot : ℕ → ℕ
m_next_slot slot = if suc slot == slot_count then 0 else suc slot

module _ {A : Type 0} where
  abbrev pub get_private_stack : PageAllocationType → Pool A → PageStack
  get_private_stack uninitialized s = s.m_private_page_stack
  get_private_stack zeroed s = s.m_private_zeroed_page_stack

  abbrev pub set_private_stack : PageAllocationType → PageStack → Pool A → Pool A
  set_private_stack uninitialized st s = record s { m_private_page_stack = st }
  set_private_stack zeroed st s = record s { m_private_zeroed_page_stack = st }

  -- What a slot's stack shares with other threads, and a call of it.
  abbrev pub shared_of : PageAllocationType → (slot : ℕ) → Pool A → Shared
  shared_of kind slot s = record {
    m_first = get_stack kind (s.slots slot);
    m_next_page = s.footers.m_next_page;
  }

  abbrev pub put_shared : PageAllocationType → (slot : ℕ) → Shared → Pool A → Pool A
  put_shared kind slot t s = record s {
    slots = update s.slots slot (set_stack kind t.m_first (s.slots slot));
    footers = record s.footers { m_next_page = t.m_next_page };
    calls = suc s.calls;
  }

  unfoldable pub on_slot :
      {B : Type 0} → PageAllocationType → (slot : ℕ) → (Bool → M Shared B) → M (Pool A) B
  on_slot kind slot m s = elim (m (s.contention s.calls) (shared_of kind slot s)) [
    | ok b t ↦ ok b (put_shared kind slot t s)
    | throw t ↦ throw (put_shared kind slot t s)
    | out_of_fuel ↦ out_of_fuel
  ]

  -- A command on the footers alone.
  unfoldable pub on_footers : {B : Type 0} → M Footers B → M (Pool A) B
  on_footers m s = elim (m s.footers) [
    | ok b t ↦ ok b (record s { footers = t })
    | throw t ↦ throw (record s { footers = t })
    | out_of_fuel ↦ out_of_fuel
  ]

  -- The loop of `discard_page_stack`, one round for each slot from the current one on; whether the
  -- stack was pushed, and what is left of it.
  unfoldable pub discard_loop :
      PageAllocationType → (rounds fuel : ℕ) → PageStack → M (Pool A) (Bool × PageStack)
  unfolding on_slot call_push_range
  discard_loop kind zero fuel st s = ok (false, st) s
  discard_loop kind (suc rounds) fuel st s =
      (on_slot kind s.m_current_slot (λ c. call_push_range c fuel st) >>= λ r.
      if r.0 then ok r else λ t.
      discard_loop kind rounds fuel r.1
        (record t { m_current_slot = m_next_slot t.m_current_slot }))
        s

  unfoldable pub discard_page_stack :
      PageAllocationType → (fuel : ℕ) → PageStack → M (Pool A) (Unit {0})
  unfolding discard_loop on_footers push_stack
  discard_page_stack kind fuel st = discard_loop kind slot_count fuel st >>= λ r.
      if r.0 then ok tt else λ s.
      (on_footers (push_stack fuel r.1 (get_private_stack kind s)) >>= λ p t.
      ok tt (set_private_stack kind p.1 t))
        s

  -- The pages that a popped one leaves in a stolen stack go to the current slot, or are discarded.
  unfoldable pub put_back :
      PageAllocationType → (fuel : ℕ) → (popped : ℕ × PageStack) → M (Pool A) ℕ
  unfolding on_slot call_push_range discard_page_stack
  put_back kind fuel popped s =
      if popped.1.m_first == 0
      then ok popped.0 s
      else (on_slot kind s.m_current_slot (λ c. call_push_range c fuel popped.1) >>= λ r.
            if r.0 then ok popped.0 else discard_page_stack kind fuel r.1 >>= λ _. ok popped.0)
          s

  unfoldable pub try_steal_and_allocate : PageAllocationType → (fuel : ℕ) → M (Pool A) ℕ
  unfolding on_slot call_remove on_footers pop_unpinned put_back
  try_steal_and_allocate kind fuel s =
      (on_slot kind s.m_victim_slot call_remove >>= λ stolen.
      on_footers (pop_unpinned fuel stolen) >>= λ popped. put_back kind fuel popped)
        s

  -- The loops of `process_pending_unpins_impl`: in lock-freedom over all pages, and in wait-freedom over
  -- `max_unpins` pages at most, up to a contention. The result is the first page that is left.
  unfoldable pub unpin_loop : (fuel curr : ℕ) → M (Pool A) ℕ
  unpin_loop zero curr s = out_of_fuel
  unpin_loop (suc fuel) curr s =
      let f = s.footers in
      let t = record s {
        footers = record f {
          m_pin_count = update f.m_pin_count curr (sub_word (f.m_pin_count curr) 1);
        };
      } in
      let rest = unpin_loop fuel (f.m_next_page curr) t in
      if f.m_next_page curr == 0 then ok 0 t else rest

  unfoldable pub unpin_some : (max_unpins curr : ℕ) → M (Pool A) ℕ
  unpin_some zero curr s = ok curr s
  unpin_some (suc max_unpins) curr s =
      let f = s.footers in
      let u = record s { calls = suc s.calls } in
      let t = record u {
        footers = record f {
          m_pin_count = update f.m_pin_count curr (sub_word (f.m_pin_count curr) 1);
        };
      } in
      let rest = unpin_some max_unpins (f.m_next_page curr) t in
      if s.contention s.calls then ok curr u else if f.m_next_page curr == 0 then ok 0 t else rest

  unfoldable pub process_pending_unpins : (fuel : ℕ) → ProgressGuarantee → M (Pool A) (Unit {0})
  unfolding unpin_loop unpin_some clear truncate_to
  process_pending_unpins fuel guarantee s =
      if s.m_pages_to_unpin.m_first == 0
      then ok tt s
      else if at_most_lock_free guarantee
      then (unpin_loop fuel s.m_pages_to_unpin.m_first >>= λ _ t.
            ok tt (record t { m_pages_to_unpin = clear t.m_pages_to_unpin }))
          s
      else (unpin_some 16 s.m_pages_to_unpin.m_first >>= λ curr t.
            ok tt (record t { m_pages_to_unpin = truncate_to curr t.m_pages_to_unpin }))
          s
