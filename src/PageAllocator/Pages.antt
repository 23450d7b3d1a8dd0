-- ===== src/PageAllocator/Pages.antt =====
-- detail/page_allocator.h: PageAllocator, the functions that give and take back pages, and the pins.
use density.PageAllocator.Operations.{
  PageAllocatorSlot, ProgressGuarantee, progress_lock_free, progress_wait_free, progress_blocking,
  at_most_lock_free, is_blocking, PageAllocationType, uninitialized, zeroed, PageManager, Pool,
  slot_count, m_next_slot, get_private_stack, set_private_stack, on_slot, on_footers,
  try_steal_and_allocate, process_pending_unpins,
}
use density.Base.{
  ℕ, zero, suc, ◌+◌, ◌-◌, Bool, true, false, not, ◌&&◌, ◌==◌, leb, ltb, if◌then◌else◌,
}
use density.Align.{add_word, sub_word, uint_lower_align}
use density.Effects.{update, M, ok, out_of_fuel, ◌>>=◌}
use density.PageStack.Operations.{stack_of, push, pop_unpinned}
use density.PageAllocator.Calls.{call_push, call_push_range, call_pop}

-- A footer takes 16 bytes at the end of a page.
unfoldable pub page_size : (page_alignment : ℕ) → ℕ
page_size page_alignment = page_alignment - 16

unfoldable pub get_footer : (page_alignment i_address : ℕ) → ℕ
unfolding page_size
get_footer page_alignment i_address =
    add_word (uint_lower_align i_address page_alignment) (page_size page_alignment)

module _ {A : Type 0} ⦃pm : PageManager A⦄ where
  abbrev pub fill_zero : (page : ℕ) → Pool A → Pool A
  fill_zero page s = record s {
    bytes = λ a.
        if leb page a && ltb a (page + page_size pm.page_alignment_and_size) then 0 else s.bytes a;
  }

  -- A new footer, and zeros where the page is to be zeroed and is not yet.
  unfoldable pub initialize_page : PageAllocationType → (i_page_mem : ℕ) → M (Pool A) ℕ
  unfolding get_footer
  initialize_page kind i_page_mem s =
      let p = get_footer pm.page_alignment_and_size i_page_mem in
      let t = record s {
        footers = record {
          m_next_page = update s.footers.m_next_page p 0;
          m_pin_count = update s.footers.m_pin_count p 0;
        };
      } in
      elim kind [
        | uninitialized ↦ ok p t
        | zeroed ↦ ok p (if pm.pages_are_zeroed then t else fill_zero i_page_mem t)
      ]

  unfoldable pub from_system : PageAllocationType → ProgressGuarantee → M (Pool A) ℕ
  unfolding initialize_page
  from_system kind guarantee s =
      let (page_mem, system) = pm.try_allocate_page guarantee s.system in
      let t = record s { system = system } in
      if page_mem == 0 then ok 0 t else initialize_page kind page_mem t

  -- The loop over the victim slots, once round.
  unfoldable pub steal_loop : PageAllocationType → (rounds fuel : ℕ) → M (Pool A) ℕ
  unfolding try_steal_and_allocate
  steal_loop kind zero fuel s = ok 0 s
  steal_loop kind (suc rounds) fuel s =
      (try_steal_and_allocate kind fuel >>= λ page.
      if page == 0
      then (λ t.
          steal_loop kind rounds fuel (record t { m_victim_slot = m_next_slot t.m_victim_slot }))
      else ok page)
        s

  unfoldable pub allocate_page_slow_path :
      PageAllocationType → (fuel : ℕ) → ProgressGuarantee → M (Pool A) ℕ
  unfolding from_system steal_loop
  allocate_page_slow_path kind fuel guarantee = from_system kind progress_wait_free >>= λ new_page.
      if not (new_page == 0)
      then ok new_page
      else steal_loop kind slot_count fuel >>= λ stolen.
          if (stolen == 0) && is_blocking guarantee
          then from_system kind progress_blocking
          else ok stolen

  -- A page from the private stack.
  unfoldable pub from_private : PageAllocationType → (fuel : ℕ) → M (Pool A) ℕ
  unfolding on_footers pop_unpinned
  from_private kind fuel s =
      (on_footers (pop_unpinned fuel (get_private_stack kind s)) >>= λ p t.
      ok p.0 (set_private_stack kind p.1 t))
        s

  -- A page from the current slot.
  unfoldable pub from_slot : PageAllocationType → (fuel : ℕ) → M (Pool A) ℕ
  unfolding on_slot call_pop
  from_slot kind fuel s =
      on_slot kind s.m_current_slot (λ c. call_pop c fuel s.footers.m_pin_count) s

  -- The second command is for a null pointer.
  abbrev pub or_else : M (Pool A) ℕ → M (Pool A) ℕ → M (Pool A) ℕ
  or_else m n = m >>= λ page. if page == 0 then n else ok page

  unfoldable pub try_allocate_page :
      PageAllocationType → (fuel : ℕ) → ProgressGuarantee → M (Pool A) ℕ
  unfolding process_pending_unpins from_private from_slot try_steal_and_allocate
      allocate_page_slow_path
  try_allocate_page kind fuel guarantee = process_pending_unpins fuel guarantee >>= λ _.
      or_else (from_private kind fuel) (
        or_else (from_slot kind fuel) (
          or_else (try_steal_and_allocate kind fuel) (allocate_page_slow_path kind fuel guarantee)))
      >>= λ page. ok (uint_lower_align page pm.page_alignment_and_size)

  -- The loop of `deallocate_page`, one round for each slot; whether the page was pushed.
  unfoldable pub push_loop : PageAllocationType → (rounds page : ℕ) → M (Pool A) Bool
  unfolding on_slot call_push
  push_loop kind zero page s = ok false s
  push_loop kind (suc rounds) page s =
      (on_slot kind s.m_current_slot (λ c. call_push c page) >>= λ done.
      if done then ok true else λ t.
      push_loop kind rounds page (record t { m_current_slot = m_next_slot t.m_current_slot }))
        s

  unfoldable pub push_private : PageAllocationType → (page : ℕ) → M (Pool A) (Unit {0})
  unfolding on_footers push
  push_private kind page s =
      (on_footers (push page (get_private_stack kind s)) >>= λ st t.
      ok tt (set_private_stack kind st t))
        s

  unfoldable pub deallocate_page :
      PageAllocationType → (fuel : ℕ) → (i_page : ℕ) → M (Pool A) (Unit {0})
  unfolding process_pending_unpins get_footer push_loop push_private
  deallocate_page kind fuel i_page = process_pending_unpins fuel progress_wait_free >>= λ _.
      push_loop kind slot_count (get_footer pm.page_alignment_and_size i_page) >>= λ done.
      if done then ok tt else push_private kind (get_footer pm.page_alignment_and_size i_page)

  unfoldable pub try_reserve_lockfree_memory :
      (fuel : ℕ) → ProgressGuarantee → (i_size : ℕ) → M (Pool A) ℕ
  unfolding process_pending_unpins
  try_reserve_lockfree_memory fuel guarantee i_size =
      process_pending_unpins fuel guarantee >>= λ _ s.
      let (size, system) = pm.try_reserve_region_memory guarantee i_size s.system in
      ok size (record s { system = system })

  -- `fetch_add` and `fetch_sub` on the pins of a page.
  abbrev pub set_pins : (page pins : ℕ) → Pool A → Pool A
  set_pins page pins s = record s {
    footers = record s.footers { m_pin_count = update s.footers.m_pin_count page pins };
  }

  unfoldable pub pin_page : (fuel i_address : ℕ) → M (Pool A) (Unit {0})
  unfolding process_pending_unpins get_footer
  pin_page fuel i_address = process_pending_unpins fuel progress_lock_free >>= λ _ s.
      let p = get_footer pm.page_alignment_and_size i_address in
      ok tt (set_pins p (add_word (s.footers.m_pin_count p) 1) s)

  unfoldable pub try_pin_page : (fuel : ℕ) → ProgressGuarantee → (i_address : ℕ) → M (Pool A) Bool
  unfolding process_pending_unpins get_footer
  try_pin_page fuel guarantee i_address = process_pending_unpins fuel guarantee >>= λ _ s.
      let p = get_footer pm.page_alignment_and_size i_address in
      let t = set_pins p (add_word (s.footers.m_pin_count p) 1) s in
      if at_most_lock_free guarantee
      then ok true t
      else if s.contention s.calls
      then ok false (record s { calls = suc s.calls })
      else ok true (record t { calls = suc s.calls })

  unfoldable pub unpin_page : (fuel i_address : ℕ) → M (Pool A) (Unit {0})
  unfolding process_pending_unpins get_footer
  unpin_page fuel i_address = process_pending_unpins fuel progress_lock_free >>= λ _ s.
      let p = get_footer pm.page_alignment_and_size i_address in
      ok tt (set_pins p (sub_word (s.footers.m_pin_count p) 1) s)

  unfoldable pub unpin_page_with :
      (fuel : ℕ) → ProgressGuarantee → (i_address : ℕ) → M (Pool A) (Unit {0})
  unfolding process_pending_unpins get_footer unpin_page on_footers push
  unpin_page_with fuel guarantee i_address = process_pending_unpins fuel progress_lock_free >>= λ _.
      if at_most_lock_free guarantee then unpin_page fuel i_address else λ s.
      let p = get_footer pm.page_alignment_and_size i_address in
      let t = record s { calls = suc s.calls } in
      if s.contention s.calls
      then (on_footers (push p s.m_pages_to_unpin) >>= λ st u.
            ok tt (record u { m_pages_to_unpin = st }))
          t
      else ok tt (set_pins p (sub_word (s.footers.m_pin_count p) 1) t)

  unfoldable pub get_pin_count : (i_address : ℕ) → Pool A → ℕ
  unfolding get_footer
  get_pin_count i_address s =
      s.footers.m_pin_count (get_footer pm.page_alignment_and_size i_address)

  -- The loop of `dump_private_stack`, until a call succeeds.
  unfoldable pub dump_loop : PageAllocationType → (rounds fuel : ℕ) → M (Pool A) (Unit {0})
  unfolding on_slot call_push_range
  dump_loop kind zero fuel s = out_of_fuel
  dump_loop kind (suc rounds) fuel s =
      (on_slot kind s.m_current_slot (λ c. call_push_range c fuel (get_private_stack kind s))
          >>= λ r t.
              let u = set_private_stack kind r.1 t in
              if r.0
              then ok tt u
              else dump_loop kind rounds fuel
                  (record u { m_current_slot = m_next_slot u.m_current_slot }))
        s

  unfoldable pub dump_private_stack : PageAllocationType → (rounds fuel : ℕ) → M (Pool A) (Unit {0})
  unfolding dump_loop
  dump_private_stack kind rounds fuel s =
      if (get_private_stack kind s).m_first == 0 then ok tt s else dump_loop kind rounds fuel s

  -- The destructor.
  unfoldable pub destroy_allocator : (rounds fuel : ℕ) → M (Pool A) (Unit {0})
  unfolding process_pending_unpins dump_private_stack
  destroy_allocator rounds fuel = process_pending_unpins fuel progress_blocking >>= λ _.
      dump_private_stack uninitialized rounds fuel >>= λ _. dump_private_stack zeroed rounds fuel

-- `GlobalState::assign_slot`: the slot for a new thread, and the one for the next thread.
unfoldable pub assign_slot : (m_last_assigned : ℕ) → ℕ × ℕ
assign_slot m_last_assigned = (m_last_assigned, m_next_slot m_last_assigned)

-- `GlobalState`: slots without pages.
abbrev pub new_slots : ℕ → PageAllocatorSlot
new_slots slot = record { m_page_stack = 0; m_zeroed_page_stack = 0 }

-- The constructor of a thread's allocator, at the slot that `assign_slot` gives.
unfoldable pub construct_allocator : {A : Type 0} → (m_last_assigned : ℕ) → Pool A → Pool A
unfolding assign_slot
construct_allocator m_last_assigned s = record s {
  m_current_slot = (assign_slot m_last_assigned).0;
  m_victim_slot = m_next_slot (assign_slot m_last_assigned).0;
  m_private_page_stack = stack_of 0;
  m_private_zeroed_page_stack = stack_of 0;
  m_pages_to_unpin = stack_of 0;
}
