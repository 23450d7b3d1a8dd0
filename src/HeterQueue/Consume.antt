-- ===== src/HeterQueue/Consume.antt =====
-- heter_queue.h: consume operations, cleaning, iteration and destruction. A walk over the control
-- blocks takes fuel, one unit a block; a null pointer is `none`.
use density.Base.{
  ℕ, zero, suc, ◌-◌, Bool, true, false, not, Option, none, some, ◌∷◌, ◌==◌, if◌then◌else◌, bit_and,
}
use density.Align.{add_word, sub_word, bit_not, same_page}
use density.Allocator.{Allocator}
use density.HeterQueue.Layout.{
  Layout, queue_busy, queue_dead, control_bits, is_external, next_block, s_invalid_control_block,
}
use density.HeterQueue.State.{Queue, element_destroyed, type_destroyed}
use density.Effects.{M, ok, out_of_fuel, ◌>>=◌}
use density.HeterQueue.Put.{set_next}

module _ {A T V : Type 0} ⦃l : Layout⦄ ⦃al : Allocator A⦄ where
  -- `first_valid`, also the loop of `empty` and of `next_valid`: the first block from `curr` on that
  -- is neither busy nor dead.
  unfoldable pub first_valid : (fuel curr : ℕ) → M (Queue A T V) (Option ℕ)
  unfolding control_bits next_block
  first_valid zero curr s = out_of_fuel
  first_valid (suc fuel) curr s =
      let rest = first_valid fuel (next_block (s.m_next curr)) s in
      if curr == s.m_tail
      then ok none s
      else if control_bits (s.m_next curr) == 0
      then ok (some curr) s
      else rest

  -- The first step takes off two flags only.
  unfoldable pub next_valid : (fuel i_from : ℕ) → M (Queue A T V) (Option ℕ)
  unfolding first_valid
  next_valid fuel i_from s = first_valid fuel (bit_and (s.m_next i_from) (bit_not 3)) s

  unfoldable pub empty : (fuel : ℕ) → M (Queue A T V) Bool
  unfolding first_valid
  empty fuel s =
      (first_valid fuel s.m_head >>= λ found. ok (elim found [ none ↦ true | some _ ↦ false ])) s

  unfoldable pub consume_loop : (fuel curr : ℕ) → M (Queue A T V) (Option ℕ)
  unfolding control_bits next_block
  consume_loop zero curr s = out_of_fuel
  consume_loop (suc fuel) curr s =
      let rest = consume_loop fuel (next_block (s.m_next curr)) s in
      if curr == s.m_tail
      then ok none s
      else if control_bits (s.m_next curr) == 0
      then ok (some curr) (set_next curr (add_word (s.m_next curr) queue_busy) s)
      else rest

  unfoldable pub start_consume_impl : (fuel : ℕ) → M (Queue A T V) (Option ℕ)
  unfolding consume_loop
  start_consume_impl fuel s = consume_loop fuel s.m_head s

  -- The body of the loop of `clean_dead_elements`: what is given back with the dead block `curr`.
  unfoldable pub release_block : (curr next : ℕ) → Queue A T V → Queue A T V
  unfolding is_external same_page
  release_block curr next s =
      let block = s.externals curr in
      let a =
        if is_external (s.m_next curr)
        then al.deallocate block.m_element block.m_size block.m_alignment s.allocator
        else s.allocator in
      record s {
        allocator =
            if not (same_page l.page_alignment next curr) then al.deallocate_page curr a else a;
      }

  unfoldable pub clean_loop : (fuel curr : ℕ) → M (Queue A T V) (Unit {0})
  unfolding control_bits next_block release_block
  clean_loop zero curr s = out_of_fuel
  clean_loop (suc fuel) curr s =
      let next = next_block (s.m_next curr) in
      let rest = clean_loop fuel next (release_block curr next s) in
      if curr == s.m_tail
      then ok tt (record s { m_head = curr })
      else if control_bits (s.m_next curr) == queue_dead
      then rest
      else ok tt (record s { m_head = curr })

  unfoldable pub clean_dead_elements : (fuel : ℕ) → M (Queue A T V) (Unit {0})
  unfolding clean_loop
  clean_dead_elements fuel s = clean_loop fuel s.m_head s

  unfoldable pub commit_consume_impl : (fuel p : ℕ) → M (Queue A T V) (Unit {0})
  unfolding clean_dead_elements
  commit_consume_impl fuel p s =
      clean_dead_elements fuel (set_next p (add_word (s.m_next p) (queue_dead - queue_busy)) s)

  unfoldable pub cancel_consume_impl : ℕ → Queue A T V → Queue A T V
  cancel_consume_impl p s = set_next p (sub_word (s.m_next p) queue_busy) s

  -- `consume_operation::commit`: the element and its type are destroyed first.
  unfoldable pub commit : (fuel p : ℕ) → M (Queue A T V) (Unit {0})
  unfolding commit_consume_impl
  commit fuel p s = commit_consume_impl fuel p (record s {
    events = type_destroyed (s.types p) ∷ element_destroyed (s.elements p) ∷ s.events;
  })

  -- `consume_operation::commit_nodestroy`, for a runtime type with a destructor.
  unfoldable pub commit_nodestroy : (fuel p : ℕ) → M (Queue A T V) (Unit {0})
  unfolding commit_consume_impl
  commit_nodestroy fuel p s =
      commit_consume_impl fuel p (record s { events = type_destroyed (s.types p) ∷ s.events })

  -- `consume_operation::start_consume_impl`, on an operation that holds `m_control`.
  unfoldable pub try_start_consume : (fuel : ℕ) (m_control : Option ℕ) → M (Queue A T V) (Option ℕ)
  unfolding start_consume_impl cancel_consume_impl
  try_start_consume fuel none s = start_consume_impl fuel s
  try_start_consume fuel (some p) s = start_consume_impl fuel (cancel_consume_impl p s)

  unfoldable pub try_pop : (fuel : ℕ) → M (Queue A T V) Bool
  unfolding start_consume_impl commit
  try_pop fuel = start_consume_impl fuel >>= λ found. elim found [
    | none ↦ ok false
    | some p ↦ commit fuel p >>= λ _. ok true
  ]

  -- The loop of `clear`.
  unfoldable pub clear_loop : (rounds fuel : ℕ) → M (Queue A T V) (Unit {0})
  unfolding start_consume_impl commit
  clear_loop zero fuel s = out_of_fuel
  clear_loop (suc rounds) fuel s =
      (start_consume_impl fuel >>= λ found. elim found [
        | none ↦ ok tt
        | some p ↦ commit fuel p >>= λ _. clear_loop rounds fuel
      ])
        s

  unfoldable pub clear : (fuel : ℕ) → M (Queue A T V) (Unit {0})
  unfolding clear_loop clean_dead_elements
  clear fuel = clear_loop fuel fuel >>= λ _. clean_dead_elements fuel

  unfoldable pub destroy : (fuel : ℕ) → M (Queue A T V) (Unit {0})
  unfolding clear s_invalid_control_block
  destroy fuel = clear fuel >>= λ _ s. ok tt (
      if s.m_head == s_invalid_control_block
      then s
      else record s { allocator = al.deallocate_page s.m_head s.allocator })
