-- ===== src/HeterQueue/Examples.antt =====
-- heter_queue.h and density_common.h: the theorems applied to a concrete queue and to concrete numbers.
use density.Base.{false}
use density.Base.{◌==◌}
use density.HeterQueue.Inplace.{Refused}
use density.HeterQueue.Layout.{queue_dead}
use density.Base.{
  length, ℕ, ◌+◌, ◌%◌, ◌^◌, ◌<◌, ◌≤◌, ◌≡◌, ◌↔◌, refl, true, List, [], ◌∷◌, ◌++◌, arith, some,
}
use density.Align.{is_power_of_2, uint_upper_align}
use density.Align.Rounding.{IsAlignment, upper_align_bounds, is_power_of_2_iff}
use density.HeterQueue.State.{Queue, Event}
use density.Effects.{ok}
use density.HeterQueue.Layout.{raise_request}
use density.HeterQueue.Put.{
  inplace_allocate, nesting, commit_reentrant_put_impl, start_dyn_push, start_dyn_push_copy,
  start_dyn_push_move, start_reentrant_dyn_push, start_reentrant_dyn_push_copy,
  start_reentrant_dyn_push_move, cancel_reentrant_put_impl,
}
use density.HeterQueue.Consume.{
  empty, try_pop, start_consume_impl, commit, cancel_consume_impl, clean_dead_elements, clear,
}
use density.HeterQueue.Chain.{drop_dead}
use density.HeterQueue.Invariant.{IsValid, contents}
use density.HeterQueue.Consumer.{Taken, start_consume-Taken}
use density.HeterQueue.Commit.{IsHeld, commit-IsValid, cancel_consume-IsValid}
use density.HeterQueue.Cleaning.{clean-IsValid}
use density.HeterQueue.Contents.{
  empty-contents, Popped, try_pop-Popped, commit_reentrant_put-contents, is_nil,
  cancel_reentrant_put-contents,
}
use density.HeterQueue.Loop.{Outcome}
use density.HeterQueue.Inplace.{IsStored, inplace-Outcome}
use density.HeterQueue.Push.{
  PutResult, IsElementType, start_dyn_push-PutResult, start_reentrant_dyn_push-PutResult,
}
use density.HeterQueue.Clear.{destroyed, clear-destroyed}
use density.HeterQueue.Fixture.{
  layout, layout-IsLayout, Kind, small, large, kinds, two, two_blocks, two-IsValid,
}
use density.Heap.{Heap, counting, counting-IsAllocator}

sixteen : IsAlignment 16
sixteen = record { exponent = 4; fits = omega arith; power = refl }

sixty_four : IsAlignment 64
sixty_four = record { exponent = 6; fits = omega arith; power = refl }

upper_align_bounds_example :
    (uint_upper_align 17 16 % 16 ≡ 0)
    × (17 ≤ uint_upper_align 17 16)
    × (uint_upper_align 17 16 < 17 + 16)
upper_align_bounds_example = upper_align_bounds 17 16 sixteen (omega arith)

is_power_of_2_iff_example : (is_power_of_2 24 ≡ true) ↔ ((k : ℕ) × (24 ≡ 2 ^ k))
is_power_of_2_iff_example = is_power_of_2_iff 24 (omega arith) (omega arith)

large-IsElementType : IsElementType counting-IsAllocator layout-IsLayout kinds large
large-IsElementType = record { alignment = sixty_four; multiple = refl; bound = omega arith }

push_example :
    PutResult counting-IsAllocator layout-IsLayout two two_blocks 0
      (kinds.size large)
      (kinds.alignment large)
      (some large)
      (some 1)
      (start_dyn_push kinds large two)
    × PutResult counting-IsAllocator layout-IsLayout two two_blocks 0
        (kinds.size large)
        (kinds.alignment large)
        (some large)
        (some 9)
        (start_dyn_push_copy kinds large 9 two)
    × PutResult counting-IsAllocator layout-IsLayout two two_blocks 0
        (kinds.size large)
        (kinds.alignment large)
        (some large)
        (some 9)
        (start_dyn_push_move kinds large 9 two)
push_example =
    start_dyn_push-PutResult counting-IsAllocator layout-IsLayout kinds two two_blocks large 9
      two-IsValid large-IsElementType

reentrant_push_example :
    PutResult counting-IsAllocator layout-IsLayout two two_blocks 1
      (kinds.size large)
      (kinds.alignment large)
      (some large)
      (some 1)
      (start_reentrant_dyn_push kinds large two)
    × PutResult counting-IsAllocator layout-IsLayout two two_blocks 1
        (kinds.size large)
        (kinds.alignment large)
        (some large)
        (some 9)
        (start_reentrant_dyn_push_copy kinds large 9 two)
    × PutResult counting-IsAllocator layout-IsLayout two two_blocks 1
        (kinds.size large)
        (kinds.alignment large)
        (some large)
        (some 9)
        (start_reentrant_dyn_push_move kinds large 9 two)
reentrant_push_example =
    start_reentrant_dyn_push-PutResult counting-IsAllocator layout-IsLayout kinds two two_blocks
      large 9 two-IsValid large-IsElementType

inplace_example :
    Outcome counting-IsAllocator layout-IsLayout [] two two_blocks 2
      (IsStored counting-IsAllocator layout-IsLayout 2 true
        (raise_request 1048576 64).0
        (raise_request 1048576 64).1)
      (Refused counting-IsAllocator layout-IsLayout true
        (raise_request 1048576 64).0
        (raise_request 1048576 64).1
        two)
      (inplace_allocate nesting 2 true 1048576 64 two)
inplace_example =
    inplace-Outcome counting-IsAllocator layout-IsLayout two 2 true 1048576 64 two-IsValid
      (omega arith) sixty_four refl (omega arith)

start_consume_example :
    Taken counting-IsAllocator layout-IsLayout two two_blocks
      (contents two two_blocks)
      (start_consume_impl 3 two)
start_consume_example =
    start_consume-Taken counting-IsAllocator layout-IsLayout 3 two two_blocks two-IsValid
      (omega arith)

second-IsHeld : IsHeld counting-IsAllocator layout-IsLayout two two_blocks 131096
second-IsHeld = record { inside = refl; busy = refl }

commit_example :
    (t : Queue Heap Kind ℕ) × (ys : List ℕ) × (commit 3 131096 two ≡ ok tt t)
    × IsValid counting-IsAllocator t ys
    × (contents t ys ≡ contents two two_blocks)
    × (ys ≡ drop_dead t.m_next two_blocks)
    × (t.m_next 131096 % 4 ≡ queue_dead)
    × ((q : ℕ) → (q == 131096) ≡ false → t.m_next q ≡ two.m_next q)
    × (length ys ≤ length two_blocks)
    × (t.events ≡ Event.type_destroyed small ∷ Event.element_destroyed 8 ∷ [])
commit_example =
    commit-IsValid counting-IsAllocator layout-IsLayout 3 two two_blocks 131096 two-IsValid
      second-IsHeld (omega arith)

cancel_consume_example :
    (ys zs : List ℕ) × (two_blocks ≡ ys ++ 131096 ∷ zs)
    × (contents two two_blocks ≡ contents two ys ++ contents two zs)
    × (contents (cancel_consume_impl 131096 two) two_blocks
        ≡ contents two ys ++ (small, 8) ∷ contents two zs)
    × IsValid counting-IsAllocator (cancel_consume_impl 131096 two) two_blocks
cancel_consume_example =
    cancel_consume-IsValid counting-IsAllocator layout-IsLayout two two_blocks 131096 two-IsValid
      second-IsHeld

commit_reentrant_put_example :
    (ys zs : List ℕ) × (two_blocks ≡ ys ++ 131096 ∷ zs)
    × (contents two two_blocks ≡ contents two ys ++ contents two zs)
    × (contents (commit_reentrant_put_impl 131096 two) two_blocks
        ≡ contents two ys ++ (small, 8) ∷ contents two zs)
    × IsValid counting-IsAllocator (commit_reentrant_put_impl 131096 two) two_blocks
commit_reentrant_put_example =
    commit_reentrant_put-contents counting-IsAllocator layout-IsLayout two two_blocks 131096
      two-IsValid second-IsHeld

clean_example :
    (t : Queue Heap Kind ℕ) × (clean_dead_elements 3 two ≡ ok tt t)
    × IsValid counting-IsAllocator t (drop_dead two.m_next two_blocks)
    × (contents t (drop_dead two.m_next two_blocks) ≡ contents two two_blocks)
    × (t.events ≡ [])
    × (t.m_next ≡ two.m_next)
clean_example =
    clean-IsValid counting-IsAllocator layout-IsLayout 3 two two_blocks two-IsValid (omega arith)

empty_example : empty 3 two ≡ ok (is_nil (contents two two_blocks)) two
empty_example =
    empty-contents counting-IsAllocator layout-IsLayout 3 two two_blocks two-IsValid (omega arith)

try_pop_example :
    Popped counting-IsAllocator layout-IsLayout two (contents two two_blocks) (try_pop 3 two)
try_pop_example =
    try_pop-Popped counting-IsAllocator layout-IsLayout 3 two two_blocks two-IsValid (omega arith)

pages : IsAlignment 65536
pages = record { exponent = 16; fits = omega arith; power = refl }

clear_example :
    (t : Queue Heap Kind ℕ) × (ys : List ℕ) × (clear 3 two ≡ ok tt t)
    × IsValid counting-IsAllocator t ys
    × (contents t ys ≡ [])
    × (t.events ≡ destroyed (contents two two_blocks) [])
clear_example =
    clear-destroyed counting-IsAllocator layout-IsLayout 3 two two_blocks two-IsValid (omega arith)

cancel_reentrant_put_example :
    IsValid counting-IsAllocator (cancel_reentrant_put_impl 131096 two) two_blocks
    × (contents (cancel_reentrant_put_impl 131096 two) two_blocks ≡ contents two two_blocks)
    × ((cancel_reentrant_put_impl 131096 two).m_next 131096 % 4 ≡ 2)
    × ((cancel_reentrant_put_impl 131096 two).events
        ≡ Event.type_destroyed small ∷ Event.element_destroyed 8 ∷ [])
cancel_reentrant_put_example =
    cancel_reentrant_put-contents counting-IsAllocator layout-IsLayout two two_blocks 131096
      two-IsValid second-IsHeld
