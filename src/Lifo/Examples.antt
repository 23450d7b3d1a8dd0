-- ===== src/Lifo/Examples.antt =====
-- The theorems about lifo.h at concrete stacks.
use density.Base.{ℕ, false, ◌+◌, ◌≤◌, ◌<◌, ◌≡◌, refl, [], ◌++◌, ltb, arith}
use density.Align.{uint_upper_align, uint_lower_align}
use density.Heap.{
  Heap, counting, counting-IsAllocator, counting-IsApart, owns_page-counting, owns_block-counting,
}
use density.Lifo.Operations.{allocate, deallocate, reallocate, init, destroy}
use density.Lifo.Stack.{IsStack}
use density.Lifo.Allocation.{Allocated, allocate-Allocated}
use density.Lifo.Deallocation.{deallocate-pop}
use density.Lifo.Reallocation.{Reallocated, reallocate-Reallocated}
use density.Lifo.Lifetime.{init-IsStack, destroy-releases}
use density.Lifo.Disjoint.{Separated, allocate-Separated}
use density.Lifo.Reallocation.{freed_top}
use density.Lifo.Array.{LifoArray, impl_new, Thread}
use density.Effects.{Result, ok, throw, out_of_fuel}
use density.Lifo.Operations.{Lifo}
use density.Base.{ap}
use density.Lifo.Buffer.{
  buffer, buffer_allocate, resize, owned, Buffered, buffer_allocate-Buffered, resize-Buffered,
}
use density.Lifo.Array.{
  compute_mem_size, compute_mem_size_over_aligned, impl_new_over_aligned, array_new, array_new_with,
  array_destroy,
}
use density.Lifo.ArrayStorage.{IsOverAligned, Stored, impl_new_over_aligned-Stored}
use density.Lifo.ArrayScope.{Scoped, array_new-Scoped, array_new_with-Scoped, array_destroy-Left}
use density.Lifo.ArrayTrace.{constructed_count, destroyed_count, destructions}
use density.Lifo.Fixture.{
  half, last_array, layout, layout-IsLifoLayout, eight, three, two_blocks, three_blocks,
  three-IsStack, fresh, words, vectors, thread,
}

allocate_example :
    Allocated counting-IsAllocator counting-IsApart layout-IsLifoLayout [] [] three three.m_top
      three_blocks 65480
      (allocate 65480 three)
allocate_example =
    allocate-Allocated counting-IsAllocator counting-IsApart layout-IsLifoLayout three 65480
      three-IsStack refl (omega arith)

deallocate_example :
    IsStack counting-IsAllocator (deallocate 131104 16 three) two_blocks
    × ((deallocate 131104 16 three).bytes ≡ three.bytes)
deallocate_example =
    deallocate-pop counting-IsAllocator layout-IsLifoLayout three 131104 16 three-IsStack

reallocate_example :
    Reallocated counting-IsAllocator counting-IsApart layout-IsLifoLayout three two_blocks 131104 16
      65528
      (reallocate 131104 16 65528 three)
reallocate_example =
    reallocate-Reallocated counting-IsAllocator counting-IsApart layout-IsLifoLayout three 131104 16
      65528 three-IsStack refl (omega arith)

fresh-IsStack : IsStack counting-IsAllocator (init fresh) []
fresh-IsStack =
    init-IsStack counting-IsAllocator layout-IsLifoLayout fresh (λ a. omega arith)
      (owns_page-counting fresh.allocator) (owns_block-counting fresh.allocator)

destroy_example :
    (counting-IsAllocator.owns_page (destroy (init fresh)).allocator 131072 ≡ false)
    × (counting-IsAllocator.owns_block (destroy (init fresh)).allocator 131072 ≡ false)
destroy_example =
    destroy-releases counting-IsAllocator layout-IsLifoLayout (init fresh) fresh-IsStack 131072

separate_example :
    Separated counting-IsAllocator counting-IsApart layout-IsLifoLayout three three_blocks 65480
      (allocate 65480 three)
separate_example =
    allocate-Separated counting-IsAllocator counting-IsApart layout-IsLifoLayout three 65480
      three-IsStack refl (omega arith)

buffer_allocate_example :
    Buffered counting-IsAllocator counting-IsApart layout-IsLifoLayout three three.m_top
      three_blocks 21
      (λ b t. 21 ≤ (owned b).1)
      (buffer_allocate 21 three)
buffer_allocate_example =
    buffer_allocate-Buffered counting-IsAllocator counting-IsApart layout-IsLifoLayout 21 three
      three_blocks three-IsStack (omega arith)

-- A buffer of 13 bytes in the last block.
resize_example :
    Buffered counting-IsAllocator counting-IsApart layout-IsLifoLayout three
      (freed_top 131104 three)
      two_blocks
      70000
      (λ b' t. (i : ℕ) → i < 13 → i < 70000 → t.bytes (b'.m_data + i) ≡ three.bytes (131104 + i))
      (resize 70000 (buffer 131104 13) three)
unfolding uint_upper_align
resize_example =
    resize-Buffered counting-IsAllocator counting-IsApart layout-IsLifoLayout 70000
      (buffer 131104 13) three two_blocks three-IsStack (omega arith) (omega arith)

vectors-IsOverAligned : IsOverAligned layout-IsLifoLayout vectors
vectors-IsOverAligned = record {
  alignment = record { exponent = 5; fits = omega arith; power = refl };
  over = omega arith;
  bound = omega arith;
  multiple = refl;
}

over_aligned_example :
    Stored counting-IsAllocator counting-IsApart layout-IsLifoLayout vectors
      (λ a. a.m_block)
      three
      three_blocks
      (compute_mem_size_over_aligned vectors 5)
      5
      (impl_new_over_aligned vectors 5 three)
over_aligned_example =
    impl_new_over_aligned-Stored counting-IsAllocator counting-IsApart layout-IsLifoLayout vectors 5
      three three_blocks three-IsStack vectors-IsOverAligned (omega arith)

-- The constructor of the fourth element throws.
array_new_example :
    Scoped counting-IsAllocator counting-IsApart layout-IsLifoLayout words
      (λ i. ltb i 3)
      thread
      three_blocks
      (constructed_count words 5)
      5
      (array_new words (λ i. ltb i 3) 5 thread)
array_new_example =
    array_new-Scoped counting-IsAllocator counting-IsApart layout-IsLifoLayout words (λ i. ltb i 3)
      5 thread three_blocks three-IsStack eight (omega arith) refl (omega arith)

abbrev first_element : Result (Lifo Heap ℕ) LifoArray → ℕ
first_element (ok a t) = a.m_elements
first_element (throw t) = 0
first_element out_of_fuel = 0

words-high :
    (a : LifoArray) (t : Lifo Heap ℕ) → impl_new words 5 three ≡ ok a t → words.size ≤ a.m_elements
unfolding impl_new uint_lower_align
words-high a t h = let at : 131120 ≡ a.m_elements = ap first_element h in omega (arith, at)

-- The constructor of the fourth element throws.
array_new_with_example :
    Scoped counting-IsAllocator counting-IsApart layout-IsLifoLayout words
      (λ i. ltb i 3)
      thread
      three_blocks
      5
      5
      (array_new_with words 6 (λ i. ltb i 3) 5 thread)
array_new_with_example =
    array_new_with-Scoped counting-IsAllocator counting-IsApart layout-IsLifoLayout words 6
      (λ i. ltb i 3) 5 thread three_blocks three-IsStack eight (omega arith) refl (omega arith)
      (omega arith) words-high (omega arith)

-- An array of two elements of 8 bytes in the last block.
array_destroy_example :
    (t : Thread Heap ℕ) × (array_destroy half 3 last_array thread ≡ ok tt t)
    × IsStack counting-IsAllocator t.stack two_blocks
    × (t.trace ≡ destructions half 131104 (destroyed_count half 2) ++ [])
unfolding compute_mem_size
array_destroy_example =
    array_destroy-Left counting-IsAllocator counting-IsApart layout-IsLifoLayout half 3 last_array
      thread two_blocks three-IsStack (omega arith) (omega arith) (omega arith) (omega arith)
