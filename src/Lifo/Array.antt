-- ===== src/Lifo/Array.antt =====
-- lifo.h: `LifoArrayImpl` and `lifo_array`, arrays on the stack of a thread. An element is named by
-- its address; a constructor is given by its outcome at each index, false where it throws.
use density.Base.{ℕ, zero, suc, ◌-◌, ◌*◌, ◌%◌, Bool, List, ◌∷◌, ◌==◌, if◌then◌else◌, leb}
use density.Align.{word_mod, add_word, sub_word, uint_upper_align}
use density.Allocator.{Allocator}
use density.Effects.{M, ok, throw, out_of_fuel, ◌>>=◌, on_exception}
use density.Lifo.Layout.{LifoLayout}
use density.Lifo.Operations.{Lifo, allocate, deallocate}

-- `sizeof(TYPE)`, `alignof(TYPE)`, and what is known of the type when the program is compiled.
pub record ElementType : Type 0 where
  pub size : ℕ
  pub alignment : ℕ
  pub is_pod : Bool
  pub is_trivially_destructible : Bool

pub data ElementEvent : Type 0 where
  constructed destroyed : ℕ → ElementEvent

-- The stack of the thread, and the trace of constructors and destructors, last first.
pub record Thread (A V : Type 0) : Type 0 where
  pub stack : Lifo A V
  pub trace : List ElementEvent

-- The block, the first element and the number of elements.
pub record LifoArray : Type 0 where
  pub m_block : ℕ
  pub m_elements : ℕ
  pub m_size : ℕ

module _ ⦃l : LifoLayout⦄ (e : ElementType) where
  unfoldable pub compute_mem_size : (i_element_count : ℕ) → ℕ
  compute_mem_size i_element_count =
      let mem_size = (i_element_count * e.size) % word_mod in
      if e.size % l.alignment == 0 then mem_size else uint_upper_align mem_size l.alignment

  -- For types that are aligned more strictly than the blocks.
  abbrev pub size_overhead : ℕ
  size_overhead = e.alignment - l.alignment

  unfoldable pub compute_mem_size_over_aligned : (i_element_count : ℕ) → ℕ
  compute_mem_size_over_aligned i_element_count =
      let mem_size = add_word ((i_element_count * e.size) % word_mod) size_overhead in
      if e.size % l.alignment == 0 then mem_size else uint_upper_align mem_size l.alignment

-- The elements: `m_elements + i_index`.
abbrev pub element_at : ElementType → (m_elements i_index : ℕ) → ℕ
element_at e m_elements i_index = add_word m_elements (i_index * e.size)

module _ {A V : Type 0} ⦃l : LifoLayout⦄ ⦃al : Allocator A⦄ (e : ElementType) where
  unfoldable pub impl_new : (i_size : ℕ) → M (Lifo A V) LifoArray
  unfolding allocate compute_mem_size
  impl_new i_size = allocate (compute_mem_size e i_size) >>= λ block.
      ok (record { m_block = block; m_elements = block; m_size = i_size })

  unfoldable pub impl_destroy : LifoArray → Lifo A V → Lifo A V
  unfolding deallocate compute_mem_size
  impl_destroy a = deallocate a.m_elements (compute_mem_size e a.m_size)

  unfoldable pub impl_new_over_aligned : (i_size : ℕ) → M (Lifo A V) LifoArray
  unfolding allocate compute_mem_size_over_aligned
  impl_new_over_aligned i_size = allocate (compute_mem_size_over_aligned e i_size) >>= λ block.
      ok (record {
        m_block = block;
        m_elements = uint_upper_align block e.alignment;
        m_size = i_size;
      })

  unfoldable pub impl_destroy_over_aligned : LifoArray → Lifo A V → Lifo A V
  unfolding deallocate compute_mem_size_over_aligned
  impl_destroy_over_aligned a = deallocate a.m_block (compute_mem_size_over_aligned e a.m_size)

  -- The elements below `count` are destroyed, the last one first.
  unfoldable pub destroy_down : (m_elements count : ℕ) → Thread A V → Thread A V
  destroy_down m_elements zero s = s
  destroy_down m_elements (suc k) s =
      destroy_down m_elements k
        (record s { trace = destroyed (element_at e m_elements k) ∷ s.trace })

  -- The loop of a pointer from `it` down: `for (; it >= m_elements; it--)`, with a unit of fuel for each
  -- test. The pointer wraps below the null pointer.
  unfoldable pub destroy_loop : (fuel m_elements it : ℕ) → M (Thread A V) (Unit {0})
  destroy_loop zero m_elements it s = out_of_fuel
  destroy_loop (suc fuel) m_elements it s =
      let rest =
        destroy_loop fuel m_elements (sub_word it e.size)
          (record s { trace = destroyed it ∷ s.trace }) in
      if leb m_elements it then rest else ok tt s

  -- The loop from the last of `count` elements down.
  unfoldable pub destroy_back : (fuel m_elements count : ℕ) → M (Thread A V) (Unit {0})
  unfolding destroy_loop
  destroy_back fuel m_elements count =
      destroy_loop fuel m_elements (sub_word (element_at e m_elements count) e.size)

  -- The same with a count of the elements that are left.
  abbrev pub destroy_counted : (m_elements count : ℕ) → M (Thread A V) (Unit {0})
  destroy_counted m_elements count s = ok tt (destroy_down m_elements count s)

  -- The loops of the constructors; where one throws, `undo` destroys the elements before it.
  unfoldable pub construct_loop :
      (outcome : ℕ → Bool) (undo : ℕ → M (Thread A V) (Unit {0}))
      (m_elements left element_index : ℕ)
      → M (Thread A V) (Unit {0})
  construct_loop outcome undo m_elements zero element_index s = ok tt s
  construct_loop outcome undo m_elements (suc left) element_index s =
      let rest =
        construct_loop outcome undo m_elements left (suc element_index)
          (record s { trace = constructed (element_at e m_elements element_index) ∷ s.trace }) in
      if outcome element_index then rest else (undo element_index >>= λ _. throw) s

  unfoldable pub default_construct : (outcome : ℕ → Bool) → LifoArray → M (Thread A V) (Unit {0})
  unfolding construct_loop destroy_down
  default_construct outcome a s =
      if e.is_pod
      then ok tt s
      else construct_loop outcome (destroy_counted a.m_elements) a.m_elements a.m_size 0 s

  unfoldable pub destroy_elements : (fuel : ℕ) → LifoArray → M (Thread A V) (Unit {0})
  unfolding destroy_back
  destroy_elements fuel a s =
      if e.is_trivially_destructible then ok tt s else destroy_back fuel a.m_elements a.m_size s

  -- A command on the stack of the thread.
  abbrev pub on_stack : {B : Type 0} → M (Lifo A V) B → M (Thread A V) B
  on_stack m s = elim (m s.stack) [
    | ok b t ↦ ok b (record s { stack = t })
    | throw t ↦ throw (record s { stack = t })
    | out_of_fuel ↦ out_of_fuel
  ]

  abbrev pub release_impl : LifoArray → Thread A V → Thread A V
  release_impl a s = record s { stack = impl_destroy a s.stack }

  -- The constructors: the base class allocates, and its destructor deallocates if the rest throws.
  unfoldable pub array_new : (outcome : ℕ → Bool) (i_size : ℕ) → M (Thread A V) LifoArray
  unfolding impl_new impl_destroy default_construct
  array_new outcome i_size = on_stack (impl_new i_size) >>= λ a.
      on_exception (default_construct outcome a) (release_impl a) >>= λ _. ok a

  -- The constructor with parameters, which constructs elements of any type.
  unfoldable pub array_new_with :
      (fuel : ℕ) (outcome : ℕ → Bool) (i_size : ℕ) → M (Thread A V) LifoArray
  unfolding impl_new impl_destroy construct_loop destroy_back
  array_new_with fuel outcome i_size = on_stack (impl_new i_size) >>= λ a.
      on_exception (construct_loop outcome (destroy_back fuel a.m_elements) a.m_elements i_size 0)
        (release_impl a)
      >>= λ _. ok a

  -- The constructor from a range of `i_size` elements.
  unfoldable pub array_new_range : (outcome : ℕ → Bool) (i_size : ℕ) → M (Thread A V) LifoArray
  unfolding impl_new impl_destroy construct_loop destroy_down
  array_new_range outcome i_size = on_stack (impl_new i_size) >>= λ a.
      on_exception (construct_loop outcome (destroy_counted a.m_elements) a.m_elements i_size 0)
        (release_impl a)
      >>= λ _. ok a

  unfoldable pub array_destroy : (fuel : ℕ) → LifoArray → M (Thread A V) (Unit {0})
  unfolding destroy_elements impl_destroy
  array_destroy fuel a = destroy_elements fuel a >>= λ _ s. ok tt (release_impl a s)
