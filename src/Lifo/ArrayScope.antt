-- ===== src/Lifo/ArrayScope.antt =====
-- lifo.h: what the constructors and the destructor of a lifo_array leave on the stack of the thread.
use density.Lifo.ArrayTrace.{destroy_elements-eq, fewer}
use density.Lifo.ArrayTrace.{
  counted-Undoes, default_construct-eq, destroy_back-trace, destroyed_count,
}
use density.Lifo.ArrayTrace.{Built, construct-Built, constructed_count, constructions, destructions}
use density.Lifo.Last.{last_bound}
use density.Lifo.Array.{destroy_back, destroy_counted, array_new_range}
use density.Lifo.Allocation.{Refused}
use density.Lifo.ArrayStorage.{mem_size_bounds, Stored, stored, not_stored, impl_new-Stored}
use density.Effects.{
  ◌>>=◌, M, out_of_fuel, Result, ok, throw, bind-ok, bind-throw, on_exception, on_exception-ok,
  on_exception-throw,
}
use density.Base.{
  ℕ, ◌+◌, ◌*◌, ◌%◌, ◌^◌, ◌≤◌, ◌<◌, ◌≡◌, refl, ap, ◌∙◌, Bool, true, false, List, ◌∷◌, ◌++◌, arith,
}
use density.Align.Rounding.{IsAlignment}
use density.Allocator.{Allocator, IsAllocator, IsApart}
use density.Lifo.Layout.{LifoLayout, IsLifoLayout}
use density.Lifo.Operations.{Lifo}
use density.Lifo.Stack.{Block, IsStack}
use density.Lifo.Deallocation.{deallocate-pop}
use density.Lifo.Array.{
  ElementType, Thread, LifoArray, compute_mem_size, impl_new, impl_destroy, construct_loop,
  default_construct, destroy_elements, on_stack, release_impl, array_new, array_new_with,
  array_destroy,
}
use density.Lifo.ArrayTrace.{built, undone}

module _ {A V : Type 0} ⦃l : LifoLayout⦄ ⦃al : Allocator A⦄ (laws : IsAllocator al l.page_alignment)
    (apart : IsApart laws) (lay : IsLifoLayout l) (e : ElementType) where
  -- What a constructor leaves that constructs `count` of `n` elements: the array with its elements in a
  -- block on top of the living ones; or, where the constructor of element `k` throws, the living blocks
  -- as before and the elements in front of `k` destroyed in reverse order; or, where the allocator
  -- below refuses the memory, nothing.
  pub data Scoped (outcome : ℕ → Bool) (s : Thread A V) (blocks : List Block) (count n : ℕ)
      (r : Result (Thread A V) LifoArray) : Type 0 where
    entered :
        (a : LifoArray) (t : Thread A V)
        → r ≡ ok a t
        → IsStack laws t.stack ((a.m_elements, compute_mem_size e n) ∷ blocks)
        → a.m_size ≡ n
        → n * e.size ≤ compute_mem_size e n
        → ((i : ℕ) → i < n → (a.m_elements + i * e.size) % e.alignment ≡ 0)
        → ((i : ℕ) → i < count → outcome i ≡ true)
        → t.trace ≡ constructions e a.m_elements count ++ s.trace
        → Scoped outcome s blocks count n r
    unwound :
        (k m : ℕ) (t : Thread A V)
        → r ≡ throw t
        → k < count
        → outcome k ≡ false
        → IsStack laws t.stack blocks
        → t.trace ≡ destructions e m k ++ (constructions e m k ++ s.trace)
        → Scoped outcome s blocks count n r
    no_memory :
        Refused laws apart lay s.stack s.stack.m_top (compute_mem_size e n)
        → r ≡ throw s
        → Scoped outcome s blocks count n r

  on_stack-ok :
      {B : Type 0} (m : M (Lifo A V) B) (s : Thread A V) (t : Lifo A V) (b : B)
      → m s.stack ≡ ok b t
      → on_stack e m s ≡ ok b (record s { stack = t })
  on_stack-ok m s t b r =
      ap
        (λ (x : Result (Lifo A V) _). elim x as (λ _. Result (Thread A V) _) [
          | ok c u ↦ ok c (record s { stack = u })
          | throw u ↦ throw (record s { stack = u })
          | out_of_fuel ↦ out_of_fuel
        ])
        r

  on_stack-throw :
      {B : Type 0} (m : M (Lifo A V) B) (s : Thread A V) (t : Lifo A V)
      → m s.stack ≡ throw t
      → on_stack e m s ≡ throw (record s { stack = t })
  on_stack-throw m s t r =
      ap
        (λ (x : Result (Lifo A V) _). elim x as (λ _. Result (Thread A V) _) [
          | ok c u ↦ ok c (record s { stack = u })
          | throw u ↦ throw (record s { stack = u })
          | out_of_fuel ↦ out_of_fuel
        ])
        r

  -- The destructor of the base class.
  impl_destroy-pop :
      (a : LifoArray) (n : ℕ) (s : Lifo A V) (blocks : List Block)
      → a.m_size ≡ n
      → IsStack laws s ((a.m_elements, compute_mem_size e n) ∷ blocks)
      → IsStack laws (impl_destroy e a s) blocks
  unfolding impl_destroy
  impl_destroy-pop a n s blocks size i =
      rw size (deallocate-pop laws lay s a.m_elements (compute_mem_size e n) i).0

  -- What all constructors share: the base class allocates, `body` constructs, and the destructor of the
  -- base class deallocates where `body` throws.
  scope :
      (outcome : ℕ → Bool) (body : LifoArray → M (Thread A V) (Unit {0})) (count n : ℕ)
      (s : Thread A V) (blocks : List Block)
      → ((a : LifoArray) (t : Lifo A V)
          → impl_new e n s.stack ≡ ok a t
          → a.m_size ≡ n
          → a.m_elements < 2 ^ 63
          → Built e outcome a.m_elements count
              (record s { stack = t })
              (body a (record s { stack = t })))
      → Stored laws apart lay e
          (λ a. a.m_elements)
          s.stack
          blocks
          (compute_mem_size e n)
          n
          (impl_new e n s.stack)
      → n * e.size ≤ compute_mem_size e n
      → Scoped outcome s blocks count n (
          (on_stack e (impl_new e n) >>= λ a.
          on_exception (body a) (release_impl e a) >>= λ _. ok a)
            s)
  scope outcome body count n s blocks make (not_stored why r) room =
      no_memory why
        (bind-throw (on_stack e (impl_new e n)) _ s s (on_stack-throw (impl_new e n) s _ r))
  scope outcome body count n s blocks make (stored a t r i size start fits aligned) room =
      let u = record s { stack = t } in
      let build = on_exception (body a) (release_impl e a) in
      let enter : (on_stack e (impl_new e n) >>= λ b.
      on_exception (body b) (release_impl e b) >>= λ _. ok b)
            s
          ≡ (build >>= λ _. ok a) u =
        bind-ok (on_stack e (impl_new e n)) _ s u a (on_stack-ok (impl_new e n) s t a r) in
      elim (make a t r size (last_bound lay i.stack)) [
        | built good run ↦
            let inside = on_exception-ok (body a) (release_impl e a) u _ tt run in
            entered a _ (enter ∙ bind-ok build (λ _. ok a) u _ tt inside) i size room aligned good
              refl
        | undone k lt bad run ↦
            let inside = on_exception-throw (body a) (release_impl e a) u _ run in
            unwound k a.m_elements _ (enter ∙ bind-throw build (λ _. ok a) u _ inside) lt bad
              (impl_destroy-pop a n t blocks size i) refl
      ]

  -- The default constructor of a lifo_array of elements that are not aligned more strictly than the
  -- blocks, at most 2 ^ 61 bytes of them: it constructs all elements in order, and leaves them in a block
  -- on top of the living ones, large enough and each element aligned; or a constructor throws, and the elements in
  -- front are destroyed in reverse order and the living blocks are those from before; or there is an
  -- exception, nothing has changed, and the allocator below has no page or no block for the memory of
  -- the elements, which does not fit in the page of the top. The size of the type is a multiple of its
  -- alignment. Elements of a trivial type are not constructed.
  pub array_new-Scoped :
      (outcome : ℕ → Bool) (n : ℕ) (s : Thread A V) (blocks : List Block)
      → IsStack laws s.stack blocks
      → IsAlignment e.alignment
      → e.alignment ≤ l.alignment
      → e.size % e.alignment ≡ 0
      → n * e.size ≤ 2 ^ 61
      → Scoped outcome s blocks (constructed_count e n) n (array_new e outcome n s)
  unfolding array_new
  array_new-Scoped outcome n s blocks i power le unit small =
      scope outcome (default_construct e outcome) (constructed_count e n) n s blocks
        (λ a t r size low.
          rw (default_construct-eq e outcome a (record s { stack = t }), size)
            (construct-Built e outcome _ a.m_elements (constructed_count e n) _
              (counted-Undoes e a.m_elements (constructed_count e n))))
        (impl_new-Stored laws apart lay e n s.stack blocks i power le unit small)
        (mem_size_bounds lay e n small).1

  -- The same of the constructor from a range, which constructs the elements of every type.
  pub array_new_range-Scoped :
      (outcome : ℕ → Bool) (n : ℕ) (s : Thread A V) (blocks : List Block)
      → IsStack laws s.stack blocks
      → IsAlignment e.alignment
      → e.alignment ≤ l.alignment
      → e.size % e.alignment ≡ 0
      → n * e.size ≤ 2 ^ 61
      → Scoped outcome s blocks n n (array_new_range e outcome n s)
  unfolding array_new_range
  array_new_range-Scoped outcome n s blocks i power le unit small =
      scope outcome
        (λ a. construct_loop e outcome (destroy_counted e a.m_elements) a.m_elements n 0) n n s
        blocks
        (λ a t r size low.
          construct-Built e outcome _ a.m_elements n _ (counted-Undoes e a.m_elements n))
        (impl_new-Stored laws apart lay e n s.stack blocks i power le unit small)
        (mem_size_bounds lay e n small).1

  -- The same of the constructor with parameters, which constructs the elements of every type, with more
  -- fuel than elements, for a type with a size
  -- that is not larger than the address of any block that the base class may get here: the loop that
  -- destroys the elements in front ends then.
  pub array_new_with-Scoped :
      (fuel : ℕ) (outcome : ℕ → Bool) (n : ℕ) (s : Thread A V) (blocks : List Block)
      → IsStack laws s.stack blocks
      → IsAlignment e.alignment
      → e.alignment ≤ l.alignment
      → e.size % e.alignment ≡ 0
      → n * e.size ≤ 2 ^ 61
      → 0 < e.size
      → ((a : LifoArray) (t : Lifo A V) → impl_new e n s.stack ≡ ok a t → e.size ≤ a.m_elements)
      → n < fuel
      → Scoped outcome s blocks n n (array_new_with e fuel outcome n s)
  unfolding array_new_with
  array_new_with-Scoped fuel outcome n s blocks i power le unit small pos high lt =
      scope outcome
        (λ a. construct_loop e outcome (destroy_back e fuel a.m_elements) a.m_elements n 0) n n s
        blocks
        (λ a t r size low. construct-Built e outcome _ a.m_elements n _ (λ k u less.
          destroy_back-trace e fuel a.m_elements k u pos (high a t r)
            (omega (arith, low, small, fewer e k n less)) (omega (arith, lt, less))))
        (impl_new-Stored laws apart lay e n s.stack blocks i power le unit small)
        (mem_size_bounds lay e n small).1

  -- The destructor of the lifo_array made last, with more fuel than elements, for a type with a size that
  -- is not larger than the address of the first element: it ends, destroys the elements in reverse order,
  -- unless that does nothing for the type, and leaves the living blocks from before the array.
  pub array_destroy-Left :
      (fuel : ℕ) (a : LifoArray) (s : Thread A V) (blocks : List Block)
      → IsStack laws s.stack ((a.m_elements, compute_mem_size e a.m_size) ∷ blocks)
      → 0 < e.size
      → e.size ≤ a.m_elements
      → a.m_size * e.size ≤ 2 ^ 61
      → a.m_size < fuel
      → (t : Thread A V) × (array_destroy e fuel a s ≡ ok tt t)
        × IsStack laws t.stack blocks
        × (t.trace ≡ destructions e a.m_elements (destroyed_count e a.m_size) ++ s.trace)
  unfolding array_destroy
  array_destroy-Left fuel a s blocks i pos le small lt = (
    _,
    bind-ok (destroy_elements e fuel a) _ s _ tt
        (destroy_elements-eq e fuel a s pos le (omega (arith, small, last_bound lay i.stack)) lt),
    impl_destroy-pop a a.m_size s.stack blocks refl i,
    refl,
  )
