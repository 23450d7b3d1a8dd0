-- ===== src/Lifo/Buffer.antt =====
-- lifo.h: `lifo_buffer`, a block of any size on the stack of a thread.
use density.Lifo.Reallocation.{freed_top}
use density.Lifo.Allocation.{Refused}
use density.Base.{ℕ, ◌+◌, ◌%◌, ◌^◌, ◌≤◌, ◌<◌, ◌≡◌, refl, List, ◌∷◌, arith}
use density.Align.{uint_upper_align}
use density.Align.Rounding.{IsAlignment-bounds, upper_align_bounds}
use density.Allocator.{Allocator, IsAllocator, IsApart}
use density.Effects.{M, Result, ok, throw, ◌>>=◌, bind-ok, bind-throw}
use density.Lifo.Layout.{LifoLayout, IsLifoLayout}
use density.Lifo.Operations.{Lifo, allocate, allocate_empty, deallocate, reallocate}
use density.Lifo.Stack.{Block, IsStack}
use density.Lifo.Allocation.{given, refused, allocate-Allocated}
use density.Lifo.Deallocation.{deallocate-pop}
use density.Lifo.Reallocation.{moved, kept, reallocate-Reallocated}

pub record Buffer : Type 0 where
  pub m_data : ℕ
  pub m_size : ℕ

abbrev pub buffer : ℕ → ℕ → Buffer
buffer m_data m_size = record { m_data = m_data; m_size = m_size }

module _ {A V : Type 0} ⦃l : LifoLayout⦄ ⦃al : Allocator A⦄ where
  unfoldable pub buffer_empty : Lifo A V → Buffer
  unfolding allocate_empty
  buffer_empty s = buffer (allocate_empty s) 0

  unfoldable pub buffer_allocate : (i_size : ℕ) → M (Lifo A V) Buffer
  unfolding allocate
  buffer_allocate i_size =
      allocate (uint_upper_align i_size l.alignment) >>= λ block. ok (buffer block i_size)

  unfoldable pub buffer_destroy : Buffer → Lifo A V → Lifo A V
  unfolding deallocate
  buffer_destroy b = deallocate b.m_data (uint_upper_align b.m_size l.alignment)

  unfoldable pub resize : (i_new_size : ℕ) → Buffer → M (Lifo A V) Buffer
  unfolding reallocate
  resize i_new_size b =
      reallocate b.m_data (uint_upper_align b.m_size l.alignment)
        (uint_upper_align i_new_size l.alignment)
      >>= λ block. ok (buffer block i_new_size)

module _ ⦃l : LifoLayout⦄ where
  -- The block that a buffer owns.
  abbrev pub owned : Buffer → Block
  owned b = (b.m_data, uint_upper_align b.m_size l.alignment)

module _ ⦃l : LifoLayout⦄ (lay : IsLifoLayout l) where
  pub rounded :
      (n : ℕ)
      → n ≤ 2 ^ 61
      → (uint_upper_align n l.alignment % l.alignment ≡ 0)
        × (n ≤ uint_upper_align n l.alignment)
        × (uint_upper_align n l.alignment ≤ 2 ^ 62)
  rounded n small =
      let (pos, lt) = IsAlignment-bounds lay.block in
      let (mult, ge, lt') =
        upper_align_bounds n l.alignment lay.block (omega (arith, lay.block_le, lay.page_half)) in
      (mult, ge, omega (arith, lay.block_le, lay.page_half))

module _ {A V : Type 0} ⦃l : LifoLayout⦄ ⦃al : Allocator A⦄ (laws : IsAllocator al l.page_alignment)
    (apart : IsApart laws) (lay : IsLifoLayout l) where
  -- A buffer on top of the living blocks, with `size` bytes of its own, or no change.
  pub data Buffered (s : Lifo A V) (top : ℕ) (blocks : List Block) (size : ℕ)
      (P : Buffer → Lifo A V → Type 0) (r : Result (Lifo A V) Buffer) : Type 0 where
    made :
        (b : Buffer) (t : Lifo A V)
        → r ≡ ok b t
        → IsStack laws t (owned b ∷ blocks)
        → b.m_size ≡ size
        → P b t
        → Buffered s top blocks size P r
    unchanged :
        Refused laws apart lay s top (uint_upper_align size l.alignment)
        → r ≡ throw s
        → Buffered s top blocks size P r

  -- The constructor of a lifo_buffer of at most 2 ^ 61 bytes: it owns the last living block, which has
  -- at least that size, or there is an exception and nothing has changed, since the allocator below has
  -- no memory for a rounded size that does not fit in the page of the top.
  pub buffer_allocate-Buffered :
      (n : ℕ) (s : Lifo A V) (blocks : List Block)
      → IsStack laws s blocks
      → n ≤ 2 ^ 61
      → Buffered s s.m_top blocks n (λ b t. n ≤ (owned b).1) (buffer_allocate n s)
  unfolding buffer_allocate
  buffer_allocate-Buffered n s blocks i small =
      let (mult, ge, le) = rounded lay n small in
      elim (allocate-Allocated laws apart lay s (uint_upper_align n l.alignment) i mult le) [
        | given b t e j bytes ↦
            made (buffer b n) t (bind-ok (allocate (uint_upper_align n l.alignment)) _ s t b e) j
              refl ge
        | refused why e ↦
            unchanged why (bind-throw (allocate (uint_upper_align n l.alignment)) _ s s e)
      ]

  -- `resize` to at most 2 ^ 61 bytes of the lifo_buffer made last: it owns the last living block with
  -- the new size then, and the bytes up to the smaller of the two sizes are those before; or there is
  -- an exception and nothing has changed, since the allocator below has no memory for a rounded size
  -- that does not fit behind the old block.
  pub resize-Buffered :
      (n : ℕ) (b : Buffer) (s : Lifo A V) (blocks : List Block)
      → IsStack laws s (owned b ∷ blocks)
      → n ≤ 2 ^ 61
      → b.m_size ≤ 2 ^ 61
      → Buffered s
          (freed_top b.m_data s)
          blocks
          n
          (λ b' t.
            (i : ℕ) → i < b.m_size → i < n → t.bytes (b'.m_data + i) ≡ s.bytes (b.m_data + i))
          (resize n b s)
  unfolding resize
  resize-Buffered n b s blocks i small small' =
      let (mult, ge, le) = rounded lay n small in
      let (mult', ge', le') = rounded lay b.m_size small' in
      let run =
        reallocate b.m_data (uint_upper_align b.m_size l.alignment)
          (uint_upper_align n l.alignment) in
      elim (reallocate-Reallocated laws apart lay s b.m_data (uint_upper_align b.m_size l.alignment)
        (uint_upper_align n l.alignment) i mult le) [
          | moved d t e j bytes ↦
              made (buffer d n) t (bind-ok run _ s t d e) j refl
                (λ x lt lt'. bytes x (omega arith) (omega arith))
          | kept why e ↦ unchanged why (bind-throw run _ s s e)
        ]

  -- The lifetime of a lifo_buffer: the empty one owns the last living block, and the destructor of
  -- the buffer made last leaves the blocks from before it was made.
  pub buffer_destroy-pop :
      (b : Buffer) (s : Lifo A V) (blocks : List Block)
      → IsStack laws s (owned b ∷ blocks)
      → IsStack laws (buffer_destroy b s) blocks
  unfolding buffer_destroy
  buffer_destroy-pop b s blocks i =
      (deallocate-pop laws lay s b.m_data (uint_upper_align b.m_size l.alignment) i).0
