-- ===== src/Lifo/Disjoint.antt =====
-- lifo.h: an allocation leaves living blocks that are aligned and, in a page, apart.
use density.Base.{ℕ, ◌%◌, ◌^◌, ◌≤◌, ◌≡◌, List, ◌∷◌}
use density.Allocator.{Allocator, IsAllocator, IsApart}
use density.Effects.{Result, ok, throw}
use density.Lifo.Layout.{LifoLayout, IsLifoLayout}
use density.Lifo.Operations.{Lifo, allocate}
use density.Lifo.Stack.{Block, IsStack}
use density.Lifo.Allocation.{Refused, given, refused, allocate-Allocated}
use density.Lifo.Separate.{AreSeparate, living-AreSeparate}

module _ {A V : Type 0} ⦃l : LifoLayout⦄ ⦃al : Allocator A⦄ (laws : IsAllocator al l.page_alignment)
    (apart : IsApart laws) (lay : IsLifoLayout l) where
  -- A new block of `n` bytes that is aligned and apart from the others, or an exception without change.
  pub data Separated (s : Lifo A V) (blocks : List Block) (n : ℕ) (r : Result (Lifo A V) ℕ)
      : Type 0 where
    separated :
        (b : ℕ) (t : Lifo A V) (j : IsStack laws t ((b, n) ∷ blocks))
        → r ≡ ok b t
        → AreSeparate j.externals ((b, n) ∷ blocks)
        → Separated s blocks n r
    not_allocated : Refused laws apart lay s s.m_top n → r ≡ throw s → Separated s blocks n r

  -- `allocate` of a size that is a multiple of the alignment and at most 2 ^ 62, on a stack of living
  -- blocks: either it returns a block such that this one and all living blocks are aligned, and each
  -- of them that is not external begins behind the end of every older one in its page; or there is an
  -- exception, nothing has changed, the request does not fit in the page of the top, and the allocator
  -- below refuses a page (for a request below half a page) or a block of the size.
  pub allocate-Separated :
      (s : Lifo A V) (n : ℕ) {blocks : List Block}
      → IsStack laws s blocks
      → n % l.alignment ≡ 0
      → n ≤ 2 ^ 62
      → Separated s blocks n (allocate n s)
  allocate-Separated s n {blocks} i mult small =
      elim (allocate-Allocated laws apart lay s n i mult small) [
        | given b t e j bytes ↦
            separated b t j e (living-AreSeparate laws lay t ((b, n) ∷ blocks) j)
        | refused why e ↦ not_allocated why e
      ]
