-- ===== src/Lifo/Reallocation.antt =====
-- lifo.h: a reallocation replaces the last living block and moves its bytes.
use density.Base.{refl}
use density.Lifo.Allocation.{Refused}
use density.Base.{subst}
use density.Lifo.Operations.{page_below}
use density.Base.{◌||◌}
use density.Align.{same_page}
use density.Base.{if◌then◌else◌}
use density.Base.{
  Bool-cases, ◌==◌, ℕ, ◌+◌, ◌%◌, ◌^◌, ◌≤◌, ◌<◌, ◌≡◌, ap, ◌∙◌, inl, inr, List, ◌∷◌, arith,
}
use density.Allocator.{Allocator, IsAllocator, IsApart}
use density.Effects.{M, ◌>>=◌, Result, ok, throw, bind-ok, bind-throw}
use density.Lifo.Layout.{LifoLayout, IsLifoLayout}
use density.Lifo.Operations.{Lifo, copy, set_top_and_allocate, allocate, reallocate}
use density.Lifo.Stack.{Block, IsStackWith, IsStack}
use density.Lifo.Allocation.{Allocated, given, refused, set_top-Allocated, allocate-Allocated}
use density.Lifo.Deallocation.{at_top, in_page_below, external, last_of, free_page, free_block}

module _ {A V : Type 0} ⦃l : LifoLayout⦄ ⦃al : Allocator A⦄ where
  -- Behind which address there is place once the last block, `b`, is given up.
  abbrev pub freed_top : (b : ℕ) → Lifo A V → ℕ
  freed_top b s = if same_page l.page_alignment b s.m_top || page_below b s then b else s.m_top

module _ {A V : Type 0} ⦃l : LifoLayout⦄ ⦃al : Allocator A⦄ (laws : IsAllocator al l.page_alignment)
    (apart : IsApart laws) (lay : IsLifoLayout l) where
  -- The block `b` of `n` bytes has become a block of `m` bytes.
  pub data Reallocated (s : Lifo A V) (blocks : List Block) (b n m : ℕ) (r : Result (Lifo A V) ℕ)
      : Type 0 where
    moved :
        (b' : ℕ) (t : Lifo A V)
        → r ≡ ok b' t
        → IsStack laws t ((b', m) ∷ blocks)
        → ((i : ℕ) → i < n → i < m → t.bytes (b' + i) ≡ s.bytes (b + i))
        → Reallocated s blocks b n m r
    kept : Refused laws apart lay s (freed_top b s) m → r ≡ throw s → Reallocated s blocks b n m r

  copy_bytes :
      (b n b' m : ℕ) (t : Lifo A V) (i : ℕ)
      → i < n
      → i < m
      → (copy b n b' m t).bytes (b' + i) ≡ t.bytes (b + i)
  unfolding copy
  copy_bytes b n b' m t i lt lt' = ground arith

  copy-IsStack :
      {lp lb : List ℕ} (b n b' m : ℕ) (t : Lifo A V) {blocks : List Block}
      → IsStackWith laws lp lb t blocks
      → IsStackWith laws lp lb (copy b n b' m t) blocks
  unfolding copy
  copy-IsStack b n b' m t i = elim (Bool-cases (b == b')) [
    | inl same ↦ rw same i
    | inr other ↦ rw other (record {
      pages = i.pages;
      externals = i.externals;
      stack = i.stack;
      words = i.words;
      owned_pages = i.owned_pages;
      pages_distinct = i.pages_distinct;
      owned_blocks = i.owned_blocks;
      blocks_distinct = i.blocks_distinct;
    })
  ]

  -- An allocation, and what is done then: the copy, and the return of what only the old block needed.
  finish :
      {lp lb : List ℕ} (s : Lifo A V) (top b n m : ℕ) {blocks : List Block} (run : M (Lifo A V) ℕ)
      (release : A → A)
      → ((t : Lifo A V) (bs : List Block)
          → IsStackWith laws lp lb t bs
          → IsStack laws (record t { allocator = release t.allocator }) bs)
      → top ≡ (freed_top b s)
      → Allocated laws apart lay lp lb s top blocks m (run s)
      → Reallocated s blocks b n m (
          (run >>= λ b' t.
          let u = copy b n b' m t in ok b' (record u { allocator = release u.allocator }))
            s)
  finish s top b n m run release frees at (given b' t e i bytes) =
      moved b' _ (bind-ok run _ s t b' e) (frees (copy b n b' m t) _ (copy-IsStack b n b' m t i))
        (λ x lt lt'. copy_bytes b n b' m t x lt lt' ∙ ap (λ f. f (b + x)) bytes)
  finish s top b n m run release frees at (refused why e) =
      kept (subst (λ c. Refused laws apart lay s c m) at why) (bind-throw run _ s s e)

  -- `reallocate` of the last living block, to a size that is a multiple of the alignment and at most
  -- 2 ^ 62: either the last living block has the new size then, the bytes up to the smaller size are
  -- those of the old block, and the others live as before; or there is an exception, nothing has changed,
  -- the new size does not fit in the page of the old block (of the top, where the old block is external),
  -- and the allocator below, in the state before, refuses a page (for a size below half a page) or a
  -- block of the size.
  pub reallocate-Reallocated :
      (s : Lifo A V) (b n m : ℕ) {blocks : List Block}
      → IsStack laws s ((b, n) ∷ blocks)
      → m % l.alignment ≡ 0
      → m ≤ 2 ^ 62
      → Reallocated s blocks b n m (reallocate b n m s)
  unfolding reallocate
  reallocate-Reallocated s b n m i mult small = elim (last_of laws lay s b n i) [
    | at_top test j ↦ rw test (
        finish s b b n m (set_top_and_allocate b m) (λ a. a) (λ t bs k. k) (rw test refl)
          (set_top-Allocated laws apart lay s b m j mult small))
    | in_page_below p test test' of j ↦
        rw (test, test')
          (finish s b b n m (set_top_and_allocate b m) (al.deallocate_page s.m_top)
            (λ t bs k. free_page laws lay t s.m_top p of k) (rw (test, test') refl)
            (set_top-Allocated laws apart lay s b m j mult small))
    | external test test' j ↦
        rw (test, test')
          (finish s s.m_top b n m (allocate m) (al.deallocate b n l.alignment)
            (λ t bs k. free_block laws lay t b n l.alignment k) (rw (test, test') refl)
            (allocate-Allocated laws apart lay s m j mult small))
  ]
