-- ===== src/Lifo/Deallocation.antt =====
-- lifo.h: a deallocation pops the last living block, and the memory that it alone needed.
use density.Distinct.{AllDistinct}
use native.Mathlib.Nat.{div-add-mod'}
use density.Base.{
  ℕ, ◌+◌, ◌-◌, ◌%◌, ◌^◌, ◌≤◌, ◌<◌, ◌≡◌, ◌≢◌, refl, ◌∙◌, subst, inl, inr, List, [], ◌∷◌, has, arith,
  true, false, ◌==◌, Bool-cases,
}
use density.Align.{word_mod, sub_word, same_page}
use density.Align.Rounding.{low_mask-eq}
use density.Align.Pages.{page_of, same_page-eq}
use density.Allocator.{Allocator, IsAllocator}
use density.Lifo.Layout.{LifoLayout, IsLifoLayout, header_size}
use density.Lifo.Operations.{Lifo, page_below, deallocate}
use density.Lifo.Stack.{Block, Stack-TopOf, TopOf-lt, IsStackWith, IsStack}
use density.Lifo.Last.{LastBlock, in_place, below, outside, last}

mod-le : (m x : ℕ) → x % m ≤ x
mod-le m x = omega (arith, div-add-mod' x m)

module _ {A V : Type 0} ⦃l : LifoLayout⦄ ⦃al : Allocator A⦄ (laws : IsAllocator al l.page_alignment)
    (lay : IsLifoLayout l) where
  -- The tests of the code, as the pages of the addresses.
  pub same_page-top :
      (s : Lifo A V) (b : ℕ)
      → b < word_mod
      → s.m_top < 2 ^ 63
      → same_page l.page_alignment b s.m_top
        ≡ (page_of l.page_alignment s.m_top == page_of l.page_alignment b)
  same_page-top s b small top = same_page-eq lay.page b s.m_top small (omega arith)

  pub page_below-true :
      (s : Lifo A V) (b p : ℕ)
      → b < word_mod
      → s.prev_pages p < word_mod
      → s.m_top ≡ p + header_size
      → s.m_top < 2 ^ 63
      → s.m_top % l.page_alignment ≡ header_size
      → page_of l.page_alignment (s.prev_pages p) ≡ page_of l.page_alignment b
      → page_below b s ≡ true
  page_below-true s b p small small' e top at same =
      let low = low_mask-eq lay.page s.m_top in
      let back : sub_word s.m_top header_size ≡ p = omega (arith, lay.room, lay.page_size_le) in
      let eq = same_page-eq lay.page (s.prev_pages p) b small' small in
      rw (low, back, eq) (ground arith)

  pub page_below-false :
      (s : Lifo A V) (b : ℕ)
      → b < word_mod
      → s.prev_pages (s.m_top - header_size) < word_mod
      → s.m_top < 2 ^ 63
      → (s.m_top % l.page_alignment ≡ header_size
          → page_of l.page_alignment (s.prev_pages (s.m_top - header_size))
            ≢ page_of l.page_alignment b)
      → page_below b s ≡ false
  page_below-false s b small small' top apart =
      let low = low_mask-eq lay.page s.m_top in
      rw low (elim (Bool-cases (s.m_top % l.page_alignment == header_size)) [
        | inr elsewhere ↦ rw elsewhere
        | inl at ↦
            let off : s.m_top % l.page_alignment ≡ header_size = ground arith in
            let back : sub_word s.m_top header_size ≡ s.m_top - header_size =
              omega (arith, mod-le l.page_alignment s.m_top) in
            let eq = same_page-eq lay.page (s.prev_pages (s.m_top - header_size)) b small' small in
            rw (at, back, eq) (ground (arith, apart off))
      ])

  -- Where the last living block is, by the tests of the code, and what remains without it.
  pub data LastOf (s : Lifo A V) (b : ℕ) (blocks : List Block) : Type 0 where
    at_top :
        same_page l.page_alignment b s.m_top ≡ true
        → IsStack laws (record s { m_top = b }) blocks
        → LastOf s b blocks
    in_page_below :
        (p : ℕ)
        → same_page l.page_alignment b s.m_top ≡ false
        → page_below b s ≡ true
        → page_of l.page_alignment s.m_top ≡ p
        → IsStackWith laws (p ∷ []) [] (record s { m_top = b }) blocks
        → LastOf s b blocks
    external :
        same_page l.page_alignment b s.m_top ≡ false
        → page_below b s ≡ false
        → IsStackWith laws [] (b ∷ []) s blocks
        → LastOf s b blocks

  pub last_of :
      (s : Lifo A V) (b n : ℕ) {blocks : List Block}
      → IsStack laws s ((b, n) ∷ blocks)
      → LastOf s b blocks
  last_of s b n i = tell (last lay i.stack)
    where
      top : s.m_top < 2 ^ 63
      top = TopOf-lt lay (Stack-TopOf lay i.stack)

      tell :
          {blocks : List Block}
          → LastBlock lay s.prev_pages s.m_top b n blocks i.pages i.externals
          → LastOf s b blocks
      tell (in_place same st) =
          let small = TopOf-lt lay (Stack-TopOf lay st) in
          at_top (same_page-top s b (omega arith) top ∙ ground arith) (record {
            pages = i.pages;
            externals = i.externals;
            stack = st;
            words = i.words;
            owned_pages = i.owned_pages;
            pages_distinct = i.pages_distinct;
            owned_blocks = i.owned_blocks;
            blocks_distinct = i.blocks_distinct;
          })
      tell (below {p} {rest} shape e of off ne back st) =
          let small = TopOf-lt lay (Stack-TopOf lay st) in
          in_page_below p (same_page-top s b (omega arith) top ∙ ground arith)
            (page_below-true s b p (omega arith) (i.words p) e top off back) of
            (record {
              pages = rest;
              externals = i.externals;
              stack = st;
              words = i.words;
              owned_pages =
                  subst (λ ps. (a : ℕ) → laws.owns_page s.allocator a ≡ has a ps) shape
                    i.owned_pages;
              pages_distinct = subst AllDistinct shape i.pages_distinct;
              owned_blocks = i.owned_blocks;
              blocks_distinct = i.blocks_distinct;
            })
      tell (outside {rest} shape small ne apart st) =
          external (same_page-top s b small top ∙ ground (arith, ne))
            (page_below-false s b small (i.words (s.m_top - header_size)) top apart)
            (record {
              pages = i.pages;
              externals = rest;
              stack = st;
              words = i.words;
              owned_pages = i.owned_pages;
              pages_distinct = i.pages_distinct;
              owned_blocks =
                  subst (λ bs. (a : ℕ) → laws.owns_block s.allocator a ≡ has a bs) shape
                    i.owned_blocks;
              blocks_distinct = subst AllDistinct shape i.blocks_distinct;
            })

  -- A page or a block that is given back.
  pub free_page :
      (t : Lifo A V) (q p : ℕ) {blocks : List Block}
      → page_of l.page_alignment q ≡ p
      → IsStackWith laws (p ∷ []) [] t blocks
      → IsStack laws (record t { allocator = al.deallocate_page q t.allocator }) blocks
  free_page t q p of i = record {
    pages = i.pages;
    externals = i.externals;
    stack = i.stack;
    words = i.words;
    owned_pages =
        λ x. ground (arith, laws.page_returned t.allocator q x, i.owned_pages x, i.pages_distinct);
    pages_distinct = i.pages_distinct.1;
    owned_blocks = λ x. laws.page_returned_blocks t.allocator q x ∙ i.owned_blocks x;
    blocks_distinct = i.blocks_distinct;
  }

  pub free_block :
      (t : Lifo A V) (b n m : ℕ) {blocks : List Block}
      → IsStackWith laws [] (b ∷ []) t blocks
      → IsStack laws (record t { allocator = al.deallocate b n m t.allocator }) blocks
  free_block t b n m i = record {
    pages = i.pages;
    externals = i.externals;
    stack = i.stack;
    words = i.words;
    owned_pages = λ x. laws.block_returned_pages t.allocator b n m x ∙ i.owned_pages x;
    pages_distinct = i.pages_distinct;
    owned_blocks = λ x.
        ground
          (arith, laws.block_returned t.allocator b n m x, i.owned_blocks x, i.blocks_distinct);
    blocks_distinct = i.blocks_distinct.1;
  }

  -- `deallocate` of the last living block leaves the others, and gives back what it alone needed: its
  -- memory if it is external, and the page behind its own if that one is empty. The bytes are as before.
  pub deallocate-pop :
      (s : Lifo A V) (b n : ℕ) {blocks : List Block}
      → IsStack laws s ((b, n) ∷ blocks)
      → IsStack laws (deallocate b n s) blocks × ((deallocate b n s).bytes ≡ s.bytes)
  unfolding deallocate
  deallocate-pop s b n i = elim (last_of s b n i) [
    | at_top test j ↦ rw test (j, refl)
    | in_page_below p test test' of j ↦
        rw (test, test') (free_page (record s { m_top = b }) s.m_top p of j, refl)
    | external test test' j ↦ rw (test, test') (free_block s b n l.alignment j, refl)
  ]
