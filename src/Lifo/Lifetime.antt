-- ===== src/Lifo/Lifetime.antt =====
-- lifo.h: the constructor, empty blocks and the destructor of a lifo_allocator.
use native.Mathlib.Nat.{zero-mod}
use density.Base.{
  ℕ, ◌%◌, ◌<◌, ◌≡◌, refl, ap, ◌∙◌, inl, List, [], ◌∷◌, has, arith, true, false, ◌==◌,
}
use density.Align.{word_mod}
use density.Align.Pages.{page_of}
use density.Allocator.{Allocator, IsAllocator}
use density.Lifo.Layout.{LifoLayout, IsLifoLayout, header_size, s_virgin_top, virgin_top_bounds}
use density.Lifo.Operations.{Lifo, init, allocate_empty, destroy}
use density.Lifo.Stack.{Block, Stack, virgin, page, inner, in_page, IsStack}

module _ {A V : Type 0} ⦃l : LifoLayout⦄ ⦃al : Allocator A⦄ (laws : IsAllocator al l.page_alignment)
    (lay : IsLifoLayout l) where
  -- The constructor, with an allocator that has given out nothing, on memory of 64-bit words, makes a
  -- stack without living blocks.
  pub init-IsStack :
      (memory : Lifo A V)
      → ((a : ℕ) → memory.prev_pages a < word_mod)
      → ((a : ℕ) → laws.owns_page memory.allocator a ≡ false)
      → ((a : ℕ) → laws.owns_block memory.allocator a ≡ false)
      → IsStack laws (init memory) []
  unfolding init
  init-IsStack memory words no_page no_block = record {
    pages = [];
    externals = [];
    stack = virgin refl;
    words = words;
    owned_pages = no_page;
    pages_distinct = tt;
    owned_blocks = no_block;
    blocks_distinct = tt;
  }

  -- `allocate_empty` gives a living block of no bytes, and changes nothing.
  pub allocate_empty-push :
      (s : Lifo A V) (blocks : List Block)
      → IsStack laws s blocks
      → IsStack laws s ((allocate_empty s, 0) ∷ blocks)
  unfolding allocate_empty
  allocate_empty-push s blocks i = record {
    pages = i.pages;
    externals = i.externals;
    stack = inner (omega arith) (zero-mod l.alignment) (inl refl) i.stack;
    words = i.words;
    owned_pages = i.owned_pages;
    pages_distinct = i.pages_distinct;
    owned_blocks = i.owned_blocks;
    blocks_distinct = i.blocks_distinct;
  }

  -- The destructor of a lifo_allocator without living blocks leaves no page and no block behind.
  pub destroy-releases :
      (s : Lifo A V)
      → IsStack laws s []
      → (a : ℕ)
      → (laws.owns_page (destroy s).allocator a ≡ false)
        × (laws.owns_block (destroy s).allocator a ≡ false)
  unfolding destroy
  destroy-releases s i a = release i.stack i.owned_pages i.owned_blocks
    where
      release :
          {pages externals : List ℕ}
          → Stack s.prev_pages s.m_top [] pages externals
          → ((x : ℕ) → laws.owns_page s.allocator x ≡ has x pages)
          → ((x : ℕ) → laws.owns_block s.allocator x ≡ has x externals)
          → (laws.owns_page (destroy s).allocator a ≡ false)
            × (laws.owns_block (destroy s).allocator a ≡ false)
      release (virgin e) owned owned' =
          let test : (s.m_top == s_virgin_top) ≡ true = ground arith in rw test (owned a, owned' a)
      release (page {p} e start pos bound new apart leads deep (virgin e')) owned owned' =
          let (of, off) =
            in_page lay p header_size start (omega (arith, lay.room, lay.page_size_le)) in
          let test : (s.m_top == s_virgin_top) ≡ false =
            ground (arith, virgin_top_bounds lay, lay.room) in
          let at : page_of l.page_alignment s.m_top ≡ p = ap (page_of l.page_alignment) e ∙ of in
          rw test (
            ground (arith, laws.page_returned s.allocator s.m_top a, owned a),
            laws.page_returned_blocks s.allocator s.m_top a ∙ owned' a,
          )
      release
            (page e start pos bound new apart leads deep
              (page {p} e' start' pos' bound' new' apart' leads' deep' st))
            owned owned' =
          let (of, off) =
            in_page lay p header_size start' (omega (arith, lay.room, lay.page_size_le)) in
          absurd (omega (arith, deep, off, ap (λ x. x % l.page_alignment) e'))
