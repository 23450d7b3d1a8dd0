-- ===== src/HeterQueue/Request.antt =====
-- heter_queue.h: `inplace_allocate` on requests of any size, those outside the pages included.
use density.HeterQueue.Extend.{attached_blocks}
use density.Distinct.{AllDistinct-snoc}
use density.HeterQueue.Layout.{
  queue_external, Layout, IsLayout, min_alignment, raise_request, pointer_size,
  sizeof_external_block, s_max_size_inpage,
}
use density.Base.{
  bit_or, suc, ℕ, ◌+◌, ◌-◌, ◌%◌, ◌≤◌, ◌<◌, ◌≡◌, refl, sym, ◌∙◌, true, List, [], ◌∷◌, ◌++◌, arith,
  has-append, some,
}
use density.Align.{word_mod}
use density.Align.Rounding.{upper_align_bounds}
use density.Allocator.{Allocator, IsAllocator}
use density.HeterQueue.State.{Queue, ExternalBlock}
use density.Effects.{update}
use density.HeterQueue.Put.{Allocation, inplace_allocate}
use density.HeterQueue.Words.{eight-IsAlignment, set_external-eq}
use density.HeterQueue.Sizes.{
  min_alignment-IsAlignment, min_alignment-le, min_alignment-ge, max_size-eq,
}
use density.HeterQueue.Chain.{Chain-update}
use density.HeterQueue.Invariant.{external_blocks, IsValidWith, IsValid, virgin, opened}
use density.HeterQueue.Live.{live-absent}
use density.HeterQueue.Placement.{IsRequest, raise-IsRequest}
use density.HeterQueue.Producer.{IsPut, IsInPage}
use density.HeterQueue.Loop.{NoPage, Outcome, loop-Outcome}

module _ ⦃l : Layout⦄ (lay : IsLayout l) where
  -- The `ExternalBlock` itself fits in every page.
  block-IsRequest :
      IsRequest
        (raise_request sizeof_external_block pointer_size).0
        (raise_request sizeof_external_block pointer_size).1
  block-IsRequest =
      raise-IsRequest lay sizeof_external_block pointer_size eight-IsAlignment refl (omega arith)

  block_small :
      (raise_request sizeof_external_block pointer_size).0
        + ((raise_request sizeof_external_block pointer_size).1 - min_alignment)
      ≤ s_max_size_inpage
  unfolding raise_request
  block_small =
      let (mult, ge, lt) =
        upper_align_bounds sizeof_external_block min_alignment (min_alignment-IsAlignment lay)
          (omega (arith, min_alignment-le lay)) in
      ground (arith, lay.room, max_size-eq lay, min_alignment-ge lay)

module _ {A T V : Type 0} where
  -- The state after the control block `p` leads to the external block.
  abbrev pub attached : Queue A T V → (p : ℕ) → ExternalBlock → Queue A T V
  attached t p block = record t {
    externals = update t.externals p block;
    m_next = update t.m_next p (bit_or (t.m_next p) queue_external);
  }

module _ {A T V : Type 0} ⦃l : Layout⦄ ⦃al : Allocator A⦄ (laws : IsAllocator al l.page_alignment)
    (lay : IsLayout l) where
  -- Where the block of an external element is put.
  abbrev pub BlockInPage : ℕ → Allocation → Queue A T V → Type 0
  BlockInPage bits =
      IsInPage laws lay bits true (raise_request sizeof_external_block pointer_size).0
        (raise_request sizeof_external_block pointer_size).1

  -- There is no page for the `ExternalBlock`.
  abbrev pub NoBlockPage : Queue A T V → Queue A T V → Type 0
  NoBlockPage =
      NoPage laws lay true (raise_request sizeof_external_block pointer_size).0
        (raise_request sizeof_external_block pointer_size).1

  pub block-Outcome :
      {lent : List ℕ} (s : Queue A T V) {xs : List ℕ} (depth bits : ℕ)
      → IsValidWith laws lent s xs
      → bits < 4
      → Outcome laws lay lent s xs bits
          (BlockInPage bits)
          (NoBlockPage s)
          (inplace_allocate (suc depth) bits true sizeof_external_block pointer_size s)
  unfolding inplace_allocate
  block-Outcome s depth bits v small =
      loop-Outcome laws lay s _ bits true (BlockInPage bits) (λ put t i. i) (NoBlockPage s)
        (λ t c. c) v (block-IsRequest lay) small
        (λ misfit large h. absurd (omega (arith, block_small lay)))

  -- A block that the allocator hands out is lent until a control block leads to it.
  pub lend :
      (s : Queue A T V) {xs : List ℕ} (n m b : ℕ) (a : A)
      → IsValid laws s xs
      → al.allocate n m s.allocator ≡ some (b, a)
      → IsValidWith laws (b ∷ []) (record s { allocator = a }) xs
  lend s n m b a (virgin v) e = virgin (record {
    head_invalid = v.head_invalid;
    tail_invalid = v.tail_invalid;
    no_pages = λ c. laws.block_pages s.allocator a n m b c e ∙ v.no_pages c;
    lent_blocks = λ c. ground (arith, laws.block_owned s.allocator a n m b c e, v.lent_blocks c);
    lent_distinct = (refl, tt);
  })
  lend s {xs} n m b a (opened o) e = opened (record {
    chain = o.chain;
    owned = record {
      pages = λ c. laws.block_pages s.allocator a n m b c e ∙ o.owned.pages c;
      pages_distinct = o.owned.pages_distinct;
      blocks = λ c. ground (arith, laws.block_owned s.allocator a n m b c e, o.owned.blocks c);
      blocks_distinct = (
        sym (o.owned.blocks b) ∙ laws.block_fresh s.allocator a n m b e,
        o.owned.blocks_distinct,
      );
    };
    bounds = o.bounds;
    below = o.below;
    tail_bound = o.tail_bound;
    tail_aligned = o.tail_aligned;
    tail_room = o.tail_room;
  })

  pub give_back :
      (s : Queue A T V) {xs : List ℕ} (n m b : ℕ) (a : A)
      → IsValidWith laws (b ∷ []) (record s { allocator = a }) xs
      → IsValid laws (record s { allocator = al.deallocate b n m a }) xs
  give_back s n m b a (virgin v) = virgin (record {
    head_invalid = v.head_invalid;
    tail_invalid = v.tail_invalid;
    no_pages = λ c. laws.block_returned_pages a b n m c ∙ v.no_pages c;
    lent_blocks = λ c. ground (arith, laws.block_returned a b n m c, v.lent_blocks c);
    lent_distinct = tt;
  })
  give_back s {xs} n m b a (opened o) = opened (record {
    chain = o.chain;
    owned = record {
      pages = λ c. laws.block_returned_pages a b n m c ∙ o.owned.pages c;
      pages_distinct = o.owned.pages_distinct;
      blocks = λ c.
          ground (arith, laws.block_returned a b n m c, o.owned.blocks c, o.owned.blocks_distinct);
      blocks_distinct = o.owned.blocks_distinct.1;
    };
    bounds = o.bounds;
    below = o.below;
    tail_bound = o.tail_bound;
    tail_aligned = o.tail_aligned;
    tail_room = o.tail_room;
  })

  pub attach :
      {s : Queue A T V} {xs : List ℕ} (bits p b n m : ℕ) (a : A) (t : Queue A T V) (ys : List ℕ)
      → IsPut laws lay (b ∷ []) (record s { allocator = a }) xs bits p t ys
      → t.m_next p % 8 < 4
      → t.m_next p + 4 < word_mod
      → IsPut laws lay [] s xs bits p
          (attached t p (record { m_element = b; m_size = n; m_alignment = m }))
          ys
  attach {s} {xs} bits p b n m a t ys put flag small =
      let block : ExternalBlock = record { m_element = b; m_size = n; m_alignment = m } in
      let o = put.opens in
      let grow = attached_blocks t.m_next t.externals p block ys put.new flag in
      let old = external_blocks t.m_next t.externals (ys ++ p ∷ []) in
      rw (set_external-eq (t.m_next p) flag) (record {
        opens = record {
          chain = Chain-update p (t.m_next p + 4) o.chain small (omega arith);
          owned = record {
            pages = o.owned.pages;
            pages_distinct = o.owned.pages_distinct;
            blocks = rw grow (λ c. ground (arith, o.owned.blocks c, has-append c old (b ∷ [])));
            blocks_distinct =
                rw grow
                  (AllDistinct-snoc old b o.owned.blocks_distinct.1 o.owned.blocks_distinct.0);
          };
          bounds = o.bounds;
          below = o.below;
          tail_bound = o.tail_bound;
          tail_aligned = o.tail_aligned;
          tail_room = o.tail_room;
        };
        new = put.new;
        flags = ground (arith, put.flags);
        others = live-absent t.m_next p (t.m_next p + 4) ys put.new ∙ put.others;
        same_types = put.same_types;
        same_elements = put.same_elements;
        same_events = put.same_events;
      })
