-- ===== src/Lifo/Allocation.antt =====
-- lifo.h: an allocation pushes a block on the stack of living blocks.
use density.Base.{none}
use density.Base.{
  if◌then◌else◌, Bool, ℕ, ◌+◌, ◌/◌, ◌%◌, ◌^◌, ◌≤◌, ◌<◌, ◌≡◌, refl, sym, ◌∙◌, subst, inl, inr, List,
  ◌∷◌, ◌++◌, ◌∉◌, arith, true, false, ltb, some, Bool-cases, Option-cases,
}
use density.Lifo.Stack.{
  in_page, Block, page, inner, outer, TopOf, Stack-TopOf, Stack-frame, TopOf-lt, IsStackWith,
}
use native.Mathlib.Nat.{div-add-mod'}
use density.Distinct.{has-insert, AllDistinct-insert, absent-right, present-right}
use density.Align.{add_word, sub_word, uint_lower_align}
use density.Align.Rounding.{lower_align-eq}
use density.Align.Pages.{page_of}
use density.Allocator.{Allocator, IsAllocator, IsApart}
use density.Effects.{update, Result, ok, throw}
use density.Lifo.Layout.{LifoLayout, IsLifoLayout, header_size}
use density.Lifo.Operations.{Lifo, push_page, take_external, allocate, set_top_and_allocate}

module _ {A V : Type 0} ⦃l : LifoLayout⦄ ⦃al : Allocator A⦄ where
  -- `allocate` is `set_top_and_allocate` with the top as it is.
  pub allocate-eq : (n : ℕ) (s : Lifo A V) → allocate n s ≡ set_top_and_allocate s.m_top n s
  unfolding allocate set_top_and_allocate
  allocate-eq n s = ground arith

module _ ⦃l : LifoLayout⦄ (lay : IsLifoLayout l) where
  offset_lem :
      (top n : ℕ) {pages : List ℕ}
      → TopOf top pages
      → n ≤ 2 ^ 62
      → (add_word top n ≡ top + n)
        × (sub_word (add_word top n) (uint_lower_align top l.page_alignment)
            ≡ top % l.page_alignment + n)
  offset_lem top n at small =
      let lt = TopOf-lt lay at in
      let low = lower_align-eq lay.page top (omega arith) in
      (omega arith, rw low (omega (arith, div-add-mod' top l.page_alignment)))

module _ {A V : Type 0} ⦃l : LifoLayout⦄ ⦃al : Allocator A⦄ (laws : IsAllocator al l.page_alignment)
    (apart : IsApart laws) (lay : IsLifoLayout l) where
  -- Why a request of `n` bytes behind `top` finds no memory: it does not fit in the page of `top`, and the
  -- allocator below refuses a page to a small request, or a block of its size to a large one.
  pub data Refused (s : Lifo A V) (top n : ℕ) : Type 0 where
    no_page :
        ltb (top % l.page_alignment + n) l.page_size ≡ false
        → ltb n (l.page_size / 2) ≡ true
        → al.allocate_page s.allocator ≡ none
        → Refused s top n
    no_block :
        ltb (top % l.page_alignment + n) l.page_size ≡ false
        → ltb n (l.page_size / 2) ≡ false
        → al.allocate n l.alignment s.allocator ≡ none
        → Refused s top n

  -- A block on top of the others, behind `top`, or an exception that changes nothing.
  pub data Allocated (lent_pages lent_blocks : List ℕ) (s : Lifo A V) (top : ℕ)
      (blocks : List Block) (n : ℕ) (r : Result (Lifo A V) ℕ) : Type 0 where
    given :
        (b : ℕ) (t : Lifo A V)
        → r ≡ ok b t
        → IsStackWith laws lent_pages lent_blocks t ((b, n) ∷ blocks)
        → t.bytes ≡ s.bytes
        → Allocated lent_pages lent_blocks s top blocks n r
    refused : Refused s top n → r ≡ throw s → Allocated lent_pages lent_blocks s top blocks n r

  -- A block behind the last one, in its page.
  push_inner :
      {lp lb : List ℕ} (s : Lifo A V) (c n : ℕ) {blocks : List Block}
      → IsStackWith laws lp lb (record s { m_top = c }) blocks
      → n % l.alignment ≡ 0
      → c % l.page_alignment + n < l.page_size
      → IsStackWith laws lp lb (record s { m_top = c + n }) ((c, n) ∷ blocks)
  push_inner s c n i mult fits = record {
    pages = i.pages;
    externals = i.externals;
    stack = inner refl mult (inr fits) i.stack;
    words = i.words;
    owned_pages = i.owned_pages;
    pages_distinct = i.pages_distinct;
    owned_blocks = i.owned_blocks;
    blocks_distinct = i.blocks_distinct;
  }

  -- A block that the allocator below gives.
  push_outer :
      {lp lb : List ℕ} (s : Lifo A V) (c n b : ℕ) (a : A) {blocks : List Block}
      → IsStackWith laws lp lb (record s { m_top = c }) blocks
      → n % l.alignment ≡ 0
      → al.allocate n l.alignment s.allocator ≡ some (b, a)
      → IsStackWith laws lp lb (record s { m_top = c; allocator = a }) ((b, n) ∷ blocks)
  push_outer {lp} {lb} s c n b a i mult e =
      let (free, pos, small, al') = apart.block_page s.allocator a n l.alignment b e in
      record {
        pages = i.pages;
        externals = b ∷ i.externals;
        stack =
            outer mult al' small pos
              (absent-right (page_of l.page_alignment b) lp i.pages
                (sym (i.owned_pages (page_of l.page_alignment b)) ∙ free))
              i.stack;
        words = i.words;
        owned_pages = λ x. laws.block_pages s.allocator a n l.alignment b x e ∙ i.owned_pages x;
        pages_distinct = i.pages_distinct;
        owned_blocks = λ x. ground (
          arith,
          has-insert x b lb i.externals,
          laws.block_owned s.allocator a n l.alignment b x e,
          i.owned_blocks x,
        );
        blocks_distinct =
            AllDistinct-insert b lb i.externals i.blocks_distinct
              (sym (i.owned_blocks b) ∙ laws.block_fresh s.allocator a n l.alignment b e);
      }

  -- A page on top of the pages, and a block at its start.
  push_new :
      {lp lb : List ℕ} (s : Lifo A V) (c n p : ℕ) (a : A) {blocks : List Block}
      → IsStackWith laws lp lb (record s { m_top = c }) blocks
      → n % l.alignment ≡ 0
      → n < l.page_size / 2
      → header_size < c % l.page_alignment
      → al.allocate_page s.allocator ≡ some (p, a)
      → IsStackWith laws lp lb
          (record s {
            prev_pages = update s.prev_pages p c;
            m_top = p + header_size + n;
            allocator = a;
          })
          ((p + header_size, n) ∷ blocks)
  push_new {lp} {lb} s c n p a i mult half deep e =
      let (start, pos, bound) = laws.page_bounds s.allocator a p e in
      let free : p ∉ (lp ++ i.pages) = sym (i.owned_pages p) ∙ laws.page_fresh s.allocator a p e in
      let new = absent-right p lp i.pages free in
      record {
        pages = p ∷ i.pages;
        externals = i.externals;
        stack =
            inner refl mult
              (inr (
                omega (
                  arith,
                  (in_page lay p header_size start (omega (arith, lay.room, lay.page_size_le))).1,
                  lay.room,
                )))
              (page refl start pos bound new
                (λ b j.
                  apart.page_block s.allocator a p b e
                    (i.owned_blocks b ∙ present-right b lb i.externals j))
                (ground arith) deep
                (Stack-frame (update s.prev_pages p c) i.stack (λ q j. ground arith)));
        words = λ x. ground (arith, i.words x, TopOf-lt lay (Stack-TopOf lay i.stack));
        owned_pages = λ x. ground (
          arith,
          has-insert x p lp i.pages,
          laws.page_owned s.allocator a p x e,
          i.owned_pages x,
        );
        pages_distinct = AllDistinct-insert p lp i.pages i.pages_distinct free;
        owned_blocks = λ x. laws.page_blocks s.allocator a p x e ∙ i.owned_blocks x;
        blocks_distinct = i.blocks_distinct;
      }

  set_top_inner :
      (s : Lifo A V) (c n : ℕ) {pages : List ℕ}
      → TopOf c pages
      → n ≤ 2 ^ 62
      → c % l.page_alignment + n < l.page_size
      → set_top_and_allocate c n s ≡ ok c (record s { m_top = c + n })
  unfolding set_top_and_allocate
  set_top_inner s c n at small fits =
      let (sum, offset) = offset_lem lay c n at small in
      let test : ltb (c % l.page_alignment + n) l.page_size ≡ true = ground arith in
      rw (offset, test, sum)

  set_top_misfit :
      (s : Lifo A V) (c n : ℕ) {pages : List ℕ}
      → TopOf c pages
      → n ≤ 2 ^ 62
      → ltb (c % l.page_alignment + n) l.page_size ≡ false
      → (half : Bool) → ltb n (l.page_size / 2) ≡ half
      → set_top_and_allocate c n s ≡ (if half then push_page c n s else take_external c n s)
  unfolding set_top_and_allocate
  set_top_misfit s c n at small misfit half e =
      let (sum, offset) = offset_lem lay c n at small in rw (offset, misfit, e)

  -- `set_top_and_allocate` on the top that it is given.
  pub set_top-Allocated :
      {lp lb : List ℕ} (s : Lifo A V) (c n : ℕ) {blocks : List Block}
      → IsStackWith laws lp lb (record s { m_top = c }) blocks
      → n % l.alignment ≡ 0
      → n ≤ 2 ^ 62
      → Allocated lp lb s c blocks n (set_top_and_allocate c n s)
  set_top-Allocated {lp} {lb} s c n {blocks} i mult small =
      elim (Bool-cases (ltb (c % l.page_alignment + n) l.page_size)) [
        | inl fits ↦
            given c _ (set_top_inner s c n at small (ground arith))
              (push_inner s c n i mult (ground arith)) refl
        | inr misfit ↦ elim (Bool-cases (ltb n (l.page_size / 2))) [
          | inl half ↦
              subst (Allocated lp lb s c blocks n)
                (sym (set_top_misfit s c n at small misfit true half)) (on_page misfit half)
          | inr large ↦
              subst (Allocated lp lb s c blocks n)
                (sym (set_top_misfit s c n at small misfit false large)) (outside misfit large)
        ]
      ]
    where
      at : TopOf c i.pages
      at = Stack-TopOf lay i.stack

      on_page :
          ltb (c % l.page_alignment + n) l.page_size ≡ false
          → ltb n (l.page_size / 2) ≡ true
          → Allocated lp lb s c blocks n (push_page c n s)
      on_page misfit half = elim (Option-cases (al.allocate_page s.allocator)) [
        | inl e ↦ refused (no_page misfit half e) (rw (push_page, e))
        | inr ((p, a), e) ↦
            let (start, pos, bound) = laws.page_bounds s.allocator a p e in
            let h : add_word p header_size ≡ p + header_size =
              omega (arith, lay.room, lay.page_size_le) in
            let k : add_word (p + header_size) n ≡ p + header_size + n =
              omega (arith, lay.room, lay.page_size_le, lay.page_half) in
            given (p + header_size) _ (rw (push_page, e, h, k))
              (push_new s c n p a i mult (ground arith) (deep misfit half) e) refl
      ]
        where
          deep :
              ltb (c % l.page_alignment + n) l.page_size ≡ false
              → ltb n (l.page_size / 2) ≡ true
              → header_size < c % l.page_alignment
          deep misfit half = ground (arith, lay.room)

      outside :
          ltb (c % l.page_alignment + n) l.page_size ≡ false
          → ltb n (l.page_size / 2) ≡ false
          → Allocated lp lb s c blocks n (take_external c n s)
      outside misfit large = elim (Option-cases (al.allocate n l.alignment s.allocator)) [
        | inl e ↦ refused (no_block misfit large e) (rw (take_external, e))
        | inr ((b, a), e) ↦ given b _ (rw (take_external, e)) (push_outer s c n b a i mult e) refl
      ]

  -- `allocate` of a size that is a multiple of the alignment and at most 2 ^ 62: either it returns a
  -- block, which is the last of the living blocks then (whatever else the allocator has lent), or there is an exception,
  -- nothing has changed, the request does not fit in the page of the top, and the allocator below, in the
  -- state before, refuses a page (for a request below half a page) or a block of the size. The bytes are as
  -- before each time.
  pub allocate-Allocated :
      {lp lb : List ℕ} (s : Lifo A V) (n : ℕ) {blocks : List Block}
      → IsStackWith laws lp lb s blocks
      → n % l.alignment ≡ 0
      → n ≤ 2 ^ 62
      → Allocated lp lb s s.m_top blocks n (allocate n s)
  allocate-Allocated {lp} {lb} s n {blocks} i mult small =
      subst (Allocated lp lb s s.m_top blocks n) (sym (allocate-eq n s))
        (set_top-Allocated s s.m_top n i mult small)
