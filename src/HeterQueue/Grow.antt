-- ===== src/HeterQueue/Grow.antt =====
-- heter_queue.h: a block put at the tail keeps the queue well formed, in its page or with a new page.
use mathlib.Core.List.{append-nil}
use native.Mathlib.Nat.{div-add-mod'}
use mathlib.Core.Option.{some}
use density.HeterQueue.Sizes.{control_size-eq}
use density.Base.{
  ◌⊎◌, some, ℕ, ◌+◌, ◌*◌, ◌/◌, ◌%◌, ◌^◌, ◌≤◌, ◌<◌, ◌≡◌, ◌≢◌, refl, sym, ap, ◌∙◌, false, List, [],
  ◌∷◌, ◌++◌, arith, ◌∈◌, ◌∉◌, has, has-append, ltb, if◌then◌else◌, Bool-cases, inl, inr,
}
use density.Align.{word_mod}
use density.Allocator.{Allocator, IsAllocator}
use density.Align.Pages.{page_of}
use density.HeterQueue.Layout.{Layout, IsLayout, control_size, min_alignment}
use density.HeterQueue.State.{Queue}
use density.Effects.{update}
use density.HeterQueue.Chain.{Chain-snoc}
use density.HeterQueue.Invariant.{spine, external_blocks, IsOpenWith}
use density.HeterQueue.Extend.{spine-has, spine-tail, spine-same, spine-new, external_blocks-snoc}
use density.Distinct.{AllDistinct-snoc}

-- An element of a list with one more at its end.
mem-snoc : (a p : ℕ) (xs : List ℕ) → a ∈ (xs ++ p ∷ []) → (a ∈ xs) ⊎ (a ≡ p)
mem-snoc a p xs i = ground (arith, has-append a xs (p ∷ []))

module _ ⦃l : Layout⦄ where
  -- A word that leads to the new tail, and a new tail at which a block can stand.
  pub record IsStep (w tail' : ℕ) : Type 0 where
    pub small : w < word_mod
    pub leads : w / 8 * 8 ≡ tail'
    pub inside : w % 8 < 4
    pub aligned : tail' % min_alignment ≡ 0
    pub bound : page_of l.page_alignment tail' + l.page_alignment ≤ 2 ^ 63
    pub room : tail' + control_size ≤ page_of l.page_alignment tail' + l.page_size

module _ {A T V : Type 0} where
  -- The tail moves to `tail'`, and the word behind it leads there.
  abbrev pub grown : Queue A T V → (w tail' : ℕ) → A → Queue A T V
  grown s w tail' a = record s {
    m_next = update s.m_next s.m_tail w;
    m_tail = tail';
    allocator = a;
  }

module _ {A T V : Type 0} ⦃l : Layout⦄ {al : Allocator A} (laws : IsAllocator al l.page_alignment)
    (lay : IsLayout l) where
  pub tail-absent :
      {lent : List ℕ} {s : Queue A T V} {xs : List ℕ} → IsOpenWith laws lent s xs → s.m_tail ∉ xs
  tail-absent {s = s} {xs} o = elim (Bool-cases (has s.m_tail xs)) [
    | inl i ↦ absurd (omega (arith, o.below s.m_tail i refl))
    | inr out ↦ out
  ]

  pub tail_lt :
      {lent : List ℕ} {s : Queue A T V} {xs : List ℕ}
      → IsOpenWith laws lent s xs
      → s.m_tail < 2 ^ 63
  tail_lt o = omega (arith, o.tail_room, o.tail_bound, lay.page_size_le, control_size-eq lay)

  externals-kept :
      {lent : List ℕ} {s : Queue A T V} {xs : List ℕ} (w tail' : ℕ)
      → IsOpenWith laws lent s xs
      → IsStep w tail'
      → external_blocks (update s.m_next s.m_tail w) s.externals (xs ++ s.m_tail ∷ [])
        ≡ external_blocks s.m_next s.externals xs
  externals-kept {s = s} {xs} w tail' o st =
      external_blocks-snoc s.m_next s.externals s.m_tail w xs (tail-absent o) ∙ no_flag
    where
      no_flag :
          external_blocks s.m_next s.externals xs
            ++ (if ltb 3 (w % 8) then (s.externals s.m_tail).m_element ∷ [] else [])
          ≡ external_blocks s.m_next s.externals xs
      no_flag = let e : ltb 3 (w % 8) ≡ false = ground (arith, st.inside) in rw e (append-nil _)

  pub grow_in_page :
      {lent : List ℕ} {s : Queue A T V} {xs : List ℕ} (w tail' : ℕ)
      → IsOpenWith laws lent s xs
      → IsStep w tail'
      → page_of l.page_alignment tail' ≡ page_of l.page_alignment s.m_tail
      → s.m_tail < tail'
      → IsOpenWith laws lent (grown s w tail' s.allocator) (xs ++ s.m_tail ∷ [])
  grow_in_page {lent} {s} {xs} w tail' o st same lt = record {
    chain = Chain-snoc w tail' o.chain (tail-absent o) st.small st.leads new-absent (ground arith);
    owned = record {
      pages = rw (spine-same l.page_alignment s.m_tail tail' xs same) o.owned.pages;
      pages_distinct =
          rw (spine-same l.page_alignment s.m_tail tail' xs same) o.owned.pages_distinct;
      blocks = rw (externals-kept w tail' o st) o.owned.blocks;
      blocks_distinct = rw (externals-kept w tail' o st) o.owned.blocks_distinct;
    };
    bounds = λ a i. elim (mem-snoc a s.m_tail xs i) [
      | inl j ↦ o.bounds a j
      | inr e ↦ omega (arith, tail_lt o)
    ];
    below = λ a i f. elim (mem-snoc a s.m_tail xs i) [
      | inl j ↦ omega (arith, o.below a j (f ∙ same))
      | inr e ↦ omega arith
    ];
    tail_bound = st.bound;
    tail_aligned = st.aligned;
    tail_room = st.room;
  }
    where
      new-absent : tail' ∉ xs
      new-absent = elim (Bool-cases (has tail' xs)) [
        | inl i ↦ absurd (omega (arith, o.below tail' i same))
        | inr out ↦ out
      ]

  pub grow_new_page :
      {lent : List ℕ} {s : Queue A T V} {xs : List ℕ} (w tail' : ℕ) (a : A)
      → IsOpenWith laws lent s xs
      → IsStep w tail'
      → al.allocate_page s.allocator ≡ some (tail', a)
      → IsOpenWith laws lent (grown s w tail' a) (xs ++ s.m_tail ∷ [])
  grow_new_page {lent} {s} {xs} w tail' a o st e = record {
    chain =
        Chain-snoc w tail' o.chain (tail-absent o) st.small st.leads new-absent
          (λ f. other (ap (page_of l.page_alignment) f));
    owned = record {
      pages = rw (spine-new l.page_alignment s.m_tail tail' xs other) (λ b. ground (
        arith,
        at_start,
        has-append b (spine l.page_alignment s.m_tail xs) (page_of l.page_alignment tail' ∷ []),
        laws.page_owned s.allocator a tail' b e,
        o.owned.pages b,
      ));
      pages_distinct = rw (spine-new l.page_alignment s.m_tail tail' xs other) (
          AllDistinct-snoc (spine l.page_alignment s.m_tail xs) (page_of l.page_alignment tail')
            o.owned.pages_distinct fresh);
      blocks =
          rw (externals-kept w tail' o st)
            (λ b. laws.page_blocks s.allocator a tail' b e ∙ o.owned.blocks b);
      blocks_distinct = rw (externals-kept w tail' o st) o.owned.blocks_distinct;
    };
    bounds = λ a i. elim (mem-snoc a s.m_tail xs i) [
      | inl j ↦ o.bounds a j
      | inr f ↦ omega (arith, tail_lt o)
    ];
    below = λ a i f. absurd (elim (mem-snoc a s.m_tail xs i) [
      | inl j ↦
          elsewhere (page_of l.page_alignment a) (spine-has l.page_alignment s.m_tail a xs j) f
      | inr g ↦
          elsewhere (page_of l.page_alignment a) (rw g (spine-tail l.page_alignment s.m_tail xs)) f
    ]);
    tail_bound = st.bound;
    tail_aligned = st.aligned;
    tail_room = st.room;
  }
    where
      start : (tail' % l.page_alignment ≡ 0) × (0 < tail') × (tail' + l.page_alignment ≤ 2 ^ 63)
      start = laws.page_bounds s.allocator a tail' e

      at_start : page_of l.page_alignment tail' ≡ tail'
      at_start = omega (arith, start, div-add-mod' tail' l.page_alignment)

      fresh : page_of l.page_alignment tail' ∉ spine l.page_alignment s.m_tail xs
      fresh =
          sym (o.owned.pages (page_of l.page_alignment tail'))
          ∙ ap (laws.owns_page s.allocator) at_start
          ∙ laws.page_fresh s.allocator a tail' e

      elsewhere :
          (b : ℕ) → b ∈ spine l.page_alignment s.m_tail xs → b ≡ page_of l.page_alignment tail' → ⊥
      elsewhere b i g = ground (arith, fresh)

      other : page_of l.page_alignment tail' ≢ page_of l.page_alignment s.m_tail
      other g =
          elsewhere (page_of l.page_alignment s.m_tail) (spine-tail l.page_alignment s.m_tail xs)
            (sym g)

      new-absent : tail' ∉ xs
      new-absent = elim (Bool-cases (has tail' xs)) [
        | inl i ↦ absurd (
            elsewhere (page_of l.page_alignment tail')
              (spine-has l.page_alignment s.m_tail tail' xs i) refl)
        | inr out ↦ out
      ]
