-- ===== src/HeterQueue/Release.antt =====
-- heter_queue.h: cleaning gives back exactly the memory of the dead blocks that it drops.
use density.Align.Pages.{same_page-eq, page_of}
use density.Base.{
  subst, sym, ◌∙◌, ◌%◌, ◌∈◌, ℕ, ◌<◌, ◌≡◌, refl, List, [], ◌∷◌, ◌==◌, arith, Bool-cases, inl, inr,
}
use density.HeterQueue.Layout.{next_block, Layout, IsLayout}
use density.HeterQueue.Chain.{first_of-Chain, cons, drop_dead, dead_prefix, Chain, first_of}
use density.HeterQueue.Words.{next_block-eq, is_external-eq}
use density.HeterQueue.Walk.{released}
use density.Align.{word_mod}
use density.Allocator.{Allocator, IsAllocator}
use density.HeterQueue.State.{Queue}
use density.HeterQueue.Consume.{release_block}
use density.HeterQueue.Invariant.{link, spine, Owned}

-- The spine begins with the page of the first block, or of the tail.
spine-first :
    (pa tail : ℕ) (xs : List ℕ)
    → (r : List ℕ) × (spine pa tail xs ≡ page_of pa (first_of tail xs) ∷ r)
spine-first pa tail [] = ([], refl)
spine-first pa tail (p ∷ xs) =
    let (r, e) = spine-first pa tail xs in
    link-first (page_of pa p) (page_of pa (first_of tail xs)) r e
  where
    link-first :
        (a b : ℕ) {ys : List ℕ} (r : List ℕ) → ys ≡ b ∷ r → (r' : List ℕ) × (link a ys ≡ a ∷ r')
    link-first a b r e = elim (Bool-cases (a == b)) [
      | inl same ↦ (r, ground (arith, e))
      | inr other ↦ (b ∷ r, ground (arith, e))
    ]

first_of-lt :
    (tail : ℕ) (xs : List ℕ)
    → ((a : ℕ) → a ∈ xs → a < word_mod)
    → tail < word_mod
    → first_of tail xs < word_mod
first_of-lt tail [] small small' = small'
first_of-lt tail (p ∷ xs) small small' = small p (ground arith)

module _ {A T V : Type 0} ⦃l : Layout⦄ ⦃al : Allocator A⦄ (laws : IsAllocator al l.page_alignment)
    (lay : IsLayout l) where
  release_block-Owned :
      {s : Queue A T V} {xs : List ℕ} (p : ℕ)
      → p < word_mod
      → first_of s.m_tail xs < word_mod
      → Owned laws s (p ∷ xs)
      → Owned laws (release_block p (first_of s.m_tail xs) s) xs
  unfolding release_block
  release_block-Owned {s} {xs} p small small' o =
      let (r, e) = spine-first l.page_alignment s.m_tail xs in
      record {
        pages = λ a. ground (
          arith,
          is_external-eq (s.m_next p),
          same_page-eq lay.page (first_of s.m_tail xs) p small' small,
          e,
          o.pages a,
          o.pages_distinct,
          laws.page_returned s.allocator p a,
          laws.page_returned
              (al.deallocate (s.externals p).m_element (s.externals p).m_size
                (s.externals p).m_alignment s.allocator)
              p a,
          laws.block_returned_pages s.allocator (s.externals p).m_element (s.externals p).m_size
              (s.externals p).m_alignment a,
        );
        pages_distinct = ground (arith, e, o.pages_distinct);
        blocks = λ a. ground (
          arith,
          is_external-eq (s.m_next p),
          o.blocks a,
          o.blocks_distinct,
          laws.page_returned_blocks s.allocator p a,
          laws.page_returned_blocks
              (al.deallocate (s.externals p).m_element (s.externals p).m_size
                (s.externals p).m_alignment s.allocator)
              p a,
          laws.block_returned s.allocator (s.externals p).m_element (s.externals p).m_size
              (s.externals p).m_alignment a,
        );
        blocks_distinct = ground (arith, o.blocks_distinct);
      }

  -- The run of dead blocks at the front is given back, whatever its length.
  pub released-Owned :
      (s : Queue A T V) {p : ℕ} (xs : List ℕ)
      → Chain s.m_next s.m_tail p xs
      → ((a : ℕ) → a ∈ xs → a < word_mod)
      → s.m_tail < word_mod
      → Owned laws s xs
      → Owned laws (released (dead_prefix s.m_next xs) s) (drop_dead s.m_next xs)
  unfolding released
  released-Owned s [] c small small' o = o
  released-Owned s (p ∷ xs) (cons {q} ne out w e c) small small' o =
      elim (Bool-cases (s.m_next p % 4 == 2)) [
        | inl dead ↦ rw dead (
            subst
              (λ q'.
                Owned laws (released (dead_prefix s.m_next xs) (release_block p q' s))
                  (drop_dead s.m_next xs))
              (sym next)
              (released-Owned (release_block p (first_of s.m_tail xs) s) xs c
                (λ a i. small a (ground arith)) small'
                (release_block-Owned p (small p (ground arith))
                  (first_of-lt s.m_tail xs (λ a i. small a (ground arith)) small') o)))
        | inr kept ↦ rw kept o
      ]
    where
      next : next_block (s.m_next p) ≡ first_of s.m_tail xs
      next = next_block-eq (s.m_next p) w ∙ sym e ∙ sym (first_of-Chain c)
