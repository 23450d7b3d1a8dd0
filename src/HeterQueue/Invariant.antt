-- ===== src/HeterQueue/Invariant.antt =====
-- heter_queue.h: when a queue is well formed, and what it holds then.
use density.Distinct.{AllDistinct}
use density.Base.{
  ℕ, ◌+◌, ◌%◌, ◌≤◌, ◌<◌, ◌^◌, ◌≡◌, false, List, [], ◌∷◌, map, ◌==◌, ltb, if◌then◌else◌, ◌∈◌, has,
  ◌++◌,
}
use density.Allocator.{Allocator, IsAllocator}
use density.Align.Pages.{page_of}
use density.HeterQueue.Layout.{Layout, control_size, min_alignment, s_invalid_control_block}
use density.HeterQueue.State.{Queue, ExternalBlock}
use density.HeterQueue.Chain.{Chain, live}

-- The pages that a chain runs through, each named once where neighbours share it.
abbrev pub link : ℕ → List ℕ → List ℕ
link a [] = a ∷ []
link a (b ∷ r) = if a == b then b ∷ r else a ∷ b ∷ r

abbrev pub spine : (page_alignment tail : ℕ) → List ℕ → List ℕ
spine page_alignment tail [] = page_of page_alignment tail ∷ []
spine page_alignment tail (p ∷ xs) = link (page_of page_alignment p) (spine page_alignment tail xs)

-- The external blocks that the blocks of a chain point to.
abbrev pub external_blocks : (ℕ → ℕ) → (ℕ → ExternalBlock) → List ℕ → List ℕ
external_blocks next externals [] = []
external_blocks next externals (p ∷ xs) =
    if ltb 3 (next p % 8)
    then (externals p).m_element ∷ external_blocks next externals xs
    else external_blocks next externals xs

module _ {A T V : Type 0} where
  -- What a consumer finds, oldest first: the runtime types and the elements.
  abbrev pub contents : Queue A T V → List ℕ → List (T × V)
  contents s xs = map (λ p. (s.types p, s.elements p)) (live s.m_next xs)

module _ {A T V : Type 0} ⦃l : Layout⦄ {al : Allocator A}
    (laws : IsAllocator al l.page_alignment) where
  -- The memory that the allocator has given out is what the chain `xs` stands in and points to, and
  -- the blocks `lent`, which no control block points to yet.
  pub record OwnedWith (lent : List ℕ) (s : Queue A T V) (xs : List ℕ) : Type 0 where
    pub pages : (a : ℕ) → laws.owns_page s.allocator a ≡ has a (spine l.page_alignment s.m_tail xs)
    pub pages_distinct : AllDistinct (spine l.page_alignment s.m_tail xs)
    pub blocks :
        (a : ℕ)
        → laws.owns_block s.allocator a ≡ has a (lent ++ external_blocks s.m_next s.externals xs)
    pub blocks_distinct : AllDistinct (lent ++ external_blocks s.m_next s.externals xs)

  -- A queue that has a page: its blocks, and the tail, where the next block will stand.
  pub record IsOpenWith (lent : List ℕ) (s : Queue A T V) (xs : List ℕ) : Type 0 where
    pub chain : Chain s.m_next s.m_tail s.m_head xs
    pub owned : OwnedWith lent s xs
    pub bounds : (a : ℕ) → a ∈ xs → a < 2 ^ 63
    pub below :
        (a : ℕ)
        → a ∈ xs
        → page_of l.page_alignment a ≡ page_of l.page_alignment s.m_tail
        → a < s.m_tail
    pub tail_bound : page_of l.page_alignment s.m_tail + l.page_alignment ≤ 2 ^ 63
    pub tail_aligned : s.m_tail % min_alignment ≡ 0
    pub tail_room : s.m_tail + control_size ≤ page_of l.page_alignment s.m_tail + l.page_size

  -- A queue that nothing was put in yet.
  pub record IsVirginWith (lent : List ℕ) (s : Queue A T V) : Type 0 where
    pub head_invalid : s.m_head ≡ s_invalid_control_block
    pub tail_invalid : s.m_tail ≡ s_invalid_control_block
    pub no_pages : (a : ℕ) → laws.owns_page s.allocator a ≡ false
    pub lent_blocks : (a : ℕ) → laws.owns_block s.allocator a ≡ has a lent
    pub lent_distinct : AllDistinct lent

  pub data IsValidWith (lent : List ℕ) (s : Queue A T V) : List ℕ → Type 0 where
    virgin : IsVirginWith lent s → IsValidWith lent s []
    opened : {xs : List ℕ} → IsOpenWith lent s xs → IsValidWith lent s xs

  abbrev pub Owned : Queue A T V → List ℕ → Type 0
  Owned = OwnedWith []

  abbrev pub IsOpen : Queue A T V → List ℕ → Type 0
  IsOpen = IsOpenWith []

  abbrev pub IsValid : Queue A T V → List ℕ → Type 0
  IsValid = IsValidWith []

  abbrev pub IsVirgin : Queue A T V → Type 0
  IsVirgin = IsVirginWith []
