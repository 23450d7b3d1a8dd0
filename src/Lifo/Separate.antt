-- ===== src/Lifo/Separate.antt =====
-- lifo.h: living blocks are aligned, and those of one page do not overlap.
use density.Align.Multiples.{multiple_trans, add_multiple}
use density.Align.Rounding.{IsAlignment-divides}
use density.Base.{ℕ, ◌+◌, ◌%◌, ◌≤◌, ◌<◌, ◌≡◌, ◌≢◌, sym, ap, ◌∙◌, List, [], ◌∷◌, ◌∈◌, ◌∉◌, arith}
use density.Align.Pages.{page_of}
use density.Allocator.{Allocator, IsAllocator}
use density.Lifo.Layout.{
  LifoLayout, IsLifoLayout, header_size, header_size_aligned, virgin_top_bounds,
}
use density.Lifo.Operations.{Lifo}
use density.Lifo.Stack.{Block, Stack, virgin, page, inner, outer, Stack-TopOf, in_page, IsStack}
use density.Lifo.Last.{page_of-TopOf, page_of-inner, apart_from}

out_of_head : (b : ℕ) (es : List ℕ) → b ∉ b ∷ es → ⊥
out_of_head b es out = ground arith

module _ ⦃l : LifoLayout⦄ where
  abbrev pub AllBlocks : (ℕ → ℕ → Type 0) → List Block → Type 0
  AllBlocks P [] = Unit {0}
  AllBlocks P ((b, n) ∷ blocks) = P b n × AllBlocks P blocks

  AllBlocks-map :
      {P Q : ℕ → ℕ → Type 0} (blocks : List Block)
      → ((b n : ℕ) → P b n → Q b n)
      → AllBlocks P blocks
      → AllBlocks Q blocks
  AllBlocks-map [] f all = tt
  AllBlocks-map ((b, n) ∷ blocks) f (h, all) = (f b n h, AllBlocks-map blocks f all)

  -- A block of the page of `a` ends where `a` is, or in front of it.
  abbrev pub EndsBefore : ℕ → ℕ → ℕ → Type 0
  EndsBefore a b n = page_of l.page_alignment b ≡ page_of l.page_alignment a → b + n ≤ a

  -- Each block is aligned and, if it lies in a page, behind the older blocks of that page.
  abbrev pub AreSeparate : (externals : List ℕ) → List Block → Type 0
  AreSeparate externals [] = Unit {0}
  AreSeparate externals ((b, n) ∷ blocks) =
      (b % l.alignment ≡ 0)
      × (b ∉ externals → AllBlocks (EndsBefore b) blocks)
      × AreSeparate externals blocks

  AreSeparate-weaken :
      (c : ℕ) (externals : List ℕ) (blocks : List Block)
      → AreSeparate externals blocks
      → AreSeparate (c ∷ externals) blocks
  AreSeparate-weaken c externals [] all = tt
  AreSeparate-weaken c externals ((b, n) ∷ blocks) (at, h, all) =
      (at, (λ out. h (ground arith)), AreSeparate-weaken c externals blocks all)

  module _ (lay : IsLifoLayout l) {prev : ℕ → ℕ} where
    -- No block lies in a page that is not in use.
    elsewhere :
        (p : ℕ) {top : ℕ} {blocks : List Block} {pages externals : List ℕ}
        → Stack prev top blocks pages externals
        → 0 < p
        → p ∉ pages
        → ((b : ℕ) → b ∈ externals → page_of l.page_alignment b ≢ p)
        → AllBlocks (λ b n. page_of l.page_alignment b ≢ p) blocks
    elsewhere p (virgin e) pos out apart = tt
    elsewhere p (page e start pos' bound new apart' leads deep s) pos out apart =
        elsewhere p s pos (ground arith) apart
    elsewhere p (inner {t} {pages = ps} e mult fits s) pos out apart = (
      λ f.
          apart_from (page_of l.page_alignment t) p ps (page_of-TopOf lay t (Stack-TopOf lay s)) f
            pos out,
      elsewhere p s pos out apart,
    )
    elsewhere p (outer {b} mult at small pos' out' s) pos out apart =
        (apart b (ground arith), elsewhere p s pos out (λ c i. apart c (ground arith)))

    -- The blocks of the page of the top end in front of it.
    behind_top :
        {top : ℕ} {blocks : List Block} {pages externals : List ℕ}
        → Stack prev top blocks pages externals
        → AllBlocks (EndsBefore top) blocks
    behind_top (virgin e) = tt
    behind_top {blocks = bs} (page {top} {p = p} e start pos bound new apart leads deep s) =
        let (of, off) =
          in_page lay p header_size start (omega (arith, lay.room, lay.page_size_le)) in
        AllBlocks-map bs (λ b n ne f. absurd (ne (f ∙ ap (page_of l.page_alignment) e ∙ of)))
          (elsewhere p s pos new apart)
    behind_top {blocks = bs} (inner {t} {n} {blocks = rest} e mult fits s) = (
      λ f. omega arith,
      AllBlocks-map rest
          (λ b k h f.
            omega (arith, h (f ∙ ap (page_of l.page_alignment) e ∙ page_of-inner lay t n fits)))
          (behind_top s),
    )
    behind_top (outer {top} {b} {pages = ps} mult at small pos out s) = (
      λ f. absurd (
          apart_from (page_of l.page_alignment top) (page_of l.page_alignment b) ps
            (page_of-TopOf lay top (Stack-TopOf lay s)) (sym f) pos out),
      behind_top s,
    )

    top_aligned :
        {top : ℕ} {blocks : List Block} {pages externals : List ℕ}
        → Stack prev top blocks pages externals
        → top % l.alignment ≡ 0
    top_aligned (virgin e) = ap (λ x. x % l.alignment) e ∙ (virgin_top_bounds lay).2
    top_aligned (page {p} e start pos bound new apart leads deep s) =
        let whole =
          multiple_trans l.alignment l.page_alignment p
            (IsAlignment-divides lay.block lay.page lay.block_le) start in
        ap (λ x. x % l.alignment) e
        ∙ add_multiple l.alignment p header_size whole (header_size_aligned lay)
    top_aligned (inner {t} {n} e mult fits s) =
        ap (λ x. x % l.alignment) e ∙ add_multiple l.alignment t n (top_aligned s) mult
    top_aligned (outer mult at small pos out s) = top_aligned s

    Stack-AreSeparate :
        {top : ℕ} {blocks : List Block} {pages externals : List ℕ}
        → Stack prev top blocks pages externals
        → AreSeparate externals blocks
    Stack-AreSeparate (virgin e) = tt
    Stack-AreSeparate (page e start pos bound new apart leads deep s) = Stack-AreSeparate s
    Stack-AreSeparate (inner e mult fits s) =
        (top_aligned s, (λ out. behind_top s), Stack-AreSeparate s)
    Stack-AreSeparate (outer {b} {blocks = bs} {externals = es} mult at small pos out s) = (
      at,
      (λ out'. absurd (out_of_head b es out')),
      AreSeparate-weaken b es bs (Stack-AreSeparate s),
    )

module _ {A V : Type 0} ⦃l : LifoLayout⦄ ⦃al : Allocator A⦄ (laws : IsAllocator al l.page_alignment)
    (lay : IsLifoLayout l) where
  -- The living blocks of a lifo_allocator are aligned, and each that is not external ends, for every
  -- younger one in its page, in front of it: blocks of a page do not overlap.
  pub living-AreSeparate :
      (s : Lifo A V) (blocks : List Block) (i : IsStack laws s blocks)
      → AreSeparate i.externals blocks
  living-AreSeparate s blocks i = Stack-AreSeparate lay i.stack
