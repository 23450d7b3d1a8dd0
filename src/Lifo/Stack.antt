-- ===== src/Lifo/Stack.antt =====
-- lifo.h: the stack of living blocks that the state of a lifo_allocator stands for.
use native.Mathlib.Nat.{div-add-mod', mod-eq_of_lt, mod-lt}
use density.Base.{
  subst, ℕ, ◌+◌, ◌%◌, ◌^◌, ◌≤◌, ◌<◌, ◌≡◌, ◌≢◌, sym, ap, ◌∙◌, ◌⊎◌, inl, inr, List, [], ◌∷◌, ◌++◌,
  has, ◌∈◌, ◌∉◌, arith,
}
use density.Align.Rounding.{IsAlignment-bounds}
use density.Align.Pages.{page_of-between, page_of}
use density.Align.{word_mod}
use density.Allocator.{Allocator, IsAllocator}
use density.Distinct.{AllDistinct}
use density.Lifo.Layout.{LifoLayout, IsLifoLayout, header_size, s_virgin_top, virgin_top_bounds}
use density.Lifo.Operations.{Lifo}

-- A living block: its address and its size.
abbrev pub Block : Type 0
Block = ℕ × ℕ

module _ ⦃l : LifoLayout⦄ where
  -- `Stack prev top blocks pages externals`: with the top of the stack at `top`, these blocks are
  -- living, the last one first, these pages are in use, the top one first, and these of the blocks
  -- are external. A page is put on another page only where that one holds bytes of living blocks.
  pub data Stack (prev : ℕ → ℕ) : ℕ → List Block → List ℕ → List ℕ → Type 0 where
    virgin : {top : ℕ} → top ≡ s_virgin_top → Stack prev top [] [] []
    page :
        {top t p : ℕ} {blocks : List Block} {pages externals : List ℕ}
        → top ≡ p + header_size
        → p % l.page_alignment ≡ 0
        → 0 < p
        → p + l.page_alignment ≤ 2 ^ 63
        → p ∉ pages
        → ((b : ℕ) → b ∈ externals → page_of l.page_alignment b ≢ p)
        → prev p ≡ t
        → header_size < t % l.page_alignment
        → Stack prev t blocks pages externals
        → Stack prev top blocks (p ∷ pages) externals
    inner :
        {top t n : ℕ} {blocks : List Block} {pages externals : List ℕ}
        → top ≡ t + n
        → n % l.alignment ≡ 0
        → (n ≡ 0) ⊎ (t % l.page_alignment + n < l.page_size)
        → Stack prev t blocks pages externals
        → Stack prev top ((t, n) ∷ blocks) pages externals
    outer :
        {top b n : ℕ} {blocks : List Block} {pages externals : List ℕ}
        → n % l.alignment ≡ 0
        → b % l.alignment ≡ 0
        → b < 2 ^ 63
        → 0 < page_of l.page_alignment b
        → page_of l.page_alignment b ∉ pages
        → Stack prev top blocks pages externals
        → Stack prev top ((b, n) ∷ blocks) pages (b ∷ externals)

  -- Where the top can be: at the start of an unused stack, or in the page taken last.
  pub data TopOf (top : ℕ) : List ℕ → Type 0 where
    nowhere : top ≡ s_virgin_top → TopOf top []
    within :
        {p : ℕ} {pages : List ℕ}
        → page_of l.page_alignment top ≡ p
        → 0 < p
        → p + l.page_alignment ≤ 2 ^ 63
        → header_size ≤ top % l.page_alignment
        → TopOf top (p ∷ pages)

  -- An address in a page, by its distance from the start.
  pub in_page :
      (lay : IsLifoLayout l) (p h : ℕ)
      → p % l.page_alignment ≡ 0
      → h < l.page_alignment
      → (page_of l.page_alignment (p + h) ≡ p) × ((p + h) % l.page_alignment ≡ h)
  in_page lay p h start lt =
      let at : page_of l.page_alignment p ≡ p = omega (arith, div-add-mod' p l.page_alignment) in
      let of = page_of-between l.page_alignment p (p + h) (omega arith) (omega arith) in
      (of ∙ at, omega (arith, div-add-mod' (p + h) l.page_alignment))

  -- The top moves in its page.
  pub move_in_page :
      (t n : ℕ)
      → t % l.page_alignment + n < l.page_alignment
      → (page_of l.page_alignment (t + n) ≡ page_of l.page_alignment t)
        × ((t + n) % l.page_alignment ≡ t % l.page_alignment + n)
  move_in_page t n lt =
      let split = div-add-mod' t l.page_alignment in
      let of = page_of-between l.page_alignment t (t + n) (omega arith) (omega arith) in
      (of, omega (arith, div-add-mod' (t + n) l.page_alignment))

  mod-lt' : (lay : IsLifoLayout l) (x : ℕ) → x % l.page_alignment < l.page_alignment
  mod-lt' lay x = mod-lt x (IsAlignment-bounds lay.page).0

  multiple-ge : (a n : ℕ) → n % a ≡ 0 → n < a → n ≡ 0
  multiple-ge a n h lt = sym (mod-eq_of_lt lt) ∙ h

  pub TopOf-inner :
      (lay : IsLifoLayout l) (t n : ℕ) {pages : List ℕ}
      → TopOf t pages
      → n % l.alignment ≡ 0
      → (n ≡ 0) ⊎ (t % l.page_alignment + n < l.page_size)
      → TopOf (t + n) pages
  TopOf-inner lay t n top mult (inl e) = let f : t + n ≡ t = omega arith in rw f top
  TopOf-inner lay t n (nowhere e) mult (inr fits) =
      let (lt, gt, al, close) = virgin_top_bounds lay in
      let low : t % l.page_alignment ≡ t = mod-eq_of_lt (omega arith) in
      nowhere (omega (arith, multiple-ge l.alignment n mult (omega (arith, lay.page_size_le))))
  TopOf-inner lay t n (within of pos bound off) mult (inr fits) =
      let (of', off') = move_in_page t n (omega (arith, lay.page_size_le)) in
      within (of' ∙ of) pos bound (omega arith)

  pub TopOf-lt : {top : ℕ} {pages : List ℕ} (lay : IsLifoLayout l) → TopOf top pages → top < 2 ^ 63
  TopOf-lt lay (nowhere e) = omega (arith, virgin_top_bounds lay, lay.page_half)
  TopOf-lt {top} lay (within of pos bound off) =
      omega (arith, div-add-mod' top l.page_alignment, mod-lt' lay top)

  module _ {prev : ℕ → ℕ} where
    pub Stack-TopOf :
        (lay : IsLifoLayout l) {top : ℕ} {blocks : List Block} {pages externals : List ℕ}
        → Stack prev top blocks pages externals
        → TopOf top pages
    Stack-TopOf lay (virgin e) = nowhere e
    Stack-TopOf lay {top} (page {p} e start pos bound new apart leads deep s) =
        let (of, off) =
          in_page lay p header_size start (omega (arith, lay.room, lay.page_size_le)) in
        within (ap (page_of l.page_alignment) e ∙ of) pos bound
          (omega (arith, off, ap (λ (x : ℕ). x % l.page_alignment) e))
    Stack-TopOf lay (inner {t} {n} {pages = ps} e mult fits s) =
        subst (λ x. TopOf x ps) (sym e) (TopOf-inner lay t n (Stack-TopOf lay s) mult fits)
    Stack-TopOf lay (outer mult at small pos out s) = Stack-TopOf lay s

    -- Pages that are not in use may be written.
    pub Stack-frame :
        (prev' : ℕ → ℕ) {top : ℕ} {blocks : List Block} {pages externals : List ℕ}
        → Stack prev top blocks pages externals
        → ((p : ℕ) → p ∈ pages → prev' p ≡ prev p)
        → Stack prev' top blocks pages externals
    Stack-frame prev' (virgin e) same = virgin e
    Stack-frame prev' (page {p} e start pos bound new apart leads deep s) same =
        page e start pos bound new apart (same p (ground arith) ∙ leads) deep
          (Stack-frame prev' s (λ q i. same q (ground arith)))
    Stack-frame prev' (inner e mult fits s) same = inner e mult fits (Stack-frame prev' s same)
    Stack-frame prev' (outer mult at small pos out s) same =
        outer mult at small pos out (Stack-frame prev' s same)

module _ {A V : Type 0} ⦃l : LifoLayout⦄ {al : Allocator A}
    (laws : IsAllocator al l.page_alignment) where
  -- The living blocks `blocks`, where the allocator has given out what they need, and the pages and
  -- blocks `lent_pages` and `lent_blocks`.
  pub record IsStackWith (lent_pages lent_blocks : List ℕ) (s : Lifo A V) (blocks : List Block)
      : Type 0 where
    pub pages : List ℕ
    pub externals : List ℕ
    pub stack : Stack s.prev_pages s.m_top blocks pages externals
    pub words : (a : ℕ) → s.prev_pages a < word_mod
    pub owned_pages : (a : ℕ) → laws.owns_page s.allocator a ≡ has a (lent_pages ++ pages)
    pub pages_distinct : AllDistinct (lent_pages ++ pages)
    pub owned_blocks : (a : ℕ) → laws.owns_block s.allocator a ≡ has a (lent_blocks ++ externals)
    pub blocks_distinct : AllDistinct (lent_blocks ++ externals)

  abbrev pub IsStack : Lifo A V → List Block → Type 0
  IsStack = IsStackWith [] []
