-- ===== src/Lifo/Last.antt =====
-- lifo.h: the three places where the last living block can be, which `deallocate` tells apart.
use native.Mathlib.Nat.{div-add-mod', mod-eq_of_lt}
use density.Base.{
  ℕ, ◌+◌, ◌-◌, ◌%◌, ◌^◌, ◌<◌, ◌≡◌, ◌≢◌, refl, sym, ap, ◌∙◌, subst, ◌⊎◌, inl, inr, List, [], ◌∷◌,
  ◌∈◌, ◌∉◌, arith,
}
use density.Align.{word_mod}
use density.Align.Pages.{page_of}
use density.Lifo.Layout.{LifoLayout, IsLifoLayout, header_size, s_virgin_top, virgin_top_bounds}
use density.Lifo.Stack.{
  Block, Stack, virgin, page, inner, outer, TopOf, nowhere, within, Stack-TopOf, in_page,
  move_in_page, TopOf-inner, TopOf-lt,
}

member : (x p : ℕ) (pages : List ℕ) → x ∈ pages → x ∈ p ∷ pages
member x p pages i = ground arith

pub apart_from : (x p : ℕ) (pages : List ℕ) → (x ≡ 0) ⊎ (x ∈ pages) → x ≡ p → 0 < p → p ∉ pages → ⊥
apart_from x p pages (inl first) f pos new = absurd (omega arith)
apart_from x p pages (inr inside) f pos new = ground (arith, inside)

module _ ⦃l : LifoLayout⦄ (lay : IsLifoLayout l) where
  -- The page of the top, or the first page of the address space.
  pub page_of-TopOf :
      (top : ℕ) {pages : List ℕ}
      → TopOf top pages
      → (page_of l.page_alignment top ≡ 0) ⊎ (page_of l.page_alignment top ∈ pages)
  page_of-TopOf top (nowhere e) =
      let (lt, gt, al, close) = virgin_top_bounds lay in
      inl (
        omega (
          arith,
          div-add-mod' top l.page_alignment,
          mod-eq_of_lt {n = top} {m = l.page_alignment} (omega arith),
        ))
  page_of-TopOf top (within of pos bound off) = inr (ground (arith, of))

  pub page_of-inner :
      (t n : ℕ)
      → (n ≡ 0) ⊎ (t % l.page_alignment + n < l.page_size)
      → page_of l.page_alignment (t + n) ≡ page_of l.page_alignment t
  page_of-inner t n (inl e) = ap (page_of l.page_alignment) (omega arith)
  page_of-inner t n (inr fits) = (move_in_page t n (omega (arith, lay.page_size_le))).0

  virgin-ne-header : {top : ℕ} → top ≡ s_virgin_top → top % l.page_alignment ≡ header_size → ⊥
  virgin-ne-header {top} e at =
      let (lt, gt, al, close) = virgin_top_bounds lay in
      let low : top % l.page_alignment ≡ top = mod-eq_of_lt (omega arith) in absurd (omega arith)

  -- A block that ends at the end of a header has no bytes.
  inner-empty :
      (t n : ℕ) {pages : List ℕ}
      → TopOf t pages
      → n % l.alignment ≡ 0
      → (n ≡ 0) ⊎ (t % l.page_alignment + n < l.page_size)
      → (t + n) % l.page_alignment ≡ header_size
      → n ≡ 0
  inner-empty t n top mult (inl e) at = e
  inner-empty t n (nowhere e) mult (inr fits) at =
      absurd (empty (TopOf-inner lay t n (nowhere e) mult (inr fits)))
    where
      empty : TopOf (t + n) [] → ⊥
      empty (nowhere f) = virgin-ne-header f at
  inner-empty t n (within of pos bound off) mult (inr fits) at =
      omega (arith, (move_in_page t n (omega (arith, lay.page_size_le))).1)

  -- Where the header in front of the top leads, if there is one in front of it.
  leads_back :
      {prev : ℕ → ℕ} {top : ℕ} {blocks : List Block} {pages externals : List ℕ}
      → Stack prev top blocks pages externals
      → top % l.page_alignment ≡ header_size
      → (page_of l.page_alignment (prev (top - header_size)) ≡ 0)
        ⊎ (page_of l.page_alignment (prev (top - header_size)) ∈ pages)
  leads_back (virgin e) at = absurd (virgin-ne-header e at)
  leads_back {prev} {top} (page {t} {p} {pages = ps} e start pos bound new apart leads deep s) at =
      let f : prev (top - header_size) ≡ t = ap prev (omega arith) ∙ leads in
      elim (page_of-TopOf t (Stack-TopOf lay s)) [
        | inl first ↦ inl (ap (page_of l.page_alignment) f ∙ first)
        | inr inside ↦ inr (
            subst (λ x. page_of l.page_alignment x ∈ p ∷ ps) (sym f)
              (member (page_of l.page_alignment t) p ps inside))
      ]
  leads_back {prev} {top} {pages = ps} (inner {t} {n} e mult fits s) at =
      let same : t ≡ top = omega (
        arith,
        inner-empty t n (Stack-TopOf lay s) mult fits (ap (λ x. x % l.page_alignment) (sym e) ∙ at),
      ) in
      subst
        (λ x.
          (page_of l.page_alignment (prev (x - header_size)) ≡ 0)
          ⊎ (page_of l.page_alignment (prev (x - header_size)) ∈ ps))
        same (leads_back s (ap (λ x. x % l.page_alignment) same ∙ at))
  leads_back (outer mult at' small pos out s) at = leads_back s at

  pub data LastBlock (prev : ℕ → ℕ) (top b n : ℕ) (blocks : List Block) (pages externals : List ℕ)
      : Type 0 where
    in_place :
        page_of l.page_alignment top ≡ page_of l.page_alignment b
        → Stack prev b blocks pages externals
        → LastBlock prev top b n blocks pages externals
    below :
        {p : ℕ} {rest : List ℕ}
        → pages ≡ p ∷ rest
        → top ≡ p + header_size
        → page_of l.page_alignment top ≡ p
        → top % l.page_alignment ≡ header_size
        → page_of l.page_alignment b ≢ p
        → page_of l.page_alignment (prev p) ≡ page_of l.page_alignment b
        → Stack prev b blocks rest externals
        → LastBlock prev top b n blocks pages externals
    outside :
        {rest : List ℕ}
        → externals ≡ b ∷ rest
        → b < word_mod
        → page_of l.page_alignment top ≢ page_of l.page_alignment b
        → (top % l.page_alignment ≡ header_size
            → page_of l.page_alignment (prev (top - header_size)) ≢ page_of l.page_alignment b)
        → Stack prev top blocks pages rest
        → LastBlock prev top b n blocks pages externals

  outside-last :
      {prev : ℕ → ℕ} {top b n : ℕ} {blocks : List Block} {pages rest : List ℕ}
      → Stack prev top blocks pages rest
      → b < word_mod
      → 0 < page_of l.page_alignment b
      → page_of l.page_alignment b ∉ pages
      → LastBlock prev top b n blocks pages (b ∷ rest)
  outside-last {prev} {top} {b} {pages = ps} s small pos out =
      outside refl small
        (λ e. elsewhere (page_of l.page_alignment top) (page_of-TopOf top (Stack-TopOf lay s)) e)
        (λ at e.
          elsewhere (page_of l.page_alignment (prev (top - header_size))) (leads_back s at) e)
        s
    where
      elsewhere : (x : ℕ) → (x ≡ 0) ⊎ (x ∈ ps) → x ≡ page_of l.page_alignment b → ⊥
      elsewhere x (inl first) e = absurd (omega arith)
      elsewhere x (inr inside) e = ground (arith, inside)

  pub last :
      {prev : ℕ → ℕ} {top b n : ℕ} {blocks : List Block} {pages externals : List ℕ}
      → Stack prev top ((b, n) ∷ blocks) pages externals
      → LastBlock prev top b n blocks pages externals
  last (inner {t} {n} e mult fits s) =
      in_place (ap (page_of l.page_alignment) e ∙ page_of-inner t n fits) s
  last (outer mult at small pos out s) = outside-last s (omega arith) pos out
  last
        (page {p} {pages = ps} e start pos bound new apart leads deep
          (inner {t} {n} e' mult fits s)) =
      let (of, off) = in_page lay p header_size start (omega (arith, lay.room, lay.page_size_le)) in
      below refl e (ap (page_of l.page_alignment) e ∙ of) (ap (λ x. x % l.page_alignment) e ∙ off)
        (λ f.
          apart_from (page_of l.page_alignment t) p ps (page_of-TopOf t (Stack-TopOf lay s)) f pos
            new)
        (ap (page_of l.page_alignment) (leads ∙ e') ∙ page_of-inner t n fits) s
  last (page {p} e start pos bound new apart leads deep (outer {b} mult at small pos' out s)) =
      outside-last (page e start pos bound new (λ c i. apart c (ground arith)) leads deep s)
        (omega arith) pos'
        (let ne : page_of l.page_alignment b ≢ p = apart b (ground arith) in ground arith)
  last
        (page e start pos bound new apart leads deep
          (page {p} e' start' pos' bound' new' apart' leads' deep' s)) =
      let (of, off) =
        in_page lay p header_size start' (omega (arith, lay.room, lay.page_size_le)) in
      absurd (omega (arith, deep, off, ap (λ x. x % l.page_alignment) e'))

module _ ⦃l : LifoLayout⦄ (lay : IsLifoLayout l) {prev : ℕ → ℕ} where
  -- Where the last block is.
  pub last_bound :
      {top b n : ℕ} {blocks : List Block} {pages externals : List ℕ}
      → Stack prev top ((b, n) ∷ blocks) pages externals
      → b < 2 ^ 63
  last_bound (page e start pos bound new apart leads deep s) = last_bound s
  last_bound (inner e mult fits s) = TopOf-lt lay (Stack-TopOf lay s)
  last_bound (outer mult at small pos out s) = small
