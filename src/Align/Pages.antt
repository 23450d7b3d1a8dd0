-- ===== src/Align/Pages.antt =====
-- heter_queue.h and lifo.h: the page that an address lies in.
use native.Mathlib.Nat.{div-eq_of_lt-le}
use density.Base.{ℕ, ◌+◌, ◌*◌, ◌/◌, ◌≤◌, ◌<◌, ◌≡◌, ap, ◌==◌, arith}
use density.Align.{word_mod, same_page}
use density.Align.Rounding.{IsAlignment, same_page_iff, IsAlignment-bounds}

-- The start of the page that holds an address.
abbrev pub page_of : ℕ → ℕ → ℕ
page_of page_alignment a = a / page_alignment * page_alignment

-- The page of an address that is less than a page behind the start of a page.
pub page_of-between :
    (pa c x : ℕ) → page_of pa c ≤ x → x < page_of pa c + pa → page_of pa x ≡ page_of pa c
page_of-between pa c x lo hi = ap (λ (t : ℕ). t * pa) (div-eq_of_lt-le pa lo (omega arith))

cancel : (a m n : ℕ) → 0 < a → m * a ≡ n * a → m ≡ n
cancel a m n h e = grind arith

-- Whether two addresses lie in one page, as a test of their pages.
pub same_page-eq :
    {pa : ℕ} (v : IsAlignment pa) (x y : ℕ)
    → x < word_mod
    → y < word_mod
    → same_page pa x y ≡ (page_of pa y == page_of pa x)
same_page-eq {pa} v x y hx hy = ground (
  arith,
  (same_page_iff v x y hx hy).0,
  (same_page_iff v x y hx hy).1,
  cancel pa (y / pa) (x / pa) (IsAlignment-bounds v).0,
  λ (e : x / pa ≡ y / pa). ap (λ (t : ℕ). t * pa) e,
)
