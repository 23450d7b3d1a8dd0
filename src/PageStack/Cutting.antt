-- ===== src/PageStack/Cutting.antt =====
-- detail/page_stack.h: `truncate_to`, `clear` and the moves.
use density.Base.{ℕ, ◌≡◌, refl, inl, List, [], ◌∷◌, ◌++◌, count-append, arith}
use density.PageStack.Operations.{Footers, PageStack, truncate_to, clear, move, move_assign}
use density.PageStack.Segment.{Segment}
use density.PageStack.Sequential.{IsPages}

-- The end of a segment, from a page in it.
from_page :
    (next : ℕ → ℕ) (a b p : ℕ) (xs ys : List ℕ)
    → Segment next a (xs ++ p ∷ ys) b
    → Segment next p (p ∷ ys) b
from_page next a b p [] ys (e, pos, s) = (refl, pos, s)
from_page next a b p (x ∷ xs) ys (e, pos, s) = from_page next (next x) b p xs ys s

-- A stack without pages, on any footers.
null-IsPages : (m : Footers) (s : PageStack) → s.m_first ≡ 0 → s.m_cached_last ≡ 0 → IsPages m s []
null-IsPages m s e f = record { linked = e; once = λ a. omega arith; cached = inl f }

-- `truncate_to` a page of the stack leaves that page and those below it, `clear` leaves no page, and a
-- move construction or assignment to an empty stack hands over all pages and leaves none in the source.
pub truncate_to-IsPages :
    (m : Footers) (s t : PageStack) (p : ℕ) (xs ys : List ℕ)
    → IsPages m s (xs ++ p ∷ ys)
    → IsPages m t []
    → IsPages m (truncate_to p s) (p ∷ ys)
      × IsPages m (clear s) []
      × (IsPages m (move s).0 (xs ++ p ∷ ys) × IsPages m (move s).1 [])
      × (IsPages m (move_assign s t).0 (xs ++ p ∷ ys) × IsPages m (move_assign s t).1 [])
unfolding truncate_to clear move move_assign
truncate_to-IsPages m s t p xs ys i j = (
  record {
    linked = from_page m.m_next_page s.m_first 0 p xs ys i.linked;
    once = λ a. omega (arith, i.once a, count-append a xs (p ∷ ys));
    cached = inl refl;
  },
  null-IsPages m (clear s) refl refl,
  (i, null-IsPages m (move s).1 refl refl),
  (i, j),
)
