-- ===== src/PageStack/Segment.antt =====
-- detail/page_stack.h: pages that are linked by their footers.
use density.Base.{false, true, ℕ, ◌≤◌, ◌<◌, ◌≡◌, refl, List, [], ◌∷◌, ◌++◌, count, arith, ◌==◌}
use density.Effects.{update}

-- From the page `a` the links lead over `pages` to `b`.
abbrev pub Segment : (next : ℕ → ℕ) → ℕ → List ℕ → ℕ → Type 0
Segment next a [] b = a ≡ b
Segment next a (p ∷ pages) b = (a ≡ p) × (0 < p) × Segment next (next p) pages b

-- No page occurs twice.
abbrev pub IsOnce : List ℕ → Type 0
IsOnce pages = (a : ℕ) → count a pages ≤ 1

-- Links of other pages do not matter.
pub Segment-frame :
    (next : ℕ → ℕ) (p v a b : ℕ) (pages : List ℕ)
    → count p pages ≡ 0
    → Segment next a pages b
    → Segment (update next p v) a pages b
Segment-frame next p v a b [] out s = s
Segment-frame next p v a b (q ∷ pages) out (e, pos, s) =
    let other : (q == p) ≡ false = ground arith in
    (e, pos, rw other (Segment-frame next p v (next q) b pages (ground arith) s))

pub Segment-append :
    (next : ℕ → ℕ) (a b c : ℕ) (xs ys : List ℕ)
    → Segment next a xs b
    → Segment next b ys c
    → Segment next a (xs ++ ys) c
Segment-append next a b c [] ys s t = rw s t
Segment-append next a b c (x ∷ xs) ys (e, pos, s) t =
    (e, pos, Segment-append next (next x) b c xs ys s t)

-- The last page of a segment is linked anew.
pub Segment-relink :
    (next : ℕ → ℕ) (a b v x : ℕ) (xs : List ℕ)
    → Segment next a (xs ++ x ∷ []) b
    → count x xs ≡ 0
    → Segment (update next x v) a (xs ++ x ∷ []) v
Segment-relink next a b v x [] (e, pos, s) out =
    let same : (x == x) ≡ true = ground arith in (e, pos, rw same)
Segment-relink next a b v x (y ∷ xs) (e, pos, s) out =
    let other : (y == x) ≡ false = ground arith in
    (e, pos, rw other (Segment-relink next (next y) b v x xs s (ground arith)))

-- A segment to the null pointer starts there if it is empty.
pub Segment-empty : (next : ℕ → ℕ) (pages : List ℕ) → Segment next 0 pages 0 → pages ≡ []
Segment-empty next [] s = refl
Segment-empty next (p ∷ pages) (e, pos, s) = absurd (omega arith)
