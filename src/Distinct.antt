-- ===== src/Distinct.antt =====
-- Lists of addresses without repetition.
use density.Base.{
  ℕ, ◌≡◌, refl, true, List, [], ◌∷◌, ◌++◌, ◌==◌, has, has-append, ◌∉◌, ◌∈◌, if◌then◌else◌, arith,
}

abbrev pub AllDistinct : List ℕ → Type 0
AllDistinct [] = Unit {0}
AllDistinct (a ∷ r) = (a ∉ r) × AllDistinct r

pub AllDistinct-snoc : (ys : List ℕ) (z : ℕ) → AllDistinct ys → z ∉ ys → AllDistinct (ys ++ z ∷ [])
AllDistinct-snoc [] z d out = (refl, tt)
AllDistinct-snoc (y ∷ ys) z (out', d) out =
    (ground (arith, has-append y ys (z ∷ [])), AllDistinct-snoc ys z d (ground arith))

-- An element in the middle.
pub has-insert :
    (a b : ℕ) (xs ys : List ℕ) → has a (xs ++ b ∷ ys) ≡ (if a == b then true else has a (xs ++ ys))
has-insert a b [] ys = ground arith
has-insert a b (x ∷ xs) ys = ground (arith, has-insert a b xs ys)

pub AllDistinct-insert :
    (b : ℕ) (xs ys : List ℕ) → AllDistinct (xs ++ ys) → b ∉ (xs ++ ys) → AllDistinct (xs ++ b ∷ ys)
AllDistinct-insert b [] ys d out = (out, d)
AllDistinct-insert b (x ∷ xs) ys (new, d) out =
    (ground (arith, has-insert x b xs ys), AllDistinct-insert b xs ys d (ground arith))

pub absent-right : (a : ℕ) (xs ys : List ℕ) → a ∉ (xs ++ ys) → a ∉ ys
absent-right a [] ys out = out
absent-right a (x ∷ xs) ys out = absent-right a xs ys (ground arith)

pub present-right : (a : ℕ) (xs ys : List ℕ) → a ∈ ys → a ∈ (xs ++ ys)
present-right a [] ys i = i
present-right a (x ∷ xs) ys i = ground (arith, present-right a xs ys i)
