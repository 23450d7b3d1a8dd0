-- ===== src/PageAllocator/Sums.antt =====
-- Sums over slots, and the length of a list by how often its elements occur.
use density.Base.{
  ℕ, zero, suc, ◌+◌, ◌≤◌, ◌<◌, ◌≡◌, ◌≢◌, refl, sym, ap, List, [], ◌∷◌, length, count, arith,
  Bool-cases, inl, inr, ◌==◌, if◌then◌else◌,
}

abbrev pub sum : ℕ → (ℕ → ℕ) → ℕ
sum zero f = 0
sum (suc n) f = f n + sum n f

pub sum-ext : (n : ℕ) (f g : ℕ → ℕ) → ((j : ℕ) → j < n → f j ≡ g j) → sum n f ≡ sum n g
sum-ext zero f g same = refl
sum-ext (suc n) f g same =
    omega (arith, same n (omega arith), sum-ext n f g (λ j lt. same j (omega arith)))

-- One summand is another one.
pub sum_update :
    (n i v : ℕ) (f g : ℕ → ℕ)
    → i < n
    → g i ≡ v
    → ((j : ℕ) → j ≢ i → g j ≡ f j)
    → sum n g + f i ≡ sum n f + v
sum_update zero i v f g lt at same = absurd (omega arith)
sum_update (suc n) i v f g lt at same = elim (Bool-cases (n == i)) [
  | inl here ↦
      let e : n ≡ i = ground arith in
      let rest = sum-ext n f g (λ j less. sym (same j (λ h. absurd (omega (arith, h, e, less))))) in
      let f_at : f n ≡ f i = ap f e in
      let g_at : g n ≡ g i = ap g e in omega (arith, rest, at, f_at, g_at)
  | inr there ↦
      let ne : n ≢ i = ground arith in
      omega (arith, same n ne, sum_update n i v f g (omega arith) at same)
]

pub sum-le : (n j : ℕ) (f : ℕ → ℕ) → j < n → f j ≤ sum n f
sum-le zero j f lt = absurd (omega arith)
sum-le (suc n) j f lt = elim (Bool-cases (n == j)) [
  | inl here ↦ let e : n ≡ j = ground arith in let at : f n ≡ f j = ap f e in omega (arith, at)
  | inr there ↦ let ne : n ≢ j = ground arith in omega (arith, sum-le n j f (omega arith))
]

-- Two summands.
pub sum_two : (n i j : ℕ) (f : ℕ → ℕ) → i < n → j < n → i ≢ j → f i + f j ≤ sum n f
sum_two zero i j f lt lt' ne = absurd (omega arith)
sum_two (suc n) i j f lt lt' ne = elim (Bool-cases (n == i)) [
  | inl at_i ↦
      let e : n ≡ i = ground arith in
      let at : f n ≡ f i = ap f e in omega (arith, at, sum-le n j f (omega (arith, e, ne)))
  | inr not_i ↦ elim (Bool-cases (n == j)) [
    | inl at_j ↦
        let e : n ≡ j = ground arith in
        let at : f n ≡ f j = ap f e in omega (arith, at, sum-le n i f (omega (arith, e, ne)))
    | inr not_j ↦
        let less : i < n = ground arith in
        let less' : j < n = ground arith in omega (arith, sum_two n i j f less less' ne)
  ]
]

abbrev remove_one : ℕ → List ℕ → List ℕ
remove_one a [] = []
remove_one a (x ∷ xs) = if a == x then xs else x ∷ remove_one a xs

count-remove_one :
    (a b : ℕ) (xs : List ℕ)
    → 0 < count a xs
    → (count b (remove_one a xs) + (if b == a then 1 else 0) ≡ count b xs)
      × (length (remove_one a xs) + 1 ≡ length xs)
count-remove_one a b [] pos = absurd (omega arith)
count-remove_one a b (x ∷ xs) pos = ground (arith, pos, count-remove_one a b xs)

-- A list without more occurrences is not longer.
pub length_by_count : (xs ys : List ℕ) → ((a : ℕ) → count a xs ≤ count a ys) → length xs ≤ length ys
length_by_count [] ys most = omega arith
length_by_count (x ∷ xs) ys most =
    let pos : 0 < count x ys = ground (arith, most x) in
    omega (
      arith,
      count-remove_one x x ys pos,
      length_by_count xs (remove_one x ys)
          (λ a. ground (arith, most a, count-remove_one x a ys pos)),
    )
