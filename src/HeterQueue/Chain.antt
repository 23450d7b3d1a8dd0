-- ===== src/HeterQueue/Chain.antt =====
-- heter_queue.h: the list of control blocks from the head of a queue to its tail, and what of it is
-- visible to a consumer.
use density.Base.{
  ℕ, ◌*◌, ◌/◌, ◌%◌, ◌<◌, ◌≡◌, ◌≢◌, refl, sym, List, [], ◌∷◌, ◌++◌, arith, ◌==◌, if◌then◌else◌, ◌∈◌,
  ◌∉◌, has-append, Bool-cases, inl, inr,
}
use density.Align.{word_mod}
use density.Effects.{update}

-- From `p` the words lead through the distinct control blocks `xs` to the tail.
pub data Chain (next : ℕ → ℕ) (tail : ℕ) : ℕ → List ℕ → Type 0 where
  nil : {p : ℕ} → p ≡ tail → Chain next tail p []
  cons :
      {p q : ℕ} {xs : List ℕ}
      → p ≢ tail
      → p ∉ xs
      → next p < word_mod
      → q ≡ next p / 8 * 8
      → Chain next tail q xs
      → Chain next tail p (p ∷ xs)

-- The blocks that are neither busy nor dead.
abbrev pub live : (ℕ → ℕ) → List ℕ → List ℕ
live next [] = []
live next (p ∷ xs) = if next p % 4 == 0 then p ∷ live next xs else live next xs

-- The dead blocks at the front, and what is left behind them.
abbrev pub dead_prefix : (ℕ → ℕ) → List ℕ → List ℕ
dead_prefix next [] = []
dead_prefix next (p ∷ xs) = if next p % 4 == 2 then p ∷ dead_prefix next xs else []

abbrev pub drop_dead : (ℕ → ℕ) → List ℕ → List ℕ
drop_dead next [] = []
drop_dead next (p ∷ xs) = if next p % 4 == 2 then drop_dead next xs else p ∷ xs

abbrev pub first_of : ℕ → List ℕ → ℕ
first_of tail [] = tail
first_of tail (p ∷ xs) = p

module _ {next : ℕ → ℕ} {tail : ℕ} where
  -- Words that lead to the same blocks make the same chain.
  pub Chain-frame :
      (next' : ℕ → ℕ) {p : ℕ} {xs : List ℕ}
      → Chain next tail p xs
      → ((a : ℕ) → a ∈ xs → (next' a < word_mod) × (next' a / 8 ≡ next a / 8))
      → Chain next' tail p xs
  Chain-frame next' (nil e) same = nil e
  Chain-frame next' (cons {p} ne out small e c) same =
      let (small', e') = same p (ground arith) in
      cons ne out small' (omega arith) (Chain-frame next' c (λ a i. same a (ground arith)))

  pub Chain-small :
      {p : ℕ} {xs : List ℕ} (a : ℕ) → Chain next tail p xs → a ∈ xs → next a < word_mod
  Chain-small a (nil e) i = cc
  Chain-small a (cons {p} {xs = rest} ne out small e c) i = elim (Bool-cases (a == p)) [
    | inl hit ↦ ground arith
    | inr miss ↦ Chain-small a c (ground arith)
  ]

  pub Chain-update :
      {p : ℕ} {xs : List ℕ} (a w : ℕ)
      → Chain next tail p xs
      → w < word_mod
      → w / 8 ≡ next a / 8
      → Chain (update next a w) tail p xs
  Chain-update a w c small e =
      Chain-frame (update next a w) c λ b i. ground (arith, Chain-small b c i)

  pub first_of-Chain : {p : ℕ} {xs : List ℕ} → Chain next tail p xs → first_of tail xs ≡ p
  first_of-Chain (nil e) = sym e
  first_of-Chain (cons ne out small e c) = refl

  pub Chain-drop_dead :
      {p : ℕ} {xs : List ℕ}
      → Chain next tail p xs
      → Chain next tail (first_of tail (drop_dead next xs)) (drop_dead next xs)
  Chain-drop_dead (nil e) = nil refl
  Chain-drop_dead (cons {p} {xs = rest} ne out small e c) = elim (Bool-cases (next p % 4 == 2)) [
    | inl dead ↦ rw dead (Chain-drop_dead c)
    | inr alive ↦ rw alive (cons ne out small e c)
  ]

  -- A chain is extended at its tail.
  pub Chain-snoc :
      {p : ℕ} {xs : List ℕ} (w tail' : ℕ)
      → Chain next tail p xs
      → tail ∉ xs
      → w < word_mod
      → w / 8 * 8 ≡ tail'
      → tail' ∉ xs
      → tail' ≢ tail
      → Chain (update next tail w) tail' p (xs ++ tail ∷ [])
  Chain-snoc w tail' (nil e') out small e out' ne =
      rw e' (cons (ground arith) refl (ground arith) (ground arith) (nil refl))
  Chain-snoc w tail' (cons {p} {xs = rest} ne' notin small' e' c) out small e out' ne =
      cons (ground arith) (rw (has-append p rest (tail ∷ [])) (ground arith)) (ground arith)
        (ground arith) (Chain-snoc w tail' c (ground arith) small e (ground arith) ne)
