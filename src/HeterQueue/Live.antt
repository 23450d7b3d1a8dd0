-- ===== src/HeterQueue/Live.antt =====
-- heter_queue.h: which blocks of a chain are live after a change of one word, and after cleaning.
use density.Base.{
  ◌≤◌, length, ◌++◌, ℕ, ◌%◌, ◌<◌, ◌≡◌, refl, List, [], ◌∷◌, ◌==◌, ltb, ◌∈◌, ◌∉◌, arith, Bool-cases,
  inl, inr,
}
use density.Align.{word_mod, add_word}
use density.HeterQueue.Layout.{queue_busy}
use density.HeterQueue.State.{ExternalBlock}
use density.Effects.{update}
use density.HeterQueue.Chain.{Chain, nil, cons, live, drop_dead}
use density.HeterQueue.Invariant.{external_blocks}

-- A change of the flags of one block leaves the external blocks as they are.
pub external_blocks-update :
    (next : ℕ → ℕ) (externals : ℕ → ExternalBlock) (p w : ℕ) (xs : List ℕ)
    → ltb 3 (w % 8) ≡ ltb 3 (next p % 8)
    → external_blocks (update next p w) externals xs ≡ external_blocks next externals xs
external_blocks-update next externals p w [] e = refl
external_blocks-update next externals p w (q ∷ xs) e =
    ground (arith, external_blocks-update next externals p w xs e)

-- Words that make no block live: the live blocks are those before, without `p`.
pub live-same :
    (next : ℕ → ℕ) (p w : ℕ) (xs : List ℕ)
    → (w % 4 == 0) ≡ (next p % 4 == 0)
    → live (update next p w) xs ≡ live next xs
live-same next p w [] e = refl
live-same next p w (q ∷ xs) e = ground (arith, live-same next p w xs e)

pub live-absent :
    (next : ℕ → ℕ) (p w : ℕ) (xs : List ℕ) → p ∉ xs → live (update next p w) xs ≡ live next xs
live-absent next p w [] out = refl
live-absent next p w (q ∷ xs) out = ground (arith, live-absent next p w xs)

-- Cleaning drops dead blocks only.
pub live-drop_dead : (next : ℕ → ℕ) (xs : List ℕ) → live next (drop_dead next xs) ≡ live next xs
live-drop_dead next [] = refl
live-drop_dead next (p ∷ xs) = ground (arith, live-drop_dead next xs)

pub mem-drop_dead : (next : ℕ → ℕ) (a : ℕ) (xs : List ℕ) → a ∈ drop_dead next xs → a ∈ xs
mem-drop_dead next a [] i = i
mem-drop_dead next a (p ∷ xs) i = ground (arith, mem-drop_dead next a xs)

-- When the first live block becomes busy, the others stay.
pub live-mark :
    {next : ℕ → ℕ} {tail h : ℕ} (p : ℕ) (ps : List ℕ) {xs : List ℕ}
    → Chain next tail h xs
    → live next xs ≡ p ∷ ps
    → (live (update next p (add_word (next p) queue_busy)) xs ≡ ps)
      × (p ∈ xs)
      × (next p % 4 ≡ 0)
      × (next p < word_mod)
live-mark p ps (nil e) f = cc
live-mark {next} p ps (cons {p = q} {xs = rest} ne out small e c) f =
    elim (Bool-cases (next q % 4 == 0)) [
      | inl ready ↦ ground (arith, live-absent next p (add_word (next p) queue_busy) rest)
      | inr taken ↦ ground (arith, live-mark p ps c)
    ]

-- A busy block that becomes ready is live in its place.
pub live-unmark :
    {next : ℕ → ℕ} {tail h : ℕ} (p w : ℕ) {xs : List ℕ}
    → Chain next tail h xs
    → p ∈ xs
    → next p % 4 ≡ 1
    → w % 4 ≡ 0
    → (ys zs : List ℕ) × (xs ≡ ys ++ p ∷ zs)
      × (live next xs ≡ live next ys ++ live next zs)
      × (live (update next p w) xs ≡ live next ys ++ p ∷ live next zs)
live-unmark p w (nil e) i busy ready = cc
live-unmark {next} p w (cons {p = q} {xs = rest} ne out small e c) i busy ready =
    elim (Bool-cases (p == q)) [
      | inl here ↦ ([], rest, ground arith, ground arith, ground (arith, live-absent next p w rest))
      | inr there ↦
          let (ys, zs, split, before, after) = live-unmark p w c (ground arith) busy ready in
          (q ∷ ys, zs, ground arith, ground arith, ground arith)
    ]

pub length-drop_dead : (next : ℕ → ℕ) (xs : List ℕ) → length (drop_dead next xs) ≤ length xs
length-drop_dead next [] = omega arith
length-drop_dead next (p ∷ xs) = ground (arith, length-drop_dead next xs)

pub length-live : (next : ℕ → ℕ) (xs : List ℕ) → length (live next xs) ≤ length xs
length-live next [] = omega arith
length-live next (p ∷ xs) = ground (arith, length-live next xs)
