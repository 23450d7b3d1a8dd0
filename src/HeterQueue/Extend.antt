-- ===== src/HeterQueue/Extend.antt =====
-- heter_queue.h: how the chain grows at the tail, in its page or into a new one.
use density.Base.{refl}
use density.Base.{
  ℕ, ◌+◌, ◌%◌, ◌<◌, ◌≡◌, ◌≢◌, List, [], ◌∷◌, ◌++◌, arith, ◌==◌, ◌∈◌, ◌∉◌, ltb, if◌then◌else◌,
  Bool-cases, inl, inr,
}
use density.Align.Pages.{page_of}
use density.HeterQueue.State.{ExternalBlock}
use density.Effects.{update}
use density.HeterQueue.Chain.{live}
use density.HeterQueue.Invariant.{link, spine, external_blocks}

-- The page of every block of a chain, and that of the tail, is in the spine.
pub spine-has : (pa tail a : ℕ) (xs : List ℕ) → a ∈ xs → page_of pa a ∈ spine pa tail xs
spine-has pa tail a [] i = absurd (ground (arith, i))
spine-has pa tail a (p ∷ xs) i = elim (Bool-cases (a == p)) [
  | inl here ↦ let e : a ≡ p = ground arith in rw e (link-here (page_of pa p) (spine pa tail xs))
  | inr there ↦
      link-there (page_of pa p) (page_of pa a) (spine pa tail xs)
        (spine-has pa tail a xs (ground arith))
]
  where
    link-here : (a : ℕ) (ys : List ℕ) → a ∈ link a ys
    link-here a [] = ground arith
    link-here a (b ∷ ys) = ground arith

    link-there : (b a : ℕ) (ys : List ℕ) → a ∈ ys → a ∈ link b ys
    link-there b a [] j = ground arith
    link-there b a (c ∷ ys) j = ground arith

pub spine-tail : (pa tail : ℕ) (xs : List ℕ) → page_of pa tail ∈ spine pa tail xs
spine-tail pa tail [] = ground arith
spine-tail pa tail (p ∷ xs) =
    link-there (page_of pa p) (page_of pa tail) (spine pa tail xs) (spine-tail pa tail xs)
  where
    link-there : (b a : ℕ) (ys : List ℕ) → a ∈ ys → a ∈ link b ys
    link-there b a [] j = ground arith
    link-there b a (c ∷ ys) j = ground arith

-- A new tail in the page of the old one leaves the pages as they are.
pub spine-same :
    (pa tail tail' : ℕ) (xs : List ℕ)
    → page_of pa tail' ≡ page_of pa tail
    → spine pa tail' (xs ++ tail ∷ []) ≡ spine pa tail xs
spine-same pa tail tail' [] e = ground arith
spine-same pa tail tail' (p ∷ xs) e = rw (spine-same pa tail tail' xs e)

-- A new tail in another page adds this page at the end.
pub spine-new :
    (pa tail tail' : ℕ) (xs : List ℕ)
    → page_of pa tail' ≢ page_of pa tail
    → spine pa tail' (xs ++ tail ∷ []) ≡ spine pa tail xs ++ page_of pa tail' ∷ []
spine-new pa tail tail' [] ne = ground arith
spine-new pa tail tail' (p ∷ xs) ne = rw (spine-new pa tail tail' xs ne) (
    link-append (page_of pa p) (page_of pa tail) (spine pa tail xs) (page_of pa tail')
      (spine-tail pa tail xs))
  where
    link-append :
        (a c : ℕ) (ys : List ℕ) (z : ℕ) → c ∈ ys → link a (ys ++ z ∷ []) ≡ link a ys ++ z ∷ []
    link-append a c [] z i = absurd (ground (arith, i))
    link-append a c (b ∷ ys) z i = ground arith

-- A new block at the end of a chain: what it adds to the external blocks and to the live ones.
pub external_blocks-snoc :
    (next : ℕ → ℕ) (externals : ℕ → ExternalBlock) (p w : ℕ) (xs : List ℕ)
    → p ∉ xs
    → external_blocks (update next p w) externals (xs ++ p ∷ [])
      ≡ external_blocks next externals xs
        ++ (if ltb 3 (w % 8) then (externals p).m_element ∷ [] else [])
external_blocks-snoc next externals p w [] out = ground arith
external_blocks-snoc next externals p w (q ∷ xs) out =
    ground (arith, external_blocks-snoc next externals p w xs)

pub external_blocks-absent :
    (next : ℕ → ℕ) (externals : ℕ → ExternalBlock) (p w : ℕ) (xs : List ℕ)
    → p ∉ xs
    → external_blocks (update next p w) externals xs ≡ external_blocks next externals xs
external_blocks-absent next externals p w [] out = refl
external_blocks-absent next externals p w (q ∷ xs) out =
    ground (arith, external_blocks-absent next externals p w xs)

pub live-snoc :
    (next : ℕ → ℕ) (p w : ℕ) (xs : List ℕ)
    → p ∉ xs
    → live (update next p w) (xs ++ p ∷ []) ≡ live next xs ++ (if w % 4 == 0 then p ∷ [] else [])
live-snoc next p w [] out = ground arith
live-snoc next p w (q ∷ xs) out = ground (arith, live-snoc next p w xs)

-- A block that begins to lead to an external block.
pub attached_blocks :
    (next : ℕ → ℕ) (externals : ℕ → ExternalBlock) (p : ℕ) (block : ExternalBlock) (ys : List ℕ)
    → p ∉ ys
    → next p % 8 < 4
    → external_blocks (update next p (next p + 4)) (update externals p block) (ys ++ p ∷ [])
      ≡ external_blocks next externals (ys ++ p ∷ []) ++ block.m_element ∷ []
attached_blocks next externals p block [] out flag = ground arith
attached_blocks next externals p block (y ∷ ys) out flag =
    ground (arith, attached_blocks next externals p block ys)
