-- ===== src/HeterQueue/Walk.antt =====
-- heter_queue.h: what the walks over the control blocks find, given one unit of fuel for each block
-- and one more.
use density.Base.{
  ℕ, zero, suc, ◌%◌, ◌<◌, ◌≡◌, true, false, Option, none, some, List, [], ◌∷◌, arith, ◌==◌, length,
  Bool-cases, inl, inr,
}
use density.Align.{add_word}
use density.Allocator.{Allocator}
use density.HeterQueue.Layout.{Layout, next_block, queue_busy}
use density.HeterQueue.State.{Queue}
use density.Effects.{ok}
use density.HeterQueue.Put.{set_next}
use density.HeterQueue.Consume.{first_valid, consume_loop, release_block, clean_loop}
use density.HeterQueue.Words.{control_bits-eq, next_block-eq}
use density.HeterQueue.Chain.{Chain, nil, cons, live, dead_prefix, drop_dead, first_of}

-- The first of a list of blocks, as a pointer.
abbrev pub first_block : List ℕ → Option ℕ
first_block [] = none
first_block (p ∷ ps) = some p

module _ {A T V : Type 0} ⦃l : Layout⦄ ⦃al : Allocator A⦄ where
  pub first_valid-live :
      (fuel : ℕ) (s : Queue A T V) {p : ℕ} {xs : List ℕ}
      → Chain s.m_next s.m_tail p xs
      → length xs < fuel
      → first_valid fuel p s ≡ ok (first_block (live s.m_next xs)) s
  unfolding first_valid
  first_valid-live zero s c h = absurd (omega arith)
  first_valid-live (suc fuel) s {p} (nil e) h =
      let at_tail : (p == s.m_tail) ≡ true = ground arith in rw at_tail
  first_valid-live (suc fuel) s {p} (cons ne out small e c) h =
      let inside : (p == s.m_tail) ≡ false = ground arith in
      rw (inside, next_block-eq (s.m_next p) small, ← e, control_bits-eq (s.m_next p))
        (elim (Bool-cases (s.m_next p % 4 == 0)) [
          | inl ready ↦ rw ready
          | inr taken ↦ rw taken (first_valid-live fuel s c (omega arith))
        ])

  -- The state after the first live block has become busy.
  abbrev pub mark_first : List ℕ → Queue A T V → Queue A T V
  mark_first [] s = s
  mark_first (p ∷ ps) s = set_next p (add_word (s.m_next p) queue_busy) s

  pub consume_loop-live :
      (fuel : ℕ) (s : Queue A T V) {p : ℕ} {xs : List ℕ}
      → Chain s.m_next s.m_tail p xs
      → length xs < fuel
      → consume_loop fuel p s
        ≡ ok (first_block (live s.m_next xs)) (mark_first (live s.m_next xs) s)
  unfolding consume_loop
  consume_loop-live zero s c h = absurd (omega arith)
  consume_loop-live (suc fuel) s {p} (nil e) h =
      let at_tail : (p == s.m_tail) ≡ true = ground arith in rw at_tail
  consume_loop-live (suc fuel) s {p} (cons ne out small e c) h =
      let inside : (p == s.m_tail) ≡ false = ground arith in
      rw (inside, next_block-eq (s.m_next p) small, ← e, control_bits-eq (s.m_next p))
        (elim (Bool-cases (s.m_next p % 4 == 0)) [
          | inl ready ↦ rw ready
          | inr taken ↦ rw taken (consume_loop-live fuel s c (omega arith))
        ])

  -- What cleaning gives back for a run of dead blocks.
  unfoldable pub released : List ℕ → Queue A T V → Queue A T V
  unfolding release_block next_block
  released [] s = s
  released (p ∷ ps) s = released ps (release_block p (next_block (s.m_next p)) s)

  abbrev pub with_head : ℕ → Queue A T V → Queue A T V
  with_head p s = record s { m_head = p }

  pub clean_loop-dead :
      (fuel : ℕ) (s : Queue A T V) {p : ℕ} {xs : List ℕ}
      → Chain s.m_next s.m_tail p xs
      → length xs < fuel
      → clean_loop fuel p s
        ≡ ok tt (
            with_head
              (first_of s.m_tail (drop_dead s.m_next xs))
              (released (dead_prefix s.m_next xs) s))
  unfolding clean_loop released
  clean_loop-dead zero s c h = absurd (omega arith)
  clean_loop-dead (suc fuel) s {p} (nil e) h =
      let at_tail : (p == s.m_tail) ≡ true = ground arith in rw (at_tail, e)
  clean_loop-dead (suc fuel) s {p} (cons {xs = rest} ne out small e c) h =
      let inside : (p == s.m_tail) ≡ false = ground arith in
      rw (inside, control_bits-eq (s.m_next p))
        (elim (Bool-cases (s.m_next p % 4 == 2)) [
          | inl dead ↦ rw dead (clean_loop-dead fuel (release_block p _ s) c' (omega arith))
          | inr kept ↦ rw kept
        ])
    where
      c' : Chain s.m_next s.m_tail (next_block (s.m_next p)) rest
      c' = rw (next_block-eq (s.m_next p) small, ← e) c
