-- ===== src/HeterQueue/Words.antt =====
-- heter_queue.h: the word of a control block, a pointer with three flags, as arithmetic.
use density.Base.{ℕ, ◌+◌, ◌*◌, ◌/◌, ◌%◌, ◌<◌, ◌≡◌, refl, bit_and, bit_or, ltb, arith}
use density.Align.{word_mod}
use density.Align.Bits.{bit_and-digit, bit_or-digit, bit_or-zero, bit_and-low_mask}
use density.Align.Rounding.{IsAlignment, high_mask-eq}
use density.HeterQueue.Layout.{control_bits, is_external, next_block, queue_external}

pub eight-IsAlignment : IsAlignment 8
eight-IsAlignment = record { exponent = 3; fits = omega arith; power = refl }

pub control_bits-eq : (w : ℕ) → control_bits w ≡ w % 4
unfolding control_bits
control_bits-eq w = bit_and-low_mask 2 w

pub next_block-eq : (w : ℕ) → w < word_mod → next_block w ≡ w / 8 * 8
unfolding next_block
next_block-eq w h = high_mask-eq eight-IsAlignment w h

external_bit : (w : ℕ) → bit_and w 4 ≡ w / 2 / 2 % 2 * 4
external_bit w =
    omega (arith, bit_and-digit w 4, bit_and-digit (w / 2) 2, bit_and-low_mask 1 (w / 2 / 2))

pub is_external-eq : (w : ℕ) → is_external w ≡ ltb 3 (w % 8)
unfolding is_external
is_external-eq w = ground (arith, external_bit w)

-- `m_next |= Queue_External` on a word without that flag.
pub set_external-eq : (w : ℕ) → w % 8 < 4 → bit_or w queue_external ≡ w + 4
set_external-eq w h = omega (
  arith,
  bit_or-digit w 4,
  bit_or-digit (w / 2) 2,
  bit_or-digit (w / 2 / 2) 1,
  bit_or-zero (w / 2 / 2 / 2),
)
