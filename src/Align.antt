-- ===== src/Align.antt =====
-- include/density/density_common.h: powers of two and alignment of integers and addresses.
-- An address or a size_t is a number below 2 ^ 64; `~` is taken in 64 bits, sums and differences
-- wrap as the machine's do.
pub mod Bits
pub mod Rounding
pub mod Pages
pub mod Multiples
use density.Base.{ℕ, ◌+◌, ◌-◌, ◌%◌, ◌^◌, bit_and, bit_xor, Bool, ◌==◌}

abbrev pub word_mod : ℕ
word_mod = 2 ^ 64

abbrev pub add_word : ℕ → ℕ → ℕ
add_word a b = (a + b) % word_mod

abbrev pub sub_word : ℕ → ℕ → ℕ
sub_word a b = (a + word_mod - b) % word_mod

-- `~x`
abbrev pub bit_not : ℕ → ℕ
bit_not x = word_mod - 1 - x

unfoldable pub is_power_of_2 : ℕ → Bool
is_power_of_2 i_number = bit_and i_number (sub_word i_number 1) == 0

unfoldable pub uint_is_aligned : ℕ → ℕ → Bool
uint_is_aligned i_uint i_alignment = bit_and i_uint (sub_word i_alignment 1) == 0

unfoldable pub uint_lower_align : ℕ → ℕ → ℕ
uint_lower_align i_uint i_alignment = bit_and i_uint (bit_not (sub_word i_alignment 1))

unfoldable pub uint_upper_align : ℕ → ℕ → ℕ
uint_upper_align i_uint i_alignment =
    bit_and (add_word i_uint (sub_word i_alignment 1)) (bit_not (sub_word i_alignment 1))

-- `same_page` of heter_queue.h, lifo.h and lf_queue_base.h, over the page alignment.
unfoldable pub same_page : ℕ → ℕ → ℕ → Bool
same_page page_alignment i_first i_second =
    bit_and (bit_xor i_first i_second) (bit_not (sub_word page_alignment 1)) == 0
