-- ===== src/HeterQueue/Layout.antt =====
-- heter_queue.h: the flags of a control block, the sizes of what lies in a page, and the addresses
-- computed from that of a control block.
use density.Base.{ℕ, ◌+◌, ◌-◌, ◌*◌, ◌%◌, ◌^◌, ◌≤◌, ◌≡◌, bit_and, Bool, ltb, if◌then◌else◌}
use density.Align.{add_word, sub_word, bit_not, uint_lower_align, uint_upper_align}
use density.Align.Rounding.{IsAlignment}

-- `Queue_Flags`
abbrev pub queue_busy : ℕ
queue_busy = 1

abbrev pub queue_dead : ℕ
queue_dead = 2

abbrev pub queue_external : ℕ
queue_external = 4

abbrev pub queue_all_flags : ℕ
queue_all_flags = 7

-- `m_next & (Queue_Busy | Queue_Dead)`, `m_next & Queue_External`, `m_next & ~Queue_AllFlags`
unfoldable pub control_bits : ℕ → ℕ
control_bits m_next = bit_and m_next 3

unfoldable pub is_external : ℕ → Bool
is_external m_next = ltb 0 (bit_and m_next queue_external)

unfoldable pub next_block : ℕ → ℕ
next_block m_next = bit_and m_next (bit_not queue_all_flags)

unfoldable pub size_max : ℕ → ℕ → ℕ
size_max i_first i_second = if ltb i_second i_first then i_first else i_second

-- The constants that the template arguments fix. A pointer takes 8 bytes.
pub record Layout : Type 0 where
  pub page_alignment : ℕ
  pub page_size : ℕ
  pub alignof_runtime_type : ℕ
  pub sizeof_runtime_type : ℕ

abbrev pub pointer_size : ℕ
pointer_size = 8

-- `sizeof(ExternalBlock)`: a pointer and two sizes.
abbrev pub sizeof_external_block : ℕ
sizeof_external_block = 24

module _ ⦃l : Layout⦄ where
  unfoldable pub min_alignment : ℕ
  unfolding size_max
  min_alignment = size_max (size_max (queue_all_flags + 1) pointer_size) l.alignof_runtime_type

  -- `s_sizeof_ControlBlock` and `s_sizeof_RuntimeType`
  unfoldable pub control_size : ℕ
  control_size = uint_upper_align pointer_size min_alignment

  unfoldable pub type_size : ℕ
  type_size = uint_upper_align l.sizeof_runtime_type min_alignment

  unfoldable pub s_max_size_inpage : ℕ
  s_max_size_inpage = sub_word (sub_word (sub_word l.page_size control_size) type_size) control_size

  unfoldable pub s_invalid_control_block : ℕ
  s_invalid_control_block = l.page_size - 1

  unfoldable pub get_end_of_page : ℕ → ℕ
  get_end_of_page i_address =
      add_word (uint_lower_align i_address l.page_alignment) (sub_word l.page_size control_size)

  -- `type_after_control`
  unfoldable pub type_after_control : ℕ → ℕ
  type_after_control i_control = add_word i_control control_size

  -- `get_element`, given the alignment of the type and the pointer of the ExternalBlock.
  unfoldable pub get_element : (i_control m_next alignment m_element : ℕ) → ℕ
  get_element i_control m_next alignment m_element =
      let result = add_word i_control (control_size + type_size) in
      if is_external m_next then m_element else uint_upper_align result alignment

  -- The head of `inplace_allocate`: requests below the minimum alignment are raised to it.
  unfoldable pub raise_request : (i_size i_alignment : ℕ) → ℕ × ℕ
  raise_request i_size i_alignment =
      if ltb i_alignment min_alignment
      then (uint_upper_align i_size min_alignment, min_alignment)
      else (i_size, i_alignment)

-- The static assertions of the class. `room` is stronger than the code's: a page must hold, behind
-- the runtime type, the block that stands for an external element.
pub record IsLayout (l : Layout) : Type 0 where
  pub page : IsAlignment l.page_alignment
  pub page_half : l.page_alignment ≤ 2 ^ 32
  pub runtime : IsAlignment l.alignof_runtime_type
  pub page_size_le : l.page_size ≤ l.page_alignment
  pub page_multiple : l.page_alignment % min_alignment ⦃l = l⦄ ≡ 0
  pub runtime_size : l.sizeof_runtime_type ≤ 2 ^ 32
  pub room :
      control_size ⦃l = l⦄
        + type_size ⦃l = l⦄
        + control_size ⦃l = l⦄
        + 2 * min_alignment ⦃l = l⦄
        + sizeof_external_block
      ≤ l.page_size
