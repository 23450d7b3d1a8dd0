-- ===== src/Blocks/Operations.antt =====
-- density_common.h: aligned_allocate, try_aligned_allocate and aligned_deallocate.
use density.Base.{ℕ, Bool, Option, none, some, not, ◌&&◌, leb, ◌==◌, if◌then◌else◌}
use density.Align.{add_word, sub_word, uint_lower_align}
use density.Effects.{update, M, ok, throw}
use density.HeterQueue.Layout.{size_max}

-- The operators of the system on a state `A`, and the alignment that they give to all blocks. `none` is
-- std::bad_alloc, or null from the operator that does not throw.
pub record NewDelete (A : Type 0) : Type 0 where
  pub max_alignment : ℕ
  pub operator_new : (size : ℕ) → A → Option (ℕ × A)
  pub operator_delete : (address size : ℕ) → A → A

-- The state of the operators, and the member `m_block` of each header.
pub record Memory (A : Type 0) : Type 0 where
  pub system : A
  pub m_block : ℕ → ℕ

-- `address_lower_align` with an offset.
unfoldable pub address_lower_align : (i_address i_alignment i_alignment_offset : ℕ) → ℕ
unfolding uint_lower_align
address_lower_align i_address i_alignment i_alignment_offset =
    sub_word (uint_lower_align (add_word i_address i_alignment_offset) i_alignment)
      i_alignment_offset

-- The address of the header of a block.
abbrev pub header_of : (user_block : ℕ) → ℕ
header_of user_block = sub_word user_block 8

unfoldable pub extra_size : (i_alignment : ℕ) → ℕ
unfolding size_max
extra_size i_alignment = size_max i_alignment 8

-- Whether operator new gives the block as it is.
abbrev pub is_plain : (max_alignment i_alignment i_alignment_offset : ℕ) → Bool
is_plain max_alignment i_alignment i_alignment_offset =
    leb i_alignment max_alignment && (i_alignment_offset == 0)

-- The block in a larger one.
abbrev pub user_block : (complete_block i_alignment i_alignment_offset : ℕ) → ℕ
user_block complete_block i_alignment i_alignment_offset =
    address_lower_align (add_word complete_block (extra_size i_alignment)) i_alignment
      i_alignment_offset

module _ {A : Type 0} ⦃nd : NewDelete A⦄ where
  abbrev pub with_header :
      (complete_block i_alignment i_alignment_offset : ℕ) → A → Memory A → Memory A
  with_header complete_block i_alignment i_alignment_offset b s = record {
    system = b;
    m_block =
        update s.m_block (header_of (user_block complete_block i_alignment i_alignment_offset))
          complete_block;
  }

  unfoldable pub aligned_allocate : (i_size i_alignment i_alignment_offset : ℕ) → M (Memory A) ℕ
  unfolding address_lower_align extra_size
  aligned_allocate i_size i_alignment i_alignment_offset s =
      if is_plain nd.max_alignment i_alignment i_alignment_offset
      then elim (nd.operator_new i_size s.system) [
        | none ↦ throw s
        | some (block, b) ↦ ok block (record s { system = b })
      ]
      else elim (nd.operator_new (add_word i_size (extra_size i_alignment)) s.system) [
        | none ↦ throw s
        | some (complete_block, b) ↦
            ok (user_block complete_block i_alignment i_alignment_offset)
              (with_header complete_block i_alignment i_alignment_offset b s)
      ]

  unfoldable pub try_aligned_allocate : (i_size i_alignment i_alignment_offset : ℕ) → M (Memory A) ℕ
  unfolding address_lower_align extra_size
  try_aligned_allocate i_size i_alignment i_alignment_offset s =
      if is_plain nd.max_alignment i_alignment i_alignment_offset
      then elim (nd.operator_new i_size s.system) [
        | none ↦ ok 0 s
        | some (block, b) ↦ ok block (record s { system = b })
      ]
      else elim (nd.operator_new (add_word i_size (extra_size i_alignment)) s.system) [
        | none ↦ ok 0 s
        | some (complete_block, b) ↦
            ok (user_block complete_block i_alignment i_alignment_offset)
              (with_header complete_block i_alignment i_alignment_offset b s)
      ]

  unfoldable pub aligned_deallocate :
      (i_block i_size i_alignment i_alignment_offset : ℕ) → Memory A → Memory A
  unfolding extra_size
  aligned_deallocate i_block i_size i_alignment i_alignment_offset s =
      if is_plain nd.max_alignment i_alignment i_alignment_offset
      then record s { system = nd.operator_delete i_block i_size s.system }
      else if not (i_block == 0)
      then record s {
        system =
            nd.operator_delete (s.m_block (header_of i_block))
              (add_word i_size (extra_size i_alignment)) s.system;
      }
      else s
