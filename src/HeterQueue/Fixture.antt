-- ===== src/HeterQueue/Fixture.antt =====
-- A concrete layout, runtime type and queue, on which the theorems about heter_queue.h are
-- applied.
use density.Base.{ℕ, refl, none, some, List, [], ◌∷◌, arith, ◌==◌, if◌then◌else◌}
use density.Align.{uint_upper_align}
use density.Heap.{Heap, counting, counting-IsAllocator, owns_page-counting, owns_block-counting}
use density.HeterQueue.Layout.{Layout, IsLayout, min_alignment, control_size, type_size, size_max}
use density.HeterQueue.State.{Queue}
use density.HeterQueue.Put.{RuntimeType}
use density.HeterQueue.Chain.{nil, cons}
use density.HeterQueue.Invariant.{IsValid, opened}

-- Pages of 64 KiB less what the page allocator keeps, and a runtime type of one pointer.
instance abbrev pub layout : Layout
layout = record {
  page_alignment = 65536;
  page_size = 65520;
  alignof_runtime_type = 8;
  sizeof_runtime_type = 8;
}

pub layout-IsLayout : IsLayout layout
unfolding min_alignment control_size type_size size_max uint_upper_align
layout-IsLayout = record {
  page = record { exponent = 16; fits = omega arith; power = refl };
  page_half = omega arith;
  runtime = record { exponent = 3; fits = omega arith; power = refl };
  page_size_le = omega arith;
  page_multiple = refl;
  runtime_size = omega arith;
  room = omega arith;
}

-- Three types: a small one, one that no page holds, and one whose constructors throw.
pub data Kind : Type 0 where
  small large bad : Kind

abbrev pub kinds : RuntimeType Kind ℕ
kinds = record {
  size = λ k. elim k [ small ↦ 8 | large ↦ 1048576 | bad ↦ 16 ];
  alignment = λ k. elim k [ small ↦ 8 | large ↦ 64 | bad ↦ 16 ];
  copy_type = some;
  default_construct = λ k. elim k [ small ↦ some 0 | large ↦ some 1 | bad ↦ none ];
  copy_construct = λ k v. elim k [ small ↦ some v | large ↦ some v | bad ↦ none ];
  move_construct = λ k v. elim k [ small ↦ some v | large ↦ some v | bad ↦ none ];
}

-- A queue in the page at 131072: a ready element 7, a busy element 8, and the tail.
abbrev pub two : Queue Heap Kind ℕ
two = record {
  m_next = λ p. if p == 131072 then 131096 else if p == 131096 then 131121 else 0;
  types = λ p. small;
  elements = λ p. if p == 131072 then 7 else 8;
  externals = λ p. record { m_element = 0; m_size = 0; m_alignment = 0 };
  m_head = 131072;
  m_tail = 131120;
  allocator = record { count = 1; pages = 131072 ∷ []; blocks = [] };
  events = [];
}

abbrev pub two_blocks : List ℕ
two_blocks = 131072 ∷ 131096 ∷ []

pub two-IsValid : IsValid counting-IsAllocator two two_blocks
unfolding min_alignment control_size size_max uint_upper_align
two-IsValid = opened (record {
  chain =
      cons (λ e. absurd (omega (arith, e))) refl (omega arith) refl
        (cons (λ e. absurd (omega (arith, e))) refl (omega arith) refl (nil refl));
  owned = record {
    pages = owns_page-counting two.allocator;
    pages_distinct = (refl, tt);
    blocks = owns_block-counting two.allocator;
    blocks_distinct = tt;
  };
  bounds = λ a i. ground (arith, i);
  below = λ a i e. ground (arith, i);
  tail_bound = omega arith;
  tail_aligned = refl;
  tail_room = omega arith;
})
