-- ===== src/Lifo/Fixture.antt =====
-- A concrete layout and stack, on which the theorems about lifo.h are applied.
use density.Base.{ℕ, refl, inr, List, [], ◌∷◌, true, false, ◌==◌, if◌then◌else◌, arith}
use density.Align.{uint_lower_align}
use density.Align.Rounding.{IsAlignment}
use density.Heap.{Heap, counting, counting-IsAllocator, owns_page-counting, owns_block-counting}
use density.Lifo.Layout.{LifoLayout, IsLifoLayout, header_size, s_virgin_top}
use density.Lifo.Operations.{Lifo}
use density.Lifo.Stack.{Block, virgin, page, inner, outer, IsStack}
use density.Lifo.Array.{ElementType, LifoArray, Thread}

instance abbrev pub layout : LifoLayout
layout = record { page_alignment = 65536; page_size = 65520; alignment = 8 }

pub eight : IsAlignment 8
eight = record { exponent = 3; fits = omega arith; power = refl }

pub layout-IsLifoLayout : IsLifoLayout layout
unfolding header_size
layout-IsLifoLayout = record {
  page = record { exponent = 16; fits = omega arith; power = refl };
  page_half = omega arith;
  block = eight;
  block_le = omega arith;
  page_size_le = omega arith;
  room = omega arith;
}

-- A block of 24 bytes in the page at 131072, an external block at 196608, and one of 16 bytes.
abbrev pub three : Lifo Heap ℕ
three = record {
  m_top = 131120;
  prev_pages = λ p. if p == 131072 then 65528 else 0;
  bytes = λ a. a;
  allocator = record { count = 2; pages = 131072 ∷ []; blocks = 196608 ∷ [] };
}

abbrev pub two_blocks : List Block
two_blocks = (196608, 262144) ∷ (131080, 24) ∷ []

abbrev pub three_blocks : List Block
three_blocks = (131104, 16) ∷ two_blocks

pub three-IsStack : IsStack counting-IsAllocator three three_blocks
unfolding header_size s_virgin_top uint_lower_align
three-IsStack = record {
  pages = 131072 ∷ [];
  externals = 196608 ∷ [];
  stack = inner {t = 131104} {n = 16} refl refl (inr (omega arith)) (
      outer {b = 196608} {n = 262144} refl refl (omega arith) (omega arith) refl (
        inner {t = 131080} {n = 24} refl refl (inr (omega arith)) (
          page {t = 65528} {p = 131072} refl refl (omega arith) (omega arith) refl
            (λ b i. absurd (ground (arith, i))) refl (omega arith) (virgin refl))));
  words = λ a. ground arith;
  owned_pages = owns_page-counting three.allocator;
  pages_distinct = (refl, tt);
  owned_blocks = owns_block-counting three.allocator;
  blocks_distinct = (refl, tt);
}

-- The memory before the constructor.
abbrev pub fresh : Lifo Heap ℕ
fresh = record {
  m_top = 0;
  prev_pages = λ p. 0;
  bytes = λ a. 0;
  allocator = record { count = 0; pages = []; blocks = [] };
}

-- Elements of 24 bytes, and vectors of 32 bytes with that alignment.
abbrev pub words : ElementType
words = record { size = 24; alignment = 8; is_pod = false; is_trivially_destructible = false }

abbrev pub vectors : ElementType
vectors = record { size = 32; alignment = 32; is_pod = false; is_trivially_destructible = true }

abbrev pub thread : Thread Heap ℕ
thread = record { stack = three; trace = [] }

abbrev pub half : ElementType
half = record { size = 8; alignment = 8; is_pod = false; is_trivially_destructible = false }

abbrev pub last_array : LifoArray
last_array = record { m_block = 131104; m_elements = 131104; m_size = 2 }
