-- ===== src/Blocks/Examples.antt =====
-- Blocks of aligned_allocate from a system that gives one block after the other.
use density.Base.{
  ap, sym, suc, ◌||◌, if◌then◌else◌, ltb, ℕ, ◌+◌, ◌*◌, ◌≤◌, ◌≡◌, ◌%◌, ◌↔◌, refl, none, some, arith,
}
use density.Align.Rounding.{IsAlignment}
use density.Heap.{passed}
use density.Blocks.Operations.{
  NewDelete, Memory, header_of, user_block, aligned_allocate, try_aligned_allocate,
}
use density.Blocks.Laws.{request_of, IsNewDelete, AlignedBlock, aligned_allocate-AlignedBlock}
use density.Blocks.Headers.{header_of-place, or_null, try_aligned_allocate-eq}

-- The state is the number of 65536 bytes that have been given.
abbrev chunks : NewDelete ℕ
chunks = record {
  max_alignment = 16;
  operator_new =
      λ size n. if ltb 65536 size || ltb 1000 n then none else some (n * 65536 + 65536, suc n);
  operator_delete = λ address size n. n;
}

chunk_16 : (n : ℕ) → (n * 65536 + 65536) % 16 ≡ 0
chunk_16 n = omega arith

alignment_16 : IsAlignment 16
alignment_16 = record { exponent = 4; fits = omega arith; power = refl }

alignment_32 : IsAlignment 32
alignment_32 = record { exponent = 5; fits = omega arith; power = refl }

given_chunk :
    (a b size p : ℕ)
    → chunks.operator_new size a ≡ some (p, b)
    → (p ≡ a * 65536 + 65536) × (size ≤ 65536) × (a ≤ 1000)
given_chunk a b size p e =
    let (test, same) = passed (ltb 65536 size || ltb 1000 a) (a * 65536 + 65536, suc a) (p, b) e in
    (sym (ap (λ (x : ℕ × ℕ). x.0) same), ground (arith, test), ground (arith, test))

chunks-IsNewDelete : IsNewDelete chunks
chunks-IsNewDelete = record {
  alignment = alignment_16;
  bounds = λ a b size p e.
      let (at, small, few) = given_chunk a b size p e in omega (arith, at, small, few);
  aligned = λ a b size p e.
      let (at, small, few) = given_chunk a b size p e in omega (arith, at, chunk_16 a);
}

abbrev empty_memory : Memory ℕ
empty_memory = record { system = 0; m_block = λ a. 0 }

aligned_allocate_example :
    AlignedBlock chunks 64 32 8
      (request_of chunks 64 32 8)
      empty_memory
      (aligned_allocate ⦃nd = chunks⦄ 64 32 8 empty_memory)
aligned_allocate_example =
    aligned_allocate-AlignedBlock ⦃nd = chunks⦄ chunks-IsNewDelete 64 32 8 empty_memory alignment_32
      (omega arith) (omega arith) (omega arith)

-- With the offset 28 the header of a block is four bytes in front of the larger one.
header_example :
    (user_block 65536 32 28 + 28 ≡ 65568)
    × ((65536 ≤ header_of (user_block 65536 32 28)) ↔ (36 ≤ 32))
header_example =
    header_of-place 65536 32 28 32 alignment_32 (omega arith) (omega arith) refl (omega arith)
      (omega arith) (omega arith) (omega arith)

try_aligned_example :
    try_aligned_allocate ⦃nd = chunks⦄ 100000 16 0 empty_memory
    ≡ or_null (aligned_allocate ⦃nd = chunks⦄ 100000 16 0 empty_memory)
try_aligned_example = try_aligned_allocate-eq ⦃nd = chunks⦄ 100000 16 0 empty_memory
