-- ===== src/Lifo/Operations.antt =====
-- lifo.h: the operations of a lifo_allocator. An address is a number; the pointer `m_prev_page` of a
-- page header is found by the address of the header, and the bytes of blocks by theirs.
use density.Base.{
  ℕ, ◌+◌, ◌-◌, ◌/◌, bit_and, Bool, not, ◌&&◌, none, some, ◌==◌, ltb, leb, if◌then◌else◌,
}
use density.Align.{add_word, sub_word, uint_lower_align, same_page}
use density.Allocator.{Allocator}
use density.Effects.{update, M, ok, throw, ◌>>=◌}
use density.Lifo.Layout.{LifoLayout, header_size, s_virgin_top}

pub record Lifo (A V : Type 0) : Type 0 where
  pub m_top : ℕ
  pub prev_pages : ℕ → ℕ
  pub bytes : ℕ → V
  pub allocator : A

abbrev pub size_min : ℕ → ℕ → ℕ
size_min i_first i_second = if ltb i_first i_second then i_first else i_second

-- `memcpy` between blocks that do not overlap.
abbrev pub memcpy {ℓ} : {V : Type ℓ} → (dest src size : ℕ) → (ℕ → V) → ℕ → V
memcpy dest src size f a = if leb dest a && ltb a (dest + size) then f (src + (a - dest)) else f a

module _ {A V : Type 0} ⦃l : LifoLayout⦄ ⦃al : Allocator A⦄ where
  unfoldable pub copy : (i_old_block i_old_size i_new_block i_new_size : ℕ) → Lifo A V → Lifo A V
  copy i_old_block i_old_size i_new_block i_new_size s =
      if not (i_old_block == i_new_block)
      then record s {
        bytes = memcpy i_new_block i_old_block (size_min i_new_size i_old_size) s.bytes;
      }
      else s

  -- A new page whose header leads to `prev`, and the block behind the header.
  abbrev pub push_page : (prev i_size : ℕ) → M (Lifo A V) ℕ
  push_page prev i_size s = elim (al.allocate_page s.allocator) [
    | none ↦ throw s
    | some (new_page, a) ↦ ok (add_word new_page header_size) (record s {
      prev_pages = update s.prev_pages new_page prev;
      m_top = add_word (add_word new_page header_size) i_size;
      allocator = a;
    })
  ]

  -- An external block, with the top where it is to be then.
  abbrev pub take_external : (top i_size : ℕ) → M (Lifo A V) ℕ
  take_external top i_size s = elim (al.allocate i_size l.alignment s.allocator) [
    | none ↦ throw s
    | some (block, a) ↦ ok block (record s { m_top = top; allocator = a })
  ]

  unfoldable pub allocate_slow_path : (i_size : ℕ) → M (Lifo A V) ℕ
  allocate_slow_path i_size s =
      if ltb i_size (l.page_size / 2)
      then push_page s.m_top i_size s
      else take_external s.m_top i_size s

  unfoldable pub allocate : (i_size : ℕ) → M (Lifo A V) ℕ
  unfolding allocate_slow_path
  allocate i_size s =
      let new_top = add_word s.m_top i_size in
      let new_offset = sub_word new_top (uint_lower_align s.m_top l.page_alignment) in
      if not (ltb new_offset l.page_size)
      then allocate_slow_path i_size s
      else ok s.m_top (record s { m_top = new_top })

  unfoldable pub allocate_empty : Lifo A V → ℕ
  allocate_empty s = s.m_top

  -- Whether the page of the top is empty and `i_block` lies in the page below.
  abbrev pub page_below : (i_block : ℕ) → Lifo A V → Bool
  page_below i_block s =
      (bit_and s.m_top (sub_word l.page_alignment 1) == header_size)
      && same_page l.page_alignment (s.prev_pages (sub_word s.m_top header_size)) i_block

  unfoldable pub deallocate_slow_path : (i_block i_size : ℕ) → Lifo A V → Lifo A V
  deallocate_slow_path i_block i_size s =
      if page_below i_block s
      then record s { allocator = al.deallocate_page s.m_top s.allocator; m_top = i_block }
      else record s { allocator = al.deallocate i_block i_size l.alignment s.allocator }

  unfoldable pub deallocate : (i_block i_size : ℕ) → Lifo A V → Lifo A V
  unfolding deallocate_slow_path
  deallocate i_block i_size s =
      if not (same_page l.page_alignment i_block s.m_top)
      then deallocate_slow_path i_block i_size s
      else record s { m_top = i_block }

  unfoldable pub set_top_and_allocate : (i_current_top i_size : ℕ) → M (Lifo A V) ℕ
  set_top_and_allocate i_current_top i_size s =
      let new_top = add_word i_current_top i_size in
      let new_offset = sub_word new_top (uint_lower_align i_current_top l.page_alignment) in
      if ltb new_offset l.page_size
      then ok i_current_top (record s { m_top = new_top })
      else if ltb i_size (l.page_size / 2)
      then push_page i_current_top i_size s
      else take_external i_current_top i_size s

  unfoldable pub reallocate : (i_block i_old_size i_new_size : ℕ) → M (Lifo A V) ℕ
  unfolding set_top_and_allocate allocate copy
  reallocate i_block i_old_size i_new_size s =
      if same_page l.page_alignment i_block s.m_top
      then (set_top_and_allocate i_block i_new_size >>= λ new_block t.
            ok new_block (copy i_block i_old_size new_block i_new_size t))
          s
      else if page_below i_block s
      then (set_top_and_allocate i_block i_new_size >>= λ new_block t.
            let u = copy i_block i_old_size new_block i_new_size t in
            ok new_block (record u { allocator = al.deallocate_page s.m_top u.allocator }))
          s
      else (allocate i_new_size >>= λ new_block t.
            let u = copy i_block i_old_size new_block i_new_size t in
            ok new_block
              (record u { allocator = al.deallocate i_block i_old_size l.alignment u.allocator }))
          s

  -- The destructor.
  unfoldable pub destroy : Lifo A V → Lifo A V
  destroy s =
      if not (s.m_top == s_virgin_top)
      then record s { allocator = al.deallocate_page s.m_top s.allocator }
      else s

  -- The constructor, on memory of any content.
  unfoldable pub init : (memory : Lifo A V) → Lifo A V
  init memory = record memory { m_top = s_virgin_top }
