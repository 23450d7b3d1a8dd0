-- ===== src/HeterQueue/Put.antt =====
-- heter_queue.h: put operations. A request is a size and an alignment; a constructor is given by
-- its outcome, `none` where it throws.
use density.Base.{
  ℕ, zero, suc, ◌+◌, ◌-◌, bit_or, Bool, true, false, Option, none, some, ◌∷◌, ◌==◌, leb, ltb,
  if◌then◌else◌,
}
use density.Align.{add_word, sub_word, uint_upper_align}
use density.Allocator.{Allocator}
use density.HeterQueue.Layout.{
  Layout, queue_busy, queue_dead, queue_external, sizeof_external_block, pointer_size,
  min_alignment, control_size, type_size, s_max_size_inpage, s_invalid_control_block,
  get_end_of_page, raise_request, size_max,
}
use density.HeterQueue.State.{Queue, element_destroyed, type_destroyed}
use density.Effects.{update, M, ok, throw, out_of_fuel, ◌>>=◌, on_exception}

pub record Allocation : Type 0 where
  pub m_control_block : ℕ
  pub m_user_storage : ℕ

abbrev pub allocation : ℕ → ℕ → Allocation
allocation p q = record { m_control_block = p; m_user_storage = q }

-- `RUNTIME_TYPE`: what the queue asks of the runtime type of an element.
pub record RuntimeType (T V : Type 0) : Type 0 where
  pub size : T → ℕ
  pub alignment : T → ℕ
  pub copy_type : T → Option T
  pub default_construct : T → Option V
  pub copy_construct : T → V → Option V
  pub move_construct : T → V → Option V

-- A request tries at most two pages, and nests at most once: for the block of an external element.
abbrev pub page_tries : ℕ
page_tries = 2

abbrev pub nesting : ℕ
nesting = 2

module _ {A T V : Type 0} ⦃l : Layout⦄ ⦃al : Allocator A⦄ where
  -- `control_block->m_next = ...`
  abbrev pub set_next : ℕ → ℕ → Queue A T V → Queue A T V
  set_next p w s = record s { m_next = update s.m_next p w }

  -- `new (control_block) ControlBlock()` behind the tail of a queue that is not virgin.
  abbrev pub zero_tail : Queue A T V → Queue A T V
  zero_tail s = if s.m_tail == s_invalid_control_block then s else set_next s.m_tail 0 s

  -- Ends the page by a dead block that leads to a new page. A virgin queue gets its first page.
  unfoldable pub allocate_new_page : M (Queue A T V) (Unit {0})
  allocate_new_page s = elim (al.allocate_page s.allocator) [
    | none ↦ throw (zero_tail s)
    | some (new_page, a) ↦
        if s.m_tail == s_invalid_control_block
        then ok tt (record s { m_tail = new_page; m_head = new_page; allocator = a })
        else ok tt (record (zero_tail s) {
          m_next = update (zero_tail s).m_next s.m_tail (add_word new_page queue_dead);
          m_tail = new_page;
          allocator = a;
        })
  ]

  -- The loop of `inplace_allocate`, on fuel, with what it does when no page can hold the request.
  unfoldable pub allocate_loop :
      (external : M (Queue A T V) Allocation) (fuel bits : ℕ) (include_type : Bool)
      (i_size i_alignment : ℕ)
      → M (Queue A T V) Allocation
  allocate_loop external zero bits include_type i_size i_alignment s = out_of_fuel
  allocate_loop external (suc fuel) bits include_type i_size i_alignment s =
      let control_block = s.m_tail in
      let user_storage =
        uint_upper_align
          (add_word control_block (if include_type then control_size + type_size else control_size))
          i_alignment in
      let new_tail = add_word user_storage i_size in
      let retry =
        (allocate_new_page >>= λ _.
        allocate_loop external fuel bits include_type i_size i_alignment)
          s in
      if leb new_tail (get_end_of_page control_block)
      then ok (allocation control_block user_storage) (record s {
        m_next = update s.m_next control_block (add_word new_tail bits);
        m_tail = new_tail;
      })
      else if leb (add_word i_size (sub_word i_alignment min_alignment)) s_max_size_inpage
      then retry
      else external s

  -- An element outside the pages: its block is allocated first, and given back if the
  -- `ExternalBlock` that points to it cannot be put in the queue.
  unfoldable pub external_allocate :
      (inplace_allocate : ℕ → Bool → ℕ → ℕ → M (Queue A T V) Allocation)
      (bits i_size i_alignment : ℕ)
      → M (Queue A T V) Allocation
  external_allocate inplace_allocate bits i_size i_alignment s =
      elim (al.allocate i_size i_alignment s.allocator) [
        | none ↦ throw s
        | some (external_block, a) ↦
            (on_exception (inplace_allocate bits true sizeof_external_block pointer_size) (λ t.
                  record t {
                    allocator = al.deallocate external_block i_size i_alignment t.allocator;
                  })
                >>= λ put t.
                    let p = put.m_control_block in
                    ok (allocation p external_block) (record t {
                      externals = update t.externals p (record {
                        m_element = external_block;
                        m_size = i_size;
                        m_alignment = i_alignment;
                      });
                      m_next = update t.m_next p (bit_or (t.m_next p) queue_external);
                    }))
              (record s { allocator = a })
      ]

  unfoldable pub inplace_allocate :
      (depth bits : ℕ) → Bool → (i_size i_alignment : ℕ) → M (Queue A T V) Allocation
  inplace_allocate zero bits include_type i_size i_alignment s = out_of_fuel
  inplace_allocate (suc depth) bits include_type i_size i_alignment s =
      let (size, alignment) = raise_request i_size i_alignment in
      allocate_loop (external_allocate (inplace_allocate depth) bits size alignment) page_tries bits
        include_type size alignment s

  -- The overload for requests known when the program is compiled: it skips the alignment of the
  -- storage for types that are not over-aligned.
  unfoldable pub static_loop :
      (external : M (Queue A T V) Allocation) (fuel bits : ℕ) (include_type : Bool)
      (size alignment : ℕ)
      → M (Queue A T V) Allocation
  static_loop external zero bits include_type size alignment s = out_of_fuel
  static_loop external (suc fuel) bits include_type size alignment s =
      let control_block = s.m_tail in
      let after_headers =
        add_word control_block (if include_type then control_size + type_size else control_size) in
      let new_element =
        if ltb min_alignment alignment
        then uint_upper_align after_headers alignment
        else after_headers in
      let new_tail = add_word new_element size in
      let retry =
        (allocate_new_page >>= λ _. static_loop external fuel bits include_type size alignment) s in
      if leb new_tail (get_end_of_page control_block)
      then ok (allocation control_block new_element) (record s {
        m_next = update s.m_next control_block (add_word new_tail bits);
        m_tail = new_tail;
      })
      else if leb (add_word size (sub_word alignment min_alignment)) s_max_size_inpage
      then retry
      else external s

  unfoldable pub static_inplace_allocate :
      (bits : ℕ) → Bool → (size alignment : ℕ) → M (Queue A T V) Allocation
  static_inplace_allocate bits include_type size alignment =
      let alignment' = size_max alignment min_alignment in
      let size' = uint_upper_align size alignment' in
      static_loop (external_allocate (inplace_allocate nesting) bits size' alignment') page_tries
        bits include_type size' alignment'

  -- The `try` block of the put functions: the type and the element are constructed behind the
  -- control block; where one throws, the block becomes dead, and was busy if `bits` says so.
  unfoldable pub construct :
      (bits p : ℕ) (type : Option T) (element : Option V) → M (Queue A T V) (Unit {0})
  construct bits p none element s = throw (set_next p (add_word (s.m_next p) (queue_dead - bits)) s)
  construct bits p (some type) none s = throw (record s {
    types = update s.types p type;
    events = type_destroyed type ∷ s.events;
    m_next = update s.m_next p (add_word (s.m_next p) (queue_dead - bits));
  })
  construct bits p (some type) (some element) s =
      ok tt (record s { types = update s.types p type; elements = update s.elements p element })

  -- `start_emplace` and, with the busy bit, `start_reentrant_emplace`
  abbrev emplace : (bits size alignment : ℕ) → Option T → Option V → M (Queue A T V) Allocation
  emplace bits size alignment type element =
      static_inplace_allocate bits true size alignment >>= λ put.
      construct bits put.m_control_block type element >>= λ _. ok put

  unfoldable pub start_emplace :
      (size alignment : ℕ) → Option T → Option V → M (Queue A T V) Allocation
  unfolding static_inplace_allocate construct
  start_emplace = emplace 0

  unfoldable pub start_reentrant_emplace :
      (size alignment : ℕ) → Option T → Option V → M (Queue A T V) Allocation
  unfolding static_inplace_allocate construct
  start_reentrant_emplace = emplace queue_busy

  -- `raw_allocate` of a transaction: a block with no type, dead from the start.
  unfoldable pub raw_allocate : (i_size i_alignment : ℕ) → M (Queue A T V) ℕ
  unfolding inplace_allocate
  raw_allocate i_size i_alignment =
      inplace_allocate nesting queue_dead false i_size i_alignment >>= λ put. ok put.m_user_storage

  -- `cancel_put_impl` and `cancel_reentrant_put_impl`
  unfoldable pub cancel_put_impl : ℕ → Queue A T V → Queue A T V
  cancel_put_impl p s = record s {
    events = type_destroyed (s.types p) ∷ element_destroyed (s.elements p) ∷ s.events;
    m_next = update s.m_next p (add_word (s.m_next p) queue_dead);
  }

  unfoldable pub commit_reentrant_put_impl : ℕ → Queue A T V → Queue A T V
  commit_reentrant_put_impl p s = set_next p (sub_word (s.m_next p) queue_busy) s

  unfoldable pub cancel_reentrant_put_impl : ℕ → Queue A T V → Queue A T V
  cancel_reentrant_put_impl p s = record s {
    events = type_destroyed (s.types p) ∷ element_destroyed (s.elements p) ∷ s.events;
    m_next = update s.m_next p (add_word (s.m_next p) (queue_dead - queue_busy));
  }

  module _ (rt : RuntimeType T V) where
    abbrev pub dyn_put : (bits : ℕ) → T → Option V → M (Queue A T V) Allocation
    dyn_put bits i_type element =
        inplace_allocate nesting bits true (rt.size i_type) (rt.alignment i_type) >>= λ put.
        construct bits put.m_control_block (rt.copy_type i_type) element >>= λ _. ok put

    unfoldable pub start_dyn_push : T → M (Queue A T V) Allocation
    unfolding inplace_allocate construct
    start_dyn_push i_type = dyn_put 0 i_type (rt.default_construct i_type)

    unfoldable pub start_dyn_push_copy : T → V → M (Queue A T V) Allocation
    unfolding inplace_allocate construct
    start_dyn_push_copy i_type i_source = dyn_put 0 i_type (rt.copy_construct i_type i_source)

    unfoldable pub start_dyn_push_move : T → V → M (Queue A T V) Allocation
    unfolding inplace_allocate construct
    start_dyn_push_move i_type i_source = dyn_put 0 i_type (rt.move_construct i_type i_source)

    unfoldable pub start_reentrant_dyn_push : T → M (Queue A T V) Allocation
    unfolding inplace_allocate construct
    start_reentrant_dyn_push i_type = dyn_put queue_busy i_type (rt.default_construct i_type)

    unfoldable pub start_reentrant_dyn_push_copy : T → V → M (Queue A T V) Allocation
    unfolding inplace_allocate construct
    start_reentrant_dyn_push_copy i_type i_source =
        dyn_put queue_busy i_type (rt.copy_construct i_type i_source)

    unfoldable pub start_reentrant_dyn_push_move : T → V → M (Queue A T V) Allocation
    unfolding inplace_allocate construct
    start_reentrant_dyn_push_move i_type i_source =
        dyn_put queue_busy i_type (rt.move_construct i_type i_source)
