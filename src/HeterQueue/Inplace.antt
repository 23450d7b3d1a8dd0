-- ===== src/HeterQueue/Inplace.antt =====
-- heter_queue.h: `inplace_allocate` as a whole.
use density.Base.{refl}
use density.HeterQueue.Zeroed.{allocator-IsKept}
use density.Base.{ap}
use density.HeterQueue.Layout.{s_max_size_inpage}
use density.Align.{sub_word}
use density.Base.{false}
use density.HeterQueue.Layout.{get_end_of_page}
use density.HeterQueue.Placement.{storage_at}
use density.Align.{add_word}
use density.Base.{leb}
use density.Effects.{
  on_exception-ok, on_exception-throw, M, ok, throw, on_exception, bind-ok, bind-throw,
}
use density.Base.{
  suc, ℕ, ◌+◌, ◌%◌, ◌^◌, ◌≤◌, ◌<◌, ◌≡◌, Bool, true, List, [], ◌∷◌, arith, inl, inr, ◌⊎◌, none, some,
  Option-cases,
}
use density.Align.{word_mod}
use density.Align.Rounding.{IsAlignment}
use density.Allocator.{Allocator, IsAllocator}
use density.HeterQueue.Layout.{
  Layout, IsLayout, min_alignment, raise_request, pointer_size, sizeof_external_block,
}
use density.HeterQueue.State.{Queue}
use density.HeterQueue.Put.{Allocation, allocation, external_allocate, inplace_allocate, nesting}
use density.HeterQueue.Words.{set_external-eq}
use density.HeterQueue.Sizes.{min_alignment-eight}
use density.HeterQueue.Invariant.{IsValid}
use density.HeterQueue.Grow.{tail_lt}
use density.HeterQueue.Placement.{raise-IsRequest}
use density.Align.Multiples.{multiple_trans}
use density.HeterQueue.Producer.{IsInPage}
use density.HeterQueue.Loop.{NoPage, Outcome, done, failed, IsOutside, loop-Outcome}
use density.HeterQueue.Request.{
  NoBlockPage, BlockInPage, block-Outcome, lend, give_back, attach, attached,
}

module _ {A T V : Type 0} ⦃l : Layout⦄ ⦃al : Allocator A⦄ where
  external-none :
      (inner : ℕ → Bool → ℕ → ℕ → M (Queue A T V) Allocation) (bits n m : ℕ) (s : Queue A T V)
      → al.allocate n m s.allocator ≡ none
      → external_allocate inner bits n m s ≡ throw s
  unfolding external_allocate
  external-none inner bits n m s e = rw (external_allocate, e)

  -- The rest of `external_allocate`, once it has its block.
  external-throw :
      (inner : ℕ → Bool → ℕ → ℕ → M (Queue A T V) Allocation) (bits n m b : ℕ) (a : A)
      (s t : Queue A T V)
      → al.allocate n m s.allocator ≡ some (b, a)
      → inner bits true sizeof_external_block pointer_size (record s { allocator = a }) ≡ throw t
      → external_allocate inner bits n m s
        ≡ throw (record t { allocator = al.deallocate b n m t.allocator })
  unfolding external_allocate
  external-throw inner bits n m b a s t e f =
      let m' = inner bits true sizeof_external_block pointer_size in
      let handler : Queue A T V → Queue A T V =
        λ u. record u { allocator = al.deallocate b n m u.allocator } in
      let k : Allocation → M (Queue A T V) Allocation = λ p u.
        ok (allocation p.m_control_block b)
          (attached u p.m_control_block (record { m_element = b; m_size = n; m_alignment = m })) in
      let s' = record s { allocator = a } in
      rw (external_allocate, e)
        (bind-throw (on_exception m' handler) k s' (handler t)
          (on_exception-throw m' handler s' t f))

  external-ok :
      (inner : ℕ → Bool → ℕ → ℕ → M (Queue A T V) Allocation) (bits n m b : ℕ) (a : A)
      (s t : Queue A T V) (put : Allocation)
      → al.allocate n m s.allocator ≡ some (b, a)
      → inner bits true sizeof_external_block pointer_size (record s { allocator = a }) ≡ ok put t
      → external_allocate inner bits n m s
        ≡ ok
            (allocation put.m_control_block b)
            (attached t put.m_control_block (record { m_element = b; m_size = n; m_alignment = m }))
  unfolding external_allocate
  external-ok inner bits n m b a s t put e f =
      let m' = inner bits true sizeof_external_block pointer_size in
      let handler : Queue A T V → Queue A T V =
        λ u. record u { allocator = al.deallocate b n m u.allocator } in
      let k : Allocation → M (Queue A T V) Allocation = λ p u.
        ok (allocation p.m_control_block b)
          (attached u p.m_control_block (record { m_element = b; m_size = n; m_alignment = m })) in
      let s' = record s { allocator = a } in
      rw (external_allocate, e)
        (bind-ok (on_exception m' handler) k s' t put (on_exception-ok m' handler s' t put f))

module _ {A T V : Type 0} ⦃l : Layout⦄ ⦃al : Allocator A⦄ (laws : IsAllocator al l.page_alignment)
    (lay : IsLayout l) where
  -- The storage of a put: in the page, or a block of the allocator.
  abbrev pub IsStored :
      (bits : ℕ) → Bool → (i_size i_alignment : ℕ) → Allocation → Queue A T V → Type 0
  IsStored bits b i_size i_alignment put t =
      IsInPage laws lay bits b i_size i_alignment put t
      ⊎ IsOutside laws lay bits i_size i_alignment put t

  -- Why there is no memory for a request that does not fit behind the tail: the allocator has no page for
  -- it, or no block, or no page for the control block of the external block, which is given back.
  pub data Refused (b : Bool) (i_size i_alignment : ℕ) (s t : Queue A T V) : Type 0 where
    no_page : NoPage laws lay b i_size i_alignment s t → Refused b i_size i_alignment s t
    no_block :
        (leb (add_word (storage_at s.m_tail b i_alignment) i_size) (get_end_of_page s.m_tail)
          ≡ false)
        → (leb (add_word i_size (sub_word i_alignment min_alignment)) s_max_size_inpage ≡ false)
        → al.allocate i_size i_alignment s.allocator ≡ none
        → t ≡ s
        → Refused b i_size i_alignment s t
    no_block_page :
        (block : ℕ) (a : A) (u : Queue A T V)
        → (leb (add_word (storage_at s.m_tail b i_alignment) i_size) (get_end_of_page s.m_tail)
            ≡ false)
        → (leb (add_word i_size (sub_word i_alignment min_alignment)) s_max_size_inpage ≡ false)
        → al.allocate i_size i_alignment s.allocator ≡ some (block, a)
        → NoBlockPage laws lay (record s { allocator = a }) u
        → t ≡ record u { allocator = al.deallocate block i_size i_alignment u.allocator }
        → Refused b i_size i_alignment s t

  external-Outcome :
      (s : Queue A T V) {xs : List ℕ} (depth bits : ℕ) (b : Bool) (n m : ℕ)
      → IsValid laws s xs
      → bits < 4
      → (leb (add_word (storage_at s.m_tail b m) n) (get_end_of_page s.m_tail) ≡ false)
      → (leb (add_word n (sub_word m min_alignment)) s_max_size_inpage ≡ false)
      → Outcome laws lay [] s xs bits
          (IsStored bits b n m)
          (Refused b n m s)
          (external_allocate (inplace_allocate (suc depth)) bits n m s)
  external-Outcome s {xs} depth bits b n m v small misfit large =
      elim (Option-cases (al.allocate n m s.allocator)) [
        | inl e ↦
            failed s (no_block misfit large e refl) (external-none _ bits n m s e)
              (allocator-IsKept laws lay s s.allocator v)
        | inr ((p, a), e) ↦ with_block p a e (
            block-Outcome laws lay (record s { allocator = a }) depth bits
              (lend laws lay s n m p a v e) small)
      ]
    where
      with_block :
          (p : ℕ) (a : A)
          → al.allocate n m s.allocator ≡ some (p, a)
          → Outcome laws lay
              (p ∷ [])
              (record s { allocator = a })
              xs
              bits
              (BlockInPage laws lay bits)
              (NoBlockPage laws lay (record s { allocator = a }))
              (inplace_allocate
                (suc depth)
                bits
                true
                sizeof_external_block
                pointer_size
                (record s { allocator = a }))
          → Outcome laws lay [] s xs bits
              (IsStored bits b n m)
              (Refused b n m s)
              (external_allocate (inplace_allocate (suc depth)) bits n m s)
      with_block p a e (failed u why f w) =
          failed (record u { allocator = al.deallocate p n m u.allocator })
            (no_block_page p a u misfit large e why refl) (external-throw _ bits n m p a s u e f)
            (record {
              valid = give_back laws lay u n m p u.allocator w.valid;
              same =
                  ap (λ (x : Queue A T V). record x { allocator = al.deallocate p n m u.allocator })
                    w.same;
              words = w.words;
              others = w.others;
            })
      with_block p a e (done put t ys f i stored) =
          let tail = tail_lt laws lay i.opens in
          let eight =
            multiple_trans 8 min_alignment t.m_tail (min_alignment-eight lay)
              i.opens.tail_aligned in
          let flag : t.m_next put.m_control_block % 8 < 4 = omega (arith, stored.word) in
          let fits : t.m_next put.m_control_block + 4 < word_mod = omega (arith, stored.word) in
          done _ _ ys (external-ok _ bits n m p a s t put e f)
            (attach laws lay bits put.m_control_block p n m a t ys i flag fits)
            (inr (record {
              flag =
                  ground (arith, set_external-eq (t.m_next put.m_control_block) flag, stored.word);
              element = ground arith;
              size = ground arith;
              alignment = ground arith;
            }))

  -- `inplace_allocate` on a well formed queue, for flags below 4, an alignment that is a power of two, a
  -- size that is a multiple of it, and both far from filling the address space, ends in one of two
  -- ways. Either a block with these flags is put last, the live blocks, the types and the elements are
  -- those before, and the storage is aligned, behind the headers and in the page of its block, or is
  -- an external block that the control block leads to. Or the request does not fit behind the tail and there
  -- is an exception of the allocator, which in the state before has no page for a request that a page can
  -- hold, or no block for a larger one, or no page for the control block of that block, which is given back
  -- then; all is as before but for the state of the allocator and, if the queue has a page, the word behind
  -- the tail, which is no part of the chain. The queue is well formed each time.
  pub inplace-Outcome :
      (s : Queue A T V) {xs : List ℕ} (bits : ℕ) (b : Bool) (i_size i_alignment : ℕ)
      → IsValid laws s xs
      → bits < 4
      → IsAlignment i_alignment
      → i_size % i_alignment ≡ 0
      → i_size + i_alignment ≤ 2 ^ 61
      → Outcome laws lay [] s xs bits
          (IsStored bits b
            (raise_request i_size i_alignment).0
            (raise_request i_size i_alignment).1)
          (Refused b (raise_request i_size i_alignment).0 (raise_request i_size i_alignment).1 s)
          (inplace_allocate nesting bits b i_size i_alignment s)
  unfolding inplace_allocate
  inplace-Outcome s bits b n m v small al' mult bound =
      loop-Outcome laws lay s _ bits b (IsStored bits b (raise_request n m).0 (raise_request n m).1)
        (λ put t i. inl i) (Refused b (raise_request n m).0 (raise_request n m).1 s)
        (λ t c. no_page c) v (raise-IsRequest lay n m al' mult bound) small
        (λ misfit large h. external-Outcome s 0 bits b _ _ v small misfit large)
