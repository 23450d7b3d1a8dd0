-- ===== src/HeterQueue/Producer.antt =====
-- heter_queue.h: what `inplace_allocate` does to a well formed queue.
use native.Mathlib.Nat.{div-add-mod'}
use density.Base.{ℕ, ◌+◌, ◌%◌, ◌≤◌, ◌<◌, ◌≡◌, refl, sym, Bool, List, [], ◌∷◌, ◌++◌, arith, ◌∉◌}
use density.Allocator.{Allocator, IsAllocator}
use density.Align.Pages.{page_of, page_of-between}
use density.HeterQueue.Layout.{Layout, IsLayout, min_alignment, get_end_of_page}
use density.HeterQueue.State.{Queue}
use density.HeterQueue.Put.{Allocation, allocation}
use density.HeterQueue.Chain.{live}
use density.HeterQueue.Invariant.{IsOpenWith}
use density.HeterQueue.Live.{live-absent}
use density.HeterQueue.Placement.{IsRequest, storage_at, header, request-Placed}
use density.Align.Multiples.{multiple_trans}
use density.HeterQueue.Sizes.{end_of_page-eq, control_size-eq, min_alignment-eight}
use density.HeterQueue.Grow.{grown, IsStep, grow_in_page, tail-absent, tail_lt}

module _ {A T V : Type 0} ⦃l : Layout⦄ ⦃al : Allocator A⦄ (laws : IsAllocator al l.page_alignment)
    (lay : IsLayout l) where
  -- Nothing that a client put in the queue has changed, and only the block `p` has come last.
  pub record IsPut (lent : List ℕ) (s : Queue A T V) (xs : List ℕ) (bits : ℕ) (p : ℕ)
      (t : Queue A T V) (ys : List ℕ) : Type 0 where
    pub opens : IsOpenWith laws lent t (ys ++ p ∷ [])
    pub new : p ∉ ys
    pub flags : t.m_next p % 4 ≡ bits
    pub others : live t.m_next ys ≡ live s.m_next xs
    pub same_types : t.types ≡ s.types
    pub same_elements : t.elements ≡ s.elements
    pub same_events : t.events ≡ s.events

  -- Where the storage of a put is: behind its control block in the page, or an external block.
  pub record IsInPage (bits : ℕ) (include_type : Bool) (i_size i_alignment : ℕ) (put : Allocation)
      (t : Queue A T V) : Type 0 where
    pub storage : put.m_user_storage ≡ storage_at put.m_control_block include_type i_alignment
    pub behind : put.m_control_block + header include_type ≤ put.m_user_storage
    pub aligned : put.m_user_storage % i_alignment ≡ 0
    pub ends : put.m_user_storage + i_size ≡ t.m_tail
    pub word : t.m_next put.m_control_block ≡ t.m_tail + bits
    pub one_page : page_of l.page_alignment put.m_control_block ≡ page_of l.page_alignment t.m_tail

  -- The block is put at the tail, in the room that is left in the page.
  abbrev pub placed : Queue A T V → (bits new_tail : ℕ) → Queue A T V
  placed s bits new_tail = grown s (new_tail + bits) new_tail s.allocator

  place-IsStep :
      {lent : List ℕ} (s : Queue A T V) {xs : List ℕ} (bits new_tail : ℕ)
      → IsOpenWith laws lent s xs
      → bits < 4
      → new_tail % min_alignment ≡ 0
      → s.m_tail + 8 ≤ new_tail
      → new_tail ≤ get_end_of_page s.m_tail
      → IsStep (new_tail + bits) new_tail
        × (page_of l.page_alignment new_tail ≡ page_of l.page_alignment s.m_tail)
  place-IsStep s bits n o small mult ahead fits =
      let end = end_of_page-eq lay s.m_tail (tail_lt laws lay o) in
      let (cm, cge) = control_size-eq lay in
      let same =
        page_of-between l.page_alignment s.m_tail n
          (omega (arith, div-add-mod' s.m_tail l.page_alignment))
          (omega (arith, lay.page_size_le)) in
      let eight = multiple_trans 8 min_alignment n (min_alignment-eight lay) mult in
      (
        record {
          small = omega (arith, o.tail_bound, lay.page_size_le);
          leads = omega arith;
          inside = omega arith;
          aligned = mult;
          bound = omega (arith, o.tail_bound);
          room = omega arith;
        },
        same,
      )

  pub place-IsPut :
      {lent : List ℕ} (s : Queue A T V) {xs : List ℕ} (bits : ℕ) (b : Bool) {i_size i_alignment : ℕ}
      → IsOpenWith laws lent s xs
      → IsRequest i_size i_alignment
      → bits < 4
      → storage_at s.m_tail b i_alignment + i_size ≤ get_end_of_page s.m_tail
      → IsPut lent s xs bits s.m_tail
          (placed s bits (storage_at s.m_tail b i_alignment + i_size))
          xs
        × IsInPage bits b i_size i_alignment
            (allocation s.m_tail (storage_at s.m_tail b i_alignment))
            (placed s bits (storage_at s.m_tail b i_alignment + i_size))
  place-IsPut s {xs} bits b {i_size} {i_alignment} o r small fits =
      let n = storage_at s.m_tail b i_alignment + i_size in
      let p = request-Placed lay s.m_tail b (tail_lt laws lay o) o.tail_aligned r in
      let ahead : s.m_tail + 8 ≤ n = omega (arith, p.ahead) in
      let (step, same) = place-IsStep s bits n o small p.multiple ahead fits in
      let eight = multiple_trans 8 min_alignment n (min_alignment-eight lay) p.multiple in
      (
        record {
          opens = grow_in_page laws lay (n + bits) n o step same (omega arith);
          new = tail-absent laws lay o;
          flags = ground arith;
          others = live-absent s.m_next s.m_tail (n + bits) xs (tail-absent laws lay o);
          same_types = refl;
          same_elements = refl;
          same_events = refl;
        },
        record {
          storage = refl;
          behind = p.start;
          aligned = p.aligned;
          ends = refl;
          word = ground arith;
          one_page = sym same;
        },
      )
