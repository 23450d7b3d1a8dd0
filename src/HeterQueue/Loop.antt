-- ===== src/HeterQueue/Loop.antt =====
-- heter_queue.h: the loop of `inplace_allocate` puts a block or leaves the queue as it was.
use native.Mathlib.Nat.{div-eq_of_lt}
use density.Effects.{bind-ok, bind-throw, ◌>>=◌, Result, ok, throw, M}
use density.HeterQueue.Paging.{new_page-IsPaged}
use density.HeterQueue.Zeroed.{IsKept, zero_tail-IsKept, new_page-none}
use density.Base.{
  none, refl, subst, suc, ℕ, ◌+◌, ◌-◌, ◌*◌, ◌/◌, ◌%◌, ◌≤◌, ◌<◌, ◌≡◌, sym, ap, ◌∙◌, Bool, true,
  false, List, arith, leb, Bool-cases, inl, inr, Option-cases,
}
use density.HeterQueue.Layout.{
  control_size, Layout, IsLayout, min_alignment, s_max_size_inpage, get_end_of_page,
  s_invalid_control_block,
}
use density.Align.Rounding.{upper_align_bounds}
use density.Align.{uint_upper_align, add_word, sub_word}
use density.Allocator.{Allocator, IsAllocator}
use density.HeterQueue.State.{Queue}
use density.HeterQueue.Put.{zero_tail, Allocation, allocation, allocate_new_page, allocate_loop}
use density.HeterQueue.Invariant.{IsOpenWith, IsVirginWith, IsValidWith, virgin, opened}
use density.HeterQueue.Grow.{tail_lt}
use density.HeterQueue.Placement.{
  IsRequest, storage_at, header, header-eq, request-Placed, fits_new_page,
}
use density.HeterQueue.Sizes.{end_of_page-eq, control_size-eq}
use density.HeterQueue.Producer.{IsPut, IsInPage, placed, place-IsPut}

module _ {A T V : Type 0} ⦃l : Layout⦄ ⦃al : Allocator A⦄ (laws : IsAllocator al l.page_alignment)
    (lay : IsLayout l) where
  -- The storage of an external element, to which the control block leads.
  pub record IsOutside (bits i_size i_alignment : ℕ) (put : Allocation) (t : Queue A T V)
      : Type 0 where
    pub flag : t.m_next put.m_control_block % 8 ≡ bits + 4
    pub element : (t.externals put.m_control_block).m_element ≡ put.m_user_storage
    pub size : (t.externals put.m_control_block).m_size ≡ i_size
    pub alignment : (t.externals put.m_control_block).m_alignment ≡ i_alignment

  -- The request does not fit behind the tail, it is small enough for a page, and the allocator has none.
  pub record NoPage (b : Bool) (i_size i_alignment : ℕ) (s t : Queue A T V) : Type 0 where
    pub misfit :
        leb (add_word (storage_at s.m_tail b i_alignment) i_size) (get_end_of_page s.m_tail) ≡ false
    pub small : leb (add_word i_size (sub_word i_alignment min_alignment)) s_max_size_inpage ≡ true
    pub no_page : al.allocate_page s.allocator ≡ none
    pub state : t ≡ zero_tail s

  -- The two ways in which a request ends: with a block, or by an exception for a reason `W`, which leaves
  -- all as it was but for the state of the allocator and the word behind the tail.
  pub data Outcome (lent : List ℕ) (s : Queue A T V) (xs : List ℕ) (bits : ℕ)
      (P : Allocation → Queue A T V → Type 0) (W : Queue A T V → Type 0)
      (r : Result (Queue A T V) Allocation) : Type 0 where
    done :
        (put : Allocation) (t : Queue A T V) (ys : List ℕ)
        → r ≡ ok put t
        → IsPut laws lay lent s xs bits put.m_control_block t ys
        → P put t
        → Outcome lent s xs bits P W r
    failed :
        (t : Queue A T V)
        → W t
        → r ≡ throw t
        → IsKept laws lay lent s xs t
        → Outcome lent s xs bits P W r

  -- A block that fits is put.
  loop_fits :
      {lent : List ℕ} (s : Queue A T V) {xs : List ℕ} (external : M (Queue A T V) Allocation)
      (fuel bits : ℕ) (b : Bool) {i_size i_alignment : ℕ}
      → IsOpenWith laws lent s xs
      → IsRequest i_size i_alignment
      → bits < 4
      → storage_at s.m_tail b i_alignment + i_size ≤ get_end_of_page s.m_tail
      → allocate_loop external (suc fuel) bits b i_size i_alignment s
        ≡ ok
            (allocation s.m_tail (storage_at s.m_tail b i_alignment))
            (placed laws lay s bits (storage_at s.m_tail b i_alignment + i_size))
  unfolding allocate_loop
  loop_fits s external fuel bits b {i_size} {i_alignment} o r small fits =
      let n = storage_at s.m_tail b i_alignment + i_size in
      let p = request-Placed lay s.m_tail b (tail_lt laws lay o) o.tail_aligned r in
      let test : leb n (get_end_of_page s.m_tail) ≡ true = ground arith in
      let end = end_of_page-eq lay s.m_tail (tail_lt laws lay o) in
      let word : add_word n bits ≡ n + bits = omega (arith, o.tail_bound, lay.page_size_le) in
      rw (p.no_wrap, test, word)

  -- Nothing fits where there is no page.
  virgin_misfit :
      {lent : List ℕ} (s : Queue A T V) (b : Bool) {i_size i_alignment : ℕ}
      → IsVirginWith laws lent s
      → IsRequest i_size i_alignment
      → leb (add_word (storage_at s.m_tail b i_alignment) i_size) (get_end_of_page s.m_tail) ≡ false
  unfolding s_invalid_control_block
  virgin_misfit s b {i_size} {i_alignment} v r =
      let (hm, hge, hle) = header-eq lay b in
      let c = l.page_size - 1 in
      let e : s.m_tail ≡ c = v.tail_invalid in
      let sum : add_word c (header b) ≡ c + header b =
        omega (arith, lay.page_size_le, lay.page_half) in
      let (mult, ge, lt) =
        upper_align_bounds (c + header b) i_alignment r.alignment
          (omega (arith, r.bound, lay.page_size_le, lay.page_half)) in
      let first : c / l.page_alignment ≡ 0 =
        div-eq_of_lt (omega (arith, lay.room, lay.page_size_le)) in
      let end = end_of_page-eq lay c (omega (arith, lay.page_size_le, lay.page_half)) in
      let end' : get_end_of_page c + control_size ≡ 0 * l.page_alignment + l.page_size =
        end ∙ ap (λ (t : ℕ). t * l.page_alignment + l.page_size) first in
      let wrap : add_word (uint_upper_align (c + header b) i_alignment) i_size
          ≡ uint_upper_align (c + header b) i_alignment + i_size =
        omega (arith, r.bound, lay.page_size_le, lay.page_half) in
      rw (e, sum, wrap) (ltb-misfit (omega (arith, control_size-eq lay, lay.room)))
    where
      ltb-misfit : {m n : ℕ} → n < m → leb m n ≡ false
      ltb-misfit h = ground arith

  misfit_small :
      (s : Queue A T V) (external : M (Queue A T V) Allocation) (fuel bits : ℕ) (b : Bool)
      (i_size i_alignment : ℕ)
      → leb (add_word (storage_at s.m_tail b i_alignment) i_size) (get_end_of_page s.m_tail) ≡ false
      → leb (add_word i_size (sub_word i_alignment min_alignment)) s_max_size_inpage ≡ true
      → allocate_loop external (suc fuel) bits b i_size i_alignment s
        ≡ (allocate_new_page >>= λ _. allocate_loop external fuel bits b i_size i_alignment) s
  unfolding allocate_loop
  misfit_small s external fuel bits b i_size i_alignment misfit enough = rw (misfit, enough)

  misfit_large :
      (s : Queue A T V) (external : M (Queue A T V) Allocation) (fuel bits : ℕ) (b : Bool)
      (i_size i_alignment : ℕ)
      → leb (add_word (storage_at s.m_tail b i_alignment) i_size) (get_end_of_page s.m_tail) ≡ false
      → leb (add_word i_size (sub_word i_alignment min_alignment)) s_max_size_inpage ≡ false
      → allocate_loop external (suc fuel) bits b i_size i_alignment s ≡ external s
  unfolding allocate_loop
  misfit_large s external fuel bits b i_size i_alignment misfit large = rw (misfit, large)

  -- With a new page, a request that a page can hold is put, if there is one.
  retry-Outcome :
      {lent : List ℕ} (s : Queue A T V) {xs : List ℕ} (external : M (Queue A T V) Allocation)
      (bits : ℕ) (b : Bool) {i_size i_alignment : ℕ} (P : Allocation → Queue A T V → Type 0)
      (inject : (put : Allocation) (t : Queue A T V)
        → IsInPage laws lay bits b i_size i_alignment put t
        → P put t)
      (W : Queue A T V → Type 0) (cause : (t : Queue A T V) → NoPage b i_size i_alignment s t → W t)
      → IsValidWith laws lent s xs
      → IsRequest i_size i_alignment
      → bits < 4
      → leb (add_word (storage_at s.m_tail b i_alignment) i_size) (get_end_of_page s.m_tail) ≡ false
      → leb (add_word i_size (sub_word i_alignment min_alignment)) s_max_size_inpage ≡ true
      → i_size + (i_alignment - min_alignment) ≤ s_max_size_inpage
      → Outcome lent s xs bits P W
          ((allocate_new_page >>= λ _. allocate_loop external 1 bits b i_size i_alignment) s)
  retry-Outcome {lent} s {xs} external bits b {i_size} {i_alignment} P inject W cause v r small
        misfit little enough =
      elim (Option-cases (al.allocate_page s.allocator)) [
        | inl e ↦
            failed (zero_tail s)
              (cause (zero_tail s)
                (record { misfit = misfit; small = little; no_page = e; state = refl }))
              (bind-throw allocate_new_page _ s (zero_tail s) (new_page-none s e))
              (zero_tail-IsKept laws lay s v)
        | inr ((p, a), e) ↦
            let (t, ys, ran, paged) = new_page-IsPaged laws lay s p a v e in
            let o = paged.opens in
            let fits =
              fits_new_page lay t.m_tail b (tail_lt laws lay o) o.tail_aligned paged.start r
                enough in
            let (put, stored) = place-IsPut laws lay t bits b o r small fits in
            done _ _ ys
              (bind-ok allocate_new_page _ s t tt ran
                ∙ loop_fits t external 0 bits b o r small fits)
              (record {
                opens = put.opens;
                new = put.new;
                flags = put.flags;
                others = put.others ∙ paged.others;
                same_types = put.same_types ∙ paged.same_types;
                same_elements = put.same_elements ∙ paged.same_elements;
                same_events = put.same_events ∙ paged.same_events;
              })
              (inject _ _ stored)
      ]

  pub loop-Outcome :
      {lent : List ℕ} (s : Queue A T V) {xs : List ℕ} (external : M (Queue A T V) Allocation)
      (bits : ℕ) (b : Bool) {i_size i_alignment : ℕ} (P : Allocation → Queue A T V → Type 0)
      (inject : (put : Allocation) (t : Queue A T V)
        → IsInPage laws lay bits b i_size i_alignment put t
        → P put t)
      (W : Queue A T V → Type 0) (cause : (t : Queue A T V) → NoPage b i_size i_alignment s t → W t)
      → IsValidWith laws lent s xs
      → IsRequest i_size i_alignment
      → bits < 4
      → (leb (add_word (storage_at s.m_tail b i_alignment) i_size) (get_end_of_page s.m_tail)
            ≡ false
          → leb (add_word i_size (sub_word i_alignment min_alignment)) s_max_size_inpage ≡ false
          → s_max_size_inpage < i_size + (i_alignment - min_alignment)
          → Outcome lent s xs bits P W (external s))
      → Outcome lent s xs bits P W (allocate_loop external 2 bits b i_size i_alignment s)
  loop-Outcome {lent} s {xs} external bits b {i_size} {i_alignment} P inject W cause v r small
        outside =
      elim (Bool-cases
        (leb (add_word (storage_at s.m_tail b i_alignment) i_size) (get_end_of_page s.m_tail))) [
          | inl fits ↦ here v fits
          | inr misfit ↦
              elim (Bool-cases
                (leb (add_word i_size (sub_word i_alignment min_alignment)) s_max_size_inpage)) [
                  | inl enough ↦
                      subst (Outcome lent s xs bits P W)
                        (sym (misfit_small s external 1 bits b i_size i_alignment misfit enough))
                        (retry-Outcome s external bits b P inject W cause v r small misfit enough
                          (ground arith))
                  | inr large ↦
                      subst (Outcome lent s xs bits P W)
                        (sym (misfit_large s external 1 bits b i_size i_alignment misfit large))
                        (outside misfit large (ground arith))
                ]
        ]
    where
      sum :
          add_word i_size (sub_word i_alignment min_alignment)
          ≡ i_size + (i_alignment - min_alignment)
      sum = omega (arith, r.bound, r.large)

      here :
          {zs : List ℕ}
          → IsValidWith laws lent s zs
          → leb (add_word (storage_at s.m_tail b i_alignment) i_size) (get_end_of_page s.m_tail)
            ≡ true
          → Outcome lent s zs bits P W (allocate_loop external 2 bits b i_size i_alignment s)
      here (virgin w) fits = absurd (ground (arith, fits, virgin_misfit s b w r))
      here {zs} (opened o) fits =
          let p = request-Placed lay s.m_tail b (tail_lt laws lay o) o.tail_aligned r in
          let room : storage_at s.m_tail b i_alignment + i_size ≤ get_end_of_page s.m_tail =
            ground (arith, p.no_wrap) in
          let (put, stored) = place-IsPut laws lay s bits b o r small room in
          done _ _ zs (loop_fits s external 1 bits b o r small room) put (inject _ _ stored)
