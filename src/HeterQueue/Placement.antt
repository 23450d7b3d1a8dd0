-- ===== src/HeterQueue/Placement.antt =====
-- heter_queue.h: where `inplace_allocate` puts a request in a page, and when it fits.
use density.Align.Multiples.{round_near, add_multiple, multiple_trans}
use native.Mathlib.Nat.{div-add-mod'}
use density.Base.{
  arith, ◌-◌, ◌^◌, ◌≡◌, if◌then◌else◌, ◌%◌, ◌+◌, ◌<◌, ◌≤◌, Bool, true, false, ℕ, Bool-cases, inl,
  inr, ltb,
}
use density.HeterQueue.Layout.{
  type_size, Layout, IsLayout, min_alignment, control_size, raise_request, get_end_of_page,
  s_max_size_inpage,
}
use density.Align.Pages.{page_of}
use density.Align.{add_word, uint_upper_align}
use density.Align.Rounding.{IsAlignment, IsAlignment-divides, upper_align_bounds}
use density.HeterQueue.Sizes.{
  min_alignment-IsAlignment, min_alignment-ge, min_alignment-le, control_size-eq, type_size-eq,
  max_size-eq, end_of_page-eq,
}

module _ ⦃l : Layout⦄ where
  -- A request after `raise_request`: the alignment is a power of two not below the minimum, the size
  -- a multiple of the minimum, and neither is near the end of the address space.
  pub record IsRequest (i_size i_alignment : ℕ) : Type 0 where
    pub alignment : IsAlignment i_alignment
    pub large : min_alignment ≤ i_alignment
    pub multiple : i_size % min_alignment ≡ 0
    pub bound : i_size + i_alignment ≤ 2 ^ 62

  -- The room for the control block, and the runtime type if there is one.
  abbrev pub header : Bool → ℕ
  header include_type = if include_type then control_size + type_size else control_size

  abbrev pub storage_at : (control_block : ℕ) → Bool → (i_alignment : ℕ) → ℕ
  storage_at control_block include_type i_alignment =
      uint_upper_align (add_word control_block (header include_type)) i_alignment

  pub record Placed (c : ℕ) (include_type : Bool) (i_size i_alignment : ℕ) : Type 0 where
    pub start : c + header include_type ≤ storage_at c include_type i_alignment
    pub aligned : storage_at c include_type i_alignment % i_alignment ≡ 0
    pub near :
        storage_at c include_type i_alignment + min_alignment
        ≤ c + header include_type + i_alignment
    pub no_wrap :
        add_word (storage_at c include_type i_alignment) i_size
        ≡ storage_at c include_type i_alignment + i_size
    pub multiple : (storage_at c include_type i_alignment + i_size) % min_alignment ≡ 0
    pub ahead : c + 8 ≤ storage_at c include_type i_alignment

  module _ (lay : IsLayout l) where
    pub header-eq :
        (b : Bool) → (header b % min_alignment ≡ 0) × (8 ≤ header b) × (header b ≤ 2 ^ 32)
    header-eq true = (
      add_multiple min_alignment control_size type_size (control_size-eq lay).0 (type_size-eq lay),
      omega (arith, control_size-eq lay),
      omega (arith, lay.room, lay.page_size_le, lay.page_half),
    )
    header-eq false = (
      omega (arith, control_size-eq lay),
      omega (arith, control_size-eq lay),
      omega (arith, lay.room, lay.page_size_le, lay.page_half),
    )

    header-le : (b : Bool) → header b ≤ control_size + type_size
    header-le true = omega arith
    header-le false = omega arith

    pub request-Placed :
        (c : ℕ) (include_type : Bool) {i_size i_alignment : ℕ}
        → c < 2 ^ 63
        → c % min_alignment ≡ 0
        → IsRequest i_size i_alignment
        → Placed c include_type i_size i_alignment
    request-Placed c b {i_size} {i_alignment} small mult r =
        let (hm, hge, hle) = header-eq b in
        let e : add_word c (header b) ≡ c + header b = omega arith in
        let (al, ge, lt) =
          upper_align_bounds (c + header b) i_alignment r.alignment (omega (arith, r.bound)) in
        let divides = IsAlignment-divides (min_alignment-IsAlignment lay) r.alignment r.large in
        let near =
          round_near min_alignment i_alignment (c + header b)
            (uint_upper_align (c + header b) i_alignment) (omega (arith, min_alignment-ge lay))
            divides (add_multiple min_alignment c (header b) mult hm) al lt in
        record {
          start = rw e ge;
          aligned = rw e al;
          near = rw e near;
          no_wrap = rw e (omega (arith, r.bound));
          multiple = rw e (
              add_multiple min_alignment (uint_upper_align (c + header b) i_alignment) i_size
                (multiple_trans min_alignment i_alignment
                  (uint_upper_align (c + header b) i_alignment) divides al)
                r.multiple);
          ahead = rw e (omega arith);
        }

    -- At the start of a page every request fits that the code takes to be small enough.
    pub fits_new_page :
        (c : ℕ) (include_type : Bool) {i_size i_alignment : ℕ}
        → c < 2 ^ 63
        → c % min_alignment ≡ 0
        → c % l.page_alignment ≡ 0
        → IsRequest i_size i_alignment
        → i_size + (i_alignment - min_alignment) ≤ s_max_size_inpage
        → storage_at c include_type i_alignment + i_size ≤ get_end_of_page c
    fits_new_page c b {i_size} {i_alignment} small mult start r fits =
        let placed = request-Placed c b small mult r in
        let at_start : page_of l.page_alignment c ≡ c =
          omega (arith, div-add-mod' c l.page_alignment) in
        let (hm, hge, hle) = header-eq b in
        let (cm, cge) = control_size-eq lay in
        omega (
          arith,
          placed.near,
          max_size-eq lay,
          end_of_page-eq lay c small,
          fits,
          r.large,
          header-le b,
        )

  -- The requests that the code's assertion allows become requests of the kind above.
  pub raise-IsRequest :
      (lay : IsLayout l) (i_size i_alignment : ℕ)
      → IsAlignment i_alignment
      → i_size % i_alignment ≡ 0
      → i_size + i_alignment ≤ 2 ^ 61
      → IsRequest (raise_request i_size i_alignment).0 (raise_request i_size i_alignment).1
  unfolding raise_request
  raise-IsRequest lay i_size i_alignment v mult bound =
      let least = min_alignment-IsAlignment lay in
      let le = min_alignment-le lay in
      let (rm, rge, rlt) = upper_align_bounds i_size min_alignment least (omega arith) in
      elim (Bool-cases (ltb i_alignment min_alignment)) [
        | inl small ↦
            rw small (record {
              alignment = least;
              large = omega arith;
              multiple = rm;
              bound = omega arith;
            })
        | inr enough ↦
            let ge : min_alignment ≤ i_alignment = ground arith in
            rw enough (record {
              alignment = v;
              large = ge;
              multiple =
                  multiple_trans min_alignment i_alignment i_size (IsAlignment-divides least v ge)
                    mult;
              bound = omega arith;
            })
      ]
