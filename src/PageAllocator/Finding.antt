-- ===== src/PageAllocator/Finding.antt =====
-- detail/page_allocator.h: the places where `try_allocate_page` looks for a page.
use density.PageStack.Operations.{Footers}
use density.Align.{uint_lower_align}
use density.Base.{
  ltb, subst, [], ◌&&◌, arith, leb, ◌∷◌, ◌≡◌, ◌<◌, List, ◌≤◌, ℕ, ◌+◌, refl, sym, count, Bool-cases,
  true, false, inl, inr, if◌then◌else◌, ◌==◌,
}
use density.PageAllocator.Changes.{rest-IsPool}
use density.PageAllocator.Growth.{grow-IsPool}
use density.PageAllocator.Operations.{
  Pool, PageAllocationType, PageManager, uninitialized, zeroed, ProgressGuarantee,
}
use density.Effects.{update, Result, ok}
use density.PageAllocator.Pages.{page_size, get_footer, initialize_page, from_system}
use density.PageAllocator.Source.{IsSource, get_footer-page}
use density.PageAllocator.Invariant.{IsPool}

-- The page manager has given all pages that are known.
abbrev pub Known : {A : Type 0} → (A → ℕ → Type 0) → List ℕ → List ℕ → Pool A → Type 0
Known IsGiven world pending s = (a : ℕ) → 0 < count a world + count a pending → IsGiven s.system a

-- Zeros up to the footer.
abbrev pub IsZeroed : (page_alignment page : ℕ) → (bytes : ℕ → ℕ) → Type 0
IsZeroed page_alignment page bytes =
    (a : ℕ) → page ≤ a → a < page + page_size page_alignment → bytes a ≡ 0

-- A page that is known and not pinned, a new one from the page manager, or none.
pub data Found {A : Type 0} (pm : PageManager A) (IsGiven : A → ℕ → Type 0) (k : PageAllocationType)
    (address : ℕ → ℕ) (world pending : List ℕ) (rest : ℕ → ℕ) (r : Result (Pool A) ℕ) : Type 0 where
  reused :
      (x : ℕ) (t : Pool A)
      → r ≡ ok (address x) t
      → 0 < count x world
      → t.footers.m_pin_count x ≡ 0
      → IsPool pm.page_alignment_and_size world pending (λ a. count a (x ∷ []) + rest a) t
      → Known IsGiven world pending t
      → Found pm IsGiven k address world pending rest r
  fresh :
      (page x : ℕ) (t : Pool A)
      → r ≡ ok (address x) t
      → x ≡ page + page_size pm.page_alignment_and_size
      → uint_lower_align x pm.page_alignment_and_size ≡ page
      → count x world ≡ 0
      → t.footers.m_pin_count x ≡ 0
      → (k ≡ zeroed
          → pm.pages_are_zeroed ≡ false
          → IsZeroed pm.page_alignment_and_size page t.bytes)
      → IsPool pm.page_alignment_and_size (x ∷ world) pending (λ a. count a (x ∷ []) + rest a) t
      → Known IsGiven (x ∷ world) pending t
      → Found pm IsGiven k address world pending rest r
  no_page :
      (t : Pool A)
      → r ≡ ok (address 0) t
      → IsPool pm.page_alignment_and_size world pending rest t
      → Known IsGiven world pending t
      → Found pm IsGiven k address world pending rest r

-- The footers and the bytes of a new page.
initialize_page-bytes :
    {A : Type 0} ⦃pm : PageManager A⦄ (k : PageAllocationType) (page : ℕ) (s : Pool A)
    → (bytes : ℕ → ℕ) × (initialize_page k page s
        ≡ ok (get_footer pm.page_alignment_and_size page) (record s {
          footers = record {
            m_next_page =
                update s.footers.m_next_page (get_footer pm.page_alignment_and_size page) 0;
            m_pin_count =
                update s.footers.m_pin_count (get_footer pm.page_alignment_and_size page) 0;
          };
          bytes = bytes;
        }))
      × (k ≡ zeroed → pm.pages_are_zeroed ≡ false → IsZeroed pm.page_alignment_and_size page bytes)
unfolding initialize_page
initialize_page-bytes uninitialized page s = (s.bytes, refl, λ e. cc)
initialize_page-bytes ⦃pm⦄ zeroed page s = elim (Bool-cases pm.pages_are_zeroed) [
  | inl clean ↦ (s.bytes, rw clean, λ e dirty. cc)
  | inr dirty ↦ (
    λ a. if leb page a && ltb a (page + page_size pm.page_alignment_and_size) then 0 else s.bytes a,
    rw dirty,
    λ e e' a lo hi. ground (arith, lo, hi),
  )
]

module _ {A : Type 0} ⦃pm : PageManager A⦄ {IsGiven : A → ℕ → Type 0} (src : IsSource pm IsGiven)
    (k : PageAllocationType) {world pending : List ℕ} where
  pub from_system-Found :
      (rest : ℕ → ℕ) (g : ProgressGuarantee) (s : Pool A)
      → IsPool pm.page_alignment_and_size world pending rest s
      → Known IsGiven world pending s
      → Found pm IsGiven k (λ x. x) world pending rest (from_system k g s)
  unfolding from_system
  from_system-Found rest g s p known =
      let page = (pm.try_allocate_page g s.system).0 in
      let system = (pm.try_allocate_page g s.system).1 in
      let u = record s { system = system } in
      elim (Bool-cases (page == 0)) [
        | inl null ↦
            no_page u (rw null)
              (rest-IsPool p s.m_current_slot s.m_victim_slot s.calls s.footers.m_pin_count s.bytes
                system p.current p.victim)
              (λ a used. src.kept g s.system a (known a used))
        | inr some_page ↦
            let pos : 0 < page = ground arith in
            let (multiple, fits) = src.aligned g s.system pos in
            let (at, low, footer) =
              get_footer-page pm.page_alignment_and_size page src.alignment src.room pos multiple
                fits in
            let x = get_footer pm.page_alignment_and_size page in
            let (bytes, run, zeros) = initialize_page-bytes k page u in
            let other : count x world + count x pending ≡ 0 =
              elim (Bool-cases (count x world + count x pending == 0)) [
                | inl none ↦ ground arith
                | inr used ↦ absurd (src.new g s.system pos (known x (ground arith)))
              ] in
            let self : (x == x) ≡ true = ground arith in
            let m : Footers = record {
              m_next_page = update s.footers.m_next_page x 0;
              m_pin_count = update s.footers.m_pin_count x 0;
            } in
            fresh page x (record u { footers = m; bytes = bytes }) (rw some_page run) at low
              (omega (arith, other)) (rw self) zeros
              (grow-IsPool p x m bytes system other footer (λ a ne. ground (arith, ne)))
              (λ a used. elim (Bool-cases (a == x)) [
                | inl here ↦
                    subst (IsGiven system) (sym (same_number a x here)) (src.given g s.system pos)
                | inr there ↦ src.kept g s.system a (known a (ground (arith, used)))
              ])
      ]
    where
      same_number : (a x : ℕ) → (a == x) ≡ true → a ≡ x
      same_number a x e = ground arith
