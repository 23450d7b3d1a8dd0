-- ===== src/Regions/Creation.antt =====
-- detail/system_page_manager.h: `create_region` asks the system for memory, for half of it where that
-- fails, and cuts it into pages. The operators new and delete are parameters on the state of the system.
use native.Mathlib.Nat.{div-add-mod', mul-le-mul_right}
use density.Base.{
  sym, ◌∙◌, ℕ, zero, suc, ◌+◌, ◌-◌, ◌*◌, ◌/◌, ◌%◌, ◌^◌, ◌≤◌, ◌<◌, ◌≡◌, refl, ap, ◌∙◌, Option, none,
  some, Bool-cases, inl, inr, arith, false, ◌==◌, ltb, dec_lt, if◌then◌else◌,
}
use density.Align.{add_word, uint_upper_align, uint_lower_align}
use density.Align.Rounding.{IsAlignment, IsAlignment-bounds, upper_align_bounds, lower_align_bounds}
use density.Effects.{M, Result, ok, throw, out_of_fuel}
use density.HeterQueue.Layout.{size_max}
use density.Lifo.Operations.{size_min}
use density.Regions.Pages.{Region}

-- `operator new (std::nothrow)` and `operator delete`; `none` is a null pointer.
pub record SystemMemory (A : Type 0) : Type 0 where
  pub operator_new : (size : ℕ) → A → Option (ℕ × A)
  pub operator_delete : (address : ℕ) → A → A
  pub sizeof_region : ℕ

-- Memory lies in the lower half of the address space, and not at the null pointer.
pub record IsSystemMemory {A : Type 0} (sm : SystemMemory A) : Type 0 where
  pub bounds :
      (a b : A) (size p : ℕ) → sm.operator_new size a ≡ some (p, b) → (0 < p) × (p + size ≤ 2 ^ 63)

abbrev pub region_default_size_bytes : ℕ
region_default_size_bytes = 4194304

abbrev pub region_min_size_bytes : (page : ℕ) → ℕ
region_min_size_bytes page = size_min region_default_size_bytes (8 * page)

-- The region of new memory.
abbrev pub region_of : (page region_start region_size : ℕ) → Region
region_of page region_start region_size = record {
  m_curr = uint_upper_align region_start page;
  m_end = uint_lower_align (add_word region_start region_size) page;
  m_start = region_start;
}

abbrev pub empty_region : Region
empty_region = record { m_curr = 0; m_end = 0; m_start = 0 }

module _ {A : Type 0} ⦃sm : SystemMemory A⦄ (page : ℕ) where
  abbrev pub delete : ℕ → A → A
  delete p a = if p == 0 then a else sm.operator_delete p a

  -- A round of the loop, after the request of `size` bytes; `rest` is what the next rounds do.
  abbrev pub requested :
      (size : ℕ) (rest : Result A (Option (ℕ × ℕ))) → A → Option (ℕ × A) → Result A (Option (ℕ × ℕ))
  requested size rest a none = if size == region_min_size_bytes page then ok none a else rest
  requested size rest a (some (region_start, b)) = ok (some (region_start, size)) b

  -- The loop, with one unit of fuel for each request: the memory and its size.
  unfoldable pub create_loop : (fuel region_size : ℕ) → M A (Option (ℕ × ℕ))
  create_loop zero region_size a = out_of_fuel
  create_loop (suc fuel) region_size a =
      let size = size_max region_size (region_min_size_bytes page) in
      requested size (create_loop fuel (size / 2) a) a (sm.operator_new size a)

  unfoldable pub delete_region : (region : ℕ) → Region → A → A
  delete_region region g a = delete region (delete g.m_start a)

  -- What `create_region` does after the loop.
  abbrev pub finish_region :
      (region : ℕ) → Result A (Option (ℕ × ℕ)) → Result A (Option (ℕ × Region))
  finish_region region (ok none a) = ok none (delete_region region empty_region a)
  finish_region region (ok (some (region_start, region_size)) a) =
      ok (some (region, region_of page region_start region_size)) a
  finish_region region (throw a) = throw a
  finish_region region out_of_fuel = out_of_fuel

  unfoldable pub with_object : (fuel : ℕ) → A → Option (ℕ × A) → Result A (Option (ℕ × Region))
  unfolding create_loop delete_region
  with_object fuel a none = ok none a
  with_object fuel a (some (region, b)) =
      finish_region region (create_loop fuel region_default_size_bytes b)

  unfoldable pub create_region : (fuel : ℕ) → M A (Option (ℕ × Region))
  unfolding with_object
  create_region fuel a = with_object fuel a (sm.operator_new sm.sizeof_region a)

-- A region of whole pages, at least one, inside memory of `size` bytes that starts at `m_start`.
pub record IsCreated (page size : ℕ) (g : Region) : Type 0 where
  pub capacity : ℕ
  pub some_page : 0 < capacity
  pub inside : g.m_start ≤ g.m_curr
  pub aligned : g.m_curr % page ≡ 0
  pub end_at : g.m_end ≡ g.m_curr + capacity * page
  pub within : g.m_end ≤ g.m_start + size
  pub bound : g.m_end ≤ 2 ^ 63

size_max_cases :
    (a b : ℕ) → (b ≤ size_max a b) × ((size_max a b == b) ≡ false → (size_max a b ≡ a) × (b < a))
unfolding size_max
size_max_cases a b = elim (Bool-cases (ltb b a)) [
  | inl e ↦ rw e (ground arith, λ other. (refl, ground arith))
  | inr e ↦ rw e (omega arith, λ other. absurd (ground arith))
]

gap : (page q d : ℕ) → (q + d) * page ≡ q * page + d * page
gap page q d = omega arith

multiple_gap :
    (page x y : ℕ) → x % page ≡ 0 → y % page ≡ 0 → x < y → (d : ℕ) × (0 < d) × (y ≡ x + d * page)
multiple_gap page x y h k lt =
    let q = x / page in
    let r = y / page in
    elim (dec_lt q r) [
      | no over ↦ absurd (
          omega (
            arith,
            div-add-mod' x page,
            div-add-mod' y page,
            mul-le-mul_right page (flip q r over),
          ))
      | yes less ↦
          let e : r ≡ q + (r - q) = omega arith in
          (
            r - q,
            omega arith,
            omega (
              arith,
              div-add-mod' x page,
              div-add-mod' y page,
              gap page q (r - q),
              ap (λ t. t * page) e,
            ),
          )
    ]
  where
    flip : (q r : ℕ) → (q < r → ⊥) → r ≤ q
    flip q r over = omega arith

module _ (page : ℕ) (power : IsAlignment page) (small : 2 * page ≤ region_default_size_bytes) where
  min_size-ge : 2 * page ≤ region_min_size_bytes page
  min_size-ge = ground arith

  region_of-IsCreated :
      (region_start region_size : ℕ)
      → region_start + region_size ≤ 2 ^ 63
      → 2 * page ≤ region_size
      → IsCreated page region_size (region_of page region_start region_size)
  region_of-IsCreated region_start region_size low large =
      let (pos, lt) = IsAlignment-bounds power in
      let exact : add_word region_start region_size ≡ region_start + region_size = omega arith in
      let last = ap (λ z. uint_lower_align z page) exact in
      let (up, above, near) =
        upper_align_bounds region_start page power (omega (arith, large, low)) in
      let (down, under, close) =
        lower_align_bounds (region_start + region_size) page power (omega (arith, low)) in
      let (capacity, some_page, e) =
        multiple_gap page (uint_upper_align region_start page)
          (uint_lower_align (region_start + region_size) page) up down (omega (arith, large)) in
      record {
        capacity = capacity;
        some_page = some_page;
        inside = above;
        aligned = up;
        end_at = last ∙ e;
        within = omega (arith, last, under);
        bound = omega (arith, last, under, low);
      }

  module _ {A : Type 0} ⦃sm : SystemMemory A⦄ (laws : IsSystemMemory sm) where
    -- What the loop asks the system for in the state `a`: memory of some size, or in vain the least size.
    data Looped (a : A) (r : Result A (Option (ℕ × ℕ))) : Type 0 where
      found :
          (region_start region_size : ℕ) (b : A)
          → r ≡ ok (some (region_start, region_size)) b
          → sm.operator_new region_size a ≡ some (region_start, b)
          → region_min_size_bytes page ≤ region_size
          → Looped a r
      failed : r ≡ ok none a → sm.operator_new (region_min_size_bytes page) a ≡ none → Looped a r

    requested-Looped :
        (size : ℕ) (rest : Result A (Option (ℕ × ℕ))) (a : A) (o : Option (ℕ × A))
        → sm.operator_new size a ≡ o
        → region_min_size_bytes page ≤ size
        → ((size == region_min_size_bytes page) ≡ false → Looped a rest)
        → Looped a (requested page size rest a o)
    requested-Looped size rest a (some (p, b)) e large more = found p size b refl e large
    requested-Looped size rest a none e large more =
        elim (Bool-cases (size == region_min_size_bytes page)) [
          | inl least ↦
              let at : size ≡ region_min_size_bytes page = ground (arith, least) in
              rw least (failed refl (ap (λ x. sm.operator_new x a) (sym at) ∙ e))
          | inr other ↦ rw other (more other)
        ]

    create_loop-Looped :
        (k region_size : ℕ) (a : A)
        → region_size < 2 ^ k
        → Looped a (create_loop page (suc k) region_size a)
    unfolding create_loop
    create_loop-Looped zero region_size a few =
        let size = size_max region_size (region_min_size_bytes page) in
        let (large, halves) = size_max_cases region_size (region_min_size_bytes page) in
        requested-Looped size out_of_fuel a (sm.operator_new size a) refl large
          (λ other. absurd (omega (arith, few, halves other)))
    create_loop-Looped (suc k) region_size a few =
        let size = size_max region_size (region_min_size_bytes page) in
        let (large, halves) = size_max_cases region_size (region_min_size_bytes page) in
        requested-Looped size (create_loop page (suc k) (size / 2) a) a (sm.operator_new size a)
          refl large (λ other. create_loop-Looped k (size / 2) a (omega (arith, few, halves other)))

    -- A region that lies inside new memory with at least one page, or no memory for the object of the
    -- region, or not even the least memory for its pages.
    pub data Created (a : A) (r : Result A (Option (ℕ × Region))) : Type 0 where
      created :
          (region region_size : ℕ) (g : Region) (b c : A)
          → sm.operator_new sm.sizeof_region a ≡ some (region, b)
          → sm.operator_new region_size b ≡ some (g.m_start, c)
          → region_min_size_bytes page ≤ region_size
          → r ≡ ok (some (region, g)) c
          → IsCreated page region_size g
          → Created a r
      no_object : sm.operator_new sm.sizeof_region a ≡ none → r ≡ ok none a → Created a r
      no_memory :
          (region : ℕ) (b : A)
          → sm.operator_new sm.sizeof_region a ≡ some (region, b)
          → sm.operator_new (region_min_size_bytes page) b ≡ none
          → r ≡ ok none (delete page region b)
          → Created a r

    finish-Created :
        (region : ℕ) (a b : A) (r : Result A (Option (ℕ × ℕ)))
        → sm.operator_new sm.sizeof_region a ≡ some (region, b)
        → Looped b r
        → Created a (finish_region page region r)
    unfolding delete_region
    finish-Created region a b r e (found region_start region_size c f memory large) = rw f (
        created region region_size (region_of page region_start region_size) b c e memory large refl
          (region_of-IsCreated region_start region_size
            (laws.bounds b c region_size region_start memory).1
            (omega (arith, large, min_size-ge))))
    finish-Created region a b r e (failed f none_left) = rw f (no_memory region b e none_left refl)

    with_object-Created :
        (a : A) (o : Option (ℕ × A))
        → sm.operator_new sm.sizeof_region a ≡ o
        → Created a (with_object page 24 a o)
    unfolding with_object
    with_object-Created a none e = no_object e refl
    with_object-Created a (some (region, b)) e =
        finish-Created region a b (create_loop page 24 region_default_size_bytes b) e
          (create_loop-Looped 23 region_default_size_bytes b (omega arith))

    -- `create_region`, for pages of at most half of the default size, ends after at most 24 requests for
    -- the memory of the pages. It makes a region with at least one page, whose pages are aligned and lie
    -- inside the memory of at least the least size that it got from the system; or it returns null,
    -- because the system has no memory for the object of the region, or none of the least size for its
    -- pages, and then the object is deleted.
    pub create_region-Created : (a : A) → Created a (create_region page 24 a)
    unfolding create_region
    create_region-Created a = with_object-Created a (sm.operator_new sm.sizeof_region a) refl
