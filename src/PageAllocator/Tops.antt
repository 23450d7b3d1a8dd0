-- ===== src/PageAllocator/Tops.antt =====
-- detail/page_allocator.h: the stacks of the slots, and the pages in them, by kind and slot.
use density.PageAllocator.Operations.{
  PageAllocationType, uninitialized, zeroed, Pool, slot_count, get_stack, put_shared,
}
use density.Base.{
  ℕ, ◌+◌, ◌≤◌, ◌<◌, ◌≡◌, refl, ap, Bool, true, false, Bool-cases, inl, inr, List, count, arith,
  ◌==◌, if◌then◌else◌,
}
use density.PageStack.Operations.{Footers, PageStack}
use density.PageStack.Sequential.{IsPages}
use density.PageStack.WaitFree.{Shared}
use density.PageStack.Conservation.{Segment-agree}
use density.PageAllocator.Sums.{sum, sum_update}

abbrev pub both : (PageAllocationType → ℕ) → ℕ
both f = f uninitialized + f zeroed

abbrev pub same_kind : PageAllocationType → PageAllocationType → Bool
same_kind uninitialized uninitialized = true
same_kind uninitialized zeroed = false
same_kind zeroed uninitialized = false
same_kind zeroed zeroed = true

abbrev pub by_kind :
    (P : PageAllocationType → Type 0) → P uninitialized → P zeroed → (k : PageAllocationType) → P k
by_kind P u z uninitialized = u
by_kind P u z zeroed = z

pub kind_eq : (k k' : PageAllocationType) → same_kind k k' ≡ true → k' ≡ k
kind_eq uninitialized uninitialized e = refl
kind_eq uninitialized zeroed e = cc
kind_eq zeroed uninitialized e = cc
kind_eq zeroed zeroed e = refl

pub same_index : (j i : ℕ) → (j == i) ≡ true → i ≡ j
same_index j i e = ground arith

module _ {A : Type 0} where
  -- The tops of the stacks after a call.
  pub first_put :
      (k k' : PageAllocationType) (i j : ℕ) (t : Shared) (s : Pool A)
      → get_stack k' ((put_shared k i t s).slots j) ≡ (
          if same_kind k k'
          then (if j == i then t.m_first else get_stack k' (s.slots j))
          else get_stack k' (s.slots j))
  first_put uninitialized uninitialized i j t s = elim (Bool-cases (j == i)) [
    | inl e ↦ rw e
    | inr e ↦ rw e
  ]
  first_put uninitialized zeroed i j t s = elim (Bool-cases (j == i)) [
    | inl e ↦ rw e (ap (λ z. get_stack zeroed (s.slots z)) (same_index j i e))
    | inr e ↦ rw e
  ]
  first_put zeroed uninitialized i j t s = elim (Bool-cases (j == i)) [
    | inl e ↦ rw e (ap (λ z. get_stack uninitialized (s.slots z)) (same_index j i e))
    | inr e ↦ rw e
  ]
  first_put zeroed zeroed i j t s = elim (Bool-cases (j == i)) [ inl e ↦ rw e | inr e ↦ rw e ]

-- A slot's pages are other ones.
abbrev pub put_pages :
    PageAllocationType
    → ℕ
    → List ℕ
    → (PageAllocationType → ℕ → List ℕ)
    → PageAllocationType
    → ℕ
    → List ℕ
put_pages k i new pages k' j =
    if same_kind k k' then (if j == i then new else pages k' j) else pages k' j

pub put_pages-count :
    (k : PageAllocationType) (i a : ℕ) (new : List ℕ) (pages : PageAllocationType → ℕ → List ℕ)
    (f : PageAllocationType → ℕ)
    → i < slot_count
    → both (λ k'. sum slot_count (λ j. count a (put_pages k i new pages k' j)) + f k')
        + count a (pages k i)
      ≡ both (λ k'. sum slot_count (λ j. count a (pages k' j)) + f k') + count a new
put_pages-count uninitialized i a new pages f lt =
    let self : (i == i) ≡ true = ground arith in
    omega (
      arith,
      sum_update slot_count i (count a new) (λ j. count a (pages uninitialized j))
          (λ j. count a (put_pages uninitialized i new pages uninitialized j)) lt (rw self)
          (λ j ne. let other : (j == i) ≡ false = ground arith in rw other),
    )
put_pages-count zeroed i a new pages f lt =
    let self : (i == i) ≡ true = ground arith in
    omega (
      arith,
      sum_update slot_count i (count a new) (λ j. count a (pages zeroed j))
          (λ j. count a (put_pages zeroed i new pages zeroed j)) lt (rw self)
          (λ j ne. let other : (j == i) ≡ false = ground arith in rw other),
    )

-- What is in one list is nowhere else.
pub private_le : (k : PageAllocationType) (f : PageAllocationType → ℕ) → f k ≤ both f
private_le uninitialized f = omega arith
private_le zeroed f = omega arith

pub private_other :
    (k k' : PageAllocationType) (f : PageAllocationType → ℕ)
    → same_kind k k' ≡ false
    → f k + f k' ≤ both f
private_other uninitialized uninitialized f e = cc
private_other uninitialized zeroed f e = omega arith
private_other zeroed uninitialized f e = omega arith
private_other zeroed zeroed f e = cc

-- A stack whose pages keep their links.
pub IsPages-agree :
    (m m' : Footers) (st : PageStack) (pages : List ℕ)
    → ((a : ℕ) → 0 < count a pages → m'.m_next_page a ≡ m.m_next_page a)
    → IsPages m st pages
    → IsPages m' st pages
IsPages-agree m m' st pages same i = record {
  linked = Segment-agree m.m_next_page m'.m_next_page st.m_first 0 pages same i.linked;
  once = i.once;
  cached = i.cached;
}
