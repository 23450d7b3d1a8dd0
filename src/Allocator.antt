-- ===== src/Allocator.antt =====
-- The allocator that the containers are given as a template argument (the requirements
-- UntypedAllocator and PagedAllocator of the documentation), with what the containers rely on.
use density.Align.Pages.{page_of}
use density.Base.{
  ◌≢◌, ℕ, ◌+◌, ◌%◌, ◌^◌, ◌≤◌, ◌<◌, ◌≡◌, Bool, true, false, Option, some, ◌==◌, if◌then◌else◌,
}

-- `A` is the state behind an allocator object. `none` is a thrown std::bad_alloc.
pub record Allocator (A : Type 0) : Type 0 where
  pub allocate_page : A → Option (ℕ × A)
  pub deallocate_page : ℕ → A → A
  pub allocate : (i_size i_alignment : ℕ) → A → Option (ℕ × A)
  pub deallocate : (i_block i_size i_alignment : ℕ) → A → A

-- Pages are aligned, lie in the lower half of the address space, and are handed out once until they
-- are given back by any address in them. The two kinds of memory do not affect each other.
pub record IsAllocator {A : Type 0} (al : Allocator A) (page_alignment : ℕ) : Type 0 where
  pub owns_page : A → ℕ → Bool
  pub owns_block : A → ℕ → Bool
  pub page_bounds :
      (s t : A) (p : ℕ)
      → al.allocate_page s ≡ some (p, t)
      → (p % page_alignment ≡ 0) × (0 < p) × (p + page_alignment ≤ 2 ^ 63)
  pub page_fresh : (s t : A) (p : ℕ) → al.allocate_page s ≡ some (p, t) → owns_page s p ≡ false
  pub page_owned :
      (s t : A) (p a : ℕ)
      → al.allocate_page s ≡ some (p, t)
      → owns_page t a ≡ (if a == p then true else owns_page s a)
  pub page_blocks :
      (s t : A) (p a : ℕ) → al.allocate_page s ≡ some (p, t) → owns_block t a ≡ owns_block s a
  pub page_returned :
      (s : A) (p a : ℕ)
      → owns_page (al.deallocate_page p s) a
        ≡ (if a == page_of page_alignment p then false else owns_page s a)
  pub page_returned_blocks :
      (s : A) (p a : ℕ) → owns_block (al.deallocate_page p s) a ≡ owns_block s a
  pub block_fresh : (s t : A) (n m b : ℕ) → al.allocate n m s ≡ some (b, t) → owns_block s b ≡ false
  pub block_owned :
      (s t : A) (n m b a : ℕ)
      → al.allocate n m s ≡ some (b, t)
      → owns_block t a ≡ (if a == b then true else owns_block s a)
  pub block_pages :
      (s t : A) (n m b a : ℕ) → al.allocate n m s ≡ some (b, t) → owns_page t a ≡ owns_page s a
  pub block_returned :
      (s : A) (b n m a : ℕ)
      → owns_block (al.deallocate b n m s) a ≡ (if a == b then false else owns_block s a)
  pub block_returned_pages :
      (s : A) (b n m a : ℕ) → owns_page (al.deallocate b n m s) a ≡ owns_page s a

-- A page never holds a block, nor does the first page of the address space; a block is aligned,
-- and in the lower half of the address space.
pub record IsApart {A : Type 0} {al : Allocator A} {page_alignment : ℕ}
    (laws : IsAllocator al page_alignment) : Type 0 where
  pub block_page :
      (s t : A) (n m b : ℕ)
      → al.allocate n m s ≡ some (b, t)
      → (laws.owns_page s (page_of page_alignment b) ≡ false)
        × (0 < page_of page_alignment b)
        × (b < 2 ^ 63)
        × (b % m ≡ 0)
  pub page_block :
      (s t : A) (p b : ℕ)
      → al.allocate_page s ≡ some (p, t)
      → laws.owns_block s b ≡ true
      → page_of page_alignment b ≢ p
