-- ===== src/Heap.antt =====
-- An allocator on which the theorems are applied: its pages and its blocks get increasing addresses,
-- and a request is refused where the address is taken or not aligned.
use density.Base.{
  ℕ, suc, ◌+◌, ◌*◌, ◌%◌, ◌^◌, ◌≤◌, ◌<◌, ◌≡◌, refl, sym, ap, subst, Bool, true, false, not, Option,
  none, some, List, [], ◌∷◌, ◌||◌, map, arith, ◌==◌, ltb, leb, has, ◌∈◌, if◌then◌else◌,
}
use density.Allocator.{Allocator, IsAllocator, IsApart}
use density.Align.Pages.{page_of}

-- The number of requests that were granted, and what they got.
pub record Heap : Type 0 where
  pub count : ℕ
  pub pages : List ℕ
  pub blocks : List ℕ

abbrev remove : ℕ → List ℕ → List ℕ
remove a [] = []
remove a (b ∷ xs) = if b == a then remove a xs else b ∷ remove a xs

remove_lem : (a b : ℕ) (xs : List ℕ) → has b (remove a xs) ≡ (if b == a then false else has b xs)
remove_lem a b [] = ground arith
remove_lem a b (c ∷ xs) = ground (arith, remove_lem a b xs)

abbrev take_page : Heap → Option (ℕ × Heap)
take_page h =
    let p = suc h.count * 65536 in
    if has p h.pages || has p (map (page_of 65536) h.blocks) || ltb (2 ^ 63) (p + 65536)
    then none
    else some (p, record h { count = suc h.count; pages = p ∷ h.pages })

abbrev take_block : ℕ → Heap → Option (ℕ × Heap)
take_block m h =
    let b = suc h.count * 65536 in
    if has b h.blocks || has (page_of 65536 b) h.pages || leb (2 ^ 63) b || not (b % m == 0)
    then none
    else some (b, record h { count = suc h.count; blocks = b ∷ h.blocks })

instance abbrev pub counting : Allocator Heap
counting = record {
  allocate_page = take_page;
  deallocate_page = λ p h. record h { pages = remove (page_of 65536 p) h.pages };
  allocate = λ n m h. take_block m h;
  deallocate = λ b n m h. record h { blocks = remove b h.blocks };
}

-- What a successful test tells.
pub passed :
    {B : Type 0} (c : Bool) (x y : B)
    → (if c then none else some x) ≡ some y
    → (c ≡ false) × (x ≡ y)
passed true x y e = cc
passed false x y e = (refl, cc)

page_taken :
    (h t : Heap) (p : ℕ)
    → take_page h ≡ some (p, t)
    → (has p h.pages ≡ false)
      × (has p (map (page_of 65536) h.blocks) ≡ false)
      × (p + 65536 ≤ 2 ^ 63)
      × (p ≡ suc h.count * 65536)
      × (record h { count = suc h.count; pages = p ∷ h.pages } ≡ t)
page_taken h t p e =
    let (c, f) =
      passed
        (has (suc h.count * 65536) h.pages
          || has (suc h.count * 65536) (map (page_of 65536) h.blocks)
          || ltb (2 ^ 63) (suc h.count * 65536 + 65536))
        _ _ e in
    let q : suc h.count * 65536 ≡ p = ap (λ x. x.0) f in
    subst
      (λ a.
        (has a h.pages ≡ false)
        × (has a (map (page_of 65536) h.blocks) ≡ false)
        × (a + 65536 ≤ 2 ^ 63)
        × (a ≡ suc h.count * 65536)
        × (record h { count = suc h.count; pages = a ∷ h.pages } ≡ t))
      q (ground arith, ground arith, ground arith, refl, ap (λ x. x.1) f)

block_taken :
    (m : ℕ) (h t : Heap) (b : ℕ)
    → take_block m h ≡ some (b, t)
    → (has b h.blocks ≡ false)
      × (has (page_of 65536 b) h.pages ≡ false)
      × (b < 2 ^ 63)
      × (b % m ≡ 0)
      × (b ≡ suc h.count * 65536)
      × (record h { count = suc h.count; blocks = b ∷ h.blocks } ≡ t)
block_taken m h t b e =
    let c = suc h.count * 65536 in
    let (test, f) =
      passed (has c h.blocks || has (page_of 65536 c) h.pages || leb (2 ^ 63) c || not (c % m == 0))
        _ _ e in
    subst
      (λ a.
        (has a h.blocks ≡ false)
        × (has (page_of 65536 a) h.pages ≡ false)
        × (a < 2 ^ 63)
        × (a % m ≡ 0)
        × (a ≡ suc h.count * 65536)
        × (record h { count = suc h.count; blocks = a ∷ h.blocks } ≡ t))
      (ap (λ x. x.0) f)
      (ground arith, ground arith, ground arith, ground arith, refl, ap (λ x. x.1) f)

owned_page :
    (h t : Heap) (p a : ℕ)
    → take_page h ≡ some (p, t)
    → has a t.pages ≡ (if a == p then true else has a h.pages)
owned_page h t p a e =
    let (out, apart, bound, at, f) = page_taken h t p e in
    subst (λ u. has a u.pages ≡ (if a == p then true else has a h.pages)) f (ground arith)

owned_block :
    (m : ℕ) (h t : Heap) (p a : ℕ)
    → take_block m h ≡ some (p, t)
    → has a t.blocks ≡ (if a == p then true else has a h.blocks)
owned_block m h t p a e =
    let (out, apart, low, al, at, f) = block_taken m h t p e in
    subst (λ u. has a u.blocks ≡ (if a == p then true else has a h.blocks)) f (ground arith)

pub counting-IsAllocator : IsAllocator counting 65536
counting-IsAllocator = record {
  owns_page = λ h a. has a h.pages;
  owns_block = λ h a. has a h.blocks;
  page_bounds = λ h t p e.
      let (out, apart, bound, at, f) = page_taken h t p e in (omega arith, omega arith, bound);
  page_fresh = λ h t p e. (page_taken h t p e).0;
  page_owned = owned_page;
  page_blocks = λ h t p a e.
      let (out, apart, bound, at, f) = page_taken h t p e in ap (λ u. has a u.blocks) (sym f);
  page_returned = λ h p a. remove_lem (page_of 65536 p) a h.pages;
  page_returned_blocks = λ h p a. refl;
  block_fresh = λ h t n m b e. (block_taken m h t b e).0;
  block_owned = λ h t n m b a e. owned_block m h t b a e;
  block_pages = λ h t n m b a e. ap (λ u. has a u.pages) (sym (block_taken m h t b e).5);
  block_returned = λ h b n m a. remove_lem b a h.blocks;
  block_returned_pages = λ h b n m a. refl;
}

pub owns_page-counting : (h : Heap) (a : ℕ) → counting-IsAllocator.owns_page h a ≡ has a h.pages
unfolding counting-IsAllocator
owns_page-counting h a = refl

pub owns_block-counting : (h : Heap) (a : ℕ) → counting-IsAllocator.owns_block h a ≡ has a h.blocks
unfolding counting-IsAllocator
owns_block-counting h a = refl

has-map : (f : ℕ → ℕ) (a : ℕ) (xs : List ℕ) → a ∈ xs → f a ∈ map f xs
has-map f a [] i = ground arith
has-map f a (x ∷ xs) i = ground (arith, has-map f a xs, i)

pub counting-IsApart : IsApart counting-IsAllocator
unfolding counting-IsAllocator
counting-IsApart = record {
  block_page = λ h t n m b e.
      let (out, apart, low, al, at, f) = block_taken m h t b e in (apart, omega arith, low, al);
  page_block = λ h t p b e i same.
      let (out, apart, bound, at, f) = page_taken h t p e in
      let inside : page_of 65536 b ∈ map (page_of 65536) h.blocks =
        has-map (page_of 65536) b h.blocks i in
      ground (arith, inside, apart, same);
}
