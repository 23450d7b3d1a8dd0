-- ===== src/PageAllocator/Invariant.antt =====
-- detail/page_allocator.h: every page that a thread knows is in one stack, or in its hand.
use density.PageAllocator.Source.{IsFooter}
use density.PageAllocator.Operations.{
  PageAllocationType, Pool, slot_count, get_private_stack, shared_of,
}
use density.Base.{
  ℕ, ◌+◌, ◌≤◌, ◌<◌, ◌≡◌, ◌≢◌, sym, ap, subst, true, false, Bool-cases, inl, inr, List, count, arith,
}
use density.PageStack.Sequential.{IsPages}
use density.PageAllocator.CallSteps.{IsOpen}
use density.PageAllocator.Sums.{sum, sum-le, sum_two}
use density.PageAllocator.Tops.{both, same_kind, kind_eq, private_le, private_other}

module _ {A : Type 0} (page_alignment : ℕ) where
  -- The pages `world`, each in a stack of a slot, in a private stack, or in hand as often as `held` says;
  -- the pages `pending`, which are still to be unpinned, are other ones.
  pub record IsPool (world pending : List ℕ) (held : ℕ → ℕ) (s : Pool A) : Type 0 where
    pub pages : PageAllocationType → ℕ → List ℕ
    pub privates : PageAllocationType → List ℕ
    pub opened :
        (k : PageAllocationType) (i : ℕ) → i < slot_count → IsOpen (shared_of k i s) (pages k i)
    pub private : (k : PageAllocationType) → IsPages s.footers (get_private_stack k s) (privates k)
    pub to_unpin : IsPages s.footers s.m_pages_to_unpin pending
    pub all :
        (a : ℕ)
        → both (λ k. sum slot_count (λ i. count a (pages k i)) + count a (privates k)) + held a
          ≡ count a world
    pub apart : (a : ℕ) → count a world + count a pending ≤ 1
    pub are_footers : (a : ℕ) → 0 < count a world → IsFooter page_alignment a
    pub current : s.m_current_slot < slot_count
    pub victim : s.m_victim_slot < slot_count

module _ {A : Type 0} {page_alignment : ℕ} {world pending : List ℕ} {held : ℕ → ℕ} {s : Pool A}
    (p : IsPool page_alignment world pending held s) where
  abbrev pub in_slots : ℕ → PageAllocationType → ℕ
  in_slots a k = sum slot_count (λ i. count a (p.pages k i))

  pub slot_apart :
      (k k' : PageAllocationType) (i j a : ℕ)
      → i < slot_count
      → j < slot_count
      → (same_kind k k' ≡ true → j ≢ i)
      → 0 < count a (p.pages k' j)
      → count a (p.pages k i) + held a ≡ 0
  slot_apart k k' i j a lt lt' ne pos =
      let u = sum-le slot_count i (λ x. count a (p.pages k x)) lt in
      let v = sum-le slot_count j (λ x. count a (p.pages k' x)) lt' in
      elim (Bool-cases (same_kind k k')) [
        | inr e ↦
            let w = private_other k k' (λ x. in_slots a x + count a (p.privates x)) e in
            omega (arith, p.all a, p.apart a, u, v, w, pos)
        | inl e ↦
            let w = private_le k (λ x. in_slots a x + count a (p.privates x)) in
            let two : count a (p.pages k i) + count a (p.pages k' j) ≤ in_slots a k =
              subst (λ x. count a (p.pages k i) + count a (p.pages x j) ≤ in_slots a k)
                (sym (kind_eq k k' e))
                (sum_two slot_count i j (λ x. count a (p.pages k x)) lt lt' (λ h. ne e (sym h))) in
            omega (arith, p.all a, p.apart a, two, w, pos)
      ]

  pub private_apart :
      (k k' : PageAllocationType) (i a : ℕ)
      → i < slot_count
      → 0 < count a (p.privates k')
      → count a (p.pages k i) + held a ≡ 0
  private_apart k k' i a lt pos =
      let u = sum-le slot_count i (λ x. count a (p.pages k x)) lt in
      let f = λ (x : PageAllocationType). in_slots a x + count a (p.privates x) in
      elim (Bool-cases (same_kind k k')) [
        | inr e ↦ omega (arith, p.all a, p.apart a, u, private_other k k' f e, pos)
        | inl e ↦
            let at : count a (p.privates k') ≡ count a (p.privates k) =
              ap (λ x. count a (p.privates x)) (kind_eq k k' e) in
            omega (arith, p.all a, p.apart a, u, at, private_le k f, pos)
      ]

  pub pending_apart :
      (k : PageAllocationType) (i a : ℕ)
      → i < slot_count
      → 0 < count a pending
      → count a (p.pages k i) + held a ≡ 0
  pending_apart k i a lt pos =
      let u = sum-le slot_count i (λ x. count a (p.pages k x)) lt in
      omega (
        arith,
        p.all a,
        p.apart a,
        u,
        private_le k (λ x. in_slots a x + count a (p.privates x)),
        pos,
      )

  -- What is in a slot is not in a private stack or in hand.
  pub slot_private_apart :
      (k k' : PageAllocationType) (j a : ℕ)
      → j < slot_count
      → 0 < count a (p.pages k' j)
      → count a (p.privates k) + held a ≡ 0
  slot_private_apart k k' j a lt pos =
      let u = sum-le slot_count j (λ x. count a (p.pages k' x)) lt in
      let f = λ (x : PageAllocationType). in_slots a x + count a (p.privates x) in
      elim (Bool-cases (same_kind k k')) [
        | inr e ↦ omega (arith, p.all a, p.apart a, u, private_other k k' f e, pos)
        | inl e ↦
            let at : count a (p.privates k') ≡ count a (p.privates k) =
              ap (λ x. count a (p.privates x)) (kind_eq k k' e) in
            omega (arith, p.all a, p.apart a, u, at, private_le k' f, pos)
      ]

  pub two_private_apart :
      (k k' : PageAllocationType) (a : ℕ)
      → same_kind k k' ≡ false
      → 0 < count a (p.privates k')
      → count a (p.privates k) + held a ≡ 0
  two_private_apart k k' a e pos = omega (
    arith,
    p.all a,
    p.apart a,
    private_other k k' (λ x. in_slots a x + count a (p.privates x)) e,
    pos,
  )

  pub private_hand_apart :
      (k : PageAllocationType) (a : ℕ) → 0 < count a (p.privates k) → held a ≡ 0
  private_hand_apart k a pos =
      omega
        (arith, p.all a, p.apart a, private_le k (λ x. in_slots a x + count a (p.privates x)), pos)

  pub private_pending_apart :
      (k : PageAllocationType) (a : ℕ) → 0 < count a pending → count a (p.privates k) + held a ≡ 0
  private_pending_apart k a pos =
      omega
        (arith, p.all a, p.apart a, private_le k (λ x. in_slots a x + count a (p.privates x)), pos)
