-- ===== src/PageAllocator/Growth.antt =====
-- detail/page_allocator.h: a page that was not known before.
use density.PageAllocator.Source.{IsFooter}
use density.PageAllocator.Operations.{
  PageAllocationType, uninitialized, zeroed, Pool, slot_count, get_private_stack,
}
use density.Base.{
  ℕ, ◌+◌, ◌<◌, ◌≡◌, ◌≢◌, ap, subst, Bool-cases, inl, inr, List, [], ◌∷◌, count, arith, ◌==◌,
}
use density.PageStack.Operations.{Footers}
use density.PageStack.Sequential.{IsPages}
use density.PageAllocator.Sums.{sum-le}
use density.PageAllocator.Tops.{by_kind, same_index, private_le, IsPages-agree}
use density.PageAllocator.Invariant.{IsPool, in_slots}
use density.PageAllocator.Changes.{after-IsOpen}

module _ {A : Type 0} {page_alignment : ℕ} {world pending : List ℕ} {held : ℕ → ℕ} {s : Pool A}
    (p : IsPool page_alignment world pending held s) where
  -- A new page, in hand.
  pub grow-IsPool :
      (x : ℕ) (m : Footers) (bytes : ℕ → ℕ) (system : A)
      → count x world + count x pending ≡ 0
      → IsFooter page_alignment x
      → ((a : ℕ) → a ≢ x → m.m_next_page a ≡ s.footers.m_next_page a)
      → IsPool page_alignment
          (x ∷ world)
          pending
          (λ a. count a (x ∷ []) + held a)
          (record s { footers = m; bytes = bytes; system = system })
  grow-IsPool x m bytes system new footer frame =
      let apart = λ (a : ℕ) (used : 0 < count a world + count a pending).
        frame a
          (λ e. absurd (omega (arith, used, new, ap (λ z. count z world + count z pending) e))) in
      let known = λ (k : PageAllocationType) (a : ℕ) (pos : 0 < count a (p.privates k)). apart a (
        omega (arith, p.all a, private_le k (λ x. in_slots p a x + count a (p.privates x)), pos)) in
      record {
        pages = p.pages;
        privates = p.privates;
        opened = after-IsOpen p m (λ a k' j lt pos.
            let u = sum-le slot_count j (λ x. count a (p.pages k' x)) lt in
            apart a (
              omega (
                arith,
                p.all a,
                u,
                private_le k' (λ x. in_slots p a x + count a (p.privates x)),
                pos,
              )));
        private =
            by_kind
              (λ k'.
                IsPages m
                  (get_private_stack k' (record s { footers = m; bytes = bytes; system = system }))
                  (p.privates k'))
              (IsPages-agree s.footers m s.m_private_page_stack (p.privates uninitialized)
                (known uninitialized) (p.private uninitialized))
              (IsPages-agree s.footers m s.m_private_zeroed_page_stack (p.privates zeroed)
                (known zeroed) (p.private zeroed));
        to_unpin =
            IsPages-agree s.footers m s.m_pages_to_unpin pending (λ a pos. apart a (omega arith))
              p.to_unpin;
        all = λ a. ground (arith, p.all a);
        apart = λ a. elim (Bool-cases (a == x)) [
          | inl e ↦
              let at = ap (λ z. count z world + count z pending) (same_index a x e) in
              ground (arith, new, at)
          | inr e ↦ ground (arith, p.apart a, e)
        ];
        are_footers = λ a pos. elim (Bool-cases (a == x)) [
          | inl e ↦ subst (IsFooter page_alignment) (same_index a x e) footer
          | inr e ↦ p.are_footers a (ground (arith, pos, e))
        ];
        current = p.current;
        victim = p.victim;
      }
