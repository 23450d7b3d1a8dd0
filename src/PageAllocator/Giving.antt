-- ===== src/PageAllocator/Giving.antt =====
-- detail/page_allocator.h: `deallocate_page`.
use density.Effects.{M, ◌>>=◌, Result, ok, bind-ok}
use density.Base.{
  ◌∙◌, arith, if◌then◌else◌, Bool, ◌++◌, [], ◌≡◌, ◌∷◌, List, ℕ, ◌+◌, count, Bool-cases, inl, inr,
}
use density.PageAllocator.Operations.{
  slot_count, Pool, PageAllocationType, PageManager, process_pending_unpins, progress_wait_free,
}
use density.PageAllocator.Pops.{push_private-After}
use density.PageAllocator.Rounds.{push_loop-After}
use density.PageAllocator.Unpinning.{process-Processed, unpin_all}
use density.PageAllocator.Pages.{deallocate_page, push_loop, push_private, get_footer}
use density.PageAllocator.Invariant.{IsPool}
use density.PageAllocator.Changes.{held-IsPool}

-- What is left to unpin, and the pages of a thread that holds none.
pub record Deallocated {A : Type 0} (page_alignment : ℕ) (world pending : List ℕ) (rest : ℕ → ℕ)
    (s : Pool A) (r : Result (Pool A) (Unit {0})) : Type 0 where
  pub t : Pool A
  pub run : r ≡ ok tt t
  pub unpinned : List ℕ
  pub left : List ℕ
  pub split : pending ≡ unpinned ++ left
  pub pool : IsPool page_alignment world left rest t
  pub pins : t.footers.m_pin_count ≡ unpin_all unpinned s.footers.m_pin_count

-- `deallocate_page` of a page in hand ends, whichever calls of the slots fail: the page is in a stack then,
-- as all other pages that are known are in one stack or in a hand. Some of the first pending pages are
-- unpinned once each, the others stay pending, and no other pin count changes.
pub deallocate_page-Deallocated :
    {A : Type 0} ⦃pm : PageManager A⦄ (k : PageAllocationType) (fuel i_page : ℕ)
    (world pending : List ℕ) (rest : ℕ → ℕ) (s : Pool A)
    → IsPool pm.page_alignment_and_size world pending
        (λ a. count a (get_footer pm.page_alignment_and_size i_page ∷ []) + rest a)
        s
    → Deallocated pm.page_alignment_and_size world pending rest s (deallocate_page k fuel i_page s)
unfolding deallocate_page
deallocate_page-Deallocated {A} ⦃pm⦄ k fuel i_page world pending rest s p =
    let page = get_footer pm.page_alignment_and_size i_page in
    let o = process-Processed pending progress_wait_free fuel s p (λ e. cc) in
    let next : Bool → M (Pool A) (Unit {0}) = λ done. if done then ok tt else push_private k page in
    let (b, u, run, a) = push_loop-After k slot_count page rest o.t o.pool in
    let start =
      bind-ok (process_pending_unpins fuel progress_wait_free)
        (λ _. push_loop k slot_count page >>= next) s o.t tt o.run
      ∙ bind-ok (push_loop k slot_count page) next o.t u b run in
    elim (Bool-cases b) [
      | inl e ↦ record {
        t = u;
        run = start ∙ rw e;
        unpinned = o.unpinned;
        left = o.left;
        split = o.split;
        pool = held-IsPool (rw e at a.pool) rest (λ x. omega arith);
        pins = a.pins ∙ o.pins;
      }
      | inr e ↦
          let (t, run', a') = push_private-After k page rest (rw e at a.pool) in
          record {
            t = t;
            run = start ∙ (rw e run');
            unpinned = o.unpinned;
            left = o.left;
            split = o.split;
            pool = a'.pool;
            pins = a'.pins ∙ a.pins ∙ o.pins;
          }
    ]
