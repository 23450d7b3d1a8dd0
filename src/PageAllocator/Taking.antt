-- ===== src/PageAllocator/Taking.antt =====
-- detail/page_allocator.h: `allocate_page_slow_path` and `try_allocate_page`.
use density.Base.{
  count-append, ◌++◌, ◌∙◌, ◌<◌, arith, subst, ◌≤◌, length, ◌≡◌, List, ℕ, ◌∷◌, [], ◌+◌, sym, ap,
  count, Bool-cases, true, false, not, ◌&&◌, inl, inr, if◌then◌else◌, ◌==◌,
}
use density.PageStack.WaitFree.{lock_marker}
use density.PageAllocator.Operations.{
  Pool, PageAllocationType, PageManager, slot_count, ProgressGuarantee, at_most_lock_free,
  is_blocking, progress_blocking, progress_wait_free, process_pending_unpins,
  try_steal_and_allocate,
}
use density.Effects.{M, Result, ok, bind-ok, ◌>>=◌}
use density.Align.{uint_lower_align}
use density.PageAllocator.Pops.{
  PoppedPool, took, took_none, from_slot-PoppedPool, from_private-PoppedPool,
}
use density.PageAllocator.Stealing.{try_steal-PoppedPool, steal_loop-PoppedPool}
use density.PageAllocator.Unpinning.{process-Processed}
use density.PageAllocator.Pages.{
  from_private, from_slot, from_system, allocate_page_slow_path, steal_loop, or_else,
  try_allocate_page,
}
use density.PageAllocator.Source.{IsSource}
use density.PageAllocator.Invariant.{IsPool}
use density.PageAllocator.Finding.{Known, Found, reused, fresh, no_page, from_system-Found}

not_null : (x : ℕ) → lock_marker < x → (x == 0) ≡ false
not_null x large = ground arith

first_count : (x : ℕ) (xs : List ℕ) → 0 < count x (x ∷ xs)
first_count x xs = ground arith

module _ {A : Type 0} ⦃pm : PageManager A⦄ {IsGiven : A → ℕ → Type 0} (src : IsSource pm IsGiven)
    (k : PageAllocationType) (world pending : List ℕ) (rest : ℕ → ℕ) where
  same_given :
      (s t : Pool A)
      → t.system ≡ s.system
      → Known IsGiven world pending s
      → Known IsGiven world pending t
  same_given s t e known a used = subst (λ z. IsGiven z a) (sym e) (known a used)

  -- A pop, and what comes after it if there is no page.
  or_else-Found :
      (m n : M (Pool A) ℕ) (s : Pool A)
      → PoppedPool pm.page_alignment_and_size world pending rest s (m s)
      → Known IsGiven world pending s
      → ((t : Pool A)
          → IsPool pm.page_alignment_and_size world pending rest t
          → Known IsGiven world pending t
          → Found pm IsGiven k (λ x. x) world pending rest (n t))
      → Found pm IsGiven k (λ x. x) world pending rest (or_else m n s)
  or_else-Found m n s (took x t run large free a) known further =
      let next : ℕ → M (Pool A) ℕ = λ page. if page == 0 then n else ok page in
      let some_page : (x == 0) ≡ false = not_null x large in
      let q = a.pool in
      let self = first_count x [] in
      reused x t (bind-ok m next s t x run ∙ rw some_page) (omega (arith, q.all x, self))
        (ap (λ (f : ℕ → ℕ). f x) a.pins ∙ free) q (same_given s t a.system known)
  or_else-Found m n s (took_none u run a) known further =
      let next : ℕ → M (Pool A) ℕ = λ page. if page == 0 then n else ok page in
      let start = bind-ok m next s u 0 run in
      subst (Found pm IsGiven k (λ x. x) world pending rest) (sym start)
        (further u a.pool (same_given s u a.system known))

  slow_path-Found :
      (fuel : ℕ) (g : ProgressGuarantee) (s : Pool A)
      → IsPool pm.page_alignment_and_size world pending rest s
      → Known IsGiven world pending s
      → length world ≤ fuel
      → Found pm IsGiven k (λ x. x) world pending rest (allocate_page_slow_path k fuel g s)
  unfolding allocate_page_slow_path
  slow_path-Found fuel g s p known enough =
      let last : ℕ → M (Pool A) ℕ = λ stolen.
        if (stolen == 0) && is_blocking g then from_system k progress_blocking else ok stolen in
      let next : ℕ → M (Pool A) ℕ =
        λ page. if not (page == 0) then ok page else steal_loop k slot_count fuel >>= last in
      elim (from_system-Found src k rest progress_wait_free s p known) [
        | reused x t run used free q known' ↦
            let some_page : (x == 0) ≡ false = not_null x (q.are_footers x used).0 in
            reused x t (bind-ok (from_system k progress_wait_free) next s t x run ∙ rw some_page)
              used free q known'
        | fresh page x t run at low new free zeros q known' ↦
            let some_page : (x == 0) ≡ false =
              not_null x (q.are_footers x (first_count x world)).0 in
            fresh page x t
              (bind-ok (from_system k progress_wait_free) next s t x run ∙ rw some_page) at low new
              free zeros q known'
        | no_page u run q known' ↦
            subst (Found pm IsGiven k (λ x. x) world pending rest)
              (sym (bind-ok (from_system k progress_wait_free) next s u 0 run))
              (stolen-Found u (steal_loop-PoppedPool k slot_count fuel rest u q enough) known')
      ]
    where
      stolen-Found :
          (u : Pool A)
          → PoppedPool pm.page_alignment_and_size world pending rest u
              (steal_loop k slot_count fuel u)
          → Known IsGiven world pending u
          → Found pm IsGiven k
              (λ x. x)
              world
              pending
              rest
              ((steal_loop k slot_count fuel >>= λ stolen.
                  if (stolen == 0) && is_blocking g
                  then from_system k progress_blocking
                  else ok stolen)
                u)
      stolen-Found u (took x t run large free a) known' =
          let last : ℕ → M (Pool A) ℕ = λ stolen.
            if (stolen == 0) && is_blocking g then from_system k progress_blocking else ok stolen in
          let some_page : (x == 0) ≡ false = not_null x large in
          let q = a.pool in
          let self = first_count x [] in
          reused x t (bind-ok (steal_loop k slot_count fuel) last u t x run ∙ rw some_page)
            (omega (arith, q.all x, self)) (ap (λ (f : ℕ → ℕ). f x) a.pins ∙ free) q
            (same_given u t a.system known')
      stolen-Found u (took_none t run a) known' =
          let last : ℕ → M (Pool A) ℕ = λ stolen.
            if (stolen == 0) && is_blocking g then from_system k progress_blocking else ok stolen in
          let start = bind-ok (steal_loop k slot_count fuel) last u t 0 run in
          let known'' = same_given u t a.system known' in
          subst (Found pm IsGiven k (λ x. x) world pending rest) (sym start)
            (elim (Bool-cases (is_blocking g)) [
              | inl waits ↦
                  rw waits (from_system-Found src k rest progress_blocking t a.pool known'')
              | inr e ↦ no_page t (rw e) a.pool known''
            ])

  -- Private pages, the current slot, a victim, and the slow path, one after the other.
  chain-Found :
      (fuel : ℕ) (g : ProgressGuarantee) (s : Pool A)
      → IsPool pm.page_alignment_and_size world pending rest s
      → Known IsGiven world pending s
      → length world ≤ fuel
      → Found pm IsGiven k
          (λ x. x)
          world
          pending
          rest
          (or_else
            (from_private k fuel)
            (or_else
              (from_slot k fuel)
              (or_else (try_steal_and_allocate k fuel) (allocate_page_slow_path k fuel g)))
            s)
  chain-Found fuel g s p known enough =
      or_else-Found (from_private k fuel) _ s (from_private-PoppedPool k fuel rest p enough) known
        (λ t q h.
          or_else-Found (from_slot k fuel) _ t (from_slot-PoppedPool k fuel rest q enough) h
            (λ u r i.
              or_else-Found (try_steal_and_allocate k fuel) _ u
                (try_steal-PoppedPool k fuel rest u r enough) i
                (λ v w j. slow_path-Found fuel g v w j enough)))

  -- The result of a search is changed.
  address-Found :
      (address : ℕ → ℕ) (m : M (Pool A) ℕ) (s : Pool A)
      → Found pm IsGiven k (λ x. x) world pending rest (m s)
      → Found pm IsGiven k address world pending rest ((m >>= λ page. ok (address page)) s)
  address-Found address m s (reused x t run used free p known) =
      reused x t (bind-ok m (λ page. ok (address page)) s t x run) used free p known
  address-Found address m s (fresh page x t run at low new free zeros p known) =
      fresh page x t (bind-ok m (λ page. ok (address page)) s t x run) at low new free zeros p known
  address-Found address m s (no_page t run p known) =
      no_page t (bind-ok m (λ page. ok (address page)) s t 0 run) p known

-- The pages that are left to unpin, and the page that was found.
pub record Allocated {A : Type 0} (pm : PageManager A) (IsGiven : A → ℕ → Type 0)
    (k : PageAllocationType) (g : ProgressGuarantee) (world pending : List ℕ) (rest : ℕ → ℕ)
    (r : Result (Pool A) ℕ) : Type 0 where
  pub unpinned : List ℕ
  pub left : List ℕ
  pub split : pending ≡ unpinned ++ left
  pub complete : at_most_lock_free g ≡ true → left ≡ []
  pub found :
      Found pm IsGiven k (λ x. uint_lower_align x pm.page_alignment_and_size) world left rest r

-- `try_allocate_page` of a thread that knows the pages `world`, each of them in one stack or in a hand, and
-- the pages `pending`, which are to be unpinned, ends with fuel of at least their number, whichever calls
-- of the slots fail. It first unpins some of the pending pages, all of them in lock-freedom. Then the result
-- is the address of a known page that is not pinned, and that is now in hand besides the pages of
-- before; or that of a new page from the page manager, which has its footer at its end, no pins, and zeros
-- before the footer if a zeroed page is asked from a manager whose pages are not; or the null address, and
-- no page has changed hands. In each case all pages are in one stack or in a hand, and the page manager
-- has given them. The page manager gives aligned pages inside the address space, and none twice.
pub try_allocate_page-Allocated :
    {A : Type 0} ⦃pm : PageManager A⦄ {IsGiven : A → ℕ → Type 0} (src : IsSource pm IsGiven)
    (k : PageAllocationType) (world pending : List ℕ) (rest : ℕ → ℕ) (fuel : ℕ)
    (g : ProgressGuarantee) (s : Pool A)
    → IsPool pm.page_alignment_and_size world pending rest s
    → Known IsGiven world pending s
    → length world + length pending ≤ fuel
    → Allocated pm IsGiven k g world pending rest (try_allocate_page k fuel g s)
unfolding try_allocate_page
try_allocate_page-Allocated {A} ⦃pm⦄ {IsGiven} src k world pending rest fuel g s p known enough =
    let o = process-Processed pending g fuel s p (λ e. omega (arith, enough)) in
    let chain : M (Pool A) ℕ = or_else (from_private k fuel) (
      or_else (from_slot k fuel)
        (or_else (try_steal_and_allocate k fuel) (allocate_page_slow_path k fuel g))) in
    let address = λ (x : ℕ). uint_lower_align x pm.page_alignment_and_size in
    let less : (a : ℕ) → 0 < count a world + count a o.left → 0 < count a world + count a pending =
      λ a used. omega (arith, used, ap (count a) o.split, count-append a o.unpinned o.left) in
    let known' : Known IsGiven world o.left o.t =
      λ a used. subst (λ z. IsGiven z a) (sym o.system) (known a (less a used)) in
    let start =
      bind-ok (process_pending_unpins fuel g) (λ _. chain >>= λ page. ok (address page)) s o.t tt
        o.run in
    record {
      unpinned = o.unpinned;
      left = o.left;
      split = o.split;
      complete = o.complete;
      found = subst (Found pm IsGiven k address world o.left rest) (sym start) (
          address-Found src k world o.left rest address chain o.t
            (chain-Found src k world o.left rest fuel g o.t o.pool known' (omega (arith, enough))));
    }
