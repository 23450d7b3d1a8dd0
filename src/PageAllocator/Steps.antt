-- ===== src/PageAllocator/Steps.antt =====
-- detail/page_allocator.h: calls of a slot that push or remove, with the pages of the thread.
use density.Base.{
  sym, false, subst, ◌∙◌, Bool-cases, inl, inr, count, refl, true, ap, ◌==◌, [], arith,
  if◌then◌else◌, ◌+◌, ◌∷◌, ◌≤◌, length, ◌<◌, ◌≡◌, Bool, List, ℕ,
}
use density.PageStack.Operations.{PageStack, Footers}
use density.PageStack.WaitFree.{lock_marker, footers, Shared}
use density.PageStack.Sequential.{IsPages}
use density.PageAllocator.Operations.{
  put_shared, shared_of, slot_count, Pool, PageAllocationType, on_slot, on_footers,
}
use density.PageAllocator.Sums.{length_by_count, sum, sum-le}
use density.PageStack.Segment.{IsOnce}
use density.Effects.{M, Result, ok}
use density.PageAllocator.Calls.{call_push, call_push_range, call_remove}
use density.PageAllocator.CallSteps.{ArePages}
use density.PageAllocator.CallLaws.{call_push-IsOpen, call_push_range-PushedRange}
use density.PageAllocator.CallPops.{call_remove-RemovedCall}
use density.PageAllocator.Tops.{IsPages-agree, private_le}
use density.PageAllocator.Invariant.{IsPool}
use density.PageAllocator.SlotChanges.{put-IsPool}

-- The pages after a call; pin counts and the page manager are as before.
pub record After {A : Type 0} (page_alignment : ℕ) (world pending : List ℕ) (held : ℕ → ℕ)
    (s t : Pool A) : Type 0 where
  pub pool : IsPool page_alignment world pending held t
  pub pins : t.footers.m_pin_count ≡ s.footers.m_pin_count
  pub system : t.system ≡ s.system

module _ {A B : Type 0} where
  pub on_slot-ok :
      (k : PageAllocationType) (i : ℕ) (m : Bool → M Shared B) (s : Pool A) (b : B) (t : Shared)
      → m (s.contention s.calls) (shared_of k i s) ≡ ok b t
      → on_slot k i m s ≡ ok b (put_shared k i t s)
  unfolding on_slot
  on_slot-ok k i m s b t run = rw (on_slot, run)

  pub on_footers-ok :
      (m : M Footers B) (s : Pool A) (b : B) (t : Footers)
      → m s.footers ≡ ok b t
      → on_footers m s ≡ ok b (record s { footers = t })
  unfolding on_footers
  on_footers-ok m s b t run = rw (on_footers, run)

module _ {A : Type 0} {page_alignment : ℕ} {world pending : List ℕ} {held : ℕ → ℕ} {s : Pool A}
    (p : IsPool page_alignment world pending held s) where
  pub hand_large : (a : ℕ) → 0 < held a → lock_marker < a
  hand_large a pos = (p.are_footers a (omega (arith, p.all a))).0

  pub slot_le :
      (k : PageAllocationType) (i a : ℕ)
      → i < slot_count
      → count a (p.pages k i) + held a ≤ count a world
  slot_le k i a lt = omega (
    arith,
    p.all a,
    sum-le slot_count i (λ x. count a (p.pages k x)) lt,
    private_le k (λ x. sum slot_count (λ j. count a (p.pages x j)) + count a (p.privates x)),
  )

  pub slot-IsOnce : (k : PageAllocationType) (i : ℕ) → i < slot_count → IsOnce (p.pages k i)
  slot-IsOnce k i lt a = omega (arith, slot_le k i a lt, p.apart a)

  pub slot_large : (k : PageAllocationType) (i : ℕ) → i < slot_count → ArePages (p.pages k i)
  slot_large k i lt a pos = (p.are_footers a (omega (arith, slot_le k i a lt))).0

  pub slot_enough :
      (k : PageAllocationType) (i fuel : ℕ)
      → i < slot_count
      → length world ≤ fuel
      → length (p.pages k i) ≤ fuel
  slot_enough k i fuel lt enough =
      omega
        (arith, enough, length_by_count (p.pages k i) world (λ a. omega (arith, slot_le k i a lt)))

  pub private_le_world :
      (k : PageAllocationType) (a : ℕ) → count a (p.privates k) + held a ≤ count a world
  private_le_world k a = omega (
    arith,
    p.all a,
    private_le k (λ x. sum slot_count (λ j. count a (p.pages x j)) + count a (p.privates x)),
  )

  pub private_enough :
      (k : PageAllocationType) (fuel : ℕ) → length world ≤ fuel → length (p.privates k) ≤ fuel
  private_enough k fuel enough = omega (
    arith,
    enough,
    length_by_count (p.privates k) world (λ a. omega (arith, private_le_world k a)),
  )

  pub hand_enough :
      (own : List ℕ) (fuel : ℕ)
      → ((a : ℕ) → count a own ≤ held a)
      → length world ≤ fuel
      → length own ≤ fuel
  hand_enough own fuel most enough =
      omega (arith, enough, length_by_count own world (λ a. omega (arith, most a, p.all a)))

-- `try_push` of a page in hand.
pub push_slot :
    {A : Type 0} {page_alignment : ℕ} {world pending : List ℕ} {s : Pool A}
    → (k : PageAllocationType) (i page : ℕ) (rest : ℕ → ℕ)
    → IsPool page_alignment world pending (λ a. count a (page ∷ []) + rest a) s
    → i < slot_count
    → (b : Bool) × (t : Pool A) × (on_slot k i (λ c. call_push c page) s ≡ ok b t)
      × After page_alignment world pending (λ a. count a (if b then [] else page ∷ []) + rest a) s t
push_slot {s = s} k i page rest p lt =
    let self : (page == page) ≡ true = ground arith in
    let pos : 0 < count page (page ∷ []) + rest page = ground arith in
    let (b, t, run, o, frame) =
      call_push-IsOpen (s.contention s.calls) page (shared_of k i s) (p.pages k i) (p.opened k i lt)
        (hand_large p page pos) (omega (arith, slot_le p k i page lt, p.apart page, pos)) in
    (
      b,
      put_shared k i t s,
      on_slot-ok k i (λ c. call_push c page) s b t run,
      record {
        pool =
            put-IsPool p k i t (if b then page ∷ p.pages k i else p.pages k i)
              (λ a. count a (if b then [] else page ∷ []) + rest a) lt o
              (λ a. elim (Bool-cases b) [ inl e ↦ rw e (ground arith) | inr e ↦ rw e ])
              (λ a none. frame a (ground (arith, none)));
        pins = refl;
        system = refl;
      },
    )

-- The pages `own` of a stack in hand are put away, or stay in a stack in hand.
pub data PutStack {A : Type 0} (page_alignment : ℕ) (world pending own : List ℕ) (rest : ℕ → ℕ)
    (s : Pool A) (r : Result (Pool A) (Bool × PageStack)) : Type 0 where
  put_all :
      (left : PageStack) (t : Pool A)
      → r ≡ ok (true, left) t
      → After page_alignment world pending rest s t
      → PutStack page_alignment world pending own rest s r
  put_none :
      (left : PageStack) (t : Pool A)
      → r ≡ ok (false, left) t
      → IsPages t.footers left own
      → After page_alignment world pending (λ a. count a own + rest a) s t
      → PutStack page_alignment world pending own rest s r

-- `try_push` of a stack in hand.
pub push_slot_range :
    {A : Type 0} {page_alignment : ℕ} {world pending : List ℕ} {s : Pool A}
    → (k : PageAllocationType) (i fuel : ℕ) (st : PageStack) (x : ℕ) (xs : List ℕ) (rest : ℕ → ℕ)
    → IsPool page_alignment world pending (λ a. count a (x ∷ xs) + rest a) s
    → IsPages s.footers st (x ∷ xs)
    → i < slot_count
    → length world ≤ fuel
    → PutStack page_alignment world pending
        (x ∷ xs)
        rest
        s
        (on_slot k i (λ c. call_push_range c fuel st) s)
push_slot_range {page_alignment = page_alignment} {world = world} {pending = pending} {s = s} k i
      fuel st x xs rest p own lt enough =
    let (e, pos, l) = own.linked in
    let r =
      call_push_range-PushedRange (s.contention s.calls) fuel (shared_of k i s) st (p.pages k i)
        (x ∷ xs) (p.opened k i lt)
        (IsPages-agree s.footers (footers s.footers.m_next_page (λ a. 0)) st (x ∷ xs) (λ a h. refl)
          own)
        (omega (arith, e, pos)) (hand_enough p (x ∷ xs) fuel (λ a. omega arith) enough)
        (λ a. omega (arith, slot_le p k i a lt, p.apart a))
        (λ a h. hand_large p a (omega (arith, h))) in
    let t = put_shared k i r.t s in
    let run = on_slot-ok k i (λ c. call_push_range c fuel st) s (r.done, r.left) r.t r.run in
    let moved = put-IsPool p k i r.t r.pages' in
    elim (Bool-cases r.done) [
      | inl e ↦
          let none : count_all r.own' =
            subst count_all (sym (rw e at r.all_or_none)) (λ a. omega arith) in
          put_all r.left t (run ∙ rw e) (record {
            pool =
                moved rest lt r.opened (λ a. omega (arith, r.same a, none a))
                  (λ a h. r.frame a (omega (arith, h)));
            pins = refl;
            system = refl;
          })
      | inr e ↦
          let same : r.own' ≡ x ∷ xs = rw e at r.all_or_none in
          put_none r.left t (run ∙ rw e)
            (subst (λ ys. IsPages t.footers r.left ys) same
              (IsPages-agree (footers r.t.m_next_page (λ a. 0)) t.footers r.left r.own'
                (λ a h. refl) (r.kept e)))
            (record {
              pool =
                  moved (λ a. count a (x ∷ xs) + rest a) lt r.opened
                    (λ a. let at = ap (count a) same in omega (arith, r.same a, at))
                    (λ a h. r.frame a (omega (arith, h)));
              pins = refl;
              system = refl;
            })
    ]
  where
    count_all : List ℕ → Type 0
    count_all ys = (a : ℕ) → count a ys ≡ 0

-- `try_remove_all` takes the pages of a slot in hand.
pub remove_slot :
    {A : Type 0} {page_alignment : ℕ} {world pending : List ℕ} {s : Pool A}
    → (k : PageAllocationType) (i : ℕ) (rest : ℕ → ℕ) → IsPool page_alignment world pending rest s
    → i < slot_count
    → (st : PageStack) × (t : Pool A) × (own : List ℕ) × (on_slot k i call_remove s ≡ ok st t)
      × IsPages t.footers st own
      × After page_alignment world pending (λ a. count a own + rest a) s t
remove_slot {s = s} k i rest p lt =
    let r =
      call_remove-RemovedCall (s.contention s.calls) (shared_of k i s) (p.pages k i)
        (p.opened k i lt) (slot-IsOnce p k i lt) in
    (
      r.st,
      put_shared k i r.t s,
      r.own',
      on_slot-ok k i call_remove s r.st r.t r.run,
      IsPages-agree (footers r.t.m_next_page (λ a. 0)) (put_shared k i r.t s).footers r.st r.own'
          (λ a h. refl) r.kept,
      record {
        pool =
            put-IsPool p k i r.t r.pages' (λ a. count a r.own' + rest a) lt r.opened
              (λ a. omega (arith, r.same a)) (λ a none. ap (λ f. f a) r.links);
        pins = refl;
        system = refl;
      },
    )
