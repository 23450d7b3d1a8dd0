-- ===== src/PageAllocator/Pops.antt =====
-- detail/page_allocator.h: pops of a slot and of a private stack, with the pages of the thread.
use density.PageAllocator.Steps.{
  on_slot-ok, private_le_world, slot_enough, hand_large, on_footers-ok, slot_large, After,
  private_enough, slot-IsOnce,
}
use density.Base.{
  count-append, ◌∙◌, ◌++◌, count, refl, ap, [], arith, ◌+◌, ◌∷◌, ◌≤◌, length, ◌<◌, ◌≡◌, List, ℕ,
}
use density.PageStack.Operations.{pop_unpinned, push, PageStack, Footers}
use density.PageStack.WaitFree.{popped, lock_marker}
use density.PageStack.Sequential.{push-IsPages}
use density.PageStack.Popping.{pop_unpinned-Popped, popped, all_pinned}
use density.PageAllocator.Operations.{
  get_private_stack, set_private_stack, uninitialized, zeroed, put_shared, shared_of, Pool,
  PageAllocationType, PageManager, on_footers,
}
use density.Effects.{Result, ok, bind-ok}
use density.PageAllocator.Calls.{call_pop}
use density.PageAllocator.CallPops.{got, got_none, call_pop-PoppedCall}
use density.PageAllocator.Invariant.{IsPool}
use density.PageAllocator.SlotChanges.{put-IsPool}
use density.PageAllocator.Changes.{private-IsPool}
use density.PageAllocator.Pages.{from_private, from_slot, push_private}

-- `try_pop_unpinned` gives a page that is not pinned, or none.
pub data PoppedPool {A : Type 0} (page_alignment : ℕ) (world pending : List ℕ) (rest : ℕ → ℕ)
    (s : Pool A) (r : Result (Pool A) ℕ) : Type 0 where
  took :
      (x : ℕ) (t : Pool A)
      → r ≡ ok x t
      → lock_marker < x
      → s.footers.m_pin_count x ≡ 0
      → After page_alignment world pending (λ a. count a (x ∷ []) + rest a) s t
      → PoppedPool page_alignment world pending rest s r
  took_none :
      (t : Pool A)
      → r ≡ ok 0 t
      → After page_alignment world pending rest s t
      → PoppedPool page_alignment world pending rest s r

pub from_slot-PoppedPool :
    {A : Type 0} ⦃pm : PageManager A⦄ {page_alignment : ℕ} {world pending : List ℕ} {s : Pool A}
    → (k : PageAllocationType) (fuel : ℕ) (rest : ℕ → ℕ)
    → IsPool page_alignment world pending rest s
    → length world ≤ fuel
    → PoppedPool page_alignment world pending rest s (from_slot k fuel s)
unfolding from_slot
from_slot-PoppedPool {s = s} k fuel rest p enough =
    let i = s.m_current_slot in
    let lt = p.current in
    elim (call_pop-PoppedCall (s.contention s.calls) fuel s.footers.m_pin_count (shared_of k i s)
      (p.pages k i) (p.opened k i lt) (slot-IsOnce p k i lt) (slot_large p k i lt)
      (slot_enough p k i fuel lt enough)) [
        | got x t pages' run o free counts frame ↦
            let self : 0 < count x (x ∷ []) = ground arith in
            took x (put_shared k i t s)
              (on_slot-ok k i (λ c. call_pop c fuel s.footers.m_pin_count) s x t run)
              (slot_large p k i lt x (omega (arith, counts x, self))) free
              (record {
                pool =
                    put-IsPool p k i t pages' (λ a. count a (x ∷ []) + rest a) lt o
                      (λ a. omega (arith, counts a)) (λ a none. frame a (omega (arith, none)));
                pins = refl;
                system = refl;
              })
        | got_none t run o links ↦
            took_none (put_shared k i t s)
              (on_slot-ok k i (λ c. call_pop c fuel s.footers.m_pin_count) s 0 t run)
              (record {
                pool =
                    put-IsPool p k i t (p.pages k i) rest lt o (λ a. refl)
                      (λ a none. ap (λ f. f a) links);
                pins = refl;
                system = refl;
              })
      ]

-- What a pop takes out, and the pages that stay.
pub pop_counts :
    (a x : ℕ) (pages xs ys : List ℕ)
    → pages ≡ xs ++ x ∷ ys
    → count a pages ≡ count a (xs ++ ys) + count a (x ∷ [])
pop_counts a x pages xs ys split =
    ap (count a) split ∙ ground (arith, count-append a xs (x ∷ ys), count-append a xs ys)

pub set_private-pins :
    {A : Type 0} (k : PageAllocationType) (st : PageStack) (s : Pool A)
    → (set_private_stack k st s).footers ≡ s.footers
set_private-pins uninitialized st s = refl
set_private-pins zeroed st s = refl

pub set_private-system :
    {A : Type 0} (k : PageAllocationType) (st : PageStack) (s : Pool A)
    → (set_private_stack k st s).system ≡ s.system
set_private-system uninitialized st s = refl
set_private-system zeroed st s = refl

pub from_private-PoppedPool :
    {A : Type 0} ⦃pm : PageManager A⦄ {page_alignment : ℕ} {world pending : List ℕ} {s : Pool A}
    → (k : PageAllocationType) (fuel : ℕ) (rest : ℕ → ℕ)
    → IsPool page_alignment world pending rest s
    → length world ≤ fuel
    → PoppedPool page_alignment world pending rest s (from_private k fuel s)
unfolding from_private
from_private-PoppedPool {s = s} k fuel rest p enough =
    let st = get_private_stack k s in
    elim (pop_unpinned-Popped s.footers st (p.privates k) fuel (p.private k)
      (private_enough p k fuel enough)) [
        | popped x xs ys t m' split pinned free pos run i loc ↦
            let self : 0 < count x (x ∷ []) = ground arith in
            let counts = λ (a : ℕ). pop_counts a x (p.privates k) xs ys split in
            let after = record s { footers = m' } in
            took x (set_private_stack k t after)
              (bind-ok (on_footers (pop_unpinned fuel st)) _ s after (x, t)
                (on_footers-ok (pop_unpinned fuel st) s (x, t) m' run))
              ((p.are_footers x (omega (arith, private_le_world p k x, counts x, self))).0) free
              (record {
                pool =
                    private-IsPool p k t m' (xs ++ ys) (λ a. count a (x ∷ []) + rest a) i
                      (λ a. omega (arith, counts a)) (λ a none. loc.links a (omega (arith, none)));
                pins = ap (λ (f : Footers). f.m_pin_count) (set_private-pins k t after) ∙ loc.pins;
                system = set_private-system k t after;
              })
        | all_pinned t pinned run i ↦
            took_none (set_private_stack k t s)
              (bind-ok (on_footers (pop_unpinned fuel st)) _ s s (0, t)
                (on_footers-ok (pop_unpinned fuel st) s (0, t) s.footers run))
              (record {
                pool =
                    private-IsPool p k t s.footers (p.privates k) rest i (λ a. refl)
                      (λ a none. refl);
                pins = ap (λ (f : Footers). f.m_pin_count) (set_private-pins k t s);
                system = set_private-system k t s;
              })
      ]

pub push_private-After :
    {A : Type 0} ⦃pm : PageManager A⦄ {page_alignment : ℕ} {world pending : List ℕ} {s : Pool A}
    → (k : PageAllocationType) (page : ℕ) (rest : ℕ → ℕ)
    → IsPool page_alignment world pending (λ a. count a (page ∷ []) + rest a) s
    → (t : Pool A) × (push_private k page s ≡ ok tt t) × After page_alignment world pending rest s t
unfolding push_private
push_private-After {s = s} k page rest p =
    let self : 0 < count page (page ∷ []) = ground arith in
    let st = get_private_stack k s in
    let (u, m', run, i, loc) =
      push-IsPages s.footers st (p.privates k) page (p.private k)
        (omega (arith, hand_large p page (omega (arith, self))))
        (omega (arith, private_le_world p k page, p.apart page, self)) in
    let after = record s { footers = m' } in
    (
      set_private_stack k u after,
      bind-ok (on_footers (push page st)) (λ u' t. ok tt (set_private_stack k u' t)) s after u
          (on_footers-ok (push page st) s u m' run),
      record {
        pool =
            private-IsPool p k u m' (page ∷ p.privates k) rest i (λ a. ground arith)
              (λ a none. loc.links a (omega (arith, none)));
        pins = ap (λ (f : Footers). f.m_pin_count) (set_private-pins k u after) ∙ loc.pins;
        system = set_private-system k u after;
      },
    )
