-- ===== src/PageAllocator/Pins.antt =====
-- detail/page_allocator.h: the pins of a page.
use density.PageStack.Operations.{Footers, set_next, push, PageStack}
use density.PageAllocator.Operations.{
  ProgressGuarantee, PageAllocationType, PageManager, Pool, progress_lock_free, progress_wait_free,
  process_pending_unpins, on_footers, shared_of,
}
use density.Effects.{Result, ok, bind-ok}
use density.Base.{
  ◌∙◌, ◌-◌, ◌≡◌, ◌≤◌, length, ◌<◌, List, suc, ℕ, Bool-cases, inl, inr, count-append, subst, ◌+◌,
  refl, sym, ap, count, true, ◌==◌, [], ◌∷◌, ◌++◌, arith,
}
use mathlib.Core.List.{append-nil}
use native.Mathlib.Nat.{add-mod_right, mod-eq_of_lt}
use density.Align.{word_mod, add_word, sub_word}
use density.PageStack.Segment.{Segment, IsOnce, Segment-relink}
use density.PageAllocator.CallSteps.{IsOpen}
use density.PageAllocator.Steps.{on_footers-ok}
use density.PageAllocator.Unpinning.{Processed, process-Processed, unpin_all}
use density.PageAllocator.Pages.{get_footer, set_pins, pin_page, unpin_page, unpin_page_with}
use density.PageAllocator.Invariant.{IsPool}
use density.PageAllocator.Changes.{rest-IsPool}

word_back : (n : ℕ) → suc n < word_mod → (add_word n 1 ≡ suc n) × (sub_word (suc n) 1 ≡ n)
word_back n fits = (mod-eq_of_lt (omega arith) ∙ omega arith, back)
  where
    over : suc n + word_mod - 1 ≡ n + word_mod
    over = omega arith

    back : sub_word (suc n) 1 ≡ n
    back = rw over (add-mod_right n word_mod ∙ mod-eq_of_lt (omega arith))

module _ {A : Type 0} ⦃pm : PageManager A⦄ {world pending : List ℕ} {held : ℕ → ℕ} {s : Pool A}
    (fuel i_address : ℕ) (p : IsPool pm.page_alignment_and_size world pending held s)
    (enough : length pending ≤ fuel) where
  pin_page-ok :
      (o : Processed pm.page_alignment_and_size world pending held progress_lock_free s
        (process_pending_unpins fuel progress_lock_free s))
      → let x = get_footer pm.page_alignment_and_size i_address in
        pin_page fuel i_address s ≡ ok tt (set_pins x (add_word (o.t.footers.m_pin_count x) 1) o.t)
  unfolding pin_page
  pin_page-ok o = bind-ok (process_pending_unpins fuel progress_lock_free) _ s o.t tt o.run

  unpin_page-ok :
      (o : Processed pm.page_alignment_and_size world pending held progress_lock_free s
        (process_pending_unpins fuel progress_lock_free s))
      → let x = get_footer pm.page_alignment_and_size i_address in
        unpin_page fuel i_address s
        ≡ ok tt (set_pins x (sub_word (o.t.footers.m_pin_count x) 1) o.t)
  unfolding unpin_page
  unpin_page-ok o = bind-ok (process_pending_unpins fuel progress_lock_free) _ s o.t tt o.run

-- All pending pages are unpinned.
all_unpinned :
    {A : Type 0} {page_alignment : ℕ} {world pending : List ℕ} {held : ℕ → ℕ} {s : Pool A}
    {r : Result (Pool A) (Unit {0})}
    (o : Processed page_alignment world pending held progress_lock_free s r)
    → o.t.footers.m_pin_count ≡ unpin_all pending s.footers.m_pin_count
all_unpinned {s = s} o =
    o.pins
    ∙ ap (λ ps. unpin_all ps s.footers.m_pin_count)
        (sym (o.split ∙ ap (λ r. o.unpinned ++ r) (o.complete refl) ∙ append-nil o.unpinned))

none_pending :
    {A : Type 0} {page_alignment : ℕ} {world pending : List ℕ} {held : ℕ → ℕ} {s : Pool A}
    {r : Result (Pool A) (Unit {0})}
    (o : Processed page_alignment world pending held progress_lock_free s r)
    → IsPool page_alignment world [] held o.t
none_pending {page_alignment = page_alignment} {world = world} {held = held} o =
    subst (λ ps. IsPool page_alignment world ps held o.t) (o.complete refl) o.pool

-- `pin_page` and then `unpin_page` of an address in a page with the footer `x`, with fuel of at least the
-- number of pending pages: both end, the first unpins the pending pages and adds one pin to the page, and
-- after the second each pin count is the one that the pending unpins leave. Each page that is known stays in
-- one stack or in a hand. The count with one more pin is below 2 ^ 64.
pub pin_page-unpin_page :
    {A : Type 0} ⦃pm : PageManager A⦄ (world pending : List ℕ) (held : ℕ → ℕ) (s : Pool A)
    (fuel i_address x : ℕ)
    → IsPool pm.page_alignment_and_size world pending held s
    → length pending ≤ fuel
    → get_footer pm.page_alignment_and_size i_address ≡ x
    → suc (unpin_all pending s.footers.m_pin_count x) < word_mod
    → (t u : Pool A) × (pin_page fuel i_address s ≡ ok tt t)
      × (t.footers.m_pin_count x ≡ suc (unpin_all pending s.footers.m_pin_count x))
      × (unpin_page fuel i_address t ≡ ok tt u)
      × ((a : ℕ) → u.footers.m_pin_count a ≡ unpin_all pending s.footers.m_pin_count a)
      × IsPool pm.page_alignment_and_size world [] held u
pin_page-unpin_page ⦃pm⦄ world pending held s fuel i_address x p enough at fits =
    let o = process-Processed pending progress_lock_free fuel s p (λ e. enough) in
    let pins = unpin_all pending s.footers.m_pin_count in
    let same = all_unpinned o in
    let before : o.t.footers.m_pin_count x ≡ pins x = ap (λ (f : ℕ → ℕ). f x) same in
    let t = set_pins x (add_word (o.t.footers.m_pin_count x) 1) o.t in
    let up : add_word (o.t.footers.m_pin_count x) 1 ≡ suc (pins x) =
      ap (λ n. add_word n 1) before ∙ (word_back (pins x) fits).0 in
    let self : (x == x) ≡ true = ground arith in
    let held_once : t.footers.m_pin_count x ≡ suc (pins x) = rw self up in
    let q = none_pending o in
    let q' =
      rest-IsPool q o.t.m_current_slot o.t.m_victim_slot o.t.calls t.footers.m_pin_count o.t.bytes
        o.t.system q.current q.victim in
    let o' = process-Processed [] progress_lock_free fuel t q' (λ e. omega arith) in
    let again : o'.t.footers.m_pin_count x ≡ suc (pins x) =
      ap (λ (f : ℕ → ℕ). f x) (all_unpinned o') ∙ held_once in
    let u = set_pins x (sub_word (o'.t.footers.m_pin_count x) 1) o'.t in
    let r = none_pending o' in
    (
      t,
      u,
      subst
          (λ z.
            pin_page fuel i_address s
            ≡ ok tt (set_pins z (add_word (o.t.footers.m_pin_count z) 1) o.t))
          at (pin_page-ok fuel i_address p enough o),
      held_once,
      subst
          (λ z.
            unpin_page fuel i_address t
            ≡ ok tt (set_pins z (sub_word (o'.t.footers.m_pin_count z) 1) o'.t))
          at (unpin_page-ok fuel i_address q' (omega arith) o'),
      (λ a. elim (Bool-cases (a == x)) [
        | inl here ↦
            let e : a ≡ x = ground arith in
            rw here (ap (λ n. sub_word n 1) again ∙ (word_back (pins x) fits).1 ∙ ap pins (sym e))
        | inr there ↦
            let other : t.footers.m_pin_count a ≡ o.t.footers.m_pin_count a = rw there in
            rw there
              (ap (λ (f : ℕ → ℕ). f a) (all_unpinned o') ∙ other ∙ ap (λ (f : ℕ → ℕ). f a) same)
      ]),
      rest-IsPool r o'.t.m_current_slot o'.t.m_victim_slot o'.t.calls u.footers.m_pin_count
          o'.t.bytes o'.t.system r.current r.victim,
    )

-- The first pages of a segment.
until_page :
    (next : ℕ → ℕ) (a b x : ℕ) (xs ys : List ℕ)
    → Segment next a (xs ++ x ∷ ys) b
    → Segment next a (xs ++ x ∷ []) (next x)
until_page next a b x [] ys (e, pos, l) = (e, pos, refl)
until_page next a b x (y ∷ xs) ys (e, pos, l) = (e, pos, until_page next (next y) b x xs ys l)

process-idle :
    {A : Type 0} (fuel : ℕ) (g : ProgressGuarantee) (s : Pool A)
    → s.m_pages_to_unpin.m_first ≡ 0
    → process_pending_unpins fuel g s ≡ ok tt s
unfolding process_pending_unpins
process-idle fuel g s none =
    let empty : (s.m_pages_to_unpin.m_first == 0) ≡ true = ground (arith, none) in rw empty

push-empty :
    (x : ℕ) (st : PageStack) (m : Footers)
    → st.m_first ≡ 0
    → push x st m ≡ ok (record st { m_first = x }) (set_next x 0 m)
unfolding push
push-empty x st m none = ap (λ z. ok (record st { m_first = x }) (set_next x z m)) none

-- A wait-free `unpin_page` of a page that is in the stack of a slot, between the pages `xs` and `ys`, ends;
-- if no unpin is pending and the compare-exchange fails, the stack of the slot then ends with the page,
-- without `ys`, and the page is pending.
pub unpin_page_with-cut :
    {A : Type 0} ⦃pm : PageManager A⦄ (k : PageAllocationType) (i fuel i_address x : ℕ)
    (xs ys : List ℕ) (s : Pool A)
    → get_footer pm.page_alignment_and_size i_address ≡ x
    → s.m_pages_to_unpin.m_first ≡ 0
    → s.contention s.calls ≡ true
    → IsOpen (shared_of k i s) (xs ++ x ∷ ys)
    → IsOnce (xs ++ x ∷ ys)
    → (t : Pool A) × (unpin_page_with fuel progress_wait_free i_address s ≡ ok tt t)
      × IsOpen (shared_of k i t) (xs ++ x ∷ [])
      × (t.m_pages_to_unpin.m_first ≡ x)
unfolding unpin_page_with
unpin_page_with-cut k i fuel i_address x xs ys s at none fails o once =
    let new : count x xs ≡ 0 = ground (arith, once x, count-append x xs (x ∷ ys)) in
    let v = record s { calls = suc s.calls } in
    let m = set_next x 0 s.footers in
    let w = record v { footers = m } in
    let st = record s.m_pages_to_unpin { m_first = x } in
    let run : push x s.m_pages_to_unpin s.footers ≡ ok st m =
      push-empty x s.m_pages_to_unpin s.footers none in
    let linked = until_page s.footers.m_next_page (shared_of k i s).m_first 0 x xs ys o.linked in
    (
      record w { m_pages_to_unpin = st },
      bind-ok (process_pending_unpins fuel progress_lock_free) _ s s tt
            (process-idle fuel progress_lock_free s none)
          ∙ (rw (fails, at)
              (bind-ok (on_footers (push x s.m_pages_to_unpin))
                (λ st' u. ok tt (record u { m_pages_to_unpin = st' })) v w st
                (on_footers-ok (push x s.m_pages_to_unpin) v st m run))),
      record {
        linked =
            Segment-relink s.footers.m_next_page (shared_of k i s).m_first (s.footers.m_next_page x)
              0 x xs linked new;
        unmarked = o.unmarked;
      },
      refl,
    )
