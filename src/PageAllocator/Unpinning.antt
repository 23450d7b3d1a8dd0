-- ===== src/PageAllocator/Unpinning.antt =====
-- detail/page_allocator.h: `process_pending_unpins`.
use density.Base.{
  ◌+◌, ◌∙◌, length, ◌<◌, ◌≡◌, ◌≤◌, List, ℕ, refl, zero, suc, inl, inr, sym, ap, count, count-append,
  Bool-cases, arith, ◌==◌, true, false, [], ◌∷◌, ◌++◌, if◌then◌else◌,
}
use mathlib.Core.List.{append-nil}
use density.Align.{sub_word}
use density.Effects.{update, Result, ok, bind-ok}
use density.PageStack.Operations.{clear, truncate_to}
use density.PageStack.Segment.{Segment}
use density.PageAllocator.Operations.{
  unpin_loop, unpin_some, process_pending_unpins, ProgressGuarantee, at_most_lock_free, Pool,
}
use density.PageAllocator.Invariant.{IsPool}
use density.PageAllocator.Changes.{pending-IsPool, rest-IsPool}

-- The pin counts after one unpin of each page.
abbrev pub unpin_all : List ℕ → (ℕ → ℕ) → ℕ → ℕ
unpin_all [] pins = pins
unpin_all (p ∷ ps) pins = unpin_all ps (update pins p (sub_word (pins p) 1))

pub unpin_all-count :
    (ps : List ℕ) (pins : ℕ → ℕ) (a : ℕ)
    → count a ps ≤ 1
    → unpin_all ps pins a ≡ (if count a ps == 0 then pins a else sub_word (pins a) 1)
unpin_all-count [] pins a once = refl
unpin_all-count (p ∷ ps) pins a once =
    unpin_all-count ps (update pins p (sub_word (pins p) 1)) a (ground (arith, once))
    ∙ elim (Bool-cases (a == p)) [
      | inl here ↦
          let e : a ≡ p = ground arith in
          let none : (count a ps == 0) ≡ true = ground (arith, once, here) in
          let some : (suc (count a ps) == 0) ≡ false = ground arith in
          rw (here, none, some) (ap (λ x. sub_word (pins x) 1) (sym e))
      | inr there ↦ rw there
    ]

module _ {A : Type 0} where
  unpin_loop-ok :
      (fuel p : ℕ) (ps : List ℕ) (s : Pool A)
      → Segment s.footers.m_next_page (s.footers.m_next_page p) ps 0
      → length ps < fuel
      → unpin_loop fuel p s
        ≡ ok 0 (record s {
          footers = record s.footers { m_pin_count = unpin_all (p ∷ ps) s.footers.m_pin_count };
        })
  unfolding unpin_loop
  unpin_loop-ok zero p ps s l enough = absurd (omega arith)
  unpin_loop-ok (suc fuel) p [] s e enough =
      let last : (s.footers.m_next_page p == 0) ≡ true = ground arith in rw last
  unpin_loop-ok (suc fuel) p (q ∷ ps) s (e, pos, l) enough =
      let more : (s.footers.m_next_page p == 0) ≡ false = ground arith in
      let t = record s {
        footers = record s.footers {
          m_pin_count = update s.footers.m_pin_count p (sub_word (s.footers.m_pin_count p) 1);
        };
      } in
      rw (more, e) (unpin_loop-ok fuel q ps t l (omega arith))

  -- The first pages are unpinned, up to a contention.
  unpin_some-ok :
      (max_unpins p : ℕ) (ps : List ℕ) (s : Pool A)
      → 0 < p
      → Segment s.footers.m_next_page (s.footers.m_next_page p) ps 0
      → (curr calls : ℕ) × (xs rest : List ℕ) × (p ∷ ps ≡ xs ++ rest)
        × Segment s.footers.m_next_page curr rest 0
        × (unpin_some max_unpins p s
            ≡ ok curr (record s {
              calls = calls;
              footers = record s.footers { m_pin_count = unpin_all xs s.footers.m_pin_count };
            }))
  unfolding unpin_some
  unpin_some-ok zero p ps s pos l = (p, s.calls, [], p ∷ ps, refl, (refl, pos, l), refl)
  unpin_some-ok (suc max_unpins) p [] s pos l =
      let last : (s.footers.m_next_page p == 0) ≡ true = ground arith in
      elim (Bool-cases (s.contention s.calls)) [
        | inl fails ↦ (p, suc s.calls, [], p ∷ [], refl, (refl, pos, l), rw fails)
        | inr free ↦ (0, suc s.calls, p ∷ [], [], refl, refl, rw (free, last))
      ]
  unpin_some-ok (suc max_unpins) p (q ∷ ps) s pos (e, pos', l) =
      let more : (s.footers.m_next_page p == 0) ≡ false = ground arith in
      let t = record s {
        calls = suc s.calls;
        footers = record s.footers {
          m_pin_count = update s.footers.m_pin_count p (sub_word (s.footers.m_pin_count p) 1);
        };
      } in
      elim (Bool-cases (s.contention s.calls)) [
        | inl fails ↦ (p, suc s.calls, [], p ∷ q ∷ ps, refl, (refl, pos, (e, pos', l)), rw fails)
        | inr free ↦
            let (curr, calls, xs, rest, split, l', run) = unpin_some-ok max_unpins q ps t pos' l in
            (curr, calls, p ∷ xs, rest, ap (λ r. p ∷ r) split, l', rw (free, more, e) run)
      ]

-- What is left to unpin.
pub record Processed {A : Type 0} (page_alignment : ℕ) (world pending : List ℕ) (held : ℕ → ℕ)
    (guarantee : ProgressGuarantee) (s : Pool A) (r : Result (Pool A) (Unit {0})) : Type 0 where
  pub t : Pool A
  pub run : r ≡ ok tt t
  pub unpinned : List ℕ
  pub left : List ℕ
  pub split : pending ≡ unpinned ++ left
  pub pool : IsPool page_alignment world left held t
  pub pins : t.footers.m_pin_count ≡ unpin_all unpinned s.footers.m_pin_count
  pub complete : at_most_lock_free guarantee ≡ true → left ≡ []
  pub system : t.system ≡ s.system

-- `process_pending_unpins` ends, in lock-freedom with fuel of at least the number of pending pages: it
-- unpins once each of the first pending pages, all of them in lock-freedom, and changes no other pin
-- count; the other pending pages stay pending in their order, and each page that is known stays in
-- one stack or in a hand.
pub process-Processed :
    {A : Type 0} {page_alignment : ℕ} {world : List ℕ} {held : ℕ → ℕ} (pending : List ℕ)
    (guarantee : ProgressGuarantee) (fuel : ℕ) (s : Pool A)
    → IsPool page_alignment world pending held s
    → (at_most_lock_free guarantee ≡ true → length pending ≤ fuel)
    → Processed page_alignment world pending held guarantee s
        (process_pending_unpins fuel guarantee s)
unfolding process_pending_unpins clear truncate_to
process-Processed [] guarantee fuel s p enough =
    let empty : (s.m_pages_to_unpin.m_first == 0) ≡ true = ground (arith, p.to_unpin.linked) in
    record {
      t = s;
      run = rw empty;
      unpinned = [];
      left = [];
      split = refl;
      pool = p;
      pins = refl;
      complete = λ h. refl;
      system = refl;
    }
process-Processed (x ∷ xs) guarantee fuel s p enough =
    let (e, pos, l) = p.to_unpin.linked in
    let some_page : (s.m_pages_to_unpin.m_first == 0) ≡ false = ground (arith, e, pos) in
    elim (Bool-cases (at_most_lock_free guarantee)) [
      | inl whole ↦
          let u = record s {
            footers = record s.footers { m_pin_count = unpin_all (x ∷ xs) s.footers.m_pin_count };
          } in
          let next = λ (curr : ℕ) (t : Pool _).
            ok tt (record t { m_pages_to_unpin = clear t.m_pages_to_unpin }) in
          record {
            t = record u { m_pages_to_unpin = clear u.m_pages_to_unpin };
            run =
                rw (some_page, whole)
                  (bind-ok (unpin_loop fuel s.m_pages_to_unpin.m_first) next s u 0 (
                    ap (λ z. unpin_loop fuel z s) e
                    ∙ unpin_loop-ok fuel x xs s l (omega (arith, enough whole))));
            unpinned = x ∷ xs;
            left = [];
            split = sym (append-nil (x ∷ xs));
            pool =
                pending-IsPool
                  (rest-IsPool p s.m_current_slot s.m_victim_slot s.calls
                    (unpin_all (x ∷ xs) s.footers.m_pin_count) s.bytes s.system p.current p.victim)
                  (clear u.m_pages_to_unpin) []
                  (record { linked = refl; once = λ a. omega arith; cached = inl refl })
                  (λ a. omega arith);
            pins = refl;
            complete = λ h. refl;
            system = refl;
          }
      | inr bounded ↦
          let (curr, calls, ys, rest, split, l', run) = unpin_some-ok 16 x xs s pos l in
          let u = record s {
            calls = calls;
            footers = record s.footers { m_pin_count = unpin_all ys s.footers.m_pin_count };
          } in
          let next = λ (c : ℕ) (t : Pool _).
            ok tt (record t { m_pages_to_unpin = truncate_to c t.m_pages_to_unpin }) in
          let counts : (a : ℕ) → count a (x ∷ xs) ≡ count a ys + count a rest =
            λ a. ap (count a) split ∙ count-append a ys rest in
          record {
            t = record u { m_pages_to_unpin = truncate_to curr u.m_pages_to_unpin };
            run =
                rw (some_page, bounded)
                  (bind-ok (unpin_some 16 s.m_pages_to_unpin.m_first) next s u curr
                    (ap (λ z. unpin_some 16 z s) e ∙ run));
            unpinned = ys;
            left = rest;
            split = split;
            pool =
                pending-IsPool
                  (rest-IsPool p s.m_current_slot s.m_victim_slot calls
                    (unpin_all ys s.footers.m_pin_count) s.bytes s.system p.current p.victim)
                  (truncate_to curr u.m_pages_to_unpin) rest
                  (record {
                    linked = l';
                    once = λ a. omega (arith, p.to_unpin.once a, counts a);
                    cached = inl refl;
                  })
                  (λ a. omega (arith, counts a));
            pins = refl;
            complete = λ h. cc;
            system = refl;
          }
    ]
