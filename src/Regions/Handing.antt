-- ===== src/Regions/Handing.antt =====
-- detail/system_page_manager.h: the pages of a region are handed out once each, in their order.
use native.Mathlib.Nat.{mul-le-mul_right}
use density.Base.{
  ℕ, zero, suc, ◌+◌, ◌*◌, ◌≤◌, ◌<◌, ◌≡◌, refl, sym, ap, ◌∙◌, subst, List, [], ◌∷◌, ◌++◌, length,
  length-append, arith, false, Bool, Bool-cases, inl, inr, not, ◌&&◌, ◌==◌, ltb, leb, dec_lt,
}
use density.Align.{word_mod, add_word}
use density.Regions.Pages.{
  Region, Attempt, ready, overflowing, loaded, Reply, lockfree_add, lockfree_sub, waitfree_load,
  waitfree_exchange, Runs, adds, subs, loads, exchanges, record_result, System, Step, step, Steps,
  done, more,
}

-- The first `given` pages from `first` on, the last one first.
abbrev pub pages_from : (page first given : ℕ) → List ℕ
pages_from page first zero = []
pages_from page first (suc given) = (first + given * page) ∷ pages_from page first given

-- How many threads are behind a `fetch_add` beyond the end.
abbrev pub is_over : Attempt → ℕ
is_over ready = 0
is_over overflowing = 1
is_over (loaded curr_address) = 0

abbrev pub over : List Attempt → ℕ
over [] = 0
over (a ∷ threads) = is_over a + over threads

over-append : (xs ys : List Attempt) → over (xs ++ ys) ≡ over xs + over ys
over-append [] ys = omega arith
over-append (x ∷ xs) ys = omega (arith, over-append xs ys)

over-le : (xs : List Attempt) → over xs ≤ length xs
over-le [] = omega arith
over-le (ready ∷ xs) = omega (arith, over-le xs)
over-le (overflowing ∷ xs) = omega (arith, over-le xs)
over-le (loaded curr_address ∷ xs) = omega (arith, over-le xs)

below : (a b : ℕ) → leb a b ≡ false → b < a
below a b e = ground arith

exchange-ready :
    (page : ℕ) (spurious : Bool) (c : ℕ) (g : Region)
    → (waitfree_exchange page spurious c g).attempt ≡ ready
unfolding waitfree_exchange
exchange-ready page spurious c g = elim (Bool-cases ((g.m_curr == c) && not spurious)) [
  | inl e ↦ rw e
  | inr e ↦ rw e
]

le_sum : (c g p : ℕ) → c ≤ g → c ≤ g + p
le_sum c g p h = omega arith

module _ (page first capacity start : ℕ) where
  -- `given` of the `capacity` pages from `first` on are handed out; beyond the end `m_curr` counts the
  -- threads that are about to subtract.
  pub record IsHanding (g : Region) (pending : ℕ) (handed : List ℕ) : Type 0 where
    pub given : ℕ
    pub room : given ≤ capacity
    pub full : 0 < pending → given ≡ capacity
    pub curr : g.m_curr ≡ first + (given + pending) * page
    pub end_at : g.m_end ≡ first + capacity * page
    pub start_at : g.m_start ≡ start
    pub pages : handed ≡ pages_from page first given

  -- The memory of the region lies in front of its end, and sums for so many threads do not wrap.
  pub record IsRegion (threads : ℕ) : Type 0 where
    pub positive : 0 < page
    pub inside : start ≤ first
    pub no_wrap : first + (capacity + suc threads) * page < word_mod

  module _ (threads : ℕ) (is : IsRegion threads) (g : Region) (handed : List ℕ) where
    not_full : (pending : ℕ) (i : IsHanding g pending handed) → i.given < capacity → pending ≡ 0
    not_full zero i less = refl
    not_full (suc pending) i less = absurd (omega (arith, i.full (omega arith)))

    nothing_pending : (pending : ℕ) → IsHanding g pending handed → g.m_curr < g.m_end → pending ≡ 0
    nothing_pending zero i inside = refl
    nothing_pending (suc pending) i inside =
        let whole = i.full (omega arith) in
        let e : first + (capacity + suc pending) * page < first + capacity * page =
          subst (λ c. first + (c + suc pending) * page < first + capacity * page) whole
            (omega (arith, inside, i.curr, i.end_at)) in
        absurd (omega (arith, e))

    place_left :
        (pending : ℕ) (i : IsHanding g pending handed) → g.m_curr < g.m_end → i.given < capacity
    place_left pending i inside = elim (dec_lt i.given capacity) [
      | yes less ↦ less
      | no not_less ↦
          let most = mul-le-mul_right page (le_sum capacity i.given pending (omega arith)) in
          absurd (omega (arith, inside, i.curr, i.end_at, most))
    ]

    reach :
        (pending : ℕ) (i : IsHanding g pending handed)
        → pending ≤ threads
        → suc (i.given + pending) ≤ capacity + suc threads
    reach pending i few = omega (arith, i.room, few)

    one_more :
        (pending : ℕ) (i : IsHanding g pending handed)
        → pending ≤ threads
        → add_word g.m_curr page ≡ first + (i.given + (1 + pending)) * page
    one_more pending i few =
        let bound = mul-le-mul_right page (reach pending i few) in
        let e = i.curr in omega (arith, is.no_wrap, bound, e)

    sum :
        (pending : ℕ) (i : IsHanding g pending handed)
        → pending ≤ threads
        → pending ≡ 0
        → add_word g.m_curr page ≡ first + (suc i.given + (0 + pending)) * page
    sum pending i few none = one_more pending i few ∙ ap (λ c. first + c * page) (omega arith)

    entry :
        (pending : ℕ) (i : IsHanding g pending handed)
        → pending ≡ 0
        → g.m_curr ∷ handed ≡ pages_from page first (suc i.given)
    entry pending i none =
        let at : g.m_curr ≡ first + i.given * page =
          i.curr ∙ ap (λ c. first + c * page) (omega (arith, none)) in
        ap (λ a. a ∷ handed) at ∙ ap (λ r. (first + i.given * page) ∷ r) i.pages

    all_given :
        (pending : ℕ) (i : IsHanding g pending handed)
        → (leb g.m_start g.m_curr && ltb g.m_curr g.m_end) ≡ false
        → i.given ≡ capacity
    all_given pending i beyond = elim (dec_lt i.given capacity) [
      | no not_less ↦ omega (arith, i.room)
      | yes less ↦
          let none : pending ≡ 0 = not_full pending i less in
          let most = mul-le-mul_right page less in
          let at : g.m_curr ≡ first + i.given * page =
            i.curr ∙ ap (λ c. first + c * page) (omega (arith, none)) in
          let low : g.m_start ≤ g.m_curr = omega (arith, i.start_at, is.inside, at) in
          let high : g.m_curr < g.m_end = omega (arith, i.end_at, at, most, is.positive) in
          absurd (ground arith)
    ]

    add-IsHanding :
        (pending : ℕ)
        → pending ≤ threads
        → IsHanding g pending handed
        → IsHanding
            (lockfree_add page g).region
            (is_over (lockfree_add page g).attempt + pending)
            (record_result (lockfree_add page g).result handed)
    unfolding lockfree_add
    add-IsHanding pending few i =
        elim (Bool-cases (leb g.m_start g.m_curr && ltb g.m_curr g.m_end)) [
          | inl fits ↦
              let inside : g.m_curr < g.m_end = ground arith in
              let none : pending ≡ 0 = nothing_pending pending i inside in
              let left : i.given < capacity = place_left pending i inside in
              rw fits (record {
                given = suc i.given;
                room = left;
                full = λ lt. absurd (omega (arith, none));
                curr = sum pending i few none;
                end_at = i.end_at;
                start_at = i.start_at;
                pages = entry pending i none;
              })
          | inr beyond ↦ rw beyond (record {
            given = i.given;
            room = i.room;
            full = λ lt. all_given pending i beyond;
            curr = one_more pending i few;
            end_at = i.end_at;
            start_at = i.start_at;
            pages = i.pages;
          })
        ]

    sub-IsHanding :
        (pending : ℕ)
        → suc pending ≤ threads
        → IsHanding g (suc pending) handed
        → IsHanding
            (lockfree_sub page g).region
            pending
            (record_result (lockfree_sub page g).result handed)
    unfolding lockfree_sub
    sub-IsHanding pending few i = record {
      given = i.given;
      room = i.room;
      full = λ lt. i.full (omega arith);
      curr =
          let bound = mul-le-mul_right page (reach (suc pending) i few) in
          let e = i.curr in omega (arith, is.no_wrap, bound, e);
      end_at = i.end_at;
      start_at = i.start_at;
      pages = i.pages;
    }

    -- The compare-exchange of an address in front of the end.
    exchange-IsHanding :
        (spurious : Bool) (curr_address pending : ℕ)
        → pending ≤ threads
        → curr_address < first + capacity * page
        → IsHanding g pending handed
        → IsHanding
            (waitfree_exchange page spurious curr_address g).region
            pending
            (record_result (waitfree_exchange page spurious curr_address g).result handed)
    unfolding waitfree_exchange
    exchange-IsHanding spurious curr_address pending few ahead i =
        elim (Bool-cases ((g.m_curr == curr_address) && not spurious)) [
          | inr lost ↦ rw lost i
          | inl won ↦
              let at : g.m_curr ≡ curr_address = ground arith in
              let inside : g.m_curr < g.m_end = omega (arith, at, ahead, i.end_at) in
              let none : pending ≡ 0 = nothing_pending pending i inside in
              rw won (record {
                given = suc i.given;
                room = place_left pending i inside;
                full = λ lt. absurd (omega (arith, none, lt));
                curr =
                    subst (λ c. add_word c page ≡ first + (suc i.given + pending) * page) at
                      (one_more pending i few ∙ ap (λ c. first + c * page) (omega arith));
                end_at = i.end_at;
                start_at = i.start_at;
                pages = ap (λ a. a ∷ handed) (sym at) ∙ entry pending i none;
              })
        ]

  -- An address that the wait-free function has loaded.
  abbrev pub IsAhead : Attempt → Type 0
  IsAhead ready = Unit {0}
  IsAhead overflowing = Unit {0}
  IsAhead (loaded curr_address) = curr_address < first + capacity * page

  run-IsHanding :
      (threads : ℕ)
      → IsRegion threads
      → (g : Region) (handed : List ℕ) {a : Attempt} {r : Reply} (others : ℕ)
      → is_over a + others ≤ threads
      → IsHanding g (is_over a + others) handed
      → IsAhead a
      → Runs page g a r
      → IsHanding r.region (is_over r.attempt + others) (record_result r.result handed)
        × IsAhead r.attempt
  unfolding lockfree_add lockfree_sub waitfree_load
  run-IsHanding threads is g handed others few i ahead adds =
      let one : 0 + others ≡ others = omega arith in
      (
        add-IsHanding threads is g handed others (omega arith)
            (subst (λ c. IsHanding g c handed) one i),
        elim (Bool-cases (leb g.m_start g.m_curr && ltb g.m_curr g.m_end)) [
          | inl e ↦ rw e tt
          | inr e ↦ rw e tt
        ],
      )
  run-IsHanding threads is g handed others few i ahead subs =
      let one : 1 + others ≡ suc others = omega arith in
      let none : others ≡ 0 + others = omega arith in
      (
        subst (λ c. IsHanding (lockfree_sub page g).region c handed) none
            (sub-IsHanding threads is g handed others (omega arith)
              (subst (λ c. IsHanding g c handed) one i)),
        tt,
      )
  run-IsHanding threads is g handed others few i ahead loads =
      elim (Bool-cases (leb g.m_end g.m_curr)) [
        | inl e ↦ rw e (i, tt)
        | inr e ↦ rw e (i, omega (arith, i.end_at, below g.m_end g.m_curr e))
      ]
  run-IsHanding threads is g handed others few i ahead (exchanges {curr_address = c} spurious) =
      let t = waitfree_exchange page spurious c g in
      subst
        (λ a. IsHanding t.region (is_over a + others) (record_result t.result handed) × IsAhead a)
        (sym (exchange-ready page spurious c g))
        (exchange-IsHanding threads is g handed spurious c (0 + others) few ahead i, tt)

  abbrev pub AreAhead : List Attempt → Type 0
  AreAhead [] = Unit {0}
  AreAhead (a ∷ threads) = IsAhead a × AreAhead threads

  AreAhead-replace :
      (before after : List Attempt) (a b : Attempt)
      → AreAhead (before ++ a ∷ after)
      → IsAhead a × (IsAhead b → AreAhead (before ++ b ∷ after))
  AreAhead-replace [] after a b (h, all) = (h, λ k. (k, all))
  AreAhead-replace (x ∷ before) after a b (h, all) =
      let (own, put) = AreAhead-replace before after a b all in (own, λ k. (h, put k))

  -- The first `given` pages of the region have been handed out, each once, and no other.
  pub record IsHanded (w : System) : Type 0 where
    pub region : IsRegion (length w.threads)
    pub handing : IsHanding w.region (over w.threads) w.handed
    pub ahead : AreAhead w.threads

  Step-IsHanded : {w w' : System} → IsHanded w → Step page w w' → IsHanded w'
  Step-IsHanded i (step before after {a} {g} {r} {handed} run) =
      let region = i.region in
      let others = over before + over after in
      let (own, put) = AreAhead-replace before after a r.attempt i.ahead in
      let now : over (before ++ a ∷ after) ≡ is_over a + others =
        omega (arith, over-append before (a ∷ after)) in
      let then_ : is_over r.attempt + others ≡ over (before ++ r.attempt ∷ after) =
        omega (arith, over-append before (r.attempt ∷ after)) in
      let few : is_over a + others ≤ length (before ++ a ∷ after) =
        omega (arith, now, over-le (before ++ a ∷ after)) in
      let (next, ahead) =
        run-IsHanding (length (before ++ a ∷ after)) region g handed others few
          (subst (λ c. IsHanding g c handed) now i.handing) own run in
      record {
        region =
            subst IsRegion
              (length-append before (a ∷ after) ∙ sym (length-append before (r.attempt ∷ after)))
              region;
        handing = subst (λ c. IsHanding r.region c (record_result r.result handed)) then_ next;
        ahead = put ahead;
      }

  -- Whatever lock-free and wait-free allocations of any number of threads do on a region, in any order of
  -- their accesses: the pages that they get are those from the start on, one after the other, each once
  -- and all in front of the end. The sums with all threads must not wrap.
  pub Steps-IsHanded : {w w' : System} → IsHanded w → Steps page w w' → IsHanded w'
  Steps-IsHanded i done = i
  Steps-IsHanded i (more first rest) = Steps-IsHanded (Step-IsHanded i first) rest
