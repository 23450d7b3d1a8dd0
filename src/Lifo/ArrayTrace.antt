-- ===== src/Lifo/ArrayTrace.antt =====
-- lifo.h: the loops over the elements of a lifo_array, and the order in which they construct and destroy.
use native.Mathlib.Nat.{mod-eq_of_lt, mul-le-mul_right}
use density.Align.{word_mod, sub_word}
use density.Lifo.Array.{destroy_back, destroy_loop, destroy_counted}
use density.Base.{◌-◌, leb}
use density.Effects.{M, Result, ok, throw, bind-ok}
use density.Base.{
  ℕ, zero, suc, ◌+◌, ◌*◌, ◌≤◌, ◌<◌, ◌≡◌, refl, sym, ap, ◌∙◌, Bool, true, false, Bool-cases, inl,
  inr, List, [], ◌∷◌, ◌++◌, if◌then◌else◌, arith, dec_lt,
}
use density.Allocator.{Allocator}
use density.Lifo.Layout.{LifoLayout}
use density.Lifo.Array.{
  ElementType, ElementEvent, constructed, destroyed, Thread, LifoArray, element_at, destroy_down,
  construct_loop, default_construct, destroy_elements,
}

-- The first `k` elements constructed in the order of their addresses, the last event first.
abbrev pub constructions : ElementType → (m_elements k : ℕ) → List ElementEvent
constructions e m_elements zero = []
constructions e m_elements (suc k) =
    constructed (element_at e m_elements k) ∷ constructions e m_elements k

-- The first `k` elements destroyed in the reverse order, the last event first.
abbrev pub destructions : ElementType → (m_elements k : ℕ) → List ElementEvent
destructions e m_elements zero = []
destructions e m_elements (suc k) =
    destructions e m_elements k ++ (destroyed (element_at e m_elements k) ∷ [])

-- How many elements the default constructor constructs, and the destructor destroys.
abbrev pub constructed_count : ElementType → ℕ → ℕ
constructed_count e n = if e.is_pod then 0 else n

abbrev pub destroyed_count : ElementType → ℕ → ℕ
destroyed_count e n = if e.is_trivially_destructible then 0 else n

append_one : {B : Type 0} (xs : List B) (x : B) (ys : List B) → (xs ++ x ∷ []) ++ ys ≡ xs ++ x ∷ ys
append_one [] x ys = refl
append_one (y ∷ xs) x ys = ap (λ r. y ∷ r) (append_one xs x ys)

module _ {A V : Type 0} where
  abbrev pub after : List ElementEvent → Thread A V → Thread A V
  after events s = record s { trace = events ++ s.trace }

module _ (e : ElementType) where
  grow : (k : ℕ) → suc k * e.size ≡ k * e.size + e.size
  grow k = omega arith

  pub fewer : (k n : ℕ) → k < n → k * e.size ≤ n * e.size
  fewer k n lt = mul-le-mul_right e.size (omega (arith, lt))

  -- The pointer in front of the elements.
  front :
      (m : ℕ)
      → 0 < e.size
      → e.size ≤ m
      → m + 0 * e.size < word_mod
      → leb m (sub_word (element_at e m 0) e.size) ≡ false
  front m pos le room =
      let at : sub_word (element_at e m 0) e.size ≡ m - e.size = omega arith in ground (arith, at)

  -- The pointer to the last of `suc k` elements.
  step :
      (m k : ℕ)
      → 0 < e.size
      → e.size ≤ m
      → m + suc k * e.size < word_mod
      → (sub_word (element_at e m (suc k)) e.size ≡ element_at e m k)
        × (leb m (element_at e m k) ≡ true)
  step m k pos le room =
      let g = grow k in
      let at : element_at e m k ≡ m + k * e.size = mod-eq_of_lt (omega (arith, g, room)) in
      let up : element_at e m (suc k) ≡ m + suc k * e.size = mod-eq_of_lt room in
      (omega (arith, at, up, g, room), ground (arith, at))

module _ {A V : Type 0} ⦃l : LifoLayout⦄ ⦃al : Allocator A⦄ (e : ElementType) where
  pub destroy_down-trace :
      (m k : ℕ) (s : Thread A V) → destroy_down e m k s ≡ after (destructions e m k) s
  unfolding destroy_down
  destroy_down-trace m zero s = refl
  destroy_down-trace m (suc k) s =
      destroy_down-trace m k _
      ∙ ap (λ r. record s { trace = r })
          (sym (append_one (destructions e m k) (destroyed (element_at e m k)) s.trace))

  -- All elements are there, or those in front of one whose constructor throws are destroyed again.
  pub data Built (outcome : ℕ → Bool) (m n : ℕ) (s : Thread A V)
      (r : Result (Thread A V) (Unit {0})) : Type 0 where
    built :
        ((i : ℕ) → i < n → outcome i ≡ true)
        → r ≡ ok tt (after (constructions e m n) s)
        → Built outcome m n s r
    undone :
        (k : ℕ)
        → k < n
        → outcome k ≡ false
        → r ≡ throw (after (destructions e m k) (after (constructions e m k) s))
        → Built outcome m n s r

  -- `undo k` destroys the `k` elements that are there, the last one first.
  abbrev pub Undoes : (undo : ℕ → M (Thread A V) (Unit {0})) (m n : ℕ) → Type 0
  Undoes undo m n =
      (k : ℕ) (t : Thread A V) → k < n → undo k t ≡ ok tt (after (destructions e m k) t)

  pub counted-Undoes : (m n : ℕ) → Undoes (destroy_counted e m) m n
  counted-Undoes m n k t lt = ap (ok tt) (destroy_down-trace m k t)

  -- The loop of the pointer ends above the null pointer if an element is not larger than the address.
  pub destroy_back-trace :
      (fuel m k : ℕ) (s : Thread A V)
      → 0 < e.size
      → e.size ≤ m
      → m + k * e.size < word_mod
      → k < fuel
      → destroy_back e fuel m k s ≡ ok tt (after (destructions e m k) s)
  unfolding destroy_back destroy_loop destroy_down
  destroy_back-trace zero m k s pos le room lt = absurd (omega (arith, lt))
  destroy_back-trace (suc fuel) m zero s pos le room lt =
      let below : leb m (sub_word (element_at e m 0) e.size) ≡ false = front e m pos le room in
      rw below refl
  destroy_back-trace (suc fuel) m (suc k) s pos le room lt =
      let (here, inside) = step e m k pos le room in
      rw (here, inside)
        (destroy_back-trace fuel m k _ pos le (omega (arith, room, grow e k)) (omega (arith, lt))
          ∙ ap (λ r. ok tt (record s { trace = r }))
              (sym (append_one (destructions e m k) (destroyed (element_at e m k)) s.trace)))

  pub construct_loop-Built :
      (outcome : ℕ → Bool) (undo : ℕ → M (Thread A V) (Unit {0})) (n m left index : ℕ)
      (s : Thread A V)
      → Undoes undo m n
      → index + left ≡ n
      → ((i : ℕ) → i < index → outcome i ≡ true)
      → Built outcome m n s
          (construct_loop e outcome undo m left index (after (constructions e m index) s))
  unfolding construct_loop
  construct_loop-Built outcome undo n m zero index s back sum good =
      let whole : n ≡ index = omega (arith, sum) in rw whole (built good refl)
  construct_loop-Built outcome undo n m (suc left) index s back sum good =
      elim (Bool-cases (outcome index)) [
        | inr bad ↦ rw bad (
            undone index (omega (arith, sum)) bad (
              bind-ok (undo index) (λ _. throw) (after (constructions e m index) s) _ tt
                (back index (after (constructions e m index) s) (omega (arith, sum)))))
        | inl fine ↦ rw fine (
            construct_loop-Built outcome undo n m left (suc index) s back (omega (arith, sum))
              (λ i lt. more i lt fine))
      ]
    where
      more : (i : ℕ) → i < suc index → outcome index ≡ true → outcome i ≡ true
      more i lt fine = elim (dec_lt i index) [
        | yes less ↦ good i less
        | no same ↦ let at : i ≡ index = omega arith in rw at fine
      ]

  -- The loop over `n` elements.
  pub construct-Built :
      (outcome : ℕ → Bool) (undo : ℕ → M (Thread A V) (Unit {0})) (m n : ℕ) (s : Thread A V)
      → Undoes undo m n
      → Built outcome m n s (construct_loop e outcome undo m n 0 s)
  construct-Built outcome undo m n s back =
      construct_loop-Built outcome undo n m n 0 s back (omega arith) (λ i lt. absurd (omega arith))

  pub default_construct-eq :
      (outcome : ℕ → Bool) (a : LifoArray) (s : Thread A V)
      → default_construct e outcome a s
        ≡ construct_loop e outcome
            (destroy_counted e a.m_elements)
            a.m_elements
            (constructed_count e a.m_size)
            0
            s
  unfolding default_construct construct_loop destroy_down
  default_construct-eq outcome a s = elim (Bool-cases e.is_pod) [ inl y ↦ simp y | inr y ↦ simp y ]

  pub destroy_elements-eq :
      (fuel : ℕ) (a : LifoArray) (s : Thread A V)
      → 0 < e.size
      → e.size ≤ a.m_elements
      → a.m_elements + a.m_size * e.size < word_mod
      → a.m_size < fuel
      → destroy_elements e fuel a s
        ≡ ok tt (after (destructions e a.m_elements (destroyed_count e a.m_size)) s)
  unfolding destroy_elements
  destroy_elements-eq fuel a s pos le room lt = elim (Bool-cases e.is_trivially_destructible) [
    | inl y ↦ simp y
    | inr y ↦ simp y (destroy_back-trace fuel a.m_elements a.m_size s pos le room lt)
  ]
