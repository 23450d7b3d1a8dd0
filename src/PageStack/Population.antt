-- ===== src/PageStack/Population.antt =====
-- detail/wf_page_stack.h: the pages of a whole system of threads.
use density.Base.{ℕ, ◌+◌, ◌≤◌, ◌<◌, ◌≡◌, subst, List, [], ◌∷◌, ◌++◌, count, arith}
use density.PageStack.WaitFree.{Local, System, Step, step, Steps, done, more}
use density.PageStack.Conservation.{AllHold, focus}
use density.PageStack.Conserved.{
  lock_count, is_popping, SharedPages, After, AfterRun, Ample, run-After,
}

-- How many threads have locked the stack.
abbrev pub poppers : List Local → ℕ
poppers [] = 0
poppers (l ∷ ls) = is_popping l + poppers ls

poppers-append : (xs ys : List Local) → poppers (xs ++ ys) ≡ poppers xs + poppers ys
poppers-append [] ys = omega arith
poppers-append (x ∷ xs) ys = omega (arith, poppers-append xs ys)

-- How often there is a page at an address: at most once, and never at the null pointer or the marker.
abbrev pub IsPopulation : (ℕ → ℕ) → Type 0
IsPopulation total = (a : ℕ) → (total a ≤ 1) × (0 < total a → 1 < a)

-- Each page is in the stack or belongs to one thread, linked as its state says, and one thread has
-- locked the stack if it is locked, and none if it is not.
pub record IsConserved (total : ℕ → ℕ) (w : System) : Type 0 where
  pub stack : List ℕ
  pub held : List ℕ
  pub shared : SharedPages w.shared stack
  pub threads : AllHold w.shared.m_next_page w.threads held
  pub lock : poppers w.threads ≡ lock_count w.shared
  pub all : (a : ℕ) → count a stack + count a held ≡ total a

Step-IsConserved :
    (total : ℕ → ℕ) {w w' : System}
    → IsPopulation total
    → IsConserved total w
    → Step w w'
    → IsConserved total w'
Step-IsConserved total pop i (step before after {l} {l'} {s} {s'} {r} run e) =
    let f = focus s.m_next_page before l after i.threads in
    let ample : Ample s i.stack i.shared f.own = (
      (λ a. omega (arith, i.all a, f.split a, (pop a).0)),
      (λ a lt. (pop a).1 (omega (arith, lt, i.all a, f.split a))),
    ) in
    let lock = i.lock in
    let one =
      run-After s i.stack i.shared ample f.holds
        (omega (arith, lock, poppers-append before (l ∷ after))) run in
    let u : After s l i.stack f.own l' s' = subst (AfterRun s l i.stack f.own) e one in
    let (held', threads', split') =
      f.replace s'.m_next_page l' u.own'
        (λ p lt. u.frame p (omega (arith, lt, i.all p, f.split p, (pop p).0))) u.holds in
    record {
      stack = u.stack';
      held = held';
      shared = u.shared;
      threads = threads';
      lock = omega (
        arith,
        lock,
        u.lock,
        poppers-append before (l ∷ after),
        poppers-append before (l' ∷ after),
      );
      all = λ a. omega (arith, i.all a, f.split a, split' a, u.same a);
    }

-- Whatever steps any number of threads make on a WF_PageStack, in any order: each page stays in exactly
-- one place, the stack or one of the threads, and at most one thread at a time has locked the stack.
pub Steps-IsConserved :
    (total : ℕ → ℕ) {w w' : System}
    → IsPopulation total
    → IsConserved total w
    → Steps w w'
    → IsConserved total w'
Steps-IsConserved total pop i done = i
Steps-IsConserved total pop i (more first rest) =
    Steps-IsConserved total pop (Step-IsConserved total pop i first) rest
