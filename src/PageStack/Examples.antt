-- ===== src/PageStack/Examples.antt =====
-- The theorems about page_stack.h and wf_page_stack.h at concrete stacks.
use density.Base.{◌≤◌}
use density.Base.{length}
use density.Base.{List}
use density.Base.{ℕ, refl, inl, [], ◌∷◌, ◌++◌, count, arith, false, ◌==◌, if◌then◌else◌}
use density.Effects.{update}
use density.PageStack.Operations.{Footers, stack_of, pop_unpinned}
use density.PageStack.Sequential.{IsPages}
use density.PageStack.Popping.{Popped, pop_unpinned-Popped}
use density.PageStack.WaitFree.{
  Shared, idle, holding, pushing, popping, pop_store, push_load, push_exchange, System, Steps, done,
  more, step, pushes, pushed,
}
use density.PageStack.Conservation.{none, thread, no_page, one, locked}
use density.PageStack.Conserved.{opened, closed}
use density.PageStack.Population.{IsPopulation, IsConserved, Steps-IsConserved}
use density.PageStack.Restoring.{Restored, pop_store-Restored}
use density.PageStack.Segment.{Segment}

-- The page at 4096 is pinned and leads to that at 8192; that at 12288 is in another stack.
abbrev memory : Footers
memory = record {
  m_next_page = λ a. if a == 4096 then 8192 else 0;
  m_pin_count = λ a. if a == 4096 then 1 else 0;
}

two-IsPages : IsPages memory (stack_of 4096) (4096 ∷ 8192 ∷ [])
two-IsPages = record {
  linked = (refl, omega arith, (refl, omega arith, refl));
  once = λ a. ground arith;
  cached = inl refl;
}

other-IsPages : IsPages memory (stack_of 12288) (12288 ∷ [])
other-IsPages = record {
  linked = (refl, omega arith, refl);
  once = λ a. ground arith;
  cached = inl refl;
}

pop_unpinned_example :
    Popped memory (stack_of 4096) (4096 ∷ 8192 ∷ []) (pop_unpinned 2 (stack_of 4096) memory)
pop_unpinned_example =
    pop_unpinned-Popped memory (stack_of 4096) (4096 ∷ 8192 ∷ []) 2 two-IsPages (omega arith)

null_stack-IsPages : IsPages memory (stack_of 0) []
null_stack-IsPages = record { linked = refl; once = λ a. omega arith; cached = inl refl }

-- Pages at 4096, 8192 and 12288.
abbrev three : ℕ → ℕ
three a = count a (4096 ∷ 8192 ∷ 12288 ∷ [])

three-IsPopulation : IsPopulation three
three-IsPopulation a = (ground arith, λ lt. ground (arith, lt))

-- One page in the stack, and three threads, of which two have a page.
abbrev initial : System
initial = record {
  shared = record { m_first = 4096; m_next_page = λ a. 0 };
  threads = holding 8192 ∷ holding 12288 ∷ idle ∷ [];
}

initial-IsConserved : IsConserved three initial
initial-IsConserved = record {
  stack = 4096 ∷ [];
  held = 8192 ∷ 12288 ∷ [];
  shared = opened (λ e. absurd (omega (arith, e))) (refl, omega arith, refl);
  threads = thread one (thread one (thread no_page none));
  lock = refl;
  all = λ a. ground arith;
}

-- The first two threads load the top, and only one of them can push then.
abbrev first_pushed : System
first_pushed = record {
  shared = record { m_first = 8192; m_next_page = update (update (λ a. 0) 8192 4096) 12288 4096 };
  threads = idle ∷ holding 12288 ∷ idle ∷ [];
}

pushing-Steps : Steps initial first_pushed
unfolding push_load push_exchange
pushing-Steps = more (step [] (holding 12288 ∷ idle ∷ []) pushes refl) (
    more (step (pushing 8192 4096 ∷ []) (idle ∷ []) pushes refl) (
      more (step [] (pushing 12288 4096 ∷ idle ∷ []) (pushed false) refl)
        (more (step (idle ∷ []) (idle ∷ []) (pushed false) refl) done)))

steps_example : IsConserved three first_pushed
steps_example = Steps-IsConserved three three-IsPopulation initial-IsConserved pushing-Steps

-- The third thread has locked the stack.
abbrev shut : Shared
shut = record { m_first = 1; m_next_page = λ a. 0 }

shut-IsConserved :
    IsConserved three
      (record { shared = shut; threads = (holding 8192 ∷ holding 12288 ∷ []) ++ popping 4096 ∷ [] })
shut-IsConserved = record {
  stack = [];
  held = 8192 ∷ 12288 ∷ 4096 ∷ [];
  shared = closed refl;
  threads =
      thread one (thread one (thread (locked {pages = 4096 ∷ []} (refl, omega arith, refl)) none));
  lock = refl;
  all = λ a. ground arith;
}

pop_store_example :
    (own : List ℕ) × Segment shut.m_next_page 4096 own 0
    × ((fuel : ℕ) (seen : ℕ → ℕ)
        → length own ≤ fuel
        → Restored seen shut own (pop_store fuel seen 4096 shut))
pop_store_example =
    pop_store-Restored three shut (holding 8192 ∷ holding 12288 ∷ []) [] 4096 three-IsPopulation
      shut-IsConserved
