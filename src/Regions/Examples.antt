-- ===== src/Regions/Examples.antt =====
-- The theorems about system_page_manager.h at concrete regions.
use density.Base.{
  ap, ltb, none, ◌^◌, false, if◌then◌else◌, ◌<◌, ℕ, ◌+◌, ◌≤◌, ◌≡◌, refl, Option, some, [], ◌∷◌,
  arith,
}
use density.Align.Rounding.{IsAlignment}
use density.Heap.{passed}
use density.Regions.Pages.{
  System, Steps, done, more, step, adds, loads, exchanges, ready, overflowing, loaded, lockfree_add,
  lockfree_sub, waitfree_load, waitfree_exchange,
}
use density.Regions.Handing.{IsHanded, Steps-IsHanded}
use density.Regions.Creation.{
  SystemMemory, IsSystemMemory, Created, create_region, create_region-Created,
}

-- Two pages from 131072 on, and three threads.
abbrev initial : System
initial = record {
  region = record { m_curr = 131072; m_end = 262144; m_start = 131000 };
  threads = ready ∷ ready ∷ ready ∷ [];
  handed = [];
}

initial-IsHanded : IsHanded 65536 131072 2 131000 initial
initial-IsHanded = record {
  region = record { positive = omega arith; inside = omega arith; no_wrap = omega arith };
  handing = record {
    given = 0;
    room = omega arith;
    full = λ lt. absurd (omega (arith, lt));
    curr = refl;
    end_at = refl;
    start_at = refl;
    pages = refl;
  };
  ahead = (tt, (tt, (tt, tt)));
}

-- The second thread loads, the first takes a page, the second fails to exchange and takes a page by the
-- other function, and the third finds none.
abbrev final : System
final = record {
  region = record { m_curr = 327680; m_end = 262144; m_start = 131000 };
  threads = ready ∷ ready ∷ overflowing ∷ [];
  handed = 196608 ∷ 131072 ∷ [];
}

handing-Steps : Steps 65536 initial final
unfolding lockfree_add lockfree_sub waitfree_load waitfree_exchange
handing-Steps = more (step (ready ∷ []) (ready ∷ []) loads) (
    more (step [] (loaded 131072 ∷ ready ∷ []) adds) (
      more (step (ready ∷ []) (ready ∷ []) (exchanges {curr_address = 131072} false)) (
        more (step (ready ∷ []) (ready ∷ []) adds)
          (more (step (ready ∷ ready ∷ []) [] adds) done))))

handing_example : IsHanded 65536 131072 2 131000 final
handing_example = Steps-IsHanded 65536 131072 2 131000 initial-IsHanded handing-Steps

-- A system with an arena of 1 MiB, of which it gives what is left.
abbrev take : ℕ → ℕ → Option (ℕ × ℕ)
take size used = if ltb 1048576 (used + size) then none else some (4096 + used, used + size)

instance abbrev arena : SystemMemory ℕ
arena = record { operator_new = take; operator_delete = λ p used. used; sizeof_region = 64 }

arena-IsSystemMemory : IsSystemMemory arena
arena-IsSystemMemory = record { bounds = taken }
  where
    taken : (a b size p : ℕ) → take size a ≡ some (p, b) → (0 < p) × (p + size ≤ 2 ^ 63)
    taken a b size p e =
        let (fits, f) = passed (ltb 1048576 (a + size)) (4096 + a, a + size) (p, b) e in
        let at : 4096 + a ≡ p = ap (λ x. x.0) f in (omega (arith, at), ground (arith, fits, at))

page_power : IsAlignment 65536
page_power = record { exponent = 16; fits = omega arith; power = refl }

create_region_example :
    Created 65536 page_power (omega arith) arena-IsSystemMemory 0 (create_region 65536 24 0)
create_region_example = create_region-Created 65536 page_power (omega arith) arena-IsSystemMemory 0
