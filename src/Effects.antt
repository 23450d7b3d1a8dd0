-- ===== src/Effects.antt =====
-- Commands on a state that can throw, and maps that are updated at an address.
use density.Base.{ap, ◌≡◌, ℕ, ◌==◌, if◌then◌else◌}

abbrev pub update {ℓ} : {B : Type ℓ} → (ℕ → B) → ℕ → B → ℕ → B
update f p v q = if q == p then v else f q

-- `throw` carries the state that an exception leaves behind.
pub data Result (S B : Type 0) : Type 0 where
  ok : B → S → Result S B
  throw : S → Result S B
  out_of_fuel : Result S B

-- A command on the state `S`.
abbrev pub M : Type 0 → Type 0 → Type 0
M S B = S → Result S B

module _ {S B C : Type 0} where
  infixl 5 ◌>>=◌
  abbrev pub ◌>>=◌ : M S B → (B → M S C) → M S C
  ◌>>=◌ m k s = elim (m s) [ ok b t ↦ k b t | throw t ↦ throw t | out_of_fuel ↦ out_of_fuel ]

  pub bind-ok : (m : M S B) (k : B → M S C) (s t : S) (b : B) → m s ≡ ok b t → (m >>= k) s ≡ k b t
  bind-ok m k s t b e =
      ap (λ r. elim r [ ok c u ↦ k c u | throw u ↦ throw u | out_of_fuel ↦ out_of_fuel ]) e

  pub bind-throw : (m : M S B) (k : B → M S C) (s t : S) → m s ≡ throw t → (m >>= k) s ≡ throw t
  bind-throw m k s t e =
      ap (λ r. elim r [ ok c u ↦ k c u | throw u ↦ throw u | out_of_fuel ↦ out_of_fuel ]) e

-- `try { m } catch (...) { handler; throw; }`
abbrev pub on_exception : {S B : Type 0} → M S B → (S → S) → M S B
on_exception m handler s = elim (m s) [
  | ok b t ↦ ok b t
  | throw t ↦ throw (handler t)
  | out_of_fuel ↦ out_of_fuel
]

module _ {S B : Type 0} where
  pub on_exception-ok :
      (m : M S B) (handler : S → S) (s t : S) (b : B)
      → m s ≡ ok b t
      → on_exception m handler s ≡ ok b t
  on_exception-ok m handler s t b e =
      ap (λ r. elim r [ ok c u ↦ ok c u | throw u ↦ throw (handler u) | out_of_fuel ↦ out_of_fuel ])
        e

  pub on_exception-throw :
      (m : M S B) (handler : S → S) (s t : S)
      → m s ≡ throw t
      → on_exception m handler s ≡ throw (handler t)
  on_exception-throw m handler s t e =
      ap (λ r. elim r [ ok c u ↦ ok c u | throw u ↦ throw (handler u) | out_of_fuel ↦ out_of_fuel ])
        e
