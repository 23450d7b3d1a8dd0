-- ===== src/Blocks/Laws.antt =====
-- density_common.h: where the blocks of aligned_allocate are, and what aligned_deallocate gives back.
use density.Base.{if◌then◌else◌}
use native.Mathlib.Nat.{add-mod_right, mod-eq_of_lt}
use density.Base.{
  ℕ, ◌+◌, ◌-◌, ◌≤◌, ◌<◌, ◌≡◌, ◌%◌, ◌^◌, refl, ap, ◌∙◌, true, false, Bool-cases, inl, inr, Option,
  none, some, ◌==◌, arith,
}
use density.Align.{word_mod, add_word, sub_word, uint_lower_align}
use density.Align.Rounding.{IsAlignment, IsAlignment-divides, lower_align_bounds}
use density.Align.Multiples.{multiple_trans}
use density.Effects.{Result, ok, throw}
use density.HeterQueue.Layout.{size_max}
use density.Blocks.Operations.{
  NewDelete, Memory, address_lower_align, header_of, extra_size, is_plain, user_block, with_header,
  aligned_allocate, aligned_deallocate,
}

-- Blocks lie in the lower half of the address space, not at null, and are aligned for every plain type.
pub record IsNewDelete {A : Type 0} (nd : NewDelete A) : Type 0 where
  pub alignment : IsAlignment nd.max_alignment
  pub bounds :
      (a b : A) (size p : ℕ) → nd.operator_new size a ≡ some (p, b) → (0 < p) × (p + size ≤ 2 ^ 63)
  pub aligned :
      (a b : A) (size p : ℕ) → nd.operator_new size a ≡ some (p, b) → p % nd.max_alignment ≡ 0

extra_bounds : (a : ℕ) → (a ≤ extra_size a) × (8 ≤ extra_size a) × (extra_size a ≤ a + 8)
unfolding extra_size size_max
extra_bounds a = ground arith

-- The place of a block in the larger one.
pub user_block-bounds :
    (p a off size : ℕ)
    → IsAlignment a
    → off ≤ size
    → 0 < p
    → size < 2 ^ 62
    → a < 2 ^ 61
    → p + (size + extra_size a) ≤ 2 ^ 63
    → ((user_block p a off + off) % a ≡ 0)
      × (p < user_block p a off)
      × (user_block p a off + size ≤ p + (size + extra_size a))
      × (user_block p a off + off ≡ uint_lower_align (p + extra_size a + off) a)
unfolding address_lower_align
user_block-bounds p a off size v within pos small small' fits =
    let (low, high, extra) = extra_bounds a in
    let e = extra_size a in
    let at : add_word (add_word p e) off ≡ p + e + off =
      ap (λ x. add_word x off) (mod-eq_of_lt (omega (arith, fits)))
      ∙ mod-eq_of_lt (omega (arith, fits, within, small)) in
    let (multiple, below, above) =
      lower_align_bounds (p + e + off) a v (omega (arith, fits, within, small)) in
    let w = uint_lower_align (p + e + off) a in
    let back : sub_word w off ≡ w - off =
      sub_back w off (omega (arith, above, low, pos)) (omega (arith, below, fits, within, small)) in
    let user : sub_word (uint_lower_align (add_word (add_word p e) off) a) off ≡ w - off =
      ap (λ x. sub_word (uint_lower_align x a) off) at ∙ back in
    let sum : w - off + off ≡ w = omega (arith, above, low, pos) in
    rw user (
      ap (λ x. x % a) sum ∙ multiple,
      omega (arith, above, low),
      omega (arith, below, above, low, pos),
      sum,
    )
  where
    sub_back : (w off : ℕ) → off ≤ w → w < word_mod → sub_word w off ≡ w - off
    sub_back w off le lt =
        let e : w + word_mod - off ≡ w - off + word_mod = omega arith in
        rw e (add-mod_right (w - off) word_mod ∙ mod-eq_of_lt (omega arith))

-- The size that is asked of operator new.
abbrev pub request_of : {A : Type 0} → NewDelete A → (size a off : ℕ) → ℕ
request_of nd size a off =
    if is_plain nd.max_alignment a off then size else add_word size (extra_size a)

-- The block and the larger one of the `actual` bytes that were asked for, or a failure of operator new on
-- that request.
pub data AlignedBlock {A : Type 0} (nd : NewDelete A) (size a off actual : ℕ) (s : Memory A)
    (r : Result (Memory A) ℕ) : Type 0 where
  allocated :
      (complete user : ℕ) (t : Memory A)
      → r ≡ ok user t
      → nd.operator_new actual s.system ≡ some (complete, t.system)
      → (user + off) % a ≡ 0
      → 0 < user
      → complete ≤ user
      → user + size ≤ complete + actual
      → ((u : Memory A)
          → u.m_block (header_of user) ≡ t.m_block (header_of user)
          → aligned_deallocate ⦃nd = nd⦄ user size a off u
            ≡ record u { system = nd.operator_delete complete actual u.system })
      → AlignedBlock nd size a off actual s r
  failed :
      nd.operator_new actual s.system ≡ none → r ≡ throw s → AlignedBlock nd size a off actual s r

module _ {A : Type 0} ⦃nd : NewDelete A⦄ (laws : IsNewDelete nd) (size a off : ℕ) (s : Memory A)
    (v : IsAlignment a) where
  plain-AlignedBlock :
      (o : Option (ℕ × A))
      → nd.operator_new size s.system ≡ o
      → is_plain nd.max_alignment a off ≡ true
      → AlignedBlock nd size a off size s (aligned_allocate size a off s)
  unfolding aligned_allocate aligned_deallocate
  plain-AlignedBlock none e plain = failed e (rw (plain, e))
  plain-AlignedBlock (some (p, b)) e plain =
      let (pos, fits) = laws.bounds s.system b size p e in
      let least : a ≤ nd.max_alignment = ground (arith, plain) in
      let whole : p + off ≡ p = ground (arith, plain) in
      allocated p p (record s { system = b }) (rw (plain, e)) e
        (ap (λ x. x % a) whole
          ∙ multiple_trans a nd.max_alignment p (IsAlignment-divides v laws.alignment least)
              (laws.aligned s.system b size p e))
        pos (omega arith) (omega arith) (λ u same. rw plain)

  headed-AlignedBlock :
      (o : Option (ℕ × A))
      → nd.operator_new (add_word size (extra_size a)) s.system ≡ o
      → is_plain nd.max_alignment a off ≡ false
      → off ≤ size
      → size < 2 ^ 62
      → a < 2 ^ 61
      → AlignedBlock nd size a off (add_word size (extra_size a)) s (aligned_allocate size a off s)
  unfolding aligned_allocate aligned_deallocate
  headed-AlignedBlock none e headed within small small' = failed e (rw (headed, e))
  headed-AlignedBlock (some (p, b)) e headed within small small' =
      let actual = add_word size (extra_size a) in
      let (low, high, extra) = extra_bounds a in
      let sum : actual ≡ size + extra_size a = mod-eq_of_lt (omega (arith, extra)) in
      let (pos, fits) = laws.bounds s.system b actual p e in
      let (multiple, behind, inside, place) =
        user_block-bounds p a off size v within pos small small' (omega (arith, fits, sum)) in
      let user = user_block p a off in
      let test : (user == 0) ≡ false = not_zero user (omega (arith, behind)) in
      let self : (header_of user == header_of user) ≡ true = same_number (header_of user) in
      allocated p user (with_header p a off b s) (rw (headed, e)) e multiple (omega (arith, behind))
        (omega (arith, behind)) (omega (arith, inside, sum))
        (λ u same.
          let at : u.m_block (header_of user) ≡ p = same ∙ rw self in
          rw (headed, test)
            (ap (λ x. record u { system = nd.operator_delete x actual u.system }) at))
    where
      not_zero : (n : ℕ) → 0 < n → (n == 0) ≡ false
      not_zero n lt = ground arith

      same_number : (n : ℕ) → (n == n) ≡ true
      same_number n = ground arith

  -- `aligned_allocate` of a size below 2 ^ 62 with an alignment below 2 ^ 61 and an offset of at most the size
  -- gives a block inside a block from operator new, aligned at the offset, and `aligned_deallocate`, as long as
  -- the header is as it was, gives just that larger block back, with its size; or operator new fails
  -- on the request of the size, with the extra space of the header where the block needs one, and
  -- std::bad_alloc is thrown. Memory lies in the lower half of the address space.
  pub aligned_allocate-AlignedBlock :
      off ≤ size
      → size < 2 ^ 62
      → a < 2 ^ 61
      → AlignedBlock nd size a off (request_of nd size a off) s (aligned_allocate size a off s)
  aligned_allocate-AlignedBlock within small small' =
      elim (Bool-cases (is_plain nd.max_alignment a off)) [
        | inl plain ↦ rw plain (plain-AlignedBlock (nd.operator_new size s.system) refl plain)
        | inr headed ↦ rw headed (
            headed-AlignedBlock (nd.operator_new (add_word size (extra_size a)) s.system) refl
              headed within small small')
      ]
