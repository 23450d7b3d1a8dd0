-- ===== src/HeterQueue/Push.antt =====
-- heter_queue.h: the put operations as a whole, the construction of the element included.
use mathlib.Core.List.{map-append, append-nil}
use density.HeterQueue.Invariant.{IsOpen, IsValid, opened, contents}
use density.Base.{
  ℕ, ◌+◌, ◌-◌, ◌%◌, ◌^◌, ◌≤◌, ◌<◌, ◌≡◌, refl, ap, ◌∙◌, true, false, List, [], ◌∷◌, ◌++◌, map, arith,
  inl, inr, ◌⊎◌, Option, none, some, ◌==◌, ◌∉◌, has-append, if◌then◌else◌, Bool-cases,
}
use density.Align.{word_mod, add_word}
use density.Align.Rounding.{IsAlignment}
use density.Allocator.{Allocator, IsAllocator}
use density.HeterQueue.Layout.{Layout, IsLayout, queue_dead, raise_request}
use density.HeterQueue.State.{Queue, Event, type_destroyed}
use density.Effects.{M, Result, ok, throw, update, ◌>>=◌, bind-ok, bind-throw}
use density.HeterQueue.Put.{
  Allocation, dyn_put, construct, inplace_allocate, nesting, RuntimeType, start_dyn_push,
  start_dyn_push_copy, start_dyn_push_move, start_reentrant_dyn_push, start_reentrant_dyn_push_copy,
  start_reentrant_dyn_push_move,
}
use density.HeterQueue.Chain.{live, Chain-small}
use density.HeterQueue.Consumer.{rewritten, rewritten-IsValid}
use density.HeterQueue.Live.{live-absent}
use density.HeterQueue.Producer.{IsPut}
use density.HeterQueue.Loop.{Outcome, done, failed}
use density.HeterQueue.Inplace.{Refused, inplace-Outcome}
use density.HeterQueue.Zeroed.{IsKept}

live-last :
    (next : ℕ → ℕ) (p : ℕ) (ys : List ℕ)
    → live next (ys ++ p ∷ []) ≡ live next ys ++ (if next p % 4 == 0 then p ∷ [] else [])
live-last next p [] = refl
live-last next p (y ∷ ys) = ground (arith, live-last next p ys)

-- Objects in a block that is not in the chain are not seen there.
map-absent {ℓ} :
    {B : Type ℓ} (f g : ℕ → B) (next : ℕ → ℕ) (p : ℕ) (ys : List ℕ)
    → p ∉ ys
    → ((q : ℕ) → (q == p) ≡ false → f q ≡ g q)
    → map f (live next ys) ≡ map g (live next ys)
map-absent f g next p [] out same = refl
map-absent f g next p (y ∷ ys) out same =
    ground (arith, map-absent f g next p ys (ground arith) same, same y (ground arith))

module _ {A T V : Type 0} ⦃l : Layout⦄ ⦃al : Allocator A⦄ (laws : IsAllocator al l.page_alignment)
    (lay : IsLayout l) where
  -- The ways in which a put of `type` and `element` with the request `i_size` and `i_alignment` ends. A put
  -- that is not yet committed is busy.
  pub data PutResult (s : Queue A T V) (xs : List ℕ) (bits i_size i_alignment : ℕ) (type : Option T)
      (element : Option V) (r : Result (Queue A T V) Allocation) : Type 0 where
    pushed :
        (put : Allocation) (t : Queue A T V) (ys : List ℕ) (ty : T) (v : V)
        → type ≡ some ty
        → element ≡ some v
        → r ≡ ok put t
        → IsValid laws t (ys ++ put.m_control_block ∷ [])
        → (contents t (ys ++ put.m_control_block ∷ [])
            ≡ contents s xs ++ (if bits == 0 then (ty, v) ∷ [] else []))
        → t.m_next put.m_control_block % 4 ≡ bits
        → ◌≡◌ {A = T × V} (t.types put.m_control_block, t.elements put.m_control_block) (ty, v)
        → PutResult s xs bits i_size i_alignment type element r
    no_memory :
        (t : Queue A T V)
        → Refused laws lay true
            (raise_request i_size i_alignment).0
            (raise_request i_size i_alignment).1
            s
            t
        → r ≡ throw t
        → IsValid laws t xs
        → contents t xs ≡ contents s xs
        → PutResult s xs bits i_size i_alignment type element r
    not_constructed :
        (t : Queue A T V) (zs : List ℕ)
        → ((type ≡ none) ⊎ (element ≡ none))
        → r ≡ throw t
        → IsValid laws t zs
        → contents t zs ≡ contents s xs
        → PutResult s xs bits i_size i_alignment type element r

  kept-contents :
      (s t : Queue A T V) (xs : List ℕ) → IsKept laws lay [] s xs t → contents t xs ≡ contents s xs
  kept-contents s t xs w =
      ap (λ (u : Queue A T V). map (λ q. (u.types q, u.elements q)) (live t.m_next xs)) w.same
      ∙ ap (map (λ q. (s.types q, s.elements q))) w.others

  -- Behind the new block the queue shows what it showed.
  contents-others :
      (s t : Queue A T V) (xs ys : List ℕ) {bits : ℕ} (p : ℕ)
      → IsPut laws lay [] s xs bits p t ys
      → contents t ys ≡ contents s xs
  contents-others s t xs ys p i = rw (i.same_types, i.same_elements, i.others)

  -- After a failed construction the block is dead and the contents are those before.
  cancelled :
      (s t : Queue A T V) (xs ys : List ℕ) (bits p : ℕ) (types : ℕ → T) (events : List (Event T V))
      → bits < 2
      → IsPut laws lay [] s xs bits p t ys
      → ((q : ℕ) → (q == p) ≡ false → types q ≡ t.types q)
      → IsValid laws
          (rewritten laws lay t p
            (add_word (t.m_next p) (queue_dead - bits))
            types
            t.elements
            events)
          (ys ++ p ∷ [])
        × (contents
              (rewritten laws lay t p
                (add_word (t.m_next p) (queue_dead - bits))
                types
                t.elements
                events)
              (ys ++ p ∷ [])
            ≡ contents s xs)
  cancelled s t xs ys bits p types events small i same =
      let w = add_word (t.m_next p) (queue_dead - bits) in
      let word : t.m_next p < word_mod =
        Chain-small p i.opens.chain (ground (arith, has-append p ys (p ∷ []))) in
      let dead : (w % 4 == 0) ≡ false = ground (arith, i.flags) in
      let at_p : (p == p) ≡ true = ground arith in
      (
        rewritten-IsValid laws lay p w types t.elements events (opened i.opens) (omega arith)
            (omega (arith, i.flags)),
        ap (map (λ q. (types q, t.elements q))) (
              live-last (update t.m_next p w) p ys
              ∙ rw (at_p, dead) (append-nil (live (update t.m_next p w) ys))
              ∙ live-absent t.m_next p w ys i.new)
            ∙ map-absent _ _ t.m_next p ys i.new (λ q h. ap (λ x. (x, t.elements q)) (same q h))
            ∙ contents-others s t xs ys p i,
      )

  objects-IsOpen :
      (t : Queue A T V) (zs : List ℕ) (types : ℕ → T) (elements : ℕ → V)
      → IsOpen laws t zs
      → IsOpen laws (record t { types = types; elements = elements }) zs
  objects-IsOpen t zs types elements o = record {
    chain = o.chain;
    owned = record {
      pages = o.owned.pages;
      pages_distinct = o.owned.pages_distinct;
      blocks = o.owned.blocks;
      blocks_distinct = o.owned.blocks_distinct;
    };
    bounds = o.bounds;
    below = o.below;
    tail_bound = o.tail_bound;
    tail_aligned = o.tail_aligned;
    tail_room = o.tail_room;
  }

  -- A committed or busy block that holds what was constructed.
  constructed :
      (s t : Queue A T V) (xs ys : List ℕ) (bits p : ℕ) (ty : T) (v : V)
      → bits < 2
      → IsPut laws lay [] s xs bits p t ys
      → IsValid laws
          (record t { types = update t.types p ty; elements = update t.elements p v })
          (ys ++ p ∷ [])
        × (contents
              (record t { types = update t.types p ty; elements = update t.elements p v })
              (ys ++ p ∷ [])
            ≡ contents s xs ++ (if bits == 0 then (ty, v) ∷ [] else []))
  constructed s t xs ys bits p ty v small i =
      let objects : ℕ → T × V = λ q. (update t.types p ty q, update t.elements p v q) in
      let same =
        map-absent objects (λ q. (t.types q, t.elements q)) t.m_next p ys i.new (λ q h. rw h) in
      let at_p : objects p ≡ (ty, v) = ground arith in
      let flag : (t.m_next p % 4 == 0) ≡ (bits == 0) = ground (arith, i.flags) in
      (
        opened (objects-IsOpen t _ (update t.types p ty) (update t.elements p v) i.opens),
        ap (map objects) (live-last t.m_next p ys)
            ∙ map-append objects (live t.m_next ys) _
            ∙ ap (λ c. c ++ map objects (if t.m_next p % 4 == 0 then p ∷ [] else []))
                (same ∙ contents-others s t xs ys p i)
            ∙ ap (λ c. contents s xs ++ c)
                (elim (Bool-cases (bits == 0)) [
                  | inl e ↦ rw (flag, e, at_p)
                  | inr e ↦ rw (flag, e)
                ]),
      )

  put-PutResult :
      (m : M (Queue A T V) Allocation) (s : Queue A T V) (xs : List ℕ) (bits i_size i_alignment : ℕ)
      (P : Allocation → Queue A T V → Type 0) (type : Option T) (element : Option V)
      → bits < 2
      → IsValid laws s xs
      → Outcome laws lay [] s xs bits P
          (Refused laws lay true
            (raise_request i_size i_alignment).0
            (raise_request i_size i_alignment).1
            s)
          (m s)
      → PutResult s xs bits i_size i_alignment type element
          ((m >>= λ put. construct bits put.m_control_block type element >>= λ _. ok put) s)
  unfolding construct
  put-PutResult m s xs bits n a P type element small v (failed t why e w) =
      no_memory t why (bind-throw m _ s t e) w.valid (kept-contents s t xs w)
  put-PutResult m s xs bits n a P none element small v (done put t ys e i stored) =
      let (w, c) =
        cancelled s t xs ys bits put.m_control_block t.types t.events small i (λ q h. refl) in
      not_constructed _ (ys ++ put.m_control_block ∷ []) (inl refl) (bind-ok m _ s t put e) w c
  put-PutResult m s xs bits n a P (some ty) none small v (done put t ys e i stored) =
      let (w, c) =
        cancelled s t xs ys bits put.m_control_block (update t.types put.m_control_block ty)
          (type_destroyed ty ∷ t.events) small i (λ q h. rw h) in
      not_constructed _ (ys ++ put.m_control_block ∷ []) (inr refl) (bind-ok m _ s t put e) w c
  put-PutResult m s xs bits n a P (some ty) (some x) small v (done put t ys e i stored) =
      let (w, c) = constructed s t xs ys bits put.m_control_block ty x small i in
      pushed put _ ys ty x refl refl (bind-ok m _ s t put e) w c i.flags (ground arith)

  module _ (rt : RuntimeType T V) where
    -- A request of a type that a queue can hold.
    pub record IsElementType (ty : T) : Type 0 where
      pub alignment : IsAlignment (rt.alignment ty)
      pub multiple : rt.size ty % rt.alignment ty ≡ 0
      pub bound : rt.size ty + rt.alignment ty ≤ 2 ^ 61

    dyn_put-PutResult :
        (s : Queue A T V) (xs : List ℕ) (bits : ℕ) (i_type : T) (element : Option V)
        → IsValid laws s xs
        → IsElementType i_type
        → bits < 2
        → PutResult s xs bits
            (rt.size i_type)
            (rt.alignment i_type)
            (rt.copy_type i_type)
            element
            (dyn_put rt bits i_type element s)
    dyn_put-PutResult s xs bits ty element v k small =
        put-PutResult (inplace_allocate nesting bits true (rt.size ty) (rt.alignment ty)) s xs bits
          (rt.size ty) (rt.alignment ty) _ (rt.copy_type ty) element small v
          (inplace-Outcome laws lay s bits true (rt.size ty) (rt.alignment ty) v (omega arith)
            k.alignment k.multiple k.bound)

    -- `start_dyn_push`, `start_dyn_push_copy` and `start_dyn_push_move`, on a well formed queue and a
    -- type whose size is a multiple of its alignment and that is far from filling the address space:
    -- either the queue gets the pair of the copied type and the constructed element behind its
    -- contents; or there is an exception because the request of the type does not fit behind the tail
    -- and the allocator, in the state before, has no page or no block for it (or no page for the
    -- control block of its external block); or there is one because a constructor threw. Then the
    -- contents are those before. The queue is well formed in each case.
    pub start_dyn_push-PutResult :
        (s : Queue A T V) (xs : List ℕ) (i_type : T) (i_source : V)
        → IsValid laws s xs
        → IsElementType i_type
        → PutResult s xs 0
            (rt.size i_type)
            (rt.alignment i_type)
            (rt.copy_type i_type)
            (rt.default_construct i_type)
            (start_dyn_push rt i_type s)
          × PutResult s xs 0
              (rt.size i_type)
              (rt.alignment i_type)
              (rt.copy_type i_type)
              (rt.copy_construct i_type i_source)
              (start_dyn_push_copy rt i_type i_source s)
          × PutResult s xs 0
              (rt.size i_type)
              (rt.alignment i_type)
              (rt.copy_type i_type)
              (rt.move_construct i_type i_source)
              (start_dyn_push_move rt i_type i_source s)
    unfolding start_dyn_push start_dyn_push_copy start_dyn_push_move
    start_dyn_push-PutResult s xs ty x v k = (
      dyn_put-PutResult s xs 0 ty (rt.default_construct ty) v k (omega arith),
      dyn_put-PutResult s xs 0 ty (rt.copy_construct ty x) v k (omega arith),
      dyn_put-PutResult s xs 0 ty (rt.move_construct ty x) v k (omega arith),
    )

    -- `start_reentrant_dyn_push`, `start_reentrant_dyn_push_copy` and `start_reentrant_dyn_push_move`,
    -- under the same conditions: either the queue gets a busy block with the copied type and the
    -- constructed element, which the contents do not show yet; or there is an exception because the
    -- request of the type does not fit behind the tail and the allocator, in the state before, has no
    -- page or no block for it (or no page for the control block of its external block); or there is
    -- one because a constructor threw. The queue is well formed and has the contents before in each
    -- case.
    pub start_reentrant_dyn_push-PutResult :
        (s : Queue A T V) (xs : List ℕ) (i_type : T) (i_source : V)
        → IsValid laws s xs
        → IsElementType i_type
        → PutResult s xs 1
            (rt.size i_type)
            (rt.alignment i_type)
            (rt.copy_type i_type)
            (rt.default_construct i_type)
            (start_reentrant_dyn_push rt i_type s)
          × PutResult s xs 1
              (rt.size i_type)
              (rt.alignment i_type)
              (rt.copy_type i_type)
              (rt.copy_construct i_type i_source)
              (start_reentrant_dyn_push_copy rt i_type i_source s)
          × PutResult s xs 1
              (rt.size i_type)
              (rt.alignment i_type)
              (rt.copy_type i_type)
              (rt.move_construct i_type i_source)
              (start_reentrant_dyn_push_move rt i_type i_source s)
    unfolding start_reentrant_dyn_push start_reentrant_dyn_push_copy start_reentrant_dyn_push_move
    start_reentrant_dyn_push-PutResult s xs ty x v k = (
      dyn_put-PutResult s xs 1 ty (rt.default_construct ty) v k (omega arith),
      dyn_put-PutResult s xs 1 ty (rt.copy_construct ty x) v k (omega arith),
      dyn_put-PutResult s xs 1 ty (rt.move_construct ty x) v k (omega arith),
    )
