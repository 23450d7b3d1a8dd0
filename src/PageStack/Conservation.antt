-- ===== src/PageStack/Conservation.antt =====
-- detail/wf_page_stack.h: whatever the threads do, no page is lost and none is in two places.
use density.Base.{ℕ, ◌+◌, ◌<◌, ◌≡◌, ◌≢◌, ◌∙◌, List, [], ◌∷◌, ◌++◌, count, count-append, arith}
use density.PageStack.Operations.{PageStack}
use density.PageStack.Segment.{Segment}
use density.PageStack.Sequential.{IsPages}
use density.PageStack.WaitFree.{
  lock_marker, Local, idle, holding, pushing, owning, pushing_range, removing, popping, footers,
}

-- Links of the pages of a segment are all that it depends on.
pub Segment-agree :
    (next next' : ℕ → ℕ) (a b : ℕ) (pages : List ℕ)
    → ((p : ℕ) → 0 < count p pages → next' p ≡ next p)
    → Segment next a pages b
    → Segment next' a pages b
Segment-agree next next' a b [] same s = s
Segment-agree next next' a b (p ∷ pages) same (e, pos, s) = (
  e,
  pos,
  rw (same p (ground arith))
      (Segment-agree next next' (next p) b pages (λ q lt. same q (ground arith)) s),
)

-- The pages that belong to a thread, with their links.
pub data Holds (next : ℕ → ℕ) : Local → List ℕ → Type 0 where
  no_page : Holds next idle []
  loaded : {first : ℕ} → first ≢ lock_marker → Holds next (removing first) []
  one : {p : ℕ} → Holds next (holding p) (p ∷ [])
  linked_one :
      {p first : ℕ} → next p ≡ first → first ≢ lock_marker → Holds next (pushing p first) (p ∷ [])
  range :
      {s : PageStack} {pages : List ℕ}
      → IsPages (footers next (λ a. 0)) s pages
      → Holds next (owning s) pages
  linked_range :
      {s : PageStack} {last first : ℕ} (xs : List ℕ)
      → Segment next s.m_first (xs ++ last ∷ []) first
      → s.m_cached_last ≡ last
      → first ≢ lock_marker
      → Holds next (pushing_range s last first) (xs ++ last ∷ [])
  locked :
      {first : ℕ} {pages : List ℕ} → Segment next first pages 0 → Holds next (popping first) pages

pub data AllHold (next : ℕ → ℕ) : List Local → List ℕ → Type 0 where
  none : AllHold next [] []
  thread :
      {l : Local} {ls : List Local} {pages rest : List ℕ}
      → Holds next l pages
      → AllHold next ls rest
      → AllHold next (l ∷ ls) (pages ++ rest)

Holds-agree :
    (next next' : ℕ → ℕ) {l : Local} {pages : List ℕ}
    → ((p : ℕ) → 0 < count p pages → next' p ≡ next p)
    → Holds next l pages
    → Holds next' l pages
Holds-agree next next' same no_page = no_page
Holds-agree next next' same (loaded free) = loaded free
Holds-agree next next' same one = one
Holds-agree next next' same (linked_one {p} e free) = linked_one (same p (ground arith) ∙ e) free
Holds-agree next next' same (range {s} {pages} i) = range (record {
  linked = Segment-agree next next' s.m_first 0 pages same i.linked;
  once = i.once;
  cached = i.cached;
})
Holds-agree next next' same (linked_range {s} {last} {first} xs l e free) =
    linked_range xs (Segment-agree next next' s.m_first first (xs ++ last ∷ []) same l) e free
Holds-agree next next' same (locked {first} {pages} l) =
    locked (Segment-agree next next' first 0 pages same l)

AllHold-agree :
    (next next' : ℕ → ℕ) {ls : List Local} {held : List ℕ}
    → ((p : ℕ) → 0 < count p held → next' p ≡ next p)
    → AllHold next ls held
    → AllHold next' ls held
AllHold-agree next next' same none = none
AllHold-agree next next' same (thread {pages = pages} {rest = rest} h all) =
    thread
      (Holds-agree next next' (λ p lt. same p (omega (arith, lt, count-append p pages rest))) h)
      (AllHold-agree next next' (λ p lt. same p (omega (arith, lt, count-append p pages rest))) all)

-- A thread among others, and another state of it in its place.
pub record Focus (next : ℕ → ℕ) (before : List Local) (l : Local) (after : List Local)
    (held : List ℕ) : Type 0 where
  pub own : List ℕ
  pub rest : List ℕ
  pub holds : Holds next l own
  pub split : (a : ℕ) → count a held ≡ count a own + count a rest
  pub replace :
      (next' : ℕ → ℕ) (l' : Local) (own' : List ℕ)
      → ((p : ℕ) → 0 < count p rest → next' p ≡ next p)
      → Holds next' l' own'
      → (held' : List ℕ) × AllHold next' (before ++ l' ∷ after) held'
        × ((a : ℕ) → count a held' ≡ count a own' + count a rest)

pub focus :
    (next : ℕ → ℕ) (before : List Local) (l : Local) (after : List Local) {held : List ℕ}
    → AllHold next (before ++ l ∷ after) held
    → Focus next before l after held
focus next [] l after (thread {pages = pages} {rest = rest} h all) = record {
  own = pages;
  rest = rest;
  holds = h;
  split = λ a. count-append a pages rest;
  replace = λ next' l' own' same h'.
      (own' ++ rest, thread h' (AllHold-agree next next' same all), λ a. count-append a own' rest);
}
focus next (b ∷ before) l after (thread {pages = pages} {rest = others} h all) =
    let f = focus next before l after all in
    record {
      own = f.own;
      rest = pages ++ f.rest;
      holds = f.holds;
      split =
          λ a. omega (arith, count-append a pages others, count-append a pages f.rest, f.split a);
      replace = λ next' l' own' same h'.
          let (held', all', split') =
            f.replace next' l' own'
              (λ p lt. same p (omega (arith, lt, count-append p pages f.rest))) h' in
          (
            pages ++ held',
            thread
                (Holds-agree next next'
                  (λ p lt. same p (omega (arith, lt, count-append p pages f.rest))) h)
                all',
            λ a. omega (arith, count-append a pages held', count-append a pages f.rest, split' a),
          );
    }
