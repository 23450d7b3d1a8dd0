-- ===== src/Regions/Pages.antt =====
-- detail/system_page_manager.h: threads that allocate pages of one region, by steps that access `m_curr`
-- once.
use density.Base.{ℕ, List, ◌∷◌, ◌++◌, Bool, not, ◌&&◌, ◌==◌, ltb, leb, if◌then◌else◌}
use density.Align.{add_word, sub_word}

-- A region: where the next page is, where the pages end and where the memory starts.
pub record Region : Type 0 where
  pub m_curr : ℕ
  pub m_end : ℕ
  pub m_start : ℕ

-- `notset` is the answer of a call that goes on.
pub data AllocateResult : Type 0 where
  success : (address : ℕ) → AllocateResult
  retry nomem notset : AllocateResult

-- Where a thread is in `allocate_page_from_region`: outside, behind a `fetch_add` beyond the end, or
-- behind the load of the wait-free function.
pub data Attempt : Type 0 where
  ready overflowing : Attempt
  loaded : (curr_address : ℕ) → Attempt

-- The next attempt, the result and the region after a step.
pub record Reply : Type 0 where
  pub attempt : Attempt
  pub result : AllocateResult
  pub region : Region

abbrev pub reply : Attempt → AllocateResult → Region → Reply
reply a r g = record { attempt = a; result = r; region = g }

-- `page` is PAGE_CAPACITY_AND_ALIGNMENT.
module _ (page : ℕ) where
  -- The lock-free function: the `fetch_add`, and the `fetch_sub` where the page is not in the region.
  unfoldable pub lockfree_add : Region → Reply
  lockfree_add g =
      let t = record g { m_curr = add_word g.m_curr page } in
      if leb g.m_start g.m_curr && ltb g.m_curr g.m_end
      then reply ready (success g.m_curr) t
      else reply overflowing notset t

  unfoldable pub lockfree_sub : Region → Reply
  lockfree_sub g = reply ready nomem (record g { m_curr = sub_word g.m_curr page })

  -- The wait-free function: the load, and the weak compare-exchange, which may fail spuriously.
  unfoldable pub waitfree_load : Region → Reply
  waitfree_load g =
      if leb g.m_end g.m_curr then reply ready nomem g else reply (loaded g.m_curr) notset g

  unfoldable pub waitfree_exchange : (spurious : Bool) (curr_address : ℕ) → Region → Reply
  waitfree_exchange spurious curr_address g =
      let new_address = add_word curr_address page in
      if (g.m_curr == curr_address) && not spurious
      then reply ready (success curr_address) (record g { m_curr = new_address })
      else reply ready retry g

  pub data Runs (g : Region) : Attempt → Reply → Type 0 where
    adds : Runs g ready (lockfree_add g)
    subs : Runs g overflowing (lockfree_sub g)
    loads : Runs g ready (waitfree_load g)
    exchanges :
        {curr_address : ℕ} (spurious : Bool)
        → Runs g (loaded curr_address) (waitfree_exchange spurious curr_address g)

-- The pages that have been handed out, the last one first.
abbrev pub record_result : AllocateResult → List ℕ → List ℕ
record_result (success address) handed = address ∷ handed
record_result retry handed = handed
record_result nomem handed = handed
record_result notset handed = handed

pub record System : Type 0 where
  pub region : Region
  pub threads : List Attempt
  pub handed : List ℕ

pub data Step (page : ℕ) : System → System → Type 0 where
  step :
      (before after : List Attempt) {a : Attempt} {g : Region} {r : Reply} {handed : List ℕ}
      → Runs page g a r
      → Step page
          (record { region = g; threads = before ++ a ∷ after; handed = handed })
          (record {
            region = r.region;
            threads = before ++ r.attempt ∷ after;
            handed = record_result r.result handed;
          })

pub data Steps (page : ℕ) : System → System → Type 0 where
  done : {w : System} → Steps page w w
  more : {w v u : System} → Step page w v → Steps page v u → Steps page w u
