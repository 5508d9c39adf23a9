-- ===== src/Worker/Claims.antt =====
-- `_claim_loop`, `_claim_batch_and_dispatch`, `_release_unstarted` and `_release_orphans` of
-- src/fronta/worker.py. Times are in microseconds.
pub mod Bounds
use fronta.Prelude.{
  ℕ, ◌+◌, ◌*◌, ◌-◌, ◌/◌, ◌≤◌, ◌≡◌, refl, min, Bool, true, false, not, ◌&&◌, Option, none, some,
  List, [], ◌∷◌, ◌++◌, map, filter_map, exists, every, keep, length, length-keep-le, Bool-cases,
  inl, inr, ltb, leb, ◌==◌, if◌then◌else◌, arith,
}
use fronta.Model.{release, Completion}
use fronta.Store.Row.{Task}
use fronta.Worker.Lifecycle.{add_attempt}

-- How `store.claim` ends.
pub data Claim : Type 0 where
  rows : List Task → Claim
  connection_lost : Claim
  refused : Claim

-- The loop's state: the keys of the dict `attempts`, the backoff of the poll, and what was asked of the database.
pub data Asked : Type 0 where
  claims : ℕ → Asked
  releases : List Completion → Asked
  releases_orphans : List ℕ → Asked

pub record Loop : Type 0 where
  pub attempts : List ℕ
  pub delay : ℕ
  pub asked : List Asked

-- `_start_attempt` for each row: a row whose id has an entry replaces it, also where that entry's controller has not
-- ended.
abbrev pub start_attempts : List Task → List ℕ → List ℕ
start_attempts [] ids = ids
start_attempts (t ∷ ts) ids = start_attempts ts (add_attempt t.id ids)

-- `[Completion(r.id, r.token, "release") for r in rows if r.token is not None]`
abbrev pub released : Task → Option Completion
released t = elim t.token [
  | none ↦ none
  | some token ↦ some (record { id = t.id; token = token; kind = release; body = none })
]

abbrev pub release_unstarted : List Task → List Completion
release_unstarted = filter_map released

-- `_claim_batch_and_dispatch`; `stopping` is the state of the event behind the claim.
unfoldable pub claim_batch_and_dispatch : ℕ → Claim → Bool → Loop → Loop × Bool
claim_batch_and_dispatch free connection_lost stopping l =
    (record l { asked = l.asked ++ claims free ∷ releases_orphans l.attempts ∷ [] }, false)
claim_batch_and_dispatch free refused stopping l =
    (record l { asked = l.asked ++ claims free ∷ [] }, false)
claim_batch_and_dispatch free (rows ts) stopping l =
    if stopping
    then (record l { asked = l.asked ++ claims free ∷ releases (release_unstarted ts) ∷ [] }, false)
    else (
      record l { attempts = start_attempts ts l.attempts; asked = l.asked ++ claims free ∷ [] },
      ltb 0 (length ts),
    )

-- What an iteration of the loop meets: the attempts that are left as it starts, how the claim ends, the
-- state of `_stopping` behind it, whether the wait is woken, and the jitter in thousandths.
pub record Turn : Type 0 where
  pub left : ℕ → Bool
  pub claim : ℕ → Claim
  pub stopping : Bool
  pub woken : Bool
  pub jitter : ℕ

abbrev pub initial : ℕ → ℕ
initial ceiling = min 50000 ceiling

abbrev pub timeout : ℕ → ℕ → ℕ → ℕ
timeout ceiling delay jitter = min ceiling (delay * jitter / 1000)

-- The end of an iteration that has claimed nothing.
abbrev pub wait : ℕ → Turn → Loop → Loop
wait ceiling t l = record l {
  delay = if t.woken then initial ceiling else min ceiling (l.delay * 2);
}

abbrev pub after_claim : ℕ → Turn → Loop × Bool → Loop
after_claim ceiling t (l, true) = record l { delay = initial ceiling }
after_claim ceiling t (l, false) = if t.stopping then l else wait ceiling t l

-- The claim of an iteration, if a slot is free.
unfoldable pub claim_free : ℕ → Turn → Loop → Loop × Bool
unfolding claim_batch_and_dispatch
claim_free concurrency t l =
    let free = concurrency - length l.attempts in
    if ltb 0 free then claim_batch_and_dispatch free (t.claim free) t.stopping l else (l, false)

-- An iteration. `_attempt_done` has popped the ids of the attempts that ended.
unfoldable pub turn : ℕ → ℕ → Turn → Loop → Loop
unfolding claim_free
turn concurrency ceiling t l =
    after_claim ceiling t
      (claim_free concurrency t (record l { attempts = keep t.left l.attempts }))

unfoldable pub turns : ℕ → ℕ → List Turn → Loop → Loop
unfolding turn
turns concurrency ceiling [] l = l
turns concurrency ceiling (t ∷ ts) l = turns concurrency ceiling ts (turn concurrency ceiling t l)
