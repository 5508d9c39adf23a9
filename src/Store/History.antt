-- ===== src/Store/History.antt =====
-- Histories: the statements that clients, workers and the reaper commit, in any order and with any
-- arguments. A statement that raises leaves the tables as they are.
pub mod Invariant
pub mod Cases
pub mod Fence
pub mod Results
use fronta.Prelude.{ℕ, ◌≤◌, Bool, String, List, [], ◌∷◌}
use fronta.Errors.{Result, ok, err}
use fronta.Model.{Completion}
use fronta.Store.Tables.{Db}
use fronta.Store.Enqueue.{Params, insert}
use fronta.Store.Attempts.{Chosen, admit_chosen, heartbeat, set_progress, complete, release_orphans}
use fronta.Store.Control.{request_cancel, reap, requeue, set_paused, purge_tasks}

pub data Statement : Type 0 where
  inserts : ℕ → Params → Statement
  claims : ℕ → ℕ → ℕ → String → Chosen → Statement
  heartbeats : ℕ → ℕ → List (ℕ × ℕ) → Statement
  progresses : ℕ → ℕ → String → Statement
  completes : ℕ → (ℕ → ℕ) → List Completion → Statement
  releases : ℕ → (ℕ → ℕ) → String → List ℕ → Statement
  cancels : ℕ → ℕ → Statement
  reaps : ℕ → (ℕ → ℕ) → ℕ → Statement
  requeues : ℕ → ℕ → Statement
  pauses : String → Bool → Statement
  purges : ℕ → ℕ → Statement

abbrev committed {ℓ} : {A : Type ℓ} → (A → Db) → Db → Result A → Db
committed f db (ok a) = f a
committed f db (err e) = db

unfoldable pub step : Statement → Db → Db
step (inserts now p) db = (insert now p db).0
step (claims now clock lease worker chosen) db = (admit_chosen now clock lease worker chosen db).0
step (heartbeats clock lease renewals) db =
    committed (λ r. r.0) db (heartbeat clock lease renewals db)
step (progresses id token text) db = (set_progress id token text db).0
step (completes now draw cs) db = committed (λ r. r.0) db (complete now draw cs db)
step (releases now draw worker live) db = (release_orphans now draw worker live db).0
step (cancels now id) db = (request_cancel now id db).0
step (reaps now draw limit) db = (reap now draw limit db).0
step (requeues now id) db = committed (λ r. r.0) db (requeue now id db)
step (pauses name paused) db = committed (λ r. r) db (set_paused name paused db)
step (purges before batch) db = (purge_tasks before batch db).0

unfoldable pub run : List Statement → Db → Db
run [] db = db
run (s ∷ ss) db = run ss (step s db)

-- The check constraint on `max_attempts`, which `Policy` enforces too.
abbrev pub IsLegal : Statement → Type 0
IsLegal (inserts now p) = 1 ≤ p.task.max_attempts
IsLegal _ = Unit
