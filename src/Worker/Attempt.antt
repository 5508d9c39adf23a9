-- ===== src/Worker/Attempt.antt =====
-- `Attempt` of src/fronta/worker.py: the controller of one claimed task. What its awaits observe is an
-- argument; what it does to the execution and to the database is a list of actions.
pub mod Settlement
pub mod Reports
use fronta.Prelude.{
  ℕ, Bool, true, false, not, Option, none, some, String, List, [], ◌∷◌, ◌++◌, ◌-◌, leb,
  if◌then◌else◌, is_none,
}
use fronta.Model.{CompletionKind, succeed, fail, fail_final, release, cancel}

pub data Cause : Type 0 where
  timeout cancelling shutdown lost : Cause

pub record Attempt : Type 0 where
  pub id : ℕ
  pub token : ℕ
  pub is_process : Bool
  pub cause : Option Cause
  pub stop_event : Bool
  pub cancelled : Bool
  pub settled : Bool
  pub renewed_at : ℕ
  pub renew_requested : Bool
  pub fatal : Bool

abbrev pub is_cancelling : Cause → Bool
is_cancelling cancelling = true
is_cancelling _ = false

abbrev pub is_lost : Option Cause → Bool
is_lost (some lost) = true
is_lost _ = false

-- The first cause wins.
unfoldable pub stop_first : Option Cause → Cause → Attempt → Attempt
stop_first none cause a = record a {
  cause = some cause;
  cancelled = if is_cancelling cause then true else a.cancelled;
  stop_event = true;
}
stop_first (some _) cause a = a

unfoldable pub stop : Attempt → Cause → Attempt
unfolding stop_first
stop a cause = stop_first a.cause cause a

unfoldable pub stops : Attempt → List Cause → Attempt
unfolding stop
stops a [] = a
stops a (c ∷ cs) = stops (stop a c) cs

-- An exception that ends a runner; one of `_FINAL_ERRORS`, `ProcessFailed`, or any other.
pub data Exception : Type 0 where
  final_error process_failed other_error : ℕ → Exception

-- How a runner has ended.
pub data Ended : Type 0 where
  returned : String → Ended
  raised : Exception → Ended
  self_cancelled : Ended

pub data Action : Type 0 where
  asks_stop cancels_runner : Action
  kills : Bool → Action
  completes : CompletionKind → Option String → Action

-- The texts that the codec makes of an error, of a self-cancellation and of a timeout.
pub record Texts : Type 0 where
  pub error_json : Exception → String
  pub cancelled_json : String
  pub timeout_json : String

completion_of : Texts → Ended → Action
completion_of x (returned result) = completes succeed (some result)
completion_of x (raised (final_error e)) =
    completes fail_final (some (x.error_json (final_error e)))
completion_of x (raised (process_failed e)) =
    completes fail (some (x.error_json (process_failed e)))
completion_of x (raised (other_error e)) = completes fail (some (x.error_json (other_error e)))
completion_of x self_cancelled = completes fail (some x.cancelled_json)

-- `_finish_completed`
finish_completed : Texts → Option Cause → Ended → List Action
finish_completed x cause ended = if is_lost cause then [] else completion_of x ended ∷ []

-- `_finish_stopped`
finish_stopped : Texts → Option Cause → List Action
finish_stopped x (some timeout) = completes fail (some x.timeout_json) ∷ []
finish_stopped x (some cancelling) = completes cancel none ∷ []
finish_stopped x (some shutdown) = completes release none ∷ []
finish_stopped x _ = []

-- What the awaits of `_run_execution` observe: the runner at the end of each wait, if it is done, the
-- `stop()` calls that arrived by then, and the answers of the kills.
pub record Observed : Type 0 where
  pub raced : Option Ended
  pub race_stops : List Cause
  pub behind_grace : Option Ended
  pub killed : Bool
  pub behind_kill : Option Ended
  pub behind_cancel : Option Ended
  pub late_stops : List Cause
  pub checks : List Bool
  pub last_kill : Bool
  pub behind_end : Option Ended

-- The controller between two waits: the attempt, the runner and what was done so far.
pub record Control : Type 0 where
  pub attempt : Attempt
  pub runner : Option Ended
  pub done : List Action

abbrev or_timeout : Attempt → Attempt
or_timeout a = elim a.cause [ none ↦ record a { cause = some timeout } | some _ ↦ a ]

-- `if stopped:` the graceful stop, and the wait for the grace period.
unfoldable pub graceful : Observed → Control → Control
graceful o c = elim c.runner [
  | some _ ↦ c
  | none ↦ record {
    attempt = or_timeout c.attempt;
    runner = o.behind_grace;
    done = c.done ++ asks_stop ∷ [];
  }
]

-- The runner outlived the kill: an asyncio handler is fatal, a process runner is cancelled.
outlived : Observed → Control → Control
outlived o c =
    if c.attempt.is_process
    then record c { runner = o.behind_cancel; done = c.done ++ cancels_runner ∷ [] }
    else record c { attempt = record (c.attempt) { fatal = true } }

-- `if not runner.done():` the kill.
unfoldable pub forceful : Observed → Control → Control
unfolding outlived
forceful o c = elim c.runner [
  | some _ ↦ c
  | none ↦
      let killed = record c { runner = o.behind_kill; done = c.done ++ kills o.killed ∷ [] } in
      elim o.behind_kill [ some _ ↦ killed | none ↦ outlived o killed ]
]

-- `while not await self._kill_execution()`. `none`: the answers seen end before a true one, and the
-- controller still waits.
unfoldable pub verify : List Bool → List Action → Option (List Action)
verify [] done = none
verify (true ∷ rest) done = some (done ++ kills true ∷ [])
verify (false ∷ rest) done = verify rest (done ++ kills false ∷ [])

unfoldable pub verified_by : Observed → Control → Option (List Action) → Option Control
verified_by o c none = none
verified_by o c (some done) =
    some (record c { attempt = stops c.attempt o.late_stops; done = done })

unfoldable pub verified : Observed → Control → Option Control
unfolding verify verified_by
verified o c = if c.attempt.is_process then verified_by o c (verify o.checks c.done) else some c

-- `_end_runner`, in the `finally`.
unfoldable pub end_runner : Observed → Control → Control
end_runner o c =
    if c.attempt.is_process
    then record c { done = c.done ++ kills o.last_kill ∷ cancels_runner ∷ [] }
    else elim c.runner [
      | some _ ↦ c
      | none ↦ if c.attempt.fatal then c else record c {
        attempt = record (c.attempt) { fatal = is_none o.behind_end };
        runner = o.behind_end;
        done = c.done ++ cancels_runner ∷ [];
      }
    ]

-- The settlement: whether the attempt was stopped is decided by the first wait alone.
unfoldable pub settlement : Texts → Option Ended → Control → Control
unfolding finish_stopped finish_completed completion_of
settlement x (some ended) c = record c { done = c.done ++ finish_completed x c.attempt.cause ended }
settlement x none c = record c { done = c.done ++ finish_stopped x c.attempt.cause }

-- The settlement, and the `finally` behind it.
unfoldable pub closing : Texts → Observed → Option Control → Option Control
unfolding settlement end_runner
closing x o none = none
closing x o (some c) = some (end_runner o (settlement x o.raced c))

-- `_run_execution`
unfoldable pub run_execution : Texts → Observed → Attempt → Option Control
unfolding stops graceful forceful verified closing
run_execution x o a =
    let start : Control = record { attempt = stops a o.race_stops; runner = o.raced; done = [] } in
    closing x o (verified o (forceful o (graceful o start)))

-- `_fresh_lease`: whether to run, and the release of a row that the database could not confirm.
-- `confirmed` is the answer of the renewal, and `a` the attempt behind it.
unfoldable pub fresh_lease : ℕ → ℕ → Bool → Attempt → Bool × List Action
fresh_lease delayed heartbeat confirmed a =
    if leb delayed heartbeat
    then (true, [])
    else if is_lost a.cause
    then (false, [])
    else if confirmed
    then (true, [])
    else (false, completes release none ∷ [])

abbrev pub settle : Control → Control
settle c = record c { attempt = record (c.attempt) { settled = true } }

-- `Attempt.run`; `a` is the attempt behind a renewal, if there was one.
unfoldable pub run : Texts → ℕ → ℕ → Bool → Observed → Attempt → Option Control
unfolding fresh_lease run_execution
run x delayed heartbeat confirmed o a =
    let (fresh, done) = fresh_lease delayed heartbeat confirmed a in
    if fresh
    then elim (run_execution x o a) [ none ↦ none | some c ↦ some (settle c) ]
    else some (settle (record { attempt = a; runner = none; done = done }))
