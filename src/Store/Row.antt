-- ===== src/Store/Row.antt =====
-- One row of `fronta.tasks`, and what each statement does to a row that it selects.
-- A token (`uuid`) is a number. `draw` is the statement's `random()` for the row, in thousandths.
pub mod Valid
use fronta.Prelude.{
  ℕ, ◌+◌, Bool, true, false, ◌&&◌, ◌||◌, not, Option, none, some, String, ltb, is_some, is_none,
  holds, if◌then◌else◌,
}
use fronta.Model.{
  State, queued, running, succeeded, failed, cancelled, CompletionKind, succeed, fail, fail_final,
  release, cancel, same_state,
}
use fronta.Model.Backoff.{Backoff}
use fronta.Model.Backoff

-- A `jsonb` value: text that a client encoded, or the object that the reaper builds.
pub data Jsonb : Type 0 where
  encoded : String → Jsonb
  lease_expired : Option String → ℕ → Jsonb

-- `TaskRow`. A priority is its offset from the least one, -2 ** 31.
pub record Task : Type 0 where
  pub id : ℕ
  pub type : String
  pub state : State
  pub priority : ℕ
  pub key : Option String
  pub concurrency_key : Option String
  pub input : String
  pub result : Option Jsonb
  pub error : Option Jsonb
  pub progress : Option Jsonb
  pub attempt : ℕ
  pub failures : ℕ
  pub max_attempts : ℕ
  pub attempt_timeout : ℕ
  pub backoff : Backoff
  pub token : Option ℕ
  pub lease_until : Option ℕ
  pub worker : Option String
  pub cancel_requested_at : Option ℕ
  pub created_at : ℕ
  pub run_at : ℕ
  pub started_at : Option ℕ
  pub finished_at : Option ℕ
  pub metadata : Option String

abbrev pub is_active : State → Bool
is_active queued = true
is_active running = true
is_active _ = false

-- Another failed attempt is allowed.
abbrev pub may_retry : Task → Bool
may_retry t = ltb (t.failures + 1) t.max_attempts

abbrev pub encoded_opt : Option String → Option Jsonb
encoded_opt none = none
encoded_opt (some text) = some (encoded text)

-- The `state`, `result`, `error`, `failures`, `run_at` and `finished_at` columns of complete.sql.
unfoldable pub settled_state : CompletionKind → Task → State
settled_state succeed t = succeeded
settled_state fail_final t = failed
settled_state cancel t = cancelled
settled_state release t = if is_none t.cancel_requested_at then queued else cancelled
settled_state fail t =
    if is_some t.cancel_requested_at then cancelled else if may_retry t then queued else failed

settled_result : CompletionKind → Option String → Task → Option Jsonb
settled_result succeed body t = encoded_opt body
settled_result _ body t = t.result

settled_error : CompletionKind → Option String → Task → Option Jsonb
settled_error fail body t = encoded_opt body
settled_error fail_final body t = encoded_opt body
settled_error _ body t = t.error

settled_failures : CompletionKind → Task → ℕ
settled_failures fail t = t.failures + 1
settled_failures fail_final t = t.failures + 1
settled_failures _ t = t.failures

settled_run_at : ℕ → ℕ → CompletionKind → Task → ℕ
settled_run_at now draw release t = now
settled_run_at now draw fail t =
    if is_none t.cancel_requested_at && may_retry t
    then now + Backoff.delay t.backoff t.failures draw
    else t.run_at
settled_run_at now draw _ t = t.run_at

settled_finished_at : ℕ → CompletionKind → Task → Option ℕ
settled_finished_at now succeed t = some now
settled_finished_at now fail_final t = some now
settled_finished_at now cancel t = some now
settled_finished_at now fail t =
    if is_some t.cancel_requested_at || not (may_retry t) then some now else none
settled_finished_at now release t = if is_some t.cancel_requested_at then some now else none

unfoldable pub settle : ℕ → ℕ → CompletionKind → Option String → Task → Task
unfolding settled_state settled_result settled_error settled_failures settled_run_at
    settled_finished_at
settle now draw kind body t = record t {
  state = settled_state kind t;
  result = settled_result kind body t;
  error = settled_error kind body t;
  failures = settled_failures kind t;
  run_at = settled_run_at now draw kind t;
  finished_at = settled_finished_at now kind t;
  token = none;
  lease_until = none;
}

-- `state = 'running' AND token = $token`, the fence of every worker write.
abbrev pub fenced : ℕ → Task → Bool
fenced token t = same_state t.state running && holds t.token token

abbrev pub is_cancel : CompletionKind → Bool
is_cancel cancel = true
is_cancel _ = false

-- The preconditions of complete.sql.
unfoldable pub settles : ℕ → CompletionKind → Task → Bool
settles token kind t = fenced token t && (not (is_cancel kind) || is_some t.cancel_requested_at)

-- The update of claim.sql.
unfoldable pub admit : ℕ → ℕ → ℕ → String → Task → Task
admit now until token worker t = record t {
  state = running;
  attempt = t.attempt + 1;
  token = some token;
  lease_until = some until;
  started_at = some now;
  worker = some worker;
  progress = none;
}

-- `_HEARTBEAT`
unfoldable pub renew : ℕ → Task → Task
renew until t = record t { lease_until = some until }

-- `_PROGRESS`
unfoldable pub store_progress : String → Task → Task
store_progress text t = record t { progress = some (encoded text) }

-- `_REQUEST_CANCEL`
unfoldable pub flag_cancel : ℕ → Task → Task
flag_cancel now t = record t {
  cancel_requested_at = if is_some t.cancel_requested_at then t.cancel_requested_at else some now;
  state = if same_state t.state queued then cancelled else t.state;
  finished_at = if same_state t.state queued then some now else t.finished_at;
}

-- The `expired` rows of `_REAP`, and their update.
unfoldable pub has_expired : ℕ → Task → Bool
has_expired now t =
    same_state t.state running && elim t.lease_until [ none ↦ false | some until ↦ ltb until now ]

unfoldable pub expire : ℕ → ℕ → Task → Task
expire now draw t = record t {
  token = none;
  lease_until = none;
  failures = if is_none t.cancel_requested_at then t.failures + 1 else t.failures;
  error =
      if is_none t.cancel_requested_at then some (lease_expired t.worker t.attempt) else t.error;
  state =
      if is_some t.cancel_requested_at then cancelled else if may_retry t then queued else failed;
  run_at =
      if is_none t.cancel_requested_at && may_retry t
      then now + Backoff.delay t.backoff t.failures draw
      else t.run_at;
  finished_at = if is_some t.cancel_requested_at || not (may_retry t) then some now else none;
}

-- `_REQUEUE`
unfoldable pub may_requeue : Task → Bool
may_requeue t = same_state t.state failed || same_state t.state cancelled

unfoldable pub reset : ℕ → Task → Task
reset now t = record t {
  state = queued;
  run_at = now;
  failures = 0;
  cancel_requested_at = none;
  finished_at = none;
  token = none;
  lease_until = none;
}
