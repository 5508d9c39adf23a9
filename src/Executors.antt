-- ===== src/Executors.antt =====
-- src/fronta/executors.py: results and inputs of an attempt, and the process execution around a sandbox. The models of
-- pydantic are parameters.
use fronta.Prelude.{
  ℕ, ◌+◌, ◌≤◌, ◌≡◌, refl, sym, ap, ◌∙◌, Bool, true, false, Option, none, some, if◌then◌else◌,
  if_true, is_some, ◌==◌, ◌∷◌, [],
}
use fronta.Errors.{
  Error, Result, ok, err, input_validation_error, result_serialization_error, ok-injective,
}
use fronta.Codec.Text.{Text, codes, utf8_len}
use fronta.Codec.Check.{
  Value, Encoded, encoded, not_storable, not_json, over_cap, encode_capped, encode_capped-nesting,
}
use fronta.Codec.Truncate.{Data, text, other, truncate}
use fronta.Sandbox.Output.{ProcessResult, Code, exited, signalled}
use fronta.Sandbox.Process.{Proc, Answer, kill}

-- `validate_input`; `load` is `load_input` of the input model.
unfoldable pub validate_input : {Model : Type 0} → (Text → Option Model) → Text → Result Model
validate_input load input = elim (load input) [ none ↦ err input_validation_error | some m ↦ ok m ]

-- An output model: its validation and dump of a value, and the schema of what it dumps.
pub record OutputModel : Type 0 where
  pub validate : Value → Option Value
  pub conforms : Value → Bool

abbrev pub validated : Option OutputModel → Value → Option Value
validated none v = some v
validated (some m) v = m.validate v

abbrev pub conforming : Option OutputModel → Value → Bool
conforming none v = true
conforming (some m) v = m.conforms v

abbrev pub checked_result : Bool → Encoded → Result Text
checked_result true (encoded t) = ok t
checked_result _ _ = err result_serialization_error

abbrev pub encode_value : (Value → Text) → Option OutputModel → ℕ → Option Value → Result Text
encode_value dumps model most none = err result_serialization_error
encode_value dumps model most (some v) =
    checked_result (conforming model v) (encode_capped dumps v most)

-- `encode_result`
unfoldable pub encode_result : (Value → Text) → Option OutputModel → ℕ → Value → Result Text
encode_result dumps model most v = encode_value dumps model most (validated model v)

checked_result-ok :
    (b : Bool) (e : Encoded) (t : Text) → checked_result b e ≡ ok t → (b ≡ true) × (e ≡ encoded t)
checked_result-ok true (encoded u) t h = (refl, ap encoded (ok-injective h))
checked_result-ok true not_storable t h = absurd (cc h)
checked_result-ok true not_json t h = absurd (cc h)
checked_result-ok true over_cap t h = absurd (cc h)
checked_result-ok false (encoded u) t h = absurd (cc h)
checked_result-ok false not_storable t h = absurd (cc h)
checked_result-ok false not_json t h = absurd (cc h)
checked_result-ok false over_cap t h = absurd (cc h)

-- A result that is accepted is the encoding of the value that the output model dumps, if there is one; that value has the
-- published schema, and its encoding is within the cap.
pub encode_result-conforming :
    (dumps : Value → Text) (model : Option OutputModel) (most : ℕ) (v w : Value) (t : Text)
    → validated model v ≡ some w
    → encode_result dumps model most v ≡ ok t
    → (t ≡ dumps w) × (utf8_len t ≤ most) × (conforming model w ≡ true)
unfolding encode_result
encode_result-conforming dumps model most v w t d h =
    let (c, e) =
      checked_result-ok (conforming model w) (encode_capped dumps w most) t
        (ap (encode_value dumps model most) (sym d) ∙ h) in
    let (same, fits, deep) = encode_capped-nesting dumps w most t e in (same, fits, c)

-- `ProcessExecution`: the sandbox process if it runs, `_stopped` and `_spawning`, and how often the processes of the
-- sandbox were asked to terminate.
pub record Execution : Type 0 where
  pub proc : Option Proc
  pub stopped : Bool
  pub spawning : Bool
  pub terminations : ℕ

abbrev pub created : Execution
created = record { proc = none; stopped = false; spawning = false; terminations = 0 }

-- `ProcessExecution.stop`
unfoldable pub stop_execution : Execution → Execution
stop_execution e = record e {
  stopped = true;
  terminations = if is_some e.proc then e.terminations + 1 else e.terminations;
}

-- `run` up to the spawn, and from its end, with the process unless it has failed, to the wait for the outputs.
unfoldable pub begin_spawn : Execution → Execution
begin_spawn e = record e { spawning = true }

unfoldable pub end_spawn : Option Proc → Execution → Execution
unfolding stop_execution
end_spawn none e = record e { spawning = false }
end_spawn (some p) e =
    let e' = record e { proc = some p; spawning = false } in
    if e.stopped then stop_execution e' else e'

-- How the wait for a spawn ends within the timeout of a kill: not at all, or with what the spawn leaves.
pub data SpawnWait : Type 0 where
  still_spawning : SpawnWait
  spawn_over : Option Proc → SpawnWait

abbrev killed_proc : Execution → Option (Proc × Bool) → Execution × Bool
killed_proc e none = (e, true)
killed_proc e (some done) = (record e { proc = some done.0 }, done.1)

abbrev kill_proc : Answer → Option Proc → Option (Proc × Bool)
kill_proc a none = none
kill_proc a (some p) = some (kill a p)

abbrev kill_now : Answer → Execution → Execution × Bool
kill_now a e = killed_proc e (kill_proc a e.proc)

abbrev after_wait : Answer → Execution → SpawnWait → Execution × Bool
after_wait a e still_spawning = (e, false)
after_wait a e (spawn_over o) = kill_now a (end_spawn o e)

-- `ProcessExecution.kill`
unfoldable pub kill_execution : SpawnWait → Answer → Execution → Execution × Bool
unfolding end_spawn
kill_execution w a e = if e.spawning then after_wait a e w else kill_now a e

-- A stop that arrives before or while the sandbox starts is not lost: once the spawn ends with a process, that
-- process is asked to terminate.
pub end_spawn-stopped :
    (p : Proc) (e : Execution)
    → e.stopped ≡ true
    → (end_spawn (some p) e).terminations ≡ e.terminations + 1
unfolding end_spawn stop_execution
end_spawn-stopped p e h = ap (λ (z : Execution). z.terminations) (if_true _ _ h)

-- How `run` ends: with an encoded result, as `ProcessFailed` with its error object, or by another exception.
pub data Finished : Type 0 where
  returns : Text → Finished
  process_failed : Option Data → Finished
  raises : Error → Finished

abbrev finished : Result Text → Finished
finished (ok t) = returns t
finished (err e) = raises e

-- The error object of a process that fails, with its exit code as a value and its outputs as texts.
unfoldable pub failure : Text → ℕ → ProcessResult → Data
failure message code r =
    ("type", text (codes "ProcessFailed"))
    ∷ ("message", text message)
    ∷ ("exit_code", other code)
    ∷ ("stdout", text r.stdout)
    ∷ ("stderr", text r.stderr)
    ∷ ("truncated", other (if r.truncated then 1 else 0))
    ∷ []

abbrev is_success : Code → Bool
is_success (exited n) = n == 0
is_success (signalled n) = false

-- The end of `ProcessExecution.run` behind the outputs. `value` is the result as a JSON value, `size` the length of an
-- encoding, and the truncation runs on fuel, `none` if it is not enough.
unfoldable pub finish_process :
    (Value → Text) → (Data → ℕ) → ℕ → ℕ → ℕ → Value → Text → ℕ → ProcessResult → Finished
unfolding failure
finish_process dumps size fuel result_cap error_cap value message code r =
    if is_success r.exit_code
    then finished (encode_result dumps none result_cap value)
    else process_failed (
        truncate size error_cap ("stdout" ∷ "stderr" ∷ []) (codes "ProcessFailed") fuel
          (failure message code r))

-- `AsyncioExecution.run` for what the handler returns.
unfoldable pub run_asyncio :
    {Model : Type 0}
    → (Text → Option Model)
    → (Value → Text)
    → Option OutputModel
    → ℕ
    → Text
    → (Model → Value)
    → Result Text
unfolding validate_input
run_asyncio load dumps output most input handler = elim (validate_input load input) [
  | err e ↦ err e
  | ok m ↦ encode_result dumps output most (handler m)
]
