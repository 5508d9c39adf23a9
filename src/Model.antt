-- ===== src/Model.antt =====
-- src/fronta/model.py: the value objects. Durations are whole microseconds, a backoff factor is in
-- hundredths, and a UUID is a number.
pub mod Backoff
pub mod Json
use fronta.Prelude.{ℕ, String, Option, Bool, true, false}

pub data State : Type 0 where
  queued running succeeded failed cancelled : State

pub data Executor : Type 0 where
  asyncio process : Executor

pub data CompletionKind : Type 0 where
  succeed fail fail_final release cancel : CompletionKind

-- A fenced attempt outcome.
pub record Completion : Type 0 where
  pub id : ℕ
  pub token : ℕ
  pub kind : CompletionKind
  pub body : Option String

pub record TaskEvent : Type 0 where
  pub seq : ℕ
  pub id : ℕ
  pub type : String
  pub state : State
  pub attempt : ℕ

pub State-discrete : Discrete State
State-discrete = hlevel

-- `a == b` on states.
abbrev pub same_state : State → State → Bool
same_state queued queued = true
same_state running running = true
same_state succeeded succeeded = true
same_state failed failed = true
same_state cancelled cancelled = true
same_state _ _ = false
