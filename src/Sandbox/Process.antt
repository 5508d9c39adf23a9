-- ===== src/Sandbox/Process.antt =====
-- `SandboxProcess` of src/fronta/sandbox.py: `spawn`, the end of `run`, `kill` and `_close_fds`, over what the
-- kernel answers.
pub mod Kills
use fronta.Prelude.{
  ℕ, ◌≡◌, refl, sym, ap, subst, ◌∙◌, Bool, true, false, not, ◌&&◌, ◌||◌, Option, none, some, List,
  [], ◌∷◌, ◌++◌, arith, Bool-cases, inl, inr, is_none, is_some, if◌then◌else◌, if_true, if_false,
  some-injective,
}
use fronta.Errors.{Result, ok, err, sandbox_error}
use fronta.Sandbox.Pidfd.{Pidfd, opened, wait_exit, meanwhile, close, Inner, closing}

-- What `Pidfd.open` meets: a descriptor, ESRCH, or another error.
pub data Opening : Type 0 where
  handle : ℕ → Opening
  no_process refused : Opening

-- `_open_marked`; `marked` is `_environ_has`.
unfoldable pub open_marked : Opening → Bool → Option Pidfd
open_marked no_process marked = none
open_marked refused marked = none
open_marked (handle n) marked = if marked then some (opened n) else none

pub record Proc : Type 0 where
  pub outer : Option Pidfd
  pub init : Option Pidfd
  pub dead : Bool

-- The `child-pid` status line: it arrives, it does not (end of file or the timeout), or the wait is cancelled or fails.
pub data Line : Type 0 where
  child : Opening → Bool → Line
  silent broken : Line

-- What `spawn` meets: whether bwrap starts, the opening of its handle, and the status line.
pub record Launch : Type 0 where
  pub starts : Bool
  pub outer : Opening
  pub outer_marked : Bool
  pub line : Line

-- What is done about the descriptors and the process; `aborts` is `_abort`.
pub data Act : Type 0 where
  closes_read closes_write aborts closes_outer : Act

abbrev close_outer : Option Pidfd → List Act
close_outer none = []
close_outer (some p) = closes_outer ∷ []

abbrev barrier : Option Pidfd → Line → Option Proc × List Act
barrier outer (child init marked) =
    (some (record { outer = outer; init = open_marked init marked; dead = false }), [])
barrier outer silent = (none, aborts ∷ close_outer outer)
barrier outer broken = (none, aborts ∷ close_outer outer)

-- `SandboxProcess.spawn`; `none` is a raised exception.
unfoldable pub spawn : Launch → Option Proc × List Act
unfolding open_marked
spawn l =
    let rest = barrier (open_marked l.outer l.outer_marked) l.line in
    if l.starts then (rest.0, closes_write ∷ rest.1) else (none, closes_read ∷ closes_write ∷ [])

abbrev closed : Option Pidfd → Option Pidfd
closed p = none

-- `_close_fds`: the init's handle stays until its death is verified.
unfoldable pub close_fds : Proc → Proc
close_fds p = record p { outer = none; init = if p.dead then none else p.init }

-- The end of `run` without an exception: the outer process has exited.
unfoldable pub run_ends : Proc → Proc
unfolding close_fds
run_ends p = close_fds (record p { dead = true })

-- What a kill meets: whether the init exits within the timeout, and whether `run` ends meanwhile.
pub record Answer : Type 0 where
  pub exits : Bool
  pub run_ended : Bool

abbrev pub meets : Answer → List Inner
meets a = if a.run_ended then closing ∷ [] else []

abbrev waited : Answer → Bool × Pidfd → Proc → Proc × Bool
waited a w p =
    let p' = if a.run_ended then run_ends p else record p { init = some w.1 } in
    let p'' = record p' { dead = w.0 } in (if w.0 then close_fds p'' else p'', w.0)

abbrev kill_init : Answer → Proc → Option Pidfd → Proc × Bool
kill_init a p none = (record p { dead = true }, true)
kill_init a p (some h) = let w = wait_exit (meets a) a.exits h in waited a (w.0, w.1) p

-- `SandboxProcess.kill`, without the signals that it sends.
unfoldable pub kill : Answer → Proc → Proc × Bool
unfolding wait_exit run_ends close_fds
kill a p = if p.dead then (p, true) else kill_init a p p.init

-- The handles that `kill` sends SIGKILL to, before it waits.
pub data Target : Type 0 where
  outer_process init_process : Target

abbrev target_of : Target → Option Pidfd → List Target
target_of t none = []
target_of t (some p) = t ∷ []

unfoldable pub kill_targets : Proc → List Target
kill_targets p =
    if p.dead then [] else target_of outer_process p.outer ++ target_of init_process p.init

-- A call on the process. `breaks` is a `run` that is cancelled or fails, with the kill that it then makes.
pub data Step : Type 0 where
  kills breaks : Answer → Step
  ends : Step

unfoldable pub step : Step → Proc → Proc × Option Bool
unfolding kill close_fds run_ends
step (kills a) p = let done = kill a p in (done.0, some done.1)
step (breaks a) p = let done = kill a p in (close_fds done.0, none)
step ends p = (run_ends p, none)

-- A call, and whether the sandbox's init has exited once the call is over.
pub record Moment : Type 0 where
  pub call : Step
  pub gone : Bool

abbrev answered_by : Option Bool → Bool → List (Bool × Bool)
answered_by none gone = []
answered_by (some verified) gone = (verified, gone) ∷ []

-- What the kills of a history answer, each with whether the init has exited by then.
unfoldable pub answers : List Moment → Proc → List (Bool × Bool)
unfolding step
answers [] p = []
answers (m ∷ ms) p = let done = step m.call p in answered_by done.1 m.gone ++ answers ms done.0

-- What a call sees of the init's exit through its handle, and whether `run` ends in it.
abbrev pub sees_exit : Step → Bool
sees_exit (kills a) = a.exits
sees_exit (breaks a) = a.exits
sees_exit ends = false

abbrev pub run_over : Step → Bool
run_over (kills a) = a.run_ended
run_over (breaks a) = a.run_ended
run_over ends = true

-- A kill signals the outer process as well, which may then exit before the init.
abbrev pub is_kill : Step → Bool
is_kill ends = false
is_kill _ = true

-- An exit that the kernel reports through the init's handle has happened, an outer process that nobody has killed
-- outlives the init, and an exited process stays so.
abbrev pub IsTruthful : Bool → Bool → List Moment → Type 0
IsTruthful killed before [] = Unit {0}
IsTruthful killed before (m ∷ ms) =
    (before ≡ true → m.gone ≡ true)
    × (sees_exit m.call ≡ true → m.gone ≡ true)
    × ((killed || is_kill m.call) ≡ false → run_over m.call ≡ true → m.gone ≡ true)
    × IsTruthful (killed || is_kill m.call) m.gone ms

-- The moments before one in which `run` ends behind a kill while the init has not exited.
abbrev pub until_stuck : Bool → List Moment → List Moment
until_stuck killed [] = []
until_stuck killed (m ∷ ms) =
    let later = until_stuck (killed || is_kill m.call) ms in
    if (killed || is_kill m.call) && run_over m.call && not m.gone then [] else m ∷ later
