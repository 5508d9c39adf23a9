-- ===== src/Sandbox/Abort.antt =====
-- `_abort` and `probe` of src/fronta/sandbox.py.
use fronta.Prelude.{
  ℕ, ◌≡◌, Bool, true, false, ◌&&◌, Option, none, some, List, [], ◌∷◌, ◌++◌, arith, if◌then◌else◌,
  exists, ◌==◌,
}
use fronta.Errors.{Result, ok, err, sandbox_error}
use fronta.Codec.Text.{Text, codes}
use fronta.Sandbox.Identity.{same_text}
use fronta.Sandbox.Pidfd.{Pidfd}
use fronta.Sandbox.Output.{ProcessResult, Code, exited, signalled}
use fronta.Sandbox.Scavenger.{Process, contains, kill_marked, signal_marked}

-- What an abort sends SIGKILL to: the outer process by its handle and by its own object, and the marked processes.
pub data Kill : Type 0 where
  by_handle by_object : Kill
  marked : ℕ → Kill

abbrev handle_kill : Option Pidfd → List Kill
handle_kill none = []
handle_kill (some p) = by_handle ∷ []

abbrev marked_kills : List ℕ → List Kill
marked_kills [] = []
marked_kills (i ∷ is) = marked i ∷ marked_kills is

-- The signals of `_abort`; `ended` says that the outer process has a return code.
unfoldable pub abort : Option Pidfd → Bool → Text → List Process → List Kill
abort outer ended marker ps =
    handle_kill outer
    ++ ((if ended then [] else by_object ∷ []) ++ marked_kills (signal_marked marker [] ps))

abbrev pub is_marked : ℕ → Kill → Bool
is_marked pid (marked i) = i == pid
is_marked pid _ = false

-- A process that carries the sandbox's marker and takes the signal.
abbrev pub is_target : Text → ℕ → Process → Bool
is_target marker pid p = p.pid == pid && contains marker p.environ && kill_marked marker p

marked_target :
    (marker : Text) (pid : ℕ) (ps : List Process)
    → exists (is_target marker pid) ps ≡ true
    → exists (is_marked pid) (marked_kills (signal_marked marker [] ps)) ≡ true
unfolding signal_marked
marked_target marker pid [] h = h
marked_target marker pid (p ∷ ps) h = ground (arith, marked_target marker pid ps, h)

exists_append :
    (q : Kill → Bool) (xs ys : List Kill) → exists q ys ≡ true → exists q (xs ++ ys) ≡ true
exists_append q [] ys h = h
exists_append q (x ∷ xs) ys h = ground (arith, exists_append q xs ys h)

-- An abort kills every marked process that takes the signal, whether or not the outer process has a handle or has
-- ended already.
pub abort-marked :
    (outer : Option Pidfd) (ended : Bool) (marker : Text) (pid : ℕ) (ps : List Process)
    → exists (is_target marker pid) ps ≡ true
    → exists (is_marked pid) (abort outer ended marker ps) ≡ true
unfolding abort
abort-marked outer ended marker pid ps h = exists_append (is_marked pid) (handle_kill outer) _ (
    exists_append (is_marked pid) (if ended then [] else by_object ∷ []) _
      (marked_target marker pid ps h))

-- How the run of a probe ends: with a result, or as a `SandboxError` or a timeout.
pub data ProbeRun : Type 0 where
  finishes : ProcessResult → ProbeRun
  fails : ProbeRun

abbrev is_zero : Code → Bool
is_zero (exited n) = n == 0
is_zero (signalled n) = false

abbrev probe_output : Text
probe_output = codes "FRONTA_SANDBOX_OK" ++ 10 ∷ []

-- `probe`
unfoldable pub probe : ProbeRun → Result (Unit {0})
probe fails = err sandbox_error
probe (finishes r) =
    if is_zero r.exit_code && same_text r.stdout probe_output then ok tt else err sandbox_error
