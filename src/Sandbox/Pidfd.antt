-- ===== src/Sandbox/Pidfd.antt =====
-- `Pidfd` of src/fronta/sandbox.py: a process handle whose descriptor must not be closed while the
-- event loop watches it. What the calls ask of the kernel and of the loop is a trace.
pub mod Trace
use fronta.Prelude.{
  ℕ, ◌≡◌, refl, ◌∙◌, ap, sym, subst, Bool, true, false, ◌||◌, Option, none, some, List, [], ◌∷◌,
  ◌++◌, exists, is_some, arith, Bool-cases, inl, inr,
}

pub record Pidfd : Type 0 where
  pub fd : Option ℕ
  pub waiting : Bool
  pub close_requested : Bool

-- `add_reader`, `remove_reader`, `pidfd_send_signal` and `os.close`, each with the descriptor.
pub data Syscall : Type 0 where
  watches unwatches signals closes : ℕ → Syscall

abbrev pub opened : ℕ → Pidfd
opened n = record { fd = some n; waiting = false; close_requested = false }

abbrev close_fd : Option ℕ → Pidfd → Pidfd × List Syscall
close_fd none p = (p, [])
close_fd (some n) p = (record p { fd = none }, closes n ∷ [])

-- `Pidfd.close`
unfoldable pub close : Pidfd → Pidfd × List Syscall
close p = elim p.waiting [
  | true ↦ (record p { close_requested = true }, [])
  | false ↦ close_fd p.fd p
]

-- `Pidfd.send_signal`; `alive` is the kernel's answer.
unfoldable pub send_signal : Bool → Pidfd → Bool × List Syscall
send_signal alive p = elim p.fd [ none ↦ (false, []) | some n ↦ (alive, signals n ∷ []) ]

-- What the other coroutines do while `wait_exit` waits: closes and signals.
pub data Inner : Type 0 where
  closing : Inner
  signalling : Bool → Inner

unfoldable pub meanwhile : List Inner → Pidfd → Pidfd × List Syscall
unfolding close send_signal
meanwhile [] p = (p, [])
meanwhile (closing ∷ rest) p =
    let done = close p in let later = meanwhile rest done.0 in (later.0, done.1 ++ later.1)
meanwhile (signalling alive ∷ rest) p =
    let later = meanwhile rest p in (later.0, (send_signal alive p).1 ++ later.1)

abbrev finish_wait : Bool → ℕ → Pidfd → Pidfd × List Syscall
finish_wait true n p =
    let done = close (record p { waiting = false }) in (done.0, unwatches n ∷ done.1)
finish_wait false n p = (record p { waiting = false }, unwatches n ∷ [])

abbrev wait_fd : Option ℕ → List Inner → Bool → Pidfd → Bool × Pidfd × List Syscall
wait_fd none inner exited p = (true, p, [])
wait_fd (some n) inner exited p =
    let waited = meanwhile inner (record p { waiting = true }) in
    let done = finish_wait waited.0.close_requested n waited.0 in
    (exited, done.0, watches n ∷ (waited.1 ++ done.1))

-- `Pidfd.wait_exit`, with what happens while it waits, and whether the process exits in time.
unfoldable pub wait_exit : List Inner → Bool → Pidfd → Bool × Pidfd × List Syscall
unfolding close meanwhile
wait_exit inner exited p = wait_fd p.fd inner exited p

-- One call after the other; a wait with what happens meanwhile is one call.
pub data Call : Type 0 where
  now : Inner → Call
  exit_wait : List Inner → Bool → Call

unfoldable pub call : Call → Pidfd → Pidfd × List Syscall
unfolding meanwhile wait_exit
call (now c) p = meanwhile (c ∷ []) p
call (exit_wait inner exited) p = let done = wait_exit inner exited p in (done.1, done.2)

unfoldable pub calls : List Call → Pidfd → Pidfd × List Syscall
unfolding call
calls [] p = (p, [])
calls (c ∷ cs) p =
    let done = call c p in let later = calls cs done.0 in (later.0, done.1 ++ later.1)
