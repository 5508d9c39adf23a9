-- ===== src/Worker/Attempt/Settlement.antt =====
-- What a controller that comes to its end has done.
use mathlib.Core.List.{append-nil}
use fronta.Prelude.{
  sym, ◌∙◌, some-injective, ◌≡◌, refl, Bool, true, false, ◌&&◌, Option, none, some, List, [], ◌∷◌,
  ◌++◌, arith, is_some, keep, Bool-cases, Option-cases, inl, inr,
}
use fronta.Model.{succeed, fail, fail_final, release, cancel}
use fronta.Worker.Attempt.{
  Cause, timeout, cancelling, shutdown, lost, Attempt, Ended, Action, asks_stop, cancels_runner,
  kills, completes, returned, raised, self_cancelled, final_error, Texts, Observed, Control, stop,
  stops, stop_first, completion_of, finish_completed, finish_stopped, graceful, forceful, verify,
  end_runner, settlement,
}

abbrev pub is_completion : Action → Bool
is_completion (completes kind body) = true
is_completion _ = false

-- The completions among the actions.
abbrev pub completions : List Action → List Action
completions = keep is_completion

-- Every completion stands behind a kill that verified the sandbox dead.
abbrev pub verified_first : Bool → List Action → Bool
verified_first dead [] = true
verified_first dead (completes kind body ∷ rest) = dead && verified_first dead rest
verified_first dead (kills true ∷ rest) = verified_first true rest
verified_first dead (kills false ∷ rest) = verified_first dead rest
verified_first dead (asks_stop ∷ rest) = verified_first dead rest
verified_first dead (cancels_runner ∷ rest) = verified_first dead rest

pub completions-append :
    (xs ys : List Action) → completions (xs ++ ys) ≡ completions xs ++ completions ys
completions-append [] ys = refl
completions-append (x ∷ xs) ys = ground (arith, completions-append xs ys)

-- A later `stop()` changes nothing.
pub stops_kept : (a : Attempt) (c : Cause) (cs : List Cause) → a.cause ≡ some c → stops a cs ≡ a
unfolding stops
stops_kept a c [] h = refl
stops_kept a c (d ∷ cs) h =
    let e : stop a d ≡ a = unfold stop in rw (h, stop_first) in rw e (stops_kept a c cs h)

pub verified_first-dead : (ys : List Action) → verified_first true ys ≡ true
verified_first-dead [] = refl
verified_first-dead (completes k b ∷ ys) = verified_first-dead ys
verified_first-dead (kills true ∷ ys) = verified_first-dead ys
verified_first-dead (kills false ∷ ys) = verified_first-dead ys
verified_first-dead (asks_stop ∷ ys) = verified_first-dead ys
verified_first-dead (cancels_runner ∷ ys) = verified_first-dead ys

pub verified_first-kill :
    (zs ys : List Action)
    → completions zs ≡ []
    → verified_first false (zs ++ kills true ∷ ys) ≡ true
verified_first-kill [] ys h = verified_first-dead ys
verified_first-kill (completes k b ∷ zs) ys h = absurd (cc h)
verified_first-kill (kills true ∷ zs) ys h = verified_first-dead (zs ++ kills true ∷ ys)
verified_first-kill (kills false ∷ zs) ys h = verified_first-kill zs ys h
verified_first-kill (asks_stop ∷ zs) ys h = verified_first-kill zs ys h
verified_first-kill (cancels_runner ∷ zs) ys h = verified_first-kill zs ys h

-- The verification ends with a kill that answered true, and completes nothing.
pub verify-splits :
    (checks : List Bool) (done d : List Action)
    → verify checks done ≡ some d
    → (pre : List Action) × (completions pre ≡ completions done) × (d ≡ pre ++ kills true ∷ [])
unfolding verify
verify-splits [] done d h = absurd (cc h)
verify-splits (true ∷ checks) done d h = (done, refl, sym (some-injective h))
verify-splits (false ∷ checks) done d h =
    let (pre, same, split) = verify-splits checks (done ++ kills false ∷ []) d h in
    (pre, same ∙ completions-append done (kills false ∷ []) ∙ append-nil (completions done), split)

abbrev pub start : Observed → Attempt → Control
start o a = record { attempt = stops a o.race_stops; runner = o.raced; done = [] }

abbrev pub before_checks : Observed → Attempt → Control
before_checks o a = forceful o (graceful o (start o a))

is_process-stops : (a : Attempt) (cs : List Cause) → (stops a cs).is_process ≡ a.is_process
unfolding stops stop stop_first
is_process-stops a [] = refl
is_process-stops a (c ∷ cs) = is_process-stops (stop a c) cs ∙ ground arith

module _ (o : Observed) (a : Attempt) where
  pub nothing_completed : completions (before_checks o a).done ≡ []
  unfolding forceful graceful
  nothing_completed = ground arith

  pub process_kept : (before_checks o a).attempt.is_process ≡ a.is_process
  unfolding forceful graceful
  process_kept = ground (arith, is_process-stops a o.race_stops)

  fatal_asyncio :
      a.fatal ≡ false
      → a.is_process ≡ true
      → (before_checks o a).attempt.fatal ≡ (stops a o.race_stops).fatal
  unfolding forceful graceful
  fatal_asyncio f p = ground (arith, is_process-stops a o.race_stops)

  pub cause_kept :
      (k : Cause)
      → (stops a o.race_stops).cause ≡ some k
      → (before_checks o a).attempt.cause ≡ some k
  unfolding forceful graceful
  cause_kept k h = ground arith

  pub cause_known : o.raced ≡ none → is_some (before_checks o a).attempt.cause ≡ true
  unfolding forceful graceful
  cause_known h = ground arith

-- What the attempt reports, by its cause and by the runner's end where it raced the stop.
abbrev pub report : Texts → Option Cause → Option Ended → List Action
report x (some lost) raced = []
report x cause (some (returned result)) = completes succeed (some result) ∷ []
report x cause (some (raised (final_error e))) =
    completes fail_final (some (x.error_json (final_error e))) ∷ []
report x cause (some (raised e)) = completes fail (some (x.error_json e)) ∷ []
report x cause (some self_cancelled) = completes fail (some x.cancelled_json) ∷ []
report x (some timeout) none = completes fail (some x.timeout_json) ∷ []
report x (some cancelling) none = completes cancel none ∷ []
report x (some shutdown) none = completes release none ∷ []
report x none none = []

pub finished : (x : Texts) (raced : Option Ended) (cause : Option Cause) → List Action
finished x (some ended) cause = finish_completed x cause ended
finished x none cause = finish_stopped x cause

finished-report :
    (x : Texts) (raced : Option Ended) (cause : Option Cause)
    → completions (finished x raced cause) ≡ report x cause raced
unfolding finished finish_completed finish_stopped completion_of
finished-report x raced cause = ground arith

pub settlement-report :
    (x : Texts) (raced : Option Ended) (c : Control)
    → completions c.done ≡ []
    → completions (settlement x raced c).done ≡ report x c.attempt.cause raced
unfolding settlement finished
settlement-report x none c h =
    completions-append c.done (finished x none c.attempt.cause)
    ∙ rw h (finished-report x none c.attempt.cause)
settlement-report x (some e) c h =
    completions-append c.done (finished x (some e) c.attempt.cause)
    ∙ rw h (finished-report x (some e) c.attempt.cause)

pub settlement-attempt :
    (x : Texts) (raced : Option Ended) (c : Control) → (settlement x raced c).attempt ≡ c.attempt
unfolding settlement
settlement-attempt x none c = refl
settlement-attempt x (some e) c = refl

pub settlement-done :
    (x : Texts) (raced : Option Ended) (c : Control)
    → (settlement x raced c).done ≡ c.done ++ finished x raced c.attempt.cause
unfolding settlement finished
settlement-done x none c = refl
settlement-done x (some e) c = refl

-- What `_end_runner` adds: no completion.
abbrev pub Adds : List Action → List Action → Type 0
Adds done d = (rest : List Action) × (d ≡ done ++ rest) × (completions rest ≡ [])

pub end_runner-Adds : (o : Observed) (c : Control) → Adds c.done (end_runner o c).done
unfolding end_runner
end_runner-Adds o c = elim (Bool-cases c.attempt.is_process) [
  | inl p ↦ rw p (kills o.last_kill ∷ cancels_runner ∷ [], refl, refl)
  | inr p ↦ elim (Option-cases c.runner) [
    | inr (e, r) ↦ rw (p, r) ([], sym (append-nil c.done), refl)
    | inl r ↦ elim (Bool-cases c.attempt.fatal) [
      | inl f ↦ rw (p, r, f) ([], sym (append-nil c.done), refl)
      | inr f ↦ rw (p, r, f) (cancels_runner ∷ [], refl, refl)
    ]
  ]
]

pub end_runner-cause :
    (o : Observed) (c : Control) → (end_runner o c).attempt.cause ≡ c.attempt.cause
unfolding end_runner
end_runner-cause o c = ground arith
