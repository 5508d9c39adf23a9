-- ===== src/Worker/Attempt/Reports.antt =====
-- What a controller reports, and when.
use mathlib.Core.List.{append-nil, append_assoc}
use fronta.Prelude.{
  sym, ap, if_true, if_false, ◌∙◌, some-injective, ◌≡◌, refl, true, false, Option, none, some, List,
  [], ◌∷◌, ◌++◌, is_some, Bool-cases, Option-cases, inl, inr,
}
use fronta.Worker.Attempt.{
  Cause, Attempt, Action, kills, Texts, Observed, Control, stops, verify, verified, verified_by,
  closing, end_runner, settlement, run_execution,
}
use fronta.Worker.Attempt.Settlement.{
  completions, verified_first, completions-append, stops_kept, verified_first-kill, verify-splits,
  before_checks, nothing_completed, process_kept, cause_known, cause_kept, report,
  settlement-report, settlement-attempt, end_runner-Adds, end_runner-cause, finished,
  settlement-done,
}

-- The completions before the verification are those behind it, and a process runner's verification ends
-- with a kill that answered true.
record IsVerified (c d : Control) : Type 0 where
  same : completions d.done ≡ completions c.done
  split :
      c.attempt.is_process ≡ true
      → (pre : List Action) × (completions pre ≡ completions c.done)
        × (d.done ≡ pre ++ kills true ∷ [])

verified_by-IsVerified :
    (o : Observed) (c d : Control) (r : Option (List Action))
    → verify o.checks c.done ≡ r
    → verified_by o c r ≡ some d
    → IsVerified c d
unfolding verified_by
verified_by-IsVerified o c d none e h = absurd (cc h)
verified_by-IsVerified o c d (some done) e h =
    let (pre, same, split) = verify-splits o.checks c.done done e in
    rw (← some-injective h) (record {
      same =
          rw split (completions-append pre (kills true ∷ []) ∙ append-nil (completions pre) ∙ same);
      split = λ _. (pre, same, split);
    })

verified-IsVerified : (o : Observed) (c d : Control) → verified o c ≡ some d → IsVerified c d
unfolding verified
verified-IsVerified o c d h = elim (Bool-cases c.attempt.is_process) [
  | inl p ↦ verified_by-IsVerified o c d (verify o.checks c.done) refl (sym (if_true _ _ p) ∙ h)
  | inr p ↦
      let e : c ≡ d = some-injective (sym (if_false _ _ p) ∙ h) in
      rw (← e) (record { same = refl; split = λ q. absurd (cc (p, q)) })
]

verified_by-cause :
    (o : Observed) (c d : Control) (r : Option (List Action)) (k : Cause)
    → c.attempt.cause ≡ some k
    → verified_by o c r ≡ some d
    → d.attempt.cause ≡ some k
unfolding verified_by
verified_by-cause o c d none k e h = absurd (cc h)
verified_by-cause o c d (some done) k e h =
    rw (← some-injective h) (rw (stops_kept c.attempt k o.late_stops e) e)

verified-cause :
    (o : Observed) (c d : Control) (k : Cause)
    → c.attempt.cause ≡ some k
    → verified o c ≡ some d
    → d.attempt.cause ≡ some k
unfolding verified
verified-cause o c d k e h = elim (Bool-cases c.attempt.is_process) [
  | inl p ↦ verified_by-cause o c d (verify o.checks c.done) k e (sym (if_true _ _ p) ∙ h)
  | inr p ↦ let same : c ≡ d = some-injective (sym (if_false _ _ p) ∙ h) in rw (← same) e
]

closing-some :
    (x : Texts) (o : Observed) (r : Option Control) (c : Control)
    → closing x o r ≡ some c
    → (m : Control) × (r ≡ some m) × (c ≡ end_runner o (settlement x o.raced m))
unfolding closing
closing-some x o none c h = absurd (cc h)
closing-some x o (some m) c h = (m, refl, sym (some-injective h))

-- A controller that comes to its end has reported at most once, and what its cause and its runner
-- call for: nothing at a lost lease; where the runner's end raced the stop, that end, whatever the
-- cause became meanwhile; else the timeout, the cancellation or the release that the cause names. A
-- controller that stopped its runner has a cause, and the cause with which a stop arrived first is
-- the one that counts.
pub run_execution-report :
    (x : Texts) (o : Observed) (a : Attempt) (c : Control)
    → run_execution x o a ≡ some c
    → (completions c.done ≡ report x c.attempt.cause o.raced)
      × (o.raced ≡ none → is_some c.attempt.cause ≡ true)
      × ((k : Cause) → (stops a o.race_stops).cause ≡ some k → c.attempt.cause ≡ some k)
unfolding run_execution
run_execution-report x o a c h =
    let (m, e, same) = closing-some x o (verified o (before_checks o a)) c h in
    let v : IsVerified (before_checks o a) m = verified-IsVerified o (before_checks o a) m e in
    let none_yet : completions m.done ≡ [] = v.same ∙ nothing_completed o a in
    let settled : Control = settlement x o.raced m in
    let cause : c.attempt.cause ≡ m.attempt.cause =
      ap (λ (z : Control). z.attempt.cause) same
      ∙ end_runner-cause o settled
      ∙ ap (λ (z : Attempt). z.cause) (settlement-attempt x o.raced m) in
    let (rest, split, quiet) = end_runner-Adds o settled in
    let shown : completions c.done ≡ completions settled.done =
      ap (λ (z : Control). completions z.done) same
      ∙ ap completions split
      ∙ completions-append settled.done rest
      ∙ rw quiet (append-nil (completions settled.done)) in
    (
      shown ∙ settlement-report x o.raced m none_yet ∙ ap (λ k. report x k o.raced) (sym cause),
      λ r. elim (Option-cases (before_checks o a).attempt.cause) [
        | inl w ↦ absurd (
            let z : is_some (before_checks o a).attempt.cause ≡ true = cause_known o a r in
            cc (z, w))
        | inr (k, w) ↦ rw (cause, verified-cause o (before_checks o a) m k w e) refl
      ],
      λ k first. cause ∙ verified-cause o (before_checks o a) m k (cause_kept o a k first) e,
    )

regroup : (y : Action) (pre t r : List Action) → ((pre ++ y ∷ []) ++ t) ++ r ≡ pre ++ y ∷ (t ++ r)
regroup y pre t r = append_assoc (pre ++ y ∷ []) t r ∙ append_assoc pre (y ∷ []) (t ++ r)

-- No outcome of a task that runs in a process is reported before a kill has answered that its sandbox
-- is dead.
pub run_execution-verified_first :
    (x : Texts) (o : Observed) (a : Attempt) (c : Control)
    → a.is_process ≡ true
    → run_execution x o a ≡ some c
    → verified_first false c.done ≡ true
unfolding run_execution
run_execution-verified_first x o a c p h =
    let (m, e, same) = closing-some x o (verified o (before_checks o a)) c h in
    let v : IsVerified (before_checks o a) m = verified-IsVerified o (before_checks o a) m e in
    let (pre, silent, shape) = v.split (process_kept o a ∙ p) in
    let (rest, split, quiet) = end_runner-Adds o (settlement x o.raced m) in
    let tail : List Action = finished x o.raced m.attempt.cause in
    let whole : c.done ≡ pre ++ kills true ∷ (tail ++ rest) =
      ap (λ (z : Control). z.done) same
      ∙ split
      ∙ ap (λ z. z ++ rest) (settlement-done x o.raced m ∙ ap (λ z. z ++ tail) shape)
      ∙ regroup (kills true) pre tail rest in
    rw whole (verified_first-kill pre (tail ++ rest) (silent ∙ nothing_completed o a))
