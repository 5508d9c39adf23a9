-- ===== src/Store/History/Fence.antt =====
-- The fence: a token that no row holds stays useless, whatever commits later.
use fronta.Prelude.{
  ℕ, ◌+◌, ◌≡◌, refl, or_false, Bool, false, Option, none, some, String, List, [], ◌∷◌, All,
  All-keep, arith, exists, holds, ◌==◌, Option-cases, inl, inr,
}
use fronta.Errors.{ok}
use fronta.Model.{Completion}
use fronta.Store.Row.{
  Task, settle, admit, renew, store_progress, flag_cancel, expire, reset, settles,
}
use fronta.Store.Tables.{Db, updated, update_rows, publish, transition}
use fronta.Store.Tables.Rows.{update_rows-none}
use fronta.Store.Enqueue.{new_row}
use fronta.Store.Attempts.{
  Chosen, token_for, admitted, heartbeat, renewed, set_progress, progressed, complete,
  complete_rows, settled,
}
use fronta.Store.Control.{flagged, reaped, restarted}
use fronta.Store.History.{Statement, claims, step, run}
use fronta.Store.History.Cases.{
  Updates, admitting, renewing, progressing, settling, releasing, flagging, reaping, restarting,
  step_cases,
}

abbrev pub NoToken : ℕ → List Task → Type 0
NoToken k = All (λ t. holds t.token k ≡ false)

-- A statement that gives `k` to no row.
abbrev Silent : ℕ → (Task → Option Task) → Type 0
Silent k f = (t : Task) → holds t.token k ≡ false → holds (updated f t).token k ≡ false

update_rows-NoToken :
    (k : ℕ) (f : Task → Option Task)
    → Silent k f
    → (ts : List Task) → NoToken k ts
    → NoToken k (update_rows f ts)
update_rows-NoToken k f q [] h = tt
update_rows-NoToken k f q (t ∷ ts) h = (q t h.0, update_rows-NoToken k f q ts h.1)

settled-Silent :
    (now : ℕ) (draw : ℕ → ℕ) (cs : List Completion) (k : ℕ) → Silent k (settled now draw cs)
unfolding settled settle
settled-Silent now draw cs k t h = ground arith

renewed-Silent : (until : ℕ) (renewals : List (ℕ × ℕ)) (k : ℕ) → Silent k (renewed until renewals)
unfolding renewed renew
renewed-Silent until renewals k t h = ground arith

progressed-Silent : (id token : ℕ) (text : String) (k : ℕ) → Silent k (progressed id token text)
unfolding progressed store_progress
progressed-Silent id token text k t h = ground arith

flagged-Silent : (now id k : ℕ) → Silent k (flagged now id)
unfolding flagged flag_cancel
flagged-Silent now id k t h = ground arith

reaped-Silent : (now : ℕ) (draw : ℕ → ℕ) (ids : List ℕ) (k : ℕ) → Silent k (reaped now draw ids)
unfolding reaped expire
reaped-Silent now draw ids k t h = ground arith

restarted-Silent : (now id k : ℕ) → Silent k (restarted now id)
unfolding restarted reset
restarted-Silent now id k t h = ground arith

token_for-ne :
    (k id token : ℕ) (chosen : Chosen)
    → exists (λ (p : ℕ × ℕ). p.1 == k) chosen ≡ false
    → token_for chosen id ≡ some token
    → (token == k) ≡ false
token_for-ne k id token [] h e = cc
token_for-ne k id token ((i, new) ∷ rest) h e = ground (arith, token_for-ne k id token rest)

admitted-Silent :
    (now until : ℕ) (worker : String) (chosen : Chosen) (k : ℕ)
    → exists (λ (p : ℕ × ℕ). p.1 == k) chosen ≡ false
    → Silent k (admitted now until worker chosen)
unfolding admitted admit
admitted-Silent now until worker chosen k n t h = elim (Option-cases (token_for chosen t.id)) [
  | inl e ↦ ground arith
  | inr (token, e) ↦ ground (arith, token_for-ne k t.id token chosen n e)
]

-- The statement gives the token `k` to a row.
abbrev pub issues : ℕ → Statement → Bool
issues k (claims now clock lease worker chosen) = exists (λ (p : ℕ × ℕ). p.1 == k) chosen
issues k _ = false

Updates-Silent :
    (k : ℕ) {st : Statement} {f : Task → Option Task}
    → issues k st ≡ false
    → Updates st f
    → Silent k f
Updates-Silent k q (admitting {now} {worker = worker} {chosen = chosen} until) =
    admitted-Silent now until worker chosen k q
Updates-Silent k q (renewing {renewals = renewals} until) = renewed-Silent until renewals k
Updates-Silent k q (progressing {id} {token} {text}) = progressed-Silent id token text k
Updates-Silent k q (settling {now} {draw} {cs}) = settled-Silent now draw cs k
Updates-Silent k q (releasing {now} {draw} cs) = settled-Silent now draw cs k
Updates-Silent k q (flagging {now} {id}) = flagged-Silent now id k
Updates-Silent k q (reaping {now} {draw} ids) = reaped-Silent now draw ids k
Updates-Silent k q (restarting {now} {id}) = restarted-Silent now id k

step-NoToken :
    (k : ℕ) (st : Statement) (db : Db)
    → issues k st ≡ false
    → NoToken k db.tasks
    → NoToken k (step st db).tasks
step-NoToken k st db q h =
    step_cases (λ ts _. NoToken k ts) db h (λ now p. unfold new_row in (refl, h))
      (λ ids. All-keep _ _ db.tasks h) st
      (λ f u. update_rows-NoToken k f (Updates-Silent k q u) db.tasks h)

pub run-NoToken :
    (k : ℕ) (ss : List Statement) (db : Db)
    → exists (issues k) ss ≡ false
    → NoToken k db.tasks
    → NoToken k (run ss db).tasks
unfolding run
run-NoToken k [] db q h = h
run-NoToken k (st ∷ ss) db q h =
    let (here, later) = or_false (issues k st) _ q in
    run-NoToken k ss (step st db) later (step-NoToken k st db here h)

All-imp {ℓ} :
    {A : Type ℓ} (P Q : A → Type 0) → ((a : A) → P a → Q a) → (xs : List A) → All P xs → All Q xs
All-imp P Q f [] h = tt
All-imp P Q f (x ∷ xs) h = (f x h.0, All-imp P Q f xs h.1)

refused_renewed :
    (until id k : ℕ) (t : Task) → holds t.token k ≡ false → renewed until ((id, k) ∷ []) t ≡ none
unfolding renewed
refused_renewed until id k t h = ground arith

refused_progressed :
    (id k : ℕ) (text : String) (t : Task) → holds t.token k ≡ false → progressed id k text t ≡ none
unfolding progressed
refused_progressed id k text t h = ground arith

refused_settled :
    (now : ℕ) (draw : ℕ → ℕ) (c : Completion) (t : Task)
    → holds t.token c.token ≡ false
    → settled now draw (c ∷ []) t ≡ none
unfolding settled settles
refused_settled now draw c t h = ground arith

-- Once no row holds the token of a completion, no later sequence of statements that never issues this
-- token again makes it valid: a heartbeat and a progress write with it, and the completion itself,
-- whatever its kind, its task and its data, change nothing and report that nothing applied.
pub run-fence :
    (ss : List Statement) (db : Db) (c : Completion)
    → NoToken c.token db.tasks
    → exists (issues c.token) ss ≡ false
    → (now clock lease : ℕ) (draw : ℕ → ℕ) (text : String)
    → let later = run ss db in
      (heartbeat clock lease ((c.id, c.token) ∷ []) later ≡ ok (later, []))
      × (set_progress c.id c.token text later ≡ (later, false))
      × (complete now draw (c ∷ []) later ≡ ok (later, []))
run-fence ss db c h q now clock lease draw text =
    let later : Db = run ss db in
    let no : NoToken c.token later.tasks = run-NoToken c.token ss db q h in
    let (same1, nil1) =
      update_rows-none (renewed (clock + lease) ((c.id, c.token) ∷ [])) later.tasks
        (All-imp _ _ (refused_renewed (clock + lease) c.id c.token) later.tasks no) in
    let (same2, nil2) =
      update_rows-none (progressed c.id c.token text) later.tasks
        (All-imp _ _ (refused_progressed c.id c.token text) later.tasks no) in
    let (same3, nil3) =
      update_rows-none (settled now draw (c ∷ [])) later.tasks
        (All-imp _ _ (refused_settled now draw c) later.tasks no) in
    (
      unfold heartbeat in rw (same1, nil1),
      unfold set_progress in rw (same2, nil2),
      unfold complete complete_rows transition publish in rw (same3, nil3),
    )
