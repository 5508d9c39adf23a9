-- ===== src/Store/History/Results.antt =====
-- The row of a succeeded task is final.
use fronta.Prelude.{some-injective}
use fronta.Prelude.{
  ℕ, ◌≤◌, ◌<◌, ◌≡◌, refl, ap, true, false, ◌⊎◌, Option, none, some, List, [], ◌∷◌, All, arith, find,
  All-keep, ◌==◌, Bool-cases, Option-cases, inl, inr,
}
use fronta.Model.{succeeded, Completion}
use fronta.Store.Row.{
  Task, settle, settles, admit, renew, store_progress, flag_cancel, has_expired, expire,
  may_requeue, reset,
}
use fronta.Store.Tables.{Db, updated, update_rows, get_task}
use fronta.Store.Tables.Sound.{Below, IsSound}
use fronta.Store.Enqueue.{new_row}
use fronta.Store.Attempts.{admitted, renewed, renews, progressed, settled, outcome_for}
use fronta.Store.Attempts.Effects.{outcome_for-settles}
use fronta.Store.Control.{flagged, reaped, restarted}
use fronta.Store.History.{Statement, step, run}
use fronta.Store.History.Cases.{
  Updates, admitting, renewing, progressing, settling, releasing, flagging, reaping, restarting,
  step_cases,
}

-- No statement's update selects a succeeded row.
abbrev Spares : (Task → Option Task) → Type 0
Spares f = (t : Task) → t.state ≡ succeeded → f t ≡ none

renews-none : (renewals : List (ℕ × ℕ)) (t : Task) → t.state ≡ succeeded → renews renewals t ≡ false
renews-none [] t h = refl
renews-none (r ∷ rest) t h = ground (arith, renews-none rest t h)

settled-Spares : (now : ℕ) (draw : ℕ → ℕ) (cs : List Completion) → Spares (settled now draw cs)
unfolding settled
settled-Spares now draw cs t h = elim (Option-cases (outcome_for cs t)) [
  | inl e ↦ rw (e, settled)
  | inr (c, e) ↦
      let applies : settles c.token c.kind t ≡ true = (outcome_for-settles cs t c e).1 in
      absurd (unfold settles in ground arith)
]

Updates-Spares : {st : Statement} {f : Task → Option Task} → Updates st f → Spares f
unfolding admitted renewed progressed flagged reaped restarted has_expired may_requeue
Updates-Spares (admitting until) t h = ground arith
Updates-Spares (renewing {renewals = renewals} until) t h = ground (arith, renews-none renewals t h)
Updates-Spares progressing t h = ground arith
Updates-Spares (settling {now} {draw} {cs}) t h = settled-Spares now draw cs t h
Updates-Spares (releasing {now} {draw} cs) t h = settled-Spares now draw cs t h
Updates-Spares flagging t h = ground arith
Updates-Spares (reaping ids) t h = ground arith
Updates-Spares restarting t h = ground arith

Updates-id :
    {st : Statement} {f : Task → Option Task} → Updates st f → (t : Task) → (updated f t).id ≡ t.id
unfolding admitted renewed progressed settled flagged reaped restarted admit renew store_progress
    settle flag_cancel expire reset
Updates-id (admitting until) t = ground arith
Updates-id (renewing until) t = ground arith
Updates-id progressing t = ground arith
Updates-id settling t = ground arith
Updates-id (releasing cs) t = ground arith
Updates-id flagging t = ground arith
Updates-id (reaping ids) t = ground arith
Updates-id restarting t = ground arith

-- Every row with the id of `t` is `t` itself.
abbrev IsFinal : Task → List Task → ℕ → Type 0
IsFinal t ts next = (t.id < next) × All (λ (r : Task). r.id ≡ t.id → r ≡ t) ts

update_rows-IsFinal :
    (t : Task) (f : Task → Option Task)
    → f t ≡ none
    → ((r : Task) → (updated f r).id ≡ r.id)
    → (ts : List Task) → All (λ (r : Task). r.id ≡ t.id → r ≡ t) ts
    → All (λ (r : Task). r.id ≡ t.id → r ≡ t) (update_rows f ts)
update_rows-IsFinal t f spared ids [] h = tt
update_rows-IsFinal t f spared ids (r ∷ ts) h = (
  λ e. let same : r ≡ t = h.0 (rw (← ids r) e) in rw same (rw (spared, updated)),
  update_rows-IsFinal t f spared ids ts h.1,
)

step-IsFinal :
    (t : Task) (st : Statement) (db : Db)
    → t.state ≡ succeeded
    → IsFinal t db.tasks db.next_id
    → IsFinal t (step st db).tasks (step st db).next_id
step-IsFinal t st db done h =
    step_cases (IsFinal t) db h
      (λ now p. unfold new_row in (omega arith, (λ e. absurd (omega arith), h.1)))
      (λ ids. (h.0, All-keep _ _ db.tasks h.1)) st
      (λ f u. (h.0, update_rows-IsFinal t f (Updates-Spares u t done) (Updates-id u) db.tasks h.1))

run-IsFinal :
    (t : Task) (ss : List Statement) (db : Db)
    → t.state ≡ succeeded
    → IsFinal t db.tasks db.next_id
    → IsFinal t (run ss db).tasks (run ss db).next_id
unfolding run
run-IsFinal t [] db done h = h
run-IsFinal t (st ∷ ss) db done h = run-IsFinal t ss (step st db) done (step-IsFinal t st db done h)

find-IsFinal :
    (t : Task) (ts : List Task)
    → All (λ (r : Task). r.id ≡ t.id → r ≡ t) ts
    → (find (λ (r : Task). r.id == t.id) ts ≡ some t)
      ⊎ (find (λ (r : Task). r.id == t.id) ts ≡ none)
find-IsFinal t [] h = inr refl
find-IsFinal t (r ∷ ts) h = elim (Bool-cases (r.id == t.id)) [
  | inl e ↦ inl (rw e (ap some (h.0 (ground arith))))
  | inr e ↦ rw e (find-IsFinal t ts h.1)
]

none_with_id :
    (t : Task) (n : ℕ) (ts : List Task)
    → Below n ts
    → n ≤ t.id
    → All (λ (r : Task). r.id ≡ t.id → r ≡ t) ts
none_with_id t n [] b h = tt
none_with_id t n (r ∷ ts) b h =
    (λ e. absurd (omega arith), none_with_id t r.id ts b.1 (omega arith))

Below-IsFinal :
    (t : Task) (n : ℕ) (ts : List Task)
    → Below n ts
    → find (λ (r : Task). r.id == t.id) ts ≡ some t
    → IsFinal t ts n
Below-IsFinal t n [] b e = cc
Below-IsFinal t n (r ∷ ts) b e = elim (Bool-cases (r.id == t.id)) [
  | inl hit ↦
      let same : r ≡ t = some-injective (rw (hit, find) at e) in
      let equal : r.id ≡ t.id = ground arith in
      (omega arith, (λ _. same, none_with_id t r.id ts b.1 (omega arith)))
  | inr miss ↦
      let (bound, rest) = Below-IsFinal t r.id ts b.1 (rw (miss, find) at e) in
      (omega arith, (λ equal. absurd (ground arith), rest))
]

-- In sound tables, the row of a succeeded task is never rewritten: after any statements it is there
-- as it was, its result, attempt and times included, or it has been purged. No statement, a requeue
-- and a late completion included, gives its id to another row.
pub run_keeps_succeeded :
    (ss : List Statement) (db : Db) (t : Task)
    → IsSound db
    → get_task t.id db ≡ some t
    → t.state ≡ succeeded
    → (get_task t.id (run ss db) ≡ some t) ⊎ (get_task t.id (run ss db) ≡ none)
unfolding get_task
run_keeps_succeeded ss db t s e done =
    find-IsFinal t (run ss db).tasks
      (run-IsFinal t ss db done (Below-IsFinal t db.next_id db.tasks s.ids e)).1
