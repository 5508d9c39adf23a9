-- ===== src/Store/History/Cases.antt =====
-- What one committed statement can do to the rows of `fronta.tasks`: insert one, update some by one
-- of the row functions, or delete some.
use fronta.Prelude.{
  ℕ, suc, subst, ◌==◌, not, ◌||◌, Option, String, List, [], ◌∷◌, exists, keep, ltb, length,
  filter_map, Bool-cases, inl, inr, text_eq,
}
use fronta.Errors.{Result-cases}
use fronta.Model.{Completion}
use fronta.Store.Row.{Task}
use fronta.Store.Tables.{Db, TaskType, update_rows, publish, transition}
use fronta.Store.Enqueue.{Params, insert, new_row, check_name, is_duplicate}
use fronta.Store.Attempts.{
  Chosen, admit_chosen, admitted, heartbeat, renewed, set_progress, progressed, complete,
  complete_rows, settled, release_orphans, orphans, distinct_ids,
}
use fronta.Store.Control.{
  request_cancel, flagged, reap, reap_ids, reaped, requeue, restarted, set_paused, purge_tasks,
}
use fronta.Store.Control.Revival.{requeue-update}
use fronta.Store.History.{
  Statement, inserts, claims, heartbeats, progresses, completes, releases, cancels, reaps, requeues,
  pauses, purges, committed, step,
}

pub data Updates : Statement → (Task → Option Task) → Type 0 where
  admitting :
      {now clock lease : ℕ} {worker : String} {chosen : Chosen} (until : ℕ)
      → Updates (claims now clock lease worker chosen) (admitted now until worker chosen)
  renewing :
      {clock lease : ℕ} {renewals : List (ℕ × ℕ)} (until : ℕ)
      → Updates (heartbeats clock lease renewals) (renewed until renewals)
  progressing :
      {id token : ℕ} {text : String} → Updates (progresses id token text) (progressed id token text)
  settling :
      {now : ℕ} {draw : ℕ → ℕ} {cs : List Completion}
      → Updates (completes now draw cs) (settled now draw cs)
  releasing :
      {now : ℕ} {draw : ℕ → ℕ} {worker : String} {live : List ℕ} (cs : List Completion)
      → Updates (releases now draw worker live) (settled now draw cs)
  flagging : {now id : ℕ} → Updates (cancels now id) (flagged now id)
  reaping :
      {now : ℕ} {draw : ℕ → ℕ} {limit : ℕ} (ids : List ℕ)
      → Updates (reaps now draw limit) (reaped now draw ids)
  restarting : {now id : ℕ} → Updates (requeues now id) (restarted now id)

-- Publishing events changes neither the rows nor the next id.
publish-rows {ℓ} :
    (P : List Task → ℕ → Type ℓ) (now : ℕ) (applied : List Task) (db : Db)
    → P db.tasks db.next_id
    → P (publish now applied db).tasks (publish now applied db).next_id
unfolding publish
publish-rows P now [] db h = h
publish-rows P now (t ∷ rest) db h = publish-rows P now rest _ h

transition-rows {ℓ} :
    (P : List Task → ℕ → Type ℓ) (now : ℕ) (f : Task → Option Task) (db : Db)
    → P (update_rows f db.tasks) db.next_id
    → P (transition now f db).0.tasks (transition now f db).0.next_id
unfolding transition
transition-rows P now f db h = publish-rows P now (filter_map f db.tasks) _ h

-- A property of the rows and the next id holds behind a statement if it held before, and if inserting
-- a row, each update and each deletion keep it.
module _ {ℓ} (P : List Task → ℕ → Type ℓ) (db : Db) (old : P db.tasks db.next_id)
    (insertion : (now : ℕ) (p : Params) → P (new_row now db.next_id p ∷ db.tasks) (suc db.next_id))
    (deletion : (ids : List ℕ)
      → P (keep (λ (t : Task). not (exists (λ i. i == t.id) ids)) db.tasks) db.next_id) where
  pub step_cases :
      (st : Statement)
      → ((f : Task → Option Task) → Updates st f → P (update_rows f db.tasks) db.next_id)
      → P (step st db).tasks (step st db).next_id
  unfolding step
  step_cases (inserts now p) u =
      elim (Bool-cases (exists (is_duplicate p.task.type p.task.key) db.tasks)) [
        | inl e ↦ unfold insert in rw (e, step, insert) old
        | inr e ↦ unfold insert in rw (e, step, insert) (publish-rows P now _ _ (insertion now p))
      ]
  step_cases (claims now clock lease worker chosen) u =
      unfold admit_chosen in transition-rows P now _ db (u _ (admitting _))
  step_cases (heartbeats clock lease renewals) u = elim (Bool-cases (ltb 1000 (length renewals))) [
    | inl e ↦ unfold heartbeat in rw (e, step, heartbeat) old
    | inr e ↦ unfold heartbeat in rw (e, step, heartbeat) (u _ (renewing _))
  ]
  step_cases (progresses id token text) u = unfold set_progress in u _ progressing
  step_cases (completes now draw []) u = unfold complete in old
  step_cases (completes now draw (c ∷ cs)) u =
      elim (Bool-cases (ltb 256 (length (c ∷ cs)) || not (distinct_ids (c ∷ cs)))) [
        | inl e ↦ unfold complete in rw (e, step, complete) old
        | inr e ↦
            unfold complete complete_rows in
            rw (e, step, complete, complete_rows) (transition-rows P now _ db (u _ settling))
      ]
  step_cases (releases now draw worker live) u =
      unfold release_orphans complete_rows in
      transition-rows P now _ db (u _ (releasing (orphans worker live db)))
  step_cases (cancels now id) u = unfold request_cancel in publish-rows P now _ _ (u _ flagging)
  step_cases (reaps now draw limit) u =
      unfold reap in transition-rows P now _ db (u _ (reaping (reap_ids now limit db)))
  step_cases (requeues now id) u = elim (Result-cases (requeue now id db)) [
    | inl ((next, type), e) ↦
        rw (e, step, committed)
          (subst (λ (d : Db). P d.tasks d.next_id) (requeue-update now id db next type e)
            (transition-rows P now _ db (u _ restarting)))
    | inr (x, e) ↦ rw (e, step, committed) old
  ]
  step_cases (pauses name paused) u = elim (Result-cases (check_name name)) [
    | inl (_, e) ↦
        elim (Bool-cases (exists (λ (ty : TaskType). text_eq ty.name name) db.task_types)) [
          | inl known ↦ unfold set_paused in rw (e, known, step, set_paused) old
          | inr unknown ↦ unfold set_paused in rw (e, unknown, step, set_paused) old
        ]
    | inr (_, e) ↦ unfold set_paused in rw (e, step, set_paused) old
  ]
  step_cases (purges before batch) u = unfold purge_tasks in deletion _
