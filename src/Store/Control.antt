-- ===== src/Store/Control.antt =====
-- The control plane and the background statements of src/fronta/store.py: `request_cancel`, `reap`,
-- `requeue`, `set_paused`, `publish_task_type`, `purge_tasks`.
pub mod Effects
pub mod Revival
use fronta.Prelude.{
  ℕ, Bool, false, not, ◌&&◌, Option, none, some, String, List, [], ◌∷◌, map, ltb, leb, ◌==◌,
  text_eq, exists, keep, take, length, filter_map, if◌then◌else◌,
}
use fronta.Errors.{unknown_task_type, task_not_found, not_requeueable, Result, ok, err, ◌>>◌}
use fronta.Model.{State, cancelled, same_state}
use fronta.Store.Row.{Task, is_active, flag_cancel, has_expired, expire, may_requeue, reset}
use fronta.Store.Tables.{Db, TaskType, transition, update_rows, publish, get_task}
use fronta.Store.Enqueue.{is_duplicate, check_name}

unfoldable pub flagged : ℕ → ℕ → Task → Option Task
flagged now id t = if t.id == id && is_active t.state then some (flag_cancel now t) else none

-- Only a row that the statement has cancelled is published.
unfoldable pub request_cancel : ℕ → ℕ → Db → Db × Option State
request_cancel now id db =
    let applied = filter_map (flagged now id) db.tasks in
    (
      publish now (keep (λ (t : Task). same_state t.state cancelled) applied)
          (record db { tasks = update_rows (flagged now id) db.tasks }),
      elim applied [ [] ↦ none | t ∷ _ ↦ some t.state ],
    )

-- The ids of the `expired` rows with the earliest leases, at most `limit`.
lease_of : Task → ℕ
lease_of t = elim t.lease_until [ none ↦ 0 | some until ↦ until ]

abbrev pub insert_by {ℓ} : {A : Type ℓ} → (A → ℕ) → A → List A → List A
insert_by key x [] = x ∷ []
insert_by key x (y ∷ ys) =
    let rest = insert_by key x ys in if leb (key x) (key y) then x ∷ y ∷ ys else y ∷ rest

-- ORDER BY key
unfoldable pub order_by {ℓ} : {A : Type ℓ} → (A → ℕ) → List A → List A
order_by key [] = []
order_by key (x ∷ xs) = insert_by key x (order_by key xs)

unfoldable pub reap_ids : ℕ → ℕ → Db → List ℕ
unfolding lease_of order_by
reap_ids now limit db =
    map (λ (t : Task). t.id) (take limit (order_by lease_of (keep (has_expired now) db.tasks)))

unfoldable pub reaped : ℕ → (ℕ → ℕ) → List ℕ → Task → Option Task
reaped now draw ids t =
    if exists (λ i. i == t.id) ids && has_expired now t
    then some (expire now (draw t.id) t)
    else none

unfoldable pub reap : ℕ → (ℕ → ℕ) → ℕ → Db → Db × List (ℕ × String × State)
reap now draw limit db =
    let (db', applied) = transition now (reaped now draw (reap_ids now limit db)) db in
    (db', map (λ (t : Task). (t.id, t.type, t.state)) applied)

unfoldable pub restarted : ℕ → ℕ → Task → Option Task
restarted now id t = if t.id == id && may_requeue t then some (reset now t) else none

-- The update would make a second active row with this row's key: `UniqueViolation`.
violates : List Task → Task → Bool
violates tasks t = exists (is_duplicate t.type t.key) tasks

-- What follows from the rows that the statement would return.
requeue_answer : ℕ → ℕ → Db → List Task → Result (Db × String)
requeue_answer now id db [] = elim (get_task id db) [
  | none ↦ err task_not_found
  | some t ↦ err not_requeueable
]
requeue_answer now id db (t ∷ _) =
    if violates db.tasks t
    then err not_requeueable
    else ok ((transition now (restarted now id) db).0, t.type)

unfoldable pub requeue : ℕ → ℕ → Db → Result (Db × String)
unfolding violates requeue_answer
requeue now id db = requeue_answer now id db (filter_map (restarted now id) db.tasks)

abbrev set_type : (TaskType → Bool) → (TaskType → TaskType) → List TaskType → List TaskType
set_type p f [] = []
set_type p f (ty ∷ tys) = (if p ty then f ty else ty) ∷ set_type p f tys

unfoldable pub set_paused : String → Bool → Db → Result Db
set_paused name paused db = do
  check_name name
  if exists (λ (ty : TaskType). text_eq ty.name name) db.task_types
      then ok (record db {
        task_types =
            set_type (λ ty. text_eq ty.name name) (λ ty. record ty { paused = paused })
              db.task_types;
      })
      else err unknown_task_type

-- `_PURGE_TASKS`
finish_of : Task → ℕ
finish_of t = elim t.finished_at [ none ↦ 0 | some at ↦ at ]

abbrev pub is_terminal : Task → Bool
is_terminal t = not (is_active t.state)

unfoldable pub purgeable : ℕ → Task → Bool
purgeable before t = is_terminal t && elim t.finished_at [ none ↦ false | some at ↦ ltb at before ]

unfoldable pub purge_ids : ℕ → ℕ → Db → List ℕ
unfolding finish_of order_by
purge_ids before batch db =
    map (λ (t : Task). t.id) (take batch (order_by finish_of (keep (purgeable before) db.tasks)))

-- `before` is `now() - retention_s`.
unfoldable pub purge_tasks : ℕ → ℕ → Db → Db × ℕ
purge_tasks before batch db =
    let ids = purge_ids before batch db in
    (
      record db { tasks = keep (λ (t : Task). not (exists (λ i. i == t.id) ids)) db.tasks },
      length ids,
    )
