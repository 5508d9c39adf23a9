-- ===== src/Store/Types.antt =====
-- `publish_task_type`, `stats`, `purge_events` and `check_schema` of src/fronta/store.py.
use fronta.Prelude.{
  ℕ, ◌-◌, ◌≡◌, refl, sym, ap, ◌∙◌, Bool, false, not, ◌&&◌, Option, none, some, String, List, [],
  ◌∷◌, find, exists, keep, take, count, text_eq, eq_iff, ltb, leb, ◌==◌, if◌then◌else◌, if_true,
  if_false, Bool-cases, inl, inr, is_some,
}
use fronta.Errors.{Result, ok, err, configuration_error, ◌>>◌}
use fronta.Model.{queued, running, same_state, Executor}
use fronta.Store.Row.{Task}
use fronta.Store.Tables.{Db, TaskType, Subscription, Event, get_task_type}
use fronta.Store.Enqueue.{check_name}

-- `TaskTypeSpec`, in the columns of the model.
pub record TaskTypeSpec : Type 0 where
  pub name : String
  pub executor : Executor
  pub max_concurrency : Option ℕ
  pub max_concurrency_per_key : Option ℕ
  pub fingerprint : String

abbrev pub published_type : ℕ → TaskTypeSpec → Bool → TaskType
published_type now s paused = record {
  name = s.name;
  executor = s.executor;
  max_concurrency = s.max_concurrency;
  max_concurrency_per_key = s.max_concurrency_per_key;
  fingerprint = s.fingerprint;
  updated_at = now;
  paused = paused;
}

-- INSERT ... ON CONFLICT (name) DO UPDATE, which leaves `paused` as it is.
unfoldable pub upsert_type : ℕ → TaskTypeSpec → List TaskType → List TaskType
upsert_type now s [] = published_type now s false ∷ []
upsert_type now s (ty ∷ tys) =
    let rest = upsert_type now s tys in
    if text_eq ty.name s.name then published_type now s ty.paused ∷ tys else ty ∷ rest

abbrev fingerprint_of : Option TaskType → Option String
fingerprint_of none = none
fingerprint_of (some ty) = some ty.fingerprint

-- `publish_task_type`: the tables, and the fingerprint that is replaced.
unfoldable pub publish_task_type : ℕ → TaskTypeSpec → Db → Result (Db × Option String)
unfolding upsert_type
publish_task_type now s db = do
  check_name s.name
  ok (
    record db { task_types = upsert_type now s db.task_types },
    fingerprint_of (get_task_type s.name db),
  )

abbrev paused_before : Option TaskType → Bool
paused_before none = false
paused_before (some ty) = ty.paused

-- Behind a publication the type reads as it was published, and it is paused exactly if it was.
pub upsert_type-found :
    (now : ℕ) (s : TaskTypeSpec) (tys : List TaskType)
    → find (λ (ty : TaskType). text_eq ty.name s.name) (upsert_type now s tys)
      ≡ some (
          published_type now s
            (paused_before (find (λ (ty : TaskType). text_eq ty.name s.name) tys)))
unfolding upsert_type
upsert_type-found now s [] = if_true _ _ ((eq_iff s.name s.name).1 refl)
upsert_type-found now s (ty ∷ tys) =
    let here = λ (t : TaskType). text_eq t.name s.name in
    elim (Bool-cases (text_eq ty.name s.name)) [
      | inl e ↦
          ap (find here)
            (if_true (published_type now s ty.paused ∷ tys) (ty ∷ upsert_type now s tys) e)
          ∙ if_true _ _ ((eq_iff s.name s.name).1 refl)
          ∙ ap (λ z. some (published_type now s (paused_before z)))
              (sym (if_true (some ty) (find here tys) e))
      | inr e ↦
          ap (find here)
            (if_false (published_type now s ty.paused ∷ tys) (ty ∷ upsert_type now s tys) e)
          ∙ if_false _ _ e
          ∙ upsert_type-found now s tys
          ∙ ap (λ z. some (published_type now s (paused_before z)))
              (sym (if_false (some ty) (find here tys) e))
    ]

-- The `types` of `_STATS`, in the order of the table.
pub record TypeStats : Type 0 where
  pub type : String
  pub queued_due : ℕ
  pub queued_scheduled : ℕ
  pub running : ℕ
  pub oldest_due_age : Option ℕ

abbrev is_due_row : ℕ → String → Task → Bool
is_due_row now type t = text_eq t.type type && same_state t.state queued && leb t.run_at now

abbrev is_scheduled : ℕ → String → Task → Bool
is_scheduled now type t = text_eq t.type type && same_state t.state queued && ltb now t.run_at

abbrev is_running_row : String → Task → Bool
is_running_row type t = text_eq t.type type && same_state t.state running

-- `now() - min(run_at)`, of none if there is no row.
abbrev older_age : ℕ → Option ℕ → ℕ
older_age age none = age
older_age age (some other) = if ltb age other then other else age

abbrev oldest_age : ℕ → List Task → Option ℕ
oldest_age now [] = none
oldest_age now (t ∷ ts) = some (older_age (now - t.run_at) (oldest_age now ts))

unfoldable pub type_stats : ℕ → Db → TaskType → TypeStats
type_stats now db ty = record {
  type = ty.name;
  queued_due = count (is_due_row now ty.name) db.tasks;
  queued_scheduled = count (is_scheduled now ty.name) db.tasks;
  running = count (is_running_row ty.name) db.tasks;
  oldest_due_age = oldest_age now (keep (is_due_row now ty.name) db.tasks);
}

pub record SubscriptionStats : Type 0 where
  pub name : String
  pub backlog : ℕ
  pub backfill_pending : Bool

unfoldable pub subscription_stats : Db → Subscription → SubscriptionStats
subscription_stats db s = record {
  name = s.name;
  backlog = count (λ (e : Event). text_eq e.subscription s.name) db.events;
  backfill_pending = is_some s.backfill;
}

abbrev map_list {ℓ κ} : {A : Type ℓ} {B : Type κ} → (A → B) → List A → List B
map_list f [] = []
map_list f (x ∷ xs) = f x ∷ map_list f xs

unfoldable pub stats : ℕ → Db → List TypeStats × List SubscriptionStats
unfolding type_stats subscription_stats
stats now db =
    (map_list (type_stats now db) db.task_types, map_list (subscription_stats db) db.subscriptions)

-- `purge_events`; `taken` are the rows that the subquery takes of those before `before`, in sequence numbers.
abbrev is_purged : ℕ → List ℕ → Event → Bool
is_purged before taken e = ltb e.created_at before && exists (λ s. s == e.seq) taken

unfoldable pub purge_events : ℕ → ℕ → List ℕ → Db → Db
purge_events before batch taken db = record db {
  events = keep (λ (e : Event). not (is_purged before (take batch taken) e)) db.events;
}

-- `check_schema`, for the row of `fronta.meta`; `none` stands also for a missing table and for what is no integer.
unfoldable pub check_schema : ℕ → Option ℕ → Result (Unit {0})
check_schema required none = if ltb 0 required then err configuration_error else ok tt
check_schema required (some installed) =
    if ltb installed required then err configuration_error else ok tt
