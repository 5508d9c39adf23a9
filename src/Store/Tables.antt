-- ===== src/Store/Tables.antt =====
-- The tables, and the shape that store.py's `_with_events` gives to every managed transition: an
-- UPDATE that returns the rows that it applied to, and one event for each applied row and each
-- subscription that wants it.
pub mod Sound
pub mod Rows
use fronta.Prelude.{
  ℕ, suc, ◌+◌, Bool, true, ◌&&◌, Option, none, some, String, List, [], ◌∷◌, ◌++◌, text_eq, ◌==◌,
  keep, exists, find, length, filter_map,
}
use fronta.Model.{State, Executor, same_state}
use fronta.Store.Row.{Task}

-- `fronta.task_types`, without the JSON columns that no statement reads.
pub record TaskType : Type 0 where
  pub name : String
  pub executor : Executor
  pub max_concurrency : Option ℕ
  pub max_concurrency_per_key : Option ℕ
  pub fingerprint : String
  pub updated_at : ℕ
  pub paused : Bool

-- `Backfill`: `since`, and for each state that is left the last id that was projected.
pub record Backfill : Type 0 where
  pub since : Option ℕ
  pub pending : List (State × ℕ)

pub record Subscription : Type 0 where
  pub name : String
  pub states : List State
  pub types : Option (List String)
  pub backfill : Option Backfill
  pub generation : ℕ

pub record Event : Type 0 where
  pub seq : ℕ
  pub subscription : String
  pub task_id : ℕ
  pub type : String
  pub state : State
  pub attempt : ℕ
  pub created_at : ℕ

pub record Db : Type 0 where
  pub tasks : List Task
  pub task_types : List TaskType
  pub subscriptions : List Subscription
  pub events : List Event
  pub next_id : ℕ
  pub next_seq : ℕ

abbrev pub init : Db
init = record {
  tasks = [];
  task_types = [];
  subscriptions = [];
  events = [];
  next_id = 1;
  next_seq = 1;
}

-- `type IS NULL OR type = ANY(types)`
abbrev pub accepts : Option (List String) → String → Bool
accepts none type = true
accepts (some types) type = exists (text_eq type) types

-- The condition of `_PUBLISHED`.
abbrev pub wants : Task → Subscription → Bool
wants t s = exists (same_state t.state) s.states && accepts s.types t.type

event_of : ℕ → Task → ℕ → Subscription → Event
event_of now t seq s = record {
  seq = seq;
  subscription = s.name;
  task_id = t.id;
  type = t.type;
  state = t.state;
  attempt = t.attempt;
  created_at = now;
}

-- The events of one applied row, numbered from `seq`.
deliveries : ℕ → ℕ → Task → List Subscription → List Event
unfolding event_of
deliveries now seq t [] = []
deliveries now seq t (s ∷ subs) = event_of now t seq s ∷ deliveries now (suc seq) t subs

-- `published`: INSERT INTO fronta.events ... FROM applied CROSS JOIN subscriptions
unfoldable pub publish : ℕ → List Task → Db → Db
unfolding deliveries
publish now [] db = db
publish now (t ∷ rest) db =
    let subs = keep (wants t) db.subscriptions in
    publish now rest (record db {
      events = db.events ++ deliveries now db.next_seq t subs;
      next_seq = db.next_seq + length subs;
    })

-- UPDATE ... : `f` is `none` at a row that the statement does not select.
abbrev pub updated : (Task → Option Task) → Task → Task
updated f t = elim (f t) [ none ↦ t | some u ↦ u ]

abbrev pub update_rows : (Task → Option Task) → List Task → List Task
update_rows f [] = []
update_rows f (t ∷ ts) = updated f t ∷ update_rows f ts

-- `WITH applied AS (UPDATE ... RETURNING ...), published AS (...) SELECT ... FROM applied`
unfoldable pub transition : ℕ → (Task → Option Task) → Db → Db × List Task
transition now f db =
    let applied = filter_map f db.tasks in
    (publish now applied (record db { tasks = update_rows f db.tasks }), applied)

-- `SELECT ... WHERE id = %(id)s`
unfoldable pub get_task : ℕ → Db → Option Task
get_task id db = find (λ t. t.id == id) db.tasks

unfoldable pub get_task_type : String → Db → Option TaskType
get_task_type name db = find (λ ty. text_eq ty.name name) db.task_types
