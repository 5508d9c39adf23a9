-- ===== src/Feed.antt =====
-- src/fronta/feed.py, and the statements of store.py on subscriptions and events. A state is
-- ordered by its name; a generation is a number.
pub mod Consumer
pub mod Acks
pub mod Ordered
pub mod Cursors
pub mod Chunks
pub mod Waiting
pub mod Examples
use fronta.Prelude.{
  ℕ, zero, suc, ◌+◌, ◌-◌, Bool, true, false, not, ◌&&◌, ◌||◌, Option, none, some, String, List, [],
  ◌∷◌, ◌++◌, map, keep, exists, find, take, length, ltb, leb, ◌==◌, text_eq, if◌then◌else◌, is_none,
  is_some,
}
use fronta.Errors.{Result, ok, err, invalid_input}
use fronta.Model.{State, queued, running, succeeded, failed, cancelled, same_state}
use fronta.Store.Row.{Task, is_active}
use fronta.Store.Tables.{Backfill, Subscription, Event, Db, accepts}
use fronta.Store.Control.{order_by}

-- The argument `backfill`: nothing, a Boolean, a duration in microseconds, or any other number.
pub data Request : Type 0 where
  absent : Request
  flag : Bool → Request
  seconds : ℕ → Request
  out_of_range : Request

-- What `_normalize_backfill` answers: `False`, `True`, or a window.
pub data Window : Type 0 where
  no_backfill : Window
  all_tasks : Window
  within : ℕ → Window

pub normalize_backfill : Request → Result Window
normalize_backfill absent = ok no_backfill
normalize_backfill (flag false) = ok no_backfill
normalize_backfill (flag true) = ok all_tasks
normalize_backfill (seconds s) = ok (within s)
normalize_backfill out_of_range = err invalid_input

-- `dict.fromkeys(states, 0)`
abbrev pub fromkeys : List State → List (State × ℕ)
fromkeys [] = []
fromkeys (s ∷ ss) =
    let rest = fromkeys ss in
    if exists (λ (p : State × ℕ). same_state p.0 s) rest then rest else (s, 0) ∷ rest

abbrev pub marker_of : ℕ → Window → List State → Option Backfill
marker_of clock no_backfill states = none
marker_of clock all_tasks states = some (record { since = none; pending = fromkeys states })
marker_of clock (within s) states =
    some (record { since = some (clock - s); pending = fromkeys states })

-- The upsert; a registration that is there keeps its generation and its marker.
abbrev pub upsert : Subscription → List Subscription → List Subscription
upsert new [] = new ∷ []
upsert new (s ∷ ss) =
    let rest = upsert new ss in
    if text_eq s.name new.name
    then record s { states = new.states; types = new.types } ∷ ss
    else s ∷ rest

abbrev pub find_subscription : String → List Subscription → Option Subscription
find_subscription name = find (λ (s : Subscription). text_eq s.name name)

unfoldable pub register_subscription :
    ℕ → ℕ → String → List State → Option (List String) → Window → Db → Db × Option Subscription
register_subscription clock generation name states types window db =
    let new : Subscription = record {
      name = name;
      states = states;
      types = types;
      backfill = marker_of clock window states;
      generation = generation;
    } in
    let later = upsert new db.subscriptions in
    (record db { subscriptions = later }, find_subscription name later)

-- The order of the states' names.
abbrev pub rank : State → ℕ
rank cancelled = 0
rank failed = 1
rank queued = 2
rank running = 3
rank succeeded = 4

-- `state = min(pending)` with `after = pending[state]`
abbrev pub least : (State × ℕ) → List (State × ℕ) → State × ℕ
least p [] = p
least p (q ∷ rest) = if ltb (rank q.0) (rank p.0) then least q rest else least p rest

-- The rows that `_BACKFILL` projects.
abbrev pub projects : State → ℕ → Option (List String) → Option ℕ → Task → Bool
projects state after types since t =
    same_state t.state state && ltb after t.id && accepts types t.type && elim since [
      | none ↦ true
      | some at ↦ elim t.finished_at [ none ↦ false | some f ↦ leb at f ]
    ]

abbrev pub projected : ℕ → State → ℕ → Option (List String) → Option ℕ → Db → List Task
projected limit state after types since db =
    take limit (order_by (λ (t : Task). t.id) (keep (projects state after types since) db.tasks))

abbrev pub events_from : ℕ → ℕ → String → List Task → List Event
events_from now seq name [] = []
events_from now seq name (t ∷ ts) =
    record {
      seq = seq;
      subscription = name;
      task_id = t.id;
      type = t.type;
      state = t.state;
      attempt = t.attempt;
      created_at = now;
    }
    ∷ events_from now (seq + 1) name ts

abbrev pub last_id : ℕ → List Task → ℕ
last_id id [] = id
last_id id (t ∷ ts) = last_id t.id ts

-- `del pending[state]`, and `pending[state] = last_id`
abbrev pub advance : Bool → State → ℕ → List (State × ℕ) → List (State × ℕ)
advance finished state id [] = []
advance finished state id (p ∷ rest) =
    let later = advance finished state id rest in
    if same_state p.0 state then (if finished then later else (state, id) ∷ later) else p ∷ later

abbrev pub with_pending : Backfill → List (State × ℕ) → Option Backfill
with_pending m [] = none
with_pending m (p ∷ rest) = some (record m { pending = p ∷ rest })

abbrev pub set_backfill : String → Option Backfill → List Subscription → List Subscription
set_backfill name marker [] = []
set_backfill name marker (s ∷ ss) =
    (if text_eq s.name name then record s { backfill = marker } else s)
    ∷ set_backfill name marker ss

-- The rows of a chunk; queued and running rows are projected whatever their age.
abbrev pub chunk_rows : ℕ → Subscription → Backfill → State × ℕ → Db → List Task
chunk_rows limit s m (state, after) db =
    projected limit state after s.types (if is_active state then none else m.since) db

abbrev pub advanced : ℕ → List Task → State × ℕ → List (State × ℕ) → List (State × ℕ)
advanced limit ts (state, after) pending =
    advance (ltb (length ts) limit) state (last_id after ts) pending

-- The chunk of a marker with these states pending: events of one state, and the marker behind them.
unfoldable pub project : ℕ → ℕ → Subscription → Backfill → List (State × ℕ) → Db → (ℕ × Bool) × Db
project now limit s m [] db =
    ((0, false), record db { subscriptions = set_backfill s.name none db.subscriptions })
project now limit s m (p ∷ rest) db =
    let ts = chunk_rows limit s m (least p rest) db in
    let later = with_pending m (advanced limit ts (least p rest) (p ∷ rest)) in
    (
      (length ts, is_some later),
      record db {
        events = db.events ++ events_from now db.next_seq s.name ts;
        next_seq = db.next_seq + length ts;
        subscriptions = set_backfill s.name later db.subscriptions;
      },
    )

-- The chunk for the marker of a registration.
unfoldable pub chunk_marked : ℕ → ℕ → Subscription → Option Backfill → Db → Option (ℕ × Bool) × Db
unfolding project
chunk_marked now limit s none db = (some (0, false), db)
chunk_marked now limit s (some m) db =
    let done = project now limit s m m.pending db in (some done.0, done.1)

-- The chunk for the registration that was found; `none` says that it is gone.
unfoldable pub chunk_for : ℕ → ℕ → ℕ → Option Subscription → Db → Option (ℕ × Bool) × Db
unfolding chunk_marked
chunk_for now limit generation none db = (none, db)
chunk_for now limit generation (some s) db =
    if s.generation == generation then chunk_marked now limit s s.backfill db else (none, db)

unfoldable pub backfill_chunk : ℕ → String → ℕ → ℕ → Db → Option (ℕ × Bool) × Db
unfolding chunk_for
backfill_chunk now name generation limit db =
    chunk_for now limit generation (find_subscription name db.subscriptions) db
