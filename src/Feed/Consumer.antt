-- ===== src/Feed/Consumer.antt =====
-- `Feed`, `Batch`, `_backfill` and `unsubscribe` of src/fronta/feed.py.
use fronta.Prelude.{
  leb, ℕ, zero, suc, Bool, true, false, not, ◌&&◌, Option, none, some, String, List, [], ◌∷◌, map,
  keep, exists, take, ◌==◌, text_eq, if◌then◌else◌,
}
use fronta.Errors.{Result, ok, err, guard, ◌>>=◌, ◌>>◌, invalid_input}
use fronta.Model.{State, TaskEvent}
use fronta.Store.Tables.{Event, Subscription, Db}
use fronta.Store.Enqueue.{check_name}
use fronta.Feed.{Request, Window, normalize_backfill, find_subscription, backfill_chunk}

pub record Batch : Type 0 where
  pub name : String
  pub events : List TaskEvent
  pub active : Bool

pub record Feed : Type 0 where
  pub name : String
  pub generation : ℕ
  pub batch_size : ℕ
  pub closed : Bool
  pub batch : Option Batch

abbrev pub task_event : Event → TaskEvent
task_event e = record {
  seq = e.seq;
  id = e.task_id;
  type = e.type;
  state = e.state;
  attempt = e.attempt;
}

-- `Feed._rollback`, with the batch as it is behind it.
unfoldable pub rollback : Feed → Feed
rollback f = record f { batch = none }

-- The rows of a poll: the events of the subscription in order, without those that another
-- consumer has locked, up to the size of a batch.
abbrev pub deliverable : String → (ℕ → Bool) → Event → Bool
deliverable name locked e = text_eq e.subscription name && not (locked e.seq)

abbrev pub polled : Feed → Db → (ℕ → Bool) → List Event
polled f db locked = take f.batch_size (keep (deliverable f.name locked) db.events)

-- `registration is not None and registration[0] == self._generation`
abbrev pub is_registered : ℕ → Option Subscription → Bool
is_registered generation none = false
is_registered generation (some s) = s.generation == generation

-- What `__anext__` does: it raises `StopAsyncIteration`, returns a batch, or still polls.
pub data Next : Type 0 where
  stops : Next
  returns : List Event → Next
  polls : Next

abbrev pub hand_out : Feed → List Event → Next × Feed → Next × Feed
hand_out f [] later = later
hand_out f (e ∷ es) later = (
  returns (e ∷ es),
  record f {
    batch = some (record { name = f.name; events = map task_event (e ∷ es); active = true });
  },
)

-- The loop over what each poll finds: the tables, and the rows that others have locked.
abbrev pub poll : Feed → List (Db × (ℕ → Bool)) → Next × Feed
poll f [] = (polls, f)
poll f ((db, locked) ∷ rest) =
    let later = poll f rest in
    if is_registered f.generation (find_subscription f.name db.subscriptions)
    then hand_out f (polled f db locked) later
    else (stops, record f { closed = true })

unfoldable pub next : Feed → List (Db × (ℕ → Bool)) → Next × Feed
unfolding rollback
next f seen = if f.closed then (stops, f) else poll (rollback f) seen

abbrev pub is_acked : String → List ℕ → Event → Bool
is_acked name seqs e = text_eq e.subscription name && exists (λ i. i == e.seq) seqs

abbrev pub seqs_of : List TaskEvent → List ℕ
seqs_of = map (λ (e : TaskEvent). e.seq)

-- `Batch.ack`: `none` is its `RuntimeError`.
unfoldable pub ack : Batch → Db → Option (Batch × Db)
ack b db =
    if b.active
    then some (
      record b { active = false },
      record db { events = keep (λ e. not (is_acked b.name (seqs_of b.events) e)) db.events },
    )
    else none

-- `_backfill`, behind the wait for older transactions: the chunks, each on the tables that the others
-- have left; `none` where the fuel ends before the walk.
unfoldable pub backfill : (ℕ → Db → Db) → ℕ → String → ℕ → ℕ → ℕ → Db → Option (Bool × Db)
backfill others now name generation limit zero db = none
backfill others now name generation limit (suc fuel) db =
    let done = backfill_chunk now name generation limit (others fuel db) in
    let later = backfill others now name generation limit fuel done.1 in
    elim done.0 [
      | none ↦ some (false, done.1)
      | some (count, true) ↦ later
      | some (count, false) ↦ some (true, done.1)
    ]

unfoldable pub unsubscribe : String → Db → Db
unsubscribe name db = record db {
  subscriptions = keep (λ (s : Subscription). not (text_eq s.name name)) db.subscriptions;
  events = keep (λ (e : Event). not (text_eq e.subscription name)) db.events;
}

-- `[State(s).value for s in states]`; `none` is a name that is no state.
abbrev pub check_states : List (Option State) → Result (List State)
check_states [] = ok []
check_states (none ∷ ss) = err invalid_input
check_states (some s ∷ ss) = do rest ← check_states ss; ok (s ∷ rest)

abbrev pub check_names : List String → Result (Unit {0})
check_names [] = ok tt
check_names (t ∷ ts) = do check_name t; check_names ts

abbrev pub names_of : Option (List String) → List String
names_of none = []
names_of (some ts) = ts

-- What `subscribe` checks before it connects: the states and the window that it registers.
unfoldable pub check_subscription :
    String → List (Option State) → Option (List String) → ℕ → Request → Result (List State × Window)
check_subscription name states types batch_size backfill = do
  check_name name
  selected ← check_states states
  check_names (names_of types)
  guard (leb 1 batch_size && leb batch_size 1000) invalid_input
  window ← normalize_backfill backfill
  ok (selected, window)

-- The feed that `subscribe` yields; it is closed at once where the backfill has stopped.
abbrev pub open_feed : String → Subscription → Bool → ℕ → Feed
open_feed name registration ready batch_size = record {
  name = name;
  generation = registration.generation;
  batch_size = batch_size;
  closed = not ready;
  batch = none;
}
