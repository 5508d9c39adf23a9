-- ===== src/Feed/Examples.antt =====
-- Tests of the feed, and its theorems at concrete tables.
use fronta.Prelude.{ℕ, ◌≡◌, true, not, none, some, String, [], ◌∷◌, keep, take, drop, map, arith}
use fronta.Model.{failed, succeeded}
use fronta.Store.Row.{Task}
use fronta.Store.Tables.{Event, Backfill, Subscription, Db, init}
use fronta.Feed.{register_subscription, all_tasks}
use fronta.Feed.Consumer.{Batch, task_event, ack}
use fronta.Feed.Acks.{is_mine, ack-exact}

abbrev event : ℕ → String → Event
event seq name = record {
  seq = seq;
  subscription = name;
  task_id = seq;
  type = "mail";
  state = failed;
  attempt = 1;
  created_at = 5;
}

abbrev some_events : Db
some_events = record init { events = event 1 "a" ∷ event 2 "b" ∷ event 3 "a" ∷ []; next_seq = 4 }

abbrev registered : Db
registered = (register_subscription 9 77 "a" (failed ∷ succeeded ∷ []) none all_tasks some_events).0

-- Two failed tasks of the registered tables, of which a chunk of one projects the older one.
abbrev failed_task : ℕ → Task
failed_task id = record {
  id = id;
  type = "mail";
  state = failed;
  priority = 5;
  key = none;
  concurrency_key = none;
  input = "{}";
  result = none;
  error = none;
  progress = none;
  attempt = 1;
  failures = 1;
  max_attempts = 1;
  attempt_timeout = 10;
  backoff = record { base = 1; factor = 1000; cap = 10 };
  token = none;
  lease_until = none;
  worker = none;
  cancel_requested_at = none;
  created_at = 1;
  run_at = 1;
  started_at = some 2;
  finished_at = some 3;
  metadata = none;
}

abbrev with_tasks : Db
with_tasks = record registered { tasks = failed_task 2 ∷ failed_task 1 ∷ []; next_id = 3 }

abbrev mine : Subscription
mine = record {
  name = "a";
  states = failed ∷ succeeded ∷ [];
  types = none;
  backfill = some (record { since = none; pending = (failed, 0) ∷ (succeeded, 0) ∷ [] });
  generation = 77;
}

abbrev mine_marker : Backfill
mine_marker = record { since = none; pending = (failed, 0) ∷ (succeeded, 0) ∷ [] }

ack-exact_example :
    let b : Batch = record {
      name = "a";
      events = map task_event (take 1 (keep (is_mine "a") some_events.events));
      active = true;
    } in
    (b' : Batch) × (db' : Db) × (ack b some_events ≡ some (b', db'))
    × (keep (is_mine "a") db'.events ≡ drop 1 (keep (is_mine "a") some_events.events))
    × (keep (λ e. not (is_mine "a" e)) db'.events
        ≡ keep (λ e. not (is_mine "a" e)) some_events.events)
    × (ack b' db' ≡ none)
ack-exact_example =
    ack-exact "a" 1 0 4 some_events (omega arith, (omega arith, (omega arith, omega arith)))
