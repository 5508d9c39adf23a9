-- ===== src/Feed/Chunks.antt =====
-- A chunk of a backfill: what it projects, and what it leaves to project.
use fronta.Prelude.{
  ℕ, ◌+◌, ◌≤◌, ◌≡◌, Bool, true, false, ◌&&◌, ◌||◌, Option, none, some, String, List, [], ◌++◌,
  length, ltb, leb, keep, is_some,
}
use fronta.Model.{State, same_state}
use fronta.Store.Row.{Task, is_active}
use fronta.Store.Control.{order_by}
use fronta.Store.Tables.{Backfill, Subscription, Db, accepts}
use fronta.Feed.{events_from, find_subscription, chunk_rows, advanced}
use fronta.Feed.Cursors.{cursor, pending_of}

-- The rows that a backfill projects for a state: those of the registered types, and of the finished ones only those in
-- its window.
abbrev pub finished_since : Option ℕ → Task → Bool
finished_since none t = true
finished_since (some at) t = elim t.finished_at [ none ↦ false | some f ↦ leb at f ]

abbrev pub is_wanted : Subscription → Backfill → State → Task → Bool
is_wanted s m state t =
    same_state t.state state
    && accepts s.types t.type
    && (is_active state || finished_since m.since t)

-- What is left to project of a state behind a cursor, oldest first; without a cursor the state is done.
abbrev pub due : Subscription → Backfill → State → Option ℕ → Db → List Task
due s m state none db = []
due s m state (some after) db =
    order_by (λ (t : Task). t.id)
      (keep (λ (t : Task). ltb after t.id && is_wanted s m state t) db.tasks)

module _ (limit : ℕ) (s : Subscription) (m : Backfill) (state : State) (after : ℕ) (db : Db) where
  abbrev rows : List Task
  rows = due s m state (some after) db

-- The rows of a chunk and what is left behind it.
record IsCut (limit : ℕ) (s : Subscription) (m : Backfill) (p : State × ℕ)
    (pending : List (State × ℕ)) (db : Db) : Type 0 where
  split :
      chunk_rows limit s m p db
        ++ due s m p.0 (cursor p.0 (advanced limit (chunk_rows limit s m p db) p pending)) db
      ≡ due s m p.0 (some p.1) db
  bounded : length (chunk_rows limit s m p db) ≤ limit

-- What a chunk does for the state `p` of a marker: it adds the events of some rows, and stores a marker with which
-- exactly the other rows of the state are left.
pub record IsChunk (now limit : ℕ) (name : String) (s : Subscription) (m : Backfill) (p : State × ℕ)
    (db : Db) (answer : Option (ℕ × Bool)) (later : Db) : Type 0 where
  pub projected : List Task
  pub marker : Option Backfill
  pub answered : answer ≡ some (length projected, is_some marker)
  pub split :
      projected ++ due s m p.0 (cursor p.0 (pending_of marker)) db ≡ due s m p.0 (some p.1) db
  pub others :
      (u : State) → same_state p.0 u ≡ false → cursor u (pending_of marker) ≡ cursor u m.pending
  pub bounded : length projected ≤ limit
  pub stored : find_subscription name later.subscriptions ≡ some (record s { backfill = marker })
  pub events : later.events ≡ db.events ++ events_from now db.next_seq s.name projected
  pub numbered : later.next_seq ≡ db.next_seq + length projected
  pub tasks : later.tasks ≡ db.tasks
