-- ===== src/Store/Enqueue.antt =====
-- `enqueue` of src/fronta/store.py: the argument checks, the INSERT with its ON CONFLICT clause, and
-- the loop that runs against the transactions of other clients.
pub mod Sound
pub mod Rounds
pub mod Dedupe
use fronta.Prelude.{
  ℕ, zero, suc, ◌+◌, Bool, true, false, not, ◌&&◌, Option, none, some, String, List, [], ◌∷◌, ltb,
  leb, text_eq, find, exists, if◌then◌else◌,
}
use fronta.Errors.{invalid_input, timeout_error, Result, ok, err, guard, ◌>>=◌, ◌>>◌}
use fronta.Model.{queued}
use fronta.Model.Backoff.{Backoff}
use fronta.Codec.Text.{Text, codes, encodable, is_nul, utf8_len}
use fronta.Store.Row.{Task, is_active}
use fronta.Store.Tables.{Db, publish}

abbrev pub max_name_bytes : ℕ
max_name_bytes = 255

abbrev pub max_key_bytes : ℕ
max_key_bytes = 1024

-- A priority as its offset from `MIN_PRIORITY`; `none` stands for a value below that, for a Boolean
-- and for what is no integer.
abbrev pub max_priority : ℕ
max_priority = 0xffffffff

unfoldable pub check_text : Text → ℕ → Result (Unit {0})
check_text value max_bytes = do
  guard (not (exists is_nul value)) invalid_input
  guard (encodable value) invalid_input
  guard (leb 1 (utf8_len value) && leb (utf8_len value) max_bytes) invalid_input

unfoldable pub check_name : String → Result (Unit {0})
unfolding check_text
check_name name = check_text (codes name) max_name_bytes

unfoldable pub check_key : Option String → Result (Unit {0})
unfolding check_text
check_key none = ok tt
check_key (some value) = check_text (codes value) max_key_bytes

unfoldable pub check_priority : Option ℕ → Result ℕ
check_priority none = err invalid_input
check_priority (some p) = if leb p max_priority then ok p else err invalid_input

-- `datetime`: whether it has a time zone, and the instant.
pub record DateTime : Type 0 where
  pub aware : Bool
  pub instant : ℕ

-- `NewTask`, with the three policy columns that are stored.
pub record NewTask : Type 0 where
  pub type : String
  pub input_json : String
  pub max_attempts : ℕ
  pub attempt_timeout : ℕ
  pub backoff : Backoff
  pub priority : Option ℕ
  pub run_at : Option DateTime
  pub key : Option String
  pub concurrency_key : Option String
  pub metadata_json : Option String

check_run_at : Option DateTime → Result (Option ℕ)
check_run_at none = ok none
check_run_at (some t) = if t.aware then ok (some t.instant) else err invalid_input

-- `params`: the row that the statement would insert, but for its id and the times.
pub record Params : Type 0 where
  pub task : NewTask
  pub priority : ℕ
  pub run_at : Option ℕ

unfoldable pub checked : NewTask → Result Params
unfolding check_name check_key check_priority check_run_at
checked task = do
  check_name task.type
  check_key task.key
  check_key task.concurrency_key
  p ← check_priority task.priority
  t ← check_run_at task.run_at
  ok (record { task = task; priority = p; run_at = t })

-- A NULL key conflicts with nothing.
abbrev pub same_key : Option String → Option String → Bool
same_key (some a) (some b) = text_eq a b
same_key _ _ = false

-- The rows that the partial unique index tasks_active_key_uidx compares with (type, key).
abbrev pub is_duplicate : String → Option String → Task → Bool
is_duplicate type key t = is_active t.state && text_eq t.type type && same_key t.key key

unfoldable pub new_row : ℕ → ℕ → Params → Task
new_row now id p = record {
  id = id;
  type = p.task.type;
  state = queued;
  priority = p.priority;
  key = p.task.key;
  concurrency_key = p.task.concurrency_key;
  input = p.task.input_json;
  result = none;
  error = none;
  progress = none;
  attempt = 0;
  failures = 0;
  max_attempts = p.task.max_attempts;
  attempt_timeout = p.task.attempt_timeout;
  backoff = p.task.backoff;
  token = none;
  lease_until = none;
  worker = none;
  cancel_requested_at = none;
  created_at = now;
  run_at = elim p.run_at [ none ↦ now | some t ↦ t ];
  started_at = none;
  finished_at = none;
  metadata = p.task.metadata_json;
}

-- `_ENQUEUE`: INSERT ... ON CONFLICT (type, key) WHERE ... DO NOTHING RETURNING ...; newest first.
unfoldable pub insert : ℕ → Params → Db → Db × Option ℕ
unfolding new_row
insert now p db =
    if exists (is_duplicate p.task.type p.task.key) db.tasks
    then (db, none)
    else let t = new_row now db.next_id p in
      (
        publish now (t ∷ []) (record db { tasks = t ∷ db.tasks; next_id = suc db.next_id }),
        some t.id,
      )

found_id : Option Task → Option ℕ
found_id none = none
found_id (some t) = some t.id

-- `_FIND_ACTIVE_BY_KEY`
unfoldable pub find_active_by_key : String → Option String → Db → Option ℕ
unfolding found_id
find_active_by_key type key db = found_id (find (is_duplicate type key) db.tasks)

-- What an enqueue leaves: the tables, the answer, and the notices of a caller's open transaction.
pub record Reply : Type 0 where
  pub db : Db
  pub answer : Result ℕ
  pub notices : List (String × String)

abbrev pub wake_and_feed : Bool → String → List (String × String)
wake_and_feed false type = []
wake_and_feed true type = ("fronta_wake", type) ∷ ("fronta_feed", "queued") ∷ []

-- The conflicting row is looked up in the tables that the others have left; `none` asks for another
-- round.
after_select : Db → Option ℕ → Db × Option Reply
after_select later (some id) = (later, some (record { db = later; answer = ok id; notices = [] }))
after_select later none = (later, none)

after_insert : (Db → Db) → Bool → Params → Db × Option ℕ → Db × Option Reply
after_insert others in_transaction p (db, some id) = (
  db,
  some (record { db = db; answer = ok id; notices = wake_and_feed in_transaction p.task.type }),
)
after_insert others in_transaction p (db, none) =
    let later = others db in after_select later (find_active_by_key p.task.type p.task.key later)

-- One round: the INSERT, the transactions of others, the SELECT.
unfoldable pub attempt_insert : (Db → Db) → Bool → ℕ → Params → Db → Db × Option Reply
unfolding after_insert after_select
attempt_insert others in_transaction now p db =
    after_insert others in_transaction p (insert now p db)

-- The end of a round: `return`, the deadline, or the next round.
end_round : Bool → Db × Option Reply → Option Reply → Option Reply
end_round late (db, some r) next = some r
end_round late (db, none) next =
    if late then some (record { db = db; answer = err timeout_error; notices = [] }) else next

-- `while True`. In round `i` the INSERT runs at `now i` in the tables that the transactions `before i`
-- have left, `others i` are the transactions that commit between it and the SELECT, and the clock reads
-- `clock i` behind the SELECT. `none` means that the fuel ran out.
pub rounds :
    (ℕ → ℕ)
    → (ℕ → Db → Db)
    → (ℕ → Db → Db)
    → (ℕ → ℕ)
    → Bool
    → ℕ
    → Params
    → ℕ
    → ℕ
    → Db
    → Option Reply
unfolding end_round
rounds now before others clock in_transaction deadline p zero i db = none
rounds now before others clock in_transaction deadline p (suc fuel) i db =
    let round = attempt_insert (others i) in_transaction (now i) p (before i db) in
    let next = rounds now before others clock in_transaction deadline p fuel (i + 1) round.0 in
    end_round (ltb deadline (clock i)) round next

pub enqueue :
    (ℕ → ℕ) → (ℕ → Db → Db) → (ℕ → Db → Db) → (ℕ → ℕ) → Bool → ℕ → NewTask → ℕ → Db → Option Reply
enqueue now before others clock in_transaction deadline task fuel db = elim (checked task) [
  | err e ↦ some (record { db = db; answer = err e; notices = [] })
  | ok p ↦ rounds now before others clock in_transaction deadline p fuel 0 db
]
