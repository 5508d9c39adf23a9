-- ===== src/Store/Claim.antt =====
-- The candidates of a claim: src/fronta/claim_candidate.sql. `size` is PostgreSQL's `pg_column_size`.
pub mod Admission
pub mod Bounds
pub mod Found
pub mod Steps
pub mod Limits
pub mod Concurrency
pub mod Keys
pub mod Rounds
pub mod Applied
pub mod Held
pub mod Safety
pub mod Examples
use fronta.Prelude.{
  ℕ, ◌+◌, ◌-◌, Bool, true, false, not, ◌&&◌, ◌||◌, Option, none, some, String, List, [], ◌∷◌, ◌++◌,
  ltb, leb, ◌==◌, text_eq, is_some, is_none, exists, keep, take, length, count, filter_map,
  flat_map, if◌then◌else◌,
}
use fronta.Model.{State, queued, running, same_state}
use fronta.Store.Row.{Task}
use fronta.Store.Tables.{Db, TaskType, get_task_type}

-- A row that the search has chosen, in the columns of the query.
pub record Candidate : Type 0 where
  pub id : ℕ
  pub type : String
  pub concurrency_key : Option String
  pub bytes : ℕ
  pub priority : ℕ
  pub run_at : ℕ
  pub limited : Bool

-- What the search is told: the accepted types, and what the admission has already set aside.
pub record Search : Type 0 where
  pub types : List String
  pub skip : List ℕ
  pub skip_types : List String
  pub skip_keys : List (String × String)
  pub count : ℕ

abbrev pub key_is : Option String → String → Bool
key_is none key = false
key_is (some k) key = text_eq k key

-- `r.type = ... AND r.state = 'running'`, and with the concurrency key.
abbrev pub runs_type : String → Task → Bool
runs_type type t = text_eq t.type type && same_state t.state running

abbrev pub runs_key : String → String → Task → Bool
runs_key type key t =
    (text_eq t.type type && key_is t.concurrency_key key) && same_state t.state running

unfoldable pub running_of : String → Db → ℕ
running_of type db = count (runs_type type) db.tasks

unfoldable pub running_with : String → String → Db → ℕ
running_with type key db = count (runs_key type key) db.tasks

-- A limit that `n` has reached.
abbrev pub full : Option ℕ → ℕ → Bool
full none n = false
full (some limit) n = leb limit n

abbrev pub is_limited : TaskType → Bool
is_limited ty = is_some ty.max_concurrency || is_some ty.max_concurrency_per_key

-- `eligible_types`
unfoldable pub is_eligible : Search → Db → TaskType → Bool
unfolding running_of
is_eligible s db ty =
    exists (text_eq ty.name) s.types
    && not ty.paused
    && not (exists (text_eq ty.name) s.skip_types)
    && not (full ty.max_concurrency (running_of ty.name db))

-- `saturated_keys`
abbrev pub same_key : String → String → String × String → Bool
same_key type key k = text_eq k.0 type && text_eq k.1 key

abbrev key_limit : Option TaskType → Option ℕ
key_limit none = none
key_limit (some ty) = ty.max_concurrency_per_key

unfoldable pub is_saturated : Search → Db → String → Option String → Bool
unfolding running_with
is_saturated s db type none = false
is_saturated s db type (some key) =
    (exists (text_eq type) s.types
      && full (key_limit (get_task_type type db)) (running_with type key db))
    || exists (same_key type key) s.skip_keys

-- `state = 'queued' AND run_at <= now() AND id <> ALL(skip)`, and no other transaction has the row's lock.
unfoldable pub is_open : Search → ℕ → (ℕ → Bool) → Task → Bool
is_open s now busy t =
    same_state t.state queued
    && leb t.run_at now
    && not (exists (λ i. i == t.id) s.skip)
    && not (busy t.id)

-- `ORDER BY priority DESC, run_at, id`
abbrev pub precedes : Candidate → Candidate → Bool
precedes c d =
    ltb d.priority c.priority
    || (c.priority == d.priority
        && (ltb c.run_at d.run_at || (c.run_at == d.run_at && leb c.id d.id)))

abbrev put : Candidate → List Candidate → List Candidate
put c [] = c ∷ []
put c (d ∷ ds) = let rest = put c ds in if precedes c d then c ∷ d ∷ ds else d ∷ rest

unfoldable pub in_queue_order : List Candidate → List Candidate
in_queue_order [] = []
in_queue_order (c ∷ cs) = put c (in_queue_order cs)

abbrev candidate : (String → ℕ) → Bool → Task → Candidate
candidate size limited t = record {
  id = t.id;
  type = t.type;
  concurrency_key = t.concurrency_key;
  bytes = size t.input;
  priority = t.priority;
  run_at = t.run_at;
  limited = limited;
}

abbrev candidates_of : (String → ℕ) → Bool → List Task → List Candidate
candidates_of size limited [] = []
candidates_of size limited (t ∷ ts) = candidate size limited t ∷ candidates_of size limited ts

-- `head`: the first rows of the whole queue.
unfoldable pub head : (String → ℕ) → Search → ℕ → (ℕ → Bool) → Db → List Candidate
unfolding in_queue_order is_open
head size s now busy db =
    take s.count (in_queue_order (candidates_of size false (keep (is_open s now busy) db.tasks)))

-- `JOIN eligible_types`, which says whether the type has a limit.
abbrev joined : Search → Db → Candidate → Option TaskType → Option Candidate
joined s db c none = none
joined s db c (some ty) =
    if is_eligible s db ty && not (is_saturated s db c.type c.concurrency_key)
    then some (record c { limited = is_limited ty })
    else none

unfoldable pub ready_head : (String → ℕ) → Search → ℕ → (ℕ → Bool) → Db → List Candidate
ready_head size s now busy db =
    filter_map (λ (c : Candidate). joined s db c (get_task_type c.type db))
      (head size s now busy db)

-- The per-type seek of the second branch.
unfoldable pub seek : (String → ℕ) → Search → ℕ → (ℕ → Bool) → Db → TaskType → List Candidate
unfolding is_open in_queue_order
seek size s now busy db ty = take s.count (
    in_queue_order (
      candidates_of size (is_limited ty) (
        keep
          (λ (t : Task).
            text_eq t.type ty.name
            && is_open s now busy t
            && not (is_saturated s db t.type t.concurrency_key))
          db.tasks)))

-- The bounded head of the queue where every row of it is eligible, otherwise a seek for each type.
unfoldable pub candidates : (String → ℕ) → Search → ℕ → (ℕ → Bool) → Db → List Candidate
unfolding ready_head seek in_queue_order is_eligible
candidates size s now busy db =
    let ready = ready_head size s now busy db in
    take s.count (
      in_queue_order (
        if length ready == length (head size s now busy db)
        then ready
        else flat_map (seek size s now busy db) (keep (is_eligible s db) db.task_types)))
