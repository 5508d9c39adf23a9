-- ===== src/Server/Service.antt =====
-- `Service` of src/fronta/server/service.py over the tables, `list_tasks` of src/fronta/store.py, and
-- `_STATUS_BY_ERROR` of src/fronta/server/app.py.
use fronta.Prelude.{
  ℕ, zero, suc, Bool, true, false, ◌&&◌, Option, none, some, String, List, [], ◌∷◌, ◌++◌, ltb, ◌==◌,
  text_eq, keep, take, length, if◌then◌else◌, min, max,
}
use fronta.Errors.{
  Error, Result, ok, err, unknown_task_type, task_not_found, not_cancellable, not_requeueable,
  payload_too_large, invalid_input,
}
use fronta.Model.{State, running, same_state}
use fronta.Store.Row.{Task}
use fronta.Store.Tables.{Db, get_task}
use fronta.Store.Control.{request_cancel, requeue, set_paused}

-- `TaskFilter`; a limit under one is zero.
pub record TaskFilter : Type 0 where
  pub type : Option String
  pub state : Option State
  pub key : Option String
  pub before : Option ℕ
  pub limit : ℕ

abbrev pub type_is : Option String → String → Bool
type_is none type = true
type_is (some t) type = text_eq type t

abbrev pub state_is : Option State → State → Bool
state_is none state = true
state_is (some s) state = same_state state s

abbrev pub key_is : Option String → Option String → Bool
key_is none key = true
key_is (some k) none = false
key_is (some k) (some key) = text_eq key k

abbrev pub is_before : Option ℕ → ℕ → Bool
is_before none id = true
is_before (some b) id = ltb id b

-- The conditions of `store.list_tasks`.
unfoldable pub matches : TaskFilter → Task → Bool
matches f t =
    (type_is f.type t.type && state_is f.state t.state && key_is f.key t.key)
    && is_before f.before t.id

-- `store.list_tasks`: the table stands newest first, which is `ORDER BY id DESC`.
unfoldable pub list_rows : TaskFilter → Db → List Task
unfolding matches
list_rows f db = take f.limit (keep (matches f) db.tasks)

abbrev pub last_of {ℓ} : {A : Type ℓ} → List A → Option A
last_of [] = none
last_of (x ∷ xs) = elim (last_of xs) [ none ↦ some x | some y ↦ some y ]

abbrev pub id_of : Option Task → Option ℕ
id_of none = none
id_of (some t) = some t.id

-- `Service.list_tasks`: a page and the cursor of the next one.
unfoldable pub list_tasks : ℕ → TaskFilter → Db → List Task × Option ℕ
unfolding list_rows
list_tasks page_max f db =
    let limit = min (max f.limit 1) page_max in
    let items = list_rows (record f { limit = limit }) db in
    (items, if length items == limit then id_of (last_of items) else none)

-- A client that follows `next` until there is none, over at most as many pages as the first argument says.
unfoldable pub all_pages : ℕ → ℕ → TaskFilter → Db → List Task
unfolding list_tasks
all_pages zero page_max f db = []
all_pages (suc n) page_max f db =
    let page = list_tasks page_max f db in
    page.0
    ++ elim page.1 [ none ↦ [] | some id ↦ all_pages n page_max (record f { before = some id }) db ]

-- What the server asks of `runtime.hints`.
pub data Hint : Type 0 where
  wakes feeds : String → Hint
  cancels : ℕ → Hint

-- What an operation leaves: the tables, the hints that it gives, and its answer.
pub record Reply {ℓ} (Value : Type ℓ) : Type ℓ where
  pub db : Db
  pub hints : List Hint
  pub answer : Result Value

abbrev pub cancel_answer : ℕ → Db × Option State → Reply State
cancel_answer id (db, some state) = record {
  db = db;
  hints = (if same_state state running then cancels id else feeds "cancelled") ∷ [];
  answer = ok state;
}
cancel_answer id (db, none) = record {
  db = db;
  hints = [];
  answer = elim (get_task id db) [ none ↦ err task_not_found | some t ↦ err not_cancellable ];
}

-- `Service.cancel`
unfoldable pub service_cancel : ℕ → ℕ → Db → Reply State
unfolding request_cancel get_task
service_cancel now id db = cancel_answer id (request_cancel now id db)

abbrev requeue_reply : Db → Result (Db × String) → Reply (Unit {0})
requeue_reply db (err e) = record { db = db; hints = []; answer = err e }
requeue_reply db (ok (db', type)) = record {
  db = db';
  hints = wakes type ∷ feeds "queued" ∷ [];
  answer = ok tt;
}

-- `Service.requeue`
unfoldable pub service_requeue : ℕ → ℕ → Db → Reply (Unit {0})
service_requeue now id db = requeue_reply db (requeue now id db)

-- `Service.get_task`
unfoldable pub service_get : ℕ → Db → Result Task
service_get id db = elim (get_task id db) [ none ↦ err task_not_found | some t ↦ ok t ]

abbrev paused_reply : Db → List Hint → Result Db → Reply (Unit {0})
paused_reply db hints (err e) = record { db = db; hints = []; answer = err e }
paused_reply db hints (ok db') = record { db = db'; hints = hints; answer = ok tt }

-- `Service.pause` and `Service.resume`
unfoldable pub pause : String → Db → Reply (Unit {0})
pause type db = paused_reply db [] (set_paused type true db)

unfoldable pub resume : String → Db → Reply (Unit {0})
resume type db = paused_reply db (wakes type ∷ []) (set_paused type false db)

-- `_STATUS_BY_ERROR`; an error without an entry is a 500.
abbrev pub status_of : Error → ℕ
status_of unknown_task_type = 404
status_of task_not_found = 404
status_of not_cancellable = 409
status_of not_requeueable = 409
status_of payload_too_large = 413
status_of invalid_input = 422
status_of _ = 500
