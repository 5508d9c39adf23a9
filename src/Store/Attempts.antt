-- ===== src/Store/Attempts.antt =====
-- The claim's final statement, and the fenced writes of a running attempt: `claim`, `heartbeat`,
-- `set_progress`, `complete` and `release_orphans` of src/fronta/store.py.
pub mod Effects
pub mod Outcomes
use fronta.Prelude.{
  ℕ, suc, ◌+◌, Bool, true, false, not, ◌&&◌, ◌||◌, Option, none, some, String, List, [], ◌∷◌, map,
  ltb, ◌==◌, text_eq, find, exists, keep, take, length, filter_map, if◌then◌else◌, is_some,
}
use fronta.Errors.{invalid_input, Result, ok, err}
use fronta.Model.{State, queued, running, Completion, release, same_state}
use fronta.Store.Row.{Task, settle, settles, admit, renew, store_progress, fenced}
use fronta.Store.Tables.{Db, transition, update_rows}

-- The rows that an admission has chosen, `v_ids`: the fresh token of each chosen row.
abbrev pub Chosen : Type 0
Chosen = List (ℕ × ℕ)

abbrev pub token_for : Chosen → ℕ → Option ℕ
token_for [] id = none
token_for ((i, token) ∷ rest) id = if i == id then some token else token_for rest id

-- `WHERE t.id = ANY(v_ids) AND t.state = 'queued'`
unfoldable pub admitted : ℕ → ℕ → String → Chosen → Task → Option Task
admitted now until worker chosen t =
    if same_state t.state queued
    then elim (token_for chosen t.id) [
      | none ↦ none
      | some token ↦ some (admit now until token worker t)
    ]
    else none

-- `RETURN QUERY` of claim.sql. `clock` is `clock_timestamp()` behind the locks.
unfoldable pub admit_chosen : ℕ → ℕ → ℕ → String → Chosen → Db → Db × List Task
admit_chosen now clock lease worker chosen db =
    transition now (admitted now (clock + lease) worker chosen) db

-- `dict(rows)`: the answer for an id.
abbrev pub Beats : Type 0
Beats = List (ℕ × Option ℕ)

abbrev pub renews : List (ℕ × ℕ) → Task → Bool
renews renewals t = exists (λ (r : ℕ × ℕ). r.0 == t.id && fenced r.1 t) renewals

unfoldable pub renewed : ℕ → List (ℕ × ℕ) → Task → Option Task
renewed until renewals t = if renews renewals t then some (renew until t) else none

unfoldable pub heartbeat : ℕ → ℕ → List (ℕ × ℕ) → Db → Result (Db × Beats)
heartbeat clock lease renewals db =
    if ltb 1000 (length renewals)
    then err invalid_input
    else let f = renewed (clock + lease) renewals in
      ok (
        record db { tasks = update_rows f db.tasks },
        map (λ (t : Task). (t.id, t.cancel_requested_at)) (filter_map f db.tasks),
      )

unfoldable pub progressed : ℕ → ℕ → String → Task → Option Task
progressed id token text t =
    if t.id == id && fenced token t then some (store_progress text t) else none

-- The answer is `cur.rowcount == 1`.
unfoldable pub set_progress : ℕ → ℕ → String → Db → Db × Bool
set_progress id token text db =
    let f = progressed id token text in
    (record db { tasks = update_rows f db.tasks }, length (filter_map f db.tasks) == 1)

-- The outcome that joins with a row.
abbrev pub outcome_for : List Completion → Task → Option Completion
outcome_for completions t =
    find (λ (c : Completion). c.id == t.id && settles c.token c.kind t) completions

unfoldable pub settled : ℕ → (ℕ → ℕ) → List Completion → Task → Option Task
settled now draw completions t = elim (outcome_for completions t) [
  | none ↦ none
  | some c ↦ some (settle now (draw t.id) c.kind c.body t)
]

-- `_COMPLETE`, with the rows that it returns.
unfoldable pub complete_rows : ℕ → (ℕ → ℕ) → List Completion → Db → Db × List Task
complete_rows now draw completions db = transition now (settled now draw completions) db

abbrev pub distinct_ids : List Completion → Bool
distinct_ids [] = true
distinct_ids (c ∷ rest) = not (exists (λ (d : Completion). d.id == c.id) rest) && distinct_ids rest

abbrev pub states_of : List Task → List (ℕ × State)
states_of = map (λ t. (t.id, t.state))

-- The early return for no completions is the empty batch.
unfoldable pub complete : ℕ → (ℕ → ℕ) → List Completion → Db → Result (Db × List (ℕ × State))
complete now draw [] db = ok (db, [])
complete now draw (c ∷ rest) db =
    if ltb 256 (length (c ∷ rest)) || not (distinct_ids (c ∷ rest))
    then err invalid_input
    else let (db', applied) = complete_rows now draw (c ∷ rest) db in ok (db', states_of applied)

-- The outcomes of `_ORPHANS`: rows of this worker that no live attempt owns. Rows stand newest first,
-- so the least ids are taken from the end.
orphan_of : String → List ℕ → Task → Option Completion
orphan_of worker live t =
    if same_state t.state running
      && elim t.worker [ none ↦ false | some w ↦ text_eq w worker ]
      && not (exists (λ id. id == t.id) live)
    then elim t.token [
      | none ↦ none
      | some token ↦ some (record { id = t.id; token = token; kind = release; body = none })
    ]
    else none

-- The last `n` elements.
abbrev pub take_last {ℓ} : {A : Type ℓ} → ℕ → List A → List A
take_last n [] = []
take_last n (x ∷ xs) = let rest = take_last n xs in if ltb (length xs) n then x ∷ xs else rest

unfoldable pub orphans : String → List ℕ → Db → List Completion
unfolding orphan_of
orphans worker live db = take_last 256 (filter_map (orphan_of worker live) db.tasks)

unfoldable pub release_orphans : ℕ → (ℕ → ℕ) → String → List ℕ → Db → Db × List (ℕ × String × State)
release_orphans now draw worker live db =
    let (db', applied) = complete_rows now draw (orphans worker live db) db in
    (db', map (λ (t : Task). (t.id, t.type, t.state)) applied)
