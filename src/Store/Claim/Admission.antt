-- ===== src/Store/Claim/Admission.antt =====
-- The admission loop of src/fronta/claim.sql, `fronta.claim`. Lists that the function appends to stand
-- newest first, and its parallel arrays are lists of records.
use fronta.Prelude.{
  ℕ, ◌+◌, ◌-◌, min, Bool, true, false, not, ◌&&◌, ◌||◌, Option, none, some, String, List, [], ◌∷◌,
  ltb, leb, ◌==◌, text_eq, is_some, exists, find, count, length, if◌then◌else◌,
}
use fronta.Model.{queued, same_state}
use fronta.Store.Row.{Task}
use fronta.Store.Tables.{Db, TaskType, get_task_type}
use fronta.Store.Attempts.{admit_chosen}
use fronta.Store.Claim.{Candidate, candidates, full, key_is, running_of, running_with}

-- `v_types`, `v_limits`, `v_key_limits` and `v_counts`
pub record Entry : Type 0 where
  pub type : String
  pub limit : Option ℕ
  pub key_limit : Option ℕ
  pub count : ℕ

-- The variables of the function; `chosen` is `v_ids`, `v_reserved_types` and `v_keys`.
pub record Admission : Type 0 where
  pub entries : List Entry
  pub chosen : List Candidate
  pub skip : List ℕ
  pub skip_types : List String
  pub skip_keys : List (String × String)
  pub bytes : ℕ

abbrev pub nothing_chosen : Admission
nothing_chosen = record {
  entries = [];
  chosen = [];
  skip = [];
  skip_types = [];
  skip_keys = [];
  bytes = 0;
}

-- What the statements for one candidate meet: the row that `locked` holds, the tables in their snapshot,
-- whether `FOR SHARE` and `FOR UPDATE` get the lock of the type, and the clock against the deadline.
pub record Look : Type 0 where
  pub locked : Option Task
  pub db : Db
  pub now : ℕ
  pub shared : Bool
  pub exclusive : Bool
  pub late : Bool

-- `l.id IS NOT NULL AND l.state = 'queued' AND l.type = c.type AND l.run_at <= now()`
abbrev pub usable : ℕ → Candidate → Option Task → Bool
usable now c none = false
usable now c (some t) = same_state t.state queued && text_eq t.type c.type && leb t.run_at now

abbrev pub find_entry : String → List Entry → Option Entry
find_entry type [] = none
find_entry type (e ∷ es) =
    let rest = find_entry type es in if text_eq e.type type then some e else rest

-- `SELECT ... FROM fronta.task_types ... SKIP LOCKED`
abbrev pub read_type : Bool → String → Db → Option TaskType
read_type free type db = if free then get_task_type type db else none

abbrev pub entry_of : Look → String → Option TaskType → Option Entry
entry_of look type none = none
entry_of look type (some ty) =
    if ty.paused
    then none
    else some (record {
      type = type;
      limit = ty.max_concurrency;
      key_limit = ty.max_concurrency_per_key;
      count = if is_some ty.max_concurrency then running_of type look.db else 0;
    })

-- The second read where the first one, under the shared lock, shows a limit.
abbrev pub upgrade : Look → String → Option TaskType → Option TaskType
upgrade look type none = none
upgrade look type (some ty) =
    if is_some ty.max_concurrency || is_some ty.max_concurrency_per_key
    then read_type look.exclusive type look.db
    else some ty

-- The first candidate of a type: `none` puts the type among the skipped ones.
unfoldable pub open_type : Look → Candidate → Option Entry
open_type look c = entry_of look c.type (
    if c.limited
    then read_type look.exclusive c.type look.db
    else upgrade look c.type (read_type look.shared c.type look.db))

abbrev pub skip_type : Candidate → Admission → Admission
skip_type c a = record a { skip_types = c.type ∷ a.skip_types }

-- Candidates of a type and a key.
abbrev pub reserves : String → String → Candidate → Bool
reserves type key c = text_eq c.type type && key_is c.concurrency_key key

abbrev pub key_full : Look → Option ℕ → String → Option String → List Candidate → Bool
key_full look limit type none chosen = false
key_full look limit type (some key) chosen =
    full limit (running_with type key look.db + count (reserves type key) chosen)

abbrev pub skip_key : Candidate → Option String → Admission → Admission
skip_key c none a = a
skip_key c (some key) a = record a { skip_keys = (c.type, key) ∷ a.skip_keys }

-- `v_counts[v_index] := v_counts[v_index] + 1`
abbrev pub bump : String → List Entry → List Entry
bump type [] = []
bump type (e ∷ es) =
    let rest = bump type es in
    if text_eq e.type type then record e { count = e.count + 1 } ∷ es else e ∷ rest

abbrev pub most_bytes : ℕ
most_bytes = 524288

unfoldable pub add_candidate : Candidate → Admission → Admission
add_candidate c a = record a {
  entries = bump c.type a.entries;
  chosen = c ∷ a.chosen;
  bytes = a.bytes + c.bytes;
}

-- The limits of the type and of the key, the byte limit, and the admission; true leaves the loop `admission`.
unfoldable pub judge : ℕ → Look → Candidate → Entry → Admission → Admission × Bool
unfolding add_candidate
judge most look c e a =
    if full e.limit e.count
    then (skip_type c a, false)
    else if key_full look e.key_limit c.type c.concurrency_key a.chosen
    then (skip_key c c.concurrency_key a, false)
    else if ltb 0 (length a.chosen) && ltb most_bytes (a.bytes + c.bytes)
    then (a, true)
    else (add_candidate c a, leb most (length a.chosen + 1) || look.late)

abbrev pub with_opened : ℕ → Look → Candidate → Admission → Option Entry → Admission × Bool
with_opened most look c a none = (skip_type c a, false)
with_opened most look c a (some e) = judge most look c e (record a { entries = e ∷ a.entries })

abbrev pub with_entry : ℕ → Look → Candidate → Admission → Option Entry → Admission × Bool
with_entry most look c a none = with_opened most look c a (open_type look c)
with_entry most look c a (some e) = judge most look c e a

-- One turn of the inner loop.
unfoldable pub consider : ℕ → Look → Candidate → Admission → Admission × Bool
unfolding judge
consider most look c a =
    let a' = record a { skip = c.id ∷ a.skip } in
    if not (usable look.now c look.locked) || exists (text_eq c.type) a.skip_types
    then (a', false)
    else with_entry most look c a' (find_entry c.type a.entries)

unfoldable pub consider_all : ℕ → (ℕ → Look) → List Candidate → Admission → Admission × Bool
unfolding consider
consider_all most look [] a = (a, false)
consider_all most look (c ∷ cs) a =
    let done = consider most (look c.id) c a in
    let later = consider_all most look cs done.0 in if done.1 then done else later

-- A round of the outer loop: the snapshot and the locks of its search, what each candidate then meets, and
-- the clock behind the round.
pub record ClaimRound : Type 0 where
  pub db : Db
  pub now : ℕ
  pub busy : ℕ → Bool
  pub look : ℕ → Look
  pub late : Bool

unfoldable pub found : (String → ℕ) → List String → ℕ → ClaimRound → Admission → List Candidate
unfolding candidates
found size types most r a =
    candidates size
      (record {
        types = types;
        skip = a.skip;
        skip_types = a.skip_types;
        skip_keys = a.skip_keys;
        count = most - length a.chosen;
      })
      r.now r.busy r.db

-- The loop `admission` over the rounds that it meets; `none` if it wants another one.
unfoldable pub admission :
    (String → ℕ) → List String → ℕ → List ClaimRound → Admission → Option Admission
unfolding found consider_all
admission size types most [] a = none
admission size types most (r ∷ rs) a =
    let cs = found size types most r a in
    let done = consider_all most r.look cs a in
    let later = admission size types most rs done.0 in
    if done.1 then some done.0 else if length cs == 0 || r.late then some done.0 else later

-- `v_cap`
abbrev pub most_rows : ℕ → ℕ
most_rows asked = min asked 256

-- `ORDER BY array_position(v_ids, applied.id)`
abbrev pub oldest_first : List Task → List Candidate → List Task → List Task
oldest_first applied [] done = done
oldest_first applied (c ∷ cs) done =
    oldest_first applied cs
      (elim (find (λ (t : Task). t.id == c.id) applied) [ none ↦ done | some t ↦ t ∷ done ])

abbrev pub tokens_for : (ℕ → ℕ) → List Candidate → List (ℕ × ℕ)
tokens_for token [] = []
tokens_for token (c ∷ cs) = (c.id, token c.id) ∷ tokens_for token cs

-- The final statement for an admission; `token` is `gen_random_uuid()` for a row.
unfoldable pub apply_admission : ℕ → ℕ → ℕ → String → (ℕ → ℕ) → Db → Admission → Db × List Task
apply_admission now clock lease worker token db a =
    let applied = admit_chosen now clock lease worker (tokens_for token a.chosen) db in
    (applied.0, oldest_first applied.1 a.chosen [])

-- `fronta.claim`; `db` is the snapshot of the final statement.
unfoldable pub claim :
    (String → ℕ)
    → List String
    → ℕ
    → List ClaimRound
    → ℕ
    → ℕ
    → ℕ
    → String
    → (ℕ → ℕ)
    → Db
    → Option (Db × List Task)
unfolding admission apply_admission
claim size types asked rounds now clock lease worker token db =
    if ltb asked 1
    then some (db, [])
    else elim (admission size types (most_rows asked) rounds nothing_chosen) [
      | none ↦ none
      | some a ↦ some (apply_admission now clock lease worker token db a)
    ]
