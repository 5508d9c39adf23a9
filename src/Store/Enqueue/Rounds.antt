-- ===== src/Store/Enqueue/Rounds.antt =====
-- One round of `enqueue`: the INSERT, and the SELECT in the tables that the others left.
use text.Mathlib.TextPositions.{eq_refl}
use fronta.Prelude.{
  some-injective, ℕ, suc, ◌≤◌, ◌≡◌, refl, Bool, true, false, ◌&&◌, Option, none, some, String, List,
  [], ◌∷◌, arith, exists, find, ◌==◌, text_eq, Bool-cases, inl, inr,
}
use fronta.Errors.{ok, ok-injective}
use fronta.Store.Row.{Task, is_active}
use fronta.Store.Tables.{Db, publish}
use fronta.Store.Tables.Rows.{tasks-publish}
use fronta.Store.Tables.Sound.{IsSound}
use fronta.Store.Enqueue.{
  Params, Reply, is_duplicate, new_row, insert, find_active_by_key, after_select, attempt_insert,
  found_id,
}
use fronta.Store.Enqueue.Sound.{insert-IsSound}

-- An active row of the task's type has the id.
abbrev pub stands_for : String → ℕ → Task → Bool
stands_for type id t = t.id == id && (is_active t.state && text_eq t.type type)

find-stands_for :
    (type : String) (key : Option String) (ts : List Task) (t : Task)
    → find (is_duplicate type key) ts ≡ some t
    → exists (stands_for type t.id) ts ≡ true
find-stands_for type key [] t h = cc
find-stands_for type key (r ∷ ts) t h = elim (Bool-cases (is_duplicate type key r)) [
  | inl hit ↦
      let same : r ≡ t = some-injective (rw (hit, find) at h) in
      let here : stands_for type r.id r ≡ true = ground arith in rw (← same) (rw (here, exists))
  | inr miss ↦
      let later = find-stands_for type key ts t (rw (miss, find) at h) in ground (arith, later)
]

find-none :
    (type : String) (key : Option String) (ts : List Task)
    → exists (is_duplicate type key) ts ≡ false
    → find (is_duplicate type key) ts ≡ none
find-none type key [] h = refl
find-none type key (t ∷ ts) h = ground (arith, find-none type key ts)

find-some :
    (type : String) (key : Option String) (ts : List Task)
    → exists (is_duplicate type key) ts ≡ true
    → (t : Task) × (find (is_duplicate type key) ts ≡ some t)
find-some type key [] h = absurd (cc h)
find-some type key (r ∷ ts) h = elim (Bool-cases (is_duplicate type key r)) [
  | inl hit ↦ (r, rw (hit, find))
  | inr miss ↦ let (t, e) = find-some type key ts (rw (miss, exists) at h) in (t, rw (miss, find) e)
]

pub exists-find :
    (p : Task → Bool) (ts : List Task) (t : Task) → find p ts ≡ some t → exists p ts ≡ true
exists-find p [] t h = cc
exists-find p (r ∷ ts) t h = ground (arith, exists-find p ts t)

pub exists-none : (p : Task → Bool) (ts : List Task) → find p ts ≡ none → exists p ts ≡ false
exists-none p [] h = refl
exists-none p (r ∷ ts) h = ground (arith, exists-none p ts)

pub insert_taken :
    (now : ℕ) (p : Params) (db : Db)
    → exists (is_duplicate p.task.type p.task.key) db.tasks ≡ true
    → insert now p db ≡ (db, none)
unfolding insert
insert_taken now p db h = rw (h, insert)

-- The tables behind an INSERT that no active row stops.
abbrev pub grown : ℕ → Params → Db → Db
grown now p db =
    let t = new_row now db.next_id p in
    publish now (t ∷ []) (record db { tasks = t ∷ db.tasks; next_id = suc db.next_id })

pub insert_free :
    (now : ℕ) (p : Params) (db : Db)
    → exists (is_duplicate p.task.type p.task.key) db.tasks ≡ false
    → insert now p db ≡ (grown now p db, some db.next_id)
unfolding insert new_row
insert_free now p db h = rw (h, insert)

inserted_stands :
    (now : ℕ) (p : Params) (db : Db)
    → exists (stands_for p.task.type db.next_id) (grown now p db).tasks ≡ true
unfolding new_row
inserted_stands now p db = rw (tasks-publish now _ _) (ground (arith, eq_refl p.task.type))

-- The tables are sound, and an id that was answered is that of an active row of the task's type.
abbrev pub IsGood : String → Reply → Type 0
IsGood type r =
    IsSound r.db × ((id : ℕ) → r.answer ≡ ok id → exists (stands_for type id) r.db.tasks ≡ true)

abbrev pub Lands : String → Db × Option Reply → Type 0
Lands type r = IsSound r.0 × ((a : Reply) → r.1 ≡ some a → IsGood type a)

after_select-Lands :
    (p : Params) (later : Db)
    → IsSound later
    → (t : Option Task) → find (is_duplicate p.task.type p.task.key) later.tasks ≡ t
    → Lands p.task.type (after_select later (found_id t))
unfolding after_select found_id
after_select-Lands p later s none e = (s, λ a h. absurd (cc h))
after_select-Lands p later s (some t) e = (
  s,
  λ a h. rw (← some-injective h) (
    s,
    λ id same. rw (← ok-injective same) (find-stands_for p.task.type p.task.key later.tasks t e),
  ),
)

pub attempt_insert-Lands :
    (others : Db → Db) (in_transaction : Bool) (now : ℕ) (p : Params) (db : Db)
    → 1 ≤ p.task.max_attempts
    → ((d : Db) → IsSound d → IsSound (others d))
    → IsSound db
    → Lands p.task.type (attempt_insert others in_transaction now p db)
unfolding attempt_insert find_active_by_key
attempt_insert-Lands others in_transaction now p db m keeps s =
    elim (Bool-cases (exists (is_duplicate p.task.type p.task.key) db.tasks)) [
      | inl taken ↦
          rw (insert_taken now p db taken) (after_select-Lands p (others db) (keeps db s) _ refl)
      | inr free ↦
          let sound : IsSound (grown now p db) =
            rw (insert_free now p db free) at (insert-IsSound now p db m s) in
          rw (insert_free now p db free) (
            sound,
            λ a h.
                rw (← some-injective h)
                  (sound, λ id same. rw (← ok-injective same) (inserted_stands now p db)),
          )
    ]
