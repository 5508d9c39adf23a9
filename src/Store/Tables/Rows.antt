-- ===== src/Store/Tables/Rows.antt =====
-- What an UPDATE and the events that it publishes do to the rows.
use fronta.Prelude.{ℕ, ◌≡◌, refl, ap, Option, none, List, [], ◌∷◌, All, filter_map}
use fronta.Store.Row.{Task}
use fronta.Store.Tables.{Db, updated, update_rows, publish, transition}

pub tasks-publish :
    (now : ℕ) (applied : List Task) (db : Db) → (publish now applied db).tasks ≡ db.tasks
unfolding publish
tasks-publish now [] db = refl
tasks-publish now (t ∷ rest) db = tasks-publish now rest _

pub tasks-transition :
    (now : ℕ) (f : Task → Option Task) (db : Db)
    → (transition now f db).0.tasks ≡ update_rows f db.tasks
unfolding transition
tasks-transition now f db = tasks-publish now (filter_map f db.tasks) _

-- An update that selects no row changes nothing and returns nothing.
pub update_rows-none :
    (f : Task → Option Task) (ts : List Task)
    → All (λ t. f t ≡ none) ts
    → (update_rows f ts ≡ ts) × (filter_map f ts ≡ [])
update_rows-none f [] h = (refl, refl)
update_rows-none f (t ∷ ts) h =
    let (same, nil) = update_rows-none f ts h.1 in
    (rw (h.0, updated) (ap (λ r. t ∷ r) same), rw (h.0, filter_map) nil)
