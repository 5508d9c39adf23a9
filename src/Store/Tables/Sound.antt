-- ===== src/Store/Tables/Sound.antt =====
-- What holds of the tables between transactions, and the two lemmas by which statements keep it: one
-- for an UPDATE that revives no row, one for the events that it publishes.
use fronta.Prelude.{
  ℕ, suc, ◌+◌, ◌≤◌, ◌<◌, ◌≡◌, refl, sym, Bool, true, false, ◌&&◌, Option, some, String, List, [],
  ◌∷◌, ◌++◌, arith, exists, keep, length, All, Option-cases, inl, inr, or_false, filter_map,
}
use fronta.Store.Row.{Task, is_active}
use fronta.Store.Row.Valid.{IsValid}
use fronta.Store.Enqueue.{is_duplicate}
use fronta.Store.Tables.{
  Db, Event, Subscription, wants, deliveries, publish, updated, update_rows, transition,
}

-- Ids fall along the table and stay under the next one.
abbrev pub Below : ℕ → List Task → Type 0
Below n [] = Unit {0}
Below n (t ∷ ts) = (t.id < n) × Below t.id ts

-- The partial unique index: an active row has no later active row with its type and key.
abbrev pub Unique : List Task → Type 0
Unique [] = Unit {0}
Unique (t ∷ ts) =
    (is_active t.state ≡ true → exists (is_duplicate t.type t.key) ts ≡ false) × Unique ts

-- Sequence numbers rise from `low` and stay under `high`.
abbrev pub Rising : ℕ → List Event → ℕ → Type 0
Rising low [] high = low ≤ high
Rising low (e ∷ es) high = (low ≤ e.seq) × Rising (suc e.seq) es high

pub record IsSound (db : Db) : Type 0 where
  pub rows : All IsValid db.tasks
  pub ids : Below db.next_id db.tasks
  pub keys : Unique db.tasks
  pub seqs : Rising 0 db.events db.next_seq

-- A statement's effect on a row that it selects: identity and key stay, no row is revived, and a
-- valid row stays valid.
pub record Effect (t u : Task) : Type 0 where
  pub id : u.id ≡ t.id
  pub type : u.type ≡ t.type
  pub key : u.key ≡ t.key
  pub active : is_active u.state ≡ true → is_active t.state ≡ true
  pub valid : IsValid t → IsValid u

abbrev pub Keeps : (Task → Option Task) → Type 0
Keeps f = (t u : Task) → f t ≡ some u → Effect t u

Effect-refl : (t : Task) → Effect t t
Effect-refl t = record { id = refl; type = refl; key = refl; active = λ h. h; valid = λ v. v }

and_mono : (a b c d : Bool) → (b ≡ true → a ≡ true) → (a && c && d) ≡ false → (b && c && d) ≡ false
and_mono a true c d h e = rw (h refl) at e
and_mono a false c d h e = refl

-- A row that no longer stands for another's key does not come to stand for it.
pub Effect-duplicate :
    (t u : Task) (type : String) (key : Option String)
    → Effect t u
    → is_duplicate type key t ≡ false
    → is_duplicate type key u ≡ false
Effect-duplicate t u type key e h =
    rw (e.type, e.key) (and_mono (is_active t.state) (is_active u.state) _ _ e.active h)

module _ (f : Task → Option Task) (keeps : Keeps f) where
  pub Effect-updated : (t : Task) → Effect t (updated f t)
  Effect-updated t = elim (Option-cases (f t)) [
    | inl e ↦ rw (e, updated) (Effect-refl t)
    | inr (u, e) ↦ rw (e, updated) (keeps t u e)
  ]

  pub update_rows-IsValid : (ts : List Task) → All IsValid ts → All IsValid (update_rows f ts)
  update_rows-IsValid [] v = tt
  update_rows-IsValid (t ∷ ts) v = ((Effect-updated t).valid v.0, update_rows-IsValid ts v.1)

  pub update_rows-Below : (n : ℕ) (ts : List Task) → Below n ts → Below n (update_rows f ts)
  update_rows-Below n [] b = tt
  update_rows-Below n (t ∷ ts) b = rw ((Effect-updated t).id) (b.0, update_rows-Below t.id ts b.1)

  pub update_rows-fresh :
      (type : String) (key : Option String) (ts : List Task)
      → exists (is_duplicate type key) ts ≡ false
      → exists (is_duplicate type key) (update_rows f ts) ≡ false
  update_rows-fresh type key [] h = refl
  update_rows-fresh type key (t ∷ ts) h =
      let (here, rest) = or_false (is_duplicate type key t) _ h in
      rw (Effect-duplicate t (updated f t) type key (Effect-updated t) here)
        (update_rows-fresh type key ts rest)

  pub update_rows-Unique : (ts : List Task) → Unique ts → Unique (update_rows f ts)
  update_rows-Unique [] h = tt
  update_rows-Unique (t ∷ ts) h =
      let e = Effect-updated t in
      (
        λ a. rw (e.type, e.key) (update_rows-fresh t.type t.key ts (h.0 (e.active a))),
        update_rows-Unique ts h.1,
      )

  pub update_rows-IsSound :
      (db : Db) → IsSound db → IsSound (record db { tasks = update_rows f db.tasks })
  update_rows-IsSound db s = record {
    rows = update_rows-IsValid db.tasks s.rows;
    ids = update_rows-Below db.next_id db.tasks s.ids;
    keys = update_rows-Unique db.tasks s.keys;
    seqs = s.seqs;
  }

Rising-append :
    (low mid high : ℕ) (xs ys : List Event)
    → Rising low xs mid
    → Rising mid ys high
    → Rising low (xs ++ ys) high
Rising-append low mid high [] [] h k = omega arith
Rising-append low mid high [] (y ∷ ys) h k = (omega arith, k.1)
Rising-append low mid high (x ∷ xs) ys h k = (h.0, Rising-append (suc x.seq) mid high xs ys h.1 k)

deliveries-Rising :
    (now seq : ℕ) (t : Task) (subs : List Subscription)
    → Rising seq (deliveries now seq t subs) (seq + length subs)
unfolding deliveries
deliveries-Rising now seq t [] = omega arith
deliveries-Rising now seq t (s ∷ subs) =
    (omega arith, rw (sym (shift seq (length subs))) (deliveries-Rising now (suc seq) t subs))
  where
    shift : (a b : ℕ) → suc a + b ≡ a + suc b
    shift a b = omega arith

pub publish-IsSound :
    (now : ℕ) (applied : List Task) (db : Db) → IsSound db → IsSound (publish now applied db)
unfolding publish
publish-IsSound now [] db s = s
publish-IsSound now (t ∷ rest) db s = publish-IsSound now rest _ (record {
  rows = s.rows;
  ids = s.ids;
  keys = s.keys;
  seqs =
      Rising-append 0 db.next_seq _ db.events _ s.seqs
        (deliveries-Rising now db.next_seq t (keep (wants t) db.subscriptions));
})

pub transition-IsSound :
    (now : ℕ) (f : Task → Option Task)
    → Keeps f
    → (db : Db) → IsSound db
    → IsSound (transition now f db).0
unfolding transition
transition-IsSound now f keeps db s =
    publish-IsSound now (filter_map f db.tasks) _ (update_rows-IsSound f keeps db s)
