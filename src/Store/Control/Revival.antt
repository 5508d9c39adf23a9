-- ===== src/Store/Control/Revival.antt =====
-- A requeue makes one finished row active again. The unique index lets it through only where no
-- active row has its key, so the tables stay sound.
use fronta.Prelude.{
  ℕ, ◌≤◌, ◌≡◌, refl, ap, Bool, true, false, ◌&&◌, Option, none, some, String, List, [], ◌∷◌, arith,
  exists, filter_map, All, ◌==◌, text_eq, eq_iff, Bool-cases, inl, inr, or_false, or_false_intro,
}
use fronta.Errors.{ok, ok-injective}
use fronta.Store.Row.{Task, is_active, may_requeue, reset}
use fronta.Store.Row.Valid.{IsValid, reset-IsValid}
use fronta.Store.Enqueue.{is_duplicate, same_key}
use fronta.Store.Tables.{Db, update_rows, updated, transition}
use fronta.Store.Tables.Sound.{Below, Unique, IsSound, publish-IsSound}
use fronta.Store.Control.{restarted, violates, requeue_answer, requeue}

abbrev hits : ℕ → Task → Bool
hits id t = t.id == id && may_requeue t

updated_hit :
    (now id : ℕ) (t : Task) → hits id t ≡ true → updated (restarted now id) t ≡ reset now t
unfolding restarted
updated_hit now id t h = rw (h, updated)

updated_miss : (now id : ℕ) (t : Task) → hits id t ≡ false → updated (restarted now id) t ≡ t
unfolding restarted
updated_miss now id t h = rw (h, updated)

update_rows-Below :
    (now id n : ℕ) (ts : List Task) → Below n ts → n ≤ id → update_rows (restarted now id) ts ≡ ts
unfolding restarted
update_rows-Below now id n [] b h = refl
update_rows-Below now id n (t ∷ ts) b h =
    rw (update_rows-Below now id t.id ts b.1 (omega arith)) (ground arith)

restart-IsValid :
    (now id : ℕ) (ts : List Task) → All IsValid ts → All IsValid (update_rows (restarted now id) ts)
restart-IsValid now id [] v = tt
restart-IsValid now id (t ∷ ts) v = elim (Bool-cases (hits id t)) [
  | inl e ↦
      rw (updated_hit now id t e)
        (reset-IsValid now t (ground arith) v.0, restart-IsValid now id ts v.1)
  | inr e ↦ rw (updated_miss now id t e) (v.0, restart-IsValid now id ts v.1)
]

id-reset : (now : ℕ) (t : Task) → (reset now t).id ≡ t.id
unfolding reset
id-reset now t = refl

restart-Below :
    (now id n : ℕ) (ts : List Task) → Below n ts → Below n (update_rows (restarted now id) ts)
restart-Below now id n [] b = tt
restart-Below now id n (t ∷ ts) b = elim (Bool-cases (hits id t)) [
  | inl e ↦ rw (updated_hit now id t e, id-reset now t) (b.0, restart-Below now id t.id ts b.1)
  | inr e ↦ rw (updated_miss now id t e) (b.0, restart-Below now id t.id ts b.1)
]

-- Standing for each other's key is symmetric between active rows.
same_key_symm : (a b : Option String) → same_key a b ≡ same_key b a
same_key_symm none none = refl
same_key_symm none (some b) = refl
same_key_symm (some a) none = refl
same_key_symm (some a) (some b) = ground (arith, eq_iff a b, eq_iff b a)

text_eq_symm : (a b : String) → text_eq a b ≡ text_eq b a
text_eq_symm a b = ground (arith, eq_iff a b, eq_iff b a)

clash :
    (now : ℕ) (x t : Task)
    → is_active x.state ≡ true
    → is_duplicate (reset now t).type (reset now t).key x ≡ false
    → is_duplicate x.type x.key (reset now t) ≡ false
unfolding reset
clash now x t a h = rw (text_eq_symm t.type x.type, same_key_symm t.key x.key) (rw a at h)

-- The first row that the statement returns, taken apart at the head of the table.
returned_hit :
    (now id : ℕ) (x u : Task) (xs rest : List Task)
    → hits id x ≡ true
    → filter_map (restarted now id) (x ∷ xs) ≡ u ∷ rest
    → reset now x ≡ u
unfolding restarted
returned_hit now id x u xs rest h e = ground arith

returned_miss :
    (now id : ℕ) (x u : Task) (xs rest : List Task)
    → hits id x ≡ false
    → filter_map (restarted now id) (x ∷ xs) ≡ u ∷ rest
    → filter_map (restarted now id) xs ≡ u ∷ rest
unfolding restarted
returned_miss now id x u xs rest h e = rw (h, filter_map) at e

module _ (now id : ℕ) (u : Task) (rest : List Task) where
  restart-fresh :
      (x : Task) (n : ℕ) (ts : List Task)
      → is_active x.state ≡ true
      → is_duplicate u.type u.key x ≡ false
      → Below n ts
      → filter_map (restarted now id) ts ≡ u ∷ rest
      → exists (is_duplicate x.type x.key) ts ≡ false
      → exists (is_duplicate x.type x.key) (update_rows (restarted now id) ts) ≡ false
  restart-fresh x n [] a d b e h = refl
  restart-fresh x n (t ∷ ts) a d b e h = elim (Bool-cases (hits id t)) [
    | inl hit ↦
        rw
          (
            updated_hit now id t hit,
            returned_hit now id t u ts rest hit e,
            update_rows-Below now id t.id ts b.1 (ground arith),
          )
          (or_false_intro
            (rw (returned_hit now id t u ts rest hit e) at
              (clash now x t a (rw (← returned_hit now id t u ts rest hit e) at d)))
            (or_false (is_duplicate x.type x.key t) _ h).1)
    | inr miss ↦
        let (here, later) = or_false (is_duplicate x.type x.key t) _ h in
        rw (updated_miss now id t miss) (
          or_false_intro here
            (restart-fresh x t.id ts a d b.1 (returned_miss now id t u ts rest miss e) later))
  ]

  restart-Unique :
      (n : ℕ) (ts : List Task)
      → Below n ts
      → Unique ts
      → filter_map (restarted now id) ts ≡ u ∷ rest
      → exists (is_duplicate u.type u.key) ts ≡ false
      → Unique (update_rows (restarted now id) ts)
  restart-Unique n [] b k e h = tt
  restart-Unique n (t ∷ ts) b k e h = elim (Bool-cases (hits id t)) [
    | inl hit ↦
        rw
          (
            updated_hit now id t hit,
            returned_hit now id t u ts rest hit e,
            update_rows-Below now id t.id ts b.1 (ground arith),
          )
          (λ _. (or_false (is_duplicate u.type u.key t) _ h).1, k.1)
    | inr miss ↦
        let (here, later) = or_false (is_duplicate u.type u.key t) _ h in
        rw (updated_miss now id t miss) (
          λ a. restart-fresh t t.id ts a here b.1 (returned_miss now id t u ts rest miss e) (k.0 a),
          restart-Unique t.id ts b.1 k.1 (returned_miss now id t u ts rest miss e) later,
        )
  ]

restart-IsSound :
    (now id : ℕ) (u : Task) (rest : List Task) (db : Db)
    → filter_map (restarted now id) db.tasks ≡ u ∷ rest
    → exists (is_duplicate u.type u.key) db.tasks ≡ false
    → IsSound db
    → IsSound (transition now (restarted now id) db).0
unfolding transition
restart-IsSound now id u rest db e h s = publish-IsSound now _ _ (record {
  rows = restart-IsValid now id db.tasks s.rows;
  ids = restart-Below now id db.next_id db.tasks s.ids;
  keys = restart-Unique now id u rest db.next_id db.tasks s.ids s.keys e h;
  seqs = s.seqs;
})

requeue_answer-IsSound :
    (now id : ℕ) (db next : Db) (type : String) (applied : List Task)
    → filter_map (restarted now id) db.tasks ≡ applied
    → requeue_answer now id db applied ≡ ok (next, type)
    → IsSound db
    → IsSound next
unfolding requeue_answer violates
requeue_answer-IsSound now id db next type [] a e s = absurd (ground arith)
requeue_answer-IsSound now id db next type (u ∷ rest) a e s =
    elim (Bool-cases (exists (is_duplicate u.type u.key) db.tasks)) [
      | inl taken ↦ absurd (cc (rw (taken, requeue_answer) at e))
      | inr free ↦
          let eq : (transition now (restarted now id) db).0 ≡ next =
            ap (λ r. r.0) (ok-injective (rw (free, requeue_answer) at e)) in
          rw (← eq) (restart-IsSound now id u rest db a free s)
    ]

pub requeue-IsSound :
    (now id : ℕ) (db next : Db) (type : String)
    → requeue now id db ≡ ok (next, type)
    → IsSound db
    → IsSound next
unfolding requeue
requeue-IsSound now id db next type e s = requeue_answer-IsSound now id db next type _ refl e s

-- A requeue that does not raise is the statement's update.
pub requeue-update :
    (now id : ℕ) (db next : Db) (type : String)
    → requeue now id db ≡ ok (next, type)
    → (transition now (restarted now id) db).0 ≡ next
unfolding requeue
requeue-update now id db next type e = go (filter_map (restarted now id) db.tasks) e
  where
    go :
        (applied : List Task)
        → requeue_answer now id db applied ≡ ok (next, type)
        → (transition now (restarted now id) db).0 ≡ next
    go [] a = absurd (ground arith)
    go (u ∷ rest) a = ground arith
