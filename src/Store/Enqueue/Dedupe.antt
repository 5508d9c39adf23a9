-- ===== src/Store/Enqueue/Dedupe.antt =====
-- What `enqueue` answers, alone and against other transactions.
use fronta.Prelude.{
  some-injective, ℕ, zero, suc, ◌+◌, ◌≤◌, ◌<◌, ◌≡◌, refl, ◌∙◌, Bool, true, false, Option, none,
  some, String, List, [], ◌∷◌, arith, find, exists, ltb, ◌==◌, is_some, if◌then◌else◌, ◌⊎◌,
  is_some_elim, Bool-cases, inl, inr,
}
use fronta.Errors.{ok, err, Result-cases, Error}
use fronta.Store.Row.{Task}
use fronta.Store.Tables.{Db, publish}
use fronta.Store.Tables.Rows.{tasks-publish}
use fronta.Store.Tables.Sound.{IsSound, Below}
use fronta.Store.Enqueue.{
  NewTask, Params, Reply, checked, is_duplicate, new_row, find_active_by_key, wake_and_feed,
  after_select, end_round, attempt_insert, rounds, enqueue, found_id,
}
use fronta.Store.Enqueue.Rounds.{
  exists-find, exists-none, insert_taken, grown, insert_free, IsGood, Lands, attempt_insert-Lands,
}

checked-task : (task : NewTask) (p : Params) → checked task ≡ ok p → p.task ≡ task
unfolding checked
checked-task task p h = ground arith

end_round-IsGood :
    (type : String) (late : Bool) (round : Db × Option Reply) (next : Option Reply)
    → Lands type round
    → ((r : Reply) → next ≡ some r → IsGood type r)
    → (r : Reply) → end_round late round next ≡ some r
    → IsGood type r
unfolding end_round
end_round-IsGood type late (db, some a) next lands later r h =
    rw (← some-injective h) (lands.1 a refl)
end_round-IsGood type true (db, none) next lands later r h =
    rw (← some-injective h) (lands.0, λ id e. absurd (cc e))
end_round-IsGood type false (db, none) next lands later r h = later r h

end_round_total :
    (late : Bool) (round : Db × Option Reply) (next : Option Reply)
    → (late ≡ true) ⊎ (is_some next ≡ true)
    → is_some (end_round late round next) ≡ true
unfolding end_round
end_round_total late (db, some a) next h = refl
end_round_total late (db, none) next h = ground arith

module _ (now : ℕ → ℕ) (before others : ℕ → Db → Db) (clock : ℕ → ℕ) (in_transaction : Bool)
    (deadline : ℕ) (p : Params) where
  rounds_total :
      (last : ℕ)
      → ltb deadline (clock last) ≡ true
      → (fuel i : ℕ) (db : Db) → i ≤ last
      → last < i + fuel
      → is_some (rounds now before others clock in_transaction deadline p fuel i db) ≡ true
  unfolding rounds
  rounds_total last late zero i db h k = absurd (omega arith)
  rounds_total last late (suc fuel) i db h k = elim (Bool-cases (i == last)) [
    | inl now_last ↦
        let same : last ≡ i = ground arith in end_round_total _ _ _ (inl (rw same at late))
    | inr more ↦
        end_round_total _ _ _
          (inr (rounds_total last late fuel (i + 1) _ (ground arith) (omega arith)))
  ]

  rounds-IsGood :
      1 ≤ p.task.max_attempts
      → ((i : ℕ) (d : Db) → IsSound d → IsSound (before i d))
      → ((i : ℕ) (d : Db) → IsSound d → IsSound (others i d))
      → (fuel i : ℕ) (db : Db) → IsSound db
      → (r : Reply) → rounds now before others clock in_transaction deadline p fuel i db ≡ some r
      → IsGood p.task.type r
  unfolding rounds
  rounds-IsGood m first keeps zero i db s r h = absurd (cc h)
  rounds-IsGood m first keeps (suc fuel) i db s r h =
      let lands =
        attempt_insert-Lands (others i) in_transaction (now i) p (before i db) m (keeps i)
          (first i db s) in
      end_round-IsGood p.task.type _ _ _ lands (rounds-IsGood m first keeps fuel (i + 1) _ lands.0)
        r h

module _ (now : ℕ → ℕ) (before others : ℕ → Db → Db) (clock : ℕ → ℕ) (in_transaction : Bool)
    (deadline : ℕ) (task : NewTask) (fuel : ℕ) (db : Db) where
  enqueue-checked :
      (p : Params)
      → checked task ≡ ok p
      → enqueue now before others clock in_transaction deadline task fuel db
        ≡ rounds now before others clock in_transaction deadline p fuel 0 db
  unfolding enqueue
  enqueue-checked p e = rw (e, enqueue)

  enqueue_refused :
      (x : Error)
      → checked task ≡ err x
      → enqueue now before others clock in_transaction deadline task fuel db
        ≡ some (record { db = db; answer = err x; notices = [] })
  unfolding enqueue
  enqueue_refused x e = rw (e, enqueue)

-- Against any transactions of other clients, before each INSERT and before each SELECT, that keep the tables sound, an `enqueue` whose clock
-- passes the deadline in round `last` returns within `last + 1` rounds; the tables stay sound; and
-- the id that it answers, new or found by the key, is that of an active row of the task's type.
pub enqueue_total :
    (now : ℕ → ℕ) (before others : ℕ → Db → Db) (clock : ℕ → ℕ) (in_transaction : Bool)
    (deadline last : ℕ) (task : NewTask) (db : Db)
    → 1 ≤ task.max_attempts
    → ((i : ℕ) (d : Db) → IsSound d → IsSound (before i d))
    → ((i : ℕ) (d : Db) → IsSound d → IsSound (others i d))
    → deadline < clock last
    → IsSound db
    → (r : Reply) × (enqueue now before others clock in_transaction deadline task (last + 1) db
        ≡ some r)
      × IsGood task.type r
enqueue_total now before others clock in_transaction deadline last task db m first keeps late s =
    elim (Result-cases (checked task)) [
      | inl (p, e) ↦
          let same : p.task ≡ task = checked-task task p e in
          let total =
            rounds_total now before others clock in_transaction deadline p last (ground arith)
              (last + 1) 0 db (omega arith) (omega arith) in
          let (r, found) = is_some_elim _ total in
          (
            r,
            enqueue-checked now before others clock in_transaction deadline task _ db p e ∙ found,
            rw (← same) (
                rounds-IsGood now before others clock in_transaction deadline p (rw same m) first
                  keeps (last + 1) 0 db s r found),
          )
      | inr (x, e) ↦ (
        record { db = db; answer = err x; notices = [] },
        enqueue_refused now before others clock in_transaction deadline task _ db x e,
        (s, λ id h. absurd (cc h)),
      )
    ]

found_twin :
    (p : Params) (db : Db) (in_transaction : Bool) (now : ℕ) (t : Task)
    → find (is_duplicate p.task.type p.task.key) db.tasks ≡ some t
    → attempt_insert (λ d. d) in_transaction now p db
      ≡ (db, some (record { db = db; answer = ok t.id; notices = [] }))
unfolding attempt_insert find_active_by_key
found_twin p db in_transaction now t h =
    rw (insert_taken now p db (exists-find _ db.tasks t h)) (rw (h, found_id, after_select))

no_twin :
    (p : Params) (db : Db) (in_transaction : Bool) (now : ℕ)
    → find (is_duplicate p.task.type p.task.key) db.tasks ≡ none
    → attempt_insert (λ d. d) in_transaction now p db ≡ (
      grown now p db,
      some (record {
        db = grown now p db;
        answer = ok db.next_id;
        notices = wake_and_feed in_transaction p.task.type;
      }),
    )
unfolding attempt_insert
no_twin p db in_transaction now h = rw (insert_free now p db (exists-none _ db.tasks h))

-- The next id stands for no row yet.
fresh_id :
    (id n : ℕ) (ts : List Task) → Below n ts → n ≤ id → exists (λ (t : Task). t.id == id) ts ≡ false
fresh_id id n [] b h = refl
fresh_id id n (t ∷ ts) b h = ground (arith, b.0, fresh_id id t.id ts b.1)

notices_of :
    (in_transaction : Bool) (type : String)
    → wake_and_feed in_transaction type
      ≡ (if in_transaction then ("fronta_wake", type) ∷ ("fronta_feed", "queued") ∷ [] else [])
notices_of true type = refl
notices_of false type = refl

rounds_alone :
    (now clock : ℕ → ℕ) (in_transaction : Bool) (deadline : ℕ) (p : Params) (fuel : ℕ) (db : Db)
    → IsSound db
    → let r = rounds now (λ _ d. d) (λ _ d. d) clock in_transaction deadline p (suc fuel) 0 db in
      let twin = find (is_duplicate p.task.type p.task.key) db.tasks in
      ((t : Task) → twin ≡ some t → r ≡ some (record { db = db; answer = ok t.id; notices = [] }))
      × (twin ≡ none
          → (a : Reply) × (r ≡ some a)
            × (a.answer ≡ ok db.next_id)
            × (a.db.tasks ≡ new_row (now 0) db.next_id p ∷ db.tasks)
            × (a.db.next_id ≡ suc db.next_id)
            × (exists (λ (t : Task). t.id == db.next_id) db.tasks ≡ false)
            × (a.notices ≡ (
                if in_transaction
                then ("fronta_wake", p.task.type) ∷ ("fronta_feed", "queued") ∷ []
                else [])))
unfolding rounds
rounds_alone now clock in_transaction deadline p fuel db s = (
  λ t h. rw (found_twin p db in_transaction (now 0) t h) refl,
  λ h. (
    record {
      db = grown (now 0) p db;
      answer = ok db.next_id;
      notices = wake_and_feed in_transaction p.task.type;
    },
    rw (no_twin p db in_transaction (now 0) h) refl,
    refl,
    tasks-publish (now 0) _ _,
    unfold publish in refl,
    fresh_id db.next_id db.next_id db.tasks s.ids (omega arith),
    notices_of in_transaction p.task.type,
  ),
)

-- With nothing else going on and sound tables, an `enqueue` whose arguments pass the checks answers in
-- its first round. If an active row has the task's type and key, it answers that row's id and leaves the
-- tables and the notices alone; else it answers an id that no row has yet, which then stands for a queued
-- row with the task's values, on top of the old rows, and if a transaction is open it notifies the wake
-- channel of the type and the feed channel of a queued task.
pub enqueue_alone :
    (now clock : ℕ → ℕ) (in_transaction : Bool) (deadline fuel : ℕ) (task : NewTask) (p : Params)
    (db : Db)
    → checked task ≡ ok p
    → IsSound db
    → let r = enqueue now (λ _ d. d) (λ _ d. d) clock in_transaction deadline task (suc fuel) db in
      let twin = find (is_duplicate task.type task.key) db.tasks in
      ((t : Task) → twin ≡ some t → r ≡ some (record { db = db; answer = ok t.id; notices = [] }))
      × (twin ≡ none
          → (a : Reply) × (r ≡ some a)
            × (a.answer ≡ ok db.next_id)
            × (a.db.tasks ≡ new_row (now 0) db.next_id p ∷ db.tasks)
            × (a.db.next_id ≡ suc db.next_id)
            × (exists (λ (t : Task). t.id == db.next_id) db.tasks ≡ false)
            × (a.notices ≡ (
                if in_transaction
                then ("fronta_wake", task.type) ∷ ("fronta_feed", "queued") ∷ []
                else [])))
enqueue_alone now clock in_transaction deadline fuel task p db e s =
    let same : p.task ≡ task = checked-task task p e in
    let open_rounds =
      enqueue-checked now (λ _ d. d) (λ _ d. d) clock in_transaction deadline task (suc fuel) db p
        e in
    rw (open_rounds, ← same) (rounds_alone now clock in_transaction deadline p fuel db s)
