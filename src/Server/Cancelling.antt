-- ===== src/Server/Cancelling.antt =====
-- `Service.cancel` of src/fronta/server/service.py in every state of the task.
use fronta.Prelude.{
  ℕ, ◌≤◌, ◌≡◌, refl, sym, ap, subst, ◌∙◌, true, false, ◌&&◌, Option, none, some, List, [], ◌∷◌,
  arith, Bool-cases, Option-cases, inl, inr, ◌==◌, find, keep, map, filter_map, if◌then◌else◌,
  if_true, if_false, some-injective,
}
use fronta.Errors.{Result, ok, err, task_not_found, not_cancellable}
use fronta.Model.{State, queued, running, cancelled, same_state}
use fronta.Store.Row.{Task, flag_cancel, is_active}
use fronta.Store.Tables.{Db, get_task, publish, update_rows, updated}
use fronta.Store.Tables.Sound.{Below, IsSound}
use fronta.Store.Tables.Rows.{tasks-publish}
use fronta.Store.Control.{request_cancel, flagged}
use fronta.Server.Service.{Hint, cancels, feeds, Reply, cancel_answer, service_cancel}

module _ (now id : ℕ) where
  none_flagged :
      (n : ℕ) (ts : List Task) → Below n ts → n ≤ id → filter_map (flagged now id) ts ≡ []
  unfolding flagged
  none_flagged n [] b h = refl
  none_flagged n (t ∷ ts) b h = ground (arith, none_flagged t.id ts b.1, b.0, h)

  none_found :
      (ts : List Task)
      → find (λ (t : Task). t.id == id) ts ≡ none
      → filter_map (flagged now id) ts ≡ []
  unfolding flagged
  none_found [] h = refl
  none_found (t ∷ ts) h = ground (arith, none_found ts, h)

  -- The rows that the statement applies to: the task, if it is active.
  abbrev hit : Task → List Task
  hit t = if is_active t.state then flag_cancel now t ∷ [] else []

  one_found :
      (n : ℕ) (ts : List Task) (t : Task)
      → Below n ts
      → find (λ (u : Task). u.id == id) ts ≡ some t
      → filter_map (flagged now id) ts ≡ hit t
  unfolding flagged
  one_found n [] t b h = absurd (cc h)
  one_found n (u ∷ us) t b h = elim (Bool-cases (u.id == id)) [
    | inl e ↦
        let rest = none_flagged u.id us b.1 (ground (arith, e)) in
        let here : filter_map (flagged now id) (u ∷ us) ≡ hit u = ground (arith, rest, e) in
        here ∙ ap hit (some-injective (sym (if_true _ _ e) ∙ h))
    | inr e ↦
        let rest = one_found u.id us t b.1 (sym (if_false _ _ e) ∙ h) in ground (arith, rest, e)
  ]

  nothing_hit :
      (ts : List Task) → filter_map (flagged now id) ts ≡ [] → update_rows (flagged now id) ts ≡ ts
  nothing_hit [] h = refl
  nothing_hit (t ∷ ts) h = elim (Option-cases (flagged now id t)) [
    | inl e ↦ rw (e, updated) (ap (λ z. t ∷ z) (nothing_hit ts (rw (e, filter_map) at h)))
    | inr (u, e) ↦ absurd (cc (rw (e, filter_map) at h))
  ]

  found_hit :
      (ts : List Task) (t : Task)
      → find (λ (u : Task). u.id == id) ts ≡ some t
      → is_active t.state ≡ true
      → find (λ (u : Task). u.id == id) (update_rows (flagged now id) ts) ≡ some (flag_cancel now t)
  unfolding flagged flag_cancel
  found_hit [] t h k = absurd (cc h)
  found_hit (u ∷ us) t h k = elim (Bool-cases (u.id == id)) [
    | inl e ↦
        let same : u ≡ t = some-injective (sym (if_true _ _ e) ∙ h) in
        let active : is_active u.state ≡ true =
          subst (λ (z : Task). is_active z.state ≡ true) (sym same) k in
        let selected : (u.id == id && is_active u.state) ≡ true = ground (arith, e, active) in
        ap
          (λ z.
            find (λ (v : Task). v.id == id)
              (elim z [ none ↦ u | some v ↦ v ] ∷ update_rows (flagged now id) us))
          (if_true (some (flag_cancel now u)) none selected)
        ∙ if_true _ _ e
        ∙ ap (λ z. some (flag_cancel now z)) same
    | inr e ↦
        let other : (u.id == id && is_active u.state) ≡ false = ground (arith, e) in
        ap
          (λ z.
            find (λ (v : Task). v.id == id)
              (elim z [ none ↦ u | some v ↦ v ] ∷ update_rows (flagged now id) us))
          (if_false (some (flag_cancel now u)) none other)
        ∙ if_false _ _ e
        ∙ found_hit us t (sym (if_false _ _ e) ∙ h) k
  ]

  -- The reply, from the rows that the statement returns.
  abbrev reply : Db → List Task → Reply State
  reply db applied = cancel_answer id (
    publish now (keep (λ (t : Task). same_state t.state cancelled) applied)
        (record db { tasks = update_rows (flagged now id) db.tasks }),
    elim applied [ [] ↦ none | t ∷ _ ↦ some t.state ],
  )

  reply-service_cancel :
      (db : Db) → service_cancel now id db ≡ reply db (filter_map (flagged now id) db.tasks)
  unfolding service_cancel request_cancel
  reply-service_cancel db = refl

  quiet :
      (db : Db)
      → filter_map (flagged now id) db.tasks ≡ []
      → service_cancel now id db ≡ record {
        db = db;
        hints = [];
        answer = elim (get_task id db) [ none ↦ err task_not_found | some t ↦ err not_cancellable ];
      }
  unfolding publish
  quiet db h =
      reply-service_cancel db
      ∙ ap (reply db) h
      ∙ ap (λ ts. cancel_answer id (record db { tasks = ts }, none)) (nothing_hit db.tasks h)

  loud :
      (db : Db) (t : Task)
      → is_active t.state ≡ true
      → get_task id db ≡ some t
      → filter_map (flagged now id) db.tasks ≡ flag_cancel now t ∷ []
      → let r = service_cancel now id db in
        (r.answer ≡ ok (flag_cancel now t).state)
        × (r.hints
            ≡ (if same_state (flag_cancel now t).state running
                then cancels id
                else feeds "cancelled")
              ∷ [])
        × (get_task id r.db ≡ some (flag_cancel now t))
        × (r.db
            ≡ publish now
                (keep (λ (u : Task). same_state u.state cancelled) (flag_cancel now t ∷ []))
                (record db { tasks = update_rows (flagged now id) db.tasks }))
  unfolding get_task
  loud db t k g h =
      let e = reply-service_cancel db ∙ ap (reply db) h in
      (
        ap (λ (r : Reply State). r.answer) e,
        ap (λ (r : Reply State). r.hints) e,
        ap (λ (r : Reply State). find (λ (u : Task). u.id == id) r.db.tasks) e
            ∙ ap (find (λ (u : Task). u.id == id)) (tasks-publish now _ _)
            ∙ found_hit db.tasks t g k,
        ap (λ (r : Reply State). r.db) e,
      )

-- The answer, the hints and the row behind a cancellation, by the row before it.
abbrev pub answer_for : Option Task → Result State
answer_for none = err task_not_found
answer_for (some t) =
    if is_active t.state
    then ok (if same_state t.state queued then cancelled else t.state)
    else err not_cancellable

abbrev pub hints_for : ℕ → Option Task → List Hint
hints_for id none = []
hints_for id (some t) =
    if is_active t.state
    then (if same_state t.state queued then feeds "cancelled" else cancels id) ∷ []
    else []

abbrev pub row_for : ℕ → Option Task → Option Task
row_for now none = none
row_for now (some t) = some (if is_active t.state then flag_cancel now t else t)

-- The tables behind a cancellation: the row is updated, and the end of a queued task is published.
abbrev pub flag_row : ℕ → ℕ → Task → Task
flag_row now id u = if u.id == id && is_active u.state then flag_cancel now u else u

abbrev pub db_for : ℕ → ℕ → Option Task → Db → Db
db_for now id none db = db
db_for now id (some t) db =
    if is_active t.state
    then publish now (if same_state t.state queued then flag_cancel now t ∷ [] else [])
        (record db { tasks = map (flag_row now id) db.tasks })
    else db

flagged_rows :
    (now id : ℕ) (ts : List Task) → update_rows (flagged now id) ts ≡ map (flag_row now id) ts
unfolding flagged
flagged_rows now id [] = refl
flagged_rows now id (t ∷ ts) = elim (Bool-cases (t.id == id && is_active t.state)) [
  | inl e ↦ rw (e, updated) (ap (λ z. flag_cancel now t ∷ z) (flagged_rows now id ts))
  | inr e ↦ rw (e, updated) (ap (λ z. t ∷ z) (flagged_rows now id ts))
]

ended_rows :
    (now : ℕ) (s : State) (t : Task)
    → t.state ≡ s
    → is_active s ≡ true
    → keep (λ (u : Task). same_state u.state cancelled) (flag_cancel now t ∷ [])
      ≡ (if same_state t.state queued then flag_cancel now t ∷ [] else [])
unfolding flag_cancel
ended_rows now queued t h k = rw h refl
ended_rows now running t h k = rw h refl
ended_rows now _ t h k = absurd (cc k)

active_db :
    (now id : ℕ) (t : Task) (db : Db)
    → is_active t.state ≡ true
    → publish now
        (keep (λ (u : Task). same_state u.state cancelled) (flag_cancel now t ∷ []))
        (record db { tasks = update_rows (flagged now id) db.tasks })
      ≡ db_for now id (some t) db
active_db now id t db k =
    ap (λ rows. publish now rows (record db { tasks = update_rows (flagged now id) db.tasks }))
      (ended_rows now t.state t refl k)
    ∙ ap
        (λ ts.
          publish now (if same_state t.state queued then flag_cancel now t ∷ [] else [])
            (record db { tasks = ts }))
        (flagged_rows now id db.tasks)
    ∙ sym (if_true _ _ k)

active_hint :
    (id : ℕ) (s : State)
    → is_active s ≡ true
    → (if same_state (if same_state s queued then cancelled else s) running
          then cancels id
          else feeds "cancelled")
        ∷ []
      ≡ (if is_active s
          then (if same_state s queued then feeds "cancelled" else cancels id) ∷ []
          else [])
active_hint id queued h = refl
active_hint id running h = refl
active_hint id _ h = absurd (cc h)

active_answer :
    (id now : ℕ) (t : Task)
    → is_active t.state ≡ true
    → (ok (flag_cancel now t).state ≡ answer_for (some t))
      × ((if same_state (flag_cancel now t).state running then cancels id else feeds "cancelled")
            ∷ []
          ≡ hints_for id (some t))
      × (some (flag_cancel now t) ≡ row_for now (some t))
unfolding flag_cancel
active_answer id now t h =
    (sym (if_true _ _ h), active_hint id t.state h, ap some (sym (if_true _ _ h)))

-- A cancellation over sound tables, in every state of the task: an unknown id is `TaskNotFound` and a finished task
-- `NotCancellable`, with the tables as they were and no hint; a queued task is cancelled at once, which is published, and
-- the feeds are told; a running one is flagged and its worker is told. No other row changes, and nothing else is
-- published.
pub service_cancel-answers :
    (now id : ℕ) (db : Db)
    → IsSound db
    → let r = service_cancel now id db in
      (r.answer ≡ answer_for (get_task id db))
      × (r.hints ≡ hints_for id (get_task id db))
      × (get_task id r.db ≡ row_for now (get_task id db))
      × (r.db ≡ db_for now id (get_task id db) db)
service_cancel-answers now id db s = elim (Option-cases (get_task id db)) [
  | inl e ↦
      let none_hit : filter_map (flagged now id) db.tasks ≡ [] =
        unfold get_task in none_found now id db.tasks e in
      let q = quiet now id db none_hit in
      (
        ap (λ (r : Reply State). r.answer) q ∙ rw e refl,
        ap (λ (r : Reply State). r.hints) q ∙ rw e refl,
        ap (λ (r : Reply State). get_task id r.db) q ∙ rw e refl,
        ap (λ (r : Reply State). r.db) q ∙ rw e refl,
      )
  | inr (t, e) ↦ elim (Bool-cases (is_active t.state)) [
    | inl k ↦
        let found : filter_map (flagged now id) db.tasks ≡ hit now id t =
          unfold get_task in one_found now id db.next_id db.tasks t s.ids e in
        let l = loud now id db t k e (found ∙ if_true _ _ k) in
        let a = active_answer id now t k in
        (
          l.0 ∙ a.0 ∙ ap answer_for (sym e),
          l.1 ∙ a.1 ∙ ap (hints_for id) (sym e),
          l.2 ∙ a.2 ∙ ap (row_for now) (sym e),
          l.3 ∙ active_db now id t db k ∙ ap (λ o. db_for now id o db) (sym e),
        )
    | inr k ↦
        let found : filter_map (flagged now id) db.tasks ≡ hit now id t =
          unfold get_task in one_found now id db.next_id db.tasks t s.ids e in
        let q = quiet now id db (found ∙ if_false _ _ k) in
        (
          ap (λ (r : Reply State). r.answer) q ∙ rw e (sym (if_false _ _ k)),
          ap (λ (r : Reply State). r.hints) q ∙ rw e (sym (if_false _ _ k)),
          ap (λ (r : Reply State). get_task id r.db) q ∙ rw e (ap some (sym (if_false _ _ k))),
          ap (λ (r : Reply State). r.db) q ∙ rw e (sym (if_false _ _ k)),
        )
  ]
]
