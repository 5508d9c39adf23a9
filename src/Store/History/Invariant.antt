-- ===== src/Store/History/Invariant.antt =====
-- Every history keeps the tables sound.
use fronta.Prelude.{
  ℕ, ◌≡◌, refl, Bool, String, List, [], ◌∷◌, All, arith, ltb, length, not, ◌||◌, Bool-cases, inl,
  inr, exists, text_eq,
}
use fronta.Errors.{Result, ok, err, Result-cases}
use fronta.Model.{Completion}
use fronta.Store.Tables.{Db, TaskType, init}
use fronta.Store.Tables.Sound.{IsSound, update_rows-IsSound, transition-IsSound}
use fronta.Store.Enqueue.{check_name}
use fronta.Store.Enqueue.Sound.{insert-IsSound}
use fronta.Store.Attempts.{
  admit_chosen, heartbeat, set_progress, complete, complete_rows, settled, release_orphans, orphans,
  distinct_ids,
}
use fronta.Store.Attempts.Effects.{admitted-Keeps, renewed-Keeps, progressed-Keeps, settled-Keeps}
use fronta.Store.Control.{requeue, set_paused}
use fronta.Store.Control.Effects.{request_cancel-IsSound, reap-IsSound, purge_tasks-IsSound}
use fronta.Store.Control.Revival.{requeue-IsSound}
use fronta.Store.History.{
  Statement, inserts, claims, heartbeats, progresses, completes, releases, cancels, reaps, requeues,
  pauses, purges, committed, step, run, IsLegal,
}

complete_rows-IsSound :
    (now : ℕ) (draw : ℕ → ℕ) (cs : List Completion) (db : Db)
    → IsSound db
    → IsSound (complete_rows now draw cs db).0
unfolding complete_rows
complete_rows-IsSound now draw cs db s =
    transition-IsSound now (settled now draw cs) (settled-Keeps now draw cs) db s

complete-IsSound :
    (now : ℕ) (draw : ℕ → ℕ) (cs : List Completion) (db : Db)
    → IsSound db
    → IsSound (step (completes now draw cs) db)
unfolding step complete
complete-IsSound now draw [] db s = s
complete-IsSound now draw (c ∷ cs) db s =
    elim (Bool-cases (ltb 256 (length (c ∷ cs)) || not (distinct_ids (c ∷ cs)))) [
      | inl e ↦ rw e s
      | inr e ↦ rw e (complete_rows-IsSound now draw (c ∷ cs) db s)
    ]

heartbeat-IsSound :
    (clock lease : ℕ) (renewals : List (ℕ × ℕ)) (db : Db)
    → IsSound db
    → IsSound (step (heartbeats clock lease renewals) db)
unfolding step heartbeat
heartbeat-IsSound clock lease renewals db s = elim (Bool-cases (ltb 1000 (length renewals))) [
  | inl e ↦ rw e s
  | inr e ↦ rw e (update_rows-IsSound _ (renewed-Keeps _ renewals) db s)
]

requeues-IsSound : (now id : ℕ) (db : Db) → IsSound db → IsSound (step (requeues now id) db)
unfolding step
requeues-IsSound now id db s = go (requeue now id db) refl
  where
    go : (r : Result (Db × String)) → requeue now id db ≡ r → IsSound (committed (λ r. r.0) db r)
    go (ok (next, type)) e = requeue-IsSound now id db next type e s
    go (err x) e = s

pauses-IsSound :
    (name : String) (paused : Bool) (db : Db) → IsSound db → IsSound (step (pauses name paused) db)
unfolding step set_paused
pauses-IsSound name paused db s = elim (Result-cases (check_name name)) [
  | inl (_, e) ↦
      elim (Bool-cases (exists (λ (ty : TaskType). text_eq ty.name name) db.task_types)) [
        | inl known ↦
            rw (e, set_paused)
              (rw known (record { rows = s.rows; ids = s.ids; keys = s.keys; seqs = s.seqs }))
        | inr unknown ↦ rw (e, set_paused) (rw unknown s)
      ]
  | inr (_, e) ↦ rw (e, set_paused) s
]

step-IsSound : (st : Statement) (db : Db) → IsLegal st → IsSound db → IsSound (step st db)
step-IsSound (inserts now p) db h s = unfold step in insert-IsSound now p db h s
step-IsSound (claims now clock lease worker chosen) db h s =
    unfold step admit_chosen in transition-IsSound now _ (admitted-Keeps now _ worker chosen) db s
step-IsSound (heartbeats clock lease renewals) db h s = heartbeat-IsSound clock lease renewals db s
step-IsSound (progresses id token text) db h s =
    unfold step set_progress in update_rows-IsSound _ (progressed-Keeps id token text) db s
step-IsSound (completes now draw cs) db h s = complete-IsSound now draw cs db s
step-IsSound (releases now draw worker live) db h s =
    unfold step release_orphans in complete_rows-IsSound now draw (orphans worker live db) db s
step-IsSound (cancels now id) db h s = unfold step in request_cancel-IsSound now id db s
step-IsSound (reaps now draw limit) db h s = unfold step in reap-IsSound now draw limit db s
step-IsSound (requeues now id) db h s = requeues-IsSound now id db s
step-IsSound (pauses name paused) db h s = pauses-IsSound name paused db s
step-IsSound (purges before batch) db h s = unfold step in purge_tasks-IsSound before batch db s

-- Whatever statements commit, in any order and with any arguments (as long as an inserted task allows
-- at least one attempt), sound tables stay sound.
pub run-IsSound :
    (ss : List Statement) (db : Db) → All IsLegal ss → IsSound db → IsSound (run ss db)
unfolding run
run-IsSound [] db h s = s
run-IsSound (st ∷ ss) db h s = run-IsSound ss (step st db) h.1 (step-IsSound st db h.0 s)

pub init-IsSound : IsSound init
init-IsSound = record { rows = tt; ids = tt; keys = tt; seqs = omega arith }
