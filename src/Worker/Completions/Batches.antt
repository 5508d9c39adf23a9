-- ===== src/Worker/Completions/Batches.antt =====
-- The batches that the queue forms.
use fronta.Prelude.{
  ℕ, zero, suc, ◌≤◌, ◌≡◌, refl, Bool, true, false, List, [], ◌∷◌, ◌++◌, exists, length, All, arith,
  ◌==◌, Bool-cases, inl, inr,
}
use fronta.Errors.{is_ok}
use fronta.Model.{Completion}
use fronta.Store.Tables.{Db}
use fronta.Store.Attempts.{complete, distinct_ids}
use fronta.Worker.Completions.{Waiting, take_batch, active}

pub take_batch-splits :
    (room : ℕ) (ids : List ℕ) (ws : List Waiting)
    → (take_batch room ids ws).0 ++ (take_batch room ids ws).1 ≡ ws
take_batch-splits room ids [] = refl
take_batch-splits zero ids (w ∷ ws) = refl
take_batch-splits (suc room) ids (w ∷ ws) =
    ground (arith, take_batch-splits room (w.completion.id ∷ ids) ws)

take_batch-length :
    (room : ℕ) (ids : List ℕ) (ws : List Waiting) → length (take_batch room ids ws).0 ≤ room
take_batch-length room ids [] = omega arith
take_batch-length zero ids (w ∷ ws) = omega arith
take_batch-length (suc room) ids (w ∷ ws) =
    ground (arith, take_batch-length room (w.completion.id ∷ ids) ws)

-- The batch has no id of `ids`.
abbrev Avoids : List ℕ → List Waiting → Type 0
Avoids ids = All (λ (w : Waiting). exists (λ id. id == w.completion.id) ids ≡ false)

Avoids-weaken : (i : ℕ) (ids : List ℕ) (ws : List Waiting) → Avoids (i ∷ ids) ws → Avoids ids ws
Avoids-weaken i ids [] h = tt
Avoids-weaken i ids (w ∷ ws) h = (ground arith, Avoids-weaken i ids ws h.1)

take_batch-Avoids :
    (room : ℕ) (ids : List ℕ) (ws : List Waiting) → Avoids ids (take_batch room ids ws).0
take_batch-Avoids room ids [] = tt
take_batch-Avoids zero ids (w ∷ ws) = tt
take_batch-Avoids (suc room) ids (w ∷ ws) =
    elim (Bool-cases (exists (λ id. id == w.completion.id) ids)) [
      | inl e ↦ rw e tt
      | inr e ↦ rw e (
        e,
        Avoids-weaken w.completion.id ids _ (take_batch-Avoids room (w.completion.id ∷ ids) ws),
      )
    ]

absent_active :
    (i : ℕ) (ids : List ℕ) (gone : ℕ → Bool) (ws : List Waiting)
    → Avoids (i ∷ ids) ws
    → exists (λ (d : Completion). d.id == i) (active gone ws) ≡ false
absent_active i ids gone [] h = refl
absent_active i ids gone (w ∷ ws) h = ground (arith, absent_active i ids gone ws h.1)

take_batch-distinct :
    (gone : ℕ → Bool) (room : ℕ) (ids : List ℕ) (ws : List Waiting)
    → distinct_ids (active gone (take_batch room ids ws).0) ≡ true
take_batch-distinct gone room ids [] = refl
take_batch-distinct gone zero ids (w ∷ ws) = refl
take_batch-distinct gone (suc room) ids (w ∷ ws) =
    let inner = take_batch-distinct gone room (w.completion.id ∷ ids) ws in
    let apart =
      absent_active w.completion.id ids gone (take_batch room (w.completion.id ∷ ids) ws).0
        (take_batch-Avoids room (w.completion.id ∷ ids) ws) in
    ground (arith, inner, apart)

length-active : (gone : ℕ → Bool) (ws : List Waiting) → length (active gone ws) ≤ length ws
length-active gone [] = omega arith
length-active gone (w ∷ ws) = ground (arith, length-active gone ws)

complete-accepts :
    (now : ℕ) (draw : ℕ → ℕ) (cs : List Completion) (db : Db)
    → length cs ≤ 256
    → distinct_ids cs ≡ true
    → is_ok (complete now draw cs db) ≡ true
unfolding complete
complete-accepts now draw [] db h d = refl
complete-accepts now draw (c ∷ cs) db h d = ground arith

pub take_batch-nonempty : (ws : List Waiting) → 1 ≤ length ws → 1 ≤ length (take_batch 256 [] ws).0
take_batch-nonempty [] h = h
take_batch-nonempty (w ∷ ws) h = omega arith

-- The database never refuses a batch that the queue forms: whatever is pending and whichever futures
-- are cancelled, it has at most 256 outcomes and no task twice. A batch and the entries left behind it
-- are the pending entries in their order, and a queue with entries always forms a batch with some.
pub take_batch-accepted :
    (gone : ℕ → Bool) (ws : List Waiting) (now : ℕ) (draw : ℕ → ℕ) (db : Db)
    → (is_ok (complete now draw (active gone (take_batch 256 [] ws).0) db) ≡ true)
      × ((take_batch 256 [] ws).0 ++ (take_batch 256 [] ws).1 ≡ ws)
      × (1 ≤ length ws → 1 ≤ length (take_batch 256 [] ws).0)
take_batch-accepted gone ws now draw db =
    let batch : List Waiting = (take_batch 256 [] ws).0 in
    (
      complete-accepts now draw (active gone batch) db
          (omega (arith, length-active gone batch, take_batch-length 256 [] ws))
          (take_batch-distinct gone 256 [] ws),
      take_batch-splits 256 [] ws,
      take_batch-nonempty ws,
    )
