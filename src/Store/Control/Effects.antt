-- ===== src/Store/Control/Effects.antt =====
-- Cancelling, reaping and purging revive no row; a requeue revives one, whose key no active row has.
use fronta.Prelude.{
  ℕ, ◌≤◌, ◌≡◌, refl, Bool, true, false, List, [], ◌∷◌, arith, exists, keep, All-keep, Bool-cases,
  inl, inr,
}
use fronta.Store.Row.{Task, is_active, flag_cancel, has_expired, expire}
use fronta.Store.Row.Valid.{IsValid, flag_cancel-IsValid, expire-IsValid}
use fronta.Store.Tables.{Db}
use fronta.Store.Tables.Sound.{
  Effect, Keeps, Below, Unique, IsSound, update_rows-IsSound, publish-IsSound, transition-IsSound,
}
use fronta.Store.Control.{flagged, request_cancel, reaped, reap, reap_ids, purge_tasks}

flag_cancel-Effect : (now : ℕ) (t : Task) → is_active t.state ≡ true → Effect t (flag_cancel now t)
flag_cancel-Effect now t h = record {
  id = unfold flag_cancel in refl;
  type = unfold flag_cancel in refl;
  key = unfold flag_cancel in refl;
  active = λ _. h;
  valid = flag_cancel-IsValid now t h;
}

expire-Effect : (now draw : ℕ) (t : Task) → has_expired now t ≡ true → Effect t (expire now draw t)
expire-Effect now draw t h = record {
  id = unfold expire in refl;
  type = unfold expire in refl;
  key = unfold expire in refl;
  active = unfold has_expired in λ _. ground arith;
  valid = expire-IsValid now draw t h;
}

pub flagged-Keeps : (now id : ℕ) → Keeps (flagged now id)
unfolding flagged
flagged-Keeps now id t u h =
    let eq : (flag_cancel now t ≡ u) × (is_active t.state ≡ true) = ground arith in
    rw (← eq.0) (flag_cancel-Effect now t eq.1)

pub reaped-Keeps : (now : ℕ) (draw : ℕ → ℕ) (ids : List ℕ) → Keeps (reaped now draw ids)
unfolding reaped
reaped-Keeps now draw ids t u h =
    let eq : (expire now (draw t.id) t ≡ u) × (has_expired now t ≡ true) = ground arith in
    rw (← eq.0) (expire-Effect now (draw t.id) t eq.1)

pub request_cancel-IsSound :
    (now id : ℕ) (db : Db) → IsSound db → IsSound (request_cancel now id db).0
unfolding request_cancel
request_cancel-IsSound now id db s =
    publish-IsSound now _ _ (update_rows-IsSound (flagged now id) (flagged-Keeps now id) db s)

pub reap-IsSound :
    (now : ℕ) (draw : ℕ → ℕ) (limit : ℕ) (db : Db) → IsSound db → IsSound (reap now draw limit db).0
unfolding reap
reap-IsSound now draw limit db s =
    transition-IsSound now _ (reaped-Keeps now draw (reap_ids now limit db)) db s

-- Deleting rows keeps what holds of those that stay.
keep-Below : (p : Task → Bool) (n m : ℕ) (ts : List Task) → n ≤ m → Below n ts → Below m (keep p ts)
keep-Below p n m [] h b = tt
keep-Below p n m (t ∷ ts) h b = elim (Bool-cases (p t)) [
  | inl e ↦ rw e (omega arith, keep-Below p t.id t.id ts (omega arith) b.1)
  | inr e ↦ rw e (keep-Below p t.id m ts (omega arith) b.1)
]

keep-fresh :
    (p q : Task → Bool) (ts : List Task) → exists q ts ≡ false → exists q (keep p ts) ≡ false
keep-fresh p q [] h = refl
keep-fresh p q (t ∷ ts) h = ground (arith, keep-fresh p q ts)

keep-Unique : (p : Task → Bool) (ts : List Task) → Unique ts → Unique (keep p ts)
keep-Unique p [] h = tt
keep-Unique p (t ∷ ts) h = elim (Bool-cases (p t)) [
  | inl e ↦ rw e (λ a. keep-fresh p _ ts (h.0 a), keep-Unique p ts h.1)
  | inr e ↦ rw e (keep-Unique p ts h.1)
]

pub purge_tasks-IsSound :
    (before batch : ℕ) (db : Db) → IsSound db → IsSound (purge_tasks before batch db).0
unfolding purge_tasks
purge_tasks-IsSound before batch db s = record {
  rows = All-keep IsValid _ db.tasks s.rows;
  ids = keep-Below _ db.next_id db.next_id db.tasks (omega arith) s.ids;
  keys = keep-Unique _ db.tasks s.keys;
  seqs = s.seqs;
}
