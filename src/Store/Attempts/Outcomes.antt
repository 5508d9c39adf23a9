-- ===== src/Store/Attempts/Outcomes.antt =====
-- What becomes of an attempt: at most one outcome, a requested cancellation, a retry.
use fronta.Prelude.{
  ℕ, ◌+◌, ◌*◌, ◌≤◌, ◌<◌, ◌≡◌, refl, ◌⊎◌, true, false, Option, none, some, String, List, [], ◌∷◌,
  All, arith, is_some, Option-cases, inl, inr,
}
use fronta.Model.{
  queued, failed, cancelled, CompletionKind, succeed, fail, fail_final, cancel, Completion,
}
use fronta.Model.Backoff
use fronta.Store.Row.{Task, encoded, lease_expired, is_active, settle, settles, expire}
use fronta.Store.Tables.{Db, updated, update_rows, publish, transition}
use fronta.Store.Tables.Rows.{tasks-transition, update_rows-none}
use fronta.Store.Attempts.{complete_rows, settled, outcome_for}

unheld : (cs : List Completion) (t : Task) → t.token ≡ none → outcome_for cs t ≡ none
unfolding settles
unheld [] t h = refl
unheld (c ∷ cs) t h = ground (arith, unheld cs t h)

token-settle :
    (now draw : ℕ) (kind : CompletionKind) (body : Option String) (t : Task)
    → (settle now draw kind body t).token ≡ none
unfolding settle
token-settle now draw kind body t = refl

module _ (now : ℕ) (draw : ℕ → ℕ) (cs : List Completion) (t : Task) where
  settled_missed : outcome_for cs t ≡ none → settled now draw cs t ≡ none
  unfolding settled
  settled_missed e = rw (e, settled)

  updated_missed : outcome_for cs t ≡ none → updated (settled now draw cs) t ≡ t
  updated_missed e = rw (settled_missed e, updated)

  updated_joined :
      (c : Completion)
      → outcome_for cs t ≡ some c
      → updated (settled now draw cs) t ≡ settle now (draw t.id) c.kind c.body t
  unfolding settled
  updated_joined c e =
      let f : settled now draw cs t ≡ some (settle now (draw t.id) c.kind c.body t) =
        rw (e, settled) in
      rw (f, updated)

settled_again :
    (now now' : ℕ) (draw draw' : ℕ → ℕ) (cs : List Completion) (t : Task)
    → settled now' draw' cs (updated (settled now draw cs) t) ≡ none
settled_again now now' draw draw' cs t = elim (Option-cases (outcome_for cs t)) [
  | inl e ↦ rw (updated_missed now draw cs t e) (settled_missed now' draw' cs t e)
  | inr (c, e) ↦
      rw (updated_joined now draw cs t c e) (
        settled_missed now' draw' cs _ (unheld cs _ (token-settle now (draw t.id) c.kind c.body t)))
]

settled_rows_again :
    (now now' : ℕ) (draw draw' : ℕ → ℕ) (cs : List Completion) (ts : List Task)
    → All (λ t. settled now' draw' cs t ≡ none) (update_rows (settled now draw cs) ts)
settled_rows_again now now' draw draw' cs [] = tt
settled_rows_again now now' draw draw' cs (t ∷ ts) =
    (settled_again now now' draw draw' cs t, settled_rows_again now now' draw draw' cs ts)

-- A batch of outcomes applies at most once: committing the same batch again, at any later time,
-- changes nothing, publishes nothing and reports no task.
pub complete_rows_twice :
    (now now' : ℕ) (draw draw' : ℕ → ℕ) (cs : List Completion) (db : Db)
    → let once = (complete_rows now draw cs db).0 in complete_rows now' draw' cs once ≡ (once, [])
unfolding complete_rows
complete_rows_twice now now' draw draw' cs db =
    let once : Db = (transition now (settled now draw cs) db).0 in
    let spared : All (λ t. settled now' draw' cs t ≡ none) once.tasks =
      rw (tasks-transition now (settled now draw cs) db)
        (settled_rows_again now now' draw draw' cs db.tasks) in
    let (same, nil) = update_rows-none (settled now' draw' cs) once.tasks spared in
    unfold transition publish in rw (same, nil)

-- A task whose cancellation was requested is not run again: an outcome that applies to it, whatever
-- its kind, leaves it in a terminal state, finished now and without a token, and cancelled unless the
-- attempt succeeded or failed for good; the expiry of its lease cancels it, finished now, and charges no
-- failure. A `cancel` outcome applies only where the cancellation was requested, and cancels.
pub cancellation_ends_task :
    (now draw token : ℕ) (kind : CompletionKind) (body : Option String) (t : Task)
    → settles token kind t ≡ true
    → let u = settle now draw kind body t in
      let v = expire now draw t in
      (is_some t.cancel_requested_at ≡ true
        → (is_active u.state ≡ false)
          × (u.finished_at ≡ some now)
          × (u.token ≡ none)
          × ((u.state ≡ cancelled) ⊎ (kind ≡ succeed) ⊎ (kind ≡ fail_final))
          × (v.state ≡ cancelled)
          × (v.finished_at ≡ some now)
          × (v.failures ≡ t.failures))
      × (kind ≡ cancel → (is_some t.cancel_requested_at ≡ true) × (u.state ≡ cancelled))
unfolding settle settles expire
cancellation_ends_task now draw token kind body t h = ground arith

expire_like_fail :
    (now draw : ℕ) (body : String) (t : Task)
    → t.cancel_requested_at ≡ none
    → expire now draw t ≡ record (settle now draw fail (some body) t) {
      error = some (lease_expired t.worker t.attempt);
    }
unfolding settle expire
expire_like_fail now draw body t h = rw h refl

-- Where no cancellation was requested, a failed attempt and an expired lease leave the same row but for
-- the stored error: the token and the lease are gone, the failure is charged, and the task is queued again exactly while
-- failures stay under `max_attempts`, to run between half of the nominal backoff and the whole of it
-- from now; else it has failed, finished now, and its schedule stays.
pub failure_retries :
    (now draw : ℕ) (body : String) (t : Task)
    → t.cancel_requested_at ≡ none
    → Backoff.IsValid t.backoff
    → draw < 1000
    → let u = settle now draw fail (some body) t in
      let v = expire now draw t in
      let wait = Backoff.nominal t.backoff t.failures in
      (u.failures ≡ t.failures + 1)
      × (v.failures ≡ t.failures + 1)
      × (v.state ≡ u.state)
      × (v.run_at ≡ u.run_at)
      × (v.finished_at ≡ u.finished_at)
      × (u.error ≡ some (encoded body))
      × (v.error ≡ some (lease_expired t.worker t.attempt))
      × (t.failures + 1 < t.max_attempts
          → (u.state ≡ queued)
            × (u.finished_at ≡ none)
            × (u.run_at ≤ now + wait)
            × (2 * now + wait ≤ 2 * u.run_at + 1))
      × (v ≡ record u { error = some (lease_expired t.worker t.attempt) })
      × (u.token ≡ none)
      × (u.lease_until ≡ none)
      × (t.max_attempts ≤ t.failures + 1
          → (u.state ≡ failed) × (u.finished_at ≡ some now) × (u.run_at ≡ t.run_at))
unfolding settle expire
failure_retries now draw body t h b d =
    let same = expire_like_fail now draw body t h in
    ground (arith, Backoff.retry_schedule t.backoff t.failures draw b d, same)
