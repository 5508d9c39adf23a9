-- ===== src/Store/Examples.antt =====
-- Tests of the tables on a short history, and the theorems at it.
use fronta.Prelude.{
  ℕ, suc, ◌+◌, ◌*◌, ◌<◌, ◌≤◌, ◌⊎◌, find, exists, ◌==◌, ◌≡◌, refl, true, false, none, some, List, [],
  ◌∷◌, arith, is_some,
}
use fronta.Errors.{ok}
use fronta.Model.{
  queued, running, succeeded, failed, cancelled, Completion, succeed, fail, fail_final, cancel,
}
use fronta.Codec.Text.{utf8_len}
use fronta.Model.Backoff.{Backoff}
use fronta.Model.Backoff
use fronta.Store.Row.{
  Task, encoded, lease_expired, is_active, may_requeue, has_expired, settle, expire, settles, admit,
}
use fronta.Store.Tables.{Db, init, get_task, publish, transition}
use fronta.Store.Tables.Sound.{IsSound}
use fronta.Store.Control.{request_cancel, requeue, reap, reap_ids, flagged, restarted, reaped}
use fronta.Store.Enqueue.{insert, NewTask, Params, checked, is_duplicate, new_row, enqueue, Reply}
use fronta.Store.Enqueue.Rounds.{IsGood}
use fronta.Store.Enqueue.Dedupe.{enqueue_total, enqueue_alone}
use fronta.Store.Attempts.{
  complete_rows, complete, heartbeat, set_progress, states_of, admit_chosen, admitted, settled,
}
use fronta.Store.Attempts.Outcomes.{complete_rows_twice, cancellation_ends_task, failure_retries}
use fronta.Store.History.{
  Statement, inserts, claims, completes, requeues, cancels, reaps, step, run,
}
use fronta.Store.History.Invariant.{run-IsSound, init-IsSound}
use fronta.Store.History.Fence.{NoToken, run-fence}
use fronta.Store.History.Results.{run_keeps_succeeded}

abbrev mail : NewTask
mail = record {
  type = "mail";
  input_json = "{}";
  max_attempts = 3;
  attempt_timeout = 60000000;
  backoff = record { base = 1000000; factor = 200; cap = 60000000 };
  priority = some 2147483648;
  run_at = none;
  key = some "k";
  concurrency_key = none;
  metadata_json = none;
}

abbrev mail_params : Params
mail_params = record { task = mail; priority = 2147483648; run_at = none }

abbrev delivered : Completion
delivered = record { id = 1; token = 77; kind = succeed; body = some "1" }

abbrev draws : ℕ → ℕ
draws id = 500

-- A task is inserted and claimed.
abbrev start_history : List Statement
start_history = inserts 10 mail_params ∷ claims 20 20 30000000 "w" ((1, 77) ∷ []) ∷ []

abbrev claimed : Db
claimed = run start_history init

-- Its outcome is committed.
abbrev settled_db : Db
settled_db = run (completes 30 draws (delivered ∷ []) ∷ []) claimed

abbrev later_history : List Statement
later_history =
    inserts 40 mail_params
    ∷ completes 50 draws (delivered ∷ [])
    ∷ cancels 60 1
    ∷ requeues 70 1
    ∷ claims 80 80 30000000 "w" ((2, 78) ∷ [])
    ∷ reaps 90 draws 100
    ∷ []

states_test : states_of (run later_history settled_db).tasks ≡ (2, running) ∷ (1, succeeded) ∷ []
unfolding run step insert new_row publish admit_chosen transition admitted admit complete
    complete_rows settled settles settle request_cancel flagged requeue reap restarted reaped
    may_requeue get_task reap_ids has_expired
states_test = refl

abbrev done : Task
done = record {
  id = 1;
  type = "mail";
  state = succeeded;
  priority = 2147483648;
  key = some "k";
  concurrency_key = none;
  input = "{}";
  result = some (encoded "1");
  error = none;
  progress = none;
  attempt = 1;
  failures = 0;
  max_attempts = 3;
  attempt_timeout = 60000000;
  backoff = mail.backoff;
  token = none;
  lease_until = none;
  worker = some "w";
  cancel_requested_at = none;
  created_at = 10;
  run_at = 10;
  started_at = some 20;
  finished_at = some 30;
  metadata = none;
}

done-found : get_task 1 settled_db ≡ some done
unfolding run step insert new_row publish admit_chosen transition admitted admit complete
    complete_rows settled settles settle get_task
done-found = refl

run-IsSound_example : IsSound (run start_history init)
run-IsSound_example = run-IsSound start_history init (omega arith, (tt, tt)) init-IsSound

settled-IsSound : IsSound settled_db
settled-IsSound =
    run-IsSound (completes 30 draws (delivered ∷ []) ∷ []) claimed (tt, tt) run-IsSound_example

run_keeps_succeeded_example :
    (get_task 1 (run later_history settled_db) ≡ some done)
    ⊎ (get_task 1 (run later_history settled_db) ≡ none)
run_keeps_succeeded_example =
    run_keeps_succeeded later_history settled_db done settled-IsSound done-found refl

settled-NoToken : NoToken 77 settled_db.tasks
unfolding run step insert new_row publish admit_chosen transition admitted admit complete
    complete_rows settled settles settle
settled-NoToken = (refl, tt)

run-fence_example :
    let later = run later_history settled_db in
    (heartbeat 95 30 ((1, 77) ∷ []) later ≡ ok (later, []))
    × (set_progress 1 77 "{}" later ≡ (later, false))
    × (complete 95 draws (delivered ∷ []) later ≡ ok (later, []))
run-fence_example =
    run-fence later_history settled_db delivered settled-NoToken refl 95 95 30 draws "{}"

complete_rows_twice_example :
    let once = (complete_rows 30 draws (delivered ∷ []) claimed).0 in
    complete_rows 31 draws (delivered ∷ []) once ≡ (once, [])
complete_rows_twice_example = complete_rows_twice 30 31 draws draws (delivered ∷ []) claimed

-- The task while it runs, with and without a requested cancellation.
abbrev in_progress : Task
in_progress = record done {
  state = running;
  result = none;
  token = some 77;
  lease_until = some 30000020;
  finished_at = none;
}

abbrev to_cancel : Task
to_cancel = record in_progress { cancel_requested_at = some 25 }

to_cancel-settles : settles 77 fail to_cancel ≡ true
unfolding settles
to_cancel-settles = refl

cancellation_ends_task_example :
    let u = settle 30 500 fail (some "{}") to_cancel in
    let v = expire 30 500 to_cancel in
    (is_some to_cancel.cancel_requested_at ≡ true
      → (is_active u.state ≡ false)
        × (u.finished_at ≡ some 30)
        × (u.token ≡ none)
        × ((u.state ≡ cancelled) ⊎ (fail ≡ succeed) ⊎ (fail ≡ fail_final))
        × (v.state ≡ cancelled)
        × (v.finished_at ≡ some 30)
        × (v.failures ≡ to_cancel.failures))
    × (fail ≡ cancel → (is_some to_cancel.cancel_requested_at ≡ true) × (u.state ≡ cancelled))
cancellation_ends_task_example =
    cancellation_ends_task 30 500 77 fail (some "{}") to_cancel to_cancel-settles

mail-IsValid : Backoff.IsValid mail.backoff
mail-IsValid = record {
  base_cap = omega arith;
  factor_low = omega arith;
  factor_high = omega arith;
  cap_high = omega arith;
}

failure_retries_example :
    let u = settle 30 500 fail (some "{}") in_progress in
    let v = expire 30 500 in_progress in
    let wait = Backoff.nominal mail.backoff 0 in
    (u.failures ≡ 1)
    × (v.failures ≡ 1)
    × (v.state ≡ u.state)
    × (v.run_at ≡ u.run_at)
    × (v.finished_at ≡ u.finished_at)
    × (u.error ≡ some (encoded "{}"))
    × (v.error ≡ some (lease_expired (some "w") 1))
    × (1 < 3
        → (u.state ≡ queued)
          × (u.finished_at ≡ none)
          × (u.run_at ≤ 30 + wait)
          × (60 + wait ≤ 2 * u.run_at + 1))
    × (v ≡ record u { error = some (lease_expired (some "w") 1) })
    × (u.token ≡ none)
    × (u.lease_until ≡ none)
    × (3 ≤ 1 → (u.state ≡ failed) × (u.finished_at ≡ some 30) × (u.run_at ≡ 10))
failure_retries_example = failure_retries 30 500 "{}" in_progress refl mail-IsValid (omega arith)

retry_schedule_example :
    (Backoff.nominal mail.backoff 0 ≡ 1000000)
    × (Backoff.nominal mail.backoff 2 ≤ Backoff.nominal mail.backoff 3)
    × (Backoff.nominal mail.backoff 2 ≤ 60000000)
    × (Backoff.delay mail.backoff 2 500 ≤ Backoff.nominal mail.backoff 2)
    × (Backoff.nominal mail.backoff 2 ≤ 2 * Backoff.delay mail.backoff 2 500 + 1)
    × (Backoff.delay mail.backoff 2 500 ≤ Backoff.max_duration)
retry_schedule_example = Backoff.retry_schedule mail.backoff 2 500 mail-IsValid (omega arith)

mail-checked : checked mail ≡ ok mail_params
unfolding checked utf8_len
mail-checked = refl

enqueue_total_example :
    (r : Reply) × (enqueue
        (λ i. 100 + i)
        (λ i d. d)
        (λ i d. d)
        (λ i. 100 * i)
        false
        150
        mail
        3
        claimed
      ≡ some r)
    × IsGood "mail" r
enqueue_total_example =
    enqueue_total (λ i. 100 + i) (λ i d. d) (λ i d. d) (λ i. 100 * i) false 150 2 mail claimed
      (omega arith) (λ i d s. s) (λ i d s. s) (omega arith) run-IsSound_example

enqueue_alone_example :
    let r = enqueue (λ i. 100) (λ _ d. d) (λ _ d. d) (λ i. 0) true 30 mail 1 claimed in
    let twin = find (is_duplicate "mail" (some "k")) claimed.tasks in
    ((t : Task)
      → twin ≡ some t
      → r ≡ some (record { db = claimed; answer = ok t.id; notices = [] }))
    × (twin ≡ none
        → (a : Reply) × (r ≡ some a)
          × (a.answer ≡ ok claimed.next_id)
          × (a.db.tasks ≡ new_row 100 claimed.next_id mail_params ∷ claimed.tasks)
          × (a.db.next_id ≡ suc claimed.next_id)
          × (exists (λ (t : Task). t.id == claimed.next_id) claimed.tasks ≡ false)
          × (a.notices ≡ ("fronta_wake", "mail") ∷ ("fronta_feed", "queued") ∷ []))
enqueue_alone_example =
    enqueue_alone (λ i. 100) (λ i. 0) true 30 0 mail mail_params claimed mail-checked
      run-IsSound_example
