-- ===== src/Worker/Examples.antt =====
-- Tests of the worker, and its theorems at concrete inputs.
use fronta.Prelude.{
  ℕ, ◌+◌, ◌*◌, ◌≤◌, ◌≡◌, refl, true, false, none, some, List, [], ◌∷◌, ◌++◌, is_some, exists, arith,
  take, length-take, ap, length, count,
}
use fronta.Model.{cancel}
use fronta.Store.Row.{Task}
use fronta.Store.Enqueue.{new_row}
use fronta.Worker.Attempt.{
  Cause, cancelling, shutdown, lost, Attempt, asks_stop, kills, cancels_runner, completes, Texts,
  Observed, Control, run_execution, stops,
}
use fronta.Worker.Attempt.Settlement.{completions, verified_first, report}
use fronta.Worker.Attempt.Reports.{run_execution-report, run_execution-verified_first}
use fronta.Config.{Settings, check_bounds, check_relations, renew_timeout, renew_timeout-retry}
use fronta.Worker.Drain.{
  Seen, Woken, waits, drain, stops_all, wait_all, unfinished, looks, wait_all-exact,
}
use fronta.Worker.Claims.{Claim, rows, connection_lost, Loop, Turn, turns}
use fronta.Worker.Claims.Bounds.{IsBounded, IsSound, turns-IsSound}
use fronta.Worker.Completions.{applied, Round, Queue, take_batch, active, run}
use fronta.Worker.Completions.Batches.{take_batch-accepted}
use fronta.Worker.Lifecycle.{
  Happening, is_signal, is_break, born, signal, attempt_starts, happen, attempt_done, attempt_ends,
  loop_ends, live, live-end, watchdog, twice_in_row, watchdog-twice_in_row,
}
use fronta.Store.Attempts.{complete}
use fronta.Store.Tables.{init}
use fronta.Errors.{is_ok, ok}
use fronta.Worker.Completions.Delivery.{answered, known, unanswered, run-drains, run-keeps_waiters}
use fronta.Worker.Renewals.{Beat}
use fronta.Worker.Writes.{answers, outcome, fenced_write, outage, schedule, fenced_write-outage}

abbrev texts : Texts
texts = record { error_json = λ e. "error"; cancelled_json = "cancelled"; timeout_json = "timeout" }

abbrev attempt : Attempt
attempt = record {
  id = 1;
  token = 77;
  is_process = true;
  cause = none;
  stop_event = false;
  cancelled = false;
  settled = false;
  renewed_at = 1000;
  renew_requested = false;
  fatal = false;
}

-- A process outlives its grace period and two kills.
abbrev stubborn : Observed
stubborn = record {
  raced = none;
  race_stops = cancelling ∷ shutdown ∷ [];
  behind_grace = none;
  killed = false;
  behind_kill = none;
  behind_cancel = none;
  late_stops = lost ∷ [];
  checks = false ∷ true ∷ [];
  last_kill = true;
  behind_end = none;
}

abbrev stubborn_end : Control
stubborn_end = record {
  attempt = record attempt { cause = some cancelling; stop_event = true; cancelled = true };
  runner = none;
  done =
      asks_stop
      ∷ kills false
      ∷ cancels_runner
      ∷ kills false
      ∷ kills true
      ∷ completes cancel none
      ∷ kills true
      ∷ cancels_runner
      ∷ [];
}

stubborn-ends : run_execution texts stubborn attempt ≡ some stubborn_end
unfolding run_execution
stubborn-ends = refl

run_execution-report_example :
    (completions stubborn_end.done ≡ report texts (some cancelling) none)
    × (stubborn.raced ≡ none → is_some stubborn_end.attempt.cause ≡ true)
    × ((k : Cause)
        → (stops attempt (cancelling ∷ shutdown ∷ [])).cause ≡ some k
        → stubborn_end.attempt.cause ≡ some k)
run_execution-report_example =
    run_execution-report texts stubborn attempt stubborn_end stubborn-ends

run_execution-verified_first_example : verified_first false stubborn_end.done ≡ true
run_execution-verified_first_example =
    run_execution-verified_first texts stubborn attempt stubborn_end refl stubborn-ends

-- A claim from a queue with two tasks.
abbrev row : ℕ → Task
row id = new_row 10 id (record {
  task = record {
    type = "mail";
    input_json = "{}";
    max_attempts = 3;
    attempt_timeout = 60000000;
    backoff = record { base = 1000000; factor = 200; cap = 60000000 };
    priority = none;
    run_at = none;
    key = none;
    concurrency_key = none;
    metadata_json = none;
  };
  priority = 2147483648;
  run_at = none;
})

abbrev claim_two : ℕ → Claim
claim_two n = rows (take n (row 8 ∷ row 9 ∷ []))

abbrev rows_of : Claim → List Task
rows_of (rows ts) = ts
rows_of _ = []

abbrev quiet : Turn
quiet = record {
  left = λ id. true;
  claim = claim_two;
  stopping = false;
  woken = false;
  jitter = 1000;
}

abbrev lossy : Turn
lossy = record quiet { claim = λ n. connection_lost }

quiet-IsBounded : IsBounded quiet
quiet-IsBounded n ts h =
    let same : take n (row 8 ∷ row 9 ∷ []) ≡ ts = ap rows_of h in
    rw (← same) (omega (arith, length-take n (row 8 ∷ row 9 ∷ [])))

lossy-IsBounded : IsBounded lossy
lossy-IsBounded n ts h = absurd (cc h)

abbrev busy : Loop
busy = record { attempts = 1 ∷ []; delay = 50000; asked = [] }

busy-IsSound : IsSound 2 1000000 busy
busy-IsSound = record { slots = omega arith; delays = (omega arith, omega arith); fair = refl }

turns-IsSound_example : IsSound 2 1000000 (turns 2 1000000 (quiet ∷ lossy ∷ []) busy)
turns-IsSound_example =
    turns-IsSound 2 1000000 (quiet ∷ lossy ∷ []) busy (quiet-IsBounded, (lossy-IsBounded, tt))
      busy-IsSound

abbrev queue : Queue
queue = record {
  pending =
      record { completion = record { id = 1; token = 77; kind = cancel; body = none }; waiter = 5 }
      ∷ record {
        completion = record { id = 1; token = 78; kind = cancel; body = none };
        waiter = 6;
      }
      ∷ [];
  sent = [];
  answers = [];
}

abbrev quick : Round
quick = record { arrived = []; gone = λ w. false; over = λ w. false; written = λ cs. applied [] }

run-drains_example :
    ((run (quick ∷ quick ∷ []) queue).pending ≡ [])
    × (answered (run (quick ∷ quick ∷ []) queue) ≡ known queue)
    × (unanswered (quick ∷ quick ∷ []) (run (quick ∷ quick ∷ []) queue)
        ≡ unanswered (quick ∷ quick ∷ []) queue)
run-drains_example = run-drains (quick ∷ quick ∷ []) queue refl (omega arith)

run-keeps_waiters_example :
    (known (run (quick ∷ []) queue) ≡ known queue ++ [])
    × (unanswered (quick ∷ []) (run (quick ∷ []) queue) ≡ unanswered (quick ∷ []) queue)
run-keeps_waiters_example = run-keeps_waiters (quick ∷ []) queue

take_batch-accepted_example :
    (is_ok (complete 1 (λ id. 0) (active (λ w. false) (take_batch 256 [] queue.pending).0) init)
      ≡ true)
    × ((take_batch 256 [] queue.pending).0 ++ (take_batch 256 [] queue.pending).1 ≡ queue.pending)
    × (1 ≤ 2 → 1 ≤ length (take_batch 256 [] queue.pending).0)
take_batch-accepted_example = take_batch-accepted (λ w. false) queue.pending 1 (λ id. 0) init

abbrev unconfirmed : Beat
unconfirmed = record { sent_at = 1010; beats = none; seen_at = 1050 }

fenced_write-outage_example :
    fenced_write {A = ℕ} (outage 5 ++ (false, answers 1) ∷ []) ≡ (outcome 1, schedule 0 5)
fenced_write-outage_example = fenced_write-outage 5 (false, answers 1) [] (outcome 1) refl

live-end_example :
    let hs : List Happening = signal ∷ attempt_ends 1 true ∷ loop_ends true ∷ [] in
    let l = live hs born in
    (l.exit_code ≡ 70)
    × (l.stopping ≡ true)
    × (2 ≤ count is_signal hs → l.immediate ≡ true)
    × (exists is_break hs ≡ true → l.immediate ≡ true)
    × (count is_signal hs ≡ 0 → exists is_break hs ≡ false → l.immediate ≡ false)
live-end_example = live-end (signal ∷ attempt_ends 1 true ∷ loop_ends true ∷ [])

-- A row whose id still has a running attempt replaces its entry, which the end of the old attempt then pops.
reclaimed_test :
    (live (attempt_starts 1 ∷ attempt_starts 1 ∷ attempt_ends 1 false ∷ []) born).attempts ≡ []
unfolding live happen attempt_done
reclaimed_test = refl

watchdog-twice_in_row_example :
    watchdog 30 0 (31 ∷ 2 ∷ 40 ∷ 41 ∷ []) ≡ twice_in_row 30 (31 ∷ 2 ∷ 40 ∷ 41 ∷ [])
watchdog-twice_in_row_example = watchdog-twice_in_row 30 (31 ∷ 2 ∷ 40 ∷ 41 ∷ [])

abbrev settings : Settings
settings = record {
  lease = 30000000;
  heartbeat = 10000000;
  statement_timeout = 30000000;
  list_page_size = 50;
  list_page_max = 200;
}

settings-checked : check_relations settings ≡ ok settings
unfolding check_relations
settings-checked = refl

settings-fields : check_bounds settings ≡ true
unfolding check_bounds
settings-fields = refl

renew_timeout-retry_example :
    (10000000 + 2 * renew_timeout settings ≤ 30000000)
    × (1 ≤ renew_timeout settings)
    × (renew_timeout settings ≤ 30000000)
    × (50 ≤ 200)
renew_timeout-retry_example =
    renew_timeout-retry settings settings-fields settings-checked (omega arith)

abbrev leaving : Seen
leaving = record {
  immediate_first = false;
  running = 1 ∷ 2 ∷ [];
  stopped = 2 ∷ [];
  immediate_then = true;
  unsettled = 2 ∷ [];
  left = [];
}

drain_test :
    drain 30000000 5000000 leaving
    ≡ waits (1 ∷ 2 ∷ []) (some 30000000) true
      ∷ stops_all
      ∷ waits (2 ∷ []) (some 61000000) false
      ∷ []
unfolding drain
drain_test = refl

-- Of three tasks one ends before the second signal comes, and one with it.
abbrev woken : List Woken
woken =
    record { now = 10; done = 1 ∷ []; signalled = false }
    ∷ record { now = 20; done = 3 ∷ []; signalled = true }
    ∷ record { now = 30; done = 2 ∷ []; signalled = true }
    ∷ []

wait_all-exact_example :
    wait_all (some 25) true woken (1 ∷ 2 ∷ 3 ∷ [])
    ≡ some (unfinished (looks (some 25) true woken) (1 ∷ 2 ∷ 3 ∷ []))
wait_all-exact_example = wait_all-exact (some 25) true woken (1 ∷ 2 ∷ 3 ∷ [])
