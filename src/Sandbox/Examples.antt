-- ===== src/Sandbox/Examples.antt =====
-- Tests of the sandbox on short histories, and the theorems at them.
use fronta.Prelude.{
  ℕ, ◌≡◌, refl, Bool, true, false, ◌||◌, Option, none, some, List, [], ◌∷◌, ◌++◌, arith, take,
  length, ltb, every, ◌==◌,
}
use fronta.Codec.Text.{Text, codes, replace_nul}
use fronta.Sandbox.Pidfd.{
  opened, Call, now, exit_wait, closing, signalling, calls, call, wait_exit, meanwhile, close,
  send_signal,
}
use fronta.Sandbox.Pidfd.Trace.{life, standing, calls-traced}
use fronta.Sandbox.Output.{
  Bytes, Code, exited, Read, stdout, stderr, delivered, keep_chunk, drain_all, text, run_result,
}
use fronta.Sandbox.Output.Exact.{run_result-outputs}
use fronta.Sandbox.Process.{
  refused, handle, Launch, child, Proc, spawn, open_marked, close_fds, run_ends, kill, kills,
  breaks, step, Moment, answers, until_stuck,
}
use fronta.Sandbox.Process.Kills.{is_right, kill-verified}
use fronta.Sandbox.Identity.{Host, worker_id, is_worker_alive}
use fronta.Sandbox.Identity.RoundTrip.{verdict, is_worker_alive-worker_id}
use fronta.Sandbox.Scavenger.{
  Process, contains, kill_marked, entries_of, owner_of, sweep, scavenge_orphans, marker_of,
}
use fronta.Sandbox.Command.{
  Sandbox, check_sandbox, command_env, update, put, get, sandbox_env, build_argv,
}

-- A wait that a close interrupts, then another close.
abbrev handle_calls : List Call
handle_calls =
    now (signalling true) ∷ exit_wait (closing ∷ signalling true ∷ []) false ∷ now closing ∷ []

closed_test : (calls handle_calls (opened 7)).0.fd ≡ none
unfolding calls call wait_exit meanwhile close send_signal
closed_test = refl

calls-traced_example :
    life (standing (some 7)) (calls handle_calls (opened 7)).1
    ≡ standing (calls handle_calls (opened 7)).0.fd
calls-traced_example =
    calls-traced handle_calls (opened 7) (record { free = refl; settled = λ _. refl })

abbrev reads : List Read
reads =
    record { stream = stdout; chunk = 104 ∷ 105 ∷ [] }
    ∷ record { stream = stderr; chunk = 33 ∷ [] }
    ∷ record { stream = stdout; chunk = 0 ∷ 46 ∷ [] }
    ∷ []

abbrev as_text : Bytes → Text
as_text bytes = bytes

abbrev no_code : Bytes → Option Code
no_code line = none

outputs_test :
    (run_result as_text no_code 3 reads ([] ∷ []) (some (exited 0))).stdout ≡ 104 ∷ 105 ∷ 65533 ∷ []
unfolding run_result drain_all keep_chunk text replace_nul
outputs_test = refl

run_result-outputs_example :
    let r = run_result as_text no_code 3 reads ([] ∷ []) (some (exited 0)) in
    (r.stdout ≡ text as_text (take 3 (delivered stdout reads)))
    × (r.stderr ≡ text as_text (take 3 (delivered stderr reads)))
    × (r.truncated
        ≡ (ltb 3 (length (delivered stdout reads)) || ltb 3 (length (delivered stderr reads))))
run_result-outputs_example = run_result-outputs as_text no_code 3 reads ([] ∷ []) (some (exited 0))

abbrev launch : Launch
launch = record {
  starts = true;
  outer = handle 8;
  outer_marked = true;
  line = child (handle 9) true;
}

abbrev spawned : Proc
spawned = record { outer = some (opened 8); init = some (opened 9); dead = false }

-- A kill that times out, one during which the init exits, and one more.
abbrev moments : List Moment
moments =
    record { call = kills (record { exits = false; run_ended = false }); gone = false }
    ∷ record { call = breaks (record { exits = true; run_ended = false }); gone = true }
    ∷ record { call = kills (record { exits = false; run_ended = false }); gone = true }
    ∷ []

answers_test : answers moments spawned ≡ (false, false) ∷ (true, true) ∷ []
unfolding answers step kill close_fds run_ends wait_exit meanwhile close
answers_test = refl

kill-verified_example : every is_right (answers (until_stuck false moments) spawned) ≡ true
unfolding spawn open_marked
kill-verified_example =
    kill-verified launch spawned false moments refl (λ h. h)
      (
        (λ h. absurd (cc h)),
        (λ h. absurd (cc h)),
        (λ k h. absurd (cc h)),
        (
          (λ h. absurd (cc h)),
          (λ h. refl),
          (λ k h. absurd (cc h)),
          ((λ h. refl), (λ h. absurd (cc h)), (λ k h. absurd (cc h)), tt),
        ),
      )

-- Where `run` ends behind a kill although the init has not exited, the next kill finds no handle and answers true.
stuck_test :
    answers
      (record { call = kills (record { exits = false; run_ended = true }); gone = false }
        ∷ record { call = kills (record { exits = false; run_ended = false }); gone = false }
        ∷ [])
      spawned
    ≡ (false, false) ∷ (true, false) ∷ []
unfolding answers step kill close_fds run_ends wait_exit meanwhile close
stuck_test = refl

-- A handle of the init that the kernel refuses, as when descriptors run out, is taken for an init that has exited: a kill
-- answers true although nothing has ended.
refused_test :
    answers
      (record { call = kills (record { exits = false; run_ended = false }); gone = false } ∷ [])
      (record { outer = none; init = open_marked refused true; dead = false })
    ≡ (true, false) ∷ []
unfolding answers step kill open_marked close_fds run_ends wait_exit
refused_test = refl

abbrev host : Host
host = record {
  name = codes "a:b";
  starttime = λ pid. some (codes "4711");
  no_such_process = λ pid. false;
}

abbrev one_digit : ℕ → Text
one_digit pid = 48 ∷ []

abbrev as_seven : Text → Option ℕ
as_seven number = some 7

is_worker_alive-worker_id_example :
    is_worker_alive one_digit as_seven host (worker_id one_digit as_seven host 7 (codes "beef"))
    ≡ verdict one_digit as_seven host 7 (codes "4711") (some (codes "4711"))
is_worker_alive-worker_id_example =
    is_worker_alive-worker_id one_digit as_seven host host 7 (codes "4711") (codes "beef") refl refl
      (λ h. absurd (omega (arith, h))) refl refl refl refl refl refl

abbrev owned_by : ℕ → Text → Process
owned_by pid owner = record {
  pid = pid;
  environ = codes "A=1" ++ 0 ∷ marker_of (codes "W") owner;
  opening = handle 5;
  rechecked = marker_of (codes "W") owner;
  takes_signal = true;
}

abbrev processes : List Process
processes = owned_by 1 (codes "x") ∷ owned_by 2 (codes "y") ∷ owned_by 3 (codes "x") ∷ []

abbrev y_alive : Text → Option Bool
y_alive owner = elim owner [ [] ↦ none | c ∷ cs ↦ some (c == 121) ]

scavenged_test : scavenge_orphans (codes "W") (codes "y0") y_alive processes ≡ 3 ∷ 1 ∷ []
unfolding scavenge_orphans sweep owner_of entries_of kill_marked contains open_marked send_signal
scavenged_test = refl

abbrev plain_sandbox : Sandbox
plain_sandbox = record {
  ro_binds = codes "/usr" ∷ [];
  env = (codes "PATH", codes "/opt") ∷ [];
  cpu_time = some 1500;
  memory_bytes = none;
  max_pids = none;
  tmpfs_bytes = 4096;
  max_output_bytes = 100;
}

accepted_test : check_sandbox plain_sandbox ≡ true
unfolding check_sandbox
accepted_test = refl

reserved_test :
    check_sandbox (record plain_sandbox { env = (codes "FRONTA_WORKER_ID", []) ∷ [] }) ≡ false
unfolding check_sandbox
reserved_test = refl

path_test :
    get (codes "PATH") (command_env plain_sandbox (codes "w") (codes "s") []) ≡ some (codes "/opt")
unfolding command_env update put
path_test = refl

marker_test :
    get sandbox_env (command_env plain_sandbox (codes "w") (codes "s") []) ≡ some (codes "s")
unfolding command_env update put
marker_test = refl

limits_test :
    length (build_argv one_digit (codes "bwrap") plain_sandbox (codes "true" ∷ []) 3 [] []) ≡ 31
unfolding build_argv
limits_test = refl
