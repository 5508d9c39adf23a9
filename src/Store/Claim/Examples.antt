-- ===== src/Store/Claim/Examples.antt =====
-- A claim of two queued tasks of a type that may run one, as a test and for the theorems.
use fronta.Prelude.{
  ℕ, ◌≤◌, ◌≡◌, refl, sym, ap, ◌∙◌, true, false, Option, none, some, String, List, [], ◌∷◌, arith,
  max, min, length, is_some, some-injective, map, All, find-passes, ==_iff, ◌==◌,
}
use fronta.Model.{queued, asyncio}
use fronta.Store.Row.{Task, admit}
use fronta.Store.Row.Valid.{IsValid}
use fronta.Store.Tables.{Db, TaskType, get_task, get_task_type, transition, publish}
use fronta.Store.Tables.Sound.{IsSound}
use fronta.Store.Attempts.{admit_chosen, admitted}
use fronta.Store.Claim.{
  running_of, running_with, is_eligible, is_saturated, is_open, in_queue_order, head, ready_head,
  seek, candidates,
}
use fronta.Store.Claim.Admission.{
  Look, ClaimRound, open_type, add_candidate, judge, consider, consider_all, found, admission,
  nothing_chosen, apply_admission, claim,
}
use fronta.Store.Claim.Limits.{IsHeld}
use fronta.Store.Claim.Held.{IsRoundHeld}
use fronta.Store.Claim.Safety.{claim-type_limit, claim-key_limit}
use fronta.Store.Claim.Bounds.{claim-bounded}
use fronta.Store.Claim.Rounds.{admission-ends}

abbrev queued_task : ℕ → ℕ → Task
queued_task id at = record {
  id = id;
  type = "mail";
  state = queued;
  priority = 2147483648;
  key = none;
  concurrency_key = some "a";
  input = "{}";
  result = none;
  error = none;
  progress = none;
  attempt = 0;
  failures = 0;
  max_attempts = 3;
  attempt_timeout = 60000000;
  backoff = record { base = 1000000; factor = 200; cap = 60000000 };
  token = none;
  lease_until = none;
  worker = none;
  cancel_requested_at = none;
  created_at = at;
  run_at = at;
  started_at = none;
  finished_at = none;
  metadata = none;
}

abbrev mail_type : TaskType
mail_type = record {
  name = "mail";
  executor = asyncio;
  max_concurrency = some 1;
  max_concurrency_per_key = some 1;
  fingerprint = "f";
  updated_at = 1;
  paused = false;
}

abbrev pub two_queued : Db
two_queued = record {
  tasks = queued_task 2 6 ∷ queued_task 1 5 ∷ [];
  task_types = mail_type ∷ [];
  subscriptions = [];
  events = [];
  next_id = 3;
  next_seq = 1;
}

abbrev sees : ℕ → Look
sees id = record {
  locked = get_task id two_queued;
  db = two_queued;
  now = 10;
  shared = true;
  exclusive = true;
  late = false;
}

abbrev quiet_round : ClaimRound
quiet_round = record { db = two_queued; now = 10; busy = λ id. false; look = sees; late = false }

abbrev sizes : String → ℕ
sizes input = 300

abbrev four_rounds : List ClaimRound
four_rounds = quiet_round ∷ quiet_round ∷ quiet_round ∷ quiet_round ∷ []

abbrev claimed : Option (Db × List Task)
claimed = claim sizes ("mail" ∷ []) 5 four_rounds 10 11 30 "w" (λ id. 70) two_queued

abbrev ids_of : Option (Db × List Task) → List ℕ
ids_of none = []
ids_of (some done) = map (λ (t : Task). t.id) done.1

claimed_test : ids_of claimed ≡ 1 ∷ []
unfolding claim admission apply_admission consider_all consider judge add_candidate open_type found
    candidates head ready_head seek in_queue_order is_open is_eligible is_saturated running_of
    running_with get_task get_task_type admit_chosen transition publish admitted admit
claimed_test = refl

abbrev done_of : Option (Db × List Task) → Db × List Task
done_of none = (two_queued, [])
done_of (some done) = done

claimed-done : claimed ≡ some (done_of claimed)
unfolding claim admission apply_admission consider_all consider judge add_candidate open_type found
    candidates head ready_head seek in_queue_order is_open is_eligible is_saturated running_of
    running_with get_task get_task_type admit_chosen transition publish admitted admit
claimed-done = refl

queued_task-IsValid : (id at : ℕ) → IsValid (queued_task id at)
queued_task-IsValid id at = record {
  held = refl;
  leased = refl;
  owned = λ h. absurd (cc h);
  finished = refl;
  uncancelled = λ _. refl;
  accounted = omega arith;
  budget = omega arith;
  charged = λ h. absurd (cc h);
  retryable = λ _. omega arith;
  positive = omega arith;
}

pub two_queued-IsSound : IsSound two_queued
two_queued-IsSound = record {
  rows = (queued_task-IsValid 2 6, (queued_task-IsValid 1 5, tt));
  ids = (omega arith, (omega arith, tt));
  keys = ((λ _. refl), ((λ _. refl), tt));
  seqs = omega arith;
}

get_task-id :
    (id : ℕ) (t : Task) → get_task id two_queued ≡ some t → get_task t.id two_queued ≡ some t
unfolding get_task
get_task-id id t h =
    let same = (==_iff t.id id).0 (find-passes (λ (u : Task). u.id == id) two_queued.tasks t h) in
    ap (λ i. get_task i two_queued) same ∙ h

sees-IsHeld :
    (id : ℕ) (t : Task)
    → get_task id two_queued ≡ some t
    → IsHeld two_queued (λ _. true) (sees id) t
sees-IsHeld id t h = record {
  row = get_task-id id t h;
  shared = λ _. refl;
  exclusive = λ _. refl;
  lock = λ _ _. refl;
  starts = λ _ _ _. omega arith;
  keys = λ _ _ _ key _. omega arith;
}

same_row : (t u : Task) → some t ≡ some u → (u.id ≡ t.id) × (u.concurrency_key ≡ t.concurrency_key)
same_row t u h =
    let e = some-injective h in (ap (λ z. z.id) (sym e), ap (λ z. z.concurrency_key) (sym e))

quiet-IsRoundHeld : IsRoundHeld two_queued (λ _. true) quiet_round
unfolding get_task
quiet-IsRoundHeld = record {
  looks = sees-IsHeld;
  rows = (same_row (queued_task 2 6), (same_row (queued_task 1 5), tt));
}

four_rounds-IsRoundHeld : All (IsRoundHeld two_queued (λ _. true)) four_rounds
four_rounds-IsRoundHeld =
    (quiet-IsRoundHeld, (quiet-IsRoundHeld, (quiet-IsRoundHeld, (quiet-IsRoundHeld, tt))))

claim-type_limit_example :
    running_of "mail" (done_of claimed).0 ≤ max 1 (running_of "mail" two_queued)
unfolding get_task_type
claim-type_limit_example =
    claim-type_limit sizes ("mail" ∷ []) 5 four_rounds 10 11 30 "w" (λ id. 70) two_queued
      (λ _. true) (done_of claimed) "mail" mail_type 1 two_queued-IsSound four_rounds-IsRoundHeld
      refl refl claimed-done

claim-key_limit_example :
    running_with "mail" "a" (done_of claimed).0 ≤ max 1 (running_with "mail" "a" two_queued)
unfolding get_task_type
claim-key_limit_example =
    claim-key_limit sizes ("mail" ∷ []) 5 four_rounds 10 11 30 "w" (λ id. 70) two_queued (λ _. true)
      (done_of claimed) "mail" "a" mail_type 1 two_queued-IsSound four_rounds-IsRoundHeld refl refl
      claimed-done

claim-bounded_example : length (done_of claimed).1 ≤ min 5 256
claim-bounded_example =
    claim-bounded sizes ("mail" ∷ []) 5 four_rounds 10 11 30 "w" (λ id. 70) two_queued
      (done_of claimed) claimed-done

admission-ends_example : is_some (admission sizes ("mail" ∷ []) 5 four_rounds nothing_chosen) ≡ true
admission-ends_example =
    admission-ends 3 sizes ("mail" ∷ []) 5 four_rounds
      (
        (omega arith, (omega arith, tt)),
        (
          (omega arith, (omega arith, tt)),
          ((omega arith, (omega arith, tt)), ((omega arith, (omega arith, tt)), tt)),
        ),
      )
      (omega arith)
