-- ===== src/Config.antt =====
-- The liveness settings of src/fronta/config.py, and `Policy` of src/fronta/model.py. Durations are in
-- microseconds.
use fronta.Prelude.{
  ℕ, ◌+◌, ◌*◌, ◌-◌, ◌/◌, ◌≤◌, ◌≡◌, min, max, Bool, true, ◌&&◌, Option, none, some, ltb, leb,
  if◌then◌else◌, arith,
}
use fronta.Errors.{Result, ok, err, configuration_error}
use fronta.Model.Backoff.{Backoff, Number, check_finite, max_duration}

-- The settings that others depend on.
pub record Settings : Type 0 where
  pub lease : ℕ
  pub heartbeat : ℕ
  pub statement_timeout : ℕ
  pub list_page_size : ℕ
  pub list_page_max : ℕ

-- The bounds of the fields: `gt=0`, `ge=0.001` and `ge=1`.
unfoldable pub check_bounds : Settings → Bool
check_bounds s =
    ltb 0 s.lease
    && ltb 0 s.heartbeat
    && leb 1000 s.statement_timeout
    && leb 1 s.list_page_size
    && leb 1 s.list_page_max

-- `_check_relations`
unfoldable pub check_relations : Settings → Result Settings
check_relations s =
    if ltb s.lease (s.heartbeat * 2)
    then err configuration_error
    else if ltb s.list_page_max s.list_page_size
    then err configuration_error
    else ok s

unfoldable pub renew_timeout : Settings → ℕ
renew_timeout s = min s.statement_timeout (max 50000 ((s.lease - s.heartbeat) / 2))

-- Settings that pass the checks leave room for a retry: where the slack between a heartbeat and the end
-- of the lease is at least a tenth of a second, a renewal that starts when the heartbeat is due and uses
-- up its budget can use it up once more before the lease ends. The budget is never zero and never longer
-- than a statement may take, and a page is never longer than the longest one.
pub renew_timeout-retry :
    (s : Settings)
    → check_bounds s ≡ true
    → check_relations s ≡ ok s
    → 100000 ≤ s.lease - s.heartbeat
    → (s.heartbeat + 2 * renew_timeout s ≤ s.lease)
      × (1 ≤ renew_timeout s)
      × (renew_timeout s ≤ s.statement_timeout)
      × (s.list_page_size ≤ s.list_page_max)
unfolding check_bounds check_relations renew_timeout
renew_timeout-retry s f r h = ground arith

-- `Policy`; an integer that may be missing is an option.
pub record Policy : Type 0 where
  pub max_attempts : ℕ
  pub attempt_timeout : ℕ
  pub backoff : Backoff
  pub max_concurrency : Option ℕ
  pub max_concurrency_per_key : Option ℕ

abbrev pub at_least_one : Option ℕ → Bool
at_least_one none = true
at_least_one (some n) = leb 1 n

-- `Policy.__post_init__`: `none` is its `ValueError`.
unfoldable pub check_policy : ℕ → Number → Backoff → Option ℕ → Option ℕ → Option Policy
check_policy max_attempts attempt_timeout backoff max_concurrency max_concurrency_per_key =
    if leb 1 max_attempts && at_least_one max_concurrency && at_least_one max_concurrency_per_key
    then elim (check_finite attempt_timeout 1000 max_duration) [
      | none ↦ none
      | some t ↦ some (record {
        max_attempts = max_attempts;
        attempt_timeout = t;
        backoff = backoff;
        max_concurrency = max_concurrency;
        max_concurrency_per_key = max_concurrency_per_key;
      })
    ]
    else none
