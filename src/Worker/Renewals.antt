-- ===== src/Worker/Renewals.antt =====
-- `_renew_attempts`, `_renewals` and `_on_notify` of src/fronta/worker.py. Times are on the worker's
-- monotonic clock, in microseconds.
pub mod Leases
use fronta.Prelude.{
  ℕ, ◌+◌, ◌-◌, ◌/◌, min, max, Bool, true, false, not, ◌&&◌, ◌||◌, Option, none, some, List, [], ◌∷◌,
  map, keep, exists, take, drop, leb, ◌==◌, if◌then◌else◌,
}
use fronta.Store.Attempts.{Beats}
use fronta.Worker.Attempt.{Attempt, cancelling, lost, is_lost, stop}

-- `now - a._renewed_at >= lease_s`
abbrev pub is_overdue : ℕ → ℕ → Attempt → Bool
is_overdue lease now a = leb (a.renewed_at + lease) now

abbrev pub is_live : Attempt → Bool
is_live a = not a.settled && not (is_lost a.cause)

abbrev pub stop_overdue : ℕ → ℕ → Attempt → Attempt
stop_overdue lease now a = if is_overdue lease now a then stop a lost else a

abbrev pub to_renew : ℕ → ℕ → Attempt → Bool
to_renew lease started a = not (is_overdue lease started a) && is_live a

abbrev pub beat_of : ℕ → Beats → Option (Option ℕ)
beat_of id [] = none
beat_of id ((i, flag) ∷ rest) = let later = beat_of id rest in if i == id then some flag else later

answer : ℕ → Option (Option ℕ) → Attempt → Attempt
answer started none a = stop a lost
answer started (some none) a = record a { renewed_at = started }
answer started (some (some requested)) a = stop (record a { renewed_at = started }) cancelling

-- The least time that the attempts have left, and the budget of the renewal.
abbrev pub remaining : ℕ → ℕ → List Attempt → ℕ
remaining lease started [] = lease
remaining lease started (a ∷ attempts) =
    min (a.renewed_at + lease - started) (remaining lease started attempts)

abbrev pub budget : ℕ → ℕ → ℕ → List Attempt → ℕ
budget renew_timeout lease started attempts =
    min renew_timeout (max 1000 (remaining lease started attempts))

-- The pairs that the heartbeat names.
abbrev pub pairs : ℕ → ℕ → List Attempt → List (ℕ × ℕ)
pairs lease started attempts =
    map (λ (a : Attempt). (a.id, a.token)) (keep (to_renew lease started) attempts)

-- What a renewal does to an attempt of its batch; without beats, the database has not confirmed it.
unfoldable pub renew_attempt : ℕ → ℕ → Option Beats → Attempt → Attempt
unfolding answer
renew_attempt lease started none a = stop_overdue lease started a
renew_attempt lease started (some beats) a =
    if to_renew lease started a
    then answer started (beat_of a.id beats) a
    else stop_overdue lease started a

-- `_renew_attempts`, with its answer.
unfoldable pub renew_attempts : ℕ → ℕ → Option Beats → List Attempt → List Attempt × Bool
unfolding renew_attempt
renew_attempts lease started none attempts =
    (map (renew_attempt lease started none) attempts, false)
renew_attempts lease started (some beats) attempts = (
  map (renew_attempt lease started (some beats)) attempts,
  exists (to_renew lease started) attempts,
)

-- `due`, with half of the heartbeat attempts the interval.
abbrev pub is_due : ℕ → ℕ → Attempt → Bool
is_due heartbeat started a =
    is_live a && (a.renew_requested || leb (a.renewed_at + heartbeat / 2) started)

abbrev pub clear_request : ℕ → ℕ → Attempt → Attempt
clear_request heartbeat started a =
    if is_due heartbeat started a then record a { renew_requested = false } else a

-- What a batch of a pass meets: when it starts, the answer of the heartbeat, and the time behind it.
pub record Beat : Type 0 where
  pub sent_at : ℕ
  pub beats : Option Beats
  pub seen_at : ℕ

-- An attempt through the batches of a pass; `mine` says which of them holds it.
unfoldable pub through : ℕ → List (Bool × Beat) → Attempt → Attempt
unfolding renew_attempt
through lease [] a = a
through lease ((mine, b) ∷ rest) a =
    let renewed = if mine then renew_attempt lease b.sent_at b.beats a else a in
    through lease rest (stop_overdue lease b.seen_at renewed)

-- `_on_notify` for the cancel channel: the flag of the attempt that the payload names.
unfoldable pub notify_cancel : ℕ → Attempt → Attempt
notify_cancel id a = if a.id == id then record a { renew_requested = true } else a
