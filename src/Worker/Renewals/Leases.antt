-- ===== src/Worker/Renewals/Leases.antt =====
-- An attempt's lease through the renewals.
use fronta.Prelude.{
  ℕ, ◌≡◌, ◌&&◌, Option, Bool, false, none, some, List, [], ◌∷◌, is_some, if◌then◌else◌,
}
use fronta.Store.Attempts.{Beats}
use fronta.Worker.Attempt.{Attempt}
use fronta.Worker.Renewals.{stop_overdue, beat_of, renew_attempt, Beat}

-- The time of the last look of a pass.
abbrev pub last_seen : ℕ → List (Bool × Beat) → ℕ
last_seen at [] = at
last_seen at ((mine, b) ∷ rest) = last_seen b.seen_at rest

-- Whether the answer of a heartbeat has the attempt.
abbrev pub confirms : ℕ → Option Beats → Bool
confirms id none = false
confirms id (some beats) = is_some (beat_of id beats)

-- When the last heartbeat was sent that held the attempt and confirmed it, `at` before all of them.
abbrev pub last_confirmed : ℕ → ℕ → List (Bool × Beat) → ℕ
last_confirmed id at [] = at
last_confirmed id at ((mine, b) ∷ rest) =
    last_confirmed id (if mine && confirms id b.beats then b.sent_at else at) rest

-- A renewal that does not stop an attempt has counted its lease from a heartbeat that confirmed it.
record IsCounted (id at : ℕ) (z : Attempt) : Type 0 where
  unstopped : z.cause ≡ none
  unsettled : z.settled ≡ false
  same : z.id ≡ id
  renewed : z.renewed_at ≡ at

-- An attempt behind a batch of a pass and the look that follows it.
abbrev behind : ℕ → Bool → Beat → Attempt → Attempt
behind lease mine b a =
    stop_overdue lease b.seen_at (if mine then renew_attempt lease b.sent_at b.beats a else a)
