-- ===== src/Worker/Writes.antt =====
-- `fenced_write` of src/fronta/worker.py. Times are in seconds.
use native.Mathlib.Nat.{pow-suc}
use fronta.Prelude.{
  some-injective, ℕ, zero, suc, ◌*◌, ◌^◌, min, ◌≡◌, ap, Bool, true, false, Option, none, some, List,
  [], ◌∷◌, ◌++◌, arith,
}

-- How a try ends: with an answer, an operational or interface error, or another database error.
pub data Try {ℓ} (A : Type ℓ) : Type ℓ where
  answers : A → Try A
  unreachable : Try A
  refused : Try A

-- How the loop ends; `retries` where the tries seen so far have not ended it.
pub data Ending {ℓ} (A : Type ℓ) : Type ℓ where
  outcome : A → Ending A
  abandoned : Ending A
  failed : Ending A
  retries : Ending A

abbrev pub transition_retry : ℕ
transition_retry = 1

abbrev pub transition_retry_max : ℕ
transition_retry_max = 10

module _ {ℓ} {A : Type ℓ} where
  -- The loop: each try with the state of `abort` before it. With the end come the sleeps.
  abbrev pub attempts_from : ℕ → List (Bool × Try A) → Ending A × List ℕ
  attempts_from delay [] = (retries, [])
  attempts_from delay ((true, t) ∷ rest) = (abandoned, [])
  attempts_from delay ((false, answers a) ∷ rest) = (outcome a, [])
  attempts_from delay ((false, refused) ∷ rest) = (failed, [])
  attempts_from delay ((false, unreachable) ∷ rest) =
      let later = attempts_from (min (delay * 2) transition_retry_max) rest in
      (later.0, delay ∷ later.1)

  pub fenced_write : List (Bool × Try A) → Ending A × List ℕ
  fenced_write = attempts_from transition_retry

-- Specification: how a try ends the loop, if it does.
abbrev pub ending {ℓ} : {A : Type ℓ} → Bool × Try A → Option (Ending A)
ending (true, t) = some abandoned
ending (false, answers a) = some (outcome a)
ending (false, refused) = some failed
ending (false, unreachable) = none

-- The tries of an outage without an abort.
abbrev pub outage {ℓ} : {A : Type ℓ} → ℕ → List (Bool × Try A)
outage zero = []
outage (suc n) = (false, unreachable) ∷ outage n

-- The sleeps behind `k` earlier ones: doubled each time, at most ten seconds.
abbrev pub schedule : ℕ → ℕ → List ℕ
schedule k zero = []
schedule k (suc n) = min (2 ^ k) 10 ∷ schedule (suc k) n

doubled : (k : ℕ) → min (min (2 ^ k) 10 * 2) 10 ≡ min (2 ^ suc k) 10
doubled k = rw (pow-suc 2 k) (omega arith)

attempts_from-ending {ℓ} :
    {A : Type ℓ} (delay : ℕ) (t : Bool × Try A) (rest : List (Bool × Try A)) (w : Ending A)
    → ending t ≡ some w
    → attempts_from delay (t ∷ rest) ≡ (w, [])
attempts_from-ending delay (true, t) rest w h = ap (λ z. (z, [])) (some-injective h)
attempts_from-ending delay (false, answers a) rest w h = ap (λ z. (z, [])) (some-injective h)
attempts_from-ending delay (false, refused) rest w h = ap (λ z. (z, [])) (some-injective h)
attempts_from-ending delay (false, unreachable) rest w h = absurd (cc h)

attempts_from-outage {ℓ} :
    {A : Type ℓ} (n k : ℕ) (t : Bool × Try A) (rest : List (Bool × Try A)) (w : Ending A)
    → ending t ≡ some w
    → attempts_from (min (2 ^ k) 10) (outage n ++ t ∷ rest) ≡ (w, schedule k n)
attempts_from-outage zero k t rest w h = attempts_from-ending (min (2 ^ k) 10) t rest w h
attempts_from-outage (suc n) k t rest w h = rw (doubled k) (
    ap (λ (z : Ending _ × List ℕ). (z.0, min (2 ^ k) 10 ∷ z.1))
      (attempts_from-outage n (suc k) t rest w h))

-- A fenced write outlasts any outage: it tries again after each lost connection, with a sleep of one
-- second that doubles up to ten seconds, and returns what the first try says that is neither lost nor
-- made after an abort; an abort and any other database error end it, and nothing behind counts.
pub fenced_write-outage {ℓ} :
    {A : Type ℓ} (n : ℕ) (t : Bool × Try A) (rest : List (Bool × Try A)) (w : Ending A)
    → ending t ≡ some w
    → fenced_write (outage n ++ t ∷ rest) ≡ (w, schedule 0 n)
unfolding fenced_write
fenced_write-outage n t rest w h = attempts_from-outage n 0 t rest w h
