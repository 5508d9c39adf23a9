-- ===== src/Worker/Claims/Bounds.antt =====
-- The bounds of the claim loop.
use fronta.Prelude.{
  ℕ, ◌+◌, ◌-◌, ◌≤◌, ◌≡◌, refl, Bool, true, false, ◌&&◌, List, [], ◌∷◌, ◌++◌, All, every, keep,
  length, length-keep-le, Bool-cases, inl, inr, ltb, leb, arith,
}
use fronta.Store.Row.{Task}
use fronta.Worker.Lifecycle.{add_attempt}
use fronta.Worker.Claims.{
  Claim, rows, connection_lost, refused, Asked, claims, Loop, Turn, initial, start_attempts,
  claim_batch_and_dispatch, after_claim, claim_free, turn, turns,
}

-- What the database function promises: at most as many rows as were asked for.
abbrev pub IsBounded : Turn → Type 0
IsBounded t = (n : ℕ) → (ts : List Task) → t.claim n ≡ rows ts → length ts ≤ n

-- A claim asks for one to `concurrency` tasks.
abbrev pub is_fair : ℕ → Asked → Bool
is_fair concurrency (claims n) = leb 1 n && leb n concurrency
is_fair concurrency _ = true

pub record IsSound (concurrency ceiling : ℕ) (l : Loop) : Type 0 where
  pub slots : length l.attempts ≤ concurrency
  pub delays : (initial ceiling ≤ l.delay) × (l.delay ≤ ceiling)
  pub fair : every (is_fair concurrency) l.asked ≡ true

length-start_attempts :
    (ts : List Task) (ids : List ℕ) → length (start_attempts ts ids) ≤ length ts + length ids
length-start_attempts [] ids = omega arith
length-start_attempts (t ∷ ts) ids = ground (arith, length-start_attempts ts (add_attempt t.id ids))

every-append {ℓ} :
    {A : Type ℓ} (p : A → Bool) (xs ys : List A)
    → every p xs ≡ true
    → every p ys ≡ true
    → every p (xs ++ ys) ≡ true
every-append p [] ys h k = k
every-append p (x ∷ xs) ys h k = ground (arith, every-append p xs ys)

dispatch-IsSound :
    (concurrency ceiling free : ℕ) (c : Claim) (stopping : Bool) (l : Loop)
    → ((ts : List Task) → c ≡ rows ts → length ts ≤ free)
    → 1 ≤ free
    → free + length l.attempts ≤ concurrency
    → IsSound concurrency ceiling l
    → IsSound concurrency ceiling (claim_batch_and_dispatch free c stopping l).0
unfolding claim_batch_and_dispatch
dispatch-IsSound concurrency ceiling free connection_lost stopping l b p f s = record {
  slots = s.slots;
  delays = s.delays;
  fair = every-append (is_fair concurrency) l.asked _ s.fair (ground arith);
}
dispatch-IsSound concurrency ceiling free refused stopping l b p f s = record {
  slots = s.slots;
  delays = s.delays;
  fair = every-append (is_fair concurrency) l.asked _ s.fair (ground arith);
}
dispatch-IsSound concurrency ceiling free (rows ts) true l b p f s = record {
  slots = s.slots;
  delays = s.delays;
  fair = every-append (is_fair concurrency) l.asked _ s.fair (ground arith);
}
dispatch-IsSound concurrency ceiling free (rows ts) false l b p f s = record {
  slots = omega (arith, length-start_attempts ts l.attempts, b ts refl);
  delays = s.delays;
  fair = every-append (is_fair concurrency) l.asked _ s.fair (ground arith);
}

claim_free-IsSound :
    (concurrency ceiling : ℕ) (t : Turn) (l : Loop)
    → IsBounded t
    → IsSound concurrency ceiling l
    → IsSound concurrency ceiling (claim_free concurrency t l).0
unfolding claim_free
claim_free-IsSound concurrency ceiling t l b s =
    elim (Bool-cases (ltb 0 (concurrency - length l.attempts))) [
      | inl e ↦ rw e (
          dispatch-IsSound concurrency ceiling (concurrency - length l.attempts) _ t.stopping l
            (b (concurrency - length l.attempts)) (ground arith) (ground arith) s)
      | inr e ↦ rw e s
    ]

after_claim-IsSound :
    (concurrency ceiling : ℕ) (t : Turn) (r : Loop × Bool)
    → IsSound concurrency ceiling r.0
    → IsSound concurrency ceiling (after_claim ceiling t r)
after_claim-IsSound concurrency ceiling t (l, true) s = record {
  slots = s.slots;
  delays = (omega arith, omega arith);
  fair = s.fair;
}
after_claim-IsSound concurrency ceiling t (l, false) s = ground (arith, s)

turn-IsSound :
    (concurrency ceiling : ℕ) (t : Turn) (l : Loop)
    → IsBounded t
    → IsSound concurrency ceiling l
    → IsSound concurrency ceiling (turn concurrency ceiling t l)
unfolding turn
turn-IsSound concurrency ceiling t l b s = after_claim-IsSound concurrency ceiling t _ (
    claim_free-IsSound concurrency ceiling t (record l { attempts = keep t.left l.attempts }) b
      (record {
        slots = omega (arith, length-keep-le t.left l.attempts, s.slots);
        delays = s.delays;
        fair = s.fair;
      }))

-- The claim loop keeps to its bounds, however the claims end, whichever entries the ended attempts pop, and however the
-- waits go: the dict `attempts` never has more than `concurrency` entries, the loop asks only where a slot is free and for at most
-- `concurrency` tasks, and its poll delay stays between the initial one and the poll interval. The claims are
-- assumed to return no more rows than were asked for.
pub turns-IsSound :
    (concurrency ceiling : ℕ) (ts : List Turn) (l : Loop)
    → All IsBounded ts
    → IsSound concurrency ceiling l
    → IsSound concurrency ceiling (turns concurrency ceiling ts l)
unfolding turns
turns-IsSound concurrency ceiling [] l b s = s
turns-IsSound concurrency ceiling (t ∷ ts) l b s =
    turns-IsSound concurrency ceiling ts (turn concurrency ceiling t l) b.1
      (turn-IsSound concurrency ceiling t l b.0 s)
