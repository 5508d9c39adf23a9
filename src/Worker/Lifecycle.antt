-- ===== src/Worker/Lifecycle.antt =====
-- The life of a worker in src/fronta/worker.py: its shutdown requests, the ends of its attempts and of
-- its loops, the cancellation of `_serve`, the exit code that they make, and the watchdog, whose abort of the process
-- ends it at once with 70.
use fronta.Prelude.{
  ℕ, suc, ◌+◌, ◌≤◌, ◌≡◌, refl, Bool, true, false, not, ◌&&◌, ◌||◌, List, [], ◌∷◌, exists, keep,
  count, ltb, leb, ◌==◌, if◌then◌else◌, arith,
}

abbrev pub exit_fatal : ℕ
exit_fatal = 70

abbrev pub exit_loop_failed : ℕ
exit_loop_failed = 71

-- The part of `Worker` that these methods change; of `attempts`, the ids.
pub record Life : Type 0 where
  pub signals : ℕ
  pub immediate : Bool
  pub stopping : Bool
  pub wake : Bool
  pub exit_code : ℕ
  pub attempts : List ℕ

abbrev pub born : Life
born = record {
  signals = 0;
  immediate = false;
  stopping = false;
  wake = false;
  exit_code = 0;
  attempts = [];
}

unfoldable pub request_shutdown : Life → Life
request_shutdown l = record l {
  signals = l.signals + 1;
  immediate = if ltb 1 (l.signals + 1) then true else l.immediate;
  stopping = true;
  wake = true;
}

abbrev shutdown_once : Life → Life
shutdown_once l = if l.stopping then l else request_shutdown l

-- `_attempt_done`
unfoldable pub attempt_done : ℕ → Bool → Life → Life
attempt_done id fatal l =
    let left = record l { attempts = keep (λ i. not (i == id)) l.attempts } in
    let ended = if fatal then shutdown_once (record left { exit_code = exit_fatal }) else left in
    record ended { wake = true }

-- `_loop_ended`; `failed` says that the loop ended neither by cancellation nor without an exception.
unfoldable pub loop_ended : Bool → Life → Life
loop_ended failed l =
    if failed
    then shutdown_once (if l.exit_code == 0 then record l { exit_code = exit_loop_failed } else l)
    else l

-- The `except BaseException` of `_serve`: the claim loop or the drain was cancelled, or failed.
unfoldable pub serve_broken : Life → Life
serve_broken l = record l { stopping = true; immediate = true; wake = true }

-- `_start_attempt`, what its callbacks and the process's signals bring, and the cancellation or the failure of
-- `_serve`.
pub data Happening : Type 0 where
  signal : Happening
  attempt_starts : ℕ → Happening
  attempt_ends : ℕ → Bool → Happening
  loop_ends : Bool → Happening
  breaks : Happening

-- `self.attempts[row.id] = attempt`
abbrev pub add_attempt : ℕ → List ℕ → List ℕ
add_attempt id ids = if exists (λ i. i == id) ids then ids else id ∷ ids

unfoldable pub happen : Happening → Life → Life
unfolding request_shutdown attempt_done loop_ended serve_broken
happen signal l = request_shutdown l
happen (attempt_starts id) l = record l { attempts = add_attempt id l.attempts }
happen (attempt_ends id fatal) l = attempt_done id fatal l
happen (loop_ends failed) l = loop_ended failed l
happen breaks l = serve_broken l

unfoldable pub live : List Happening → Life → Life
unfolding happen
live [] l = l
live (h ∷ hs) l = live hs (happen h l)

abbrev pub is_fatal : Happening → Bool
is_fatal (attempt_ends id fatal) = fatal
is_fatal _ = false

abbrev pub is_loop_failure : Happening → Bool
is_loop_failure (loop_ends failed) = failed
is_loop_failure _ = false

abbrev pub is_signal : Happening → Bool
is_signal signal = true
is_signal _ = false

abbrev pub is_break : Happening → Bool
is_break breaks = true
is_break _ = false

-- The exit code that the happenings call for, from the code there was.
abbrev pub code_of : ℕ → List Happening → ℕ
code_of code hs =
    if exists is_fatal hs
    then exit_fatal
    else if exists is_loop_failure hs && code == 0
    then exit_loop_failed
    else code

live-code : (hs : List Happening) (l : Life) → (live hs l).exit_code ≡ code_of l.exit_code hs
unfolding live happen request_shutdown attempt_done loop_ended serve_broken
live-code [] l = ground arith
live-code (signal ∷ hs) l = live-code hs _
live-code (attempt_starts i ∷ hs) l = live-code hs _
live-code (attempt_ends i fatal ∷ hs) l = ground (arith, live-code hs (attempt_done i fatal l))
live-code (loop_ends failed ∷ hs) l = ground (arith, live-code hs (loop_ended failed l))
live-code (breaks ∷ hs) l = live-code hs _

-- The happenings that end the worker's service.
abbrev pub is_ending : Happening → Bool
is_ending h = is_signal h || is_fatal h || is_loop_failure h || is_break h

live-stopping :
    (hs : List Happening) (l : Life) → (live hs l).stopping ≡ (l.stopping || exists is_ending hs)
unfolding live happen request_shutdown attempt_done loop_ended serve_broken
live-stopping [] l = ground arith
live-stopping (signal ∷ hs) l = ground (arith, live-stopping hs (request_shutdown l))
live-stopping (attempt_starts i ∷ hs) l = live-stopping hs _
live-stopping (attempt_ends i fatal ∷ hs) l =
    ground (arith, live-stopping hs (attempt_done i fatal l))
live-stopping (loop_ends failed ∷ hs) l = ground (arith, live-stopping hs (loop_ended failed l))
live-stopping (breaks ∷ hs) l = ground (arith, live-stopping hs (serve_broken l))

-- What holds of a worker that was asked from outside `n` times and whose `_serve` has broken if `b`: at most one
-- request was its own.
record IsConsistent (n : ℕ) (b : Bool) (l : Life) : Type 0 where
  stops : l.stopping ≡ (ltb 0 l.signals || b)
  immediately : l.immediate ≡ (ltb 1 l.signals || b)
  at_least : n ≤ l.signals
  at_most : l.signals ≤ suc n

asked : Happening → ℕ → ℕ
asked h n = if is_signal h then suc n else n

happen-IsConsistent :
    (h : Happening) (n : ℕ) (b : Bool) (l : Life)
    → IsConsistent n b l
    → IsConsistent (asked h n) (b || is_break h) (happen h l)
unfolding asked happen request_shutdown attempt_done loop_ended serve_broken
happen-IsConsistent h n b l c = record {
  stops = ground (arith, c.stops, c.immediately, c.at_least, c.at_most);
  immediately = ground (arith, c.stops, c.immediately, c.at_least, c.at_most);
  at_least = ground (arith, c.stops, c.immediately, c.at_least, c.at_most);
  at_most = ground (arith, c.stops, c.immediately, c.at_least, c.at_most);
}

live-IsConsistent :
    (hs : List Happening) (n : ℕ) (b : Bool) (l : Life)
    → IsConsistent n b l
    → (m : ℕ) × (d : Bool) × (m ≡ n + count is_signal hs)
      × (d ≡ (b || exists is_break hs))
      × IsConsistent m d (live hs l)
unfolding live asked
live-IsConsistent [] n b l c = (n, b, omega arith, ground arith, c)
live-IsConsistent (h ∷ hs) n b l c =
    let (m, d, e, f, k) =
      live-IsConsistent hs (asked h n) (b || is_break h) (happen h l)
        (happen-IsConsistent h n b l c) in
    (m, d, ground (arith, e), ground (arith, f), k)

-- What a worker comes to that the watchdog has not aborted, whatever happened and in whatever order: `_exit_code` is
-- 70 if a handler ignored its cancellation, else 71 if a background loop died, else 0; it stops exactly
-- because of a signal, such a handler, such a loop, or the cancellation or failure of `_serve`; two signals and the
-- latter skip the grace period, and without them and without a signal it is never skipped.
pub live-end :
    (hs : List Happening)
    → let l = live hs born in
      (l.exit_code
        ≡ (if exists is_fatal hs then 70 else if exists is_loop_failure hs then 71 else 0))
      × (l.stopping ≡ exists is_ending hs)
      × (2 ≤ count is_signal hs → l.immediate ≡ true)
      × (exists is_break hs ≡ true → l.immediate ≡ true)
      × (count is_signal hs ≡ 0 → exists is_break hs ≡ false → l.immediate ≡ false)
live-end hs =
    let first : IsConsistent 0 false born = record {
      stops = refl;
      immediately = refl;
      at_least = omega arith;
      at_most = omega arith;
    } in
    let (m, d, e, f, c) = live-IsConsistent hs 0 false born first in
    (
      ground (arith, live-code hs born),
      ground (arith, live-stopping hs born),
      λ h. ground (arith, c.immediately, c.at_least, c.at_most, e),
      λ h. ground (arith, c.immediately, f),
      λ h k. ground (arith, c.immediately, c.at_least, c.at_most, e, f),
    )

-- `_watchdog`: the age of the last tick at each look; `true` is the abort of the process.
pub watchdog : ℕ → ℕ → List ℕ → Bool
watchdog lease stalls [] = false
watchdog lease stalls (stalled ∷ later) =
    let seen = if ltb lease stalled then stalls + 1 else 0 in
    let rest = watchdog lease seen later in if leb 2 seen then true else rest

-- Two looks in a row find the event loop stalled for longer than a lease.
abbrev pub twice_in_row : ℕ → List ℕ → Bool
twice_in_row lease (a ∷ b ∷ later) = (ltb lease a && ltb lease b) || twice_in_row lease (b ∷ later)
twice_in_row lease _ = false

abbrev stalled_first : ℕ → List ℕ → Bool
stalled_first lease [] = false
stalled_first lease (a ∷ later) = ltb lease a

watchdog-row :
    (lease : ℕ) (ages : List ℕ)
    → (watchdog lease 0 ages ≡ twice_in_row lease ages)
      × (watchdog lease 1 ages ≡ (stalled_first lease ages || twice_in_row lease ages))
unfolding watchdog
watchdog-row lease [] = (refl, refl)
watchdog-row lease (a ∷ []) = ground arith
watchdog-row lease (a ∷ b ∷ later) = ground (arith, watchdog-row lease (b ∷ later))

-- The watchdog aborts the process exactly when two looks in a row find that the event loop has not
-- ticked for longer than a lease; a single stall, as behind a suspended process, never does.
pub watchdog-twice_in_row :
    (lease : ℕ) (ages : List ℕ) → watchdog lease 0 ages ≡ twice_in_row lease ages
watchdog-twice_in_row lease ages = (watchdog-row lease ages).0
