-- ===== src/Sandbox/Scavenger.antt =====
-- `find_marked`, `signal_marked`, `_kill_marked`, `_owner_of` and `scavenge_orphans` of src/fronta/sandbox.py, over
-- the processes of `/proc`. A process's environment is its bytes, entries ended by NUL.
pub mod Orphans
use fronta.Prelude.{
  ℕ, ◌+◌, ◌≡◌, refl, sym, ap, subst, ◌∙◌, Bool, true, false, not, ◌&&◌, ◌||◌, Option, none, some,
  List, [], ◌∷◌, ◌++◌, arith, Bool-cases, Option-cases, inl, inr, exists, is_some, ◌==◌,
  if◌then◌else◌, if_true, if_false, filter_map, find, keep, count,
}
use fronta.Codec.Text.{Text}
use fronta.Sandbox.Identity.{same_text, starts_with}
use fronta.Sandbox.Process.{Opening, open_marked}
use fronta.Sandbox.Pidfd.{Pidfd, send_signal}

-- A process with a readable environment, what opening a handle for it meets, its environment at the recheck, and whether
-- it takes the signal.
pub record Process : Type 0 where
  pub pid : ℕ
  pub environ : Text
  pub opening : Opening
  pub rechecked : Text
  pub takes_signal : Bool

-- `marker in environ`, for bytes.
unfoldable pub contains : Text → Text → Bool
contains marker [] = starts_with marker []
contains marker (c ∷ cs) = let rest = contains marker cs in starts_with marker (c ∷ cs) || rest

-- `f"{name}={value}".encode() + b"\0"`
abbrev pub marker_of : Text → Text → Text
marker_of name value = name ++ 61 ∷ (value ++ 0 ∷ [])

-- `_kill_marked`
unfoldable pub kill_marked : Text → Process → Bool
unfolding contains open_marked send_signal
kill_marked marker p = elim (open_marked p.opening (contains marker p.rechecked)) [
  | none ↦ false
  | some h ↦ (send_signal p.takes_signal h).0
]

-- `find_marked`
unfoldable pub find_marked : Text → List Process → List Process
find_marked marker ps = keep (λ p. contains marker p.environ) ps

-- `signal_marked`, the pids that it signals; its answer is their number.
unfoldable pub signal_marked : Text → List ℕ → List Process → List ℕ
unfolding kill_marked
signal_marked marker exclude [] = []
signal_marked marker exclude (p ∷ ps) =
    let rest = signal_marked marker exclude ps in
    if contains marker p.environ && not (exists (λ i. i == p.pid) exclude) && kill_marked marker p
    then p.pid ∷ rest
    else rest

-- `environ.split(b"\0")`
abbrev add_first : ℕ → List Text → List Text
add_first c [] = (c ∷ []) ∷ []
add_first c (e ∷ es) = (c ∷ e) ∷ es

unfoldable pub entries_of : Text → List Text
entries_of [] = [] ∷ []
entries_of (c ∷ cs) = let rest = entries_of cs in if c == 0 then [] ∷ rest else add_first c rest

-- `entry[len(prefix):]`
abbrev without_prefix : Text → Text → Text
without_prefix [] text = text
without_prefix (p ∷ ps) [] = []
without_prefix (p ∷ ps) (c ∷ cs) = without_prefix ps cs

abbrev valued : Text → Option Text → Option Text
valued prefix none = none
valued prefix (some entry) = some (without_prefix prefix entry)

-- `_owner_of`, for the name of the worker's variable; the decoding of a value is left out.
unfoldable pub owner_of : Text → Text → Option Text
unfolding entries_of
owner_of name environ =
    let prefix = name ++ 61 ∷ [] in valued prefix (find (starts_with prefix) (entries_of environ))

-- The sets `dead` and `alive`, and the pids killed so far, in reverse.
pub record Sweep : Type 0 where
  pub dead : List Text
  pub alive : List Text
  pub killed : List ℕ

abbrev pub member : Text → List Text → Bool
member t ts = exists (same_text t) ts

abbrev pub is_false : Option Bool → Bool
is_false none = false
is_false (some b) = not b

abbrev kill_orphan : Text → Text → Process → Sweep → Sweep
kill_orphan name owner p s =
    if kill_marked (marker_of name owner) p then record s { killed = p.pid ∷ s.killed } else s

abbrev sweep_owned : Text → (Text → Option Bool) → Process → Option Text → Sweep → Sweep
sweep_owned name alive p none s = s
sweep_owned name alive p (some owner) s =
    if member owner s.alive
    then s
    else if member owner s.dead
    then kill_orphan name owner p s
    else if not (is_false (alive owner))
    then record s { alive = owner ∷ s.alive }
    else kill_orphan name owner p (record s { dead = owner ∷ s.dead })

-- The loop of `scavenge_orphans`.
unfoldable pub sweep : Text → (Text → Option Bool) → List Process → Sweep → Sweep
unfolding owner_of kill_marked
sweep name alive [] s = s
sweep name alive (p ∷ ps) s =
    sweep name alive ps (sweep_owned name alive p (owner_of name p.environ) s)

-- `scavenge_orphans`, the pids that it kills. `fresh` is the answer of its own call of `worker_id`, with a new
-- `uuid4`, and `alive` is `is_worker_alive`.
unfoldable pub scavenge_orphans : Text → Text → (Text → Option Bool) → List Process → List ℕ
unfolding sweep
scavenge_orphans name fresh alive ps =
    (sweep name alive ps (record { dead = []; alive = fresh ∷ []; killed = [] })).killed

-- What the sweep is to kill.
abbrev pub is_orphan : Text → (Text → Option Bool) → Process → Option Text → Bool
is_orphan name alive p none = false
is_orphan name alive p (some owner) = is_false (alive owner) && kill_marked (marker_of name owner) p

abbrev pub orphans_of : Text → (Text → Option Bool) → List Process → List ℕ → List ℕ
orphans_of name alive [] done = done
orphans_of name alive (p ∷ ps) done =
    orphans_of name alive ps
      (if is_orphan name alive p (owner_of name p.environ) then p.pid ∷ done else done)
