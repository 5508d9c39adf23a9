-- ===== src/Worker/Drain.antt =====
-- The end of a worker in src/fronta/worker.py: `_drain`, `_wait_all`, `_stop_budget_s` and the loops of
-- `_reaper`, `_purger` and `_release_orphans`. Times are in microseconds.
use fronta.Prelude.{
  ℕ, zero, suc, ◌+◌, ◌*◌, ◌≡◌, refl, sym, ap, ◌∙◌, Bool, true, false, Bool-cases, inl, inr, if_true,
  if_false, not, ◌&&◌, ◌||◌, Option, none, some, String, List, [], ◌∷◌, ◌++◌, exists, keep, length,
  ltb, leb, ◌==◌, if◌then◌else◌, arith,
}
use fronta.Model.{State, queued, same_state}
use fronta.Store.Tables.{Db}
use fronta.Store.Attempts.{release_orphans}
use fronta.Store.Control.{purge_tasks, reap}

abbrev pub is_empty : List ℕ → Bool
is_empty [] = true
is_empty (x ∷ xs) = false

-- `_stop_budget_s`
abbrev pub stop_budget : ℕ → ℕ → ℕ
stop_budget grace kill_timeout = grace + 6 * kill_timeout + 1000000

-- What a wait of `_wait_all` wakes to: the time, the tasks that are done, and whether the second signal
-- has come.
pub record Woken : Type 0 where
  pub now : ℕ
  pub done : List ℕ
  pub signalled : Bool

abbrev pub without : List ℕ → List ℕ → List ℕ
without done = keep (λ i. not (exists (λ j. j == i) done))

abbrev pub is_late : Option ℕ → ℕ → Bool
is_late none now = false
is_late (some deadline) now = leb deadline now

-- `_wait_all`: the tasks that are left when it returns; `none` where it still waits.
unfoldable pub wait_all : Option ℕ → Bool → List Woken → List ℕ → Option (List ℕ)
wait_all deadline stop_on_immediate [] [] = some []
wait_all deadline stop_on_immediate [] (t ∷ ts) = none
wait_all deadline stop_on_immediate (w ∷ ws) [] = some []
wait_all deadline stop_on_immediate (w ∷ ws) (t ∷ ts) =
    let left = without w.done (t ∷ ts) in
    let later = wait_all deadline stop_on_immediate ws left in
    if (stop_on_immediate && w.signalled) || is_late deadline w.now then some left else later

-- What `_drain` does.
pub data Phase : Type 0 where
  waits : List ℕ → Option ℕ → Bool → Phase
  stops_all : Phase
  cancels_all : List ℕ → Phase

-- The state of `_immediate` and the pending tasks, each as `_drain` looks at them in turn.
pub record Seen : Type 0 where
  pub immediate_first : Bool
  pub running : List ℕ
  pub stopped : List ℕ
  pub immediate_then : Bool
  pub unsettled : List ℕ
  pub left : List ℕ

abbrev pub when : Bool → List Phase → List Phase
when b ps = if b then ps else []

-- The phases behind the stop.
abbrev pub settle_phases : ℕ → Seen → List Phase
settle_phases budget s =
    when (not s.immediate_then) (waits s.stopped none true ∷ [])
    ++ when (not (is_empty s.unsettled)) (waits s.unsettled (some budget) false ∷ [])
    ++ when (not (is_empty s.left)) (cancels_all s.left ∷ waits s.left (some budget) false ∷ [])

unfoldable pub drain : ℕ → ℕ → Seen → List Phase
drain grace kill_timeout s =
    when (not (is_empty s.running) && not s.immediate_first)
      (waits s.running (some grace) true ∷ [])
    ++ stops_all
      ∷ when (not (is_empty s.stopped)) (settle_phases (stop_budget grace kill_timeout) s)

-- A look that ends a wait whatever is left, and the looks up to the first such one.
abbrev pub is_final : Option ℕ → Bool → Woken → Bool
is_final deadline stop_on_immediate w = (stop_on_immediate && w.signalled) || is_late deadline w.now

abbrev pub looks : Option ℕ → Bool → List Woken → List Woken
looks deadline stop_on_immediate [] = []
looks deadline stop_on_immediate (w ∷ ws) =
    let later = looks deadline stop_on_immediate ws in
    if is_final deadline stop_on_immediate w then w ∷ [] else w ∷ later

-- The tasks that none of the looks has found done.
abbrev pub unfinished : List Woken → List ℕ → List ℕ
unfinished ws = keep (λ i. not (exists (λ (w : Woken). exists (λ j. j == i) w.done) ws))

unfinished-step :
    (w : Woken) (ws : List Woken) (ts : List ℕ)
    → unfinished (w ∷ ws) ts ≡ unfinished ws (without w.done ts)
unfinished-step w ws [] = refl
unfinished-step w ws (t ∷ ts) = ground (arith, unfinished-step w ws ts)

unfinished-nil : (ts : List ℕ) → unfinished [] ts ≡ ts
unfinished-nil [] = refl
unfinished-nil (t ∷ ts) = ap (λ z. t ∷ z) (unfinished-nil ts)

ends_here : (a b c : Bool) → b ≡ true → (a || (b || c)) ≡ true
ends_here a b c h = ground (arith, h)

-- A wait returns as soon as every task is done, or at the first look behind its deadline or, where it minds it, behind
-- the second signal; it then returns exactly the tasks that no look up to that one has found done, and until then it
-- still waits.
pub wait_all-exact :
    (deadline : Option ℕ) (stop_on_immediate : Bool) (ws : List Woken) (ts : List ℕ)
    → let left = unfinished (looks deadline stop_on_immediate ws) ts in
      wait_all deadline stop_on_immediate ws ts ≡ (
        if is_empty left || exists (is_final deadline stop_on_immediate) ws
        then some left
        else none)
unfolding wait_all
wait_all-exact deadline stop [] [] = refl
wait_all-exact deadline stop [] (t ∷ ts) = refl
wait_all-exact deadline stop (w ∷ ws) [] = refl
wait_all-exact deadline stop (w ∷ ws) (t ∷ ts) =
    let left = without w.done (t ∷ ts) in
    elim (Bool-cases (is_final deadline stop w)) [
      | inl e ↦
          let seen =
            ap (λ z. unfinished z (t ∷ ts)) (if_true (w ∷ []) (w ∷ looks deadline stop ws) e) in
          let same = seen ∙ unfinished-step w [] (t ∷ ts) ∙ unfinished-nil left in
          let here = unfinished (looks deadline stop (w ∷ ws)) (t ∷ ts) in
          let ends : (is_empty here || exists (is_final deadline stop) (w ∷ ws)) ≡ true =
            ends_here (is_empty here) _ _ e in
          if_true (some left) _ e ∙ ap some (sym same) ∙ sym (if_true (some here) none ends)
      | inr e ↦
          let seen = ap (λ z. unfinished z (t ∷ ts)) (if_false (w ∷ []) _ e) in
          let same = seen ∙ unfinished-step w (looks deadline stop ws) (t ∷ ts) in
          if_false (some left) _ e
          ∙ wait_all-exact deadline stop ws left
          ∙ ap (λ z. if is_empty z || exists (is_final deadline stop) ws then some z else none)
              (sym same)
          ∙ ap
              (λ b.
                if is_empty (unfinished (looks deadline stop (w ∷ ws)) (t ∷ ts)) || b
                then some (unfinished (looks deadline stop (w ∷ ws)) (t ∷ ts))
                else none)
              (sym (ap (λ b. b || exists (is_final deadline stop) ws) e))
    ]

-- `deleted += batch` until a batch is not full, on the tables that the others leave.
unfoldable pub purge_all : (ℕ → Db → Db) → ℕ → ℕ → ℕ → Db → Option (ℕ × Db)
purge_all others before batch zero db = none
purge_all others before batch (suc fuel) db =
    let done = purge_tasks before batch (others fuel db) in
    let later = purge_all others before batch fuel done.0 in
    if ltb done.1 batch
    then some (done.1, done.0)
    else elim later [ none ↦ none | some (n, d) ↦ some (done.1 + n, d) ]

-- `_release_orphans`: the rows of each round, until one has fewer than 256.
unfoldable pub release_all :
    (ℕ → Db → Db)
    → (ℕ → ℕ)
    → (ℕ → ℕ)
    → String
    → List ℕ
    → ℕ
    → Db
    → Option (List (ℕ × String × State) × Db)
release_all others now draw worker live zero db = none
release_all others now draw worker live (suc fuel) db =
    let done = release_orphans (now fuel) draw worker live (others fuel db) in
    let later = release_all others now draw worker live fuel done.0 in
    if ltb (length done.1) 256
    then some (done.1, done.0)
    else elim later [ none ↦ none | some (rs, d) ↦ some (done.1 ++ rs, d) ]

-- `(t for _, t, s in rows if s is State.QUEUED)`
abbrev pub woken_types : List (ℕ × String × State) → List String
woken_types [] = []
woken_types ((id, type, state) ∷ rest) =
    let later = woken_types rest in if same_state state queued then type ∷ later else later

-- A round of `_reaper`, with the types to wake.
unfoldable pub reap_round : ℕ → (ℕ → ℕ) → Db → Db × List String
reap_round now draw db = let done = reap now draw 100 db in (done.0, woken_types done.1)
