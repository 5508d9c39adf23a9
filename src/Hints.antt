-- ===== src/Hints.antt =====
-- `Hints` of src/fronta/hints.py: notifications that are gathered and sent outside of the durable
-- commits. Delays are in tenths of a second.
pub mod Delivery
pub mod Examples
use fronta.Prelude.{
  ℕ, ◌+◌, ◌*◌, ◌≤◌, ◌≡◌, refl, min, Bool, true, false, not, ◌&&◌, ◌||◌, or_false, Option, none,
  some, String, List, [], ◌∷◌, ◌++◌, exists, text_eq, ◌==◌, if◌then◌else◌, is_some, arith,
  Bool-cases, inl, inr,
}
use fronta.Model.{State, same_state}

-- The three sets.
pub record Sets : Type 0 where
  pub wake : List String
  pub cancel : List ℕ
  pub feed : List State

pub data Hint : Type 0 where
  wakes : String → Hint
  cancels : ℕ → Hint
  feeds : State → Hint

-- `set.add` and `in`, for the equality of the elements.
abbrev pub has {ℓ} : {A : Type ℓ} → (A → A → Bool) → A → List A → Bool
has eq x xs = exists (λ y. eq y x) xs

abbrev pub insert {ℓ} : {A : Type ℓ} → (A → A → Bool) → A → List A → List A
insert eq x xs = if has eq x xs then xs else x ∷ xs

-- `set.update`
abbrev pub union {ℓ} : {A : Type ℓ} → (A → A → Bool) → List A → List A → List A
union eq [] ys = ys
union eq (x ∷ xs) ys = union eq xs (insert eq x ys)

abbrev pub no_hints : Sets
no_hints = record { wake = []; cancel = []; feed = [] }

abbrev pub none_of {ℓ} : {A : Type ℓ} → List A → Bool
none_of [] = true
none_of (x ∷ xs) = false

abbrev pub is_empty : Sets → Bool
is_empty s = none_of s.wake && none_of s.cancel && none_of s.feed

abbrev pub holds_hint : Hint → Sets → Bool
holds_hint (wakes t) s = has text_eq t s.wake
holds_hint (cancels i) s = has (λ a b. a == b) i s.cancel
holds_hint (feeds f) s = has same_state f s.feed

abbrev pub merge : Sets → Sets → Sets
merge new old = record {
  wake = union text_eq new.wake old.wake;
  cancel = union (λ a b. a == b) new.cancel old.cancel;
  feed = union same_state new.feed old.feed;
}

-- The object and its task: `sent` holds what the database has confirmed, oldest first.
pub record Hints : Type 0 where
  pub pending : Sets
  pub in_flight : Option Sets
  pub sent : List Sets
  pub ready : Bool
  pub closing : Bool
  pub ended : Bool
  pub delay : ℕ

-- The steps between two awaits: `wake`, `cancel` or `feed`; the task behind `_ready.wait()`; the end of
-- `_send`; and the two ends of `close`.
pub data Step : Type 0 where
  adds : Sets → Step
  begins : Step
  delivers : Bool → Step
  closes : Step
  cuts : Step

-- `wake`, `cancel` and `feed`, with `_schedule`; a new task starts with the first delay.
unfoldable pub schedule : Sets → Hints → Hints
schedule new h = record h {
  pending = merge new h.pending;
  ready = true;
  ended = false;
  delay = if h.ended then 1 else h.delay;
}

-- The head of an iteration of `_run`, where `_ready` is set and nothing is in flight.
unfoldable pub begin : Hints → Hints
begin h =
    if h.ready && not (is_some h.in_flight) && not h.ended
    then if h.closing && is_empty h.pending
      then record h { ready = false; ended = true }
      else record h { ready = false; in_flight = some h.pending; pending = no_hints }
    else h

-- The rest of the iteration: what was in flight is confirmed, or it joins what came meanwhile.
unfoldable pub deliver : Bool → Option Sets → Hints → Hints
deliver ok none h = h
deliver true (some s) h = record h {
  in_flight = none;
  sent = h.sent ++ s ∷ [];
  delay = 1;
  ready = if h.closing then true else h.ready;
}
deliver false (some s) h = record h {
  in_flight = none;
  pending = merge s h.pending;
  ready = true;
  delay = min 10 (h.delay * 2);
}

unfoldable pub step : Step → Hints → Hints
unfolding schedule begin deliver
step (adds new) h = schedule new h
step begins h = begin h
step (delivers ok) h = deliver ok h.in_flight h
step closes h = record h { closing = true; ready = true }
step cuts h = record h { pending = no_hints; in_flight = none; ended = true }

unfoldable pub run : List Step → Hints → Hints
unfolding step
run [] h = h
run (s ∷ ss) h = run ss (step s h)
