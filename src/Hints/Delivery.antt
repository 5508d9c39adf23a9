-- ===== src/Hints/Delivery.antt =====
-- No hint is lost.
use fronta.Prelude.{
  ℕ, ◌≤◌, ◌≡◌, refl, ◌∙◌, Bool, true, false, ◌||◌, or_false, Option, none, some, List, [], ◌∷◌,
  ◌++◌, exists, text_eq, eq_iff, ◌==◌, is_some, arith, Bool-cases, inl, inr,
}
use fronta.Model.{same_state}
use fronta.Hints.{
  Sets, Hint, wakes, cancels, feeds, has, insert, union, no_hints, is_empty, holds_hint, merge,
  Hints, Step, adds, begins, delivers, closes, cuts, schedule, begin, deliver, step, run,
}

-- The equality of the elements is transitive.
abbrev Trans {ℓ} : {A : Type ℓ} → (A → A → Bool) → Type ℓ
Trans {A = A} eq = (x y z : A) → eq x y ≡ true → eq y z ≡ true → eq x z ≡ true

module _ {ℓ} {A : Type ℓ} (eq : A → A → Bool) where
  has-kept : (x y : A) (ys : List A) → has eq y ys ≡ true → has eq y (insert eq x ys) ≡ true
  has-kept x y ys h = ground arith

  union-kept : (y : A) (xs ys : List A) → has eq y ys ≡ true → has eq y (union eq xs ys) ≡ true
  union-kept y [] ys h = h
  union-kept y (x ∷ xs) ys h = union-kept y xs (insert eq x ys) (has-kept x y ys h)

  has-equal :
      Trans eq → (x y : A) (ys : List A) → eq x y ≡ true → has eq x ys ≡ true → has eq y ys ≡ true
  has-equal t x y [] e h = absurd (cc h)
  has-equal t x y (z ∷ zs) e h = ground (arith, t z x y, has-equal t x y zs e)

  insert-new : Trans eq → (x y : A) (ys : List A) → eq x y ≡ true → has eq y (insert eq x ys) ≡ true
  insert-new t x y ys e = ground (arith, has-equal t x y ys e)

  union-new :
      Trans eq → (y : A) (xs ys : List A) → has eq y xs ≡ true → has eq y (union eq xs ys) ≡ true
  union-new t y [] ys h = absurd (cc h)
  union-new t y (x ∷ xs) ys h = elim (Bool-cases (eq x y)) [
    | inl e ↦ union-kept y xs (insert eq x ys) (insert-new t x y ys e)
    | inr e ↦ union-new t y xs (insert eq x ys) (ground arith)
  ]

text_eq-Trans : Trans text_eq
text_eq-Trans x y z h k = (eq_iff x z).1 ((eq_iff x y).0 h ∙ (eq_iff y z).0 k)

same_state-Trans : Trans same_state
same_state-Trans x y z h k = ground arith

==-Trans : Trans (λ (a b : ℕ). a == b)
==-Trans x y z h k = ground arith

merge-new :
    (h : Hint) (new old : Sets) → holds_hint h new ≡ true → holds_hint h (merge new old) ≡ true
merge-new (wakes t) new old e = union-new text_eq text_eq-Trans t new.wake old.wake e
merge-new (cancels i) new old e = union-new (λ (a b : ℕ). a == b) ==-Trans i new.cancel old.cancel e
merge-new (feeds f) new old e = union-new same_state same_state-Trans f new.feed old.feed e

merge-kept :
    (h : Hint) (new old : Sets) → holds_hint h old ≡ true → holds_hint h (merge new old) ≡ true
merge-kept (wakes t) new old e = union-kept text_eq t new.wake old.wake e
merge-kept (cancels i) new old e = union-kept (λ (a b : ℕ). a == b) i new.cancel old.cancel e
merge-kept (feeds f) new old e = union-kept same_state f new.feed old.feed e

abbrev pub flies : Hint → Option Sets → Bool
flies h none = false
flies h (some s) = holds_hint h s

-- The hint waits, is being sent, or was confirmed.
abbrev pub is_known : Hint → Hints → Bool
is_known h q = holds_hint h q.pending || flies h q.in_flight || exists (holds_hint h) q.sent

abbrev pub is_cut : Step → Bool
is_cut cuts = true
is_cut _ = false

abbrev pub is_added : Hint → Step → Bool
is_added h (adds new) = holds_hint h new
is_added h _ = false

empty-holds : (h : Hint) (s : Sets) → is_empty s ≡ true → holds_hint h s ≡ false
empty-holds (wakes t) s e = ground arith
empty-holds (cancels i) s e = ground arith
empty-holds (feeds f) s e = ground arith

none-holds : (h : Hint) → holds_hint h no_hints ≡ false
none-holds (wakes t) = refl
none-holds (cancels i) = refl
none-holds (feeds f) = refl

exists-append {ℓ} :
    {A : Type ℓ} (p : A → Bool) (xs ys : List A)
    → exists p (xs ++ ys) ≡ (exists p xs || exists p ys)
exists-append p [] ys = refl
exists-append p (x ∷ xs) ys = ground (arith, exists-append p xs ys)

deliver-known :
    (h : Hint) (ok : Bool) (o : Option Sets) (q : Hints)
    → (holds_hint h q.pending || flies h o || exists (holds_hint h) q.sent) ≡ true
    → q.in_flight ≡ o
    → is_known h (deliver ok o q) ≡ true
unfolding deliver
deliver-known h ok none q k e = rw e k
deliver-known h true (some s) q k e = ground (arith, exists-append (holds_hint h) q.sent (s ∷ []))
deliver-known h false (some s) q k e =
    ground (arith, merge-new h s q.pending, merge-kept h s q.pending)

step-known :
    (h : Hint) (s : Step) (q : Hints)
    → is_cut s ≡ false
    → (is_known h q || is_added h s) ≡ true
    → is_known h (step s q) ≡ true
unfolding step schedule begin
step-known h (adds new) q c k =
    ground (arith, merge-new h new q.pending, merge-kept h new q.pending)
step-known h begins q c k = ground (arith, empty-holds h q.pending, none-holds h)
step-known h (delivers ok) q c k = deliver-known h ok q.in_flight q (ground arith) refl
step-known h closes q c k = ground arith
step-known h cuts q c k = absurd (cc c)

-- No hint is lost: one that was pending, in flight or confirmed, or that was added by some step, is
-- still pending, in flight or confirmed behind any further steps, failed deliveries and additions
-- during a delivery included, unless `close` has cut the task short.
pub run-keeps_hint :
    (h : Hint) (ss : List Step) (q : Hints)
    → exists is_cut ss ≡ false
    → (is_known h q || exists (is_added h) ss) ≡ true
    → is_known h (run ss q) ≡ true
unfolding run
run-keeps_hint h [] q c k = ground arith
run-keeps_hint h (s ∷ ss) q c k =
    let (here, later) = or_false (is_cut s) _ c in
    run-keeps_hint h ss (step s q) later (ground (arith, step-known h s q here))

-- Where hints are pending the task is awake, and its delay is at most a second.
pub record IsAwake (q : Hints) : Type 0 where
  pub wakeful : is_empty q.pending ≡ false → q.ready ≡ true
  pub alive : is_empty q.pending ≡ false → q.ended ≡ false
  pub flying : is_some q.in_flight ≡ true → q.ended ≡ false
  pub bounded : q.delay ≤ 10

deliver-IsAwake :
    (ok : Bool) (o : Option Sets) (q : Hints)
    → q.in_flight ≡ o
    → IsAwake q
    → IsAwake (deliver ok o q)
unfolding deliver
deliver-IsAwake ok none q e a = a
deliver-IsAwake true (some s) q e a = record {
  wakeful = ground (arith, a.wakeful);
  alive = a.alive;
  flying = λ h. absurd (cc h);
  bounded = omega arith;
}
deliver-IsAwake false (some s) q e a =
    let running : q.ended ≡ false = a.flying (rw e refl) in
    record {
      wakeful = λ h. refl;
      alive = λ h. running;
      flying = λ h. running;
      bounded = omega arith;
    }

step-IsAwake : (s : Step) (q : Hints) → IsAwake q → IsAwake (step s q)
unfolding step schedule begin
step-IsAwake (adds new) q a = record {
  wakeful = λ h. refl;
  alive = λ h. refl;
  flying = λ h. refl;
  bounded = ground (arith, a.bounded);
}
step-IsAwake begins q a = record {
  wakeful = ground (arith, a.wakeful);
  alive = ground (arith, a.alive);
  flying = ground (arith, a.flying);
  bounded = ground (arith, a.bounded);
}
step-IsAwake (delivers ok) q a = deliver-IsAwake ok q.in_flight q refl a
step-IsAwake closes q a = record {
  wakeful = λ h. refl;
  alive = a.alive;
  flying = a.flying;
  bounded = a.bounded;
}
step-IsAwake cuts q a = record {
  wakeful = λ h. absurd (cc h);
  alive = λ h. absurd (cc h);
  flying = λ h. absurd (cc h);
  bounded = a.bounded;
}

-- No wakeup is lost: through any steps, a task with pending hints is running and has its event set, a
-- hint that was added while the last ones were being sent included, and its delay stays within a second.
pub run-IsAwake : (ss : List Step) (q : Hints) → IsAwake q → IsAwake (run ss q)
unfolding run
run-IsAwake [] q a = a
run-IsAwake (s ∷ ss) q a = run-IsAwake ss (step s q) (step-IsAwake s q a)
