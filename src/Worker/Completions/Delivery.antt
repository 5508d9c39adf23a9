-- ===== src/Worker/Completions/Delivery.antt =====
-- Every controller that hands in an outcome has its future set.
use mathlib.Core.List.{append-eq-nil_iff, append_assoc, map-append, append-nil}
use fronta.Prelude.{
  ℕ, ◌+◌, ◌-◌, ◌≤◌, ◌≡◌, refl, ap, sym, ◌∙◌, Bool, true, Bool-cases, inl, inr, Option, is_some, not,
  ◌||◌, exists, keep, List, [], ◌∷◌, ◌++◌, map, length, length-append, arith,
}
use fronta.Model.{Completion}
use fronta.Worker.Completions.{
  Waiting, Answer, set_result, set_exception, cancels, answer_of, applied, crashed, cancelled,
  Written, Round, Queue, take_batch, give, deliver, iteration, active, write, sent_batch, run,
}
use fronta.Worker.Completions.Batches.{take_batch-splits, take_batch-nonempty}

abbrev pub waiters : List Waiting → List ℕ
waiters = map (λ (w : Waiting). w.waiter)

abbrev pub answered : Queue → List ℕ
answered q = map (λ (a : ℕ × Option Answer). a.0) q.answers

-- The waiters that were dealt with and those that still wait, in the order in which they came.
abbrev pub known : Queue → List ℕ
known q = answered q ++ waiters q.pending

abbrev pub arrivals : List Round → List Waiting
arrivals [] = []
arrivals (r ∷ rs) = r.arrived ++ arrivals rs

waiters-give :
    (over : ℕ → Bool) (f : Waiting → Answer) (ws : List Waiting)
    → map (λ (a : ℕ × Option Answer). a.0) (map (give over f) ws) ≡ waiters ws
waiters-give over f [] = refl
waiters-give over f (w ∷ ws) = ap (λ z. w.waiter ∷ z) (waiters-give over f ws)

waiters-append : (xs ys : List Waiting) → waiters (xs ++ ys) ≡ waiters xs ++ waiters ys
waiters-append = map-append (λ (w : Waiting). w.waiter)

answers-append :
    (xs : List (ℕ × Option Answer)) (over : ℕ → Bool) (f : Waiting → Answer) (ws : List Waiting)
    → map (λ (a : ℕ × Option Answer). a.0) (xs ++ map (give over f) ws)
      ≡ map (λ (a : ℕ × Option Answer). a.0) xs ++ waiters ws
answers-append xs over f ws =
    map-append (λ (a : ℕ × Option Answer). a.0) xs (map (give over f) ws)
    ∙ ap (λ z. map (λ (a : ℕ × Option Answer). a.0) xs ++ z) (waiters-give over f ws)

deliver-known :
    (r : Round) (batch rest : List Waiting) (w : Written) (q : Queue)
    → known (deliver r batch rest w q) ≡ answered q ++ waiters (batch ++ rest)
unfolding deliver
deliver-known r batch rest (applied states) q =
    rw
      (
        answers-append q.answers r.over (λ w. set_result (answer_of states w.completion.id)) batch,
        waiters-append batch rest,
      )
      (append_assoc (answered q) (waiters batch) (waiters rest))
deliver-known r batch rest crashed q =
    rw (append-nil, answers-append q.answers r.over (λ w. set_exception) (batch ++ rest)) refl
deliver-known r batch rest cancelled q =
    rw (append-nil, answers-append q.answers r.over (λ w. cancels) (batch ++ rest)) refl

-- An iteration of a batch with what arrives keeps every waiter, in order.
iteration-known : (r : Round) (q : Queue) → known (iteration r q) ≡ known q ++ waiters r.arrived
unfolding iteration
iteration-known r q =
    let batch : List Waiting = (take_batch 256 [] q.pending).0 in
    let rest : List Waiting = (take_batch 256 [] q.pending).1 in
    let whole : batch ++ (rest ++ r.arrived) ≡ q.pending ++ r.arrived =
      sym (append_assoc batch rest r.arrived)
      ∙ ap (λ z. z ++ r.arrived) (take_batch-splits 256 [] q.pending) in
    deliver-known r batch (rest ++ r.arrived) _ _
    ∙ ap (λ z. answered q ++ waiters z) whole
    ∙ ap (λ z. answered q ++ z) (waiters-append q.pending r.arrived)
    ∙ sym (append_assoc (answered q) (waiters q.pending) (waiters r.arrived))

run-known : (rs : List Round) (q : Queue) → known (run rs q) ≡ known q ++ waiters (arrivals rs)
unfolding run
run-known [] q = sym (append-nil (known q))
run-known (r ∷ rs) q =
    run-known rs (iteration r q)
    ∙ ap (λ z. z ++ waiters (arrivals rs)) (iteration-known r q)
    ∙ append_assoc (known q) (waiters r.arrived) (waiters (arrivals rs))
    ∙ ap (λ z. known q ++ z) (sym (waiters-append r.arrived (arrivals rs)))

-- The entries without an answer whose future was not done by itself.
abbrev pub is_unanswered : (ℕ → Bool) → ℕ × Option Answer → Bool
is_unanswered over a = not (is_some a.1 || over a.0)

abbrev pub over_in : List Round → ℕ → Bool
over_in rs w = exists (λ (r : Round). r.over w) rs

abbrev pub unanswered : List Round → Queue → List (ℕ × Option Answer)
unanswered rs q = keep (is_unanswered (over_in rs)) q.answers

module _ (over : ℕ → Bool) where
  all_given :
      (mine : ℕ → Bool) (f : Waiting → Answer) (ws : List Waiting)
      → ((w : ℕ) → mine w ≡ true → over w ≡ true)
      → keep (is_unanswered over) (map (give mine f) ws) ≡ []
  all_given mine f [] h = refl
  all_given mine f (w ∷ ws) h = elim (Bool-cases (mine w.waiter)) [
    | inl e ↦ ground (arith, all_given mine f ws h, h w.waiter e, e)
    | inr e ↦ ground (arith, all_given mine f ws h, e)
  ]

  keep-given :
      (mine : ℕ → Bool) (f : Waiting → Answer) (ws : List Waiting) (done : List (ℕ × Option Answer))
      → ((w : ℕ) → mine w ≡ true → over w ≡ true)
      → keep (is_unanswered over) (done ++ map (give mine f) ws) ≡ keep (is_unanswered over) done
  keep-given mine f ws [] h = all_given mine f ws h
  keep-given mine f ws (a ∷ rest) h = ground (arith, keep-given mine f ws rest h)

  deliver-answers :
      (r : Round) (batch rest : List Waiting) (w : Written) (q : Queue)
      → ((w : ℕ) → r.over w ≡ true → over w ≡ true)
      → keep (is_unanswered over) (deliver r batch rest w q).answers
        ≡ keep (is_unanswered over) q.answers
  unfolding deliver
  deliver-answers r batch rest (applied states) q h = keep-given r.over _ batch q.answers h
  deliver-answers r batch rest crashed q h = keep-given r.over _ (batch ++ rest) q.answers h
  deliver-answers r batch rest cancelled q h = keep-given r.over _ (batch ++ rest) q.answers h

  run-answers :
      (rs : List Round) (q : Queue)
      → ((w : ℕ) → over_in rs w ≡ true → over w ≡ true)
      → keep (is_unanswered over) (run rs q).answers ≡ keep (is_unanswered over) q.answers
  unfolding run iteration
  run-answers [] q h = refl
  run-answers (r ∷ rs) q h =
      run-answers rs (iteration r q) (λ w k. h w (ground arith))
      ∙ deliver-answers r (take_batch 256 [] q.pending).0
          ((take_batch 256 [] q.pending).1 ++ r.arrived)
          (write r.written (active r.gone (take_batch 256 [] q.pending).0))
          (record q { sent = q.sent ++ sent_batch (active r.gone (take_batch 256 [] q.pending).0) })
          (λ w k. h w (ground arith))

-- No controller is forgotten and none is answered twice: through any iterations, whatever arrives
-- meanwhile and however the writes end, the waiters that were dealt with and then those that still wait
-- are the old ones and then the new ones, each as often as it came and in the order of arrival; and each
-- that is dealt with has its future set, unless the future was done by itself.
pub run-keeps_waiters :
    (rs : List Round) (q : Queue)
    → (known (run rs q) ≡ known q ++ waiters (arrivals rs))
      × (unanswered rs (run rs q) ≡ unanswered rs q)
run-keeps_waiters rs q = (run-known rs q, run-answers (over_in rs) rs q (λ w h. h))

deliver-pending :
    (r : Round) (batch rest : List Waiting) (w : Written) (q : Queue)
    → length (deliver r batch rest w q).pending ≤ length rest
unfolding deliver
deliver-pending r batch rest (applied states) q = omega arith
deliver-pending r batch rest crashed q = omega arith
deliver-pending r batch rest cancelled q = omega arith

iteration-shrinks :
    (r : Round) (q : Queue) → r.arrived ≡ [] → length (iteration r q).pending ≤ length q.pending - 1
unfolding iteration
iteration-shrinks r q h =
    let batch : List Waiting = (take_batch 256 [] q.pending).0 in
    let rest : List Waiting = (take_batch 256 [] q.pending).1 in
    let sizes : length q.pending ≡ length batch + length rest =
      ap length (sym (take_batch-splits 256 [] q.pending)) ∙ length-append batch rest in
    let cs : List Completion = active r.gone batch in
    let bound : length (iteration r q).pending ≤ length (rest ++ r.arrived) =
      deliver-pending r batch (rest ++ r.arrived) (write r.written cs)
        (record q { sent = q.sent ++ sent_batch cs }) in
    let same : length (rest ++ r.arrived) ≡ length rest = rw h (ap length (append-nil rest)) in
    grind (arith, bound, same, sizes, take_batch-nonempty q.pending)

no_arrivals :
    (r : Round) (rs : List Round) → arrivals (r ∷ rs) ≡ [] → (r.arrived ≡ []) × (arrivals rs ≡ [])
no_arrivals r rs h = append-eq-nil_iff.0 h

run-pending :
    (rs : List Round) (q : Queue)
    → arrivals rs ≡ []
    → length q.pending ≤ length rs
    → length (run rs q).pending ≡ 0
unfolding run
run-pending [] q h n = omega arith
run-pending (r ∷ rs) q h n =
    let (here, later) = no_arrivals r rs h in
    run-pending rs (iteration r q) later (omega (arith, iteration-shrinks r q here))

empty : (ws : List Waiting) → length ws ≡ 0 → ws ≡ []
empty [] h = refl
empty (w ∷ ws) h = absurd (omega arith)

-- The queue empties: without arrivals, as many iterations as there are entries deal with every waiter,
-- whichever way their writes end, and set each one's future, unless it was done by itself.
pub run-drains :
    (rs : List Round) (q : Queue)
    → arrivals rs ≡ []
    → length q.pending ≤ length rs
    → ((run rs q).pending ≡ [])
      × (answered (run rs q) ≡ known q)
      × (unanswered rs (run rs q) ≡ unanswered rs q)
run-drains rs q h n =
    let e : (run rs q).pending ≡ [] = empty (run rs q).pending (run-pending rs q h n) in
    (
      e,
      sym (append-nil (answered (run rs q)))
          ∙ ap (λ z. answered (run rs q) ++ waiters z) (sym e)
          ∙ run-known rs q
          ∙ ap (λ z. known q ++ waiters z) h
          ∙ append-nil (known q),
      run-answers (over_in rs) rs q (λ w h. h),
    )
