-- ===== src/Worker/Completions.antt =====
-- `_Completions` of src/fronta/worker.py: the queue between the attempt controllers and the batches of
-- outcomes that are written to the database.
pub mod Batches
pub mod Delivery
use fronta.Prelude.{
  ℕ, zero, suc, Bool, true, false, Option, none, some, List, [], ◌∷◌, ◌++◌, map, keep, not, exists,
  ◌==◌, if◌then◌else◌,
}
use fronta.Model.{State, Completion}

-- An entry of `pending`; a future is known by the number of its waiter.
pub record Waiting : Type 0 where
  pub completion : Completion
  pub waiter : ℕ

-- What is done to a future.
pub data Answer : Type 0 where
  set_result : Option State → Answer
  set_exception : Answer
  cancels : Answer

-- How the write of a batch ends: with a dict, an exception, or the cancellation of the task.
pub data Written : Type 0 where
  applied : List (ℕ × State) → Written
  crashed : Written
  cancelled : Written

-- What an iteration meets: the entries that arrive while it writes, the futures that are cancelled as
-- it starts to write, those that are done as it delivers, and the answer of the write.
pub record Round : Type 0 where
  pub arrived : List Waiting
  pub gone : ℕ → Bool
  pub over : ℕ → Bool
  pub written : List Completion → Written

-- The queue, the batches written so far and the answers given so far, oldest first.
pub record Queue : Type 0 where
  pub pending : List Waiting
  pub sent : List (List Completion)
  pub answers : List (ℕ × Option Answer)

-- The inner loop: at most `room` entries, up to the first id that the batch has already.
abbrev pub take_batch : ℕ → List ℕ → List Waiting → List Waiting × List Waiting
take_batch room ids [] = ([], [])
take_batch zero ids (w ∷ ws) = ([], w ∷ ws)
take_batch (suc room) ids (w ∷ ws) =
    let taken = take_batch room (w.completion.id ∷ ids) ws in
    if exists (λ id. id == w.completion.id) ids then ([], w ∷ ws) else (w ∷ taken.0, taken.1)

-- The completions whose controllers still wait.
abbrev pub active : (ℕ → Bool) → List Waiting → List Completion
active gone ws =
    map (λ (w : Waiting). w.completion) (keep (λ (w : Waiting). not (gone w.waiter)) ws)

-- `applied.get(id)`
abbrev pub answer_of : List (ℕ × State) → ℕ → Option State
answer_of [] id = none
answer_of ((i, s) ∷ rest) id = let later = answer_of rest id in if i == id then some s else later

-- `if not future.done():`
abbrev pub give : (ℕ → Bool) → (Waiting → Answer) → Waiting → ℕ × Option Answer
give over f w = (w.waiter, if over w.waiter then none else some (f w))

-- `await self.write(active) if active else {}`
abbrev pub write : (List Completion → Written) → List Completion → Written
write f [] = applied []
write f (c ∷ cs) = f (c ∷ cs)

abbrev pub sent_batch : List Completion → List (List Completion)
sent_batch [] = []
sent_batch (c ∷ cs) = (c ∷ cs) ∷ []

-- The end of an iteration, for a batch and the entries that stand behind it.
pub deliver : Round → List Waiting → List Waiting → Written → Queue → Queue
deliver r batch rest (applied states) q = record q {
  pending = rest;
  answers =
      q.answers ++ map (give r.over (λ w. set_result (answer_of states w.completion.id))) batch;
}
deliver r batch rest crashed q = record q {
  pending = [];
  answers = q.answers ++ map (give r.over (λ w. set_exception)) (batch ++ rest);
}
deliver r batch rest cancelled q = record q {
  pending = [];
  answers = q.answers ++ map (give r.over (λ w. cancels)) (batch ++ rest);
}

-- An iteration of `while self.pending`.
pub iteration : Round → Queue → Queue
unfolding deliver
iteration r q =
    let (batch, rest) = take_batch 256 [] q.pending in
    let cs = active r.gone batch in
    deliver r batch (rest ++ r.arrived) (write r.written cs)
      (record q { sent = q.sent ++ sent_batch cs })

-- `_run`: with no entry pending it has ended, and the entries that arrive start it anew.
unfoldable pub run : List Round → Queue → Queue
unfolding iteration
run [] q = q
run (r ∷ rs) q = run rs (iteration r q)
