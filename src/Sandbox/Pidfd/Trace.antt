-- ===== src/Sandbox/Pidfd/Trace.antt =====
-- The life of a descriptor of src/fronta/sandbox.py across the calls on its handle.
use fronta.Prelude.{
  ℕ, ◌≡◌, refl, ◌∙◌, ap, sym, subst, Bool, true, false, ◌||◌, Option, none, some, List, [], ◌∷◌,
  ◌++◌, exists, is_some, arith, Bool-cases, inl, inr,
}
use fronta.Sandbox.Pidfd.{
  Pidfd, Syscall, watches, unwatches, signals, closes, close, send_signal, Inner, closing,
  signalling, meanwhile, finish_wait, wait_exit, Call, now, exit_wait, call, calls,
}

-- The states of a descriptor as the kernel and the event loop see it; `misused` is a reader left on a closed
-- number, a second close, or any use behind the close.
pub data Descriptor : Type 0 where
  open_fd watched_fd closed_fd misused : Descriptor

abbrev pub lives : Descriptor → Syscall → Descriptor
lives open_fd (watches n) = watched_fd
lives open_fd (signals n) = open_fd
lives open_fd (closes n) = closed_fd
lives watched_fd (unwatches n) = open_fd
lives watched_fd (signals n) = watched_fd
lives _ _ = misused

abbrev pub life : Descriptor → List Syscall → Descriptor
life l [] = l
life l (e ∷ es) = life (lives l e) es

-- Where the descriptor stands for a handle that no coroutine waits on.
abbrev pub standing : Option ℕ → Descriptor
standing none = closed_fd
standing (some n) = open_fd

life-append : (l : Descriptor) (es fs : List Syscall) → life l (es ++ fs) ≡ life (life l es) fs
life-append l [] fs = refl
life-append l (e ∷ es) fs = life-append (lives l e) es fs

abbrev pub is_closing : Inner → Bool
is_closing closing = true
is_closing (signalling alive) = false

-- While a coroutine waits, the descriptor stays watched and a close is only noted.
record IsWatched (n : ℕ) (inner : List Inner) (requested : Bool) (r : Pidfd × List Syscall)
    : Type 0 where
  watched : life watched_fd r.1 ≡ watched_fd
  held : r.0.fd ≡ some n
  noted : r.0.close_requested ≡ (requested || exists is_closing inner)

meanwhile-IsWatched :
    (n : ℕ) (inner : List Inner) (requested : Bool)
    → IsWatched n inner requested
        (meanwhile inner (record { fd = some n; waiting = true; close_requested = requested }))
unfolding meanwhile close send_signal
meanwhile-IsWatched n [] requested = record { watched = refl; held = refl; noted = ground arith }
meanwhile-IsWatched n (closing ∷ rest) requested =
    let later = meanwhile-IsWatched n rest true in
    record { watched = later.watched; held = later.held; noted = ground (arith, later.noted) }
meanwhile-IsWatched n (signalling alive ∷ rest) requested =
    let later = meanwhile-IsWatched n rest requested in
    record { watched = later.watched; held = later.held; noted = ground (arith, later.noted) }

-- A handle between two calls: nobody waits, and an open one has no close to catch up on.
pub record IsIdle (p : Pidfd) : Type 0 where
  pub free : p.waiting ≡ false
  pub settled : is_some p.fd ≡ true → p.close_requested ≡ false

-- What a call leaves, of a handle that stood at `before`.
record IsKept (closes_it : Bool) (before : Option ℕ) (r : Pidfd × List Syscall) : Type 0 where
  idle : IsIdle r.0
  lived : life (standing before) r.1 ≡ standing r.0.fd
  gone : closes_it ≡ true → r.0.fd ≡ none
  stays : before ≡ none → r.0.fd ≡ none

now-IsKept :
    (c : Inner) (fd : Option ℕ) (q : Bool)
    → (is_some fd ≡ true → q ≡ false)
    → IsKept
        (is_closing c)
        fd
        (call (now c) (record { fd = fd; waiting = false; close_requested = q }))
unfolding call meanwhile close send_signal
now-IsKept closing none q h = record {
  idle = record { free = refl; settled = λ k. absurd (cc k) };
  lived = refl;
  gone = λ k. refl;
  stays = λ k. refl;
}
now-IsKept closing (some n) q h = record {
  idle = record { free = refl; settled = λ k. absurd (cc k) };
  lived = refl;
  gone = λ k. refl;
  stays = λ k. absurd (cc k);
}
now-IsKept (signalling alive) none q h = record {
  idle = record { free = refl; settled = λ k. absurd (cc k) };
  lived = refl;
  gone = λ k. absurd (cc k);
  stays = λ k. refl;
}
now-IsKept (signalling alive) (some n) q h = record {
  idle = record { free = refl; settled = h };
  lived = refl;
  gone = λ k. absurd (cc k);
  stays = λ k. absurd (cc k);
}

-- The end of a wait whose events so far left the descriptor watched.
finish-IsKept :
    (n : ℕ) (busy q : Bool) (es : List Syscall)
    → life watched_fd es ≡ watched_fd
    → let done = finish_wait q n (record { fd = some n; waiting = busy; close_requested = q }) in
      IsKept q (some n) (done.0, watches n ∷ (es ++ done.1))
unfolding close
finish-IsKept n busy true es h = record {
  idle = record { free = refl; settled = λ k. absurd (cc k) };
  lived =
      life-append watched_fd es (unwatches n ∷ closes n ∷ [])
      ∙ ap (λ l. life l (unwatches n ∷ closes n ∷ [])) h;
  gone = λ k. refl;
  stays = λ k. refl;
}
finish-IsKept n busy false es h = record {
  idle = record { free = refl; settled = λ k. refl };
  lived = life-append watched_fd es (unwatches n ∷ []) ∙ ap (λ l. life l (unwatches n ∷ [])) h;
  gone = λ k. absurd (cc k);
  stays = λ k. absurd (cc k);
}

-- The handle that a wait ends with, from its fields.
end_of_wait :
    (n : ℕ) (closes_it : Bool) (fd : Option ℕ) (busy q : Bool) (es : List Syscall)
    → life watched_fd es ≡ watched_fd
    → fd ≡ some n
    → q ≡ closes_it
    → let done = finish_wait q n (record { fd = fd; waiting = busy; close_requested = q }) in
      IsKept closes_it (some n) (done.0, watches n ∷ (es ++ done.1))
end_of_wait n closes_it fd busy q es h f r =
    subst
      (λ z.
        (w : Option ℕ)
        → w ≡ some n
        → let done = finish_wait q n (record { fd = w; waiting = busy; close_requested = q }) in
          IsKept z (some n) (done.0, watches n ∷ (es ++ done.1)))
      r
      (λ w e.
        subst
          (λ z.
            let done = finish_wait q n (record { fd = z; waiting = busy; close_requested = q }) in
            IsKept q (some n) (done.0, watches n ∷ (es ++ done.1)))
          (sym e) (finish-IsKept n busy q es h))
      fd f

abbrev is_ending : Call → Bool
is_ending (now c) = is_closing c
is_ending (exit_wait inner exited) = exists is_closing inner

call-IsKept :
    (c : Call) (fd : Option ℕ) (q : Bool)
    → (is_some fd ≡ true → q ≡ false)
    → IsKept (is_ending c) fd (call c (record { fd = fd; waiting = false; close_requested = q }))
unfolding call wait_exit meanwhile close send_signal
call-IsKept (now c) fd q h = now-IsKept c fd q h
call-IsKept (exit_wait inner exited) none q h = record {
  idle = record { free = refl; settled = λ k. absurd (cc k) };
  lived = refl;
  gone = λ k. refl;
  stays = λ k. refl;
}
call-IsKept (exit_wait inner exited) (some n) q h =
    let w = meanwhile-IsWatched n inner q in
    let r = meanwhile inner (record { fd = some n; waiting = true; close_requested = q }) in
    end_of_wait n (exists is_closing inner) r.0.fd r.0.waiting r.0.close_requested r.1 w.watched
      w.held (w.noted ∙ ap (λ z. z || exists is_closing inner) (h refl))

kept :
    (c : Call) (fd : Option ℕ) (busy q : Bool)
    → busy ≡ false
    → (is_some fd ≡ true → q ≡ false)
    → IsKept (is_ending c) fd (call c (record { fd = fd; waiting = busy; close_requested = q }))
kept c fd true q h k = absurd (cc h)
kept c fd false q h k = call-IsKept c fd q k

stays-none : (cs : List Call) (p : Pidfd) → IsIdle p → p.fd ≡ none → (calls cs p).0.fd ≡ none
unfolding calls
stays-none [] p i h = h
stays-none (c ∷ cs) p i h =
    let k = kept c p.fd p.waiting p.close_requested i.free i.settled in
    stays-none cs (call c p).0 k.idle (k.stays h)

-- Whatever calls a handle gets, one after the other, and whatever closes and signals arrive while a call waits
-- for the exit: an open descriptor is watched, unwatched, signalled and closed only in an order where no reader is
-- left on a closed number, nothing uses the descriptor behind its close and nothing closes it twice, and it
-- ends open or closed as the handle says.
pub calls-traced :
    (cs : List Call) (p : Pidfd)
    → IsIdle p
    → life (standing p.fd) (calls cs p).1 ≡ standing (calls cs p).0.fd
unfolding calls
calls-traced [] p i = refl
calls-traced (c ∷ cs) p i =
    let k = kept c p.fd p.waiting p.close_requested i.free i.settled in
    life-append (standing p.fd) (call c p).1 (calls cs (call c p).0).1
    ∙ ap (λ l. life l (calls cs (call c p).0).1) k.lived
    ∙ calls-traced cs (call c p).0 k.idle

-- When one of the calls is a close, or a close arrives during a wait, the descriptor is closed once all the calls
-- are over.
pub calls-closed :
    (cs : List Call) (p : Pidfd) → IsIdle p → exists is_ending cs ≡ true → (calls cs p).0.fd ≡ none
unfolding calls
calls-closed [] p i h = absurd (cc h)
calls-closed (c ∷ cs) p i h =
    let k = kept c p.fd p.waiting p.close_requested i.free i.settled in
    elim (Bool-cases (is_ending c)) [
      | inl e ↦ stays-none cs (call c p).0 k.idle (k.gone e)
      | inr e ↦ calls-closed cs (call c p).0 k.idle (sym (ap (λ z. z || exists is_ending cs) e) ∙ h)
    ]
