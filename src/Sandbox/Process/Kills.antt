-- ===== src/Sandbox/Process/Kills.antt =====
-- A kill of src/fronta/sandbox.py that answers true has verified that the sandbox is dead.
use fronta.Prelude.{
  ℕ, ◌≡◌, refl, sym, ap, subst, ◌∙◌, Bool, true, false, not, ◌&&◌, ◌||◌, ◌⊎◌, Option, none, some,
  List, [], ◌∷◌, ◌++◌, arith, Bool-cases, inl, inr, is_none, is_some, if_true, if_false,
  some-injective, every,
}
use fronta.Sandbox.Pidfd.{Pidfd, wait_exit, meanwhile, close}
use fronta.Sandbox.Process.{
  Opening, no_process, refused, handle, open_marked, Proc, Line, child, silent, broken, Launch, Act,
  closes_read, closes_write, barrier, spawn, close_fds, run_ends, Answer, meets, waited, kill_init,
  kill, Step, kills, breaks, ends, step, Moment, answered_by, answers, sees_exit, run_over, is_kill,
  IsTruthful, until_stuck,
}

abbrev reports_exit : Answer → Bool
reports_exit a = a.exits || a.run_ended

abbrev reported : Step → Bool
reported (kills a) = reports_exit a
reported (breaks a) = reports_exit a
reported ends = true

-- Every call that sees an exit, or in which `run` ends, is over when the init has exited.
abbrev IsReported : Bool → List Moment → Type 0
IsReported before [] = Unit {0}
IsReported before (m ∷ ms) =
    (before ≡ true → m.gone ≡ true)
    × (reported m.call ≡ true → m.gone ≡ true)
    × IsReported m.gone ms

reported-cases : (c : Step) → reported c ≡ true → (sees_exit c ≡ true) ⊎ (run_over c ≡ true)
reported-cases (kills a) h = ground (arith, h)
reported-cases (breaks a) h = ground (arith, h)
reported-cases ends h = inr refl

until_stuck-IsReported :
    (killed before : Bool) (ms : List Moment)
    → IsTruthful killed before ms
    → IsReported before (until_stuck killed ms)
until_stuck-IsReported killed before [] t = tt
until_stuck-IsReported killed before (m ∷ ms) t =
    let sent = killed || is_kill m.call in
    elim (Bool-cases (sent && run_over m.call && not m.gone)) [
      | inl e ↦ subst (IsReported before) (sym (if_true _ _ e)) tt
      | inr e ↦ subst (IsReported before) (sym (if_false _ _ e)) (
        t.0,
        λ h. elim (reported-cases m.call h) [
          | inl f ↦ t.1 f
          | inr f ↦ elim (Bool-cases sent) [ inl g ↦ ground (arith, e, f, g) | inr g ↦ t.2 g f ]
        ],
        until_stuck-IsReported sent m.gone ms t.3,
      )
    ]

-- A handle that nobody waits on and that is open.
record IsOpen (o : Option Pidfd) : Type 0 where
  kept :
      (h : Pidfd)
      → o ≡ some h
      → (h.waiting ≡ false) × (h.close_requested ≡ false) × (is_some h.fd ≡ true)

-- The `dead` flag, and a missing handle, mean that the init has exited.
record IsVerified (gone : Bool) (p : Proc) : Type 0 where
  flag : p.dead ≡ true → gone ≡ true
  missing : is_none p.init ≡ true → gone ≡ true
  handle_open : IsOpen p.init

-- A wait on an open handle answers what the kernel reports, and leaves it open unless it is closed meanwhile.
wait_open :
    (exits ended : Bool) (fd : Option ℕ) (busy q : Bool)
    → busy ≡ false
    → q ≡ false
    → is_some fd ≡ true
    → let a : Answer = record { exits = exits; run_ended = ended } in
      let w = wait_exit (meets a) exits (record { fd = fd; waiting = busy; close_requested = q }) in
      (w.0 ≡ exits)
      × (ended ≡ false
          → (w.1.waiting ≡ false) × (w.1.close_requested ≡ false) × (is_some w.1.fd ≡ true))
unfolding wait_exit meanwhile close
wait_open exits ended none busy q b c h = absurd (cc h)
wait_open exits ended (some n) true q b c h = absurd (cc b)
wait_open exits ended (some n) false true b c h = absurd (cc c)
wait_open exits true (some n) false false b c h = (refl, λ k. absurd (cc k))
wait_open exits false (some n) false false b c h = (refl, λ k. (refl, refl, refl))

-- A kill that answers true is right, and what it leaves is again verified.
record IsKilled (gone : Bool) (r : Proc × Bool) : Type 0 where
  right : r.1 ≡ true → gone ≡ true
  left : IsVerified gone r.0

no_handle : IsOpen none
no_handle = record { kept = λ h e. absurd (cc e) }

waited-IsKilled :
    (exits ended gone : Bool) (w : Bool × Pidfd) (p : Proc)
    → w.0 ≡ exits
    → (ended ≡ false
        → (w.1.waiting ≡ false) × (w.1.close_requested ≡ false) × (is_some w.1.fd ≡ true))
    → ((exits || ended) ≡ true → gone ≡ true)
    → IsKilled gone (waited (record { exits = exits; run_ended = ended }) w p)
unfolding run_ends close_fds
waited-IsKilled exits ended gone (true, h) p e o t =
    let over : gone ≡ true = t (ap (λ z. z || ended) (sym e)) in
    record {
      right = λ _. over;
      left = record { flag = λ _. over; missing = λ _. over; handle_open = no_handle };
    }
waited-IsKilled exits true gone (false, h) p e o t =
    let over : gone ≡ true = t (ground arith) in
    record {
      right = λ _. over;
      left = record { flag = λ _. over; missing = λ _. over; handle_open = no_handle };
    }
waited-IsKilled exits false gone (false, h) p e o t = record {
  right = λ k. absurd (cc k);
  left = record {
    flag = λ k. absurd (cc k);
    missing = λ k. absurd (cc k);
    handle_open = record {
      kept = λ h' k.
          subst (λ z. (z.waiting ≡ false) × (z.close_requested ≡ false) × (is_some z.fd ≡ true))
            (some-injective k) (o refl);
    };
  };
}

kill_init-IsKilled :
    (exits ended gone : Bool) (p : Proc) (o : Option Pidfd)
    → (is_none o ≡ true → gone ≡ true)
    → IsOpen o
    → IsOpen p.init
    → ((exits || ended) ≡ true → gone ≡ true)
    → IsKilled gone (kill_init (record { exits = exits; run_ended = ended }) p o)
kill_init-IsKilled exits ended gone p none m i j t = record {
  right = λ _. m refl;
  left = record { flag = λ _. m refl; missing = λ _. m refl; handle_open = j };
}
kill_init-IsKilled exits ended gone p (some h) m i j t =
    let f = i.kept h refl in
    let w = wait_open exits ended h.fd h.waiting h.close_requested f.0 f.1 f.2 in
    waited-IsKilled exits ended gone _ p w.0 w.1 t

kill-IsKilled :
    (before : Bool) (a : Answer) (gone : Bool) (p : Proc)
    → IsVerified before p
    → (before ≡ true → gone ≡ true)
    → (reports_exit a ≡ true → gone ≡ true)
    → IsKilled gone (kill a p)
unfolding kill
kill-IsKilled before a gone p v b t = elim (Bool-cases p.dead) [
  | inl e ↦ subst (IsKilled gone) (sym (if_true _ _ e)) (record {
    right = λ _. b (v.flag e);
    left = record {
      flag = λ k. b (v.flag k);
      missing = λ k. b (v.missing k);
      handle_open = v.handle_open;
    };
  })
  | inr e ↦ subst (IsKilled gone) (sym (if_false _ _ e)) (
      kill_init-IsKilled a.exits a.run_ended gone p p.init (λ k. b (v.missing k)) v.handle_open
        v.handle_open t)
]

close_fds-IsVerified : (gone : Bool) (p : Proc) → IsVerified gone p → IsVerified gone (close_fds p)
unfolding close_fds
close_fds-IsVerified gone p v = elim (Bool-cases p.dead) [
  | inl e ↦ record {
    flag = v.flag;
    missing = λ k. v.flag e;
    handle_open = subst IsOpen (sym (if_true _ _ e)) no_handle;
  }
  | inr e ↦ record {
    flag = v.flag;
    missing = λ k. v.missing (ap is_none (sym (if_false _ _ e)) ∙ k);
    handle_open = subst IsOpen (sym (if_false _ _ e)) v.handle_open;
  }
]

-- Every true answer of a list says that the init has exited.
abbrev AllRight : List (Bool × Bool) → Type 0
AllRight [] = Unit {0}
AllRight (r ∷ rs) = (r.0 ≡ true → r.1 ≡ true) × AllRight rs

step_right :
    (before : Bool) (c : Step) (gone : Bool) (ms : List Moment) (p : Proc)
    → IsVerified before p
    → (before ≡ true → gone ≡ true)
    → (reported c ≡ true → gone ≡ true)
    → ((q : Proc) → IsVerified gone q → AllRight (answers ms q))
    → AllRight (answered_by (step c p).1 gone ++ answers ms (step c p).0)
unfolding step run_ends close_fds
step_right before (kills a) gone ms p v b t rest =
    let k = kill-IsKilled before a gone p v b t in (k.right, rest _ k.left)
step_right before (breaks a) gone ms p v b t rest =
    let k = kill-IsKilled before a gone p v b t in rest _ (close_fds-IsVerified gone _ k.left)
step_right before ends gone ms p v b t rest =
    rest _ (record { flag = λ _. t refl; missing = λ _. t refl; handle_open = no_handle })

answers-AllRight :
    (before : Bool) (ms : List Moment) (p : Proc)
    → IsVerified before p
    → IsReported before ms
    → AllRight (answers ms p)
unfolding answers
answers-AllRight before [] p v t = tt
answers-AllRight before (m ∷ ms) p v t =
    step_right before m.call m.gone ms p v t.0 t.1 (λ q w. answers-AllRight m.gone ms q w t.2)

opened-IsOpen : (o : Opening) (marked : Bool) → IsOpen (open_marked o marked)
unfolding open_marked
opened-IsOpen no_process marked = no_handle
opened-IsOpen refused marked = no_handle
opened-IsOpen (handle n) false = no_handle
opened-IsOpen (handle n) true = record {
  kept = λ h e.
      subst (λ z. (z.waiting ≡ false) × (z.close_requested ≡ false) × (is_some z.fd ≡ true))
        (some-injective e) (refl, refl, refl);
}

barrier-IsVerified :
    (outer : Option Pidfd) (line : Line) (p : Proc) (before : Bool)
    → (barrier outer line).0 ≡ some p
    → (is_none p.init ≡ true → before ≡ true)
    → IsVerified before p
barrier-IsVerified outer silent p before h m = absurd (cc h)
barrier-IsVerified outer broken p before h m = absurd (cc h)
barrier-IsVerified outer (child o marked) p before h m = record {
  flag = λ k. absurd (cc (ap (λ z. z.dead) (some-injective h) ∙ k));
  missing = m;
  handle_open = subst (λ z. IsOpen z.init) (some-injective h) (opened-IsOpen o marked);
}

spawned-IsVerified :
    (l : Launch) (p : Proc) (before : Bool)
    → (spawn l).0 ≡ some p
    → (is_none p.init ≡ true → before ≡ true)
    → IsVerified before p
unfolding spawn
spawned-IsVerified l p before h m =
    let outer = open_marked l.outer l.outer_marked in
    let started = (barrier outer l.line).0 in
    elim (Bool-cases l.starts) [
      | inl e ↦
          barrier-IsVerified outer l.line p before
            (ap (λ (z : Option Proc × List Act). z.0)
                (sym (if_true (started, closes_write ∷ (barrier outer l.line).1) _ e))
              ∙ h)
            m
      | inr e ↦ absurd (
          cc (
            ap (λ (z : Option Proc × List Act). z.0)
              (sym (if_false _ (none, closes_read ∷ closes_write ∷ []) e))
            ∙ h))
    ]

-- The answer, and whether the init has exited by then.
abbrev pub is_right : Bool × Bool → Bool
is_right r = not r.0 || r.1

every_right : (rs : List (Bool × Bool)) → AllRight rs → every is_right rs ≡ true
every_right [] h = refl
every_right (r ∷ rs) h = ground (arith, h.0, every_right rs h.1)

-- For a sandbox that `spawn` has returned, whose init has a handle or has exited by then: whatever kills, ends and
-- failures of `run` follow, each kill that answers true does so when the init has exited, up to a moment in which `run`
-- ends behind a kill while the init still lives. It is assumed that the kernel reports exits through a handle
-- truthfully, and that an outer process that nobody has killed outlives its init.
pub kill-verified :
    (l : Launch) (p : Proc) (before : Bool) (ms : List Moment)
    → (spawn l).0 ≡ some p
    → (is_none p.init ≡ true → before ≡ true)
    → IsTruthful false before ms
    → every is_right (answers (until_stuck false ms) p) ≡ true
kill-verified l p before ms h m t = every_right (answers (until_stuck false ms) p) (
    answers-AllRight before (until_stuck false ms) p (spawned-IsVerified l p before h m)
      (until_stuck-IsReported false before ms t))
