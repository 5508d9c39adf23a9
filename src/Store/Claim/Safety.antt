-- ===== src/Store/Claim/Safety.antt =====
-- No claim of src/fronta/claim.sql takes a type or a key past its limit.
use fronta.Prelude.{
  ℕ, ◌+◌, ◌≤◌, ◌≡◌, refl, sym, ap, subst, ◌∙◌, Bool, ◌&&◌, some, String, List, arith, All, All-mono,
  Bool-cases, Option-cases, inl, inr, text_eq, count, some-injective, max, ltb, if_true, if_false,
}
use fronta.Store.Row.{Task, admit}
use fronta.Store.Tables.{Db, TaskType, get_task_type}
use fronta.Store.Tables.Sound.{IsSound}
use fronta.Store.Claim.{Candidate, running_of, running_with, key_is}
use fronta.Store.Claim.Admission.{
  Admission, Entry, ClaimRound, find_entry, found, admission, nothing_chosen, most_rows,
  apply_admission, claim, reserves,
}
use fronta.Store.Claim.Steps.{IsStep, admission-Of}
use fronta.Store.Claim.Concurrency.{IsCounted, of_type, opens-IsCounted, adds-IsCounted}
use fronta.Store.Claim.Keys.{IsKeyed, opens-IsKeyed, adds-IsKeyed}
use fronta.Store.Claim.Applied.{IsMatch, match-Agrees, applied}
use fronta.Store.Claim.Held.{IsRoundHeld, IsSame, found-IsSame, usable-IsLocked, locked-IsMatch}

module _ (later : Db) (locks : String → Bool) (type : String) (ty : TaskType) (limit : ℕ)
    (g : get_task_type type later ≡ some ty) where
  Typed : List Entry → List Candidate → Type 0
  Typed es cs = All (IsMatch later) cs × IsCounted later type ty limit es cs

  Typed-IsStep :
      (r : ClaimRound) (c : Candidate)
      → ty.max_concurrency ≡ some limit
      → IsRoundHeld later locks r
      → IsSame r c
      → IsStep Typed (r.look c.id) c
  unfolding Typed
  Typed-IsStep r c m h s = record {
    opens_type = λ e es cs u f o i.
        let k = usable-IsLocked later locks r c h s u in
        (
          i.0,
          opens-IsCounted later type ty limit locks (r.look c.id) c k.row k.held k.ready k.type g m
              e es cs f o i.1,
        );
    adds = λ e es cs u f l _ i.
        let k = usable-IsLocked later locks r c h s u in
        (
          (locked-IsMatch later locks (r.look c.id) c k, i.0),
          adds-IsCounted later type ty limit c e es cs f l i.1,
        );
  }

  Keyed : String → ty.max_concurrency_per_key ≡ some limit → List Entry → List Candidate → Type 0
  Keyed key m es cs = All (IsMatch later) cs × IsKeyed later locks type key ty limit g m es cs

  Keyed-IsStep :
      (key : String) (r : ClaimRound) (c : Candidate)
      → (m : ty.max_concurrency_per_key ≡ some limit) → IsRoundHeld later locks r
      → IsSame r c
      → IsStep (Keyed key m) (r.look c.id) c
  unfolding Keyed
  Keyed-IsStep key r c m h s = record {
    opens_type = λ e es cs u f o i.
        let k = usable-IsLocked later locks r c h s u in
        (
          i.0,
          opens-IsKeyed later locks type key ty limit g m (r.look c.id) c k.row k.held k.ready
              k.type e es cs o i.1,
        );
    adds = λ e es cs u f _ l i.
        let k = usable-IsLocked later locks r c h s u in
        (
          (locked-IsMatch later locks (r.look c.id) c k, i.0),
          adds-IsKeyed later locks type key ty limit g m (r.look c.id) c k.row k.held k.ready k.type
              e es cs k.key f l i.1,
        );
  }

  found-All :
      (I : List Entry → List Candidate → Type 0) (size : String → ℕ) (types : List String)
      (most : ℕ) (rs : List ClaimRound)
      → ((r : ClaimRound) (c : Candidate)
          → IsRoundHeld later locks r
          → IsSame r c
          → IsStep I (r.look c.id) c)
      → All (IsRoundHeld later locks) rs
      → All
          (λ (r : ClaimRound).
            (a : Admission) → All (λ c. IsStep I (r.look c.id) c) (found size types most r a))
          rs
  found-All I size types most rs step =
      All-mono _ _
        (λ r h a.
          All-mono _ _ (λ c s. step r c h s) _ (found-IsSame size types most later locks r a h))
        rs

  module _ (size : String → ℕ) (types : List String) (most : ℕ) (rs : List ClaimRound)
      (a : Admission) (s : IsSound later) (h : All (IsRoundHeld later locks) rs)
      (k : admission size types most rs nothing_chosen ≡ some a) where
    chosen_type :
        IsCounted later type ty limit a.entries a.chosen
        → running_of type later + count (of_type type) a.chosen ≤ max limit (running_of type later)
    chosen_type i = elim (Option-cases (find_entry type a.entries)) [
      | inl e ↦ omega (arith, i.missing e)
      | inr (e, f) ↦ grind (arith, i.counted e f, i.under e f)
    ]

    typed_end :
        (now clock lease : ℕ) (worker : String) (token : ℕ → ℕ)
        → ty.max_concurrency ≡ some limit
        → running_of type (apply_admission now clock lease worker token later a).0
          ≤ max limit (running_of type later)
    unfolding Typed running_of admit
    typed_end now clock lease worker token m =
        let (ms, i) : Typed a.entries a.chosen =
          admission-Of Typed size types most rs nothing_chosen a
            (found-All Typed size types most rs (λ r c. Typed-IsStep r c m) h)
            (
              tt,
              record {
                missing = λ _. refl;
                entry_limit = λ e f. absurd (cc f);
                counted = λ e f. absurd (cc f);
                under = λ e f. absurd (cc f);
              },
            )
            k in
        let q = of_type type in
        let t = λ (u : Task). text_eq u.type type in
        let agree =
          All-mono _ _
            (λ c (x : IsMatch later c).
              match-Agrees t q later c x s.ids (ap (λ z. text_eq z type) x.type))
            a.chosen ms in
        omega (
          arith,
          applied t q now clock lease worker token a later (λ _ _ _. refl) s.ids agree,
          chosen_type i,
        )

    keyed_end :
        (key : String) (now clock lease : ℕ) (worker : String) (token : ℕ → ℕ)
        → ty.max_concurrency_per_key ≡ some limit
        → running_with type key (apply_admission now clock lease worker token later a).0
          ≤ max limit (running_with type key later)
    unfolding Keyed running_with admit
    keyed_end key now clock lease worker token m =
        let (ms, i) : Keyed key m a.entries a.chosen =
          admission-Of (Keyed key m) size types most rs nothing_chosen a
            (found-All (Keyed key m) size types most rs (λ r c. Keyed-IsStep key r c m) h)
            (
              tt,
              record {
                entry_limit = λ e f. absurd (cc f);
                locked = λ e f. absurd (cc f);
                counted = omega arith;
              },
            )
            k in
        let q = reserves type key in
        let t = λ (u : Task). text_eq u.type type && key_is u.concurrency_key key in
        let agree =
          All-mono _ _
            (λ c (x : IsMatch later c). match-Agrees t q later c x s.ids (rw (x.type, x.key) refl))
            a.chosen ms in
        omega (
          arith,
          applied t q now clock lease worker token a later (λ _ _ _. refl) s.ids agree,
          i.counted,
        )

-- The two ends of a claim.
claim-cases :
    (size : String → ℕ) (types : List String) (asked : ℕ) (rs : List ClaimRound)
    (now clock lease : ℕ) (worker : String) (token : ℕ → ℕ) (later : Db) (done : Db × List Task)
    (P : Db → Type 0)
    → claim size types asked rs now clock lease worker token later ≡ some done
    → P later
    → ((a : Admission)
        → admission size types (most_rows asked) rs nothing_chosen ≡ some a
        → P (apply_admission now clock lease worker token later a).0)
    → P done.0
unfolding claim
claim-cases size types asked rs now clock lease worker token later done P h none_asked admitted =
    elim (Bool-cases (ltb asked 1)) [
      | inl b ↦ subst (λ z. P z.0) (some-injective (sym (if_true _ _ b) ∙ h)) none_asked
      | inr b ↦ elim (Option-cases (admission size types (most_rows asked) rs nothing_chosen)) [
        | inl e ↦ absurd (cc (rw e at (sym (if_false _ _ b) ∙ h)))
        | inr (a, e) ↦
            subst (λ z. P z.0) (some-injective (rw e at (sym (if_false _ _ b) ∙ h))) (admitted a e)
      ]
    ]

module _ (size : String → ℕ) (types : List String) (asked : ℕ) (rs : List ClaimRound)
    (now clock lease : ℕ) (worker : String) (token : ℕ → ℕ) (later : Db) (locks : String → Bool)
    (done : Db × List Task) where
  -- Behind a claim a type with a limit runs no more tasks than the limit, or than ran already where the limit has been
  -- lowered, whatever the rounds of the admission meet, as long as the rows that it locks stay as they are until its
  -- final statement, and no other claim starts rows of a limited type whose lock this claim has got.
  pub claim-type_limit :
      (type : String) (ty : TaskType) (limit : ℕ)
      → IsSound later
      → All (IsRoundHeld later locks) rs
      → get_task_type type later ≡ some ty
      → ty.max_concurrency ≡ some limit
      → claim size types asked rs now clock lease worker token later ≡ some done
      → running_of type done.0 ≤ max limit (running_of type later)
  claim-type_limit type ty limit s h g m e =
      claim-cases size types asked rs now clock lease worker token later done
        (λ z. running_of type z ≤ max limit (running_of type later)) e (omega arith)
        (λ a k.
          typed_end later locks type ty limit g size types (most_rows asked) rs a s h k now clock
            lease worker token m)

  -- And a concurrency key of a type with a limit for each key runs no more tasks than that limit, or than it ran
  -- already, under the same conditions; where the lock of the type was not got, other claims may start rows of any key.
  pub claim-key_limit :
      (type key : String) (ty : TaskType) (limit : ℕ)
      → IsSound later
      → All (IsRoundHeld later locks) rs
      → get_task_type type later ≡ some ty
      → ty.max_concurrency_per_key ≡ some limit
      → claim size types asked rs now clock lease worker token later ≡ some done
      → running_with type key done.0 ≤ max limit (running_with type key later)
  claim-key_limit type key ty limit s h g m e =
      claim-cases size types asked rs now clock lease worker token later done
        (λ z. running_with type key z ≤ max limit (running_with type key later)) e (omega arith)
        (λ a k.
          keyed_end later locks type ty limit g size types (most_rows asked) rs a s h k key now
            clock lease worker token m)
