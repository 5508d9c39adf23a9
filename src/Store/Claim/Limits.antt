-- ===== src/Store/Claim/Limits.antt =====
-- The concurrency limits across an admission of src/fronta/claim.sql.
use fronta.Prelude.{
  ℕ, ◌≤◌, ◌≡◌, sym, ap, subst, ◌∙◌, Bool, true, ◌&&◌, leb, ◌||◌, Option, some, String, Bool-cases,
  inl, inr, is_some, if_true, if_false, some-injective,
}
use fronta.Model.{queued, same_state}
use fronta.Store.Row.{Task}
use fronta.Store.Tables.{Db, TaskType, get_task, get_task_type}
use fronta.Store.Claim.{Candidate, is_limited, running_of, running_with}
use fronta.Store.Claim.Admission.{Entry, Look, open_type, entry_of, upgrade, read_type}

-- The row that a look has locked is still due, so that the look goes on to the type.
abbrev pub is_ready : Look → Task → Bool
is_ready look t = same_state t.state queued && leb t.run_at look.now

-- The final statement sees the type with a limit.
abbrev pub IsLimited : Db → String → Type 0
IsLimited later type =
    (ty : TaskType) × (get_task_type type later ≡ some ty) × (is_limited ty ≡ true)

-- What the locks of a claim hold until its final statement, which sees `later`: the row that a look has
-- locked and the type row that it has locked. `locks` are the types whose row the claim locks with FOR UPDATE: a claim
-- gets that lock at its first look at a due row of the type, and then keeps it, or sets the type aside for good. Only
-- claims start rows, and a claim starts those of a limited type with the lock of the type, so where this claim has the
-- lock of a limited type, the running rows of the type and of each key only become fewer; nothing is said of them where
-- it has not.
pub record IsHeld (later : Db) (locks : String → Bool) (look : Look) (t : Task) : Type 0 where
  pub row : get_task t.id later ≡ some t
  pub shared : look.shared ≡ true → get_task_type t.type look.db ≡ get_task_type t.type later
  pub exclusive : look.exclusive ≡ true → get_task_type t.type look.db ≡ get_task_type t.type later
  pub lock : is_ready look t ≡ true → IsLimited later t.type → look.exclusive ≡ locks t.type
  pub starts :
      is_ready look t ≡ true
      → IsLimited later t.type
      → locks t.type ≡ true
      → running_of t.type later ≤ running_of t.type look.db
  pub keys :
      is_ready look t ≡ true
      → IsLimited later t.type
      → locks t.type ≡ true
      → (key : String) → t.concurrency_key ≡ some key
      → running_with t.type key later ≤ running_with t.type key look.db

module _ (later : Db) (ty : TaskType) (look : Look) (type : String)
    (s : look.shared ≡ true → get_task_type type look.db ≡ get_task_type type later)
    (x : look.exclusive ≡ true → get_task_type type look.db ≡ get_task_type type later)
    (g : get_task_type type later ≡ some ty) where
  Opened : Option TaskType → Type 0
  Opened o =
      (e : Entry)
      → entry_of look type o ≡ some e
      → (entry_of look type (some ty) ≡ some e) × (is_limited ty ≡ true → look.exclusive ≡ true)

  exclusive-Opened : Opened (read_type look.exclusive type look.db)
  unfolding Opened
  exclusive-Opened e h = elim (Bool-cases look.exclusive) [
    | inl b ↦ (ap (entry_of look type) (sym (if_true _ _ b ∙ x b ∙ g)) ∙ h, λ _. b)
    | inr b ↦ absurd (cc (ap (entry_of look type) (sym (if_false _ _ b)) ∙ h))
  ]

  upgraded-Opened : Opened (upgrade look type (some ty))
  unfolding Opened
  upgraded-Opened e h = elim (Bool-cases (is_limited ty)) [
    | inl b ↦ exclusive-Opened e (ap (entry_of look type) (sym (if_true _ _ b)) ∙ h)
    | inr b ↦ (ap (entry_of look type) (sym (if_false _ _ b)) ∙ h, λ k. absurd (cc (sym b ∙ k)))
  ]

  shared-Opened : Opened (upgrade look type (read_type look.shared type look.db))
  unfolding Opened
  shared-Opened e h = elim (Bool-cases look.shared) [
    | inl b ↦
        upgraded-Opened e
          (ap (λ o. entry_of look type (upgrade look type o)) (sym (if_true _ _ b ∙ s b ∙ g)) ∙ h)
    | inr b ↦
        absurd (cc (ap (λ o. entry_of look type (upgrade look type o)) (sym (if_false _ _ b)) ∙ h))
  ]

-- The entry of a type that a look has opened, by the type row that the final statement sees.
module _ (later : Db) (locks : String → Bool) (ty : TaskType) (look : Look) (t : Task)
    (c : Candidate) (held : IsHeld later locks look t) (ready : is_ready look t ≡ true)
    (same : t.type ≡ c.type) where
  type-IsLimited :
      get_task_type c.type later ≡ some ty → is_limited ty ≡ true → IsLimited later t.type
  type-IsLimited g l = (ty, ap (λ z. get_task_type z later) same ∙ g, l)

  opened :
      (e : Entry)
      → get_task_type c.type later ≡ some ty
      → open_type look c ≡ some e
      → (entry_of look c.type (some ty) ≡ some e) × (is_limited ty ≡ true → look.exclusive ≡ true)
  unfolding open_type Opened
  opened e g h =
      let s = λ (b : look.shared ≡ true).
        subst (λ z. get_task_type z look.db ≡ get_task_type z later) same (held.shared b) in
      let x = λ (b : look.exclusive ≡ true).
        subst (λ z. get_task_type z look.db ≡ get_task_type z later) same (held.exclusive b) in
      elim (Bool-cases c.limited) [
        | inl b ↦
            exclusive-Opened later ty look c.type s x g e
              (ap (entry_of look c.type) (sym (if_true _ _ b)) ∙ h)
        | inr b ↦
            shared-Opened later ty look c.type s x g e
              (ap (entry_of look c.type) (sym (if_false _ _ b)) ∙ h)
      ]

  -- The entry of a limited type has its lock.
  pub opened_locks :
      (e : Entry)
      → get_task_type c.type later ≡ some ty
      → open_type look c ≡ some e
      → is_limited ty ≡ true
      → locks c.type ≡ true
  opened_locks e g h l =
      ap locks (sym same) ∙ sym (held.lock ready (type-IsLimited g l)) ∙ (opened e g h).1 l

  entry_fields :
      (e : Entry)
      → entry_of look c.type (some ty) ≡ some e
      → (e.limit ≡ ty.max_concurrency)
        × (e.key_limit ≡ ty.max_concurrency_per_key)
        × (is_some ty.max_concurrency ≡ true → e.count ≡ running_of c.type look.db)
  entry_fields e h = elim (Bool-cases ty.paused) [
    | inl p ↦ absurd (cc (sym (if_true _ _ p) ∙ h))
    | inr p ↦
        let q = some-injective (sym (if_false _ _ p) ∙ h) in
        (
          ap (λ z. z.limit) (sym q),
          ap (λ z. z.key_limit) (sym q),
          λ k. ap (λ z. z.count) (sym q) ∙ if_true _ _ k,
        )
  ]

  pub opened_limit :
      (e : Entry) (limit : ℕ)
      → get_task_type c.type later ≡ some ty
      → open_type look c ≡ some e
      → ty.max_concurrency ≡ some limit
      → (e.limit ≡ some limit) × (running_of c.type later ≤ e.count)
  opened_limit e limit g h m =
      let (from, _) = opened e g h in
      let (l, k, n) = entry_fields e from in
      let some_m : is_some ty.max_concurrency ≡ true = ap is_some m in
      let limited = ap (λ z. z || is_some ty.max_concurrency_per_key) some_m in
      let starts =
        subst (λ z. running_of z later ≤ running_of z look.db) same
          (held.starts ready (type-IsLimited g limited)
            (ap locks same ∙ opened_locks e g h limited)) in
      (l ∙ m, subst (λ z. running_of c.type later ≤ z) (sym (n some_m)) starts)

  pub opened_key_limit :
      (e : Entry)
      → get_task_type c.type later ≡ some ty
      → open_type look c ≡ some e
      → e.key_limit ≡ ty.max_concurrency_per_key
  opened_key_limit e g h = (entry_fields e (opened e g h).0).1
