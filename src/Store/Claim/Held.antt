-- ===== src/Store/Claim/Held.antt =====
-- The rows that an admission of src/fronta/claim.sql may take, as its locks hold them.
use fronta.Prelude.{
  ℕ, ◌≡◌, sym, ap, ◌∙◌, Bool, true, some, String, List, arith, All, All-mono, Option-cases, inl,
  inr, eq_iff,
}
use fronta.Store.Row.{Task}
use fronta.Store.Tables.{Db, get_task}
use fronta.Store.Claim.{Candidate}
use fronta.Store.Claim.Admission.{Admission, Look, ClaimRound, usable, found}
use fronta.Store.Claim.Found.{All-candidates}
use fronta.Store.Claim.Limits.{is_ready, IsHeld}
use fronta.Store.Claim.Applied.{IsMatch}

-- What PostgreSQL's row locks keep of a round until the final statement: each look's locks, and the columns of a found
-- row that no statement changes.
pub record IsRoundHeld (later : Db) (locks : String → Bool) (r : ClaimRound) : Type 0 where
  pub looks : (i : ℕ) (t : Task) → (r.look i).locked ≡ some t → IsHeld later locks (r.look i) t
  pub rows :
      All
        (λ (t : Task).
          (u : Task)
          → (r.look t.id).locked ≡ some u
          → (u.id ≡ t.id) × (u.concurrency_key ≡ t.concurrency_key))
        r.db.tasks

abbrev pub IsSame : ClaimRound → Candidate → Type 0
IsSame r c =
    (u : Task)
    → (r.look c.id).locked ≡ some u
    → (u.id ≡ c.id) × (u.concurrency_key ≡ c.concurrency_key)

pub found-IsSame :
    (size : String → ℕ) (types : List String) (most : ℕ) (later : Db) (locks : String → Bool)
    (r : ClaimRound) (a : Admission)
    → IsRoundHeld later locks r
    → All (IsSame r) (found size types most r a)
unfolding found
found-IsSame size types most later locks r a h =
    All-candidates (IsSame r) size _ r.now r.busy r.db
      (All-mono _ _ (λ t same limited o u l. same u l) r.db.tasks h.rows)

-- A candidate that the loop may admit: the row that its look has locked.
pub record IsLocked (later : Db) (locks : String → Bool) (look : Look) (c : Candidate)
    : Type 0 where
  pub row : Task
  pub held : IsHeld later locks look row
  pub ready : is_ready look row ≡ true
  pub id : row.id ≡ c.id
  pub type : row.type ≡ c.type
  pub key : row.concurrency_key ≡ c.concurrency_key

usable_type : (now : ℕ) (c : Candidate) (t : Task) → usable now c (some t) ≡ true → t.type ≡ c.type
usable_type now c t h = (eq_iff t.type c.type).0 (ground arith)

usable_ready :
    (look : Look) (c : Candidate) (t : Task)
    → usable look.now c (some t) ≡ true
    → is_ready look t ≡ true
usable_ready look c t h = ground arith

pub usable-IsLocked :
    (later : Db) (locks : String → Bool) (r : ClaimRound) (c : Candidate)
    → IsRoundHeld later locks r
    → IsSame r c
    → usable (r.look c.id).now c (r.look c.id).locked ≡ true
    → IsLocked later locks (r.look c.id) c
usable-IsLocked later locks r c h s u = elim (Option-cases (r.look c.id).locked) [
  | inl e ↦ absurd (cc (ap (usable (r.look c.id).now c) (sym e) ∙ u))
  | inr (t, e) ↦ record {
    row = t;
    held = h.looks c.id t e;
    ready = usable_ready (r.look c.id) c t (ap (usable (r.look c.id).now c) (sym e) ∙ u);
    id = (s t e).0;
    type = usable_type (r.look c.id).now c t (ap (usable (r.look c.id).now c) (sym e) ∙ u);
    key = (s t e).1;
  }
]

pub locked-IsMatch :
    (later : Db) (locks : String → Bool) (look : Look) (c : Candidate)
    → IsLocked later locks look c
    → IsMatch later c
locked-IsMatch later locks look c k = record {
  row = k.row;
  stored = ap (λ i. get_task i later) (sym k.id) ∙ k.held.row;
  type = k.type;
  key = k.key;
}
