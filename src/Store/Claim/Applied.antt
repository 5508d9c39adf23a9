-- ===== src/Store/Claim/Applied.antt =====
-- The final UPDATE of src/fronta/claim.sql, counted: it starts at most one row for each chosen candidate.
use fronta.Prelude.{
  ℕ, ◌+◌, ◌≤◌, ◌≡◌, refl, sym, ap, subst, ◌∙◌, Bool, true, false, ◌&&◌, some, String, List, [], ◌∷◌,
  arith, All, Bool-cases, inl, inr, count, if_true, if_false, some-injective, find, Option-cases,
  ◌==◌, exists, All-mono,
}
use fronta.Model.{running, same_state}
use fronta.Store.Row.{Task, admit}
use fronta.Store.Tables.{Db, updated, update_rows, get_task}
use fronta.Store.Tables.Sound.{Below}
use fronta.Store.Tables.Rows.{tasks-transition}
use fronta.Store.Attempts.{token_for, admitted, admit_chosen}
use fronta.Store.Claim.{Candidate}
use fronta.Store.Claim.Admission.{Admission, apply_admission, tokens_for}

-- A predicate `g` on the columns that no statement changes, and what it is of a candidate.
module _ (g : Task → Bool) (q : Candidate → Bool) where
  abbrev pub runs : Task → Bool
  runs t = g t && same_state t.state running

  abbrev chosen_row : List Candidate → Task → Bool
  chosen_row cs t = g t && exists (λ (c : Candidate). c.id == t.id) cs

  abbrev pub Agrees : List Task → Candidate → Type 0
  Agrees ts c = All (λ (t : Task). t.id ≡ c.id → g t ≡ true → q c ≡ true) ts

  none_hit :
      (c : Candidate) (ts : List Task)
      → Agrees ts c
      → q c ≡ false
      → count (λ (t : Task). g t && c.id == t.id) ts ≡ 0
  none_hit c [] h e = refl
  none_hit c (t ∷ ts) h e = ground (arith, none_hit c ts h.1 e, h.0)

  id_once :
      (i n : ℕ) (ts : List Task)
      → Below n ts
      → n ≤ i
      → count (λ (t : Task). g t && i == t.id) ts ≡ 0
  id_once i n [] b h = refl
  id_once i n (t ∷ ts) b h = ground (arith, id_once i t.id ts b.1, b.0, h)

  one_hit : (i n : ℕ) (ts : List Task) → Below n ts → count (λ (t : Task). g t && i == t.id) ts ≤ 1
  one_hit i n [] b = omega arith
  one_hit i n (t ∷ ts) b = ground (arith, one_hit i t.id ts b.1, id_once i t.id ts b.1)

  more_chosen :
      (c : Candidate) (cs : List Candidate) (ts : List Task)
      → count (chosen_row (c ∷ cs)) ts
        ≤ count (λ (t : Task). g t && c.id == t.id) ts + count (chosen_row cs) ts
  more_chosen c cs [] = omega arith
  more_chosen c cs (t ∷ ts) = ground (arith, more_chosen c cs ts)

  no_rows : (ts : List Task) → count (chosen_row []) ts ≤ 0
  no_rows [] = omega arith
  no_rows (t ∷ ts) = ground (arith, no_rows ts)

  pub chosen_rows :
      (n : ℕ) (cs : List Candidate) (ts : List Task)
      → Below n ts
      → All (Agrees ts) cs
      → count (chosen_row cs) ts ≤ count q cs
  chosen_rows n [] ts b h = no_rows ts
  chosen_rows n (c ∷ cs) ts b h = ground (
    arith,
    more_chosen c cs ts,
    chosen_rows n cs ts b h.1,
    one_hit c.id n ts b,
    none_hit c ts h.0,
  )

  module _ (now until : ℕ) (worker : String) (token : ℕ → ℕ) (cs : List Candidate)
      (same : (fresh : ℕ) (t : Task) → g (admit now until fresh worker t) ≡ g t) where
    token_for-chosen :
        (cs : List Candidate) (id fresh : ℕ)
        → token_for (tokens_for token cs) id ≡ some fresh
        → exists (λ (c : Candidate). c.id == id) cs ≡ true
    token_for-chosen [] id fresh h = absurd (cc h)
    token_for-chosen (c ∷ cs) id fresh h = ground (arith, token_for-chosen cs id fresh)

    admitted_row :
        (t u : Task)
        → admitted now until worker (tokens_for token cs) t ≡ some u
        → (chosen_row cs t ≡ g t) × (g u ≡ g t)
    unfolding admitted
    admitted_row t u h = elim (Option-cases (token_for (tokens_for token cs) t.id)) [
      | inl e ↦ absurd (ground arith)
      | inr (fresh, e) ↦
          let eq : admit now until fresh worker t ≡ u = ground arith in
          (ground (arith, token_for-chosen cs t.id fresh e), ap g (sym eq) ∙ same fresh t)
    ]

    started_rows :
        (ts : List Task)
        → count runs (update_rows (admitted now until worker (tokens_for token cs)) ts)
          ≤ count runs ts + count (chosen_row cs) ts
    started_rows [] = omega arith
    started_rows (t ∷ ts) =
        elim (Option-cases (admitted now until worker (tokens_for token cs) t)) [
          | inl e ↦ rw (e, updated) (ground (arith, started_rows ts))
          | inr (u, e) ↦
              let (hit, kept) = admitted_row t u e in
              rw (e, updated) (ground (arith, started_rows ts, hit, kept))
        ]

    started :
        (clock lease : ℕ) (db : Db) (n : ℕ)
        → until ≡ clock + lease
        → Below n db.tasks
        → All (Agrees db.tasks) cs
        → count runs (admit_chosen now clock lease worker (tokens_for token cs) db).0.tasks
          ≤ count runs db.tasks + count q cs
    unfolding admit_chosen
    started clock lease db n u b h =
        let after =
          tasks-transition now (admitted now (clock + lease) worker (tokens_for token cs)) db in
        let rows =
          subst
            (λ z.
              count runs (update_rows (admitted now z worker (tokens_for token cs)) db.tasks)
              ≤ count runs db.tasks + count (chosen_row cs) db.tasks)
            u (started_rows db.tasks) in
        omega (arith, ap (count runs) after, rows, chosen_rows n cs db.tasks b h)

  -- The rows that run behind the statement: those that ran, and at most one for each chosen candidate.
  pub applied :
      (now clock lease : ℕ) (worker : String) (token : ℕ → ℕ) (a : Admission) (db : Db)
      → ((until fresh : ℕ) (t : Task) → g (admit now until fresh worker t) ≡ g t)
      → Below db.next_id db.tasks
      → All (Agrees db.tasks) a.chosen
      → count runs (apply_admission now clock lease worker token db a).0.tasks
        ≤ count runs db.tasks + count q a.chosen
  unfolding apply_admission
  applied now clock lease worker token a db same b h =
      started now (clock + lease) worker token a.chosen (same (clock + lease)) clock lease db
        db.next_id refl b h

-- A candidate and the row of the table with its id.
pub record IsMatch (db : Db) (c : Candidate) : Type 0 where
  pub row : Task
  pub stored : get_task c.id db ≡ some row
  pub type : row.type ≡ c.type
  pub key : row.concurrency_key ≡ c.concurrency_key

none_other :
    (i n : ℕ) (t : Task) (ts : List Task)
    → Below n ts
    → n ≤ i
    → All (λ (u : Task). u.id ≡ i → u ≡ t) ts
none_other i n t [] b h = tt
none_other i n t (u ∷ ts) b h =
    ((λ e. absurd (omega (arith, e, h, b.0))), none_other i u.id t ts b.1 (omega (arith, h, b.0)))

only_row :
    (i n : ℕ) (ts : List Task) (t : Task)
    → Below n ts
    → find (λ (u : Task). u.id == i) ts ≡ some t
    → All (λ (u : Task). u.id ≡ i → u ≡ t) ts
only_row i n [] t b h = tt
only_row i n (u ∷ ts) t b h = elim (Bool-cases (u.id == i)) [
  | inl e ↦ (
    (λ _. some-injective (sym (if_true _ _ e) ∙ h)),
    none_other i u.id t ts b.1 (ground (arith, e)),
  )
  | inr e ↦ ((λ k. absurd (ground arith)), only_row i u.id ts t b.1 (sym (if_false _ _ e) ∙ h))
]

pub match-Agrees :
    (g : Task → Bool) (q : Candidate → Bool) (db : Db) (c : Candidate) (m : IsMatch db c)
    → Below db.next_id db.tasks
    → g m.row ≡ q c
    → Agrees g q db.tasks c
unfolding get_task
match-Agrees g q db c m b h =
    All-mono _ _ (λ t k e p. sym h ∙ ap g (sym (k e)) ∙ p) db.tasks
      (only_row c.id db.next_id db.tasks m.row b m.stored)
