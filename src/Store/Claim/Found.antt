-- ===== src/Store/Claim/Found.antt =====
-- The candidates that src/fronta/claim_candidate.sql finds are open rows of the table.
use fronta.Prelude.{
  ℕ, zero, suc, ◌≡◌, Bool, true, false, ◌&&◌, not, Option, none, some, String, List, [], ◌∷◌, arith,
  All, All-append, keep, take, length, filter_map, flat_map, Bool-cases, inl, inr, ◌==◌, text_eq,
  if◌then◌else◌, subst, some-injective, if_true, if_false, sym, ◌∙◌, All-mono, All-filter_map,
}
use fronta.Store.Row.{Task}
use fronta.Store.Tables.{Db, TaskType, get_task_type}
use fronta.Store.Claim.{
  Candidate, Search, is_open, is_eligible, is_saturated, is_limited, put, in_queue_order, candidate,
  candidates_of, head, joined, ready_head, seek, candidates, precedes,
}

module _ (P : Candidate → Type 0) where
  All-take : (n : ℕ) (cs : List Candidate) → All P cs → All P (take n cs)
  All-take zero cs h = tt
  All-take (suc n) [] h = tt
  All-take (suc n) (c ∷ cs) h = (h.0, All-take n cs h.1)

  All-put : (c : Candidate) (cs : List Candidate) → P c → All P cs → All P (put c cs)
  All-put c [] p h = (p, tt)
  All-put c (d ∷ ds) p h = elim (Bool-cases (precedes c d)) [
    | inl e ↦ rw e (p, h)
    | inr e ↦ rw e (h.0, All-put c ds p h.1)
  ]

  All-in_queue_order : (cs : List Candidate) → All P cs → All P (in_queue_order cs)
  unfolding in_queue_order
  All-in_queue_order [] h = tt
  All-in_queue_order (c ∷ cs) h = All-put c (in_queue_order cs) h.0 (All-in_queue_order cs h.1)

  All-flat_map {ℓ} :
      {A : Type ℓ} (f : A → List Candidate) (xs : List A)
      → ((x : A) → All P (f x))
      → All P (flat_map f xs)
  All-flat_map f [] h = tt
  All-flat_map f (x ∷ xs) h = All-append P (f x) (flat_map f xs) (h x) (All-flat_map f xs h)

  All-if : (b : Bool) (cs ds : List Candidate) → All P cs → All P ds → All P (if b then cs else ds)
  All-if true cs ds h k = h
  All-if false cs ds h k = k

-- What holds of every open row of the table, as a candidate, holds of every candidate.
module _ (P : Candidate → Type 0) (size : String → ℕ) (s : Search) (now : ℕ) (busy : ℕ → Bool)
    (db : Db) where
  abbrev Rows : List Task → Type 0
  Rows = All (λ t. (limited : Bool) → is_open s now busy t ≡ true → P (candidate size limited t))

  All-candidates_of :
      (p : Task → Bool) (limited : Bool) (ts : List Task)
      → ((t : Task) → p t ≡ true → is_open s now busy t ≡ true)
      → Rows ts
      → All P (candidates_of size limited (keep p ts))
  All-candidates_of p limited [] opens h = tt
  All-candidates_of p limited (t ∷ ts) opens h = elim (Bool-cases (p t)) [
    | inl e ↦ rw e (h.0 limited (opens t e), All-candidates_of p limited ts opens h.1)
    | inr e ↦ rw e (All-candidates_of p limited ts opens h.1)
  ]

  All-head : Rows db.tasks → All P (head size s now busy db)
  unfolding head
  All-head h =
      All-take P s.count _ (
        All-in_queue_order P _ (All-candidates_of (is_open s now busy) false db.tasks (λ t e. e) h))

  All-seek : (ty : TaskType) → Rows db.tasks → All P (seek size s now busy db ty)
  unfolding seek
  All-seek ty h = All-take P s.count _ (
      All-in_queue_order P _ (
        All-candidates_of
          (λ t.
            text_eq t.type ty.name
            && is_open s now busy t
            && not (is_saturated s db t.type t.concurrency_key))
          (is_limited ty) db.tasks (λ t e. ground arith) h))

module _ (P : Candidate → Type 0) (s : Search) (db : Db) where
  abbrev Anyhow : Candidate → Type 0
  Anyhow c = (limited : Bool) → P (record c { limited = limited })

  joined-P :
      (c : Candidate) (o : Option TaskType) (d : Candidate)
      → Anyhow c
      → joined s db c o ≡ some d
      → P d
  joined-P c none d h e = absurd (cc e)
  joined-P c (some ty) d h e =
      elim (Bool-cases (is_eligible s db ty && not (is_saturated s db c.type c.concurrency_key))) [
        | inl k ↦ subst P (some-injective (sym (if_true _ _ k) ∙ e)) (h (is_limited ty))
        | inr k ↦ absurd (cc (sym (if_false _ _ k) ∙ e))
      ]

  All-joined :
      (cs : List Candidate)
      → All Anyhow cs
      → All P (filter_map (λ (c : Candidate). joined s db c (get_task_type c.type db)) cs)
  All-joined = All-filter_map Anyhow P _ (λ c h d e. joined-P c (get_task_type c.type db) d h e)

module _ (P : Candidate → Type 0) (size : String → ℕ) (s : Search) (now : ℕ) (busy : ℕ → Bool)
    (db : Db) where
  pub All-candidates :
      All
        (λ t. (limited : Bool) → is_open s now busy t ≡ true → P (candidate size limited t))
        db.tasks
      → All P (candidates size s now busy db)
  unfolding candidates ready_head
  All-candidates h = All-take P s.count _ (
      All-in_queue_order P _ (
        All-if P (length (ready_head size s now busy db) == length (head size s now busy db)) _ _
          (All-joined P s db _ (
            All-head (Anyhow P s db) size s now busy db
              (All-mono _ _ (λ t k a o b. k b o) db.tasks h)))
          (All-flat_map P _ _ (λ ty. All-seek P size s now busy db ty h))))
