-- ===== src/Store/Claim/Concurrency.antt =====
-- The number of running tasks of a type, and of a key, behind a claim of src/fronta/claim.sql.
use fronta.Prelude.{
  ℕ, suc, ◌+◌, ◌≤◌, ◌<◌, ◌≡◌, refl, sym, ap, subst, ◌∙◌, Bool, true, false, none, some, String,
  List, [], ◌∷◌, arith, Bool-cases, inl, inr, text_eq, eq_iff, count, if_true, if_false,
  some-injective, if◌then◌else◌,
}
use fronta.Store.Row.{Task}
use fronta.Store.Tables.{Db, TaskType, get_task_type}
use fronta.Store.Claim.{Candidate, full, running_of}
use fronta.Store.Claim.Admission.{Entry, Look, find_entry, open_type, bump}
use fronta.Store.Claim.Steps.{open_type-type, find_entry-new}
use fronta.Store.Claim.Limits.{is_ready, IsHeld, opened_limit}

pub find_entry-bump :
    (type : String) (es : List Entry) (e : Entry)
    → find_entry type es ≡ some e
    → find_entry type (bump type es) ≡ some (record e { count = e.count + 1 })
find_entry-bump type [] e h = absurd (cc h)
find_entry-bump type (d ∷ es) e h = elim (Bool-cases (text_eq d.type type)) [
  | inl b ↦
      ap (find_entry type) (if_true _ _ b)
      ∙ if_true _ _ b
      ∙ ap (λ (z : Entry). some (record z { count = z.count + 1 }))
          (some-injective (sym (if_true _ _ b) ∙ h))
  | inr b ↦
      ap (find_entry type) (if_false _ _ b)
      ∙ if_false _ _ b
      ∙ find_entry-bump type es e (sym (if_false _ _ b) ∙ h)
]

pub find_entry-bump_other :
    (type other : String) (es : List Entry)
    → text_eq type other ≡ false
    → find_entry other (bump type es) ≡ find_entry other es
find_entry-bump_other type other [] h = refl
find_entry-bump_other type other (d ∷ es) h = elim (Bool-cases (text_eq d.type type)) [
  | inl b ↦
      let k = subst (λ z. text_eq z other ≡ false) (sym ((eq_iff d.type type).0 b)) h in
      ap (find_entry other) (if_true _ _ b) ∙ if_false _ _ k ∙ sym (if_false _ _ k)
  | inr b ↦
      ap (find_entry other) (if_false _ _ b)
      ∙ ap (λ z. if text_eq d.type other then some d else z) (find_entry-bump_other type other es h)
]

full_below : (limit n : ℕ) → full (some limit) n ≡ false → n < limit
full_below limit n h = ground arith

abbrev pub of_type : String → Candidate → Bool
of_type type c = text_eq c.type type

-- The running tasks of `type` and its admitted candidates stay under its limit.
module _ (later : Db) (type : String) (ty : TaskType) (limit : ℕ) where
  pub record IsCounted (es : List Entry) (cs : List Candidate) : Type 0 where
    pub missing : find_entry type es ≡ none → count (of_type type) cs ≡ 0
    pub entry_limit : (e : Entry) → find_entry type es ≡ some e → e.limit ≡ some limit
    pub counted :
        (e : Entry)
        → find_entry type es ≡ some e
        → running_of type later + count (of_type type) cs ≤ e.count
    pub under :
        (e : Entry) → find_entry type es ≡ some e → 1 ≤ count (of_type type) cs → e.count ≤ limit

  IsCounted-entries :
      (es es' : List Entry) (cs : List Candidate)
      → find_entry type es ≡ find_entry type es'
      → IsCounted es cs
      → IsCounted es' cs
  IsCounted-entries es es' cs h i = record {
    missing = λ k. i.missing (h ∙ k);
    entry_limit = λ e k. i.entry_limit e (h ∙ k);
    counted = λ e k. i.counted e (h ∙ k);
    under = λ e k. i.under e (h ∙ k);
  }

  IsCounted-candidate :
      (es : List Entry) (c : Candidate) (cs : List Candidate)
      → of_type type c ≡ false
      → IsCounted es cs
      → IsCounted es (c ∷ cs)
  IsCounted-candidate es c cs h i =
      let n : count (of_type type) (c ∷ cs) ≡ count (of_type type) cs = ground arith in
      record {
        missing = λ k. n ∙ i.missing k;
        entry_limit = i.entry_limit;
        counted = λ e k. omega (arith, n, i.counted e k);
        under = λ e k p. i.under e k (omega (arith, n, p));
      }

  pub adds-IsCounted :
      (c : Candidate) (e : Entry) (es : List Entry) (cs : List Candidate)
      → find_entry c.type es ≡ some e
      → full e.limit e.count ≡ false
      → IsCounted es cs
      → IsCounted (bump c.type es) (c ∷ cs)
  adds-IsCounted c e es cs f h i = elim (Bool-cases (text_eq c.type type)) [
    | inl b ↦
        let is_type = (eq_iff c.type type).0 b in
        let old = ap (λ z. find_entry z es) (sym is_type) ∙ f in
        let new = find_entry-bump type es e old in
        let below : e.count < limit =
          full_below limit e.count (ap (λ z. full z e.count) (sym (i.entry_limit e old)) ∙ h) in
        let n : count (of_type type) (c ∷ cs) ≡ suc (count (of_type type) cs) = ground arith in
        subst (λ z. IsCounted (bump z es) (c ∷ cs)) (sym is_type)
          (record {
            missing = λ k. absurd (cc (sym new ∙ k));
            entry_limit =
                λ d k. ap (λ z. z.limit) (some-injective (sym k ∙ new)) ∙ i.entry_limit e old;
            counted = λ d k.
                omega (arith, ap (λ z. z.count) (some-injective (sym k ∙ new)), n, i.counted e old);
            under = λ d k p. omega (arith, ap (λ z. z.count) (some-injective (sym k ∙ new)), below);
          })
    | inr b ↦
        IsCounted-candidate (bump c.type es) c cs b (
          IsCounted-entries es (bump c.type es) cs (sym (find_entry-bump_other c.type type es b)) i)
  ]

  module _ (locks : String → Bool) (look : Look) (c : Candidate) (t : Task)
      (held : IsHeld later locks look t) (ready : is_ready look t ≡ true) (same : t.type ≡ c.type)
      (g : get_task_type type later ≡ some ty) (m : ty.max_concurrency ≡ some limit) where
    pub opens-IsCounted :
        (e : Entry) (es : List Entry) (cs : List Candidate)
        → find_entry c.type es ≡ none
        → open_type look c ≡ some e
        → IsCounted es cs
        → IsCounted (e ∷ es) cs
    opens-IsCounted e es cs f h i = elim (Bool-cases (text_eq c.type type)) [
      | inl b ↦
          let is_type = (eq_iff c.type type).0 b in
          let new = find_entry-new type e es (open_type-type look c e h ∙ is_type) in
          let (l, n) =
            opened_limit later locks ty look t c held ready same e limit
              (ap (λ z. get_task_type z later) is_type ∙ g) h m in
          let zero_chosen = i.missing (ap (λ z. find_entry z es) (sym is_type) ∙ f) in
          record {
            missing = λ k. absurd (cc (sym new ∙ k));
            entry_limit = λ d k. ap (λ z. z.limit) (some-injective (sym k ∙ new)) ∙ l;
            counted = λ d k.
                let same_count = ap (λ z. z.count) (some-injective (sym k ∙ new)) in
                let fewer = subst (λ z. running_of z later ≤ e.count) is_type n in
                omega (arith, same_count, fewer, zero_chosen);
            under = λ d k p. absurd (omega (arith, p, zero_chosen));
          }
      | inr b ↦
          let other =
            if_false (some e) (find_entry type es)
              (subst (λ z. text_eq z type ≡ false) (sym (open_type-type look c e h)) b) in
          IsCounted-entries es (e ∷ es) cs (sym other) i
    ]
