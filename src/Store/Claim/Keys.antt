-- ===== src/Store/Claim/Keys.antt =====
-- The running tasks of one type and key across an admission of src/fronta/claim.sql.
use fronta.Prelude.{
  ℕ, ◌+◌, ◌≤◌, ◌<◌, ◌≡◌, sym, ap, subst, ◌∙◌, Bool, true, false, is_some, Option, none, some,
  String, List, ◌∷◌, arith, Bool-cases, inl, inr, text_eq, eq_iff, count, if_false, some-injective,
  max,
}
use fronta.Store.Row.{Task}
use fronta.Store.Tables.{Db, TaskType, get_task_type}
use fronta.Store.Claim.{Candidate, key_is, is_limited, running_with}
use fronta.Store.Claim.Admission.{Entry, Look, find_entry, open_type, bump, reserves, key_full}
use fronta.Store.Claim.Steps.{open_type-type, find_entry-new}
use fronta.Store.Claim.Limits.{is_ready, IsHeld, opened_locks, opened_key_limit}
use fronta.Store.Claim.Concurrency.{find_entry-bump, find_entry-bump_other}

key_is-some : (o : Option String) (key : String) → key_is o key ≡ true → o ≡ some key
key_is-some none key h = absurd (cc h)
key_is-some (some k) key h = ap some ((eq_iff k key).0 h)

reserves_key :
    (type key : String) (c : Candidate)
    → reserves type key c ≡ true
    → (c.type ≡ type) × (c.concurrency_key ≡ some key)
reserves_key type key c h =
    ((eq_iff c.type type).0 (ground arith), key_is-some c.concurrency_key key (ground arith))

module _ (later : Db) (locks : String → Bool) (type key : String) (ty : TaskType) (limit : ℕ)
    (g : get_task_type type later ≡ some ty) (m : ty.max_concurrency_per_key ≡ some limit) where
  limited : is_limited ty ≡ true
  limited = ground (arith, ap is_some m)

  pub record IsKeyed (es : List Entry) (cs : List Candidate) : Type 0 where
    pub entry_limit : (e : Entry) → find_entry type es ≡ some e → e.key_limit ≡ some limit
    pub locked : (e : Entry) → find_entry type es ≡ some e → locks type ≡ true
    pub counted :
        running_with type key later + count (reserves type key) cs
        ≤ max limit (running_with type key later)

  module _ (look : Look) (c : Candidate) (t : Task) (held : IsHeld later locks look t)
      (ready : is_ready look t ≡ true) (same : t.type ≡ c.type) where
    pub opens-IsKeyed :
        (e : Entry) (es : List Entry) (cs : List Candidate)
        → open_type look c ≡ some e
        → IsKeyed es cs
        → IsKeyed (e ∷ es) cs
    opens-IsKeyed e es cs h i = elim (Bool-cases (text_eq c.type type)) [
      | inl b ↦
          let is_type = (eq_iff c.type type).0 b in
          let new = find_entry-new type e es (open_type-type look c e h ∙ is_type) in
          let l =
            opened_key_limit later locks ty look t c held ready same e
              (ap (λ z. get_task_type z later) is_type ∙ g) h in
          record {
            entry_limit = λ d k. ap (λ z. z.key_limit) (some-injective (sym k ∙ new)) ∙ l ∙ m;
            locked = λ d k.
                ap locks (sym is_type)
                ∙ opened_locks later locks ty look t c held ready same e
                    (ap (λ z. get_task_type z later) is_type ∙ g) h limited;
            counted = i.counted;
          }
      | inr b ↦
          let other =
            if_false (some e) (find_entry type es)
              (subst (λ z. text_eq z type ≡ false) (sym (open_type-type look c e h)) b) in
          record {
            entry_limit = λ d k. i.entry_limit d (sym other ∙ k);
            locked = λ d k. i.locked d (sym other ∙ k);
            counted = i.counted;
          }
    ]

    bumped_limit :
        (es : List Entry) (cs : List Candidate) (e d : Entry)
        → find_entry c.type es ≡ some e
        → IsKeyed es cs
        → find_entry type (bump c.type es) ≡ some d
        → d.key_limit ≡ some limit
    bumped_limit es cs e d f i k = elim (Bool-cases (text_eq c.type type)) [
      | inl b ↦
          let is_type = (eq_iff c.type type).0 b in
          let old = ap (λ z. find_entry z es) (sym is_type) ∙ f in
          let new = ap (λ z. find_entry type (bump z es)) (sym is_type) ∙ k in
          ap (λ z. z.key_limit) (some-injective (sym new ∙ find_entry-bump type es e old))
          ∙ i.entry_limit e old
      | inr b ↦ i.entry_limit d (sym (find_entry-bump_other c.type type es b) ∙ k)
    ]

    bumped_locked :
        (es : List Entry) (cs : List Candidate) (e d : Entry)
        → find_entry c.type es ≡ some e
        → IsKeyed es cs
        → find_entry type (bump c.type es) ≡ some d
        → locks type ≡ true
    bumped_locked es cs e d f i k = elim (Bool-cases (text_eq c.type type)) [
      | inl b ↦ i.locked e (ap (λ z. find_entry z es) (sym ((eq_iff c.type type).0 b)) ∙ f)
      | inr b ↦ i.locked d (sym (find_entry-bump_other c.type type es b) ∙ k)
    ]

    -- The key's limit has room for the candidate.
    room :
        (es : List Entry) (cs : List Candidate) (e : Entry)
        → t.concurrency_key ≡ c.concurrency_key
        → find_entry c.type es ≡ some e
        → key_full look e.key_limit c.type c.concurrency_key cs ≡ false
        → IsKeyed es cs
        → reserves type key c ≡ true
        → running_with type key later + count (reserves type key) cs < limit
    room es cs e k f h i r =
        let (is_type, is_key) = reserves_key type key c r in
        let entry = ap (λ z. find_entry z es) (sym is_type) ∙ f in
        let l = i.entry_limit e entry in
        let typed = same ∙ is_type in
        let h' : key_full look (some limit) type (some key) cs ≡ false =
          subst (λ z. key_full look z type (some key) cs ≡ false) l
            (subst (λ z. key_full look e.key_limit type z cs ≡ false) is_key
              (subst (λ z. key_full look e.key_limit z c.concurrency_key cs ≡ false) is_type h)) in
        let fewer =
          subst (λ z. running_with z key later ≤ running_with z key look.db) typed
            (held.keys ready (ty, ap (λ z. get_task_type z later) typed ∙ g, limited)
              (ap locks typed ∙ i.locked e entry) key (k ∙ is_key)) in
        ground (arith, h', fewer)

    pub adds-IsKeyed :
        (e : Entry) (es : List Entry) (cs : List Candidate)
        → t.concurrency_key ≡ c.concurrency_key
        → find_entry c.type es ≡ some e
        → key_full look e.key_limit c.type c.concurrency_key cs ≡ false
        → IsKeyed es cs
        → IsKeyed (bump c.type es) (c ∷ cs)
    adds-IsKeyed e es cs k f h i = record {
      entry_limit = λ d q. bumped_limit es cs e d f i q;
      locked = λ d q. bumped_locked es cs e d f i q;
      counted = elim (Bool-cases (reserves type key c)) [
        | inl r ↦ ground (arith, r, room es cs e k f h i r)
        | inr r ↦ ground (arith, r, i.counted)
      ];
    }
