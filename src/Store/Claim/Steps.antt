-- ===== src/Store/Claim/Steps.antt =====
-- Induction over the admission loop of src/fronta/claim.sql: what a statement about the open types and the
-- chosen candidates needs at a candidate, and over all the rounds.
use fronta.Prelude.{
  ℕ, ◌+◌, ◌≡◌, refl, sym, ◌∙◌, subst, Bool, true, false, not, ◌&&◌, ◌||◌, Option, none, some,
  String, List, [], ◌∷◌, arith, All, Bool-cases, inl, inr, ltb, ◌==◌, text_eq, length, exists,
  if◌then◌else◌, if_true, if_false, some-injective, eq_iff, ap,
}
use fronta.Store.Tables.{TaskType}
use fronta.Store.Claim.{Candidate, full}
use fronta.Store.Claim.Admission.{
  Entry, Admission, Look, ClaimRound, usable, entry_of, find_entry, open_type, key_full, skip_key,
  bump, add_candidate, judge, with_opened, with_entry, consider, consider_all, found, admission,
  most_bytes,
}

text_eq_refl : (a b : String) → a ≡ b → text_eq a b ≡ true
text_eq_refl a b h = (eq_iff a b).1 h

entry_of-type :
    (look : Look) (type : String) (o : Option TaskType) (e : Entry)
    → entry_of look type o ≡ some e
    → e.type ≡ type
entry_of-type look type none e h = absurd (cc h)
entry_of-type look type (some ty) e h = elim (Bool-cases ty.paused) [
  | inl p ↦ absurd (cc (sym (if_true _ _ p) ∙ h))
  | inr p ↦ ap (λ z. z.type) (sym (some-injective (sym (if_false _ _ p) ∙ h)))
]

pub open_type-type :
    (look : Look) (c : Candidate) (e : Entry) → open_type look c ≡ some e → e.type ≡ c.type
unfolding open_type
open_type-type look c e h = entry_of-type look c.type _ e h

pub find_entry-new :
    (type : String) (e : Entry) (es : List Entry)
    → e.type ≡ type
    → find_entry type (e ∷ es) ≡ some e
find_entry-new type e es h = if_true _ _ (text_eq_refl e.type type h)

module _ (I : List Entry → List Candidate → Type 0) where
  abbrev pub Of : Admission → Type 0
  Of a = I a.entries a.chosen

  -- The two ways in which the loop grows what the statement is about.
  pub record IsStep (look : Look) (c : Candidate) : Type 0 where
    pub opens_type :
        (e : Entry) (es : List Entry) (cs : List Candidate)
        → usable look.now c look.locked ≡ true
        → find_entry c.type es ≡ none
        → open_type look c ≡ some e
        → I es cs
        → I (e ∷ es) cs
    pub adds :
        (e : Entry) (es : List Entry) (cs : List Candidate)
        → usable look.now c look.locked ≡ true
        → find_entry c.type es ≡ some e
        → full e.limit e.count ≡ false
        → key_full look e.key_limit c.type c.concurrency_key cs ≡ false
        → I es cs
        → I (bump c.type es) (c ∷ cs)

  skip_key-Of : (c : Candidate) (k : Option String) (a : Admission) → Of a → Of (skip_key c k a)
  skip_key-Of c none a h = h
  skip_key-Of c (some k) a h = h

  if-Of :
      (b : Bool) (x y : Admission × Bool)
      → (b ≡ true → Of x.0)
      → (b ≡ false → Of y.0)
      → Of (if b then x else y).0
  if-Of true x y h k = h refl
  if-Of false x y h k = k refl

  module _ (most : ℕ) (look : Look) (c : Candidate) (s : IsStep look c) where
    judge-Of :
        (e : Entry) (a : Admission)
        → usable look.now c look.locked ≡ true
        → find_entry c.type a.entries ≡ some e
        → Of a
        → Of (judge most look c e a).0
    unfolding judge add_candidate
    judge-Of e a u f i =
        if-Of (full e.limit e.count) _ _ (λ h. i)
          (λ h.
            if-Of (key_full look e.key_limit c.type c.concurrency_key a.chosen) _ _
              (λ k. skip_key-Of c c.concurrency_key a i)
              (λ k.
                if-Of (ltb 0 (length a.chosen) && ltb most_bytes (a.bytes + c.bytes)) _ _ (λ _. i)
                  (λ _. s.adds e a.entries a.chosen u f h k i)))

    with_opened-Of :
        (a : Admission) (o : Option Entry)
        → usable look.now c look.locked ≡ true
        → find_entry c.type a.entries ≡ none
        → open_type look c ≡ o
        → Of a
        → Of (with_opened most look c a o).0
    with_opened-Of a none u f h i = i
    with_opened-Of a (some e) u f h i =
        judge-Of e (record a { entries = e ∷ a.entries }) u
          (find_entry-new c.type e a.entries (open_type-type look c e h))
          (s.opens_type e a.entries a.chosen u f h i)

    with_entry-Of :
        (a : Admission) (o : Option Entry)
        → usable look.now c look.locked ≡ true
        → find_entry c.type a.entries ≡ o
        → Of a
        → Of (with_entry most look c a o).0
    with_entry-Of a none u f i = with_opened-Of a (open_type look c) u f refl i
    with_entry-Of a (some e) u f i = judge-Of e a u f i

    consider-Of : (a : Admission) → Of a → Of (consider most look c a).0
    unfolding consider
    consider-Of a i =
        if-Of (not (usable look.now c look.locked) || exists (text_eq c.type) a.skip_types) _ _
          (λ _. i)
          (λ h.
            with_entry-Of (record a { skip = c.id ∷ a.skip }) (find_entry c.type a.entries)
              (ground arith) refl i)

  consider_all-Of :
      (most : ℕ) (look : ℕ → Look) (cs : List Candidate) (a : Admission)
      → All (λ c. IsStep (look c.id) c) cs
      → Of a
      → Of (consider_all most look cs a).0
  unfolding consider_all
  consider_all-Of most look [] a s i = i
  consider_all-Of most look (c ∷ cs) a s i =
      let here = consider-Of most (look c.id) c s.0 a i in
      if-Of (consider most (look c.id) c a).1 _ _ (λ _. here)
        (λ _. consider_all-Of most look cs (consider most (look c.id) c a).0 s.1 here)

  -- A statement that every found candidate keeps holds of the finished admission.
  pub admission-Of :
      (size : String → ℕ) (types : List String) (most : ℕ) (rs : List ClaimRound) (a b : Admission)
      → All
          (λ (r : ClaimRound).
            (a : Admission) → All (λ c. IsStep (r.look c.id) c) (found size types most r a))
          rs
      → Of a
      → admission size types most rs a ≡ some b
      → Of b
  unfolding admission
  admission-Of size types most [] a b s i h = absurd (cc h)
  admission-Of size types most (r ∷ rs) a b s i h =
      let cs = found size types most r a in
      let done = consider_all most r.look cs a in
      let here : Of done.0 = consider_all-Of most r.look cs a (s.0 a) i in
      elim (Bool-cases done.1) [
        | inl e ↦ subst Of (some-injective (sym (if_true _ _ e) ∙ h)) here
        | inr e ↦ elim (Bool-cases (length cs == 0 || r.late)) [
          | inl f ↦ subst Of (some-injective (sym (if_false _ _ e ∙ if_true _ _ f) ∙ h)) here
          | inr f ↦
              admission-Of size types most rs done.0 b s.1 here
                (sym (if_false _ _ e ∙ if_false _ _ f) ∙ h)
        ]
      ]
