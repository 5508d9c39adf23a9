-- ===== src/Store/Claim/Bounds.antt =====
-- The size of a claim of src/fronta/claim.sql: rows and bytes.
use fronta.Prelude.{
  ℕ, ◌+◌, ◌≤◌, ◌<◌, ◌≡◌, refl, sym, subst, ◌∙◌, Bool, true, false, not, ◌&&◌, ◌||◌, Option, none,
  some, String, List, [], ◌∷◌, arith, Bool-cases, Option-cases, inl, inr, text_eq, ltb, ◌==◌,
  length, exists, find, if_true, if_false, some-injective, if◌then◌else◌, min,
}
use fronta.Store.Row.{Task}
use fronta.Store.Tables.{Db}
use fronta.Store.Attempts.{admit_chosen}
use fronta.Store.Claim.{Candidate, full}
use fronta.Store.Claim.Admission.{
  Admission, Entry, Look, ClaimRound, usable, found, admission, nothing_chosen, most_rows,
  apply_admission, claim, judge, consider, consider_all, with_entry, with_opened, open_type,
  find_entry, key_full, skip_key, add_candidate, most_bytes, oldest_first, tokens_for,
}

abbrev pub total_bytes : List Candidate → ℕ
total_bytes [] = 0
total_bytes (c ∷ cs) = c.bytes + total_bytes cs

-- The rows and the bytes of an admission, and that an admission that goes on has room for one more row.
pub record IsWithin (most : ℕ) (going : Bool) (a : Admission) : Type 0 where
  pub rows : length a.chosen ≤ most
  pub room : going ≡ true → length a.chosen < most
  pub total : a.bytes ≡ total_bytes a.chosen
  pub bytes : 1 < length a.chosen → a.bytes ≤ most_bytes

abbrev After : ℕ → Admission × Bool → Type 0
After most r = IsWithin most (not r.1) r.0

if-After :
    (most : ℕ) (b : Bool) (x y : Admission × Bool)
    → (b ≡ true → After most x)
    → (b ≡ false → After most y)
    → After most (if b then x else y)
if-After most true x y h k = h refl
if-After most false x y h k = k refl

skip_key-IsWithin :
    (most : ℕ) (c : Candidate) (o : Option String) (a : Admission)
    → IsWithin most true a
    → IsWithin most true (skip_key c o a)
skip_key-IsWithin most c none a i = i
skip_key-IsWithin most c (some key) a i = record {
  rows = i.rows;
  room = i.room;
  total = i.total;
  bytes = i.bytes;
}

ended : (most : ℕ) (a : Admission) → IsWithin most true a → IsWithin most false a
ended most a i = record {
  rows = i.rows;
  room = λ k. absurd (cc k);
  total = i.total;
  bytes = i.bytes;
}

judge-After :
    (most : ℕ) (look : Look) (c : Candidate) (e : Entry) (a : Admission)
    → IsWithin most true a
    → After most (judge most look c e a)
unfolding judge add_candidate
judge-After most look c e a i =
    if-After most (full e.limit e.count) _ _
      (λ _. record { rows = i.rows; room = i.room; total = i.total; bytes = i.bytes })
      (λ _.
        if-After most (key_full look e.key_limit c.type c.concurrency_key a.chosen) _ _
          (λ _. skip_key-IsWithin most c c.concurrency_key a i)
          (λ _.
            if-After most (ltb 0 (length a.chosen) && ltb most_bytes (a.bytes + c.bytes)) _ _
              (λ _. ended most a i)
              (λ h. record {
                rows = omega (arith, i.room refl);
                room = λ k. ground (arith, k);
                total = omega (arith, i.total);
                bytes = λ k. ground (arith, k, h);
              })))

with_opened-After :
    (most : ℕ) (look : Look) (c : Candidate) (a : Admission) (o : Option Entry)
    → IsWithin most true a
    → After most (with_opened most look c a o)
with_opened-After most look c a none i = record {
  rows = i.rows;
  room = i.room;
  total = i.total;
  bytes = i.bytes;
}
with_opened-After most look c a (some e) i =
    judge-After most look c e _
      (record { rows = i.rows; room = i.room; total = i.total; bytes = i.bytes })

with_entry-After :
    (most : ℕ) (look : Look) (c : Candidate) (a : Admission) (o : Option Entry)
    → IsWithin most true a
    → After most (with_entry most look c a o)
with_entry-After most look c a none i = with_opened-After most look c a (open_type look c) i
with_entry-After most look c a (some e) i = judge-After most look c e a i

consider-After :
    (most : ℕ) (look : Look) (c : Candidate) (a : Admission)
    → IsWithin most true a
    → After most (consider most look c a)
unfolding consider
consider-After most look c a i =
    let i' : IsWithin most true (record a { skip = c.id ∷ a.skip }) = record {
      rows = i.rows;
      room = i.room;
      total = i.total;
      bytes = i.bytes;
    } in
    if-After most (not (usable look.now c look.locked) || exists (text_eq c.type) a.skip_types) _ _
      (λ _. i') (λ _. with_entry-After most look c _ (find_entry c.type a.entries) i')

going : (most : ℕ) (r : Admission × Bool) → r.1 ≡ false → After most r → IsWithin most true r.0
going most r h i = subst (λ z. IsWithin most (not z) r.0) h i

consider_all-After :
    (most : ℕ) (look : ℕ → Look) (cs : List Candidate) (a : Admission)
    → IsWithin most true a
    → After most (consider_all most look cs a)
unfolding consider_all
consider_all-After most look [] a i = i
consider_all-After most look (c ∷ cs) a i =
    let here = consider-After most (look c.id) c a i in
    if-After most (consider most (look c.id) c a).1 _ _ (λ _. here)
      (λ h. consider_all-After most look cs (consider most (look c.id) c a).0 (going most _ h here))

weaker : (most : ℕ) (b : Bool) (a : Admission) → IsWithin most b a → IsWithin most false a
weaker most b a i = record {
  rows = i.rows;
  room = λ k. absurd (cc k);
  total = i.total;
  bytes = i.bytes;
}

admission-IsWithin :
    (size : String → ℕ) (types : List String) (most : ℕ) (rs : List ClaimRound) (a b : Admission)
    → IsWithin most true a
    → admission size types most rs a ≡ some b
    → IsWithin most false b
unfolding admission
admission-IsWithin size types most [] a b i h = absurd (cc h)
admission-IsWithin size types most (r ∷ rs) a b i h =
    let cs = found size types most r a in
    let done = consider_all most r.look cs a in
    let here = consider_all-After most r.look cs a i in
    elim (Bool-cases done.1) [
      | inl e ↦
          subst (IsWithin most false) (some-injective (sym (if_true _ _ e) ∙ h))
            (weaker most _ done.0 here)
      | inr e ↦ elim (Bool-cases (length cs == 0 || r.late)) [
        | inl f ↦
            subst (IsWithin most false) (some-injective (sym (if_false _ _ e ∙ if_true _ _ f) ∙ h))
              (weaker most _ done.0 here)
        | inr f ↦
            admission-IsWithin size types most rs done.0 b (going most done e here)
              (sym (if_false _ _ e ∙ if_false _ _ f) ∙ h)
      ]
    ]

length-oldest_first :
    (rows : List Task) (cs : List Candidate) (done : List Task)
    → length (oldest_first rows cs done) ≤ length cs + length done
length-oldest_first rows [] done = omega arith
length-oldest_first rows (c ∷ cs) done =
    elim (Option-cases (find (λ (t : Task). t.id == c.id) rows)) [
      | inl e ↦ rw (e, oldest_first) (omega (arith, length-oldest_first rows cs done))
      | inr (t, e) ↦ rw (e, oldest_first) (omega (arith, length-oldest_first rows cs (t ∷ done)))
    ]

-- A finished admission of a claim that asks for a row has chosen at most as many rows as it asked for and at most 256,
-- its byte count is the sum of what it has chosen, and more than one row come to at most 524288 bytes.
pub admission-bounds :
    (size : String → ℕ) (types : List String) (asked : ℕ) (rs : List ClaimRound) (a : Admission)
    → 1 ≤ asked
    → admission size types (most_rows asked) rs nothing_chosen ≡ some a
    → (length a.chosen ≤ min asked 256) × (1 < length a.chosen → total_bytes a.chosen ≤ 524288)
admission-bounds size types asked rs a h e =
    let i =
      admission-IsWithin size types (most_rows asked) rs nothing_chosen a
        (record {
          rows = omega arith;
          room = λ _. omega (arith, h);
          total = refl;
          bytes = λ k. omega (arith, k);
        })
        e in
    (i.rows, λ k. omega (arith, i.total, i.bytes k))

-- A claim returns at most as many rows as it was asked for, and at most 256.
pub claim-bounded :
    (size : String → ℕ) (types : List String) (asked : ℕ) (rs : List ClaimRound)
    (now clock lease : ℕ) (worker : String) (token : ℕ → ℕ) (db : Db) (done : Db × List Task)
    → claim size types asked rs now clock lease worker token db ≡ some done
    → length done.1 ≤ min asked 256
unfolding claim apply_admission
claim-bounded size types asked rs now clock lease worker token db done h =
    elim (Bool-cases (ltb asked 1)) [
      | inl b ↦
          subst (λ (z : Db × List Task). length z.1 ≤ min asked 256)
            (some-injective (sym (if_true _ _ b) ∙ h)) (omega arith)
      | inr b ↦ elim (Option-cases (admission size types (most_rows asked) rs nothing_chosen)) [
        | inl e ↦ absurd (cc (rw e at (sym (if_false _ _ b) ∙ h)))
        | inr (a, e) ↦
            let n = admission-bounds size types asked rs a (ground (arith, b)) e in
            subst (λ (z : Db × List Task). length z.1 ≤ min asked 256)
              (some-injective (rw e at (sym (if_false _ _ b) ∙ h)))
              (omega (
                arith,
                n.0,
                length-oldest_first
                    (admit_chosen now clock lease worker (tokens_for token a.chosen) db).1 a.chosen
                    [],
              ))
      ]
    ]
