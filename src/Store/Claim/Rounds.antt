-- ===== src/Store/Claim/Rounds.antt =====
-- The rounds of src/fronta/claim.sql end: each one sets another row aside.
use fronta.Prelude.{
  ℕ, zero, suc, ◌+◌, ◌≤◌, ◌<◌, ◌≡◌, ◌≢◌, refl, ap, subst, ◌∙◌, Bool, true, false, not, ◌&&◌, ◌||◌,
  Option, none, some, String, List, [], ◌∷◌, arith, All, All-mono, Bool-cases, inl, inr, text_eq,
  ltb, ◌==◌, length, exists, is_some, if_true, if_false, if◌then◌else◌,
}
use fronta.Store.Row.{Task}
use fronta.Store.Claim.{Candidate, full, is_open}
use fronta.Store.Claim.Admission.{
  Admission, Entry, Look, ClaimRound, usable, found, admission, judge, consider, consider_all,
  with_entry, with_opened, open_type, find_entry, nothing_chosen, key_full, skip_key, add_candidate,
  most_bytes,
}
use fronta.Store.Claim.Found.{All-candidates}

abbrev has : ℕ → List ℕ → Bool
has i ids = exists (λ k. k == i) ids

-- The ids under `n` that are not set aside.
abbrev left : ℕ → List ℕ → ℕ
left zero skip = 0
left (suc n) skip = (if has n skip then 0 else 1) + left n skip

left_less : (n i : ℕ) (skip : List ℕ) → left n (i ∷ skip) ≤ left n skip
left_less zero i skip = omega arith
left_less (suc n) i skip = ground (arith, left_less n i skip)

left_fewer :
    (n i : ℕ) (skip : List ℕ) → i < n → has i skip ≡ false → left n (i ∷ skip) < left n skip
left_fewer zero i skip h k = absurd (omega (arith, h))
left_fewer (suc n) i skip h k = elim (Bool-cases (i == n)) [
  | inl e ↦
      let same : i ≡ n = ground arith in
      let fresh = subst (λ z. has z skip ≡ false) same k in
      ground (arith, left_less n i skip, fresh, e)
  | inr e ↦ ground (arith, left_fewer n i skip (ground arith) k, e)
]

-- Every turn of the inner loop sets its candidate aside, and nothing else.
skip_key-skip : (c : Candidate) (o : Option String) (a : Admission) → (skip_key c o a).skip ≡ a.skip
skip_key-skip c none a = refl
skip_key-skip c (some key) a = refl

if-skip :
    (b : Bool) (x y : Admission × Bool) (s : List ℕ)
    → x.0.skip ≡ s
    → y.0.skip ≡ s
    → (if b then x else y).0.skip ≡ s
if-skip true x y s h k = h
if-skip false x y s h k = k

judge-skip :
    (most : ℕ) (look : Look) (c : Candidate) (e : Entry) (a : Admission)
    → (judge most look c e a).0.skip ≡ a.skip
unfolding judge add_candidate
judge-skip most look c e a = if-skip (full e.limit e.count) _ _ a.skip refl (
    if-skip (key_full look e.key_limit c.type c.concurrency_key a.chosen) _ _ a.skip
      (skip_key-skip c c.concurrency_key a)
      (if-skip (ltb 0 (length a.chosen) && ltb most_bytes (a.bytes + c.bytes)) _ _ a.skip refl
        refl))

with_opened-skip :
    (most : ℕ) (look : Look) (c : Candidate) (a : Admission) (o : Option Entry)
    → (with_opened most look c a o).0.skip ≡ a.skip
with_opened-skip most look c a none = refl
with_opened-skip most look c a (some e) = judge-skip most look c e _

with_entry-skip :
    (most : ℕ) (look : Look) (c : Candidate) (a : Admission) (o : Option Entry)
    → (with_entry most look c a o).0.skip ≡ a.skip
with_entry-skip most look c a none = with_opened-skip most look c a (open_type look c)
with_entry-skip most look c a (some e) = judge-skip most look c e a

consider-skip :
    (most : ℕ) (look : Look) (c : Candidate) (a : Admission)
    → (consider most look c a).0.skip ≡ c.id ∷ a.skip
unfolding consider
consider-skip most look c a =
    if-skip (not (usable look.now c look.locked) || exists (text_eq c.type) a.skip_types) _ _
      (c.id ∷ a.skip) refl
      (with_entry-skip most look c (record a { skip = c.id ∷ a.skip })
        (find_entry c.type a.entries))

consider_all-left :
    (n most : ℕ) (look : ℕ → Look) (cs : List Candidate) (a : Admission)
    → left n (consider_all most look cs a).0.skip ≤ left n a.skip
unfolding consider_all
consider_all-left n most look [] a = omega arith
consider_all-left n most look (c ∷ cs) a =
    let one = consider most (look c.id) c a in
    let here = ap (left n) (consider-skip most (look c.id) c a) in
    elim (Bool-cases one.1) [
      | inl b ↦ omega (
        arith,
        ap (λ (z : Admission × Bool). left n z.0.skip)
            (if_true one (consider_all most look cs one.0) b),
        here,
        left_less n c.id a.skip,
      )
      | inr b ↦ omega (
        arith,
        ap (λ (z : Admission × Bool). left n z.0.skip)
            (if_false one (consider_all most look cs one.0) b),
        here,
        left_less n c.id a.skip,
        consider_all-left n most look cs one.0,
      )
    ]

IsFresh : ℕ → List ℕ → Candidate → Type 0
IsFresh n skip c = (c.id < n) × (has c.id skip ≡ false)

consider_all-fewer :
    (n most : ℕ) (look : ℕ → Look) (cs : List Candidate) (a : Admission)
    → All (IsFresh n a.skip) cs
    → length cs ≢ 0
    → left n (consider_all most look cs a).0.skip < left n a.skip
unfolding consider_all IsFresh
consider_all-fewer n most look [] a f h = absurd (h refl)
consider_all-fewer n most look (c ∷ cs) a f h =
    let one = consider most (look c.id) c a in
    let here = ap (left n) (consider-skip most (look c.id) c a) in
    let less = left_fewer n c.id a.skip f.0.0 f.0.1 in
    elim (Bool-cases one.1) [
      | inl b ↦ omega (
        arith,
        ap (λ (z : Admission × Bool). left n z.0.skip)
            (if_true one (consider_all most look cs one.0) b),
        here,
        less,
      )
      | inr b ↦ omega (
        arith,
        ap (λ (z : Admission × Bool). left n z.0.skip)
            (if_false one (consider_all most look cs one.0) b),
        here,
        less,
        consider_all-left n most look cs one.0,
      )
    ]

-- The rows that a round sees have ids under `n`.
abbrev pub IsUnder : ℕ → ClaimRound → Type 0
IsUnder n r = All (λ (t : Task). t.id < n) r.db.tasks

found-IsFresh :
    (n : ℕ) (size : String → ℕ) (types : List String) (most : ℕ) (r : ClaimRound) (a : Admission)
    → IsUnder n r
    → All (IsFresh n a.skip) (found size types most r a)
unfolding found IsFresh is_open
found-IsFresh n size types most r a h =
    All-candidates (IsFresh n a.skip) size _ r.now r.busy r.db
      (All-mono _ _ (λ t k limited o. (k, ground arith)) r.db.tasks h)

admission_rounds :
    (n : ℕ) (size : String → ℕ) (types : List String) (most : ℕ) (rs : List ClaimRound)
    (a : Admission)
    → All (IsUnder n) rs
    → left n a.skip < length rs
    → is_some (admission size types most rs a) ≡ true
unfolding admission
admission_rounds n size types most [] a h k = absurd (omega (arith, k))
admission_rounds n size types most (r ∷ rs) a h k =
    let cs = found size types most r a in
    let done = consider_all most r.look cs a in
    elim (Bool-cases done.1) [
      | inl e ↦ ap is_some (if_true _ _ e)
      | inr e ↦ elim (Bool-cases (length cs == 0 || r.late)) [
        | inl f ↦ ap is_some (if_false _ _ e ∙ if_true _ _ f)
        | inr f ↦
            let less =
              consider_all-fewer n most r.look cs a (found-IsFresh n size types most r a h.0)
                (λ z. ground arith) in
            ap is_some (if_false _ _ e ∙ if_false _ _ f)
            ∙ admission_rounds n size types most rs done.0 h.1 (omega (arith, less, k))
      ]
    ]

left-nil : (n : ℕ) → left n [] ≡ n
left-nil zero = refl
left-nil (suc n) = omega (arith, left-nil n)

-- A claim ends: where every row that its rounds see has an id under `n`, `n + 1` rounds are enough for the admission to
-- come to an end, whatever locks, limits and clocks it meets.
pub admission-ends :
    (n : ℕ) (size : String → ℕ) (types : List String) (most : ℕ) (rs : List ClaimRound)
    → All (IsUnder n) rs
    → n < length rs
    → is_some (admission size types most rs nothing_chosen) ≡ true
admission-ends n size types most rs h k =
    admission_rounds n size types most rs nothing_chosen h (omega (arith, left-nil n, k))
