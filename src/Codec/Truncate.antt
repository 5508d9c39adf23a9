-- ===== src/Codec/Truncate.antt =====
-- `truncate` of src/fronta/codec.py, for the size of an encoding (`utf8_len(encode(data))`) as an
-- argument. A dict is a list of fields with different names.
use fronta.Prelude.{
  ℕ, zero, suc, ◌+◌, ◌-◌, ◌/◌, ◌≤◌, ◌<◌, ◌≡◌, refl, ap, sym, ◌∙◌, ◌⊎◌, inl, inr, Bool, Option, none,
  some, String, List, [], ◌∷◌, ◌++◌, exists, take, drop, length, leb, ltb, text_eq, if◌then◌else◌,
  Bool-cases, Option-cases, some-injective, if_true, if_false, length-take, length-drop, ◌==◌,
  arith,
}
use fronta.Codec.Text.{Text}

-- A value: text, or any other JSON value, which the function leaves alone.
pub data Value : Type 0 where
  text : Text → Value
  other : ℕ → Value

abbrev pub Data : Type 0
Data = List (String × Value)

-- `data["truncated"] = True`, whose value stands for `other 1`.
abbrev pub mark : Data → Data
mark [] = ("truncated", other 1) ∷ []
mark ((k, v) ∷ rest) =
    let later = mark rest in if text_eq k "truncated" then (k, other 1) ∷ rest else (k, v) ∷ later

-- A field with text, between the fields before and behind it.
pub record Field : Type 0 where
  pub before : Data
  pub name : String
  pub value : Text
  pub behind : Data

abbrev pub whole : Field → Data
whole f = f.before ++ (f.name, text f.value) ∷ f.behind

abbrev pub shift : String × Value → Field → Field
shift p f = record f { before = p ∷ f.before }

-- `max(..., key=len)`: the first one of the longest texts that are not empty.
abbrev pub choose : String → Value → Data → Option Field → Option Field
choose k (other n) rest none = none
choose k (other n) rest (some f) = some (shift (k, other n) f)
choose k (text t) rest none =
    if ltb 0 (length t)
    then some (record { before = []; name = k; value = t; behind = rest })
    else none
choose k (text t) rest (some f) =
    if ltb (length t) (length f.value)
    then some (shift (k, text t) f)
    else some (record { before = []; name = k; value = t; behind = rest })

abbrev pub longest : Data → Option Field
longest [] = none
longest ((k, v) ∷ rest) = choose k v rest (longest rest)

-- `text[-keep:]` or `text[:keep]`, and "" where nothing is kept.
abbrev pub halve : Bool → Text → Text
halve tail t =
    let kept = length t / 2 in
    if kept == 0 then [] else if tail then drop (length t - kept) t else take kept t

abbrev pub shrink : List String → Field → Data
shrink keep_tail f =
    f.before ++ (f.name, text (halve (exists (λ n. text_eq n f.name) keep_tail) f.value)) ∷ f.behind

-- `{"type": str(error.get("type", ""))[:64], "truncated": True}`
abbrev pub fallback : Text → Data
fallback type = ("type", text (take 64 type)) ∷ ("truncated", other 1) ∷ []

-- An iteration, for the next one and the field that was chosen.
abbrev pub shrunk : Bool → Data → Text → (Field → Option Data) → Option Field → Option Data
shrunk fits d type next none = some (if fits then d else fallback type)
shrunk fits d type next (some f) = if fits then some d else next f

-- `while utf8_len(encode(data)) > cap`, on fuel.
abbrev pub shrink_all : (Data → ℕ) → ℕ → List String → Text → ℕ → Data → Option Data
shrink_all size limit keep_tail type zero d = none
shrink_all size limit keep_tail type (suc fuel) d =
    shrunk (leb (size d) limit) d type
      (λ f. shrink_all size limit keep_tail type fuel (shrink keep_tail f)) (longest d)

unfoldable pub truncate : (Data → ℕ) → ℕ → List String → Text → ℕ → Data → Option Data
truncate size limit keep_tail type fuel error =
    if leb (size error) limit
    then some error
    else shrink_all size limit keep_tail type fuel (mark error)

-- The length of all texts.
abbrev pub weight : Data → ℕ
weight [] = 0
weight ((k, other n) ∷ rest) = weight rest
weight ((k, text t) ∷ rest) = length t + weight rest

weight-append : (xs ys : Data) → weight (xs ++ ys) ≡ weight xs + weight ys
weight-append [] ys = omega arith
weight-append ((k, other n) ∷ xs) ys = weight-append xs ys
weight-append ((k, text t) ∷ xs) ys = omega (arith, weight-append xs ys)

none-some {ℓ} : {A : Type ℓ} {a : A} → none ≡ some a → ⊥
none-some h = cc

-- A longest field is one of the fields, and its text is not empty.
record IsField (d : Data) (f : Field) : Type 0 where
  same : whole f ≡ d
  filled : 1 ≤ length f.value

shift-IsField :
    (p : String × Value) (d : Data) (f : Field) → IsField d f → IsField (p ∷ d) (shift p f)
shift-IsField p d f h = record { same = ap (λ z. p ∷ z) h.same; filled = h.filled }

choose-IsField :
    (k : String) (v : Value) (rest : Data) (o : Option Field) (f : Field)
    → ((g : Field) → o ≡ some g → IsField rest g)
    → choose k v rest o ≡ some f
    → IsField ((k, v) ∷ rest) f
choose-IsField k (other n) rest none f ih h = absurd (cc h)
choose-IsField k (other n) rest (some g) f ih h =
    rw (← some-injective h) (shift-IsField (k, other n) rest g (ih g refl))
choose-IsField k (text t) rest none f ih h = elim (Bool-cases (ltb 0 (length t))) [
  | inl e ↦
      rw (← some-injective (sym (if_true _ _ e) ∙ h))
        (record { same = refl; filled = ground (arith, e) })
  | inr e ↦ absurd (none-some (sym (if_false _ _ e) ∙ h))
]
choose-IsField k (text t) rest (some g) f ih h =
    elim (Bool-cases (ltb (length t) (length g.value))) [
      | inl e ↦
          rw (← some-injective (sym (if_true _ _ e) ∙ h))
            (shift-IsField (k, text t) rest g (ih g refl))
      | inr e ↦
          rw (← some-injective (sym (if_false _ _ e) ∙ h))
            (record { same = refl; filled = ground (arith, e, (ih g refl).filled) })
    ]

longest-IsField : (d : Data) (f : Field) → longest d ≡ some f → IsField d f
longest-IsField [] f h = absurd (cc h)
longest-IsField ((k, v) ∷ rest) f h =
    choose-IsField k v rest (longest rest) f (λ g e. longest-IsField rest g e) h

length-halve : (tail : Bool) (t : Text) → 1 ≤ length t → length (halve tail t) < length t
length-halve tail t h =
    ground (arith, length-drop (length t - length t / 2) t, length-take (length t / 2) t)

weight-shrink :
    (keep_tail : List String) (d : Data) (f : Field)
    → IsField d f
    → weight (shrink keep_tail f) < weight d
weight-shrink keep_tail d f h =
    let tail : Bool = exists (λ n. text_eq n f.name) keep_tail in
    let short : Text = halve tail f.value in
    let old : weight d ≡ weight f.before + (length f.value + weight f.behind) =
      ap weight (sym h.same) ∙ weight-append f.before ((f.name, text f.value) ∷ f.behind) in
    let new = weight-append f.before ((f.name, text short) ∷ f.behind) in
    let less : length short < length f.value = length-halve tail f.value h.filled in
    omega (arith, old, new, less)

shrink_all-ends :
    (size : Data → ℕ) (limit : ℕ) (keep_tail : List String) (type : Text) (fuel : ℕ) (d : Data)
    → weight d < fuel
    → (r : Data) × (shrink_all size limit keep_tail type fuel d ≡ some r)
      × ((size r ≤ limit) ⊎ (r ≡ fallback type))
shrink_all-ends size limit keep_tail type zero d h = absurd (omega arith)
shrink_all-ends size limit keep_tail type (suc fuel) d h = elim (Option-cases (longest d)) [
  | inl e ↦ elim (Bool-cases (leb (size d) limit)) [
    | inl s ↦ (d, rw (e, s) refl, inl (ground (arith, s)))
    | inr s ↦ (fallback type, rw (e, s) refl, inr refl)
  ]
  | inr (f, e) ↦ elim (Bool-cases (leb (size d) limit)) [
    | inl s ↦ (d, rw (e, s) refl, inl (ground (arith, s)))
    | inr s ↦
        let less = weight-shrink keep_tail d f (longest-IsField d f e) in
        let (r, ends, good) =
          shrink_all-ends size limit keep_tail type fuel (shrink keep_tail f)
            (omega (arith, less)) in
        (r, rw (e, s) ends, good)
  ]
]

weight-mark : (d : Data) → weight (mark d) ≤ weight d
weight-mark [] = omega arith
weight-mark ((k, other n) ∷ rest) = ground (arith, weight-mark rest)
weight-mark ((k, text t) ∷ rest) = ground (arith, weight-mark rest)

-- Truncation always ends: with more fuel than the texts are long together it returns a value, which fits
-- the limit or is the fallback with the type alone, whatever the size of an encoding is.
pub truncate-ends :
    (size : Data → ℕ) (limit : ℕ) (keep_tail : List String) (type : Text) (fuel : ℕ) (error : Data)
    → weight error < fuel
    → (r : Data) × (truncate size limit keep_tail type fuel error ≡ some r)
      × ((size r ≤ limit) ⊎ (r ≡ fallback type))
unfolding truncate
truncate-ends size limit keep_tail type fuel error h = elim (Bool-cases (leb (size error) limit)) [
  | inl s ↦ (error, rw s refl, inl (ground (arith, s)))
  | inr s ↦ rw s (
      shrink_all-ends size limit keep_tail type fuel (mark error)
        (omega (arith, weight-mark error)))
]
