-- ===== src/Codec/Check.antt =====
-- `_check` and `encode_capped` of src/fronta/codec.py. A value is a tree: one that holds itself has no
-- finite tree, and is refused by the depth at the latest.
use fronta.Prelude.{
  ℕ, suc, ◌+◌, ◌≤◌, ◌<◌, ◌≡◌, refl, max, sym, ◌∙◌, if_true, if_false, Option, none, some, leb, ltb,
  if◌then◌else◌, arith, Bool-cases, inl, inr,
}
use fronta.Codec.Text.{Text, check_text, utf8_len}

abbrev pub max_depth : ℕ
max_depth = 200

-- A Python value: text, a scalar, a list or tuple, or a dict, whose keys may be no strings.
mutual
  pub data Value : Type 0 where
    text : Text → Value
    scalar : Value
    array : Items → Value
    object : Fields → Value

  pub data Items : Type 0 where
    no_items : Items
    item : Value → Items → Items

  pub data Fields : Type 0 where
    no_fields : Fields
    field : Option Text → Value → Fields → Fields

-- How the check ends: it returns, or raises `Unstorable` or `TypeError`.
pub data Checked : Type 0 where
  storable unstorable type_error : Checked

abbrev pub then_check : Checked → Checked → Checked
then_check storable next = next
then_check unstorable next = unstorable
then_check type_error next = type_error

abbrev pub text_checked : Text → Checked
text_checked t = if check_text t then storable else unstorable

abbrev pub key_checked : Option Text → Checked
key_checked none = type_error
key_checked (some k) = text_checked k

-- `if depth >= MAX_DEPTH: raise Unstorable`
abbrev pub within_depth : ℕ → Checked → Checked
within_depth depth next = if leb max_depth depth then unstorable else next

unfoldable mutual
  pub check : ℕ → Value → Checked
  check depth (text t) = text_checked t
  check depth scalar = storable
  check depth (array is) = within_depth depth (check_items (depth + 1) is)
  check depth (object fs) = within_depth depth (check_fields (depth + 1) fs)

  pub check_items : ℕ → Items → Checked
  check_items depth no_items = storable
  check_items depth (item v is) = then_check (check depth v) (check_items depth is)

  pub check_fields : ℕ → Fields → Checked
  check_fields depth no_fields = storable
  check_fields depth (field k v fs) =
      then_check (key_checked k) (then_check (check depth v) (check_fields depth fs))

-- The levels of nesting, and whether every text and key can be stored.
mutual
  pub nesting : Value → ℕ
  nesting (text t) = 0
  nesting scalar = 0
  nesting (array is) = suc (items_nesting is)
  nesting (object fs) = suc (fields_nesting fs)

  pub items_nesting : Items → ℕ
  items_nesting no_items = 0
  items_nesting (item v is) = max (nesting v) (items_nesting is)

  pub fields_nesting : Fields → ℕ
  fields_nesting no_fields = 0
  fields_nesting (field k v fs) = max (nesting v) (fields_nesting fs)

then_check-storable : (a b : Checked) → then_check a b ≡ storable → (a ≡ storable) × (b ≡ storable)
then_check-storable a b h = ground arith

within_depth-storable :
    (depth : ℕ) (c : Checked)
    → within_depth depth c ≡ storable
    → (depth < max_depth) × (c ≡ storable)
within_depth-storable depth c h = ground arith

mutual
  unfolding check nesting

  check-nesting :
      (depth : ℕ) (v : Value)
      → depth ≤ max_depth
      → check depth v ≡ storable
      → depth + nesting v ≤ max_depth
  check-nesting depth (text t) b h = omega arith
  check-nesting depth scalar b h = omega arith
  check-nesting depth (array is) b h =
      let (deep, rest) = within_depth-storable depth (check_items (depth + 1) is) h in
      omega (arith, check_items-nesting (depth + 1) is (omega (arith, deep)) rest)
  check-nesting depth (object fs) b h =
      let (deep, rest) = within_depth-storable depth (check_fields (depth + 1) fs) h in
      omega (arith, check_fields-nesting (depth + 1) fs (omega (arith, deep)) rest)

  check_items-nesting :
      (depth : ℕ) (is : Items)
      → depth ≤ max_depth
      → check_items depth is ≡ storable
      → depth + items_nesting is ≤ max_depth
  check_items-nesting depth no_items b h = omega arith
  check_items-nesting depth (item v is) b h =
      let (first, rest) = then_check-storable (check depth v) (check_items depth is) h in
      omega (arith, check-nesting depth v b first, check_items-nesting depth is b rest)

  check_fields-nesting :
      (depth : ℕ) (fs : Fields)
      → depth ≤ max_depth
      → check_fields depth fs ≡ storable
      → depth + fields_nesting fs ≤ max_depth
  check_fields-nesting depth no_fields b h = omega arith
  check_fields-nesting depth (field k v fs) b h =
      let (key, behind) =
        then_check-storable (key_checked k) (then_check (check depth v) (check_fields depth fs))
          h in
      let (first, rest) = then_check-storable (check depth v) (check_fields depth fs) behind in
      omega (arith, check-nesting depth v b first, check_fields-nesting depth fs b rest)

-- How `encode_capped` ends; `json.dumps` is an argument.
pub data Encoded : Type 0 where
  encoded : Text → Encoded
  not_storable not_json over_cap : Encoded

abbrev pub capped : Text → ℕ → Encoded
capped t limit = if ltb limit (utf8_len t) then over_cap else encoded t

abbrev pub encode_checked : Checked → Text → ℕ → Encoded
encode_checked storable t limit = capped t limit
encode_checked unstorable t limit = not_storable
encode_checked type_error t limit = not_json

unfoldable pub encode_capped : (Value → Text) → Value → ℕ → Encoded
unfolding check
encode_capped dumps v limit = encode_checked (check 0 v) (dumps v) limit

encode_checked-encoded :
    (c : Checked) (t u : Text) (limit : ℕ)
    → encode_checked c t limit ≡ encoded u
    → (c ≡ storable) × (u ≡ t) × (utf8_len t ≤ limit)
encode_checked-encoded storable t u limit h = elim (Bool-cases (ltb limit (utf8_len t))) [
  | inl e ↦ absurd (over (sym (if_true _ _ e) ∙ h))
  | inr e ↦ (refl, same (sym (if_false _ _ e) ∙ h), ground (arith, e))
]
  where
    over : over_cap ≡ encoded u → ⊥
    over k = cc

    same : encoded t ≡ encoded u → u ≡ t
    same k = cc
encode_checked-encoded unstorable t u limit h = absurd (cc h)
encode_checked-encoded type_error t u limit h = absurd (cc h)

-- What `encode_capped` returns is the encoding of the value, within the cap, and the value is nested at
-- most 200 levels deep, so that no encoder recurses further.
pub encode_capped-nesting :
    (dumps : Value → Text) (v : Value) (limit : ℕ) (t : Text)
    → encode_capped dumps v limit ≡ encoded t
    → (t ≡ dumps v) × (utf8_len t ≤ limit) × (nesting v ≤ 200)
unfolding encode_capped
encode_capped-nesting dumps v limit t h =
    let (passed, same, fits) = encode_checked-encoded (check 0 v) (dumps v) t limit h in
    (same, rw same fits, omega (arith, check-nesting 0 v (omega arith) passed))
