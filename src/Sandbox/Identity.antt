-- ===== src/Sandbox/Identity.antt =====
-- `worker_id` and `is_worker_alive` of src/fronta/sandbox.py. `decimal` is Python's formatting of an integer and
-- `natural` its `int(...)`, with `none` for a `ValueError` and for a negative number, which have one answer here.
pub mod RoundTrip
use fronta.Prelude.{
  ℕ, ◌≡◌, ◌≢◌, refl, sym, ap, subst, ◌∙◌, Bool, true, false, not, ◌&&◌, ◌||◌, Option, none, some,
  List, [], ◌∷◌, ◌++◌, arith, Bool-cases, Option-cases, inl, inr, exists, is_some, ltb, ◌==◌,
  if◌then◌else◌, if_true, if_false, some-injective, ==_iff,
}
use fronta.Codec.Text.{Text}

abbrev pub same_text : Text → Text → Bool
same_text [] [] = true
same_text (c ∷ cs) (d ∷ ds) = let rest = same_text cs ds in c == d && rest
same_text _ _ = false

-- `text.rsplit(sep, 1)`: the last occurrence.
abbrev pub put_first : ℕ → Option (Text × Text) → Option (Text × Text)
put_first c none = none
put_first c (some p) = some (c ∷ p.0, p.1)

unfoldable pub split_last : ℕ → Text → Option (Text × Text)
split_last sep [] = none
split_last sep (c ∷ cs) = elim (split_last sep cs) [
  | some p ↦ put_first c (some p)
  | none ↦ if c == sep then some ([], cs) else none
]

-- `text.split(sep, 1)[0]`
unfoldable pub before_first : ℕ → Text → Text
before_first sep [] = []
before_first sep (c ∷ cs) = let rest = before_first sep cs in if c == sep then [] else c ∷ rest

-- ":" and "-"
abbrev pub colon : ℕ
colon = 58

abbrev pub dash : ℕ
dash = 45

-- "nonce"
abbrev pub nonce : Text
nonce = 110 ∷ 111 ∷ 110 ∷ 99 ∷ 101 ∷ []

abbrev pub starts_with : Text → Text → Bool
starts_with [] text = true
starts_with (p ∷ ps) [] = false
starts_with (p ∷ ps) (c ∷ cs) = let rest = starts_with ps cs in p == c && rest

-- A host: its name, the start time in `/proc/<pid>/stat`, and how `os.kill(pid, 0)` ends.
pub record Host : Type 0 where
  pub name : Text
  pub starttime : ℕ → Option Text
  pub no_such_process : ℕ → Bool

abbrev front_of : Text → Option (Text × Text) → Option (Text × Text × Text)
front_of back none = none
front_of back (some front) = some (front.0, front.1, back)

abbrev parts_of : Option (Text × Text) → Option (Text × Text × Text)
parts_of none = none
parts_of (some last) = front_of last.1 (split_last colon last.0)

-- `worker.rsplit(":", 2)`, if it has three parts.
unfoldable pub three_parts : Text → Option (Text × Text × Text)
unfolding split_last
three_parts worker = parts_of (split_last colon worker)

module _ (decimal : ℕ → Text) (natural : Text → Option ℕ) where
  -- `worker_id`; `unique` is `uuid4().hex`.
  unfoldable pub worker_id : Host → ℕ → Text → Text
  worker_id host pid unique =
      host.name
      ++ colon
        ∷ (decimal pid
            ++ colon ∷ (elim (host.starttime pid) [ none ↦ nonce | some t ↦ t ] ++ dash ∷ unique))

  abbrev judged : Host → ℕ → Text → Option Text → Option Bool
  judged host pid identity (some t) = some (same_text t (before_first dash identity))
  judged host pid identity none = if host.no_such_process pid then some false else none

  abbrev judge_parts : Host → Option (Text × Text × Text) → Option Bool
  judge_parts host none = none
  judge_parts host (some (name, number, identity)) =
      if not (same_text name host.name) then none else elim (natural number) [
        | none ↦ none
        | some pid ↦
            if pid == 0 || starts_with (nonce ++ dash ∷ []) identity
            then none
            else judged host pid identity (host.starttime pid)
      ]

  -- `is_worker_alive`; `none` is Python's `None`.
  unfoldable pub is_worker_alive : Host → Text → Option Bool
  unfolding three_parts before_first
  is_worker_alive host worker = judge_parts host (three_parts worker)
