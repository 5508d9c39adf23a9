-- ===== src/Definitions.antt =====
-- src/fronta/definitions.py: encoding of inputs and metadata, and the client operations over the tables. A model of
-- pydantic is its value; `dump` (`none` for what is no object), `dumps` and `loads` are pydantic's and json's.
use fronta.Prelude.{
  ℕ, ◌≤◌, ◌≡◌, sym, ap, ◌∙◌, Bool, true, not, Option, none, some, String, List, [], ◌∷◌, Bool-cases,
  inl, inr, if◌then◌else◌, if_true, if_false,
}
use fronta.Errors.{
  Result, ok, err, invalid_input, payload_too_large, task_not_found, ok-injective, ◌>>=◌, ◌>>◌,
}
use fronta.Model.{Executor, asyncio, process}
use fronta.Config.{Policy}
use fronta.Codec.Text.{Text, utf8_len}
use fronta.Codec.Check.{
  Value, Encoded, encoded, not_storable, not_json, over_cap, encode_capped, encode_capped-nesting,
  nesting,
}
use fronta.Store.Row.{Task}
use fronta.Store.Tables.{Db, get_task}
use fronta.Store.Control.{requeue, set_paused}
use fronta.Store.Enqueue.{check_name}
use fronta.Sandbox.Command.{Sandbox}
use fronta.Server.Service.{Hint, wakes, feeds}

-- `except codec.OverCap ... except (codec.Unstorable, TypeError)`
abbrev pub stored : Encoded → Result Text
stored (encoded t) = ok t
stored over_cap = err payload_too_large
stored not_storable = err invalid_input
stored not_json = err invalid_input

abbrev survives : (Text → Bool) → Text → Result Text
survives loads t = if loads t then ok t else err invalid_input

abbrev encode_dumped : (Value → Text) → (Text → Bool) → ℕ → Option Value → Result Text
encode_dumped dumps loads most none = err invalid_input
encode_dumped dumps loads most (some v) = stored (encode_capped dumps v most) >>= survives loads

-- `TaskDefinition.encode_input` of a validated input.
unfoldable pub encode_input :
    {Model : Type 0}
    → (Model → Option Value)
    → (Value → Text)
    → (Text → Bool)
    → ℕ
    → Model
    → Result Text
encode_input dump dumps loads most model = encode_dumped dumps loads most (dump model)

abbrev some_text : Result Text → Result (Option Text)
some_text (err e) = err e
some_text (ok t) = ok (some t)

unfoldable pub encode_metadata : (Value → Text) → Option Value → ℕ → Result (Option Text)
encode_metadata dumps none most = ok none
encode_metadata dumps (some v) most = some_text (stored (encode_capped dumps v most))

stored-encoded : (e : Encoded) (t : Text) → stored e ≡ ok t → e ≡ encoded t
stored-encoded (encoded u) t h = ap encoded (ok-injective h)
stored-encoded over_cap t h = absurd (cc h)
stored-encoded not_storable t h = absurd (cc h)
stored-encoded not_json t h = absurd (cc h)

survives_end :
    (loads : Text → Bool) (r : Result Text) (t : Text)
    → r >>= survives loads ≡ ok t
    → (r ≡ ok t) × (loads t ≡ true)
survives_end loads (err e) t h = absurd (cc h)
survives_end loads (ok u) t h = elim (Bool-cases (loads u)) [
  | inl e ↦
      let same = ok-injective (sym (if_true _ _ e) ∙ h) in (ap ok same, ap loads (sym same) ∙ e)
  | inr e ↦ absurd (cc (sym (if_false _ _ e) ∙ h))
]

-- An input that is accepted is the encoding of the dumped model, within the payload cap and at most 200 levels deep, and
-- a worker can load it.
pub encode_input-loadable :
    {Model : Type 0} (dump : Model → Option Value) (dumps : Value → Text) (loads : Text → Bool)
    (most : ℕ) (model : Model) (v : Value) (t : Text)
    → dump model ≡ some v
    → encode_input dump dumps loads most model ≡ ok t
    → (t ≡ dumps v) × (utf8_len t ≤ most) × (nesting v ≤ 200) × (loads t ≡ true)
unfolding encode_input
encode_input-loadable dump dumps loads most model v t d h =
    let (r, l) =
      survives_end loads (stored (encode_capped dumps v most)) t
        (ap (encode_dumped dumps loads most) (sym d) ∙ h) in
    let (same, fits, deep) =
      encode_capped-nesting dumps v most t (stored-encoded (encode_capped dumps v most) t r) in
    (same, fits, deep, l)

-- `TaskDefinition` and `ProcessTaskDefinition`; the models are parameters of their uses.
pub record Definition : Type 0 where
  pub name : String
  pub executor : Executor
  pub policy : Policy
  pub argv : List Text
  pub sandbox : Option Sandbox

-- `task(...)(handler)`
unfoldable pub task : String → Policy → Result Definition
task name policy = do
  check_name name
  ok (record { name = name; executor = asyncio; policy = policy; argv = []; sandbox = none })

-- `process_task`; `none` is the `ValueError` of an empty command.
unfoldable pub process_task : String → List Text → Policy → Sandbox → Option (Result Definition)
process_task name [] policy sandbox = none
process_task name (a ∷ argv) policy sandbox = some (do
  check_name name
  ok (record {
    name = name;
    executor = process;
    policy = policy;
    argv = a ∷ argv;
    sandbox = some sandbox;
  }))

-- The connection of `enqueue_with`: its own, or a supplied one, in autocommit outside of a transaction or not.
pub data Connection : Type 0 where
  own : Connection
  supplied : Bool → Connection

abbrev pub announces : Connection → Bool
announces own = true
announces (supplied idle) = idle

-- The end of `enqueue_with`, for the answer of `store.enqueue`.
unfoldable pub enqueue_with : Connection → String → Result ℕ → Result ℕ × List Hint
enqueue_with conn name (err e) = (err e, [])
enqueue_with conn name (ok id) =
    (ok id, if announces conn then wakes name ∷ feeds "queued" ∷ [] else [])

-- `definitions.get_task`
unfoldable pub find_task : ℕ → Db → Result Task
find_task id db = elim (get_task id db) [ none ↦ err task_not_found | some t ↦ ok t ]

abbrev after_pause : Bool → String → Result Db → Result Db × List Hint
after_pause paused name (err e) = (err e, [])
after_pause paused name (ok db) = (ok db, if not paused then wakes name ∷ [] else [])

-- `_pause`
unfoldable pub set_pause : String → Bool → Db → Result Db × List Hint
set_pause name paused db = after_pause paused name (set_paused name paused db)

abbrev after_requeue : Result (Db × String) → Result Db × List Hint
after_requeue (err e) = (err e, [])
after_requeue (ok (db, type)) = (ok db, wakes type ∷ feeds "queued" ∷ [])

-- `definitions.requeue`
unfoldable pub requeue_task : ℕ → ℕ → Db → Result Db × List Hint
requeue_task now id db = after_requeue (requeue now id db)
