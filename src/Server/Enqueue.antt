-- ===== src/Server/Enqueue.antt =====
-- `Service.enqueue` and `Service._validate` of src/fronta/server/service.py, up to the statement of store.py. The schema
-- of a type and its policy are JSON columns, and a validator is a parameter, as are json's `dumps` and its result as text.
use fronta.Prelude.{
  ℕ, ◌≤◌, Bool, true, Option, none, some, String, List, [], ◌∷◌, ◌++◌, arith, if◌then◌else◌, length,
  length-append, leb, text_eq, exists, drop, length-drop,
}
use fronta.Errors.{Result, ok, err, invalid_input, unknown_task_type, guard, ◌>>=◌, ◌>>◌}
use fronta.Codec.Text.{Text}
use fronta.Codec.Check.{Value, encode_capped}
use fronta.Config.{Policy}
use fronta.Definitions.{encode_metadata, stored}
use fronta.Store.Tables.{Db, TaskType, get_task_type}
use fronta.Store.Enqueue.{NewTask, DateTime, check_name, check_key, check_priority}
use fronta.Server.Service.{Hint, wakes, feeds}

abbrev pub validator_cache_size : ℕ
validator_cache_size = 128

-- `_validators`: the fingerprints of the compiled schemas, oldest first.
abbrev pub Validators : Type 0
Validators = List String

-- The lookup and the eviction of `_validate`.
unfoldable pub remember : String → Validators → Validators
remember fingerprint cache =
    if exists (text_eq fingerprint) cache
    then cache
    else (if leb validator_cache_size (length cache) then drop 1 cache else cache)
      ++ fingerprint ∷ []

-- A request, as the transports give it.
pub record Request : Type 0 where
  pub type : String
  pub input : Value
  pub priority : Option ℕ
  pub run_at : Option DateTime
  pub key : Option String
  pub concurrency_key : Option String
  pub metadata : Option Value

abbrev aware : Option DateTime → Bool
aware none = true
aware (some t) = t.aware

module _ (dumps : Value → Text) (plain : Text → String) (conforms : TaskType → Value → Bool)
    (policy_of : TaskType → Policy) where
  abbrev metadata_text : Option Text → Option String
  metadata_text none = none
  metadata_text (some t) = some (plain t)

  abbrev new_task : Request → Text → Option Text → Policy → NewTask
  new_task r encoded metadata policy = record {
    type = r.type;
    input_json = plain encoded;
    max_attempts = policy.max_attempts;
    attempt_timeout = policy.attempt_timeout;
    backoff = policy.backoff;
    priority = r.priority;
    run_at = r.run_at;
    key = r.key;
    concurrency_key = r.concurrency_key;
    metadata_json = metadata_text metadata;
  }

  -- The checks that need no connection: the encoded input and metadata.
  unfoldable pub check_request : ℕ → ℕ → Request → Result (Text × Option Text)
  check_request payload_cap progress_cap r = do
    check_name r.type
    check_key r.key
    check_key r.concurrency_key
    p ← check_priority r.priority
    guard (aware r.run_at) invalid_input
    encoded ← stored (encode_capped dumps r.input payload_cap)
    metadata ← encode_metadata dumps r.metadata progress_cap
    ok (encoded, metadata)

  abbrev with_type :
      Validators → Request → Text × Option Text → Option TaskType → Result NewTask × Validators
  with_type cache r texts none = (err unknown_task_type, cache)
  with_type cache r texts (some ty) = (
    if conforms ty r.input
        then ok (new_task r texts.0 texts.1 (policy_of ty))
        else err invalid_input,
    remember ty.fingerprint cache,
  )

  abbrev with_texts :
      Validators → Request → Db → Result (Text × Option Text) → Result NewTask × Validators
  with_texts cache r db (err e) = (err e, cache)
  with_texts cache r db (ok texts) = with_type cache r texts (get_task_type r.type db)

  -- `Service.enqueue` up to `store.enqueue`: the task that it asks for, and the validators behind it.
  unfoldable pub prepare : ℕ → ℕ → Request → Validators → Db → Result NewTask × Validators
  unfolding check_request remember
  prepare payload_cap progress_cap r cache db =
      with_texts cache r db (check_request payload_cap progress_cap r)

  remember-bounded :
      (fingerprint : String) (cache : Validators)
      → length cache ≤ 128
      → length (remember fingerprint cache) ≤ 128
  unfolding remember
  remember-bounded fingerprint cache h =
      let kept = if leb validator_cache_size (length cache) then drop 1 cache else cache in
      let room : length kept ≤ 127 = ground (arith, length-drop 1 cache, h) in
      ground (arith, h, room, length-append kept (fingerprint ∷ []))

  with_type-bounded :
      (cache : Validators) (r : Request) (texts : Text × Option Text) (o : Option TaskType)
      → length cache ≤ 128
      → length (with_type cache r texts o).1 ≤ 128
  with_type-bounded cache r texts none h = h
  with_type-bounded cache r texts (some ty) h = remember-bounded ty.fingerprint cache h

  with_texts-bounded :
      (cache : Validators) (r : Request) (db : Db) (e : Result (Text × Option Text))
      → length cache ≤ 128
      → length (with_texts cache r db e).1 ≤ 128
  with_texts-bounded cache r db (err e) h = h
  with_texts-bounded cache r db (ok texts) h =
      with_type-bounded cache r texts (get_task_type r.type db) h

  -- However many types and definitions the requests name, the service keeps at most 128 validators.
  pub prepare-bounded :
      (payload_cap progress_cap : ℕ) (r : Request) (cache : Validators) (db : Db)
      → length cache ≤ 128
      → length (prepare payload_cap progress_cap r cache db).1 ≤ 128
  unfolding prepare
  prepare-bounded payload_cap progress_cap r cache db h =
      with_texts-bounded cache r db (check_request payload_cap progress_cap r) h

-- The end of `Service.enqueue`, for the answer of `store.enqueue`.
unfoldable pub announce : String → Result ℕ → Result ℕ × List Hint
announce type (err e) = (err e, [])
announce type (ok id) = (ok id, wakes type ∷ feeds "queued" ∷ [])
