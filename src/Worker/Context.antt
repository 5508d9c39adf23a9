-- ===== src/Worker/Context.antt =====
-- `TaskContext` of src/fronta/worker.py: what a handler asks of its worker.
use fronta.Prelude.{
  ℕ, ◌≡◌, ap, ◌∙◌, Bool, false, String, List, text_eq, exists, if◌then◌else◌, if_false,
}
use fronta.Errors.{Error, Result, ok, err, progress_too_large}
use fronta.Codec.Text.{Text}
use fronta.Codec.Check.{Value, Encoded, encoded, not_storable, not_json, over_cap, encode_capped}
use fronta.Store.Tables.{Db}
use fronta.Store.Attempts.{set_progress}
use fronta.Worker.Attempt.{Attempt, lost, stop}

-- How a call of `progress` ends: it returns, or raises `ProgressTooLarge`, or what the codec raises.
pub data ProgressEnd : Type 0 where
  returns : ProgressEnd
  raises : Error → ProgressEnd
  unstorable type_error : ProgressEnd

abbrev pub after_progress : Attempt → Db × Bool → Db × Attempt × ProgressEnd
after_progress a r = (r.0, if r.1 then a else stop a lost, returns)

abbrev pub progress_encoded : (Text → String) → Attempt → Db → Encoded → Db × Attempt × ProgressEnd
progress_encoded plain a db (encoded t) = after_progress a (set_progress a.id a.token (plain t) db)
progress_encoded plain a db over_cap = (db, a, raises progress_too_large)
progress_encoded plain a db not_storable = (db, a, unstorable)
progress_encoded plain a db not_json = (db, a, type_error)

-- `TaskContext.progress`; `plain` is the encoded text as the database has it.
unfoldable pub progress :
    (Value → Text) → (Text → String) → ℕ → Value → Attempt → Db → Db × Attempt × ProgressEnd
progress dumps plain progress_cap value a db =
    progress_encoded plain a db (encode_capped dumps value progress_cap)

-- `TaskContext.enqueue` behind `enqueue_with`: whether it wakes its own worker.
unfoldable pub wakes_own : List String → String → Result ℕ → Bool
wakes_own definitions type (err e) = false
wakes_own definitions type (ok id) = exists (text_eq type) definitions

-- A progress report that its fence refuses stops the attempt as lost.
pub progress-lost :
    (dumps : Value → Text) (plain : Text → String) (progress_cap : ℕ) (value : Value) (a : Attempt)
    (db : Db) (t : Text)
    → encode_capped dumps value progress_cap ≡ encoded t
    → (set_progress a.id a.token (plain t) db).1 ≡ false
    → (progress dumps plain progress_cap value a db).1 ≡ stop a lost
unfolding progress
progress-lost dumps plain progress_cap value a db t e h =
    ap (λ z. (progress_encoded plain a db z).1) e ∙ if_false _ _ h
