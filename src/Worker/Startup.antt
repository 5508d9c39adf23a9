-- ===== src/Worker/Startup.antt =====
-- `Worker._start_checks` and `Worker._write_completions` of src/fronta/worker.py, and `Sandbox.identity` of
-- src/fronta/model.py.
use fronta.Prelude.{
  ℕ, ◌≡◌, refl, sym, ap, ◌∙◌, Bool, true, false, ◌&&◌, ◌||◌, Option, none, some, String, List, [],
  ◌∷◌, arith, ltb, ◌==◌, exists, every, if◌then◌else◌, Bool-cases, inl, inr, if_true, if_false,
}
use fronta.Errors.{Error, Result, ok, err, is_ok, ok-injective, ◌>>=◌}
use fronta.Model.{State, queued, same_state}
use fronta.Codec.Text.{Text}
use fronta.Sandbox.Identity.{same_text}
use fronta.Sandbox.Command.{Sandbox, Dict}
use fronta.Store.Tables.{Db}
use fronta.Store.Types.{TaskTypeSpec, publish_task_type}

-- The publications of one transaction.
unfoldable pub publish_all : ℕ → List TaskTypeSpec → Db → Result Db
unfolding publish_task_type
publish_all now [] db = ok db
publish_all now (s ∷ ss) db = publish_task_type now s db >>= λ r. publish_all now ss r.0

abbrev committed : Db → Result Db → Db × Result (Unit {0})
committed db (err e) = (db, err e)
committed db (ok later) = (later, ok tt)

-- The transaction: its tables if it commits, and otherwise those before it.
unfoldable pub publish_definitions : ℕ → List TaskTypeSpec → Db → Db × Result (Unit {0})
unfolding publish_all
publish_definitions now specs db = committed db (publish_all now specs db)

-- Python's order of texts, and of the items of `sorted(self.env.items())`; names of a dict differ.
abbrev pub text_le : Text → Text → Bool
text_le [] ds = true
text_le (c ∷ cs) [] = false
text_le (c ∷ cs) (d ∷ ds) = let rest = text_le cs ds in ltb c d || (c == d && rest)

abbrev put_item : Text × Text → Dict → Dict
put_item i [] = i ∷ []
put_item i (j ∷ js) = let rest = put_item i js in if text_le i.0 j.0 then i ∷ j ∷ js else j ∷ rest

abbrev sorted : Dict → Dict
sorted [] = []
sorted (i ∷ is) = put_item i (sorted is)

abbrev same_texts : List Text → List Text → Bool
same_texts [] [] = true
same_texts (t ∷ ts) (u ∷ us) = let rest = same_texts ts us in same_text t u && rest
same_texts _ _ = false

abbrev same_items : Dict → Dict → Bool
same_items [] [] = true
same_items (i ∷ is) (j ∷ js) =
    let rest = same_items is js in same_text i.0 j.0 && same_text i.1 j.1 && rest
same_items _ _ = false

abbrev same_number : Option ℕ → Option ℕ → Bool
same_number none none = true
same_number (some n) (some m) = n == m
same_number _ _ = false

-- `a.identity() == b.identity()`: everything but the output limit.
unfoldable pub same_identity : Sandbox → Sandbox → Bool
same_identity a b =
    same_texts a.ro_binds b.ro_binds
    && same_items (sorted a.env) (sorted b.env)
    && same_number a.cpu_time b.cpu_time
    && same_number a.memory_bytes b.memory_bytes
    && same_number a.max_pids b.max_pids
    && a.tmpfs_bytes == b.tmpfs_bytes

-- The probes of the process definitions, in order; `probed` is newest first, and an error ends the start.
unfoldable pub probe_all :
    (Sandbox → Result (Unit {0})) → List Sandbox → List Sandbox → Result (List Sandbox)
probe_all probe [] probed = ok probed
probe_all probe (s ∷ ss) probed =
    let known = probe_all probe ss probed in
    let fresh = probe s >>= λ _. probe_all probe ss (s ∷ probed) in
    if exists (same_identity s) probed then known else fresh

-- `_write_completions`: the hints for what the batch has applied.
abbrev type_in : List (ℕ × String) → ℕ → Option String
type_in [] id = none
type_in (a ∷ as') id = if a.0 == id then some a.1 else type_in as' id

abbrev add_type : Option String → List String → List String
add_type none types = types
add_type (some t) types = t ∷ types

-- The types of the attempts that the batch has put back in the queue.
unfoldable pub woken : List (ℕ × String) → List (ℕ × State) → List String
woken attempts [] = []
woken attempts ((id, state) ∷ applied) =
    let rest = woken attempts applied in
    if same_state state queued then add_type (type_in attempts id) rest else rest

-- A start that fails to publish a definition has published none.
pub publish_definitions-refused :
    (now : ℕ) (specs : List TaskTypeSpec) (db : Db) (e : Error)
    → publish_all now specs db ≡ err e
    → publish_definitions now specs db ≡ (db, err e)
unfolding publish_definitions
publish_definitions-refused now specs db e h = ap (committed db) h

probed_new :
    (probe : Sandbox → Result (Unit {0})) (s : Sandbox) (r : Result (Unit {0}))
    (next : Result (List Sandbox)) (done : List Sandbox)
    → r >>= (λ _. next) ≡ ok done
    → (r ≡ ok tt) × (next ≡ ok done)
probed_new probe s (err e) next done h = absurd (cc h)
probed_new probe s (ok u) next done h = (refl, h)

-- Behind a start that succeeds, each sandbox that was probed has passed its probe.
pub probe_all-passed :
    (probe : Sandbox → Result (Unit {0})) (ss probed done : List Sandbox)
    → every (λ s. is_ok (probe s)) probed ≡ true
    → probe_all probe ss probed ≡ ok done
    → every (λ s. is_ok (probe s)) done ≡ true
unfolding probe_all
probe_all-passed probe [] probed done h k =
    ap (every (λ s. is_ok (probe s))) (sym (ok-injective k)) ∙ h
probe_all-passed probe (s ∷ ss) probed done h k =
    elim (Bool-cases (exists (same_identity s) probed)) [
      | inl e ↦ probe_all-passed probe ss probed done h (sym (if_true _ _ e) ∙ k)
      | inr e ↦
          let next =
            probed_new probe s (probe s) (probe_all probe ss (s ∷ probed)) done
              (sym (if_false _ _ e) ∙ k) in
          probe_all-passed probe ss (s ∷ probed) done (ground (arith, ap is_ok next.0, h)) next.1
    ]
