-- ===== src/Sandbox/Output.antt =====
-- The outputs of `SandboxProcess.run` of src/fronta/sandbox.py: the two drains, in any interleaving of their
-- reads, the exit code and `ProcessResult`. The decoding of bytes and of a status line are libraries.
pub mod Exact
use fronta.Prelude.{
  ℕ, zero, suc, ◌+◌, ◌-◌, ◌≤◌, ◌≡◌, refl, sym, ap, subst, ◌∙◌, Bool, true, false, not, ◌&&◌, ◌||◌,
  Option, none, some, List, [], ◌∷◌, ◌++◌, arith, Bool-cases, inl, inr, ltb, length, take,
  length-append, length-take, if◌then◌else◌, if_true, if_false, min,
}
use fronta.Codec.Text.{Text, replace_nul}

abbrev pub Bytes : Type 0
Bytes = List ℕ

pub data Stream : Type 0 where
  stdout stderr : Stream

-- One `stream.read(65536)` that has returned; an empty chunk is the end of its stream.
pub record Read : Type 0 where
  pub stream : Stream
  pub chunk : Bytes

pub record Kept : Type 0 where
  pub out : Bytes
  pub err : Bytes
  pub truncated : Bool

-- The body of the loop of `drain`: what it keeps, and whether it drops something.
unfoldable pub keep_chunk : ℕ → Bytes → Bytes → Bytes × Bool
keep_chunk most kept chunk =
    let room = most - length kept in
    (if ltb 0 room then kept ++ take room chunk else kept, ltb room (length chunk))

abbrev pub drain_read : ℕ → Read → Kept → Kept
drain_read most r k = elim r.stream [
  | stdout ↦
      let done = keep_chunk most k.out r.chunk in
      record k { out = done.0; truncated = k.truncated || done.1 }
  | stderr ↦
      let done = keep_chunk most k.err r.chunk in
      record k { err = done.0; truncated = k.truncated || done.1 }
]

-- `gather(drain(stdout), drain(stderr))`
unfoldable pub drain_all : ℕ → List Read → Kept → Kept
unfolding keep_chunk
drain_all most [] k = k
drain_all most (r ∷ rs) k = drain_all most rs (drain_read most r k)

abbrev pub nothing_kept : Kept
nothing_kept = record { out = []; err = []; truncated = false }

abbrev pub same_stream : Stream → Stream → Bool
same_stream stdout stdout = true
same_stream stderr stderr = true
same_stream _ _ = false

-- All that a stream delivers.
abbrev pub delivered : Stream → List Read → Bytes
delivered s [] = []
delivered s (r ∷ rs) =
    let rest = delivered s rs in if same_stream s r.stream then r.chunk ++ rest else rest

-- A process's exit code: Python gives a signal as a negative number.
pub data Code : Type 0 where
  exited signalled : ℕ → Code

-- The last status line that names an exit code decides; `parse` is `json.loads(line).get("exit-code")`.
unfoldable pub last_exit_code : (Bytes → Option Code) → List Bytes → Code → Code
last_exit_code parse [] code = code
last_exit_code parse (line ∷ lines) code =
    last_exit_code parse lines (elim (parse line) [ none ↦ code | some n ↦ n ])

pub record ProcessResult : Type 0 where
  pub exit_code : Code
  pub stdout : Text
  pub stderr : Text
  pub truncated : Bool

-- `_text`; `decode` is `bytes.decode("utf-8", errors="replace")`.
unfoldable pub text : (Bytes → Text) → Bytes → Text
text decode data' = replace_nul (decode data')

unfoldable pub run_result :
    (Bytes → Text)
    → (Bytes → Option Code)
    → ℕ
    → List Read
    → List Bytes
    → Option Code
    → ProcessResult
unfolding drain_all text
run_result decode parse most reads status returncode =
    let k = drain_all most reads nothing_kept in
    record {
      exit_code = last_exit_code parse status (elim returncode [ none ↦ signalled 1 | some c ↦ c ]);
      stdout = text decode k.out;
      stderr = text decode k.err;
      truncated = k.truncated;
    }
