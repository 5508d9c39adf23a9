-- ===== src/Sandbox/Scavenger/Orphans.antt =====
-- The sweep of src/fronta/sandbox.py kills the processes of workers that are judged dead, and no others.
use fronta.Prelude.{◌≡◌, Bool, true, false, Option, ◌∷◌, if◌then◌else◌}
use fronta.Codec.Text.{Text}
use fronta.Sandbox.Scavenger.{Process, Sweep, member, is_false, is_orphan}

module _ (name : Text) (alive : Text → Option Bool) where
  -- A worker whose processes the sweep kills.
  abbrev lost : Text → Bool
  lost owner = is_false (alive owner)

  record IsSorted (s : Sweep) : Type 0 where
    dead : (o : Text) → member o s.dead ≡ true → lost o ≡ true
    living : (o : Text) → member o s.alive ≡ true → lost o ≡ false

  record IsSwept (p : Process) (o : Option Text) (s s' : Sweep) : Type 0 where
    sorted : IsSorted s'
    killed : s'.killed ≡ (if is_orphan name alive p o then p.pid ∷ s.killed else s.killed)
