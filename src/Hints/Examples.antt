-- ===== src/Hints/Examples.antt =====
-- Tests of the hints, and their theorems at concrete steps.
use fronta.Prelude.{◌≡◌, refl, true, false, none, List, [], ◌∷◌, arith}
use fronta.Model.{failed}
use fronta.Hints.{Sets, cancels, Hints, Step, adds, begins, delivers, closes, no_hints, run}
use fronta.Hints.Delivery.{is_known, run-keeps_hint, IsAwake, run-IsAwake}

abbrev fresh : Hints
fresh = record {
  pending = no_hints;
  in_flight = none;
  sent = [];
  ready = false;
  closing = false;
  ended = true;
  delay = 1;
}

abbrev two : Sets
two = record { wake = []; cancel = 4 ∷ []; feed = failed ∷ [] }

-- A delivery fails while another hint arrives.
abbrev steps : List Step
steps =
    adds two
    ∷ begins
    ∷ adds (record two { cancel = 5 ∷ [] })
    ∷ delivers false
    ∷ begins
    ∷ closes
    ∷ []

run-keeps_hint_example : is_known (cancels 4) (run steps fresh) ≡ true
run-keeps_hint_example = run-keeps_hint (cancels 4) steps fresh refl refl

run-IsAwake_example : IsAwake (run steps fresh)
run-IsAwake_example = run-IsAwake steps fresh (record {
  wakeful = λ h. absurd (cc h);
  alive = λ h. absurd (cc h);
  flying = λ h. absurd (cc h);
  bounded = omega arith;
})
