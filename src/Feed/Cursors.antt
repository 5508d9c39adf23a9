-- ===== src/Feed/Cursors.antt =====
-- The pending states of a backfill marker of src/fronta/feed.py, with the cursor of each.
use fronta.Prelude.{
  ℕ, ◌≡◌, refl, sym, ap, subst, ◌∙◌, Bool, true, false, Option, none, some, List, [], ◌∷◌, arith,
  Bool-cases, ltb, is_some, if◌then◌else◌, if_true, if_false, inl, inr,
}
use fronta.Model.{State, queued, running, succeeded, failed, cancelled, same_state}
use fronta.Store.Tables.{Backfill}
use fronta.Feed.{rank, least, advance, with_pending}

abbrev pub cursor : State → List (State × ℕ) → Option ℕ
cursor state [] = none
cursor state (p ∷ rest) =
    let later = cursor state rest in if same_state p.0 state then some p.1 else later

abbrev pub pending_of : Option Backfill → List (State × ℕ)
pending_of none = []
pending_of (some m) = m.pending

same_state_refl : (u : State) → same_state u u ≡ true
same_state_refl queued = refl
same_state_refl running = refl
same_state_refl succeeded = refl
same_state_refl failed = refl
same_state_refl cancelled = refl

same_state-eq : (a b : State) → same_state a b ≡ true → a ≡ b
same_state-eq queued b h = ground arith
same_state-eq running b h = ground arith
same_state-eq succeeded b h = ground arith
same_state-eq failed b h = ground arith
same_state-eq cancelled b h = ground arith

same_state_other :
    (a b u : State) → same_state a b ≡ true → same_state b u ≡ false → same_state a u ≡ false
same_state_other a b u h k = ap (λ z. same_state z u) (same_state-eq a b h) ∙ k

module _ (u : State) where
  pub cursor_end : (id : ℕ) (ps : List (State × ℕ)) → cursor u (advance true u id ps) ≡ none
  cursor_end id [] = refl
  cursor_end id (p ∷ ps) = ground (arith, cursor_end id ps)

  pub cursor_next :
      (id : ℕ) (ps : List (State × ℕ))
      → is_some (cursor u ps) ≡ true
      → cursor u (advance false u id ps) ≡ some id
  cursor_next id [] h = absurd (cc h)
  cursor_next id (p ∷ ps) h = ground (arith, cursor_next id ps, same_state_refl u)

  -- The cursors of the other states stay.
  pub cursor_other :
      (state : State) (finished : Bool) (id : ℕ) (ps : List (State × ℕ))
      → same_state state u ≡ false
      → cursor u (advance finished state id ps) ≡ cursor u ps
  cursor_other state finished id [] h = refl
  cursor_other state finished id (p ∷ ps) h = elim (Bool-cases (same_state p.0 state)) [
    | inl e ↦
        let other : same_state p.0 u ≡ false = same_state_other p.0 state u e h in
        ground (arith, cursor_other state finished id ps h, e, other, h)
    | inr e ↦ ground (arith, cursor_other state finished id ps h, e)
  ]

  cursor-cons :
      (p : State × ℕ) (ps : List (State × ℕ))
      → is_some (cursor u ps) ≡ true
      → is_some (cursor u (p ∷ ps)) ≡ true
  cursor-cons p ps h = elim (Bool-cases (same_state p.0 u)) [
    | inl e ↦ ap is_some (if_true _ _ e)
    | inr e ↦ ap is_some (if_false _ _ e) ∙ h
  ]

  cursor-more :
      (p q : State × ℕ) (ps : List (State × ℕ))
      → is_some (cursor u (p ∷ ps)) ≡ true
      → is_some (cursor u (p ∷ q ∷ ps)) ≡ true
  cursor-more p q ps h = elim (Bool-cases (same_state p.0 u)) [
    | inl e ↦ ap is_some (if_true _ _ e)
    | inr e ↦
        ap is_some (if_false _ _ e)
        ∙ cursor-cons q ps (ap is_some (sym (if_false (some p.1) (cursor u ps) e)) ∙ h)
  ]

-- The chosen state is one of the pending ones.
pub cursor-least :
    (p : State × ℕ) (ps : List (State × ℕ)) → is_some (cursor (least p ps).0 (p ∷ ps)) ≡ true
cursor-least p [] = ap is_some (if_true (some p.1) none (same_state_refl p.0))
cursor-least p (q ∷ ps) = elim (Bool-cases (ltb (rank q.0) (rank p.0))) [
  | inl e ↦
      subst (λ (z : State × ℕ). is_some (cursor z.0 (p ∷ q ∷ ps)) ≡ true) (sym (if_true _ _ e))
        (cursor-cons (least q ps).0 p (q ∷ ps) (cursor-least q ps))
  | inr e ↦
      subst (λ (z : State × ℕ). is_some (cursor z.0 (p ∷ q ∷ ps)) ≡ true) (sym (if_false _ _ e))
        (cursor-more (least p ps).0 p q ps (cursor-least p ps))
]

pub pending-with : (m : Backfill) (ps : List (State × ℕ)) → pending_of (with_pending m ps) ≡ ps
pending-with m [] = refl
pending-with m (p ∷ ps) = refl
