-- ===== src/Store/Attempts/Effects.antt =====
-- The fenced statements revive no row and keep every row valid.
use fronta.Prelude.{
  ℕ, ◌≡◌, refl, true, Option, some, String, List, [], ◌∷◌, arith, Bool-cases, Option-cases, inl,
  inr,
}
use fronta.Model.{queued, same_state}
use fronta.Model.{CompletionKind, Completion}
use fronta.Store.Row.{Task, settle, settles, admit, renew, store_progress, fenced}
use fronta.Store.Row.Valid.{settle-IsValid, admit-IsValid, renew-IsValid, store_progress-IsValid}
use fronta.Store.Tables.Sound.{Effect, Keeps}
use fronta.Store.Attempts.{
  Chosen, admitted, renews, renewed, progressed, token_for, outcome_for, settled,
}

settle-Effect :
    (now draw token : ℕ) (kind : CompletionKind) (body : Option String) (t : Task)
    → settles token kind t ≡ true
    → Effect t (settle now draw kind body t)
settle-Effect now draw token kind body t h = record {
  id = unfold settle in refl;
  type = unfold settle in refl;
  key = unfold settle in refl;
  active = unfold settles in λ _. ground arith;
  valid = settle-IsValid now draw token kind body t h;
}

admit-Effect :
    (now until token : ℕ) (worker : String) (t : Task)
    → same_state t.state queued ≡ true
    → Effect t (admit now until token worker t)
admit-Effect now until token worker t h = record {
  id = unfold admit in refl;
  type = unfold admit in refl;
  key = unfold admit in refl;
  active = unfold admit in λ _. ground arith;
  valid = admit-IsValid now until token worker t h;
}

renew-Effect : (until token : ℕ) (t : Task) → fenced token t ≡ true → Effect t (renew until t)
renew-Effect until token t h = record {
  id = unfold renew in refl;
  type = unfold renew in refl;
  key = unfold renew in refl;
  active = unfold renew in λ a. a;
  valid = renew-IsValid until token t h;
}

store_progress-Effect : (text : String) (t : Task) → Effect t (store_progress text t)
store_progress-Effect text t = record {
  id = unfold store_progress in refl;
  type = unfold store_progress in refl;
  key = unfold store_progress in refl;
  active = unfold store_progress in λ a. a;
  valid = store_progress-IsValid text t;
}

-- The outcome that a row is joined with passes the preconditions.
pub outcome_for-settles :
    (cs : List Completion) (t : Task) (c : Completion)
    → outcome_for cs t ≡ some c
    → (c.id ≡ t.id) × (settles c.token c.kind t ≡ true)
outcome_for-settles [] t c h = cc
outcome_for-settles (d ∷ cs) t c h = ground (arith, outcome_for-settles cs t c)

pub settled-Keeps : (now : ℕ) (draw : ℕ → ℕ) (cs : List Completion) → Keeps (settled now draw cs)
unfolding settled
settled-Keeps now draw cs t u h = elim (Option-cases (outcome_for cs t)) [
  | inl e ↦ absurd (cc (rw (e, settled) at h))
  | inr (c, e) ↦
      let eq : settle now (draw t.id) c.kind c.body t ≡ u = ground arith in
      rw (← eq)
        (settle-Effect now (draw t.id) c.token c.kind c.body t (outcome_for-settles cs t c e).1)
]

pub admitted-Keeps :
    (now until : ℕ) (worker : String) (chosen : Chosen) → Keeps (admitted now until worker chosen)
unfolding admitted
admitted-Keeps now until worker chosen t u h = elim (Option-cases (token_for chosen t.id)) [
  | inl e ↦ absurd (ground arith)
  | inr (token, e) ↦
      let eq : (admit now until token worker t ≡ u) × (same_state t.state queued ≡ true) =
        ground arith in
      rw (← eq.0) (admit-Effect now until token worker t eq.1)
]

renews-fenced :
    (renewals : List (ℕ × ℕ)) (t : Task)
    → renews renewals t ≡ true
    → (token : ℕ) × (fenced token t ≡ true)
renews-fenced [] t h = absurd (cc h)
renews-fenced ((id, token) ∷ rest) t h = elim (Bool-cases (fenced token t)) [
  | inl e ↦ (token, e)
  | inr e ↦ renews-fenced rest t (ground arith)
]

pub renewed-Keeps : (until : ℕ) (renewals : List (ℕ × ℕ)) → Keeps (renewed until renewals)
unfolding renewed
renewed-Keeps until renewals t u h =
    let eq : (renew until t ≡ u) × (renews renewals t ≡ true) = ground arith in
    let (token, f) = renews-fenced renewals t eq.1 in rw (← eq.0) (renew-Effect until token t f)

pub progressed-Keeps : (id token : ℕ) (text : String) → Keeps (progressed id token text)
unfolding progressed
progressed-Keeps id token text t u h =
    let eq : store_progress text t ≡ u = ground arith in rw (← eq) (store_progress-Effect text t)
