-- ===== src/Feed/Acks.antt =====
-- What an acknowledgement deletes.
use fronta.Prelude.{
  ℕ, zero, suc, ◌<◌, ◌≡◌, refl, ap, ◌∙◌, Bool, true, false, not, none, some, String, List, [], ◌∷◌,
  map, keep, take, drop, ◌==◌, text_eq, arith, if_true, if_false, sym, subst, Bool-cases, inl, inr,
}
use fronta.Store.Tables.{Event, Db}
use fronta.Store.Tables.Sound.{Rising}
use fronta.Feed.Consumer.{Batch, task_event, is_acked, seqs_of, ack}

abbrev pub is_mine : String → Event → Bool
is_mine name e = text_eq e.subscription name

abbrev pub is_kept : String → List ℕ → Event → Bool
is_kept name seqs e = not (is_acked name seqs e)

keep_others :
    (name : String) (seqs : List ℕ) (es : List Event)
    → keep (λ e. not (is_mine name e)) (keep (is_kept name seqs) es)
      ≡ keep (λ e. not (is_mine name e)) es
keep_others name seqs [] = refl
keep_others name seqs (e ∷ es) = ground (arith, keep_others name seqs es)

keep_older :
    (name : String) (i low high : ℕ) (seqs : List ℕ) (es : List Event)
    → i < low
    → Rising low es high
    → keep (is_kept name (i ∷ seqs)) es ≡ keep (is_kept name seqs) es
keep_older name i low high seqs [] b r = refl
keep_older name i low high seqs (e ∷ es) b r =
    let rest = keep_older name i (suc e.seq) high seqs es (omega (arith, b, r.0)) r.1 in
    let apart : (i == e.seq) ≡ false = ground (arith, b, r.0) in ground (arith, rest, apart)

-- The events of a subscription that `n` deliveries cover.
abbrev first_seqs : String → ℕ → List Event → List ℕ
first_seqs name n es = seqs_of (map task_event (take n (keep (is_mine name) es)))

unacked :
    (name : String) (seqs : List ℕ) (e : Event)
    → is_mine name e ≡ false
    → is_kept name seqs e ≡ true
unacked name seqs e h = ground arith

acked :
    (name : String) (seqs : List ℕ) (e : Event)
    → is_mine name e ≡ true
    → is_kept name (e.seq ∷ seqs) e ≡ false
acked name seqs e h = ground arith

keep_all_of_none : (name : String) (e : Event) → is_kept name [] e ≡ true
keep_all_of_none name e = ground arith

-- The statement of `keep_mine` for the events behind the first, for each number of deliveries.
abbrev Rest : String → List Event → Type 0
Rest name es =
    (m : ℕ)
    → keep (is_mine name) (keep (is_kept name (first_seqs name m es)) es)
      ≡ drop m (keep (is_mine name) es)

keep_first :
    (name : String) (n low high : ℕ) (e : Event) (es : List Event)
    → Rising low (e ∷ es) high
    → is_mine name e ≡ true
    → Rest name es
    → keep (is_mine name) (
        keep
          (is_kept name (seqs_of (map task_event (take n (e ∷ keep (is_mine name) es)))))
          (e ∷ es))
      ≡ drop n (e ∷ keep (is_mine name) es)
keep_first name zero low high e es r mine ih =
    rw (keep_all_of_none name e, mine) (ap (λ z. e ∷ z) (ih 0))
keep_first name (suc n) low high e es r mine ih =
    let gone = acked name (first_seqs name n es) e mine in
    let older =
      keep_older name e.seq (suc e.seq) high (first_seqs name n es) es (omega arith) r.1 in
    rw (gone, older) (ih n)

keep_next :
    (name : String) (seqs : List ℕ) (e : Event) (es : List Event)
    → is_mine name e ≡ false
    → keep (is_mine name) (keep (is_kept name seqs) (e ∷ es))
      ≡ keep (is_mine name) (keep (is_kept name seqs) es)
keep_next name seqs e es other = rw (other, other) refl

keep_mine :
    (name : String) (n low high : ℕ) (es : List Event)
    → Rising low es high
    → keep (is_mine name) (keep (is_kept name (first_seqs name n es)) es)
      ≡ drop n (keep (is_mine name) es)
keep_mine name zero low high [] r = refl
keep_mine name (suc n) low high [] r = refl
keep_mine name n low high (e ∷ es) r =
    let ih : Rest name es = λ m. keep_mine name m (suc e.seq) high es r.1 in
    elim (Bool-cases (is_mine name e)) [
      | inr other ↦
          let head : keep (is_mine name) (e ∷ es) ≡ keep (is_mine name) es = if_false _ _ other in
          subst
            (λ z.
              keep (is_mine name)
                (keep (is_kept name (seqs_of (map task_event (take n z)))) (e ∷ es))
              ≡ drop n z)
            (sym head) (keep_next name (first_seqs name n es) e es other ∙ ih n)
      | inl mine ↦
          let head : keep (is_mine name) (e ∷ es) ≡ e ∷ keep (is_mine name) es = if_true _ _ mine in
          subst
            (λ z.
              keep (is_mine name)
                (keep (is_kept name (seqs_of (map task_event (take n z)))) (e ∷ es))
              ≡ drop n z)
            (sym head) (keep_first name n low high e es r mine ih)
    ]

-- A delivery of the first `n` events of a subscription and its acknowledgement remove exactly those: the
-- other events of the subscription are the next in line, the events of other subscriptions stay, and a
-- second acknowledgement is refused.
pub ack-exact :
    (name : String) (n low high : ℕ) (db : Db)
    → Rising low db.events high
    → let b : Batch = record {
      name = name;
      events = map task_event (take n (keep (is_mine name) db.events));
      active = true;
    } in
      (b' : Batch) × (db' : Db) × (ack b db ≡ some (b', db'))
      × (keep (is_mine name) db'.events ≡ drop n (keep (is_mine name) db.events))
      × (keep (λ e. not (is_mine name e)) db'.events ≡ keep (λ e. not (is_mine name e)) db.events)
      × (ack b' db' ≡ none)
unfolding ack
ack-exact name n low high db r = (
  _,
  _,
  refl,
  keep_mine name n low high db.events r,
  keep_others name (first_seqs name n db.events) db.events,
  refl,
)
