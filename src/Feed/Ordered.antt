-- ===== src/Feed/Ordered.antt =====
-- Rows in the order of their ids, for the chunks of src/fronta/feed.py.
use fronta.Prelude.{
  ℕ, zero, suc, ◌≤◌, ◌<◌, ◌≡◌, refl, sym, ap, subst, ◌∙◌, Bool, true, false, ◌&&◌, List, [], ◌∷◌,
  length, take, drop, arith, Bool-cases, ltb, leb, keep, if◌then◌else◌, if_true, if_false, inl, inr,
}
use fronta.Store.Row.{Task}
use fronta.Store.Control.{order_by, insert_by}
use fronta.Store.Tables.Sound.{Below}
use fronta.Feed.{last_id}

abbrev pub by_id : Task → ℕ
by_id t = t.id

-- Ids that rise from `lo` and stay under `hi`.
abbrev pub Within : ℕ → ℕ → List Task → Type 0
Within lo hi [] = Unit {0}
Within lo hi (t ∷ ts) = (lo ≤ t.id) × (t.id < hi) × Within (suc t.id) hi ts

Within-weaken : (lo hi hi' : ℕ) (ts : List Task) → hi ≤ hi' → Within lo hi ts → Within lo hi' ts
Within-weaken lo hi hi' [] h w = tt
Within-weaken lo hi hi' (t ∷ ts) h w =
    (w.0, omega (arith, w.1, h), Within-weaken (suc t.id) hi hi' ts h w.2)

Below-weaken : (n m : ℕ) (ts : List Task) → n ≤ m → Below n ts → Below m ts
Below-weaken n m [] h b = b
Below-weaken n m (t ∷ ts) h b = (omega (arith, b.0, h), b.1)

-- A row with a larger id than the others goes behind them.
insert_behind :
    (t y : Task) (ys : List Task)
    → y.id < t.id
    → insert_by by_id t (y ∷ ys) ≡ y ∷ insert_by by_id t ys
insert_behind t y ys h = let other : leb t.id y.id ≡ false = ground arith in if_false _ _ other

insert-Within :
    (lo : ℕ) (t : Task) (ys : List Task)
    → lo ≤ t.id
    → Within lo t.id ys
    → Within lo (suc t.id) (insert_by by_id t ys)
insert-Within lo t [] h w = (h, omega arith, tt)
insert-Within lo t (y ∷ ys) h w =
    subst (Within lo (suc t.id)) (sym (insert_behind t y ys w.1))
      (w.0, omega (arith, w.1), insert-Within (suc y.id) t ys w.1 w.2)

pub order-Within :
    (p : Task → Bool) (lo n : ℕ) (ts : List Task)
    → ((t : Task) → p t ≡ true → lo ≤ t.id)
    → Below n ts
    → Within lo n (order_by by_id (keep p ts))
unfolding order_by
order-Within p lo n [] h b = tt
order-Within p lo n (t ∷ ts) h b = elim (Bool-cases (p t)) [
  | inl e ↦
      subst (λ z. Within lo n (order_by by_id z)) (sym (if_true _ _ e))
        (Within-weaken lo (suc t.id) n _ b.0
          (insert-Within lo t _ (h t e) (order-Within p lo t.id ts h b.1)))
  | inr e ↦
      subst (λ z. Within lo n (order_by by_id z)) (sym (if_false _ _ e))
        (order-Within p lo n ts h (Below-weaken t.id n ts (omega (arith, b.0)) b.1))
]

insert-keep :
    (q : Task → Bool) (lo : ℕ) (t : Task) (ys : List Task)
    → Within lo t.id ys
    → keep q (insert_by by_id t ys) ≡ (if q t then insert_by by_id t (keep q ys) else keep q ys)
insert-keep q lo t [] w = refl
insert-keep q lo t (y ∷ ys) w =
    let rest = insert-keep q (suc y.id) t ys w.2 in
    ap (keep q) (insert_behind t y ys w.1) ∙ elim (Bool-cases (q y)) [
      | inl e ↦ elim (Bool-cases (q t)) [
        | inl f ↦
            if_true _ _ e
            ∙ ap (λ z. y ∷ z) (rest ∙ if_true _ _ f)
            ∙ sym (insert_behind t y (keep q ys) w.1)
            ∙ ap (insert_by by_id t) (sym (if_true _ _ e))
            ∙ sym (if_true _ _ f)
        | inr f ↦
            if_true _ _ e
            ∙ ap (λ z. y ∷ z) (rest ∙ if_false _ _ f)
            ∙ sym (if_true _ _ e)
            ∙ sym (if_false _ _ f)
      ]
      | inr e ↦
          if_false _ _ e
          ∙ rest
          ∙ ap (λ z. if q t then insert_by by_id t z else z) (sym (if_false _ _ e))
    ]

-- Rows may be left out before or behind the ordering.
pub order-keep :
    (p q : Task → Bool) (n : ℕ) (ts : List Task)
    → Below n ts
    → keep q (order_by by_id (keep p ts)) ≡ order_by by_id (keep (λ t. p t && q t) ts)
unfolding order_by
order-keep p q n [] b = refl
order-keep p q n (t ∷ ts) b =
    let rest = order-keep p q t.id ts b.1 in
    elim (Bool-cases (p t)) [
      | inl e ↦
          let both = ap (λ z. z && q t) e in
          ap (λ z. keep q (order_by by_id z)) (if_true _ _ e)
          ∙ insert-keep q 0 t _ (order-Within p 0 t.id ts (λ u h. omega arith) b.1)
          ∙ elim (Bool-cases (q t)) [
            | inl f ↦
                if_true _ _ f
                ∙ ap (insert_by by_id t) rest
                ∙ ap (order_by by_id) (sym (if_true _ _ (both ∙ f)))
            | inr f ↦ if_false _ _ f ∙ rest ∙ ap (order_by by_id) (sym (if_false _ _ (both ∙ f)))
          ]
      | inr e ↦
          ap (λ z. keep q (order_by by_id z)) (if_false _ _ e)
          ∙ rest
          ∙ ap (order_by by_id) (sym (if_false _ _ (ap (λ z. z && q t) e)))
    ]

keep-past :
    (c lo hi : ℕ) (ts : List Task)
    → c < lo
    → Within lo hi ts
    → keep (λ (t : Task). ltb c t.id) ts ≡ ts
keep-past c lo hi [] h w = refl
keep-past c lo hi (t ∷ ts) h w =
    let past : ltb c t.id ≡ true = ground (arith, h, w.0) in
    if_true _ _ past ∙ ap (λ z. t ∷ z) (keep-past c (suc t.id) hi ts (ground (arith, h, w.0)) w.2)

pub last_id-rises : (c hi k : ℕ) (ts : List Task) → Within (suc c) hi ts → c ≤ last_id c (take k ts)
last_id-rises c hi zero ts w = omega arith
last_id-rises c hi (suc k) [] w = omega arith
last_id-rises c hi (suc k) (t ∷ ts) w = omega (arith, w.0, last_id-rises t.id hi k ts w.2)

-- What lies past the last row of a full chunk is what the chunk leaves.
pub past_chunk :
    (c hi k : ℕ) (ts : List Task)
    → Within (suc c) hi ts
    → k ≤ length ts
    → keep (λ (t : Task). ltb (last_id c (take k ts)) t.id) ts ≡ drop k ts
past_chunk c hi zero ts w h = keep-past c (suc c) hi ts (omega arith) w
past_chunk c hi (suc k) [] w h = absurd (omega (arith, h))
past_chunk c hi (suc k) (t ∷ ts) w h =
    let rises = last_id-rises t.id hi k ts w.2 in
    let missed : ltb (last_id t.id (take k ts)) t.id ≡ false = ground (arith, rises) in
    if_false _ _ missed ∙ past_chunk t.id hi k ts w.2 (omega (arith, h))
