-- ===== src/Server/Paging.antt =====
-- The pages of src/fronta/server/service.py, put together, are the whole list.
use fronta.Prelude.{
  ℕ, zero, suc, ◌≤◌, ◌<◌, ◌≡◌, refl, sym, ap, subst, ◌∙◌, Bool, true, false, ◌&&◌, Option, none,
  some, List, [], ◌∷◌, ◌++◌, arith, Bool-cases, Option-cases, inl, inr, ◌⊎◌, ltb, ◌==◌, keep, take,
  drop, length, length-take, length-drop, length-keep-le, take-append-drop, take_all, keep_same,
  if◌then◌else◌, if_true, if_false, min, max, some-injective,
}
use fronta.Store.Row.{Task}
use fronta.Store.Tables.{Db}
use fronta.Store.Tables.Sound.{Below, IsSound}
use fronta.Server.Service.{
  TaskFilter, matches, is_before, list_rows, last_of, id_of, list_tasks, all_pages,
}

module _ (p : Task → Bool) where
  abbrev older : ℕ → Task → Bool
  older id t = p t && ltb t.id id

  -- Every row under `n` is older than `n`.
  keep-older : (n m : ℕ) (ts : List Task) → Below m ts → m ≤ n → keep (older n) ts ≡ keep p ts
  keep-older n m [] b h = refl
  keep-older n m (t ∷ ts) b h =
      let rest = keep-older n t.id ts b.1 (omega (arith, b.0, h)) in
      elim (Bool-cases (p t)) [
        | inl e ↦
            let kept : older n t ≡ true = ground (arith, e, b.0, h) in
            if_true _ _ kept ∙ ap (λ z. t ∷ z) rest ∙ sym (if_true _ _ e)
        | inr e ↦
            let skipped : older n t ≡ false = ground (arith, e) in
            if_false _ _ skipped ∙ rest ∙ sym (if_false _ _ e)
      ]

  last_of-none : (rest : List Task) → last_of rest ≡ none → length rest ≡ 0
  last_of-none [] h = refl
  last_of-none (u ∷ us) h = elim (Option-cases (last_of us)) [
    | inl e ↦ absurd (cc (rw (e, last_of) at h))
    | inr (y, e) ↦ absurd (cc (rw (e, last_of) at h))
  ]

  last_of-cons :
      (u : Task) (rest : List Task) (t : Task)
      → last_of (u ∷ rest) ≡ some t
      → ((u ≡ t) × (length rest ≡ 0)) ⊎ (last_of rest ≡ some t)
  last_of-cons u rest t h = elim (Option-cases (last_of rest)) [
    | inl e ↦ inl (some-injective (rw (e, last_of) at h), last_of-none rest e)
    | inr (y, e) ↦ inr (e ∙ (rw (e, last_of) at h))
  ]

  -- The last row of a page is a row of the table that passes.
  last_under :
      (k n : ℕ) (ts : List Task) (t : Task)
      → Below n ts
      → last_of (take k (keep p ts)) ≡ some t
      → (t.id < n) × (p t ≡ true)
  last_under zero n ts t b h = absurd (cc h)
  last_under (suc k) n [] t b h = absurd (cc h)
  last_under (suc k) n (u ∷ us) t b h = elim (Bool-cases (p u)) [
    | inr e ↦
        let rest =
          last_under (suc k) u.id us t b.1
            (ap (λ z. last_of (take (suc k) z)) (sym (if_false _ _ e)) ∙ h) in
        (omega (arith, rest.0, b.0), rest.1)
    | inl e ↦
        elim (last_of-cons u (take k (keep p us)) t
          (ap (λ z. last_of (take (suc k) z)) (sym (if_true _ _ e)) ∙ h)) [
            | inl f ↦ (subst (λ z. z.id < n) f.0 b.0, subst (λ z. p z ≡ true) f.0 e)
            | inr f ↦
                let rest = last_under k u.id us t b.1 f in (omega (arith, rest.0, b.0), rest.1)
          ]
  ]

  -- What is older than the last row of a full page is what the page leaves.
  after_page :
      (k n : ℕ) (ts : List Task) (t : Task)
      → Below n ts
      → last_of (take k (keep p ts)) ≡ some t
      → length (take k (keep p ts)) ≡ k
      → keep (older t.id) ts ≡ drop k (keep p ts)
  after_page zero n ts t b h l = absurd (cc h)
  after_page (suc k) n [] t b h l = absurd (cc l)
  after_page (suc k) n (u ∷ us) t b h l = elim (Bool-cases (p u)) [
    | inr e ↦
        let off = if_false (u ∷ keep p us) (keep p us) e in
        let skipped : older t.id u ≡ false = ground (arith, e) in
        if_false _ _ skipped
        ∙ after_page (suc k) u.id us t b.1 (ap (λ z. last_of (take (suc k) z)) (sym off) ∙ h)
            (ap (λ z. length (take (suc k) z)) (sym off) ∙ l)
        ∙ ap (drop (suc k)) (sym off)
    | inl e ↦
        let on = if_true (u ∷ keep p us) (keep p us) e in
        let l' : length (take k (keep p us)) ≡ k =
          omega (arith, ap (λ z. length (take (suc k) z)) (sym on) ∙ l) in
        elim (last_of-cons u (take k (keep p us)) t
          (ap (λ z. last_of (take (suc k) z)) (sym on) ∙ h)) [
            | inl f ↦
                let whole : k ≡ 0 = omega (arith, l', f.1) in
                let same =
                  subst (λ (z : Task). keep (older z.id) us ≡ keep p us) f.0
                    (keep-older u.id u.id us b.1 (omega arith)) in
                let skipped : older t.id u ≡ false =
                  subst (λ (z : Task). older z.id u ≡ false) f.0 (ground arith) in
                if_false _ _ skipped
                ∙ same
                ∙ ap (λ z. drop z (keep p us)) (sym whole)
                ∙ ap (drop (suc k)) (sym on)
            | inr f ↦
                let under = last_under k u.id us t b.1 f in
                let skipped : older t.id u ≡ false = ground (arith, under.0) in
                if_false _ _ skipped ∙ after_page k u.id us t b.1 f l' ∙ ap (drop (suc k)) (sym on)
          ]
  ]

-- The filter of the next page.
abbrev next_filter : TaskFilter → ℕ → TaskFilter
next_filter f id = record f { before = some id }

is_before-older :
    (b : Option ℕ) (id last : ℕ)
    → is_before b last ≡ true
    → (is_before b id && ltb id last) ≡ ltb id last
is_before-older none id last h = refl
is_before-older (some b) id last h = ground (arith, h)

regroup : (g b c : Bool) → (b && c) ≡ c → (g && c) ≡ ((g && b) && c)
regroup g b c h = ground (arith, h)

next-matches :
    (f : TaskFilter) (last t : Task)
    → matches f last ≡ true
    → matches (next_filter f last.id) t ≡ older (matches f) last.id t
unfolding matches
next-matches f last t h = regroup _ _ _ (is_before-older f.before t.id last.id (ground (arith, h)))

append_nil : (ts : List Task) → ts ++ [] ≡ ts
append_nil [] = refl
append_nil (t ∷ ts) = ap (λ z. t ∷ z) (append_nil ts)

module _ (page_max : ℕ) (db : Db) where
  abbrev rows : TaskFilter → List Task
  rows f = keep (matches f) db.tasks

  abbrev page_limit : TaskFilter → ℕ
  page_limit f = min (max f.limit 1) page_max

  abbrev following : ℕ → TaskFilter → Option ℕ → List Task
  following n f none = []
  following n f (some id) = all_pages n page_max (next_filter f id) db

  -- A page that is not full is the last one, and a full one leaves what is older than its last row.
  page-rest :
      (n : ℕ) (f : TaskFilter)
      → Below db.next_id db.tasks
      → 1 ≤ page_max
      → ((last : Task)
          → rows (next_filter f last.id) ≡ drop (page_limit f) (rows f)
          → page_limit f ≤ length (rows f)
          → all_pages n page_max (next_filter f last.id) db ≡ rows (next_filter f last.id))
      → let items = take (page_limit f) (rows f) in
        items
          ++ following n f (if length items == page_limit f then id_of (last_of items) else none)
        ≡ rows f
  page-rest n f b h later =
      let items = take (page_limit f) (rows f) in
      let k = length-take (page_limit f) (rows f) in
      elim (Bool-cases (length items == page_limit f)) [
        | inr e ↦
            ap (λ z. items ++ following n f z) (if_false (id_of (last_of items)) none e)
            ∙ append_nil items
            ∙ take_all (page_limit f) (rows f) (ground (arith, e, k))
        | inl e ↦ elim (Option-cases (last_of items)) [
          | inl g ↦ absurd (ground (arith, e, last_of-none (matches f) items g, h))
          | inr (t, g) ↦
              let full : length items ≡ page_limit f = ground (arith, e) in
              let under = last_under (matches f) (page_limit f) db.next_id db.tasks t b g in
              let left =
                keep_same (matches (next_filter f t.id)) (older (matches f) t.id) db.tasks
                  (λ u. next-matches f t u under.1)
                ∙ after_page (matches f) (page_limit f) db.next_id db.tasks t b g full in
              ap (λ z. items ++ following n f z)
                (if_true (id_of (last_of items)) none e ∙ ap id_of g)
              ∙ ap (λ z. items ++ z) (later t left (omega (arith, full, k)) ∙ left)
              ∙ take-append-drop (page_limit f) (rows f)
        ]
      ]

  pages_from :
      (n : ℕ) (f : TaskFilter)
      → Below db.next_id db.tasks
      → 1 ≤ page_max
      → length (rows f) < n
      → all_pages n page_max f db ≡ rows f
  unfolding all_pages list_tasks list_rows
  pages_from zero f b h l = absurd (omega (arith, l))
  pages_from (suc n) f b h l = page-rest n f b h (λ last left enough.
      pages_from n (next_filter f last.id) b h
        (omega (arith, ap length left, length-drop (page_limit f) (rows f), l, h, enough)))

-- A client that follows the cursors gets the whole list: put together, its pages are exactly the tasks that match the
-- filter, each one once and newest first, whatever limit it asks for, as long as the tables do not change and a page
-- may hold a task. As many requests as there are tasks, and one more, are enough.
pub all_pages-whole :
    (page_max : ℕ) (f : TaskFilter) (db : Db)
    → IsSound db
    → 1 ≤ page_max
    → all_pages (suc (length db.tasks)) page_max f db ≡ keep (matches f) db.tasks
all_pages-whole page_max f db s h =
    pages_from page_max db (suc (length db.tasks)) f s.ids h
      (omega (arith, length-keep-le (matches f) db.tasks))
