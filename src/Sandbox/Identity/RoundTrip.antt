-- ===== src/Sandbox/Identity/RoundTrip.antt =====
-- A worker id of src/fronta/sandbox.py is read back as it was written.
use fronta.Prelude.{
  ℕ, ◌≡◌, ◌≢◌, refl, ap, ◌∙◌, Bool, true, false, not, ◌||◌, Option, none, some, [], ◌∷◌, ◌++◌,
  arith, exists, ◌==◌, if◌then◌else◌, if_false,
}
use fronta.Codec.Text.{Text}
use fronta.Sandbox.Identity.{
  same_text, split_last, before_first, colon, dash, nonce, starts_with, Host, worker_id,
  three_parts, parts_of, front_of, judged, judge_parts, is_worker_alive,
}

abbrev pub Lacks : ℕ → Text → Type 0
Lacks c text = exists (λ d. d == c) text ≡ false

split_last-none : (sep : ℕ) (text : Text) → Lacks sep text → split_last sep text ≡ none
unfolding split_last
split_last-none sep [] h = refl
split_last-none sep (c ∷ cs) h = ground (arith, split_last-none sep cs)

split_last-append :
    (sep : ℕ) (front back : Text)
    → Lacks sep back
    → split_last sep (front ++ sep ∷ back) ≡ some (front, back)
unfolding split_last
split_last-append sep [] back h = ground (arith, split_last-none sep back h)
split_last-append sep (c ∷ cs) back h = rw (split_last-append sep cs back h) refl

before_first-append :
    (sep : ℕ) (front back : Text) → Lacks sep front → before_first sep (front ++ sep ∷ back) ≡ front
unfolding before_first
before_first-append sep [] back h = ground arith
before_first-append sep (c ∷ cs) back h = ground (arith, before_first-append sep cs back)

pub same_text_refl : (t : Text) → same_text t t ≡ true
same_text_refl [] = refl
same_text_refl (c ∷ cs) = ground (arith, same_text_refl cs)

-- A marker that ends with a dash is found exactly where the text before the first dash is the marker's.
starts_with-marker :
    (marker front back : Text)
    → Lacks dash marker
    → Lacks dash front
    → starts_with (marker ++ dash ∷ []) (front ++ dash ∷ back) ≡ same_text marker front
starts_with-marker [] [] back h k = refl
starts_with-marker [] (c ∷ cs) back h k = ground arith
starts_with-marker (p ∷ ps) [] back h k = ground arith
starts_with-marker (p ∷ ps) (c ∷ cs) back h k = ground (arith, starts_with-marker ps cs back)

append_between : (c : ℕ) (xs ys zs : Text) → xs ++ c ∷ (ys ++ zs) ≡ (xs ++ c ∷ ys) ++ zs
append_between c [] ys zs = refl
append_between c (x ∷ xs) ys zs = ap (λ w. x ∷ w) (append_between c xs ys zs)

Lacks-append :
    (c d : ℕ) (xs ys : Text) → Lacks c xs → Lacks c ys → (d == c) ≡ false → Lacks c (xs ++ d ∷ ys)
Lacks-append c d [] ys h k e = ground arith
Lacks-append c d (x ∷ xs) ys h k e = ground (arith, Lacks-append c d xs ys)

three_parts-worker :
    (name number identity : Text)
    → Lacks colon number
    → Lacks colon identity
    → three_parts (name ++ colon ∷ (number ++ colon ∷ identity)) ≡ some (name, number, identity)
unfolding three_parts
three_parts-worker name number identity h k =
    ap (λ w. parts_of (split_last colon w)) (append_between colon name number (colon ∷ identity))
    ∙ ap parts_of (split_last-append colon (name ++ colon ∷ number) identity k)
    ∙ ap (front_of identity) (split_last-append colon name number h)

module _ (decimal : ℕ → Text) (natural : Text → Option ℕ) where
  -- What a host says of an id with start time `t` and process `pid`.
  abbrev pub verdict : Host → ℕ → Text → Option Text → Option Bool
  verdict later pid t (some now) = some (same_text now t)
  verdict later pid t none = if later.no_such_process pid then some false else none

  judged-verdict :
      (later : Host) (pid : ℕ) (t unique : Text) (o : Option Text)
      → Lacks dash t
      → judged decimal natural later pid (t ++ dash ∷ unique) o ≡ verdict later pid t o
  unfolding before_first
  judged-verdict later pid t unique (some now) h =
      ap (λ z. some (same_text now z)) (before_first-append dash t unique h)
  judged-verdict later pid t unique none h = refl

  -- A worker id that a process `pid` makes where `/proc` gives its start time, read on a host of the same name, whatever
  -- colons the name has: the worker is alive if `pid` has that start time, dead if it has another one or if there is no
  -- such process, and otherwise not judged. It takes `int` to read what Python writes for an integer, and the digits,
  -- start times and unique parts to have no colon and no dash where they may not.
  pub is_worker_alive-worker_id :
      (host later : Host) (pid : ℕ) (t unique : Text)
      → natural (decimal pid) ≡ some pid
      → Lacks colon (decimal pid)
      → pid ≢ 0
      → host.starttime pid ≡ some t
      → Lacks colon t
      → Lacks dash t
      → same_text nonce t ≡ false
      → Lacks colon unique
      → later.name ≡ host.name
      → is_worker_alive decimal natural later (worker_id decimal natural host pid unique)
        ≡ verdict later pid t (later.starttime pid)
  unfolding is_worker_alive worker_id
  is_worker_alive-worker_id host later pid t unique read digits positive start tc td tn uc same =
      let identity = t ++ dash ∷ unique in
      let ic : Lacks colon identity = Lacks-append colon dash t unique tc uc refl in
      let wrote : worker_id decimal natural host pid unique
          ≡ host.name ++ colon ∷ (decimal pid ++ colon ∷ identity) =
        rw start refl in
      let named : not (same_text host.name later.name) ≡ false =
        rw same (ap not (same_text_refl host.name)) in
      let known : (pid == 0 || starts_with (nonce ++ dash ∷ []) identity) ≡ false =
        ground (arith, starts_with-marker nonce t unique refl td, tn, positive) in
      ap (is_worker_alive decimal natural later) wrote
      ∙ ap (judge_parts decimal natural later)
          (three_parts-worker host.name (decimal pid) identity digits ic)
      ∙ if_false _ _ named
      ∙ rw (read, judge_parts) (if_false _ _ known)
      ∙ judged-verdict later pid t unique (later.starttime pid) td
