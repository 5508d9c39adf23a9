-- ===== src/Feed/Waiting.antt =====
-- `_wait_for_transactions` of src/fronta/feed.py, and `backfill_blockers` of src/fronta/store.py. A transaction is a number;
-- `pg_locks` is a parameter, as the transactions that hold their own virtual id at a poll.
use fronta.Prelude.{
  ℕ, ◌≡◌, refl, ap, ◌∙◌, Bool, true, false, not, Option, none, some, List, [], ◌∷◌, arith, keep,
  exists, ◌==◌, holds, if◌then◌else◌, if_true,
}

-- A poll: the generation of the registration that it reads, and the holders behind its sleep.
pub record Poll : Type 0 where
  pub registration : Option ℕ
  pub holders : List ℕ

-- The captured transactions among the holders.
unfoldable pub backfill_blockers : List ℕ → List ℕ → List ℕ
backfill_blockers captured holders = keep (λ v. exists (λ w. w == v) captured) holders

-- `while blockers`; `none` says that the wait goes on behind the polls.
unfoldable pub wait_from : ℕ → List ℕ → List ℕ → List Poll → Option Bool
unfolding backfill_blockers
wait_from generation captured [] polls = some true
wait_from generation captured (b ∷ bs) [] = none
wait_from generation captured (b ∷ bs) (p ∷ polls) =
    let rest = wait_from generation captured (backfill_blockers captured p.holders) polls in
    if holds p.registration generation then rest else some false

-- `_wait_for_transactions`: the holders of the first look are captured.
unfoldable pub wait_for_transactions : ℕ → List ℕ → List Poll → Option Bool
unfolding wait_from
wait_for_transactions generation first polls = wait_from generation first first polls

-- No captured transaction is left at a poll.
abbrev pub is_clear : List ℕ → Poll → Bool
is_clear captured p = not (exists (λ v. exists (λ w. w == v) captured) p.holders)

none_left :
    (captured holders : List ℕ)
    → exists (λ v. exists (λ w. w == v) captured) holders ≡ false
    → backfill_blockers captured holders ≡ []
unfolding backfill_blockers
none_left captured [] h = refl
none_left captured (v ∷ vs) h = ground (arith, none_left captured vs, h)

-- The wait ends with the first poll that finds no transaction of the first look, however many later ones have started:
-- for a registration that is still there it ends with true.
pub wait_from-clear :
    (generation : ℕ) (captured blockers : List ℕ) (p : Poll) (polls : List Poll)
    → holds p.registration generation ≡ true
    → is_clear captured p ≡ true
    → wait_from generation captured blockers (p ∷ polls) ≡ some true
unfolding wait_from
wait_from-clear generation captured [] p polls r c = refl
wait_from-clear generation captured (b ∷ bs) p polls r c =
    if_true _ _ r
    ∙ ap (λ z. wait_from generation captured z polls)
        (none_left captured p.holders (ground (arith, c)))
