-- ===== src/Store/Enqueue/Sound.antt =====
-- An INSERT keeps the tables sound, and adds a row only where no active row has its key.
use fronta.Prelude.{ℕ, ◌≤◌, arith, exists, Bool-cases, inl, inr}
use fronta.Store.Row.Valid.{IsValid}
use fronta.Store.Tables.{Db}
use fronta.Store.Tables.Sound.{IsSound, publish-IsSound}
use fronta.Store.Enqueue.{Params, is_duplicate, new_row, insert}

new_row-IsValid : (now id : ℕ) (p : Params) → 1 ≤ p.task.max_attempts → IsValid (new_row now id p)
unfolding new_row
new_row-IsValid now id p h = ground arith

pub insert-IsSound :
    (now : ℕ) (p : Params) (db : Db)
    → 1 ≤ p.task.max_attempts
    → IsSound db
    → IsSound (insert now p db).0
unfolding insert
insert-IsSound now p db h s =
    elim (Bool-cases (exists (is_duplicate p.task.type p.task.key) db.tasks)) [
      | inl e ↦ rw e s
      | inr e ↦ rw e (
          publish-IsSound now _ _ (record {
            rows = (new_row-IsValid now db.next_id p h, s.rows);
            ids = (omega arith, s.ids);
            keys = (λ _. e, s.keys);
            seqs = s.seqs;
          }))
    ]
