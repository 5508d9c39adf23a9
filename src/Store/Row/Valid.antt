-- ===== src/Store/Row/Valid.antt =====
-- What holds of every stored row between statements, and that each statement keeps it.
use fronta.Prelude.{ℕ, ◌≤◌, ◌<◌, ◌≡◌, true, not, none, Option, String, arith, is_some}
use fronta.Model.{queued, running, CompletionKind, same_state}
use fronta.Store.Row.{
  Task, is_active, settle, settles, admit, renew, store_progress, flag_cancel, has_expired, expire,
  may_requeue, reset, fenced,
}

pub record IsValid (t : Task) : Type 0 where
  pub held : is_some t.token ≡ same_state t.state running
  pub leased : is_some t.lease_until ≡ same_state t.state running
  pub owned : t.state ≡ running → is_some t.worker ≡ true
  pub finished : is_some t.finished_at ≡ not (is_active t.state)
  pub uncancelled : t.state ≡ queued → t.cancel_requested_at ≡ none
  pub accounted : t.failures ≤ t.attempt
  pub budget : t.failures ≤ t.max_attempts
  pub charged : t.state ≡ running → t.failures < t.attempt
  pub retryable : is_active t.state ≡ true → t.failures < t.max_attempts
  pub positive : 1 ≤ t.max_attempts

pub settle-IsValid :
    (now draw token : ℕ) (kind : CompletionKind) (body : Option String) (t : Task)
    → settles token kind t ≡ true
    → IsValid t
    → IsValid (settle now draw kind body t)
unfolding settle settles
settle-IsValid now draw token kind body t h v = ground arith

pub admit-IsValid :
    (now until token : ℕ) (worker : String) (t : Task)
    → same_state t.state queued ≡ true
    → IsValid t
    → IsValid (admit now until token worker t)
unfolding admit
admit-IsValid now until token worker t h v = ground arith

pub renew-IsValid :
    (until token : ℕ) (t : Task) → fenced token t ≡ true → IsValid t → IsValid (renew until t)
unfolding renew
renew-IsValid until token t h v = ground arith

pub store_progress-IsValid :
    (text : String) (t : Task) → IsValid t → IsValid (store_progress text t)
unfolding store_progress
store_progress-IsValid text t v = ground arith

pub flag_cancel-IsValid :
    (now : ℕ) (t : Task) → is_active t.state ≡ true → IsValid t → IsValid (flag_cancel now t)
unfolding flag_cancel
flag_cancel-IsValid now t h v = ground arith

pub expire-IsValid :
    (now draw : ℕ) (t : Task) → has_expired now t ≡ true → IsValid t → IsValid (expire now draw t)
unfolding expire has_expired
expire-IsValid now draw t h v = ground arith

pub reset-IsValid : (now : ℕ) (t : Task) → may_requeue t ≡ true → IsValid t → IsValid (reset now t)
unfolding reset may_requeue
reset-IsValid now t h v = ground arith
