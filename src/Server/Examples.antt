-- ===== src/Server/Examples.antt =====
-- Tests of the server's operations on two queued tasks, and the theorems at them.
use fronta.Prelude.{
  suc, ◌≡◌, true, ◌≤◌, refl, none, some, List, [], ◌∷◌, ◌++◌, arith, length, keep, map,
}
use fronta.Errors.{ok}
use fronta.Model.{cancelled}
use fronta.Store.Row.{Task, flag_cancel}
use fronta.Store.Tables.{get_task, publish}
use fronta.Store.Control.{request_cancel, flagged}
use fronta.Store.Claim.Examples.{two_queued, two_queued-IsSound}
use fronta.Server.Service.{TaskFilter, matches, list_rows, list_tasks, all_pages, service_cancel}
use fronta.Server.Paging.{all_pages-whole}
use fronta.Server.Cancelling.{answer_for, hints_for, row_for, db_for, service_cancel-answers}
use fronta.Codec.Text.{codes}
use fronta.Sandbox.Identity.{split_last}
use fronta.Server.Gates.{
  bearer_ok, bearer_gate, partition_space, replies, transport_security, Use, receives, sends,
  request, reply, too_large, session, body_limit,
}
use fronta.Server.Gates.BodyLimit.{
  replies_within, rejection, body_bytes, bytes_given, body_limit-session,
}

abbrev mails : TaskFilter
mails = record { type = some "mail"; state = none; key = none; before = none; limit = 1 }

pages_test : map (λ (t : Task). t.id) (all_pages 3 200 mails two_queued) ≡ 2 ∷ 1 ∷ []
unfolding all_pages list_tasks list_rows matches
pages_test = refl

all_pages-whole_example :
    all_pages (suc (length two_queued.tasks)) 200 mails two_queued
    ≡ keep (matches mails) two_queued.tasks
all_pages-whole_example = all_pages-whole 200 mails two_queued two_queued-IsSound (omega arith)

cancel_test : (service_cancel 20 1 two_queued).answer ≡ ok cancelled
unfolding service_cancel request_cancel flagged flag_cancel publish get_task
cancel_test = refl

service_cancel-answers_example :
    let r = service_cancel 20 1 two_queued in
    (r.answer ≡ answer_for (get_task 1 two_queued))
    × (r.hints ≡ hints_for 1 (get_task 1 two_queued))
    × (get_task 1 r.db ≡ row_for 20 (get_task 1 two_queued))
    × (r.db ≡ db_for 20 1 (get_task 1 two_queued) two_queued)
service_cancel-answers_example = service_cancel-answers 20 1 two_queued two_queued-IsSound

-- An upload that goes over a limit of ten bytes with its second part.
abbrev upload : List Use
upload = receives (request 6) ∷ sends 100 ∷ receives (request 7) ∷ sends 200 ∷ []

upload_test : (body_limit 10 none upload).sent ≡ reply 100 ∷ too_large ∷ []
unfolding body_limit session
upload_test = refl

body_limit-session_example :
    let t = body_limit 10 (some 9) upload in
    (t.sent ≡ replies_within 10 upload ++ rejection 10 (body_bytes upload))
    × (bytes_given t.given ≤ 10)
body_limit-session_example = body_limit-session 10 (some 9) upload refl

bearer_test : bearer_ok (some (codes "bEarer  tok ")) (some (codes "tok")) ≡ true
unfolding bearer_ok partition_space
bearer_test = refl

no_token_test : bearer_gate true (some (codes "Bearer ")) none ≡ replies 401
unfolding bearer_gate bearer_ok
no_token_test = refl

hosts_test :
    transport_security (codes "a" ∷ codes "b:1" ∷ []) []
    ≡ some (
      codes "127.0.0.1:*"
          ∷ codes "localhost:*"
          ∷ codes "[::1]:*"
          ∷ codes "a"
          ∷ codes "a:*"
          ∷ codes "b:1"
          ∷ [],
      codes "http://127.0.0.1:*" ∷ codes "http://localhost:*" ∷ codes "http://[::1]:*" ∷ [],
    )
unfolding transport_security split_last
hosts_test = refl
