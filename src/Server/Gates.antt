-- ===== src/Server/Gates.antt =====
-- `bearer_ok` of src/fronta/server/api.py, and `BearerGate`, `BodyLimit` and `transport_security` of
-- src/fronta/server/app.py. Header values are code points, which latin-1 keeps under 256.
pub mod BodyLimit
use fronta.Prelude.{
  ℕ, zero, suc, ◌+◌, ◌-◌, ◌≤◌, ◌≡◌, refl, sym, ap, subst, ◌∙◌, Bool, true, false, ◌&&◌, ◌||◌, not,
  Option, none, some, List, [], ◌∷◌, ◌++◌, arith, Bool-cases, inl, inr, ltb, leb, ◌==◌, exists,
  if◌then◌else◌, if_true, if_false, map, flat_map,
}
use fronta.Codec.Text.{Text, codes}
use fronta.Sandbox.Identity.{same_text, split_last}

-- `authorization.partition(" ")`: what stands before the first space, and behind it.
unfoldable pub partition_space : Text → Text × Text
partition_space [] = ([], [])
partition_space (c ∷ cs) =
    let rest = partition_space cs in if c == 32 then ([], cs) else (c ∷ rest.0, rest.1)

abbrev lower_code : ℕ → ℕ
lower_code c = if leb 65 c && leb c 90 then c + 32 else c

abbrev lower : Text → Text
lower [] = []
lower (c ∷ cs) = lower_code c ∷ lower cs

-- `str.isspace` in latin-1.
abbrev is_space : ℕ → Bool
is_space c = (leb 9 c && leb c 13) || (leb 28 c && leb c 32) || c == 133 || c == 160

abbrev lstrip : Text → Text
lstrip [] = []
lstrip (c ∷ cs) = let rest = lstrip cs in if is_space c then rest else c ∷ cs

abbrev rstrip : Text → Text
rstrip [] = []
rstrip (c ∷ cs) = let rest = rstrip cs in if is_space c && same_text rest [] then [] else c ∷ rest

unfoldable pub bearer_ok : Option Text → Option Text → Bool
unfolding partition_space
bearer_ok authorization none = false
bearer_ok none (some token) = false
bearer_ok (some authorization) (some token) =
    let parts = partition_space authorization in
    same_text (lower parts.0) (codes "bearer") && same_text (rstrip (lstrip parts.1)) token

-- `BearerGate`: a request reaches the application, or is answered with the status.
pub data Passage : Type 0 where
  passes : Passage
  replies : ℕ → Passage

unfoldable pub bearer_gate : Bool → Option Text → Option Text → Passage
unfolding bearer_ok
bearer_gate is_http authorization token =
    if is_http && not (bearer_ok authorization token) then replies 401 else passes

-- `transport_security`: the hosts that are allowed; a bare host also matches any port.
abbrev any_port : Text
any_port = codes ":*"

abbrev ends_with_any_port : Text → Bool
ends_with_any_port [] = false
ends_with_any_port (c ∷ cs) =
    let rest = ends_with_any_port cs in same_text (c ∷ cs) any_port || rest

-- `host.rsplit("]", 1)[-1]`
abbrev last_part : Text → Option (Text × Text) → Text
last_part host none = host
last_part host (some p) = p.1

abbrev with_any_port : Text → List Text
with_any_port host =
    if not (ends_with_any_port host)
      && not (exists (λ c. c == 58) (last_part host (split_last 93 host)))
    then host ∷ (host ++ any_port) ∷ []
    else host ∷ []

unfoldable pub transport_security : List Text → List Text → Option (List Text × List Text)
unfolding split_last
transport_security [] [] = none
transport_security hosts origins = some (
  (codes "127.0.0.1:*" ∷ codes "localhost:*" ∷ codes "[::1]:*" ∷ [])
      ++ flat_map with_any_port hosts,
  (codes "http://127.0.0.1:*" ∷ codes "http://localhost:*" ∷ codes "http://[::1]:*" ∷ [])
      ++ origins,
)

-- A message of the client: a part of the request body, by its length, or another one.
pub data Message : Type 0 where
  request : ℕ → Message
  other : Message

-- What the application does: it receives, for which the client has a message, or it sends.
pub data Use : Type 0 where
  receives : Message → Use
  sends : ℕ → Use

-- What the application is given, and what the client is sent.
pub data Given : Type 0 where
  message : Message → Given
  disconnect : Given

pub data Sent : Type 0 where
  reply : ℕ → Sent
  too_large : Sent

pub record Traffic : Type 0 where
  pub given : List Given
  pub sent : List Sent

abbrev gives : Given → Traffic → Traffic
gives g t = record t { given = g ∷ t.given }

abbrev tells : Sent → Traffic → Traffic
tells s t = record t { sent = s ∷ t.sent }

-- `limited_receive` and `guarded_send` over a session, with `seen` and `rejected`.
unfoldable pub session : ℕ → ℕ → Bool → List Use → Traffic
session limit seen rejected [] = record { given = []; sent = [] }
session limit seen rejected (sends n ∷ us) =
    let rest = session limit seen rejected us in if rejected then rest else tells (reply n) rest
session limit seen rejected (receives other ∷ us) =
    gives (message other) (session limit seen rejected us)
session limit seen rejected (receives (request n) ∷ us) =
    let within = session limit (seen + n) rejected us in
    let over = session limit (seen + n) true us in
    if ltb limit (seen + n) && not rejected
    then gives disconnect (tells too_large over)
    else gives (message (request n)) within

-- `BodyLimit.__call__` for an HTTP request; `declared` is a content length that is a number.
unfoldable pub body_limit : ℕ → Option ℕ → List Use → Traffic
unfolding session
body_limit limit none us = session limit 0 false us
body_limit limit (some length) us =
    if ltb limit length
    then record { given = []; sent = too_large ∷ [] }
    else session limit 0 false us
