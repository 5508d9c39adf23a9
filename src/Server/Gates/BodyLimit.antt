-- ===== src/Server/Gates/BodyLimit.antt =====
-- What passes the body limit of src/fronta/server/app.py, in both directions.
use fronta.Prelude.{
  ℕ, ◌+◌, ◌-◌, ◌≤◌, ◌≡◌, refl, sym, ap, ◌∙◌, Bool, true, false, ◌&&◌, not, Option, none, some, List,
  [], ◌∷◌, ◌++◌, arith, Bool-cases, inl, inr, ltb, if◌then◌else◌, if_true, if_false,
}
use fronta.Server.Gates.{
  request, other, Use, receives, sends, Given, message, disconnect, Sent, reply, too_large, Traffic,
  session, body_limit,
}

-- A declared length over the limit.
abbrev pub is_over : ℕ → Option ℕ → Bool
is_over limit none = false
is_over limit (some length) = ltb limit length

-- The body bytes that a session asks for.
abbrev pub body_bytes : List Use → ℕ
body_bytes [] = 0
body_bytes (receives (request n) ∷ us) = n + body_bytes us
body_bytes (receives other ∷ us) = body_bytes us
body_bytes (sends n ∷ us) = body_bytes us

-- The replies that are sent before the body comes to more than `room` bytes.
abbrev pub replies_within : ℕ → List Use → List Sent
replies_within room [] = []
replies_within room (receives (request n) ∷ us) =
    let rest = replies_within (room - n) us in if ltb room n then [] else rest
replies_within room (receives other ∷ us) = replies_within room us
replies_within room (sends n ∷ us) = reply n ∷ replies_within room us

-- The body bytes that the application is given before it sees a disconnect.
abbrev pub bytes_given : List Given → ℕ
bytes_given [] = 0
bytes_given (disconnect ∷ gs) = 0
bytes_given (message (request n) ∷ gs) = n + bytes_given gs
bytes_given (message other ∷ gs) = bytes_given gs

abbrev pub rejection : ℕ → ℕ → List Sent
rejection limit total = if ltb limit total then too_large ∷ [] else []

silent : (limit seen : ℕ) (us : List Use) → (session limit seen true us).sent ≡ []
unfolding session
silent limit seen [] = refl
silent limit seen (sends n ∷ us) = silent limit seen us
silent limit seen (receives other ∷ us) = silent limit seen us
silent limit seen (receives (request n) ∷ us) =
    let off : (ltb limit (seen + n) && not true) ≡ false = ground arith in
    ap (λ (z : Traffic). z.sent) (if_false _ _ off) ∙ silent limit (seen + n) us

session-sent :
    (limit seen : ℕ) (us : List Use)
    → seen ≤ limit
    → (session limit seen false us).sent
      ≡ replies_within (limit - seen) us ++ rejection limit (seen + body_bytes us)
unfolding session
session-sent limit seen [] h = ground (arith, h)
session-sent limit seen (sends n ∷ us) h = ap (λ z. reply n ∷ z) (session-sent limit seen us h)
session-sent limit seen (receives other ∷ us) h = session-sent limit seen us h
session-sent limit seen (receives (request n) ∷ us) h = elim (Bool-cases (ltb limit (seen + n))) [
  | inl e ↦
      let on : (ltb limit (seen + n) && not false) ≡ true = ground (arith, e) in
      let over : ltb (limit - seen) n ≡ true = ground (arith, e, h) in
      let total : ltb limit (seen + (n + body_bytes us)) ≡ true = ground (arith, e) in
      ap (λ (z : Traffic). z.sent) (if_true _ _ on)
      ∙ ap (λ z. too_large ∷ z) (silent limit (seen + n) us)
      ∙ sym (
          ap (λ z. z ++ rejection limit (seen + (n + body_bytes us))) (if_true _ _ over)
          ∙ if_true _ _ total)
  | inr e ↦
      let off : (ltb limit (seen + n) && not false) ≡ false = ground (arith, e) in
      let within : ltb (limit - seen) n ≡ false = ground (arith, e, h) in
      let room : limit - (seen + n) ≡ limit - seen - n = omega arith in
      let bytes : seen + n + body_bytes us ≡ seen + (n + body_bytes us) = omega arith in
      ap (λ (z : Traffic). z.sent) (if_false _ _ off)
      ∙ session-sent limit (seen + n) us (ground (arith, e))
      ∙ ap (λ z. replies_within z us ++ rejection limit (seen + n + body_bytes us)) room
      ∙ ap (λ z. replies_within (limit - seen - n) us ++ rejection limit z) bytes
      ∙ sym (ap (λ z. z ++ rejection limit (seen + (n + body_bytes us))) (if_false _ _ within))
]

session-given :
    (limit seen : ℕ) (us : List Use)
    → seen ≤ limit
    → seen + bytes_given (session limit seen false us).given ≤ limit
unfolding session
session-given limit seen [] h = omega (arith, h)
session-given limit seen (sends n ∷ us) h = session-given limit seen us h
session-given limit seen (receives other ∷ us) h = session-given limit seen us h
session-given limit seen (receives (request n) ∷ us) h = elim (Bool-cases (ltb limit (seen + n))) [
  | inl e ↦
      let on : (ltb limit (seen + n) && not false) ≡ true = ground (arith, e) in
      omega (arith, ap (λ (z : Traffic). bytes_given z.given) (if_true _ _ on), h)
  | inr e ↦
      let off : (ltb limit (seen + n) && not false) ≡ false = ground (arith, e) in
      omega (
        arith,
        ap (λ (z : Traffic). bytes_given z.given) (if_false _ _ off),
        session-given limit (seen + n) us (ground (arith, e)),
      )
]

session_whole :
    (limit : ℕ) (us : List Use)
    → let t = session limit 0 false us in
      (t.sent ≡ replies_within limit us ++ rejection limit (body_bytes us))
      × (bytes_given t.given ≤ limit)
session_whole limit us = (
  session-sent limit 0 us (omega arith)
      ∙ ap (λ z. replies_within z us ++ rejection limit (0 + body_bytes us)) (omega arith)
      ∙ ap (λ z. replies_within limit us ++ rejection limit z) (omega arith),
  omega (arith, session-given limit 0 us (omega arith)),
)

-- A session behind the body limit whose declared length, if any, is within it: the client is sent the application's
-- replies up to the point where the body goes over the limit, then one 413 and nothing more, and exactly the
-- application's replies if it never does. Up to a disconnect the application is given at most the limit's bytes.
pub body_limit-session :
    (limit : ℕ) (declared : Option ℕ) (us : List Use)
    → is_over limit declared ≡ false
    → let t = body_limit limit declared us in
      (t.sent ≡ replies_within limit us ++ rejection limit (body_bytes us))
      × (bytes_given t.given ≤ limit)
unfolding body_limit
body_limit-session limit none us h = session_whole limit us
body_limit-session limit (some length) us h =
    let off =
      if_false (record { given = []; sent = too_large ∷ [] }) (session limit 0 false us) h in
    let rest = session_whole limit us in
    (
      ap (λ (t : Traffic). t.sent) off ∙ rest.0,
      omega (arith, ap (λ (t : Traffic). bytes_given t.given) off, rest.1),
    )
