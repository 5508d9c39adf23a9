-- ===== src/Model/Json.antt =====
-- `to_json` and `from_json` of `Backoff` and `Policy` of src/fronta/model.py. A JSON object is the list of its fields; a
-- number is in the units of the record, so that `float(...)` and `int(...)` keep it.
use fronta.Prelude.{
  ℕ, ◌≤◌, ◌≡◌, refl, ap, ◌∙◌, true, ◌&&◌, Option, none, some, String, List, [], ◌∷◌, arith, leb,
  text_eq, if◌then◌else◌, if_true,
}
use fronta.Model.Backoff.{Backoff, IsValid, finite, post_init, check_finite, max_duration}
use fronta.Config.{Policy, check_policy, at_least_one}

pub data Number : Type 0 where
  number : ℕ → Number
  null : Number

abbrev pub Fields : Type 0
Fields = List (String × Number)

-- `data[key]`; `none` is a `KeyError`, or the `TypeError` of a conversion of None.
abbrev pub number_of : Option Number → Option ℕ
number_of (some (number n)) = some n
number_of _ = none

abbrev pub field : String → Fields → Option Number
field key [] = none
field key (f ∷ fs) = let rest = field key fs in if text_eq f.0 key then some f.1 else rest

unfoldable pub backoff_to_json : Backoff → Fields
backoff_to_json b =
    ("base_s", number b.base) ∷ ("factor", number b.factor) ∷ ("cap_s", number b.cap) ∷ []

abbrev backoff_of : Option ℕ → Option ℕ → Option ℕ → Option Backoff
backoff_of (some b) (some f) (some c) = post_init (finite b) (finite f) (finite c)
backoff_of _ _ _ = none

unfoldable pub backoff_from_json : Fields → Option Backoff
unfolding post_init
backoff_from_json fs =
    backoff_of (number_of (field "base_s" fs)) (number_of (field "factor" fs))
      (number_of (field "cap_s" fs))

-- The object of a policy: its fields, and the one that is an object.
pub record PolicyJson : Type 0 where
  pub fields : Fields
  pub backoff : Fields

abbrev optional : Option ℕ → Number
optional none = null
optional (some n) = number n

unfoldable pub policy_to_json : Policy → PolicyJson
unfolding backoff_to_json
policy_to_json p = record {
  fields =
      ("max_attempts", number p.max_attempts)
      ∷ ("attempt_timeout_s", number p.attempt_timeout)
      ∷ ("max_concurrency", optional p.max_concurrency)
      ∷ ("max_concurrency_per_key", optional p.max_concurrency_per_key)
      ∷ [];
  backoff = backoff_to_json p.backoff;
}

abbrev policy_of : Option ℕ → Option ℕ → Option Backoff → Option ℕ → Option ℕ → Option Policy
policy_of (some attempts) (some timeout) (some backoff) limit key_limit =
    check_policy attempts (finite timeout) backoff limit key_limit
policy_of _ _ _ limit key_limit = none

-- `data.get(key)`: a missing key is None.
unfoldable pub policy_from_json : PolicyJson → Option Policy
unfolding backoff_from_json check_policy
policy_from_json j =
    policy_of (number_of (field "max_attempts" j.fields))
      (number_of (field "attempt_timeout_s" j.fields)) (backoff_from_json j.backoff)
      (number_of (field "max_concurrency" j.fields))
      (number_of (field "max_concurrency_per_key" j.fields))

backoff_round_trip : (b : Backoff) → IsValid b → backoff_from_json (backoff_to_json b) ≡ some b
unfolding backoff_from_json backoff_to_json post_init check_finite
backoff_round_trip b v = ground (arith, v.base_cap, v.factor_low, v.factor_high, v.cap_high)

optional_round_trip : (o : Option ℕ) → number_of (some (optional o)) ≡ o
optional_round_trip none = refl
optional_round_trip (some n) = refl

-- `Policy.__post_init__` has passed: the bounds of the fields and of the backoff.
pub record IsChecked (p : Policy) : Type 0 where
  pub attempts : 1 ≤ p.max_attempts
  pub timeout_low : 1000 ≤ p.attempt_timeout
  pub timeout_high : p.attempt_timeout ≤ max_duration
  pub limit : at_least_one p.max_concurrency ≡ true
  pub key_limit : at_least_one p.max_concurrency_per_key ≡ true
  pub backoff : IsValid p.backoff

policy_checked :
    (p : Policy)
    → IsChecked p
    → check_policy p.max_attempts
        (finite p.attempt_timeout)
        p.backoff
        p.max_concurrency
        p.max_concurrency_per_key
      ≡ some p
unfolding check_policy check_finite
policy_checked p c =
    let fields : (leb 1 p.max_attempts
          && at_least_one p.max_concurrency
          && at_least_one p.max_concurrency_per_key)
        ≡ true =
      ground (arith, c.attempts, c.limit, c.key_limit) in
    let time : (leb 1000 p.attempt_timeout && leb p.attempt_timeout max_duration) ≡ true =
      ground (arith, c.timeout_low, c.timeout_high) in
    if_true _ _ fields ∙ rw (time, if◌then◌else◌) refl

-- A policy that its own checks accept is read back from its JSON object as it was written.
pub policy_from_json-policy_to_json :
    (p : Policy) → IsChecked p → policy_from_json (policy_to_json p) ≡ some p
unfolding policy_from_json policy_to_json
policy_from_json-policy_to_json p c =
    ap
      (λ z.
        policy_of (some p.max_attempts) (some p.attempt_timeout) z
          (number_of (some (optional p.max_concurrency)))
          (number_of (some (optional p.max_concurrency_per_key))))
      (backoff_round_trip p.backoff c.backoff)
    ∙ ap
        (λ z.
          check_policy p.max_attempts (finite p.attempt_timeout) p.backoff z
            (number_of (some (optional p.max_concurrency_per_key))))
        (optional_round_trip p.max_concurrency)
    ∙ ap (λ z. check_policy p.max_attempts (finite p.attempt_timeout) p.backoff p.max_concurrency z)
        (optional_round_trip p.max_concurrency_per_key)
    ∙ policy_checked p c
