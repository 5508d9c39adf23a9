-- ===== src/Errors.antt =====
-- src/fronta/errors.py: the exceptions as values, without their messages, and what a function that
-- may raise one returns.
use fronta.Prelude.{◌≡◌, refl, ◌⊎◌, inl, inr, Bool, true, false}

pub data Error : Type 0 where
  configuration_error payload_too_large progress_too_large input_validation_error : Error
  result_serialization_error non_retryable_error unknown_task_type task_not_found : Error
  not_cancellable invalid_input sandbox_error not_requeueable timeout_error : Error

pub data Result {ℓ} (Value : Type ℓ) : Type ℓ where
  err : Error → Result Value
  ok : Value → Result Value

-- No exception was raised.
abbrev pub is_ok {ℓ} : {Value : Type ℓ} → Result Value → Bool
is_ok (err raised) = false
is_ok (ok value) = true

-- `if not passed: raise error`
abbrev pub guard : Bool → Error → Result (Unit {0})
guard false error = err error
guard true error = ok tt

infixl 5 ◌>>=◌ ◌>>◌
abbrev pub ◌>>=◌ {ℓ κ} :
    {Value : Type ℓ} {Other : Type κ} → Result Value → (Value → Result Other) → Result Other
err raised >>= next = err raised
ok value >>= next = next value

abbrev pub ◌>>◌ {κ} : {Other : Type κ} → Result (Unit {0}) → Result Other → Result Other
check >> next = check >>= λ _. next

pub ok-injective {ℓ} : {A : Type ℓ} {a b : A} → ok a ≡ ok b → a ≡ b
ok-injective h = cc

pub Result-cases {ℓ} :
    {A : Type ℓ} (r : Result A) → ((a : A) × (r ≡ ok a)) ⊎ ((e : Error) × (r ≡ err e))
Result-cases (ok a) = inl (a, refl)
Result-cases (err e) = inr (e, refl)
