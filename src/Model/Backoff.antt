-- ===== src/Model/Backoff.antt =====
-- `Backoff` of src/fronta/model.py, and the delay that store.py's `_BACKOFF` computes from it.
-- `random()` is a draw in thousandths, below 1000.
use native.Mathlib.Nat.{
  one-le-pow, le-div_iff_mul-le, div-mul-le_self, mul-le-mul_left, pow-zero, pow-suc, mul_assoc,
}
use fronta.Prelude.{
  ℕ, suc, ◌<◌, refl, Bool-cases, inl, inr, ltb, ◌+◌, ◌*◌, ◌/◌, ◌^◌, ◌≤◌, min, ◌≡◌, ◌&&◌, Option,
  none, some, arith, leb, if◌then◌else◌,
}

-- 30 days
abbrev pub max_duration : ℕ
max_duration = 2592000000000

abbrev pub max_backoff_factor : ℕ
max_backoff_factor = 1000

pub record Backoff : Type 0 where
  pub base : ℕ
  pub factor : ℕ
  pub cap : ℕ

-- A Python number as the checks see it.
pub data Number : Type 0 where
  finite : ℕ → Number
  negative not_finite : Number

-- `_check_finite`, for a lower bound that is not negative.
unfoldable pub check_finite : Number → ℕ → ℕ → Option ℕ
check_finite (finite v) low high = if leb low v && leb v high then some v else none
check_finite negative low high = none
check_finite not_finite low high = none

-- `Backoff.__post_init__`: `none` is its `ValueError`.
unfoldable pub post_init : Number → Number → Number → Option Backoff
unfolding check_finite
post_init base factor cap = elim (check_finite base 0 max_duration) [
  | none ↦ none
  | some b ↦ elim (check_finite factor 100 max_backoff_factor) [
    | none ↦ none
    | some f ↦ elim (check_finite cap 0 max_duration) [
      | none ↦ none
      | some c ↦ if leb b c then some (record { base = b; factor = f; cap = c }) else none
    ]
  ]
]

-- The check constraints of the columns backoff_base_s, backoff_factor and backoff_cap_s.
pub record IsValid (b : Backoff) : Type 0 where
  pub base_cap : b.base ≤ b.cap
  pub factor_low : 100 ≤ b.factor
  pub factor_high : b.factor ≤ max_backoff_factor
  pub cap_high : b.cap ≤ max_duration

pub post_init-IsValid :
    (base factor cap : Number) (b : Backoff) → post_init base factor cap ≡ some b → IsValid b
unfolding post_init
post_init-IsValid base factor cap b h = ground arith

-- least(cap, base * power(factor, least(failures, 64)))
pub nominal : Backoff → ℕ → ℕ
nominal b failures = let n = min failures 64 in min b.cap (b.base * b.factor ^ n / 100 ^ n)

-- ... * (0.5 + 0.5 * random())
pub delay : Backoff → ℕ → ℕ → ℕ
unfolding nominal
delay b failures draw = nominal b failures * (1000 + draw) / 2000

pow-pos : (n : ℕ) → 1 ≤ 100 ^ n
pow-pos n = one-le-pow n 100 (omega arith)

grown : (x p f : ℕ) → 100 ≤ f → 1 ≤ p → x / p ≤ x * f / (p * 100)
grown x p f h k =
    (le-div_iff_mul-le (omega arith)).1
      (omega (arith, div-mul-le_self x p, mul-le-mul_left {m = 100} {n = f} x h))

unclipped : Backoff → ℕ → ℕ
unclipped b n = b.base * b.factor ^ n / 100 ^ n

unclipped_mono : (b : Backoff) (n : ℕ) → 100 ≤ b.factor → unclipped b n ≤ unclipped b (suc n)
unfolding unclipped
unclipped_mono b n h =
    rw (pow-suc b.factor n, pow-suc 100 n, ← mul_assoc)
      (grown (b.base * b.factor ^ n) (100 ^ n) b.factor h (pow-pos n))

nominal-unclipped : (b : Backoff) (n : ℕ) → nominal b n ≡ min b.cap (unclipped b (min n 64))
unfolding nominal unclipped
nominal-unclipped b n = refl

nominal_mono : (b : Backoff) (n : ℕ) → 100 ≤ b.factor → nominal b n ≤ nominal b (suc n)
nominal_mono b n h = elim (Bool-cases (ltb n 64)) [
  | inl small ↦
      let m1 : min n 64 ≡ n = ground arith in
      let m2 : min (suc n) 64 ≡ suc n = ground arith in
      rw (nominal-unclipped b n, nominal-unclipped b (suc n), m1, m2)
        (omega (arith, unclipped_mono b n h))
  | inr large ↦
      let m1 : min n 64 ≡ 64 = ground arith in
      let m2 : min (suc n) 64 ≡ 64 = ground arith in
      rw (nominal-unclipped b n, nominal-unclipped b (suc n), m1, m2) (omega arith)
]

jittered :
    (d r : ℕ) → r < 1000 → (d * (1000 + r) / 2000 ≤ d) × (d ≤ 2 * (d * (1000 + r) / 2000) + 1)
jittered d r h =
    let bound : d * r ≤ d * 999 = mul-le-mul_left d (omega arith) in (omega arith, omega arith)

nominal-zero : (b : Backoff) → b.base ≤ b.cap → nominal b 0 ≡ b.base
unfolding nominal
nominal-zero b h =
    let m : min 0 64 ≡ 0 = omega arith in rw (m, pow-zero b.factor, pow-zero 100) (omega arith)

-- For stored backoff columns: the wait behind the first failure is nominally the base, a further
-- failure never makes the nominal wait shorter, it never passes the cap (so it stays within 30 days),
-- and the jittered delay lies between half of the nominal wait, rounded down, and the whole of it.
pub retry_schedule :
    (b : Backoff) (failures draw : ℕ)
    → IsValid b
    → draw < 1000
    → (nominal b 0 ≡ b.base)
      × (nominal b failures ≤ nominal b (suc failures))
      × (nominal b failures ≤ b.cap)
      × (delay b failures draw ≤ nominal b failures)
      × (nominal b failures ≤ 2 * delay b failures draw + 1)
      × (delay b failures draw ≤ max_duration)
retry_schedule b failures draw v h =
    let (below, above) = jittered (nominal b failures) draw h in
    let capped : nominal b failures ≤ b.cap = unfold nominal in omega arith in
    let within : delay b failures draw ≤ nominal b failures = unfold delay in below in
    (
      nominal-zero b v.base_cap,
      nominal_mono b failures v.factor_low,
      capped,
      within,
      unfold delay in above,
      omega (arith, v.cap_high),
    )
