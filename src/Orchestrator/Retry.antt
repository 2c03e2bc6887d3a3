-- ===== src/Orchestrator/Retry.antt =====
-- internal/orchestrator/retry.go: `retryBackoffDelay`, in nanoseconds of 64 bits. A negative base is
-- returned as it is, as 0 is; the base and the attempt are natural numbers here.
use native.Mathlib.Nat.{le-div_iff_mul-le, div-lt_iff_lt-mul}
use attention.Prelude.{
  ℕ, zero, suc, ◌-◌, ◌*◌, ◌/◌, ◌%◌, ◌^◌, ◌≤◌, ◌<◌, min, ◌≡◌, sym, subst, false, ◌||◌, leb, ltb,
  ltb→lt, ltb→le, leb→le, Bool-cases, inl, inr, arith, if◌then◌else◌,
}

-- `math.MaxInt64`.
abbrev pub max_int64 : ℕ
max_int64 = 9223372036854775807

unfoldable pub retry_backoff_delay : (base attempt : ℕ) → ℕ
retry_backoff_delay base attempt =
    let multiplier = 2 ^ (attempt - 1) in
    if leb attempt 1 || leb base 0
    then base
    else (if ltb 62 attempt
        then max_int64
        else (if ltb (max_int64 / multiplier) base
            then max_int64
            else base * multiplier % 18446744073709551616))

power-positive : (n : ℕ) → 0 < 2 ^ n
power-positive zero = omega arith
power-positive (suc n) = omega (arith, power-positive n)

saturated : (base m : ℕ) → 0 < m → max_int64 / m < base → max_int64 ≡ min (base * m) max_int64
saturated base m pos h =
    let over : max_int64 < base * m = (div-lt_iff_lt-mul pos).0 h in omega (arith, over)

exact :
    (base m : ℕ)
    → 0 < m
    → base ≤ max_int64 / m
    → base * m % 18446744073709551616 ≡ min (base * m) max_int64
exact base m pos h =
    let within : base * m ≤ max_int64 = (le-div_iff_mul-le pos).0 h in omega (arith, within)

-- For a base in the range of the type and an attempt up to 62 the delay doubles with each attempt
-- and stops at the greatest number of 64 bits, without an overflow.
pub retry_backoff_delay-min :
    (base attempt : ℕ)
    → base ≤ max_int64
    → attempt ≤ 62
    → retry_backoff_delay base attempt ≡ min (base * 2 ^ (attempt - 1)) max_int64
unfolding retry_backoff_delay
retry_backoff_delay-min base attempt range few = elim (Bool-cases (leb attempt 1)) [
  | inl first ↦
      let early : attempt ≤ 1 = leb→le attempt 1 first in
      let e : attempt - 1 ≡ 0 = omega arith in
      rw first (subst (λ n. base ≡ min (base * 2 ^ n) max_int64) (sym e) (omega (arith, range)))
  | inr later ↦ elim (Bool-cases (leb base 0)) [
    | inl none' ↦
        let small : base ≤ 0 = leb→le base 0 none' in
        let e : base ≡ 0 = omega arith in
        rw (later, none')
          (subst (λ b. b ≡ min (b * 2 ^ (attempt - 1)) max_int64) (sym e) (omega arith))
    | inr real ↦ rw (later, real, in_range) cut
  ]
]
  where
    m : ℕ
    m = 2 ^ (attempt - 1)

    in_range : ltb 62 attempt ≡ false
    in_range = ground arith

    cut :
        (if ltb (max_int64 / m) base then max_int64 else base * m % 18446744073709551616)
        ≡ min (base * m) max_int64
    cut = elim (Bool-cases (ltb (max_int64 / m) base)) [
      | inl over ↦
          rw over
            (saturated base m (power-positive (attempt - 1)) (ltb→lt (max_int64 / m) base over))
      | inr fits ↦
          rw fits (exact base m (power-positive (attempt - 1)) (ltb→le (max_int64 / m) base fits))
    ]
