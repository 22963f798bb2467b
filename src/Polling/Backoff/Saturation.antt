-- ===== src/Polling/Backoff/Saturation.antt =====
-- The saturating operations compute the exact value, cut off at the largest int64
-- (protocol/async.go).
use relay_gateway.Common.Base.{
  ℕ, zero, suc, ◌*◌, ◌/◌, ◌^◌, ◌≤◌, ◌<◌, ◌≡◌, sym, inl, inr, min, true, arith, ltb, Bool-cases,
  if◌then◌else◌,
}
use native.Mathlib.Nat.{pow-suc, pow-zero, div-lt_iff_lt-mul, le-div_iff_mul-le}
use relay_gateway.Common.Int.{ℤ, pos, negsuc, ◌+ℤ◌, ◌-ℤ◌, ◌≤ℤ◌, ltb_ℤ}
use relay_gateway.Polling.Backoff.{max_i64, saturating_add, saturating_multiply_ms, power_loop}

one-le-pow : (n : ℕ) → 1 ≤ 2 ^ n
one-le-pow zero = omega arith
one-le-pow (suc n) = rw pow-suc (omega (arith, one-le-pow n))

power_step : (v n : ℕ) → v * 2 ^ suc n ≡ v * 2 * 2 ^ n
power_step v n = rw pow-suc (omega arith)

ltb→big : (v : ℕ) → ltb (max_i64 / 2) v ≡ true → max_i64 ≤ v * 2
ltb→big v h = ground arith

too_big : (a b : ℕ) → max_i64 ≤ a → 1 ≤ b → min (a * b) max_i64 ≡ max_i64
too_big a b h p = let big : a ≤ a * b = grind arith in omega arith

-- The exact product and power, cut off at the largest int64.
pub power_loop-min :
    (rounds value : ℕ)
    → value ≤ max_i64
    → power_loop rounds value ≡ min (value * 2 ^ rounds) max_i64
unfolding power_loop
power_loop-min zero value h = omega (arith, pow-zero 2)
power_loop-min (suc rounds) value h =
    let e : value * 2 ^ suc rounds ≡ value * 2 * 2 ^ rounds = power_step value rounds in
    elim (Bool-cases (ltb (max_i64 / 2) value)) [
      | inl big ↦
          rw (big, e)
            (sym (too_big (value * 2) (2 ^ rounds) (ltb→big value big) (one-le-pow rounds)))
      | inr fits ↦ rw (fits, e) (power_loop-min rounds (value * 2) (ground arith))
    ]

-- An integer cut off at the bounds of an int64.
abbrev pub clamp_i64 : ℤ → ℤ
clamp_i64 z =
    if ltb_ℤ (pos max_i64) z
    then pos max_i64
    else if ltb_ℤ z (negsuc max_i64)
    then negsuc max_i64
    else z

-- For int64 arguments, the sum of two durations is the exact sum cut off at the bounds of an int64.
pub saturating_add-exact :
    (a b : ℤ)
    → negsuc max_i64 ≤ℤ a
    → a ≤ℤ pos max_i64
    → negsuc max_i64 ≤ℤ b
    → b ≤ℤ pos max_i64
    → saturating_add a b ≡ clamp_i64 (a +ℤ b)
unfolding saturating_add ◌+ℤ◌ ◌-ℤ◌
saturating_add-exact a b la ha lb hb = ground arith

-- The product of two positive int64 values is exact where it fits, and else the largest int64.
pub saturating_multiply_ms-min :
    (v m : ℕ) → 0 < v → 0 < m → saturating_multiply_ms (pos v) (pos m) ≡ pos (min (v * m) max_i64)
unfolding saturating_multiply_ms
saturating_multiply_ms-min v m p q = ground (
  arith,
  λ (h : max_i64 / m < v). (div-lt_iff_lt-mul q).0 h,
  λ (h : v ≤ max_i64 / m). (le-div_iff_mul-le q).0 h,
)
