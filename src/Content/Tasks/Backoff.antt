-- ===== src/Content/Tasks/Backoff.antt =====
-- The delay before a retry, in `ScheduleRetry` of internal/respository/task.go: exponential, with
-- jitter, capped at five minutes.
use lets_go.Prelude.{
  ℕ, zero, suc, ◌+◌, ◌-◌, ◌*◌, ◌/◌, ◌^◌, ◌≤◌, ◌<◌, ◌≡◌, arith, ltb, ◌==◌, inl, inr, Bool-cases,
  if◌then◌else◌, min,
}
use native.Mathlib.Nat.{pow-suc}
use lets_go.Content.Delivery.{Duration}

-- Nanoseconds. The durations below stay under 2 * five_minutes, far from the bounds of int64.
abbrev pub second : Duration
second = 1_000_000_000

abbrev pub five_minutes : Duration
five_minutes = 5 * 60 * second

-- `for i := uint64(1); i < attempts && delay < 5*time.Minute; i++ { delay *= 2 }`, over the rounds
-- that are left.
doubled : ℕ → Duration → Duration
doubled zero delay = delay
doubled (suc rounds) delay =
    let rest = doubled rounds (delay * 2) in if ltb delay five_minutes then rest else delay

capped : Duration → Duration
capped delay = if ltb five_minutes delay then five_minutes else delay

-- `base`, or one second where it is not positive.
abbrev pub base_delay : Duration → Duration
base_delay base = if base == 0 then second else base

-- `rand.Int64N(n)` is `jitter n`, below n.
unfoldable pub backoff : (ℕ → ℕ) → Duration → ℕ → Duration
unfolding doubled capped
backoff jitter base attempts =
    let delay = capped (doubled (attempts - 1) (base_delay base)) in
    delay / 2 + jitter (delay / 2 + 1)

one-le-pow : (n : ℕ) → 1 ≤ 2 ^ n
one-le-pow zero = omega arith
one-le-pow (suc n) = rw (pow-suc 2 n) (omega (arith, one-le-pow n))

min_of_le : (d n : ℕ) → five_minutes ≤ d → five_minutes ≡ min (d * 2 ^ n) five_minutes
min_of_le d n h = grind (arith, one-le-pow n)

capped-doubled : (n : ℕ) (d : Duration) → capped (doubled n d) ≡ min (d * 2 ^ n) five_minutes
unfolding capped doubled
capped-doubled zero d = ground arith
capped-doubled (suc n) d = elim (Bool-cases (ltb d five_minutes)) [
  | inl more ↦ rw (more, pow-suc 2 n) (omega (arith, capped-doubled n (d * 2)))
  | inr enough ↦ rw enough (ground (arith, min_of_le d (suc n) (ground arith)))
]

jittered_bounds :
    (jitter : ℕ → ℕ) (d : Duration)
    → ((n : ℕ) → 0 < n → jitter n < n)
    → (d / 2 ≤ d / 2 + jitter (d / 2 + 1)) × (d / 2 + jitter (d / 2 + 1) ≤ d)
jittered_bounds jitter d random =
    let r : jitter (d / 2 + 1) < d / 2 + 1 = random (d / 2 + 1) (omega arith) in
    (omega arith, omega arith)

-- The delay lies between half of min(base * 2^(attempts - 1), five minutes) and the whole of it,
-- whatever the jitter, so it never passes five minutes.
pub backoff_bounds :
    (jitter : ℕ → ℕ) (base : Duration) (attempts : ℕ)
    → ((n : ℕ) → 0 < n → jitter n < n)
    → let delay = min (base_delay base * 2 ^ (attempts - 1)) five_minutes in
      (delay / 2 ≤ backoff jitter base attempts) × (backoff jitter base attempts ≤ delay)
unfolding backoff
backoff_bounds jitter base attempts random =
    rw (← capped-doubled (attempts - 1) (base_delay base)) (jittered_bounds jitter _ random)
