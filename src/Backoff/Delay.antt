-- ===== src/Backoff/Delay.antt =====
-- network/components/backoff/backoff.go: a `time.Duration` counts nanoseconds. The floating-point
-- step `min * pow(interval * (1 - jitter), attempt)` is the parameter `grow`: `none` where it passes
-- `maxInt64`, and otherwise its conversion to a duration.
use carrier.Prelude.{
  ℕ, zero, suc, ◌≤◌, ◌<◌, arith, Bool, Option, none, some, ltb, leb, if◌then◌else◌,
}
use carrier.Peer.Identity.{ℤ, pos, negsuc}

-- The fields that the integer part of the code reads.
pub record Backoff : Type 0 where
  pub attempt : ℕ
  pub max_attempts : ℤ
  pub min_interval : ℤ
  pub max_interval : ℤ

abbrev pub default_max_attempts : ℤ
default_max_attempts = pos 5

abbrev pub default_min_interval : ℕ
default_min_interval = 1000000000

abbrev pub default_max_interval : ℕ
default_max_interval = 16000000000

unfoldable pub default_backoff : Backoff
default_backoff = record {
  attempt = 0;
  max_attempts = default_max_attempts;
  min_interval = pos default_min_interval;
  max_interval = pos default_max_interval;
}

-- `NewBackoff(WithBackoffInterval(s))`: the option sets the largest interval.
unfoldable pub new_backoff : ℤ → Backoff
unfolding default_backoff
new_backoff s = record default_backoff { max_interval = s }

-- `if d <= 0 { d = default }`
abbrev pub positive_or : ℤ → ℕ → ℕ
positive_or (pos zero) default = default
positive_or (pos (suc n)) default = suc n
positive_or (negsuc n) default = default

abbrev pub least_interval : Backoff → ℕ
least_interval b = positive_or b.min_interval default_min_interval

abbrev pub greatest_interval : Backoff → ℕ
greatest_interval b = positive_or b.max_interval default_max_interval

unfoldable pub clamp : ℕ → ℕ → ℤ → ℕ
clamp low high (negsuc n) = low
clamp low high (pos d) = if ltb d low then low else if ltb high d then high else d

-- `math.Max(0, MaxAttempts)`
abbrev pub attempt_limit : ℤ → ℕ
attempt_limit (pos n) = n
attempt_limit (negsuc n) = 0

unfoldable pub timeout_exceeded : Backoff → Bool
timeout_exceeded b = leb (attempt_limit b.max_attempts) b.attempt

unfoldable pub reset : Backoff → Backoff
reset b = record b { attempt = 0 }

module _ (grow : ℕ → ℕ → Option ℤ) where
  unfoldable pub for_attempt : Backoff → ℕ → ℕ
  unfolding clamp
  for_attempt b attempt =
      if leb (greatest_interval b) (least_interval b)
      then greatest_interval b
      else elim (grow (least_interval b) attempt) [
        | none ↦ greatest_interval b
        | some dur ↦ clamp (least_interval b) (greatest_interval b) dur
      ]

  unfoldable pub next_duration : Backoff → ℕ × Backoff
  unfolding for_attempt
  next_duration b = (for_attempt b b.attempt, record b { attempt = suc b.attempt })

  -- Every delay is positive and at most the largest interval, and it is at least the smallest one
  -- unless that one is larger: whatever the intervals are set to, and whatever the floating-point
  -- step gives.
  pub for_attempt_bounded :
      (b : Backoff) (attempt : ℕ)
      → (0 < for_attempt b attempt)
        × (for_attempt b attempt ≤ greatest_interval b)
        × (least_interval b ≤ greatest_interval b → least_interval b ≤ for_attempt b attempt)
  unfolding for_attempt clamp
  for_attempt_bounded b attempt = ground (arith, positive b.min_interval, positive b.max_interval)
    where
      positive :
          (d : ℤ)
          → (0 < positive_or d default_min_interval) × (0 < positive_or d default_max_interval)
      positive (pos zero) = (omega arith, omega arith)
      positive (pos (suc n)) = (omega arith, omega arith)
      positive (negsuc n) = (omega arith, omega arith)
