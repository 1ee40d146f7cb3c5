-- ===== src/Retry/Delay.antt =====
-- `ProviderRetry` and its two delays. A duration is its number of nanoseconds.
use mentra.Base.Results.{unwrap_or}
use mentra.Base.{ℕ, ◌-◌, ◌*◌, ◌^◌, min, max, Option, none, some, leb, if◌then◌else◌}

-- `Duration::MAX`.
abbrev pub duration_max : ℕ
duration_max = 18446744073709551615999999999

pub record ProviderRetry : Type 0 where
  pub base_delay : ℕ
  pub max_delay : ℕ
  pub retry_after_cap : ℕ

abbrev pub default_provider_retry : ProviderRetry
default_provider_retry = record {
  base_delay = 500000000;
  max_delay = 5000000000;
  retry_after_cap = 60000000000;
}

-- `checked_mul`: `none` on overflow.
abbrev pub checked_mul : ℕ → ℕ → Option ℕ
checked_mul duration factor =
    if leb (duration * factor) duration_max then some (duration * factor) else none

-- `1u32 << shift`: the shift is below the 32 bits of the factor.
abbrev pub factor : ℕ → ℕ
factor attempt = 2 ^ min (attempt - 1) (32 - 1)

unfoldable pub scheduled_delay : ProviderRetry → ℕ → ℕ
scheduled_delay retry attempt =
    min (unwrap_or (checked_mul retry.base_delay (factor attempt)) retry.max_delay) retry.max_delay

unfoldable pub delay_for : ProviderRetry → ℕ → Option ℕ → ℕ
delay_for retry attempt none = scheduled_delay retry attempt
delay_for retry attempt (some requested) =
    max (scheduled_delay retry attempt) (min requested retry.retry_after_cap)
