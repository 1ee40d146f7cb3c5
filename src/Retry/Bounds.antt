-- ===== src/Retry/Bounds.antt =====
-- The schedule is the doubling up to its ceiling, whatever overflows, and the bounds of a wait.
use mentra.Base.{
  ℕ, ◌-◌, ◌*◌, ◌^◌, ◌≤◌, ◌<◌, ◌≡◌, ◌↔◌, ◌⊎◌, min, refl, Option, none, some, Bool-cases, inl, inr,
  leb, if◌then◌else◌, arith,
}
use native.Mathlib.Nat.{mul-le-mul_left, pow-le-pow_right}
use mentra.Base.Results.{unwrap_or}
use mentra.Retry.Delay.{ProviderRetry, duration_max, factor, scheduled_delay, delay_for}

ceiling :
    (product top : ℕ)
    → top ≤ duration_max
    → min (unwrap_or (if leb product duration_max then some product else none) top) top
      ≡ min product top
ceiling product top fits = elim (Bool-cases (leb product duration_max)) [
  | inl below ↦ rw below refl
  | inr above ↦ let over : duration_max < product = ground arith in rw above (omega arith)
]

-- Overflow does not show: when the ceiling is a duration, the delay before the next attempt is the
-- base doubled for each attempt after the first, 31 times at most, up to the ceiling.
pub scheduled_delay-min :
    (retry : ProviderRetry) (attempt : ℕ)
    → retry.max_delay ≤ duration_max
    → scheduled_delay retry attempt
      ≡ min (retry.base_delay * 2 ^ min (attempt - 1) 31) retry.max_delay
unfolding scheduled_delay
scheduled_delay-min retry attempt fits =
    ceiling (retry.base_delay * factor attempt) retry.max_delay fits

-- The schedule never gets shorter, and it never passes its ceiling.
pub scheduled_delay-monotone :
    (retry : ProviderRetry) (attempt later : ℕ)
    → retry.max_delay ≤ duration_max
    → attempt ≤ later
    → (scheduled_delay retry attempt ≤ scheduled_delay retry later)
      × (scheduled_delay retry later ≤ retry.max_delay)
scheduled_delay-monotone retry attempt later fits le =
    let a = scheduled_delay-min retry attempt fits in
    let b = scheduled_delay-min retry later fits in
    let powers : factor attempt ≤ factor later = pow-le-pow_right (omega arith) (omega arith) in
    let products : retry.base_delay * factor attempt ≤ retry.base_delay * factor later =
      mul-le-mul_left retry.base_delay powers in
    (rw (a, b) (omega (arith, products)), rw b (omega arith))

below_min : (a b wait : ℕ) → (min a b ≤ wait) ↔ ((a ≤ wait) ⊎ (b ≤ wait))
below_min a b wait = elim (Bool-cases (leb a wait)) [
  | inl fits ↦ (λ le. inl (ground arith), λ why. ground arith)
  | inr over ↦
      (λ le. inr (ground arith), λ why. elim why [ inl l ↦ omega arith | inr r ↦ omega arith ])
]

-- A wait that the provider's request does not pass: it is long enough for the request or for the
-- cap. Without a request every wait is.
abbrev pub Honours : ProviderRetry → Option ℕ → ℕ → Type 0
Honours retry none wait = Unit
Honours retry (some requested) wait = (requested ≤ wait) ⊎ (retry.retry_after_cap ≤ wait)

-- The wait before the next attempt is the shortest that keeps to the schedule, the doubled base up
-- to its ceiling, and to what the provider asked for, if it asked, up to the cap: a wait is at least
-- as long exactly if it keeps to both. The ceiling must be a duration.
pub delay_for-least :
    (retry : ProviderRetry) (attempt : ℕ) (retry_after : Option ℕ) (wait : ℕ)
    → retry.max_delay ≤ duration_max
    → (delay_for retry attempt retry_after ≤ wait) ↔ (
        ((retry.base_delay * 2 ^ min (attempt - 1) 31 ≤ wait) ⊎ (retry.max_delay ≤ wait))
        × Honours retry retry_after wait)
unfolding delay_for
delay_for-least retry attempt none wait fits =
    let (into, out) =
      below_min (retry.base_delay * 2 ^ min (attempt - 1) 31) retry.max_delay wait in
    rw (scheduled_delay-min retry attempt fits) (λ le. (into le, tt), λ (schedule, _). out schedule)
delay_for-least retry attempt (some requested) wait fits =
    let (into, out) =
      below_min (retry.base_delay * 2 ^ min (attempt - 1) 31) retry.max_delay wait in
    let (into', out') = below_min requested retry.retry_after_cap wait in
    rw (scheduled_delay-min retry attempt fits) (
      (λ le. (into (omega arith), into' (omega arith))),
      λ (schedule, honours). let a = out schedule in let b = out' honours in omega arith,
    )
