-- ===== src/Ring/Member.antt =====
-- The policy, the kinds of failure and the standing of one member (gateway_ring/health.rs).
-- An `Instant` and a `Duration` are numbers of ticks; a `u32` is a number up to `u32_max`.
use mentra.Base.{ℕ, ◌+◌, ◌-◌, min, Option, none, some, Bool, true, false, leb, ◌==◌, if◌then◌else◌}

abbrev pub u32_max : ℕ
u32_max = 4294967295

pub record GatewayRingPolicy : Type 0 where
  pub failure_threshold : ℕ
  pub cooldown : Option ℕ

abbrev pub default_failure_threshold : ℕ
default_failure_threshold = 5

-- Sixty seconds, in nanoseconds.
abbrev pub default_cooldown : ℕ
default_cooldown = 60000000000

abbrev pub default_policy : GatewayRingPolicy
default_policy = record {
  failure_threshold = default_failure_threshold;
  cooldown = some default_cooldown;
}

abbrev pub sticky : GatewayRingPolicy
sticky = record { failure_threshold = default_failure_threshold; cooldown = none }

abbrev pub with_failure_threshold : GatewayRingPolicy → ℕ → GatewayRingPolicy
with_failure_threshold p failure_threshold = record p { failure_threshold = failure_threshold }

abbrev pub with_cooldown : GatewayRingPolicy → Option ℕ → GatewayRingPolicy
with_cooldown p cooldown = record p { cooldown = cooldown }

abbrev pub threshold : GatewayRingPolicy → ℕ
threshold p = if p.failure_threshold == 0 then 1 else p.failure_threshold

pub data FailureKind : Type 0 where
  counted immediate not_the_members_fault : FailureKind

pub record MemberHealth : Type 0 where
  pub streak : ℕ
  pub probation : Bool
  pub left_at : Option ℕ

abbrev pub default : MemberHealth
default = record { streak = 0; probation = false; left_at = none }

abbrev pub succeeded : MemberHealth → MemberHealth
succeeded m = default

-- `streak.saturating_add(1)`.
abbrev pub failed : MemberHealth → MemberHealth
failed m = record m { streak = min (m.streak + 1) u32_max }

abbrev pub left : MemberHealth → ℕ → MemberHealth
left m now = record { streak = 0; probation = false; left_at = some now }

abbrev pub is_some {ℓ} : {A : Type ℓ} → Option A → Bool
is_some none = false
is_some (some a) = true

abbrev pub returned_to : MemberHealth → MemberHealth
returned_to m = record { streak = 0; probation = is_some m.left_at; left_at = none }

-- `saturating_duration_since` is 0 where `now` is earlier: the truncated subtraction.
abbrev pub rested_for : MemberHealth → ℕ → ℕ → Bool
rested_for m cooldown now = elim m.left_at [
  | none ↦ false
  | some left_at ↦ leb cooldown (now - left_at)
]
