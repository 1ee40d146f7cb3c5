-- ===== src/Retry/Examples.antt =====
-- The delays at concrete inputs: tests of the default schedule, and the witnesses.
use mentra.Base.{◌*◌, ◌-◌, ◌^◌, ◌≤◌, ◌≡◌, ◌↔◌, ◌⊎◌, min, refl, some, arith}
use mentra.Retry.Delay.{default_provider_retry, scheduled_delay, delay_for}
use mentra.Retry.Bounds.{scheduled_delay-min, scheduled_delay-monotone, Honours, delay_for-least}

-- Half a second, one, two, four, then five.
doubles : scheduled_delay default_provider_retry 4 ≡ 4000000000
unfolding scheduled_delay
doubles = refl

held : scheduled_delay default_provider_retry 40 ≡ 5000000000
unfolding scheduled_delay
held = refl

scheduled_delay-min_example :
    scheduled_delay default_provider_retry 40
    ≡ min (default_provider_retry.base_delay * 2 ^ min (40 - 1) 31) default_provider_retry.max_delay
scheduled_delay-min_example = scheduled_delay-min default_provider_retry 40 (omega arith)

scheduled_delay-monotone_example :
    (scheduled_delay default_provider_retry 2 ≤ scheduled_delay default_provider_retry 4)
    × (scheduled_delay default_provider_retry 4 ≤ default_provider_retry.max_delay)
scheduled_delay-monotone_example =
    scheduled_delay-monotone default_provider_retry 2 4 (omega arith) (omega arith)

delay_for-least_example :
    (delay_for default_provider_retry 2 (some 3600000000000) ≤ 60000000000) ↔ (
      ((default_provider_retry.base_delay * 2 ^ min (2 - 1) 31 ≤ 60000000000)
        ⊎ (default_provider_retry.max_delay ≤ 60000000000))
      × Honours default_provider_retry (some 3600000000000) 60000000000)
delay_for-least_example =
    delay_for-least default_provider_retry 2 (some 3600000000000) 60000000000 (omega arith)
