-- ===== src/Ring/Examples.antt =====
-- The ring at concrete inputs: tests, and each theorem where its conditions hold.
use mentra.Base.{
  ℕ, zero, suc, ◌≤◌, ◌<◌, ◌≡◌, ◌≢◌, ◌⊎◌, ◌↔◌, refl, none, some, List, [], ◌∷◌, map, Bool, true,
  false, ◌&&◌, leb, ltb, arith, All, ◌+◌,
}
use mentra.Ring.Member.{GatewayRingPolicy, FailureKind, counted, immediate}
use mentra.Ring.Member
use mentra.Ring.Health.{
  Selection, RingHealth, Rotation, with_current, with_member, find_at, ready_at, next_after, select,
  failed, new,
}
use mentra.Ring.Select.{has_rested, select_first_rested, select_stays}
use mentra.Ring.Rotate.{IsOther, ready, next_after-ready}
use mentra.Ring.Failure.{Rotated, failed-Rotated, failed_once, failed-rotates_iff}
use mentra.Ring.Run.{
  Transition, selects, succeeds, fails, Names, run, Healthy, new-Healthy, run-Healthy,
}
use mentra.Ring.Threshold.{rotates_at_threshold}
use mentra.Ring.Call.{World, Outcome, answered, refused, http, classify, with_rotation}
use mentra.Ring.Ends.{Ends, with_rotation-Ends}
use mentra.Ring.Classify.{Rejects, failed-classify_iff}

abbrev brisk : GatewayRingPolicy
brisk = record { failure_threshold = 2; cooldown = some 60 }

abbrev well : Member.MemberHealth
well = record { streak = 0; probation = false; left_at = none }

abbrev resting : Member.MemberHealth
resting = record { streak = 0; probation = false; left_at = some 100 }

-- The preferred member was left at 100 and the second one answers.
abbrev drifted : RingHealth
drifted = record { current = 1; members = resting ∷ well ∷ well ∷ [] }

-- One counted failure of the current member has been seen.
abbrev shaky : RingHealth
shaky = record {
  current = 0;
  members = record { streak = 1; probation = false; left_at = none } ∷ well ∷ [];
}

abbrev shaken : RingHealth
shaken = record {
  current = 1;
  members = record { streak = 0; probation = false; left_at = some 7 } ∷ well ∷ [];
}

abbrev turned : Rotation
turned = record { from = 0; to = 1; after_failures = 2 }

shaky_fails : failed shaky 0 counted brisk 7 ≡ some (shaken, some turned)
unfolding failed next_after find_at ready_at with_current with_member
shaky_fails = refl

select_first_rested_example :
    select drifted brisk 160 ≡ some (with_current drifted 0, record { index = 0; returned = true })
select_first_rested_example =
    select_first_rested drifted brisk 60 160 0 (omega arith) refl (omega arith) refl
      (λ j lt. absurd (omega arith))

drifted_rests :
    (cooldown j : ℕ)
    → brisk.cooldown ≡ some cooldown
    → j < 1
    → has_rested drifted cooldown 130 j ≡ false
drifted_rests cooldown zero e lt = ground arith
drifted_rests cooldown (suc j) e lt = absurd (omega arith)

select_stays_example :
    select drifted brisk 130 ≡ some (drifted, record { index = 1; returned = false })
select_stays_example = select_stays drifted brisk 130 (omega arith) drifted_rests

next_after-ready_example :
    (i : ℕ) × (next_after drifted 1 brisk 130 ≡ some i)
    × IsOther 3 1 i
    × ((ready drifted 60 130 i ≡ true)
        ⊎ (((j : ℕ) → IsOther 3 1 j → ready drifted 60 130 j ≡ false) × (i ≡ 2)))
next_after-ready_example = next_after-ready drifted 1 brisk 60 130 refl (omega arith) (omega arith)

failed-Rotated_example : Rotated shaky 0 7 shaken turned
failed-Rotated_example =
    failed-Rotated shaky 0 counted brisk 7 shaken turned (omega arith) (omega arith) shaky_fails

failed_once_example : failed shaken 0 immediate brisk 8 ≡ some (shaken, none)
failed_once_example =
    failed_once shaky 0 counted immediate brisk 7 8 shaken turned (omega arith) (omega arith)
      shaky_fails

failed-rotates_iff_example :
    ((h' : RingHealth) × (r : Rotation) × (failed shaky 0 counted brisk 7 ≡ some (h', some r)))
    ↔ ((counted ≡ immediate) ⊎ ((counted ≡ counted) × ((false ≡ true) ⊎ (2 ≤ 1 + 1))))
failed-rotates_iff_example = failed-rotates_iff shaky counted brisk 7 (omega arith) (omega arith)

abbrev history : List Transition
history = selects 1 ∷ fails 0 immediate 2 ∷ succeeds 1 ∷ fails 1 counted 3 ∷ selects 90 ∷ []

run-Healthy_example : (h' : RingHealth) × (run brisk history (new 3) ≡ some h') × Healthy 3 h'
run-Healthy_example =
    run-Healthy 3 brisk history (omega arith) (tt, (tt, (omega arith, (tt, (tt, tt)))))

rotates_at_threshold_example :
    (h' : RingHealth) × (run brisk (map (λ t. fails 1 counted t) (9 ∷ [])) drifted ≡ some h')
    × (h'.current ≡ 1)
    × ((h'' : RingHealth) × (r : Rotation) × (failed h' 1 counted brisk 10 ≡ some (h'', some r))
        × (r.after_failures ≡ 2)
        × (h''.current ≢ 1))
rotates_at_threshold_example =
    rotates_at_threshold drifted brisk (9 ∷ []) 10 (omega arith) (omega arith) refl refl
      (omega arith) (omega arith)

abbrev is_4xx : ℕ → Bool
is_4xx status = leb 400 status && ltb status 500

failed-classify_iff_example :
    ((h' : RingHealth) × (r : Rotation) × (failed (new 3) 0 (classify is_4xx (http 401)) brisk 7
        ≡ some (h', some r)))
    ↔ Rejects (http 401)
unfolding new
failed-classify_iff_example =
    failed-classify_iff is_4xx (http 401) (new 3) brisk 7 (λ status. refl) (omega arith)
      (omega arith) refl (omega arith)

-- Every member refuses but the last, and another caller reports a failure meanwhile.
abbrev told : ℕ → ℕ → Outcome ℕ ℕ
told k zero = refused 401 immediate
told k (suc zero) = refused 401 immediate
told k (suc (suc i)) = answered 5

abbrev meanwhile : ℕ → ℕ → List Transition
meanwhile k (suc zero) = fails 0 counted 4 ∷ []
meanwhile k _ = []

abbrev busy : World ℕ ℕ
busy = record { op = told; clock = λ k. k; others = meanwhile }

busy_fair : (k point : ℕ) → All (Names 3) (meanwhile k point)
busy_fair k zero = tt
busy_fair k (suc zero) = (tt, tt)
busy_fair k (suc (suc p)) = tt

with_rotation-Ends_example :
    (start : RingHealth) × (first : Selection) × (select (new 3) brisk 0 ≡ some (start, first))
    × Ends busy brisk 3 busy_fair first start (with_rotation busy brisk 3 0 (new 3))
with_rotation-Ends_example =
    with_rotation-Ends busy brisk 3 busy_fair 0 (new 3) (new-Healthy 3 (omega arith))
