-- ===== src/Ring/Threshold.antt =====
-- Consecutive counted failures of the current member, and the threshold of the policy.
use mentra.Base.{
  ℕ, suc, ◌+◌, ◌≤◌, ◌<◌, ◌≡◌, ◌≢◌, ◌∙◌, refl, none, some, List, [], ◌∷◌, map, true, false, length,
  arith, sym, subst,
}
use mentra.Ring.Member.{GatewayRingPolicy, FailureKind, counted, MemberHealth}
use mentra.Ring.Member
use mentra.Ring.Health.{RingHealth, Rotation, with_member, failed, rotates}
use mentra.Ring.Lookup.{InRange, member, member-with_member, size-with_member, current-with_member}
use mentra.Ring.Failure.{
  failed_in_range, failed-eq, failed-Rotated, failed_current-rotates, rotated,
}
use mentra.Ring.Run.{fails, step, run}

-- The current member has failed `s` times in a row and is not on probation.
record Failing (size current s : ℕ) (h : RingHealth) : Type 0 where
  same_size : length h.members ≡ size
  stays : h.current ≡ current
  in_range : current < size
  steady : (member h current).probation ≡ false
  streak : (member h current).streak ≡ s

Failing-more :
    (size current s : ℕ) (policy : GatewayRingPolicy) (now : ℕ) (h : RingHealth)
    → Failing size current s h
    → suc s < Member.threshold policy
    → policy.failure_threshold ≤ Member.u32_max
    → (h' : RingHealth) × (step policy (fails current counted now) h ≡ some h')
      × Failing size current (suc s) h'
unfolding step
Failing-more size current s policy now h f lt cap =
    let m = Member.failed (member h current) in
    let quiet : failed_in_range h current counted policy now ≡ (with_member h current m, none) =
      ground arith in
    let here = member-with_member h current m current (omega (arith, f.same_size)) in
    (
      with_member h current m,
      rw (failed-eq h current counted policy now (omega (arith, f.same_size, f.stays)), quiet),
      record {
        same_size = size-with_member h current m ∙ f.same_size;
        stays = current-with_member h current m ∙ f.stays;
        in_range = f.in_range;
        steady = ground (arith, here);
        streak = ground (arith, here);
      },
    )

Failing-run :
    (size current s : ℕ) (policy : GatewayRingPolicy) (times : List ℕ) (h : RingHealth)
    → Failing size current s h
    → s + length times < Member.threshold policy
    → policy.failure_threshold ≤ Member.u32_max
    → (h' : RingHealth) × (run policy (map (λ t. fails current counted t) times) h ≡ some h')
      × Failing size current (s + length times) h'
unfolding run
Failing-run size current s policy [] h f lt cap =
    (h, refl, let e : s + 0 ≡ s = omega arith in rw e f)
Failing-run size current s policy (now ∷ times) h f lt cap =
    let (h', e, f') = Failing-more size current s policy now h f (omega arith) cap in
    let (h'', e', f'') = Failing-run size current (suc s) policy times h' f' (omega arith) cap in
    let shift : s + suc (length times) ≡ suc s + length times = omega arith in
    (h'', rw e e', rw shift f'')

last_failure :
    (policy : GatewayRingPolicy) (times : List ℕ) (last : ℕ) (h h' : RingHealth)
    → 1 < length h.members
    → policy.failure_threshold ≤ Member.u32_max
    → length times + 1 ≡ Member.threshold policy
    → Failing (length h.members) h.current (0 + length times) h'
    → (h'' : RingHealth) × (r : Rotation) × (failed h' h.current counted policy last
        ≡ some (h'', some r))
      × (r.after_failures ≡ Member.threshold policy)
      × (h''.current ≢ h.current)
last_failure policy times last h h' two cap count f =
    let ok : InRange h' = omega (arith, f.same_size, f.stays) in
    let due : rotates counted policy (Member.failed (member h' h'.current)) ≡ true =
      rw f.stays (ground arith) in
    let moves = failed_current-rotates h' counted policy last ok refl due in
    let moved =
      failed-Rotated h' h'.current counted policy last _ _ ok (omega (arith, f.same_size)) moves in
    (
      _,
      _,
      subst
          (λ i.
            failed h' i counted policy last
            ≡ some
                (rotated h' h'.current counted policy last (Member.failed (member h' h'.current))))
          f.stays moves,
      rw f.stays (ground arith),
      λ same. moved.to_other.1 (sym moved.moved ∙ same ∙ sym f.stays),
    )

-- In a ring of at least two, a current member off probation and with no failures behind it stays
-- current through one failure less than the threshold, whenever these come, and the next one makes
-- the ring rotate to another member, reporting the threshold as the streak that caused it.
pub rotates_at_threshold :
    (h : RingHealth) (policy : GatewayRingPolicy) (times : List ℕ) (last : ℕ)
    → InRange h
    → 1 < length h.members
    → (member h h.current).probation ≡ false
    → (member h h.current).streak ≡ 0
    → policy.failure_threshold ≤ Member.u32_max
    → length times + 1 ≡ Member.threshold policy
    → (h' : RingHealth) × (run policy (map (λ t. fails h.current counted t) times) h ≡ some h')
      × (h'.current ≡ h.current)
      × ((h'' : RingHealth) × (r : Rotation) × (failed h' h.current counted policy last
            ≡ some (h'', some r))
          × (r.after_failures ≡ Member.threshold policy)
          × (h''.current ≢ h.current))
rotates_at_threshold h policy times last ok two steady fresh cap count =
    let (h', e, f) =
      Failing-run (length h.members) h.current 0 policy times h
        (record { same_size = refl; stays = refl; in_range = ok; steady = steady; streak = fresh })
        (omega arith) cap in
    (h', e, f.stays, last_failure policy times last h h' two cap count f)
