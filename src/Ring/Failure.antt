-- ===== src/Ring/Failure.antt =====
-- What a failed call does to the ring: `RingHealth::failed`.
use mentra.Base.{
  ℕ, ◌+◌, ◌≤◌, ◌<◌, ◌≡◌, ◌≢◌, ap, refl, ◌∙◌, Option, none, some, true, false, not, ◌||◌, ◌==◌,
  length, arith, Bool-cases, ◌⊎◌, ◌↔◌, inl, inr, if◌then◌else◌, ==_refl, subst, sym,
}
use mathlib.Core.Option.{some-injective}
use mentra.Ring.Member.{
  GatewayRingPolicy, FailureKind, counted, immediate, not_the_members_fault, MemberHealth,
}
use mentra.Ring.Member
use mentra.Ring.Health.{
  RingHealth, Rotation, with_current, with_member, rotates, after, is_not_theirs, count_failure,
  failed,
}
use mentra.Ring.Lookup.{
  InRange, member, get_elem?-member_or, member-with_current, member-with_member, size-with_member,
  size-with_current,
}
use mentra.Ring.Rotate.{IsOther, next_member, next_after-next_member, next_member-IsOther}

-- The ring after it left `index`, whose standing was `m`.
abbrev pub rotated :
    RingHealth
    → ℕ
    → FailureKind
    → GatewayRingPolicy
    → ℕ
    → MemberHealth
    → RingHealth × Option Rotation
rotated h index kind policy now m = (
  with_current (with_member h index (Member.left m now)) (next_member h index policy.cooldown now),
  some (record {
    from = index;
    to = next_member h index policy.cooldown now;
    after_failures = after kind m;
  }),
)

-- `failed` with its lookups resolved.
abbrev pub failed_in_range :
    RingHealth → ℕ → FailureKind → GatewayRingPolicy → ℕ → RingHealth × Option Rotation
failed_in_range h index kind policy now =
    if not (index == h.current) || is_not_theirs kind
    then (h, none)
    else (if rotates kind policy (Member.failed (member h index))
        then rotated h index kind policy now (Member.failed (member h index))
        else (with_member h index (Member.failed (member h index)), none))

count_failure-eq :
    (h : RingHealth) (index : ℕ) (kind : FailureKind) (policy : GatewayRingPolicy) (now : ℕ)
    (m : MemberHealth)
    → 0 < length h.members
    → count_failure h index kind policy now m
      ≡ some (
          if rotates kind policy m
          then rotated h index kind policy now m
          else (with_member h index m, none))
unfolding count_failure
count_failure-eq h index kind policy now m ok = elim (Bool-cases (rotates kind policy m)) [
  | inl e ↦ rw e (rw (next_after-next_member h index policy now ok))
  | inr e ↦ rw e
]

-- A failure never panics on a ring whose current member exists.
pub failed-eq :
    (h : RingHealth) (index : ℕ) (kind : FailureKind) (policy : GatewayRingPolicy) (now : ℕ)
    → InRange h
    → failed h index kind policy now ≡ some (failed_in_range h index kind policy now)
unfolding failed
failed-eq h index kind policy now ok =
    elim (Bool-cases (not (index == h.current) || is_not_theirs kind)) [
      | inl e ↦ rw e
      | inr e ↦
          let here : index < length h.members = ground arith in
          rw (e, get_elem?-member_or h.members index here)
            (count_failure-eq h index kind policy now (Member.failed (member h index))
              (omega arith))
    ]

-- What a rotation leaves behind, read off the ring before and after it.
pub record Rotated (h : RingHealth) (index now : ℕ) (h' : RingHealth) (r : Rotation) : Type 0 where
  pub was_current : index ≡ h.current
  pub from_it : r.from ≡ index
  pub to_other : IsOther (length h.members) index r.to
  pub moved : h'.current ≡ r.to
  pub same_size : length h'.members ≡ length h.members
  -- The member left behind: no failures count, and it rests from now on.
  pub left_streak : (member h' index).streak ≡ 0
  pub left_probation : (member h' index).probation ≡ false
  pub left_since : (member h' index).left_at ≡ some now
  -- The member taken up: on probation exactly if it had been left.
  pub taken_streak : (member h' r.to).streak ≡ 0
  pub taken_probation :
      ((member h' r.to).probation ≡ true) ↔ ((t : ℕ) × ((member h r.to).left_at ≡ some t))
  pub taken_back : (member h' r.to).left_at ≡ none
  pub others_kept :
      (j : ℕ) → IsOther (length h.members) index j → j ≢ r.to → member h' j ≡ member h j

is_some_iff : (o : Option ℕ) → (Member.is_some o ≡ true) ↔ ((t : ℕ) × (o ≡ some t))
is_some_iff none = (λ e. cc, λ (t, e). cc)
is_some_iff (some t) = (λ e. (t, refl), λ _. refl)

module _ (h : RingHealth) (index now to : ℕ) (other : IsOther (length h.members) index to)
    (lt : index < length h.members) where
  gone : RingHealth
  gone = with_current (with_member h index (Member.left (member h index) now)) to

  member-gone :
      (j : ℕ)
      → j < length h.members
      → member gone j ≡ (
          if j == to
          then Member.returned_to
              (if j == index then Member.left (member h index) now else member h j)
          else (if j == index then Member.left (member h index) now else member h j))
  unfolding gone
  member-gone j b = rw (
    member-with_current (with_member h index (Member.left (member h index) now)) to j
        (omega (arith, size-with_member h index (Member.left (member h index) now))),
    member-with_member h index (Member.left (member h index) now) j b,
  )

  size-gone : length gone.members ≡ length h.members
  unfolding gone
  size-gone =
      size-with_current (with_member h index (Member.left (member h index) now)) to
      ∙ size-with_member h index (Member.left (member h index) now)

  current-gone : gone.current ≡ to
  unfolding gone with_current
  current-gone = refl

  was_left : member gone index ≡ Member.left (member h index) now
  was_left = ground (arith, member-gone index lt)

  was_taken : member gone to ≡ Member.returned_to (member h to)
  was_taken = ground (arith, member-gone to other.0)

  gone-Rotated :
      (n : ℕ)
      → index ≡ h.current
      → Rotated h index now gone (record { from = index; to = to; after_failures = n })
  gone-Rotated n cur = record {
    was_current = cur;
    from_it = refl;
    to_other = other;
    moved = current-gone;
    same_size = size-gone;
    left_streak = ap (λ m. m.streak) was_left;
    left_probation = ap (λ m. m.probation) was_left;
    left_since = ap (λ m. m.left_at) was_left;
    taken_streak = ap (λ m. m.streak) was_taken;
    taken_probation =
        subst (λ m. (m.probation ≡ true) ↔ ((t : ℕ) × ((member h to).left_at ≡ some t)))
          (sym was_taken) (is_some_iff (member h to).left_at);
    taken_back = ap (λ m. m.left_at) was_taken;
    others_kept = λ j b ne. ground (arith, member-gone j b.0);
  }

-- The rotation, if there was one.
abbrev RotatedBy : RingHealth → ℕ → ℕ → RingHealth × Option Rotation → Type 0
RotatedBy h index now (h', some r) = Rotated h index now h' r
RotatedBy h index now (h', none) = Unit {0}

failed_in_range-RotatedBy :
    (h : RingHealth) (index : ℕ) (kind : FailureKind) (policy : GatewayRingPolicy) (now : ℕ)
    → InRange h
    → 1 < length h.members
    → RotatedBy h index now (failed_in_range h index kind policy now)
unfolding gone
failed_in_range-RotatedBy h index kind policy now ok two =
    elim (Bool-cases (not (index == h.current) || is_not_theirs kind)) [
      | inl t ↦ rw t tt
      | inr f ↦ elim (Bool-cases (rotates kind policy (Member.failed (member h index)))) [
        | inl go ↦
            let lt : index < length h.members = ground arith in
            rw (f, go)
              (gone-Rotated h index now (next_member h index policy.cooldown now)
                (next_member-IsOther h index policy.cooldown now lt two) lt
                (after kind (Member.failed (member h index))) (ground arith))
        | inr stay ↦ rw (f, stay) tt
      ]
    ]

-- In a ring of at least two, a failure that rotates is one of the current member; the ring moves to
-- another member, leaves the failed one behind with no failures counted and the time it left, and
-- takes the next one up with no failures counted, on probation exactly if it had been left before
-- and not left any more. Every other member keeps its standing.
pub failed-Rotated :
    (h : RingHealth) (index : ℕ) (kind : FailureKind) (policy : GatewayRingPolicy) (now : ℕ)
    (h' : RingHealth) (r : Rotation)
    → InRange h
    → 1 < length h.members
    → failed h index kind policy now ≡ some (h', some r)
    → Rotated h index now h' r
failed-Rotated h index kind policy now h' r ok two e =
    subst (RotatedBy h index now)
      (some-injective _ _ (sym (failed-eq h index kind policy now ok) ∙ e))
      (failed_in_range-RotatedBy h index kind policy now ok two)

-- One outage rotates the ring once: whatever failure another caller reports of the member that the
-- ring just left, the ring stays as it is and does not rotate again.
pub failed_once :
    (h : RingHealth) (index : ℕ) (kind later_kind : FailureKind) (policy : GatewayRingPolicy)
    (now later : ℕ) (h' : RingHealth) (r : Rotation)
    → InRange h
    → 1 < length h.members
    → failed h index kind policy now ≡ some (h', some r)
    → failed h' index later_kind policy later ≡ some (h', none)
unfolding failed
failed_once h index kind later_kind policy now later h' r ok two e =
    ground (arith, failed-Rotated h index kind policy now h' r ok two e)

pub failed_current-rotates :
    (h : RingHealth) (kind : FailureKind) (policy : GatewayRingPolicy) (now : ℕ)
    → InRange h
    → is_not_theirs kind ≡ false
    → rotates kind policy (Member.failed (member h h.current)) ≡ true
    → failed h h.current kind policy now
      ≡ some (rotated h h.current kind policy now (Member.failed (member h h.current)))
failed_current-rotates h kind policy now ok theirs go =
    failed-eq h h.current kind policy now ok ∙ ap some (rw (==_refl h.current, theirs, go))

failed_current-stays :
    (h : RingHealth) (kind : FailureKind) (policy : GatewayRingPolicy) (now : ℕ)
    → InRange h
    → rotates kind policy (Member.failed (member h h.current)) ≡ false
    → (h' : RingHealth) (r : Rotation) → failed h h.current kind policy now ≢ some (h', some r)
failed_current-stays h kind policy now ok stay h' r e =
    ground (arith, failed-eq h h.current kind policy now ok)

-- Whether a failure of the current member makes the ring leave it: a rejection always, a counted
-- failure on probation or at the threshold, the request's own fault never. The saturation of the
-- streak plays no part.
pub failed-rotates_iff :
    (h : RingHealth) (kind : FailureKind) (policy : GatewayRingPolicy) (now : ℕ)
    → InRange h
    → policy.failure_threshold ≤ Member.u32_max
    → ((h' : RingHealth) × (r : Rotation) × (failed h h.current kind policy now
          ≡ some (h', some r)))
      ↔ ((kind ≡ immediate)
          ⊎ ((kind ≡ counted)
              × (((member h h.current).probation ≡ true)
                  ⊎ (Member.threshold policy ≤ (member h h.current).streak + 1))))
failed-rotates_iff h immediate policy now ok cap =
    (λ _. inl refl, λ _. (_, _, failed_current-rotates h immediate policy now ok refl refl))
failed-rotates_iff h counted policy now ok cap =
    elim (Bool-cases (rotates counted policy (Member.failed (member h h.current)))) [
      | inl go ↦ (
        λ _. inr (refl, ground arith),
        λ _. (_, _, failed_current-rotates h counted policy now ok refl go),
      )
      | inr stay ↦ (
        λ (h', r, e). absurd (failed_current-stays h counted policy now ok stay h' r e),
        λ why. absurd (ground arith),
      )
    ]
failed-rotates_iff h not_the_members_fault policy now ok cap = (
  λ (h', r, e). absurd (failed_current-stays h not_the_members_fault policy now ok refl h' r e),
  λ why. absurd (ground arith),
)
