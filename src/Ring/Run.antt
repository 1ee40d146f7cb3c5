-- ===== src/Ring/Run.antt =====
-- Any history of the shared health: each caller applies one transition at a time, under the lock.
use mentra.Base.{
  ℕ, zero, suc, ◌≤◌, ◌<◌, ◌≡◌, ◌∙◌, refl, Option, none, some, List, [], ◌∷◌, true, false, not, ◌||◌,
  ◌==◌, length, length-replicate, arith, Bool-cases, inl, inr, All, replicate, sym,
}
use mentra.Base.Partial.{◌>>=◌}
use mathlib.Core.Option
use mentra.Ring.Member.{
  GatewayRingPolicy, FailureKind, counted, immediate, not_the_members_fault, MemberHealth,
}
use mentra.Ring.Member
use mentra.Ring.Health.{
  RingHealth, Selection, with_current, with_member, rested_before, select, succeeded, failed, new,
  rotates, is_not_theirs,
}
use mentra.Ring.Lookup
use mentra.Ring.Lookup.{
  current-with_current, current-with_member, InRange, member, get_elem?-member_or,
  member-with_current, member-with_member, size-with_member, size-with_current, Below,
}
use mentra.Ring.Select.{rested_before_total}
use mentra.Ring.Rotate.{next_member-InRange}
use mentra.Ring.Failure.{failed_in_range, failed-eq}

-- One use of the ring: a selection, a success or a failure reported of a member, with the time.
pub data Transition : Type 0 where
  selects : ℕ → Transition
  succeeds : ℕ → Transition
  fails : ℕ → FailureKind → ℕ → Transition

unfoldable pub step : GatewayRingPolicy → Transition → RingHealth → Option RingHealth
step policy (selects now) h = Option.map (λ r. r.0) (select h policy now)
step policy (succeeds index) h = succeeded h index
step policy (fails index kind now) h = Option.map (λ r. r.0) (failed h index kind policy now)

unfoldable pub run : GatewayRingPolicy → List Transition → RingHealth → Option RingHealth
run policy [] h = some h
run policy (t ∷ ts) h = step policy t h >>= run policy ts

-- A caller only reports members of the ring.
abbrev pub Names : ℕ → Transition → Type 0
Names n (selects now) = Unit {0}
Names n (succeeds index) = index < n
Names n (fails index kind now) = Unit {0}

-- The ring has `n` members, the current one is among them, and it is not marked as left.
pub record Healthy (n : ℕ) (h : RingHealth) : Type 0 where
  pub size : length h.members ≡ n
  pub in_range : h.current < n
  pub answering : (member h h.current).left_at ≡ none
  pub capped : (i : ℕ) → i < n → (member h i).streak ≤ Member.u32_max

member_or-replicate : (n i : ℕ) → Lookup.member_or (replicate n Member.default) i ≡ Member.default
member_or-replicate zero i = refl
member_or-replicate (suc n) zero = refl
member_or-replicate (suc n) (suc i) = member_or-replicate n i

pub new-Healthy : (n : ℕ) → 0 < n → Healthy n (new n)
unfolding new
new-Healthy n pos = record {
  size = length-replicate n Member.default;
  in_range = pos;
  answering = rw (member_or-replicate n 0);
  capped = λ i lt. rw (member_or-replicate n i) (omega arith);
}

-- The part of it that the members alone decide.
abbrev Sized : ℕ → RingHealth → Type 0
Sized n h = (length h.members ≡ n) × ((i : ℕ) → i < n → (member h i).streak ≤ Member.u32_max)

with_current-Healthy :
    (n : ℕ) (h : RingHealth) (i : ℕ) → Sized n h → i < n → Healthy n (with_current h i)
with_current-Healthy n h i (size, capped) lt = record {
  size = size-with_current h i ∙ size;
  in_range = rw (current-with_current h i) lt;
  answering =
      rw (current-with_current h i) (ground (arith, member-with_current h i i (omega arith)));
  capped = λ j b. ground (arith, member-with_current h i j (omega arith), capped j);
}

with_member-Sized :
    (n : ℕ) (h : RingHealth) (i : ℕ) (m : MemberHealth)
    → Sized n h
    → m.streak ≤ Member.u32_max
    → Sized n (with_member h i m)
with_member-Sized n h i m (size, capped) ok = (
  size-with_member h i m ∙ size,
  λ j b. ground (arith, member-with_member h i m j (omega arith), capped j),
)

with_member-Healthy :
    (n : ℕ) (h : RingHealth) (i : ℕ) (m : MemberHealth)
    → Healthy n h
    → m.streak ≤ Member.u32_max
    → (i ≡ h.current → m.left_at ≡ none)
    → Healthy n (with_member h i m)
with_member-Healthy n h i m v ok kept = record {
  size = (with_member-Sized n h i m (v.size, v.capped) ok).0;
  in_range = rw (current-with_member h i m) v.in_range;
  answering =
      rw (current-with_member h i m)
        (ground (arith, member-with_member h i m h.current (omega arith), v.answering, kept));
  capped = (with_member-Sized n h i m (v.size, v.capped) ok).1;
}

pub failed-Healthy :
    (n : ℕ) (h : RingHealth) (index : ℕ) (kind : FailureKind) (policy : GatewayRingPolicy) (now : ℕ)
    → Healthy n h
    → Healthy n (failed_in_range h index kind policy now).0
failed-Healthy n h index kind policy now v =
    elim (Bool-cases (not (index == h.current) || is_not_theirs kind)) [
      | inl t ↦ rw t v
      | inr f ↦ elim (Bool-cases (rotates kind policy (Member.failed (member h index)))) [
        | inl go ↦
            let lt : index < length h.members = ground arith in
            rw (f, go)
              (with_current-Healthy n _ _
                (with_member-Sized n h index (Member.left (member h index) now) (v.size, v.capped)
                  (omega arith))
                (omega (arith, v.size, next_member-InRange h index policy.cooldown now lt)))
        | inr stay ↦
            rw (f, stay)
              (with_member-Healthy n h index (Member.failed (member h index)) v (omega arith)
                (λ e. rw e v.answering))
      ]
    ]

-- A selection never panics, keeps the ring healthy, and selects the member that is now current.
pub select-Healthy :
    (n : ℕ) (h : RingHealth) (policy : GatewayRingPolicy) (now : ℕ)
    → Healthy n h
    → (h' : RingHealth) × (s : Selection) × (select h policy now ≡ some (h', s))
      × Healthy n h'
      × (s.index ≡ h'.current)
unfolding select
select-Healthy n h policy now v =
    go (rested_before_total h policy.cooldown now (omega (arith, v.size)))
  where
    go :
        (r : Option ℕ) × (rested_before h policy.cooldown now ≡ some r)
          × ((i : ℕ) → r ≡ some i → i < h.current)
        → (h' : RingHealth) × (s : Selection) × (select h policy now ≡ some (h', s))
          × Healthy n h'
          × (s.index ≡ h'.current)
    go (none, e, _) = (h, record { index = h.current; returned = false }, rw e, v, refl)
    go (some i, e, below) = (
      with_current h i,
      record { index = i; returned = true },
      rw e,
      with_current-Healthy n h i (v.size, v.capped) (omega (arith, below i refl)),
      sym (current-with_current h i),
    )

pub step-Healthy :
    (n : ℕ) (policy : GatewayRingPolicy) (t : Transition) (h : RingHealth)
    → Names n t
    → Healthy n h
    → (h' : RingHealth) × (step policy t h ≡ some h') × Healthy n h'
unfolding step succeeded
step-Healthy n policy (selects now) h ok v =
    let (h', s, e, v', _) = select-Healthy n h policy now v in (h', rw e, v')
step-Healthy n policy (succeeds index) h ok v = (
  with_member h index Member.default,
  rw (get_elem?-member_or h.members index (omega (arith, v.size))),
  with_member-Healthy n h index Member.default v (omega arith) (λ _. refl),
)
step-Healthy n policy (fails index kind now) h ok v = (
  _,
  rw (failed-eq h index kind policy now (omega (arith, v.size))),
  failed-Healthy n h index kind policy now v,
)

pub run_from-Healthy :
    (n : ℕ) (policy : GatewayRingPolicy) (ts : List Transition) (h : RingHealth)
    → All (Names n) ts
    → Healthy n h
    → (h' : RingHealth) × (run policy ts h ≡ some h') × Healthy n h'
unfolding run
run_from-Healthy n policy [] h ok v = (h, refl, v)
run_from-Healthy n policy (t ∷ ts) h ok v =
    let (h', e, v') = step-Healthy n policy t h ok.0 v in
    let (h'', e', v'') = run_from-Healthy n policy ts h' ok.1 v' in (h'', rw e e', v'')

-- Whatever the callers of a fresh ring of at least one member do, in whatever order and under
-- whatever policy, no lookup panics: the ring keeps its size, its current member is in range and
-- not marked as left, and every streak fits its `u32`.
pub run-Healthy :
    (n : ℕ) (policy : GatewayRingPolicy) (ts : List Transition)
    → 0 < n
    → All (Names n) ts
    → (h' : RingHealth) × (run policy ts (new n) ≡ some h') × Healthy n h'
run-Healthy n policy ts pos ok = run_from-Healthy n policy ts (new n) ok (new-Healthy n pos)
