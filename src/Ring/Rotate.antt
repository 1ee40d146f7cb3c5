-- ===== src/Ring/Rotate.antt =====
-- Where the ring goes when it leaves a member: `RingHealth::next_after`.
use mentra.Base.{
  ℕ, zero, suc, ◌+◌, ◌-◌, ◌%◌, ◌≤◌, ◌<◌, ◌≡◌, ◌≢◌, refl, Option, none, some, map, Bool, true, false,
  length, range_from, find, arith, All, find-All, find-none-All, ◌⊎◌, Option-cases, inl, inr, subst,
}
use native.Mathlib.Decide.{dec_lt, ℕ_discrete}
use mentra.Ring.Member.{GatewayRingPolicy}
use mentra.Ring.Health.{RingHealth, is_ready, candidates, head_or, or_first, next_by, next_after}
use mentra.Ring.Lookup.{member, find_at-find, ready_at-member, Below-candidates_from}

abbrev pub IsOther : ℕ → ℕ → ℕ → Type 0
IsOther count index i = (i < count) × (i ≢ index)

-- Whether the member at `i` was not left, or has rested since.
abbrev pub ready : RingHealth → ℕ → ℕ → ℕ → Bool
ready h cooldown now i = is_ready (member h i) cooldown now

candidates_from-IsOther :
    (count index start k : ℕ)
    → index < count
    → 0 < start
    → start + k ≤ count
    → All (IsOther count index) (map (λ step. (index + step) % count) (range_from start k))
candidates_from-IsOther count index start zero h p q = tt
candidates_from-IsOther count index start (suc k) h p q = (
  (grind arith, grind arith),
  candidates_from-IsOther count index (suc start) k h (omega arith) (omega arith),
)

pub candidates-IsOther :
    (count index : ℕ) → index < count → All (IsOther count index) (candidates count index)
candidates-IsOther zero index h = absurd (omega arith)
candidates-IsOther (suc n) index h =
    candidates_from-IsOther (suc n) index 1 (suc n - 1) h (omega arith) (omega arith)

-- The member that the search finds among the candidates.
abbrev pub next_member : RingHealth → ℕ → Option ℕ → ℕ → ℕ
next_member h index none now = head_or (candidates (length h.members) index) index
next_member h index (some cooldown) now =
    or_first (candidates (length h.members) index) index
      (find (ready h cooldown now) (candidates (length h.members) index))

next_by-next_member :
    (h : RingHealth) (index : ℕ) (o : Option ℕ) (now : ℕ)
    → 0 < length h.members
    → next_by h index (candidates (length h.members) index) o now ≡ some (next_member h index o now)
next_by-next_member h index none now ok = refl
next_by-next_member h index (some c) now ok = rw (
    find_at-find (length h.members) _ (ready h c now) (candidates (length h.members) index)
      (ready_at-member h c now)
      (Below-candidates_from (length h.members) index 1 (length h.members - 1) ok))

pub next_after-next_member :
    (h : RingHealth) (index : ℕ) (policy : GatewayRingPolicy) (now : ℕ)
    → 0 < length h.members
    → next_after h index policy now ≡ some (next_member h index policy.cooldown now)
unfolding next_after
next_after-next_member h index policy now ok = next_by-next_member h index policy.cooldown now ok

All-candidates_from :
    (P : ℕ → Type 0) (count index start k step : ℕ)
    → All P (map (λ s. (index + s) % count) (range_from start k))
    → start ≤ step
    → step < start + k
    → P ((index + step) % count)
All-candidates_from P count index start zero step a p q = absurd (omega arith)
All-candidates_from P count index start (suc k) step a p q = elim (ℕ_discrete step start) [
  | yes e ↦ rw e a.0
  | no ne ↦ All-candidates_from P count index (suc start) k step a.1 (omega arith) (omega arith)
]

-- What holds at every candidate holds at every other member.
All-candidates :
    (P : ℕ → Type 0) (count index i : ℕ)
    → index < count
    → IsOther count index i
    → All P (candidates count index)
    → P i
All-candidates P count index i lt (below, ne) a = elim (dec_lt index i) [
  | yes up ↦
      let e : (index + (i - index)) % count ≡ i = grind arith in
      subst P e
        (All-candidates_from P count index 1 (count - 1) (i - index) a (omega arith) (omega arith))
  | no down ↦
      let e : (index + (i + count - index)) % count ≡ i = grind arith in
      subst P e (
        All-candidates_from P count index 1 (count - 1) (i + count - index) a (omega arith)
          (omega arith))
]

-- The first candidate is the next member in ring order.
head_or-candidates :
    (count index : ℕ) → 1 < count → head_or (candidates count index) index ≡ (index + 1) % count
head_or-candidates count index h = let e : count - 1 ≡ suc (count - 2) = omega arith in rw e

-- A ring of at least two never rotates to the member it leaves.
pub next_member-IsOther :
    (h : RingHealth) (index : ℕ) (o : Option ℕ) (now : ℕ)
    → index < length h.members
    → 1 < length h.members
    → IsOther (length h.members) index (next_member h index o now)
next_member-IsOther h index none now lt two =
    rw (head_or-candidates (length h.members) index two) (grind arith, grind arith)
next_member-IsOther h index (some c) now lt two =
    elim (Option-cases (find (ready h c now) (candidates (length h.members) index))) [
      | inl e ↦ rw (e, head_or-candidates (length h.members) index two) (grind arith, grind arith)
      | inr (i, e) ↦
          rw e
            (find-All (IsOther (length h.members) index) (ready h c now)
              (candidates (length h.members) index) (candidates-IsOther (length h.members) index lt)
              e).0
    ]

pub next_member-InRange :
    (h : RingHealth) (index : ℕ) (o : Option ℕ) (now : ℕ)
    → index < length h.members
    → next_member h index o now < length h.members
next_member-InRange h index o now lt = elim (dec_lt 1 (length h.members)) [
  | yes two ↦ (next_member-IsOther h index o now lt two).0
  | no one ↦ let e : length h.members - 1 ≡ 0 = omega arith in alone h index o now lt e
]
  where
    alone :
        (h : RingHealth) (index : ℕ) (o : Option ℕ) (now : ℕ)
        → index < length h.members
        → length h.members - 1 ≡ 0
        → next_member h index o now < length h.members
    alone h index none now lt e = rw e lt
    alone h index (some c) now lt e = rw e lt

-- Under a cooldown the ring rotates to a member that is not resting, unless every other member is:
-- then it takes the next one in ring order.
pub next_member-ready :
    (h : RingHealth) (index c now : ℕ)
    → index < length h.members
    → 1 < length h.members
    → (ready h c now (next_member h index (some c) now) ≡ true)
      ⊎ (((i : ℕ) → IsOther (length h.members) index i → ready h c now i ≡ false)
          × (next_member h index (some c) now ≡ (index + 1) % length h.members))
next_member-ready h index c now lt two =
    elim (Option-cases (find (ready h c now) (candidates (length h.members) index))) [
      | inl e ↦ inr (
        λ i other.
            All-candidates (λ i. ready h c now i ≡ false) (length h.members) index i lt other
              (find-none-All (ready h c now) (candidates (length h.members) index) e),
        rw (e, head_or-candidates (length h.members) index two),
      )
      | inr (i, e) ↦ inl (
          rw e
            (find-All (IsOther (length h.members) index) (ready h c now)
              (candidates (length h.members) index) (candidates-IsOther (length h.members) index lt)
              e).1)
    ]

-- Under a cooldown, a ring of at least two rotates to another member, and that one was not left or
-- has rested; only if every other member is still resting does it take the next in ring order.
pub next_after-ready :
    (h : RingHealth) (index : ℕ) (policy : GatewayRingPolicy) (c now : ℕ)
    → policy.cooldown ≡ some c
    → index < length h.members
    → 1 < length h.members
    → (i : ℕ) × (next_after h index policy now ≡ some i)
      × IsOther (length h.members) index i
      × ((ready h c now i ≡ true)
          ⊎ (((j : ℕ) → IsOther (length h.members) index j → ready h c now j ≡ false)
              × (i ≡ (index + 1) % length h.members)))
next_after-ready h index policy c now e lt two = (
  next_member h index (some c) now,
  subst (λ o. next_after h index policy now ≡ some (next_member h index o now)) e
      (next_after-next_member h index policy now (omega arith)),
  next_member-IsOther h index (some c) now lt two,
  next_member-ready h index c now lt two,
)
