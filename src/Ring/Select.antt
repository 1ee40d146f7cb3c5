-- ===== src/Ring/Select.antt =====
-- Which member the next call goes to: `RingHealth::select`.
use mentra.Base.{
  ℕ, ◌<◌, ◌≡◌, ◌∙◌, ap, refl, Option, none, some, Bool, true, false, length, range_from, find,
  arith, find-range_from, find-All, find-range_from-none,
}
use mentra.Ring.Member.{GatewayRingPolicy}
use mentra.Ring.Member
use mentra.Ring.Health.{RingHealth, with_current, rested_before, select}
use mentra.Ring.Lookup.{InRange, member, find_at-find, rested_at-member, Below-range_from}

-- Whether the member at `i` has rested.
abbrev pub has_rested : RingHealth → ℕ → ℕ → ℕ → Bool
has_rested h cooldown now i = Member.rested_for (member h i) cooldown now

rested_before-find :
    (h : RingHealth) (cooldown now : ℕ)
    → InRange h
    → rested_before h (some cooldown) now
      ≡ some (find (has_rested h cooldown now) (range_from 0 h.current))
rested_before-find h cooldown now ok =
    find_at-find (length h.members) _ (has_rested h cooldown now) (range_from 0 h.current)
      (rested_at-member h cooldown now)
      (Below-range_from (length h.members) 0 h.current (omega arith))

-- Under a cooldown, the first of the members more preferred than the current one that has rested
-- is selected, and the ring returns to it.
pub select_first_rested :
    (h : RingHealth) (policy : GatewayRingPolicy) (cooldown now i : ℕ)
    → InRange h
    → policy.cooldown ≡ some cooldown
    → i < h.current
    → has_rested h cooldown now i ≡ true
    → ((j : ℕ) → j < i → has_rested h cooldown now j ≡ false)
    → select h policy now ≡ some (with_current h i, record { index = i; returned = true })
unfolding select
select_first_rested h policy cooldown now i ok c lt hit miss =
    rw (c, rested_before-find h cooldown now ok)
      (rw (
        find-range_from (has_rested h cooldown now) 0 h.current i (omega arith) (omega arith) hit
          (λ j _ v. miss j v)))

rested_before-none :
    (h : RingHealth) (o : Option ℕ) (now : ℕ)
    → InRange h
    → ((cooldown j : ℕ) → o ≡ some cooldown → j < h.current → has_rested h cooldown now j ≡ false)
    → rested_before h o now ≡ some none
rested_before-none h none now ok miss = refl
rested_before-none h (some c) now ok miss =
    rested_before-find h c now ok
    ∙ ap some (
        find-range_from-none (has_rested h c now) 0 h.current
          (λ j _ v. miss c j refl (omega arith)))

-- If no more preferred member has rested, or there is no cooldown, the current member stays and
-- nothing changes.
pub select_stays :
    (h : RingHealth) (policy : GatewayRingPolicy) (now : ℕ)
    → InRange h
    → ((cooldown j : ℕ)
        → policy.cooldown ≡ some cooldown
        → j < h.current
        → has_rested h cooldown now j ≡ false)
    → select h policy now ≡ some (h, record { index = h.current; returned = false })
unfolding select
select_stays h policy now ok miss = rw (rested_before-none h policy.cooldown now ok miss)

-- The search stays in range, and only a more preferred member is found.
pub rested_before_total :
    (h : RingHealth) (o : Option ℕ) (now : ℕ)
    → InRange h
    → (r : Option ℕ) × (rested_before h o now ≡ some r) × ((i : ℕ) → r ≡ some i → i < h.current)
rested_before_total h none now ok = (none, refl, λ i e. cc)
rested_before_total h (some c) now ok = (
  find (has_rested h c now) (range_from 0 h.current),
  rested_before-find h c now ok,
  λ i e.
      (find-All (λ i. i < h.current) (has_rested h c now) (range_from 0 h.current)
        (Below-range_from h.current 0 h.current (omega arith)) e).0,
)
