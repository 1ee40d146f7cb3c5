-- ===== src/Ring/Health.antt =====
-- The ring's memory, `RingHealth` of gateway_ring/health.rs. A transition that indexes past the
-- members panics in the source: here it is `none`.
use mentra.Base.{
  ℕ, ◌+◌, ◌-◌, ◌%◌, Option, none, some, List, [], ◌∷◌, map, Bool, true, false, not, ◌||◌, leb, ◌==◌,
  if◌then◌else◌, length, get_elem?, replicate, range_from, suc,
}
use mentra.Base.Partial.{◌>>=◌}
use mathlib.Core.Option
use mentra.Ring.Member
use mentra.Ring.Member.{
  GatewayRingPolicy, FailureKind, counted, immediate, not_the_members_fault, MemberHealth,
  threshold,
}

pub record Selection : Type 0 where
  pub index : ℕ
  pub returned : Bool

pub record Rotation : Type 0 where
  pub from : ℕ
  pub to : ℕ
  pub after_failures : ℕ

pub record RingHealth : Type 0 where
  pub current : ℕ
  pub members : List MemberHealth

unfoldable pub new : ℕ → RingHealth
new members = record { current = 0; members = replicate members Member.default }

unfoldable pub on_probation : RingHealth → Option Bool
on_probation h = Option.map (λ m. m.probation) (get_elem? h.members h.current)

unfoldable pub streak_of : RingHealth → ℕ → Option ℕ
streak_of h index = Option.map (λ m. m.streak) (get_elem? h.members index)

-- `iter().enumerate().map(…)` with a function that changes one position.
abbrev pub update_at : ℕ → (MemberHealth → MemberHealth) → ℕ → List MemberHealth → List MemberHealth
update_at index f i [] = []
update_at index f i (m ∷ ms) = (if i == index then f m else m) ∷ update_at index f (suc i) ms

unfoldable pub with_current : RingHealth → ℕ → RingHealth
with_current h index = record {
  current = index;
  members = update_at index Member.returned_to 0 h.members;
}

unfoldable pub with_member : RingHealth → ℕ → MemberHealth → RingHealth
with_member h index health = record {
  current = h.current;
  members = update_at index (λ m. health) 0 h.members;
}

-- `find` with a test that indexes, and may panic.
unfoldable pub find_at : (ℕ → Option Bool) → List ℕ → Option (Option ℕ)
find_at p [] = some none
find_at p (i ∷ is) = p i >>= λ hit. if hit then some (some i) else find_at p is

unfoldable pub rested_at : RingHealth → ℕ → ℕ → ℕ → Option Bool
rested_at h cooldown now index =
    Option.map (λ m. Member.rested_for m cooldown now) (get_elem? h.members index)

abbrev pub chosen : RingHealth → Option ℕ → RingHealth × Selection
chosen h (some index) = (with_current h index, record { index = index; returned = true })
chosen h none = (h, record { index = h.current; returned = false })

abbrev pub rested_before : RingHealth → Option ℕ → ℕ → Option (Option ℕ)
rested_before h none now = some none
rested_before h (some cooldown) now = find_at (rested_at h cooldown now) (range_from 0 h.current)

unfoldable pub select : RingHealth → GatewayRingPolicy → ℕ → Option (RingHealth × Selection)
select h policy now = do rested ← rested_before h policy.cooldown now; some (chosen h rested)

unfoldable pub succeeded : RingHealth → ℕ → Option RingHealth
succeeded h index = do
  m ← get_elem? h.members index
  some (with_member h index (Member.succeeded m))

abbrev pub candidates : ℕ → ℕ → List ℕ
candidates count index = map (λ step. (index + step) % count) (range_from 1 (count - 1))

abbrev pub head_or : List ℕ → ℕ → ℕ
head_or [] d = d
head_or (x ∷ xs) d = x

-- `left_at.is_none() || rested_for(cooldown, now)`.
abbrev pub is_ready : MemberHealth → ℕ → ℕ → Bool
is_ready m cooldown now = not (Member.is_some m.left_at) || Member.rested_for m cooldown now

unfoldable pub ready_at : RingHealth → ℕ → ℕ → ℕ → Option Bool
ready_at h cooldown now index =
    Option.map (λ m. is_ready m cooldown now) (get_elem? h.members index)

abbrev pub or_first : List ℕ → ℕ → Option ℕ → ℕ
or_first is index (some i) = i
or_first is index none = head_or is index

abbrev pub next_by : RingHealth → ℕ → List ℕ → Option ℕ → ℕ → Option ℕ
next_by h index is none now = some (head_or is index)
next_by h index is (some cooldown) now =
    find_at (ready_at h cooldown now) is >>= λ found. some (or_first is index found)

unfoldable pub next_after : RingHealth → ℕ → GatewayRingPolicy → ℕ → Option ℕ
next_after h index policy now =
    next_by h index (candidates (length h.members) index) policy.cooldown now

abbrev pub rotates : FailureKind → GatewayRingPolicy → MemberHealth → Bool
rotates immediate policy m = true
rotates counted policy m = m.probation || leb (threshold policy) m.streak
rotates not_the_members_fault policy m = false

abbrev pub after : FailureKind → MemberHealth → ℕ
after immediate m = 0
after _ m = m.streak

abbrev pub is_not_theirs : FailureKind → Bool
is_not_theirs not_the_members_fault = true
is_not_theirs _ = false

-- The move to the next member.
unfoldable pub rotate :
    RingHealth
    → ℕ
    → FailureKind
    → GatewayRingPolicy
    → ℕ
    → MemberHealth
    → Option (RingHealth × Option Rotation)
rotate h index kind policy now m = do
  next ← next_after h index policy now
  some (
    with_current (with_member h index (Member.left m now)) next,
    some (record { from = index; to = next; after_failures = after kind m }),
  )

unfoldable pub count_failure :
    RingHealth
    → ℕ
    → FailureKind
    → GatewayRingPolicy
    → ℕ
    → MemberHealth
    → Option (RingHealth × Option Rotation)
unfolding rotate
count_failure h index kind policy now m =
    if rotates kind policy m
    then rotate h index kind policy now m
    else some (with_member h index m, none)

unfoldable pub failed :
    RingHealth → ℕ → FailureKind → GatewayRingPolicy → ℕ → Option (RingHealth × Option Rotation)
unfolding count_failure
failed h index kind policy now =
    if not (index == h.current) || is_not_theirs kind
    then some (h, none)
    else (get_elem? h.members index >>= λ found.
        count_failure h index kind policy now (Member.failed found))
