-- ===== src/Ring/Lookup.antt =====
-- Lookups in the ring that stay in range, and what the updates of one member leave alone.
use mentra.Base.{
  ℕ, zero, suc, ◌+◌, ◌%◌, ◌<◌, ◌≤◌, ◌≡◌, refl, ap, Option, some, List, [], ◌∷◌, map, Bool, ◌==◌,
  if◌then◌else◌, length, get_elem?, range_from, find, arith, Bool-cases, All, inl, inr,
}
use mentra.Ring.Member.{MemberHealth}
use mentra.Ring.Member
use mentra.Ring.Health.{
  RingHealth, update_at, with_current, with_member, find_at, rested_at, ready_at, is_ready,
}

-- A ring whose current member exists: no lookup of it can panic.
abbrev pub InRange : RingHealth → Type 0
InRange h = h.current < length h.members

pub length-update_at :
    (index : ℕ) (f : MemberHealth → MemberHealth) (i : ℕ) (ms : List MemberHealth)
    → length (update_at index f i ms) ≡ length ms
length-update_at index f i [] = refl
length-update_at index f i (m ∷ ms) = ap suc (length-update_at index f (suc i) ms)

abbrev pub member_or : List MemberHealth → ℕ → MemberHealth
member_or [] i = Member.default
member_or (m ∷ ms) zero = m
member_or (m ∷ ms) (suc i) = member_or ms i

-- The member at a position that is in range.
abbrev pub member : RingHealth → ℕ → MemberHealth
member h i = member_or h.members i

pub get_elem?-member_or :
    (ms : List MemberHealth) (i : ℕ) → i < length ms → get_elem? ms i ≡ some (member_or ms i)
get_elem?-member_or [] i h = elim h [ ]
get_elem?-member_or (m ∷ ms) zero h = refl
get_elem?-member_or (m ∷ ms) (suc i) h = get_elem?-member_or ms i (omega arith)

-- The member at `j` of a list that starts at position `i`.
member_or-update_at :
    (index : ℕ) (f : MemberHealth → MemberHealth) (i : ℕ) (ms : List MemberHealth) (j k : ℕ)
    → i + j ≡ k
    → j < length ms
    → member_or (update_at index f i ms) j
      ≡ (if k == index then f (member_or ms j) else member_or ms j)
member_or-update_at index f i [] j k e h = elim h [ ]
member_or-update_at index f i (m ∷ ms) zero k e h = let p : i ≡ k = omega arith in rw p
member_or-update_at index f i (m ∷ ms) (suc j) k e h =
    member_or-update_at index f (suc i) ms j k (omega arith) (omega arith)

pub member-with_current :
    (h : RingHealth) (index j : ℕ)
    → j < length h.members
    → member (with_current h index) j
      ≡ (if j == index then Member.returned_to (member h j) else member h j)
unfolding with_current
member-with_current h index j lt =
    member_or-update_at index Member.returned_to 0 h.members j j (omega arith) lt

pub member-with_member :
    (h : RingHealth) (index : ℕ) (m : MemberHealth) (j : ℕ)
    → j < length h.members
    → member (with_member h index m) j ≡ (if j == index then m else member h j)
unfolding with_member
member-with_member h index m j lt =
    member_or-update_at index (λ _. m) 0 h.members j j (omega arith) lt

pub size-with_current :
    (h : RingHealth) (index : ℕ) → length (with_current h index).members ≡ length h.members
unfolding with_current
size-with_current h index = length-update_at index Member.returned_to 0 h.members

pub size-with_member :
    (h : RingHealth) (index : ℕ) (m : MemberHealth)
    → length (with_member h index m).members ≡ length h.members
unfolding with_member
size-with_member h index m = length-update_at index (λ _. m) 0 h.members

pub current-with_current : (h : RingHealth) (index : ℕ) → (with_current h index).current ≡ index
unfolding with_current
current-with_current h index = refl

pub current-with_member :
    (h : RingHealth) (index : ℕ) (m : MemberHealth) → (with_member h index m).current ≡ h.current
unfolding with_member
current-with_member h index m = refl

-- Every position of a list is below `n`.
abbrev pub Below : ℕ → List ℕ → Type 0
Below n = All (λ i. i < n)

-- Over positions in range the search does not panic, and is a search over the members.
pub find_at-find :
    (n : ℕ) (p : ℕ → Option Bool) (q : ℕ → Bool) (is : List ℕ)
    → ((i : ℕ) → i < n → p i ≡ some (q i))
    → Below n is
    → find_at p is ≡ some (find q is)
unfolding find_at
find_at-find n p q [] h b = refl
find_at-find n p q (i ∷ is) h b =
    rw (h i b.0)
      (elim (Bool-cases (q i)) [ inl e ↦ rw e | inr e ↦ rw e (find_at-find n p q is h b.1) ])

pub rested_at-member :
    (h : RingHealth) (cooldown now i : ℕ)
    → i < length h.members
    → rested_at h cooldown now i ≡ some (Member.rested_for (member h i) cooldown now)
unfolding rested_at
rested_at-member h cooldown now i lt = rw (get_elem?-member_or h.members i lt)

pub ready_at-member :
    (h : RingHealth) (cooldown now i : ℕ)
    → i < length h.members
    → ready_at h cooldown now i ≡ some (is_ready (member h i) cooldown now)
unfolding ready_at
ready_at-member h cooldown now i lt = rw (get_elem?-member_or h.members i lt)

pub Below-range_from : (n start k : ℕ) → start + k ≤ n → Below n (range_from start k)
Below-range_from n start zero h = tt
Below-range_from n start (suc k) h = (omega arith, Below-range_from n (suc start) k (omega arith))

-- The candidates are positions of the ring.
pub Below-candidates_from :
    (count index start k : ℕ)
    → 0 < count
    → Below count (map (λ step. (index + step) % count) (range_from start k))
Below-candidates_from count index start zero h = tt
Below-candidates_from count index start (suc k) h =
    (grind arith, Below-candidates_from count index (suc start) k h)
