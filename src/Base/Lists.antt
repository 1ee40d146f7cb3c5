-- ===== src/Base/Lists.antt =====
-- Lists measured and indexed by native numbers, under the library's names, and the loops over them.
use Prim.Native.Nat.{ℕ, zero, suc, ◌+◌, ◌≤◌, ◌<◌}
use mathlib.Core.Path.{◌≡◌, refl, ap, subst}
use mathlib.Core.Logic.{inl, inr}
use mathlib.Core.Bool.{Bool, true, false, ◌||◌}
use mathlib.Core.List.{List, [], ◌∷◌, ◌++◌}
use mathlib.Core.Option.{Option, none, some, some-injective}
use native.Mathlib.Omega.{arith}
use mentra.Base.Tests.{if◌then◌else◌, Bool-cases}

module _ {ℓ} {A : Type ℓ} where
  abbrev pub length : List A → ℕ
  length [] = 0
  length (x ∷ xs) = suc (length xs)

  abbrev pub get_elem? : List A → ℕ → Option A
  get_elem? [] i = none
  get_elem? (x ∷ xs) zero = some x
  get_elem? (x ∷ xs) (suc i) = get_elem? xs i

  abbrev pub replicate : ℕ → A → List A
  replicate zero a = []
  replicate (suc n) a = a ∷ replicate n a

  -- `is_empty` of a slice or a collection.
  abbrev pub is_empty : List A → Bool
  is_empty [] = true
  is_empty (x ∷ xs) = false

  -- `Iterator::find` with a Boolean test.
  abbrev pub find : (A → Bool) → List A → Option A
  find p [] = none
  find p (x ∷ xs) = if p x then some x else find p xs

  -- `retain`, or `Iterator::filter`, with a Boolean test.
  abbrev pub retain : (A → Bool) → List A → List A
  retain p [] = []
  retain p (x ∷ xs) = if p x then x ∷ retain p xs else retain p xs

  -- `Iterator::take`, and what is left after it.
  abbrev pub take : ℕ → List A → List A
  take zero xs = []
  take (suc n) [] = []
  take (suc n) (x ∷ xs) = x ∷ take n xs

  abbrev pub drop : ℕ → List A → List A
  drop zero xs = xs
  drop (suc n) [] = []
  drop (suc n) (x ∷ xs) = drop n xs

  -- `Iterator::flatten`.
  abbrev pub join : List (List A) → List A
  join [] = []
  join (xs ∷ xss) = xs ++ join xss

  -- `Iterator::any`.
  abbrev pub any : (A → Bool) → List A → Bool
  any p [] = false
  any p (x ∷ xs) = p x || any p xs

  pub length-append : (xs ys : List A) → length (xs ++ ys) ≡ length xs + length ys
  length-append [] ys = omega arith
  length-append (x ∷ xs) ys = omega (arith, length-append xs ys)

  pub length-replicate : (n : ℕ) (a : A) → length (replicate n a) ≡ n
  length-replicate zero a = refl
  length-replicate (suc n) a = ap suc (length-replicate n a)

  pub get_elem?_total : (xs : List A) (i : ℕ) → i < length xs → (a : A) × (get_elem? xs i ≡ some a)
  get_elem?_total [] i h = elim h [ ]
  get_elem?_total (x ∷ xs) zero h = (x, refl)
  get_elem?_total (x ∷ xs) (suc i) h = get_elem?_total xs i (omega arith)

-- The numbers `start, start + 1, …`, `n` of them: a Rust range `start..start + n`.
abbrev pub range_from : ℕ → ℕ → List ℕ
range_from start zero = []
range_from start (suc n) = start ∷ range_from (suc start) n

-- `find` over a range returns its first hit.
pub find-range_from :
    (p : ℕ → Bool) (start n i : ℕ)
    → start ≤ i
    → i < start + n
    → p i ≡ true
    → ((j : ℕ) → start ≤ j → j < i → p j ≡ false)
    → find p (range_from start n) ≡ some i
find-range_from p start zero i a b hit miss = absurd (omega arith)
find-range_from p start (suc n) i a b hit miss = elim (Bool-cases (p start)) [
  | inl e ↦ ground (arith, miss start)
  | inr e ↦ rw e (
      find-range_from p (suc start) n i (ground arith) (omega arith) hit
        (λ j u v. miss j (omega arith) v))
]

pub find-range_from-none :
    (p : ℕ → Bool) (start n : ℕ)
    → ((j : ℕ) → start ≤ j → j < start + n → p j ≡ false)
    → find p (range_from start n) ≡ none
find-range_from-none p start zero miss = refl
find-range_from-none p start (suc n) miss =
    rw (miss start (omega arith) (omega arith))
      (find-range_from-none p (suc start) n (λ j u v. miss j (omega arith) (omega arith)))

-- Every element has the property.
abbrev pub All {ℓ κ} : {A : Type ℓ} → (A → Type κ) → List A → Type κ
All P [] = Unit
All P (x ∷ xs) = P x × All P xs

pub find-All {ℓ κ} :
    {A : Type ℓ} (P : A → Type κ) (p : A → Bool) (xs : List A) {x : A}
    → All P xs
    → find p xs ≡ some x
    → P x × (p x ≡ true)
find-All P p [] a e = cc
find-All P p (y ∷ ys) a e = elim (Bool-cases (p y)) [
  | inl t ↦ let q = some-injective _ _ (rw t at e) in subst (λ z. P z × (p z ≡ true)) q (a.0, t)
  | inr f ↦ find-All P p ys a.1 (rw f at e)
]

pub find-none-All {ℓ} :
    {A : Type ℓ} (p : A → Bool) (xs : List A) → find p xs ≡ none → All (λ x. p x ≡ false) xs
find-none-All p [] e = tt
find-none-All p (y ∷ ys) e = elim (Bool-cases (p y)) [
  | inl t ↦ cc (rw t at e)
  | inr f ↦ (f, find-none-All p ys (rw f at e))
]
