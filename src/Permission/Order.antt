-- ===== src/Permission/Order.antt =====
-- `Ord`: comparisons of numbers, Booleans, options and text, and comparing by one key and then by
-- the next (`then_with`). `Lawful` is what a total order promises.
use Prim.Native.Nat.{compare, Ordering}
use mentra.Base.{◌≡◌, refl, ap, Option, none, some, List, [], ◌∷◌, Bool, true, false, arith}
use mentra.Base.Text.{Text}

abbrev pub then_with : Ordering → Ordering → Ordering
then_with Ordering.eq o = o
then_with Ordering.lt o = Ordering.lt
then_with Ordering.gt o = Ordering.gt

unfoldable pub cmp_bool : Bool → Bool → Ordering
cmp_bool false true = Ordering.lt
cmp_bool true false = Ordering.gt
cmp_bool _ _ = Ordering.eq

-- The order of the characters is that of their UTF-8 bytes.
unfoldable pub cmp_text : Text → Text → Ordering
cmp_text [] [] = Ordering.eq
cmp_text [] (b ∷ t) = Ordering.lt
cmp_text (a ∷ s) [] = Ordering.gt
cmp_text (a ∷ s) (b ∷ t) = then_with (compare a b) (cmp_text s t)

unfoldable pub cmp_option {ℓ} : {A : Type ℓ} → (A → A → Ordering) → Option A → Option A → Ordering
cmp_option cmp none none = Ordering.eq
cmp_option cmp none (some b) = Ordering.lt
cmp_option cmp (some a) none = Ordering.gt
cmp_option cmp (some a) (some b) = cmp a b

-- `Iterator::min_by`: the first of the least.
unfoldable pub least {ℓ} : {A : Type ℓ} → (A → A → Ordering) → A → List A → A
least cmp a [] = a
least cmp a (x ∷ xs) = least cmp (elim (cmp a x) [ Ordering.gt ↦ x | _ ↦ a ]) xs

abbrev pub min_by {ℓ} : {A : Type ℓ} → (A → A → Ordering) → List A → Option A
min_by cmp [] = none
min_by cmp (x ∷ xs) = some (least cmp x xs)

-- A comparison of a total order.
pub record Lawful {ℓ} {A : Type ℓ} (cmp : A → A → Ordering) : Type ℓ where
  pub same : (a b : A) → cmp a b ≡ Ordering.eq → a ≡ b
  pub itself : (a : A) → cmp a a ≡ Ordering.eq
  pub flip : (a b : A) → cmp a b ≡ Ordering.gt → cmp b a ≡ Ordering.lt
  pub chain : (a b c : A) → cmp a b ≡ Ordering.lt → cmp b c ≡ Ordering.lt → cmp a c ≡ Ordering.lt

pub compare-Lawful : Lawful compare
compare-Lawful = record {
  same = λ a b e. ground arith;
  itself = λ a. ground arith;
  flip = λ a b e. ground arith;
  chain = λ a b c x y. ground arith;
}

pub cmp_bool-Lawful : Lawful cmp_bool
unfolding cmp_bool
cmp_bool-Lawful = record { same = same'; itself = itself'; flip = flip'; chain = chain' }
  where
    same' : (a b : Bool) → cmp_bool a b ≡ Ordering.eq → a ≡ b
    same' true true e = refl
    same' true false e = cc
    same' false true e = cc
    same' false false e = refl

    itself' : (a : Bool) → cmp_bool a a ≡ Ordering.eq
    itself' true = refl
    itself' false = refl

    flip' : (a b : Bool) → cmp_bool a b ≡ Ordering.gt → cmp_bool b a ≡ Ordering.lt
    flip' true true e = cc
    flip' true false e = refl
    flip' false true e = cc
    flip' false false e = cc

    chain' :
        (a b c : Bool)
        → cmp_bool a b ≡ Ordering.lt
        → cmp_bool b c ≡ Ordering.lt
        → cmp_bool a c ≡ Ordering.lt
    chain' true b c x y = absurd (never b x)
      where
        never : (b : Bool) → ¬ (cmp_bool true b ≡ Ordering.lt)
        never true e = cc
        never false e = cc
    chain' false b true x y = refl
    chain' false true false x y = cc
    chain' false false false x y = cc

data Trichotomy (o : Ordering) : Type 0 where
  is_lt : o ≡ Ordering.lt → Trichotomy o
  is_eq : o ≡ Ordering.eq → Trichotomy o
  is_gt : o ≡ Ordering.gt → Trichotomy o

trichotomy : (o : Ordering) → Trichotomy o
trichotomy Ordering.lt = is_lt refl
trichotomy Ordering.eq = is_eq refl
trichotomy Ordering.gt = is_gt refl

module _ {ℓ κ} {A : Type ℓ} {B : Type κ} (f : A → A → Ordering) (g : B → B → Ordering) where
  -- By the first key, then by the second.
  abbrev pub in_turn : A × B → A × B → Ordering
  in_turn x y = then_with (f x.0 y.0) (g x.1 y.1)

  module _ (F : Lawful f) (G : Lawful g) where
    in_turn-same : (x y : A × B) → in_turn x y ≡ Ordering.eq → x ≡ y
    in_turn-same x y e = elim (trichotomy (f x.0 y.0)) [
      | is_lt c ↦ cc (rw c at e)
      | is_eq c ↦ cc (F.same x.0 y.0 c, G.same x.1 y.1 (rw c at e))
      | is_gt c ↦ cc (rw c at e)
    ]

    in_turn-flip : (x y : A × B) → in_turn x y ≡ Ordering.gt → in_turn y x ≡ Ordering.lt
    in_turn-flip x y e = elim (trichotomy (f x.0 y.0)) [
      | is_lt c ↦ cc (rw c at e)
      | is_eq c ↦
          let back : f y.0 x.0 ≡ Ordering.eq = cc (F.same x.0 y.0 c, F.itself x.0) in
          rw back (G.flip x.1 y.1 (rw c at e))
      | is_gt c ↦ rw (F.flip x.0 y.0 c) refl
    ]

    in_turn-chain :
        (x y z : A × B)
        → in_turn x y ≡ Ordering.lt
        → in_turn y z ≡ Ordering.lt
        → in_turn x z ≡ Ordering.lt
    in_turn-chain x y z e d = elim (trichotomy (f x.0 y.0)) [
      | is_lt c ↦ elim (trichotomy (f y.0 z.0)) [
        | is_lt b ↦ rw (F.chain x.0 y.0 z.0 c b) refl
        | is_eq b ↦ let q : f x.0 z.0 ≡ Ordering.lt = cc (F.same y.0 z.0 b) in rw q refl
        | is_gt b ↦ cc (rw b at d)
      ]
      | is_eq c ↦ elim (trichotomy (f y.0 z.0)) [
        | is_lt b ↦ let q : f x.0 z.0 ≡ Ordering.lt = cc (F.same x.0 y.0 c) in rw q refl
        | is_eq b ↦
            let q : f x.0 z.0 ≡ Ordering.eq = cc (F.same x.0 y.0 c) in
            rw q (G.chain x.1 y.1 z.1 (rw c at e) (rw b at d))
        | is_gt b ↦ cc (rw b at d)
      ]
      | is_gt c ↦ cc (rw c at e)
    ]

    pub in_turn-Lawful : Lawful in_turn
    in_turn-Lawful = record {
      same = in_turn-same;
      itself = λ x. rw (F.itself x.0) (G.itself x.1);
      flip = in_turn-flip;
      chain = in_turn-chain;
    }

pub cmp_text-Lawful : Lawful cmp_text
unfolding cmp_text
cmp_text-Lawful = record { same = same'; itself = itself'; flip = flip'; chain = chain' }
  where
    same' : (s t : Text) → cmp_text s t ≡ Ordering.eq → s ≡ t
    same' [] [] e = refl
    same' [] (b ∷ t) e = cc
    same' (a ∷ s) [] e = cc
    same' (a ∷ s) (b ∷ t) e = ground (arith, same' s t)

    itself' : (s : Text) → cmp_text s s ≡ Ordering.eq
    itself' [] = refl
    itself' (a ∷ s) = ground (arith, itself' s)

    flip' : (s t : Text) → cmp_text s t ≡ Ordering.gt → cmp_text t s ≡ Ordering.lt
    flip' [] [] e = cc
    flip' [] (b ∷ t) e = cc
    flip' (a ∷ s) [] e = refl
    flip' (a ∷ s) (b ∷ t) e = ground (arith, flip' s t)

    chain' :
        (s t u : Text)
        → cmp_text s t ≡ Ordering.lt
        → cmp_text t u ≡ Ordering.lt
        → cmp_text s u ≡ Ordering.lt
    chain' [] [] [] x y = x
    chain' [] (b ∷ t) [] x y = cc
    chain' [] t (c ∷ u) x y = refl
    chain' (a ∷ s) [] u x y = cc
    chain' (a ∷ s) (b ∷ t) [] x y = cc
    chain' (a ∷ s) (b ∷ t) (c ∷ u) x y = ground (arith, chain' s t u)

pub cmp_option-Lawful {ℓ} : {A : Type ℓ} {f : A → A → Ordering} → Lawful f → Lawful (cmp_option f)
unfolding cmp_option
cmp_option-Lawful {A = A} {f = f} F = record {
  same = same';
  itself = itself';
  flip = flip';
  chain = chain';
}
  where
    same' : (a b : Option A) → cmp_option f a b ≡ Ordering.eq → a ≡ b
    same' none none e = refl
    same' none (some b) e = cc
    same' (some a) none e = cc
    same' (some a) (some b) e = ap some (F.same a b e)

    itself' : (a : Option A) → cmp_option f a a ≡ Ordering.eq
    itself' none = refl
    itself' (some a) = F.itself a

    flip' : (a b : Option A) → cmp_option f a b ≡ Ordering.gt → cmp_option f b a ≡ Ordering.lt
    flip' none none e = cc
    flip' none (some b) e = cc
    flip' (some a) none e = refl
    flip' (some a) (some b) e = F.flip a b e

    chain' :
        (a b c : Option A)
        → cmp_option f a b ≡ Ordering.lt
        → cmp_option f b c ≡ Ordering.lt
        → cmp_option f a c ≡ Ordering.lt
    chain' none none none x y = x
    chain' none (some b) none x y = cc
    chain' none b (some c) x y = refl
    chain' (some a) none c x y = cc
    chain' (some a) (some b) none x y = cc
    chain' (some a) (some b) (some c) x y = F.chain a b c x y

-- `a` comes at or before `b`.
abbrev pub NotAfter {ℓ} : {A : Type ℓ} → (A → A → Ordering) → A → A → Type 0
NotAfter cmp a b = ¬ (cmp a b ≡ Ordering.gt)

module _ {ℓ} {A : Type ℓ} (cmp : A → A → Ordering) (L : Lawful cmp) where
  later : (a b : A) → cmp a b ≡ Ordering.lt → cmp b a ≡ Ordering.gt
  later a b x = elim (trichotomy (cmp b a)) [
    | is_lt y ↦ cc (L.chain a b a x y, L.itself a)
    | is_eq y ↦ cc (L.same b a y, L.itself a)
    | is_gt y ↦ y
  ]

  pub NotAfter-trans : (a b c : A) → NotAfter cmp a b → NotAfter cmp b c → NotAfter cmp a c
  NotAfter-trans a b c p q r = elim (trichotomy (cmp a b)) [
    | is_lt x ↦ q (later c b (L.chain c a b (L.flip a c r) x))
    | is_eq x ↦ q (cc (L.same a b x))
    | is_gt x ↦ p x
  ]

  pub NotAfter-antisym : (a b : A) → NotAfter cmp a b → NotAfter cmp b a → a ≡ b
  NotAfter-antisym a b p q = elim (trichotomy (cmp a b)) [
    | is_lt x ↦ absurd (q (later a b x))
    | is_eq x ↦ L.same a b x
    | is_gt x ↦ absurd (p x)
  ]
