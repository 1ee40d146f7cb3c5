-- ===== src/Permission/Listed.antt =====
-- What the searches of a rule store return: its entries, and the least of those that pass.
use Prim.Native.Nat.{Ordering}
use mentra.Base.{
  ◌≡◌, ◌⊎◌, inl, inr, refl, subst, sym, ◌∙◌, none, some, List, [], ◌∷◌, Bool, true, false, find,
  retain, All, Bool-cases,
}
use mathlib.Core.Option.{some-injective}
use mentra.Permission.Order.{Lawful, NotAfter, NotAfter-trans, least}

-- `a` is an entry of the list.
pub data In {ℓ} {A : Type ℓ} (a : A) : List A → Type ℓ where
  head : {xs : List A} → In a (a ∷ xs)
  tail : {b : A} {xs : List A} → In a xs → In a (b ∷ xs)

module _ {ℓ} {A : Type ℓ} where
  pub In-empty : {a : A} → ¬ (In a [])
  In-empty m = elim m [ ]

  pub In-inv : {a b : A} {xs : List A} → In a (b ∷ xs) → (a ≡ b) ⊎ In a xs
  In-inv In.head = inl refl
  In-inv (In.tail m) = inr m

  pub All-In {κ} : (P : A → Type κ) {a : A} (xs : List A) → All P xs → In a xs → P a
  All-In P [] all m = absurd (In-empty m)
  All-In P (x ∷ xs) (p, all) In.head = p
  All-In P (x ∷ xs) (p, all) (In.tail m) = All-In P xs all m

  pub retain-In : (p : A → Bool) (xs : List A) {a : A} → In a (retain p xs) → In a xs × (p a ≡ true)
  retain-In p [] m = absurd (In-empty m)
  retain-In p (x ∷ xs) m = elim (Bool-cases (p x)) [
    | inl hit ↦ elim (In-inv (rw hit at m)) [
      | inl e ↦ (subst (λ z. In z (x ∷ xs)) (sym e) In.head, cc)
      | inr l ↦ let (k, t) = retain-In p xs l in (In.tail k, t)
    ]
    | inr miss ↦ let (k, t) = retain-In p xs (rw miss at m) in (In.tail k, t)
  ]

  pub In-retain : (p : A → Bool) (xs : List A) {a : A} → In a xs → p a ≡ true → In a (retain p xs)
  In-retain p [] m t = elim m [ ]
  In-retain p (x ∷ xs) In.head t = rw t In.head
  In-retain p (x ∷ xs) (In.tail m) t = elim (Bool-cases (p x)) [
    | inl hit ↦ rw hit (In.tail (In-retain p xs m t))
    | inr miss ↦ rw miss (In-retain p xs m t)
  ]

  pub find-In : (p : A → Bool) (xs : List A) {a : A} → find p xs ≡ some a → In a xs × (p a ≡ true)
  find-In p [] e = cc
  find-In p (x ∷ xs) e = elim (Bool-cases (p x)) [
    | inl hit ↦
        let q = some-injective _ _ (rw hit at e) in
        subst (λ z. In z (x ∷ xs) × (p z ≡ true)) q (In.head, hit)
    | inr miss ↦ let (k, t) = find-In p xs (rw miss at e) in (In.tail k, t)
  ]

  pub find-In-none : (p : A → Bool) (xs : List A) {a : A} → find p xs ≡ none → In a xs → p a ≡ false
  find-In-none p [] e m = elim m [ ]
  find-In-none p (x ∷ xs) e In.head = elim (Bool-cases (p x)) [
    | inl hit ↦ cc (rw hit at e)
    | inr miss ↦ miss
  ]
  find-In-none p (x ∷ xs) e (In.tail m) = elim (Bool-cases (p x)) [
    | inl hit ↦ cc (rw hit at e)
    | inr miss ↦ find-In-none p xs (rw miss at e) m
  ]

module _ {ℓ κ} {A : Type ℓ} {B : Type κ} (key : A → B) (cmp : B → B → Ordering)
    (L : Lawful cmp) where
  -- Comparing by a key.
  abbrev pub by_key : A → A → Ordering
  by_key x y = cmp (key x) (key y)

  abbrev chosen : Ordering → A → A → A
  chosen o a x = elim o [ Ordering.gt ↦ x | _ ↦ a ]

  abbrev better : A → A → A
  better a x = chosen (by_key a x) a x

  itself : (a : A) → NotAfter by_key a a
  itself a e = cc (L.itself (key a))

  better-NotAfter :
      (a x : A)
      → (o : Ordering) → by_key a x ≡ o
      → ((chosen o a x ≡ a) ⊎ (chosen o a x ≡ x))
        × NotAfter by_key (chosen o a x) a
        × NotAfter by_key (chosen o a x) x
  better-NotAfter a x Ordering.lt e = (inl refl, itself a, λ g. cc)
  better-NotAfter a x Ordering.eq e = (inl refl, itself a, λ g. cc)
  better-NotAfter a x Ordering.gt e = (inr refl, (λ g. cc (L.flip (key a) (key x) e)), itself x)

  -- What `least` returns is an entry, and no entry comes before it.
  pub least-NotAfter :
      (a : A) (xs : List A)
      → In (least by_key a xs) (a ∷ xs)
        × ((f : A) → In f (a ∷ xs) → NotAfter by_key (least by_key a xs) f)
  unfolding least
  least-NotAfter a [] = (
    In.head,
    λ f m. elim (In-inv m) [
      | inl e ↦ subst (λ z. NotAfter by_key a z) (sym e) (itself a)
      | inr l ↦ absurd (In-empty l)
    ],
  )
  least-NotAfter a (x ∷ xs) =
      let (among, before) = least-NotAfter (better a x) xs in
      let (which, not_a, not_x) = better-NotAfter a x (by_key a x) refl in
      let on : (f : A)
          → NotAfter by_key (better a x) f
          → NotAfter by_key (least by_key (better a x) xs) f =
        λ f p. NotAfter-trans cmp L _ _ _ (before (better a x) In.head) p in
      (
        elim (In-inv among) [
          | inl e ↦ elim which [
            | inl w ↦ subst (λ z. In z (a ∷ x ∷ xs)) (sym (e ∙ w)) In.head
            | inr w ↦ subst (λ z. In z (a ∷ x ∷ xs)) (sym (e ∙ w)) (In.tail In.head)
          ]
          | inr l ↦ In.tail (In.tail l)
        ],
        λ f m. elim (In-inv m) [
          | inl e ↦
              subst (λ z. NotAfter by_key (least by_key (better a x) xs) z) (sym e) (on a not_a)
          | inr l ↦ elim (In-inv l) [
            | inl e ↦
                subst (λ z. NotAfter by_key (least by_key (better a x) xs) z) (sym e) (on x not_x)
            | inr k ↦ before f (In.tail k)
          ]
        ],
      )
