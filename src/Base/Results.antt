-- ===== src/Base/Results.antt =====
-- Fallible code: a `Result` with its `do` blocks, and `ok_or` of an `Option`.
use mathlib.Core.Path.{◌≡◌, refl}
use mathlib.Core.Option.{Option, none, some}
use mathlib.Core.List.{List, [], ◌∷◌}
use mentra.Base.Lists.{All}

pub data Result {ℓ κ} (A : Type ℓ) (E : Type κ) : Type (ℓ ⊔ κ) where
  ok : A → Result A E
  err : E → Result A E

abbrev pub ok_or {ℓ κ} : {A : Type ℓ} {E : Type κ} → Option A → E → Result A E
ok_or (some a) e = ok a
ok_or none e = err e

-- `Option::or_else`, and `Option::unwrap_or`.
abbrev pub or_else {ℓ} : {A : Type ℓ} → Option A → Option A → Option A
or_else (some a) _ = some a
or_else none other = other

abbrev pub unwrap_or {ℓ} : {A : Type ℓ} → Option A → A → A
unwrap_or (some a) _ = a
unwrap_or none other = other

-- `?`: an error ends the block.
infixl 5 ◌>>=◌
abbrev pub ◌>>=◌ {ℓ ℓ' κ} :
    {A : Type ℓ} {B : Type ℓ'} {E : Type κ} → Result A E → (A → Result B E) → Result B E
err e >>= next = err e
ok a >>= next = next a

-- A check whose success carries no value.
infixl 5 ◌>>◌
abbrev pub ◌>>◌ {ℓ κ} : {B : Type ℓ} {E : Type κ} → Result (Unit {0}) E → Result B E → Result B E
check >> next = check >>= λ _. next

-- A loop whose body may fail with `?`.
abbrev pub for_each {ℓ ℓ' κ} :
    {A : Type ℓ} {S : Type ℓ'} {E : Type κ} → (A → S → Result S E) → List A → S → Result S E
for_each f [] s = ok s
for_each f (a ∷ rest) s = f a s >>= for_each f rest

-- A result that is no error has the property.
abbrev pub Ensures {ℓ κ μ} : {A : Type ℓ} {E : Type κ} → (A → Type μ) → Result A E → Type μ
Ensures P (ok a) = P a
Ensures P (err e) = Unit

module _ {ℓ ℓ' κ μ ν} {A : Type ℓ} {B : Type ℓ'} {E : Type κ} (Q : A → Type μ)
    (P : B → Type ν) where
  pub Ensures->>= :
      (m : Result A E) (f : A → Result B E)
      → Ensures Q m
      → ((a : A) → m ≡ ok a → Q a → Ensures P (f a))
      → Ensures P (m >>= f)
  Ensures->>= (ok a) f q k = k a refl q
  Ensures->>= (err e) f q k = tt

-- A step of which only its success matters.
pub Ensures-then {ℓ ℓ' κ ν} :
    {A : Type ℓ} {B : Type ℓ'} {E : Type κ} (P : B → Type ν) (m : Result A E) (f : A → Result B E)
    → ((a : A) → m ≡ ok a → Ensures P (f a))
    → Ensures P (m >>= f)
Ensures-then P (ok a) f k = k a refl
Ensures-then P (err e) f k = tt

pub Ensures-for_each {ℓ ℓ' κ μ} :
    {A : Type ℓ} {S : Type ℓ'} {E : Type κ} (I : S → Type μ) (f : A → S → Result S E)
    (items : List A) (s : S)
    → ((a : A) (s : S) → I s → Ensures I (f a s))
    → I s
    → Ensures I (for_each f items s)
Ensures-for_each I f [] s keep h = h
Ensures-for_each I f (a ∷ rest) s keep h =
    Ensures->>= I I (f a s) (for_each f rest) (keep a s h)
      (λ s' _ h'. Ensures-for_each I f rest s' keep h')

-- The same, where the items have a property.
pub Ensures-for_each_item {ℓ ℓ' κ μ ν} :
    {A : Type ℓ} {S : Type ℓ'} {E : Type κ} (P : A → Type ν) (I : S → Type μ)
    (f : A → S → Result S E) (items : List A) (s : S)
    → ((a : A) (s : S) → P a → I s → Ensures I (f a s))
    → All P items
    → I s
    → Ensures I (for_each f items s)
Ensures-for_each_item P I f [] s keep all h = h
Ensures-for_each_item P I f (a ∷ rest) s keep all h =
    Ensures->>= I I (f a s) (for_each f rest) (keep a s all.0 h)
      (λ s' _ h'. Ensures-for_each_item P I f rest s' keep all.1 h')

pub Ensures-mono {ℓ κ μ ν} :
    {A : Type ℓ} {E : Type κ} {P : A → Type μ} {Q : A → Type ν} (m : Result A E)
    → Ensures P m
    → ((a : A) → P a → Q a)
    → Ensures Q m
Ensures-mono (ok a) h f = f a h
Ensures-mono (err e) h f = tt

pub Ensures-ok {ℓ κ μ} :
    {A : Type ℓ} {E : Type κ} (P : A → Type μ) (m : Result A E) {a : A}
    → Ensures P m
    → m ≡ ok a
    → P a
Ensures-ok P m h e = rw e at h
