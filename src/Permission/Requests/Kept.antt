-- ===== src/Permission/Requests/Kept.antt =====
-- The invariant of the pending requests, and that taking and leaving keep it.
use mentra.Base.{
  ℕ, ◌<◌, ◌≡◌, ◌≢◌, ◌⊎◌, inl, inr, ◌∙◌, refl, sym, ap, subst, Option, none, some, Bool, true,
  Bool-cases, ◌==◌, ==_iff,
}
use mathlib.Core.Option.{some-injective}
use mentra.Base.Text.{Text, text_eq, text_eq_iff, text_eq_refl}
use mentra.Permission.Requests.Store.{PendingPermission, WaitGuard, waiting, Requests, update, put}
use mentra.Permission.Requests.Resolve.{Claim}

abbrev pub guard_of : Text → PendingPermission → WaitGuard
guard_of id p = record { request_id = id; generation = p.generation; lifecycle = p.lifecycle }

-- A request in the map: its call still waits under its guard, and nobody has taken it.
abbrev pub Stored :
    ℕ → (ℕ → Bool) → (ℕ → Option WaitGuard) → (ℕ → Option Claim) → Text → PendingPermission → Type 0
Stored allocated lifecycles guards claims id p =
    (p.lifecycle < allocated)
    × (lifecycles p.lifecycle ≡ true)
    × (guards p.lifecycle ≡ some (guard_of id p))
    × (p.entry.sender ≡ p.lifecycle)
    × (claims p.lifecycle ≡ none)
    × (p.generation ≡ p.lifecycle)

-- A request that a resolver has taken: while its lock says so, its call still waits.
abbrev pub Held : ℕ → (ℕ → Bool) → (ℕ → Option WaitGuard) → ℕ → Claim → Type 0
Held allocated lifecycles guards a c =
    (a < allocated)
    × (c.held.lifecycle ≡ a)
    × (c.held.entry.sender ≡ a)
    × (lifecycles a ≡ true → guards a ≡ some (guard_of c.request_id c.held))
    × (c.held.generation ≡ a)

-- The sender of a request is in the map or with a resolver.
abbrev pub Reachable : (Text → Option PendingPermission) → (ℕ → Option Claim) → ℕ → Type 0
Reachable pending claims a =
    ((id : Text) × (p : PendingPermission) × (pending id ≡ some p) × (p.lifecycle ≡ a))
    ⊎ ((c : Claim) × (claims a ≡ some c))

pub record Kept (r : Requests) (guards : ℕ → Option WaitGuard) (claims : ℕ → Option Claim)
    : Type 0 where
  pub stored :
      (id : Text) (p : PendingPermission)
      → r.pending id ≡ some p
      → Stored r.allocated r.lifecycles guards claims id p
  pub held : (a : ℕ) (c : Claim) → claims a ≡ some c → Held r.allocated r.lifecycles guards a c
  pub heard : (a : ℕ) → a < r.allocated → r.channels a ≡ waiting → Reachable r.pending claims a
  pub next : r.next_generation ≡ r.allocated
  pub own :
      (a : ℕ) (g : WaitGuard)
      → guards a ≡ some g
      → (g.lifecycle ≡ a) × (a < r.allocated) × (g.generation ≡ a)

-- What may differ between two states away from one address: nothing that matters.
pub record Touches (a : ℕ) (r : Requests) (guards : ℕ → Option WaitGuard)
    (claims : ℕ → Option Claim) (r' : Requests) (guards' : ℕ → Option WaitGuard)
    (claims' : ℕ → Option Claim) : Type 0 where
  pub grows : (k : ℕ) → k < r.allocated → k < r'.allocated
  pub only_there : (k : ℕ) → k ≢ a → k < r'.allocated → k < r.allocated
  pub locks : (k : ℕ) → k ≢ a → r'.lifecycles k ≡ r.lifecycles k
  pub guards_stay : (k : ℕ) → k ≢ a → guards' k ≡ guards k
  pub claims_stay : (k : ℕ) → k ≢ a → claims' k ≡ claims k
  pub waits : (k : ℕ) → k ≢ a → r'.channels k ≡ waiting → r.channels k ≡ waiting
  pub from :
      (id : Text) (p : PendingPermission)
      → r'.pending id ≡ some p
      → p.lifecycle ≢ a
      → r.pending id ≡ some p
  pub to :
      (id : Text) (p : PendingPermission)
      → r.pending id ≡ some p
      → p.lifecycle ≢ a
      → r'.pending id ≡ some p

-- The invariant at one address.
pub record KeptAt (a : ℕ) (r : Requests) (guards : ℕ → Option WaitGuard) (claims : ℕ → Option Claim)
    : Type 0 where
  pub stored_at :
      (id : Text) (p : PendingPermission)
      → r.pending id ≡ some p
      → p.lifecycle ≡ a
      → Stored r.allocated r.lifecycles guards claims id p
  pub held_at : (c : Claim) → claims a ≡ some c → Held r.allocated r.lifecycles guards a c
  pub heard_at : r.channels a ≡ waiting → Reachable r.pending claims a
  pub own_at :
      (g : WaitGuard)
      → guards a ≡ some g
      → (g.lifecycle ≡ a) × (a < r.allocated) × (g.generation ≡ a)

pub same_address : (k a : ℕ) → (k ≡ a) ⊎ (k ≢ a)
same_address k a = elim (Bool-cases (k == a)) [
  | inl t ↦ inl ((==_iff k a).0 t)
  | inr f ↦ inr (λ e. cc (f, (==_iff k a).1 e))
]

module _ {a : ℕ} {r : Requests} {guards : ℕ → Option WaitGuard} {claims : ℕ → Option Claim}
    {r' : Requests} {guards' : ℕ → Option WaitGuard} {claims' : ℕ → Option Claim} where
  -- A step that touches one address keeps the invariant if it keeps it there.
  pub Touches-Kept :
      Kept r guards claims
      → Touches a r guards claims r' guards' claims'
      → KeptAt a r' guards' claims'
      → r'.next_generation ≡ r'.allocated
      → Kept r' guards' claims'
  Touches-Kept kept t at next = record {
    next = next;
    stored = λ id p e. elim (same_address p.lifecycle a) [
      | inl here ↦ at.stored_at id p e here
      | inr away ↦
          let (lt, active, guarded, sends, free, gen) = kept.stored id p (t.from id p e away) in
          (
            t.grows p.lifecycle lt,
            t.locks p.lifecycle away ∙ active,
            t.guards_stay p.lifecycle away ∙ guarded,
            sends,
            t.claims_stay p.lifecycle away ∙ free,
            gen,
          )
    ];
    held = λ k c e. elim (same_address k a) [
      | inl here ↦
          subst (λ z. Held r'.allocated r'.lifecycles guards' z c) (sym here)
            (at.held_at c (ap claims' (sym here) ∙ e))
      | inr away ↦
          let (lt, own, sends, guarded, gen) = kept.held k c (sym (t.claims_stay k away) ∙ e) in
          (
            t.grows k lt,
            own,
            sends,
            λ active. t.guards_stay k away ∙ guarded (sym (t.locks k away) ∙ active),
            gen,
          )
    ];
    heard = λ k lt w. elim (same_address k a) [
      | inl here ↦
          subst (Reachable r'.pending claims') (sym here)
            (at.heard_at (ap r'.channels (sym here) ∙ w))
      | inr away ↦ elim (kept.heard k (t.only_there k away lt) (t.waits k away w)) [
        | inl (id, p, e, l) ↦ inl (id, p, t.to id p e (λ x. away (sym l ∙ x)), l)
        | inr (c, e) ↦ inr (c, t.claims_stay k away ∙ e)
      ]
    ];
    own = λ k g e. elim (same_address k a) [
      | inl here ↦
          let (l, lt, gen) = at.own_at g (ap guards' (sym here) ∙ e) in
          (l ∙ sym here, subst (λ z. z < r'.allocated) (sym here) lt, gen ∙ sym here)
      | inr away ↦
          let (l, lt, gen) = kept.own k g (sym (t.guards_stay k away) ∙ e) in (l, t.grows k lt, gen)
    ];
  }

-- Two requests in the map with one lock are one.
pub Kept-one :
    {r : Requests} {guards : ℕ → Option WaitGuard} {claims : ℕ → Option Claim} (id id' : Text)
    (p p' : PendingPermission)
    → Kept r guards claims
    → r.pending id ≡ some p
    → r.pending id' ≡ some p'
    → p.lifecycle ≡ p'.lifecycle
    → id ≡ id'
Kept-one {guards = guards} id id' p p' kept e e' same =
    let g = (kept.stored id p e).2 in
    let g' = (kept.stored id' p' e').2 in
    ap (λ z. z.request_id) (some-injective _ _ (sym g ∙ ap guards same ∙ g'))

pub update-same {ℓ} : {A : Type ℓ} (f : ℕ → A) (a : ℕ) (v : A) (k : ℕ) → k ≡ a → update f a v k ≡ v
update-same f a v k e = let t = (==_iff k a).1 e in rw t refl

pub update-other {ℓ} :
    {A : Type ℓ} (f : ℕ → A) (a : ℕ) (v : A) (k : ℕ) → k ≢ a → update f a v k ≡ f k
update-other f a v k n = elim (Bool-cases (k == a)) [
  | inl t ↦ absurd (n ((==_iff k a).0 t))
  | inr t ↦ rw t refl
]

pub put-same {ℓ} : {A : Type ℓ} (f : Text → A) (id : Text) (v : A) → put f id v id ≡ v
put-same f id v = rw (text_eq_refl id) refl

pub put-other {ℓ} :
    {A : Type ℓ} (f : Text → A) (id : Text) (v : A) (k : Text) → k ≢ id → put f id v k ≡ f k
put-other f id v k n = elim (Bool-cases (text_eq k id)) [
  | inl t ↦ absurd (n ((text_eq_iff k id).0 t))
  | inr t ↦ rw t refl
]

pub same_id : (k id : Text) → (k ≡ id) ⊎ (k ≢ id)
same_id k id = elim (Bool-cases (text_eq k id)) [
  | inl t ↦ inl ((text_eq_iff k id).0 t)
  | inr f ↦ inr (λ e. cc (f, (text_eq_iff k id).1 e))
]

-- What is left in the map after an entry was taken out.
pub removed :
    (pending : Text → Option PendingPermission) (id k : Text) (p : PendingPermission)
    → put pending id none k ≡ some p
    → (k ≢ id) × (pending k ≡ some p)
removed pending id k p e = elim (same_id k id) [
  | inl here ↦ cc (ap (put pending id none) (sym here) ∙ e, put-same pending id none)
  | inr away ↦ (away, sym (put-other pending id none k away) ∙ e)
]
