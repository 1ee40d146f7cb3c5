-- ===== src/Permission/Store.antt =====
-- Edits of a rule store: `add_rule`, `revoke_rule` and `clear_scope`, one after the other.
use mentra.Base.{
  ◌≡◌, ◌≢◌, ◌↔◌, ◌⊎◌, ◌∙◌, inl, inr, refl, sym, ap, subst, Option, none, some, List, [], ◌∷◌, Bool,
  true, false, not, Bool-cases, retain,
}
use mathlib.Core.Option.{some-injective}
use mentra.Base.Text.{Text, text_eq_iff}
use mentra.Permission.Rules.{
  PermissionRuleScope, scope_eq, PermissionRuleAddress, RememberedRule, Entry, RuleStore,
  address_of, address_eq, pattern_eq, insert, add_rule, revoke_rule, clear_scope,
}
use mentra.Permission.Listed.{In, In-empty, In-inv, retain-In, In-retain}
use mentra.Permission.Governs.{Keyed}
use mentra.Permission.Applies.{scope_eq_iff, and_iff, address_ext}

pub data Edit : Type 0 where
  add : RememberedRule → Edit
  revoke : PermissionRuleAddress → Edit
  clear : PermissionRuleScope → Edit

unfoldable pub edit : Edit → RuleStore → RuleStore
edit (Edit.add rule) rules = add_rule rule rules
edit (Edit.revoke address) rules = (revoke_rule address rules).0
edit (Edit.clear scope) rules = (clear_scope scope rules).0

unfoldable pub edit_all : List Edit → RuleStore → RuleStore
edit_all [] rules = rules
edit_all (e ∷ es) rules = edit_all es (edit e rules)

pattern_eq_iff : (o o' : Option Text) → (pattern_eq o o' ≡ true) ↔ (o ≡ o')
unfolding pattern_eq
pattern_eq_iff none none = (λ _. refl, λ _. refl)
pattern_eq_iff none (some q) = (λ e. cc, λ e. cc)
pattern_eq_iff (some p) none = (λ e. cc, λ e. cc)
pattern_eq_iff (some p) (some q) =
    (λ e. ap some ((text_eq_iff p q).0 e), λ e. (text_eq_iff p q).1 (some-injective _ _ e))

address_eq_iff : (a b : PermissionRuleAddress) → (address_eq a b ≡ true) ↔ (a ≡ b)
unfolding address_eq
address_eq_iff a b = (
  (λ h.
      let (s, tp) = (and_iff _ _).0 h in
      let (t, p) = (and_iff _ _).0 tp in
      address_ext a b ((scope_eq_iff _ _).0 s) ((text_eq_iff _ _).0 t) ((pattern_eq_iff _ _).0 p)),
  λ e. (and_iff _ _).1 (
    (scope_eq_iff a.scope b.scope).1 (ap (λ z. z.scope) e),
    (and_iff _ _).1 (
      (text_eq_iff a.key.tool_name b.key.tool_name).1 (ap (λ z. z.key.tool_name) e),
      (pattern_eq_iff a.key.pattern b.key.pattern).1 (ap (λ z. z.key.pattern) e),
    ),
  ),
)

-- Each address once.
abbrev pub Unique : RuleStore → Type 0
Unique [] = Unit
Unique ((a, r) ∷ rules) = ((e : Entry) → In e rules → e.0 ≢ a) × Unique rules

not_iff : (b : Bool) → (not b ≡ true) ↔ (b ≢ true)
not_iff true = (λ e. cc, λ n. absurd (n refl))
not_iff false = (λ _ e. cc, λ _. refl)

retain-Unique : (p : Entry → Bool) (rules : RuleStore) → Unique rules → Unique (retain p rules)
retain-Unique p [] u = tt
retain-Unique p (x ∷ rules) (new, u) = elim (Bool-cases (p x)) [
  | inl hit ↦ rw hit ((λ e m. new e (retain-In p rules m).0), retain-Unique p rules u)
  | inr miss ↦ rw miss (retain-Unique p rules u)
]

insert_iff :
    (a : PermissionRuleAddress) (r : RememberedRule) (rules : RuleStore) (e : Entry)
    → Unique rules
    → In e (insert a r rules) ↔ ((e ≡ (a, r)) ⊎ (In e rules × (e.0 ≢ a)))
unfolding insert
insert_iff a r [] e u = (
  (λ m. elim (In-inv m) [ inl q ↦ inl q | inr l ↦ absurd (In-empty l) ]),
  λ s. elim s [
    | inl q ↦ subst (λ z. In z ((a, r) ∷ [])) (sym q) In.head
    | inr l ↦ absurd (In-empty l.0)
  ],
)
insert_iff a r ((b, old) ∷ rules) e (new, u) = elim (Bool-cases (address_eq a b)) [
  | inl hit ↦
      let same = (address_eq_iff a b).0 hit in
      rw hit (
        (λ m. elim (In-inv m) [
          | inl q ↦ inl (q ∙ ap (λ z. (z, r)) (sym same))
          | inr l ↦ inr (In.tail l, λ at. new e l (at ∙ same))
        ]),
        λ s. elim s [
          | inl q ↦ subst (λ z. In z ((b, r) ∷ rules)) (sym (q ∙ ap (λ z. (z, r)) same)) In.head
          | inr l ↦ elim (In-inv l.0) [
            | inl q ↦ absurd (l.1 (ap (λ z. z.0) q ∙ sym same))
            | inr k ↦ In.tail k
          ]
        ],
      )
  | inr miss ↦
      let (into, out) = insert_iff a r rules e u in
      let other : b ≢ a = λ q. cc ((address_eq_iff a b).1 (sym q)) in
      rw miss (
        (λ m. elim (In-inv m) [
          | inl q ↦ inr (
            subst (λ z. In z ((b, old) ∷ rules)) (sym q) In.head,
            λ at. other (sym (ap (λ z. z.0) q) ∙ at),
          )
          | inr l ↦ elim (into l) [ inl q ↦ inl q | inr (k, n) ↦ inr (In.tail k, n) ]
        ]),
        λ s. elim s [
          | inl q ↦ In.tail (out (inl q))
          | inr l ↦ elim (In-inv l.0) [
            | inl q ↦ subst (λ z. In z ((b, old) ∷ insert a r rules)) (sym q) In.head
            | inr k ↦ In.tail (out (inr (k, l.1)))
          ]
        ],
      )
]

insert-Unique :
    (a : PermissionRuleAddress) (r : RememberedRule) (rules : RuleStore)
    → Unique rules
    → Unique (insert a r rules)
unfolding insert
insert-Unique a r [] u = ((λ e m. absurd (In-empty m)), tt)
insert-Unique a r ((b, old) ∷ rules) (new, u) = elim (Bool-cases (address_eq a b)) [
  | inl hit ↦ rw hit (new, u)
  | inr miss ↦ rw miss (
    (λ e m at. elim ((insert_iff a r rules e u).0 m) [
      | inl q ↦ cc ((address_eq_iff a b).1 (sym (ap (λ z. z.0) q) ∙ at))
      | inr l ↦ new e l.0 at
    ]),
    insert-Unique a r rules u,
  )
]

-- The entries that an edit is meant to leave.
unfoldable pub Left : Edit → RuleStore → Entry → Type 0
Left (Edit.add rule) rules e =
    (e ≡ (address_of rule, rule)) ⊎ (In e rules × (e.0 ≢ address_of rule))
Left (Edit.revoke address) rules e = In e rules × (e.0 ≢ address)
Left (Edit.clear scope) rules e = In e rules × (e.0.scope ≢ scope)

retain_iff :
    (p : Entry → Bool) (rules : RuleStore) (e : Entry)
    → In e (retain (λ x. not (p x)) rules) ↔ (In e rules × (p e ≢ true))
retain_iff p rules e = (
  (λ m. let (l, t) = retain-In (λ x. not (p x)) rules m in (l, (not_iff (p e)).0 t)),
  λ (l, n). In-retain (λ x. not (p x)) rules l ((not_iff (p e)).1 n),
)

-- An edit changes exactly the entries that it names: adding a rule puts it at its address in place
-- of the rule there, revoking removes the rule at that address, clearing removes the rules of that
-- scope, and every other entry stays.
pub edit_iff :
    (d : Edit) (rules : RuleStore) (e : Entry) → Unique rules → In e (edit d rules) ↔ Left d rules e
unfolding edit Left revoke_rule clear_scope
edit_iff (Edit.add rule) rules e u = insert_iff (address_of rule) rule rules e u
edit_iff (Edit.revoke address) rules e u =
    let (into, out) = retain_iff (λ x. address_eq address x.0) rules e in
    (
      (λ m. let (l, n) = into m in (l, λ q. n ((address_eq_iff address e.0).1 (sym q)))),
      λ (l, n). out (l, λ t. n (sym ((address_eq_iff address e.0).0 t))),
    )
edit_iff (Edit.clear scope) rules e u =
    let (into, out) = retain_iff (λ x. scope_eq x.0.scope scope) rules e in
    (
      (λ m. let (l, n) = into m in (l, λ q. n ((scope_eq_iff e.0.scope scope).1 q))),
      λ (l, n). out (l, λ t. n ((scope_eq_iff e.0.scope scope).0 t)),
    )

pub edit-Unique : (d : Edit) (rules : RuleStore) → Unique rules → Unique (edit d rules)
unfolding edit revoke_rule clear_scope
edit-Unique (Edit.add rule) rules u = insert-Unique (address_of rule) rule rules u
edit-Unique (Edit.revoke address) rules u =
    retain-Unique (λ x. not (address_eq address x.0)) rules u
edit-Unique (Edit.clear scope) rules u = retain-Unique (λ x. not (scope_eq x.0.scope scope)) rules u

-- With each address once, the entry at an address is known by it.
pub Unique-Keyed : (rules : RuleStore) → Unique rules → Keyed rules
Unique-Keyed [] u e f m n q = absurd (In-empty m)
Unique-Keyed (x ∷ rules) (new, u) e f m n q = elim (In-inv m) [
  | inl a ↦ elim (In-inv n) [
    | inl b ↦ a ∙ sym b
    | inr l ↦ absurd (new f l (sym q ∙ ap (λ z. z.0) a))
  ]
  | inr k ↦ elim (In-inv n) [
    | inl b ↦ absurd (new e k (q ∙ ap (λ z. z.0) b))
    | inr l ↦ Unique-Keyed rules u e f k l q
  ]
]
