-- ===== src/Permission/Handle.antt =====
-- `SessionPermissionHandle`: the rules of the live session and those of the runtime's store.
use mentra.Base.{
  ◌≡◌, ◌<◌, refl, sym, ap, subst, Option, none, some, List, [], ◌∷◌, ◌++◌, Bool, true, not, retain,
  Bool-cases, inl, inr, ◌⊎◌, arith,
}
use mentra.Base.Results.{Result, ok, err}
use mentra.Base.Text.{Text}
use mentra.Permission.Rules.{
  PermissionRuleScope, scope_eq, scope_rank, PermissionRuleAddress, RememberedRule, Entry,
  RuleStore, address_of, address_eq, insert, add_rule, matching_rule,
}
use mentra.Permission.Listed.{In, In-empty, In-inv}
use mentra.Permission.Applies.{inner_scope}
use mentra.Permission.Governs.{Governs, matching_rule-Governs}

abbrev pub add_rules : List RememberedRule → RuleStore → RuleStore
add_rules [] rules = rules
add_rules (rule ∷ more) rules = add_rules more (add_rule rule rules)

-- The rules that the runtime's store may answer with: a process rule is the live session's alone.
abbrev pub is_stored : RememberedRule → Bool
is_stored rule = not (scope_eq rule.scope PermissionRuleScope.process)

abbrev pub stored_rules : List RememberedRule → RuleStore
stored_rules loaded = add_rules (retain is_stored loaded) []

module _ {E : Type 0} where
  abbrev pub answer_stored :
      Text → Option Text → Result (List RememberedRule) E → Result (Option RememberedRule) E
  answer_stored tool_name input_json (err e) = err e
  answer_stored tool_name input_json (ok loaded) =
      ok (matching_rule (stored_rules loaded) tool_name input_json)

  abbrev pub answer_live :
      Text
      → Option Text
      → Result (List RememberedRule) E
      → Option RememberedRule
      → Result (Option RememberedRule) E
  answer_live tool_name input_json loaded (some rule) = ok (some rule)
  answer_live tool_name input_json loaded none = answer_stored tool_name input_json loaded

  -- `SessionPermissionHandle::matching_rule`: `loaded` is what the runtime's store says.
  unfoldable pub matching_rule_of :
      RuleStore
      → Result (List RememberedRule) E
      → Text
      → Option Text
      → Result (Option RememberedRule) E
  matching_rule_of live loaded tool_name input_json =
      answer_live tool_name input_json loaded (matching_rule live tool_name input_json)

-- Entries of the live session, and entries of the runtime's store.
abbrev pub Live : RuleStore → Type 0
Live rules = (e : Entry) → In e rules → e.0.scope ≡ PermissionRuleScope.process

abbrev pub Stored : RuleStore → Type 0
Stored rules = (e : Entry) → In e rules → 0 < scope_rank e.0.scope

insert-Stored :
    (a : PermissionRuleAddress) (rule : RememberedRule) (rules : RuleStore)
    → 0 < scope_rank a.scope
    → Stored rules
    → Stored (insert a rule rules)
unfolding insert
insert-Stored a rule [] outer stored e m = elim (In-inv m) [
  | inl here ↦ subst (λ z. 0 < scope_rank z.0.scope) (sym here) outer
  | inr none_left ↦ absurd (In-empty none_left)
]
insert-Stored a rule ((b, old) ∷ rules) outer stored e m = elim (Bool-cases (address_eq a b)) [
  | inl same ↦ elim (In-inv (rw same at m)) [
    | inl here ↦ subst (λ z. 0 < scope_rank z.0.scope) (sym here) (stored (b, old) In.head)
    | inr later ↦ stored e (In.tail later)
  ]
  | inr other ↦ elim (In-inv (rw other at m)) [
    | inl here ↦ subst (λ z. 0 < scope_rank z.0.scope) (sym here) (stored (b, old) In.head)
    | inr later ↦ insert-Stored a rule rules outer (λ f l. stored f (In.tail l)) e later
  ]
]

is_stored-outer : (rule : RememberedRule) → is_stored rule ≡ true → 0 < scope_rank rule.scope
is_stored-outer rule outer = go rule.scope outer
  where
    go :
        (s : PermissionRuleScope)
        → not (scope_eq s PermissionRuleScope.process) ≡ true
        → 0 < scope_rank s
    go PermissionRuleScope.process outer = cc
    go PermissionRuleScope.session outer = omega arith
    go PermissionRuleScope.project outer = omega arith
    go PermissionRuleScope.global outer = omega arith

add_rules-Stored :
    (loaded : List RememberedRule) (rules : RuleStore)
    → Stored rules
    → Stored (add_rules (retain is_stored loaded) rules)
add_rules-Stored [] rules stored = stored
add_rules-Stored (rule ∷ loaded) rules stored = elim (Bool-cases (is_stored rule)) [
  | inl outer ↦ rw outer (
      add_rules-Stored loaded (add_rule rule rules)
        (insert-Stored (address_of rule) rule rules (is_stored-outer rule outer) stored))
  | inr live ↦ rw live (add_rules-Stored loaded rules stored)
]

In-left : {e : Entry} (a b : RuleStore) → In e a → In e (a ++ b)
In-left [] b m = elim m [ ]
In-left (x ∷ a) b In.head = In.head
In-left (x ∷ a) b (In.tail m) = In.tail (In-left a b m)

In-right : {e : Entry} (a b : RuleStore) → In e b → In e (a ++ b)
In-right [] b m = m
In-right (x ∷ a) b m = In.tail (In-right a b m)

In-either : {e : Entry} (a b : RuleStore) → In e (a ++ b) → In e a ⊎ In e b
In-either [] b m = inr m
In-either (x ∷ a) b m = elim (In-inv m) [
  | inl here ↦ inl (subst (λ z. In z (x ∷ a)) (sym here) In.head)
  | inr later ↦ elim (In-either a b later) [ inl l ↦ inl (In.tail l) | inr r ↦ inr r ]
]

-- A rule of the live session comes before those of the store.
Governs-Live :
    (live stored : RuleStore) (tool : Text) (input : Option Text) (rule : RememberedRule)
    → Live live
    → Stored stored
    → Governs live tool input (some rule)
    → Governs (live ++ stored) tool input (some rule)
unfolding Governs
Governs-Live live stored tool input rule inside outside (address, listed, applies, first) = (
  address,
  In-left live stored listed,
  applies,
  λ f m x. elim (In-either live stored m) [
    | inl l ↦ first f l x
    | inr r ↦
        let rank = ap scope_rank (inside (address, rule) listed) in
        let outer = outside f r in inner_scope (omega arith)
  ],
)

Governs-Stored :
    (live stored : RuleStore) (tool : Text) (input : Option Text) (o : Option RememberedRule)
    → Governs live tool input none
    → Governs stored tool input o
    → Governs (live ++ stored) tool input o
unfolding Governs
Governs-Stored live stored tool input none no_live no_stored =
    λ f m. elim (In-either live stored m) [ inl l ↦ no_live f l | inr r ↦ no_stored f r ]
Governs-Stored live stored tool input (some rule) no_live (address, listed, applies, first) = (
  address,
  In-right live stored listed,
  applies,
  λ f m x. elim (In-either live stored m) [ inl l ↦ absurd (no_live f l x) | inr r ↦ first f r x ],
)

module _ {E : Type 0} where
  -- What the answer promises: it governs the live rules and the stored ones together; if the store
  -- fails, a live rule answers or the failure is the answer.
  unfoldable pub Answers :
      RuleStore
      → Result (List RememberedRule) E
      → Text
      → Option Text
      → Result (Option RememberedRule) E
      → Type 0
  Answers live (ok rules) tool input r =
      (o : Option RememberedRule) × (r ≡ ok o) × Governs (live ++ stored_rules rules) tool input o
  Answers live (err e) tool input r =
      ((rule : RememberedRule) × (r ≡ ok (some rule)) × Governs live tool input (some rule))
      ⊎ ((r ≡ err e) × Governs live tool input none)

  answer_live-Answers :
      (live : RuleStore) (loaded : Result (List RememberedRule) E) (tool : Text)
      (input : Option Text) (o : Option RememberedRule)
      → Live live
      → Governs live tool input o
      → Answers live loaded tool input (answer_live tool input loaded o)
  unfolding Answers
  answer_live-Answers live (ok rules) tool input (some rule) inside governs = (
    some rule,
    refl,
    Governs-Live live (stored_rules rules) tool input rule inside
        (add_rules-Stored rules [] (λ e m. absurd (In-empty m))) governs,
  )
  answer_live-Answers live (ok rules) tool input none inside governs = (
    matching_rule (stored_rules rules) tool input,
    refl,
    Governs-Stored live (stored_rules rules) tool input _ governs
        (matching_rule-Governs (stored_rules rules) tool input),
  )
  answer_live-Answers live (err e) tool input (some rule) inside governs = inl (rule, refl, governs)
  answer_live-Answers live (err e) tool input none inside governs = inr (refl, governs)

  -- Where the live session's store holds process rules only, looking there first and then among the
  -- rules that the runtime's store loads answers as if both were one store. When that store fails,
  -- a live rule that applies still answers, and without one the failure is returned.
  pub matching_rule_of-Answers :
      (live : RuleStore) (loaded : Result (List RememberedRule) E) (tool : Text)
      (input : Option Text)
      → Live live
      → Answers live loaded tool input (matching_rule_of live loaded tool input)
  unfolding matching_rule_of
  matching_rule_of-Answers live loaded tool input inside =
      answer_live-Answers live loaded tool input (matching_rule live tool input) inside
        (matching_rule-Governs live tool input)
