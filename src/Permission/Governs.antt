-- ===== src/Permission/Governs.antt =====
-- What `RuleStore::matching_rule` and `check` promise.
use mentra.Base.{subst, ◌≤◌, ◌<◌, ◌≡◌, ◌↔◌, refl, sym, ap, ◌∙◌, Option, none, some, false, arith}
use mentra.Base.Text.{Text}
use mentra.Permission.Rules.{
  PermissionRuleScope, scope_rank, scope_precedence, PermissionRuleAddress, RememberedRule, Entry,
  RuleStore, rule_of, first_answer, matching_rule, check,
}
use mentra.Permission.Listed.{In}
use mathlib.Core.Option.{some-injective}
use mentra.Permission.Alphabet.{AtOrBefore, AtOrBefore-antisym}
use mentra.Permission.Applies.{address_ext, Applies, Precedes}
use mentra.Permission.Answer.{Sorted, FirstOf, first_answer-FirstOf}

-- Every scope is among those that the loop visits, in the order of their ranks.
every_scope : (s : PermissionRuleScope) → In s scope_precedence
every_scope PermissionRuleScope.process = In.head
every_scope PermissionRuleScope.session = In.tail In.head
every_scope PermissionRuleScope.project = In.tail (In.tail In.head)
every_scope PermissionRuleScope.global = In.tail (In.tail (In.tail In.head))

scope_precedence-Sorted : (tool : Text) (input : Option Text) → Sorted tool input scope_precedence
scope_precedence-Sorted tool input = (
  (omega arith, (omega arith, (omega arith, tt))),
  ((omega arith, (omega arith, tt)), ((omega arith, tt), (tt, tt))),
)

-- What an answer to a call promises: the rule is stored and applies, and comes before every stored
-- rule that applies; without an answer, none applies.
unfoldable pub Governs : RuleStore → Text → Option Text → Option RememberedRule → Type 0
Governs rules tool input none = (f : Entry) → In f rules → ¬ (Applies tool input f)
Governs rules tool input (some rule) =
    (address : PermissionRuleAddress) × In (address, rule) rules
    × Applies tool input (address, rule)
    × ((f : Entry) → In f rules → Applies tool input f → Precedes (address, rule) f)

-- The rule that answers a call is stored, names the tool and has a pattern that matches the whole
-- input or no pattern, and it comes before every other such rule: an inner scope first, then a
-- pattern before the bare rule, then a denial before an allowance, then the pattern that comes first
-- in the order of the characters. Without an answer, no stored rule applies.
pub matching_rule-Governs :
    (rules : RuleStore) (tool : Text) (input : Option Text)
    → Governs rules tool input (matching_rule rules tool input)
unfolding Governs FirstOf
matching_rule-Governs rules tool input =
    go (first_answer rules tool input scope_precedence)
      (first_answer-FirstOf tool input rules scope_precedence (scope_precedence-Sorted tool input))
  where
    go :
        (o : Option Entry)
        → FirstOf tool input rules scope_precedence o
        → Governs rules tool input (rule_of o)
    go none first = λ f m. first f m (every_scope f.0.scope)
    go (some (address, rule)) (listed, at, applies, first) =
        (address, listed, applies, λ f m. first f m (every_scope f.0.scope))

-- Entries with one address are one entry.
abbrev pub Keyed : RuleStore → Type 0
Keyed rules = (e f : Entry) → In e rules → In f rules → e.0 ≡ f.0 → e ≡ f

not_before : (e f : Entry) → scope_rank e.0.scope < scope_rank f.0.scope → ¬ (Precedes f e)
not_before e f lt (Precedes.inner_scope gt) = omega arith
not_before e f lt (Precedes.patterned s a b) = let q = ap scope_rank s in omega arith
not_before e f lt (Precedes.denial s a b d n) = let q = ap scope_rank s in omega arith
not_before e f lt (Precedes.by_pattern s a b m n) = let q = ap scope_rank s in omega arith
not_before e f lt (Precedes.bare s a b) = let q = ap scope_rank s in omega arith

Precedes-antisym :
    (tool : Text) (input : Option Text) (e f : Entry)
    → Applies tool input e
    → Applies tool input f
    → Precedes e f
    → Precedes f e
    → e.0 ≡ f.0
Precedes-antisym tool input e f x y (Precedes.inner_scope lt) q = absurd (not_before e f lt q)
Precedes-antisym tool input e f x y p (Precedes.inner_scope lt) = absurd (not_before f e lt p)
Precedes-antisym tool input e f x y (Precedes.patterned s a b) (Precedes.patterned s' a' b') = cc
Precedes-antisym tool input e f x y (Precedes.patterned s a b) (Precedes.denial s' a' b' d n) = cc
Precedes-antisym tool input e f x y (Precedes.patterned s a b) (Precedes.by_pattern s' a' b' m n) =
    cc
Precedes-antisym tool input e f x y (Precedes.patterned s a b) (Precedes.bare s' a' b') = cc
Precedes-antisym tool input e f x y (Precedes.denial s a b d n) (Precedes.patterned s' a' b') = cc
Precedes-antisym tool input e f x y (Precedes.denial s a b d n) (Precedes.denial s' a' b' d' n') =
    cc
Precedes-antisym tool input e f x y (Precedes.denial s a b d n)
      (Precedes.by_pattern s' a' b' m' n') =
    cc
Precedes-antisym tool input e f x y (Precedes.denial s a b d n) (Precedes.bare s' a' b') = cc
Precedes-antisym tool input e f x y (Precedes.by_pattern s a b m n) (Precedes.patterned s' a' b') =
    cc
Precedes-antisym tool input e f x y (Precedes.by_pattern s a b m n)
      (Precedes.denial s' a' b' d' n') =
    cc
Precedes-antisym tool input e f x y (Precedes.by_pattern {p = p} {q = q} s a b m n)
      (Precedes.by_pattern {p = p'} {q = q'} s' a' b' m' n') =
    let q_same : q ≡ p' = some-injective _ _ (sym b ∙ a') in
    let p_same : p ≡ q' = some-injective _ _ (sym a ∙ b') in
    let back : AtOrBefore q p =
      subst (λ z. AtOrBefore z p) (sym q_same) (subst (λ z. AtOrBefore p' z) (sym p_same) n') in
    address_ext e.0 f.0 s (x.names_tool ∙ sym y.names_tool)
      (a ∙ ap some (AtOrBefore-antisym p q n back) ∙ sym b)
Precedes-antisym tool input e f x y (Precedes.by_pattern s a b m n) (Precedes.bare s' a' b') = cc
Precedes-antisym tool input e f x y (Precedes.bare s a b) (Precedes.patterned s' a' b') = cc
Precedes-antisym tool input e f x y (Precedes.bare s a b) (Precedes.denial s' a' b' d n) = cc
Precedes-antisym tool input e f x y (Precedes.bare s a b) (Precedes.by_pattern s' a' b' m n) = cc
Precedes-antisym tool input e f x y (Precedes.bare s a b) (Precedes.bare s' a' b') =
    address_ext e.0 f.0 s (x.names_tool ∙ sym y.names_tool) (a ∙ sym b)

-- The order in which the map lists its entries does not matter: two stores with the same entries,
-- each address once, answer every call alike.
pub matching_rule_order :
    (rules rules' : RuleStore) (tool : Text) (input : Option Text)
    → Keyed rules
    → ((e : Entry) → In e rules ↔ In e rules')
    → matching_rule rules tool input ≡ matching_rule rules' tool input
unfolding Governs
matching_rule_order rules rules' tool input keyed same =
    go (matching_rule rules tool input) (matching_rule rules' tool input)
      (matching_rule-Governs rules tool input) (matching_rule-Governs rules' tool input)
  where
    go :
        (o o' : Option RememberedRule)
        → Governs rules tool input o
        → Governs rules' tool input o'
        → o ≡ o'
    go none none g g' = refl
    go none (some r') g (a', l', x', first') = absurd (g (a', r') ((same (a', r')).1 l') x')
    go (some r) none (a, l, x, first) g' = absurd (g' (a, r) ((same (a, r)).0 l) x)
    go (some r) (some r') (a, l, x, first) (a', l', x', first') =
        let listed' = (same (a', r')).1 l' in
        let one_entry =
          keyed (a, r) (a', r') l listed'
            (Precedes-antisym tool input (a, r) (a', r') x x' (first (a', r') listed' x')
              (first' (a, r) ((same (a, r)).0 l) x)) in
        ap some (ap (λ e. e.1) one_entry)

-- Only a denial or a more inner scope comes before a denial with a pattern.
Precedes-denies :
    (e d : Entry) (p : Text)
    → d.0.key.pattern ≡ some p
    → d.1.allow ≡ false
    → scope_rank d.0.scope ≤ scope_rank e.0.scope
    → Precedes e d
    → e.1.allow ≡ false
Precedes-denies e d p has denies outer (Precedes.inner_scope lt) = absurd (omega arith)
Precedes-denies e d p has denies outer (Precedes.patterned s a b) = cc
Precedes-denies e d p has denies outer (Precedes.bare s a b) = cc
Precedes-denies e d p has denies outer (Precedes.denial s a b first allows) = first
Precedes-denies e d p has denies outer (Precedes.by_pattern s a b same n) = same ∙ denies

-- A stored denial with a pattern that matches the whole input is not overruled by a rule of its own
-- scope or an outer one: if no stored rule of a more inner scope applies, the call is denied.
pub check_denies :
    (rules : RuleStore) (tool : Text) (input : Option Text) (denial : Entry) (p : Text)
    → In denial rules
    → Applies tool input denial
    → denial.0.key.pattern ≡ some p
    → denial.1.allow ≡ false
    → ((f : Entry)
        → In f rules
        → Applies tool input f
        → scope_rank denial.0.scope ≤ scope_rank f.0.scope)
    → check rules tool input ≡ some false
unfolding check Governs
check_denies rules tool input denial p listed applies has denies outer =
    go (matching_rule rules tool input) (matching_rule-Governs rules tool input)
  where
    go :
        (o : Option RememberedRule)
        → Governs rules tool input o
        → (elim o [ none ↦ none | some rule ↦ some rule.allow ]) ≡ some false
    go none g = absurd (g denial listed applies)
    go (some r) (a, l, x, first) = ap some (
        Precedes-denies (a, r) denial p has denies (outer (a, r) l x) (first denial listed applies))
