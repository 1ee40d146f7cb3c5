-- ===== src/Permission/Rules.antt =====
-- `RuleStore` (mentra/src/session/permission.rs): remembered rules, and which of them answers a
-- call. The map is the list of its entries, in whatever order it iterates them.
use Prim.Native.Nat.{Ordering}
use mentra.Base.{
  ℕ, ◌-◌, Option, none, some, List, [], ◌∷◌, Bool, true, false, not, ◌&&◌, ◌==◌, if◌then◌else◌,
  find, retain, any, length,
}
use mentra.Base.Results.{or_else}
use mentra.Base.Text.{Text, text_eq}
use mentra.Permission.Pattern.{matches}
use mentra.Permission.Order.{then_with, cmp_bool, cmp_text, cmp_option, min_by}

pub data PermissionRuleScope : Type 0 where
  session : PermissionRuleScope
  project : PermissionRuleScope
  global : PermissionRuleScope
  process : PermissionRuleScope

pub record RuleKey : Type 0 where
  pub tool_name : Text
  pub pattern : Option Text

pub record PermissionRuleAddress : Type 0 where
  pub scope : PermissionRuleScope
  pub key : RuleKey

pub record RememberedRule : Type 0 where
  pub key : RuleKey
  pub allow : Bool
  pub scope : PermissionRuleScope
  pub reason : Option Text

abbrev pub address_of : RememberedRule → PermissionRuleAddress
address_of rule = record { scope = rule.scope; key = rule.key }

abbrev pub scope_precedence : List PermissionRuleScope
scope_precedence =
    PermissionRuleScope.process ∷ PermissionRuleScope.session ∷ PermissionRuleScope.project
    ∷ PermissionRuleScope.global ∷ []

abbrev pub scope_rank : PermissionRuleScope → ℕ
scope_rank PermissionRuleScope.process = 0
scope_rank PermissionRuleScope.session = 1
scope_rank PermissionRuleScope.project = 2
scope_rank PermissionRuleScope.global = 3

-- The derived equalities.
abbrev pub scope_eq : PermissionRuleScope → PermissionRuleScope → Bool
scope_eq a b = scope_rank a == scope_rank b

unfoldable pub pattern_eq : Option Text → Option Text → Bool
pattern_eq none none = true
pattern_eq (some p) (some q) = text_eq p q
pattern_eq _ _ = false

unfoldable pub address_eq : PermissionRuleAddress → PermissionRuleAddress → Bool
address_eq a b =
    scope_eq a.scope b.scope
    && (text_eq a.key.tool_name b.key.tool_name && pattern_eq a.key.pattern b.key.pattern)

abbrev pub compare_rule_keys : RuleKey → RuleKey → Ordering
compare_rule_keys left right =
    then_with (cmp_text left.tool_name right.tool_name)
      (cmp_option cmp_text left.pattern right.pattern)

abbrev pub Entry : Type 0
Entry = PermissionRuleAddress × RememberedRule

abbrev pub RuleStore : Type 0
RuleStore = List Entry

-- `false < true`: a denial comes first.
abbrev pub compare_pattern_candidates : Entry → Entry → Ordering
compare_pattern_candidates left right =
    then_with (cmp_bool left.1.allow right.1.allow) (compare_rule_keys left.0.key right.0.key)

-- `HashMap::insert`.
unfoldable pub insert : PermissionRuleAddress → RememberedRule → RuleStore → RuleStore
insert a rule [] = (a, rule) ∷ []
insert a rule ((b, old) ∷ s) = if address_eq a b then (b, rule) ∷ s else (b, old) ∷ insert a rule s

abbrev pub add_rule : RememberedRule → RuleStore → RuleStore
add_rule rule s = insert (address_of rule) rule s

-- `pattern.as_deref().is_some_and(...)` with `input_json.is_some_and(...)`.
unfoldable pub pattern_matches : Option Text → Option Text → Bool
pattern_matches (some rule_pattern) (some json) = matches rule_pattern json
pattern_matches _ _ = false

abbrev pub is_none : Option Text → Bool
is_none none = true
is_none (some p) = false

abbrev pub is_candidate : PermissionRuleScope → Text → Option Text → Entry → Bool
is_candidate scope tool_name input_json (address, rule) =
    scope_eq address.scope scope
    && (text_eq address.key.tool_name tool_name && pattern_matches address.key.pattern input_json)

abbrev pub is_bare : PermissionRuleScope → Text → Entry → Bool
is_bare scope tool_name (address, rule) =
    scope_eq address.scope scope
    && (text_eq address.key.tool_name tool_name && is_none address.key.pattern)

-- One turn of the loop over the scopes.
unfoldable pub in_scope : RuleStore → Text → Option Text → PermissionRuleScope → Option Entry
in_scope rules tool_name input_json scope =
    or_else
      (min_by compare_pattern_candidates (retain (is_candidate scope tool_name input_json) rules))
      (find (is_bare scope tool_name) rules)

unfoldable pub first_answer :
    RuleStore → Text → Option Text → List PermissionRuleScope → Option Entry
first_answer rules tool_name input_json [] = none
first_answer rules tool_name input_json (scope ∷ scopes) =
    or_else (in_scope rules tool_name input_json scope)
      (first_answer rules tool_name input_json scopes)

abbrev pub rule_of : Option Entry → Option RememberedRule
rule_of none = none
rule_of (some (address, rule)) = some rule

abbrev pub matching_rule : RuleStore → Text → Option Text → Option RememberedRule
matching_rule rules tool_name input_json =
    rule_of (first_answer rules tool_name input_json scope_precedence)

unfoldable pub check : RuleStore → Text → Option Text → Option Bool
check rules tool_name input_json = elim (matching_rule rules tool_name input_json) [
  | none ↦ none
  | some rule ↦ some rule.allow
]

-- The rules that are left, and whether one was revoked.
unfoldable pub revoke_rule : PermissionRuleAddress → RuleStore → RuleStore × Bool
revoke_rule address rules =
    (retain (λ e. not (address_eq address e.0)) rules, any (λ e. address_eq address e.0) rules)

-- The rules that are left, and how many were removed.
unfoldable pub clear_scope : PermissionRuleScope → RuleStore → RuleStore × ℕ
clear_scope scope rules =
    let kept = retain (λ e. not (scope_eq e.0.scope scope)) rules in
    (kept, length rules - length kept)
