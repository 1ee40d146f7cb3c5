-- ===== src/Permission/Examples.antt =====
-- Tests of the matcher and the rule store, and the witnesses of their theorems.
use mentra.Base.{
  ◌≡◌, ◌≤◌, ◌↔◌, inl, inr, refl, none, some, List, [], ◌∷◌, true, false, arith, subst, sym, ap, ◌∙◌,
}
use mentra.Base.Text.{Text, codes, text_eq}
use mentra.Permission.Pattern.{scan, matches}
use mentra.Permission.Glob.{Matches}
use mentra.Permission.Scan.{matches_iff}
use mentra.Permission.Order.{least, cmp_text, cmp_bool, cmp_option}
use mentra.Permission.Rules.{
  PermissionRuleScope, scope_rank, RememberedRule, Entry, RuleStore, address_of, matching_rule,
  check, in_scope, first_answer, pattern_matches,
}
use mentra.Permission.Listed.{In, In-empty, In-inv, All-In}
use mentra.Permission.Governs.{Governs, matching_rule-Governs, matching_rule_order, check_denies}
use mentra.Base.Results.{Result, ok}
use mentra.Permission.Rules.{insert, address_eq, pattern_eq}
use mentra.Permission.Handle.{Live, Answers, matching_rule_of, matching_rule_of-Answers}
use mentra.Permission.Edits.{LastAdded, edit_all-LastAdded}
use mentra.Permission.Store.{Edit, edit, edit_all, Left, Unique, edit_iff, Unique-Keyed}

abbrev shell : Text
shell = codes "shell"

-- A pattern with two stars, and an input that it matches.
abbrev removes : Text
removes = codes "*rm*/?"

abbrev removal : Text
removal = codes "x rm /a/b"

backtracks : matches removes removal ≡ true
unfolding matches scan
backtracks = refl

fails : matches removes (codes "rm") ≡ false
unfolding matches scan
fails = refl

abbrev refusal : RememberedRule
refusal = record {
  key = record { tool_name = shell; pattern = some removes };
  allow = false;
  scope = PermissionRuleScope.session;
  reason = some (codes "not here");
}

abbrev permit : RememberedRule
permit = record {
  key = record { tool_name = shell; pattern = some (codes "*") };
  allow = true;
  scope = PermissionRuleScope.session;
  reason = none;
}

abbrev fallback : RememberedRule
fallback = record {
  key = record { tool_name = shell; pattern = none };
  allow = true;
  scope = PermissionRuleScope.project;
  reason = none;
}

abbrev at_home : RememberedRule → Entry
at_home rule = (address_of rule, rule)

abbrev stored : RuleStore
stored = at_home permit ∷ at_home refusal ∷ at_home fallback ∷ []

abbrev edits : List Edit
edits =
    Edit.add permit
    ∷ Edit.add refusal
    ∷ Edit.clear PermissionRuleScope.global
    ∷ Edit.add fallback
    ∷ []

refused : check stored shell (some removal) ≡ some false
unfolding check first_answer in_scope pattern_matches matches scan least cmp_bool cmp_option
    cmp_text text_eq
refused = refl

permitted : check stored shell (some (codes "ls")) ≡ some true
unfolding check first_answer in_scope pattern_matches matches scan least cmp_bool cmp_option
    cmp_text text_eq
permitted = refl

matches_iff_example : (matches removes removal ≡ true) ↔ Matches removes removal
matches_iff_example = matches_iff removes removal

matching_rule-Governs_example :
    Governs stored shell (some removal) (matching_rule stored shell (some removal))
matching_rule-Governs_example = matching_rule-Governs stored shell (some removal)

two : Unique (at_home refusal ∷ at_home fallback ∷ [])
two = (
  λ e m q. elim (In-inv m) [
    | inl s ↦
        let ranks : 2 ≡ 1 = ap (λ z. scope_rank z.scope) (sym (ap (λ z. z.0) s) ∙ q) in
        absurd (omega arith)
    | inr l ↦ absurd (In-empty l)
  ],
  ((λ e m. absurd (In-empty m)), tt),
)

abbrev pair : RuleStore
pair = at_home refusal ∷ at_home fallback ∷ []

abbrev swapped : RuleStore
swapped = at_home fallback ∷ at_home refusal ∷ []

swap : (x y e : Entry) → In e (x ∷ y ∷ []) → In e (y ∷ x ∷ [])
swap x y e m = elim (In-inv m) [
  | inl q ↦ subst (λ z. In z (y ∷ x ∷ [])) (sym q) (In.tail In.head)
  | inr l ↦ elim (In-inv l) [
    | inl q ↦ subst (λ z. In z (y ∷ x ∷ [])) (sym q) In.head
    | inr k ↦ absurd (In-empty k)
  ]
]

matching_rule_order_example :
    matching_rule pair shell (some removal) ≡ matching_rule swapped shell (some removal)
matching_rule_order_example =
    matching_rule_order pair swapped shell (some removal) (Unique-Keyed pair two) (λ e.
      (swap (at_home refusal) (at_home fallback) e, swap (at_home fallback) (at_home refusal) e))

check_denies_example : check stored shell (some removal) ≡ some false
check_denies_example =
    check_denies stored shell (some removal) (at_home refusal) removes (In.tail In.head)
      (record { names_tool = refl; answers_input = (matches_iff removes removal).0 backtracks })
      refl refl
      (λ f m _.
        All-In (λ z. 1 ≤ scope_rank z.0.scope) stored
          (omega arith, (omega arith, (omega arith, tt))) m)

edit_iff_example :
    In (at_home permit) (edit (Edit.add permit) pair) ↔ Left (Edit.add permit) pair (at_home permit)
edit_iff_example = edit_iff (Edit.add permit) pair (at_home permit) two

edit_all-LastAdded_example :
    In (at_home refusal) (edit_all edits []) ↔ LastAdded edits (at_home refusal)
edit_all-LastAdded_example = edit_all-LastAdded edits (at_home refusal)

-- A rule of the live session, and a store that loads two rules.
abbrev this_process : RememberedRule
this_process = record {
  key = record { tool_name = codes "edit"; pattern = none };
  allow = true;
  scope = PermissionRuleScope.process;
  reason = none;
}

abbrev live : RuleStore
live = at_home this_process ∷ []

live_inside : Live live
live_inside e m = All-In (λ z. z.0.scope ≡ PermissionRuleScope.process) live (refl, tt) m

abbrev loads : Result (List RememberedRule) Text
loads = ok (refusal ∷ this_process ∷ fallback ∷ [])

refused_by_store : matching_rule_of live loads shell (some removal) ≡ ok (some refusal)
unfolding matching_rule_of insert address_eq pattern_eq first_answer in_scope pattern_matches
    matches scan least cmp_bool cmp_option cmp_text text_eq
refused_by_store = refl

matching_rule_of-Answers_example :
    Answers live loads shell (some removal) (matching_rule_of live loads shell (some removal))
matching_rule_of-Answers_example =
    matching_rule_of-Answers live loads shell (some removal) live_inside
