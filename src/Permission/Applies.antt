-- ===== src/Permission/Applies.antt =====
-- When a remembered rule applies to a call, and which of two that apply comes first.
use Prim.Native.Nat.{Ordering}
use mentra.Base.{
  ℕ, zero, suc, ◌<◌, ◌≡◌, ◌↔◌, refl, sym, ap, subst, Option, none, some, Bool, true, false, ◌&&◌,
  ==_iff, inl, inr,
}
use mentra.Base.Text.{Text, text_eq_iff}
use mentra.Permission.Glob.{Matches}
use mentra.Permission.Scan.{matches_iff}
use mentra.Permission.Order.{
  NotAfter, Lawful, in_turn, in_turn-Lawful, cmp_bool, cmp_text, cmp_option, cmp_bool-Lawful,
  cmp_text-Lawful, cmp_option-Lawful,
}
use mentra.Permission.Alphabet.{AtOrBefore, candidates_order}
use mentra.Permission.Rules.{
  PermissionRuleScope, scope_rank, scope_eq, PermissionRuleAddress, Entry,
  compare_pattern_candidates, pattern_matches, is_none, is_candidate, is_bare,
}

-- What the order of the candidates looks at.
abbrev pub Rank : Type 0
Rank = Bool × (Text × Option Text)

abbrev pub rank_key : Entry → Rank
rank_key e = (e.1.allow, (e.0.key.tool_name, e.0.key.pattern))

abbrev pub cmp_rank : Rank → Rank → Ordering
cmp_rank = in_turn cmp_bool (in_turn cmp_text (cmp_option cmp_text))

pub cmp_rank-Lawful : Lawful cmp_rank
cmp_rank-Lawful =
    in_turn-Lawful _ _ cmp_bool-Lawful
      (in_turn-Lawful _ _ cmp_text-Lawful (cmp_option-Lawful cmp_text-Lawful))

-- The pattern, if there is one, matches the whole input.
abbrev pub PatternAnswers : Option Text → Option Text → Type 0
PatternAnswers none input = Unit
PatternAnswers (some p) none = ⊥
PatternAnswers (some p) (some json) = Matches p json

-- The rule is about this tool and this input.
pub record Applies (tool : Text) (input : Option Text) (e : Entry) : Type 0 where
  pub names_tool : e.0.key.tool_name ≡ tool
  pub answers_input : PatternAnswers e.0.key.pattern input

-- `e` comes before `f`, where both apply: its scope first, then a pattern before the bare rule, then
-- a denial before an allowance, then the pattern that comes first.
pub data Precedes (e f : Entry) : Type 0 where
  inner_scope : scope_rank e.0.scope < scope_rank f.0.scope → Precedes e f
  patterned :
      {p : Text}
      → e.0.scope ≡ f.0.scope
      → e.0.key.pattern ≡ some p
      → f.0.key.pattern ≡ none
      → Precedes e f
  denial :
      {p q : Text}
      → e.0.scope ≡ f.0.scope
      → e.0.key.pattern ≡ some p
      → f.0.key.pattern ≡ some q
      → e.1.allow ≡ false
      → f.1.allow ≡ true
      → Precedes e f
  by_pattern :
      {p q : Text}
      → e.0.scope ≡ f.0.scope
      → e.0.key.pattern ≡ some p
      → f.0.key.pattern ≡ some q
      → e.1.allow ≡ f.1.allow
      → AtOrBefore p q
      → Precedes e f
  bare : e.0.scope ≡ f.0.scope → e.0.key.pattern ≡ none → f.0.key.pattern ≡ none → Precedes e f

-- The order of the candidates, where both apply.
pub candidate-Precedes :
    (tool p q : Text) (e f : Entry)
    → e.0.key.tool_name ≡ tool
    → f.0.key.tool_name ≡ tool
    → e.0.scope ≡ f.0.scope
    → e.0.key.pattern ≡ some p
    → f.0.key.pattern ≡ some q
    → NotAfter compare_pattern_candidates e f
    → Precedes e f
candidate-Precedes tool p q e f names names' at has has' before =
    let rank : rank_key e ≡ (e.1.allow, (tool, some p)) = λ i. (e.1.allow, (names i, has i)) in
    let rank' : rank_key f ≡ (f.1.allow, (tool, some q)) = λ i. (f.1.allow, (names' i, has' i)) in
    elim (candidates_order e.1.allow f.1.allow tool p q (
      subst (λ z. NotAfter cmp_rank (e.1.allow, (tool, some p)) z) rank'
        (subst (λ z. NotAfter cmp_rank z (rank_key f)) rank before))) [
          | inl (denies, allows) ↦ Precedes.denial at has has' denies allows
          | inr (same, first) ↦ Precedes.by_pattern at has has' same first
        ]

scope_at : ℕ → PermissionRuleScope
scope_at zero = PermissionRuleScope.process
scope_at (suc zero) = PermissionRuleScope.session
scope_at (suc (suc zero)) = PermissionRuleScope.project
scope_at _ = PermissionRuleScope.global

scope_at-scope_rank : (s : PermissionRuleScope) → scope_at (scope_rank s) ≡ s
unfolding scope_at
scope_at-scope_rank PermissionRuleScope.session = refl
scope_at-scope_rank PermissionRuleScope.project = refl
scope_at-scope_rank PermissionRuleScope.global = refl
scope_at-scope_rank PermissionRuleScope.process = refl

pub scope_rank-injective : (a b : PermissionRuleScope) → scope_rank a ≡ scope_rank b → a ≡ b
scope_rank-injective a b e = cc (ap scope_at e, scope_at-scope_rank a, scope_at-scope_rank b)

pub scope_eq_iff : (a b : PermissionRuleScope) → (scope_eq a b ≡ true) ↔ (a ≡ b)
scope_eq_iff a b = (
  (λ h. scope_rank-injective a b ((==_iff (scope_rank a) (scope_rank b)).0 h)),
  λ e. (==_iff (scope_rank a) (scope_rank b)).1 (ap scope_rank e),
)

pub address_ext :
    (a b : PermissionRuleAddress)
    → a.scope ≡ b.scope
    → a.key.tool_name ≡ b.key.tool_name
    → a.key.pattern ≡ b.key.pattern
    → a ≡ b
address_ext a b s t p = λ i. record { scope = s i; key = record { tool_name = t i; pattern = p i } }

pub and_iff : (a b : Bool) → ((a && b) ≡ true) ↔ ((a ≡ true) × (b ≡ true))
and_iff true true = (λ _. (refl, refl), λ _. refl)
and_iff true false = (λ e. cc, λ p. p.1)
and_iff false b = (λ e. cc, λ p. p.0)

pattern_matches_iff :
    (o input : Option Text)
    → (pattern_matches o input ≡ true) ↔ (PatternAnswers o input × ((p : Text) × (o ≡ some p)))
unfolding pattern_matches
pattern_matches_iff none input = (λ e. cc, λ (_, (p, e)). cc)
pattern_matches_iff (some p) none = (λ e. cc, λ (m, _). absurd m)
pattern_matches_iff (some p) (some json) =
    (λ e. ((matches_iff p json).0 e, (p, refl)), λ (m, _). (matches_iff p json).1 m)

is_none_iff : (o : Option Text) → (is_none o ≡ true) ↔ (o ≡ none)
is_none_iff none = (λ _. refl, λ _. refl)
is_none_iff (some p) = (λ e. cc, λ e. cc)

module _ (tool : Text) (input : Option Text) where
  pub candidate_iff :
      (s : PermissionRuleScope) (e : Entry)
      → (is_candidate s tool input e ≡ true)
        ↔ ((e.0.scope ≡ s) × Applies tool input e × ((p : Text) × (e.0.key.pattern ≡ some p)))
  candidate_iff s e = (
    (λ h.
        let (a, bc) = (and_iff _ _).0 h in
        let (b, c) = (and_iff _ _).0 bc in
        let (m, p) = (pattern_matches_iff e.0.key.pattern input).0 c in
        (
          (scope_eq_iff _ _).0 a,
          record { names_tool = (text_eq_iff _ _).0 b; answers_input = m },
          p,
        )),
    λ (a, b, p). (and_iff _ _).1 (
      (scope_eq_iff e.0.scope s).1 a,
      (and_iff _ _).1 (
        (text_eq_iff e.0.key.tool_name tool).1 b.names_tool,
        (pattern_matches_iff e.0.key.pattern input).1 (b.answers_input, p),
      ),
    ),
  )

  pub bare_iff :
      (s : PermissionRuleScope) (e : Entry)
      → (is_bare s tool e ≡ true)
        ↔ ((e.0.scope ≡ s) × Applies tool input e × (e.0.key.pattern ≡ none))
  bare_iff s e = (
    (λ h.
        let (a, bc) = (and_iff _ _).0 h in
        let (b, c) = (and_iff _ _).0 bc in
        let n = (is_none_iff e.0.key.pattern).0 c in
        (
          (scope_eq_iff _ _).0 a,
          record {
            names_tool = (text_eq_iff _ _).0 b;
            answers_input = subst (λ o. PatternAnswers o input) (sym n) tt;
          },
          n,
        )),
    λ (a, b, n). (and_iff _ _).1 (
      (scope_eq_iff e.0.scope s).1 a,
      (and_iff _ _).1
          ((text_eq_iff e.0.key.tool_name tool).1 b.names_tool, (is_none_iff e.0.key.pattern).1 n),
    ),
  )
