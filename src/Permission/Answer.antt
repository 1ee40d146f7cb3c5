-- ===== src/Permission/Answer.antt =====
-- Which remembered rule answers a call: the one that comes first among all that apply.
use mentra.Base.{
  ◌<◌, ◌≡◌, inl, inr, refl, sym, ◌∙◌, subst, Option, none, some, List, [], ◌∷◌, retain, find,
  Option-cases, All,
}
use mathlib.Core.Option.{some-injective}
use mentra.Base.Results.{or_else}
use mentra.Base.Text.{Text}
use mentra.Permission.Order.{least, min_by}
use mentra.Permission.Rules.{
  PermissionRuleScope, scope_rank, Entry, RuleStore, compare_pattern_candidates, is_candidate,
  is_bare, in_scope, first_answer,
}
use mentra.Permission.Listed.{
  In, In-empty, In-inv, All-In, retain-In, In-retain, find-In, find-In-none, least-NotAfter,
}
use mentra.Permission.Applies.{
  rank_key, cmp_rank, cmp_rank-Lawful, Applies, Precedes, candidate-Precedes, candidate_iff,
  bare_iff,
}

module _ (tool : Text) (input : Option Text) where
  -- What holds of the answer of one scope.
  AnswersScope : RuleStore → PermissionRuleScope → Entry → Type 0
  AnswersScope rules s e =
      In e rules
      × (e.0.scope ≡ s)
      × Applies tool input e
      × ((f : Entry) → In f rules → f.0.scope ≡ s → Applies tool input f → Precedes e f)

  AnswersScope-candidate :
      (rules : RuleStore) (s : PermissionRuleScope) (c : Entry) (cs : List Entry)
      → retain (is_candidate s tool input) rules ≡ c ∷ cs
      → AnswersScope rules s (least compare_pattern_candidates c cs)
  unfolding AnswersScope
  AnswersScope-candidate rules s c cs e =
      let (among, before) = least-NotAfter rank_key cmp_rank cmp_rank-Lawful c cs in
      let (listed, passes) =
        retain-In (is_candidate s tool input) rules (subst (In _) (sym e) among) in
      let (at, applies, (p, has)) =
        (candidate_iff tool input s (least compare_pattern_candidates c cs)).0 passes in
      (
        listed,
        at,
        applies,
        λ f m at' applies'. elim (Option-cases f.0.key.pattern) [
          | inl gone ↦ Precedes.patterned (at ∙ sym at') has gone
          | inr q ↦
              candidate-Precedes tool p q.0 (least compare_pattern_candidates c cs) f
                applies.names_tool applies'.names_tool (at ∙ sym at') has q.1
                (before f (
                  subst (In f) e (
                    In-retain (is_candidate s tool input) rules m
                      ((candidate_iff tool input s f).1 (at', applies', q)))))
        ],
      )

  not_candidate :
      (rules : RuleStore) (s : PermissionRuleScope) (f : Entry)
      → retain (is_candidate s tool input) rules ≡ []
      → In f rules
      → f.0.scope ≡ s
      → Applies tool input f
      → f.0.key.pattern ≡ none
  not_candidate rules s f e m at applies = elim (Option-cases f.0.key.pattern) [
    | inl gone ↦ gone
    | inr q ↦ absurd (
        In-empty (
          subst (In f) e (
            In-retain (is_candidate s tool input) rules m
              ((candidate_iff tool input s f).1 (at, applies, q)))))
  ]

  in_scope-AnswersScope :
      (rules : RuleStore) (s : PermissionRuleScope) (e : Entry)
      → in_scope rules tool input s ≡ some e
      → AnswersScope rules s e
  unfolding in_scope AnswersScope
  in_scope-AnswersScope rules s e hit = go (retain (is_candidate s tool input) rules) refl hit
    where
      go :
          (cs : List Entry)
          → retain (is_candidate s tool input) rules ≡ cs
          → or_else (min_by compare_pattern_candidates cs) (find (is_bare s tool) rules) ≡ some e
          → AnswersScope rules s e
      go [] none_left hit =
          let (listed, passes) = find-In (is_bare s tool) rules hit in
          let (at, applies, gone) = (bare_iff tool input s e).0 passes in
          (
            listed,
            at,
            applies,
            λ f m at' applies'.
                Precedes.bare (at ∙ sym at') gone
                  (not_candidate rules s f none_left m at' applies'),
          )
      go (c ∷ cs) found hit =
          subst (AnswersScope rules s) (some-injective _ _ hit)
            (AnswersScope-candidate rules s c cs found)

  in_scope-none :
      (rules : RuleStore) (s : PermissionRuleScope)
      → in_scope rules tool input s ≡ none
      → (f : Entry) → In f rules
      → f.0.scope ≡ s
      → ¬ (Applies tool input f)
  unfolding in_scope
  in_scope-none rules s miss f m at applies =
      go (retain (is_candidate s tool input) rules) refl miss
    where
      go :
          (cs : List Entry)
          → retain (is_candidate s tool input) rules ≡ cs
          → or_else (min_by compare_pattern_candidates cs) (find (is_bare s tool) rules) ≡ none
          → ⊥
      go [] none_left miss = cc (
        find-In-none (is_bare s tool) rules miss m,
        (bare_iff tool input s f).1 (at, applies, not_candidate rules s f none_left m at applies),
      )
      go (c ∷ cs) found miss = cc

  -- More preferred scopes first.
  abbrev pub Sorted : List PermissionRuleScope → Type 0
  Sorted [] = Unit
  Sorted (s ∷ ss) = All (λ s'. scope_rank s < scope_rank s') ss × Sorted ss

  unfoldable pub FirstOf : RuleStore → List PermissionRuleScope → Option Entry → Type 0
  FirstOf rules scopes none =
      (f : Entry) → In f rules → In f.0.scope scopes → ¬ (Applies tool input f)
  FirstOf rules scopes (some e) =
      In e rules
      × In e.0.scope scopes
      × Applies tool input e
      × ((f : Entry) → In f rules → In f.0.scope scopes → Applies tool input f → Precedes e f)

  pub first_answer-FirstOf :
      (rules : RuleStore) (scopes : List PermissionRuleScope)
      → Sorted scopes
      → FirstOf rules scopes (first_answer rules tool input scopes)
  unfolding first_answer FirstOf AnswersScope
  first_answer-FirstOf rules [] sorted = λ f m at. absurd (In-empty at)
  first_answer-FirstOf rules (s ∷ ss) (before, sorted) =
      go (in_scope rules tool input s) refl (first_answer rules tool input ss)
        (first_answer-FirstOf rules ss sorted)
    where
      go :
          (here : Option Entry)
          → in_scope rules tool input s ≡ here
          → (later : Option Entry) → FirstOf rules ss later
          → FirstOf rules (s ∷ ss) (or_else here later)
      go (some e) hit later first =
          let (listed, at, applies, first') = in_scope-AnswersScope rules s e hit in
          (
            listed,
            subst (λ z. In z (s ∷ ss)) (sym at) In.head,
            applies,
            λ f m at' applies'. elim (In-inv at') [
              | inl same ↦ first' f m same applies'
              | inr l ↦ Precedes.inner_scope (
                  subst (λ z. scope_rank z < scope_rank f.0.scope) (sym at)
                    (All-In (λ z. scope_rank s < scope_rank z) ss before l))
            ],
          )
      go none miss none first = λ f m at'. elim (In-inv at') [
        | inl same ↦ in_scope-none rules s miss f m same
        | inr l ↦ first f m l
      ]
      go none miss (some e) (listed, at, applies, first') = (
        listed,
        In.tail at,
        applies,
        λ f m at' applies'. elim (In-inv at') [
          | inl same ↦ absurd (in_scope-none rules s miss f m same applies')
          | inr l ↦ first' f m l applies'
        ],
      )
