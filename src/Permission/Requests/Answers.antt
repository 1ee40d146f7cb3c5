-- ===== src/Permission/Requests/Answers.antt =====
-- A request that waits can be answered, and an answer stays.
use mentra.Base.{
  ℕ, ◌≡◌, inl, inr, ◌∙◌, refl, sym, ap, Option, none, some, [], ◌∷◌, Bool, true, false, Bool-cases,
}
use mentra.Base.Text.{Text}
use mentra.Base.Results.{Result, ok}
use mentra.Permission.Rules.{PermissionRuleScope, scope_eq, RememberedRule, add_rule}
use mentra.Permission.Requests.Store.{
  PermissionDecision, PendingPermission, waiting, answered, update, put, claim,
}
use mentra.Permission.Requests.Resolve.{
  Claim, System, remember, deliver, after_remember, settle, take_claim, valid_remember_as,
  rule_to_remember, Act, step, run, settle_claim,
}
use mentra.Permission.Requests.Kept.{update-same}
use mentra.Permission.Requests.Settles.{KeptSystem}

module _ {D E : Type 0} (upsert : RememberedRule → D → Result D E) (has_project_id : Bool) where
  -- The store takes every rule.
  abbrev pub Stores : Type 0
  Stores = (rule : RememberedRule) (d : D) → (d' : D) × (upsert rule d ≡ ok d')

  abbrev Answered : Claim → System D → Type 0
  Answered c sys = sys.requests.channels c.held.entry.sender ≡ answered c.decision

  deliver-Answered :
      (c : Claim) (sys : System D)
      → sys.requests.channels c.held.entry.sender ≡ waiting
      → Answered c (deliver {E = E} false c sys).1
  deliver-Answered c sys waits = rw waits (
      update-same (update sys.requests.channels c.held.entry.sender waiting) c.held.entry.sender
        (answered c.decision) c.held.entry.sender refl)

  remember-Answered :
      (c : Claim) (sys : System D) (o : Option PermissionRuleScope)
      → Stores
      → sys.requests.channels c.held.entry.sender ≡ waiting
      → Answered c
          (after_remember false c sys (remember upsert c.held.entry.tool_name c.decision o sys)).1
  remember-Answered c sys none stores waits = deliver-Answered c sys waits
  remember-Answered c sys (some scope) stores waits =
      elim (Bool-cases (scope_eq scope PermissionRuleScope.process)) [
        | inl live ↦ rw live (
            deliver-Answered c
              (record sys {
                process_rules =
                    add_rule (rule_to_remember c.held.entry.tool_name c.decision scope)
                      sys.process_rules;
              })
              waits)
        | inr kept ↦
            let (d, takes) =
              stores (rule_to_remember c.held.entry.tool_name c.decision scope) sys.durable in
            rw (kept, takes) (deliver-Answered c (record sys { durable = d }) waits)
      ]

  settle-Answered :
      (c : Claim) (sys : System D)
      → Stores
      → sys.requests.lifecycles c.held.lifecycle ≡ true
      → sys.requests.channels c.held.entry.sender ≡ waiting
      → Answered c (settle upsert false c sys).1
  unfolding settle
  settle-Answered c sys stores on waits =
      rw (on, waits) (remember-Answered c sys c.decision.remember_as stores waits)

  -- The system once the request was taken.
  abbrev taken_by : Claim → System D → System D
  taken_by c sys = record sys {
    requests = record sys.requests { pending = put sys.requests.pending c.request_id none };
    claims = update sys.claims c.held.lifecycle (some c);
  }

  step-takes :
      (c : Claim) (sys : System D)
      → sys.requests.pending c.request_id ≡ some c.held
      → valid_remember_as has_project_id c.decision.remember_as ≡ true
      → step upsert has_project_id (Act.takes c.request_id c.decision) sys ≡ taken_by c sys
  unfolding step take_claim claim
  step-takes c sys listed valid = rw (valid, listed, step, take_claim) refl

  step-settles :
      (c : Claim) (a : ℕ) (sys : System D)
      → sys.claims a ≡ some c
      → step upsert has_project_id (Act.settles a false) sys
        ≡ (settle upsert false c (record sys { claims = update sys.claims a none })).1
  unfolding step
  step-settles c a sys mine = ap (settle_claim upsert has_project_id a false sys) mine

  -- A request in the map whose call waits can be answered: a resolver that takes it by its id and
  -- settles before the call is abandoned, with a scope that is valid and a store that takes rules,
  -- delivers the decision to that call.
  pub takes-settles-answered :
      (sys : System D) (id : Text) (p : PendingPermission) (decision : PermissionDecision)
      → KeptSystem sys
      → Stores
      → sys.requests.pending id ≡ some p
      → sys.requests.channels p.lifecycle ≡ waiting
      → valid_remember_as has_project_id decision.remember_as ≡ true
      → (run upsert has_project_id
            (Act.takes id decision ∷ Act.settles p.lifecycle false ∷ [])
            sys).requests.channels
          p.lifecycle
        ≡ answered decision
  unfolding run
  takes-settles-answered sys id p decision kept stores listed waits valid =
      let (lt, active, guarded, sends, free, gen) = kept.stored id p listed in
      let c : Claim = record { request_id = id; held = p; decision = decision } in
      let mine : update sys.claims p.lifecycle (some c) p.lifecycle ≡ some c =
        update-same sys.claims p.lifecycle (some c) p.lifecycle refl in
      let taken = taken_by c sys in
      ap
        (λ z.
          (step upsert has_project_id (Act.settles p.lifecycle false) z).requests.channels
            p.lifecycle)
        (step-takes c sys listed valid)
      ∙ ap (λ z. z.requests.channels p.lifecycle) (step-settles c p.lifecycle taken mine)
      ∙ ap
          (settle upsert false c
            (record taken { claims = update taken.claims p.lifecycle none })).1.requests.channels
          (sym sends)
      ∙ settle-Answered c (record taken { claims = update taken.claims p.lifecycle none }) stores
          active (ap sys.requests.channels sends ∙ waits)
