-- ===== src/Permission/Requests/Settles.antt =====
-- Settling a claim keeps the invariant, on every branch.
use mentra.Base.{
  ℕ, ◌≡◌, inl, inr, ◌∙◌, refl, sym, ap, subst, Option, none, some, Bool, true, false, not, ◌||◌,
  Bool-cases, arith,
}
use mentra.Base.Text.{Text}
use mentra.Base.Results.{Result, ok, err}
use mentra.Permission.Requests.Store.{
  PermissionDecision, PendingPermission, Channel, waiting, answered, receiver_gone, sender_gone,
  update, drop_sender, drop_entry, set_lifecycle, restore, restore_at,
}
use mentra.Permission.Requests.Resolve.{
  Claim, System, leave, is_closed, remember, with_durable, send, deliver, announce, give_back,
  after_remember, settle, with_requests, rule_to_remember,
}
use mentra.Permission.Requests.Kept.{Kept, update-same, update-other}
use mentra.Permission.Requests.Steps.{drop_sender-waiting}
use mentra.Permission.Rules.{PermissionRuleScope, scope_eq, RememberedRule, RuleStore}
use mentra.Permission.Requests.Leaves.{own_lock, own_channel, settled-Kept, restored-Kept}

-- The invariant of the whole system.
abbrev pub KeptSystem : {D : Type 0} → System D → Type 0
KeptSystem sys = Kept sys.requests sys.guards sys.claims

module _ {D E : Type 0} (upsert : RememberedRule → D → Result D E) (sys : System D)
    (kept : KeptSystem sys) (a : ℕ) (c : Claim) (taken : sys.claims a ≡ some c) where
  abbrev left_system : System D
  left_system = record sys { claims = update sys.claims a none }

  closes-Kept : KeptSystem (
      with_requests
        (drop_entry c.held (set_lifecycle c.held.lifecycle false sys.requests))
        left_system)
  closes-Kept =
      let ch = drop_sender (sys.requests.channels c.held.entry.sender) in
      settled-Kept kept a c taken (update sys.requests.lifecycles c.held.lifecycle false)
        (update sys.requests.channels c.held.entry.sender ch)
        (λ k away.
          update-other sys.requests.lifecycles c.held.lifecycle false k
            (λ e. away (e ∙ own_lock kept a c taken)))
        (λ k away.
          update-other sys.requests.channels c.held.entry.sender ch k
            (λ e. away (e ∙ own_channel kept a c taken)))
        (λ w. drop_sender-waiting (sys.requests.channels c.held.entry.sender) (
          sym (
            update-same sys.requests.channels c.held.entry.sender ch a
              (sym (own_channel kept a c taken)))
          ∙ w))

  abbrev remembered : RuleStore → D → System D
  remembered process_rules durable = record left_system {
    process_rules = process_rules;
    durable = durable;
  }

  abbrev sending : Channel → RuleStore → D → System D
  sending left process_rules durable = announce c (
      with_requests
        (record sys.requests { channels = update sys.requests.channels c.held.entry.sender left })
        (remembered process_rules durable))

  quiet-Kept :
      (left : Channel) (process_rules : RuleStore) (durable : D)
      → ¬ (left ≡ waiting)
      → KeptSystem (sending left process_rules durable)
  quiet-Kept left process_rules durable quiet =
      settled-Kept kept a c taken sys.requests.lifecycles
        (update sys.requests.channels c.held.entry.sender left) (λ k away. refl)
        (λ k away.
          update-other sys.requests.channels c.held.entry.sender left k
            (λ e. away (e ∙ own_channel kept a c taken)))
        (λ w. quiet (
          sym (
            update-same sys.requests.channels c.held.entry.sender left a
              (sym (own_channel kept a c taken)))
          ∙ w))

  sends-Kept :
      (left : Channel) (process_rules : RuleStore) (durable : D)
      → KeptSystem (send {E = E} c left (sending left process_rules durable)).1
  sends-Kept waiting process_rules durable =
      let ch = update sys.requests.channels c.held.entry.sender waiting in
      settled-Kept kept a c taken (update sys.requests.lifecycles c.held.lifecycle false)
        (update ch c.held.entry.sender (answered c.decision))
        (λ k away.
          update-other sys.requests.lifecycles c.held.lifecycle false k
            (λ e. away (e ∙ own_lock kept a c taken)))
        (λ k away.
          update-other ch c.held.entry.sender (answered c.decision) k
            (λ e. away (e ∙ own_channel kept a c taken))
          ∙ update-other sys.requests.channels c.held.entry.sender waiting k
              (λ e. away (e ∙ own_channel kept a c taken)))
        (λ w. cc (
          update-same ch c.held.entry.sender (answered c.decision) a
              (sym (own_channel kept a c taken)),
          w,
        ))
  sends-Kept (answered d) process_rules durable =
      quiet-Kept (answered d) process_rules durable (λ e. cc)
  sends-Kept receiver_gone process_rules durable =
      quiet-Kept receiver_gone process_rules durable (λ e. cc)
  sends-Kept sender_gone process_rules durable =
      quiet-Kept sender_gone process_rules durable (λ e. cc)

  gives_back-Kept :
      (e : E) (found : Option PendingPermission)
      → sys.requests.pending c.request_id ≡ found
      → sys.requests.lifecycles a ≡ true
      → KeptSystem (give_back c e (restore_at c.request_id c.held sys.requests found) left_system).1
  gives_back-Kept e none free on = restored-Kept kept a c taken free on
  gives_back-Kept e (some other) found on =
      let ch = drop_sender (sys.requests.channels c.held.entry.sender) in
      settled-Kept kept a c taken (update sys.requests.lifecycles c.held.lifecycle false)
        (update sys.requests.channels c.held.entry.sender ch)
        (λ k away.
          update-other sys.requests.lifecycles c.held.lifecycle false k
            (λ e. away (e ∙ own_lock kept a c taken)))
        (λ k away.
          update-other sys.requests.channels c.held.entry.sender ch k
            (λ e. away (e ∙ own_channel kept a c taken)))
        (λ w. drop_sender-waiting (sys.requests.channels c.held.entry.sender) (
          sym (
            update-same sys.requests.channels c.held.entry.sender ch a
              (sym (own_channel kept a c taken)))
          ∙ w))

  -- What remembering a rule may change.
  abbrev OnlyRules : Result (System D) E → Type 0
  OnlyRules (ok now) =
      (process_rules : RuleStore) × (durable : D) × (now ≡ remembered process_rules durable)
  OnlyRules (err e) = Unit

  with_durable-OnlyRules : (o : Result D E) → OnlyRules (with_durable left_system o)
  with_durable-OnlyRules (ok durable) = (sys.process_rules, durable, refl)
  with_durable-OnlyRules (err e) = tt

  remember-OnlyRules :
      (tool_name : Text) (decision : PermissionDecision) (o : Option PermissionRuleScope)
      → OnlyRules (remember upsert tool_name decision o left_system)
  remember-OnlyRules tool_name decision none = (sys.process_rules, sys.durable, refl)
  remember-OnlyRules tool_name decision (some scope) =
      elim (Bool-cases (scope_eq scope PermissionRuleScope.process)) [
        | inl live ↦ rw live (_, sys.durable, refl)
        | inr stored ↦ rw stored (
            with_durable-OnlyRules (upsert (rule_to_remember tool_name decision scope) sys.durable))
      ]

  after_remember-Kept :
      (leaves : Bool) (o : Result (System D) E)
      → OnlyRules o
      → sys.requests.lifecycles a ≡ true
      → KeptSystem (after_remember leaves c left_system o).1
  unfolding restore
  after_remember-Kept leaves (ok now) (process_rules, durable, same) on =
      subst (λ z. KeptSystem (deliver {E = E} leaves c z).1) (sym same)
        (sends-Kept (leave leaves (sys.requests.channels c.held.entry.sender)) process_rules
          durable)
  after_remember-Kept leaves (err e) only on =
      gives_back-Kept e (sys.requests.pending c.request_id) refl on

  pub settle-Kept : (leaves : Bool) → KeptSystem (settle upsert leaves c left_system).1
  unfolding settle
  settle-Kept leaves =
      let own = own_lock kept a c taken in
      elim (Bool-cases (
        not (sys.requests.lifecycles c.held.lifecycle)
        || is_closed (sys.requests.channels c.held.entry.sender))) [
          | inl over ↦ rw over closes-Kept
          | inr open_still ↦ rw open_still (
              after_remember-Kept leaves
                (remember upsert c.held.entry.tool_name c.decision c.decision.remember_as
                  left_system)
                (remember-OnlyRules c.held.entry.tool_name c.decision c.decision.remember_as)
                (sym (ap sys.requests.lifecycles own) ∙ ground (arith, open_still)))
        ]
