-- ===== src/Permission/Requests/Count.antt =====
-- Only asking takes an address: every other act leaves their number as it is.
use mentra.Base.{
  suc, ◌≤◌, ◌+◌, ◌≡◌, inl, inr, refl, Option, none, some, Bool, false, not, ◌||◌, Bool-cases, ◌==◌,
  arith,
}
use mentra.Base.Text.{Text}
use mentra.Base.Results.{Result, ok, err}
use mentra.Permission.Rules.{PermissionRuleScope, scope_eq, RememberedRule}
use mentra.Permission.Requests.Store.{
  PendingPermission, WaitGuard, Channel, waiting, answered, receiver_gone, sender_gone, Requests,
  update, put, set_lifecycle, claim, restore, restore_at, cancel_found, cancel_if_generation,
  drop_guard, insert_unique, insert_with_generation, replace_entry, request_id_of,
}
use mentra.Permission.Requests.Resolve.{
  Claim, System, leave, is_closed, is_waiting, remember, with_durable, send, give_back,
  after_remember, settle, hold, take_claim, valid_remember_as, rule_to_remember, Act, step,
  settle_claim, drop_waited,
}

module _ {D E : Type 0} (upsert : RememberedRule → D → Result D E) (has_project_id : Bool) where
  send-allocated :
      (c : Claim) (left : Channel) (sys : System D)
      → (send {E = E} c left sys).1.requests.allocated ≡ sys.requests.allocated
  send-allocated c waiting sys = refl
  send-allocated c (answered d) sys = refl
  send-allocated c receiver_gone sys = refl
  send-allocated c sender_gone sys = refl

  with_durable-allocated :
      (leaves : Bool) (c : Claim) (sys : System D) (o : Result D E)
      → (after_remember leaves c sys (with_durable sys o)).1.requests.allocated
        ≡ sys.requests.allocated
  unfolding restore
  with_durable-allocated leaves c sys (ok durable) =
      send-allocated c (leave leaves (sys.requests.channels c.held.entry.sender)) _
  with_durable-allocated leaves c sys (err e) = go (sys.requests.pending c.request_id)
    where
      go :
          (found : Option PendingPermission)
          → (give_back c e
              (restore_at c.request_id c.held sys.requests found)
              sys).1.requests.allocated
            ≡ sys.requests.allocated
      go none = refl
      go (some p) = refl

  remember-allocated :
      (leaves : Bool) (c : Claim) (sys : System D) (o : Option PermissionRuleScope)
      → (after_remember leaves c sys
          (remember upsert c.held.entry.tool_name c.decision o sys)).1.requests.allocated
        ≡ sys.requests.allocated
  remember-allocated leaves c sys none =
      send-allocated c (leave leaves (sys.requests.channels c.held.entry.sender)) _
  remember-allocated leaves c sys (some scope) =
      elim (Bool-cases (scope_eq scope PermissionRuleScope.process)) [
        | inl live ↦
            rw live (send-allocated c (leave leaves (sys.requests.channels c.held.entry.sender)) _)
        | inr stored ↦ rw stored (
            with_durable-allocated leaves c sys
              (upsert (rule_to_remember c.held.entry.tool_name c.decision scope) sys.durable))
      ]

  settle-allocated :
      (leaves : Bool) (c : Claim) (sys : System D)
      → (settle upsert leaves c sys).1.requests.allocated ≡ sys.requests.allocated
  unfolding settle
  settle-allocated leaves c sys =
      elim (Bool-cases (
        not (sys.requests.lifecycles c.held.lifecycle)
        || is_closed (sys.requests.channels c.held.entry.sender))) [
          | inl over ↦ rw over refl
          | inr still ↦ rw still (remember-allocated leaves c sys c.decision.remember_as)
        ]

  drop_guard-allocated : (g : WaitGuard) (r : Requests) → (drop_guard g r).allocated ≡ r.allocated
  unfolding drop_guard cancel_if_generation
  drop_guard-allocated g r = elim (Bool-cases (r.lifecycles g.lifecycle)) [
    | inl on ↦ rw on (go (r.pending g.request_id))
    | inr off ↦ rw off refl
  ]
    where
      go :
          (o : Option PendingPermission)
          → (cancel_found g.request_id g.generation (set_lifecycle g.lifecycle false r) o).allocated
            ≡ r.allocated
      go none = refl
      go (some p) = elim (Bool-cases (p.generation == g.generation)) [
        | inl hit ↦ rw hit refl
        | inr miss ↦ rw miss refl
      ]

  replace_entry-allocated :
      (o : Option PendingPermission) (r : Requests) → (replace_entry o r).allocated ≡ r.allocated
  replace_entry-allocated none r = refl
  replace_entry-allocated (some p) r = refl

  insert_unique-allocated :
      (tool_call_id tool_name : Text) (r : Requests)
      → (insert_unique tool_call_id tool_name r).1.allocated ≡ suc r.allocated
  unfolding insert_unique insert_with_generation
  insert_unique-allocated tool_call_id tool_name r =
      replace_entry-allocated (r.pending (request_id_of tool_call_id r.next_generation)) _

  -- Only asking takes an address.
  pub step-allocated :
      (act : Act) (sys : System D)
      → (step upsert has_project_id act sys).requests.allocated ≤ sys.requests.allocated + 1
  unfolding step take_claim claim
  step-allocated (Act.asks tool_call_id tool_name) sys =
      omega (arith, insert_unique-allocated tool_call_id tool_name sys.requests)
  step-allocated (Act.takes id decision) sys =
      elim (Bool-cases (valid_remember_as has_project_id decision.remember_as)) [
        | inl valid ↦ rw (valid, step, take_claim) (go (sys.requests.pending id))
        | inr invalid ↦ rw (invalid, step, take_claim) (omega arith)
      ]
    where
      go :
          (o : Option PendingPermission)
          → (hold {E = E} id decision sys (
            o,
            record sys.requests { pending = put sys.requests.pending id none },
          )).1.requests.allocated
            ≤ sys.requests.allocated + 1
      go none = omega arith
      go (some p) = omega arith
  step-allocated (Act.settles a leaves) sys = go (sys.claims a)
    where
      go :
          (o : Option Claim)
          → (settle_claim upsert has_project_id a leaves sys o).requests.allocated
            ≤ sys.requests.allocated + 1
      go none = omega arith
      go (some c) =
          let same = settle-allocated leaves c (record sys { claims = update sys.claims a none }) in
          omega arith
  step-allocated (Act.abandons a) sys = omega arith
  step-allocated (Act.drops a) sys = go (sys.guards a)
    where
      go :
          (o : Option WaitGuard)
          → (drop_waited a sys o).requests.allocated ≤ sys.requests.allocated + 1
      go none = omega arith
      go (some g) = elim (Bool-cases (is_waiting (sys.requests.channels a))) [
        | inl waits ↦ rw waits (omega arith)
        | inr done ↦ let same = drop_guard-allocated g sys.requests in rw done (omega arith)
      ]
