-- ===== src/Permission/Requests/Resolve.antt =====
-- `SessionPermissionHandle::resolve_permission`, with `remember_rule` and `validate_scope`
-- (mentra/src/runtime/store.rs), and the steps of the threads that share the requests.
use mentra.Base.{
  ℕ, Option, none, some, List, [], ◌∷◌, ◌++◌, Bool, true, false, not, ◌||◌, if◌then◌else◌,
}
use mentra.Base.Results.{Result, ok, err}
use mentra.Base.Text.{Text}
use mentra.Permission.Rules.{PermissionRuleScope, scope_eq, RememberedRule, RuleStore, add_rule}
use mentra.Permission.Requests.Store.{
  PermissionDecision, PendingPermission, WaitGuard, Channel, waiting, answered, receiver_gone,
  Requests, update, drop_entry, set_lifecycle, insert_unique, claim, restore, drop_guard,
}

-- `PermissionOutcome` and the two events of a request.
pub data PermissionOutcome : Type 0 where
  allowed : PermissionOutcome
  denied : PermissionOutcome

pub data SessionEvent : Type 0 where
  permission_requested : Text → Text → Text → SessionEvent
  permission_resolved :
      Text → Text → Text → PermissionOutcome → Option PermissionRuleScope → SessionEvent

pub data ResolveError (E : Type 0) : Type 0 where
  needs_project_id : ResolveError E
  not_pending : Text → ResolveError E
  store_failed : E → ResolveError E

-- What a resolver holds between claiming a request and answering it.
pub record Claim : Type 0 where
  pub request_id : Text
  pub held : PendingPermission
  pub decision : PermissionDecision

-- `D` is the state of the runtime's rule store.
pub record System (D : Type 0) : Type 0 where
  pub requests : Requests
  -- The guards of the requests that still wait, and the claims that are held, by the request's address.
  pub guards : ℕ → Option WaitGuard
  pub claims : ℕ → Option Claim
  pub process_rules : RuleStore
  pub durable : D
  pub events : List SessionEvent

-- `sender.is_closed()`.
abbrev pub is_closed : Channel → Bool
is_closed receiver_gone = true
is_closed _ = false

abbrev pub rule_to_remember : Text → PermissionDecision → PermissionRuleScope → RememberedRule
rule_to_remember tool_name decision scope = record {
  key = record { tool_name = tool_name; pattern = none };
  allow = decision.allow;
  scope = scope;
  reason = if decision.allow then none else decision.reason;
}

-- `PermissionRuleContext::validate_scope`.
abbrev pub validate_scope : Bool → PermissionRuleScope → Bool
validate_scope has_project_id scope =
    not (scope_eq scope PermissionRuleScope.project) || has_project_id

abbrev pub valid_remember_as : Bool → Option PermissionRuleScope → Bool
valid_remember_as has_project_id none = true
valid_remember_as has_project_id (some scope) = validate_scope has_project_id scope

abbrev pub with_requests : {D : Type 0} → Requests → System D → System D
with_requests requests sys = record sys { requests = requests }

-- The receiver may leave between the check and the sending.
abbrev pub leave : Bool → Channel → Channel
leave true waiting = receiver_gone
leave _ channel = channel

abbrev pub announce : {D : Type 0} → Claim → System D → System D
announce c sys = record sys {
  events =
      sys.events
      ++ (permission_resolved c.request_id c.held.entry.tool_call_id c.held.entry.tool_name
            (if c.decision.allow then allowed else denied) c.decision.remember_as
          ∷ []);
}

module _ {D E : Type 0} where
  abbrev pub hold :
      Text
      → PermissionDecision
      → System D
      → Option PendingPermission × Requests
      → Result (Unit {0}) (ResolveError E) × System D
  hold request_id decision sys (none, requests) =
      (err (not_pending request_id), with_requests requests sys)
  hold request_id decision sys (some p, requests) = (
    ok tt,
    record sys {
      requests = requests;
      claims =
          update sys.claims p.lifecycle
            (some (record { request_id = request_id; held = p; decision = decision }));
    },
  )

  -- `resolve_permission` up to the claim.
  unfoldable pub take_claim :
      Bool → Text → PermissionDecision → System D → Result (Unit {0}) (ResolveError E) × System D
  take_claim has_project_id request_id decision sys =
      if valid_remember_as has_project_id decision.remember_as
      then hold request_id decision sys (claim request_id sys.requests)
      else (err needs_project_id, sys)

  abbrev pub with_durable : System D → Result D E → Result (System D) E
  with_durable sys (ok durable) = ok (record sys { durable = durable })
  with_durable sys (err e) = err e

  -- `remember_rule`: `upsert` is the runtime's store.
  abbrev pub remember_rule :
      (RememberedRule → D → Result D E) → RememberedRule → System D → Result (System D) E
  remember_rule upsert rule sys =
      if scope_eq rule.scope PermissionRuleScope.process
      then ok (record sys { process_rules = add_rule rule sys.process_rules })
      else with_durable sys (upsert rule sys.durable)

  abbrev pub remember :
      (RememberedRule → D → Result D E)
      → Text
      → PermissionDecision
      → Option PermissionRuleScope
      → System D
      → Result (System D) E
  remember upsert tool_name decision none sys = ok sys
  remember upsert tool_name decision (some scope) sys =
      remember_rule upsert (rule_to_remember tool_name decision scope) sys

  -- `sender.send(decision)`.
  abbrev pub send : Claim → Channel → System D → Result (Unit {0}) (ResolveError E) × System D
  send c waiting sys = (
    ok tt,
    with_requests
        (set_lifecycle c.held.lifecycle false (record sys.requests {
          channels = update sys.requests.channels c.held.entry.sender (answered c.decision);
        }))
        sys,
  )
  send c _ sys = (err (not_pending c.request_id), sys)

  abbrev pub deliver : Bool → Claim → System D → Result (Unit {0}) (ResolveError E) × System D
  deliver leaves c sys =
      let left = leave leaves (sys.requests.channels c.held.entry.sender) in
      send c left (
        announce c (
          with_requests
            (record sys.requests {
              channels = update sys.requests.channels c.held.entry.sender left;
            })
            sys))

  -- After `restore`, when the rule could not be stored.
  abbrev pub give_back :
      Claim → E → Bool × Requests → System D → Result (Unit {0}) (ResolveError E) × System D
  give_back c e (true, requests) sys = (err (store_failed e), with_requests requests sys)
  give_back c e (false, requests) sys =
      (err (store_failed e), with_requests (set_lifecycle c.held.lifecycle false requests) sys)

  abbrev pub after_remember :
      Bool → Claim → System D → Result (System D) E → Result (Unit {0}) (ResolveError E) × System D
  after_remember leaves c sys (ok remembered) = deliver leaves c remembered
  after_remember leaves c sys (err e) = give_back c e (restore c.request_id c.held sys.requests) sys

  -- The rest of `resolve_permission`, which holds the request's lock.
  unfoldable pub settle :
      (RememberedRule → D → Result D E)
      → Bool
      → Claim
      → System D
      → Result (Unit {0}) (ResolveError E) × System D
  settle upsert leaves c sys =
      if not (sys.requests.lifecycles c.held.lifecycle)
        || is_closed (sys.requests.channels c.held.entry.sender)
      then (
        err (not_pending c.request_id),
        with_requests (drop_entry c.held (set_lifecycle c.held.lifecycle false sys.requests)) sys,
      )
      else after_remember leaves c sys
          (remember upsert c.held.entry.tool_name c.decision c.decision.remember_as sys)

-- What the threads do: a call asks and waits, a resolver takes a request and settles it, a call
-- that waits is abandoned, and its guard is dropped.
pub data Act : Type 0 where
  asks : Text → Text → Act
  takes : Text → PermissionDecision → Act
  settles : ℕ → Bool → Act
  abandons : ℕ → Act
  drops : ℕ → Act

abbrev pub is_waiting : Channel → Bool
is_waiting waiting = true
is_waiting _ = false

-- The part of `SessionToolAuthorizer::authorize` that asks the session.
abbrev pub ask : {D : Type 0} → Text → Text → System D → System D
ask tool_call_id tool_name sys =
    let (guard, requests) = insert_unique tool_call_id tool_name sys.requests in
    record sys {
      requests = requests;
      guards = update sys.guards guard.lifecycle (some guard);
      events = sys.events ++ (permission_requested guard.request_id tool_call_id tool_name ∷ []);
    }

-- The guard goes once its call no longer waits.
abbrev pub drop_waited : {D : Type 0} → ℕ → System D → Option WaitGuard → System D
drop_waited a sys none = sys
drop_waited a sys (some guard) =
    if is_waiting (sys.requests.channels a)
    then sys
    else record sys { requests = drop_guard guard sys.requests; guards = update sys.guards a none }

module _ {D E : Type 0} (upsert : RememberedRule → D → Result D E) (has_project_id : Bool) where
  abbrev pub settle_claim : ℕ → Bool → System D → Option Claim → System D
  settle_claim a leaves sys none = sys
  settle_claim a leaves sys (some c) =
      (settle upsert leaves c (record sys { claims = update sys.claims a none })).1

  unfoldable pub step : Act → System D → System D
  step (Act.asks tool_call_id tool_name) sys = ask tool_call_id tool_name sys
  step (Act.takes request_id decision) sys =
      (take_claim {E = E} has_project_id request_id decision sys).1
  step (Act.settles a leaves) sys = settle_claim a leaves sys (sys.claims a)
  step (Act.abandons a) sys =
      with_requests
        (record sys.requests {
          channels = update sys.requests.channels a (leave true (sys.requests.channels a));
        })
        sys
  step (Act.drops a) sys = drop_waited a sys (sys.guards a)

  unfoldable pub run : List Act → System D → System D
  run [] sys = sys
  run (act ∷ acts) sys = run acts (step act sys)
