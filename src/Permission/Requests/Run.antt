-- ===== src/Permission/Requests/Run.antt =====
-- What holds however the threads that share the requests interleave.
use mentra.Base.{
  ◌<◌, ◌+◌, ◌^◌, ◌≡◌, inl, inr, ◌∙◌, refl, sym, ap, subst, Option, none, some, List, [], ◌∷◌,
  length, Bool, false, Bool-cases, arith,
}
use mentra.Base.Text.{Text}
use mentra.Base.Results.{Result}
use mentra.Permission.Rules.{RememberedRule}
use mentra.Permission.Requests.Store.{
  PermissionDecision, PendingPermission, WaitGuard, sender_gone, put, claim,
}
use mentra.Permission.Requests.Resolve.{
  Claim, System, is_waiting, hold, take_claim, valid_remember_as, Act, step, run, settle_claim,
  drop_waited,
}
use mentra.Permission.Requests.Kept.{Kept, put-same, put-other, same_id}
use mentra.Permission.Requests.Steps.{abandons-Kept, takes-Kept}
use mentra.Permission.Requests.Drops.{drops-Kept}
use mentra.Permission.Requests.Settles.{KeptSystem, settle-Kept}
use mentra.Permission.Requests.Asks.{asks-Kept}
use mentra.Permission.Requests.Count.{step-allocated}

-- Nothing was asked yet.
abbrev pub start : {D : Type 0} → D → System D
start durable = record {
  requests = record {
    pending = λ id. none;
    next_generation = 0;
    allocated = 0;
    lifecycles = λ a. false;
    channels = λ a. sender_gone;
  };
  guards = λ a. none;
  claims = λ a. none;
  process_rules = [];
  durable = durable;
  events = [];
}

pub start-Kept : {D : Type 0} (durable : D) → KeptSystem (start durable)
start-Kept durable = record {
  stored = λ id p e. cc;
  held = λ a c e. cc;
  heard = λ a lt w. cc;
  next = refl;
  own = λ a g e. cc;
}

put-none :
    (pending : Text → Option PendingPermission) (id : Text)
    → pending id ≡ none
    → (k : Text) → put pending id none k ≡ pending k
put-none pending id e k = elim (same_id k id) [
  | inl here ↦ ap (put pending id none) here ∙ put-same pending id none ∙ sym (ap pending here ∙ e)
  | inr other ↦ put-other pending id none k other
]

module _ {D E : Type 0} (upsert : RememberedRule → D → Result D E) (has_project_id : Bool) where
  hold-Kept :
      (id : Text) (decision : PermissionDecision) (sys : System D)
      (found : Option PendingPermission)
      → KeptSystem sys
      → sys.requests.pending id ≡ found
      → KeptSystem
          (hold {E = E} id decision sys
            (found, record sys.requests { pending = put sys.requests.pending id none })).1
  hold-Kept id decision sys none kept listed =
      let all : put sys.requests.pending id none ≡ sys.requests.pending =
        λ i k. put-none sys.requests.pending id listed k i in
      subst (λ z. Kept (record sys.requests { pending = z }) sys.guards sys.claims) (sym all) kept
  hold-Kept id decision sys (some p) kept listed = takes-Kept kept id p _ listed refl refl

  step-Kept :
      (act : Act) (sys : System D)
      → KeptSystem sys
      → sys.requests.allocated + 1 < 2 ^ 64
      → KeptSystem (step upsert has_project_id act sys)
  unfolding step take_claim claim
  step-Kept (Act.asks tool_call_id tool_name) sys kept room =
      asks-Kept kept tool_call_id tool_name room
  step-Kept (Act.takes id decision) sys kept room =
      elim (Bool-cases (valid_remember_as has_project_id decision.remember_as)) [
        | inl valid ↦
            rw (valid, step, take_claim)
              (hold-Kept id decision sys (sys.requests.pending id) kept refl)
        | inr invalid ↦ rw (invalid, step, take_claim) kept
      ]
  step-Kept (Act.settles a leaves) sys kept room = go (sys.claims a) refl
    where
      go :
          (o : Option Claim)
          → sys.claims a ≡ o
          → KeptSystem (settle_claim upsert has_project_id a leaves sys o)
      go none e = kept
      go (some c) e = settle-Kept upsert sys kept a c e leaves
  step-Kept (Act.abandons a) sys kept room = abandons-Kept kept a
  step-Kept (Act.drops a) sys kept room = go (sys.guards a) refl
    where
      go : (o : Option WaitGuard) → sys.guards a ≡ o → KeptSystem (drop_waited a sys o)
      go none e = kept
      go (some g) e = elim (Bool-cases (is_waiting (sys.requests.channels a))) [
        | inl waits ↦ rw waits kept
        | inr done ↦ rw done (drops-Kept kept a g e (λ w. cc (ap is_waiting w, done)))
      ]

  run-KeptSystem :
      (acts : List Act) (sys : System D)
      → KeptSystem sys
      → sys.requests.allocated + length acts < 2 ^ 64
      → KeptSystem (run upsert has_project_id acts sys)
  unfolding run
  run-KeptSystem [] sys kept room = kept
  run-KeptSystem (act ∷ acts) sys kept room =
      let grows = step-allocated upsert has_project_id act sys in
      run-KeptSystem acts (step upsert has_project_id act sys)
        (step-Kept act sys kept (omega arith)) (omega arith)

  -- However calls, resolvers and abandoned calls interleave, in fewer than 2^64 acts: each request in
  -- the map has its lock open, its guard alive and no resolver, so none outlives its call; a taken
  -- request whose lock is open still has its guard; and the sender of every call that waits is in
  -- the map or with a resolver, so no call waits for an answer that nobody can give.
  pub run-Kept :
      (acts : List Act) (durable : D)
      → length acts < 2 ^ 64
      → KeptSystem (run upsert has_project_id acts (start durable))
  run-Kept acts durable room =
      run-KeptSystem acts (start durable) (start-Kept durable) (omega arith)
