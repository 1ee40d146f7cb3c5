-- ===== src/Ring/Call.antt =====
-- One call through the ring: `GatewayRing::with_rotation`, and `classify` (gateway_ring.rs).
-- A `GatewayMemberRef` is the member's index; its label is for logs.
use mentra.Base.{
  ℕ, zero, suc, ◌+◌, Option, none, some, List, [], ◌∷◌, ◌++◌, Bool, false, ◌==◌, ◌||◌, ltb, leb,
  if◌then◌else◌,
}
use mentra.Base.Partial.{◌>>=◌}
use mentra.Ring.Member.{GatewayRingPolicy, FailureKind, counted, immediate, not_the_members_fault}
use mentra.Ring.Health.{
  RingHealth, Selection, Rotation, on_probation, streak_of, select, succeeded, failed,
}
use mentra.Ring.Run.{Transition, run}

-- `ProviderError`, with the status of an `Http` error and no payload otherwise.
pub data ProviderError : Type 0 where
  transport decode deserialize retryable invalid_response malformed_stream : ProviderError
  http : ℕ → ProviderError
  context_length_exceeded serialize invalid_request unsupported_capability : ProviderError

-- `StatusCode::is_client_error` is the `http` crate's.
unfoldable pub classify : (ℕ → Bool) → ProviderError → FailureKind
classify is_client_error transport = counted
classify is_client_error decode = counted
classify is_client_error deserialize = counted
classify is_client_error retryable = counted
classify is_client_error invalid_response = counted
classify is_client_error malformed_stream = counted
classify is_client_error (http status) =
    if status == 429 || status == 408
    then counted
    else (if is_client_error status then immediate else counted)
classify is_client_error context_length_exceeded = not_the_members_fault
classify is_client_error serialize = not_the_members_fault
classify is_client_error invalid_request = not_the_members_fault
classify is_client_error unsupported_capability = not_the_members_fault

pub data GatewayRingEvent (E : Type 0) : Type 0 where
  member_failed : ℕ → FailureKind → ℕ → E → GatewayRingEvent E
  rotated : ℕ → ℕ → ℕ → GatewayRingEvent E
  returned : ℕ → GatewayRingEvent E
  recovered : ℕ → GatewayRingEvent E

-- What a member answers: a value, or a `MemberFailure`.
pub data Outcome (V E : Type 0) : Type 0 where
  answered : V → Outcome V E
  refused : E → FailureKind → Outcome V E

-- What the call meets: the answer of a member to the call's k-th attempt, the time of that
-- attempt's failure, and what the other callers do to the shared health between this call's own
-- uses of it (0: before the probation is read, 1: while the member is awaited, 2: before the
-- streak is read).
pub record World (V E : Type 0) : Type 0 where
  pub op : ℕ → ℕ → Outcome V E
  pub clock : ℕ → ℕ
  pub others : ℕ → ℕ → List Transition

pub data Answer (V E : Type 0) : Type 0 where
  ok : V → Answer V E
  err : E → Answer V E

-- How one turn of the loop ends.
pub data Turn (V E : Type 0) : Type 0 where
  done : Answer V E → RingHealth → List (GatewayRingEvent E) → Turn V E
  again : ℕ → RingHealth → List (GatewayRingEvent E) → Turn V E

module _ {V E : Type 0} (w : World V E) (policy : GatewayRingPolicy) (count : ℕ) where
  -- `&self.members[index]` panics out of range.
  abbrev in_ring {ℓ} : {A : Type ℓ} → ℕ → Option A → Option A
  in_ring index k = if ltb index count then k else none

  -- After the failure was counted.
  abbrev pub report :
      ℕ
      → ℕ
      → E
      → FailureKind
      → RingHealth × Option Rotation
      → List (GatewayRingEvent E)
      → Option (Turn V E)
  report attempts index e kind (h, none) log = do
    h' ← run policy (w.others attempts 2) h
    streak ← streak_of h' index
    some (done (err e) h' (log ++ member_failed index kind streak e ∷ []))
  report attempts index e kind (h, some r) log = in_ring r.to (
      let log' =
        log
        ++ member_failed index kind r.after_failures e
          ∷ rotated r.from r.to r.after_failures
          ∷ [] in
      if leb count attempts then some (done (err e) h log') else some (again r.to h log'))

  abbrev pub settle :
      ℕ → ℕ → Bool → Outcome V E → RingHealth → List (GatewayRingEvent E) → Option (Turn V E)
  settle attempts index probation (answered v) h log = do
    h' ← succeeded h index
    some (done (ok v) h' (if probation then log ++ recovered index ∷ [] else log))
  settle attempts index probation (refused e not_the_members_fault) h log =
      some (done (err e) h log)
  settle attempts index probation (refused e kind) h log = do
    result ← failed h index kind policy (w.clock attempts)
    report attempts index e kind result log

  -- One turn of the loop.
  unfoldable pub attempt :
      ℕ → Selection → RingHealth → List (GatewayRingEvent E) → Option (Turn V E)
  attempt attempts s h log = in_ring s.index (do
    let log' = if s.returned then log ++ returned s.index ∷ [] else log
    h1 ← run policy (w.others attempts 0) h
    probation ← on_probation h1
    h2 ← run policy (w.others attempts 1) h1
    settle attempts s.index probation (w.op attempts s.index) h2 log')

  pub data Ended : Type 0 where
    finished : Answer V E → RingHealth → List (GatewayRingEvent E) → Ended
    panicked : Ended
    out_of_fuel : Ended

  -- The loop, its turns counted from `attempts`; `fuel` bounds the turns left.
  unfoldable pub turns : ℕ → ℕ → Selection → RingHealth → List (GatewayRingEvent E) → Ended
  turns zero attempts s h log = out_of_fuel
  turns (suc fuel) attempts s h log = elim (attempt (attempts + 1) s h log) [
    | none ↦ panicked
    | some (done a h' log') ↦ finished a h' log'
    | some (again to h' log') ↦
        turns fuel (attempts + 1) (record { index = to; returned = false }) h' log'
  ]

  unfoldable pub with_rotation : ℕ → RingHealth → Ended
  with_rotation now h = elim (select h policy now) [
    | none ↦ panicked
    | some (h', s) ↦ turns count 0 s h' []
  ]
