-- ===== src/Ring/Classify.antt =====
-- What a failed call says about the member: `classify` (gateway_ring.rs), and what follows for the
-- ring.
use mentra.Base.{
  ℕ, ◌≤◌, ◌<◌, ◌≡◌, ◌≢◌, ◌↔◌, Bool, ◌&&◌, leb, ltb, arith, ◌+◌, some, inl, inr, false,
}
use mentra.Ring.Member.{GatewayRingPolicy, immediate, threshold, u32_max}
use mentra.Ring.Health.{RingHealth, Rotation, failed}
use mentra.Ring.Lookup.{InRange, member}
use mentra.Ring.Failure.{failed-rotates_iff}
use mentra.Ring.Call.{ProviderError, transport, http, classify}

-- The `http` crate documents a client error as a status from 400 to 499.
abbrev pub IsHttpCrate : (ℕ → Bool) → Type 0
IsHttpCrate is_client_error =
    (status : ℕ) → is_client_error status ≡ (leb 400 status && ltb status 500)

abbrev pub Rejects : ProviderError → Type 0
Rejects (http status) = (400 ≤ status) × (status < 500) × (status ≢ 408) × (status ≢ 429)
Rejects _ = ⊥

classify-immediate_iff :
    (is_client_error : ℕ → Bool) (e : ProviderError)
    → IsHttpCrate is_client_error
    → (classify is_client_error e ≡ immediate) ↔ Rejects e
unfolding classify
classify-immediate_iff c (http status) law =
    (λ h. ground (arith, law status), λ r. ground (arith, law status))
classify-immediate_iff c transport law = (λ h. cc, λ r. absurd r)
classify-immediate_iff c _ law = (λ h. cc, λ r. absurd r)

-- The ring leaves its current member after an error, of the kind that `classify` gives it, exactly
-- if the error is an HTTP status from 400 to 499 other than a timeout (408) and a rate limit (429),
-- where that member is not on probation and one more failure stays below the threshold.
pub failed-classify_iff :
    (is_client_error : ℕ → Bool) (e : ProviderError) (h : RingHealth) (policy : GatewayRingPolicy)
    (now : ℕ)
    → IsHttpCrate is_client_error
    → InRange h
    → policy.failure_threshold ≤ u32_max
    → (member h h.current).probation ≡ false
    → (member h h.current).streak + 1 < threshold policy
    → ((h' : RingHealth) × (r : Rotation) × (failed h h.current
            (classify is_client_error e)
            policy
            now
          ≡ some (h', some r)))
      ↔ Rejects e
failed-classify_iff c e h policy now law ok cap calm below =
    let (into, out) = failed-rotates_iff h (classify c e) policy now ok cap in
    let (rejects, is_immediate) = classify-immediate_iff c e law in
    (
      (λ moves. elim (into moves) [
        | inl left ↦ rejects left
        | inr (_, why) ↦ elim why [
          | inl probation ↦ cc (calm, probation)
          | inr reached ↦ absurd (omega arith)
        ]
      ]),
      λ r. out (inl (is_immediate r)),
    )
