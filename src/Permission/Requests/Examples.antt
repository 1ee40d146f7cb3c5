-- ===== src/Permission/Requests/Examples.antt =====
-- Runs of the threads that share the requests: tests, and the witnesses of their theorems.
use mentra.Base.{ℕ, suc, ◌≡◌, refl, none, some, [], ◌∷◌, true, false, arith}
use mentra.Base.Text.{Text, codes, text_eq}
use mentra.Base.Results.{Result, ok, err}
use mentra.Permission.Rules.{PermissionRuleScope, RememberedRule}
use mentra.Permission.Requests.Store.{
  PermissionDecision, PendingPermission, answered, waiting, insert_unique, insert_with_generation,
  hex_padded, claim, drop_guard, cancel_if_generation, restore,
}
use mentra.Permission.Requests.Resolve.{
  System, asks, takes, settles, abandons, drops, run, step, take_claim, settle,
  permission_requested,
}
use mentra.Permission.Requests.Settles.{KeptSystem}
use mentra.Permission.Requests.Run.{start, run-Kept}
use mentra.Permission.Requests.Answers.{takes-settles-answered}

-- A store that counts the rules it took, and one that takes none.
abbrev counts : RememberedRule → ℕ → Result ℕ Text
counts rule d = ok (suc d)

abbrev refuses : RememberedRule → ℕ → Result ℕ Text
refuses rule d = err (codes "disk full")

abbrev permits : PermissionDecision
permits = record { allow = true; remember_as = some PermissionRuleScope.session; reason = none }

abbrev first : Text
first = codes "perm-a-0000000000000000"

abbrev asked : System ℕ
asked =
    run counts true (asks (codes "a") (codes "shell") ∷ asks (codes "b") (codes "edit") ∷ [])
      (start 0)

-- The id that is announced.
announced :
    asked.events
    ≡ permission_requested first (codes "a") (codes "shell")
      ∷ permission_requested (codes "perm-b-0000000000000001") (codes "b") (codes "edit")
      ∷ []
unfolding run step insert_unique insert_with_generation hex_padded
announced = refl

-- A store that fails leaves the request for another resolver.
abbrev failing : System ℕ
failing = run refuses true (takes first permits ∷ settles 0 false ∷ []) asked

still_listed : failing.requests.pending first ≡ asked.requests.pending first
unfolding run step take_claim settle restore claim insert_unique insert_with_generation hex_padded
    text_eq
still_listed = refl

-- An abandoned call goes with its request.
abbrev abandoned : System ℕ
abandoned =
    run counts true (takes first permits ∷ abandons 0 ∷ drops 0 ∷ settles 0 false ∷ []) asked

nothing_kept : abandoned.durable ≡ 0
unfolding run step take_claim settle claim drop_guard cancel_if_generation insert_unique
    insert_with_generation hex_padded text_eq
nothing_kept = refl

run-Kept_example : KeptSystem (
    run counts true
      (asks (codes "a") (codes "shell")
        ∷ asks (codes "b") (codes "edit")
        ∷ takes first permits
        ∷ abandons 1
        ∷ settles 0 true
        ∷ drops 1
        ∷ drops 0
        ∷ [])
      (start 0))
run-Kept_example = run-Kept counts true _ 0 (omega arith)

abbrev shell_request : PendingPermission
shell_request = record {
  generation = 0;
  lifecycle = 0;
  entry = record { tool_call_id = codes "a"; tool_name = codes "shell"; sender = 0 };
}

asked-Kept : KeptSystem asked
asked-Kept =
    run-Kept counts true (asks (codes "a") (codes "shell") ∷ asks (codes "b") (codes "edit") ∷ []) 0
      (omega arith)

asked_listed : asked.requests.pending first ≡ some shell_request
unfolding run step insert_unique insert_with_generation hex_padded text_eq
asked_listed = refl

asked_waits : asked.requests.channels 0 ≡ waiting
unfolding run step insert_unique insert_with_generation hex_padded text_eq
asked_waits = refl

takes-settles-answered_example :
    (run counts true (takes first permits ∷ settles 0 false ∷ []) asked).requests.channels 0
    ≡ answered permits
takes-settles-answered_example =
    takes-settles-answered counts true asked first shell_request permits asked-Kept
      (λ rule d. (suc d, refl)) asked_listed asked_waits refl
