-- ===== src/Permission/Requests/Leaves.antt =====
-- A resolver lets go of a request: it is closed, or goes back to the map.
use mentra.Base.{
  ℕ, ◌<◌, ◌≡◌, ◌≢◌, inl, inr, ◌∙◌, refl, sym, ap, subst, Option, none, some, Bool, true,
}
use mathlib.Core.Option.{some-injective}
use mentra.Base.Text.{Text}
use mentra.Permission.Requests.Store.{
  PendingPermission, WaitGuard, Channel, waiting, Requests, update, put,
}
use mentra.Permission.Requests.Resolve.{Claim}
use mentra.Permission.Requests.Kept.{
  Stored, Kept, Touches-Kept, update-same, update-other, put-same, put-other, same_id,
}

module _ {r : Requests} {guards : ℕ → Option WaitGuard} {claims : ℕ → Option Claim}
    (kept : Kept r guards claims) (a : ℕ) (c : Claim) (taken : claims a ≡ some c) where
  left_claims : ℕ → Option Claim
  left_claims = update claims a none

  pub own_lock : c.held.lifecycle ≡ a
  own_lock = (kept.held a c taken).1

  pub own_channel : c.held.entry.sender ≡ a
  own_channel = (kept.held a c taken).2

  -- A taken request is not in the map.
  taken_out : (id : Text) (p : PendingPermission) → r.pending id ≡ some p → p.lifecycle ≢ a
  taken_out id p e here = cc ((kept.stored id p e).4, ap claims here, taken)

  no_claim : (c' : Claim) → ¬ (update claims a none a ≡ some c')
  no_claim c' e = cc (update-same claims a none a refl)

  -- Its lock and its channel may change, if nobody waits on it any more.
  pub settled-Kept :
      (locks : ℕ → Bool) (channels : ℕ → Channel)
      → ((k : ℕ) → k ≢ a → locks k ≡ r.lifecycles k)
      → ((k : ℕ) → k ≢ a → channels k ≡ r.channels k)
      → ¬ (channels a ≡ waiting)
      → Kept (record r { lifecycles = locks; channels = channels }) guards (update claims a none)
  settled-Kept locks channels same_locks same_channels quiet =
      Touches-Kept {a = a} kept
        (record {
          grows = λ k lt. lt;
          only_there = λ k away lt. lt;
          locks = same_locks;
          guards_stay = λ k away. refl;
          claims_stay = λ k away. update-other claims a none k away;
          waits = λ k away w. sym (same_channels k away) ∙ w;
          from = λ id p e away. e;
          to = λ id p e away. e;
        })
        (record {
          stored_at = λ id p e here. absurd (taken_out id p e here);
          held_at = λ c' e. absurd (no_claim c' e);
          heard_at = λ w. absurd (quiet w);
          own_at = λ g e. kept.own a g e;
        })
        kept.next

  -- It goes back to the map, under its own id, when that is free.
  pub restored-Kept :
      r.pending c.request_id ≡ none
      → r.lifecycles a ≡ true
      → Kept
          (record r { pending = put r.pending c.request_id (some c.held) })
          guards
          (update claims a none)
  restored-Kept free on =
      let (lt, own, sends, waits, gen) = kept.held a c taken in
      Touches-Kept {a = a} kept
        (record {
          grows = λ k lt. lt;
          only_there = λ k away lt. lt;
          locks = λ k away. refl;
          guards_stay = λ k away. refl;
          claims_stay = λ k away. update-other claims a none k away;
          waits = λ k away w. w;
          from = λ id p e away. elim (same_id id c.request_id) [
            | inl here ↦ absurd (
                away (
                  ap (λ z. z.lifecycle)
                    (some-injective _ _ (
                      sym e
                      ∙ ap (put r.pending c.request_id (some c.held)) here
                      ∙ put-same r.pending c.request_id (some c.held)))
                  ∙ own))
            | inr other ↦ sym (put-other r.pending c.request_id (some c.held) id other) ∙ e
          ];
          to = λ id p e away. elim (same_id id c.request_id) [
            | inl here ↦ cc (ap r.pending here, e, free)
            | inr other ↦ put-other r.pending c.request_id (some c.held) id other ∙ e
          ];
        })
        (record {
          stored_at = λ id p e here. elim (same_id id c.request_id) [
            | inl names ↦
                let same : c.held ≡ p = some-injective _ _ (
                  sym (put-same r.pending c.request_id (some c.held))
                  ∙ ap (put r.pending c.request_id (some c.held)) (sym names)
                  ∙ e) in
                let again : Stored r.allocated r.lifecycles guards (update claims a none)
                    c.request_id c.held =
                  (
                    subst (λ z. z < r.allocated) (sym own) lt,
                    ap r.lifecycles own ∙ on,
                    ap guards own ∙ waits on,
                    sends ∙ sym own,
                    update-same claims a none c.held.lifecycle own,
                    gen ∙ sym own,
                  ) in
                subst (λ z. Stored r.allocated r.lifecycles guards (update claims a none) id z) same
                  (subst
                    (λ z. Stored r.allocated r.lifecycles guards (update claims a none) z c.held)
                    (sym names) again)
            | inr other ↦ absurd (
                taken_out id p (sym (put-other r.pending c.request_id (some c.held) id other) ∙ e)
                  here)
          ];
          held_at = λ c' e. absurd (no_claim c' e);
          heard_at =
              λ w. inl (c.request_id, c.held, put-same r.pending c.request_id (some c.held), own);
          own_at = λ g e. kept.own a g e;
        })
        kept.next
