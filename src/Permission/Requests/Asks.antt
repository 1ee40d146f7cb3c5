-- ===== src/Permission/Requests/Asks.antt =====
-- Asking keeps the invariant: the new request replaces one of the same name, whose call is told.
use mentra.Base.{
  ℕ, suc, ◌<◌, ◌%◌, ◌^◌, ◌+◌, ◌≡◌, ◌≢◌, inl, inr, ◌∙◌, refl, sym, ap, subst, Option, none, some,
  Bool, true, false, Option-cases, arith,
}
use mathlib.Core.Option.{some-injective}
use mentra.Base.Text.{Text}
use mentra.Permission.Requests.Store.{
  PendingPermission, WaitGuard, Channel, waiting, Requests, update, put, drop_sender, drop_entry,
  set_lifecycle, insert_with_generation, insert_unique, replace_entry, request_id_of,
}
use mentra.Permission.Requests.Resolve.{Claim}
use mentra.Permission.Requests.Kept.{
  guard_of, Stored, Kept, Touches-Kept, Kept-one, update-same, update-other, put-same, put-other,
  removed, same_id, same_address,
}
use mentra.Permission.Requests.Steps.{drop_sender-waiting}

below : (k n : ℕ) → k < suc n → k ≢ n → k < n
below k n lt ne = grind arith

-- An earlier change elsewhere does not show.
update_twice {ℓ} :
    {A : Type ℓ} (f : ℕ → A) (a : ℕ) (v : A) (b : ℕ) (w w' : A) (k : ℕ)
    → k ≢ a
    → w ≡ w'
    → update (update f a v) b w k ≡ update f b w' k
update_twice f a v b w w' k away same = elim (same_address k b) [
  | inl here ↦ update-same (update f a v) b w k here ∙ same ∙ sym (update-same f b w' k here)
  | inr other ↦
      update-other (update f a v) b w k other
      ∙ update-other f a v k away
      ∙ sym (update-other f b w' k other)
]

module _ {r : Requests} {guards : ℕ → Option WaitGuard} {claims : ℕ → Option Claim}
    (kept : Kept r guards claims) where
  -- An entry is dropped, with its lock closed.
  dropped-Kept :
      (id : Text) (p : PendingPermission)
      → r.pending id ≡ some p
      → Kept
          (set_lifecycle p.lifecycle false
            (drop_entry p (record r { pending = put r.pending id none })))
          guards
          claims
  dropped-Kept id p listed =
      let (lt, active, guarded, sends, free, gen) = kept.stored id p listed in
      let dropped = drop_sender (r.channels p.entry.sender) in
      Touches-Kept {a = p.lifecycle} kept
        (record {
          grows = λ k lt. lt;
          only_there = λ k away lt. lt;
          locks = λ k away. update-other r.lifecycles p.lifecycle false k away;
          guards_stay = λ k away. refl;
          claims_stay = λ k away. refl;
          waits = λ k away w.
              sym (update-other r.channels p.entry.sender dropped k (λ e. away (e ∙ sends))) ∙ w;
          from = λ id' p' e away. (removed r.pending id id' p' e).1;
          to = λ id' p' e away.
              put-other r.pending id none id' (λ same.
                away
                  (ap (λ z. z.lifecycle) (some-injective _ _ (sym e ∙ ap r.pending same ∙ listed))))
              ∙ e;
        })
        (record {
          stored_at = λ id' p' e here.
              let (other, e') = removed r.pending id id' p' e in
              absurd (other (Kept-one id' id p' p kept e' listed here));
          held_at = λ c e. cc (e, free);
          heard_at = λ w. absurd (
              drop_sender-waiting (r.channels p.entry.sender)
                (sym (update-same r.channels p.entry.sender dropped p.lifecycle (sym sends)) ∙ w));
          own_at = λ g e. kept.own p.lifecycle g e;
        })
        kept.next

  -- A request is added under a name that is free.
  added-Kept :
      (pending : Text → Option PendingPermission) (locks : ℕ → Bool) (channels : ℕ → Channel)
      (id tool_call_id tool_name : Text) (p : PendingPermission) (g : WaitGuard) (next_gen gen : ℕ)
      → next_gen ≡ suc r.allocated
      → gen ≡ r.allocated
      → p ≡ record {
        generation = gen;
        lifecycle = r.allocated;
        entry = record { tool_call_id = tool_call_id; tool_name = tool_name; sender = r.allocated };
      }
      → g ≡ guard_of id p
      → r.pending id ≡ none
      → pending id ≡ some p
      → ((k : Text) → k ≢ id → pending k ≡ r.pending k)
      → locks r.allocated ≡ true
      → ((k : ℕ) → k ≢ r.allocated → locks k ≡ r.lifecycles k)
      → ((k : ℕ) → k ≢ r.allocated → channels k ≡ r.channels k)
      → Kept
          (record {
            pending = pending;
            next_generation = next_gen;
            allocated = suc r.allocated;
            lifecycles = locks;
            channels = channels;
          })
          (update guards r.allocated (some g))
          claims
  added-Kept pending locks channels id tool_call_id tool_name p g next_gen gen is_next is_gen is_new
        names free listed others on same_locks same_channels =
      let lock : p.lifecycle ≡ r.allocated = ap (λ z. z.lifecycle) is_new in
      let fresh : claims r.allocated ≡ none = elim (Option-cases (claims r.allocated)) [
        | inl e ↦ e
        | inr (c, e) ↦ let lt = (kept.held r.allocated c e).0 in absurd (omega arith)
      ] in
      Touches-Kept {a = r.allocated} kept
        (record {
          grows = λ k lt. omega arith;
          only_there = λ k away lt. elim (same_address k r.allocated) [
            | inl e ↦ absurd (away e)
            | inr n ↦ below k r.allocated lt n
          ];
          locks = same_locks;
          guards_stay = λ k away. update-other guards r.allocated (some g) k away;
          claims_stay = λ k away. refl;
          waits = λ k away w. sym (same_channels k away) ∙ w;
          from = λ id' p' e away. elim (same_id id' id) [
            | inl here ↦ absurd (
                away (
                  ap (λ z. z.lifecycle) (some-injective _ _ (sym e ∙ ap pending here ∙ listed))
                  ∙ lock))
            | inr other ↦ sym (others id' other) ∙ e
          ];
          to = λ id' p' e away. elim (same_id id' id) [
            | inl here ↦ cc (ap r.pending here, e, free)
            | inr other ↦ others id' other ∙ e
          ];
        })
        (record {
          stored_at = λ id' p' e here. elim (same_id id' id) [
            | inl same ↦
                let q : p ≡ p' = some-injective _ _ (sym listed ∙ ap pending (sym same) ∙ e) in
                let new : Stored (suc r.allocated) locks (update guards r.allocated (some g)) claims
                    id p =
                  (
                    omega (arith, lock),
                    ap locks lock ∙ on,
                    update-same guards r.allocated (some g) p.lifecycle lock ∙ ap some names,
                    ap (λ z. z.entry.sender) is_new ∙ sym lock,
                    ap claims lock ∙ fresh,
                    ap (λ z. z.generation) is_new ∙ is_gen ∙ sym lock,
                  ) in
                subst
                  (λ z.
                    Stored (suc r.allocated) locks (update guards r.allocated (some g)) claims id'
                      z)
                  q
                  (subst
                    (λ z.
                      Stored (suc r.allocated) locks (update guards r.allocated (some g)) claims z
                        p)
                    (sym same) new)
            | inr other ↦
                let lt = (kept.stored id' p' (sym (others id' other) ∙ e)).0 in absurd (omega arith)
          ];
          held_at = λ c e. cc (e, fresh);
          heard_at = λ w. inl (id, p, listed, lock);
          own_at = λ g' e.
              let same : g ≡ g' =
                some-injective _ _
                  (sym (update-same guards r.allocated (some g) r.allocated refl) ∙ e) in
              (
                ap (λ z. z.lifecycle) (sym same ∙ names) ∙ lock,
                omega arith,
                ap (λ z. z.generation) (sym same ∙ names) ∙ ap (λ z. z.generation) is_new ∙ is_gen,
              );
        })
        is_next

module _ {r : Requests} {guards : ℕ → Option WaitGuard} {claims : ℕ → Option Claim}
    (kept : Kept r guards claims) where
  pub asks-Kept :
      (tool_call_id tool_name : Text)
      → r.allocated + 1 < 2 ^ 64
      → let (g, r') = insert_unique tool_call_id tool_name r in
        Kept r' (update guards g.lifecycle (some g)) claims
  unfolding insert_unique insert_with_generation
  asks-Kept tool_call_id tool_name room =
      let id = request_id_of tool_call_id r.next_generation in
      let next_gen = kept.next in
      let is_next : (r.next_generation + 1) % 2 ^ 64 ≡ suc r.allocated = omega arith in
      go (r.pending id) refl is_next
    where
      go :
          (found : Option PendingPermission)
          → r.pending (request_id_of tool_call_id r.next_generation) ≡ found
          → (r.next_generation + 1) % 2 ^ 64 ≡ suc r.allocated
          → Kept
              (replace_entry found (record {
                pending = put r.pending (request_id_of tool_call_id r.next_generation) (
                    some (record {
                      generation = r.next_generation;
                      lifecycle = r.allocated;
                      entry = record {
                        tool_call_id = tool_call_id;
                        tool_name = tool_name;
                        sender = r.allocated;
                      };
                    }));
                next_generation = (r.next_generation + 1) % 2 ^ 64;
                allocated = suc r.allocated;
                lifecycles = update r.lifecycles r.allocated true;
                channels = update r.channels r.allocated waiting;
              }))
              (update guards r.allocated (
                some (record {
                  request_id = request_id_of tool_call_id r.next_generation;
                  generation = r.next_generation;
                  lifecycle = r.allocated;
                })))
              claims
      go none free is_next =
          added-Kept kept _ _ _ (request_id_of tool_call_id r.next_generation) tool_call_id
            tool_name _ _ _ _ is_next kept.next refl refl free
            (put-same r.pending (request_id_of tool_call_id r.next_generation) _)
            (λ k other.
              put-other r.pending (request_id_of tool_call_id r.next_generation) _ k other)
            (update-same r.lifecycles r.allocated true r.allocated refl)
            (λ k away. update-other r.lifecycles r.allocated true k away)
            (λ k away. update-other r.channels r.allocated waiting k away)
      go (some q) listed is_next =
          let id = request_id_of tool_call_id r.next_generation in
          let (lt, active, guarded, sends, free, gen) = kept.stored id q listed in
          let made_locks = update r.lifecycles r.allocated true in
          let made = update r.channels r.allocated waiting in
          let elsewhere : q.lifecycle ≢ r.allocated = λ e. omega arith in
          let elsewhere' : q.entry.sender ≢ r.allocated = λ e. elsewhere (sym sends ∙ e) in
          added-Kept (dropped-Kept kept id q listed) _ _ _ id tool_call_id tool_name _ _ _ _ is_next
            kept.next refl refl (put-same r.pending id none) (put-same r.pending id _)
            (λ k other.
              put-other r.pending id _ k other ∙ sym (put-other r.pending id none k other))
            (update-other made_locks q.lifecycle false r.allocated (λ e. elsewhere (sym e))
              ∙ update-same r.lifecycles r.allocated true r.allocated refl)
            (λ k away.
              update_twice r.lifecycles r.allocated true q.lifecycle false false k away refl)
            (λ k away.
              update_twice r.channels r.allocated waiting q.entry.sender
                (drop_sender (made q.entry.sender)) (drop_sender (r.channels q.entry.sender)) k away
                (ap drop_sender
                  (update-other r.channels r.allocated waiting q.entry.sender elsewhere')))
