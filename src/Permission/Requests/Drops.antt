-- ===== src/Permission/Requests/Drops.antt =====
-- Dropping the guard of a request keeps the invariant, and takes that request out of the map.
use mentra.Base.{
  ℕ, ◌≡◌, ◌≢◌, inl, inr, ◌∙◌, refl, sym, ap, Option, none, some, false, Bool-cases, Option-cases,
  ◌==◌, ==_iff,
}
use mathlib.Core.Option.{some-injective}
use mentra.Base.Text.{Text}
use mentra.Permission.Requests.Store.{
  PendingPermission, WaitGuard, waiting, Requests, update, put, drop_sender, drop_entry,
  set_lifecycle, cancel_if_generation, drop_guard,
}
use mentra.Permission.Requests.Resolve.{Claim}
use mentra.Permission.Requests.Kept.{
  Kept, Touches-Kept, update-same, update-other, put-other, removed,
}
use mentra.Permission.Requests.Steps.{drop_sender-waiting}

module _ {r : Requests} {guards : ℕ → Option WaitGuard} {claims : ℕ → Option Claim}
    (kept : Kept r guards claims) (a : ℕ) (g : WaitGuard) (guarded : guards a ≡ some g)
    (done : ¬ (r.channels a ≡ waiting)) where
  -- The entry of the guard's request, if the map has it.
  own_entry :
      (id : Text) (p : PendingPermission)
      → r.pending id ≡ some p
      → p.lifecycle ≡ a
      → (id ≡ g.request_id) × (p.generation ≡ g.generation)
  own_entry id p e here =
      let same = some-injective _ _ (sym (kept.stored id p e).2 ∙ ap guards here ∙ guarded) in
      (ap (λ z. z.request_id) same, ap (λ z. z.generation) same)

  no_guard : (k : ℕ) → k ≢ a → update guards a none k ≡ guards k
  no_guard k away = update-other guards a none k away

  gone : (g' : WaitGuard) → ¬ (update guards a none a ≡ some g')
  gone g' e = cc (update-same guards a none a refl)

  inactive-Kept : r.lifecycles a ≡ false → Kept r (update guards a none) claims
  inactive-Kept off =
      Touches-Kept {a = a} kept
        (record {
          grows = λ k lt. lt;
          only_there = λ k away lt. lt;
          locks = λ k away. refl;
          guards_stay = no_guard;
          claims_stay = λ k away. refl;
          waits = λ k away w. w;
          from = λ id p e away. e;
          to = λ id p e away. e;
        })
        (record {
          stored_at = λ id p e here. cc ((kept.stored id p e).1, ap r.lifecycles here, off);
          held_at = λ c e.
              let (lt, own, sends, waits, gen) = kept.held a c e in
              (lt, own, sends, (λ on. cc (on, off)), gen);
          heard_at = λ w. absurd (done w);
          own_at = λ g' e. absurd (gone g' e);
        })
        kept.next

  -- The lock is closed, and the request is not in the map.
  closed-Kept :
      ((id : Text) (p : PendingPermission) → r.pending id ≡ some p → p.lifecycle ≢ a)
      → Kept (set_lifecycle a false r) (update guards a none) claims
  closed-Kept absent =
      Touches-Kept {a = a} kept
        (record {
          grows = λ k lt. lt;
          only_there = λ k away lt. lt;
          locks = λ k away. update-other r.lifecycles a false k away;
          guards_stay = no_guard;
          claims_stay = λ k away. refl;
          waits = λ k away w. w;
          from = λ id p e away. e;
          to = λ id p e away. e;
        })
        (record {
          stored_at = λ id p e here. absurd (absent id p e here);
          held_at = λ c e.
              let (lt, own, sends, waits, gen) = kept.held a c e in
              (lt, own, sends, (λ on. cc (on, update-same r.lifecycles a false a refl)), gen);
          heard_at = λ w. absurd (done w);
          own_at = λ g' e. absurd (gone g' e);
        })
        kept.next

  -- The request was in the map, and leaves it.
  cancelled-Kept :
      (p : PendingPermission)
      → r.pending g.request_id ≡ some p
      → p.lifecycle ≡ a
      → Kept
          (drop_entry p
            (record (set_lifecycle a false r) { pending = put r.pending g.request_id none }))
          (update guards a none)
          claims
  cancelled-Kept p listed here =
      let there : p.entry.sender ≡ a = (kept.stored g.request_id p listed).3 ∙ here in
      let dropped = drop_sender (r.channels p.entry.sender) in
      Touches-Kept {a = a} kept
        (record {
          grows = λ k lt. lt;
          only_there = λ k away lt. lt;
          locks = λ k away. update-other r.lifecycles a false k away;
          guards_stay = no_guard;
          claims_stay = λ k away. refl;
          waits = λ k away w.
              sym (update-other r.channels p.entry.sender dropped k (λ e. away (e ∙ there))) ∙ w;
          from = λ id' p' e away. (removed r.pending g.request_id id' p' e).1;
          to = λ id' p' e away.
              put-other r.pending g.request_id none id' (λ same. away (
                ap (λ z. z.lifecycle) (some-injective _ _ (sym e ∙ ap r.pending same ∙ listed))
                ∙ here))
              ∙ e;
        })
        (record {
          stored_at = λ id' p' e here'.
              let (other, e') = removed r.pending g.request_id id' p' e in
              absurd (other (own_entry id' p' e' here').0);
          held_at = λ c e.
              let (lt, own, sends, waits, gen) = kept.held a c e in
              (lt, own, sends, (λ on. cc (on, update-same r.lifecycles a false a refl)), gen);
          heard_at = λ w. absurd (
              drop_sender-waiting (r.channels p.entry.sender)
                (sym (update-same r.channels p.entry.sender dropped a (sym there)) ∙ w));
          own_at = λ g' e. absurd (gone g' e);
        })
        kept.next

  pub drops-Kept : Kept (drop_guard g r) (update guards a none) claims
  unfolding drop_guard cancel_if_generation
  drops-Kept =
      let (own, lt, gen) = kept.own a g guarded in
      rw own (elim (Bool-cases (r.lifecycles a)) [
        | inr off ↦ rw off (inactive-Kept off)
        | inl on ↦ rw on (elim (Option-cases (r.pending g.request_id)) [
          | inl missing ↦
              rw missing
                (closed-Kept λ id p e here. cc (ap r.pending (own_entry id p e here).0, e, missing))
          | inr (p, listed) ↦ elim (Bool-cases (p.generation == g.generation)) [
            | inl hit ↦
                let own_gen = (kept.stored g.request_id p listed).5 in
                rw (listed, hit)
                  (cancelled-Kept p listed
                    (sym own_gen ∙ (==_iff p.generation g.generation).0 hit ∙ gen))
            | inr miss ↦
                rw (listed, miss)
                  (closed-Kept λ id p' e here.
                    let (names, gens) = own_entry id p' e here in
                    let same = some-injective _ _ (sym e ∙ ap r.pending names ∙ listed) in
                    cc (
                      miss,
                      (==_iff p.generation g.generation).1
                          (ap (λ z. z.generation) (sym same) ∙ gens),
                    ))
          ]
        ])
      ])
