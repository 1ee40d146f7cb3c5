-- ===== src/Permission/Requests/Steps.antt =====
-- Taking a request, leaving one, and dropping its guard keep the invariant.
use mentra.Base.{ℕ, ◌≡◌, inr, ◌∙◌, refl, sym, ap, subst, Option, none, some, true}
use mathlib.Core.Option.{some-injective}
use mentra.Base.Text.{Text}
use mentra.Permission.Requests.Store.{
  PendingPermission, WaitGuard, Channel, waiting, answered, receiver_gone, sender_gone, Requests,
  update, put, drop_sender,
}
use mentra.Permission.Requests.Resolve.{Claim, leave}
use mentra.Permission.Requests.Kept.{
  Held, Kept, Touches-Kept, Kept-one, update-same, update-other, put-other, removed,
}

pub leave-waiting : (channel : Channel) → ¬ (leave true channel ≡ waiting)
leave-waiting waiting e = cc
leave-waiting (answered d) e = cc
leave-waiting receiver_gone e = cc
leave-waiting sender_gone e = cc

pub drop_sender-waiting : (channel : Channel) → ¬ (drop_sender channel ≡ waiting)
drop_sender-waiting waiting e = cc
drop_sender-waiting (answered d) e = cc
drop_sender-waiting receiver_gone e = cc
drop_sender-waiting sender_gone e = cc

module _ {r : Requests} {guards : ℕ → Option WaitGuard} {claims : ℕ → Option Claim}
    (kept : Kept r guards claims) where
  pub abandons-Kept :
      (a : ℕ)
      → Kept (record r { channels = update r.channels a (leave true (r.channels a)) }) guards claims
  abandons-Kept a =
      let now = update r.channels a (leave true (r.channels a)) in
      Touches-Kept kept
        (record {
          grows = λ k lt. lt;
          only_there = λ k away lt. lt;
          locks = λ k away. refl;
          guards_stay = λ k away. refl;
          claims_stay = λ k away. refl;
          waits =
              λ k away w. sym (update-other r.channels a (leave true (r.channels a)) k away) ∙ w;
          from = λ id p e away. e;
          to = λ id p e away. e;
        })
        (record {
          stored_at = λ id p e here. kept.stored id p e;
          held_at = λ c e. kept.held a c e;
          heard_at = λ w. absurd (
              leave-waiting (r.channels a)
                (sym (update-same r.channels a (leave true (r.channels a)) a refl) ∙ w));
          own_at = λ g e. kept.own a g e;
        })
        kept.next

  pub takes-Kept :
      (id : Text) (p : PendingPermission) (c : Claim)
      → r.pending id ≡ some p
      → c.request_id ≡ id
      → c.held ≡ p
      → Kept
          (record r { pending = put r.pending id none })
          guards
          (update claims p.lifecycle (some c))
  takes-Kept id p c listed names takes =
      let (lt, active, guarded, sends, free, gen) = kept.stored id p listed in
      Touches-Kept {a = p.lifecycle} kept
        (record {
          grows = λ k lt. lt;
          only_there = λ k away lt. lt;
          locks = λ k away. refl;
          guards_stay = λ k away. refl;
          claims_stay = λ k away. update-other claims p.lifecycle (some c) k away;
          waits = λ k away w. w;
          from = λ id' p' e away. (removed r.pending id id' p' e).1;
          to = λ id' p' e away.
              put-other r.pending id none id' (λ same.
                away
                  (ap (λ z. z.lifecycle) (some-injective _ _ (sym e ∙ ap r.pending same ∙ listed))))
              ∙ e;
        })
        (record {
          stored_at = λ id' p' e here.
              let (other, e') = removed r.pending id id' p' e in
              absurd (other (Kept-one id' id p' p kept e' listed here));
          held_at = λ c' e.
              let same : c ≡ c' =
                some-injective _ _
                  (sym (update-same claims p.lifecycle (some c) p.lifecycle refl) ∙ e) in
              subst (Held r.allocated r.lifecycles guards p.lifecycle) same (
                lt,
                ap (λ z. z.lifecycle) takes,
                ap (λ z. z.entry.sender) takes ∙ sends,
                (λ _. guarded ∙ ap some (cc (names, takes))),
                ap (λ z. z.generation) takes ∙ gen,
              );
          heard_at = λ w. inr (c, update-same claims p.lifecycle (some c) p.lifecycle refl);
          own_at = λ g e. kept.own p.lifecycle g e;
        })
        kept.next
