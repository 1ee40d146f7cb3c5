-- ===== src/Steering/InFlight.antt =====
-- The entries in flight when the run of `run_queued` ends: put back in front of the queues, or
-- forgotten.
use mentra.Base.{◌≡◌, ◌∙◌, refl, sym, ap, List, [], ◌∷◌, ◌++◌, true, is_empty}
use mathlib.Core.List.{append-nil, append_assoc}
use mentra.Steering.Queue.{
  QueueMode, Content, Agent, drain, take_steer, drain_steer, take_follow_up, drain_follow_up,
  requeue_inflight_steering, clear_inflight_steering, push_all_front,
}
use mentra.Steering.Kept.{
  Act, act, act_all, steered, followed_up, steers_due, follow_ups_due, requeue-due,
}

module _ {Block : Type 0} where
  pub drain-empty :
      (queue : List (Content Block)) (mode : QueueMode)
      → (drain queue mode).0 ≡ []
      → is_empty queue ≡ true
  unfolding drain
  drain-empty queue QueueMode.all e = ap is_empty e
  drain-empty [] QueueMode.one_at_a_time e = refl
  drain-empty (x ∷ queue) QueueMode.one_at_a_time e = cc

  -- What is in flight stays there while the run goes on.
  Grown : Agent Block → Agent Block → Type 0
  Grown agent later =
      (more : List (Content Block)) × (later.inflight_steer ≡ agent.inflight_steer ++ more)

  take_steer-Grown :
      (d : List (Content Block) × List (Content Block)) (agent : Agent Block)
      → Grown agent (take_steer d agent).1
  unfolding Grown
  take_steer-Grown ([], queue) agent = ([], sym (append-nil agent.inflight_steer))
  take_steer-Grown (x ∷ xs, queue) agent = (x ∷ xs, refl)

  take_follow_up-Grown :
      (d : List (Content Block) × List (Content Block)) (agent : Agent Block)
      → Grown agent (take_follow_up d agent).1
  unfolding Grown
  take_follow_up-Grown ([], queue) agent = ([], sym (append-nil agent.inflight_steer))
  take_follow_up-Grown (x ∷ xs, queue) agent = ([], sym (append-nil agent.inflight_steer))

  act-Grown : (a : Act Block) (agent : Agent Block) → Grown agent (act a agent)
  unfolding Grown act drain_steer drain_follow_up
  act-Grown (Act.steers content) agent = ([], sym (append-nil agent.inflight_steer))
  act-Grown (Act.follows_up content) agent = ([], sym (append-nil agent.inflight_steer))
  act-Grown (Act.sets_steer_mode mode) agent = ([], sym (append-nil agent.inflight_steer))
  act-Grown (Act.sets_follow_up_mode mode) agent = ([], sym (append-nil agent.inflight_steer))
  act-Grown Act.clears_steer agent = ([], sym (append-nil agent.inflight_steer))
  act-Grown Act.clears_follow_up agent = ([], sym (append-nil agent.inflight_steer))
  act-Grown Act.drains_steer agent =
      take_steer-Grown (drain agent.steering.steer agent.steering.steer_mode) agent
  act-Grown Act.drains_follow_up agent =
      take_follow_up-Grown (drain agent.steering.follow_up agent.steering.follow_up_mode) agent

  act_all-Grown : (acts : List (Act Block)) (agent : Agent Block) → Grown agent (act_all acts agent)
  unfolding Grown act_all
  act_all-Grown [] agent = ([], sym (append-nil agent.inflight_steer))
  act_all-Grown (a ∷ acts) agent =
      let (one, p) = act-Grown a agent in
      let (more, q) = act_all-Grown acts (act a agent) in
      (one ++ more, q ∙ ap (λ z. z ++ more) p ∙ append_assoc agent.inflight_steer one more)

  abbrev pub Idle : Agent Block → Type 0
  Idle agent = (agent.inflight_steer ≡ []) × (agent.inflight_follow_up ≡ [])

  -- Nothing is lost: the queues are the old ones, then what was added.
  abbrev pub PutBack : List (Act Block) → Agent Block → Agent Block → Type 0
  PutBack acts before after =
      (after.steering.steer ≡ before.steering.steer ++ steered acts)
      × (after.steering.follow_up ≡ before.steering.follow_up ++ followed_up acts)
      × Idle after

  -- All that was in flight at the end of the acts, `first` and then what was drained later, is gone
  -- from the front of the queues, and nothing else is.
  abbrev pub Delivered :
      List (Content Block) → Agent Block → List (Act Block) → Agent Block → Agent Block → Type 0
  Delivered first later acts before after =
      ((more : List (Content Block)) × (later.inflight_steer ≡ first ++ more))
      × (later.inflight_steer ++ after.steering.steer ≡ before.steering.steer ++ steered acts)
      × (later.inflight_follow_up ++ after.steering.follow_up
          ≡ before.steering.follow_up ++ followed_up acts)
      × Idle after

  -- The queues at the end of the acts of a run that started from `started`.
  abbrev pub Due : List (Act Block) → Agent Block → Agent Block → Type 0
  Due acts before later =
      (steers_due later ≡ before.steering.steer ++ steered acts)
      × (follow_ups_due later ≡ before.steering.follow_up ++ followed_up acts)

  pub requeue-PutBack :
      (acts : List (Act Block)) (before later : Agent Block)
      → Due acts before later
      → PutBack acts before (requeue_inflight_steering later)
  unfolding requeue_inflight_steering
  requeue-PutBack acts before later (s, f) =
      let (p, q) = requeue-due later in (p ∙ s, q ∙ f, (refl, refl))

  pub requeue_twice-PutBack :
      (acts : List (Act Block)) (before later : Agent Block)
      → Due acts before later
      → PutBack acts before (requeue_inflight_steering (requeue_inflight_steering later))
  unfolding requeue_inflight_steering
  requeue_twice-PutBack acts before later due =
      let (p, q, _) = requeue-PutBack acts before later due in
      requeue-PutBack acts before (requeue_inflight_steering later) (p, q)

  pub clear-Delivered :
      (first : List (Content Block)) (acts : List (Act Block)) (before started : Agent Block)
      → started.inflight_steer ≡ first
      → Due acts before (act_all acts started)
      → Delivered first
          (act_all acts started)
          acts
          before
          (clear_inflight_steering (act_all acts started))
  unfolding Grown
  clear-Delivered first acts before started flying (s, f) =
      let (more, grown) = act_all-Grown acts started in
      ((more, grown ∙ ap (λ z. z ++ more) flying), s, f, (refl, refl))

  -- Nothing is in flight then, so nothing goes back.
  pub requeue_idle-Delivered :
      (first : List (Content Block)) (acts : List (Act Block)) (before later : Agent Block)
      → Delivered first later acts before (clear_inflight_steering later)
      → Delivered first later acts before
          (requeue_inflight_steering (clear_inflight_steering later))
  unfolding requeue_inflight_steering push_all_front
  requeue_idle-Delivered first acts before later delivered = delivered

  -- The entries that `run_queued` starts a run with.
  abbrev pub opening : Agent Block → List (Content Block)
  opening agent = (drain agent.steering.steer agent.steering.steer_mode).0
