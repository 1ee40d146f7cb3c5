-- ===== src/Steering/Kept.antt =====
-- The acts on the queues during a run, the handle's calls and the drains, and what is due: what is
-- in flight and then what is queued.
use mentra.Base.{
  ◌≡◌, ◌∙◌, refl, sym, ap, List, [], ◌∷◌, ◌++◌, is_empty, if◌then◌else◌, Bool-cases, inl, inr, Bool,
  true, false,
}
use mathlib.Core.List.{reverse, reverse-cons, reverse-reverse, append-nil, append_assoc}
use mentra.Steering.Queue.{
  QueueMode, Content, SteeringQueues, Agent, steer, follow_up, set_steer_mode, set_follow_up_mode,
  drain, push_all_front, prepend, take_steer, drain_steer, take_follow_up, drain_follow_up,
  requeue_inflight_steering, clear_steer, clear_follow_up,
}

-- What happens to the queues while the agent runs: the handle's calls, and the drains at the
-- boundaries of the rounds.
pub data Act (Block : Type 0) : Type 0 where
  steers : Content Block → Act Block
  follows_up : Content Block → Act Block
  sets_steer_mode : QueueMode → Act Block
  sets_follow_up_mode : QueueMode → Act Block
  clears_steer : Act Block
  clears_follow_up : Act Block
  drains_steer : Act Block
  drains_follow_up : Act Block

module _ {Block : Type 0} where
  abbrev pub with_queues : SteeringQueues Block → Agent Block → Agent Block
  with_queues queues agent = record {
    steering = queues;
    inflight_steer = agent.inflight_steer;
    inflight_follow_up = agent.inflight_follow_up;
  }

  unfoldable pub act : Act Block → Agent Block → Agent Block
  act (Act.steers content) agent = with_queues (steer content agent.steering) agent
  act (Act.follows_up content) agent = with_queues (follow_up content agent.steering) agent
  act (Act.sets_steer_mode mode) agent = with_queues (set_steer_mode mode agent.steering) agent
  act (Act.sets_follow_up_mode mode) agent =
      with_queues (set_follow_up_mode mode agent.steering) agent
  act Act.clears_steer agent = with_queues (clear_steer agent.steering) agent
  act Act.clears_follow_up agent = with_queues (clear_follow_up agent.steering) agent
  act Act.drains_steer agent = (drain_steer agent).1
  act Act.drains_follow_up agent = (drain_follow_up agent).1

  unfoldable pub act_all : List (Act Block) → Agent Block → Agent Block
  act_all [] agent = agent
  act_all (a ∷ acts) agent = act_all acts (act a agent)

  -- The entries that the calls add: those that are not empty.
  abbrev pub accepted : Content Block → List (Content Block)
  accepted content = if is_empty content then [] else content ∷ []

  unfoldable pub steered : List (Act Block) → List (Content Block)
  steered [] = []
  steered (Act.steers content ∷ acts) = accepted content ++ steered acts
  steered (_ ∷ acts) = steered acts

  unfoldable pub followed_up : List (Act Block) → List (Content Block)
  followed_up [] = []
  followed_up (Act.follows_up content ∷ acts) = accepted content ++ followed_up acts
  followed_up (_ ∷ acts) = followed_up acts

  abbrev pub clears : Act Block → Bool
  clears Act.clears_steer = true
  clears Act.clears_follow_up = true
  clears (Act.steers _) = false
  clears (Act.follows_up _) = false
  clears (Act.sets_steer_mode _) = false
  clears (Act.sets_follow_up_mode _) = false
  clears Act.drains_steer = false
  clears Act.drains_follow_up = false

  -- No call removes what is queued.
  unfoldable pub NoClear : List (Act Block) → Type 0
  NoClear [] = Unit
  NoClear (a ∷ acts) = (clears a ≡ false) × NoClear acts

  -- In flight first, then the queue.
  abbrev pub steers_due : Agent Block → List (Content Block)
  steers_due agent = agent.inflight_steer ++ agent.steering.steer

  abbrev pub follow_ups_due : Agent Block → List (Content Block)
  follow_ups_due agent = agent.inflight_follow_up ++ agent.steering.follow_up

  push_all_front-reverse :
      (xs queue : List (Content Block)) → push_all_front xs queue ≡ reverse xs ++ queue
  unfolding push_all_front
  push_all_front-reverse [] queue = refl
  push_all_front-reverse (x ∷ xs) queue =
      push_all_front-reverse xs (x ∷ queue)
      ∙ sym (append_assoc (reverse xs) (x ∷ []) queue)
      ∙ ap (λ z. z ++ queue) (sym (reverse-cons x xs))

  prepend-append : (queue xs : List (Content Block)) → prepend queue xs ≡ xs ++ queue
  prepend-append queue xs =
      push_all_front-reverse (reverse xs) queue ∙ ap (λ z. z ++ queue) (reverse-reverse xs)

  pub drain-append :
      (queue : List (Content Block)) (mode : QueueMode)
      → (drain queue mode).0 ++ (drain queue mode).1 ≡ queue
  unfolding drain
  drain-append queue QueueMode.all = append-nil queue
  drain-append [] QueueMode.one_at_a_time = refl
  drain-append (x ∷ queue) QueueMode.one_at_a_time = refl

  pub take_steer-due :
      (d : List (Content Block) × List (Content Block)) (agent : Agent Block)
      → d.0 ++ d.1 ≡ agent.steering.steer
      → (steers_due (take_steer d agent).1 ≡ steers_due agent)
        × (follow_ups_due (take_steer d agent).1 ≡ follow_ups_due agent)
  take_steer-due ([], queue) agent e = (ap (λ z. agent.inflight_steer ++ z) e, refl)
  take_steer-due (x ∷ xs, queue) agent e = (
    append_assoc agent.inflight_steer (x ∷ xs) queue ∙ ap (λ z. agent.inflight_steer ++ z) e,
    refl,
  )

  take_follow_up-due :
      (d : List (Content Block) × List (Content Block)) (agent : Agent Block)
      → d.0 ++ d.1 ≡ agent.steering.follow_up
      → (steers_due (take_follow_up d agent).1 ≡ steers_due agent)
        × (follow_ups_due (take_follow_up d agent).1 ≡ follow_ups_due agent)
  take_follow_up-due ([], queue) agent e = (refl, ap (λ z. agent.inflight_follow_up ++ z) e)
  take_follow_up-due (x ∷ xs, queue) agent e = (
    refl,
    append_assoc agent.inflight_follow_up (x ∷ xs) queue
        ∙ ap (λ z. agent.inflight_follow_up ++ z) e,
  )

  act-due :
      (a : Act Block) (agent : Agent Block)
      → clears a ≡ false
      → (steers_due (act a agent) ≡ steers_due agent ++ steered (a ∷ []))
        × (follow_ups_due (act a agent) ≡ follow_ups_due agent ++ followed_up (a ∷ []))
  unfolding act steered followed_up steer follow_up drain_steer drain_follow_up
  act-due (Act.steers content) agent kept = elim (Bool-cases (is_empty content)) [
    | inl none_said ↦
        rw none_said (sym (append-nil (steers_due agent)), sym (append-nil (follow_ups_due agent)))
    | inr said ↦ rw said (
      sym (append_assoc agent.inflight_steer agent.steering.steer (content ∷ [])),
      sym (append-nil (follow_ups_due agent)),
    )
  ]
  act-due (Act.follows_up content) agent kept = elim (Bool-cases (is_empty content)) [
    | inl none_said ↦
        rw none_said (sym (append-nil (steers_due agent)), sym (append-nil (follow_ups_due agent)))
    | inr said ↦ rw said (
      sym (append-nil (steers_due agent)),
      sym (append_assoc agent.inflight_follow_up agent.steering.follow_up (content ∷ [])),
    )
  ]
  act-due (Act.sets_steer_mode mode) agent kept =
      (sym (append-nil (steers_due agent)), sym (append-nil (follow_ups_due agent)))
  act-due (Act.sets_follow_up_mode mode) agent kept =
      (sym (append-nil (steers_due agent)), sym (append-nil (follow_ups_due agent)))
  act-due Act.clears_steer agent kept = cc
  act-due Act.clears_follow_up agent kept = cc
  act-due Act.drains_steer agent kept =
      let (p, q) =
        take_steer-due (drain agent.steering.steer agent.steering.steer_mode) agent
          (drain-append agent.steering.steer agent.steering.steer_mode) in
      (p ∙ sym (append-nil (steers_due agent)), q ∙ sym (append-nil (follow_ups_due agent)))
  act-due Act.drains_follow_up agent kept =
      let (p, q) =
        take_follow_up-due (drain agent.steering.follow_up agent.steering.follow_up_mode) agent
          (drain-append agent.steering.follow_up agent.steering.follow_up_mode) in
      (p ∙ sym (append-nil (steers_due agent)), q ∙ sym (append-nil (follow_ups_due agent)))

  steered-cons :
      (a : Act Block) (acts : List (Act Block))
      → (steered (a ∷ acts) ≡ steered (a ∷ []) ++ steered acts)
        × (followed_up (a ∷ acts) ≡ followed_up (a ∷ []) ++ followed_up acts)
  unfolding steered followed_up
  steered-cons (Act.steers content) acts =
      (ap (λ z. z ++ steered acts) (sym (append-nil (accepted content))), refl)
  steered-cons (Act.follows_up content) acts =
      (refl, ap (λ z. z ++ followed_up acts) (sym (append-nil (accepted content))))
  steered-cons (Act.sets_steer_mode mode) acts = (refl, refl)
  steered-cons (Act.sets_follow_up_mode mode) acts = (refl, refl)
  steered-cons Act.clears_steer acts = (refl, refl)
  steered-cons Act.clears_follow_up acts = (refl, refl)
  steered-cons Act.drains_steer acts = (refl, refl)
  steered-cons Act.drains_follow_up acts = (refl, refl)

  -- Whatever a run drains and whatever is queued meanwhile, if no call clears a queue, what is in flight and then what is
  -- queued is what was there before, in its order, and then what was added.
  pub act_all-due :
      (acts : List (Act Block)) (agent : Agent Block)
      → NoClear acts
      → (steers_due (act_all acts agent) ≡ steers_due agent ++ steered acts)
        × (follow_ups_due (act_all acts agent) ≡ follow_ups_due agent ++ followed_up acts)
  unfolding act_all steered followed_up NoClear
  act_all-due [] agent kept =
      (sym (append-nil (steers_due agent)), sym (append-nil (follow_ups_due agent)))
  act_all-due (a ∷ acts) agent (keeps, kept) =
      let (p, q) = act_all-due acts (act a agent) kept in
      let (x, y) = act-due a agent keeps in
      let (u, v) = steered-cons a acts in
      (
        p
            ∙ ap (λ z. z ++ steered acts) x
            ∙ append_assoc (steers_due agent) (steered (a ∷ [])) (steered acts)
            ∙ ap (λ z. steers_due agent ++ z) (sym u),
        q
            ∙ ap (λ z. z ++ followed_up acts) y
            ∙ append_assoc (follow_ups_due agent) (followed_up (a ∷ [])) (followed_up acts)
            ∙ ap (λ z. follow_ups_due agent ++ z) (sym v),
      )

  act_all-append :
      (before after : List (Act Block)) (agent : Agent Block)
      → act_all (before ++ after) agent ≡ act_all after (act_all before agent)
  unfolding act_all
  act_all-append [] after agent = refl
  act_all-append (a ∷ before) after agent = act_all-append before after (act a agent)

  -- A call of `clear_steer` removes the steers that are queued then and nothing else: the steers in
  -- flight stay, those that are queued after it, if nothing clears a queue again, follow them, and
  -- the follow-ups are those that a run without the call has. The same holds for `clear_follow_up`
  -- and the follow-ups.
  pub act_all-cleared :
      (before after : List (Act Block)) (agent : Agent Block)
      → NoClear after
      → ((steers_due (act_all (before ++ (Act.clears_steer ∷ after)) agent)
            ≡ (act_all before agent).inflight_steer ++ steered after)
          × (follow_ups_due (act_all (before ++ (Act.clears_steer ∷ after)) agent)
              ≡ follow_ups_due (act_all (before ++ after) agent)))
        × ((follow_ups_due (act_all (before ++ (Act.clears_follow_up ∷ after)) agent)
              ≡ (act_all before agent).inflight_follow_up ++ followed_up after)
            × (steers_due (act_all (before ++ (Act.clears_follow_up ∷ after)) agent)
                ≡ steers_due (act_all (before ++ after) agent)))
  unfolding act_all act
  act_all-cleared before after agent kept =
      let reached = act_all before agent in
      let (none_s, none_f) = act_all-due after (act Act.clears_steer reached) kept in
      let (some_s, some_f) = act_all-due after (act Act.clears_follow_up reached) kept in
      let (s, f) = act_all-due after reached kept in
      let plain = act_all-append before after agent in
      let steer_at = act_all-append before (Act.clears_steer ∷ after) agent in
      let follow_at = act_all-append before (Act.clears_follow_up ∷ after) agent in
      (
        (
          ap steers_due steer_at
              ∙ none_s
              ∙ ap (λ z. z ++ steered after) (append-nil reached.inflight_steer),
          ap follow_ups_due steer_at ∙ none_f ∙ sym (ap follow_ups_due plain ∙ f),
        ),
        (
          ap follow_ups_due follow_at
              ∙ some_f
              ∙ ap (λ z. z ++ followed_up after) (append-nil reached.inflight_follow_up),
          ap steers_due follow_at ∙ some_s ∙ sym (ap steers_due plain ∙ s),
        ),
      )

  -- The queues after what is in flight was put back.
  pub requeue-due :
      (agent : Agent Block)
      → ((requeue_inflight_steering agent).steering.steer ≡ steers_due agent)
        × ((requeue_inflight_steering agent).steering.follow_up ≡ follow_ups_due agent)
  unfolding requeue_inflight_steering
  requeue-due agent = (
    prepend-append agent.steering.steer agent.inflight_steer,
    prepend-append agent.steering.follow_up agent.inflight_follow_up,
  )
