-- ===== src/Steering/Queue.antt =====
-- `SteeringHandle`'s queues and the agent's part in them: entries wait in the queue, are in flight
-- during a run, and go back to the front when the run fails.
use mentra.Base.{Option, none, some, List, [], ◌∷◌, ◌++◌, Bool, not, ◌||◌, is_empty, if◌then◌else◌}
use mathlib.Core.List.{reverse}
use mentra.Base.Results.{Result, ok, err}

pub data QueueMode : Type 0 where
  all : QueueMode
  one_at_a_time : QueueMode

-- The refusal of `run_queued`, the error of a run that ended with no message of the assistant, and
-- the errors of all that a run calls.
pub data RunError (E : Type 0) : Type 0 where
  no_queued_input : RunError E
  empty_assistant_response : RunError E
  run_failed : E → RunError E

module _ (Block : Type 0) where
  -- What one call to `steer` or `follow_up` queues.
  abbrev pub Content : Type 0
  Content = List Block

  pub record SteeringQueues : Type 0 where
    pub steer : List Content
    pub follow_up : List Content
    pub steer_mode : QueueMode
    pub follow_up_mode : QueueMode

  -- The agent's fields that take part.
  pub record Agent : Type 0 where
    pub steering : SteeringQueues
    pub inflight_steer : List Content
    pub inflight_follow_up : List Content

module _ {Block : Type 0} where
  -- `SteeringHandle::steer`: an empty entry is dropped.
  unfoldable pub steer : Content Block → SteeringQueues Block → SteeringQueues Block
  steer content queues = if is_empty content then queues else record {
    steer = queues.steer ++ (content ∷ []);
    follow_up = queues.follow_up;
    steer_mode = queues.steer_mode;
    follow_up_mode = queues.follow_up_mode;
  }

  unfoldable pub follow_up : Content Block → SteeringQueues Block → SteeringQueues Block
  follow_up content queues = if is_empty content then queues else record {
    steer = queues.steer;
    follow_up = queues.follow_up ++ (content ∷ []);
    steer_mode = queues.steer_mode;
    follow_up_mode = queues.follow_up_mode;
  }

  abbrev pub with_steer : List (Content Block) → SteeringQueues Block → SteeringQueues Block
  with_steer entries queues = record {
    steer = entries;
    follow_up = queues.follow_up;
    steer_mode = queues.steer_mode;
    follow_up_mode = queues.follow_up_mode;
  }

  abbrev pub with_follow_up : List (Content Block) → SteeringQueues Block → SteeringQueues Block
  with_follow_up entries queues = record {
    steer = queues.steer;
    follow_up = entries;
    steer_mode = queues.steer_mode;
    follow_up_mode = queues.follow_up_mode;
  }

  abbrev pub clear_steer : SteeringQueues Block → SteeringQueues Block
  clear_steer queues = with_steer [] queues

  abbrev pub clear_follow_up : SteeringQueues Block → SteeringQueues Block
  clear_follow_up queues = with_follow_up [] queues

  abbrev pub has_pending : SteeringQueues Block → Bool
  has_pending queues = not (is_empty queues.steer) || not (is_empty queues.follow_up)

  abbrev pub set_steer_mode : QueueMode → SteeringQueues Block → SteeringQueues Block
  set_steer_mode mode queues = record {
    steer = queues.steer;
    follow_up = queues.follow_up;
    steer_mode = mode;
    follow_up_mode = queues.follow_up_mode;
  }

  abbrev pub set_follow_up_mode : QueueMode → SteeringQueues Block → SteeringQueues Block
  set_follow_up_mode mode queues = record {
    steer = queues.steer;
    follow_up = queues.follow_up;
    steer_mode = queues.steer_mode;
    follow_up_mode = mode;
  }

  -- The entries drained, and the queue that is left.
  unfoldable pub drain :
      List (Content Block) → QueueMode → List (Content Block) × List (Content Block)
  drain queue QueueMode.all = (queue, [])
  drain [] QueueMode.one_at_a_time = ([], [])
  drain (entry ∷ queue) QueueMode.one_at_a_time = (entry ∷ [], queue)

  -- The loop of `prepend`: each entry goes to the front.
  unfoldable pub push_all_front : List (Content Block) → List (Content Block) → List (Content Block)
  push_all_front [] queue = queue
  push_all_front (entry ∷ entries) queue = push_all_front entries (entry ∷ queue)

  abbrev pub prepend : List (Content Block) → List (Content Block) → List (Content Block)
  prepend queue entries = push_all_front (reverse entries) queue

  unfoldable pub flatten : List (Content Block) → Content Block
  flatten [] = []
  flatten (entry ∷ entries) = entry ++ flatten entries

  abbrev pub has_pending_steer : Agent Block → Bool
  has_pending_steer agent = not (is_empty agent.steering.steer)

  abbrev pub has_pending_follow_up : Agent Block → Bool
  has_pending_follow_up agent = not (is_empty agent.steering.follow_up)

  -- `Agent::drain_steer` after the queue was drained.
  abbrev pub take_steer :
      List (Content Block) × List (Content Block)
      → Agent Block
      → Option (Content Block) × Agent Block
  take_steer ([], queue) agent = (
    none,
    record {
      steering = with_steer queue agent.steering;
      inflight_steer = agent.inflight_steer;
      inflight_follow_up = agent.inflight_follow_up;
    },
  )
  take_steer (entry ∷ entries, queue) agent = (
    some (flatten (entry ∷ entries)),
    record {
      steering = with_steer queue agent.steering;
      inflight_steer = agent.inflight_steer ++ (entry ∷ entries);
      inflight_follow_up = agent.inflight_follow_up;
    },
  )

  unfoldable pub drain_steer : Agent Block → Option (Content Block) × Agent Block
  drain_steer agent = take_steer (drain agent.steering.steer agent.steering.steer_mode) agent

  abbrev pub take_follow_up :
      List (Content Block) × List (Content Block)
      → Agent Block
      → Option (Content Block) × Agent Block
  take_follow_up ([], queue) agent = (
    none,
    record {
      steering = with_follow_up queue agent.steering;
      inflight_steer = agent.inflight_steer;
      inflight_follow_up = agent.inflight_follow_up;
    },
  )
  take_follow_up (entry ∷ entries, queue) agent = (
    some (flatten (entry ∷ entries)),
    record {
      steering = with_follow_up queue agent.steering;
      inflight_steer = agent.inflight_steer;
      inflight_follow_up = agent.inflight_follow_up ++ (entry ∷ entries);
    },
  )

  unfoldable pub drain_follow_up : Agent Block → Option (Content Block) × Agent Block
  drain_follow_up agent =
      take_follow_up (drain agent.steering.follow_up agent.steering.follow_up_mode) agent

  abbrev pub clear_inflight_steering : Agent Block → Agent Block
  clear_inflight_steering agent = record {
    steering = agent.steering;
    inflight_steer = [];
    inflight_follow_up = [];
  }

  unfoldable pub requeue_inflight_steering : Agent Block → Agent Block
  requeue_inflight_steering agent = record {
    steering = record {
      steer = prepend agent.steering.steer agent.inflight_steer;
      follow_up = prepend agent.steering.follow_up agent.inflight_follow_up;
      steer_mode = agent.steering.steer_mode;
      follow_up_mode = agent.steering.follow_up_mode;
    };
    inflight_steer = [];
    inflight_follow_up = [];
  }

  -- The end of `run_queued`, from what the run returned.
  abbrev pub after_run :
      {E M : Type 0} → Result M (RunError E) × Agent Block → Result M (RunError E) × Agent Block
  after_run (ok message, agent) = (ok message, agent)
  after_run (err e, agent) = (err e, requeue_inflight_steering agent)

  abbrev pub run_drained :
      {E M : Type 0}
      → (Content Block → Agent Block → Result M (RunError E) × Agent Block)
      → Option (Content Block) × Agent Block
      → Result M (RunError E) × Agent Block
  run_drained run (none, agent) = (err no_queued_input, agent)
  run_drained run (some content, agent) = after_run (run content agent)

  -- `run` is the agent's run on the content.
  unfoldable pub run_queued :
      {E M : Type 0}
      → (Content Block → Agent Block → Result M (RunError E) × Agent Block)
      → Agent Block
      → Result M (RunError E) × Agent Block
  run_queued run agent = run_drained run (drain_steer agent)
