-- ===== src/Steering/Restored.antt =====
-- What should become of the queues after `run_queued`, for each end of the run that it starts.
use mentra.Base.{◌≡◌, ◌∙◌, refl, ap, none, some, List, [], ◌∷◌, ◌++◌, true}
use mentra.Base.Results.{Result, ok, err}
use mentra.Steering.Queue.{
  Content, Agent, drain, take_steer, drain_steer, has_pending_steer, RunError, run_failed,
  empty_assistant_response, after_run, run_drained, run_queued, flatten,
}
use mentra.Steering.Kept.{
  act_all, steered, followed_up, NoClear, drain-append, take_steer-due, act_all-due,
}
use mentra.Steering.InFlight.{
  drain-empty, Idle, PutBack, Delivered, Due, requeue-PutBack, requeue_twice-PutBack,
  clear-Delivered, requeue_idle-Delivered, opening,
}
use mentra.Steering.Run.{Course, acts_of, drive_run, run}

module _ {Block E M : Type 0} where
  -- What `run_queued` returns and leaves, for a run of this course that started with the entries
  -- `first` from the agent `started`.
  abbrev pub Ended :
      List (Content Block)
      → Agent Block
      → Course Block E M
      → Agent Block
      → Result M (RunError E) × Agent Block
      → Type 0
  Ended first started (Course.refused acts e) before (result, after) =
      (result ≡ err (run_failed e)) × PutBack acts before after
  Ended first started (Course.turn_failed acts e) before (result, after) =
      (result ≡ err (run_failed e)) × PutBack acts before after
  Ended first started (Course.finalization_failed acts e) before (result, after) =
      (result ≡ err (run_failed e)) × PutBack acts before after
  Ended first started (Course.finished acts none) before (result, after) =
      (result ≡ err empty_assistant_response)
      × Delivered first (act_all acts started) acts before after
  Ended first started (Course.finished acts (some message)) before (result, after) =
      (result ≡ ok message) × Delivered first (act_all acts started) acts before after

  after_run-Ended :
      (first : List (Content Block)) (course : Course Block E M) (before started : Agent Block)
      → started.inflight_steer ≡ first
      → Due (acts_of course) before (act_all (acts_of course) started)
      → Ended first started course before (after_run (drive_run course started))
  unfolding drive_run
  after_run-Ended first (Course.refused acts e) before started flying due =
      (refl, requeue-PutBack acts before (act_all acts started) due)
  after_run-Ended first (Course.turn_failed acts e) before started flying due =
      (refl, requeue_twice-PutBack acts before (act_all acts started) due)
  after_run-Ended first (Course.finalization_failed acts e) before started flying due =
      (refl, requeue_twice-PutBack acts before (act_all acts started) due)
  after_run-Ended first (Course.finished acts none) before started flying due = (
    refl,
    requeue_idle-Delivered first acts before (act_all acts started)
        (clear-Delivered first acts before started flying due),
  )
  after_run-Ended first (Course.finished acts (some message)) before started flying due =
      (refl, clear-Delivered first acts before started flying due)

  Ended-take :
      (course : Content Block → Course Block E M) (agent : Agent Block)
      (d : List (Content Block) × List (Content Block))
      → Idle agent
      → d.0 ++ d.1 ≡ agent.steering.steer
      → ¬ (d.0 ≡ [])
      → NoClear (acts_of (course (flatten d.0)))
      → Ended d.0
          (take_steer d agent).1
          (course (flatten d.0))
          agent
          (run_drained (run course) (take_steer d agent))
  Ended-take course agent ([], queue) idle e some_left kept = absurd (some_left refl)
  Ended-take course agent (x ∷ xs, queue) (idle, idle') e some_left kept =
      let content = flatten (x ∷ xs) in
      let started = (take_steer (x ∷ xs, queue) agent).1 in
      let (s, f) = take_steer-due (x ∷ xs, queue) agent e in
      let (s', f') = act_all-due (acts_of (course content)) started kept in
      after_run-Ended (x ∷ xs) (course content) agent started (ap (λ z. z ++ (x ∷ xs)) idle) (
        s'
            ∙ ap (λ z. z ++ steered (acts_of (course content)))
                (s ∙ ap (λ z. z ++ agent.steering.steer) idle),
        f'
            ∙ ap (λ z. z ++ followed_up (acts_of (course content)))
                (f ∙ ap (λ z. z ++ agent.steering.follow_up) idle'),
      )

  -- When `run_queued` starts an idle agent that has a steer queued, and no call clears a queue
  -- during the run, then nothing is in flight at its end. If the run is refused, the turn fails or
  -- its finalization fails, the result is that error, and both queues are what they were, in their
  -- order, followed by what was queued during the run, whatever the run had drained. If the run is
  -- finalized, the entries it started with and all it drained are gone from the front of the
  -- queues, and nothing else is, also where the result is the error that the assistant sent no
  -- message.
  pub run_queued-Ended :
      (course : Content Block → Course Block E M) (agent : Agent Block)
      → Idle agent
      → has_pending_steer agent ≡ true
      → NoClear (acts_of (course (flatten (opening agent))))
      → Ended
          (opening agent)
          (drain_steer agent).1
          (course (flatten (opening agent)))
          agent
          (run_queued (run course) agent)
  unfolding run_queued drain_steer
  run_queued-Ended course agent idle pending kept =
      Ended-take course agent (drain agent.steering.steer agent.steering.steer_mode) idle
        (drain-append agent.steering.steer agent.steering.steer_mode)
        (λ e. cc (drain-empty agent.steering.steer agent.steering.steer_mode e, pending)) kept
