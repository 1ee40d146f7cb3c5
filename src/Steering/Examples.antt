-- ===== src/Steering/Examples.antt =====
-- The queues at concrete inputs: a test, and the witnesses of their theorems.
use mentra.Base.{ℕ, ◌≡◌, refl, none, some, List, [], ◌∷◌, ◌++◌}
use mentra.Base.Results.{err}
use mentra.Steering.Queue.{
  QueueMode, Content, Agent, drain_steer, drain, flatten, run_queued, empty_assistant_response,
  requeue_inflight_steering, push_all_front, drain_follow_up, steer,
}
use mentra.Steering.Kept.{
  NoClear, act, Act, act_all, steered, followed_up, steers_due, follow_ups_due, act_all-due,
  act_all-cleared,
}
use mentra.Steering.InFlight.{opening}
use mentra.Steering.Run.{Course, drive_run, run}
use mentra.Steering.Restored.{Ended, run_queued-Ended}

-- Two steers and a follow-up wait.
abbrev busy : Agent ℕ
busy = record {
  steering = record {
    steer = (1 ∷ []) ∷ (2 ∷ 3 ∷ []) ∷ [];
    follow_up = (9 ∷ []) ∷ [];
    steer_mode = QueueMode.one_at_a_time;
    follow_up_mode = QueueMode.all;
  };
  inflight_steer = [];
  inflight_follow_up = [];
}

abbrev acts : Content ℕ → List (Act ℕ)
acts content =
    Act.steers content
    ∷ Act.steers []
    ∷ Act.sets_steer_mode QueueMode.all
    ∷ Act.drains_steer
    ∷ Act.drains_follow_up
    ∷ []

one_drained : (drain_steer busy).0 ≡ some (1 ∷ [])
unfolding drain_steer drain flatten
one_drained = refl

acts-NoClear : (content : Content ℕ) → NoClear (acts content)
unfolding NoClear
acts-NoClear content = (refl, (refl, (refl, (refl, (refl, tt)))))

act_all-due_example :
    (steers_due (act_all (acts (7 ∷ [])) busy) ≡ steers_due busy ++ steered (acts (7 ∷ [])))
    × (follow_ups_due (act_all (acts (7 ∷ [])) busy)
        ≡ follow_ups_due busy ++ followed_up (acts (7 ∷ [])))
act_all-due_example = act_all-due (acts (7 ∷ [])) busy (acts-NoClear (7 ∷ []))

act_all-cleared_example :
    ((steers_due (act_all (acts (7 ∷ []) ++ (Act.clears_steer ∷ acts (8 ∷ []))) busy)
        ≡ (act_all (acts (7 ∷ [])) busy).inflight_steer ++ steered (acts (8 ∷ [])))
      × (follow_ups_due (act_all (acts (7 ∷ []) ++ (Act.clears_steer ∷ acts (8 ∷ []))) busy)
          ≡ follow_ups_due (act_all (acts (7 ∷ []) ++ acts (8 ∷ [])) busy)))
    × ((follow_ups_due (act_all (acts (7 ∷ []) ++ (Act.clears_follow_up ∷ acts (8 ∷ []))) busy)
          ≡ (act_all (acts (7 ∷ [])) busy).inflight_follow_up ++ followed_up (acts (8 ∷ [])))
        × (steers_due (act_all (acts (7 ∷ []) ++ (Act.clears_follow_up ∷ acts (8 ∷ []))) busy)
            ≡ steers_due (act_all (acts (7 ∷ []) ++ acts (8 ∷ [])) busy)))
act_all-cleared_example =
    act_all-cleared (acts (7 ∷ [])) (acts (8 ∷ [])) busy (acts-NoClear (8 ∷ []))

-- The turn is finalized and the assistant sent no message.
abbrev silent : Content ℕ → Course ℕ ℕ ℕ
silent content = Course.finished (acts content) none

-- The steer that started the run is not queued any more, although `run_queued` returns an error.
silent_loses :
    ((run_queued (run silent) busy).0 ≡ err empty_assistant_response)
    × ((run_queued (run silent) busy).1.steering.steer ≡ [])
unfolding run_queued drain_steer drain flatten drive_run requeue_inflight_steering push_all_front
    act_all act drain_follow_up steer
silent_loses = (refl, refl)

run_queued-Ended_example :
    Ended
      (opening busy)
      (drain_steer busy).1
      (silent (flatten (opening busy)))
      busy
      (run_queued (run silent) busy)
unfolding flatten drain
run_queued-Ended_example = run_queued-Ended silent busy (refl, refl) refl (acts-NoClear (1 ∷ []))
