-- ===== src/Steering/Run.antt =====
-- The part of `Agent::run` that concerns the queues, in mentra/src/agent/lifecycle.rs: what becomes
-- of the entries in flight at each of its ends. The turn itself and the calls on memory and the
-- store are a parameter: how they went is a value of `Course`.
use mentra.Base.{Option, none, some, List}
use mentra.Base.Results.{Result, ok, err}
use mentra.Steering.Queue.{
  Content, Agent, RunError, run_failed, empty_assistant_response, clear_inflight_steering,
  requeue_inflight_steering,
}
use mentra.Steering.Kept.{Act, act_all}

-- How a run went, with the acts on the queues meanwhile: an error before the turn starts; a failed
-- turn, with the error that its rollback returns; a turn that ended and whose finalization failed;
-- a turn that was finalized, with the last message if it is the assistant's.
pub data Course (Block E M : Type 0) : Type 0 where
  refused : List (Act Block) → E → Course Block E M
  turn_failed : List (Act Block) → E → Course Block E M
  finalization_failed : List (Act Block) → E → Course Block E M
  finished : List (Act Block) → Option M → Course Block E M

-- `final_message.ok_or(EmptyAssistantResponse)`.
abbrev pub final_message : {E M : Type 0} → Option M → Result M (RunError E)
final_message none = err empty_assistant_response
final_message (some message) = ok message

module _ {Block E M : Type 0} where
  abbrev pub acts_of : Course Block E M → List (Act Block)
  acts_of (Course.refused acts e) = acts
  acts_of (Course.turn_failed acts e) = acts
  acts_of (Course.finalization_failed acts e) = acts
  acts_of (Course.finished acts last) = acts

  unfoldable pub drive_run : Course Block E M → Agent Block → Result M (RunError E) × Agent Block
  drive_run (Course.refused acts e) agent = (err (run_failed e), act_all acts agent)
  drive_run (Course.turn_failed acts e) agent =
      (err (run_failed e), requeue_inflight_steering (act_all acts agent))
  drive_run (Course.finalization_failed acts e) agent =
      (err (run_failed e), requeue_inflight_steering (act_all acts agent))
  drive_run (Course.finished acts last) agent =
      (final_message last, clear_inflight_steering (act_all acts agent))

  -- `Agent::run`, which opens with the message.
  abbrev pub run :
      (Content Block → Course Block E M)
      → Content Block
      → Agent Block
      → Result M (RunError E) × Agent Block
  run course content agent = drive_run (course content) agent
