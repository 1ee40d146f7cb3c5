-- ===== src/Tasks/Types.antt =====
-- The data of the task board (mentra/src/runtime/task/types.rs, task.rs and input.rs). A `Value` is
-- taken as parsed: the inputs below are what `serde_json` hands over.
use mentra.Base.{ℕ, Option, List, Bool, true, false}
use mentra.Base.Text.{Text}

pub data TaskStatus : Type 0 where
  pending in_progress completed : TaskStatus

pub record TaskItem : Type 0 where
  pub id : ℕ
  pub subject : Text
  pub description : Text
  pub status : TaskStatus
  pub blocked_by : List ℕ
  pub blocks : List ℕ
  pub owner : Text
  pub working_directory : Option Text

-- The refusals, one constructor for each message, with the values that the message shows.
pub data TaskError : Type 0 where
  does_not_exist : ℕ → TaskError
  depends_on_itself : TaskError
  would_create_cycle : ℕ → ℕ → TaskError
  unresolved_blockers : ℕ → TaskStatus → TaskError
  blocked : ℕ → TaskStatus → List ℕ → TaskError
  already_owned : ℕ → Text → TaskError
  blocked_claim : ℕ → List ℕ → TaskError
  unclaimable : ℕ → TaskStatus → Text → TaskError
  cannot_edit_dependencies : Text → ℕ → TaskError
  cannot_reassign : Text → ℕ → Text → TaskError
  cannot_update : Text → ℕ → Text → TaskError
  empty_subject : TaskError
  only_named_can_claim : TaskError
  no_ready_task : TaskError

pub data TaskAccess : Type 0 where
  lead : TaskAccess
  lead_claimant : Text → TaskAccess
  teammate : Text → TaskAccess

pub record TaskCreateInput : Type 0 where
  pub subject : Text
  pub description : Text
  pub owner : Text
  pub working_directory : Option Text
  pub blocked_by : List ℕ

pub record TaskUpdateInput : Type 0 where
  pub task_id : ℕ
  pub subject : Option Text
  pub description : Option Text
  pub owner : Option Text
  pub working_directory : Option (Option Text)
  pub status : Option TaskStatus
  pub add_blocked_by : List ℕ
  pub remove_blocked_by : List ℕ
  pub add_blocks : List ℕ
  pub remove_blocks : List ℕ

-- `==` of the derived `PartialEq`.
abbrev pub status_eq : TaskStatus → TaskStatus → Bool
status_eq pending pending = true
status_eq in_progress in_progress = true
status_eq completed completed = true
status_eq _ _ = false
