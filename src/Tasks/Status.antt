-- ===== src/Tasks/Status.antt =====
-- Status changes and what they do to the dependents: `apply_status_change`
-- (mentra/src/runtime/task/graph.rs).
use mentra.Base.{ℕ, List, [], ◌∷◌, ◌++◌, ◌&&◌, if◌then◌else◌, is_empty}
use mentra.Base.Results.{Result, ok, for_each, ◌>>=◌, ◌>>◌}
use mentra.Tasks.Types.{TaskItem, TaskStatus, completed, TaskError, status_eq}
use mentra.Tasks.Ids.{insert_id, remove_id}
use mentra.Tasks.Graph.{find_task, write, validate_unblocked_status}

-- The tasks, and the list of tasks to report (`unblocked` or `reblocked`).
abbrev pub Reported : Type 0
Reported = List TaskItem × List TaskItem

-- The body of the loop over the dependents of a completed task.
unfoldable pub unblock : ℕ → ℕ → Reported → Result Reported TaskError
unblock task_id dependent_id (tasks, unblocked) = do
  dependent ← find_task tasks dependent_id
  (if status_eq dependent.status completed
      then ok (tasks, unblocked)
      else (let (left, had_blocker) = remove_id dependent.blocked_by task_id in
          ok (
            write tasks dependent_id
                (λ t. record t { blocked_by = (remove_id t.blocked_by task_id).0 }),
            if had_blocker && is_empty left
                then unblocked ++ record dependent { blocked_by = left } ∷ []
                else unblocked,
          )))

-- The body of the loop over the dependents of a reopened task.
unfoldable pub reblock : ℕ → ℕ → Reported → Result Reported TaskError
reblock task_id dependent_id (tasks, reblocked) = do
  dependent ← find_task tasks dependent_id
  (if status_eq dependent.status completed
      then ok (tasks, reblocked)
      else (let (grown, inserted) = insert_id dependent.blocked_by task_id in
          ok (
            write tasks dependent_id
                (λ t. record t { blocked_by = (insert_id t.blocked_by task_id).0 }),
            if inserted
                then reblocked ++ record dependent { blocked_by = grown } ∷ []
                else reblocked,
          )))

abbrev pub set_status : TaskStatus → TaskItem → TaskItem
set_status status t = record t { status = status }

-- The tasks, with those that the change unblocked and those that it blocked again.
pub record Changed : Type 0 where
  pub tasks : List TaskItem
  pub unblocked : List TaskItem
  pub reblocked : List TaskItem

unfoldable pub complete : List TaskItem → ℕ → Result Changed TaskError
complete tasks task_id = do
  task ← find_task tasks task_id
  validate_unblocked_status task
  let tasks' = write tasks task_id (set_status completed)
  done ← find_task tasks' task_id
  result ← for_each (unblock task_id) done.blocks (tasks', [])
  ok (record { tasks = result.0; unblocked = result.1; reblocked = [] })

-- `Pending` or `InProgress`.
unfoldable pub resume : List TaskItem → ℕ → TaskStatus → TaskStatus → Result Changed TaskError
resume tasks task_id original_status next_status = do
  task ← find_task tasks task_id
  validate_unblocked_status (set_status next_status task)
  let tasks' = write tasks task_id (set_status next_status)
  (if status_eq original_status completed
      then (do
        done ← find_task tasks' task_id
        result ← for_each (reblock task_id) done.blocks (tasks', [])
        ok (record { tasks = result.0; unblocked = []; reblocked = result.1 }))
      else ok (record { tasks = tasks'; unblocked = []; reblocked = [] }))

abbrev pub change_status : List TaskItem → ℕ → TaskStatus → TaskStatus → Result Changed TaskError
change_status tasks task_id original_status completed = complete tasks task_id
change_status tasks task_id original_status next_status =
    resume tasks task_id original_status next_status

unfoldable pub apply_status_change :
    List TaskItem → ℕ → TaskStatus → TaskStatus → Result Changed TaskError
apply_status_change tasks task_id original_status next_status =
    if status_eq original_status next_status
    then (do
      task ← find_task tasks task_id
      validate_unblocked_status task
      ok (record { tasks = tasks; unblocked = []; reblocked = [] }))
    else change_status tasks task_id original_status next_status
