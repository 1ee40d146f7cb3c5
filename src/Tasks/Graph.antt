-- ===== src/Tasks/Graph.antt =====
-- The dependency graph of the tasks (mentra/src/runtime/task/graph.rs). A function that takes
-- `&mut [TaskItem]` returns the new tasks.
use mentra.Base.{
  ℕ, zero, suc, ◌+◌, List, [], ◌∷◌, Option, none, some, Bool, true, false, not, ◌&&◌, ◌==◌,
  if◌then◌else◌, find, any, is_empty, length,
}
use mentra.Base.Results.{Result, ok, err, ok_or, ◌>>=◌}
use mentra.Tasks.Types.{
  TaskItem, TaskStatus, pending, completed, TaskError, does_not_exist, depends_on_itself,
  would_create_cycle, unresolved_blockers, blocked, status_eq,
}
use mentra.Tasks.Ids.{contains, insert_id, remove_id}

unfoldable pub has_unfinished_tasks : List TaskItem → Bool
has_unfinished_tasks tasks = any (λ t. not (status_eq t.status completed)) tasks

-- The first task with the id.
abbrev pub task_at : List TaskItem → ℕ → Option TaskItem
task_at tasks id = find (λ t. t.id == id) tasks

unfoldable pub find_task : List TaskItem → ℕ → Result TaskItem TaskError
find_task tasks id = ok_or (task_at tasks id) (does_not_exist id)

-- What is written through `find_task_mut`: the first task with the id changes.
abbrev pub write : List TaskItem → ℕ → (TaskItem → TaskItem) → List TaskItem
write [] id f = []
write (t ∷ ts) id f = if t.id == id then f t ∷ ts else t ∷ write ts id f

unfoldable pub validate_unblocked_status : TaskItem → Result (Unit {0}) TaskError
validate_unblocked_status t =
    if not (status_eq t.status pending) && not (is_empty t.blocked_by)
    then err (blocked t.id t.status t.blocked_by)
    else ok tt

-- `tasks_by_id`: a later task replaces an earlier one with its id.
unfoldable pub last_task : List TaskItem → ℕ → Option TaskItem
last_task [] id = none
last_task (t ∷ ts) id = elim (last_task ts id) [
  | some u ↦ some u
  | none ↦ if t.id == id then some t else none
]

-- The loop over `task.blocks`: `none` when it meets the goal, else the grown stack.
unfoldable pub push_all : ℕ → List ℕ → List ℕ → Option (List ℕ)
push_all goal [] stack = some stack
push_all goal (next ∷ nexts) stack =
    let rest = push_all goal nexts (next ∷ stack) in if next == goal then none else rest

-- The `while` loop of `path_exists`: `none` when the fuel ran out.
unfoldable pub search_path : List TaskItem → ℕ → ℕ → List ℕ → List ℕ → Option Bool
search_path tasks goal zero visited stack = none
search_path tasks goal (suc fuel) visited [] = some false
search_path tasks goal (suc fuel) visited (id ∷ stack) = elim (contains visited id) [
  | true ↦ search_path tasks goal fuel visited stack
  | false ↦ elim (last_task tasks id) [
    | none ↦ search_path tasks goal fuel (id ∷ visited) stack
    | some t ↦ elim (push_all goal t.blocks stack) [
      | none ↦ some true
      | some stack' ↦ search_path tasks goal fuel (id ∷ visited) stack'
    ]
  ]
]

-- Each round takes one entry off the stack, and each edge puts at most one there.
unfoldable pub edge_count : List TaskItem → ℕ
edge_count [] = 0
edge_count (t ∷ ts) = length t.blocks + edge_count ts

unfoldable pub path_exists : List TaskItem → ℕ → ℕ → Bool
path_exists tasks start goal =
    if start == goal
    then true
    else elim (search_path tasks goal (edge_count tasks + 2) [] (start ∷ [])) [
      | some found ↦ found
      | none ↦ false
    ]

-- The second half of `add_dependency`: the dependent lists an unfinished blocker.
unfoldable pub block_dependent :
    List TaskItem → ℕ → ℕ → TaskStatus → TaskStatus → Result (List TaskItem) TaskError
block_dependent tasks blocker_id dependent_id blocker_status dependent_status =
    if status_eq blocker_status completed
    then ok tasks
    else (if status_eq dependent_status pending
        then ok (
            write tasks dependent_id
              (λ t. record t { blocked_by = (insert_id t.blocked_by blocker_id).0 }))
        else err (unresolved_blockers dependent_id dependent_status))

unfoldable pub add_dependency : List TaskItem → ℕ → ℕ → Result (List TaskItem) TaskError
add_dependency tasks blocker_id dependent_id =
    if blocker_id == dependent_id then err depends_on_itself else (do
      blocker ← find_task tasks blocker_id
      dependent ← find_task tasks dependent_id
      (if not (contains blocker.blocks dependent_id) && path_exists tasks dependent_id blocker_id
          then err (would_create_cycle blocker_id dependent_id)
          else block_dependent
              (write tasks blocker_id
                (λ t. record t { blocks = (insert_id t.blocks dependent_id).0 }))
              blocker_id dependent_id blocker.status dependent.status))

unfoldable pub remove_dependency : List TaskItem → ℕ → ℕ → Result (List TaskItem) TaskError
remove_dependency tasks blocker_id dependent_id = do
  blocker ← find_task tasks blocker_id
  dependent ← find_task tasks dependent_id
  ok (
      write
        (write tasks blocker_id (λ t. record t { blocks = (remove_id t.blocks dependent_id).0 }))
        dependent_id (λ t. record t { blocked_by = (remove_id t.blocked_by blocker_id).0 }))
