-- ===== src/Tasks/Board.antt =====
-- The operations of the task tools (`execute_with_store` of mentra/src/runtime/task.rs, with
-- task/input.rs and task/store.rs), on the tasks of one namespace.
use mentra.Base.{
  ℕ, ◌+◌, List, [], ◌∷◌, ◌++◌, Option, none, some, Bool, false, not, ◌&&◌, max, if◌then◌else◌,
  is_empty,
}
use mentra.Base.Text.{Text, trim}
use mentra.Base.Results.{Result, ok, err, for_each, ◌>>=◌, ◌>>◌}
use mentra.Tasks.Types.{
  TaskItem, pending, TaskError, already_owned, blocked_claim, unclaimable, empty_subject,
  only_named_can_claim, no_ready_task, TaskAccess, lead, lead_claimant, teammate, TaskCreateInput,
  TaskUpdateInput, status_eq,
}
use mentra.Tasks.Graph.{find_task, write, add_dependency, remove_dependency}

abbrev pub non_empty : Text → Option Text
non_empty [] = none
non_empty (c ∷ s) = some (c ∷ s)

unfoldable pub normalize_optional_path : Option Text → Option Text
normalize_optional_path none = none
normalize_optional_path (some value) = non_empty (trim value)

unfoldable pub parse_task_create_input : TaskCreateInput → Result TaskCreateInput TaskError
parse_task_create_input parsed =
    if is_empty (trim parsed.subject)
    then err empty_subject
    else ok (record parsed { working_directory = normalize_optional_path parsed.working_directory })

abbrev pub subject_is_empty : Option Text → Bool
subject_is_empty none = false
subject_is_empty (some subject) = is_empty (trim subject)

abbrev pub map_option {ℓ} : {A : Type ℓ} → (A → A) → Option A → Option A
map_option f none = none
map_option f (some a) = some (f a)

unfoldable pub parse_task_update_input : TaskUpdateInput → Result TaskUpdateInput TaskError
parse_task_update_input parsed =
    if subject_is_empty parsed.subject
    then err empty_subject
    else ok (record parsed {
      working_directory = map_option normalize_optional_path parsed.working_directory;
    })

-- The largest id, or 0.
unfoldable pub max_id : List TaskItem → ℕ
max_id [] = 0
max_id (t ∷ ts) = max t.id (max_id ts)

-- `add_dependency(tasks, blocker, task_id)` for each of the blockers, in order; then the others.
abbrev pub add_blockers : ℕ → List ℕ → List TaskItem → Result (List TaskItem) TaskError
add_blockers task_id = for_each (λ blocker tasks. add_dependency tasks blocker task_id)

abbrev pub remove_blockers : ℕ → List ℕ → List TaskItem → Result (List TaskItem) TaskError
remove_blockers task_id = for_each (λ blocker tasks. remove_dependency tasks blocker task_id)

abbrev pub add_dependents : ℕ → List ℕ → List TaskItem → Result (List TaskItem) TaskError
add_dependents task_id = for_each (λ dependent tasks. add_dependency tasks task_id dependent)

abbrev pub remove_dependents : ℕ → List ℕ → List TaskItem → Result (List TaskItem) TaskError
remove_dependents task_id = for_each (λ dependent tasks. remove_dependency tasks task_id dependent)

abbrev pub new_task : ℕ → TaskCreateInput → TaskItem
new_task id parsed = record {
  id = id;
  subject = trim parsed.subject;
  description = parsed.description;
  status = pending;
  blocked_by = [];
  blocks = [];
  owner = parsed.owner;
  working_directory = parsed.working_directory;
}

unfoldable pub create :
    TaskCreateInput → List TaskItem → Result (List TaskItem × TaskItem) TaskError
create input tasks = do
  parsed ← parse_task_create_input input
  let task_id = max_id tasks + 1
  tasks' ← add_blockers task_id parsed.blocked_by (tasks ++ new_task task_id parsed ∷ [])
  task ← find_task tasks' task_id
  ok (tasks', task)

unfoldable pub validate_claimable : TaskItem → Text → Result (Unit {0}) TaskError
validate_claimable t owner =
    if not (is_empty t.owner)
    then err (already_owned t.id t.owner)
    else (if not (is_empty t.blocked_by)
        then err (blocked_claim t.id t.blocked_by)
        else (if not (status_eq t.status pending)
            then err (unclaimable t.id t.status owner)
            else ok tt))

unfoldable pub is_claimable : TaskItem → Bool
is_claimable t = status_eq t.status pending && is_empty t.blocked_by && is_empty t.owner

abbrev pub actor_name : TaskAccess → Option Text
actor_name lead = none
actor_name (lead_claimant name) = some name
actor_name (teammate name) = some name

-- The trimmed name of the actor, unless it is blank.
abbrev pub claimant : Option Text → Result Text TaskError
claimant none = err only_named_can_claim
claimant (some name) = if is_empty (trim name) then err only_named_can_claim else ok (trim name)

abbrev pub own : Text → TaskItem → TaskItem
own owner t = record t { owner = owner }

-- `iter_mut().find(is_claimable)` and the write to what it finds.
unfoldable pub claim_first : Text → List TaskItem → Result (List TaskItem × TaskItem) TaskError
claim_first owner [] = err no_ready_task
claim_first owner (t ∷ ts) =
    if is_claimable t
    then ok (own owner t ∷ ts, own owner t)
    else claim_first owner ts >>= λ r. ok (t ∷ r.0, r.1)

abbrev pub claim_by : Text → Option ℕ → List TaskItem → Result (List TaskItem × TaskItem) TaskError
claim_by owner none tasks = claim_first owner tasks
claim_by owner (some task_id) tasks = do
  task ← find_task tasks task_id
  validate_claimable task owner
  ok (write tasks task_id (own owner), own owner task)

unfoldable pub claim :
    TaskAccess → Option ℕ → List TaskItem → Result (List TaskItem × TaskItem) TaskError
claim access task_id tasks = do owner ← claimant (actor_name access); claim_by owner task_id tasks
