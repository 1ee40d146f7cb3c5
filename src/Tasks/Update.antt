-- ===== src/Tasks/Update.antt =====
-- The `task_update`, `task_get` and `task_list` tools, and the store that runs an operation
-- (mentra/src/runtime/task.rs, task/store.rs and volatile_store/task.rs).
use mentra.Base.{
  ℕ, List, [], ◌∷◌, Option, none, some, Bool, false, not, ◌||◌, leb, if◌then◌else◌, is_empty,
  retain,
}
use mentra.Base.Text.{Text, text_eq, trim}
use mentra.Base.Results.{Result, ok, err, ◌>>=◌, ◌>>◌}
use mentra.Tasks.Types.{
  TaskItem, TaskStatus, pending, in_progress, completed, TaskError, cannot_edit_dependencies,
  cannot_reassign, cannot_update, TaskAccess, lead, lead_claimant, teammate, TaskUpdateInput,
  status_eq,
}
use mentra.Tasks.Graph.{find_task, write, validate_unblocked_status}
use mentra.Tasks.Status.{Changed, apply_status_change}
use mentra.Tasks.Board.{
  parse_task_update_input, add_blockers, remove_blockers, add_dependents, remove_dependents,
}

abbrev pub updates_dependencies : TaskUpdateInput → Bool
updates_dependencies input =
    not (is_empty input.add_blocked_by)
    || not (is_empty input.remove_blocked_by)
    || not (is_empty input.add_blocks)
    || not (is_empty input.remove_blocks)

-- `if let Some(owner) = &input.owner && owner != name`.
abbrev pub reassigns : Option Text → Text → Bool
reassigns none name = false
reassigns (some owner) name = not (text_eq owner name)

abbrev pub or_empty : Option Text → Text
or_empty none = []
or_empty (some owner) = owner

unfoldable pub validate_update_access :
    TaskItem → TaskUpdateInput → TaskAccess → Result (Unit {0}) TaskError
validate_update_access t input lead = ok tt
validate_update_access t input (lead_claimant name) = ok tt
validate_update_access t input (teammate name) =
    if text_eq t.owner name
    then (if updates_dependencies input
        then err (cannot_edit_dependencies name t.id)
        else (if reassigns input.owner name
            then err (cannot_reassign name t.id (or_empty input.owner))
            else ok tt))
    else err (cannot_update name t.id t.owner)

abbrev pub given {ℓ} : {A : Type ℓ} → Option A → A → A
given none old = old
given (some new) old = new

-- `subject.trim()`, if a subject is given.
abbrev pub given_subject : Option Text → Text → Text
given_subject none old = old
given_subject (some subject) old = trim subject

-- The four fields that are plain writes.
abbrev pub edit : TaskUpdateInput → TaskItem → TaskItem
edit input t = record t {
  subject = given_subject input.subject t.subject;
  description = given input.description t.description;
  owner = given input.owner t.owner;
  working_directory = given input.working_directory t.working_directory;
}

-- The status part: a change if a status is given, else the check of the current one.
abbrev pub settle_status :
    List TaskItem → ℕ → TaskStatus → Option TaskStatus → Result Changed TaskError
settle_status tasks task_id original_status (some status) =
    apply_status_change tasks task_id original_status status
settle_status tasks task_id original_status none = do
  task ← find_task tasks task_id
  validate_unblocked_status task
  ok (record { tasks = tasks; unblocked = []; reblocked = [] })

-- A stable sort by id: `sort_by_key`.
insert_by_id : TaskItem → List TaskItem → List TaskItem
insert_by_id t [] = t ∷ []
insert_by_id t (u ∷ us) = if leb t.id u.id then t ∷ u ∷ us else u ∷ insert_by_id t us

unfoldable pub sort_tasks : List TaskItem → List TaskItem
unfolding insert_by_id
sort_tasks [] = []
sort_tasks (t ∷ ts) = insert_by_id t (sort_tasks ts)

pub record TaskUpdateOutput : Type 0 where
  pub task : TaskItem
  pub unblocked : List TaskItem
  pub reblocked : List TaskItem

-- The edits of the graph, in the order of the source.
unfoldable pub edit_dependencies :
    TaskUpdateInput → List TaskItem → Result (List TaskItem) TaskError
edit_dependencies input tasks = do
  t1 ← add_blockers input.task_id input.add_blocked_by tasks
  t2 ← remove_blockers input.task_id input.remove_blocked_by t1
  t3 ← add_dependents input.task_id input.add_blocks t2
  remove_dependents input.task_id input.remove_blocks t3

unfoldable pub update :
    TaskAccess
    → TaskUpdateInput
    → List TaskItem
    → Result (List TaskItem × TaskUpdateOutput) TaskError
update access input tasks = do
  parsed ← parse_task_update_input input
  original ← find_task tasks parsed.task_id
  validate_update_access original parsed access
  linked ← edit_dependencies parsed (write tasks parsed.task_id (edit parsed))
  changed ← settle_status linked parsed.task_id original.status parsed.status
  task ← find_task changed.tasks parsed.task_id
  ok (
    changed.tasks,
    record {
      task = task;
      unblocked = sort_tasks changed.unblocked;
      reblocked = sort_tasks changed.reblocked;
    },
  )

pub record TaskListOutput : Type 0 where
  pub tasks : List TaskItem
  pub ready : List TaskItem
  pub blocked : List TaskItem
  pub in_progress : List TaskItem
  pub completed : List TaskItem

abbrev pub is_ready : TaskItem → Bool
is_ready t = elim t.status [ pending ↦ is_empty t.blocked_by | _ ↦ false ]

abbrev pub is_blocked : TaskItem → Bool
is_blocked t = elim t.status [ pending ↦ not (is_empty t.blocked_by) | _ ↦ false ]

unfoldable pub list_tasks : List TaskItem → TaskListOutput
list_tasks tasks = record {
  tasks = tasks;
  ready = retain is_ready tasks;
  blocked = retain is_blocked tasks;
  in_progress = retain (λ t. status_eq t.status in_progress) tasks;
  completed = retain (λ t. status_eq t.status completed) tasks;
}

-- The tasks of each namespace; a later entry of a namespace replaces an earlier one.
abbrev pub TaskState : Type 0
TaskState = List (Text × List TaskItem)

unfoldable pub load_tasks : TaskState → Text → List TaskItem
load_tasks [] namespace = []
load_tasks ((key, tasks) ∷ rest) namespace =
    if text_eq key namespace then tasks else load_tasks rest namespace

unfoldable pub replace_tasks : TaskState → Text → List TaskItem → TaskState
replace_tasks [] namespace tasks = (namespace, tasks) ∷ []
replace_tasks ((key, old) ∷ rest) namespace tasks =
    if text_eq key namespace
    then (key, tasks) ∷ rest
    else (key, old) ∷ replace_tasks rest namespace tasks

-- What a mutation leaves of the tasks that it was lent, and what it returns. The tasks may have
-- been written to before a refusal.
abbrev pub Mutation {ℓ} : Type ℓ → Type ℓ
Mutation A = List TaskItem → Result A TaskError × List TaskItem

abbrev pub installed {ℓ} :
    {A : Type ℓ}
    → TaskState
    → Text
    → Result A TaskError × List TaskItem
    → TaskState × Result A TaskError
installed state namespace (ok output, tasks) = (replace_tasks state namespace tasks, ok output)
installed state namespace (err e, tasks) = (state, err e)

-- `mutate` of the volatile store: the mutation runs on a copy, which is installed only if it
-- succeeds.
unfoldable pub mutate {ℓ} :
    {A : Type ℓ} → Mutation A → Text → TaskState → TaskState × Result A TaskError
mutate mutation namespace state = installed state namespace (mutation (load_tasks state namespace))

-- A tool as a mutation; `left_over` is what stands in the lent tasks after a refusal.
abbrev pub as_mutation {ℓ} :
    {A : Type ℓ}
    → (List TaskItem → List TaskItem)
    → (List TaskItem → Result (List TaskItem × A) TaskError)
    → Mutation A
as_mutation left_over operation tasks = elim (operation tasks) [
  | ok done ↦ (ok done.1, done.0)
  | err e ↦ (err e, left_over tasks)
]
