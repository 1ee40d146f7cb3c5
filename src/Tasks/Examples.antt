-- ===== src/Tasks/Examples.antt =====
-- The task board at concrete inputs: tests, and each theorem where its conditions hold.
use Prim.Native.String.{String}
use mentra.Base.{ℕ, ◌≡◌, ◌↔◌, refl, subst, none, some, List, [], ◌∷◌, ◌++◌, true, false, arith}
use mentra.Base.Text.{Text, codes, text_eq, trim}
use mentra.Base.Results.{ok, err}
use mentra.Tasks.Types.{
  TaskItem, TaskStatus, pending, completed, TaskError, lead, TaskCreateInput, TaskUpdateInput,
}
use mentra.Tasks.Ids.{contains, insert_id, insert_sorted, sort_and_dedup_ids, remove_id}
use mentra.Tasks.Graph.{
  task_at, path_exists, add_dependency, find_task, search_path, last_task, push_all, edge_count,
  block_dependent, validate_unblocked_status,
}
use mentra.Tasks.Status.{
  Changed, set_status, apply_status_change, complete, resume, unblock, reblock,
}
use mentra.Tasks.Board.{
  create, parse_task_create_input, parse_task_update_input, max_id, normalize_optional_path,
}
use mentra.Tasks.Update.{
  load_tasks, replace_tasks, mutate, update, edit_dependencies, validate_update_access, sort_tasks,
}
use mentra.Tasks.Lookup.{Reach}
use mentra.Tasks.Search.{path_exists_iff}
use mentra.Tasks.WellFormed.{WellFormed}
use mentra.Tasks.Cycles.{add_dependency-cycle_iff}
use mentra.Tasks.Store.{Call, creates, updates, serve, serve_all, serve_all-WellFormed, LeftOvers}
use mentra.Tasks.Complete.{complete_frees, complete_ignores_blockers}

abbrev named : String → List ℕ → TaskCreateInput
named subject blockers = record {
  subject = codes subject;
  description = [];
  owner = [];
  working_directory = none;
  blocked_by = blockers;
}

abbrev board : Text
board = codes "board"

abbrev to_status : ℕ → TaskStatus → TaskUpdateInput
to_status id status = record {
  task_id = id;
  subject = none;
  description = none;
  owner = none;
  working_directory = none;
  status = some status;
  add_blocked_by = [];
  remove_blocked_by = [];
  add_blocks = [];
  remove_blocks = [];
}

-- The second task waits for the first.
abbrev plan : List Call
plan = creates board (named " design " []) ∷ creates board (named "build" (1 ∷ [])) ∷ []

abbrev design : TaskItem
design = record {
  id = 1;
  subject = codes "design";
  description = [];
  status = pending;
  blocked_by = [];
  blocks = 2 ∷ [];
  owner = [];
  working_directory = none;
}

abbrev build : TaskItem
build = record {
  id = 2;
  subject = codes "build";
  description = [];
  status = pending;
  blocked_by = 1 ∷ [];
  blocks = [];
  owner = [];
  working_directory = none;
}

-- A refused call has removed every task that it was lent.
abbrev wipes : LeftOvers
wipes c tasks = []

-- What a test of a whole history computes with.
abbrev after : List Call → List TaskItem
unfolding serve_all serve mutate load_tasks replace_tasks create parse_task_create_input trim
    text_eq max_id add_dependency find_task path_exists search_path last_task push_all edge_count
    block_dependent insert_id insert_sorted sort_and_dedup_ids update parse_task_update_input
    edit_dependencies apply_status_change complete resume unblock reblock remove_id
    validate_unblocked_status validate_update_access sort_tasks normalize_optional_path
after calls = load_tasks (serve_all wipes calls []) board

planned : after plan ≡ design ∷ build ∷ []
unfolding after
planned = refl

-- The second task is completed while it waits for the first, and keeps it listed.
early :
    after (plan ++ updates board lead (to_status 2 completed) ∷ [])
    ≡ design ∷ record build { status = completed } ∷ []
unfolding after
early = refl

-- Both are completed, the first is reopened and then the second: the second does not wait for it.
abbrev reopenings : List Call
reopenings =
    updates board lead (to_status 1 completed)
    ∷ updates board lead (to_status 2 completed)
    ∷ updates board lead (to_status 1 pending)
    ∷ updates board lead (to_status 2 pending)
    ∷ []

reopened : after (plan ++ reopenings) ≡ design ∷ record build { blocked_by = [] } ∷ []
unfolding after
reopened = refl

serve_all-WellFormed_example :
    WellFormed (load_tasks (serve_all wipes (plan ++ reopenings) []) board)
serve_all-WellFormed_example = serve_all-WellFormed wipes (plan ++ reopenings) board

planned-WellFormed : WellFormed (design ∷ build ∷ [])
unfolding after load_tasks
planned-WellFormed = subst WellFormed planned (serve_all-WellFormed wipes plan board)

path_exists_iff_example :
    (path_exists (design ∷ build ∷ []) 1 2 ≡ true) ↔ Reach (design ∷ build ∷ []) 2 1
path_exists_iff_example = path_exists_iff (design ∷ build ∷ []) 1 2 (refl, (refl, tt))

add_dependency-cycle_iff_example :
    (add_dependency (design ∷ build ∷ []) 2 1 ≡ err (TaskError.would_create_cycle 2 1))
    ↔ Reach (design ∷ build ∷ []) 2 1
add_dependency-cycle_iff_example =
    add_dependency-cycle_iff (design ∷ build ∷ []) 2 1 build design planned-WellFormed (omega arith)
      refl refl

abbrev finished : Changed
finished = record {
  tasks = record design { status = completed } ∷ record build { blocked_by = [] } ∷ [];
  unblocked = record build { blocked_by = [] } ∷ [];
  reblocked = [];
}

finishes : apply_status_change (design ∷ build ∷ []) 1 pending completed ≡ ok finished
unfolding after
finishes = refl

complete_frees_example : contains [] 1 ≡ false
complete_frees_example =
    complete_frees (design ∷ build ∷ []) 1 pending finished planned-WellFormed (λ e. cc) finishes 2
      (record build { blocked_by = [] }) refl (λ e. cc)

complete_ignores_blockers_example :
    (c : Changed) × (apply_status_change (design ∷ build ∷ []) 2 pending completed ≡ ok c)
    × (task_at c.tasks 2 ≡ some (set_status completed build))
complete_ignores_blockers_example =
    complete_ignores_blockers (design ∷ build ∷ []) 2 build planned-WellFormed refl refl
