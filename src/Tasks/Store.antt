-- ===== src/Tasks/Store.antt =====
-- The task tools over the store of all namespaces, as a sequence of calls.
use mentra.Base.{ℕ, ◌≡◌, refl, Option, List, [], ◌∷◌, arith, Bool-cases, inl, inr, if◌then◌else◌}
use mentra.Base.Text.{Text, text_eq, text_eq_iff}
use mentra.Base.Results.{Result, ok, err, Ensures}
use mentra.Tasks.Types.{TaskItem, TaskError, TaskAccess, TaskCreateInput, TaskUpdateInput}
use mentra.Tasks.Board.{create, claim}
use mentra.Tasks.Update.{
  update, TaskState, load_tasks, replace_tasks, installed, mutate, as_mutation,
}
use mentra.Tasks.WellFormed.{WellFormed}
use mentra.Tasks.History.{First, create-WellFormed, claim-WellFormed, update-WellFormed}

-- A call of one of the tools that change tasks, in a namespace.
pub data Call : Type 0 where
  creates : Text → TaskCreateInput → Call
  claims : Text → TaskAccess → Option ℕ → Call
  updates : Text → TaskAccess → TaskUpdateInput → Call

-- What a refused call may have written to the tasks that it was lent.
abbrev pub LeftOvers : Type 0
LeftOvers = Call → List TaskItem → List TaskItem

unfoldable pub serve : LeftOvers → Call → TaskState → TaskState
serve left_over (creates namespace input) state =
    (mutate (as_mutation (left_over (creates namespace input)) (create input)) namespace state).0
serve left_over (claims namespace access id) state =
    (mutate (as_mutation (left_over (claims namespace access id)) (claim access id)) namespace
      state).0
serve left_over (updates namespace access input) state =
    (mutate (as_mutation (left_over (updates namespace access input)) (update access input))
      namespace state).0

unfoldable pub serve_all : LeftOvers → List Call → TaskState → TaskState
serve_all left_over [] state = state
serve_all left_over (c ∷ cs) state = serve_all left_over cs (serve left_over c state)

load-replace :
    (state : TaskState) (namespace key : Text) (tasks : List TaskItem)
    → load_tasks (replace_tasks state namespace tasks) key
      ≡ (if text_eq namespace key then tasks else load_tasks state key)
unfolding load_tasks replace_tasks
load-replace [] namespace key tasks = refl
load-replace ((k, old) ∷ rest) namespace key tasks = ground (
  arith,
  text_eq_iff k namespace,
  text_eq_iff namespace key,
  text_eq_iff k key,
  load-replace rest namespace key tasks,
)

-- The boards of all namespaces are well formed.
abbrev pub Sound : TaskState → Type 0
Sound state = (namespace : Text) → WellFormed (load_tasks state namespace)

replace-Sound :
    (state : TaskState) (namespace : Text) (tasks : List TaskItem)
    → WellFormed tasks
    → Sound state
    → Sound (replace_tasks state namespace tasks)
replace-Sound state namespace tasks w s key = elim (Bool-cases (text_eq namespace key)) [
  | inl e ↦ rw (load-replace state namespace key tasks, e) w
  | inr e ↦ rw (load-replace state namespace key tasks, e) (s key)
]

abbrev left_by {ℓ} :
    {A : Type ℓ}
    → (List TaskItem → List TaskItem)
    → List TaskItem
    → Result (List TaskItem × A) TaskError
    → Result A TaskError × List TaskItem
left_by left tasks r = elim r [ ok done ↦ (ok done.1, done.0) | err e ↦ (err e, left tasks) ]

leaves-Sound {ℓ} :
    {A : Type ℓ} (left : List TaskItem → List TaskItem) (state : TaskState) (namespace : Text)
    (r : Result (List TaskItem × A) TaskError)
    → Ensures First r
    → Sound state
    → Sound (installed state namespace (left_by left (load_tasks state namespace) r)).0
leaves-Sound left state namespace (ok (tasks, out)) w s = replace-Sound state namespace tasks w s
leaves-Sound left state namespace (err e) w s = s

mutate-Sound {ℓ} :
    {A : Type ℓ} (left : List TaskItem → List TaskItem)
    (operation : List TaskItem → Result (List TaskItem × A) TaskError) (state : TaskState)
    (namespace : Text)
    → Ensures First (operation (load_tasks state namespace))
    → Sound state
    → Sound (mutate (as_mutation left operation) namespace state).0
unfolding mutate
mutate-Sound left operation state namespace w s =
    leaves-Sound left state namespace (operation (load_tasks state namespace)) w s

serve-Sound :
    (left_over : LeftOvers) (c : Call) (state : TaskState)
    → Sound state
    → Sound (serve left_over c state)
unfolding serve
serve-Sound left_over (creates namespace input) state s =
    mutate-Sound _ (create input) state namespace (create-WellFormed input _ (s namespace)) s
serve-Sound left_over (claims namespace access id) state s =
    mutate-Sound _ (claim access id) state namespace (claim-WellFormed access id _ (s namespace)) s
serve-Sound left_over (updates namespace access input) state s =
    mutate-Sound _ (update access input) state namespace
      (update-WellFormed access input _ (s namespace)) s

serve_all-Sound :
    (left_over : LeftOvers) (cs : List Call) (state : TaskState)
    → Sound state
    → Sound (serve_all left_over cs state)
unfolding serve_all
serve_all-Sound left_over [] state s = s
serve_all-Sound left_over (c ∷ cs) state s =
    serve_all-Sound left_over cs (serve left_over c state) (serve-Sound left_over c state s)

-- After any history of creations, claims and updates, refused ones among them, whatever those had
-- written before they were refused, by whomever and in whatever namespaces, the tasks of each
-- namespace have distinct ids and no cycle of dependencies, their dependencies name existing
-- tasks, and each listed blocker of a task blocks that task.
pub serve_all-WellFormed :
    (left_over : LeftOvers) (cs : List Call) (namespace : Text)
    → WellFormed (load_tasks (serve_all left_over cs []) namespace)
unfolding load_tasks
serve_all-WellFormed left_over cs namespace =
    serve_all-Sound left_over cs []
      (λ key. record {
        distinct = tt;
        acyclic = λ a b ed. cc ed;
        known = λ a b ed. cc ed;
        blockers = λ a b wt. cc wt;
      })
      namespace
