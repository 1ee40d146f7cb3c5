-- ===== src/Tasks/Preserve.antt =====
-- A change of the dependencies that succeeds leaves a well-formed board well formed.
use mentra.Base.{
  ℕ, ◌≡◌, refl, some, List, true, false, not, ◌&&◌, ◌==◌, arith, Bool-cases, ◌⊎◌, inl, inr,
  if◌then◌else◌, ==_refl,
}
use mentra.Base.Results.{ok, err, Ensures, Ensures-then}
use mentra.Tasks.Types.{TaskItem, TaskStatus, pending, completed, TaskError, status_eq}
use mentra.Tasks.Ids.{contains}
use mentra.Tasks.Graph.{
  task_at, find_task, write, path_exists, block_dependent, add_dependency, remove_dependency,
}
use mentra.Tasks.Lookup.{Distinct, edge, Reach, task_at-write}
use mentra.Tasks.Search.{path_exists_iff}
use mentra.Tasks.WellFormed.{WellFormed}
use mentra.Tasks.Links.{
  add_block, edge-add_block, add_block-WellFormed, add_blocker-WellFormed, drop_link-WellFormed,
}

pub find_task-ok :
    (ts : List TaskItem) (id : ℕ) (t : TaskItem) → find_task ts id ≡ ok t → task_at ts id ≡ some t
unfolding find_task
find_task-ok ts id t e = ground (arith, e)

-- The edge that the write adds, or that was there.
edge_after :
    (ts : List TaskItem) (blocker dependent : ℕ) (b : TaskItem)
    → task_at ts blocker ≡ some b
    → edge (write ts blocker (add_block dependent)) blocker dependent ≡ true
edge_after ts blocker dependent b e = ground (
  arith,
  edge-add_block ts blocker dependent b blocker dependent e,
  ==_refl blocker,
  ==_refl dependent,
)

block_dependent-WellFormed :
    (ts : List TaskItem) (blocker dependent : ℕ) (s1 s2 : TaskStatus) (d : TaskItem)
    → task_at ts dependent ≡ some d
    → edge ts blocker dependent ≡ true
    → WellFormed ts
    → Ensures WellFormed (block_dependent ts blocker dependent s1 s2)
unfolding block_dependent
block_dependent-WellFormed ts blocker dependent s1 s2 d known along w =
    elim (Bool-cases (status_eq s1 completed)) [
      | inl e ↦ rw e w
      | inr e ↦ elim (Bool-cases (status_eq s2 pending)) [
        | inl p ↦ rw (e, p) (add_blocker-WellFormed ts dependent blocker d known along w)
        | inr p ↦ rw (e, p) tt
      ]
    ]

-- The test of `add_dependency`: the edge is there, or the dependent does not reach the blocker.
no_path :
    (ts : List TaskItem) (blocker dependent : ℕ) (b : TaskItem)
    → Distinct ts
    → task_at ts blocker ≡ some b
    → (not (contains b.blocks dependent) && path_exists ts dependent blocker) ≡ false
    → (edge ts blocker dependent ≡ true) ⊎ (¬ (Reach ts blocker dependent))
no_path ts blocker dependent b d e h = elim (Bool-cases (contains b.blocks dependent)) [
  | inl there ↦ inl (rw e there)
  | inr new ↦
      let missed : path_exists ts dependent blocker ≡ false = ground (arith, new) in
      inr (λ path. cc (missed, (path_exists_iff ts dependent blocker d).1 path))
]

link-WellFormed :
    (ts : List TaskItem) (blocker dependent : ℕ) (b d : TaskItem)
    → (blocker == dependent) ≡ false
    → task_at ts blocker ≡ some b
    → task_at ts dependent ≡ some d
    → WellFormed ts
    → Ensures WellFormed (
        if not (contains b.blocks dependent) && path_exists ts dependent blocker
        then err (TaskError.would_create_cycle blocker dependent)
        else block_dependent
            (write ts blocker (add_block dependent))
            blocker
            dependent
            b.status
            d.status)
link-WellFormed ts blocker dependent b d apart e e' w =
    elim (Bool-cases (not (contains b.blocks dependent) && path_exists ts dependent blocker)) [
      | inl cycle ↦ rw cycle tt
      | inr safe ↦ rw safe (
          block_dependent-WellFormed (write ts blocker (add_block dependent)) blocker dependent
            b.status d.status d
            (ground (arith, task_at-write ts blocker (add_block dependent) dependent (λ _. refl)))
            (edge_after ts blocker dependent b e)
            (add_block-WellFormed ts blocker dependent b e (λ gone. cc)
              (no_path ts blocker dependent b w.distinct e safe) w))
    ]

-- A dependency is added only where it makes no cycle, and the board stays well formed.
pub add_dependency-WellFormed :
    (blocker dependent : ℕ) (ts : List TaskItem)
    → WellFormed ts
    → Ensures WellFormed (add_dependency ts blocker dependent)
unfolding add_dependency
add_dependency-WellFormed blocker dependent ts w = elim (Bool-cases (blocker == dependent)) [
  | inl same ↦ rw same tt
  | inr apart ↦ rw apart (
      Ensures-then WellFormed (find_task ts blocker) _ λ b found.
        Ensures-then WellFormed (find_task ts dependent) _ λ d found'.
          link-WellFormed ts blocker dependent b d apart (find_task-ok ts blocker b found)
            (find_task-ok ts dependent d found') w)
]

pub remove_dependency-WellFormed :
    (blocker dependent : ℕ) (ts : List TaskItem)
    → WellFormed ts
    → Ensures WellFormed (remove_dependency ts blocker dependent)
unfolding remove_dependency
remove_dependency-WellFormed blocker dependent ts w =
    Ensures-then WellFormed (find_task ts blocker) _ λ b _.
      Ensures-then WellFormed (find_task ts dependent) _
        λ d _. drop_link-WellFormed ts blocker dependent w
