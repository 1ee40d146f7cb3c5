-- ===== src/Tasks/Lookup.antt =====
-- The tasks seen through their ids: look-up, single writes, and the edges of the graph.
use mentra.Base.{
  ℕ, ◌≡◌, refl, Option, none, some, List, [], ◌∷◌, Bool, true, ◌==◌, if◌then◌else◌, arith,
  Bool-cases, inl, inr,
}
use mathlib.Core.Option
use mentra.Tasks.Types.{TaskItem}
use mentra.Tasks.Ids.{contains}
use mentra.Tasks.Graph.{task_at, last_task, write}

-- No two tasks have the same id.
abbrev pub Distinct : List TaskItem → Type 0
Distinct [] = Unit {0}
Distinct (t ∷ ts) = (task_at ts t.id ≡ none) × Distinct ts

abbrev pub blocks_in : Option TaskItem → List ℕ
blocks_in none = []
blocks_in (some t) = t.blocks

abbrev pub blockers_in : Option TaskItem → List ℕ
blockers_in none = []
blockers_in (some t) = t.blocked_by

-- `a` blocks `b`.
abbrev pub edge : List TaskItem → ℕ → ℕ → Bool
edge ts a b = contains (blocks_in (task_at ts a)) b

-- `b` is listed as an unfinished blocker of `a`.
abbrev pub waits : List TaskItem → ℕ → ℕ → Bool
waits ts a b = contains (blockers_in (task_at ts a)) b

-- Along the edges from a task to the goal.
pub data Reach (ts : List TaskItem) (goal : ℕ) : ℕ → Type 0 where
  here : {a : ℕ} → a ≡ goal → Reach ts goal a
  next : {a : ℕ} (b : ℕ) → edge ts a b ≡ true → Reach ts goal b → Reach ts goal a

pub task_at-id : (ts : List TaskItem) (id : ℕ) (t : TaskItem) → task_at ts id ≡ some t → t.id ≡ id
task_at-id [] id t e = cc
task_at-id (u ∷ us) id t e = ground (arith, task_at-id us id t)

pub last_task-task_at :
    (ts : List TaskItem) (id : ℕ) → Distinct ts → last_task ts id ≡ task_at ts id
unfolding last_task
last_task-task_at [] id d = refl
last_task-task_at (t ∷ ts) id d = ground (arith, last_task-task_at ts id d.1)

abbrev pub KeepsId : (TaskItem → TaskItem) → Type 0
KeepsId f = (t : TaskItem) → (f t).id ≡ t.id

pub task_at-write :
    (ts : List TaskItem) (id : ℕ) (f : TaskItem → TaskItem) (j : ℕ)
    → KeepsId f
    → task_at (write ts id f) j ≡ (if id == j then Option.map f (task_at ts j) else task_at ts j)
task_at-write [] id f j k = ground arith
task_at-write (t ∷ ts) id f j k = ground (arith, task_at-write ts id f j k, k t)

pub write-Distinct :
    (ts : List TaskItem) (id : ℕ) (f : TaskItem → TaskItem)
    → KeepsId f
    → Distinct ts
    → Distinct (write ts id f)
write-Distinct [] id f k d = tt
write-Distinct (t ∷ ts) id f k d = elim (Bool-cases (t.id == id)) [
  | inl e ↦ rw e (rw (k t) d.0, d.1)
  | inr e ↦ rw e (ground (arith, task_at-write ts id f t.id k, d.0), write-Distinct ts id f k d.1)
]
