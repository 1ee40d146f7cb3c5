-- ===== src/Tasks/PreserveStatus.antt =====
-- A status change that succeeds leaves a well-formed board well formed.
use mentra.Base.{
  ℕ, ◌≡◌, refl, ◌∙◌, ap, List, [], ◌∷◌, true, arith, Bool-cases, inl, inr, ==_refl, All,
}
use mentra.Base.Results.{
  for_each, Ensures, Ensures->>=, Ensures-then, Ensures-for_each, Ensures-for_each_item,
}
use mentra.Tasks.Types.{TaskItem, TaskStatus, pending, in_progress, completed, status_eq}
use mentra.Tasks.Ids.{contains}
use mentra.Tasks.Graph.{find_task, write, validate_unblocked_status}
use mentra.Tasks.Status.{
  unblock, reblock, set_status, Changed, complete, resume, change_status, apply_status_change,
}
use mentra.Tasks.Lookup.{edge}
use mentra.Tasks.Preserve.{find_task-ok}
use mentra.Tasks.WellFormed.{WellFormed, KeepsLinks, write_links, blocks-write}
use mentra.Tasks.Links.{add_blocker, add_blocker-WellFormed, drop_blocker-WellFormed}

pub set_status-KeepsLinks : (s : TaskStatus) → KeepsLinks (set_status s)
set_status-KeepsLinks s = record {
  same_id = λ _. refl;
  same_blocks = λ _. refl;
  same_blocked_by = λ _. refl;
}

-- What the loops over the dependents keep.
abbrev First : (List TaskItem × List TaskItem) → Type 0
First r = WellFormed r.0

unblock-WellFormed :
    (id dependent : ℕ) (r : List TaskItem × List TaskItem)
    → First r
    → Ensures First (unblock id dependent r)
unfolding unblock
unblock-WellFormed id dependent (ts, out) w =
    Ensures-then First (find_task ts dependent) _ λ d found.
      elim (Bool-cases (status_eq d.status completed)) [
        | inl e ↦ rw e w
        | inr e ↦ rw e (drop_blocker-WellFormed ts dependent id w)
      ]

All-contains :
    (ids more : List ℕ)
    → All (λ i. contains ids i ≡ true) more
    → (j : ℕ) → All (λ i. contains (j ∷ ids) i ≡ true) more
All-contains ids [] a j = tt
All-contains ids (m ∷ ms) a j = (ground (arith, a.0), All-contains ids ms a.1 j)

pub all_contained : (ids : List ℕ) → All (λ i. contains ids i ≡ true) ids
all_contained [] = tt
all_contained (i ∷ is) = (ground (arith, ==_refl i), All-contains is is (all_contained is) i)

-- While a reopened task blocks its dependents again, its edges stay what they were.
abbrev Reblocking : List TaskItem → ℕ → (List TaskItem × List TaskItem) → Type 0
Reblocking ts id r = WellFormed r.0 × ((x : ℕ) → edge r.0 id x ≡ edge ts id x)

reblock-WellFormed :
    (ts : List TaskItem) (id dependent : ℕ) (r : List TaskItem × List TaskItem)
    → edge ts id dependent ≡ true
    → Reblocking ts id r
    → Ensures (Reblocking ts id) (reblock id dependent r)
unfolding reblock
reblock-WellFormed ts id dependent (us, out) along (w, same) =
    Ensures-then (Reblocking ts id) (find_task us dependent) _ λ d found.
      elim (Bool-cases (status_eq d.status completed)) [
        | inl e ↦ rw e (w, same)
        | inr e ↦ rw e (
          add_blocker-WellFormed us dependent id d (find_task-ok us dependent d found)
              (same dependent ∙ along) w,
          λ x.
              ap (λ l. contains l x)
                (blocks-write us dependent (add_blocker id) (λ _. refl) id (λ _ _. refl))
              ∙ same x,
        )
      ]

abbrev pub AllTasks : Changed → Type 0
AllTasks c = WellFormed c.tasks

pub complete-WellFormed :
    (ts : List TaskItem) (id : ℕ) → WellFormed ts → Ensures AllTasks (complete ts id)
unfolding complete
complete-WellFormed ts id w = Ensures-then AllTasks (find_task ts id) _ λ t _.
    Ensures-then AllTasks (validate_unblocked_status t) _ λ _ _.
      Ensures-then AllTasks (find_task (write ts id (set_status completed)) id) _ λ done _.
        Ensures->>= First AllTasks (for_each (unblock id) done.blocks _) _
          (Ensures-for_each First (unblock id) done.blocks _ (unblock-WellFormed id)
            (write_links ts id (set_status completed) (set_status-KeepsLinks completed) w))
          (λ r _ w'. w')

resume-WellFormed :
    (ts : List TaskItem) (id : ℕ) (old s : TaskStatus)
    → WellFormed ts
    → Ensures AllTasks (resume ts id old s)
unfolding resume
resume-WellFormed ts id old s w = Ensures-then AllTasks (find_task ts id) _ λ t _.
    Ensures-then AllTasks (validate_unblocked_status (set_status s t)) _ λ _ _.
      elim (Bool-cases (status_eq old completed)) [
        | inl e ↦ rw e (
            Ensures-then AllTasks (find_task ts' id) _ λ done found.
              Ensures->>= (Reblocking ts' id) AllTasks (for_each (reblock id) done.blocks _) _
                (Ensures-for_each_item (λ x. edge ts' id x ≡ true) (Reblocking ts' id) (reblock id)
                  done.blocks _ (reblock-WellFormed ts' id)
                  (rw (find_task-ok ts' id done found) (all_contained done.blocks)) (w', λ x. refl))
                (λ r _ kept. kept.0))
        | inr e ↦ rw e w'
      ]
  where
    ts' : List TaskItem
    ts' = write ts id (set_status s)

    w' : WellFormed ts'
    w' = write_links ts id (set_status s) (set_status-KeepsLinks s) w

pub apply_status_change-WellFormed :
    (ts : List TaskItem) (id : ℕ) (old s : TaskStatus)
    → WellFormed ts
    → Ensures AllTasks (apply_status_change ts id old s)
unfolding apply_status_change
apply_status_change-WellFormed ts id old s w = elim (Bool-cases (status_eq old s)) [
  | inl e ↦ rw e (
      Ensures-then AllTasks (find_task ts id) _
        λ t _. Ensures-then AllTasks (validate_unblocked_status t) _ λ _ _. w)
  | inr e ↦ rw e (changed s)
]
  where
    changed : (s : TaskStatus) → Ensures AllTasks (change_status ts id old s)
    changed completed = complete-WellFormed ts id w
    changed pending = resume-WellFormed ts id old pending w
    changed in_progress = resume-WellFormed ts id old in_progress w
