-- ===== src/Tasks/Cycles.antt =====
-- When `add_dependency` refuses a dependency as a cycle.
use mentra.Base.{
  ℕ, ◌≡◌, ◌≢◌, ◌↔◌, refl, some, List, true, false, not, ◌&&◌, ◌==◌, arith, Bool-cases, inl, inr,
}
use mentra.Base.Results.{err}
use mentra.Tasks.Types.{TaskItem, TaskStatus, would_create_cycle}
use mentra.Tasks.Ids.{contains}
use mentra.Tasks.Graph.{task_at, find_task, path_exists, block_dependent, add_dependency}
use mentra.Tasks.Lookup.{Reach}
use mentra.Tasks.Search.{path_exists_iff}
use mentra.Tasks.WellFormed.{WellFormed}

block_dependent-no_cycle :
    (ts : List TaskItem) (b d x y : ℕ) (s1 s2 : TaskStatus)
    → block_dependent ts b d s1 s2 ≢ err (would_create_cycle x y)
unfolding block_dependent
block_dependent-no_cycle ts b d x y s1 s2 e = ground (arith, e)

-- On a well-formed board, a dependency between two different existing tasks is refused as a cycle
-- exactly if the dependent already reaches the blocker.
pub add_dependency-cycle_iff :
    (ts : List TaskItem) (blocker dependent : ℕ) (b d : TaskItem)
    → WellFormed ts
    → blocker ≢ dependent
    → task_at ts blocker ≡ some b
    → task_at ts dependent ≡ some d
    → (add_dependency ts blocker dependent ≡ err (would_create_cycle blocker dependent))
      ↔ Reach ts blocker dependent
unfolding add_dependency find_task
add_dependency-cycle_iff ts blocker dependent b d w ne e e' =
    rw (apart, e, e')
      (elim (Bool-cases (not (contains b.blocks dependent) && path_exists ts dependent blocker)) [
        | inl cycle ↦ rw cycle (
          λ _. (path_exists_iff ts dependent blocker w.distinct).0 (ground (arith, cycle)),
          λ _. refl,
        )
        | inr safe ↦ rw safe (
          λ h. absurd (block_dependent-no_cycle _ _ _ _ _ _ _ h),
          λ path. absurd (blocked path safe),
        )
      ])
  where
    apart : (blocker == dependent) ≡ false
    apart = ground (arith, ne)

    blocked :
        Reach ts blocker dependent
        → (not (contains b.blocks dependent) && path_exists ts dependent blocker) ≡ false
        → ⊥
    blocked path safe =
        let found = (path_exists_iff ts dependent blocker w.distinct).1 path in
        let there : contains b.blocks dependent ≡ true = ground (arith, found, safe) in
        w.acyclic blocker dependent (rw e there) path
