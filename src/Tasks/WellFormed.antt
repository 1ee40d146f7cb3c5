-- ===== src/Tasks/WellFormed.antt =====
-- The invariant of the board, and the single writes that keep it.
use mentra.Base.{
  ℕ, ◌≡◌, ◌≢◌, none, some, List, true, ◌==◌, arith, Bool-cases, Option-cases, inl, inr,
}
use mentra.Tasks.Types.{TaskItem}
use mentra.Tasks.Graph.{task_at, write}
use mentra.Tasks.Lookup.{
  Distinct, blocks_in, blockers_in, edge, waits, KeepsId, task_at-write, write-Distinct,
}
use mentra.Tasks.Acyclic.{Acyclic, EdgesWithin, Acyclic-mono}

-- The ids are distinct, the dependencies have no cycle, they name tasks of the board, and a task
-- that lists an unfinished blocker is among the tasks that this one blocks.
pub record WellFormed (ts : List TaskItem) : Type 0 where
  pub distinct : Distinct ts
  pub acyclic : Acyclic ts
  pub known : (a b : ℕ) → edge ts a b ≡ true → task_at ts b ≢ none
  pub blockers : (a b : ℕ) → waits ts a b ≡ true → edge ts b a ≡ true

-- A write that leaves the two lists of the task alone.
pub record KeepsLinks (f : TaskItem → TaskItem) : Type 0 where
  pub same_id : (t : TaskItem) → (f t).id ≡ t.id
  pub same_blocks : (t : TaskItem) → (f t).blocks ≡ t.blocks
  pub same_blocked_by : (t : TaskItem) → (f t).blocked_by ≡ t.blocked_by

module _ (ts : List TaskItem) (id : ℕ) (f : TaskItem → TaskItem) (k : KeepsId f) where
  pub known-write : (b : ℕ) → task_at ts b ≢ none → task_at (write ts id f) b ≢ none
  known-write b here gone = here (ground (arith, task_at-write ts id f b k))

  pub blocks-write :
      (a : ℕ)
      → ((t : TaskItem) → task_at ts id ≡ some t → (f t).blocks ≡ t.blocks)
      → blocks_in (task_at (write ts id f) a) ≡ blocks_in (task_at ts a)
  blocks-write a same = elim (Option-cases (task_at ts a)) [
    | inl e ↦ ground (arith, task_at-write ts id f a k)
    | inr (t, e) ↦ elim (Bool-cases (id == a)) [
      | inl h ↦
          let at : id ≡ a = ground arith in
          ground (arith, task_at-write ts id f a k, same t (rw at e))
      | inr h ↦ ground (arith, task_at-write ts id f a k)
    ]
  ]

  pub blockers-write :
      (a : ℕ)
      → ((t : TaskItem) → task_at ts id ≡ some t → (f t).blocked_by ≡ t.blocked_by)
      → blockers_in (task_at (write ts id f) a) ≡ blockers_in (task_at ts a)
  blockers-write a same = elim (Option-cases (task_at ts a)) [
    | inl e ↦ ground (arith, task_at-write ts id f a k)
    | inr (t, e) ↦ elim (Bool-cases (id == a)) [
      | inl h ↦
          let at : id ≡ a = ground arith in
          ground (arith, task_at-write ts id f a k, same t (rw at e))
      | inr h ↦ ground (arith, task_at-write ts id f a k)
    ]
  ]

pub write_links :
    (ts : List TaskItem) (id : ℕ) (f : TaskItem → TaskItem)
    → KeepsLinks f
    → WellFormed ts
    → WellFormed (write ts id f)
write_links ts id f k w = record {
  distinct = write-Distinct ts id f k.same_id w.distinct;
  acyclic = Acyclic-mono ts (write ts id f) back w.acyclic;
  known = λ a b ed. known-write ts id f k.same_id b (w.known a b (back a b ed));
  blockers = λ a b wt.
      rw (blocks-write ts id f k.same_id b (λ t _. k.same_blocks t)) (
        w.blockers a b
          (rw (blockers-write ts id f k.same_id a (λ t _. k.same_blocked_by t)) at wt));
}
  where
    back : EdgesWithin (write ts id f) ts
    back a b ed = rw (blocks-write ts id f k.same_id a (λ t _. k.same_blocks t)) at ed
