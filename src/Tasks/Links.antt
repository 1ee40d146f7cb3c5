-- ===== src/Tasks/Links.antt =====
-- The writes that add and remove a dependency, on a well-formed board.
use mentra.Base.{
  ℕ, ◌≡◌, ◌≢◌, refl, none, some, List, true, not, ◌&&◌, ◌||◌, ◌==◌, arith, Bool-cases, Option-cases,
  ◌⊎◌, inl, inr,
}
use mentra.Tasks.Types.{TaskItem}
use mentra.Tasks.Ids.{insert_id, remove_id, contains-insert_id, contains-remove_id}
use mentra.Tasks.Graph.{task_at, write}
use mentra.Tasks.Lookup.{edge, waits, Reach, task_at-write, write-Distinct}
use mentra.Tasks.Acyclic.{Acyclic, EdgesWithin, EdgesWithOne, Acyclic-mono, Acyclic-add}
use mentra.Tasks.WellFormed.{WellFormed, known-write, blocks-write, blockers-write}

abbrev pub add_block : ℕ → TaskItem → TaskItem
add_block dependent t = record t { blocks = (insert_id t.blocks dependent).0 }

abbrev pub drop_block : ℕ → TaskItem → TaskItem
drop_block dependent t = record t { blocks = (remove_id t.blocks dependent).0 }

abbrev pub add_blocker : ℕ → TaskItem → TaskItem
add_blocker blocker t = record t { blocked_by = (insert_id t.blocked_by blocker).0 }

abbrev pub drop_blocker : ℕ → TaskItem → TaskItem
drop_blocker blocker t = record t { blocked_by = (remove_id t.blocked_by blocker).0 }

module _ (ts : List TaskItem) (id link : ℕ) where
  pub edge-add_block :
      (t : TaskItem) (a b : ℕ)
      → task_at ts id ≡ some t
      → edge (write ts id (add_block link)) a b ≡ (edge ts a b || (id == a && link == b))
  edge-add_block t a b e = elim (Bool-cases (id == a)) [
    | inl h ↦
        let at : id ≡ a = ground arith in
        ground (
          arith,
          task_at-write ts id (add_block link) a (λ _. refl),
          rw at at e,
          contains-insert_id t.blocks link b,
        )
    | inr h ↦ ground (arith, task_at-write ts id (add_block link) a (λ _. refl))
  ]

  pub edge-drop_block :
      (a b : ℕ)
      → edge (write ts id (drop_block link)) a b ≡ (edge ts a b && not (id == a && b == link))
  edge-drop_block a b = elim (Option-cases (task_at ts a)) [
    | inl e ↦ ground (arith, task_at-write ts id (drop_block link) a (λ _. refl))
    | inr (t, e) ↦ ground (
      arith,
      task_at-write ts id (drop_block link) a (λ _. refl),
      contains-remove_id t.blocks link b,
    )
  ]

  pub waits-add_blocker :
      (t : TaskItem) (a b : ℕ)
      → task_at ts id ≡ some t
      → waits (write ts id (add_blocker link)) a b ≡ (waits ts a b || (id == a && link == b))
  waits-add_blocker t a b e = elim (Bool-cases (id == a)) [
    | inl h ↦
        let at : id ≡ a = ground arith in
        ground (
          arith,
          task_at-write ts id (add_blocker link) a (λ _. refl),
          rw at at e,
          contains-insert_id t.blocked_by link b,
        )
    | inr h ↦ ground (arith, task_at-write ts id (add_blocker link) a (λ _. refl))
  ]

  pub waits-drop_blocker :
      (a b : ℕ)
      → waits (write ts id (drop_blocker link)) a b ≡ (waits ts a b && not (id == a && b == link))
  waits-drop_blocker a b = elim (Option-cases (task_at ts a)) [
    | inl e ↦ ground (arith, task_at-write ts id (drop_blocker link) a (λ _. refl))
    | inr (t, e) ↦ ground (
      arith,
      task_at-write ts id (drop_blocker link) a (λ _. refl),
      contains-remove_id t.blocked_by link b,
    )
  ]

  -- Both ends exist and the dependent does not reach the blocker, or the edge is there already.
  pub add_block-WellFormed :
      (t : TaskItem)
      → task_at ts id ≡ some t
      → task_at ts link ≢ none
      → (edge ts id link ≡ true) ⊎ (¬ (Reach ts id link))
      → WellFormed ts
      → WellFormed (write ts id (add_block link))
  add_block-WellFormed t e exists safe w = record {
    distinct = write-Distinct ts id (add_block link) (λ _. refl) w.distinct;
    acyclic = no_cycle safe;
    known = λ a b ed. known-write ts id (add_block link) (λ _. refl) b (named a b (grown a b ed));
    blockers = λ a b wt.
        let old = rw (blockers-write ts id (add_block link) (λ _. refl) a (λ _ _. refl)) at wt in
        ground (arith, edge-add_block t b a e, w.blockers a b old);
  }
    where
      grown : EdgesWithOne (write ts id (add_block link)) ts id link
      grown a b ed = ground (arith, edge-add_block t a b e, ed)

      named : (a b : ℕ) → (edge ts a b ≡ true) ⊎ ((a ≡ id) × (b ≡ link)) → task_at ts b ≢ none
      named a b (inl old) = w.known a b old
      named a b (inr (p, q)) = rw q exists

      no_cycle :
          (edge ts id link ≡ true) ⊎ (¬ (Reach ts id link)) → Acyclic (write ts id (add_block link))
      no_cycle (inl old) = Acyclic-mono ts _ (λ a b ed. present a b (grown a b ed) old) w.acyclic
        where
          present :
              (a b : ℕ)
              → (edge ts a b ≡ true) ⊎ ((a ≡ id) × (b ≡ link))
              → edge ts id link ≡ true
              → edge ts a b ≡ true
          present a b (inl here) _ = here
          present a b (inr (p, q)) here = rw (p, q) here
      no_cycle (inr apart) = Acyclic-add ts _ id link grown apart w.acyclic

  -- The blocker is listed where the edge is there already.
  pub add_blocker-WellFormed :
      (t : TaskItem)
      → task_at ts id ≡ some t
      → edge ts link id ≡ true
      → WellFormed ts
      → WellFormed (write ts id (add_blocker link))
  add_blocker-WellFormed t e along w = record {
    distinct = write-Distinct ts id (add_blocker link) (λ _. refl) w.distinct;
    acyclic = Acyclic-mono ts _ back w.acyclic;
    known =
        λ a b ed. known-write ts id (add_blocker link) (λ _. refl) b (w.known a b (back a b ed));
    blockers = λ a b wt. forth b a (listed a b (ground (arith, waits-add_blocker t a b e, wt)));
  }
    where
      back : EdgesWithin (write ts id (add_blocker link)) ts
      back a b ed = rw (blocks-write ts id (add_blocker link) (λ _. refl) a (λ _ _. refl)) at ed

      forth : EdgesWithin ts (write ts id (add_blocker link))
      forth a b ed = rw (blocks-write ts id (add_blocker link) (λ _. refl) a (λ _ _. refl)) ed

      listed : (a b : ℕ) → (waits ts a b ≡ true) ⊎ ((id ≡ a) × (link ≡ b)) → edge ts b a ≡ true
      listed a b (inl old) = w.blockers a b old
      listed a b (inr (p, q)) = rw (← p, ← q) along

  -- A blocker is dropped, and the edge stays.
  pub drop_blocker-WellFormed : WellFormed ts → WellFormed (write ts id (drop_blocker link))
  drop_blocker-WellFormed w = record {
    distinct = write-Distinct ts id (drop_blocker link) (λ _. refl) w.distinct;
    acyclic = Acyclic-mono ts _ back w.acyclic;
    known =
        λ a b ed. known-write ts id (drop_blocker link) (λ _. refl) b (w.known a b (back a b ed));
    blockers = λ a b wt. forth b a (w.blockers a b (ground (arith, waits-drop_blocker a b, wt)));
  }
    where
      back : EdgesWithin (write ts id (drop_blocker link)) ts
      back a b ed = rw (blocks-write ts id (drop_blocker link) (λ _. refl) a (λ _ _. refl)) at ed

      forth : EdgesWithin ts (write ts id (drop_blocker link))
      forth a b ed = rw (blocks-write ts id (drop_blocker link) (λ _. refl) a (λ _ _. refl)) ed

-- The edge and the listed blocker go together.
pub drop_link-WellFormed :
    (ts : List TaskItem) (id link : ℕ)
    → WellFormed ts
    → WellFormed (write (write ts id (drop_block link)) link (drop_blocker id))
drop_link-WellFormed ts id link w = record {
  distinct =
      write-Distinct ts' link (drop_blocker id) (λ _. refl)
        (write-Distinct ts id (drop_block link) (λ _. refl) w.distinct);
  acyclic = Acyclic-mono ts _ back w.acyclic;
  known = λ a b ed.
      known-write ts' link (drop_blocker id) (λ _. refl) b
        (known-write ts id (drop_block link) (λ _. refl) b (w.known a b (back a b ed)));
  blockers = λ a b wt.
      let both = waits-drop_blocker ts' link id a b in
      let before = blockers-write ts id (drop_block link) (λ _. refl) a (λ _ _. refl) in
      let kept : waits ts' a b ≡ true = ground (arith, both, wt) in
      let old : waits ts a b ≡ true = rw before at kept in
      same b a (ground (arith, edge-drop_block ts id link b a, w.blockers a b old, both, wt));
}
  where
    ts' : List TaskItem
    ts' = write ts id (drop_block link)

    same : (a b : ℕ) → edge ts' a b ≡ true → edge (write ts' link (drop_blocker id)) a b ≡ true
    same a b ed = rw (blocks-write ts' link (drop_blocker id) (λ _. refl) a (λ _ _. refl)) ed

    back : EdgesWithin (write ts' link (drop_blocker id)) ts
    back a b ed =
        let e : edge ts' a b ≡ true =
          rw (blocks-write ts' link (drop_blocker id) (λ _. refl) a (λ _ _. refl)) at ed in
        ground (arith, edge-drop_block ts id link a b, e)
