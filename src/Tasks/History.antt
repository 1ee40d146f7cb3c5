-- ===== src/Tasks/History.antt =====
-- Any history of the task tools on the board of a namespace.
use mentra.Base.{
  ℕ, ◌+◌, ◌<◌, ◌≡◌, refl, sym, Option, none, some, List, [], ◌∷◌, ◌++◌, true, false, ◌==◌, arith,
  Bool-cases, inl, inr, if◌then◌else◌, subst, ==_refl,
}
use mentra.Base.Text.{Text}
use mentra.Base.Results.{Result, ok, err, Ensures, Ensures->>=, Ensures-then, Ensures-for_each}
use mentra.Tasks.Types.{
  TaskItem, TaskStatus, TaskError, TaskAccess, TaskCreateInput, TaskUpdateInput,
}
use mentra.Tasks.Graph.{task_at, find_task, write, validate_unblocked_status}
use mentra.Tasks.Board.{
  parse_task_create_input, parse_task_update_input, max_id, add_blockers, new_task, create,
  validate_claimable, is_claimable, claimant, actor_name, own, claim_first, claim_by, claim,
}
use mentra.Tasks.Update.{validate_update_access, edit, settle_status, edit_dependencies, update}
use mentra.Tasks.Lookup.{Distinct, waits}
use mentra.Tasks.Acyclic.{EdgesWithin, Acyclic-mono}
use mentra.Tasks.WellFormed.{WellFormed, KeepsLinks, write_links}
use mentra.Tasks.Preserve.{add_dependency-WellFormed, remove_dependency-WellFormed}
use mentra.Tasks.PreserveStatus.{apply_status_change-WellFormed, AllTasks}

-- An id above the largest is new.
max_id_fresh : (ts : List TaskItem) (id : ℕ) → max_id ts < id → task_at ts id ≡ none
unfolding max_id
max_id_fresh [] id lt = refl
max_id_fresh (t ∷ ts) id lt = ground (arith, max_id_fresh ts id)

task_at-append :
    (ts : List TaskItem) (new : TaskItem) (j : ℕ)
    → task_at ts new.id ≡ none
    → task_at (ts ++ new ∷ []) j ≡ (if new.id == j then some new else task_at ts j)
task_at-append [] new j fresh = refl
task_at-append (t ∷ ts) new j fresh = ground (arith, task_at-append ts new j)

append-Distinct :
    (ts : List TaskItem) (new : TaskItem)
    → task_at ts new.id ≡ none
    → Distinct ts
    → Distinct (ts ++ new ∷ [])
append-Distinct [] new fresh d = (refl, tt)
append-Distinct (t ∷ ts) new fresh d = (
  ground (arith, task_at-append ts new t.id, d.0),
  append-Distinct ts new (ground (arith, fresh)) d.1,
)

-- A new task has no links.
module _ (ts : List TaskItem) (new : TaskItem) (fresh : task_at ts new.id ≡ none)
    (free : new.blocks ≡ []) (unblocked : new.blocked_by ≡ []) (w : WellFormed ts) where
  old_edge : EdgesWithin (ts ++ new ∷ []) ts
  old_edge a b ed = elim (Bool-cases (new.id == a)) [
    | inl e ↦ cc (rw (task_at-append ts new a fresh, e, free) at ed)
    | inr e ↦ rw (task_at-append ts new a fresh, e) at ed
  ]

  kept_edge : EdgesWithin ts (ts ++ new ∷ [])
  kept_edge a b ed = elim (Bool-cases (new.id == a)) [
    | inl e ↦ let same : new.id ≡ a = ground arith in cc (rw (← same, fresh) at ed)
    | inr e ↦ rw (task_at-append ts new a fresh, e) ed
  ]

  old_wait : (a b : ℕ) → waits (ts ++ new ∷ []) a b ≡ true → waits ts a b ≡ true
  old_wait a b wt = elim (Bool-cases (new.id == a)) [
    | inl e ↦ cc (rw (task_at-append ts new a fresh, e, unblocked) at wt)
    | inr e ↦ rw (task_at-append ts new a fresh, e) at wt
  ]

  append-WellFormed : WellFormed (ts ++ new ∷ [])
  append-WellFormed = record {
    distinct = append-Distinct ts new fresh w.distinct;
    acyclic = Acyclic-mono ts (ts ++ new ∷ []) old_edge w.acyclic;
    known = λ a b ed gone.
        w.known a b (old_edge a b ed) (ground (arith, task_at-append ts new b fresh, gone));
    blockers = λ a b wt. kept_edge b a (w.blockers a b (old_wait a b wt));
  }

abbrev pub First {ℓ} : {A : Type ℓ} → List TaskItem × A → Type 0
First r = WellFormed r.0

pub create-WellFormed :
    (input : TaskCreateInput) (ts : List TaskItem) → WellFormed ts → Ensures First (create input ts)
unfolding create
create-WellFormed input ts w = Ensures-then First (parse_task_create_input input) _ λ parsed _.
    Ensures->>= WellFormed First (add_blockers (max_id ts + 1) parsed.blocked_by _) _
      (Ensures-for_each WellFormed _ parsed.blocked_by _
        (λ blocker ts' w'. add_dependency-WellFormed blocker (max_id ts + 1) ts' w')
        (append-WellFormed ts (new_task (max_id ts + 1) parsed)
          (max_id_fresh ts (max_id ts + 1) (omega arith)) refl refl w))
      (λ ts' _ w'. Ensures-then First (find_task ts' (max_id ts + 1)) _ λ t _. w')

own-KeepsLinks : (owner : Text) → KeepsLinks (own owner)
own-KeepsLinks owner = record {
  same_id = λ _. refl;
  same_blocks = λ _. refl;
  same_blocked_by = λ _. refl;
}

edit-KeepsLinks : (input : TaskUpdateInput) → KeepsLinks (edit input)
edit-KeepsLinks input = record {
  same_id = λ _. refl;
  same_blocks = λ _. refl;
  same_blocked_by = λ _. refl;
}

-- What `claim_first` writes, as a write to the id of the task that it returns.
abbrev Wrote : Text → List TaskItem → List TaskItem × TaskItem → Type 0
Wrote owner ts r =
    (r.0 ≡ write ts r.1.id (own owner)) × ((t : TaskItem) × (task_at ts r.1.id ≡ some t))

claim_first-Wrote :
    (owner : Text) (ts : List TaskItem)
    → Distinct ts
    → Ensures (Wrote owner ts) (claim_first owner ts)
unfolding claim_first
claim_first-Wrote owner [] d = tt
claim_first-Wrote owner (t ∷ ts) d = elim (Bool-cases (is_claimable t)) [
  | inl e ↦ rw e (ground (arith, ==_refl t.id), (t, ground (arith, ==_refl t.id)))
  | inr e ↦ rw e (
      Ensures->>= (Wrote owner ts) (Wrote owner (t ∷ ts)) (claim_first owner ts) _
        (claim_first-Wrote owner ts d.1)
        (λ r _ wrote.
          let apart : (t.id == r.1.id) ≡ false = ground (arith, wrote.1.1, d.0) in
          (rw (apart, wrote.0), (wrote.1.0, rw apart wrote.1.1))))
]

claim_by-WellFormed :
    (owner : Text) (id : Option ℕ) (ts : List TaskItem)
    → WellFormed ts
    → Ensures First (claim_by owner id ts)
claim_by-WellFormed owner none ts w =
    moved (claim_first owner ts) (claim_first-Wrote owner ts w.distinct)
  where
    moved :
        (r : Result (List TaskItem × TaskItem) TaskError)
        → Ensures (Wrote owner ts) r
        → Ensures First r
    moved (ok (ts', t)) wrote =
        subst WellFormed (sym wrote.0) (write_links ts t.id (own owner) (own-KeepsLinks owner) w)
    moved (err e) _ = tt
claim_by-WellFormed owner (some id) ts w = Ensures-then First (find_task ts id) _ λ t _.
    Ensures-then First (validate_claimable t owner) _
      λ _ _. write_links ts id (own owner) (own-KeepsLinks owner) w

pub claim-WellFormed :
    (access : TaskAccess) (id : Option ℕ) (ts : List TaskItem)
    → WellFormed ts
    → Ensures First (claim access id ts)
unfolding claim
claim-WellFormed access id ts w =
    Ensures-then First (claimant (actor_name access)) _ λ owner _. claim_by-WellFormed owner id ts w

edit_dependencies-WellFormed :
    (input : TaskUpdateInput) (ts : List TaskItem)
    → WellFormed ts
    → Ensures WellFormed (edit_dependencies input ts)
unfolding edit_dependencies
edit_dependencies-WellFormed input ts w =
    Ensures->>= WellFormed WellFormed _ _
      (Ensures-for_each WellFormed _ input.add_blocked_by ts
        (λ other us u. add_dependency-WellFormed other input.task_id us u) w)
      λ t1 _ w1.
        Ensures->>= WellFormed WellFormed _ _
          (Ensures-for_each WellFormed _ input.remove_blocked_by t1
            (λ other us u. remove_dependency-WellFormed other input.task_id us u) w1)
          λ t2 _ w2.
            Ensures->>= WellFormed WellFormed _ _
              (Ensures-for_each WellFormed _ input.add_blocks t2
                (λ other us u. add_dependency-WellFormed input.task_id other us u) w2)
              λ t3 _ w3.
                Ensures-for_each WellFormed _ input.remove_blocks t3
                  (λ other us u. remove_dependency-WellFormed input.task_id other us u) w3

settle_status-WellFormed :
    (ts : List TaskItem) (id : ℕ) (old : TaskStatus) (s : Option TaskStatus)
    → WellFormed ts
    → Ensures AllTasks (settle_status ts id old s)
settle_status-WellFormed ts id old none w =
    Ensures-then AllTasks (find_task ts id) _
      λ t _. Ensures-then AllTasks (validate_unblocked_status t) _ λ _ _. w
settle_status-WellFormed ts id old (some s) w = apply_status_change-WellFormed ts id old s w

pub update-WellFormed :
    (access : TaskAccess) (input : TaskUpdateInput) (ts : List TaskItem)
    → WellFormed ts
    → Ensures First (update access input ts)
unfolding update
update-WellFormed access input ts w =
    Ensures-then First (parse_task_update_input input) _ λ parsed _.
      Ensures-then First (find_task ts parsed.task_id) _ λ t _.
        Ensures-then First (validate_update_access t parsed access) _ λ _ _.
          Ensures->>= WellFormed First _ _
            (edit_dependencies-WellFormed parsed (write ts parsed.task_id (edit parsed))
              (write_links ts parsed.task_id (edit parsed) (edit-KeepsLinks parsed) w))
            λ linked _ wl.
              Ensures->>= AllTasks First _ _
                (settle_status-WellFormed linked parsed.task_id t.status parsed.status wl)
                λ changed _ wc.
                  Ensures-then First (find_task changed.tasks parsed.task_id) _ λ _ _. wc
