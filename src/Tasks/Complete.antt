-- ===== src/Tasks/Complete.antt =====
-- What the completion of a task does to the tasks that wait for it, and to itself.
use mentra.Base.{
  ℕ, ◌≡◌, ◌≢◌, refl, ◌∙◌, ap, Option, none, some, List, [], ◌∷◌, ◌++◌, true, false, ◌&&◌, ◌==◌,
  arith, Bool-cases, Option-cases, ◌⊎◌, inl, inr, if◌then◌else◌, ==_refl, is_empty, subst,
}
use mentra.Base.Results.{ok, for_each, Ensures, Ensures->>=, Ensures-then, Ensures-mono, Ensures-ok}
use mentra.Tasks.Types.{TaskItem, TaskStatus, pending, completed, status_eq}
use mentra.Tasks.Ids.{contains, remove_id}
use mentra.Tasks.Graph.{task_at, find_task, write, validate_unblocked_status}
use mentra.Tasks.Status.{unblock, set_status, Changed, complete, apply_status_change}
use mentra.Tasks.Lookup.{edge, waits, Reach, task_at-write}
use mentra.Tasks.WellFormed.{WellFormed, write_links, blocks-write, known-write}
use mentra.Tasks.Links.{drop_blocker, waits-drop_blocker}
use mentra.Tasks.Preserve.{find_task-ok}
use mentra.Tasks.PreserveStatus.{set_status-KeepsLinks}

abbrev pub status_in : Option TaskItem → TaskStatus
status_in none = completed
status_in (some t) = t.status

-- The task `x` is completed, or does not wait for `id`.
abbrev pub Freed : ℕ → List TaskItem → ℕ → Type 0
Freed id ts x = (status_eq (status_in (task_at ts x)) completed ≡ true) ⊎ (waits ts x id ≡ false)

drop_blocker-Freed :
    (id dep : ℕ) (ts : List TaskItem) (x : ℕ)
    → Freed id ts x
    → Freed id (write ts dep (drop_blocker id)) x
drop_blocker-Freed id dep ts x f = elim (Option-cases (task_at ts x)) [
  | inl e ↦ ground (arith, task_at-write ts dep (drop_blocker id) x (λ _. refl), f)
  | inr (t, e) ↦ ground (
    arith,
    task_at-write ts dep (drop_blocker id) x (λ _. refl),
    f,
    waits-drop_blocker ts dep id x id,
  )
]

-- The body of the loop frees its dependent, keeps what was freed, and changes no edge and no
-- other task.
record Unblocked (id dep : ℕ) (ts us : List TaskItem) : Type 0 where
  freed : Freed id us dep
  still : (x : ℕ) → Freed id ts x → Freed id us x
  same_edges : (x : ℕ) → edge us id x ≡ edge ts id x
  others : (x : ℕ) → x ≢ dep → task_at us x ≡ task_at ts x

unblock-Unblocked :
    (id dep : ℕ) (r : List TaskItem × List TaskItem)
    → Ensures (λ s. Unblocked id dep r.0 s.0) (unblock id dep r)
unfolding unblock
unblock-Unblocked id dep (ts, out) =
    Ensures-then (λ s. Unblocked id dep ts s.0) (find_task ts dep) _
      λ d found. elim (Bool-cases (status_eq d.status completed)) [
        | inl e ↦ rw e (record {
          freed = inl (rw (find_task-ok ts dep d found) e);
          still = λ x f. f;
          same_edges = λ x. refl;
          others = λ x ne. refl;
        })
        | inr e ↦ rw e (record {
          freed =
              inr (ground (arith, waits-drop_blocker ts dep id dep id, ==_refl dep, ==_refl id));
          still = drop_blocker-Freed id dep ts;
          same_edges = λ x.
              ap (λ l. contains l x)
                (blocks-write ts dep (drop_blocker id) (λ _. refl) id (λ _ _. refl));
          others = λ x ne. ground (arith, task_at-write ts dep (drop_blocker id) x (λ _. refl), ne);
        })
      ]

-- The whole loop.
record AllUnblocked (id : ℕ) (deps : List ℕ) (ts us : List TaskItem) : Type 0 where
  freed : (x : ℕ) → contains deps x ≡ true → Freed id us x
  still : (x : ℕ) → Freed id ts x → Freed id us x
  same_edges : (x : ℕ) → edge us id x ≡ edge ts id x
  others : (x : ℕ) → contains deps x ≡ false → task_at us x ≡ task_at ts x

unblock_all :
    (id : ℕ) (deps : List ℕ) (r : List TaskItem × List TaskItem)
    → Ensures (λ s. AllUnblocked id deps r.0 s.0) (for_each (unblock id) deps r)
unblock_all id [] r = record {
  freed = λ x h. cc h;
  still = λ x f. f;
  same_edges = λ x. refl;
  others = λ x h. refl;
}
unblock_all id (dep ∷ deps) r =
    Ensures->>= (λ s. Unblocked id dep r.0 s.0) (λ s. AllUnblocked id (dep ∷ deps) r.0 s.0)
      (unblock id dep r) (for_each (unblock id) deps) (unblock-Unblocked id dep r)
      λ s _ one. Ensures-mono (for_each (unblock id) deps s) (unblock_all id deps s) (join s one)
  where
    join :
        (s : List TaskItem × List TaskItem)
        → Unblocked id dep r.0 s.0
        → (u : List TaskItem × List TaskItem) → AllUnblocked id deps s.0 u.0
        → AllUnblocked id (dep ∷ deps) r.0 u.0
    join s one u rest = record {
      freed = λ x h. elim (Bool-cases (dep == x)) [
        | inl e ↦
            let same : dep ≡ x = ground arith in rest.still x (subst (Freed id s.0) same one.freed)
        | inr e ↦ rest.freed x (rw e at h)
      ];
      still = λ x f. rest.still x (one.still x f);
      same_edges = λ x. rest.same_edges x ∙ one.same_edges x;
      others = λ x h. rest.others x (ground (arith, h)) ∙ one.others x (ground (arith, h));
    }

abbrev FreesAll : ℕ → Changed → Type 0
FreesAll id c = (x : ℕ) → Freed id c.tasks x

Freed-everywhere :
    (ts us : List TaskItem) (id : ℕ) (done : TaskItem)
    → WellFormed ts
    → task_at ts id ≡ some done
    → AllUnblocked id done.blocks ts us
    → (x : ℕ) → Freed id us x
Freed-everywhere ts us id done w known u x = elim (Bool-cases (contains done.blocks x)) [
  | inl dep ↦ u.freed x dep
  | inr other ↦ elim (Bool-cases (waits ts x id)) [
    | inl listed ↦ cc (rw known at (w.blockers x id listed), other)
    | inr free ↦ inr (rw (u.others x other) free)
  ]
]

complete-FreesAll :
    (ts : List TaskItem) (id : ℕ) → WellFormed ts → Ensures (FreesAll id) (complete ts id)
unfolding complete
complete-FreesAll ts id w = Ensures-then (FreesAll id) (find_task ts id) _ λ t _.
    Ensures-then (FreesAll id) (validate_unblocked_status t) _ λ _ _.
      Ensures-then (FreesAll id) (find_task ts' id) _ λ done found.
        Ensures->>= (λ s. AllUnblocked id done.blocks ts' s.0) (FreesAll id)
          (for_each (unblock id) done.blocks (ts', [])) _ (unblock_all id done.blocks (ts', []))
          (λ r _ u. Freed-everywhere ts' r.0 id done w' (find_task-ok ts' id done found) u)
  where
    ts' : List TaskItem
    ts' = write ts id (set_status completed)

    w' : WellFormed ts'
    w' = write_links ts id (set_status completed) (set_status-KeepsLinks completed) w

-- Once a task of a well-formed board is completed, no unfinished task lists it as a blocker.
pub complete_frees :
    (ts : List TaskItem) (id : ℕ) (old : TaskStatus) (c : Changed)
    → WellFormed ts
    → old ≢ completed
    → apply_status_change ts id old completed ≡ ok c
    → (x : ℕ) (t : TaskItem) → task_at c.tasks x ≡ some t
    → t.status ≢ completed
    → contains t.blocked_by id ≡ false
unfolding apply_status_change
complete_frees ts id old c w unfinished_old e x t known unfinished =
    let done : complete ts id ≡ ok c = ground (arith, e, unfinished_old) in
    read (Ensures-ok (FreesAll id) (complete ts id) (complete-FreesAll ts id w) done x)
  where
    read : Freed id c.tasks x → contains t.blocked_by id ≡ false
    read (inl f) = ground (arith, f, known, unfinished)
    read (inr f) = rw known at f

unblock_total :
    (id dep : ℕ) (r : List TaskItem × List TaskItem)
    → task_at r.0 dep ≢ none
    → (s : List TaskItem × List TaskItem) × (unblock id dep r ≡ ok s)
      × ((x : ℕ) → task_at r.0 x ≢ none → task_at s.0 x ≢ none)
unfolding unblock find_task
unblock_total id dep (ts, out) there = elim (Option-cases (task_at ts dep)) [
  | inl e ↦ absurd (there e)
  | inr (d, e) ↦ elim (Bool-cases (status_eq d.status completed)) [
    | inl f ↦ ((ts, out), rw (e, f), λ x h. h)
    | inr f ↦ (
      (
        write ts dep (drop_blocker id),
        if (remove_id d.blocked_by id).1 && is_empty (remove_id d.blocked_by id).0
            then out ++ record d { blocked_by = (remove_id d.blocked_by id).0 } ∷ []
            else out,
      ),
      rw (e, f),
      known-write ts dep (drop_blocker id) (λ _. refl),
    )
  ]
]

-- The dependents exist, so the loop meets no error.
unblock_all_total :
    (id : ℕ) (deps : List ℕ) (r : List TaskItem × List TaskItem)
    → ((x : ℕ) → contains deps x ≡ true → task_at r.0 x ≢ none)
    → (s : List TaskItem × List TaskItem) × (for_each (unblock id) deps r ≡ ok s)
unblock_all_total id [] r known = (r, refl)
unblock_all_total id (dep ∷ deps) r known =
    let (s, e, kept) = unblock_total id dep r (known dep (ground (arith, ==_refl dep))) in
    let (u, e') = unblock_all_total id deps s (λ x h. kept x (known x (ground (arith, h)))) in
    (u, rw e e')

own_links_free :
    (ts : List TaskItem) (id : ℕ) (t : TaskItem)
    → WellFormed ts
    → task_at ts id ≡ some t
    → contains t.blocks id ≡ false
own_links_free ts id t w known = elim (Bool-cases (contains t.blocks id)) [
  | inl self ↦ absurd (w.acyclic id id (rw known self) (Reach.here refl))
  | inr free ↦ free
]

-- A pending task of a well-formed board is completed whatever blockers it still lists: the check for
-- unfinished blockers looks at the status before the change, and the task keeps them listed.
pub complete_ignores_blockers :
    (ts : List TaskItem) (id : ℕ) (t : TaskItem)
    → WellFormed ts
    → task_at ts id ≡ some t
    → t.status ≡ pending
    → (c : Changed) × (apply_status_change ts id pending completed ≡ ok c)
      × (task_at c.tasks id ≡ some (set_status completed t))
unfolding apply_status_change complete find_task validate_unblocked_status
complete_ignores_blockers ts id t w known is_open =
    let (s, e) = unblock_all_total id t.blocks (ts', []) (λ x dep. w'.known id x (rw known' dep)) in
    let u =
      Ensures-ok (λ s. AllUnblocked id t.blocks ts' s.0) (for_each (unblock id) t.blocks (ts', []))
        (unblock_all id t.blocks (ts', [])) e in
    (
      record { tasks = s.0; unblocked = s.1; reblocked = [] },
      rw (known, is_open, known', e, apply_status_change),
      u.others id (own_links_free ts id t w known) ∙ known',
    )
  where
    ts' : List TaskItem
    ts' = write ts id (set_status completed)

    w' : WellFormed ts'
    w' = write_links ts id (set_status completed) (set_status-KeepsLinks completed) w

    known' : task_at ts' id ≡ some (set_status completed t)
    known' = ground (arith, task_at-write ts id (set_status completed) id (λ _. refl), ==_refl id)
