-- ===== src/Tasks/Search.antt =====
-- The search of `path_exists` decides reachability: it ends within its fuel, what it finds is a
-- path, and it misses none.
use mentra.Base.{
  ℕ, zero, suc, ◌+◌, ◌≡◌, ◌≢◌, refl, ◌↔◌, none, some, List, [], ◌∷◌, Bool, true, false, ◌||◌, ◌==◌,
  arith, Bool-cases, Option-cases, inl, inr, ==_refl,
}
use mentra.Tasks.Types.{TaskItem}
use mentra.Tasks.Ids.{contains}
use mentra.Tasks.Graph.{task_at, push_all, search_path, edge_count, path_exists}
use mentra.Tasks.Lookup.{Distinct, edge, Reach, last_task-task_at}
use mentra.Tasks.Fuel.{push_all-found, push_all-missed, weight-edge_count, search_path_total}

-- An entry of the stack from which the goal is reached.
abbrev Found : List TaskItem → ℕ → List ℕ → Type 0
Found ts goal stack = (a : ℕ) × (contains stack a ≡ true) × Reach ts goal a

Found-push :
    (ts : List TaskItem) (goal id : ℕ) (t : TaskItem) (stack stack' : List ℕ)
    → task_at ts id ≡ some t
    → ((j : ℕ) → contains stack' j ≡ (contains t.blocks j || contains stack j))
    → Found ts goal stack'
    → Found ts goal (id ∷ stack)
Found-push ts goal id t stack stack' known grown (a, listed, path) =
    elim (Bool-cases (contains t.blocks a)) [
      | inl edge ↦ (id, ground (arith, ==_refl id), Reach.next a (rw known edge) path)
      | inr other ↦ (a, ground (arith, grown a), path)
    ]

search_path_sound :
    (ts : List TaskItem) (goal fuel : ℕ) (visited stack : List ℕ)
    → Distinct ts
    → search_path ts goal fuel visited stack ≡ some true
    → Found ts goal stack
unfolding search_path
search_path_sound ts goal zero visited stack d e = cc
search_path_sound ts goal (suc fuel) visited [] d e = cc
search_path_sound ts goal (suc fuel) visited (id ∷ stack) d e =
    elim (Bool-cases (contains visited id)) [
      | inl old ↦
          let (a, listed, path) =
            search_path_sound ts goal fuel visited stack d (rw (old, search_path) at e) in
          (a, ground (arith, listed), path)
      | inr new ↦ elim (Option-cases (task_at ts id)) [
        | inl gone ↦
            let (a, listed, path) =
              search_path_sound ts goal fuel (id ∷ visited) stack d
                (rw (new, last_task-task_at ts id d, gone, search_path) at e) in
            (a, ground (arith, listed), path)
        | inr (t, known) ↦ elim (Option-cases (push_all goal t.blocks stack)) [
          | inl hit ↦ (
            id,
            ground (arith, ==_refl id),
            Reach.next goal (rw known (push_all-found goal t.blocks stack hit)) (Reach.here refl),
          )
          | inr (stack', miss) ↦
              Found-push ts goal id t stack stack' known
                (push_all-missed goal t.blocks stack stack' miss).2
                (search_path_sound ts goal fuel (id ∷ visited) stack' d
                  (rw (new, last_task-task_at ts id d, known, miss, search_path) at e))
        ]
      ]
    ]

-- What was visited: no edge leads from it to the goal, and each leads to what was visited or is
-- still on the stack.
abbrev Closed : List TaskItem → ℕ → List ℕ → List ℕ → Type 0
Closed ts goal visited stack =
    (a b : ℕ)
    → contains visited a ≡ true
    → edge ts a b ≡ true
    → (b ≢ goal) × ((contains visited b || contains stack b) ≡ true)

-- A set that holds the visited entries and the stack, and that edges do not leave.
abbrev Sealed : List TaskItem → ℕ → List ℕ → List ℕ → Type 0
Sealed ts goal visited stack =
    (all : List ℕ) × Closed ts goal all []
    × ((a : ℕ) → (contains visited a || contains stack a) ≡ true → contains all a ≡ true)

module _ (ts : List TaskItem) (goal id : ℕ) (visited stack : List ℕ)
    (c : Closed ts goal visited (id ∷ stack)) where
  Closed-old : contains visited id ≡ true → Closed ts goal visited stack
  Closed-old old a b seen ed = let (ne, kept) = c a b seen ed in (ne, ground (arith, kept))

  Closed-gone : task_at ts id ≡ none → Closed ts goal (id ∷ visited) stack
  Closed-gone gone a b seen ed = elim (Bool-cases (id == a)) [
    | inl e ↦ let same : id ≡ a = ground arith in cc (rw (← same, gone) at ed)
    | inr e ↦ let (ne, kept) = c a b (ground (arith, seen)) ed in (ne, ground (arith, kept))
  ]

  Closed-push :
      (t : TaskItem) (stack' : List ℕ)
      → task_at ts id ≡ some t
      → contains t.blocks goal ≡ false
      → ((j : ℕ) → contains stack' j ≡ (contains t.blocks j || contains stack j))
      → Closed ts goal (id ∷ visited) stack'
  Closed-push t stack' known miss grown a b seen ed = elim (Bool-cases (id == a)) [
    | inl e ↦
        let same : id ≡ a = ground arith in
        let out : contains t.blocks b ≡ true = rw (← same, known) at ed in
        (λ g. cc miss, ground (arith, grown b, out))
    | inr e ↦
        let (ne, kept) = c a b (ground (arith, seen)) ed in (ne, ground (arith, kept, grown b))
  ]

search_path-Closed :
    (ts : List TaskItem) (goal fuel : ℕ) (visited stack : List ℕ)
    → Distinct ts
    → Closed ts goal visited stack
    → search_path ts goal fuel visited stack ≡ some false
    → Sealed ts goal visited stack
unfolding search_path
search_path-Closed ts goal zero visited stack d c e = cc
search_path-Closed ts goal (suc fuel) visited [] d c e = (visited, c, λ a h. ground (arith, h))
search_path-Closed ts goal (suc fuel) visited (id ∷ stack) d c e =
    elim (Bool-cases (contains visited id)) [
      | inl old ↦
          let (all, shut, holds) =
            search_path-Closed ts goal fuel visited stack d
              (Closed-old ts goal id visited stack c old) (rw (old, search_path) at e) in
          (all, shut, λ a h. holds a (ground (arith, h, old)))
      | inr new ↦ elim (Option-cases (task_at ts id)) [
        | inl gone ↦
            let (all, shut, holds) =
              search_path-Closed ts goal fuel (id ∷ visited) stack d
                (Closed-gone ts goal id visited stack c gone)
                (rw (new, last_task-task_at ts id d, gone, search_path) at e) in
            (all, shut, λ a h. holds a (ground (arith, h)))
        | inr (t, known) ↦ elim (Option-cases (push_all goal t.blocks stack)) [
          | inl hit ↦ cc (rw (new, last_task-task_at ts id d, known, hit, search_path) at e)
          | inr (stack', miss) ↦
              let m = push_all-missed goal t.blocks stack stack' miss in
              let (all, shut, holds) =
                search_path-Closed ts goal fuel (id ∷ visited) stack' d
                  (Closed-push ts goal id visited stack c t stack' known m.0 m.2)
                  (rw (new, last_task-task_at ts id d, known, miss, search_path) at e) in
              (all, shut, λ a h. holds a (ground (arith, h, m.2 a)))
        ]
      ]
    ]

Closed-avoids :
    (ts : List TaskItem) (goal : ℕ) (all : List ℕ) (a : ℕ)
    → Closed ts goal all []
    → contains all a ≡ true
    → a ≢ goal
    → ¬ (Reach ts goal a)
Closed-avoids ts goal all a c member ne (Reach.here e) = ne e
Closed-avoids ts goal all a c member ne (Reach.next b ed path) =
    let (ne', kept) = c a b member ed in
    Closed-avoids ts goal all b c (ground (arith, kept)) ne' path

-- On tasks with distinct ids, `path_exists` holds exactly if the goal is reached from the start
-- along the edges: the search ends, finds only paths and misses none, also in a graph with cycles.
pub path_exists_iff :
    (ts : List TaskItem) (start goal : ℕ)
    → Distinct ts
    → (path_exists ts start goal ≡ true) ↔ Reach ts goal start
unfolding path_exists
path_exists_iff ts start goal d = elim (Bool-cases (start == goal)) [
  | inl e ↦ (λ _. Reach.here (ground arith), λ _. rw e)
  | inr apart ↦
      go
        (search_path_total ts goal (edge_count ts + 2) [] (start ∷ []) d
          (omega (arith, weight-edge_count ts)))
        apart
]
  where
    go :
        ((found : Bool) × (search_path ts goal (edge_count ts + 2) [] (start ∷ []) ≡ some found))
        → (start == goal) ≡ false
        → (path_exists ts start goal ≡ true) ↔ Reach ts goal start
    go (true, e) apart = (
      λ _.
          let (a, listed, path) =
            search_path_sound ts goal (edge_count ts + 2) [] (start ∷ []) d e in
          let same : a ≡ start = ground arith in rw same at path,
      λ _. rw (apart, e, path_exists),
    )
    go (false, e) apart = (
      λ h. cc (rw (apart, e, path_exists) at h),
      λ path.
          let (all, shut, holds) =
            search_path-Closed ts goal (edge_count ts + 2) [] (start ∷ []) d
              (λ a b seen ed. cc seen) e in
          absurd (
            Closed-avoids ts goal all start shut (holds start (ground (arith, ==_refl start)))
              (ground arith) path),
    )
