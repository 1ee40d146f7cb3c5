-- ===== src/Tasks/Fuel.antt =====
-- The search of `path_exists` ends within its fuel: the edges that are left bound its rounds.
use mentra.Base.{
  ℕ, zero, suc, ◌+◌, ◌≤◌, ◌<◌, ◌≡◌, refl, none, some, List, [], ◌∷◌, Bool, true, false, ◌||◌, ◌==◌,
  if◌then◌else◌, arith, Bool-cases, Option-cases, inl, inr, length,
}
use mentra.Tasks.Types.{TaskItem}
use mentra.Tasks.Ids.{contains}
use mentra.Tasks.Graph.{task_at, push_all, search_path, edge_count}
use mentra.Tasks.Lookup.{Distinct, last_task-task_at}

pub push_all-found :
    (goal : ℕ) (ns stack : List ℕ) → push_all goal ns stack ≡ none → contains ns goal ≡ true
unfolding push_all
push_all-found goal [] stack e = cc
push_all-found goal (n ∷ ns) stack e = ground (arith, push_all-found goal ns (n ∷ stack))

pub push_all-missed :
    (goal : ℕ) (ns stack stack' : List ℕ)
    → push_all goal ns stack ≡ some stack'
    → (contains ns goal ≡ false)
      × (length stack' ≡ length ns + length stack)
      × ((j : ℕ) → contains stack' j ≡ (contains ns j || contains stack j))
unfolding push_all
push_all-missed goal [] stack stack' e = (refl, ground (arith, e), λ j. ground (arith, e))
push_all-missed goal (n ∷ ns) stack stack' e = elim (Bool-cases (n == goal)) [
  | inl hit ↦ cc (rw hit at e)
  | inr miss ↦
      let (a, b, c) = push_all-missed goal ns (n ∷ stack) stack' (rw miss at e) in
      (ground (arith, a), omega (arith, b), λ j. ground (arith, c j))
]

-- The edges that a task not yet visited still adds.
abbrev pub weight : List ℕ → List TaskItem → ℕ
weight visited [] = 0
weight visited (t ∷ ts) = (if contains visited t.id then 0 else length t.blocks) + weight visited ts

pub weight-edge_count : (ts : List TaskItem) → weight [] ts ≡ edge_count ts
unfolding edge_count
weight-edge_count [] = refl
weight-edge_count (t ∷ ts) = rw (weight-edge_count ts)

weight-le :
    (id : ℕ) (visited : List ℕ) (ts : List TaskItem) → weight (id ∷ visited) ts ≤ weight visited ts
weight-le id visited [] = omega arith
weight-le id visited (t ∷ ts) = ground (arith, weight-le id visited ts)

weight-visit :
    (id : ℕ) (visited : List ℕ) (ts : List TaskItem) (t : TaskItem)
    → contains visited id ≡ false
    → task_at ts id ≡ some t
    → length t.blocks + weight (id ∷ visited) ts ≤ weight visited ts
weight-visit id visited [] t new e = cc
weight-visit id visited (u ∷ us) t new e =
    ground (arith, weight-le id visited us, weight-visit id visited us t new)

-- Enough fuel for the entries on the stack and those still to come.
pub search_path_total :
    (ts : List TaskItem) (goal fuel : ℕ) (visited stack : List ℕ)
    → Distinct ts
    → length stack + weight visited ts < fuel
    → (found : Bool) × (search_path ts goal fuel visited stack ≡ some found)
unfolding search_path
search_path_total ts goal zero visited stack d lt = absurd (omega arith)
search_path_total ts goal (suc fuel) visited [] d lt = (false, refl)
search_path_total ts goal (suc fuel) visited (id ∷ stack) d lt =
    elim (Bool-cases (contains visited id)) [
      | inl old ↦
          rw (old, search_path) (search_path_total ts goal fuel visited stack d (omega arith))
      | inr new ↦ elim (Option-cases (task_at ts id)) [
        | inl gone ↦
            rw (new, last_task-task_at ts id d, gone, search_path)
              (search_path_total ts goal fuel (id ∷ visited) stack d
                (omega (arith, weight-le id visited ts)))
        | inr (t, known) ↦ elim (Option-cases (push_all goal t.blocks stack)) [
          | inl hit ↦ (true, rw (new, last_task-task_at ts id d, known, hit, search_path))
          | inr (stack', miss) ↦
              rw (new, last_task-task_at ts id d, known, miss, search_path)
                (search_path_total ts goal fuel (id ∷ visited) stack' d (
                  omega (
                    arith,
                    weight-visit id visited ts t new known,
                    (push_all-missed goal t.blocks stack stack' miss).1,
                  )))
        ]
      ]
    ]
