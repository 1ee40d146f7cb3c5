-- ===== src/Tasks/Acyclic.antt =====
-- Cycles of the dependency graph, and the edits that make none.
use mentra.Base.{ℕ, ◌≡◌, sym, List, true, ◌⊎◌, inl, inr, subst}
use mentra.Tasks.Types.{TaskItem}
use mentra.Tasks.Lookup.{edge, Reach}

-- No task reaches itself.
abbrev pub Acyclic : List TaskItem → Type 0
Acyclic ts = (a b : ℕ) → edge ts a b ≡ true → ¬ (Reach ts a b)

abbrev pub EdgesWithin : List TaskItem → List TaskItem → Type 0
EdgesWithin ts' ts = (a b : ℕ) → edge ts' a b ≡ true → edge ts a b ≡ true

Reach-mono :
    (ts ts' : List TaskItem) (goal : ℕ) {a : ℕ}
    → EdgesWithin ts' ts
    → Reach ts' goal a
    → Reach ts goal a
Reach-mono ts ts' goal less (Reach.here e) = Reach.here e
Reach-mono ts ts' goal less (Reach.next b ed path) =
    Reach.next b (less _ b ed) (Reach-mono ts ts' goal less path)

-- Fewer edges make no cycle.
pub Acyclic-mono : (ts ts' : List TaskItem) → EdgesWithin ts' ts → Acyclic ts → Acyclic ts'
Acyclic-mono ts ts' less ok a b ed path = ok a b (less a b ed) (Reach-mono ts ts' a less path)

Reach-trans :
    (ts : List TaskItem) (mid goal : ℕ) {a : ℕ}
    → Reach ts mid a
    → Reach ts goal mid
    → Reach ts goal a
Reach-trans ts mid goal (Reach.here e) q = subst (Reach ts goal) (sym e) q
Reach-trans ts mid goal (Reach.next b ed p) q = Reach.next b ed (Reach-trans ts mid goal p q)

-- The edges of `ts`, and perhaps one more.
abbrev pub EdgesWithOne : List TaskItem → List TaskItem → ℕ → ℕ → Type 0
EdgesWithOne ts' ts from to =
    (a b : ℕ) → edge ts' a b ≡ true → (edge ts a b ≡ true) ⊎ ((a ≡ from) × (b ≡ to))

module _ (ts ts' : List TaskItem) (from to : ℕ) (one : EdgesWithOne ts' ts from to) where
  -- A path of the grown graph is one of the old graph, or its last use of the new edge splits it.
  Reach-split :
      (goal : ℕ) {a : ℕ} → Reach ts' goal a → Reach ts goal a ⊎ (Reach ts from a × Reach ts goal to)
  Reach-split goal (Reach.here e) = inl (Reach.here e)
  Reach-split goal {a} (Reach.next b ed path) = step b (one a b ed) (Reach-split goal path)
    where
      step :
          (b : ℕ)
          → (edge ts a b ≡ true) ⊎ ((a ≡ from) × (b ≡ to))
          → Reach ts goal b ⊎ (Reach ts from b × Reach ts goal to)
          → Reach ts goal a ⊎ (Reach ts from a × Reach ts goal to)
      step b (inl old) (inl p) = inl (Reach.next b old p)
      step b (inl old) (inr (p, q)) = inr (Reach.next b old p, q)
      step b (inr (s, e)) (inl p) = inr (Reach.here s, subst (Reach ts goal) e p)
      step b (inr (s, e)) (inr (p, q)) = inr (Reach.here s, q)

  -- A new edge whose end does not reach its start makes no cycle.
  pub Acyclic-add : ¬ (Reach ts from to) → Acyclic ts → Acyclic ts'
  Acyclic-add apart ok a b ed path = meet (one a b ed) (Reach-split a path)
    where
      meet :
          (edge ts a b ≡ true) ⊎ ((a ≡ from) × (b ≡ to))
          → Reach ts a b ⊎ (Reach ts from b × Reach ts a to)
          → ⊥
      meet (inl old) (inl p) = ok a b old p
      meet (inl old) (inr (p, q)) = apart (Reach-trans ts a from q (Reach.next b old p))
      meet (inr (s, e)) (inl p) = apart (subst (Reach ts from) e (subst (λ g. Reach ts g b) s p))
      meet (inr (s, e)) (inr (p, q)) = apart (subst (Reach ts from) e p)
