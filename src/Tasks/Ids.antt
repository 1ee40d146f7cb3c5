-- ===== src/Tasks/Ids.antt =====
-- The lists of task ids (mentra/src/runtime/task/graph.rs): `sort_and_dedup_ids`, `insert_id` and
-- `remove_id`. An id is a `u64`.
use mentra.Base.{
  ℕ, ◌≡◌, refl, List, [], ◌∷◌, ◌++◌, Bool, true, false, not, ◌&&◌, ◌||◌, ltb, ◌==◌, if◌then◌else◌,
  any, retain, length, arith,
}

-- `ids.contains(&id)`.
abbrev pub contains : List ℕ → ℕ → Bool
contains ids id = any (λ i. i == id) ids

-- Insertion into a `BTreeSet`, as its ascending list.
unfoldable pub insert_sorted : ℕ → List ℕ → List ℕ
insert_sorted id [] = id ∷ []
insert_sorted id (i ∷ is) =
    if ltb id i then id ∷ i ∷ is else (if id == i then i ∷ is else i ∷ insert_sorted id is)

unfoldable pub sort_and_dedup_ids : List ℕ → List ℕ
sort_and_dedup_ids [] = []
sort_and_dedup_ids (i ∷ is) = insert_sorted i (sort_and_dedup_ids is)

-- The list after the call, and the call's result.
unfoldable pub insert_id : List ℕ → ℕ → List ℕ × Bool
insert_id ids id =
    if contains ids id then (ids, false) else (sort_and_dedup_ids (ids ++ id ∷ []), true)

unfoldable pub remove_id : List ℕ → ℕ → List ℕ × Bool
remove_id ids id =
    (let kept = retain (λ current. not (current == id)) ids in
      (kept, not (length ids == length kept)))

contains-insert_sorted :
    (id j : ℕ) (is : List ℕ) → contains (insert_sorted id is) j ≡ (id == j || contains is j)
unfolding insert_sorted
contains-insert_sorted id j [] = refl
contains-insert_sorted id j (i ∷ is) = ground (arith, contains-insert_sorted id j is)

contains-sort : (is : List ℕ) (j : ℕ) → contains (sort_and_dedup_ids is) j ≡ contains is j
unfolding sort_and_dedup_ids
contains-sort [] j = refl
contains-sort (i ∷ is) j =
    ground (arith, contains-insert_sorted i j (sort_and_dedup_ids is), contains-sort is j)

contains-append : (is : List ℕ) (id j : ℕ) → contains (is ++ id ∷ []) j ≡ (contains is j || id == j)
contains-append [] id j = ground arith
contains-append (i ∷ is) id j = ground (arith, contains-append is id j)

pub contains-insert_id :
    (ids : List ℕ) (id j : ℕ) → contains (insert_id ids id).0 j ≡ (contains ids j || id == j)
unfolding insert_id
contains-insert_id ids id j =
    ground (arith, contains-sort (ids ++ id ∷ []) j, contains-append ids id j)

pub contains-retain :
    (ids : List ℕ) (id j : ℕ)
    → contains (retain (λ current. not (current == id)) ids) j ≡ (contains ids j && not (j == id))
contains-retain [] id j = refl
contains-retain (i ∷ is) id j = ground (arith, contains-retain is id j)

pub contains-remove_id :
    (ids : List ℕ) (id j : ℕ) → contains (remove_id ids id).0 j ≡ (contains ids j && not (j == id))
unfolding remove_id
contains-remove_id ids id j = contains-retain ids id j
