-- ===== src/Truncation/Taken.antt =====
-- The loops of the two windows: the lines that `take_head` and `take_tail` take.
use mentra.Base.{
  ℕ, suc, ◌+◌, ◌-◌, ◌≤◌, ◌≡◌, refl, ap, subst, List, [], ◌∷◌, ◌++◌, ◌||◌, ◌==◌, ltb, length, ◌<◌,
  ◌⊎◌, Bool-cases, inl, inr, arith,
}
use mentra.Base.Text.{Text}
use mentra.Base.Strings.{bytes}
use mentra.Truncation.Limit.{Budget, take_head, take_tail}
use mentra.Truncation.Lines.{total}

cons_head : (x y : Text) (xs ys : List Text) → ◌≡◌ {A = List Text} (x ∷ xs) (y ∷ ys) → x ≡ y
cons_head x y xs ys e = cc

-- The first lines, as many as the head's budget takes.
abbrev pub Headed : Budget → ℕ → ℕ → List Text → ℕ × ℕ → Type 0
Headed b shown_bytes shown_lines lines (bytes', lines') =
    (a : List Text) × (rest : List Text) × (lines ≡ a ++ rest)
    × (bytes' ≡ shown_bytes + total a)
    × (lines' ≡ shown_lines + length a)
    × (bytes' ≤ b.head_bytes)
    × (lines' ≤ b.head_lines)
    × ((l : Text) (more : List Text)
        → rest ≡ l ∷ more
        → (lines' ≡ b.head_lines) ⊎ (b.head_bytes < bytes' + bytes l))

pub take_head-Headed :
    (b : Budget) (shown_bytes shown_lines : ℕ) (lines : List Text)
    → shown_bytes ≤ b.head_bytes
    → shown_lines ≤ b.head_lines
    → Headed b shown_bytes shown_lines lines
        (take_head b.head_bytes b.head_lines shown_bytes shown_lines lines)
unfolding take_head
take_head-Headed b shown_bytes shown_lines [] lb ll =
    ([], [], refl, omega arith, omega arith, lb, ll, λ l more e. cc)
take_head-Headed b shown_bytes shown_lines (line ∷ lines) lb ll =
    elim (Bool-cases (shown_lines == b.head_lines || ltb b.head_bytes (shown_bytes + bytes line))) [
      | inl stops ↦ rw stops (
        [],
        line ∷ lines,
        refl,
        omega arith,
        omega arith,
        lb,
        ll,
        λ l more e.
            subst (λ z. (shown_lines ≡ b.head_lines) ⊎ (b.head_bytes < shown_bytes + bytes z))
              (cons_head line l lines more e) (ground arith),
      )
      | inr on ↦
          let (a, rest, split, e, f, g, h, full) =
            take_head-Headed b (shown_bytes + bytes line) (suc shown_lines) lines (ground arith)
              (ground arith) in
          rw on (line ∷ a, rest, ap (λ z. line ∷ z) split, omega arith, omega arith, g, h, full)
    ]

-- The last lines, as many as the tail's budget takes behind what the head shows.
abbrev pub Tailed : Budget → ℕ → ℕ → ℕ → List Text → ℕ × ℕ → Type 0
Tailed b shown len kept lines (start, kept') =
    (taken : List Text) × (left : List Text) × (lines ≡ taken ++ left)
    × (start ≡ total left)
    × (kept' ≡ kept + length taken)
    × (shown ≤ start)
    × (kept' ≤ b.tail_lines)
    × (len - start ≤ b.tail_bytes)
    × ((l : Text) (more : List Text)
        → left ≡ l ∷ more
        → (start - bytes l < shown)
          ⊎ ((kept' ≡ b.tail_lines) ⊎ (b.tail_bytes < len - (start - bytes l))))

pub take_tail-Tailed :
    (b : Budget) (shown len start kept : ℕ) (lines : List Text)
    → start ≡ total lines
    → shown ≤ start
    → kept ≤ b.tail_lines
    → len - start ≤ b.tail_bytes
    → Tailed b shown len kept lines (take_tail b shown len start kept lines)
unfolding take_tail
take_tail-Tailed b shown len start kept [] e ls lk lt =
    ([], [], refl, e, omega arith, ls, lk, lt, λ l more e. cc)
take_tail-Tailed b shown len start kept (line ∷ lines) e ls lk lt =
    elim (Bool-cases (
      ltb (start - bytes line) shown
      || (kept == b.tail_lines || ltb b.tail_bytes (len - (start - bytes line))))) [
        | inl stops ↦ rw stops (
          [],
          line ∷ lines,
          refl,
          e,
          omega arith,
          ls,
          lk,
          lt,
          λ l more q.
              subst
                (λ z.
                  (start - bytes z < shown)
                  ⊎ ((kept ≡ b.tail_lines) ⊎ (b.tail_bytes < len - (start - bytes z))))
                (cons_head line l lines more q) (ground arith),
        )
        | inr on ↦
            let (taken, left, split, f, g, h, i, j, full) =
              take_tail-Tailed b shown len (start - bytes line) (suc kept) lines (omega arith)
                (ground arith) (ground arith) (ground arith) in
            rw on (line ∷ taken, left, ap (λ z. line ∷ z) split, f, omega arith, h, i, j, full)
      ]
