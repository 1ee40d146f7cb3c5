-- ===== src/Paging/Slices.antt =====
-- Slices at the ends of lines are the lines: byte offsets and lists of lines agree.
use mentra.Base.{
  ℕ, zero, suc, ◌-◌, ◌≤◌, ◌<◌, ◌≡◌, refl, ap, [], ◌∷◌, ◌++◌, true, false, Bool-cases, inl, inr,
  ◌==◌, arith, leb,
}
use mentra.Base.Text.{Text}
use mentra.Base.Strings.{utf8_len, bytes, is_char_boundary}
use mentra.Paging.Window.{floor_boundary}

-- A boundary is the end of a prefix.
abbrev pub Prefix : ℕ → Text → Type 0
Prefix n text = (a : Text) × (b : Text) × (text ≡ a ++ b) × (bytes a ≡ n)

pub is_char_boundary-Prefix : (n : ℕ) (text : Text) → is_char_boundary n text ≡ true → Prefix n text
unfolding is_char_boundary bytes
is_char_boundary-Prefix zero text e = ([], text, refl, refl)
is_char_boundary-Prefix (suc n) [] e = cc
is_char_boundary-Prefix (suc n) (c ∷ text) e = elim (Bool-cases (leb (utf8_len c) (suc n))) [
  | inl fits ↦
      let (a, b, t, k) = is_char_boundary-Prefix (suc n - utf8_len c) text (rw fits at e) in
      let le : utf8_len c ≤ suc n = ground arith in (c ∷ a, b, ap (λ z. c ∷ z) t, omega arith)
  | inr over ↦ cc (rw over at e)
]

pub floor_boundary-Prefix : (end : ℕ) (line : Text) → Prefix (floor_boundary end line) line
unfolding floor_boundary bytes
floor_boundary-Prefix zero line = ([], line, refl, refl)
floor_boundary-Prefix (suc end) line = elim (Bool-cases (is_char_boundary (suc end) line)) [
  | inl here ↦ rw here (is_char_boundary-Prefix (suc end) line here)
  | inr off ↦ rw off (floor_boundary-Prefix end line)
]

-- It is the last boundary up to `end`.
pub floor_boundary-last :
    (end : ℕ) (line : Text)
    → (floor_boundary end line ≤ end)
      × ((n : ℕ) → floor_boundary end line < n → n ≤ end → is_char_boundary n line ≡ false)
unfolding floor_boundary
floor_boundary-last zero line = (omega arith, λ n a b. absurd (omega arith))
floor_boundary-last (suc end) line = elim (Bool-cases (is_char_boundary (suc end) line)) [
  | inl here ↦ rw here (omega arith, λ n a b. absurd (omega arith))
  | inr off ↦
      let (le, last) = floor_boundary-last end line in
      rw off (
        omega arith,
        λ n a b. elim (Bool-cases (n == suc end)) [
          | inl same ↦ let e : n ≡ suc end = ground arith in rw e off
          | inr other ↦ last n a (ground arith)
        ],
      )
]
