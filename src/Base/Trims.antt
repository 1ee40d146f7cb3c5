-- ===== src/Base/Trims.antt =====
-- Trimming and splitting texts whose ends or characters are known.
use mathlib.Core.List.{reverse, reverse-append, reverse-reverse}
use mentra.Base.{
  ℕ, ◌≡◌, ◌∙◌, refl, sym, ap, some, [], ◌∷◌, ◌++◌, Bool, true, false, not, ◌&&◌, ◌==◌, Bool-cases,
  inl, inr, arith,
}
use mentra.Base.Text.{Text, is_whitespace, trim_start, trim}
use mentra.Base.Strings.{
  onto_first, split_inclusive, trim_start_matches, trim_end_matches, before, split_once, drop_break,
  without_break,
}

-- Every character passes the test.
abbrev pub all_chars : (ℕ → Bool) → Text → Bool
all_chars p [] = true
all_chars p (c ∷ s) = p c && all_chars p s

pub all_chars-append :
    (p : ℕ → Bool) (a b : Text)
    → all_chars p a ≡ true
    → all_chars p b ≡ true
    → all_chars p (a ++ b) ≡ true
all_chars-append p [] b x y = y
all_chars-append p (c ∷ a) b x y = ground (arith, all_chars-append p a b)

pub all_chars_mono :
    (p q : ℕ → Bool) (a : Text)
    → ((c : ℕ) → p c ≡ true → q c ≡ true)
    → all_chars p a ≡ true
    → all_chars q a ≡ true
all_chars_mono p q [] le x = refl
all_chars_mono p q (c ∷ a) le x = ground (arith, all_chars_mono p q a le, le c)

-- The last character of a text that has one.
pub all_chars_last :
    (p : ℕ → Bool) (c : ℕ) (s : Text)
    → all_chars p (c ∷ s) ≡ true
    → (t : Text) × (d : ℕ) × (c ∷ s ≡ t ++ (d ∷ [])) × (p d ≡ true)
all_chars_last p c [] x = ([], c, refl, ground arith)
all_chars_last p c (d ∷ s) x =
    let (t, e, split, good) = all_chars_last p d s (ground arith) in
    (c ∷ t, e, ap (λ z. c ∷ z) split, good)

reverse_last : (t : Text) (d : ℕ) → reverse (t ++ (d ∷ [])) ≡ d ∷ reverse t
reverse_last t d = reverse-append t (d ∷ [])

trim_start_solid : (c : ℕ) (s : Text) → is_whitespace c ≡ false → trim_start (c ∷ s) ≡ c ∷ s
unfolding trim_start
trim_start_solid c s solid = rw solid refl

-- A text between two characters that are no whitespace stays as it is.
pub trim_solid :
    (c d : ℕ) (s t : Text)
    → c ∷ s ≡ t ++ (d ∷ [])
    → is_whitespace c ≡ false
    → is_whitespace d ≡ false
    → trim (c ∷ s) ≡ c ∷ s
unfolding trim
trim_solid c d s t split first last =
    ap (λ z. reverse (trim_start (reverse z))) (trim_start_solid c s first ∙ split)
    ∙ ap (λ z. reverse (trim_start z)) (reverse_last t d)
    ∙ ap reverse (trim_start_solid d (reverse t) last ∙ sym (reverse_last t d))
    ∙ reverse-reverse (t ++ (d ∷ []))
    ∙ sym split

pub trim-space : (s : Text) → trim (b' ' ∷ s) ≡ trim s
unfolding trim trim_start is_whitespace
trim-space s = refl

pub trim_end_matches-solid :
    (p : ℕ → Bool) (t : Text) (d : ℕ)
    → p d ≡ false
    → trim_end_matches p (t ++ (d ∷ [])) ≡ t ++ (d ∷ [])
unfolding trim_start_matches
trim_end_matches-solid p t d solid =
    ap (λ z. reverse (trim_start_matches p z)) (reverse_last t d)
    ∙ rw solid (ap reverse (sym (reverse_last t d)) ∙ reverse-reverse (t ++ (d ∷ [])))

pub trim_end_matches-skips :
    (p : ℕ → Bool) (t : Text) (d : ℕ)
    → p d ≡ true
    → trim_end_matches p (t ++ (d ∷ [])) ≡ trim_end_matches p t
unfolding trim_start_matches
trim_end_matches-skips p t d skipped =
    ap (λ z. reverse (trim_start_matches p z)) (reverse_last t d) ∙ rw skipped refl

-- A split at a character that the first part does not have.
pub split_once_first :
    (at_char : ℕ) (key rest : Text)
    → all_chars (λ c. not (c == at_char)) key ≡ true
    → split_once at_char (key ++ (at_char ∷ rest)) ≡ some (key, rest)
unfolding split_once
split_once_first at_char [] rest x = ground arith
split_once_first at_char (c ∷ key) rest x = elim (Bool-cases (c == at_char)) [
  | inl here ↦ ground arith
  | inr on ↦ rw on (ap (before c) (split_once_first at_char key rest (ground arith)))
]

-- The characters of a line.
abbrev pub in_line : ℕ → Bool
in_line c = not (c == b'\n')

pub split_inclusive_line :
    (line rest : Text)
    → all_chars in_line line ≡ true
    → split_inclusive (line ++ (b'\n' ∷ rest)) ≡ (line ++ (b'\n' ∷ [])) ∷ split_inclusive rest
unfolding split_inclusive
split_inclusive_line [] rest x = refl
split_inclusive_line (c ∷ line) rest x = elim (Bool-cases (c == b'\n')) [
  | inl breaks ↦ ground arith
  | inr on ↦ rw on (ap (onto_first c) (split_inclusive_line line rest (ground arith)))
]

-- A line that does not end with `\r` comes back from its line break.
pub without_break_solid :
    (t : Text) (d : ℕ)
    → (d == b'\r') ≡ false
    → without_break ((t ++ (d ∷ [])) ++ (b'\n' ∷ [])) ≡ t ++ (d ∷ [])
without_break_solid t d solid =
    let line = t ++ (d ∷ []) in
    ap (drop_break (line ++ (b'\n' ∷ [])))
      (reverse_last line b'\n' ∙ ap (λ z. b'\n' ∷ z) (reverse_last t d))
    ∙ rw solid (ap reverse (sym (reverse_last t d)) ∙ reverse-reverse line)
