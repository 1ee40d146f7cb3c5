-- ===== src/Truncation/Lines.antt =====
-- Lists of lines: their bytes, their number, and which of two starts is the longer.
use mentra.Base.{
  ℕ, ◌+◌, ◌≤◌, ◌≡◌, ◌∙◌, refl, sym, ap, List, [], ◌∷◌, ◌++◌, Bool, true, ◌==◌, if◌then◌else◌,
  length, length-append, join, All, Bool-cases, inl, inr, arith,
}
use mathlib.Core.List.{reverse, reverse-append, append_assoc}
use mentra.Base.Text.{Text}
use mentra.Base.Strings.{bytes, split_inclusive, onto_first, starts_with}
use mentra.Base.Trims.{all_chars, all_chars_last}
use mentra.Base.Slices.{utf8_len-pos, bytes-append}
use mentra.Truncation.Limit.{count_breaks, ends_with_break, line_count}

abbrev pub total : List Text → ℕ
total [] = 0
total (line ∷ lines) = bytes line + total lines

pub total-append : (a b : List Text) → total (a ++ b) ≡ total a + total b
total-append [] b = omega arith
total-append (l ∷ a) b = omega (arith, total-append a b)

pub total-reverse : (a : List Text) → total (reverse a) ≡ total a
total-reverse [] = refl
total-reverse (l ∷ a) =
    ap total (reverse-append (l ∷ []) a)
    ∙ total-append (reverse a) (l ∷ [])
    ∙ (let r = total-reverse a in omega arith)

pub length-reverse : (a : List Text) → length (reverse a) ≡ length a
length-reverse [] = refl
length-reverse (l ∷ a) =
    ap length (reverse-append (l ∷ []) a)
    ∙ length-append (reverse a) (l ∷ [])
    ∙ (let r = length-reverse a in omega arith)

pub bytes-join : (a : List Text) → bytes (join a) ≡ total a
unfolding bytes
bytes-join [] = refl
bytes-join (l ∷ a) = bytes-append l (join a) ∙ ap (λ z. bytes l + z) (bytes-join a)

pub join-append : (a b : List Text) → join (a ++ b) ≡ join a ++ join b
join-append [] b = refl
join-append (l ∷ a) b = ap (λ z. l ++ z) (join-append a b) ∙ sym (append_assoc l (join a) (join b))

-- Every line of a text has a byte.
abbrev pub Long : List Text → Type 0
Long lines = All (λ line. 1 ≤ bytes line) lines

pub split_inclusive-Long : (text : Text) → Long (split_inclusive text)
unfolding split_inclusive bytes
split_inclusive-Long [] = tt
split_inclusive-Long (c ∷ text) = elim (Bool-cases (c == b'\n')) [
  | inl breaks ↦ rw breaks (let p = utf8_len-pos c in omega arith, split_inclusive-Long text)
  | inr on ↦ rw on (onto (split_inclusive text) (split_inclusive-Long text))
]
  where
    onto : (lines : List Text) → Long lines → Long (onto_first c lines)
    onto [] all = (let p = utf8_len-pos c in omega arith, tt)
    onto (line ∷ lines) all = (let p = utf8_len-pos c in omega arith, all.1)

-- Of two starts of the same lines, the shorter one starts the longer.
pub starts_longer :
    (xs ys zs ws : List Text)
    → Long xs
    → xs ++ ys ≡ zs ++ ws
    → total xs ≤ total zs
    → (m : List Text) × (zs ≡ xs ++ m)
starts_longer [] ys zs ws long same le = (zs, refl)
starts_longer (x ∷ xs) ys [] ws long same le = absurd (omega (arith, long.0))
starts_longer (x ∷ xs) ys (z ∷ zs) ws long same le =
    let line : x ≡ z = cc in
    let size = ap bytes line in
    let (m, e) = starts_longer xs ys zs ws long.1 (cc) (omega arith) in (m, cc)

pub Long-start : (a b : List Text) → Long (a ++ b) → Long a
Long-start [] b all = tt
Long-start (l ∷ a) b all = (all.0, Long-start a b all.1)

-- The number of lines that the notice gives.
add_assoc : (x y z : ℕ) → (x + y) + z ≡ x + (y + z)
add_assoc x y z = omega arith

all_true : (s : Text) → all_chars (λ _. true) s ≡ true
all_true [] = refl
all_true (c ∷ s) = all_true s

starts_with-reverse :
    (p : ℕ → Bool) (c d : ℕ) (t : Text)
    → starts_with p (reverse (c ∷ d ∷ t)) ≡ starts_with p (reverse (d ∷ t))
starts_with-reverse p c d t =
    let (u, e, split, _) = all_chars_last (λ _. true) d t (all_true t) in
    ap (λ z. starts_with p (reverse (c ∷ z))) split
    ∙ ap (starts_with p) (reverse-append (c ∷ u) (e ∷ []))
    ∙ sym
        (ap (λ z. starts_with p (reverse z)) split ∙ ap (starts_with p) (reverse-append u (e ∷ [])))

some_line : (c : ℕ) (text : Text) → 1 ≤ length (split_inclusive (c ∷ text))
unfolding split_inclusive
some_line c text = elim (Bool-cases (c == b'\n')) [
  | inl breaks ↦ rw breaks (omega arith)
  | inr on ↦ rw on (first (split_inclusive text))
]
  where
    first : (lines : List Text) → 1 ≤ length (onto_first c lines)
    first [] = omega arith
    first (line ∷ lines) = omega arith

length-onto_first :
    (c : ℕ) (lines : List Text) → 1 ≤ length lines → length (onto_first c lines) ≡ length lines
length-onto_first c [] some_lines = absurd (omega arith)
length-onto_first c (line ∷ lines) some_lines = refl

length-split_inclusive :
    (c d : ℕ) (text : Text)
    → length (split_inclusive (c ∷ d ∷ text))
      ≡ (if c == b'\n' then 1 else 0) + length (split_inclusive (d ∷ text))
unfolding split_inclusive
length-split_inclusive c d text = elim (Bool-cases (c == b'\n')) [
  | inl breaks ↦ rw breaks (omega arith)
  | inr on ↦
      rw on (length-onto_first c (split_inclusive (d ∷ text)) (some_line d text) ∙ omega arith)
]

pub line_count-lines : (text : Text) → line_count text ≡ length (split_inclusive text)
unfolding split_inclusive count_breaks
line_count-lines [] = refl
line_count-lines (c ∷ []) = ground arith
line_count-lines (c ∷ d ∷ text) =
    let here = if c == b'\n' then 1 else 0 in
    ap (λ z. (here + count_breaks (d ∷ text)) + (if z then 0 else 1))
      (starts_with-reverse (λ x. x == b'\n') c d text)
    ∙ add_assoc here (count_breaks (d ∷ text)) (if ends_with_break (d ∷ text) then 0 else 1)
    ∙ ap (λ z. here + z) (line_count-lines (d ∷ text))
    ∙ sym (length-split_inclusive c d text)
