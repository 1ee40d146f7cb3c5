-- ===== src/Base/Slices.antt =====
-- Slices of a text that is put together.
use mentra.Base.{
  sym, join, ℕ, zero, suc, ◌+◌, ◌-◌, ◌≤◌, ◌≡◌, ◌∙◌, refl, ap, some, List, [], ◌∷◌, ◌++◌, true,
  Bool-cases, inl, inr, ◌==◌, arith, leb,
}
use mentra.Base.Text.{Text}
use mentra.Base.Strings.{
  utf8_len, bytes, onto_first, split_inclusive, cons_some, slice_from, slice_to,
}

pub utf8_len-pos : (c : ℕ) → 1 ≤ utf8_len c
utf8_len-pos c = ground arith

pub bytes-append : (a b : Text) → bytes (a ++ b) ≡ bytes a + bytes b
unfolding bytes
bytes-append [] b = omega arith
bytes-append (c ∷ a) b = omega (arith, bytes-append a b)

slice_from-cons :
    (n k c : ℕ) (text : Text) → n ≡ utf8_len c + k → slice_from n (c ∷ text) ≡ slice_from k text
unfolding slice_from
slice_from-cons zero k c text e = let p = utf8_len-pos c in absurd (omega arith)
slice_from-cons (suc n) k c text e =
    let fits : leb (utf8_len c) (suc n) ≡ true = ground arith in
    let left : suc n - utf8_len c ≡ k = omega arith in rw (fits, left) refl

slice_to-cons :
    (n k c : ℕ) (text : Text)
    → n ≡ utf8_len c + k
    → slice_to n (c ∷ text) ≡ cons_some c (slice_to k text)
unfolding slice_to
slice_to-cons zero k c text e = let p = utf8_len-pos c in absurd (omega arith)
slice_to-cons (suc n) k c text e =
    let fits : leb (utf8_len c) (suc n) ≡ true = ground arith in
    let left : suc n - utf8_len c ≡ k = omega arith in rw (fits, left) refl

-- A slice from further on leaves out the prefix.
pub slice_from-skip : (a b : Text) (n : ℕ) → slice_from (bytes a + n) (a ++ b) ≡ slice_from n b
unfolding bytes
slice_from-skip [] b n = ap (λ z. slice_from z b) (omega arith)
slice_from-skip (c ∷ a) b n =
    slice_from-cons (utf8_len c + bytes a + n) (bytes a + n) c (a ++ b) (omega arith)
    ∙ slice_from-skip a b n

-- At the byte offset where a prefix ends, the rest follows.
pub slice_from-append : (a b : Text) → slice_from (bytes a) (a ++ b) ≡ some b
unfolding slice_from
slice_from-append a b = ap (λ n. slice_from n (a ++ b)) (omega arith) ∙ slice_from-skip a b 0

-- At the byte offset where a prefix ends, a slice is that prefix.
pub slice_to-append : (a b : Text) → slice_to (bytes a) (a ++ b) ≡ some a
unfolding bytes slice_to
slice_to-append [] b = refl
slice_to-append (c ∷ a) b =
    slice_to-cons (utf8_len c + bytes a) (bytes a) c (a ++ b) refl
    ∙ ap (cons_some c) (slice_to-append a b)

-- Whether `line` comes first and `lines` after it.
abbrev pub Splits : Text → Text → List Text → Type 0
Splits text line lines = (rest : Text) × (text ≡ line ++ rest) × (split_inclusive rest ≡ lines)

Splits-cons :
    (c : ℕ) (text : Text) (lines : List Text)
    → split_inclusive text ≡ lines
    → (lines ≡ [] → text ≡ [])
    → ((l : Text) (ls : List Text) → lines ≡ l ∷ ls → Splits text l ls)
    → (l : Text) (ls : List Text) → onto_first c lines ≡ l ∷ ls
    → Splits (c ∷ text) l ls
unfolding split_inclusive
Splits-cons c text [] e empty later l ls o = ([], cc (empty refl), cc)
Splits-cons c text (k ∷ ks) e empty later l ls o =
    let (rest, t, s) = later k ks refl in (rest, cc, cc)

pub split_inclusive-empty : (text : Text) → split_inclusive text ≡ [] → text ≡ []
unfolding split_inclusive
split_inclusive-empty [] e = refl
split_inclusive-empty (c ∷ text) e = elim (Bool-cases (c == b'\n')) [
  | inl breaks ↦ cc (rw breaks at e)
  | inr goes ↦ absurd (never (split_inclusive text) (rw goes at e))
]
  where
    never : (lines : List Text) → ¬ (onto_first c lines ≡ [])
    never [] e = cc
    never (l ∷ ls) e = cc

-- The first line, and what the others come from.
pub split_inclusive-Splits :
    (text line : Text) (lines : List Text)
    → split_inclusive text ≡ line ∷ lines
    → Splits text line lines
unfolding split_inclusive
split_inclusive-Splits [] line lines e = cc
split_inclusive-Splits (c ∷ text) line lines e = elim (Bool-cases (c == b'\n')) [
  | inl breaks ↦
      let same : (c ∷ []) ∷ split_inclusive text ≡ line ∷ lines = rw breaks at e in (text, cc, cc)
  | inr goes ↦
      Splits-cons c text (split_inclusive text) refl (split_inclusive-empty text)
        (λ l ls x. split_inclusive-Splits text l ls x) line lines (rw goes at e)
]

-- The lines make up the text.
pub join-lines :
    (text : Text) (lines : List Text) → split_inclusive text ≡ lines → join lines ≡ text
join-lines text [] e = sym (split_inclusive-empty text e)
join-lines text (l ∷ ls) e =
    let (r, t, s) = split_inclusive-Splits text l ls e in
    ap (λ z. l ++ z) (join-lines r ls s) ∙ sym t
