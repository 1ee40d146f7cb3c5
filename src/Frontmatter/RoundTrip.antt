-- ===== src/Frontmatter/RoundTrip.antt =====
-- Every text is read back from its quoted form, and reading always ends.
use mentra.Base.{
  take, drop, ℕ, zero, suc, ◌+◌, ◌*◌, ◌/◌, ◌%◌, ◌≤◌, ◌<◌, ◌≡◌, ◌∙◌, refl, sym, ap, subst, Option,
  none, some, [], ◌∷◌, ◌++◌, true, false, ◌==◌, Bool-cases, inl, inr, arith, length, length-append,
  ==_iff,
}
use mathlib.Core.List.{append_assoc, append-nil}
use mentra.Base.Partial.{◌>>=◌}
use mentra.Base.Results.{Result}
use mentra.Base.Text.{Text, hex_digit}
use mentra.Frontmatter.Quote.{
  double_quote, backslash, is_control, unicode_escape, quote_char, quote_rest, quote, ParseError,
  to_digit, digits_value, from_str_radix, from_u32, trailing, map_ok, unescape, Round, returns,
  goes_on, after_hex, after_simple, escape, round, read, double_quoted,
}

to_digit-hex_digit : (d : ℕ) → d < 16 → to_digit (hex_digit d) ≡ some d
to_digit-hex_digit d lt = ground arith

from_str_radix-digits :
    (a b c d : ℕ)
    → a < 16
    → b < 16
    → c < 16
    → d < 16
    → from_str_radix (hex_digit a ∷ hex_digit b ∷ hex_digit c ∷ hex_digit d ∷ [])
      ≡ some (((a * 16 + b) * 16 + c) * 16 + d)
unfolding from_str_radix digits_value
from_str_radix-digits a b c d la lb lc ld =
    let no_plus : (hex_digit a == 43) ≡ false = ground arith in
    rw
      (
        no_plus,
        to_digit-hex_digit a la,
        to_digit-hex_digit b lb,
        to_digit-hex_digit c lc,
        to_digit-hex_digit d ld,
      )
      (ap some (omega arith))

-- The escape of a control character stands for it.
escape-unicode_escape :
    (line c : ℕ) (rest out : Text)
    → is_control c ≡ true
    → round line (unicode_escape c ++ rest) out ≡ goes_on rest (out ++ (c ∷ []))
unfolding round
escape-unicode_escape line c rest out control =
    let small : c < 160 = ground arith in
    let hex =
      from_str_radix-digits (c / 4096 % 16) (c / 256 % 16) (c / 16 % 16) (c % 16) (omega arith)
        (omega arith) (omega arith) (omega arith) in
    let value : ((c / 4096 % 16 * 16 + c / 256 % 16) * 16 + c / 16 % 16) * 16 + c % 16 ≡ c =
      omega arith in
    let valid : from_u32 c ≡ some c = ground arith in
    ap (after_hex line _ rest out) (ap (λ o. o >>= from_u32) (hex ∙ ap some value) ∙ valid)

-- One quoted character is read back in one round.
round-quote_char :
    (line c : ℕ) (rest out : Text)
    → round line (quote_char c ++ rest) out ≡ goes_on rest (out ++ (c ∷ []))
unfolding round quote_char unescape
round-quote_char line c rest out = elim (Bool-cases (c == 34)) [
  | inl e ↦ subst Read (sym ((==_iff c 34).0 e)) refl
  | inr n34 ↦ elim (Bool-cases (c == 92)) [
    | inl e ↦ subst Read (sym ((==_iff c 92).0 e)) refl
    | inr n92 ↦ elim (Bool-cases (c == 10)) [
      | inl e ↦ subst Read (sym ((==_iff c 10).0 e)) refl
      | inr n10 ↦ elim (Bool-cases (c == 9)) [
        | inl e ↦ subst Read (sym ((==_iff c 9).0 e)) refl
        | inr n9 ↦ elim (Bool-cases (c == 13)) [
          | inl e ↦ subst Read (sym ((==_iff c 13).0 e)) refl
          | inr n13 ↦ elim (Bool-cases (is_control c)) [
            | inl yes_c ↦
                rw (n34, n92, n10, n9, n13, yes_c) (escape-unicode_escape line c rest out yes_c)
            | inr no_c ↦ rw (n34, n92, n10, n9, n13, no_c, n34, n92) refl
          ]
        ]
      ]
    ]
  ]
]
  where
    Read : ℕ → Type 0
    Read c = round line (quote_char c ++ rest) out ≡ goes_on rest (out ++ (c ∷ []))

length-quote_char : (c : ℕ) → 1 ≤ length (quote_char c)
unfolding quote_char
length-quote_char c = ground arith

read-round :
    (line fuel : ℕ) (chars out chars' out' : Text)
    → round line chars out ≡ goes_on chars' out'
    → read (suc fuel) line chars out ≡ read fuel line chars' out'
unfolding read
read-round line fuel chars out chars' out' e = rw (e, read) refl

-- The fuel that a quoted text leaves over is enough for the rest.
read-quote_rest :
    (value after out : Text) (line fuel : ℕ)
    → length (quote_rest value ++ after) < fuel
    → read fuel line (quote_rest value ++ after) out
      ≡ some (map_ok (trailing after line) (out ++ value))
unfolding read quote_rest round
read-quote_rest value after out line zero lt = absurd (omega arith)
read-quote_rest [] after out line (suc fuel) lt =
    ap (λ z. some (map_ok (trailing after line) z)) (sym (append-nil out))
read-quote_rest (c ∷ value) after out line (suc fuel) lt =
    let shift = append_assoc (quote_char c) (quote_rest value) after in
    let size = length-append (quote_char c) (quote_rest value ++ after) in
    let some_char = length-quote_char c in
    let sizes : length ((quote_char c ++ quote_rest value) ++ after)
        ≡ length (quote_char c) + length (quote_rest value ++ after) =
      ap length shift ∙ size in
    rw shift (
      read-round line fuel (quote_char c ++ (quote_rest value ++ after)) out
        (quote_rest value ++ after) (out ++ (c ∷ []))
        (round-quote_char line c (quote_rest value ++ after) out)
      ∙ read-quote_rest value after (out ++ (c ∷ [])) line fuel (omega arith)
      ∙ ap (λ z. some (map_ok (trailing after line) z)) (append_assoc out (c ∷ []) value))

-- A text that was quoted is read back exactly, whatever it holds, if what follows the closing quote
-- is accepted there; if that is refused, the refusal is the result.
pub double_quoted-quote :
    (value after : Text) (line : ℕ)
    → double_quoted (drop 1 (quote value) ++ after) line ≡ some (map_ok (trailing after line) value)
double_quoted-quote value after line =
    read-quote_rest value after [] line (suc (length (quote_rest value ++ after))) (omega arith)

length-drop : (n : ℕ) (text : Text) → length (drop n text) ≤ length text
length-drop zero text = omega arith
length-drop (suc n) [] = omega arith
length-drop (suc n) (c ∷ text) = omega (arith, length-drop n text)

-- A round that goes on has used up at least one character.
Shorter : Text → Round → Type 0
Shorter chars (returns result) = Unit
Shorter chars (goes_on chars' out) = length chars' < length chars

Shorter-after_hex :
    (line : ℕ) (hex chars out longer : Text) (o : Option ℕ)
    → length chars < length longer
    → Shorter longer (after_hex line hex chars out o)
unfolding Shorter
Shorter-after_hex line hex chars out longer none lt = tt
Shorter-after_hex line hex chars out longer (some code) lt = lt

Shorter-after_simple :
    (line c : ℕ) (chars out longer : Text) (o : Option ℕ)
    → length chars < length longer
    → Shorter longer (after_simple line c chars out o)
unfolding Shorter
Shorter-after_simple line c chars out longer none lt = tt
Shorter-after_simple line c chars out longer (some code) lt = lt

Shorter-escape :
    (line : ℕ) (chars out longer : Text)
    → length chars < length longer
    → Shorter longer (escape line chars out)
unfolding Shorter
Shorter-escape line [] out longer lt = tt
Shorter-escape line (c ∷ chars) out longer lt = elim (Bool-cases (c == 117)) [
  | inl hex ↦ rw hex (
      Shorter-after_hex line (take 4 chars) (drop 4 chars) out longer
        (from_str_radix (take 4 chars) >>= from_u32) (let l = length-drop 4 chars in omega arith))
  | inr simple ↦ rw simple (Shorter-after_simple line c chars out longer (unescape c) (omega arith))
]

Shorter-round : (line : ℕ) (chars out : Text) → Shorter chars (round line chars out)
unfolding round Shorter
Shorter-round line [] out = tt
Shorter-round line (c ∷ chars) out = elim (Bool-cases (c == double_quote)) [
  | inl closes ↦ rw closes tt
  | inr goes ↦ elim (Bool-cases (c == backslash)) [
    | inl escapes ↦ rw (goes, escapes) (Shorter-escape line chars out (c ∷ chars) (omega arith))
    | inr plain ↦ rw (goes, plain) (omega arith)
  ]
]

read-total :
    (line fuel : ℕ) (chars out : Text)
    → length chars < fuel
    → (result : Result Text ParseError) × (read fuel line chars out ≡ some result)
unfolding read Shorter
read-total line zero chars out lt = absurd (omega arith)
read-total line (suc fuel) chars out lt =
    after (round line chars out) (Shorter-round line chars out)
      (λ chars' out' less. read-total line fuel chars' out' (omega arith))
  where
    after :
        (r : Round)
        → Shorter chars r
        → ((chars' out' : Text)
            → length chars' < length chars
            → (result : Result Text ParseError) × (read fuel line chars' out' ≡ some result))
        → (result : Result Text ParseError) × ((elim r [
          | returns result' ↦ some result'
          | goes_on chars' out' ↦ read fuel line chars' out'
        ])
            ≡ some result)
    after (returns result) shorter rec = (result, refl)
    after (goes_on chars' out') shorter rec = rec chars' out' shorter

-- Reading a double-quoted value always ends, with a text or a refusal.
pub double_quoted-total :
    (inner : Text) (line : ℕ)
    → (result : Result Text ParseError) × (double_quoted inner line ≡ some result)
double_quoted-total inner line = read-total line (suc (length inner)) inner [] (omega arith)
