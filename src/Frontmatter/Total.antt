-- ===== src/Frontmatter/Total.antt =====
-- Parsing ends for every block, and reading a skill file for every file.
use mentra.Base.{
  ℕ, zero, suc, ◌<◌, ◌≡◌, refl, ap, Option, none, some, List, [], ◌∷◌, ◌++◌, Bool, true, false, not,
  ◌&&◌, ◌||◌, ◌==◌, if◌then◌else◌, is_empty, length, Bool-cases, inl, inr, arith,
}
use mathlib.Core.Option.{some-injective}
use mentra.Base.Results.{Result, ok, err}
use mentra.Base.Text.{Text, trim}
use mentra.Base.Strings.{strip_prefix, starts_with, before, split_once, lines_of}
use mentra.Frontmatter.Quote.{double_quote, double_quoted}
use mentra.Frontmatter.RoundTrip.{double_quoted-total}
use mentra.Frontmatter.Scan.{Scanned, Unterminated, scan}
use mentra.Frontmatter.Parse.{
  Scalar, Fields, get, Reading, single_quote, closes, at_quote, read_single, single_quoted,
  map_text, is_unread, scalar, is_key, is_blank, is_given, is_list_item, add_entry, parse_field,
  parse_pair, parse_trimmed, trim_return, parse_line, and_then, parse_lines, parse,
}
use mentra.Frontmatter.Skill.{with_fields, with_block, with_scanned, parse_skill_file}
use mentra.Frontmatter.ScanReturns.{Returns, scan-Returns}

rest_same : (a b c d : Text) → ◌≡◌ {A = Option (Text × Text)} (some (a, b)) (some (c, d)) → b ≡ d
rest_same a b c d e = ap (λ z. z.1) (some-injective _ _ e)

split_once-shorter :
    (at_char : ℕ) (s a b : Text) → split_once at_char s ≡ some (a, b) → length b < length s
unfolding split_once
split_once-shorter at_char [] a b e = cc
split_once-shorter at_char (c ∷ s) a b e = elim (Bool-cases (c == at_char)) [
  | inl here ↦
      let l : length s ≡ length b = ap length (rest_same [] s a b (rw here at e)) in omega arith
  | inr on ↦
      go (split_once at_char s) (λ a' b' f. split_once-shorter at_char s a' b' f) (rw on at e)
]
  where
    go :
        (o : Option (Text × Text))
        → ((a' b' : Text) → o ≡ some (a', b') → length b' < length s)
        → before c o ≡ some (a, b)
        → length b < suc (length s)
    go none f e = cc
    go (some (a', b')) f e =
        let shorter = f a' b' refl in
        let l : length b' ≡ length b = ap length (rest_same (c ∷ a') b' a b e) in omega arith

strip_prefix-shorter : (c : ℕ) (s t : Text) → strip_prefix (c ∷ []) s ≡ some t → length t < length s
unfolding strip_prefix
strip_prefix-shorter c [] t e = cc
strip_prefix-shorter c (d ∷ s) t e = elim (Bool-cases (c == d)) [
  | inl here ↦
      let same : some s ≡ some t = rw here at e in
      let l : length s ≡ length t = ap length (cc) in omega arith
  | inr off ↦ cc (rw off at e)
]

read_single-Returns :
    (fuel line : ℕ) (rest out : Text)
    → length rest < fuel
    → Returns (read_single fuel line rest out)
unfolding read_single
read_single-Returns zero line rest out lt = absurd (omega arith)
read_single-Returns (suc fuel) line rest out lt =
    quoted (split_once single_quote rest) (λ a b e. split_once-shorter single_quote rest a b e)
      (λ after out' less. read_single-Returns fuel line after out' (omega arith))
  where
    Again : Type 0
    Again =
        (after out' : Text)
        → length after < length rest
        → Returns (read_single fuel line after out')

    closing :
        (b out' : Text) (o : Option Text)
        → ((t : Text) → o ≡ some t → length t < length rest)
        → Again
        → Returns (closes b line out' (read_single fuel line) o)
    closing b out' none less again = (_, refl)
    closing b out' (some t) less again = again t _ (less t refl)

    quoted :
        (o : Option (Text × Text))
        → ((a b : Text) → o ≡ some (a, b) → length b < length rest)
        → Again
        → Returns (at_quote line out (read_single fuel line) o)
    quoted none less again = (_, refl)
    quoted (some (a, b)) less again =
        closing b (out ++ a) (strip_prefix (single_quote ∷ []) b)
          (λ t e.
            let l = strip_prefix-shorter single_quote b t e in let m = less a b refl in omega arith)
          again

map_text-Returns : (m : Reading Text) → Returns m → Returns (map_text m)
map_text-Returns none r = cc r.1
map_text-Returns (some (ok t)) r = (_, refl)
map_text-Returns (some (err e)) r = (_, refl)

scalar-Returns : (value : Text) (line : ℕ) → Returns (scalar value line)
unfolding scalar
scalar-Returns [] line = (_, refl)
scalar-Returns (c ∷ value) line = elim (Bool-cases (c == double_quote)) [
  | inl double ↦
      rw double (map_text-Returns (double_quoted value line) (double_quoted-total value line))
  | inr off ↦ elim (Bool-cases (c == single_quote)) [
    | inl single ↦
        rw (off, single)
          (map_text-Returns (single_quoted value line)
            (read_single-Returns (suc (length value)) line value [] (omega arith)))
    | inr neither ↦ elim (Bool-cases (is_unread c)) [
      | inl unread ↦ rw (off, neither, unread) (_, refl)
      | inr plain ↦ rw (off, neither, plain) (_, refl)
    ]
  ]
]

add_entry-Returns :
    (key : Text) (fields : Fields) (m : Reading Scalar)
    → Returns m
    → Returns (add_entry key fields m)
add_entry-Returns key fields none r = cc r.1
add_entry-Returns key fields (some (err e)) r = (_, refl)
add_entry-Returns key fields (some (ok value)) r = (_, refl)

Returns-if :
    {A : Type 0} (b : Bool) (x y : Option A) → Returns x → Returns y → Returns (if b then x else y)
Returns-if true x y rx ry = rx
Returns-if false x y rx ry = ry

parse_field-Returns :
    (number : ℕ) (key rest : Text) (fields : Fields) → Returns (parse_field number key rest fields)
parse_field-Returns number key rest fields =
    Returns-if (not (is_key key)) _ _ (_, refl)
      (Returns-if (not (is_empty rest) && not (starts_with is_blank rest)) _ _ (_, refl)
        (Returns-if (is_given (get key fields)) _ _ (_, refl)
          (add_entry-Returns key fields (scalar (trim rest) number)
            (scalar-Returns (trim rest) number))))

parse_pair-Returns :
    (number : ℕ) (trimmed : Text) (fields : Fields) (o : Option (Text × Text))
    → Returns (parse_pair number trimmed fields o)
parse_pair-Returns number trimmed fields none = (_, refl)
parse_pair-Returns number trimmed fields (some (key, rest)) =
    parse_field-Returns number (trim key) rest fields

parse_trimmed-Returns :
    (number : ℕ) (line trimmed : Text) (fields : Fields)
    → Returns (parse_trimmed number line trimmed fields)
parse_trimmed-Returns number line trimmed fields =
    Returns-if (is_empty trimmed || starts_with (λ c. c == b'#') trimmed) _ _ (_, refl)
      (Returns-if (starts_with is_blank line) _ _ (_, refl)
        (Returns-if (is_list_item trimmed) _ _ (_, refl)
          (parse_pair-Returns number trimmed fields (split_once b':' line))))

and_then-Returns :
    (m : Reading Fields) (next : Fields → Reading Fields)
    → Returns m
    → ((fields : Fields) → Returns (next fields))
    → Returns (and_then m next)
and_then-Returns none next r k = cc r.1
and_then-Returns (some (err e)) next r k = (_, refl)
and_then-Returns (some (ok fields)) next r k = k fields

parse_lines-Returns :
    (number : ℕ) (raws : List Text) (fields : Fields) → Returns (parse_lines number raws fields)
unfolding parse_lines parse_line
parse_lines-Returns number [] fields = (_, refl)
parse_lines-Returns number (raw ∷ raws) fields =
    and_then-Returns (parse_line number raw fields) (parse_lines (suc number) raws)
      (parse_trimmed-Returns number (trim_return raw) (trim (trim_return raw)) fields)
      (parse_lines-Returns (suc number) raws)

with_fields-Returns : (body : Text) (m : Reading Fields) → Returns m → Returns (with_fields body m)
with_fields-Returns body none r = cc r.1
with_fields-Returns body (some (err e)) r = (_, refl)
with_fields-Returns body (some (ok fields)) r = (_, refl)

with_block-Returns : (raw body : Text) (o : Option Text) → Returns (with_block raw body o)
with_block-Returns raw body none = (_, refl)
with_block-Returns raw body (some block) =
    with_fields-Returns body (parse block) (parse_lines-Returns 1 (lines_of block) [])

with_scanned-Returns :
    (raw : Text) (m : Option (Result Scanned Unterminated))
    → Returns m
    → Returns (with_scanned raw m)
with_scanned-Returns raw none r = cc r.1
with_scanned-Returns raw (some (err e)) r = (_, refl)
with_scanned-Returns raw (some (ok scanned)) r =
    with_block-Returns raw scanned.body scanned.frontmatter

-- Reading a skill file ends for every file, with what it holds or a refusal: no slice is off a
-- character boundary, and no loop runs out of the fuel it is given.
pub parse_skill_file-Returns : (raw : Text) → Returns (parse_skill_file raw)
parse_skill_file-Returns raw = with_scanned-Returns raw (scan raw) (scan-Returns raw)
