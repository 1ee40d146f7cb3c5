-- ===== src/Frontmatter/Line.antt =====
-- One `key: value` line with a quoted value, as `parse` reads it.
use mentra.Base.{
  ℕ, ◌≡◌, ◌∙◌, refl, sym, ap, none, some, [], ◌∷◌, ◌++◌, true, false, not, ◌==◌, arith,
}
use mathlib.Core.List.{append_assoc, append-nil}
use mentra.Base.Results.{ok}
use mentra.Base.Text.{Text, text_eq, is_whitespace, trim, trim_start}
use mentra.Base.Strings.{strip_prefix}
use mentra.Base.Trims.{
  all_chars, all_chars-append, all_chars_mono, all_chars_last, trim_solid, trim-space,
  trim_end_matches-solid, split_once_first, in_line,
}
use mentra.Frontmatter.Quote.{double_quote, quote, quote_rest, quote_char, double_quoted}
use mentra.Frontmatter.RoundTrip.{double_quoted-quote}
use mentra.Frontmatter.Parse.{
  text, Fields, get, map_text, scalar, is_key_char, is_key, is_blank, parse_field, parse_pair,
  is_list_item, parse_trimmed, trim_return, parse_line,
}

-- The line that gives a key a text.
abbrev pub field_line : Text → Text → Text
field_line key value = key ++ (b':' ∷ b' ' ∷ quote value)

-- A quoted value ends with its closing quote.
quote_rest_ends : (value : Text) → (t : Text) × (quote_rest value ≡ t ++ (double_quote ∷ []))
unfolding quote_rest
quote_rest_ends [] = ([], refl)
quote_rest_ends (c ∷ value) =
    let (t, e) = quote_rest_ends value in
    (
      quote_char c ++ t,
      ap (λ z. quote_char c ++ z) e ∙ sym (append_assoc (quote_char c) t (double_quote ∷ [])),
    )

quote_char-in_line : (c : ℕ) → all_chars in_line (quote_char c) ≡ true
unfolding quote_char
quote_char-in_line c = ground arith

quote_rest-in_line : (value : Text) → all_chars in_line (quote_rest value) ≡ true
unfolding quote_rest
quote_rest-in_line [] = refl
quote_rest-in_line (c ∷ value) =
    all_chars-append in_line (quote_char c) (quote_rest value) (quote_char-in_line c)
      (quote_rest-in_line value)

is_key-all : (key : Text) → is_key key ≡ true → all_chars is_key_char key ≡ true
is_key-all key k = ground arith

pub field_line-in_line :
    (key value : Text) → is_key key ≡ true → all_chars in_line (field_line key value) ≡ true
field_line-in_line key value k =
    all_chars-append in_line key (b':' ∷ b' ' ∷ quote value)
      (all_chars_mono is_key_char in_line key (λ c h. ground arith) (is_key-all key k))
      (quote_rest-in_line value)

pub field_line_ends :
    (key value : Text) → (t : Text) × (field_line key value ≡ t ++ (double_quote ∷ []))
field_line_ends key value =
    let (t, e) = quote_rest_ends value in
    (
      key ++ (b':' ∷ b' ' ∷ double_quote ∷ t),
      ap (λ z. key ++ (b':' ∷ b' ' ∷ double_quote ∷ z)) e
          ∙ sym (append_assoc key (b':' ∷ b' ' ∷ double_quote ∷ t) (double_quote ∷ [])),
    )

is_key_char-solid : (c : ℕ) → is_key_char c ≡ true → is_whitespace c ≡ false
unfolding is_whitespace
is_key_char-solid c k = ground arith

double_quote_solid : is_whitespace double_quote ≡ false
unfolding is_whitespace
double_quote_solid = refl

trim-key : (key : Text) → is_key key ≡ true → trim key ≡ key
trim-key [] k = ground arith
trim-key (c ∷ key) k =
    let all = is_key-all (c ∷ key) k in
    let (t, d, split, last) = all_chars_last is_key_char c key all in
    trim_solid c d key t split (is_key_char-solid c (ground arith)) (is_key_char-solid d last)

-- The value is read back from what follows the colon.
scalar-quote :
    (value : Text) (number : ℕ) → scalar (trim (b' ' ∷ quote value)) number ≡ some (ok (text value))
unfolding scalar trim_start
scalar-quote value number =
    let (t, e) = quote_rest_ends value in
    ap (λ z. scalar z number)
      (trim-space (quote value)
        ∙ trim_solid double_quote double_quote (quote_rest value) (double_quote ∷ t)
            (ap (λ z. double_quote ∷ z) e) double_quote_solid double_quote_solid)
    ∙ ap (λ z. map_text (double_quoted z number)) (sym (append-nil (quote_rest value)))
    ∙ ap map_text (double_quoted-quote value [] number)

parse_field-quote :
    (number : ℕ) (key value : Text) (fields : Fields)
    → is_key key ≡ true
    → get key fields ≡ none
    → parse_field number key (b' ' ∷ quote value) fields
      ≡ some (ok (fields ++ ((key, text value) ∷ [])))
parse_field-quote number key value fields k fresh = rw (k, fresh, scalar-quote value number) refl

-- A line that begins with a character of a key is no list item.
not_list_item :
    (c : ℕ) (key rest : Text)
    → is_key_char c ≡ true
    → all_chars is_key_char key ≡ true
    → is_list_item ((c ∷ key) ++ (b':' ∷ rest)) ≡ false
unfolding strip_prefix text_eq
not_list_item c [] rest k all = ground arith
not_list_item c (e ∷ key) rest k all = ground arith

parse_trimmed-field_line :
    (number c : ℕ) (key value : Text) (fields : Fields)
    → is_key (c ∷ key) ≡ true
    → get (c ∷ key) fields ≡ none
    → parse_trimmed number (field_line (c ∷ key) value) (field_line (c ∷ key) value) fields
      ≡ some (ok (fields ++ ((c ∷ key, text value) ∷ [])))
parse_trimmed-field_line number c key value fields k fresh =
    let first : is_key_char c ≡ true = ground arith in
    let rest : all_chars is_key_char key ≡ true = ground arith in
    let no_comment : (c == b'#') ≡ false = ground arith in
    let no_blank : is_blank c ≡ false = ground arith in
    let no_item = not_list_item c key (b' ' ∷ quote value) first rest in
    let no_colon : all_chars (λ d. not (d == b':')) (c ∷ key) ≡ true =
      all_chars_mono is_key_char (λ d. not (d == b':')) (c ∷ key) (λ d h. ground arith)
        (is_key-all (c ∷ key) k) in
    let split = split_once_first b':' (c ∷ key) (b' ' ∷ quote value) no_colon in
    rw (no_comment, no_blank, no_item)
      (ap (parse_pair number (field_line (c ∷ key) value) fields) split
        ∙ ap (λ z. parse_field number z (b' ' ∷ quote value) fields) (trim-key (c ∷ key) k)
        ∙ parse_field-quote number (c ∷ key) value fields k fresh)

-- The line of a key that was not given yet adds its entry.
pub parse_line-field_line :
    (number : ℕ) (key value : Text) (fields : Fields)
    → is_key key ≡ true
    → get key fields ≡ none
    → parse_line number (field_line key value) fields
      ≡ some (ok (fields ++ ((key, text value) ∷ [])))
unfolding parse_line
parse_line-field_line number [] value fields k fresh = ground arith
parse_line-field_line number (c ∷ key) value fields k fresh =
    let (t, ends) = field_line_ends (c ∷ key) value in
    let line = field_line (c ∷ key) value in
    let same : trim_return line ≡ line =
      ap trim_return ends
      ∙ trim_end_matches-solid (λ d. d == b'\r') t double_quote refl
      ∙ sym ends in
    let solid : is_whitespace c ≡ false = is_key_char-solid c (ground arith) in
    ap (λ z. parse_trimmed number z (trim z) fields) same
    ∙ ap (λ z. parse_trimmed number line z fields)
        (trim_solid c double_quote (key ++ (b':' ∷ b' ' ∷ quote value)) t ends solid
          double_quote_solid)
    ∙ parse_trimmed-field_line number c key value fields k fresh
