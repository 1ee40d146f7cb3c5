-- ===== src/Frontmatter/Quote.antt =====
-- `quote`, and `double_quoted` with `trailing`, which read what it writes.
use mentra.Base.{
  ℕ, zero, suc, ◌+◌, ◌-◌, ◌*◌, ◌/◌, ◌%◌, Option, none, some, [], ◌∷◌, ◌++◌, Bool, ◌&&◌, ◌||◌, ◌==◌,
  leb, ltb, if◌then◌else◌, length, take, drop,
}
use mentra.Base.Partial.{◌>>=◌}
use mentra.Base.Results.{Result, ok, err}
use mentra.Base.Text.{Text, hex_digit, trim_start}

abbrev pub double_quote : ℕ
double_quote = 34

abbrev pub backslash : ℕ
backslash = 92

-- `char::is_control`: the characters of category Cc.
abbrev pub is_control : ℕ → Bool
is_control c = ltb c 32 || (leb 127 c && leb c 159)

-- `format!("\\u{:04x}", c)`, for a character below 65536.
abbrev pub unicode_escape : ℕ → Text
unicode_escape c =
    backslash
    ∷ 117
    ∷ hex_digit (c / 4096 % 16)
    ∷ hex_digit (c / 256 % 16)
    ∷ hex_digit (c / 16 % 16)
    ∷ hex_digit (c % 16)
    ∷ []

-- One character of `quote`.
unfoldable pub quote_char : ℕ → Text
quote_char c =
    if c == double_quote
    then backslash ∷ double_quote ∷ []
    else if c == backslash
    then backslash ∷ backslash ∷ []
    else if c == 10
    then backslash ∷ 110 ∷ []
    else if c == 9
    then backslash ∷ 116 ∷ []
    else if c == 13
    then backslash ∷ 114 ∷ []
    else if is_control c
    then unicode_escape c
    else c ∷ []

-- The loop of `quote`, and the closing quote.
unfoldable pub quote_rest : Text → Text
quote_rest [] = double_quote ∷ []
quote_rest (c ∷ value) = quote_char c ++ quote_rest value

abbrev pub quote : Text → Text
quote value = double_quote ∷ quote_rest value

-- What the `ParseError` says, with the values that its message shows.
pub data ParseError : Type 0 where
  not_a_character_escape : ℕ → Text → ParseError
  not_an_escape : ℕ → ℕ → ParseError
  no_closing_quote : ℕ → ParseError
  after_closing_quote : ℕ → Text → ParseError
  no_closing_single_quote : ℕ → ParseError
  unread_value : ℕ → Text → ParseError
  indented_line : ℕ → ParseError
  list_item : ℕ → ParseError
  not_key_value : ℕ → Text → ParseError
  not_a_key : ℕ → Text → ParseError
  needs_a_space : ℕ → Text → ParseError
  given_twice : ℕ → Text → ParseError
  not_a_boolean : Text → Text → ParseError

-- `char::to_digit(16)`.
abbrev pub to_digit : ℕ → Option ℕ
to_digit c =
    if leb 48 c && leb c 57
    then some (c - 48)
    else if leb 97 c && leb c 102
    then some (c - 87)
    else if leb 65 c && leb c 70
    then some (c - 55)
    else none

unfoldable pub digits_value : ℕ → Text → Option ℕ
digits_value value [] = some value
digits_value value (c ∷ hex) = to_digit c >>= λ d. digits_value (value * 16 + d) hex

-- `u32::from_str_radix(_, 16)`: a plus sign may stand before the digits.
unfoldable pub from_str_radix : Text → Option ℕ
from_str_radix [] = none
from_str_radix (c ∷ hex) =
    if c == 43
    then elim hex [ [] ↦ none | h ∷ hs ↦ digits_value 0 (h ∷ hs) ]
    else digits_value 0 (c ∷ hex)

abbrev pub from_u32 : ℕ → Option ℕ
from_u32 c = if ltb c 0xd800 || (leb 0xe000 c && leb c 0x10ffff) then some c else none

-- What may follow a closing quote.
abbrev pub accept_trailing : Text → ℕ → Result (Unit {0}) ParseError
accept_trailing [] line = ok tt
accept_trailing (c ∷ rest) line =
    if c == 35 then ok tt else err (after_closing_quote line (c ∷ rest))

abbrev pub trailing : Text → ℕ → Result (Unit {0}) ParseError
trailing rest line = accept_trailing (trim_start rest) line

abbrev pub map_ok : Result (Unit {0}) ParseError → Text → Result Text ParseError
map_ok (ok _) out = ok out
map_ok (err e) out = err e

-- The escapes of one character.
unfoldable pub unescape : ℕ → Option ℕ
unescape c =
    if c == double_quote
    then some double_quote
    else if c == backslash
    then some backslash
    else if c == 47
    then some 47
    else if c == 110
    then some 10
    else if c == 116
    then some 9
    else if c == 114
    then some 13
    else if c == 48
    then some 0
    else none

-- How one round of the loop goes on: with the characters left and the text read, or not.
pub data Round : Type 0 where
  returns : Result Text ParseError → Round
  goes_on : Text → Text → Round

abbrev pub after_hex : ℕ → Text → Text → Text → Option ℕ → Round
after_hex line hex chars out (some code) = goes_on chars (out ++ (code ∷ []))
after_hex line hex chars out none = returns (err (not_a_character_escape line hex))

abbrev pub after_simple : ℕ → ℕ → Text → Text → Option ℕ → Round
after_simple line other chars out (some code) = goes_on chars (out ++ (code ∷ []))
after_simple line other chars out none = returns (err (not_an_escape line other))

abbrev pub escape : ℕ → Text → Text → Round
escape line [] out = returns (err (no_closing_quote line))
escape line (c ∷ chars) out =
    if c == 117
    then after_hex line (take 4 chars) (drop 4 chars) out
        (from_str_radix (take 4 chars) >>= from_u32)
    else after_simple line c chars out (unescape c)

unfoldable pub round : ℕ → Text → Text → Round
round line [] out = returns (err (no_closing_quote line))
round line (c ∷ chars) out =
    if c == double_quote
    then returns (map_ok (trailing chars line) out)
    else if c == backslash
    then escape line chars out
    else goes_on chars (out ++ (c ∷ []))

-- The loop: `none` when the fuel ran out.
unfoldable pub read : ℕ → ℕ → Text → Text → Option (Result Text ParseError)
read zero line chars out = none
read (suc fuel) line chars out = elim (round line chars out) [
  | returns result ↦ some result
  | goes_on chars' out' ↦ read fuel line chars' out'
]

-- Each round takes a character.
abbrev pub double_quoted : Text → ℕ → Option (Result Text ParseError)
double_quoted inner line = read (suc (length inner)) line inner []
