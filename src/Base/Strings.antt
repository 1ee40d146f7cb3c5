-- ===== src/Base/Strings.antt =====
-- What the code uses of `str`: lines, prefixes, and slices at byte offsets, which panic off a
-- boundary.
use mentra.Base.{
  ℕ, zero, suc, ◌+◌, ◌-◌, Option, none, some, List, [], ◌∷◌, Bool, true, false, ◌==◌, leb, ltb,
  if◌then◌else◌, map,
}
use mathlib.Core.List.{reverse}
use mentra.Base.Text.{Text, trim_start}

-- The length of a character in UTF-8.
abbrev pub utf8_len : ℕ → ℕ
utf8_len c = if ltb c 0x80 then 1 else if ltb c 0x800 then 2 else if ltb c 0x10000 then 3 else 4

-- `str::len`.
unfoldable pub bytes : Text → ℕ
bytes [] = 0
bytes (c ∷ text) = utf8_len c + bytes text

abbrev pub onto_first : ℕ → List Text → List Text
onto_first c [] = (c ∷ []) ∷ []
onto_first c (line ∷ lines) = (c ∷ line) ∷ lines

-- Each line keeps its line break; a text that ends with one has no empty line after it.
unfoldable pub split_inclusive : Text → List Text
split_inclusive [] = []
split_inclusive (c ∷ text) =
    let lines = split_inclusive text in if c == b'\n' then (c ∷ []) ∷ lines else onto_first c lines

abbrev pub cons_some : ℕ → Option Text → Option Text
cons_some c none = none
cons_some c (some text) = some (c ∷ text)

-- `&text[start..]`.
unfoldable pub slice_from : ℕ → Text → Option Text
slice_from zero text = some text
slice_from (suc n) [] = none
slice_from (suc n) (c ∷ text) =
    let rest = slice_from (suc n - utf8_len c) text in
    if leb (utf8_len c) (suc n) then rest else none

-- `&text[..end]`.
unfoldable pub slice_to : ℕ → Text → Option Text
slice_to zero text = some []
slice_to (suc n) [] = none
slice_to (suc n) (c ∷ text) =
    let rest = slice_to (suc n - utf8_len c) text in
    if leb (utf8_len c) (suc n) then cons_some c rest else none

-- `str::is_char_boundary`.
unfoldable pub is_char_boundary : ℕ → Text → Bool
is_char_boundary zero text = true
is_char_boundary (suc n) [] = false
is_char_boundary (suc n) (c ∷ text) =
    let rest = is_char_boundary (suc n - utf8_len c) text in
    if leb (utf8_len c) (suc n) then rest else false

-- `strip_prefix`.
unfoldable pub strip_prefix : Text → Text → Option Text
strip_prefix [] text = some text
strip_prefix (p ∷ prefix) [] = none
strip_prefix (p ∷ prefix) (c ∷ text) =
    let rest = strip_prefix prefix text in if p == c then rest else none

-- `starts_with` a character that passes the test.
abbrev pub starts_with : (ℕ → Bool) → Text → Bool
starts_with p [] = false
starts_with p (c ∷ text) = p c

-- `trim_start_matches` and `trim_end_matches`.
unfoldable pub trim_start_matches : (ℕ → Bool) → Text → Text
trim_start_matches p [] = []
trim_start_matches p (c ∷ text) =
    let rest = trim_start_matches p text in if p c then rest else c ∷ text

abbrev pub trim_end_matches : (ℕ → Bool) → Text → Text
trim_end_matches p text = reverse (trim_start_matches p (reverse text))

abbrev pub trim_end : Text → Text
trim_end text = reverse (trim_start (reverse text))

abbrev pub before : ℕ → Option (Text × Text) → Option (Text × Text)
before c none = none
before c (some (key, rest)) = some (c ∷ key, rest)

-- `split_once` at a character.
unfoldable pub split_once : ℕ → Text → Option (Text × Text)
split_once at_char [] = none
split_once at_char (c ∷ text) =
    let rest = split_once at_char text in if c == at_char then some ([], text) else before c rest

-- A line without its line break, `\n` or `\r\n`, which stand first when it is reversed.
abbrev pub strip_return : Text → Text
strip_return [] = []
strip_return (c ∷ reversed) = if c == b'\r' then reversed else c ∷ reversed

abbrev pub drop_break : Text → Text → Text
drop_break line [] = line
drop_break line (c ∷ reversed) = if c == b'\n' then reverse (strip_return reversed) else line

abbrev pub without_break : Text → Text
without_break line = drop_break line (reverse line)

-- `str::lines`.
abbrev pub lines_of : Text → List Text
lines_of text = map without_break (split_inclusive text)
