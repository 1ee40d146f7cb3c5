-- ===== src/Frontmatter/Parse.antt =====
-- `parse`, with the plain and single-quoted values of `scalar`, and the `Fields` that it reads.
use mentra.Base.{
  ℕ, zero, suc, Option, none, some, List, [], ◌∷◌, ◌++◌, Bool, true, false, not, ◌&&◌, ◌||◌, ◌==◌,
  leb, if◌then◌else◌, length, is_empty, find,
}
use mentra.Base.Results.{Result, ok, err}
use mentra.Base.Text.{Text, codes, text_eq, trim}
use mentra.Base.Strings.{
  cons_some, strip_prefix, starts_with, trim_end, trim_end_matches, split_once, lines_of,
}
use mentra.Base.Trims.{all_chars}
use mentra.Frontmatter.Quote.{
  double_quote, ParseError, no_closing_single_quote, unread_value, indented_line, list_item,
  not_key_value, not_a_key, needs_a_space, given_twice, map_ok, trailing, double_quoted,
}

pub data Scalar : Type 0 where
  text : Text → Scalar
  boolean : Bool → Scalar
  null : Scalar

-- The entries of `Fields`, in the order they were written.
abbrev pub Fields : Type 0
Fields = List (Text × Scalar)

abbrev pub entry_value : Option (Text × Scalar) → Option Scalar
entry_value none = none
entry_value (some (key, value)) = some value

-- `Fields::get`.
abbrev pub get : Text → Fields → Option Scalar
get key fields = entry_value (find (λ entry. text_eq entry.0 key) fields)

-- What runs out of fuel is `none`.
abbrev pub Reading : Type 0 → Type 0
Reading A = Option (Result A ParseError)

abbrev pub single_quote : ℕ
single_quote = 39

-- After a quote: a second one stands for one quote, anything else closes the value.
abbrev pub closes : Text → ℕ → Text → (Text → Text → Reading Text) → Option Text → Reading Text
closes rest line out again (some after) = again after (out ++ (single_quote ∷ []))
closes rest line out again none = some (map_ok (trailing rest line) out)

abbrev pub at_quote : ℕ → Text → (Text → Text → Reading Text) → Option (Text × Text) → Reading Text
at_quote line out again none = some (err (no_closing_single_quote line))
at_quote line out again (some (upto, rest)) =
    closes rest line (out ++ upto) again (strip_prefix (single_quote ∷ []) rest)

-- The loop of `single_quoted`.
unfoldable pub read_single : ℕ → ℕ → Text → Text → Reading Text
read_single zero line rest out = none
read_single (suc fuel) line rest out =
    at_quote line out (read_single fuel line) (split_once single_quote rest)

-- Each round takes a quote.
abbrev pub single_quoted : Text → ℕ → Reading Text
single_quoted inner line = read_single (suc (length inner)) line inner []

abbrev pub map_text : Reading Text → Reading Scalar
map_text none = none
map_text (some (ok t)) = some (ok (text t))
map_text (some (err e)) = some (err e)

-- `[`, `{`, `|`, `>`, `&`, `*`, `!`, `%`, `@` or a backquote.
abbrev pub is_unread : ℕ → Bool
is_unread c =
    c == 91
    || c == 123
    || c == 124
    || c == 62
    || c == 38
    || c == 42
    || c == 33
    || c == 37
    || c == 64
    || c == 96

-- The text up to the first ` #`.
unfoldable pub up_to_comment : Text → Option Text
up_to_comment [] = none
up_to_comment (c ∷ value) =
    if c == b' ' && starts_with (λ d. d == b'#') value
    then some []
    else cons_some c (up_to_comment value)

abbrev pub plain_text : Text → Option Text → Text
plain_text value (some before_comment) = trim_end before_comment
plain_text value none = value

abbrev pub plain : Text → Scalar
plain value =
    if text_eq value (codes "true")
    then boolean true
    else if text_eq value (codes "false")
    then boolean false
    else if text_eq value (codes "null") || text_eq value (codes "~")
    then null
    else text value

-- `scalar`.
unfoldable pub scalar : Text → ℕ → Reading Scalar
scalar [] line = some (ok null)
scalar (c ∷ value) line =
    if c == double_quote
    then map_text (double_quoted value line)
    else if c == single_quote
    then map_text (single_quoted value line)
    else if is_unread c
    then some (err (unread_value line (c ∷ value)))
    else some (ok (plain (plain_text (c ∷ value) (up_to_comment (c ∷ value)))))

abbrev pub is_key_char : ℕ → Bool
is_key_char c =
    (leb 48 c && leb c 57)
    || (leb 65 c && leb c 90)
    || (leb 97 c && leb c 122)
    || c == 95
    || c == 45

abbrev pub is_key : Text → Bool
is_key key = not (is_empty key) && all_chars is_key_char key

abbrev pub is_blank : ℕ → Bool
is_blank c = c == b' ' || c == b'\t'

abbrev pub is_given : Option Scalar → Bool
is_given none = false
is_given (some _) = true

abbrev pub add_entry : Text → Fields → Reading Scalar → Reading Fields
add_entry key fields none = none
add_entry key fields (some (err e)) = some (err e)
add_entry key fields (some (ok value)) = some (ok (fields ++ ((key, value) ∷ [])))

-- One line once it is split at its colon.
abbrev pub parse_field : ℕ → Text → Text → Fields → Reading Fields
parse_field number key rest fields =
    if not (is_key key)
    then some (err (not_a_key number key))
    else if not (is_empty rest) && not (starts_with is_blank rest)
    then some (err (needs_a_space number key))
    else if is_given (get key fields)
    then some (err (given_twice number key))
    else add_entry key fields (scalar (trim rest) number)

abbrev pub parse_pair : ℕ → Text → Fields → Option (Text × Text) → Reading Fields
parse_pair number trimmed fields none = some (err (not_key_value number trimmed))
parse_pair number trimmed fields (some (key, rest)) = parse_field number (trim key) rest fields

abbrev pub is_list_item : Text → Bool
is_list_item trimmed =
    is_given_prefix (strip_prefix (codes "- ") trimmed) || text_eq trimmed (codes "-")
  where
    is_given_prefix : Option Text → Bool
    is_given_prefix none = false
    is_given_prefix (some _) = true

-- The body of the loop of `parse`, once the line is trimmed.
abbrev pub parse_trimmed : ℕ → Text → Text → Fields → Reading Fields
parse_trimmed number line trimmed fields =
    if is_empty trimmed || starts_with (λ c. c == b'#') trimmed
    then some (ok fields)
    else if starts_with is_blank line
    then some (err (indented_line number))
    else if is_list_item trimmed
    then some (err (list_item number))
    else parse_pair number trimmed fields (split_once b':' line)

abbrev pub trim_return : Text → Text
trim_return raw = trim_end_matches (λ c. c == b'\r') raw

unfoldable pub parse_line : ℕ → Text → Fields → Reading Fields
parse_line number raw fields =
    parse_trimmed number (trim_return raw) (trim (trim_return raw)) fields

abbrev pub and_then : Reading Fields → (Fields → Reading Fields) → Reading Fields
and_then none next = none
and_then (some (err e)) next = some (err e)
and_then (some (ok fields)) next = next fields

-- The loop of `parse`.
unfoldable pub parse_lines : ℕ → List Text → Fields → Reading Fields
parse_lines number [] fields = some (ok fields)
parse_lines number (raw ∷ raws) fields =
    and_then (parse_line number raw fields) (parse_lines (suc number) raws)

abbrev pub parse : Text → Reading Fields
parse block = parse_lines 1 (lines_of block) []
