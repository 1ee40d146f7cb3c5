-- ===== src/Frontmatter/Examples.antt =====
-- Quoted values at concrete inputs: tests, and the witnesses of their theorems.
use mentra.Base.{drop, ◌≡◌, refl, some, [], ◌∷◌, ◌++◌}
use mentra.Base.Results.{err}
use mentra.Base.Text.{Text, codes}
use mentra.Frontmatter.Quote.{
  not_a_character_escape, quote, quote_rest, quote_char, trailing, map_ok, double_quoted, read,
  round, from_str_radix, digits_value,
}
use mentra.Base.{true}
use mentra.Base.Strings.{split_inclusive, trim_start_matches, strip_prefix, split_once}
use mentra.Base.Text.{trim}
use mentra.Base.Results.{ok}
use mentra.Base.Text.{text_eq}
use mentra.Frontmatter.Quote.{given_twice}
use mentra.Frontmatter.Parse.{
  text, boolean, Fields, parse, parse_lines, parse_line, scalar, read_single, up_to_comment,
}
use mentra.Frontmatter.Skill.{parse_skill_file}
use mentra.Frontmatter.Fields.{WellKeyed, parse-WellKeyed}
use mentra.Frontmatter.Written.{block_of, field_lines, entries_of, parse-field_lines}
use mentra.Frontmatter.ScanReturns.{Returns}
use mentra.Frontmatter.Total.{parse_skill_file-Returns}
use mentra.Frontmatter.ReadBack.{skill_file, skill_fields, parse_skill_file-skill_file}
use mentra.Frontmatter.RoundTrip.{double_quoted-quote}

-- A quote, a line break, a control character and a letter.
abbrev awkward : Text
awkward = 34 ∷ 10 ∷ 7 ∷ 127 ∷ 65 ∷ []

quoted : quote awkward ≡ codes "\"\\\"\\n\\u0007\\u007fA\""
unfolding quote_rest quote_char
quoted = refl

refused : double_quoted (codes "\\uD800\"") 3 ≡ some (err (not_a_character_escape 3 (codes "D800")))
unfolding read round from_str_radix digits_value
refused = refl

double_quoted-quote_example :
    double_quoted (drop 1 (quote awkward) ++ codes " # note") 3
    ≡ some (map_ok (trailing (codes " # note") 3) awkward)
double_quoted-quote_example = double_quoted-quote awkward (codes " # note") 3

-- A name with a colon and a comment sign, and a description that has a line `---`.
abbrev tricky : Text
tricky = codes "a: b #c"

abbrev dashes : Text
dashes = codes "one\n---\ntwo"

parse_skill_file-skill_file_example :
    parse_skill_file (skill_file (skill_fields tricky dashes true) (codes "Steps\n"))
    ≡ some (
        ok (
          record { name = some tricky; description = some dashes; disable_model_invocation = true },
          codes "Steps\n",
        ))
parse_skill_file-skill_file_example =
    parse_skill_file-skill_file tricky dashes (codes "Steps\n") true

parse_skill_file-Returns_example : Returns (parse_skill_file (codes "---\nname: 'it''s'\n---"))
parse_skill_file-Returns_example = parse_skill_file-Returns (codes "---\nname: 'it''s'\n---")

-- A block with a comment, a single-quoted value, a plain one and a Boolean.
abbrev block : Text
block = codes "# skill\n\nname: 'it''s' # here\r\nabout: plain #x\nflag: true\n"

abbrev block_fields : Fields
block_fields =
    (codes "name", text (codes "it's"))
    ∷ (codes "about", text (codes "plain"))
    ∷ (codes "flag", boolean true)
    ∷ []

block_reads : parse block ≡ some (ok block_fields)
unfolding parse_lines parse_line scalar read_single up_to_comment split_inclusive trim
    trim_start_matches strip_prefix text_eq split_once
block_reads = refl

repeated : parse (codes "a: 1\na: 2\n") ≡ some (err (given_twice 2 (codes "a")))
unfolding parse_lines parse_line scalar up_to_comment split_inclusive trim trim_start_matches
    strip_prefix text_eq split_once
repeated = refl

parse-WellKeyed_example : WellKeyed block_fields
parse-WellKeyed_example = parse-WellKeyed block block_fields block_reads

two_keys : WellKeyed (entries_of ((codes "a", tricky) ∷ (codes "b", dashes) ∷ []))
unfolding text_eq
two_keys = ((refl, (refl, tt)), (refl, (refl, tt)))

parse-field_lines_example :
    parse (block_of (field_lines ((codes "a", tricky) ∷ (codes "b", dashes) ∷ [])))
    ≡ some (ok (entries_of ((codes "a", tricky) ∷ (codes "b", dashes) ∷ [])))
parse-field_lines_example =
    parse-field_lines ((codes "a", tricky) ∷ (codes "b", dashes) ∷ []) two_keys
