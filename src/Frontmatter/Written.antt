-- ===== src/Frontmatter/Written.antt =====
-- A file with frontmatter that was written line by line, scanned and parsed back.
use mentra.Base.{
  ℕ, suc, ◌+◌, ◌≡◌, ◌∙◌, refl, sym, ap, subst, Option, some, List, [], ◌∷◌, ◌++◌, true, false, map,
  All, length, length-append, Bool-cases, inl, inr, arith,
}
use mathlib.Core.List.{append_assoc, append-nil}
use mentra.Base.Results.{Result, ok}
use mentra.Base.Text.{Text, codes, text_eq, text_eq_iff}
use mentra.Base.Strings.{
  bytes, slice_from, strip_prefix, trim_end_matches, split_inclusive, without_break, lines_of,
  trim_start_matches,
}
use mentra.Base.Slices.{bytes-append, slice_from-skip, slice_to-append}
use mentra.Base.Trims.{
  all_chars, trim_end_matches-solid, trim_end_matches-skips, split_inclusive_line, in_line,
  without_break_solid,
}
use mentra.Frontmatter.Quote.{double_quote, quote}
use mentra.Frontmatter.Scan.{
  Scanned, Unterminated, is_break, delimiter, closed_at, scan_lines, scan,
}
use mentra.Frontmatter.Parse.{text, Fields, is_key, and_then, parse_lines, parse}
use mentra.Frontmatter.Line.{field_line, field_line-in_line, field_line_ends, parse_line-field_line}
use mentra.Frontmatter.Fields.{Unique, Unique-fresh, Keyed, WellKeyed}

-- Lines, each with its line break.
abbrev pub block_of : List Text → Text
block_of [] = []
block_of (line ∷ lines) = line ++ (b'\n' ∷ block_of lines)

-- A line that does not close the block.
abbrev pub BlockLine : Text → Type 0
BlockLine line =
    (all_chars in_line line ≡ true)
    × (text_eq (trim_end_matches is_break (line ++ (b'\n' ∷ []))) delimiter ≡ false)

abbrev pub file_of : Text → Text → Text
file_of block body = codes "---\n" ++ (block ++ (codes "---\n" ++ body))

-- At the end of a block stands its delimiter.
closed_at_end :
    (block body : Text)
    → closed_at
        (block ++ (codes "---\n" ++ body))
        (bytes block)
        (bytes block + bytes (codes "---\n"))
      ≡ some (ok (record { frontmatter = some block; body = body }))
unfolding bytes slice_from
closed_at_end block body =
    rw
      (
        slice_to-append block (codes "---\n" ++ body),
        slice_from-skip block (codes "---\n" ++ body) 4,
      )
      refl

abbrev scanned_as : Text → Text → Option (Result Scanned Unterminated)
scanned_as block body = some (ok (record { frontmatter = some block; body = body }))

scan_lines_on :
    (opening segment : Text) (segments : List Text) (cursor : ℕ)
    → text_eq (trim_end_matches is_break segment) delimiter ≡ false
    → scan_lines opening (segment ∷ segments) cursor
      ≡ scan_lines opening segments (cursor + bytes segment)
unfolding scan_lines
scan_lines_on opening segment segments cursor off = rw off refl

scan_lines_block :
    (opening past body : Text) (lines : List Text)
    → All BlockLine lines
    → opening ≡ (past ++ block_of lines) ++ (codes "---\n" ++ body)
    → scan_lines opening (split_inclusive (block_of lines ++ (codes "---\n" ++ body))) (bytes past)
      ≡ scanned_as (past ++ block_of lines) body
unfolding scan_lines split_inclusive text_eq trim_start_matches
scan_lines_block opening past body [] all whole =
    ap (λ z. closed_at z (bytes past) (bytes past + bytes (codes "---\n")))
      (whole ∙ ap (λ z. z ++ (codes "---\n" ++ body)) (append-nil past))
    ∙ closed_at_end past body
    ∙ ap (λ z. scanned_as z body) (sym (append-nil past))
scan_lines_block opening past body (line ∷ lines) all whole =
    let tail = codes "---\n" ++ body in
    let segment = line ++ (b'\n' ∷ []) in
    let segments = split_inclusive (block_of lines ++ tail) in
    let split : split_inclusive (block_of (line ∷ lines) ++ tail) ≡ segment ∷ segments =
      ap split_inclusive (append_assoc line (b'\n' ∷ block_of lines) tail)
      ∙ split_inclusive_line line (block_of lines ++ tail) all.0.0 in
    let shift : (past ++ segment) ++ block_of lines ≡ past ++ block_of (line ∷ lines) =
      append_assoc past segment (block_of lines)
      ∙ ap (λ z. past ++ z) (append_assoc line (b'\n' ∷ []) (block_of lines)) in
    ap (λ z. scan_lines opening z (bytes past)) split
    ∙ scan_lines_on opening segment segments (bytes past) all.0.1
    ∙ ap (λ z. scan_lines opening segments z) (sym (bytes-append past segment))
    ∙ scan_lines_block opening (past ++ segment) body lines all.1
        (whole ∙ ap (λ z. z ++ tail) (sym shift))
    ∙ ap (λ z. scanned_as z body) shift

-- A file that opens with `---`, whose block is made of lines none of which is `---`, and closes it
-- with `---`, is split into that block and what follows.
pub scan-file_of :
    (lines : List Text) (body : Text)
    → All BlockLine lines
    → scan (file_of (block_of lines) body)
      ≡ some (ok (record { frontmatter = some (block_of lines); body = body }))
unfolding scan strip_prefix bytes
scan-file_of lines body all =
    scan_lines_block (block_of lines ++ (codes "---\n" ++ body)) [] body lines all refl

-- The lines of fields that are texts.
abbrev pub field_lines : List (Text × Text) → List Text
field_lines fields = map (λ field. field_line field.0 field.1) fields

abbrev pub entries_of : List (Text × Text) → Fields
entries_of fields = map (λ field. (field.0, text field.1)) fields

-- It is longer than a delimiter.
field_line_differs :
    (key value : Text) → is_key key ≡ true → text_eq (field_line key value) delimiter ≡ false
field_line_differs [] value k = ground arith
field_line_differs (c ∷ key) value k =
    elim (Bool-cases (text_eq (field_line (c ∷ key) value) delimiter)) [
      | inr differ ↦ differ
      | inl same ↦
          let size = length-append key (b':' ∷ b' ' ∷ quote value) in
          let three = ap length ((text_eq_iff (field_line (c ∷ key) value) delimiter).0 same) in
          absurd (omega arith)
    ]

field_line-BlockLine : (key value : Text) → is_key key ≡ true → BlockLine (field_line key value)
field_line-BlockLine key value k = (field_line-in_line key value k, no_delimiter)
  where
    no_delimiter :
        text_eq (trim_end_matches is_break (field_line key value ++ (b'\n' ∷ []))) delimiter ≡ false
    no_delimiter =
        let (t, ends) = field_line_ends key value in
        ap (λ z. text_eq z delimiter)
          (trim_end_matches-skips is_break (field_line key value) b'\n' refl
            ∙ ap (trim_end_matches is_break) ends
            ∙ trim_end_matches-solid is_break t double_quote refl
            ∙ sym ends)
        ∙ field_line_differs key value k

pub field_lines-BlockLine :
    (fields : List (Text × Text)) → Keyed (entries_of fields) → All BlockLine (field_lines fields)
field_lines-BlockLine [] keyed = tt
field_lines-BlockLine ((key, value) ∷ fields) keyed =
    (field_line-BlockLine key value keyed.0, field_lines-BlockLine fields keyed.1)

-- The lines of a block come back.
lines_of-block_of :
    (fields : List (Text × Text))
    → Keyed (entries_of fields)
    → lines_of (block_of (field_lines fields)) ≡ field_lines fields
unfolding split_inclusive
lines_of-block_of [] keyed = refl
lines_of-block_of ((key, value) ∷ fields) keyed =
    let (t, ends) = field_line_ends key value in
    let line = field_line key value in
    let rest = block_of (field_lines fields) in
    ap (map without_break) (split_inclusive_line line rest (field_line-in_line key value keyed.0))
    ∙ ap (λ z. z ∷ lines_of rest)
        (ap (λ z. without_break (z ++ (b'\n' ∷ []))) ends
          ∙ without_break_solid t double_quote refl
          ∙ sym ends)
    ∙ ap (λ z. line ∷ z) (lines_of-block_of fields keyed.1)

parse_lines-field_lines :
    (number : ℕ) (fields : List (Text × Text)) (given : Fields)
    → Keyed (entries_of fields)
    → Unique (given ++ entries_of fields)
    → parse_lines number (field_lines fields) given ≡ some (ok (given ++ entries_of fields))
unfolding parse_lines
parse_lines-field_lines number [] given keyed unique =
    ap (λ z. some (ok z)) (sym (append-nil given))
parse_lines-field_lines number ((key, value) ∷ fields) given keyed unique =
    let fresh = Unique-fresh given (entries_of fields) key (text value) unique in
    let shift = append_assoc given ((key, text value) ∷ []) (entries_of fields) in
    ap (λ m. and_then m (parse_lines (suc number) (field_lines fields)))
      (parse_line-field_line number key value given keyed.0 fresh)
    ∙ parse_lines-field_lines (suc number) fields (given ++ ((key, text value) ∷ [])) keyed.1
        (subst Unique (sym shift) unique)
    ∙ ap (λ z. some (ok z)) shift

-- Fields whose keys are keys and differ, written as `key: ` and the quoted text, one on a line, are
-- read back exactly, in their order, whatever the texts hold.
pub parse-field_lines :
    (fields : List (Text × Text))
    → WellKeyed (entries_of fields)
    → parse (block_of (field_lines fields)) ≡ some (ok (entries_of fields))
parse-field_lines fields well =
    ap (λ z. parse_lines 1 z []) (lines_of-block_of fields well.1)
    ∙ parse_lines-field_lines 1 fields [] well.1 well.0
