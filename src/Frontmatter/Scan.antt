-- ===== src/Frontmatter/Scan.antt =====
-- `scan`: a file split at its `---` lines.
use mentra.Base.{ℕ, ◌+◌, Option, none, some, List, [], ◌∷◌, Bool, ◌||◌, ◌==◌, if◌then◌else◌}
use mentra.Base.Partial.{◌>>=◌}
use mentra.Base.Results.{Result, ok, err, or_else, unwrap_or}
use mentra.Base.Text.{Text, codes, text_eq}
use mentra.Base.Strings.{
  bytes, strip_prefix, trim_end_matches, slice_from, slice_to, split_inclusive,
}

pub record Scanned : Type 0 where
  pub frontmatter : Option Text
  pub body : Text

pub data Unterminated : Type 0 where
  unterminated : Unterminated

-- A line break, or what a file from Windows has before it.
abbrev pub is_break : ℕ → Bool
is_break c = c == b'\n' || c == b'\r'

abbrev pub delimiter : Text
delimiter = codes "---"

abbrev pub closed_at : Text → ℕ → ℕ → Option (Result Scanned Unterminated)
closed_at opening cursor past = slice_to cursor opening >>= λ block.
    slice_from past opening >>= λ body. some (ok (record { frontmatter = some block; body = body }))

-- After the loop: the last line may close the block without a line break.
abbrev pub close_at_end : Text → ℕ → Option (Result Scanned Unterminated)
close_at_end opening cursor = slice_from cursor opening >>= λ rest.
    if text_eq (trim_end_matches (λ c. c == b'\r') rest) delimiter
    then slice_to cursor opening
      >>= (λ block. some (ok (record { frontmatter = some block; body = [] })))
    else some (err unterminated)

-- The loop over the lines, from a byte offset on.
unfoldable pub scan_lines : Text → List Text → ℕ → Option (Result Scanned Unterminated)
scan_lines opening [] cursor = close_at_end opening cursor
scan_lines opening (segment ∷ segments) cursor =
    let rest = scan_lines opening segments (cursor + bytes segment) in
    if text_eq (trim_end_matches is_break segment) delimiter
    then closed_at opening cursor (cursor + bytes segment)
    else rest

abbrev pub scan_opening : Text → Option Text → Option (Result Scanned Unterminated)
scan_opening raw none = some (ok (record { frontmatter = none; body = raw }))
scan_opening raw (some opening) = scan_lines opening (split_inclusive opening) 0

abbrev pub without_mark : Text → Text
without_mark raw = unwrap_or (strip_prefix (0xfeff ∷ []) raw) raw

-- `none` would be a slice off a boundary, which panics.
unfoldable pub scan : Text → Option (Result Scanned Unterminated)
scan raw = scan_opening (without_mark raw) (
    or_else (strip_prefix (codes "---\r\n") (without_mark raw))
      (strip_prefix (codes "---\n") (without_mark raw)))
