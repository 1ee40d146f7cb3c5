-- ===== src/Truncation/Limit.antt =====
-- `ToolOutputLimiter::apply_text` without the words of its notice, and the spill file.
use mentra.Base.{
  ℕ, suc, ◌+◌, ◌-◌, ◌/◌, Option, some, List, [], ◌∷◌, Bool, ◌&&◌, ◌||◌, ◌==◌, leb, ltb,
  if◌then◌else◌, is_empty,
}
use mathlib.Core.List.{reverse}
use mentra.Base.Partial.{◌>>=◌}
use mentra.Base.Text.{Text}
use mentra.Base.Strings.{bytes, split_inclusive, slice_from, slice_to, starts_with}

pub record ToolOutputLimiter : Type 0 where
  pub max_bytes : ℕ
  pub max_lines : ℕ

abbrev pub min_bytes_for_two_windows : ℕ
min_bytes_for_two_windows = 256

abbrev pub min_lines_for_two_windows : ℕ
min_lines_for_two_windows = 4

-- What `windows` returns.
pub record Budget : Type 0 where
  pub head_bytes : ℕ
  pub head_lines : ℕ
  pub tail_bytes : ℕ
  pub tail_lines : ℕ

-- A room for one window only is spent on the start of the text.
unfoldable pub windows : ToolOutputLimiter → Budget
windows l =
    if ltb l.max_bytes min_bytes_for_two_windows || ltb l.max_lines min_lines_for_two_windows
    then record {
      head_bytes = l.max_bytes;
      head_lines = l.max_lines;
      tail_bytes = 0;
      tail_lines = 0;
    }
    else record {
      head_bytes = l.max_bytes / 2;
      head_lines = l.max_lines / 2;
      tail_bytes = l.max_bytes - l.max_bytes / 2;
      tail_lines = l.max_lines - l.max_lines / 2;
    }

unfoldable pub count_breaks : Text → ℕ
count_breaks [] = 0
count_breaks (c ∷ text) = (if c == b'\n' then 1 else 0) + count_breaks text

abbrev pub ends_with_break : Text → Bool
ends_with_break text = starts_with (λ c. c == b'\n') (reverse text)

abbrev pub line_count : Text → ℕ
line_count text =
    if is_empty text then 0 else count_breaks text + (if ends_with_break text then 0 else 1)

-- The loop of the head: the bytes and the lines that it shows. A sum of the lengths of a text's
-- lines does not saturate.
unfoldable pub take_head : ℕ → ℕ → ℕ → ℕ → List Text → ℕ × ℕ
take_head head_bytes head_lines shown_bytes shown_lines [] = (shown_bytes, shown_lines)
take_head head_bytes head_lines shown_bytes shown_lines (line ∷ lines) =
    let rest = take_head head_bytes head_lines (shown_bytes + bytes line) (suc shown_lines) lines in
    if shown_lines == head_lines || ltb head_bytes (shown_bytes + bytes line)
    then (shown_bytes, shown_lines)
    else rest

-- The loop of the tail, over the lines from the last one: where it starts, and its lines. The lines
-- that are left end at `tail_start`.
unfoldable pub take_tail : Budget → ℕ → ℕ → ℕ → ℕ → List Text → ℕ × ℕ
take_tail b shown_bytes len tail_start kept [] = (tail_start, kept)
take_tail b shown_bytes len tail_start kept (line ∷ lines) =
    let start = tail_start - bytes line in
    let rest = take_tail b shown_bytes len start (suc kept) lines in
    if ltb start shown_bytes || (kept == b.tail_lines || ltb b.tail_bytes (len - start))
    then (tail_start, kept)
    else rest

abbrev pub tail_of : Budget → ℕ → Text → ℕ × ℕ
tail_of b shown_bytes text =
    if ltb 0 b.tail_lines
    then take_tail b shown_bytes (bytes text) (bytes text) 0 (reverse (split_inclusive text))
    else (bytes text, 0)

-- A result that is shown whole, or the two windows with the numbers that the notice between them
-- gives.
pub record Windowed : Type 0 where
  pub head : Text
  pub shown : ℕ
  pub total_lines : ℕ
  pub tail : Text

pub data Limited : Type 0 where
  whole : Text → Limited
  truncated : Windowed → Limited

abbrev pub cut_at : Text → ℕ × ℕ → ℕ × ℕ → Option Limited
cut_at text (shown_bytes, shown_lines) (tail_start, kept) = slice_to shown_bytes text >>= λ head.
    slice_from tail_start text >>= λ tail. some (
      truncated (record {
        head = head;
        shown = shown_lines + kept;
        total_lines = line_count text;
        tail = tail;
      }))

abbrev pub cut_windows : Budget → Text → ℕ × ℕ → Option Limited
cut_windows b text shown = cut_at text shown (tail_of b shown.0 text)

-- `none` would be a slice off a boundary, which panics.
unfoldable pub apply_text : ToolOutputLimiter → Text → Option Limited
apply_text l text =
    if leb (bytes text) l.max_bytes && leb (line_count text) l.max_lines
    then some (whole text)
    else cut_windows (windows l) text
        (take_head (windows l).head_bytes (windows l).head_lines 0 0 (split_inclusive text))
