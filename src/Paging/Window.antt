-- ===== src/Paging/Window.antt =====
-- `ToolResultPager`: its configuration and `cut`, which selects a window.
use mentra.Base.{
  ℕ, zero, suc, ◌+◌, ◌-◌, min, max, Option, none, some, List, [], ◌∷◌, leb, ltb, if◌then◌else◌,
  length,
}
use mentra.Base.Partial.{◌>>=◌}
use mentra.Base.Text.{Text}
use mentra.Base.Strings.{bytes, split_inclusive, slice_from, slice_to, is_char_boundary}

pub record ToolResultPager : Type 0 where
  pub threshold_bytes : ℕ
  pub page_bytes : ℕ

-- `ToolResultPager::new`: a page has a byte at least.
abbrev pub new_pager : ℕ → ℕ → ToolResultPager
new_pager threshold_bytes page_bytes = record {
  threshold_bytes = threshold_bytes;
  page_bytes = max page_bytes 1;
}

-- The number of a line that was cut, the bytes shown, and those of the whole line.
pub record HardCut : Type 0 where
  pub line : ℕ
  pub shown : ℕ
  pub total : ℕ

pub record Window : Type 0 where
  pub text : Text
  pub first_line : ℕ
  pub last_line : ℕ
  pub total_lines : ℕ
  pub hard_cut : Option HardCut

-- The bytes of the first `count` lines.
unfoldable pub bytes_of_first : ℕ → List Text → ℕ
bytes_of_first zero lines = 0
bytes_of_first (suc count) [] = 0
bytes_of_first (suc count) (line ∷ lines) = bytes line + bytes_of_first count lines

-- The loop over the lines: the bytes shown and the lines counted so far.
unfoldable pub fit : ℕ → ℕ → ℕ → List Text → ℕ × ℕ
fit page_bytes shown lines [] = (shown, lines)
fit page_bytes shown lines (line ∷ rest) =
    let later = fit page_bytes (shown + bytes line) (lines + 1) rest in
    if ltb page_bytes (shown + bytes line) then (shown, lines) else later

-- `while end > 0 && !line.is_char_boundary(end)`.
unfoldable pub floor_boundary : ℕ → Text → ℕ
floor_boundary zero line = 0
floor_boundary (suc end) line =
    let lower = floor_boundary end line in
    if is_char_boundary (suc end) line then suc end else lower

-- The line at `start_line` alone exceeds a page.
abbrev pub cut_line : ℕ → ℕ → ℕ → List Text → Option Window
cut_line page_bytes start_line total_lines [] = none
cut_line page_bytes start_line total_lines (line ∷ rest) =
    let end = floor_boundary (min page_bytes (bytes line)) line in
    slice_to end line >>= λ text. some (record {
      text = text;
      first_line = start_line;
      last_line = start_line;
      total_lines = total_lines;
      hard_cut = some (record { line = start_line; shown = end; total = bytes line });
    })

abbrev pub cut_fitting : ℕ → ℕ → ℕ → Text → ℕ × ℕ → Option Window
cut_fitting page_bytes start_line total_lines rest (shown, zero) =
    cut_line page_bytes start_line total_lines (split_inclusive rest)
cut_fitting page_bytes start_line total_lines rest (shown, suc lines) =
    slice_to shown rest >>= λ text. some (record {
      text = text;
      first_line = start_line;
      last_line = start_line + suc lines - 1;
      total_lines = total_lines;
      hard_cut = none;
    })

-- `text[start..]` and what is shown of it.
abbrev pub cut_from : ℕ → ℕ → ℕ → Text → Option Window
cut_from page_bytes start_line total_lines rest =
    cut_fitting page_bytes start_line total_lines rest (fit page_bytes 0 0 (split_inclusive rest))

-- `none` is a panic.
unfoldable pub cut : ToolResultPager → Text → ℕ → Option Window
cut pager text start_line =
    let total_lines = length (split_inclusive text) in
    if ltb total_lines start_line
    then some (record {
      text = [];
      first_line = start_line;
      last_line = total_lines;
      total_lines = total_lines;
      hard_cut = none;
    })
    else slice_from (bytes_of_first (start_line - 1) (split_inclusive text)) text
      >>= cut_from pager.page_bytes start_line total_lines

-- The window that `window` renders.
abbrev pub window : ToolResultPager → Text → ℕ → Option Window
window pager text start_line = cut pager text (max start_line 1)

-- What follows the window's text: the end marker, or a trailer that names the next line.
pub data Trailer : Type 0 where
  end_of_result : Trailer
  paged : ℕ → ℕ → ℕ → ℕ → Trailer

abbrev pub trailer : Window → Trailer
trailer w =
    if leb w.total_lines w.last_line
    then end_of_result
    else paged w.first_line w.last_line w.total_lines (w.last_line + 1)

-- The first window of an oversized result, and `none` for one that is inserted unchanged.
abbrev pub first_page : ToolResultPager → Text → Option (Option Window)
first_page pager text =
    if leb (bytes text) pager.threshold_bytes then none else some (window pager text 1)
