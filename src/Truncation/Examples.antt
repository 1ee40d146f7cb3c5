-- ===== src/Truncation/Examples.antt =====
-- A result of more lines than its limit: a test, and the witness of the theorem.
use mentra.Base.{◌≡◌, refl, some}
use mentra.Base.Text.{Text, codes}
use mentra.Base.Strings.{bytes, split_inclusive, slice_from, slice_to}
use mentra.Truncation.Limit.{
  ToolOutputLimiter, Limited, truncated, windows, count_breaks, take_head, take_tail, apply_text,
}
use mentra.Truncation.Shares.{Fits}
use mentra.Truncation.Windows.{apply_text-Fits}

abbrev four_lines : ToolOutputLimiter
four_lines = record { max_bytes = 256; max_lines = 4 }

abbrev output : Text
output = codes "a\nb\nc\nd\ne\nf"

both_ends :
    apply_text four_lines output
    ≡ some (
        truncated
          (record { head = codes "a\nb\n"; shown = 4; total_lines = 6; tail = codes "e\nf" }))
unfolding apply_text windows count_breaks take_head take_tail bytes split_inclusive slice_from
    slice_to
both_ends = refl

apply_text-Fits_example :
    (r : Limited) × (apply_text four_lines output ≡ some r) × Fits four_lines output r
apply_text-Fits_example = apply_text-Fits four_lines output
