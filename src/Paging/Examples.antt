-- ===== src/Paging/Examples.antt =====
-- Windows at concrete inputs: tests, and the witnesses of their theorems.
use mentra.Base.{suc, ◌≡◌, ◌++◌, refl, none, some, [], ◌∷◌, length, arith}
use mentra.Base.Text.{Text, codes}
use mentra.Base.Strings.{bytes, split_inclusive, slice_from, slice_to, is_char_boundary}
use mentra.Paging.Window.{
  ToolResultPager, new_pager, cut, first_page, fit, floor_boundary, bytes_of_first,
}
use mentra.Paging.Cut.{Selected, cut-Selected}
use mentra.Paging.Tiles.{clip_all, read_on, read_on-all}

-- Pages of six bytes, and results of more than ten.
abbrev small : ToolResultPager
small = new_pager 10 6

-- Two short lines, one of four characters and nine bytes, and one without a line break.
abbrev result : Text
result = codes "ab\nc\n" ++ (0x4f60 ∷ 0x597d ∷ 0xe9 ∷ 10 ∷ []) ++ codes "end"

short_lines :
    cut small result 1
    ≡ some (record {
      text = codes "ab\nc\n";
      first_line = 1;
      last_line = 2;
      total_lines = 4;
      hard_cut = none;
    })
unfolding cut split_inclusive fit bytes slice_from slice_to bytes_of_first
short_lines = refl

long_line :
    cut small result 3
    ≡ some (record {
      text = 0x4f60 ∷ 0x597d ∷ [];
      first_line = 3;
      last_line = 3;
      total_lines = 4;
      hard_cut = some (record { line = 3; shown = 6; total = 9 });
    })
unfolding cut split_inclusive fit bytes slice_from slice_to bytes_of_first floor_boundary
    is_char_boundary
long_line = refl

small_enough : first_page small (codes "ab\n") ≡ none
unfolding bytes
small_enough = refl

cut-Selected_example : Selected small result 3 (cut small result 3)
cut-Selected_example = cut-Selected small result 3 (omega arith)

read_on-all_example :
    read_on (suc (length (split_inclusive result))) small result 1
    ≡ some (clip_all small.page_bytes (split_inclusive result))
read_on-all_example = read_on-all small result
