-- ===== src/Paging/Cut.antt =====
-- What `cut` selects, on each of its branches: it never panics, whole lines fill the page, and only
-- a line that is longer than a page is cut.
use mentra.Base.{
  ℕ, zero, suc, ◌+◌, ◌-◌, ◌≤◌, ◌<◌, ◌≡◌, ◌∙◌, refl, sym, ap, subst, min, Option, none, some, List,
  [], ◌∷◌, ◌++◌, false, Bool-cases, inl, inr, arith, length, ltb, take, drop, join, get_elem?,
}
use mathlib.Core.List.{append_assoc}
use mathlib.Core.Option.{some-injective}
use mentra.Base.Text.{Text}
use mentra.Base.Strings.{bytes, split_inclusive, slice_from, slice_to, is_char_boundary}
use mentra.Paging.Window.{
  ToolResultPager, Window, bytes_of_first, fit, floor_boundary, cut_line, cut_fitting, cut,
}
use mentra.Paging.Slices.{floor_boundary-Prefix, floor_boundary-last}
use mentra.Base.Slices.{
  join-lines, bytes-append, slice_from-skip, slice_to-append, split_inclusive-Splits,
}

-- The loop takes the longest run of lines that fits.
abbrev pub Fits : ℕ → ℕ → ℕ → List Text → ℕ × ℕ → Type 0
Fits page shown lines rest (shown', lines') =
    (k : ℕ) × (lines' ≡ lines + k)
    × (k ≤ length rest)
    × (shown' ≡ shown + bytes (join (take k rest)))
    × (shown ≤ page → shown' ≤ page)
    × ((l : Text) → get_elem? rest k ≡ some l → page < shown' + bytes l)

pub fit-Fits :
    (page shown lines : ℕ) (rest : List Text)
    → Fits page shown lines rest (fit page shown lines rest)
unfolding fit bytes
fit-Fits page shown lines [] = (0, omega arith, omega arith, omega arith, (λ h. h), λ l e. cc)
fit-Fits page shown lines (line ∷ rest) = elim (Bool-cases (ltb page (shown + bytes line))) [
  | inl over ↦ rw over (
    0,
    omega arith,
    omega arith,
    omega arith,
    (λ h. h),
    λ l e. subst (λ z. page < shown + bytes z) (some-injective _ _ e) (ground arith),
  )
  | inr fits ↦
      let (k, n, le, s, small, next) = fit-Fits page (shown + bytes line) (lines + 1) rest in
      let sum = bytes-append line (join (take k rest)) in
      rw fits (suc k, omega arith, omega arith, omega arith, (λ h. small (ground arith)), next)
]

slice_from-lines :
    (k : ℕ) (text : Text) (lines : List Text)
    → split_inclusive text ≡ lines
    → k ≤ length lines
    → (rest : Text) × (slice_from (bytes_of_first k lines) text ≡ some rest)
      × (split_inclusive rest ≡ drop k lines)
unfolding slice_from bytes_of_first
slice_from-lines zero text lines e le = (text, refl, e)
slice_from-lines (suc k) text [] e le = absurd (omega arith)
slice_from-lines (suc k) text (l ∷ ls) e le =
    let (r, t, s) = split_inclusive-Splits text l ls e in
    let (rest, slice, split) = slice_from-lines k r ls s (omega arith) in
    (
      rest,
      ap (slice_from (bytes l + bytes_of_first k ls)) t
          ∙ slice_from-skip l r (bytes_of_first k ls)
          ∙ slice,
      split,
    )

join-take-drop : (k : ℕ) (xss : List Text) → join (take k xss) ++ join (drop k xss) ≡ join xss
join-take-drop zero xss = refl
join-take-drop (suc k) [] = refl
join-take-drop (suc k) (xs ∷ xss) =
    append_assoc xs (join (take k xss)) (join (drop k xss))
    ∙ ap (λ z. xs ++ z) (join-take-drop k xss)

pub length-drop : {A : Type 0} (k : ℕ) (xs : List A) → length (drop k xs) ≡ length xs - k
length-drop zero xs = omega arith
length-drop (suc k) [] = omega arith
length-drop (suc k) (x ∷ xs) = omega (arith, length-drop k xs)

-- What a window shows of a text.
pub data Shows (pager : ToolResultPager) (text : Text) (start : ℕ) (w : Window) : Type 0 where
  -- Nothing, past the end.
  past_end :
      length (split_inclusive text) < start
      → w.text ≡ []
      → w.last_line ≡ length (split_inclusive text)
      → w.hard_cut ≡ none
      → Shows pager text start w
  -- As many whole lines as fit, and one at least.
  whole_lines :
      (k : ℕ)
      → 1 ≤ k
      → start + k ≤ suc (length (split_inclusive text))
      → w.text ≡ join (take k (drop (start - 1) (split_inclusive text)))
      → w.last_line + 1 ≡ start + k
      → w.hard_cut ≡ none
      → bytes w.text ≤ pager.page_bytes
      → ((l : Text)
          → get_elem? (drop (start - 1) (split_inclusive text)) k ≡ some l
          → pager.page_bytes < bytes w.text + bytes l)
      → Shows pager text start w
  -- The beginning of a line that is longer than a page, up to the last character that fits.
  part_of_line :
      (line rest : Text)
      → get_elem? (drop (start - 1) (split_inclusive text)) 0 ≡ some line
      → pager.page_bytes < bytes line
      → line ≡ w.text ++ rest
      → bytes w.text ≤ pager.page_bytes
      → ((n : ℕ) → bytes w.text < n → n ≤ pager.page_bytes → is_char_boundary n line ≡ false)
      → w.last_line ≡ start
      → w.hard_cut ≡ some (record { line = start; shown = bytes w.text; total = bytes line })
      → Shows pager text start w

module _ (pager : ToolResultPager) (text : Text) (start : ℕ) where
  abbrev lines : List Text
  lines = split_inclusive text

  -- The window is there, with its numbers, and shows the text.
  abbrev pub Selected : Option Window → Type 0
  Selected o =
      (w : Window) × (o ≡ some w)
      × (w.first_line ≡ start)
      × (w.total_lines ≡ length lines)
      × Shows pager text start w

  Selected-line :
      (line : Text) (more : List Text)
      → drop (start - 1) lines ≡ line ∷ more
      → pager.page_bytes < bytes line
      → Selected (cut_line pager.page_bytes start (length lines) (line ∷ more))
  Selected-line line more at long =
      let end = floor_boundary (min pager.page_bytes (bytes line)) line in
      let (a, b, t, n) = floor_boundary-Prefix (min pager.page_bytes (bytes line)) line in
      let (le, last) = floor_boundary-last (min pager.page_bytes (bytes line)) line in
      let shown : slice_to end line ≡ some a =
        ap (slice_to end) t ∙ ap (λ z. slice_to z (a ++ b)) (sym n) ∙ slice_to-append a b in
      (
        record {
          text = a;
          first_line = start;
          last_line = start;
          total_lines = length lines;
          hard_cut = some (record { line = start; shown = end; total = bytes line });
        },
        rw shown refl,
        refl,
        refl,
        Shows.part_of_line line b (rw at refl) long t (omega arith)
            (λ m over small. last m (omega arith) (omega arith)) refl (rw n refl),
      )

  Selected-whole :
      (rest : Text) (shown k : ℕ)
      → split_inclusive rest ≡ drop (start - 1) lines
      → start + suc k ≤ suc (length lines)
      → shown ≡ bytes (join (take (suc k) (split_inclusive rest)))
      → shown ≤ pager.page_bytes
      → ((l : Text)
          → get_elem? (split_inclusive rest) (suc k) ≡ some l
          → pager.page_bytes < shown + bytes l)
      → Selected (cut_fitting pager.page_bytes start (length lines) rest (shown, suc k))
  Selected-whole rest shown k at le sum small next =
      let a = join (take (suc k) (split_inclusive rest)) in
      let b = join (drop (suc k) (split_inclusive rest)) in
      let parts : rest ≡ a ++ b =
        sym (join-lines rest (split_inclusive rest) refl)
        ∙ sym (join-take-drop (suc k) (split_inclusive rest)) in
      let taken : slice_to shown rest ≡ some a =
        ap (slice_to shown) parts ∙ ap (λ z. slice_to z (a ++ b)) sum ∙ slice_to-append a b in
      (
        record {
          text = a;
          first_line = start;
          last_line = start + suc k - 1;
          total_lines = length lines;
          hard_cut = none;
        },
        rw taken refl,
        refl,
        refl,
        Shows.whole_lines (suc k) (omega arith) le (ap (λ z. join (take (suc k) z)) at)
            (omega arith) refl (omega arith)
            (λ l e.
              subst (λ z. pager.page_bytes < z + bytes l) sum
                (next l (subst (λ z. get_elem? z (suc k) ≡ some l) (sym at) e))),
      )

  Selected-fitting :
      (rest : Text) (fitting : ℕ × ℕ)
      → 1 ≤ start
      → start ≤ length lines
      → split_inclusive rest ≡ drop (start - 1) lines
      → Fits pager.page_bytes 0 0 (split_inclusive rest) fitting
      → Selected (cut_fitting pager.page_bytes start (length lines) rest fitting)
  unfolding bytes
  Selected-fitting rest (shown, zero) one le at (k, n, some_left, sum, small, next) =
      go (split_inclusive rest) refl
    where
      go :
          (ls : List Text)
          → split_inclusive rest ≡ ls
          → Selected (cut_line pager.page_bytes start (length lines) ls)
      go [] e =
          let size : 0 ≡ length lines - (start - 1) =
            ap length (sym e ∙ at) ∙ length-drop (start - 1) lines in
          absurd (omega arith)
      go (line ∷ more) e =
          let k0 : k ≡ 0 = omega arith in
          let none_shown : bytes (join (take k (split_inclusive rest))) ≡ 0 =
            ap (λ z. bytes (join (take z (split_inclusive rest)))) k0 in
          let first : get_elem? (split_inclusive rest) k ≡ some line = rw (k0, e) refl in
          let over = next line first in Selected-line line more (sym at ∙ e) (omega arith)
  Selected-fitting rest (shown, suc k) one le at (k', n, some_left, sum, small, next) =
      let same : k' ≡ suc k = omega arith in
      let shows : bytes (join (take k' (split_inclusive rest)))
          ≡ bytes (join (take (suc k) (split_inclusive rest))) =
        ap (λ z. bytes (join (take z (split_inclusive rest)))) same in
      let size : length (split_inclusive rest) ≡ length lines - (start - 1) =
        ap length at ∙ length-drop (start - 1) lines in
      Selected-whole rest shown k at (omega arith) (omega arith) (small (omega arith))
        (λ l e. next l (rw same e))

-- Cutting never panics. Past the end the window is empty, and its first line is the start line that
-- was asked for and its last the total of lines, however far apart these are. Otherwise it shows as
-- many whole lines from the start line as fit in a page, or, if the first of them alone does not
-- fit, its longest beginning that does, with the mark that says so.
pub cut-Selected :
    (pager : ToolResultPager) (text : Text) (start : ℕ)
    → 1 ≤ start
    → Selected pager text start (cut pager text start)
unfolding cut
cut-Selected pager text start one = elim (Bool-cases (ltb (length (split_inclusive text)) start)) [
  | inl past ↦ rw past (_, refl, refl, refl, Shows.past_end (ground arith) refl refl refl)
  | inr within ↦
      let (rest, slice, at) =
        slice_from-lines (start - 1) text (split_inclusive text) refl (ground arith) in
      rw (within, slice)
        (Selected-fitting pager text start rest (fit pager.page_bytes 0 0 (split_inclusive rest))
          one (ground arith) at (fit-Fits pager.page_bytes 0 0 (split_inclusive rest)))
]
