-- ===== src/Frontmatter/ScanReturns.antt =====
-- Scanning ends for every file, without a slice off a boundary.
use mentra.Base.{
  ◌+◌, ◌≡◌, ◌∙◌, refl, sym, ap, subst, Option, none, some, List, [], ◌∷◌, ◌++◌, Bool-cases, inl,
  inr,
}
use mathlib.Core.List.{append_assoc}
use mentra.Base.Text.{Text, text_eq}
use mentra.Base.Strings.{
  bytes, slice_from, slice_to, trim_start_matches, trim_end_matches, split_inclusive,
}
use mentra.Base.Slices.{
  slice_from-append, bytes-append, slice_from-skip, slice_to-append, split_inclusive-empty,
  split_inclusive-Splits,
}
use mentra.Frontmatter.Scan.{
  is_break, delimiter, closed_at, close_at_end, scan_lines, scan_opening, scan,
}

-- A computation that neither panics nor runs out of fuel.
abbrev pub Returns {ℓ} : {A : Type ℓ} → Option A → Type ℓ
Returns {A = A} o = (a : A) × (o ≡ some a)

closed_at-Returns :
    (opening past segment rest : Text)
    → opening ≡ past ++ (segment ++ rest)
    → Returns (closed_at opening (bytes past) (bytes past + bytes segment))
closed_at-Returns opening past segment rest whole =
    let block : slice_to (bytes past) opening ≡ some past =
      ap (slice_to (bytes past)) whole ∙ slice_to-append past (segment ++ rest) in
    let body : slice_from (bytes past + bytes segment) opening ≡ some rest =
      ap (slice_from (bytes past + bytes segment)) whole
      ∙ slice_from-skip past (segment ++ rest) (bytes segment)
      ∙ slice_from-append segment rest in
    rw (block, body) (_, refl)

-- The lines take up the whole text, so nothing is left for the test after the loop.
close_at_end-Returns :
    (opening past : Text) → opening ≡ past ++ [] → Returns (close_at_end opening (bytes past))
unfolding text_eq trim_start_matches
close_at_end-Returns opening past whole =
    let rest : slice_from (bytes past) opening ≡ some [] =
      ap (slice_from (bytes past)) whole ∙ slice_from-append past [] in
    rw rest (_, refl)

scan_lines-Returns :
    (opening past rest : Text) (lines : List Text)
    → opening ≡ past ++ rest
    → split_inclusive rest ≡ lines
    → Returns (scan_lines opening lines (bytes past))
unfolding scan_lines
scan_lines-Returns opening past rest [] whole split =
    close_at_end-Returns opening past
      (whole ∙ ap (λ z. past ++ z) (split_inclusive-empty rest split))
scan_lines-Returns opening past rest (line ∷ lines) whole split =
    let (later, parts, splits) = split_inclusive-Splits rest line lines split in
    let all : opening ≡ past ++ (line ++ later) = whole ∙ ap (λ z. past ++ z) parts in
    elim (Bool-cases (text_eq (trim_end_matches is_break line) delimiter)) [
      | inl closed ↦ rw closed (closed_at-Returns opening past line later all)
      | inr on ↦ rw on (
          subst (λ n. Returns (scan_lines opening lines n)) (bytes-append past line)
            (scan_lines-Returns opening (past ++ line) later lines
              (all ∙ sym (append_assoc past line later)) splits))
    ]

scan_opening-Returns : (raw : Text) (o : Option Text) → Returns (scan_opening raw o)
unfolding bytes
scan_opening-Returns raw none = (_, refl)
scan_opening-Returns raw (some opening) =
    scan_lines-Returns opening [] opening (split_inclusive opening) refl refl

pub scan-Returns : (raw : Text) → Returns (scan raw)
unfolding scan
scan-Returns raw = scan_opening-Returns _ _
