-- ===== src/Truncation/Windows.antt =====
-- What the two windows show, and that they stay within the limits.
use mentra.Base.{
  ℕ, ◌+◌, ◌≤◌, ◌≡◌, ◌≢◌, ◌∙◌, refl, sym, ap, subst, some, List, [], ◌∷◌, ◌++◌, false, ◌&&◌, leb,
  ltb, length, length-append, join, ◌<◌, ◌⊎◌, Bool-cases, inl, inr, arith,
}
use mathlib.Core.List.{reverse, reverse-append, reverse-reverse, append_assoc, append_cancel_left}
use mentra.Base.Text.{Text}
use mentra.Base.Strings.{bytes, split_inclusive, slice_from, slice_to}
use mentra.Base.Slices.{slice_from-append, slice_to-append, join-lines}
use mentra.Truncation.Limit.{
  ToolOutputLimiter, Budget, windows, line_count, take_head, tail_of, Limited, whole, cut_at,
  apply_text,
}
use mentra.Truncation.Lines.{
  total, total-append, total-reverse, length-reverse, bytes-join, join-append, Long,
  split_inclusive-Long, starts_longer, Long-start, line_count-lines,
}
use mentra.Truncation.Taken.{Headed, Tailed, take_head-Headed, take_tail-Tailed}
use mentra.Truncation.Shares.{Fits, windows-Share}

tail_of-Tailed :
    (b : Budget) (shown : ℕ) (text : Text)
    → shown ≤ bytes text
    → Tailed b shown (bytes text) 0 (reverse (split_inclusive text)) (tail_of b shown text)
tail_of-Tailed b shown text le =
    let lines = split_inclusive text in
    let size : bytes text ≡ total (reverse lines) =
      ap bytes (sym (join-lines text lines refl)) ∙ bytes-join lines ∙ sym (total-reverse lines) in
    elim (Bool-cases (ltb 0 b.tail_lines)) [
      | inl some_lines ↦ rw some_lines (
          take_tail-Tailed b shown (bytes text) (bytes text) 0 (reverse lines) size le (omega arith)
            (omega arith))
      | inr no_lines ↦ rw no_lines (
        [],
        reverse lines,
        refl,
        size,
        refl,
        le,
        omega arith,
        omega arith,
        λ l more e. inr (inl (ground arith)),
      )
    ]

cut_at-Fits :
    (l : ToolOutputLimiter) (text : Text) (shown tail : ℕ × ℕ)
    → (leb (bytes text) l.max_bytes && leb (line_count text) l.max_lines) ≡ false
    → Headed (windows l) 0 0 (split_inclusive text) shown
    → Tailed (windows l) shown.0 (bytes text) 0 (reverse (split_inclusive text)) tail
    → (r : Limited) × (cut_at text shown tail ≡ some r) × Fits l text r
cut_at-Fits l text (shown_bytes, shown_lines) (start, kept) over
      (a, rest, heads, hb, hl, hb_le, hl_le, head_full)
      (taken, left, tails, tb, tl, shown_le, tl_le, tb_le, tail_full) =
    let lines = split_inclusive text in
    let share = windows-Share l in
    let b = reverse taken in
    let early = reverse left in
    let ends : lines ≡ early ++ b =
      sym (reverse-reverse lines) ∙ ap reverse tails ∙ reverse-append taken left in
    let start_total : start ≡ total early = tb ∙ sym (total-reverse left) in
    let (m, between) =
      starts_longer a rest early b
        (Long-start a rest (subst Long heads (split_inclusive-Long text))) (sym heads ∙ ends)
        (omega arith) in
    let split : lines ≡ a ++ (m ++ b) = ends ∙ ap (λ z. z ++ b) between ∙ append_assoc a m b in
    let all : text ≡ join lines = sym (join-lines text lines refl) in
    let head : slice_to shown_bytes text ≡ some (join a) =
      ap (λ n. slice_to n text) (hb ∙ (let e = bytes-join a in omega arith))
      ∙ ap (slice_to (bytes (join a))) (all ∙ ap join split ∙ join-append a (m ++ b))
      ∙ slice_to-append (join a) (join (m ++ b)) in
    let tail : slice_from start text ≡ some (join b) =
      ap (λ n. slice_from n text) (start_total ∙ sym (bytes-join early))
      ∙ ap (slice_from (bytes (join early))) (all ∙ ap join ends ∙ join-append early b)
      ∙ slice_from-append (join early) (join b) in
    let count : line_count text ≡ length a + (length m + length b) =
      line_count-lines text
      ∙ ap length split
      ∙ length-append a (m ++ b)
      ∙ ap (λ z. length a + z) (length-append m b) in
    let size : bytes text ≡ total a + (total m + total b) =
      ap bytes all
      ∙ bytes-join lines
      ∙ ap total split
      ∙ total-append a (m ++ b)
      ∙ ap (λ z. total a + z) (total-append m b) in
    let same_count = length-reverse taken in
    let kept_b : kept ≡ length b = omega arith in
    let ab = bytes-join a in
    let bb = bytes-join b in
    let same_total = total-reverse taken in
    let early_size : total early ≡ total a + total m = ap total between ∙ total-append a m in
    let tail_fits : total b ≤ (windows l).tail_bytes = omega arith in
    let rest_same : rest ≡ m ++ b = append_cancel_left a rest (m ++ b) (sym heads ∙ split) in
    let some_out : m ≢ [] = left_out a b m count size (omega arith) (omega arith) in
    rw (head, tail)
      (
        _,
        refl,
        record {
          over = too_much over;
          head_bytes = (windows l).head_bytes;
          head_lines = (windows l).head_lines;
          tail_bytes = (windows l).tail_bytes;
          tail_lines = (windows l).tail_lines;
          share = share;
          a = a;
          m = m;
          b = b;
          lines = split;
          left_out = some_out;
          head = refl;
          tail = refl;
          shown = omega arith;
          total_lines = count;
          head_fits = (omega arith, omega arith);
          tail_fits = (omega arith, omega arith);
          head_full = λ next more e.
              elim (head_full next (more ++ b) (rest_same ∙ ap (λ z. z ++ b) e)) [
                | inl lines_full ↦ inl (omega arith)
                | inr bytes_full ↦ inr (omega arith)
              ];
          tail_full = λ next more e.
              let last : left ≡ next ∷ reverse (a ++ more) =
                sym (reverse-reverse left)
                ∙ ap reverse (between ∙ ap (λ z. a ++ z) e ∙ sym (append_assoc a more (next ∷ [])))
                ∙ reverse-append (a ++ more) (next ∷ []) in
              let parts : total m ≡ total more + (bytes next + 0) =
                ap total e ∙ total-append more (next ∷ []) in
              elim (tail_full next (reverse (a ++ more)) last) [
                | inl meets ↦ absurd (omega arith)
                | inr full ↦ elim full [
                  | inl lines_full ↦ inl (omega arith)
                  | inr bytes_full ↦ inr (omega arith)
                ]
              ];
        },
      )
  where
    too_much :
        (leb (bytes text) l.max_bytes && leb (line_count text) l.max_lines) ≡ false
        → (l.max_bytes < bytes text) ⊎ (l.max_lines < line_count text)
    too_much off = ground arith

    left_out :
        (a b m : List Text)
        → line_count text ≡ length a + (length m + length b)
        → bytes text ≡ total a + (total m + total b)
        → total a + total b ≤ l.max_bytes
        → length a + length b ≤ l.max_lines
        → m ≢ []
    left_out a b m count size byte_le line_le none_left =
        let no_lines = ap length none_left in
        let no_bytes = ap total none_left in
        let in_bytes : bytes text ≤ l.max_bytes = omega arith in
        let in_lines : line_count text ≤ l.max_lines = omega arith in ground arith

Headed-bytes :
    (l : ToolOutputLimiter) (text : Text) (shown : ℕ × ℕ)
    → Headed (windows l) 0 0 (split_inclusive text) shown
    → shown.0 ≤ bytes text
Headed-bytes l text (shown_bytes, shown_lines) (a, rest, heads, hb, hl, hb_le, hl_le, full) =
    let lines = split_inclusive text in
    let size : bytes text ≡ total a + total rest =
      ap bytes (sym (join-lines text lines refl))
      ∙ bytes-join lines
      ∙ ap total heads
      ∙ total-append a rest in
    omega arith

-- A result is shown whole exactly if it is within both limits. Any other is cut without a slice off
-- a boundary: its head is the first lines and its tail the last ones, as many as fit their shares of
-- the limits, so that the next line would not; at least one line between them is left out, and the
-- notice counts the lines shown and all lines rightly.
pub apply_text-Fits :
    (l : ToolOutputLimiter) (text : Text)
    → (r : Limited) × (apply_text l text ≡ some r) × Fits l text r
unfolding apply_text
apply_text-Fits l text =
    elim (Bool-cases (leb (bytes text) l.max_bytes && leb (line_count text) l.max_lines)) [
      | inl fits ↦ rw fits (whole text, refl, (refl, ground arith, ground arith))
      | inr over ↦
          let b = windows l in
          let headed = take_head-Headed b 0 0 (split_inclusive text) (omega arith) (omega arith) in
          rw over (
            cut_at-Fits l text (take_head b.head_bytes b.head_lines 0 0 (split_inclusive text)) _
              over headed (tail_of-Tailed b _ text (Headed-bytes l text _ headed)))
    ]
