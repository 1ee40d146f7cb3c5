-- ===== src/Truncation/Shares.antt =====
-- What a text and its windows should be: the limits shared out, and full windows within them.
use mentra.Base.{
  ℕ, ◌+◌, ◌≤◌, ◌≡◌, ◌≢◌, refl, List, [], ◌∷◌, ◌++◌, ◌||◌, ltb, length, join, ◌<◌, ◌⊎◌, Bool-cases,
  inl, inr, arith,
}
use mentra.Base.Text.{Text}
use mentra.Base.Strings.{bytes, split_inclusive}
use mentra.Truncation.Limit.{
  ToolOutputLimiter, Windowed, windows, line_count, Limited, whole, truncated,
}

-- How the limits are shared out between the two windows: a limit below 256 bytes or 4 lines leaves
-- all of both to the head, and otherwise each is halved, the odd byte or line for the tail.
abbrev pub Share : ToolOutputLimiter → ℕ → ℕ → ℕ → ℕ → Type 0
Share l head_bytes head_lines tail_bytes tail_lines =
    (head_bytes + tail_bytes ≡ l.max_bytes)
    × (head_lines + tail_lines ≡ l.max_lines)
    × ((((l.max_bytes < 256) ⊎ (l.max_lines < 4)) × (tail_bytes ≡ 0) × (tail_lines ≡ 0))
        ⊎ ((256 ≤ l.max_bytes)
            × (4 ≤ l.max_lines)
            × (head_bytes ≤ tail_bytes)
            × (tail_bytes ≤ head_bytes + 1)
            × (head_lines ≤ tail_lines)
            × (tail_lines ≤ head_lines + 1)))

-- A window that the next line, if there is one, does not fit: `shown` bytes and `lines` lines of
-- its share.
abbrev pub Full : ℕ → ℕ → ℕ → ℕ → Text → Type 0
Full share_bytes share_lines shown lines next =
    (lines ≡ share_lines) ⊎ (share_bytes < shown + bytes next)

-- The two windows: the lines `a` at the start and `b` at the end, with `m` left out between them.
pub record Cut (l : ToolOutputLimiter) (text : Text) (w : Windowed) : Type 0 where
  pub over : (l.max_bytes < bytes text) ⊎ (l.max_lines < line_count text)
  pub head_bytes : ℕ
  pub head_lines : ℕ
  pub tail_bytes : ℕ
  pub tail_lines : ℕ
  pub share : Share l head_bytes head_lines tail_bytes tail_lines
  pub a : List Text
  pub m : List Text
  pub b : List Text
  pub lines : split_inclusive text ≡ a ++ (m ++ b)
  pub left_out : m ≢ []
  pub head : w.head ≡ join a
  pub tail : w.tail ≡ join b
  pub shown : w.shown ≡ length a + length b
  pub total_lines : w.total_lines ≡ length a + (length m + length b)
  pub head_fits : (bytes w.head ≤ head_bytes) × (length a ≤ head_lines)
  pub tail_fits : (bytes w.tail ≤ tail_bytes) × (length b ≤ tail_lines)
  pub head_full :
      (next : Text) (more : List Text)
      → m ≡ next ∷ more
      → Full head_bytes head_lines (bytes w.head) (length a) next
  pub tail_full :
      (next : Text) (more : List Text)
      → m ≡ more ++ (next ∷ [])
      → Full tail_bytes tail_lines (bytes w.tail) (length b) next

-- What is shown of a text, and what the notice says of it.
abbrev pub Fits : ToolOutputLimiter → Text → Limited → Type 0
Fits l text (whole t) = (t ≡ text) × (bytes t ≤ l.max_bytes) × (line_count t ≤ l.max_lines)
Fits l text (truncated w) = Cut l text w

pub windows-Share :
    (l : ToolOutputLimiter)
    → Share l
        (windows l).head_bytes
        (windows l).head_lines
        (windows l).tail_bytes
        (windows l).tail_lines
unfolding windows
windows-Share l = elim (Bool-cases (ltb l.max_bytes 256 || ltb l.max_lines 4)) [
  | inl small ↦ rw small (omega arith, omega arith, inl (ground arith, refl, refl))
  | inr large ↦
      let enough : (256 ≤ l.max_bytes) × (4 ≤ l.max_lines) = ground arith in
      rw large (
        omega arith,
        omega arith,
        inr (enough.0, enough.1, omega arith, omega arith, omega arith, omega arith),
      )
]
