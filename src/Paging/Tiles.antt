-- ===== src/Paging/Tiles.antt =====
-- Reading on from window to window as the trailers say shows every line, in order and once.
use mentra.Base.{
  ℕ, zero, suc, ◌+◌, ◌-◌, ◌≤◌, ◌<◌, max, ◌≡◌, ◌∙◌, refl, sym, ap, subst, Option, none, some, List,
  [], ◌∷◌, ◌++◌, true, false, Bool-cases, inl, inr, arith, length, leb, take, drop, join, get_elem?,
  if◌then◌else◌,
}
use mathlib.Core.List.{append_assoc, append-nil}
use mathlib.Core.Option.{some-injective}
use mentra.Base.Partial.{◌>>=◌}
use mentra.Base.Text.{Text}
use mentra.Base.Strings.{utf8_len, bytes, split_inclusive, is_char_boundary}
use mentra.Paging.Window.{
  ToolResultPager, Window, cut, window, Trailer, end_of_result, paged, trailer,
}
use mentra.Base.Slices.{utf8_len-pos, bytes-append, split_inclusive-empty}
use mentra.Paging.Cut.{Shows, cut-Selected}

-- The beginning of a line that fits in a page.
unfoldable pub clip : ℕ → Text → Text
clip page [] = []
clip page (c ∷ line) =
    let rest = clip (page - utf8_len c) line in if leb (utf8_len c) page then c ∷ rest else []

-- The lines, each up to what fits in a page.
unfoldable pub clip_all : ℕ → List Text → Text
clip_all page [] = []
clip_all page (line ∷ lines) = clip page line ++ clip_all page lines

pub clip-fits : (page : ℕ) (line : Text) → bytes line ≤ page → clip page line ≡ line
unfolding clip bytes
clip-fits page [] le = refl
clip-fits page (c ∷ line) le =
    let fits : leb (utf8_len c) page ≡ true = ground arith in
    rw fits (ap (λ z. c ∷ z) (clip-fits (page - utf8_len c) line (omega arith)))

is_char_boundary-first :
    (n c : ℕ) (text : Text) → n ≡ utf8_len c → is_char_boundary n (c ∷ text) ≡ true
unfolding is_char_boundary
is_char_boundary-first zero c text e = refl
is_char_boundary-first (suc n) c text e =
    let fits : leb (utf8_len c) (suc n) ≡ true = ground arith in
    let left : suc n - utf8_len c ≡ 0 = omega arith in rw (fits, left) refl

is_char_boundary-later :
    (m n c : ℕ) (text : Text)
    → m ≡ utf8_len c + n
    → is_char_boundary n text ≡ is_char_boundary m (c ∷ text)
unfolding is_char_boundary
is_char_boundary-later zero n c text e = let p = utf8_len-pos c in absurd (omega arith)
is_char_boundary-later (suc m) n c text e =
    let fits : leb (utf8_len c) (suc m) ≡ true = ground arith in
    let left : suc m - utf8_len c ≡ n = omega arith in rw (fits, left) refl

-- The longest beginning that fits is the one up to the last boundary that fits.
clip-last :
    (page : ℕ) (a rest : Text)
    → page < bytes (a ++ rest)
    → bytes a ≤ page
    → ((n : ℕ) → bytes a < n → n ≤ page → is_char_boundary n (a ++ rest) ≡ false)
    → clip page (a ++ rest) ≡ a
unfolding clip bytes
clip-last page [] [] over fits last = refl
clip-last page [] (c ∷ rest) over fits last = elim (Bool-cases (leb (utf8_len c) page)) [
  | inl first ↦
      let p = utf8_len-pos c in
      cc (
        is_char_boundary-first (utf8_len c) c rest refl,
        last (utf8_len c) (omega arith) (ground arith),
      )
  | inr long ↦ rw long refl
]
clip-last page (c ∷ a) rest over fits last =
    let first : leb (utf8_len c) page ≡ true = ground arith in
    rw first (
      ap (λ z. c ∷ z)
        (clip-last (page - utf8_len c) a rest (omega arith) (omega arith) (λ n lo hi.
          is_char_boundary-later (utf8_len c + n) n c (a ++ rest) refl
          ∙ last (utf8_len c + n) (omega arith) (omega arith))))

clip_all-fits :
    (page : ℕ) (lines : List Text) → bytes (join lines) ≤ page → clip_all page lines ≡ join lines
unfolding clip_all bytes
clip_all-fits page [] le = refl
clip_all-fits page (l ∷ ls) le =
    let sum = bytes-append l (join ls) in
    rw (clip-fits page l (omega arith), clip_all-fits page ls (omega arith)) refl

clip_all-take-drop :
    (page k : ℕ) (lines : List Text)
    → clip_all page (take k lines) ++ clip_all page (drop k lines) ≡ clip_all page lines
unfolding clip_all
clip_all-take-drop page zero lines = refl
clip_all-take-drop page (suc k) [] = refl
clip_all-take-drop page (suc k) (l ∷ ls) =
    append_assoc (clip page l) (clip_all page (take k ls)) (clip_all page (drop k ls))
    ∙ ap (λ z. clip page l ++ z) (clip_all-take-drop page k ls)

drop-empty : (n : ℕ) → drop {A = Text} n [] ≡ []
drop-empty zero = refl
drop-empty (suc n) = refl

drop-drop : (m k n : ℕ) (xs : List Text) → n ≡ m + k → drop k (drop m xs) ≡ drop n xs
drop-drop zero k n xs e = ap (λ z. drop z xs) (omega arith)
drop-drop (suc m) k n [] e = drop-empty k ∙ sym (drop-empty n)
drop-drop (suc m) k zero (x ∷ xs) e = absurd (omega arith)
drop-drop (suc m) k (suc n) (x ∷ xs) e = drop-drop m k n xs (omega arith)

clip_all-past :
    (page n : ℕ) (lines : List Text) → length lines ≤ n → clip_all page (drop n lines) ≡ []
unfolding clip_all
clip_all-past page zero [] le = refl
clip_all-past page zero (l ∷ ls) le = absurd (omega arith)
clip_all-past page (suc n) [] le = refl
clip_all-past page (suc n) (l ∷ ls) le = clip_all-past page n ls (omega arith)

-- What a trailer leads to, when `go` reads on from a line.
abbrev pub after_window : (ℕ → Option Text) → Window → Trailer → Option Text
after_window go w end_of_result = some w.text
after_window go w (paged first last total next) = go next >>= λ more. some (w.text ++ more)

-- Reading on as the trailers say: `none` when the fuel ran out.
unfoldable pub read_on : ℕ → ToolResultPager → Text → ℕ → Option Text
read_on zero pager text start = none
read_on (suc fuel) pager text start =
    window pager text start >>= λ w. after_window (read_on fuel pager text) w (trailer w)

module _ (pager : ToolResultPager) (text : Text) where
  abbrev lines : List Text
  lines = split_inclusive text

  -- A window within the text shows the next lines, each up to what fits.
  abbrev Next : ℕ → Window → Type 0
  Next start w =
      (k : ℕ) × (1 ≤ k)
      × (w.last_line + 1 ≡ start + k)
      × (w.text ≡ clip_all pager.page_bytes (take k (drop (start - 1) lines)))

  first_line : (xs : List Text) (line : Text) → get_elem? xs 0 ≡ some line → take 1 xs ≡ line ∷ []
  first_line [] line e = cc
  first_line (x ∷ xs) line e = ap (λ z. z ∷ []) (some-injective _ _ e)

  Shows-Next :
      (start : ℕ) (w : Window) → start ≤ length lines → Shows pager text start w → Next start w
  unfolding clip_all
  Shows-Next start w le (Shows.past_end over t l h) = absurd (omega arith)
  Shows-Next start w le (Shows.whole_lines k one below t l h small next) = (
    k,
    one,
    l,
    t
        ∙ sym (
            clip_all-fits pager.page_bytes (take k (drop (start - 1) lines))
              (subst (λ z. bytes z ≤ pager.page_bytes) t small)),
  )
  Shows-Next start w le (Shows.part_of_line line rest first over t small last l h) = (
    1,
    omega arith,
    omega arith,
    sym (
          clip-last pager.page_bytes w.text rest (subst (λ z. pager.page_bytes < bytes z) t over)
            small (λ n lo hi. subst (λ z. is_char_boundary n z ≡ false) t (last n lo hi)))
        ∙ ap (clip pager.page_bytes) (sym t)
        ∙ sym (append-nil (clip pager.page_bytes line))
        ∙ ap (clip_all pager.page_bytes) (sym (first_line (drop (start - 1) lines) line first)),
  )

  after_window-rest :
      (go : ℕ → Option Text) (start : ℕ) (w : Window)
      → 1 ≤ start
      → w.total_lines ≡ length lines
      → Next start w
      → (w.last_line < length lines
          → go (w.last_line + 1) ≡ some (clip_all pager.page_bytes (drop w.last_line lines)))
      → after_window go w (trailer w) ≡ some (clip_all pager.page_bytes (drop (start - 1) lines))
  after_window-rest go start w one total (k, some_line, last, shown) later =
      let parts = clip_all-take-drop pager.page_bytes k (drop (start - 1) lines) in
      let further = drop-drop (start - 1) k w.last_line lines (omega arith) in
      let whole : w.text ++ clip_all pager.page_bytes (drop w.last_line lines)
          ≡ clip_all pager.page_bytes (drop (start - 1) lines) =
        ap (λ z. z ++ clip_all pager.page_bytes (drop w.last_line lines)) shown
        ∙ ap
            (λ z.
              clip_all pager.page_bytes (take k (drop (start - 1) lines))
              ++ clip_all pager.page_bytes z)
            (sym further)
        ∙ parts in
      elim (Bool-cases (leb w.total_lines w.last_line)) [
        | inl done ↦ rw done (
            ap some (
              sym (append-nil w.text)
              ∙ ap (λ z. w.text ++ z)
                  (sym (clip_all-past pager.page_bytes w.last_line lines (ground arith)))
              ∙ whole))
        | inr goes ↦ let on = later (ground arith) in rw (goes, on) (ap some whole)
      ]

  read_on-rest :
      (fuel start : ℕ)
      → 1 ≤ start
      → start ≤ length lines
      → length lines < fuel + start
      → read_on fuel pager text start ≡ some (clip_all pager.page_bytes (drop (start - 1) lines))
  unfolding read_on
  read_on-rest zero start one le enough = absurd (omega arith)
  read_on-rest (suc fuel) start one le enough =
      let (w, selected, first, total, shows) = cut-Selected pager text start one in
      let same : max start 1 ≡ start = omega arith in
      let (k, some_line, last, shown) = Shows-Next start w le shows in
      rw (same, selected)
        (after_window-rest (read_on fuel pager text) start w one total (k, some_line, last, shown)
          (λ within.
            read_on-rest fuel (w.last_line + 1) (omega arith) (omega arith) (omega arith)
            ∙ ap (λ z. some (clip_all pager.page_bytes (drop z lines))) (omega arith)))

read_on-empty :
    (pager : ToolResultPager) (text : Text)
    → text ≡ []
    → read_on (suc (length (split_inclusive text))) pager text 1
      ≡ some (clip_all pager.page_bytes (split_inclusive text))
unfolding read_on cut split_inclusive clip_all
read_on-empty pager text e =
    subst
      (λ z.
        read_on (suc (length (split_inclusive z))) pager z 1
        ≡ some (clip_all pager.page_bytes (split_inclusive z)))
      (sym e) refl

-- Reading on from the first window as the trailers say ends, with every line of the text in its
-- order, each once and up to what fits in a page: only lines longer than a page are shortened.
pub read_on-all :
    (pager : ToolResultPager) (text : Text)
    → read_on (suc (length (split_inclusive text))) pager text 1
      ≡ some (clip_all pager.page_bytes (split_inclusive text))
read_on-all pager text = go (split_inclusive text) refl
  where
    go :
        (lines : List Text)
        → split_inclusive text ≡ lines
        → read_on (suc (length (split_inclusive text))) pager text 1
          ≡ some (clip_all pager.page_bytes (split_inclusive text))
    go [] e = read_on-empty pager text (split_inclusive-empty text e)
    go (l ∷ ls) e =
        let size : length (split_inclusive text) ≡ suc (length ls) = ap length e in
        read_on-rest pager text (suc (length (split_inclusive text))) 1 (omega arith) (omega arith)
          (omega arith)
