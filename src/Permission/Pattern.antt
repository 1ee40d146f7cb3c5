-- ===== src/Permission/Pattern.antt =====
-- The wildcard matcher of rule patterns: `matches` (mentra/src/session/permission/pattern.rs).
use mentra.Base.{
  ℕ, zero, suc, ◌+◌, ◌*◌, Option, none, some, [], ◌∷◌, Bool, true, false, ◌||◌, ◌==◌, if◌then◌else◌,
  length,
}
use mentra.Base.Text.{Text}

-- `'*'` and `'?'`.
abbrev pub star : ℕ
star = 42

abbrev pub question : ℕ
question = 63

-- `expected == '?' || expected == actual`.
abbrev pub fits : ℕ → ℕ → Bool
fits expected actual = expected == question || expected == actual

-- The variables of the loop: the pattern and the text still to match, and the last star's pattern
-- with the text that it has not swallowed.
pub record Scan : Type 0 where
  pub pattern_rest : Text
  pub text_rest : Text
  pub widest_star : Option (Text × Text)

-- How one round of the loop ends.
pub data Round : Type 0 where
  answer : Bool → Round
  go_on : Scan → Round

-- The end of the round, where the pattern does not fit: the last star swallows one more character.
abbrev pub widen : Option (Text × Text) → Round
widen none = answer false
widen (some (star_pattern, [])) = answer false
widen (some (star_pattern, c ∷ star_text)) = go_on (record {
  pattern_rest = star_pattern;
  text_rest = star_text;
  widest_star = some (star_pattern, star_text);
})

abbrev pub advance : ℕ → Text → Text → Option (Text × Text) → Round
advance expected pattern_next [] widest = widen widest
advance expected pattern_next (actual ∷ text_next) widest =
    if fits expected actual
    then go_on (record { pattern_rest = pattern_next; text_rest = text_next; widest_star = widest })
    else widen widest

-- The body of the loop.
abbrev pub round : Text → Text → Option (Text × Text) → Round
round [] [] widest = answer true
round [] (c ∷ text) widest = widen widest
round (expected ∷ pattern) text widest =
    if expected == star
    then go_on
        (record { pattern_rest = pattern; text_rest = text; widest_star = some (pattern, text) })
    else advance expected pattern text widest

-- The loop: `none` when the fuel ran out.
unfoldable pub scan : ℕ → Scan → Option Bool
scan zero s = none
scan (suc fuel) s = elim (round s.pattern_rest s.text_rest s.widest_star) [
  | answer b ↦ some b
  | go_on s' ↦ scan fuel s'
]

-- For each star of the pattern, each place of the text, each character of the pattern.
abbrev pub rounds : Text → Text → ℕ
rounds pattern text =
    (length pattern + 1) * ((length text + 1) * (length pattern + 1))
    + (length text + 1) * (length pattern + 1)
    + length pattern
    + 1

unfoldable pub matches : Text → Text → Bool
matches pattern text =
    elim (scan (rounds pattern text)
      (record { pattern_rest = pattern; text_rest = text; widest_star = none })) [
        | some b ↦ b
        | none ↦ false
      ]
