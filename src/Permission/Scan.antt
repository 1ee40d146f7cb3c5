-- ===== src/Permission/Scan.antt =====
-- The matcher decides what a pattern means: each round keeps the answer, and the loop ends.
use mentra.Base.{
  ℕ, zero, suc, ◌+◌, ◌*◌, ◌≤◌, ◌<◌, ◌≡◌, ◌≢◌, ◌↔◌, ◌⊎◌, inl, inr, refl, sym, subst, Option, none,
  some, [], ◌∷◌, Bool, true, ◌==◌, arith, length, Bool-cases, ==_iff,
}
use native.Mathlib.Nat.{mul-le-mul_right}
use mentra.Base.Text.{Text}
use mentra.Permission.Pattern.{
  star, question, fits, Scan, Round, answer, go_on, widen, advance, round, scan, rounds, matches,
}
use mentra.Permission.Glob.{
  Matches, Matches-one, Matches-one_empty, Matches-end, Along, Along-star, length-Along,
}

-- A wider last star leads to a match.
abbrev Wider : Option (Text × Text) → Type 0
Wider none = ⊥
Wider (some (p, [])) = ⊥
Wider (some (p, c ∷ t)) = Matches (star ∷ p) t

abbrev Succeeds : Text → Text → Option (Text × Text) → Type 0
Succeeds p t w = Matches p t ⊎ Wider w

-- The last star's pattern leads to where the loop is.
abbrev Since : Text → Text → Option (Text × Text) → Type 0
Since p t none = Unit
Since p t (some (sp, st)) = Along sp st p t

star-Succeeds : (p t : Text) → Matches (star ∷ p) t ↔ Succeeds p t (some (p, t))
star-Succeeds p t =
    (split p t, λ s. elim s [ inl m ↦ Matches.star_none refl m | inr v ↦ wide p t v ])
  where
    split : (p t : Text) → Matches (star ∷ p) t → Succeeds p t (some (p, t))
    split p t (Matches.star_none s m) = inl m
    split p (c ∷ t) (Matches.star_some s m) = inr m
    split p (c ∷ t) (Matches.one ne f m) = absurd (ne refl)

    wide : (p t : Text) → Wider (some (p, t)) → Matches (star ∷ p) t
    wide p [] v = absurd v
    wide p (c ∷ t) v = Matches.star_some refl v

Since-next :
    {e : ℕ} (c : ℕ) (p t : Text) (w : Option (Text × Text))
    → e ≢ star
    → Since (e ∷ p) (c ∷ t) w
    → Since p t w
Since-next c p t none ne a = tt
Since-next c p t (some (sp, st)) ne a = Along.next ne a

fits_iff : (e c : ℕ) → (fits e c ≡ true) ↔ ((e ≡ question) ⊎ (e ≡ c))
fits_iff e c = ground arith

module _ (n m : ℕ) where
  abbrev stars : Option (Text × Text) → ℕ
  stars none = suc n
  stars (some (p, t)) = length p

  abbrev places : Option (Text × Text) → ℕ
  places none = 0
  places (some (p, t)) = length t

  -- What the rounds use up: stars, then places of the last star, then characters.
  left : Text → Option (Text × Text) → ℕ
  left p w = stars w * ((m + 1) * (n + 1)) + places w * (n + 1) + length p

  abbrev Within : Option (Text × Text) → Type 0
  Within none = Unit
  Within (some (p, t)) = (length p ≤ n) × (length t ≤ m)

  Bounded : Text → Text → Option (Text × Text) → Type 0
  Bounded p t w = (length p ≤ n) × (length t ≤ m) × Within w

  Good : Text → Text → Option (Text × Text) → Round → Type 0
  Good p t w (answer b) = (b ≡ true) ↔ Succeeds p t w
  Good p t w (go_on s) =
      Since s.pattern_rest s.text_rest s.widest_star
      × Bounded s.pattern_rest s.text_rest s.widest_star
      × (left s.pattern_rest s.widest_star < left p w)
      × (Succeeds s.pattern_rest s.text_rest s.widest_star ↔ Succeeds p t w)

  fewer_stars :
      (s s' l l' p p' : ℕ)
      → s' < s
      → l' ≤ m
      → p' ≤ n
      → s' * ((m + 1) * (n + 1)) + l' * (n + 1) + p' < s * ((m + 1) * (n + 1)) + l * (n + 1) + p
  fewer_stars s s' l l' p p' a b c =
      let x : suc s' * ((m + 1) * (n + 1)) ≤ s * ((m + 1) * (n + 1)) = mul-le-mul_right _ a in
      let y : l' * (n + 1) ≤ m * (n + 1) = mul-le-mul_right _ b in omega arith

  widen-Good :
      (p t : Text) (w : Option (Text × Text))
      → Bounded p t w
      → ¬ (Matches p t)
      → Good p t w (widen w)
  unfolding Good Bounded left
  widen-Good p t none b dead =
      ((λ e. absurd (cc e)), λ s. elim s [ inl m ↦ absurd (dead m) | inr v ↦ absurd v ])
  widen-Good p t (some (sp, [])) b dead =
      ((λ e. absurd (cc e)), λ s. elim s [ inl m ↦ absurd (dead m) | inr v ↦ absurd v ])
  widen-Good p t (some (sp, c ∷ st)) (bp, bt, (bs, bl)) dead = (
    Along.start,
    (bs, omega arith, (bs, omega arith)),
    omega arith,
    (
      (λ s. inr ((star-Succeeds sp st).1 s)),
      λ s. elim s [ inl m ↦ absurd (dead m) | inr v ↦ (star-Succeeds sp st).0 v ],
    ),
  )

  star-Good :
      (p t : Text) (w : Option (Text × Text))
      → Since (star ∷ p) t w
      → Bounded (star ∷ p) t w
      → Good
          (star ∷ p)
          t
          w
          (go_on (record { pattern_rest = p; text_rest = t; widest_star = some (p, t) }))
  unfolding Good Bounded left
  star-Good p t none since (bp, bt, _) = (
    Along.start,
    (omega arith, bt, (omega arith, bt)),
    fewer_stars _ _ _ _ _ _ (omega arith) bt (omega arith),
    (
      (λ s. inl ((star-Succeeds p t).1 s)),
      λ s. elim s [ inl m ↦ (star-Succeeds p t).0 m | inr v ↦ absurd v ],
    ),
  )
  star-Good p t (some (sp, st)) since (bp, bt, (bs, bl)) = (
    Along.start,
    (omega arith, bt, (omega arith, bt)),
    fewer_stars _ _ _ _ _ _ (length-Along since) bt (omega arith),
    (
      (λ s. inl ((star-Succeeds p t).1 s)),
      λ s. elim s [
        | inl m ↦ (star-Succeeds p t).0 m
        | inr v ↦ (star-Succeeds p t).0 (replaced sp p t st since v)
      ],
    ),
  )
    where
      replaced :
          (sp p t st : Text)
          → Along sp st (star ∷ p) t
          → Wider (some (sp, st))
          → Matches (star ∷ p) t
      replaced sp p t [] a v = absurd v
      replaced sp p t (c ∷ st) a v = Along-star a v

  advance-Good :
      (e : ℕ) (p t : Text) (w : Option (Text × Text))
      → e ≢ star
      → Since (e ∷ p) t w
      → Bounded (e ∷ p) t w
      → Good (e ∷ p) t w (advance e p t w)
  unfolding Good Bounded left
  advance-Good e p [] w ne since b = widen-Good (e ∷ p) [] w b (Matches-one_empty ne)
  advance-Good e p (c ∷ t) w ne since (bp, bt, bs) = elim (Bool-cases (fits e c)) [
    | inl hit ↦ rw hit (
      Since-next c p t w ne since,
      (omega arith, omega arith, bs),
      omega arith,
      (
        (λ s. elim s [ inl m ↦ inl (Matches.one ne ((fits_iff e c).0 hit) m) | inr v ↦ inr v ]),
        λ s. elim s [ inl m ↦ inl (Matches-one ne m).1 | inr v ↦ inr v ],
      ),
    )
    | inr miss ↦ rw miss (
        widen-Good (e ∷ p) (c ∷ t) w (bp, bt, bs)
          (λ m. absurd (cc ((fits_iff e c).1 (Matches-one ne m).0))))
  ]

  round-Good :
      (p t : Text) (w : Option (Text × Text))
      → Since p t w
      → Bounded p t w
      → Good p t w (round p t w)
  unfolding Good
  round-Good [] [] w since b = ((λ e. inl Matches.end), λ s. refl)
  round-Good [] (c ∷ t) w since b = widen-Good [] (c ∷ t) w b Matches-end
  round-Good (e ∷ p) t w since b = elim (Bool-cases (e == star)) [
    | inl is_star ↦ rw is_star (
        subst
          (λ e.
            Since (e ∷ p) t w
            → Bounded (e ∷ p) t w
            → Good (e ∷ p) t w
                (go_on (record { pattern_rest = p; text_rest = t; widest_star = some (p, t) })))
          (sym ((==_iff e star).0 is_star)) (star-Good p t w) since b)
    | inr other ↦ rw other (advance-Good e p t w (λ s. absurd (cc ((==_iff e star).1 s))) since b)
  ]

  Decided : Option Bool → Scan → Type 0
  Decided o s =
      (b : Bool) × (o ≡ some b) × ((b ≡ true) ↔ Succeeds s.pattern_rest s.text_rest s.widest_star)

  Decided-round :
      (s : Scan) (go : Scan → Option Bool) (r : Round)
      → Good s.pattern_rest s.text_rest s.widest_star r
      → ((s' : Scan)
          → Since s'.pattern_rest s'.text_rest s'.widest_star
          → Bounded s'.pattern_rest s'.text_rest s'.widest_star
          → left s'.pattern_rest s'.widest_star < left s.pattern_rest s.widest_star
          → Decided (go s') s')
      → Decided (elim r [ answer b ↦ some b | go_on s' ↦ go s' ]) s
  unfolding Good Decided
  Decided-round s go (answer b) good rec = (b, refl, good)
  Decided-round s go (go_on s') (since, bound, less, same) rec =
      let (b, ends, right) = rec s' since bound less in
      (b, ends, ((λ e. same.0 (right.0 e)), λ x. right.1 (same.1 x)))

  -- With fuel for what is left, the loop ends with the answer.
  scan_decides :
      (fuel : ℕ) (s : Scan)
      → Since s.pattern_rest s.text_rest s.widest_star
      → Bounded s.pattern_rest s.text_rest s.widest_star
      → left s.pattern_rest s.widest_star < fuel
      → Decided (scan fuel s) s
  unfolding scan
  scan_decides zero s since bound lt = absurd (omega arith)
  scan_decides (suc fuel) s since bound lt =
      Decided-round s (scan fuel) (round s.pattern_rest s.text_rest s.widest_star)
        (round-Good s.pattern_rest s.text_rest s.widest_star since bound)
        (λ s' since' bound' less. scan_decides fuel s' since' bound' (omega arith))

-- The matcher accepts a text exactly if the pattern matches all of it: the search with one
-- remembered star and its bound on the rounds lose no match.
pub matches_iff : (pattern text : Text) → (matches pattern text ≡ true) ↔ Matches pattern text
unfolding matches Bounded left Decided
matches_iff pattern text =
    let (b, ends, right) =
      scan_decides (length pattern) (length text) (rounds pattern text)
        (record { pattern_rest = pattern; text_rest = text; widest_star = none }) tt
        (omega arith, omega arith, tt) (omega arith) in
    rw (ends, matches)
      ((λ e. elim (right.0 e) [ inl m ↦ m | inr v ↦ absurd v ]), λ m. right.1 (inl m))
