-- ===== src/Permission/Glob.antt =====
-- What a pattern means: an independent description, and how a star splits it.
use mentra.Base.{ℕ, ◌≤◌, ◌≡◌, ◌≢◌, ◌⊎◌, refl, [], ◌∷◌, arith, length}
use mentra.Base.Text.{Text}
use mentra.Permission.Pattern.{star, question}

-- The pattern matches the whole text: a star stands for any run of characters, a question mark
-- for one, and anything else for itself.
pub data Matches : Text → Text → Type 0 where
  end : Matches [] []
  star_none : {e : ℕ} {p t : Text} → e ≡ star → Matches p t → Matches (e ∷ p) t
  star_some : {e c : ℕ} {p t : Text} → e ≡ star → Matches (e ∷ p) t → Matches (e ∷ p) (c ∷ t)
  one :
      {e c : ℕ} {p t : Text}
      → e ≢ star
      → (e ≡ question) ⊎ (e ≡ c)
      → Matches p t
      → Matches (e ∷ p) (c ∷ t)

pub Matches-one :
    {e c : ℕ} {p t : Text}
    → e ≢ star
    → Matches (e ∷ p) (c ∷ t)
    → ((e ≡ question) ⊎ (e ≡ c)) × Matches p t
Matches-one ne (Matches.star_none s m) = absurd (ne s)
Matches-one ne (Matches.star_some s m) = absurd (ne s)
Matches-one ne (Matches.one _ f m) = (f, m)

pub Matches-one_empty : {e : ℕ} {p : Text} → e ≢ star → ¬ (Matches (e ∷ p) [])
Matches-one_empty ne (Matches.star_none s m) = ne s

pub Matches-end : {c : ℕ} {t : Text} → ¬ (Matches [] (c ∷ t))
Matches-end m = elim m [ ]

-- `u` is what is left of `t` after some of its characters.
pub data Tail : Text → Text → Type 0 where
  here : {t : Text} → Tail t t
  there : {c : ℕ} {t u : Text} → Tail t u → Tail (c ∷ t) u

Tail-next : {d : ℕ} {t u : Text} → Tail t (d ∷ u) → Tail t u
Tail-next Tail.here = Tail.there Tail.here
Tail-next (Tail.there l) = Tail.there (Tail-next l)

pub star-Tail : {p t u : Text} → Tail t u → Matches p u → Matches (star ∷ p) t
star-Tail Tail.here m = Matches.star_none refl m
star-Tail (Tail.there l) m = Matches.star_some refl (star-Tail l m)

pub Tail-star : {p t : Text} → Matches (star ∷ p) t → (u : Text) × Tail t u × Matches p u
Tail-star {t = t} (Matches.star_none s m) = (t, Tail.here, m)
Tail-star (Matches.star_some s m) = let (u, l, r) = Tail-star m in (u, Tail.there l, r)
Tail-star (Matches.one ne f m) = absurd (ne refl)

-- A star that matches further on matches here.
star_absorbs : {p t u : Text} → Tail t u → Matches (star ∷ p) u → Matches (star ∷ p) t
star_absorbs Tail.here m = m
star_absorbs (Tail.there l) m = Matches.star_some refl (star_absorbs l m)

-- `p` at `t` is reached from `sp` at `st` without a star in between.
pub data Along (sp st : Text) : Text → Text → Type 0 where
  start : Along sp st sp st
  next : {e c : ℕ} {p t : Text} → e ≢ star → Along sp st (e ∷ p) (c ∷ t) → Along sp st p t

pub length-Along : {sp st p t : Text} → Along sp st p t → length p ≤ length sp
length-Along Along.start = omega arith
length-Along {p = p} (Along.next ne a) = let q = length-Along a in omega arith

-- A character that is not a star matches one character, here or further on.
Tail-one :
    {e c : ℕ} {p t : Text} (v : Text)
    → e ≢ star
    → Tail (c ∷ t) v
    → Matches (e ∷ p) v
    → (w : Text) × Tail t w × Matches p w
Tail-one {t = t} v ne Tail.here m = (t, Tail.here, (Matches-one ne m).1)
Tail-one [] ne (Tail.there l) m = absurd (Matches-one_empty ne m)
Tail-one (d ∷ w) ne (Tail.there l) m = (w, Tail-next l, (Matches-one ne m).1)

-- A match of the segment further on matches what is left of it further on.
Along-Tail :
    {sp st p t u : Text}
    → Along sp st p t
    → Tail st u
    → Matches sp u
    → (v : Text) × Tail t v × Matches p v
Along-Tail {u = u} Along.start l m = (u, l, m)
Along-Tail (Along.next ne a) l m = let (v, k, r) = Along-Tail a l m in Tail-one v ne k r

-- A star that is reached takes the place of the star before.
pub Along-star :
    {sp p t : Text} {c : ℕ} {st : Text}
    → Along sp (c ∷ st) (star ∷ p) t
    → Matches (star ∷ sp) st
    → Matches (star ∷ p) t
Along-star a m =
    let (u, l, r) = Tail-star m in let (v, k, s) = Along-Tail a (Tail.there l) r in star_absorbs k s
