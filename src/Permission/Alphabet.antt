-- ===== src/Permission/Alphabet.antt =====
-- The order of texts, said without a comparison, and what the order of the candidates comes to.
use mentra.Base.{◌<◌, ◌≡◌, ◌⊎◌, inl, inr, refl, some, [], ◌∷◌, Bool, true, false, arith}
use mentra.Base.Text.{Text}
use mentra.Permission.Order.{NotAfter, in_turn, cmp_bool, cmp_text, cmp_option, cmp_text-Lawful}

-- `s` begins `t`, or has the smaller character where they first differ.
abbrev pub AtOrBefore : Text → Text → Type 0
AtOrBefore [] t = Unit
AtOrBefore (a ∷ s) [] = ⊥
AtOrBefore (a ∷ s) (b ∷ t) = (a < b) ⊎ ((a ≡ b) × AtOrBefore s t)

pub AtOrBefore-antisym : (s t : Text) → AtOrBefore s t → AtOrBefore t s → s ≡ t
AtOrBefore-antisym [] [] p q = refl
AtOrBefore-antisym [] (b ∷ t) p q = absurd q
AtOrBefore-antisym (a ∷ s) [] p q = absurd p
AtOrBefore-antisym (a ∷ s) (b ∷ t) (inl lt) (inl gt) = absurd (omega arith)
AtOrBefore-antisym (a ∷ s) (b ∷ t) (inl lt) (inr (e, q)) = absurd (omega arith)
AtOrBefore-antisym (a ∷ s) (b ∷ t) (inr (e, p)) (inl lt) = absurd (omega arith)
AtOrBefore-antisym (a ∷ s) (b ∷ t) (inr (e, p)) (inr (_, q)) = cc (e, AtOrBefore-antisym s t p q)

cmp_text-AtOrBefore : (s t : Text) → NotAfter cmp_text s t → AtOrBefore s t
unfolding cmp_text
cmp_text-AtOrBefore [] t n = tt
cmp_text-AtOrBefore (a ∷ s) [] n = n refl
cmp_text-AtOrBefore (a ∷ s) (b ∷ t) n = ground (arith, cmp_text-AtOrBefore s t)

-- The denial first, then the pattern that comes first.
pub candidates_order :
    (x y : Bool) (tool p q : Text)
    → NotAfter
        (in_turn cmp_bool (in_turn cmp_text (cmp_option cmp_text)))
        (x, (tool, some p))
        (y, (tool, some q))
    → ((x ≡ false) × (y ≡ true)) ⊎ ((x ≡ y) × AtOrBefore p q)
unfolding cmp_bool cmp_option
candidates_order false true tool p q n = inl (refl, refl)
candidates_order true false tool p q n = absurd (n refl)
candidates_order true true tool p q n =
    inr (refl, cmp_text-AtOrBefore p q (rw (cmp_text-Lawful.itself tool) at n))
candidates_order false false tool p q n =
    inr (refl, cmp_text-AtOrBefore p q (rw (cmp_text-Lawful.itself tool) at n))
