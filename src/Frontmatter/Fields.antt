-- ===== src/Frontmatter/Fields.antt =====
-- The keys of `Fields`: each stands once, and each is a key.
use mentra.Base.{
  ℕ, suc, ◌≡◌, ◌≢◌, refl, sym, subst, Option, none, some, List, [], ◌∷◌, ◌++◌, true, false, not,
  ◌&&◌, ◌||◌, ◌==◌, is_empty, All, Bool-cases, inl, inr,
}
use mentra.Base.Results.{ok, err}
use mentra.Base.Text.{Text, text_eq, text_eq_iff, text_eq_refl, trim}
use mentra.Base.Strings.{starts_with, split_once, lines_of}
use mentra.Frontmatter.Parse.{
  Scalar, Fields, get, Reading, scalar, is_key, is_blank, is_given, is_list_item, add_entry,
  parse_field, parse_pair, parse_trimmed, trim_return, parse_line, and_then, parse_lines, parse,
}

-- No key stands twice.
abbrev pub Unique : Fields → Type 0
Unique [] = Unit
Unique (entry ∷ fields) = (get entry.0 fields ≡ none) × Unique fields

text_eq-sym : (s t : Text) → text_eq s t ≡ false → text_eq t s ≡ false
text_eq-sym s t off = elim (Bool-cases (text_eq t s)) [
  | inl on ↦ let same = (text_eq_iff t s).0 on in cc (off, (text_eq_iff s t).1 (sym same))
  | inr differ ↦ differ
]

get-given : (k : Text) (v : Scalar) (a b : Fields) → get k (a ++ ((k, v) ∷ b)) ≢ none
get-given k v [] b e = cc (rw (text_eq_refl k) at e)
get-given k v ((j, w) ∷ a) b e = elim (Bool-cases (text_eq j k)) [
  | inl here ↦ cc (rw here at e)
  | inr on ↦ get-given k v a b (rw on at e)
]

-- A key that stands once is not given before.
pub Unique-fresh :
    (a b : Fields) (k : Text) (v : Scalar) → Unique (a ++ ((k, v) ∷ b)) → get k a ≡ none
Unique-fresh [] b k v u = refl
Unique-fresh ((j, w) ∷ a) b k v u = elim (Bool-cases (text_eq j k)) [
  | inl here ↦
      let same = (text_eq_iff j k).0 here in
      absurd (get-given k v a b (subst (λ z. get z (a ++ ((k, v) ∷ b)) ≡ none) same u.0))
  | inr on ↦ rw on (Unique-fresh a b k v u.1)
]

get_last :
    (j k : Text) (v : Scalar) (a : Fields)
    → get j a ≡ none
    → text_eq k j ≡ false
    → get j (a ++ ((k, v) ∷ [])) ≡ none
get_last j k v [] e off = rw off refl
get_last j k v ((i, w) ∷ a) e off = elim (Bool-cases (text_eq i j)) [
  | inl here ↦ cc (rw here at e)
  | inr on ↦ rw on (get_last j k v a (rw on at e) off)
]

Unique-last :
    (a : Fields) (k : Text) (v : Scalar) → Unique a → get k a ≡ none → Unique (a ++ ((k, v) ∷ []))
Unique-last [] k v u e = (refl, tt)
Unique-last ((j, w) ∷ a) k v u e = elim (Bool-cases (text_eq j k)) [
  | inl here ↦ cc (rw here at e)
  | inr on ↦ (get_last j k v a u.0 (text_eq-sym j k on), Unique-last a k v u.1 (rw on at e))
]

abbrev pub Keyed : Fields → Type 0
Keyed fields = All (λ entry. is_key entry.0 ≡ true) fields

Keyed-last :
    (a : Fields) (k : Text) (v : Scalar) → Keyed a → is_key k ≡ true → Keyed (a ++ ((k, v) ∷ []))
Keyed-last [] k v all good = (good, tt)
Keyed-last (entry ∷ a) k v all good = (all.0, Keyed-last a k v all.1 good)

abbrev pub WellKeyed : Fields → Type 0
WellKeyed fields = Unique fields × Keyed fields

-- What is read, if it is no error.
abbrev pub Reads : Reading Fields → Type 0
Reads none = Unit
Reads (some (err e)) = Unit
Reads (some (ok fields)) = WellKeyed fields

add_entry-Reads :
    (key : Text) (fields : Fields) (value : Reading Scalar)
    → WellKeyed fields
    → is_key key ≡ true
    → get key fields ≡ none
    → Reads (add_entry key fields value)
add_entry-Reads key fields none w good fresh = tt
add_entry-Reads key fields (some (err e)) w good fresh = tt
add_entry-Reads key fields (some (ok value)) w good fresh =
    (Unique-last fields key value w.0 fresh, Keyed-last fields key value w.1 good)

is_given-none : (o : Option Scalar) → is_given o ≡ false → o ≡ none
is_given-none none e = refl
is_given-none (some v) e = cc

parse_field-Reads :
    (number : ℕ) (key rest : Text) (fields : Fields)
    → WellKeyed fields
    → Reads (parse_field number key rest fields)
parse_field-Reads number key rest fields w = elim (Bool-cases (is_key key)) [
  | inr bad ↦ rw bad tt
  | inl good ↦ elim (Bool-cases (not (is_empty rest) && not (starts_with is_blank rest))) [
    | inl close ↦ rw (good, close) tt
    | inr apart ↦ elim (Bool-cases (is_given (get key fields))) [
      | inl given ↦ rw (good, apart, given) tt
      | inr fresh ↦
          rw (good, apart, fresh)
            (add_entry-Reads key fields (scalar (trim rest) number) w good
              (is_given-none (get key fields) fresh))
    ]
  ]
]

parse_pair-Reads :
    (number : ℕ) (trimmed : Text) (fields : Fields) (o : Option (Text × Text))
    → WellKeyed fields
    → Reads (parse_pair number trimmed fields o)
parse_pair-Reads number trimmed fields none w = tt
parse_pair-Reads number trimmed fields (some (key, rest)) w =
    parse_field-Reads number (trim key) rest fields w

parse_line-Reads :
    (number : ℕ) (raw : Text) (fields : Fields)
    → WellKeyed fields
    → Reads (parse_line number raw fields)
unfolding parse_line
parse_line-Reads number raw fields w = go (trim_return raw) (trim (trim_return raw))
  where
    go : (line trimmed : Text) → Reads (parse_trimmed number line trimmed fields)
    go line trimmed = elim (Bool-cases (is_empty trimmed || starts_with (λ c. c == b'#') trimmed)) [
      | inl skipped ↦ rw skipped w
      | inr field ↦ elim (Bool-cases (starts_with is_blank line)) [
        | inl indented ↦ rw (field, indented) tt
        | inr flush ↦ elim (Bool-cases (is_list_item trimmed)) [
          | inl item ↦ rw (field, flush, item) tt
          | inr plain ↦
              rw (field, flush, plain)
                (parse_pair-Reads number trimmed fields (split_once b':' line) w)
        ]
      ]
    ]

and_then-Reads :
    (m : Reading Fields) (next : Fields → Reading Fields)
    → Reads m
    → ((fields : Fields) → WellKeyed fields → Reads (next fields))
    → Reads (and_then m next)
and_then-Reads none next w k = tt
and_then-Reads (some (err e)) next w k = tt
and_then-Reads (some (ok fields)) next w k = k fields w

parse_lines-Reads :
    (number : ℕ) (raws : List Text) (fields : Fields)
    → WellKeyed fields
    → Reads (parse_lines number raws fields)
unfolding parse_lines
parse_lines-Reads number [] fields w = w
parse_lines-Reads number (raw ∷ raws) fields w =
    and_then-Reads (parse_line number raw fields) (parse_lines (suc number) raws)
      (parse_line-Reads number raw fields w) (parse_lines-Reads (suc number) raws)

-- In the fields of a block that is read no key stands twice, and each is one or more letters,
-- digits, `_` and `-`.
pub parse-WellKeyed :
    (block : Text) (fields : Fields) → parse block ≡ some (ok fields) → WellKeyed fields
parse-WellKeyed block fields e = subst Reads e (parse_lines-Reads 1 (lines_of block) [] (tt, tt))
