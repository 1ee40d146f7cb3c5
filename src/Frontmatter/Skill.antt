-- ===== src/Frontmatter/Skill.antt =====
-- `parse_skill_file` (mentra/src/runtime/skill.rs), and what it takes of `Fields`.
use mentra.Base.{Option, none, some, List, [], ◌∷◌, Bool, true, false, if◌then◌else◌}
use mentra.Base.Results.{Result, ok, err, unwrap_or}
use mentra.Base.Text.{Text, codes, text_eq}
use mentra.Frontmatter.Quote.{ParseError, not_a_boolean}
use mentra.Frontmatter.Scan.{Scanned, Unterminated, scan}
use mentra.Frontmatter.Parse.{Scalar, text, boolean, null, Fields, get, Reading, parse}

pub record SkillFrontmatter : Type 0 where
  pub name : Option Text
  pub description : Option Text
  pub disable_model_invocation : Bool

abbrev pub default_skill : SkillFrontmatter
default_skill = record { name = none; description = none; disable_model_invocation = false }

-- Why a file is refused: what `scan`, `parse` or a flag said.
pub data SkillLoadError : Type 0 where
  unterminated_block : SkillLoadError
  invalid_fields : ParseError → SkillLoadError

abbrev pub text_of : Option Scalar → Option Text
text_of none = none
text_of (some (text t)) = some t
text_of (some (boolean true)) = some (codes "true")
text_of (some (boolean false)) = some (codes "false")
text_of (some null) = none

-- `Fields::text`.
abbrev pub text_field : Text → Fields → Option Text
text_field key fields = text_of (get key fields)

abbrev pub boolean_of : Text → Option Scalar → Result (Option Bool) ParseError
boolean_of key none = ok none
boolean_of key (some null) = ok none
boolean_of key (some (boolean b)) = ok (some b)
boolean_of key (some (text t)) =
    if text_eq t (codes "true")
    then ok (some true)
    else if text_eq t (codes "false")
    then ok (some false)
    else err (not_a_boolean key t)

-- `Fields::boolean`.
abbrev pub boolean_field : Text → Fields → Result (Option Bool) ParseError
boolean_field key fields = boolean_of key (get key fields)

abbrev pub or_next :
    Result (Option Bool) ParseError
    → Result (Option Bool) ParseError
    → Result (Option Bool) ParseError
or_next (err e) rest = err e
or_next (ok (some b)) rest = ok (some b)
or_next (ok none) rest = rest

-- `Fields::boolean_any`.
abbrev pub boolean_any : List Text → Fields → Result (Option Bool) ParseError
boolean_any [] fields = ok none
boolean_any (key ∷ keys) fields = or_next (boolean_field key fields) (boolean_any keys fields)

abbrev pub flag_keys : List Text
flag_keys = codes "disable-model-invocation" ∷ codes "disable_model_invocation" ∷ []

abbrev pub Loading : Type 0
Loading = Option (Result (SkillFrontmatter × Text) SkillLoadError)

abbrev pub with_flag :
    Fields
    → Text
    → Result (Option Bool) ParseError
    → Result (SkillFrontmatter × Text) SkillLoadError
with_flag fields body (err e) = err (invalid_fields e)
with_flag fields body (ok flag) = ok (
  record {
    name = text_field (codes "name") fields;
    description = text_field (codes "description") fields;
    disable_model_invocation = unwrap_or flag false;
  },
  body,
)

abbrev pub with_fields : Text → Reading Fields → Loading
with_fields body none = none
with_fields body (some (err e)) = some (err (invalid_fields e))
with_fields body (some (ok fields)) = some (with_flag fields body (boolean_any flag_keys fields))

abbrev pub with_block : Text → Text → Option Text → Loading
with_block raw body none = some (ok (default_skill, raw))
with_block raw body (some block) = with_fields body (parse block)

abbrev pub with_scanned : Text → Option (Result Scanned Unterminated) → Loading
with_scanned raw none = none
with_scanned raw (some (err _)) = some (err unterminated_block)
with_scanned raw (some (ok scanned)) = with_block raw scanned.body scanned.frontmatter

abbrev pub parse_skill_file : Text → Loading
parse_skill_file raw = with_scanned raw (scan raw)
