-- ===== src/Frontmatter/ReadBack.antt =====
-- A skill file that was written with quoted values is read back.
use mentra.Base.{◌≡◌, ◌∙◌, refl, ap, some, List, [], ◌∷◌, Bool, true, false}
use mentra.Base.Results.{ok}
use mentra.Base.Text.{Text, codes, text_eq}
use mentra.Frontmatter.Skill.{
  flag_keys, boolean_any, with_flag, with_fields, with_scanned, parse_skill_file,
}
use mentra.Frontmatter.Fields.{WellKeyed}
use mentra.Frontmatter.Written.{
  block_of, file_of, field_lines, entries_of, field_lines-BlockLine, scan-file_of,
  parse-field_lines,
}

-- The file that gives some texts and a body.
abbrev pub skill_file : List (Text × Text) → Text → Text
skill_file fields body = file_of (block_of (field_lines fields)) body

parse_skill_file-fields :
    (fields : List (Text × Text)) (body : Text)
    → WellKeyed (entries_of fields)
    → parse_skill_file (skill_file fields body)
      ≡ some (with_flag (entries_of fields) body (boolean_any flag_keys (entries_of fields)))
parse_skill_file-fields fields body well =
    ap (with_scanned (skill_file fields body))
      (scan-file_of (field_lines fields) body (field_lines-BlockLine fields well.1))
    ∙ ap (with_fields body) (parse-field_lines fields well)

abbrev pub flag_text : Bool → Text
flag_text true = codes "true"
flag_text false = codes "false"

abbrev pub skill_fields : Text → Text → Bool → List (Text × Text)
skill_fields name description flag =
    (codes "name", name)
    ∷ (codes "description", description)
    ∷ (codes "disable-model-invocation", flag_text flag)
    ∷ []

skill_fields-WellKeyed :
    (name description : Text) (flag : Bool)
    → WellKeyed (entries_of (skill_fields name description flag))
unfolding text_eq
skill_fields-WellKeyed name description flag =
    ((refl, (refl, (refl, tt))), (refl, (refl, (refl, tt))))

-- A skill file whose frontmatter gives the name, the description and the flag as `key: ` with the
-- quoted value is read back exactly, with the body that follows, whatever the texts hold: quotes,
-- line breaks, colons or a line `---`.
pub parse_skill_file-skill_file :
    (name description body : Text) (flag : Bool)
    → parse_skill_file (skill_file (skill_fields name description flag) body)
      ≡ some (
          ok (
            record {
              name = some name;
              description = some description;
              disable_model_invocation = flag;
            },
            body,
          ))
unfolding text_eq
parse_skill_file-skill_file name description body true =
    parse_skill_file-fields (skill_fields name description true) body
      (skill_fields-WellKeyed name description true)
parse_skill_file-skill_file name description body false =
    parse_skill_file-fields (skill_fields name description false) body
      (skill_fields-WellKeyed name description false)
