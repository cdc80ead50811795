-- ===== src/Templates/Validation.antt =====
-- The checks of a title and a body:
-- backend/internal/service/notification_template_validation.go.
use daeil_scholar.Prelude.{
  ℕ, Bool, true, false, not, ◌&&◌, ◌||◌, Option, none, some, List, [], ◌∷◌, ◌++◌, length, ltb, ◌==◌,
  if◌then◌else◌,
}
use daeil_scholar.Prelude.Int.{ℤ, pos}
use daeil_scholar.Prelude.Text.{Text, text_eq, trim_space}
use daeil_scholar.Templates.{Placeholder, Definition, sms, allows_placeholder}
use daeil_scholar.Templates.Scan.{
  Piece, pieces, template_brace_tokens, outside_tokens, is_name, template_contains_placeholder,
  render_template_with_samples,
}

pub data Field : Type 0 where
  title body expected_version : Field

-- The reasons, whose texts are for the administrator's screen.
pub data Reason : Type 0 where
  body_missing title_missing title_unused stray_brace unencodable title_too_long body_too_long
        version_missing :
      Reason
  unknown_placeholder placeholder_missing : Text → Reason
  too_many_bytes : ℕ → Reason

abbrev pub TemplateFieldError : Type 0
TemplateFieldError = Field × Reason

abbrev pub sms_template_max_euckr_bytes : ℕ
sms_template_max_euckr_bytes = 80

abbrev pub push_template_max_title_runes : ℕ
push_template_max_title_runes = 50

abbrev pub push_template_max_body_runes : ℕ
push_template_max_body_runes = 200

-- The error where a check fails.
abbrev pub error_if : Bool → Field → Reason → List TemplateFieldError
error_if b field reason = if b then (field, reason) ∷ [] else []

abbrev pub is_empty : Text → Bool
is_empty [] = true
is_empty (c ∷ s) = false

abbrev pub is_blank : Text → Bool
unfolding trim_space
is_blank text = is_empty (trim_space text)

abbrev pub validate_template_title_presence : Definition → Text → List TemplateFieldError
validate_template_title_presence definition text =
    if text_eq definition.channel sms
    then error_if (not (is_blank text)) title title_unused
    else error_if (is_blank text) title title_missing

abbrev pub is_brace : ℕ → Bool
is_brace c = c == b'{' || c == b'}'

-- `strings.ContainsAny(text, "{}")`
abbrev pub contains_brace : Text → Bool
contains_brace [] = false
contains_brace (c ∷ s) = is_brace c || contains_brace s

abbrev pub token_errors : List Placeholder → Field → List Text → List TemplateFieldError
token_errors allowed field [] = []
token_errors allowed field (name ∷ names) =
    error_if (not (is_name name) || not (allows_placeholder allowed name)) field
      (unknown_placeholder name)
    ++ token_errors allowed field names

abbrev pub text_errors : List Placeholder → Field → List Piece → List TemplateFieldError
text_errors allowed field ps =
    token_errors allowed field (template_brace_tokens ps)
    ++ error_if (contains_brace (outside_tokens ps)) field stray_brace

abbrev pub required_errors : List Placeholder → Text → List TemplateFieldError
required_errors [] text = []
required_errors (p ∷ ps) text =
    error_if (p.required && not (template_contains_placeholder text p.name)) body
      (placeholder_missing p.name)
    ++ required_errors ps text

abbrev pub validate_template_placeholders : Definition → Text → Text → List TemplateFieldError
validate_template_placeholders definition t b =
    text_errors definition.placeholders title (pieces 0 t)
    ++ (text_errors definition.placeholders body (pieces 0 b)
        ++ required_errors definition.placeholders b)

abbrev pub byte_errors : Option ℕ → List TemplateFieldError
byte_errors none = (body, unencodable) ∷ []
byte_errors (some n) = error_if (ltb sms_template_max_euckr_bytes n) body (too_many_bytes n)

abbrev pub validate_push_template_length : Text → Text → List TemplateFieldError
validate_push_template_length t b =
    error_if (ltb push_template_max_title_runes (length t)) title title_too_long
    ++ error_if (ltb push_template_max_body_runes (length b)) body body_too_long

abbrev pub validate_notification_template_version : ℤ → List TemplateFieldError
validate_notification_template_version (pos n) =
    error_if (not (ltb 0 n)) expected_version version_missing
validate_notification_template_version _ = (expected_version, version_missing) ∷ []

-- The encoder of EUC-KR is `encode`: the bytes it makes, none where it fails.
module _ (encode : Text → Option ℕ) where
  abbrev pub validate_sms_template_length : Definition → Text → List TemplateFieldError
  validate_sms_template_length definition b =
      byte_errors (encode (render_template_with_samples b definition))

  -- The rejected fields in order. No error is the list that is empty.
  unfoldable pub validate_notification_template : Definition → Text → Text → List TemplateFieldError
  validate_notification_template definition t b =
      error_if (is_blank b) body body_missing
      ++ (validate_template_title_presence definition t
          ++ (validate_template_placeholders definition t b
              ++ (if text_eq definition.channel sms
                  then validate_sms_template_length definition b
                  else validate_push_template_length t b)))
