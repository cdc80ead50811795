-- ===== src/Templates/Saving.antt =====
-- The edits of administrators: `Update` of
-- backend/internal/service/notification_template_service.go on `Update` of
-- backend/internal/repository/notification_template_repo.go, for the key that is edited.
use daeil_scholar.Prelude.{
  ℕ, suc, ◌+◌, ◌%◌, ◌^◌, Bool, true, false, not, ◌&&◌, Option, none, some, List, [], ◌∷◌, ltb, ◌==◌,
  if◌then◌else◌,
}
use daeil_scholar.Prelude.Int.{ℤ, pos}
use daeil_scholar.Prelude.Text.{Text, text_eq}
use daeil_scholar.Templates.{Placeholder, Definition, notification_template_definition_for, sms}
use daeil_scholar.Templates.Validation.{
  TemplateFieldError, validate_notification_template, sms_template_max_euckr_bytes,
  push_template_max_title_runes, push_template_max_body_runes,
}
use daeil_scholar.Templates.Service.{
  NotificationTemplate, ResolvedTemplate, no_errors, validate_template_submission,
}

-- Which calls of the database work.
pub record Works : Type 0 where
  pub begins : Bool
  pub reads : Bool
  pub writes : Bool
  pub commits : Bool

pub record Submission : Type 0 where
  pub title : Text
  pub body : Text
  pub expected_version : ℤ

-- What the repository answers.
pub data StoreResult : Type 0 where
  stored : ℕ → StoreResult
  no_rows version_conflict database_error : StoreResult

abbrev pub is_version : ℤ → ℕ → Bool
is_version (pos n) current = ltb 0 n && current == n
is_version _ current = false

abbrev pub edited : Submission → NotificationTemplate → NotificationTemplate
edited s r = record { channel = r.channel; title = s.title; body = s.body; version = suc r.version }

abbrev pub write_edit :
    Works → Submission → NotificationTemplate → StoreResult × Option NotificationTemplate
write_edit works s r =
    if works.writes && works.commits
    then (stored (suc r.version), some (edited s r))
    else (database_error, some r)

-- The transaction on the row of the key.
abbrev pub store_update :
    Works → Submission → Option NotificationTemplate → StoreResult × Option NotificationTemplate
store_update works s none =
    if works.begins && works.reads then (no_rows, none) else (database_error, none)
store_update works s (some r) =
    if works.begins && works.reads
    then (if is_version s.expected_version r.version
        then write_edit works s r
        else (version_conflict, some r))
    else (database_error, some r)

-- The caps shown; 0 is a cap that does not apply.
pub record Limits : Type 0 where
  pub max_body_euckr_bytes : ℕ
  pub max_title_runes : ℕ
  pub max_body_runes : ℕ

abbrev pub limits : Definition → Limits
limits d =
    if text_eq d.channel sms
    then record {
      max_body_euckr_bytes = sms_template_max_euckr_bytes;
      max_title_runes = 0;
      max_body_runes = 0;
    }
    else record {
      max_body_euckr_bytes = 0;
      max_title_runes = push_template_max_title_runes;
      max_body_runes = push_template_max_body_runes;
    }

pub record TemplateView : Type 0 where
  pub key : Text
  pub channel : Text
  pub title : Text
  pub body : Text
  pub default_title : Text
  pub default_body : Text
  pub is_default : Bool
  pub invalid : Bool
  pub version : ℕ
  pub placeholders : List Placeholder
  pub limits : Limits

-- What an administrator gets.
pub data Outcome : Type 0 where
  not_found conflict failed : Outcome
  rejected : List TemplateFieldError → Outcome
  saved : TemplateView → Outcome

-- The row of the key, its generation, a counter of 64 bits, and its cached text.
pub record World : Type 0 where
  pub row : Option NotificationTemplate
  pub generation : ℕ
  pub cached : Option ResolvedTemplate

-- The steps of an edit, in their order: the commit, and those of `invalidate`.
abbrev pub commit_row : Option NotificationTemplate → World → World
commit_row r w = record w { row = r }

abbrev pub raise_generation : World → World
raise_generation w = record w { generation = (w.generation + 1) % 2 ^ 64 }

abbrev pub drop_cached : World → World
drop_cached w = record w { cached = none }

abbrev pub invalidate : World → World
invalidate w = drop_cached (raise_generation w)

-- The set of a reading, in the world that it comes to by then. A reading that compared the
-- generations before an edit may set the old text after it.
abbrev pub keep_text : Option (ResolvedTemplate × ℕ) → World → World
keep_text none w = w
keep_text (some (r, ttl)) w = record w { cached = some r }

module _ (encode : Text → Option ℕ) where
  abbrev pub build_template_view : Definition → Option NotificationTemplate → TemplateView
  build_template_view d none = record {
    key = d.key;
    channel = d.channel;
    title = d.default_title;
    body = d.default_body;
    default_title = d.default_title;
    default_body = d.default_body;
    is_default = true;
    invalid = false;
    version = 0;
    placeholders = d.placeholders;
    limits = limits d;
  }
  build_template_view d (some r) = record {
    key = d.key;
    channel = d.channel;
    title = r.title;
    body = r.body;
    default_title = d.default_title;
    default_body = d.default_body;
    is_default = text_eq r.title d.default_title && text_eq r.body d.default_body;
    invalid = not (no_errors (validate_notification_template encode d r.title r.body));
    version = r.version;
    placeholders = d.placeholders;
    limits = limits d;
  }

  abbrev pub saved_row : Definition → Submission → ℕ → NotificationTemplate
  saved_row d s version = record {
    channel = d.channel;
    title = s.title;
    body = s.body;
    version = version;
  }

  abbrev pub after_store :
      Definition → Submission → World → StoreResult × Option NotificationTemplate → Outcome × World
  after_store d s w (stored version, r) =
      (saved (build_template_view d (some (saved_row d s version))), invalidate (commit_row r w))
  after_store d s w (no_rows, r) = (not_found, w)
  after_store d s w (version_conflict, r) = (conflict, w)
  after_store d s w (database_error, r) = (failed, w)

  abbrev pub update_valid :
      Works → Definition → Submission → World → List TemplateFieldError → Outcome × World
  update_valid works d s w [] = after_store d s w (store_update works s w.row)
  update_valid works d s w (e ∷ es) = (rejected (e ∷ es), w)

  abbrev pub update_known : Works → Submission → World → Option Definition → Outcome × World
  update_known works s w none = (not_found, w)
  update_known works s w (some d) =
      update_valid works d s w
        (validate_template_submission encode d s.expected_version s.title s.body)

  unfoldable pub update : Works → Text → Submission → World → Outcome × World
  update works key s w = update_known works s w (notification_template_definition_for key)
