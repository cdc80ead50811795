-- ===== src/Templates/Service.antt =====
-- The choice between the stored text and the default, and its cache:
-- backend/internal/service/notification_template_service.go.
use daeil_scholar.Prelude.{
  ℕ, Bool, true, false, ◌&&◌, Option, none, some, List, [], ◌∷◌, ◌++◌, ◌==◌, ◌*◌, if◌then◌else◌,
}
use daeil_scholar.Prelude.Int.{ℤ}
use daeil_scholar.Prelude.Text.{Text, text_eq}
use daeil_scholar.Templates.{Definition, notification_template_definition_for}
use daeil_scholar.Templates.Scan.{render_template_text}
use daeil_scholar.Templates.Validation.{
  TemplateFieldError, validate_notification_template, validate_notification_template_version,
}

-- A row of the store, without who changed it and when.
pub record NotificationTemplate : Type 0 where
  pub channel : Text
  pub title : Text
  pub body : Text
  pub version : ℕ

-- What the store's `Get` answers.
pub data Got : Type 0 where
  failed missing : Got
  row : NotificationTemplate → Got

pub record ResolvedTemplate : Type 0 where
  pub title : Text
  pub body : Text
  pub version : ℕ

pub record RenderedText : Type 0 where
  pub key : Text
  pub version : ℕ
  pub title : Text
  pub body : Text

-- The lives of cached texts in seconds.
abbrev pub template_cache_ttl : ℕ
template_cache_ttl = 5 * 60

abbrev pub template_error_cache_ttl : ℕ
template_error_cache_ttl = 30

-- What a rendering meets: the cached text, if there is a cache and it has one, the answer of the
-- store, and the generation of the key before that answer and when it is compared. No lock holds
-- from one of these to the next, or to the set of the cache.
pub record Env : Type 0 where
  pub has_cache : Bool
  pub cached : Option ResolvedTemplate
  pub got : Got
  pub generation_before : ℕ
  pub generation_checked : ℕ

abbrev pub fallback : Definition → ResolvedTemplate
fallback definition = record {
  title = definition.default_title;
  body = definition.default_body;
  version = 0;
}

abbrev pub no_errors : List TemplateFieldError → Bool
no_errors [] = true
no_errors (e ∷ es) = false

abbrev pub stored_text : NotificationTemplate → ResolvedTemplate
stored_text t = record { title = t.title; body = t.body; version = t.version }

-- A text, and what the reading goes on to set in the cache, with its life. The set is a step of its
-- own, `keep_text` of `Templates.Saving`, before which other calls may come.
abbrev pub Resolution : Type 0
Resolution = ResolvedTemplate × Option (ResolvedTemplate × ℕ)

abbrev pub cache_if : Bool → ResolvedTemplate × ℕ → Resolution
cache_if b (resolved, ttl) = (resolved, (if b then some (resolved, ttl) else none))

abbrev pub cached_if : Bool → Option ResolvedTemplate → Option ResolvedTemplate
cached_if b c = if b then c else none

-- The errors of a submission, those of the version first.
abbrev pub submission_errors : ℤ → List TemplateFieldError → List TemplateFieldError
submission_errors expected_version es =
    validate_notification_template_version expected_version ++ es

module _ (encode : Text → Option ℕ) where
  -- A text to use, and how long it may be cached.
  unfoldable pub load_or_default : Definition → Got → ResolvedTemplate × ℕ
  load_or_default definition failed = (fallback definition, template_error_cache_ttl)
  load_or_default definition missing = (fallback definition, template_cache_ttl)
  load_or_default definition (row t) =
      if text_eq t.channel definition.channel
      then (if no_errors (validate_notification_template encode definition t.title t.body)
          then (stored_text t, template_cache_ttl)
          else (fallback definition, template_cache_ttl))
      else (fallback definition, template_cache_ttl)

  abbrev pub read_through : Definition → Env → Option ResolvedTemplate → Resolution
  read_through definition env (some resolved) = (resolved, none)
  read_through definition env none =
      cache_if (env.has_cache && (env.generation_checked == env.generation_before))
        (load_or_default definition env.got)

  abbrev pub resolve : Definition → Env → Resolution
  resolve definition env = read_through definition env (cached_if env.has_cache env.cached)

  abbrev pub render_resolved :
      Text → Definition → (Text → Text) → Resolution → RenderedText × Option (ResolvedTemplate × ℕ)
  render_resolved key definition vars (resolved, kept) = (
    record {
      key = key;
      version = resolved.version;
      title = render_template_text resolved.title definition vars;
      body = render_template_text resolved.body definition vars;
    },
    kept,
  )

  abbrev pub render_known :
      Text → Env → (Text → Text) → Option Definition → RenderedText × Option (ResolvedTemplate × ℕ)
  render_known key env vars none = (record { key = key; version = 0; title = []; body = [] }, none)
  render_known key env vars (some definition) =
      render_resolved key definition vars (resolve definition env)

  -- The text of a notification, and what the reading goes on to set in the cache.
  unfoldable pub render : Text → Env → (Text → Text) → RenderedText × Option (ResolvedTemplate × ℕ)
  render key env vars = render_known key env vars (notification_template_definition_for key)

  abbrev pub validate_template_submission : Definition → ℤ → Text → Text → List TemplateFieldError
  validate_template_submission definition expected_version t b =
      submission_errors expected_version (validate_notification_template encode definition t b)
