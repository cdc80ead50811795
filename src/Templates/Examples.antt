-- ===== src/Templates/Examples.antt =====
-- The texts of notifications at concrete entries, rows and values.
use daeil_scholar.Prelude.{
  ℕ, ◌+◌, arith, true, Option, none, some, [], ◌∷◌, All, if◌then◌else◌, if-cases, ◌≡◌, refl,
}
use daeil_scholar.Prelude.Text.{Text, codes, text_eq, contains, trim_space}
use daeil_scholar.Templates.{
  message_preview_on, phone_verification, push, notification_template_definition_for,
}
use daeil_scholar.Templates.Scan.{plain, token, pieces}
use daeil_scholar.Templates.Validation.{
  body, unknown_placeholder, stray_brace, placeholder_missing, validate_notification_template,
}
use daeil_scholar.Templates.Service.{
  NotificationTemplate, row, RenderedText, Env, load_or_default, resolve, render,
}
use daeil_scholar.Templates.Filled.{IsPlain}
use daeil_scholar.Templates.Saving.{World, keep_text, update}
use daeil_scholar.Templates.Shown.{env_of, all_work, with_version, IsShown, update-IsShown}
use daeil_scholar.Templates.Rendering.{render-IsFilled, IsFilled}

abbrev plus_two : Option ℕ → Option ℕ
plus_two none = none
plus_two (some n) = some (2 + n)

-- An encoder of two bytes for each character.
abbrev two_bytes : Text → Option ℕ
two_bytes [] = some 0
two_bytes (c ∷ s) = plus_two (two_bytes s)

abbrev senders : Text → Text
senders name = if text_eq name (codes "senderName") then codes "Kim" else codes "hello"

senders-IsPlain : (name : Text) → All IsPlain (senders name)
senders-IsPlain name =
    if-cases (All IsPlain) (text_eq name (codes "senderName")) (codes "Kim") (codes "hello")
      (λ _. (refl, (refl, (refl, tt)))) (λ _. (refl, (refl, (refl, (refl, (refl, tt))))))

abbrev stored : Text → Text → Env
stored t b = record {
  has_cache = true;
  cached = none;
  got = row (record { channel = push; title = t; body = b; version = 4 });
  generation_before = 2;
  generation_checked = 2;
}

abbrev rendered : Text → Text → RenderedText
rendered t b = (render two_bytes message_preview_on.key (stored t b) senders).0

scan_test :
    pieces 0 (codes "a{{b}}") ≡ plain b'a' ∷ plain b'{' ∷ token (codes "b") ∷ plain b'}' ∷ []
scan_test = refl

stray_test :
    validate_notification_template two_bytes phone_verification [] (codes "{{code}}")
    ≡ (body, stray_brace) ∷ []
unfolding validate_notification_template trim_space contains
stray_test = refl

typo_test :
    validate_notification_template two_bytes phone_verification [] (codes "{cod}")
    ≡ (body, unknown_placeholder (codes "cod")) ∷ (body, placeholder_missing (codes "code")) ∷ []
unfolding validate_notification_template trim_space contains
typo_test = refl

rendered_test :
    (rendered (codes "From {senderName}") (codes "{senderName}: {content}")).body
    ≡ codes "Kim: hello"
unfolding render notification_template_definition_for load_or_default validate_notification_template
    trim_space contains
rendered_test = refl

fallback_test : (rendered (codes "From {{senderName}}") (codes "{content}")).title ≡ codes "Kim"
unfolding render notification_template_definition_for load_or_default validate_notification_template
    trim_space contains
fallback_test = refl

render-IsFilled_example :
    IsFilled two_bytes
      (notification_template_definition_for message_preview_on.key)
      (stored (codes "From {senderName}") (codes "{senderName}: {content}"))
      senders
      (render two_bytes message_preview_on.key
        (stored (codes "From {senderName}") (codes "{senderName}: {content}"))
        senders)
unfolding notification_template_definition_for
render-IsFilled_example =
    render-IsFilled two_bytes message_preview_on.key
      (stored (codes "From {senderName}") (codes "{senderName}: {content}")) senders senders-IsPlain
      tt

abbrev shown_title : Text
shown_title = codes "From {senderName}"

abbrev shown_body : Text
shown_body = codes "{senderName}: {content}"

abbrev seeded : NotificationTemplate
seeded = record {
  channel = push;
  title = codes "{senderName}";
  body = codes "{content}";
  version = 3;
}

shown_valid :
    validate_notification_template two_bytes message_preview_on shown_title shown_body ≡ []
unfolding validate_notification_template trim_space contains
shown_valid = refl

shown_known : notification_template_definition_for message_preview_on.key ≡ some message_preview_on
unfolding notification_template_definition_for
shown_known = refl

abbrev seeded_world : World
seeded_world = record { row = some seeded; generation = 7; cached = none }

-- A reading that compares the generations before the edit and sets the cache after it: the old text
-- is there again, and is what the next rendering fills.
abbrev overtaken : World
overtaken =
    keep_text (resolve two_bytes message_preview_on (env_of seeded_world)).1
      (update two_bytes all_work message_preview_on.key (with_version shown_title shown_body 3)
        seeded_world).1

abbrev title_shown : World → Text
title_shown w = (render two_bytes message_preview_on.key (env_of w) senders).0.title

stale_test : (title_shown overtaken) ≡ codes "Kim"
unfolding render update load_or_default notification_template_definition_for
    validate_notification_template trim_space contains
stale_test = refl

update-IsShown_example :
    IsShown two_bytes message_preview_on shown_title shown_body message_preview_on.key 4 7 (
      update two_bytes all_work message_preview_on.key
        (with_version shown_title shown_body 3)
        (record { row = some seeded; generation = 7; cached = none }))
update-IsShown_example =
    update-IsShown two_bytes message_preview_on shown_title shown_body seeded shown_valid refl
      message_preview_on.key shown_known (omega arith) 7 (omega arith) none
