-- ===== src/Templates/Rendering.antt =====
-- What a rendering by backend/internal/service/notification_template_service.go may hold.
use daeil_scholar.Prelude.{
  ℕ, Bool, true, false, not, ◌||◌, Option, none, some, List, [], ◌∷◌, ◌++◌, All, if-cases, ◌≡◌,
  refl, sym, subst, arith,
}
use daeil_scholar.Prelude.Text.{Text, text_eq, contains}
use daeil_scholar.Templates.{
  Placeholder, Definition, notification_template_catalog, find_definition,
  notification_template_definition_for, allows_placeholder,
}
use daeil_scholar.Templates.Scan.{
  Piece, plain, token, pieces, is_name, template_brace_tokens, outside_tokens,
}
use daeil_scholar.Templates.Validation.{
  Field, TemplateFieldError, Reason, body, title, stray_brace, unknown_placeholder, body_missing,
  error_if, is_blank, contains_brace, token_errors, text_errors, validate_template_title_presence,
  validate_template_placeholders, validate_notification_template,
}
use daeil_scholar.Templates.Service.{
  Got, failed, missing, row, ResolvedTemplate, RenderedText, Env, Resolution, fallback, no_errors,
  cache_if, load_or_default, read_through, resolve, render_known, render,
}
use daeil_scholar.Templates.Filled.{IsPlain, IsFit, IsNamed, fill, render_text-fill, fill-IsPlain}

append-none : {A : Type 0} (xs ys : List A) → xs ++ ys ≡ [] → (xs ≡ []) × (ys ≡ [])
append-none [] ys h = (refl, h)
append-none (x ∷ xs) ys h = cc

-- No error for a check means that it did not fail.
error_if-none :
    (b : Bool) (field : Field) (reason : Reason) → error_if b field reason ≡ [] → b ≡ false
error_if-none true field reason h = cc
error_if-none false field reason h = refl

errors-IsFit :
    (ps : List Placeholder) (field : Field) (l : List Piece)
    → token_errors ps field (template_brace_tokens l) ≡ []
    → contains_brace (outside_tokens l) ≡ false
    → All (IsFit ps) l
errors-IsFit ps field [] h b = tt
errors-IsFit ps field (plain c ∷ l) h b = (ground arith, errors-IsFit ps field l h (ground arith))
errors-IsFit ps field (token n ∷ l) h b =
    let parts = append-none _ (token_errors ps field (template_brace_tokens l)) h in
    let known =
      error_if-none (not (is_name n) || not (allows_placeholder ps n)) field (unknown_placeholder n)
        parts.0 in
    (ground arith, errors-IsFit ps field l parts.1 b)

text_errors-IsFit :
    (ps : List Placeholder) (field : Field) (l : List Piece)
    → text_errors ps field l ≡ []
    → All (IsFit ps) l
text_errors-IsFit ps field l h =
    let parts = append-none (token_errors ps field (template_brace_tokens l)) _ h in
    errors-IsFit ps field l parts.0 (error_if-none _ field stray_brace parts.1)

-- Each piece of the two texts is a placeholder of the definition or no brace.
abbrev pub IsUsable : Definition → ResolvedTemplate → Type 0
IsUsable d r =
    All (IsFit d.placeholders) (pieces 0 r.title) × All (IsFit d.placeholders) (pieces 0 r.body)

placeholders-IsFit :
    (d : Definition) (t b : Text)
    → validate_template_placeholders d t b ≡ []
    → All (IsFit d.placeholders) (pieces 0 t) × All (IsFit d.placeholders) (pieces 0 b)
placeholders-IsFit d t b h =
    let first = append-none (text_errors d.placeholders title (pieces 0 t)) _ h in
    let second = append-none (text_errors d.placeholders body (pieces 0 b)) _ first.1 in
    (
      text_errors-IsFit d.placeholders title _ first.0,
      text_errors-IsFit d.placeholders body _ second.0,
    )

-- The entries of the catalog have good names and usable defaults.
abbrev IsSound : Definition → Type 0
IsSound d =
    All IsNamed d.placeholders
    × (validate_template_placeholders d d.default_title d.default_body ≡ [])

catalog-IsSound : All IsSound notification_template_catalog
unfolding contains
catalog-IsSound = (
  ((refl, tt), refl),
  (
    (tt, refl),
    ((tt, refl), (((refl, tt), refl), (((refl, (refl, tt)), refl), (((refl, tt), refl), tt)))),
  ),
)

-- What all definitions of a list have, the one found has.
abbrev Found : (Definition → Type 0) → Option Definition → Type 0
Found P none = Unit
Found P (some d) = P d

find_definition-Found :
    (P : Definition → Type 0) (key : Text) (ds : List Definition)
    → All P ds
    → Found P (find_definition key ds)
find_definition-Found P key [] h = tt
find_definition-Found P key (d ∷ ds) (h, hs) =
    if-cases (Found P) (text_eq d.key key) _ _ (λ _. h) (λ _. find_definition-Found P key ds hs)

fallback-IsUsable : (d : Definition) → IsSound d → IsUsable d (fallback d)
fallback-IsUsable d h = placeholders-IsFit d d.default_title d.default_body h.1

no_errors-none : (es : List TemplateFieldError) → no_errors es ≡ true → es ≡ []
no_errors-none [] h = refl
no_errors-none (e ∷ es) h = cc

module _ (encode : Text → Option ℕ) where
  validated-IsFit :
      (d : Definition) (t b : Text)
      → validate_notification_template encode d t b ≡ []
      → All (IsFit d.placeholders) (pieces 0 t) × All (IsFit d.placeholders) (pieces 0 b)
  unfolding validate_notification_template
  validated-IsFit d t b h =
      let presence = append-none (error_if (is_blank b) body body_missing) _ h in
      let title_check = append-none (validate_template_title_presence d t) _ presence.1 in
      placeholders-IsFit d t b
        (append-none (validate_template_placeholders d t b) _ title_check.1).0

  load_or_default-IsUsable :
      (d : Definition) (got : Got) → IsSound d → IsUsable d (load_or_default encode d got).0
  unfolding load_or_default
  load_or_default-IsUsable d failed h = fallback-IsUsable d h
  load_or_default-IsUsable d missing h = fallback-IsUsable d h
  load_or_default-IsUsable d (row t) h =
      if-cases (λ (o : ResolvedTemplate × ℕ). IsUsable d o.0) (text_eq t.channel d.channel) _ _
        (λ _.
          if-cases (λ (o : ResolvedTemplate × ℕ). IsUsable d o.0)
            (no_errors (validate_notification_template encode d t.title t.body)) _ _
            (λ valid. validated-IsFit d t.title t.body (no_errors-none _ valid))
            (λ _. fallback-IsUsable d h))
        (λ _. fallback-IsUsable d h)

found : (key : Text) → Found IsSound (notification_template_definition_for key)
unfolding notification_template_definition_for
found key = find_definition-Found IsSound key notification_template_catalog catalog-IsSound

-- The text that a cache may hold for a key.
abbrev pub UsableIf : Definition → Option ResolvedTemplate → Type 0
UsableIf d none = Unit
UsableIf d (some r) = IsUsable d r

abbrev pub UsableFor : Option Definition → Option ResolvedTemplate → Type 0
UsableFor none o = Unit
UsableFor (some d) o = UsableIf d o

abbrev pub kept : Option (ResolvedTemplate × ℕ) → Option ResolvedTemplate
kept none = none
kept (some (r, ttl)) = some r

abbrev pub IsGood : Definition → Resolution → Type 0
IsGood d o = IsUsable d o.0 × UsableIf d (kept o.1)

cache_if-IsGood :
    (d : Definition) (b : Bool) (loaded : ResolvedTemplate × ℕ)
    → IsUsable d loaded.0
    → IsGood d (cache_if b loaded)
cache_if-IsGood d true (r, ttl) h = (h, h)
cache_if-IsGood d false (r, ttl) h = (h, tt)

module _ (encode : Text → Option ℕ) where
  read_through-IsGood :
      (d : Definition) (env : Env) (cached : Option ResolvedTemplate)
      → IsSound d
      → UsableIf d cached
      → IsGood d (read_through encode d env cached)
  read_through-IsGood d env none sound h =
      cache_if-IsGood d _ (load_or_default encode d env.got)
        (load_or_default-IsUsable encode d env.got sound)
  read_through-IsGood d env (some r) sound h = (h, tt)

  resolve-IsGood :
      (d : Definition) (env : Env)
      → IsSound d
      → UsableIf d env.cached
      → IsGood d (resolve encode d env)
  resolve-IsGood d env sound h = read_through-IsGood d env _ sound (
      if-cases (λ (o : Option ResolvedTemplate). UsableIf d o) env.has_cache _ _ (λ _. h) (λ _. tt))

  -- A rendering holds the pieces of the text chosen, each token replaced by its value.
  abbrev pub Says : Option Definition → Env → (Text → Text) → RenderedText → Type 0
  Says none env vars out = (out.title ≡ []) × (out.body ≡ [])
  Says (some d) env vars out =
      (out.title ≡ fill vars (pieces 0 (resolve encode d env).0.title))
      × (out.body ≡ fill vars (pieces 0 (resolve encode d env).0.body))

  abbrev pub IsFilled :
      Option Definition
      → Env
      → (Text → Text)
      → RenderedText × Option (ResolvedTemplate × ℕ)
      → Type 0
  IsFilled known env vars out =
      Says known env vars out.0
      × All IsPlain out.0.title
      × All IsPlain out.0.body
      × UsableFor known (kept out.1)

  render_known-IsFilled :
      (key : Text) (env : Env) (vars : Text → Text)
      → ((name : Text) → All IsPlain (vars name))
      → (known : Option Definition) → Found IsSound known
      → UsableFor known env.cached
      → IsFilled known env vars (render_known encode key env vars known)
  render_known-IsFilled key env vars values none sound h = ((refl, refl), tt, tt, tt)
  render_known-IsFilled key env vars values (some d) sound h =
      let good = resolve-IsGood d env sound h in
      let t =
        render_text-fill d.placeholders vars sound.0 (resolve encode d env).0.title good.0.0 in
      let b = render_text-fill d.placeholders vars sound.0 (resolve encode d env).0.body good.0.1 in
      (
        (t, b),
        subst (All IsPlain) (sym t) (fill-IsPlain d.placeholders vars values _ good.0.0),
        subst (All IsPlain) (sym b) (fill-IsPlain d.placeholders vars values _ good.0.1),
        good.1,
      )

  -- Whatever the key, the answer of the store and the generations, if no value has a brace and the
  -- cached text, if any, is usable, then a rendering is the text chosen with each token replaced by
  -- its value, no brace is left in the title or the body, and what the cache is given is usable.
  pub render-IsFilled :
      (key : Text) (env : Env) (vars : Text → Text)
      → ((name : Text) → All IsPlain (vars name))
      → UsableFor (notification_template_definition_for key) env.cached
      → IsFilled (notification_template_definition_for key) env vars (render encode key env vars)
  unfolding render
  render-IsFilled key env vars values =
      render_known-IsFilled key env vars values (notification_template_definition_for key)
        (found key)
