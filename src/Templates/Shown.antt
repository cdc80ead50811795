-- ===== src/Templates/Shown.antt =====
-- What is rendered after an edit, for backend/internal/service/notification_template_service.go.
use daeil_scholar.Prelude.{
  ℕ, suc, ◌+◌, ◌%◌, ◌^◌, ◌<◌, Bool, true, false, not, Option, none, some, [], ◌++◌, ◌==◌,
  if◌then◌else◌, ◌≡◌, refl, sym, ap, ◌∙◌, subst, arith,
}
use daeil_scholar.Prelude.Int.{pos}
use daeil_scholar.Prelude.Text.{Text, text_eq, text_eq_self}
use daeil_scholar.Templates.{Definition, notification_template_definition_for}
use daeil_scholar.Templates.Scan.{render_template_text}
use daeil_scholar.Templates.Validation.{
  validate_notification_template, validate_notification_template_version,
}
use daeil_scholar.Templates.Service.{
  NotificationTemplate, Got, missing, row, ResolvedTemplate, Env, stored_text, no_errors,
  template_cache_ttl, fallback, load_or_default, resolve, render_resolved, render_known, render,
  validate_template_submission, submission_errors, cache_if,
}
use daeil_scholar.Templates.Saving.{
  Works, Submission, is_version, edited, TemplateView, Outcome, saved, World, invalidate,
  commit_row, keep_text, build_template_view, saved_row, write_edit, version_conflict, after_store,
  update_valid, update_known, update,
}

abbrev pub all_work : Works
all_work = record { begins = true; reads = true; writes = true; commits = true }

abbrev pub got_of : Option NotificationTemplate → Got
got_of none = missing
got_of (some r) = row r

-- A rendering that meets this world, with no edit meanwhile.
abbrev pub env_of : World → Env
env_of w = record {
  has_cache = true;
  cached = w.cached;
  got = got_of w.row;
  generation_before = w.generation;
  generation_checked = w.generation;
}

abbrev pub with_version : Text → Text → ℕ → Submission
with_version t b n = record { title = t; body = b; expected_version = pos n }

version-none : (n : ℕ) → 0 < n → validate_notification_template_version (pos n) ≡ []
version-none n h = ground arith

store_update-works :
    (s : Submission) (n : ℕ) (r : NotificationTemplate)
    → s.expected_version ≡ pos n
    → r.version ≡ n
    → 0 < n
    → is_version s.expected_version r.version ≡ true
store_update-works s n r hs hr h = ground arith

next-differs : (g : ℕ) → g < 2 ^ 64 → ((g + 1) % 2 ^ 64 == g) ≡ false
next-differs g h = ground arith

cache_if-none :
    (b : Bool) (loaded : ResolvedTemplate × ℕ) → b ≡ false → (cache_if b loaded).1 ≡ none
cache_if-none true loaded h = cc
cache_if-none false (r, ttl) h = refl

-- A reading that began at the generation `g`, got any answer, and compares the generations in this
-- world.
abbrev pub late : ℕ → Got → World → Env
late g got w = record {
  has_cache = true;
  cached = none;
  got = got;
  generation_before = g;
  generation_checked = w.generation;
}

module _ (encode : Text → Option ℕ) (d : Definition) (t b : Text) where
  -- The edit is confirmed and rendered, and a reading from before it that compares the generations
  -- after it leaves the cache as it is.
  abbrev pub IsShown : Text → ℕ → ℕ → Outcome × World → Type 0
  IsShown key version g out =
      ((view : TemplateView) × (out.0 ≡ saved view)
        × (view.invalid ≡ false)
        × (view.version ≡ version))
      × ((vars : Text → Text)
          → (render encode key (env_of out.1) vars).0 ≡ record {
            key = key;
            version = version;
            title = render_template_text t d vars;
            body = render_template_text b d vars;
          })
      × ((got : Got) (w : World) → keep_text (resolve encode d (late g got out.1)).1 w ≡ w)

  module _ (r : NotificationTemplate) (valid : validate_notification_template encode d t b ≡ [])
      (same : r.channel ≡ d.channel) where
    loaded-edit :
        load_or_default encode d (row (edited (with_version t b r.version) r))
        ≡ (stored_text (edited (with_version t b r.version) r), template_cache_ttl)
    unfolding load_or_default
    loaded-edit =
        ap
          (λ c.
            if c
            then (if no_errors (validate_notification_template encode d t b)
                then (stored_text (edited (with_version t b r.version) r), template_cache_ttl)
                else (fallback d, template_cache_ttl))
            else (fallback d, template_cache_ttl))
          (ap (λ c. text_eq c d.channel) same ∙ text_eq_self d.channel)
        ∙ ap
            (λ es.
              if no_errors es
              then (stored_text (edited (with_version t b r.version) r), template_cache_ttl)
              else (fallback d, template_cache_ttl))
            valid

    module _ (key : Text) (known : notification_template_definition_for key ≡ some d)
        (numbered : 0 < r.version) (g : ℕ) (small : g < 2 ^ 64)
        (cached : Option ResolvedTemplate) where
      abbrev pub before : World
      before = record { row = some r; generation = g; cached = cached }

      abbrev pub edit : Submission
      edit = with_version t b r.version

      abbrev pub done : Outcome × World
      done = (
        saved (build_template_view encode d (some (saved_row encode d edit (suc r.version)))),
        invalidate (commit_row (some (edited edit r)) before),
      )

      submission-none : validate_template_submission encode d (pos r.version) t b ≡ []
      submission-none =
          ap (submission_errors (pos r.version)) valid
          ∙ ap (λ es. es ++ []) (version-none r.version numbered)

      update-done : update encode all_work key edit before ≡ done
      unfolding update
      update-done =
          ap (update_known encode all_work edit before) known
          ∙ ap (update_valid encode all_work d edit before) submission-none
          ∙ ap
              (λ c.
                after_store encode d edit before
                  (if c then write_edit all_work edit r else (version_conflict, some r)))
              (store_update-works edit r.version r refl refl numbered)

      rendered-edit :
          (vars : Text → Text)
          → (render encode key (env_of done.1) vars).0 ≡ record {
            key = key;
            version = suc r.version;
            title = render_template_text t d vars;
            body = render_template_text b d vars;
          }
      unfolding render
      rendered-edit vars =
          ap (λ k. (render_known encode key (env_of done.1) vars k).0) known
          ∙ ap
              (λ (l : ResolvedTemplate × ℕ).
                (render_resolved encode key d vars
                  (cache_if (done.1.generation == done.1.generation) l)).0)
              loaded-edit

      -- When a submission with the version of its row passes the checks, the channel of the row is
      -- that of the catalog, versions are positive, the generation fits 64 bits and the database
      -- works, the edit is saved: the administrator sees it with the next version and as usable,
      -- a rendering that comes next fills its texts, and a reading that began before it and compares
      -- the generations after it leaves the cache as it is, whenever it goes on.
      pub update-IsShown : IsShown key (suc r.version) g (update encode all_work key edit before)
      update-IsShown = subst (IsShown key (suc r.version) g) (sym update-done) (
        (
          build_template_view encode d (some (saved_row encode d edit (suc r.version))),
          refl,
          ap (λ es. not (no_errors es)) valid,
          refl,
        ),
        rendered-edit,
        λ got w.
            ap (λ o. keep_text o w)
              (cache_if-none _ (load_or_default encode d got) (next-differs g small)),
      )
