-- ===== src/AppUpdate/Validation/Lockout.antt =====
-- What an accepted policy cannot do: the validation of
-- backend/internal/service/app_update_policy_validation.go against the evaluation of
-- backend/internal/service/app_update_evaluator.go.
use daeil_scholar.Prelude.{
  ◌≡◌, ◌↔◌, ◌⊎◌, refl, inl, inr, true, false, Bool, List, [], ◌∷◌, ◌++◌, arith, Bool-cases,
}
use daeil_scholar.Prelude.Int.{ℤ, pos, ◌<ℤ◌, ◌≤ℤ◌}
use daeil_scholar.Prelude.Text.{Text, text_eq, trim_space, has_prefix}
use daeil_scholar.AppUpdate.{Policy, none_needed, evaluate_app_update}
use daeil_scholar.AppUpdate.Validation.{
  FieldError, ios, android, ios_store_url_prefix, is_supported_app_platform, is_api_level,
  is_dotted_os_version, build_errors, unobserved_errors, platform_errors, validate_ios_store_url,
  validate_app_update_policy, add_if,
}

append_nil : (xs ys : List FieldError) → xs ++ ys ≡ [] → (xs ≡ []) × (ys ≡ [])
append_nil [] ys h = (refl, h)
append_nil (x ∷ xs) ys h = absurd (cc)

add_if_nil : (b : Bool) (e : FieldError) → add_if b e ≡ [] → b ≡ false
add_if_nil true e h = cc
add_if_nil false e h = refl

parts_nil :
    (platform : Text) (p : Policy) (latest : ℤ) (allow : Bool)
    → validate_app_update_policy platform p latest allow ≡ []
    → (is_supported_app_platform platform ≡ true)
      × (build_errors p ≡ [])
      × (unobserved_errors p latest allow ≡ [])
      × (platform_errors platform p ≡ [])
unfolding validate_app_update_policy
parts_nil platform p latest allow h =
    let (a, rest) =
      append_nil _
        (build_errors p ++ (unobserved_errors p latest allow ++ platform_errors platform p)) h in
    let (b, rest') = append_nil (build_errors p) _ rest in
    let (c, d) = append_nil (unobserved_errors p latest allow) _ rest' in (ground (arith), b, c, d)

abbrev IsObserved : Policy → ℤ → Type 0
IsObserved p latest =
    (p.force_enabled ≡ true → p.min_build ≤ℤ latest)
    × (p.recommend_enabled ≡ true → p.recommended_build ≤ℤ latest)

unseen_nil : (p : Policy) (latest : ℤ) → unobserved_errors p latest false ≡ [] → IsObserved p latest
unfolding unobserved_errors
unseen_nil p latest h = (λ f. ground arith, λ r. ground arith)

-- A policy that is accepted without the confirmation for unobserved builds tells nothing to any
-- client on the highest observed build or a newer one: it cannot lock every user out.
pub accepted-none_needed :
    (platform : Text) (p : Policy) (latest build : ℤ) (os : Text)
    → validate_app_update_policy platform p latest false ≡ []
    → latest ≤ℤ build
    → evaluate_app_update p build os ≡ none_needed
unfolding evaluate_app_update
accepted-none_needed platform p latest build os accepted newest =
    let (_, _, seen, _) = parts_nil platform p latest false accepted in
    ground (arith, unseen_nil p latest seen)

-- What a policy for a platform must satisfy.
pub record IsSafe (platform : Text) (p : Policy) (latest : ℤ) (allow : Bool) : Type 0 where
  pub supported : (text_eq platform ios ≡ true) ⊎ (text_eq platform android ≡ true)
  pub min_nonneg : pos 0 ≤ℤ p.min_build
  pub recommended_nonneg : pos 0 ≤ℤ p.recommended_build
  pub force_has_min : p.force_enabled ≡ true → pos 0 <ℤ p.min_build
  pub recommend_has_build : p.recommend_enabled ≡ true → pos 0 <ℤ p.recommended_build
  pub ordered :
      p.force_enabled ≡ true → p.recommend_enabled ≡ true → p.min_build ≤ℤ p.recommended_build
  pub observed :
      allow ≡ false
      → (p.force_enabled ≡ true → p.min_build ≤ℤ latest)
        × (p.recommend_enabled ≡ true → p.recommended_build ≤ℤ latest)
  pub android_version : text_eq platform android ≡ true → is_api_level p.min_os_version ≡ true
  pub ios_version : text_eq platform android ≡ false → is_dotted_os_version p.min_os_version ≡ true
  pub ios_store :
      text_eq platform ios ≡ true
      → (text_eq (trim_space p.store_url) [] ≡ true)
          × (p.force_enabled ≡ false)
          × (p.recommend_enabled ≡ false)
        ⊎ (text_eq (trim_space p.store_url) [] ≡ false)
          × (has_prefix (trim_space p.store_url) ios_store_url_prefix ≡ true)
  pub no_other_store : text_eq platform ios ≡ false → text_eq (trim_space p.store_url) [] ≡ true

build_nil :
    (p : Policy)
    → build_errors p ≡ []
    → (pos 0 ≤ℤ p.min_build)
      × (pos 0 ≤ℤ p.recommended_build)
      × (p.force_enabled ≡ true → pos 0 <ℤ p.min_build)
      × (p.recommend_enabled ≡ true → pos 0 <ℤ p.recommended_build)
      × (p.force_enabled ≡ true → p.recommend_enabled ≡ true → p.min_build ≤ℤ p.recommended_build)
unfolding build_errors
build_nil p h =
    (ground arith, ground arith, λ f. ground arith, λ r. ground arith, λ f r. ground arith)

seen_nil :
    (p : Policy) (latest : ℤ) (allow : Bool)
    → unobserved_errors p latest allow ≡ []
    → allow ≡ false
    → IsObserved p latest
seen_nil p latest true h e = cc
seen_nil p latest false h e = unseen_nil p latest h

store_nil :
    (p : Policy)
    → validate_ios_store_url p ≡ []
    → (text_eq (trim_space p.store_url) [] ≡ true)
        × (p.force_enabled ≡ false)
        × (p.recommend_enabled ≡ false)
      ⊎ (text_eq (trim_space p.store_url) [] ≡ false)
        × (has_prefix (trim_space p.store_url) ios_store_url_prefix ≡ true)
unfolding validate_ios_store_url
store_nil p h = elim (Bool-cases (text_eq (trim_space p.store_url) [])) [
  | inl empty ↦ inl (empty, ground arith, ground arith)
  | inr full ↦ inr (full, ground arith)
]

platform_nil :
    (platform : Text) (p : Policy)
    → platform_errors platform p ≡ []
    → (text_eq platform android ≡ true → is_api_level p.min_os_version ≡ true)
      × (text_eq platform android ≡ false → is_dotted_os_version p.min_os_version ≡ true)
      × (text_eq platform ios ≡ true → validate_ios_store_url p ≡ [])
      × (text_eq platform ios ≡ false → text_eq (trim_space p.store_url) [] ≡ true)
unfolding platform_errors
platform_nil platform p h =
    (λ a. ground arith, λ a. ground arith, λ i. ground arith, λ i. ground arith)

supported_cases :
    (platform : Text)
    → is_supported_app_platform platform ≡ true
    → (text_eq platform ios ≡ true) ⊎ (text_eq platform android ≡ true)
unfolding is_supported_app_platform
supported_cases platform h = ground arith

module _ (platform : Text) (p : Policy) (latest : ℤ) (allow : Bool) where
  safe : validate_app_update_policy platform p latest allow ≡ [] → IsSafe platform p latest allow
  safe h =
      let (known, build, seen, rest) = parts_nil platform p latest allow h in
      let (a, b, c, d, e) = build_nil p build in
      let (m, n, o, q) = platform_nil platform p rest in
      record {
        supported = supported_cases platform known;
        min_nonneg = a;
        recommended_nonneg = b;
        force_has_min = c;
        recommend_has_build = d;
        ordered = e;
        observed = seen_nil p latest allow seen;
        android_version = m;
        ios_version = n;
        ios_store = λ i. store_nil p (o i);
        no_other_store = q;
      }

  build_ok : IsSafe platform p latest allow → build_errors p ≡ []
  unfolding build_errors
  build_ok h = ground arith

  unobserved_ok :
      (a : Bool) → allow ≡ a → IsSafe platform p latest allow → unobserved_errors p latest a ≡ []
  unfolding unobserved_errors
  unobserved_ok true is h = refl
  unobserved_ok false is h = ground arith

  platform_ok : IsSafe platform p latest allow → platform_errors platform p ≡ []
  unfolding platform_errors validate_ios_store_url
  platform_ok h = ground arith

  accepted :
      IsSafe platform p latest allow → validate_app_update_policy platform p latest allow ≡ []
  unfolding validate_app_update_policy is_supported_app_platform
  accepted h = rw (build_ok h, unobserved_ok allow refl h, platform_ok h) (ground arith)

-- Exactly the safe policies are accepted.
pub accepted-IsSafe :
    (platform : Text) (p : Policy) (latest : ℤ) (allow : Bool)
    → (validate_app_update_policy platform p latest allow ≡ []) ↔ IsSafe platform p latest allow
accepted-IsSafe platform p latest allow =
    (safe platform p latest allow, accepted platform p latest allow)
