-- ===== src/AppUpdate/Validation.antt =====
-- ValidateAppUpdatePolicy of backend/internal/service/app_update_policy_validation.go.
pub mod Lockout
use daeil_scholar.Prelude.{
  ℕ, ◌≤◌, ◌<◌, ◌≡◌, ◌≢◌, ◌↔◌, ◌⊎◌, refl, inl, inr, Bool, true, false, not, ◌&&◌, ◌||◌, Option, none,
  some, List, [], ◌∷◌, ◌++◌, arith, length, leb, if◌then◌else◌,
}
use daeil_scholar.Prelude.Int.{ℤ, pos, ltb_ℤ, leb_ℤ, ◌<ℤ◌, ◌≤ℤ◌}
use daeil_scholar.Prelude.Text.{Text, codes, text_eq, trim_space, split_at, has_prefix, is_digit}
use daeil_scholar.AppUpdate.{Policy}

abbrev pub ios : Text
ios = codes "ios"

abbrev pub android : Text
android = codes "android"

abbrev pub ios_store_url_prefix : Text
ios_store_url_prefix = codes "https://apps.apple.com/"

unfoldable pub is_supported_app_platform : Text → Bool
is_supported_app_platform platform = text_eq platform ios || text_eq platform android

-- `apiLevelPattern`, `^\d+$`
abbrev pub all_digits : Text → Bool
all_digits [] = true
all_digits (c ∷ s) = is_digit c && all_digits s

unfoldable pub is_api_level : Text → Bool
is_api_level [] = false
is_api_level (c ∷ s) = all_digits (c ∷ s)

abbrev pub all_api_levels : List Text → Bool
all_api_levels [] = true
all_api_levels (w ∷ ws) = is_api_level w && all_api_levels ws

-- `dottedOSVersionPattern`, `^\d+(\.\d+){0,2}$`
unfoldable pub is_dotted_os_version : Text → Bool
unfolding is_api_level
is_dotted_os_version s = let parts = split_at b'.' s in leb (length parts) 3 && all_api_levels parts

-- The rejected field, with the reason that the source writes in Korean.
pub data FieldError : Type 0 where
  platform_unsupported : FieldError
  min_build_negative min_build_missing min_build_unobserved : FieldError
  recommended_build_negative recommended_build_missing : FieldError
  recommended_build_below_min recommended_build_unobserved : FieldError
  min_os_version_not_api_level min_os_version_not_dotted : FieldError
  store_url_missing store_url_prefix store_url_unused : FieldError

-- `if test { add(...) }`
abbrev pub add_if : Bool → FieldError → List FieldError
add_if true e = e ∷ []
add_if false e = []

unfoldable pub validate_ios_store_url : Policy → List FieldError
validate_ios_store_url p =
    let store_url = trim_space p.store_url in
    if text_eq store_url []
    then add_if (p.force_enabled || p.recommend_enabled) store_url_missing
    else add_if (not (has_prefix store_url ios_store_url_prefix)) store_url_prefix

unfoldable pub build_errors : Policy → List FieldError
build_errors p =
    add_if (ltb_ℤ p.min_build (pos 0)) min_build_negative
    ++ (add_if (ltb_ℤ p.recommended_build (pos 0)) recommended_build_negative
        ++ (add_if (p.force_enabled && leb_ℤ p.min_build (pos 0)) min_build_missing
            ++ (add_if (p.recommend_enabled && leb_ℤ p.recommended_build (pos 0))
                  recommended_build_missing
                ++ add_if
                    (p.force_enabled
                      && p.recommend_enabled
                      && ltb_ℤ p.recommended_build p.min_build)
                    recommended_build_below_min)))

unfoldable pub unobserved_errors : Policy → ℤ → Bool → List FieldError
unobserved_errors p latest true = []
unobserved_errors p latest false =
    add_if (p.force_enabled && ltb_ℤ latest p.min_build) min_build_unobserved
    ++ add_if (p.recommend_enabled && ltb_ℤ latest p.recommended_build) recommended_build_unobserved

unfoldable pub platform_errors : Text → Policy → List FieldError
platform_errors platform p =
    (if text_eq platform android
      then add_if (not (is_api_level p.min_os_version)) min_os_version_not_api_level
      else add_if (not (is_dotted_os_version p.min_os_version)) min_os_version_not_dotted)
    ++ (if text_eq platform ios
        then validate_ios_store_url p
        else add_if (not (text_eq (trim_space p.store_url) [])) store_url_unused)

-- The rejected fields in order; none means that the policy is accepted.
unfoldable pub validate_app_update_policy : Text → Policy → ℤ → Bool → List FieldError
validate_app_update_policy platform p latest allow_unobserved =
    add_if (not (is_supported_app_platform platform)) platform_unsupported
    ++ (build_errors p
        ++ (unobserved_errors p latest allow_unobserved ++ platform_errors platform p))
