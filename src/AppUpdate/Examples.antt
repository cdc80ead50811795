-- ===== src/AppUpdate/Examples.antt =====
-- The theorems about app updates at concrete policies, requests and saves.
use daeil_scholar.Prelude.{
  ℕ, ◌≡◌, ◌≢◌, ◌↔◌, ◌⊎◌, refl, inl, inr, true, false, Option, none, some, [], arith, if◌then◌else◌,
  sym, subst, Bool-cases,
}
use daeil_scholar.Prelude.Int.{ℤ, pos, ◌≤ℤ◌, ◌<ℤ◌}
use daeil_scholar.Prelude.Text.{Text, codes, text_eq, text_eq→eq, split_at, trim_space, parse_int}
use daeil_scholar.AppUpdate.{
  Policy, none_needed, recommend, force, unsupported_os, OsVersion, parse_os_version, version_below,
  is_os_version_below, evaluate_app_update,
}
use daeil_scholar.AppUpdate.Outcomes.{
  IsForced, IsAdvised, IsBelow, evaluate_app_update_lem, evaluate_app_update_mono,
  evaluate_app_update_fail_open, version_below-order,
}
use daeil_scholar.AppUpdate.Validation.{
  ios, is_supported_app_platform, is_dotted_os_version, validate_ios_store_url, build_errors,
  unobserved_errors, platform_errors, validate_app_update_policy,
}
use daeil_scholar.AppUpdate.Validation.Lockout.{IsSafe, accepted-none_needed, accepted-IsSafe}
use daeil_scholar.AppUpdate.Gate.{
  Request, Headers, pass, upgrade_required, is_exempt, read_client_app_headers, app_version_gate,
  app_version_gate_lem, app_version_gate-newest,
}
use daeil_scholar.AppUpdate.Save.{
  Db, Faults, SaveInput, stored, store_policy, save_policy, policy_eq,
}
use daeil_scholar.AppUpdate.Save.Conflicts.{
  IsSaved, bound, save_policy-IsSaved, save_policy-no_lost_update,
}

abbrev enforced : Policy
enforced = record {
  force_enabled = true;
  min_build = pos 100;
  recommend_enabled = false;
  recommended_build = pos 0;
  min_os_version = codes "17.0";
  store_url = codes "https://apps.apple.com/app/1";
}

forced_at_99 : evaluate_app_update enforced (pos 99) (codes "17.4.1") ≡ force
unfolding evaluate_app_update is_os_version_below parse_os_version version_below
forced_at_99 = refl

unsupported_at_16 : evaluate_app_update enforced (pos 99) (codes " 16.9") ≡ unsupported_os
unfolding evaluate_app_update is_os_version_below parse_os_version version_below
unsupported_at_16 = refl

four_segments : parse_os_version (codes "1.2.3.4") ≡ none
unfolding parse_os_version
four_segments = refl

evaluate_app_update_lem_example :
    (evaluate_app_update enforced (pos 99) (codes "17.4") ≡ force
      ↔ (pos 0 <ℤ pos 99)
        × IsForced enforced (pos 99)
        × (is_os_version_below (codes "17.4") enforced.min_os_version ≡ false))
    × (evaluate_app_update enforced (pos 99) (codes "17.4") ≡ recommend
        ↔ (pos 0 <ℤ pos 99)
          × (¬ IsForced enforced (pos 99))
          × IsAdvised enforced (pos 99)
          × (is_os_version_below (codes "17.4") enforced.min_os_version ≡ false))
    × (evaluate_app_update enforced (pos 99) (codes "17.4") ≡ unsupported_os
        ↔ (pos 0 <ℤ pos 99)
          × (IsForced enforced (pos 99) ⊎ IsAdvised enforced (pos 99))
          × (is_os_version_below (codes "17.4") enforced.min_os_version ≡ true))
    × (evaluate_app_update enforced (pos 99) (codes "17.4") ≡ none_needed
        ↔ (pos 99 ≤ℤ pos 0) ⊎ ((¬ IsForced enforced (pos 99)) × (¬ IsAdvised enforced (pos 99))))
evaluate_app_update_lem_example = evaluate_app_update_lem enforced (pos 99) (codes "17.4")

evaluate_app_update_mono_example :
    (evaluate_app_update enforced (pos 98) (codes "17") ≡ none_needed
      → evaluate_app_update enforced (pos 99) (codes "17") ≡ none_needed)
    × (evaluate_app_update enforced (pos 99) (codes "17") ≡ force
        → evaluate_app_update enforced (pos 98) (codes "17") ≡ force)
evaluate_app_update_mono_example =
    evaluate_app_update_mono enforced (pos 98) (pos 99) (codes "17") (omega arith) (omega arith)

garbled : parse_os_version (codes "17.x") ≡ none
unfolding parse_os_version
garbled = refl

evaluate_app_update_fail_open_example :
    evaluate_app_update enforced (pos 99) (codes "17.x") ≢ unsupported_os
evaluate_app_update_fail_open_example =
    evaluate_app_update_fail_open enforced (pos 99) (codes "17.x") (inl garbled)

abbrev v : ℤ → ℤ → OsVersion
v a b = record { major = a; minor = b; patch = pos 0 }

version_below-order_example :
    (version_below (v (pos 8) (pos 1)) (v (pos 8) (pos 2)) ≡ true
      ↔ IsBelow (v (pos 8) (pos 1)) (v (pos 8) (pos 2)))
    × (version_below (v (pos 8) (pos 1)) (v (pos 8) (pos 1)) ≡ false)
    × (version_below (v (pos 8) (pos 1)) (v (pos 8) (pos 2)) ≡ true
        → version_below (v (pos 8) (pos 2)) (v (pos 9) (pos 0)) ≡ true
        → version_below (v (pos 8) (pos 1)) (v (pos 9) (pos 0)) ≡ true)
    × (version_below (v (pos 8) (pos 1)) (v (pos 8) (pos 2)) ≡ false
        → version_below (v (pos 8) (pos 2)) (v (pos 8) (pos 1)) ≡ false
        → v (pos 8) (pos 1) ≡ v (pos 8) (pos 2))
version_below-order_example =
    version_below-order (v (pos 8) (pos 1)) (v (pos 8) (pos 2)) (v (pos 9) (pos 0))

enforced-accepted : validate_app_update_policy ios enforced (pos 100) false ≡ []
unfolding validate_app_update_policy is_supported_app_platform build_errors unobserved_errors
    platform_errors is_dotted_os_version validate_ios_store_url trim_space split_at
enforced-accepted = refl

accepted-none_needed_example : evaluate_app_update enforced (pos 100) (codes "15") ≡ none_needed
accepted-none_needed_example =
    accepted-none_needed ios enforced (pos 100) (pos 100) (codes "15") enforced-accepted
      (omega arith)

accepted-IsSafe_example :
    (validate_app_update_policy ios enforced (pos 100) false ≡ [])
    ↔ IsSafe ios enforced (pos 100) false
accepted-IsSafe_example = accepted-IsSafe ios enforced (pos 100) false

abbrev request : Request
request = record {
  path = codes "/api/feed";
  app_platform = codes "iOS";
  app_build = codes "100";
  app_version = codes "3.1";
  app_os_version = codes "17.4";
}

abbrev keep_lower : ℕ → ℕ
keep_lower c = c

abbrev policies : Text → Option Policy
policies platform = if text_eq platform ios then some enforced else none

abbrev seen_headers : Headers
seen_headers = record {
  platform = ios;
  build = pos 100;
  version_name = codes "3.1";
  os_version = codes "17.4";
}

request_read : read_client_app_headers keep_lower request ≡ some seen_headers
unfolding read_client_app_headers is_supported_app_platform trim_space parse_int
request_read = refl

policies_accepted :
    (platform : Text) (p : Policy)
    → policies platform ≡ some p
    → validate_app_update_policy platform p (pos 100) false ≡ []
policies_accepted platform p found = elim (Bool-cases (text_eq platform ios)) [
  | inl same ↦
      let is : some enforced ≡ some p = rw same at found in
      let policy : enforced ≡ p = cc in
      subst (λ q. validate_app_update_policy platform q (pos 100) false ≡ []) policy
        (subst (λ t. validate_app_update_policy t enforced (pos 100) false ≡ [])
          (sym (text_eq→eq platform ios same)) enforced-accepted)
  | inr other ↦ let missing : none ≡ some p = rw other at found in absurd (cc)
]

app_version_gate_lem_example :
    (app_version_gate keep_lower policies request ≡ upgrade_required)
    ↔ (h : Headers) × (p : Policy) × (read_client_app_headers keep_lower request ≡ some h)
      × (is_exempt request.path ≡ false)
      × (policies h.platform ≡ some p)
      × (evaluate_app_update p h.build h.os_version ≡ force)
app_version_gate_lem_example = app_version_gate_lem keep_lower policies request

app_version_gate-newest_example : app_version_gate keep_lower policies request ≡ pass
app_version_gate-newest_example =
    app_version_gate-newest keep_lower policies (λ _. pos 100) request seen_headers
      policies_accepted request_read (omega arith)

-- A toy encoding that the save round trips: enough for one policy.
abbrev encode : Policy → Text
encode p = if p.force_enabled then codes "on" else codes "off"

abbrev relaxed : Policy
relaxed = record enforced { force_enabled = false; min_build = pos 0 }

abbrev decode : Text → Option Policy
decode t = if text_eq t (codes "on") then some enforced else some relaxed

abbrev db : Db
db = record {
  setting = some (record { value = codes "off"; updated_at = 50; updated_by = 1 });
  history = [];
  invalidations = 0;
}

abbrev no_faults : Faults
no_faults = record {
  begin_fails = false;
  select_fails = false;
  update_fails = false;
  insert_fails = false;
  commit_fails = false;
}

abbrev first_save : SaveInput
first_save = record {
  platform = ios;
  policy = enforced;
  expected_updated_at = some 50;
  expected_policy = some relaxed;
  allow_unobserved_build = false;
  updated_by = 2;
}

-- The other administrator saves in the same second, from the same view of the policy.
abbrev second_save : SaveInput
second_save = record first_save { policy = relaxed; updated_by = 3 }

first_stored : (save_policy encode decode first_save (some (pos 100)) 50 no_faults db).0 ≡ stored
unfolding save_policy store_policy policy_eq validate_app_update_policy is_supported_app_platform
    build_errors unobserved_errors platform_errors is_dotted_os_version validate_ios_store_url
    trim_space split_at
first_stored = refl

save_policy-IsSaved_example :
    IsSaved encode decode first_save 50 no_faults db
      (validate_app_update_policy ios enforced
        (bound encode decode first_save 50 no_faults db false (some (pos 100)))
        false)
      (save_policy encode decode first_save (some (pos 100)) 50 no_faults db)
save_policy-IsSaved_example =
    save_policy-IsSaved encode decode first_save 50 no_faults db (some (pos 100))

enforced_differs : policy_eq enforced relaxed ≡ false
unfolding policy_eq
enforced_differs = refl

save_policy-no_lost_update_example :
    let after = (save_policy encode decode first_save (some (pos 100)) 50 no_faults db).1 in
    ((save_policy encode decode second_save (some (pos 100)) 50 no_faults after).0 ≢ stored)
    × ((save_policy encode decode second_save (some (pos 100)) 50 no_faults after).1 ≡ after)
save_policy-no_lost_update_example =
    save_policy-no_lost_update encode decode first_save second_save relaxed (some (pos 100))
      (some (pos 100)) 50 50 no_faults no_faults db refl first_stored enforced_differs refl
