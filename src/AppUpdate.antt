-- ===== src/AppUpdate.antt =====
-- The rules for app updates: backend/internal/service/app_update_evaluator.go, the policy type of
-- backend/internal/model/app_update_policy.go and the request headers and the gate of
-- backend/internal/middleware (client_app_headers.go, app_version_gate.go).
pub mod Outcomes
pub mod Validation
pub mod Gate
pub mod Save
mod Examples
use daeil_scholar.Prelude.{
  ℕ, zero, suc, Bool, true, false, not, ◌&&◌, ◌||◌, Option, none, some, List, [], ◌∷◌, length, leb,
  if◌then◌else◌,
}
use daeil_scholar.Prelude.Int.{ℤ, pos, ltb_ℤ, leb_ℤ, eqb_ℤ}
use daeil_scholar.Prelude.Text.{
  Text, codes, text_eq, is_space, drop_spaces, trim_space, split_at, parse_int,
}

pub record Policy : Type 0 where
  pub force_enabled : Bool
  pub min_build : ℤ
  pub recommend_enabled : Bool
  pub recommended_build : ℤ
  pub min_os_version : Text
  pub store_url : Text

pub data Decision : Type 0 where
  none_needed recommend force unsupported_os : Decision

abbrev pub max_os_version_segments : ℕ
max_os_version_segments = 3

-- `[maxOSVersionSegments]int`
pub record OsVersion : Type 0 where
  pub major : ℤ
  pub minor : ℤ
  pub patch : ℤ

abbrev pub zero_version : OsVersion
zero_version = record { major = pos 0; minor = pos 0; patch = pos 0 }

-- `parsed[index] = value`
abbrev pub set_segment : ℕ → ℤ → OsVersion → OsVersion
set_segment zero n v = record v { major = n }
set_segment (suc zero) n v = record v { minor = n }
set_segment (suc (suc i)) n v = record v { patch = n }

-- The loop over the segments. `none` is `return parsed, false`.
pub read_segments : ℕ → List Text → OsVersion → Option OsVersion
read_segments i [] v = some v
read_segments i (w ∷ ws) v = elim (parse_int w) [
  | none ↦ none
  | some n ↦ if ltb_ℤ n (pos 0) then none else read_segments (suc i) ws (set_segment i n v)
]

unfoldable pub parse_os_version : Text → Option OsVersion
unfolding read_segments trim_space split_at parse_int
parse_os_version text =
    let trimmed = trim_space text in
    if text_eq trimmed []
    then none
    else let segments = split_at b'.' trimmed in
      if not (leb (length segments) max_os_version_segments)
      then none
      else read_segments 0 segments zero_version

-- The loop over the indices 0, 1, 2.
pub version_below : OsVersion → OsVersion → Bool
version_below device minimum =
    if not (eqb_ℤ device.major minimum.major)
    then ltb_ℤ device.major minimum.major
    else if not (eqb_ℤ device.minor minimum.minor)
    then ltb_ℤ device.minor minimum.minor
    else if not (eqb_ℤ device.patch minimum.patch)
    then ltb_ℤ device.patch minimum.patch
    else false

abbrev pub both_below : Option OsVersion → Option OsVersion → Bool
both_below (some device) (some minimum) = version_below device minimum
both_below _ _ = false

pub is_os_version_below : Text → Text → Bool
is_os_version_below device minimum = both_below (parse_os_version device) (parse_os_version minimum)

pub needs_force : Policy → ℤ → Bool
needs_force p build = p.force_enabled && ltb_ℤ (pos 0) p.min_build && ltb_ℤ build p.min_build

pub needs_recommend : Policy → ℤ → Bool
needs_recommend p build =
    p.recommend_enabled && ltb_ℤ (pos 0) p.recommended_build && ltb_ℤ build p.recommended_build

pub evaluate_app_update : Policy → ℤ → Text → Decision
unfolding needs_force needs_recommend
evaluate_app_update p build os =
    if leb_ℤ build (pos 0)
    then none_needed
    else if not (needs_force p build) && not (needs_recommend p build)
    then none_needed
    else if is_os_version_below os p.min_os_version
    then unsupported_os
    else if needs_force p build
    then force
    else recommend
