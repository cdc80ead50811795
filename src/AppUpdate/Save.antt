-- ===== src/AppUpdate/Save.antt =====
-- The save of a policy: `SavePolicy` of backend/internal/service/app_update_policy_service.go on
-- `SavePolicy` of backend/internal/repository/app_update_policy_repo.go. The row of the setting and
-- the history stand for the two tables; a failed transaction is rolled back.
pub mod Conflicts
use daeil_scholar.Prelude.{
  ℕ, suc, ◌≡◌, ◌≢◌, refl, Bool, true, false, not, ◌&&◌, ◌||◌, Option, none, some, List, [], ◌∷◌,
  arith, ◌==◌, if◌then◌else◌, Bool-cases, Option-cases, ap,
}
use daeil_scholar.Prelude.Int.{ℤ, pos, eqb_ℤ, eq_of_parts}
use daeil_scholar.Prelude.Text.{Text, text_eq, text_eq→eq, text_eq_self}
use daeil_scholar.AppUpdate.{Policy}
use daeil_scholar.AppUpdate.Validation.{
  FieldError, is_supported_app_platform, validate_app_update_policy,
}

abbrev pub bool_eq : Bool → Bool → Bool
bool_eq true b = b
bool_eq false b = not b

-- `stored == *expected` on the struct
unfoldable pub policy_eq : Policy → Policy → Bool
policy_eq p q =
    bool_eq p.force_enabled q.force_enabled
    && eqb_ℤ p.min_build q.min_build
    && bool_eq p.recommend_enabled q.recommend_enabled
    && eqb_ℤ p.recommended_build q.recommended_build
    && text_eq p.min_os_version q.min_os_version
    && text_eq p.store_url q.store_url

-- One row of `app_settings`, and one of `app_update_policy_history`.
pub record Setting : Type 0 where
  pub value : Text
  pub updated_at : ℕ
  pub updated_by : ℕ

pub record HistoryEntry : Type 0 where
  pub platform : Text
  pub before_json : Text
  pub after_json : Text
  pub changed_by : ℕ
  pub changed_at : ℕ

-- The row of the platform, the history with the newest entry first, and how often the cache of the
-- public settings was invalidated.
pub record Db : Type 0 where
  pub setting : Option Setting
  pub history : List HistoryEntry
  pub invalidations : ℕ

-- Which database calls of one transaction fail.
pub record Faults : Type 0 where
  pub begin_fails : Bool
  pub select_fails : Bool
  pub update_fails : Bool
  pub insert_fails : Bool
  pub commit_fails : Bool

pub data Saved : Type 0 where
  stored conflict unsupported_platform not_found database_error : Saved
  rejected : List FieldError → Saved

-- `!expectedUpdatedAt.IsZero() && !current.UpdatedAt.Equal(expectedUpdatedAt)`
abbrev pub is_stale : Option ℕ → ℕ → Bool
is_stale none at = false
is_stale (some expected) at = not (at == expected)

-- `storedValueMatches != nil && !storedValueMatches(current.Value)`
abbrev pub is_other : Option (Text → Bool) → Text → Bool
is_other none value = false
is_other (some matches) value = not (matches value)

abbrev pub write_row :
    Text → Text → ℕ → Option ℕ → Option (Text → Bool) → ℕ → Faults → Db → Setting → Saved × Db
write_row platform after by expected matches now f db row =
    if is_stale expected row.updated_at || is_other matches row.value
    then (conflict, db)
    else if f.update_fails || f.insert_fails || f.commit_fails
    then (database_error, db)
    else (
      stored,
      record db {
        setting = some (record { value = after; updated_at = now; updated_by = by });
        history =
            record {
              platform = platform;
              before_json = row.value;
              after_json = after;
              changed_by = by;
              changed_at = now;
            }
            ∷ db.history;
      },
    )

abbrev pub lock_row :
    Text
    → Text
    → ℕ
    → Option ℕ
    → Option (Text → Bool)
    → ℕ
    → Faults
    → Db
    → Option Setting
    → Saved × Db
lock_row platform after by expected matches now f db none = (not_found, db)
lock_row platform after by expected matches now f db (some row) =
    write_row platform after by expected matches now f db row

-- The repository's transaction; `sql.ErrNoRows` is what the service turns into not found.
unfoldable pub store_policy :
    Text → Text → ℕ → Option ℕ → Option (Text → Bool) → ℕ → Faults → Db → Saved × Db
store_policy platform after by expected matches now f db =
    if f.begin_fails || f.select_fails
    then (database_error, db)
    else lock_row platform after by expected matches now f db db.setting

abbrev pub invalidate_if_stored : Saved × Db → Saved × Db
invalidate_if_stored (stored, db) = (stored, record db { invalidations = suc db.invalidations })
invalidate_if_stored (r, db) = (r, db)

pub record SaveInput : Type 0 where
  pub platform : Text
  pub policy : Policy
  pub expected_updated_at : Option ℕ
  pub expected_policy : Option Policy
  pub allow_unobserved_build : Bool
  pub updated_by : ℕ

abbrev pub is_decoded : Policy → Option Policy → Bool
is_decoded expected none = false
is_decoded expected (some p) = policy_eq p expected

-- `json.Marshal` and `json.Unmarshal` on the struct, as functions of the section, and
-- `s.builds.LatestBuild`, whose error is `none`.
module _ (encode : Policy → Text) (decode : Text → Option Policy) where
  abbrev pub stored_policy_matcher : Option Policy → Option (Text → Bool)
  stored_policy_matcher none = none
  stored_policy_matcher (some expected) = some (λ value. is_decoded expected (decode value))

  abbrev pub save_if_valid : List FieldError → SaveInput → ℕ → Faults → Db → Saved × Db
  save_if_valid [] i now f db = invalidate_if_stored (
      store_policy i.platform (encode i.policy) i.updated_by i.expected_updated_at
        (stored_policy_matcher i.expected_policy) now f db)
  save_if_valid (e ∷ es) i now f db = (rejected (e ∷ es), db)

  abbrev pub save_checked : SaveInput → ℤ → ℕ → Faults → Db → Saved × Db
  save_checked i latest now f db =
      save_if_valid (validate_app_update_policy i.platform i.policy latest i.allow_unobserved_build)
        i now f db

  abbrev pub save_observed : SaveInput → Option ℤ → ℕ → Faults → Db → Saved × Db
  save_observed i none now f db = (database_error, db)
  save_observed i (some latest) now f db = save_checked i latest now f db

  unfoldable pub save_policy : SaveInput → Option ℤ → ℕ → Faults → Db → Saved × Db
  save_policy i observed now f db =
      if not (is_supported_app_platform i.platform)
      then (unsupported_platform, db)
      else if i.allow_unobserved_build
      then save_checked i (pos 0) now f db
      else save_observed i observed now f db
