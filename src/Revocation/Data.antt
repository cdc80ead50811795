-- ===== src/Revocation/Data.antt =====
-- The tables of the revocations, and the statements on them:
-- backend/internal/repository/social_revocation_repo.go and auth_repo.go.
use daeil_scholar.Prelude.{
  ℕ, ◌+◌, Bool, true, false, not, ◌&&◌, ◌||◌, Option, none, some, List, [], ◌∷◌, leb, ◌==◌,
  if◌then◌else◌,
}
use daeil_scholar.Prelude.Int.{ℤ, eqb_ℤ}
use daeil_scholar.Prelude.Text.{Text, text_eq}

-- `spent` is FAILED, `finalize_spent` FINALIZE_FAILED.
pub data Status : Type 0 where
  pending processing revoked delivered spent finalize_spent : Status

pub data Action : Type 0 where
  disconnect account_delete unsupported : Action

pub data Provider : Type 0 where
  kakao apple unknown : Provider

-- NMS_STATUS: "Y", "ACTIVE", and so on.
pub data LinkStatus : Type 0 where
  yes_status active disconnecting finalize_pending other_status : LinkStatus

-- A row of ALUMNI_SOCIAL_REVOCATION_OUTBOX, without LAST_ERROR.
pub record OutboxRow : Type 0 where
  pub usr_seq : ℤ
  pub provider : Provider
  pub action : Action
  pub status : Status
  pub attempt_count : ℕ
  pub next_attempt_at : ℕ
  pub claim_token : Option Text
  pub updated_at : ℕ

pub record Entry : Type 0 where
  pub outbox_id : ℕ
  pub usr_seq : ℤ
  pub provider : Provider
  pub action : Action
  pub status : Status
  pub attempt_count : ℕ

-- The tables by their keys: the outbox by OUTBOX_ID, links and credentials by member and provider,
-- identities that are active, members by whether they have a password. `calls` has the rows whose
-- provider was told to revoke and agreed, the newest first.
pub record Tables : Type 0 where
  pub outbox : ℕ → Option OutboxRow
  pub links : ℤ → Provider → Option LinkStatus
  pub credentials : ℤ → Provider → Option Text
  pub canonical_identity_ready : Bool
  pub identities : ℤ → Provider → Bool
  pub has_password : ℤ → Option Bool
  pub calls : List ℕ

pub data Reply : Type 0 where
  replied_done replied_expired replied_failed : Reply

abbrev pub provider_eq : Provider → Provider → Bool
provider_eq kakao kakao = true
provider_eq apple apple = true
provider_eq unknown unknown = true
provider_eq _ _ = false

abbrev pub is_disconnect : Action → Bool
is_disconnect disconnect = true
is_disconnect _ = false

abbrev pub is_account_delete : Action → Bool
is_account_delete account_delete = true
is_account_delete _ = false

-- `CLAIM_TOKEN = ?`
abbrev pub claims : Text → Option Text → Bool
claims token none = false
claims token (some t) = text_eq t token

abbrev pub set_status : Status → ℕ → OutboxRow → OutboxRow
set_status status now r = record r { status = status; updated_at = now }

abbrev pub update_option : (OutboxRow → OutboxRow) → Option OutboxRow → Option OutboxRow
update_option f none = none
update_option f (some r) = some (f r)

-- `UPDATE … WHERE OUTBOX_ID = ?`
abbrev pub update_row : ℕ → (OutboxRow → OutboxRow) → Tables → Tables
update_row id f db = record db {
  outbox = λ k. if k == id then update_option f (db.outbox k) else db.outbox k;
}

abbrev pub update_rows : (OutboxRow → OutboxRow) → Tables → Tables
update_rows f db = record db { outbox = λ k. update_option f (db.outbox k) }

pub data Lock : Type 0 where
  lock_failed lock_expired : Lock
  locked : Option LinkStatus → Status → Lock

abbrev pub is_claimable : Status → Bool
is_claimable pending = true
is_claimable revoked = true
is_claimable _ = false

abbrev pub is_ending : Option LinkStatus → Bool
is_ending none = true
is_ending (some disconnecting) = true
is_ending (some finalize_pending) = true
is_ending (some _) = false

abbrev pub claimed_lock : Text → Entry → Option LinkStatus → Option OutboxRow → Lock
claimed_lock token e link none = lock_expired
claimed_lock token e link (some r) =
    if not
      (eqb_ℤ r.usr_seq e.usr_seq && provider_eq r.provider e.provider && is_disconnect r.action)
    then lock_expired
    else if text_eq token []
        || not (claims token r.claim_token)
        || not (is_claimable r.status)
        || not (is_ending link)
    then lock_expired
    else locked link r.status

unfoldable pub lock_claimed_disconnect : Text → Bool → Entry → Tables → Lock
lock_claimed_disconnect token fails e db =
    if fails
    then lock_failed
    else claimed_lock token e (db.links e.usr_seq e.provider) (db.outbox e.outbox_id)

abbrev is_unclaimed : Option Text → Bool
is_unclaimed none = true
is_unclaimed (some t) = false

abbrev pub is_claim_due : ℕ → ℕ → OutboxRow → Bool
is_claim_due stale_after now r =
    is_claimable r.status
    && leb r.next_attempt_at now
    && (is_unclaimed r.claim_token || leb (r.updated_at + stale_after) now)

abbrev pub claim : Text → ℕ → ℕ → OutboxRow → OutboxRow
claim token stale_after now r =
    if is_claim_due stale_after now r
    then record r { claim_token = some token; updated_at = now }
    else r

-- The update of `ClaimDueSocialRevocations`, on the rows that its ORDER BY and LIMIT leave of those
-- that are due.
unfoldable pub claim_due_social_revocations : Text → ℕ → ℕ → (ℕ → Bool) → Tables → Tables
claim_due_social_revocations token stale_after now within_limit db = record db {
  outbox = λ k.
      if within_limit k
      then update_option (claim token stale_after now) (db.outbox k)
      else db.outbox k;
}

unfoldable pub mark_revoked : ℕ → ℕ → Tables → Tables
mark_revoked id now = update_row id (set_status revoked now)

abbrev pub release : Text → ℕ → OutboxRow → OutboxRow
release token now r =
    if claims token r.claim_token then record r { claim_token = none; updated_at = now } else r

unfoldable pub mark_succeeded : ℕ → Text → ℕ → Tables → Tables
mark_succeeded id token now = update_row id (release token now)

abbrev pub retired : Status → Status
retired revoked = finalize_spent
retired _ = spent

abbrev pub is_delivered : Status → Bool
is_delivered delivered = true
is_delivered _ = false

abbrev pub fail : ℕ → ℕ → ℕ → Status → Text → ℕ → OutboxRow → OutboxRow
fail new_attempt_count max_attempts next_attempt retry_status token now r =
    if not (is_delivered r.status) && claims token r.claim_token
    then record r {
      status = if leb max_attempts new_attempt_count then retired retry_status else retry_status;
      claim_token = none;
      attempt_count = new_attempt_count;
      next_attempt_at = next_attempt;
      updated_at = now;
    }
    else r

unfoldable pub mark_failed : ℕ → ℕ → ℕ → ℕ → Status → Text → ℕ → Tables → Tables
mark_failed id new_attempt_count max_attempts next_attempt retry_status token now =
    update_row id (fail new_attempt_count max_attempts next_attempt retry_status token now)

abbrev pub is_unfinished : Status → Bool
is_unfinished pending = true
is_unfinished processing = true
is_unfinished revoked = true
is_unfinished _ = false

abbrev pub deliver : ℤ → Provider → (Action → Bool) → ℕ → OutboxRow → OutboxRow
deliver user p is_action now r =
    if eqb_ℤ r.usr_seq user
      && provider_eq r.provider p
      && is_action r.action
      && is_unfinished r.status
    then set_status delivered now r
    else r

abbrev pub is_at : ℤ → Provider → ℤ → Provider → Bool
is_at user p u q = eqb_ℤ u user && provider_eq q p

abbrev pub delete_credential : ℤ → Provider → Tables → Tables
delete_credential user p db = record db {
  credentials = λ u q. if is_at user p u q then none else db.credentials u q;
}

abbrev pub complete_account_deletion : ℤ → Provider → ℕ → Tables → Tables
complete_account_deletion user p now db =
    update_rows (deliver user p is_account_delete now) (delete_credential user p db)

abbrev is_active_link : Option LinkStatus → Bool
is_active_link (some yes_status) = true
is_active_link (some active) = true
is_active_link _ = false

abbrev count_active : (Provider → Option LinkStatus) → List Provider → ℕ
count_active links [] = 0
count_active links (p ∷ ps) = (if is_active_link (links p) then 1 else 0) + count_active links ps

abbrev pub revoke_identity : ℤ → Provider → Tables → Tables
revoke_identity user p db = record db {
  identities =
      λ u q. if db.canonical_identity_ready && is_at user p u q then false else db.identities u q;
}

abbrev pub delete_link : ℤ → Provider → Tables → Tables
delete_link user p db = record db { links = λ u q. if is_at user p u q then none else db.links u q }

abbrev pub is_known : Provider → Bool
is_known unknown = false
is_known _ = true

abbrev pub is_target_active : ℤ → Provider → Tables → Bool
is_target_active user p db = is_active_link (db.links user p)

abbrev pub is_last_login_method : ℤ → Provider → Bool → Tables → Bool
is_last_login_method user p has_password db =
    is_target_active user p db
    && not has_password
    && count_active (db.links user) (kakao ∷ apple ∷ unknown ∷ []) == 1

abbrev pub delete_everywhere : ℤ → Provider → ℕ → Tables → Tables
delete_everywhere user p now db =
    update_rows (deliver user p is_disconnect now)
      (delete_credential user p (revoke_identity user p (delete_link user p db)))

abbrev pub delete_checked : ℤ → Provider → Bool → Bool → ℕ → Bool → Tables → Reply × Tables
delete_checked user p enforce_last_login_method pending_only now has_password db =
    if pending_only && is_target_active user p db
    then (replied_failed, db)
    else if enforce_last_login_method && is_last_login_method user p has_password db
    then (replied_failed, db)
    else if db.canonical_identity_ready && not (is_known p)
    then (replied_failed, db)
    else (replied_done, delete_everywhere user p now db)

abbrev pub delete_of_member : ℤ → Provider → Bool → Bool → ℕ → Option Bool → Tables → Reply × Tables
delete_of_member user p enforce pending_only now none db = (replied_failed, db)
delete_of_member user p enforce pending_only now (some has_password) db =
    delete_checked user p enforce pending_only now has_password db

-- `deleteSocialConnectionTx`: a reply other than done rolls the transaction back.
unfoldable pub delete_social_connection : ℤ → Provider → Bool → Bool → ℕ → Tables → Reply × Tables
delete_social_connection user p enforce pending_only now db =
    delete_of_member user p enforce pending_only now (db.has_password user) db
