-- ===== src/Revocation.antt =====
-- The worker that revokes members' connections at the social providers:
-- backend/internal/job/social_revocation_worker.go, on the statements of
-- backend/internal/repository/social_revocation_repo.go, deleteSocialConnectionTx of auth_repo.go and
-- CompleteAccountDeletionRevocation of account_deletion_repo.go.
pub mod Data
pub mod Once
pub mod Failures
mod Examples
use daeil_scholar.Prelude.{
  ℕ, suc, ◌+◌, ◌*◌, ◌%◌, ◌^◌, Bool, true, false, not, ◌&&◌, ◌||◌, Option, none, some, List, [], ◌∷◌,
  ltb, leb, ◌==◌, if◌then◌else◌,
}
use daeil_scholar.Prelude.Text.{Text, text_eq}
use daeil_scholar.Revocation.Data.{
  Status, pending, processing, revoked, delivered, spent, finalize_spent, Action, disconnect,
  account_delete, unsupported, Provider, kakao, apple, unknown, LinkStatus, disconnecting, Entry,
  OutboxRow, Tables, Lock, lock_failed, lock_expired, locked, lock_claimed_disconnect, Reply,
  replied_done, replied_expired, replied_failed, claims, set_status, update_row,
  delete_social_connection, complete_account_deletion, mark_revoked, mark_succeeded, mark_failed,
  claim_due_social_revocations,
}

abbrev pub social_revocation_max_attempt : ℕ
social_revocation_max_attempt = 10

-- Nanoseconds.
abbrev pub minute : ℕ
minute = 60 * 10 ^ 9

abbrev pub social_revocation_max_backoff : ℕ
social_revocation_max_backoff = 60 * minute

-- 2^n minutes, as an int64, where n < 63: a product of 2^63 and more reads as negative.
unfoldable pub backoff_duration : ℕ → ℕ
backoff_duration attempt_count =
    let d = 2 ^ attempt_count * minute % 2 ^ 64 in
    if ltb social_revocation_max_backoff d || d == 0 || leb (2 ^ 63) d
    then social_revocation_max_backoff
    else d

-- What surrounds one entry: the worker's token, the clock, the vault, the providers' answers, and
-- the calls of the database that fail.
pub record Env : Type 0 where
  pub claim_token : Text
  pub now : ℕ
  pub vault_err : Bool
  pub decrypt : Text → Option Text
  pub unlinks_accounts : Bool
  pub apple_configured : Bool
  pub provider_agrees : Provider → Bool
  pub begin_fails : Bool
  pub lock_fails : Bool
  pub credential_fails : Bool
  pub checkpoint_fails : Bool
  pub finalize_begin_fails : Bool
  pub finalize_lock_fails : Bool
  pub finalize_fails : Bool
  pub release_fails : Bool
  pub record_fails : Bool

-- `revokeCredential`
abbrev pub revoke_credential : Env → Provider → Bool
revoke_credential env kakao = env.provider_agrees kakao
revoke_credential env apple = env.apple_configured && env.provider_agrees apple
revoke_credential env unknown = false

abbrev decrypted : Env → Provider → Option Text → Bool
decrypted env p none = false
decrypted env p (some credential) = revoke_credential env p

-- The function that the transaction of a disconnect calls with the stored credential.
abbrev pub revoke_encrypted : Env → Provider → Text → Bool
revoke_encrypted env p encrypted =
    if env.vault_err
    then false
    else if text_eq encrypted []
    then false
    else decrypted env p (env.decrypt encrypted)

-- The provider has revoked, and says so.
abbrev pub call_provider : ℕ → Tables → Tables
call_provider id db = record db { calls = id ∷ db.calls }

abbrev pub mark_claimed : Env → OutboxRow → OutboxRow
mark_claimed env r =
    if claims env.claim_token r.claim_token then set_status revoked env.now r else r

-- An answer of `RevokeClaimedSocialDisconnect`: whether the provider has revoked, and the error.
abbrev pub checkpoint : Env → Entry → Tables → Bool × Reply × Tables
checkpoint env e db =
    if env.checkpoint_fails
    then (true, replied_failed, db)
    else (true, replied_done, update_row e.outbox_id (mark_claimed env) db)

abbrev pub revoke_stored : Env → Entry → Option Text → Tables → Bool × Reply × Tables
revoke_stored env e none db = (false, replied_failed, db)
revoke_stored env e (some encrypted) db =
    if env.credential_fails
    then (false, replied_failed, db)
    else if revoke_encrypted env e.provider encrypted
    then checkpoint env e (call_provider e.outbox_id db)
    else (false, replied_failed, db)

abbrev pub is_disconnecting : Option LinkStatus → Bool
is_disconnecting (some disconnecting) = true
is_disconnecting _ = false

abbrev pub is_revoked : Status → Bool
is_revoked revoked = true
is_revoked _ = false

abbrev pub revoke_locked : Env → Entry → Lock → Tables → Bool × Reply × Tables
revoke_locked env e lock_failed db = (false, replied_failed, db)
revoke_locked env e lock_expired db = (false, replied_expired, db)
revoke_locked env e (locked link status) db =
    if is_revoked status
    then (true, if env.checkpoint_fails then replied_failed else replied_done, db)
    else if not (is_disconnecting link)
    then (false, replied_expired, db)
    else revoke_stored env e (db.credentials e.usr_seq e.provider) db

unfoldable pub revoke_claimed_social_disconnect : Env → Entry → Tables → Bool × Reply × Tables
unfolding lock_claimed_disconnect
revoke_claimed_social_disconnect env e db =
    if env.begin_fails
    then (false, replied_failed, db)
    else revoke_locked env e (lock_claimed_disconnect env.claim_token env.lock_fails e db) db

abbrev pub finalize_locked : Env → Entry → Lock → Tables → Reply × Tables
finalize_locked env e lock_failed db = (replied_failed, db)
finalize_locked env e lock_expired db = (replied_expired, db)
finalize_locked env e (locked link status) db =
    if not (is_revoked status)
    then (replied_expired, db)
    else if env.finalize_fails
    then (replied_failed, db)
    else delete_social_connection e.usr_seq e.provider true true env.now db

abbrev pub finalize_claimed_social_disconnect : Env → Entry → Tables → Reply × Tables
finalize_claimed_social_disconnect env e db =
    if env.finalize_begin_fails
    then (replied_failed, db)
    else finalize_locked env e
        (lock_claimed_disconnect env.claim_token env.finalize_lock_fails e db) db

abbrev pub finalize : Env → Entry → Action → Tables → Reply × Tables
finalize env e disconnect db = finalize_claimed_social_disconnect env e db
finalize env e account_delete db =
    if env.finalize_fails
    then (replied_failed, db)
    else (replied_done, complete_account_deletion e.usr_seq e.provider env.now db)
finalize env e unsupported db = (replied_failed, db)

abbrev pub record_failure : Env → Entry → Status → Tables → Tables
record_failure env e retry_status db =
    if env.record_fails
    then db
    else mark_failed e.outbox_id (suc e.attempt_count) social_revocation_max_attempt
        (env.now + backoff_duration (suc e.attempt_count)) retry_status env.claim_token env.now db

abbrev pub after_finalize : Env → Entry → Reply × Tables → Tables
after_finalize env e (replied_expired, db) = db
after_finalize env e (replied_failed, db) = record_failure env e revoked db
after_finalize env e (replied_done, db) =
    if env.release_fails then db else mark_succeeded e.outbox_id env.claim_token env.now db

abbrev pub complete : Env → Entry → Tables → Tables
complete env e db = after_finalize env e (finalize env e e.action db)

abbrev pub after_revoke : Env → Entry → Bool × Reply × Tables → Tables
after_revoke env e (was_revoked, replied_expired, db) = db
after_revoke env e (was_revoked, replied_failed, db) =
    record_failure env e (if was_revoked then revoked else pending) db
after_revoke env e (was_revoked, replied_done, db) = complete env e db

abbrev pub load_credential : Env → Entry → Tables → Option Text
load_credential env e db =
    if env.vault_err || env.credential_fails then none else db.credentials e.usr_seq e.provider

abbrev pub revoke_loaded : Env → Provider → Option Text → Bool
revoke_loaded env p none = false
revoke_loaded env p (some encrypted) =
    if text_eq encrypted [] then false else decrypted env p (env.decrypt encrypted)

abbrev pub revoke_account : Env → Entry → Provider → Tables → Bool
revoke_account env e kakao db =
    if env.unlinks_accounts
    then env.provider_agrees kakao
    else revoke_loaded env kakao (load_credential env e db)
revoke_account env e apple db = revoke_loaded env apple (load_credential env e db)
revoke_account env e unknown db = false

-- `revoke`; an action that is not known is a disconnect's or an account's by its credential.
abbrev pub revoke : Env → Entry → Action → Tables → Bool
revoke env e account_delete db = revoke_account env e e.provider db
revoke env e disconnect db = revoke_loaded env e.provider (load_credential env e db)
revoke env e unsupported db = revoke_loaded env e.provider (load_credential env e db)

abbrev pub after_call : Env → Entry → Tables → Tables
after_call env e db =
    if env.checkpoint_fails
    then record_failure env e revoked db
    else complete env e (mark_revoked e.outbox_id env.now db)

abbrev pub process_other : Env → Entry → Tables → Tables
process_other env e db =
    if is_revoked e.status
    then complete env e db
    else if revoke env e e.action db
    then after_call env e (call_provider e.outbox_id db)
    else record_failure env e pending db

abbrev pub process_by_action : Env → Entry → Action → Tables → Tables
process_by_action env e disconnect db =
    after_revoke env e (revoke_claimed_social_disconnect env e db)
process_by_action env e account_delete db = process_other env e db
process_by_action env e unsupported db = process_other env e db

-- An entry as it was read with its claim.
unfoldable pub process_entry : Env → Entry → Tables → Tables
unfolding revoke_claimed_social_disconnect backoff_duration mark_failed mark_succeeded mark_revoked
process_entry env e db = process_by_action env e e.action db

-- What workers do, one call after the other: they claim what is due, and process entries that they
-- read with a claim, then or before.
pub data Op : Type 0 where
  claim_due : Text → ℕ → (ℕ → Bool) → Op
  process : Env → Entry → Op

-- `socialRevocationClaimStaleAfter`
abbrev pub claim_stale_after : ℕ
claim_stale_after = 5 * minute

abbrev pub apply : Op → Tables → Tables
apply (claim_due token now within_limit) =
    claim_due_social_revocations token claim_stale_after now within_limit
apply (process env e) = process_entry env e

unfoldable pub run : List Op → Tables → Tables
unfolding process_entry claim_due_social_revocations
run [] db = db
run (op ∷ ops) db = run ops (apply op db)
