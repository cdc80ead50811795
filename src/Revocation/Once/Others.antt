-- ===== src/Revocation/Once/Others.antt =====
-- What workers do with other rows, and the ends of an attempt that are the same for all rows.
use daeil_scholar.Prelude.{
  ℕ, ◌≡◌, ◌≢◌, sym, subst, Bool, true, not, ◌&&◌, Option, none, some, ◌∷◌, arith, if-cases, ◌==◌,
  if◌then◌else◌,
}
use daeil_scholar.Prelude.Int.{ℤ}
use daeil_scholar.Prelude.Text.{Text}
use daeil_scholar.Revocation.Data.{
  is_known, is_target_active, is_last_login_method, pending, revoked, Action, disconnect,
  account_delete, unsupported, Provider, Entry, OutboxRow, Tables, Lock, lock_failed, lock_expired,
  locked, lock_claimed_disconnect, Reply, replied_done, replied_expired, replied_failed, update_row,
  update_rows, is_disconnect, delete_social_connection, delete_of_member, mark_succeeded,
  mark_failed,
}
use daeil_scholar.Revocation.{
  Env, checkpoint, revoke_stored, revoke_locked, call_provider, mark_claimed, is_revoked,
  is_disconnecting, revoke_encrypted, finalize_locked, finalize, after_finalize, complete,
  record_failure, after_revoke,
}
use daeil_scholar.Revocation.Once.Rows.{
  calls_of, IsSound, IsKeeping, keeps_row, deliver-IsKeeping, release-IsKeeping,
  fail_revoked-IsKeeping,
}

module _ (k : ℕ) where
  abbrev pub Inv : Tables → Type 0
  Inv db = IsSound (calls_of k db.calls) (db.outbox k)

  update_row-Inv :
      (id : ℕ) (f : OutboxRow → OutboxRow) (db : Tables)
      → IsKeeping f
      → Inv db
      → Inv (update_row id f db)
  update_row-Inv id f db h s =
      if-cases (IsSound (calls_of k db.calls)) (k == id) _ _
        (λ _. keeps_row (calls_of k db.calls) f (db.outbox k) h s) (λ _. s)

  pub other_row-Inv :
      (id : ℕ) (f : OutboxRow → OutboxRow) (db : Tables)
      → id ≢ k
      → Inv db
      → Inv (update_row id f db)
  other_row-Inv id f db differ s =
      if-cases (IsSound (calls_of k db.calls)) (k == id) _ _
        (λ same. absurd (differ (ground arith))) (λ _. s)

  pub call_provider-Inv : (id : ℕ) (db : Tables) → id ≢ k → Inv db → Inv (call_provider id db)
  call_provider-Inv id db differ s =
      let e : calls_of k (id ∷ db.calls) ≡ calls_of k db.calls = ground arith in
      subst (λ n. IsSound n (db.outbox k)) (sym e) s

  update_rows-Inv :
      (f : OutboxRow → OutboxRow) (db : Tables) → IsKeeping f → Inv db → Inv (update_rows f db)
  update_rows-Inv f db h s = keeps_row (calls_of k db.calls) f (db.outbox k) h s

  delete_of_member-Inv :
      (user : ℤ) (p : Provider) (now : ℕ) (o : Option Bool) (db : Tables)
      → Inv db
      → Inv (delete_of_member user p true true now o db).1
  delete_of_member-Inv user p now none db s = s
  delete_of_member-Inv user p now (some b) db s =
      let P : Reply × Tables → Type 0 = λ x. Inv x.1 in
      if-cases P (is_target_active user p db) _ _ (λ _. s)
        (λ _.
          if-cases P (is_last_login_method user p b db) _ _ (λ _. s)
            (λ _.
              if-cases P (db.canonical_identity_ready && not (is_known p)) _ _ (λ _. s)
                (λ _. keeps_row _ _ (db.outbox k) (deliver-IsKeeping user p is_disconnect now) s)))

  finalize_locked-Inv :
      (env : Env) (e : Entry) (l : Lock) (db : Tables) → Inv db → Inv (finalize_locked env e l db).1
  unfolding delete_social_connection
  finalize_locked-Inv env e lock_failed db s = s
  finalize_locked-Inv env e lock_expired db s = s
  finalize_locked-Inv env e (locked link status) db s =
      let P : Reply × Tables → Type 0 = λ x. Inv x.1 in
      if-cases P (not (is_revoked status)) _ _ (λ _. s)
        (λ _.
          if-cases P env.finalize_fails _ _ (λ _. s)
            (λ _.
              delete_of_member-Inv e.usr_seq e.provider env.now (db.has_password e.usr_seq) db s))

  finalize-Inv :
      (env : Env) (e : Entry) (a : Action) (db : Tables) → Inv db → Inv (finalize env e a db).1
  finalize-Inv env e disconnect db s =
      if-cases (λ (x : Reply × Tables). Inv x.1) env.finalize_begin_fails _ _ (λ _. s)
        (λ _.
          finalize_locked-Inv env e
            (lock_claimed_disconnect env.claim_token env.finalize_lock_fails e db) db s)
  finalize-Inv env e account_delete db s =
      if-cases (λ (x : Reply × Tables). Inv x.1) env.finalize_fails _ _ (λ _. s)
        (λ _. keeps_row _ _ (db.outbox k) (deliver-IsKeeping e.usr_seq e.provider _ env.now) s)
  finalize-Inv env e unsupported db s = s

  pub record_revoked-Inv :
      (env : Env) (e : Entry) (db : Tables) → Inv db → Inv (record_failure env e revoked db)
  unfolding mark_failed
  record_revoked-Inv env e db s =
      if-cases Inv env.record_fails _ _ (λ _. s)
        (λ _.
          update_row-Inv e.outbox_id _ db (fail_revoked-IsKeeping _ _ _ env.claim_token env.now) s)

  after_finalize-Inv :
      (env : Env) (e : Entry) (x : Reply × Tables) → Inv x.1 → Inv (after_finalize env e x)
  unfolding mark_succeeded
  after_finalize-Inv env e (replied_done, db) s =
      if-cases Inv env.release_fails _ _ (λ _. s)
        (λ _. update_row-Inv e.outbox_id _ db (release-IsKeeping env.claim_token env.now) s)
  after_finalize-Inv env e (replied_expired, db) s = s
  after_finalize-Inv env e (replied_failed, db) s = record_revoked-Inv env e db s

  pub complete-Inv : (env : Env) (e : Entry) (db : Tables) → Inv db → Inv (complete env e db)
  complete-Inv env e db s =
      after_finalize-Inv env e (finalize env e e.action db) (finalize-Inv env e e.action db s)

  -- What precedes the transaction's last update does not change the rows.
  call_other-Inv :
      (env : Env) (e : Entry) (db : Tables)
      → e.outbox_id ≢ k
      → Inv db
      → Inv (after_revoke env e (checkpoint env e (call_provider e.outbox_id db)))
  call_other-Inv env e db differ s =
      let called = call_provider-Inv e.outbox_id db differ s in
      if-cases (λ x. Inv (after_revoke env e x)) env.checkpoint_fails _ _
        (λ _. record_revoked-Inv env e (call_provider e.outbox_id db) called)
        (λ _. complete-Inv env e _ (
          other_row-Inv e.outbox_id (mark_claimed env) (call_provider e.outbox_id db) differ
            called))

  pub record_pending_other-Inv :
      (env : Env) (e : Entry) (db : Tables)
      → e.outbox_id ≢ k
      → Inv db
      → Inv (record_failure env e pending db)
  unfolding mark_failed
  record_pending_other-Inv env e db differ s =
      if-cases Inv env.record_fails _ _ (λ _. s) (λ _. other_row-Inv e.outbox_id _ db differ s)

  revoke_stored_other-Inv :
      (env : Env) (e : Entry) (o : Option Text) (db : Tables)
      → e.outbox_id ≢ k
      → Inv db
      → Inv (after_revoke env e (revoke_stored env e o db))
  revoke_stored_other-Inv env e none db differ s = record_pending_other-Inv env e db differ s
  revoke_stored_other-Inv env e (some encrypted) db differ s =
      let P : Bool × Reply × Tables → Type 0 = λ x. Inv (after_revoke env e x) in
      let kept = record_pending_other-Inv env e db differ s in
      if-cases P env.credential_fails _ _ (λ _. kept)
        (λ _.
          if-cases P (revoke_encrypted env e.provider encrypted) _ _
            (λ _. call_other-Inv env e db differ s) (λ _. kept))

  pub already_revoked-Inv :
      (env : Env) (e : Entry) (db : Tables)
      → Inv db
      → Inv (
          after_revoke env e
            (true, if env.checkpoint_fails then replied_failed else replied_done, db))
  already_revoked-Inv env e db s =
      if-cases (λ r. Inv (after_revoke env e (true, r, db))) env.checkpoint_fails _ _
        (λ _. record_revoked-Inv env e db s) (λ _. complete-Inv env e db s)

  pub revoke_locked_other-Inv :
      (env : Env) (e : Entry) (l : Lock) (db : Tables)
      → e.outbox_id ≢ k
      → Inv db
      → Inv (after_revoke env e (revoke_locked env e l db))
  revoke_locked_other-Inv env e lock_failed db differ s = record_pending_other-Inv env e db differ s
  revoke_locked_other-Inv env e lock_expired db differ s = s
  revoke_locked_other-Inv env e (locked link status) db differ s =
      let P : Bool × Reply × Tables → Type 0 = λ x. Inv (after_revoke env e x) in
      if-cases P (is_revoked status) _ _ (λ _. already_revoked-Inv env e db s)
        (λ _.
          if-cases P (not (is_disconnecting link)) _ _ (λ _. s)
            (λ _. revoke_stored_other-Inv env e (db.credentials e.usr_seq e.provider) db differ s))
