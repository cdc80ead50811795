-- ===== src/Revocation/Once.antt =====
-- A connection that is revoked once is not revoked again.
pub mod Others
pub mod Rows
use daeil_scholar.Prelude.{
  ℕ, suc, ◌+◌, ◌≤◌, ◌≡◌, ◌≢◌, refl, ap, sym, subst, ◌∙◌, Bool, true, false, not, ◌&&◌, ◌||◌, Option,
  none, some, List, [], ◌∷◌, arith, All, Bool-cases, Option-cases, if-cases, inl, inr, ltb, leb,
  ◌==◌, if◌then◌else◌,
}
use daeil_scholar.Prelude.Int.{ℤ, eqb_ℤ}
use daeil_scholar.Prelude.Text.{Text, text_eq}
use daeil_scholar.Revocation.Data.{
  is_known, is_target_active, is_last_login_method, Status, pending, processing, revoked, delivered,
  spent, finalize_spent, Action, disconnect, account_delete, unsupported, Provider, LinkStatus,
  Entry, OutboxRow, Tables, Lock, lock_failed, lock_expired, locked, lock_claimed_disconnect,
  claimed_lock, Reply, replied_done, replied_expired, replied_failed, claims, set_status,
  update_row, update_rows, update_option, is_disconnect, is_claimable, is_delivered, deliver,
  release, fail, claim, retired, delete_social_connection, delete_of_member,
  complete_account_deletion, mark_revoked, mark_succeeded, mark_failed,
  claim_due_social_revocations,
}
use daeil_scholar.Revocation.{
  process_by_action, revoke, claim_stale_after, Env, checkpoint, revoke_stored, revoke_locked,
  revoke_claimed_social_disconnect, call_provider, mark_claimed, is_revoked, is_disconnecting,
  revoke_encrypted, finalize_locked, finalize, after_finalize, complete, record_failure,
  after_revoke, process_other, process_entry, Op, claim_due, process, apply, run,
}
use daeil_scholar.Revocation.Once.Rows.{
  calls_of, is_settled, IsSound, IsKeeping, keeps_row, deliver-IsKeeping, release-IsKeeping,
  claim-IsKeeping, fail_revoked-IsKeeping,
}
use daeil_scholar.Revocation.Once.Others.{
  Inv, other_row-Inv, call_provider-Inv, record_revoked-Inv, complete-Inv, record_pending_other-Inv,
  already_revoked-Inv, revoke_locked_other-Inv,
}

-- What a worker relies on for a disconnect: its transaction begins and reads the locked rows, and
-- once the provider has agreed, the checkpoint or the record of its failure is written.
pub record IsReliable (env : Env) : Type 0 where
  pub begins : env.begin_fails ≡ false
  pub locks : env.lock_fails ≡ false
  pub remembers : env.checkpoint_fails ≡ true → env.record_fails ≡ false

settled_row-Inv :
    (id : ℕ) (f : OutboxRow → OutboxRow) (r : OutboxRow) (db : Tables)
    → db.outbox id ≡ some r
    → (f r).action ≡ r.action
    → is_settled (f r).status ≡ true
    → is_settled r.status ≡ false
    → Inv id db
    → Inv id (update_row id f (call_provider id db))
settled_row-Inv id f r db is same settled unsettled s =
    let at : id == id ≡ true = ground arith in
    let t : IsSound (calls_of id db.calls) (some r) = subst (IsSound (calls_of id db.calls)) is s in
    let count : calls_of id (id ∷ db.calls) ≡ 1 = rw at (omega (arith, t.2 unsettled)) in
    rw (at, is) (ap is_disconnect same ∙ t.0, omega (arith, t.2 unsettled), λ u. absurd (cc))

fail_settles :
    (n max next : ℕ) (token : Text) (now : ℕ) (r : OutboxRow)
    → claims token r.claim_token ≡ true
    → is_settled r.status ≡ false
    → is_settled (fail n max next revoked token now r).status ≡ true
fail_settles n max next token now r claimed unsettled =
    let open_row : is_delivered r.status ≡ false = ground arith in
    rw (open_row, claimed) (ground arith)

own_call-Inv :
    (env : Env) (e : Entry) (r : OutboxRow) (db : Tables)
    → IsReliable env
    → db.outbox e.outbox_id ≡ some r
    → claims env.claim_token r.claim_token ≡ true
    → is_settled r.status ≡ false
    → Inv e.outbox_id db
    → Inv e.outbox_id (after_revoke env e (checkpoint env e (call_provider e.outbox_id db)))
unfolding mark_failed
own_call-Inv env e r db reliable is claimed unsettled s =
    let id = e.outbox_id in
    if-cases (λ x. Inv id (after_revoke env e x)) env.checkpoint_fails _ _
      (λ lost. rw (reliable.remembers lost) (
        settled_row-Inv id (fail (suc e.attempt_count) 10 _ revoked env.claim_token env.now) r db is
          (ground arith) (fail_settles _ _ _ env.claim_token env.now r claimed unsettled) unsettled
          s))
      (λ _. complete-Inv id env e (update_row id (mark_claimed env) (call_provider id db)) (
        settled_row-Inv id (mark_claimed env) r db is (rw claimed refl) (rw claimed refl) unsettled
          s))

fail-action :
    (n max next : ℕ) (retry : Status) (token : Text) (now : ℕ) (r : OutboxRow)
    → (fail n max next retry token now r).action ≡ r.action
fail-action n max next retry token now r = ground arith

-- A failure without the provider's agreement leaves the row open.
own_failure-Inv :
    (env : Env) (e : Entry) (r : OutboxRow) (db : Tables)
    → db.outbox e.outbox_id ≡ some r
    → is_settled r.status ≡ false
    → Inv e.outbox_id db
    → Inv e.outbox_id (record_failure env e pending db)
unfolding mark_failed
own_failure-Inv env e r db is unsettled s =
    let id = e.outbox_id in
    let n = calls_of id db.calls in
    let t : IsSound n (some r) = subst (IsSound n) is s in
    let none_yet = t.2 unsettled in
    let at : id == id ≡ true = ground arith in
    if-cases (Inv id) env.record_fails _ _ (λ _. s)
      (λ _.
        rw (at, is)
          (
            ap is_disconnect
                  (fail-action (suc e.attempt_count) 10 _ pending env.claim_token env.now r)
                ∙ t.0,
            omega (arith, none_yet),
            λ _. none_yet,
          ))

own_stored-Inv :
    (env : Env) (e : Entry) (o : Option Text) (r : OutboxRow) (db : Tables)
    → IsReliable env
    → db.outbox e.outbox_id ≡ some r
    → claims env.claim_token r.claim_token ≡ true
    → is_settled r.status ≡ false
    → Inv e.outbox_id db
    → Inv e.outbox_id (after_revoke env e (revoke_stored env e o db))
own_stored-Inv env e none r db reliable is claimed unsettled s =
    own_failure-Inv env e r db is unsettled s
own_stored-Inv env e (some encrypted) r db reliable is claimed unsettled s =
    let P : Bool × Reply × Tables → Type 0 = λ x. Inv e.outbox_id (after_revoke env e x) in
    let kept = own_failure-Inv env e r db is unsettled s in
    if-cases P env.credential_fails _ _ (λ _. kept)
      (λ _.
        if-cases P (revoke_encrypted env e.provider encrypted) _ _
          (λ _. own_call-Inv env e r db reliable is claimed unsettled s) (λ _. kept))

-- What a lock that was taken tells of the row.
locked_row :
    (token : Text) (e : Entry) (link l : Option LinkStatus) (o : Option OutboxRow) (status : Status)
    → claimed_lock token e link o ≡ locked l status
    → (r : OutboxRow) × (o ≡ some r)
      × (r.status ≡ status)
      × (claims token r.claim_token ≡ true)
      × (is_claimable status ≡ true)
locked_row token e link l none status h = absurd (cc)
locked_row token e link l (some r) status h = (r, refl, ground arith, ground arith, ground arith)

claimed_lock-ne :
    (token : Text) (e : Entry) (link : Option LinkStatus) (o : Option OutboxRow)
    → claimed_lock token e link o ≢ lock_failed
claimed_lock-ne token e link none h = cc
claimed_lock-ne token e link (some r) h = ground arith

pending_open :
    (status : Status)
    → is_claimable status ≡ true
    → is_revoked status ≡ false
    → is_settled status ≡ false
pending_open status claimable unrevoked = ground arith

own_locked-Inv :
    (env : Env) (e : Entry) (lock : Lock) (db : Tables)
    → IsReliable env
    → lock_claimed_disconnect env.claim_token env.lock_fails e db ≡ lock
    → Inv e.outbox_id db
    → Inv e.outbox_id (after_revoke env e (revoke_locked env e lock db))
unfolding lock_claimed_disconnect
own_locked-Inv env e lock_failed db reliable is s = absurd (
    claimed_lock-ne env.claim_token e (db.links e.usr_seq e.provider) (db.outbox e.outbox_id)
      (rw reliable.locks at is))
own_locked-Inv env e lock_expired db reliable is s = s
own_locked-Inv env e (locked link status) db reliable is s =
    let taken = rw reliable.locks at is in
    let (r, found, same, claimed, claimable) =
      locked_row env.claim_token e (db.links e.usr_seq e.provider) link (db.outbox e.outbox_id)
        status taken in
    let P : Bool × Reply × Tables → Type 0 = λ x. Inv e.outbox_id (after_revoke env e x) in
    if-cases P (is_revoked status) _ _ (λ _. already_revoked-Inv e.outbox_id env e db s)
      (λ unrevoked.
        if-cases P (not (is_disconnecting link)) _ _ (λ _. s)
          (λ _.
            own_stored-Inv env e (db.credentials e.usr_seq e.provider) r db reliable found claimed
              (ap is_settled same ∙ pending_open status claimable unrevoked) s))

process_disconnect-Inv :
    (k : ℕ) (env : Env) (e : Entry) (db : Tables)
    → (e.outbox_id ≡ k → IsReliable env)
    → Inv k db
    → Inv k (after_revoke env e (revoke_claimed_social_disconnect env e db))
unfolding revoke_claimed_social_disconnect
process_disconnect-Inv k env e db reliable s =
    let P : Bool × Reply × Tables → Type 0 = λ x. Inv k (after_revoke env e x) in
    let lock = lock_claimed_disconnect env.claim_token env.lock_fails e db in
    elim (Bool-cases (e.outbox_id == k)) [
      | inl same ↦
          let e_is : e.outbox_id ≡ k = ground arith in
          let ready = reliable e_is in
          rw ready.begins (
            subst (λ j. Inv j (after_revoke env e (revoke_locked env e lock db))) e_is
              (own_locked-Inv env e lock db ready refl (subst (λ j. Inv j db) (sym e_is) s)))
      | inr differ ↦
          let apart : e.outbox_id ≢ k = λ e_is. absurd (ground arith) in
          if-cases P env.begin_fails _ _ (λ _. record_pending_other-Inv k env e db apart s)
            (λ _. revoke_locked_other-Inv k env e lock db apart s)
    ]

process_other-Inv :
    (k : ℕ) (env : Env) (e : Entry) (db : Tables)
    → e.outbox_id ≢ k
    → Inv k db
    → Inv k (process_other env e db)
unfolding mark_revoked
process_other-Inv k env e db apart s =
    let called = call_provider-Inv k e.outbox_id db apart s in
    if-cases (Inv k) (is_revoked e.status) _ _ (λ _. complete-Inv k env e db s)
      (λ _.
        if-cases (Inv k) (revoke env e e.action db) _ _
          (λ _.
            if-cases (Inv k) env.checkpoint_fails _ _
              (λ _. record_revoked-Inv k env e (call_provider e.outbox_id db) called)
              (λ _.
                complete-Inv k env e
                  (mark_revoked e.outbox_id env.now (call_provider e.outbox_id db))
                  (other_row-Inv k e.outbox_id (set_status revoked env.now)
                    (call_provider e.outbox_id db) apart called)))
          (λ _. record_pending_other-Inv k env e db apart s))

-- The row in question is a disconnect's.
abbrev pub Honours : ℕ → Op → Type 0
Honours k (claim_due token now within_limit) = Unit
Honours k (process env e) = e.outbox_id ≡ k → (e.action ≡ disconnect) × IsReliable env

process_by_action-Inv :
    (k : ℕ) (env : Env) (e : Entry) (a : Action) (db : Tables)
    → (e.outbox_id ≡ k → (a ≡ disconnect) × IsReliable env)
    → Inv k db
    → Inv k (process_by_action env e a db)
process_by_action-Inv k env e disconnect db h s =
    process_disconnect-Inv k env e db (λ is. (h is).1) s
process_by_action-Inv k env e account_delete db h s =
    process_other-Inv k env e db (λ is. let other = (h is).0 in cc) s
process_by_action-Inv k env e unsupported db h s =
    process_other-Inv k env e db (λ is. let other = (h is).0 in cc) s

apply-Inv : (k : ℕ) (op : Op) (db : Tables) → Honours k op → Inv k db → Inv k (apply op db)
unfolding process_entry claim_due_social_revocations
apply-Inv k (claim_due token now within_limit) db h s =
    if-cases (IsSound (calls_of k db.calls)) (within_limit k) _ _
      (λ _.
        keeps_row (calls_of k db.calls) _ (db.outbox k)
          (claim-IsKeeping token claim_stale_after now) s)
      (λ _. s)
apply-Inv k (process env e) db h s = process_by_action-Inv k env e e.action db h s

run-Inv :
    (k : ℕ) (ops : List Op) (db : Tables) → All (Honours k) ops → Inv k db → Inv k (run ops db)
unfolding run
run-Inv k [] db h s = s
run-Inv k (op ∷ ops) db (ho, h) s = run-Inv k ops (apply op db) h (apply-Inv k op db ho s)

IsSound-le : (n : ℕ) (o : Option OutboxRow) → IsSound n o → n ≤ 1
IsSound-le n none s = s
IsSound-le n (some r) s = s.1

-- However workers claim rows and process entries, late or twice, with whatever answers and failures,
-- the provider agrees to revoke for a disconnect that it has not agreed to before at most once, if
-- the entries of that row say it is a disconnect, the transactions for it begin and take their locks,
-- and once the provider has agreed, the checkpoint or the record of its failure is written.
pub run-once :
    (k : ℕ) (ops : List Op) (db : Tables) (r : OutboxRow)
    → db.outbox k ≡ some r
    → r.action ≡ disconnect
    → calls_of k db.calls ≡ 0
    → All (Honours k) ops
    → calls_of k (run ops db).calls ≤ 1
run-once k ops db r is action none_yet h =
    let start : IsSound (calls_of k db.calls) (some r) =
      (ap is_disconnect action, omega (arith, none_yet), λ _. none_yet) in
    IsSound-le _ ((run ops db).outbox k)
      (run-Inv k ops db h (subst (IsSound (calls_of k db.calls)) (sym is) start))
