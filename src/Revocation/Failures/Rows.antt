-- ===== src/Revocation/Failures/Rows.antt =====
-- The back-off, and the row that a failed attempt leaves.
use daeil_scholar.Prelude.{
  Bool-cases, inl, inr, subst, sym, ℕ, zero, suc, ◌+◌, ◌*◌, ◌^◌, ◌≤◌, ◌<◌, ◌≡◌, refl, Bool, true,
  false, Option, none, some, List, [], ◌∷◌, arith, if-cases, leb, ◌==◌, if◌then◌else◌, min,
}
use daeil_scholar.Prelude.Int.{ℤ, eqb_ℤ}
use daeil_scholar.Prelude.Text.{Text, text_eq, text_eq_self}
use daeil_scholar.Revocation.Data.{
  is_delivered, Status, pending, spent, disconnect, Provider, provider_eq, disconnecting, Entry,
  OutboxRow, Tables, locked, lock_claimed_disconnect, claims, claim_due_social_revocations,
  mark_failed, Reply,
}
use daeil_scholar.Revocation.{
  Env, backoff_duration, minute, social_revocation_max_backoff, claim_stale_after, revoke_encrypted,
  revoke_stored, revoke_claimed_social_disconnect, after_revoke, record_failure, process_entry,
}

-- Whether the back-off after so many attempts is as it should be.
is_doubling : ℕ → Bool
unfolding backoff_duration
is_doubling n = backoff_duration n == min (2 ^ n * minute) social_revocation_max_backoff

doubles_up_to : ℕ → Bool
unfolding is_doubling
doubles_up_to zero = is_doubling 0
doubles_up_to (suc n) = if is_doubling (suc n) then doubles_up_to n else false

doubles_up_to-is_doubling :
    (limit n : ℕ) → doubles_up_to limit ≡ true → n ≤ limit → is_doubling n ≡ true
unfolding doubles_up_to
doubles_up_to-is_doubling zero n h small =
    let e : n ≡ 0 = omega arith in subst (λ k. is_doubling k ≡ true) (sym e) h
doubles_up_to-is_doubling (suc limit) n h small = elim (Bool-cases (n == suc limit)) [
  | inl last ↦
      let e : n ≡ suc limit = ground arith in
      subst (λ k. is_doubling k ≡ true) (sym e) (ground arith)
  | inr before ↦ doubles_up_to-is_doubling limit n (ground arith) (ground arith)
]

eqb_eq : (a b : ℕ) → (a == b) ≡ true → a ≡ b
eqb_eq a b h = ground arith

-- For fewer than 28 attempts the back-off is two to their number minutes, one hour at most, and no
-- product wraps.
pub backoff_duration_lem :
    (n : ℕ) → n < 28 → backoff_duration n ≡ min (2 ^ n * minute) social_revocation_max_backoff
unfolding doubles_up_to is_doubling
backoff_duration_lem n small =
    let h = doubles_up_to-is_doubling 27 n refl (omega arith) in
    eqb_eq (backoff_duration n) (min (2 ^ n * minute) social_revocation_max_backoff) h

pub backoff_duration-le : (n : ℕ) → backoff_duration n ≤ social_revocation_max_backoff
unfolding backoff_duration
backoff_duration-le n = ground arith

-- The worker's entry for a row.
abbrev pub read_entry : ℕ → OutboxRow → Entry
read_entry k r = record {
  outbox_id = k;
  usr_seq = r.usr_seq;
  provider = r.provider;
  action = r.action;
  status = r.status;
  attempt_count = r.attempt_count;
}

-- A round of a worker on one row: it claims what is due, and processes the row if it has it.
abbrev process_claimed : Env → ℕ → Option OutboxRow → Tables → Tables
process_claimed env k none db = db
process_claimed env k (some r) db =
    if claims env.claim_token r.claim_token then process_entry env (read_entry k r) db else db

unfoldable pub round : ℕ → Env → Tables → Tables
unfolding process_entry claim_due_social_revocations
round k env db =
    let claimed =
      claim_due_social_revocations env.claim_token claim_stale_after env.now (λ id. true) db in
    process_claimed env k (claimed.outbox k) claimed

unfoldable pub rounds : ℕ → List Env → Tables → Tables
unfolding round
rounds k [] db = db
rounds k (env ∷ envs) db = rounds k envs (round k env db)

-- A round in which all works but the provider, whatever the credential.
pub record IsRefused (p : Provider) (env : Env) : Type 0 where
  pub token : text_eq env.claim_token [] ≡ false
  pub begins : env.begin_fails ≡ false
  pub locks : env.lock_fails ≡ false
  pub refuses : (encrypted : Text) → revoke_encrypted env p encrypted ≡ false
  pub records : env.record_fails ≡ false

-- The row of a disconnect that the provider has not revoked.
abbrev pub disconnect_row : ℤ → Provider → Status → ℕ → ℕ → Option Text → ℕ → OutboxRow
disconnect_row user p status attempts next token updated = record {
  usr_seq = user;
  provider = p;
  action = disconnect;
  status = status;
  attempt_count = attempts;
  next_attempt_at = next;
  claim_token = token;
  updated_at = updated;
}

abbrev pub entry_of : ℕ → ℤ → Provider → ℕ → Entry
entry_of k user p attempts = read_entry k (disconnect_row user p pending attempts 0 none 0)

refused_stored :
    (env : Env) (e : Entry) (o : Option Text) (db : Tables)
    → IsRefused e.provider env
    → after_revoke env e (revoke_stored env e o db) ≡ record_failure env e pending db
refused_stored env e none db refused = refl
refused_stored env e (some encrypted) db refused =
    let P : Bool × Reply × Tables → Type 0 =
      λ x. after_revoke env e x ≡ record_failure env e pending db in
    if-cases P env.credential_fails _ _ (λ _. refl) (λ _. rw (refused.refuses encrypted) refl)

-- The columns by which the statement finds the row.
same_key : (user : ℤ) (p : Provider) → (eqb_ℤ user user ≡ true) × (provider_eq p p ≡ true)
same_key user p = (ground arith, ground arith)

lock_disconnect :
    (k : ℕ) (user : ℤ) (p : Provider) (attempts next : ℕ) (env : Env) (db : Tables)
    → IsRefused p env
    → db.outbox k
      ≡ some (disconnect_row user p pending attempts next (some env.claim_token) env.now)
    → db.links user p ≡ some disconnecting
    → lock_claimed_disconnect env.claim_token env.lock_fails (entry_of k user p attempts) db
      ≡ locked (some disconnecting) pending
unfolding lock_claimed_disconnect
lock_disconnect k user p attempts next env db refused found link =
    let (same_user, same_provider) = same_key user p in
    rw
      (
        refused.locks,
        link,
        found,
        same_user,
        same_provider,
        refused.token,
        text_eq_self env.claim_token,
      )
      refl

pub refused_entry :
    (k : ℕ) (user : ℤ) (p : Provider) (attempts next : ℕ) (env : Env) (db : Tables)
    → IsRefused p env
    → db.outbox k
      ≡ some (disconnect_row user p pending attempts next (some env.claim_token) env.now)
    → db.links user p ≡ some disconnecting
    → process_entry env (entry_of k user p attempts) db
      ≡ record_failure env (entry_of k user p attempts) pending db
unfolding process_entry revoke_claimed_social_disconnect
refused_entry k user p attempts next env db refused found link =
    let e = entry_of k user p attempts in
    let P : Bool × Reply × Tables → Type 0 =
      λ x. after_revoke env e x ≡ record_failure env e pending db in
    if-cases P env.begin_fails _ _ (λ fails. let works = refused.begins in absurd (cc))
      (λ _.
        rw (lock_disconnect k user p attempts next env db refused found link)
          (refused_stored env e (db.credentials user p) db refused))

pub failed_row :
    (k : ℕ) (user : ℤ) (p : Provider) (status : Status) (attempts next updated : ℕ) (env : Env)
    (db : Tables)
    → is_delivered status ≡ false
    → env.record_fails ≡ false
    → db.outbox k ≡ some (disconnect_row user p status attempts next (some env.claim_token) updated)
    → (record_failure env (entry_of k user p attempts) pending db).outbox k
      ≡ some (
          disconnect_row user p
            (if leb 10 (suc attempts) then spent else pending)
            (suc attempts)
            (env.now + backoff_duration (suc attempts))
            none
            env.now)
unfolding mark_failed
failed_row k user p status attempts next updated env db open_row records found =
    let at : k == k ≡ true = ground arith in
    let P : Tables → Type 0 = λ x.
      x.outbox k
      ≡ some (
          disconnect_row user p (if leb 10 (suc attempts) then spent else pending) (suc attempts)
            (env.now + backoff_duration (suc attempts)) none env.now) in
    if-cases P env.record_fails _ _ (λ fails. absurd (cc))
      (λ _. rw (at, found, open_row, text_eq_self env.claim_token) refl)
