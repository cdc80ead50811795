-- ===== src/Revocation/Failures.antt =====
-- Attempts that fail: when they are made again, when they are given up, and what a failure forgets.
pub mod Rows
use daeil_scholar.Prelude.{
  ℕ, zero, suc, ◌+◌, ◌-◌, ◌*◌, ◌^◌, ◌≤◌, ◌<◌, ◌≡◌, refl, ap, sym, subst, ◌∙◌, Bool, true, false,
  not, ◌&&◌, ◌||◌, Option, none, some, List, [], ◌∷◌, arith, All, Bool-cases, Option-cases,
  if-cases, inl, inr, ltb, leb, ◌==◌, if◌then◌else◌, min, length,
}
use daeil_scholar.Prelude.Int.{ℤ, eqb_ℤ}
use daeil_scholar.Prelude.Text.{Text, text_eq, text_eq_self}
use daeil_scholar.Revocation.Data.{
  is_delivered, Status, pending, revoked, delivered, spent, Action, disconnect, Provider,
  provider_eq, LinkStatus, disconnecting, Entry, OutboxRow, Tables, Lock, locked,
  lock_claimed_disconnect, claims, update_row, claim_due_social_revocations, claim, mark_failed,
  fail, Reply,
}
use daeil_scholar.Revocation.{
  revoke_locked, Env, backoff_duration, minute, social_revocation_max_backoff, claim_stale_after,
  revoke_encrypted, revoke_stored, revoke_claimed_social_disconnect, after_revoke, record_failure,
  process_entry,
}
use daeil_scholar.Revocation.Failures.Rows.{
  backoff_duration-le, read_entry, round, rounds, disconnect_row, entry_of, refused_entry,
  failed_row, IsRefused,
}

-- The row waits for its next attempt, no later than `due`.
pub record Waits (k : ℕ) (user : ℤ) (p : Provider) (attempts due : ℕ) (db : Tables) : Type 0 where
  pub next : ℕ
  pub updated : ℕ
  pub found : db.outbox k ≡ some (disconnect_row user p pending attempts next none updated)
  pub is_claim_due : next ≤ due
  pub link : db.links user p ≡ some disconnecting

claimed_row :
    (k : ℕ) (user : ℤ) (p : Provider) (attempts due : ℕ) (env : Env) (db : Tables)
    (w : Waits k user p attempts due db)
    → due ≤ env.now
    → (claim_due_social_revocations env.claim_token claim_stale_after env.now
          (λ id. true)
          db).outbox
        k
      ≡ some (disconnect_row user p pending attempts w.next (some env.claim_token) env.now)
unfolding claim_due_social_revocations
claimed_row k user p attempts due env db w late =
    let ready : leb w.next env.now ≡ true = ground (arith, w.is_claim_due) in
    rw (w.found, ready) refl

-- A round in which the provider refuses counts as an attempt.
refused_round :
    (k : ℕ) (user : ℤ) (p : Provider) (attempts due : ℕ) (env : Env) (db : Tables)
    → IsRefused p env
    → due ≤ env.now
    → Waits k user p attempts due db
    → ((round k env db).outbox k
        ≡ some (
            disconnect_row user p
              (if leb 10 (suc attempts) then spent else pending)
              (suc attempts)
              (env.now + backoff_duration (suc attempts))
              none
              env.now))
      × ((round k env db).links ≡ db.links)
unfolding round claim_due_social_revocations mark_failed
refused_round k user p attempts due env db refused late w =
    let claimed =
      claim_due_social_revocations env.claim_token claim_stale_after env.now (λ id. true) db in
    let row = claimed_row k user p attempts due env db w late in
    let step : round k env db ≡ record_failure env (entry_of k user p attempts) pending claimed =
      rw (row, text_eq_self env.claim_token)
        (refused_entry k user p attempts w.next env claimed refused row w.link) in
    (
      ap (λ x. x.outbox k) step
          ∙ failed_row k user p pending attempts w.next env.now env claimed refl refused.records
              row,
      ap (λ x. x.links) step
          ∙ if-cases (λ (x : Tables). x.links ≡ db.links) env.record_fails _ _ (λ _. refl)
              (λ _. refl),
    )

-- The clocks of rounds of which each is an hour after the one before.
abbrev pub IsSpaced : ℕ → List Env → Type 0
IsSpaced due [] = Unit
IsSpaced due (env ∷ envs) =
    (due ≤ env.now) × IsSpaced (env.now + social_revocation_max_backoff) envs

abbrev pub IsSpent : ℕ → ℤ → Provider → Tables → Type 0
IsSpent k user p db =
    (next : ℕ) × (updated : ℕ) × (db.outbox k
      ≡ some (disconnect_row user p spent 10 next none updated))

round-IsSpent :
    (k : ℕ) (user : ℤ) (p : Provider) (env : Env) (db : Tables)
    → IsSpent k user p db
    → IsSpent k user p (round k env db)
unfolding round claim_due_social_revocations
round-IsSpent k user p env db (next, updated, found) =
    let claimed =
      claim_due_social_revocations env.claim_token claim_stale_after env.now (λ id. true) db in
    let same : claimed.outbox k ≡ some (disconnect_row user p spent 10 next none updated) =
      rw found refl in
    (next, updated, rw same same)

rounds-IsSpent_again :
    (k : ℕ) (user : ℤ) (p : Provider) (envs : List Env) (db : Tables)
    → IsSpent k user p db
    → IsSpent k user p (rounds k envs db)
unfolding rounds
rounds-IsSpent_again k user p [] db s = s
rounds-IsSpent_again k user p (env ∷ envs) db s =
    rounds-IsSpent_again k user p envs (round k env db) (round-IsSpent k user p env db s)

-- A disconnect that the provider refuses to revoke whenever it is asked is given up after ten
-- attempts in all, in rounds of a worker that each come an hour or more after the one before, and
-- is not claimed again, when all else works.
pub rounds-IsSpent :
    (k : ℕ) (user : ℤ) (p : Provider) (envs : List Env) (attempts due : ℕ) (db : Tables)
    → attempts < 10
    → 10 ≤ attempts + length envs
    → All (IsRefused p) envs
    → IsSpaced due envs
    → Waits k user p attempts due db
    → IsSpent k user p (rounds k envs db)
unfolding rounds
rounds-IsSpent k user p [] attempts due db left enough refused spaced w = absurd (omega arith)
rounds-IsSpent k user p (env ∷ envs) attempts due db left enough (refuses, refused) (late, spaced)
      w =
    let (row, links) = refused_round k user p attempts due env db refuses late w in
    elim (Bool-cases (leb 10 (suc attempts))) [
      | inl last ↦
          let ten : suc attempts ≡ 10 = ground arith in
          let gone = rw last at row in
          rounds-IsSpent_again k user p envs (round k env db) (
            env.now + backoff_duration (suc attempts),
            env.now,
            gone
                ∙ ap
                    (λ n. some (
                      disconnect_row user p spent n (env.now + backoff_duration (suc attempts)) none
                        env.now))
                    ten,
          )
      | inr more ↦
          rounds-IsSpent k user p envs (suc attempts) (env.now + social_revocation_max_backoff)
            (round k env db) (ground arith) (omega arith) refused spaced
            (record {
              next = env.now + backoff_duration (suc attempts);
              updated = env.now;
              found = rw more at row;
              is_claim_due = omega (arith, backoff_duration-le (suc attempts));
              link = ap (λ l. l user p) links ∙ w.link;
            })
    ]

-- A transaction that does not begin, or does not get its locks, sets a row whose provider has
-- already revoked back to pending, if it has fewer than nine attempts and the failure is recorded.
pub process_entry-forgets :
    (k : ℕ) (user : ℤ) (p : Provider) (attempts next updated : ℕ) (env : Env) (db : Tables)
    → suc attempts < 10
    → (env.begin_fails || env.lock_fails) ≡ true
    → env.record_fails ≡ false
    → db.outbox k
      ≡ some (disconnect_row user p revoked attempts next (some env.claim_token) updated)
    → (process_entry env
          (read_entry k
            (disconnect_row user p revoked attempts next (some env.claim_token) updated))
          db).outbox
        k
      ≡ some (
          disconnect_row user p pending
            (suc attempts)
            (env.now + backoff_duration (suc attempts))
            none
            env.now)
unfolding process_entry revoke_claimed_social_disconnect lock_claimed_disconnect mark_failed
process_entry-forgets k user p attempts next updated env db left fails records found =
    let e =
      read_entry k (disconnect_row user p revoked attempts next (some env.claim_token) updated) in
    let P : Bool × Reply × Tables → Type 0 = λ x.
      (after_revoke env e x).outbox k
      ≡ some (
          disconnect_row user p pending (suc attempts) (env.now + backoff_duration (suc attempts))
            none env.now) in
    let more : leb 10 (suc attempts) ≡ false = ground arith in
    let reset =
      rw more at (failed_row k user p revoked attempts next updated env db refl records found) in
    if-cases P env.begin_fails _ _ (λ _. reset)
      (λ begun.
        if-cases (λ l. P (revoke_locked env e l db)) env.lock_fails _ _ (λ _. reset)
          (λ held. absurd (ground arith)))
