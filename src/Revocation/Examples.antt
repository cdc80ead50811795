-- ===== src/Revocation/Examples.antt =====
-- A disconnect from Kakao: an attempt whose checkpoint is lost, ten attempts that are refused, and a
-- revocation that is forgotten.
use daeil_scholar.Prelude.{
  ℕ, ◌+◌, ◌*◌, ◌^◌, ◌==◌, if◌then◌else◌, ◌≤◌, ◌≡◌, refl, true, false, Option, none, some, List, [],
  ◌∷◌, arith,
}
use daeil_scholar.Prelude.Int.{pos}
use daeil_scholar.Prelude.Text.{Text, codes}
use daeil_scholar.Revocation.Data.{Status, pending, revoked, kakao, disconnecting, Entry, Tables}
use daeil_scholar.Revocation.{
  Env, backoff_duration, social_revocation_max_backoff, process_entry, Op, claim_due, process, run,
}
use daeil_scholar.Revocation.Once.{run-once}
use daeil_scholar.Revocation.Once.Rows.{calls_of}
use daeil_scholar.Revocation.Failures.{IsSpent, rounds-IsSpent, process_entry-forgets}
use daeil_scholar.Revocation.Failures.Rows.{IsRefused, rounds, read_entry, disconnect_row}

abbrev agreeing : Env
agreeing = record {
  claim_token = codes "w";
  now = 1000;
  vault_err = false;
  decrypt = λ t. some t;
  unlinks_accounts = true;
  apple_configured = true;
  provider_agrees = λ p. true;
  begin_fails = false;
  lock_fails = false;
  credential_fails = false;
  checkpoint_fails = true;
  finalize_begin_fails = false;
  finalize_lock_fails = false;
  finalize_fails = false;
  release_fails = false;
  record_fails = false;
}

abbrev settled : Env
settled = record agreeing { now = 10 ^ 15; checkpoint_fails = false }

abbrev table : Status → Option Text → Tables
table status token = record {
  outbox = λ id. if id == 7 then some (disconnect_row (pos 5) kakao status 0 0 token 0) else none;
  links = λ u p. some disconnecting;
  credentials = λ u p. some (codes "secret");
  canonical_identity_ready = true;
  identities = λ u p. true;
  has_password = λ u. some true;
  calls = [];
}

abbrev first_entry : Entry
first_entry = read_entry 7 (disconnect_row (pos 5) kakao pending 0 0 none 0)

-- The second entry is as stale as the first.
abbrev ops : List Op
ops =
    claim_due (codes "w") 1000 (λ id. true)
    ∷ process agreeing first_entry
    ∷ claim_due (codes "w") (10 ^ 15) (λ id. true)
    ∷ process settled first_entry
    ∷ []

run-once_example : calls_of 7 (run ops (table pending none)).calls ≤ 1
run-once_example =
    run-once 7 ops (table pending none) (disconnect_row (pos 5) kakao pending 0 0 none 0) refl refl
      refl
      (
        tt,
        (
          λ _. (refl, record { begins = refl; locks = refl; remembers = λ _. refl }),
          (tt, (λ _. (refl, record { begins = refl; locks = refl; remembers = λ _. refl }), tt)),
        ),
      )

abbrev refusing : ℕ → Env
refusing hours = record settled {
  now = hours * social_revocation_max_backoff;
  provider_agrees = λ p. false;
}

abbrev ten_hours : List Env
ten_hours =
    refusing 1
    ∷ refusing 2
    ∷ refusing 3
    ∷ refusing 4
    ∷ refusing 5
    ∷ refusing 6
    ∷ refusing 7
    ∷ refusing 8
    ∷ refusing 9
    ∷ refusing 10
    ∷ refusing 11
    ∷ []

refused : (hours : ℕ) → IsRefused kakao (refusing hours)
refused hours = record {
  token = refl;
  begins = refl;
  locks = refl;
  refuses = λ encrypted. ground arith;
  records = refl;
}

rounds-IsSpent_example : IsSpent 7 (pos 5) kakao (rounds 7 ten_hours (table pending none))
rounds-IsSpent_example =
    rounds-IsSpent 7 (pos 5) kakao ten_hours 0 0 (table pending none) (omega arith) (omega arith)
      (
        refused 1,
        (
          refused 2,
          (
            refused 3,
            (
              refused 4,
              (
                refused 5,
                (refused 6, (refused 7, (refused 8, (refused 9, (refused 10, (refused 11, tt)))))),
              ),
            ),
          ),
        ),
      )
      (omega arith)
      (record { next = 0; updated = 0; found = refl; is_claim_due = omega arith; link = refl })

abbrev disturbed : Env
disturbed = record settled { lock_fails = true }

process_entry-forgets_example :
    (process_entry disturbed
        (read_entry 7 (disconnect_row (pos 5) kakao revoked 0 0 (some (codes "w")) 0))
        (table revoked (some (codes "w")))).outbox
      7
    ≡ some (disconnect_row (pos 5) kakao pending 1 (10 ^ 15 + backoff_duration 1) none (10 ^ 15))
process_entry-forgets_example =
    process_entry-forgets 7 (pos 5) kakao 0 0 0 disturbed (table revoked (some (codes "w")))
      (omega arith) refl refl refl
