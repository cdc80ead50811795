-- ===== src/Phone/Attempts.antt =====
-- The limit of wrong codes for a verification.
use daeil_scholar.Prelude.{ℕ, ◌≤◌, ◌<◌, ◌≡◌, refl, Bool, false, List, arith, All, is_some}
use daeil_scholar.Prelude.Int.{ℤ}
use daeil_scholar.Prelude.Text.{Text}
use daeil_scholar.Phone.Table.{Row, Store, new_store}
use daeil_scholar.Phone.{phone_code_max_attempts}
use daeil_scholar.Phone.Trace.{Op, run}
use daeil_scholar.Phone.Rows.{IsNumbered}
use daeil_scholar.Phone.Steps.{IsStable, run-All}

-- At most five wrong codes; verified exactly if there is a grant; consumed only if verified.
abbrev pub IsRowOk : Row → Type 0
IsRowOk r =
    (r.attempts ≤ phone_code_max_attempts)
    × (r.verified ≡ is_some r.grant_token_hash)
    × (is_some r.grant_expires_at ≡ r.verified)

-- The verification `k` has used up its attempts and is not verified.
abbrev pub IsLocked : ℕ → Row → Type 0
IsLocked k r = r.seq ≡ k → (phone_code_max_attempts ≤ r.attempts) × (r.verified ≡ false)

IsRowOk-IsStable : IsStable IsRowOk 0
IsRowOk-IsStable = record {
  fresh = λ k id phone code_hash expires now le. (omega arith, refl, refl);
  bumped = λ r (few, same, end) left. (omega arith, same, end);
  retired = λ r t ok. ok;
  verified = λ r h t (few, same, end) left. (few, refl, refl);
  spent = λ r user ok. ground arith;
}

IsLocked-IsStable : (k n : ℕ) → k < n → IsStable (IsLocked k) n
IsLocked-IsStable k n lt = record {
  fresh = λ m id phone code_hash expires now le same. absurd (omega arith);
  bumped = λ r locked left same. absurd (ground arith);
  retired = λ r t locked. locked;
  verified = λ r h t locked left same. absurd (ground arith);
  spent = λ r user locked. ground arith;
}

module _ (hash render : Text → Text) (review : List (Text × Text)) (members : ℤ → Text → Bool) where
  -- After any sequence of calls on the empty table, one after the other, whichever fail: the rows are numbered without
  -- repetition, none has counted more than five wrong codes, and exactly the verified ones have a
  -- grant with an end.
  pub run_new-IsRowOk :
      (os : List Op)
      → IsNumbered
          (run hash render review members os new_store).next_seq
          (run hash render review members os new_store).rows
        × All IsRowOk (run hash render review members os new_store).rows
  run_new-IsRowOk os =
      run-All hash render review members IsRowOk 0 os new_store IsRowOk-IsStable (omega arith) tt tt

  -- A verification that has used up its five attempts is never verified afterwards, whatever the
  -- sequence of calls, one after the other.
  pub run-IsLocked :
      (k : ℕ) (os : List Op) (s : Store)
      → k < s.next_seq
      → IsNumbered s.next_seq s.rows
      → All (IsLocked k) s.rows
      → All (IsLocked k) (run hash render review members os s).rows
  run-IsLocked k os s lt w locked =
      (run-All hash render review members (IsLocked k) s.next_seq os s
        (IsLocked-IsStable k s.next_seq lt) (omega arith) w locked).1
