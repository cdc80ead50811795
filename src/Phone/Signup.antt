-- ===== src/Phone/Signup.antt =====
-- The way of an applicant through the service: a code is requested, confirmed, and the grant spent.
use daeil_scholar.Prelude.{
  ℕ, ◌+◌, ◌-◌, ◌≤◌, ◌<◌, ◌≡◌, refl, Bool, true, false, Option, none, some, List, [], ◌∷◌, arith,
  Bool-cases, inl, inr, ltb, leb, length, ◌==◌,
}
use daeil_scholar.Prelude.Int.{ℤ}
use daeil_scholar.Prelude.Text.{Text, text_eq, text_eq_self}
use daeil_scholar.Phone.Table.{
  Row, Store, GrantFaults, normalize_phone_number, is_valid_phone, insert_verification, update_row,
  find_row, has_seq, increment_attempts, count_recent_requests, find_pending_verification,
  find_usable_grant, mark_verified, consume_grant,
}
use daeil_scholar.Phone.{
  requested, confirmed, granted, RequestDraws, ConfirmDraws, phone_code_expiry, phone_grant_expiry,
  phone_request_window, phone_requests_per_window, phone_code_max_attempts, request_code,
  request_sms_code, review_code, confirm_code, confirm_found, reject_code, after_increment,
  consume_grant_for_phone,
}

abbrev pub sending : Text → Text → RequestDraws
sending id code = record {
  count_fails = false;
  verification_id = some id;
  code = some code;
  insert_fails = false;
  send_fails = false;
}

abbrev pub granting : Text → ConfirmDraws
granting token = record {
  find_fails = false;
  update_fails = false;
  reread_fails = false;
  expire_fails = false;
  grant_token = some token;
  mark_fails = false;
}

abbrev pub no_faults : GrantFaults
no_faults = record {
  begin_fails = false;
  select_fails = false;
  member_fails = false;
  update_fails = false;
  commit_fails = false;
}

nonempty : (t u : Text) → 1 ≤ length t → text_eq t u ≡ true → text_eq u [] ≡ false
nonempty [] u le h = absurd (omega arith)
nonempty (c ∷ t) [] le h = cc
nonempty (c ∷ t) (d ∷ u) le h = refl

module _ (hash render : Text → Text) (review : List (Text × Text)) (members : ℤ → Text → Bool) where
  not_confirmed :
      (seq now : ℕ) (d : ConfirmDraws) (s : Store) (o : Option Row) (token : Text)
      → (after_increment hash render review members seq now d s o).0 ≡ confirmed token
      → ⊥
  not_confirmed seq now d s none token h = cc
  not_confirmed seq now d s (some r) token h = ground arith

  not_confirmed_rejected :
      (seq now : ℕ) (d : ConfirmDraws) (s : Store) (token : Text)
      → (reject_code hash render review members seq now d s).0 ≡ confirmed token
      → ⊥
  not_confirmed_rejected seq now d s token h = elim (Bool-cases d.update_fails) [
    | inl fails ↦ ground arith
    | inr works ↦ elim (Bool-cases d.reread_fails) [
      | inl fails ↦ ground arith
      | inr reads ↦
          let s' = increment_attempts seq s in
          not_confirmed seq now d s' (find_row (has_seq seq) s'.rows) token (ground arith)
    ]
  ]

  confirm_found-confirmed :
      (code token : Text) (now : ℕ) (d : ConfirmDraws) (s : Store) (o : Option Row)
      → (confirm_found hash render review members code now d s o).0 ≡ confirmed token
      → (r : Row) × (o ≡ some r)
        × (text_eq (hash code) r.code_hash ≡ true)
        × (r.attempts < phone_code_max_attempts)
  confirm_found-confirmed code token now d s none h = absurd (cc)
  confirm_found-confirmed code token now d s (some r) h =
      let few : leb phone_code_max_attempts r.attempts ≡ false = ground arith in
      elim (Bool-cases (text_eq (hash code) r.code_hash)) [
        | inl same ↦ (r, refl, same, ground arith)
        | inr other ↦ absurd (not_confirmed_rejected r.seq now d s token (ground arith))
      ]

  -- A code is confirmed only for a verification that is pending, has counted fewer than five wrong
  -- codes, and was issued with that code, up to the hash.
  pub confirm_code-confirmed :
      (id code token : Text) (now : ℕ) (d : ConfirmDraws) (s : Store)
      → (confirm_code hash render review members id code now d s).0 ≡ confirmed token
      → (r : Row) × (find_pending_verification id now s ≡ some r)
        × (text_eq (hash code) r.code_hash ≡ true)
        × (r.attempts < phone_code_max_attempts)
  unfolding confirm_code
  confirm_code-confirmed id code token now d s h =
      confirm_found-confirmed code token now d s (find_pending_verification id now s) (ground arith)

  -- The table after the request.
  abbrev after_request : Text → Text → Text → ℕ → Store → Store
  after_request phone id code now s =
      let s' = insert_verification id phone (hash code) (now + phone_code_expiry) now s in
      record s' { sent = (phone, render code) ∷ s.sent }

  request_code-sent :
      (phone id code : Text) (now : ℕ) (s : Store)
      → is_valid_phone (normalize_phone_number phone) ≡ true
      → review_code review (normalize_phone_number phone) ≡ none
      → count_recent_requests (normalize_phone_number phone) (now - phone_request_window) s
        < phone_requests_per_window
      → text_eq (render code) [] ≡ false
      → request_code hash render review members phone now (sending id code) s
        ≡ (requested id, after_request (normalize_phone_number phone) id code now s)
  unfolding request_code request_sms_code
  request_code-sent phone id code now s valid sms few body =
      let open_window : leb phone_requests_per_window
            (count_recent_requests (normalize_phone_number phone) (now - phone_request_window) s)
          ≡ false =
        ground arith in
      rw (valid, sms, open_window, body) refl

  confirm_code-right :
      (phone id code token : Text) (now t : ℕ) (s : Store)
      → t < now + phone_code_expiry
      → confirm_code hash render review members id code t
          (granting token)
          (after_request phone id code now s)
        ≡ (
          confirmed token,
          mark_verified s.next_seq
              (hash token)
              (t + phone_grant_expiry)
              (after_request phone id code now s),
        )
  unfolding confirm_code find_pending_verification find_row
  confirm_code-right phone id code token now t s soon =
      let early : ltb t (now + phone_code_expiry) ≡ true = ground arith in
      rw (text_eq_self id, early, text_eq_self (hash code)) refl

  consume_grant_for_phone-granted :
      (phone id code token : Text) (now t u : ℕ) (s : Store)
      → is_valid_phone (normalize_phone_number phone) ≡ true
      → text_eq token [] ≡ false
      → u < t + phone_grant_expiry
      → (consume_grant_for_phone hash render review members token phone u no_faults (
          mark_verified s.next_seq
            (hash token)
            (t + phone_grant_expiry)
            (after_request (normalize_phone_number phone) id code now s))).0
        ≡ granted
  unfolding consume_grant_for_phone mark_verified update_row consume_grant find_usable_grant
      find_row
  consume_grant_for_phone-granted phone id code token now t u s valid some_token later =
      let p = normalize_phone_number phone in
      let self : (s.next_seq == s.next_seq) ≡ true = ground arith in
      let early : ltb u (t + phone_grant_expiry) ≡ true = ground arith in
      let written : text_eq p [] ≡ false = nonempty p p (ground arith) (text_eq_self p) in
      rw (some_token, valid, self, text_eq_self (hash token), early, written, text_eq_self p) refl

  -- An applicant with a valid number, who is not throttled and for whom no database call, draw or
  -- message fails, and who confirms the code and registers in time, is granted the number.
  pub request-confirm-consume :
      (phone id code token : Text) (now t u : ℕ) (s : Store)
      → is_valid_phone (normalize_phone_number phone) ≡ true
      → review_code review (normalize_phone_number phone) ≡ none
      → count_recent_requests (normalize_phone_number phone) (now - phone_request_window) s
        < phone_requests_per_window
      → text_eq (render code) [] ≡ false
      → text_eq token [] ≡ false
      → t < now + phone_code_expiry
      → u < t + phone_grant_expiry
      → let asked = request_code hash render review members phone now (sending id code) s in
        let shown = confirm_code hash render review members id code t (granting token) asked.1 in
        (asked.0 ≡ requested id)
        × (shown.0 ≡ confirmed token)
        × ((consume_grant_for_phone hash render review members token phone u no_faults shown.1).0
            ≡ granted)
  request-confirm-consume phone id code token now t u s valid sms few body some_token soon later =
      let p = normalize_phone_number phone in
      let asked = request_code-sent phone id code now s valid sms few body in
      let shown = confirm_code-right p id code token now t s soon in
      let spent =
        consume_grant_for_phone-granted phone id code token now t u s valid some_token later in
      rw (asked, shown) (refl, refl, spent)
