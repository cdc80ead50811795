-- ===== src/Phone/Events/Codes.antt =====
-- RequestCode and ConfirmCode change the table as their events say.
use daeil_scholar.Prelude.{
  ℕ, ◌+◌, ◌-◌, ◌<◌, ◌≡◌, refl, Bool, false, Option, none, some, List, [], arith, leb, Bool-cases,
  inl, inr,
}
use daeil_scholar.Prelude.Int.{ℤ}
use daeil_scholar.Prelude.Text.{Text, text_eq}
use daeil_scholar.Phone.Table.{
  Row, Store, normalize_phone_number, is_valid_phone, update_row, find_row, bump, is_pending,
  has_seq, increment_attempts, expire_verification, mark_verified, find_pending_verification,
  count_recent_requests,
}
use daeil_scholar.Phone.{
  RequestDraws, ConfirmDraws, phone_request_window, phone_code_expiry, phone_grant_expiry,
  phone_requests_per_window, phone_code_max_attempts, request_code, request_for, request_sms_code,
  request_review_test_code, issue_code, issue_review_code, confirm_code, confirm_found, reject_code,
  accept_code, after_increment, review_code,
}
use daeil_scholar.Phone.Events.{
  insert, wrong, right, retire_at, rows_after, seq_after, IsAllowed, Tells, Did, Did-nothing,
  Did-one, Did-if,
}

module _ (hash render : Text → Text) (review : List (Text × Text)) (members : ℤ → Text → Bool) where
  issue_code-Did :
      (phone : Text) (id code : Option Text) (now : ℕ) (d : RequestDraws) (s : Store)
      → count_recent_requests phone (now - phone_request_window) s < phone_requests_per_window
      → Did hash (Tells hash) s (issue_code hash render review members phone id code now d s)
  unfolding Tells rows_after seq_after IsAllowed
  issue_code-Did phone none c now d s few = Did-nothing hash (Tells hash) s _ tt
  issue_code-Did phone (some id) none now d s few = Did-nothing hash (Tells hash) s _ tt
  issue_code-Did phone (some id) (some code) now d s few =
      let e = insert id phone (hash code) (now + phone_code_expiry) now in
      elim (Bool-cases d.insert_fails) [
        | inl h ↦ rw h (Did-nothing hash (Tells hash) s _ tt)
        | inr h ↦ elim (Bool-cases (text_eq (render code) [])) [
          | inl g ↦ rw (h, g) (Did-one hash (Tells hash) e s _ _ few tt refl refl)
          | inr g ↦ elim (Bool-cases d.send_fails) [
            | inl k ↦ rw (h, g, k) (Did-one hash (Tells hash) e s _ _ few tt refl refl)
            | inr k ↦ rw (h, g, k) (Did-one hash (Tells hash) e s _ _ few tt refl refl)
          ]
        ]
      ]

  issue_review_code-Did :
      (phone fixed : Text) (id : Option Text) (now : ℕ) (d : RequestDraws) (s : Store)
      → count_recent_requests phone (now - phone_request_window) s < phone_requests_per_window
      → Did hash
          (Tells hash)
          s
          (issue_review_code hash render review members phone fixed id now d s)
  unfolding Tells rows_after seq_after IsAllowed
  issue_review_code-Did phone fixed none now d s few = Did-nothing hash (Tells hash) s _ tt
  issue_review_code-Did phone fixed (some id) now d s few =
      let e = insert id phone (hash fixed) (now + phone_code_expiry) now in
      elim (Bool-cases d.insert_fails) [
        | inl h ↦ rw h (Did-nothing hash (Tells hash) s _ tt)
        | inr h ↦ rw h (Did-one hash (Tells hash) e s _ _ few tt refl refl)
      ]

  abbrev throttles : Text → ℕ → Store → Bool
  throttles phone now s =
      leb phone_requests_per_window (count_recent_requests phone (now - phone_request_window) s)

  throttles-few :
      (phone : Text) (now : ℕ) (s : Store)
      → throttles phone now s ≡ false
      → count_recent_requests phone (now - phone_request_window) s < phone_requests_per_window
  throttles-few phone now s h = ground arith

  request_for-Did :
      (phone : Text) (o : Option Text) (now : ℕ) (d : RequestDraws) (s : Store)
      → Did hash (Tells hash) s (request_for hash render review members phone o now d s)
  unfolding request_sms_code request_review_test_code Tells
  request_for-Did phone none now d s =
      Did-if hash (Tells hash) s d.count_fails _ _ (λ h. Did-nothing hash (Tells hash) s _ tt)
        (λ h.
          Did-if hash (Tells hash) s (throttles phone now s) _ _
            (λ g. Did-nothing hash (Tells hash) s _ tt)
            (λ g.
              issue_code-Did phone d.verification_id d.code now d s (throttles-few phone now s g)))
  request_for-Did phone (some fixed) now d s =
      Did-if hash (Tells hash) s d.count_fails _ _ (λ h. Did-nothing hash (Tells hash) s _ tt)
        (λ h.
          Did-if hash (Tells hash) s (throttles phone now s) _ _
            (λ g. Did-nothing hash (Tells hash) s _ tt)
            (λ g.
              issue_review_code-Did phone fixed d.verification_id now d s
                (throttles-few phone now s g)))

  pub request_code-Did :
      (phone : Text) (now : ℕ) (d : RequestDraws) (s : Store)
      → Did hash (Tells hash) s (request_code hash render review members phone now d s)
  unfolding request_code Tells
  request_code-Did phone now d s =
      let canonical = normalize_phone_number phone in
      elim (Bool-cases (is_valid_phone canonical)) [
        | inl h ↦ rw h (request_for-Did canonical (review_code review canonical) now d s)
        | inr h ↦ rw h (Did-nothing hash (Tells hash) s _ tt)
      ]

  after_increment-Did :
      (r : Row) (id : Text) (now : ℕ) (d : ConfirmDraws) (o : Option Row) (s : Store)
      → find_row (is_pending id now) s.rows ≡ some r
      → r.attempts < phone_code_max_attempts
      → Did hash
          (Tells hash)
          s
          (after_increment hash render review members r.seq now d (increment_attempts r.seq s) o)
  unfolding Tells rows_after seq_after IsAllowed increment_attempts expire_verification retire_at
  after_increment-Did r id now d none s found few =
      Did-one hash (Tells hash) (wrong r id now none) s _ _ (found, few) tt refl refl
  after_increment-Did r id now d (some x) s found few =
      elim (Bool-cases (leb phone_code_max_attempts x.attempts)) [
        | inl h ↦ elim (Bool-cases d.expire_fails) [
          | inl g ↦
              rw (h, g)
                (Did-one hash (Tells hash) (wrong r id now none) s _ _ (found, few) tt refl refl)
          | inr g ↦
              rw (h, g)
                (Did-one hash (Tells hash) (wrong r id now (some now)) s _ _ (found, few) tt refl
                  refl)
        ]
        | inr h ↦
            rw h (Did-one hash (Tells hash) (wrong r id now none) s _ _ (found, few) tt refl refl)
      ]

  reject_code-Did :
      (r : Row) (id : Text) (now : ℕ) (d : ConfirmDraws) (s : Store)
      → find_row (is_pending id now) s.rows ≡ some r
      → r.attempts < phone_code_max_attempts
      → Did hash (Tells hash) s (reject_code hash render review members r.seq now d s)
  unfolding Tells rows_after seq_after IsAllowed retire_at increment_attempts
  reject_code-Did r id now d s found few =
      Did-if hash (Tells hash) s d.update_fails _ _ (λ h. Did-nothing hash (Tells hash) s _ tt)
        (λ h.
          Did-if hash (Tells hash) s d.reread_fails _ _
            (λ g. Did-one hash (Tells hash) (wrong r id now none) s _ _ (found, few) tt refl refl)
            (λ g.
              after_increment-Did r id now d
                (find_row (has_seq r.seq) (update_row r.seq bump s.rows)) s found few))

  accept_code-Did :
      (r : Row) (id : Text) (now : ℕ) (d : ConfirmDraws) (token : Option Text) (s : Store)
      → find_row (is_pending id now) s.rows ≡ some r
      → r.attempts < phone_code_max_attempts
      → Did hash (Tells hash) s (accept_code hash render review members r.seq now d token s)
  unfolding Tells rows_after seq_after IsAllowed mark_verified
  accept_code-Did r id now d none s found few = Did-nothing hash (Tells hash) s _ tt
  accept_code-Did r id now d (some token) s found few =
      let e = right r id now token (now + phone_grant_expiry) in
      elim (Bool-cases d.mark_fails) [
        | inl h ↦ rw h (Did-nothing hash (Tells hash) s _ tt)
        | inr h ↦ rw h (Did-one hash (Tells hash) e s _ _ (found, few) refl refl refl)
      ]

  confirm_found-Did :
      (id code : Text) (now : ℕ) (d : ConfirmDraws) (o : Option Row) (s : Store)
      → find_row (is_pending id now) s.rows ≡ o
      → Did hash (Tells hash) s (confirm_found hash render review members code now d s o)
  unfolding Tells
  confirm_found-Did id code now d none s found = Did-nothing hash (Tells hash) s _ tt
  confirm_found-Did id code now d (some r) s found =
      elim (Bool-cases (leb phone_code_max_attempts r.attempts)) [
        | inl h ↦ rw h (Did-nothing hash (Tells hash) s _ tt)
        | inr h ↦
            let few : r.attempts < phone_code_max_attempts = ground arith in
            elim (Bool-cases (text_eq (hash code) r.code_hash)) [
              | inl g ↦ rw (h, g) (accept_code-Did r id now d d.grant_token s found few)
              | inr g ↦ rw (h, g) (reject_code-Did r id now d s found few)
            ]
      ]

  pub confirm_code-Did :
      (id code : Text) (now : ℕ) (d : ConfirmDraws) (s : Store)
      → Did hash (Tells hash) s (confirm_code hash render review members id code now d s)
  unfolding confirm_code find_pending_verification Tells
  confirm_code-Did id code now d s =
      Did-if hash (Tells hash) s d.find_fails _ _ (λ h. Did-nothing hash (Tells hash) s _ tt)
        (λ h. confirm_found-Did id code now d (find_row (is_pending id now) s.rows) s refl)
