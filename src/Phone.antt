-- ===== src/Phone.antt =====
-- The text-message codes that prove who owns a phone number:
-- backend/internal/service/phone_verification_service.go on the table of Phone/Table. What is drawn
-- at random, rendered or fails comes with each call. The service takes no lock, and a request or a
-- confirmation makes several calls of the database: the model runs each to its end before the next,
-- so what requests or confirmations that overlap may do is not modelled.
pub mod Table
pub mod Trace
pub mod Rows
pub mod Events
pub mod Steps
pub mod Attempts
pub mod Grants
pub mod Throttle
pub mod Signup
mod Examples
use daeil_scholar.Prelude.{
  ℕ, ◌+◌, ◌-◌, ◌*◌, Bool, true, false, not, ◌&&◌, ◌||◌, Option, none, some, List, [], ◌∷◌, leb,
  if◌then◌else◌,
}
use daeil_scholar.Prelude.Int.{ℤ, pos, leb_ℤ}
use daeil_scholar.Prelude.Text.{Text, text_eq}
use daeil_scholar.Phone.Table.{
  normalize_phone_number, is_valid_phone, Row, Store, insert_verification, count_recent_requests,
  find_pending_verification, increment_attempts, has_seq, find_row, expire_verification,
  mark_verified, find_usable_grant, phone_of, GrantFaults, consume_grant,
}

abbrev pub second : ℕ
second = 1000000000

abbrev pub phone_code_expiry : ℕ
phone_code_expiry = 300 * second

abbrev pub phone_grant_expiry : ℕ
phone_grant_expiry = 1800 * second

abbrev pub phone_code_max_attempts : ℕ
phone_code_max_attempts = 5

abbrev pub phone_request_window : ℕ
phone_request_window = 3600 * second

abbrev pub phone_requests_per_window : ℕ
phone_requests_per_window = 5

pub data Error : Type 0 where
  invalid_phone throttled not_found code_mismatch attempts_exceeded : Error
  not_verified sms_template_empty send_error random_error store_error : Error

pub data Reply : Type 0 where
  requested : Text → Reply
  confirmed : Text → Reply
  granted : Reply
  refused : Error → Reply

-- What a request draws (`none` where the random source fails), and what fails.
pub record RequestDraws : Type 0 where
  pub count_fails : Bool
  pub verification_id : Option Text
  pub code : Option Text
  pub insert_fails : Bool
  pub send_fails : Bool

pub record ConfirmDraws : Type 0 where
  pub find_fails : Bool
  pub update_fails : Bool
  pub reread_fails : Bool
  pub expire_fails : Bool
  pub grant_token : Option Text
  pub mark_fails : Bool

-- `s.reviewTestPhones`, later entries first.
abbrev pub add_review_phone : Text → Text → List (Text × Text) → List (Text × Text)
add_review_phone phone code review =
    let canonical = normalize_phone_number phone in
    if is_valid_phone canonical then (canonical, code) ∷ review else review

abbrev pub configure_review_test_numbers :
    List Text → Text → List (Text × Text) → List (Text × Text)
configure_review_test_numbers [] code review = review
configure_review_test_numbers (phone ∷ phones) code review =
    configure_review_test_numbers phones code (add_review_phone phone code review)

abbrev pub review_code : List (Text × Text) → Text → Option Text
review_code [] phone = none
review_code (e ∷ es) phone = if text_eq e.0 phone then some e.1 else review_code es phone

-- `hash` is SHA-256 in hexadecimal, `render` the template of the text message with the code put in,
-- `review` the configured test numbers and `members` the table of members.
module _ (hash render : Text → Text) (review : List (Text × Text)) (members : ℤ → Text → Bool) where
  abbrev pub send_code : Text → Text → Text → RequestDraws → Store → Reply × Store
  send_code phone id code d s =
      if text_eq (render code) []
      then (refused sms_template_empty, s)
      else if d.send_fails
      then (refused send_error, s)
      else (requested id, record s { sent = (phone, render code) ∷ s.sent })

  abbrev pub issue_code :
      Text → Option Text → Option Text → ℕ → RequestDraws → Store → Reply × Store
  issue_code phone (some id) (some code) now d s =
      if d.insert_fails
      then (refused store_error, s)
      else send_code phone id code d
          (insert_verification id phone (hash code) (now + phone_code_expiry) now s)
  issue_code phone none c now d s = (refused random_error, s)
  issue_code phone (some id) none now d s = (refused random_error, s)

  abbrev pub issue_review_code :
      Text → Text → Option Text → ℕ → RequestDraws → Store → Reply × Store
  issue_review_code phone fixed none now d s = (refused random_error, s)
  issue_review_code phone fixed (some id) now d s =
      if d.insert_fails
      then (refused store_error, s)
      else (requested id, insert_verification id phone (hash fixed) (now + phone_code_expiry) now s)

  unfoldable pub request_review_test_code : Text → Text → ℕ → RequestDraws → Store → Reply × Store
  request_review_test_code phone fixed now d s =
      if d.count_fails
      then (refused store_error, s)
      else if leb phone_requests_per_window
          (count_recent_requests phone (now - phone_request_window) s)
      then (refused throttled, s)
      else issue_review_code phone fixed d.verification_id now d s

  unfoldable pub request_sms_code : Text → ℕ → RequestDraws → Store → Reply × Store
  request_sms_code phone now d s =
      if d.count_fails
      then (refused store_error, s)
      else if leb phone_requests_per_window
          (count_recent_requests phone (now - phone_request_window) s)
      then (refused throttled, s)
      else issue_code phone d.verification_id d.code now d s

  abbrev pub request_for : Text → Option Text → ℕ → RequestDraws → Store → Reply × Store
  request_for phone none now d s = request_sms_code phone now d s
  request_for phone (some fixed) now d s = request_review_test_code phone fixed now d s

  unfoldable pub request_code : Text → ℕ → RequestDraws → Store → Reply × Store
  request_code phone now d s =
      let canonical = normalize_phone_number phone in
      if not (is_valid_phone canonical)
      then (refused invalid_phone, s)
      else request_for canonical (review_code review canonical) now d s

  abbrev pub after_increment : ℕ → ℕ → ConfirmDraws → Store → Option Row → Reply × Store
  after_increment seq now d s none = (refused store_error, s)
  after_increment seq now d s (some r) =
      if leb phone_code_max_attempts r.attempts
      then (if d.expire_fails
          then (refused store_error, s)
          else (refused attempts_exceeded, expire_verification seq now s))
      else (refused code_mismatch, s)

  abbrev pub reject_code : ℕ → ℕ → ConfirmDraws → Store → Reply × Store
  reject_code seq now d s =
      if d.update_fails
      then (refused store_error, s)
      else let s' = increment_attempts seq s in
        if d.reread_fails
        then (refused store_error, s')
        else after_increment seq now d s' (find_row (has_seq seq) s'.rows)

  abbrev pub accept_code : ℕ → ℕ → ConfirmDraws → Option Text → Store → Reply × Store
  accept_code seq now d none s = (refused random_error, s)
  accept_code seq now d (some token) s =
      if d.mark_fails
      then (refused store_error, s)
      else (confirmed token, mark_verified seq (hash token) (now + phone_grant_expiry) s)

  abbrev pub confirm_found : Text → ℕ → ConfirmDraws → Store → Option Row → Reply × Store
  confirm_found code now d s none = (refused not_found, s)
  confirm_found code now d s (some r) =
      if leb phone_code_max_attempts r.attempts
      then (refused attempts_exceeded, s)
      else if not (text_eq (hash code) r.code_hash)
      then reject_code r.seq now d s
      else accept_code r.seq now d d.grant_token s

  unfoldable pub confirm_code : Text → Text → ℕ → ConfirmDraws → Store → Reply × Store
  confirm_code id code now d s =
      if d.find_fails
      then (refused store_error, s)
      else confirm_found code now d s (find_pending_verification id now s)

  -- The end of `grantSubject`, on what the lookup returned.
  abbrev pub check_granted : Text → Option Text × Store → Reply × Store
  check_granted phone (none, s) = (refused store_error, s)
  check_granted phone (some granted_phone, s) =
      if text_eq granted_phone [] || not (text_eq granted_phone phone)
      then (refused not_verified, s)
      else (granted, s)

  abbrev pub grant_subject : Text → Text → (Text → Option Text × Store) → Store → Reply × Store
  grant_subject token phone lookup s =
      if text_eq token []
      then (refused not_verified, s)
      else let canonical = normalize_phone_number phone in
        if not (is_valid_phone canonical)
        then (refused invalid_phone, s)
        else check_granted canonical (lookup (hash token))

  abbrev pub usable_grant : Bool → ℕ → Store → Text → Option Text × Store
  usable_grant fails now s h =
      if fails then (none, s) else (some (phone_of (find_usable_grant h now s)), s)

  unfoldable pub assert_phone_verified : Text → Text → ℕ → Bool → Store → Reply × Store
  assert_phone_verified token phone now fails s =
      grant_subject token phone (usable_grant fails now s) s

  unfoldable pub consume_grant_for_phone : Text → Text → ℕ → GrantFaults → Store → Reply × Store
  consume_grant_for_phone token phone now f s =
      grant_subject token phone (λ h. consume_grant members h [] (pos 0) now f s) s

  unfoldable pub consume_grant_for_member :
      Text → Text → ℤ → ℕ → GrantFaults → Store → Reply × Store
  consume_grant_for_member token phone user now f s =
      if leb_ℤ user (pos 0)
      then (refused not_verified, s)
      else grant_subject token phone
          (λ h. consume_grant members h (normalize_phone_number phone) user now f s) s
