-- ===== src/Phone/Examples.antt =====
-- An applicant on the empty table: five wrong codes, and a number that is verified and registered.
use daeil_scholar.Prelude.{
  ℕ, ◌*◌, ◌≤◌, ◌<◌, ◌≡◌, refl, Bool, true, false, some, List, [], ◌∷◌, arith, All,
}
use daeil_scholar.Prelude.Int.{ℤ}
use daeil_scholar.Prelude.Text.{Text, codes, text_eq}
use daeil_scholar.Phone.Table.{
  Row, Store, new_store, normalize_phone_number, update_row, find_row, count_rows,
  find_pending_verification, count_recent_requests, increment_attempts, expire_verification,
  mark_verified, find_usable_grant, consume_grant,
}
use daeil_scholar.Phone.{
  second, phone_code_max_attempts, requested, confirmed, granted, request_code, request_sms_code,
  confirm_code, consume_grant_for_phone, configure_review_test_numbers,
}
use daeil_scholar.Phone.Trace.{Op, request, confirm, consume, apply, run, tally}
use daeil_scholar.Phone.Rows.{IsNumbered}
use daeil_scholar.Phone.Attempts.{IsRowOk, IsLocked, run_new-IsRowOk, run-IsLocked}
use daeil_scholar.Phone.Grants.{is_spent, is_issued, run_new-spent}
use daeil_scholar.Phone.Throttle.{IsThrottled, run-IsThrottled}
use daeil_scholar.Phone.Signup.{
  sending, granting, no_faults, confirm_code-confirmed, request-confirm-consume,
}

abbrev sha : Text → Text
sha t = b'#' ∷ t

abbrev text_message : Text → Text
text_message code = code

abbrev everyone : ℤ → Text → Bool
everyone user phone = true

abbrev review : List (Text × Text)
review = configure_review_test_numbers (codes "010-0000-0000" ∷ []) (codes "111111") []

abbrev phone : Text
phone = codes "010-1234-5678"

abbrev guess : ℕ → Op
guess t = confirm (codes "id") (codes "000000") t (granting (codes "tok"))

abbrev five_wrong : List Op
five_wrong =
    request phone (5000 * second) (sending (codes "id") (codes "123456"))
    ∷ guess (5001 * second)
    ∷ guess (5002 * second)
    ∷ guess (5003 * second)
    ∷ guess (5004 * second)
    ∷ guess (5005 * second)
    ∷ []

abbrev used_up : Store
used_up = run sha text_message review everyone five_wrong new_store

abbrev then_right : List Op
then_right = confirm (codes "id") (codes "123456") (5006 * second) (granting (codes "tok")) ∷ []

abbrev signup : List Op
signup =
    request phone (5000 * second) (sending (codes "id") (codes "123456"))
    ∷ guess (5001 * second)
    ∷ confirm (codes "id") (codes "123456") (5002 * second) (granting (codes "tok"))
    ∷ consume (codes "tok") phone (5003 * second) no_faults
    ∷ consume (codes "tok") phone (5004 * second) no_faults
    ∷ []

used_up-rows : All (λ r. (r.seq ≡ 1) × (r.attempts ≡ 5) × (r.verified ≡ false)) used_up.rows
unfolding run apply request_code request_sms_code normalize_phone_number count_recent_requests
    count_rows confirm_code find_pending_verification find_row increment_attempts update_row
    expire_verification
used_up-rows = ((refl, refl, refl), tt)

used_up-IsLocked : All (IsLocked 1) used_up.rows
unfolding run apply request_code request_sms_code normalize_phone_number count_recent_requests
    count_rows confirm_code find_pending_verification find_row increment_attempts update_row
    expire_verification
used_up-IsLocked = ((λ same. (omega arith, refl)), tt)

used_up-next : 1 < used_up.next_seq
unfolding run apply request_code request_sms_code normalize_phone_number count_recent_requests
    count_rows confirm_code find_pending_verification find_row increment_attempts update_row
    expire_verification
used_up-next = omega arith

signup-spent :
    tally sha text_message review everyone (is_spent sha (codes "#tok")) signup new_store ≡ 1
unfolding tally apply request_code request_sms_code normalize_phone_number count_recent_requests
    count_rows confirm_code find_pending_verification find_row increment_attempts update_row
    mark_verified consume_grant_for_phone consume_grant find_usable_grant
signup-spent = refl

run_new-IsRowOk_example : IsNumbered used_up.next_seq used_up.rows × All IsRowOk used_up.rows
run_new-IsRowOk_example = run_new-IsRowOk sha text_message review everyone five_wrong

run-IsLocked_example :
    All (IsLocked 1) (run sha text_message review everyone then_right used_up).rows
run-IsLocked_example =
    run-IsLocked sha text_message review everyone 1 then_right used_up used_up-next
      (run_new-IsRowOk sha text_message review everyone five_wrong).0 used_up-IsLocked

run_new-spent_example :
    tally sha text_message review everyone (is_spent sha (codes "#tok")) signup new_store
    ≤ tally sha text_message review everyone (is_issued sha (codes "#tok")) signup new_store
run_new-spent_example = run_new-spent sha (codes "#tok") text_message review everyone signup

run-IsThrottled_example : IsThrottled used_up.rows
unfolding count_rows
run-IsThrottled_example =
    run-IsThrottled sha text_message review everyone five_wrong new_store (λ p t. omega arith)

abbrev asked : Store
asked =
    (request_code sha text_message review everyone phone (5000 * second)
      (sending (codes "id") (codes "123456")) new_store).1

asked-confirms :
    (confirm_code sha text_message review everyone
      (codes "id")
      (codes "123456")
      (5001 * second)
      (granting (codes "tok"))
      asked).0
    ≡ confirmed (codes "tok")
unfolding request_code request_sms_code normalize_phone_number count_recent_requests count_rows
    confirm_code find_pending_verification find_row
asked-confirms = refl

confirm_code-confirmed_example :
    (r : Row) × (find_pending_verification (codes "id") (5001 * second) asked ≡ some r)
    × (text_eq (sha (codes "123456")) r.code_hash ≡ true)
    × (r.attempts < phone_code_max_attempts)
confirm_code-confirmed_example =
    confirm_code-confirmed sha text_message review everyone (codes "id") (codes "123456")
      (codes "tok") (5001 * second) (granting (codes "tok")) asked asked-confirms

request-confirm-consume_example :
    let asked =
      request_code sha text_message review everyone phone
        (5000 * second)
        (sending (codes "id") (codes "123456"))
        new_store in
    let shown =
      confirm_code sha text_message review everyone
        (codes "id")
        (codes "123456")
        (5001 * second)
        (granting (codes "tok"))
        asked.1 in
    (asked.0 ≡ requested (codes "id"))
    × (shown.0 ≡ confirmed (codes "tok"))
    × ((consume_grant_for_phone sha text_message review everyone
          (codes "tok")
          phone
          (5002 * second)
          no_faults
          shown.1).0
        ≡ granted)
unfolding normalize_phone_number count_recent_requests count_rows
request-confirm-consume_example =
    request-confirm-consume sha text_message review everyone phone (codes "id") (codes "123456")
      (codes "tok") (5000 * second) (5001 * second) (5002 * second) new_store refl refl
      (omega arith) refl refl (omega arith) (omega arith)
