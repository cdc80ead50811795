-- ===== src/Phone/Events.antt =====
-- What any call does to the table: one of six changes, each under the condition that the code has
-- for it.
pub mod Codes
pub mod Consumption
use daeil_scholar.Prelude.{
  ℕ, suc, ◌+◌, ◌-◌, ◌<◌, ◌≡◌, refl, Bool, true, false, not, ◌&&◌, ◌||◌, ◌⊎◌, subst, Option, none,
  some, List, [], ◌∷◌, arith, keep, leb, if◌then◌else◌, Bool-cases, Option-cases, if-cases, inl,
  inr,
}
use daeil_scholar.Prelude.Int.{ℤ, pos, leb_ℤ}
use daeil_scholar.Prelude.Text.{Text, text_eq, text_eq→eq}
use daeil_scholar.Phone.Table.{
  Row, Store, normalize_phone_number, is_valid_phone, update_row, find_row, bump, retire, verify,
  spend, is_pending, is_usable_grant, is_kept, has_seq, GrantFaults, insert_verification,
  increment_attempts, expire_verification, mark_verified, find_pending_verification,
  find_usable_grant, consume_grant, spend_found, spend_row, count_recent_requests,
  delete_expired_before,
}
use daeil_scholar.Phone.{
  Error, Reply, confirmed, granted, refused, RequestDraws, ConfirmDraws, phone_request_window,
  phone_code_expiry, phone_grant_expiry, phone_requests_per_window, phone_code_max_attempts,
  request_code, request_for, request_sms_code, request_review_test_code, issue_code,
  issue_review_code, send_code, confirm_code, confirm_found, reject_code, accept_code,
  after_increment, review_code, grant_subject, check_granted, assert_phone_verified, usable_grant,
  consume_grant_for_phone, consume_grant_for_member,
}
use daeil_scholar.Phone.Trace.{
  Op, request, confirm, assert_verified, consume, consume_member, clean_up, apply,
}

pub data Event : Type 0 where
  nothing : Event
  insert : Text → Text → Text → ℕ → ℕ → Event
  -- the row, and the time at which it is retired as well
  wrong : Row → Text → ℕ → Option ℕ → Event
  right : Row → Text → ℕ → Text → ℕ → Event
  spent : Row → Text → ℕ → ℤ → Event
  clean : ℕ → ℕ → Event

module _ (hash : Text → Text) where
  unfoldable pub retire_at : Row → Option ℕ → List Row → List Row
  retire_at r none rows = rows
  retire_at r (some t) rows = update_row r.seq (retire t) rows

  unfoldable pub rows_after : Event → Store → List Row
  unfolding retire_at
  rows_after nothing s = s.rows
  rows_after (insert id phone code_hash expires now) s =
      (insert_verification id phone code_hash expires now s).rows
  rows_after (wrong r id now end) s = retire_at r end (update_row r.seq bump s.rows)
  rows_after (right r id now token expires) s =
      update_row r.seq (verify (hash token) expires) s.rows
  rows_after (spent r h now user) s = update_row r.seq (spend user) s.rows
  rows_after (clean cutoff now) s = keep (is_kept cutoff now) s.rows

  unfoldable pub seq_after : Event → Store → ℕ
  seq_after (insert _ _ _ _ _) s = suc s.next_seq
  seq_after _ s = s.next_seq

  unfoldable pub IsAllowed : Event → Store → Type 0
  IsAllowed (insert id phone code_hash expires now) s =
      count_recent_requests phone (now - phone_request_window) s < phone_requests_per_window
  IsAllowed (wrong r id now end) s =
      (find_row (is_pending id now) s.rows ≡ some r) × (r.attempts < phone_code_max_attempts)
  IsAllowed (right r id now token expires) s =
      (find_row (is_pending id now) s.rows ≡ some r) × (r.attempts < phone_code_max_attempts)
  IsAllowed (spent r h now user) s = find_row (is_usable_grant h now) s.rows ≡ some r
  IsAllowed _ s = Unit

  -- A grant is made for the caller that is told its token.
  unfoldable pub Tells : Event → Reply → Type 0
  Tells (right r id now token expires) reply = reply ≡ confirmed token
  Tells _ _ = Unit

  -- A call that is granted spent a grant with the hash for the phone.
  unfoldable pub IsSpending : Text → Text → Event → Type 0
  IsSpending h phone (spent r g now user) = (g ≡ h) × (r.phone ≡ phone)
  IsSpending h phone _ = ⊥

  unfoldable pub Did : (Event → Reply → Type 0) → Store → Reply × Store → Type 0
  Did Q s x =
      (e : Event) × IsAllowed e s
      × Q e x.0
      × (x.1.rows ≡ rows_after e s)
      × (x.1.next_seq ≡ seq_after e s)

  module _ (Q : Event → Reply → Type 0) where
    pub Did-nothing : (s : Store) (reply : Reply) → Q nothing reply → Did Q s (reply, s)
    unfolding Did rows_after seq_after IsAllowed
    Did-nothing s reply q = (nothing, tt, q, refl, refl)

    pub Did-one :
        (e : Event) (s s' : Store) (reply : Reply)
        → IsAllowed e s
        → Q e reply
        → s'.rows ≡ rows_after e s
        → s'.next_seq ≡ seq_after e s
        → Did Q s (reply, s')
    unfolding Did
    Did-one e s s' reply a q rows seq = (e, a, q, rows, seq)

    pub Did-if :
        (s : Store) (b : Bool) (x y : Reply × Store)
        → (b ≡ true → Did Q s x)
        → (b ≡ false → Did Q s y)
        → Did Q s (if b then x else y)
    Did-if s b x y f g = if-cases (Did Q s) b x y f g
