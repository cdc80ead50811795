-- ===== src/Phone/Throttle.antt =====
-- The limit of codes that are requested for one number.
use daeil_scholar.Prelude.{
  ℕ, ◌+◌, ◌-◌, ◌≤◌, ◌<◌, ◌≡◌, Bool, ◌&&◌, none, some, List, [], ◌∷◌, arith, leb, ltb, Bool-cases,
  inl, inr, subst,
}
use daeil_scholar.Prelude.Int.{ℤ}
use daeil_scholar.Prelude.Text.{Text, text_eq, text_eq→eq}
use daeil_scholar.Phone.Table.{
  Row, Store, bump, retire, verify, spend, count_rows, update_row, is_kept, count_recent_requests,
  is_requested_since,
}
use daeil_scholar.Phone.{phone_request_window, phone_requests_per_window}
use daeil_scholar.Phone.Trace.{Op, apply, run}
use daeil_scholar.Phone.Rows.{count_rows-lower, count_rows-keep, count_rows-same}
use daeil_scholar.Phone.Events.{
  Event, nothing, insert, wrong, right, spent, clean, retire_at, rows_after, IsAllowed, Did,
}
use daeil_scholar.Phone.Steps.{apply-Did}

-- Requested for the number in the window that starts at `since`.
abbrev pub is_requested_in : Text → ℕ → Row → Bool
is_requested_in phone since r =
    text_eq r.phone phone && leb since r.reg_date && ltb r.reg_date (since + phone_request_window)

abbrev pub IsThrottled : List Row → Type 0
IsThrottled rows =
    (phone : Text) (since : ℕ)
    → count_rows (is_requested_in phone since) rows ≤ phone_requests_per_window

insert-IsThrottled :
    (r : Row) (s : Store)
    → count_recent_requests r.phone (r.reg_date - phone_request_window) s
      < phone_requests_per_window
    → IsThrottled s.rows
    → IsThrottled (r ∷ s.rows)
unfolding count_rows count_recent_requests
insert-IsThrottled r s few ok phone since =
    let before = ok phone since in
    elim (Bool-cases (is_requested_in phone since r)) [
      | inr out ↦ rw out before
      | inl within ↦
          let same : r.phone ≡ phone = text_eq→eq r.phone phone (ground arith) in
          let at : since ≤ r.reg_date = ground arith in
          let soon : r.reg_date < since + phone_request_window = ground arith in
          let wider =
            count_rows-same (is_requested_in phone since)
              (is_requested_since phone (r.reg_date - phone_request_window)) s.rows
              (λ x h. ground arith) in
          let few' : count_rows (is_requested_since phone (r.reg_date - phone_request_window))
                s.rows
              < phone_requests_per_window =
            subst
              (λ p.
                count_rows (is_requested_since p (r.reg_date - phone_request_window)) s.rows
                < phone_requests_per_window)
              same few in
          rw within (omega (arith, wider, few'))
    ]

module _ (hash : Text → Text) where
  event-IsThrottled :
      (e : Event) (s : Store)
      → IsAllowed hash e s
      → IsThrottled s.rows
      → IsThrottled (rows_after hash e s)
  unfolding rows_after retire_at IsAllowed
  event-IsThrottled nothing s a ok = ok
  event-IsThrottled (insert id phone code_hash expires now) s a ok = insert-IsThrottled _ s a ok
  event-IsThrottled (wrong r id now none) s a ok = λ p t.
      omega (arith, ok p t, count_rows-lower (is_requested_in p t) r.seq bump s.rows (λ x h. h))
  event-IsThrottled (wrong r id now (some u)) s a ok = λ p t. omega (
    arith,
    ok p t,
    count_rows-lower (is_requested_in p t) r.seq bump s.rows (λ x h. h),
    count_rows-lower (is_requested_in p t) r.seq (retire u) (update_row r.seq bump s.rows)
        (λ x h. h),
  )
  event-IsThrottled (right r id now token expires) s a ok = λ p t. omega (
    arith,
    ok p t,
    count_rows-lower (is_requested_in p t) r.seq (verify (hash token) expires) s.rows (λ x h. h),
  )
  event-IsThrottled (spent r h now user) s a ok = λ p t. omega (
    arith,
    ok p t,
    count_rows-lower (is_requested_in p t) r.seq (spend user) s.rows (λ x g. ground arith),
  )
  event-IsThrottled (clean cutoff now) s a ok = λ p t.
      omega (arith, ok p t, count_rows-keep (is_requested_in p t) (is_kept cutoff now) s.rows)

  module _ (render : Text → Text) (review : List (Text × Text)) (members : ℤ → Text → Bool) where
    -- After any sequence of calls, one after the other, with any clock: if the table had at most five codes for each
    -- number in each hour, then it still has.
    pub run-IsThrottled :
        (os : List Op) (s : Store)
        → IsThrottled s.rows
        → IsThrottled (run hash render review members os s).rows
    unfolding run Did
    run-IsThrottled [] s ok = ok
    run-IsThrottled (o ∷ os) s ok =
        let (e, a, _, rows, _) = apply-Did hash render review members o s in
        run-IsThrottled os (apply hash render review members o s).1
          (rw rows (event-IsThrottled e s a ok))
