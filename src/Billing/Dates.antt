-- ===== src/Billing/Dates.antt =====
-- The next date of billing.
use daeil_scholar.Prelude.{
  ℕ, ◌+◌, ◌*◌, ◌-◌, ◌≤◌, ◌<◌, ◌≡◌, refl, true, false, not, arith, ltb, ◌==◌, if◌then◌else◌,
  Bool-cases, inl, inr, ◌⊎◌,
}
use daeil_scholar.Billing.Data.{Date}
use daeil_scholar.Billing.{
  days_in_month, is_leap, following, normal_date, add_month, clamp_day, is_later, day_after,
  is_after_a_day, compute_next_bill_date,
}

-- A date of the calendar.
abbrev pub IsDate : Date → Type 0
IsDate d = (1 ≤ d.month) × (d.month ≤ 12) × (1 ≤ d.day) × (d.day ≤ days_in_month d.year d.month)

-- The number of the month, counted through the years.
abbrev pub month_index : Date → ℕ
month_index d = d.year * 12 + d.month

days_in_month-bounds : (y m : ℕ) → (28 ≤ days_in_month y m) × (days_in_month y m ≤ 31)
unfolding days_in_month
days_in_month-bounds y m = elim (Bool-cases (m == 2)) [
  | inl feb ↦ elim (Bool-cases (is_leap y)) [
    | inl leap ↦ rw (feb, leap) (omega arith, omega arith)
    | inr short ↦ rw (feb, short) (omega arith, omega arith)
  ]
  | inr other ↦ ground arith
]

following-index :
    (d : Date)
    → 1 ≤ d.month
    → d.month ≤ 12
    → (month_index (following d) ≡ month_index d + 1)
      × (1 ≤ (following d).month)
      × ((following d).month ≤ 12)
      × ((following d).day ≡ d.day)
following-index d lo hi = (ground arith, ground arith, ground arith, ground arith)

normal_date-index :
    (d : Date)
    → 1 ≤ d.month
    → d.month ≤ 12
    → 1 ≤ d.day
    → (1 ≤ (normal_date d).month)
      × ((normal_date d).month ≤ 12)
      × (1 ≤ (normal_date d).day)
      × (((d.day ≤ days_in_month d.year d.month)
            × (month_index (normal_date d) ≡ month_index d)
            × ((normal_date d).day ≡ d.day))
          ⊎ ((days_in_month d.year d.month < d.day)
              × (month_index (normal_date d) ≡ month_index d + 1)
              × ((normal_date d).day ≡ d.day - days_in_month d.year d.month)))
normal_date-index d lo hi one =
    let (index, from, to, _) = following-index d lo hi in
    elim (Bool-cases (ltb (days_in_month d.year d.month) d.day)) [
      | inl past ↦ rw past (from, to, ground arith, inr (ground arith, index, refl))
      | inr within ↦ rw within (lo, hi, one, inl (ground arith, refl, refl))
    ]

abbrev IsLater : Date → Date → Type 0
IsLater c d = (month_index d < month_index c) ⊎ ((month_index d ≡ month_index c) × (d.day < c.day))

is_later-IsLater :
    (c d : Date)
    → 1 ≤ c.month
    → c.month ≤ 12
    → 1 ≤ d.month
    → d.month ≤ 12
    → IsLater c d
    → is_later c d ≡ true
is_later-IsLater c d h i j k later = ground arith

not_later-IsLater :
    (c d : Date)
    → 1 ≤ c.month
    → c.month ≤ 12
    → 1 ≤ d.month
    → d.month ≤ 12
    → is_later c d ≡ false
    → (month_index c ≤ month_index d)
not_later-IsLater c d h i j k early = ground arith

-- The choice between the candidate and the month after it.
chosen_date :
    (from n c : Date)
    → 1 ≤ n.month
    → n.month ≤ 12
    → 1 ≤ c.month
    → c.month ≤ 12
    → 1 ≤ c.day
    → c.day ≤ 28
    → month_index n ≤ month_index from + 1
    → (month_index c ≡ month_index from + 1) ⊎ (month_index c ≡ month_index from + 2)
    → let next = if not (is_later c n) then add_month c else c in
      (next.day ≡ c.day)
      × (is_later next n ≡ true)
      × ((month_index next ≡ month_index from + 1) ⊎ (month_index next ≡ month_index from + 2))
chosen_date from n c nlo nhi clo chi one few near ahead = elim (Bool-cases (is_later c n)) [
  | inl later ↦ rw later (refl, later, ahead)
  | inr early ↦
      let close = not_later-IsLater c n clo chi nlo nhi early in
      let (index, flo, fhi, same) = following-index c clo chi in
      let (alo, ahi, _, cases) = normal_date-index (following c) flo fhi (omega arith) in
      let (long, _) = days_in_month-bounds (following c).year (following c).month in
      elim cases [
        | inr (past, _, _) ↦ absurd (omega arith)
        | inl (_, stays, day) ↦
            let later : is_later (add_month c) n ≡ true =
              is_later-IsLater (add_month c) n alo ahi nlo nhi (inl (omega arith)) in
            rw early (omega arith, later, inr (omega arith))
      ]
]

-- From any date of the calendar and for any day, the next date falls on that day, moved into 1 to
-- 28, is later than the same time on the day after, and lies one or two months ahead.
pub compute_next_bill_date_lem :
    (from : Date) (bill_day : ℕ)
    → IsDate from
    → let next = compute_next_bill_date from bill_day in
      (next.day ≡ clamp_day bill_day)
      × (is_after_a_day next from ≡ true)
      × ((month_index next ≡ month_index from + 1) ⊎ (month_index next ≡ month_index from + 2))
unfolding compute_next_bill_date
compute_next_bill_date_lem from bill_day (lo, hi, one, last) =
    let (nlo, nhi, _, ncases) =
      normal_date-index (record from { day = from.day + 1 }) lo hi (omega arith) in
    let (index, flo, fhi, same) = following-index from lo hi in
    let (alo, ahi, _, acases) = normal_date-index (following from) flo fhi (omega arith) in
    let soon : month_index (day_after from) ≤ month_index from + 1 = elim ncases [
      | inl (_, e, _) ↦ omega arith
      | inr (_, e, _) ↦ omega arith
    ] in
    chosen_date from (day_after from) (record (add_month from) { day = clamp_day bill_day }) nlo nhi
      alo ahi (ground arith) (ground arith) soon
      (elim acases [ inl (_, e, _) ↦ inl (omega arith) | inr (_, e, _) ↦ inr (omega arith) ])
