-- ===== src/Billing/Examples.antt =====
-- Two runs on the same day with one subscription, and a date of billing.
use daeil_scholar.Prelude.{
  ℕ, ◌+◌, ◌≤◌, ◌≡◌, refl, Bool, true, false, none, some, List, [], ◌∷◌, arith, ◌⊎◌, if◌then◌else◌,
}
use daeil_scholar.Prelude.Int.{ℤ, pos, eqb_ℤ}
use daeil_scholar.Prelude.Text.{Text, codes, parse_int}
use daeil_scholar.Billing.Data.{
  Date, active, Subscription, ApproveResult, Store, find_sub, update_sub, pay_order,
  list_due_for_billing,
}
use daeil_scholar.Billing.{
  Faults, PgReply, pg_error, pg_result, Run, clamp_day, is_after_a_day, compute_next_bill_date,
  days_in_month, process_one, process_all, run_once, run_all,
}
use daeil_scholar.Billing.Dates.{month_index, compute_next_bill_date_lem}
use daeil_scholar.Billing.Steps.{IsReliable}
use daeil_scholar.Billing.Once.{charges_for, IsOnce, run_all-once}

abbrev november : Date
november = record { year = 2026; month = 11; day = 15 }

abbrev no_faults : Faults
no_faults = record {
  order_fails = false;
  begin_fails = false;
  pg_insert_fails = false;
  order_update_fails = false;
  sub_update_fails = false;
  commit_fails = false;
  increment_fails = false;
  reread_fails = false;
  suspend_fails = false;
}

abbrev approval : ApproveResult
approval = record {
  res_code = codes "0000";
  res_msg = codes "";
  amount = codes "10000";
  cno = codes "c1";
  card_no = codes "1234";
  tran_date = codes "20261115";
  auth_no = codes "a1";
  pay_type = codes "11";
}

-- The provider approves 10,000 won and refuses any other amount.
abbrev provider : Text → ℕ → ℤ → PgReply
provider key order amount = if eqb_ℤ (pos 10000) amount then pg_result approval else pg_error

abbrev approves : Text → ℕ → ℤ → Bool
approves key order amount = eqb_ℤ (pos 10000) amount

abbrev daily : Run
daily = record {
  now = november;
  list_fails = false;
  faults = λ o. no_faults;
  pg = provider;
  books = approves;
}

abbrev donor : Subscription
donor = record {
  sub_seq = 1;
  usr_seq = 7;
  amount = pos 10000;
  pay_type = codes "CARD";
  billing_key = some (codes "key");
  status = active;
  next_bill = november;
  bill_day = some 15;
  end_yyyymm = none;
  last_billed_at = none;
  fail_count = 0;
}

abbrev store : Store
store = record {
  subs = donor ∷ [];
  orders = [];
  next_order = 1;
  pg_data = [];
  audit = [];
  charges = [];
  summary_refreshes = 0;
  cache_deletes = 0;
}

abbrev twice : List Run
twice = daily ∷ daily ∷ []

provider-approves :
    (b : Bool) (result : ApproveResult)
    → (if b then pg_result approval else pg_error) ≡ pg_result result
    → (b ≡ true) × (approval ≡ result)
provider-approves true result h = (refl, ground arith)
provider-approves false result h = absurd (cc)

provider-told :
    (b : Bool) → b ≡ true → (if b then pg_result approval else pg_error) ≡ pg_result approval
provider-told true h = refl
provider-told false h = absurd (cc)

daily-IsReliable : IsReliable daily
unfolding parse_int
daily-IsReliable = record {
  told = λ key order amount ok. (approval, provider-told (eqb_ℤ (pos 10000) amount) ok, refl, ok);
  booked = λ key order amount result said ok.
      (provider-approves (eqb_ℤ (pos 10000) amount) result said).0;
  begins = λ o. refl;
  inserts = λ o. refl;
  pays = λ o. refl;
  bills = λ o. refl;
  commits = λ o. refl;
}

store-IsOnce : IsOnce 202611 store
unfolding charges_for
store-IsOnce = ((omega arith, tt), λ k. (omega arith, λ bad. absurd (omega arith)))

-- The second run finds nothing due.
twice-charged : charges_for 1 202611 (run_all true twice store).charges ≡ 1
unfolding charges_for run_all run_once process_all process_one list_due_for_billing update_sub
    find_sub pay_order parse_int
twice-charged = refl

run_all-once_example : charges_for 1 202611 (run_all true twice store).charges ≤ 1
run_all-once_example =
    run_all-once 202611 true twice store 1
      ((daily-IsReliable, omega arith), ((daily-IsReliable, omega arith), tt)) store-IsOnce

-- The provider approves, and the reply is lost: the second run charges again.
abbrev timed_out : Run
timed_out = record {
  now = november;
  list_fails = false;
  faults = λ o. no_faults;
  pg = λ key order amount. pg_error;
  books = approves;
}

lost-charged : charges_for 1 202611 (run_all true (timed_out ∷ daily ∷ []) store).charges ≡ 2
unfolding charges_for run_all run_once process_all process_one list_due_for_billing update_sub
    find_sub pay_order parse_int
lost-charged = refl

compute_next_bill_date_lem_example :
    let next = compute_next_bill_date november 15 in
    (next.day ≡ clamp_day 15)
    × (is_after_a_day next november ≡ true)
    × ((month_index next ≡ month_index november + 1)
        ⊎ (month_index next ≡ month_index november + 2))
unfolding days_in_month
compute_next_bill_date_lem_example =
    compute_next_bill_date_lem november 15 (omega arith, omega arith, omega arith, omega arith)

-- From the end of January the next date lies in March.
february_skipped :
    (compute_next_bill_date (record { year = 2027; month = 1; day = 31 }) 15).month ≡ 3
unfolding compute_next_bill_date days_in_month
february_skipped = refl
