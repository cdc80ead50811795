-- ===== src/Billing.antt =====
-- The daily billing of subscriptions: backend/internal/job/subscription_billing.go, with
-- `ComputeNextBillDate` of backend/internal/service/subscription_activator.go. What the database and
-- the payment provider do in a run comes with the run.
pub mod Data
pub mod Dates
pub mod Subs
pub mod Steps
pub mod Once
mod Examples
use daeil_scholar.Prelude.{
  ℕ, suc, ◌+◌, ◌*◌, ◌-◌, ◌%◌, Bool, true, false, not, ◌&&◌, ◌||◌, Option, none, some, List, [], ◌∷◌,
  length, ltb, leb, ◌==◌, if◌then◌else◌,
}
use daeil_scholar.Prelude.Int.{ℤ, pos, eqb_ℤ}
use daeil_scholar.Prelude.Text.{Text, codes, text_eq, parse_int}
use daeil_scholar.Billing.Data.{
  Date, yyyymm, Subscription, Order, ApproveResult, PgData, Charge, AuditEntry, billing_fail,
  billing_success, amount_mismatch, tx_begin_fail, pg_insert_fail, order_update_fail,
  sub_update_fail, tx_commit_fail, billing_suspended, Store, update_sub, find_sub, pay_order,
  list_due_for_billing, billed, fail_once, suspend,
}

abbrev pub max_consecutive_fails : ℕ
max_consecutive_fails = 3

abbrev pub is_leap : ℕ → Bool
is_leap y = ((y % 4) == 0) && (not ((y % 100) == 0) || ((y % 400) == 0))

unfoldable pub days_in_month : ℕ → ℕ → ℕ
days_in_month y m =
    if m == 2
    then (if is_leap y then 29 else 28)
    else if m == 4 || m == 6 || m == 9 || m == 11
    then 30
    else 31

-- The year and the month after a month.
abbrev pub following : Date → Date
following d =
    if d.month == 12
    then record { year = d.year + 1; month = 1; day = d.day }
    else record d { month = d.month + 1 }

-- A day beyond the end of its month falls into the next one.
abbrev pub normal_date : Date → Date
normal_date d =
    if ltb (days_in_month d.year d.month) d.day
    then record (following d) { day = d.day - days_in_month d.year d.month }
    else d

-- `AddDate(0, 1, 0)`
abbrev pub add_month : Date → Date
add_month d = normal_date (following d)

abbrev pub clamp_day : ℕ → ℕ
clamp_day d = if ltb d 1 then 1 else if ltb 28 d then 28 else d

abbrev pub is_later : Date → Date → Bool
is_later c d = ltb (yyyymm d) (yyyymm c) || ((yyyymm d) == (yyyymm c) && ltb d.day c.day)

abbrev pub day_after : Date → Date
day_after d = normal_date (record d { day = d.day + 1 })

-- Midnight of `candidate` is after the same time on the day after `from`: it falls on a later day
-- than that one, and `from` is not before its own midnight.
abbrev pub is_after_a_day : Date → Date → Bool
is_after_a_day candidate from = is_later candidate (day_after from)

unfoldable pub compute_next_bill_date : Date → ℕ → Date
compute_next_bill_date from bill_day =
    let candidate = record (add_month from) { day = clamp_day bill_day } in
    if not (is_after_a_day candidate from) then add_month candidate else candidate

pub data PgReply : Type 0 where
  pg_panic pg_error : PgReply
  pg_result : ApproveResult → PgReply

-- Which database calls fail while one subscription is charged.
pub record Faults : Type 0 where
  pub order_fails : Bool
  pub begin_fails : Bool
  pub pg_insert_fails : Bool
  pub order_update_fails : Bool
  pub sub_update_fails : Bool
  pub commit_fails : Bool
  pub increment_fails : Bool
  pub reread_fails : Bool
  pub suspend_fails : Bool

-- `pg` is what comes back from the provider for a billing key, an order and an amount, and `books`
-- whether it approved the charge in its own books. The two are apart: `AutoBilling` of
-- backend/internal/service/easypay_service.go gives up after 30 seconds, before or after that.
pub record Run : Type 0 where
  pub now : Date
  pub list_fails : Bool
  pub faults : ℕ → Faults
  pub pg : Text → ℕ → ℤ → PgReply
  pub books : Text → ℕ → ℤ → Bool

abbrev pub approved_code : Text
approved_code = codes "0000"

-- `approvedAmount, _ := strconv.Atoi(...)`
abbrev pub amount_of : Option ℤ → ℤ
amount_of none = pos 0
amount_of (some n) = n

abbrev pub log : AuditEntry → Store → Store
log e s = record s { audit = e ∷ s.audit }

abbrev pub after_fail_count : Subscription → Faults → Store → Option Subscription → Store
after_fail_count sub f s none = s
after_fail_count sub f s (some r) =
    if f.reread_fails || not (leb max_consecutive_fails r.fail_count) || f.suspend_fails
    then s
    else log (billing_suspended sub.sub_seq)
        (record s { subs = update_sub sub.sub_seq suspend s.subs })

abbrev pub handle_failure : Subscription → Faults → Store → Store
handle_failure sub f s =
    if f.increment_fails
    then s
    else let s' = record s { subs = update_sub sub.sub_seq fail_once s.subs } in
      after_fail_count sub f s' (find_sub sub.sub_seq s'.subs)

-- `int(sub.BillDay.Int64)`
abbrev pub day_of : Option ℕ → ℕ
day_of none = 0
day_of (some d) = d

-- What one subscription made of the store, and whether there was an error.
abbrev pub commit_charge_tx :
    Subscription → Run → Faults → ℕ → ApproveResult → ℤ → Store → Bool × Store
commit_charge_tx sub run f order result amount s =
    if f.begin_fails
    then (true, handle_failure sub f (log (tx_begin_fail order) s))
    else if f.pg_insert_fails
    then (true, handle_failure sub f (log (pg_insert_fail order) s))
    else if f.order_update_fails
    then (true, handle_failure sub f (log (order_update_fail order) s))
    else if f.sub_update_fails
    then (true, handle_failure sub f (log (sub_update_fail order) s))
    else if f.commit_fails
    then (true, handle_failure sub f (log (tx_commit_fail order) s))
    else (
      false,
      record s {
        pg_data = record { result = result; amount = amount; o_seq = order } ∷ s.pg_data;
        orders = pay_order order amount (suc (length s.pg_data)) s.orders;
        subs =
            update_sub sub.sub_seq
              (billed run.now (compute_next_bill_date run.now (day_of sub.bill_day))) s.subs;
      },
    )

abbrev pub check_amount : Subscription → Run → Faults → ℕ → ApproveResult → Store → Bool × Store
check_amount sub run f order result s =
    let amount = amount_of (parse_int result.amount) in
    if not (eqb_ℤ amount sub.amount)
    then (true, handle_failure sub f (log (amount_mismatch order) s))
    else commit_charge_tx sub run f order result amount s

-- The provider's books after the call.
abbrev pub charged_if : Bool → Subscription → Run → ℕ → Store → Store
charged_if false sub run order s = s
charged_if true sub run order s = record s {
  charges = record { sub_seq = sub.sub_seq; month = yyyymm run.now; o_seq = order } ∷ s.charges;
}

abbrev pub take_reply : Subscription → Run → Faults → ℕ → PgReply → Store → Bool × Store
take_reply sub run f order pg_panic s = (true, s)
take_reply sub run f order pg_error s = (true, handle_failure sub f (log (billing_fail order) s))
take_reply sub run f order (pg_result result) s =
    if not (text_eq result.res_code approved_code)
    then (true, handle_failure sub f (log (billing_fail order) s))
    else check_amount sub run f order result (log (billing_success order) s)

abbrev pub insert_order : Subscription → Store → Store
insert_order sub s = record s {
  orders =
      record {
        o_seq = s.next_order;
        usr_seq = sub.usr_seq;
        pay_type = sub.pay_type;
        price = sub.amount;
        payment = false;
        pay = pos 0;
        pg_seq = 0;
      }
      ∷ s.orders;
  next_order = suc s.next_order;
}

abbrev pub process_key : Subscription → Run → Option Text → Store → Bool × Store
process_key sub run none s = (true, s)
process_key sub run (some key) s =
    if text_eq key [] || (run.faults s.next_order).order_fails
    then (true, s)
    else take_reply sub run (run.faults s.next_order) s.next_order
        (run.pg key s.next_order sub.amount)
        (charged_if (run.books key s.next_order sub.amount) sub run s.next_order
          (insert_order sub s))

unfoldable pub process_one : Subscription → Run → Store → Bool × Store
process_one sub run s = process_key sub run sub.billing_key s

-- The loop over the subscriptions that are due, with the number processed.
unfoldable pub process_all : List Subscription → Run → ℕ → Store → ℕ × Store
process_all [] run n s = (n, s)
process_all (sub ∷ subs) run n s =
    let x = process_one sub run s in process_all subs run (if x.0 then n else suc n) x.1

abbrev pub run_day : Date → ℕ
run_day now = if ltb 28 now.day then 28 else now.day

-- `has_summary` says that a summary refresher is wired in.
unfoldable pub run_once : Bool → Run → Store → ℕ × Store
run_once has_summary run s =
    if run.list_fails
    then (0, s)
    else let x = process_all (list_due_for_billing (run_day run.now) (yyyymm run.now) s) run 0 s in
      if ltb 0 x.0
      then (
        x.0,
        if has_summary
            then record x.1 { summary_refreshes = suc x.1.summary_refreshes }
            else record x.1 { cache_deletes = suc x.1.cache_deletes },
      )
      else x

unfoldable pub run_all : Bool → List Run → Store → Store
run_all has_summary [] s = s
run_all has_summary (r ∷ rs) s = run_all has_summary rs (run_once has_summary r s).1
