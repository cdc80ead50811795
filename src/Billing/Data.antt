-- ===== src/Billing/Data.antt =====
-- The tables that the billing of subscriptions reads and writes: SUBSCRIPTION of
-- backend/internal/model/subscription.go and repository/subscription_repo.go, and WEO_ORDER and
-- WEO_PG_DATA of repository/donate_repo.go.
use daeil_scholar.Prelude.{
  ℕ, ◌+◌, ◌*◌, Bool, true, false, not, ◌&&◌, Option, none, some, List, [], ◌∷◌, ltb, leb, keep,
  ◌==◌, if◌then◌else◌,
}
use daeil_scholar.Prelude.Int.{ℤ}
use daeil_scholar.Prelude.Text.{Text}

pub record Date : Type 0 where
  pub year : ℕ
  pub month : ℕ
  pub day : ℕ

-- `Format("200601")`, whose texts of six digits are ordered as these numbers are.
abbrev pub yyyymm : Date → ℕ
yyyymm d = d.year * 100 + d.month

pub data Status : Type 0 where
  pending active failed suspended cancelled : Status

abbrev pub is_active : Status → Bool
is_active active = true
is_active _ = false

pub record Subscription : Type 0 where
  pub sub_seq : ℕ
  pub usr_seq : ℕ
  pub amount : ℤ
  pub pay_type : Text
  pub billing_key : Option Text
  pub status : Status
  pub next_bill : Date
  pub bill_day : Option ℕ
  pub end_yyyymm : Option ℕ
  pub last_billed_at : Option Date
  pub fail_count : ℕ

pub record Order : Type 0 where
  pub o_seq : ℕ
  pub usr_seq : ℕ
  pub pay_type : Text
  pub price : ℤ
  pub payment : Bool
  pub pay : ℤ
  pub pg_seq : ℕ

pub record ApproveResult : Type 0 where
  pub res_code : Text
  pub res_msg : Text
  pub amount : Text
  pub cno : Text
  pub card_no : Text
  pub tran_date : Text
  pub auth_no : Text
  pub pay_type : Text

pub record PgData : Type 0 where
  pub result : ApproveResult
  pub amount : ℤ
  pub o_seq : ℕ

-- An approval in the books of the payment provider.
pub record Charge : Type 0 where
  pub sub_seq : ℕ
  pub month : ℕ
  pub o_seq : ℕ

-- The audit entries, by the order or the subscription.
pub data AuditEntry : Type 0 where
  billing_fail billing_success amount_mismatch tx_begin_fail pg_insert_fail : ℕ → AuditEntry
  order_update_fail sub_update_fail tx_commit_fail billing_suspended : ℕ → AuditEntry

-- The subscriptions by ascending key; the other lists have the newest first.
pub record Store : Type 0 where
  pub subs : List Subscription
  pub orders : List Order
  pub next_order : ℕ
  pub pg_data : List PgData
  pub audit : List AuditEntry
  pub charges : List Charge
  pub summary_refreshes : ℕ
  pub cache_deletes : ℕ

-- `WHERE SUB_SEQ = ?`
unfoldable pub update_sub :
    ℕ → (Subscription → Subscription) → List Subscription → List Subscription
update_sub k f [] = []
update_sub k f (r ∷ rs) =
    let rest = update_sub k f rs in if r.sub_seq == k then f r ∷ rest else r ∷ rest

unfoldable pub find_sub : ℕ → List Subscription → Option Subscription
find_sub k [] = none
find_sub k (r ∷ rs) = let rest = find_sub k rs in if r.sub_seq == k then some r else rest

-- `WHERE O_SEQ = ? AND O_PAYMENT = 'N'`
unfoldable pub pay_order : ℕ → ℤ → ℕ → List Order → List Order
pay_order k amount pg [] = []
pay_order k amount pg (o ∷ os) =
    let rest = pay_order k amount pg os in
    if o.o_seq == k && not o.payment
    then record o { payment = true; pay = amount; pg_seq = pg } ∷ rest
    else o ∷ rest

abbrev pub is_day : ℕ → Option ℕ → Bool
is_day d none = false
is_day d (some k) = k == d

abbrev pub is_open : ℕ → Option ℕ → Bool
is_open month none = true
is_open month (some last) = leb month last

abbrev pub is_unbilled : ℕ → Option Date → Bool
is_unbilled month none = true
is_unbilled month (some at) = ltb (yyyymm at) month

abbrev pub is_due : ℕ → ℕ → Subscription → Bool
is_due day month r =
    is_active r.status
    && is_day day r.bill_day
    && is_open month r.end_yyyymm
    && is_unbilled month r.last_billed_at

unfoldable pub list_due_for_billing : ℕ → ℕ → Store → List Subscription
list_due_for_billing day month s = keep (is_due day month) s.subs

abbrev pub billed : Date → Date → Subscription → Subscription
billed at next r = record r { last_billed_at = some at; next_bill = next; fail_count = 0 }

abbrev pub fail_once : Subscription → Subscription
fail_once r = record r { fail_count = r.fail_count + 1 }

abbrev pub suspend : Subscription → Subscription
suspend r = record r { status = suspended }
