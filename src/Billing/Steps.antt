-- ===== src/Billing/Steps.antt =====
-- What the charge of one subscription does to the table and to the provider's books, when the
-- database takes what the provider approved.
use daeil_scholar.Prelude.{
  ℕ, ◌≤◌, ◌≡◌, refl, sym, subst, Bool, true, false, not, ◌||◌, Option, none, some, [], ◌∷◌, arith,
  leb, inl, inr, ◌⊎◌, if-cases, ap, ◌∙◌,
}
use daeil_scholar.Prelude.Int.{ℤ, eqb_ℤ}
use daeil_scholar.Prelude.Text.{Text, text_eq, parse_int}
use daeil_scholar.Billing.Data.{
  yyyymm, Subscription, ApproveResult, AuditEntry, billing_fail, billing_success, Store, update_sub,
  find_sub, is_unbilled, billed, fail_once, suspend,
}
use daeil_scholar.Billing.{
  max_consecutive_fails, PgReply, pg_panic, pg_error, pg_result, Faults, Run, approved_code,
  amount_of, log, handle_failure, after_fail_count, check_amount, charged_if, take_reply,
  insert_order, process_key, process_one, compute_next_bill_date, day_of,
}
use daeil_scholar.Billing.Subs.{IsAscending, IsAscending-update, find_sub-update}

-- What the provider approves comes back as the approval of the amount that it was asked for, and
-- nothing else comes back as an approval; what it approved is written down.
pub record IsReliable (run : Run) : Type 0 where
  pub told :
      (key : Text) (order : ℕ) (amount : ℤ)
      → run.books key order amount ≡ true
      → (result : ApproveResult) × (run.pg key order amount ≡ pg_result result)
        × (text_eq result.res_code approved_code ≡ true)
        × (eqb_ℤ (amount_of (parse_int result.amount)) amount ≡ true)
  pub booked :
      (key : Text) (order : ℕ) (amount : ℤ) (result : ApproveResult)
      → run.pg key order amount ≡ pg_result result
      → text_eq result.res_code approved_code ≡ true
      → run.books key order amount ≡ true
  pub begins : (o : ℕ) → (run.faults o).begin_fails ≡ false
  pub inserts : (o : ℕ) → (run.faults o).pg_insert_fails ≡ false
  pub pays : (o : ℕ) → (run.faults o).order_update_fails ≡ false
  pub bills : (o : ℕ) → (run.faults o).sub_update_fails ≡ false
  pub commits : (o : ℕ) → (run.faults o).commit_fails ≡ false

-- The subscription is billed for the month, or a later one.
abbrev pub IsBilled : ℕ → ℕ → Store → Type 0
IsBilled k month s =
    (r : Subscription) → find_sub k s.subs ≡ some r → is_unbilled month r.last_billed_at ≡ false

-- Nothing was charged, and nothing became unbilled.
pub record IsQuiet (s s' : Store) : Type 0 where
  pub same : s'.charges ≡ s.charges
  pub keeps : (k month : ℕ) → IsBilled k month s → IsBilled k month s'
  pub ordered : IsAscending 0 s.subs → IsAscending 0 s'.subs

-- The subscription `j` was charged once in the month `n`, and is billed for it.
pub record IsPaid (j n : ℕ) (s s' : Store) : Type 0 where
  pub order : ℕ
  pub more : s'.charges ≡ record { sub_seq = j; month = n; o_seq = order } ∷ s.charges
  pub keeps : (k month : ℕ) → month ≤ n → IsBilled k month s → IsBilled k month s'
  pub bills : (month : ℕ) → month ≤ n → IsBilled j month s'
  pub ordered : IsAscending 0 s.subs → IsAscending 0 s'.subs

IsBilled-update :
    (k j month : ℕ) (f : Subscription → Subscription) (s s' : Store)
    → s'.subs ≡ update_sub j f s.subs
    → ((r : Subscription) → (f r).sub_seq ≡ r.sub_seq)
    → ((r : Subscription)
        → is_unbilled month r.last_billed_at ≡ false
        → is_unbilled month (f r).last_billed_at ≡ false)
    → IsBilled k month s
    → IsBilled k month s'
IsBilled-update k j month f s s' is same step h r' found =
    let (r, at, cases) = find_sub-update k j f s.subs r' same (sym (ap (find_sub k) is) ∙ found) in
    elim cases [
      | inl (e, _) ↦ subst (λ x. is_unbilled month x.last_billed_at ≡ false) e (h r at)
      | inr (e, _) ↦ subst (λ x. is_unbilled month x.last_billed_at ≡ false) e (step r (h r at))
    ]

IsQuiet-update :
    (j : ℕ) (f : Subscription → Subscription) (s s' : Store)
    → s'.subs ≡ update_sub j f s.subs
    → s'.charges ≡ s.charges
    → ((r : Subscription) → (f r).sub_seq ≡ r.sub_seq)
    → ((r : Subscription) → (f r).last_billed_at ≡ r.last_billed_at)
    → IsQuiet s s'
IsQuiet-update j f s s' subs charges same last = record {
  same = charges;
  keeps = λ k month h.
      IsBilled-update k j month f s s' subs same (λ r u. ap (is_unbilled month) (last r) ∙ u) h;
  ordered = λ a. rw subs (IsAscending-update j 0 f s.subs same a);
}

IsQuiet-none : (s s' : Store) → s'.subs ≡ s.subs → s'.charges ≡ s.charges → IsQuiet s s'
IsQuiet-none s s' subs charges = record {
  same = charges;
  keeps = λ k month h r found. h r (sym (ap (find_sub k) subs) ∙ found);
  ordered = λ a. rw subs a;
}

IsQuiet-trans : (s t u : Store) → IsQuiet s t → IsQuiet t u → IsQuiet s u
IsQuiet-trans s t u p q = record {
  same = q.same ∙ p.same;
  keeps = λ k month h. q.keeps k month (p.keeps k month h);
  ordered = λ a. q.ordered (p.ordered a);
}

after_fail_count-IsQuiet :
    (sub : Subscription) (f : Faults) (s : Store) (o : Option Subscription)
    → IsQuiet s (after_fail_count sub f s o)
after_fail_count-IsQuiet sub f s none = IsQuiet-none s s refl refl
after_fail_count-IsQuiet sub f s (some r) =
    if-cases (IsQuiet s)
      (f.reread_fails || not (leb max_consecutive_fails r.fail_count) || f.suspend_fails) _ _
      (λ _. IsQuiet-none s s refl refl)
      (λ _. IsQuiet-update sub.sub_seq suspend s _ refl refl (λ r. refl) (λ r. refl))

handle_failure-IsQuiet :
    (sub : Subscription) (f : Faults) (s : Store) → IsQuiet s (handle_failure sub f s)
handle_failure-IsQuiet sub f s =
    let s' = record s { subs = update_sub sub.sub_seq fail_once s.subs } in
    let counted : IsQuiet s s' =
      IsQuiet-update sub.sub_seq fail_once s s' refl refl (λ r. refl) (λ r. refl) in
    if-cases (IsQuiet s) f.increment_fails _ _ (λ _. IsQuiet-none s s refl refl)
      (λ _.
        IsQuiet-trans s s' _ counted
          (after_fail_count-IsQuiet sub f s' (find_sub sub.sub_seq s'.subs)))

logged-IsQuiet :
    (sub : Subscription) (f : Faults) (e : AuditEntry) (s : Store)
    → IsQuiet s (handle_failure sub f (log e s))
logged-IsQuiet sub f e s =
    IsQuiet-trans s (log e s) _ (IsQuiet-none s (log e s) refl refl)
      (handle_failure-IsQuiet sub f (log e s))

abbrev pub IsCharged : Subscription → Run → Store → Bool × Store → Type 0
IsCharged sub run s x = IsQuiet s x.1 ⊎ IsPaid sub.sub_seq (yyyymm run.now) s x.1

committed-IsPaid :
    (sub : Subscription) (run : Run) (o : ℕ) (result : ApproveResult) (s : Store)
    → IsReliable run
    → eqb_ℤ (amount_of (parse_int result.amount)) sub.amount ≡ true
    → IsPaid sub.sub_seq
        (yyyymm run.now)
        s
        (check_amount sub run
          (run.faults o)
          o
          result
          (log (billing_success o) (charged_if true sub run o s))).1
committed-IsPaid sub run o result s w right =
    let next = compute_next_bill_date run.now (day_of sub.bill_day) in
    rw (right, w.begins o, w.inserts o, w.pays o, w.bills o, w.commits o)
      (record {
        order = o;
        more = refl;
        keeps = λ k month le h.
            IsBilled-update k sub.sub_seq month (billed run.now next) s
              (record s { subs = update_sub sub.sub_seq (billed run.now next) s.subs }) refl
              (λ r. refl) (λ r u. ground arith) h;
        bills = λ month le r' found.
            let (r, _, cases) =
              find_sub-update sub.sub_seq sub.sub_seq (billed run.now next) s.subs r' (λ x. refl)
                found in
            elim cases [
              | inl (_, other) ↦ absurd (other refl)
              | inr (e, _) ↦
                  subst (λ x. is_unbilled month x.last_billed_at ≡ false) e (ground arith)
            ];
        ordered = λ a. IsAscending-update sub.sub_seq 0 (billed run.now next) s.subs (λ r. refl) a;
      })

result-eq : (p : PgReply) (q r : ApproveResult) → p ≡ pg_result q → p ≡ pg_result r → q ≡ r
result-eq p q r h k = cc

-- A reply, after the provider has charged or not.
take_reply-IsCharged :
    (b : Bool) (sub : Subscription) (run : Run) (key : Text) (o : ℕ) (reply : PgReply) (s : Store)
    → IsReliable run
    → run.books key o sub.amount ≡ b
    → run.pg key o sub.amount ≡ reply
    → IsCharged sub run s (take_reply sub run (run.faults o) o reply (charged_if b sub run o s))
take_reply-IsCharged false sub run key o pg_panic s w books said = inl (IsQuiet-none s s refl refl)
take_reply-IsCharged false sub run key o pg_error s w books said =
    inl (logged-IsQuiet sub (run.faults o) (billing_fail o) s)
take_reply-IsCharged false sub run key o (pg_result result) s w books said =
    if-cases (IsCharged sub run s) (not (text_eq result.res_code approved_code)) _ _
      (λ _. inl (logged-IsQuiet sub (run.faults o) (billing_fail o) s))
      (λ ok. let booked = w.booked key o sub.amount result said (ground arith) in absurd (cc))
take_reply-IsCharged true sub run key o pg_panic s w books said =
    let (r, is, _, _) = w.told key o sub.amount books in absurd (cc)
take_reply-IsCharged true sub run key o pg_error s w books said =
    let (r, is, _, _) = w.told key o sub.amount books in absurd (cc)
take_reply-IsCharged true sub run key o (pg_result result) s w books said =
    let (r, is, code, right) = w.told key o sub.amount books in
    let same = result-eq (run.pg key o sub.amount) r result is said in
    if-cases (IsCharged sub run s) (not (text_eq result.res_code approved_code)) _ _
      (λ other.
        let ok = subst (λ q. text_eq q.res_code approved_code ≡ true) same code in
        absurd (ground arith))
      (λ _. inr (
        committed-IsPaid sub run o result s w
          (subst (λ q. eqb_ℤ (amount_of (parse_int q.amount)) sub.amount ≡ true) same right)))

IsCharged-after :
    (sub : Subscription) (run : Run) (s t : Store) (x : Bool × Store)
    → t.subs ≡ s.subs
    → t.charges ≡ s.charges
    → IsCharged sub run t x
    → IsCharged sub run s x
IsCharged-after sub run s t x subs charges (inl quiet) =
    inl (IsQuiet-trans s t x.1 (IsQuiet-none s t subs charges) quiet)
IsCharged-after sub run s t x subs charges (inr paid) =
    let before = IsQuiet-none s t subs charges in
    inr (record {
      order = paid.order;
      more =
          paid.more
          ∙ ap
              (λ c.
                record { sub_seq = sub.sub_seq; month = yyyymm run.now; o_seq = paid.order } ∷ c)
              charges;
      keeps = λ k month le h. paid.keeps k month le (before.keeps k month h);
      bills = paid.bills;
      ordered = λ a. paid.ordered (before.ordered a);
    })

process_key-IsCharged :
    (sub : Subscription) (run : Run) (key : Option Text) (s : Store)
    → IsReliable run
    → IsCharged sub run s (process_key sub run key s)
process_key-IsCharged sub run none s w = inl (IsQuiet-none s s refl refl)
process_key-IsCharged sub run (some key) s w =
    if-cases (IsCharged sub run s) (text_eq key [] || (run.faults s.next_order).order_fails) _ _
      (λ _. inl (IsQuiet-none s s refl refl))
      (λ _.
        IsCharged-after sub run s (insert_order sub s)
          (take_reply sub run (run.faults s.next_order) s.next_order
            (run.pg key s.next_order sub.amount)
            (charged_if (run.books key s.next_order sub.amount) sub run s.next_order
              (insert_order sub s)))
          refl refl
          (take_reply-IsCharged (run.books key s.next_order sub.amount) sub run key s.next_order
            (run.pg key s.next_order sub.amount) (insert_order sub s) w refl refl))

-- One subscription is charged once, and then billed for the month, or not at all.
pub process_one-IsCharged :
    (sub : Subscription) (run : Run) (s : Store)
    → IsReliable run
    → IsCharged sub run s (process_one sub run s)
unfolding process_one
process_one-IsCharged sub run s w = process_key-IsCharged sub run sub.billing_key s w
