-- ===== src/Billing/Once.antt =====
-- No subscription is charged twice for a month.
use daeil_scholar.Prelude.{
  ℕ, suc, ◌+◌, ◌≤◌, ◌≡◌, ◌≢◌, refl, sym, subst, Bool, true, ◌&&◌, some, List, [], ◌∷◌, arith, All,
  keep, ltb, leb, ◌==◌, if◌then◌else◌, Bool-cases, inl, inr, ◌⊎◌, if-cases, ap, ◌∙◌,
}
use daeil_scholar.Billing.Data.{
  yyyymm, Subscription, Charge, Store, find_sub, is_due, list_due_for_billing,
}
use daeil_scholar.Billing.{Run, process_one, process_all, run_day, run_once, run_all}
use daeil_scholar.Billing.Subs.{
  IsAscending, IsAscending-keep, IsAscending-weaken, find_sub-All, All-kept,
}
use daeil_scholar.Billing.Steps.{IsReliable, IsBilled, IsCharged, process_one-IsCharged}

-- The approvals for the subscription `k` in a month.
unfoldable pub charges_for : ℕ → ℕ → List Charge → ℕ
charges_for k month [] = 0
charges_for k month (c ∷ cs) =
    let rest = charges_for k month cs in
    if c.sub_seq == k && c.month == month then suc rest else rest

-- At most one charge for the month, and one only if the subscription is billed for it.
abbrev pub IsOnce : ℕ → Store → Type 0
IsOnce month s =
    IsAscending 0 s.subs
    × ((k : ℕ)
        → (charges_for k month s.charges ≤ 1)
          × (1 ≤ charges_for k month s.charges → IsBilled k month s))

-- The subscription may be charged at `n` without a second charge for `month`.
abbrev IsFresh : ℕ → ℕ → Store → Subscription → Type 0
IsFresh month n s sub = n ≡ month → charges_for sub.sub_seq month s.charges ≡ 0

charges_for-more :
    (k j month n o : ℕ) (cs : List Charge)
    → (((j ≡ k) × (n ≡ month))
        × (charges_for k month (record { sub_seq = j; month = n; o_seq = o } ∷ cs)
            ≡ charges_for k month cs + 1))
      ⊎ (((j ≢ k) ⊎ (n ≢ month))
          × (charges_for k month (record { sub_seq = j; month = n; o_seq = o } ∷ cs)
              ≡ charges_for k month cs))
unfolding charges_for
charges_for-more k j month n o cs = elim (Bool-cases (j == k)) [
  | inl same ↦ elim (Bool-cases (n == month)) [
    | inl now ↦ rw (same, now) (inl ((ground arith, ground arith), omega arith))
    | inr then_ ↦ rw (same, then_) (inr (inr (ground arith), refl))
  ]
  | inr other ↦ rw other (inr (inl (ground arith), refl))
]

charged-IsOnce :
    (month : ℕ) (sub : Subscription) (run : Run) (s : Store) (x : Bool × Store)
    → month ≤ yyyymm run.now
    → IsFresh month (yyyymm run.now) s sub
    → IsOnce month s
    → IsCharged sub run s x
    → IsOnce month x.1
      × ((k : ℕ)
          → k ≢ sub.sub_seq
          → charges_for k month x.1.charges ≡ charges_for k month s.charges)
charged-IsOnce month sub run s x le fresh (up, once) (inl quiet) = (
  (
    quiet.ordered up,
    λ k. rw quiet.same ((once k).0, λ some_charge. quiet.keeps k month ((once k).1 some_charge)),
  ),
  λ k other. ap (charges_for k month) quiet.same,
)
charged-IsOnce month sub run s x le fresh (up, once) (inr paid) =
    let n = yyyymm run.now in
    (
      (
        paid.ordered up,
        λ k. rw paid.more (elim (charges_for-more k sub.sub_seq month n paid.order s.charges) [
          | inl ((same, now), more) ↦
              let zero_before : charges_for k month s.charges ≡ 0 =
                subst (λ j. charges_for j month s.charges ≡ 0) same (fresh now) in
              (omega arith, λ _. subst (λ j. IsBilled j month x.1) same (paid.bills month le))
          | inr (_, as_before) ↦ (
            omega (arith, (once k).0),
            λ some_charge. paid.keeps k month le ((once k).1 (omega arith)),
          )
        ]),
      ),
      λ k other. rw paid.more (elim (charges_for-more k sub.sub_seq month n paid.order s.charges) [
        | inl ((same, _), _) ↦ absurd (other (sym same))
        | inr (_, as_before) ↦ as_before
      ]),
    )

IsFresh-later :
    (month n : ℕ) (s t : Store) (j : ℕ) (subs : List Subscription)
    → ((k : ℕ) → k ≢ j → charges_for k month t.charges ≡ charges_for k month s.charges)
    → IsAscending (suc j) subs
    → All (IsFresh month n s) subs
    → All (IsFresh month n t) subs
IsFresh-later month n s t j [] same up all = tt
IsFresh-later month n s t j (x ∷ xs) same (above, up) (fresh, all) = (
  (λ now. same x.sub_seq (λ e. omega arith) ∙ fresh now),
  IsFresh-later month n s t j xs same
      (IsAscending-weaken (suc j) (suc x.sub_seq) xs (omega arith) up) all,
)

process_all-IsOnce :
    (month lo : ℕ) (subs : List Subscription) (run : Run) (n : ℕ) (s : Store)
    → IsReliable run
    → month ≤ yyyymm run.now
    → IsAscending lo subs
    → All (IsFresh month (yyyymm run.now) s) subs
    → IsOnce month s
    → IsOnce month (process_all subs run n s).1
unfolding process_all
process_all-IsOnce month lo [] run n s w le up all once = once
process_all-IsOnce month lo (sub ∷ subs) run n s w le (_, up) (fresh, all) once =
    let x = process_one sub run s in
    let (once', same) =
      charged-IsOnce month sub run s x le fresh once (process_one-IsCharged sub run s w) in
    process_all-IsOnce month (suc sub.sub_seq) subs run (if x.0 then n else suc n) x.1 w le up
      (IsFresh-later month (yyyymm run.now) s x.1 sub.sub_seq subs same up all) once'

due-IsFresh :
    (month n day : ℕ) (s : Store) (subs : List Subscription)
    → IsOnce month s
    → All
        (λ r. ((0 ≤ r.sub_seq) × (find_sub r.sub_seq s.subs ≡ some r)) × (is_due day n r ≡ true))
        subs
    → All (IsFresh month n s) subs
due-IsFresh month n day s [] once all = tt
due-IsFresh month n day s (r ∷ rs) (up, once) (((_, found), due), all) = (
  (λ now. elim (Bool-cases (leb 1 (charges_for r.sub_seq month s.charges))) [
    | inl charged ↦ let billed = (once r.sub_seq).1 (ground arith) r found in absurd (ground arith)
    | inr fresh ↦ ground arith
  ]),
  due-IsFresh month n day s rs (up, once) all,
)

run_once-IsOnce :
    (month : ℕ) (has_summary : Bool) (run : Run) (s : Store)
    → IsReliable run
    → month ≤ yyyymm run.now
    → IsOnce month s
    → IsOnce month (run_once has_summary run s).1
unfolding run_once list_due_for_billing
run_once-IsOnce month has_summary run s w le once =
    let P : ℕ × Store → Type 0 = λ x. IsOnce month x.1 in
    let n = yyyymm run.now in
    let day = run_day run.now in
    let due = keep (is_due day n) s.subs in
    let fresh = due-IsFresh month n day s due once (
      All-kept (λ r. (0 ≤ r.sub_seq) × (find_sub r.sub_seq s.subs ≡ some r)) (is_due day n) s.subs
        (find_sub-All 0 s.subs once.0)) in
    let done =
      process_all-IsOnce month 0 due run 0 s w le (IsAscending-keep 0 (is_due day n) s.subs once.0)
        fresh once in
    if-cases P run.list_fails _ _ (λ _. once)
      (λ _.
        if-cases P (ltb 0 (process_all due run 0 s).0) _ _
          (λ _. if-cases (IsOnce month) has_summary _ _ (λ _. done) (λ _. done)) (λ _. done))

-- If what the provider approves always comes back as an approval of the amount asked for, and
-- nothing else does, and the database takes each approval, then from a table in which no subscription has more than one charge for a month, and those charged are marked
-- as billed, any number of runs in that month or later, one after the other, charges none more than once
-- for it.
pub run_all-once :
    (month : ℕ) (has_summary : Bool) (runs : List Run) (s : Store) (k : ℕ)
    → All (λ run. IsReliable run × (month ≤ yyyymm run.now)) runs
    → IsOnce month s
    → charges_for k month (run_all has_summary runs s).charges ≤ 1
unfolding run_all
run_all-once month has_summary [] s k w (up, once) = (once k).0
run_all-once month has_summary (run ∷ runs) s k ((w, le), ws) once =
    run_all-once month has_summary runs (run_once has_summary run s).1 k ws
      (run_once-IsOnce month has_summary run s w le once)
