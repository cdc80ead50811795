-- ===== src/Phone/Grants.antt =====
-- A grant is spent at most as often as it was given out.
use daeil_scholar.Prelude.{
  ℕ, ◌+◌, ◌≤◌, ◌≡◌, refl, subst, ◌∙◌, Bool, true, false, not, ◌&&◌, none, some, List, [], ◌∷◌,
  arith, Bool-cases, inl, inr, ◌⊎◌,
}
use daeil_scholar.Prelude.Int.{ℤ}
use daeil_scholar.Prelude.Text.{Text, text_eq, text_eq→eq}
use daeil_scholar.Phone.Table.{
  Row, Store, normalize_phone_number, new_store, bump, retire, verify, spend, count_rows,
  update_row, is_kept, is_hash, is_usable_grant, GrantFaults,
}
use daeil_scholar.Phone.{Reply, requested, confirmed, granted, refused}
use daeil_scholar.Phone.Trace.{
  Op, request, confirm, assert_verified, consume, consume_member, clean_up, apply, run, tally,
}
use daeil_scholar.Phone.Rows.{
  IsNumbered, count_rows-lower, count_rows-keep, count_rows-update, count_rows-spend,
}
use daeil_scholar.Phone.Events.{
  Event, nothing, insert, wrong, right, spent, clean, retire_at, rows_after, IsAllowed, Tells,
  IsSpending, Did,
}
use daeil_scholar.Phone.Events.Consumption.{Spends}
use daeil_scholar.Phone.Steps.{apply-Did, consume-Did, consume_member-Did, event-IsNumbered}

abbrev pub one_if : Bool → ℕ
one_if true = 1
one_if false = 0

-- The row carries the grant `h`, not consumed.
abbrev pub carries : Text → Row → Bool
carries h r = is_hash h r.grant_token_hash && not r.consumed

module _ (hash : Text → Text) (h : Text) where
  -- The call spent the grant with the hash `h`.
  abbrev pub is_spent : Op → Reply → Bool
  is_spent (consume token phone now f) granted = text_eq (hash token) h
  is_spent (consume_member token phone user now f) granted = text_eq (hash token) h
  is_spent _ _ = false

  -- The reply gives out a grant with the hash `h`.
  abbrev pub is_issued : Op → Reply → Bool
  is_issued o (confirmed token) = text_eq (hash token) h
  is_issued _ _ = false

  event-carries :
      (o : Op) (e : Event) (s : Store) (reply : Reply)
      → IsNumbered s.next_seq s.rows
      → Tells hash e reply
      → count_rows (carries h) (rows_after hash e s)
        ≤ count_rows (carries h) s.rows + one_if (is_issued o reply)
  unfolding rows_after retire_at Tells count_rows
  event-carries o nothing s reply w tells = omega arith
  event-carries o (insert id phone code_hash expires now) s reply w tells = omega arith
  event-carries o (wrong r id now none) s reply w tells =
      omega (arith, count_rows-lower (carries h) r.seq bump s.rows (λ x k. k))
  event-carries o (wrong r id now (some t)) s reply w tells = omega (
    arith,
    count_rows-lower (carries h) r.seq bump s.rows (λ x k. k),
    count_rows-lower (carries h) r.seq (retire t) (update_row r.seq bump s.rows) (λ x k. k),
  )
  event-carries o (right r id now token expires) s reply w tells =
      rw tells (elim (Bool-cases (text_eq (hash token) h)) [
        | inl same ↦
            rw same (
              count_rows-update (carries h) r.seq s.next_seq (verify (hash token) expires) s.rows w)
        | inr other ↦
            let lower =
              count_rows-lower (carries h) r.seq (verify (hash token) expires) s.rows
                (λ x k. absurd (ground arith)) in
            omega (arith, lower)
      ])
  event-carries o (spent r g now user) s reply w tells =
      omega (arith, count_rows-lower (carries h) r.seq (spend user) s.rows (λ x k. ground arith))
  event-carries o (clean cutoff now) s reply w tells =
      omega (arith, count_rows-keep (carries h) (is_kept cutoff now) s.rows)

  spending-carries :
      (token phone : Text) (e : Event) (s : Store)
      → text_eq (hash token) h ≡ true
      → IsAllowed hash e s
      → IsSpending hash (hash token) phone e
      → count_rows (carries h) (rows_after hash e s) + 1 ≤ count_rows (carries h) s.rows
  unfolding rows_after IsAllowed IsSpending
  spending-carries token phone (spent r g now user) s same found (this, _) =
      let at : g ≡ h = this ∙ text_eq→eq (hash token) h same in
      count_rows-spend (carries h) (is_usable_grant g now) (spend user) s.rows r (λ x. ground arith)
        (λ x k. subst (λ t. carries t x ≡ true) at (ground arith)) found
  spending-carries token phone nothing s same found bad = absurd bad
  spending-carries token phone (insert _ _ _ _ _) s same found bad = absurd bad
  spending-carries token phone (wrong _ _ _ _) s same found bad = absurd bad
  spending-carries token phone (right _ _ _ _ _) s same found bad = absurd bad
  spending-carries token phone (clean _ _) s same found bad = absurd bad

  module _ (render : Text → Text) (review : List (Text × Text)) (members : ℤ → Text → Bool) where
    Did-consumed :
        (o : Op) (token phone : Text) (s : Store) (x : Reply × Store)
        → IsNumbered s.next_seq s.rows
        → Did hash (Spends hash render review members (hash token) phone) s x
        → x.0 ≡ granted
        → count_rows (carries h) x.1.rows + one_if (text_eq (hash token) h)
          ≤ count_rows (carries h) s.rows + one_if (is_issued o x.0)
    unfolding Did
    Did-consumed o token phone s x w (e, a, (tells, spends), rows, _) is =
        rw rows (elim (Bool-cases (text_eq (hash token) h)) [
          | inl same ↦ rw same (omega (arith, spending-carries token phone e s same a (spends is)))
          | inr other ↦ rw other (omega (arith, event-carries o e s x.0 w tells))
        ])

    Did-other :
        (o : Op) (s : Store) (x : Reply × Store)
        → IsNumbered s.next_seq s.rows
        → Did hash (Tells hash) s x
        → is_spent o x.0 ≡ false
        → count_rows (carries h) x.1.rows + one_if (is_spent o x.0)
          ≤ count_rows (carries h) s.rows + one_if (is_issued o x.0)
    unfolding Did
    Did-other o s x w (e, a, tells, rows, _) no_spend =
        rw (rows, no_spend) (omega (arith, event-carries o e s x.0 w tells))

    is_spent-consume :
        (token phone : Text) (now : ℕ) (f : GrantFaults) (reply : Reply)
        → (is_spent (consume token phone now f) reply ≡ false)
          ⊎ ((reply ≡ granted)
              × (is_spent (consume token phone now f) reply ≡ text_eq (hash token) h))
    is_spent-consume token phone now f granted = inr (refl, refl)
    is_spent-consume token phone now f (requested _) = inl refl
    is_spent-consume token phone now f (confirmed _) = inl refl
    is_spent-consume token phone now f (refused _) = inl refl

    is_spent-consume_member :
        (token phone : Text) (user : ℤ) (now : ℕ) (f : GrantFaults) (reply : Reply)
        → (is_spent (consume_member token phone user now f) reply ≡ false)
          ⊎ ((reply ≡ granted)
              × (is_spent (consume_member token phone user now f) reply ≡ text_eq (hash token) h))
    is_spent-consume_member token phone user now f granted = inr (refl, refl)
    is_spent-consume_member token phone user now f (requested _) = inl refl
    is_spent-consume_member token phone user now f (confirmed _) = inl refl
    is_spent-consume_member token phone user now f (refused _) = inl refl

    apply-consume-Did :
        (token phone : Text) (now : ℕ) (f : GrantFaults) (s : Store)
        → Did hash
            (Spends hash render review members (hash token) (normalize_phone_number phone))
            s
            (apply hash render review members (consume token phone now f) s)
    unfolding apply
    apply-consume-Did token phone now f s =
        consume-Did hash render review members token phone now f s

    apply-consume_member-Did :
        (token phone : Text) (user : ℤ) (now : ℕ) (f : GrantFaults) (s : Store)
        → Did hash
            (Spends hash render review members (hash token) (normalize_phone_number phone))
            s
            (apply hash render review members (consume_member token phone user now f) s)
    unfolding apply
    apply-consume_member-Did token phone user now f s =
        consume_member-Did hash render review members token phone user now f s

    apply-IsNumbered :
        (o : Op) (s : Store)
        → IsNumbered s.next_seq s.rows
        → IsNumbered
            (apply hash render review members o s).1.next_seq
            (apply hash render review members o s).1.rows
    unfolding Did
    apply-IsNumbered o s w =
        let (e, _, _, rows, seq) = apply-Did hash render review members o s in
        rw (rows, seq) (event-IsNumbered hash e s w)

    apply-carries :
        (o : Op) (s : Store)
        → IsNumbered s.next_seq s.rows
        → count_rows (carries h) (apply hash render review members o s).1.rows
            + one_if (is_spent o (apply hash render review members o s).0)
          ≤ count_rows (carries h) s.rows
            + one_if (is_issued o (apply hash render review members o s).0)
    apply-carries (request phone now d) s w =
        Did-other (request phone now d) s (apply hash render review members (request phone now d) s)
          w (apply-Did hash render review members (request phone now d) s) refl
    apply-carries (confirm id code now d) s w =
        Did-other (confirm id code now d) s
          (apply hash render review members (confirm id code now d) s) w
          (apply-Did hash render review members (confirm id code now d) s) refl
    apply-carries (assert_verified token phone now fails) s w =
        let o = assert_verified token phone now fails in
        Did-other o s (apply hash render review members o s) w
          (apply-Did hash render review members o s) refl
    apply-carries (clean_up cutoff now) s w =
        let o = clean_up cutoff now in
        Did-other o s (apply hash render review members o s) w
          (apply-Did hash render review members o s) refl
    apply-carries (consume token phone now f) s w =
        let o = consume token phone now f in
        elim (is_spent-consume token phone now f (apply hash render review members o s).0) [
          | inl no_spend ↦
              Did-other o s (apply hash render review members o s) w
                (apply-Did hash render review members o s) no_spend
          | inr (is, same) ↦ rw same (
              Did-consumed o token (normalize_phone_number phone) s
                (apply hash render review members o s) w (apply-consume-Did token phone now f s) is)
        ]
    apply-carries (consume_member token phone user now f) s w =
        let o = consume_member token phone user now f in
        elim (is_spent-consume_member token phone user now f
          (apply hash render review members o s).0) [
            | inl no_spend ↦
                Did-other o s (apply hash render review members o s) w
                  (apply-Did hash render review members o s) no_spend
            | inr (is, same) ↦ rw same (
                Did-consumed o token (normalize_phone_number phone) s
                  (apply hash render review members o s) w
                  (apply-consume_member-Did token phone user now f s) is)
          ]

    run-carries :
        (os : List Op) (s : Store)
        → IsNumbered s.next_seq s.rows
        → count_rows (carries h) (run hash render review members os s).rows
            + tally hash render review members is_spent os s
          ≤ count_rows (carries h) s.rows + tally hash render review members is_issued os s
    unfolding run tally
    run-carries [] s w = omega arith
    run-carries (o ∷ os) s w =
        let x = apply hash render review members o s in
        let later = run-carries os x.1 (apply-IsNumbered o s w) in
        let now = apply-carries o s w in ground (arith, later, now)

    -- Over any sequence of calls on the empty table, one after the other, whichever fail: the calls that spent a grant with
    -- a given hash are at most as many as the calls that gave out a token with that hash.
    pub run_new-spent :
        (os : List Op)
        → tally hash render review members is_spent os new_store
          ≤ tally hash render review members is_issued os new_store
    unfolding count_rows
    run_new-spent os = omega (arith, run-carries os new_store tt)
