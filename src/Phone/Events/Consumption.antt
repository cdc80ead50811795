-- ===== src/Phone/Events/Consumption.antt =====
-- The lookup and the consumption of a grant change the table as their events say.
use daeil_scholar.Prelude.{
  ℕ, ◌≡◌, refl, Bool, false, not, ◌&&◌, ◌||◌, ◌⊎◌, subst, Option, none, some, List, [], arith,
  Option-cases, if-cases, inl, inr,
}
use daeil_scholar.Prelude.Int.{ℤ, pos, leb_ℤ}
use daeil_scholar.Prelude.Text.{Text, text_eq, text_eq→eq}
use daeil_scholar.Phone.Table.{
  Row, Store, normalize_phone_number, is_valid_phone, find_row, is_usable_grant, GrantFaults,
  find_usable_grant, consume_grant, spend_row,
}
use daeil_scholar.Phone.{Reply, granted, grant_subject, check_granted}
use daeil_scholar.Phone.Events.{
  Event, nothing, spent, rows_after, seq_after, IsAllowed, Tells, IsSpending, Did, Did-nothing,
  Did-if,
}

module _ (hash render : Text → Text) (review : List (Text × Text)) (members : ℤ → Text → Bool) where
  -- Only the consumption of a grant answers that one was granted and changes a row.
  abbrev pub Spends : Text → Text → Event → Reply → Type 0
  Spends h phone e reply = Tells hash e reply × (reply ≡ granted → IsSpending hash h phone e)

  -- What the lookup of a grant does.
  unfoldable pub Looked : Text → Store → Option Text × Store → Type 0
  Looked h s x =
      (e : Event) × IsAllowed hash e s
      × ((reply : Reply) → Tells hash e reply)
      × ((phone : Text) → x.0 ≡ some phone → (phone ≡ []) ⊎ IsSpending hash h phone e)
      × (x.1.rows ≡ rows_after hash e s)
      × (x.1.next_seq ≡ seq_after hash e s)

  Looked-nothing :
      (h : Text) (s : Store) (o : Option Text) → (o ≡ none) ⊎ (o ≡ some []) → Looked h s (o, s)
  unfolding Looked IsAllowed Tells rows_after seq_after
  Looked-nothing h s o no_phone =
      (nothing, tt, λ reply. tt, λ phone p. inl (ground arith), refl, refl)

  spend_row-Looked :
      (h expected : Text) (user : ℤ) (now : ℕ) (f : GrantFaults) (s : Store) (r : Row)
      → find_row (is_usable_grant h now) s.rows ≡ some r
      → Looked h s (spend_row members expected user f s r)
  unfolding Looked IsAllowed Tells IsSpending rows_after seq_after
  spend_row-Looked h expected user now f s r found =
      let P = Looked h s in
      if-cases P (not (text_eq expected []) && not (text_eq r.phone expected)) _ _
        (λ _. Looked-nothing h s _ (inr refl))
        (λ _.
          if-cases P (not (leb_ℤ user (pos 0)) && f.member_fails) _ _
            (λ _. Looked-nothing h s _ (inl refl))
            (λ _.
              if-cases P (not (leb_ℤ user (pos 0)) && not (members user r.phone)) _ _
                (λ _. Looked-nothing h s _ (inr refl))
                (λ _.
                  if-cases P (f.update_fails || f.commit_fails) _ _
                    (λ _. Looked-nothing h s _ (inl refl))
                    (λ _. (
                      spent r h now user,
                      found,
                      λ reply. tt,
                      λ phone p. inr (refl, ground arith),
                      refl,
                      refl,
                    )))))

  pub consume_grant-Looked :
      (h expected : Text) (user : ℤ) (now : ℕ) (f : GrantFaults) (s : Store)
      → Looked h s (consume_grant members h expected user now f s)
  unfolding consume_grant find_usable_grant
  consume_grant-Looked h expected user now f s =
      if-cases (Looked h s) (f.begin_fails || f.select_fails) _ _
        (λ _. Looked-nothing h s _ (inl refl))
        (λ _. elim (Option-cases (find_row (is_usable_grant h now) s.rows)) [
          | inl missing ↦ rw missing (Looked-nothing h s _ (inr refl))
          | inr (r, found) ↦ rw found (spend_row-Looked h expected user now f s r found)
        ])

  granted_phone-IsSpending :
      (h phone p : Text) (e : Event)
      → (text_eq p [] || not (text_eq p phone)) ≡ false
      → (p ≡ []) ⊎ IsSpending hash h p e
      → IsSpending hash h phone e
  granted_phone-IsSpending h phone p e same (inl empty) = absurd (ground (arith))
  granted_phone-IsSpending h phone p e same (inr spending) =
      subst (λ q. IsSpending hash h q e) (text_eq→eq p phone (ground arith)) spending

  check_granted-Did :
      (h phone : Text) (s : Store) (o : Option Text) (s' : Store)
      → Looked h s (o, s')
      → Did hash (Spends h phone) s (check_granted hash render review members phone (o, s'))
  unfolding Looked Did
  check_granted-Did h phone s none s' (e, a, tells, spends, rows, seq) =
      (e, a, (tells _, λ g. absurd (cc)), rows, seq)
  check_granted-Did h phone s (some p) s' (e, a, tells, spends, rows, seq) =
      if-cases (Did hash (Spends h phone) s) (text_eq p [] || not (text_eq p phone)) _ _
        (λ _. (e, a, (tells _, λ g. absurd (cc)), rows, seq))
        (λ same. (
          e,
          a,
          (tells _, λ g. granted_phone-IsSpending h phone p e same (spends p refl)),
          rows,
          seq,
        ))

  pub grant_subject-Did :
      (token phone : Text) (lookup : Text → Option Text × Store) (s : Store)
      → Looked (hash token) s (lookup (hash token))
      → Did hash
          (Spends (hash token) (normalize_phone_number phone))
          s
          (grant_subject hash render review members token phone lookup s)
  unfolding Tells
  grant_subject-Did token phone lookup s looked =
      let canonical = normalize_phone_number phone in
      let Q = Spends (hash token) canonical in
      Did-if hash Q s (text_eq token []) _ _ (λ _. Did-nothing hash Q s _ (tt, λ g. absurd (cc)))
        (λ _.
          Did-if hash Q s (not (is_valid_phone canonical)) _ _
            (λ _. Did-nothing hash Q s _ (tt, λ g. absurd (cc)))
            (λ _.
              check_granted-Did (hash token) canonical s (lookup (hash token)).0
                (lookup (hash token)).1 looked))
