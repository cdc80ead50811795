-- ===== src/Phone/Steps.antt =====
-- Every call is one of the events, and what the events keep holds after any sequence of calls.
use daeil_scholar.Prelude.{
  ℕ, ◌≤◌, ◌<◌, ◌≡◌, ◌||◌, not, if-cases, ap, refl, Bool, false, none, some, List, [], ◌∷◌, arith,
  All,
}
use daeil_scholar.Prelude.Int.{ℤ, pos, leb_ℤ}
use daeil_scholar.Prelude.Text.{Text, text_eq}
use daeil_scholar.Phone.Table.{
  Row, Store, normalize_phone_number, update_row, bump, retire, verify, spend, is_pending, is_kept,
  GrantFaults, delete_expired_before, find_usable_grant, phone_of, consume_grant, is_valid_phone,
}
use daeil_scholar.Phone.{
  Reply, phone_code_max_attempts, assert_phone_verified, check_granted, consume_grant_for_phone,
  consume_grant_for_member,
}
use daeil_scholar.Phone.Trace.{
  Op, request, confirm, assert_verified, consume, consume_member, clean_up, apply, run,
}
use daeil_scholar.Phone.Rows.{
  IsNumbered, IsNumbered-update, IsNumbered-keep, All-keep, All-update, All-change, find_row-some,
}
use daeil_scholar.Phone.Events.{
  Event, nothing, insert, wrong, right, spent, clean, retire_at, rows_after, seq_after, IsAllowed,
  Tells, Did, Did-nothing, Did-if,
}
use daeil_scholar.Phone.Events.Codes.{request_code-Did, confirm_code-Did}
use daeil_scholar.Phone.Events.Consumption.{Spends, grant_subject-Did, consume_grant-Looked}

-- What every event keeps of a row: `P` holds of new rows numbered `n` or higher, and each of the
-- changes keeps it under the condition of its event.
pub record IsStable (P : Row → Type 0) (n : ℕ) : Type 0 where
  pub fresh :
      (k : ℕ) (id phone code_hash : Text) (expires now : ℕ)
      → n ≤ k
      → P (record {
        seq = k;
        id = id;
        phone = phone;
        code_hash = code_hash;
        grant_token_hash = none;
        attempts = 0;
        verified = false;
        consumed = false;
        expires_at = expires;
        grant_expires_at = none;
        reg_date = now;
        consumed_usr_seq = none;
      })
  pub bumped : (r : Row) → P r → r.attempts < phone_code_max_attempts → P (bump r)
  pub retired : (r : Row) (t : ℕ) → P r → P (retire t r)
  pub verified :
      (r : Row) (h : Text) (t : ℕ) → P r → r.attempts < phone_code_max_attempts → P (verify h t r)
  pub spent : (r : Row) (user : ℤ) → P r → P (spend user r)

module _ (hash : Text → Text) where
  pub event-IsNumbered :
      (e : Event) (s : Store)
      → IsNumbered s.next_seq s.rows
      → IsNumbered (seq_after hash e s) (rows_after hash e s)
  unfolding rows_after seq_after retire_at
  event-IsNumbered nothing s w = w
  event-IsNumbered (insert id phone code_hash expires now) s w = (omega arith, w)
  event-IsNumbered (wrong r id now none) s w =
      IsNumbered-update r.seq s.next_seq bump s.rows (λ x. refl) w
  event-IsNumbered (wrong r id now (some t)) s w =
      IsNumbered-update r.seq s.next_seq (retire t) (update_row r.seq bump s.rows) (λ x. refl)
        (IsNumbered-update r.seq s.next_seq bump s.rows (λ x. refl) w)
  event-IsNumbered (right r id now token expires) s w =
      IsNumbered-update r.seq s.next_seq (verify (hash token) expires) s.rows (λ x. refl) w
  event-IsNumbered (spent r h now user) s w =
      IsNumbered-update r.seq s.next_seq (spend user) s.rows (λ x. ground arith) w
  event-IsNumbered (clean cutoff now) s w = IsNumbered-keep s.next_seq (is_kept cutoff now) s.rows w

  pub event-All :
      (P : Row → Type 0) (n : ℕ) (e : Event) (s : Store)
      → IsStable P n
      → n ≤ s.next_seq
      → IsAllowed hash e s
      → IsNumbered s.next_seq s.rows
      → All P s.rows
      → All P (rows_after hash e s)
  unfolding rows_after retire_at IsAllowed
  event-All P n nothing s st le ok w all = all
  event-All P n (insert id phone code_hash expires now) s st le ok w all =
      (st.fresh s.next_seq id phone code_hash expires now le, all)
  event-All P n (wrong r id now none) s st le (found, few) w all =
      let (_, p, _) = find_row-some P (is_pending id now) s.next_seq s.rows r found all w in
      All-update P (is_pending id now) s.next_seq bump s.rows r found w all (st.bumped r p few)
  event-All P n (wrong r id now (some t)) s st le (found, few) w all =
      let (_, p, _) = find_row-some P (is_pending id now) s.next_seq s.rows r found all w in
      All-change P r.seq (retire t) (update_row r.seq bump s.rows) (λ x px. st.retired x t px)
        (All-update P (is_pending id now) s.next_seq bump s.rows r found w all (st.bumped r p few))
  event-All P n (right r id now token expires) s st le (found, few) w all =
      let (_, p, _) = find_row-some P (is_pending id now) s.next_seq s.rows r found all w in
      All-update P (is_pending id now) s.next_seq (verify (hash token) expires) s.rows r found w all
        (st.verified r (hash token) expires p few)
  event-All P n (spent r h now user) s st le ok w all =
      All-change P r.seq (spend user) s.rows (λ x px. st.spent x user px) all
  event-All P n (clean cutoff now) s st le ok w all = All-keep P (is_kept cutoff now) s.rows all

  pub seq_after-grows : (e : Event) (s : Store) → s.next_seq ≤ seq_after hash e s
  unfolding seq_after
  seq_after-grows nothing s = omega arith
  seq_after-grows (insert id phone code_hash expires now) s = omega arith
  seq_after-grows (wrong r id now end) s = omega arith
  seq_after-grows (right r id now token expires) s = omega arith
  seq_after-grows (spent r h now user) s = omega arith
  seq_after-grows (clean cutoff now) s = omega arith

  module _ (render : Text → Text) (review : List (Text × Text)) (members : ℤ → Text → Bool) where
    pub consume-Did :
        (token phone : Text) (now : ℕ) (f : GrantFaults) (s : Store)
        → Did hash
            (Spends hash render review members (hash token) (normalize_phone_number phone))
            s
            (consume_grant_for_phone hash render review members token phone now f s)
    unfolding consume_grant_for_phone
    consume-Did token phone now f s =
        grant_subject-Did hash render review members token phone
          (λ h. consume_grant members h [] (pos 0) now f s) s
          (consume_grant-Looked hash render review members (hash token) [] (pos 0) now f s)

    Did-Tells :
        (h phone : Text) (s : Store) (x : Reply × Store)
        → Did hash (Spends hash render review members h phone) s x
        → Did hash (Tells hash) s x
    unfolding Did
    Did-Tells h phone s x (e, a, (tells, _), rows, seq) = (e, a, tells, rows, seq)

    pub consume_member-Did :
        (token phone : Text) (user : ℤ) (now : ℕ) (f : GrantFaults) (s : Store)
        → Did hash
            (Spends hash render review members (hash token) (normalize_phone_number phone))
            s
            (consume_grant_for_member hash render review members token phone user now f s)
    unfolding consume_grant_for_member Tells
    consume_member-Did token phone user now f s =
        let canonical = normalize_phone_number phone in
        let Q = Spends hash render review members (hash token) canonical in
        Did-if hash Q s (leb_ℤ user (pos 0)) _ _
          (λ _. Did-nothing hash Q s _ (tt, λ g. absurd (cc)))
          (λ _.
            grant_subject-Did hash render review members token phone
              (λ h. consume_grant members h canonical user now f s) s
              (consume_grant-Looked hash render review members (hash token) canonical user now f s))

    -- A check of a grant changes nothing.
    pub assert_phone_verified-same :
        (token phone : Text) (now : ℕ) (fails : Bool) (s : Store)
        → (assert_phone_verified hash render review members token phone now fails s).1 ≡ s
    unfolding assert_phone_verified
    assert_phone_verified-same token phone now fails s =
        let canonical = normalize_phone_number phone in
        let P : Reply × Store → Type 0 = λ x. x.1 ≡ s in
        let found = phone_of (find_usable_grant (hash token) now s) in
        if-cases P (text_eq token []) _ _ (λ _. refl)
          (λ _.
            if-cases P (not (is_valid_phone canonical)) _ _ (λ _. refl)
              (λ _.
                if-cases (λ y. P (check_granted hash render review members canonical y)) fails _ _
                  (λ _. refl)
                  (λ _.
                    if-cases P (text_eq found [] || not (text_eq found canonical)) _ _ (λ _. refl)
                      (λ _. refl))))

    pub apply-Did :
        (o : Op) (s : Store) → Did hash (Tells hash) s (apply hash render review members o s)
    unfolding apply Tells rows_after seq_after IsAllowed delete_expired_before Did
    apply-Did (request phone now d) s = request_code-Did hash render review members phone now d s
    apply-Did (confirm id code now d) s =
        confirm_code-Did hash render review members id code now d s
    apply-Did (assert_verified token phone now fails) s =
        let same = assert_phone_verified-same token phone now fails s in
        (nothing, tt, tt, ap (λ x. x.rows) same, ap (λ x. x.next_seq) same)
    apply-Did (consume token phone now f) s =
        Did-Tells (hash token) (normalize_phone_number phone) s
          (consume_grant_for_phone hash render review members token phone now f s)
          (consume-Did token phone now f s)
    apply-Did (consume_member token phone user now f) s =
        Did-Tells (hash token) (normalize_phone_number phone) s
          (consume_grant_for_member hash render review members token phone user now f s)
          (consume_member-Did token phone user now f s)
    apply-Did (clean_up cutoff now) s = (clean cutoff now, tt, tt, refl, refl)

    -- After any sequence of calls the rows are numbered as before, and all have what is stable.
    pub run-All :
        (P : Row → Type 0) (n : ℕ) (os : List Op) (s : Store)
        → IsStable P n
        → n ≤ s.next_seq
        → IsNumbered s.next_seq s.rows
        → All P s.rows
        → IsNumbered
            (run hash render review members os s).next_seq
            (run hash render review members os s).rows
          × All P (run hash render review members os s).rows
    unfolding run Did
    run-All P n [] s st le w all = (w, all)
    run-All P n (o ∷ os) s st le w all =
        let s' = (apply hash render review members o s).1 in
        let (e, ok, _, rows, seq) = apply-Did o s in
        let w' : IsNumbered s'.next_seq s'.rows = rw (rows, seq) (event-IsNumbered e s w) in
        let all' : All P s'.rows = rw rows (event-All P n e s st le ok w all) in
        let le' : n ≤ s'.next_seq = rw seq (omega (arith, seq_after-grows e s)) in
        run-All P n os s' st le' w' all'
