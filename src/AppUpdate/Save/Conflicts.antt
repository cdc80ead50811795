-- ===== src/AppUpdate/Save/Conflicts.antt =====
-- What a save of an app update policy writes, and that concurrent saves do not overwrite each other.
use daeil_scholar.Prelude.{
  ℕ, suc, ◌≡◌, ◌≢◌, refl, Bool, true, false, not, ◌||◌, Option, none, some, List, [], ◌∷◌, arith,
  if◌then◌else◌, Bool-cases, ap, inl, inr, sym, subst, ◌∙◌,
}
use daeil_scholar.Prelude.Int.{ℤ, pos}
use daeil_scholar.Prelude.Text.{Text}
use daeil_scholar.AppUpdate.{Policy}
use daeil_scholar.AppUpdate.Validation.{
  FieldError, is_supported_app_platform, validate_app_update_policy,
}
use daeil_scholar.AppUpdate.Save.{
  Setting, Db, Faults, Saved, stored, conflict, unsupported_platform, not_found, database_error,
  rejected, is_stale, is_other, write_row, lock_row, store_policy, invalidate_if_stored, SaveInput,
  is_decoded, policy_eq, stored_policy_matcher, save_if_valid, save_checked, save_observed,
  save_policy,
}

-- What the save of `after` made of the row and the tables.
pub record IsWritten (platform after : Text) (by now : ℕ) (row : Setting) (db db' : Db)
    : Type 0 where
  pub was : db.setting ≡ some row
  pub is : db'.setting ≡ some (record { value = after; updated_at = now; updated_by = by })
  pub logged :
      db'.history
      ≡ record {
        platform = platform;
        before_json = row.value;
        after_json = after;
        changed_by = by;
        changed_at = now;
      }
        ∷ db.history

module _ (platform after : Text) (by : ℕ) (expected : Option ℕ) (matches : Option (Text → Bool))
    (now : ℕ) (f : Faults) (db : Db) where
  -- The transaction either writes the row and one history entry, and then the row was neither stale
  -- nor other than expected, or it leaves the tables as they were.
  abbrev IsAtomic : Saved × Db → Type 0
  IsAtomic r =
      (r.0 ≡ stored
        → (row : Setting) × IsWritten platform after by now row db r.1
          × (is_stale expected row.updated_at ≡ false)
          × (is_other matches row.value ≡ false)
          × (r.1.invalidations ≡ db.invalidations))
      × (r.0 ≢ stored → r.1 ≡ db)

  write_row-IsAtomic :
      (row : Setting)
      → db.setting ≡ some row
      → IsAtomic (write_row platform after by expected matches now f db row)
  write_row-IsAtomic row at =
      elim (Bool-cases (is_stale expected row.updated_at || is_other matches row.value)) [
        | inl refused ↦ rw refused (λ h. absurd (cc), λ h. refl)
        | inr fits ↦ elim (Bool-cases (f.update_fails || f.insert_fails || f.commit_fails)) [
          | inl failed ↦ rw (fits, failed) (λ h. absurd (cc), λ h. refl)
          | inr written ↦
              rw (fits, written)
                (
                  λ h. (
                    row,
                    record { was = at; is = refl; logged = refl },
                    ground arith,
                    ground arith,
                    refl,
                  ),
                  λ h. absurd (h refl),
                )
        ]
      ]

  lock_row-IsAtomic :
      (o : Option Setting)
      → db.setting ≡ o
      → IsAtomic (lock_row platform after by expected matches now f db o)
  lock_row-IsAtomic none at = (λ h. absurd (cc), λ h. refl)
  lock_row-IsAtomic (some row) at = write_row-IsAtomic row at

  store_policy-IsAtomic : IsAtomic (store_policy platform after by expected matches now f db)
  unfolding store_policy
  store_policy-IsAtomic = elim (Bool-cases (f.begin_fails || f.select_fails)) [
    | inl failed ↦ rw failed (λ h. absurd (cc), λ h. refl)
    | inr open_tx ↦ rw open_tx (lock_row-IsAtomic db.setting refl)
  ]

invalidate-cases :
    (r : Saved × Db)
    → ((invalidate_if_stored r).0 ≡ r.0)
      × ((invalidate_if_stored r).1.setting ≡ r.1.setting)
      × ((invalidate_if_stored r).1.history ≡ r.1.history)
      × (r.0 ≡ stored → (invalidate_if_stored r).1.invalidations ≡ suc r.1.invalidations)
      × (r.0 ≢ stored → (invalidate_if_stored r).1 ≡ r.1)
invalidate-cases (stored, db) = (refl, refl, refl, λ h. refl, λ h. absurd (h refl))
invalidate-cases (conflict, db) = (refl, refl, refl, λ h. absurd (cc), λ h. refl)
invalidate-cases (unsupported_platform, db) = (refl, refl, refl, λ h. absurd (cc), λ h. refl)
invalidate-cases (not_found, db) = (refl, refl, refl, λ h. absurd (cc), λ h. refl)
invalidate-cases (database_error, db) = (refl, refl, refl, λ h. absurd (cc), λ h. refl)
invalidate-cases (rejected es, db) = (refl, refl, refl, λ h. absurd (cc), λ h. refl)

row_eq : (a b : Setting) → ◌≡◌ {A = Option Setting} (some a) (some b) → a ≡ b
row_eq a b p = cc

-- A stored value that decodes to another policy does not match the expected one.
seen_elsewhere :
    (decode : Text → Option Policy) (seen p : Policy) (value : Text)
    → decode value ≡ some p
    → policy_eq p seen ≡ false
    → not (is_decoded seen (decode value)) ≡ false
    → ⊥
seen_elsewhere decode seen p value reads differ h =
    let stored_is : not (policy_eq p seen) ≡ false =
      subst (λ o. not (is_decoded seen o) ≡ false) reads h in
    let clash : not false ≡ false = subst (λ b. not b ≡ false) differ stored_is in cc

module _ (encode : Policy → Text) (decode : Text → Option Policy) where
  module _ (i : SaveInput) (now : ℕ) (f : Faults) (db : Db) where
    -- The save stores the policy with one history entry and one invalidation, or changes nothing.
    abbrev pub IsSaved : List FieldError → Saved × Db → Type 0
    IsSaved errors r =
        (r.0 ≡ stored
          → (row : Setting) × IsWritten i.platform (encode i.policy) i.updated_by now row db r.1
            × (is_stale i.expected_updated_at row.updated_at ≡ false)
            × (is_other (stored_policy_matcher encode decode i.expected_policy) row.value ≡ false)
            × (r.1.invalidations ≡ suc db.invalidations)
            × (errors ≡ []))
        × (r.0 ≢ stored → r.1 ≡ db)

    save_if_valid-IsSaved :
        (errors : List FieldError) → IsSaved errors (save_if_valid encode decode errors i now f db)
    save_if_valid-IsSaved [] =
        let matches = stored_policy_matcher encode decode i.expected_policy in
        let r =
          store_policy i.platform (encode i.policy) i.updated_by i.expected_updated_at matches now f
            db in
        let (same, setting, history, counted, kept) = invalidate-cases r in
        let (wrote, nothing) =
          store_policy-IsAtomic i.platform (encode i.policy) i.updated_by i.expected_updated_at
            matches now f db in
        (
          λ h.
              let (row, w, fresh, mine, count) = wrote (sym same ∙ h) in
              (
                row,
                record { was = w.was; is = setting ∙ w.is; logged = history ∙ w.logged },
                fresh,
                mine,
                counted (sym same ∙ h) ∙ ap suc count,
                refl,
              ),
          λ h. kept (λ e. h (same ∙ e)) ∙ nothing (λ e. h (same ∙ e)),
        )
    save_if_valid-IsSaved (e ∷ es) = (λ h. absurd (cc), λ h. refl)

    save_checked-IsSaved :
        (latest : ℤ)
        → IsSaved
            (validate_app_update_policy i.platform i.policy latest i.allow_unobserved_build)
            (save_checked encode decode i latest now f db)
    save_checked-IsSaved latest =
        save_if_valid-IsSaved
          (validate_app_update_policy i.platform i.policy latest i.allow_unobserved_build)

    -- The highest build that the validation is given.
    abbrev pub latest_or_zero : Option ℤ → ℤ
    latest_or_zero none = pos 0
    latest_or_zero (some n) = n

    abbrev pub bound : Bool → Option ℤ → ℤ
    bound allow observed = if allow then pos 0 else latest_or_zero observed

    save_bounded-IsSaved :
        (allow : Bool) (observed : Option ℤ)
        → IsSaved
            (validate_app_update_policy i.platform i.policy
              (bound allow observed)
              i.allow_unobserved_build)
            (if allow
              then save_checked encode decode i (pos 0) now f db
              else save_observed encode decode i observed now f db)
    save_bounded-IsSaved true observed = save_checked-IsSaved (pos 0)
    save_bounded-IsSaved false none = (λ h. absurd (cc), λ h. refl)
    save_bounded-IsSaved false (some n) = save_checked-IsSaved n

    -- Whatever a save finds in the tables and whichever database call fails: if it reports success,
    -- the policy had no rejected field, the row was neither stale nor other than the administrator
    -- had seen, it now holds the policy, the history gained exactly the entry from the old value to
    -- the new one, and the cache was invalidated once; if not, nothing changed.
    pub save_policy-IsSaved :
        (observed : Option ℤ)
        → IsSaved
            (validate_app_update_policy i.platform i.policy
              (bound i.allow_unobserved_build observed)
              i.allow_unobserved_build)
            (save_policy encode decode i observed now f db)
    unfolding save_policy
    save_policy-IsSaved observed = elim (Bool-cases (is_supported_app_platform i.platform)) [
      | inr other ↦ rw other (λ h. absurd (cc), λ h. refl)
      | inl known ↦ rw known (save_bounded-IsSaved i.allow_unobserved_build observed)
    ]

  -- Two administrators edit the same policy. Where the first save succeeds and changed the policy,
  -- no save of the other that still expects the old one writes anything, whatever its timestamp.
  pub save_policy-no_lost_update :
      (i j : SaveInput) (seen : Policy) (observed later : Option ℤ) (now t : ℕ) (f g : Faults)
      (db : Db)
      → decode (encode i.policy) ≡ some i.policy
      → (save_policy encode decode i observed now f db).0 ≡ stored
      → policy_eq i.policy seen ≡ false
      → j.expected_policy ≡ some seen
      → let after = (save_policy encode decode i observed now f db).1 in
        ((save_policy encode decode j later t g after).0 ≢ stored)
        × ((save_policy encode decode j later t g after).1 ≡ after)
  save_policy-no_lost_update i j seen observed later now t f g db round first changed expects =
      let after = (save_policy encode decode i observed now f db).1 in
      let (row, w, _, _, _, _) = (save_policy-IsSaved i now f db observed).0 first in
      let (wrote, kept) = save_policy-IsSaved j t g after later in
      let refused : (save_policy encode decode j later t g after).0 ≢ stored = λ h.
        let (row', w', _, mine, _, _) = wrote h in
        let value : row'.value ≡ encode i.policy =
          ap (λ (x : Setting). x.value) (row_eq row' _ (sym w'.was ∙ w.is)) in
        seen_elsewhere decode seen i.policy row'.value (ap decode value ∙ round) changed (
          subst (λ o. is_other (stored_policy_matcher encode decode o) row'.value ≡ false) expects
            mine) in
      (refused, kept refused)
