-- ===== src/SocialLink/Steps.antt =====
-- Every method of the token store, and every timer, keeps the invariant; so does any interleaving.
use daeil_scholar.Prelude.{
  ℕ, ◌+◌, ◌%◌, ◌^◌, ◌<◌, ◌≡◌, refl, ◌⊎◌, inl, inr, String, not, ◌||◌, ◌&&◌, Option, none, some,
  arith, [], ◌∷◌, ◌++◌, str_eq, Bool-cases, ltb,
}
use daeil_scholar.Prelude.Int.{ℤ, pos, pos_part, leb_ℤ}
use daeil_scholar.GoCache.{Cache}
use daeil_scholar.SocialLink.{
  SocialLinkData, Entry, Value, entry_value, foreign, Status, ready, processing, consumed,
  cancelled, Store, UploadResult, Lease, blank_data, available, entry, leased_entry, cleanup, put,
  update, attach_block, attach_upload, cancel_entry, write_block, begin_lease, release,
  consume_with_photo, cancel_value, expire_value, status_eq, option_eq,
}
use daeil_scholar.SocialLink.Lookup.{
  available-none, entry-ok, leased_entry-ok, on_entry_keeps, on_available_keeps,
}
use daeil_scholar.SocialLink.Invariant.{
  IsEntryOk, Inv, Grows, IsEntryOk-Grows, set-Inv, delete-Inv, same-Inv, Grows-refl, save-Inv,
  cleanup-Inv,
}

module _ (C : Cache Value) where
  pub put-Inv :
      (token : String) (content : SocialLinkData) (ttl : ℤ) (now later : ℕ) (s : Store C)
      → Inv C s
      → Inv C (put C token content ttl now later s).1
  unfolding put
  put-Inv token content ttl now later s inv =
      elim (Bool-cases (str_eq token "" || leb_ℤ ttl (pos 0))) [
        | inl refused ↦ rw refused inv
        | inr accepted ↦ rw accepted (
            set-Inv C s _ token _ later (some (pos_part ttl)) refl
              (omega arith, omega arith, λ a below. ground arith)
              (record {
                owned = λ a p. ground arith;
                attachable = λ _. refl;
                blanked = λ h. absurd (h refl);
                leased = λ n p. absurd (cc);
              })
              inv)
      ]

  -- A ready entry stays well formed under another content.
  edited-ok :
      (s s' : Store C) (token : String) (e : Entry) (content : SocialLinkData)
      → Grows C s s'
      → e.status ≡ ready
      → IsEntryOk C s token e
      → IsEntryOk C s' token (record e { content = content })
  edited-ok s s' token e content g is_ready h = record {
    owned = (IsEntryOk-Grows C s s' token e g h).owned;
    attachable = h.attachable;
    blanked = λ other. absurd (other is_ready);
    leased = (IsEntryOk-Grows C s s' token e g h).leased;
  }

  pub update-Inv :
      (token : String) (f : SocialLinkData → SocialLinkData) (now later : ℕ) (s : Store C)
      → Inv C s
      → Inv C (update C token f now later s).1
  unfolding update
  update-Inv token f now later s inv =
      on_entry_keeps C (Inv C) (entry C s now token) s _ inv λ e found.
        on_available_keeps C (Inv C) (available e.status) s _ inv λ free.
          save-Inv C s later token (record e { content = f e.content })
            (edited-ok s s token e (f e.content) (Grows-refl C s) (available-none e.status free)
              (inv token now e (entry-ok C s now token e found).0))
            inv

  pub begin_lease-Inv :
      (token : String) (now later : ℕ) (s : Store C)
      → s.lease_sequence + 1 < 2 ^ 64
      → Inv C s
      → Inv C (begin_lease C token now later s).1
  unfolding begin_lease
  begin_lease-Inv token now later s small inv =
      on_entry_keeps C (Inv C) (entry C s now token) s _ inv λ e found.
        on_available_keeps C (Inv C) (available e.status) s _ inv λ free.
          let h = inv token now e (entry-ok C s now token e found).0 in
          set-Inv C s _ token _ later none refl grown
            (record {
              owned = (IsEntryOk-Grows C s counted token e grown h).owned;
              attachable = λ _. h.attachable (inl (available-none e.status free));
              blanked = λ _. refl;
              leased = λ n p. (refl, ground arith);
            })
            inv
    where
      counted : Store C
      counted = record s { lease_sequence = (s.lease_sequence + 1) % 2 ^ 64 }

      grown : Grows C s counted
      grown = (omega arith, omega arith, λ a _. refl)

  -- An entry that is finished holds nothing that the invariant speaks of.
  finished-ok :
      (s : Store C) (token : String) (e : Entry)
      → (e.status ≡ consumed) ⊎ (e.status ≡ cancelled)
      → e.content ≡ blank_data
      → e.lease_id ≡ none
      → e.uploads ≡ none
      → IsEntryOk C s token e
  finished-ok s token e done blank free unowned = record {
    owned = λ a p. absurd (cc);
    attachable = λ live. ground arith;
    blanked = λ _. blank;
    leased = λ n p. absurd (cc);
  }

  pub release-Inv :
      (lease : Lease) (now later : ℕ) (s : Store C)
      → Inv C s
      → Inv C (release C lease now later s).1
  unfolding release
  release-Inv lease now later s inv =
      on_entry_keeps C (Inv C) (leased_entry C s now lease) s _ inv λ e found.
        let (hit, busy, _) = leased_entry-ok C s now lease e found in
        let h = inv lease.token now e hit in
        elim (Bool-cases (ltb now e.expires_at)) [
          | inl live ↦ rw live (
              save-Inv C s later lease.token
                (record e { content = lease.content; status = ready; lease_id = none })
                (record {
                  owned = h.owned;
                  attachable = λ _. h.attachable (inr busy);
                  blanked = λ other. absurd (other refl);
                  leased = λ n p. absurd (cc);
                })
                inv)
          | inr over ↦ rw over (
              cleanup-Inv C (record s { cache = C.delete s.cache lease.token }) e.uploads ""
                (delete-Inv C s _ lease.token refl (Grows-refl C s) inv))
        ]

  pub consume-Inv :
      (lease : Lease) (photo : String) (now later : ℕ) (s : Store C)
      → Inv C s
      → Inv C (consume_with_photo C lease photo now later s).1
  unfolding consume_with_photo
  consume-Inv lease photo now later s inv =
      on_entry_keeps C (Inv C) (leased_entry C s now lease) s _ inv λ e found.
        save-Inv C (cleanup C e.uploads photo s) later lease.token _
          (finished-ok _ lease.token _ (inl refl) refl refl refl)
          (cleanup-Inv C s e.uploads photo inv)

  attach_block-Inv :
      (u : Option ℕ) (r : UploadResult) (token : String) (e : Entry) (later : ℕ) (s : Store C)
      → IsEntryOk C s token e
      → e.status ≡ ready
      → Inv C s
      → Inv C (attach_block C u r token e later s).1
  attach_block-Inv none r token e later s h is_ready inv = inv
  attach_block-Inv (some a) r token e later s h is_ready inv =
      save-Inv C grown later token _ (edited-ok s grown token e _ g is_ready h)
        (same-Inv C s grown refl g inv)
    where
      grown : Store C
      grown = record s {
        blocks =
            write_block s.blocks a
              (record (s.blocks a) { results = (s.blocks a).results ++ r ∷ [] });
      }

      g : Grows C s grown
      g = (omega arith, omega arith, λ b below. ground arith)

  pub attach_upload-Inv :
      (token : String) (r : Option UploadResult) (now later : ℕ) (s : Store C)
      → Inv C s
      → Inv C (attach_upload C token r now later s).1
  unfolding attach_upload
  attach_upload-Inv token none now later s inv = inv
  attach_upload-Inv token (some r) now later s inv =
      elim (Bool-cases (leb_ℤ r.f_seq (pos 0) || str_eq r.url "")) [
        | inl refused ↦ rw refused inv
        | inr accepted ↦ rw accepted (
            on_entry_keeps C (Inv C) (entry C s now token) s _ inv λ e found.
              on_available_keeps C (Inv C) (available e.status) s _ inv λ free.
                attach_block-Inv e.uploads r token e later s
                  (inv token now e (entry-ok C s now token e found).0)
                  (available-none e.status free) inv)
      ]

  cancel_entry-Inv :
      (st : Status) (token : String) (e : Entry) (later : ℕ) (s : Store C)
      → Inv C s
      → Inv C (cancel_entry C st token e later s).1
  unfolding cancel_entry
  cancel_entry-Inv processing token e later s inv = inv
  cancel_entry-Inv consumed token e later s inv = inv
  cancel_entry-Inv cancelled token e later s inv = inv
  cancel_entry-Inv ready token e later s inv =
      save-Inv C (cleanup C e.uploads "" s) later token _
        (finished-ok _ token _ (inr refl) refl refl refl) (cleanup-Inv C s e.uploads "" inv)

  pub cancel_value-Inv :
      (v : Option Value) (token : String) (now later : ℕ) (s : Store C)
      → Inv C s
      → Inv C (cancel_value C v token now later s).1
  unfolding cancel_value
  cancel_value-Inv none token now later s inv = inv
  cancel_value-Inv (some foreign) token now later s inv = inv
  cancel_value-Inv (some (entry_value e)) token now later s inv =
      elim (Bool-cases (not (status_eq e.status processing) && not (ltb now e.expires_at))) [
        | inl over ↦ rw over inv
        | inr live ↦ rw live (cancel_entry-Inv e.status token e later s inv)
      ]

  pub expire_value-Inv :
      (v : Option Value) (token : String) (a : ℕ) (s : Store C)
      → Inv C s
      → Inv C (expire_value C v token a s)
  unfolding expire_value
  expire_value-Inv none token a s inv = cleanup-Inv C s (some a) "" inv
  expire_value-Inv (some foreign) token a s inv = cleanup-Inv C s (some a) "" inv
  expire_value-Inv (some (entry_value e)) token a s inv =
      elim (Bool-cases (not (option_eq e.uploads (some a)))) [
        | inl other ↦ rw other inv
        | inr same ↦ rw same (elim (Bool-cases (status_eq e.status processing)) [
          | inl busy ↦ rw busy inv
          | inr idle ↦ rw idle (
              cleanup-Inv C (record s { cache = C.delete s.cache token }) (some a) ""
                (delete-Inv C s _ token refl (Grows-refl C s) inv))
        ])
      ]
