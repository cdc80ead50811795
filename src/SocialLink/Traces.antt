-- ===== src/SocialLink/Traces.antt =====
-- The invariant of the token store over every sequence of calls and timers.
use daeil_scholar.Prelude.{
  ℕ, ◌+◌, ◌^◌, ◌≤◌, ◌<◌, ◌≡◌, ◌≢◌, refl, inl, inr, String, Option, none, some, List, [], ◌∷◌, arith,
  str_eq, ◌||◌, true, is_some, length, Bool-cases, Option-cases, ltb,
}
use daeil_scholar.Prelude.Int.{pos, leb_ℤ}
use daeil_scholar.GoCache.{Cache}
use daeil_scholar.SocialLink.{
  Entry, Value, entry_value, ready, UploadResult, Store, Op, Outcome, ok, err, foreign, new_store,
  attach_block, check_entry, on_entry, on_available, panic, set_upload_discarder, put, snapshot,
  update, attach_upload, begin_lease, release, consume_with_photo, cancel, cancel_value,
  cancel_entry, expire, expire_value, apply, run, available, entry, save, cleanup,
}
use daeil_scholar.SocialLink.Lookup.{available-none, entry-ok, on_entry_keeps, on_available_keeps}
use daeil_scholar.SocialLink.Invariant.{Inv, same-Inv, Grows-refl}
use daeil_scholar.SocialLink.Steps.{
  put-Inv, update-Inv, begin_lease-Inv, release-Inv, consume-Inv, attach_upload-Inv,
  expire_value-Inv, cancel_value-Inv,
}

module _ (C : Cache Value) where
  pub apply-Inv :
      (op : Op) (s : Store C) → s.lease_sequence + 1 < 2 ^ 64 → Inv C s → Inv C (apply C op s)
  unfolding apply set_upload_discarder snapshot cancel expire
  apply-Inv (Op.set_upload_discarder b) s small inv =
      same-Inv C s (record s { has_discarder = b }) refl (Grows-refl C s) inv
  apply-Inv (Op.put token content ttl now later) s small inv =
      put-Inv C token content ttl now later s inv
  apply-Inv (Op.snapshot token now) s small inv =
      on_entry_keeps C (Inv C) (entry C s now token) s _ inv
        λ e _. on_available_keeps C (Inv C) (available e.status) s _ inv λ _. inv
  apply-Inv (Op.update token f now later) s small inv = update-Inv C token f now later s inv
  apply-Inv (Op.attach_upload token r now later) s small inv =
      attach_upload-Inv C token r now later s inv
  apply-Inv (Op.begin_lease token now later) s small inv =
      begin_lease-Inv C token now later s small inv
  apply-Inv (Op.release lease now later) s small inv = release-Inv C lease now later s inv
  apply-Inv (Op.consume lease photo now later) s small inv =
      consume-Inv C lease photo now later s inv
  apply-Inv (Op.cancel token now later) s small inv =
      cancel_value-Inv C (C.get s.cache now token) token now later s inv
  apply-Inv (Op.fire a now) s small inv = elim (Bool-cases (ltb a s.next_block)) [
    | inl made ↦ rw made (
        expire_value-Inv C (C.get s.cache now (s.blocks a).timer_token) (s.blocks a).timer_token a s
          inv)
    | inr unmade ↦ rw unmade inv
  ]

  pub save-lease_sequence :
      (later : ℕ) (token : String) (e : Entry) (s : Store C)
      → (save C later token e s).lease_sequence ≡ s.lease_sequence
  unfolding save
  save-lease_sequence later token e s = ground arith

  pub cleanup-lease_sequence :
      (u : Option ℕ) (retained : String) (s : Store C)
      → (cleanup C u retained s).lease_sequence ≡ s.lease_sequence
  unfolding cleanup
  cleanup-lease_sequence none retained s = refl
  cleanup-lease_sequence (some a) retained s = refl

  abbrev CountsTo : ℕ → Store C → Type 0
  CountsTo n s = s.lease_sequence ≤ n + 1

  -- One call gives out at most one lease.
  pub apply-lease_sequence :
      (op : Op) (s : Store C) → (apply C op s).lease_sequence ≤ s.lease_sequence + 1
  unfolding apply set_upload_discarder put snapshot update attach_upload begin_lease release
      consume_with_photo
  apply-lease_sequence (Op.set_upload_discarder b) s = omega arith
  apply-lease_sequence (Op.put token content ttl now later) s = ground arith
  apply-lease_sequence (Op.snapshot token now) s = ground arith
  apply-lease_sequence (Op.update token f now later) s = grind (arith, save-lease_sequence)
  apply-lease_sequence (Op.attach_upload token none now later) s = ground arith
  apply-lease_sequence (Op.attach_upload token (some r) now later) s =
      grind (arith, save-lease_sequence)
  apply-lease_sequence (Op.begin_lease token now later) s = ground arith
  apply-lease_sequence (Op.release lease now later) s =
      grind (arith, save-lease_sequence, cleanup-lease_sequence)
  apply-lease_sequence (Op.consume lease photo now later) s =
      grind (arith, save-lease_sequence, cleanup-lease_sequence)
  apply-lease_sequence (Op.cancel token now later) s =
      unfold cancel cancel_value cancel_entry in
      grind (arith, save-lease_sequence, cleanup-lease_sequence)
  apply-lease_sequence (Op.fire a now) s =
      unfold expire expire_value in grind (arith, cleanup-lease_sequence)

  pub run-Inv :
      (ops : List Op) (s : Store C)
      → s.lease_sequence + length ops < 2 ^ 64
      → Inv C s
      → Inv C (run C ops s)
  unfolding run
  run-Inv [] s small inv = inv
  run-Inv (op ∷ ops) s small inv =
      run-Inv ops (apply C op s) (omega (arith, apply-lease_sequence op s))
        (apply-Inv op s (omega arith) inv)

  -- From a cache that holds no entry, every sequence of fewer than 2^64 calls and timers leaves
  -- every entry that the cache can return well formed: it owns uploads that its own `Put` made, it
  -- has uploads as long as it is ready or in processing, it holds credentials only while ready, and
  -- it has a lease only in processing.
  pub run_new-Inv :
      (c : C.Table) (ops : List Op)
      → ((k : String) (t : ℕ) (e : Entry) → C.get c t k ≢ some (entry_value e))
      → length ops < 2 ^ 64
      → Inv C (run C ops (new_store C c))
  unfolding new_store
  run_new-Inv c ops no_entry few =
      run-Inv ops (new_store C c) (omega arith) (λ k t e hit. absurd (no_entry k t e hit))

  attach_block-ne-panic :
      (u : Option ℕ) (r : UploadResult) (token : String) (e : Entry) (later : ℕ) (s : Store C)
      → is_some u ≡ true
      → (attach_block C u r token e later s).0 ≢ panic
  attach_block-ne-panic none r token e later s h = cc
  attach_block-ne-panic (some a) r token e later s h = λ p. cc

  attach_found-ne-panic :
      (m : Outcome Entry) (r : UploadResult) (token : String) (later : ℕ) (s : Store C)
      → m ≢ panic
      → ((e : Entry) → m ≡ ok e → e.status ≡ ready → is_some e.uploads ≡ true)
      → (on_entry C m s
          λ e. on_available C (available e.status) s (attach_block C e.uploads r token e later s)).0
        ≢ panic
  attach_found-ne-panic (ok e) r token later s sound owns =
      elim (Option-cases (available e.status)) [
        | inl free ↦ rw free (
            attach_block-ne-panic e.uploads r token e later s
              (owns e refl (available-none e.status free)))
        | inr (x, refused) ↦ rw refused (λ p. cc)
      ]
  attach_found-ne-panic (err x) r token later s sound owns = λ p. cc
  attach_found-ne-panic panic r token later s sound owns = λ p. sound refl

  check_entry-ne-panic : (now : ℕ) (v : Option Value) → check_entry C now v ≢ panic
  unfolding check_entry
  check_entry-ne-panic now none = λ p. cc
  check_entry-ne-panic now (some foreign) = λ p. cc
  check_entry-ne-panic now (some (entry_value e)) = ground arith

  pub attach_upload-ne-panic :
      (token : String) (r : Option UploadResult) (now later : ℕ) (s : Store C)
      → Inv C s
      → (attach_upload C token r now later s).0 ≢ panic
  unfolding attach_upload entry
  attach_upload-ne-panic token none now later s inv = λ p. cc
  attach_upload-ne-panic token (some r) now later s inv =
      elim (Bool-cases (leb_ℤ r.f_seq (pos 0) || str_eq r.url "")) [
        | inl refused ↦ rw refused (λ p. cc)
        | inr accepted ↦ rw accepted (
            attach_found-ne-panic (entry C s now token) r token later s
              (check_entry-ne-panic now (C.get s.cache now token))
              (λ e found is_ready.
                (inv token now e (entry-ok C s now token e found).0).attachable (inl is_ready)))
      ]

  -- After any sequence of fewer than 2^64 calls and timers on a store whose cache held no entry,
  -- `AttachUpload` does not dereference a nil pointer, whatever its arguments.
  pub run_new-attach_upload :
      (c : C.Table) (ops : List Op) (token : String) (r : Option UploadResult) (now later : ℕ)
      → ((k : String) (t : ℕ) (e : Entry) → C.get c t k ≢ some (entry_value e))
      → length ops < 2 ^ 64
      → (attach_upload C token r now later (run C ops (new_store C c))).0 ≢ panic
  run_new-attach_upload c ops token r now later no_entry few =
      attach_upload-ne-panic token r now later (run C ops (new_store C c))
        (run_new-Inv c ops no_entry few)
