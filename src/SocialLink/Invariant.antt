-- ===== src/SocialLink/Invariant.antt =====
-- What holds of every entry of the token store between two method calls, and that writing an entry
-- back and cleaning up uploads keep it.
use daeil_scholar.Prelude.{
  ℕ, ◌≤◌, ◌<◌, ◌≡◌, ◌≢◌, refl, ◌⊎◌, inl, inr, String, true, Option, none, some, arith, is_some,
  Bool-cases, ltb, subst, ◌-◌,
}
use daeil_scholar.GoCache.{Cache, Lifetime}
use daeil_scholar.GoCache.Reads.{set-hit, delete-hit}
use daeil_scholar.SocialLink.{
  Entry, Value, entry_value, ready, processing, Store, blank_data, save, cleanup,
}

module _ (C : Cache Value) where
  -- The entry `e` stands under the token `k`.
  pub record IsEntryOk (s : Store C) (k : String) (e : Entry) : Type 0 where
    -- Its uploads were allocated, by a `Put` of this token.
    pub owned : (a : ℕ) → e.uploads ≡ some a → (a < s.next_block) × ((s.blocks a).timer_token ≡ k)
    -- Before it ends it has uploads to attach to.
    pub attachable : (e.status ≡ ready) ⊎ (e.status ≡ processing) → is_some e.uploads ≡ true
    -- Only a ready entry holds provider credentials.
    pub blanked : e.status ≢ ready → e.content ≡ blank_data
    -- Only an entry in processing has a lease, and that lease has been given out.
    pub leased : (n : ℕ) → e.lease_id ≡ some n → (e.status ≡ processing) × (n ≤ s.lease_sequence)

  -- Every entry that the cache can return, now or later, is well formed.
  abbrev pub Inv : Store C → Type 0
  Inv s =
      (k : String) (t : ℕ) (e : Entry) → C.get s.cache t k ≡ some (entry_value e) → IsEntryOk s k e

  -- No block is freed or given to another token, and no lease is taken back.
  abbrev pub Grows : Store C → Store C → Type 0
  Grows s s' =
      (s.next_block ≤ s'.next_block)
      × (s.lease_sequence ≤ s'.lease_sequence)
      × ((a : ℕ) → a < s.next_block → (s'.blocks a).timer_token ≡ (s.blocks a).timer_token)

  pub IsEntryOk-Grows :
      (s s' : Store C) (k : String) (e : Entry) → Grows s s' → IsEntryOk s k e → IsEntryOk s' k e
  IsEntryOk-Grows s s' k e (g, q, b) h = record {
    owned = λ a p. ground (arith, h.owned a p, b a);
    attachable = h.attachable;
    blanked = h.blanked;
    leased = λ n p. ground (arith, h.leased n p);
  }

  -- A write of a well-formed entry keeps the invariant.
  pub set-Inv :
      (s s' : Store C) (token : String) (e : Entry) (now : ℕ) (d : Lifetime)
      → s'.cache ≡ C.set s.cache now token (entry_value e) d
      → Grows s s'
      → IsEntryOk s' token e
      → Inv s
      → Inv s'
  set-Inv s s' token e now d w g ok_e inv k t x found =
      elim (set-hit C s.cache token k (entry_value e) (entry_value x) now t d (rw (← w) found)) [
        | inl (same, is_e) ↦
            let same_entry : e ≡ x = cc in
            subst (λ y. IsEntryOk s' k y) same_entry (subst (λ j. IsEntryOk s' j e) same ok_e)
        | inr (_, old) ↦ IsEntryOk-Grows s s' k x g (inv k t x old)
      ]

  pub delete-Inv :
      (s s' : Store C) (token : String)
      → s'.cache ≡ C.delete s.cache token
      → Grows s s'
      → Inv s
      → Inv s'
  delete-Inv s s' token w g inv k t x found =
      IsEntryOk-Grows s s' k x g
        (inv k t x (delete-hit C s.cache token k (entry_value x) t (rw (← w) found)).1)

  -- A change outside the cache that frees nothing keeps the invariant.
  pub same-Inv : (s s' : Store C) → s'.cache ≡ s.cache → Grows s s' → Inv s → Inv s'
  same-Inv s s' w g inv k t x found = IsEntryOk-Grows s s' k x g (inv k t x (rw (← w) found))

  pub Grows-refl : (s : Store C) → Grows s s
  Grows-refl s = (omega arith, omega arith, λ a _. refl)

  pub save-Inv :
      (s : Store C) (later : ℕ) (token : String) (e : Entry)
      → IsEntryOk s token e
      → Inv s
      → Inv (save C later token e s)
  unfolding save
  save-Inv s later token e ok_e inv = elim (Bool-cases (ltb later e.expires_at)) [
    | inl live ↦ rw live (
        set-Inv s _ token e later (some (e.expires_at - later)) refl (Grows-refl s)
          (IsEntryOk-Grows s _ token e (Grows-refl s) ok_e) inv)
    | inr over ↦ rw over (delete-Inv s _ token refl (Grows-refl s) inv)
  ]

  pub cleanup-Grows :
      (s : Store C) (u : Option ℕ) (retained : String) → Grows s (cleanup C u retained s)
  unfolding cleanup
  cleanup-Grows s none retained = Grows-refl s
  cleanup-Grows s (some b) retained = (omega arith, omega arith, λ a _. ground arith)

  pub cleanup-cache :
      (s : Store C) (u : Option ℕ) (retained : String) → (cleanup C u retained s).cache ≡ s.cache
  unfolding cleanup
  cleanup-cache s none retained = refl
  cleanup-cache s (some b) retained = refl

  pub cleanup-Inv :
      (s : Store C) (u : Option ℕ) (retained : String) → Inv s → Inv (cleanup C u retained s)
  cleanup-Inv s u retained =
      same-Inv s (cleanup C u retained s) (cleanup-cache s u retained) (cleanup-Grows s u retained)
