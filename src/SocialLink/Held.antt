-- ===== src/SocialLink/Held.antt =====
-- A lease excludes: while an entry of the token store is in processing, no call but the release or
-- the consumption of that lease, and no timer, changes the entry or touches its uploads.
use daeil_scholar.Prelude.{
  ℕ, ◌-◌, ◌≡◌, ◌≢◌, refl, sym, ◌∙◌, inl, inr, String, Option, none, some, arith, Bool-cases, ltb,
  ap, subst,
}
use daeil_scholar.GoCache.{Cache}
use daeil_scholar.SocialLink.{Entry, Value, entry_value, ready, processing, Store, save, cleanup}
use daeil_scholar.SocialLink.Invariant.{Inv}

module _ (C : Cache Value) (token : String) (a : ℕ) where
  -- The step from `s` to `s'` leaves the entry of the token and the block of its uploads alone.
  abbrev pub Spares : Store C → Store C → Type 0
  Spares s s' =
      ((t : ℕ) → C.get s'.cache t token ≡ C.get s.cache t token) × (s'.blocks a ≡ s.blocks a)

  pub Spares-refl : (s : Store C) → Spares s s
  Spares-refl s = (λ t. refl, refl)

  pub save-Spares :
      (s r : Store C) (later : ℕ) (other : String) (x : Entry)
      → other ≢ token
      → Spares s r
      → Spares s (save C later other x r)
  unfolding save
  save-Spares s r later other x ne (c, b) = elim (Bool-cases (ltb later x.expires_at)) [
    | inl live ↦ rw live (
      λ t.
          C.get-set_ne r.cache other token (entry_value x) later t (some (x.expires_at - later)) ne
          ∙ c t,
      b,
    )
    | inr over ↦ rw over (λ t. C.get-delete_ne r.cache other token t ne ∙ c t, b)
  ]

  pub delete-Spares :
      (s : Store C) (other : String)
      → other ≢ token
      → Spares s (record s { cache = C.delete s.cache other })
  delete-Spares s other ne = (λ t. C.get-delete_ne s.cache other token t ne, refl)

  pub cleanup-Spares :
      (s r : Store C) (u : Option ℕ) (retained : String)
      → u ≢ some a
      → Spares s r
      → Spares s (cleanup C u retained r)
  unfolding cleanup
  cleanup-Spares s r none retained ne p = p
  cleanup-Spares s r (some b) retained ne (c, p) =
      (c, ground (arith, ap (λ (n : ℕ). some n) {x = a} {y = b}))

  -- The entry that is held, under the invariant.
  module _ (s : Store C) (e : Entry) where
    pub record IsHeld : Type 0 where
      pub found : (t : ℕ) → C.get s.cache t token ≡ some (entry_value e)
      pub busy : e.status ≡ processing
      pub at : e.uploads ≡ some a

    module _ (h : IsHeld) (inv : Inv C s) where
      -- A token at which a lookup finds an entry that is not in processing is another one.
      pub ready_elsewhere :
          (other : String) (t : ℕ) (x : Entry)
          → C.get s.cache t other ≡ some (entry_value x)
          → x.status ≡ ready
          → other ≢ token
      ready_elsewhere other t x hit is_ready same =
          let here : C.get s.cache t other ≡ some (entry_value e) =
            subst (λ k. C.get s.cache t k ≡ some (entry_value e)) (sym same) (h.found t) in
          cc (h.busy)

      -- An entry under another token has other uploads.
      pub owned_elsewhere :
          (other : String) (t : ℕ) (x : Entry)
          → C.get s.cache t other ≡ some (entry_value x)
          → other ≢ token
          → x.uploads ≢ some a
      owned_elsewhere other t x hit ne same =
          let mine = ((inv token t e (h.found t)).owned a h.at).1 in
          let theirs = ((inv other t x hit).owned a same).1 in ne (sym theirs ∙ mine)
