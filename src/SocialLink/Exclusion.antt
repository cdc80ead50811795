-- ===== src/SocialLink/Exclusion.antt =====
-- The calls of the token store under a lease that another holds.
use daeil_scholar.Prelude.{
  ℕ, ◌≡◌, ◌≢◌, refl, sym, ◌∙◌, inl, inr, String, ◌||◌, Option, none, some, arith, str_eq,
  Bool-cases, ltb, ap, subst,
}
use daeil_scholar.Prelude.Int.{ℤ, pos, pos_part, leb_ℤ}
use daeil_scholar.GoCache.{Cache}
use daeil_scholar.SocialLink.{
  SocialLinkData, Entry, Value, entry_value, Store, UploadResult, Lease, Op, available, entry,
  leased_entry, put, update, attach_block, attach_upload, begin_lease, release, consume_with_photo,
  ok, LeaseId,
}
use daeil_scholar.SocialLink.Lookup.{
  available-none, entry-ok, leased_entry-ok, on_entry_keeps, on_available_keeps,
}
use daeil_scholar.SocialLink.Invariant.{Inv}
use daeil_scholar.SocialLink.Held.{
  Spares, Spares-refl, save-Spares, delete-Spares, cleanup-Spares, IsHeld, ready_elsewhere,
  owned_elsewhere,
}

-- The calls that do not end the lease `id` of `token`: any but a new `Put` of the same token and
-- the release or the consumption of that very lease.
abbrev pub IsOutside : String → LeaseId → Op → Type 0
IsOutside token id (Op.put other content ttl now later) = other ≢ token
IsOutside token id (Op.release lease now later) = lease.token ≡ token → lease.id ≢ id
IsOutside token id (Op.consume lease photo now later) = lease.token ≡ token → lease.id ≢ id
IsOutside token id _ = Unit

module _ (C : Cache Value) (token : String) (a : ℕ) (s : Store C) (e : Entry)
    (h : IsHeld C token a s e) (inv : Inv C s) where
  pub put-Spares :
      (other : String) (content : SocialLinkData) (ttl : ℤ) (now later : ℕ)
      → other ≢ token
      → Spares C token a s (put C other content ttl now later s).1
  unfolding put
  put-Spares other content ttl now later ne =
      elim (Bool-cases (str_eq other "" || leb_ℤ ttl (pos 0))) [
        | inl refused ↦ rw refused (Spares-refl C token a s)
        | inr accepted ↦
            let made = ((inv token now e (h.found now)).owned a h.at).0 in
            rw accepted (
              λ t. C.get-set_ne s.cache other token _ later t (some (pos_part ttl)) ne,
              ground arith,
            )
      ]

  pub update-Spares :
      (other : String) (f : SocialLinkData → SocialLinkData) (now later : ℕ)
      → Spares C token a s (update C other f now later s).1
  unfolding update
  update-Spares other f now later =
      on_entry_keeps C (Spares C token a s) (entry C s now other) s _ (Spares-refl C token a s)
        λ x found.
          on_available_keeps C (Spares C token a s) (available x.status) s _
            (Spares-refl C token a s)
            λ free.
              save-Spares C token a s s later other (record x { content = f x.content })
                (ready_elsewhere C token a s e h inv other now x (entry-ok C s now other x found).0
                  (available-none x.status free))
                (Spares-refl C token a s)

  pub begin_lease-Spares :
      (other : String) (now later : ℕ) → Spares C token a s (begin_lease C other now later s).1
  unfolding begin_lease
  begin_lease-Spares other now later =
      on_entry_keeps C (Spares C token a s) (entry C s now other) s _ (Spares-refl C token a s)
        λ x found.
          on_available_keeps C (Spares C token a s) (available x.status) s _
            (Spares-refl C token a s)
            λ free. (
              λ t. C.get-set_ne s.cache other token _ later t none (
                  ready_elsewhere C token a s e h inv other now x (entry-ok C s now other x found).0
                    (available-none x.status free)),
              refl,
            )

  attach_block-Spares :
      (u : Option ℕ) (r : UploadResult) (other : String) (x : Entry) (later : ℕ)
      → other ≢ token
      → u ≢ some a
      → Spares C token a s (attach_block C u r other x later s).1
  attach_block-Spares none r other x later ne theirs = Spares-refl C token a s
  attach_block-Spares (some b) r other x later ne theirs =
      save-Spares C token a s _ later other _ ne
        (λ t. refl, ground (arith, ap (λ (n : ℕ). some n) {x = a} {y = b}))

  pub attach_upload-Spares :
      (other : String) (r : Option UploadResult) (now later : ℕ)
      → Spares C token a s (attach_upload C other r now later s).1
  unfolding attach_upload
  attach_upload-Spares other none now later = Spares-refl C token a s
  attach_upload-Spares other (some r) now later =
      elim (Bool-cases (leb_ℤ r.f_seq (pos 0) || str_eq r.url "")) [
        | inl refused ↦ rw refused (Spares-refl C token a s)
        | inr accepted ↦ rw accepted (
            on_entry_keeps C (Spares C token a s) (entry C s now other) s _
              (Spares-refl C token a s)
              λ x found.
                on_available_keeps C (Spares C token a s) (available x.status) s _
                  (Spares-refl C token a s)
                  λ free.
                    let hit = (entry-ok C s now other x found).0 in
                    let ne =
                      ready_elsewhere C token a s e h inv other now x hit
                        (available-none x.status free) in
                    attach_block-Spares x.uploads r other x later ne
                      (owned_elsewhere C token a s e h inv other now x hit ne))
      ]

  -- A lease that opens an entry of the same token is the lease of `e`.
  other_lease :
      (lease : Lease) (now : ℕ) (x : Entry)
      → (lease.token ≡ token → lease.id ≢ e.lease_id)
      → leased_entry C s now lease ≡ ok x
      → lease.token ≢ token
  other_lease lease now x outside found same =
      let (hit, _, opens) = leased_entry-ok C s now lease x found in
      let here : C.get s.cache now lease.token ≡ some (entry_value e) =
        subst (λ k. C.get s.cache now k ≡ some (entry_value e)) (sym same) (h.found now) in
      outside same (sym opens ∙ cc)

  pub release-Spares :
      (lease : Lease) (now later : ℕ)
      → (lease.token ≡ token → lease.id ≢ e.lease_id)
      → Spares C token a s (release C lease now later s).1
  unfolding release
  release-Spares lease now later outside =
      on_entry_keeps C (Spares C token a s) (leased_entry C s now lease) s _
        (Spares-refl C token a s)
        λ x found.
          let ne = other_lease lease now x outside found in
          let hit = (leased_entry-ok C s now lease x found).0 in
          elim (Bool-cases (ltb now x.expires_at)) [
            | inl live ↦
                rw live (save-Spares C token a s s later lease.token _ ne (Spares-refl C token a s))
            | inr over ↦ rw over (
                cleanup-Spares C token a s _ x.uploads ""
                  (owned_elsewhere C token a s e h inv lease.token now x hit ne)
                  (delete-Spares C token a s lease.token ne))
          ]

  pub consume-Spares :
      (lease : Lease) (photo : String) (now later : ℕ)
      → (lease.token ≡ token → lease.id ≢ e.lease_id)
      → Spares C token a s (consume_with_photo C lease photo now later s).1
  unfolding consume_with_photo
  consume-Spares lease photo now later outside =
      on_entry_keeps C (Spares C token a s) (leased_entry C s now lease) s _
        (Spares-refl C token a s)
        λ x found.
          let ne = other_lease lease now x outside found in
          let hit = (leased_entry-ok C s now lease x found).0 in
          save-Spares C token a s _ later lease.token _ ne (
            cleanup-Spares C token a s s x.uploads photo
              (owned_elsewhere C token a s e h inv lease.token now x hit ne)
              (Spares-refl C token a s))
