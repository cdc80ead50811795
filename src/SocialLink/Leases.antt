-- ===== src/SocialLink/Leases.antt =====
-- A lease from its begin to its end, through any calls and timers in between.
use daeil_scholar.Prelude.{
  ℕ, ◌≡◌, ◌≢◌, refl, sym, ◌∙◌, inl, inr, String, not, ◌&&◌, Option, none, some, arith, Bool-cases,
  Text-cases, ltb, if◌then◌else◌, subst,
}
use daeil_scholar.GoCache.{Cache}
use daeil_scholar.SocialLink.{
  Entry, Value, entry_value, foreign, Status, ready, processing, consumed, cancelled, Store, Op,
  Outcome, err, in_progress, invalid, available, entry, check_entry, set_upload_discarder, snapshot,
  cancel, cancel_value, cancel_entry, expire, expire_value, status_eq, option_eq, begin_lease,
  apply,
}
use daeil_scholar.SocialLink.Lookup.{on_entry_keeps, on_available_keeps}
use daeil_scholar.SocialLink.Invariant.{Inv}
use daeil_scholar.SocialLink.Held.{
  Spares, Spares-refl, save-Spares, delete-Spares, cleanup-Spares, IsHeld, owned_elsewhere,
}
use daeil_scholar.SocialLink.Exclusion.{
  IsOutside, put-Spares, update-Spares, begin_lease-Spares, attach_upload-Spares, release-Spares,
  consume-Spares,
}

module _ (C : Cache Value) (token : String) (a : ℕ) (s : Store C) (e : Entry)
    (h : IsHeld C token a s e) (inv : Inv C s) where
  -- The value found is that of the held entry, or it stands under another token.
  abbrev IsElsewhere : String → Option Value → Type 0
  IsElsewhere other none = other ≢ token
  IsElsewhere other (some foreign) = other ≢ token
  IsElsewhere other (some (entry_value x)) = (other ≢ token) × (x.uploads ≢ some a)

  elsewhere :
      (other : String) (t : ℕ) (v : Option Value)
      → C.get s.cache t other ≡ v
      → other ≢ token
      → IsElsewhere other v
  elsewhere other t none hit ne = ne
  elsewhere other t (some foreign) hit ne = ne
  elsewhere other t (some (entry_value x)) hit ne =
      (ne, owned_elsewhere C token a s e h inv other t x hit ne)

  cancel_entry-Spares :
      (st : Status) (other : String) (x : Entry) (later : ℕ)
      → other ≢ token
      → x.uploads ≢ some a
      → Spares C token a s (cancel_entry C st other x later s).1
  unfolding cancel_entry
  cancel_entry-Spares processing other x later ne theirs = Spares-refl C token a s
  cancel_entry-Spares consumed other x later ne theirs = Spares-refl C token a s
  cancel_entry-Spares cancelled other x later ne theirs = Spares-refl C token a s
  cancel_entry-Spares ready other x later ne theirs =
      save-Spares C token a s _ later other _ ne
        (cleanup-Spares C token a s s x.uploads "" theirs (Spares-refl C token a s))

  cancel_value-Spares :
      (v : Option Value) (other : String) (now later : ℕ)
      → IsElsewhere other v
      → Spares C token a s (cancel_value C v other now later s).1
  unfolding cancel_value
  cancel_value-Spares none other now later ne = Spares-refl C token a s
  cancel_value-Spares (some foreign) other now later ne = Spares-refl C token a s
  cancel_value-Spares (some (entry_value x)) other now later (ne, theirs) =
      elim (Bool-cases (not (status_eq x.status processing) && not (ltb now x.expires_at))) [
        | inl over ↦ rw over (Spares-refl C token a s)
        | inr live ↦ rw live (cancel_entry-Spares x.status other x later ne theirs)
      ]

  -- `Cancel` refuses the token of the held entry, expired or not.
  pub cancel_held : (now later : ℕ) → cancel C token now later s ≡ (err in_progress, s)
  unfolding cancel cancel_value cancel_entry
  cancel_held now later = rw (h.found now, cancel_value, h.busy, cancel_entry)

  cancel-Spares :
      (other : String) (now later : ℕ) → Spares C token a s (cancel C other now later s).1
  unfolding cancel
  cancel-Spares other now later = elim (Text-cases other token) [
    | inl same ↦
        subst (λ k. Spares C token a s (cancel C k now later s).1) (sym same)
          (subst (λ (r : Outcome (Unit {0}) × Store C). Spares C token a s r.1)
            (sym (cancel_held now later)) (Spares-refl C token a s))
    | inr ne ↦
        cancel_value-Spares (C.get s.cache now other) other now later
          (elsewhere other now (C.get s.cache now other) refl ne)
  ]

  expire_value-Spares :
      (v : Option Value) (other : String) (b : ℕ)
      → some b ≢ some a
      → other ≢ token
      → Spares C token a s (expire_value C v other b s)
  unfolding expire_value
  expire_value-Spares none other b theirs ne =
      cleanup-Spares C token a s s (some b) "" theirs (Spares-refl C token a s)
  expire_value-Spares (some foreign) other b theirs ne =
      cleanup-Spares C token a s s (some b) "" theirs (Spares-refl C token a s)
  expire_value-Spares (some (entry_value x)) other b theirs ne =
      elim (Bool-cases (not (option_eq x.uploads (some b)))) [
        | inl moved ↦ rw moved (Spares-refl C token a s)
        | inr same ↦ rw same (elim (Bool-cases (status_eq x.status processing)) [
          | inl busy ↦ rw busy (Spares-refl C token a s)
          | inr idle ↦
              rw idle (
                cleanup-Spares C token a s _ (some b) "" theirs
                  (delete-Spares C token a s other ne))
        ])
      ]

  -- A timer of the token of the held entry changes nothing.
  expire_held : (b now : ℕ) → expire C token b now s ≡ s
  unfolding expire expire_value
  expire_held b now =
      rw (h.found now, expire_value)
        (elim (Bool-cases (not (option_eq e.uploads (some b)))) [
          | inl moved ↦ rw moved
          | inr same ↦ rw (same, h.busy)
        ])

  expire-Spares :
      (other : String) (b now : ℕ)
      → (other ≢ token → some b ≢ some a)
      → Spares C token a s (expire C other b now s)
  unfolding expire
  expire-Spares other b now theirs = elim (Text-cases other token) [
    | inl same ↦
        subst (λ k. Spares C token a s (expire C k b now s)) (sym same)
          (subst (λ r. Spares C token a s r) (sym (expire_held b now)) (Spares-refl C token a s))
    | inr ne ↦ expire_value-Spares (C.get s.cache now other) other b (theirs ne) ne
  ]

  fire-Spares : (b now : ℕ) → Spares C token a s (apply C (Op.fire b now) s)
  unfolding apply
  fire-Spares b now = elim (Bool-cases (ltb b s.next_block)) [
    | inl made ↦ rw made (
        expire-Spares (s.blocks b).timer_token b now
          (λ ne same. ne (ground (arith, (inv token now e (h.found now)).owned a h.at))))
    | inr unmade ↦ rw unmade (Spares-refl C token a s)
  ]

  pub apply-Spares : (op : Op) → IsOutside token e.lease_id op → Spares C token a s (apply C op s)
  unfolding apply set_upload_discarder snapshot
  apply-Spares (Op.set_upload_discarder b) out = Spares-refl C token a s
  apply-Spares (Op.put other content ttl now later) out =
      put-Spares C token a s e h inv other content ttl now later out
  apply-Spares (Op.snapshot other now) out =
      on_entry_keeps C (Spares C token a s) (entry C s now other) s _ (Spares-refl C token a s)
        λ x _.
          on_available_keeps C (Spares C token a s) (available x.status) s _
            (Spares-refl C token a s) λ _. Spares-refl C token a s
  apply-Spares (Op.update other f now later) out =
      update-Spares C token a s e h inv other f now later
  apply-Spares (Op.attach_upload other r now later) out =
      attach_upload-Spares C token a s e h inv other r now later
  apply-Spares (Op.begin_lease other now later) out =
      begin_lease-Spares C token a s e h inv other now later
  apply-Spares (Op.release lease now later) out =
      release-Spares C token a s e h inv lease now later out
  apply-Spares (Op.consume lease photo now later) out =
      consume-Spares C token a s e h inv lease photo now later out
  apply-Spares (Op.cancel other now later) out = cancel-Spares other now later
  apply-Spares (Op.fire b now) out = fire-Spares b now

  pub apply-IsHeld : (op : Op) → IsOutside token e.lease_id op → IsHeld C token a (apply C op s) e
  apply-IsHeld op out = record {
    found = λ t. (apply-Spares op out).0 t ∙ h.found t;
    busy = h.busy;
    at = h.at;
  }

  -- While an entry is held, `Begin` gives out no second lease of its token.
  pub begin_lease_held :
      (now later : ℕ)
      → (begin_lease C token now later s).0
        ≡ (if ltb now e.expires_at then err in_progress else err invalid)
  unfolding begin_lease entry check_entry available
  begin_lease_held now later =
      rw (h.found now, check_entry)
        (elim (Bool-cases (ltb now e.expires_at)) [
          | inl live ↦ rw (live, h.busy, available)
          | inr over ↦ rw over
        ])
