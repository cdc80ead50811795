-- ===== src/SocialLink/Exclusive.antt =====
-- What a lease of the token store promises its holder.
use daeil_scholar.Prelude.{
  ℕ, ◌+◌, ◌%◌, ◌^◌, ◌≤◌, ◌<◌, ◌≡◌, refl, sym, ◌∙◌, inl, inr, String, none, some, List, [], ◌∷◌,
  arith, Option-cases, ltb, ap, subst, length, All, is_some, if◌then◌else◌,
}
use daeil_scholar.GoCache.{Cache}
use daeil_scholar.SocialLink.{
  Entry, Value, entry_value, ready, processing, Store, Lease, Op, Outcome, ok, err, in_progress,
  invalid, blank_data, available, entry, begin_lease, cancel, consume_with_photo, leased_entry,
  check_lease, apply, run,
}
use daeil_scholar.SocialLink.Lookup.{
  available-none, entry-ok, option_eq_self, on_entry-ok, on_available-ok,
}
use daeil_scholar.SocialLink.Invariant.{Inv}
use daeil_scholar.SocialLink.Traces.{run-Inv, apply-Inv, apply-lease_sequence}
use daeil_scholar.SocialLink.Steps.{begin_lease-Inv}
use daeil_scholar.SocialLink.Held.{IsHeld}
use daeil_scholar.SocialLink.Exclusion.{IsOutside}
use daeil_scholar.SocialLink.Leases.{apply-Spares, apply-IsHeld, begin_lease_held, cancel_held}

module _ (C : Cache Value) where
  -- The entry as `Begin` leaves it.
  abbrev pub taken : Entry → ℕ → Entry
  taken e n = record e { content = blank_data; status = processing; lease_id = some n }

  abbrev pub next_lease : Store C → ℕ
  next_lease s = (s.lease_sequence + 1) % 2 ^ 64

  -- What a successful `Begin` found, returned and wrote.
  pub begin_lease-ok :
      (token : String) (now later : ℕ) (s : Store C) {l : Lease}
      → (begin_lease C token now later s).0 ≡ ok l
      → (e : Entry) × (C.get s.cache now token ≡ some (entry_value e))
        × (e.status ≡ ready)
        × (now < e.expires_at)
        × (begin_lease C token now later s ≡ (
          ok (record {
            token = token;
            id = some (next_lease s);
            content = e.content;
            expires_at = e.expires_at;
          }),
          record s {
            cache = C.set s.cache later token (entry_value (taken e (next_lease s))) none;
            lease_sequence = next_lease s;
          },
        ))
  unfolding begin_lease
  begin_lease-ok token now later s h =
      let (e, found, same) = on_entry-ok C (entry C s now token) s _ h in
      let (free, done) =
        on_available-ok C (available e.status) s _
          (ap (λ (r : Outcome Lease × Store C). r.0) (sym same) ∙ h) in
      let (hit, live) = entry-ok C s now token e found in
      (e, hit, available-none e.status free, live, same ∙ done)

  pub run-IsHeld :
      (token : String) (a : ℕ) (e : Entry) (ops : List Op) (s : Store C)
      → s.lease_sequence + length ops < 2 ^ 64
      → Inv C s
      → All (IsOutside token e.lease_id) ops
      → IsHeld C token a s e
      → IsHeld C token a (run C ops s) e × ((run C ops s).blocks a ≡ s.blocks a)
  unfolding run
  run-IsHeld token a e [] s few inv out h = (h, refl)
  run-IsHeld token a e (op ∷ ops) s few inv out h =
      let (held, kept) =
        run-IsHeld token a e ops (apply C op s) (omega (arith, apply-lease_sequence C op s))
          (apply-Inv C op s (omega arith) inv) out.1 (apply-IsHeld C token a s e h inv op out.0) in
      (held, kept ∙ (apply-Spares C token a s e h inv op out.0).1)

  -- The entry that a successful `Begin` leaves is held, with its uploads.
  pub begin_lease-IsHeld :
      (token : String) (now later : ℕ) (s : Store C) {l : Lease}
      → Inv C s
      → (begin_lease C token now later s).0 ≡ ok l
      → (e : Entry) × (a : ℕ) × (C.get s.cache now token ≡ some (entry_value e))
        × (e.uploads ≡ some a)
        × IsHeld C token a (begin_lease C token now later s).1 (taken e (next_lease s))
        × (l ≡ record {
          token = token;
          id = some (next_lease s);
          content = e.content;
          expires_at = e.expires_at;
        })
        × ((begin_lease C token now later s).1.blocks a ≡ s.blocks a)
        × ((begin_lease C token now later s).1.lease_sequence ≤ s.lease_sequence + 1)
  begin_lease-IsHeld token now later s inv h =
      let (e, hit, is_ready, live, done) = begin_lease-ok token now later s h in
      let owns = (inv token now e hit).attachable (inl is_ready) in
      elim (Option-cases e.uploads) [
        | inl nil ↦ absurd (cc (ap is_some nil))
        | inr (a, at) ↦ (
          e,
          a,
          hit,
          at,
          rw done (record {
            found =
                λ t. C.get-set_forever s.cache token (entry_value (taken e (next_lease s))) later t;
            busy = refl;
            at = at;
          }),
          cc (ap (λ (r : Outcome Lease × Store C). r.0) done),
          rw done refl,
          rw done (omega arith),
        )
      ]

  pub consume_held :
      (token : String) (a : ℕ) (e : Entry) (l : Lease) (photo : String) (t u : ℕ) (s : Store C)
      → IsHeld C token a s e
      → l.token ≡ token
      → l.id ≡ e.lease_id
      → leased_entry C s t l ≡ ok e
  unfolding leased_entry check_lease
  consume_held token a e l photo t u s h same opens =
      rw (same, h.found t, check_lease, h.busy, opens, option_eq_self e.lease_id)

  consume-ok :
      (token : String) (a : ℕ) (e : Entry) (l : Lease) (photo : String) (t u : ℕ) (s : Store C)
      → IsHeld C token a s e
      → l.token ≡ token
      → l.id ≡ e.lease_id
      → (consume_with_photo C l photo t u s).0 ≡ ok tt
  unfolding consume_with_photo
  consume-ok token a e l photo t u s h same opens =
      rw (consume_held token a e l photo t u s h same opens)

  -- Under the invariant and below 2^64 leases, a lease that `Begin` gave out excludes: after any
  -- calls and timers but a `Put` of the same token and the end of this very lease, a second `Begin`
  -- is refused (in progress before the expiry of the entry, invalid after it), `Cancel` is refused
  -- and changes nothing, and the holder can still consume.
  pub begin_lease-exclusive :
      (token : String) (now later : ℕ) (s : Store C) (ops : List Op) (photo : String) (t u : ℕ)
      {l : Lease}
      → Inv C s
      → s.lease_sequence + length ops + 1 < 2 ^ 64
      → (begin_lease C token now later s).0 ≡ ok l
      → All (IsOutside token l.id) ops
      → ((begin_lease C token t u (run C ops (begin_lease C token now later s).1)).0
          ≡ (if ltb t l.expires_at then err in_progress else err invalid))
        × (cancel C token t u (run C ops (begin_lease C token now later s).1)
            ≡ (err in_progress, run C ops (begin_lease C token now later s).1))
        × ((consume_with_photo C l photo t u (run C ops (begin_lease C token now later s).1)).0
            ≡ ok tt)
  begin_lease-exclusive token now later s ops photo t u {l = l} inv few h outside =
      let (e, a, hit, at, held, lease, _, counted) = begin_lease-IsHeld token now later s inv h in
      let s1 = (begin_lease C token now later s).1 in
      let (held', _) =
        run-IsHeld token a (taken e (next_lease s)) ops s1 (omega arith)
          (begin_lease-Inv C token now later s (omega arith) inv)
          (subst (λ (m : Lease). All (IsOutside token m.id) ops) lease outside) held in
      let s2 = run C ops s1 in
      let inv' =
        run-Inv C ops s1 (omega arith) (begin_lease-Inv C token now later s (omega arith) inv) in
      (
        rw lease (begin_lease_held C token a s2 (taken e (next_lease s)) held' inv' t u),
        cancel_held C token a s2 (taken e (next_lease s)) held' inv' t u,
        consume-ok token a (taken e (next_lease s)) l photo t u s2 held'
            (ap (λ (m : Lease). m.token) lease) (ap (λ (m : Lease). m.id) lease),
      )
