-- ===== src/SocialLink/Release.antt =====
-- The release of a lease of the token store, and the numbers that leases carry.
use daeil_scholar.Prelude.{
  ℕ, ◌+◌, ◌^◌, ◌≤◌, ◌<◌, ◌≡◌, ◌≢◌, refl, sym, ◌∙◌, String, Option, some, none, List, [], ◌∷◌, arith,
  lt→ltb, ap, subst, length, All,
}
use daeil_scholar.GoCache.{Cache}
use daeil_scholar.SocialLink.{
  Entry, Value, entry_value, ready, Store, Lease, Op, Outcome, ok, SocialLinkData, available, entry,
  check_entry, save, set_upload_discarder, put, snapshot, update, attach_upload, begin_lease,
  release, consume_with_photo, cancel, cancel_value, cancel_entry, expire, expire_value, apply, run,
}
use daeil_scholar.SocialLink.Invariant.{Inv}
use daeil_scholar.SocialLink.Traces.{
  apply-lease_sequence, save-lease_sequence, cleanup-lease_sequence,
}
use daeil_scholar.SocialLink.Steps.{begin_lease-Inv}
use daeil_scholar.SocialLink.Held.{IsHeld}
use daeil_scholar.SocialLink.Exclusion.{IsOutside}
use daeil_scholar.SocialLink.Exclusive.{
  taken, next_lease, begin_lease-ok, begin_lease-IsHeld, run-IsHeld, consume_held,
}
use daeil_scholar.SocialLink.Photos.{save-live}

ok_id : (l m : Lease) → ok l ≡ ok m → l.id ≡ m.id
ok_id l m p = let same : l ≡ m = cc in ap (λ (x : Lease). x.id) same

numbers_ne : (m n : ℕ) → m ≢ n → ◌≢◌ {A = Option ℕ} (some m) (some n)
numbers_ne m n ne p = ne (cc)

module _ (C : Cache Value) where
  snapshot_ready :
      (token : String) (t : ℕ) (s : Store C) (x : Entry)
      → C.get s.cache t token ≡ some (entry_value x)
      → x.status ≡ ready
      → t < x.expires_at
      → (snapshot C token t s).0 ≡ ok (record { content = x.content; expires_at = x.expires_at })
  unfolding snapshot entry check_entry available
  snapshot_ready token t s x there is_ready soon =
      rw (there, check_entry, lt→ltb t x.expires_at soon, is_ready, available)

  -- The entry as `Release` writes it.
  abbrev returned : Entry → SocialLinkData → Entry
  returned e content = record e { content = content; status = ready; lease_id = none }

  release-store :
      (token : String) (a : ℕ) (e : Entry) (l : Lease) (now later : ℕ) (s : Store C)
      → IsHeld C token a s e
      → l.token ≡ token
      → l.id ≡ e.lease_id
      → now < e.expires_at
      → release C l now later s ≡ (ok tt, save C later l.token (returned e l.content) s)
  unfolding release
  release-store token a e l now later s h same opens live =
      rw (consume_held C token a e l "" now later s h same opens, lt→ltb now e.expires_at live)

  -- A lease that is given back before the expiry leaves no trace: whatever calls and timers came in
  -- between, but a `Put` of the same token and another end of this lease, a snapshot taken after the
  -- release reads what a snapshot before the begin read.
  pub release-snapshot :
      (token : String) (now later : ℕ) (s : Store C) (ops : List Op) (t u v : ℕ) {l : Lease}
      → Inv C s
      → s.lease_sequence + length ops + 1 < 2 ^ 64
      → (begin_lease C token now later s).0 ≡ ok l
      → All (IsOutside token l.id) ops
      → t < l.expires_at
      → u < l.expires_at
      → v < l.expires_at
      → (snapshot C token v (release C l t u (run C ops (begin_lease C token now later s).1)).1).0
        ≡ (snapshot C token now s).0
  release-snapshot token now later s ops t u v {l = l} inv few h outside tl ul vl =
      let (e', hit', is_ready, live, _) = begin_lease-ok C token now later s h in
      let (e, a, hit, at, held, lease, _, counted) = begin_lease-IsHeld C token now later s inv h in
      let same : e' ≡ e = cc in
      let s1 = (begin_lease C token now later s).1 in
      let before = run C ops s1 in
      let (held', _) =
        run-IsHeld C token a (taken C e (next_lease C s)) ops s1 (omega arith)
          (begin_lease-Inv C token now later s (omega arith) inv)
          (subst (λ (m : Lease). All (IsOutside token m.id) ops) lease outside) held in
      let until : l.expires_at ≡ e.expires_at = ap (λ (m : Lease). m.expires_at) lease in
      let token_eq : l.token ≡ token = ap (λ (m : Lease). m.token) lease in
      let content_eq : l.content ≡ e.content = ap (λ (m : Lease). m.content) lease in
      let back = returned (taken C e (next_lease C s)) l.content in
      let s2 = save C u l.token back before in
      let there : C.get s2.cache v token ≡ some (entry_value back) =
        subst (λ k. C.get s2.cache v k ≡ some (entry_value back)) token_eq
          (save-live C u v l.token back before (omega arith) (omega arith)) in
      rw
        (release-store token a (taken C e (next_lease C s)) l t u before held' token_eq
          (ap (λ (m : Lease). m.id) lease) (omega arith))
        (snapshot_ready token v s2 back there refl (omega arith)
          ∙ ap (λ (c : SocialLinkData). ok (record { content = c; expires_at = e.expires_at }))
              content_eq
          ∙ sym (
              snapshot_ready token now s e hit (cc)
                (subst (λ (x : Entry). now < x.expires_at) same live)))

  -- The lease numbers never fall while fewer than 2^64 leases have been begun.
  apply-lease_rises :
      (op : Op) (s : Store C)
      → s.lease_sequence + 1 < 2 ^ 64
      → s.lease_sequence ≤ (apply C op s).lease_sequence
  unfolding apply set_upload_discarder put snapshot update attach_upload begin_lease release
      consume_with_photo
  apply-lease_rises (Op.set_upload_discarder b) s small = omega arith
  apply-lease_rises (Op.put token content ttl now later) s small = ground arith
  apply-lease_rises (Op.snapshot token now) s small = ground arith
  apply-lease_rises (Op.update token f now later) s small = grind (arith, save-lease_sequence C)
  apply-lease_rises (Op.attach_upload token none now later) s small = ground arith
  apply-lease_rises (Op.attach_upload token (some r) now later) s small =
      grind (arith, save-lease_sequence C)
  apply-lease_rises (Op.begin_lease token now later) s small = ground arith
  apply-lease_rises (Op.release lease now later) s small =
      grind (arith, save-lease_sequence C, cleanup-lease_sequence C)
  apply-lease_rises (Op.consume lease photo now later) s small =
      grind (arith, save-lease_sequence C, cleanup-lease_sequence C)
  apply-lease_rises (Op.cancel token now later) s small =
      unfold cancel cancel_value cancel_entry in
      grind (arith, save-lease_sequence C, cleanup-lease_sequence C)
  apply-lease_rises (Op.fire a now) s small =
      unfold expire expire_value in grind (arith, cleanup-lease_sequence C)

  run-lease_rises :
      (ops : List Op) (s : Store C)
      → s.lease_sequence + length ops < 2 ^ 64
      → s.lease_sequence ≤ (run C ops s).lease_sequence
        × ((run C ops s).lease_sequence ≤ s.lease_sequence + length ops)
  unfolding run
  run-lease_rises [] s few = (omega arith, omega arith)
  run-lease_rises (op ∷ ops) s few =
      let one = apply-lease_sequence C op s in
      let rest = run-lease_rises ops (apply C op s) (omega arith) in
      let up = apply-lease_rises op s (omega arith) in (omega arith, omega arith)

  begin_lease-id :
      (token : String) (now later : ℕ) (s : Store C) {l : Lease}
      → (begin_lease C token now later s).0 ≡ ok l
      → (l.id ≡ some (next_lease C s))
        × ((begin_lease C token now later s).1.lease_sequence ≡ next_lease C s)
  begin_lease-id token now later s h =
      let (e, _, _, _, done) = begin_lease-ok C token now later s h in
      let given = ap (λ (r : Outcome Lease × Store C). r.0) done in
      (ok_id _ _ (sym h ∙ given), rw done refl)

  -- Two leases begun one after the other, for any tokens and with any calls and timers in between,
  -- have different numbers, as long as fewer than 2^64 leases are begun in all: a holder never opens
  -- the lease of another.
  pub begin_lease-fresh :
      (token other : String) (now later t u : ℕ) (s : Store C) (ops : List Op) {l m : Lease}
      → s.lease_sequence + length ops + 2 < 2 ^ 64
      → (begin_lease C token now later s).0 ≡ ok l
      → (begin_lease C other t u (run C ops (begin_lease C token now later s).1)).0 ≡ ok m
      → l.id ≢ m.id
  begin_lease-fresh token other now later t u s ops {l = l} {m = m} few first second equal =
      let s1 = (begin_lease C token now later s).1 in
      let (mine, counted) = begin_lease-id token now later s first in
      let (theirs, _) = begin_lease-id other t u (run C ops s1) second in
      let (rises, bounded) = run-lease_rises ops s1 (omega arith) in
      numbers_ne (next_lease C s) (next_lease C (run C ops s1)) (omega arith)
        (sym mine ∙ equal ∙ theirs)
