-- ===== src/SocialLink/Photos.antt =====
-- How a lease of the token store ends, and what becomes of the uploaded photos.
use daeil_scholar.Prelude.{
  ℕ, ◌-◌, ◌+◌, ◌^◌, ◌<◌, ◌≡◌, ◌≢◌, refl, sym, ◌∙◌, inl, inr, String, true, Option, none, some, List,
  [], ◌∷◌, ◌++◌, arith, Bool-cases, lt→ltb, ap, subst, length, All, str_eq, str_eq_iff,
}
use mathlib.Core.List.{Memᴰ}
use daeil_scholar.GoCache.{Cache}
use daeil_scholar.SocialLink.{
  Entry, Value, entry_value, consumed, Store, Lease, Op, ok, err, already_consumed, lease_invalid,
  UploadResult, Uploads, blank_data, available, entry, check_entry, save, cleanup, begin_lease,
  consume_with_photo, leased_entry, check_lease, run, orphans,
}
use daeil_scholar.SocialLink.Invariant.{Inv}
use daeil_scholar.SocialLink.Steps.{begin_lease-Inv}
use daeil_scholar.SocialLink.Held.{IsHeld}
use daeil_scholar.SocialLink.Exclusion.{IsOutside}
use daeil_scholar.SocialLink.Exclusive.{
  taken, next_lease, begin_lease-IsHeld, run-IsHeld, consume_held,
}

orphans-retained :
    (photo : String) (rs : List UploadResult) → All (λ r. r.url ≢ photo) (orphans photo rs)
orphans-retained photo [] = tt
orphans-retained photo (r ∷ rs) = ground (arith, orphans-retained photo rs, str_eq_iff r.url photo)

orphans-complete :
    (photo : String) {r : UploadResult} {rs : List UploadResult}
    → Memᴰ r rs
    → r.url ≢ photo
    → Memᴰ r (orphans photo rs)
orphans-complete photo {r = r} (Memᴰ.head {x = x} {xs = rs} p) ne =
    elim (Bool-cases (str_eq x.url photo)) [
      | inl same ↦
          absurd (ne (ap (λ (y : UploadResult). y.url) p ∙ (str_eq_iff x.url photo).0 same))
      | inr other ↦ rw other (Memᴰ.head p)
    ]
orphans-complete photo {r = r} (Memᴰ.tail {x = x} {xs = rs} m) ne =
    elim (Bool-cases (str_eq x.url photo)) [
      | inl same ↦ rw same (orphans-complete photo m ne)
      | inr other ↦ rw other (Memᴰ.tail (orphans-complete photo m ne))
    ]

same_uploads :
    (o : Option Value) (x y : Entry) (a b : ℕ)
    → o ≡ some (entry_value x)
    → o ≡ some (entry_value y)
    → x.uploads ≡ some a
    → y.uploads ≡ some b
    → a ≡ b
same_uploads o x y a b p q at_x at_y =
    let same : x ≡ y = cc in
    let both : ◌≡◌ {A = Option ℕ} (some a) (some b) =
      sym at_x ∙ ap (λ (z : Entry). z.uploads) same ∙ at_y in
    cc

module _ (C : Cache Value) where
  save-blocks :
      (later : ℕ) (token : String) (e : Entry) (s : Store C)
      → ((save C later token e s).blocks ≡ s.blocks)
        × ((save C later token e s).discarded ≡ s.discarded)
  unfolding save
  save-blocks later token e s = ground arith

  pub save-live :
      (later t : ℕ) (token : String) (e : Entry) (s : Store C)
      → later < e.expires_at
      → t < e.expires_at
      → C.get (save C later token e s).cache t token ≡ some (entry_value e)
  unfolding save
  save-live later t token e s early soon = rw (lt→ltb later e.expires_at early) (
      C.get-set_live s.cache token (entry_value e) later (e.expires_at - later) t (omega arith)
        (omega arith))

  -- The entry as `ConsumeWithPhoto` writes it.
  abbrev finished : Entry → Entry
  finished e = record e { content = blank_data; status = consumed; lease_id = none; uploads = none }

  consume-store :
      (token : String) (a : ℕ) (e : Entry) (l : Lease) (photo : String) (now later : ℕ)
      (s : Store C)
      → IsHeld C token a s e
      → l.token ≡ token
      → l.id ≡ e.lease_id
      → consume_with_photo C l photo now later s
        ≡ (ok tt, save C later l.token (finished e) (cleanup C e.uploads photo s))
  unfolding consume_with_photo
  consume-store token a e l photo now later s h same opens =
      rw (consume_held C token a e l photo now later s h same opens)

  module _ (token : String) (t u : ℕ) (s : Store C) (x : Entry)
      (there : C.get s.cache t token ≡ some (entry_value x)) (spent : x.status ≡ consumed) where
    begin_lease_spent : t < x.expires_at → (begin_lease C token t u s).0 ≡ err already_consumed
    unfolding begin_lease entry check_entry available
    begin_lease_spent soon = rw (there, check_entry, lt→ltb t x.expires_at soon, spent, available)

    leased_entry_spent : (m : Lease) → m.token ≡ token → leased_entry C s t m ≡ err lease_invalid
    unfolding leased_entry check_lease
    leased_entry_spent m also = rw (also, there, check_lease, spent)

  -- After a held entry is consumed before it expires, its token is spent: until the expiry, every
  -- new `Begin` reports it as consumed, and no lease of it is accepted again, also not the same one.
  pub consume-spent :
      (token : String) (a : ℕ) (e : Entry) (l m : Lease) (photo : String) (now later t u : ℕ)
      (s : Store C)
      → IsHeld C token a s e
      → l.token ≡ token
      → l.id ≡ e.lease_id
      → m.token ≡ token
      → later < e.expires_at
      → t < e.expires_at
      → ((begin_lease C token t u (consume_with_photo C l photo now later s).1).0
          ≡ err already_consumed)
        × (leased_entry C (consume_with_photo C l photo now later s).1 t m ≡ err lease_invalid)
  consume-spent token a e l m photo now later t u s h same opens also early soon =
      let s1 = save C later l.token (finished e) (cleanup C e.uploads photo s) in
      let there : C.get s1.cache t token ≡ some (entry_value (finished e)) =
        subst (λ k. C.get s1.cache t k ≡ some (entry_value (finished e))) same
          (save-live later t l.token (finished e) (cleanup C e.uploads photo s) early soon) in
      rw (consume-store token a e l photo now later s h same opens) (
        begin_lease_spent token t u s1 (finished e) there refl soon,
        leased_entry_spent token t u s1 (finished e) there refl m also,
      )

  cleanup-lem :
      (a : ℕ) (u : Option ℕ) (photo : String) (s : Store C)
      → u ≡ some a
      → s.has_discarder ≡ true
      → ((cleanup C u photo s).discarded ≡ s.discarded ++ orphans photo (s.blocks a).results)
        × (((cleanup C u photo s).blocks a).results ≡ [])
  unfolding cleanup
  cleanup-lem a none photo s at on = absurd (cc)
  cleanup-lem a (some b) photo s at on =
      let same : b ≡ a = ground arith in rw (on, same) (refl, ground arith)

  consumed_photos :
      (token : String) (a : ℕ) (e : Entry) (l : Lease) (photo : String) (now later : ℕ)
      (s : Store C)
      → IsHeld C token a s e
      → l.token ≡ token
      → l.id ≡ e.lease_id
      → s.has_discarder ≡ true
      → ((consume_with_photo C l photo now later s).1.discarded
          ≡ s.discarded ++ orphans photo (s.blocks a).results)
        × (((consume_with_photo C l photo now later s).1.blocks a).results ≡ [])
  consumed_photos token a e l photo now later s h same opens on =
      let cleaned = cleanup C e.uploads photo s in
      let (gone, emptied) = cleanup-lem a e.uploads photo s h.at on in
      let (blocks, discarded) = save-blocks later l.token (finished e) cleaned in
      rw (consume-store token a e l photo now later s h same opens)
        (discarded ∙ gone, ap (λ (f : ℕ → Uploads). (f a).results) blocks ∙ emptied)

  -- The photos of a pending link, from the begin of its lease to the consumption. Whatever calls and
  -- timers come in between, but a `Put` of the same token and another end of this lease, if there is
  -- a discarder by then and the numbers of leases do not wrap, none of the uploads is touched; the consumption then takes exactly those whose address is not that of the
  -- committed photo to the discarder, in order, and forgets them all.
  pub consume-photos :
      (token : String) (now later : ℕ) (s : Store C) (ops : List Op) (photo : String) (t u : ℕ)
      (e : Entry) (a : ℕ) {l : Lease}
      → Inv C s
      → s.lease_sequence + length ops + 1 < 2 ^ 64
      → C.get s.cache now token ≡ some (entry_value e)
      → e.uploads ≡ some a
      → (begin_lease C token now later s).0 ≡ ok l
      → All (IsOutside token l.id) ops
      → (run C ops (begin_lease C token now later s).1).has_discarder ≡ true
      → let before = run C ops (begin_lease C token now later s).1 in
        let after = (consume_with_photo C l photo t u before).1 in
        let gone = orphans photo (s.blocks a).results in
        (before.blocks a ≡ s.blocks a)
        × (after.discarded ≡ before.discarded ++ gone)
        × ((after.blocks a).results ≡ [])
        × All (λ r. r.url ≢ photo) gone
        × ((r : UploadResult) → Memᴰ r (s.blocks a).results → r.url ≢ photo → Memᴰ r gone)
  consume-photos token now later s ops photo t u e a {l = l} inv few hit at h outside on =
      let (e', a', hit', at', held, lease, kept, counted) =
        begin_lease-IsHeld C token now later s inv h in
      let same : a' ≡ a = same_uploads (C.get s.cache now token) e' e a' a hit' hit at' at in
      let s1 = (begin_lease C token now later s).1 in
      let before = run C ops s1 in
      let (held', kept') =
        run-IsHeld C token a' (taken C e' (next_lease C s)) ops s1 (omega arith)
          (begin_lease-Inv C token now later s (omega arith) inv)
          (subst (λ (m : Lease). All (IsOutside token m.id) ops) lease outside) held in
      let untouched : before.blocks a ≡ s.blocks a =
        subst (λ b. before.blocks b ≡ s.blocks b) same (kept' ∙ kept) in
      let mine = subst (λ b. IsHeld C token b before (taken C e' (next_lease C s))) same held' in
      let (gone, emptied) =
        consumed_photos token a (taken C e' (next_lease C s)) l photo t u before mine
          (ap (λ (m : Lease). m.token) lease) (ap (λ (m : Lease). m.id) lease) on in
      let after = (consume_with_photo C l photo t u before).1 in
      (
        untouched,
        subst (λ (w : Uploads). after.discarded ≡ before.discarded ++ orphans photo w.results)
            untouched gone,
        emptied,
        orphans-retained photo (s.blocks a).results,
        λ r m ne. orphans-complete photo m ne,
      )
