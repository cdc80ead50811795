-- ===== src/SocialLink/Examples.antt =====
-- The token store on a cache that keeps the laws of go-cache: one link, one photo, one lease.
use daeil_scholar.Prelude.{
  ◌+◌, ◌^◌, ◌<◌, ◌≡◌, ◌≢◌, refl, true, none, some, List, [], ◌∷◌, ◌++◌, arith, All, str_eq_iff,
  if◌then◌else◌, ltb,
}
use daeil_scholar.Prelude.Int.{pos}
use mathlib.Core.List.{Memᴰ}
use daeil_scholar.GoCache.{Cache}
use daeil_scholar.GoCache.Table.{table, no_values}
use daeil_scholar.SocialLink.{
  SocialLinkData, blank_data, UploadResult, Entry, Value, entry_value, ready, processing, Store,
  Lease, Op, ok, err, panic, in_progress, invalid, already_consumed, lease_invalid, orphans,
  new_store, set_upload_discarder, put, snapshot, attach_upload, begin_lease, release,
  consume_with_photo, cancel, expire, save, entry, check_entry, leased_entry, available, apply, run,
}
use daeil_scholar.SocialLink.Invariant.{Inv}
use daeil_scholar.SocialLink.Traces.{run_new-Inv, run_new-attach_upload}
use daeil_scholar.SocialLink.Exclusive.{begin_lease-exclusive}
use daeil_scholar.SocialLink.Photos.{consume-photos, consume-spent}
use daeil_scholar.SocialLink.Held.{IsHeld}
use daeil_scholar.SocialLink.Release.{release-snapshot, begin_lease-fresh}

abbrev go_cache : Cache Value
go_cache = table Value

abbrev kakao : SocialLinkData
kakao = record blank_data { provider = "KT"; social_id = "77"; access_token = "secret" }

abbrev photo : UploadResult
photo = record { url = "/u/1.png"; width = pos 10; height = pos 10; f_seq = pos 5 }

abbrev portrait : UploadResult
portrait = record { url = "/u/2.png"; width = pos 20; height = pos 20; f_seq = pos 6 }

abbrev prepared : List Op
prepared =
    Op.set_upload_discarder true
    ∷ Op.put "tok" kakao (pos 300) 0 0
    ∷ Op.attach_upload "tok" (some photo) 1 1
    ∷ Op.attach_upload "tok" (some portrait) 2 2
    ∷ []

abbrev opened : Store go_cache
opened = run go_cache prepared (new_store go_cache (no_values Value))

abbrev lease : Lease
lease = record {
  token = "tok";
  id = some 1;
  content = record kakao { profile_image_url = "/u/2.png" };
  expires_at = 300;
}

-- What others do while the lease is out: a second begin, a cancellation, and the timer.
abbrev meanwhile : List Op
meanwhile =
    Op.begin_lease "tok" 11 11
    ∷ Op.cancel "tok" 12 12
    ∷ Op.fire 0 400
    ∷ Op.put "other" kakao (pos 9) 13 13
    ∷ []

opened-leases : (begin_lease go_cache "tok" 10 10 opened).0 ≡ ok lease
unfolding run apply set_upload_discarder put attach_upload begin_lease entry check_entry available
    save new_store
opened-leases = refl

opened-Inv : Inv go_cache opened
opened-Inv = run_new-Inv go_cache (no_values Value) prepared (λ k t e p. cc) (omega arith)

opened_few : opened.lease_sequence + 4 + 2 < 2 ^ 64
unfolding run apply set_upload_discarder put attach_upload begin_lease entry check_entry available
    save new_store
opened_few = omega arith

run_new-Inv_example : Inv go_cache (run go_cache prepared (new_store go_cache (no_values Value)))
run_new-Inv_example = run_new-Inv go_cache (no_values Value) prepared (λ k t e p. cc) (omega arith)

run_new-attach_upload_example : (attach_upload go_cache "tok" (some photo) 20 20 opened).0 ≢ panic
run_new-attach_upload_example =
    run_new-attach_upload go_cache (no_values Value) prepared "tok" (some photo) 20 20
      (λ k t e p. cc) (omega arith)

begin_lease-exclusive_example :
    let s = run go_cache meanwhile (begin_lease go_cache "tok" 10 10 opened).1 in
    ((begin_lease go_cache "tok" 20 20 s).0 ≡ (if ltb 20 300 then err in_progress else err invalid))
    × (cancel go_cache "tok" 20 20 s ≡ (err in_progress, s))
    × ((consume_with_photo go_cache lease "/u/2.png" 20 20 s).0 ≡ ok tt)
begin_lease-exclusive_example =
    begin_lease-exclusive go_cache "tok" 10 10 opened meanwhile "/u/2.png" 20 20 {l = lease}
      opened-Inv (omega (arith, opened_few)) opened-leases
      (tt, (tt, (tt, (ground (arith, str_eq_iff "other" "tok"), tt))))

abbrev stored : Entry
stored = record {
  content = record kakao { profile_image_url = "/u/2.png" };
  status = ready;
  lease_id = none;
  expires_at = 300;
  uploads = some 0;
}

stored_there : go_cache.get opened.cache 10 "tok" ≡ some (entry_value stored)
unfolding run apply set_upload_discarder put attach_upload begin_lease entry check_entry available
    save new_store
stored_there = refl

begun_with_discarder :
    (run go_cache [] (begin_lease go_cache "tok" 10 10 opened).1).has_discarder ≡ true
unfolding run apply set_upload_discarder put attach_upload begin_lease entry check_entry available
    save new_store
begun_with_discarder = refl

consume-photos_example :
    let before = run go_cache [] (begin_lease go_cache "tok" 10 10 opened).1 in
    let after = (consume_with_photo go_cache lease "/u/2.png" 20 20 before).1 in
    let gone = orphans "/u/2.png" (opened.blocks 0).results in
    (before.blocks 0 ≡ opened.blocks 0)
    × (after.discarded ≡ before.discarded ++ gone)
    × ((after.blocks 0).results ≡ [])
    × All (λ r. r.url ≢ "/u/2.png") gone
    × ((r : UploadResult) → Memᴰ r (opened.blocks 0).results → r.url ≢ "/u/2.png" → Memᴰ r gone)
consume-photos_example =
    consume-photos go_cache "tok" 10 10 opened [] "/u/2.png" 20 20 stored 0 {l = lease} opened-Inv
      (omega (arith, opened_few)) stored_there refl opened-leases tt begun_with_discarder

release-snapshot_example :
    (snapshot go_cache "tok" 30
      (release go_cache lease 20 20
        (run go_cache meanwhile (begin_lease go_cache "tok" 10 10 opened).1)).1).0
    ≡ (snapshot go_cache "tok" 10 opened).0
release-snapshot_example =
    release-snapshot go_cache "tok" 10 10 opened meanwhile 20 20 30 {l = lease} opened-Inv
      (omega (arith, opened_few)) opened-leases
      (tt, (tt, (tt, (ground (arith, str_eq_iff "other" "tok"), tt)))) (omega arith) (omega arith)
      (omega arith)

abbrev begun : Store go_cache
begun = (begin_lease go_cache "tok" 10 10 opened).1

abbrev taken_entry : Entry
taken_entry = record stored { content = blank_data; status = processing; lease_id = some 1 }

begun-IsHeld : IsHeld go_cache "tok" 0 begun taken_entry
unfolding run apply set_upload_discarder put attach_upload begin_lease entry check_entry available
    save new_store
begun-IsHeld = record { found = λ t. refl; busy = refl; at = refl }

consume-spent_example :
    let s = (consume_with_photo go_cache lease "/u/2.png" 20 20 begun).1 in
    ((begin_lease go_cache "tok" 30 30 s).0 ≡ err already_consumed)
    × (leased_entry go_cache s 30 lease ≡ err lease_invalid)
consume-spent_example =
    consume-spent go_cache "tok" 0 taken_entry lease lease "/u/2.png" 20 20 30 30 begun begun-IsHeld
      refl refl refl (omega arith) (omega arith)

abbrev second_lease : Lease
second_lease = record { token = "other"; id = some 2; content = kakao; expires_at = 22 }

second-begins :
    (begin_lease go_cache "other" 14 14 (run go_cache meanwhile begun)).0 ≡ ok second_lease
unfolding run apply set_upload_discarder put attach_upload begin_lease entry check_entry available
    save new_store cancel expire
second-begins = refl

begin_lease-fresh_example : lease.id ≢ second_lease.id
begin_lease-fresh_example =
    begin_lease-fresh go_cache "tok" "other" 10 10 14 14 opened meanwhile {l = lease}
      {m = second_lease} opened_few opened-leases second-begins
