-- ===== src/SocialLink.antt =====
-- `SocialLinkTokenStore` of backend/internal/service/social_link_token_store.go. Each method runs
-- under the store's mutex, so it is one step on the store. `now` is the clock when a method looks
-- the entry up, `later` when it writes it back. The children prove what the steps keep.
mod Data
pub mod Lookup
pub mod Invariant
pub mod Steps
pub mod Traces
pub mod Held
pub mod Exclusion
pub mod Leases
pub mod Exclusive
pub mod Photos
pub mod Release
pub mod Discard
mod Examples
pub use Data.{
  SocialLinkData, blank_data, UploadResult, Status, ready, processing, consumed, cancelled, LeaseId,
  Entry, Value, entry_value, foreign, Uploads, Snapshot, Lease, Error, invalid, in_progress,
  already_consumed, already_cancelled, lease_invalid, Outcome, ok, err, panic, Store, blank_block,
  write_block, Op,
}
use daeil_scholar.Prelude.{
  ℕ, suc, ◌+◌, ◌-◌, ◌%◌, ◌^◌, String, Bool, true, false, not, ◌&&◌, ◌||◌, Option, none, some, List,
  [], ◌∷◌, ◌++◌, ltb, ◌==◌, if◌then◌else◌, keep, str_eq,
}
use daeil_scholar.Prelude.Int.{ℤ, pos, pos_part, leb_ℤ}
use daeil_scholar.GoCache.{Cache}

abbrev pub status_eq : Status → Status → Bool
status_eq ready ready = true
status_eq processing processing = true
status_eq consumed consumed = true
status_eq cancelled cancelled = true
status_eq _ _ = false

-- `==` on lease texts and on pointers
abbrev pub option_eq : Option ℕ → Option ℕ → Bool
option_eq none none = true
option_eq (some a) (some b) = a == b
option_eq _ _ = false

pub available : Status → Option Error
available processing = some in_progress
available consumed = some already_consumed
available cancelled = some already_cancelled
available ready = none

-- The uploads that `cleanup` discards: all but the retained address.
abbrev pub orphans : String → List UploadResult → List UploadResult
orphans retained = keep (λ r. not (str_eq r.url retained))

module _ (C : Cache Value) where
  abbrev pub Result : Type 0 → Type 0
  Result A = Outcome A × Store C

  pub check_entry : ℕ → Option Value → Outcome Entry
  check_entry now none = err invalid
  check_entry now (some foreign) = err invalid
  check_entry now (some (entry_value e)) = if ltb now e.expires_at then ok e else err invalid

  pub entry : Store C → ℕ → String → Outcome Entry
  entry s now token = check_entry now (C.get s.cache now token)

  pub check_lease : LeaseId → Option Value → Outcome Entry
  check_lease id none = err invalid
  check_lease id (some foreign) = err lease_invalid
  check_lease id (some (entry_value e)) =
      if not (status_eq e.status processing) || not (option_eq e.lease_id id)
      then err lease_invalid
      else ok e

  pub leased_entry : Store C → ℕ → Lease → Outcome Entry
  leased_entry s now lease = check_lease lease.id (C.get s.cache now lease.token)

  pub save : ℕ → String → Entry → Store C → Store C
  save now token e s =
      if ltb now e.expires_at
      then record s { cache = C.set s.cache now token (entry_value e) (some (e.expires_at - now)) }
      else record s { cache = C.delete s.cache token }

  pub cleanup : Option ℕ → String → Store C → Store C
  cleanup none retained s = s
  cleanup (some a) retained s = record s {
    blocks = write_block s.blocks a (record (s.blocks a) { results = []; timer_running = false });
    discarded =
        if s.has_discarder
        then s.discarded ++ orphans retained (s.blocks a).results
        else s.discarded;
  }

  -- The two early returns `if err != nil { return err }`.
  abbrev pub on_entry : {A : Type 0} → Outcome Entry → Store C → (Entry → Result A) → Result A
  on_entry (ok e) s k = k e
  on_entry (err x) s k = (err x, s)
  on_entry panic s k = (panic, s)

  abbrev pub on_available : {A : Type 0} → Option Error → Store C → Result A → Result A
  on_available none s r = r
  on_available (some x) s r = (err x, s)

  -- `NewSocialLinkTokenStore`: no counter, no discarder, no uploads yet.
  pub new_store : C.Table → Store C
  new_store c = record {
    cache = c;
    lease_sequence = 0;
    has_discarder = false;
    blocks = λ _. blank_block;
    next_block = 0;
    discarded = [];
  }

  -- `SetUploadDiscarder`, with a discarder or nil.
  pub set_upload_discarder : Bool → Store C → Store C
  set_upload_discarder b s = record s { has_discarder = b }

  pub put : String → SocialLinkData → ℤ → ℕ → ℕ → Store C → Result ℕ
  put token content ttl now later s =
      if str_eq token "" || leb_ℤ ttl (pos 0)
      then (err invalid, s)
      else let expires = now + pos_part ttl in
        let e : Entry = record {
          content = content;
          status = ready;
          lease_id = none;
          expires_at = expires;
          uploads = some s.next_block;
        } in
        let u : Uploads = record { results = []; timer_token = token; timer_running = true } in
        (
          ok expires,
          record s {
            cache = C.set s.cache later token (entry_value e) (some (pos_part ttl));
            blocks = write_block s.blocks s.next_block u;
            next_block = suc s.next_block;
          },
        )

  pub snapshot : String → ℕ → Store C → Result Snapshot
  snapshot token now s = on_entry (entry s now token) s λ e.
      on_available (available e.status) s
        (ok (record { content = e.content; expires_at = e.expires_at }), s)

  pub update : String → (SocialLinkData → SocialLinkData) → ℕ → ℕ → Store C → Result Snapshot
  update token f now later s = on_entry (entry s now token) s λ e.
      on_available (available e.status) s (
        ok (record { content = f e.content; expires_at = e.expires_at }),
        save later token (record e { content = f e.content }) s,
      )

  abbrev attach_block : Option ℕ → UploadResult → String → Entry → ℕ → Store C → Result (Unit {0})
  attach_block none r token e later s = (panic, s)
  attach_block (some a) r token e later s = (
    ok tt,
    save later token (record e { content = record (e.content) { profile_image_url = r.url } })
        (record s {
          blocks =
              write_block s.blocks a
                (record (s.blocks a) { results = (s.blocks a).results ++ r ∷ [] });
        }),
  )

  pub attach_upload : String → Option UploadResult → ℕ → ℕ → Store C → Result (Unit {0})
  attach_upload token none now later s = (err invalid, s)
  attach_upload token (some r) now later s =
      if leb_ℤ r.f_seq (pos 0) || str_eq r.url ""
      then (err invalid, s)
      else on_entry (entry s now token) s
          λ e. on_available (available e.status) s (attach_block e.uploads r token e later s)

  pub begin_lease : String → ℕ → ℕ → Store C → Result Lease
  begin_lease token now later s = on_entry (entry s now token) s λ e.
      on_available (available e.status) s (
        let n = (s.lease_sequence + 1) % 2 ^ 64 in
        let held = record e { content = blank_data; status = processing; lease_id = some n } in
        (
          ok (record {
            token = token;
            id = some n;
            content = e.content;
            expires_at = e.expires_at;
          }),
          record s {
            cache = C.set s.cache later token (entry_value held) none;
            lease_sequence = n;
          },
        ))

  pub release : Lease → ℕ → ℕ → Store C → Result (Unit {0})
  release lease now later s = on_entry (leased_entry s now lease) s λ e.
      if ltb now e.expires_at
      then (
        ok tt,
        save later lease.token
            (record e { content = lease.content; status = ready; lease_id = none }) s,
      )
      else (err invalid, cleanup e.uploads "" (record s { cache = C.delete s.cache lease.token }))

  pub consume_with_photo : Lease → String → ℕ → ℕ → Store C → Result (Unit {0})
  consume_with_photo lease photo now later s = on_entry (leased_entry s now lease) s λ e. (
    ok tt,
    save later lease.token
        (record e { content = blank_data; status = consumed; lease_id = none; uploads = none })
        (cleanup e.uploads photo s),
  )

  pub consume : Lease → ℕ → ℕ → Store C → Result (Unit {0})
  consume lease = consume_with_photo lease lease.content.profile_image_url

  abbrev cancel_ready : String → Entry → ℕ → Store C → Result (Unit {0})
  cancel_ready token e later s = (
    ok tt,
    save later token
        (record e { content = blank_data; status = cancelled; lease_id = none; uploads = none })
        (cleanup e.uploads "" s),
  )

  -- The `switch` of `Cancel`.
  pub cancel_entry : Status → String → Entry → ℕ → Store C → Result (Unit {0})
  cancel_entry processing token e later s = (err in_progress, s)
  cancel_entry consumed token e later s = (err already_consumed, s)
  cancel_entry cancelled token e later s = (ok tt, s)
  cancel_entry ready token e later s = cancel_ready token e later s

  pub cancel_value : Option Value → String → ℕ → ℕ → Store C → Result (Unit {0})
  unfolding cancel_entry
  cancel_value none token now later s = (ok tt, s)
  cancel_value (some foreign) token now later s = (ok tt, s)
  cancel_value (some (entry_value e)) token now later s =
      if not (status_eq e.status processing) && not (ltb now e.expires_at)
      then (ok tt, s)
      else cancel_entry e.status token e later s

  pub cancel : String → ℕ → ℕ → Store C → Result (Unit {0})
  unfolding cancel_value
  cancel token now later s = cancel_value (C.get s.cache now token) token now later s

  pub expire_value : Option Value → String → ℕ → Store C → Store C
  expire_value none token a s = cleanup (some a) "" s
  expire_value (some foreign) token a s = cleanup (some a) "" s
  expire_value (some (entry_value e)) token a s =
      if not (option_eq e.uploads (some a))
      then s
      else if status_eq e.status processing
      then s
      else cleanup (some a) "" (record s { cache = C.delete s.cache token })

  -- The timer of block `a` fires.
  pub expire : String → ℕ → ℕ → Store C → Store C
  unfolding expire_value
  expire token a now s = expire_value (C.get s.cache now token) token a s

  -- One call of a method, or one timer, with its arguments and the clock.
  pub apply : Op → Store C → Store C
  apply (Op.set_upload_discarder b) s = set_upload_discarder b s
  apply (Op.put token content ttl now later) s = (put token content ttl now later s).1
  apply (Op.snapshot token now) s = (snapshot token now s).1
  apply (Op.update token f now later) s = (update token f now later s).1
  apply (Op.attach_upload token r now later) s = (attach_upload token r now later s).1
  apply (Op.begin_lease token now later) s = (begin_lease token now later s).1
  apply (Op.release lease now later) s = (release lease now later s).1
  apply (Op.consume lease photo now later) s = (consume_with_photo lease photo now later s).1
  apply (Op.cancel token now later) s = (cancel token now later s).1
  apply (Op.fire a now) s =
      if ltb a s.next_block then expire (s.blocks a).timer_token a now s else s

  -- The mutex makes every run of the process one such sequence.
  pub run : List Op → Store C → Store C
  run [] s = s
  run (op ∷ ops) s = run ops (apply op s)
