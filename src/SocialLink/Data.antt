-- ===== src/SocialLink/Data.antt =====
-- The types of backend/internal/service/social_link_token_store.go: the pending link, its entry in
-- the cache, the uploads that hang on it by pointer, and the store.
use daeil_scholar.Prelude.{ℕ, String, Bool, Option, List, [], ◌==◌, if◌then◌else◌}
use daeil_scholar.Prelude.Int.{ℤ}
use daeil_scholar.GoCache.{Cache}

-- `model.SocialLinkData`
pub record SocialLinkData : Type 0 where
  pub provider : String
  pub social_id : String
  pub email : String
  pub nickname : String
  pub profile_image_url : String
  pub access_token : String
  pub revocation_token : String

-- The zero value `model.SocialLinkData{}`.
abbrev pub blank_data : SocialLinkData
blank_data = record {
  provider = "";
  social_id = "";
  email = "";
  nickname = "";
  profile_image_url = "";
  access_token = "";
  revocation_token = "";
}

-- `UploadResult` of upload_orchestrator.go
pub record UploadResult : Type 0 where
  pub url : String
  pub width : ℤ
  pub height : ℤ
  pub f_seq : ℤ

pub data Status : Type 0 where
  ready processing consumed cancelled : Status

-- The text "lease-%d" as its number, the empty text as `none`.
abbrev pub LeaseId : Type 0
LeaseId = Option ℕ

-- `uploads` is a pointer to the heap of the store, or nil.
pub record Entry : Type 0 where
  pub content : SocialLinkData
  pub status : Status
  pub lease_id : LeaseId
  pub expires_at : ℕ
  pub uploads : Option ℕ

-- What the cache holds: an entry, or a value that the assertion `value.(socialLinkTokenEntry)`
-- refuses.
pub data Value : Type 0 where
  entry_value : Entry → Value
  foreign : Value

-- `Results`, and the timer of `time.AfterFunc` with the token that its closure captures. Every
-- block of `socialLinkUploads` is made by `Put`, which sets its timer.
pub record Uploads : Type 0 where
  pub results : List UploadResult
  pub timer_token : String
  pub timer_running : Bool

pub record Snapshot : Type 0 where
  pub content : SocialLinkData
  pub expires_at : ℕ

pub record Lease : Type 0 where
  pub token : String
  pub id : LeaseId
  pub content : SocialLinkData
  pub expires_at : ℕ

pub data Error : Type 0 where
  invalid in_progress already_consumed already_cancelled lease_invalid : Error

-- How a method returns: a value, one of the sentinel errors, or a nil-pointer panic.
pub data Outcome (A : Type 0) : Type 0 where
  ok : A → Outcome A
  err : Error → Outcome A
  panic : Outcome A

-- `SocialLinkTokenStore` with the blocks of uploads that it has allocated, below `next_block`, and
-- the uploads that `cleanup` has handed to the discarder.
pub record Store (C : Cache Value) : Type 0 where
  pub cache : C.Table
  pub lease_sequence : ℕ
  pub has_discarder : Bool
  pub blocks : ℕ → Uploads
  pub next_block : ℕ
  pub discarded : List UploadResult

abbrev pub blank_block : Uploads
blank_block = record { results = []; timer_token = ""; timer_running = Bool.false }

-- A write through the pointer `a`.
abbrev pub write_block : (ℕ → Uploads) → ℕ → Uploads → ℕ → Uploads
write_block h a u b = if b == a then u else h b

-- A call of a method with the readings of the clock; `fire` is the timer of a block.
pub data Op : Type 0 where
  set_upload_discarder : Bool → Op
  put : String → SocialLinkData → ℤ → ℕ → ℕ → Op
  snapshot : String → ℕ → Op
  update : String → (SocialLinkData → SocialLinkData) → ℕ → ℕ → Op
  attach_upload : String → Option UploadResult → ℕ → ℕ → Op
  begin_lease : String → ℕ → ℕ → Op
  release : Lease → ℕ → ℕ → Op
  consume : Lease → String → ℕ → ℕ → Op
  cancel : String → ℕ → ℕ → Op
  fire : ℕ → ℕ → Op
