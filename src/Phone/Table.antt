-- ===== src/Phone/Table.antt =====
-- The table of phone verifications: backend/internal/repository/phone_verification_repo.go, the row
-- of backend/internal/model/phone_verification.go and the numbers of
-- backend/internal/model/phone_number.go. Rows stand with the newest first; times are nanoseconds.
use daeil_scholar.Prelude.{
  ℕ, suc, ◌+◌, Bool, true, false, not, ◌&&◌, ◌||◌, Option, none, some, List, [], ◌∷◌, length, keep,
  ltb, leb, ◌==◌, if◌then◌else◌,
}
use daeil_scholar.Prelude.Int.{ℤ, pos, leb_ℤ}
use daeil_scholar.Prelude.Text.{Text, text_eq, is_digit}

-- `NormalizePhoneNumber`
unfoldable pub normalize_phone_number : Text → Text
normalize_phone_number value = keep is_digit value

abbrev pub is_valid_phone : Text → Bool
is_valid_phone p = leb 7 (length p) && leb (length p) 15

pub record Row : Type 0 where
  pub seq : ℕ
  pub id : Text
  pub phone : Text
  pub code_hash : Text
  pub grant_token_hash : Option Text
  pub attempts : ℕ
  pub verified : Bool
  pub consumed : Bool
  pub expires_at : ℕ
  pub grant_expires_at : Option ℕ
  pub reg_date : ℕ
  pub consumed_usr_seq : Option ℤ

-- The table with its AUTO_INCREMENT, and the text messages sent, newest first.
pub record Store : Type 0 where
  pub rows : List Row
  pub next_seq : ℕ
  pub sent : List (Text × Text)

abbrev pub new_store : Store
new_store = record { rows = []; next_seq = 1; sent = [] }

-- `WHERE APV_SEQ = ?`
unfoldable pub update_row : ℕ → (Row → Row) → List Row → List Row
update_row k f [] = []
update_row k f (r ∷ rs) =
    let rest = update_row k f rs in if r.seq == k then f r ∷ rest else r ∷ rest

-- `DB.Get` of one row
unfoldable pub find_row : (Row → Bool) → List Row → Option Row
find_row p [] = none
find_row p (r ∷ rs) = let rest = find_row p rs in if p r then some r else rest

-- `SELECT COUNT(*)`
unfoldable pub count_rows : (Row → Bool) → List Row → ℕ
count_rows p [] = 0
count_rows p (r ∷ rs) = let rest = count_rows p rs in if p r then suc rest else rest

abbrev pub insert_verification : Text → Text → Text → ℕ → ℕ → Store → Store
insert_verification id phone code_hash expires_at now s = record s {
  rows =
      record {
        seq = s.next_seq;
        id = id;
        phone = phone;
        code_hash = code_hash;
        grant_token_hash = none;
        attempts = 0;
        verified = false;
        consumed = false;
        expires_at = expires_at;
        grant_expires_at = none;
        reg_date = now;
        consumed_usr_seq = none;
      }
      ∷ s.rows;
  next_seq = suc s.next_seq;
}

abbrev pub is_requested_since : Text → ℕ → Row → Bool
is_requested_since phone since r = text_eq r.phone phone && leb since r.reg_date

unfoldable pub count_recent_requests : Text → ℕ → Store → ℕ
count_recent_requests phone since s = count_rows (is_requested_since phone since) s.rows

abbrev pub is_pending : Text → ℕ → Row → Bool
is_pending id now r = text_eq r.id id && not r.verified && ltb now r.expires_at

unfoldable pub find_pending_verification : Text → ℕ → Store → Option Row
find_pending_verification id now s = find_row (is_pending id now) s.rows

abbrev pub bump : Row → Row
bump r = record r { attempts = r.attempts + 1 }

unfoldable pub increment_attempts : ℕ → Store → Store
increment_attempts seq s = record s { rows = update_row seq bump s.rows }

abbrev pub has_seq : ℕ → Row → Bool
has_seq seq r = r.seq == seq

abbrev pub retire : ℕ → Row → Row
retire now r = record r { expires_at = now }

unfoldable pub expire_verification : ℕ → ℕ → Store → Store
expire_verification seq now s = record s { rows = update_row seq (retire now) s.rows }

abbrev pub verify : Text → ℕ → Row → Row
verify hash expires_at r = record r {
  verified = true;
  grant_token_hash = some hash;
  grant_expires_at = some expires_at;
}

unfoldable pub mark_verified : ℕ → Text → ℕ → Store → Store
mark_verified seq hash expires_at s = record s {
  rows = update_row seq (verify hash expires_at) s.rows;
}

-- A comparison with NULL is not true.
abbrev pub is_hash : Text → Option Text → Bool
is_hash hash none = false
is_hash hash (some h) = text_eq h hash

abbrev pub is_after : ℕ → Option ℕ → Bool
is_after now none = false
is_after now (some t) = ltb now t

abbrev pub is_usable_grant : Text → ℕ → Row → Bool
is_usable_grant hash now r =
    is_hash hash r.grant_token_hash
    && r.verified
    && not r.consumed
    && is_after now r.grant_expires_at

unfoldable pub find_usable_grant : Text → ℕ → Store → Option Row
find_usable_grant hash now s = find_row (is_usable_grant hash now) s.rows

-- The phone of the row, or the empty text.
abbrev pub phone_of : Option Row → Text
phone_of none = []
phone_of (some r) = r.phone

-- Which database calls of the transaction fail.
pub record GrantFaults : Type 0 where
  pub begin_fails : Bool
  pub select_fails : Bool
  pub member_fails : Bool
  pub update_fails : Bool
  pub commit_fails : Bool

abbrev pub spend : ℤ → Row → Row
spend user r =
    if leb_ℤ user (pos 0)
    then record r { consumed = true }
    else record r { consumed = true; consumed_usr_seq = some user }

-- `members user phone` says that WEO_MEMBER has the member with this phone, not withdrawn.
module _ (members : ℤ → Text → Bool) where
  abbrev pub spend_row : Text → ℤ → GrantFaults → Store → Row → Option Text × Store
  spend_row expected user f s r =
      if not (text_eq expected []) && not (text_eq r.phone expected)
      then (some [], s)
      else if not (leb_ℤ user (pos 0)) && f.member_fails
      then (none, s)
      else if not (leb_ℤ user (pos 0)) && not (members user r.phone)
      then (some [], s)
      else if f.update_fails || f.commit_fails
      then (none, s)
      else (some r.phone, record s { rows = update_row r.seq (spend user) s.rows })

  abbrev pub spend_found : Text → ℤ → GrantFaults → Store → Option Row → Option Text × Store
  spend_found expected user f s none = (some [], s)
  spend_found expected user f s (some r) = spend_row expected user f s r

  -- `none` is an error, after which the transaction is rolled back.
  unfoldable pub consume_grant : Text → Text → ℤ → ℕ → GrantFaults → Store → Option Text × Store
  consume_grant hash expected user now f s =
      if f.begin_fails || f.select_fails
      then (none, s)
      else spend_found expected user f s (find_usable_grant hash now s)

abbrev pub is_over : ℕ → Option ℕ → Bool
is_over now none = true
is_over now (some t) = leb t now

abbrev pub is_kept : ℕ → ℕ → Row → Bool
is_kept cutoff now r = not (
    ltb r.reg_date cutoff
    && (r.consumed || (leb r.expires_at now && is_over now r.grant_expires_at)))

unfoldable pub delete_expired_before : ℕ → ℕ → Store → Store
delete_expired_before cutoff now s = record s { rows = keep (is_kept cutoff now) s.rows }
