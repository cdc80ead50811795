-- ===== src/Messages.antt =====
-- Direct messages: backend/internal/service/message_service.go and message_content_filter.go on the
-- table of backend/internal/repository/message_repo.go (`FindAcceptedMessage`, `AcceptMessage`).
pub mod Replay
pub mod Notices
pub mod Paging
mod Examples
use daeil_scholar.Prelude.{
  ℕ, suc, ◌+◌, ◌*◌, ◌-◌, ◌/◌, Bool, true, false, not, ◌&&◌, ◌||◌, Option, none, some, List, [], ◌∷◌,
  ◌++◌, map, length, keep, ltb, leb, ◌==◌, if◌then◌else◌,
}
use daeil_scholar.Prelude.Int.{ℤ, pos, eqb_ℤ, leb_ℤ, ltb_ℤ}
use daeil_scholar.Prelude.Text.{Text, codes, text_eq, contains}

abbrev pub max_message_length : ℕ
max_message_length = 1000

abbrev pub max_client_message_id_length : ℕ
max_client_message_id_length = 64

-- `len` of a string, in bytes of UTF-8.
abbrev pub char_bytes : ℕ → ℕ
char_bytes c = if ltb c 0x80 then 1 else if ltb c 0x800 then 2 else if ltb c 0x10000 then 3 else 4

unfoldable pub byte_length : Text → ℕ
byte_length [] = 0
byte_length (c ∷ t) = char_bytes c + byte_length t

pub record SendMessageRequest : Type 0 where
  pub user_seq : ℤ
  pub recvr_seq : ℤ
  pub client_message_id : Text
  pub content : Text

abbrev pub recipient_user_seq : SendMessageRequest → ℤ
recipient_user_seq r = if ltb_ℤ (pos 0) r.user_seq then r.user_seq else r.recvr_seq

-- A row of ALUMNI_MESSAGE.
pub record Message : Type 0 where
  pub am_seq : ℕ
  pub sender : ℤ
  pub recvr : ℤ
  pub client_message_id : Text
  pub content : Text
  pub visible : Bool
  pub created_at : ℕ

pub record Notice : Type 0 where
  pub recipient : ℤ
  pub sender : ℤ
  pub message_id : ℕ

-- The table and the notices that were sent, each with the newest first; a notice stands for
-- `NotifyMessageReceived` and the `NotifyMessageSent` that follows it.
pub record Store : Type 0 where
  pub messages : List Message
  pub next_seq : ℕ
  pub notices : List Notice

abbrev pub empty_store : Store
empty_store = record { messages = []; next_seq = 1; notices = [] }

-- What other tables say when they are read, and which calls fail.
pub record World : Type 0 where
  pub approved : ℤ → Bool
  pub message_allowed : ℤ → Bool
  pub blocks : ℤ → ℤ → Bool
  pub now : ℕ
  pub find_fails : Bool
  pub approved_fails : Bool
  pub allowed_fails : Bool
  pub blocks_fails : Bool
  pub insert_fails : Bool
  pub reread_fails : Bool

pub data Rejection : Type 0 where
  empty_content content_too_long invalid_client_id content_rejected : Rejection
  recipient_unavailable receiving_disabled recipient_blocked_by_me : Rejection

pub record Response : Type 0 where
  pub message_id : ℕ
  pub created_at : ℕ
  pub was_created : Bool
  pub visible_to_recipient : Bool

pub data Reply : Type 0 where
  accepted : Response → Reply
  rejected : Rejection → Reply
  failed : Reply

unfoldable pub validate_send_message_request : SendMessageRequest → Option Rejection
unfolding byte_length
validate_send_message_request r =
    if text_eq r.content []
    then some empty_content
    else if ltb max_message_length (length r.content)
    then some content_too_long
    else if text_eq r.client_message_id []
        || ltb max_client_message_id_length (byte_length r.client_message_id)
    then some invalid_client_id
    else none

abbrev pub is_keyed : ℤ → Text → Message → Bool
is_keyed sender id m = eqb_ℤ m.sender sender && text_eq m.client_message_id id

unfoldable pub find_message : ℤ → Text → List Message → Option Message
find_message sender id [] = none
find_message sender id (m ∷ ms) =
    let rest = find_message sender id ms in if is_keyed sender id m then some m else rest

abbrev pub response : Bool → Message → Response
response was_created m = record {
  message_id = m.am_seq;
  created_at = m.created_at;
  was_created = was_created;
  visible_to_recipient = m.visible;
}

-- The row that the statement selects for insertion.
abbrev pub new_message : ℤ → ℤ → SendMessageRequest → World → Store → Message
new_message sender recipient r w s = record {
  am_seq = s.next_seq;
  sender = sender;
  recvr = recipient;
  client_message_id = r.client_message_id;
  content = r.content;
  visible = not (w.blocks recipient sender);
  created_at = w.now;
}

-- The insertion: a member who takes no messages selects no row, and on a duplicate key the row
-- stays as it is, with no row affected.
abbrev pub insert_unless_found : Option Message → Message → Store → Bool × Store
insert_unless_found (some m) new s = (false, s)
insert_unless_found none new s =
    (true, record s { messages = new ∷ s.messages; next_seq = suc s.next_seq })

abbrev pub insert_message : ℤ → ℤ → SendMessageRequest → World → Store → Bool × Store
insert_message sender recipient r w s =
    if w.message_allowed recipient
    then insert_unless_found (find_message sender r.client_message_id s.messages)
        (new_message sender recipient r w s) s
    else (false, s)

abbrev pub read_back : Bool → Option Message → Reply
read_back created none = rejected receiving_disabled
read_back created (some m) = accepted (response created m)

abbrev pub accept_inserted : ℤ → SendMessageRequest → World → Bool × Store → Reply × Store
accept_inserted sender r w x =
    if w.reread_fails
    then (failed, x.1)
    else (read_back x.0 (find_message sender r.client_message_id x.1.messages), x.1)

unfoldable pub accept_message : ℤ → ℤ → SendMessageRequest → World → Store → Reply × Store
accept_message sender recipient r w s =
    if w.insert_fails
    then (failed, s)
    else accept_inserted sender r w (insert_message sender recipient r w s)

-- `if accepted.WasCreated && accepted.VisibleToRecipient == "Y"`
abbrev pub notify : ℤ → ℤ → Reply × Store → Reply × Store
notify sender recipient (accepted a, s) = (
  accepted a,
  if a.was_created && a.visible_to_recipient
      then record s {
        notices =
            record { recipient = recipient; sender = sender; message_id = a.message_id }
            ∷ s.notices;
      }
      else s,
)
notify sender recipient (rejected e, s) = (rejected e, s)
notify sender recipient (failed, s) = (failed, s)

-- `isRecipientAvailable`, whose error is `none`.
abbrev pub is_recipient_available : ℤ → ℤ → World → Option Bool
is_recipient_available viewer other w =
    if leb_ℤ other (pos 0) || eqb_ℤ other viewer
    then some false
    else if w.approved_fails
    then none
    else some (w.approved other)

-- Unicode's normal form NFKC, letters and numbers, and lower case.
module _ (nfkc : Text → Text) (is_word : ℕ → Bool) (to_lower : ℕ → ℕ) where
  abbrev pub normalize_message_for_filtering : Text → Text
  normalize_message_for_filtering t = map to_lower (keep is_word (nfkc t))

  abbrev pub add_phrases : List Text → List Text
  add_phrases [] = []
  add_phrases (p ∷ ps) =
      let rest = add_phrases ps in
      let normalized = normalize_message_for_filtering p in
      if text_eq normalized [] then rest else normalized ∷ rest

  abbrev pub default_blocked_message_phrases : List Text
  default_blocked_message_phrases =
      codes "씨발" ∷ codes "개새끼" ∷ codes "죽여버릴" ∷ codes "kill yourself" ∷ []

  unfoldable pub new_message_content_filter : List Text → List Text
  new_message_content_filter additional =
      add_phrases (default_blocked_message_phrases ++ additional)

  abbrev pub contains_any : Text → List Text → Bool
  contains_any text [] = false
  contains_any text (p ∷ ps) = contains text p || contains_any text ps

  unfoldable pub allows : List Text → Text → Bool
  allows phrases content = not (contains_any (normalize_message_for_filtering content) phrases)

  module _ (phrases : List Text) where
    abbrev pub send_unblocked : ℤ → SendMessageRequest → World → Store → Reply × Store
    send_unblocked sender r w s =
        let recipient = recipient_user_seq r in
        if w.allowed_fails
        then (failed, s)
        else if not (w.message_allowed recipient)
        then (rejected receiving_disabled, s)
        else if w.blocks_fails
        then (failed, s)
        else if w.blocks sender recipient
        then (rejected recipient_blocked_by_me, s)
        else notify sender recipient (accept_message sender recipient r w s)

    abbrev pub send_available : ℤ → SendMessageRequest → World → Store → Option Bool → Reply × Store
    send_available sender r w s none = (failed, s)
    send_available sender r w s (some false) = (rejected recipient_unavailable, s)
    send_available sender r w s (some true) = send_unblocked sender r w s

    abbrev pub send_unless_found :
        ℤ → SendMessageRequest → World → Store → Option Message → Reply × Store
    send_unless_found sender r w s (some m) = (accepted (response false m), s)
    send_unless_found sender r w s none =
        if not (allows phrases r.content)
        then (rejected content_rejected, s)
        else send_available sender r w s (is_recipient_available sender (recipient_user_seq r) w)

    abbrev pub send_valid :
        ℤ → SendMessageRequest → World → Store → Option Rejection → Reply × Store
    send_valid sender r w s (some e) = (rejected e, s)
    send_valid sender r w s none =
        if w.find_fails
        then (failed, s)
        else send_unless_found sender r w s (find_message sender r.client_message_id s.messages)

    unfoldable pub send_message : ℤ → SendMessageRequest → World → Store → Reply × Store
    send_message sender r w s = send_valid sender r w s (validate_send_message_request r)
