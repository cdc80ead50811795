-- ===== src/Messages/Paging.antt =====
-- The list of conversations by pages: `GetConversations` of
-- backend/internal/service/message_service.go on the query of the same name in
-- backend/internal/repository/message_repo.go.
pub mod Falling
pub mod Walk
use daeil_scholar.Prelude.{
  ℕ, suc, ◌+◌, Bool, true, false, not, ◌&&◌, ◌||◌, Option, none, some, List, [], ◌∷◌, ◌++◌, length,
  take, drop, keep, ltb, leb, ◌==◌, if◌then◌else◌,
}
use daeil_scholar.Prelude.Int.{ℤ, pos}
use daeil_scholar.Prelude.Text.{Text, text_eq}

-- `messageCursor`, whose time is not zero where it is positive.
pub record Cursor : Type 0 where
  pub created_at : ℕ
  pub message_id : ℕ

pub record Conversation : Type 0 where
  pub user_seq : ℕ
  pub unread_count : ℕ
  pub cursor : Cursor

pub record Page : Type 0 where
  pub items : List Conversation
  pub next_cursor : Option Text

pub data Listing : Type 0 where
  invalid_cursor encode_error : Listing
  page : Page → Listing

abbrev pub is_before : Cursor → Cursor → Bool
is_before c p =
    ltb c.created_at p.created_at || (c.created_at == p.created_at && ltb c.message_id p.message_id)

-- The clamps of the size.
abbrev pub page_size : ℤ → ℕ
page_size (pos n) = if n == 0 then 20 else if ltb 50 n then 50 else n
page_size _ = 20

abbrev pub is_wanted : Option Cursor → Conversation → Bool
is_wanted none c = true
is_wanted (some p) c = is_before c.cursor p

-- The query: `all` are the conversations of the member by falling time and number.
abbrev pub query_conversations : List Conversation → Option Cursor → ℕ → List Conversation
query_conversations all before limit = take limit (keep (is_wanted before) all)

abbrev pub last_cursor : Conversation → List Conversation → Cursor
last_cursor c [] = c.cursor
last_cursor c (d ∷ ds) = last_cursor d ds

abbrev pub close_page : List Conversation → Option Text → Listing
close_page items none = encode_error
close_page items (some t) = page (record { items = items; next_cursor = some t })

-- The codec, JSON in base64, is `encode` and `decode`; an error of `decode` is `none`.
module _ (encode : Cursor → Option Text) (decode : Text → Option Cursor) where
  abbrev pub valid_cursor : Option Cursor → Option Cursor
  valid_cursor none = none
  valid_cursor (some c) = if c.created_at == 0 || c.message_id == 0 then none else some c

  unfoldable pub decode_message_cursor : Text → Option Cursor
  decode_message_cursor encoded = valid_cursor (decode encoded)

  abbrev pub cut_page : ℕ → List Conversation → List Conversation → Listing
  cut_page size cs [] = page (record { items = cs; next_cursor = none })
  cut_page size cs (c ∷ items) =
      if ltb size (length cs)
      then close_page (c ∷ items) (encode (last_cursor c items))
      else page (record { items = cs; next_cursor = none })

  abbrev pub list_from : List Conversation → Option Cursor → ℕ → Listing
  list_from all before size =
      let found = keep (is_wanted before) (query_conversations all before (suc size)) in
      cut_page size found (take size found)

  abbrev pub list_after : List Conversation → Option Cursor → ℕ → Listing
  list_after all none size = invalid_cursor
  list_after all (some c) size = list_from all (some c) size

  unfoldable pub get_conversations : List Conversation → Text → ℤ → Listing
  get_conversations all cursor size =
      if not (text_eq cursor [])
      then list_after all (decode_message_cursor cursor) (page_size size)
      else list_from all none (page_size size)
