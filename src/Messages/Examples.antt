-- ===== src/Messages/Examples.antt =====
-- Two members, of whom the second blocks the first after the first message, and a list of three
-- conversations by pages of two.
use daeil_scholar.Prelude.{
  ℕ, suc, ◌≤◌, ◌≡◌, refl, Bool, true, false, Option, none, some, List, [], ◌∷◌, arith, All,
}
use daeil_scholar.Prelude.Int.{ℤ, pos}
use daeil_scholar.Prelude.Text.{Text, codes, contains}
use daeil_scholar.Messages.{
  SendMessageRequest, empty_store, World, Response, accepted, validate_send_message_request,
  byte_length, find_message, allows, new_message_content_filter, accept_message, send_message,
}
use daeil_scholar.Messages.Replay.{send_all, send_message-replay}
use daeil_scholar.Messages.Notices.{notices_of, finish_all, finish_all-once}
use daeil_scholar.Messages.Paging.{Cursor, Conversation, page, get_conversations}
use daeil_scholar.Messages.Paging.Falling.{IsListed}
use daeil_scholar.Messages.Paging.Walk.{IsCoded, walk, walk_lem}

abbrev same_text : Text → Text
same_text t = t

abbrev every : ℕ → Bool
every c = true

abbrev same_code : ℕ → ℕ
same_code c = c

abbrev greeting : SendMessageRequest
greeting = record {
  user_seq = pos 2;
  recvr_seq = pos 0;
  client_message_id = codes "m1";
  content = codes "hello";
}

abbrev friendly : World
friendly = record {
  approved = λ u. true;
  message_allowed = λ u. true;
  blocks = λ u v. false;
  now = 100;
  find_fails = false;
  approved_fails = false;
  allowed_fails = false;
  blocks_fails = false;
  insert_fails = false;
  reread_fails = false;
}

abbrev hostile : World
hostile = record friendly { message_allowed = λ u. false; blocks = λ u v. true; now = 200 }

abbrev later : List (ℤ × SendMessageRequest × World)
later =
    (pos 1, record greeting { client_message_id = codes "m2" }, hostile)
    ∷ (pos 2, record greeting { user_seq = pos 1 }, friendly)
    ∷ []

abbrev first_acceptance : Response
first_acceptance = record {
  message_id = 1;
  created_at = 100;
  was_created = true;
  visible_to_recipient = true;
}

first-accepted :
    (send_message same_text every same_code [] (pos 1) greeting friendly empty_store).0
    ≡ accepted first_acceptance
unfolding send_message validate_send_message_request byte_length allows find_message accept_message
first-accepted = refl

greeting-valid : validate_send_message_request greeting ≡ none
unfolding validate_send_message_request byte_length
greeting-valid = refl

send_message-replay_example :
    let s =
      send_all same_text every same_code [] later
        (send_message same_text every same_code [] (pos 1) greeting friendly empty_store).1 in
    send_message same_text every same_code [] (pos 1) greeting hostile s
    ≡ (accepted (record first_acceptance { was_created = false }), s)
send_message-replay_example =
    send_message-replay same_text every same_code [] (pos 1) greeting greeting friendly hostile
      later empty_store first_acceptance first-accepted refl greeting-valid refl

-- The same send twice at once, and one that the recipient's block hides.
abbrev concurrent : List (ℤ × ℤ × SendMessageRequest × World)
concurrent =
    (pos 1, pos 2, greeting, friendly)
    ∷ (pos 1, pos 2, greeting, friendly)
    ∷ (pos 3, pos 2, greeting, hostile)
    ∷ []

announced-once : notices_of 1 (finish_all concurrent empty_store).notices ≡ 1
unfolding notices_of finish_all accept_message find_message
announced-once = refl

finish_all-once_example : notices_of 1 (finish_all concurrent empty_store).notices ≤ 1
unfolding notices_of
finish_all-once_example =
    finish_all-once concurrent empty_store (λ id. (omega arith, λ out. omega arith)) 1

-- The phrases are compared in the normal form of the content.
phrase-blocked :
    allows same_text every same_code
      (new_message_content_filter same_text every same_code (codes "spam" ∷ []))
      (codes "some spam here")
    ≡ false
unfolding allows new_message_content_filter contains
phrase-blocked = refl

-- A codec of two numbers as the two code points after them.
abbrev encode_pair : Cursor → Option Text
encode_pair c = some (suc c.created_at ∷ suc c.message_id ∷ [])

abbrev decode_pair : Text → Option Cursor
decode_pair (suc a ∷ suc b ∷ []) = some (record { created_at = a; message_id = b })
decode_pair _ = none

abbrev conversation : ℕ → ℕ → Conversation
conversation at id = record {
  user_seq = id;
  unread_count = 0;
  cursor = record { created_at = at; message_id = id };
}

abbrev three : List Conversation
three = conversation 30 7 ∷ conversation 30 5 ∷ conversation 10 9 ∷ []

three-IsListed : IsListed three
three-IsListed = (refl, (refl, tt))

three-IsCoded : All (λ x. IsCoded encode_pair decode_pair x.cursor) three
three-IsCoded = (
  (omega arith, omega arith, (31 ∷ 8 ∷ [], refl, refl, refl)),
  (
    (omega arith, omega arith, (31 ∷ 6 ∷ [], refl, refl, refl)),
    ((omega arith, omega arith, (11 ∷ 10 ∷ [], refl, refl, refl)), tt),
  ),
)

first-page :
    get_conversations encode_pair decode_pair three [] (pos 2)
    ≡ page (record {
      items = conversation 30 7 ∷ conversation 30 5 ∷ [];
      next_cursor = some (31 ∷ 6 ∷ []);
    })
unfolding get_conversations
first-page = refl

walk_lem_example : walk encode_pair decode_pair 4 three [] (pos 2) ≡ some three
walk_lem_example = walk_lem encode_pair decode_pair three (pos 2) three-IsListed three-IsCoded
