-- ===== src/Realtime/Streams.antt =====
-- The callers of the hub: backend/internal/handler/realtime_handler.go, which opens a stream for a
-- member and ends it, and the notifiers of backend/internal/service that publish to it
-- (message_notifier.go, notice_published_notifier.go).
use daeil_scholar.Prelude.{
  ℕ, Bool, true, false, Option, none, some, List, [], ◌∷◌, ◌++◌, ◌==◌, if◌then◌else◌,
}
use daeil_scholar.Prelude.Int.{ℤ, pos, ltb_ℤ, leb_ℤ}
use daeil_scholar.Prelude.Text.{Text, codes, itoa, parse_int, trim_space}
use daeil_scholar.Realtime.{
  Value, num, text, member, Fields, Payload, map_at, other, Event, Hub, Outcome, done, ◌>>=◌,
  new_hub, update, subscribe, unsubscribe, delete_subscriber, publish, allocate,
  publish_to_connected,
}

-- An event with a payload that the caller has just made.
abbrev pub fresh_event : Text → Hub → Event
fresh_event kind h = record { kind = kind; payload = map_at h.next_map }

abbrev pub fresh_fields : List (Text × Value) → Fields
fresh_fields entries = record { event_id = none; entries = entries }

unfoldable pub emit : ℤ → Text → List (Text × Value) → Hub → Outcome Hub
unfolding publish
emit user kind entries h = publish user (fresh_event kind h) (allocate (fresh_fields entries) h)

pub record SendMessageResponse : Type 0 where
  pub message_id : ℤ
  pub created_at : Text

abbrev pub message_entries : ℤ → Text → SendMessageResponse → Text → List (Text × Value)
message_entries sender name accepted content =
    (codes "messageId", num accepted.message_id)
    ∷ (codes "conversationUserSeq", num sender)
    ∷ (codes "sender", member sender name)
    ∷ (codes "preview", text content)
    ∷ (codes "createdAt", text accepted.created_at)
    ∷ []

abbrev pub notify_message_received : ℤ → ℤ → Text → SendMessageResponse → Text → Hub → Outcome Hub
notify_message_received recvr sender name accepted content =
    emit recvr (codes "message.created") (message_entries sender name accepted content)

abbrev pub conversation_entries : ℤ → List (Text × Value)
conversation_entries user = (codes "conversationUserSeq", num user) ∷ []

abbrev pub notify_message_sent : ℤ → ℤ → Hub → Outcome Hub
notify_message_sent sender recvr h =
    emit sender (codes "conversation.updated") (conversation_entries recvr) h
    >>= emit recvr (codes "conversation.updated") (conversation_entries sender)

abbrev pub read_entries : ℤ → ℤ → Text → List (Text × Value)
read_entries reader through read_at =
    (codes "conversationUserSeq", num reader)
    ∷ (codes "throughMessageId", num through)
    ∷ (codes "readAt", text read_at)
    ∷ []

abbrev pub notify_messages_read : ℤ → ℤ → ℤ → Text → Hub → Outcome Hub
notify_messages_read sender reader through read_at =
    emit sender (codes "message.read") (read_entries reader through read_at)

abbrev pub notice_entries : ℤ → Text → Text → List (Text × Value)
notice_entries notice_seq subject now =
    (codes "notificationId", text (codes "notice-" ++ itoa notice_seq))
    ∷ (codes "type", text (codes "admin.notice"))
    ∷ (codes "title", text (codes "새 소식"))
    ∷ (codes "body", text subject)
    ∷ (codes "deepLink", text (codes "/feed/" ++ itoa notice_seq))
    ∷ (codes "postSeq", num notice_seq)
    ∷ (codes "createdAt", text now)
    ∷ []

abbrev pub broadcast : Text → List (Text × Value) → Hub → Outcome Hub
broadcast kind entries h =
    publish_to_connected (fresh_event kind h) (allocate (fresh_fields entries) h) >>= λ x. done x.1

abbrev pub notify_notice_published : ℤ → Text → Text → Hub → Outcome Hub
notify_notice_published notice_seq subject now h =
    if leb_ℤ notice_seq (pos 0)
    then done h
    else broadcast (codes "notification.created") (notice_entries notice_seq subject now) h

-- What a stream's loop does with what it takes from its channel. A payload of such values is
-- always encoded; a connection that is lost ends the stream.
pub data Received : Type 0 where
  waiting ended skipped : Received
  frame : ℤ → Text → Fields → Received

abbrev frame_of : Text → Fields → Option ℤ → Received
frame_of kind f none = skipped
frame_of kind f (some id) = if leb_ℤ id (pos 0) then skipped else frame id kind f

abbrev pub payload_frame : (ℕ → Fields) → Text → Payload → Received
payload_frame maps kind other = skipped
payload_frame maps kind (map_at a) = frame_of kind (maps a) (maps a).event_id

abbrev pub take_event : ℕ → List Event → Hub → Received × Hub
take_event p [] h = (if (h.subs p).is_closed then ended else waiting, h)
take_event p (e ∷ ch) h = (
  payload_frame h.maps e.kind e.payload,
  record h { subs = update h.subs p (record (h.subs p) { ch = ch }) },
)

unfoldable pub receive : ℕ → Hub → Received × Hub
receive p h = take_event p (h.subs p).ch h

-- The value of the header "Last-Event-ID".
abbrev pub last_event_id : Option ℤ → Option ℤ
last_event_id none = none
last_event_id (some id) = if ltb_ℤ (pos 0) id then some id else none

abbrev pub open_stream : ℤ → Text → Hub → Outcome (ℕ × Hub)
open_stream user header = subscribe user (last_event_id (parse_int (trim_space header)))

-- The hub and the subscribers of the streams that are open, one for each running handler.
pub record World : Type 0 where
  pub hub : Hub
  pub streams : List ℕ

abbrev pub start : ℕ → World
start now = record { hub = new_hub now; streams = [] }

-- What happens to the hub, in any order: a handler starts, takes an event from its channel, or
-- returns; a notifier is called.
pub data Op : Type 0 where
  opens : ℤ → Text → Op
  receives : ℕ → Op
  ends : ℕ → Op
  message_received : ℤ → ℤ → Text → SendMessageResponse → Text → Op
  message_sent : ℤ → ℤ → Op
  messages_read : ℤ → ℤ → ℤ → Text → Op
  notice_published : ℤ → Text → Text → Op

abbrev pub is_streaming : ℕ → List ℕ → Bool
is_streaming p [] = false
is_streaming p (q ∷ ps) = if q == p then true else is_streaming p ps

abbrev pub with_hub : World → Outcome Hub → Outcome World
with_hub w o = o >>= λ h. done (record w { hub = h })

abbrev pub after_unsubscribe : ℕ → World → Hub → Outcome World
after_unsubscribe p w h = done (record { hub = h; streams = delete_subscriber p w.streams })

-- A handler that returns unsubscribes, once.
abbrev pub end_stream : ℕ → World → Outcome World
end_stream p w =
    if is_streaming p w.streams
    then unsubscribe (some p) w.hub >>= after_unsubscribe p w
    else done w

unfoldable pub step : Op → World → Outcome World
unfolding emit
step (opens user header) w =
    open_stream user header w.hub >>= λ x. done (record { hub = x.1; streams = x.0 ∷ w.streams })
step (receives p) w = done (record w { hub = (receive p w.hub).1 })
step (ends p) w = end_stream p w
step (message_received recvr sender name accepted content) w =
    with_hub w (notify_message_received recvr sender name accepted content w.hub)
step (message_sent sender recvr) w = with_hub w (notify_message_sent sender recvr w.hub)
step (messages_read sender reader through read_at) w =
    with_hub w (notify_messages_read sender reader through read_at w.hub)
step (notice_published notice_seq subject now) w =
    with_hub w (notify_notice_published notice_seq subject now w.hub)

unfoldable pub run : List Op → World → Outcome World
unfolding step
run [] w = done w
run (op ∷ ops) w = step op w >>= run ops
