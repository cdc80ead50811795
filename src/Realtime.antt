-- ===== src/Realtime.antt =====
-- The hub that hands events to open streams: backend/internal/realtime/hub.go, with the stream of
-- backend/internal/handler/realtime_handler.go and the events of
-- backend/internal/service/message_notifier.go and notice_published_notifier.go.
pub mod Streams
pub mod Safety
pub mod Log
pub mod Replay
mod Examples
use daeil_scholar.Prelude.{
  ℕ, zero, suc, ◌-◌, ◌^◌, Bool, true, false, Option, none, some, List, [], ◌∷◌, ◌++◌, length, drop,
  ltb, leb, ◌==◌, if◌then◌else◌,
}
use daeil_scholar.Prelude.Int.{ℤ, pos, negsuc, eqb_ℤ, ltb_ℤ}
use daeil_scholar.Prelude.Text.{Text}

abbrev pub event_history_limit : ℕ
event_history_limit = 256

abbrev pub subscriber_buffer : ℕ
subscriber_buffer = event_history_limit

-- The values that events carry; a member is the map of a sender's number and name.
pub data Value : Type 0 where
  num : ℤ → Value
  text : Text → Value
  member : ℤ → Text → Value

-- A payload of type `map[string]any`: the entry "eventId" where it is an int64, and the others.
pub record Fields : Type 0 where
  pub event_id : Option ℤ
  pub entries : List (Text × Value)

-- Maps are shared by their address.
pub data Payload : Type 0 where
  map_at : ℕ → Payload
  other : Payload

pub record Event : Type 0 where
  pub kind : Text
  pub payload : Payload

-- `ch` holds what waits in the channel, the oldest first.
pub record Subscriber : Type 0 where
  pub user_seq : ℤ
  pub ch : List Event
  pub is_closed : Bool

-- The hub with the memory that its pointers reach: subscribers and maps by their addresses. A user
-- who is missing in `history` has no events there.
pub record Hub : Type 0 where
  pub subscribers : List (ℤ × List ℕ)
  pub history : ℤ → List Event
  pub next_event_id : ℤ
  pub subs : ℕ → Subscriber
  pub next_sub : ℕ
  pub maps : ℕ → Fields
  pub next_map : ℕ

-- A send or a close on a closed channel panics; a send on a full one waits, with the mutex held.
pub data Outcome {ℓ} (A : Type ℓ) : Type ℓ where
  done : A → Outcome A
  panics : Outcome A
  blocks : Outcome A

infixl 5 ◌>>=◌
abbrev pub ◌>>=◌ {ℓ κ} : {A : Type ℓ} {B : Type κ} → Outcome A → (A → Outcome B) → Outcome B
done a >>= f = f a
panics >>= f = panics
blocks >>= f = blocks

abbrev pub no_subscriber : Subscriber
no_subscriber = record { user_seq = pos 0; ch = []; is_closed = false }

abbrev pub no_fields : Fields
no_fields = record { event_id = none; entries = [] }

-- `now` is the milliseconds since 1970.
abbrev pub new_hub : ℕ → Hub
new_hub now = record {
  subscribers = [];
  history = λ u. [];
  next_event_id = pos now;
  subs = λ p. no_subscriber;
  next_sub = 0;
  maps = λ a. no_fields;
  next_map = 0;
}

abbrev pub update {ℓ} : {A : Type ℓ} → (ℕ → A) → ℕ → A → ℕ → A
update f p v q = if q == p then v else f q

abbrev pub update_user {ℓ} : {A : Type ℓ} → (ℤ → A) → ℤ → A → ℤ → A
update_user f u v w = if eqb_ℤ w u then v else f w

-- The map from users to sets of subscribers.
unfoldable pub find_set : ℤ → List (ℤ × List ℕ) → Option (List ℕ)
find_set user [] = none
find_set user ((u, set) ∷ m) = let rest = find_set user m in if eqb_ℤ u user then some set else rest

unfoldable pub delete_set : ℤ → List (ℤ × List ℕ) → List (ℤ × List ℕ)
delete_set user [] = []
delete_set user ((u, set) ∷ m) =
    let rest = delete_set user m in if eqb_ℤ u user then rest else (u, set) ∷ rest

abbrev pub put_set : ℤ → List ℕ → List (ℤ × List ℕ) → List (ℤ × List ℕ)
put_set user set m = (user, set) ∷ delete_set user m

unfoldable pub delete_subscriber : ℕ → List ℕ → List ℕ
delete_subscriber p [] = []
delete_subscriber p (q ∷ set) =
    let rest = delete_subscriber p set in if q == p then rest else q ∷ rest

abbrev pub set_or_empty : Option (List ℕ) → List ℕ
set_or_empty none = []
set_or_empty (some set) = set

abbrev id_or_zero : Option ℤ → ℤ
id_or_zero none = pos 0
id_or_zero (some id) = id

abbrev payload_id : (ℕ → Fields) → Payload → ℤ
payload_id maps (map_at a) = id_or_zero (maps a).event_id
payload_id maps other = pos 0

abbrev pub event_id : (ℕ → Fields) → Event → ℤ
event_id maps e = payload_id maps e.payload

-- `ch <- event`
abbrev pub send : Event → List Event → Outcome (List Event)
send e ch = if leb subscriber_buffer (length ch) then blocks else done (ch ++ e ∷ [])

unfoldable pub replay : (ℕ → Fields) → ℤ → List Event → List Event → Outcome (List Event)
replay maps after [] ch = done ch
replay maps after (e ∷ es) ch =
    let rest = replay maps after es ch in
    let sent = send e ch >>= replay maps after es in
    if ltb_ℤ after (event_id maps e) then sent else rest

abbrev pub replay_from : Option ℤ → (ℕ → Fields) → List Event → Outcome (List Event)
replay_from none maps es = done []
replay_from (some after) maps es = replay maps after es []

abbrev pub after_subscribe : ℤ → Hub → List Event → Hub
after_subscribe user h ch =
    let p = h.next_sub in
    let set = set_or_empty (find_set user h.subscribers) in
    record h {
      subscribers = put_set user (p ∷ set) h.subscribers;
      subs = update h.subs p (record { user_seq = user; ch = ch; is_closed = false });
      next_sub = suc p;
    }

-- A new subscriber with the events of its user's history that are newer than `after`.
unfoldable pub subscribe : ℤ → Option ℤ → Hub → Outcome (ℕ × Hub)
unfolding replay
subscribe user after h =
    replay_from after h.maps (h.history user) >>= λ ch. done (h.next_sub, after_subscribe user h ch)

abbrev pub close_channel : ℕ → Hub → Outcome Hub
close_channel p h =
    if (h.subs p).is_closed
    then panics
    else done (record h { subs = update h.subs p (record (h.subs p) { is_closed = true }) })

abbrev pub set_of_left : ℤ → List ℕ → List (ℤ × List ℕ) → List (ℤ × List ℕ)
set_of_left user [] m = delete_set user m
set_of_left user (q ∷ set) m = put_set user (q ∷ set) m

abbrev pub unsubscribe_from : ℕ → Option (List ℕ) → Hub → Outcome Hub
unsubscribe_from p none h = done h
unsubscribe_from p (some set) h =
    let left = delete_subscriber p set in
    close_channel p (record h { subscribers = set_of_left (h.subs p).user_seq left h.subscribers })

unfoldable pub unsubscribe : Option ℕ → Hub → Outcome Hub
unsubscribe none h = done h
unsubscribe (some p) h = unsubscribe_from p (find_set (h.subs p).user_seq h.subscribers) h

-- `h.nextEventID++` on an int64
abbrev pub increment : ℤ → ℤ
increment (pos n) = if suc n == 2 ^ 63 then negsuc (2 ^ 63 - 1) else pos (suc n)
increment (negsuc zero) = pos 0
increment (negsuc (suc n)) = negsuc n

-- `payload["eventId"] = id`, in the map that the caller holds.
abbrev pub stamp : Payload → ℤ → (ℕ → Fields) → ℕ → Fields
stamp (map_at a) id maps = update maps a (record (maps a) { event_id = some id })
stamp other id maps = maps

-- The newest events of a history, as many as it keeps.
unfoldable pub latest : List Event → List Event
latest es =
    if ltb event_history_limit (length es) then drop (length es - event_history_limit) es else es

-- A send that is dropped where the buffer is full.
abbrev pub offer : Event → ℕ → (ℕ → Subscriber) → Outcome (ℕ → Subscriber)
offer e p subs =
    if (subs p).is_closed
    then panics
    else if leb subscriber_buffer (length (subs p).ch)
    then done subs
    else done (update subs p (record (subs p) { ch = (subs p).ch ++ e ∷ [] }))

unfoldable pub offer_all : Event → List ℕ → (ℕ → Subscriber) → Outcome (ℕ → Subscriber)
offer_all e [] subs = done subs
offer_all e (p ∷ set) subs = offer e p subs >>= offer_all e set

-- The history and the id move on before anything is sent, all under the mutex.
abbrev pub after_publish : ℤ → Event → Hub → (ℕ → Subscriber) → Hub
after_publish user e h subs = record h {
  history = update_user h.history user (latest (h.history user ++ e ∷ []));
  next_event_id = increment h.next_event_id;
  subs = subs;
  maps = stamp e.payload (increment h.next_event_id) h.maps;
}

unfoldable pub publish : ℤ → Event → Hub → Outcome Hub
unfolding find_set latest offer_all
publish user e h = offer_all e (set_or_empty (find_set user h.subscribers)) h.subs >>= λ subs.
    done (after_publish user e h subs)

-- A new map.
abbrev pub allocate : Fields → Hub → Hub
allocate f h = record h { maps = update h.maps h.next_map f; next_map = suc h.next_map }

abbrev pub copy_payload : Payload → Hub → Payload × Hub
copy_payload (map_at a) h = (map_at h.next_map, allocate (h.maps a) h)
copy_payload other h = (other, h)

abbrev pub connected_users : List (ℤ × List ℕ) → List ℤ
connected_users [] = []
connected_users ((u, set) ∷ m) = u ∷ connected_users m

unfoldable pub publish_each : List ℤ → Event → Hub → Outcome Hub
publish_each [] e h = done h
publish_each (u ∷ us) e h =
    let (q, copied) = copy_payload e.payload h in
    publish u (record e { payload = q }) copied >>= publish_each us e

unfoldable pub publish_to_connected : Event → Hub → Outcome (ℕ × Hub)
publish_to_connected e h =
    let users = connected_users h.subscribers in
    publish_each users e h >>= λ h'. done (length users, h')
