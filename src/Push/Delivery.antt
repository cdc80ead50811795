-- ===== src/Push/Delivery.antt =====
-- The delivery of one item to the devices of its recipient: `deliver` of
-- backend/internal/service/push_delivery.go, with the guards before each send.
use daeil_scholar.Prelude.{
  ℕ, zero, suc, Bool, true, false, Option, none, some, List, [], ◌∷◌, if◌then◌else◌,
}
use daeil_scholar.Prelude.Int.{ℤ}
use daeil_scholar.Push.{
  Target, VerificationStatus, Item, message, review, notice, NoticeBroadcast, Payload, Act,
  asked_message, asked_target, sent, deleted, SendResult, delivered, invalid_token, transient,
  refused, Env, build_payload,
}

-- A guard's answer: an error counts as a no.
abbrev pub holds : Option Bool → Bool
holds none = false
holds (some b) = b

abbrev pub recipient : Item → ℤ
recipient (message recvr sender name id created_at content) = recvr
recipient (review recvr status) = recvr
recipient (notice recvr b) = recvr

-- A store without the guard has nothing to check.
abbrev notice_guard : Option (ℤ → Option Bool) → NoticeBroadcast → Bool
notice_guard none b = true
notice_guard (some published) b = holds (published b.seq)

abbrev review_guard : Option (ℤ → VerificationStatus → Option Bool) → ℤ → VerificationStatus → Bool
review_guard none recvr status = true
review_guard (some current) recvr status = holds (current recvr status)

abbrev pub still_deliverable : Env → Item → Bool
still_deliverable env (notice recvr b) = notice_guard env.notice_published b
still_deliverable env (review recvr status) = review_guard env.verification_current recvr status
still_deliverable env (message recvr sender name id created_at content) = true

abbrev pub is_message : Item → Bool
is_message (message recvr sender name id created_at content) = true
is_message (review recvr status) = false
is_message (notice recvr b) = false

abbrev pub ask_message : Option (List Act → Option Bool) → List Act → Bool × List Act
ask_message none acts = (true, acts)
ask_message (some available) acts =
    (holds (available acts), asked_message (holds (available acts)) ∷ acts)

-- `messageStillAvailable`
abbrev pub message_still_available : Env → Bool → List Act → Bool × List Act
message_still_available env guarded acts =
    if guarded then ask_message env.message_available acts else (true, acts)

abbrev pub target_still_current :
    Option (List Act → Target → Option Bool) → Target → List Act → Bool × List Act
target_still_current none t acts = (true, acts)
target_still_current (some current) t acts =
    (holds (current acts t), asked_target t (holds (current acts t)) ∷ acts)

-- What the attempts for one device come to: whether all further sending stops, and what was done.
abbrev pub after_send : Target → SendResult → List Act → Bool × List Act → Bool × List Act
after_send t delivered acts again = (false, acts)
after_send t invalid_token acts again = (false, deleted t ∷ acts)
after_send t refused acts again = (false, acts)
after_send t transient acts again = again

abbrev pub send_if : Bool × List Act → (List Act → Bool × List Act) → Bool × List Act
send_if (false, acts) go = (false, acts)
send_if (true, acts) go = go acts

abbrev pub stop_unless : Bool × List Act → (List Act → Bool × List Act) → Bool × List Act
stop_unless (false, acts) go = (true, acts)
stop_unless (true, acts) go = go acts

abbrev pub dispatch :
    Env → Payload → Target → (List Act → Bool × List Act) → List Act → Bool × List Act
dispatch env p t again acts =
    after_send t (env.send acts t p) (sent t p ∷ acts) (again (sent t p ∷ acts))

-- Each attempt asks for the message, then for the device, and sends.
unfoldable pub attempts : Env → Bool → Payload → Target → ℕ → List Act → Bool × List Act
attempts env guarded p t zero acts = (false, acts)
attempts env guarded p t (suc n) acts =
    stop_unless (message_still_available env guarded acts) (λ asked.
      send_if (target_still_current env.target_current t asked)
        (dispatch env p t (attempts env guarded p t n)))

abbrev pub next_target : Bool × List Act → (List Act → List Act) → List Act
next_target (true, acts) go = acts
next_target (false, acts) go = go acts

unfoldable pub deliver_all : Env → Bool → Payload → List Target → List Act → List Act
unfolding attempts
deliver_all env guarded p [] acts = acts
deliver_all env guarded p (t ∷ ts) acts =
    next_target (attempts env guarded p t 3 acts) (deliver_all env guarded p ts)

abbrev pub deliver_to : Env → Bool → Payload → Option (List Target) → List Act → List Act
deliver_to env guarded p none acts = acts
deliver_to env guarded p (some ts) acts = deliver_all env guarded p ts acts

abbrev pub deliver_payload : Env → Item → Option Payload → List Act → List Act
deliver_payload env item none acts = acts
deliver_payload env item (some p) acts =
    if still_deliverable env item
    then deliver_to env (is_message item) p (env.devices (recipient item)) acts
    else acts

-- All that a delivery does after what was done before, the newest first.
unfoldable pub deliver : Env → Item → List Act → List Act
unfolding build_payload deliver_all
deliver env item = deliver_payload env item (build_payload env item)
