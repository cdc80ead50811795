-- ===== src/Push/Examples.antt =====
-- A message to a member with two devices, the first of which answers late and the second of which is
-- gone, and a notice to three members.
use daeil_scholar.Prelude.{
  ℕ, ◌*◌, ◌%◌, ◌≤◌, ◌<◌, ◌≡◌, ◌↔◌, ◌⊎◌, refl, true, false, none, some, List, [], ◌∷◌, arith, ◌==◌,
  length, ltb, if◌then◌else◌,
}
use daeil_scholar.Prelude.Int.{pos}
use daeil_scholar.Prelude.Text.{Text, codes, itoa, text_eq}
use daeil_scholar.Push.{
  PushPreferences, Target, RenderedTemplate, Item, message, Payload, Act, SendResult, delivered,
  invalid_token, transient, Env, build_payload,
}
use daeil_scholar.Push.Delivery.{attempts, deliver_all, deliver}
use daeil_scholar.Push.Guards.{IsGuarded, sends, deliver-IsGuarded, deliver-sends}
use daeil_scholar.Push.Private.{deliver-private}
use daeil_scholar.Push.Broadcast.{World, FanOut, fan_out, not_started}
use daeil_scholar.Push.FanOut.{IsSteady, fan_out_lem}
use daeil_scholar.Push.Shutdown.{
  Life, started, start_producer, begin_shutdown, send_item, close_queues, Event, starting, ending,
  fan_out_send, stop_begins, stop_closes, producer_starts, producer_sends, producer_ends,
  shutdown_begins, queues_close, here, next, closes, late_sends, Reach, Reach-safe,
}

abbrev phone : Target
phone = record { session_id = codes "s1"; platform = codes "ios"; device_token = codes "t1" }

abbrev tablet : Target
tablet = record { session_id = codes "s2"; platform = codes "ios"; device_token = codes "t2" }

-- The phone answers on the second attempt.
abbrev answer : List Act → Target → Payload → SendResult
answer acts t p =
    if text_eq t.session_id (codes "s1")
    then (if ltb (sends acts) 1 then transient else delivered)
    else invalid_token

abbrev hidden : PushPreferences
hidden = record { message_enabled = true; message_preview_enabled = false; notice_enabled = true }

abbrev fixed_text : RenderedTemplate
fixed_text = record {
  key = codes "k";
  version = pos 1;
  title = codes "new";
  body = codes "a message";
}

abbrev env : Env
env = record {
  render = λ key vars. fixed_text;
  now_nanos = pos 5;
  now_text = codes "now";
  preferences = λ u. some (some hidden);
  devices = λ u. some (phone ∷ tablet ∷ []);
  notice_published = none;
  verification_current = none;
  message_available = some (λ acts. some true);
  target_current = some (λ acts t. some true);
  send = answer;
}

abbrev note : Text → Item
note content = message (pos 2) (pos 1) (codes "Kim") (pos 7) (codes "t") content

deliver-IsGuarded_example : IsGuarded (deliver env (note (codes "hi")) [])
deliver-IsGuarded_example = deliver-IsGuarded env (note (codes "hi")) refl refl refl

deliver-sends_example :
    sends (deliver env (note (codes "hi")) []) ≤ 3 * length (phone ∷ tablet ∷ [])
deliver-sends_example = deliver-sends env (note (codes "hi")) (phone ∷ tablet ∷ []) refl

three_sends : sends (deliver env (note (codes "hi")) []) ≡ 3
unfolding deliver deliver_all attempts build_payload itoa
three_sends = refl

deliver-private_example :
    deliver env (note (codes "hi")) [] ≡ deliver env (note (codes "secret")) []
deliver-private_example =
    deliver-private env (pos 2) (pos 1) (codes "Kim") (pos 7) (codes "t") (codes "hi")
      (codes "secret") hidden [] refl refl

-- Every second read fails.
abbrev steady : World
steady = record { read_fails = λ r. r % 2 == 0; closes = λ r. false; accepts = λ i. true }

abbrev members : List ℕ
members = 3 ∷ 5 ∷ 8 ∷ []

-- A read after a failure succeeds.
abbrev retry_after : ℕ → ℕ
retry_after r = if r % 2 == 0 then 1 else 0

steady-IsSteady : IsSteady steady
steady-IsSteady = record {
  reads_succeed = λ r. (retry_after r, ground arith, ground arith);
  stays_open = λ r. refl;
  takes = λ i. refl;
}

fan_out_lem_example :
    (s : FanOut) × (fan_out steady members 4 not_started ≡ some s)
    × (s.queue ≡ members)
    × (s.dropped ≡ 0)
fan_out_lem_example = fan_out_lem steady members 4 steady-IsSteady (omega arith) (omega arith)

-- A producer starts, a call of `Stop` begins, the producer sends and ends, the queues close.
abbrev stopping : List Event
stopping = stop_closes ∷ ending ∷ fan_out_send ∷ stop_begins ∷ starting ∷ []

abbrev stopped : Life
stopped = record {
  closed = true;
  closings = 1;
  producers = 0;
  waiting = 0;
  queues_closed = true;
  panicked = false;
}

stopping-stopped : Reach started stopping stopped
unfolding start_producer begin_shutdown send_item close_queues
stopping-stopped =
    let running = (start_producer started).0 in
    let waiting = record (begin_shutdown running) { waiting = 1 } in
    let waited = record waiting { producers = 0 } in
    next
      (next
        (next (next (next here (producer_starts started)) (shutdown_begins running))
          (producer_sends waiting (omega arith)))
        (producer_ends waiting 0 refl))
      (queues_close waited 0 refl refl)

Reach-safe_example :
    (stopped.panicked ≡ true ↔ (2 ≤ closes stopping) ⊎ (1 ≤ late_sends stopping))
    × (0 < stopped.producers → stopped.queues_closed ≡ false)
    × (stopped.closed ≡ true → (start_producer stopped).1 ≡ false)
    × ((begin_shutdown stopped).closings ≤ 1)
Reach-safe_example = Reach-safe stopping stopped stopping-stopped

-- A second call that goes on panics, and so does a notifier that sends afterwards.
closed_again : (close_queues stopped).panicked ≡ true
unfolding close_queues
closed_again = refl

sent_late : (send_item stopped).panicked ≡ true
unfolding send_item
sent_late = refl
