-- ===== src/Realtime/Safety.antt =====
-- No sequence of streams and notifications makes the hub panic or wait with its mutex held.
pub mod Comings
pub mod Publications
mod Sets
pub mod Channels
use daeil_scholar.Prelude.{
  ℕ, suc, ◌≢◌, ◌+◌, ◌-◌, ◌≤◌, ◌<◌, ◌≡◌, refl, ap, sym, ◌∙◌, subst, Bool, true, false, Option, none,
  some, List, [], ◌∷◌, ◌++◌, arith, length, drop, length-append, length-drop, All, Bool-cases,
  Option-cases, if-cases, ltb, leb, ◌==◌, inl, inr,
}
use daeil_scholar.Prelude.Int.{ℤ, pos, leb_ℤ, eqb_ℤ, ltb_ℤ}
use daeil_scholar.Prelude.Text.{Text}
use daeil_scholar.Realtime.{
  Fields, Payload, map_at, other, Event, Subscriber, Hub, Outcome, done, panics, blocks, ◌>>=◌,
  event_history_limit, Value, update_user, set_or_empty, copy_payload, publish_to_connected,
  unsubscribe_from, close_channel, set_of_left, update, find_set, put_set, delete_set,
  delete_subscriber, event_id, send, replay, replay_from, subscribe, unsubscribe, latest, offer,
  offer_all, publish, publish_each, allocate, stamp, increment,
}
use daeil_scholar.Realtime.Streams.{
  World, Op, opens, receives, ends, message_received, message_sent, messages_read, notice_published,
  step, run, start, emit, is_streaming, broadcast, fresh_fields, fresh_event, open_stream,
  end_stream, with_hub, receive, take_event, last_event_id,
}
use Sets.{
  AllSets, All-map, AllSets-map, find_set-All, set_of_left-AllSets, delete_set-AllSets,
  delete_subscriber-All,
}
use Channels.{
  Ensures, Ensures-bind, Ensures-map, Keeps, offer_all-Keeps, length-latest-le, replay_from-fits,
}
use daeil_scholar.Realtime.Safety.Publications.{
  IsLive, IsRunning, change-IsSound, emit-IsSound, broadcast-IsSound, IsBounded, IsSound,
}
use daeil_scholar.Realtime.Safety.Comings.{subscribe-IsSound, receive-IsSound, end_stream-IsSound}

with_hub-IsSound :
    (w : World) (o : Outcome Hub)
    → Ensures (λ h. IsSound h w.streams) o
    → Ensures (λ w'. IsSound w'.hub w'.streams) (with_hub w o)
with_hub-IsSound w o h =
    Ensures-bind (λ h'. IsSound h' w.streams) (λ w'. IsSound w'.hub w'.streams) o _ h (λ h' s. s)

pub step-IsSound :
    (op : Op) (w : World)
    → IsSound w.hub w.streams
    → Ensures (λ w'. IsSound w'.hub w'.streams) (step op w)
unfolding step
step-IsSound (opens user header) w s =
    Ensures-bind (λ x. IsSound x.1 (x.0 ∷ w.streams)) (λ w'. IsSound w'.hub w'.streams) _ _
      (subscribe-IsSound user _ w.hub w.streams s) (λ x s'. s')
step-IsSound (receives p) w s = receive-IsSound p w.hub w.streams s
step-IsSound (ends p) w s = end_stream-IsSound p w s
step-IsSound (message_received recvr sender name accepted content) w s =
    with_hub-IsSound w _ (emit-IsSound recvr _ _ w.hub w.streams s)
step-IsSound (message_sent sender recvr) w s = with_hub-IsSound w _ (
    Ensures-bind (λ h'. IsSound h' w.streams) (λ h'. IsSound h' w.streams) _ _
      (emit-IsSound sender _ _ w.hub w.streams s) (λ h' s'. emit-IsSound recvr _ _ h' w.streams s'))
step-IsSound (messages_read sender reader through read_at) w s =
    with_hub-IsSound w _ (emit-IsSound sender _ _ w.hub w.streams s)
step-IsSound (notice_published notice_seq subject now) w s = with_hub-IsSound w _ (
    if-cases (Ensures (λ h'. IsSound h' w.streams)) (leb_ℤ notice_seq (pos 0)) _ _ (λ _. s)
      (λ _. broadcast-IsSound _ _ w.hub w.streams s))

run-IsSound :
    (ops : List Op) (w : World)
    → IsSound w.hub w.streams
    → Ensures (λ w'. IsSound w'.hub w'.streams) (run ops w)
unfolding run
run-IsSound [] w s = s
run-IsSound (op ∷ ops) w s =
    Ensures-bind (λ w'. IsSound w'.hub w'.streams) (λ w'. IsSound w'.hub w'.streams) (step op w)
      (run ops) (step-IsSound op w s) (λ w' s'. run-IsSound ops w' s')

pub Ensures-done {ℓ} :
    {A : Type ℓ} (P : A → Type 0) (m : Outcome A) → Ensures P m → (a : A) × (m ≡ done a) × P a
Ensures-done P (done a) h = (a, refl, h)
Ensures-done P panics h = absurd h
Ensures-done P blocks h = absurd h

-- Whatever streams open, receive and end, each ending once, and whatever notifications come
-- between, in any order, the hub answers every call: no send or close meets a closed channel, no
-- call waits for room in a channel. Every channel and every history then holds at most 256 events,
-- and the channels of the streams still open are open.
pub run-safe :
    (now : ℕ) (ops : List Op)
    → (w : World) × (run ops (start now) ≡ done w)
      × ((p : ℕ) → length (w.hub.subs p).ch ≤ event_history_limit)
      × ((user : ℤ) → length (w.hub.history user) ≤ event_history_limit)
      × All (λ p. (w.hub.subs p).is_closed ≡ false) w.streams
run-safe now ops =
    let (w, ran, s) =
      Ensures-done (λ w'. IsSound w'.hub w'.streams) (run ops (start now))
        (run-IsSound ops (start now) (record {
          sets = tt;
          running = tt;
          bounded = record { channel = λ p. omega arith; kept = λ u. omega arith };
        })) in
    (w, ran, s.bounded.channel, s.bounded.kept, All-map _ _ w.streams (λ p r. r.1) s.running)
