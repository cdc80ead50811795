-- ===== src/Realtime/Examples.antt =====
-- Two members: a message to the second, a notice while only the first is connected, and the second
-- comes back with the id of the message.
use daeil_scholar.Prelude.{ℕ, ◌≤◌, ◌≡◌, refl, false, List, [], ◌∷◌, arith, length, drop, All, some}
use daeil_scholar.Prelude.Int.{ℤ, pos}
use daeil_scholar.Prelude.Text.{codes, parse_int, trim_space}
use daeil_scholar.Realtime.{
  done, event_history_limit, find_set, delete_set, delete_subscriber, replay, subscribe,
  unsubscribe, latest, offer_all, publish, publish_each, publish_to_connected,
}
use daeil_scholar.Realtime.Streams.{
  World, Op, opens, receives, ends, message_received, message_sent, notice_published,
  SendMessageResponse, emit, receive, step, run, start,
}
use daeil_scholar.Realtime.Safety.{run-safe}
use daeil_scholar.Realtime.Log.{log}
use daeil_scholar.Realtime.Replay.{reconnect_lem}
use daeil_scholar.Realtime.Replay.Parts.{addressed, newest, frames}

abbrev acceptance : SendMessageResponse
acceptance = record { message_id = pos 7; created_at = codes "2026-01-02" }

abbrev calls : List Op
calls =
    opens (pos 1) []
    ∷ opens (pos 2) []
    ∷ message_received (pos 2) (pos 1) (codes "Kim") acceptance (codes "hello")
    ∷ receives 1
    ∷ ends 1
    ∷ message_sent (pos 1) (pos 2)
    ∷ notice_published (pos 3) (codes "news") (codes "now")
    ∷ []

run-safe_example :
    (w : World) × (run calls (start 1000) ≡ done w)
    × ((p : ℕ) → length (w.hub.subs p).ch ≤ event_history_limit)
    × ((user : ℤ) → length (w.hub.history user) ≤ event_history_limit)
    × All (λ p. (w.hub.subs p).is_closed ≡ false) w.streams
run-safe_example = run-safe 1000 calls

four_published : length (log calls (start 1000)) ≡ 4
unfolding log run step emit subscribe replay unsubscribe find_set delete_set delete_subscriber
    latest offer_all publish publish_each publish_to_connected receive parse_int trim_space
four_published = refl

parsed_id : parse_int (trim_space (codes "1001 ")) ≡ some (pos 1001)
unfolding parse_int trim_space
parsed_id = refl

reconnect_lem_example :
    (w w' : World) × (run calls (start 1000) ≡ done w)
    × (step (opens (pos 2) (codes "1001 ")) w ≡ done w')
    × (w'.streams ≡ w.hub.next_sub ∷ w.streams)
    × (frames w'.hub.maps (w'.hub.subs w.hub.next_sub).ch
        ≡ newest (addressed (pos 2) 1001 (drop 1 (log calls (start 1000)))))
reconnect_lem_example =
    reconnect_lem 1000 calls (pos 2) (codes "1001 ") 1 (omega (arith, four_published))
      (omega (arith, four_published)) (omega arith) parsed_id

-- One event is replayed: the changed conversation. The notice was for those who were connected.
one_missed : length (addressed (pos 2) 1001 (drop 1 (log calls (start 1000)))) ≡ 1
unfolding log run step emit subscribe replay unsubscribe find_set delete_set delete_subscriber
    latest offer_all publish publish_each publish_to_connected receive parse_int trim_space
    addressed
one_missed = refl
