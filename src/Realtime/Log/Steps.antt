-- ===== src/Realtime/Log/Steps.antt =====
-- Every call adds to the log what it publishes.
use daeil_scholar.Prelude.{
  ℕ, suc, ◌+◌, ◌^◌, ◌<◌, ◌≡◌, refl, ap, subst, Option, none, some, List, [], ◌∷◌, ◌++◌, map, arith,
  length, length-append, Bool-cases, if-cases, inl, inr,
}
use daeil_scholar.Prelude.Int.{ℤ, pos, leb_ℤ}
use mathlib.Core.List.{append-nil, append_assoc}
use daeil_scholar.Prelude.Text.{codes}
use daeil_scholar.Realtime.{
  Event, Subscriber, Hub, Outcome, done, panics, blocks, ◌>>=◌, latest, connected_users, subscribe,
  after_subscribe, replay_from, unsubscribe, unsubscribe_from,
}
use daeil_scholar.Realtime.Streams.{
  World, Op, opens, receives, ends, message_received, message_sent, messages_read, notice_published,
  step, run, start, emit, open_stream, end_stream, with_hub, receive, take_event,
  conversation_entries, notice_entries, after_unsubscribe, is_streaming,
}
use daeil_scholar.Realtime.Log.{
  Entry, entry, published, rest_of, log, Allows, Allows-bind, Allows-Unit, events_of, Refines,
}
use daeil_scholar.Realtime.Log.Publications.{emit-Refines, broadcast-Refines}

-- Subscribers come and go beside the log.
beside :
    (now : ℕ) (es : List Entry) (h : Hub) (sets : List (ℤ × List ℕ)) (subs : ℕ → Subscriber)
    (next_sub : ℕ)
    → Refines now es h
    → Refines now es (record h { subscribers = sets; subs = subs; next_sub = next_sub })
beside now es h sets subs next_sub r = record {
  addresses = r.addresses;
  maps_stamped = r.maps_stamped;
  kept = r.kept;
  next = r.next;
}

unsubscribe_from-Refines :
    (now : ℕ) (es : List Entry) (p : ℕ) (o : Option (List ℕ)) (h : Hub)
    → Refines now es h
    → Allows (Refines now es) (unsubscribe_from p o h)
unsubscribe_from-Refines now es p none h r = r
unsubscribe_from-Refines now es p (some set) h r =
    if-cases (Allows (Refines now es)) (h.subs p).is_closed _ _ (λ _. tt)
      (λ _. beside now es h _ _ h.next_sub r)

take_event-Refines :
    (now : ℕ) (es : List Entry) (p : ℕ) (ch : List Event) (h : Hub)
    → Refines now es h
    → Refines now es (take_event p ch h).1
take_event-Refines now es p [] h r = r
take_event-Refines now es p (e ∷ ch) h r = beside now es h h.subscribers _ h.next_sub r

with_hub-Refines :
    (now : ℕ) (es : List Entry) (w : World) (o : Outcome Hub)
    → Allows (Refines now es) o
    → Allows (λ w'. Refines now es w'.hub) (with_hub w o)
with_hub-Refines now es w o h =
    Allows-bind (Refines now es) (λ w'. Refines now es w'.hub) o
      (λ h'. done (record w { hub = h' })) h (λ h' r. r)

subscribe-Refines :
    (now : ℕ) (es : List Entry) (user : ℤ) (after : Option ℤ) (h : Hub)
    → Refines now es h
    → Allows (λ x. Refines now es x.1) (subscribe user after h)
unfolding subscribe
subscribe-Refines now es user after h r =
    Allows-bind (λ ch. Unit) (λ x. Refines now es x.1) (replay_from after h.maps (h.history user))
      (λ ch. done (h.next_sub, after_subscribe user h ch)) (Allows-Unit _)
      (λ ch _. beside now es h _ _ (suc h.next_sub) r)

end_stream-Refines :
    (now : ℕ) (es : List Entry) (p : ℕ) (w : World)
    → Refines now es w.hub
    → Allows (λ w'. Refines now es w'.hub) (end_stream p w)
unfolding unsubscribe
end_stream-Refines now es p w r =
    if-cases (Allows (λ w'. Refines now es w'.hub)) (is_streaming p w.streams) _ _
      (λ _.
        Allows-bind (Refines now es) (λ w'. Refines now es w'.hub) _ (after_unsubscribe p w)
          (unsubscribe_from-Refines now es p _ w.hub r) (λ h r'. r'))
      (λ _. r)

length-map : (f : ℤ → Entry) (us : List ℤ) → length (map f us) ≡ length us
length-map f [] = refl
length-map f (u ∷ us) = omega (arith, length-map f us)

step-Refines :
    (now : ℕ) (es : List Entry) (op : Op) (w : World)
    → now + length es + length (published op w) < 2 ^ 63
    → Refines now es w.hub
    → Allows (λ w'. Refines now (es ++ published op w) w'.hub) (step op w)
unfolding step receive
step-Refines now es (opens user header) w small r = rw (append-nil es) (
    Allows-bind (λ x. Refines now es x.1) (λ w'. Refines now es w'.hub)
      (open_stream user header w.hub) _ (subscribe-Refines now es user _ w.hub r) (λ x r'. r'))
step-Refines now es (receives p) w small r =
    rw (append-nil es) (take_event-Refines now es p (w.hub.subs p).ch w.hub r)
step-Refines now es (ends p) w small r = rw (append-nil es) (end_stream-Refines now es p w r)
step-Refines now es (message_received recvr sender name accepted content) w small r =
    with_hub-Refines now _ w _ (emit-Refines now es recvr _ _ w.hub (omega arith) r)
step-Refines now es (message_sent sender recvr) w small r =
    let first = entry (codes "conversation.updated") (conversation_entries recvr) sender in
    let second = entry (codes "conversation.updated") (conversation_entries sender) recvr in
    with_hub-Refines now _ w _ (
      Allows-bind (Refines now (es ++ first ∷ [])) (Refines now (es ++ (first ∷ second ∷ []))) _ _
        (emit-Refines now es sender _ _ w.hub (omega arith) r)
        (λ h' r'.
          subst
            (λ l.
              Allows (Refines now l)
                (emit recvr (codes "conversation.updated") (conversation_entries sender) h'))
            (append_assoc es (first ∷ []) (second ∷ []))
            (emit-Refines now (es ++ first ∷ []) recvr _ _ h'
              (omega (arith, length-append {0} es (first ∷ []))) r')))
step-Refines now es (messages_read sender reader through read_at) w small r =
    with_hub-Refines now _ w _ (emit-Refines now es sender _ _ w.hub (omega arith) r)
step-Refines now es (notice_published notice_seq subject at) w small r =
    elim (Bool-cases (leb_ℤ notice_seq (pos 0))) [
      | inl none_sent ↦ rw (none_sent, append-nil es) r
      | inr sent ↦
          let fits = rw sent at small in
          rw sent (
            with_hub-Refines now _ w _ (
              broadcast-Refines now es (codes "notification.created")
                (notice_entries notice_seq subject at) w.hub
                (omega (
                  arith,
                  length-map
                      (entry (codes "notification.created") (notice_entries notice_seq subject at))
                      (connected_users w.hub.subscribers),
                ))
                r))
    ]

after_step :
    (now : ℕ) (es : List Entry) (ops : List Op) (m : Outcome World)
    → ((w : World)
        → now + length es + length (log ops w) < 2 ^ 63
        → Refines now es w.hub
        → Allows (λ w'. Refines now (es ++ log ops w) w'.hub) (run ops w))
    → now + length es + length (rest_of (log ops) m) < 2 ^ 63
    → Allows (λ w. Refines now es w.hub) m
    → Allows (λ w'. Refines now (es ++ rest_of (log ops) m) w'.hub) (m >>= run ops)
after_step now es ops (done w) ih small r = ih w small r
after_step now es ops panics ih small r = tt
after_step now es ops blocks ih small r = tt

run_from-Refines :
    (now : ℕ) (es : List Entry) (ops : List Op) (w : World)
    → now + length es + length (log ops w) < 2 ^ 63
    → Refines now es w.hub
    → Allows (λ w'. Refines now (es ++ log ops w) w'.hub) (run ops w)
unfolding run log
run_from-Refines now es [] w small r = rw (append-nil es) r
run_from-Refines now es (op ∷ ops) w small r =
    let new = published op w in
    let old = length-append {0} es new in
    let whole = length-append {0} new (rest_of (log ops) (step op w)) in
    subst (λ l. Allows (λ w'. Refines now l w'.hub) (step op w >>= run ops))
      (append_assoc es new (rest_of (log ops) (step op w)))
      (after_step now (es ++ new) ops (step op w) (λ w'. run_from-Refines now (es ++ new) ops w')
        (omega (arith, old, whole)) (step-Refines now es op w (omega (arith, whole)) r))

pub run-Refines :
    (now : ℕ) (ops : List Op)
    → now + length (log ops (start now)) < 2 ^ 63
    → Allows (λ w. Refines now (log ops (start now)) w.hub) (run ops (start now))
unfolding latest events_of
run-Refines now ops small =
    run_from-Refines now [] ops (start now) (omega arith)
      (record { addresses = []; maps_stamped = tt; kept = λ u. refl; next = ap pos (omega arith) })
