-- ===== src/Realtime/Replay.antt =====
-- A stream that is opened again: what waits in its channel, read off the log.
pub mod Parts
use daeil_scholar.Prelude.{
  length-take, All-drop, ℕ, zero, suc, ◌+◌, ◌-◌, ◌^◌, ◌≤◌, ◌<◌, ◌≡◌, refl, ap, sym, subst, ◌∙◌,
  Bool, true, false, Option, none, some, List, [], ◌∷◌, ◌++◌, map, arith, length, drop, take, keep,
  length-append, length-drop, All, Bool-cases, if-cases, ltb, leb, ◌==◌, inl, inr, if◌then◌else◌,
}
use mathlib.Core.List.{append-nil, append_assoc}
use daeil_scholar.Prelude.Int.{ℤ, pos, eqb_ℤ, leb_ℤ, ltb_ℤ}
use daeil_scholar.Prelude.Text.{Text, parse_int, trim_space}
use daeil_scholar.Realtime.{
  Value, Fields, Payload, map_at, other, Event, Hub, Outcome, done, panics, blocks, ◌>>=◌, event_id,
  send, replay, replay_from, latest, after_subscribe, subscribe,
}
use daeil_scholar.Realtime.Streams.{
  World, Op, opens, step, run, start, Received, frame, payload_frame, open_stream, last_event_id,
}
use daeil_scholar.Realtime.Safety.{run-safe}
use daeil_scholar.Realtime.Safety.Channels.{length-latest-le}
use daeil_scholar.Realtime.Log.{
  Entry, log, Allows, stamped, event_at, Stamped, events_of, Refines, latest_lem,
}
use daeil_scholar.Realtime.Log.Steps.{run-Refines}
use daeil_scholar.Realtime.Replay.Parts.{
  old_events, new_events, frames-events_of, Stamped-take, Stamped-drop, events_of-split, addressed,
  newest, frames, newer, replay-keep,
}

keep-true : (p : Event → Bool) (es : List Event) → All (λ e. p e ≡ true) es → keep p es ≡ es
keep-true p [] h = refl
keep-true p (e ∷ es) (he, h) = rw he (ap (λ r. e ∷ r) (keep-true p es h))

keep-drop :
    (p : Event → Bool) (d : ℕ) (xs ys : List Event)
    → All (λ e. p e ≡ false) xs
    → All (λ e. p e ≡ true) ys
    → keep p (drop d (xs ++ ys)) ≡ drop (d - length xs) ys
keep-drop p d [] ys h k =
    let at : d - 0 ≡ d = omega arith in
    rw at (keep-true p (drop d ys) (All-drop (λ e. p e ≡ true) d ys k))
keep-drop p zero (x ∷ xs) ys (hx, h) k =
    let at : 0 - suc (length xs) ≡ 0 - length xs = omega arith in
    rw (at, hx) (keep-drop p zero xs ys h k)
keep-drop p (suc d) (x ∷ xs) ys (hx, h) k =
    let at : suc d - suc (length xs) ≡ d - length xs = omega arith in
    rw at (keep-drop p d xs ys h k)

frames-drop :
    (maps : ℕ → Fields) (d : ℕ) (es : List Event)
    → frames maps (drop d es) ≡ drop d (frames maps es)
frames-drop maps zero es = refl
frames-drop maps (suc d) [] = refl
frames-drop maps (suc d) (e ∷ es) = frames-drop maps d es

length-frames : (maps : ℕ → Fields) (es : List Event) → length (frames maps es) ≡ length es
length-frames maps [] = refl
length-frames maps (e ∷ es) = omega (arith, length-frames maps es)

-- What is replayed from a history that shows a log.
replayed_frames :
    (now j : ℕ) (user : ℤ) (es : List Entry) (h : Hub)
    → j ≤ length es
    → Refines now es h
    → frames h.maps (keep (newer h.maps (pos (now + j))) (h.history user))
      ≡ newest (addressed user (now + j) (drop j es))
replayed_frames now j user es h at r =
    let places = r.addresses in
    let old = events_of user (take j es) (take j places) in
    let new = events_of user (drop j es) (drop j places) in
    let p = newer h.maps (pos (now + j)) in
    let d = length (events_of user es places) - 256 in
    let split = events_of-split h.maps h.next_map user j now es places r.maps_stamped in
    let newer_first : keep p (h.history user) ≡ drop (d - length old) new =
      ap (keep p) (r.kept user ∙ latest_lem (events_of user es places) ∙ ap (drop d) split)
      ∙ keep-drop p d old new
          (old_events h.maps h.next_map user (now + j) now (take j es) (take j places)
            (omega (arith, length-take j es))
            (Stamped-take h.maps h.next_map user j now es places r.maps_stamped))
          (new_events h.maps h.next_map user (now + j) (now + j) (drop j es) (drop j places)
            (omega arith)
            (Stamped-drop h.maps h.next_map user j now es places at r.maps_stamped)) in
    let shown : frames h.maps new ≡ addressed user (now + j) (drop j es) =
      frames-events_of h.maps h.next_map user (now + j) (drop j es) (drop j places)
        (Stamped-drop h.maps h.next_map user j now es places at r.maps_stamped) in
    let count : d - length old ≡ length (addressed user (now + j) (drop j es)) - 256 =
      omega (
        arith,
        ap length split,
        length-append old new,
        length-frames h.maps new,
        ap length shown,
      ) in
    ap (frames h.maps) newer_first
    ∙ frames-drop h.maps (d - length old) new
    ∙ ap (drop (d - length old)) shown
    ∙ ap (λ c. drop c (addressed user (now + j) (drop j es))) count

-- The channel of a stream that is opened after the id `after`.
opened :
    (user : ℤ) (header : Text) (after : ℕ) (w : World)
    → 0 < after
    → parse_int (trim_space header) ≡ some (pos after)
    → length (w.hub.history user) ≤ 256
    → step (opens user header) w
      ≡ done (record {
        hub = after_subscribe user w.hub (keep (newer w.hub.maps (pos after)) (w.hub.history user));
        streams = w.hub.next_sub ∷ w.streams;
      })
unfolding step subscribe
opened user header after w some_id parsed few =
    let positive : ltb_ℤ (pos 0) (pos after) ≡ true = ground arith in
    rw (parsed, positive, replay-keep w.hub.maps (pos after) (w.hub.history user) [] (omega arith))
      refl

Allows-done {ℓ} :
    {A : Type ℓ} (P : A → Type 0) (m : Outcome A) (a : A) → m ≡ done a → Allows P m → P a
Allows-done P m a e h = subst (Allows P) e h

-- A client that had the first `j` publications of the hub's life, of any kind and to anyone, and
-- comes back with the id of the last of them, finds in its channel exactly the later ones that are
-- addressed to it, in order and with their ids, whatever came between; of more than 256 the last
-- 256. The ids of the hub's life fit in 63 bits.
pub reconnect_lem :
    (now : ℕ) (ops : List Op) (user : ℤ) (header : Text) (j : ℕ)
    → now + length (log ops (start now)) < 2 ^ 63
    → j ≤ length (log ops (start now))
    → 0 < now + j
    → parse_int (trim_space header) ≡ some (pos (now + j))
    → (w w' : World) × (run ops (start now) ≡ done w)
      × (step (opens user header) w ≡ done w')
      × (w'.streams ≡ w.hub.next_sub ∷ w.streams)
      × (frames w'.hub.maps (w'.hub.subs w.hub.next_sub).ch
          ≡ newest (addressed user (now + j) (drop j (log ops (start now)))))
reconnect_lem now ops user header j small at some_id parsed =
    let (w, ran, channels, kept, running) = run-safe now ops in
    let r =
      Allows-done (λ v. Refines now (log ops (start now)) v.hub) (run ops (start now)) w ran
        (run-Refines now ops small) in
    let ch = keep (newer w.hub.maps (pos (now + j))) (w.hub.history user) in
    let same : w.hub.next_sub == w.hub.next_sub ≡ true = ground arith in
    (
      w,
      record { hub = after_subscribe user w.hub ch; streams = w.hub.next_sub ∷ w.streams },
      ran,
      opened user header (now + j) w some_id parsed (kept user),
      refl,
      rw same (replayed_frames now j user (log ops (start now)) w.hub at r),
    )
