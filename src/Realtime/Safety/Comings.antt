-- ===== src/Realtime/Safety/Comings.antt =====
-- Streams that open, receive and end keep the invariant of the hub.
use daeil_scholar.Prelude.{
  ℕ, suc, ◌≢◌, ◌≤◌, ◌≡◌, refl, ap, sym, ◌∙◌, subst, true, false, Option, none, some, List, [], ◌∷◌,
  arith, length, All, Bool-cases, if-cases, ◌==◌, inl, inr,
}
use daeil_scholar.Prelude.Int.{ℤ}
use daeil_scholar.Realtime.{
  Event, Subscriber, Hub, Outcome, set_or_empty, unsubscribe_from, close_channel, set_of_left,
  update, find_set, put_set, delete_set, delete_subscriber, subscribe, unsubscribe,
}
use daeil_scholar.Realtime.Streams.{World, is_streaming, end_stream, receive, take_event}
use daeil_scholar.Realtime.Safety.Sets.{
  AllSets, All-map, AllSets-map, find_set-All, set_of_left-AllSets, delete_set-AllSets,
  delete_subscriber-All,
}
use daeil_scholar.Realtime.Safety.Channels.{Ensures, Ensures-bind, Keeps, replay_from-fits}
use daeil_scholar.Realtime.Safety.Publications.{
  IsLive, IsRunning, change-IsSound, IsBounded, IsSound,
}

pub subscribe-IsSound :
    (user : ℤ) (after : Option ℤ) (h : Hub) (ss : List ℕ)
    → IsSound h ss
    → Ensures (λ x. IsSound x.1 (x.0 ∷ ss)) (subscribe user after h)
unfolding subscribe
subscribe-IsSound user after h ss s =
    Ensures-bind (λ c. length c ≤ 256) (λ x. IsSound x.1 (x.0 ∷ ss)) _ _
      (replay_from-fits after h.maps (h.history user) (s.bounded.kept user))
      (λ ch fits.
        let p = h.next_sub in
        let set = set_or_empty (find_set user h.subscribers) in
        let h' : Hub = record h {
          subscribers = put_set user (p ∷ set) h.subscribers;
          subs = update h.subs p (record { user_seq = user; ch = ch; is_closed = false });
          next_sub = suc p;
        } in
        let stays : (u : ℤ) (q : ℕ) → IsLive h u q → IsLive h' u q = λ u q live. ground arith in
        record {
          sets = (
            (
              ground arith,
              All-map (IsLive h user) (IsLive h' user) set (stays user)
                  (find_set-All (IsLive h) user h.subscribers s.sets),
            ),
            AllSets-map (λ u q. IsLive h u q × (u ≢ user)) (IsLive h') _
                (λ u q live. stays u q live.0)
                (delete_set-AllSets (IsLive h) user h.subscribers s.sets),
          );
          running = (
            ground arith,
            All-map (IsRunning h) (IsRunning h') ss (λ q runs. ground arith) s.running,
          );
          bounded = record {
            channel = λ q.
                if-cases (λ (x : Subscriber). length x.ch ≤ 256) (q == p) _ _ (λ _. fits)
                  (λ _. s.bounded.channel q);
            kept = s.bounded.kept;
          };
        })

is_streaming-IsRunning :
    (h : Hub) (p : ℕ) (ss : List ℕ)
    → All (IsRunning h) ss
    → is_streaming p ss ≡ true
    → IsRunning h p
is_streaming-IsRunning h p [] hs o = absurd (cc)
is_streaming-IsRunning h p (q ∷ ss) (hq, hs) o = elim (Bool-cases (q == p)) [
  | inl same ↦ let e : q ≡ p = ground arith in subst (IsRunning h) e hq
  | inr differ ↦ is_streaming-IsRunning h p ss hs (rw differ at o)
]

take_event-IsSound :
    (p : ℕ) (ch : List Event) (h : Hub) (ss : List ℕ)
    → (length (h.subs p).ch ≤ 256 → length ch ≤ 256)
    → IsSound h ss
    → IsSound (take_event p ch h).1 ss
take_event-IsSound p [] h ss fits s = s
take_event-IsSound p (e ∷ ch) h ss fits s =
    let t : ℕ → Subscriber = update h.subs p (record (h.subs p) { ch = ch }) in
    let k : Keeps h.subs t = λ q. ground (arith, s.bounded.channel p) in change-IsSound h t ss k s

pub receive-IsSound : (p : ℕ) (h : Hub) (ss : List ℕ) → IsSound h ss → IsSound (receive p h).1 ss
unfolding receive
receive-IsSound p h ss s = take_event-IsSound p (h.subs p).ch h ss (λ b. b) s

-- The sets without a subscriber, whose user's set is `set`.
left-AllSets :
    (h : Hub) (user : ℤ) (p : ℕ) (set : List ℕ)
    → (h.subs p).user_seq ≡ user
    → AllSets (IsLive h) h.subscribers
    → All (λ q. IsLive h user q × (q ≢ p)) set
    → AllSets (λ u q. IsLive h u q × (q ≢ p)) (set_of_left user set h.subscribers)
left-AllSets h user p set at sets left =
    let others : AllSets (λ u q. IsLive h u q × (q ≢ p)) (delete_set user h.subscribers) =
      AllSets-map (λ u q. IsLive h u q × (u ≢ user)) (λ u q. IsLive h u q × (q ≢ p)) _
        (λ u q live. (live.0, λ e. live.1 (sym live.0.1 ∙ ap (λ r. (h.subs r).user_seq) e ∙ at)))
        (delete_set-AllSets (IsLive h) user h.subscribers sets) in
    set_of_left-AllSets (λ u q. IsLive h u q × (q ≢ p)) user set h.subscribers left others

-- Closing the channel of a subscriber that no set and no stream has.
close_channel-IsSound :
    (p : ℕ) (h : Hub) (ss : List ℕ)
    → (h.subs p).is_closed ≡ false
    → AllSets (λ u q. IsLive h u q × (q ≢ p)) h.subscribers
    → All (λ q. IsRunning h q × (q ≢ p)) ss
    → IsBounded h
    → Ensures (λ h'. IsSound h' ss) (close_channel p h)
close_channel-IsSound p h ss open_ch sets running b = rw open_ch (record {
  sets = AllSets-map _ _ h.subscribers (λ u q live. ground arith) sets;
  running = All-map _ _ ss (λ q runs. ground arith) running;
  bounded = record { channel = λ q. ground (arith, b.channel q, b.channel p); kept = b.kept };
})

unsubscribe_from-IsSound :
    (p : ℕ) (o : Option (List ℕ)) (h : Hub) (ss : List ℕ)
    → o ≡ find_set (h.subs p).user_seq h.subscribers
    → is_streaming p ss ≡ true
    → IsSound h ss
    → Ensures (λ h'. IsSound h' (delete_subscriber p ss)) (unsubscribe_from p o h)
unsubscribe_from-IsSound p none h ss found o s = record {
  sets = s.sets;
  running = All-map _ _ _ (λ q runs. runs.0) (delete_subscriber-All (IsRunning h) p ss s.running);
  bounded = s.bounded;
}
unsubscribe_from-IsSound p (some set) h ss found o s =
    let user = (h.subs p).user_seq in
    let set_live : All (IsLive h user) set =
      subst (λ o'. All (IsLive h user) (set_or_empty o')) (sym found)
        (find_set-All (IsLive h) user h.subscribers s.sets) in
    let left = delete_subscriber p set in
    close_channel-IsSound p (record h { subscribers = set_of_left user left h.subscribers })
      (delete_subscriber p ss) (is_streaming-IsRunning h p ss s.running o).1
      (left-AllSets h user p left refl s.sets
        (delete_subscriber-All (IsLive h user) p set set_live))
      (delete_subscriber-All (IsRunning h) p ss s.running)
      (record { channel = s.bounded.channel; kept = s.bounded.kept })

pub end_stream-IsSound :
    (p : ℕ) (w : World)
    → IsSound w.hub w.streams
    → Ensures (λ w'. IsSound w'.hub w'.streams) (end_stream p w)
unfolding unsubscribe
end_stream-IsSound p w s =
    let P : Outcome World → Type 0 = Ensures (λ w'. IsSound w'.hub w'.streams) in
    if-cases P (is_streaming p w.streams) _ _
      (λ o.
        Ensures-bind (λ h. IsSound h (delete_subscriber p w.streams))
          (λ w'. IsSound w'.hub w'.streams) _ _
          (unsubscribe_from-IsSound p _ w.hub w.streams refl o s) (λ h s'. s'))
      (λ _. s)
