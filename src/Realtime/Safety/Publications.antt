-- ===== src/Realtime/Safety/Publications.antt =====
-- The invariant of the hub, and that publications keep it.
use daeil_scholar.Prelude.{
  ℕ, ◌≤◌, ◌<◌, ◌≡◌, false, List, [], ◌∷◌, ◌++◌, arith, length, All, if-cases,
}
use daeil_scholar.Prelude.Int.{ℤ, eqb_ℤ}
use daeil_scholar.Prelude.Text.{Text}
use daeil_scholar.Realtime.{
  Fields, Payload, map_at, other, Event, Subscriber, Hub, Value, update_user, set_or_empty,
  copy_payload, publish_to_connected, find_set, latest, offer_all, publish, publish_each, allocate,
}
use daeil_scholar.Realtime.Streams.{emit, broadcast, fresh_fields}
use daeil_scholar.Realtime.Safety.Sets.{AllSets, All-map, AllSets-map, find_set-All}
use daeil_scholar.Realtime.Safety.Channels.{
  Ensures, Ensures-bind, Keeps, offer_all-Keeps, length-latest-le,
}

-- A subscriber that a set of this user holds.
abbrev pub IsLive : Hub → ℤ → ℕ → Type 0
IsLive h user p = (p < h.next_sub) × ((h.subs p).user_seq ≡ user) × ((h.subs p).is_closed ≡ false)

abbrev pub IsRunning : Hub → ℕ → Type 0
IsRunning h p = (p < h.next_sub) × ((h.subs p).is_closed ≡ false)

-- Channels and histories within their limits.
pub record IsBounded (h : Hub) : Type 0 where
  pub channel : (p : ℕ) → length (h.subs p).ch ≤ 256
  pub kept : (u : ℤ) → length (h.history u) ≤ 256

pub record IsSound (h : Hub) (streams : List ℕ) : Type 0 where
  pub sets : AllSets (IsLive h) h.subscribers
  pub running : All (IsRunning h) streams
  pub bounded : IsBounded h

IsLive-Keeps :
    (h : Hub) (t : ℕ → Subscriber) (u : ℤ) (p : ℕ)
    → Keeps h.subs t
    → IsLive h u p
    → IsLive (record h { subs = t }) u p
IsLive-Keeps h t u p k live = ground (arith, k p)

pub change-IsSound :
    (h : Hub) (t : ℕ → Subscriber) (ss : List ℕ)
    → Keeps h.subs t
    → IsSound h ss
    → IsSound (record h { subs = t }) ss
change-IsSound h t ss k s = record {
  sets = AllSets-map (IsLive h) _ h.subscribers (λ u p. IsLive-Keeps h t u p k) s.sets;
  running = All-map (IsRunning h) _ ss (λ p runs. ground (arith, k p)) s.running;
  bounded = record { channel = λ p. (k p).2 (s.bounded.channel p); kept = s.bounded.kept };
}

update_user_kept :
    (f : ℤ → List Event) (user : ℤ) (es : List Event) (u : ℤ)
    → ((v : ℤ) → length (f v) ≤ 256)
    → length (update_user f user (latest es) u) ≤ 256
update_user_kept f user es u h =
    if-cases (λ (xs : List Event). length xs ≤ 256) (eqb_ℤ u user) _ _ (λ _. length-latest-le es)
      (λ _. h u)

publish-IsSound :
    (user : ℤ) (e : Event) (h : Hub) (ss : List ℕ)
    → IsSound h ss
    → Ensures (λ h'. IsSound h' ss) (publish user e h)
unfolding publish
publish-IsSound user e h ss s =
    let set = set_or_empty (find_set user h.subscribers) in
    let open_set : All (λ p. (h.subs p).is_closed ≡ false) set =
      All-map (IsLive h user) (λ p. (h.subs p).is_closed ≡ false) set (λ p live. live.2)
        (find_set-All (IsLive h) user h.subscribers s.sets) in
    Ensures-bind (Keeps h.subs) (λ h'. IsSound h' ss) (offer_all e set h.subs) _
      (offer_all-Keeps e set h.subs open_set)
      (λ t k.
        let s' = change-IsSound h t ss k s in
        record {
          sets = s'.sets;
          running = s'.running;
          bounded = record {
            channel = s'.bounded.channel;
            kept = λ u. update_user_kept h.history user (h.history user ++ e ∷ []) u s.bounded.kept;
          };
        })

allocate-IsSound : (f : Fields) (h : Hub) (ss : List ℕ) → IsSound h ss → IsSound (allocate f h) ss
allocate-IsSound f h ss s = record {
  sets = s.sets;
  running = s.running;
  bounded = record { channel = s.bounded.channel; kept = s.bounded.kept };
}

copy_payload-IsSound :
    (q : Payload) (h : Hub) (ss : List ℕ) → IsSound h ss → IsSound (copy_payload q h).1 ss
copy_payload-IsSound (map_at a) h ss s = allocate-IsSound (h.maps a) h ss s
copy_payload-IsSound other h ss s = s

pub emit-IsSound :
    (user : ℤ) (kind : Text) (entries : List (Text × Value)) (h : Hub) (ss : List ℕ)
    → IsSound h ss
    → Ensures (λ h'. IsSound h' ss) (emit user kind entries h)
unfolding emit
emit-IsSound user kind entries h ss s =
    publish-IsSound user _ _ ss (allocate-IsSound (fresh_fields entries) h ss s)

publish_each-IsSound :
    (us : List ℤ) (e : Event) (h : Hub) (ss : List ℕ)
    → IsSound h ss
    → Ensures (λ h'. IsSound h' ss) (publish_each us e h)
unfolding publish_each
publish_each-IsSound [] e h ss s = s
publish_each-IsSound (u ∷ us) e h ss s =
    Ensures-bind (λ h'. IsSound h' ss) (λ h'. IsSound h' ss) _ (publish_each us e)
      (publish-IsSound u _ _ ss (copy_payload-IsSound e.payload h ss s))
      (λ h' s'. publish_each-IsSound us e h' ss s')

pub broadcast-IsSound :
    (kind : Text) (entries : List (Text × Value)) (h : Hub) (ss : List ℕ)
    → IsSound h ss
    → Ensures (λ h'. IsSound h' ss) (broadcast kind entries h)
unfolding publish_to_connected
broadcast-IsSound kind entries h ss s =
    Ensures-bind (λ x. IsSound x.1 ss) (λ h'. IsSound h' ss) _ _
      (Ensures-bind (λ h'. IsSound h' ss) (λ x. IsSound x.1 ss) _ _
        (publish_each-IsSound _ _ _ ss (allocate-IsSound (fresh_fields entries) h ss s))
        (λ h' s'. s'))
      (λ x s'. s')
