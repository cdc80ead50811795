-- ===== src/Realtime/Log/Publications.antt =====
-- Every publication adds an entry to the log.
use daeil_scholar.Prelude.{
  ℕ, suc, ◌+◌, ◌^◌, ◌≤◌, ◌<◌, ◌≡◌, refl, ap, sym, subst, ◌∙◌, List, [], ◌∷◌, ◌++◌, map, arith,
  length, length-append, Bool-cases, inl, inr,
}
use daeil_scholar.Prelude.Int.{ℤ, pos, eqb_ℤ, eq_of_parts}
use mathlib.Core.List.{append-nil, append_assoc}
use daeil_scholar.Prelude.Text.{Text}
use daeil_scholar.Realtime.{
  Value, Fields, map_at, Event, Hub, done, ◌>>=◌, update, after_publish, update_user, increment,
  stamp, latest, publish, allocate, connected_users, publish_each, publish_to_connected,
}
use daeil_scholar.Realtime.Streams.{emit, broadcast, fresh_fields}
use daeil_scholar.Realtime.Log.{
  Entry, entry, Allows, Allows-bind, Allows-map, Allows-Unit, stamped, event_at, Stamped, events_of,
  Refines, Stamped-append, events_of-append, latest-append,
}

kept-append :
    (maps : ℕ → Fields) (next n : ℕ) (h : ℤ → List Event) (es : List Entry) (places : List ℕ)
    (kind : Text) (entries : List (Text × Value)) (user : ℤ) (a : ℕ) (v : ℤ)
    → Stamped maps next n es places
    → ((u : ℤ) → h u ≡ latest (events_of u es places))
    → update_user h user (latest (h user ++ event_at kind a ∷ [])) v
      ≡ latest (events_of v (es ++ entry kind entries user ∷ []) (places ++ a ∷ []))
kept-append maps next n h es places kind entries user a v st kept =
    let new = events_of-append maps next n v es places (entry kind entries user) a st in
    elim (Bool-cases (eqb_ℤ v user)) [
      | inl same ↦
          let e : user ≡ v = eq_of_parts user v (ground arith) in
          let k : h user ≡ latest (events_of v es places) =
            subst (λ u. h user ≡ latest (events_of u es places)) e (kept user) in
          rw (new, same)
            (ap (λ r. latest (r ++ event_at kind a ∷ [])) k
              ∙ latest-append (events_of v es places) (event_at kind a))
      | inr differ ↦
          rw (new, differ) (kept v ∙ ap latest (sym (append-nil (events_of v es places))))
    ]

increment-small : (n : ℕ) → suc n < 2 ^ 63 → increment (pos n) ≡ pos (suc n)
increment-small n h = ground arith

-- The hub after one more publication: what was allocated before keeps its contents.
abbrev IsNext : ℕ → List Entry → Hub → Hub → Type 0
IsNext now es h h' =
    Refines now es h'
    × (h'.next_map ≡ suc h.next_map)
    × ((b : ℕ) → b < h.next_map → h'.maps b ≡ h.maps b)

-- A map that is new is published, whatever the entries that it was made with.
publish-Refines :
    (now : ℕ) (es : List Entry) (user : ℤ) (kind : Text) (f : Fields) (h : Hub)
    → suc (now + length es) < 2 ^ 63
    → Refines now es h
    → Allows
        (IsNext now (es ++ entry kind f.entries user ∷ []) h)
        (publish user (event_at kind h.next_map) (allocate f h))
unfolding publish
publish-Refines now es user kind f h small r =
    let a = h.next_map in
    let at : increment h.next_event_id ≡ pos (suc (now + length es)) =
      ap increment r.next ∙ increment-small (now + length es) small in
    let maps' = stamp (map_at a) (increment h.next_event_id) (update h.maps a f) in
    let same : (b : ℕ) → b < a → maps' b ≡ h.maps b = λ b below. ground arith in
    let new : maps' a ≡ stamped (suc (now + length es)) f.entries = ground (arith, at) in
    Allows-bind (λ t. Unit) (IsNext now (es ++ entry kind f.entries user ∷ []) h) _
      (λ t. done (after_publish user (event_at kind a) (allocate f h) t)) (Allows-Unit _)
      (λ t _. (
        record {
          addresses = r.addresses ++ a ∷ [];
          maps_stamped =
              Stamped-append h.maps maps' a (suc a) now es r.addresses (entry kind f.entries user) a
                (omega arith) same r.maps_stamped (omega arith) new;
          kept = λ v.
              kept-append h.maps a now h.history es r.addresses kind f.entries user a v
                r.maps_stamped r.kept;
          next = at ∙ ap pos (omega (arith, length-append {0} es (entry kind f.entries user ∷ [])));
        },
        refl,
        same,
      ))

publish_each-Refines :
    (now : ℕ) (us : List ℤ) (es : List Entry) (kind : Text) (a : ℕ) (entries : List (Text × Value))
    (h : Hub)
    → now + length es + length us < 2 ^ 63
    → a < h.next_map
    → h.maps a ≡ fresh_fields entries
    → Refines now es h
    → Allows (Refines now (es ++ map (entry kind entries) us)) (publish_each us (event_at kind a) h)
unfolding publish_each
publish_each-Refines now [] es kind a entries h small below is r = rw (append-nil es) r
publish_each-Refines now (u ∷ us) es kind a entries h small below is r =
    let e = entry kind (h.maps a).entries u in
    Allows-bind (IsNext now (es ++ e ∷ []) h)
      (Refines now (es ++ map (entry kind entries) (u ∷ us))) _ (publish_each us (event_at kind a))
      (publish-Refines now es u kind (h.maps a) h (omega arith) r)
      (λ h' s.
        let whole : (es ++ e ∷ []) ++ map (entry kind entries) us
            ≡ es ++ map (entry kind entries) (u ∷ us) =
          append_assoc es (e ∷ []) (map (entry kind entries) us)
          ∙ ap (λ (f : Fields). es ++ (entry kind f.entries u ∷ map (entry kind entries) us)) is in
        subst (λ l. Allows (Refines now l) (publish_each us (event_at kind a) h')) whole
          (publish_each-Refines now us (es ++ e ∷ []) kind a entries h'
            (omega (arith, length-append {0} es (e ∷ []))) (omega (arith, s.1)) (s.2 a below ∙ is)
            s.0))

Stamped-weaken :
    (maps maps' : ℕ → Fields) (next next' n : ℕ) (es : List Entry) (places : List ℕ)
    → next ≤ next'
    → ((b : ℕ) → b < next → maps' b ≡ maps b)
    → Stamped maps next n es places
    → Stamped maps' next' n es places
Stamped-weaken maps maps' next next' n [] [] grow same h = tt
Stamped-weaken maps maps' next next' n [] (a ∷ places) grow same h = absurd h
Stamped-weaken maps maps' next next' n (e ∷ es) [] grow same h = absurd h
Stamped-weaken maps maps' next next' n (e ∷ es) (a ∷ places) grow same (below, is, h) = (
  omega arith,
  same a below ∙ is,
  Stamped-weaken maps maps' next next' (suc n) es places grow same h,
)

allocate-Refines :
    (now : ℕ) (es : List Entry) (f : Fields) (h : Hub)
    → Refines now es h
    → Refines now es (allocate f h)
allocate-Refines now es f h r = record {
  addresses = r.addresses;
  maps_stamped =
      Stamped-weaken h.maps (update h.maps h.next_map f) h.next_map (suc h.next_map) now es
        r.addresses (omega arith) (λ b below. ground arith) r.maps_stamped;
  kept = r.kept;
  next = r.next;
}

pub emit-Refines :
    (now : ℕ) (es : List Entry) (user : ℤ) (kind : Text) (entries : List (Text × Value)) (h : Hub)
    → suc (now + length es) < 2 ^ 63
    → Refines now es h
    → Allows (Refines now (es ++ entry kind entries user ∷ [])) (emit user kind entries h)
unfolding emit
emit-Refines now es user kind entries h small r =
    Allows-map (IsNext now (es ++ entry kind entries user ∷ []) h) _
      (publish user (event_at kind h.next_map) (allocate (fresh_fields entries) h)) (λ h' s. s.0)
      (publish-Refines now es user kind (fresh_fields entries) h small r)

pub broadcast-Refines :
    (now : ℕ) (es : List Entry) (kind : Text) (entries : List (Text × Value)) (h : Hub)
    → now + length es + length (connected_users h.subscribers) < 2 ^ 63
    → Refines now es h
    → Allows
        (Refines now (es ++ map (entry kind entries) (connected_users h.subscribers)))
        (broadcast kind entries h)
unfolding publish_to_connected
broadcast-Refines now es kind entries h small r =
    let users = connected_users h.subscribers in
    let P = Refines now (es ++ map (entry kind entries) users) in
    let m = publish_each users (event_at kind h.next_map) (allocate (fresh_fields entries) h) in
    Allows-bind (λ x. P x.1) P (m >>= λ h'. done (length users, h')) (λ x. done x.1)
      (Allows-bind P (λ x. P x.1) m (λ h'. done (length users, h'))
        (publish_each-Refines now users es kind h.next_map entries
          (allocate (fresh_fields entries) h) small (omega arith) (ground arith)
          (allocate-Refines now es (fresh_fields entries) h r))
        (λ h' p. p))
      (λ x p. p)
