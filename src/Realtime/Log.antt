-- ===== src/Realtime/Log.antt =====
-- The hub against the log of all that was published: an entry's id is its place in the log, and a
-- history is the end of what the log has for its user.
pub mod Publications
pub mod Steps
use daeil_scholar.Prelude.{
  ℕ, zero, suc, ◌+◌, ◌-◌, ◌^◌, ◌≤◌, ◌<◌, ◌≡◌, refl, ap, sym, subst, ◌∙◌, Bool, true, false, Option,
  none, some, List, [], ◌∷◌, ◌++◌, map, arith, length, drop, length-append, length-drop, Bool-cases,
  if-cases, ltb, leb, ◌==◌, inl, inr, if◌then◌else◌,
}
use daeil_scholar.Prelude.Int.{ℤ, pos, negsuc, eqb_ℤ, leb_ℤ, eq_of_parts}
use daeil_scholar.Prelude.Text.{Text, codes}
use daeil_scholar.Realtime.{
  Value, Fields, Payload, map_at, other, Event, Hub, Outcome, done, panics, blocks, ◌>>=◌, update,
  update_user, increment, stamp, latest, offer_all, publish, allocate, copy_payload,
  connected_users, publish_each, publish_to_connected,
}
use daeil_scholar.Realtime.Streams.{
  World, Op, opens, receives, ends, message_received, message_sent, messages_read, notice_published,
  step, run, start, emit, broadcast, fresh_fields, fresh_event, open_stream, end_stream, with_hub,
  receive, message_entries, conversation_entries, read_entries, notice_entries,
}

pub record Entry : Type 0 where
  pub recipient : ℤ
  pub kind : Text
  pub entries : List (Text × Value)

abbrev pub entry : Text → List (Text × Value) → ℤ → Entry
entry kind entries user = record { recipient = user; kind = kind; entries = entries }

-- What each call publishes: a notice goes to the users whose streams are open.
abbrev pub published : Op → World → List Entry
published (opens user header) w = []
published (receives p) w = []
published (ends p) w = []
published (message_received recvr sender name accepted content) w =
    entry (codes "message.created") (message_entries sender name accepted content) recvr ∷ []
published (message_sent sender recvr) w =
    entry (codes "conversation.updated") (conversation_entries recvr) sender
    ∷ entry (codes "conversation.updated") (conversation_entries sender) recvr
    ∷ []
published (messages_read sender reader through read_at) w =
    entry (codes "message.read") (read_entries reader through read_at) sender ∷ []
published (notice_published notice_seq subject now) w =
    if leb_ℤ notice_seq (pos 0)
    then []
    else map (entry (codes "notification.created") (notice_entries notice_seq subject now))
        (connected_users w.hub.subscribers)

abbrev pub rest_of : (World → List Entry) → Outcome World → List Entry
rest_of f (done w) = f w
rest_of f panics = []
rest_of f blocks = []

-- The log of a sequence of calls.
unfoldable pub log : List Op → World → List Entry
unfolding step
log [] w = []
log (op ∷ ops) w = published op w ++ rest_of (log ops) (step op w)

-- The result, if there is one, has the property.
abbrev pub Allows {ℓ} : {A : Type ℓ} → (A → Type 0) → Outcome A → Type 0
Allows P (done a) = P a
Allows P panics = Unit
Allows P blocks = Unit

pub Allows-bind {ℓ κ} :
    {A : Type ℓ} {B : Type κ} (P : A → Type 0) (Q : B → Type 0) (m : Outcome A) (f : A → Outcome B)
    → Allows P m
    → ((a : A) → P a → Allows Q (f a))
    → Allows Q (m >>= f)
Allows-bind P Q (done a) f h k = k a h
Allows-bind P Q panics f h k = tt
Allows-bind P Q blocks f h k = tt

pub Allows-map {ℓ} :
    {A : Type ℓ} (P Q : A → Type 0) (m : Outcome A)
    → ((a : A) → P a → Q a)
    → Allows P m
    → Allows Q m
Allows-map P Q (done a) f h = f a h
Allows-map P Q panics f h = tt
Allows-map P Q blocks f h = tt

pub Allows-Unit {ℓ} : {A : Type ℓ} (m : Outcome A) → Allows (λ a. Unit) m
Allows-Unit (done a) = tt
Allows-Unit panics = tt
Allows-Unit blocks = tt

abbrev pub stamped : ℕ → List (Text × Value) → Fields
stamped id entries = record { event_id = some (pos id); entries = entries }

abbrev pub event_at : Text → ℕ → Event
event_at kind a = record { kind = kind; payload = map_at a }

-- The maps of the log's entries, by address: each below `next`, with the id of its place after `n`.
abbrev pub Stamped : (ℕ → Fields) → ℕ → ℕ → List Entry → List ℕ → Type 0
Stamped maps next n [] [] = Unit
Stamped maps next n [] (a ∷ places) = ⊥
Stamped maps next n (e ∷ es) [] = ⊥
Stamped maps next n (e ∷ es) (a ∷ places) =
    (a < next) × (maps a ≡ stamped (suc n) e.entries) × Stamped maps next (suc n) es places

-- The events of a user in the log.
unfoldable pub events_of : ℤ → List Entry → List ℕ → List Event
events_of user [] places = []
events_of user (e ∷ es) [] = []
events_of user (e ∷ es) (a ∷ places) =
    let rest = events_of user es places in
    if eqb_ℤ user e.recipient then event_at e.kind a ∷ rest else rest

pub record Refines (now : ℕ) (es : List Entry) (h : Hub) : Type 0 where
  pub addresses : List ℕ
  pub maps_stamped : Stamped h.maps h.next_map now es addresses
  pub kept : (user : ℤ) → h.history user ≡ latest (events_of user es addresses)
  pub next : h.next_event_id ≡ pos (now + length es)

pub Stamped-append :
    (maps maps' : ℕ → Fields) (next next' n : ℕ) (es : List Entry) (places : List ℕ) (e : Entry)
    (a : ℕ)
    → next ≤ next'
    → ((b : ℕ) → b < next → maps' b ≡ maps b)
    → Stamped maps next n es places
    → a < next'
    → maps' a ≡ stamped (suc (n + length es)) e.entries
    → Stamped maps' next' n (es ++ e ∷ []) (places ++ a ∷ [])
Stamped-append maps maps' next next' n [] [] e a grow same h below new =
    let at : suc (n + 0) ≡ suc n = omega arith in (below, rw at at new, tt)
Stamped-append maps maps' next next' n [] (b ∷ places) e a grow same h below new = absurd h
Stamped-append maps maps' next next' n (x ∷ es) [] e a grow same h below new = absurd h
Stamped-append maps maps' next next' n (x ∷ es) (b ∷ places) e a grow same (hb, is, h) below new =
    let at : suc (n + suc (length es)) ≡ suc (suc n + length es) = omega arith in
    (
      omega arith,
      same b hb ∙ is,
      Stamped-append maps maps' next next' (suc n) es places e a grow same h below (rw at at new),
    )

pub events_of-append :
    (maps : ℕ → Fields) (next n : ℕ) (user : ℤ) (es : List Entry) (places : List ℕ) (e : Entry)
    (a : ℕ)
    → Stamped maps next n es places
    → events_of user (es ++ e ∷ []) (places ++ a ∷ [])
      ≡ events_of user es places ++ (if eqb_ℤ user e.recipient then event_at e.kind a ∷ [] else [])
unfolding events_of
events_of-append maps next n user [] [] e a h = refl
events_of-append maps next n user [] (b ∷ places) e a h = absurd h
events_of-append maps next n user (x ∷ es) [] e a h = absurd h
events_of-append maps next n user (x ∷ es) (b ∷ places) e a h =
    elim (Bool-cases (eqb_ℤ user x.recipient)) [
      | inl same ↦ rw same (
          ap (λ r. event_at x.kind b ∷ r)
            (events_of-append maps next (suc n) user es places e a h.2))
      | inr differ ↦ rw differ (events_of-append maps next (suc n) user es places e a h.2)
    ]

drop-append : (d : ℕ) (xs ys : List Event) → d ≤ length xs → drop d (xs ++ ys) ≡ drop d xs ++ ys
drop-append zero xs ys h = refl
drop-append (suc d) [] ys h = absurd (omega arith)
drop-append (suc d) (x ∷ xs) ys h = drop-append d xs ys (omega arith)

drop-nil : (c : ℕ) → drop {A = Event} c [] ≡ []
drop-nil zero = refl
drop-nil (suc c) = refl

drop-drop : (c d : ℕ) (xs : List Event) → drop c (drop d xs) ≡ drop (d + c) xs
drop-drop c zero xs = let e : 0 + c ≡ c = omega arith in rw e refl
drop-drop c (suc d) [] = let e : suc d + c ≡ suc (d + c) = omega arith in rw e (drop-nil c)
drop-drop c (suc d) (x ∷ xs) =
    let e : suc d + c ≡ suc (d + c) = omega arith in rw e (drop-drop c d xs)

pub latest_lem : (es : List Event) → latest es ≡ drop (length es - 256) es
unfolding latest
latest_lem es =
    if-cases (λ r. r ≡ drop (length es - 256) es) (ltb 256 (length es)) _ _ (λ _. refl)
      (λ few. let e : length es - 256 ≡ 0 = ground arith in rw e refl)

pub latest-append :
    (es : List Event) (e : Event) → latest (latest es ++ e ∷ []) ≡ latest (es ++ e ∷ [])
latest-append es e =
    let d = length es - 256 in
    let in_es : latest es ++ e ∷ [] ≡ drop d (es ++ e ∷ []) =
      ap (λ r. r ++ e ∷ []) (latest_lem es) ∙ sym (drop-append d es (e ∷ []) (omega arith)) in
    ap latest in_es
    ∙ latest_lem (drop d (es ++ e ∷ []))
    ∙ drop-drop (length (drop d (es ++ e ∷ [])) - 256) d (es ++ e ∷ [])
    ∙ ap (λ c. drop c (es ++ e ∷ []))
        (omega (arith, length-drop d (es ++ e ∷ []), length-append es (e ∷ [])))
    ∙ sym (latest_lem (es ++ e ∷ []))
