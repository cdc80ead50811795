-- ===== src/Push/Guards.antt =====
-- What stands before every send of a message, and how often a device is tried.
use daeil_scholar.Prelude.{
  ℕ, zero, suc, ◌+◌, ◌*◌, ◌≤◌, ◌≡◌, refl, Bool, true, false, Option, none, some, is_some, List, [],
  ◌∷◌, arith, if-cases, length,
}
use daeil_scholar.Push.{
  Target, Item, Payload, Act, asked_message, asked_target, sent, deleted, SendResult, delivered,
  invalid_token, transient, refused, Env, build_payload,
}
use daeil_scholar.Push.Delivery.{
  ask_message, message_still_available, target_still_current, after_send, send_if, stop_unless,
  attempts, next_target, deliver_all, deliver_to, deliver_payload, deliver, is_message, recipient,
  still_deliverable, holds,
}

-- A send comes right after both questions were answered with yes, that for the message first.
abbrev IsAllowed : Act → List Act → Type 0
IsAllowed (sent t p) acts =
    (before : List Act) × (acts ≡ asked_target t true ∷ asked_message true ∷ before)
IsAllowed (asked_message b) acts = Unit
IsAllowed (asked_target t b) acts = Unit
IsAllowed (deleted t) acts = Unit

abbrev pub IsGuarded : List Act → Type 0
IsGuarded [] = Unit
IsGuarded (a ∷ acts) = IsAllowed a acts × IsGuarded acts

abbrev sends_in : Act → ℕ
sends_in (sent t p) = 1
sends_in (asked_message b) = 0
sends_in (asked_target t b) = 0
sends_in (deleted t) = 0

-- How many sends were made.
abbrev pub sends : List Act → ℕ
sends [] = 0
sends (a ∷ acts) = sends_in a + sends acts

after_send-IsGuarded :
    (t : Target) (r : SendResult) (acts : List Act) (again : Bool × List Act)
    → IsGuarded acts
    → IsGuarded again.1
    → IsGuarded (after_send t r acts again).1
after_send-IsGuarded t delivered acts again g h = g
after_send-IsGuarded t invalid_token acts again g h = (tt, g)
after_send-IsGuarded t transient acts again g h = h
after_send-IsGuarded t refused acts again g h = g

send_if-IsGuarded :
    (o : Option (List Act → Target → Option Bool)) (t : Target) (acts : List Act)
    (go : List Act → Bool × List Act)
    → is_some o ≡ true
    → IsGuarded acts
    → (IsGuarded (asked_target t true ∷ acts) → IsGuarded (go (asked_target t true ∷ acts)).1)
    → IsGuarded (send_if (target_still_current o t acts) go).1
send_if-IsGuarded none t acts go h g k = absurd (cc)
send_if-IsGuarded (some current) t acts go h g k = answered (holds (current acts t)) refl
  where
    answered :
        (b : Bool)
        → holds (current acts t) ≡ b
        → IsGuarded
            (send_if (holds (current acts t), asked_target t (holds (current acts t)) ∷ acts) go).1
    answered true e = rw e (k (tt, g))
    answered false e = rw e (tt, g)

stop_unless-IsGuarded :
    (o : Option (List Act → Option Bool)) (acts : List Act) (go : List Act → Bool × List Act)
    → is_some o ≡ true
    → IsGuarded acts
    → (IsGuarded (asked_message true ∷ acts) → IsGuarded (go (asked_message true ∷ acts)).1)
    → IsGuarded (stop_unless (ask_message o acts) go).1
stop_unless-IsGuarded none acts go h g k = absurd (cc)
stop_unless-IsGuarded (some available) acts go h g k = answered (holds (available acts)) refl
  where
    answered :
        (b : Bool)
        → holds (available acts) ≡ b
        → IsGuarded
            (stop_unless
              (holds (available acts), asked_message (holds (available acts)) ∷ acts)
              go).1
    answered true e = rw e (k (tt, g))
    answered false e = rw e (tt, g)

stop_unless-sends :
    (x : Bool × List Act) (go : List Act → Bool × List Act) (m : ℕ)
    → sends x.1 ≤ m
    → sends (go x.1).1 ≤ m
    → sends (stop_unless x go).1 ≤ m
stop_unless-sends (true, acts) go m h k = k
stop_unless-sends (false, acts) go m h k = h

send_if-sends :
    (x : Bool × List Act) (go : List Act → Bool × List Act) (m : ℕ)
    → sends x.1 ≤ m
    → sends (go x.1).1 ≤ m
    → sends (send_if x go).1 ≤ m
send_if-sends (true, acts) go m h k = k
send_if-sends (false, acts) go m h k = h

next_target-sends :
    (x : Bool × List Act) (go : List Act → List Act) (m : ℕ)
    → sends x.1 ≤ m
    → sends (go x.1) ≤ m
    → sends (next_target x go) ≤ m
next_target-sends (true, acts) go m h k = h
next_target-sends (false, acts) go m h k = k

after_send-sends :
    (t : Target) (r : SendResult) (acts : List Act) (again : Bool × List Act) (m : ℕ)
    → sends acts ≤ m
    → sends again.1 ≤ m
    → sends (after_send t r acts again).1 ≤ m
after_send-sends t delivered acts again m h k = h
after_send-sends t invalid_token acts again m h k = omega arith
after_send-sends t transient acts again m h k = k
after_send-sends t refused acts again m h k = h

ask_message-sends :
    (o : Option (List Act → Option Bool)) (acts : List Act)
    → sends (ask_message o acts).1 ≡ sends acts
ask_message-sends none acts = refl
ask_message-sends (some available) acts = omega arith

message_still_available-sends :
    (env : Env) (guarded : Bool) (acts : List Act)
    → sends (message_still_available env guarded acts).1 ≡ sends acts
message_still_available-sends env true acts = ask_message-sends env.message_available acts
message_still_available-sends env false acts = refl

target_still_current-sends :
    (o : Option (List Act → Target → Option Bool)) (t : Target) (acts : List Act)
    → sends (target_still_current o t acts).1 ≡ sends acts
target_still_current-sends none t acts = refl
target_still_current-sends (some current) t acts = omega arith

module _ (env : Env) (p : Payload) where
  attempts-IsGuarded :
      (t : Target) (n : ℕ) (acts : List Act)
      → is_some env.message_available ≡ true
      → is_some env.target_current ≡ true
      → IsGuarded acts
      → IsGuarded (attempts env true p t n acts).1
  unfolding attempts
  attempts-IsGuarded t zero acts hm ht g = g
  attempts-IsGuarded t (suc n) acts hm ht g =
      stop_unless-IsGuarded env.message_available acts _ hm g (λ g1.
        send_if-IsGuarded env.target_current t (asked_message true ∷ acts) _ ht g1 (λ g2.
          let now = asked_target t true ∷ asked_message true ∷ acts in
          let g3 : IsGuarded (sent t p ∷ now) = ((acts, refl), g2) in
          after_send-IsGuarded t (env.send now t p) (sent t p ∷ now) _ g3
            (attempts-IsGuarded t n (sent t p ∷ now) hm ht g3)))

  next_target-IsGuarded :
      (x : Bool × List Act) (go : List Act → List Act)
      → IsGuarded x.1
      → (IsGuarded x.1 → IsGuarded (go x.1))
      → IsGuarded (next_target x go)
  next_target-IsGuarded (true, acts) go g k = g
  next_target-IsGuarded (false, acts) go g k = k g

  deliver_all-IsGuarded :
      (ts : List Target) (acts : List Act)
      → is_some env.message_available ≡ true
      → is_some env.target_current ≡ true
      → IsGuarded acts
      → IsGuarded (deliver_all env true p ts acts)
  unfolding deliver_all
  deliver_all-IsGuarded [] acts hm ht g = g
  deliver_all-IsGuarded (t ∷ ts) acts hm ht g =
      next_target-IsGuarded (attempts env true p t 3 acts) _ (attempts-IsGuarded t 3 acts hm ht g)
        (λ g1. deliver_all-IsGuarded ts (attempts env true p t 3 acts).1 hm ht g1)

  attempts-sends :
      (guarded : Bool) (t : Target) (n : ℕ) (acts : List Act)
      → sends (attempts env guarded p t n acts).1 ≤ sends acts + n
  unfolding attempts
  attempts-sends guarded t zero acts = omega arith
  attempts-sends guarded t (suc n) acts =
      let asked = message_still_available env guarded acts in
      let e1 = message_still_available-sends env guarded acts in
      stop_unless-sends asked _ (sends acts + suc n) (omega (arith, e1)) (
        let current = target_still_current env.target_current t asked.1 in
        let e2 = target_still_current-sends env.target_current t asked.1 in
        send_if-sends current _ (sends acts + suc n) (omega (arith, e1, e2)) (
          let now = current.1 in
          after_send-sends t (env.send now t p) (sent t p ∷ now) _ (sends acts + suc n)
            (omega (arith, e1, e2))
            (omega (arith, e1, e2, attempts-sends guarded t n (sent t p ∷ now)))))

  deliver_all-sends :
      (guarded : Bool) (ts : List Target) (acts : List Act)
      → sends (deliver_all env guarded p ts acts) ≤ sends acts + 3 * length ts
  unfolding deliver_all
  deliver_all-sends guarded [] acts = omega arith
  deliver_all-sends guarded (t ∷ ts) acts =
      let x = attempts env guarded p t 3 acts in
      let once = attempts-sends guarded t 3 acts in
      next_target-sends x _ (sends acts + 3 * length (t ∷ ts)) (omega (arith, once))
        (omega (arith, once, deliver_all-sends guarded ts x.1))

deliver_to-IsGuarded :
    (env : Env) (p : Payload) (o : Option (List Target))
    → is_some env.message_available ≡ true
    → is_some env.target_current ≡ true
    → IsGuarded (deliver_to env true p o [])
deliver_to-IsGuarded env p none hm ht = tt
deliver_to-IsGuarded env p (some ts) hm ht = deliver_all-IsGuarded env p ts [] hm ht tt

deliver_payload-IsGuarded :
    (env : Env) (item : Item) (o : Option Payload)
    → is_message item ≡ true
    → is_some env.message_available ≡ true
    → is_some env.target_current ≡ true
    → IsGuarded (deliver_payload env item o [])
deliver_payload-IsGuarded env item none im hm ht = tt
deliver_payload-IsGuarded env item (some p) im hm ht =
    if-cases IsGuarded (still_deliverable env item) _ _
      (λ _. rw im (deliver_to-IsGuarded env p (env.devices (recipient item)) hm ht)) (λ _. tt)

deliver_payload-sends :
    (env : Env) (item : Item) (ts : List Target) (o : Option Payload)
    → env.devices (recipient item) ≡ some ts
    → sends (deliver_payload env item o []) ≤ 3 * length ts
deliver_payload-sends env item ts none found = omega arith
deliver_payload-sends env item ts (some p) found =
    if-cases (λ acts. sends acts ≤ 3 * length ts) (still_deliverable env item) _ _
      (λ _. rw found (omega (arith, deliver_all-sends env p (is_message item) ts [])))
      (λ _. omega arith)

-- Every send of a message comes right after the store was asked whether the message is still
-- available, and then whether the device is still the recipient's, and said yes to both, if the
-- store has these guards.
pub deliver-IsGuarded :
    (env : Env) (item : Item)
    → is_message item ≡ true
    → is_some env.message_available ≡ true
    → is_some env.target_current ≡ true
    → IsGuarded (deliver env item [])
unfolding deliver
deliver-IsGuarded env item im hm ht =
    deliver_payload-IsGuarded env item (build_payload env item) im hm ht

-- A delivery makes three sends at most for each device of its recipient.
pub deliver-sends :
    (env : Env) (item : Item) (ts : List Target)
    → env.devices (recipient item) ≡ some ts
    → sends (deliver env item []) ≤ 3 * length ts
unfolding deliver
deliver-sends env item ts found = deliver_payload-sends env item ts (build_payload env item) found
