-- ===== src/Messages/Replay.antt =====
-- A message that was accepted is accepted again under its client id, whatever happened since.
use daeil_scholar.Prelude.{
  ℕ, suc, ◌≡◌, ◌≢◌, refl, ap, sym, ◌∙◌, subst, Bool, true, false, not, Option, none, some, List, [],
  ◌∷◌, arith, Bool-cases, Option-cases, if-cases, inl, inr,
}
use daeil_scholar.Prelude.Int.{ℤ, eqb_ℤ, eq_of_parts}
use daeil_scholar.Prelude.Text.{Text, text_eq→eq, text_eq_self}
use daeil_scholar.Messages.{
  SendMessageRequest, recipient_user_seq, Message, Store, World, Rejection, recipient_unavailable,
  Response, Reply, accepted, rejected, failed, validate_send_message_request, is_keyed,
  find_message, response, new_message, insert_message, read_back, accept_message, notify,
  is_recipient_available, allows, send_available, send_unless_found, send_valid, send_message,
}

-- What was found by a key is found by it still.
pub Grows : Store → Store → Type 0
Grows s t =
    (sender : ℤ) (id : Text) (m : Message)
    → find_message sender id s.messages ≡ some m
    → find_message sender id t.messages ≡ some m

is_keyed→eq :
    (sender : ℤ) (id : Text) (m : Message)
    → is_keyed sender id m ≡ true
    → (m.sender ≡ sender) × (m.client_message_id ≡ id)
is_keyed→eq sender id m h =
    (eq_of_parts m.sender sender (ground arith), text_eq→eq m.client_message_id id (ground arith))

pub is_keyed_self : (m : Message) → is_keyed m.sender m.client_message_id m ≡ true
is_keyed_self m =
    let same : eqb_ℤ m.sender m.sender ≡ true = ground arith in
    rw (same, text_eq_self m.client_message_id) refl

Grows-none : (s : Store) → Grows s s
unfolding Grows
Grows-none s sender id m found = found

Grows-insert :
    (new : Message) (s : Store)
    → find_message new.sender new.client_message_id s.messages ≡ none
    → Grows s (record s { messages = new ∷ s.messages; next_seq = suc s.next_seq })
unfolding Grows find_message
Grows-insert new s free sender id m found = elim (Bool-cases (is_keyed sender id new)) [
  | inl same ↦
      let (at, key) = is_keyed→eq sender id new same in
      let gone : find_message sender id s.messages ≡ none =
        subst (λ k. find_message sender k s.messages ≡ none) key
          (subst (λ a. find_message a new.client_message_id s.messages ≡ none) at free) in
      absurd (cc)
  | inr other ↦ rw other found
]

Grows-messages : (s t u : Store) → u.messages ≡ t.messages → Grows s t → Grows s u
unfolding Grows
Grows-messages s t u same g sender id m found = rw same (g sender id m found)

insert_message-Grows :
    (sender recipient : ℤ) (r : SendMessageRequest) (w : World) (s : Store)
    → Grows s (insert_message sender recipient r w s).1
insert_message-Grows sender recipient r w s = elim (Bool-cases (w.message_allowed recipient)) [
  | inr off ↦ rw off (Grows-none s)
  | inl on ↦ elim (Option-cases (find_message sender r.client_message_id s.messages)) [
    | inl free ↦ rw (on, free) (Grows-insert (new_message sender recipient r w s) s free)
    | inr (m, found) ↦ rw (on, found) (Grows-none s)
  ]
]

pub accept_message-Grows :
    (sender recipient : ℤ) (r : SendMessageRequest) (w : World) (s : Store)
    → Grows s (accept_message sender recipient r w s).1
unfolding accept_message
accept_message-Grows sender recipient r w s =
    let P : Reply × Store → Type 0 = λ x. Grows s x.1 in
    if-cases P w.insert_fails _ _ (λ _. Grows-none s)
      (λ _.
        if-cases P w.reread_fails _ _ (λ _. insert_message-Grows sender recipient r w s)
          (λ _. insert_message-Grows sender recipient r w s))

-- Notices leave the messages as they are, and the reply too.
pub notify-messages :
    (sender recipient : ℤ) (x : Reply × Store)
    → ((notify sender recipient x).1.messages ≡ x.1.messages)
      × ((notify sender recipient x).0 ≡ x.0)
notify-messages sender recipient (accepted a, s) = (ground arith, refl)
notify-messages sender recipient (rejected e, s) = (refl, refl)
notify-messages sender recipient (failed, s) = (refl, refl)

-- What an acceptance leaves behind: the row under its key.
pub IsKept : ℤ → Text → Store → Reply × Store → Type 0
IsKept sender id s x =
    Grows s x.1
    × ((a : Response)
        → x.0 ≡ accepted a
        → (m : Message) × (find_message sender id x.1.messages ≡ some m)
          × (response a.was_created m ≡ a))

IsKept-other :
    (sender : ℤ) (id : Text) (s : Store) (reply : Reply)
    → ((a : Response) → reply ≢ accepted a)
    → IsKept sender id s (reply, s)
unfolding IsKept
IsKept-other sender id s reply no_acceptance = (Grows-none s, λ a is. absurd (no_acceptance a is))

abbrev unmark : Response → Response
unmark a = record a { was_created = false }

abbrev pub response_of : Response → Reply → Response
response_of d (accepted a) = a
response_of d _ = d

read_back-kept :
    (created : Bool) (o : Option Message) (a : Response)
    → read_back created o ≡ accepted a
    → (m : Message) × (o ≡ some m) × (response a.was_created m ≡ a)
read_back-kept created none a h = absurd (cc)
read_back-kept created (some m) a h =
    let e : response created m ≡ a = ap (response_of a) h in
    (m, refl, subst (λ b. response b m ≡ a) (ap (λ x. x.was_created) e) e)

accept_message-found :
    (sender recipient : ℤ) (r : SendMessageRequest) (w : World) (s : Store) (a : Response)
    → (accept_message sender recipient r w s).0 ≡ accepted a
    → (m : Message) × (find_message sender r.client_message_id
          (accept_message sender recipient r w s).1.messages
        ≡ some m)
      × (response a.was_created m ≡ a)
unfolding accept_message
accept_message-found sender recipient r w s a =
    let P : Reply × Store → Type 0 = λ x.
      x.0 ≡ accepted a
      → (m : Message) × (find_message sender r.client_message_id x.1.messages ≡ some m)
        × (response a.was_created m ≡ a) in
    let x = insert_message sender recipient r w s in
    if-cases P w.insert_fails _ _ (λ _ h. absurd (cc))
      (λ _.
        if-cases P w.reread_fails _ _ (λ _ h. absurd (cc))
          (λ _ h. read_back-kept x.0 (find_message sender r.client_message_id x.1.messages) a h))

accept_message-IsKept :
    (sender recipient : ℤ) (r : SendMessageRequest) (w : World) (s : Store)
    → IsKept sender r.client_message_id s
        (notify sender recipient (accept_message sender recipient r w s))
unfolding IsKept
accept_message-IsKept sender recipient r w s =
    let x = accept_message sender recipient r w s in
    let (same, reply) = notify-messages sender recipient x in
    (
      Grows-messages s x.1 (notify sender recipient x).1 same
          (accept_message-Grows sender recipient r w s),
      λ a is.
          let (m, found, back) = accept_message-found sender recipient r w s a (sym reply ∙ is) in
          (m, ap (find_message sender r.client_message_id) same ∙ found, back),
    )

module _ (nfkc : Text → Text) (is_word : ℕ → Bool) (to_lower : ℕ → ℕ) (phrases : List Text) where
  send_available-IsKept :
      (sender : ℤ) (r : SendMessageRequest) (w : World) (s : Store) (o : Option Bool)
      → IsKept sender r.client_message_id s
          (send_available nfkc is_word to_lower phrases sender r w s o)
  send_available-IsKept sender r w s none =
      IsKept-other sender r.client_message_id s failed (λ a h. cc)
  send_available-IsKept sender r w s (some false) =
      IsKept-other sender r.client_message_id s (rejected recipient_unavailable) (λ a h. cc)
  send_available-IsKept sender r w s (some true) =
      let id = r.client_message_id in
      let recipient = recipient_user_seq r in
      let P = IsKept sender id s in
      if-cases P w.allowed_fails _ _ (λ _. IsKept-other sender id s _ (λ a h. cc))
        (λ _.
          if-cases P (not (w.message_allowed recipient)) _ _
            (λ _. IsKept-other sender id s _ (λ a h. cc))
            (λ _.
              if-cases P w.blocks_fails _ _ (λ _. IsKept-other sender id s _ (λ a h. cc))
                (λ _.
                  if-cases P (w.blocks sender recipient) _ _
                    (λ _. IsKept-other sender id s _ (λ a h. cc))
                    (λ _. accept_message-IsKept sender recipient r w s))))

  send_unless_found-IsKept :
      (sender : ℤ) (r : SendMessageRequest) (w : World) (s : Store) (o : Option Message)
      → find_message sender r.client_message_id s.messages ≡ o
      → IsKept sender r.client_message_id s
          (send_unless_found nfkc is_word to_lower phrases sender r w s o)
  unfolding IsKept
  send_unless_found-IsKept sender r w s (some m) found = (
    Grows-none s,
    λ a is.
        let e : response false m ≡ a = ap (response_of a) is in
        (m, found, subst (λ b. response b m ≡ a) (ap (λ x. x.was_created) e) e),
  )
  send_unless_found-IsKept sender r w s none found =
      if-cases (IsKept sender r.client_message_id s)
        (not (allows nfkc is_word to_lower phrases r.content)) _ _
        (λ _. IsKept-other sender r.client_message_id s _ (λ a h. cc))
        (λ _.
          send_available-IsKept sender r w s
            (is_recipient_available sender (recipient_user_seq r) w))

  send_valid-IsKept :
      (sender : ℤ) (r : SendMessageRequest) (w : World) (s : Store) (o : Option Rejection)
      → IsKept sender r.client_message_id s
          (send_valid nfkc is_word to_lower phrases sender r w s o)
  send_valid-IsKept sender r w s (some e) = IsKept-other sender r.client_message_id s _ (λ a h. cc)
  send_valid-IsKept sender r w s none =
      if-cases (IsKept sender r.client_message_id s) w.find_fails _ _
        (λ _. IsKept-other sender r.client_message_id s _ (λ a h. cc))
        (λ _.
          send_unless_found-IsKept sender r w s (find_message sender r.client_message_id s.messages)
            refl)

  send_message-IsKept :
      (sender : ℤ) (r : SendMessageRequest) (w : World) (s : Store)
      → IsKept sender r.client_message_id s
          (send_message nfkc is_word to_lower phrases sender r w s)
  unfolding send_message
  send_message-IsKept sender r w s =
      send_valid-IsKept sender r w s (validate_send_message_request r)

  -- The sends of any members, one after the other.
  unfoldable pub send_all : List (ℤ × SendMessageRequest × World) → Store → Store
  send_all [] s = s
  send_all ((sender, r, w) ∷ os) s =
      send_all os (send_message nfkc is_word to_lower phrases sender r w s).1

  send_all-Grows :
      (os : List (ℤ × SendMessageRequest × World)) (s : Store) → Grows s (send_all os s)
  unfolding send_all IsKept Grows
  send_all-Grows [] s sender id m found = found
  send_all-Grows ((by, r, w) ∷ os) s sender id m found =
      send_all-Grows os (send_message nfkc is_word to_lower phrases by r w s).1 sender id m
        ((send_message-IsKept by r w s).0 sender id m found)

  -- Once a send was accepted, any valid send of the same member under the same client id, after
  -- whatever other sends, for which the look-up of an earlier message does not fail, is answered with
  -- the same message and changes nothing, whether or not the recipient has since gone, turned
  -- messages off or been blocked.
  pub send_message-replay :
      (sender : ℤ) (r r' : SendMessageRequest) (w w' : World)
      (os : List (ℤ × SendMessageRequest × World)) (s : Store) (a : Response)
      → (send_message nfkc is_word to_lower phrases sender r w s).0 ≡ accepted a
      → r'.client_message_id ≡ r.client_message_id
      → validate_send_message_request r' ≡ none
      → w'.find_fails ≡ false
      → let later = send_all os (send_message nfkc is_word to_lower phrases sender r w s).1 in
        send_message nfkc is_word to_lower phrases sender r' w' later
        ≡ (accepted (record a { was_created = false }), later)
  unfolding send_message IsKept Grows
  send_message-replay sender r r' w w' os s a was same valid works =
      let first = send_message nfkc is_word to_lower phrases sender r w s in
      let later = send_all os first.1 in
      let (m, found, back) = (send_message-IsKept sender r w s).1 a was in
      let still : find_message sender r'.client_message_id later.messages ≡ some m =
        subst (λ k. find_message sender k later.messages ≡ some m) (sym same)
          (send_all-Grows os first.1 sender r.client_message_id m found) in
      let again : response false m ≡ record a { was_created = false } = ap unmark back in
      rw (valid, works, still, again) refl
