-- ===== src/Messages/Notices.antt =====
-- No message is announced twice, however concurrent sends are interleaved.
use daeil_scholar.Prelude.{
  ℕ, suc, ◌+◌, ◌≤◌, ◌≡◌, refl, ap, sym, true, false, ◌&&◌, Option, none, some, List, [], ◌∷◌, arith,
  ◌==◌, if◌then◌else◌, Bool-cases, Option-cases, if-cases, inl, inr,
}
use daeil_scholar.Prelude.Int.{ℤ}
use daeil_scholar.Messages.{
  SendMessageRequest, Message, Notice, Store, World, Response, Reply, accepted, rejected, failed,
  find_message, new_message, insert_message, read_back, accept_inserted, accept_message, notify,
}
use daeil_scholar.Messages.Replay.{is_keyed_self, response_of}

unfoldable pub notices_of : ℕ → List Notice → ℕ
notices_of id [] = 0
notices_of id (n ∷ ns) =
    let rest = notices_of id ns in if n.message_id == id then suc rest else rest

-- The numbers of the announced messages are given out, and each was announced once at most.
abbrev pub IsAnnounced : Store → Type 0
IsAnnounced s =
    (id : ℕ) → (notices_of id s.notices ≤ 1) × (s.next_seq ≤ id → notices_of id s.notices ≡ 0)

-- What an acceptance leaves to announce: the notices as they were, and a created message with the
-- number that was next.
Acceptance : Store → Reply × Store → Type 0
Acceptance s x =
    (x.1.notices ≡ s.notices)
    × (s.next_seq ≤ x.1.next_seq)
    × ((a : Response)
        → x.0 ≡ accepted a
        → a.was_created ≡ true
        → (a.message_id ≡ s.next_seq) × (x.1.next_seq ≡ s.next_seq + 1))

read_back-created :
    (o : Option Message) (a : Response) → read_back false o ≡ accepted a → a.was_created ≡ true → ⊥
read_back-created none a h made = cc
read_back-created (some m) a h made =
    let e : false ≡ a.was_created = ap (λ x. x.was_created) (ap (response_of a) h) in cc

unchanged-Acceptance :
    (sender : ℤ) (r : SendMessageRequest) (w : World) (s : Store)
    → Acceptance s (accept_inserted sender r w (false, s))
unfolding Acceptance
unchanged-Acceptance sender r w s =
    if-cases (Acceptance s) w.reread_fails _ _ (λ _. (refl, omega arith, λ a h. absurd (cc)))
      (λ _. (
        refl,
        omega arith,
        λ a h made.
            absurd
              (read_back-created (find_message sender r.client_message_id s.messages) a h made),
      ))

inserted-Acceptance :
    (sender recipient : ℤ) (r : SendMessageRequest) (w : World) (s : Store)
    → Acceptance s (accept_inserted sender r w (insert_message sender recipient r w s))
unfolding Acceptance find_message
inserted-Acceptance sender recipient r w s = elim (Bool-cases (w.message_allowed recipient)) [
  | inr off ↦ rw off (unchanged-Acceptance sender r w s)
  | inl on ↦ elim (Option-cases (find_message sender r.client_message_id s.messages)) [
    | inr (m, found) ↦ rw (on, found) (unchanged-Acceptance sender r w s)
    | inl free ↦
        let self = is_keyed_self (new_message sender recipient r w s) in
        rw (on, free)
          (if-cases (Acceptance s) w.reread_fails _ _ (λ _. (refl, omega arith, λ a h. absurd (cc)))
            (λ _. rw self (
              refl,
              omega arith,
              λ a h made.
                  let e : s.next_seq ≡ a.message_id =
                    ap (λ x. x.message_id) (ap (response_of a) h) in
                  (sym e, omega arith),
            )))
  ]
]

accept_message-Acceptance :
    (sender recipient : ℤ) (r : SendMessageRequest) (w : World) (s : Store)
    → Acceptance s (accept_message sender recipient r w s)
unfolding accept_message Acceptance
accept_message-Acceptance sender recipient r w s =
    if-cases (Acceptance s) w.insert_fails _ _ (λ _. (refl, omega arith, λ a h. absurd (cc)))
      (λ _. inserted-Acceptance sender recipient r w s)

as_before-IsAnnounced :
    (s t : Store) → t.notices ≡ s.notices → s.next_seq ≤ t.next_seq → IsAnnounced s → IsAnnounced t
as_before-IsAnnounced s t same grows once id =
    rw same ((once id).0, λ out. (once id).1 (omega arith))

notify-IsAnnounced :
    (sender recipient : ℤ) (s : Store) (x : Reply × Store)
    → Acceptance s x
    → IsAnnounced s
    → IsAnnounced (notify sender recipient x).1
unfolding Acceptance notices_of
notify-IsAnnounced sender recipient s (accepted a, t) (same, grows, created) once =
    if-cases IsAnnounced (a.was_created && a.visible_to_recipient) _ _
      (λ both id.
        let (number, next) = created a refl (ground arith) in
        rw same (elim (Bool-cases (a.message_id == id)) [
          | inl this ↦
              let unheard : notices_of id s.notices ≡ 0 = (once id).1 (ground arith) in
              rw this (omega arith, λ out. absurd (ground arith))
          | inr other ↦ rw other ((once id).0, λ out. (once id).1 (omega arith))
        ]))
      (λ _. as_before-IsAnnounced s t same grows once)
notify-IsAnnounced sender recipient s (rejected e, t) (same, grows, created) once =
    as_before-IsAnnounced s t same grows once
notify-IsAnnounced sender recipient s (failed, t) (same, grows, created) once =
    as_before-IsAnnounced s t same grows once

-- The ends of sends, each from the acceptance on, in the order in which the database takes them.
unfoldable pub finish_all : List (ℤ × ℤ × SendMessageRequest × World) → Store → Store
finish_all [] s = s
finish_all ((sender, recipient, r, w) ∷ os) s =
    finish_all os (notify sender recipient (accept_message sender recipient r w s)).1

-- Whatever the order in which the database takes the acceptances of concurrent sends, also several of
-- one member under one client id, each message is announced once at most.
pub finish_all-once :
    (os : List (ℤ × ℤ × SendMessageRequest × World)) (s : Store)
    → IsAnnounced s
    → (id : ℕ) → notices_of id (finish_all os s).notices ≤ 1
unfolding finish_all
finish_all-once [] s once id = (once id).0
finish_all-once ((sender, recipient, r, w) ∷ os) s once id =
    let x = accept_message sender recipient r w s in
    finish_all-once os (notify sender recipient x).1
      (notify-IsAnnounced sender recipient s x (accept_message-Acceptance sender recipient r w s)
        once)
      id
