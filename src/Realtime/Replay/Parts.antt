-- ===== src/Realtime/Replay/Parts.antt =====
-- The log in two parts: what is newer than an id, and what is not.
use daeil_scholar.Prelude.{
  ℕ, zero, suc, ◌+◌, ◌-◌, ◌≤◌, ◌≡◌, refl, ap, sym, ◌∙◌, Bool, true, false, List, [], ◌∷◌, ◌++◌,
  arith, length, drop, take, keep, length-append, All, Bool-cases, if-cases, leb, inl, inr,
  if◌then◌else◌,
}
use mathlib.Core.List.{append-nil, append_assoc}
use daeil_scholar.Prelude.Int.{ℤ, pos, eqb_ℤ, leb_ℤ, ltb_ℤ}
use daeil_scholar.Realtime.{Fields, Event, done, event_id, replay}
use daeil_scholar.Realtime.Streams.{Received, frame, payload_frame}
use daeil_scholar.Realtime.Log.{Entry, stamped, event_at, Stamped, events_of}

-- The frames of a log that starts after the id `n`, as far as they are addressed to a user.
unfoldable pub addressed : ℤ → ℕ → List Entry → List Received
addressed user n [] = []
addressed user n (e ∷ es) =
    let rest = addressed user (suc n) es in
    if eqb_ℤ user e.recipient
    then frame (pos (suc n)) e.kind (stamped (suc n) e.entries) ∷ rest
    else rest

-- The last 256 of them.
abbrev pub newest : List Received → List Received
newest fs = drop (length fs - 256) fs

-- The frames that a stream makes of the events in its channel.
abbrev pub frames : (ℕ → Fields) → List Event → List Received
frames maps [] = []
frames maps (e ∷ es) = payload_frame maps e.kind e.payload ∷ frames maps es

abbrev pub newer : (ℕ → Fields) → ℤ → Event → Bool
newer maps after e = ltb_ℤ after (event_id maps e)

pub replay-keep :
    (maps : ℕ → Fields) (after : ℤ) (es ch : List Event)
    → length ch + length es ≤ 256
    → replay maps after es ch ≡ done (ch ++ keep (newer maps after) es)
unfolding replay
replay-keep maps after [] ch h = ap done (sym (append-nil ch))
replay-keep maps after (e ∷ es) ch h =
    let room : leb 256 (length ch) ≡ false = ground arith in
    elim (Bool-cases (newer maps after e)) [
      | inl new ↦
          rw (new, room)
            (replay-keep maps after es (ch ++ e ∷ []) (omega (arith, length-append ch (e ∷ [])))
              ∙ ap done (append_assoc ch (e ∷ []) (keep (newer maps after) es)))
      | inr old ↦ rw old (replay-keep maps after es ch (omega arith))
    ]

module _ (maps : ℕ → Fields) (next : ℕ) (user : ℤ) where
  -- Which entries of the log are newer than an id.
  pub old_events :
      (after n : ℕ) (es : List Entry) (places : List ℕ)
      → n + length es ≤ after
      → Stamped maps next n es places
      → All (λ e. newer maps (pos after) e ≡ false) (events_of user es places)
  unfolding events_of
  old_events after n [] places h st = tt
  old_events after n (e ∷ es) [] h st = absurd st
  old_events after n (e ∷ es) (a ∷ places) h (below, is, st) =
      let rest = old_events after (suc n) es places (omega arith) st in
      let P = All (λ (e : Event). newer maps (pos after) e ≡ false) in
      if-cases P (eqb_ℤ user e.recipient) _ _ (λ _. (rw is (ground arith), rest)) (λ _. rest)

  pub new_events :
      (after n : ℕ) (es : List Entry) (places : List ℕ)
      → after ≤ n
      → Stamped maps next n es places
      → All (λ e. newer maps (pos after) e ≡ true) (events_of user es places)
  unfolding events_of
  new_events after n [] places h st = tt
  new_events after n (e ∷ es) [] h st = absurd st
  new_events after n (e ∷ es) (a ∷ places) h (below, is, st) =
      let rest = new_events after (suc n) es places (omega arith) st in
      let P = All (λ (e : Event). newer maps (pos after) e ≡ true) in
      if-cases P (eqb_ℤ user e.recipient) _ _ (λ _. (rw is (ground arith), rest)) (λ _. rest)

  pub frames-events_of :
      (n : ℕ) (es : List Entry) (places : List ℕ)
      → Stamped maps next n es places
      → frames maps (events_of user es places) ≡ addressed user n es
  unfolding events_of addressed
  frames-events_of n [] places st = refl
  frames-events_of n (e ∷ es) [] st = absurd st
  frames-events_of n (e ∷ es) (a ∷ places) (below, is, st) =
      let rest = frames-events_of (suc n) es places st in
      elim (Bool-cases (eqb_ℤ user e.recipient)) [
        | inl same ↦
            let positive : leb_ℤ (pos (suc n)) (pos 0) ≡ false = ground arith in
            rw (same, is, positive)
              (ap (λ r. frame (pos (suc n)) e.kind (stamped (suc n) e.entries) ∷ r) rest)
        | inr differ ↦ rw differ rest
      ]

  -- The log in two parts.
  pub Stamped-take :
      (j n : ℕ) (es : List Entry) (places : List ℕ)
      → Stamped maps next n es places
      → Stamped maps next n (take j es) (take j places)
  Stamped-take zero n es places st = tt
  Stamped-take (suc j) n [] [] st = tt
  Stamped-take (suc j) n [] (a ∷ places) st = absurd st
  Stamped-take (suc j) n (e ∷ es) [] st = absurd st
  Stamped-take (suc j) n (e ∷ es) (a ∷ places) (below, is, st) =
      (below, is, Stamped-take j (suc n) es places st)

  pub Stamped-drop :
      (j n : ℕ) (es : List Entry) (places : List ℕ)
      → j ≤ length es
      → Stamped maps next n es places
      → Stamped maps next (n + j) (drop j es) (drop j places)
  Stamped-drop zero n es places h st = let e : n + 0 ≡ n = omega arith in rw e st
  Stamped-drop (suc j) n [] places h st = absurd (omega arith)
  Stamped-drop (suc j) n (e ∷ es) [] h st = absurd st
  Stamped-drop (suc j) n (e ∷ es) (a ∷ places) h (below, is, st) =
      let at : n + suc j ≡ suc n + j = omega arith in
      rw at (Stamped-drop j (suc n) es places (omega arith) st)

  pub events_of-split :
      (j n : ℕ) (es : List Entry) (places : List ℕ)
      → Stamped maps next n es places
      → events_of user es places
        ≡ events_of user (take j es) (take j places) ++ events_of user (drop j es) (drop j places)
  unfolding events_of
  events_of-split zero n es places st = refl
  events_of-split (suc j) n [] [] st = refl
  events_of-split (suc j) n [] (a ∷ places) st = absurd st
  events_of-split (suc j) n (e ∷ es) [] st = absurd st
  events_of-split (suc j) n (e ∷ es) (a ∷ places) (below, is, st) =
      elim (Bool-cases (eqb_ℤ user e.recipient)) [
        | inl same ↦
            rw same (ap (λ r. event_at e.kind a ∷ r) (events_of-split j (suc n) es places st))
        | inr differ ↦ rw differ (events_of-split j (suc n) es places st)
      ]
