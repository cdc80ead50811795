-- ===== src/Push/FanOut.antt =====
-- A fan-out reaches every recipient, once.
use daeil_scholar.Prelude.{
  ℕ, zero, suc, ◌+◌, ◌≤◌, ◌<◌, ◌≡◌, refl, ap, sym, subst, ◌∙◌, true, false, some, List, [], ◌∷◌,
  ◌++◌, arith, Bool-cases, inl, inr, keep, take, drop, length, length-drop, ltb, ◌==◌,
}
use mathlib.Core.List.{append_assoc, append-nil}
use daeil_scholar.Push.Broadcast.{
  World, FanOut, list_page, enqueue_notice, move_cursor, enqueue_page, fan_out, not_started,
}

-- Strictly rising numbers, all above `a`.
abbrev pub IsRising : ℕ → List ℕ → Type 0
IsRising a [] = Unit
IsRising a (x ∷ xs) = (a < x) × IsRising x xs

abbrev last_or : ℕ → List ℕ → ℕ
last_or a [] = a
last_or a (x ∷ xs) = last_or x xs

le-last_or : (a : ℕ) (xs : List ℕ) → IsRising a xs → a ≤ last_or a xs
le-last_or a [] h = omega arith
le-last_or a (x ∷ xs) (lt, h) = omega (arith, le-last_or x xs h)

IsRising-take : (n a : ℕ) (xs : List ℕ) → IsRising a xs → IsRising a (take n xs)
IsRising-take zero a xs h = tt
IsRising-take (suc n) a [] h = tt
IsRising-take (suc n) a (x ∷ xs) (lt, h) = (lt, IsRising-take n x xs h)

IsRising-drop :
    (n a : ℕ) (xs : List ℕ) → IsRising a xs → IsRising (last_or a (take n xs)) (drop n xs)
IsRising-drop zero a xs h = h
IsRising-drop (suc n) a [] h = tt
IsRising-drop (suc n) a (x ∷ xs) (lt, h) = IsRising-drop n x xs h

keep-le : (a b : ℕ) (xs : List ℕ) → a ≤ b → keep (ltb b) (keep (ltb a) xs) ≡ keep (ltb b) xs
keep-le a b [] h = refl
keep-le a b (x ∷ xs) h = ground (arith, keep-le a b xs h)

keep-IsRising : (a b : ℕ) (xs : List ℕ) → a ≤ b → IsRising b xs → keep (ltb a) xs ≡ xs
keep-IsRising a b [] le h = refl
keep-IsRising a b (x ∷ xs) le (lt, h) =
    let above : ltb a x ≡ true = ground arith in
    rw above (ap (λ r. x ∷ r) (keep-IsRising a x xs (omega arith) h))

keep-drop :
    (n a : ℕ) (xs : List ℕ) → IsRising a xs → keep (ltb (last_or a (take n xs))) xs ≡ drop n xs
keep-drop zero a xs h = keep-IsRising a a xs (omega arith) h
keep-drop (suc n) a [] h = refl
keep-drop (suc n) a (x ∷ xs) (lt, h) =
    let below : ltb (last_or x (take n xs)) x ≡ false =
      ground (arith, le-last_or x (take n xs) (IsRising-take n x xs h)) in
    rw below (keep-drop n x xs h)

take-drop : (n : ℕ) (xs : List ℕ) → take n xs ++ drop n xs ≡ xs
take-drop zero xs = refl
take-drop (suc n) [] = refl
take-drop (suc n) (x ∷ xs) = ap (λ r. x ∷ r) (take-drop n xs)

-- Reads that succeed in time, and a queue that takes every item.
pub record IsSteady (w : World) : Type 0 where
  pub reads_succeed : (r : ℕ) → (n : ℕ) × (n < 4) × (w.read_fails (r + n) ≡ false)
  pub stays_open : (r : ℕ) → w.closes r ≡ false
  pub takes : (i : ℕ) → w.accepts i ≡ true

module _ (w : World) (members : List ℕ) (steady : IsSteady w) where
  list_page_read :
      (after left r n : ℕ)
      → n < left
      → w.read_fails (r + n) ≡ false
      → (r' : ℕ) × (list_page w members after left r
          ≡ (some (take 200 (keep (ltb after) members)), r'))
  unfolding list_page
  list_page_read after zero r n h works = absurd (omega arith)
  list_page_read after (suc left) r zero h works =
      let at : r + 0 ≡ r = omega arith in let now = rw at at works in (suc r, rw now refl)
  list_page_read after (suc left) r (suc n) h works = elim (Bool-cases (w.read_fails r)) [
    | inr now ↦ (suc r, rw now refl)
    | inl fails ↦
        let at : r + suc n ≡ suc r + n = omega arith in
        let more : left == 0 ≡ false = ground arith in
        let (r', page) = list_page_read after left (suc r) n (omega arith) (rw at at works) in
        (r', rw (fails, more, steady.stays_open r) page)
  ]

  enqueue_page_lem :
      (users : List ℕ) (s : FanOut)
      → IsRising s.after users
      → ((enqueue_page w users s).queue ≡ s.queue ++ users)
        × ((enqueue_page w users s).after ≡ last_or s.after users)
        × ((enqueue_page w users s).dropped ≡ s.dropped)
  unfolding enqueue_page
  enqueue_page_lem [] s h = (sym (append-nil s.queue), refl, refl)
  enqueue_page_lem (user ∷ users) s (lt, h) =
      let above : ltb s.after user ≡ true = ground arith in
      let next : FanOut = record s {
        after = user;
        items = suc s.items;
        queue = s.queue ++ user ∷ [];
      } in
      let step : enqueue_notice w user (move_cursor user s) ≡ next =
        rw (steady.takes s.items, above) refl in
      let P : FanOut → Type 0 = λ s'.
        ((enqueue_page w users s').queue ≡ s.queue ++ user ∷ users)
        × ((enqueue_page w users s').after ≡ last_or user users)
        × ((enqueue_page w users s').dropped ≡ s.dropped) in
      let (queue, after, dropped) = enqueue_page_lem users next h in
      subst P (sym step) (queue ∙ append_assoc s.queue (user ∷ []) users, after, dropped)

  -- A state whose queue has the members up to the cursor.
  record IsAt (s : FanOut) (rest : List ℕ) : Type 0 where
    pub ahead : keep (ltb s.after) members ≡ rest
    pub rising : IsRising s.after rest
    pub whole : s.queue ++ rest ≡ members
    pub none_dropped : s.dropped ≡ 0

  -- The loop after a page that was read.
  paged :
      (rest : List ℕ) (s : FanOut) (page : List ℕ)
      → page ≡ take 200 rest
      → IsAt s rest
      → IsAt (enqueue_page w page s) (drop 200 rest)
  paged rest s page is at =
      let rising : IsRising s.after page =
        subst (IsRising s.after) (sym is) (IsRising-take 200 s.after rest at.rising) in
      let (queue, after, dropped) = enqueue_page_lem page s rising in
      let cursor : (enqueue_page w page s).after ≡ last_or s.after (take 200 rest) =
        after ∙ ap (last_or s.after) is in
      let later = le-last_or s.after (take 200 rest) (IsRising-take 200 s.after rest at.rising) in
      record {
        ahead =
            ap (λ a. keep (ltb a) members) cursor
            ∙ sym (keep-le s.after (last_or s.after (take 200 rest)) members later)
            ∙ ap (keep (ltb (last_or s.after (take 200 rest)))) at.ahead
            ∙ keep-drop 200 s.after rest at.rising;
        rising =
            subst (λ a. IsRising a (drop 200 rest)) (sym cursor)
              (IsRising-drop 200 s.after rest at.rising);
        whole =
            ap (λ q. q ++ drop 200 rest) (queue ∙ ap (λ r. s.queue ++ r) is)
            ∙ append_assoc s.queue (take 200 rest) (drop 200 rest)
            ∙ ap (λ r. s.queue ++ r) (take-drop 200 rest)
            ∙ at.whole;
        none_dropped = dropped ∙ at.none_dropped;
      }

  fan_out_from :
      (fuel : ℕ) (rest : List ℕ) (s : FanOut)
      → length rest < fuel
      → IsAt s rest
      → (s' : FanOut) × (fan_out w members fuel s ≡ some s')
        × (s'.queue ≡ members)
        × (s'.dropped ≡ 0)
  unfolding fan_out
  fan_out_from zero rest s h at = absurd (omega arith)
  fan_out_from (suc fuel) [] s h at =
      let (n, soon, works) = steady.reads_succeed s.reads in
      let (r', page) = list_page_read s.after 4 s.reads n soon works in
      let none_left : take 200 (keep (ltb s.after) members) ≡ [] = ap (take 200) at.ahead in
      (
        record s { reads = r' },
        rw (page, none_left) refl,
        sym (append-nil s.queue) ∙ at.whole,
        at.none_dropped,
      )
  fan_out_from (suc fuel) (x ∷ rest) s h at =
      let (n, soon, works) = steady.reads_succeed s.reads in
      let (r', page) = list_page_read s.after 4 s.reads n soon works in
      let some_left : take 200 (keep (ltb s.after) members) ≡ x ∷ take 199 rest =
        ap (take 200) at.ahead in
      let start : FanOut = record s { reads = r' } in
      let at' : IsAt start (x ∷ rest) = record {
        ahead = at.ahead;
        rising = at.rising;
        whole = at.whole;
        none_dropped = at.none_dropped;
      } in
      let next = paged (x ∷ rest) start (x ∷ take 199 rest) refl at' in
      let (s', ran, queue, dropped) =
        fan_out_from fuel (drop 199 rest) (enqueue_page w (x ∷ take 199 rest) start)
          (omega (arith, length-drop {0} 199 rest)) next in
      (s', rw (page, some_left, next.none_dropped) ran, queue, dropped)

-- When the reads of a page succeed within four attempts, shutdown does not begin and the queue takes
-- what it is given, a fan-out ends, however many pages there are, and the queue has every recipient
-- once, in order.
pub fan_out_lem :
    (w : World) (members : List ℕ) (fuel : ℕ)
    → IsSteady w
    → IsRising 0 members
    → length members < fuel
    → (s : FanOut) × (fan_out w members fuel not_started ≡ some s)
      × (s.queue ≡ members)
      × (s.dropped ≡ 0)
fan_out_lem w members fuel steady rising enough =
    fan_out_from w members steady fuel members not_started enough (record {
      ahead = keep-IsRising 0 0 members (omega arith) rising;
      rising = rising;
      whole = refl;
      none_dropped = refl;
    })
