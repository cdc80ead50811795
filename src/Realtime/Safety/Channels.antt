-- ===== src/Realtime/Safety/Channels.antt =====
-- What a publication and a subscription do to the channels: no send finds one closed, and no send
-- that would wait finds one full.
use daeil_scholar.Prelude.{
  ℕ, ◌+◌, ◌-◌, ◌≤◌, ◌≡◌, refl, false, Option, none, some, List, [], ◌∷◌, ◌++◌, arith, length,
  length-append, length-drop, All, if-cases, leb,
}
use daeil_scholar.Prelude.Int.{ℤ, ltb_ℤ}
use daeil_scholar.Realtime.{
  Fields, Event, Subscriber, Outcome, done, panics, blocks, ◌>>=◌, event_id, replay, replay_from,
  latest, offer, offer_all,
}
use daeil_scholar.Realtime.Safety.Sets.{All-map}

-- The outcome is a result, and the result has the property.
abbrev pub Ensures {ℓ} : {A : Type ℓ} → (A → Type 0) → Outcome A → Type 0
Ensures P (done a) = P a
Ensures P panics = ⊥
Ensures P blocks = ⊥

pub Ensures-bind {ℓ κ} :
    {A : Type ℓ} {B : Type κ} (P : A → Type 0) (Q : B → Type 0) (m : Outcome A) (f : A → Outcome B)
    → Ensures P m
    → ((a : A) → P a → Ensures Q (f a))
    → Ensures Q (m >>= f)
Ensures-bind P Q (done a) f h k = k a h
Ensures-bind P Q panics f h k = absurd h
Ensures-bind P Q blocks f h k = absurd h

pub Ensures-map {ℓ} :
    {A : Type ℓ} (P Q : A → Type 0) (m : Outcome A)
    → ((a : A) → P a → Q a)
    → Ensures P m
    → Ensures Q m
Ensures-map P Q (done a) f h = f a h
Ensures-map P Q panics f h = absurd h
Ensures-map P Q blocks f h = absurd h

-- A change of channels that leaves their owners, and their limits.
abbrev pub Keeps : (ℕ → Subscriber) → (ℕ → Subscriber) → Type 0
Keeps s t =
    (p : ℕ)
    → ((t p).user_seq ≡ (s p).user_seq)
      × ((t p).is_closed ≡ (s p).is_closed)
      × (length (s p).ch ≤ 256 → length (t p).ch ≤ 256)

Keeps-trans : (s t u : ℕ → Subscriber) → Keeps s t → Keeps t u → Keeps s u
Keeps-trans s t u f g p = ground (arith, f p, g p)

offer-Keeps :
    (e : Event) (p : ℕ) (s : ℕ → Subscriber)
    → (s p).is_closed ≡ false
    → Ensures (Keeps s) (offer e p s)
offer-Keeps e p s open_ch = rw open_ch (
    if-cases (Ensures (Keeps s)) (leb 256 (length (s p).ch)) _ _ (λ _ q. (refl, refl, λ h. h))
      (λ room q. ground (arith, length-append (s p).ch (e ∷ []))))

pub offer_all-Keeps :
    (e : Event) (set : List ℕ) (s : ℕ → Subscriber)
    → All (λ p. (s p).is_closed ≡ false) set
    → Ensures (Keeps s) (offer_all e set s)
unfolding offer_all
offer_all-Keeps e [] s h = λ q. (refl, refl, λ b. b)
offer_all-Keeps e (p ∷ set) s (hp, h) =
    Ensures-bind (Keeps s) (Keeps s) (offer e p s) (offer_all e set) (offer-Keeps e p s hp) (λ t k.
      Ensures-map (Keeps t) (Keeps s) (offer_all e set t) (λ u l. Keeps-trans s t u k l)
        (offer_all-Keeps e set t (
          All-map (λ q. (s q).is_closed ≡ false) (λ q. (t q).is_closed ≡ false) set
            (λ q open_ch. ground (arith, k q)) h)))

pub length-latest-le : (es : List Event) → length (latest es) ≤ 256
unfolding latest
length-latest-le es = ground (arith, length-drop (length es - 256) es)

replay_fits :
    (maps : ℕ → Fields) (after : ℤ) (es ch : List Event)
    → length ch + length es ≤ 256
    → Ensures (λ c. length c ≤ 256) (replay maps after es ch)
unfolding replay
replay_fits maps after [] ch h = omega arith
replay_fits maps after (e ∷ es) ch h =
    let room : leb 256 (length ch) ≡ false = ground arith in
    if-cases (Ensures (λ c. length c ≤ 256)) (ltb_ℤ after (event_id maps e)) _ _
      (λ _.
        rw room
          (replay_fits maps after es (ch ++ e ∷ []) (omega (arith, length-append ch (e ∷ [])))))
      (λ _. replay_fits maps after es ch (omega arith))

pub replay_from-fits :
    (after : Option ℤ) (maps : ℕ → Fields) (es : List Event)
    → length es ≤ 256
    → Ensures (λ c. length c ≤ 256) (replay_from after maps es)
replay_from-fits none maps es h = omega arith
replay_from-fits (some after) maps es h = replay_fits maps after es [] (omega arith)
