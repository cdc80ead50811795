-- ===== src/Billing/Subs.antt =====
-- Subscriptions in the order of their keys, and what an UPDATE of one of them leaves as it was.
use daeil_scholar.Prelude.{
  ℕ, suc, ◌≤◌, ◌≡◌, ◌≢◌, refl, Bool, true, false, some, List, [], ◌∷◌, arith, All, keep, ◌==◌,
  Bool-cases, inl, inr, ◌⊎◌,
}
use daeil_scholar.Billing.Data.{Subscription, update_sub, find_sub}

-- The keys rise from `n`.
abbrev pub IsAscending : ℕ → List Subscription → Type 0
IsAscending n [] = Unit
IsAscending n (r ∷ rs) = (n ≤ r.sub_seq) × IsAscending (suc r.sub_seq) rs

pub IsAscending-weaken :
    (m n : ℕ) (rs : List Subscription) → m ≤ n → IsAscending n rs → IsAscending m rs
IsAscending-weaken m n [] le a = a
IsAscending-weaken m n (r ∷ rs) le (h, a) = (omega arith, a)

pub IsAscending-update :
    (k n : ℕ) (f : Subscription → Subscription) (rs : List Subscription)
    → ((r : Subscription) → (f r).sub_seq ≡ r.sub_seq)
    → IsAscending n rs
    → IsAscending n (update_sub k f rs)
unfolding update_sub
IsAscending-update k n f [] same a = a
IsAscending-update k n f (r ∷ rs) same (h, a) =
    let rest = IsAscending-update k (suc r.sub_seq) f rs same a in
    elim (Bool-cases (r.sub_seq == k)) [
      | inl hit ↦ rw hit (rw (same r) h, rw (same r) rest)
      | inr miss ↦ rw miss (h, rest)
    ]

pub IsAscending-keep :
    (n : ℕ) (q : Subscription → Bool) (rs : List Subscription)
    → IsAscending n rs
    → IsAscending n (keep q rs)
IsAscending-keep n q [] a = a
IsAscending-keep n q (r ∷ rs) (h, a) =
    let rest = IsAscending-keep (suc r.sub_seq) q rs a in
    elim (Bool-cases (q r)) [
      | inl kept ↦ rw kept (h, rest)
      | inr gone ↦ rw gone (IsAscending-weaken n (suc r.sub_seq) (keep q rs) (omega arith) rest)
    ]

-- A row that is found after an update was there before, and was changed if it has the key.
pub find_sub-update :
    (k j : ℕ) (f : Subscription → Subscription) (rs : List Subscription) (r' : Subscription)
    → ((r : Subscription) → (f r).sub_seq ≡ r.sub_seq)
    → find_sub k (update_sub j f rs) ≡ some r'
    → (r : Subscription) × (find_sub k rs ≡ some r)
      × (((r ≡ r') × (k ≢ j)) ⊎ ((f r ≡ r') × (k ≡ j)))
unfolding find_sub update_sub
find_sub-update k j f [] r' same found = absurd (cc)
find_sub-update k j f (x ∷ xs) r' same found = elim (Bool-cases (x.sub_seq == k)) [
  | inl hit ↦ elim (Bool-cases (x.sub_seq == j)) [
    | inl at ↦ (x, ground arith, inr (ground (arith, same x), ground arith))
    | inr off ↦ (x, ground arith, inl (ground arith, ground arith))
  ]
  | inr miss ↦
      let later : find_sub k (update_sub j f xs) ≡ some r' = ground (arith, same x) in
      let (r, at, cases) = find_sub-update k j f xs r' same later in (r, ground arith, cases)
]

found_later :
    (n : ℕ) (r : Subscription) (rs xs : List Subscription)
    → n ≤ r.sub_seq
    → All (λ x. (suc r.sub_seq ≤ x.sub_seq) × (find_sub x.sub_seq rs ≡ some x)) xs
    → All (λ x. (n ≤ x.sub_seq) × (find_sub x.sub_seq (r ∷ rs) ≡ some x)) xs
unfolding find_sub
found_later n r rs [] h all = tt
found_later n r rs (x ∷ xs) h ((le, found), all) =
    let other : (r.sub_seq == x.sub_seq) ≡ false = ground arith in
    ((omega arith, rw other found), found_later n r rs xs h all)

-- In the order of the keys every row is found by its key.
pub find_sub-All :
    (n : ℕ) (rs : List Subscription)
    → IsAscending n rs
    → All (λ x. (n ≤ x.sub_seq) × (find_sub x.sub_seq rs ≡ some x)) rs
unfolding find_sub
find_sub-All n [] a = tt
find_sub-All n (r ∷ rs) (h, a) =
    let self : (r.sub_seq == r.sub_seq) ≡ true = ground arith in
    ((h, rw self refl), found_later n r rs rs h (find_sub-All (suc r.sub_seq) rs a))

pub All-kept :
    (P : Subscription → Type 0) (q : Subscription → Bool) (rs : List Subscription)
    → All P rs
    → All (λ r. P r × (q r ≡ true)) (keep q rs)
All-kept P q [] h = tt
All-kept P q (r ∷ rs) (h, hs) =
    let rest = All-kept P q rs hs in
    elim (Bool-cases (q r)) [ inl kept ↦ rw kept ((h, kept), rest) | inr gone ↦ rw gone rest ]
