-- ===== src/Phone/Rows.antt =====
-- Rows numbered by AUTO_INCREMENT, and what an UPDATE of one of them does to a count and to a
-- property of all of them.
use daeil_scholar.Prelude.{
  ℕ, ◌+◌, ◌≤◌, ◌<◌, ◌≡◌, refl, subst, inl, inr, Bool, true, false, some, List, [], ◌∷◌, arith, keep,
  All, ◌==◌, Bool-cases,
}
use daeil_scholar.Phone.Table.{Row, update_row, find_row, count_rows}

-- The numbers fall from the newest row to the oldest, and all are below `n`.
abbrev pub IsNumbered : ℕ → List Row → Type 0
IsNumbered n [] = Unit
IsNumbered n (r ∷ rs) = (r.seq < n) × IsNumbered r.seq rs

pub IsNumbered-weaken : (m n : ℕ) (rs : List Row) → m ≤ n → IsNumbered m rs → IsNumbered n rs
IsNumbered-weaken m n [] h w = w
IsNumbered-weaken m n (r ∷ rs) h (lt, w) = (omega arith, w)

pub update_row-above :
    (k n : ℕ) (f : Row → Row) (rs : List Row) → n ≤ k → IsNumbered n rs → update_row k f rs ≡ rs
unfolding update_row
update_row-above k n f [] h w = refl
update_row-above k n f (r ∷ rs) h (lt, w) =
    let other : (r.seq == k) ≡ false = ground arith in
    let rest = update_row-above k r.seq f rs (omega arith) w in rw (other, rest) refl

pub IsNumbered-update :
    (k n : ℕ) (f : Row → Row) (rs : List Row)
    → ((r : Row) → (f r).seq ≡ r.seq)
    → IsNumbered n rs
    → IsNumbered n (update_row k f rs)
unfolding update_row
IsNumbered-update k n f [] same w = w
IsNumbered-update k n f (r ∷ rs) same (lt, w) =
    let rest = IsNumbered-update k r.seq f rs same w in
    elim (Bool-cases (r.seq == k)) [
      | inl hit ↦ rw hit (rw (same r) lt, rw (same r) rest)
      | inr miss ↦ rw miss (lt, rest)
    ]

pub IsNumbered-keep :
    (n : ℕ) (p : Row → Bool) (rs : List Row) → IsNumbered n rs → IsNumbered n (keep p rs)
IsNumbered-keep n p [] w = w
IsNumbered-keep n p (r ∷ rs) (lt, w) =
    let rest = IsNumbered-keep r.seq p rs w in
    elim (Bool-cases (p r)) [
      | inl kept ↦ rw kept (lt, rest)
      | inr gone ↦ rw gone (IsNumbered-weaken r.seq n (keep p rs) (omega arith) rest)
    ]

pub All-keep : (P : Row → Type 0) (p : Row → Bool) (rs : List Row) → All P rs → All P (keep p rs)
All-keep P p [] h = h
All-keep P p (r ∷ rs) (h, hs) =
    let rest = All-keep P p rs hs in
    elim (Bool-cases (p r)) [ inl kept ↦ rw kept (h, rest) | inr gone ↦ rw gone rest ]

-- A row found passes the test, has every property that all rows have, and a number below the next.
pub find_row-some :
    (P : Row → Type 0) (q : Row → Bool) (n : ℕ) (rs : List Row) (r : Row)
    → find_row q rs ≡ some r
    → All P rs
    → IsNumbered n rs
    → (q r ≡ true) × P r × (r.seq < n)
unfolding find_row
find_row-some P q n [] r found all w = absurd (cc)
find_row-some P q n (x ∷ xs) r found (px, all) (lt, w) = elim (Bool-cases (q x)) [
  | inl hit ↦
      let same : x ≡ r = ground (arith) in
      (subst (λ y. q y ≡ true) same hit, subst P same px, subst (λ y. y.seq < n) same lt)
  | inr miss ↦
      let later : find_row q xs ≡ some r = ground (arith) in
      let (hit, pr, below) = find_row-some P q x.seq xs r later all w in (hit, pr, omega arith)
]

-- Only the row found is updated.
pub All-update :
    (P : Row → Type 0) (q : Row → Bool) (n : ℕ) (f : Row → Row) (rs : List Row) (r : Row)
    → find_row q rs ≡ some r
    → IsNumbered n rs
    → All P rs
    → P (f r)
    → All P (update_row r.seq f rs)
unfolding find_row update_row
All-update P q n f [] r found w all pf = absurd (cc)
All-update P q n f (x ∷ xs) r found (lt, w) (px, all) pf = elim (Bool-cases (q x)) [
  | inl hit ↦
      let same : r ≡ x = ground (arith) in
      let here : (x.seq == r.seq) ≡ true = ground (arith) in
      let rest : update_row r.seq f xs ≡ xs = update_row-above r.seq x.seq f xs (ground arith) w in
      rw (here, rest) (subst (λ y. P (f y)) same pf, all)
  | inr miss ↦
      let later : find_row q xs ≡ some r = ground (arith) in
      let (_, _, below) = find_row-some P q x.seq xs r later all w in
      let other : (x.seq == r.seq) ≡ false = ground (arith) in
      rw other (px, All-update P q x.seq f xs r later w all pf)
]

pub count_rows-insert :
    (p : Row → Bool) (r : Row) (rs : List Row) → count_rows p (r ∷ rs) ≤ count_rows p rs + 1
unfolding count_rows
count_rows-insert p r rs = ground arith

-- An update changes the count by one at most.
pub count_rows-update :
    (p : Row → Bool) (k n : ℕ) (f : Row → Row) (rs : List Row)
    → IsNumbered n rs
    → count_rows p (update_row k f rs) ≤ count_rows p rs + 1
unfolding count_rows update_row
count_rows-update p k n f [] w = omega arith
count_rows-update p k n f (r ∷ rs) (lt, w) =
    let rest = count_rows-update p k r.seq f rs w in
    elim (Bool-cases (r.seq == k)) [
      | inl hit ↦
          let tail = update_row-above k r.seq f rs (ground arith) w in rw (hit, tail) (ground arith)
      | inr miss ↦ rw miss (ground arith)
    ]

-- An update that never makes a row count does not raise the count, and lowers it where it makes a
-- row that was found stop counting.
pub count_rows-lower :
    (p : Row → Bool) (k : ℕ) (f : Row → Row) (rs : List Row)
    → ((r : Row) → p (f r) ≡ true → p r ≡ true)
    → count_rows p (update_row k f rs) ≤ count_rows p rs
unfolding count_rows update_row
count_rows-lower p k f [] off = omega arith
count_rows-lower p k f (r ∷ rs) off = ground (arith, off r, count_rows-lower p k f rs off)

pub count_rows-spend :
    (p q : Row → Bool) (f : Row → Row) (rs : List Row) (r : Row)
    → ((x : Row) → p (f x) ≡ false)
    → ((x : Row) → q x ≡ true → p x ≡ true)
    → find_row q rs ≡ some r
    → count_rows p (update_row r.seq f rs) + 1 ≤ count_rows p rs
unfolding count_rows update_row find_row
count_rows-spend p q f [] r off counts found = absurd (cc)
count_rows-spend p q f (x ∷ xs) r off counts found =
    let lower = count_rows-lower p r.seq f xs (λ y on. absurd (cc (off y))) in
    elim (Bool-cases (q x)) [
      | inl hit ↦
          let same : r ≡ x = ground (arith) in
          let here : (x.seq == r.seq) ≡ true = ground (arith) in
          let counted = counts x hit in rw (here, off x, counted) (omega (arith, lower))
      | inr miss ↦
          let later : find_row q xs ≡ some r = ground (arith) in
          let rest = count_rows-spend p q f xs r off counts later in ground (arith, off x)
    ]

pub count_rows-keep :
    (p q : Row → Bool) (rs : List Row) → count_rows p (keep q rs) ≤ count_rows p rs
unfolding count_rows
count_rows-keep p q [] = omega arith
count_rows-keep p q (r ∷ rs) = ground (arith, count_rows-keep p q rs)

pub count_rows-same :
    (p q : Row → Bool) (rs : List Row)
    → ((r : Row) → p r ≡ true → q r ≡ true)
    → count_rows p rs ≤ count_rows q rs
unfolding count_rows
count_rows-same p q [] h = omega arith
count_rows-same p q (r ∷ rs) h = ground (arith, h r, count_rows-same p q rs h)

pub All-change :
    (P : Row → Type 0) (k : ℕ) (f : Row → Row) (rs : List Row)
    → ((r : Row) → P r → P (f r))
    → All P rs
    → All P (update_row k f rs)
unfolding update_row
All-change P k f [] step h = h
All-change P k f (r ∷ rs) step (h, hs) =
    let rest = All-change P k f rs step hs in
    elim (Bool-cases (r.seq == k)) [
      | inl hit ↦ rw hit (step r h, rest)
      | inr miss ↦ rw miss (h, rest)
    ]
