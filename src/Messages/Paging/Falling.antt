-- ===== src/Messages/Paging/Falling.antt =====
-- Conversations by falling time and number, and the cursors between them: the order of
-- `GetConversations` of backend/internal/repository/message_repo.go.
use daeil_scholar.Prelude.{
  ℕ, zero, suc, ◌≤◌, ◌≡◌, refl, ap, Bool, true, false, none, some, List, [], ◌∷◌, ◌++◌, arith,
  length, take, drop, keep, Bool-cases, inl, inr,
}
use daeil_scholar.Messages.Paging.{Cursor, Conversation, is_before, is_wanted, last_cursor}

-- By falling time and number, all after the cursor `p`.
abbrev pub IsFalling : Cursor → List Conversation → Type 0
IsFalling p [] = Unit
IsFalling p (c ∷ cs) = (is_before c.cursor p ≡ true) × IsFalling c.cursor cs

abbrev pub IsListed : List Conversation → Type 0
IsListed [] = Unit
IsListed (c ∷ cs) = IsFalling c.cursor cs

pub is_before_trans :
    (a b c : Cursor) → is_before a b ≡ true → is_before b c ≡ true → is_before a c ≡ true
is_before_trans a b c h k = ground arith

pub is_before_irrefl : (a : Cursor) → is_before a a ≡ false
is_before_irrefl a = ground arith

pub is_before_asym : (a b : Cursor) → is_before a b ≡ true → is_before b a ≡ false
is_before_asym a b h = ground arith

pub IsFalling-weaken :
    (p q : Cursor) (cs : List Conversation) → is_before p q ≡ true → IsFalling p cs → IsFalling q cs
IsFalling-weaken p q [] h f = tt
IsFalling-weaken p q (c ∷ cs) h (b, f) = (is_before_trans c.cursor p q b h, f)

-- What falls from a cursor is wanted after it, and all of it.
pub keep-falling :
    (p : Cursor) (cs : List Conversation) → IsFalling p cs → keep (is_wanted (some p)) cs ≡ cs
keep-falling p [] f = refl
keep-falling p (c ∷ cs) (b, f) =
    let rest = keep-falling p cs (IsFalling-weaken c.cursor p cs b f) in rw (b, rest) refl

pub keep-none : (cs : List Conversation) → keep (is_wanted none) cs ≡ cs
keep-none [] = refl
keep-none (c ∷ cs) = rw (keep-none cs) refl

pub last_cursor-before :
    (p : Cursor) (d : Conversation) (pre rest : List Conversation)
    → IsFalling p (d ∷ pre ++ rest)
    → is_before (last_cursor d pre) p ≡ true
last_cursor-before p d [] rest (b, f) = b
last_cursor-before p d (e ∷ pre) rest (b, f) =
    last_cursor-before p e pre rest (IsFalling-weaken d.cursor p (e ∷ pre ++ rest) b f)

-- A list that falls after a first part is what is wanted after the last of that part.
pub IsFalling-after :
    (c : Conversation) (pre rest : List Conversation)
    → IsFalling c.cursor (pre ++ rest)
    → IsFalling (last_cursor c pre) rest
      × (keep (is_wanted (some (last_cursor c pre))) (c ∷ pre ++ rest) ≡ rest)
IsFalling-after c [] rest f =
    let self = is_before_irrefl c.cursor in (f, rw self (keep-falling c.cursor rest f))
IsFalling-after c (d ∷ pre) rest (b, f) =
    let (later, kept) = IsFalling-after d pre rest f in
    let first : is_before c.cursor (last_cursor d pre) ≡ false =
      is_before_asym (last_cursor d pre) c.cursor (last_cursor-before c.cursor d pre rest (b, f)) in
    (later, rw first kept)

pub last_cursor-append :
    (a c : Conversation) (pre cs : List Conversation)
    → last_cursor a (pre ++ c ∷ cs) ≡ last_cursor c cs
last_cursor-append a c [] cs = refl
last_cursor-append a c (d ∷ pre) cs = last_cursor-append d c pre cs

pub append_assoc : (xs ys zs : List Conversation) → (xs ++ ys) ++ zs ≡ xs ++ (ys ++ zs)
append_assoc [] ys zs = refl
append_assoc (x ∷ xs) ys zs = ap (λ l. x ∷ l) (append_assoc xs ys zs)

pub take-append-drop : (n : ℕ) (xs : List Conversation) → take n xs ++ drop n xs ≡ xs
take-append-drop zero xs = refl
take-append-drop (suc n) [] = refl
take-append-drop (suc n) (x ∷ xs) = ap (λ l. x ∷ l) (take-append-drop n xs)

pub take-suc : (n : ℕ) (xs : List Conversation) → take n (take (suc n) xs) ≡ take n xs
take-suc zero xs = refl
take-suc (suc n) [] = refl
take-suc (suc n) (x ∷ xs) = ap (λ l. x ∷ l) (take-suc n xs)

pub take-short : (n : ℕ) (xs : List Conversation) → length xs ≤ n → take n xs ≡ xs
take-short zero [] h = refl
take-short zero (x ∷ xs) h = absurd (omega arith)
take-short (suc n) [] h = refl
take-short (suc n) (x ∷ xs) h = ap (λ l. x ∷ l) (take-short n xs (omega arith))

-- The second filter finds nothing to remove from what the query returns.
pub keep-take :
    (p : Conversation → Bool) (n : ℕ) (xs : List Conversation)
    → keep p (take n (keep p xs)) ≡ take n (keep p xs)
keep-take p zero xs = refl
keep-take p (suc n) [] = refl
keep-take p (suc n) (x ∷ xs) = elim (Bool-cases (p x)) [
  | inl kept ↦ rw (kept, kept) (ap (λ l. x ∷ l) (keep-take p n xs))
  | inr gone ↦ rw gone (keep-take p (suc n) xs)
]
