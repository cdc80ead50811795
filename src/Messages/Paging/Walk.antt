-- ===== src/Messages/Paging/Walk.antt =====
-- The pages one after the other list every conversation once: `GetConversations` of
-- backend/internal/service/message_service.go.
use daeil_scholar.Prelude.{
  ℕ, zero, suc, ◌≤◌, ◌<◌, ◌≡◌, refl, ap, sym, ◌∙◌, subst, true, false, ◌||◌, Option, none, some,
  List, [], ◌∷◌, ◌++◌, arith, All, length, length-drop, length-take, min, All-drop, take, drop,
  keep, ltb, ◌==◌, if◌then◌else◌, Bool-cases, inl, inr,
}
use daeil_scholar.Prelude.Int.{ℤ, pos, negsuc}
use daeil_scholar.Prelude.Text.{Text, text_eq}
use daeil_scholar.Messages.Paging.{
  Cursor, Conversation, Listing, invalid_cursor, encode_error, page, page_size, is_wanted,
  query_conversations, last_cursor, close_page, decode_message_cursor, cut_page, list_from,
  get_conversations,
}
use daeil_scholar.Messages.Paging.Falling.{
  IsListed, keep-none, IsFalling-after, last_cursor-append, append_assoc, take-append-drop,
  take-suc, take-short, keep-take,
}

-- The whole list is a first part and then the conversations wanted after `before`.
abbrev IsAt : List Conversation → Option Cursor → List Conversation → Type 0
IsAt all before rest =
    (pre : List Conversation) × (all ≡ pre ++ rest) × (keep (is_wanted before) all ≡ rest)

-- After a page the rest of the list is wanted.
IsAt-next :
    (all : List Conversation) (before : Option Cursor) (c : Conversation) (cs : List Conversation)
    (k : ℕ)
    → IsListed all
    → IsAt all before (c ∷ cs)
    → IsAt all (some (last_cursor c (take k cs))) (drop k cs)
IsAt-next all before c cs k listed ([], split, _) =
    let whole : all ≡ c ∷ take k cs ++ drop k cs =
      split ∙ ap (λ l. c ∷ l) (sym (take-append-drop k cs)) in
    let falls : IsListed (c ∷ take k cs ++ drop k cs) = subst IsListed whole listed in
    (
      c ∷ take k cs,
      whole,
      subst (λ l. keep (is_wanted (some (last_cursor c (take k cs)))) l ≡ drop k cs) (sym whole)
          (IsFalling-after c (take k cs) (drop k cs) falls).1,
    )
IsAt-next all before c cs k listed (a ∷ pre, split, _) =
    let joined : List Conversation → List Conversation = λ l. pre ++ (c ∷ l) in
    let parts : (pre ++ c ∷ take k cs) ++ drop k cs ≡ pre ++ c ∷ cs =
      append_assoc pre (c ∷ take k cs) (drop k cs) ∙ ap joined (take-append-drop k cs) in
    let whole : all ≡ a ∷ (pre ++ c ∷ take k cs) ++ drop k cs =
      split ∙ ap (λ l. a ∷ l) (sym parts) in
    let falls : IsListed (a ∷ (pre ++ c ∷ take k cs) ++ drop k cs) = subst IsListed whole listed in
    let kept : keep (is_wanted (some (last_cursor a (pre ++ c ∷ take k cs)))) all ≡ drop k cs =
      subst (λ l. keep (is_wanted (some (last_cursor a (pre ++ c ∷ take k cs)))) l ≡ drop k cs)
        (sym whole) (IsFalling-after a (pre ++ c ∷ take k cs) (drop k cs) falls).1 in
    (
      a ∷ pre ++ c ∷ take k cs,
      whole,
      subst (λ p. keep (is_wanted (some p)) all ≡ drop k cs)
          (last_cursor-append a c pre (take k cs)) kept,
    )

abbrev append_rest : List Conversation → Option (List Conversation) → Option (List Conversation)
append_rest items none = none
append_rest items (some cs) = some (items ++ cs)

abbrev follow_cursor :
    List Conversation
    → Option Text
    → (Text → Option (List Conversation))
    → Option (List Conversation)
follow_cursor items none rest = some items
follow_cursor items (some more) rest = append_rest items (rest more)

abbrev turn_page : Listing → (Text → Option (List Conversation)) → Option (List Conversation)
turn_page invalid_cursor rest = none
turn_page encode_error rest = none
turn_page (page p) rest = follow_cursor p.items p.next_cursor rest

module _ (encode : Cursor → Option Text) (decode : Text → Option Cursor) where
  -- The pages from a cursor on, as long as there are more; none if a page fails or `n` pages are not
  -- enough.
  unfoldable pub walk : ℕ → List Conversation → Text → ℤ → Option (List Conversation)
  walk zero all cursor size = none
  walk (suc n) all cursor size =
      turn_page (get_conversations encode decode all cursor size) (λ more. walk n all more size)

  -- What the codec does with the cursors of the list.
  abbrev pub IsCoded : Cursor → Type 0
  IsCoded c =
      (1 ≤ c.created_at)
      × (1 ≤ c.message_id)
      × ((t : Text) × (encode c ≡ some t) × (decode t ≡ some c) × (text_eq t [] ≡ false))

  list_from-rest :
      (all : List Conversation) (before : Option Cursor) (k : ℕ) (rest : List Conversation)
      → keep (is_wanted before) all ≡ rest
      → list_from encode decode all before (suc k)
        ≡ cut_page encode decode (suc k) (take (suc (suc k)) rest) (take (suc k) rest)
  list_from-rest all before k rest is =
      let found : keep (is_wanted before) (query_conversations all before (suc (suc k)))
          ≡ take (suc (suc k)) rest =
        keep-take (is_wanted before) (suc (suc k)) all ∙ ap (take (suc (suc k))) is in
      rw (found, take-suc (suc k) rest) refl

  All-last :
      (c : Conversation) (cs : List Conversation) (k : ℕ)
      → All (λ x. IsCoded x.cursor) (c ∷ cs)
      → IsCoded (last_cursor c (take k cs))
  All-last c cs zero (h, hs) = h
  All-last c [] (suc k) (h, hs) = h
  All-last c (d ∷ cs) (suc k) (h, hs) = All-last d cs k hs

  All-drop_one :
      (c : Conversation) (cs : List Conversation) (k : ℕ)
      → All (λ x. IsCoded x.cursor) (c ∷ cs)
      → All (λ x. IsCoded x.cursor) (drop k cs)
  All-drop_one c cs k (h, hs) = All-drop (λ x. IsCoded x.cursor) k cs hs

  -- One page, the rest of the list being known.
  abbrev paged : ℕ → List Conversation → Listing
  paged k [] = page (record { items = []; next_cursor = none })
  paged k (c ∷ cs) =
      if ltb k (length cs)
      then close_page (c ∷ take k cs) (encode (last_cursor c (take k cs)))
      else page (record { items = c ∷ cs; next_cursor = none })

  cut_page-paged :
      (k : ℕ) (rest : List Conversation)
      → cut_page encode decode (suc k) (take (suc (suc k)) rest) (take (suc k) rest) ≡ paged k rest
  cut_page-paged k [] = refl
  cut_page-paged k (c ∷ cs) =
      let few : length (take (suc k) cs) ≡ min (suc k) (length cs) = length-take (suc k) cs in
      elim (Bool-cases (ltb k (length cs))) [
        | inl more ↦
            let over : ltb (suc k) (suc (length (take (suc k) cs))) ≡ true = ground arith in
            rw (more, over) refl
        | inr fits ↦
            let short : take (suc k) cs ≡ cs = take-short (suc k) cs (ground arith) in
            let under : ltb (suc k) (suc (length cs)) ≡ false = ground arith in
            rw (fits, short, under) refl
      ]

  next_cursor-opens :
      (all : List Conversation) (size : ℤ) (k : ℕ) (c : Cursor) (t : Text)
      → page_size size ≡ suc k
      → 1 ≤ c.created_at
      → 1 ≤ c.message_id
      → decode t ≡ some c
      → text_eq t [] ≡ false
      → get_conversations encode decode all t size ≡ list_from encode decode all (some c) (suc k)
  unfolding get_conversations decode_message_cursor
  next_cursor-opens all size k c t sized some_time some_id back written =
      let real : (c.created_at == 0 || c.message_id == 0) ≡ false = ground arith in
      rw (written, back, real, sized) refl

  walk-rest :
      (n k : ℕ) (all : List Conversation) (before : Option Cursor) (t : Text) (size : ℤ)
      (rest : List Conversation)
      → IsListed all
      → IsAt all before rest
      → All (λ x. IsCoded x.cursor) rest
      → page_size size ≡ suc k
      → get_conversations encode decode all t size ≡ list_from encode decode all before (suc k)
      → length rest < n
      → walk n all t size ≡ some rest
  unfolding walk
  walk-rest zero k all before t size rest listed at coded sized opens few = absurd (omega arith)
  walk-rest (suc n) k all before t size [] listed (pre, split, kept) coded sized opens few =
      rw (opens ∙ list_from-rest all before k [] kept) refl
  walk-rest (suc n) k all before t size (c ∷ cs) listed at coded sized opens few =
      let opened : get_conversations encode decode all t size ≡ paged k (c ∷ cs) =
        opens ∙ list_from-rest all before k (c ∷ cs) at.2 ∙ cut_page-paged k (c ∷ cs) in
      elim (Bool-cases (ltb k (length cs))) [
        | inr fits ↦ rw (opened, fits) refl
        | inl more ↦
            let (some_time, some_id, (u, encoded, decoded, written)) = All-last c cs k coded in
            let rest : walk n all u size ≡ some (drop k cs) =
              walk-rest n k all (some (last_cursor c (take k cs))) u size (drop k cs) listed
                (IsAt-next all before c cs k listed at) (All-drop_one c cs k coded) sized
                (next_cursor-opens all size k (last_cursor c (take k cs)) u sized some_time some_id
                  decoded written)
                (omega (arith, length-drop k cs)) in
            rw (opened, more, encoded, rest) (ap (λ l. some (c ∷ l)) (take-append-drop k cs))
      ]

  page_size-positive : (size : ℤ) → (k : ℕ) × (page_size size ≡ suc k)
  page_size-positive (negsuc n) = (19, refl)
  page_size-positive (pos zero) = (19, refl)
  page_size-positive (pos (suc n)) =
      let some_size : (suc n == 0) ≡ false = ground arith in
      elim (Bool-cases (ltb 50 (suc n))) [
        | inl large ↦ (49, rw (some_size, large) refl)
        | inr small ↦ (n, rw (some_size, small) refl)
      ]

  -- For conversations that do not change meanwhile, by strictly falling time and number, whose
  -- cursors the codec reads back, and for any size asked for: the pages from the first on, each with
  -- the cursor that the one before gave, together are the whole list, and as many pages as there are
  -- conversations and one more are enough.
  pub walk_lem :
      (all : List Conversation) (size : ℤ)
      → IsListed all
      → All (λ x. IsCoded x.cursor) all
      → walk (suc (length all)) all [] size ≡ some all
  unfolding get_conversations
  walk_lem all size listed coded =
      let (k, sized) = page_size-positive size in
      walk-rest (suc (length all)) k all none [] size all listed ([], refl, keep-none all) coded
        sized (rw sized refl) (omega arith)
