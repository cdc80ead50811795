-- ===== src/Templates/Scan.antt =====
-- Scanning a text for tokens in braces and filling them:
-- backend/internal/service/notification_template_render.go.
use daeil_scholar.Prelude.{
  ℕ, zero, suc, ◌-◌, Bool, true, false, ◌&&◌, ◌||◌, Option, none, some, List, [], ◌∷◌, ◌++◌, length,
  leb, ◌==◌, if◌then◌else◌,
}
use daeil_scholar.Prelude.Text.{Text, text_eq, has_prefix, contains, is_digit}
use daeil_scholar.Templates.{Placeholder, Definition}

-- What the pattern `\{[^{}]*\}` cuts a text into: the name in a match, or a character outside.
pub data Piece : Type 0 where
  plain : ℕ → Piece
  token : Text → Piece

abbrev pub push_name : ℕ → Option Text → Option Text
push_name c none = none
push_name c (some n) = some (c ∷ n)

-- The rest of a match after its `{`: what is before the next brace, if that closes.
abbrev pub name_to_brace : Text → Option Text
name_to_brace [] = none
name_to_brace (c ∷ s) =
    let rest = name_to_brace s in
    if c == b'}' then some [] else if c == b'{' then none else push_name c rest

abbrev pub brace_piece : Option Text → (ℕ → List Piece) → List Piece
brace_piece none next = plain b'{' ∷ next 0
brace_piece (some n) next = token n ∷ next (suc (length n))

-- The pieces of a text after its first `skip` characters, which the last match has taken.
abbrev pub pieces : (skip : ℕ) → Text → List Piece
pieces skip [] = []
pieces (suc k) (c ∷ s) = pieces k s
pieces zero (c ∷ s) =
    let rest = pieces 0 s in
    if c == b'{' then brace_piece (name_to_brace s) (λ k. pieces k s) else plain c ∷ rest

-- The names of `templateBraceTokens`.
abbrev pub template_brace_tokens : List Piece → List Text
template_brace_tokens [] = []
template_brace_tokens (plain c ∷ ps) = template_brace_tokens ps
template_brace_tokens (token n ∷ ps) = n ∷ template_brace_tokens ps

-- `templateBraceTokenPattern.ReplaceAllString(text, "")`
abbrev pub outside_tokens : List Piece → Text
outside_tokens [] = []
outside_tokens (plain c ∷ ps) = c ∷ outside_tokens ps
outside_tokens (token n ∷ ps) = outside_tokens ps

abbrev pub in_braces : Text → Text
in_braces name = b'{' ∷ (name ++ b'}' ∷ [])

abbrev pub is_letter : ℕ → Bool
is_letter c = (leb b'a' c && leb c b'z') || (leb b'A' c && leb c b'Z')

abbrev pub are_letters_or_digits : Text → Bool
are_letters_or_digits [] = true
are_letters_or_digits (c ∷ s) = (is_letter c || is_digit c) && are_letters_or_digits s

-- `templatePlaceholderNamePattern`
abbrev pub is_name : Text → Bool
is_name [] = false
is_name (c ∷ s) = is_letter c && are_letters_or_digits s

abbrev pub template_contains_placeholder : Text → Text → Bool
unfolding contains
template_contains_placeholder text name = contains text (in_braces name)

-- The first pair whose old text begins `s`: how long that is, and the new text.
abbrev pub first_match : List (Text × Text) → Text → Option (ℕ × Text)
first_match [] s = none
first_match ((old, new) ∷ ps) s =
    let rest = first_match ps s in if has_prefix s old then some (length old, new) else rest

abbrev pub replaced : Option (ℕ × Text) → ℕ → (ℕ → Text) → Text
replaced none c next = c ∷ next 0
replaced (some (n, new)) c next = new ++ next (n - 1)

-- `strings.NewReplacer(...).Replace`, for old texts that are not empty
abbrev pub replace : List (Text × Text) → (skip : ℕ) → Text → Text
replace ps skip [] = []
replace ps (suc k) (c ∷ s) = replace ps k s
replace ps zero (c ∷ s) = replaced (first_match ps (c ∷ s)) c (λ k. replace ps k s)

-- A map of values is a function, whose value at an absent name is empty.
abbrev pub replacement : (Text → Text) → Placeholder → Text × Text
replacement vars p = (in_braces p.name, vars p.name)

abbrev pub replacements : (Text → Text) → List Placeholder → List (Text × Text)
replacements vars [] = []
replacements vars (p ∷ ps) = replacement vars p ∷ replacements vars ps

abbrev pub render_text : Text → List Placeholder → (Text → Text) → Text
render_text text [] vars = text
render_text text (p ∷ ps) vars = replace (replacements vars (p ∷ ps)) 0 text

abbrev pub render_template_text : Text → Definition → (Text → Text) → Text
render_template_text text definition vars = render_text text definition.placeholders vars

-- The map of the samples; a later placeholder of the same name wins.
abbrev pub samples : List Placeholder → (Text → Text) → Text → Text
samples [] vars = vars
samples (p ∷ ps) vars = samples ps (λ name. if text_eq p.name name then p.sample else vars name)

abbrev pub render_template_with_samples : Text → Definition → Text
render_template_with_samples text definition =
    render_template_text text definition (samples definition.placeholders (λ _. []))
