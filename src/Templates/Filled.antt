-- ===== src/Templates/Filled.antt =====
-- Filling by Go's replacer against filling by the pieces of the scan, for the code of
-- backend/internal/service/notification_template_render.go.
use daeil_scholar.Prelude.{
  ℕ, zero, suc, ◌-◌, Bool, true, false, Option, none, some, List, [], ◌∷◌, ◌++◌, length,
  length-append, All, All-append, ◌==◌, if◌then◌else◌, if-cases, ◌≡◌, refl, sym, ap, ◌∙◌, subst,
  arith,
}
use daeil_scholar.Prelude.Text.{Text, text_eq, text_eq→eq, has_prefix}
use daeil_scholar.Templates.{Placeholder, allows_placeholder}
use daeil_scholar.Templates.Scan.{
  Piece, plain, token, push_name, name_to_brace, brace_piece, pieces, in_braces,
  are_letters_or_digits, is_name, first_match, replaced, replace, replacements, render_text,
}
use daeil_scholar.Templates.Validation.{is_brace}

abbrev pub IsPlain : ℕ → Type 0
IsPlain c = is_brace c ≡ false

-- A text that no token of the catalog's cuts is the concatenation of its pieces, each token
-- replaced by its value.
abbrev pub fill : (Text → Text) → List Piece → Text
fill vars [] = []
fill vars (plain c ∷ ps) = c ∷ fill vars ps
fill vars (token n ∷ ps) = vars n ++ fill vars ps

abbrev pub IsFit : List Placeholder → Piece → Type 0
IsFit allowed (plain c) = IsPlain c
IsFit allowed (token n) = allows_placeholder allowed n ≡ true

abbrev pub IsNamed : Placeholder → Type 0
IsNamed p = is_name p.name ≡ true

letters-IsPlain : (s : Text) → are_letters_or_digits s ≡ true → All IsPlain s
letters-IsPlain [] h = tt
letters-IsPlain (c ∷ s) h = (ground arith, letters-IsPlain s (ground arith))

name-IsPlain : (s : Text) → is_name s ≡ true → All IsPlain s
name-IsPlain [] h = tt
name-IsPlain (c ∷ s) h = (ground arith, letters-IsPlain s (ground arith))

-- A name in braces is what the scan finds there.
prefix-name_to_brace :
    (n s : Text) → All IsPlain n → has_prefix s (n ++ b'}' ∷ []) ≡ true → name_to_brace s ≡ some n
prefix-name_to_brace [] [] p h = cc
prefix-name_to_brace [] (c ∷ s) p h = ground arith
prefix-name_to_brace (a ∷ n) [] p h = cc
prefix-name_to_brace (a ∷ n) (c ∷ s) (pa, p) h = ground (arith, prefix-name_to_brace n s p)

closed-prefix :
    (r : Option Text) (n : Text) (c : ℕ) (s : Text)
    → ((m : Text) → r ≡ some m → has_prefix s (m ++ b'}' ∷ []) ≡ true)
    → (if c == b'}' then some [] else if c == b'{' then none else push_name c r) ≡ some n
    → has_prefix (c ∷ s) (n ++ b'}' ∷ []) ≡ true
closed-prefix none [] c s f h = ground arith
closed-prefix (some m) [] c s f h = ground arith
closed-prefix none (a ∷ n) c s f h = ground arith
closed-prefix (some m) (a ∷ n) c s f h = ground (arith, f m refl)

name_to_brace-prefix :
    (n s : Text) → name_to_brace s ≡ some n → has_prefix s (n ++ b'}' ∷ []) ≡ true
name_to_brace-prefix n [] h = cc
name_to_brace-prefix n (c ∷ s) h =
    closed-prefix (name_to_brace s) n c s (λ m. name_to_brace-prefix m s) h

length-in_braces : (n : Text) → length (in_braces n) ≡ suc (suc (length n))
length-in_braces n = omega (arith, length-append n (b'}' ∷ []))

is-name :
    (p : Placeholder) (n s : Text)
    → IsNamed p
    → name_to_brace s ≡ some n
    → has_prefix s (p.name ++ b'}' ∷ []) ≡ true
    → p.name ≡ n
is-name p n s np h found =
    let seen = prefix-name_to_brace p.name s (name-IsPlain p.name np) found in cc

allows-others :
    (p : Placeholder) (ps : List Placeholder) (n s : Text)
    → name_to_brace s ≡ some n
    → has_prefix s (p.name ++ b'}' ∷ []) ≡ false
    → allows_placeholder (p ∷ ps) n ≡ true
    → allows_placeholder ps n ≡ true
allows-others p ps n s h other =
    if-cases (λ (b : Bool). b ≡ true → allows_placeholder ps n ≡ true) (text_eq p.name n) _ _
      (λ same _.
        let same_name = text_eq→eq p.name n same in let seen = name_to_brace-prefix n s h in cc)
      (λ _ a. a)

-- At a brace that opens a token that is allowed, the replacer finds that token.
first_match-token :
    (ps : List Placeholder) (vars : Text → Text) (n s : Text)
    → All IsNamed ps
    → name_to_brace s ≡ some n
    → allows_placeholder ps n ≡ true
    → first_match (replacements vars ps) (b'{' ∷ s) ≡ some (suc (suc (length n)), vars n)
first_match-token [] vars n s named h a = cc
first_match-token (p ∷ ps) vars n s (np, named) h a =
    if-cases (λ (o : Option (ℕ × Text)). o ≡ some (suc (suc (length n)), vars n))
      (has_prefix s (p.name ++ b'}' ∷ [])) _ _
      (λ found. let same = is-name p n s np h found in let long = length-in_braces p.name in cc)
      (λ other. first_match-token ps vars n s named h (allows-others p ps n s h other a))

-- Elsewhere it finds none.
first_match-plain :
    (ps : List Placeholder) (vars : Text → Text) (c : ℕ) (s : Text)
    → IsPlain c
    → first_match (replacements vars ps) (c ∷ s) ≡ none
first_match-plain [] vars c s h = refl
first_match-plain (p ∷ ps) vars c s h = ground (arith, first_match-plain ps vars c s h)

pred-suc : (n : ℕ) → suc n - 1 ≡ n
pred-suc n = omega arith

brace-eq : (c : ℕ) → (c == b'{') ≡ true → b'{' ≡ c
brace-eq c h = ground arith

replace-brace :
    (ps : List Placeholder) (vars : Text → Text) (s : Text)
    → All IsNamed ps
    → ((k : ℕ)
        → All (IsFit ps) (pieces k s)
        → replace (replacements vars ps) k s ≡ fill vars (pieces k s))
    → (r : Option Text) → name_to_brace s ≡ r
    → All (IsFit ps) (brace_piece r (λ k. pieces k s))
    → replaced
        (first_match (replacements vars ps) (b'{' ∷ s))
        b'{'
        (λ k. replace (replacements vars ps) k s)
      ≡ fill vars (brace_piece r (λ k. pieces k s))
replace-brace ps vars s named rest none h fit = cc (fit.0)
replace-brace ps vars s named rest (some n) h (a, fit) =
    ap (λ o. replaced o b'{' (λ k. replace (replacements vars ps) k s))
      (first_match-token ps vars n s named h a)
    ∙ ap (λ k. vars n ++ replace (replacements vars ps) k s) (pred-suc (suc (length n)))
    ∙ ap (λ t. vars n ++ t) (rest (suc (length n)) fit)

-- Where each piece of a text is a placeholder or no brace, the replacer fills its pieces.
pub replace-fill :
    (ps : List Placeholder) (vars : Text → Text)
    → All IsNamed ps
    → (k : ℕ) (s : Text) → All (IsFit ps) (pieces k s)
    → replace (replacements vars ps) k s ≡ fill vars (pieces k s)
replace-fill ps vars named k [] h = refl
replace-fill ps vars named (suc k) (c ∷ s) h = replace-fill ps vars named k s h
replace-fill ps vars named zero (c ∷ s) h =
    if-cases
      (λ (l : List Piece).
        All (IsFit ps) l
        → replaced (first_match (replacements vars ps) (c ∷ s)) c
            (λ k. replace (replacements vars ps) k s)
          ≡ fill vars l)
      (c == b'{') _ _
      (λ opens.
        subst
          (λ (d : ℕ).
            All (IsFit ps) (brace_piece (name_to_brace s) (λ k. pieces k s))
            → replaced (first_match (replacements vars ps) (d ∷ s)) d
                (λ k. replace (replacements vars ps) k s)
              ≡ fill vars (brace_piece (name_to_brace s) (λ k. pieces k s)))
          (brace-eq c opens)
          (replace-brace ps vars s named (λ k. replace-fill ps vars named k s) (name_to_brace s)
            refl))
      (λ _ fit.
        ap (λ o. replaced o c (λ k. replace (replacements vars ps) k s))
          (first_match-plain ps vars c s fit.0)
        ∙ ap (λ t. c ∷ t) (replace-fill ps vars named 0 s fit.1))
      h

-- The replacer of no pairs changes nothing.
replace-none : (s : Text) → replace [] 0 s ≡ s
replace-none [] = refl
replace-none (c ∷ s) = ap (λ t. c ∷ t) (replace-none s)

-- So does a rendering.
pub render_text-fill :
    (ps : List Placeholder) (vars : Text → Text)
    → All IsNamed ps
    → (s : Text) → All (IsFit ps) (pieces 0 s)
    → render_text s ps vars ≡ fill vars (pieces 0 s)
render_text-fill [] vars named s fit = sym (replace-none s) ∙ replace-fill [] vars named 0 s fit
render_text-fill (p ∷ ps) vars named s fit = replace-fill (p ∷ ps) vars named 0 s fit

-- Filling with values that have no brace leaves none.
pub fill-IsPlain :
    (ps : List Placeholder) (vars : Text → Text)
    → ((name : Text) → All IsPlain (vars name))
    → (l : List Piece) → All (IsFit ps) l
    → All IsPlain (fill vars l)
fill-IsPlain ps vars values [] fit = tt
fill-IsPlain ps vars values (plain c ∷ l) (h, fit) = (h, fill-IsPlain ps vars values l fit)
fill-IsPlain ps vars values (token n ∷ l) (h, fit) =
    All-append IsPlain (vars n) (fill vars l) (values n) (fill-IsPlain ps vars values l fit)
