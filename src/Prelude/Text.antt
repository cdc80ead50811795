-- ===== src/Prelude/Text.antt =====
-- Texts as lists of code points, and what the program uses of Go's `strings` and `strconv`.
use Prim.Native.Nat.{ℕ, zero, suc, ◌+◌, ◌-◌, ◌*◌, ◌/◌, ◌%◌, ◌^◌}
use Prim.Native.Char.{code}
use Prim.Native.String.{String}
use mathlib.Core.Path.{◌≡◌, refl}
use mathlib.Core.Bool.{Bool, true, false, ◌&&◌, ◌||◌}
use mathlib.Core.Option.{Option, none, some}
use mathlib.Core.List.{List, [], ◌∷◌, reverse}
use native.Mathlib.Omega.{arith}
use daeil_scholar.Prelude.Tests.{ltb, leb, ◌==◌, if◌then◌else◌}
use daeil_scholar.Prelude.Int.{ℤ, pos, negsuc}

abbrev pub Text : Type 0
Text = List ℕ

abbrev pub codes : String → Text
codes String.[] = []
codes (String.◌∷◌ c s) = code c ∷ codes s

abbrev pub text_eq : Text → Text → Bool
text_eq [] [] = true
text_eq (a ∷ s) (b ∷ t) = a == b && text_eq s t
text_eq _ _ = false

pub text_eq→eq : (s t : Text) → text_eq s t ≡ true → s ≡ t
text_eq→eq [] [] h = refl
text_eq→eq [] (b ∷ t) h = cc
text_eq→eq (a ∷ s) [] h = cc
text_eq→eq (a ∷ s) (b ∷ t) h = ground (arith, text_eq→eq s t)

pub text_eq_self : (s : Text) → text_eq s s ≡ true
text_eq_self [] = refl
text_eq_self (a ∷ s) = ground (arith, text_eq_self s)

-- `unicode.IsSpace`
abbrev pub is_space : ℕ → Bool
is_space c =
    (leb 9 c && leb c 13)
    || c == 32
    || c == 0x85
    || c == 0xa0
    || c == 0x1680
    || (leb 0x2000 c && leb c 0x200a)
    || c == 0x2028
    || c == 0x2029
    || c == 0x202f
    || c == 0x205f
    || c == 0x3000

pub drop_spaces : Text → Text
drop_spaces [] = []
drop_spaces (c ∷ s) = let rest = drop_spaces s in if is_space c then rest else c ∷ s

-- `strings.TrimSpace`
unfoldable pub trim_space : Text → Text
unfolding drop_spaces
trim_space s = reverse (drop_spaces (reverse (drop_spaces s)))

abbrev pub glue : ℕ → List Text → List Text
glue c [] = (c ∷ []) ∷ []
glue c (w ∷ ws) = (c ∷ w) ∷ ws

-- `strings.Split` at a separator of one byte
unfoldable pub split_at : ℕ → Text → List Text
split_at sep [] = [] ∷ []
split_at sep (c ∷ s) = let rest = split_at sep s in if c == sep then [] ∷ rest else glue c rest

-- `strings.HasPrefix s t`
abbrev pub has_prefix : Text → Text → Bool
has_prefix s [] = true
has_prefix [] (b ∷ t) = false
has_prefix (a ∷ s) (b ∷ t) = a == b && has_prefix s t

-- `strings.Contains s t`
unfoldable pub contains : Text → Text → Bool
contains [] t = has_prefix [] t
contains (a ∷ s) t = has_prefix (a ∷ s) t || contains s t

abbrev pub is_digit : ℕ → Bool
is_digit c = leb b'0' c && leb c b'9'

-- The number that digits spell after `n`, or none at any other character.
abbrev pub digits_value : Text → ℕ → Option ℕ
digits_value [] n = some n
digits_value (c ∷ s) n =
    let rest = digits_value s (n * 10 + (c - b'0')) in if is_digit c then rest else none

abbrev pub unsigned_value : Text → Option ℕ
unsigned_value [] = none
unsigned_value (c ∷ s) = digits_value (c ∷ s) 0

abbrev pub positive_int64 : Option ℕ → Option ℤ
positive_int64 none = none
positive_int64 (some n) = if ltb n (2 ^ 63) then some (pos n) else none

abbrev pub negative : ℕ → ℤ
negative zero = pos 0
negative (suc n) = negsuc n

abbrev pub negative_int64 : Option ℕ → Option ℤ
negative_int64 none = none
negative_int64 (some n) = if leb n (2 ^ 63) then some (negative n) else none

-- `strconv.ParseInt(s, 10, 64)`, and `strconv.Atoi` on a machine of 64 bits
unfoldable pub parse_int : Text → Option ℤ
parse_int [] = none
parse_int (c ∷ s) =
    if c == b'-'
    then negative_int64 (unsigned_value s)
    else if c == b'+'
    then positive_int64 (unsigned_value s)
    else positive_int64 (unsigned_value (c ∷ s))

abbrev digits_before : ℕ → ℕ → Text → Text
digits_before zero n ds = ds
digits_before (suc fuel) n ds =
    let all = (b'0' + n % 10) ∷ ds in
    let rest = digits_before fuel (n / 10) all in if ltb n 10 then all else rest

-- `strconv.Itoa`; the number itself is fuel enough.
unfoldable pub itoa : ℤ → Text
itoa (pos n) = digits_before (suc n) n []
itoa (negsuc n) = b'-' ∷ digits_before (suc (suc n)) (suc n) []
