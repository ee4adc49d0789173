-- ===== src/Text.antt =====
-- What the program uses of Go's `strings` and of `big.Int` on text: `SetString(s, 10)`,
-- `strings.TrimSpace`, and `strings.EqualFold` and `strings.ToLower` on ASCII text, which is what the
-- program compares and lowers (hexadecimal addresses and hashes, names of networks).
pub mod Print
use crynux_relay_wallet.Base.{
  ℕ, zero, suc, ◌+◌, ◌-◌, ◌*◌, String, ◌≡◌, refl, Bool, true, false, ◌&&◌, ◌||◌, Option, none, some,
  List, [], ◌∷◌, leb, ◌==◌, if◌then◌else◌, all,
}
use crynux_relay_wallet.Int.{ℤ, pos, negsuc}
use Prim.Native.Char.{Char, code}

-- The code points of a text.
abbrev pub codes : String → List ℕ
codes String.[] = []
codes (String.◌∷◌ c s) = code c ∷ codes s

-- The number of bytes of a code point in UTF-8.
abbrev utf8_length : ℕ → ℕ
utf8_length c = if leb c 127 then 1 else if leb c 2047 then 2 else if leb c 65535 then 3 else 4

abbrev sum_of : List ℕ → ℕ
sum_of [] = 0
sum_of (c ∷ cs) = utf8_length c + sum_of cs

-- `len` of a text: its bytes in UTF-8.
unfoldable pub byte_length : String → ℕ
byte_length s = sum_of (codes s)

abbrev is_digit : ℕ → Bool
is_digit c = leb b'0' c && leb c b'9'

-- One or more digits, read on from a number.
abbrev more_digits : ℕ → List ℕ → Option ℕ
more_digits n [] = some n
more_digits n (c ∷ cs) =
    let rest = more_digits (n * 10 + (c - b'0')) cs in if is_digit c then rest else none

abbrev digits : List ℕ → Option ℕ
digits [] = none
digits (c ∷ cs) = more_digits 0 (c ∷ cs)

abbrev negate : ℕ → ℤ
negate zero = pos 0
negate (suc n) = negsuc n

abbrev signed : (ℕ → ℤ) → Option ℕ → Option ℤ
signed sign none = none
signed sign (some n) = some (sign n)

parse_codes : List ℕ → Option ℤ
parse_codes [] = none
parse_codes (c ∷ cs) =
    if c == b'-'
    then signed negate (digits cs)
    else if c == b'+'
    then signed pos (digits cs)
    else signed pos (digits (c ∷ cs))

-- `new(big.Int).SetString(s, 10)`: a sign or none, and digits.
unfoldable pub parse_int : String → Option ℤ
unfolding parse_codes
parse_int s = parse_codes (codes s)

-- `unicode.IsSpace`.
is_space : ℕ → Bool
is_space c =
    (leb 9 c && leb c 13)
    || c == 32
    || c == 0x85
    || c == 0xA0
    || c == 0x1680
    || (leb 0x2000 c && leb c 0x200A)
    || c == 0x2028
    || c == 0x2029
    || c == 0x202F
    || c == 0x205F
    || c == 0x3000

-- `strings.TrimSpace(s) == ""`.
unfoldable pub is_blank : String → Bool
unfolding is_space
is_blank s = all is_space (codes s)

abbrev lower : ℕ → ℕ
lower c = if leb b'A' c && leb c b'Z' then c + 32 else c

abbrev same_codes : List ℕ → List ℕ → Bool
same_codes [] [] = true
same_codes (c ∷ cs) (d ∷ ds) = lower c == lower d && same_codes cs ds
same_codes _ _ = false

-- `strings.EqualFold`.
unfoldable pub equal_fold : String → String → Bool
equal_fold s t = same_codes (codes s) (codes t)

-- The character at the place in the second text where the first has `c`; elsewhere `c`.
translate : String → String → Char → Char
translate (String.◌∷◌ u us) (String.◌∷◌ l ls) c =
    let rest = translate us ls c in if code u == code c then l else rest
translate _ _ c = c

-- `strings.ToLower`.
unfoldable pub to_lower : String → String
unfolding translate
to_lower String.[] = String.[]
to_lower (String.◌∷◌ c s) =
    String.◌∷◌ (translate "ABCDEFGHIJKLMNOPQRSTUVWXYZ" "abcdefghijklmnopqrstuvwxyz" c) (to_lower s)

abbrev starts_with : List ℕ → List ℕ → Bool
starts_with [] cs = true
starts_with (p ∷ ps) [] = false
starts_with (p ∷ ps) (c ∷ cs) = p == c && starts_with ps cs

abbrev has_infix : List ℕ → List ℕ → Bool
has_infix part [] = starts_with part []
has_infix part (c ∷ cs) = starts_with part (c ∷ cs) || has_infix part cs

-- `strings.Contains(s, part)`.
unfoldable pub contains : String → String → Bool
contains s part = has_infix (codes part) (codes s)

to_lower_hash : to_lower "0xAbC9" ≡ "0xabc9"
unfolding to_lower
to_lower_hash = refl

parse_int_amount : parse_int "-120" ≡ some (negsuc 119)
unfolding parse_int
parse_int_amount = refl

parse_int_junk : parse_int "12a" ≡ none
unfolding parse_int
parse_int_junk = refl

equal_fold_hex : equal_fold "0xAbC" "0xaBc" ≡ true
unfolding equal_fold
equal_fold_hex = refl
