-- ===== src/Text/Print.antt =====
-- `String()` of a `big.Int`, and models/big_int.go: how a column of type BigInt is written and read.
use crynux_relay_wallet.Base.{
  ℕ, zero, suc, ◌+◌, ◌-◌, ◌*◌, ◌/◌, ◌%◌, ◌≤◌, String, ◌≡◌, refl, ap, ◌∙◌, inl, inr, true, false,
  Option, none, some, List, [], ◌∷◌, ltb, ◌==◌, if◌then◌else◌, arith, Bool-cases,
}
use crynux_relay_wallet.Int.{ℤ, pos, negsuc}
use crynux_relay_wallet.Text.{
  codes, is_digit, more_digits, digits, negate, signed, parse_codes, parse_int,
}
use Prim.Native.Char.{Char, code}

-- The digit of a number below ten.
digit : ℕ → Char
digit d =
    if d == 0
    then "0"
    else if d == 1
    then "1"
    else if d == 2
    then "2"
    else if d == 3
    then "3"
    else if d == 4
    then "4"
    else if d == 5
    then "5"
    else if d == 6
    then "6"
    else if d == 7
    then "7"
    else if d == 8
    then "8"
    else "9"

-- The digits of a number, in front of a text. Of the fuel, one more than the number is enough.
print_digits : ℕ → ℕ → String → String
unfolding digit
print_digits zero n rest = rest
print_digits (suc fuel) n rest =
    let more = print_digits fuel (n / 10) (String.◌∷◌ (digit (n % 10)) rest) in
    if ltb n 10 then String.◌∷◌ (digit n) rest else more

abbrev print_nat : ℕ → String
print_nat n = print_digits (suc n) n String.[]

unfoldable pub print_int : ℤ → String
unfolding print_digits
print_int (pos n) = print_nat n
print_int (negsuc n) = String.◌∷◌ "-" (print_nat (suc n))

code-digit : (d : ℕ) → suc d ≤ 10 → code (digit d) ≡ b'0' + d
unfolding digit
code-digit zero h = refl
code-digit (suc zero) h = refl
code-digit (suc (suc zero)) h = refl
code-digit (suc (suc (suc zero))) h = refl
code-digit (suc (suc (suc (suc zero)))) h = refl
code-digit (suc (suc (suc (suc (suc zero))))) h = refl
code-digit (suc (suc (suc (suc (suc (suc zero)))))) h = refl
code-digit (suc (suc (suc (suc (suc (suc (suc zero))))))) h = refl
code-digit (suc (suc (suc (suc (suc (suc (suc (suc zero)))))))) h = refl
code-digit (suc (suc (suc (suc (suc (suc (suc (suc (suc zero))))))))) h = refl
code-digit (suc (suc (suc (suc (suc (suc (suc (suc (suc (suc n)))))))))) h = absurd (omega arith)

-- Reading on from a digit.
read_digit :
    (n d : ℕ) (cs : List ℕ)
    → suc d ≤ 10
    → more_digits n (code (digit d) ∷ cs) ≡ more_digits (n * 10 + d) cs
read_digit n d cs h =
    let number : is_digit (b'0' + d) ≡ true = ground arith in
    let back : b'0' + d - b'0' ≡ d = omega arith in rw (code-digit d h, number, back) refl

-- The printed digits of a number are read as the number, and the reading goes on behind them.
read_printed :
    (fuel n : ℕ) (rest : String)
    → suc n ≤ fuel
    → more_digits 0 (codes (print_digits fuel n rest)) ≡ more_digits n (codes rest)
unfolding print_digits
read_printed zero n rest h = absurd (omega arith)
read_printed (suc fuel) n rest h = elim (Bool-cases (ltb n 10)) [
  | inl small ↦
      let number : 0 * 10 + n ≡ n = omega arith in
      rw small
        (read_digit 0 n (codes rest) (ground arith) ∙ ap (λ k. more_digits k (codes rest)) number)
  | inr large ↦
      let whole : n / 10 * 10 + n % 10 ≡ n = omega arith in
      let below : suc (n % 10) ≤ 10 = omega arith in
      let big : 10 ≤ n = ground arith in
      rw large (
        read_printed fuel (n / 10) (String.◌∷◌ (digit (n % 10)) rest) (omega arith)
        ∙ read_digit (n / 10) (n % 10) (codes rest) below
        ∙ ap (λ k. more_digits k (codes rest)) whole)
]

-- A printed number begins with a digit.
printed_first :
    (fuel n : ℕ) (rest : String)
    → suc n ≤ fuel
    → (c : ℕ) × (cs : List ℕ) × (codes (print_digits fuel n rest) ≡ c ∷ cs) × (is_digit c ≡ true)
unfolding print_digits
printed_first zero n rest h = absurd (omega arith)
printed_first (suc fuel) n rest h = elim (Bool-cases (ltb n 10)) [
  | inl small ↦
      let first : is_digit (code (digit n)) ≡ true =
        rw (code-digit n (ground arith)) (ground arith) in
      rw small (code (digit n), codes rest, refl, first)
  | inr large ↦
      let big : 10 ≤ n = ground arith in
      rw large (printed_first fuel (n / 10) (String.◌∷◌ (digit (n % 10)) rest) (omega arith))
]

digits_begun : (xs : List ℕ) (c : ℕ) (cs : List ℕ) → xs ≡ c ∷ cs → digits xs ≡ more_digits 0 xs
digits_begun [] c cs e = cc
digits_begun (x ∷ xs) c cs e = refl

parse_begun :
    (xs : List ℕ) (c : ℕ) (cs : List ℕ)
    → xs ≡ c ∷ cs
    → is_digit c ≡ true
    → parse_codes xs ≡ signed pos (digits xs)
unfolding parse_codes
parse_begun [] c cs e number = cc
parse_begun (x ∷ xs) c cs e number =
    let minus : (x == b'-') ≡ false = ground arith in
    let plus : (x == b'+') ≡ false = ground arith in rw (minus, plus) refl

digits_printed : (n : ℕ) → digits (codes (print_nat n)) ≡ some n
digits_printed n =
    let (c, cs, begins, number) = printed_first (suc n) n String.[] (omega arith) in
    digits_begun (codes (print_nat n)) c cs begins ∙ read_printed (suc n) n String.[] (omega arith)

-- What a big.Int prints is parsed as the same number: a column of type BigInt reads back what was written.
pub parse_int-print_int : (z : ℤ) → parse_int (print_int z) ≡ some z
unfolding parse_int print_int parse_codes
parse_int-print_int (pos n) =
    let (c, cs, begins, number) = printed_first (suc n) n String.[] (omega arith) in
    parse_begun (codes (print_nat n)) c cs begins number ∙ ap (signed pos) (digits_printed n)
parse_int-print_int (negsuc n) = ap (signed negate) (digits_printed (suc n))

-- What a driver hands to Scan.
pub data Column : Type 0 where
  text bytes : String → Column
  null other : Column

-- `Scan`: a null leaves the number as it was, and what is no number is refused.
unfoldable pub scan : ℤ → Column → Option ℤ
scan old (text s) = parse_int s
scan old (bytes s) = parse_int s
scan old null = some old
scan old other = none

-- `Value`.
unfoldable pub value : ℤ → Column
unfolding print_int
value n = text (print_int n)

-- A number written to a column is read back, whatever stood in the variable, and whether the driver
-- hands over a text or bytes.
pub scan-value :
    (old z : ℤ) → (scan old (value z) ≡ some z) × (scan old (bytes (print_int z)) ≡ some z)
unfolding scan value
scan-value old z = (parse_int-print_int z, parse_int-print_int z)
