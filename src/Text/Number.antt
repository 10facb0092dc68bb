-- ===== src/Text/Number.antt =====
-- `strconv.Atoi` and `strconv.ParseInt(s, 10, 64)`, and decimal print.
use nodelume.Prelude.{
  ℕ, zero, suc, ◌+◌, ◌-◌, ◌*◌, ◌/◌, ◌%◌, ◌^◌, Bool, true, false, [], ◌∷◌, ltb, ◌==◌, if◌then◌else◌,
  Bytes,
}
use nodelume.Prelude.Int.{ℤ, pos, negsuc}

-- A range error comes with the nearest number; a syntax error comes with 0.
pub data Parsed (A : Type 0) : Type 0 where
  ok : A → Parsed A
  syntax_error : Parsed A
  range_error : A → Parsed A

-- The digit loop of `ParseUint`, which stops at the first byte that is no digit and at the first
-- digit that leads beyond 64 bits.
unfoldable pub scan_digits : Bytes → ℕ → Parsed ℕ
scan_digits [] n = Parsed.ok n
scan_digits (c ∷ s) n =
    let rest = scan_digits s (n * 10 + (c - b'0')) in
    if ltb c b'0'
    then Parsed.syntax_error
    else if ltb b'9' c
    then Parsed.syntax_error
    else if ltb (2 ^ 64 - 1) (n * 10 + (c - b'0'))
    then Parsed.range_error (2 ^ 64 - 1)
    else rest

unfoldable pub parse_uint : Bytes → Parsed ℕ
unfolding scan_digits
parse_uint [] = Parsed.syntax_error
parse_uint (c ∷ s) = scan_digits (c ∷ s) 0

abbrev signed : Bool → ℕ → Parsed ℤ
signed false n = if ltb n (2 ^ 63) then Parsed.ok (pos n) else Parsed.range_error (pos (2 ^ 63 - 1))
signed true n =
    if ltb (2 ^ 63) n
    then Parsed.range_error (negsuc (2 ^ 63 - 1))
    else Parsed.ok (if n == 0 then pos 0 else negsuc (n - 1))

abbrev with_sign : Bool → Parsed ℕ → Parsed ℤ
with_sign neg (Parsed.ok n) = signed neg n
with_sign neg Parsed.syntax_error = Parsed.syntax_error
with_sign neg (Parsed.range_error n) = signed neg n

-- A number behind an optional sign.
unfoldable pub parse_int : Bytes → Parsed ℤ
unfolding parse_uint
parse_int [] = Parsed.syntax_error
parse_int (c ∷ s) =
    if c == b'-'
    then with_sign true (parse_uint s)
    else if c == b'+'
    then with_sign false (parse_uint s)
    else with_sign false (parse_uint (c ∷ s))

-- `n, _ := strconv.Atoi(s)`: the number, whatever the error.
abbrev pub value : Parsed ℤ → ℤ
value (Parsed.ok n) = n
value Parsed.syntax_error = pos 0
value (Parsed.range_error n) = n

-- The decimal digits of a number in front of a text, a round to a digit.
unfoldable pub print_from : ℕ → ℕ → Bytes → Bytes
print_from zero n out = out
print_from (suc fuel) n out =
    let more = print_from fuel (n / 10) ((b'0' + n % 10) ∷ out) in
    if ltb n 10 then (b'0' + n) ∷ out else more

-- `%d` of `fmt`. Twenty digits are enough for 64 bits.
unfoldable pub print_nat : ℕ → Bytes
unfolding print_from
print_nat n = print_from 20 n []

unfoldable pub print_int : ℤ → Bytes
unfolding print_nat
print_int (pos n) = print_nat n
print_int (negsuc n) = b'-' ∷ print_nat (suc n)
