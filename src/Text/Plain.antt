-- ===== src/Text/Plain.antt =====
-- Texts of printable ASCII: nothing is trimmed from them, and a printed number is one.
use mathlib.Core.List.{reverse, reverse-cons, reverse-reverse}
use mathlib.Core.Path.{subst}
use nodelume.Prelude.{
  ℕ, zero, suc, ◌+◌, ◌-◌, ◌*◌, ◌/◌, ◌%◌, ◌^◌, ◌<◌, ◌≤◌, ◌≡◌, refl, ap, ◌∙◌, sym, arith, true, false,
  [], ◌∷◌, ◌++◌, Bytes, is_empty, ltb, ◌==◌, if◌then◌else◌, Bool-cases, inl, inr,
}
use nodelume.Prelude.Int.{pos}
use nodelume.Text.{
  space_width, last_space_width, skip_spaces, trim_space, scan_digits, parse_uint, parse_int,
  print_from, print_nat, Parsed,
}

-- The bytes from `!` to `~`.
abbrev pub AllPlain : Bytes → Type 0
AllPlain [] = Unit
AllPlain (c ∷ s) = (33 ≤ c) × (c < 127) × AllPlain s

AllPlain-append : (s t : Bytes) → AllPlain s → AllPlain t → AllPlain (s ++ t)
AllPlain-append [] t hs ht = ht
AllPlain-append (c ∷ s) t (a, b, hs) ht = (a, b, AllPlain-append s t hs ht)

AllPlain-reverse : (s : Bytes) → AllPlain s → AllPlain (reverse s)
AllPlain-reverse [] h = tt
AllPlain-reverse (c ∷ s) (a, b, h) =
    rw (reverse-cons c s) (AllPlain-append (reverse s) (c ∷ []) (AllPlain-reverse s h) (a, b, tt))

space_width-plain : (c : ℕ) (s : Bytes) → 33 ≤ c → c < 127 → space_width (c ∷ s) ≡ 0
unfolding space_width
space_width-plain c [] a b = ground arith
space_width-plain c (d ∷ []) a b = ground arith
space_width-plain c (d ∷ e ∷ s) a b = ground arith

two_wide : (d c : ℕ) → c < 127 → (space_width (d ∷ c ∷ []) == 2) ≡ false
unfolding space_width
two_wide d c b = ground arith

three_wide : (e d c : ℕ) → c < 127 → (space_width (e ∷ d ∷ c ∷ []) == 3) ≡ false
unfolding space_width
three_wide e d c b = ground arith

last_space_width-plain : (c : ℕ) (s : Bytes) → 33 ≤ c → c < 127 → last_space_width (c ∷ s) ≡ 0
unfolding last_space_width
last_space_width-plain c [] a b = space_width-plain c [] a b
last_space_width-plain c (d ∷ []) a b =
    rw (space_width-plain c [] a b, last_space_width, two_wide d c b)
last_space_width-plain c (d ∷ e ∷ s) a b =
    rw (space_width-plain c [] a b, last_space_width, two_wide d c b, three_wide e d c b)

skip_spaces-plain :
    (width : Bytes → ℕ) (s : Bytes)
    → ((c : ℕ) (rest : Bytes) → 33 ≤ c → c < 127 → width (c ∷ rest) ≡ 0)
    → AllPlain s
    → skip_spaces width 0 s ≡ s
unfolding skip_spaces
skip_spaces-plain width [] none_wide h = refl
skip_spaces-plain width (c ∷ s) none_wide (a, b, h) = rw (none_wide c s a b)

-- Nothing is trimmed.
pub trim_space-plain : (s : Bytes) → AllPlain s → trim_space s ≡ s
unfolding trim_space
trim_space-plain s h =
    ap (λ t. reverse (skip_spaces last_space_width 0 (reverse t)))
      (skip_spaces-plain space_width s space_width-plain h)
    ∙ ap reverse (
        skip_spaces-plain last_space_width (reverse s) last_space_width-plain
          (AllPlain-reverse s h))
    ∙ reverse-reverse s

digit-plain : (d : ℕ) (s : Bytes) → d < 10 → AllPlain s → AllPlain ((b'0' + d) ∷ s)
digit-plain d s h r = (omega arith, omega arith, r)

print_from-plain : (fuel n : ℕ) (s : Bytes) → AllPlain s → AllPlain (print_from fuel n s)
unfolding print_from
print_from-plain zero n s h = h
print_from-plain (suc fuel) n s h =
    let more = print_from fuel (n / 10) ((b'0' + n % 10) ∷ s) in
    elim (Bool-cases (ltb n 10)) [
      | inl small ↦
          subst (λ b. AllPlain (if b then (b'0' + n) ∷ s else more)) (sym small)
            (digit-plain n s (ground arith) h)
      | inr large ↦
          subst (λ b. AllPlain (if b then (b'0' + n) ∷ s else more)) (sym large)
            (print_from-plain fuel (n / 10) ((b'0' + n % 10) ∷ s)
              (digit-plain (n % 10) s (omega arith) h))
    ]

-- Reading a digit.
scan_digits-digit :
    (d n : ℕ) (s : Bytes)
    → d < 10
    → n * 10 + d < 2 ^ 64
    → scan_digits ((b'0' + d) ∷ s) n ≡ scan_digits s (n * 10 + d)
unfolding scan_digits
scan_digits-digit d n s h k =
    let low : ltb (b'0' + d) b'0' ≡ false = ground arith in
    let high : ltb b'9' (b'0' + d) ≡ false = ground arith in
    let fits : ltb (2 ^ 64 - 1) (n * 10 + (b'0' + d - b'0')) ≡ false = ground arith in
    rw (low, high, fits) (ap (λ m. scan_digits s (n * 10 + m)) (omega arith))

scan_digits-print :
    (fuel n : ℕ) (s : Bytes)
    → n < 10 ^ fuel
    → n < 2 ^ 64
    → scan_digits (print_from fuel n s) 0 ≡ scan_digits s n
unfolding print_from
scan_digits-print zero n s h k = ap (scan_digits s) (omega arith)
scan_digits-print (suc fuel) n s h k =
    let more = print_from fuel (n / 10) ((b'0' + n % 10) ∷ s) in
    elim (Bool-cases (ltb n 10)) [
      | inl small ↦
          ap (λ b. scan_digits (if b then (b'0' + n) ∷ s else more) 0) small
          ∙ scan_digits-digit n 0 s (ground arith) (ground arith)
          ∙ ap (scan_digits s) (omega arith)
      | inr large ↦
          ap (λ b. scan_digits (if b then (b'0' + n) ∷ s else more) 0) large
          ∙ scan_digits-print fuel (n / 10) ((b'0' + n % 10) ∷ s) (omega arith) (omega arith)
          ∙ scan_digits-digit (n % 10) (n / 10) s (omega arith) (omega arith)
          ∙ ap (scan_digits s) (omega arith)
    ]

pub print_nat-plain : (n : ℕ) → AllPlain (print_nat n)
unfolding print_nat
print_nat-plain n = print_from-plain 20 n [] tt

-- A text that begins with no sign.
abbrev Headed : Bytes → Type 0
Headed s = (c : ℕ) × (rest : Bytes) × (s ≡ c ∷ rest) × (48 ≤ c)

print_from-Headed : (fuel n : ℕ) (s : Bytes) → Headed s → Headed (print_from fuel n s)
unfolding print_from
print_from-Headed zero n s h = h
print_from-Headed (suc fuel) n s h =
    let more = print_from fuel (n / 10) ((b'0' + n % 10) ∷ s) in
    elim (Bool-cases (ltb n 10)) [
      | inl small ↦
          subst (λ b. Headed (if b then (b'0' + n) ∷ s else more)) (sym small)
            (b'0' + n, s, refl, omega arith)
      | inr large ↦
          subst (λ b. Headed (if b then (b'0' + n) ∷ s else more)) (sym large)
            (print_from-Headed fuel (n / 10) ((b'0' + n % 10) ∷ s)
              (b'0' + n % 10, s, refl, omega arith))
    ]

print_some-Headed : (fuel n : ℕ) → Headed (print_from (suc fuel) n [])
unfolding print_from
print_some-Headed fuel n =
    let more = print_from fuel (n / 10) ((b'0' + n % 10) ∷ []) in
    elim (Bool-cases (ltb n 10)) [
      | inl small ↦
          subst (λ b. Headed (if b then (b'0' + n) ∷ [] else more)) (sym small)
            (b'0' + n, [], refl, omega arith)
      | inr large ↦
          subst (λ b. Headed (if b then (b'0' + n) ∷ [] else more)) (sym large)
            (print_from-Headed fuel (n / 10) ((b'0' + n % 10) ∷ [])
              (b'0' + n % 10, [], refl, omega arith))
    ]

print_nat-Headed : (n : ℕ) → Headed (print_nat n)
unfolding print_nat
print_nat-Headed n = print_some-Headed 19 n

print_nat-scanned : (n : ℕ) → n < 2 ^ 63 → scan_digits (print_nat n) 0 ≡ Parsed.ok n
unfolding print_nat scan_digits
print_nat-scanned n h = scan_digits-print 20 n [] (omega arith) (omega arith)

parse_int-scanned :
    (c n : ℕ) (s : Bytes)
    → 48 ≤ c
    → n < 2 ^ 63
    → scan_digits (c ∷ s) 0 ≡ Parsed.ok n
    → parse_int (c ∷ s) ≡ Parsed.ok (pos n)
unfolding parse_int parse_uint
parse_int-scanned c n s h k e =
    let minus : (c == b'-') ≡ false = ground arith in
    let plus : (c == b'+') ≡ false = ground arith in
    let fits : ltb n (2 ^ 63) ≡ true = ground arith in rw (minus, plus, e, fits)

-- A 64-bit number is read back.
pub parse_int-print_nat : (n : ℕ) → n < 2 ^ 63 → parse_int (print_nat n) ≡ Parsed.ok (pos n)
parse_int-print_nat n h =
    let (c, rest, same, digit) = print_nat-Headed n in
    ap parse_int same
    ∙ parse_int-scanned c n rest digit h
        (ap (λ t. scan_digits t 0) (sym same) ∙ print_nat-scanned n h)

pub print_nat-full : (n : ℕ) → is_empty (print_nat n) ≡ false
print_nat-full n = let (c, rest, same, _) = print_nat-Headed n in ap is_empty same
