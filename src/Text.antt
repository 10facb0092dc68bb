-- ===== src/Text.antt =====
-- The functions of Go's `strings`, `bytes` and `strconv` that the program calls, on lists of bytes.
mod Number
pub mod Hex
pub mod Plain
unfoldable pub use Number.*
use nodelume.Prelude.{
  ℕ, zero, suc, ◌+◌, ◌-◌, ◌*◌, ◌/◌, ◌%◌, Bool, true, false, not, ◌&&◌, ◌||◌, List, [], ◌∷◌, ◌++◌,
  map, Option, none, some, ltb, leb, ◌==◌, if◌then◌else◌, Bytes, str_eq, is_empty, length,
}
use mathlib.Core.List.{reverse}

-- The width of a white space character at the head of a text, 0 if there is none: `unicode.IsSpace`
-- over the UTF-8 encoding.
unfoldable pub space_width : Bytes → ℕ
space_width [] = 0
space_width (a ∷ []) = if (leb 9 a && leb a 13) || a == 32 then 1 else 0
space_width (a ∷ b ∷ []) =
    if (leb 9 a && leb a 13) || a == 32
    then 1
    else if a == 0xc2 && (b == 0x85 || b == 0xa0)
    then 2
    else 0
space_width (a ∷ b ∷ c ∷ _) =
    if (leb 9 a && leb a 13) || a == 32
    then 1
    else if a == 0xc2 && (b == 0x85 || b == 0xa0)
    then 2
    else if a == 0xe1 && b == 0x9a && c == 0x80
    then 3
    else if a == 0xe2
        && b == 0x80
        && ((leb 0x80 c && leb c 0x8a) || c == 0xa8 || c == 0xa9 || c == 0xaf)
    then 3
    else if a == 0xe2 && b == 0x81 && c == 0x9f
    then 3
    else if a == 0xe3 && b == 0x80 && c == 0x80
    then 3
    else 0

-- The same at the end of a text that is given back to front.
unfoldable pub last_space_width : Bytes → ℕ
unfolding space_width
last_space_width [] = 0
last_space_width (a ∷ []) = space_width (a ∷ [])
last_space_width (a ∷ b ∷ []) =
    if space_width (a ∷ []) == 1 then 1 else if space_width (b ∷ a ∷ []) == 2 then 2 else 0
last_space_width (a ∷ b ∷ c ∷ _) =
    if space_width (a ∷ []) == 1
    then 1
    else if space_width (b ∷ a ∷ []) == 2
    then 2
    else if space_width (c ∷ b ∷ a ∷ []) == 3
    then 3
    else 0

-- Drop the white space at the head, as `width` finds it; the number is what is left to skip of the
-- character at hand.
unfoldable pub skip_spaces : (Bytes → ℕ) → ℕ → Bytes → Bytes
skip_spaces width k [] = []
skip_spaces width (suc k) (c ∷ s) = skip_spaces width k s
skip_spaces width zero (c ∷ s) =
    let w = width (c ∷ s) in
    let rest = skip_spaces width (w - 1) s in if w == 0 then c ∷ s else rest

-- `strings.TrimSpace`
unfoldable pub trim_space : Bytes → Bytes
unfolding space_width last_space_width skip_spaces
trim_space s = reverse (skip_spaces last_space_width 0 (reverse (skip_spaces space_width 0 s)))

-- The text behind a prefix.
unfoldable pub cut_prefix : Bytes → Bytes → Option Bytes
cut_prefix [] s = some s
cut_prefix (_ ∷ _) [] = none
cut_prefix (p ∷ ps) (c ∷ s) = if p == c then cut_prefix ps s else none

-- `strings.HasPrefix(s, p)`
unfoldable pub has_prefix : Bytes → Bytes → Bool
unfolding cut_prefix
has_prefix s p = elim (cut_prefix p s) [ none ↦ false | some _ ↦ true ]

-- `strings.TrimPrefix(s, p)`
unfoldable pub trim_prefix : Bytes → Bytes → Bytes
unfolding cut_prefix
trim_prefix s p = elim (cut_prefix p s) [ none ↦ s | some rest ↦ rest ]

-- `strings.TrimLeft(s, string(c))` and `strings.TrimRight(s, string(c))`
unfoldable pub trim_left : Bytes → ℕ → Bytes
trim_left [] c = []
trim_left (x ∷ s) c = let rest = trim_left s c in if x == c then rest else x ∷ s

unfoldable pub trim_right : Bytes → ℕ → Bytes
unfolding trim_left
trim_right s c = reverse (trim_left (reverse s) c)

-- `strings.TrimSuffix(s, p)`
unfoldable pub trim_suffix : Bytes → Bytes → Bytes
unfolding trim_prefix
trim_suffix s p = reverse (trim_prefix (reverse s) (reverse p))

-- `strings.Contains(s, p)`
unfoldable pub contains : Bytes → Bytes → Bool
unfolding has_prefix
contains [] p = has_prefix [] p
contains (c ∷ s) p = if has_prefix (c ∷ s) p then true else contains s p

-- `strings.IndexByte(s, c)` as the texts before and behind the first `c`.
unfoldable pub cut_byte : ℕ → Bytes → Option (Bytes × Bytes)
cut_byte sep [] = none
cut_byte sep (c ∷ s) =
    if c == sep
    then some ([], s)
    else elim (cut_byte sep s) [ none ↦ none | some (a, b) ↦ some (c ∷ a, b) ]

-- `strings.Split(s, sep)` at a separator of one byte: the first part and the others.
abbrev pub with_head : ℕ → List Bytes → List Bytes
with_head c [] = (c ∷ []) ∷ []
with_head c (p ∷ ps) = (c ∷ p) ∷ ps

unfoldable pub split : ℕ → Bytes → List Bytes
split sep [] = [] ∷ []
split sep (c ∷ s) = let parts = split sep s in if c == sep then [] ∷ parts else with_head c parts

-- `strings.Fields`: the words between white space; the last two arguments are what is left to skip
-- of a space and the word so far, back to front.
unfoldable pub fields_from : Bytes → ℕ → Bytes → List Bytes
unfolding space_width
fields_from [] k word = if is_empty word then [] else reverse word ∷ []
fields_from (c ∷ s) (suc k) word = fields_from s k word
fields_from (c ∷ s) zero word =
    let w = space_width (c ∷ s) in
    let more = fields_from s 0 (c ∷ word) in
    let rest = fields_from s (w - 1) [] in
    if w == 0 then more else if is_empty word then rest else reverse word ∷ rest

unfoldable pub fields : Bytes → List Bytes
unfolding fields_from
fields s = fields_from s 0 []

-- `strings.ToLower` on ASCII text; other bytes stay.
unfoldable pub lower_byte : ℕ → ℕ
lower_byte c = if leb b'A' c && leb c b'Z' then c + 32 else c

unfoldable pub to_lower : Bytes → Bytes
unfolding lower_byte
to_lower = map lower_byte

-- `strings.EqualFold` on ASCII text.
unfoldable pub equal_fold : Bytes → Bytes → Bool
unfolding to_lower
equal_fold s t = str_eq (to_lower s) (to_lower t)

-- `strings.ReplaceAll(s, c, r)` for one byte `c`.
unfoldable pub replace_byte : ℕ → Bytes → Bytes → Bytes
replace_byte c r [] = []
replace_byte c r (x ∷ s) = if x == c then r ++ replace_byte c r s else x ∷ replace_byte c r s

-- `strings.Join(parts, sep)`
unfoldable pub join : List Bytes → Bytes → Bytes
join [] sep = []
join (p ∷ []) sep = p
join (p ∷ q ∷ ps) sep = p ++ sep ++ join (q ∷ ps) sep

-- The `len` of a string, and its first bytes.
abbrev pub is_digit : ℕ → Bool
is_digit c = leb b'0' c && leb c b'9'

abbrev pub is_letter : ℕ → Bool
is_letter c = (leb b'A' c && leb c b'Z') || (leb b'a' c && leb c b'z')
