-- ===== src/Version.antt =====
-- server/main.go (and its copy in agent/main.go): `validVersion`, `compareVersion`, `validRepo`,
-- `validAdminPath` and `shellQuote`.
pub mod Order
pub mod Shell
use nodelume.Prelude.{
  ℕ, zero, suc, ◌+◌, Bool, true, false, not, ◌&&◌, ◌||◌, List, [], ◌∷◌, ◌++◌, ltb, leb, ◌==◌,
  if◌then◌else◌, Bytes, text, str_eq, is_empty, length, any,
}
use nodelume.Prelude.Int.{ℤ, pos, negsuc, ltb_ℤ}
use nodelume.Text.{
  trim_space, trim_prefix, has_prefix, split, replace_byte, is_digit, is_letter, Parsed, parse_int,
  value,
}

-- The loop of `validVersion`: every part is a number that is not negative.
abbrev is_count : Parsed ℤ → Bool
is_count (Parsed.ok n) = not (ltb_ℤ n (pos 0))
is_count _ = false

unfoldable pub all_counts : List Bytes → Bool
all_counts [] = true
all_counts (p ∷ ps) = if is_count (parse_int p) then all_counts ps else false

unfoldable pub valid_version : Bytes → Bool
unfolding all_counts
valid_version v =
    let ps = split b'.' (trim_prefix (trim_space v) (b'v' ∷ [])) in
    if length ps == 3 then all_counts ps else false

-- `parse` of `compareVersion`: at most three parts, 0 for those that are missing.
pub record Triple : Type 0 where
  pub major : ℤ
  pub minor : ℤ
  pub patch : ℤ

abbrev nth_value : List Bytes → ℕ → ℤ
nth_value [] i = pos 0
nth_value (p ∷ ps) zero = value (parse_int p)
nth_value (p ∷ ps) (suc i) = nth_value ps i

unfoldable pub parse_version : Bytes → Triple
parse_version v =
    let ps = split b'.' (trim_prefix v (b'v' ∷ [])) in
    record { major = nth_value ps 0; minor = nth_value ps 1; patch = nth_value ps 2 }

-- The loop over the three parts; the last argument is what the parts behind give.
unfoldable pub compare_part : ℤ → ℤ → ℤ → ℤ
compare_part x y rest = if ltb_ℤ x y then negsuc 0 else if ltb_ℤ y x then pos 1 else rest

unfoldable pub compare_triple : Triple → Triple → ℤ
unfolding compare_part
compare_triple x y =
    compare_part x.major y.major
      (compare_part x.minor y.minor (compare_part x.patch y.patch (pos 0)))

unfoldable pub compare_version : Bytes → Bytes → ℤ
unfolding parse_version compare_triple
compare_version a b = compare_triple (parse_version a) (parse_version b)

-- `validRepo`
abbrev repo_byte : ℕ → Bool
repo_byte c = c == b'-' || c == b'_' || c == b'.' || is_digit c || is_letter c

unfoldable pub all_bytes : (ℕ → Bool) → Bytes → Bool
all_bytes p [] = true
all_bytes p (c ∷ s) = if p c then all_bytes p s else false

unfoldable pub valid_parts : List Bytes → Bool
unfolding all_bytes
valid_parts (a ∷ b ∷ []) =
    if is_empty a || is_empty b then false else all_bytes repo_byte a && all_bytes repo_byte b
valid_parts _ = false

unfoldable pub valid_repo : Bytes → Bool
unfolding valid_parts
valid_repo repo = valid_parts (split b'/' repo)

-- `validAdminPath`. A rune that is no ASCII byte is refused, and so is every byte of it.
abbrev admin_byte : ℕ → Bool
admin_byte c = c == b'-' || c == b'_' || is_digit c || is_letter c

abbrev reserved_paths : List Bytes
reserved_paths = text "/api" ∷ text "/assets" ∷ text "/healthz" ∷ text "/install" ∷ []

unfoldable pub valid_admin_path : Bytes → Bool
unfolding all_bytes
valid_admin_path [] = false
valid_admin_path (c ∷ s) =
    if ltb (length (c ∷ s)) 2 || ltb 49 (length (c ∷ s)) || not (c == b'/')
    then false
    else if not (all_bytes admin_byte s)
    then false
    else not (any (has_prefix (c ∷ s)) reserved_paths)

-- `shellQuote`, and `quoteShellArg` of agent/helper.go.
unfoldable pub shell_quote : Bytes → Bytes
unfolding replace_byte
shell_quote s = b'\'' ∷ (replace_byte b'\'' (b'\'' ∷ b'\\' ∷ b'\'' ∷ b'\'' ∷ []) s ++ b'\'' ∷ [])
