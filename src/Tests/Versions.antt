-- ===== src/Tests/Versions.antt =====
-- Versions, names and quoted words.
use nodelume.Prelude.{◌≡◌, refl, true, false, [], ◌∷◌, text, str_eq}
use nodelume.Prelude.Int.{pos, negsuc}
use nodelume.Text.{
  space_width, last_space_width, skip_spaces, trim_space, cut_prefix, has_prefix, trim_prefix,
  split, replace_byte, scan_digits, parse_uint, parse_int, fields_from, fields, contains, print_nat,
}
use nodelume.Version.{
  all_counts, valid_version, parse_version, compare_part, compare_triple, compare_version,
  all_bytes, valid_parts, valid_repo, valid_admin_path, shell_quote,
}
use nodelume.Version.Shell.{read_word}

program : Unit {0}
unfolding text str_eq space_width last_space_width skip_spaces trim_space cut_prefix has_prefix
    trim_prefix split replace_byte scan_digits parse_uint parse_int fields_from fields contains
    all_counts valid_version parse_version compare_part compare_triple compare_version all_bytes
    valid_parts valid_repo valid_admin_path shell_quote read_word print_nat
program = tt

trims : trim_space (text " \t v1.2 \n") ≡ text "v1.2"
unfolding program
trims = refl

words : fields (text "ab  cd *ef\n") ≡ text "ab" ∷ text "cd" ∷ text "*ef" ∷ []
unfolding program
words = refl

versions :
    (valid_version (text " v1.0.2") ≡ true)
    × (valid_version (text "1.0") ≡ false)
    × (valid_version (text "1.0.x") ≡ false)
    × (compare_version (text "1.0.10") (text "v1.0.9") ≡ pos 1)
unfolding program
versions = (refl, refl, refl, refl)

repos : (valid_repo (text "chenb1522/nodelume") ≡ true) × (valid_repo (text "a/b/c") ≡ false)
unfolding program
repos = (refl, refl)

paths : (valid_admin_path (text "/panel-1") ≡ true) × (valid_admin_path (text "/apis") ≡ false)
unfolding program
paths = (refl, refl)

one_two : compare_version (text "1.0.1") (text "1.0.2") ≡ negsuc 0
unfolding program
one_two = refl

two_three : compare_version (text "1.0.2") (text "1.0.10") ≡ negsuc 0
unfolding program
two_three = refl
