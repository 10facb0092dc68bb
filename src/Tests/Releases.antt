-- ===== src/Tests/Releases.antt =====
-- Signed releases.
use nodelume.Prelude.{
  ◌↔◌, Bool, if◌then◌else◌, ◌≡◌, refl, ◌&&◌, Option, none, some, Bytes, text, str_eq, replicate,
}
use nodelume.Text.{
  equal_fold, to_lower, lower_byte, cut_prefix, skip_spaces, last_space_width, space_width, split,
  fields, fields_from, trim_prefix, trim_space,
}
use nodelume.Release.{
  VerifyError, line_checksum, find_checksum, checksum_for, base_from, base_name, check_signature,
  check_content, verify_release_bytes, verify_files, verify_release_file,
}
use nodelume.Release.Accepts.{IsGenuine, verify_release_bytes-IsGenuine}
use nodelume.Release.Signed.{SignedFileError, wanted, check_manifest, check_sum, verify_signed_file}
use nodelume.Release.Signed.Agree.{verify_signed_file-bytes}
use nodelume.Tests.Data.{hash}

program : Unit {0}
unfolding text str_eq space_width last_space_width skip_spaces trim_space cut_prefix trim_prefix
    split fields_from fields lower_byte to_lower equal_fold line_checksum find_checksum checksum_for
    base_from base_name check_signature check_content verify_release_bytes verify_files
    verify_release_file wanted check_manifest check_sum verify_signed_file
program = tt

-- A key of 32 bytes, a signature of 64, and base64 that stands for itself.
abbrev key : Bytes
key = replicate 32 b'k'

abbrev signature : Bytes
signature = replicate 64 b's'

abbrev plain : Bytes → Option Bytes
plain s = some s

abbrev signs : Bytes → Bytes → Bytes → Bool
signs k message s = str_eq k key && str_eq s signature

abbrev manifest : Bytes
manifest = text "00  other\nab  *app\n"

abbrev files : Bytes → Option Bytes
files path =
    if str_eq path (text "d/app")
    then some (text "AB")
    else if str_eq path (text "sums")
    then some manifest
    else if str_eq path (text "sig")
    then some signature
    else if str_eq path (text "pub")
    then some key
    else none

checks :
    (checksum_for manifest (text "app") ≡ some (text "ab"))
    × (base_name (text "d/app") ≡ text "app")
    × (verify_release_bytes plain signs hash (text "app") (text "AC") manifest signature (some key)
        ≡ some VerifyError.checksum_mismatch)
    × (verify_release_file plain signs hash files
          (text "d/app")
          (text "sums")
          (text "sig")
          (text "pub")
        ≡ none)
unfolding program
checks = (refl, refl, refl, refl)

accepted :
    verify_release_bytes plain signs hash (text "app") (text "AB") manifest signature (some key)
    ≡ none
unfolding program
accepted = refl

verify_release_bytes-IsGenuine_example :
    IsGenuine plain signs hash (text "app") (text "AB") manifest signature key
verify_release_bytes-IsGenuine_example =
    verify_release_bytes-IsGenuine plain signs hash (text "app") (text "AB") manifest signature key
      accepted

read_app : files (text "d/app") ≡ some (text "AB")
unfolding program
read_app = refl

read_sums : files (text "sums") ≡ some manifest
unfolding program
read_sums = refl

read_sig : files (text "sig") ≡ some signature
unfolding program
read_sig = refl

verify_signed_file-bytes_example :
    (verify_signed_file plain signs hash files
        (text "d/app")
        (text "sums")
        (text "sig")
        (text "pub")
      ≡ none)
    ↔ (verify_release_bytes plain signs hash
          (base_name (text "d/app"))
          (text "AB")
          manifest
          signature
          (files (text "pub"))
        ≡ none)
verify_signed_file-bytes_example =
    verify_signed_file-bytes plain signs hash files (text "d/app") (text "sums") (text "sig")
      (text "pub") (text "AB") manifest signature read_app read_sums read_sig

-- A signature of another size is refused in the words of the agent.
refused_here :
    verify_signed_file plain signs hash files
      (text "d/app")
      (text "sums")
      (text "sums")
      (text "pub")
    ≡ some (SignedFileError.refused (text "Ed25519 签名无效"))
unfolding program
refused_here = refl
