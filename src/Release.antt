-- ===== src/Release.antt =====
-- The verification of signed releases on the server: `verifyReleaseFile`, `verifyReleaseBytes` and
-- `checksumFor` of server/release.go. Ed25519, SHA-256 and base64 are parameters, and so is what a
-- path reads as. The agent has a verification of its own, in the child module Signed.
pub mod Manifest
pub mod Accepts
pub mod Signed
use nodelume.Prelude.{
  ℕ, zero, suc, ◌+◌, Bool, true, false, not, ◌&&◌, ◌||◌, List, [], ◌∷◌, ◌++◌, Option, none, some,
  Bytes, text, str_eq, is_empty, length, leb, ◌==◌, if◌then◌else◌,
}
use nodelume.Text.{split, fields, trim_prefix, trim_space, equal_fold}

-- The last of some words.
abbrev pub last_word : Bytes → List Bytes → Bytes
last_word w [] = w
last_word w (v ∷ vs) = last_word v vs

-- The checksum on a line of the manifest, if the line is about the file.
abbrev pub words_checksum : Bytes → List Bytes → Option Bytes
words_checksum name [] = none
words_checksum name (w ∷ []) = none
words_checksum name (w ∷ v ∷ vs) =
    if str_eq (trim_prefix (last_word v vs) (text "*")) name then some w else none

unfoldable pub line_checksum : Bytes → Bytes → Option Bytes
line_checksum name line = words_checksum name (fields line)

-- The loop over the lines, which stops at the first that is about the file.
unfoldable pub find_checksum : Bytes → List Bytes → Option Bytes
find_checksum name [] = none
find_checksum name (line ∷ rest) = elim (line_checksum name line) [
  | none ↦ find_checksum name rest
  | some want ↦ some want
]

-- `checksumFor`
unfoldable pub checksum_for : Bytes → Bytes → Option Bytes
checksum_for manifest name = find_checksum name (split 10 manifest)

-- `filepath.Base` of a path that does not end in a slash.
unfoldable pub base_from : Bytes → Bytes → Bytes
base_from base [] = base
base_from base (c ∷ s) = if c == b'/' then base_from s s else base_from base s

unfoldable pub base_name : Bytes → Bytes
base_name path = base_from path path

-- What can go wrong on the server, in the order of the checks. Its two functions word some of the
-- errors differently; here each is the check that failed.
pub data VerifyError : Type 0 where
  missing_argument : VerifyError
  unreadable : VerifyError
  bad_public_key : VerifyError
  bad_signature : VerifyError
  signature_mismatch : VerifyError
  not_listed : VerifyError
  checksum_mismatch : VerifyError

abbrev pub key_size : ℕ
key_size = 32

abbrev pub signature_size : ℕ
signature_size = 64

-- A base64 text of a given size.
abbrev pub sized : ℕ → Option Bytes → Option Bytes
sized n none = none
sized n (some raw) = if length raw == n then some raw else none

abbrev pub or_next : Option VerifyError → Option VerifyError → Option VerifyError
or_next none next = next
or_next (some e) next = some e

-- The loop of the file checks keeps a checksum that is not empty.
abbrev pub non_empty : Option Bytes → Option Bytes
non_empty none = none
non_empty (some want) = if is_empty want then none else some want

module _ (decode_base64 : Bytes → Option Bytes) (ed25519_verify : Bytes → Bytes → Bytes → Bool)
    (sha256_hex : Bytes → Bytes) where
  -- The signature over the manifest; the error where it does not hold.
  unfoldable pub check_signature : Bytes → Bytes → Bytes → Option VerifyError
  check_signature public_key checksums signature =
      elim (sized key_size (decode_base64 (trim_space public_key))) [
        | none ↦ some VerifyError.bad_public_key
        | some pub_raw ↦ elim (sized signature_size (decode_base64 (trim_space signature))) [
          | none ↦ some VerifyError.bad_signature
          | some sig_raw ↦
              if ed25519_verify pub_raw checksums sig_raw
              then none
              else some VerifyError.signature_mismatch
        ]
      ]

  -- The checksum of the content against the manifest.
  unfoldable pub check_content : Option Bytes → Option Bytes → Option VerifyError
  check_content none content = some VerifyError.not_listed
  check_content (some want) none = some VerifyError.unreadable
  check_content (some want) (some content) =
      if equal_fold (sha256_hex content) want then none else some VerifyError.checksum_mismatch

  -- `verifyReleaseBytes`; the public key is what its path reads as.
  unfoldable pub verify_release_bytes :
      Bytes → Bytes → Bytes → Bytes → Option Bytes → Option VerifyError
  verify_release_bytes name content checksums signature none = some VerifyError.unreadable
  verify_release_bytes name content checksums signature (some public_key) =
      or_next (check_signature public_key checksums signature)
        (check_content (checksum_for checksums name) (some content))

  module _ (read : Bytes → Option Bytes) where
    -- `verifyReleaseFile` behind the test of its arguments.
    unfoldable pub verify_files : Bytes → Bytes → Bytes → Bytes → Option VerifyError
    verify_files file checksums signature pub_key = elim (read checksums) [
      | none ↦ some VerifyError.unreadable
      | some cb ↦ elim (read signature) [
        | none ↦ some VerifyError.unreadable
        | some sb ↦ elim (read pub_key) [
          | none ↦ some VerifyError.unreadable
          | some pb ↦
              or_next (check_signature pb cb sb)
                (check_content (non_empty (checksum_for cb (base_name file))) (read file))
        ]
      ]
    ]

    unfoldable pub verify_release_file : Bytes → Bytes → Bytes → Bytes → Option VerifyError
    verify_release_file file checksums signature pub_key =
        if is_empty file || is_empty checksums || is_empty signature || is_empty pub_key
        then some VerifyError.missing_argument
        else verify_files file checksums signature pub_key
