-- ===== src/Release/Signed.antt =====
-- agent/release.go, `verifySignedFile`: the verification of a downloaded release on the agent, with
-- the texts of its errors. Ed25519, SHA-256 and base64 are parameters, and so is what a path reads
-- as; an error of a read is the path that could not be read.
pub mod Agree
use nodelume.Prelude.{
  true, ℕ, List, [], ◌∷◌, Option, none, some, Bytes, Bool, text, str_eq, is_empty, length, ◌==◌,
  if◌then◌else◌, not, ◌||◌,
}
use nodelume.Text.{split, fields, trim_prefix, trim_space, equal_fold}
use nodelume.Release.{base_name}

-- An error of `os.ReadFile`, or one of the function's own.
pub data SignedFileError : Type 0 where
  unreadable : Bytes → SignedFileError
  refused : Bytes → SignedFileError

-- `f[len(f)-1]`
abbrev pub last_field : Bytes → List Bytes → Bytes
last_field f [] = f
last_field f (g ∷ gs) = last_field g gs

-- Does the line end in the name, and what does it begin with?
abbrev pub line_want : Bytes → List Bytes → Option Bytes
line_want name (f ∷ g ∷ gs) =
    if str_eq (trim_prefix (last_field g gs) (text "*")) name then some f else none
line_want name _ = none

-- The loop, which leaves at the first such line; `want` is empty where there is none.
unfoldable pub wanted : Bytes → List Bytes → Bytes
wanted name [] = []
wanted name (line ∷ rest) = elim (line_want name (fields line)) [
  | none ↦ wanted name rest
  | some want ↦ want
]

-- `err != nil || len(raw) != n`
abbrev pub is_malformed : ℕ → Option Bytes → Bool
is_malformed n none = true
is_malformed n (some raw) = not (length raw == n)

abbrev pub bytes_of : Option Bytes → Bytes
bytes_of none = []
bytes_of (some raw) = raw

module _ (decode_base64 : Bytes → Option Bytes) (ed25519_verify : Bytes → Bytes → Bytes → Bool)
    (sha256_hex : Bytes → Bytes) where
  -- From the three contents on, before the file is read.
  unfoldable pub check_manifest : Bytes → Bytes → Bytes → Bytes → Option SignedFileError
  check_manifest name cb sb pb =
      let key = decode_base64 (trim_space pb) in
      let sig = decode_base64 (trim_space sb) in
      if is_malformed 32 key
      then some (SignedFileError.refused (text "Ed25519 公钥无效"))
      else if is_malformed 64 sig
      then some (SignedFileError.refused (text "Ed25519 签名无效"))
      else if not (ed25519_verify (bytes_of key) cb (bytes_of sig))
      then some (SignedFileError.refused (text "签名不匹配"))
      else if is_empty (wanted name (split 10 cb))
      then some (SignedFileError.refused (text "校验清单中缺少目标二进制"))
      else none

  -- The file against the checksum.
  unfoldable pub check_sum : Bytes → Bytes → Option SignedFileError
  check_sum want content =
      if not (equal_fold want (sha256_hex content))
      then some (SignedFileError.refused (text "SHA256 校验不匹配"))
      else none

  unfoldable pub verify_signed_file :
      (Bytes → Option Bytes) → Bytes → Bytes → Bytes → Bytes → Option SignedFileError
  verify_signed_file read file checksums signature pub_key = elim (read checksums) [
    | none ↦ some (SignedFileError.unreadable checksums)
    | some cb ↦ elim (read signature) [
      | none ↦ some (SignedFileError.unreadable signature)
      | some sb ↦ elim (read pub_key) [
        | none ↦ some (SignedFileError.unreadable pub_key)
        | some pb ↦ elim (check_manifest (base_name file) cb sb pb) [
          | some e ↦ some e
          | none ↦ elim (read file) [
            | none ↦ some (SignedFileError.unreadable file)
            | some content ↦ check_sum (wanted (base_name file) (split 10 cb)) content
          ]
        ]
      ]
    ]
  ]
