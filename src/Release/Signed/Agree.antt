-- ===== src/Release/Signed/Agree.antt =====
-- agent/release.go and server/release.go: the two verifications accept the same releases.
use nodelume.Prelude.{
  text, ℕ, ◌≡◌, ◌↔◌, refl, ap, ◌∙◌, arith, Bool, true, false, List, [], ◌∷◌, Option, none, some,
  Bytes, Bool-cases, Option-cases, inl, inr, is_empty, if◌then◌else◌, str_eq, str_eq_iff, not,
}
use nodelume.Text.{trim_space, equal_fold, split, fields, trim_prefix, to_lower}
use nodelume.Release.{
  VerifyError, sized, last_word, words_checksum, line_checksum, find_checksum, checksum_for,
  check_signature, check_content, verify_release_bytes, base_name, or_next, non_empty,
}
use nodelume.Release.Manifest.{non_empty-checksum_for}
use nodelume.Release.Signed.{
  SignedFileError, last_field, line_want, wanted, is_malformed, bytes_of, check_manifest, check_sum,
  verify_signed_file,
}

last_field_lem : (w : Bytes) (vs : List Bytes) → last_field w vs ≡ last_word w vs
last_field_lem w [] = refl
last_field_lem w (v ∷ vs) = last_field_lem v vs

line_want_lem : (name : Bytes) (ws : List Bytes) → line_want name ws ≡ words_checksum name ws
line_want_lem name [] = refl
line_want_lem name (w ∷ []) = refl
line_want_lem name (w ∷ v ∷ vs) =
    ap (λ l. if str_eq (trim_prefix l (text "*")) name then some w else none) (last_field_lem v vs)

-- The two loops find the same checksum.
wanted-find_checksum :
    (name : Bytes) (lines : List Bytes) → wanted name lines ≡ bytes_of (find_checksum name lines)
unfolding wanted find_checksum line_checksum
wanted-find_checksum name [] = refl
wanted-find_checksum name (line ∷ rest) =
    let same = line_want_lem name (fields line) in
    elim (Option-cases (words_checksum name (fields line))) [
      | inl other ↦ rw (same ∙ other, wanted, find_checksum) (wanted-find_checksum name rest)
      | inr (w, found) ↦ rw (same ∙ found, wanted, find_checksum) refl
    ]

wanted_lem : (name cb : Bytes) → wanted name (split 10 cb) ≡ bytes_of (checksum_for cb name)
unfolding checksum_for
wanted_lem name cb = wanted-find_checksum name (split 10 cb)

sized_lem :
    (n : ℕ) (o : Option Bytes) → sized n o ≡ (if is_malformed n o then none else some (bytes_of o))
sized_lem n none = refl
sized_lem n (some raw) = ground arith

equal_fold_comm : (s t : Bytes) → equal_fold s t ≡ equal_fold t s
unfolding equal_fold
equal_fold_comm s t =
    ground (arith, str_eq_iff (to_lower s) (to_lower t), str_eq_iff (to_lower t) (to_lower s))

-- The next check, where the one before finds nothing.
abbrev or_then : Option SignedFileError → Option SignedFileError → Option SignedFileError
or_then (some e) next = some e
or_then none next = next

-- The checks one after the other, on the two sides.
both_checks :
    (bad_key bad_sig signed missing : Bool) (e1 e2 e3 e4 : SignedFileError) (f1 f2 f3 : VerifyError)
    (k : Option SignedFileError) (c : Option VerifyError)
    → (((missing ≡ false) × (k ≡ none)) ↔ (c ≡ none))
    → (or_then
          (if bad_key
            then some e1
            else if bad_sig
            then some e2
            else if not signed
            then some e3
            else if missing
            then some e4
            else none)
          k
        ≡ none)
      ↔ (or_next
            (if bad_key
              then some f1
              else if bad_sig
              then some f2
              else if signed
              then none
              else some f3)
            c
          ≡ none)
both_checks true bad_sig signed missing e1 e2 e3 e4 f1 f2 f3 k c same =
    ((λ h. absurd (cc h)), (λ h. absurd (cc h)))
both_checks false true signed missing e1 e2 e3 e4 f1 f2 f3 k c same =
    ((λ h. absurd (cc h)), (λ h. absurd (cc h)))
both_checks false false false missing e1 e2 e3 e4 f1 f2 f3 k c same =
    ((λ h. absurd (cc h)), (λ h. absurd (cc h)))
both_checks false false true true e1 e2 e3 e4 f1 f2 f3 k c same =
    ((λ h. absurd (cc h)), (λ h. absurd (cc (same.1 h).0)))
both_checks false false true false e1 e2 e3 e4 f1 f2 f3 k c same =
    ((λ h. same.0 (refl, h)), (λ h. (same.1 h).1))

module _ (decode_base64 : Bytes → Option Bytes) (ed25519_verify : Bytes → Bytes → Bytes → Bool)
    (sha256_hex : Bytes → Bytes) where
  check_signature_lem :
      (pb cb sb : Bytes)
      → check_signature decode_base64 ed25519_verify sha256_hex pb cb sb ≡ (
          if is_malformed 32 (decode_base64 (trim_space pb))
          then some VerifyError.bad_public_key
          else if is_malformed 64 (decode_base64 (trim_space sb))
          then some VerifyError.bad_signature
          else if ed25519_verify
              (bytes_of (decode_base64 (trim_space pb)))
              cb
              (bytes_of (decode_base64 (trim_space sb)))
          then none
          else some VerifyError.signature_mismatch)
  unfolding check_signature
  check_signature_lem pb cb sb =
      let key_raw = bytes_of (decode_base64 (trim_space pb)) in
      let sig_raw = bytes_of (decode_base64 (trim_space sb)) in
      let key = sized_lem 32 (decode_base64 (trim_space pb)) in
      let sig = sized_lem 64 (decode_base64 (trim_space sb)) in
      elim (Bool-cases (is_malformed 32 (decode_base64 (trim_space pb)))) [
        | inl bad ↦
            rw (key ∙ ap (λ b. if b then none else some key_raw) bad, check_signature, bad) refl
        | inr good ↦ elim (Bool-cases (is_malformed 64 (decode_base64 (trim_space sb)))) [
          | inl bad' ↦
              rw
                (
                  key ∙ ap (λ b. if b then none else some key_raw) good,
                  sig ∙ ap (λ b. if b then none else some sig_raw) bad',
                  check_signature,
                  good,
                  bad',
                )
                refl
          | inr good' ↦
              rw
                (
                  key ∙ ap (λ b. if b then none else some key_raw) good,
                  sig ∙ ap (λ b. if b then none else some sig_raw) good',
                  check_signature,
                  good,
                  good',
                )
                refl
        ]
      ]

  abbrev file_check : Bytes → Option Bytes → Bytes → Option SignedFileError
  file_check want none file = some (SignedFileError.unreadable file)
  file_check want (some content) file =
      check_sum decode_base64 ed25519_verify sha256_hex want content

  abbrev last_check : Bytes → Bytes → Bytes → Bytes → Option Bytes → Bytes → Option SignedFileError
  last_check name cb sb pb o file =
      or_then (check_manifest decode_base64 ed25519_verify sha256_hex name cb sb pb)
        (file_check (wanted name (split 10 cb)) o file)

  content_lem :
      (o : Option Bytes) (content : Bytes)
      → non_empty o ≡ o
      → ((is_empty (bytes_of o) ≡ false)
          × (check_sum decode_base64 ed25519_verify sha256_hex (bytes_of o) content ≡ none))
        ↔ (check_content decode_base64 ed25519_verify sha256_hex o (some content) ≡ none)
  unfolding check_sum check_content
  content_lem none content full = ground arith
  content_lem (some w) content full = ground (arith, equal_fold_comm w (sha256_hex content))

  last_check_lem :
      (name cb sb pb content file : Bytes)
      → (last_check name cb sb pb (some content) file ≡ none) ↔ (
          verify_release_bytes decode_base64 ed25519_verify sha256_hex name content cb sb (some pb)
          ≡ none)
  unfolding check_manifest verify_release_bytes
  last_check_lem name cb sb pb content file =
      let key_raw = decode_base64 (trim_space pb) in
      let sig_raw = decode_base64 (trim_space sb) in
      let want = wanted name (split 10 cb) in
      rw (check_signature_lem pb cb sb) (
        both_checks (is_malformed 32 key_raw) (is_malformed 64 sig_raw)
          (ed25519_verify (bytes_of key_raw) cb (bytes_of sig_raw)) (is_empty want) _ _ _ _ _ _ _
          (check_sum decode_base64 ed25519_verify sha256_hex want content)
          (check_content decode_base64 ed25519_verify sha256_hex (checksum_for cb name)
            (some content))
          (rw (wanted_lem name cb)
            (content_lem (checksum_for cb name) content (non_empty-checksum_for cb name))))

  verify_signed_file-read :
      (read : Bytes → Option Bytes) (file checksums signature pub_key content cb sb pb : Bytes)
      → read file ≡ some content
      → read checksums ≡ some cb
      → read signature ≡ some sb
      → read pub_key ≡ some pb
      → verify_signed_file decode_base64 ed25519_verify sha256_hex read file checksums signature
          pub_key
        ≡ last_check (base_name file) cb sb pb (some content) file
  unfolding verify_signed_file
  verify_signed_file-read read file checksums signature pub_key content cb sb pb f c s p =
      elim (Option-cases
        (check_manifest decode_base64 ed25519_verify sha256_hex (base_name file) cb sb pb)) [
          | inl m ↦ rw (c, s, p, m, f, verify_signed_file) refl
          | inr (e, m) ↦ rw (c, s, p, m, verify_signed_file) refl
        ]

  -- Where its three files can be read, the agent accepts a release exactly where the server accepts
  -- the three contents and the same public key, under the last part of the path of the file.
  pub verify_signed_file-bytes :
      (read : Bytes → Option Bytes) (file checksums signature pub_key content cb sb : Bytes)
      → read file ≡ some content
      → read checksums ≡ some cb
      → read signature ≡ some sb
      → (verify_signed_file decode_base64 ed25519_verify sha256_hex read file checksums signature
            pub_key
          ≡ none)
        ↔ (verify_release_bytes decode_base64 ed25519_verify sha256_hex
              (base_name file)
              content
              cb
              sb
              (read pub_key)
            ≡ none)
  unfolding verify_signed_file verify_release_bytes
  verify_signed_file-bytes read file checksums signature pub_key content cb sb f c s =
      elim (Option-cases (read pub_key)) [
        | inl unread ↦ rw (c, s, unread, verify_signed_file, verify_release_bytes) ground arith
        | inr (pb, p) ↦
            rw
              (
                verify_signed_file-read read file checksums signature pub_key content cb sb pb f c s
                    p,
                p,
              )
              (last_check_lem (base_name file) cb sb pb content file)
      ]
