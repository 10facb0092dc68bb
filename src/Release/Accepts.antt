-- ===== src/Release/Accepts.antt =====
-- server/release.go: when a release is accepted.
use nodelume.Prelude.{
  ℕ, ◌≡◌, refl, arith, Bool, true, Option, none, some, Bytes, length, Bool-cases, Option-cases, inl,
  inr,
}
use nodelume.Text.{trim_space, equal_fold, split}
use nodelume.Release.{
  VerifyError, check_signature, check_content, verify_release_bytes, checksum_for, sized, key_size,
  signature_size, or_next,
}
use nodelume.Release.Manifest.{Listed, checksum_for-Listed}

sized-some :
    (n : ℕ) (o : Option Bytes) (raw : Bytes)
    → sized n o ≡ some raw
    → (o ≡ some raw) × (length raw ≡ n)
sized-some n none raw h = absurd (cc)
sized-some n (some r) raw h = ground arith

or_next-none : (e f : Option VerifyError) → or_next e f ≡ none → (e ≡ none) × (f ≡ none)
or_next-none none f h = (refl, h)
or_next-none (some e) f h = absurd (cc)

module _ (decode_base64 : Bytes → Option Bytes) (ed25519_verify : Bytes → Bytes → Bytes → Bool)
    (sha256_hex : Bytes → Bytes) where
  -- A content that was accepted: key and signature have their sizes, the signature is that of the
  -- key over the manifest, and the manifest lists the checksum of the content under the name.
  pub record IsGenuine (name content checksums signature public_key : Bytes) : Type 0 where
    pub key : Bytes
    pub raw : Bytes
    pub want : Bytes
    pub key_decoded : decode_base64 (trim_space public_key) ≡ some key
    pub key_sized : length key ≡ key_size
    pub signature_decoded : decode_base64 (trim_space signature) ≡ some raw
    pub signature_sized : length raw ≡ signature_size
    pub signed : ed25519_verify key checksums raw ≡ true
    pub listed : Listed name (split 10 checksums) want
    pub matched : equal_fold (sha256_hex content) want ≡ true

  abbrev bytes_check : Bytes → Bytes → Bytes → Bytes → Option Bytes → Option VerifyError
  bytes_check = verify_release_bytes decode_base64 ed25519_verify sha256_hex

  pub check_signature-none :
      (public_key checksums signature : Bytes)
      → check_signature decode_base64 ed25519_verify sha256_hex public_key checksums signature
        ≡ none
      → (key : Bytes) × (raw : Bytes) × (sized key_size (decode_base64 (trim_space public_key))
          ≡ some key)
        × (sized signature_size (decode_base64 (trim_space signature)) ≡ some raw)
        × (ed25519_verify key checksums raw ≡ true)
  unfolding check_signature
  check_signature-none public_key checksums signature h =
      elim (Option-cases (sized key_size (decode_base64 (trim_space public_key)))) [
        | inl bad_key ↦ absurd (cc (rw (bad_key, check_signature) at h))
        | inr (key, k) ↦
            elim (Option-cases (sized signature_size (decode_base64 (trim_space signature)))) [
              | inl bad_signature ↦ absurd (cc (rw (k, bad_signature, check_signature) at h))
              | inr (raw, r) ↦ elim (Bool-cases (ed25519_verify key checksums raw)) [
                | inl good ↦ (key, raw, k, r, good)
                | inr forged ↦ absurd (cc (rw (k, r, forged, check_signature) at h))
              ]
            ]
      ]

  pub check_content-none :
      (want : Option Bytes) (content : Bytes)
      → check_content decode_base64 ed25519_verify sha256_hex want (some content) ≡ none
      → (w : Bytes) × (want ≡ some w) × (equal_fold (sha256_hex content) w ≡ true)
  unfolding check_content
  check_content-none none content h = absurd (cc)
  check_content-none (some w) content h = (w, refl, ground arith)

  -- Release data is accepted only where it is genuine: key and signature have their sizes, the
  -- signature is that of the key over the manifest, and the manifest lists the checksum of the
  -- content under the name.
  pub verify_release_bytes-IsGenuine :
      (name content checksums signature public_key : Bytes)
      → bytes_check name content checksums signature (some public_key) ≡ none
      → IsGenuine name content checksums signature public_key
  unfolding verify_release_bytes
  verify_release_bytes-IsGenuine name content checksums signature public_key h =
      let (first, second) = or_next-none _ _ h in
      let (key, raw, k, r, good) = check_signature-none public_key checksums signature first in
      let (w, found, same) = check_content-none (checksum_for checksums name) content second in
      let (k1, k2) = sized-some key_size _ key k in
      let (r1, r2) = sized-some signature_size _ raw r in
      record {
        key = key;
        raw = raw;
        want = w;
        key_decoded = k1;
        key_sized = k2;
        signature_decoded = r1;
        signature_sized = r2;
        signed = good;
        listed = checksum_for-Listed checksums name w found;
        matched = same;
      }
