-- ===== src/Server/Password/Check.antt =====
-- A password that was set is the one that passes the check.
use nodelume.Prelude.{
  ◌∙◌, ℕ, zero, suc, ◌-◌, ◌≡◌, refl, ap, arith, false, [], ◌∷◌, ◌++◌, Bytes, some, str_eq, is_empty,
  length,
}
use nodelume.Text.Hex.{is_empty-encode_hex, AllBytes, decode_hex, decode_hex-encode, xor_byte-lt}
use nodelume.Server.State.{PasswordRecord}
use nodelume.Server.Password.{
  xor_into, key_rounds, password_key, make_password, check_password, key_iterations,
}

-- The sums of the digest: 32 bytes.
pub record IsDigest (mac : Bytes → Bytes → Bytes) : Type 0 where
  pub bytes : (k m : Bytes) → AllBytes (mac k m)
  pub size : (k m : Bytes) → length (mac k m) ≡ 32

xor_into-AllBytes : (out u : Bytes) → AllBytes out → AllBytes (xor_into out u)
unfolding xor_into
xor_into-AllBytes [] u _ = tt
xor_into-AllBytes (x ∷ out) [] h = h
xor_into-AllBytes (x ∷ out) (y ∷ u) (_, h) = (xor_byte-lt x y, xor_into-AllBytes out u h)

length-xor_into : (out u : Bytes) → length (xor_into out u) ≡ length out
unfolding xor_into
length-xor_into [] u = refl
length-xor_into (x ∷ out) [] = refl
length-xor_into (x ∷ out) (y ∷ u) = ap suc (length-xor_into out u)

module _ (mac : Bytes → Bytes → Bytes) (digest : IsDigest mac) where
  key_rounds-AllBytes :
      (n : ℕ) (password u out : Bytes) → AllBytes out → AllBytes (key_rounds mac n password u out)
  unfolding key_rounds
  key_rounds-AllBytes zero password u out h = h
  key_rounds-AllBytes (suc n) password u out h =
      key_rounds-AllBytes n password (mac password u) _ (xor_into-AllBytes out (mac password u) h)

  length-key_rounds :
      (n : ℕ) (password u out : Bytes) → length (key_rounds mac n password u out) ≡ length out
  unfolding key_rounds
  length-key_rounds zero password u out = refl
  length-key_rounds (suc n) password u out = omega (
    arith,
    length-key_rounds n password (mac password u) (xor_into out (mac password u)),
    length-xor_into out (mac password u),
  )

  password_key-AllBytes : (pass salt : Bytes) (n : ℕ) → AllBytes (password_key mac pass salt n)
  unfolding password_key
  password_key-AllBytes pass salt n =
      key_rounds-AllBytes (n - 1) pass _ _ (digest.bytes pass (salt ++ 0 ∷ 0 ∷ 0 ∷ 1 ∷ []))

  pub length-password_key : (pass salt : Bytes) (n : ℕ) → length (password_key mac pass salt n) ≡ 32
  unfolding password_key
  length-password_key pass salt n =
      let first = mac pass (salt ++ 0 ∷ 0 ∷ 0 ∷ 1 ∷ []) in
      omega (
        arith,
        length-key_rounds (n - 1) pass first first,
        digest.size pass (salt ++ 0 ∷ 0 ∷ 0 ∷ 1 ∷ []),
      )

  is_empty_lem : (s : Bytes) → length s ≡ 32 → is_empty s ≡ false
  is_empty_lem [] h = absurd (omega arith)
  is_empty_lem (_ ∷ _) h = refl

  check_password_lem :
      (pass salt want : Bytes) (rec : PasswordRecord)
      → decode_hex rec.salt ≡ some salt
      → decode_hex rec.hash ≡ some want
      → is_empty want ≡ false
      → check_password mac pass rec ≡ str_eq (password_key mac pass salt key_iterations) want
  unfolding check_password
  check_password_lem pass salt want rec e f full = rw (e, f, full, check_password)

  salt_lem :
      (salt pass : Bytes)
      → AllBytes salt
      → decode_hex (make_password mac salt pass).salt ≡ some salt
  unfolding make_password
  salt_lem salt pass h = decode_hex-encode salt h

  hash_lem :
      (salt pass : Bytes)
      → decode_hex (make_password mac salt pass).hash
        ≡ some (password_key mac pass salt key_iterations)
  unfolding make_password
  hash_lem salt pass =
      decode_hex-encode (password_key mac pass salt key_iterations)
        (password_key-AllBytes pass salt key_iterations)

  -- The check of a password against the record of another compares their keys, for a digest of 32
  -- bytes: the hexadecimal text loses nothing, and the key is never empty.
  pub check_password-make :
      (pass pass' salt : Bytes)
      → AllBytes salt
      → check_password mac pass (make_password mac salt pass')
        ≡ str_eq
            (password_key mac pass salt key_iterations)
            (password_key mac pass' salt key_iterations)
  check_password-make pass pass' salt h =
      let key = password_key mac pass' salt key_iterations in
      check_password_lem pass salt key (make_password mac salt pass') (salt_lem salt pass' h)
        (hash_lem salt pass') (is_empty_lem key (length-password_key pass' salt key_iterations))

  -- A record of a password is never blank.
  pub make_password-hash : (salt pass : Bytes) → is_empty (make_password mac salt pass).hash ≡ false
  unfolding make_password
  make_password-hash salt pass =
      is_empty-encode_hex (password_key mac pass salt key_iterations)
      ∙ is_empty_lem (password_key mac pass salt key_iterations)
          (length-password_key pass salt key_iterations)
