-- ===== src/Server/Password.antt =====
-- server/main.go: `passwordKey`, `makePassword` and `checkPassword`. HMAC-SHA256 is a parameter.
pub mod Check
use nodelume.Prelude.{
  ℕ, zero, suc, ◌-◌, Bool, false, List, [], ◌∷◌, ◌++◌, Option, none, some, Bytes, str_eq, is_empty,
  if◌then◌else◌,
}
use nodelume.Text.Hex.{encode_hex, decode_hex, xor_byte}
use nodelume.Server.State.{PasswordRecord}

-- `for j := range out { out[j] ^= u[j] }`. Both are sums of the same digest, so no index is beyond
-- the end of the second.
unfoldable pub xor_into : Bytes → Bytes → Bytes
xor_into [] u = []
xor_into (x ∷ out) [] = x ∷ out
xor_into (x ∷ out) (y ∷ u) = xor_byte x y ∷ xor_into out u

abbrev pub key_iterations : ℕ
key_iterations = 180_000

module _ (mac : Bytes → Bytes → Bytes) where
  -- The rounds that are left, with `u` and `out`.
  unfoldable pub key_rounds : ℕ → Bytes → Bytes → Bytes → Bytes
  unfolding xor_into
  key_rounds zero password u out = out
  key_rounds (suc n) password u out =
      let u' = mac password u in key_rounds n password u' (xor_into out u')

  unfoldable pub password_key : Bytes → Bytes → ℕ → Bytes
  unfolding key_rounds
  password_key password salt iterations =
      let u = mac password (salt ++ 0 ∷ 0 ∷ 0 ∷ 1 ∷ []) in key_rounds (iterations - 1) password u u

  -- `salt` is the 16 random bytes.
  unfoldable pub make_password : Bytes → Bytes → PasswordRecord
  make_password salt pass = record {
    salt = encode_hex salt;
    hash = encode_hex (password_key pass salt key_iterations);
  }

  unfoldable pub check_password : Bytes → PasswordRecord → Bool
  check_password pass rec = elim (decode_hex rec.salt) [
    | none ↦ false
    | some salt ↦ elim (decode_hex rec.hash) [
      | none ↦ false
      | some want ↦
          if is_empty want then false else str_eq (password_key pass salt key_iterations) want
    ]
  ]
