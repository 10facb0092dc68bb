-- ===== src/Agent/Sign.antt =====
-- agent/main.go, `signRequest`: the agent signs a request with its secret. The hex digests of SHA-256
-- and HMAC-SHA256 are parameters, and the random nonce is an argument.
pub mod Accepted
use nodelume.Prelude.{
  ℕ, Bool, true, false, ◌||◌, List, [], ◌∷◌, ◌++◌, some, Bytes, is_empty, if◌then◌else◌,
}
use nodelume.Text.{print_nat}
use nodelume.Server.Auth.{Request}

-- What signing reads of `Config`.
pub record Config : Type 0 where
  pub node_id : Bytes
  pub secret : Bytes

-- The headers that are set; without an id or a secret there are none.
unfoldable pub sign_request :
    (Bytes → Bytes) → (Bytes → Bytes → Bytes) → Config → ℕ → Bytes → Bytes → Request → Request
sign_request sha256_hex hmac_hex c seconds nonce body r =
    let ts = print_nat seconds in
    let message =
      r.method ++ 10 ∷ (r.request_uri ++ 10 ∷ (ts ++ 10 ∷ (nonce ++ 10 ∷ sha256_hex body))) in
    if is_empty c.node_id || is_empty c.secret then r else record r {
      node_id = c.node_id;
      timestamp = ts;
      nonce = nonce;
      signature = hmac_hex c.secret message;
    }
