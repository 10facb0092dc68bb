-- ===== src/Tests/Signing.antt =====
-- What the agent signs, against the server.
use nodelume.Prelude.{◌*◌, ◌≡◌, refl, arith, [], ◌∷◌, some, Bytes, str_eq}
use nodelume.Prelude.Int.{◌-ℤ◌}
use nodelume.Prelude.Map.{find, delete, delete_where}
use nodelume.Text.{print_nat, print_from}
use nodelume.Text.Plain.{AllPlain}
use nodelume.Server.State.{second}
use nodelume.Server.Auth.{Request, AuthResult, live_nonces, abs64, is_skewed, auth_agent_detailed}
use nodelume.Agent.Sign.{Config, sign_request}
use nodelume.Agent.Sign.Accepted.{CanSign, sign_request-accepted}
use nodelume.Tests.Data.{hash, order, node_a, app}

program : Unit {0}
unfolding find delete delete_where str_eq print_nat print_from live_nonces ◌-ℤ◌ abs64 is_skewed
    sign_request
program = tt

-- A digest that is a printable text.
abbrev mac : Bytes → Bytes → Bytes
mac k m = b'f' ∷ b'0' ∷ []

abbrev config : Config
config = record { node_id = b'a' ∷ []; secret = b's' ∷ [] }

abbrev request : Request
request = record {
  method = b'P' ∷ [];
  request_uri = b'/' ∷ [];
  node_id = [];
  timestamp = [];
  nonce = [];
  signature = [];
  authorization = [];
  body = some (b'{' ∷ b'}' ∷ []);
}

stamped :
    (sign_request hash mac config 50 (b'x' ∷ []) (b'{' ∷ b'}' ∷ []) request).timestamp
    ≡ b'5' ∷ b'0' ∷ []
unfolding program
stamped = refl

can : CanSign hash mac order app (50 * second) 50 config (b'x' ∷ []) (b'{' ∷ b'}' ∷ []) request
unfolding program
can = record {
  node = node_a;
  found = refl;
  registered = refl;
  own_secret = refl;
  id_full = refl;
  id_plain = (omega arith, omega arith, tt);
  secret_full = refl;
  nonce_full = refl;
  nonce_plain = (omega arith, omega arith, tt);
  carried = refl;
  short = omega arith;
  in_range = omega arith;
  on_time = refl;
  nonce_new = refl;
}

mac_plain : (k m : Bytes) → AllPlain (mac k m)
mac_plain k m = (omega arith, omega arith, (omega arith, omega arith, tt))

sign_request-accepted_example :
    (auth_agent_detailed hash mac order app
      (50 * second)
      (sign_request hash mac config 50 (b'x' ∷ []) (b'{' ∷ b'}' ∷ []) request)).1
    ≡ AuthResult.accepted (b'a' ∷ [])
sign_request-accepted_example =
    sign_request-accepted hash mac order app (50 * second) 50 config (b'x' ∷ []) (b'{' ∷ b'}' ∷ [])
      request can (λ k m. refl) mac_plain
