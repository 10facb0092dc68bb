-- ===== src/Tests/Enrollment.antt =====
-- Registrations with a one-time and with a reusable token.
use nodelume.Prelude.{
  List, str_eq_iff, ℕ, ◌+◌, ◌*◌, ◌≡◌, ◌≢◌, refl, true, false, ◌&&◌, ◌||◌, [], ◌∷◌, Option, none,
  some, arith, Bytes, text, str_eq, leb, is_empty,
}
use nodelume.Prelude.Int.{pos}
use nodelume.Prelude.Map.{find, insert, delete}
use nodelume.Text.{
  space_width, last_space_width, skip_spaces, trim_space, cut_prefix, trim_prefix, print_nat,
  print_int,
}
use nodelume.Server.State.{App, Reply, second, unix, audit_locked}
use nodelume.Server.RateLimit.{admit, allow_enrollment}
use nodelume.Server.Auth.{valid_secret, signature_accepted}
use nodelume.Server.Register.{
  RegisterInput, Identity, Environment, new_runtime_node, joined_name, joined_node, enrolled_system,
  ensure_runtime, find_receipt, find_enrollment, enroll_node, receipt_key,
}
use nodelume.Server.Register.Handler.{
  finish, enroll_new, enroll_named, enroll, redeem, register_input, agent_register,
}
use nodelume.Server.Register.Tokens.{serve_registrations, agent_register_once}
use nodelume.Server.Register.Receipts.{IsKeyed, agent_register_retry}
use nodelume.Server.Register.Rotation.{enroll_node-signature, agent_register-IsKeyed}
use nodelume.Tests.Data.{hash, hmac_hex, blank, linux, node_a, one_time, app}

program : Unit {0}
unfolding space_width last_space_width skip_spaces trim_space cut_prefix trim_prefix print_nat
    print_int find insert delete audit_locked admit allow_enrollment new_runtime_node joined_name
    joined_node enrolled_system ensure_runtime find_receipt find_enrollment enroll_node receipt_key
    finish enroll_new enroll_named enroll redeem register_input agent_register str_eq
program = tt

abbrev input : Bytes → Bytes → RegisterInput
input token enrollment_id = record {
  token = token;
  name = [];
  enrollment_id = enrollment_id;
  agent_version = [];
  protocol = pos 1;
  system = linux;
}

abbrev env : ℕ → Environment
env t = record {
  now = t * second;
  ip = b'i' ∷ [];
  fresh_id = b'b' ∷ [];
  fresh_secret = b'z' ∷ [];
  saved = true;
}

abbrev register : Option RegisterInput → Environment → App ℕ → App ℕ × Reply Identity
register = agent_register hash blank

abbrev first : RegisterInput
first = input (b't' ∷ []) []

abbrev with_id : RegisterInput
with_id = input (b't' ∷ []) (b'e' ∷ [])

abbrev identity : Identity
identity = record {
  node_id = b'a' ∷ [];
  node_name = b'n' ∷ [];
  secret = b'z' ∷ [];
  report_interval_sec = pos 2;
}

first_ok : (register (some first) (env 100) app).1 ≡ Reply.ok 200 identity
unfolding program
first_ok = refl

with_id_ok : (register (some with_id) (env 100) app).1 ≡ Reply.ok 200 identity
unfolding program
with_id_ok = refl

-- A reusable token makes a node of its own and stays.
joins :
    ((register (some (input (b'r' ∷ []) [])) (env 100) app).1
      ≡ Reply.ok 200 (record identity { node_id = b'b' ∷ []; node_name = text "node-b" }))
    × (find (b'r' ∷ []) (register (some (input (b'r' ∷ []) [])) (env 100) app).0.state.enrollments
        ≡ some (record { node_id = []; name = []; expires_at = 0; reusable = true; joined = 4 }))
unfolding program text
joins = (refl, refl)

blank_receipt :
    find_receipt (receipt_key hash first (trim_space first.token)) (unix (env 100).now) app ≡ none
unfolding program
blank_receipt = refl

blank_id : is_empty (trim_space first.enrollment_id) ≡ true
unfolding program
blank_id = refl

own_key : is_empty (receipt_key hash with_id (trim_space with_id.token)) ≡ false
unfolding program
own_key = refl

fresh_key :
    find_receipt (receipt_key hash with_id (trim_space with_id.token)) (unix (env 100).now) app
    ≡ none
unfolding program
fresh_key = refl

known : find (hash (trim_space first.token)) app.state.enrollments ≡ some one_time
unfolding program
known = refl

abbrev between : List (Option RegisterInput × Environment)
between = (some (input (b'r' ∷ []) []), env 101) ∷ (some with_id, env 102) ∷ (none, env 103) ∷ []

agent_register_once_example :
    (register
      (some first)
      (env 105)
      (serve_registrations hash blank between (register (some first) (env 100) app).0)).1
    ≢ Reply.ok 200 identity
agent_register_once_example =
    agent_register_once hash blank first first (env 100) (env 105) app one_time 200 200 identity
      identity between blank_receipt known refl first_ok refl blank_id

app-IsKeyed : IsKeyed app.state
unfolding find
app-IsKeyed id n h = ground (arith, str_eq_iff (b'a' ∷ []) id)

admitted :
    (allow_enrollment (unix (env 105).now) (env 105).ip (register (some with_id) (env 100) app).0).1
    ≡ true
unfolding program
admitted = refl

agent_register_retry_example :
    register (some with_id) (env 105) (register (some with_id) (env 100) app).0 ≡ (
      (allow_enrollment
          (unix (env 105).now)
          (env 105).ip
          (register (some with_id) (env 100) app).0).0,
      Reply.ok 200 identity,
    )
agent_register_retry_example =
    agent_register_retry hash blank with_id (env 100) (env 105) app 200 identity app-IsKeyed own_key
      fresh_key with_id_ok (omega arith) admitted

agent_register-IsKeyed_example : IsKeyed (register (some first) (env 100) app).0.state
agent_register-IsKeyed_example =
    agent_register-IsKeyed hash blank (some first) (env 100) app app-IsKeyed

enroll_node-signature_example :
    signature_accepted hash hmac_hex (enroll_node hash first (env 100) node_a) 130 [] (b's' ∷ [])
    ≡ (valid_secret hash hmac_hex (b'z' ∷ []) [] (b's' ∷ [])
        || (leb 130 (unix ((env 100).now + 300 * second))
            && valid_secret hash hmac_hex node_a.agent_secret [] (b's' ∷ [])))
enroll_node-signature_example =
    enroll_node-signature hash hmac_hex first (env 100) node_a 130 [] (b's' ∷ []) refl refl
