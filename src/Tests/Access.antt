-- ===== src/Tests/Access.antt =====
-- Signed requests, the rate limit, the clock skew and the offline threshold.
use nodelume.Prelude.{
  ℕ, ◌*◌, ◌-◌, ◌^◌, ◌≤◌, ◌≡◌, ◌≢◌, refl, true, false, List, [], ◌∷◌, none, some, arith, Bytes,
  str_eq, length, keep, is_empty,
}
use nodelume.Prelude.Int.{ℤ, negsuc, ◌-ℤ◌, ◌*ℤ◌}
use nodelume.Prelude.Map.{find, insert, delete, delete_where}
use nodelume.Text.{
  space_width, last_space_width, skip_spaces, trim_space, cut_prefix, trim_prefix, cut_byte,
  scan_digits, parse_uint, parse_int, Parsed,
}
use nodelume.Server.State.{App, RuntimeNode, second, unix}
use nodelume.Server.RateLimit.{admit, allow_enrollment, rate_limit}
use nodelume.Server.RateLimit.Window.{passed_times, in_window, passed_times-in_window}
use nodelume.Server.Auth.{
  Request, AuthResult, AuthFailure, limit_read, abs64, is_skewed, evict, live_nonces, keep_nonce,
  check_nonce, registered_node, signed_message, valid_secret, signature_accepted, auth_bearer,
  is_signed, auth_signed, auth_timed, auth_agent_detailed, max_nonces,
}
use nodelume.Server.Auth.Accept.{Passes, auth_agent_detailed-Passes}
use nodelume.Server.Auth.Nonces.{length-check_nonce-le}
use nodelume.Server.Auth.Replay.{serve, serve_replay}
use nodelume.Server.Auth.Skew.{is_skewed-wraps}
use nodelume.Server.Online.{
  duration, at_least_min, threshold, node_offline_threshold, node_is_online,
}
use nodelume.Ring.{new_ring}
use nodelume.Tests.Data.{hash, hmac_hex, order, blank, node_a, app}

program : Unit {0}
unfolding space_width last_space_width skip_spaces trim_space cut_prefix trim_prefix cut_byte
    scan_digits parse_uint parse_int find insert delete delete_where admit allow_enrollment
    passed_times limit_read abs64 is_skewed evict live_nonces keep_nonce check_nonce registered_node
    signed_message valid_secret signature_accepted auth_bearer is_signed auth_signed auth_timed
    auth_agent_detailed serve duration at_least_min threshold node_offline_threshold node_is_online
    str_eq ◌-ℤ◌ ◌*ℤ◌
program = tt

abbrev auth : App ℕ → ℕ → Request → App ℕ × AuthResult
auth = auth_agent_detailed hash hmac_hex order

-- A request at the second 100, signed by `s`.
abbrev request : Bytes → Bytes → Request
request ts sig = record {
  method = b'G' ∷ [];
  request_uri = b'/' ∷ [];
  node_id = b'a' ∷ 32 ∷ [];
  timestamp = ts;
  nonce = b'x' ∷ [];
  signature = sig;
  authorization = [];
  body = some (b'b' ∷ []);
}

abbrev hundred : Bytes
hundred = b'1' ∷ b'0' ∷ b'0' ∷ []

abbrev good_sig : Bytes
good_sig = b's' ∷ b'G' ∷ 10 ∷ b'/' ∷ 10 ∷ b'1' ∷ b'0' ∷ b'0' ∷ 10 ∷ b'x' ∷ 10 ∷ b'b' ∷ []

abbrev good : Request
good = request hundred good_sig

abbrev at_100 : ℕ
at_100 = 100 * second

accepts : (auth app at_100 good).1 ≡ AuthResult.accepted (b'a' ∷ [])
unfolding program
accepts = refl

refuses :
    ((auth app at_100 (request hundred (b's' ∷ []))).1
      ≡ AuthResult.failed AuthFailure.auth_signature_invalid)
    × ((auth app (200 * second) good).1 ≡ AuthResult.failed AuthFailure.clock_skew)
    × ((auth app at_100 (request [] good_sig)).1 ≡ AuthResult.failed AuthFailure.auth_invalid)
    × ((auth (auth app at_100 good).0 at_100 good).1
        ≡ AuthResult.failed AuthFailure.replay_detected)
unfolding program
refuses = (refl, refl, refl, refl)

named : is_empty (trim_space good.node_id) ≡ false
unfolding program
named = refl

serve_replay_example :
    (auth (serve hash hmac_hex order ((at_100, good) ∷ []) (auth app at_100 good).0) at_100 good).1
    ≢ AuthResult.accepted (b'a' ∷ [])
serve_replay_example =
    serve_replay hash hmac_hex order app at_100 good (b'a' ∷ []) ((at_100, good) ∷ []) at_100 good
      (b'a' ∷ []) named accepts (omega arith, tt) (omega arith) refl refl (omega arith)

auth_agent_detailed-Passes_example :
    (t : ℤ) × (parse_int (trim_space good.timestamp) ≡ Parsed.ok t)
    × (is_skewed (unix at_100) t ≡ false)
    × Passes hash hmac_hex order app
        (unix at_100)
        good
        (trim_space good.node_id)
        (trim_space good.timestamp)
        (trim_space good.nonce)
        (trim_space good.signature)
    × (auth app at_100 good ≡ (
      record app {
        nonces =
            (check_nonce order
              (trim_space good.node_id)
              (trim_space good.nonce)
              (unix at_100)
              []).0;
      },
      AuthResult.accepted (trim_space good.node_id),
    ))
auth_agent_detailed-Passes_example =
    auth_agent_detailed-Passes hash hmac_hex order app at_100 good (b'a' ∷ []) named accepts

-- Of two calls in a minute both pass.
two_pass : passed_times (b'i' ∷ []) (5 ∷ 6 ∷ []) app ≡ 5 ∷ 6 ∷ []
unfolding program
two_pass = refl

abbrev burst : List ℕ
burst =
    5 ∷ 5 ∷ 5 ∷ 5 ∷ 5 ∷ 5 ∷ 5 ∷ 5 ∷ 5 ∷ 5 ∷ 5 ∷ 5 ∷ 5 ∷ 5 ∷ 5 ∷ 5 ∷ 5 ∷ 5 ∷ 5 ∷ 5 ∷ 5 ∷ 64 ∷ 65 ∷ []

burst_passes : length (passed_times (b'i' ∷ []) burst app) ≡ 21
unfolding program
burst_passes = refl

fresh_source : find (b'i' ∷ []) app.enroll_rate ≡ none
unfolding find
fresh_source = refl

passed_times-in_window_example :
    length (keep (in_window 64) (passed_times (b'i' ∷ []) (5 ∷ 6 ∷ 64 ∷ []) app)) ≤ rate_limit
passed_times-in_window_example =
    passed_times-in_window (b'i' ∷ []) 64 (5 ∷ 6 ∷ 64 ∷ []) app fresh_source
      (omega arith, (omega arith, (omega arith, tt)))

length-check_nonce-le_example :
    length (check_nonce order (b'a' ∷ []) (b'x' ∷ []) 100 ((b'o' ∷ [], 90) ∷ [])).0 ≤ max_nonces
length-check_nonce-le_example =
    length-check_nonce-le order (b'a' ∷ []) (b'x' ∷ []) 100 ((b'o' ∷ [], 90) ∷ []) (λ l. refl)
      (omega arith)

is_skewed-wraps_example : is_skewed 1_700_000_000 (negsuc (2 ^ 63 - 1 - 1_700_000_000)) ≡ false
is_skewed-wraps_example = is_skewed-wraps 1_700_000_000 (omega arith)

abbrev seen_at_9 : RuntimeNode ℕ
seen_at_9 = record {
  last_seen = some (9 * second);
  latest = none;
  history = new_ring blank 3;
  last_history = none;
  commands = [];
  pending = [];
}

online_then_not :
    (node_is_online (39 * second - 1) (some node_a) (some seen_at_9) ≡ true)
    × (node_is_online (39 * second) (some node_a) (some seen_at_9) ≡ false)
unfolding program
online_then_not = (refl, refl)
