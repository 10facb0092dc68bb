-- ===== src/Tests/Heartbeats.antt =====
-- A signed heartbeat, from the request to the history.
use nodelume.Prelude.{ℕ, ◌*◌, ◌≡◌, refl, arith, true, [], ◌∷◌, Option, none, some, Bytes, str_eq}
use nodelume.Prelude.Int.{pos, ◌-ℤ◌}
use nodelume.Prelude.Map.{find, insert, delete, delete_where}
use nodelume.Text.{
  space_width, last_space_width, skip_spaces, trim_space, scan_digits, parse_uint, parse_int,
}
use nodelume.Ring.{new_ring, add}
use nodelume.Ring.Contents.{Holds}
use nodelume.Ring.Spec.{new_ring-Holds}
use nodelume.Server.State.{App, Heartbeat, RuntimeNode, second}
use nodelume.Server.Auth.{
  Request, AuthFailure, limit_read, abs64, is_skewed, evict, live_nonces, keep_nonce, check_nonce,
  registered_node, signed_message, valid_secret, signature_accepted, is_signed, auth_signed,
  auth_timed, auth_agent_detailed,
}
use nodelume.Server.Online.{node_is_online}
use nodelume.Server.Register.{new_runtime_node}
use nodelume.Server.Heartbeat.{
  HeartbeatReply, HeartbeatResult, stamped, with_system, update_node, metric_point, hear,
  runtime_of, keep_heartbeat, accept_heartbeat, agent_heartbeat,
}
use nodelume.Server.Heartbeat.Online.{next_history, keep_heartbeat-online}
use nodelume.Server.State.{Reply}
use nodelume.Tests.Data.{hash, hmac_hex, order, blank, linux, node_a, app}

program : Unit {0}
unfolding space_width last_space_width skip_spaces trim_space scan_digits parse_uint parse_int find
    insert delete delete_where limit_read abs64 is_skewed evict live_nonces keep_nonce check_nonce
    registered_node signed_message valid_secret signature_accepted is_signed auth_signed auth_timed
    auth_agent_detailed stamped with_system update_node metric_point hear keep_heartbeat
    accept_heartbeat agent_heartbeat new_runtime_node str_eq ◌-ℤ◌ add new_ring
program = tt

abbrev narrow : ℕ → ℕ
narrow x = x

abbrev heartbeat : Heartbeat ℕ
heartbeat = record {
  time = pos 0;
  cpu = 7;
  cpu_freq_mhz = 0;
  memory = 8;
  memory_used = 0;
  memory_avail = 0;
  swap_used = 0;
  swap_total = 0;
  disk = 9;
  disk_used = 0;
  disk_total = 0;
  temperature = some 40;
  load1 = 1;
  load5 = 1;
  load15 = 1;
  net_in = 0;
  net_out = 0;
  uptime = 0;
  processes = pos 3;
  report_interval_sec = pos 2;
  top_cpu = [];
  top_memory = [];
  system = linux;
  self = record {
    cpu_percent = 0;
    rss_bytes = 0;
    disk_bytes = 0;
    inodes = 0;
    rx_bytes = 0;
    tx_bytes = 0;
    rx_rate = 0;
    tx_rate = 0;
  };
}

-- The node has room for three points.
abbrev heard : RuntimeNode ℕ
heard = record {
  last_seen = none;
  latest = none;
  history = new_ring blank 3;
  last_history = none;
  commands = [];
  pending = [];
}

abbrev id_a : Bytes
id_a = b'a' ∷ []

abbrev running : App ℕ
running = record app { runtime = (id_a, heard) ∷ [] }

-- The body is signed by the secret `s` at the second 50.
abbrev request : Bytes → Request
request sig = record {
  method = [];
  request_uri = [];
  node_id = id_a;
  timestamp = b'5' ∷ b'0' ∷ [];
  nonce = b'x' ∷ [];
  signature = sig;
  authorization = [];
  body = some (b'b' ∷ []);
}

abbrev good_sig : Bytes
good_sig = b's' ∷ 10 ∷ 10 ∷ b'5' ∷ b'0' ∷ 10 ∷ b'x' ∷ 10 ∷ b'b' ∷ []

abbrev result : Option (App ℕ × HeartbeatResult) → Option HeartbeatResult
result none = none
result (some (_, r)) = some r

abbrev beat : Bytes → App ℕ → Option (App ℕ × HeartbeatResult)
beat sig a =
    agent_heartbeat narrow blank hash hmac_hex order (request sig) (some heartbeat) (50 * second) a

beats :
    (result (beat (b's' ∷ []) running)
      ≡ some (HeartbeatResult.unauthorized AuthFailure.auth_signature_invalid))
    × (result (beat good_sig running)
        ≡ some (
            HeartbeatResult.answered
              (Reply.ok 200 (record { node_name = b'n' ∷ []; report_interval_sec = pos 2 }))))
unfolding program
beats = (refl, refl)

known : find id_a running.state.nodes ≡ some node_a
unfolding program
known = refl

empty : Holds (runtime_of narrow blank id_a running).history []
unfolding program
empty = new_ring-Holds blank 3 (omega arith)

keep_heartbeat-online_example :
    (b : App ℕ) × (x : HeartbeatReply) × (rt : RuntimeNode ℕ) × (keep_heartbeat narrow blank id_a
        heartbeat
        (50 * second)
        running
      ≡ some (b, x))
    × (find id_a b.runtime ≡ some rt)
    × Holds rt.history (
        next_history narrow blank heartbeat (50 * second) (runtime_of narrow blank id_a running) [])
    × (node_is_online (60 * second) (find id_a b.state.nodes) (find id_a b.runtime) ≡ true)
keep_heartbeat-online_example =
    keep_heartbeat-online narrow blank id_a heartbeat (50 * second) (60 * second) running node_a []
      known refl empty (omega arith)
