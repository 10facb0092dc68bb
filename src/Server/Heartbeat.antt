-- ===== src/Server/Heartbeat.antt =====
-- server/main.go, `agentHeartbeat`: a signed request becomes the last that was heard of its node.
-- `float32` is a parameter. The reply goes without its constants and the address of the server.
pub mod Online
use nodelume.Prelude.{
  ℕ, ◌+◌, ◌*◌, Bool, true, false, not, ◌&&◌, List, ◌∷◌, [], Option, none, some, Bytes, text,
  is_empty, ltb, leb, if◌then◌else◌,
}
use nodelume.Prelude.Int.{ℤ, pos, ltb_ℤ}
use nodelume.Prelude.Map.{find, insert}
use nodelume.Ring.{MetricPoint, Ring, add, ◌>>=◌}
use nodelume.Server.State.{
  App, PersistedState, PersistNode, SystemInfo, Heartbeat, RuntimeNode, Reply, protocol_version,
  second, unix,
}
use nodelume.Server.Auth.{accepted, failed, Request, AuthResult, AuthFailure, auth_agent_detailed}
use nodelume.Server.Register.{new_runtime_node, is_zero}

pub record HeartbeatReply : Type 0 where
  pub node_name : Bytes
  pub report_interval_sec : ℤ

-- A failure of the authentication, or what the handler answers.
pub data HeartbeatResult : Type 0 where
  unauthorized : AuthFailure → HeartbeatResult
  answered : Reply HeartbeatReply → HeartbeatResult

-- At least five seconds since the last point of the history.
abbrev pub is_due : Option ℕ → ℕ → Bool
is_due none now = true
is_due (some t) now = leb (t + 5 * second) now

-- A heartbeat without a time gets the server's.
unfoldable pub stamped : {F : Type 0} → Heartbeat F → ℕ → Heartbeat F
stamped hb now = if is_zero hb.time then record hb { time = pos (unix now) } else hb

-- The protocol that the node registered with, 0 where there is no node.
abbrev pub protocol_of : Option PersistNode → ℤ
protocol_of none = pos 0
protocol_of (some n) = n.system.protocol

-- The node with the system of the heartbeat, if that names its host.
unfoldable pub with_system : SystemInfo → PersistNode → PersistNode
with_system system n = if is_empty system.hostname then n else record n { system = system }

unfoldable pub update_node :
    SystemInfo → Bytes → List (Bytes × PersistNode) → List (Bytes × PersistNode)
update_node system id m = elim (find id m) [
  | none ↦ m
  | some n ↦ insert id (with_system system n) m
]

-- The name and the interval in the reply.
abbrev pub reply_of : Option PersistNode → HeartbeatReply
reply_of none = record { node_name = []; report_interval_sec = pos 2 }
reply_of (some n) = record {
  node_name = n.name;
  report_interval_sec =
      if ltb_ℤ (pos 0) n.report_interval_sec then n.report_interval_sec else pos 2;
}

module _ {F : Type 0} (narrow : F → F) (blank : MetricPoint F) where
  -- The point of the history; a missing temperature leaves the zero value.
  unfoldable pub metric_point : Heartbeat F → ℕ → MetricPoint F
  metric_point hb now = record {
    t = unix now;
    cpu = narrow hb.cpu;
    memory = narrow hb.memory;
    disk = narrow hb.disk;
    temp = elim hb.temperature [ none ↦ blank.temp | some v ↦ narrow v ];
    load1 = narrow hb.load1;
    net_in = narrow hb.net_in;
    net_out = narrow hb.net_out;
    temp_valid = elim hb.temperature [ none ↦ false | some _ ↦ true ];
  }

  -- What was heard, and the point if one is due; an index panic in `Add` is `none`.
  unfoldable pub hear : Heartbeat F → ℕ → RuntimeNode F → Option (RuntimeNode F)
  hear hb now rt =
      let seen : RuntimeNode F = record rt {
        last_seen = some now;
        latest = some (stamped hb now);
      } in
      let added = add rt.history (metric_point hb now) in
      if is_due rt.last_history now
      then (added >>= (λ ring. some (record seen { history = ring; last_history = some now })))
      else some seen

  abbrev pub runtime_of : Bytes → App F → RuntimeNode F
  runtime_of id a = elim (find id a.runtime) [ none ↦ new_runtime_node blank | some rt ↦ rt ]

  -- The part under the lock.
  unfoldable pub keep_heartbeat : Bytes → Heartbeat F → ℕ → App F → Option (App F × HeartbeatReply)
  keep_heartbeat id hb now a = do
    rt ← hear hb now (runtime_of id a)
    some (
      record a {
        runtime = insert id rt a.runtime;
        state = record a.state { nodes = update_node hb.system id a.state.nodes };
      },
      reply_of (find id (update_node hb.system id a.state.nodes)),
    )

  -- Behind the authentication; a body that does not decode is `none`.
  unfoldable pub accept_heartbeat :
      Bytes → Option (Heartbeat F) → ℕ → App F → Option (App F × HeartbeatResult)
  accept_heartbeat id input now a =
      let protocol = protocol_of (find id a.state.nodes) in
      if ltb_ℤ (pos 0) protocol && ltb_ℤ protocol (pos protocol_version)
      then some (
        a,
        HeartbeatResult.answered (
            Reply.error_code (text "AGENT_PROTOCOL_TOO_OLD") (text "Agent Protocol 与 Server 不兼容")
              (text "请升级 Agent") 426),
      )
      else if ltb_ℤ (pos protocol_version) protocol
      then some (
        a,
        HeartbeatResult.answered (
            Reply.error_code (text "SERVER_PROTOCOL_TOO_OLD") (text "Agent Protocol 高于 Server 支持版本")
              (text "请升级 Server") 426),
      )
      else elim input [
        | none ↦ some (a, HeartbeatResult.answered (Reply.error (text "请求数据格式无效") 400))
        | some hb ↦
            keep_heartbeat id hb now a
            >>= (λ w. some (w.0, HeartbeatResult.answered (Reply.ok 200 w.1)))
      ]

  unfoldable pub agent_heartbeat :
      (Bytes → Bytes)
      → (Bytes → Bytes → Bytes)
      → (List (Bytes × ℕ) → List (Bytes × ℕ))
      → Request
      → Option (Heartbeat F)
      → ℕ
      → App F
      → Option (App F × HeartbeatResult)
  agent_heartbeat sha256_hex hmac_hex order r input now a =
      let (a', result) = auth_agent_detailed sha256_hex hmac_hex order a now r in
      elim result [
        | failed f ↦ some (a', HeartbeatResult.unauthorized f)
        | accepted id ↦ accept_heartbeat id input now a'
      ]
