-- ===== src/Server/Command.antt =====
-- server/main.go: how a command goes to an agent and its answer comes back, `sendCommand`,
-- `agentCommands` and `agentResults`. The queue of a node is a channel of 16 places; each call that
-- waits has a channel of one place under its request id in `pending`.
pub mod Events
pub mod Order
pub mod Answers
pub mod Handlers
use nodelume.Prelude.{
  ℕ, ◌+◌, ◌*◌, Bool, true, false, ◌&&◌, ◌||◌, List, [], ◌∷◌, ◌++◌, Option, none, some, Bytes, text,
  length, ltb, if◌then◌else◌,
}
use nodelume.Prelude.Int.{ℤ, pos, ltb_ℤ}
use nodelume.Prelude.Map.{find, insert, delete}
use nodelume.Text.{parse_int, value}
use nodelume.Server.State.{
  App, RuntimeNode, AgentCommand, AgentResult, Reply, protocol_version, unix,
}
use nodelume.Server.Auth.{Request, AuthResult, AuthFailure, failed, accepted, auth_agent_detailed}
use nodelume.Server.Online.{node_is_online}

abbrev pub command_capacity : ℕ
command_capacity = 16

-- The errors of `sendCommand`.
pub data SendError : Type 0 where
  no_node : SendError
  offline : SendError
  queue_full : SendError
  timed_out : SendError

unfoldable pub error_text : SendError → Bytes
error_text SendError.no_node = text "节点不存在"
error_text SendError.offline = text "节点离线"
error_text SendError.queue_full = text "节点命令队列繁忙，请稍后重试"
error_text SendError.timed_out = text "等待 Agent 响应超时"

-- What the call adds to the command of its caller.
unfoldable pub prepare : Bytes → Bytes → ℕ → AgentCommand → AgentCommand
prepare id action now cmd = record cmd {
  protocol = protocol_version;
  id = id;
  action = action;
  timestamp = unix now;
}

module _ {F : Type 0} where
  -- The command goes into the queue, if that has room; where it has none the deferred function
  -- takes the channel away again.
  unfoldable pub enqueue : AgentCommand → RuntimeNode F → RuntimeNode F × Bool
  enqueue cmd rt =
      let waiting = insert cmd.id none rt.pending in
      if ltb (length rt.commands) command_capacity
      then (record rt { commands = rt.commands ++ cmd ∷ []; pending = waiting }, true)
      else (record rt { pending = delete cmd.id waiting }, false)

  -- The oldest command leaves the queue.
  unfoldable pub poll : RuntimeNode F → RuntimeNode F × Option AgentCommand
  poll rt = elim rt.commands [
    | [] ↦ (rt, none)
    | c ∷ rest ↦ (record rt { commands = rest }, some c)
  ]

  -- An answer goes into the channel of its call, if there is one and it is empty.
  unfoldable pub answer : AgentResult → RuntimeNode F → RuntimeNode F
  answer res rt = elim (find res.request_id rt.pending) [
    | none ↦ rt
    | some slot ↦ elim slot [
      | none ↦ record rt { pending = insert res.request_id (some res) rt.pending }
      | some _ ↦ rt
    ]
  ]

  -- The end of the call: it takes the answer once there is one, or gives up at its deadline; either
  -- way the deferred function deletes its channel.
  unfoldable pub receive : Bytes → RuntimeNode F → RuntimeNode F × Option AgentResult
  receive id rt = elim (find id rt.pending) [
    | none ↦ (rt, none)
    | some slot ↦ elim slot [
      | none ↦ (rt, none)
      | some res ↦ (record rt { pending = delete id rt.pending }, some res)
    ]
  ]

  unfoldable pub give_up : Bytes → RuntimeNode F → RuntimeNode F
  give_up id rt = record rt { pending = delete id rt.pending }

-- How far `sendCommand` comes before it waits.
pub data Started : Type 0 where
  not_sent : SendError → Started
  waiting : AgentCommand → Started

abbrev pub with_runtime : {F : Type 0} → Bytes → RuntimeNode F → App F → App F
with_runtime node rt a = record a { runtime = insert node rt a.runtime }

-- `sendCommand` up to the wait; the fresh id is an argument.
unfoldable pub send_command :
    {F : Type 0} → Bytes → Bytes → AgentCommand → Bytes → ℕ → App F → App F × Started
send_command node action cmd id now a =
    let online = node_is_online now (find node a.state.nodes) (find node a.runtime) in
    let cmd' = prepare id action now cmd in
    elim (find node a.runtime) [
      | none ↦ (a, Started.not_sent SendError.no_node)
      | some rt ↦
          if online
          then (let (rt', queued) = enqueue cmd' rt in
              (
                with_runtime node rt' a,
                if queued then Started.waiting cmd' else Started.not_sent SendError.queue_full,
              ))
          else (a, Started.not_sent SendError.offline)
    ]

-- The answer of a handler to an agent.
pub data AgentReply (A : Type 0) : Type 0 where
  unauthorized : AuthFailure → AgentReply A
  answered : Reply A → AgentReply A
  no_content : AgentReply A

-- The seconds that `agentCommands` waits.
unfoldable pub wait_seconds : Bytes → ℤ
wait_seconds query =
    let wait = value (parse_int query) in
    if ltb_ℤ wait (pos 1) || ltb_ℤ (pos 30) wait then pos 25 else wait

module _ (sha256_hex : Bytes → Bytes) (hmac_hex : Bytes → Bytes → Bytes)
    (order : List (Bytes × ℕ) → List (Bytes × ℕ)) {F : Type 0} where
  -- The state is that of the moment at which the wait ends: by a command, or at its deadline.
  unfoldable pub agent_commands : Request → ℕ → App F → App F × AgentReply AgentCommand
  agent_commands r now a =
      let (a', result) = auth_agent_detailed sha256_hex hmac_hex order a now r in
      elim result [
        | failed f ↦ (a', AgentReply.unauthorized f)
        | accepted id ↦ elim (find id a'.runtime) [
          | none ↦ (a', AgentReply.answered (Reply.error (text "节点不存在") 404))
          | some rt ↦
              let (rt', cmd) = poll rt in
              (
                with_runtime id rt' a',
                elim cmd [
                  | none ↦ AgentReply.no_content
                  | some c ↦ AgentReply.answered (Reply.ok 200 c)
                ],
              )
        ]
      ]

  -- A body that does not decode is `none`.
  unfoldable pub agent_results : Request → Option AgentResult → ℕ → App F → App F × AgentReply Unit
  agent_results r input now a =
      let (a', result) = auth_agent_detailed sha256_hex hmac_hex order a now r in
      elim result [
        | failed f ↦ (a', AgentReply.unauthorized f)
        | accepted id ↦ elim input [
          | none ↦ (a', AgentReply.answered (Reply.error (text "请求数据格式无效") 400))
          | some res ↦ elim (find id a'.runtime) [
            | none ↦ (a', AgentReply.answered (Reply.error (text "节点不存在") 404))
            | some rt ↦ (with_runtime id (answer res rt) a', AgentReply.answered (Reply.ok 200 tt))
          ]
        ]
      ]
