-- ===== src/Server/Command/Handlers.antt =====
-- server/main.go: the handlers that send a command and answer with what the agent says,
-- `commandJSON`, `nodeProcesses`, `nodeProcessInfo`, `nodeProcessAction`, `nodeStopped`,
-- `nodeStartStopped` and `nodeDisks`. Each is cut where `sendCommand` waits: the first part gives
-- what was sent, and the second one takes how the wait ended.
use nodelume.Prelude.{
  ℕ, ◌||◌, List, [], ◌∷◌, ◌++◌, Option, none, some, Bytes, text, length, ltb, if◌then◌else◌,
}
use nodelume.Prelude.Int.{ℤ, pos, ltb_ℤ}
use nodelume.Prelude.Map.{find}
use nodelume.Text.{Parsed, parse_int, print_int}
use nodelume.Server.State.{App, AgentCommand, AgentResult, Reply, audit_locked}
use nodelume.Server.Command.{SendError, error_text, Started, send_command}

-- A reply without content is `{"ok": true}`.
abbrev pub CommandReply : Type 0
CommandReply = Reply (Option Bytes)

pub data CommandEnd : Type 0 where
  not_answered : SendError → CommandEnd
  answered : AgentResult → CommandEnd

-- How a call ends: it was not sent, its deadline passed, or there is an answer.
unfoldable pub command_end : Started → Option AgentResult → CommandEnd
command_end (Started.not_sent e) outcome = CommandEnd.not_answered e
command_end (Started.waiting cmd) none = CommandEnd.not_answered SendError.timed_out
command_end (Started.waiting cmd) (some res) = CommandEnd.answered res

abbrev content_of : Bytes → Option Bytes
content_of [] = none
content_of (c ∷ s) = some (c ∷ s)

-- `commandJSON`, behind the call.
unfoldable pub command_json : CommandEnd → CommandReply
command_json (CommandEnd.not_answered e) = Reply.error (error_text e) 503
command_json (CommandEnd.answered res) =
    if res.ok then Reply.ok 200 (content_of res.content) else Reply.error res.error 502

-- The same where an empty content is written as it is.
unfoldable pub raw_json : CommandEnd → CommandReply
raw_json (CommandEnd.not_answered e) = Reply.error (error_text e) 503
raw_json (CommandEnd.answered res) =
    if res.ok then Reply.ok 200 (some res.content) else Reply.error res.error 502

-- The result that the audit trail gets.
unfoldable pub audit_result : CommandEnd → Bytes
audit_result (CommandEnd.not_answered e) = text "failed: " ++ error_text e
audit_result (CommandEnd.answered res) =
    if res.ok then text "success" else text "failed: " ++ res.error

abbrev pub empty_command : AgentCommand
empty_command = record {
  protocol = 0;
  id = [];
  action = [];
  timestamp = 0;
  pid = pos 0;
  version = [];
  restart_id = [];
  unit = [];
  interval = pos 0;
}

-- What the first part of a handler comes to.
pub data Begun : Type 0 where
  refused : CommandReply → Begun
  sent : Bytes → Bytes → Started → Begun

-- A pid that does not parse, or is too small, is refused.
abbrev pub parsed_pid : ℤ → Parsed ℤ → Option ℤ
parsed_pid least (Parsed.ok n) = if ltb_ℤ n least then none else some n
parsed_pid least _ = none

-- The actions that an administrator can choose, with their commands.
unfoldable pub action_map : List (Bytes × Bytes)
action_map =
    (text "terminate", text "process_terminate")
    ∷ (text "kill", text "process_kill")
    ∷ (text "restart", text "process_restart")
    ∷ (text "service_stop", text "service_stop")
    ∷ (text "service_restart", text "service_restart")
    ∷ []

-- The second part of the handlers that only read.
unfoldable pub end_read : Begun → Option AgentResult → CommandReply
end_read (Begun.refused r) outcome = r
end_read (Begun.sent action detail started) outcome = command_json (command_end started outcome)

module _ {F : Type 0} where
  -- `nodeName`
  unfoldable pub node_name : Bytes → App F → Bytes
  node_name id a = elim (find id a.state.nodes) [ none ↦ id | some n ↦ n.name ]

  abbrev pub begin_send : Bytes → Bytes → Bytes → AgentCommand → Bytes → ℕ → App F → App F × Begun
  begin_send id action detail cmd cmd_id now a =
      let (a', started) = send_command id action cmd cmd_id now a in
      (a', Begun.sent action detail started)

  unfoldable pub node_processes : Bytes → Bytes → ℕ → App F → App F × Begun
  node_processes id cmd_id now a = begin_send id (text "process_list") [] empty_command cmd_id now a

  unfoldable pub node_stopped : Bytes → Bytes → ℕ → App F → App F × Begun
  node_stopped id cmd_id now a = begin_send id (text "stopped_list") [] empty_command cmd_id now a

  unfoldable pub node_disks : Bytes → Bytes → ℕ → App F → App F × Begun
  node_disks id cmd_id now a = begin_send id (text "disk_info") [] empty_command cmd_id now a

  unfoldable pub node_process_info : Bytes → Bytes → Bytes → ℕ → App F → App F × Begun
  node_process_info id pid_text cmd_id now a = elim (parsed_pid (pos 1) (parse_int pid_text)) [
    | none ↦ (a, Begun.refused (Reply.error (text "PID 无效") 400))
    | some pid ↦
        begin_send id (text "process_info") [] (record empty_command { pid = pid }) cmd_id now a
  ]

  -- A body that does not decode is `none`.
  unfoldable pub node_process_action :
      Bytes → Bytes → Option Bytes → Bytes → ℕ → App F → App F × Begun
  node_process_action id pid_text body cmd_id now a =
      elim (parsed_pid (pos 2) (parse_int pid_text)) [
        | none ↦ (a, Begun.refused (Reply.error (text "PID 无效或该进程受保护") 400))
        | some pid ↦ elim body [
          | none ↦ (a, Begun.refused (Reply.error (text "请求数据格式无效") 400))
          | some action ↦ elim (find action action_map) [
            | none ↦ (a, Begun.refused (Reply.error (text "不支持的进程操作") 400))
            | some act ↦
                begin_send id act (text "PID " ++ print_int pid)
                  (record empty_command { pid = pid }) cmd_id now a
          ]
        ]
      ]

  unfoldable pub node_start_stopped : Bytes → Bytes → Bytes → ℕ → App F → App F × Begun
  node_start_stopped id rid cmd_id now a =
      if ltb (length rid) 8 || ltb 80 (length rid)
      then (a, Begun.refused (Reply.error (text "恢复记录无效") 400))
      else begin_send id (text "process_start_saved") rid
          (record empty_command { restart_id = rid }) cmd_id now a

  -- The second part of the two that act: the audit trail gets the action and its result.
  abbrev with_audit : Bytes → Bytes → Bytes → Bytes → CommandEnd → ℕ → App F → App F
  with_audit id ip action detail ended now a = record a {
    state = audit_locked now ip action (node_name id a) detail (audit_result ended) a.state;
  }

  unfoldable pub end_process_action :
      Bytes → Bytes → Begun → Option AgentResult → ℕ → App F → App F × CommandReply
  end_process_action id ip (Begun.refused r) outcome now a = (a, r)
  end_process_action id ip (Begun.sent action detail started) outcome now a =
      let ended = command_end started outcome in
      (with_audit id ip action detail ended now a, command_json ended)

  unfoldable pub end_start_stopped :
      Bytes → Bytes → Begun → Option AgentResult → ℕ → App F → App F × CommandReply
  end_start_stopped id ip (Begun.refused r) outcome now a = (a, r)
  end_start_stopped id ip (Begun.sent action detail started) outcome now a =
      let ended = command_end started outcome in
      (with_audit id ip action detail ended now a, raw_json ended)
