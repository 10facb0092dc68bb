-- ===== src/Server/Nodes/Edit.antt =====
-- server/main.go, `editNode`: the node is saved first, and then the agent is told its interval. How
-- the command ends is an argument.

pub mod Applied
use nodelume.Prelude.{
  ℕ, Bool, true, false, not, ◌&&◌, ◌||◌, List, [], ◌∷◌, ◌++◌, Option, none, some, Bytes, text,
  is_empty, length, ltb, if◌then◌else◌,
}
use nodelume.Prelude.Int.{ℤ, pos, ltb_ℤ}
use nodelume.Prelude.Map.{find, insert}
use nodelume.Text.{trim_space, print_int}
use nodelume.Server.State.{
  App, PersistedState, PersistNode, RuntimeNode, AgentCommand, AgentResult, Reply,
}
use nodelume.Server.Online.{applied_interval, node_is_online}
use nodelume.Server.Command.{Started, send_command}
use nodelume.Server.Nodes.{Context, audit, bad_request, no_node}

pub record EditInput : Type 0 where
  pub name : Bytes
  pub group : Bytes
  pub note : Bytes
  pub interval : ℤ

-- `==` on `int`
abbrev pub int_eq : ℤ → ℤ → Bool
int_eq a b = not (ltb_ℤ a b) && not (ltb_ℤ b a)

-- The input after trimming, with its default.
unfoldable pub trimmed_edit : EditInput → EditInput
trimmed_edit input = record {
  name = trim_space input.name;
  group = trim_space input.group;
  note = trim_space input.note;
  interval = if int_eq input.interval (pos 0) then pos 2 else input.interval;
}

unfoldable pub allowed_interval : ℤ → Bool
allowed_interval n =
    int_eq n (pos 2)
    || int_eq n (pos 5)
    || int_eq n (pos 10)
    || int_eq n (pos 30)
    || int_eq n (pos 60)

unfoldable pub edited_node : EditInput → PersistNode → PersistNode
edited_node input n = record n {
  name = input.name;
  group = input.group;
  note = input.note;
  report_interval_sec = input.interval;
}

-- The interval of the last heartbeat, if there was one.
abbrev pub reported_interval : {F : Type 0} → Option (RuntimeNode F) → ℤ
reported_interval none = pos 0
reported_interval (some rt) = applied_interval rt

abbrev pub interval_command : ℤ → AgentCommand
interval_command n = record {
  protocol = 0;
  id = [];
  action = [];
  timestamp = 0;
  pid = pos 0;
  version = [];
  restart_id = [];
  unit = [];
  interval = n;
}

abbrev pub answered_ok : Started → Option AgentResult → Bool
answered_ok (Started.waiting _) (some res) = res.ok
answered_ok _ _ = false

-- The part under the lock, without `saveLocked`.
unfoldable pub save_edit : {F : Type 0} → Bytes → EditInput → PersistNode → Context → App F → App F
save_edit id input n c a =
    let s = a.state in
    let s' : PersistedState = record s { nodes = insert id (edited_node input n) s.nodes } in
    let detail =
      n.name
      ++ text " -> "
      ++ input.name
      ++ text "; report "
      ++ print_int input.interval
      ++ text "s" in
    record a { state = audit c (text "edit_node") input.name detail s' }

-- Is the interval in force already, and is the command sent?
unfoldable pub in_force : {F : Type 0} → Bytes → EditInput → PersistNode → App F → Bool
in_force id input n a =
    not n.registered || int_eq (reported_interval (find id a.runtime)) input.interval

unfoldable pub is_told : {F : Type 0} → Bytes → EditInput → PersistNode → ℕ → App F → Bool
is_told id input n now a =
    n.registered
    && node_is_online now (some n) (find id a.runtime)
    && (not (int_eq n.report_interval_sec input.interval) || not (in_force id input n a))

-- The reply, by whether the state was saved, the command is sent, and the interval was in force.
abbrev pub edit_outcome :
    {F : Type 0}
    → Bool
    → Bool
    → Bool
    → App F
    → App F × Started
    → Option AgentResult
    → App F × Reply Bool
edit_outcome false told known a sent outcome = (a, Reply.error (text "保存失败") 500)
edit_outcome true true known a (sent, started) outcome =
    (sent, Reply.ok 200 (known || answered_ok started outcome))
edit_outcome true false known a sent outcome = (a, Reply.ok 200 known)

-- The state is that of the moment at which the command is in the queue; `cmd_id` is its id.
unfoldable pub apply_edit :
    {F : Type 0}
    → Bytes
    → EditInput
    → PersistNode
    → Context
    → Bytes
    → Option AgentResult
    → App F
    → App F × Reply Bool
apply_edit id input n c cmd_id outcome a =
    let a' = save_edit id input n c a in
    edit_outcome c.saved (is_told id input n c.now a) (in_force id input n a) a'
      (send_command id (text "set_report_interval") (interval_command input.interval) cmd_id c.now
        a')
      outcome

-- The reply is `applied`; `pending` is its negation.
unfoldable pub edit_node :
    {F : Type 0}
    → Bytes
    → Option EditInput
    → Context
    → Bytes
    → Option AgentResult
    → App F
    → App F × Reply Bool
edit_node id none c cmd_id outcome a = (a, bad_request)
edit_node id (some given) c cmd_id outcome a =
    let input = trimmed_edit given in
    if is_empty input.name
      || ltb 80 (length input.name)
      || ltb 64 (length input.group)
      || ltb 300 (length input.note)
    then (a, Reply.error (text "节点信息格式无效") 400)
    else if not (allowed_interval input.interval)
    then (a, Reply.error (text "不支持的上报频率") 400)
    else elim (find id a.state.nodes) [
      | none ↦ (a, no_node)
      | some n ↦ apply_edit id input n c cmd_id outcome a
    ]
