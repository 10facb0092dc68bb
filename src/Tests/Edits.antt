-- ===== src/Tests/Edits.antt =====
-- The edit of a node, and the handlers that send commands.
use nodelume.Prelude.{
  ℕ, ◌*◌, ◌≡◌, refl, true, false, [], ◌∷◌, Option, none, some, Bytes, text, str_eq, length,
  if◌then◌else◌,
}
use nodelume.Prelude.Int.{pos}
use nodelume.Prelude.Map.{find, insert, delete}
use nodelume.Text.{
  trim_space, space_width, last_space_width, skip_spaces, print_nat, print_from, print_int,
  scan_digits, parse_uint, parse_int,
}
use nodelume.Server.State.{PersistNode, App, Reply, second, audit_locked}
use nodelume.Server.Online.{node_is_online}
use nodelume.Server.Command.{error_text, prepare, enqueue, send_command}
use nodelume.Server.Command.Handlers.{
  Begun, command_end, command_json, audit_result, node_name, node_process_action, action_map,
  end_process_action,
}
use nodelume.Server.Nodes.{Context}
use nodelume.Server.Nodes.Edit.{
  EditInput, trimmed_edit, allowed_interval, edited_node, save_edit, in_force, is_told, apply_edit,
  edit_node,
}
use nodelume.Server.Nodes.Edit.Applied.{says_applied, is_offered, Edited, edit_node-saved}
use nodelume.Tests.Data.{app}

program : Unit {0}
unfolding text str_eq find insert delete space_width last_space_width skip_spaces trim_space
    print_nat print_from print_int scan_digits parse_uint parse_int audit_locked node_is_online
    error_text prepare enqueue send_command command_end command_json audit_result node_name
    node_process_action action_map end_process_action trimmed_edit allowed_interval edited_node
    save_edit in_force is_told apply_edit edit_node
program = tt

abbrev context : Context
context = record {
  now = 50 * second;
  ip = b'i' ∷ [];
  fresh_id = [];
  fresh_token = [];
  saved = true;
}

abbrev five : EditInput
five = record { name = text " disk 1 "; group = []; note = text "x"; interval = pos 5 }

edited : (edit_node (b'a' ∷ []) (some five) context [] none app).1 ≡ Reply.ok 200 false
unfolding program
edited = refl

seven_refused :
    (edit_node (b'a' ∷ []) (some (record five { interval = pos 7 })) context [] none app).1
    ≡ Reply.error (text "不支持的上报频率") 400
unfolding program
seven_refused = refl

edit_node-saved_example :
    (n n' : PersistNode) × (find (b'a' ∷ []) app.state.nodes ≡ some n)
    × (Edited five n n')
    × (is_offered n'.report_interval_sec ≡ true)
    × (find (b'a' ∷ []) (edit_node (b'a' ∷ []) (some five) context [] none app).0.state.nodes
        ≡ (if str_eq (b'a' ∷ []) (b'a' ∷ []) then some n' else find (b'a' ∷ []) app.state.nodes))
    × (false ≡ says_applied (b'a' ∷ []) five context [] none app n n')
edit_node-saved_example =
    edit_node-saved (b'a' ∷ []) five context [] none app (b'a' ∷ []) 200 false edited

-- The node is offline: the command is not sent, and the failure is in the audit trail.
abbrev begun : App ℕ × Begun
begun =
    node_process_action (b'a' ∷ []) (text "9") (some (text "kill")) (b'r' ∷ []) (50 * second) app

abbrev ended : App ℕ × Reply (Option Bytes)
ended = end_process_action (b'a' ∷ []) (b'i' ∷ []) begun.1 none (50 * second) begun.0

failing : (ended.1 ≡ Reply.error (text "节点不存在") 503) × (length ended.0.state.audit ≡ 1)
unfolding program
failing = (refl, refl)
