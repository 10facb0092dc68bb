-- ===== src/Server/Nodes.antt =====
-- server/main.go: nodes and enrollment tokens as the administrator manages them: `createNode`,
-- `reenrollNode` and `deleteNode`. The digest `hashString` is a parameter; the public address is checked outside and
-- comes in as whether it is valid. The reply of a handler that makes a token has the token alone,
-- not the install command.
pub mod Common
pub mod Tokens
pub mod Removal
pub mod Edit
use nodelume.Prelude.{
  ℕ, ◌+◌, ◌-◌, ◌*◌, Bool, true, false, not, ◌&&◌, ◌||◌, List, [], ◌∷◌, ◌++◌, Option, none, some,
  Bytes, text, str_eq, is_empty, length, ltb, take, if◌then◌else◌,
}
use nodelume.Prelude.Int.{ℤ, pos, ltb_ℤ}
use nodelume.Prelude.Map.{find, insert, delete, delete_where, map_values, any_entry}
use nodelume.Text.{trim_space, print_int}
use nodelume.Ring.{MetricPoint, Ring, prune}
use nodelume.Server.State.{
  App, PersistedState, PersistNode, SystemInfo, Enrollment, EnrollmentReceipt, RuntimeNode, Reply,
  Session, second, unix, audit_locked,
}
use nodelume.Server.Register.{new_runtime_node}

-- The time, the source, the random values, and the outcome of `saveLocked`.
pub record Context : Type 0 where
  pub now : ℕ
  pub ip : Bytes
  pub fresh_id : Bytes
  pub fresh_token : Bytes
  pub saved : Bool

abbrev pub audit : Context → Bytes → Bytes → Bytes → PersistedState → PersistedState
audit c action node detail = audit_locked c.now c.ip action node detail (text "success")

abbrev pub bad_request : {A : Type 0} → Reply A
bad_request = Reply.error (text "请求数据格式无效") 400

abbrev pub or_save_failed : {A : Type 0} → Context → Reply A → Reply A
or_save_failed c r = if c.saved then r else Reply.error (text "保存失败") 500

abbrev pub bad_address : {A : Type 0} → Reply A
bad_address = Reply.error (text "公网 Server 地址无效") 409

abbrev pub no_node : {A : Type 0} → Reply A
no_node = Reply.error (text "节点不存在") 404

-- A node with nothing but its name, and the enrollment of one.
abbrev pub blank_system : SystemInfo
blank_system = record {
  hostname = [];
  os = [];
  os_id = [];
  arch = [];
  kernel = [];
  cpu_model = [];
  cpu_cores = pos 0;
  memory_total = 0;
  agent = [];
  protocol = pos 0;
}

unfoldable pub created_node : Bytes → Bytes → Bytes → ℕ → PersistNode
created_node id name group now = record {
  id = id;
  name = name;
  group = group;
  note = [];
  report_interval_sec = pos 0;
  secret_hash = [];
  agent_secret = [];
  previous_agent_secret = [];
  previous_secret_expires_at = 0;
  registered = false;
  created_at = unix now;
  system = blank_system;
}

abbrev pub token_life : ℕ
token_life = 30 * 60 * second

unfoldable pub one_time_enrollment : Bytes → ℕ → Enrollment
one_time_enrollment id now = record {
  node_id = id;
  name = [];
  expires_at = unix (now + token_life);
  reusable = false;
  joined = 0;
}

-- `for k, e := range Enrollments { if e.NodeID == id { delete } }`
abbrev pub names_node : Bytes → Bytes → Enrollment → Bool
names_node id _ e = str_eq e.node_id id

unfoldable pub without_tokens : Bytes → List (Bytes × Enrollment) → List (Bytes × Enrollment)
without_tokens id m = delete_where (names_node id) m

pub record CreateInput : Type 0 where
  pub name : Bytes
  pub group : Bytes

module _ (hash : Bytes → Bytes) where
  unfoldable pub add_node : {F : Type 0} → MetricPoint F → CreateInput → Context → App F → App F
  add_node blank input c a =
      let s = a.state in
      let trimmed = trim_space input.name in
      let name = if is_empty trimmed then text "node-" ++ take 6 c.fresh_id else trimmed in
      let node = created_node c.fresh_id name (trim_space input.group) c.now in
      let s' : PersistedState = record s {
        nodes = insert c.fresh_id node s.nodes;
        enrollments =
            insert (hash c.fresh_token) (one_time_enrollment c.fresh_id c.now) s.enrollments;
      } in
      record a {
        state = audit c (text "create_node") name (text "one-time enrollment created") s';
        runtime = insert c.fresh_id (new_runtime_node blank) a.runtime;
      }

  -- The reply is the id and the token.
  unfoldable pub create_node :
      {F : Type 0}
      → MetricPoint F
      → Bool
      → Option CreateInput
      → Context
      → App F
      → App F × Reply (Bytes × Bytes)
  create_node blank valid_address none c a = (a, if valid_address then bad_request else bad_address)
  create_node blank valid_address (some input) c a =
      if not valid_address
      then (a, bad_address)
      else if ltb 80 (length (trim_space input.name))
      then (a, Reply.error (text "节点名称不能超过 80 个字符") 400)
      else (add_node blank input c a, or_save_failed c (Reply.ok 201 (c.fresh_id, c.fresh_token)))

  -- The tokens of the node give way to a new one.
  unfoldable pub renew_token : {F : Type 0} → Bytes → PersistNode → Context → App F → App F
  renew_token id n c a =
      let s = a.state in
      let s' : PersistedState = record s {
        enrollments =
            insert (hash c.fresh_token) (one_time_enrollment id c.now)
              (without_tokens id s.enrollments);
      } in
      record a {
        state =
            audit c (text "reenroll_node") n.name
              (text
                "new one-time enrollment created; current credential remains valid until successful replacement")
              s';
      }

  unfoldable pub reenroll_node : {F : Type 0} → Bool → Bytes → Context → App F → App F × Reply Bytes
  reenroll_node valid_address id c a =
      if not valid_address then (a, bad_address) else elim (find id a.state.nodes) [
        | none ↦ (a, no_node)
        | some n ↦ (renew_token id n c a, or_save_failed c (Reply.ok 200 c.fresh_token))
      ]

-- The node, what was heard of it, and the tokens that name it.
unfoldable pub remove_node : {F : Type 0} → Bytes → PersistNode → Context → App F → App F
remove_node id n c a =
    let s = a.state in
    let s' : PersistedState = record s {
      nodes = delete id s.nodes;
      enrollments = without_tokens id s.enrollments;
    } in
    record a {
      state = audit c (text "delete_node") n.name (text "node and credential removed") s';
      runtime = delete id a.runtime;
    }

unfoldable pub delete_node : {F : Type 0} → Bytes → Context → App F → App F × Reply Unit
delete_node id c a = elim (find id a.state.nodes) [
  | none ↦ (a, no_node)
  | some n ↦ (remove_node id n c a, or_save_failed c (Reply.ok 200 tt))
]
