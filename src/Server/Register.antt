-- ===== src/Server/Register.antt =====
-- server/main.go, `agentRegister`: an agent turns an enrollment token into an identity. The digest
-- `hashString` is a parameter; the fresh id and secret, and whether the state file could be written,
-- are arguments. The clock is read once for a request.
pub mod Handler
pub mod Finish
pub mod Tokens
pub mod Receipts
pub mod Rotation
use nodelume.Prelude.{
  ℕ, ◌+◌, ◌*◌, Bool, true, false, not, ◌&&◌, ◌||◌, List, [], ◌∷◌, ◌++◌, Option, none, some, Bytes,
  text, is_empty, ltb, leb, ◌==◌, if◌then◌else◌, take,
}
use nodelume.Prelude.Int.{ℤ, pos, negsuc, ltb_ℤ}
use nodelume.Prelude.Map.{find, insert, delete}
use nodelume.Text.{trim_space, trim_prefix, print_int, print_nat}
use nodelume.Ring.{MetricPoint, new_ring, history_capacity}
use nodelume.Server.State.{
  App, PersistedState, PersistNode, SystemInfo, Enrollment, EnrollmentReceipt, RuntimeNode, Reply,
  protocol_version, second, unix, audit_locked,
}
use nodelume.Server.RateLimit.{allow_enrollment}

pub record RegisterInput : Type 0 where
  pub token : Bytes
  pub name : Bytes
  pub enrollment_id : Bytes
  pub agent_version : Bytes
  pub protocol : ℤ
  pub system : SystemInfo

-- What the reply tells the agent, beside the constant versions.
pub record Identity : Type 0 where
  pub node_id : Bytes
  pub node_name : Bytes
  pub secret : Bytes
  pub report_interval_sec : ℤ

-- The random values, the time, the source, and the outcome of `saveLocked`.
pub record Environment : Type 0 where
  pub now : ℕ
  pub ip : Bytes
  pub fresh_id : Bytes
  pub fresh_secret : Bytes
  pub saved : Bool

unfoldable pub new_runtime_node : {F : Type 0} → MetricPoint F → RuntimeNode F
new_runtime_node blank = record {
  last_seen = none;
  latest = none;
  history = new_ring blank history_capacity;
  last_history = none;
  commands = [];
  pending = [];
}

abbrev pub is_zero : ℤ → Bool
is_zero z = not (ltb_ℤ z (pos 0)) && not (ltb_ℤ (pos 0) z)

abbrev pub or_else : Bytes → Bytes → Bytes
or_else s d = if is_empty s then d else s

-- The name of a node that joins by a reusable token.
unfoldable pub joined_name : RegisterInput → Enrollment → Bytes → Bytes
joined_name input e id =
    or_else (trim_space input.name) (or_else (trim_space e.name) (text "node-" ++ take 6 id))

unfoldable pub joined_node : RegisterInput → Enrollment → Environment → PersistNode
joined_node input e env = record {
  id = env.fresh_id;
  name = joined_name input e env.fresh_id;
  group = text "默认分组";
  note = [];
  report_interval_sec = pos 2;
  secret_hash = [];
  agent_secret = [];
  previous_agent_secret = [];
  previous_secret_expires_at = 0;
  registered = false;
  created_at = unix env.now;
  system = record {
    hostname = [];
    os = [];
    os_id = [];
    arch = [];
    kernel = [];
    cpu_model = [];
    cpu_cores = pos 0;
    memory_total = 0;
    agent = [];
    protocol = pos 0;
  };
}

-- The system that is stored for the node.
unfoldable pub enrolled_system : RegisterInput → SystemInfo
enrolled_system input = record input.system {
  protocol = input.protocol;
  agent =
      if is_empty input.agent_version
      then input.system.agent
      else trim_prefix (trim_space input.agent_version) (text "v");
}

abbrev pub protocol_reason : ℤ → Bytes → Bytes
protocol_reason p relation =
    text "Agent Protocol " ++ print_int p ++ relation ++ print_nat protocol_version

-- `if a.runtime[id] == nil { a.runtime[id] = newRuntimeNode() }`
unfoldable pub ensure_runtime :
    {F : Type 0}
    → MetricPoint F
    → Bytes
    → List (Bytes × RuntimeNode F)
    → List (Bytes × RuntimeNode F)
ensure_runtime blank id m = elim (find id m) [
  | none ↦ insert id (new_runtime_node blank) m
  | some _ ↦ m
]

-- An identity that was handed out for the same token and enrollment id, and has not expired.
unfoldable pub find_receipt : {F : Type 0} → Bytes → ℕ → App F → Option Identity
find_receipt key now a =
    if is_empty key then none else elim (find key a.state.enrollment_receipts) [
      | none ↦ none
      | some rec ↦
          if ltb now rec.expires_at
          then elim (find rec.node_id a.state.nodes) [
            | none ↦ none
            | some n ↦ some (record {
              node_id = rec.node_id;
              node_name = n.name;
              secret = rec.secret;
              report_interval_sec = n.report_interval_sec;
            })
          ]
          else none
    ]

-- A token that is known and has not expired; 0 means that it never expires.
unfoldable pub find_enrollment : {F : Type 0} → Bytes → ℕ → App F → Option Enrollment
find_enrollment th now a = elim (find th a.state.enrollments) [
  | none ↦ none
  | some e ↦ if ltb 0 e.expires_at && ltb e.expires_at now then none else some e
]

module _ (hash : Bytes → Bytes) where
  -- The new secret; the one that was in use stays valid for five minutes.
  unfoldable pub enroll_node : RegisterInput → Environment → PersistNode → PersistNode
  enroll_node input env n =
      let rotates = n.registered && not (is_empty n.agent_secret) in
      record n {
        previous_agent_secret = if rotates then n.agent_secret else n.previous_agent_secret;
        previous_secret_expires_at =
            if rotates then unix (env.now + 300 * second) else n.previous_secret_expires_at;
        secret_hash = hash env.fresh_secret;
        agent_secret = env.fresh_secret;
        name = or_else (trim_space input.name) n.name;
        registered = true;
        system = enrolled_system input;
        report_interval_sec =
            if is_zero n.report_interval_sec then pos 2 else n.report_interval_sec;
      }

  unfoldable pub receipt_key : RegisterInput → Bytes → Bytes
  receipt_key input token =
      if is_empty (trim_space input.enrollment_id)
      then []
      else hash (token ++ b'|' ∷ trim_space input.enrollment_id)
