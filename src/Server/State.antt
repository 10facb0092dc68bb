-- ===== src/Server/State.antt =====
-- server/main.go: the persisted state, the runtime state and the replies of the handlers.
-- A time is the nanoseconds since 1970 and an `int64` of seconds the seconds; the clock of the
-- server stands after 1970. What comes from a client keeps its sign and its wrap-around.
use nodelume.Prelude.{ℕ, ◌/◌, Bool, List, ◌∷◌, Option, Bytes, take, length, ltb, if◌then◌else◌}
use nodelume.Prelude.Int.{ℤ}
use nodelume.Ring.{Ring}

-- `time.Second`, and the `Unix` of a time.
abbrev pub second : ℕ
second = 1_000_000_000

abbrev pub unix : ℕ → ℕ
unix now = now / second

pub record PasswordRecord : Type 0 where
  pub salt : Bytes
  pub hash : Bytes

pub record Settings : Type 0 where
  pub listen : Bytes
  pub admin_path : Bytes
  pub domain : Bytes
  pub https_mode : Bytes
  pub certificate_source : Bytes
  pub trusted_proxies : List Bytes
  pub release_repo : Bytes
  pub log_retention_days : ℤ
  pub log_max_mib : ℤ
  pub config_version : ℤ

pub record SystemInfo : Type 0 where
  pub hostname : Bytes
  pub os : Bytes
  pub os_id : Bytes
  pub arch : Bytes
  pub kernel : Bytes
  pub cpu_model : Bytes
  pub cpu_cores : ℤ
  pub memory_total : ℕ
  pub agent : Bytes
  pub protocol : ℤ

pub record PersistNode : Type 0 where
  pub id : Bytes
  pub name : Bytes
  pub group : Bytes
  pub note : Bytes
  pub report_interval_sec : ℤ
  pub secret_hash : Bytes
  pub agent_secret : Bytes
  pub previous_agent_secret : Bytes
  pub previous_secret_expires_at : ℕ
  pub registered : Bool
  pub created_at : ℕ
  pub system : SystemInfo

pub record EnrollmentReceipt : Type 0 where
  pub node_id : Bytes
  pub secret : Bytes
  pub expires_at : ℕ

pub record Enrollment : Type 0 where
  pub node_id : Bytes
  pub name : Bytes
  pub expires_at : ℕ
  pub reusable : Bool
  pub joined : ℕ

pub record AuditEntry : Type 0 where
  pub time : ℕ
  pub ip : Bytes
  pub action : Bytes
  pub node : Bytes
  pub detail : Bytes
  pub result : Bytes

pub record Session : Type 0 where
  pub csrf : Bytes
  pub expires : ℕ

pub record LoginFail : Type 0 where
  pub count : ℕ
  pub banned : Bool

pub record PersistedState : Type 0 where
  pub password : PasswordRecord
  pub settings : Settings
  pub nodes : List (Bytes × PersistNode)
  pub enrollments : List (Bytes × Enrollment)
  pub enrollment_receipts : List (Bytes × EnrollmentReceipt)
  pub sessions : List (Bytes × Session)
  pub audit : List AuditEntry

-- `ProcessSummary`, `SelfStats` and `Heartbeat`, over the type `F` of floats.
pub record ProcessSummary (F : Type 0) : Type 0 where
  pub pid : ℤ
  pub name : Bytes
  pub cpu : F
  pub memory_mb : F
  pub memory_pct : F
  pub user : Bytes
  pub state : Bytes
  pub uptime_secs : ℤ

pub record SelfStats (F : Type 0) : Type 0 where
  pub cpu_percent : F
  pub rss_bytes : ℕ
  pub disk_bytes : ℕ
  pub inodes : ℕ
  pub rx_bytes : ℕ
  pub tx_bytes : ℕ
  pub rx_rate : F
  pub tx_rate : F

pub record Heartbeat (F : Type 0) : Type 0 where
  pub time : ℤ
  pub cpu : F
  pub cpu_freq_mhz : F
  pub memory : F
  pub memory_used : ℕ
  pub memory_avail : ℕ
  pub swap_used : ℕ
  pub swap_total : ℕ
  pub disk : F
  pub disk_used : ℕ
  pub disk_total : ℕ
  pub temperature : Option F
  pub load1 : F
  pub load5 : F
  pub load15 : F
  pub net_in : F
  pub net_out : F
  pub uptime : F
  pub processes : ℤ
  pub report_interval_sec : ℤ
  pub top_cpu : List (ProcessSummary F)
  pub top_memory : List (ProcessSummary F)
  pub system : SystemInfo
  pub self : SelfStats F

pub record AgentCommand : Type 0 where
  pub protocol : ℕ
  pub id : Bytes
  pub action : Bytes
  pub timestamp : ℕ
  pub pid : ℤ
  pub version : Bytes
  pub restart_id : Bytes
  pub unit : Bytes
  pub interval : ℤ

pub record AgentResult : Type 0 where
  pub request_id : Bytes
  pub action : Bytes
  pub ok : Bool
  pub error : Bytes
  pub content : Bytes

-- `RuntimeNode`. A time that is zero is `none`, and so is the heartbeat before the first one. A
-- channel is the list of what it holds; each entry of `pending` is a channel of one place.
pub record RuntimeNode (F : Type 0) : Type 0 where
  pub last_seen : Option ℕ
  pub latest : Option (Heartbeat F)
  pub history : Ring F
  pub last_history : Option ℕ
  pub commands : List AgentCommand
  pub pending : List (Bytes × Option AgentResult)

-- `App`, without its locks and its files.
pub record App (F : Type 0) : Type 0 where
  pub state : PersistedState
  pub runtime : List (Bytes × RuntimeNode F)
  pub login_fails : List (Bytes × LoginFail)
  pub nonces : List (Bytes × ℕ)
  pub enroll_rate : List (Bytes × List ℕ)
  pub active_listen : Bytes
  pub configured_public_url : Bytes

-- What a handler writes: a result, `jsonError`, or `jsonErrorCode`.
pub data Reply (A : Type 0) : Type 0 where
  ok : ℕ → A → Reply A
  error : Bytes → ℕ → Reply A
  error_code : Bytes → Bytes → Bytes → ℕ → Reply A

abbrev pub protocol_version : ℕ
protocol_version = 1

abbrev pub max_audit : ℕ
max_audit = 500

-- `auditLocked`: the newest entry first, 500 at most.
unfoldable pub audit_locked :
    ℕ → Bytes → Bytes → Bytes → Bytes → Bytes → PersistedState → PersistedState
audit_locked now ip action node detail result s =
    let entry : AuditEntry = record {
      time = unix now;
      ip = ip;
      action = action;
      node = node;
      detail = detail;
      result = result;
    } in
    let entries = entry ∷ s.audit in
    record s { audit = if ltb max_audit (length entries) then take max_audit entries else entries }
