-- ===== src/Tests/Data.antt =====
-- A node, a server that knows it, and the parameters of the tests. The two digests leave their input
-- readable, and Go ranges over a map in its order.
use nodelume.Prelude.{ℕ, true, false, List, [], ◌∷◌, ◌++◌, Bytes}
use nodelume.Prelude.Int.{pos}
use nodelume.Ring.{MetricPoint}
use nodelume.Server.State.{App, PersistNode, SystemInfo, Enrollment}

abbrev pub hash : Bytes → Bytes
hash s = s

abbrev pub hmac_hex : Bytes → Bytes → Bytes
hmac_hex k m = k ++ m

abbrev pub order : List (Bytes × ℕ) → List (Bytes × ℕ)
order m = m

abbrev pub blank : MetricPoint ℕ
blank = record {
  t = 0;
  cpu = 0;
  memory = 0;
  disk = 0;
  temp = 0;
  load1 = 0;
  net_in = 0;
  net_out = 0;
  temp_valid = false;
}

abbrev pub linux : SystemInfo
linux = record {
  hostname = b'h' ∷ [];
  os = b'l' ∷ [];
  os_id = [];
  arch = b'a' ∷ [];
  kernel = [];
  cpu_model = [];
  cpu_cores = pos 2;
  memory_total = 1024;
  agent = [];
  protocol = pos 1;
}

abbrev pub node_a : PersistNode
node_a = record {
  id = b'a' ∷ [];
  name = b'n' ∷ [];
  group = [];
  note = [];
  report_interval_sec = pos 2;
  secret_hash = b's' ∷ [];
  agent_secret = b's' ∷ [];
  previous_agent_secret = [];
  previous_secret_expires_at = 0;
  registered = true;
  created_at = 5;
  system = linux;
}

-- A one-time token `t` for the node, and a reusable token `r`.
abbrev pub one_time : Enrollment
one_time = record {
  node_id = b'a' ∷ [];
  name = [];
  expires_at = 1000;
  reusable = false;
  joined = 0;
}

abbrev pub many_times : Enrollment
many_times = record { node_id = []; name = []; expires_at = 0; reusable = true; joined = 3 }

abbrev pub app : App ℕ
app = record {
  state = record {
    password = record { salt = []; hash = [] };
    settings = record {
      listen = [];
      admin_path = [];
      domain = [];
      https_mode = [];
      certificate_source = [];
      trusted_proxies = [];
      release_repo = [];
      log_retention_days = pos 14;
      log_max_mib = pos 500;
      config_version = pos 1;
    };
    nodes = (b'a' ∷ [], node_a) ∷ [];
    enrollments = (b't' ∷ [], one_time) ∷ (b'r' ∷ [], many_times) ∷ [];
    enrollment_receipts = [];
    sessions = [];
    audit = [];
  };
  runtime = [];
  login_fails = [];
  nonces = [];
  enroll_rate = [];
  active_listen = [];
  configured_public_url = [];
}
