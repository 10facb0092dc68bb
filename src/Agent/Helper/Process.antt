-- ===== src/Agent/Helper/Process.antt =====
-- agent/helper.go: what the helper says of a process, `readProcessDetail`, and what it keeps to start
-- it again, `captureRestart`. What /proc says is an argument. The fields that are shown and never
-- tested (memory, user, state, parent, tree) are not modelled.
use nodelume.Prelude.{
  ℕ, Bool, true, false, not, ◌&&◌, ◌||◌, List, [], ◌∷◌, ◌++◌, Option, none, some, Bytes, text,
  str_eq, is_empty, if◌then◌else◌,
}
use nodelume.Prelude.Int.{ℤ, pos, ltb_ℤ}
use nodelume.Text.{has_prefix, contains, print_nat, print_int}
use nodelume.Agent.Helper.Args.{has_sensitive_restart_args, sanitize_args}
use nodelume.Agent.Helper.Services.{is_managed_unit, safe_service, is_protected_process}

-- What /proc says of a process; `cron` and `shell`: it has such an ancestor.
pub record Proc : Type 0 where
  pub name : Bytes
  pub ppid : ℤ
  pub exe : Bytes
  pub cwd : Bytes
  pub args : List Bytes
  pub service : Bytes
  pub container : Bool
  pub cron : Bool
  pub shell : Bool
  pub ids : Option (ℕ × ℕ)

pub record ProcessDetail : Type 0 where
  pub pid : ℤ
  pub name : Bytes
  pub command : Bytes
  pub launch : Bytes
  pub service : Bytes
  pub exe : Bytes
  pub cwd : Bytes
  pub protected : Bool
  pub can_terminate : Bool
  pub can_kill : Bool
  pub can_restart : Bool
  pub restart_mode : Bytes
  pub note : Bytes

abbrev is_one : ℤ → Bool
is_one n = not (ltb_ℤ n (pos 1)) && not (ltb_ℤ (pos 1) n)

abbrev pub no_args : List Bytes → Bool
no_args [] = true
no_args (_ ∷ _) = false

-- The `if` chain, with the note that two of its branches set.
unfoldable pub launch_of : ℤ → Proc → Bytes × Bytes
launch_of pid p =
    if is_one pid
    then (text "init", [])
    else if has_prefix p.name (text "[") || (is_empty p.exe && no_args p.args)
    then (text "内核线程", [])
    else if p.container
    then (text "容器", text "容器进程由运行时管理，不允许由 NodeLume 直接重启")
    else if is_managed_unit p.service
    then (text "NodeLume 托管 / 独立进程", [])
    else if not (is_empty p.service)
    then (if is_one p.ppid then (text "systemd 服务", []) else (text "子进程 / systemd", []))
    else if p.cron
    then (text "Cron 任务", text "Cron 任务不由 NodeLume 直接重新启动")
    else if p.shell
    then (text "手动 / 独立二进制", [])
    else if is_one p.ppid
    then (text "独立后台进程", [])
    else (text "普通进程", [])

pub record StoredRecord : Type 0 where
  pub id : Bytes
  pub name : Bytes
  pub launch : Bytes
  pub service : Bytes
  pub stopped_at : ℕ
  pub can_start : Bool
  pub note : Bytes
  pub exe : Bytes
  pub args : List Bytes
  pub cwd : Bytes
  pub uid : ℕ
  pub gid : ℕ

abbrev pub systemd_mode : Bytes
systemd_mode = text "systemd"

abbrev pub direct_mode : Bytes
direct_mode = text "direct"

abbrev restart_note : Bytes
restart_note = text "检测到敏感启动参数；为避免把密钥持久化到恢复记录，NodeLume 禁用此进程的直接重启/恢复"

module _ (has_user : Bytes → Bool) (hide_user : Bytes → Bytes) where
  -- Whether a process can be restarted, how, and the note.
  unfoldable pub restart_of : Bool → Bytes → Bytes → Proc → Bool × Bytes × Bytes
  restart_of protected launch note p =
      let first : Bool × Bytes × Bytes =
        if not protected && not (is_empty p.service) && safe_service p.service
        then (true, systemd_mode, note)
        else (false, [], note) in
      if not protected
        && is_empty p.service
        && not p.container
        && not (contains launch (text "Cron"))
        && not (is_empty p.exe)
        && not (no_args p.args)
      then (if has_sensitive_restart_args has_user hide_user p.args
          then (first.0, first.1, restart_note)
          else (true, direct_mode, first.2))
      else first

  unfoldable pub detail_of : ℤ → Proc → ProcessDetail
  detail_of pid p =
      let command = sanitize_args has_user hide_user p.args in
      let launch = launch_of pid p in
      let protected = is_protected_process pid p.name p.exe p.service in
      let can_terminate = not protected && ltb_ℤ (pos 1) pid in
      let restart = restart_of protected launch.0 launch.1 p in
      record {
        pid = pid;
        name = p.name;
        command = if is_empty command then text "[" ++ p.name ++ text "]" else command;
        launch = launch.0;
        service = p.service;
        exe = p.exe;
        cwd = p.cwd;
        protected = protected;
        can_terminate = can_terminate;
        can_kill = can_terminate;
        can_restart = restart.0;
        restart_mode = restart.1;
        note = restart.2;
      }

  -- `none`: the pid is not positive, or there is no such process.
  unfoldable pub read_process_detail : ℤ → Option Proc → Option ProcessDetail
  read_process_detail pid proc =
      if not (ltb_ℤ (pos 0) pid)
      then none
      else elim proc [ none ↦ none | some p ↦ some (detail_of pid p) ]

  -- The record without what is needed to start the process directly.
  abbrev pub bare_record : ℤ → ProcessDetail → ℕ → ℕ → StoredRecord
  bare_record pid d now_ns now = record {
    id = print_nat now_ns ++ b'-' ∷ print_int pid;
    name = d.name;
    launch = d.launch;
    service = if is_managed_unit d.service then [] else d.service;
    stopped_at = now;
    can_start = d.can_restart;
    note = d.note;
    exe = [];
    args = [];
    cwd = [];
    uid = 0;
    gid = 0;
  }

  -- /proc is read again: `p` is what it says now.
  unfoldable pub capture_restart : ℤ → ProcessDetail → Proc → ℕ → ℕ → StoredRecord × Bool
  capture_restart pid d p now_ns now =
      let r = bare_record pid d now_ns now in
      if str_eq d.restart_mode systemd_mode && not (is_managed_unit d.service)
      then (r, true)
      else if has_sensitive_restart_args has_user hide_user p.args
      then (
        record r {
          can_start = false;
          note =
              text "sensitive command arguments detected; direct recovery intentionally disabled";
        },
        false,
      )
      else if is_empty p.exe || no_args p.args
      then (r, false)
      else elim p.ids [
        | none ↦ (r, false)
        | some (uid, gid) ↦
            (record r { exe = p.exe; args = p.args; cwd = p.cwd; uid = uid; gid = gid }, true)
      ]
