-- ===== src/Tests/Helper.antt =====
-- The helper of the agent.
use nodelume.Prelude.{
  Bool, ◌≡◌, refl, true, false, List, [], ◌∷◌, ◌++◌, Option, none, some, Bytes, text, str_eq,
}
use nodelume.Prelude.Int.{pos}
use nodelume.Prelude.Map.{find, insert, delete}
use nodelume.Text.{
  space_width, last_space_width, skip_spaces, trim_space, cut_prefix, trim_prefix, trim_suffix,
  has_prefix, contains, cut_byte, trim_left, join, lower_byte, to_lower, print_from, print_nat,
  print_int,
}
use nodelume.Version.{all_bytes}
use nodelume.Agent.Files.{rename, write_file, replace_file, remove}
use nodelume.Agent.Helper.Args.{
  sensitive_arg, sensitive_inline_value, sensitive_name, sensitive_flag, sensitive_restart_arg,
  has_sensitive_restart_args, redact_url_user_info, sanitize_arg, sanitize_from, sanitize_args,
}
use nodelume.Agent.Helper.Args.Hidden.{SameButSecrets, sanitize_args-hides}
use nodelume.Agent.Helper.Services.{
  matches_unit, is_managed_unit, safe_service, is_protected_process, dashed_from, managed_unit,
}
use nodelume.Agent.Helper.Process.{
  Proc, StoredRecord, launch_of, restart_of, detail_of, read_process_detail, capture_restart,
}
use nodelume.Agent.Helper.Store.{
  Disk, load_stopped, write_stopped, save_stopped, remove_stopped, public_stopped,
}
use nodelume.Agent.Helper.Start.{
  Signal, System, World, quote_shell_arg, quoted_args, behind_first, exec_words,
}
use nodelume.Agent.Helper.Start.Script.{read_words, exec_words_lem}
use nodelume.Agent.Helper.Actions.{signal_process, stop_captured, stop_process, clean_up}
use nodelume.Agent.Helper.Requests.{handle_helper}
use nodelume.Agent.Helper.Actions.Signals.{signals, signals_of}
use nodelume.Agent.Helper.Requests.Spares.{handle_helper-spares}
use nodelume.Agent.Helper.Actions.Kept.{Recoverable, saved_records, stop_captured-Recoverable}

program : Unit {0}
unfolding text str_eq find insert delete space_width last_space_width skip_spaces trim_space
    cut_prefix trim_prefix trim_suffix has_prefix contains cut_byte trim_left join lower_byte
    to_lower print_from print_nat print_int all_bytes quote_shell_arg sensitive_arg
    sensitive_inline_value sensitive_name sensitive_flag sensitive_restart_arg
    has_sensitive_restart_args redact_url_user_info sanitize_arg sanitize_from sanitize_args
    matches_unit is_managed_unit safe_service is_protected_process dashed_from managed_unit
    launch_of restart_of detail_of read_process_detail capture_restart rename write_file
    replace_file remove load_stopped write_stopped save_stopped remove_stopped public_stopped
    quoted_args behind_first exec_words signal_process stop_captured stop_process clean_up signals
program = tt

abbrev no_user : Bytes → Bool
no_user _ = false

abbrev same_text : Bytes → Bytes
same_text s = s

shown :
    (sanitize_args no_user same_text (text "app" ∷ text "--token" ∷ text "t1" ∷ text "key=v" ∷ [])
      ≡ text "app --token ****** key=v")
    × (sanitize_args no_user same_text (text "app" ∷ text "--secret-id=9" ∷ [])
        ≡ text "app --secret-id=******")
    × (has_sensitive_restart_args no_user same_text (text "app" ∷ text "-v" ∷ []) ≡ false)
unfolding program
shown = (refl, refl, refl)

flag : (sanitize_arg no_user same_text (text "--token")).1 ≡ true
unfolding program
flag = refl

abbrev with_token : Bytes → List Bytes
with_token t =
    text "app" ∷ text "--token" ∷ t ∷ text "-Password" ∷ t ∷ (text "AUTH_KEY" ++ b'=' ∷ t) ∷ []

alike : SameButSecrets false (with_token (text "t1")) (with_token (text "t2"))
unfolding program
alike =
    SameButSecrets.ordinary (text "app") _ _ (refl, refl)
      (SameButSecrets.flag (text "--token") _ _ (refl, refl, refl, refl, refl)
        (SameButSecrets.behind_flag (text "t1") (text "t2") _ _ (
          SameButSecrets.flag (text "-Password") _ _ (refl, refl, refl, refl, refl)
            (SameButSecrets.behind_flag (text "t1") (text "t2") _ _ (
              SameButSecrets.value_of (text "AUTH_KEY") (text "t1") (text "t2") [] [] refl refl refl
                (SameButSecrets.both_end false))))))

sanitize_args-hides_example :
    sanitize_args no_user same_text (with_token (text "t1"))
    ≡ sanitize_args no_user same_text (with_token (text "t2"))
sanitize_args-hides_example =
    sanitize_args-hides no_user same_text (with_token (text "t1")) (with_token (text "t2")) alike

services :
    (safe_service (text "nginx.service") ≡ true)
    × (safe_service (text "sshd.service") ≡ false)
    × (safe_service (text "nginx.socket") ≡ false)
    × (is_managed_unit (text "nlm-managed-1.service") ≡ true)
    × (managed_unit (text "a b/c.service") 5 ≡ text "nlm-managed-a-b-c.service")
unfolding program
services = (refl, refl, refl, refl, refl)

abbrev sshd : Proc
sshd = record {
  name = text "sshd";
  ppid = pos 1;
  exe = text "/usr/sbin/sshd";
  cwd = text "/";
  args = text "sshd" ∷ [];
  service = text "ssh.service";
  container = false;
  cron = false;
  shell = false;
  ids = some (0, 0);
}

abbrev worker : Proc
worker = record sshd {
  name = text "worker";
  exe = text "/opt/worker";
  args = text "worker" ∷ text "it's" ∷ [];
  service = [];
}

abbrev disk : Disk
disk = record { reads = true; makes_dir = true; writes = true; names = true }

abbrev system_of : Proc → System
system_of p = record {
  proc = some p;
  later = p;
  now = 5;
  now_ns = 5_000;
  disk = disk;
  kills = true;
  gone = true;
  systemctl = true;
  acts = true;
  exe_usable = true;
  makes_run_dir = true;
  writes_script = true;
  chowns = true;
  writes_unit = true;
  reloads = true;
  starts = true;
  looks = λ _. some (pos 88);
  removes = true;
}

abbrev empty_world : World
empty_world = record { files = []; effects = [] }

abbrev unread : List StoredRecord → Bytes
unread _ = []

abbrev unreadable : Bytes → Option (List StoredRecord)
unreadable _ = none

spared :
    is_protected_process (pos 9) (text "sshd") (text "/usr/sbin/sshd") (text "ssh.service") ≡ true
unfolding program
spared = refl

handle_helper-spares_example :
    signals_of
      (handle_helper unread unreadable no_user same_text
        (system_of sshd)
        (text "process_kill")
        (pos 9)
        []
        empty_world).0
    ≡ signals_of empty_world
handle_helper-spares_example =
    handle_helper-spares no_user same_text unread unreadable (system_of sshd) (pos 9) sshd refl
      spared (text "process_kill") [] empty_world

-- Another process gets its signal.
stopped :
    signals_of
      (stop_process unread unreadable no_user same_text
        (system_of worker)
        (pos 9)
        Signal.terminate
        empty_world).0
    ≡ (pos 9, Signal.terminate) ∷ []
unfolding program
stopped = refl

abbrev kept : StoredRecord
kept = record {
  id = text "5000-9";
  name = text "worker";
  launch = [];
  service = [];
  stopped_at = 5;
  can_start = true;
  note = [];
  exe = text "/opt/worker";
  args = text "worker" ∷ text "it's" ∷ [];
  cwd = text "/";
  uid = 0;
  gid = 0;
}

exec_words_lem_example :
    read_words 2 (exec_words kept ++ 10 ∷ []) ≡ some (text "/opt/worker" ∷ text "it's" ∷ [])
exec_words_lem_example = exec_words_lem kept (text "worker") (text "it's" ∷ []) [] refl

-- Every text reads as the store with that record.
abbrev one_record : Bytes → Option (List StoredRecord)
one_record _ = some (kept ∷ [])

read_back :
    one_record (
      unread
        (saved_records unread one_record no_user same_text (system_of worker) kept empty_world))
    ≡ some (saved_records unread one_record no_user same_text (system_of worker) kept empty_world)
unfolding program
read_back = refl

stop_captured-Recoverable_example :
    Recoverable unread one_record no_user same_text
      (system_of worker)
      (pos 9)
      Signal.terminate
      kept
      empty_world
      (stop_captured unread one_record no_user same_text
        (system_of worker)
        (pos 9)
        Signal.terminate
        kept
        true
        empty_world)
stop_captured-Recoverable_example =
    stop_captured-Recoverable unread one_record no_user same_text (system_of worker) (pos 9)
      Signal.terminate kept empty_world read_back refl
