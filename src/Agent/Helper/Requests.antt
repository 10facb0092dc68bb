-- ===== src/Agent/Helper/Requests.antt =====
-- agent/helper.go: starting a stopped process again, `startSaved`, and the requests of the agent,
-- `handleHelperConn`.
pub mod Spares
use nodelume.Prelude.{
  ℕ, Bool, true, false, not, ◌&&◌, ◌||◌, List, [], ◌∷◌, ◌++◌, Option, none, some, Bytes, text,
  str_eq, is_empty, length, ltb, if◌then◌else◌,
}
use nodelume.Prelude.Int.{ℤ, pos, ltb_ℤ}
use nodelume.Text.{print_nat, print_int}
use nodelume.Agent.Files.{Files}
use nodelume.Agent.Helper.Services.{safe_service, is_managed_unit}
use nodelume.Agent.Helper.Process.{
  Proc, ProcessDetail, StoredRecord, read_process_detail, capture_restart, systemd_mode,
}
use nodelume.Agent.Helper.Start.{
  remove_both, Signal, Effect, System, World, log, with_files, start_record,
}
use nodelume.Agent.Helper.Store.{
  Disk, load_stopped, write_stopped, save_stopped, remove_stopped, public_record, public_stopped,
}
use nodelume.Agent.Helper.Actions.{
  HelperError, Answer, Done, service_action, forget, stop_process, restart_process,
}

module _ (encode : List StoredRecord → Bytes) (decode : Bytes → Option (List StoredRecord))
    (has_user : Bytes → Bool) (hide_user : Bytes → Bytes) where
  -- The first record of that id, and the others.
  unfoldable pub take_record : Bytes → List StoredRecord → Option (StoredRecord × List StoredRecord)
  take_record id [] = none
  take_record id (r ∷ rest) =
      if str_eq r.id id then some (r, rest) else elim (take_record id rest) [
        | none ↦ none
        | some (found, others) ↦ some (found, r ∷ others)
      ]

  -- The record leaves the store once its start worked.
  unfoldable pub finish_start : System → List StoredRecord → Done → Done
  finish_start sys others (w, Answer.failed e) = (w, Answer.failed e)
  finish_start sys others (w, done) =
      (with_files (write_stopped encode decode sys.disk others w.files).0 w, done)

  unfoldable pub start_one : System → StoredRecord → World → Done
  start_one sys r w =
      if not (is_empty r.service)
      then service_action sys r.service (text "start") w
      else (let (w', pid) = start_record has_user hide_user sys r w in
          elim pid [
            | none ↦ (w', Answer.failed HelperError.not_started)
            | some n ↦ (w', Answer.direct n)
          ])

  unfoldable pub start_found : System → Option (StoredRecord × List StoredRecord) → World → Done
  start_found sys none w = (w, Answer.failed HelperError.no_record)
  start_found sys (some (r, others)) w =
      if not r.can_start
      then (w, Answer.failed HelperError.not_startable)
      else finish_start sys others (start_one sys r w)

  unfoldable pub start_saved : System → Bytes → World → Done
  start_saved sys id w =
      if is_empty id || ltb 128 (length id)
      then (w, Answer.failed HelperError.bad_record_id)
      else elim (load_stopped encode decode sys.disk w.files) [
        | none ↦ (w, Answer.failed HelperError.unreadable_store)
        | some xs ↦ start_found sys (take_record id xs) w
      ]

  abbrev pub service_record : System → ℤ → ProcessDetail → StoredRecord
  service_record sys pid d = record {
    id = print_nat sys.now_ns ++ b'-' ∷ print_int pid;
    name = d.name;
    launch = d.launch;
    service = d.service;
    stopped_at = sys.now;
    can_start = true;
    note = text "systemd service stopped by NodeLume";
    exe = [];
    args = [];
    cwd = [];
    uid = 0;
    gid = 0;
  }

  abbrev pub undo_failed : System → StoredRecord → Done → Done
  undo_failed sys r (w, Answer.failed e) =
      (forget encode decode has_user hide_user sys r w, Answer.failed e)
  undo_failed sys r (w, done) = (w, done)

  unfoldable pub stop_service : System → ℤ → ProcessDetail → World → Done
  stop_service sys pid d w =
      if is_managed_unit d.service
      then stop_process encode decode has_user hide_user sys pid Signal.terminate w
      else if not (safe_service d.service)
      then (w, Answer.failed HelperError.protected_service)
      else (let r = service_record sys pid d in
          let (fs, saved) = save_stopped encode decode sys.disk r w.files in
          let stopped = service_action sys d.service (text "stop") (with_files fs w) in
          if saved
          then undo_failed sys r stopped
          else (with_files fs w, Answer.failed HelperError.not_saved))

  -- Both actions on the service of a process.
  unfoldable pub service_request : System → Bool → ℤ → World → Done
  service_request sys stops pid w =
      if not (ltb_ℤ (pos 0) pid)
      then (w, Answer.failed HelperError.no_pid)
      else elim (read_process_detail has_user hide_user pid sys.proc) [
        | none ↦ (w, Answer.failed HelperError.no_process)
        | some d ↦
            if is_empty d.service
            then (w, Answer.failed HelperError.no_service)
            else if stops
            then stop_service sys pid d w
            else service_action sys d.service (text "restart") w
      ]

  unfoldable pub process_info : System → ℤ → World → Done
  process_info sys pid w = elim (read_process_detail has_user hide_user pid sys.proc) [
    | none ↦ (w, Answer.failed HelperError.no_process)
    | some d ↦ (w, Answer.detail d)
  ]

  unfoldable pub list_stopped : System → World → Done
  list_stopped sys w = elim (public_stopped encode decode sys.disk w.files) [
    | none ↦ (w, Answer.failed HelperError.unreadable_store)
    | some xs ↦ (w, Answer.stopped_list xs)
  ]

  -- `handleHelperConn` on the actions on processes and services; the two on the binary are
  -- `perform_agent_upgrade` and `commit_agent_update`.
  unfoldable pub handle_helper : System → Bytes → ℤ → Bytes → World → Done
  handle_helper sys action pid restart_id w =
      if str_eq action (text "process_info")
      then process_info sys pid w
      else if str_eq action (text "process_terminate")
      then stop_process encode decode has_user hide_user sys pid Signal.terminate w
      else if str_eq action (text "process_kill")
      then stop_process encode decode has_user hide_user sys pid Signal.kill w
      else if str_eq action (text "process_restart")
      then restart_process encode decode has_user hide_user sys pid w
      else if str_eq action (text "stopped_list")
      then list_stopped sys w
      else if str_eq action (text "process_start_saved")
      then start_saved sys restart_id w
      else if str_eq action (text "service_stop")
      then service_request sys true pid w
      else if str_eq action (text "service_restart")
      then service_request sys false pid w
      else (w, Answer.failed HelperError.unsupported)
