-- ===== src/Agent/Helper/Actions.antt =====
-- agent/helper.go: stopping and restarting processes, `serviceAction`, `stopProcess` and
-- `restartProcess`.
pub mod Signals
pub mod Kept
use nodelume.Prelude.{
  ℕ, Bool, true, false, not, ◌&&◌, ◌||◌, List, [], ◌∷◌, ◌++◌, Option, none, some, Bytes, text,
  str_eq, is_empty, length, ltb, if◌then◌else◌,
}
use nodelume.Prelude.Int.{ℤ, pos, ltb_ℤ}
use nodelume.Text.{print_nat, print_int}
use nodelume.Agent.Files.{Files}
use nodelume.Agent.Helper.Services.{safe_service, is_managed_unit}
use nodelume.Agent.Helper.Process.{
  Proc, ProcessDetail, StoredRecord, read_process_detail, capture_restart, systemd_mode,
}
use nodelume.Agent.Helper.Start.{
  remove_both, Signal, Effect, System, World, log, with_files, start_record,
}
use nodelume.Agent.Helper.Store.{
  Disk, load_stopped, write_stopped, save_stopped, remove_stopped, public_record, public_stopped,
}

pub data HelperError : Type 0 where
  no_process : HelperError
  protected_process : HelperError
  not_saved : HelperError
  not_signalled : HelperError
  still_running : HelperError
  not_restartable : HelperError
  no_snapshot : HelperError
  not_started : HelperError
  protected_service : HelperError
  bad_service_action : HelperError
  no_systemd : HelperError
  service_failed : HelperError
  bad_record_id : HelperError
  unreadable_store : HelperError
  not_startable : HelperError
  no_record : HelperError
  no_pid : HelperError
  no_service : HelperError
  unsupported : HelperError

-- What a request is answered with.
pub data Answer : Type 0 where
  failed : HelperError → Answer
  detail : ProcessDetail → Answer
  exited : ℤ → Signal → Option StoredRecord → Answer
  restarted : ℤ → ℤ → Answer
  service_state : Bytes → Answer
  stopped_list : List StoredRecord → Answer
  direct : ℤ → Answer

abbrev pub Done : Type 0
Done = World × Answer

-- The command of `systemctl` runs, whether it works or not.
unfoldable pub service_action : System → Bytes → Bytes → World → Done
service_action sys unit action w =
    if not (safe_service unit)
    then (w, Answer.failed HelperError.protected_service)
    else if not (str_eq action (text "start"))
        && not (str_eq action (text "stop"))
        && not (str_eq action (text "restart"))
    then (w, Answer.failed HelperError.bad_service_action)
    else if not sys.systemctl
    then (w, Answer.failed HelperError.no_systemd)
    else if sys.acts
    then (log (Effect.acted unit action) w, Answer.service_state unit)
    else (log (Effect.acted unit action) w, Answer.failed HelperError.service_failed)

module _ (encode : List StoredRecord → Bytes) (decode : Bytes → Option (List StoredRecord))
    (has_user : Bytes → Bool) (hide_user : Bytes → Bytes) where
  abbrev pub forget : System → StoredRecord → World → World
  forget sys r w = with_files (remove_stopped encode decode sys.disk r.id w.files).0 w

  -- The record is taken back where the stop did not work.
  abbrev pub undo_save : System → StoredRecord → Bool → World → World
  undo_save sys r can w = if can then forget sys r w else w

  -- The signal and the wait; `kill` that fails sends nothing.
  unfoldable pub signal_process : System → ℤ → Signal → StoredRecord → Bool → World → Done
  signal_process sys pid sig r can w =
      if not sys.kills
      then (undo_save sys r can w, Answer.failed HelperError.not_signalled)
      else (let w' = log (Effect.signalled pid sig) w in
          if not sys.gone
          then (undo_save sys r can w', Answer.failed HelperError.still_running)
          else (w', Answer.exited pid sig (if can then some (public_record r) else none)))

  -- A record that cannot be saved stops everything.
  unfoldable pub stop_captured : System → ℤ → Signal → StoredRecord → Bool → World → Done
  stop_captured sys pid sig r can w =
      if can
      then (let (fs, saved) = save_stopped encode decode sys.disk r w.files in
          let stopped = signal_process sys pid sig r can (with_files fs w) in
          if saved then stopped else (with_files fs w, Answer.failed HelperError.not_saved))
      else signal_process sys pid sig r can w

  -- `cleanupManagedRuntimeUnit`, once the process is gone.
  unfoldable pub clean_up : System → Bytes → Done → Done
  clean_up sys unit (w, Answer.exited pid sig r) =
      if is_managed_unit unit
      then (remove_both sys unit w, Answer.exited pid sig r)
      else (w, Answer.exited pid sig r)
  clean_up sys unit done = done

  unfoldable pub stop_process : System → ℤ → Signal → World → Done
  stop_process sys pid sig w = elim (read_process_detail has_user hide_user pid sys.proc) [
    | none ↦ (w, Answer.failed HelperError.no_process)
    | some d ↦
        if d.protected || not d.can_terminate
        then (w, Answer.failed HelperError.protected_process)
        else (let (r, can) =
              capture_restart has_user hide_user pid d sys.later sys.now_ns sys.now in
            clean_up sys d.service (stop_captured sys pid sig r can w))
  ]

  unfoldable pub start_again : System → ℤ → StoredRecord → World → Done
  start_again sys pid r w =
      let (w', npid) = start_record has_user hide_user sys r w in
      elim npid [
        | none ↦ (w', Answer.failed HelperError.not_started)
        | some n ↦ (forget sys r w', Answer.restarted pid n)
      ]

  unfoldable pub restart_captured : System → ℤ → StoredRecord → World → Done
  restart_captured sys pid r w =
      let (fs, saved) = save_stopped encode decode sys.disk r w.files in
      let w1 = with_files fs w in
      let w2 = log (Effect.signalled pid Signal.terminate) w1 in
      if not saved
      then (w1, Answer.failed HelperError.not_saved)
      else if not sys.kills
      then (forget sys r w1, Answer.failed HelperError.not_signalled)
      else if not sys.gone
      then (forget sys r w2, Answer.failed HelperError.still_running)
      else start_again sys pid r w2

  unfoldable pub restart_process : System → ℤ → World → Done
  restart_process sys pid w = elim (read_process_detail has_user hide_user pid sys.proc) [
    | none ↦ (w, Answer.failed HelperError.no_process)
    | some d ↦
        if d.protected || not d.can_restart
        then (w, Answer.failed HelperError.not_restartable)
        else if str_eq d.restart_mode systemd_mode
        then service_action sys d.service (text "restart") w
        else (let (r, can) =
              capture_restart has_user hide_user pid d sys.later sys.now_ns sys.now in
            if can
            then restart_captured sys pid r w
            else (w, Answer.failed HelperError.no_snapshot))
  ]
