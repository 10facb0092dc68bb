-- ===== src/Agent/Helper/Requests/Spares.antt =====
-- agent/helper.go: the requests about a protected process.
use nodelume.Prelude.{
  option_either, if_either, ◌≡◌, refl, ◌∙◌, Bool, true, false, not, ◌||◌, List, Option, none, some,
  Bytes, text, str_eq, is_empty, length, ltb,
}
use nodelume.Prelude.Int.{ℤ, pos, ltb_ℤ}
use nodelume.Agent.Helper.Services.{safe_service, is_managed_unit, is_protected_process}
use nodelume.Agent.Helper.Process.{Proc, ProcessDetail, StoredRecord}
use nodelume.Agent.Helper.Start.{Signal, System, World, start_record}
use nodelume.Agent.Helper.Store.{load_stopped}
use nodelume.Agent.Helper.Actions.{HelperError, Answer, Done}
use nodelume.Agent.Helper.Actions.Signals.{
  signals_of, done_signals, looked, service_action-signals, start_record-signals,
  stop_process-signals, restart_process-signals,
}
use nodelume.Agent.Helper.Requests.{
  start_one, start_saved, finish_start, start_found, take_record, stop_service, service_request,
  process_info, list_stopped, handle_helper, service_record, undo_failed,
}

module _ (has_user : Bytes → Bool) (hide_user : Bytes → Bytes) where
  module _ (encode : List StoredRecord → Bytes) (decode : Bytes → Option (List StoredRecord)) where
    start_one-signals :
        (sys : System) (r : StoredRecord) (w : World)
        → signals_of (start_one encode decode has_user hide_user sys r w).0 ≡ signals_of w
    unfolding start_one
    start_one-signals sys r w =
        let started = start_record-signals has_user hide_user sys r w in
        if_either done_signals _ _ _ (signals_of w)
          (service_action-signals sys r.service (text "start") w)
          (option_either done_signals (start_record has_user hide_user sys r w).1 _ _ (signals_of w)
            started (λ pid at. started))

    finish_start-signals :
        (sys : System) (others : List StoredRecord) (done : Done)
        → signals_of (finish_start encode decode has_user hide_user sys others done).0
          ≡ signals_of done.0
    unfolding finish_start
    finish_start-signals sys others (w, Answer.failed e) = refl
    finish_start-signals sys others (w, Answer.detail d) = refl
    finish_start-signals sys others (w, Answer.exited pid sig r) = refl
    finish_start-signals sys others (w, Answer.restarted pid npid) = refl
    finish_start-signals sys others (w, Answer.service_state unit) = refl
    finish_start-signals sys others (w, Answer.stopped_list xs) = refl
    finish_start-signals sys others (w, Answer.direct pid) = refl

    start_found-signals :
        (sys : System) (found : Option (StoredRecord × List StoredRecord)) (w : World)
        → signals_of (start_found encode decode has_user hide_user sys found w).0 ≡ signals_of w
    unfolding start_found
    start_found-signals sys none w = refl
    start_found-signals sys (some (r, others)) w =
        if_either done_signals (not r.can_start) _ _ (signals_of w) refl (
          finish_start-signals sys others (start_one encode decode has_user hide_user sys r w)
          ∙ start_one-signals sys r w)

    start_saved-signals :
        (sys : System) (id : Bytes) (w : World)
        → signals_of (start_saved encode decode has_user hide_user sys id w).0 ≡ signals_of w
    unfolding start_saved
    start_saved-signals sys id w =
        let found = λ (xs : List StoredRecord).
          start_found-signals sys (take_record encode decode has_user hide_user id xs) w in
        if_either done_signals (is_empty id || ltb 128 (length id))
          (w, Answer.failed HelperError.bad_record_id) _ (signals_of w) refl
          (option_either done_signals (load_stopped encode decode sys.disk w.files)
            (w, Answer.failed HelperError.unreadable_store) _ (signals_of w) refl
            (λ xs at. found xs))

    module _ (sys : System) (pid : ℤ) (p : Proc) (there : sys.proc ≡ some p)
        (spared : is_protected_process pid p.name p.exe p.service ≡ true) where
      undo_failed-signals :
          (r : StoredRecord) (done : Done)
          → signals_of (undo_failed encode decode has_user hide_user sys r done).0
            ≡ signals_of done.0
      undo_failed-signals r (w, Answer.failed e) = refl
      undo_failed-signals r (w, Answer.detail d) = refl
      undo_failed-signals r (w, Answer.exited n sig s) = refl
      undo_failed-signals r (w, Answer.restarted n npid) = refl
      undo_failed-signals r (w, Answer.service_state unit) = refl
      undo_failed-signals r (w, Answer.stopped_list xs) = refl
      undo_failed-signals r (w, Answer.direct n) = refl

      stop_service-signals :
          (d : ProcessDetail) (w : World)
          → signals_of (stop_service encode decode has_user hide_user sys pid d w).0 ≡ signals_of w
      unfolding stop_service
      stop_service-signals d w =
          if_either done_signals (is_managed_unit d.service) _ _ (signals_of w)
            (stop_process-signals has_user hide_user encode decode sys pid p there spared
              Signal.terminate w)
            (if_either done_signals (not (safe_service d.service)) _ _ (signals_of w) refl (
              if_either done_signals _ _ _ (signals_of w)
                (undo_failed-signals (service_record encode decode has_user hide_user sys pid d) _
                  ∙ service_action-signals sys d.service (text "stop") _)
                refl))

      service_request-signals :
          (stops : Bool) (w : World)
          → signals_of (service_request encode decode has_user hide_user sys stops pid w).0
            ≡ signals_of w
      unfolding service_request
      service_request-signals stops w =
          if_either done_signals (not (ltb_ℤ (pos 0) pid)) _ _ (signals_of w) refl (
            option_either done_signals
              (looked has_user hide_user encode decode sys pid p there spared) _ _ (signals_of w)
              refl
              (λ d at. if_either done_signals (is_empty d.service) _ _ (signals_of w) refl (
                if_either done_signals stops _ _ (signals_of w) (stop_service-signals d w)
                  (service_action-signals sys d.service (text "restart") w))))

      process_info-signals :
          (w : World)
          → signals_of (process_info encode decode has_user hide_user sys pid w).0 ≡ signals_of w
      unfolding process_info
      process_info-signals w =
          option_either done_signals
            (looked has_user hide_user encode decode sys pid p there spared) _ _ (signals_of w) refl
            (λ d at. refl)

      list_stopped-signals :
          (w : World)
          → signals_of (list_stopped encode decode has_user hide_user sys w).0 ≡ signals_of w
      unfolding list_stopped
      list_stopped-signals w = option_either done_signals _ _ _ (signals_of w) refl (λ xs at. refl)

      -- Whatever the helper is asked about a protected process, it sends no signal.
      pub handle_helper-spares :
          (action restart_id : Bytes) (w : World)
          → signals_of
              (handle_helper encode decode has_user hide_user sys action pid restart_id w).0
            ≡ signals_of w
      unfolding handle_helper
      handle_helper-spares action restart_id w =
          if_either done_signals (str_eq action (text "process_info")) _ _ (signals_of w)
            (process_info-signals w)
            (if_either done_signals (str_eq action (text "process_terminate")) _ _ (signals_of w)
              (stop_process-signals has_user hide_user encode decode sys pid p there spared
                Signal.terminate w)
              (if_either done_signals (str_eq action (text "process_kill")) _ _ (signals_of w)
                (stop_process-signals has_user hide_user encode decode sys pid p there spared
                  Signal.kill w)
                (if_either done_signals (str_eq action (text "process_restart")) _ _ (signals_of w)
                  (restart_process-signals has_user hide_user encode decode sys pid p there spared
                    w)
                  (if_either done_signals (str_eq action (text "stopped_list")) _ _ (signals_of w)
                    (list_stopped-signals w)
                    (if_either done_signals (str_eq action (text "process_start_saved")) _ _
                      (signals_of w) (start_saved-signals sys restart_id w)
                      (if_either done_signals (str_eq action (text "service_stop")) _ _
                        (signals_of w) (service_request-signals true w)
                        (if_either done_signals (str_eq action (text "service_restart")) _ _
                          (signals_of w) (service_request-signals false w) refl)))))))
