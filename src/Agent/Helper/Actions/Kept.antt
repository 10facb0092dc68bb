-- ===== src/Agent/Helper/Actions/Kept.antt =====
-- agent/helper.go: how a stop ends, and what it leaves in the store.
use nodelume.Prelude.{
  ◌≡◌, refl, ap, ◌∙◌, sym, Bool, true, false, not, List, [], ◌∷◌, Option, none, some, Bytes, take,
  if◌then◌else◌, Bool-cases, inl, inr,
}
use mathlib.Core.Path.{subst}
use nodelume.Prelude.Int.{ℤ}
use nodelume.Prelude.Map.{find}
use nodelume.Agent.Files.{Files, replace_file-works}
use nodelume.Agent.Helper.Process.{StoredRecord}
use nodelume.Agent.Helper.Start.{Signal, Effect, System, World, with_files}
use nodelume.Agent.Helper.Store.{
  Disk, store_limit, stopped_path, or_empty, load_stopped, write_stopped, save_stopped,
}
use nodelume.Agent.Helper.Actions.{
  log, public_record, HelperError, Answer, Done, signal_process, stop_captured, undo_save,
}
use nodelume.Agent.Helper.Actions.Signals.{signals_of}

module _ (encode : List StoredRecord → Bytes) (decode : Bytes → Option (List StoredRecord))
    (has_user : Bytes → Bool) (hide_user : Bytes → Bytes) where
  -- The records of the store with a new one, as many as fit.
  abbrev pub saved_records : System → StoredRecord → World → List StoredRecord
  saved_records sys r w =
      take store_limit (r ∷ or_empty (load_stopped encode decode sys.disk w.files))

  load_stopped-there :
      (disk : Disk) (b : Bytes) (fs : Files)
      → disk.reads ≡ true
      → find stopped_path fs ≡ some b
      → load_stopped encode decode disk fs ≡ decode b
  unfolding load_stopped
  load_stopped-there disk b fs reads there =
      ap (λ o. elim o [ none ↦ some [] | some c ↦ if disk.reads then decode c else none ]) there
      ∙ ap (λ r. if r then decode b else none) reads

  save_stopped-saved :
      (sys : System) (r : StoredRecord) (w : World)
      → (save_stopped encode decode sys.disk r w.files).1 ≡ true
      → find stopped_path (save_stopped encode decode sys.disk r w.files).0
        ≡ some (encode (saved_records sys r w))
  unfolding save_stopped write_stopped
  save_stopped-saved sys r w =
      replace_file-works sys.disk.makes_dir sys.disk.writes sys.disk.names _ stopped_path
        (encode (saved_records sys r w)) w.files

  -- How a stop ends: without a signal; with the process still there; or with the process gone, and
  -- its record first in the store.
  pub data Recoverable (sys : System) (pid : ℤ) (sig : Signal) (r : StoredRecord) (w : World)
      (done : Done) : Type 0 where
    unsignalled : signals_of done.0 ≡ signals_of w → Recoverable sys pid sig r w done
    survived : done.1 ≡ Answer.failed HelperError.still_running → Recoverable sys pid sig r w done
    recorded :
        load_stopped encode decode sys.disk done.0.files ≡ some (saved_records sys r w)
        → Recoverable sys pid sig r w done

  module _ (sys : System) (pid : ℤ) (sig : Signal) (r : StoredRecord) (w : World) where
    abbrev saved_world : World
    saved_world = with_files (save_stopped encode decode sys.disk r w.files).0 w

    abbrev signal_done : Done
    signal_done = signal_process encode decode has_user hide_user sys pid sig r true saved_world

    stop_captured-saved :
        (save_stopped encode decode sys.disk r w.files).1 ≡ true
        → stop_captured encode decode has_user hide_user sys pid sig r true w ≡ signal_done
    unfolding stop_captured
    stop_captured-saved h =
        ap (λ b. if b then signal_done else (saved_world, Answer.failed HelperError.not_saved)) h

    stop_captured-unsaved :
        (save_stopped encode decode sys.disk r w.files).1 ≡ false
        → stop_captured encode decode has_user hide_user sys pid sig r true w
          ≡ (saved_world, Answer.failed HelperError.not_saved)
    unfolding stop_captured
    stop_captured-unsaved h =
        ap (λ b. if b then signal_done else (saved_world, Answer.failed HelperError.not_saved)) h

    abbrev sent_world : World
    sent_world = log (Effect.signalled pid sig) saved_world

    abbrev waited : Bool → Done
    waited gone =
        if not gone
        then (
          undo_save encode decode has_user hide_user sys r true sent_world,
          Answer.failed HelperError.still_running,
        )
        else (sent_world, Answer.exited pid sig (some (public_record r)))

    abbrev killed : Bool → Done
    killed kills =
        if not kills
        then (
          undo_save encode decode has_user hide_user sys r true saved_world,
          Answer.failed HelperError.not_signalled,
        )
        else waited sys.gone

    signal_done-killed : signal_done ≡ killed sys.kills
    unfolding signal_process
    signal_done-killed = refl

    recorded_lem :
        decode (encode (saved_records sys r w)) ≡ some (saved_records sys r w)
        → sys.disk.reads ≡ true
        → (save_stopped encode decode sys.disk r w.files).1 ≡ true
        → load_stopped encode decode sys.disk saved_world.files ≡ some (saved_records sys r w)
    recorded_lem law reads saved =
        load_stopped-there sys.disk (encode (saved_records sys r w)) saved_world.files reads
          (save_stopped-saved sys r w saved)
        ∙ law

    signal_done-Recoverable :
        load_stopped encode decode sys.disk saved_world.files ≡ some (saved_records sys r w)
        → Recoverable sys pid sig r w signal_done
    signal_done-Recoverable there =
        subst (Recoverable sys pid sig r w) (sym signal_done-killed) (elim (Bool-cases sys.kills) [
          | inr unsent ↦
              subst (λ b. Recoverable sys pid sig r w (killed b)) (sym unsent) (unsignalled refl)
          | inl sent ↦
              subst (λ b. Recoverable sys pid sig r w (killed b)) (sym sent)
                (elim (Bool-cases sys.gone) [
                  | inr left ↦
                      subst (λ b. Recoverable sys pid sig r w (waited b)) (sym left) (survived refl)
                  | inl gone ↦
                      subst (λ b. Recoverable sys pid sig r w (waited b)) (sym gone)
                        (recorded there)
                ])
        ])

    -- Where the store can be read and its new content decodes to itself, stopping a process that can be
    -- started again ends in one of three ways, whatever fails: no signal was sent; the process is
    -- reported as still running; or its record is first in the store.
    pub stop_captured-Recoverable :
        decode (encode (saved_records sys r w)) ≡ some (saved_records sys r w)
        → sys.disk.reads ≡ true
        → Recoverable sys pid sig r w
            (stop_captured encode decode has_user hide_user sys pid sig r true w)
    stop_captured-Recoverable law reads =
        elim (Bool-cases (save_stopped encode decode sys.disk r w.files).1) [
          | inl saved ↦
              subst (Recoverable sys pid sig r w) (sym (stop_captured-saved saved))
                (signal_done-Recoverable (recorded_lem law reads saved))
          | inr unsaved ↦
              subst (Recoverable sys pid sig r w) (sym (stop_captured-unsaved unsaved))
                (unsignalled refl)
        ]
