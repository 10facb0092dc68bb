-- ===== src/Agent/Helper/Actions/Signals.antt =====
-- agent/helper.go: the signals that the helper sends.
use nodelume.Prelude.{
  if_known, option_either, if_either, ◌≡◌, refl, ap, ◌∙◌, sym, arith, Bool, true, false, not, ◌||◌,
  List, [], ◌∷◌, Option, none, some, Bytes, if◌then◌else◌, Bool-cases, inl, inr,
}
use nodelume.Prelude.Int.{ℤ, pos, ltb_ℤ}
use nodelume.Agent.Helper.Services.{managed_unit, is_protected_process}
use nodelume.Agent.Helper.Process.{
  Proc, ProcessDetail, StoredRecord, detail_of, read_process_detail,
}
use nodelume.Agent.Helper.Start.{
  remove_both, Signal, Effect, System, Start, World, start_unit, write_unit, start_record, main_pid,
}
use nodelume.Agent.Helper.Actions.{Done, service_action, stop_process, restart_process}

-- The signals among some effects.
unfoldable pub signals : List Effect → List (ℤ × Signal)
signals [] = []
signals (Effect.signalled pid sig ∷ rest) = (pid, sig) ∷ signals rest
signals (Effect.acted unit action ∷ rest) = signals rest

abbrev protected_in : Option ProcessDetail → Bool
protected_in none = false
protected_in (some d) = d.protected

abbrev pub signals_of : World → List (ℤ × Signal)
signals_of w = signals w.effects

abbrev start_signals : Start → List (ℤ × Signal)
start_signals d = signals_of d.0

abbrev pub done_signals : Done → List (ℤ × Signal)
done_signals d = signals_of d.0

pub service_action-signals :
    (sys : System) (unit action : Bytes) (w : World)
    → signals_of (service_action sys unit action w).0 ≡ signals_of w
unfolding service_action signals
service_action-signals sys unit action w = ground arith

start_unit-signals :
    (sys : System) (unit : Bytes) (w : World) → signals_of (start_unit sys unit w).0 ≡ signals_of w
unfolding start_unit remove_both signals
start_unit-signals sys unit w = if_either start_signals (not sys.reloads) _ _ (signals_of w) refl (
    if_either start_signals (not sys.starts) _ _ (signals_of w) refl (
      option_either start_signals (main_pid sys.looks 21 0) _ _ (signals_of w) refl
        (λ pid at. refl)))

write_unit-signals :
    (sys : System) (r : StoredRecord) (unit : Bytes) (w : World)
    → signals_of (write_unit sys r unit w).0 ≡ signals_of w
unfolding write_unit
write_unit-signals sys r unit w = if_either start_signals _ _ _ (signals_of w) refl (
    if_either start_signals (not sys.chowns) _ _ (signals_of w) refl
      (if_either start_signals _ _ _ (signals_of w) refl (start_unit-signals sys unit _)))

module _ (has_user : Bytes → Bool) (hide_user : Bytes → Bytes) where
  pub start_record-signals :
      (sys : System) (r : StoredRecord) (w : World)
      → signals_of (start_record has_user hide_user sys r w).0 ≡ signals_of w
  unfolding start_record
  start_record-signals sys r w =
      if_either start_signals _ _ _ (signals_of w) refl
        (write_unit-signals sys r (managed_unit r.id sys.now_ns) w)

  module _ (encode : List StoredRecord → Bytes) (decode : Bytes → Option (List StoredRecord)) where
    module _ (sys : System) (pid : ℤ) (p : Proc) (there : sys.proc ≡ some p)
        (spared : is_protected_process pid p.name p.exe p.service ≡ true) where
      detail_of-protected : (detail_of has_user hide_user pid p).protected ≡ true
      unfolding detail_of
      detail_of-protected = spared

      abbrev pub looked : Option ProcessDetail
      looked = read_process_detail has_user hide_user pid sys.proc

      looked-detail :
          looked
          ≡ (if not (ltb_ℤ (pos 0) pid) then none else some (detail_of has_user hide_user pid p))
      unfolding read_process_detail
      looked-detail = ap (read_process_detail has_user hide_user pid) there

      -- A process that is looked at is the protected one.
      pub looked-protected : (d : ProcessDetail) → looked ≡ some d → d.protected ≡ true
      looked-protected d h = elim (Bool-cases (not (ltb_ℤ (pos 0) pid))) [
        | inl none_such ↦ absurd (
            cc (
              sym
                (ap (λ b. if b then none else some (detail_of has_user hide_user pid p)) none_such)
              ∙ sym looked-detail
              ∙ h))
        | inr such ↦
            ap (λ o. protected_in o)
              (sym h
                ∙ looked-detail
                ∙ ap (λ b. if b then none else some (detail_of has_user hide_user pid p)) such)
            ∙ detail_of-protected
      ]

      refused : (b c : Bool) → b ≡ true → b || c ≡ false → true ≡ false
      refused b c h k = ground arith

      pub stop_process-signals :
          (sig : Signal) (w : World)
          → signals_of (stop_process encode decode has_user hide_user sys pid sig w).0
            ≡ signals_of w
      unfolding stop_process
      stop_process-signals sig w =
          option_either done_signals looked _ _ (signals_of w) refl (λ d at.
            if_known done_signals (d.protected || not d.can_terminate) _ _ (signals_of w)
              (λ yes_. refl)
              (λ free.
                absurd
                  (cc (refused d.protected (not d.can_terminate) (looked-protected d at) free))))

      pub restart_process-signals :
          (w : World)
          → signals_of (restart_process encode decode has_user hide_user sys pid w).0 ≡ signals_of w
      unfolding restart_process
      restart_process-signals w = option_either done_signals looked _ _ (signals_of w) refl (λ d at.
          if_known done_signals (d.protected || not d.can_restart) _ _ (signals_of w) (λ yes_. refl)
            (λ free.
              absurd (cc (refused d.protected (not d.can_restart) (looked-protected d at) free))))
