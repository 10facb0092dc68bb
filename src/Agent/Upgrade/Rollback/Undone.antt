-- ===== src/Agent/Upgrade/Rollback/Undone.antt =====
-- agent/release.go: the rollback and its watchdog, step by step.

use nodelume.Prelude.{
  ◌≡◌, ap, ◌∙◌, Bool, true, false, ◌||◌, Option, none, some, Bytes, str_eq, str_eq_refl, is_empty,
  if◌then◌else◌, Option-cases, inl, inr,
}
use nodelume.Prelude.Map.{find, insert, delete, find-insert}
use nodelume.Agent.Files.{Files, rename, remove, rename-works, rename-other, remove-other}
use nodelume.Agent.Upgrade.{PendingUpdate, pending_path}
use nodelume.Agent.Upgrade.Rollback.{
  Faults, RollbackError, failed_of, set_aside, restore, rollback_agent_binary, rollback_watchdog,
}

-- The paths of a pending update are different from each other.
pub record Separate (p : PendingUpdate) : Type 0 where
  pub failed_previous : str_eq (failed_of p.current) p.previous ≡ false
  pub current_previous : str_eq p.current p.previous ≡ false
  pub previous_current : str_eq p.previous p.current ≡ false
  pub pending_current : str_eq pending_path p.current ≡ false
  pub named : is_empty p.previous || is_empty p.current ≡ false

abbrev without_failed : Faults → PendingUpdate → Files → Files
without_failed faults p fs = (remove faults.clears_failed (failed_of p.current) fs).0

set_aside-gone :
    (faults : Faults) (p : PendingUpdate) (fs : Files)
    → find p.current (without_failed faults p fs) ≡ none
    → set_aside faults p fs ≡ without_failed faults p fs
unfolding set_aside
set_aside-gone faults p fs h =
    ap
      (λ o. elim o [
        | none ↦ without_failed faults p fs
        | some _ ↦
            (rename faults.sets_aside p.current (failed_of p.current)
              (without_failed faults p fs)).0
      ])
      h

set_aside-there :
    (faults : Faults) (p : PendingUpdate) (c : Bytes) (fs : Files)
    → find p.current (without_failed faults p fs) ≡ some c
    → set_aside faults p fs
      ≡ (rename faults.sets_aside p.current (failed_of p.current) (without_failed faults p fs)).0
unfolding set_aside
set_aside-there faults p c fs h =
    ap
      (λ o. elim o [
        | none ↦ without_failed faults p fs
        | some _ ↦
            (rename faults.sets_aside p.current (failed_of p.current)
              (without_failed faults p fs)).0
      ])
      h

-- The backup stays when the failed binary is set aside.
set_aside-previous :
    (faults : Faults) (p : PendingUpdate) (fs : Files)
    → Separate p
    → find p.previous (set_aside faults p fs) ≡ find p.previous fs
set_aside-previous faults p fs apart =
    let fs1 = without_failed faults p fs in
    let kept =
      remove-other faults.clears_failed (failed_of p.current) p.previous fs apart.failed_previous in
    elim (Option-cases (find p.current fs1)) [
      | inl gone ↦ ap (find p.previous) (set_aside-gone faults p fs gone) ∙ kept
      | inr (c, there) ↦
          ap (find p.previous) (set_aside-there faults p c fs there)
          ∙ rename-other faults.sets_aside p.current (failed_of p.current) p.previous fs1
              apart.current_previous apart.failed_previous
          ∙ kept
    ]

abbrev put_back : Faults → PendingUpdate → Bytes → Files → Files
put_back faults p old fs =
    (remove faults.clears_pending pending_path
      (insert p.current old (delete p.previous (set_aside faults p fs)))).0

abbrev end_restore : Faults → Files × Bool → Files × Option RollbackError
end_restore faults (fs, restored) =
    if restored
    then ((remove faults.clears_pending pending_path fs).0, none)
    else (fs, some RollbackError.restore_failed)

restore-works :
    (faults : Faults) (p : PendingUpdate) (old : Bytes) (fs : Files)
    → Separate p
    → find p.previous fs ≡ some old
    → faults.restores ≡ true
    → restore faults p fs ≡ (put_back faults p old fs, none)
unfolding restore
restore-works faults p old fs apart held works =
    let there = set_aside-previous faults p fs apart ∙ held in
    ap (λ b. end_restore faults (rename b p.previous p.current (set_aside faults p fs))) works
    ∙ ap (end_restore faults) (rename-works p.previous p.current old (set_aside faults p fs) there)

-- Where moving it back works, the old binary is in place after the rollback.
restore-old :
    (faults : Faults) (p : PendingUpdate) (old : Bytes) (fs : Files)
    → Separate p
    → find p.previous fs ≡ some old
    → faults.restores ≡ true
    → find p.current (restore faults p fs).0 ≡ some old
restore-old faults p old fs apart held works =
    ap (λ w. find p.current w.0) (restore-works faults p old fs apart held works)
    ∙ remove-other faults.clears_pending pending_path p.current
        (insert p.current old (delete p.previous (set_aside faults p fs))) apart.pending_current
    ∙ rw (find-insert, str_eq_refl)

module _ (decode : Bytes → Option PendingUpdate) where
  rollback_agent_binary-restore :
      (faults : Faults) (p : PendingUpdate) (b : Bytes) (fs : Files)
      → Separate p
      → find pending_path fs ≡ some b
      → decode b ≡ some p
      → faults.reads ≡ true
      → rollback_agent_binary decode faults fs ≡ restore faults p fs
  unfolding rollback_agent_binary
  rollback_agent_binary-restore faults p b fs apart there good reads =
      ap
        (λ o. elim o [
          | none ↦ (fs, some RollbackError.no_pending)
          | some b ↦ elim (decode b) [
            | none ↦ (fs, some RollbackError.bad_pending)
            | some p ↦
                if is_empty p.previous || is_empty p.current
                then (fs, some RollbackError.invalid_pending)
                else restore faults p fs
          ]
        ])
        (ap (λ r. if r then find pending_path fs else none) reads ∙ there)
      ∙ rw (good, apart.named)

  rollback_watchdog-rollback :
      (faults : Faults) (b : Bytes) (fs : Files)
      → find pending_path fs ≡ some b
      → rollback_watchdog decode faults fs ≡ (rollback_agent_binary decode faults fs).0
  unfolding rollback_watchdog
  rollback_watchdog-rollback faults b fs there = rw (there, rollback_watchdog)

  pub rollback_watchdog-idle :
      (faults : Faults) (fs : Files)
      → find pending_path fs ≡ none
      → rollback_watchdog decode faults fs ≡ fs
  unfolding rollback_watchdog
  rollback_watchdog-idle faults fs gone = rw (gone, rollback_watchdog)

  -- The watchdog of an update that nobody committed brings the old binary back.
  pub rollback_watchdog-old :
      (faults : Faults) (p : PendingUpdate) (b old : Bytes) (fs : Files)
      → Separate p
      → find pending_path fs ≡ some b
      → decode b ≡ some p
      → find p.previous fs ≡ some old
      → faults.reads ≡ true
      → faults.restores ≡ true
      → find p.current (rollback_watchdog decode faults fs) ≡ some old
  rollback_watchdog-old faults p b old fs apart there good held reads restores =
      ap (find p.current) (rollback_watchdog-rollback faults b fs there)
      ∙ ap (λ w. find p.current w.0)
          (rollback_agent_binary-restore faults p b fs apart there good reads)
      ∙ restore-old faults p old fs apart held restores
