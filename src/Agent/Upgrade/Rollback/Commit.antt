-- ===== src/Agent/Upgrade/Rollback/Commit.antt =====
-- agent/release.go: the commit of an update, and the watchdog after it.
use nodelume.Prelude.{
  ◌≡◌, refl, ap, ◌∙◌, sym, true, false, Option, none, some, Bytes, str_eq, is_empty, if◌then◌else◌,
  Bool-cases, Option-cases, inl, inr,
}
use nodelume.Prelude.Map.{find}
use nodelume.Agent.Files.{Files, remove, remove-gone, remove-other}
use nodelume.Agent.Upgrade.{PendingUpdate, pending_path}
use nodelume.Agent.Upgrade.Rollback.{
  Faults, RollbackError, clear_pending, commit_decoded, commit_read, commit_agent_update,
  rollback_watchdog,
}
use nodelume.Agent.Upgrade.Rollback.Undone.{rollback_watchdog-idle}

abbrev without_backup : Faults → PendingUpdate → Files → Files
without_backup faults p fs =
    if is_empty p.previous then fs else (remove faults.clears_previous p.previous fs).0

clear_pending-gone :
    (faults : Faults) (p : PendingUpdate) (fs : Files)
    → (clear_pending faults p fs).1 ≡ none
    → find pending_path (clear_pending faults p fs).0 ≡ none
unfolding clear_pending
clear_pending-gone faults p fs h =
    let fs1 = without_backup faults p fs in
    let way = Bool-cases (remove faults.clears_pending pending_path fs1).1 in
    elim way [
      | inl cleared ↦ remove-gone faults.clears_pending pending_path fs1 cleared
      | inr stuck ↦
          absurd
            (cc (sym (ap (λ c. if c then none else some RollbackError.clear_failed) stuck) ∙ h))
    ]

clear_pending-other :
    (faults : Faults) (p : PendingUpdate) (path : Bytes) (fs : Files)
    → str_eq p.previous path ≡ false
    → str_eq pending_path path ≡ false
    → find path (clear_pending faults p fs).0 ≡ find path fs
unfolding clear_pending
clear_pending-other faults p path fs previous pending =
    let kept : find path (without_backup faults p fs) ≡ find path fs =
      elim (Bool-cases (is_empty p.previous)) [
        | inl unnamed ↦
            ap (λ b. find path (if b then fs else (remove faults.clears_previous p.previous fs).0))
              unnamed
        | inr named ↦
            ap (λ b. find path (if b then fs else (remove faults.clears_previous p.previous fs).0))
              named
            ∙ remove-other faults.clears_previous p.previous path fs previous
      ] in
    remove-other faults.clears_pending pending_path path (without_backup faults p fs) pending ∙ kept

module _ (decode : Bytes → Option PendingUpdate) where
  commit_agent_update-absent :
      (faults : Faults) (fs : Files)
      → find pending_path fs ≡ none
      → commit_agent_update decode faults fs ≡ (fs, none)
  unfolding commit_agent_update
  commit_agent_update-absent faults fs gone = rw (gone, commit_agent_update)

  commit_read-unread :
      (faults : Faults) (b : Bytes) (fs : Files)
      → faults.reads ≡ false
      → commit_read decode faults b fs ≡ (fs, some RollbackError.no_pending)
  unfolding commit_read
  commit_read-unread faults b fs unread =
      ap
        (λ r.
          if r then commit_decoded faults (decode b) fs else (fs, some RollbackError.no_pending))
        unread

  commit_read-read :
      (faults : Faults) (b : Bytes) (fs : Files)
      → faults.reads ≡ true
      → commit_read decode faults b fs ≡ commit_decoded faults (decode b) fs
  unfolding commit_read
  commit_read-read faults b fs reads =
      ap
        (λ r.
          if r then commit_decoded faults (decode b) fs else (fs, some RollbackError.no_pending))
        reads

  commit_agent_update-there :
      (faults : Faults) (b : Bytes) (fs : Files)
      → find pending_path fs ≡ some b
      → commit_agent_update decode faults fs ≡ commit_read decode faults b fs
  unfolding commit_agent_update
  commit_agent_update-there faults b fs there = rw (there, commit_agent_update)

  commit_agent_update-unread :
      (faults : Faults) (b : Bytes) (fs : Files)
      → find pending_path fs ≡ some b
      → faults.reads ≡ false
      → commit_agent_update decode faults fs ≡ (fs, some RollbackError.no_pending)
  commit_agent_update-unread faults b fs there unread =
      commit_agent_update-there faults b fs there ∙ commit_read-unread faults b fs unread

  commit_agent_update-read :
      (faults : Faults) (b : Bytes) (fs : Files)
      → find pending_path fs ≡ some b
      → faults.reads ≡ true
      → commit_agent_update decode faults fs ≡ commit_decoded faults (decode b) fs
  commit_agent_update-read faults b fs there reads =
      commit_agent_update-there faults b fs there ∙ commit_read-read faults b fs reads

  commit_decoded-bad :
      (faults : Faults) (fs : Files)
      → commit_decoded faults none fs ≡ (fs, some RollbackError.bad_pending)
  unfolding commit_decoded
  commit_decoded-bad faults fs = refl

  commit_decoded-good :
      (faults : Faults) (p : PendingUpdate) (fs : Files)
      → commit_decoded faults (some p) fs ≡ clear_pending faults p fs
  unfolding commit_decoded
  commit_decoded-good faults p fs = refl

  -- The note is gone after a commit that worked.
  commit_agent_update-gone :
      (faults : Faults) (fs : Files)
      → (commit_agent_update decode faults fs).1 ≡ none
      → find pending_path (commit_agent_update decode faults fs).0 ≡ none
  commit_agent_update-gone faults fs h = elim (Option-cases (find pending_path fs)) [
    | inl gone ↦ ap (λ w. find pending_path w.0) (commit_agent_update-absent faults fs gone) ∙ gone
    | inr (b, there) ↦ elim (Bool-cases faults.reads) [
      | inr unread ↦
          absurd
            (cc (ap (λ w. w.1) (sym (commit_agent_update-unread faults b fs there unread)) ∙ h))
      | inl reads ↦
          let way = commit_agent_update-read faults b fs there reads in
          elim (Option-cases (decode b)) [
            | inl bad ↦ absurd (
                cc (
                  ap (λ w. w.1)
                    (sym (
                      way
                      ∙ ap (λ o. commit_decoded faults o fs) bad
                      ∙ commit_decoded-bad faults fs))
                  ∙ h))
            | inr (p, good) ↦
                let whole =
                  way
                  ∙ ap (λ o. commit_decoded faults o fs) good
                  ∙ commit_decoded-good faults p fs in
                ap (λ w. find pending_path w.0) whole
                ∙ clear_pending-gone faults p fs (ap (λ w. w.1) (sym whole) ∙ h)
          ]
    ]
  ]

  -- Once an update is committed, the watchdog changes nothing any more.
  pub commit_agent_update-watchdog :
      (faults later : Faults) (fs : Files)
      → (commit_agent_update decode faults fs).1 ≡ none
      → rollback_watchdog decode later (commit_agent_update decode faults fs).0
        ≡ (commit_agent_update decode faults fs).0
  commit_agent_update-watchdog faults later fs h =
      rollback_watchdog-idle decode later (commit_agent_update decode faults fs).0
        (commit_agent_update-gone faults fs h)

  -- The commit touches no file but the backup and the note.
  pub commit_agent_update-other :
      (faults : Faults) (p : PendingUpdate) (b path : Bytes) (fs : Files)
      → find pending_path fs ≡ some b
      → decode b ≡ some p
      → str_eq p.previous path ≡ false
      → str_eq pending_path path ≡ false
      → find path (commit_agent_update decode faults fs).0 ≡ find path fs
  commit_agent_update-other faults p b path fs there good previous pending =
      elim (Bool-cases faults.reads) [
        | inr unread ↦ ap (λ w. find path w.0) (commit_agent_update-unread faults b fs there unread)
        | inl reads ↦
            ap (λ w. find path w.0)
              (commit_agent_update-read faults b fs there reads
                ∙ ap (λ o. commit_decoded faults o fs) good
                ∙ commit_decoded-good faults p fs)
            ∙ clear_pending-other faults p path fs previous pending
      ]
