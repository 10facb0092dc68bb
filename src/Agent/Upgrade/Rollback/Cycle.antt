-- ===== src/Agent/Upgrade/Rollback/Cycle.antt =====
-- agent/release.go: an installation and what follows it, the rollback or the commit.
use nodelume.Prelude.{◌≡◌, ap, ◌∙◌, true, Option, none, some, Bytes}
use nodelume.Prelude.Map.{find}
use nodelume.Agent.Files.{Files}
use nodelume.Agent.Upgrade.{Environment, PendingUpdate, install}
use nodelume.Agent.Upgrade.Install.{Apart, noted}
use nodelume.Agent.Upgrade.Install.Done.{install-Installed}
use nodelume.Agent.Upgrade.Rollback.{Faults, commit_agent_update, rollback_watchdog}
use nodelume.Agent.Upgrade.Rollback.Undone.{Separate, rollback_watchdog-old}
use nodelume.Agent.Upgrade.Rollback.Commit.{commit_agent_update-watchdog, commit_agent_update-other}

module _ (encode : PendingUpdate → Bytes) (decode : Bytes → Option PendingUpdate) where
  -- Where the note of an update can be read back and the paths are different, an installation that
  -- worked and that nobody commits ends with the old binary in its place once the watchdog runs, if
  -- moving the backup back works.
  pub install-undone :
      (env : Environment) (faults : Faults) (version bin current old new : Bytes)
      (apart : Apart current bin) (fs : Files)
      → Separate (noted encode env version bin current old apart)
      → decode (encode (noted encode env version bin current old apart))
        ≡ some (noted encode env version bin current old apart)
      → find current fs ≡ some old
      → find bin fs ≡ some new
      → (install encode env version bin current fs).1 ≡ none
      → faults.reads ≡ true
      → faults.restores ≡ true
      → find current (rollback_watchdog decode faults (install encode env version bin current fs).0)
        ≡ some old
  install-undone env faults version bin current old new apart fs separate back held fresh done reads
        restores =
      let fs' = (install encode env version bin current fs).0 in
      let left =
        install-Installed encode env version bin current old apart new fs held fresh done in
      rollback_watchdog-old decode faults (noted encode env version bin current old apart)
        (encode (noted encode env version bin current old apart)) old fs' separate left.pending back
        left.backup reads restores

  -- Where the note of an update can be read back and the paths are different, an installation that
  -- worked and was committed keeps the new binary in its place, also once the watchdog runs.
  pub install-committed :
      (env : Environment) (faults later : Faults) (version bin current old new : Bytes)
      (apart : Apart current bin) (fs : Files)
      → decode (encode (noted encode env version bin current old apart))
        ≡ some (noted encode env version bin current old apart)
      → find current fs ≡ some old
      → find bin fs ≡ some new
      → (install encode env version bin current fs).1 ≡ none
      → (commit_agent_update decode faults (install encode env version bin current fs).0).1 ≡ none
      → find current (
          rollback_watchdog decode later
            (commit_agent_update decode faults (install encode env version bin current fs).0).0)
        ≡ some new
  install-committed env faults later version bin current old new apart fs back held fresh done ok =
      let fs' = (install encode env version bin current fs).0 in
      let left =
        install-Installed encode env version bin current old apart new fs held fresh done in
      ap (find current) (commit_agent_update-watchdog decode faults later fs' ok)
      ∙ commit_agent_update-other decode faults (noted encode env version bin current old apart)
          (encode (noted encode env version bin current old apart)) current fs' left.pending back
          apart.previous_current apart.pending_current
      ∙ left.in_place
