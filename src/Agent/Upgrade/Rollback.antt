-- ===== src/Agent/Upgrade/Rollback.antt =====
-- agent/release.go: `rollbackAgentBinary`, `commitAgentUpdate` and `agentRollbackWatchdog`.
pub mod Undone
pub mod Commit
pub mod Cycle
use nodelume.Prelude.{
  ℕ, ◌+◌, Bool, true, false, not, ◌&&◌, ◌||◌, List, [], ◌∷◌, ◌++◌, Option, none, some, Bytes, text,
  is_empty, if◌then◌else◌,
}
use nodelume.Prelude.Int.{ℤ, pos, ltb_ℤ}
use nodelume.Prelude.Map.{find}
use nodelume.Text.{trim_space, Parsed, parse_int}
use nodelume.Agent.Files.{Files, rename, remove}
use nodelume.Agent.Upgrade.{PendingUpdate, pending_path}

-- Which calls work.
pub record Faults : Type 0 where
  pub reads : Bool
  pub clears_failed : Bool
  pub sets_aside : Bool
  pub restores : Bool
  pub clears_previous : Bool
  pub clears_pending : Bool

pub data RollbackError : Type 0 where
  no_pending : RollbackError
  bad_pending : RollbackError
  invalid_pending : RollbackError
  restore_failed : RollbackError
  clear_failed : RollbackError

abbrev pub failed_of : Bytes → Bytes
failed_of current = current ++ text ".failed"

-- The pending file as it reads.
abbrev pub read_pending : Faults → Files → Option Bytes
read_pending faults fs = if faults.reads then find pending_path fs else none

-- The binary that failed is set aside, if there is one.
unfoldable pub set_aside : Faults → PendingUpdate → Files → Files
set_aside faults p fs =
    let fs1 = (remove faults.clears_failed (failed_of p.current) fs).0 in
    elim (find p.current fs1) [
      | none ↦ fs1
      | some _ ↦ (rename faults.sets_aside p.current (failed_of p.current) fs1).0
    ]

-- The backup takes its place; the note goes where that works.
unfoldable pub restore : Faults → PendingUpdate → Files → Files × Option RollbackError
restore faults p fs =
    let (fs1, restored) = rename faults.restores p.previous p.current (set_aside faults p fs) in
    if restored
    then ((remove faults.clears_pending pending_path fs1).0, none)
    else (fs1, some RollbackError.restore_failed)

unfoldable pub clear_pending : Faults → PendingUpdate → Files → Files × Option RollbackError
clear_pending faults p fs =
    let fs1 = if is_empty p.previous then fs else (remove faults.clears_previous p.previous fs).0 in
    let (fs2, cleared) = remove faults.clears_pending pending_path fs1 in
    (fs2, if cleared then none else some RollbackError.clear_failed)

unfoldable pub commit_decoded : Faults → Option PendingUpdate → Files → Files × Option RollbackError
commit_decoded faults none fs = (fs, some RollbackError.bad_pending)
commit_decoded faults (some p) fs = clear_pending faults p fs

module _ (decode : Bytes → Option PendingUpdate) where
  unfoldable pub rollback_agent_binary : Faults → Files → Files × Option RollbackError
  rollback_agent_binary faults fs = elim (read_pending faults fs) [
    | none ↦ (fs, some RollbackError.no_pending)
    | some b ↦ elim (decode b) [
      | none ↦ (fs, some RollbackError.bad_pending)
      | some p ↦
          if is_empty p.previous || is_empty p.current
          then (fs, some RollbackError.invalid_pending)
          else restore faults p fs
    ]
  ]

  unfoldable pub commit_read : Faults → Bytes → Files → Files × Option RollbackError
  unfolding commit_decoded
  commit_read faults b fs =
      if faults.reads
      then commit_decoded faults (decode b) fs
      else (fs, some RollbackError.no_pending)

  -- Without a pending update there is nothing to commit; a file that is there but cannot be read is
  -- an error.
  unfoldable pub commit_agent_update : Faults → Files → Files × Option RollbackError
  commit_agent_update faults fs = elim (find pending_path fs) [
    | none ↦ (fs, none)
    | some b ↦ commit_read faults b fs
  ]

  -- The watchdog, once its delay is over.
  unfoldable pub rollback_watchdog : Faults → Files → Files
  rollback_watchdog faults fs = elim (find pending_path fs) [
    | none ↦ fs
    | some _ ↦ (rollback_agent_binary faults fs).0
  ]

-- Its delay in seconds, by the environment variable.
abbrev delay_of : Parsed ℤ → ℤ
delay_of (Parsed.ok n) = if not (ltb_ℤ n (pos 2)) && not (ltb_ℤ (pos 300) n) then n else pos 38
delay_of _ = pos 38

unfoldable pub watchdog_delay : Bytes → ℤ
watchdog_delay v =
    let trimmed = trim_space v in if is_empty trimmed then pos 38 else delay_of (parse_int trimmed)
