-- ===== src/Tests/Upgrades.antt =====
-- The upgrade of the agent, its rollback and its commit.
use nodelume.Prelude.{◌≡◌, refl, true, false, [], ◌∷◌, Option, none, some, Bytes, text, str_eq}
use nodelume.Prelude.Map.{find, insert, delete}
use nodelume.Agent.Files.{Files, rename, remove, write_file, remove_all}
use nodelume.Agent.Upgrade.{
  Environment, PendingUpdate, UpgradeError, previous_of, write_pending, undo_install, note_install,
  put_binary, install,
}
use nodelume.Agent.Upgrade.Install.{Apart, Kept, noted, install-Kept}
use nodelume.Agent.Upgrade.Install.Done.{install-restored}
use nodelume.Agent.Upgrade.Rollback.{
  Faults, set_aside, restore, rollback_agent_binary, clear_pending, commit_decoded, commit_read,
  commit_agent_update, rollback_watchdog,
}
use nodelume.Agent.Upgrade.Rollback.Undone.{Separate}
use nodelume.Agent.Upgrade.Rollback.Cycle.{install-undone, install-committed}

program : Unit {0}
unfolding text str_eq find insert delete rename remove write_file remove_all write_pending
    undo_install note_install put_binary install set_aside restore rollback_agent_binary
    clear_pending commit_decoded commit_read commit_agent_update rollback_watchdog
program = tt

abbrev agent : Bytes
agent = text "/bin/agent"

abbrev fresh : Bytes
fresh = text "/tmp/agent"

abbrev env : Environment
env = record {
  arch = text "amd64";
  release_base = [];
  temp_dir = some (text "/tmp");
  get = λ _. none;
  stores = λ _. true;
  chmod_works = true;
  self_check = λ _. true;
  version_output = λ _. none;
  executable = some agent;
  resolved = λ path. some path;
  clears_previous = true;
  backs_up = true;
  installs = true;
  makes_dir = true;
  writes_pending = true;
  names_pending = true;
  drops = true;
  restores = true;
  now = 7;
}

-- The note is the version; the paths are known.
abbrev encode : PendingUpdate → Bytes
encode p = p.target

abbrev the_note : PendingUpdate
the_note = record {
  previous = previous_of agent;
  current = agent;
  target = text "2";
  installed_at = 7;
}

abbrev decode : Bytes → Option PendingUpdate
decode b = some (record the_note { target = b })

abbrev before : Files
before = (agent, text "old") ∷ (fresh, text "new") ∷ []

apart : Apart agent fresh
unfolding program
apart = record {
  previous_current = refl;
  current_previous = refl;
  bin_current = refl;
  bin_previous = refl;
  current_bin = refl;
  previous_bin = refl;
  tmp_current = refl;
  tmp_previous = refl;
  pending_current = refl;
  pending_previous = refl;
}

abbrev note_ : PendingUpdate
note_ = noted encode env (text "2") fresh agent (text "old") apart

separate : Separate note_
unfolding program
separate = record {
  failed_previous = refl;
  current_previous = refl;
  previous_current = refl;
  pending_current = refl;
  named = refl;
}

old_there : find agent before ≡ some (text "old")
unfolding program
old_there = refl

new_there : find fresh before ≡ some (text "new")
unfolding program
new_there = refl

-- The pending update cannot get its name.
abbrev broken : Environment
broken = record env { names_pending = false }

install-Kept_example :
    Kept (text "old") agent (install encode broken (text "2") fresh agent before).0
install-Kept_example =
    install-Kept encode broken (text "2") fresh agent (text "old") apart before old_there

refused : (install encode broken (text "2") fresh agent before).1 ≡ some UpgradeError.pending_failed
unfolding program
refused = refl

install-restored_example :
    find agent (install encode broken (text "2") fresh agent before).0 ≡ some (text "old")
install-restored_example =
    install-restored encode broken (text "2") fresh agent (text "old") apart before
      UpgradeError.pending_failed refl old_there refused

installed : (install encode env (text "2") fresh agent before).1 ≡ none
unfolding program
installed = refl

abbrev fine : Faults
fine = record {
  reads = true;
  clears_failed = true;
  sets_aside = true;
  restores = true;
  clears_previous = true;
  clears_pending = true;
}

install-undone_example :
    find agent (rollback_watchdog decode fine (install encode env (text "2") fresh agent before).0)
    ≡ some (text "old")
install-undone_example =
    install-undone encode decode env fine (text "2") fresh agent (text "old") (text "new") apart
      before separate refl old_there new_there installed refl refl

committed :
    (commit_agent_update decode fine (install encode env (text "2") fresh agent before).0).1 ≡ none
unfolding program
committed = refl

install-committed_example :
    find agent (
      rollback_watchdog decode fine
        (commit_agent_update decode fine (install encode env (text "2") fresh agent before).0).0)
    ≡ some (text "new")
install-committed_example =
    install-committed encode decode env fine fine (text "2") fresh agent (text "old") (text "new")
      apart before refl old_there new_there installed committed
