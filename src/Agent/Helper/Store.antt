-- ===== src/Agent/Helper/Store.antt =====
-- agent/helper.go: the store of stopped processes, `loadStopped`, `saveStopped`, `removeStopped`,
-- `writeStopped` and `publicStopped`, as a file whose JSON is a pair of parameters.
use nodelume.Prelude.{
  ℕ, Bool, false, not, List, [], ◌∷◌, ◌++◌, Option, none, some, Bytes, text, str_eq, take, keep,
  map, if◌then◌else◌,
}
use nodelume.Prelude.Map.{find}
use nodelume.Agent.Files.{Files, replace_file}
use nodelume.Agent.Helper.Process.{StoredRecord}

abbrev pub stopped_path : Bytes
stopped_path = text "/var/lib/nodelume-agent-helper/stopped.json"

abbrev pub stopped_tmp : Bytes
stopped_tmp = stopped_path ++ text ".tmp"

abbrev pub store_limit : ℕ
store_limit = 100

-- Which calls work.
pub record Disk : Type 0 where
  pub reads : Bool
  pub makes_dir : Bool
  pub writes : Bool
  pub names : Bool

-- The error of `loadStopped` is dropped, and leaves no records.
abbrev pub or_empty : Option (List StoredRecord) → List StoredRecord
or_empty none = []
or_empty (some xs) = xs

-- What is shown of a record.
abbrev pub public_record : StoredRecord → StoredRecord
public_record r = record r { exe = []; args = []; cwd = []; uid = 0; gid = 0 }

module _ (encode : List StoredRecord → Bytes) (decode : Bytes → Option (List StoredRecord)) where
  -- A file that is not there is an empty store; `none` is an error.
  unfoldable pub load_stopped : Disk → Files → Option (List StoredRecord)
  load_stopped disk fs = elim (find stopped_path fs) [
    | none ↦ some []
    | some b ↦ if disk.reads then decode b else none
  ]

  unfoldable pub write_stopped : Disk → List StoredRecord → Files → Files × Bool
  write_stopped disk xs fs =
      replace_file disk.makes_dir disk.writes disk.names stopped_tmp stopped_path (encode xs) fs

  unfoldable pub save_stopped : Disk → StoredRecord → Files → Files × Bool
  save_stopped disk r fs =
      write_stopped disk (take store_limit (r ∷ or_empty (load_stopped disk fs))) fs

  unfoldable pub remove_stopped : Disk → Bytes → Files → Files × Bool
  remove_stopped disk id fs = elim (load_stopped disk fs) [
    | none ↦ (fs, false)
    | some xs ↦ write_stopped disk (keep (λ r. not (str_eq r.id id)) xs) fs
  ]

  unfoldable pub public_stopped : Disk → Files → Option (List StoredRecord)
  public_stopped disk fs = elim (load_stopped disk fs) [
    | none ↦ none
    | some xs ↦ some (map public_record xs)
  ]
