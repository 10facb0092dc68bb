-- ===== src/Agent/Upgrade.antt =====
-- agent/release.go: the upgrade of the agent's binary, its rollback and its commit. The network, the
-- new binary's answers, the paths that the system names and whether each call works are the
-- environment; JSON is a pair of parameters.
pub mod Install
pub mod Verified
pub mod Rollback
use nodelume.Prelude.{
  ℕ, ◌+◌, ◌*◌, ◌^◌, Bool, true, false, not, ◌&&◌, ◌||◌, List, [], ◌∷◌, ◌++◌, Option, none, some,
  Bytes, text, str_eq, is_empty, length, take, ltb, leb, if◌then◌else◌,
}
use nodelume.Prelude.Int.{ℤ, pos, ltb_ℤ}
use nodelume.Prelude.Map.{find, insert}
use nodelume.Text.{trim_space, trim_prefix, trim_right, contains, Parsed, parse_int}
use nodelume.Version.{valid_version, valid_repo}
use nodelume.Release.Signed.{SignedFileError, verify_signed_file}
use nodelume.Agent.Files.{Files, rename, remove, write_file, remove_all}

abbrev pub pending_path : Bytes
pending_path = text "/var/lib/nodelume-agent-helper/update/pending.json"

abbrev pub pending_tmp : Bytes
pending_tmp = pending_path ++ text ".tmp"

pub record PendingUpdate : Type 0 where
  pub previous : Bytes
  pub current : Bytes
  pub target : Bytes
  pub installed_at : ℕ

-- The environment of one upgrade: what the system names, what the network and the new binary
-- answer, and which calls work.
pub record Environment : Type 0 where
  pub arch : Bytes
  pub release_base : Bytes
  pub temp_dir : Option Bytes
  pub get : Bytes → Option (ℕ × Bytes)
  pub stores : Bytes → Bool
  pub chmod_works : Bool
  pub self_check : Bytes → Bool
  pub version_output : Bytes → Option Bytes
  pub executable : Option Bytes
  pub resolved : Bytes → Option Bytes
  pub clears_previous : Bool
  pub backs_up : Bool
  pub installs : Bool
  pub makes_dir : Bool
  pub writes_pending : Bool
  pub names_pending : Bool
  pub drops : Bool
  pub restores : Bool
  pub now : ℕ

pub data UpgradeError : Type 0 where
  bad_target : UpgradeError
  bad_arch : UpgradeError
  no_temp_dir : UpgradeError
  download_failed : Bytes → UpgradeError
  too_large : UpgradeError
  not_verified : SignedFileError → UpgradeError
  chmod_failed : UpgradeError
  self_check_failed : UpgradeError
  wrong_version : UpgradeError
  no_executable : UpgradeError
  backup_failed : UpgradeError
  install_failed : UpgradeError
  pending_failed : UpgradeError

abbrev pub Outcome : Type 0
Outcome = Files × Option UpgradeError

-- `downloadFile`: a status outside 200 to 299, a write that fails and a content above the limit are
-- errors; what was written stays in the directory.
unfoldable pub download_file : Environment → Bytes → Bytes → ℕ → Files → Outcome
download_file env url path max fs = elim (env.get url) [
  | none ↦ (fs, some (UpgradeError.download_failed path))
  | some (status, body) ↦
      let (fs', stored) = write_file (env.stores path) path (take (max + 1) body) fs in
      if ltb status 200 || leb 300 status
      then (fs, some (UpgradeError.download_failed path))
      else if not stored
      then (fs', some (UpgradeError.download_failed path))
      else if ltb max (length body)
      then (fs', some UpgradeError.too_large)
      else (fs', none)
]

-- The next step runs where there was no error.
abbrev pub and_then : Outcome → (Files → Outcome) → Outcome
and_then (fs, none) next = next fs
and_then (fs, some e) next = (fs, some e)

unfoldable pub release_url : Environment → Bytes → Bytes → Bytes
release_url env repo tag =
    let base = trim_right env.release_base b'/' in
    if is_empty base
    then text "https://github.com/" ++ repo ++ text "/releases/download/" ++ tag ++ text "/"
    else base ++ b'/' ∷ tag ++ text "/"

abbrev pub mib : ℕ
mib = 2 ^ 20

abbrev pub in_dir : Bytes → Bytes → Bytes
in_dir dir name = dir ++ b'/' ∷ name

abbrev pub checksums_name : Bytes
checksums_name = text "checksums.txt"

abbrev pub signature_name : Bytes
signature_name = text "checksums.sig"

-- The loop over the three files.
unfoldable pub download_all : Environment → Bytes → Bytes → Bytes → Files → Outcome
download_all env base name dir fs =
    and_then (download_file env (base ++ name) (in_dir dir name) (64 * mib) fs) (λ fs1.
      and_then
        (download_file env (base ++ checksums_name) (in_dir dir checksums_name) (2 * mib) fs1)
        (λ fs2. download_file env (base ++ signature_name) (in_dir dir signature_name) mib fs2))

abbrev pub previous_of : Bytes → Bytes
previous_of current = current ++ text ".previous"

abbrev pub read : Files → Bytes → Option Bytes
read fs path = find path fs

module _ (encode : PendingUpdate → Bytes) where
  -- `writePending`: to a temporary file, which then gets its name.
  unfoldable pub write_pending : Environment → PendingUpdate → Files → Files × Bool
  write_pending env p fs =
      let (fs1, written) = write_file env.writes_pending pending_tmp (encode p) fs in
      if not env.makes_dir
      then (fs, false)
      else if written
      then rename env.names_pending pending_tmp pending_path fs1
      else (fs1, false)

  -- From the backup of the current binary on. What undoes a failed step may fail too.
  unfoldable pub undo_install : Environment → Bytes → UpgradeError → Files → Outcome
  undo_install env current e fs = ((rename env.restores (previous_of current) current fs).0, some e)

  unfoldable pub note_install : Environment → Bytes → Bytes → Files → Outcome
  note_install env version current fs =
      let p : PendingUpdate = record {
        previous = previous_of current;
        current = current;
        target = version;
        installed_at = env.now;
      } in
      let (fs', noted) = write_pending env p fs in
      if noted
      then (fs', none)
      else undo_install env current UpgradeError.pending_failed (remove env.drops current fs').0

  unfoldable pub put_binary : Environment → Bytes → Bytes → Bytes → Files → Outcome
  put_binary env version bin current fs =
      let (fs', installed) = rename env.installs bin current fs in
      if installed
      then note_install env version current fs'
      else undo_install env current UpgradeError.install_failed fs'

  unfoldable pub install : Environment → Bytes → Bytes → Bytes → Files → Outcome
  install env version bin current fs =
      let cleared = (remove env.clears_previous (previous_of current) fs).0 in
      let (fs', moved) = rename env.backs_up current (previous_of current) cleared in
      if moved
      then put_binary env version bin current fs'
      else (fs', some UpgradeError.backup_failed)

  module _ (decode_base64 : Bytes → Option Bytes) (ed25519_verify : Bytes → Bytes → Bytes → Bool)
      (sha256_hex : Bytes → Bytes) where
    abbrev pub version_line : Bytes → Bytes
    version_line version = text "NodeLume Agent v" ++ version ++ text " "

    -- The checks of the new binary, with its content.
    unfoldable pub check_binary :
        Environment → Bytes → Bytes → Bytes → Bytes → Files → Option UpgradeError
    check_binary env version pub_key name dir fs =
        let bin = in_dir dir name in
        elim (verify_signed_file decode_base64 ed25519_verify sha256_hex (read fs) bin
          (in_dir dir checksums_name) (in_dir dir signature_name) pub_key) [
            | some e ↦ some (UpgradeError.not_verified e)
            | none ↦ elim (find bin fs) [
              | none ↦ some UpgradeError.chmod_failed
              | some content ↦
                  if not env.chmod_works
                  then some UpgradeError.chmod_failed
                  else if not (env.self_check content)
                  then some UpgradeError.self_check_failed
                  else elim (env.version_output content) [
                    | none ↦ some UpgradeError.wrong_version
                    | some out ↦
                        if contains out (version_line version)
                        then none
                        else some UpgradeError.wrong_version
                  ]
            ]
          ]

    abbrev pub real_path : Environment → Option Bytes
    real_path env = elim env.executable [ none ↦ none | some path ↦ env.resolved path ]

    -- What follows the downloads.
    unfoldable pub replace_binary : Environment → Bytes → Bytes → Bytes → Bytes → Files → Outcome
    replace_binary env version pub_key name dir fs =
        elim (check_binary env version pub_key name dir fs) [
          | some e ↦ (fs, some e)
          | none ↦ elim (real_path env) [
            | none ↦ (fs, some UpgradeError.no_executable)
            | some current ↦ install env version (in_dir dir name) current fs
          ]
        ]

    abbrev pub binary_name : Bytes → Bytes
    binary_name arch = text "nodelume-agent-linux-" ++ arch

    abbrev pub without : Bytes → Outcome → Outcome
    without dir (fs, e) = (remove_all dir fs, e)

    -- The deferred `RemoveAll` runs at the end, whatever it is. The watchdog is apart.
    unfoldable pub perform_agent_upgrade : Environment → Bytes → Bytes → Bytes → Files → Outcome
    perform_agent_upgrade env target repo pub_key fs =
        let version = trim_prefix target (text "v") in
        if not (valid_version version) || not (valid_repo repo)
        then (fs, some UpgradeError.bad_target)
        else if not (str_eq env.arch (text "amd64")) && not (str_eq env.arch (text "arm64"))
        then (fs, some UpgradeError.bad_arch)
        else elim env.temp_dir [
          | none ↦ (fs, some UpgradeError.no_temp_dir)
          | some dir ↦ without dir (
              and_then
                (download_all env (release_url env repo (b'v' ∷ version)) (binary_name env.arch) dir
                  fs)
                (λ fs'. replace_binary env version pub_key (binary_name env.arch) dir fs'))
        ]
