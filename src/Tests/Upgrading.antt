-- ===== src/Tests/Upgrading.antt =====
-- A whole upgrade of the agent.
use nodelume.Prelude.{
  ℕ, ◌≡◌, refl, Bool, true, ◌&&◌, [], ◌∷◌, Option, none, some, Bytes, text, str_eq, replicate,
  if◌then◌else◌,
}
use nodelume.Prelude.Map.{find, insert, delete, delete_where}
use nodelume.Text.{
  parse_uint, parse_int, scan_digits, split, fields, fields_from, trim_prefix, trim_space,
  space_width, last_space_width, skip_spaces, cut_prefix, has_prefix, contains, trim_left,
  trim_right, lower_byte, to_lower, equal_fold,
}
use nodelume.Version.{valid_version, all_counts, valid_repo, valid_parts, all_bytes}
use nodelume.Release.{base_from, base_name}
use nodelume.Release.Signed.{wanted, check_manifest, check_sum, verify_signed_file}
use nodelume.Agent.Files.{Files, rename, remove, write_file, remove_all}
use nodelume.Agent.Upgrade.{
  Environment, PendingUpdate, download_file, release_url, download_all, write_pending, undo_install,
  note_install, put_binary, install, check_binary, replace_binary, binary_name,
  perform_agent_upgrade,
}
use nodelume.Agent.Upgrade.Verified.{Checked, downloaded, perform_agent_upgrade-Checked}
use nodelume.Tests.Data.{hash}

program : Unit {0}
unfolding text str_eq find insert delete delete_where space_width last_space_width skip_spaces
    trim_space cut_prefix trim_prefix has_prefix contains trim_left trim_right split fields_from
    fields lower_byte to_lower equal_fold valid_version all_counts valid_repo valid_parts all_bytes
    base_from base_name wanted check_manifest check_sum verify_signed_file rename remove write_file
    remove_all download_file release_url download_all write_pending undo_install note_install
    put_binary install check_binary replace_binary perform_agent_upgrade scan_digits parse_uint
    parse_int
program = tt

abbrev key : Bytes
key = replicate 32 b'k'

abbrev signature : Bytes
signature = replicate 64 b's'

abbrev plain : Bytes → Option Bytes
plain s = some s

abbrev signs : Bytes → Bytes → Bytes → Bool
signs k message s = str_eq k key && str_eq s signature

abbrev manifest : Bytes
manifest = text "ab  nodelume-agent-linux-amd64\n"

abbrev published : Bytes → Option (ℕ × Bytes)
published url =
    if contains url (text "checksums.txt")
    then some (200, manifest)
    else if contains url (text "checksums.sig")
    then some (200, signature)
    else some (200, text "AB")

abbrev env : Environment
env = record {
  arch = text "amd64";
  release_base = text "u/";
  temp_dir = some (text "/t");
  get = published;
  stores = λ _. true;
  chmod_works = true;
  self_check = λ _. true;
  version_output = λ _. some (text "NodeLume Agent v1.0.3 linux");
  executable = some (text "/agent");
  resolved = λ path. some path;
  clears_previous = true;
  backs_up = true;
  installs = true;
  makes_dir = true;
  writes_pending = true;
  names_pending = true;
  drops = true;
  restores = true;
  now = 7;
}

abbrev before : Files
before = (text "/agent", text "old") ∷ (text "/pub", key) ∷ []

abbrev encode : PendingUpdate → Bytes
encode p = p.target

worked :
    (perform_agent_upgrade encode plain signs hash env
      (text "v1.0.3")
      (text "a/b")
      (text "/pub")
      before).1
    ≡ none
unfolding program
worked = refl

installed :
    find
      (text "/agent")
      (perform_agent_upgrade encode plain signs hash env
        (text "v1.0.3")
        (text "a/b")
        (text "/pub")
        before).0
    ≡ some (text "AB")
unfolding program
installed = refl

perform_agent_upgrade-Checked_example :
    (valid_version (trim_prefix (text "v1.0.3") (text "v")) ≡ true)
    × (valid_repo (text "a/b") ≡ true)
    × ((dir : Bytes) × (env.temp_dir ≡ some dir)
        × Checked encode plain signs hash env
            (text "/pub")
            (trim_prefix (text "v1.0.3") (text "v"))
            (binary_name encode plain signs hash env.arch)
            dir
            (downloaded encode plain signs hash env
              (text "/pub")
              (trim_prefix (text "v1.0.3") (text "v"))
              (text "a/b")
              dir
              before).0)
perform_agent_upgrade-Checked_example =
    perform_agent_upgrade-Checked encode plain signs hash env (text "/pub") (text "v1.0.3")
      (text "a/b") before worked
