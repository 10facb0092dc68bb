-- ===== src/Agent/Helper/Start.antt =====
-- agent/helper.go: starting a stopped process again, `startRecord`, in a unit of its own that runs a
-- script. What the system answers is an argument; what is done to processes and services is a list
-- of effects, the latest first.
pub mod Script
use nodelume.Prelude.{
  ℕ, zero, suc, ◌+◌, Bool, true, false, not, ◌&&◌, ◌||◌, List, [], ◌∷◌, ◌++◌, Option, none, some,
  Bytes, text, is_empty, if◌then◌else◌,
}
use nodelume.Prelude.Int.{ℤ, pos, ltb_ℤ}
use nodelume.Text.{trim_suffix, print_nat}
use nodelume.Text.{replace_byte}
use nodelume.Agent.Files.{Files, write_file, remove}
use nodelume.Agent.Helper.Args.{has_sensitive_restart_args}
use nodelume.Agent.Helper.Services.{service_suffix, safe_service, managed_unit}
use nodelume.Agent.Helper.Process.{Proc, StoredRecord, no_args}
use nodelume.Agent.Helper.Store.{Disk}

pub data Signal : Type 0 where
  terminate : Signal
  kill : Signal

pub data Effect : Type 0 where
  signalled : ℤ → Signal → Effect
  acted : Bytes → Bytes → Effect

pub record World : Type 0 where
  pub files : Files
  pub effects : List Effect

-- What the system answers. `later` is what /proc says when it is read the second time.
pub record System : Type 0 where
  pub proc : Option Proc
  pub later : Proc
  pub now : ℕ
  pub now_ns : ℕ
  pub disk : Disk
  pub kills : Bool
  pub gone : Bool
  pub systemctl : Bool
  pub acts : Bool
  pub exe_usable : Bool
  pub makes_run_dir : Bool
  pub writes_script : Bool
  pub chowns : Bool
  pub writes_unit : Bool
  pub reloads : Bool
  pub starts : Bool
  pub looks : ℕ → Option ℤ
  pub removes : Bool

abbrev pub log : Effect → World → World
log e w = record w { effects = e ∷ w.effects }

abbrev pub with_files : Files → World → World
with_files fs w = record w { files = fs }

-- `quoteShellArg`
unfoldable pub quote_shell_arg : Bytes → Bytes
unfolding replace_byte
quote_shell_arg v =
    b'\'' ∷ (replace_byte b'\'' (b'\'' ∷ b'\\' ∷ b'\'' ∷ b'\'' ∷ []) v ++ b'\'' ∷ [])

-- The loop over the arguments from the second on.
unfoldable pub quoted_args : List Bytes → Bytes
quoted_args [] = []
quoted_args (a ∷ rest) = b' ' ∷ quote_shell_arg a ++ quoted_args rest

unfoldable pub behind_first : List Bytes → List Bytes
behind_first [] = []
behind_first (_ ∷ rest) = rest

unfoldable pub exec_words : StoredRecord → Bytes
exec_words r = quote_shell_arg r.exe ++ quoted_args (behind_first r.args)

unfoldable pub script_text : StoredRecord → Bytes
script_text r =
    text "#!/bin/sh\n"
    ++ (if is_empty r.cwd
        then []
        else text "cd -- " ++ quote_shell_arg r.cwd ++ text " || exit 126\n")
    ++ text "exec "
    ++ exec_words r
    ++ text "\n"

unfoldable pub script_path : Bytes → Bytes
script_path unit =
    text "/run/nodelume-agent-managed/" ++ trim_suffix unit service_suffix ++ text ".sh"

unfoldable pub unit_path : Bytes → Bytes
unit_path unit = text "/run/systemd/system/" ++ unit

unfoldable pub unit_text : StoredRecord → Bytes → Bytes
unit_text r script =
    text
      "[Unit]\nDescription=NodeLume recovered standalone process\n\n[Service]\nType=simple\nUser="
    ++ print_nat r.uid
    ++ text "\nGroup="
    ++ print_nat r.gid
    ++ text "\nExecStart=/bin/sh "
    ++ script
    ++ text "\nRestart=no\nStandardInput=null\nStandardOutput=null\nStandardError=null\n"

-- The main process of the unit, at the first of some looks at it that finds one.
unfoldable pub main_pid : (ℕ → Option ℤ) → ℕ → ℕ → Option ℤ
main_pid look zero i = none
main_pid look (suc left) i =
    let rest = main_pid look left (i + 1) in
    elim (look i) [ none ↦ rest | some pid ↦ if ltb_ℤ (pos 0) pid then some pid else rest ]

abbrev pub Start : Type 0
Start = World × Option ℤ

unfoldable pub remove_both : System → Bytes → World → World
remove_both sys unit w =
    with_files
      (remove sys.removes (script_path unit) (remove sys.removes (unit_path unit) w.files).0).0 w

-- The loop looks twenty times, and once more behind it.
unfoldable pub start_unit : System → Bytes → World → Start
start_unit sys unit w =
    let w1 = log (Effect.acted unit (text "start")) w in
    let w2 = log (Effect.acted unit (text "stop")) w1 in
    if not sys.reloads
    then (remove_both sys unit w, none)
    else if not sys.starts
    then (remove_both sys unit w1, none)
    else elim (main_pid sys.looks 21 0) [
      | none ↦ (remove_both sys unit w2, none)
      | some pid ↦ (w1, some pid)
    ]

unfoldable pub write_unit : System → StoredRecord → Bytes → World → Start
write_unit sys r unit w =
    let script = script_path unit in
    let (fs1, scripted) = write_file sys.writes_script script (script_text r) w.files in
    let (fs2, noted) = write_file sys.writes_unit (unit_path unit) (unit_text r script) fs1 in
    if not scripted
    then (with_files fs1 w, none)
    else if not sys.chowns
    then (with_files (remove sys.removes script fs1).0 w, none)
    else if not noted
    then (with_files (remove sys.removes script fs2).0 w, none)
    else start_unit sys unit (with_files fs2 w)

unfoldable pub start_record :
    (Bytes → Bool) → (Bytes → Bytes) → System → StoredRecord → World → Start
start_record has_user hide_user sys r w =
    let unit = managed_unit r.id sys.now_ns in
    if is_empty r.exe
      || no_args r.args
      || not sys.exe_usable
      || has_sensitive_restart_args has_user hide_user r.args
      || not sys.systemctl
      || not (safe_service unit)
      || not sys.makes_run_dir
    then (w, none)
    else write_unit sys r unit w
