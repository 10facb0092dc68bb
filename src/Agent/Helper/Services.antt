-- ===== src/Agent/Helper/Services.antt =====
-- agent/helper.go: which services and processes the helper leaves alone, `unitRE`, `isManagedUnit`,
-- `safeService` and `isProtectedProcess`, and the name that a recovered process gets in
-- `startRecord`.
pub mod Managed
pub mod Recovered
use nodelume.Prelude.{
  ℕ, ◌+◌, Bool, true, false, not, ◌&&◌, ◌||◌, List, [], ◌∷◌, ◌++◌, Option, none, some, Bytes, text,
  any, str_eq, is_empty, ◌==◌, if◌then◌else◌,
}
use nodelume.Prelude.Int.{ℤ, pos, ltb_ℤ}
use nodelume.Text.{
  to_lower, contains, has_prefix, trim_suffix, trim_space, is_digit, is_letter, print_nat,
}
use nodelume.Version.{all_bytes}

abbrev pub unit_byte : ℕ → Bool
unit_byte c = is_letter c || is_digit c || c == b'_' || c == b'.' || c == b'@' || c == b'-'

abbrev pub service_suffix : Bytes
service_suffix = text ".service"

-- `unitRE.MatchString`: a name of those characters that ends in `.service`.
unfoldable pub matches_unit : Bytes → Bool
matches_unit unit =
    let name = trim_suffix unit service_suffix in
    str_eq unit (name ++ service_suffix) && not (is_empty name) && all_bytes unit_byte name

unfoldable pub is_managed_unit : Bytes → Bool
is_managed_unit unit = has_prefix (to_lower unit) (text "nlm-managed-") && matches_unit unit

abbrev pub protected_services : List Bytes
protected_services =
    text "nodelume-"
    ∷ text "ssh.service"
    ∷ text "sshd.service"
    ∷ text "systemd-"
    ∷ text "networkmanager.service"
    ∷ text "networking.service"
    ∷ text "firewalld.service"
    ∷ text "ufw.service"
    ∷ text "dbus.service"
    ∷ text "polkit.service"
    ∷ text "docker.service"
    ∷ text "containerd.service"
    ∷ text "cron.service"
    ∷ text "crond.service"
    ∷ text "auditd.service"
    ∷ []

abbrev pub is_reserved : Bytes → Bytes → Bool
is_reserved u p = has_prefix u p || str_eq u p

unfoldable pub safe_service : Bytes → Bool
safe_service unit = matches_unit unit && not (any (is_reserved (to_lower unit)) protected_services)

abbrev pub protected_names : List Bytes
protected_names =
    text "systemd"
    ∷ text "init"
    ∷ text "sshd"
    ∷ text "systemd-journald"
    ∷ text "systemd-logind"
    ∷ text "systemd-networkd"
    ∷ text "systemd-resolved"
    ∷ text "systemd-udevd"
    ∷ text "dbus-daemon"
    ∷ text "networkmanager"
    ∷ text "firewalld"
    ∷ text "containerd"
    ∷ text "dockerd"
    ∷ text "cron"
    ∷ text "crond"
    ∷ text "auditd"
    ∷ text "polkitd"
    ∷ []

unfoldable pub is_protected_process : ℤ → Bytes → Bytes → Bytes → Bool
is_protected_process pid name exe unit =
    not (ltb_ℤ (pos 1) pid)
    || contains (to_lower name) (text "nodelume")
    || contains (to_lower exe) (text "nodelume-agent")
    || any (str_eq (to_lower name)) protected_names
    || (not (is_empty unit) && not (safe_service unit))

-- `ReplaceAllString` of the runs of other characters by a dash; the flag is set within such a run.
unfoldable pub dashed_from : Bool → Bytes → Bytes
dashed_from in_run [] = []
dashed_from in_run (c ∷ s) =
    let good = dashed_from false s in
    let bad = dashed_from true s in
    if unit_byte c then c ∷ good else if in_run then bad else b'-' ∷ bad

-- The unit of a recovered process; the time in nanoseconds stands in for an empty id.
unfoldable pub managed_unit : Bytes → ℕ → Bytes
managed_unit id now =
    let dashed = dashed_from false (trim_suffix (trim_space id) service_suffix) in
    text "nlm-managed-" ++ (if is_empty dashed then print_nat now else dashed) ++ service_suffix
