-- ===== src/Server/Online.antt =====
-- server/final.go, `nodeOfflineThreshold` and `nodeIsOnline`.
pub mod Threshold
use nodelume.Prelude.{ℕ, ◌+◌, ◌*◌, Bool, true, false, Option, none, some, ltb, if◌then◌else◌}
use nodelume.Prelude.Int.{ℤ, pos, negsuc, ◌*ℤ◌, ltb_ℤ, pos_part}
use nodelume.Prelude.Word.{wrap64}
use nodelume.Server.State.{PersistNode, RuntimeNode, Heartbeat, second}

-- The interval that the agent last reported, 0 before its first heartbeat.
abbrev pub applied_interval : {F : Type 0} → RuntimeNode F → ℤ
applied_interval rt = elim rt.latest [ none ↦ pos 0 | some hb ↦ hb.report_interval_sec ]

-- The interval that counts: the reported one, the desired one, or 2.
abbrev desired_interval : Option PersistNode → ℤ
desired_interval none = pos 2
desired_interval (some n) =
    if ltb_ℤ (pos 0) n.report_interval_sec then n.report_interval_sec else pos 2

abbrev pub interval_of : {F : Type 0} → Option PersistNode → Option (RuntimeNode F) → ℤ
interval_of n none = desired_interval n
interval_of n (some rt) =
    if ltb_ℤ (pos 0) (applied_interval rt) then applied_interval rt else desired_interval n

abbrev pub min_threshold : ℤ
min_threshold = pos (30 * second)

-- `time.Duration(sec*3) * time.Second` in `int64`, and 30 seconds at least.
unfoldable pub duration : ℤ → ℤ
duration sec = wrap64 (wrap64 (sec *ℤ pos 3) *ℤ pos second)

unfoldable pub at_least_min : ℤ → ℤ
at_least_min d = if ltb_ℤ d min_threshold then min_threshold else d

unfoldable pub threshold : ℤ → ℤ
threshold sec = at_least_min (duration sec)

unfoldable pub node_offline_threshold :
    {F : Type 0} → Option PersistNode → Option (RuntimeNode F) → ℤ
node_offline_threshold n rt = threshold (interval_of n rt)

-- `time.Since(rt.LastSeen) < threshold`; the clock that Go compares does not go back.
abbrev seen_within : ℕ → Option ℕ → ℤ → Bool
seen_within now none d = false
seen_within now (some t) d = ltb now (t + pos_part d)

unfoldable pub node_is_online :
    {F : Type 0} → ℕ → Option PersistNode → Option (RuntimeNode F) → Bool
node_is_online now none rt = false
node_is_online now (some n) none = false
node_is_online now (some n) (some rt) =
    if n.registered
    then seen_within now rt.last_seen (node_offline_threshold (some n) (some rt))
    else false
