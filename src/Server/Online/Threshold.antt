-- ===== src/Server/Online/Threshold.antt =====
-- The offline threshold: its bounds, and where it is three times the interval.
use nodelume.Prelude.{
  ◌∙◌, ap, ℕ, ◌+◌, ◌*◌, ◌≤◌, ◌<◌, ◌≡◌, true, Option, some, arith, ltb, if◌then◌else◌,
}
use nodelume.Prelude.Int.{ℤ, pos, ◌*ℤ◌, ◌≤ℤ◌}
use nodelume.Prelude.Word.{wrap64, wrap64_pos}
use nodelume.Server.State.{PersistNode, RuntimeNode, second}
use nodelume.Server.Online.{
  duration, at_least_min, min_threshold, threshold, node_is_online, node_offline_threshold,
  interval_of,
}

at_least_min-le : (d : ℤ) → min_threshold ≤ℤ at_least_min d
unfolding at_least_min
at_least_min-le d = ground arith

-- The threshold is 30 seconds at least, whatever interval an agent reports.
pub threshold_min :
    {F : Type 0} (n : Option PersistNode) (rt : Option (RuntimeNode F))
    → min_threshold ≤ℤ node_offline_threshold n rt
unfolding node_offline_threshold threshold
threshold_min n rt = at_least_min-le (duration (interval_of n rt))

duration-exact : (sec : ℕ) → sec ≤ 3_000_000_000 → duration (pos sec) ≡ pos (3 * sec * second)
unfolding duration ◌*ℤ◌
duration-exact sec h =
    let three : pos sec *ℤ pos 3 ≡ pos (sec * 3) = ground arith in
    let e : wrap64 (pos (sec * 3)) ≡ pos (sec * 3) = wrap64_pos (sec * 3) (omega arith) in
    let nanos : pos (sec * 3) *ℤ pos second ≡ pos (3 * sec * second) = ground arith in
    ap (λ z. wrap64 (wrap64 z *ℤ pos second)) three
    ∙ ap (λ z. wrap64 (z *ℤ pos second)) e
    ∙ ap wrap64 nanos
    ∙ wrap64_pos (3 * sec * second) (omega arith)

-- For every interval up to three billion seconds nothing wraps round: the threshold is three times
-- the interval, or 30 seconds for an interval below ten.
pub threshold-exact :
    (sec : ℕ)
    → sec ≤ 3_000_000_000
    → threshold (pos sec) ≡ (if ltb sec 10 then min_threshold else pos (3 * sec * second))
unfolding threshold at_least_min
threshold-exact sec h = rw (duration-exact sec h) (ground arith)

-- A registered node that was seen in the last 30 seconds is online.
pub node_is_online-recent :
    {F : Type 0} (now t : ℕ) (n : PersistNode) (rt : RuntimeNode F)
    → n.registered ≡ true
    → rt.last_seen ≡ some t
    → now < t + 30 * second
    → node_is_online now (some n) (some rt) ≡ true
unfolding node_is_online
node_is_online-recent now t n rt reg seen soon =
    let m = threshold_min (some n) (some rt) in rw (reg, seen) (ground arith)
