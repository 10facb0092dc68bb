-- ===== src/Server/Heartbeat/Online.antt =====
-- A node is online after its heartbeat.
use nodelume.Prelude.{
  ℕ, ◌+◌, ◌*◌, ◌<◌, ◌≡◌, refl, ◌∙◌, arith, true, List, some, Bytes, str_eq_refl, if◌then◌else◌,
  Bool-cases, inl, inr, length,
}
use nodelume.Prelude.Map.{find, insert, find-insert}
use nodelume.Ring.{MetricPoint}
use nodelume.Ring.Contents.{Holds}
use nodelume.Ring.Spec.{push, add-Holds}
use nodelume.Server.State.{App, PersistNode, SystemInfo, Heartbeat, RuntimeNode, second}
use nodelume.Server.Online.{node_is_online}
use nodelume.Server.Online.Threshold.{node_is_online-recent}
use nodelume.Server.Heartbeat.{
  HeartbeatReply, is_due, stamped, with_system, update_node, metric_point, hear, runtime_of,
  keep_heartbeat, reply_of,
}

find-update_node :
    (system : SystemInfo) (id : Bytes) (m : List (Bytes × PersistNode)) (n : PersistNode)
    → find id m ≡ some n
    → find id (update_node system id m) ≡ some (with_system system n)
unfolding update_node
find-update_node system id m n e = rw (e, update_node, find-insert, str_eq_refl)

registered-with_system :
    (system : SystemInfo) (n : PersistNode) → (with_system system n).registered ≡ n.registered
unfolding with_system
registered-with_system system n = ground arith

module _ {F : Type 0} (narrow : F → F) (blank : MetricPoint F) where
  -- The history takes the point when one is due, and stays otherwise.
  abbrev pub next_history :
      Heartbeat F → ℕ → RuntimeNode F → List (MetricPoint F) → List (MetricPoint F)
  next_history hb now rt h =
      if is_due rt.last_history now
      then push (length rt.history.points) h (metric_point narrow blank hb now)
      else h

  hear-Holds :
      (hb : Heartbeat F) (now : ℕ) (rt : RuntimeNode F) (h : List (MetricPoint F))
      → Holds rt.history h
      → (rt' : RuntimeNode F) × (hear narrow blank hb now rt ≡ some rt')
        × (rt'.last_seen ≡ some now)
        × (rt'.latest ≡ some (stamped hb now))
        × Holds rt'.history (next_history hb now rt h)
  unfolding hear
  hear-Holds hb now rt h held = elim (Bool-cases (is_due rt.last_history now)) [
    | inl due ↦
        let (ring, e, kept, _) = add-Holds (metric_point narrow blank hb now) held in
        (
          record rt {
            last_seen = some now;
            latest = some (stamped hb now);
            history = ring;
            last_history = some now;
          },
          rw (due, e),
          refl,
          refl,
          rw due kept,
        )
    | inr early ↦ (
      record rt { last_seen = some now; latest = some (stamped hb now) },
      rw early,
      refl,
      refl,
      rw early held,
    )
  ]

  -- A heartbeat of a registered node whose history is a valid ring is kept without a panic: the
  -- history takes its point if the last one is five seconds old, and the node is online for the
  -- next 30 seconds.
  pub keep_heartbeat-online :
      (id : Bytes) (hb : Heartbeat F) (now later : ℕ) (a : App F) (n : PersistNode)
      (h : List (MetricPoint F))
      → find id a.state.nodes ≡ some n
      → n.registered ≡ true
      → Holds (runtime_of narrow blank id a).history h
      → later < now + 30 * second
      → (b : App F) × (x : HeartbeatReply) × (rt : RuntimeNode F) × (keep_heartbeat narrow blank id
            hb now a
          ≡ some (b, x))
        × (find id b.runtime ≡ some rt)
        × Holds rt.history (next_history hb now (runtime_of narrow blank id a) h)
        × (node_is_online later (find id b.state.nodes) (find id b.runtime) ≡ true)
  unfolding keep_heartbeat
  keep_heartbeat-online id hb now later a n h there reg held soon =
      let (rt, e, seen, _, kept) = hear-Holds hb now (runtime_of narrow blank id a) h held in
      let b : App F = record a {
        runtime = insert id rt a.runtime;
        state = record a.state { nodes = update_node hb.system id a.state.nodes };
      } in
      let node = find-update_node hb.system id a.state.nodes n there in
      let runtime : find id (insert id rt a.runtime) ≡ some rt = rw (find-insert, str_eq_refl) in
      let online =
        node_is_online-recent later now (with_system hb.system n) rt
          (registered-with_system hb.system n ∙ reg) seen soon in
      (
        b,
        reply_of (find id (update_node hb.system id a.state.nodes)),
        rt,
        rw e,
        runtime,
        kept,
        rw (node, runtime) online,
      )
