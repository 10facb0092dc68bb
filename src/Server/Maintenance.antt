-- ===== src/Server/Maintenance.antt =====
-- server/main.go, `maintenance`: what one tick does to the state under the lock. The runtime status
-- file and the renewal of certificates are outside. The clock is more than an hour after 1970.
pub mod Purge
pub mod Histories
use nodelume.Prelude.{
  ℕ, ◌+◌, ◌-◌, ◌*◌, Bool, true, false, not, ◌&&◌, ◌||◌, List, [], ◌∷◌, Option, none, some, Bytes,
  is_empty, ltb, if◌then◌else◌,
}
use nodelume.Prelude.Map.{delete_where, map_values, any_entry}
use nodelume.Ring.{Ring, prune, ◌>>=◌}
use nodelume.Server.State.{
  App, PersistedState, PersistNode, Enrollment, EnrollmentReceipt, RuntimeNode, Session, second,
  unix,
}

-- The tests of the three loops that delete, and of the loop over the nodes; `now` in nanoseconds.
abbrev pub token_expired : ℕ → Bytes → Enrollment → Bool
token_expired now _ e = ltb 0 e.expires_at && ltb e.expires_at (unix now)

abbrev pub receipt_expired : ℕ → Bytes → EnrollmentReceipt → Bool
receipt_expired now _ rec = ltb rec.expires_at (unix now)

abbrev pub session_expired : ℕ → Bytes → Session → Bool
session_expired now _ s = ltb s.expires now

abbrev pub secret_expired : ℕ → Bytes → PersistNode → Bool
secret_expired now _ n =
    not (is_empty n.previous_agent_secret)
    && ltb 0 n.previous_secret_expires_at
    && ltb n.previous_secret_expires_at (unix now)

unfoldable pub forget_secret : ℕ → Bytes → PersistNode → PersistNode
forget_secret now id n =
    if secret_expired now id n
    then record n { previous_agent_secret = []; previous_secret_expires_at = 0 }
    else n

unfoldable pub purge_state : ℕ → PersistedState → PersistedState
purge_state now s = record s {
  enrollments = delete_where (token_expired now) s.enrollments;
  enrollment_receipts = delete_where (receipt_expired now) s.enrollment_receipts;
  nodes = map_values (forget_secret now) s.nodes;
  sessions = delete_where (session_expired now) s.sessions;
}

-- `dirty`: is the state saved after the loops?
unfoldable pub is_dirty : ℕ → PersistedState → Bool
is_dirty now s =
    any_entry (token_expired now) s.enrollments
    || any_entry (receipt_expired now) s.enrollment_receipts
    || any_entry (secret_expired now) s.nodes
    || any_entry (session_expired now) s.sessions

-- The loop over the runtime; an index panic in `Prune` is `none`.
unfoldable pub prune_all :
    {F : Type 0} → ℕ → List (Bytes × RuntimeNode F) → Option (List (Bytes × RuntimeNode F))
prune_all cut [] = some []
prune_all cut ((k, rt) ∷ m) = do
  ring ← prune rt.history cut
  rest ← prune_all cut m
  some ((k, record rt { history = ring }) ∷ rest)

unfoldable pub maintain : {F : Type 0} → ℕ → App F → Option (App F)
maintain now a = do
  runtime ← prune_all (unix (now - 3600 * second)) a.runtime
  some (record a { state = purge_state now a.state; runtime = runtime })
