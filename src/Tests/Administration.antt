-- ===== src/Tests/Administration.antt =====
-- Nodes and tokens as the administrator manages them, and a tick of the maintenance.
use nodelume.Prelude.{
  ◌⊎◌, ℕ, ◌-◌, ◌*◌, ◌≡◌, ◌≢◌, refl, arith, true, false, List, [], ◌∷◌, none, some, Bytes, text,
  str_eq, is_empty, length,
}
use nodelume.Prelude.Int.{pos}
use nodelume.Prelude.Map.{find, insert, delete, delete_where, map_values, any_entry}
use nodelume.Text.{space_width, last_space_width, skip_spaces, trim_space}
use nodelume.Ring.{new_ring}
use nodelume.Ring.Spec.{new_ring-Holds}
use nodelume.Server.State.{App, RuntimeNode, Enrollment, Reply, second, unix, audit_locked}
use nodelume.Server.Auth.{Request, AuthResult, auth_agent_detailed}
use nodelume.Server.Register.{new_runtime_node, find_enrollment}
use nodelume.Server.Session.{get_session}
use nodelume.Server.Nodes.{
  Context, created_node, one_time_enrollment, without_tokens, add_node, create_node, renew_token,
  reenroll_node, remove_node, delete_node,
}
use nodelume.Server.Nodes.Common.{
  CommonInput, without_common, renew_common, set_common_enrollment, revoke_common_enrollment,
  common_enrollment, get_common_enrollment,
}
use nodelume.Server.Nodes.Tokens.{reenroll_node-only}
use nodelume.Server.Nodes.Removal.{delete_node_final}
use nodelume.Server.Maintenance.{forget_secret, purge_state, is_dirty, prune_all, maintain}
use nodelume.Server.Maintenance.Purge.{node_accepts, purge_unseen, after}
use nodelume.Server.Maintenance.Histories.{PrunedTo, maintain-PrunedTo}
use nodelume.Tests.Data.{hash, hmac_hex, order, blank, one_time, app}

program : Unit {0}
unfolding space_width last_space_width skip_spaces trim_space find insert delete delete_where
    map_values any_entry audit_locked created_node one_time_enrollment without_tokens add_node
    create_node renew_token reenroll_node remove_node delete_node without_common renew_common
    set_common_enrollment revoke_common_enrollment common_enrollment get_common_enrollment
    forget_secret purge_state is_dirty prune_all maintain str_eq text new_runtime_node new_ring
program = tt

abbrev context : Context
context = record {
  now = 50 * second;
  ip = b'i' ∷ [];
  fresh_id = b'b' ∷ [];
  fresh_token = b'k' ∷ [];
  saved = true;
}

abbrev id_a : Bytes
id_a = b'a' ∷ []

creates :
    ((create_node hash blank true (some (record { name = 32 ∷ []; group = [] })) context app).1
      ≡ Reply.ok 201 (b'b' ∷ [], b'k' ∷ []))
    × ((create_node hash blank false none context app).1 ≡ Reply.error (text "公网 Server 地址无效") 409)
unfolding program
creates = (refl, refl)

reenrolled : (reenroll_node hash true id_a context app).1 ≡ Reply.ok 200 (b'k' ∷ [])
unfolding program
reenrolled = refl

-- The old token is gone.
reenrolled_tokens :
    (find (b't' ∷ []) (reenroll_node hash true id_a context app).0.state.enrollments ≡ none)
    × (find (b'k' ∷ []) (reenroll_node hash true id_a context app).0.state.enrollments
        ≡ some (one_time_enrollment id_a (50 * second)))
unfolding program
reenrolled_tokens = (refl, refl)

reenroll_node-only_example : (b'k' ∷ []) ≡ hash (b'k' ∷ [])
unfolding one_time_enrollment
reenroll_node-only_example =
    reenroll_node-only hash true id_a context app 200 (b'k' ∷ []) (b'k' ∷ [])
      (one_time_enrollment id_a (50 * second)) reenrolled reenrolled_tokens.1 refl

abbrev weekly : CommonInput
weekly = record { days = pos 7; name = [] }

abbrev common : Enrollment
common = record { node_id = []; name = []; expires_at = 604850; reusable = true; joined = 0 }

made_common :
    ((set_common_enrollment hash true (some weekly) context app).1
      ≡ Reply.ok 200 (b'k' ∷ [], 604850))
    × (find
          (b'k' ∷ [])
          (set_common_enrollment hash true (some weekly) context app).0.state.enrollments
        ≡ some common)
unfolding program
made_common = (refl, refl)

left_over :
    find (b't' ∷ []) (revoke_common_enrollment context app).0.state.enrollments ≡ some one_time
unfolding program
left_over = refl

abbrev request : Request
request = record {
  method = [];
  request_uri = [];
  node_id = id_a;
  timestamp = b'5' ∷ b'0' ∷ [];
  nonce = b'x' ∷ [];
  signature = b's' ∷ [];
  authorization = [];
  body = some [];
}

named : is_empty (trim_space request.node_id) ≡ false
unfolding program
named = refl

deleted : (delete_node (trim_space request.node_id) context app).1 ≡ Reply.ok 200 tt
unfolding program
deleted = refl

deleted_a : (delete_node id_a context app).1 ≡ Reply.ok 200 tt
unfolding program
deleted_a = refl

stays :
    (e : Enrollment) × (find (b'r' ∷ []) (delete_node id_a context app).0.state.enrollments
      ≡ some e)
unfolding program
stays = (_, refl)

-- At the second 2000 the one-time token has expired, and the reusable one has not.
ticks :
    (is_dirty (50 * second) app.state ≡ false)
    × (is_dirty (2000 * second) app.state ≡ true)
    × (length (purge_state (2000 * second) app.state).enrollments ≡ 1)
unfolding program
ticks = (refl, refl, refl)

abbrev heard : RuntimeNode ℕ
heard = record {
  last_seen = none;
  latest = none;
  history = new_ring blank 3;
  last_history = none;
  commands = [];
  pending = [];
}

abbrev running : App ℕ
running = record app { runtime = (id_a, heard) ∷ [] }

maintain-PrunedTo_example :
    (m : List (Bytes × RuntimeNode ℕ)) × (maintain (4000 * second) running
      ≡ some (record running { state = purge_state (4000 * second) running.state; runtime = m }))
    × PrunedTo (unix (4000 * second - 3600 * second)) running.runtime m
maintain-PrunedTo_example =
    maintain-PrunedTo (4000 * second) running (([], new_ring-Holds blank 3 (omega arith)), tt)

purge_unseen_example :
    (find_enrollment (b't' ∷ []) (unix (3000 * second)) (after (2000 * second) app)
      ≡ find_enrollment (b't' ∷ []) (unix (3000 * second)) app)
    × (get_session (some (b's' ∷ [])) (3000 * second) (after (2000 * second) app)
        ≡ get_session (some (b's' ∷ [])) (3000 * second) app)
    × (node_accepts hash hmac_hex id_a (3000 * second) [] (b's' ∷ []) (after (2000 * second) app)
        ≡ node_accepts hash hmac_hex id_a (3000 * second) [] (b's' ∷ []) app)
purge_unseen_example =
    purge_unseen hash hmac_hex (2000 * second) (3000 * second) (b't' ∷ []) (some (b's' ∷ [])) id_a
      [] (b's' ∷ []) app (omega arith)

delete_node_final_example :
    ((auth_agent_detailed hash hmac_hex order
        (delete_node (trim_space request.node_id) context app).0
        (50 * second)
        request).1
      ≢ AuthResult.accepted id_a)
    × ((find (b'r' ∷ []) (delete_node (trim_space request.node_id) context app).0.state.enrollments
          ≡ none)
        ⊎ ((e : Enrollment) × (find
                (b'r' ∷ [])
                (delete_node (trim_space request.node_id) context app).0.state.enrollments
              ≡ some e)
            × (e.node_id ≢ trim_space request.node_id)))
delete_node_final_example =
    delete_node_final hash hmac_hex order context app 200 tt (50 * second) request id_a (b'r' ∷ [])
      named deleted
