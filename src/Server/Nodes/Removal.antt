-- ===== src/Server/Nodes/Removal.antt =====
-- A node that was deleted: its agent is refused, and no token names it.
use nodelume.Prelude.{
  ◌⊎◌, ℕ, ◌≡◌, ◌≢◌, refl, ap, ◌∙◌, sym, arith, false, List, none, some, Bytes, str_eq, str_eq_iff,
  str_eq_refl, is_empty, if◌then◌else◌, Option-cases, inl, inr,
}
use nodelume.Prelude.Map.{find, delete, find-delete}
use nodelume.Text.{trim_space}
use nodelume.Server.State.{App, PersistNode, Enrollment, Reply, audit_locked}
use nodelume.Server.Auth.{Request, AuthResult, auth_agent_detailed}
use nodelume.Server.Auth.Accept.{auth_agent_detailed-Passes}
use nodelume.Server.Nodes.{Context, names_node, without_tokens, remove_node, delete_node}
use nodelume.Server.Nodes.Tokens.{delete_where-stays}

module _ {F : Type 0} where
  nodes-remove_node :
      (id : Bytes) (n : PersistNode) (c : Context) (a : App F)
      → (remove_node id n c a).state.nodes ≡ delete id a.state.nodes
  unfolding remove_node audit_locked
  nodes-remove_node id n c a = refl

  enrollments-remove_node :
      (id : Bytes) (n : PersistNode) (c : Context) (a : App F)
      → (remove_node id n c a).state.enrollments ≡ without_tokens id a.state.enrollments
  unfolding remove_node audit_locked
  enrollments-remove_node id n c a = refl

  delete_node-remove :
      (id : Bytes) (c : Context) (a : App F) (status : ℕ) (x : Unit)
      → (delete_node id c a).1 ≡ Reply.ok status x
      → (n : PersistNode) × (find id a.state.nodes ≡ some n)
        × ((delete_node id c a).0 ≡ remove_node id n c a)
  unfolding delete_node
  delete_node-remove id c a status x h = elim (Option-cases (find id a.state.nodes)) [
    | inl gone ↦ absurd (ground arith)
    | inr (n, there) ↦ (n, there, ground arith)
  ]

  find-delete_node :
      (id j : Bytes) (c : Context) (a : App F) (status : ℕ) (x : Unit)
      → (delete_node id c a).1 ≡ Reply.ok status x
      → find j (delete_node id c a).0.state.nodes
        ≡ (if str_eq id j then none else find j a.state.nodes)
  find-delete_node id j c a status x h =
      let (n, _, same) = delete_node-remove id c a status x h in
      ap (λ b. find j b.state.nodes) same
      ∙ ap (find j) (nodes-remove_node id n c a)
      ∙ find-delete j id a.state.nodes

  -- Once a node was deleted no signed request of its agent is accepted.
  pub delete_node-refused :
      (sha256_hex : Bytes → Bytes) (hmac_hex : Bytes → Bytes → Bytes)
      (order : List (Bytes × ℕ) → List (Bytes × ℕ)) (c : Context) (a : App F) (status : ℕ)
      (x : Unit) (now : ℕ) (r : Request) (id : Bytes)
      → is_empty (trim_space r.node_id) ≡ false
      → (delete_node (trim_space r.node_id) c a).1 ≡ Reply.ok status x
      → (auth_agent_detailed sha256_hex hmac_hex order
          (delete_node (trim_space r.node_id) c a).0
          now
          r).1
        ≢ AuthResult.accepted id
  delete_node-refused sha256_hex hmac_hex order c a status x now r id named h ok =
      let own = trim_space r.node_id in
      let b = (delete_node own c a).0 in
      let gone = find-delete_node own own c a status x h in
      let (_, _, _, p, _) =
        auth_agent_detailed-Passes sha256_hex hmac_hex order b now r id named ok in
      ground (arith, str_eq_refl own, gone, p.found)

  -- Once a node was deleted no token names it.
  pub delete_node-tokens :
      (id : Bytes) (c : Context) (a : App F) (status : ℕ) (x : Unit) (th : Bytes) (e : Enrollment)
      → (delete_node id c a).1 ≡ Reply.ok status x
      → find th (delete_node id c a).0.state.enrollments ≡ some e
      → e.node_id ≢ id
  unfolding without_tokens
  delete_node-tokens id c a status x th e h held names =
      let (n, _, same) = delete_node-remove id c a status x h in
      let left =
        ap (λ b. find th b.state.enrollments) same
        ∙ ap (find th) (enrollments-remove_node id n c a) in
      ground (
        arith,
        str_eq_iff e.node_id id,
        delete_where-stays (names_node id) a.state.enrollments th e (sym left ∙ held),
      )

  -- Once a node was deleted no signed request of its agent is accepted, and whatever token is
  -- looked up, either the state holds none under that hash or the one it holds does not name the
  -- node. Both are of the state that the deletion left.
  pub delete_node_final :
      (sha256_hex : Bytes → Bytes) (hmac_hex : Bytes → Bytes → Bytes)
      (order : List (Bytes × ℕ) → List (Bytes × ℕ)) (c : Context) (a : App F) (status : ℕ)
      (x : Unit) (now : ℕ) (r : Request) (id th : Bytes)
      → is_empty (trim_space r.node_id) ≡ false
      → (delete_node (trim_space r.node_id) c a).1 ≡ Reply.ok status x
      → ((auth_agent_detailed sha256_hex hmac_hex order
            (delete_node (trim_space r.node_id) c a).0
            now
            r).1
          ≢ AuthResult.accepted id)
        × ((find th (delete_node (trim_space r.node_id) c a).0.state.enrollments ≡ none)
            ⊎ ((e : Enrollment) × (find th
                    (delete_node (trim_space r.node_id) c a).0.state.enrollments
                  ≡ some e)
                × (e.node_id ≢ trim_space r.node_id)))
  delete_node_final sha256_hex hmac_hex order c a status x now r id th named ok =
      let own = trim_space r.node_id in
      (
        delete_node-refused sha256_hex hmac_hex order c a status x now r id named ok,
        elim (Option-cases (find th (delete_node own c a).0.state.enrollments)) [
          | inl gone ↦ inl gone
          | inr (e, left) ↦ inr (e, left, delete_node-tokens own c a status x th e ok left)
        ],
      )
