-- ===== src/Server/Register/Rotation.antt =====
-- A node that enrolls again: its old secret stays valid for five minutes, beside the new one; and
-- every node stays under its own id.
use mathlib.Core.Path.{subst}
use nodelume.Text.{trim_space}
use nodelume.Server.RateLimit.{allow_enrollment}
use nodelume.Server.Register.Finish.{
  state-allow_enrollment, nodes-finish, enroll_reusable, enroll_one_time, enroll_named-some,
  enroll_named-none,
}
use nodelume.Server.Register.Receipts.{IsKeyed}
use nodelume.Server.Auth.{signature_accepted, valid_secret}
use nodelume.Prelude.{
  ◌⊎◌, ℕ, ◌+◌, ◌*◌, ◌≡◌, refl, ap, ◌∙◌, sym, true, false, ◌||◌, ◌&&◌, Option, none, some, arith,
  Bytes, is_empty, if◌then◌else◌, Option-cases, inl, inr, Bool-cases, leb, str_eq, str_eq_iff,
}
use nodelume.Prelude.Map.{find, insert, find-insert}
use nodelume.Ring.{MetricPoint}
use nodelume.Server.State.{App, PersistedState, PersistNode, Enrollment, second, unix}
use nodelume.Server.Register.{
  RegisterInput, Environment, enroll_node, joined_node, find_receipt, find_enrollment, receipt_key,
}
use nodelume.Server.Register.Handler.{
  finish, enroll, enroll_new, joined_app, redeem, register_input, agent_register,
}

module _ (hash : Bytes → Bytes) (hmac_hex : Bytes → Bytes → Bytes) (input : RegisterInput)
    (env : Environment) (n : PersistNode) where
  -- When a registered node enrolls again, a signature is accepted exactly when it is by the new
  -- secret, or by the one before while the five minutes run.
  pub enroll_node-signature :
      (t : ℕ) (message sig : Bytes)
      → n.registered ≡ true
      → is_empty n.agent_secret ≡ false
      → signature_accepted hash hmac_hex (enroll_node hash input env n) t message sig ≡ (
          valid_secret hash hmac_hex env.fresh_secret message sig
          || (leb t (unix (env.now + 300 * second))
              && valid_secret hash hmac_hex n.agent_secret message sig))
  unfolding signature_accepted enroll_node
  enroll_node-signature t message sig reg has = simp (reg, has)

module _ (hash : Bytes → Bytes) {F : Type 0} (blank : MetricPoint F) where
  insert-IsKeyed :
      (s s' : PersistedState) (id : Bytes) (n : PersistNode)
      → s'.nodes ≡ insert id n s.nodes
      → n.id ≡ id
      → IsKeyed s
      → IsKeyed s'
  insert-IsKeyed s s' id n e own keyed j m found =
      let f : (if str_eq id j then some n else find j s.nodes) ≡ some m =
        sym (find-insert j id n s.nodes) ∙ ap (find j) (sym e) ∙ found in
      ground (arith, str_eq_iff id j, keyed j m)

  finish-IsKeyed :
      (i : RegisterInput) (env : Environment) (th rkey : Bytes) (e : Enrollment) (key : Bytes)
      (old : PersistNode) (a : App F)
      → old.id ≡ key
      → IsKeyed a.state
      → IsKeyed (finish hash blank i env th rkey e key old a).0.state
  unfolding enroll_node
  finish-IsKeyed i env th rkey e key old a own =
      insert-IsKeyed a.state (finish hash blank i env th rkey e key old a).0.state key
        (enroll_node hash i env old) (nodes-finish hash blank i env th rkey e key old a) own

  enroll-IsKeyed :
      (i : RegisterInput) (env : Environment) (th rkey : Bytes) (e : Enrollment) (a : App F)
      → IsKeyed a.state
      → IsKeyed (enroll hash blank i env th rkey e a).0.state
  unfolding enroll_new joined_node
  enroll-IsKeyed i env th rkey e a keyed = elim (Bool-cases e.reusable) [
    | inl many ↦
        let new = joined_node i e env in
        let b = joined_app hash blank i env th e a in
        rw (enroll_reusable hash blank i env th rkey e a many) (
          finish-IsKeyed i env th rkey e env.fresh_id new b refl
            (insert-IsKeyed a.state b.state env.fresh_id new refl refl keyed))
    | inr once ↦
        let way = enroll_one_time hash blank i env th rkey e a once in
        elim (Option-cases (find e.node_id a.state.nodes)) [
          | inl gone ↦ rw (way, enroll_named-none hash blank i env th rkey e a gone) keyed
          | inr (old, there) ↦
              rw (way, enroll_named-some hash blank i env th rkey e a old there)
                (finish-IsKeyed i env th rkey e e.node_id old a (keyed e.node_id old there) keyed)
        ]
  ]

  redeem-IsKeyed :
      (i : RegisterInput) (env : Environment) (token : Bytes) (a : App F)
      → IsKeyed a.state
      → IsKeyed (redeem hash blank i env token a).0.state
  unfolding redeem
  redeem-IsKeyed i env token a keyed =
      elim (Option-cases (find_receipt (receipt_key hash i token) (unix env.now) a)) [
        | inr (x, known) ↦ rw (known, redeem) keyed
        | inl new ↦ elim (Option-cases (find_enrollment (hash token) (unix env.now) a)) [
          | inl refused ↦ rw (new, refused, redeem) keyed
          | inr (e, found) ↦
              rw (new, found, redeem)
                (enroll-IsKeyed i env (hash token) (receipt_key hash i token) e a keyed)
        ]
      ]

  register_input-cases :
      (i : RegisterInput) (env : Environment) (a : App F)
      → ((register_input hash blank i env a).0 ≡ a)
        ⊎ ((register_input hash blank i env a).0
            ≡ (redeem hash blank i env (trim_space i.token) a).0)
  unfolding register_input
  register_input-cases i env a = ground arith

  agent_register-cases :
      (input : Option RegisterInput) (env : Environment) (a : App F)
      → ((agent_register hash blank input env a).0 ≡ (allow_enrollment (unix env.now) env.ip a).0)
        ⊎ ((i : RegisterInput) × ((agent_register hash blank input env a).0
              ≡ (register_input hash blank i env (allow_enrollment (unix env.now) env.ip a).0).0))
  unfolding agent_register
  agent_register-cases none env a = inl (ground arith)
  agent_register-cases (some i) env a =
      elim (Bool-cases (allow_enrollment (unix env.now) env.ip a).1) [
        | inl passed ↦ inr (i, rw passed)
        | inr held_up ↦ inl (rw held_up)
      ]

  -- A registration, whatever becomes of it, leaves every node under its own id.
  pub agent_register-IsKeyed :
      (input : Option RegisterInput) (env : Environment) (a : App F)
      → IsKeyed a.state
      → IsKeyed (agent_register hash blank input env a).0.state
  agent_register-IsKeyed input env a keyed =
      let a1 = (allow_enrollment (unix env.now) env.ip a).0 in
      let keyed1 : IsKeyed a1.state =
        subst IsKeyed (sym (state-allow_enrollment (unix env.now) env.ip a)) keyed in
      elim (agent_register-cases input env a) [
        | inl same ↦ subst (λ b. IsKeyed b.state) (sym same) keyed1
        | inr (i, e) ↦ elim (register_input-cases i env a1) [
          | inl same ↦ subst (λ b. IsKeyed b.state) (sym (e ∙ same)) keyed1
          | inr redeemed ↦
              subst (λ b. IsKeyed b.state) (sym (e ∙ redeemed))
                (redeem-IsKeyed i env (trim_space i.token) a1 keyed1)
        ]
      ]
