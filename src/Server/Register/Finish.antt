-- ===== src/Server/Register/Finish.antt =====
-- What a registration leaves in the state, step by step.
use nodelume.Prelude.{
  text, ◌⊎◌, ℕ, ◌+◌, ◌*◌, ◌≡◌, refl, ap, true, false, none, some, arith, Bytes, is_empty,
  if◌then◌else◌, Option-cases, inl, inr, str_eq_refl,
}
use nodelume.Prelude.Map.{find, insert, delete, find-delete}
use nodelume.Text.{trim_space}
use nodelume.Ring.{MetricPoint}
use nodelume.Server.State.{
  App, PersistNode, Enrollment, EnrollmentReceipt, Reply, second, unix, audit_locked,
}
use nodelume.Server.RateLimit.{allow_enrollment}
use nodelume.Server.Register.{
  protocol_version, pos, ltb_ℤ, is_zero, RegisterInput, Identity, Environment, enroll_node,
  find_receipt, find_enrollment, receipt_key,
}
use nodelume.Server.Register.Handler.{
  enroll_named, enroll_new, finish, enroll, redeem, register_input, agent_register,
}

-- Admission changes nothing but the times of the source.
pub state-allow_enrollment :
    {F : Type 0} (now : ℕ) (ip : Bytes) (a : App F) → (allow_enrollment now ip a).0.state ≡ a.state
unfolding allow_enrollment
state-allow_enrollment now ip a = refl

module _ (hash : Bytes → Bytes) {F : Type 0} (blank : MetricPoint F) where
  module _ (input : RegisterInput) (env : Environment) (th rkey : Bytes) (e : Enrollment) where
    -- Where the node stands after `finish`, the tokens, and the receipt.
    pub nodes-finish :
        (key : Bytes) (old : PersistNode) (a : App F)
        → (finish hash blank input env th rkey e key old a).0.state.nodes
          ≡ insert key (enroll_node hash input env old) a.state.nodes
    unfolding finish audit_locked
    nodes-finish key old a = refl

    pub enrollments-finish :
        (key : Bytes) (old : PersistNode) (a : App F)
        → (finish hash blank input env th rkey e key old a).0.state.enrollments
          ≡ (if e.reusable then a.state.enrollments else delete th a.state.enrollments)
    unfolding finish audit_locked
    enrollments-finish key old a = refl

    abbrev pub receipt : PersistNode → EnrollmentReceipt
    receipt old = record {
      node_id = (enroll_node hash input env old).id;
      secret = env.fresh_secret;
      expires_at = unix (env.now + 600 * second);
    }

    pub receipts-finish :
        (key : Bytes) (old : PersistNode) (a : App F)
        → (finish hash blank input env th rkey e key old a).0.state.enrollment_receipts ≡ (
            if is_empty rkey
            then a.state.enrollment_receipts
            else insert rkey (receipt old) a.state.enrollment_receipts)
    unfolding finish audit_locked
    receipts-finish key old a = refl

    -- The two ways to a node.
    pub enroll_reusable :
        (a : App F)
        → e.reusable ≡ true
        → enroll hash blank input env th rkey e a ≡ enroll_new hash blank input env th rkey e a
    unfolding enroll
    enroll_reusable a many =
        ap
          (λ b.
            if b
            then enroll_new hash blank input env th rkey e a
            else enroll_named hash blank input env th rkey e a)
          many

    pub enroll_one_time :
        (a : App F)
        → e.reusable ≡ false
        → enroll hash blank input env th rkey e a ≡ enroll_named hash blank input env th rkey e a
    unfolding enroll
    enroll_one_time a once =
        ap
          (λ b.
            if b
            then enroll_new hash blank input env th rkey e a
            else enroll_named hash blank input env th rkey e a)
          once

    pub enroll_named-some :
        (a : App F) (old : PersistNode)
        → find e.node_id a.state.nodes ≡ some old
        → enroll_named hash blank input env th rkey e a
          ≡ finish hash blank input env th rkey e e.node_id old a
    unfolding enroll_named
    enroll_named-some a old there = rw (there, enroll_named)

    pub enroll_named-none :
        (a : App F)
        → find e.node_id a.state.nodes ≡ none
        → enroll_named hash blank input env th rkey e a ≡ (
          record a { state = record a.state { enrollments = delete th a.state.enrollments } },
          Reply.error_code (text "NODE_NOT_FOUND") (text "指定节点不存在") (text "请重新创建接入 Token") 404,
        )
    unfolding enroll_named
    enroll_named-none a gone = rw (gone, enroll_named)

    -- A one-time token is gone after its use, also when its node is.
    pub enroll-one_time :
        (a : App F)
        → e.reusable ≡ false
        → find th (enroll hash blank input env th rkey e a).0.state.enrollments ≡ none
    enroll-one_time a once = elim (Option-cases (find e.node_id a.state.nodes)) [
      | inl gone ↦ rw (enroll_one_time a once, enroll_named-none a gone, find-delete, str_eq_refl)
      | inr (old, there) ↦ rw (
        enroll_one_time a once,
        enroll_named-some a old there,
        enrollments-finish e.node_id old a,
        once,
        find-delete,
        str_eq_refl,
      )
    ]

  -- A registration that is answered with an identity has passed every test before the token.
  pub agent_register-redeem :
      (i : RegisterInput) (env : Environment) (a : App F) (status : ℕ) (x : Identity)
      → (agent_register hash blank (some i) env a).1 ≡ Reply.ok status x
      → agent_register hash blank (some i) env a
        ≡ redeem hash blank i env (trim_space i.token) (allow_enrollment (unix env.now) env.ip a).0
  unfolding agent_register register_input
  agent_register-redeem i env a status x h = ground arith

-- The tests of the protocol and of an empty token.
abbrev pub IsWellFormed : RegisterInput → Type 0
IsWellFormed i =
    (is_zero i.protocol ≡ false)
    × (ltb_ℤ i.protocol (pos protocol_version) ≡ false)
    × (ltb_ℤ (pos protocol_version) i.protocol ≡ false)
    × (is_empty (trim_space i.token) ≡ false)

module _ (hash : Bytes → Bytes) {F : Type 0} (blank : MetricPoint F) where
  pub agent_register_valid :
      (i : RegisterInput) (env : Environment) (a : App F) (status : ℕ) (x : Identity)
      → (agent_register hash blank (some i) env a).1 ≡ Reply.ok status x
      → IsWellFormed i
  unfolding agent_register register_input
  agent_register_valid i env a status x h = ground arith

  pub agent_register_passed :
      (i : RegisterInput) (env : Environment) (a : App F)
      → IsWellFormed i
      → (allow_enrollment (unix env.now) env.ip a).1 ≡ true
      → agent_register hash blank (some i) env a
        ≡ redeem hash blank i env (trim_space i.token) (allow_enrollment (unix env.now) env.ip a).0
  unfolding agent_register register_input
  agent_register_passed i env a w passed = rw passed (ground arith)

-- The receipts and the tokens are read from the persisted state alone.
pub find_receipt-allow :
    {F : Type 0} (key : Bytes) (t now : ℕ) (ip : Bytes) (a : App F)
    → find_receipt key t (allow_enrollment now ip a).0 ≡ find_receipt key t a
unfolding find_receipt allow_enrollment
find_receipt-allow key t now ip a = refl

pub find_receipt-blank :
    {F : Type 0} (hash : Bytes → Bytes) (i : RegisterInput) (token : Bytes) (t : ℕ) (a : App F)
    → is_empty (trim_space i.enrollment_id) ≡ true
    → find_receipt (receipt_key hash i token) t a ≡ none
unfolding find_receipt receipt_key
find_receipt-blank hash i token t a h = rw h

-- An enrollment that is found is the one that the state holds.
pub find_enrollment-cases :
    {F : Type 0} (th : Bytes) (t : ℕ) (a : App F)
    → (find_enrollment th t a ≡ none) ⊎ (find_enrollment th t a ≡ find th a.state.enrollments)
unfolding find_enrollment
find_enrollment-cases th t a = ground arith
