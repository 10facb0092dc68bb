-- ===== src/Server/Register/Handler.antt =====
-- server/main.go, `agentRegister`: the handler.
use nodelume.Prelude.{◌+◌, ◌*◌, ◌++◌, Option, none, some, Bytes, text, is_empty, if◌then◌else◌}
use nodelume.Prelude.Int.{pos, ltb_ℤ}
use nodelume.Prelude.Map.{find, insert, delete}
use nodelume.Text.{trim_space}
use nodelume.Ring.{MetricPoint}
use nodelume.Server.State.{
  App, PersistedState, PersistNode, Enrollment, EnrollmentReceipt, Reply, protocol_version, second,
  unix, audit_locked,
}
use nodelume.Server.RateLimit.{allow_enrollment}
use nodelume.Server.Register.{
  RegisterInput, Identity, Environment, new_runtime_node, is_zero, joined_node, protocol_reason,
  ensure_runtime, enroll_node, receipt_key, find_receipt, find_enrollment,
}

module _ (hash : Bytes → Bytes) where
  abbrev pub with_state : {F : Type 0} → App F → PersistedState → App F
  with_state a s = record a { state = s }

  -- From the new secret to the reply, for the node that stands under `key`.
  unfoldable pub finish :
      {F : Type 0}
      → MetricPoint F
      → RegisterInput
      → Environment
      → Bytes
      → Bytes
      → Enrollment
      → Bytes
      → PersistNode
      → App F
      → App F × Reply Identity
  finish blank input env th rkey e key old a =
      let n = enroll_node hash input env old in
      let s = a.state in
      let receipt : EnrollmentReceipt = record {
        node_id = n.id;
        secret = env.fresh_secret;
        expires_at = unix (env.now + 600 * second);
      } in
      let s' : PersistedState = record s {
        nodes = insert key n s.nodes;
        enrollments = if e.reusable then s.enrollments else delete th s.enrollments;
        enrollment_receipts =
            if is_empty rkey
            then s.enrollment_receipts
            else insert rkey receipt s.enrollment_receipts;
      } in
      let detail = input.system.os ++ text " / " ++ input.system.arch in
      let a' = record a {
        state =
            audit_locked env.now env.ip (text "agent_register") n.name detail (text "success") s';
        runtime = ensure_runtime blank n.id a.runtime;
      } in
      (
        a',
        if env.saved
            then Reply.ok 200 (record {
              node_id = n.id;
              node_name = n.name;
              secret = env.fresh_secret;
              report_interval_sec = n.report_interval_sec;
            })
            else Reply.error_code (text "IDENTITY_SAVE_FAILED") (text "Server 无法保存 Agent 身份")
                (text "请检查 Server 数据目录权限和磁盘空间") 500,
      )

  -- A reusable token makes a node, and counts it.
  abbrev pub joined_app :
      {F : Type 0}
      → MetricPoint F
      → RegisterInput
      → Environment
      → Bytes
      → Enrollment
      → App F
      → App F
  joined_app blank input env th e a =
      let s = a.state in
      let joined : PersistedState = record s {
        nodes = insert env.fresh_id (joined_node input e env) s.nodes;
        enrollments = insert th (record e { joined = e.joined + 1 }) s.enrollments;
      } in
      record a { state = joined; runtime = insert env.fresh_id (new_runtime_node blank) a.runtime }

  unfoldable pub enroll_new :
      {F : Type 0}
      → MetricPoint F
      → RegisterInput
      → Environment
      → Bytes
      → Bytes
      → Enrollment
      → App F
      → App F × Reply Identity
  enroll_new blank input env th rkey e a =
      finish blank input env th rkey e env.fresh_id (joined_node input e env)
        (joined_app blank input env th e a)

  -- A one-time token names its node.
  unfoldable pub enroll_named :
      {F : Type 0}
      → MetricPoint F
      → RegisterInput
      → Environment
      → Bytes
      → Bytes
      → Enrollment
      → App F
      → App F × Reply Identity
  enroll_named blank input env th rkey e a = elim (find e.node_id a.state.nodes) [
    | some old ↦ finish blank input env th rkey e e.node_id old a
    | none ↦ (
      with_state a (record a.state { enrollments = delete th a.state.enrollments }),
      Reply.error_code (text "NODE_NOT_FOUND") (text "指定节点不存在") (text "请重新创建接入 Token") 404,
    )
  ]

  unfoldable pub enroll :
      {F : Type 0}
      → MetricPoint F
      → RegisterInput
      → Environment
      → Bytes
      → Bytes
      → Enrollment
      → App F
      → App F × Reply Identity
  enroll blank input env th rkey e a =
      if e.reusable
      then enroll_new blank input env th rkey e a
      else enroll_named blank input env th rkey e a

  abbrev pub invalid_token : Bytes → Bytes → Reply Identity
  invalid_token reason action = Reply.error_code (text "INVALID_ENROLLMENT_TOKEN") reason action 401

  -- From the token on: the receipt first, then the enrollment.
  unfoldable pub redeem :
      {F : Type 0}
      → MetricPoint F
      → RegisterInput
      → Environment
      → Bytes
      → App F
      → App F × Reply Identity
  redeem blank input env token a =
      let rkey = receipt_key hash input token in
      let th = hash token in
      elim (find_receipt rkey (unix env.now) a) [
        | some identity ↦ (a, Reply.ok 200 identity)
        | none ↦ elim (find_enrollment th (unix env.now) a) [
          | some e ↦ enroll blank input env th rkey e a
          | none ↦ (a, invalid_token (text "Enrollment Token 无效或已过期") (text "请在 Web 中重新生成接入 Token"))
        ]
      ]

  unfoldable pub register_input :
      {F : Type 0} → MetricPoint F → RegisterInput → Environment → App F → App F × Reply Identity
  register_input blank input env a =
      let token = trim_space input.token in
      if is_zero input.protocol
      then (
        a,
        Reply.error_code (text "MISSING_PROTOCOL_VERSION") (text "Agent 未提供 Protocol 版本")
            (text "请升级 NodeLume Agent") 426,
      )
      else if ltb_ℤ input.protocol (pos protocol_version)
      then (
        a,
        Reply.error_code (text "AGENT_PROTOCOL_TOO_OLD")
            (protocol_reason input.protocol (text " 低于 Server 支持版本 ")) (text "请升级 NodeLume Agent")
            426,
      )
      else if ltb_ℤ (pos protocol_version) input.protocol
      then (
        a,
        Reply.error_code (text "SERVER_PROTOCOL_TOO_OLD")
            (protocol_reason input.protocol (text " 高于 Server 支持版本 ")) (text "请升级 NodeLume Server")
            426,
      )
      else if is_empty token
      then (a, invalid_token (text "Enrollment Token 不能为空") (text "请重新生成接入 Token"))
      else redeem blank input env token a

  -- The whole handler. A body that does not decode is `none`.
  unfoldable pub agent_register :
      {F : Type 0}
      → MetricPoint F
      → Option RegisterInput
      → Environment
      → App F
      → App F × Reply Identity
  agent_register blank input env a =
      let (a', passed) = allow_enrollment (unix env.now) env.ip a in
      if passed
      then elim input [
        | none ↦ (a', Reply.error (text "请求数据格式无效") 400)
        | some i ↦ register_input blank i env a'
      ]
      else (
        a',
        Reply.error_code (text "ENROLLMENT_RATE_LIMITED") (text "首次注册请求过于频繁") (text "请稍后重试") 429,
      )
