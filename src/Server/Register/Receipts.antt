-- ===== src/Server/Register/Receipts.antt =====
-- A registration that is sent again, because its reply was lost, gets the identity of the first one.
use mathlib.Core.Path.{subst}
use nodelume.Server.Register.Finish.{
  agent_register_valid, agent_register_passed, enroll_named-some, enroll_named-none,
  enroll_one_time, enroll_reusable, receipt, state-allow_enrollment, nodes-finish, receipts-finish,
  agent_register-redeem, find_receipt-allow,
}
use nodelume.Prelude.{
  ℕ, ◌+◌, ◌*◌, ◌<◌, ◌≡◌, refl, ap, ◌∙◌, sym, true, false, none, some, Bytes, is_empty, Option-cases,
  inl, inr, Bool-cases, lt→ltb, str_eq_refl,
}
use nodelume.Prelude.Map.{find, find-insert}
use nodelume.Text.{trim_space}
use nodelume.Ring.{MetricPoint}
use nodelume.Server.State.{App, PersistedState, PersistNode, Enrollment, Reply, second, unix}
use nodelume.Server.RateLimit.{allow_enrollment}
use nodelume.Server.Register.{
  EnrollmentReceipt, RegisterInput, Identity, Environment, enroll_node, joined_node, find_receipt,
  find_enrollment, receipt_key,
}
use nodelume.Server.Register.Handler.{
  joined_app, enroll_new, finish, enroll, redeem, agent_register,
}

-- Every node stands under its own id.
abbrev pub IsKeyed : PersistedState → Type 0
IsKeyed s = (id : Bytes) (n : PersistNode) → find id s.nodes ≡ some n → n.id ≡ id

-- A receipt that has not expired, and names a node, is found.
find_receipt_lem :
    {F : Type 0} (key : Bytes) (t : ℕ) (a : App F) (rec : EnrollmentReceipt) (n : PersistNode)
    → is_empty key ≡ false
    → find key a.state.enrollment_receipts ≡ some rec
    → t < rec.expires_at
    → find rec.node_id a.state.nodes ≡ some n
    → find_receipt key t a
      ≡ some (record {
        node_id = rec.node_id;
        node_name = n.name;
        secret = rec.secret;
        report_interval_sec = n.report_interval_sec;
      })
unfolding find_receipt
find_receipt_lem key t a rec n keyed held soon there =
    let early = lt→ltb t rec.expires_at soon in rw (keyed, held, early, there)

module _ (hash : Bytes → Bytes) {F : Type 0} (blank : MetricPoint F) where
  module _ (input : RegisterInput) (env : Environment) (th rkey : Bytes) (e : Enrollment) where
    abbrev identity : PersistNode → Identity
    identity old =
        let n = enroll_node hash input env old in
        record {
          node_id = n.id;
          node_name = n.name;
          secret = env.fresh_secret;
          report_interval_sec = n.report_interval_sec;
        }

    finish-identity :
        (key : Bytes) (old : PersistNode) (a : App F) (status : ℕ) (x : Identity)
        → (finish hash blank input env th rkey e key old a).1 ≡ Reply.ok status x
        → x ≡ identity old
    unfolding finish
    finish-identity key old a status x h = elim (Bool-cases env.saved) [
      | inl saved ↦ cc (rw (saved, finish) at h)
      | inr lost ↦ absurd (cc (rw (lost, finish) at h))
    ]

    -- The receipt and the node that it names give the identity again.
    find_receipt-finish :
        (key : Bytes) (old : PersistNode) (a : App F) (t : ℕ)
        → is_empty rkey ≡ false
        → old.id ≡ key
        → t < unix (env.now + 600 * second)
        → find_receipt rkey t (finish hash blank input env th rkey e key old a).0
          ≡ some (identity old)
    unfolding enroll_node
    find_receipt-finish key old a t keyed own soon =
        let b = (finish hash blank input env th rkey e key old a).0 in
        let rec_held : find rkey b.state.enrollment_receipts
            ≡ some (receipt hash blank input env th rkey e old) =
          rw (
            receipts-finish hash blank input env th rkey e key old a,
            keyed,
            find-insert,
            str_eq_refl,
          ) in
        let node_held : find old.id b.state.nodes ≡ some (enroll_node hash input env old) =
          rw (
            nodes-finish hash blank input env th rkey e key old a,
            own,
            find-insert,
            str_eq_refl,
          ) in
        find_receipt_lem rkey t b _ _ keyed rec_held soon node_held

    -- So too after the choice of the node.
    find_receipt-enroll :
        (a : App F) (t status : ℕ) (x : Identity)
        → IsKeyed a.state
        → is_empty rkey ≡ false
        → t < unix (env.now + 600 * second)
        → (enroll hash blank input env th rkey e a).1 ≡ Reply.ok status x
        → find_receipt rkey t (enroll hash blank input env th rkey e a).0 ≡ some x
    unfolding enroll_new joined_node
    find_receipt-enroll a t status x own keyed soon h = elim (Bool-cases e.reusable) [
      | inl many ↦
          let way = enroll_reusable hash blank input env th rkey e a many in
          let new = joined_node input e env in
          let b = joined_app hash blank input env th e a in
          let same = finish-identity env.fresh_id new b status x (ap (λ w. w.1) (sym way) ∙ h) in
          rw (way, same) (find_receipt-finish env.fresh_id new b t keyed refl soon)
      | inr once ↦
          let way = enroll_one_time hash blank input env th rkey e a once in
          elim (Option-cases (find e.node_id a.state.nodes)) [
            | inl gone ↦ absurd (
                cc (
                  ap (λ w. w.1)
                    (sym (way ∙ enroll_named-none hash blank input env th rkey e a gone))
                  ∙ h))
            | inr (old, there) ↦
                let way' = way ∙ enroll_named-some hash blank input env th rkey e a old there in
                let same =
                  finish-identity e.node_id old a status x (ap (λ w. w.1) (sym way') ∙ h) in
                rw (way', same)
                  (find_receipt-finish e.node_id old a t keyed (own e.node_id old there) soon)
          ]
    ]

  find_receipt-redeem :
      (i : RegisterInput) (env : Environment) (token : Bytes) (a : App F) (t status : ℕ)
      (x : Identity)
      → IsKeyed a.state
      → is_empty (receipt_key hash i token) ≡ false
      → find_receipt (receipt_key hash i token) (unix env.now) a ≡ none
      → t < unix (env.now + 600 * second)
      → (redeem hash blank i env token a).1 ≡ Reply.ok status x
      → find_receipt (receipt_key hash i token) t (redeem hash blank i env token a).0 ≡ some x
  unfolding redeem
  find_receipt-redeem i env token a t status x own keyed no_receipt soon h =
      elim (Option-cases (find_enrollment (hash token) (unix env.now) a)) [
        | inl refused ↦ absurd (cc (rw (no_receipt, refused, redeem) at h))
        | inr (e, found) ↦
            rw (no_receipt, found, redeem)
              (find_receipt-enroll i env (hash token) (receipt_key hash i token) e a t status x own
                keyed soon (rw (no_receipt, found, redeem) at h))
      ]

  -- The request behind the rate limit, when it is sent again after the first was answered.
  redeem_again :
      (i : RegisterInput) (env : Environment) (token : Bytes) (a : App F) (x : Identity)
      → find_receipt (receipt_key hash i token) (unix env.now) a ≡ some x
      → redeem hash blank i env token a ≡ (a, Reply.ok 200 x)
  unfolding redeem
  redeem_again i env token a x held = rw (held, redeem)

  -- A registration with an enrollment id that had no receipt was answered with an identity, in a
  -- state whose nodes all stand under their own ids. If it is the next request that is served, less
  -- than ten minutes later, and the rate limit admits it, it is answered with the same node id,
  -- name, secret and interval, and changes nothing but the times that the rate limit counts.
  pub agent_register_retry :
      (i : RegisterInput) (env env' : Environment) (a : App F) (status : ℕ) (x : Identity)
      → IsKeyed a.state
      → is_empty (receipt_key hash i (trim_space i.token)) ≡ false
      → find_receipt (receipt_key hash i (trim_space i.token)) (unix env.now) a ≡ none
      → (agent_register hash blank (some i) env a).1 ≡ Reply.ok status x
      → unix env'.now < unix (env.now + 600 * second)
      → (allow_enrollment (unix env'.now) env'.ip (agent_register hash blank (some i) env a).0).1
        ≡ true
      → agent_register hash blank (some i) env' (agent_register hash blank (some i) env a).0 ≡ (
        (allow_enrollment (unix env'.now) env'.ip (agent_register hash blank (some i) env a).0).0,
        Reply.ok 200 x,
      )
  agent_register_retry i env env' a status x own keyed no_receipt ok soon passed =
      let token = trim_space i.token in
      let a1 = (allow_enrollment (unix env.now) env.ip a).0 in
      let b = (agent_register hash blank (some i) env a).0 in
      let b1 = (allow_enrollment (unix env'.now) env'.ip b).0 in
      let first = agent_register-redeem hash blank i env a status x ok in
      let own1 : IsKeyed a1.state =
        subst IsKeyed (sym (state-allow_enrollment (unix env.now) env.ip a)) own in
      let held =
        find_receipt-redeem i env token a1 (unix env'.now) status x own1 keyed
          (find_receipt-allow _ _ (unix env.now) env.ip a ∙ no_receipt) soon
          (ap (λ w. w.1) (sym first) ∙ ok) in
      let held' : find_receipt (receipt_key hash i token) (unix env'.now) b1 ≡ some x =
        find_receipt-allow _ _ (unix env'.now) env'.ip b
        ∙ ap (λ w. find_receipt (receipt_key hash i token) (unix env'.now) w.0) first
        ∙ held in
      agent_register_passed hash blank i env' b
        (agent_register_valid hash blank i env a status x ok) passed
      ∙ redeem_again i env' token b1 x held'
