-- ===== src/Server/Register/Tokens.antt =====
-- A one-time token gives an identity once.
use nodelume.Server.Register.Finish.{
  enroll_reusable, enrollments-finish, enroll_one_time, enroll_named-none, enroll_named-some,
  find_receipt-blank, find_receipt-allow, find_enrollment-cases, state-allow_enrollment,
  enroll-one_time, agent_register-redeem,
}
use nodelume.Prelude.{
  ◌⊎◌, ◌∷◌, [], str_eq_iff, Bool-cases, str_eq, Option, Option-cases, List, ℕ, ◌≡◌, ◌≢◌, ap, ◌∙◌,
  sym, true, false, none, some, arith, Bytes, is_empty, inl, inr,
}
use nodelume.Prelude.Map.{find, find-insert, find-delete}
use nodelume.Text.{trim_space}
use nodelume.Ring.{MetricPoint}
use nodelume.Server.State.{App, Enrollment, Reply, unix}
use nodelume.Server.RateLimit.{allow_enrollment}
use nodelume.Server.Register.{
  joined_node, RegisterInput, Identity, Environment, find_receipt, find_enrollment, receipt_key,
}
use nodelume.Server.Register.Handler.{
  enroll_new, joined_app, register_input, enroll, redeem, agent_register,
}

module _ (hash : Bytes → Bytes) {F : Type 0} (blank : MetricPoint F) where
  -- With no receipt and no enrollment there is no identity.
  redeem_unknown :
      (i : RegisterInput) (env : Environment) (token : Bytes) (a : App F) (status : ℕ)
      (x : Identity)
      → find_receipt (receipt_key hash i token) (unix env.now) a ≡ none
      → find (hash token) a.state.enrollments ≡ none
      → (redeem hash blank i env token a).1 ≢ Reply.ok status x
  unfolding redeem find_enrollment
  redeem_unknown i env token a status x no_receipt gone = rw (no_receipt, gone, redeem) (λ h. cc)

  redeem-one_time :
      (i : RegisterInput) (env : Environment) (token : Bytes) (a : App F) (e : Enrollment)
      (status : ℕ) (x : Identity)
      → find_receipt (receipt_key hash i token) (unix env.now) a ≡ none
      → find (hash token) a.state.enrollments ≡ some e
      → e.reusable ≡ false
      → (redeem hash blank i env token a).1 ≡ Reply.ok status x
      → find (hash token) (redeem hash blank i env token a).0.state.enrollments ≡ none
  unfolding redeem
  redeem-one_time i env token a e status x no_receipt held once h =
      elim (find_enrollment-cases (hash token) (unix env.now) a) [
        | inl refused ↦ absurd (ground arith)
        | inr found ↦
            rw (no_receipt, found ∙ held, redeem)
              (enroll-one_time hash blank i env (hash token) (receipt_key hash i token) e a once)
      ]

  other_hash :
      (th th' : Bytes) (a : App F) (e : Enrollment)
      → find th a.state.enrollments ≡ none
      → find th' a.state.enrollments ≡ some e
      → str_eq th' th ≡ false
  other_hash th th' a e gone held = elim (Bool-cases (str_eq th' th)) [
    | inr other ↦ other
    | inl same ↦
        let own = ap (λ k. find k a.state.enrollments) ((str_eq_iff th' th).0 same) in
        absurd (cc (sym gone ∙ sym own ∙ held))
  ]

  -- A hash that no token has is not given to one by a registration.
  enroll-none :
      (i : RegisterInput) (env : Environment) (th th' rkey : Bytes) (e : Enrollment) (a : App F)
      → find th a.state.enrollments ≡ none
      → find th' a.state.enrollments ≡ some e
      → find th (enroll hash blank i env th' rkey e a).0.state.enrollments ≡ none
  unfolding enroll_new
  enroll-none i env th th' rkey e a gone held =
      let other = other_hash th th' a e gone held in
      elim (Bool-cases e.reusable) [
        | inl many ↦
            let b = joined_app hash blank i env th' e a in
            ap (λ w. find th w.0.state.enrollments)
              (enroll_reusable hash blank i env th' rkey e a many)
            ∙ ap (find th) (
                enrollments-finish hash blank i env th' rkey e env.fresh_id (joined_node i e env) b)
            ∙ rw many (rw (find-insert, other) gone)
        | inr once ↦ elim (Option-cases (find e.node_id a.state.nodes)) [
          | inl missing ↦
              rw
                (
                  enroll_one_time hash blank i env th' rkey e a once,
                  enroll_named-none hash blank i env th' rkey e a missing,
                  find-delete,
                  other,
                )
                gone
          | inr (old, there) ↦
              rw
                (
                  enroll_one_time hash blank i env th' rkey e a once,
                  enroll_named-some hash blank i env th' rkey e a old there,
                  enrollments-finish hash blank i env th' rkey e e.node_id old a,
                  once,
                  find-delete,
                  other,
                )
                gone
        ]
      ]

  redeem-none :
      (i : RegisterInput) (env : Environment) (token th : Bytes) (a : App F)
      → find th a.state.enrollments ≡ none
      → find th (redeem hash blank i env token a).0.state.enrollments ≡ none
  unfolding redeem
  redeem-none i env token th a gone =
      let rkey = receipt_key hash i token in
      elim (Option-cases (find_receipt rkey (unix env.now) a)) [
        | inr (x, again) ↦ rw (again, redeem) gone
        | inl no_receipt ↦ elim (Option-cases (find_enrollment (hash token) (unix env.now) a)) [
          | inl refused ↦ rw (no_receipt, refused, redeem) gone
          | inr (e, found) ↦ elim (find_enrollment-cases (hash token) (unix env.now) a) [
            | inl refused ↦ absurd (cc (sym refused ∙ found))
            | inr same ↦
                rw (no_receipt, found, redeem)
                  (enroll-none i env th (hash token) rkey e a gone (sym same ∙ found))
          ]
        ]
      ]

  register_input-cases :
      (i : RegisterInput) (env : Environment) (a : App F)
      → ((register_input hash blank i env a).0 ≡ a)
        ⊎ (register_input hash blank i env a ≡ redeem hash blank i env (trim_space i.token) a)
  unfolding register_input
  register_input-cases i env a = ground arith

  register_input-none :
      (i : RegisterInput) (env : Environment) (th : Bytes) (a : App F)
      → find th a.state.enrollments ≡ none
      → find th (register_input hash blank i env a).0.state.enrollments ≡ none
  register_input-none i env th a gone = elim (register_input-cases i env a) [
    | inl same ↦ ap (λ b. find th b.state.enrollments) same ∙ gone
    | inr way ↦
        ap (λ w. find th w.0.state.enrollments) way
        ∙ redeem-none i env (trim_space i.token) th a gone
  ]

  agent_register-none :
      (input : Option RegisterInput) (env : Environment) (th : Bytes) (a : App F)
      → find th a.state.enrollments ≡ none
      → find th (agent_register hash blank input env a).0.state.enrollments ≡ none
  unfolding agent_register
  agent_register-none input env th a gone =
      let a1 = (allow_enrollment (unix env.now) env.ip a).0 in
      let gone1 : find th a1.state.enrollments ≡ none =
        ap (λ s. find th s.enrollments) (state-allow_enrollment (unix env.now) env.ip a) ∙ gone in
      elim (Bool-cases (allow_enrollment (unix env.now) env.ip a).1) [
        | inr refused ↦ rw refused gone1
        | inl passed ↦ elim (Option-cases input) [
          | inl unread ↦ rw (passed, unread) gone1
          | inr (i, decoded) ↦ rw (passed, decoded) (register_input-none i env th a1 gone1)
        ]
      ]

  -- Registrations one after the other.
  pub serve_registrations : List (Option RegisterInput × Environment) → App F → App F
  serve_registrations [] a = a
  serve_registrations ((input, env) ∷ rest) a =
      serve_registrations rest (agent_register hash blank input env a).0

  serve_registrations-none :
      (rs : List (Option RegisterInput × Environment)) (th : Bytes) (a : App F)
      → find th a.state.enrollments ≡ none
      → find th (serve_registrations rs a).state.enrollments ≡ none
  unfolding serve_registrations
  serve_registrations-none [] th a gone = gone
  serve_registrations-none ((input, env) ∷ rest) th a gone =
      serve_registrations-none rest th _ (agent_register-none input env th a gone)

  -- A one-time token that had no receipt gave an identity. Whatever registrations are served after
  -- that, with any tokens, a request with the token and without an enrollment id is not given one.
  pub agent_register_once :
      (i j : RegisterInput) (env env' : Environment) (a : App F) (e : Enrollment)
      (status status' : ℕ) (x y : Identity) (rs : List (Option RegisterInput × Environment))
      → find_receipt (receipt_key hash i (trim_space i.token)) (unix env.now) a ≡ none
      → find (hash (trim_space i.token)) a.state.enrollments ≡ some e
      → e.reusable ≡ false
      → (agent_register hash blank (some i) env a).1 ≡ Reply.ok status x
      → trim_space j.token ≡ trim_space i.token
      → is_empty (trim_space j.enrollment_id) ≡ true
      → (agent_register hash blank
          (some j)
          env'
          (serve_registrations rs (agent_register hash blank (some i) env a).0)).1
        ≢ Reply.ok status' y
  agent_register_once i j env env' a e status status' x y rs no_receipt held once ok same blank_id
        ok' =
      let token = trim_space i.token in
      let a1 = (allow_enrollment (unix env.now) env.ip a).0 in
      let first = agent_register-redeem hash blank i env a status x ok in
      let b = (agent_register hash blank (some i) env a).0 in
      let no_receipt1 = find_receipt-allow _ (unix env.now) (unix env.now) env.ip a ∙ no_receipt in
      let held1 : find (hash token) a1.state.enrollments ≡ some e =
        ap (λ s. find (hash token) s.enrollments) (state-allow_enrollment (unix env.now) env.ip a)
        ∙ held in
      let gone : find (hash token) b.state.enrollments ≡ none =
        ap (λ w. find (hash token) w.0.state.enrollments) first
        ∙ redeem-one_time i env token a1 e status x no_receipt1 held1 once
            (ap (λ w. w.1) (sym first) ∙ ok) in
      let d = serve_registrations rs b in
      let d1 = (allow_enrollment (unix env'.now) env'.ip d).0 in
      let second = agent_register-redeem hash blank j env' d status' y ok' in
      redeem_unknown j env' (trim_space j.token) d1 status' y
        (find_receipt-blank hash j (trim_space j.token) (unix env'.now) d1 blank_id)
        (ap (λ t. find (hash t) d1.state.enrollments) same
          ∙ ap (λ s. find (hash token) s.enrollments)
              (state-allow_enrollment (unix env'.now) env'.ip d)
          ∙ serve_registrations-none rs (hash token) b gone)
        (ap (λ w. w.1) (sym second) ∙ ok')
