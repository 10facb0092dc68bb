-- ===== src/Server/Nodes/Tokens.antt =====
-- Which tokens are left: of a node, and of those that any agent may use.
use nodelume.Prelude.{
  ℕ, ◌≡◌, refl, ap, ◌∙◌, sym, arith, Bool, true, false, List, some, Bytes, str_eq, str_eq_iff,
  Bool-cases, Option-cases, inl, inr,
}
use nodelume.Prelude.Map.{find, insert, delete_where, find-insert, find-delete_where, purged}
use nodelume.Server.State.{App, PersistNode, Enrollment, Reply, audit_locked}
use nodelume.Server.Nodes.{
  Context, names_node, without_tokens, one_time_enrollment, renew_token, reenroll_node,
}
use nodelume.Server.Nodes.Common.{
  CommonInput, is_reusable, without_common, renew_common, set_common_enrollment,
  revoke_common_enrollment, term_of,
}

-- What the loop leaves does not pass the test.
pub delete_where-stays :
    (p : Bytes → Enrollment → Bool) (m : List (Bytes × Enrollment)) (k : Bytes) (e : Enrollment)
    → find k (delete_where p m) ≡ some e
    → p k e ≡ false
delete_where-stays p m k e h =
    let h' : purged p k (find k m) ≡ some e = sym (find-delete_where p k m) ∙ h in
    elim (Option-cases (find k m)) [
      | inl gone ↦ absurd (cc (rw gone at h'))
      | inr (e', held) ↦ ground arith
    ]

module _ (hash : Bytes → Bytes) {F : Type 0} where
  enrollments-renew_token :
      (id : Bytes) (n : PersistNode) (c : Context) (a : App F)
      → (renew_token hash id n c a).state.enrollments
        ≡ insert
            (hash c.fresh_token)
            (one_time_enrollment id c.now)
            (without_tokens id a.state.enrollments)
  unfolding renew_token audit_locked
  enrollments-renew_token id n c a = refl

  reenroll_node-renew :
      (valid : Bool) (id : Bytes) (c : Context) (a : App F) (status : ℕ) (token : Bytes)
      → (reenroll_node hash valid id c a).1 ≡ Reply.ok status token
      → (n : PersistNode) × (find id a.state.nodes ≡ some n)
        × ((reenroll_node hash valid id c a).0 ≡ renew_token hash id n c a)
        × (token ≡ c.fresh_token)
  unfolding reenroll_node
  reenroll_node-renew valid id c a status token h = elim (Option-cases (find id a.state.nodes)) [
    | inl gone ↦ absurd (ground arith)
    | inr (n, there) ↦ (n, there, ground arith, ground arith)
  ]

  -- After a node was given a new token, no other token names it.
  pub reenroll_node-only :
      (valid : Bool) (id : Bytes) (c : Context) (a : App F) (status : ℕ) (token th : Bytes)
      (e : Enrollment)
      → (reenroll_node hash valid id c a).1 ≡ Reply.ok status token
      → find th (reenroll_node hash valid id c a).0.state.enrollments ≡ some e
      → e.node_id ≡ id
      → th ≡ hash token
  unfolding without_tokens
  reenroll_node-only valid id c a status token th e h held names =
      let (n, there, same, fresh) = reenroll_node-renew valid id c a status token h in
      let all =
        ap (λ b. find th b.state.enrollments) same
        ∙ ap (find th) (enrollments-renew_token id n c a) in
      let old = delete_where-stays (names_node id) a.state.enrollments th e in
      let split =
        find-insert th (hash c.fresh_token) (one_time_enrollment id c.now)
          (without_tokens id a.state.enrollments) in
      elim (Bool-cases (str_eq (hash c.fresh_token) th)) [
        | inl own ↦ sym ((str_eq_iff (hash c.fresh_token) th).0 own) ∙ ap hash (sym fresh)
        | inr other ↦
            let rest = rw other at split in
            absurd (ground (arith, str_eq_iff e.node_id id, old (sym rest ∙ sym all ∙ held)))
      ]

  -- The old credential of the node stays: only the tokens and the audit trail change.
  pub reenroll_node-nodes :
      (valid : Bool) (id : Bytes) (c : Context) (a : App F)
      → (reenroll_node hash valid id c a).0.state.nodes ≡ a.state.nodes
  unfolding reenroll_node renew_token audit_locked
  reenroll_node-nodes valid id c a = ground arith

  enrollments-renew_common :
      (days : ℕ) (name : Bytes) (c : Context) (a : App F)
      → (e : Enrollment) × ((renew_common hash days name c a).state.enrollments
          ≡ insert (hash c.fresh_token) e (without_common a.state.enrollments))
  unfolding renew_common audit_locked
  enrollments-renew_common days name c a = (_, refl)

  set_common-renew :
      (valid : Bool) (input : CommonInput) (c : Context) (a : App F) (status : ℕ) (x : Bytes × ℕ)
      → (set_common_enrollment hash valid (some input) c a).1 ≡ Reply.ok status x
      → (days : ℕ) × ((set_common_enrollment hash valid (some input) c a).0
          ≡ renew_common hash days input.name c a)
        × (x.0 ≡ c.fresh_token)
  unfolding set_common_enrollment
  set_common-renew valid input c a status x h = elim (Option-cases (term_of input.days)) [
    | inl bad ↦ absurd (ground arith)
    | inr (days, good) ↦ (days, ground arith, ground arith)
  ]

  -- After a reusable token was made, no other token is reusable.
  pub set_common_enrollment-only :
      (valid : Bool) (input : CommonInput) (c : Context) (a : App F) (status : ℕ) (x : Bytes × ℕ)
      (th : Bytes) (e : Enrollment)
      → (set_common_enrollment hash valid (some input) c a).1 ≡ Reply.ok status x
      → find th (set_common_enrollment hash valid (some input) c a).0.state.enrollments ≡ some e
      → e.reusable ≡ true
      → th ≡ hash x.0
  unfolding without_common
  set_common_enrollment-only valid input c a status x th e h held many =
      let (days, same, fresh) = set_common-renew valid input c a status x h in
      let (new, left) = enrollments-renew_common days input.name c a in
      let all = ap (λ b. find th b.state.enrollments) same ∙ ap (find th) left in
      let old = delete_where-stays is_reusable a.state.enrollments th e in
      let split = find-insert th (hash c.fresh_token) new (without_common a.state.enrollments) in
      elim (Bool-cases (str_eq (hash c.fresh_token) th)) [
        | inl own ↦ sym ((str_eq_iff (hash c.fresh_token) th).0 own) ∙ ap hash (sym fresh)
        | inr other ↦
            let rest = rw other at split in absurd (ground (arith, old (sym rest ∙ sym all ∙ held)))
      ]

-- After the reusable token was revoked, no token is reusable.
pub revoke_common_enrollment-none :
    {F : Type 0} (c : Context) (a : App F) (th : Bytes) (e : Enrollment)
    → find th (revoke_common_enrollment c a).0.state.enrollments ≡ some e
    → e.reusable ≡ false
unfolding revoke_common_enrollment audit_locked without_common
revoke_common_enrollment-none c a th e held =
    delete_where-stays is_reusable a.state.enrollments th e held
