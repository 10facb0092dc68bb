-- ===== src/Server/Auth/Accept.antt =====
-- Which requests `authAgentDetailed` accepts, and what it leaves behind.
use nodelume.Prelude.{
  ℕ, ◌+◌, ◌≤◌, ◌≡◌, ◌≢◌, refl, ap, ◌∙◌, sym, true, false, ◌||◌, List, ◌∷◌, ◌++◌, some, arith, Bytes,
  is_empty, Bool-cases, Option-cases, inl, inr,
}
use nodelume.Prelude.Int.{ℤ}
use nodelume.Prelude.Map.{find}
use nodelume.Text.{trim_space, parse_int, Parsed}
use nodelume.Server.State.{App, PersistNode, unix}
use nodelume.Server.Auth.{
  Request, AuthResult, nonce_life, is_skewed, auth_timed, is_signed, check_nonce, registered_node,
  auth_signed, auth_agent_detailed,
}
use nodelume.Server.Auth.Nonces.{
  find-check_nonce, IsFree-not_held, IsFree, check_nonce-IsFree, check_nonce-accepted,
}

module _ (sha256_hex : Bytes → Bytes) (hmac_hex : Bytes → Bytes → Bytes)
    (order : List (Bytes × ℕ) → List (Bytes × ℕ)) {F : Type 0} where
  -- What holds of a signed request that passes: the node is registered, the body can be read, the
  -- signature is that of a secret of the node, the nonce was not held for the node or has expired, and
  -- it is held from then on.
  pub record Passes (a : App F) (now : ℕ) (r : Request) (id ts nonce sig : Bytes) : Type 0 where
    pub node : PersistNode
    pub body : Bytes
    pub found : find id a.state.nodes ≡ some node
    pub registered : node.registered ≡ true
    pub readable : r.body ≡ some body
    pub signed : is_signed sha256_hex hmac_hex node now r ts nonce sig body ≡ true
    pub free : IsFree now (id ++ b':' ∷ nonce) a.nonces
    pub kept : find (id ++ b':' ∷ nonce) (check_nonce order id nonce now a.nonces).0 ≡ some now

  registered_node-some :
      (id : Bytes) (a : App F) (n : PersistNode)
      → registered_node id a ≡ some n
      → (find id a.state.nodes ≡ some n) × (n.registered ≡ true)
  unfolding registered_node
  registered_node-some id a n h = ground arith

  auth_signed_lem :
      (a : App F) (now : ℕ) (r : Request) (id ts nonce sig : Bytes) {n : PersistNode} {body : Bytes}
      → registered_node id a ≡ some n
      → r.body ≡ some body
      → is_signed sha256_hex hmac_hex n now r ts nonce sig body ≡ true
      → auth_signed sha256_hex hmac_hex order a now r id ts nonce sig ≡ (
        record a { nonces = (check_nonce order id nonce now a.nonces).0 },
        (check_nonce order id nonce now a.nonces).1,
      )
  unfolding auth_signed
  auth_signed_lem a now r id ts nonce sig e f g = rw (e, f, g, auth_signed)

  -- The state behind a request that passes.
  abbrev after : App F → ℕ → Bytes → Bytes → App F
  after a now id nonce = record a { nonces = (check_nonce order id nonce now a.nonces).0 }

  auth_signed-Passes :
      (a : App F) (now : ℕ) (r : Request) (id ts nonce sig id' : Bytes)
      → (auth_signed sha256_hex hmac_hex order a now r id ts nonce sig).1 ≡ AuthResult.accepted id'
      → Passes a now r id ts nonce sig
        × (auth_signed sha256_hex hmac_hex order a now r id ts nonce sig
            ≡ (after a now id nonce, AuthResult.accepted id))
  unfolding auth_signed
  auth_signed-Passes a now r id ts nonce sig id' h = elim (Option-cases (registered_node id a)) [
    | inl gone ↦ absurd (ground arith)
    | inr (n, e) ↦ elim (Option-cases r.body) [
      | inl unread ↦ absurd (ground arith)
      | inr (body, f) ↦
          elim (Bool-cases (is_signed sha256_hex hmac_hex n now r ts nonce sig body)) [
            | inr bad ↦ absurd (ground arith)
            | inl good ↦
                let reply = auth_signed_lem a now r id ts nonce sig e f good in
                let new =
                  check_nonce-accepted order id nonce now a.nonces id'
                    (ap (λ w. w.1) (sym reply) ∙ h) in
                (
                  record {
                    node = n;
                    body = body;
                    found = (registered_node-some id a n e).0;
                    registered = (registered_node-some id a n e).1;
                    readable = f;
                    signed = good;
                    free = check_nonce-IsFree order id nonce now a.nonces id new;
                    kept = find-check_nonce order id nonce now a.nonces id new;
                  },
                  reply ∙ (λ i. (after a now id nonce, new i)),
                )
          ]
    ]
  ]

  auth_timed-Passes :
      (a : App F) (now : ℕ) (r : Request) (id ts nonce sig id' : Bytes) (p : Parsed ℤ)
      → (auth_timed sha256_hex hmac_hex order a now r id ts nonce sig p).1 ≡ AuthResult.accepted id'
      → (t : ℤ) × (p ≡ Parsed.ok t)
        × (is_skewed now t ≡ false)
        × Passes a now r id ts nonce sig
        × (auth_timed sha256_hex hmac_hex order a now r id ts nonce sig p
            ≡ (after a now id nonce, AuthResult.accepted id))
  unfolding auth_timed
  auth_timed-Passes a now r id ts nonce sig id' Parsed.syntax_error h = absurd (cc)
  auth_timed-Passes a now r id ts nonce sig id' (Parsed.range_error _) h = absurd (cc)
  auth_timed-Passes a now r id ts nonce sig id' (Parsed.ok t) h =
      elim (Bool-cases (is_skewed now t)) [
        | inl skew ↦ absurd (ground arith)
        | inr near ↦
            let (p, e) = auth_signed-Passes a now r id ts nonce sig id' (rw near at h) in
            (t, refl, near, p, rw near e)
      ]

  abbrev auth : App F → ℕ → Request → App F × AuthResult
  auth = auth_agent_detailed sha256_hex hmac_hex order

  -- A request that carries a node id and is accepted has the id of a registered node, a time that
  -- passes the skew test, a signature by a secret of the node over the body that was read, and a
  -- nonce that was not held for the node, or was and has expired. The nonce is held from then on, at
  -- the time of the request, and of the state only the nonces change.
  pub auth_agent_detailed-Passes :
      (a : App F) (now : ℕ) (r : Request) (id : Bytes)
      → is_empty (trim_space r.node_id) ≡ false
      → (auth a now r).1 ≡ AuthResult.accepted id
      → (t : ℤ) × (parse_int (trim_space r.timestamp) ≡ Parsed.ok t)
        × (is_skewed (unix now) t ≡ false)
        × Passes a
            (unix now)
            r
            (trim_space r.node_id)
            (trim_space r.timestamp)
            (trim_space r.nonce)
            (trim_space r.signature)
        × (auth a now r ≡ (
          after a (unix now) (trim_space r.node_id) (trim_space r.nonce),
          AuthResult.accepted (trim_space r.node_id),
        ))
  unfolding auth_agent_detailed
  auth_agent_detailed-Passes a now r id named h =
      let ts = trim_space r.timestamp in
      let nonce = trim_space r.nonce in
      let sig = trim_space r.signature in
      elim (Bool-cases (is_empty ts || is_empty nonce || is_empty sig)) [
        | inl incomplete ↦ absurd (ground arith)
        | inr complete ↦
            let timed =
              auth_timed-Passes a (unix now) r (trim_space r.node_id) ts nonce sig id (parse_int ts)
                (rw (named, complete) at h) in
            rw (named, complete) timed
      ]

  -- A nonce that is held is refused.
  pub auth_held :
      (a : App F) (t now : ℕ) (r : Request) (id : Bytes)
      → is_empty (trim_space r.node_id) ≡ false
      → find (trim_space r.node_id ++ b':' ∷ trim_space r.nonce) a.nonces ≡ some t
      → unix now ≤ t + nonce_life
      → (auth a now r).1 ≢ AuthResult.accepted id
  auth_held a t now r id named held soon ok =
      let (_, _, _, p, _) = auth_agent_detailed-Passes a now r id named ok in
      IsFree-not_held (unix now) (trim_space r.node_id ++ b':' ∷ trim_space r.nonce) a.nonces t
        p.free held soon
