-- ===== src/Server/Auth.antt =====
-- server/auth_v101.go, `authAgentDetailed`: an agent signs each request with its secret, and a nonce
-- that was seen is refused. The hex digests of SHA-256 and HMAC-SHA256 are parameters, and so is the
-- order in which Go ranges over the map of nonces.
pub mod Nonces
pub mod Accept
pub mod Replay
pub mod Skew
use nodelume.Prelude.{
  ℕ, zero, suc, ◌+◌, Bool, true, false, not, ◌&&◌, ◌||◌, List, [], ◌∷◌, ◌++◌, Option, none, some,
  Bytes, text, str_eq, is_empty, length, ltb, leb, ◌==◌, if◌then◌else◌, take,
}
use nodelume.Prelude.Int.{ℤ, pos, negsuc, ◌-ℤ◌, ltb_ℤ}
use nodelume.Prelude.Word.{wrap64}
use nodelume.Prelude.Map.{find, insert, delete_where}
use nodelume.Text.{trim_space, trim_prefix, cut_byte, Parsed, parse_int}
use nodelume.Server.State.{App, PersistNode, unix}

-- What the handler reads of a request. A body that cannot be read is `none`.
pub record Request : Type 0 where
  pub method : Bytes
  pub request_uri : Bytes
  pub node_id : Bytes
  pub timestamp : Bytes
  pub nonce : Bytes
  pub signature : Bytes
  pub authorization : Bytes
  pub body : Option Bytes

-- `agentAuthFailure`, by its code; the status is 401 but where another is said.
pub data AuthFailure : Type 0 where
  auth_invalid : AuthFailure
  body_unreadable : AuthFailure
  clock_skew : AuthFailure
  node_revoked : AuthFailure
  auth_signature_invalid : AuthFailure
  replay_detected : AuthFailure
  auth_required : AuthFailure

pub data AuthResult : Type 0 where
  accepted : Bytes → AuthResult
  failed : AuthFailure → AuthResult

abbrev pub status_of : AuthFailure → ℕ
status_of AuthFailure.body_unreadable = 400
status_of AuthFailure.replay_detected = 409
status_of _ = 401

-- `io.ReadAll(io.LimitReader(body, n))`
unfoldable pub limit_read : ℕ → Bytes → Bytes
limit_read n body = take n body

-- `abs64`: the negation wraps round at the least `int64`.
unfoldable pub abs64 : ℤ → ℤ
abs64 v = if ltb_ℤ v (pos 0) then wrap64 (pos 0 -ℤ v) else v

-- `abs64(now - ts) > 60`
unfoldable pub is_skewed : ℕ → ℤ → Bool
unfolding abs64
is_skewed now ts = ltb_ℤ (pos 60) (abs64 (wrap64 (pos now -ℤ ts)))

abbrev pub max_body : ℕ
max_body = 4_194_304

abbrev pub nonce_life : ℕ
nonce_life = 120

abbrev pub max_nonces : ℕ
max_nonces = 4096

abbrev pub trim_count : ℕ
trim_count = 2048

-- The loop that deletes entries as it ranges, until it has deleted enough.
unfoldable pub evict : ℕ → List (Bytes × ℕ) → List (Bytes × ℕ)
evict trimmed [] = []
evict trimmed (_ ∷ m) =
    let rest = evict (trimmed + 1) m in if leb trim_count (trimmed + 1) then m else rest

-- The nonces after the expired ones are deleted.
abbrev pub is_expired : ℕ → Bytes → ℕ → Bool
is_expired now _ v = ltb (v + nonce_life) now

unfoldable pub live_nonces : ℕ → List (Bytes × ℕ) → List (Bytes × ℕ)
live_nonces now m = delete_where (is_expired now) m

module _ (order : List (Bytes × ℕ) → List (Bytes × ℕ)) where
  -- Keep the nonce, in a store of at most `max_nonces`.
  unfoldable pub keep_nonce : Bytes → ℕ → List (Bytes × ℕ) → List (Bytes × ℕ)
  unfolding evict
  keep_nonce key now m = insert key now (if leb max_nonces (length m) then evict 0 (order m) else m)

  -- The part under `noncesMu`.
  unfoldable pub check_nonce : Bytes → Bytes → ℕ → List (Bytes × ℕ) → List (Bytes × ℕ) × AuthResult
  check_nonce id nonce now m =
      let key = id ++ b':' ∷ nonce in
      let live = live_nonces now m in
      elim (find key live) [
        | some _ ↦ (live, AuthResult.failed AuthFailure.replay_detected)
        | none ↦ (keep_nonce key now live, AuthResult.accepted id)
      ]

-- The node of an id, if it is registered.
unfoldable pub registered_node : {F : Type 0} → Bytes → App F → Option PersistNode
registered_node id a = elim (find id a.state.nodes) [
  | none ↦ none
  | some n ↦ if n.registered then some n else none
]

module _ (sha256_hex : Bytes → Bytes) (hmac_hex : Bytes → Bytes → Bytes) where
  -- The signed text: method, URI, time, nonce and the digest of the body, a line each.
  unfoldable pub signed_message : Request → Bytes → Bytes → Bytes → Bytes
  signed_message r ts nonce body =
      r.method ++ 10 ∷ (r.request_uri ++ 10 ∷ (ts ++ 10 ∷ (nonce ++ 10 ∷ sha256_hex body)))

  -- The closure `valid`.
  unfoldable pub valid_secret : Bytes → Bytes → Bytes → Bool
  valid_secret secret message sig =
      if is_empty secret then false else str_eq (hmac_hex secret message) sig

  -- The secret in use, or the one before it until that expires.
  unfoldable pub signature_accepted : PersistNode → ℕ → Bytes → Bytes → Bool
  unfolding valid_secret
  signature_accepted n now message sig =
      valid_secret n.agent_secret message sig
      || (not (is_empty n.previous_agent_secret)
          && leb now n.previous_secret_expires_at
          && valid_secret n.previous_agent_secret message sig)

  -- Bearer credentials of version 1.0.0, `<id>.<secret>`.
  unfoldable pub auth_bearer : {F : Type 0} → App F → Request → AuthResult
  auth_bearer a r =
      let v = trim_space (trim_prefix r.authorization (text "Bearer ")) in
      elim (cut_byte b'.' v) [
        | none ↦ AuthResult.failed AuthFailure.auth_required
        | some (id, secret) ↦
            if is_empty id
            then AuthResult.failed AuthFailure.auth_required
            else elim (registered_node id a) [
              | none ↦ AuthResult.failed AuthFailure.node_revoked
              | some n ↦
                  if is_empty n.secret_hash || not (str_eq (sha256_hex secret) n.secret_hash)
                  then AuthResult.failed AuthFailure.auth_signature_invalid
                  else AuthResult.accepted id
            ]
      ]

  -- The signature over the request, of whose body the first `max_body` bytes are read.
  unfoldable pub is_signed : PersistNode → ℕ → Request → Bytes → Bytes → Bytes → Bytes → Bool
  is_signed n now r ts nonce sig body =
      signature_accepted n now (signed_message r ts nonce (limit_read max_body body)) sig

  module _ (order : List (Bytes × ℕ) → List (Bytes × ℕ)) where
    -- The checks behind the timestamp; `now` is in seconds.
    unfoldable pub auth_signed :
        {F : Type 0} → App F → ℕ → Request → Bytes → Bytes → Bytes → Bytes → App F × AuthResult
    auth_signed a now r id ts nonce sig = elim (registered_node id a) [
      | none ↦ (a, AuthResult.failed AuthFailure.node_revoked)
      | some n ↦ elim r.body [
        | none ↦ (a, AuthResult.failed AuthFailure.body_unreadable)
        | some body ↦
            if is_signed n now r ts nonce sig body
            then (let (m, result) = check_nonce order id nonce now a.nonces in
                (record a { nonces = m }, result))
            else (a, AuthResult.failed AuthFailure.auth_signature_invalid)
      ]
    ]

    -- The check of the parsed timestamp.
    unfoldable pub auth_timed :
        {F : Type 0}
        → App F
        → ℕ
        → Request
        → Bytes
        → Bytes
        → Bytes
        → Bytes
        → Parsed ℤ
        → App F × AuthResult
    auth_timed a now r id ts nonce sig Parsed.syntax_error =
        (a, AuthResult.failed AuthFailure.auth_invalid)
    auth_timed a now r id ts nonce sig (Parsed.range_error _) =
        (a, AuthResult.failed AuthFailure.auth_invalid)
    auth_timed a now r id ts nonce sig (Parsed.ok t) =
        if is_skewed now t
        then (a, AuthResult.failed AuthFailure.clock_skew)
        else auth_signed a now r id ts nonce sig

    -- `now` is in nanoseconds.
    unfoldable pub auth_agent_detailed : {F : Type 0} → App F → ℕ → Request → App F × AuthResult
    auth_agent_detailed a now r =
        let id = trim_space r.node_id in
        let ts = trim_space r.timestamp in
        let nonce = trim_space r.nonce in
        let sig = trim_space r.signature in
        if is_empty id
        then (a, auth_bearer a r)
        else if is_empty ts || is_empty nonce || is_empty sig
        then (a, AuthResult.failed AuthFailure.auth_invalid)
        else auth_timed a (unix now) r id ts nonce sig (parse_int ts)
