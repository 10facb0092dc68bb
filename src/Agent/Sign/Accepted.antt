-- ===== src/Agent/Sign/Accepted.antt =====
-- agent/main.go and server/auth_v101.go together: a signed request at the server.
use nodelume.Prelude.{
  leb, ℕ, ◌^◌, ◌<◌, ◌≤◌, ◌≡◌, refl, ap, ◌∙◌, arith, Bool, true, false, not, ◌&&◌, ◌||◌, List, [],
  ◌∷◌, ◌++◌, Option, none, some, Bytes, str_eq, str_eq_refl, is_empty, length, take, suc, zero,
  if◌then◌else◌,
}
use nodelume.Prelude.Int.{pos}
use nodelume.Prelude.Map.{find}
use nodelume.Text.{trim_space, print_nat, parse_int, Parsed}
use nodelume.Text.Plain.{
  AllPlain, trim_space-plain, print_nat-plain, print_nat-full, parse_int-print_nat,
}
use nodelume.Server.State.{App, PersistNode, unix}
use nodelume.Server.Auth.{
  Request, AuthResult, AuthFailure, auth_bearer, is_skewed, limit_read, max_body, live_nonces,
  check_nonce, registered_node, signed_message, valid_secret, signature_accepted, is_signed,
  auth_signed, auth_timed, auth_agent_detailed,
}
use nodelume.Server.Auth.Nonces.{check_nonce_new}
use nodelume.Agent.Sign.{Config, sign_request}

take-all : (n : ℕ) (s : Bytes) → length s ≤ n → take n s ≡ s
take-all zero [] h = refl
take-all zero (c ∷ s) h = absurd (omega arith)
take-all (suc n) [] h = refl
take-all (suc n) (c ∷ s) h = ap (λ t. c ∷ t) (take-all n s (omega arith))

module _ (sha256_hex : Bytes → Bytes) (hmac_hex : Bytes → Bytes → Bytes)
    (order : List (Bytes × ℕ) → List (Bytes × ℕ)) {F : Type 0} where
  -- A config whose secret is that of its registered node, and texts that the headers carry unchanged.
  pub record CanSign (a : App F) (now seconds : ℕ) (c : Config) (nonce body : Bytes) (r : Request)
      : Type 0 where
    pub node : PersistNode
    pub found : find c.node_id a.state.nodes ≡ some node
    pub registered : node.registered ≡ true
    pub own_secret : node.agent_secret ≡ c.secret
    pub id_full : is_empty c.node_id ≡ false
    pub id_plain : AllPlain c.node_id
    pub secret_full : is_empty c.secret ≡ false
    pub nonce_full : is_empty nonce ≡ false
    pub nonce_plain : AllPlain nonce
    pub carried : r.body ≡ some body
    pub short : length body ≤ max_body
    pub in_range : seconds < 2 ^ 63
    pub on_time : is_skewed (unix now) (pos seconds) ≡ false
    pub nonce_new : find (c.node_id ++ b':' ∷ nonce) (live_nonces (unix now) a.nonces) ≡ none

  module _ (a : App F) (now seconds : ℕ) (c : Config) (nonce body : Bytes) (r : Request)
      (can : CanSign a now seconds c nonce body r)
      (digest_full : (k m : Bytes) → is_empty (hmac_hex k m) ≡ false)
      (digest_plain : (k m : Bytes) → AllPlain (hmac_hex k m)) where
    abbrev message : Bytes
    message = signed_message sha256_hex hmac_hex r (print_nat seconds) nonce body

    abbrev signed_request : Request
    signed_request = record r {
      node_id = c.node_id;
      timestamp = print_nat seconds;
      nonce = nonce;
      signature = hmac_hex c.secret message;
    }

    sign_request-signed : sign_request sha256_hex hmac_hex c seconds nonce body r ≡ signed_request
    unfolding sign_request signed_message
    sign_request-signed =
        ap (λ b. if b then r else signed_request)
          (ap (λ b. b || is_empty c.secret) can.id_full ∙ can.secret_full)

    whole_body : limit_read max_body body ≡ body
    unfolding limit_read
    whole_body = take-all max_body body can.short

    abbrev ts : Bytes
    ts = print_nat seconds

    abbrev sig : Bytes
    sig = hmac_hex c.secret message

    abbrev valid : Bytes → Bytes → Bool
    valid secret body' =
        valid_secret sha256_hex hmac_hex secret
          (signed_message sha256_hex hmac_hex signed_request ts nonce body') sig

    valid_own : valid c.secret body ≡ true
    unfolding valid_secret signed_message
    valid_own = ap (λ b. if b then false else str_eq sig sig) can.secret_full ∙ str_eq_refl sig

    valid_current : valid can.node.agent_secret (limit_read max_body body) ≡ true
    valid_current =
        ap (λ k. valid k (limit_read max_body body)) can.own_secret
        ∙ ap (valid c.secret) whole_body
        ∙ valid_own

    signature_good :
        is_signed sha256_hex hmac_hex can.node (unix now) signed_request ts nonce sig body ≡ true
    unfolding is_signed signature_accepted
    signature_good =
        ap
          (λ b.
            b
            || (not (is_empty can.node.previous_agent_secret)
                && leb (unix now) can.node.previous_secret_expires_at
                && valid can.node.previous_agent_secret (limit_read max_body body)))
          valid_current

    known_node : registered_node c.node_id a ≡ some can.node
    unfolding registered_node
    known_node =
        ap (λ o. elim o [ none ↦ none | some n ↦ if n.registered then some n else none ]) can.found
        ∙ ap (λ b. if b then some can.node else none) can.registered

    abbrev nonce_checked : App F × AuthResult
    nonce_checked =
        let (m, result) = check_nonce order c.node_id nonce (unix now) a.nonces in
        (record a { nonces = m }, result)

    abbrev with_body : PersistNode → Option Bytes → App F × AuthResult
    with_body n none = (a, AuthResult.failed AuthFailure.body_unreadable)
    with_body n (some b) =
        if is_signed sha256_hex hmac_hex n (unix now) signed_request ts nonce sig b
        then nonce_checked
        else (a, AuthResult.failed AuthFailure.auth_signature_invalid)

    abbrev with_node : Option PersistNode → App F × AuthResult
    with_node none = (a, AuthResult.failed AuthFailure.node_revoked)
    with_node (some n) = with_body n r.body

    auth_signed-with_node :
        auth_signed sha256_hex hmac_hex order a (unix now) signed_request c.node_id ts nonce sig
        ≡ with_node (registered_node c.node_id a)
    unfolding auth_signed
    auth_signed-with_node = refl

    auth_signed-accepted :
        (auth_signed sha256_hex hmac_hex order a (unix now) signed_request c.node_id ts nonce sig).1
        ≡ AuthResult.accepted c.node_id
    auth_signed-accepted =
        ap (λ w. w.1)
          (auth_signed-with_node
            ∙ ap with_node known_node
            ∙ ap (with_body can.node) can.carried
            ∙ ap
                (λ b.
                  if b
                  then nonce_checked
                  else (a, AuthResult.failed AuthFailure.auth_signature_invalid))
                signature_good)
        ∙ ap (λ w. w.1) (check_nonce_new order c.node_id nonce (unix now) a.nonces can.nonce_new)

    abbrev timed : Bytes → Bytes → Bytes → Bytes → App F × AuthResult
    timed id ts' nonce' sig' =
        if is_empty id
        then (a, auth_bearer sha256_hex hmac_hex a signed_request)
        else if is_empty ts' || is_empty nonce' || is_empty sig'
        then (a, AuthResult.failed AuthFailure.auth_invalid)
        else auth_timed sha256_hex hmac_hex order a (unix now) signed_request id ts' nonce' sig'
            (parse_int ts')

    detailed-timed :
        auth_agent_detailed sha256_hex hmac_hex order a now signed_request
        ≡ timed c.node_id ts nonce sig
    unfolding auth_agent_detailed
    detailed-timed =
        ap (λ t. timed t (trim_space ts) (trim_space nonce) (trim_space sig))
          (trim_space-plain c.node_id can.id_plain)
        ∙ ap (λ t. timed c.node_id t (trim_space nonce) (trim_space sig))
            (trim_space-plain ts (print_nat-plain seconds))
        ∙ ap (λ t. timed c.node_id ts t (trim_space sig)) (trim_space-plain nonce can.nonce_plain)
        ∙ ap (timed c.node_id ts nonce) (trim_space-plain sig (digest_plain c.secret message))

    auth_timed-on_time :
        auth_timed sha256_hex hmac_hex order a
          (unix now)
          signed_request
          c.node_id
          ts
          nonce
          sig
          (Parsed.ok (pos seconds))
        ≡ auth_signed sha256_hex hmac_hex order a (unix now) signed_request c.node_id ts nonce sig
    unfolding auth_timed
    auth_timed-on_time =
        ap
          (λ b.
            if b
            then (a, AuthResult.failed AuthFailure.clock_skew)
            else auth_signed sha256_hex hmac_hex order a (unix now) signed_request c.node_id ts
                nonce sig)
          can.on_time

    timed-signed :
        timed c.node_id ts nonce sig
        ≡ auth_signed sha256_hex hmac_hex order a (unix now) signed_request c.node_id ts nonce sig
    timed-signed =
        let parsed =
          ap
            (auth_timed sha256_hex hmac_hex order a (unix now) signed_request c.node_id ts nonce
              sig)
            (parse_int-print_nat seconds can.in_range) in
        rw (can.id_full, print_nat-full seconds, can.nonce_full, digest_full c.secret message)
          (parsed ∙ auth_timed-on_time)

    -- A request that the agent signs with the secret of its registered node is accepted, where its
    -- clock is on time, the nonce is new, the body has at most four MiB and the digests are printable
    -- texts.
    pub sign_request-accepted :
        (auth_agent_detailed sha256_hex hmac_hex order a now
          (sign_request sha256_hex hmac_hex c seconds nonce body r)).1
        ≡ AuthResult.accepted c.node_id
    sign_request-accepted =
        ap (λ q. (auth_agent_detailed sha256_hex hmac_hex order a now q).1) sign_request-signed
        ∙ ap (λ w. w.1) (detailed-timed ∙ timed-signed)
        ∙ auth_signed-accepted
