-- ===== src/Server/Auth/Replay.antt =====
-- A request that was accepted is not accepted again for two minutes, whatever other requests are
-- served meanwhile, as long as the store of nonces does not fill up.
use nodelume.Prelude.{
  ℕ, ◌+◌, ◌≤◌, ◌<◌, ◌≡◌, ◌≢◌, ◌⊎◌, refl, ap, ◌∙◌, false, List, [], ◌∷◌, ◌++◌, some, arith, Bytes,
  is_empty, length, inl, inr,
}
use nodelume.Prelude.Int.{ℤ}
use nodelume.Prelude.Map.{find}
use nodelume.Text.{trim_space, parse_int, Parsed}
use nodelume.Server.State.{App, unix}
use nodelume.Server.Auth.{
  Request, AuthResult, max_nonces, nonce_life, auth_timed, check_nonce, auth_signed,
  auth_agent_detailed,
}
use nodelume.Server.Auth.Nonces.{find-check_nonce_other, length-check_nonce_grow}
use nodelume.Server.Auth.Accept.{auth_agent_detailed-Passes, auth_held}

-- Requests until a time.
abbrev pub AllBefore : ℕ → List (ℕ × Request) → Type 0
AllBefore end [] = Unit
AllBefore end ((now, _) ∷ rs) = (unix now ≤ end) × AllBefore end rs

module _ (sha256_hex : Bytes → Bytes) (hmac_hex : Bytes → Bytes → Bytes)
    (order : List (Bytes × ℕ) → List (Bytes × ℕ)) {F : Type 0} where
  abbrev auth : App F → ℕ → Request → App F × AuthResult
  auth = auth_agent_detailed sha256_hex hmac_hex order

  -- The state after some requests, each with its time.
  unfoldable pub serve : List (ℕ × Request) → App F → App F
  serve [] a = a
  serve ((now, r) ∷ rs) a = serve rs (auth a now r).0

  -- The store of nonces changes by `check_nonce`, if it changes.
  signed_nonces :
      (a : App F) (now : ℕ) (r : Request) (id ts nonce sig : Bytes)
      → ((auth_signed sha256_hex hmac_hex order a now r id ts nonce sig).0.nonces ≡ a.nonces)
        ⊎ ((auth_signed sha256_hex hmac_hex order a now r id ts nonce sig).0.nonces
            ≡ (check_nonce order id nonce now a.nonces).0)
  unfolding auth_signed
  signed_nonces a now r id ts nonce sig = ground arith

  timed_nonces :
      (a : App F) (now : ℕ) (r : Request) (id ts nonce sig : Bytes) (p : Parsed ℤ)
      → ((auth_timed sha256_hex hmac_hex order a now r id ts nonce sig p).0.nonces ≡ a.nonces)
        ⊎ ((auth_timed sha256_hex hmac_hex order a now r id ts nonce sig p).0.nonces
            ≡ (check_nonce order id nonce now a.nonces).0)
  unfolding auth_timed
  timed_nonces a now r id ts nonce sig (Parsed.ok t) =
      ground (arith, signed_nonces a now r id ts nonce sig)
  timed_nonces a now r id ts nonce sig _ = inl refl

  auth_nonces :
      (a : App F) (now : ℕ) (r : Request)
      → ((auth a now r).0.nonces ≡ a.nonces)
        ⊎ ((auth a now r).0.nonces
            ≡ (check_nonce order (trim_space r.node_id) (trim_space r.nonce) (unix now) a.nonces).0)
  unfolding auth_agent_detailed
  auth_nonces a now r = ground (
    arith,
    timed_nonces a (unix now) r (trim_space r.node_id) (trim_space r.timestamp) (trim_space r.nonce)
        (trim_space r.signature) (parse_int (trim_space r.timestamp)),
  )

  serve_held :
      (rs : List (ℕ × Request)) (a : App F) (key : Bytes) (t : ℕ)
      → find key a.nonces ≡ some t
      → AllBefore (t + nonce_life) rs
      → length a.nonces + length rs < max_nonces
      → find key (serve rs a).nonces ≡ some t
  unfolding serve
  serve_held [] a key t held before room = held
  serve_held ((now, r) ∷ rs) a key t held (soon, before) room =
      let id = trim_space r.node_id in
      let nonce = trim_space r.nonce in
      elim (auth_nonces a now r) [
        | inl same ↦
            serve_held rs (auth a now r).0 key t (ap (find key) same ∙ held) before
              (omega (arith, ap length same))
        | inr changed ↦
            serve_held rs (auth a now r).0 key t
              (ap (find key) changed
                ∙ find-check_nonce_other order id nonce key (unix now) a.nonces t held soon
                    (omega arith))
              before
              (omega (
                arith,
                ap length changed,
                length-check_nonce_grow order id nonce (unix now) a.nonces (omega arith),
              ))
      ]

  -- Once a request is accepted, no request of the same node with the same nonce is accepted for two
  -- minutes, whatever is served between the two, if the store has room for all of it.
  pub serve_replay :
      (a : App F) (now : ℕ) (r : Request) (id : Bytes) (rs : List (ℕ × Request)) (later : ℕ)
      (r' : Request) (id' : Bytes)
      → is_empty (trim_space r.node_id) ≡ false
      → (auth a now r).1 ≡ AuthResult.accepted id
      → AllBefore (unix now + nonce_life) rs
      → length a.nonces + 1 + length rs < max_nonces
      → trim_space r'.node_id ≡ trim_space r.node_id
      → trim_space r'.nonce ≡ trim_space r.nonce
      → unix later ≤ unix now + nonce_life
      → (auth (serve rs (auth a now r).0) later r').1 ≢ AuthResult.accepted id'
  serve_replay a now r id rs later r' id' named ok before room same_id same_nonce soon =
      let own = trim_space r.node_id in
      let nonce = trim_space r.nonce in
      let (_, _, _, p, e) =
        auth_agent_detailed-Passes sha256_hex hmac_hex order a now r id named ok in
      let same : (auth a now r).0.nonces ≡ (check_nonce order own nonce (unix now) a.nonces).0 =
        ap (λ w. w.0.nonces) e in
      let held = ap (find (own ++ b':' ∷ nonce)) same ∙ p.kept in
      let grown = length-check_nonce_grow order own nonce (unix now) a.nonces (omega arith) in
      let kept =
        serve_held rs (auth a now r).0 (own ++ b':' ∷ nonce) (unix now) held before
          (omega (arith, ap length same)) in
      auth_held sha256_hex hmac_hex order (serve rs (auth a now r).0) (unix now) later r' id'
        (ap is_empty same_id ∙ named) (rw (same_id, same_nonce) kept) soon
