-- ===== src/Server/Auth/Nonces.antt =====
-- The store of nonces: it is bounded, and a nonce that it holds is refused.

use nodelume.Prelude.{
  ◌∙◌, ◌⊎◌, sym, ℕ, ◌+◌, ◌≤◌, ◌<◌, ◌≡◌, ap, Bool, false, List, [], ◌∷◌, ◌++◌, none, some, arith,
  Bytes, str_eq_iff, str_eq_refl, length, leb, Bool-cases, Option-cases, inl, inr,
}
use nodelume.Prelude.Map.{
  find, delete_where, find-insert, find-delete_where, length-insert-le, length-delete-le,
}
use nodelume.Server.Auth.{
  AuthResult, AuthFailure, evict, is_expired, live_nonces, keep_nonce, check_nonce, max_nonces,
  trim_count, nonce_life,
}

-- The loop deletes what it ranges over until the count is reached.
length-evict :
    (k : ℕ) (m : List (Bytes × ℕ))
    → k < trim_count
    → trim_count ≤ k + length m
    → length (evict k m) + trim_count ≡ k + length m
unfolding evict
length-evict k [] h l = absurd (omega arith)
length-evict k (e ∷ m) h l = ground (arith, length-evict (k + 1) m)

length-delete_where-le :
    (p : Bytes → ℕ → Bool) (m : List (Bytes × ℕ)) → length (delete_where p m) ≤ length m
unfolding delete_where
length-delete_where-le p [] = omega arith
length-delete_where-le p ((j, w) ∷ m) =
    ground (arith, length-delete-le j (delete_where p m), length-delete_where-le p m)

length-keep_nonce-le :
    (order : List (Bytes × ℕ) → List (Bytes × ℕ)) (key : Bytes) (now : ℕ) (m : List (Bytes × ℕ))
    → length (order m) ≡ length m
    → length m ≤ max_nonces
    → length (keep_nonce order key now m) ≤ max_nonces
unfolding keep_nonce
length-keep_nonce-le order key now m same small = elim (Bool-cases (leb max_nonces (length m))) [
  | inl full ↦
      let l = length-insert-le key now (evict 0 (order m)) in
      let e = length-evict 0 (order m) (omega arith) (ground arith) in rw full (omega arith)
  | inr room ↦ let l = length-insert-le key now m in rw room (ground arith)
]

length-live_nonces-le : (now : ℕ) (m : List (Bytes × ℕ)) → length (live_nonces now m) ≤ length m
unfolding live_nonces
length-live_nonces-le now m = length-delete_where-le (is_expired now) m

module _ (order : List (Bytes × ℕ) → List (Bytes × ℕ)) (id nonce : Bytes) (now : ℕ)
    (m : List (Bytes × ℕ)) where
  check_nonce_seen :
      {t : ℕ}
      → find (id ++ b':' ∷ nonce) (live_nonces now m) ≡ some t
      → check_nonce order id nonce now m
        ≡ (live_nonces now m, AuthResult.failed AuthFailure.replay_detected)
  unfolding check_nonce
  check_nonce_seen e = rw (e, check_nonce)

  pub check_nonce_new :
      find (id ++ b':' ∷ nonce) (live_nonces now m) ≡ none
      → check_nonce order id nonce now m
        ≡ (keep_nonce order (id ++ b':' ∷ nonce) now (live_nonces now m), AuthResult.accepted id)
  unfolding check_nonce
  check_nonce_new e = rw (e, check_nonce)

  -- Only the id itself is accepted.
  pub check_nonce-accepted :
      (id' : Bytes)
      → (check_nonce order id nonce now m).1 ≡ AuthResult.accepted id'
      → (check_nonce order id nonce now m).1 ≡ AuthResult.accepted id
  check_nonce-accepted id' h = elim (Option-cases (find (id ++ b':' ∷ nonce) (live_nonces now m))) [
    | inl new ↦ ap (λ w. w.1) (check_nonce_new new)
    | inr (t, old) ↦ absurd (cc (ap (λ w. w.1) (check_nonce_seen old)))
  ]

-- The store never grows beyond its bound, in whatever order Go ranges over it.
pub length-check_nonce-le :
    (order : List (Bytes × ℕ) → List (Bytes × ℕ)) (id nonce : Bytes) (now : ℕ)
    (m : List (Bytes × ℕ))
    → ((l : List (Bytes × ℕ)) → length (order l) ≡ length l)
    → length m ≤ max_nonces
    → length (check_nonce order id nonce now m).0 ≤ max_nonces
unfolding live_nonces
length-check_nonce-le order id nonce now m same small =
    let key = id ++ b':' ∷ nonce in
    let live = live_nonces now m in
    let l = length-delete_where-le (is_expired now) m in
    let k = length-keep_nonce-le order key now live (same live) (omega arith) in
    elim (Option-cases (find key live)) [
      | inl new ↦ rw (check_nonce_new order id nonce now m new) k
      | inr (t, old) ↦ rw (check_nonce_seen order id nonce now m old) (omega arith)
    ]

-- What has not expired stays when the expired nonces go.
find-live_nonces :
    (key : Bytes) (now : ℕ) (m : List (Bytes × ℕ)) (t : ℕ)
    → find key m ≡ some t
    → now ≤ t + nonce_life
    → find key (live_nonces now m) ≡ some t
unfolding live_nonces
find-live_nonces key now m t held fresh =
    rw (find-delete_where (is_expired now) key m, held) (ground arith)

-- Nothing is held under the key, or what is held has expired.
abbrev pub IsFree : ℕ → Bytes → List (Bytes × ℕ) → Type 0
IsFree now key m = (find key m ≡ none) ⊎ ((t : ℕ) × (find key m ≡ some t) × (t + nonce_life < now))

pub IsFree-not_held :
    (now : ℕ) (key : Bytes) (m : List (Bytes × ℕ)) (t : ℕ)
    → IsFree now key m
    → find key m ≡ some t
    → ¬ (now ≤ t + nonce_life)
IsFree-not_held now key m t (inl gone) held soon = absurd (cc (sym gone ∙ held))
IsFree-not_held now key m t (inr (u, old, late)) held soon =
    ground (arith, sym old ∙ held, late, soon)

-- A nonce that is accepted was free.
pub check_nonce-IsFree :
    (order : List (Bytes × ℕ) → List (Bytes × ℕ)) (id nonce : Bytes) (now : ℕ)
    (m : List (Bytes × ℕ)) (id' : Bytes)
    → (check_nonce order id nonce now m).1 ≡ AuthResult.accepted id'
    → IsFree now (id ++ b':' ∷ nonce) m
check_nonce-IsFree order id nonce now m id' ok =
    let key = id ++ b':' ∷ nonce in
    elim (Option-cases (find key m)) [
      | inl gone ↦ inl gone
      | inr (t, held) ↦ elim (Bool-cases (leb now (t + nonce_life))) [
        | inl soon ↦ absurd (
            cc (
              sym ok
              ∙ ap (λ w. w.1)
                  (check_nonce_seen order id nonce now m
                    (find-live_nonces key now m t held (ground arith)))))
        | inr late ↦ inr (t, held, ground arith)
      ]
    ]

-- A nonce that is held and has not expired is refused.
pub check_nonce_replay :
    (order : List (Bytes × ℕ) → List (Bytes × ℕ)) (id nonce : Bytes) (now : ℕ)
    (m : List (Bytes × ℕ)) (t : ℕ)
    → find (id ++ b':' ∷ nonce) m ≡ some t
    → now ≤ t + nonce_life
    → (check_nonce order id nonce now m).1 ≡ AuthResult.failed AuthFailure.replay_detected
check_nonce_replay order id nonce now m t held fresh = rw (
    check_nonce_seen order id nonce now m
      (find-live_nonces (id ++ b':' ∷ nonce) now m t held fresh))

-- What is accepted is held from then on.
pub find-check_nonce :
    (order : List (Bytes × ℕ) → List (Bytes × ℕ)) (id nonce : Bytes) (now : ℕ)
    (m : List (Bytes × ℕ)) (id' : Bytes)
    → (check_nonce order id nonce now m).1 ≡ AuthResult.accepted id'
    → find (id ++ b':' ∷ nonce) (check_nonce order id nonce now m).0 ≡ some now
unfolding keep_nonce
find-check_nonce order id nonce now m id' h =
    let key = id ++ b':' ∷ nonce in
    elim (Option-cases (find key (live_nonces now m))) [
      | inl new ↦ rw (check_nonce_new order id nonce now m new, find-insert, str_eq_refl)
      | inr (t, old) ↦ cc (check_nonce_seen order id nonce now m old)
    ]

-- Another request keeps it, unless it has expired or the store is full.
pub find-check_nonce_other :
    (order : List (Bytes × ℕ) → List (Bytes × ℕ)) (id nonce key : Bytes) (now : ℕ)
    (m : List (Bytes × ℕ)) (t : ℕ)
    → find key m ≡ some t
    → now ≤ t + nonce_life
    → length m < max_nonces
    → find key (check_nonce order id nonce now m).0 ≡ some t
unfolding keep_nonce
find-check_nonce_other order id nonce key now m t held fresh room =
    let own = id ++ b':' ∷ nonce in
    let live = live_nonces now m in
    let kept = find-live_nonces key now m t held fresh in
    let l = length-live_nonces-le now m in
    elim (Option-cases (find own live)) [
      | inl new ↦
          let roomy : leb max_nonces (length live) ≡ false = ground arith in
          rw (check_nonce_new order id nonce now m new, roomy, find-insert)
            (ground (arith, str_eq_iff own key))
      | inr (u, old) ↦ rw (check_nonce_seen order id nonce now m old) kept
    ]

-- Below the bound the store grows by one nonce at most.
pub length-check_nonce_grow :
    (order : List (Bytes × ℕ) → List (Bytes × ℕ)) (id nonce : Bytes) (now : ℕ)
    (m : List (Bytes × ℕ))
    → length m < max_nonces
    → length (check_nonce order id nonce now m).0 ≤ length m + 1
unfolding keep_nonce
length-check_nonce_grow order id nonce now m room =
    let key = id ++ b':' ∷ nonce in
    let live = live_nonces now m in
    let l = length-live_nonces-le now m in
    elim (Option-cases (find key live)) [
      | inl new ↦
          let roomy : leb max_nonces (length live) ≡ false = ground arith in
          rw (check_nonce_new order id nonce now m new, roomy)
            (omega (arith, length-insert-le key now live))
      | inr (u, old) ↦ rw (check_nonce_seen order id nonce now m old) (omega arith)
    ]
