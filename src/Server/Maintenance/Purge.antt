-- ===== src/Server/Maintenance/Purge.antt =====
-- A tick of the maintenance takes away only what the handlers would refuse from then on.
use nodelume.Prelude.{
  ℕ, ◌≤◌, ◌≡◌, refl, ap, ◌∙◌, sym, arith, Bool, false, ◌&&◌, List, [], ◌∷◌, Option, none, some,
  Bytes, ltb, if◌then◌else◌, Bool-cases, Option-cases, inl, inr,
}
use nodelume.Prelude.Map.{
  find-map_values, mapped, find, delete_where, map_values, any_entry, find-delete_where, purged,
  unless,
}
use nodelume.Server.State.{App, PersistedState, PersistNode, Enrollment, Session, unix}
use nodelume.Server.Auth.{signature_accepted}
use nodelume.Server.Register.{find_enrollment}
use nodelume.Server.Session.{get_session}
use nodelume.Server.Maintenance.{
  token_expired, receipt_expired, session_expired, secret_expired, forget_secret, purge_state,
  is_dirty,
}

abbrev pub after : {F : Type 0} → ℕ → App F → App F
after now a = record a { state = purge_state now a.state }

enrollments-after :
    {F : Type 0} (now : ℕ) (th : Bytes) (a : App F)
    → find th (after now a).state.enrollments
      ≡ purged (token_expired now) th (find th a.state.enrollments)
unfolding purge_state
enrollments-after now th a = find-delete_where (token_expired now) th a.state.enrollments

sessions-after :
    {F : Type 0} (now : ℕ) (sid : Bytes) (a : App F)
    → find sid (after now a).state.sessions
      ≡ purged (session_expired now) sid (find sid a.state.sessions)
unfolding purge_state
sessions-after now sid a = find-delete_where (session_expired now) sid a.state.sessions

find_enrollment-none :
    {F : Type 0} (th : Bytes) (t : ℕ) (a : App F)
    → find th a.state.enrollments ≡ none
    → find_enrollment th t a ≡ none
unfolding find_enrollment
find_enrollment-none th t a h = rw (h, find_enrollment)

find_enrollment-some :
    {F : Type 0} (th : Bytes) (t : ℕ) (a : App F) (e : Enrollment)
    → find th a.state.enrollments ≡ some e
    → find_enrollment th t a ≡ (if ltb 0 e.expires_at && ltb e.expires_at t then none else some e)
unfolding find_enrollment
find_enrollment-some th t a e h = rw (h, find_enrollment)

get_session-gone :
    {F : Type 0} (sid : Bytes) (t : ℕ) (a : App F)
    → find sid a.state.sessions ≡ none
    → get_session (some sid) t a ≡ none
unfolding get_session
get_session-gone sid t a h = rw (h, get_session)

get_session-held :
    {F : Type 0} (sid : Bytes) (t : ℕ) (a : App F) (s : Session)
    → find sid a.state.sessions ≡ some s
    → get_session (some sid) t a ≡ (if ltb s.expires t then none else some s)
unfolding get_session
get_session-held sid t a s h = rw (h, get_session)

-- A token is found after the purge exactly as it would have been found without it.
pub find_enrollment-purge :
    {F : Type 0} (now later : ℕ) (th : Bytes) (a : App F)
    → now ≤ later
    → find_enrollment th (unix later) (after now a) ≡ find_enrollment th (unix later) a
find_enrollment-purge now later th a h =
    let left = enrollments-after now th a in
    elim (Option-cases (find th a.state.enrollments)) [
      | inl gone ↦
          find_enrollment-none th (unix later) (after now a)
            (left ∙ ap (purged (token_expired now) th) gone)
          ∙ sym (find_enrollment-none th (unix later) a gone)
      | inr (e, held) ↦
          let held' = left ∙ ap (purged (token_expired now) th) held in
          let before = find_enrollment-some th (unix later) a e held in
          elim (Bool-cases (token_expired now th e)) [
            | inl old ↦
                find_enrollment-none th (unix later) (after now a)
                  (held' ∙ ap (λ b. unless b e) old)
                ∙ sym (before ∙ ground arith)
            | inr live ↦
                find_enrollment-some th (unix later) (after now a) e
                  (held' ∙ ap (λ b. unless b e) live)
                ∙ sym before
          ]
    ]

-- A session passes after the purge exactly as it would have passed without it.
pub get_session-purge :
    {F : Type 0} (now later : ℕ) (cookie : Option Bytes) (a : App F)
    → now ≤ later
    → get_session cookie later (after now a) ≡ get_session cookie later a
unfolding get_session
get_session-purge now later none a h = refl
get_session-purge now later (some sid) a h =
    let left = sessions-after now sid a in
    elim (Option-cases (find sid a.state.sessions)) [
      | inl gone ↦
          get_session-gone sid later (after now a)
            (left ∙ ap (purged (session_expired now) sid) gone)
          ∙ sym (get_session-gone sid later a gone)
      | inr (s, held) ↦
          let held' = left ∙ ap (purged (session_expired now) sid) held in
          let before = get_session-held sid later a s held in
          elim (Bool-cases (session_expired now sid s)) [
            | inl old ↦
                get_session-gone sid later (after now a) (held' ∙ ap (λ b. unless b s) old)
                ∙ sym (before ∙ ground arith)
            | inr live ↦
                get_session-held sid later (after now a) s (held' ∙ ap (λ b. unless b s) live)
                ∙ sym before
          ]
    ]

-- The signatures of a node are accepted later as without the purge.
pub signature_accepted-forget :
    (sha256_hex : Bytes → Bytes) (hmac_hex : Bytes → Bytes → Bytes) (now later : ℕ) (id : Bytes)
    (n : PersistNode) (message sig : Bytes)
    → now ≤ later
    → signature_accepted sha256_hex hmac_hex (forget_secret now id n) (unix later) message sig
      ≡ signature_accepted sha256_hex hmac_hex n (unix later) message sig
unfolding signature_accepted forget_secret
signature_accepted-forget sha256_hex hmac_hex now later id n message sig h = ground arith

delete_where-clean :
    {V : Type 0} (p : Bytes → V → Bool) (m : List (Bytes × V))
    → any_entry p m ≡ false
    → delete_where p m ≡ m
unfolding any_entry delete_where
delete_where-clean p [] h = refl
delete_where-clean p ((j, w) ∷ m) h = ground (arith, delete_where-clean p m)

forget_secret-clean :
    (now : ℕ) (m : List (Bytes × PersistNode))
    → any_entry (secret_expired now) m ≡ false
    → map_values (forget_secret now) m ≡ m
unfolding any_entry map_values forget_secret
forget_secret-clean now [] h = refl
forget_secret-clean now ((j, w) ∷ m) h = ground (arith, forget_secret-clean now m)

-- When no loop finds anything to take away, the state stays as it is.
pub purge_state-clean :
    (now : ℕ) (s : PersistedState) → is_dirty now s ≡ false → purge_state now s ≡ s
unfolding purge_state is_dirty
purge_state-clean now s h =
    let e1 = delete_where-clean (token_expired now) s.enrollments (ground arith) in
    let e2 = delete_where-clean (receipt_expired now) s.enrollment_receipts (ground arith) in
    let e3 = forget_secret-clean now s.nodes (ground arith) in
    let e4 = delete_where-clean (session_expired now) s.sessions (ground arith) in
    λ i. record s { enrollments = e1 i; enrollment_receipts = e2 i; nodes = e3 i; sessions = e4 i }

-- Does the node that was found accept the signature?
abbrev pub found_accepts :
    (Bytes → Bytes) → (Bytes → Bytes → Bytes) → ℕ → Bytes → Bytes → Option PersistNode → Bool
found_accepts sha256_hex hmac_hex t message sig none = false
found_accepts sha256_hex hmac_hex t message sig (some n) =
    signature_accepted sha256_hex hmac_hex n (unix t) message sig

abbrev pub node_accepts :
    {F : Type 0}
    → (Bytes → Bytes)
    → (Bytes → Bytes → Bytes)
    → Bytes
    → ℕ
    → Bytes
    → Bytes
    → App F
    → Bool
node_accepts sha256_hex hmac_hex id t message sig a =
    found_accepts sha256_hex hmac_hex t message sig (find id a.state.nodes)

nodes-after :
    {F : Type 0} (now : ℕ) (id : Bytes) (a : App F)
    → find id (after now a).state.nodes ≡ mapped (forget_secret now) id (find id a.state.nodes)
unfolding purge_state
nodes-after now id a = find-map_values (forget_secret now) id a.state.nodes

node_accepts-purge :
    {F : Type 0} (sha256_hex : Bytes → Bytes) (hmac_hex : Bytes → Bytes → Bytes) (now later : ℕ)
    (id message sig : Bytes) (a : App F)
    → now ≤ later
    → node_accepts sha256_hex hmac_hex id later message sig (after now a)
      ≡ node_accepts sha256_hex hmac_hex id later message sig a
node_accepts-purge sha256_hex hmac_hex now later id message sig a h =
    let accepts = found_accepts sha256_hex hmac_hex later message sig in
    let left = nodes-after now id a in
    elim (Option-cases (find id a.state.nodes)) [
      | inl gone ↦
          ap accepts (left ∙ ap (mapped (forget_secret now) id) gone) ∙ sym (ap accepts gone)
      | inr (n, there) ↦
          ap accepts (left ∙ ap (mapped (forget_secret now) id) there)
          ∙ signature_accepted-forget sha256_hex hmac_hex now later id n message sig h
          ∙ sym (ap accepts there)
    ]

-- From the purge on, an enrollment token is found, a session passes and the node under an id accepts
-- a signature exactly as it would have been without the purge.
pub purge_unseen :
    {F : Type 0} (sha256_hex : Bytes → Bytes) (hmac_hex : Bytes → Bytes → Bytes) (now later : ℕ)
    (th : Bytes) (cookie : Option Bytes) (id message sig : Bytes) (a : App F)
    → now ≤ later
    → (find_enrollment th (unix later) (after now a) ≡ find_enrollment th (unix later) a)
      × (get_session cookie later (after now a) ≡ get_session cookie later a)
      × (node_accepts sha256_hex hmac_hex id later message sig (after now a)
          ≡ node_accepts sha256_hex hmac_hex id later message sig a)
purge_unseen sha256_hex hmac_hex now later th cookie id message sig a h = (
  find_enrollment-purge now later th a h,
  get_session-purge now later cookie a h,
  node_accepts-purge sha256_hex hmac_hex now later id message sig a h,
)
