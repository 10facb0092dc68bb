-- ===== src/Server/Nodes/Common.antt =====
-- server/main.go: the token that any number of agents may use, `setCommonEnrollment`,
-- `revokeCommonEnrollment` and `getCommonEnrollment`.
use nodelume.Prelude.{
  ◌==◌, ℕ, ◌+◌, ◌*◌, Bool, true, false, not, ◌||◌, List, [], ◌∷◌, Option, none, some, Bytes, text,
  ltb, if◌then◌else◌,
}
use nodelume.Prelude.Int.{negsuc, ℤ, pos}
use nodelume.Prelude.Map.{insert, delete_where}
use nodelume.Text.{trim_space}
use nodelume.Server.State.{App, PersistedState, Enrollment, Reply, second, unix}
use nodelume.Server.Nodes.{Context, audit, bad_request, or_save_failed, bad_address}

-- The tokens that any number of agents may use.
abbrev pub is_reusable : Bytes → Enrollment → Bool
is_reusable _ e = e.reusable

unfoldable pub without_common : List (Bytes × Enrollment) → List (Bytes × Enrollment)
without_common m = delete_where is_reusable m

pub record CommonInput : Type 0 where
  pub days : ℤ
  pub name : Bytes

-- For ever, a day, a week or a month.
abbrev pub term_of : ℤ → Option ℕ
term_of (pos n) = if n == 0 || n == 1 || n == 7 || n == 30 then some n else none
term_of (negsuc _) = none

abbrev pub common_expiry : ℕ → Context → ℕ
common_expiry days c = if ltb 0 days then unix (c.now + days * (24 * 3600 * second)) else 0

module _ (hash : Bytes → Bytes) where
  -- The one reusable token gives way to a new one; 0 days mean that it never expires.
  unfoldable pub renew_common : {F : Type 0} → ℕ → Bytes → Context → App F → App F
  renew_common days name c a =
      let s = a.state in
      let e : Enrollment = record {
        node_id = [];
        name = trim_space name;
        expires_at = common_expiry days c;
        reusable = true;
        joined = 0;
      } in
      let s' : PersistedState = record s {
        enrollments = insert (hash c.fresh_token) e (without_common s.enrollments);
      } in
      record a {
        state = audit c (text "common_enrollment") [] (text "common enrollment token generated") s';
      }

  -- The reply is the token and its expiry.
  unfoldable pub set_common_enrollment :
      {F : Type 0} → Bool → Option CommonInput → Context → App F → App F × Reply (Bytes × ℕ)
  set_common_enrollment valid_address none c a =
      (a, if valid_address then bad_request else bad_address)
  set_common_enrollment valid_address (some input) c a =
      if not valid_address then (a, bad_address) else elim (term_of input.days) [
        | none ↦ (a, Reply.error (text "Token 有效期必须为永久、1 天、7 天或 30 天") 400)
        | some days ↦ (
          renew_common days input.name c a,
          or_save_failed c (Reply.ok 200 (c.fresh_token, common_expiry days c)),
        )
      ]

unfoldable pub revoke_common_enrollment : {F : Type 0} → Context → App F → App F × Reply Unit
revoke_common_enrollment c a =
    let s = a.state in
    let s' : PersistedState = record s { enrollments = without_common s.enrollments } in
    (
      record a {
        state = audit c (text "common_enrollment") [] (text "common enrollment token revoked") s';
      },
      or_save_failed c (Reply.ok 200 tt),
    )

-- `commonEnrollmentLocked`: the first reusable token, in the order in which Go ranges.
unfoldable pub common_enrollment : List (Bytes × Enrollment) → Option (Bytes × Enrollment)
common_enrollment [] = none
common_enrollment ((k, e) ∷ m) = if e.reusable then some (k, e) else common_enrollment m

-- Is a token active, when does it expire, and how many agents joined by it?
unfoldable pub get_common_enrollment :
    {F : Type 0}
    → (List (Bytes × Enrollment) → List (Bytes × Enrollment))
    → ℕ
    → App F
    → Bool × ℕ × ℕ
get_common_enrollment order now a = elim (common_enrollment (order a.state.enrollments)) [
  | none ↦ (false, 0, 0)
  | some (_, e) ↦ (e.expires_at == 0 || ltb (unix now) e.expires_at, e.expires_at, e.joined)
]
