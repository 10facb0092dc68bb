-- ===== src/Agent/Helper/Services/Managed.antt =====
-- agent/helper.go: managed units against the protected services.

use nodelume.Prelude.{
  ◌≡◌, refl, ap, ◌∙◌, arith, true, false, not, ◌&&◌, [], ◌∷◌, ◌++◌, some, Bytes, text, any, str_eq,
  Option-cases, inl, inr,
}
use nodelume.Text.{to_lower, has_prefix, cut_prefix}
use nodelume.Agent.Helper.Services.{
  matches_unit, is_managed_unit, is_reserved, protected_services, safe_service,
}

-- A text with a prefix is the prefix and what is behind it.
cut_prefix-append : (p s rest : Bytes) → cut_prefix p s ≡ some rest → s ≡ p ++ rest
unfolding cut_prefix
cut_prefix-append [] s rest h = cc (h)
cut_prefix-append (c ∷ p) [] rest h = absurd (cc (h))
cut_prefix-append (c ∷ p) (d ∷ s) rest h = ground (arith, cut_prefix-append p s rest)

managed_prefix :
    (u : Bytes)
    → has_prefix u (text "nlm-managed-") ≡ true
    → (rest : Bytes) × (u ≡ text "nlm-managed-" ++ rest)
unfolding has_prefix text
managed_prefix u h = elim (Option-cases (cut_prefix (text "nlm-managed-") u)) [
  | inl absent ↦ absurd (cc (rw (absent) at h))
  | inr (rest, there) ↦ (rest, cut_prefix-append (text "nlm-managed-") u rest there)
]

managed-unreserved :
    (rest : Bytes) → any (is_reserved (text "nlm-managed-" ++ rest)) protected_services ≡ false
unfolding has_prefix cut_prefix str_eq text
managed-unreserved rest = refl

-- A managed unit is never a protected service.
pub is_managed_unit-Safe : (unit : Bytes) → is_managed_unit unit ≡ true → safe_service unit ≡ true
unfolding is_managed_unit safe_service
is_managed_unit-Safe unit h =
    let matches : matches_unit unit ≡ true = ground arith in
    let prefix : has_prefix (to_lower unit) (text "nlm-managed-") ≡ true = ground arith in
    let (rest, split) = managed_prefix (to_lower unit) prefix in
    let free : any (is_reserved (to_lower unit)) protected_services ≡ false =
      ap (λ u. any (is_reserved u) protected_services) split ∙ managed-unreserved rest in
    ap (λ b. b && not (any (is_reserved (to_lower unit)) protected_services)) matches ∙ ap not free
