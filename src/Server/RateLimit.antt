-- ===== src/Server/RateLimit.antt =====
-- server/final.go, `allowEnrollment`: at most 20 registrations of a source in 60 seconds.
pub mod Window
use nodelume.Prelude.{
  ℕ, ◌+◌, Bool, true, false, List, [], ◌∷◌, ◌++◌, Option, none, some, Bytes, length, keep, ltb, leb,
  if◌then◌else◌,
}
use nodelume.Prelude.Map.{find, insert}
use nodelume.Server.State.{App}

abbrev pub rate_limit : ℕ
rate_limit = 20

-- `now - t < 60`
abbrev pub is_recent : ℕ → ℕ → Bool
is_recent now t = ltb now (t + 60)

-- A key that is missing reads as the empty slice.
abbrev pub or_empty {ℓ} : {A : Type ℓ} → Option (List A) → List A
or_empty none = []
or_empty (some xs) = xs

-- The times that stay of one source, and whether the call passes.
unfoldable pub admit : ℕ → List ℕ → List ℕ × Bool
admit now times =
    let xs = keep (is_recent now) times in
    if leb rate_limit (length xs) then (xs, false) else (xs ++ now ∷ [], true)

unfoldable pub allow_enrollment : {F : Type 0} → ℕ → Bytes → App F → App F × Bool
unfolding admit
allow_enrollment now ip a =
    let (xs, passed) = admit now (or_empty (find ip a.enroll_rate)) in
    (record a { enroll_rate = insert ip xs a.enroll_rate }, passed)
