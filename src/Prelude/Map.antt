-- ===== src/Prelude/Map.antt =====
-- Go maps keyed by strings, as association lists. `m[k] = v` replaces the entry in place or adds
-- one; `delete` removes every entry of the key, and a `range` loop that deletes is `delete_where`.
-- The laws are in `if` form, and need no side condition.
use nodelume.Prelude.{
  inr, ap, inl, Bool-cases, ◌+◌, ◌≤◌, ◌≡◌, refl, Bool, true, false, List, [], ◌∷◌, Option, none,
  some, arith, Bytes, str_eq, str_eq_iff, if◌then◌else◌, length,
}

module _ {ℓ} {V : Type ℓ} where
  unfoldable pub find : Bytes → List (Bytes × V) → Option V
  find k [] = none
  find k ((j, v) ∷ m) = if str_eq j k then some v else find k m

  unfoldable pub insert : Bytes → V → List (Bytes × V) → List (Bytes × V)
  insert k v [] = (k, v) ∷ []
  insert k v ((j, w) ∷ m) = if str_eq j k then (k, v) ∷ m else (j, w) ∷ insert k v m

  unfoldable pub delete : Bytes → List (Bytes × V) → List (Bytes × V)
  delete k [] = []
  delete k ((j, w) ∷ m) = let rest = delete k m in if str_eq j k then rest else (j, w) ∷ rest

  -- `for k, v := range m { if p(k, v) { delete(m, k) } }`
  unfoldable pub delete_where : (Bytes → V → Bool) → List (Bytes × V) → List (Bytes × V)
  unfolding delete
  delete_where p [] = []
  delete_where p ((j, w) ∷ m) =
      let rest = delete_where p m in if p j w then delete j rest else (j, w) ∷ rest

  -- `for k, v := range m { *v = f(k, v) }`
  unfoldable pub map_values : (Bytes → V → V) → List (Bytes × V) → List (Bytes × V)
  map_values f [] = []
  map_values f ((j, w) ∷ m) = (j, f j w) ∷ map_values f m

  -- Does some entry pass the test?
  unfoldable pub any_entry : (Bytes → V → Bool) → List (Bytes × V) → Bool
  any_entry p [] = false
  any_entry p ((j, w) ∷ m) = if p j w then true else any_entry p m

  pub find-insert :
      (j k : Bytes) (v : V) (m : List (Bytes × V))
      → find j (insert k v m) ≡ (if str_eq k j then some v else find j m)
  unfolding find insert
  find-insert j k v [] = refl
  find-insert j k v ((i, w) ∷ m) =
      ground (arith, str_eq_iff k j, str_eq_iff i k, str_eq_iff i j, find-insert j k v m)

  pub find-delete :
      (j k : Bytes) (m : List (Bytes × V))
      → find j (delete k m) ≡ (if str_eq k j then none else find j m)
  unfolding find delete
  find-delete j k [] = ground arith
  find-delete j k ((i, w) ∷ m) =
      ground (arith, str_eq_iff k j, str_eq_iff i k, str_eq_iff i j, find-delete j k m)

  -- The value that the purge leaves under a key.
  abbrev pub unless : Bool → V → Option V
  unless b v = if b then none else some v

  abbrev pub purged : (Bytes → V → Bool) → Bytes → Option V → Option V
  purged p j none = none
  purged p j (some v) = unless (p j v) v

  pub find-delete_where :
      (p : Bytes → V → Bool) (j : Bytes) (m : List (Bytes × V))
      → find j (delete_where p m) ≡ purged p j (find j m)
  unfolding find delete_where
  find-delete_where p j [] = refl
  find-delete_where p j ((i, w) ∷ m) =
      ground (arith, str_eq_iff i j, find-delete j i (delete_where p m), find-delete_where p j m)

  -- The value that the loop leaves under a key.
  abbrev pub mapped : (Bytes → V → V) → Bytes → Option V → Option V
  mapped f j none = none
  mapped f j (some v) = some (f j v)

  pub find-map_values :
      (f : Bytes → V → V) (j : Bytes) (m : List (Bytes × V))
      → find j (map_values f m) ≡ mapped f j (find j m)
  unfolding find map_values
  find-map_values f j [] = refl
  find-map_values f j ((i, w) ∷ m) = elim (Bool-cases (str_eq i j)) [
    | inl own ↦ rw own (ap (λ k. some (f k w)) ((str_eq_iff i j).0 own))
    | inr other ↦ rw other (find-map_values f j m)
  ]

  pub length-insert-le :
      (k : Bytes) (v : V) (m : List (Bytes × V)) → length (insert k v m) ≤ length m + 1
  unfolding insert
  length-insert-le k v [] = omega arith
  length-insert-le k v ((i, w) ∷ m) = ground (arith, length-insert-le k v m)

  pub length-delete-le : (k : Bytes) (m : List (Bytes × V)) → length (delete k m) ≤ length m
  unfolding delete
  length-delete-le k [] = omega arith
  length-delete-le k ((i, w) ∷ m) = ground (arith, length-delete-le k m)
