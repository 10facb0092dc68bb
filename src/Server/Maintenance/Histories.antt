-- ===== src/Server/Maintenance/Histories.antt =====
-- A tick of the maintenance keeps, of every history, the points of the last hour.
use nodelume.Prelude.{ℕ, ◌-◌, ◌*◌, ◌≡◌, refl, List, [], ◌∷◌, some, Bytes, leb, keep}
use nodelume.Ring.{MetricPoint}
use nodelume.Ring.Contents.{Holds}
use nodelume.Ring.History.{prune-Holds}
use nodelume.Server.State.{App, RuntimeNode, second, unix}
use nodelume.Server.Maintenance.{purge_state, prune_all, maintain}

-- Every history is a valid ring.
abbrev pub AllHold : {F : Type 0} → List (Bytes × RuntimeNode F) → Type 0
AllHold [] = Unit
AllHold {F} ((_, rt) ∷ m) = ((xs : List (MetricPoint F)) × Holds rt.history xs) × AllHold m

-- The same nodes, each with the points of its history from the cut on.
abbrev pub PrunedTo :
    {F : Type 0} → ℕ → List (Bytes × RuntimeNode F) → List (Bytes × RuntimeNode F) → Type 0
PrunedTo cut [] [] = Unit
PrunedTo {F} cut ((k, rt) ∷ m) ((k', rt') ∷ m') =
    ((k ≡ k')
      × ((xs : List (MetricPoint F)) × Holds rt.history xs
          × Holds rt'.history (keep (λ p. leb cut p.t) xs)))
    × PrunedTo cut m m'
PrunedTo cut _ _ = ⊥

module _ {F : Type 0} where
  prune_all-PrunedTo :
      (cut : ℕ) (m : List (Bytes × RuntimeNode F))
      → AllHold m
      → (m' : List (Bytes × RuntimeNode F)) × (prune_all cut m ≡ some m') × PrunedTo cut m m'
  unfolding prune_all
  prune_all-PrunedTo cut [] _ = ([], refl, tt)
  prune_all-PrunedTo cut ((k, rt) ∷ m) ((xs, held), more) =
      let (r, e, kept, _) = prune-Holds cut held in
      let (m', e', rest) = prune_all-PrunedTo cut m more in
      ((k, record rt { history = r }) ∷ m', rw (e, e'), ((refl, (xs, held, kept)), rest))

  -- Where every history is a valid ring a tick does not panic: it purges the state, and every
  -- history keeps exactly its points of the last hour.
  pub maintain-PrunedTo :
      (now : ℕ) (a : App F)
      → AllHold a.runtime
      → (m : List (Bytes × RuntimeNode F)) × (maintain now a
          ≡ some (record a { state = purge_state now a.state; runtime = m }))
        × PrunedTo (unix (now - 3600 * second)) a.runtime m
  unfolding maintain
  maintain-PrunedTo now a held =
      let (m, e, pruned) = prune_all-PrunedTo (unix (now - 3600 * second)) a.runtime held in
      (m, rw e, pruned)
