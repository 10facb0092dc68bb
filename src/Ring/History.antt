-- ===== src/Ring/History.antt =====
-- What a ring holds after a sequence of calls: the newest points of all that were added, and after
-- `Prune` those that are not before the cut.
use mathlib.Core.Path.{subst}
use native.Mathlib.Decide.{dec_le}
use nodelume.Prelude.{
  length-replicate, ℕ, zero, suc, ◌+◌, ◌-◌, ◌≤◌, ◌<◌, ◌≡◌, refl, ap, ◌∙◌, sym, List, [], ◌∷◌, ◌++◌,
  append_assoc, append-nil, Option, some, arith, length, drop, length-append, length-drop, keep,
  leb, Bool-cases, inl, inr,
}
use nodelume.Ring.{MetricPoint, Ring, ◌>>=◌, new_ring, add, all, readd, prune}
use nodelume.Ring.Contents.{Holds, IsValid}
use nodelume.Ring.Spec.{push, all-Holds, add-Holds, new_ring-Holds}

-- A client's calls of `Add`, in order.
unfoldable pub add_all : {F : Type 0} → Ring F → List (MetricPoint F) → Option (Ring F)
add_all r [] = some r
add_all r (p ∷ ps) = do r' ← add r p; add_all r' ps

module _ {A : Type 0} where
  drop-append : (k : ℕ) (xs ys : List A) → k ≤ length xs → drop k (xs ++ ys) ≡ drop k xs ++ ys
  drop-append zero xs ys h = refl
  drop-append (suc k) [] ys h = absurd (omega arith)
  drop-append (suc k) (x ∷ xs) ys h = drop-append k xs ys (omega arith)

  drop-drop_one : (k : ℕ) (xs : List A) → drop 1 (drop k xs) ≡ drop (suc k) xs
  drop-drop_one zero xs = refl
  drop-drop_one (suc k) [] = refl
  drop-drop_one (suc k) (x ∷ xs) = drop-drop_one k xs

  -- The last `cap` items.
  abbrev pub last : ℕ → List A → List A
  last cap xs = drop (length xs - cap) xs

  last_of_length-le : (cap : ℕ) (xs : List A) → length xs ≤ cap → last cap xs ≡ xs
  last_of_length-le cap xs h = let e : length xs - cap ≡ 0 = omega arith in rw e

module _ {F : Type 0} where
  push-last :
      (cap : ℕ) (xs : List (MetricPoint F)) (p : MetricPoint F)
      → 0 < cap
      → push cap (last cap xs) p ≡ last cap (xs ++ p ∷ [])
  push-last cap xs p h = elim (dec_le (length xs) cap) [
    | yes small ↦
        let e = length-append xs (p ∷ []) in
        let f : length xs + 1 ≡ length (xs ++ p ∷ []) = sym e in
        rw (last_of_length-le cap xs small, f)
    | no big ↦
        let k = length xs - cap in
        let l : length (drop k xs) ≡ cap = omega (arith, length-drop k xs) in
        let one : length (drop k xs) + 1 - cap ≡ 1 = omega arith in
        let all_out : length (xs ++ p ∷ []) - cap ≡ suc k =
          omega (arith, length-append xs (p ∷ [])) in
        rw (one, all_out, ← drop-append k xs (p ∷ []) (omega arith))
          (drop-drop_one k (xs ++ p ∷ []))
  ]

  add_all-Holds :
      (cap : ℕ) (xs ps : List (MetricPoint F)) {r : Ring F}
      → length r.points ≡ cap
      → Holds r (last cap xs)
      → (r' : Ring F) × (add_all r ps ≡ some r') × Holds r' (last cap (xs ++ ps))
  unfolding add_all
  add_all-Holds cap xs [] {r} l w = (r, refl, rw (append-nil xs) w)
  add_all-Holds cap xs (p ∷ ps) {r} l w =
      let (r', e, w', l') = add-Holds p w in
      let h = xs ++ p ∷ [] in
      let next : push (length r.points) (last cap xs) p ≡ last cap h =
        ap (λ k. push k (last cap xs) p) l ∙ push-last cap xs p (omega (arith, w.valid.nonempty)) in
      let (r'', e', v) = add_all-Holds cap h ps (l' ∙ l) (subst (Holds r') next w') in
      (r'', rw e e', subst (λ k. Holds r'' (last cap k)) (append_assoc xs (p ∷ []) ps) v)

  -- A fresh ring to which points are added holds the newest of them, as many as it has room for.
  pub all-add_all :
      (blank : MetricPoint F) (n : ℕ) (ps : List (MetricPoint F))
      → 0 < n
      → (r : Ring F) × (add_all (new_ring blank n) ps ≡ some r) × (all r ≡ some (last n ps))
  unfolding new_ring
  all-add_all blank n ps h =
      let none_out : last n [] ≡ [] = last_of_length-le {A = MetricPoint F} n [] (omega arith) in
      let w = subst (Holds (new_ring blank n)) (sym none_out) (new_ring-Holds blank n h) in
      let (r, e, v) = add_all-Holds n [] ps (length-replicate n blank) w in (r, e, all-Holds v)

  readd-Holds :
      (cut : ℕ) (ps h : List (MetricPoint F)) {r : Ring F}
      → Holds r h
      → length h + length ps ≤ length r.points
      → (r' : Ring F) × (readd cut r ps ≡ some r')
        × Holds r' (h ++ keep (λ p. leb cut p.t) ps)
        × (length r'.points ≡ length r.points)
  unfolding readd
  readd-Holds cut [] h {r} w fits = (r, refl, rw (append-nil h) w, refl)
  readd-Holds cut (p ∷ ps) h {r} w fits = elim (Bool-cases (leb cut p.t)) [
    | inl new ↦
        let (r1, e, w1, l1) = add-Holds p w in
        let room : length h + 1 - length r.points ≡ 0 = omega arith in
        let w2 : Holds r1 (h ++ p ∷ []) = subst (λ k. Holds r1 (drop k (h ++ p ∷ []))) room w1 in
        let (r2, e2, w3, l2) =
          readd-Holds cut ps (h ++ p ∷ []) w2 (omega (arith, length-append h (p ∷ []))) in
        (
          r2,
          rw (new, e) e2,
          rw (new, ← append_assoc h (p ∷ []) (keep (λ q. leb cut q.t) ps)) w3,
          l2 ∙ l1,
        )
    | inr old ↦
        let fits' : length h + length ps ≤ length r.points = omega arith in
        rw old (readd-Holds cut ps h w fits')
  ]

  -- `Prune` keeps exactly the points that are not before the cut, in order, at the same capacity.
  pub prune-Holds :
      {r : Ring F} {h : List (MetricPoint F)} (cut : ℕ)
      → Holds r h
      → (r' : Ring F) × (prune r cut ≡ some r')
        × Holds r' (keep (λ p. leb cut p.t) h)
        × (length r'.points ≡ length r.points)
  unfolding prune
  prune-Holds {r} {h} cut w =
      let valid : IsValid (record r { next = 0; count = 0 }) = record {
        nonempty = w.valid.nonempty;
        next_in = w.valid.nonempty;
        count_in = omega arith;
      } in
      let (r', e, w', l) =
        readd-Holds cut h [] {r = record r { next = 0; count = 0 }}
          (record { valid = valid; window = refl; size = refl })
          (omega (arith, w.size, w.valid.count_in)) in
      (r', rw (all-Holds w) e, w', l)
