-- ===== src/Ring/Spec.antt =====
-- A ring refines the list of its points, the oldest first: no operation panics, and each acts on
-- the list as a bounded history does.
use native.Mathlib.Nat.{add-zero, add-mod_right, mod-add-mod, mod-mod, mod-eq_of_lt}
use mathlib.Core.Path.{subst}
use nodelume.Prelude.{
  ℕ, suc, ◌+◌, ◌-◌, ◌%◌, ◌<◌, ◌≡◌, refl, ap, ◌∙◌, sym, List, [], ◌∷◌, ◌++◌, some, arith, length,
  set, drop, length-set, length-append, length-drop, keep, map, ltb, leb, if◌then◌else◌, Bool-cases,
  inl, inr, length-replicate,
}
use nodelume.Ring.{MetricPoint, Ring, new_ring, add, all, history_point, since_loop, since}
use nodelume.Ring.Index.{end_mod, start_mod}
use nodelume.Ring.Contents.{reads, reads_cong, reads-set, reads-drop, IsValid, Holds, collect-reads}

module _ {F : Type 0} where
  -- The last `cap` points of a history and the new point behind them.
  abbrev pub push : ℕ → List (MetricPoint F) → MetricPoint F → List (MetricPoint F)
  push cap h p = drop (length h + 1 - cap) (h ++ p ∷ [])

  pub new_ring-Holds : (blank : MetricPoint F) (n : ℕ) → 0 < n → Holds (new_ring blank n) []
  unfolding new_ring
  new_ring-Holds blank n h =
      let l = length-replicate n blank in
      record {
        valid = record {
          nonempty = omega (arith, l);
          next_in = omega (arith, l);
          count_in = omega arith;
        };
        window = refl;
        size = refl;
      }

  -- The two ways in which `all` finds the oldest point agree with the window.
  start-cong :
      (r : Ring F)
      → IsValid r
      → (if ltb r.next r.count then r.next + length r.points - r.count else r.next - r.count)
          % length r.points
        ≡ (r.next + length r.points - r.count) % length r.points
  start-cong r v = elim (Bool-cases (ltb r.next r.count)) [
    | inl low ↦ rw low
    | inr high ↦ rw high (
        let e : r.next + length r.points - r.count ≡ r.next - r.count + length r.points =
          grind (arith) in
        rw (e, add-mod_right))
  ]

  -- `all` returns the points of the ring, the oldest first.
  pub all-Holds : {r : Ring F} {h : List (MetricPoint F)} → Holds r h → all r ≡ some h
  unfolding all
  all-Holds {r} {h} w =
      collect-reads r.points _ 0 r.count
      ∙ reads_cong r.points _ _ r.count w.valid.nonempty
          (ap (λ k. k % length r.points) (add-zero _) ∙ start-cong r w.valid)
      ∙ w.window

  abbrev added : Ring F → MetricPoint F → Ring F
  added r p = record {
    points = set r.points r.next p;
    next = (r.next + 1) % length r.points;
    count = if ltb r.count (length r.points) then r.count + 1 else r.count;
  }

  add-added : {r : Ring F} (p : MetricPoint F) → IsValid r → add r p ≡ some (added r p)
  unfolding add
  add-added p v = ground arith

  length-added : (r : Ring F) (p : MetricPoint F) → length (added r p).points ≡ length r.points
  length-added r p = length-set r.points r.next p

  added-IsValid : {r : Ring F} (p : MetricPoint F) → IsValid r → IsValid (added r p)
  added-IsValid {r} p v =
      let l = length-added r p in
      record { nonempty = omega arith; next_in = grind arith; count_in = ground arith }

  drop_front :
      (h : List (MetricPoint F)) (p : MetricPoint F)
      → 0 < length h
      → drop 1 (h ++ p ∷ []) ≡ drop 1 h ++ p ∷ []
  drop_front [] p n = absurd (omega arith)
  drop_front (q ∷ h) p n = refl

  -- Below the capacity the new point joins the others.
  grown :
      {r : Ring F} {h : List (MetricPoint F)} (p : MetricPoint F)
      → Holds r h
      → r.count < length r.points
      → reads
          (set r.points r.next p)
          ((r.next + 1) % length r.points + length r.points - suc r.count)
          (suc r.count)
        ≡ some (h ++ p ∷ [])
  grown {r} {h} p w small =
      let b = r.points in
      let s = (r.next + 1) % length b + length b - suc r.count in
      let e =
        reads-set b s r.count r.next p w.valid.next_in small
          (end_mod _ _ _ w.valid.next_in small) in
      let same = start_mod r.next r.count (length b) w.valid.next_in small in
      e ∙ rw (reads_cong b s _ r.count w.valid.nonempty same, w.window)

  -- At the capacity it takes the place of the oldest.
  rolled :
      {r : Ring F} {h : List (MetricPoint F)} (p : MetricPoint F) (m : ℕ)
      → Holds r h
      → r.count ≡ suc m
      → length r.points ≡ suc m
      → reads
          (set r.points r.next p)
          ((r.next + 1) % length r.points + length r.points - r.count)
          r.count
        ≡ some (drop 1 h ++ p ∷ [])
  rolled {r} {h} p m w full size =
      let b = r.points in
      let next_in = w.valid.next_in in
      let s = (r.next + 1) % length b in
      let small : m < length b = omega arith in
      let at_end : (s + m) % length b ≡ r.next =
        mod-add-mod (r.next + 1) (length b) m
        ∙ ap (λ k. k % length b) (omega arith)
        ∙ add-mod_right r.next (length b)
        ∙ mod-eq_of_lt next_in in
      let front =
        reads-drop b (r.next + length b - r.count) m h
          (subst (λ k. reads b (r.next + length b - r.count) k ≡ some h) full w.window) in
      let same : s % length b ≡ (r.next + length b - r.count + 1) % length b =
        mod-mod (r.next + 1) (length b) ∙ ap (λ k. k % length b) (omega arith) in
      let from : s + length b - r.count ≡ s = omega arith in
      rw (
        from,
        full,
        reads-set b s m r.next p next_in small at_end,
        reads_cong b s _ m w.valid.nonempty same,
        front,
      )

  added-Holds :
      {r : Ring F} {h : List (MetricPoint F)} (p : MetricPoint F)
      → Holds r h
      → Holds (added r p) (push (length r.points) h p)
  added-Holds {r} {h} p w = elim (Bool-cases (ltb r.count (length r.points))) [
    | inl small ↦
        let none_out : length h + 1 - length r.points ≡ 0 = ground arith in
        let one_more : r.count + 1 ≡ suc r.count = omega arith in
        record {
          valid = added-IsValid p w.valid;
          window = rw (none_out, small, length-added r p, one_more, grown p w (ground arith));
          size = rw (none_out, small, length-append h (p ∷ [])) (omega arith);
        }
    | inr big ↦
        let full : r.count ≡ length r.points = ground arith in
        let one_out : length h + 1 - length r.points ≡ 1 = ground arith in
        let e : r.count ≡ suc (r.count - 1) = ground arith in
        record {
          valid = added-IsValid p w.valid;
          window = rw (
            one_out,
            drop_front h p (omega arith),
            big,
            length-added r p,
            rolled p (r.count - 1) w e (sym full ∙ e),
          );
          size =
              rw (one_out, big, length-drop 1 (h ++ p ∷ []), length-append h (p ∷ []))
                (omega arith);
        }
  ]

  -- `add` keeps the ring valid at the same size, and appends the point to the history, of which
  -- the newest points stay.
  pub add-Holds :
      {r : Ring F} {h : List (MetricPoint F)} (p : MetricPoint F)
      → Holds r h
      → (r' : Ring F) × (add r p ≡ some r')
        × Holds r' (push (length r.points) h p)
        × (length r'.points ≡ length r.points)
  unfolding add
  add-Holds {r} {h} p w = (added r p, add-added p w.valid, added-Holds p w, length-added r p)

  since_loop-map :
      (cut : ℕ) (ps : List (MetricPoint F))
      → since_loop cut ps ≡ map history_point (keep (λ p. leb cut p.t) ps)
  unfolding since_loop
  since_loop-map cut [] = refl
  since_loop-map cut (p ∷ ps) = ground (arith, since_loop-map cut ps)

  -- `Since` returns the points that are not before the cut, in order.
  pub since-Holds :
      {r : Ring F} {h : List (MetricPoint F)} (cut : ℕ)
      → Holds r h
      → since r cut ≡ some (map history_point (keep (λ p. leb cut p.t) h))
  unfolding since
  since-Holds {r} {h} cut w = rw (all-Holds w, since_loop-map cut h)
