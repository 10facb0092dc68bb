-- ===== src/Ring/Contents.antt =====
-- The points that a ring holds, read round the buffer from any index.
use native.Mathlib.Nat.{mod-add-mod}
use nodelume.Prelude.{
  ℕ, zero, suc, ◌+◌, ◌-◌, ◌%◌, ◌≤◌, ◌<◌, ◌≡◌, ◌≢◌, refl, ap, ◌∙◌, sym, List, [], ◌∷◌, ◌++◌, Option,
  some, arith, length, get_elem?, set, drop, length-set,
}
use nodelume.Ring.{MetricPoint, Ring, ◌>>=◌, collect}

add_mod_lt : (k n : ℕ) → 0 < n → k % n < n
add_mod_lt k n h = grind arith

-- Fewer than `n` steps round do not come back to where they began.
add-mod-ne : (s k n : ℕ) → 0 < k → k < n → (s + k) % n ≢ s % n
add-mod-ne s k n p q = grind arith

module _ {A : Type 0} where
  pub get_elem?_total : (xs : List A) (i : ℕ) → i < length xs → (a : A) × (get_elem? xs i ≡ some a)
  get_elem?_total [] i h = absurd (omega arith)
  get_elem?_total (x ∷ xs) zero h = (x, refl)
  get_elem?_total (x ∷ xs) (suc i) h = get_elem?_total xs i (omega arith)

  pub get_elem?-set_self :
      (xs : List A) (i : ℕ) (v : A) → i < length xs → get_elem? (set xs i v) i ≡ some v
  get_elem?-set_self [] i v h = absurd (omega arith)
  get_elem?-set_self (x ∷ xs) zero v h = refl
  get_elem?-set_self (x ∷ xs) (suc i) v h = get_elem?-set_self xs i v (omega arith)

  pub get_elem?-set_ne :
      (xs : List A) (i j : ℕ) (v : A) → i ≢ j → get_elem? (set xs i v) j ≡ get_elem? xs j
  get_elem?-set_ne [] i j v h = refl
  get_elem?-set_ne (x ∷ xs) zero zero v h = absurd (h refl)
  get_elem?-set_ne (x ∷ xs) zero (suc j) v h = refl
  get_elem?-set_ne (x ∷ xs) (suc i) zero v h = refl
  get_elem?-set_ne (x ∷ xs) (suc i) (suc j) v h = get_elem?-set_ne xs i j v (λ e. h (ap suc e))

  -- The `n` points from index `s` on, going round at the end of the buffer.
  abbrev pub reads : List A → ℕ → ℕ → Option (List A)
  reads b s zero = some []
  reads b s (suc n) = do p ← get_elem? b (s % length b); rest ← reads b (s + 1) n; some (p ∷ rest)

  pub reads_total :
      (b : List A) (s n : ℕ)
      → 0 < length b
      → (xs : List A) × (reads b s n ≡ some xs) × (length xs ≡ n)
  reads_total b s zero h = ([], refl, refl)
  reads_total b s (suc n) h =
      let (x, e) = get_elem?_total b (s % length b) (add_mod_lt s (length b) h) in
      let (xs, f, l) = reads_total b (s + 1) n h in (x ∷ xs, rw (e, f), ap suc l)

  -- Only the place in the buffer matters.
  pub reads_cong :
      (b : List A) (s t n : ℕ)
      → 0 < length b
      → s % length b ≡ t % length b
      → reads b s n ≡ reads b t n
  reads_cong b s t zero h e = refl
  reads_cong b s t (suc n) h e =
      let f : (s + 1) % length b ≡ (t + 1) % length b =
        sym (mod-add-mod s (length b) 1)
        ∙ ap (λ k. (k + 1) % length b) e
        ∙ mod-add-mod t (length b) 1 in
      rw (e, reads_cong b (s + 1) (t + 1) n h f)

  -- Writing just past the points appends the new one.
  pub reads-set :
      (b : List A) (s n i : ℕ) (p : A)
      → i < length b
      → n < length b
      → (s + n) % length b ≡ i
      → reads (set b i p) s (suc n) ≡ (do xs ← reads b s n; some (xs ++ p ∷ []))
  reads-set b s zero i p hi hn e =
      let e' : s % length b ≡ i = ap (λ k. k % length b) (omega arith) ∙ e in
      rw (length-set b i p, e', get_elem?-set_self b i p hi)
  reads-set b s (suc n) i p hi hn e =
      let d : i ≢ s % length b = rw (← e) (add-mod-ne s (suc n) (length b) (omega arith) hn) in
      let e' : (s + 1 + n) % length b ≡ i = ap (λ k. k % length b) (omega arith) ∙ e in
      ground (
        arith,
        length-set b i p,
        get_elem?-set_ne b i (s % length b) p d,
        reads-set b (s + 1) n i p hi (omega arith) e',
      )

  -- All but the first of the points.
  pub reads-drop :
      (b : List A) (s n : ℕ) (xs : List A)
      → reads b s (suc n) ≡ some xs
      → reads b (s + 1) n ≡ some (drop 1 xs)
  reads-drop b s n xs h = ground arith

module _ {F : Type 0} where
  -- The ring's indices lie in its buffer, and the buffer is not empty.
  pub record IsValid (r : Ring F) : Type 0 where
    pub nonempty : 0 < length r.points
    pub next_in : r.next < length r.points
    pub count_in : r.count ≤ length r.points

  -- `Holds r h`: the ring holds the points `h`, the oldest first.
  pub record Holds (r : Ring F) (h : List (MetricPoint F)) : Type 0 where
    pub valid : IsValid r
    pub window : reads r.points (r.next + length r.points - r.count) r.count ≡ some h
    pub size : length h ≡ r.count

  pub collect-reads : (b : List (MetricPoint F)) (s i n : ℕ) → collect b s i n ≡ reads b (s + i) n
  unfolding collect
  collect-reads b s i zero = refl
  collect-reads b s i (suc n) =
      let e : s + (i + 1) ≡ s + i + 1 = omega arith in rw (collect-reads b s (i + 1) n, e)
