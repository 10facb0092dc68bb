-- ===== src/Version/Order.antt =====
-- `compareVersion` is a total order on the parsed versions.
use nodelume.Prelude.{◌≡◌, ap, ◌∙◌, sym, ◌↔◌, arith, Bytes}
use nodelume.Prelude.Int.{ℤ, pos, negsuc}
use nodelume.Version.{Triple, parse_version, compare_part, compare_triple, compare_version}

part-lt :
    (x y r s : ℤ)
    → (r ≡ negsuc 0 → s ≡ pos 1)
    → compare_part x y r ≡ negsuc 0
    → compare_part y x s ≡ pos 1
unfolding compare_part
part-lt x y r s f h = ground (arith, f)

part-gt :
    (x y r s : ℤ)
    → (r ≡ pos 1 → s ≡ negsuc 0)
    → compare_part x y r ≡ pos 1
    → compare_part y x s ≡ negsuc 0
unfolding compare_part
part-gt x y r s f h = ground (arith, f)

part-eq : (x y r : ℤ) → compare_part x y r ≡ pos 0 → (x ≡ y) × (r ≡ pos 0)
unfolding compare_part
part-eq x y r h = ground arith

part_same : (x r : ℤ) → compare_part x x r ≡ r
unfolding compare_part
part_same x r = ground arith

part_trans :
    (x y z r s t : ℤ)
    → (r ≡ negsuc 0 → s ≡ negsuc 0 → t ≡ negsuc 0)
    → compare_part x y r ≡ negsuc 0
    → compare_part y z s ≡ negsuc 0
    → compare_part x z t ≡ negsuc 0
unfolding compare_part
part_trans x y z r s t f h k = ground (arith, f)

-- A version is behind another exactly when that one is ahead of it.
pub compare_version-swap :
    (a b : Bytes) → (compare_version a b ≡ negsuc 0) ↔ (compare_version b a ≡ pos 1)
unfolding compare_triple compare_version
compare_version-swap a b =
    let x = parse_version a in
    let y = parse_version b in
    (
      part-lt x.major y.major _ _
          (part-lt x.minor y.minor _ _ (part-lt x.patch y.patch _ _ (λ e. cc))),
      part-gt y.major x.major _ _
          (part-gt y.minor x.minor _ _ (part-gt y.patch x.patch _ _ (λ e. cc))),
    )

-- Two versions compare as equal exactly when their three numbers agree.
pub compare_version-eq :
    (a b : Bytes) → (compare_version a b ≡ pos 0) ↔ (parse_version a ≡ parse_version b)
unfolding compare_triple compare_version
compare_version-eq a b =
    let x = parse_version a in
    let y = parse_version b in
    (
      (λ h.
          let (e, h1) = part-eq x.major y.major _ h in
          let (f, h2) = part-eq x.minor y.minor _ h1 in
          let (g, _) = part-eq x.patch y.patch _ h2 in
          λ i. record { major = e i; minor = f i; patch = g i }),
      (λ e.
          let same : (t : Triple) → compare_triple t t ≡ pos 0 = (λ t. simp part_same) in
          ap (compare_triple x) (sym e) ∙ same x),
    )

-- The order is transitive.
pub compare_version_trans :
    (a b c : Bytes)
    → compare_version a b ≡ negsuc 0
    → compare_version b c ≡ negsuc 0
    → compare_version a c ≡ negsuc 0
unfolding compare_triple compare_version
compare_version_trans a b c =
    let x = parse_version a in
    let y = parse_version b in
    let z = parse_version c in
    part_trans x.major y.major z.major _ _ _ (
      part_trans x.minor y.minor z.minor _ _ _
        (part_trans x.patch y.patch z.patch _ _ _ (λ e f. cc)))

-- One version is below another exactly when the other is above it, and two compare equal exactly
-- when they parse to the same three numbers.
pub compare_version_order :
    (a b : Bytes)
    → ((compare_version a b ≡ negsuc 0) ↔ (compare_version b a ≡ pos 1))
      × ((compare_version a b ≡ pos 0) ↔ (parse_version a ≡ parse_version b))
compare_version_order a b = (compare_version-swap a b, compare_version-eq a b)
