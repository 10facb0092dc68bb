-- ===== src/Ring.antt =====
-- server/main.go, `Ring`: the fixed-capacity metric history of a node, a circular buffer of
-- `MetricPoint`s. An index out of range is a panic in Go: `none` here.
mod Index
pub mod Contents
pub mod Spec
pub mod History
use nodelume.Prelude.{
  ℕ, zero, suc, ◌+◌, ◌-◌, ◌%◌, Bool, true, false, List, [], ◌∷◌, ◌++◌, Option, none, some, ltb, leb,
  ◌==◌, if◌then◌else◌, length, get_elem?, set, replicate,
}

-- `MetricPoint`, over the type of its `float32` readings.
pub record MetricPoint (F : Type 0) : Type 0 where
  pub t : ℕ
  pub cpu : F
  pub memory : F
  pub disk : F
  pub temp : F
  pub load1 : F
  pub net_in : F
  pub net_out : F
  pub temp_valid : Bool

-- `HistoryPoint`; the pointer `Temperature` is nil or holds a reading.
pub record HistoryPoint (F : Type 0) : Type 0 where
  pub t : ℕ
  pub cpu : F
  pub memory : F
  pub disk : F
  pub temperature : Option F
  pub load1 : F
  pub net_in : F
  pub net_out : F

pub record Ring (F : Type 0) : Type 0 where
  pub points : List (MetricPoint F)
  pub next : ℕ
  pub count : ℕ

abbrev pub history_capacity : ℕ
history_capacity = 720

infixl 5 ◌>>=◌
abbrev pub ◌>>=◌ {ℓ κ} : {A : Type ℓ} {B : Type κ} → Option A → (A → Option B) → Option B
none >>= f = none
some a >>= f = f a

module _ {F : Type 0} where
  -- `make` fills the slice with the zero value of the point.
  unfoldable pub new_ring : MetricPoint F → ℕ → Ring F
  new_ring blank n = record { points = replicate n blank; next = 0; count = 0 }

  abbrev in_range : List (MetricPoint F) → ℕ → Bool
  in_range points i = ltb i (length points)

  -- The write `r.points[r.next] = p` panics when the index is out of range.
  unfoldable pub add : Ring F → MetricPoint F → Option (Ring F)
  add r p =
      if length r.points == 0
      then some r
      else if in_range r.points r.next
      then some (record {
        points = set r.points r.next p;
        next = (r.next + 1) % length r.points;
        count = if ltb r.count (length r.points) then r.count + 1 else r.count;
      })
      else none

  -- The loop of `all`: `n` rounds are left, from `i` on.
  unfoldable pub collect : List (MetricPoint F) → ℕ → ℕ → ℕ → Option (List (MetricPoint F))
  collect points start i zero = some []
  collect points start i (suc n) = do
    p ← get_elem? points ((start + i) % length points)
    rest ← collect points start (i + 1) n
    some (p ∷ rest)

  -- `next - count`, and the length more where that is negative.
  unfoldable pub all : Ring F → Option (List (MetricPoint F))
  all r =
      let start =
        if ltb r.next r.count then r.next + length r.points - r.count else r.next - r.count in
      collect r.points start 0 r.count

  unfoldable pub history_point : MetricPoint F → HistoryPoint F
  history_point p = record {
    t = p.t;
    cpu = p.cpu;
    memory = p.memory;
    disk = p.disk;
    temperature = if p.temp_valid then some p.temp else none;
    load1 = p.load1;
    net_in = p.net_in;
    net_out = p.net_out;
  }

  -- The loop of `Since`, which skips the points before the cut.
  unfoldable pub since_loop : ℕ → List (MetricPoint F) → List (HistoryPoint F)
  since_loop cut [] = []
  since_loop cut (p ∷ ps) =
      let rest = since_loop cut ps in if ltb p.t cut then rest else history_point p ∷ rest

  unfoldable pub since : Ring F → ℕ → Option (List (HistoryPoint F))
  since r cut = do ps ← all r; some (since_loop cut ps)

  -- The loop of `Prune`, which adds the points that stay.
  unfoldable pub readd : ℕ → Ring F → List (MetricPoint F) → Option (Ring F)
  readd cut r [] = some r
  readd cut r (p ∷ ps) = do r' ← if leb cut p.t then add r p else some r; readd cut r' ps

  unfoldable pub prune : Ring F → ℕ → Option (Ring F)
  prune r cut = do old ← all r; readd cut (record r { next = 0; count = 0 }) old
