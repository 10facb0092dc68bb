-- ===== src/Tests/History.antt =====
-- A ring of three points.
use nodelume.Prelude.{ℕ, ◌≡◌, refl, false, List, [], ◌∷◌, some, arith, length, keep, leb, map}
use nodelume.Ring.{
  MetricPoint, Ring, new_ring, add, collect, all, history_point, since_loop, since, readd, prune,
}
use nodelume.Ring.Contents.{Holds}
use nodelume.Ring.Spec.{push, add-Holds, since-Holds}
use nodelume.Ring.History.{add_all, last, all-add_all, prune-Holds}

program : Unit {0}
unfolding new_ring add collect all history_point since_loop since readd prune add_all
program = tt

abbrev at_time : ℕ → MetricPoint ℕ
at_time t = record {
  t = t;
  cpu = t;
  memory = 0;
  disk = 0;
  temp = 0;
  load1 = 0;
  net_in = 0;
  net_out = 0;
  temp_valid = false;
}

-- Four points went in: the first place holds the newest.
abbrev wrapped : Ring ℕ
wrapped = record { points = at_time 4 ∷ at_time 2 ∷ at_time 3 ∷ []; next = 1; count = 3 }

abbrev held : List (MetricPoint ℕ)
held = at_time 2 ∷ at_time 3 ∷ at_time 4 ∷ []

wrapped-Holds : Holds wrapped held
wrapped-Holds = record { valid = omega arith; window = refl; size = refl }

of_wrapped : all wrapped ≡ some held
unfolding program
of_wrapped = refl

from_three : since wrapped 3 ≡ some (map history_point (at_time 3 ∷ at_time 4 ∷ []))
unfolding program
from_three = refl

add-Holds_example :
    (r : Ring ℕ) × (add wrapped (at_time 5) ≡ some r)
    × Holds r (push 3 held (at_time 5))
    × (length r.points ≡ 3)
add-Holds_example = add-Holds (at_time 5) wrapped-Holds

since-Holds_example : since wrapped 3 ≡ some (map history_point (keep (λ p. leb 3 p.t) held))
since-Holds_example = since-Holds 3 wrapped-Holds

all-add_all_example :
    (r : Ring ℕ) × (add_all (new_ring (at_time 0) 3) (at_time 1 ∷ held) ≡ some r)
    × (all r ≡ some (last 3 (at_time 1 ∷ held)))
all-add_all_example = all-add_all (at_time 0) 3 (at_time 1 ∷ held) (omega arith)

prune-Holds_example :
    (r : Ring ℕ) × (prune wrapped 3 ≡ some r)
    × Holds r (keep (λ p. leb 3 p.t) held)
    × (length r.points ≡ 3)
prune-Holds_example = prune-Holds 3 wrapped-Holds
