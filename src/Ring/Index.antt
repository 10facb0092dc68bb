-- ===== src/Ring/Index.antt =====
-- Indices that go round at the end of the buffer.

use native.Mathlib.Nat.{add-mod_right, mod_self, mod-eq_of_lt}
use native.Mathlib.Decide.{dec_lt}
use nodelume.Prelude.{ℕ, suc, ◌+◌, ◌-◌, ◌%◌, ◌<◌, ◌≡◌, ◌⊎◌, inl, inr, ap, ◌∙◌, arith}

-- The next index, before the end of the buffer and at it.
next-cases :
    (n l : ℕ) → n < l → (((n + 1) % l ≡ n + 1) × (n + 1 < l)) ⊎ (((n + 1) % l ≡ 0) × (n + 1 ≡ l))
next-cases n l h = elim (dec_lt (n + 1) l) [
  | yes q ↦ inl (mod-eq_of_lt q, q)
  | no q ↦ let e : n + 1 ≡ l = omega arith in inr (ap (λ k. k % l) e ∙ mod_self l, e)
]

-- The point behind the newest one stands at the next index.
pub end_mod : (n c l : ℕ) → n < l → c < l → ((n + 1) % l + l - suc c + c) % l ≡ n
end_mod n c l h k = elim (next-cases n l h) [
  | inl (e, q) ↦ ap (λ k. k % l) (omega arith) ∙ add-mod_right n l ∙ mod-eq_of_lt h
  | inr (e, q) ↦ ap (λ k. k % l) (omega arith) ∙ mod-eq_of_lt h
]

-- The oldest point stays in its place while the ring grows.
pub start_mod : (n c l : ℕ) → n < l → c < l → ((n + 1) % l + l - suc c) % l ≡ (n + l - c) % l
start_mod n c l h k = elim (next-cases n l h) [
  | inl (e, q) ↦ ap (λ k. k % l) (omega arith)
  | inr (e, q) ↦
      let f : (n + 1) % l + l - suc c ≡ l - suc c = omega arith in
      let g : n + l - c ≡ l - suc c + l = omega arith in rw (f, g, add-mod_right)
]
