-- ===== src/Server/RateLimit/Window.antt =====
-- The rate limit holds over every window of 60 seconds.
use nodelume.Prelude.{
  ℕ, ◌≤◌, ◌≡◌, refl, ap, ◌∙◌, sym, Bool, true, false, List, [], ◌∷◌, ◌++◌, none, arith, Bytes,
  str_eq_refl, ◌&&◌, append_assoc, append-nil, length, length-append, keep, leb, if◌then◌else◌,
  Bool-cases, inl, inr,
}
use nodelume.Prelude.Map.{find, find-insert}
use nodelume.Server.State.{App}
use nodelume.Server.RateLimit.{rate_limit, is_recent, or_empty, admit, allow_enrollment}

-- Calls of one source at the given times, and the times of those that passed, in order.
unfoldable pub passed_times : {F : Type 0} → Bytes → List ℕ → App F → List ℕ
passed_times ip [] a = []
passed_times ip (now ∷ later) a =
    let (a', passed) = allow_enrollment now ip a in
    let rest = passed_times ip later a' in if passed then now ∷ rest else rest

-- The times do not go back.
abbrev pub Ascending : ℕ → List ℕ → Type 0
Ascending from [] = Unit
Ascending from (t ∷ ts) = (from ≤ t) × Ascending t ts

-- The calls that count at a time.
abbrev pub recent : ℕ → List ℕ → List ℕ
recent now = keep (is_recent now)

keep-append : (p : ℕ → Bool) (xs ys : List ℕ) → keep p (xs ++ ys) ≡ keep p xs ++ keep p ys
keep-append p [] ys = refl
keep-append p (x ∷ xs) ys = ground (arith, keep-append p xs ys)

-- What is recent later was recent before.
recent-recent : (s t : ℕ) (xs : List ℕ) → s ≤ t → recent t (recent s xs) ≡ recent t xs
recent-recent s t [] h = refl
recent-recent s t (x ∷ xs) h = ground (arith, recent-recent s t xs)

-- The 60 seconds that end at a time.
abbrev pub in_window : ℕ → ℕ → Bool
in_window t x = is_recent t x && leb x t

window-le-recent :
    (t now : ℕ) (xs : List ℕ) → now ≤ t → length (keep (in_window t) xs) ≤ length (recent now xs)
window-le-recent t now [] h = omega arith
window-le-recent t now (x ∷ xs) h = ground (arith, window-le-recent t now xs)

abbrev times_of : {F : Type 0} → Bytes → App F → List ℕ
times_of ip a = or_empty (find ip a.enroll_rate)

times_of-allow :
    {F : Type 0} (now : ℕ) (ip : Bytes) (a : App F)
    → times_of ip (allow_enrollment now ip a).0 ≡ (admit now (times_of ip a)).0
unfolding allow_enrollment
times_of-allow now ip a = rw (find-insert, str_eq_refl)

-- What is in the window at `t` of the calls that passed, after one more call.
window_step :
    (t now : ℕ) (acc xs : List ℕ)
    → recent now xs ≡ recent now acc
    → length (keep (in_window t) acc) ≤ rate_limit
    → leb rate_limit (length (recent now xs)) ≡ false
    → length (keep (in_window t) (acc ++ now ∷ [])) ≤ rate_limit
window_step t now acc xs same bound few =
    let e = keep-append (in_window t) acc (now ∷ []) in
    let l = length-append (keep (in_window t) acc) (keep (in_window t) (now ∷ [])) in
    let m = ap length same in rw (e, l) (ground (arith, window-le-recent t now acc))

passed-allow :
    {F : Type 0} (now : ℕ) (ip : Bytes) (a : App F)
    → (allow_enrollment now ip a).1 ≡ (admit now (times_of ip a)).1
unfolding allow_enrollment
passed-allow now ip a = refl

admit_full :
    (now : ℕ) (xs : List ℕ)
    → leb rate_limit (length (recent now xs)) ≡ true
    → admit now xs ≡ (recent now xs, false)
unfolding admit
admit_full now xs h = rw h

admit_pass :
    (now : ℕ) (xs : List ℕ)
    → leb rate_limit (length (recent now xs)) ≡ false
    → admit now xs ≡ (recent now xs ++ now ∷ [], true)
unfolding admit
admit_pass now xs h = rw h

module _ {F : Type 0} (ip : Bytes) (t : ℕ) where
  window_bound :
      (from : ℕ) (ts acc : List ℕ) (a : App F)
      → Ascending from ts
      → recent from (times_of ip a) ≡ recent from acc
      → length (keep (in_window t) acc) ≤ rate_limit
      → length (keep (in_window t) (acc ++ passed_times ip ts a)) ≤ rate_limit
  unfolding passed_times
  window_bound from [] acc a _ same bound = rw append-nil bound
  window_bound from (now ∷ later) acc a (le, up) same bound =
      let xs = times_of ip a in
      let a' = (allow_enrollment now ip a).0 in
      let now_same : recent now xs ≡ recent now acc =
        sym (recent-recent from now xs le) ∙ ap (recent now) same ∙ recent-recent from now acc le in
      let twice : recent now (recent now xs) ≡ recent now acc =
        recent-recent now now xs (omega arith) ∙ now_same in
      elim (Bool-cases (leb rate_limit (length (recent now xs)))) [
        | inl full ↦
            let e = admit_full now xs full in
            let kept : times_of ip a' ≡ recent now xs = times_of-allow now ip a ∙ ap (λ w. w.0) e in
            rw (passed-allow now ip a, e)
              (window_bound now later acc a' up (ap (recent now) kept ∙ twice) bound)
        | inr few ↦
            let e = admit_pass now xs few in
            let kept : times_of ip a' ≡ recent now xs ++ now ∷ [] =
              times_of-allow now ip a ∙ ap (λ w. w.0) e in
            let grown : recent now (times_of ip a') ≡ recent now (acc ++ now ∷ []) =
              ap (recent now) kept
              ∙ keep-append (is_recent now) (recent now xs) (now ∷ [])
              ∙ ap (λ ys. ys ++ recent now (now ∷ [])) twice
              ∙ sym (keep-append (is_recent now) acc (now ∷ [])) in
            rw (passed-allow now ip a, e, ← append_assoc acc (now ∷ []) (passed_times ip later a'))
              (window_bound now later (acc ++ now ∷ []) a' up grown
                (window_step t now acc xs now_same bound few))
      ]

  -- However the calls of a source are spread, at most 20 of those in any 60 seconds pass.
  pub passed_times-in_window :
      (ts : List ℕ) (a : App F)
      → find ip a.enroll_rate ≡ none
      → Ascending 0 ts
      → length (keep (in_window t) (passed_times ip ts a)) ≤ rate_limit
  passed_times-in_window ts a fresh up = window_bound 0 ts [] a up (rw fresh) (omega arith)
