-- ===== src/Server/Session/Ban.antt =====
-- Three wrong passwords ban a source, until an attempt that was under way succeeds.
use mathlib.Core.Path.{subst}
use nodelume.Prelude.{
  ℕ, ◌+◌, ◌≤◌, ◌≡◌, refl, ap, ◌∙◌, sym, arith, true, false, List, [], ◌∷◌, Option, none, some,
  Bytes, str_eq, str_eq_iff, str_eq_refl, is_empty, leb, min, if◌then◌else◌, Bool-cases, inl, inr,
}
use nodelume.Prelude.Map.{find, find-delete}
use nodelume.Server.State.{App, PasswordRecord, LoginFail, Reply, audit_locked}
use nodelume.Server.Password.{check_password}
use nodelume.Server.Session.{
  Begin, login_begin, Context, fail_of, count_fail, banned_reply, login_success, login_end, login,
}
use nodelume.Server.Session.Steps.{
  begin_checking, login_fail-own, password-login, login-other, login_wrong, login_banned,
}

-- How many of them come from a source.
abbrev pub tries_of : Bytes → List (Option Bytes × Context) → ℕ
tries_of ip [] = 0
tries_of ip ((_, c) ∷ rest) = (if str_eq c.ip ip then 1 else 0) + tries_of ip rest

-- Those of the source have a wrong password.
abbrev pub AllWrong :
    (Bytes → Bytes → Bytes) → Bytes → PasswordRecord → List (Option Bytes × Context) → Type 0
AllWrong mac ip rec [] = Unit
AllWrong mac ip rec ((input, c) ∷ rest) =
    (str_eq c.ip ip ≡ true
      → (pass : Bytes) × (input ≡ some pass) × (check_password mac pass rec ≡ false))
    × AllWrong mac ip rec rest

-- After `n` failures.
abbrev Counted : ℕ → LoginFail → Type 0
Counted n f = (f.count ≡ min n 3) × (f.banned ≡ leb 3 n)

count_fail-Counted :
    (n : ℕ) (f : LoginFail) → Counted n f → leb 3 n ≡ false → Counted (n + 1) (count_fail f)
unfolding count_fail
count_fail-Counted n f (e, b) few = ground arith

module _ (mac : Bytes → Bytes → Bytes) {F : Type 0} where
  -- Logins one after the other.
  unfoldable pub serve_logins : List (Option Bytes × Context) → App F → App F
  serve_logins [] a = a
  serve_logins ((input, c) ∷ rest) a = serve_logins rest (login mac input c a).0

  login-Counted :
      (pass : Bytes) (c : Context) (a : App F) (n : ℕ)
      → is_empty a.state.password.hash ≡ false
      → check_password mac pass a.state.password ≡ false
      → Counted n (fail_of c.ip a)
      → Counted (n + 1) (fail_of c.ip (login mac (some pass) c a).0)
  login-Counted pass c a n ready wrong (e, b) = elim (Bool-cases (leb 3 n)) [
    | inl many ↦
        let same = ap (λ w. w.0) (login_banned mac (some pass) c a ready (b ∙ many)) in
        subst (λ x. Counted (n + 1) (fail_of c.ip x)) (sym same) (ground arith, ground arith)
    | inr few ↦
        let same =
          ap (λ w. fail_of c.ip w.0) (login_wrong mac pass c a ready (b ∙ few) wrong)
          ∙ login_fail-own c a in
        subst (Counted (n + 1)) (sym same) (count_fail-Counted n (fail_of c.ip a) (e, b) few)
  ]

  -- The state after one login, for a source whose attempts are wrong.
  step-Counted :
      (input : Option Bytes) (c : Context) (a : App F) (ip : Bytes) (n : ℕ)
      → is_empty a.state.password.hash ≡ false
      → (str_eq c.ip ip ≡ true
          → (pass : Bytes) × (input ≡ some pass)
            × (check_password mac pass a.state.password ≡ false))
      → Counted n (fail_of ip a)
      → Counted (n + (if str_eq c.ip ip then 1 else 0)) (fail_of ip (login mac input c a).0)
  step-Counted input c a ip n ready wrong counted = elim (Bool-cases (str_eq c.ip ip)) [
    | inl own ↦
        let (pass, e, w) = wrong own in
        let same : c.ip ≡ ip = (str_eq_iff c.ip ip).0 own in
        let counted' = subst (λ x. Counted n (fail_of x a)) (sym same) counted in
        let after = login-Counted pass c a n ready w counted' in
        rw own (
          subst (λ x. Counted (n + 1) (fail_of x (login mac input c a).0)) same
            (subst (λ x. Counted (n + 1) (fail_of c.ip (login mac x c a).0)) (sym e) after))
    | inr other ↦
        let same = login-other mac input c a ip other in
        rw other (subst (λ f. Counted (n + 0) f) (sym same) (ground arith, ground arith))
  ]

  serve_logins-Counted :
      (attempts : List (Option Bytes × Context)) (a : App F) (ip : Bytes) (n : ℕ)
      → is_empty a.state.password.hash ≡ false
      → AllWrong mac ip a.state.password attempts
      → Counted n (fail_of ip a)
      → Counted (n + tries_of ip attempts) (fail_of ip (serve_logins attempts a))
        × ((serve_logins attempts a).state.password ≡ a.state.password)
  unfolding serve_logins
  serve_logins-Counted [] a ip n ready _ counted = ((ground arith, ground arith), refl)
  serve_logins-Counted ((input, c) ∷ rest) a ip n ready (wrong, more) counted =
      let a' = (login mac input c a).0 in
      let kept = password-login mac input c a in
      let k = if str_eq c.ip ip then 1 else 0 in
      let (last, same) =
        serve_logins-Counted rest a' ip (n + k) (ap (λ p. is_empty p.hash) kept ∙ ready)
          (subst (λ p. AllWrong mac ip p rest) (sym kept) more)
          (step-Counted input c a ip n ready wrong counted) in
      let sums : n + k + tries_of ip rest ≡ n + (k + tries_of ip rest) = omega arith in
      (subst (λ m. Counted m (fail_of ip (serve_logins rest a'))) sums last, same ∙ kept)

  -- After three wrong attempts or more.
  serve_logins-banned :
      (attempts : List (Option Bytes × Context)) (a : App F) (ip : Bytes)
      → is_empty a.state.password.hash ≡ false
      → find ip a.login_fails ≡ none
      → AllWrong mac ip a.state.password attempts
      → 3 ≤ tries_of ip attempts
      → ((fail_of ip (serve_logins attempts a)).banned ≡ true)
        × ((serve_logins attempts a).state.password ≡ a.state.password)
  unfolding fail_of
  serve_logins-banned attempts a ip ready none_yet wrong many =
      let fresh : fail_of ip a ≡ record { count = 0; banned = false } = rw (none_yet, fail_of) in
      let zero : Counted 0 (fail_of ip a) =
        subst (Counted 0) (sym fresh) (ground arith, ground arith) in
      let ((_, banned), same) = serve_logins-Counted attempts a ip 0 ready wrong zero in
      let yes : leb 3 (0 + tries_of ip attempts) ≡ true = ground arith in (banned ∙ yes, same)

  -- When a source that had no failures has made three attempts or more, all with a wrong password,
  -- every later attempt of it is refused, the right password or not, and changes nothing, whatever
  -- logins of other sources were served meanwhile, one after the other.
  pub login_ban :
      (attempts : List (Option Bytes × Context)) (a : App F) (input : Option Bytes) (c : Context)
      → is_empty a.state.password.hash ≡ false
      → find c.ip a.login_fails ≡ none
      → AllWrong mac c.ip a.state.password attempts
      → 3 ≤ tries_of c.ip attempts
      → login mac input c (serve_logins attempts a) ≡ (serve_logins attempts a, banned_reply)
  login_ban attempts a input c ready none_yet wrong many =
      let (banned, same) = serve_logins-banned attempts a c.ip ready none_yet wrong many in
      login_banned mac input c (serve_logins attempts a) (ap (λ p. is_empty p.hash) same ∙ ready)
        banned

  -- What the right password leaves, whatever was counted before.
  login_end-right :
      (rec : PasswordRecord) (pass : Bytes) (c : Context) (a : App F)
      → check_password mac pass rec ≡ true
      → ((login_end mac rec (some pass) c a).1 ≡ Reply.ok 200 (c.session_id, c.csrf))
        × (find c.ip (login_end mac rec (some pass) c a).0.login_fails ≡ none)
        × ((login_end mac rec (some pass) c a).0.state.password ≡ a.state.password)
  unfolding login_end login_success audit_locked
  login_end-right rec pass c a right = rw right (refl, rw (find-delete, str_eq_refl), refl)

  fail_of-none :
      (ip : Bytes) (a : App F) → find ip a.login_fails ≡ none → (fail_of ip a).banned ≡ false
  unfolding fail_of
  fail_of-none ip a gone = rw (gone, fail_of) refl

  -- An attempt with the right password begins at a source without failures, and before it ends three
  -- wrong attempts of that source or more are served, among any of other sources. A new attempt is
  -- then refused, also with the right password; the one under way still ends with a session, and
  -- after it a new one of the source begins as if nothing had failed.
  pub login_end-lifts :
      (attempts : List (Option Bytes × Context)) (pass : Bytes) (c : Context) (a : App F)
      → is_empty a.state.password.hash ≡ false
      → find c.ip a.login_fails ≡ none
      → AllWrong mac c.ip a.state.password attempts
      → 3 ≤ tries_of c.ip attempts
      → check_password mac pass a.state.password ≡ true
      → (rec : PasswordRecord) × (login_begin c.ip a ≡ Begin.checking rec)
        × (login mac (some pass) c (serve_logins attempts a)
            ≡ (serve_logins attempts a, banned_reply))
        × ((login_end mac rec (some pass) c (serve_logins attempts a)).1
            ≡ Reply.ok 200 (c.session_id, c.csrf))
        × (login_begin c.ip (login_end mac rec (some pass) c (serve_logins attempts a)).0
            ≡ Begin.checking rec)
  login_end-lifts attempts pass c a ready none_yet wrong many right =
      let b = serve_logins attempts a in
      let rec = a.state.password in
      let (_, kept) = serve_logins-banned attempts a c.ip ready none_yet wrong many in
      let (ok, lifted, same) = login_end-right rec pass c b right in
      let d = (login_end mac rec (some pass) c b).0 in
      (
        rec,
        begin_checking mac c.ip a ready (fail_of-none c.ip a none_yet),
        login_ban attempts a (some pass) c ready none_yet wrong many,
        ok,
        begin_checking mac c.ip d (ap (λ p. is_empty p.hash) (same ∙ kept) ∙ ready)
              (fail_of-none c.ip d lifted)
            ∙ ap Begin.checking (same ∙ kept),
      )
