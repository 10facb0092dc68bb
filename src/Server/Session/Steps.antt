-- ===== src/Server/Session/Steps.antt =====
-- What a login does to the failures of a source and to the password.
use nodelume.Prelude.{
  ◌≡◌, ◌⊎◌, refl, ap, ◌∙◌, arith, true, false, Option, none, some, Bytes, str_eq, str_eq_refl,
  is_empty, inl, inr,
}
use nodelume.Prelude.Map.{find, find-insert, find-delete}
use nodelume.Server.State.{App, LoginFail, audit_locked}
use nodelume.Server.Password.{check_password}
use nodelume.Server.Session.{
  Context, Begin, fail_of, count_fail, banned_reply, login_begin, login_fail, login_success,
  login_end, login,
}

fail_of_lem :
    {F : Type 0} (ip : Bytes) (a b : App F)
    → find ip a.login_fails ≡ find ip b.login_fails
    → fail_of ip a ≡ fail_of ip b
unfolding fail_of
fail_of_lem ip a b e = rw (e, fail_of)

fail_of-some :
    {F : Type 0} (ip : Bytes) (a : App F) (f : LoginFail)
    → find ip a.login_fails ≡ some f
    → fail_of ip a ≡ f
unfolding fail_of
fail_of-some ip a f e = rw (e, fail_of)

-- A wrong password counts for its source alone.
pub login_fail-own :
    {F : Type 0} (c : Context) (a : App F)
    → fail_of c.ip (login_fail c a).0 ≡ count_fail (fail_of c.ip a)
unfolding login_fail audit_locked
login_fail-own c a =
    fail_of-some c.ip (login_fail c a).0 (count_fail (fail_of c.ip a))
      (rw (find-insert, str_eq_refl))

login_fail-other :
    {F : Type 0} (c : Context) (a : App F) (ip : Bytes)
    → str_eq c.ip ip ≡ false
    → fail_of ip (login_fail c a).0 ≡ fail_of ip a
unfolding login_fail audit_locked
login_fail-other c a ip h = fail_of_lem ip (login_fail c a).0 a (rw (find-insert, h))

login_success-other :
    {F : Type 0} (c : Context) (a : App F) (ip : Bytes)
    → str_eq c.ip ip ≡ false
    → fail_of ip (login_success c a).0 ≡ fail_of ip a
unfolding login_success audit_locked
login_success-other c a ip h = fail_of_lem ip (login_success c a).0 a (rw (find-delete, h))

password-login_fail :
    {F : Type 0} (c : Context) (a : App F) → (login_fail c a).0.state.password ≡ a.state.password
unfolding login_fail audit_locked
password-login_fail c a = refl

password-login_success :
    {F : Type 0} (c : Context) (a : App F) → (login_success c a).0.state.password ≡ a.state.password
unfolding login_success audit_locked
password-login_success c a = refl

module _ (mac : Bytes → Bytes → Bytes) {F : Type 0} where
  -- What a login makes of the state.
  login-cases :
      (input : Option Bytes) (c : Context) (a : App F)
      → ((login mac input c a).0 ≡ a)
        ⊎ (((login mac input c a).0 ≡ (login_fail c a).0)
            ⊎ ((login mac input c a).0 ≡ (login_success c a).0))
  unfolding login login_begin login_end
  login-cases none c a = inl (ground arith)
  login-cases (some pass) c a = ground arith

  pub password-login :
      (input : Option Bytes) (c : Context) (a : App F)
      → (login mac input c a).0.state.password ≡ a.state.password
  password-login input c a = elim (login-cases input c a) [
    | inl same ↦ ap (λ b. b.state.password) same
    | inr (inl e) ↦ ap (λ b. b.state.password) e ∙ password-login_fail c a
    | inr (inr e) ↦ ap (λ b. b.state.password) e ∙ password-login_success c a
  ]

  pub login-other :
      (input : Option Bytes) (c : Context) (a : App F) (ip : Bytes)
      → str_eq c.ip ip ≡ false
      → fail_of ip (login mac input c a).0 ≡ fail_of ip a
  login-other input c a ip h = elim (login-cases input c a) [
    | inl same ↦ ap (fail_of ip) same
    | inr (inl e) ↦ ap (fail_of ip) e ∙ login_fail-other c a ip h
    | inr (inr e) ↦ ap (fail_of ip) e ∙ login_success-other c a ip h
  ]

  pub begin_checking :
      (ip : Bytes) (a : App F)
      → is_empty a.state.password.hash ≡ false
      → (fail_of ip a).banned ≡ false
      → login_begin ip a ≡ Begin.checking a.state.password
  unfolding login_begin
  begin_checking ip a ready free = ground arith

  begin_banned :
      (ip : Bytes) (a : App F)
      → is_empty a.state.password.hash ≡ false
      → (fail_of ip a).banned ≡ true
      → login_begin ip a ≡ Begin.refused banned_reply
  unfolding login_begin
  begin_banned ip a ready banned = ground arith

  pub login_wrong :
      (pass : Bytes) (c : Context) (a : App F)
      → is_empty a.state.password.hash ≡ false
      → (fail_of c.ip a).banned ≡ false
      → check_password mac pass a.state.password ≡ false
      → login mac (some pass) c a ≡ login_fail c a
  unfolding login login_end
  login_wrong pass c a ready free wrong = rw (begin_checking c.ip a ready free, wrong, login)

  pub login_banned :
      (input : Option Bytes) (c : Context) (a : App F)
      → is_empty a.state.password.hash ≡ false
      → (fail_of c.ip a).banned ≡ true
      → login mac input c a ≡ (a, banned_reply)
  unfolding login
  login_banned input c a ready banned = rw (begin_banned c.ip a ready banned, login)

  pub login_right :
      (pass : Bytes) (c : Context) (a : App F)
      → is_empty a.state.password.hash ≡ false
      → (fail_of c.ip a).banned ≡ false
      → check_password mac pass a.state.password ≡ true
      → login mac (some pass) c a ≡ login_success c a
  unfolding login login_end
  login_right pass c a ready free right = rw (begin_checking c.ip a ready free, right, login)
