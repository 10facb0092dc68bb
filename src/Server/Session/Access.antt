-- ===== src/Server/Session/Access.antt =====
-- Who passes: sessions, from login to logout.
use nodelume.Prelude.{
  ◌≢◌, ℕ, ◌+◌, ◌*◌, ◌≡◌, ◌⊎◌, refl, ap, ◌∙◌, sym, arith, true, false, Option, none, some, Bytes,
  text, str_eq, str_eq_iff, str_eq_refl, is_empty, ltb, if◌then◌else◌, Bool-cases, Option-cases,
  inl, inr,
}
use nodelume.Prelude.Map.{find, find-insert, find-delete}
use nodelume.Server.State.{App, PasswordRecord, Session, Reply, second, audit_locked}
use nodelume.Server.Password.{check_password}
use nodelume.Server.Session.{
  csrf_next, Context, Begin, fail_of, login_begin, login_fail, login_success, login_end, login,
  logout, get_session, require_auth, require_auth_csrf,
}

get_session-some :
    {F : Type 0} (sid : Bytes) (t : ℕ) (a : App F) (s : Session)
    → find sid a.state.sessions ≡ some s
    → get_session (some sid) t a ≡ (if ltb s.expires t then none else some s)
unfolding get_session
get_session-some sid t a s e = rw (e, get_session)

-- The session that a login opens.
abbrev pub opened : Context → Session
opened c = record { csrf = c.csrf; expires = c.now + 12 * 3600 * second }

get_session-login_success :
    {F : Type 0} (c : Context) (t : ℕ) (a : App F)
    → get_session (some c.session_id) t (login_success c a).0
      ≡ (if ltb (opened c).expires t then none else some (opened c))
unfolding login_success audit_locked
get_session-login_success c t a =
    get_session-some c.session_id t (login_success c a).0 (opened c) (rw (find-insert, str_eq_refl))

login_success-reply :
    {F : Type 0} (c : Context) (a : App F)
    → (login_success c a).1 ≡ Reply.ok 200 (c.session_id, c.csrf)
unfolding login_success
login_success-reply c a = refl

-- Logging out ends the session of the cookie and no other.
pub get_session-logout :
    {F : Type 0} (sid sid' : Bytes) (c : Context) (t : ℕ) (a : App F)
    → get_session (some sid') t (logout (some sid) c a).0
      ≡ (if str_eq sid sid' then none else get_session (some sid') t a)
unfolding logout audit_locked get_session
get_session-logout sid sid' c t a = ground (arith, find-delete sid' sid a.state.sessions)

csrf_next-same :
    {F : Type 0} {A : Type 0} (cookie : Option Bytes) (header : Bytes) (now : ℕ)
    (next : App F → App F × Reply A) (a : App F) (s : Session)
    → get_session cookie now a ≡ some s
    → str_eq header s.csrf ≡ true
    → csrf_next cookie header now next a ≡ next a
unfolding csrf_next
csrf_next-same cookie header now next a s live same = ground arith

csrf_next-other :
    {F : Type 0} {A : Type 0} (cookie : Option Bytes) (header : Bytes) (now : ℕ)
    (next : App F → App F × Reply A) (a : App F) (s : Session)
    → get_session cookie now a ≡ some s
    → str_eq header s.csrf ≡ false
    → csrf_next cookie header now next a ≡ (a, Reply.error (text "安全令牌无效，请刷新页面后重试") 403)
unfolding csrf_next
csrf_next-other cookie header now next a s live other = ground arith

-- A request behind the CSRF check meets one of three: its session is live and it carries the token
-- of that session, and then the handler runs; it has no live session, and the answer is 401; or its
-- session is live and it carries another token, and the answer is 403. A refusal changes nothing.
pub require_auth_csrf-cases :
    {F : Type 0} {A : Type 0} (cookie : Option Bytes) (header : Bytes) (now : ℕ)
    (next : App F → App F × Reply A) (a : App F)
    → ((s : Session) × (get_session cookie now a ≡ some s)
        × (header ≡ s.csrf)
        × (require_auth_csrf cookie header now next a ≡ next a))
      ⊎ (((get_session cookie now a ≡ none)
            × (require_auth_csrf cookie header now next a
                ≡ (a, Reply.error (text "登录状态已失效，请重新登录") 401)))
          ⊎ ((s : Session) × (get_session cookie now a ≡ some s)
              × (header ≢ s.csrf)
              × (require_auth_csrf cookie header now next a
                  ≡ (a, Reply.error (text "安全令牌无效，请刷新页面后重试") 403))))
unfolding require_auth_csrf require_auth
require_auth_csrf-cases cookie header now next a = elim (Option-cases (get_session cookie now a)) [
  | inl none_live ↦ inr (inl (none_live, rw (none_live, require_auth)))
  | inr (s, live) ↦ elim (Bool-cases (str_eq header s.csrf)) [
    | inl same ↦ inl (
      s,
      live,
      (str_eq_iff header s.csrf).0 same,
      rw (live, require_auth) (csrf_next-same cookie header now next a s live same),
    )
    | inr other ↦ inr (
        inr (
          s,
          live,
          (λ e. absurd (cc (sym other ∙ (str_eq_iff header s.csrf).1 e))),
          rw (live, require_auth) (csrf_next-other cookie header now next a s live other),
        ))
  ]
]

module _ (mac : Bytes → Bytes → Bytes) {F : Type 0} where
  login_end-ok :
      (input : Option Bytes) (c : Context) (a : App F) (rec : PasswordRecord) (status : ℕ)
      (x : Bytes × Bytes)
      → (login_end mac rec input c a).1 ≡ Reply.ok status x
      → (pass : Bytes) × (input ≡ some pass)
        × (check_password mac pass rec ≡ true)
        × (login_end mac rec input c a ≡ login_success c a)
  unfolding login_end login_fail
  login_end-ok none c a rec status x h = absurd (cc)
  login_end-ok (some pass) c a rec status x h = elim (Bool-cases (check_password mac pass rec)) [
    | inl right ↦ (pass, refl, right, rw right)
    | inr wrong ↦ absurd (ground arith)
  ]

  -- A login that is answered with a session had the right password, from a source that is not
  -- banned; the session of the cookie lives for twelve hours, with the token of the answer.
  pub login-session :
      (input : Option Bytes) (c : Context) (a : App F) (status : ℕ) (x : Bytes × Bytes) (t : ℕ)
      → (login mac input c a).1 ≡ Reply.ok status x
      → (pass : Bytes) × (input ≡ some pass)
        × (check_password mac pass a.state.password ≡ true)
        × ((fail_of c.ip a).banned ≡ false)
        × (x ≡ (c.session_id, c.csrf))
        × (get_session (some c.session_id) t (login mac input c a).0
            ≡ (if ltb (opened c).expires t then none else some (opened c)))
  unfolding login login_begin
  login-session input c a status x t h = elim (Bool-cases (is_empty a.state.password.hash)) [
    | inl blank ↦ absurd (ground arith)
    | inr ready ↦ elim (Bool-cases (fail_of c.ip a).banned) [
      | inl banned ↦ absurd (ground arith)
      | inr free ↦
          let begin : login_begin c.ip a ≡ Begin.checking a.state.password = ground arith in
          let way : login mac input c a ≡ login_end mac a.state.password input c a =
            rw (begin, login) in
          let (pass, e, right, same) =
            login_end-ok input c a a.state.password status x (ap (λ w. w.1) (sym way) ∙ h) in
          let both = way ∙ same in
          let reply : Reply.ok 200 (c.session_id, c.csrf) ≡ Reply.ok status x =
            sym (login_success-reply c a) ∙ ap (λ w. w.1) (sym both) ∙ h in
          (
            pass,
            e,
            right,
            free,
            cc reply,
            ap (λ w. get_session (some c.session_id) t w.0) both ∙ get_session-login_success c t a,
          )
    ]
  ]
