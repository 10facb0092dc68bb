-- ===== src/Server/Session.antt =====
-- server/main.go: the password of the administrator, logins and sessions. The random values, the
-- time, the source of a request and whether the state could be saved are arguments.
pub mod Steps
pub mod Ban
pub mod Access
pub mod Credentials
use nodelume.Prelude.{
  ℕ, ◌+◌, ◌*◌, Bool, true, false, not, ◌||◌, List, [], ◌∷◌, ◌++◌, Option, none, some, Bytes, text,
  str_eq, is_empty, length, ltb, leb, min, if◌then◌else◌,
}
use nodelume.Prelude.Map.{find, insert, delete}
use nodelume.Text.{print_nat}
use nodelume.Server.State.{
  App, PersistedState, PasswordRecord, Session, LoginFail, Reply, second, audit_locked,
}
use nodelume.Server.Password.{make_password, check_password}

pub record Context : Type 0 where
  pub now : ℕ
  pub ip : Bytes
  pub salt : Bytes
  pub session_id : Bytes
  pub csrf : Bytes
  pub saved : Bool

abbrev pub with_state : {F : Type 0} → App F → PersistedState → App F
with_state a s = record a { state = s }

-- `auditLocked` on the state of the server.
abbrev pub audit : {F : Type 0} → Context → Bytes → Bytes → Bytes → Bytes → App F → App F
audit c action node detail result a =
    with_state a (audit_locked c.now c.ip action node detail result a.state)

abbrev pub bad_request : {A : Type 0} → Reply A
bad_request = Reply.error (text "请求数据格式无效") 400

abbrev pub save_failed : {A : Type 0} → Reply A
save_failed = Reply.error (text "保存失败") 500

-- `len` counts bytes.
abbrev pub is_bad_length : Bytes → Bool
is_bad_length pass = ltb (length pass) 8 || ltb 128 (length pass)

-- A source that is missing reads as the zero value.
unfoldable pub fail_of : {F : Type 0} → Bytes → App F → LoginFail
fail_of ip a = elim (find ip a.login_fails) [
  | none ↦ record { count = 0; banned = false }
  | some f ↦ f
]

abbrev pub banned_reply : {A : Type 0} → Reply A
banned_reply = Reply.error (text "该来源 IP 已被封禁，重启 NodeLume Server 后解除") 429

-- One more failure.
unfoldable pub count_fail : LoginFail → LoginFail
count_fail f =
    let n = f.count + 1 in record { count = n; banned = if leb 3 n then true else f.banned }

-- What a login reads first, under the read lock: an answer, or the record to compare with.
pub data Begin : Type 0 where
  refused : Reply (Bytes × Bytes) → Begin
  checking : PasswordRecord → Begin

unfoldable pub login_begin : {F : Type 0} → Bytes → App F → Begin
login_begin ip a =
    if is_empty a.state.password.hash
    then Begin.refused (Reply.error (text "尚未初始化管理员密码") 428)
    else if (fail_of ip a).banned
    then Begin.refused banned_reply
    else Begin.checking a.state.password

-- The branch of a wrong password.
unfoldable pub login_fail : {F : Type 0} → Context → App F → App F × Reply (Bytes × Bytes)
login_fail c a =
    let f = count_fail (fail_of c.ip a) in
    let detail = text "failed attempt " ++ print_nat (min f.count 3) ++ text "/3" in
    (
      audit c (text "login") [] detail (text "failed")
          (record a { login_fails = insert c.ip f a.login_fails }),
      if f.banned
          then banned_reply
          else Reply.error (text "密码错误（" ++ print_nat f.count ++ text "/3）") 401,
    )

-- The branch of the right password; the reply has the cookie and the CSRF token.
unfoldable pub login_success : {F : Type 0} → Context → App F → App F × Reply (Bytes × Bytes)
login_success c a =
    let s = a.state in
    let session : Session = record { csrf = c.csrf; expires = c.now + 12 * 3600 * second } in
    let opened = record a {
      login_fails = delete c.ip a.login_fails;
      state = record s { sessions = insert c.session_id session s.sessions };
    } in
    (
      audit c (text "login") [] (text "administrator login") (text "success") opened,
      Reply.ok 200 (c.session_id, c.csrf),
    )

module _ (mac : Bytes → Bytes → Bytes) where
  -- What a login does once it read the record, when other requests may have been served since.
  unfoldable pub login_end :
      {F : Type 0} → PasswordRecord → Option Bytes → Context → App F → App F × Reply (Bytes × Bytes)
  login_end rec none c a = (a, bad_request)
  login_end rec (some pass) c a =
      if check_password mac pass rec then login_success c a else login_fail c a

  -- The whole handler, when nothing is served in between.
  unfoldable pub login :
      {F : Type 0} → Option Bytes → Context → App F → App F × Reply (Bytes × Bytes)
  login input c a = elim (login_begin c.ip a) [
    | refused r ↦ (a, r)
    | checking rec ↦ login_end rec input c a
  ]

  -- The state with the first password, and with another one and no session.
  unfoldable pub initial_password : {F : Type 0} → Bytes → Context → App F → App F
  initial_password pass c a =
      audit c (text "setup_password") [] (text "initial administrator password created")
        (text "success")
        (with_state a (record a.state { password = make_password mac c.salt pass }))

  unfoldable pub new_password : {F : Type 0} → Bytes → Context → App F → App F
  new_password pass c a =
      audit c (text "change_password") [] (text "administrator password changed; sessions revoked")
        (text "success")
        (with_state a (record a.state { password = make_password mac c.salt pass; sessions = [] }))

  unfoldable pub setup_password : {F : Type 0} → Option Bytes → Context → App F → App F × Reply Unit
  setup_password none c a = (a, bad_request)
  setup_password (some pass) c a =
      if is_bad_length pass
      then (a, Reply.error (text "密码长度必须为 8–128 位") 400)
      else if is_empty a.state.password.hash
      then (initial_password pass c a, if c.saved then Reply.ok 200 tt else save_failed)
      else (a, Reply.error (text "管理员密码已经初始化") 409)

  unfoldable pub change_password :
      {F : Type 0} → Option Bytes → Context → App F → App F × Reply Unit
  change_password none c a = (a, bad_request)
  change_password (some pass) c a =
      if is_bad_length pass
      then (a, Reply.error (text "新密码长度必须为 8–128 位") 400)
      else (new_password pass c a, if c.saved then Reply.ok 200 tt else save_failed)

-- The argument is the cookie of the request, if it has one.
unfoldable pub logout : {F : Type 0} → Option Bytes → Context → App F → App F × Reply Unit
logout none c a = (a, Reply.ok 200 tt)
logout (some sid) c a =
    let s : PersistedState = record a.state { sessions = delete sid a.state.sessions } in
    (
      audit c (text "logout") [] (text "administrator logout") (text "success") (with_state a s),
      Reply.ok 200 tt,
    )

unfoldable pub get_session : {F : Type 0} → Option Bytes → ℕ → App F → Option Session
get_session none now a = none
get_session (some sid) now a = elim (find sid a.state.sessions) [
  | none ↦ none
  | some s ↦ if ltb s.expires now then none else some s
]

-- The answer of a handler behind `requireAuth` or `requireAuthCSRF`: its own, or a refusal.
unfoldable pub require_auth :
    {F : Type 0} {A : Type 0}
    → Option Bytes
    → ℕ
    → (App F → App F × Reply A)
    → App F
    → App F × Reply A
require_auth cookie now next a = elim (get_session cookie now a) [
  | none ↦ (a, Reply.error (text "登录状态已失效，请重新登录") 401)
  | some _ ↦ next a
]

-- The comparison inside reads the session again, and the zero session where there is none.
abbrev pub csrf_of : Option Session → Bytes
csrf_of none = []
csrf_of (some s) = s.csrf

unfoldable pub csrf_next :
    {F : Type 0} {A : Type 0}
    → Option Bytes
    → Bytes
    → ℕ
    → (App F → App F × Reply A)
    → App F
    → App F × Reply A
csrf_next cookie header now next a =
    if str_eq header (csrf_of (get_session cookie now a))
    then next a
    else (a, Reply.error (text "安全令牌无效，请刷新页面后重试") 403)

unfoldable pub require_auth_csrf :
    {F : Type 0} {A : Type 0}
    → Option Bytes
    → Bytes
    → ℕ
    → (App F → App F × Reply A)
    → App F
    → App F × Reply A
require_auth_csrf cookie header now next a =
    require_auth cookie now (csrf_next cookie header now next) a
