-- ===== src/Tests/Sessions.antt =====
-- Passwords, logins and sessions.
use nodelume.Prelude.{
  zero, ◌-◌, ◌≢◌, ◌&&◌, suc, length, ◌==◌, Bool, ◌≤◌, ℕ, ◌*◌, ◌≡◌, ◌⊎◌, refl, ap, ◌∙◌, arith, true,
  false, List, [], ◌∷◌, Option, none, some, Bytes, text, str_eq, str_eq_refl, ltb, replicate,
  if◌then◌else◌,
}
use nodelume.Prelude.Map.{find, insert, delete}
use nodelume.Text.Hex.{xor_bits, encode_hex, decode_hex, AllBytes, hex_value, hex_digit}
use nodelume.Text.{print_nat}
use nodelume.Server.State.{App, Reply, Session, PasswordRecord, second, audit_locked}
use nodelume.Server.Password.{
  xor_into, key_rounds, make_password, check_password, password_key, key_iterations,
}
use nodelume.Server.Password.Check.{IsDigest, check_password-make, make_password-hash}
use nodelume.Server.Session.{
  Begin, Context, fail_of, count_fail, login_begin, login_fail, login_success, login_end, login,
  setup_password, change_password, initial_password, new_password, logout, get_session,
  require_auth, csrf_next, require_auth_csrf, banned_reply,
}
use nodelume.Server.Session.Steps.{login_right}
use nodelume.Server.Session.Ban.{serve_logins, tries_of, login_ban, login_end-lifts}
use nodelume.Server.Session.Access.{opened, login-session, require_auth_csrf-cases}
use nodelume.Server.Session.Credentials.{change_password-revokes}
use nodelume.Tests.Data.{app}

program : Unit {0}
unfolding find insert delete audit_locked fail_of count_fail login_begin login_fail login_success
    login_end login setup_password change_password initial_password new_password logout get_session
    require_auth csrf_next require_auth_csrf serve_logins check_password decode_hex encode_hex
    hex_value hex_digit str_eq print_nat text
program = tt

-- A digest of 32 bytes.
abbrev mac : Bytes → Bytes → Bytes
mac k m = replicate 32 7

sevens : AllBytes (mac [] [])
sevens = ground arith

mac-IsDigest : IsDigest mac
mac-IsDigest = record { bytes = λ k m. sevens; size = λ k m. refl }

abbrev pass : Bytes
pass = b'h' ∷ b'u' ∷ b'n' ∷ b't' ∷ b'e' ∷ b'r' ∷ b'0' ∷ b'2' ∷ []

abbrev context : Context
context = record {
  now = 50 * second;
  ip = b'i' ∷ [];
  salt = 9 ∷ 255 ∷ [];
  session_id = b's' ∷ [];
  csrf = b'c' ∷ [];
  saved = true;
}

abbrev with_password : PasswordRecord → App ℕ
with_password rec = record app { state = record app.state { password = rec } }

salted : AllBytes (9 ∷ 255 ∷ [])
salted = (omega arith, (omega arith, tt))

hex_round : decode_hex (encode_hex (9 ∷ 255 ∷ [])) ≡ some (9 ∷ 255 ∷ [])
unfolding program
hex_round = refl

abbrev ours : PasswordRecord
ours = make_password mac (9 ∷ 255 ∷ []) pass

right : check_password mac pass ours ≡ true
right =
    check_password-make mac mac-IsDigest pass pass (9 ∷ 255 ∷ []) salted
    ∙ str_eq_refl (password_key mac pass (9 ∷ 255 ∷ []) key_iterations)

not_banned : (fail_of context.ip (with_password ours)).banned ≡ false
unfolding program
not_banned = refl

logged_in :
    (login mac (some pass) context (with_password ours)).1 ≡ Reply.ok 200 (b's' ∷ [], b'c' ∷ [])
unfolding login_success
logged_in =
    ap (λ w. w.1)
      (login_right mac pass context (with_password ours)
        (make_password-hash mac mac-IsDigest (9 ∷ 255 ∷ []) pass) not_banned right)

check_password-make_example :
    check_password mac (b'x' ∷ []) ours
    ≡ str_eq
        (password_key mac (b'x' ∷ []) (9 ∷ 255 ∷ []) key_iterations)
        (password_key mac pass (9 ∷ 255 ∷ []) key_iterations)
check_password-make_example =
    check_password-make mac mac-IsDigest (b'x' ∷ []) pass (9 ∷ 255 ∷ []) salted

abbrev answer : Bytes × Bytes
answer = (b's' ∷ [], b'c' ∷ [])

login-session_example :
    (p : Bytes) × (some pass ≡ some p)
    × (check_password mac p ours ≡ true)
    × ((fail_of context.ip (with_password ours)).banned ≡ false)
    × (answer ≡ (context.session_id, context.csrf))
    × (get_session
          (some context.session_id)
          (60 * second)
          (login mac (some pass) context (with_password ours)).0
        ≡ (if ltb (opened context).expires (60 * second) then none else some (opened context)))
login-session_example =
    login-session mac (some pass) context (with_password ours) 200 (b's' ∷ [], b'c' ∷ [])
      (60 * second) logged_in

-- A record whose hash is no hexadecimal text matches no password.
abbrev broken : PasswordRecord
broken = record { salt = []; hash = b'z' ∷ b'z' ∷ [] }

abbrev three : List (Option Bytes × Context)
three = (some pass, context) ∷ (some pass, context) ∷ (some pass, context) ∷ []

wrong : check_password mac pass broken ≡ false
unfolding program
wrong = refl

untried : find context.ip (with_password broken).login_fails ≡ none
unfolding find
untried = refl

banned_at_last :
    (login mac (some pass) context (with_password broken)).1 ≡ Reply.error (text "密码错误（1/3）") 401
unfolding program
banned_at_last = refl

three_tries : 3 ≤ tries_of context.ip three
unfolding str_eq
three_tries = omega arith

login_ban_example :
    login mac (some []) context (serve_logins mac three (with_password broken))
    ≡ (serve_logins mac three (with_password broken), banned_reply)
login_ban_example =
    login_ban mac three (with_password broken) (some []) context refl untried
      ((λ _. (pass, refl, wrong)), ((λ _. (pass, refl, wrong)), ((λ _. (pass, refl, wrong)), tt)))
      three_tries

-- A digest that tells two passwords apart: it is 7 for the salt under the password, else 0.
abbrev marked : Bytes → Bytes → Bool
marked (x ∷ _) (y ∷ _) = y == 9 && x == b'h'
marked _ _ = false

abbrev sum : Bool → Bytes
sum b = if b then replicate 32 7 else replicate 32 0

abbrev telling : Bytes → Bytes → Bytes
telling k m = sum (marked k m)

sum-AllBytes : (b : Bool) → AllBytes (sum b)
sum-AllBytes true = ground arith
sum-AllBytes false = ground arith

length-sum : (b : Bool) → length (sum b) ≡ 32
length-sum true = refl
length-sum false = refl

telling-IsDigest : IsDigest telling
telling-IsDigest = record {
  bytes = λ k m. sum-AllBytes (marked k m);
  size = λ k m. length-sum (marked k m);
}

-- The later rounds add nothing.
key_rounds-telling :
    (n k : ℕ) (ks out : Bytes)
    → xor_into out (sum false) ≡ out
    → key_rounds telling n (k ∷ ks) (sum false) out ≡ out
unfolding key_rounds
key_rounds-telling zero k ks out same = refl
key_rounds-telling (suc n) k ks out same =
    ap (key_rounds telling n (k ∷ ks) (sum false)) same ∙ key_rounds-telling n k ks out same

key_rounds-sum :
    (n k : ℕ) (ks : Bytes) (b : Bool) → key_rounds telling (suc n) (k ∷ ks) (sum b) (sum b) ≡ sum b
unfolding key_rounds xor_into xor_bits
key_rounds-sum n k ks true = key_rounds-telling n k ks (sum true) refl
key_rounds-sum n k ks false = key_rounds-telling n k ks (sum false) refl

password_key-telling :
    (m n k : ℕ) (ks : Bytes)
    → m - 1 ≡ suc n
    → password_key telling (k ∷ ks) (9 ∷ 255 ∷ []) m ≡ sum (k == b'h')
unfolding password_key
password_key-telling m n k ks rounds =
    ap (λ r. key_rounds telling r (k ∷ ks) (sum (k == b'h')) (sum (k == b'h'))) rounds
    ∙ key_rounds-sum n k ks (k == b'h')

abbrev theirs : PasswordRecord
theirs = make_password telling (9 ∷ 255 ∷ []) pass

matches :
    (k : ℕ) (ks : Bytes)
    → check_password telling (k ∷ ks) theirs ≡ str_eq (sum (k == b'h')) (sum true)
matches k ks =
    check_password-make telling telling-IsDigest (k ∷ ks) pass (9 ∷ 255 ∷ []) salted
    ∙ ap (λ x. str_eq x (password_key telling pass (9 ∷ 255 ∷ []) key_iterations))
        (password_key-telling key_iterations 179_998 k ks (omega arith))
    ∙ ap (str_eq (sum (k == b'h'))) (
        password_key-telling key_iterations 179_998 b'h'
          (b'u' ∷ b'n' ∷ b't' ∷ b'e' ∷ b'r' ∷ b'0' ∷ b'2' ∷ []) (omega arith))

guessed : check_password telling (b'x' ∷ []) theirs ≡ false
unfolding str_eq
guessed = matches b'x' []

known : check_password telling pass theirs ≡ true
unfolding str_eq
known = matches b'h' (b'u' ∷ b'n' ∷ b't' ∷ b'e' ∷ b'r' ∷ b'0' ∷ b'2' ∷ [])

abbrev guesses : List (Option Bytes × Context)
guesses =
    (some (b'x' ∷ []), context) ∷ (some (b'x' ∷ []), context) ∷ (some (b'x' ∷ []), context) ∷ []

unfailed : find context.ip (with_password theirs).login_fails ≡ none
unfolding find
unfailed = refl

three_guesses : 3 ≤ tries_of context.ip guesses
unfolding str_eq
three_guesses = omega arith

login_end-lifts_example :
    (rec : PasswordRecord) × (login_begin context.ip (with_password theirs) ≡ Begin.checking rec)
    × (login telling (some pass) context (serve_logins telling guesses (with_password theirs))
        ≡ (serve_logins telling guesses (with_password theirs), banned_reply))
    × ((login_end telling rec
          (some pass)
          context
          (serve_logins telling guesses (with_password theirs))).1
        ≡ Reply.ok 200 (context.session_id, context.csrf))
    × (login_begin context.ip
          (login_end telling rec
            (some pass)
            context
            (serve_logins telling guesses (with_password theirs))).0
        ≡ Begin.checking rec)
login_end-lifts_example =
    login_end-lifts telling guesses pass context (with_password theirs)
      (make_password-hash telling telling-IsDigest (9 ∷ 255 ∷ []) pass) unfailed
      (
        (λ _. (b'x' ∷ [], refl, guessed)),
        ((λ _. (b'x' ∷ [], refl, guessed)), ((λ _. (b'x' ∷ [], refl, guessed)), tt)),
      )
      three_guesses known

abbrev with_session : App ℕ
with_session = record app {
  state = record app.state {
    sessions = (b's' ∷ [], record { csrf = b'c' ∷ []; expires = 60 * second }) ∷ [];
  };
}

abbrev guarded : Bytes → App ℕ → App ℕ × Reply Unit
guarded header a =
    require_auth_csrf (some (b's' ∷ [])) header (50 * second) (logout (some (b's' ∷ [])) context) a

guards :
    ((guarded (b'c' ∷ []) with_session).1 ≡ Reply.ok 200 tt)
    × ((guarded (b'd' ∷ []) with_session).1 ≡ Reply.error (text "安全令牌无效，请刷新页面后重试") 403)
    × ((guarded (b'c' ∷ []) app).1 ≡ Reply.error (text "登录状态已失效，请重新登录") 401)
unfolding program
guards = (refl, refl, refl)

require_auth_csrf-cases_example :
    ((s : Session) × (get_session (some (b's' ∷ [])) (50 * second) with_session ≡ some s)
      × ((b'c' ∷ []) ≡ s.csrf)
      × (guarded (b'c' ∷ []) with_session ≡ logout (some (b's' ∷ [])) context with_session))
    ⊎ (((get_session (some (b's' ∷ [])) (50 * second) with_session ≡ none)
          × (guarded (b'c' ∷ []) with_session
              ≡ (with_session, Reply.error (text "登录状态已失效，请重新登录") 401)))
        ⊎ ((s : Session) × (get_session (some (b's' ∷ [])) (50 * second) with_session ≡ some s)
            × ((b'c' ∷ []) ≢ s.csrf)
            × (guarded (b'c' ∷ []) with_session
                ≡ (with_session, Reply.error (text "安全令牌无效，请刷新页面后重试") 403))))
require_auth_csrf-cases_example =
    require_auth_csrf-cases (some (b's' ∷ [])) (b'c' ∷ []) (50 * second)
      (logout (some (b's' ∷ [])) context) with_session

changed : (change_password mac (some pass) context with_session).1 ≡ Reply.ok 200 tt
unfolding change_password
changed = refl

change_password-revokes_example :
    (get_session
        (some (b's' ∷ []))
        (50 * second)
        (change_password mac (some pass) context with_session).0
      ≡ none)
    × (check_password mac [] (change_password mac (some pass) context with_session).0.state.password
        ≡ str_eq
            (password_key mac [] context.salt key_iterations)
            (password_key mac pass context.salt key_iterations))
change_password-revokes_example =
    change_password-revokes mac pass context with_session 200 tt (some (b's' ∷ [])) (50 * second) []
      mac-IsDigest salted changed

set_up : (setup_password mac (some pass) context app).1 ≡ Reply.ok 200 tt
unfolding setup_password
set_up = refl
