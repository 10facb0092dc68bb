-- ===== src/Server/Session/Credentials.antt =====
-- The password of the administrator, from its setup to its change.
use nodelume.Prelude.{
  ℕ, ◌≡◌, ◌≢◌, refl, ap, ◌∙◌, arith, false, [], Option, none, some, Bytes, str_eq, is_empty,
}
use nodelume.Prelude.Map.{find}
use nodelume.Text.Hex.{AllBytes}
use nodelume.Server.State.{App, Reply, audit_locked}
use nodelume.Server.Password.{key_iterations, password_key, make_password, check_password}
use nodelume.Server.Password.Check.{IsDigest, check_password-make, make_password-hash}
use nodelume.Server.Session.{
  new_password, initial_password, Context, setup_password, change_password, get_session,
}

get_session-none :
    {F : Type 0} (sid : Bytes) (t : ℕ) (a : App F)
    → find sid a.state.sessions ≡ none
    → get_session (some sid) t a ≡ none
unfolding get_session
get_session-none sid t a e = rw (e, get_session)

module _ (mac : Bytes → Bytes → Bytes) {F : Type 0} where
  change_password-new :
      (pass : Bytes) (c : Context) (a : App F) (status : ℕ) (x : Unit)
      → (change_password mac (some pass) c a).1 ≡ Reply.ok status x
      → (change_password mac (some pass) c a).0 ≡ new_password mac pass c a
  unfolding change_password
  change_password-new pass c a status x h = ground arith

  sessions-new_password :
      (pass : Bytes) (c : Context) (a : App F) → (new_password mac pass c a).state.sessions ≡ []
  unfolding new_password audit_locked
  sessions-new_password pass c a = refl

  password-new_password :
      (pass : Bytes) (c : Context) (a : App F)
      → (new_password mac pass c a).state.password ≡ make_password mac c.salt pass
  unfolding new_password audit_locked
  password-new_password pass c a = refl

  get_session-new_password :
      (cookie : Option Bytes) (t : ℕ) (pass : Bytes) (c : Context) (a : App F)
      → get_session cookie t (new_password mac pass c a) ≡ none
  unfolding get_session find
  get_session-new_password none t pass c a = refl
  get_session-new_password (some sid) t pass c a =
      get_session-none sid t (new_password mac pass c a)
        (ap (find sid) (sessions-new_password pass c a))

  -- Changing the password ends every session, and a password passes from then on exactly when its
  -- key is the key of the new one, for a digest of 32 bytes.
  pub change_password-revokes :
      (new : Bytes) (c : Context) (a : App F) (status : ℕ) (x : Unit) (cookie : Option Bytes)
      (t : ℕ) (pass : Bytes)
      → IsDigest mac
      → AllBytes c.salt
      → (change_password mac (some new) c a).1 ≡ Reply.ok status x
      → (get_session cookie t (change_password mac (some new) c a).0 ≡ none)
        × (check_password mac pass (change_password mac (some new) c a).0.state.password
            ≡ str_eq
                (password_key mac pass c.salt key_iterations)
                (password_key mac new c.salt key_iterations))
  change_password-revokes new c a status x cookie t pass digest salted h =
      let same = change_password-new new c a status x h in
      (
        ap (get_session cookie t) same ∙ get_session-new_password cookie t new c a,
        ap (λ b. check_password mac pass b.state.password) same
            ∙ ap (check_password mac pass) (password-new_password new c a)
            ∙ check_password-make mac digest pass new c.salt salted,
      )

  setup_password-initial :
      (pass : Bytes) (c : Context) (a : App F) (status : ℕ) (x : Unit)
      → (setup_password mac (some pass) c a).1 ≡ Reply.ok status x
      → (setup_password mac (some pass) c a).0 ≡ initial_password mac pass c a
  unfolding setup_password
  setup_password-initial pass c a status x h = ground arith

  password-initial_password :
      (pass : Bytes) (c : Context) (a : App F)
      → (initial_password mac pass c a).state.password ≡ make_password mac c.salt pass
  unfolding initial_password audit_locked
  password-initial_password pass c a = refl

  setup_password-ready :
      (pass : Bytes) (c : Context) (a : App F) (status : ℕ) (x : Unit)
      → is_empty a.state.password.hash ≡ false
      → (setup_password mac (some pass) c a).1 ≢ Reply.ok status x
  unfolding setup_password
  setup_password-ready pass c a status x ready ok = ground arith

  -- The password can be set up once: after a setup that was accepted every other one is refused,
  -- for a digest of 32 bytes.
  pub setup_password_once :
      (pass pass' : Bytes) (c c' : Context) (a : App F) (status status' : ℕ) (x y : Unit)
      → IsDigest mac
      → (setup_password mac (some pass) c a).1 ≡ Reply.ok status x
      → (setup_password mac (some pass') c' (setup_password mac (some pass) c a).0).1
        ≢ Reply.ok status' y
  setup_password_once pass pass' c c' a status status' x y digest h =
      setup_password-ready pass' c' (setup_password mac (some pass) c a).0 status' y (
        ap (λ b. is_empty b.state.password.hash) (setup_password-initial pass c a status x h)
        ∙ ap (λ p. is_empty p.hash) (password-initial_password pass c a)
        ∙ make_password-hash mac digest c.salt pass)
