-- ===== src/Agent/Helper/Args.antt =====
-- agent/helper.go: the arguments of a process that must not be shown or kept, `sensitiveArg`,
-- `sensitiveInlineValue`, `hasSensitiveRestartArgs`, `sanitizeArgs` and `redactURLUserInfo`. What
-- `url.Parse` says of a text is a pair of parameters.
pub mod Hidden
pub mod Plain
use nodelume.Prelude.{
  Bool, true, false, ◌&&◌, ◌||◌, List, [], ◌∷◌, ◌++◌, Option, none, some, Bytes, text, any,
  is_empty, if◌then◌else◌,
}
use nodelume.Text.{trim_left, to_lower, contains, has_prefix, cut_byte, join}

abbrev pub sensitive_names : List Bytes
sensitive_names =
    text "password"
    ∷ text "passwd"
    ∷ text "token"
    ∷ text "secret"
    ∷ text "api-key"
    ∷ text "apikey"
    ∷ text "authorization"
    ∷ text "auth"
    ∷ text "private-key"
    ∷ text "access-key"
    ∷ []

abbrev pub sensitive_texts : List Bytes
sensitive_texts =
    text "authorization:"
    ∷ text "proxy-authorization:"
    ∷ text "bearer "
    ∷ text "password="
    ∷ text "passwd="
    ∷ text "token="
    ∷ text "secret="
    ∷ text "api_key="
    ∷ text "apikey="
    ∷ text "api-key="
    ∷ text "access_key="
    ∷ text "private_key="
    ∷ []

unfoldable pub sensitive_arg : Bytes → Bool
sensitive_arg s = any (contains (to_lower (trim_left s b'-'))) sensitive_names

unfoldable pub sensitive_inline_value : Bytes → Bool
sensitive_inline_value s = any (contains (to_lower s)) sensitive_texts

-- The part before the first `=`, where it is a sensitive name.
unfoldable pub sensitive_name : Bytes → Option Bytes
sensitive_name a = elim (cut_byte b'=' a) [
  | none ↦ none
  | some (name, _) ↦ if is_empty name then none else if sensitive_arg name then some name else none
]

-- A flag whose value is the next argument.
unfoldable pub sensitive_flag : Bytes → Bool
sensitive_flag a = has_prefix a (b'-' ∷ []) && sensitive_arg a

abbrev pub stars : Bytes
stars = text "******"

abbrev pub is_some : {A : Type 0} → Option A → Bool
is_some none = false
is_some (some _) = true

-- `has_user`: the text parses as a URL with a user; `hide_user`: that URL with the user hidden.
module _ (has_user : Bytes → Bool) (hide_user : Bytes → Bytes) where
  abbrev pub looks_like_url : Bytes → Bool
  looks_like_url a = contains a (text "://") && contains a (text "@")

  unfoldable pub sensitive_restart_arg : Bytes → Bool
  sensitive_restart_arg a =
      is_some (sensitive_name a)
      || sensitive_inline_value a
      || sensitive_flag a
      || (looks_like_url a && has_user a)

  unfoldable pub has_sensitive_restart_args : List Bytes → Bool
  has_sensitive_restart_args args = any sensitive_restart_arg args

  unfoldable pub redact_url_user_info : Bytes → Bytes
  redact_url_user_info a = if looks_like_url a && has_user a then hide_user a else a

  -- What is shown of an argument, and whether the next one is to be hidden.
  unfoldable pub sanitize_arg : Bytes → Bytes × Bool
  sanitize_arg a = elim (sensitive_name a) [
    | some name ↦ (name ++ b'=' ∷ stars, false)
    | none ↦
        if sensitive_inline_value a
        then (stars, false)
        else (redact_url_user_info a, sensitive_flag (redact_url_user_info a))
  ]

  -- The loop.
  unfoldable pub sanitize_from : Bool → List Bytes → List Bytes
  sanitize_from redact_next [] = []
  sanitize_from true (a ∷ rest) = stars ∷ sanitize_from false rest
  sanitize_from false (a ∷ rest) = (sanitize_arg a).0 ∷ sanitize_from (sanitize_arg a).1 rest

  unfoldable pub sanitize_args : List Bytes → Bytes
  sanitize_args args = join (sanitize_from false args) (text " ")
