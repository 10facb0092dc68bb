-- ===== src/Agent/Helper/Args/Hidden.antt =====
-- agent/helper.go: what `sanitizeArgs` shows of arguments with different secrets.
use nodelume.Prelude.{
  arith, Bool-cases, inl, inr, Option-cases, ◌&&◌, ℕ, any, is_empty, ◌≡◌, refl, ap, ◌∙◌, sym, Bool,
  true, false, List, [], ◌∷◌, ◌++◌, none, some, Bytes, text,
}
use nodelume.Text.{join, contains, cut_byte, has_prefix, to_lower, trim_left}
use nodelume.Agent.Helper.Args.{
  sensitive_flag, sensitive_arg, redact_url_user_info, sensitive_name, sensitive_inline_value,
  sanitize_arg, sanitize_from, sanitize_args,
}

-- The words that make a name or a flag secret, and the texts that make a whole argument secret.
abbrev secret_words : List Bytes
secret_words =
    text "password"
    ∷ text "passwd"
    ∷ text "token"
    ∷ text "secret"
    ∷ text "api-key"
    ∷ text "apikey"
    ∷ text "authorization"
    ∷ text "auth"
    ∷ text "private-key"
    ∷ text "access-key"
    ∷ []

abbrev secret_texts : List Bytes
secret_texts =
    text "authorization:"
    ∷ text "proxy-authorization:"
    ∷ text "bearer "
    ∷ text "password="
    ∷ text "passwd="
    ∷ text "token="
    ∷ text "secret="
    ∷ text "api_key="
    ∷ text "apikey="
    ∷ text "api-key="
    ∷ text "access_key="
    ∷ text "private_key="
    ∷ []

-- Behind its dashes the text holds a secret word, in upper or lower case.
abbrev pub names_secret : Bytes → Bool
names_secret a = any (contains (to_lower (trim_left a b'-'))) secret_words

abbrev pub holds_secret : Bytes → Bool
holds_secret a = any (contains (to_lower a)) secret_texts

abbrev starts_with_dash : Bytes → Bool
starts_with_dash a = has_prefix a (b'-' ∷ [])

-- A flag with a secret word, whose value is the next argument.
abbrev pub IsSecretFlag : Bytes → Type 0
IsSecretFlag a =
    (starts_with_dash a ≡ true)
    × (names_secret a ≡ true)
    × (cut_byte b'=' a ≡ none)
    × (holds_secret a ≡ false)
    × (contains a (text "://") ≡ false)

-- No such flag, and no URL.
abbrev pub IsOrdinary : Bytes → Type 0
IsOrdinary a = ((starts_with_dash a && names_secret a) ≡ false) × (contains a (text "://") ≡ false)

-- Two lists of arguments that differ in secrets only: in the argument behind a secret flag, in the
-- value behind the first `=` of a secret name, and in an argument with a secret text and no `=`. The
-- Boolean says that a secret flag stands before the lists.
pub data SameButSecrets : Bool → List Bytes → List Bytes → Type 0 where
  both_end : (behind : Bool) → SameButSecrets behind [] []
  flag :
      (a : Bytes) (xs ys : List Bytes)
      → IsSecretFlag a
      → SameButSecrets true xs ys
      → SameButSecrets false (a ∷ xs) (a ∷ ys)
  behind_flag :
      (v w : Bytes) (xs ys : List Bytes)
      → SameButSecrets false xs ys
      → SameButSecrets true (v ∷ xs) (w ∷ ys)
  value_of :
      (name v w : Bytes) (xs ys : List Bytes)
      → is_empty name ≡ false
      → cut_byte b'=' name ≡ none
      → names_secret name ≡ true
      → SameButSecrets false xs ys
      → SameButSecrets false ((name ++ b'=' ∷ v) ∷ xs) ((name ++ b'=' ∷ w) ∷ ys)
  secret_text :
      (a b : Bytes) (xs ys : List Bytes)
      → cut_byte b'=' a ≡ none
      → cut_byte b'=' b ≡ none
      → holds_secret a ≡ true
      → holds_secret b ≡ true
      → SameButSecrets false xs ys
      → SameButSecrets false (a ∷ xs) (b ∷ ys)
  ordinary :
      (a : Bytes) (xs ys : List Bytes)
      → IsOrdinary a
      → SameButSecrets false xs ys
      → SameButSecrets false (a ∷ xs) (a ∷ ys)

cut_byte-append :
    (sep : ℕ) (s v : Bytes) → cut_byte sep s ≡ none → cut_byte sep (s ++ sep ∷ v) ≡ some (s, v)
unfolding cut_byte
cut_byte-append sep [] v h = ground arith
cut_byte-append sep (c ∷ s) v h = ground (arith, cut_byte-append sep s v)

sensitive_name-none : (a : Bytes) → cut_byte b'=' a ≡ none → sensitive_name a ≡ none
unfolding sensitive_name
sensitive_name-none a h = rw (h, sensitive_name)

sensitive_name-append :
    (name v : Bytes)
    → is_empty name ≡ false
    → cut_byte b'=' name ≡ none
    → names_secret name ≡ true
    → sensitive_name (name ++ b'=' ∷ v) ≡ some name
unfolding sensitive_name sensitive_arg
sensitive_name-append name v full h secret =
    rw (cut_byte-append b'=' name v h, sensitive_name, full, secret)

inline_lem : (a : Bytes) → sensitive_inline_value a ≡ holds_secret a
unfolding sensitive_inline_value
inline_lem a = refl

flag_lem : (a : Bytes) → sensitive_flag a ≡ (starts_with_dash a && names_secret a)
unfolding sensitive_flag sensitive_arg
flag_lem a = refl

module _ (has_user : Bytes → Bool) (hide_user : Bytes → Bytes) where
  redact_url_user_info-none :
      (a : Bytes) → contains a (text "://") ≡ false → redact_url_user_info has_user hide_user a ≡ a
  unfolding redact_url_user_info
  redact_url_user_info-none a h = rw h

  sanitize_arg-named :
      (a name : Bytes)
      → sensitive_name a ≡ some name
      → sanitize_arg has_user hide_user a ≡ (name ++ b'=' ∷ text "******", false)
  unfolding sanitize_arg
  sanitize_arg-named a name h = rw (h, sanitize_arg)

  sanitize_arg-inline :
      (a : Bytes)
      → sensitive_name a ≡ none
      → sensitive_inline_value a ≡ true
      → sanitize_arg has_user hide_user a ≡ (text "******", false)
  unfolding sanitize_arg
  sanitize_arg-inline a h i = rw (h, sanitize_arg, i)

  sanitize_arg-other :
      (a : Bytes)
      → sensitive_name a ≡ none
      → sensitive_inline_value a ≡ false
      → contains a (text "://") ≡ false
      → sanitize_arg has_user hide_user a ≡ (a, starts_with_dash a && names_secret a)
  unfolding sanitize_arg
  sanitize_arg-other a h i no_url =
      rw (h, sanitize_arg, i)
        (ap (λ b. (b, sensitive_flag b)) (redact_url_user_info-none a no_url)
          ∙ ap (λ b. (a, b)) (flag_lem a))

  sanitize_arg-ordinary : (a : Bytes) → IsOrdinary a → (sanitize_arg has_user hide_user a).1 ≡ false
  sanitize_arg-ordinary a (no_flag, no_url) = elim (Option-cases (sensitive_name a)) [
    | inr (name, named) ↦ ap (λ w. w.1) (sanitize_arg-named a name named)
    | inl unnamed ↦ elim (Bool-cases (sensitive_inline_value a)) [
      | inl inline ↦ ap (λ w. w.1) (sanitize_arg-inline a unnamed inline)
      | inr other ↦ ap (λ w. w.1) (sanitize_arg-other a unnamed other no_url) ∙ no_flag
    ]
  ]

  sanitize_from-next :
      (a : Bytes) (xs : List Bytes) (shown : Bytes) (hide : Bool)
      → sanitize_arg has_user hide_user a ≡ (shown, hide)
      → sanitize_from has_user hide_user false (a ∷ xs)
        ≡ shown ∷ sanitize_from has_user hide_user hide xs
  unfolding sanitize_from
  sanitize_from-next a xs shown hide h = ap (λ w. w.0 ∷ sanitize_from has_user hide_user w.1 xs) h

  -- Two arguments that are shown alike, with what follows them.
  sanitize_from-both :
      (a b : Bytes) (xs ys : List Bytes) (shown : Bytes) (hide : Bool)
      → sanitize_arg has_user hide_user a ≡ (shown, hide)
      → sanitize_arg has_user hide_user b ≡ (shown, hide)
      → sanitize_from has_user hide_user hide xs ≡ sanitize_from has_user hide_user hide ys
      → sanitize_from has_user hide_user false (a ∷ xs)
        ≡ sanitize_from has_user hide_user false (b ∷ ys)
  sanitize_from-both a b xs ys shown hide p q rest =
      sanitize_from-next a xs shown hide p
      ∙ ap (λ l. shown ∷ l) rest
      ∙ sym (sanitize_from-next b ys shown hide q)

  sanitize_from-hides :
      (hide : Bool) (xs ys : List Bytes)
      → SameButSecrets hide xs ys
      → sanitize_from has_user hide_user hide xs ≡ sanitize_from has_user hide_user hide ys
  unfolding sanitize_from
  sanitize_from-hides hide _ _ (both_end h) = refl
  sanitize_from-hides hide _ _ (behind_flag v w xs ys rest) =
      ap (λ l. text "******" ∷ l) (sanitize_from-hides false xs ys rest)
  sanitize_from-hides hide _ _ (flag a xs ys (dash, secret, unnamed, open_text, no_url) rest) =
      let way =
        sanitize_arg-other a (sensitive_name-none a unnamed) (inline_lem a ∙ open_text) no_url
        ∙ (λ i. (a, (dash i) && (secret i))) in
      sanitize_from-both a a xs ys a true way way (sanitize_from-hides true xs ys rest)
  sanitize_from-hides hide _ _ (value_of name v w xs ys full h secret rest) =
      sanitize_from-both (name ++ b'=' ∷ v) (name ++ b'=' ∷ w) xs ys (name ++ b'=' ∷ text "******")
        false (sanitize_arg-named _ name (sensitive_name-append name v full h secret))
        (sanitize_arg-named _ name (sensitive_name-append name w full h secret))
        (sanitize_from-hides false xs ys rest)
  sanitize_from-hides hide _ _ (secret_text a b xs ys p q i j rest) =
      sanitize_from-both a b xs ys (text "******") false
        (sanitize_arg-inline a (sensitive_name-none a p) (inline_lem a ∙ i))
        (sanitize_arg-inline b (sensitive_name-none b q) (inline_lem b ∙ j))
        (sanitize_from-hides false xs ys rest)
  sanitize_from-hides hide _ _ (ordinary a xs ys plain rest) =
      let shown = (sanitize_arg has_user hide_user a).0 in
      let way : sanitize_arg has_user hide_user a ≡ (shown, false) =
        λ i. (shown, sanitize_arg-ordinary a plain i) in
      sanitize_from-both a a xs ys shown false way way (sanitize_from-hides false xs ys rest)

  -- Two lists of arguments are shown as the same text where they differ only in secrets: in the
  -- argument behind a flag with one of ten secret words, in the value behind the first `=` of a name
  -- with such a word, and in arguments with one of twelve secret texts and no `=`. What they share is
  -- such flags and arguments that are neither such a flag nor hold `://`.
  pub sanitize_args-hides :
      (xs ys : List Bytes)
      → SameButSecrets false xs ys
      → sanitize_args has_user hide_user xs ≡ sanitize_args has_user hide_user ys
  unfolding sanitize_args
  sanitize_args-hides xs ys h = ap (λ l. join l (text " ")) (sanitize_from-hides false xs ys h)
