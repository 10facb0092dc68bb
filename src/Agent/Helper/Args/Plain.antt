-- ===== src/Agent/Helper/Args/Plain.antt =====
-- agent/helper.go: what `sanitizeArgs` shows of arguments that `hasSensitiveRestartArgs` lets pass.
use nodelume.Prelude.{
  ◌≡◌, refl, ap, ◌∙◌, sym, arith, Bool, false, List, [], ◌∷◌, Bytes, text, Option-cases, inl, inr,
}
use nodelume.Text.{join}
use nodelume.Agent.Helper.Args.{
  sensitive_name, sensitive_inline_value, sensitive_flag, is_some, sensitive_restart_arg,
  has_sensitive_restart_args, redact_url_user_info, sanitize_arg, sanitize_from, sanitize_args,
}

module _ (has_user : Bytes → Bool) (hide_user : Bytes → Bytes) where
  redact_url_user_info-plain :
      (a : Bytes)
      → sensitive_restart_arg has_user hide_user a ≡ false
      → redact_url_user_info has_user hide_user a ≡ a
  unfolding redact_url_user_info sensitive_restart_arg
  redact_url_user_info-plain a h = ground arith

  restart_arg-parts :
      (a : Bytes)
      → sensitive_restart_arg has_user hide_user a ≡ false
      → (is_some (sensitive_name a) ≡ false)
        × (sensitive_inline_value a ≡ false)
        × (sensitive_flag a ≡ false)
  unfolding sensitive_restart_arg
  restart_arg-parts a h = ground arith

  sanitize_arg-plain :
      (a : Bytes)
      → sensitive_restart_arg has_user hide_user a ≡ false
      → sanitize_arg has_user hide_user a ≡ (a, false)
  unfolding sanitize_arg
  sanitize_arg-plain a h =
      let same = redact_url_user_info-plain a h in
      let (unnamed, not_inline, not_flag) = restart_arg-parts a h in
      elim (Option-cases (sensitive_name a)) [
        | inl none_named ↦
            rw (none_named, sanitize_arg, not_inline)
              (ap (λ b. (b, sensitive_flag b)) same ∙ ap (λ b. (a, b)) not_flag)
        | inr (name, named) ↦ absurd (cc (ap is_some (sym named) ∙ unnamed))
      ]

  args-parts :
      (a : Bytes) (rest : List Bytes)
      → has_sensitive_restart_args has_user hide_user (a ∷ rest) ≡ false
      → (sensitive_restart_arg has_user hide_user a ≡ false)
        × (has_sensitive_restart_args has_user hide_user rest ≡ false)
  unfolding has_sensitive_restart_args
  args-parts a rest h = ground arith

  sanitize_from-plain :
      (args : List Bytes)
      → has_sensitive_restart_args has_user hide_user args ≡ false
      → sanitize_from has_user hide_user false args ≡ args
  unfolding sanitize_from
  sanitize_from-plain [] h = refl
  sanitize_from-plain (a ∷ rest) h =
      let (plain, others) = args-parts a rest h in
      ap (λ w. w.0 ∷ sanitize_from has_user hide_user w.1 rest) (sanitize_arg-plain a plain)
      ∙ ap (λ l. a ∷ l) (sanitize_from-plain rest others)

  -- Arguments that may be kept for a restart are shown as they are.
  pub sanitize_args-plain :
      (args : List Bytes)
      → has_sensitive_restart_args has_user hide_user args ≡ false
      → sanitize_args has_user hide_user args ≡ join args (text " ")
  unfolding sanitize_args
  sanitize_args-plain args h = ap (λ l. join l (text " ")) (sanitize_from-plain args h)
