-- ===== src/Agent/Upgrade/Verified.antt =====
-- agent/release.go: the checks that an upgrade passes before it installs.
use nodelume.Prelude.{
  ◌≡◌, refl, ap, ◌∙◌, sym, Bool, true, false, not, ◌&&◌, ◌||◌, ◌∷◌, Option, none, some, Bytes, text,
  str_eq, if◌then◌else◌, Bool-cases, inl, inr,
}
use nodelume.Prelude.Map.{find}
use nodelume.Text.{trim_prefix, contains}
use nodelume.Version.{valid_version, valid_repo}
use nodelume.Release.Signed.{SignedFileError, verify_signed_file}
use nodelume.Agent.Files.{Files}
use nodelume.Agent.Upgrade.{
  PendingUpdate, Environment, UpgradeError, Outcome, and_then, release_url, download_all, in_dir,
  checksums_name, signature_name, read, version_line, check_binary, real_path, replace_binary,
  install, binary_name, without, perform_agent_upgrade,
}

module _ (encode : PendingUpdate → Bytes) (decode_base64 : Bytes → Option Bytes)
    (ed25519_verify : Bytes → Bytes → Bytes → Bool) (sha256_hex : Bytes → Bytes) (env : Environment)
    (pub_key : Bytes) where
  abbrev verified : Bytes → Bytes → Files → Option SignedFileError
  verified dir name fs =
      verify_signed_file decode_base64 ed25519_verify sha256_hex (read fs) (in_dir dir name)
        (in_dir dir checksums_name) (in_dir dir signature_name) pub_key

  -- A binary that passed every check.
  pub record Checked (version name dir : Bytes) (fs : Files) : Type 0 where
    pub content : Bytes
    pub output : Bytes
    pub stored : find (in_dir dir name) fs ≡ some content
    pub genuine : verified dir name fs ≡ none
    pub healthy : env.self_check content ≡ true
    pub answered : env.version_output content ≡ some output
    pub right_version :
        contains output (version_line encode decode_base64 ed25519_verify sha256_hex version) ≡ true

  abbrev check : Bytes → Bytes → Bytes → Files → Option UpgradeError
  check version name dir fs =
      check_binary encode decode_base64 ed25519_verify sha256_hex env version pub_key name dir fs

  abbrev of_output : Bytes → Option Bytes → Option UpgradeError
  of_output version none = some UpgradeError.wrong_version
  of_output version (some out) =
      if contains out (version_line encode decode_base64 ed25519_verify sha256_hex version)
      then none
      else some UpgradeError.wrong_version

  abbrev of_content : Bytes → Option Bytes → Option UpgradeError
  of_content version none = some UpgradeError.chmod_failed
  of_content version (some content) =
      if not env.chmod_works
      then some UpgradeError.chmod_failed
      else if not (env.self_check content)
      then some UpgradeError.self_check_failed
      else of_output version (env.version_output content)

  abbrev of_verified : Bytes → Option Bytes → Option SignedFileError → Option UpgradeError
  of_verified version o (some e) = some (UpgradeError.not_verified e)
  of_verified version o none = of_content version o

  check-verified :
      (version name dir : Bytes) (fs : Files)
      → check version name dir fs
        ≡ of_verified version (find (in_dir dir name) fs) (verified dir name fs)
  unfolding check_binary
  check-verified version name dir fs = refl

  output-right :
      (version : Bytes) (o : Option Bytes)
      → of_output version o ≡ none
      → (out : Bytes) × (o ≡ some out)
        × (contains out (version_line encode decode_base64 ed25519_verify sha256_hex version)
            ≡ true)
  output-right version none h = absurd (cc (h))
  output-right version (some out) h =
      elim (Bool-cases
        (contains out (version_line encode decode_base64 ed25519_verify sha256_hex version))) [
          | inl good ↦ (out, refl, good)
          | inr bad ↦
              absurd
                (cc (sym (ap (λ b. if b then none else some UpgradeError.wrong_version) bad) ∙ h))
        ]

  content-checked :
      (version : Bytes) (o : Option Bytes)
      → of_content version o ≡ none
      → (content : Bytes) × (o ≡ some content)
        × (env.self_check content ≡ true)
        × (of_output version (env.version_output content) ≡ none)
  content-checked version none h = absurd (cc (h))
  content-checked version (some content) h =
      let after = λ (b : Bool).
        if not b
        then some UpgradeError.self_check_failed
        else of_output version (env.version_output content) in
      elim (Bool-cases env.chmod_works) [
        | inr stuck ↦ absurd (
            cc (
              sym (
                ap
                  (λ b.
                    if not b
                    then some UpgradeError.chmod_failed
                    else after (env.self_check content))
                  stuck)
              ∙ h))
        | inl works ↦
            let rest =
              sym (
                ap
                  (λ b.
                    if not b
                    then some UpgradeError.chmod_failed
                    else after (env.self_check content))
                  works)
              ∙ h in
            elim (Bool-cases (env.self_check content)) [
              | inr sick ↦ absurd (cc (sym (ap after sick) ∙ rest))
              | inl fine ↦ (content, refl, fine, sym (ap after fine) ∙ rest)
            ]
      ]

  verified-first :
      (version : Bytes) (o : Option Bytes) (v : Option SignedFileError)
      → of_verified version o v ≡ none
      → (v ≡ none) × (of_content version o ≡ none)
  verified-first version o none h = (refl, h)
  verified-first version o (some e) h = absurd (cc (h))

  check_binary-Checked :
      (version name dir : Bytes) (fs : Files)
      → check version name dir fs ≡ none
      → Checked version name dir fs
  check_binary-Checked version name dir fs h =
      let (good, rest) =
        verified-first version (find (in_dir dir name) fs) (verified dir name fs)
          (sym (check-verified version name dir fs) ∙ h) in
      let (content, there, fine, last) = content-checked version (find (in_dir dir name) fs) rest in
      let (out, said, right) = output-right version (env.version_output content) last in
      record {
        content = content;
        output = out;
        stored = there;
        genuine = good;
        healthy = fine;
        answered = said;
        right_version = right;
      }

  abbrev replaced : Bytes → Bytes → Bytes → Files → Option UpgradeError → Outcome
  replaced version name dir fs (some e) = (fs, some e)
  replaced version name dir fs none =
      elim (real_path encode decode_base64 ed25519_verify sha256_hex env) [
        | none ↦ (fs, some UpgradeError.no_executable)
        | some current ↦ install encode env version (in_dir dir name) current fs
      ]

  replace_binary-replaced :
      (version name dir : Bytes) (fs : Files)
      → replace_binary encode decode_base64 ed25519_verify sha256_hex env version pub_key name dir
          fs
        ≡ replaced version name dir fs (check version name dir fs)
  unfolding replace_binary
  replace_binary-replaced version name dir fs = refl

  replaced-none :
      (version name dir : Bytes) (fs : Files) (o : Option UpgradeError)
      → (replaced version name dir fs o).1 ≡ none
      → o ≡ none
  replaced-none version name dir fs none h = refl
  replaced-none version name dir fs (some e) h = absurd (cc (h))

  and_then-none :
      (o : Outcome) (next : Files → Outcome) → (and_then o next).1 ≡ none → (next o.0).1 ≡ none
  and_then-none (fs, none) next h = h
  and_then-none (fs, some e) next h = absurd (cc (h))

  -- The files once everything is downloaded.
  abbrev pub downloaded : Bytes → Bytes → Bytes → Files → Outcome
  downloaded version repo dir fs =
      download_all env (release_url env repo (b'v' ∷ version))
        (binary_name encode decode_base64 ed25519_verify sha256_hex env.arch) dir fs

  abbrev in_temp : Bytes → Bytes → Files → Option Bytes → Outcome
  in_temp version repo fs none = (fs, some UpgradeError.no_temp_dir)
  in_temp version repo fs (some dir) = without encode decode_base64 ed25519_verify sha256_hex dir (
      and_then (downloaded version repo dir fs) (λ fs'.
        replace_binary encode decode_base64 ed25519_verify sha256_hex env version pub_key
          (binary_name encode decode_base64 ed25519_verify sha256_hex env.arch) dir fs'))

  in_temp-Checked :
      (version repo : Bytes) (fs : Files) (o : Option Bytes)
      → (in_temp version repo fs o).1 ≡ none
      → (dir : Bytes) × (o ≡ some dir)
        × Checked version
            (binary_name encode decode_base64 ed25519_verify sha256_hex env.arch)
            dir
            (downloaded version repo dir fs).0
  in_temp-Checked version repo fs none h = absurd (cc (h))
  in_temp-Checked version repo fs (some dir) h =
      let name = binary_name encode decode_base64 ed25519_verify sha256_hex env.arch in
      let loaded = downloaded version repo dir fs in
      let last =
        and_then-none loaded
          (λ fs'.
            replace_binary encode decode_base64 ed25519_verify sha256_hex env version pub_key name
              dir fs')
          h in
      let passed =
        replaced-none version name dir loaded.0 (check version name dir loaded.0)
          (ap (λ w. w.1) (sym (replace_binary-replaced version name dir loaded.0)) ∙ last) in
      (dir, refl, check_binary-Checked version name dir loaded.0 passed)

  both_valid : (b c : Bool) → not b || not c ≡ false → (b ≡ true) × (c ≡ true)
  both_valid true true h = (refl, refl)
  both_valid true false h = absurd (cc (h))
  both_valid false c h = absurd (cc (h))

  -- An upgrade that reports success had a valid version and repository, and the binary that it
  -- downloaded is that of a signed release, passes its own check and says that it has the version.
  pub perform_agent_upgrade-Checked :
      (target repo : Bytes) (fs : Files)
      → (perform_agent_upgrade encode decode_base64 ed25519_verify sha256_hex env target repo
          pub_key fs).1
        ≡ none
      → (valid_version (trim_prefix target (text "v")) ≡ true)
        × (valid_repo repo ≡ true)
        × ((dir : Bytes) × (env.temp_dir ≡ some dir)
            × Checked
                (trim_prefix target (text "v"))
                (binary_name encode decode_base64 ed25519_verify sha256_hex env.arch)
                dir
                (downloaded (trim_prefix target (text "v")) repo dir fs).0)
  unfolding perform_agent_upgrade
  perform_agent_upgrade-Checked target repo fs h =
      let version = trim_prefix target (text "v") in
      let malformed = not (valid_version version) || not (valid_repo repo) in
      let foreign = not (str_eq env.arch (text "amd64")) && not (str_eq env.arch (text "arm64")) in
      let known = λ (b : Bool).
        if b then (fs, some UpgradeError.bad_arch) else in_temp version repo fs env.temp_dir in
      let whole = λ (b : Bool). if b then (fs, some UpgradeError.bad_target) else known foreign in
      elim (Bool-cases malformed) [
        | inl bad ↦ absurd (cc (sym (ap (λ b. (whole b).1) bad) ∙ h))
        | inr good ↦
            let first = sym (ap (λ b. (whole b).1) good) ∙ h in
            elim (Bool-cases foreign) [
              | inl strange ↦ absurd (cc (sym (ap (λ b. (known b).1) strange) ∙ first))
              | inr usual ↦
                  let (v, r) = both_valid (valid_version version) (valid_repo repo) good in
                  (
                    v,
                    r,
                    in_temp-Checked version repo fs env.temp_dir
                        (sym (ap (λ b. (known b).1) usual) ∙ first),
                  )
            ]
      ]
