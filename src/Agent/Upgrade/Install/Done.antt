-- ===== src/Agent/Upgrade/Install/Done.antt =====
-- agent/release.go: how an installation ends.
use mathlib.Core.Path.{subst}
use nodelume.Prelude.{
  ◌≡◌, refl, ap, ◌∙◌, sym, true, none, some, Bytes, str_eq_refl, Bool-cases, inl, inr,
}
use nodelume.Prelude.Map.{find, find-insert, find-delete}
use nodelume.Agent.Files.{Files, rename, rename-works, rename-fails, remove-other}
use nodelume.Agent.Upgrade.{
  Environment, PendingUpdate, UpgradeError, previous_of, pending_path, write_pending, undo_install,
  note_install, put_binary, install,
}
use nodelume.Agent.Upgrade.Install.{
  Apart, noted, write_pending-other, write_pending-noted, undo_install-restores, after_pending,
  after_drop, note_install-noted, note_install-undone, put_binary-installed, put_binary-undone,
  after_put, backed_up, after_clear, install-moved, install-unmoved, backup_held,
}

module _ (encode : PendingUpdate → Bytes) (env : Environment) (version bin current old : Bytes)
    (apart : Apart current bin) where
  undone-some : (e : UpgradeError) (fs : Files) → (undo_install encode env current e fs).1 ≡ some e
  unfolding undo_install
  undone-some e fs = refl

  note_install-restored :
      (fs : Files) (e : UpgradeError)
      → env.restores ≡ true
      → find (previous_of current) fs ≡ some old
      → (note_install encode env version current fs).1 ≡ some e
      → find current (note_install encode env version current fs).0 ≡ some old
  note_install-restored fs e works held h =
      elim (Bool-cases
        (write_pending encode env (noted encode env version bin current old apart) fs).1) [
          | inl written ↦ absurd (
              cc (
                ap (λ w. w.1)
                  (sym (note_install-noted encode env version bin current old apart fs written))
                ∙ h))
          | inr failed ↦
              ap (λ w. find current w.0)
                (note_install-undone encode env version bin current old apart fs failed)
              ∙ undo_install-restores encode env current old _ _ works
                  (after_drop encode env version bin current old apart fs ∙ held)
        ]

  put_binary-restored :
      (fs : Files) (e : UpgradeError)
      → env.restores ≡ true
      → find (previous_of current) fs ≡ some old
      → (put_binary encode env version bin current fs).1 ≡ some e
      → find current (put_binary encode env version bin current fs).0 ≡ some old
  put_binary-restored fs e works held h = elim (Bool-cases (rename env.installs bin current fs).1) [
    | inl installed ↦
        let way = put_binary-installed encode env version bin current old apart fs installed in
        ap (λ w. find current w.0) way
        ∙ note_install-restored (rename env.installs bin current fs).0 e works
            (after_put encode env version bin current old apart fs ∙ held)
            (ap (λ w. w.1) (sym way) ∙ h)
    | inr failed ↦
        ap (λ w. find current w.0)
          (put_binary-undone encode env version bin current old apart fs failed)
        ∙ undo_install-restores encode env current old _ _ works
            (after_put encode env version bin current old apart fs ∙ held)
  ]

  -- Where the paths are different, an installation that fails leaves the old binary in its place, as
  -- long as moving the backup back works.
  pub install-restored :
      (fs : Files) (e : UpgradeError)
      → env.restores ≡ true
      → find current fs ≡ some old
      → (install encode env version bin current fs).1 ≡ some e
      → find current (install encode env version bin current fs).0 ≡ some old
  install-restored fs e works held h = elim (Bool-cases env.backs_up) [
    | inl moved ↦
        let way = install-moved encode env version bin current old apart fs moved held in
        ap (λ w. find current w.0) way
        ∙ put_binary-restored (backed_up encode env version bin current old apart fs) e works
            (backup_held encode env version bin current old apart fs) (ap (λ w. w.1) (sym way) ∙ h)
    | inr stuck ↦
        ap (λ w. find current w.0)
          (install-unmoved encode env version bin current old apart fs stuck)
        ∙ after_clear encode env version bin current old apart fs held
  ]

  -- What a successful installation leaves.
  pub record Installed (new : Bytes) (fs : Files) : Type 0 where
    pub in_place : find current fs ≡ some new
    pub backup : find (previous_of current) fs ≡ some old
    pub pending :
        find pending_path fs ≡ some (encode (noted encode env version bin current old apart))

  note_install-Installed :
      (new : Bytes) (fs : Files)
      → find current fs ≡ some new
      → find (previous_of current) fs ≡ some old
      → (note_install encode env version current fs).1 ≡ none
      → Installed new (note_install encode env version current fs).0
  note_install-Installed new fs there held h =
      elim (Bool-cases
        (write_pending encode env (noted encode env version bin current old apart) fs).1) [
          | inr failed ↦ absurd (
              cc (
                sym (undone-some UpgradeError.pending_failed _)
                ∙ ap (λ w. w.1)
                    (sym (note_install-undone encode env version bin current old apart fs failed))
                ∙ h))
          | inl written ↦
              let p = noted encode env version bin current old apart in
              subst (λ w. Installed new w.0)
                (sym (note_install-noted encode env version bin current old apart fs written))
                (record {
                  in_place =
                      write_pending-other encode env p current fs apart.tmp_current
                        apart.pending_current
                      ∙ there;
                  backup = after_pending encode env version bin current old apart fs ∙ held;
                  pending = write_pending-noted encode env p fs written;
                })
        ]

  -- A rename that worked put the new content in place.
  rename-in_place :
      (new : Bytes) (fs : Files)
      → find bin fs ≡ some new
      → (rename env.installs bin current fs).1 ≡ true
      → find current (rename env.installs bin current fs).0 ≡ some new
  rename-in_place new fs fresh h = elim (Bool-cases env.installs) [
    | inl works ↦
        ap (λ b. find current (rename b bin current fs).0) works
        ∙ ap (λ w. find current w.0) (rename-works bin current new fs fresh)
        ∙ rw (find-insert, str_eq_refl)
    | inr fails ↦ absurd (
        cc (
          ap (λ w. w.1) (sym (rename-fails bin current fs))
          ∙ ap (λ b. (rename b bin current fs).1) (sym fails)
          ∙ h))
  ]

  put_binary-Installed :
      (new : Bytes) (fs : Files)
      → find bin fs ≡ some new
      → find (previous_of current) fs ≡ some old
      → (put_binary encode env version bin current fs).1 ≡ none
      → Installed new (put_binary encode env version bin current fs).0
  put_binary-Installed new fs fresh held h =
      elim (Bool-cases (rename env.installs bin current fs).1) [
        | inr failed ↦ absurd (
            cc (
              sym (undone-some UpgradeError.install_failed _)
              ∙ ap (λ w. w.1)
                  (sym (put_binary-undone encode env version bin current old apart fs failed))
              ∙ h))
        | inl installed ↦
            let way = put_binary-installed encode env version bin current old apart fs installed in
            subst (λ w. Installed new w.0) (sym way)
              (note_install-Installed new (rename env.installs bin current fs).0
                (rename-in_place new fs fresh installed)
                (after_put encode env version bin current old apart fs ∙ held)
                (ap (λ w. w.1) (sym way) ∙ h))
      ]

  fresh_held :
      (new : Bytes) (fs : Files)
      → find bin fs ≡ some new
      → find bin (backed_up encode env version bin current old apart fs) ≡ some new
  fresh_held new fs fresh =
      rw (find-insert, apart.previous_bin, find-delete, apart.current_bin)
        (remove-other env.clears_previous (previous_of current) bin fs apart.previous_bin ∙ fresh)

  -- A successful installation has the new binary in place, the old one beside it, and a note of the
  -- two for the rollback.
  pub install-Installed :
      (new : Bytes) (fs : Files)
      → find current fs ≡ some old
      → find bin fs ≡ some new
      → (install encode env version bin current fs).1 ≡ none
      → Installed new (install encode env version bin current fs).0
  install-Installed new fs held fresh h = elim (Bool-cases env.backs_up) [
    | inr stuck ↦ absurd (
        cc (
          ap (λ w. w.1) (sym (install-unmoved encode env version bin current old apart fs stuck))
          ∙ h))
    | inl moved ↦
        let way = install-moved encode env version bin current old apart fs moved held in
        subst (λ w. Installed new w.0) (sym way)
          (put_binary-Installed new (backed_up encode env version bin current old apart fs)
            (fresh_held new fs fresh) (backup_held encode env version bin current old apart fs)
            (ap (λ w. w.1) (sym way) ∙ h))
  ]
