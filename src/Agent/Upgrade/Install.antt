-- ===== src/Agent/Upgrade/Install.antt =====
-- agent/release.go: where the old binary is while the new one is put in place.
pub mod Done
use mathlib.Core.Path.{subst}
use nodelume.Prelude.{
  ℕ, ◌≡◌, ◌⊎◌, refl, ap, ◌∙◌, sym, arith, Bool, true, false, not, List, [], ◌∷◌, ◌++◌, Option, none,
  some, Bytes, text, str_eq, str_eq_refl, if◌then◌else◌, Bool-cases, Option-cases, inl, inr,
}
use nodelume.Prelude.Map.{find, insert, delete, find-insert, find-delete}
use nodelume.Agent.Files.{
  Files, rename, remove, replace_file, replace_file-other, replace_file-works, rename-works,
  rename-fails, rename-other, remove-other,
}
use nodelume.Agent.Upgrade.{
  Environment, PendingUpdate, UpgradeError, Outcome, previous_of, pending_path, pending_tmp,
  write_pending, undo_install, note_install, put_binary, install,
}

-- The paths of an installation are different from each other.
pub record Apart (current bin : Bytes) : Type 0 where
  pub previous_current : str_eq (previous_of current) current ≡ false
  pub current_previous : str_eq current (previous_of current) ≡ false
  pub bin_current : str_eq bin current ≡ false
  pub bin_previous : str_eq bin (previous_of current) ≡ false
  pub current_bin : str_eq current bin ≡ false
  pub previous_bin : str_eq (previous_of current) bin ≡ false
  pub tmp_current : str_eq pending_tmp current ≡ false
  pub tmp_previous : str_eq pending_tmp (previous_of current) ≡ false
  pub pending_current : str_eq pending_path current ≡ false
  pub pending_previous : str_eq pending_path (previous_of current) ≡ false

-- The old binary is where it was, or where its backup is.
abbrev pub Kept : Bytes → Bytes → Files → Type 0
Kept old current fs = (find current fs ≡ some old) ⊎ (find (previous_of current) fs ≡ some old)

module _ (encode : PendingUpdate → Bytes) where
  write_pending-other :
      (env : Environment) (p : PendingUpdate) (path : Bytes) (fs : Files)
      → str_eq pending_tmp path ≡ false
      → str_eq pending_path path ≡ false
      → find path (write_pending encode env p fs).0 ≡ find path fs
  unfolding write_pending replace_file
  write_pending-other env p path fs =
      replace_file-other env.makes_dir env.writes_pending env.names_pending pending_tmp pending_path
        path (encode p) fs

  write_pending-noted :
      (env : Environment) (p : PendingUpdate) (fs : Files)
      → (write_pending encode env p fs).1 ≡ true
      → find pending_path (write_pending encode env p fs).0 ≡ some (encode p)
  unfolding write_pending replace_file
  write_pending-noted env p fs =
      replace_file-works env.makes_dir env.writes_pending env.names_pending pending_tmp pending_path
        (encode p) fs

  undo_install-restores :
      (env : Environment) (current old : Bytes) (e : UpgradeError) (fs : Files)
      → env.restores ≡ true
      → find (previous_of current) fs ≡ some old
      → find current (undo_install encode env current e fs).0 ≡ some old
  unfolding undo_install
  undo_install-restores env current old e fs works held =
      ap (λ b. find current (rename b (previous_of current) current fs).0) works
      ∙ ap (λ w. find current w.0) (rename-works (previous_of current) current old fs held)
      ∙ rw (find-insert, str_eq_refl)

  undo_install-Kept :
      (env : Environment) (current old : Bytes) (e : UpgradeError) (fs : Files)
      → find (previous_of current) fs ≡ some old
      → Kept old current (undo_install encode env current e fs).0
  unfolding undo_install
  undo_install-Kept env current old e fs held = elim (Bool-cases env.restores) [
    | inl works ↦ inl (undo_install-restores env current old e fs works held)
    | inr fails ↦ inr (
        ap (λ b. find (previous_of current) (rename b (previous_of current) current fs).0) fails
        ∙ ap (λ w. find (previous_of current) w.0) (rename-fails (previous_of current) current fs)
        ∙ held)
  ]

  module _ (env : Environment) (version bin current old : Bytes) (apart : Apart current bin) where
    abbrev pub noted : PendingUpdate
    noted = record {
      previous = previous_of current;
      current = current;
      target = version;
      installed_at = env.now;
    }

    -- The backup holds while the pending update is written and the new binary is dropped.
    after_pending :
        (fs : Files)
        → find (previous_of current) (write_pending encode env noted fs).0
          ≡ find (previous_of current) fs
    after_pending fs =
        write_pending-other env noted (previous_of current) fs apart.tmp_previous
          apart.pending_previous

    after_drop :
        (fs : Files)
        → find
            (previous_of current)
            (remove env.drops current (write_pending encode env noted fs).0).0
          ≡ find (previous_of current) fs
    after_drop fs =
        remove-other env.drops current (previous_of current) (write_pending encode env noted fs).0
          apart.current_previous
        ∙ after_pending fs

    note_install-noted :
        (fs : Files)
        → (write_pending encode env noted fs).1 ≡ true
        → note_install encode env version current fs ≡ ((write_pending encode env noted fs).0, none)
    unfolding note_install
    note_install-noted fs h = ground arith

    note_install-undone :
        (fs : Files)
        → (write_pending encode env noted fs).1 ≡ false
        → note_install encode env version current fs
          ≡ undo_install encode env current UpgradeError.pending_failed
              (remove env.drops current (write_pending encode env noted fs).0).0
    unfolding note_install
    note_install-undone fs h = ground arith

    note_install-Kept :
        (fs : Files)
        → find (previous_of current) fs ≡ some old
        → Kept old current (note_install encode env version current fs).0
    note_install-Kept fs held = elim (Bool-cases (write_pending encode env noted fs).1) [
      | inl written ↦ inr (
          ap (λ w. find (previous_of current) w.0) (note_install-noted fs written)
          ∙ after_pending fs
          ∙ held)
      | inr failed ↦
          subst (λ w. Kept old current w.0) (sym (note_install-undone fs failed))
            (undo_install-Kept env current old _ _ (after_drop fs ∙ held))
    ]

    put_binary-installed :
        (fs : Files)
        → (rename env.installs bin current fs).1 ≡ true
        → put_binary encode env version bin current fs
          ≡ note_install encode env version current (rename env.installs bin current fs).0
    unfolding put_binary
    put_binary-installed fs h = ground arith

    put_binary-undone :
        (fs : Files)
        → (rename env.installs bin current fs).1 ≡ false
        → put_binary encode env version bin current fs
          ≡ undo_install encode env current UpgradeError.install_failed
              (rename env.installs bin current fs).0
    unfolding put_binary
    put_binary-undone fs h = ground arith

    after_put :
        (fs : Files)
        → find (previous_of current) (rename env.installs bin current fs).0
          ≡ find (previous_of current) fs
    after_put fs =
        rename-other env.installs bin current (previous_of current) fs apart.bin_previous
          apart.current_previous

    put_binary-Kept :
        (fs : Files)
        → find (previous_of current) fs ≡ some old
        → Kept old current (put_binary encode env version bin current fs).0
    put_binary-Kept fs held = elim (Bool-cases (rename env.installs bin current fs).1) [
      | inl installed ↦
          subst (λ w. Kept old current w.0) (sym (put_binary-installed fs installed))
            (note_install-Kept (rename env.installs bin current fs).0 (after_put fs ∙ held))
      | inr failed ↦
          subst (λ w. Kept old current w.0) (sym (put_binary-undone fs failed))
            (undo_install-Kept env current old _ _ (after_put fs ∙ held))
    ]

    abbrev cleared : Files → Files
    cleared fs = (remove env.clears_previous (previous_of current) fs).0

    abbrev backed_up : Files → Files
    backed_up fs = insert (previous_of current) old (delete current (cleared fs))

    after_clear : (fs : Files) → find current fs ≡ some old → find current (cleared fs) ≡ some old
    after_clear fs held =
        remove-other env.clears_previous (previous_of current) current fs apart.previous_current
        ∙ held

    install-moved :
        (fs : Files)
        → env.backs_up ≡ true
        → find current fs ≡ some old
        → install encode env version bin current fs
          ≡ put_binary encode env version bin current (backed_up fs)
    unfolding install
    install-moved fs works held =
        rw
          (works, rename-works current (previous_of current) old (cleared fs) (after_clear fs held))

    install-unmoved :
        (fs : Files)
        → env.backs_up ≡ false
        → install encode env version bin current fs ≡ (cleared fs, some UpgradeError.backup_failed)
    unfolding install
    install-unmoved fs fails = rw (fails, rename-fails current (previous_of current) (cleared fs))

    backup_held : (fs : Files) → find (previous_of current) (backed_up fs) ≡ some old
    backup_held fs = rw (find-insert, str_eq_refl)

    -- Where the paths are different, an installation leaves the old binary in its place or in its
    -- backup, whatever fails.
    pub install-Kept :
        (fs : Files)
        → find current fs ≡ some old
        → Kept old current (install encode env version bin current fs).0
    install-Kept fs held = elim (Bool-cases env.backs_up) [
      | inl works ↦
          subst (λ w. Kept old current w.0) (sym (install-moved fs works held))
            (put_binary-Kept (backed_up fs) (backup_held fs))
      | inr fails ↦
          inl (ap (λ w. find current w.0) (install-unmoved fs fails) ∙ after_clear fs held)
    ]
