-- ===== src/Agent/Files.antt =====
-- The part of the file system that the agent changes: the contents of the files, by path. Whether a
-- call works is an argument; a `rename` is atomic, and a write that fails leaves an empty file.
use nodelume.Prelude.{
  str_eq_refl, ◌≡◌, ap, ◌∙◌, sym, arith, Bool, true, false, not, List, [], ◌∷◌, ◌++◌, none, some,
  Bytes, str_eq, if◌then◌else◌, Bool-cases, Option-cases, inl, inr,
}
use nodelume.Prelude.Map.{find, insert, delete, delete_where, find-insert, find-delete}
use nodelume.Text.{has_prefix}

abbrev pub Files : Type 0
Files = List (Bytes × Bytes)

unfoldable pub rename : Bool → Bytes → Bytes → Files → Files × Bool
rename works from to fs = elim (find from fs) [
  | none ↦ (fs, false)
  | some content ↦ if works then (insert to content (delete from fs), true) else (fs, false)
]

unfoldable pub remove : Bool → Bytes → Files → Files × Bool
remove works path fs = elim (find path fs) [
  | none ↦ (fs, false)
  | some _ ↦ if works then (delete path fs, true) else (fs, false)
]

unfoldable pub write_file : Bool → Bytes → Bytes → Files → Files × Bool
write_file works path content fs =
    if works then (insert path content fs, true) else (insert path [] fs, false)

-- A directory, then a temporary file in it, which gets its name at the end: each step may fail.
unfoldable pub replace_file : Bool → Bool → Bool → Bytes → Bytes → Bytes → Files → Files × Bool
replace_file makes_dir writes names tmp path content fs =
    let (fs1, written) = write_file writes tmp content fs in
    if not makes_dir
    then (fs, false)
    else if written
    then rename names tmp path fs1
    else (fs1, false)

-- `os.RemoveAll` of a directory.
abbrev pub is_inside : Bytes → Bytes → Bool
is_inside dir path = has_prefix path (dir ++ b'/' ∷ [])

unfoldable pub remove_all : Bytes → Files → Files
remove_all dir fs = delete_where (λ path _. is_inside dir path) fs

-- A rename that works moves the content.
pub rename-works :
    (from to content : Bytes) (fs : Files)
    → find from fs ≡ some content
    → rename true from to fs ≡ (insert to content (delete from fs), true)
unfolding rename
rename-works from to content fs h = rw (h, rename)

pub rename-fails : (from to : Bytes) (fs : Files) → rename false from to fs ≡ (fs, false)
unfolding rename
rename-fails from to fs = elim (Option-cases (find from fs)) [
  | inl gone ↦ rw (gone, rename)
  | inr (c, there) ↦ rw (there, rename)
]

-- Other files stay.
pub rename-other :
    (works : Bool) (from to path : Bytes) (fs : Files)
    → str_eq from path ≡ false
    → str_eq to path ≡ false
    → find path (rename works from to fs).0 ≡ find path fs
unfolding rename
rename-other works from to path fs f t = elim (Option-cases (find from fs)) [
  | inl gone ↦ rw (gone, rename)
  | inr (c, there) ↦ elim (Bool-cases works) [
    | inl fine ↦ rw (there, rename, fine, find-insert, t, find-delete, f)
    | inr broken ↦ rw (there, rename, broken)
  ]
]

pub remove-other :
    (works : Bool) (gone path : Bytes) (fs : Files)
    → str_eq gone path ≡ false
    → find path (remove works gone fs).0 ≡ find path fs
unfolding remove
remove-other works gone path fs h = elim (Option-cases (find gone fs)) [
  | inl absent ↦ rw (absent, remove)
  | inr (c, there) ↦ elim (Bool-cases works) [
    | inl fine ↦ rw (there, remove, fine, find-delete, h)
    | inr broken ↦ rw (there, remove, broken)
  ]
]

-- A file whose removal works is gone.
pub remove-gone :
    (works : Bool) (path : Bytes) (fs : Files)
    → (remove works path fs).1 ≡ true
    → find path (remove works path fs).0 ≡ none
unfolding remove
remove-gone works path fs h = elim (Option-cases (find path fs)) [
  | inl absent ↦ absurd (cc (rw (absent, remove) at h))
  | inr (c, there) ↦ elim (Bool-cases works) [
    | inl fine ↦ rw (there, remove, fine, find-delete, str_eq_refl)
    | inr broken ↦ absurd (cc (rw (there, remove, broken) at h))
  ]
]

pub write_file-other :
    (works : Bool) (to path content : Bytes) (fs : Files)
    → str_eq to path ≡ false
    → find path (write_file works to content fs).0 ≡ find path fs
unfolding write_file
write_file-other works to path content fs h = elim (Bool-cases works) [
  | inl fine ↦ rw (fine, find-insert, h)
  | inr broken ↦ rw (broken, find-insert, h)
]

pub replace_file-other :
    (makes_dir writes names : Bool) (tmp to path content : Bytes) (fs : Files)
    → str_eq tmp path ≡ false
    → str_eq to path ≡ false
    → find path (replace_file makes_dir writes names tmp to content fs).0 ≡ find path fs
unfolding replace_file
replace_file-other makes_dir writes names tmp to path content fs t n =
    let fs1 = (write_file writes tmp content fs).0 in
    let kept = write_file-other writes tmp path content fs t in
    let moved = rename-other names tmp to path fs1 t n in ground arith

-- Where every step worked, the file has the new content.
pub replace_file-works :
    (makes_dir writes names : Bool) (tmp to content : Bytes) (fs : Files)
    → (replace_file makes_dir writes names tmp to content fs).1 ≡ true
    → find to (replace_file makes_dir writes names tmp to content fs).0 ≡ some content
unfolding replace_file write_file
replace_file-works false writes names tmp to content fs h = absurd (cc (h))
replace_file-works true false names tmp to content fs h = absurd (cc (h))
replace_file-works true true false tmp to content fs h =
    absurd (cc (ap (λ w. w.1) (sym (rename-fails tmp to (insert tmp content fs))) ∙ h))
replace_file-works true true true tmp to content fs h =
    let there : find tmp (insert tmp content fs) ≡ some content = rw (find-insert, str_eq_refl) in
    ap (λ w. find to w.0) (rename-works tmp to content (insert tmp content fs) there)
    ∙ rw (find-insert, str_eq_refl)
