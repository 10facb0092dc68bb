-- ===== src/Release/Manifest.antt =====
-- server/release.go: what `checksumFor` finds in a manifest.
use mathlib.Core.List.{reverse, reverse-cons}
use nodelume.Prelude.{
  ℕ, zero, suc, ◌-◌, ◌≡◌, refl, ap, ◌∙◌, sym, arith, false, List, [], ◌∷◌, ◌++◌, none, some, Bytes,
  is_empty, ◌==◌, Bool-cases, Option-cases, inl, inr,
}
use nodelume.Text.{fields, fields_from, space_width, split}
use nodelume.Release.{words_checksum, line_checksum, find_checksum, checksum_for, non_empty}

-- No line is about the file.
abbrev pub NoneListed : Bytes → List Bytes → Type 0
NoneListed name [] = Unit
NoneListed name (line ∷ rest) = (line_checksum name line ≡ none) × NoneListed name rest

-- The first line about the file, with its place.
pub record Listed (name : Bytes) (lines : List Bytes) (want : Bytes) : Type 0 where
  pub before : List Bytes
  pub line : Bytes
  pub after : List Bytes
  pub place : lines ≡ before ++ line ∷ after
  pub skipped : NoneListed name before
  pub found : line_checksum name line ≡ some want

find_checksum-here :
    (name line : Bytes) (rest : List Bytes) (w : Bytes)
    → line_checksum name line ≡ some w
    → find_checksum name (line ∷ rest) ≡ some w
unfolding find_checksum
find_checksum-here name line rest w h = rw (h, find_checksum)

find_checksum-skip :
    (name line : Bytes) (rest : List Bytes)
    → line_checksum name line ≡ none
    → find_checksum name (line ∷ rest) ≡ find_checksum name rest
unfolding find_checksum
find_checksum-skip name line rest h = rw (h, find_checksum)

find_checksum-Listed :
    (name : Bytes) (lines : List Bytes) (want : Bytes)
    → find_checksum name lines ≡ some want
    → Listed name lines want
unfolding find_checksum
find_checksum-Listed name [] want h = absurd (cc)
find_checksum-Listed name (line ∷ rest) want h = elim (Option-cases (line_checksum name line)) [
  | inr (w, found) ↦ record {
    before = [];
    line = line;
    after = rest;
    place = refl;
    skipped = tt;
    found = found ∙ sym (find_checksum-here name line rest w found) ∙ h;
  }
  | inl other ↦
      let l =
        find_checksum-Listed name rest want (sym (find_checksum-skip name line rest other) ∙ h) in
      record {
        before = line ∷ l.before;
        line = l.line;
        after = l.after;
        place = ap (◌∷◌ line) l.place;
        skipped = (other, l.skipped);
        found = l.found;
      }
]

-- The checksum that is found stands first on the first line of the manifest whose last word is the
-- name of the file, with or without an asterisk.
pub checksum_for-Listed :
    (manifest name want : Bytes)
    → checksum_for manifest name ≡ some want
    → Listed name (split 10 manifest) want
unfolding checksum_for
checksum_for-Listed manifest name want h = find_checksum-Listed name (split 10 manifest) want h

-- The words of `fields` are not empty.
abbrev NoneEmpty : List Bytes → Type 0
NoneEmpty [] = Unit
NoneEmpty (w ∷ ws) = (is_empty w ≡ false) × NoneEmpty ws

is_empty-append_one : (s : Bytes) (c : ℕ) → is_empty (s ++ c ∷ []) ≡ false
is_empty-append_one [] c = refl
is_empty-append_one (_ ∷ _) c = refl

is_empty-reverse : (s : Bytes) → is_empty s ≡ false → is_empty (reverse s) ≡ false
is_empty-reverse [] h = absurd (cc)
is_empty-reverse (c ∷ s) h = ap is_empty (reverse-cons c s) ∙ is_empty-append_one (reverse s) c

fields_from-NoneEmpty : (s : Bytes) (k : ℕ) (word : Bytes) → NoneEmpty (fields_from s k word)
unfolding fields_from
fields_from-NoneEmpty [] k [] = tt
fields_from-NoneEmpty [] k (c ∷ word) = (is_empty-reverse (c ∷ word) refl, tt)
fields_from-NoneEmpty (c ∷ s) (suc k) word = fields_from-NoneEmpty s k word
fields_from-NoneEmpty (c ∷ s) zero word = elim (Bool-cases (space_width (c ∷ s) == 0)) [
  | inl letter ↦ rw letter (fields_from-NoneEmpty s 0 (c ∷ word))
  | inr space ↦ elim (Bool-cases (is_empty word)) [
    | inl fresh ↦ rw (space, fresh) (fields_from-NoneEmpty s (space_width (c ∷ s) - 1) [])
    | inr ended ↦
        rw (space, ended)
          (is_empty-reverse word ended, fields_from-NoneEmpty s (space_width (c ∷ s) - 1) [])
  ]
]

words_checksum-non_empty :
    (name : Bytes) (ws : List Bytes) (w : Bytes)
    → NoneEmpty ws
    → words_checksum name ws ≡ some w
    → is_empty w ≡ false
words_checksum-non_empty name [] w n h = absurd (cc)
words_checksum-non_empty name (v ∷ []) w n h = absurd (cc)
words_checksum-non_empty name (u ∷ v ∷ vs) w (n, _) h = ground arith

-- So the test of the file checks for an empty checksum changes nothing.
pub non_empty-checksum_for :
    (manifest name : Bytes) → non_empty (checksum_for manifest name) ≡ checksum_for manifest name
unfolding line_checksum fields
non_empty-checksum_for manifest name = elim (Option-cases (checksum_for manifest name)) [
  | inl absent ↦ rw absent
  | inr (w, found) ↦
      let l = checksum_for-Listed manifest name w found in
      let full =
        words_checksum-non_empty name (fields l.line) w (fields_from-NoneEmpty l.line 0 [])
          l.found in
      rw (found, full)
]
