-- ===== src/Agent/Helper/Start/Script.antt =====
-- agent/helper.go: the script of `startRecord`, as a shell reads it.
use nodelume.Prelude.{
  refl, ℕ, zero, suc, ◌≡◌, ap, ◌∙◌, ◌==◌, List, [], ◌∷◌, ◌++◌, append_assoc, Option, none, some,
  Bytes, length, if◌then◌else◌,
}
use nodelume.Version.{shell_quote}
use nodelume.Version.Shell.{Mode, read_word, read_word-shell_quote, read_word-shell_quote_line}
use nodelume.Agent.Helper.Process.{StoredRecord}
use nodelume.Agent.Helper.Start.{quote_shell_arg, quoted_args, behind_first, exec_words}

-- The helper quotes as the server does.
quote_shell_arg_lem : (v : Bytes) → quote_shell_arg v ≡ shell_quote v
unfolding quote_shell_arg shell_quote
quote_shell_arg_lem v = refl

-- A word, and the words behind it if a blank follows.
unfoldable pub words_behind : Bytes → Bytes → Option (List Bytes) → Option (List Bytes)
words_behind w [] others = some (w ∷ [])
words_behind w (c ∷ rest) others =
    if c == 32 then elim others [ none ↦ none | some ws ↦ some (w ∷ ws) ] else some (w ∷ [])

unfoldable pub behind_blank : Bytes → Bytes
behind_blank [] = []
behind_blank (_ ∷ rest) = rest

-- The words of a command line up to the end of the line; `none` where one of them is not certain.
unfoldable pub read_words : ℕ → Bytes → Option (List Bytes)
read_words zero s = none
read_words (suc fuel) s = elim (read_word Mode.start s) [
  | none ↦ none
  | some (w, rest) ↦ words_behind w rest (read_words fuel (behind_blank rest))
]

read_words-last :
    (fuel : ℕ) (w rest : Bytes)
    → read_words (suc fuel) (quote_shell_arg w ++ 10 ∷ rest) ≡ some (w ∷ [])
unfolding read_words words_behind
read_words-last fuel w rest =
    rw (quote_shell_arg_lem w) (rw (read_word-shell_quote_line w rest, read_words))

read_words-more :
    (fuel : ℕ) (w rest : Bytes) (ws : List Bytes)
    → read_words fuel rest ≡ some ws
    → read_words (suc fuel) (quote_shell_arg w ++ 32 ∷ rest) ≡ some (w ∷ ws)
unfolding read_words words_behind behind_blank
read_words-more fuel w rest ws h =
    rw (quote_shell_arg_lem w) (rw (read_word-shell_quote w rest, read_words, h))

read_words-quoted_args :
    (w rest : Bytes) (args : List Bytes)
    → read_words (suc (length args)) (quote_shell_arg w ++ (quoted_args args ++ 10 ∷ rest))
      ≡ some (w ∷ args)
unfolding quoted_args
read_words-quoted_args w rest [] = read_words-last 0 w rest
read_words-quoted_args w rest (a ∷ args) =
    let split = append_assoc (quote_shell_arg a) (quoted_args args) (10 ∷ rest) in
    read_words-more (suc (length args)) w ((quote_shell_arg a ++ quoted_args args) ++ 10 ∷ rest)
      (a ∷ args) (ap (read_words (suc (length args))) split ∙ read_words-quoted_args a rest args)

-- The line of the script is read, with nothing left to the shell to expand, split or interpret, as
-- the kept program and the kept arguments, unchanged and none more, whatever bytes they have.
pub exec_words_lem :
    (r : StoredRecord) (first : Bytes) (others : List Bytes) (rest : Bytes)
    → r.args ≡ first ∷ others
    → read_words (suc (length others)) (exec_words r ++ 10 ∷ rest) ≡ some (r.exe ∷ others)
unfolding exec_words behind_first
exec_words_lem r first others rest h =
    ap
      (λ l.
        read_words (suc (length others))
          ((quote_shell_arg r.exe ++ quoted_args (behind_first l)) ++ 10 ∷ rest))
      h
    ∙ ap (read_words (suc (length others)))
        (append_assoc (quote_shell_arg r.exe) (quoted_args others) (10 ∷ rest))
    ∙ read_words-quoted_args r.exe rest others
