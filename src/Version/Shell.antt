-- ===== src/Version/Shell.antt =====
-- A word that the program quotes is read by the shell as one word, with its bytes unchanged.
use nodelume.Prelude.{
  ◌&&◌, leb, Bool, ℕ, ◌≡◌, refl, arith, ◌||◌, [], ◌∷◌, ◌++◌, append_assoc, append-nil, Option, none,
  some, ◌==◌, if◌then◌else◌, Bytes,
}
use nodelume.Text.{replace_byte}
use nodelume.Version.{shell_quote}

-- Where the reader stands: before the word, in it outside quotes, in single quotes, behind a
-- backslash.
pub data Mode : Type 0 where
  start plain quoted escaped : Mode

abbrev cons_to : ℕ → Option (Bytes × Bytes) → Option (Bytes × Bytes)
cons_to c none = none
cons_to c (some (w, rest)) = some (c ∷ w, rest)

-- The bytes that stand for themselves outside quotes wherever they are in a word: letters, digits
-- and `+`, `,`, `-`, `.`, `/`, `:`, `@`, `_`. To all others a POSIX shell may give a meaning.
abbrev pub is_ordinary : ℕ → Bool
is_ordinary c =
    (leb b'a' c && leb c b'z')
    || (leb b'A' c && leb c b'Z')
    || (leb b'0' c && leb c b'9')
    || (leb b'+' c && leb c b'/')
    || c == b':'
    || c == b'@'
    || c == b'_'

-- The word at the head of a command line and what follows it. It is `none` wherever a POSIX shell
-- could read the bytes differently: for an unquoted byte that is not ordinary, for a blank where a
-- word should begin, for a line that goes on behind a backslash, and for an unclosed quote.
unfoldable pub read_word : Mode → Bytes → Option (Bytes × Bytes)
read_word Mode.start [] = none
read_word Mode.plain [] = some ([], [])
read_word Mode.quoted [] = none
read_word Mode.escaped [] = none
read_word Mode.start (c ∷ s) =
    let open_quote = read_word Mode.quoted s in
    let escape = read_word Mode.escaped s in
    let literal = cons_to c (read_word Mode.plain s) in
    if c == b'\''
    then open_quote
    else if c == b'\\'
    then escape
    else if is_ordinary c
    then literal
    else none
read_word Mode.plain (c ∷ s) =
    let open_quote = read_word Mode.quoted s in
    let escape = read_word Mode.escaped s in
    let literal = cons_to c (read_word Mode.plain s) in
    if c == 32 || c == 10
    then some ([], c ∷ s)
    else if c == b'\''
    then open_quote
    else if c == b'\\'
    then escape
    else if is_ordinary c
    then literal
    else none
read_word Mode.quoted (c ∷ s) =
    let close_quote = read_word Mode.plain s in
    let literal = cons_to c (read_word Mode.quoted s) in if c == b'\'' then close_quote else literal
read_word Mode.escaped (c ∷ s) =
    let literal = cons_to c (read_word Mode.plain s) in if c == 10 then none else literal

abbrev escaped_quote : Bytes
escaped_quote = b'\'' ∷ b'\\' ∷ b'\'' ∷ b'\'' ∷ []

abbrev prepend : Bytes → Option (Bytes × Bytes) → Option (Bytes × Bytes)
prepend [] o = o
prepend (c ∷ s) o = cons_to c (prepend s o)

read_word-replace :
    (s rest : Bytes)
    → read_word Mode.quoted (replace_byte b'\'' escaped_quote s ++ rest)
      ≡ prepend s (read_word Mode.quoted rest)
unfolding read_word replace_byte
read_word-replace [] rest = refl
read_word-replace (c ∷ s) rest = ground (arith, read_word-replace s rest)

prepend-some : (s w rest : Bytes) → prepend s (some (w, rest)) ≡ some (s ++ w, rest)
prepend-some [] w rest = refl
prepend-some (c ∷ s) w rest = rw (prepend-some s w rest)

-- A quoted text that a blank follows is one word of the shell, equal to the text.
pub read_word-shell_quote :
    (s rest : Bytes) → read_word Mode.start (shell_quote s ++ 32 ∷ rest) ≡ some (s, 32 ∷ rest)
unfolding shell_quote read_word
read_word-shell_quote s rest =
    rw (append_assoc (replace_byte b'\'' escaped_quote s) (b'\'' ∷ []) (32 ∷ rest)) (
      rw (read_word-replace s (b'\'' ∷ 32 ∷ rest))
        (rw (prepend-some s [] (32 ∷ rest)) (rw append-nil)))

-- The same where a line ends.
pub read_word-shell_quote_line :
    (s rest : Bytes) → read_word Mode.start (shell_quote s ++ 10 ∷ rest) ≡ some (s, 10 ∷ rest)
unfolding shell_quote read_word
read_word-shell_quote_line s rest =
    rw (append_assoc (replace_byte b'\'' escaped_quote s) (b'\'' ∷ []) (10 ∷ rest)) (
      rw (read_word-replace s (b'\'' ∷ 10 ∷ rest))
        (rw (prepend-some s [] (10 ∷ rest)) (rw append-nil)))
